-- ===== src/Context.antt =====
-- engine/context: what a model request costs, and how a conversation is made to fit.
pub mod Budget
pub mod Tokens
pub mod Conversation
pub mod Prune
pub mod Trim
pub mod Fitting
mod Tests
