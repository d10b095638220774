-- ===== src/React.antt =====
-- engine/execution/react: the loop that calls the model and its tools.
pub mod Cap
