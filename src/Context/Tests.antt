-- ===== src/Context/Tests.antt =====
-- A small conversation with old tool output, and the limits of one model.
use helve.Base.{
  ◌≡◌, ◌+◌, ◌≤◌, refl, true, false, none, some, List, [], ◌∷◌, ◌++◌, arith, codes, Text, max,
}
use helve.Base.Int.{pos, pos_part}
use helve.Context.Budget.{ModelLimits, context_budget_for}
use helve.Context.Budget.Bounds.{context_budget_for_partition}
use helve.Context.Tokens.{estimate_tokens, is_wide_char, wide_count}
use helve.Context.Conversation.{
  Message, Role, system, user, tool, active_turn_bounds, is_request_turn, leading_systems,
  newest_request,
}
use helve.Context.Prune.{prune_tool_outputs, walk}

abbrev said : Role → Text → Message
said role content = record { role = role; content = some content; tool_calls = none; rest = [] }

abbrev older : List Message
older =
    said system (codes "contract")
    ∷ said user (codes "first request")
    ∷ said tool (codes "a long old listing")
    ∷ []

abbrev recent : List Message
recent =
    said user (codes "second request")
    ∷ said tool (codes "a listing")
    ∷ said user (codes "[Current time]\n12:00")
    ∷ []

abbrev small_model : ModelLimits
small_model = record {
  context_window = pos 8000;
  context_window_declared = true;
  max_output_tokens = pos 1000;
  max_output_tokens_declared = false;
}

small_budget : (context_budget_for small_model).safe_input_budget ≡ 6200
unfolding context_budget_for
small_budget = refl

context_budget_for_partition_example :
    let b = context_budget_for small_model in
    (b.output_reserve + b.safety_margin + b.safe_input_budget ≡ b.effective_context_window)
    × (1 ≤ b.output_reserve)
    × (b.output_reserve ≤ max 1 (pos_part small_model.max_output_tokens))
context_budget_for_partition_example = context_budget_for_partition small_model (omega arith)

mixed_estimate : estimate_tokens (codes "abcd漢") ≡ 5
unfolding estimate_tokens wide_count is_wide_char
mixed_estimate = refl

bounds : active_turn_bounds (older ++ recent) ≡ (1, some 3)
unfolding active_turn_bounds is_request_turn leading_systems newest_request
bounds = refl

pruned_chars : (prune_tool_outputs 8 10 (older ++ recent)).1 ≡ 18
unfolding prune_tool_outputs walk
pruned_chars = refl
