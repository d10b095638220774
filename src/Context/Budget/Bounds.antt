-- ===== src/Context/Budget/Bounds.antt =====
-- The parts of a budget never exceed the window.
use helve.Base.{ℕ, ◌+◌, ◌≤◌, ◌<◌, ◌≡◌, ◌⊎◌, Bool, false, arith, max}
use helve.Base.Int.{pos, pos_part}
use helve.Context.Budget.{
  ModelLimits, Adapter, Attribute, untyped, integer, limit_of, model_limits_for, context_budget_for,
  context_compaction_trigger, default_context_window, default_max_output_tokens,
}

-- The effective window is at least 1 and at most the declared one and 128000; the input budget is
-- positive and within it, and the compaction trigger is positive and within the input budget.
pub context_budget_for_bounds :
    (limits : ModelLimits)
    → let b = context_budget_for limits in
      (1 ≤ b.effective_context_window)
      × (b.effective_context_window ≤ max 1 (pos_part limits.context_window))
      × (b.effective_context_window ≤ context_compaction_trigger)
      × (1 ≤ b.safe_input_budget)
      × (b.safe_input_budget ≤ b.effective_context_window)
      × (1 ≤ b.compaction_trigger)
      × (b.compaction_trigger ≤ b.safe_input_budget)
unfolding context_budget_for
context_budget_for_bounds limits = omega arith

-- From a declared window of two tokens on, the output reserve, the safety margin and the input
-- budget are parts of the effective window that add up to it exactly, and the reserve is positive.
pub context_budget_for_partition :
    (limits : ModelLimits)
    → 2 ≤ pos_part limits.context_window
    → let b = context_budget_for limits in
      (b.output_reserve + b.safety_margin + b.safe_input_budget ≡ b.effective_context_window)
      × (1 ≤ b.output_reserve)
      × (b.output_reserve ≤ max 1 (pos_part limits.max_output_tokens))
unfolding context_budget_for
context_budget_for_partition limits h = omega arith

limit_of_positive :
    (a : Attribute) (declared : Bool) (default : ℕ)
    → 0 < default
    → (0 < pos_part (limit_of a declared default).0)
      × (((limit_of a declared default).0 ≡ pos default) × ((limit_of a declared default).1 ≡ false)
          ⊎ (integer (limit_of a declared default).0 ≡ a)
            × ((limit_of a declared default).1 ≡ declared))
limit_of_positive a declared default h = ground arith

-- The limits of an adapter without typed ones are positive; each is either the integer that the
-- adapter reports, with its word on whether it is declared, or the default, and then undeclared.
pub model_limits_for_positive :
    (llm : Adapter)
    → let l = model_limits_for (untyped llm) in
      (0 < pos_part l.context_window)
      × (0 < pos_part l.max_output_tokens)
      × ((l.context_window ≡ pos default_context_window) × (l.context_window_declared ≡ false)
          ⊎ (integer l.context_window ≡ llm.context_window)
            × (l.context_window_declared ≡ llm.context_window_declared))
      × ((l.max_output_tokens ≡ pos default_max_output_tokens)
            × (l.max_output_tokens_declared ≡ false)
          ⊎ (integer l.max_output_tokens ≡ llm.max_output_tokens)
            × (l.max_output_tokens_declared ≡ llm.max_output_tokens_declared))
unfolding model_limits_for
model_limits_for_positive llm =
    let window =
      limit_of_positive llm.context_window llm.context_window_declared default_context_window
        (omega arith) in
    let output =
      limit_of_positive llm.max_output_tokens llm.max_output_tokens_declared
        default_max_output_tokens (omega arith) in
    (window.0, output.0, window.1, output.1)
