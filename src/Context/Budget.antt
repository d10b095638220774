-- ===== src/Context/Budget.antt =====
-- engine/context/budget.py: the capacity that one complete request may use.
--
-- The two products with a float are those of IEEE doubles, truncated: on every window up to 128000
-- they are the integer quotients written here.
pub mod Bounds
use helve.Base.{ℕ, ◌-◌, ◌*◌, ◌/◌, Bool, true, false, ltb, if◌then◌else◌, min, max}
use helve.Base.Int.{ℤ, pos, negsuc, pos_part}

abbrev pub default_context_window : ℕ
default_context_window = 128000

abbrev pub default_max_output_tokens : ℕ
default_max_output_tokens = 4096

abbrev pub context_compaction_trigger : ℕ
context_compaction_trigger = 128000

-- llm/contracts.py
pub record ModelLimits : Type 0 where
  pub context_window : ℤ
  pub context_window_declared : Bool
  pub max_output_tokens : ℤ
  pub max_output_tokens_declared : Bool

pub record ContextBudget : Type 0 where
  pub model_context_window : ℤ
  pub effective_context_window : ℕ
  pub output_reserve : ℕ
  pub safety_margin : ℕ
  pub safe_input_budget : ℕ
  pub compaction_trigger : ℕ
  pub window_declared : Bool
  pub output_limit_declared : Bool

-- What `getattr(llm, name, None)` yields: an integer (a bool is none here), or anything else.
pub data Attribute : Type 0 where
  integer : ℤ → Attribute
  other : Attribute

-- The adapter behind the fallback: its two attributes and whether each says it is declared.
pub record Adapter : Type 0 where
  pub context_window : Attribute
  pub context_window_declared : Bool
  pub max_output_tokens : Attribute
  pub max_output_tokens_declared : Bool

-- A typed `limits` attribute, or an adapter without one.
pub data Model : Type 0 where
  typed : ModelLimits → Model
  untyped : Adapter → Model

-- The value and whether it is declared, or the default.
abbrev pub limit_of : Attribute → Bool → ℕ → ℤ × Bool
limit_of (integer (pos n)) declared default =
    if ltb 0 n then (pos n, declared) else (pos default, false)
limit_of (integer (negsuc n)) declared default = (pos default, false)
limit_of other declared default = (pos default, false)

unfoldable pub model_limits_for : Model → ModelLimits
model_limits_for (typed limits) = limits
model_limits_for (untyped llm) =
    let (window, context_declared) =
      limit_of llm.context_window llm.context_window_declared default_context_window in
    let (output, output_declared) =
      limit_of llm.max_output_tokens llm.max_output_tokens_declared default_max_output_tokens in
    record {
      context_window = window;
      context_window_declared = context_declared;
      max_output_tokens = output;
      max_output_tokens_declared = output_declared;
    }

unfoldable pub context_budget_for : ModelLimits → ContextBudget
context_budget_for limits =
    let effective_window =
      min (max 1 (pos_part limits.context_window)) context_compaction_trigger in
    let output_reserve =
      min (max 1 (pos_part limits.max_output_tokens)) (max (effective_window - 1) 1) in
    let safety_margin =
      min (max 256 (effective_window / 10)) (effective_window - output_reserve - 1) in
    let safe_input_budget = max 1 (effective_window - output_reserve - safety_margin) in
    record {
      model_context_window = limits.context_window;
      effective_context_window = effective_window;
      output_reserve = output_reserve;
      safety_margin = safety_margin;
      safe_input_budget = safe_input_budget;
      compaction_trigger = max 1 (safe_input_budget * 17 / 20);
      window_declared = limits.context_window_declared;
      output_limit_declared = limits.max_output_tokens_declared;
    }
