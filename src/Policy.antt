-- ===== src/Policy.antt =====
-- engine/safety/tool_policy.py: the gateway that every tool call passes before it is executed.
--
-- A checker may change state when it is asked (the fact gate remembers what it has challenged), so
-- the state of all checkers is passed along, and the checkers behind a blocker are not asked.
pub mod Answers
pub mod Verdict
mod Tests
use helve.Base.{
  ℕ, Bool, true, false, not, Option, none, some, List, [], ◌∷◌, ◌++◌, ltb, if◌then◌else◌, Text,
  codes,
}
use helve.Risk.{
  RiskTier, routine, PermissionLevel, read, write, execute, destructive, weight, max_tier,
}
use helve.Approval.{ApprovalScope}

-- _LEVEL_ORDER
unfoldable pub level_order : PermissionLevel → ℕ
level_order read = 0
level_order write = 1
level_order execute = 2
level_order destructive = 3

pub record ToolPolicyDecision : Type 0 where
  pub allowed : Bool
  pub reason : Text
  pub level : PermissionLevel
  pub needs_confirmation : Bool
  pub approval_required : Bool
  pub challenged : Bool
  pub approval_scope : Option ApprovalScope
  pub risk : RiskTier

unfoldable pub observation : ToolPolicyDecision → Text
observation d =
    if d.allowed
    then []
    else if d.challenged
    then codes "[PREFLIGHT] " ++ d.reason
    else codes "[BLOCKED] " ++ d.reason

-- The fields of tool_guard.py's result that its adapter reads.
pub record GuardResult : Type 0 where
  pub allowed : Bool
  pub reason : Text
  pub level : PermissionLevel
  pub needs_confirmation : Bool
  pub approval_required : Bool
  pub approval_scope : Option ApprovalScope
  pub risk : RiskTier

unfoldable pub guard_decision : GuardResult → ToolPolicyDecision
guard_decision r = record {
  allowed = if r.approval_required then false else r.allowed;
  reason = r.reason;
  level = r.level;
  needs_confirmation = if r.approval_required then true else r.needs_confirmation;
  approval_required = r.approval_required;
  challenged = false;
  approval_scope = r.approval_scope;
  risk = r.risk;
}

abbrev pub passing : PermissionLevel → RiskTier → ToolPolicyDecision
passing level risk = record {
  allowed = true;
  reason = [];
  level = level;
  needs_confirmation = false;
  approval_required = false;
  challenged = false;
  approval_scope = none;
  risk = risk;
}

pub record FactResult : Type 0 where
  pub challenged : Bool
  pub reason : Text

unfoldable pub fact_decision : FactResult → ToolPolicyDecision
fact_decision r =
    if r.challenged
    then (record (passing read routine) { allowed = false; reason = r.reason; challenged = true })
    else passing read routine

abbrev pub is_read : PermissionLevel → Bool
is_read read = true
is_read _ = false

-- decision.level if decision.level != PermissionLevel.READ else level
abbrev pub level_or : PermissionLevel → PermissionLevel → PermissionLevel
level_or asked level = if is_read asked then level else asked

-- The decision passed on for a checker that did not allow the call, with what was seen before it.
abbrev pub blocked : PermissionLevel → RiskTier → ToolPolicyDecision → ToolPolicyDecision
blocked level risk d = record {
  allowed = false;
  reason = d.reason;
  level = level_or d.level level;
  needs_confirmation = d.needs_confirmation;
  approval_required = d.approval_required;
  challenged = d.challenged;
  approval_scope = d.approval_scope;
  risk = max_tier (some risk ∷ some d.risk ∷ []);
}

abbrev pub raise_level : PermissionLevel → PermissionLevel → PermissionLevel
raise_level asked level = if ltb (level_order level) (level_order asked) then asked else level

pub record PolicyChecker (S Call : Type 0) : Type 0 where
  pub check_policy : Call → S → ToolPolicyDecision × S
  -- `none` for a checker that has no such method.
  pub begin_round : Option (S → S)

abbrev pub finish_with : PermissionLevel → RiskTier → Option ToolPolicyDecision → ToolPolicyDecision
finish_with level risk (some deferred) = deferred
finish_with level risk none = passing level risk

module _ {S Call : Type 0} where
  -- The loop of ToolPolicy.evaluate over the checkers that are left.
  unfoldable pub evaluate_from :
      PermissionLevel
      → RiskTier
      → Option ToolPolicyDecision
      → List (PolicyChecker S Call)
      → Call
      → S
      → ToolPolicyDecision × S
  unfolding level_order weight max_tier
  evaluate_from level risk deferred [] call s = (finish_with level risk deferred, s)
  evaluate_from level risk deferred (c ∷ cs) call s =
      let (d, s') = c.check_policy call s in
      let later = evaluate_from level risk (some (blocked level risk d)) cs call s' in
      let next =
        evaluate_from (raise_level d.level level) (max_tier (some risk ∷ some d.risk ∷ [])) deferred
          cs call s' in
      if not d.allowed
      then (if d.approval_required then later else (blocked level risk d, s'))
      else next

  unfoldable pub evaluate : List (PolicyChecker S Call) → Call → S → ToolPolicyDecision × S
  unfolding evaluate_from
  evaluate = evaluate_from read routine none

  unfoldable pub begin_round_all : List (PolicyChecker S Call) → S → S
  begin_round_all [] s = s
  begin_round_all (c ∷ cs) s = begin_round_all cs (elim c.begin_round [ none ↦ s | some f ↦ f s ])
