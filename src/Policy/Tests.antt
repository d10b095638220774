-- ===== src/Policy/Tests.antt =====
-- The gateway with a guard that asks for an approval, and a fact gate that challenges once.
use helve.Base.{Bool, true, false, ◌≡◌, none, [], ◌∷◌, all, not, codes}
use helve.Risk.{elevated, high, write}
use helve.Policy.{
  ToolPolicyDecision, GuardResult, PolicyChecker, guard_decision, fact_decision, evaluate, passing,
}
use helve.Policy.Answers.{verdicts}
use helve.Policy.Verdict.{evaluate_allows}

abbrev Checker : Type 0
Checker = PolicyChecker Bool (Unit {0})

abbrev asking : GuardResult
asking = record {
  allowed = false;
  reason = codes "outside the workspace";
  level = write;
  needs_confirmation = true;
  approval_required = true;
  approval_scope = none;
  risk = elevated;
}

abbrev guard : Checker
guard = record { check_policy = λ call s. (guard_decision asking, s); begin_round = none }

-- Its state says whether it has challenged already.
abbrev gate : Checker
gate = record {
  check_policy = λ call s.
      (fact_decision (record { challenged = not s; reason = codes "read it first" }), true);
  begin_round = none;
}

abbrev writer : Checker
writer = record { check_policy = λ call s. (passing write high, s); begin_round = none }

evaluate_allows_example :
    (evaluate (writer ∷ gate ∷ []) tt true).0.allowed
    ≡ all (λ (d : ToolPolicyDecision). d.allowed) (verdicts (writer ∷ gate ∷ []) tt true)
evaluate_allows_example = evaluate_allows tt (writer ∷ gate ∷ []) true
