-- ===== src/Policy/Verdict.antt =====
-- What the answers of the checkers, in their order, make of a call.
use helve.Base.{
  sym, ◌∙◌, subst, ◌≡◌, refl, true, false, Option, none, some, List, [], ◌∷◌, arith, all, All,
  Bool-cases, inl, inr,
}
use helve.Risk.{RiskTier, PermissionLevel, read, routine, max_tier}
use helve.Policy.{ToolPolicyDecision, PolicyChecker, evaluate, evaluate_from, blocked, raise_level}
use helve.Policy.Answers.{
  verdicts, first_block, last_deferral, PassesOn, Covers, CoversAll, max_tier_right, max_tier_left,
  raise_level_both, blocked-PassesOn, choose_if, choose_defer, choose_block, and-true, and-false,
  Deferred,
}

module _ {S Call : Type 0} (call : Call) (l : PermissionLevel) (t : RiskTier)
    (o : Option ToolPolicyDecision) (c : PolicyChecker S Call) (cs : List (PolicyChecker S Call))
    (s : S) where
  abbrev asked : ToolPolicyDecision
  asked = (c.check_policy call s).0

  abbrev state : S
  state = (c.check_policy call s).1

  from_allowed :
      asked.allowed ≡ true
      → evaluate_from l t o (c ∷ cs) call s
        ≡ evaluate_from
            (raise_level asked.level l)
            (max_tier (some t ∷ some asked.risk ∷ []))
            o
            cs
            call
            state
  unfolding evaluate_from
  from_allowed h = choose_if asked.allowed _ _ h

  from_deferred :
      asked.allowed ≡ false
      → asked.approval_required ≡ true
      → evaluate_from l t o (c ∷ cs) call s
        ≡ evaluate_from l t (some (blocked l t asked)) cs call state
  unfolding evaluate_from
  from_deferred h q = choose_defer asked.allowed asked.approval_required _ _ _ h q

  from_blocked :
      asked.allowed ≡ false
      → asked.approval_required ≡ false
      → evaluate_from l t o (c ∷ cs) call s ≡ (blocked l t asked, state)
  unfolding evaluate_from
  from_blocked h q = choose_block asked.allowed asked.approval_required _ _ _ h q

module _ {S Call : Type 0} (call : Call) where
  -- A checker that blocks outright decides, whatever approvals others have asked for.
  from_blocks :
      (l : PermissionLevel) (t : RiskTier) (o : Option ToolPolicyDecision)
      (cs : List (PolicyChecker S Call)) (s : S) (d : ToolPolicyDecision)
      → first_block (verdicts cs call s) ≡ some d
      → PassesOn d (evaluate_from l t o cs call s).0
  unfolding evaluate_from
  from_blocks l t o [] s d e = absurd (cc)
  from_blocks l t o (c ∷ cs) s d e =
      let a = (c.check_policy call s).0 in
      let s' = (c.check_policy call s).1 in
      elim (Bool-cases a.allowed) [
        | inl h ↦ rw (from_allowed call l t o c cs s h) (
            from_blocks (raise_level a.level l) (max_tier (some t ∷ some a.risk ∷ [])) o cs s' d
              (ground (arith, e, h)))
        | inr h ↦ elim (Bool-cases a.approval_required) [
          | inl q ↦
              rw (from_deferred call l t o c cs s h q)
                (from_blocks l t (some (blocked l t a)) cs s' d (ground (arith, e, h, q)))
          | inr q ↦ rw (from_blocked call l t o c cs s h q) (
              subst (λ x. PassesOn x (blocked l t a)) {x = a} {y = d} (ground (arith, e, h, q))
                (blocked-PassesOn l t a))
        ]
      ]

  -- With no such checker the last request for an approval decides.
  from_defers :
      (l : PermissionLevel) (t : RiskTier) (o : Option ToolPolicyDecision)
      (p : Option ToolPolicyDecision) (cs : List (PolicyChecker S Call)) (s : S)
      (d : ToolPolicyDecision)
      → Deferred p o
      → first_block (verdicts cs call s) ≡ none
      → last_deferral p (verdicts cs call s) ≡ some d
      → PassesOn d (evaluate_from l t o cs call s).0
  unfolding evaluate_from
  from_defers l t none none [] s d r n e = absurd (cc)
  from_defers l t (some x) none [] s d r n e = absurd r
  from_defers l t none (some p) [] s d r n e = absurd r
  from_defers l t (some x) (some p) [] s d r n e =
      subst (λ y. PassesOn y x) {x = p} {y = d} (ground arith) r
  from_defers l t o p (c ∷ cs) s d r n e =
      let a = (c.check_policy call s).0 in
      let s' = (c.check_policy call s).1 in
      elim (Bool-cases a.allowed) [
        | inl h ↦ rw (from_allowed call l t o c cs s h) (
            from_defers (raise_level a.level l) (max_tier (some t ∷ some a.risk ∷ [])) o p cs s' d r
              (ground (arith, n, h)) (ground (arith, e, h)))
        | inr h ↦ elim (Bool-cases a.approval_required) [
          | inl q ↦ rw (from_deferred call l t o c cs s h q) (
              from_defers l t (some (blocked l t a)) (some a) cs s' d (blocked-PassesOn l t a)
                (ground (arith, n, h, q)) (ground (arith, e, h, q)))
          | inr q ↦ absurd (ground (arith, n, h, q))
        ]
      ]

  -- Once an approval is asked for, the call does not pass.
  from_never :
      (l : PermissionLevel) (t : RiskTier) (x : ToolPolicyDecision)
      (cs : List (PolicyChecker S Call)) (s : S)
      → x.allowed ≡ false
      → (evaluate_from l t (some x) cs call s).0.allowed ≡ false
  unfolding evaluate_from
  from_never l t x [] s h = h
  from_never l t x (c ∷ cs) s h =
      let a = (c.check_policy call s).0 in
      let s' = (c.check_policy call s).1 in
      elim (Bool-cases a.allowed) [
        | inl q ↦
            rw (from_allowed call l t (some x) c cs s q)
              (from_never (raise_level a.level l) (max_tier (some t ∷ some a.risk ∷ [])) x cs s' h)
        | inr q ↦ elim (Bool-cases a.approval_required) [
          | inl z ↦
              rw (from_deferred call l t (some x) c cs s q z)
                (from_never l t (blocked l t a) cs s' refl)
          | inr z ↦ rw (from_blocked call l t (some x) c cs s q z) refl
        ]
      ]

  from_all :
      (l : PermissionLevel) (t : RiskTier) (cs : List (PolicyChecker S Call)) (s : S)
      → (evaluate_from l t none cs call s).0.allowed
        ≡ all (λ (d : ToolPolicyDecision). d.allowed) (verdicts cs call s)
  unfolding evaluate_from
  from_all l t [] s = refl
  from_all l t (c ∷ cs) s =
      let a = (c.check_policy call s).0 in
      let s' = (c.check_policy call s).1 in
      elim (Bool-cases a.allowed) [
        | inl q ↦ rw (from_allowed call l t none c cs s q) (
            from_all (raise_level a.level l) (max_tier (some t ∷ some a.risk ∷ [])) cs s'
            ∙ and-true _ _ q)
        | inr q ↦ elim (Bool-cases a.approval_required) [
          | inl z ↦
              rw (from_deferred call l t none c cs s q z)
                (from_never l t (blocked l t a) cs s' refl ∙ and-false _ _ q)
          | inr z ↦ rw (from_blocked call l t none c cs s q z) (and-false _ _ q)
        ]
      ]

  from-Covers :
      (l : PermissionLevel) (t : RiskTier) (cs : List (PolicyChecker S Call)) (s : S)
      → all (λ (d : ToolPolicyDecision). d.allowed) (verdicts cs call s) ≡ true
      → CoversAll l t (verdicts cs call s) (evaluate_from l t none cs call s).0
  unfolding evaluate_from
  from-Covers l t [] s h = (tt, omega arith, omega arith)
  from-Covers l t (c ∷ cs) s h =
      let a = (c.check_policy call s).0 in
      let s' = (c.check_policy call s).1 in
      let q : a.allowed ≡ true = ground (arith, h) in
      let (cover, tier, level) =
        from-Covers (raise_level a.level l) (max_tier (some t ∷ some a.risk ∷ [])) cs s'
          (ground (arith, h, q)) in
      subst (λ (p : ToolPolicyDecision × S). CoversAll l t (a ∷ verdicts cs call s') p.0)
        (sym (from_allowed call l t none c cs s q))
        (
          (
            (
              omega (arith, tier, max_tier_right t a.risk),
              omega (arith, level, raise_level_both a.level l),
            ),
            cover,
          ),
          omega (arith, tier, max_tier_left t a.risk),
          omega (arith, level, raise_level_both a.level l),
        )

  -- A call passes exactly if every checker allows it.
  pub evaluate_allows :
      (cs : List (PolicyChecker S Call)) (s : S)
      → (evaluate cs call s).0.allowed
        ≡ all (λ (d : ToolPolicyDecision). d.allowed) (verdicts cs call s)
  unfolding evaluate
  evaluate_allows cs s = from_all read routine cs s

  -- A call that passes does so under a tier and a level at least as high as any checker gave.
  pub evaluate-Covers :
      (cs : List (PolicyChecker S Call)) (s : S)
      → (evaluate cs call s).0.allowed ≡ true
      → All (Covers (evaluate cs call s).0) (verdicts cs call s)
  unfolding evaluate
  evaluate-Covers cs s h = (from-Covers read routine cs s (sym (from_all read routine cs s) ∙ h)).0

  -- A checker that blocks outright decides: the first such answer is passed on, also where another
  -- checker has asked for an approval before it.
  pub evaluate_blocks :
      (cs : List (PolicyChecker S Call)) (s : S) (d : ToolPolicyDecision)
      → first_block (verdicts cs call s) ≡ some d
      → PassesOn d (evaluate cs call s).0
  unfolding evaluate
  evaluate_blocks cs s d e = from_blocks read routine none cs s d e

  -- Where no checker blocks outright and some ask for an approval, the last of these is passed on.
  pub evaluate_defers :
      (cs : List (PolicyChecker S Call)) (s : S) (d : ToolPolicyDecision)
      → first_block (verdicts cs call s) ≡ none
      → last_deferral none (verdicts cs call s) ≡ some d
      → PassesOn d (evaluate cs call s).0
  unfolding evaluate
  evaluate_defers cs s d n e = from_defers read routine none none cs s d tt n e
