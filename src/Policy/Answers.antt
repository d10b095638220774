-- ===== src/Policy/Answers.antt =====
-- The answers of the checkers one by one, and how two of them combine.
use helve.Base.{
  ◌≤◌, ◌≡◌, refl, Bool, true, false, not, ◌&&◌, Option, none, some, List, [], ◌∷◌, arith,
  if◌then◌else◌, All,
}
use helve.Risk.{RiskTier, PermissionLevel, weight, max_tier}
use helve.Policy.{ToolPolicyDecision, PolicyChecker, level_order, blocked, raise_level}

module _ {S Call : Type 0} where
  -- The answers of all checkers, had each been asked after those before it.
  abbrev pub verdicts : List (PolicyChecker S Call) → Call → S → List ToolPolicyDecision
  verdicts [] call s = []
  verdicts (c ∷ cs) call s = let (d, s') = c.check_policy call s in d ∷ verdicts cs call s'

abbrev pub is_block : ToolPolicyDecision → Bool
is_block d = not d.allowed && not d.approval_required

-- The first answer that blocks without asking for an approval.
abbrev pub first_block : List ToolPolicyDecision → Option ToolPolicyDecision
first_block [] = none
first_block (d ∷ ds) = let rest = first_block ds in if is_block d then some d else rest

-- The last answer that asks for an approval, or `o`.
abbrev pub last_deferral :
    Option ToolPolicyDecision → List ToolPolicyDecision → Option ToolPolicyDecision
last_deferral o [] = o
last_deferral o (d ∷ ds) =
    last_deferral (if not d.allowed && d.approval_required then some d else o) ds

-- `r` passes on the answer `d`: its reason, scope and kind, and a tier at least as heavy.
pub record PassesOn (d r : ToolPolicyDecision) : Type 0 where
  pub allowed : r.allowed ≡ false
  pub reason : r.reason ≡ d.reason
  pub approval_required : r.approval_required ≡ d.approval_required
  pub challenged : r.challenged ≡ d.challenged
  pub approval_scope : r.approval_scope ≡ d.approval_scope
  pub risk : weight d.risk ≤ weight r.risk

-- `r` is no lower than the answer in tier and in level.
abbrev pub Covers : ToolPolicyDecision → ToolPolicyDecision → Type 0
Covers r d = (weight d.risk ≤ weight r.risk) × (level_order d.level ≤ level_order r.level)

abbrev pub CoversAll :
    PermissionLevel → RiskTier → List ToolPolicyDecision → ToolPolicyDecision → Type 0
CoversAll l t ds r =
    All (Covers r) ds × (weight t ≤ weight r.risk) × (level_order l ≤ level_order r.level)

pub max_tier_right : (a b : RiskTier) → weight b ≤ weight (max_tier (some a ∷ some b ∷ []))
unfolding max_tier
max_tier_right a b = ground arith

pub max_tier_left : (a b : RiskTier) → weight a ≤ weight (max_tier (some a ∷ some b ∷ []))
unfolding max_tier
max_tier_left a b = ground arith

pub raise_level_both :
    (a l : PermissionLevel)
    → (level_order a ≤ level_order (raise_level a l))
      × (level_order l ≤ level_order (raise_level a l))
raise_level_both a l = ground arith

pub blocked-PassesOn :
    (l : PermissionLevel) (t : RiskTier) (d : ToolPolicyDecision) → PassesOn d (blocked l t d)
blocked-PassesOn l t d = record {
  allowed = refl;
  reason = refl;
  approval_required = refl;
  challenged = refl;
  approval_scope = refl;
  risk = max_tier_right t d.risk;
}

pub choose_if {ℓ} : {A : Type ℓ} (b : Bool) (x y : A) → b ≡ true → (if not b then x else y) ≡ y
choose_if b x y h = rw h

pub choose_defer {ℓ} :
    {A : Type ℓ} (b c : Bool) (x y z : A)
    → b ≡ false
    → c ≡ true
    → (if not b then (if c then x else y) else z) ≡ x
choose_defer b c x y z h q = rw (h, q)

pub choose_block {ℓ} :
    {A : Type ℓ} (b c : Bool) (x y z : A)
    → b ≡ false
    → c ≡ false
    → (if not b then (if c then x else y) else z) ≡ y
choose_block b c x y z h q = rw (h, q)

pub and-true : (a b : Bool) → a ≡ true → b ≡ (a && b)
and-true a b h = rw h

pub and-false : (a b : Bool) → a ≡ false → false ≡ (a && b)
and-false a b h = rw h

abbrev pub Deferred : Option ToolPolicyDecision → Option ToolPolicyDecision → Type 0
Deferred none none = Unit {0}
Deferred (some d) (some r) = PassesOn d r
Deferred _ _ = ⊥
