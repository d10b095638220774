-- ===== src/Risk/Order.antt =====
-- `RiskTier.max` and `risk_for_approval` against the order of the tiers.
use helve.Base.{
  ◌∙◌, ◌≤◌, ◌≡◌, ◌≢◌, ◌↔◌, ◌⊎◌, inl, inr, refl, Bool, true, false, ◌||◌, Option, none, some, List,
  [], ◌∷◌, arith,
}
use helve.Risk.{
  RiskTier, routine, high, critical, weight, max_tier, max_from, heavier, risk_for_approval,
  PermissionLevel, is_destructive,
}

abbrev pub Among : RiskTier → List (Option RiskTier) → Type 0
Among t [] = ⊥
Among t (none ∷ ts) = Among t ts
Among t (some x ∷ ts) = (t ≡ x) ⊎ Among t ts

abbrev pub Bounded : RiskTier → List (Option RiskTier) → Type 0
Bounded m [] = Unit {0}
Bounded m (none ∷ ts) = Bounded m ts
Bounded m (some x ∷ ts) = (weight x ≤ weight m) × Bounded m ts

module _ (best : RiskTier) where
  heavier-le :
      (t : RiskTier)
      → (weight best ≤ weight (heavier best t)) × (weight t ≤ weight (heavier best t))
  unfolding weight
  heavier-le t = ground arith

max_from-le :
    (best : RiskTier) (ts : List (Option RiskTier))
    → (weight best ≤ weight (max_from best ts)) × Bounded (max_from best ts) ts
max_from-le best [] = (omega arith, tt)
max_from-le best (none ∷ ts) = max_from-le best ts
max_from-le best (some t ∷ ts) =
    let (a, b) = max_from-le (heavier best t) ts in
    (omega (arith, a, heavier-le best t), (omega (arith, a, heavier-le best t), b))

heavier_or : (best t : RiskTier) → (heavier best t ≡ best) ⊎ (heavier best t ≡ t)
unfolding weight
heavier_or best t = ground arith

max_from-Among :
    (best : RiskTier) (ts : List (Option RiskTier))
    → (max_from best ts ≡ best) ⊎ Among (max_from best ts) ts
max_from-Among best [] = inl refl
max_from-Among best (none ∷ ts) = max_from-Among best ts
max_from-Among best (some t ∷ ts) = elim (max_from-Among (heavier best t) ts) [
  | inr m ↦ inr (inr m)
  | inl e ↦ elim (heavier_or best t) [ inl q ↦ inl (e ∙ q) | inr q ↦ inr (inl (e ∙ q)) ]
]

-- `RiskTier.max` is at least as heavy as every tier given, and is one of them, or ROUTINE where
-- none is given.
pub max_tier-Bounded :
    (ts : List (Option RiskTier))
    → Bounded (max_tier ts) ts × (Among (max_tier ts) ts ⊎ (max_tier ts ≡ routine))
unfolding max_tier
max_tier-Bounded [] = (tt, inr refl)
max_tier-Bounded (none ∷ ts) = max_tier-Bounded ts
max_tier-Bounded (some t ∷ ts) =
    let (a, b) = max_from-le t ts in
    ((a, b), elim (max_from-Among t ts) [ inl e ↦ inl (inl e) | inr m ↦ inl (inr m) ])

-- The tier of an approval is CRITICAL exactly for a rule hit or a destructive level, otherwise HIGH
-- exactly for a high-risk or a network call, and never ROUTINE.
pub risk_for_approval_tiers :
    (level : Option PermissionLevel) (high_risk network rule_hit : Bool)
    → let tier = risk_for_approval level high_risk network rule_hit in
      ((tier ≡ critical) ↔ ((rule_hit || is_destructive level) ≡ true))
      × ((tier ≡ high)
          ↔ (((rule_hit || is_destructive level) ≡ false) × ((high_risk || network) ≡ true)))
      × (tier ≢ routine)
unfolding risk_for_approval
risk_for_approval_tiers level high_risk network rule_hit =
    ((ground arith, ground arith), (ground arith, ground arith), ground arith)
