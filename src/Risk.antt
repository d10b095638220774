-- ===== src/Risk.antt =====
-- engine/safety/risk.py: the risk tiers that triage approvals.
pub mod Order
mod Tests
use helve.Base.{ℕ, Bool, true, false, ◌||◌, Option, none, some, List, [], ◌∷◌, ltb, if◌then◌else◌}

pub data RiskTier : Type 0 where
  routine elevated high critical : RiskTier

unfoldable pub weight : RiskTier → ℕ
weight routine = 0
weight elevated = 1
weight high = 2
weight critical = 3

-- Python's `max` keeps the first of equal keys, so a later tier must be strictly heavier.
abbrev pub heavier : RiskTier → RiskTier → RiskTier
unfolding weight
heavier best tier = if ltb (weight best) (weight tier) then tier else best

abbrev pub max_from : RiskTier → List (Option RiskTier) → RiskTier
max_from best [] = best
max_from best (none ∷ tiers) = max_from best tiers
max_from best (some tier ∷ tiers) = max_from (heavier best tier) tiers

-- RiskTier.max
unfoldable pub max_tier : List (Option RiskTier) → RiskTier
unfolding weight
max_tier [] = routine
max_tier (none ∷ tiers) = max_tier tiers
max_tier (some tier ∷ tiers) = max_from tier tiers

-- The permission levels of tool_guard.py, as the `level` of an approval names them.
pub data PermissionLevel : Type 0 where
  read write execute destructive : PermissionLevel

abbrev pub is_destructive : Option PermissionLevel → Bool
is_destructive (some destructive) = true
is_destructive _ = false

unfoldable pub risk_for_approval : Option PermissionLevel → Bool → Bool → Bool → RiskTier
risk_for_approval level high_risk network_access rule_hit =
    if rule_hit || is_destructive level
    then critical
    else if high_risk || network_access
    then high
    else elevated
