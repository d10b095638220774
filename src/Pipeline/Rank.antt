-- ===== src/Pipeline/Rank.antt =====
-- A measure of what a pipeline may still do, which every step lowers.
pub mod Steps
pub mod Run
use helve.Base.{
  ℕ, zero, suc, ◌+◌, ◌-◌, ◌*◌, ◌≤◌, ◌<◌, ◌≡◌, refl, sym, ap, ◌∙◌, String, Bool, true, false, Option,
  none, some, List, [], ◌∷◌, if◌then◌else◌, Text, arith, Bool-cases, Option-cases, inl, inr, subst,
  str_eq, eq_iff, eq_refl, ltb, get_elem?, length,
}
use helve.Base.Dict.{Dict, get, put, get-put}
use helve.Pipeline.{
  Node, Chain, Fallback, Machine, Point, outer, inner, Stage, goes_on, returned, crashed,
}
use helve.Pipeline.Guard.{count}
use helve.Pipeline.Loop.Parts.{fallback_at, with_fallback}

-- The failures that the guard still takes before it blocks, over all nodes.
unfoldable pub left : Dict ℕ → List Node → ℕ
left attempts [] = 0
left attempts (node ∷ nodes) = 3 - count (get node.skill_name attempts) + left attempts nodes

abbrev pub bit : Option Fallback → ℕ
bit none = 1
bit (some f) = 0

unfoldable pub base_rank : Chain → Machine → ℕ
base_rank chain m =
    left m.attempts chain.nodes * (2 * length chain.nodes + 2)
    + (2 * (length chain.nodes - m.node_idx) + bit (fallback_at m.node_idx m.fallback_reasons))

abbrev pub point_rank : Point → ℕ
point_rank outer = 4
point_rank (inner attempt last) = 3 - attempt

unfoldable pub rank : Chain → Point → Machine → ℕ
rank chain point m = base_rank chain m * 5 + point_rank point

-- A stage that goes on has a rank below the bound.
abbrev pub Below : Chain → ℕ → Stage → Type 0
Below chain bound (goes_on point m) = rank chain point m < bound
Below chain bound (returned ending m) = Unit {0}
Below chain bound (crashed m) = Unit {0}

pub bit-le : (o : Option Fallback) → bit o ≤ 1
bit-le none = omega arith
bit-le (some f) = omega arith

left-put-le :
    (attempts : Dict ℕ) (skill : String) (nodes : List Node)
    → left (put skill (count (get skill attempts) + 1) attempts) nodes ≤ left attempts nodes
unfolding left
left-put-le attempts skill [] = omega arith
left-put-le attempts skill (node ∷ nodes) = ground (
  arith,
  get-put skill node.skill_name (count (get skill attempts) + 1) attempts,
  eq_iff skill node.skill_name,
  left-put-le attempts skill nodes,
)

-- One more failure of a node of the chain that is not the last allowed one lowers the sum.
pub left-put-lt :
    (attempts : Dict ℕ) (node : Node) (nodes : List Node) (i : ℕ)
    → get_elem? nodes i ≡ some node
    → count (get node.skill_name attempts) + 1 < 3
    → left (put node.skill_name (count (get node.skill_name attempts) + 1) attempts) nodes
      < left attempts nodes
unfolding left
left-put-lt attempts node [] i e h = absurd (cc)
left-put-lt attempts node (first ∷ nodes) zero e h =
    let same : first.skill_name ≡ node.skill_name = ap skill_of (some-injective first node e) in
    ground (
      arith,
      h,
      same,
      get-put node.skill_name first.skill_name (count (get node.skill_name attempts) + 1) attempts,
      eq_refl node.skill_name,
      left-put-le attempts node.skill_name nodes,
    )
  where
    skill_of : Node → String
    skill_of n = n.skill_name

    some-injective : (a b : Node) → some a ≡ some b → a ≡ b
    some-injective a b p = cc
left-put-lt attempts node (first ∷ nodes) (suc i) e h = ground (
  arith,
  left-put-lt attempts node nodes i e h,
  get-put node.skill_name first.skill_name (count (get node.skill_name attempts) + 1) attempts,
  eq_iff node.skill_name first.skill_name,
)

-- What lowers the base: the next node, a fallback that is set, a failure that the guard has counted.
base-next :
    (left size i : ℕ) (a b : ℕ)
    → i < size
    → b ≤ 1
    → left * (2 * size + 2) + (2 * (size - suc i) + b)
      < left * (2 * size + 2) + (2 * (size - i) + a)
base-next left size i a b h k = omega (arith, h, k)

mul-step : (less more k : ℕ) → less < more → less * k + k ≤ more * k
mul-step less zero k h = absurd (omega (arith, h))
mul-step zero (suc more) k h = omega arith
mul-step (suc less) (suc more) k h = omega (arith, mul-step less more k (omega (arith, h)))

base-counted :
    (more less size i j : ℕ) (a b : ℕ)
    → less < more
    → b ≤ 1
    → less * (2 * size + 2) + (2 * (size - j) + b) < more * (2 * size + 2) + (2 * (size - i) + a)
base-counted more less size i j a b h k = omega (arith, mul-step less more (2 * size + 2) h, k)

pub base_rank-next :
    (chain : Chain) (m n : Machine)
    → n.attempts ≡ m.attempts
    → n.node_idx ≡ suc m.node_idx
    → m.node_idx < length chain.nodes
    → base_rank chain n < base_rank chain m
unfolding base_rank
base_rank-next chain m n a i h =
    rw (a, i)
      (base-next (left m.attempts chain.nodes) (length chain.nodes) m.node_idx
        (bit (fallback_at m.node_idx m.fallback_reasons))
        (bit (fallback_at (suc m.node_idx) n.fallback_reasons)) h
        (bit-le (fallback_at (suc m.node_idx) n.fallback_reasons)))

pub base_rank-counted :
    (chain : Chain) (m n : Machine)
    → left n.attempts chain.nodes < left m.attempts chain.nodes
    → base_rank chain n < base_rank chain m
unfolding base_rank
base_rank-counted chain m n h =
    base-counted (left m.attempts chain.nodes) (left n.attempts chain.nodes) (length chain.nodes)
      m.node_idx n.node_idx (bit (fallback_at m.node_idx m.fallback_reasons))
      (bit (fallback_at n.node_idx n.fallback_reasons)) h
      (bit-le (fallback_at n.node_idx n.fallback_reasons))

pub base_rank-with_fallback :
    (chain : Chain) (m : Machine) (f : Fallback)
    → fallback_at m.node_idx m.fallback_reasons ≡ none
    → base_rank chain (with_fallback f m) < base_rank chain m
unfolding base_rank
base_rank-with_fallback chain m f h = ground (arith, h)

pub base_rank-same :
    (chain : Chain) (m n : Machine)
    → n.attempts ≡ m.attempts
    → n.node_idx ≡ m.node_idx
    → n.fallback_reasons ≡ m.fallback_reasons
    → base_rank chain n ≡ base_rank chain m
unfolding base_rank
base_rank-same chain m n a i f = rw (a, i, f) refl
