-- ===== src/Context/Prune/Again.antt =====
-- Pruning a pruned conversation changes nothing more.
use mathlib.Core.List.{reverse, reverse-reverse}
use helve.Base.{ℕ, ◌+◌, ◌≡◌, refl, true, false, List, [], ◌∷◌, arith, ltb, Bool-cases, inl, inr}
use helve.Context.Conversation.{Message, is_tool}
use helve.Context.Prune.{walk, prune_tool_outputs, char_count, is_stub, stubbed}

stubbed-is_stub : (m : Message) → is_stub (stubbed m) ≡ true
stubbed-is_stub m = refl

module _ (threshold total : ℕ) (m : Message) (ms : List Message) where
  abbrev later : List Message × ℕ
  later = walk threshold (total + char_count m.content) ms

  walk_skip :
      is_tool m.role ≡ false
      → walk threshold total (m ∷ ms)
        ≡ (m ∷ (walk threshold total ms).0, (walk threshold total ms).1)
  unfolding walk
  walk_skip e = rw e

  walk_stop : is_tool m.role ≡ true → is_stub m ≡ true → walk threshold total (m ∷ ms) ≡ (m ∷ ms, 0)
  unfolding walk
  walk_stop e f = ground (arith, e, f)

  walk_prune :
      is_tool m.role ≡ true
      → is_stub m ≡ false
      → ltb threshold total ≡ true
      → walk threshold total (m ∷ ms) ≡ (stubbed m ∷ later.0, char_count m.content + later.1)
  unfolding walk
  walk_prune e f g = ground (arith, e, f, g)

  walk_keep :
      is_tool m.role ≡ true
      → is_stub m ≡ false
      → ltb threshold total ≡ false
      → walk threshold total (m ∷ ms) ≡ (m ∷ later.0, later.1)
  unfolding walk
  walk_keep e f g = ground (arith, e, f, g)

-- A walk over its own result stops at the stub that it wrote first, with nothing to prune.
walk_again :
    (threshold total : ℕ) (ms : List Message)
    → walk threshold total (walk threshold total ms).0 ≡ ((walk threshold total ms).0, 0)
walk_again threshold total [] = unfold walk in refl
walk_again threshold total (m ∷ ms) = elim (Bool-cases (is_tool m.role)) [
  | inr e ↦
      rw
        (
          walk_skip threshold total m ms e,
          walk_skip threshold total m (walk threshold total ms).0 e,
        )
        (rw (walk_again threshold total ms))
  | inl e ↦ elim (Bool-cases (is_stub m)) [
    | inl f ↦ rw (walk_stop threshold total m ms e f) (walk_stop threshold total m ms e f)
    | inr f ↦
        let rest = (walk threshold (total + char_count m.content) ms).0 in
        elim (Bool-cases (ltb threshold total)) [
          | inl g ↦
              rw (walk_prune threshold total m ms e f g)
                (walk_stop threshold total (stubbed m) rest e refl)
          | inr g ↦
              rw (walk_keep threshold total m ms e f g, walk_keep threshold total m rest e f g)
                (rw (walk_again threshold (total + char_count m.content) ms))
        ]
  ]
]

few_again :
    (threshold min_prune : ℕ) (ms : List Message)
    → ltb (walk threshold 0 (reverse ms)).1 min_prune ≡ true
    → prune_tool_outputs threshold min_prune ms ≡ (ms, 0)
unfolding prune_tool_outputs
few_again threshold min_prune ms few = rw few

many_pruned :
    (threshold min_prune : ℕ) (ms : List Message)
    → ltb (walk threshold 0 (reverse ms)).1 min_prune ≡ false
    → prune_tool_outputs threshold min_prune ms
      ≡ (reverse (walk threshold 0 (reverse ms)).0, (walk threshold 0 (reverse ms)).1)
unfolding prune_tool_outputs
many_pruned threshold min_prune ms many = rw many

none_left :
    (threshold min_prune : ℕ) (ms : List Message)
    → (walk threshold 0 (reverse ms)) ≡ (reverse ms, 0)
    → prune_tool_outputs threshold min_prune ms ≡ (ms, 0)
none_left threshold min_prune ms e =
    elim (Bool-cases (ltb (walk threshold 0 (reverse ms)).1 min_prune)) [
      | inl few ↦ few_again threshold min_prune ms few
      | inr many ↦ rw (many_pruned threshold min_prune ms many, e, reverse-reverse ms)
    ]

-- A second pruning with the same limits reports nothing and changes nothing.
pub prune_tool_outputs_again :
    (threshold min_prune : ℕ) (ms : List Message)
    → let once = (prune_tool_outputs threshold min_prune ms).0 in
      prune_tool_outputs threshold min_prune once ≡ (once, 0)
prune_tool_outputs_again threshold min_prune ms =
    elim (Bool-cases (ltb (walk threshold 0 (reverse ms)).1 min_prune)) [
      | inl few ↦ rw (few_again threshold min_prune ms few) (few_again threshold min_prune ms few)
      | inr many ↦ rw (many_pruned threshold min_prune ms many) (
          none_left threshold min_prune _ (
            rw (reverse-reverse (walk threshold 0 (reverse ms)).0)
              (walk_again threshold 0 (reverse ms))))
    ]
