-- ===== src/Context/Prune/Kept.antt =====
-- What pruning keeps: every message but the text of old tool results, and the recent ones whole.
use mathlib.Core.List.{reverse, reverse-append, reverse-reverse, reverse-cons}
use helve.Base.{
  subst, ℕ, ◌+◌, ◌≤◌, ◌≡◌, ◌⊎◌, inl, inr, refl, true, List, [], ◌∷◌, ◌++◌, arith, ltb,
  if◌then◌else◌, Bool-cases, ap, ◌∙◌,
}
use helve.Context.Conversation.{Message, is_tool}
use helve.Context.Prune.{walk, prune_tool_outputs, char_count, is_stub, stubbed}

-- A message as pruning may leave it.
abbrev pub KeptOrStubbed : Message → Message → Type 0
KeptOrStubbed m n = (n ≡ m) ⊎ ((is_tool m.role ≡ true) × (n ≡ stubbed m))

abbrev pub Pruned : List Message → List Message → Type 0
Pruned [] [] = Unit {0}
Pruned (m ∷ ms) (n ∷ ns) = KeptOrStubbed m n × Pruned ms ns
Pruned _ _ = ⊥

Pruned-refl : (ms : List Message) → Pruned ms ms
Pruned-refl [] = tt
Pruned-refl (m ∷ ms) = (inl refl, Pruned-refl ms)

Pruned-append :
    (ks bs cs ds : List Message) → Pruned ks bs → Pruned cs ds → Pruned (ks ++ cs) (bs ++ ds)
Pruned-append [] [] cs ds p q = q
Pruned-append [] (b ∷ bs) cs ds p q = absurd p
Pruned-append (k ∷ ks) [] cs ds p q = absurd p
Pruned-append (k ∷ ks) (b ∷ bs) cs ds p q = (p.0, Pruned-append ks bs cs ds p.1 q)

walk-Pruned : (threshold total : ℕ) (ms : List Message) → Pruned ms (walk threshold total ms).0
unfolding walk
walk-Pruned threshold total [] = tt
walk-Pruned threshold total (m ∷ ms) = ground (
  arith,
  Pruned-refl ms,
  walk-Pruned threshold (total + char_count m.content) ms,
  walk-Pruned threshold total ms,
)

-- The tool output in a stretch of the conversation, in characters.
abbrev pub tool_chars : List Message → ℕ
tool_chars [] = 0
tool_chars (m ∷ ms) =
    let rest = tool_chars ms in if is_tool m.role then char_count m.content + rest else rest

-- A walk leaves the first messages alone as long as their tool output is within the threshold.
walk-protects :
    (threshold total : ℕ) (recent older : List Message)
    → total + tool_chars recent ≤ threshold
    → (older' : List Message) × ((walk threshold total (recent ++ older)).0 ≡ recent ++ older')
unfolding walk
walk-protects threshold total [] older h = ((walk threshold total older).0, refl)
walk-protects threshold total (m ∷ ms) older h = elim (Bool-cases (is_tool m.role)) [
  | inr e ↦
      let (o, q) = walk-protects threshold total ms older (ground (arith, h, e)) in
      (o, ground (arith, e, q))
  | inl e ↦ elim (Bool-cases (is_stub m)) [
    | inl stub ↦ (older, ground (arith, e, stub))
    | inr fresh ↦
        let (o, q) =
          walk-protects threshold (total + char_count m.content) ms older (ground (arith, h, e)) in
        (o, ground (arith, e, fresh, q, h))
  ]
]

tool_chars-append : (xs ys : List Message) → tool_chars (xs ++ ys) ≡ tool_chars xs + tool_chars ys
tool_chars-append [] ys = omega arith
tool_chars-append (x ∷ xs) ys = ground (arith, tool_chars-append xs ys)

tool_chars-reverse : (xs : List Message) → tool_chars (reverse xs) ≡ tool_chars xs
tool_chars-reverse [] = refl
tool_chars-reverse (x ∷ xs) = ground (
  arith,
  ap tool_chars (reverse-cons x xs),
  tool_chars-append (reverse xs) (x ∷ []),
  tool_chars-reverse xs,
)

Pruned-reverse : (xs ys : List Message) → Pruned xs ys → Pruned (reverse xs) (reverse ys)
Pruned-reverse [] [] p = tt
Pruned-reverse [] (y ∷ ys) p = absurd p
Pruned-reverse (x ∷ xs) [] p = absurd p
Pruned-reverse (x ∷ xs) (y ∷ ys) p =
    rw (reverse-cons x xs, reverse-cons y ys)
      (Pruned-append (reverse xs) (reverse ys) (x ∷ []) (y ∷ []) (Pruned-reverse xs ys p.1)
        (p.0, tt))

module _ (threshold min_prune : ℕ) where
  -- Pruning keeps the number and the order of the messages; each stays as it is, or is a tool result
  -- whose text alone is replaced by the stub with its length.
  pub prune_tool_outputs-Pruned :
      (ms : List Message) → Pruned ms (prune_tool_outputs threshold min_prune ms).0
  unfolding prune_tool_outputs
  prune_tool_outputs-Pruned ms =
      elim (Bool-cases (ltb (walk threshold 0 (reverse ms)).1 min_prune)) [
        | inl few ↦ rw few (Pruned-refl ms)
        | inr many ↦ rw many (
            subst (λ (xs : List Message). Pruned xs (reverse (walk threshold 0 (reverse ms)).0))
              (reverse-reverse ms)
              (Pruned-reverse (reverse ms) (walk threshold 0 (reverse ms)).0
                (walk-Pruned threshold 0 (reverse ms))))
      ]

  -- The newest messages stay whole as long as their tool output is within the threshold.
  pub prune_tool_outputs_protects :
      (older recent : List Message)
      → tool_chars recent ≤ threshold
      → (older' : List Message) × ((prune_tool_outputs threshold min_prune (older ++ recent)).0
          ≡ older' ++ recent)
  unfolding prune_tool_outputs
  prune_tool_outputs_protects older recent h =
      elim (Bool-cases (ltb (walk threshold 0 (reverse (older ++ recent))).1 min_prune)) [
        | inl few ↦ (older, rw few)
        | inr many ↦
            let (o, q) =
              walk-protects threshold 0 (reverse recent) (reverse older)
                (omega (arith, tool_chars-reverse recent)) in
            (
              reverse o,
              rw many (
                  ap reverse (
                    ap (λ (xs : List Message). (walk threshold 0 xs).0)
                      (reverse-append older recent)
                    ∙ q)
                  ∙ reverse-append (reverse recent) o
                  ∙ ap (λ (xs : List Message). reverse o ++ xs) (reverse-reverse recent)),
            )
      ]

  -- It reports what it pruned: nothing, and then it changed nothing, or at least the minimum.
  pub prune_tool_outputs_reports :
      (ms : List Message)
      → let (result, pruned) = prune_tool_outputs threshold min_prune ms in
        ((pruned ≡ 0) × (result ≡ ms)) ⊎ (min_prune ≤ pruned)
  unfolding prune_tool_outputs
  prune_tool_outputs_reports ms = ground arith
