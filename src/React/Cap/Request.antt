-- ===== src/React/Cap/Request.antt =====
-- The request being executed survives the cap, and so does the leading contract.
use helve.Base.{
  ℕ, zero, suc, ◌-◌, ◌≤◌, ◌≡◌, inl, inr, refl, Option, some, List, [], ◌∷◌, ◌++◌, arith, ltb,
  get_elem?, length, take, drop, Bool-cases, Option-cases, sym, ◌∙◌, ap, subst, append_assoc,
}
use helve.Context.Conversation.{Message, active_turn_bounds}
use helve.Context.Conversation.Bounds.{leading_systems-le}
use helve.React.Cap.{kept, pinned, elision_note, trim_conversation_to_message_cap}
use helve.React.Cap.Shape.{trim-Cut, contract_of, contract_of-le}

-- `m` stands in the list.
abbrev pub Has : Message → List Message → Type 0
Has m ms = (i : ℕ) × (get_elem? ms i ≡ some m)

Has-left : (m : Message) (xs ys : List Message) → Has m xs → Has m (xs ++ ys)
Has-left m [] ys (i, e) = absurd (cc)
Has-left m (x ∷ xs) ys (zero, e) = (0, e)
Has-left m (x ∷ xs) ys (suc i, e) = let (j, f) = Has-left m xs ys (i, e) in (suc j, f)

Has-right : (m : Message) (xs ys : List Message) → Has m ys → Has m (xs ++ ys)
Has-right m [] ys h = h
Has-right m (x ∷ xs) ys h = let (j, f) = Has-right m xs ys h in (suc j, f)

Has-last : (m : Message) (xs : List Message) → Has m (xs ++ m ∷ [])
Has-last m xs = Has-right m xs (m ∷ []) (0, refl)

get_elem?-drop :
    (ms : List Message) (n i : ℕ) → n ≤ i → get_elem? (drop n ms) (i - n) ≡ get_elem? ms i
get_elem?-drop ms zero i h = ap (get_elem? ms) (omega arith)
get_elem?-drop [] (suc n) i h = refl
get_elem?-drop (x ∷ ms) (suc n) zero h = elim h [ ]
get_elem?-drop (x ∷ ms) (suc n) (suc i) h =
    ap (get_elem? (drop n ms)) (omega arith) ∙ get_elem?-drop ms n i (omega arith)

-- Whatever the cut, the request is kept: it is pinned behind the contract, or stands in the tail.
kept-Has :
    (ms : List Message) (leading start cut : ℕ) (m : Message)
    → get_elem? ms start ≡ some m
    → Has m (kept ms leading (some start) cut)
unfolding kept
kept-Has ms leading start cut m e = elim (Bool-cases (ltb start cut)) [
  | inl h ↦ rw (h, e) (Has-left m (take leading ms ++ m ∷ []) _ (Has-last m (take leading ms)))
  | inr h ↦ rw h (
      Has-right m (take leading ms) _ (
        Has-right m (elision_note (drop leading (take cut ms))) (drop cut ms)
          (start - cut, get_elem?-drop ms cut start (ground (arith, h)) ∙ e)))
]

-- The request being executed, the newest one behind the leading system messages, stands in what
-- the cap returns.
pub trim_conversation_to_message_cap-Has :
    (ms : List Message) (leading start : ℕ) (m : Message)
    → active_turn_bounds ms ≡ (leading, some start)
    → get_elem? ms start ≡ some m
    → Has m (trim_conversation_to_message_cap ms)
trim_conversation_to_message_cap-Has ms leading start m e at = elim (trim-Cut ms) [
  | inl same ↦ rw same (start, at)
  | inr shape ↦
      let active : (active_turn_bounds ms).1 ≡ some start = ap (λ b. b.1) e in
      subst (Has m) (sym shape.at_cut)
        (rw active (kept-Has ms (contract_of ms) start shape.cut m at))
]

take-append :
    {A : Type 0} (n : ℕ) (xs ys : List A) → n ≤ length xs → take n (take n xs ++ ys) ≡ take n xs
take-append zero xs ys h = refl
take-append (suc n) [] ys h = absurd (omega arith)
take-append (suc n) (x ∷ xs) ys h = ap (◌∷◌ x) (take-append n xs ys (omega arith))

-- `kept` with the contract set apart.
pub kept-split :
    (ms : List Message) (leading : ℕ) (active : Option ℕ) (cut : ℕ)
    → (rest : List Message) × (kept ms leading active cut ≡ take leading ms ++ rest)
unfolding kept
kept-split ms leading active cut = elim (Option-cases (pinned ms active cut)) [
  | inl e ↦ rw e (_, refl)
  | inr ((start, m), e) ↦ rw e (_, append_assoc (take leading ms) (m ∷ []) _)
]

-- The leading system messages stay in front, but for the notes of earlier trims that close them.
pub trim_conversation_to_message_cap-take :
    (ms : List Message)
    → take (contract_of ms) (trim_conversation_to_message_cap ms) ≡ take (contract_of ms) ms
trim_conversation_to_message_cap-take ms = elim (trim-Cut ms) [
  | inl same ↦ ap (take (contract_of ms)) same
  | inr shape ↦
      let (rest, e) = kept-split ms (contract_of ms) (active_turn_bounds ms).1 shape.cut in
      rw (shape.at_cut ∙ e) (
        take-append (contract_of ms) ms rest
          (omega (arith, contract_of-le ms, leading_systems-le ms)))
]
