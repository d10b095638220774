-- ===== src/React/Cap/Cuts.antt =====
-- Where the loops over the cut stop.
use helve.Base.{
  ℕ, zero, suc, ◌+◌, ◌-◌, ◌≤◌, ◌<◌, ◌≡◌, ◌⊎◌, inl, inr, Bool, true, false, some, List, arith, ltb,
  Bool-cases,
}
use helve.Context.Conversation.{Message, holds_at, is_request_turn}
use helve.React.Cap.{is_round_boundary, without_notes, advance, aligned, retreat}

pub without_notes-le : (ms : List Message) (n : ℕ) → without_notes ms n ≤ n
unfolding without_notes
without_notes-le ms zero = omega arith
without_notes-le ms (suc n) = ground (arith, without_notes-le ms n)

-- The loop upwards stops on a hit, or has used up its rounds.
pub advance_stops :
    (p : Message → Bool) (ms : List Message) (rounds cut : ℕ)
    → (cut ≤ advance p ms rounds cut)
      × (advance p ms rounds cut ≤ cut + rounds)
      × ((holds_at p ms (advance p ms rounds cut) ≡ true)
          ⊎ (advance p ms rounds cut ≡ cut + rounds))
unfolding advance
advance_stops p ms zero cut = (omega arith, omega arith, inr (omega arith))
advance_stops p ms (suc rounds) cut = elim (Bool-cases (holds_at p ms cut)) [
  | inl h ↦ rw h (omega arith, omega arith, inl h)
  | inr h ↦
      let (a, b, c) = advance_stops p ms rounds (suc cut) in
      rw h (
        omega (arith, a),
        omega (arith, b),
        elim c [ inl x ↦ inl x | inr x ↦ inr (omega (arith, x)) ],
      )
]

-- The loop downwards stops on a boundary or at the leading block.
pub retreat_stops :
    (ms : List Message) (leading cut : ℕ)
    → (retreat ms leading cut ≤ cut)
      × ((retreat ms leading cut ≤ leading)
          ⊎ (holds_at is_round_boundary ms (retreat ms leading cut) ≡ true))
unfolding retreat
retreat_stops ms leading zero = (omega arith, inl (omega arith))
retreat_stops ms leading (suc cut) = elim (Bool-cases (ltb leading (suc cut))) [
  | inr low ↦ rw low (omega arith, inl (ground (arith, low)))
  | inl high ↦ elim (Bool-cases (holds_at is_round_boundary ms (suc cut))) [
    | inl h ↦ rw (high, h) (omega arith, inr h)
    | inr h ↦ let (a, b) = retreat_stops ms leading cut in rw (high, h) (omega (arith, a), b)
  ]
]

pub request-boundary :
    (ms : List Message) (i : ℕ)
    → holds_at is_request_turn ms i ≡ true
    → holds_at is_round_boundary ms i ≡ true
unfolding is_round_boundary
request-boundary ms i h = ground (arith, h)

-- A cut that stood at or below the request is moved to a request turn at or below it; one above
-- the request stays.
pub aligned_request :
    (ms : List Message) (start cut : ℕ)
    → holds_at is_request_turn ms start ≡ true
    → cut ≤ start
    → (holds_at is_request_turn ms (aligned ms (some start) cut) ≡ true)
      × (aligned ms (some start) cut ≤ start)
unfolding aligned
aligned_request ms start cut h le =
    let (a, b, c) = advance_stops is_request_turn ms (start - cut) cut in
    let low : ltb start cut ≡ false = ground arith in
    rw low (
      elim c [
        | inl x ↦ x
        | inr x ↦
            let at : advance is_request_turn ms (start - cut) cut ≡ start = omega (arith, x) in
            rw at h
      ],
      omega (arith, b),
    )

pub aligned_above :
    (ms : List Message) (start cut : ℕ) → start < cut → aligned ms (some start) cut ≡ cut
unfolding aligned
aligned_above ms start cut h = ground arith
