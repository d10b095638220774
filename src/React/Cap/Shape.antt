-- ===== src/React/Cap/Shape.antt =====
-- What the cap returns: the conversation itself, or the contract, a note and a tail from a cut.
use helve.Base.{
  ℕ, zero, suc, ◌-◌, ◌≤◌, ◌<◌, ◌≡◌, ◌⊎◌, inl, inr, refl, true, ◌&&◌, Option, none, some, List, [],
  ◌∷◌, arith, ltb, leb, length, take, drop, Bool-cases, length-append, length-take, length-drop, ap,
}
use helve.Context.Conversation.{
  Message, holds_at, is_request_turn, leading_systems, active_turn_bounds,
}
use helve.Context.Conversation.Bounds.{Active, active_turn_bounds-Active, leading_systems-le}
use helve.React.Cap.{
  kept, elision_note, trim_at, trim_conversation_to_message_cap, without_notes, aligned, retreat,
  advance, is_round_boundary, conversation_keep_recent, conversation_hard_limit,
}
use helve.React.Cap.Cuts.{
  without_notes-le, advance_stops, retreat_stops, aligned_request, aligned_above, request-boundary,
}

-- A tail from a boundary of the rounds, and shorter than the conversation.
pub record Cut (ms : List Message) (leading : ℕ) (active : Option ℕ) (result : List Message)
    : Type 0 where
  pub cut : ℕ
  pub at_cut : result ≡ kept ms leading active cut
  pub shorter : length result < length ms
  pub boundary : holds_at is_round_boundary ms cut ≡ true
  pub opening :
      (start : ℕ) → active ≡ some start → cut ≤ start → holds_at is_request_turn ms cut ≡ true

drop-take-empty : {A : Type 0} (xs : List A) (i j : ℕ) → j ≤ i → drop i (take j xs) ≡ []
drop-take-empty xs zero zero h = refl
drop-take-empty xs zero (suc j) h = absurd (omega arith)
drop-take-empty xs (suc i) zero h = refl
drop-take-empty [] (suc i) (suc j) h = refl
drop-take-empty (x ∷ xs) (suc i) (suc j) h = drop-take-empty xs i j (omega arith)

-- A cut inside the contract drops nothing.
kept-long :
    (ms : List Message) (leading cut : ℕ)
    → leading ≤ length ms
    → cut ≤ leading
    → length ms ≤ length (kept ms leading none cut)
unfolding kept elision_note
kept-long ms leading cut h le = rw (drop-take-empty ms leading cut le) (
    omega (
      arith,
      length-append (take leading ms) (drop cut ms),
      length-take leading ms,
      length-drop cut ms,
    ))

Cut-of :
    (ms : List Message) (leading : ℕ) (active : Option ℕ) (c : ℕ)
    → leading ≤ length ms
    → ((start : ℕ)
        → active ≡ some start
        → (leading ≤ start) × (holds_at is_request_turn ms start ≡ true))
    → ((c ≤ leading) ⊎ (holds_at is_round_boundary ms c ≡ true))
    → length (kept ms leading active (aligned ms active c)) < length ms
    → Cut ms leading active (kept ms leading active (aligned ms active c))
unfolding aligned
Cut-of ms leading none c h request stop less = record {
  cut = c;
  at_cut = refl;
  shorter = less;
  boundary = elim stop [
    | inl low ↦ absurd (omega (arith, less, kept-long ms leading c h low))
    | inr b ↦ b
  ];
  opening = λ start e. absurd (cc);
}
Cut-of ms leading (some start) c h request stop less = elim (Bool-cases (ltb start c)) [
  | inl above ↦ record {
    cut = c;
    at_cut = ap (kept ms leading (some start)) (aligned_above ms start c (ground (arith, above)));
    shorter = less;
    boundary = elim stop [
      | inl low ↦ absurd (ground (arith, above, low, (request start refl).0))
      | inr b ↦ b
    ];
    opening = λ s e le. absurd (ground (arith, above, e, le));
  }
  | inr below ↦
      let (a, b) = aligned_request ms start c (request start refl).1 (ground (arith, below)) in
      record {
        cut = aligned ms (some start) c;
        at_cut = refl;
        shorter = less;
        boundary = request-boundary ms (aligned ms (some start) c) a;
        opening = λ s e le. a;
      }
]

trim_at-Cut :
    (ms : List Message) (leading : ℕ) (active : Option ℕ)
    → leading ≤ length ms
    → ((start : ℕ)
        → active ≡ some start
        → (leading ≤ start) × (holds_at is_request_turn ms start ≡ true))
    → (trim_at ms leading active ≡ ms) ⊎ Cut ms leading active (trim_at ms leading active)
trim_at-Cut ms leading active h request =
    let wanted = length ms - conversation_keep_recent in
    let back = retreat ms leading wanted in
    let forward = advance is_round_boundary ms (length ms - wanted) wanted in
    elim (Bool-cases (ltb (length (kept ms leading active (aligned ms active back))) (length ms))) [
      | inl less ↦ rw less (
          inr (
            Cut-of ms leading active back h request (retreat_stops ms leading wanted).1
              (ground (arith, less))))
      | inr long ↦
          elim (Bool-cases (
            ltb forward (length ms)
            && ltb (length (kept ms leading active (aligned ms active forward))) (length ms))) [
              | inl less ↦
                  let (a, b, stop) =
                    advance_stops is_round_boundary ms (length ms - wanted) wanted in
                  rw (long, less)
                    (inr (
                      Cut-of ms leading active forward h request
                        (elim stop [
                          | inl hit ↦ inr hit
                          | inr out ↦ absurd (ground (arith, less, out))
                        ])
                        (ground (arith, less))))
              | inr none_left ↦ rw (long, none_left) (inl refl)
            ]
    ]

-- What the active turn gives, also where the notes of earlier trims are left out of the contract.
pub request_of :
    (ms : List Message) (start : ℕ)
    → (active_turn_bounds ms).1 ≡ some start
    → Active ms (active_turn_bounds ms).0 start
request_of ms start e =
    active_turn_bounds-Active ms (active_turn_bounds ms).0 start (ground (arith, e))

bounds-leading : (ms : List Message) → (active_turn_bounds ms).0 ≡ leading_systems ms
unfolding active_turn_bounds
bounds-leading ms = refl

unfoldable pub contract_of : List Message → ℕ
contract_of ms = without_notes ms (active_turn_bounds ms).0

pub contract_of-le : (ms : List Message) → contract_of ms ≤ leading_systems ms
unfolding contract_of
contract_of-le ms = omega (arith, without_notes-le ms (active_turn_bounds ms).0, bounds-leading ms)

-- The trim is the conversation, or what a cut leaves of it.
pub trim-Cut :
    (ms : List Message)
    → (trim_conversation_to_message_cap ms ≡ ms)
      ⊎ Cut ms (contract_of ms) (active_turn_bounds ms).1 (trim_conversation_to_message_cap ms)
unfolding trim_conversation_to_message_cap contract_of
trim-Cut ms = elim (Bool-cases (leb (length ms) conversation_hard_limit)) [
  | inl small ↦ rw small (inl refl)
  | inr large ↦ rw large (
      trim_at-Cut ms (without_notes ms (active_turn_bounds ms).0) (active_turn_bounds ms).1
        (omega (arith, contract_of-le ms, leading_systems-le ms))
        λ start e. (
          omega (
            arith,
            without_notes-le ms (active_turn_bounds ms).0,
            (request_of ms start e).after_contract,
          ),
          (request_of ms start e).request,
        ))
]
