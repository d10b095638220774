-- ===== src/React/Cap/Pairing.antt =====
-- What a trimmed conversation opens on, and that no tool result in it lost its call.
use helve.Base.{
  ℕ, zero, suc, ◌≤◌, ◌<◌, ◌≡◌, ◌⊎◌, inl, inr, refl, Bool, true, false, ◌&&◌, Text, Option, none,
  some, List, [], ◌∷◌, ◌++◌, arith, ltb, if◌then◌else◌, get_elem?, length, take, drop, Bool-cases,
  Option-cases, All, sym, ◌∙◌, ap, append_assoc, subst,
}
use helve.Context.Conversation.{
  Message, Role, system, user, assistant, tool, other_role, is_system, is_user, is_assistant,
  is_tool, holds_at, is_request_turn, active_turn_bounds,
}
use helve.Context.Conversation.Bounds.{leading_systems-All}
use helve.React.Cap.{kept, elision_note, trim_conversation_to_message_cap, is_round_boundary}
use helve.React.Cap.Shape.{trim-Cut, request_of, contract_of, contract_of-le}

abbrev pub has_calls : Option Text → Bool
has_calls none = false
has_calls (some calls) = true

-- Every tool result stands in a round that an assistant's message with calls opened; a message of
-- an assistant without calls and a request close the round before them. `within` says if the list
-- starts in such a round.
unfoldable pub is_paired : Bool → List Message → Bool
is_paired within [] = true
is_paired within (m ∷ ms) =
    let inside = is_paired (has_calls m.tool_calls) ms in
    let outside = is_paired false ms in
    let same = is_paired within ms in
    if is_assistant m.role
    then inside
    else if is_request_turn m
    then outside
    else if is_tool m.role
    then within && same
    else same

-- The first message behind the system messages is a request.
unfoldable pub opens_on_request : List Message → Bool
opens_on_request [] = false
opens_on_request (m ∷ ms) =
    let rest = opens_on_request ms in if is_system m.role then rest else is_request_turn m

system_plain :
    (r : Role)
    → is_system r ≡ true
    → (is_assistant r ≡ false) × (is_user r ≡ false) × (is_tool r ≡ false)
system_plain system h = (refl, refl, refl)
system_plain user h = absurd (cc)
system_plain assistant h = absurd (cc)
system_plain tool h = absurd (cc)
system_plain (other_role t) h = absurd (cc)

request_plain : (r : Role) → is_user r ≡ true → (is_assistant r ≡ false) × (is_system r ≡ false)
request_plain system h = absurd (cc)
request_plain user h = (refl, refl)
request_plain assistant h = absurd (cc)
request_plain tool h = absurd (cc)
request_plain (other_role t) h = absurd (cc)

is_paired-system :
    (within : Bool) (m : Message) (ms : List Message)
    → is_system m.role ≡ true
    → is_paired within (m ∷ ms) ≡ is_paired within ms
unfolding is_paired is_request_turn
is_paired-system within m ms h = let (a, b, c) = system_plain m.role h in rw (a, b, c) refl

is_paired-systems :
    (within : Bool) (xs ys : List Message)
    → All (λ m. is_system m.role ≡ true) xs
    → is_paired within (xs ++ ys) ≡ is_paired within ys
is_paired-systems within [] ys h = refl
is_paired-systems within (x ∷ xs) ys h =
    is_paired-system within x (xs ++ ys) h.0 ∙ is_paired-systems within xs ys h.1

is_paired-request :
    (within : Bool) (m : Message) (ms : List Message)
    → is_request_turn m ≡ true
    → is_paired within (m ∷ ms) ≡ is_paired false ms
unfolding is_paired is_request_turn
is_paired-request within m ms h =
    let (a, b) = request_plain m.role (ground (arith, h)) in rw a (ground (arith, h))

-- From a boundary on, nothing depends on what stood before.
is_paired-boundary :
    (from within : Bool) (ms : List Message) (cut : ℕ)
    → is_paired from ms ≡ true
    → holds_at is_round_boundary ms cut ≡ true
    → is_paired within (drop cut ms) ≡ true
unfolding is_paired is_round_boundary
is_paired-boundary from within [] cut h b = absurd (cc)
is_paired-boundary from within (m ∷ ms) zero h b = ground (arith, h, b)
is_paired-boundary from within (m ∷ ms) (suc cut) h b = elim (Bool-cases (is_assistant m.role)) [
  | inl a ↦ is_paired-boundary (has_calls m.tool_calls) within ms cut (ground (arith, h, a)) b
  | inr a ↦ elim (Bool-cases (is_request_turn m)) [
    | inl r ↦ is_paired-boundary false within ms cut (ground (arith, h, a, r)) b
    | inr r ↦ is_paired-boundary from within ms cut (ground (arith, h, a, r)) b
  ]
]

note_systems : (dropped : List Message) → All (λ m. is_system m.role ≡ true) (elision_note dropped)
unfolding elision_note
note_systems [] = tt
note_systems (m ∷ dropped) = (refl, tt)

contract_systems :
    (ms : List Message) → All (λ m. is_system m.role ≡ true) (take (contract_of ms) ms)
contract_systems ms = leading_systems-All ms (contract_of ms) (contract_of-le ms)

-- The two forms of what a cut leaves: the request pinned behind the contract, or in the tail.
kept_form :
    (ms : List Message) (leading : ℕ) (active : Option ℕ) (cut : ℕ)
    → ((start : ℕ) → active ≡ some start → holds_at is_request_turn ms start ≡ true)
    → ((dropped : List Message) × (kept ms leading active cut
          ≡ take leading ms ++ (elision_note dropped ++ drop cut ms))
        × ((start : ℕ) → active ≡ some start → cut ≤ start))
      ⊎ ((m : Message) × (dropped : List Message) × (is_request_turn m ≡ true)
          × (kept ms leading active cut
              ≡ take leading ms ++ m ∷ (elision_note dropped ++ drop cut ms)))
unfolding kept
kept_form ms leading none cut request = inl (_, refl, λ start e. absurd (cc))
kept_form ms leading (some start) cut request = elim (Bool-cases (ltb start cut)) [
  | inr below ↦ rw below (inl (_, refl, λ s e. ground (arith, below, e)))
  | inl above ↦ elim (Option-cases (get_elem? ms start)) [
    | inl g ↦ absurd (ground (arith, request start refl, g))
    | inr (m, g) ↦
        let turn : is_request_turn m ≡ true = ground (arith, request start refl, g) in
        rw (above, g) (inr (m, _, turn, append_assoc (take leading ms) (m ∷ []) _))
  ]
]

kept-paired :
    (ms : List Message) (active : Option ℕ) (cut : ℕ)
    → ((start : ℕ) → active ≡ some start → holds_at is_request_turn ms start ≡ true)
    → holds_at is_round_boundary ms cut ≡ true
    → is_paired false ms ≡ true
    → is_paired false (kept ms (contract_of ms) active cut) ≡ true
kept-paired ms active cut request boundary h =
    let tail = is_paired-boundary false false ms cut h boundary in
    elim (kept_form ms (contract_of ms) active cut request) [
      | inl (dropped, e, _) ↦ rw e (
          is_paired-systems false (take (contract_of ms) ms) _ (contract_systems ms)
          ∙ is_paired-systems false (elision_note dropped) (drop cut ms) (note_systems dropped)
          ∙ tail)
      | inr (m, dropped, turn, e) ↦ rw e (
          is_paired-systems false (take (contract_of ms) ms) _ (contract_systems ms)
          ∙ is_paired-request false m _ turn
          ∙ is_paired-systems false (elision_note dropped) (drop cut ms) (note_systems dropped)
          ∙ tail)
    ]

-- If every tool result of a conversation stands behind a message of its round that has calls, with
-- no request and no other message of an assistant between them, then so in what the cap returns.
pub trim_conversation_to_message_cap-is_paired :
    (ms : List Message)
    → is_paired false ms ≡ true
    → is_paired false (trim_conversation_to_message_cap ms) ≡ true
trim_conversation_to_message_cap-is_paired ms h = elim (trim-Cut ms) [
  | inl same ↦ rw same h
  | inr shape ↦
      subst (λ r. is_paired false r ≡ true) (sym shape.at_cut)
        (kept-paired ms (active_turn_bounds ms).1 shape.cut
          (λ start e. (request_of ms start e).request) shape.boundary h)
]

opens-systems :
    (xs ys : List Message)
    → All (λ m. is_system m.role ≡ true) xs
    → opens_on_request (xs ++ ys) ≡ opens_on_request ys
unfolding opens_on_request
opens-systems [] ys h = refl
opens-systems (x ∷ xs) ys h = rw (h.0) (opens-systems xs ys h.1)

opens-request :
    (m : Message) (ms : List Message) → is_request_turn m ≡ true → opens_on_request (m ∷ ms) ≡ true
unfolding opens_on_request is_request_turn
opens-request m ms h = let (a, b) = request_plain m.role (ground (arith, h)) in rw b h

opens-drop :
    (ms : List Message) (i : ℕ)
    → holds_at is_request_turn ms i ≡ true
    → opens_on_request (drop i ms) ≡ true
opens-drop [] i h = absurd (cc)
opens-drop (m ∷ ms) zero h = opens-request m ms h
opens-drop (m ∷ ms) (suc i) h = opens-drop ms i h

-- A trim that drops something, while a request is being executed, opens on a request behind the
-- system messages.
pub trim_conversation_to_message_cap-opens_on_request :
    (ms : List Message) (leading start : ℕ)
    → active_turn_bounds ms ≡ (leading, some start)
    → length (trim_conversation_to_message_cap ms) < length ms
    → opens_on_request (trim_conversation_to_message_cap ms) ≡ true
trim_conversation_to_message_cap-opens_on_request ms leading start bounds less =
    elim (trim-Cut ms) [
      | inl same ↦ absurd (omega (arith, less, ap length same))
      | inr shape ↦
          let active : (active_turn_bounds ms).1 ≡ some start = ap (λ b. b.1) bounds in
          subst (λ r. opens_on_request r ≡ true) (sym shape.at_cut)
            (elim (kept_form ms (contract_of ms) (active_turn_bounds ms).1 shape.cut
              λ s e. (request_of ms s e).request) [
                | inl (dropped, e, below) ↦ rw e (
                    opens-systems (take (contract_of ms) ms) _ (contract_systems ms)
                    ∙ opens-systems (elision_note dropped) (drop shape.cut ms)
                        (note_systems dropped)
                    ∙ opens-drop ms shape.cut (shape.opening start active (below start active)))
                | inr (m, dropped, turn, e) ↦ rw e (
                    opens-systems (take (contract_of ms) ms) _ (contract_systems ms)
                    ∙ opens-request m _ turn)
              ])
    ]
