-- ===== src/React/Cap.antt =====
-- engine/execution/react/budget.py: trim_conversation_to_message_cap.
pub mod Cuts
pub mod Shape
pub mod Request
pub mod Pairing
mod Tests
use helve.Base.{
  ℕ, zero, suc, ◌+◌, ◌-◌, Bool, true, false, ◌&&◌, ◌||◌, not, Option, none, some, List, [], ◌∷◌,
  ◌++◌, ltb, leb, if◌then◌else◌, get_elem?, length, take, drop, Text, codes, decimal, starts_with,
  contains,
}
use helve.Context.Conversation.{
  Message, system, is_system, is_assistant, is_tool, is_request_turn, holds_at, active_turn_bounds,
}

abbrev pub conversation_hard_limit : ℕ
conversation_hard_limit = 40

abbrev pub conversation_keep_recent : ℕ
conversation_keep_recent = 28

abbrev pub elision_marker : Text
elision_marker = codes "earlier messages were elided to fit the context window"

unfoldable pub tool_results : List Message → ℕ
tool_results [] = 0
tool_results (m ∷ ms) = (if is_tool m.role then 1 else 0) + tool_results ms

abbrev pub elision_detail : ℕ → Text
elision_detail zero = []
elision_detail (suc n) = codes ", including " ++ (decimal (suc n) ++ codes " tool result(s)")

abbrev pub note_for : List Message → Message
note_for dropped = record {
  role = system;
  content = some (
      codes "["
      ++ (decimal (length dropped)
          ++ (codes " "
              ++ (elision_marker
                  ++ (elision_detail (tool_results dropped)
                      ++ codes
                          ". That work still happened: rely on what you already established rather than repeating it, and say so if you genuinely need a result again.]")))));
  tool_calls = none;
  rest = [];
}

-- _elision_note
unfoldable pub elision_note : List Message → List Message
elision_note [] = []
elision_note (m ∷ dropped) = note_for (m ∷ dropped) ∷ []

abbrev pub has_marker : Option Text → Bool
has_marker none = false
has_marker (some text) = starts_with (codes "[") text && contains elision_marker text

-- _is_elision_note
unfoldable pub is_elision_note : Message → Bool
is_elision_note m = is_system m.role && has_marker m.content

-- _is_round_boundary
unfoldable pub is_round_boundary : Message → Bool
is_round_boundary m = is_assistant m.role || is_request_turn m

-- Notes of earlier trims at the end of the leading block go back to what may be dropped.
unfoldable pub without_notes : List Message → ℕ → ℕ
without_notes conversation zero = zero
without_notes conversation (suc n) =
    let fewer = without_notes conversation n in
    if holds_at is_elision_note conversation n then fewer else suc n

-- `while cut < stop and not at(conversation[cut]): cut += 1`, with the rounds that are left.
unfoldable pub advance : (Message → Bool) → List Message → ℕ → ℕ → ℕ
advance p conversation zero cut = cut
advance p conversation (suc rounds) cut =
    let further = advance p conversation rounds (suc cut) in
    if holds_at p conversation cut then cut else further

-- `aligned`: the tail opens on a request turn where the request itself stands in it.
unfoldable pub aligned : List Message → Option ℕ → ℕ → ℕ
aligned conversation none cut = cut
aligned conversation (some start) cut =
    if ltb start cut then cut else advance is_request_turn conversation (start - cut) cut

-- The request, if it stands in the part to be dropped.
abbrev pub pinned : List Message → Option ℕ → ℕ → Option (ℕ × Message)
pinned conversation none cut = none
pinned conversation (some start) cut =
    if ltb start cut
    then elim (get_elem? conversation start) [ none ↦ none | some m ↦ some (start, m) ]
    else none

-- The list without its element at a place.
abbrev pub without_at {ℓ} : {A : Type ℓ} → ℕ → List A → List A
without_at i [] = []
without_at zero (x ∷ xs) = xs
without_at (suc i) (x ∷ xs) = x ∷ without_at i xs

abbrev pub kept_with : List Message → ℕ → ℕ → Option (ℕ × Message) → List Message
kept_with conversation leading cut none =
    take leading conversation
    ++ (elision_note (drop leading (take cut conversation)) ++ drop cut conversation)
kept_with conversation leading cut (some (start, request)) =
    (take leading conversation ++ request ∷ [])
    ++ (elision_note (without_at (start - leading) (drop leading (take cut conversation)))
        ++ drop cut conversation)

-- `kept`
unfoldable pub kept : List Message → ℕ → Option ℕ → ℕ → List Message
kept conversation leading active cut =
    kept_with conversation leading cut (pinned conversation active cut)

-- `while cut > leading and not boundary(conversation[cut]): cut -= 1`
unfoldable pub retreat : List Message → ℕ → ℕ → ℕ
retreat conversation leading zero = zero
retreat conversation leading (suc cut) =
    let back = retreat conversation leading cut in
    if ltb leading (suc cut) && not (holds_at is_round_boundary conversation (suc cut))
    then back
    else suc cut

abbrev pub trim_at : List Message → ℕ → Option ℕ → List Message
trim_at conversation leading active =
    let count = length conversation in
    let requested_cut = count - conversation_keep_recent in
    let back = retreat conversation leading requested_cut in
    let trimmed = kept conversation leading active (aligned conversation active back) in
    let forward = advance is_round_boundary conversation (count - requested_cut) requested_cut in
    let forward_trimmed = kept conversation leading active (aligned conversation active forward) in
    if ltb (length trimmed) count
    then trimmed
    else if ltb forward count && ltb (length forward_trimmed) count
    then forward_trimmed
    else conversation

unfoldable pub trim_conversation_to_message_cap : List Message → List Message
trim_conversation_to_message_cap conversation =
    if leb (length conversation) conversation_hard_limit
    then conversation
    else trim_at conversation (without_notes conversation (active_turn_bounds conversation).0)
        (active_turn_bounds conversation).1
