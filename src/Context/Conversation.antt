-- ===== src/Context/Conversation.antt =====
-- engine/context/compression.py: messages, and where the request being executed stands.
pub mod Bounds
pub mod Suffix
use helve.Base.{
  ℕ, zero, suc, ◌+◌, ◌-◌, Bool, true, false, ◌&&◌, not, Option, none, some, List, [], ◌∷◌,
  if◌then◌else◌, get_elem?, length, take, drop, Text, codes, starts_with,
}

pub data Role : Type 0 where
  system user assistant tool : Role
  other_role : Text → Role

-- A message dict. `content` is its text, `none` where it is missing or no string; `tool_calls` is
-- the JSON of its calls, `none` where there are none; `rest` stands for its other keys.
pub record Message : Type 0 where
  pub role : Role
  pub content : Option Text
  pub tool_calls : Option Text
  pub rest : Text

abbrev pub is_system : Role → Bool
is_system system = true
is_system _ = false

abbrev pub is_user : Role → Bool
is_user user = true
is_user _ = false

abbrev pub is_assistant : Role → Bool
is_assistant assistant = true
is_assistant _ = false

abbrev pub is_tool : Role → Bool
is_tool tool = true
is_tool _ = false

abbrev pub content_starts : Text → Option Text → Bool
content_starts prefix none = false
content_starts prefix (some text) = starts_with prefix text

abbrev pub runtime_user_note_prefix : Text
runtime_user_note_prefix = codes "[Current time]\n"

unfoldable pub is_request_turn : Message → Bool
is_request_turn m = is_user m.role && not (content_starts runtime_user_note_prefix m.content)

unfoldable pub leading_systems : List Message → ℕ
leading_systems [] = 0
leading_systems (m ∷ ms) =
    let rest = suc (leading_systems ms) in if is_system m.role then rest else 0

abbrev pub holds_at : (Message → Bool) → List Message → ℕ → Bool
holds_at p ms i = elim (get_elem? ms i) [ none ↦ false | some m ↦ p m ]

-- The loop over the indices below `start + n`, from the last one down to `start`.
unfoldable pub newest_request : List Message → ℕ → ℕ → Option ℕ
newest_request ms start zero = none
newest_request ms start (suc n) =
    let older = newest_request ms start n in
    if holds_at is_request_turn ms (start + n) then some (start + n) else older

unfoldable pub active_turn_bounds : List Message → ℕ × Option ℕ
unfolding leading_systems newest_request is_request_turn
active_turn_bounds ms =
    let leading = leading_systems ms in (leading, newest_request ms leading (length ms - leading))

abbrev pub split_at : List Message → ℕ → Option ℕ → List Message × List Message × List Message
split_at ms leading none = (take leading ms, drop leading ms, [])
split_at ms leading (some start) = (take leading ms, drop leading (take start ms), drop start ms)

-- Leading contracts, compactable history, and active work.
unfoldable pub split_active_context : List Message → List Message × List Message × List Message
split_active_context ms = split_at ms (active_turn_bounds ms).0 (active_turn_bounds ms).1
