-- ===== src/Context/Trim.antt =====
-- engine/context/compression.py: trim_conversation_for_context_limit, with the estimates of
-- engine/context/budget.py that it uses.
--
-- `serialized` stands for json.dumps of a message, of the standard library. The search keeps the
-- bound above `high` in place of `high`, which may get to -1. A budget of 0 stands for the lower
-- ones too, which are treated like it.
pub mod Search
pub mod Fits
mod Tests
use helve.Base.{
  ℕ, zero, suc, ◌+◌, ◌-◌, ◌/◌, Bool, true, false, ◌&&◌, ◌||◌, Option, none, some, List, [], ◌∷◌,
  ◌++◌, ◌==◌, ltb, leb, if◌then◌else◌, length, drop, all, Text, codes,
}
use helve.Context.Tokens.{estimate_tokens}
use helve.Context.Conversation.{
  Message, Role, system, user, assistant, tool, other_role, split_active_context,
}

abbrev pub role_text : Role → Text
role_text system = codes "system"
role_text user = codes "user"
role_text assistant = codes "assistant"
role_text tool = codes "tool"
role_text (other_role t) = t

-- The text of a message, or its tool calls where it has none.
abbrev pub history_content : Message → Text
history_content m = elim m.content [
  | some (c ∷ text) ↦ c ∷ text
  | _ ↦ elim m.tool_calls [ none ↦ [] | some calls ↦ calls ]
]

-- `history_lines`
unfoldable pub history_lines : List Message → List Text
history_lines [] = []
history_lines (m ∷ ms) =
    let rest = history_lines ms in
    elim (history_content m) [
      | [] ↦ rest
      | c ∷ text ↦ (codes "[" ++ (role_text m.role ++ (codes "] " ++ c ∷ text))) ∷ rest
    ]

-- `"\n".join`
unfoldable pub join_lines : List Text → Text
join_lines [] = []
join_lines (line ∷ []) = line
join_lines (line ∷ (next ∷ lines)) = line ++ (codes "\n" ++ join_lines (next ∷ lines))

abbrev pub recovery_prefix : Text
recovery_prefix = codes "[Context deterministically shortened to fit the selected model]\n"

abbrev pub truncation_marker : Text
truncation_marker = codes "[... earlier context truncated ...]\n"

abbrev pub recovery_ack : Message
recovery_ack = record {
  role = assistant;
  content = some (codes "Understood. I have the relevant earlier context.");
  tool_calls = none;
  rest = [];
}

abbrev pub recovered_message : Text → Message
recovered_message text = record { role = user; content = some text; tool_calls = none; rest = [] }

-- A character that `str.strip` removes.
abbrev pub is_space : ℕ → Bool
is_space c =
    (leb 9 c && leb c 13)
    || (leb 28 c && leb c 32)
    || c == 133
    || c == 160
    || c == 5760
    || (leb 8192 c && leb c 8202)
    || c == 8232
    || c == 8233
    || c == 8239
    || c == 8287
    || c == 12288

-- The prefix, the marker where something is cut, and the last `keep` characters.
unfoldable pub recovered_history : Text → ℕ → Text
recovered_history history_text keep =
    recovery_prefix
    ++ ((if ltb keep (length history_text) then truncation_marker else [])
        ++ drop (length history_text - keep) history_text)

unfoldable pub historical_candidate : List Message → List Message → Text → ℕ → List Message
historical_candidate protected active history_text keep =
    if all is_space (recovered_history history_text keep)
    then protected ++ active
    else protected
      ++ recovered_message (recovered_history history_text keep) ∷ recovery_ack ∷ active

-- The binary search over `keep`: the candidate found last, with the rounds that are left.
unfoldable pub search : (ℕ → ℕ) → ℕ → ℕ → ℕ → ℕ → ℕ → ℕ
search cost budget zero low above best = best
search cost budget (suc rounds) low above best =
    let keep = (low + above - 1) / 2 in
    let higher = search cost budget rounds (keep + 1) above keep in
    let lower = search cost budget rounds low keep best in
    if ltb low above then (if leb (cost keep) budget then higher else lower) else best

module _ (serialized : Message → Text) where
  unfoldable pub estimate_messages_tokens : List Message → ℕ
  estimate_messages_tokens [] = 0
  estimate_messages_tokens (m ∷ ms) =
      estimate_tokens (serialized m) + 4 + estimate_messages_tokens ms

  unfoldable pub candidate_cost : List Message → List Message → Text → ℕ → ℕ
  candidate_cost protected active history_text keep =
      let fixed_cost = estimate_messages_tokens (protected ++ recovery_ack ∷ active) in
      let protected_active_cost = estimate_messages_tokens (protected ++ active) in
      if all is_space (recovered_history history_text keep)
      then protected_active_cost
      else fixed_cost
        + estimate_messages_tokens (recovered_message (recovered_history history_text keep) ∷ [])

  abbrev pub trimmed : ℕ → List Message → List Message → Text → List Message
  trimmed token_budget protected active history_text =
      if ltb token_budget (candidate_cost protected active history_text 0)
      then protected ++ active
      else historical_candidate protected active history_text (
          search (candidate_cost protected active history_text) token_budget
            (suc (length history_text)) 0 (suc (length history_text)) 0)

  abbrev pub trim_split : ℕ → List Message × List Message × List Message → List Message
  trim_split token_budget (protected, history, active) =
      trimmed token_budget protected active (join_lines (history_lines history))

  unfoldable pub trim_conversation_for_context_limit : List Message → ℕ → List Message
  trim_conversation_for_context_limit conversation token_budget =
      if token_budget == 0 || leb (estimate_messages_tokens conversation) token_budget
      then conversation
      else trim_split token_budget (split_active_context conversation)
