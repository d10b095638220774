-- ===== src/Context/Trim/Tests.antt =====
-- A trim of four messages to a budget that holds a part of their history.
use helve.Base.{ℕ, ◌*◌, ◌≤◌, ◌≡◌, ◌⊎◌, refl, none, some, List, [], ◌∷◌, Text, codes}
use helve.Context.Conversation.{Message, Role, system, user, assistant, split_active_context}
use helve.Context.Trim.{
  trim_conversation_for_context_limit, estimate_messages_tokens, search, join_lines, history_lines,
}
use helve.Context.Trim.Fits.{Trimmed, trim_conversation_for_context_limit-Trimmed}

abbrev said : Role → Text → Message
said role content = record { role = role; content = some content; tool_calls = none; rest = [] }

abbrev content_only : Message → Text
content_only m = elim m.content [ none ↦ [] | some text ↦ text ]

abbrev talk : List Message
talk =
    said system (codes "contract")
    ∷ said user
        (codes "an earlier request with a long text that is cut somewhere in the middle of it")
    ∷ said assistant
        (codes "an answer with a text that is longer than the request before it, so it is cut")
    ∷ said user (codes "now")
    ∷ []

searched : search (λ n. n * n) 40 9 0 9 0 ≡ 6
unfolding search
searched = refl

trim_conversation_for_context_limit-Trimmed_example :
    let budget : ℕ = 75 in
    let result = trim_conversation_for_context_limit content_only talk 75 in
    let (protected, history, active) = split_active_context talk in
    ((result ≡ talk) × ((budget ≡ 0) ⊎ (estimate_messages_tokens content_only talk ≤ budget)))
    ⊎ Trimmed content_only 75 protected active (join_lines (history_lines history)) result
trim_conversation_for_context_limit-Trimmed_example =
    trim_conversation_for_context_limit-Trimmed content_only talk 75
