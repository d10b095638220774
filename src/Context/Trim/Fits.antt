-- ===== src/Context/Trim/Fits.antt =====
-- What the trim for a context limit returns: within the budget, with the contract and the request.
use helve.Base.{
  ℕ, suc, ◌+◌, ◌≤◌, ◌<◌, ◌≡◌, ◌⊎◌, inl, inr, refl, ◌||◌, List, [], ◌∷◌, ◌++◌, ◌==◌, arith, ltb, leb,
  length, all, Text, Bool-cases, sym, subst,
}
use helve.Context.Conversation.{Message, split_active_context}
use helve.Context.Trim.{
  is_space, recovered_history, recovered_message, recovery_ack, historical_candidate,
  estimate_messages_tokens, candidate_cost, search, trimmed, join_lines, history_lines,
  trim_conversation_for_context_limit,
}
use helve.Context.Trim.Search.{search_fits}

module _ (serialized : Message → Text) where
  estimate_messages_tokens-append :
      (xs ys : List Message)
      → estimate_messages_tokens serialized (xs ++ ys)
        ≡ estimate_messages_tokens serialized xs + estimate_messages_tokens serialized ys
  unfolding estimate_messages_tokens
  estimate_messages_tokens-append [] ys = omega arith
  estimate_messages_tokens-append (x ∷ xs) ys = omega (arith, estimate_messages_tokens-append xs ys)

  -- The cost that the search computes from the fixed parts is the estimate of the whole candidate.
  pub candidate_cost-historical_candidate :
      (protected active : List Message) (history_text : Text) (keep : ℕ)
      → candidate_cost serialized protected active history_text keep
        ≡ estimate_messages_tokens serialized
            (historical_candidate protected active history_text keep)
  unfolding candidate_cost historical_candidate estimate_messages_tokens
  candidate_cost-historical_candidate protected active history_text keep =
      let note = recovered_message (recovered_history history_text keep) in
      elim (Bool-cases (all is_space (recovered_history history_text keep))) [
        | inl blank_text ↦ rw blank_text refl
        | inr there ↦ rw there (
            omega (
              arith,
              estimate_messages_tokens-append protected (recovery_ack ∷ active),
              estimate_messages_tokens-append protected (note ∷ (recovery_ack ∷ active)),
            ))
      ]

  -- What the trim of the parts may return.
  abbrev pub Trimmed : ℕ → List Message → List Message → Text → List Message → Type 0
  Trimmed token_budget protected active history_text result =
      ((middle : List Message) × (result ≡ protected ++ (middle ++ active)))
      × ((estimate_messages_tokens serialized result ≤ token_budget)
          ⊎ ((result ≡ protected ++ active)
              × (token_budget
                  < estimate_messages_tokens serialized
                      (historical_candidate protected active history_text 0))))

  candidate_middle :
      (protected active : List Message) (history_text : Text) (keep : ℕ)
      → (middle : List Message) × (historical_candidate protected active history_text keep
          ≡ protected ++ (middle ++ active))
  unfolding historical_candidate
  candidate_middle protected active history_text keep =
      elim (Bool-cases (all is_space (recovered_history history_text keep))) [
        | inl blank_text ↦ rw blank_text ([], refl)
        | inr there ↦
            rw there
              (recovered_message (recovered_history history_text keep) ∷ recovery_ack ∷ [], refl)
      ]

  trimmed-Trimmed :
      (token_budget : ℕ) (protected active : List Message) (history_text : Text)
      → Trimmed token_budget protected active history_text
          (trimmed serialized token_budget protected active history_text)
  trimmed-Trimmed token_budget protected active history_text =
      let cost = candidate_cost serialized protected active history_text in
      let rounds = suc (length history_text) in
      elim (Bool-cases (ltb token_budget (cost 0))) [
        | inl over ↦ rw over (
          ([], refl),
          inr (
            refl,
            ground
                (arith, over, candidate_cost-historical_candidate protected active history_text 0),
          ),
        )
        | inr within ↦
            let found = search cost token_budget rounds 0 rounds 0 in
            let fits : cost found ≤ token_budget =
              elim (search_fits cost token_budget rounds 0 rounds 0) [
                | inl e ↦ subst (λ n. cost n ≤ token_budget) (sym e) (ground (arith, within))
                | inr (_, _, c) ↦ c
              ] in
            rw within (
              candidate_middle protected active history_text found,
              inl (
                  subst (λ n. n ≤ token_budget)
                    (candidate_cost-historical_candidate protected active history_text found) fits),
            )
      ]

  -- The trim returns the conversation, where the budget is 0 or it fits as it is. Otherwise it returns
  -- the leading contract, some messages in place of the history, and the active turn as it was; this
  -- fits the budget, or nothing stands in place of the history, and a note without any of it would
  -- not fit.
  pub trim_conversation_for_context_limit-Trimmed :
      (conversation : List Message) (token_budget : ℕ)
      → let result = trim_conversation_for_context_limit serialized conversation token_budget in
        let (protected, history, active) = split_active_context conversation in
        ((result ≡ conversation)
          × ((token_budget ≡ 0)
              ⊎ (estimate_messages_tokens serialized conversation ≤ token_budget)))
        ⊎ Trimmed token_budget protected active (join_lines (history_lines history)) result
  unfolding trim_conversation_for_context_limit
  trim_conversation_for_context_limit-Trimmed conversation token_budget =
      elim (Bool-cases (
        token_budget == 0 || leb (estimate_messages_tokens serialized conversation) token_budget)) [
          | inl small ↦ rw small (inl (refl, ground (arith, small)))
          | inr large ↦
              let (protected, history, active) = split_active_context conversation in
              rw large (
                inr (
                  trimmed-Trimmed token_budget protected active
                    (join_lines (history_lines history))))
        ]
