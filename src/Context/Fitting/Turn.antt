-- ===== src/Context/Fitting/Turn.antt =====
-- A request that is said to fit still ends with the active turn.
use helve.Base.{
  ℕ, ◌≡◌, ◌⊎◌, inl, inr, refl, Bool, true, false, ◌&&◌, not, Option, List, [], ◌∷◌, ◌++◌, arith,
  ltb, leb, take, Text, Bool-cases, sym, ◌∙◌, subst, append_assoc,
}
use helve.Context.Budget.{ContextBudget, Model, context_budget_for, model_limits_for}
use helve.Context.Conversation.{Message, leading_systems, split_active_context}
use helve.Context.Conversation.Suffix.{
  active_part, Ends, Ends-trans, Ends-active_part, Ends-active_part_again,
}
use helve.Context.Prune.{prune_tool_outputs, prune_protect_threshold_chars, prune_min_chars}
use helve.Context.Trim.{trim_conversation_for_context_limit}
use helve.Context.Trim.Fits.{trim_conversation_for_context_limit-Trimmed}
use helve.Context.Fitting.{
  ContextFitResult, Action, Summary, raised, unusable, usable, Compaction, compaction_raised,
  same_conversation, new_conversation, compact_split, status_fits, has_request, is_empty,
  preserved_active_context, tokens, message_budget, recover, fit_or_recover, fit_compacted,
  fit_pruned, fit_with, fit_request, compact_history, pruned_actions, compacted_history,
  compaction_failed, compaction_rejected, model_compaction_disabled, summary_message, summary_ack,
}

Summary-cases : (s : Summary) → (s ≡ raised) ⊎ (s ≡ unusable) ⊎ ((t : Text) × (s ≡ usable t))
Summary-cases raised = inl refl
Summary-cases unusable = inr (inl refl)
Summary-cases (usable t) = inr (inr (t, refl))

abbrev Keeps : List Message → ContextFitResult → Type 0
Keeps turn r = (status_fits r.status ≡ false) ⊎ Ends turn r.messages

module _ (serialized : Message → Text) (serialized_tools : List Text → Text) where
  trim-Ends :
      (ms : List Message) (token_budget : ℕ)
      → Ends (active_part ms) (trim_conversation_for_context_limit serialized ms token_budget)
  trim-Ends ms token_budget =
      let (protected, history, active) = split_active_context ms in
      elim (trim_conversation_for_context_limit-Trimmed serialized ms token_budget) [
        | inl (same, _) ↦ let (q, e) = Ends-active_part ms in (q, same ∙ e)
        | inr ((middle, e), _) ↦
            (protected ++ middle, e ∙ sym (append_assoc protected middle active))
      ]

  module _ (summarize : List Message → Summary) (tools : List Text) (budget : ContextBudget)
      (prefix_cache_key : Option Text) where
    abbrev cost : List Message → ℕ
    cost = tokens serialized serialized_tools summarize tools budget prefix_cache_key

    recover-Keeps :
        (turn candidate : List Message) (actions : List Action)
        → Ends turn (active_part candidate)
        → Keeps turn (
            recover serialized serialized_tools summarize tools budget prefix_cache_key candidate
              actions)
    unfolding recover
    recover-Keeps turn candidate actions h = inr (
        Ends-trans turn (active_part candidate) _ h (
          trim-Ends candidate (
            message_budget serialized serialized_tools summarize tools budget prefix_cache_key
              candidate)))

    fit_or_recover-Keeps :
        (turn : List Message) (pruned_chars : ℕ) (candidate : List Message) (actions : List Action)
        → Ends turn (active_part candidate)
        → Keeps turn (
            fit_or_recover serialized serialized_tools summarize tools budget prefix_cache_key
              pruned_chars candidate actions)
    unfolding fit_or_recover
    fit_or_recover-Keeps turn pruned_chars candidate actions h =
        elim (Bool-cases (leb (cost candidate) budget.safe_input_budget)) [
          | inl fits ↦ rw fits (
              inr
                (Ends-trans turn (active_part candidate) candidate h (Ends-active_part candidate)))
          | inr over ↦ rw over (recover-Keeps turn candidate actions h)
        ]

    -- A conversation that a compaction made ends with the active turn of the one before.
    abbrev Ending : List Message → Compaction → Type 0
    Ending turn compaction_raised = Unit
    Ending turn same_conversation = Unit
    Ending turn (new_conversation ms) = Ends turn ms × Ends turn (active_part ms)

    fit_compacted-Keeps :
        (turn : List Message) (pruned_chars : ℕ) (candidate : List Message) (actions : List Action)
        (compaction : Compaction)
        → Ends turn (active_part candidate)
        → Ending turn compaction
        → Keeps turn (
            fit_compacted serialized serialized_tools summarize tools budget prefix_cache_key
              pruned_chars candidate actions compaction)
    unfolding fit_compacted
    fit_compacted-Keeps turn pruned_chars candidate actions compaction_raised h k =
        fit_or_recover-Keeps turn pruned_chars candidate (actions ++ compaction_failed ∷ []) h
    fit_compacted-Keeps turn pruned_chars candidate actions same_conversation h k =
        fit_or_recover-Keeps turn pruned_chars candidate (actions ++ compaction_rejected ∷ []) h
    fit_compacted-Keeps turn pruned_chars candidate actions (new_conversation messages) h k =
        elim (Bool-cases (leb (cost messages) budget.safe_input_budget)) [
          | inl fits ↦ rw fits (inr k.0)
          | inr over ↦ rw over (
              fit_or_recover-Keeps turn pruned_chars messages (actions ++ compacted_history ∷ [])
                k.1)
        ]

    compact_history-Ending :
        (candidate : List Message)
        → Ending (active_part candidate) (compact_history summarize candidate)
    unfolding compact_history
    compact_history-Ending candidate =
        let (protected, history, active) = split_active_context candidate in
        split protected history (λ s.
          let note = summary_message s ∷ summary_ack ∷ [] in
          let same = append_assoc protected note (active_part candidate) in
          (
            (protected ++ note, sym same),
            subst (λ ms. Ends (active_part candidate) (active_part ms)) same
                (Ends-active_part_again candidate (protected ++ note)),
          ))
      where
        split :
            (protected history : List Message)
            → ((s : Text)
                → Ending (active_part candidate) (
                    new_conversation
                      (protected ++ summary_message s ∷ summary_ack ∷ active_part candidate)))
            → Ending
                (active_part candidate)
                (compact_split summarize (protected, history, active_part candidate))
        split protected [] h = tt
        split protected (m ∷ history) h = elim (Summary-cases (summarize (m ∷ history))) [
          | inl e ↦ rw (e, Ending) tt
          | inr (inl e) ↦ rw (e, Ending) tt
          | inr (inr (s, e)) ↦ rw (e, Ending) (h s)
        ]

    fit_pruned-Keeps :
        (allow : Bool) (candidate : List Message) (pruned_chars : ℕ)
        → Keeps (active_part candidate) (
            fit_pruned serialized serialized_tools summarize tools budget prefix_cache_key allow
              (candidate, pruned_chars))
    unfolding fit_pruned
    fit_pruned-Keeps allow candidate pruned_chars =
        elim (Bool-cases
          (ltb budget.safe_input_budget (cost (preserved_active_context candidate)))) [
            | inl over ↦ rw over (inl refl)
            | inr within ↦ elim (Bool-cases (ltb (cost candidate) budget.compaction_trigger)) [
              | inl small ↦ rw (within, small) (inr (Ends-active_part candidate))
              | inr large ↦ elim (Bool-cases allow) [
                | inl model ↦
                    rw (within, large, model)
                      (fit_compacted-Keeps (active_part candidate) pruned_chars candidate
                        (pruned_actions pruned_chars) (compact_history summarize candidate)
                        ([], refl) (compact_history-Ending candidate))
                | inr never ↦
                    rw (within, large, never)
                      (fit_or_recover-Keeps (active_part candidate) pruned_chars candidate
                        (pruned_actions pruned_chars ++ model_compaction_disabled ∷ []) ([], refl))
              ]
            ]
          ]

    fit_with-Keeps :
        (allow : Bool) (original : List Message)
        → Keeps
            (active_part
              (prune_tool_outputs prune_protect_threshold_chars prune_min_chars original).0)
            (fit_with serialized serialized_tools summarize tools budget prefix_cache_key allow
              original)
    unfolding fit_with
    fit_with-Keeps allow original =
        let systems = take (leading_systems original) original in
        let pruned = prune_tool_outputs prune_protect_threshold_chars prune_min_chars original in
        elim (Bool-cases (leb budget.safe_input_budget (cost []))) [
          | inl a ↦ rw a (inl refl)
          | inr a ↦
              elim (Bool-cases
                (not (is_empty systems) && leb budget.safe_input_budget (cost systems))) [
                  | inl b ↦ rw (a, b) (inl refl)
                  | inr b ↦ elim (Bool-cases (has_request original)) [
                    | inr c ↦ rw (a, b, c) (inl refl)
                    | inl c ↦ rw (a, b, c) (fit_pruned-Keeps allow pruned.0 pruned.1)
                  ]
                ]
        ]

  -- Where fit_request says that the request fits, its messages end with the active turn of the
  -- conversation, with old tool outputs pruned: neither a compaction by the model, whatever it
  -- answers, nor the trim loses the request or the work on it.
  pub fit_request-Ends :
      (summarize : List Message → Summary) (messages : List Message) (tools : List Text)
      (llm : Model) (prefix_cache_key : Option Text) (allow : Bool)
      → status_fits
          (fit_request serialized serialized_tools summarize messages tools llm prefix_cache_key
            allow).status
        ≡ true
      → Ends
          (active_part
            (prune_tool_outputs prune_protect_threshold_chars prune_min_chars messages).0)
          (fit_request serialized serialized_tools summarize messages tools llm prefix_cache_key
            allow).messages
  unfolding fit_request
  fit_request-Ends summarize messages tools llm prefix_cache_key allow h =
      elim (fit_with-Keeps summarize tools (context_budget_for (model_limits_for llm))
        prefix_cache_key allow messages) [
          | inl unfit ↦ absurd (ground (arith, h, unfit))
          | inr ends ↦ ends
        ]
