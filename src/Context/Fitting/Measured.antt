-- ===== src/Context/Fitting/Measured.antt =====
-- A request that is said to fit was measured as it is sent, and is within the safe input budget.
use helve.Base.{
  ℕ, ◌≤◌, ◌≡◌, ◌⊎◌, inl, inr, refl, Bool, true, false, ◌&&◌, not, Option, List, [], ◌∷◌, ◌++◌, ◌==◌,
  arith, ltb, leb, if◌then◌else◌, take, Text, Bool-cases,
}
use helve.Context.Budget.{ContextBudget, Model, context_budget_for, model_limits_for}
use helve.Context.Budget.Bounds.{context_budget_for_bounds}
use helve.Context.Conversation.{Message, leading_systems}
use helve.Context.Prune.{prune_tool_outputs, prune_protect_threshold_chars, prune_min_chars}
use helve.Context.Trim.{trim_conversation_for_context_limit}
use helve.Context.Fitting.{
  ContextFitStatus, fit, compacted, ContextFitResult, Action, Summary, Compaction,
  compaction_raised, same_conversation, new_conversation, status_fits, has_request, is_empty,
  preserved_active_context, receipt_for, tokens, assessed, message_budget, recover, fit_or_recover,
  fit_compacted, fit_pruned, fit_with, fit_request, compact_history, compacted_history,
  pruned_actions,
}

module _ (serialized : Message → Text) (serialized_tools : List Text → Text) where
  -- It does not claim to fit, or its receipt is that of its messages and within the budget.
  abbrev pub Sound : ContextBudget → ContextFitResult → Type 0
  Sound budget r =
      (status_fits r.status ≡ false)
      ⊎ ((r.receipt ≡ receipt_for serialized serialized_tools r.messages r.tools budget)
          × (r.receipt.estimated_input_tokens ≤ budget.safe_input_budget))

  module _ (summarize : List Message → Summary) (tools : List Text) (budget : ContextBudget)
      (prefix_cache_key : Option Text)
      (lower : budget.compaction_trigger ≤ budget.safe_input_budget) where
    abbrev cost : List Message → ℕ
    cost = tokens serialized serialized_tools summarize tools budget prefix_cache_key

    abbrev Fine : ContextFitResult → Type 0
    Fine = Sound budget

    assessed-Sound :
        (status : ContextFitStatus) (candidate : List Message) (actions : List Action)
        → (status_fits status ≡ true → cost candidate ≤ budget.safe_input_budget)
        → Fine (
            assessed serialized serialized_tools summarize tools budget prefix_cache_key status
              candidate actions)
    assessed-Sound status candidate actions h = elim (Bool-cases (status_fits status)) [
      | inr no_fit ↦ inl no_fit
      | inl fits ↦ inr (refl, h fits)
    ]

    recover-Sound :
        (candidate : List Message) (actions : List Action)
        → Fine (
            recover serialized serialized_tools summarize tools budget prefix_cache_key candidate
              actions)
    unfolding recover
    recover-Sound candidate actions =
        let out = trim_conversation_for_context_limit serialized candidate (
          message_budget serialized serialized_tools summarize tools budget prefix_cache_key
            candidate) in
        elim (Bool-cases (leb (cost out) budget.safe_input_budget && has_request out)) [
          | inl fits ↦ rw fits (inr (refl, ground (arith, fits)))
          | inr over ↦ rw over (inl refl)
        ]

    fit_or_recover-Sound :
        (pruned_chars : ℕ) (candidate : List Message) (actions : List Action)
        → Fine (
            fit_or_recover serialized serialized_tools summarize tools budget prefix_cache_key
              pruned_chars candidate actions)
    unfolding fit_or_recover
    fit_or_recover-Sound pruned_chars candidate actions =
        elim (Bool-cases (leb (cost candidate) budget.safe_input_budget)) [
          | inl fits ↦ rw fits (
              assessed-Sound (if pruned_chars == 0 then fit else compacted) candidate actions
                λ h. ground (arith, fits))
          | inr over ↦ rw over (recover-Sound candidate actions)
        ]

    fit_compacted-Sound :
        (pruned_chars : ℕ) (candidate : List Message) (actions : List Action)
        (compaction : Compaction)
        → Fine (
            fit_compacted serialized serialized_tools summarize tools budget prefix_cache_key
              pruned_chars candidate actions compaction)
    unfolding fit_compacted
    fit_compacted-Sound pruned_chars candidate actions compaction_raised =
        fit_or_recover-Sound pruned_chars candidate _
    fit_compacted-Sound pruned_chars candidate actions same_conversation =
        fit_or_recover-Sound pruned_chars candidate _
    fit_compacted-Sound pruned_chars candidate actions (new_conversation messages) =
        elim (Bool-cases (leb (cost messages) budget.safe_input_budget)) [
          | inl fits ↦ rw fits (
              assessed-Sound compacted messages (actions ++ compacted_history ∷ [])
                λ h. ground (arith, fits))
          | inr over ↦ rw over (fit_or_recover-Sound pruned_chars messages _)
        ]

    fit_pruned-Sound :
        (allow : Bool) (candidate : List Message) (pruned_chars : ℕ)
        → Fine (
            fit_pruned serialized serialized_tools summarize tools budget prefix_cache_key allow
              (candidate, pruned_chars))
    unfolding fit_pruned
    fit_pruned-Sound allow candidate pruned_chars =
        elim (Bool-cases
          (ltb budget.safe_input_budget (cost (preserved_active_context candidate)))) [
            | inl over ↦ rw over (inl refl)
            | inr within ↦ elim (Bool-cases (ltb (cost candidate) budget.compaction_trigger)) [
              | inl small ↦
                  rw (within, small)
                    (assessed-Sound
                      (if is_empty (pruned_actions pruned_chars) then fit else compacted) candidate
                      (pruned_actions pruned_chars) λ h. ground (arith, small, lower))
              | inr large ↦ elim (Bool-cases allow) [
                | inl yes_please ↦
                    rw (within, large, yes_please)
                      (fit_compacted-Sound pruned_chars candidate _
                        (compact_history summarize candidate))
                | inr never ↦
                    rw (within, large, never) (fit_or_recover-Sound pruned_chars candidate _)
              ]
            ]
          ]

    fit_with-Sound :
        (allow : Bool) (original : List Message)
        → Fine (
            fit_with serialized serialized_tools summarize tools budget prefix_cache_key allow
              original)
    unfolding fit_with
    fit_with-Sound allow original =
        let systems = take (leading_systems original) original in
        let pruned = prune_tool_outputs prune_protect_threshold_chars prune_min_chars original in
        elim (Bool-cases (leb budget.safe_input_budget (cost []))) [
          | inl a ↦ rw a (inl refl)
          | inr a ↦
              elim (Bool-cases
                (not (is_empty systems) && leb budget.safe_input_budget (cost systems))) [
                  | inl b ↦ rw (a, b) (inl refl)
                  | inr b ↦ elim (Bool-cases (has_request original)) [
                    | inr c ↦ rw (a, b, c) (inl refl)
                    | inl c ↦ rw (a, b, c) (fit_pruned-Sound allow pruned.0 pruned.1)
                  ]
                ]
        ]

  -- Where fit_request says that the request fits, the receipt is the measure of the very messages and
  -- tools that it returns, and it is within the safe input budget of the model.
  pub fit_request_measured :
      (summarize : List Message → Summary) (messages : List Message) (tools : List Text)
      (llm : Model) (prefix_cache_key : Option Text) (allow : Bool)
      → status_fits
          (fit_request serialized serialized_tools summarize messages tools llm prefix_cache_key
            allow).status
        ≡ true
      → let r =
          fit_request serialized serialized_tools summarize messages tools llm prefix_cache_key
            allow in
        let budget = context_budget_for (model_limits_for llm) in
        (r.receipt ≡ receipt_for serialized serialized_tools r.messages r.tools budget)
        × (r.receipt.estimated_input_tokens ≤ budget.safe_input_budget)
  unfolding fit_request
  fit_request_measured summarize messages tools llm prefix_cache_key allow h =
      let budget = context_budget_for (model_limits_for llm) in
      let (_, _, _, _, _, _, lower) = context_budget_for_bounds (model_limits_for llm) in
      elim (fit_with-Sound summarize tools budget prefix_cache_key lower allow messages) [
        | inl unfit ↦ absurd (ground (arith, h, unfit))
        | inr sound ↦ sound
      ]
