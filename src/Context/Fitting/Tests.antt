-- ===== src/Context/Fitting/Tests.antt =====
-- A small request that fits, and one with tools that take the whole window.
use helve.Base.{◌≤◌, ◌≡◌, refl, true, none, some, List, [], ◌∷◌, Text, codes}
use helve.Base.Int.{pos}
use helve.Context.Budget.{Model, typed, context_budget_for, model_limits_for}
use helve.Context.Conversation.{
  Message, system, user, active_turn_bounds, is_request_turn, leading_systems, newest_request,
  split_active_context,
}
use helve.Context.Prune.{prune_tool_outputs, walk, prune_protect_threshold_chars, prune_min_chars}
use helve.Context.Tokens.{estimate_tokens, wide_count, is_wide_char}
use helve.Context.Trim.{estimate_messages_tokens}
use helve.Context.Fitting.{
  Summary, unusable, status_fits, fit_request, fit_with, fit_pruned, receipt_for,
  preserved_active_context,
}
use helve.Context.Fitting.Measured.{fit_request_measured}
use helve.Context.Fitting.Turn.{fit_request-Ends}
use helve.Context.Conversation.Suffix.{Ends, active_part}

abbrev content_only : Message → Text
content_only m = elim m.content [ none ↦ [] | some text ↦ text ]

abbrev no_tools : List Text → Text
no_tools tools = []

abbrev no_summary : List Message → Summary
no_summary history = unusable

abbrev small_model : Model
small_model = typed (record {
  context_window = pos 2000;
  context_window_declared = true;
  max_output_tokens = pos 500;
  max_output_tokens_declared = true;
})

abbrev short : List Message
short =
    record { role = system; content = some (codes "contract"); tool_calls = none; rest = [] }
    ∷ record { role = user; content = some (codes "a request"); tool_calls = none; rest = [] }
    ∷ []

short_fits :
    status_fits (fit_request content_only no_tools no_summary short [] small_model none true).status
    ≡ true
unfolding fit_request fit_with fit_pruned receipt_for preserved_active_context context_budget_for
    model_limits_for active_turn_bounds is_request_turn leading_systems newest_request
    split_active_context prune_tool_outputs walk estimate_tokens wide_count is_wide_char
    estimate_messages_tokens
short_fits = refl

fit_request_measured_example :
    let r = fit_request content_only no_tools no_summary short [] small_model none true in
    let budget = context_budget_for (model_limits_for small_model) in
    (r.receipt ≡ receipt_for content_only no_tools r.messages r.tools budget)
    × (r.receipt.estimated_input_tokens ≤ budget.safe_input_budget)
fit_request_measured_example =
    fit_request_measured content_only no_tools no_summary short [] small_model none true short_fits

fit_request-Ends_example :
    Ends
      (active_part (prune_tool_outputs prune_protect_threshold_chars prune_min_chars short).0)
      (fit_request content_only no_tools no_summary short [] small_model none true).messages
fit_request-Ends_example =
    fit_request-Ends content_only no_tools no_summary short [] small_model none true short_fits
