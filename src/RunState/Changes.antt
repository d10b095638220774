-- ===== src/RunState/Changes.antt =====
-- engine/execution/orchestration/run_state.py: what each operation makes of the state it reads.
use helve.Base.{Bool, true, false, Option, none, some, List, [], ◌∷◌, if◌then◌else◌, Text, codes}
use helve.RunState.{
  RunState, running, waiting_approval, cancelled, Result, ok, raised, state_error, transition_error,
  scope_mismatch, value_error, RunScope, ScopeField, mismatched_fields, is_resumable, is_running,
  is_waiting, is_live, bounded_text, option_text_eq, Transition, to_status, transition, Recorded,
  just, record_event,
}
use helve.RunState.Store.{Change, refuse, keep, write}

abbrev pub write_ok : Result RunState → Change
write_ok (raised e) = refuse e
write_ok (ok state) = write state

-- `event_type or resolution`, `reason or resolution`
abbrev pub or_default : Option Text → Text → Text
or_default none default = default
or_default (some []) default = default
or_default (some (c ∷ text)) default = c ∷ text

abbrev pub no_fields : List ScopeField → Bool
no_fields [] = true
no_fields _ = false

abbrev pub in_scope : Option RunScope → RunState → Bool
in_scope none state = true
in_scope (some scope) state = no_fields (mismatched_fields scope state)

-- RunStateStore.validate_resume
unfoldable pub check_resume : Option RunScope → RunState → Result RunState
check_resume scope state =
    if in_scope scope state
    then (if is_resumable state.status then ok state else raised transition_error)
    else raised scope_mismatch

abbrev pub kept_ok : Result RunState → Change
kept_ok (raised e) = refuse e
kept_ok (ok state) = keep state

abbrev pub recorded : Text → Recorded → Result RunState → Result RunState
recorded now e (raised x) = raised x
recorded now e (ok state) = ok (record_event now e state)

abbrev pub resume_now : Text → RunState → Change
resume_now now state = write_ok (
    recorded now (just (codes "run_resumed"))
      (transition now (to_status running (some (codes "resumed"))) state))

-- RunStateStore.resume
unfoldable pub resumed : Text → Option RunScope → RunState → Change
resumed now scope state = elim (check_resume scope state) [
  | raised e ↦ refuse e
  | ok s ↦ resume_now now s
]

-- RunStateStore.bind_identity
unfoldable pub bound : Text → Text → RunState → Change
bound now identity_id state = elim (bounded_text 200 (some identity_id)) [
  | none ↦ refuse value_error
  | some normalized ↦ elim state.identity_id [
    | some old ↦
        if option_text_eq (some old) (some normalized) then keep state else refuse scope_mismatch
    | none ↦ write (record state { identity_id = some normalized; updated_at = now })
  ]
]

-- The arguments of request_approval.
pub record Ask : Type 0 where
  pub approval_id : Text
  pub tool_name : Text
  pub level : Text
  pub reason : Text

abbrev pub asked : Text → Ask → RunState → RunState
asked now ask state =
    record_event now (record (just (codes "approval_required")) { clear_tool = true })
      (record state {
        approval_id = bounded_text 200 (some ask.approval_id);
        approval_tool = bounded_text 200 (some ask.tool_name);
        approval_level = bounded_text 200 (some ask.level);
        approval_reason = bounded_text 200 (some ask.reason);
      })

-- RunStateStore.request_approval
unfoldable pub requested : Text → Ask → RunState → Change
requested now ask state =
    if is_running state.status
    then write_ok
        (transition now (to_status waiting_approval (some ask.reason)) (asked now ask state))
    else refuse transition_error

abbrev pub clear_approval : RunState → RunState
clear_approval state = record state {
  approval_id = none;
  approval_tool = none;
  approval_level = none;
  approval_reason = none;
}

-- The arguments of resolve_approval.
pub record Resolution : Type 0 where
  pub approval_id : Text
  pub approved : Bool
  pub event_type : Option Text
  pub reason : Option Text

abbrev pub resolution_word : Bool → Text
resolution_word true = codes "approval_granted"
resolution_word false = codes "approval_denied"

abbrev pub settled : Text → Resolution → RunState → RunState
settled now r state =
    record_event now (just (or_default r.event_type (resolution_word r.approved)))
      (clear_approval state)

abbrev pub resolve : Text → Resolution → RunState → Change
resolve now r state = write_ok (
    transition now (to_status running (some (or_default r.reason (resolution_word r.approved))))
      (settled now r state))

-- RunStateStore.resolve_approval
unfoldable pub resolved : Text → Resolution → RunState → Change
resolved now r state =
    if is_waiting state.status
    then (if option_text_eq state.approval_id (some r.approval_id)
        then resolve now r state
        else refuse state_error)
    else refuse transition_error

-- RunStateStore.resolve_approval_if_waiting
unfoldable pub resolved_if_waiting : Text → Resolution → RunState → Change
resolved_if_waiting now r state =
    if is_waiting state.status
    then (if option_text_eq state.approval_id (some r.approval_id)
        then resolve now r state
        else keep state)
    else keep state

abbrev pub stopped : Text → RunState → RunState
stopped now state =
    record_event now
      (record (just (codes "run_interrupted")) { clear_skill = true; clear_tool = true })
      (clear_approval state)

-- The body of recover_interrupted's loop, for a state that is read.
unfoldable pub interrupted : Text → RunState → Change
interrupted now state =
    if is_live state.status
    then write_ok
        (transition now (to_status cancelled (some (codes "server_restarted"))) (stopped now state))
    else keep state

abbrev pub noted : Text → Option Text → RunState → RunState
noted now none state = state
noted now (some event_type) state = record_event now (just event_type) state

-- RunStateStore.transition, with the event that it records first.
unfoldable pub moved : Text → Option Text → Transition → RunState → Change
moved now event_type t state = write_ok (transition now t (noted now event_type state))

-- RunStateStore.record_event
unfoldable pub observed : Text → Recorded → RunState → Change
observed now e state = write (record_event now e state)
