-- ===== src/RunState/Project.antt =====
-- engine/execution/orchestration/run_state.py: project_execution_event, with the event types of
-- engine/execution/events.py.
--
-- An event's data are the keys that are read of it, each value as its `str`, null as missing.
use helve.Base.{
  String, Bool, true, false, Option, none, some, if◌then◌else◌, Text, codes, text_eq, ◌||◌, ◌++◌,
}
use helve.RunState.{
  RunError, overflow_error, RunState, RunStatus, running, failed, Result, ok, raised, value_error,
  ErrorDetails, bounded_error_details, to_status, Recorded, just, text_or,
}
use helve.RunState.Stored.{parse_status}
use helve.RunState.Store.{Store, Io, defer_event}
use helve.RunState.Changes.{Resolution, Ask, or_default}
use helve.RunState.Operations.{move, observe, request_approval, resolve_approval_if_waiting}

-- EventType
pub data EventType : Type 0 where
  run_started raw_response_event thinking text_delta tool_call_start tool_call_result skill_start
        skill_end gate_result gate_evidence route_decided backtrack blocked awaiting_input
        token_usage context_usage context_compression_start context_compression_end
        provisional_text_delta provisional_commit provisional_retract smith_ui smith_ui_fallback
        incomplete_event failed_event done_event run_finished :
      EventType

-- EventType.value
abbrev pub event_value : EventType → Text
event_value run_started = codes "run_started"
event_value raw_response_event = codes "raw_response_event"
event_value thinking = codes "thinking"
event_value text_delta = codes "text_delta"
event_value tool_call_start = codes "tool_call_start"
event_value tool_call_result = codes "tool_call_result"
event_value skill_start = codes "skill_start"
event_value skill_end = codes "skill_end"
event_value gate_result = codes "gate_result"
event_value gate_evidence = codes "gate_evidence"
event_value route_decided = codes "route_decided"
event_value backtrack = codes "backtrack"
event_value blocked = codes "blocked"
event_value awaiting_input = codes "awaiting_input"
event_value token_usage = codes "token_usage"
event_value context_usage = codes "context_usage"
event_value context_compression_start = codes "context_compression_start"
event_value context_compression_end = codes "context_compression_end"
event_value provisional_text_delta = codes "provisional_text_delta"
event_value provisional_commit = codes "provisional_commit"
event_value provisional_retract = codes "provisional_retract"
event_value smith_ui = codes "smith_ui"
event_value smith_ui_fallback = codes "smith_ui_fallback"
event_value incomplete_event = codes "incomplete"
event_value failed_event = codes "failed"
event_value done_event = codes "done"
event_value run_finished = codes "run_finished"

pub record EventData : Type 0 where
  pub status : Option Text
  pub reason : Option Text
  pub error : Option ErrorDetails
  pub skill : Option Text
  pub name : Option Text
  pub approval_required : Bool
  pub approval_id : Option Text
  pub tool : Option Text
  pub level : Option Text
  pub approval_outcome : Option Text

-- What the function does with an event, told by its type.
pub data Route : Type 0 where
  ignore defer start finish other tool_result : Route

-- _HIGH_FREQUENCY_STREAM_EVENTS, _DEFERRED_STATE_EVENTS and the chain of tests.
abbrev pub route : EventType → Route
route raw_response_event = ignore
route provisional_text_delta = ignore
route thinking = defer
route token_usage = defer
route context_usage = defer
route run_started = start
route run_finished = finish
route tool_call_result = tool_result
route _ = other

abbrev pub when_failed {ℓ} : {A : Type ℓ} → RunStatus → Option A → Option A
when_failed failed o = o
when_failed _ o = none

abbrev pub finish_move :
    Text → Io → String → EventData → Option RunStatus → Store → Result RunState × Store
finish_move now io run_id d none store = (raised value_error, store)
finish_move now io run_id d (some status) store =
    move now io run_id (some (codes "run_finished"))
      (record {
        target = status;
        reason = d.reason;
        error = when_failed status d.reason;
        error_details = when_failed status (bounded_error_details d.error);
      })
      store

abbrev pub details : EventType → EventData → Recorded
details skill_start d = record (just (codes "skill_start")) { current_skill = d.skill }
details skill_end d = record (just (codes "skill_end")) { clear_skill = true }
details tool_call_start d = record (just (codes "tool_call_start")) { current_tool = d.name }
details tool_call_result d = record (just (codes "tool_call_result")) { clear_tool = true }
details t d = just (event_value t)

abbrev pub outcome_of : EventData → Text
outcome_of d = or_default d.approval_outcome (codes "")

abbrev pub ask_of : EventData → Ask
ask_of d = record {
  approval_id = or_default d.approval_id (codes "");
  tool_name = or_default d.tool (codes "tool");
  level = or_default d.level (codes "execute");
  reason = or_default d.reason (codes "Approval required");
}

abbrev pub answer_of : Bool → Text → EventData → Resolution
answer_of approved reason d = record {
  approval_id = or_default d.approval_id (codes "");
  approved = approved;
  event_type = some (codes "tool_call_result");
  reason = some reason;
}

abbrev pub project_outcome : Text → Io → String → EventData → Store → Result RunState × Store
project_outcome now io run_id d store =
    if text_eq (outcome_of d) (codes "granted")
    then resolve_approval_if_waiting now io run_id (answer_of true (codes "approval_granted") d)
        store
    else if text_eq (outcome_of d) (codes "denied") || text_eq (outcome_of d) (codes "timed_out")
    then resolve_approval_if_waiting now io run_id
        (answer_of false (codes "approval_" ++ outcome_of d) d) store
    else observe now io run_id (details tool_call_result d) store

unfoldable pub project_result : Text → Io → String → EventData → Store → Result RunState × Store
project_result now io run_id d store =
    if d.approval_required
    then request_approval now io run_id (ask_of d) store
    else project_outcome now io run_id d store

-- `except (RunStateError, ValueError, TypeError)`: an OverflowError goes on to the caller.
abbrev pub swallowed {ℓ} : {A : Type ℓ} → Result A × Store → Option RunError × Store
swallowed (ok a, store) = (none, store)
swallowed (raised overflow_error, store) = (some overflow_error, store)
swallowed (raised _, store) = (none, store)

abbrev pub project_by :
    Text → Io → String → EventType → EventData → Route → Store → Option RunError × Store
project_by now io run_id t d ignore store = (none, store)
project_by now io run_id t d defer store = swallowed (defer_event run_id (event_value t) store)
project_by now io run_id t d start store =
    swallowed (move now io run_id (some (event_value t)) (to_status running none) store)
project_by now io run_id t d finish store =
    swallowed (finish_move now io run_id d (parse_status (text_or d.status (codes "failed"))) store)
project_by now io run_id t d tool_result store = swallowed (project_result now io run_id d store)
project_by now io run_id t d other store = swallowed (observe now io run_id (details t d) store)

-- project_execution_event
unfoldable pub project_execution_event :
    Text → Io → String → EventType → EventData → Store → Option RunError × Store
project_execution_event now io run_id t d store = project_by now io run_id t d (route t) store
