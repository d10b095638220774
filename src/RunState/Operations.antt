-- ===== src/RunState/Operations.antt =====
-- engine/execution/orchestration/run_state.py: the operations of RunStateStore.
--
-- `run_ids`, an argument, is the stems of the files that `sorted(glob("*.json"))` lists.
use helve.Base.{
  String, Bool, true, false, Option, none, some, List, [], ◌∷◌, if◌then◌else◌, Text, codes,
}
use helve.Base.Dict.{get, remove}
use helve.RunState.{
  RunError, RunState, queued, Result, ok, raised, state_error, value_error, overflow_error,
  RunScope, text_or, bounded_text, is_live, Recorded, Transition,
}
use helve.RunState.Store.{
  Store, File, Io, valid_run_id, read, save, Change, refuse, keep, write, on_state,
}
use helve.RunState.Changes.{
  check_resume, kept_ok, resumed, bound, Ask, requested, Resolution, resolved, resolved_if_waiting,
  interrupted, moved, observed,
}

-- The arguments of create, before they are bounded.
abbrev pub new_state : Text → String → RunScope → RunState
new_state now run_id given = record {
  run_id = run_id;
  agent_id = text_or (bounded_text 200 (some given.agent_id)) (codes "unknown");
  session_id = bounded_text 200 given.session_id;
  message_id = bounded_text 200 given.message_id;
  identity_id = bounded_text 200 given.identity_id;
  working_dir = bounded_text 1024 given.working_dir;
  forced_skill = bounded_text 200 given.forced_skill;
  status = queued;
  created_at = now;
  updated_at = now;
  event_seq = 0;
  last_event_type = none;
  current_skill = none;
  current_tool = none;
  reason = none;
  error = none;
  error_details = none;
  approval_id = none;
  approval_tool = none;
  approval_level = none;
  approval_reason = none;
}

abbrev pub exists : Option File → Bool
exists none = false
exists (some _) = true

-- RunStateStore.create
unfoldable pub create : Text → Io → String → RunScope → Store → Result RunState × Store
create now io run_id given store =
    if valid_run_id run_id
    then (if exists (get run_id store.files)
        then (raised state_error, store)
        else save io (new_state now run_id given) store)
    else (raised value_error, store)

-- RunStateStore.validate_resume
unfoldable pub validate_resume :
    Text → Io → String → Option RunScope → Store → Result RunState × Store
validate_resume now io run_id scope store =
    on_state now io run_id (λ state. kept_ok (check_resume scope state)) store

unfoldable pub resume : Text → Io → String → Option RunScope → Store → Result RunState × Store
resume now io run_id scope store = on_state now io run_id (resumed now scope) store

unfoldable pub bind_identity : Text → Io → String → Text → Store → Result RunState × Store
bind_identity now io run_id identity_id store = on_state now io run_id (bound now identity_id) store

unfoldable pub request_approval : Text → Io → String → Ask → Store → Result RunState × Store
request_approval now io run_id ask store = on_state now io run_id (requested now ask) store

unfoldable pub resolve_approval : Text → Io → String → Resolution → Store → Result RunState × Store
resolve_approval now io run_id r store = on_state now io run_id (resolved now r) store

unfoldable pub resolve_approval_if_waiting :
    Text → Io → String → Resolution → Store → Result RunState × Store
resolve_approval_if_waiting now io run_id r store =
    on_state now io run_id (resolved_if_waiting now r) store

unfoldable pub move :
    Text → Io → String → Option Text → Transition → Store → Result RunState × Store
move now io run_id event_type t store = on_state now io run_id (moved now event_type t) store

unfoldable pub observe : Text → Io → String → Recorded → Store → Result RunState × Store
observe now io run_id e store = on_state now io run_id (observed now e) store

-- One round of recover_interrupted's loop: skipped, recovered, or ended by an exception.
pub data Round : Type 0 where
  skipped recovered : Round
  aborted : RunError → Round

abbrev pub saved : Result RunState × Store → Round × Store
saved (ok state, store) = (recovered, store)
saved (raised e, store) = (aborted e, store)

abbrev pub after_change : Io → Change → Store → Round × Store
after_change io (refuse e) store = (aborted e, store)
after_change io (keep state) store = (skipped, store)
after_change io (write state) store = saved (save io state store)

-- `except RunStateError: continue`; another exception leaves the loop.
abbrev pub unreadable : RunError → Round
unreadable value_error = aborted value_error
unreadable overflow_error = aborted overflow_error
unreadable _ = skipped

unfoldable pub recover_one : Text → Io → String → Store → Round × Store
recover_one now io run_id store =
    if valid_run_id run_id
    then (elim (read now run_id store) [
      | raised e ↦ (unreadable e, store)
      | ok found ↦ elim found [
        | none ↦ (skipped, store)
        | some state ↦ after_change io (interrupted now state) store
      ]
    ])
    else (skipped, store)

abbrev pub add_id : String → Result (List String) × Store → Result (List String) × Store
add_id run_id (ok ids, store) = (ok (run_id ∷ ids), store)
add_id run_id (raised e, store) = (raised e, store)

-- The rest of the loop, from the store that the round left.
abbrev pub continue_with :
    String → (Store → Result (List String) × Store) → Round × Store → Result (List String) × Store
continue_with run_id rest (skipped, store) = rest store
continue_with run_id rest (recovered, store) = add_id run_id (rest store)
continue_with run_id rest (aborted e, store) = (raised e, store)

-- RunStateStore.recover_interrupted
unfoldable pub recover_interrupted : Text → Io → List String → Store → Result (List String) × Store
recover_interrupted now io [] store = (ok [], store)
recover_interrupted now io (run_id ∷ rest) store =
    continue_with run_id (recover_interrupted now io rest) (recover_one now io run_id store)

abbrev pub add_state : RunState → Result (List RunState) → Result (List RunState)
add_state state (ok states) = ok (state ∷ states)
add_state state (raised e) = raised e

abbrev pub listed : Result (Option RunState) → Result (List RunState) → Result (List RunState)
listed (ok none) rest = rest
listed (ok (some state)) rest = add_state state rest
listed (raised value_error) rest = raised value_error
listed (raised overflow_error) rest = raised overflow_error
listed (raised _) rest = rest

-- RunStateStore.list_states
unfoldable pub list_states : Text → List String → Store → Result (List RunState)
list_states now [] store = ok []
list_states now (run_id ∷ rest) store =
    let later = list_states now rest store in
    if valid_run_id run_id then listed (read now run_id store) later else later

abbrev pub deleted : String → Store → Result Bool × Store
deleted run_id store =
    (ok true, record { files = remove run_id store.files; deferred = remove run_id store.deferred })

abbrev pub prune_found : String → Store → Result (Option RunState) → Result Bool × Store
prune_found run_id store (ok none) = deleted run_id store
prune_found run_id store (ok (some state)) =
    if is_live state.status then (ok false, store) else deleted run_id store
prune_found run_id store (raised overflow_error) = (raised overflow_error, store)
prune_found run_id store (raised _) = deleted run_id store

-- RunStateStore.prune
unfoldable pub prune : Text → String → Store → Result Bool × Store
prune now run_id store =
    if valid_run_id run_id
    then prune_found run_id store (read now run_id store)
    else (raised value_error, store)
