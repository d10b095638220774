-- ===== src/RunState/Tests.antt =====
-- Runs of the store at concrete inputs.
use helve.Base.{
  ◌≡◌, ◌≢◌, refl, String, true, false, none, some, Text, codes, List, [], ◌∷◌, All, ◌+◌,
}
use helve.Base.Dict.{get}
use helve.Base.Int.{pos}
use helve.RunState.{
  RunStatus, running, completed, failed, RunState, ok, just, to_status, is_resumable, is_allowed,
  transition, record_event, bounded_text, bounded_error_details,
}
use helve.RunState.Stored.{Payload, integer, to_dict, from_dict, parsed, parse_status}
use helve.RunState.Stored.Bounded.{from_dict-again}
use helve.RunState.Store.{
  Store, File, payload, not_utf8, Io, Write, done, valid_run_id, read, save, apply_deferred,
  on_state,
}
use helve.RunState.Store.Seen.{status_seen}
use helve.RunState.Changes.{resumed, check_resume, interrupted}
use helve.RunState.Operations.{resume, observe, recover_interrupted, recover_one}
use helve.RunState.Progress.Seen.{Progress, progress_seen}
use helve.RunState.Progress.{
  Delivery, buffer, record_now, deliver_all, deliver_all-counted, count_all, counted, observe-loses,
}
use helve.RunState.Lifecycle.{Step}
use helve.RunState.Lifecycle.Recovery.{live_seen, recover_interrupted-stops}
use helve.RunState.Lifecycle.Unreadable.{recover_interrupted-not_utf8}
use helve.RunState.Lifecycle.Resume.{resume-ok, resume-once, Owned}
use helve.RunState.Lifecycle.History.{
  resumes, moves, recovers, perform, perform-Step, Call, perform_all, perform_all-completed,
}

abbrev nine : Text
nine = codes "2026-01-01T09:00:00"

abbrev ten : Text
ten = codes "2026-01-01T10:00:00"

abbrev writes : Io
writes _ = done

abbrev fails : Io
fails _ = Write.failed

abbrev file_of : String → Payload
file_of status = record {
  run_id = some "r1";
  agent_id = some (codes "smith");
  session_id = some (codes "s");
  message_id = none;
  identity_id = none;
  working_dir = none;
  forced_skill = none;
  status = some (codes status);
  created_at = some nine;
  updated_at = some nine;
  event_seq = integer (pos 4);
  last_event_type = some (codes "text_delta");
  current_skill = none;
  current_tool = none;
  reason = none;
  error = none;
  error_details = none;
  approval_id = none;
  approval_tool = none;
  approval_level = none;
  approval_reason = none;
}

abbrev holding : File → Store
holding file = record { files = ("r1", file) ∷ []; deferred = [] }

abbrev running_store : Store
running_store = holding (payload (file_of "running"))

abbrev done_store : Store
done_store = holding (payload (file_of "completed"))

abbrev failed_store : Store
failed_store = holding (payload (file_of "failed"))

seen_running : status_seen nine "r1" running_store ≡ some running
unfolding status_seen read valid_run_id get from_dict parse_status bounded_text
    bounded_error_details apply_deferred
seen_running = refl

seen_completed : status_seen nine "r1" done_store ≡ some completed
unfolding status_seen read valid_run_id get from_dict parse_status bounded_text
    bounded_error_details apply_deferred
seen_completed = refl

perform-Step_example :
    (b : RunStatus) × (status_seen nine "r1"
        (perform ten writes (moves "r1" none (to_status completed none)) running_store)
      ≡ some b)
    × Step running b
perform-Step_example =
    perform-Step nine ten writes "r1" (moves "r1" none (to_status completed none)) running_store
      running seen_running refl

abbrev two_calls : List Call
two_calls =
    record { time = ten; io = writes; operation = resumes "r1" none }
    ∷ record { time = ten; io = fails; operation = recovers ("r1" ∷ []) }
    ∷ []

perform_all-completed_example :
    status_seen nine "r1" (perform_all two_calls done_store) ≡ some completed
perform_all-completed_example =
    perform_all-completed nine "r1" two_calls done_store seen_completed (refl, (refl, tt))

abbrev failed_state : RunState
failed_state = parsed nine (file_of "failed") "r1" (codes "smith") failed 4

from_dict-failed : from_dict nine (file_of "failed") ≡ ok failed_state
unfolding from_dict parse_status bounded_text bounded_error_details
from_dict-failed = refl

from_dict-again_example : from_dict ten (to_dict failed_state) ≡ ok failed_state
from_dict-again_example =
    from_dict-again nine ten (file_of "failed") failed_state refl from_dict-failed

abbrev four_events : Progress
four_events = record {
  event_seq = 4;
  last_event_type = some (codes "text_delta");
  status = running;
}

shows_four : progress_seen nine "r1" running_store ≡ some four_events
unfolding progress_seen read valid_run_id get from_dict parse_status bounded_text
    bounded_error_details apply_deferred
shows_four = refl

abbrev three_events : List Delivery
three_events =
    buffer (codes "thinking")
    ∷ record_now ten (just (codes "skill_end"))
    ∷ buffer (codes "token_usage")
    ∷ []

named_thinking : bounded_text 200 (some (codes "thinking")) ≡ some (codes "thinking")
unfolding bounded_text
named_thinking = refl

named_skill_end : bounded_text 200 (some (codes "skill_end")) ≡ some (codes "skill_end")
unfolding bounded_text
named_skill_end = refl

named_token_usage : bounded_text 200 (some (codes "token_usage")) ≡ some (codes "token_usage")
unfolding bounded_text
named_token_usage = refl

deliver_all-counted_example :
    progress_seen nine "r1" (deliver_all writes "r1" three_events running_store)
    ≡ some (count_all three_events four_events)
deliver_all-counted_example =
    deliver_all-counted nine writes "r1" three_events running_store four_events refl
      (
        (codes "thinking", named_thinking),
        ((codes "skill_end", named_skill_end), ((codes "token_usage", named_token_usage), tt)),
      )
      shows_four

counts_seven :
    count_all three_events four_events
    ≡ record { event_seq = 7; last_event_type = some (codes "token_usage"); status = running }
unfolding count_all counted bounded_text
counts_seven = refl

abbrev buffered_store : Store
buffered_store = record running_store { deferred = ("r1", (3, some (codes "thinking"))) ∷ [] }

abbrev seven_events : Progress
seven_events = record { event_seq = 7; last_event_type = some (codes "thinking"); status = running }

shows_seven : progress_seen nine "r1" buffered_store ≡ some seven_events
unfolding progress_seen read valid_run_id get from_dict parse_status bounded_text
    bounded_error_details apply_deferred
shows_seven = refl

three_buffered : get "r1" buffered_store.deferred ≡ some (3, some (codes "thinking"))
unfolding get
three_buffered = refl

observe-loses_example :
    (q : Progress) × (progress_seen nine "r1"
        ((observe ten fails "r1" (just (codes "skill_end")) buffered_store).1)
      ≡ some q)
    × (q.event_seq + 3 ≡ 7)
observe-loses_example =
    observe-loses nine ten fails "r1" (just (codes "skill_end")) buffered_store seven_events 3
      (some (codes "thinking")) refl three_buffered shows_seven

recovers_one : (recover_interrupted ten writes ("r1" ∷ []) running_store).0 ≡ ok ("r1" ∷ [])
unfolding recover_interrupted recover_one read valid_run_id get from_dict parse_status bounded_text
    bounded_error_details apply_deferred interrupted transition is_allowed record_event save
recovers_one = refl

recover_interrupted-stops_example :
    All
      (λ id.
        live_seen
          (status_seen nine id ((recover_interrupted ten writes ("r1" ∷ []) running_store).1))
        ≡ false)
      ("r1" ∷ [])
recover_interrupted-stops_example =
    recover_interrupted-stops nine ten writes ("r1" ∷ []) ("r1" ∷ []) running_store recovers_one

valid_r1 : valid_run_id "r1" ≡ true
unfolding valid_run_id
valid_r1 = refl

-- A run that executes before and one behind the run whose file is torn.
abbrev three_runs : Store
three_runs = record {
  files =
      ("r0", payload (record (file_of "running") { run_id = some "r0" }))
      ∷ ("r1", not_utf8)
      ∷ ("r2", payload (file_of "running"))
      ∷ [];
  deferred = [];
}

broken_r1 : get "r1" three_runs.files ≡ some not_utf8
unfolding get
broken_r1 = refl

recover_interrupted-not_utf8_example :
    ((found : List String)
      → (recover_interrupted ten writes ("r0" ∷ "r1" ∷ "r2" ∷ []) three_runs).0 ≢ ok found)
    × ((recover_interrupted ten writes ("r0" ∷ "r1" ∷ "r2" ∷ []) three_runs).1
        ≡ (recover_interrupted ten writes ("r0" ∷ []) three_runs).1)
recover_interrupted-not_utf8_example =
    recover_interrupted-not_utf8 ten writes "r1" ("r0" ∷ []) ("r2" ∷ []) three_runs valid_r1
      broken_r1

abbrev resumed_state : RunState
resumed_state = record failed_state {
  status = running;
  updated_at = ten;
  reason = some (codes "resumed");
  event_seq = 5;
  last_event_type = some (codes "run_resumed");
}

resumes_failed : (resume ten writes "r1" none failed_store).0 ≡ ok resumed_state
unfolding resume on_state read valid_run_id get from_dict parse_status bounded_text
    bounded_error_details apply_deferred resumed check_resume transition is_allowed record_event
    save
resumes_failed = refl

resume-ok_example :
    (s : RunState) × (read ten "r1" failed_store ≡ ok (some s))
    × (is_resumable s.status ≡ true)
    × Owned none s
    × (status_seen nine "r1" ((resume ten writes "r1" none failed_store).1) ≡ some running)
resume-ok_example = resume-ok ten nine writes "r1" none failed_store resumed_state resumes_failed

resume-once_example :
    (resume ten writes "r1" none ((resume ten writes "r1" none failed_store).1)).0
    ≢ ok resumed_state
resume-once_example =
    resume-once ten ten writes writes "r1" none none failed_store resumed_state resumed_state
      resumes_failed
