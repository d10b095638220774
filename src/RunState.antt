-- ===== src/RunState.antt =====
-- engine/execution/orchestration/run_state.py: the lifecycle of one run and its two operations.
--
-- `now`, an argument, is what `_now()` returns. Text is a list of code points; a run id is a string.
pub mod Stored
pub mod Store
pub mod Changes
pub mod Operations
pub mod Project
pub mod Lifecycle
pub mod Progress
mod Tests
use helve.Base.{
  ℕ, suc, ◌+◌, String, Bool, true, false, ◌&&◌, ◌||◌, not, Option, none, some, List, [], ◌∷◌, ◌++◌,
  leb, if◌then◌else◌, take, Text, codes, text_eq,
}
use helve.Base.Int.{ℤ, pos, negsuc}

pub data RunStatus : Type 0 where
  queued running waiting_approval completed incomplete failed cancelled : RunStatus

-- RunStateError and its two kinds; ValueError, for a bad argument or a file that is not UTF-8; and
-- OverflowError, for an infinite number.
pub data RunError : Type 0 where
  state_error transition_error scope_mismatch value_error overflow_error : RunError

pub data Result {ℓ} (A : Type ℓ) : Type ℓ where
  ok : A → Result A
  raised : RunError → Result A

-- _ALLOWED_TRANSITIONS
unfoldable pub is_allowed : RunStatus → RunStatus → Bool
is_allowed queued running = true
is_allowed queued failed = true
is_allowed queued cancelled = true
is_allowed running running = true
is_allowed running waiting_approval = true
is_allowed running completed = true
is_allowed running incomplete = true
is_allowed running failed = true
is_allowed running cancelled = true
is_allowed waiting_approval running = true
is_allowed waiting_approval failed = true
is_allowed waiting_approval cancelled = true
is_allowed completed completed = true
is_allowed incomplete incomplete = true
is_allowed incomplete running = true
is_allowed failed failed = true
is_allowed failed running = true
is_allowed cancelled cancelled = true
is_allowed cancelled running = true
is_allowed _ _ = false

-- _LIVE_RUN_STATUSES
abbrev pub is_live : RunStatus → Bool
is_live queued = true
is_live running = true
is_live waiting_approval = true
is_live _ = false

abbrev pub is_running : RunStatus → Bool
is_running running = true
is_running _ = false

abbrev pub is_waiting : RunStatus → Bool
is_waiting waiting_approval = true
is_waiting _ = false

-- The statuses that `validate_resume` accepts.
abbrev pub is_resumable : RunStatus → Bool
is_resumable incomplete = true
is_resumable failed = true
is_resumable cancelled = true
is_resumable _ = false

-- `text[:limit] or None`
abbrev pub or_none : Text → Option Text
or_none [] = none
or_none (c ∷ text) = some (c ∷ text)

unfoldable pub bounded_text : ℕ → Option Text → Option Text
bounded_text limit none = none
bounded_text limit (some text) = or_none (take limit text)

-- The keys of an error's details that are read. A status that is no integer counts as missing.
pub record ErrorDetails : Type 0 where
  pub kind : Option Text
  pub stage : Option Text
  pub error_type : Option Text
  pub provider : Option Text
  pub http_status : Option ℤ
  pub retryable : Option Bool

abbrev pub valid_http_status : Option ℤ → Option ℤ
valid_http_status none = none
valid_http_status (some (negsuc n)) = none
valid_http_status (some (pos n)) = if leb 100 n && leb n 599 then some (pos n) else none

abbrev pub is_none {ℓ} : {A : Type ℓ} → Option A → Bool
is_none none = true
is_none (some _) = false

abbrev pub details_or_none : ErrorDetails → Option ErrorDetails
details_or_none d =
    if is_none d.kind
      && (is_none d.stage
          && (is_none d.error_type
              && (is_none d.provider && (is_none d.http_status && is_none d.retryable))))
    then none
    else some d

unfoldable pub bounded_error_details : Option ErrorDetails → Option ErrorDetails
bounded_error_details none = none
bounded_error_details (some d) = details_or_none (record {
  kind = bounded_text 100 d.kind;
  stage = bounded_text 100 d.stage;
  error_type = bounded_text 100 d.error_type;
  provider = bounded_text 100 d.provider;
  http_status = valid_http_status d.http_status;
  retryable = d.retryable;
})

pub record RunState : Type 0 where
  pub run_id : String
  pub agent_id : Text
  pub session_id : Option Text
  pub message_id : Option Text
  pub identity_id : Option Text
  pub working_dir : Option Text
  pub forced_skill : Option Text
  pub status : RunStatus
  pub created_at : Text
  pub updated_at : Text
  pub event_seq : ℕ
  pub last_event_type : Option Text
  pub current_skill : Option Text
  pub current_tool : Option Text
  pub reason : Option Text
  pub error : Option Text
  pub error_details : Option ErrorDetails
  pub approval_id : Option Text
  pub approval_tool : Option Text
  pub approval_level : Option Text
  pub approval_reason : Option Text

-- The field set to the bounded text of an argument that is there, and kept otherwise.
abbrev pub replaced : Option Text → Option Text → Option Text
replaced none old = old
replaced (some text) old = bounded_text 200 (some text)

abbrev pub replaced_details : Option ErrorDetails → Option ErrorDetails → Option ErrorDetails
replaced_details none old = old
replaced_details (some d) old = bounded_error_details (some d)

-- RunState.transition: the keyword arguments and the target.
pub record Transition : Type 0 where
  pub target : RunStatus
  pub reason : Option Text
  pub error : Option Text
  pub error_details : Option ErrorDetails

abbrev pub to_status : RunStatus → Option Text → Transition
to_status target reason = record {
  target = target;
  reason = reason;
  error = none;
  error_details = none;
}

unfoldable pub transition : Text → Transition → RunState → Result RunState
transition now t state =
    if is_allowed state.status t.target
    then ok (record state {
      status = t.target;
      reason = replaced t.reason state.reason;
      error = replaced t.error state.error;
      error_details = replaced_details t.error_details state.error_details;
      updated_at = now;
    })
    else raised transition_error

-- RunState.record_event and its keyword arguments.
pub record Recorded : Type 0 where
  pub event_type : Text
  pub current_skill : Option Text
  pub current_tool : Option Text
  pub clear_skill : Bool
  pub clear_tool : Bool

abbrev pub just : Text → Recorded
just event_type = record {
  event_type = event_type;
  current_skill = none;
  current_tool = none;
  clear_skill = false;
  clear_tool = false;
}

abbrev pub set_or_clear : Option Text → Bool → Option Text → Option Text
set_or_clear none clear old = if clear then none else old
set_or_clear (some text) clear old = bounded_text 200 (some text)

unfoldable pub record_event : Text → Recorded → RunState → RunState
record_event now e state = record state {
  event_seq = state.event_seq + 1;
  last_event_type = bounded_text 200 (some e.event_type);
  current_skill = set_or_clear e.current_skill e.clear_skill state.current_skill;
  current_tool = set_or_clear e.current_tool e.clear_tool state.current_tool;
  updated_at = now;
}

-- RunScope
pub record RunScope : Type 0 where
  pub agent_id : Text
  pub session_id : Option Text
  pub message_id : Option Text
  pub identity_id : Option Text
  pub working_dir : Option Text
  pub forced_skill : Option Text

abbrev pub text_or : Option Text → Text → Text
text_or none default = default
text_or (some text) default = text

-- RunScope.create
unfoldable pub create_scope :
    Text → Option Text → Option Text → Option Text → Option Text → Option Text → RunScope
create_scope agent_id session_id message_id identity_id working_dir forced_skill = record {
  agent_id = text_or (bounded_text 200 (some agent_id)) (codes "unknown");
  session_id = bounded_text 200 session_id;
  message_id = bounded_text 200 message_id;
  identity_id = bounded_text 200 identity_id;
  working_dir = bounded_text 1024 working_dir;
  forced_skill = bounded_text 200 forced_skill;
}

-- RunScope.from_state
abbrev pub scope_of : RunState → RunScope
scope_of state = record {
  agent_id = state.agent_id;
  session_id = state.session_id;
  message_id = state.message_id;
  identity_id = state.identity_id;
  working_dir = state.working_dir;
  forced_skill = state.forced_skill;
}

abbrev pub option_text_eq : Option Text → Option Text → Bool
option_text_eq none none = true
option_text_eq (some s) (some t) = text_eq s t
option_text_eq _ _ = false

pub data ScopeField : Type 0 where
  agent_id session_id message_id identity_id working_dir forced_skill : ScopeField

abbrev pub unless_same : Bool → ScopeField → List ScopeField → List ScopeField
unless_same same name rest = if same then rest else name ∷ rest

-- RunScope.mismatched_fields
unfoldable pub mismatched_fields : RunScope → RunState → List ScopeField
mismatched_fields scope state =
    let persisted = scope_of state in
    unless_same (text_eq persisted.agent_id scope.agent_id) agent_id (
      unless_same (option_text_eq persisted.session_id scope.session_id) session_id (
        unless_same (option_text_eq persisted.message_id scope.message_id) message_id (
          unless_same (option_text_eq persisted.identity_id scope.identity_id) identity_id (
            unless_same (option_text_eq persisted.working_dir scope.working_dir) working_dir (
              unless_same (option_text_eq persisted.forced_skill scope.forced_skill) forced_skill
                [])))))
