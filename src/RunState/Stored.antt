-- ===== src/RunState/Stored.antt =====
-- engine/execution/orchestration/run_state.py: the JSON object of a run, written and read.
--
-- A payload is what `from_dict` reads of the object: a value that is no string stands as its `str`,
-- null as missing, and `event_seq` as what `int` makes of it.
pub mod Bounded
use helve.Base.{
  ℕ, String, Bool, true, false, Option, none, some, List, [], ◌∷◌, if◌then◌else◌, Text, codes,
  text_eq,
}
use helve.Base.Int.{ℤ, pos, pos_part}
use helve.RunState.{
  RunStatus, queued, running, waiting_approval, completed, incomplete, failed, cancelled, Result,
  ok, raised, state_error, overflow_error, RunState, ErrorDetails, bounded_text,
  bounded_error_details,
}

-- RunStatus.value
abbrev pub status_value : RunStatus → Text
status_value queued = codes "queued"
status_value running = codes "running"
status_value waiting_approval = codes "waiting_approval"
status_value completed = codes "completed"
status_value incomplete = codes "incomplete"
status_value failed = codes "failed"
status_value cancelled = codes "cancelled"

abbrev pub statuses : List RunStatus
statuses = queued ∷ running ∷ waiting_approval ∷ completed ∷ incomplete ∷ failed ∷ cancelled ∷ []

abbrev pub find_status : Text → List RunStatus → Option RunStatus
find_status text [] = none
find_status text (s ∷ rest) =
    let later = find_status text rest in if text_eq text (status_value s) then some s else later

-- `RunStatus(text)`
unfoldable pub parse_status : Text → Option RunStatus
parse_status text = find_status text statuses

pub data Number : Type 0 where
  missing no_number infinite : Number
  integer : ℤ → Number

pub record Payload : Type 0 where
  pub run_id : Option String
  pub agent_id : Option Text
  pub session_id : Option Text
  pub message_id : Option Text
  pub identity_id : Option Text
  pub working_dir : Option Text
  pub forced_skill : Option Text
  pub status : Option Text
  pub created_at : Option Text
  pub updated_at : Option Text
  pub event_seq : Number
  pub last_event_type : Option Text
  pub current_skill : Option Text
  pub current_tool : Option Text
  pub reason : Option Text
  pub error : Option Text
  pub error_details : Option ErrorDetails
  pub approval_id : Option Text
  pub approval_tool : Option Text
  pub approval_level : Option Text
  pub approval_reason : Option Text

-- RunState.to_dict
unfoldable pub to_dict : RunState → Payload
to_dict s = record {
  run_id = some s.run_id;
  agent_id = some s.agent_id;
  session_id = s.session_id;
  message_id = s.message_id;
  identity_id = s.identity_id;
  working_dir = s.working_dir;
  forced_skill = s.forced_skill;
  status = some (status_value s.status);
  created_at = some s.created_at;
  updated_at = some s.updated_at;
  event_seq = integer (pos s.event_seq);
  last_event_type = s.last_event_type;
  current_skill = s.current_skill;
  current_tool = s.current_tool;
  reason = s.reason;
  error = s.error;
  error_details = s.error_details;
  approval_id = s.approval_id;
  approval_tool = s.approval_tool;
  approval_level = s.approval_level;
  approval_reason = s.approval_reason;
}

-- `data.get(key) or _now()`
abbrev pub or_now : Text → Option Text → Text
or_now now none = now
or_now now (some []) = now
or_now now (some (c ∷ text)) = c ∷ text

abbrev pub parsed_event_seq : Number → Result ℕ
parsed_event_seq missing = ok 0
parsed_event_seq no_number = raised state_error
parsed_event_seq infinite = raised overflow_error
parsed_event_seq (integer n) = ok (pos_part n)

abbrev pub parsed : Text → Payload → String → Text → RunStatus → ℕ → RunState
parsed now d run_id agent_id status event_seq = record {
  run_id = run_id;
  agent_id = agent_id;
  session_id = bounded_text 200 d.session_id;
  message_id = bounded_text 200 d.message_id;
  identity_id = bounded_text 200 d.identity_id;
  working_dir = bounded_text 1024 d.working_dir;
  forced_skill = bounded_text 200 d.forced_skill;
  status = status;
  created_at = or_now now d.created_at;
  updated_at = or_now now d.updated_at;
  event_seq = event_seq;
  last_event_type = bounded_text 200 d.last_event_type;
  current_skill = bounded_text 200 d.current_skill;
  current_tool = bounded_text 200 d.current_tool;
  reason = bounded_text 200 d.reason;
  error = bounded_text 200 d.error;
  error_details = bounded_error_details d.error_details;
  approval_id = bounded_text 200 d.approval_id;
  approval_tool = bounded_text 200 d.approval_tool;
  approval_level = bounded_text 200 d.approval_level;
  approval_reason = bounded_text 200 d.approval_reason;
}

abbrev pub status_of : Option Text → Option RunStatus
status_of none = none
status_of (some text) = parse_status text

-- RunState.from_dict: a missing key, an unknown status or a bad number makes it raise.
unfoldable pub from_dict : Text → Payload → Result RunState
from_dict now d = elim d.run_id [
  | none ↦ raised state_error
  | some run_id ↦ elim d.agent_id [
    | none ↦ raised state_error
    | some agent_id ↦ elim (status_of d.status) [
      | none ↦ raised state_error
      | some status ↦ elim (parsed_event_seq d.event_seq) [
        | raised e ↦ raised e
        | ok event_seq ↦ ok (parsed now d run_id agent_id status event_seq)
      ]
    ]
  ]
]
