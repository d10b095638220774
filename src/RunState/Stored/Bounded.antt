-- ===== src/RunState/Stored/Bounded.antt =====
-- The states that are written fit their bounds, and come back as they were.
use helve.Base.{
  ℕ, zero, suc, ◌≡◌, refl, ◌∙◌, Option, none, some, List, [], ◌∷◌, arith, take, Text, ap, subst,
  Option-cases, inl, inr, ◌⊎◌, String,
}
use helve.Base.Int.{ℤ, pos, negsuc}
use helve.RunState.{
  RunStatus, queued, running, waiting_approval, completed, incomplete, failed, cancelled, Result,
  RunError, ok, raised, RunState, ErrorDetails, bounded_text, or_none, bounded_error_details,
  valid_http_status,
}
use helve.RunState.Stored.{
  Payload, to_dict, from_dict, parsed, or_now, parse_status, status_value, status_of,
  parsed_event_seq,
}

take-take : {A : Type 0} (n : ℕ) (xs : List A) → take n (take n xs) ≡ take n xs
take-take zero xs = refl
take-take (suc n) [] = refl
take-take (suc n) (x ∷ xs) = ap (◌∷◌ x) (take-take n xs)

pub bounded_text-bounded_text :
    (n : ℕ) (o : Option Text) → bounded_text n (bounded_text n o) ≡ bounded_text n o
unfolding bounded_text
bounded_text-bounded_text n none = refl
bounded_text-bounded_text zero (some t) = refl
bounded_text-bounded_text (suc n) (some []) = refl
bounded_text-bounded_text (suc n) (some (c ∷ t)) = rw (take-take n t) refl

valid_http_status-again :
    (o : Option ℤ) → valid_http_status (valid_http_status o) ≡ valid_http_status o
valid_http_status-again none = refl
valid_http_status-again (some (negsuc n)) = refl
valid_http_status-again (some (pos n)) = ground arith

pub bounded_error_details-again :
    (o : Option ErrorDetails)
    → bounded_error_details (bounded_error_details o) ≡ bounded_error_details o
unfolding bounded_error_details
bounded_error_details-again none = refl
bounded_error_details-again (some d) = ground (
  arith,
  bounded_text-bounded_text 100 d.kind,
  bounded_text-bounded_text 100 d.stage,
  bounded_text-bounded_text 100 d.error_type,
  bounded_text-bounded_text 100 d.provider,
  valid_http_status-again d.http_status,
)

-- Every optional text is within its bound and not empty, and the two times are not empty.
pub record Bounded (s : RunState) : Type 0 where
  pub session_id : bounded_text 200 s.session_id ≡ s.session_id
  pub message_id : bounded_text 200 s.message_id ≡ s.message_id
  pub identity_id : bounded_text 200 s.identity_id ≡ s.identity_id
  pub working_dir : bounded_text 1024 s.working_dir ≡ s.working_dir
  pub forced_skill : bounded_text 200 s.forced_skill ≡ s.forced_skill
  pub created_at : or_none s.created_at ≡ some s.created_at
  pub updated_at : or_none s.updated_at ≡ some s.updated_at
  pub last_event_type : bounded_text 200 s.last_event_type ≡ s.last_event_type
  pub current_skill : bounded_text 200 s.current_skill ≡ s.current_skill
  pub current_tool : bounded_text 200 s.current_tool ≡ s.current_tool
  pub reason : bounded_text 200 s.reason ≡ s.reason
  pub error : bounded_text 200 s.error ≡ s.error
  pub error_details : bounded_error_details s.error_details ≡ s.error_details
  pub approval_id : bounded_text 200 s.approval_id ≡ s.approval_id
  pub approval_tool : bounded_text 200 s.approval_tool ≡ s.approval_tool
  pub approval_level : bounded_text 200 s.approval_level ≡ s.approval_level
  pub approval_reason : bounded_text 200 s.approval_reason ≡ s.approval_reason

parse_status-status_value : (s : RunStatus) → parse_status (status_value s) ≡ some s
unfolding parse_status
parse_status-status_value queued = refl
parse_status-status_value running = refl
parse_status-status_value waiting_approval = refl
parse_status-status_value completed = refl
parse_status-status_value incomplete = refl
parse_status-status_value failed = refl
parse_status-status_value cancelled = refl

or_now-or_none : (now t : Text) → or_none t ≡ some t → or_now now (some t) ≡ t
or_now-or_none now [] e = cc
or_now-or_none now (c ∷ t) e = refl

parsed-to_dict :
    (now : Text) (s : RunState)
    → Bounded s
    → parsed now (to_dict s) s.run_id s.agent_id s.status s.event_seq ≡ s
unfolding to_dict
parsed-to_dict now s b = λ i. record {
  run_id = s.run_id;
  agent_id = s.agent_id;
  session_id = b.session_id i;
  message_id = b.message_id i;
  identity_id = b.identity_id i;
  working_dir = b.working_dir i;
  forced_skill = b.forced_skill i;
  status = s.status;
  created_at = or_now-or_none now s.created_at b.created_at i;
  updated_at = or_now-or_none now s.updated_at b.updated_at i;
  event_seq = s.event_seq;
  last_event_type = b.last_event_type i;
  current_skill = b.current_skill i;
  current_tool = b.current_tool i;
  reason = b.reason i;
  error = b.error i;
  error_details = b.error_details i;
  approval_id = b.approval_id i;
  approval_tool = b.approval_tool i;
  approval_level = b.approval_level i;
  approval_reason = b.approval_reason i;
}

pub from_dict-parsed :
    (now : Text) (s : RunState)
    → from_dict now (to_dict s)
      ≡ ok (parsed now (to_dict s) s.run_id s.agent_id s.status s.event_seq)
unfolding from_dict to_dict
from_dict-parsed now s = rw (from_dict, parse_status-status_value s.status) refl

-- A state within its bounds is read back exactly as it was written, at any later time.
pub from_dict-to_dict : (now : Text) (s : RunState) → Bounded s → from_dict now (to_dict s) ≡ ok s
from_dict-to_dict now s b = from_dict-parsed now s ∙ ap ok (parsed-to_dict now s b)

or_now-Bounded :
    (now : Text) (o : Option Text)
    → or_none now ≡ some now
    → or_none (or_now now o) ≡ some (or_now now o)
or_now-Bounded now none time = time
or_now-Bounded now (some []) time = time
or_now-Bounded now (some (c ∷ t)) time = refl

parsed-Bounded :
    (now : Text) (d : Payload) (r : String) (a : Text) (status : RunStatus) (n : ℕ)
    → or_none now ≡ some now
    → Bounded (parsed now d r a status n)
parsed-Bounded now d r a status n time = record {
  session_id = bounded_text-bounded_text 200 d.session_id;
  message_id = bounded_text-bounded_text 200 d.message_id;
  identity_id = bounded_text-bounded_text 200 d.identity_id;
  working_dir = bounded_text-bounded_text 1024 d.working_dir;
  forced_skill = bounded_text-bounded_text 200 d.forced_skill;
  created_at = or_now-Bounded now d.created_at time;
  updated_at = or_now-Bounded now d.updated_at time;
  last_event_type = bounded_text-bounded_text 200 d.last_event_type;
  current_skill = bounded_text-bounded_text 200 d.current_skill;
  current_tool = bounded_text-bounded_text 200 d.current_tool;
  reason = bounded_text-bounded_text 200 d.reason;
  error = bounded_text-bounded_text 200 d.error;
  error_details = bounded_error_details-again d.error_details;
  approval_id = bounded_text-bounded_text 200 d.approval_id;
  approval_tool = bounded_text-bounded_text 200 d.approval_tool;
  approval_level = bounded_text-bounded_text 200 d.approval_level;
  approval_reason = bounded_text-bounded_text 200 d.approval_reason;
}

pub Result-cases :
    {A : Type 0} (r : Result A) → ((e : RunError) × (r ≡ raised e)) ⊎ ((a : A) × (r ≡ ok a))
Result-cases (raised e) = inl (e, refl)
Result-cases (ok a) = inr (a, refl)

ok-injective : {s t : RunState} → ok s ≡ ok t → s ≡ t
ok-injective e = cc

-- A state that is read fits its bounds.
pub from_dict-Bounded :
    (now : Text) (d : Payload) (s : RunState)
    → or_none now ≡ some now
    → from_dict now d ≡ ok s
    → Bounded s
unfolding from_dict
from_dict-Bounded now d s time e = elim (Option-cases d.run_id) [
  | inl h ↦ absurd (ground (arith, h, e))
  | inr (r, h) ↦ elim (Option-cases d.agent_id) [
    | inl g ↦ absurd (ground (arith, h, g, e))
    | inr (a, g) ↦ elim (Option-cases (status_of d.status)) [
      | inl f ↦ absurd (ground (arith, h, g, f, e))
      | inr (status, f) ↦ elim (Result-cases (parsed_event_seq d.event_seq)) [
        | inl (x, k) ↦ absurd (ground (arith, h, g, f, k, e))
        | inr (n, k) ↦
            let same : parsed now d r a status n ≡ s =
              ok-injective (ground (arith, h, g, f, k, e)) in
            subst (Bounded) same (parsed-Bounded now d r a status n time)
      ]
    ]
  ]
]

-- A state that has been read is written and read back, at any later time, as it was.
pub from_dict-again :
    (now later : Text) (d : Payload) (s : RunState)
    → or_none now ≡ some now
    → from_dict now d ≡ ok s
    → from_dict later (to_dict s) ≡ ok s
from_dict-again now later d s time e = from_dict-to_dict later s (from_dict-Bounded now d s time e)
