-- ===== src/RunState/Progress/Seen.antt =====
-- engine/execution/orchestration/run_state.py: the count of events that a reader sees, over the file and the buffer.
use helve.Base.{
  ℕ, ◌+◌, ◌≡◌, refl, ap, String, Option, none, some, if◌then◌else◌, Text, str_eq, eq_refl, arith,
  eq_iff, Option-cases, Bool-cases, inl, inr, [],
}
use helve.Base.Dict.{Dict, get}
use helve.RunState.{RunStatus, RunState, Result, ok, raised, bounded_text}
use helve.RunState.Stored.{to_dict, from_dict, Payload, status_of, parsed_event_seq}
use helve.RunState.Stored.Bounded.{Result-cases, from_dict-parsed}
use helve.RunState.Store.{
  Store, File, broken, not_utf8, payload, valid_run_id, read, load, apply_deferred, with_deferred,
  kept_type,
}

-- What a status poll shows of a run's progress.
pub record Progress : Type 0 where
  pub event_seq : ℕ
  pub last_event_type : Option Text
  pub status : RunStatus

abbrev pub progress_of : RunState → Progress
progress_of s = record {
  event_seq = s.event_seq;
  last_event_type = s.last_event_type;
  status = s.status;
}

abbrev pub shown : Result (Option RunState) → Option Progress
shown (raised e) = none
shown (ok none) = none
shown (ok (some s)) = some (progress_of s)

unfoldable pub progress_seen : Text → String → Store → Option Progress
progress_seen now run_id store = shown (read now run_id store)

abbrev pub with_buffer : Option (ℕ × Option Text) → Progress → Progress
with_buffer none p = p
with_buffer (some (count, last)) p = record p {
  event_seq = p.event_seq + count;
  last_event_type = kept_type last p.last_event_type;
}

pub progress_of-with_deferred :
    (o : Option (ℕ × Option Text)) (s : RunState)
    → progress_of (with_deferred o s) ≡ with_buffer o (progress_of s)
progress_of-with_deferred none s = refl
progress_of-with_deferred (some (n, t)) s = refl

abbrev pub stored_progress : Text → String → Option File → Option Progress
stored_progress now run_id f = shown (load now run_id [] f)

unfoldable pub buffered : Option (ℕ × Option Text) → Option Progress → Option Progress
buffered b none = none
buffered b (some p) = some (with_buffer b p)

-- The buffer is folded into what the file says.
pub shown-load :
    (now : Text) (run_id : String) (d : Dict (ℕ × Option Text)) (f : Option File)
    → shown (load now run_id d f) ≡ buffered (get run_id d) (stored_progress now run_id f)
unfolding apply_deferred buffered get
shown-load now run_id d none = refl
shown-load now run_id d (some broken) = refl
shown-load now run_id d (some not_utf8) = refl
shown-load now run_id d (some (payload p)) = elim (Result-cases (from_dict now p)) [
  | inl (x, h) ↦ ground (arith, h)
  | inr (s, h) ↦ elim (Bool-cases (str_eq s.run_id run_id)) [
    | inl e ↦
        let same : s.run_id ≡ run_id = ground (arith, eq_iff s.run_id run_id, e) in
        ground (arith, h, e, ap (λ r. get r d) same, progress_of-with_deferred (get s.run_id d) s)
    | inr e ↦ ground (arith, h, e)
  ]
]

-- The progress without the buffer.
abbrev pub base_progress : Text → String → Store → Option Progress
base_progress now run_id store =
    if valid_run_id run_id then stored_progress now run_id (get run_id store.files) else none

pub progress_seen-buffered :
    (now : Text) (run_id : String) (store : Store)
    → progress_seen now run_id store
      ≡ buffered (get run_id store.deferred) (base_progress now run_id store)
unfolding progress_seen read buffered
progress_seen-buffered now run_id store = elim (Bool-cases (valid_run_id run_id)) [
  | inl v ↦ ground (arith, v, shown-load now run_id store.deferred (get run_id store.files))
  | inr v ↦ ground (arith, v)
]

pub stored_progress-to_dict :
    (now : Text) (s : RunState)
    → bounded_text 200 s.last_event_type ≡ s.last_event_type
    → stored_progress now s.run_id (some (payload (to_dict s))) ≡ some (progress_of s)
unfolding apply_deferred get to_dict
stored_progress-to_dict now s b = ground (arith, from_dict-parsed now s, eq_refl s.run_id, b)

pub shown-payload :
    (now later : Text) (run_id : String) (p : Payload)
    → stored_progress now run_id (some (payload p))
      ≡ stored_progress later run_id (some (payload p))
unfolding apply_deferred from_dict get
shown-payload now later run_id p = elim (Option-cases p.run_id) [
  | inl h ↦ ground (arith, h)
  | inr (r, h) ↦ elim (Option-cases p.agent_id) [
    | inl g ↦ ground (arith, h, g)
    | inr (a, g) ↦ elim (Option-cases (status_of p.status)) [
      | inl f ↦ ground (arith, h, g, f)
      | inr (x, f) ↦ elim (Result-cases (parsed_event_seq p.event_seq)) [
        | inl (e, k) ↦ ground (arith, h, g, f, k)
        | inr (n, k) ↦ ground (arith, h, g, f, k)
      ]
    ]
  ]
]

pub base_progress-now :
    (now later : Text) (run_id : String) (store : Store)
    → base_progress now run_id store ≡ base_progress later run_id store
base_progress-now now later run_id store = elim (Option-cases (get run_id store.files)) [
  | inl h ↦ ground (arith, h)
  | inr (broken, h) ↦ ground (arith, h)
  | inr (not_utf8, h) ↦ ground (arith, h)
  | inr (payload p, h) ↦ ground (arith, h, shown-payload now later run_id p)
]

pub progress_seen-now :
    (now later : Text) (run_id : String) (store : Store)
    → progress_seen now run_id store ≡ progress_seen later run_id store
progress_seen-now now later run_id store = ground (
  arith,
  progress_seen-buffered now run_id store,
  progress_seen-buffered later run_id store,
  base_progress-now now later run_id store,
)
