-- ===== src/RunState/Store.antt =====
-- engine/execution/orchestration/run_state.py: RunStateStore, its files and its buffer of events.
--
-- A store holds the files `<run id>.json` and `_deferred`. `_lock` makes one operation one step.
-- `io`, an argument, is what becomes of the write of a run's file. Texts are taken to have an encoding in
-- UTF-8: a lone surrogate, on which the source raises, is not modelled.
pub mod Seen
use helve.Base.{
  ℕ, ◌+◌, ◌==◌, String, Bool, true, false, ◌&&◌, ◌||◌, Option, none, some, List, [], ◌∷◌, leb,
  if◌then◌else◌, Text, codes, length, str_eq,
}
use helve.Base.Dict.{Dict, get, put, remove}
use helve.RunState.{RunError, RunState, Result, ok, raised, state_error, value_error, bounded_text}
use helve.RunState.Stored.{Payload, to_dict, from_dict}

-- A file that cannot be read or is no JSON object, one that is not UTF-8, and a readable one.
pub data File : Type 0 where
  broken not_utf8 : File
  payload : Payload → File

pub record Store : Type 0 where
  pub files : Dict File
  pub deferred : Dict (ℕ × Option Text)

-- What a write does: it succeeds, fails before `os.replace`, or fails after it.
pub data Write : Type 0 where
  done failed failed_late : Write

abbrev pub Io : Type 0
Io = String → Write

abbrev pub is_id_char : ℕ → Bool
is_id_char c =
    (leb 48 c && leb c 57)
    || ((leb 65 c && leb c 90) || ((leb 97 c && leb c 122) || (c == 95 || c == 45)))

abbrev pub all_id_chars : Text → Bool
all_id_chars [] = true
all_id_chars (c ∷ text) = is_id_char c && all_id_chars text

-- _RUN_ID_RE.fullmatch
unfoldable pub valid_run_id : String → Bool
valid_run_id run_id =
    leb 1 (length (codes run_id))
    && (leb (length (codes run_id)) 128 && all_id_chars (codes run_id))

abbrev pub kept_type : Option Text → Option Text → Option Text
kept_type none old = old
kept_type (some t) old = some t

abbrev pub with_deferred : Option (ℕ × Option Text) → RunState → RunState
with_deferred none state = state
with_deferred (some (count, last_event_type)) state = record state {
  event_seq = state.event_seq + count;
  last_event_type = kept_type last_event_type state.last_event_type;
}

-- RunStateStore._apply_deferred
unfoldable pub apply_deferred : Dict (ℕ × Option Text) → RunState → RunState
apply_deferred deferred state = with_deferred (get state.run_id deferred) state

abbrev pub same_id : String → Dict (ℕ × Option Text) → RunState → Result (Option RunState)
same_id run_id deferred state =
    if str_eq state.run_id run_id
    then ok (some (apply_deferred deferred state))
    else raised state_error

abbrev pub load : Text → String → Dict (ℕ × Option Text) → Option File → Result (Option RunState)
load now run_id deferred none = ok none
load now run_id deferred (some broken) = raised state_error
load now run_id deferred (some not_utf8) = raised value_error
load now run_id deferred (some (payload d)) = elim (from_dict now d) [
  | raised e ↦ raised e
  | ok state ↦ same_id run_id deferred state
]

-- RunStateStore.get
unfoldable pub read : Text → String → Store → Result (Option RunState)
read now run_id store =
    if valid_run_id run_id
    then load now run_id store.deferred (get run_id store.files)
    else raised value_error

abbrev pub written : Write → RunState → Store → Result RunState × Store
written failed state store = (raised state_error, store)
written done state store =
    (ok state, record store { files = put state.run_id (payload (to_dict state)) store.files })
written failed_late state store = (
  raised state_error,
  record store { files = put state.run_id (payload (to_dict state)) store.files },
)

-- RunStateStore.save: the buffer is emptied before the write, whatever becomes of that.
unfoldable pub save : Io → RunState → Store → Result RunState × Store
save io state store =
    if valid_run_id state.run_id
    then written (io state.run_id) state
        (record store { deferred = remove state.run_id store.deferred })
    else (raised value_error, store)

-- What an operation does with the state that it reads.
pub data Change : Type 0 where
  refuse : RunError → Change
  keep write : RunState → Change

abbrev pub change : Io → Change → Store → Result RunState × Store
change io (refuse e) store = (raised e, store)
change io (keep state) store = (ok state, store)
change io (write state) store = save io state store

-- `_require`, then the change.
unfoldable pub on_state : Text → Io → String → (RunState → Change) → Store → Result RunState × Store
on_state now io run_id f store = elim (read now run_id store) [
  | raised e ↦ (raised e, store)
  | ok found ↦ elim found [
    | none ↦ (raised state_error, store)
    | some state ↦ change io (f state) store
  ]
]

abbrev pub one_more : Option (ℕ × Option Text) → Text → ℕ × Option Text
one_more none event_type = (1, bounded_text 200 (some event_type))
one_more (some (count, last)) event_type = (count + 1, bounded_text 200 (some event_type))

-- RunStateStore.defer_event
unfoldable pub defer_event : String → Text → Store → Result Bool × Store
defer_event run_id event_type store =
    if valid_run_id run_id
    then (
      ok true,
      record store {
        deferred = put run_id (one_more (get run_id store.deferred) event_type) store.deferred;
      },
    )
    else (raised value_error, store)
