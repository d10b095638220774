-- ===== src/Pipeline/Sessions/View.antt =====
-- engine/execution/pipeline/checkpoint.py: what restore gives, after any operations on the sessions' files.
use mathlib.Core.Path.{fun_ext}
use helve.Base.{
  String, Bool, true, false, ◌&&◌, none, some, List, [], ◌∷◌, if◌then◌else◌, Text, ◌≡◌, refl, ap,
  ◌∙◌, arith, Bool-cases, inl, inr, str_eq, eq_iff,
}
use helve.Base.Dict.{put, remove, get-put, get-remove}
use helve.RunState.Store.{Store, Write, done, failed, failed_late}
use helve.Pipeline.{Chain}
use helve.Pipeline.Resume.{SavedCheckpoint, Request, Start, fresh_kept, fresh_cleared, resumes}
use helve.Pipeline.Sessions.{
  holds, Sessions, Restored, restored, valid_session_id, restore, save, clear, after_start,
  start_restored, apply_from_file,
}

pub data Call : Type 0 where
  saves : Write → String → SavedCheckpoint → Call
  clears : String → Call
  applies : Text → Store → Request → Chain → String → Call

abbrev pub perform : Call → Sessions → Sessions
perform (saves write session_id c) sessions = (save write session_id c sessions).1
perform (clears session_id) sessions = (clear session_id sessions).1
perform (applies now runs r chain session_id) sessions =
    (apply_from_file now runs r chain session_id sessions).1

unfoldable pub perform_all : List Call → Sessions → Sessions
perform_all [] sessions = sessions
perform_all (call ∷ calls) sessions = perform_all calls (perform call sessions)

-- What a session has: a checkpoint, none, or a file that cannot be read.
abbrev pub View : Type 0
View = String → Restored

abbrev pub view : Sessions → View
view sessions session_id = restore session_id sessions

abbrev pub set_view : Bool → String → Restored → View → View
set_view sets session_id value v j = if sets && str_eq session_id j then value else v j

abbrev pub replaces : Write → Bool
replaces done = true
replaces failed = false
replaces failed_late = true

abbrev pub is_cleared : Start → Bool
is_cleared fresh_cleared = true
is_cleared _ = false

-- What each operation makes of the view.
abbrev pub specified : Call → View → View
specified (saves write session_id c) v =
    set_view (valid_session_id session_id && replaces write) session_id (restored (some c)) v
specified (clears session_id) v = set_view true session_id (restored none) v
specified (applies now runs r chain session_id) v =
    set_view (is_cleared (start_restored now runs r chain (v session_id))) session_id
      (restored none) v

unfoldable pub specified_all : List Call → View → View
specified_all [] v = v
specified_all (call ∷ calls) v = specified_all calls (specified call v)

view-put :
    (session_id j : String) (c : SavedCheckpoint) (sessions : Sessions)
    → valid_session_id session_id ≡ true
    → view (put session_id (holds c) sessions) j
      ≡ set_view true session_id (restored (some c)) (view sessions) j
unfolding restore
view-put session_id j c sessions h = elim (Bool-cases (str_eq session_id j)) [
  | inl e ↦ ground (arith, e, h, eq_iff session_id j, get-put session_id j (holds c) sessions)
  | inr e ↦ ground (arith, e, get-put session_id j (holds c) sessions)
]

view-remove :
    (session_id j : String) (sessions : Sessions)
    → view (remove session_id sessions) j
      ≡ set_view true session_id (restored none) (view sessions) j
unfolding restore
view-remove session_id j sessions = ground (arith, get-remove session_id j sessions)

view-invalid :
    (session_id j : String) (sessions : Sessions)
    → valid_session_id session_id ≡ false
    → set_view true session_id (restored none) (view sessions) j ≡ view sessions j
unfolding restore
view-invalid session_id j sessions h = ground (arith, h, eq_iff session_id j)

view-saves :
    (write : Write) (session_id j : String) (c : SavedCheckpoint) (sessions : Sessions)
    → view (save write session_id c sessions).1 j
      ≡ specified (saves write session_id c) (view sessions) j
unfolding save
view-saves write session_id j c sessions = elim (Bool-cases (valid_session_id session_id)) [
  | inr h ↦ ground (arith, h)
  | inl h ↦ by_write write h
]
  where
    by_write :
        (w : Write)
        → valid_session_id session_id ≡ true
        → view (save w session_id c sessions).1 j
          ≡ specified (saves w session_id c) (view sessions) j
    by_write done h = ground (arith, h, view-put session_id j c sessions h)
    by_write failed h = ground (arith, h)
    by_write failed_late h = ground (arith, h, view-put session_id j c sessions h)

view-clear :
    (session_id j : String) (sessions : Sessions)
    → view (clear session_id sessions).1 j
      ≡ set_view true session_id (restored none) (view sessions) j
unfolding clear
view-clear session_id j sessions = elim (Bool-cases (valid_session_id session_id)) [
  | inl h ↦ ground (arith, h, view-remove session_id j sessions)
  | inr h ↦ ground (arith, h, view-invalid session_id j sessions h)
]

view-start :
    (start : Start) (session_id j : String) (sessions : Sessions)
    → view (after_start start session_id sessions) j
      ≡ set_view (is_cleared start) session_id (restored none) (view sessions) j
view-start fresh_cleared session_id j sessions = view-clear session_id j sessions
view-start fresh_kept session_id j sessions = refl
view-start (resumes index c) session_id j sessions = refl

pub view-perform :
    (call : Call) (sessions : Sessions)
    → view (perform call sessions) ≡ specified call (view sessions)
unfolding apply_from_file
view-perform (saves write session_id c) sessions =
    fun_ext (λ (j : String). view-saves write session_id j c sessions)
view-perform (clears session_id) sessions =
    fun_ext (λ (j : String). view-clear session_id j sessions)
view-perform (applies now runs r chain session_id) sessions = fun_ext (λ (j : String).
    view-start (start_restored now runs r chain (restore session_id sessions)) session_id j
      sessions)

-- After any history of saves, clears and requests that look for a checkpoint to resume from, failing writes included, each
-- session has what the specification gives: the checkpoint that was last written under its id, or none since
-- it was cleared, by a clear or by a request that does not resume from it; other sessions' are untouched.
pub perform_all-view :
    (calls : List Call) (sessions : Sessions)
    → view (perform_all calls sessions) ≡ specified_all calls (view sessions)
unfolding perform_all specified_all
perform_all-view [] sessions = refl
perform_all-view (call ∷ calls) sessions =
    perform_all-view calls (perform call sessions)
    ∙ ap (specified_all calls) (view-perform call sessions)
