-- ===== src/Pipeline/Sessions.antt =====
-- engine/execution/pipeline/checkpoint.py: SessionStateManager, the files of the sessions' checkpoints, and the
-- places that read and clear them: _apply_session_checkpoint of engine/execution/orchestration/agent_loop.py.
--
-- A file is named by the session's id. The directory and its links are taken to be in order.
pub mod View
pub mod Kept
use helve.Base.{
  ℕ, String, Bool, true, false, ◌&&◌, Option, none, some, List, [], ◌∷◌, if◌then◌else◌, Text, codes,
  leb, length, ◌==◌,
}
use helve.Base.Dict.{Dict, get, put, remove}
use helve.RunState.Store.{Store as RunStore, Write, done, failed, failed_late, all_id_chars}
use helve.Pipeline.{Chain}
use helve.Pipeline.Resume.{
  SavedCheckpoint, Request, Start, fresh_kept, fresh_cleared, resumes, apply_session_checkpoint,
}

-- A file holds the fields of a checkpoint, or other text that json or SessionCheckpoint refuses, or no UTF-8.
pub data SessionFile : Type 0 where
  holds : SavedCheckpoint → SessionFile
  refused not_utf8 : SessionFile

abbrev pub Sessions : Type 0
Sessions = Dict SessionFile

-- A result, or an exception.
pub data Restored : Type 0 where
  restored : Option SavedCheckpoint → Restored
  raises : Restored

-- `$` also matches before a line break at the end.
abbrev pub without_newline : Text → Text
without_newline [] = []
without_newline (c ∷ []) = if c == 10 then [] else c ∷ []
without_newline (c ∷ d ∷ text) = c ∷ without_newline (d ∷ text)

-- _SESSION_ID_RE.match
unfoldable pub valid_session_id : String → Bool
valid_session_id session_id =
    let body = without_newline (codes session_id) in
    leb 1 (length body) && (leb (length body) 64 && all_id_chars body)

abbrev pub parsed : Option SessionFile → Restored
parsed none = restored none
parsed (some (holds c)) = restored (some c)
parsed (some refused) = restored none
parsed (some not_utf8) = raises

-- SessionStateManager.restore
unfoldable pub restore : String → Sessions → Restored
restore session_id sessions =
    if valid_session_id session_id then parsed (get session_id sessions) else restored none

-- Whether an operation returns, and the files after it.
abbrev pub written : Write → String → SavedCheckpoint → Sessions → Bool × Sessions
written done session_id c sessions = (true, put session_id (holds c) sessions)
written failed session_id c sessions = (false, sessions)
written failed_late session_id c sessions = (false, put session_id (holds c) sessions)

-- SessionStateManager.save
unfoldable pub save : Write → String → SavedCheckpoint → Sessions → Bool × Sessions
save write session_id c sessions =
    if valid_session_id session_id then written write session_id c sessions else (false, sessions)

-- SessionStateManager.clear
unfoldable pub clear : String → Sessions → Bool × Sessions
clear session_id sessions =
    if valid_session_id session_id then (true, remove session_id sessions) else (false, sessions)

abbrev pub listed : Restored → Option (List SavedCheckpoint) → Option (List SavedCheckpoint)
listed raises later = none
listed (restored none) later = later
listed (restored (some c)) none = none
listed (restored (some c)) (some later) = some (c ∷ later)

-- SessionStateManager.list_active over the names of the files; `none` for an exception.
unfoldable pub list_from : List (String × SessionFile) → Sessions → Option (List SavedCheckpoint)
list_from [] sessions = some []
list_from ((session_id, file) ∷ files) sessions =
    listed (restore session_id sessions) (list_from files sessions)

unfoldable pub list_active : Sessions → Option (List SavedCheckpoint)
unfolding list_from
list_active sessions = list_from sessions sessions

abbrev pub after_start : Start → String → Sessions → Sessions
after_start fresh_cleared session_id sessions = (clear session_id sessions).1
after_start fresh_kept session_id sessions = sessions
after_start (resumes index c) session_id sessions = sessions

abbrev pub start_restored : Text → RunStore → Request → Chain → Restored → Start
start_restored now runs r chain raises = fresh_kept
start_restored now runs r chain (restored saved) = apply_session_checkpoint now runs r chain saved

-- _apply_session_checkpoint with the session's file.
unfoldable pub apply_from_file :
    Text → RunStore → Request → Chain → String → Sessions → Start × Sessions
apply_from_file now runs r chain session_id sessions =
    let start = start_restored now runs r chain (restore session_id sessions) in
    (start, after_start start session_id sessions)
