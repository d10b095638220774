-- ===== src/HashChain/Log.antt =====
-- common/hash_chain.py: HashChainLog, its cached head, and what append and seal do to the files.
--
-- `size` stands for the size that the file system reports of a log. The log is one that opens the
-- file for each append (keep_handle=False): a handle that is kept, whose buffer can hold bytes of a
-- record that failed, is modelled only where its writes succeed. Locks are not modelled: an append
-- runs alone. A failure outside of the write, where the file is opened, repaired, read or made private, is
-- left out.
use helve.Base.{
  ℕ, ◌+◌, ◌-◌, Bool, true, false, ◌&&◌, ◌||◌, not, Option, none, some, List, [], ◌∷◌, ◌++◌, ◌==◌,
  if◌then◌else◌, Text, max,
}
use helve.Base.Int.{pos}
use helve.HashChain.{
  Json, absent, null, boolean, integer, text, other, is_absent, Payload, Record, Document, Line,
  blank, not_object, unparseable, object, LogFile, Anchor, record_hash, genesis_hash,
  ChainVerification, verify_chain,
}

pub record HashChainLog : Type 0 where
  pub namespace : Text
  pub loaded : Bool
  pub next_seq : ℕ
  pub prev_hash : Json
  pub legacy_linked : Bool
  pub observed_size : Option ℕ
  pub anchor_pending_clear : Bool

-- The files of one log.
pub record Disk : Type 0 where
  pub log : Option LogFile
  pub anchor : Option Anchor

abbrev pub lines_of : Option LogFile → List Line
lines_of none = []
lines_of (some log) = elim log.fragment [ none ↦ log.lines | some line ↦ log.lines ++ line ∷ [] ]

-- What `max` with a count takes from a number; a bool is an int.
abbrev pub seq_count : Json → ℕ
seq_count (integer (pos n)) = n
seq_count (boolean true) = 1
seq_count _ = 0

-- The last object and the largest number so far.
pub record Scan : Type 0 where
  pub last_valid : Option Record
  pub last_seq : ℕ

abbrev pub scan_line : Scan → Line → Scan
scan_line s (object value) = record {
  last_valid = some value;
  last_seq = max s.last_seq (seq_count value.payload.seq);
}
scan_line s _ = s

abbrev pub scan_from : Scan → List Line → Scan
scan_from s [] = s
scan_from s (line ∷ lines) = scan_from (scan_line s line) lines

abbrev pub scan : List Line → Scan
scan = scan_from (record { last_valid = none; last_seq = 0 })

abbrev pub empty_log : LogFile
empty_log = record { lines = []; fragment = none }

-- _repair_torn_tail
abbrev pub repair : LogFile → LogFile
repair log = record log { fragment = none }

abbrev pub opened : Option LogFile → LogFile
opened none = empty_log
opened (some log) = log

abbrev pub write : LogFile → Record → LogFile
write log value = record log { lines = log.lines ++ object value ∷ [] }

-- How the write ends: it goes through; a short write is taken back, or leaves no byte; its truncation
-- fails and leaves a part of the record, or all but the newline; all is written and the sync fails.
pub data Written : Type 0 where
  through rolled_back left_torn left_unended left_whole : Written

-- The log after the write.
abbrev pub after_write : Written → Record → LogFile → LogFile
after_write through value log = write log value
after_write rolled_back value log = log
after_write left_torn value log = record log { fragment = some unparseable }
after_write left_unended value log = record log { fragment = some (object value) }
after_write left_whole value log = write log value

-- _drop_stale_anchor
abbrev pub drop_stale_anchor : HashChainLog → Option Anchor → Option Anchor
drop_stale_anchor w anchor = if w.anchor_pending_clear then none else anchor

-- unseal
abbrev pub unseal : Disk → Disk
unseal disk = record disk { anchor = none }

abbrev pub size_is : Option ℕ → ℕ → Bool
size_is none n = false
size_is (some m) n = n == m

module _ (canonical_json : Document → Text) (sha256_hex : Text → Text) where
  -- HashChainLog.__init__
  abbrev pub new_log : Text → HashChainLog
  new_log namespace = record {
    namespace = namespace;
    loaded = false;
    next_seq = 1;
    prev_hash = text (genesis_hash canonical_json sha256_hex namespace);
    legacy_linked = false;
    observed_size = none;
    anchor_pending_clear = true;
  }

  abbrev pub head_from : Scan → HashChainLog → HashChainLog
  head_from s w = elim s.last_valid [
    | none ↦ record w { loaded = true }
    | some value ↦
        if is_absent value.hash
        then record w {
          loaded = true;
          next_seq = s.last_seq + 1;
          prev_hash = text (record_hash canonical_json sha256_hex value);
          legacy_linked = true;
        }
        else record w {
          loaded = true;
          next_seq = s.last_seq + 1;
          prev_hash = value.hash;
          legacy_linked = false;
        }
  ]

  unfoldable pub ensure_loaded : Option LogFile → HashChainLog → HashChainLog
  ensure_loaded log w = if w.loaded then w else head_from (scan (lines_of log)) w

  -- The record as written.
  abbrev pub chain : HashChainLog → Payload → Record
  chain w payload =
      let linked = record payload {
        seq = integer (pos w.next_seq);
        prev_hash = w.prev_hash;
        legacy_linked =
            if w.legacy_linked && w.next_seq == 1 then boolean true else payload.legacy_linked;
      } in
      record {
        payload = linked;
        hash = text (sha256_hex (canonical_json (helve.HashChain.record_document linked)));
      }

  -- HashChainLog.verify with the anchor on disk
  abbrev pub verify : HashChainLog → Disk → ChainVerification
  verify w disk = verify_chain canonical_json sha256_hex w.namespace disk.log disk.anchor

  module _ (size : LogFile → ℕ) where
    -- _reload_if_externally_appended; `stat` fails where there is no file.
    unfoldable pub reload : Option LogFile → HashChainLog → HashChainLog
    reload none w = w
    reload (some log) w =
        let again = ensure_loaded (some log) (record w {
          loaded = false;
          next_seq = 1;
          prev_hash = text (genesis_hash canonical_json sha256_hex w.namespace);
          legacy_linked = false;
        }) in
        if not w.loaded || size_is w.observed_size (size log) then w else again

    -- The result, the writer and the log after the write.
    abbrev pub appended :
        Written → Record → HashChainLog → LogFile → Option Record × HashChainLog × LogFile
    appended through value w log = (
      some value,
      record w {
        prev_hash = value.hash;
        next_seq = w.next_seq + 1;
        observed_size = some (size (write log value));
      },
      write log value,
    )
    appended wrote value w log =
        (none, record w { loaded = false; observed_size = none }, after_write wrote value log)

    -- append; `wrote` says how the write ends. The record is `none` where it raised.
    unfoldable pub append :
        Written → Payload → HashChainLog → Disk → Option Record × HashChainLog × Disk
    append wrote payload w disk =
        let anchor = drop_stale_anchor w disk.anchor in
        let log = repair (opened disk.log) in
        let ready =
          ensure_loaded (some log)
            (reload (some log) (record w { anchor_pending_clear = false })) in
        let (result, v, after) = appended wrote (chain ready payload) ready log in
        (result, v, record { log = some after; anchor = anchor })

    -- seal
    unfoldable pub seal : HashChainLog → Disk → HashChainLog × Disk
    seal w disk =
        let ready = ensure_loaded disk.log (reload disk.log w) in
        let anchor : Anchor = record {
          seq = integer (pos (ready.next_seq - 1));
          hash = ready.prev_hash;
        } in
        (record ready { anchor_pending_clear = true }, record disk { anchor = some anchor })
