-- ===== src/HashChain.antt =====
-- common/hash_chain.py: the records of a hash-chained log, and the walk that verifies one.
--
-- A log is its complete lines and what stands behind the last newline. A record is what this code
-- reads of its JSON object, with `rest` for the other keys. `canonical_json` and `sha256_hex`, of the
-- standard library's json and hashlib, are parameters. Lines that are not UTF-8, at which reading raises, are
-- not represented.
pub mod Linked
pub mod Tamper
pub mod Log
pub mod Extend
pub mod Append
pub mod History
pub mod Legacy
pub mod Edits
pub mod Seal
mod Tests
use helve.Base.{
  ℕ, zero, suc, ◌-◌, Bool, true, false, ◌&&◌, not, Option, none, some, List, [], ◌∷◌, ◌==◌,
  if◌then◌else◌, Text, text_eq,
}
use helve.Base.Int.{ℤ, pos, successor, int_eq}

-- The value at a key; `absent` where the key is missing. A float is an `other` value.
pub data Json : Type 0 where
  absent null : Json
  boolean : Bool → Json
  integer : ℤ → Json
  text other : Text → Json

abbrev pub is_absent : Json → Bool
is_absent absent = true
is_absent _ = false

abbrev pub is_true : Json → Bool
is_true (boolean b) = b
is_true _ = false

-- `isinstance(value, int) and not isinstance(value, bool)`
abbrev pub integer_of : Json → Option ℤ
integer_of (integer n) = some n
integer_of _ = none

abbrev pub is_text : Json → Text → Bool
is_text (text t) s = text_eq t s
is_text _ s = false

-- The fields that the hash covers.
pub record Payload : Type 0 where
  pub seq : Json
  pub prev_hash : Json
  pub legacy_linked : Json
  pub rest : Text

pub record Record : Type 0 where
  pub payload : Payload
  pub hash : Json

-- What is serialized and hashed.
pub data Document : Type 0 where
  record_document : Payload → Document
  genesis_document : Text → Document

pub data Line : Type 0 where
  blank not_object unparseable : Line
  object : Record → Line

pub record LogFile : Type 0 where
  pub lines : List Line
  pub fragment : Option Line

pub record Anchor : Type 0 where
  pub seq : Json
  pub hash : Json

pub data Failure : Type 0 where
  log_missing : Failure
  unparseable_at not_object_at unchained_after_start invalid_seq hash_mismatch : ℕ → Failure
  no_legacy_tail undeclared_legacy prev_hash_mismatch : ℕ → Failure
  sequence_gap : ℕ → ℤ → ℤ → Failure
  anchor_mismatch : Option ℤ → Json → Failure

pub record ChainVerification : Type 0 where
  pub ok : Bool
  pub records : ℕ
  pub failure : Option Failure
  pub anchored : Bool
  pub anchor_matches : Option Bool
  pub torn_tail : Bool

-- The variables of the loop. Where the chain has started, the hash is that of the last record.
pub record Walk : Type 0 where
  pub prev_chained_seq : Option ℤ
  pub prev_chained_hash : Option Text
  pub last_legacy : Option Record
  pub chain_started : Bool
  pub record_count : ℕ

pub data Outcome : Type 0 where
  failed : ℕ → Failure → Outcome
  walked : Walk → Outcome

abbrev pub walk_start : Walk
walk_start = record {
  prev_chained_seq = none;
  prev_chained_hash = none;
  last_legacy = none;
  chain_started = false;
  record_count = 0;
}

abbrev pub expected_seq : Option ℤ → ℤ → ℤ
expected_seq none seq = seq
expected_seq (some before) seq = successor before

abbrev pub out_of_sequence : Option ℤ → ℤ → Bool
out_of_sequence none seq = false
out_of_sequence (some before) seq = not (int_eq seq (successor before))

abbrev pub seq_is : Option ℤ → Json → Bool
seq_is none absent = true
seq_is none null = true
seq_is (some n) (integer m) = int_eq n m
seq_is (some n) (boolean b) = int_eq n (if b then pos 1 else pos 0)
seq_is _ _ = false

abbrev pub hash_is : Option Text → Json → Bool
hash_is none absent = true
hash_is none null = true
hash_is (some t) j = is_text j t
hash_is _ _ = false

module _ (canonical_json : Document → Text) (sha256_hex : Text → Text) where
  abbrev pub record_hash : Record → Text
  record_hash value = sha256_hex (canonical_json (record_document value.payload))

  abbrev pub genesis_hash : Text → Text
  genesis_hash namespace = sha256_hex (canonical_json (genesis_document namespace))

  unfoldable pub accept : Walk → Record → ℤ → Text → Outcome
  accept w value seq expected_prev =
      if is_text value.payload.prev_hash expected_prev
      then walked (record w {
        prev_chained_seq = some seq;
        prev_chained_hash = some (record_hash value);
        chain_started = true;
        record_count = suc w.record_count;
      })
      else failed w.record_count (prev_hash_mismatch (suc w.record_count))

  -- The record before, or for the first chained record the legacy tail that it declares.
  unfoldable pub link : Text → Walk → Record → ℤ → Outcome
  link namespace w value seq = elim w.prev_chained_hash [
    | some before ↦ accept w value seq before
    | none ↦ elim w.last_legacy [
      | none ↦
          if is_true value.payload.legacy_linked
          then failed w.record_count (no_legacy_tail (suc w.record_count))
          else accept w value seq (genesis_hash namespace)
      | some legacy ↦
          if is_true value.payload.legacy_linked
          then accept w value seq (record_hash legacy)
          else failed w.record_count (undeclared_legacy (suc w.record_count))
    ]
  ]

  unfoldable pub chained : Text → Walk → Record → ℤ → Outcome
  chained namespace w value seq =
      if out_of_sequence w.prev_chained_seq seq
      then failed w.record_count
          (sequence_gap (suc w.record_count) (expected_seq w.prev_chained_seq seq) seq)
      else if not (is_text value.hash (record_hash value))
      then failed w.record_count (hash_mismatch (suc w.record_count))
      else link namespace w value seq

  unfoldable pub walk_record : Text → Walk → Record → Outcome
  walk_record namespace w value =
      if is_absent value.hash
      then (if w.chain_started
          then failed w.record_count (unchained_after_start (suc w.record_count))
          else walked (record w { last_legacy = some value; record_count = suc w.record_count }))
      else elim (integer_of value.payload.seq) [
        | none ↦ failed w.record_count (invalid_seq (suc w.record_count))
        | some seq ↦ chained namespace w value seq
      ]

  abbrev pub walk_line : Text → Walk → Line → Outcome
  walk_line namespace w blank = walked w
  walk_line namespace w unparseable = failed w.record_count (unparseable_at (suc w.record_count))
  walk_line namespace w not_object = failed w.record_count (not_object_at (suc w.record_count))
  walk_line namespace w (object value) = walk_record namespace w value

  abbrev pub walk_lines : Text → Walk → List Line → Outcome
  walk_lines namespace w [] = walked w
  walk_lines namespace w (line ∷ lines) = elim (walk_line namespace w line) [
    | failed count failure ↦ failed count failure
    | walked w' ↦ walk_lines namespace w' lines
  ]

  -- A fragment that no parser reads is a crash tear; one that is a record is walked as a line.
  abbrev pub walk_fragment : Text → Walk → Option Line → Outcome × Bool
  walk_fragment namespace w none = (walked w, false)
  walk_fragment namespace w (some unparseable) = (walked w, true)
  walk_fragment namespace w (some line) = (walk_line namespace w line, false)

  abbrev pub walk_file : Text → LogFile → Outcome × Bool
  walk_file namespace log = elim (walk_lines namespace walk_start log.lines) [
    | failed count failure ↦ (failed count failure, false)
    | walked w ↦ walk_fragment namespace w log.fragment
  ]

  abbrev pub refused : ℕ → Failure → ChainVerification
  refused count failure = record {
    ok = false;
    records = count;
    failure = some failure;
    anchored = false;
    anchor_matches = none;
    torn_tail = false;
  }

  abbrev pub anchor_check : Walk → Bool → Option Anchor → ChainVerification
  anchor_check w torn none = record {
    ok = true;
    records = w.record_count;
    failure = none;
    anchored = false;
    anchor_matches = none;
    torn_tail = torn;
  }
  anchor_check w torn (some anchor) =
      let matches =
        seq_is w.prev_chained_seq anchor.seq && hash_is w.prev_chained_hash anchor.hash in
      record {
        ok = matches;
        records = w.record_count;
        failure = if matches then none else some (anchor_mismatch w.prev_chained_seq anchor.seq);
        anchored = true;
        anchor_matches = some matches;
        torn_tail = torn;
      }

  abbrev pub missing_log : Option Anchor → ChainVerification
  missing_log none = record {
    ok = true;
    records = 0;
    failure = none;
    anchored = false;
    anchor_matches = none;
    torn_tail = false;
  }
  missing_log (some anchor) = record {
    ok = false;
    records = 0;
    failure = some log_missing;
    anchored = true;
    anchor_matches = some false;
    torn_tail = false;
  }

  abbrev pub concluded : Outcome × Bool → Option Anchor → ChainVerification
  concluded (failed count failure, torn) anchor = refused count failure
  concluded (walked w, torn) anchor = anchor_check w torn anchor

  unfoldable pub verify_chain : Text → Option LogFile → Option Anchor → ChainVerification
  verify_chain namespace none anchor = missing_log anchor
  verify_chain namespace (some log) anchor = concluded (walk_file namespace log) anchor
