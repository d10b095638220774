-- ===== src/HashChain/Tests.antt =====
-- A digest without collisions, and logs that are written and verified with it.
use helve.Base.{
  ℕ, inl, inr, zero, suc, ◌≡◌, ◌<◌, refl, true, false, none, some, List, [], ◌∷◌, ◌++◌, arith, Text,
  codes, length, take, drop, All, ap, sym, ◌∙◌, length-append,
}
use helve.Base.Int.{pos, negsuc}
use helve.HashChain.{
  Json, absent, null, boolean, integer, text, other, Payload, Record, Document, record_document,
  genesis_document, object, LogFile, Anchor, verify_chain, blank, unparseable, record_hash,
  walk_record, chained, link, accept,
}
use helve.HashChain.Log.{
  Written, through, rolled_back, left_torn, left_unended, left_whole, write, opened, new_log, seal,
  verify, scan,
}
use helve.HashChain.Extend.{Ready}
use helve.HashChain.Seal.{ends_chained, seal-verify}
use helve.HashChain.Linked.{chained_file, chained_records}
use helve.HashChain.Tamper.{Plain, tampering_detected}
use helve.HashChain.History.{Call, run}
use helve.HashChain.Legacy.{fresh_writers, appends_verify, append_after_numbered}
use helve.HashChain.Edits.{legacy_edit_unseen}

take-append-length : (s t : Text) → take (length s) (s ++ t) ≡ s
take-append-length [] t = refl
take-append-length (x ∷ s) t = ap (◌∷◌ x) (take-append-length s t)

drop-append-length : (s t : Text) → drop (length s) (s ++ t) ≡ t
drop-append-length [] t = refl
drop-append-length (x ∷ s) t = drop-append-length s t

abbrev encode_json : Json → Text
encode_json absent = 0 ∷ []
encode_json null = 1 ∷ []
encode_json (boolean false) = 2 ∷ []
encode_json (boolean true) = 3 ∷ []
encode_json (integer (pos n)) = 4 ∷ n ∷ []
encode_json (integer (negsuc n)) = 5 ∷ n ∷ []
encode_json (text t) = 6 ∷ length t ∷ t
encode_json (other t) = 7 ∷ length t ∷ t

abbrev first : Text → ℕ
first [] = 0
first (n ∷ s) = n

abbrev tagged : ℕ → Text → Json × Text
tagged zero s = (absent, s)
tagged (suc zero) s = (null, s)
tagged (suc (suc zero)) s = (boolean false, s)
tagged (suc (suc (suc zero))) s = (boolean true, s)
tagged (suc (suc (suc (suc zero)))) s = (integer (pos (first s)), drop 1 s)
tagged (suc (suc (suc (suc (suc zero))))) s = (integer (negsuc (first s)), drop 1 s)
tagged (suc (suc (suc (suc (suc (suc zero)))))) s =
    (text (take (first s) (drop 1 s)), drop (first s) (drop 1 s))
tagged (suc (suc (suc (suc (suc (suc (suc n))))))) s =
    (other (take (first s) (drop 1 s)), drop (first s) (drop 1 s))

abbrev decode_json : Text → Json × Text
decode_json [] = (absent, [])
decode_json (k ∷ s) = tagged k s

decode-encode_json : (j : Json) (s : Text) → decode_json (encode_json j ++ s) ≡ (j, s)
decode-encode_json absent s = refl
decode-encode_json null s = refl
decode-encode_json (boolean false) s = refl
decode-encode_json (boolean true) s = refl
decode-encode_json (integer (pos n)) s = refl
decode-encode_json (integer (negsuc n)) s = refl
decode-encode_json (text t) s = rw (take-append-length t s, drop-append-length t s) refl
decode-encode_json (other t) s = rw (take-append-length t s, drop-append-length t s) refl

abbrev encode : Document → Text
encode (genesis_document t) = 0 ∷ t
encode (record_document p) =
    1 ∷ (encode_json p.seq ++ (encode_json p.prev_hash ++ (encode_json p.legacy_linked ++ p.rest)))

abbrev decode_payload : Text → Payload
decode_payload s =
    let (seq, s1) = decode_json s in
    let (prev, s2) = decode_json s1 in
    let (linked, rest) = decode_json s2 in
    record { seq = seq; prev_hash = prev; legacy_linked = linked; rest = rest }

abbrev decode : Text → Document
decode [] = genesis_document []
decode (zero ∷ t) = genesis_document t
decode (suc n ∷ t) = record_document (decode_payload t)

decode-encode : (d : Document) → decode (encode d) ≡ d
decode-encode (genesis_document t) = refl
decode-encode (record_document p) = ground (
  arith,
  decode-encode_json p.seq (encode_json p.prev_hash ++ (encode_json p.legacy_linked ++ p.rest)),
  decode-encode_json p.prev_hash (encode_json p.legacy_linked ++ p.rest),
  decode-encode_json p.legacy_linked p.rest,
)

abbrev plain_sha : Text → Text
plain_sha t = t

no_collision : (d e : Document) → plain_sha (encode d) ≡ plain_sha (encode e) → d ≡ e
no_collision d e h = sym (decode-encode d) ∙ ap decode h ∙ decode-encode e

abbrev namespace : Text
namespace = codes "audit"

abbrev plain_payload : Json → Json → Payload
plain_payload seq prev = record {
  seq = seq;
  prev_hash = prev;
  legacy_linked = absent;
  rest = codes "{cmd:1}";
}

abbrev linked_record : Json → Text → Record
linked_record seq prev = record {
  payload = plain_payload seq (text prev);
  hash = text (encode (record_document (plain_payload seq (text prev))));
}

abbrev one : Record
one = linked_record (integer (pos 1)) (encode (genesis_document namespace))

abbrev two : Record
two = linked_record (integer (pos 2)) (record_hash encode plain_sha one)

abbrev legacy : Json → Record
legacy seq = record { payload = plain_payload seq absent; hash = absent }

abbrev log : LogFile
log = record { lines = object one ∷ object two ∷ []; fragment = none }

abbrev head : Anchor
head = record { seq = integer (pos 2); hash = text (record_hash encode plain_sha two) }

log_verifies : (verify_chain encode plain_sha namespace (some log) (some head)).ok ≡ true
unfolding verify_chain walk_record chained link accept
log_verifies = refl

log-Plain : All Plain (chained_file log)
unfolding chained_records
log-Plain = (refl, (refl, tt))

-- A blank line and a torn one change no chained record.
abbrev padded : LogFile
padded = record { lines = blank ∷ object one ∷ object two ∷ []; fragment = some unparseable }

padded_verifies : (verify_chain encode plain_sha namespace (some padded) (some head)).ok ≡ true
unfolding verify_chain walk_record chained link accept
padded_verifies = refl

tampering_detected_example : chained_file padded ≡ chained_file log
tampering_detected_example =
    tampering_detected encode plain_sha namespace no_collision log padded head log_verifies
      padded_verifies log-Plain

record_dropped :
    (verify_chain encode plain_sha namespace
      (some (record log { lines = object one ∷ [] }))
      (some head)).ok
    ≡ false
unfolding verify_chain walk_record chained link accept
record_dropped = refl

abbrev line_count : LogFile → ℕ
line_count log = length log.lines

grows : (before : LogFile) (value : Record) → line_count before < line_count (write before value)
grows before value = omega (arith, length-append before.lines (object value ∷ []))

abbrev old_log : Json → LogFile
old_log seq = record { lines = object (legacy absent) ∷ object (legacy seq) ∷ []; fragment = none }

abbrev torn_log : LogFile
torn_log = record (old_log absent) { fragment = some unparseable }

abbrev by : ℕ → Written → Call
by writer wrote = record { writer = writer; wrote = wrote; payload = plain_payload absent absent }

abbrev calls : List Call
calls =
    by 0 through
    ∷ by 1 left_whole
    ∷ by 0 left_torn
    ∷ by 0 through
    ∷ by 2 rolled_back
    ∷ by 1 left_unended
    ∷ []

appends_verify_example :
    (verify_chain encode plain_sha namespace
      (some (
        opened
          (run encode plain_sha namespace line_count
            (fresh_writers encode plain_sha namespace torn_log (some head))
            calls).disk.log))
      none).ok
    ≡ true
appends_verify_example =
    appends_verify encode plain_sha namespace line_count torn_log (some head) calls grows
      (refl, (refl, tt)) (refl, (refl, tt)) (inr refl)
      (refl, (refl, (refl, (refl, (refl, (refl, tt))))))

append_after_numbered_example :
    let log = old_log (integer (pos 7)) in
    (verify_chain encode plain_sha namespace (some log) none).ok ≡ true
    × ((verify_chain encode plain_sha namespace
          (some (
            opened
              (run encode plain_sha namespace line_count
                (fresh_writers encode plain_sha namespace log none)
                (by 3 through ∷ [])).disk.log))
          none).ok
        ≡ false)
append_after_numbered_example =
    append_after_numbered encode plain_sha namespace line_count (old_log (integer (pos 7))) none 6 3
      (plain_payload absent absent) (refl, (refl, tt)) refl refl refl

legacy_edit_unseen_example :
    verify_chain encode plain_sha namespace (some (old_log (integer (pos 7)))) none
    ≡ verify_chain encode plain_sha namespace
        (some (record {
          lines = object (legacy null) ∷ object (legacy (integer (pos 7))) ∷ [];
          fragment = none;
        }))
        none
legacy_edit_unseen_example =
    legacy_edit_unseen encode plain_sha namespace [] (legacy absent) (legacy null)
      (legacy (integer (pos 7))) [] none none refl refl refl

log-Ready : Ready encode plain_sha namespace log.lines
unfolding walk_record chained link accept
log-Ready = (_, refl, inl (two, refl, refl, refl, refl))

seal-verify_example :
    let (w, disk) =
      seal encode plain_sha line_count
        (new_log encode plain_sha namespace)
        (record { log = some log; anchor = none }) in
    (verify encode plain_sha w disk).ok ≡ ends_chained (scan log.lines).last_valid
seal-verify_example = seal-verify encode plain_sha namespace line_count log none log-Ready refl
