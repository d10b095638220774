-- ===== src/HashChain/Legacy.antt =====
-- Logs that were written before the chain: how a writer binds them, and where it does not.
use helve.Base.{
  ℕ, suc, ◌≡◌, ◌<◌, inl, inr, refl, true, false, Option, none, some, List, [], ◌∷◌, arith, Text,
  Option-cases, All, sym, ◌∙◌, subst,
}
use helve.Base.Int.{pos}
use helve.HashChain.{
  Json, text, integer, boolean, is_absent, is_true, Payload, Record, Document, Line, blank,
  not_object, unparseable, object, LogFile, Anchor, Walk, Outcome, failed, walked, walk_start,
  record_hash, genesis_hash, walk_record, walk_line, walk_lines, link, verify_chain,
  undeclared_legacy, refused, Failure,
}
use helve.HashChain.Log.{
  append, through, ensure_loaded, reload, head_from, new_log, Scan, scan, scan_line, scan_from,
  seq_count, HashChainLog, Disk, chain, opened,
}
use helve.HashChain.Extend.{chained-link, walk_lines-snoc, Ready, walks}
use helve.HashChain.History.{Intact, Shared, Call, run, PlainCall, run-Consistent, Sound-verifies}

-- A line of a log that no chain has started in.
abbrev pub Unchained : Line → Type 0
Unchained blank = Unit {0}
Unchained (object r) = is_absent r.hash ≡ true
Unchained _ = ⊥

-- It carries no sequence number above 0.
abbrev pub Unnumbered : Line → Type 0
Unnumbered (object r) = seq_count r.payload.seq ≡ 0
Unnumbered _ = Unit {0}

Unnumbered-scan :
    (s : Scan) (lines : List Line)
    → All Unnumbered lines
    → s.last_seq ≡ 0
    → (scan_from s lines).last_seq ≡ 0
Unnumbered-scan s [] h e = e
Unnumbered-scan s (blank ∷ lines) h e = Unnumbered-scan s lines h.1 e
Unnumbered-scan s (not_object ∷ lines) h e = Unnumbered-scan s lines h.1 e
Unnumbered-scan s (unparseable ∷ lines) h e = Unnumbered-scan s lines h.1 e
Unnumbered-scan s (object r ∷ lines) h e =
    Unnumbered-scan (scan_line s (object r)) lines h.1 (omega (arith, e, h.0))

scan_from-empty :
    (s : Scan) (lines : List Line)
    → (s.last_valid ≡ none → s.last_seq ≡ 0)
    → (scan_from s lines).last_valid ≡ none
    → (scan_from s lines).last_seq ≡ 0
scan_from-empty s [] h e = h e
scan_from-empty s (blank ∷ lines) h e = scan_from-empty s lines h e
scan_from-empty s (not_object ∷ lines) h e = scan_from-empty s lines h e
scan_from-empty s (unparseable ∷ lines) h e = scan_from-empty s lines h e
scan_from-empty s (object r ∷ lines) h e =
    scan_from-empty (scan_line s (object r)) lines (λ q. absurd (ground (arith, q))) e

module _ (canonical_json : Document → Text) (sha256_hex : Text → Text) (namespace : Text) where
  -- The walk has met legacy records only, and the scan has the same last one.
  abbrev Tail : Walk → Scan → Type 0
  Tail w s =
      (s.last_valid ≡ w.last_legacy)
      × (w.prev_chained_seq ≡ none)
      × (w.prev_chained_hash ≡ none)
      × (w.chain_started ≡ false)
      × ((r : Record) → w.last_legacy ≡ some r → is_absent r.hash ≡ true)

  legacy_record :
      (w : Walk) (r : Record)
      → is_absent r.hash ≡ true
      → w.chain_started ≡ false
      → walk_record canonical_json sha256_hex namespace w r
        ≡ walked (record w { last_legacy = some r; record_count = suc w.record_count })
  unfolding walk_record
  legacy_record w r absent off = ground (arith, absent, off)

  Unchained-walk :
      (w : Walk) (s : Scan) (lines : List Line)
      → All Unchained lines
      → Tail w s
      → (w' : Walk) × (walks canonical_json sha256_hex namespace w lines ≡ walked w')
        × Tail w' (scan_from s lines)
  Unchained-walk w s [] h t = (w, refl, t)
  Unchained-walk w s (blank ∷ lines) h t = Unchained-walk w s lines h.1 t
  Unchained-walk w s (not_object ∷ lines) h t = absurd h.0
  Unchained-walk w s (unparseable ∷ lines) h t = absurd h.0
  Unchained-walk w s (object r ∷ lines) h (_, b, c, d, _) =
      let v = record w { last_legacy = some r; record_count = suc w.record_count } in
      let (w', e, tail) = Unchained-walk v (scan_line s (object r)) lines h.1 (
        refl,
        b,
        c,
        d,
        λ x q.
            let same : r ≡ x = ground (arith, q) in
            subst (λ (y : Record). is_absent y.hash ≡ true) same h.0,
      ) in
      (w', ground (arith, legacy_record w r h.0 d, e), tail)

  Unchained-Ready :
      (lines : List Line)
      → All Unchained lines
      → All Unnumbered lines
      → Ready canonical_json sha256_hex namespace lines
  Unchained-Ready lines h n =
      let (w, e, (a, b, c, d, f)) =
        Unchained-walk walk_start (record { last_valid = none; last_seq = 0 }) lines h
          (refl, refl, refl, refl, λ r q. absurd (ground (arith, q))) in
      (
        w,
        e,
        inr (a, Unnumbered-scan (record { last_valid = none; last_seq = 0 }) lines n refl, b, c, f),
      )

  abbrev pub fresh_writers : LogFile → Option Anchor → Shared
  fresh_writers log anchor = record {
    writers = λ i. new_log canonical_json sha256_hex namespace;
    disk = record { log = some log; anchor = anchor };
  }

  -- What the walk says of a record that does not declare the legacy tail before it.
  undeclared :
      (w : Walk) (c legacy : Record) (k : ℕ)
      → Tail w (record { last_valid = some legacy; last_seq = k })
      → c.hash ≡ text (record_hash canonical_json sha256_hex c)
      → c.payload.seq ≡ integer (pos (suc k))
      → is_true c.payload.legacy_linked ≡ false
      → walk_line canonical_json sha256_hex namespace w (object c)
        ≡ failed w.record_count (undeclared_legacy (suc w.record_count))
  unfolding link
  undeclared w c legacy k (last, seq, prev, off, absent) hash number plain =
      chained-link canonical_json sha256_hex namespace w c (suc k) hash number (inl seq)
      ∙ ground (arith, prev, last, plain)

  module _ (size : LogFile → ℕ) where
    -- A log that is empty, or was written before the chain without sequence numbers, verifies after
    -- any sequence of appends by any number of writers that share it and that each open the file for an
    -- append, where any of the writes can fail: taken back, cut off, or whole with a failed sync. The
    -- appended records declare no legacy tail themselves, and a write makes the file larger.
    pub appends_verify :
        (log : LogFile) (anchor : Option Anchor) (calls : List Call)
        → ((before : LogFile) (value : Record)
            → size before < size (helve.HashChain.Log.write before value))
        → All Unchained log.lines
        → All Unnumbered log.lines
        → Intact log
        → All PlainCall calls
        → (verify_chain canonical_json sha256_hex namespace
            (some (
              opened
                (run canonical_json sha256_hex namespace size
                  (fresh_writers log anchor)
                  calls).disk.log))
            none).ok
          ≡ true
    appends_verify log anchor calls grows old unnumbered intact plain =
        let s = fresh_writers log anchor in
        let (sound, knows) =
          run-Consistent canonical_json sha256_hex namespace size grows s calls plain (
            (Unchained-Ready log.lines old unnumbered, inl intact),
            λ i. (refl, inl (refl, λ e. (ground (arith, e), ground (arith, e), ground (arith, e)))),
          ) in
        Sound-verifies canonical_json sha256_hex namespace
          (opened (run canonical_json sha256_hex namespace size s calls).disk.log) sound

    -- Where the legacy records carry sequence numbers, the largest of them above 0, the first record
    -- that a new writer appends does not declare the legacy tail, and the log no longer verifies.
    pub append_after_numbered :
        (log : LogFile) (anchor : Option Anchor) (n : ℕ) (writer : ℕ) (payload : Payload)
        → All Unchained log.lines
        → (scan log.lines).last_seq ≡ suc n
        → log.fragment ≡ none
        → is_true payload.legacy_linked ≡ false
        → (verify_chain canonical_json sha256_hex namespace (some log) none).ok ≡ true
          × ((verify_chain canonical_json sha256_hex namespace
                (some (
                  opened
                    (run canonical_json sha256_hex namespace size (fresh_writers log anchor) (
                      record { writer = writer; wrote = through; payload = payload }
                      ∷ [])).disk.log))
                none).ok
              ≡ false)
    unfolding verify_chain append ensure_loaded reload
    append_after_numbered log anchor n writer payload old numbered whole plain =
        let (w, e, tail) =
          Unchained-walk walk_start (record { last_valid = none; last_seq = 0 }) log.lines old
            (refl, refl, refl, refl, λ r q. absurd (ground (arith, q))) in
        elim (Option-cases (scan log.lines).last_valid) [
          | inl nothing ↦ absurd (
              omega (
                arith,
                numbered,
                scan_from-empty (record { last_valid = none; last_seq = 0 }) log.lines (λ q. refl)
                    nothing,
              ))
          | inr (legacy, last) ↦
              let (a, b, c, d, absent) = tail in
              let tail_is : w.last_legacy ≡ some legacy = sym a ∙ last in
              let gone = absent legacy tail_is in
              let h =
                head_from canonical_json sha256_hex (scan log.lines)
                  (record (new_log canonical_json sha256_hex namespace) {
                    anchor_pending_clear = false;
                  }) in
              let value = chain canonical_json sha256_hex h payload in
              let step =
                undeclared w value legacy (suc n) (sym tail_is, b, c, d, absent) refl
                  (ground (arith, last, gone, numbered))
                  (ground (arith, last, gone, numbered, plain)) in
              let both =
                walk_lines-snoc canonical_json sha256_hex namespace walk_start w
                  (failed w.record_count (undeclared_legacy (suc w.record_count))) log.lines
                  (object value) e step in
              (ground (arith, e, whole), ground (arith, both))
        ]
