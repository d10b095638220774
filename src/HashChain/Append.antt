-- ===== src/HashChain/Append.antt =====
-- Appending, by one writer or by several, keeps a log that verifies.
use helve.Base.{
  ℕ, ◌+◌, ◌≡◌, ◌≤◌, ◌⊎◌, inl, inr, refl, true, false, ◌&&◌, Option, none, some, List, [], ◌∷◌, ◌++◌,
  arith, ◌==◌, Text, Bool-cases, Option-cases, ap, sym, ◌∙◌, subst,
}
use helve.HashChain.{
  text, is_absent, is_true, Payload, Document, Line, object, LogFile, walked, walk_start,
  genesis_hash,
}
use helve.HashChain.Log.{
  new_log, Scan, scan, HashChainLog, chain, head_from, ensure_loaded, reload, size_is, repair,
}
use helve.HashChain.Extend.{
  scan_from-snoc, walk_lines-snoc, Agree, Ready, SameHead, walk-chain, after,
}

module _ (canonical_json : Document → Text) (sha256_hex : Text → Text) (namespace : Text) where
  abbrev pub ReadyLog : LogFile → Type 0
  ReadyLog log = Ready canonical_json sha256_hex namespace log.lines

  abbrev pub Same : HashChainLog → List Line → Type 0
  Same = SameHead canonical_json sha256_hex namespace

  pub chain-Ready :
      (lines : List Line) (h : HashChainLog) (payload : Payload)
      → is_true payload.legacy_linked ≡ false
      → Ready canonical_json sha256_hex namespace lines
      → Same h lines
      → let c = chain canonical_json sha256_hex h payload in
        Ready canonical_json sha256_hex namespace (lines ++ object c ∷ [])
        × (scan (lines ++ object c ∷ []) ≡ record { last_valid = some c; last_seq = h.next_seq })
  chain-Ready lines h payload plain (w, walk, agree) (n, p, l) =
      let c = chain canonical_json sha256_hex h payload in
      let (step, next) =
        walk-chain canonical_json sha256_hex namespace w (scan lines) h payload plain agree n p l in
      let scanned : scan (lines ++ object c ∷ [])
          ≡ record { last_valid = some c; last_seq = h.next_seq } =
        scan_from-snoc (record { last_valid = none; last_seq = 0 }) lines (object c)
        ∙ ap (λ (m : ℕ). record { last_valid = some c; last_seq = m }) (omega (arith, next)) in
      (
        (
          after canonical_json sha256_hex namespace w c h.next_seq,
          walk_lines-snoc canonical_json sha256_hex namespace walk_start w
              (walked (after canonical_json sha256_hex namespace w c h.next_seq)) lines (object c)
              walk step,
          subst
              (Agree canonical_json sha256_hex namespace
                (after canonical_json sha256_hex namespace w c h.next_seq))
              (sym scanned) (inl (c, refl, refl, refl, refl)),
        ),
        scanned,
      )

  pub written-Same :
      (lines : List Line) (h : HashChainLog) (payload : Payload) (size : Option ℕ)
      → (1 ≤ h.next_seq)
      → let c = chain canonical_json sha256_hex h payload in
        (scan (lines ++ object c ∷ []) ≡ record { last_valid = some c; last_seq = h.next_seq })
        → Same
            (record h { prev_hash = c.hash; next_seq = h.next_seq + 1; observed_size = size })
            (lines ++ object c ∷ [])
  written-Same lines h payload size low scanned =
      subst
        (λ (s : Scan).
          let own =
            head_from canonical_json sha256_hex s (new_log canonical_json sha256_hex namespace) in
          (h.next_seq + 1 ≡ own.next_seq)
          × ((chain canonical_json sha256_hex h payload).hash ≡ own.prev_hash)
          × ((h.legacy_linked && (h.next_seq + 1) == 1) ≡ (own.legacy_linked && own.next_seq == 1)))
        (sym scanned) (refl, refl, ground (arith, low))

  head-Same :
      (lines : List Line) (w : HashChainLog)
      → ((scan lines).last_valid ≡ none → Same w lines)
      → Same (head_from canonical_json sha256_hex (scan lines) w) lines
        × ((head_from canonical_json sha256_hex (scan lines) w).loaded ≡ true)
        × ((head_from canonical_json sha256_hex (scan lines) w).namespace ≡ w.namespace)
  head-Same lines w fresh = elim (Option-cases (scan lines).last_valid) [
    | inl e ↦
        let (a, b, c) = fresh e in
        (
          (ground (arith, e, a), ground (arith, e, b), ground (arith, e, c)),
          ground (arith, e),
          ground (arith, e),
        )
    | inr (r, e) ↦ elim (Bool-cases (is_absent r.hash)) [
      | inl h ↦ (
        (ground (arith, e, h), ground (arith, e, h), ground (arith, e, h)),
        ground (arith, e, h),
        ground (arith, e, h),
      )
      | inr h ↦ (
        (ground (arith, e, h), ground (arith, e, h), ground (arith, e, h)),
        ground (arith, e, h),
        ground (arith, e, h),
      )
    ]
  ]

  module _ (size : LogFile → ℕ) where
    -- What a writer has read of the log: nothing, or a head that is that of the log if its size says
    -- that nobody has written since.
    abbrev pub Knows : HashChainLog → LogFile → Type 0
    Knows w log =
        (w.namespace ≡ namespace)
        × (((w.loaded ≡ false) × ((scan log.lines).last_valid ≡ none → Same w log.lines))
            ⊎ ((w.loaded ≡ true)
                × ((w.observed_size ≡ none)
                    ⊎ ((n : ℕ) × (w.observed_size ≡ some n)
                        × (n ≤ size log)
                        × (n ≡ size log → Same w log.lines)))))

    -- The writer as `append` has it when it chains the record.
    abbrev pub readied : HashChainLog → LogFile → HashChainLog
    readied w log = ensure_loaded canonical_json sha256_hex (some (repair log)) (
        reload canonical_json sha256_hex size (some (repair log))
          (record w { anchor_pending_clear = false }))

    abbrev pub Loaded : HashChainLog → LogFile → Type 0
    Loaded r log = Same r log.lines × (r.loaded ≡ true) × (r.namespace ≡ namespace)

    loads :
        (w : HashChainLog) (log : LogFile)
        → w.loaded ≡ false
        → w.namespace ≡ namespace
        → ((scan log.lines).last_valid ≡ none → Same w log.lines)
        → let r = ensure_loaded canonical_json sha256_hex (some (repair log)) w in
          Same r log.lines × (r.loaded ≡ true) × (r.namespace ≡ namespace)
    unfolding ensure_loaded
    loads w log off name fresh =
        let (a, b, c) = head-Same log.lines w fresh in rw off (a, b, c ∙ name)

    stays :
        (w : HashChainLog) (log : Option LogFile)
        → w.loaded ≡ true
        → ensure_loaded canonical_json sha256_hex log w ≡ w
    unfolding ensure_loaded
    stays w log on = ground (arith, on)

    reload_off :
        (w : HashChainLog) (log : LogFile)
        → (w.loaded ≡ false) ⊎ (size_is w.observed_size (size log) ≡ true)
        → reload canonical_json sha256_hex size (some log) w ≡ w
    unfolding reload
    reload_off w log (inl off) = ground (arith, off)
    reload_off w log (inr same) = ground (arith, same)

    reload_again :
        (w : HashChainLog) (log : LogFile)
        → w.loaded ≡ true
        → size_is w.observed_size (size log) ≡ false
        → reload canonical_json sha256_hex size (some log) w
          ≡ ensure_loaded canonical_json sha256_hex (some log) (record w {
            loaded = false;
            next_seq = 1;
            prev_hash = text (genesis_hash canonical_json sha256_hex w.namespace);
            legacy_linked = false;
          })
    unfolding reload
    reload_again w log on other = ground (arith, on, other)

    pub readied-Same :
        (w : HashChainLog) (log : LogFile) → Knows w (repair log) → Loaded (readied w log) log
    readied-Same w log (name, inl (off, fresh)) =
        subst (λ r. Loaded (ensure_loaded canonical_json sha256_hex (some (repair log)) r) log)
          (sym (reload_off (record w { anchor_pending_clear = false }) (repair log) (inl off)))
          (loads (record w { anchor_pending_clear = false }) log off name fresh)
    readied-Same w log (name, inr (on, seen)) =
        let v = record w { anchor_pending_clear = false } in
        elim (Bool-cases (size_is w.observed_size (size (repair log)))) [
          | inr other ↦
              let start = record v {
                loaded = false;
                next_seq = 1;
                prev_hash = text (genesis_hash canonical_json sha256_hex w.namespace);
                legacy_linked = false;
              } in
              let good =
                loads start log refl name
                  (λ e. (ground (arith, e), ground (arith, e, name), ground (arith, e))) in
              subst
                (λ r. Loaded (ensure_loaded canonical_json sha256_hex (some (repair log)) r) log)
                (sym (reload_again v (repair log) on other))
                (subst (λ r. Loaded r log)
                  (sym (
                    stays (ensure_loaded canonical_json sha256_hex (some (repair log)) start)
                      (some (repair log)) good.1))
                  good)
          | inl same ↦
              subst
                (λ r. Loaded (ensure_loaded canonical_json sha256_hex (some (repair log)) r) log)
                (sym (reload_off v (repair log) (inr same)))
                (subst (λ r. Loaded r log) (sym (stays v (some (repair log)) on))
                  (
                    elim seen [
                      | inl unseen ↦ absurd (ground (arith, unseen, same))
                      | inr (n, e, le, head) ↦ head (ground (arith, e, same))
                    ],
                    on,
                    name,
                  ))
        ]
