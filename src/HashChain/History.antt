-- ===== src/HashChain/History.antt =====
-- Several writers on one log: any sequence of their appends, those that fail included.
use helve.Base.{
  ℕ, ◌+◌, ◌≡◌, ◌≢◌, ◌≤◌, ◌<◌, ◌⊎◌, inl, inr, refl, true, false, Option, none, some, List, [], ◌∷◌,
  arith, ◌==◌, if◌then◌else◌, Text, Bool-cases, Option-cases, All, ap, sym, ◌∙◌, subst,
}
use helve.HashChain.{
  is_absent, is_true, Payload, Record, Document, Line, unparseable, object, LogFile, Anchor, walked,
  walk_start, walk_line, verify_chain,
}
use helve.HashChain.Log.{
  scan, HashChainLog, Disk, chain, write, append, repair, opened, drop_stale_anchor, Scan,
  after_write, Written, through, rolled_back, left_torn, left_unended, left_whole,
}
use helve.HashChain.Extend.{walk_lines-snoc}
use helve.HashChain.Append.{Knows, Same, ReadyLog, readied, readied-Same, chain-Ready, written-Same}

-- Nothing stands behind the last newline, or what no parser reads.
abbrev pub Intact : LogFile → Type 0
Intact log = (log.fragment ≡ none) ⊎ (log.fragment ≡ some unparseable)

-- One call of `append`: by which writer, how its write ends, and the record.
pub record Call : Type 0 where
  pub writer : ℕ
  pub wrote : Written
  pub payload : Payload

-- The record to append declares no legacy tail itself.
abbrev pub PlainCall : Call → Type 0
PlainCall c = is_true c.payload.legacy_linked ≡ false

through-or_not : (w : Written) → (w ≡ through) ⊎ (w ≢ through)
through-or_not through = inl refl
through-or_not rolled_back = inr λ e. cc
through-or_not left_torn = inr λ e. cc
through-or_not left_unended = inr λ e. cc
through-or_not left_whole = inr λ e. cc

pub record Shared : Type 0 where
  pub writers : ℕ → HashChainLog
  pub disk : Disk

module _ (canonical_json : Document → Text) (sha256_hex : Text → Text) (namespace : Text) where
  -- The log verifies up to its last newline; behind it stands nothing, what no parser reads, or a
  -- record that extends the chain.
  abbrev pub Sound : LogFile → Type 0
  Sound log =
      ReadyLog canonical_json sha256_hex namespace log
      × (Intact log
          ⊎ ((r : Record) × (log.fragment ≡ some (object r))
              × ReadyLog canonical_json sha256_hex namespace (write log r)))

  pub Sound-verifies :
      (log : LogFile)
      → Sound log
      → (verify_chain canonical_json sha256_hex namespace (some log) none).ok ≡ true
  unfolding verify_chain
  Sound-verifies log ((w, walk, agree), inl (inl whole)) = ground (arith, walk, whole)
  Sound-verifies log ((w, walk, agree), inl (inr torn)) = ground (arith, walk, torn)
  Sound-verifies log ((w, walk, agree), inr (r, held, (v, on, agree'))) =
      let step : walk_line canonical_json sha256_hex namespace w (object r) ≡ walked v =
        sym (
          walk_lines-snoc canonical_json sha256_hex namespace walk_start w
            (walk_line canonical_json sha256_hex namespace w (object r)) log.lines (object r) walk
            refl)
        ∙ on in
      ground (arith, walk, held, step)

  module _ (size : LogFile → ℕ) where
    abbrev pub after_call : Shared → ℕ → Option Record × HashChainLog × Disk → Shared
    after_call s k (result, w, disk) = record {
      writers = λ i. if i == k then w else s.writers i;
      disk = disk;
    }

    abbrev pub act : Shared → Call → Shared
    act s c =
        after_call s c.writer
          (append canonical_json sha256_hex size c.wrote c.payload (s.writers c.writer) s.disk)

    abbrev pub run : Shared → List Call → Shared
    run s [] = s
    run s (c ∷ calls) = run (act s c) calls

    append-wrote :
        (payload : Payload) (w : HashChainLog) (disk : Disk)
        → let ready = readied canonical_json sha256_hex namespace size w (opened disk.log) in
          let value = chain canonical_json sha256_hex ready payload in
          let log = write (repair (opened disk.log)) value in
          append canonical_json sha256_hex size through payload w disk ≡ (
            some value,
            record ready {
              prev_hash = value.hash;
              next_seq = ready.next_seq + 1;
              observed_size = some (size log);
            },
            record { log = some log; anchor = drop_stale_anchor w disk.anchor },
          )
    unfolding append
    append-wrote payload w disk = refl

    -- A write that fails leaves the writer without a head.
    append-failed :
        (wrote : Written) (payload : Payload) (w : HashChainLog) (disk : Disk)
        → wrote ≢ through
        → let ready = readied canonical_json sha256_hex namespace size w (opened disk.log) in
          let value = chain canonical_json sha256_hex ready payload in
          append canonical_json sha256_hex size wrote payload w disk ≡ (
            none,
            record ready { loaded = false; observed_size = none },
            record {
              log = some (after_write wrote value (repair (opened disk.log)));
              anchor = drop_stale_anchor w disk.anchor;
            },
          )
    unfolding append
    append-failed through payload w disk other = absurd (other refl)
    append-failed rolled_back payload w disk other = refl
    append-failed left_torn payload w disk other = refl
    append-failed left_unended payload w disk other = refl
    append-failed left_whole payload w disk other = refl

    next_positive :
        (h : HashChainLog) (lines : List Line)
        → Same canonical_json sha256_hex namespace h lines
        → 1 ≤ h.next_seq
    next_positive h lines (n, _, _) = elim (Option-cases (scan lines).last_valid) [
      | inl e ↦ ground (arith, n, e)
      | inr (r, e) ↦ elim (Bool-cases (is_absent r.hash)) [
        | inl a ↦ ground (arith, n, e, a)
        | inr a ↦ ground (arith, n, e, a)
      ]
    ]

    -- The log verifies, and every writer knows its head or knows that it does not.
    abbrev pub Consistent : Shared → Type 0
    Consistent s =
        Sound (opened s.disk.log)
        × ((i : ℕ)
            → Knows canonical_json sha256_hex namespace size (s.writers i)
                (repair (opened s.disk.log)))

    module _ (grows : (log : LogFile) (value : Record) → size log < size (write log value)) where
      others-Knows :
          (v : HashChainLog) (log : LogFile) (value : Record) (n : ℕ)
          → (scan (write log value).lines ≡ record { last_valid = some value; last_seq = n })
          → Knows canonical_json sha256_hex namespace size v log
          → Knows canonical_json sha256_hex namespace size v (write log value)
      others-Knows v log value n scanned (name, inl (off, fresh)) =
          (name, inl (off, λ e. absurd (ground (arith, e, ap (λ s. s.last_valid) scanned))))
      others-Knows v log value n scanned (name, inr (on, inl unseen)) = (name, inr (on, inl unseen))
      others-Knows v log value n scanned (name, inr (on, inr (m, e, le, head))) = (
        name,
        inr (
          on,
          inr (
            m,
            e,
            omega (arith, le, grows log value),
            λ same. absurd (omega (arith, le, same, grows log value)),
          ),
        ),
      )

      each :
          (P : HashChainLog → Type 0) (writers : ℕ → HashChainLog) (w : HashChainLog) (k : ℕ)
          → P w
          → ((i : ℕ) → P (writers i))
          → (i : ℕ) → P (if i == k then w else writers i)
      each P writers w k own others i = elim (Bool-cases (i == k)) [
        | inl h ↦ rw h own
        | inr h ↦ rw h (others i)
      ]

      -- A log after an append: it is sound, and whoever knew the log before knows it now.
      abbrev Leaves : LogFile → LogFile → HashChainLog → Type 0
      Leaves before after own =
          Sound after
          × ((v : HashChainLog)
              → Knows canonical_json sha256_hex namespace size v before
              → Knows canonical_json sha256_hex namespace size v (repair after))
          × Knows canonical_json sha256_hex namespace size own (repair after)

      through-Leaves :
          (lines : List Line) (h : HashChainLog) (payload : Payload)
          → is_true payload.legacy_linked ≡ false
          → let log : LogFile = record { lines = lines; fragment = none } in
            let value = chain canonical_json sha256_hex h payload in
            ReadyLog canonical_json sha256_hex namespace log
            → Same canonical_json sha256_hex namespace h lines
            → h.loaded ≡ true
            → h.namespace ≡ namespace
            → Leaves log (write log value) (record h {
              prev_hash = value.hash;
              next_seq = h.next_seq + 1;
              observed_size = some (size (write log value));
            })
      through-Leaves lines h payload plain ready same on name =
          let log : LogFile = record { lines = lines; fragment = none } in
          let value = chain canonical_json sha256_hex h payload in
          let (ready', scanned) =
            chain-Ready canonical_json sha256_hex namespace lines h payload plain ready same in
          let own =
            written-Same canonical_json sha256_hex namespace lines h payload
              (some (size (write log value))) (next_positive h lines same) scanned in
          (
            (ready', inl (inl refl)),
            λ v knows. others-Knows v log value h.next_seq scanned knows,
            (name, inr (on, inr (size (write log value), refl, omega arith, λ e. own))),
          )

      failed-Leaves :
          (wrote : Written) (lines : List Line) (h : HashChainLog) (payload : Payload)
          → wrote ≢ through
          → is_true payload.legacy_linked ≡ false
          → let log : LogFile = record { lines = lines; fragment = none } in
            let value = chain canonical_json sha256_hex h payload in
            ReadyLog canonical_json sha256_hex namespace log
            → Same canonical_json sha256_hex namespace h lines
            → h.namespace ≡ namespace
            → Leaves log
                (after_write wrote value log)
                (record h { loaded = false; observed_size = none })
      failed-Leaves through lines h payload other plain ready same name = absurd (other refl)
      failed-Leaves rolled_back lines h payload other plain ready same name =
          ((ready, inl (inl refl)), λ v knows. knows, (name, inl (refl, λ e. same)))
      failed-Leaves left_torn lines h payload other plain ready same name =
          ((ready, inl (inr refl)), λ v knows. knows, (name, inl (refl, λ e. same)))
      failed-Leaves left_unended lines h payload other plain ready same name =
          let value = chain canonical_json sha256_hex h payload in
          let longer =
            chain-Ready canonical_json sha256_hex namespace lines h payload plain ready same in
          ((ready, inr (value, refl, longer.0)), λ v knows. knows, (name, inl (refl, λ e. same)))
      failed-Leaves left_whole lines h payload other plain ready same name =
          let log : LogFile = record { lines = lines; fragment = none } in
          let value = chain canonical_json sha256_hex h payload in
          let (ready', scanned) =
            chain-Ready canonical_json sha256_hex namespace lines h payload plain ready same in
          (
            (ready', inl (inl refl)),
            λ v knows. others-Knows v log value h.next_seq scanned knows,
            (
              name,
              inl (refl, λ e. absurd (ground (arith, e, ap (λ (x : Scan). x.last_valid) scanned))),
            ),
          )

      Leaves-Consistent :
          (s : Shared) (k : ℕ) (result : Option Record) (own : HashChainLog) (log : LogFile)
          (anchor : Option Anchor)
          → Leaves (repair (opened s.disk.log)) log own
          → Consistent s
          → Consistent (after_call s k (result, own, record { log = some log; anchor = anchor }))
      Leaves-Consistent s k result own log anchor (sound, keep, mine) (old, knows) = (
        sound,
        each (λ v. Knows canonical_json sha256_hex namespace size v (repair log)) s.writers own k
            mine λ i. keep (s.writers i) (knows i),
      )

      act-Consistent :
          (s : Shared) (c : Call)
          → is_true c.payload.legacy_linked ≡ false
          → Consistent s
          → Consistent (act s c)
      act-Consistent s c plain (sound, knows) =
          let w = s.writers c.writer in
          let lines = (opened s.disk.log).lines in
          let h = readied canonical_json sha256_hex namespace size w (opened s.disk.log) in
          let (same, on, name) =
            readied-Same canonical_json sha256_hex namespace size w (opened s.disk.log)
              (knows c.writer) in
          let is_consistent : Option Record × HashChainLog × Disk → Type 0 =
            λ r. Consistent (after_call s c.writer r) in
          elim (through-or_not c.wrote) [
            | inl wrote ↦
                subst is_consistent
                  (sym (
                    ap (λ b. append canonical_json sha256_hex size b c.payload w s.disk) wrote
                    ∙ append-wrote c.payload w s.disk))
                  (Leaves-Consistent s c.writer (some (chain canonical_json sha256_hex h c.payload))
                    _ _ (drop_stale_anchor w s.disk.anchor)
                    (through-Leaves lines h c.payload plain sound.0 same on name) (sound, knows))
            | inr other ↦
                subst is_consistent (sym (append-failed c.wrote c.payload w s.disk other)) (
                  Leaves-Consistent s c.writer none _ _ (drop_stale_anchor w s.disk.anchor)
                    (failed-Leaves c.wrote lines h c.payload other plain sound.0 same name)
                    (sound, knows))
          ]

      pub run-Consistent :
          (s : Shared) (calls : List Call)
          → All PlainCall calls
          → Consistent s
          → Consistent (run s calls)
      run-Consistent s [] plain h = h
      run-Consistent s (c ∷ calls) plain h =
          run-Consistent (act s c) calls plain.1 (act-Consistent s c plain.0 h)
