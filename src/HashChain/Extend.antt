-- ===== src/HashChain/Extend.antt =====
-- What a log that its writer can extend looks like, and that appending keeps it so.
use helve.Base.{
  ℕ, suc, ◌≡◌, ◌⊎◌, inl, inr, refl, true, false, ◌&&◌, none, some, List, [], ◌∷◌, ◌++◌, arith, ◌==◌,
  Text, text_eq_refl, Option-cases, ◌∙◌,
}
use helve.Base.Int.{pos}
use helve.HashChain.{
  text, integer, is_absent, is_true, is_text, Payload, Record, Document, Line, object, Walk,
  Outcome, walked, walk_start, record_hash, genesis_hash, accept, link, chained, walk_record,
  walk_line, walk_lines,
}
use helve.HashChain.Linked.{Outcome-cases}
use helve.HashChain.Log.{new_log, Scan, scan_line, scan_from, scan, HashChainLog, chain, head_from}

pub scan_from-snoc :
    (s : Scan) (lines : List Line) (line : Line)
    → scan_from s (lines ++ line ∷ []) ≡ scan_line (scan_from s lines) line
scan_from-snoc s [] line = refl
scan_from-snoc s (l ∷ lines) line = scan_from-snoc (scan_line s l) lines line

module _ (canonical_json : Document → Text) (sha256_hex : Text → Text) (namespace : Text) where
  abbrev digest : Record → Text
  digest = record_hash canonical_json sha256_hex

  abbrev pub walks : Walk → List Line → Outcome
  walks = walk_lines canonical_json sha256_hex namespace

  pub walk_lines-snoc :
      (w v : Walk) (o : Outcome) (lines : List Line) (line : Line)
      → walks w lines ≡ walked v
      → walk_line canonical_json sha256_hex namespace v line ≡ o
      → walks w (lines ++ line ∷ []) ≡ o
  walk_lines-snoc w v o [] line e f = ground (arith, e, f)
  walk_lines-snoc w v o (l ∷ lines) line e f =
      elim (Outcome-cases (walk_line canonical_json sha256_hex namespace w l)) [
        | inl (n, x, h) ↦ absurd (ground (arith, e, h))
        | inr (w', h) ↦
            ground (arith, h, walk_lines-snoc w' v o lines line (ground (arith, e, h)) f)
      ]

  -- The walk and the scan agree on the head: the last chained record, or the legacy tail, whose
  -- records carry no number above 0.
  abbrev pub Agree : Walk → Scan → Type 0
  Agree w s =
      ((r : Record) × (s.last_valid ≡ some r)
        × (w.prev_chained_seq ≡ some (pos s.last_seq))
        × (r.hash ≡ text (digest r))
        × (w.prev_chained_hash ≡ some (digest r)))
      ⊎ ((s.last_valid ≡ w.last_legacy)
          × (s.last_seq ≡ 0)
          × (w.prev_chained_seq ≡ none)
          × (w.prev_chained_hash ≡ none)
          × ((r : Record) → w.last_legacy ≡ some r → is_absent r.hash ≡ true))

  -- The lines verify, and the writer finds their head.
  abbrev pub Ready : List Line → Type 0
  Ready lines = (w : Walk) × (walks walk_start lines ≡ walked w) × Agree w (scan lines)

  -- The writer has the head of the lines.
  abbrev pub SameHead : HashChainLog → List Line → Type 0
  SameHead w lines =
      let own =
        head_from canonical_json sha256_hex (scan lines)
          (new_log canonical_json sha256_hex namespace) in
      (w.next_seq ≡ own.next_seq)
      × (w.prev_hash ≡ own.prev_hash)
      × ((w.legacy_linked && w.next_seq == 1) ≡ (own.legacy_linked && own.next_seq == 1))

  abbrev pub after : Walk → Record → ℕ → Walk
  after w c n = record w {
    prev_chained_seq = some (pos n);
    prev_chained_hash = some (record_hash canonical_json sha256_hex c);
    chain_started = true;
    record_count = suc w.record_count;
  }

  accept-after :
      (w : Walk) (c : Record) (n : ℕ) (expected : Text)
      → c.payload.prev_hash ≡ text expected
      → accept canonical_json sha256_hex w c (pos n) expected ≡ walked (after w c n)
  unfolding accept
  accept-after w c n expected e =
      let yes_text : is_text c.payload.prev_hash expected ≡ true = rw e (text_eq_refl expected) in
      rw yes_text refl

  pub chained-link :
      (w : Walk) (c : Record) (n : ℕ)
      → c.hash ≡ text (digest c)
      → c.payload.seq ≡ integer (pos n)
      → ((w.prev_chained_seq ≡ none)
          ⊎ ((m : ℕ) × (w.prev_chained_seq ≡ some (pos m)) × (n ≡ suc m)))
      → walk_line canonical_json sha256_hex namespace w (object c)
        ≡ link canonical_json sha256_hex namespace w c (pos n)
  unfolding walk_record chained
  chained-link w c n h s before =
      let hashed : is_text c.hash (digest c) ≡ true = rw h (text_eq_refl (digest c)) in
      let there : is_absent c.hash ≡ false = rw h refl in
      elim before [
        | inl first ↦ ground (arith, there, s, first, hashed)
        | inr (m, b, step) ↦
            let next : (suc m == suc m) ≡ true = ground arith in
            ground (arith, there, s, step, b, next, hashed)
      ]

  link-before :
      (w : Walk) (c : Record) (n : ℕ) (before : Text)
      → w.prev_chained_hash ≡ some before
      → c.payload.prev_hash ≡ text before
      → link canonical_json sha256_hex namespace w c (pos n) ≡ walked (after w c n)
  unfolding link
  link-before w c n before e f = ground (arith, e, accept-after w c n before f)

  link-genesis :
      (w : Walk) (c : Record) (n : ℕ)
      → w.prev_chained_hash ≡ none
      → w.last_legacy ≡ none
      → is_true c.payload.legacy_linked ≡ false
      → c.payload.prev_hash ≡ text (genesis_hash canonical_json sha256_hex namespace)
      → link canonical_json sha256_hex namespace w c (pos n) ≡ walked (after w c n)
  unfolding link
  link-genesis w c n e l d f =
      ground
        (arith, e, l, d, accept-after w c n (genesis_hash canonical_json sha256_hex namespace) f)

  link-legacy :
      (w : Walk) (c legacy : Record) (n : ℕ)
      → w.prev_chained_hash ≡ none
      → w.last_legacy ≡ some legacy
      → is_true c.payload.legacy_linked ≡ true
      → c.payload.prev_hash ≡ text (digest legacy)
      → link canonical_json sha256_hex namespace w c (pos n) ≡ walked (after w c n)
  unfolding link
  link-legacy w c legacy n e l d f = ground (arith, e, l, d, accept-after w c n (digest legacy) f)

  chain_hash :
      (w : HashChainLog) (payload : Payload)
      → let c = chain canonical_json sha256_hex w payload in c.hash ≡ text (digest c)
  chain_hash w payload = refl

  -- The walk over the record that a writer with the head of the lines would write.
  pub walk-chain :
      (w : Walk) (s : Scan) (h : HashChainLog) (payload : Payload)
      → is_true payload.legacy_linked ≡ false
      → Agree w s
      → let own =
          head_from canonical_json sha256_hex s (new_log canonical_json sha256_hex namespace) in
        (h.next_seq ≡ own.next_seq)
        → (h.prev_hash ≡ own.prev_hash)
        → ((h.legacy_linked && h.next_seq == 1) ≡ (own.legacy_linked && own.next_seq == 1))
        → let c = chain canonical_json sha256_hex h payload in
          (walk_line canonical_json sha256_hex namespace w (object c)
            ≡ walked (after w c h.next_seq))
          × (h.next_seq ≡ suc s.last_seq)
  walk-chain w s h payload plain (inl (r, last, seq, hash, prev)) n p l =
      let there : is_absent r.hash ≡ false = rw hash refl in
      let next : h.next_seq ≡ suc s.last_seq = ground (arith, n, last, there) in
      let c = chain canonical_json sha256_hex h payload in
      (
        chained-link w c h.next_seq refl refl (inr (s.last_seq, seq, next))
            ∙ link-before w c h.next_seq (digest r) prev (ground (arith, p, last, there, hash)),
        next,
      )
  walk-chain w s h payload plain (inr (last, zero_seq, seq, prev, absent)) n p l =
      let c = chain canonical_json sha256_hex h payload in
      elim (Option-cases w.last_legacy) [
        | inl no_tail ↦
            let next : h.next_seq ≡ suc s.last_seq = ground (arith, n, last, no_tail, zero_seq) in
            (
              chained-link w c h.next_seq refl refl (inl seq)
                  ∙ link-genesis w c h.next_seq prev no_tail
                      (ground (arith, plain, l, last, no_tail)) (ground (arith, p, last, no_tail)),
              next,
            )
        | inr (legacy, tail) ↦
            let gone = absent legacy tail in
            let next : h.next_seq ≡ suc s.last_seq =
              ground (arith, n, last, tail, gone, zero_seq) in
            (
              chained-link w c h.next_seq refl refl (inl seq)
                  ∙ link-legacy w c legacy h.next_seq prev tail
                      (ground (arith, l, last, tail, gone, zero_seq, next))
                      (ground (arith, p, last, tail, gone)),
              next,
            )
      ]
