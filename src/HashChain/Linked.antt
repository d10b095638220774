-- ===== src/HashChain/Linked.antt =====
-- What a walk without a failure says of the chained records.
use helve.Base.{
  ℕ, ◌≡◌, ◌⊎◌, inl, inr, refl, Bool, true, Option, none, some, List, [], ◌∷◌, arith, if◌then◌else◌,
  Text, text_eq_sound, Bool-cases, Option-cases, ap, sym, ◌∙◌, subst,
}
use helve.Base.Int.{ℤ}
use helve.HashChain.{
  Json, absent, null, boolean, integer, text, other, is_absent, is_true, integer_of, is_text,
  Record, Document, Line, blank, not_object, unparseable, object, LogFile, Anchor, Walk, Failure,
  Outcome, failed, walked, walk_start, record_hash, genesis_hash, accept, link, chained,
  walk_record, walk_line, walk_lines, walk_fragment, walk_file, verify_chain, hash_is,
  out_of_sequence,
}

-- The chained records of the lines, the last one first, before those found earlier.
unfoldable pub chained_records : List Record → List Line → List Record
chained_records older [] = older
chained_records older (object value ∷ lines) =
    let without = chained_records older lines in
    let with_it = chained_records (value ∷ older) lines in
    if is_absent value.hash then without else with_it
chained_records older (_ ∷ lines) = chained_records older lines

abbrev pub fragment_line : Option Line → List Line
fragment_line none = []
fragment_line (some line) = line ∷ []

abbrev pub chained_file : LogFile → List Record
chained_file log = chained_records (chained_records [] log.lines) (fragment_line log.fragment)

pub is_text_sound : (j : Json) (t : Text) → is_text j t ≡ true → j ≡ text t
is_text_sound absent t h = absurd (cc)
is_text_sound null t h = absurd (cc)
is_text_sound (boolean b) t h = absurd (cc)
is_text_sound (integer n) t h = absurd (cc)
is_text_sound (text s) t h = ap text (text_eq_sound s t h)
is_text_sound (other s) t h = absurd (cc)

pub Outcome-cases :
    (o : Outcome) → ((n : ℕ) × (f : Failure) × (o ≡ failed n f)) ⊎ ((w : Walk) × (o ≡ walked w))
Outcome-cases (failed n f) = inl (n, f, refl)
Outcome-cases (walked w) = inr (w, refl)

Walked-cases :
    (p : Outcome × Bool)
    → ((n : ℕ) × (f : Failure) × (torn : Bool) × (p ≡ (failed n f, torn)))
      ⊎ ((w : Walk) × (torn : Bool) × (p ≡ (walked w, torn)))
Walked-cases (failed n f, torn) = inl (n, f, torn, refl)
Walked-cases (walked w, torn) = inr (w, torn, refl)

module _ (canonical_json : Document → Text) (sha256_hex : Text → Text) (namespace : Text) where
  abbrev digest : Record → Text
  digest = record_hash canonical_json sha256_hex

  -- A first record that declares no legacy tail stands on the genesis of the namespace.
  abbrev pub Follows : Record → List Record → Type 0
  Follows r [] =
      (is_true r.payload.legacy_linked ≡ true)
      ⊎ (r.payload.prev_hash ≡ text (genesis_hash canonical_json sha256_hex namespace))
  Follows r (before ∷ older) =
      r.payload.prev_hash ≡ text (record_hash canonical_json sha256_hex before)

  -- Each record carries its own hash and that of the one before it, which is the next of the list.
  abbrev pub Linked : List Record → Type 0
  Linked [] = Unit {0}
  Linked (r ∷ older) =
      (r.hash ≡ text (record_hash canonical_json sha256_hex r)) × Follows r older × Linked older

  abbrev pub Reached : Walk → List Record → Type 0
  Reached w [] = w.prev_chained_hash ≡ none
  Reached w (r ∷ older) = w.prev_chained_hash ≡ some (record_hash canonical_json sha256_hex r)

  accept-walked :
      (w w' : Walk) (r : Record) (seq : ℤ) (expected : Text)
      → accept canonical_json sha256_hex w r seq expected ≡ walked w'
      → (r.payload.prev_hash ≡ text expected) × (w'.prev_chained_hash ≡ some (digest r))
  unfolding accept
  accept-walked w w' r seq expected e = elim (Bool-cases (is_text r.payload.prev_hash expected)) [
    | inl h ↦ (is_text_sound r.payload.prev_hash expected h, ground (arith, e, h))
    | inr h ↦ absurd (ground (arith, e, h))
  ]

  link-walked :
      (w w' : Walk) (r : Record) (seq : ℤ) (older : List Record)
      → link canonical_json sha256_hex namespace w r seq ≡ walked w'
      → Reached w older
      → Follows r older × Reached w' (r ∷ older)
  unfolding link
  link-walked w w' r seq (before ∷ older) e reached =
      accept-walked w w' r seq (digest before) (ground (arith, e, reached))
  link-walked w w' r seq [] e reached = elim (Bool-cases (is_true r.payload.legacy_linked)) [
    | inl declared ↦ elim (Option-cases w.last_legacy) [
      | inl l ↦ absurd (ground (arith, e, reached, declared, l))
      | inr (legacy, l) ↦ (
        inl declared,
        (accept-walked w w' r seq (digest legacy) (ground (arith, e, reached, declared, l))).1,
      )
    ]
    | inr plain ↦ elim (Option-cases w.last_legacy) [
      | inr (legacy, l) ↦ absurd (ground (arith, e, reached, plain, l))
      | inl l ↦
          let (a, b) =
            accept-walked w w' r seq (genesis_hash canonical_json sha256_hex namespace)
              (ground (arith, e, reached, plain, l)) in
          (inr a, b)
    ]
  ]

  chained-walked :
      (w w' : Walk) (r : Record) (seq : ℤ) (older : List Record)
      → chained canonical_json sha256_hex namespace w r seq ≡ walked w'
      → Reached w older
      → Linked older
      → Reached w' (r ∷ older) × Linked (r ∷ older)
  unfolding chained
  chained-walked w w' r seq older e reached linked =
      elim (Bool-cases (out_of_sequence w.prev_chained_seq seq)) [
        | inl gap ↦ absurd (ground (arith, e, gap))
        | inr next ↦ elim (Bool-cases (is_text r.hash (digest r))) [
          | inr wrong ↦ absurd (ground (arith, e, next, wrong))
          | inl right ↦
              let (a, b) = link-walked w w' r seq older (ground (arith, e, next, right)) reached in
              (b, (is_text_sound r.hash (digest r) right, a, linked))
        ]
      ]

  walk_record-walked :
      (w w' : Walk) (r : Record) (older : List Record)
      → walk_record canonical_json sha256_hex namespace w r ≡ walked w'
      → Reached w older
      → Linked older
      → let now = if is_absent r.hash then older else r ∷ older in Reached w' now × Linked now
  unfolding walk_record
  walk_record-walked w w' r older e reached linked = elim (Bool-cases (is_absent r.hash)) [
    | inr there ↦ elim (Option-cases (integer_of r.payload.seq)) [
      | inl bad ↦ absurd (ground (arith, e, there, bad))
      | inr (seq, s) ↦
          rw there (chained-walked w w' r seq older (ground (arith, e, there, s)) reached linked)
    ]
    | inl legacy ↦ elim (Bool-cases w.chain_started) [
      | inl started ↦ absurd (ground (arith, e, legacy, started))
      | inr before ↦
          let same : w.prev_chained_hash ≡ w'.prev_chained_hash =
            ground (arith, e, legacy, before) in
          rw legacy (Reached-same w w' older same reached, linked)
    ]
  ]
    where
      Reached-same :
          (w w' : Walk) (older : List Record)
          → w.prev_chained_hash ≡ w'.prev_chained_hash
          → Reached w older
          → Reached w' older
      Reached-same w w' [] same reached = sym same ∙ reached
      Reached-same w w' (x ∷ older) same reached = sym same ∙ reached

  walk_line-walked :
      (w w' : Walk) (line : Line) (older : List Record)
      → walk_line canonical_json sha256_hex namespace w line ≡ walked w'
      → Reached w older
      → Linked older
      → Reached w' (chained_records older (line ∷ [])) × Linked (chained_records older (line ∷ []))
  unfolding chained_records
  walk_line-walked w w' blank older e reached linked =
      let same : w ≡ w' = ground (arith, e) in
      subst (λ v. Reached v older × Linked older) same (reached, linked)
  walk_line-walked w w' not_object older e reached linked = absurd (ground (arith, e))
  walk_line-walked w w' unparseable older e reached linked = absurd (ground (arith, e))
  walk_line-walked w w' (object r) older e reached linked =
      walk_record-walked w w' r older e reached linked

  chained_records-step :
      (older : List Record) (line : Line) (lines : List Line)
      → chained_records older (line ∷ lines)
        ≡ chained_records (chained_records older (line ∷ [])) lines
  unfolding chained_records
  chained_records-step older blank lines = refl
  chained_records-step older not_object lines = refl
  chained_records-step older unparseable lines = refl
  chained_records-step older (object r) lines = elim (Bool-cases (is_absent r.hash)) [
    | inl h ↦ rw h refl
    | inr h ↦ rw h refl
  ]

  walk_lines-walked :
      (w w' : Walk) (lines : List Line) (older : List Record)
      → walk_lines canonical_json sha256_hex namespace w lines ≡ walked w'
      → Reached w older
      → Linked older
      → Reached w' (chained_records older lines) × Linked (chained_records older lines)
  unfolding chained_records
  walk_lines-walked w w' [] older e reached linked =
      walk_line-walked w w' blank older e reached linked
  walk_lines-walked w w' (line ∷ lines) older e reached linked =
      elim (Outcome-cases (walk_line canonical_json sha256_hex namespace w line)) [
        | inl (n, f, h) ↦ absurd (ground (arith, e, h))
        | inr (v, h) ↦
            let (a, b) = walk_line-walked w v line older h reached linked in
            rw (chained_records-step older line lines) (
              walk_lines-walked v w' lines (chained_records older (line ∷ []))
                (ground (arith, e, h)) a b)
      ]

  walk_fragment-walked :
      (w w' : Walk) (torn : Bool) (fragment : Option Line) (older : List Record)
      → walk_fragment canonical_json sha256_hex namespace w fragment ≡ (walked w', torn)
      → Reached w older
      → Linked older
      → Reached w' (chained_records older (fragment_line fragment))
        × Linked (chained_records older (fragment_line fragment))
  unfolding chained_records
  walk_fragment-walked w w' torn none older e reached linked =
      walk_line-walked w w' blank older (ap (λ p. p.0) e) reached linked
  walk_fragment-walked w w' torn (some blank) older e reached linked =
      walk_line-walked w w' blank older (ap (λ p. p.0) e) reached linked
  walk_fragment-walked w w' torn (some not_object) older e reached linked =
      absurd (ground (arith, e))
  walk_fragment-walked w w' torn (some unparseable) older e reached linked =
      walk_line-walked w w' blank older (ap (λ p. p.0) e) reached linked
  walk_fragment-walked w w' torn (some (object r)) older e reached linked =
      walk_line-walked w w' (object r) older (ap (λ p. p.0) e) reached linked

  walk_file-walked :
      (w' : Walk) (torn : Bool) (log : LogFile)
      → walk_file canonical_json sha256_hex namespace log ≡ (walked w', torn)
      → Reached w' (chained_file log) × Linked (chained_file log)
  walk_file-walked w' torn log e =
      elim (Outcome-cases (walk_lines canonical_json sha256_hex namespace walk_start log.lines)) [
        | inl (n, f, h) ↦ absurd (ground (arith, e, h))
        | inr (v, h) ↦
            let (a, b) = walk_lines-walked walk_start v log.lines [] h refl tt in
            walk_fragment-walked v w' torn log.fragment (chained_records [] log.lines)
              (ground (arith, e, h)) a b
      ]

  -- A log that verifies against an anchor is linked, and the anchor holds the hash of its last
  -- chained record.
  pub verify_chain-Linked :
      (log : LogFile) (anchor : Anchor)
      → (verify_chain canonical_json sha256_hex namespace (some log) (some anchor)).ok ≡ true
      → (w : Walk) × Reached w (chained_file log)
        × Linked (chained_file log)
        × (hash_is w.prev_chained_hash anchor.hash ≡ true)
  unfolding verify_chain
  verify_chain-Linked log anchor ok =
      elim (Walked-cases (walk_file canonical_json sha256_hex namespace log)) [
        | inl (n, f, torn, h) ↦ absurd (ground (arith, ok, h))
        | inr (w, torn, h) ↦
            let (a, b) = walk_file-walked w torn log h in (w, a, b, ground (arith, ok, h))
      ]
