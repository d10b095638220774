-- ===== src/HashChain/Tamper.antt =====
-- What the anchor detects.
use helve.Base.{
  ◌≡◌, ◌≢◌, inl, inr, refl, true, false, Option, none, some, List, [], ◌∷◌, arith, Text, All, ap,
  sym, ◌∙◌,
}
use helve.HashChain.{
  Json, absent, null, boolean, integer, text, other, is_true, Payload, Record, Document,
  record_document, genesis_document, LogFile, Anchor, Walk, record_hash, genesis_hash, verify_chain,
  hash_is,
}
use helve.HashChain.Linked.{
  Linked, Follows, Reached, chained_file, verify_chain-Linked, is_text_sound,
}

-- The record declares no legacy tail before it.
abbrev pub Plain : Record → Type 0
Plain r = is_true r.payload.legacy_linked ≡ false

anchored_some :
    (o : Option Text) (t : Text) (j : Json) → o ≡ some t → hash_is o j ≡ true → j ≡ text t
anchored_some none t j e h = absurd (cc)
anchored_some (some u) t j e h = is_text_sound j u h ∙ ap text (ground (arith, e))

anchored_none : (o : Option Text) (j : Json) (t : Text) → o ≡ none → hash_is o j ≡ true → j ≢ text t
anchored_none none absent t e h q = ground (arith, q)
anchored_none none null t e h q = ground (arith, q)
anchored_none none (boolean b) t e h q = ground (arith, q)
anchored_none none (integer n) t e h q = ground (arith, q)
anchored_none none (text s) t e h q = ground (arith, h)
anchored_none none (other s) t e h q = ground (arith, h)
anchored_none (some u) j t e h q = ground (arith, e)

record_same : (r s : Record) → r.payload ≡ s.payload → r.hash ≡ s.hash → r ≡ s
record_same r s p q = ground (arith, p, q)

module _ (canonical_json : Document → Text) (sha256_hex : Text → Text) (namespace : Text) where
  module _
      (no_collision : (d e : Document)
        → sha256_hex (canonical_json d) ≡ sha256_hex (canonical_json e)
        → d ≡ e) where
    abbrev digest : Record → Text
    digest = record_hash canonical_json sha256_hex

    same_payload : (r s : Record) → digest r ≡ digest s → r.payload ≡ s.payload
    same_payload r s e =
        ground (arith, no_collision (record_document r.payload) (record_document s.payload) e)

    no_genesis : (r : Record) → digest r ≢ genesis_hash canonical_json sha256_hex namespace
    no_genesis r e =
        ground (arith, no_collision (record_document r.payload) (genesis_document namespace) e)

    -- A record that follows the genesis does not follow a record.
    not_both :
        (r s x : Record)
        → r.payload ≡ s.payload
        → Plain r
        → Follows canonical_json sha256_hex namespace r []
        → s.payload.prev_hash ≢ text (digest x)
    not_both r s x same plain (inl declared) e = ground (arith, plain, declared)
    not_both r s x same plain (inr g) e =
        no_genesis x (ground (arith, g, e, ap (λ p. p.prev_hash) same))

    -- Two linked lists with the same last record, one of which declares no legacy tail, are the same.
    Linked-same :
        (r s : Record) (rs ss : List Record)
        → digest r ≡ digest s
        → Linked canonical_json sha256_hex namespace (r ∷ rs)
        → Linked canonical_json sha256_hex namespace (s ∷ ss)
        → All Plain (r ∷ rs)
        → s ∷ ss ≡ r ∷ rs
    Linked-same r s [] [] e (a, f, _) (b, g, _) all =
        ap (λ x. x ∷ []) (sym (record_same r s (same_payload r s e) (a ∙ ap text e ∙ sym b)))
    Linked-same r s [] (y ∷ ss) e (a, f, _) (b, g, _) all =
        absurd (not_both r s y (same_payload r s e) all.0 f g)
    Linked-same r s (x ∷ rs) [] e (a, f, _) (b, g, _) all = absurd (
        not_both s r x (sym (same_payload r s e))
          (ap (λ (p : Payload). is_true p.legacy_linked) (sym (same_payload r s e)) ∙ all.0) g f)
    Linked-same r s (x ∷ rs) (y ∷ ss) e (a, f, l) (b, g, k) all =
        let same = record_same r s (same_payload r s e) (a ∙ ap text e ∙ sym b) in
        let before : digest x ≡ digest y =
          ground (arith, f, g, ap (λ p. p.prev_hash) (same_payload r s e)) in
        ground (arith, same, Linked-same x y rs ss before l k all.1)

    -- If both logs verify against the same anchor, and the chained records of the first declare no
    -- legacy tail, then the second has the same chained records in the same order: no edit,
    -- deletion, insertion, reordering or rollback of them goes unnoticed. This rests on the
    -- hypothesis that different documents have different digests.
    pub tampering_detected :
        (log log' : LogFile) (anchor : Anchor)
        → (verify_chain canonical_json sha256_hex namespace (some log) (some anchor)).ok ≡ true
        → (verify_chain canonical_json sha256_hex namespace (some log') (some anchor)).ok ≡ true
        → All Plain (chained_file log)
        → chained_file log' ≡ chained_file log
    tampering_detected log log' anchor ok ok' plain =
        let (w, reached, linked, at) =
          verify_chain-Linked canonical_json sha256_hex namespace log anchor ok in
        let (w', reached', linked', at') =
          verify_chain-Linked canonical_json sha256_hex namespace log' anchor ok' in
        heads_same (chained_file log) (chained_file log') w w' anchor reached reached' linked
          linked' at at' plain
      where
        heads_same :
            (rs ss : List Record) (w w' : Walk) (anchor : Anchor)
            → Reached canonical_json sha256_hex namespace w rs
            → Reached canonical_json sha256_hex namespace w' ss
            → Linked canonical_json sha256_hex namespace rs
            → Linked canonical_json sha256_hex namespace ss
            → hash_is w.prev_chained_hash anchor.hash ≡ true
            → hash_is w'.prev_chained_hash anchor.hash ≡ true
            → All Plain rs
            → ss ≡ rs
        heads_same [] [] w w' anchor m n a b at at' all = refl
        heads_same [] (s ∷ ss) w w' anchor m n a b at at' all = absurd (
            anchored_none w.prev_chained_hash anchor.hash (digest s) m at
              (anchored_some w'.prev_chained_hash (digest s) anchor.hash n at'))
        heads_same (r ∷ rs) [] w w' anchor m n a b at at' all = absurd (
            anchored_none w'.prev_chained_hash anchor.hash (digest r) n at'
              (anchored_some w.prev_chained_hash (digest r) anchor.hash m at))
        heads_same (r ∷ rs) (s ∷ ss) w w' anchor m n a b at at' all =
            Linked-same r s rs ss
              (ground (
                arith,
                anchored_some w.prev_chained_hash (digest r) anchor.hash m at,
                anchored_some w'.prev_chained_hash (digest s) anchor.hash n at',
              ))
              a b all
