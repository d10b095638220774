-- ===== src/HashChain/Edits.antt =====
-- What an edit of the legacy records before the last one does to the verification: nothing.
use helve.Base.{◌≡◌, inl, inr, true, Option, some, List, [], ◌∷◌, ◌++◌, arith, Text, Bool-cases}
use helve.HashChain.{
  is_absent, Record, Document, Line, object, Anchor, Walk, walk_start, walk_record, walk_line,
  verify_chain,
}
use helve.HashChain.Linked.{Outcome-cases}
use helve.HashChain.Extend.{walks}

module _ (canonical_json : Document → Text) (sha256_hex : Text → Text) (namespace : Text) where
  walks-append :
      (w : Walk) (before xs ys : List Line)
      → ((v : Walk)
          → walks canonical_json sha256_hex namespace v xs
            ≡ walks canonical_json sha256_hex namespace v ys)
      → walks canonical_json sha256_hex namespace w (before ++ xs)
        ≡ walks canonical_json sha256_hex namespace w (before ++ ys)
  walks-append w [] xs ys h = h w
  walks-append w (line ∷ before) xs ys h =
      elim (Outcome-cases (walk_line canonical_json sha256_hex namespace w line)) [
        | inl (n, f, e) ↦ ground (arith, e)
        | inr (v, e) ↦ ground (arith, e, walks-append v before xs ys h)
      ]

  replaced :
      (a a' b : Record) (rest : List Line)
      → is_absent a.hash ≡ true
      → is_absent a'.hash ≡ true
      → is_absent b.hash ≡ true
      → (v : Walk)
      → walks canonical_json sha256_hex namespace v (object a ∷ object b ∷ rest)
        ≡ walks canonical_json sha256_hex namespace v (object a' ∷ object b ∷ rest)
  unfolding walk_record
  replaced a a' b rest ha ha' hb v = elim (Bool-cases v.chain_started) [
    | inl on ↦ ground (arith, ha, ha', on)
    | inr off ↦ ground (arith, ha, ha', hb, off)
  ]

  -- A legacy record that another one follows may be replaced by any record without a hash: the
  -- verification answers the same.
  pub legacy_edit_unseen :
      (before : List Line) (a a' b : Record) (rest : List Line) (fragment : Option Line)
      (anchor : Option Anchor)
      → is_absent a.hash ≡ true
      → is_absent a'.hash ≡ true
      → is_absent b.hash ≡ true
      → verify_chain canonical_json sha256_hex namespace
          (some (record { lines = before ++ object a ∷ object b ∷ rest; fragment = fragment }))
          anchor
        ≡ verify_chain canonical_json sha256_hex namespace
            (some (record { lines = before ++ object a' ∷ object b ∷ rest; fragment = fragment }))
            anchor
  unfolding verify_chain
  legacy_edit_unseen before a a' b rest fragment anchor ha ha' hb = ground (
    arith,
    walks-append walk_start before (object a ∷ object b ∷ rest) (object a' ∷ object b ∷ rest)
        (replaced a a' b rest ha ha' hb),
  )
