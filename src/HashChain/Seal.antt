-- ===== src/HashChain/Seal.antt =====
-- What a seal is worth: the anchor that it writes, verified against the log.
use helve.Base.{
  ℕ, ◌+◌, ◌-◌, ◌≡◌, inl, inr, refl, Bool, true, false, ◌&&◌, not, Option, none, some, arith, ◌==◌,
  Text, text_eq_refl, Option-cases,
}
use helve.Base.Int.{pos}
use helve.HashChain.{
  integer, text, is_absent, Record, Document, LogFile, Anchor, record_hash, verify_chain, seq_is,
  hash_is,
}
use helve.HashChain.Log.{new_log, seal, ensure_loaded, reload, scan, verify}
use helve.HashChain.Extend.{Ready}

-- There is a last object, and it is chained.
abbrev pub ends_chained : Option Record → Bool
ends_chained none = false
ends_chained (some r) = not (is_absent r.hash)

module _ (canonical_json : Document → Text) (sha256_hex : Text → Text) (namespace : Text)
    (size : LogFile → ℕ) where
  anchor_matches_head :
      (n : ℕ) (t : Text)
      → (seq_is (some (pos n)) (integer (pos (n + 1 - 1))) && hash_is (some t) (text t)) ≡ true
  anchor_matches_head n t =
      let same : n + 1 - 1 ≡ n = omega arith in
      let eq : (n == n) ≡ true = ground arith in rw (same, eq, text_eq_refl t) refl

  -- Where the lines of a log verify and the scan finds the head that the walk ends on, the log
  -- verifies against the anchor that a new writer's seal gives it exactly if its last record is a
  -- chained one; after a seal of an empty log or of legacy records alone it does not.
  pub seal-verify :
      (log : LogFile) (anchor : Option Anchor)
      → Ready canonical_json sha256_hex namespace log.lines
      → log.fragment ≡ none
      → let (w, disk) =
          seal canonical_json sha256_hex size
            (new_log canonical_json sha256_hex namespace)
            (record { log = some log; anchor = anchor }) in
        (verify canonical_json sha256_hex w disk).ok ≡ ends_chained (scan log.lines).last_valid
  unfolding seal ensure_loaded reload verify_chain
  seal-verify log anchor (w, walk, inl (r, last, seq, hash, prev)) whole = ground (
    arith,
    walk,
    last,
    seq,
    hash,
    prev,
    whole,
    anchor_matches_head (scan log.lines).last_seq (record_hash canonical_json sha256_hex r),
  )
  seal-verify log anchor (w, walk, inr (last, zero_seq, seq, prev, absent)) whole =
      elim (Option-cases w.last_legacy) [
        | inl nothing ↦ ground (arith, walk, last, zero_seq, seq, prev, whole, nothing)
        | inr (r, tail) ↦
            ground (arith, walk, last, zero_seq, seq, prev, whole, tail, absent r tail)
      ]
