-- ===== src/Ledger/Repeat.antt =====
-- engine/tool/ledger.py: which calls of a run, and of the run that resumes it, share a key.
use helve.Base.{
  ℕ, suc, ◌≡◌, refl, sym, ap, ◌∙◌, String, Bool, true, false, ◌||◌, none, List, [], ◌∷◌,
  if◌then◌else◌, str_eq, eq_iff, arith, Bool-cases, inl, inr, leb,
}
use helve.Base.Dict.{get, put, get-put}
use helve.Ledger.{Table}
use helve.Ledger.Keys.{
  Keys, new_keys, Call, occurrence_key, persisted_occurrences, or_zero, semantic_key, prior,
  idempotency_key_for, keys_for,
}

abbrev pub count_of : String → List String → ℕ
count_of s [] = 0
count_of s (x ∷ xs) = if str_eq x s then suc (count_of s xs) else count_of s xs

abbrev pub is_in : String → List String → Bool
is_in s [] = false
is_in s (x ∷ xs) = str_eq x s || is_in s xs

module _ {ℓ} {A : Type ℓ} (dumps : String → A → String) (sha256 : String → String) where
  -- The keys by counting: `seen` are the digests of the earlier calls.
  abbrev pub numbered : List String → List (Call A × Table) → List String
  numbered seen [] = []
  numbered seen ((call, table) ∷ history) =
      let s = semantic_key dumps sha256 call in
      occurrence_key s (suc (count_of s seen)) ∷ numbered (s ∷ seen) history

  -- No call identifier occurs twice, or among `ids`.
  abbrev pub AllNew : List String → List (Call A × Table) → Type 0
  AllNew ids [] = Unit {0}
  AllNew ids ((call, table) ∷ history) =
      (is_in call.call_id ids ≡ false) × AllNew (call.call_id ∷ ids) history

  module _ (run_id : String) (replay_existing : Bool) where
    -- The table shows no more calls alike than the ledger has numbered, or the ledger does not look.
    abbrev pub NoneForeign : List String → List (Call A × Table) → Type 0
    NoneForeign seen [] = Unit {0}
    NoneForeign seen ((call, table) ∷ history) =
        let s = semantic_key dumps sha256 call in
        ((if replay_existing
            then true
            else leb (persisted_occurrences run_id s table) (count_of s seen))
          ≡ true)
        × NoneForeign (s ∷ seen) history

    record Counts (ids seen : List String) (keys : Keys) : Type 0 where
      known : (id : String) → is_in id ids ≡ false → get id keys.call_keys ≡ none
      counted : (s : String) → or_zero (get s keys.semantic_occurrences) ≡ count_of s seen

    prior-counted :
        (s : String) (table : Table) (ids seen : List String) (keys : Keys)
        → Counts ids seen keys
        → (if replay_existing
            then true
            else leb (persisted_occurrences run_id s table) (count_of s seen))
          ≡ true
        → prior dumps sha256 run_id replay_existing s table keys ≡ count_of s seen
    prior-counted s table ids seen keys c h = elim (Bool-cases replay_existing) [
      | inl r ↦ ground (arith, r, c.counted s)
      | inr r ↦ ground (arith, r, h, c.counted s)
    ]

    new_key-Counts :
        (call : Call A) (occurrence : ℕ) (key : String) (ids seen : List String) (keys : Keys)
        → Counts ids seen keys
        → occurrence ≡ suc (count_of (semantic_key dumps sha256 call) seen)
        → Counts (call.call_id ∷ ids) (semantic_key dumps sha256 call ∷ seen) (record {
          call_keys = put call.call_id key keys.call_keys;
          semantic_occurrences =
              put (semantic_key dumps sha256 call) occurrence keys.semantic_occurrences;
        })
    new_key-Counts call occurrence key ids seen keys c e = record {
      known = λ id h. ground (arith, h, c.known id, get-put call.call_id id key keys.call_keys);
      counted = λ s. ground (
        arith,
        e,
        c.counted s,
        eq_iff (semantic_key dumps sha256 call) s,
        get-put (semantic_key dumps sha256 call) s occurrence keys.semantic_occurrences,
      );
    }

    keys_for-counted :
        (history : List (Call A × Table)) (ids seen : List String) (keys : Keys)
        → Counts ids seen keys
        → AllNew ids history
        → NoneForeign seen history
        → keys_for dumps sha256 run_id replay_existing history keys ≡ numbered seen history
    unfolding keys_for idempotency_key_for
    keys_for-counted [] ids seen keys c new own = refl
    keys_for-counted ((call, table) ∷ history) ids seen keys c (fresh, new) (mine, own) =
        let s = semantic_key dumps sha256 call in
        let unknown = c.known call.call_id fresh in
        let occurrence = prior-counted s table ids seen keys c mine in
        let after =
          new_key-Counts call (suc (count_of s seen)) (occurrence_key s (suc (count_of s seen))) ids
            seen keys c refl in
        let later = keys_for-counted history (call.call_id ∷ ids) (s ∷ seen) _ after new own in
        rw unknown (
          rw occurrence
            (ap (λ (rest : List String). occurrence_key s (suc (count_of s seen)) ∷ rest) later))

module _ {ℓ} {A : Type ℓ} (dumps : String → A → String) (sha256 : String → String) where
  abbrev pub digests : List (Call A × Table) → List String
  digests [] = []
  digests ((call, table) ∷ history) = semantic_key dumps sha256 call ∷ digests history

  numbered-same :
      (seen : List String) (h k : List (Call A × Table))
      → digests h ≡ digests k
      → numbered dumps sha256 seen h ≡ numbered dumps sha256 seen k
  numbered-same seen [] [] e = refl
  numbered-same seen [] (b ∷ k) e = absurd (cc)
  numbered-same seen (a ∷ h) [] e = absurd (cc)
  numbered-same seen ((a, t) ∷ h) ((b, u) ∷ k) e =
      let first : semantic_key dumps sha256 a ≡ semantic_key dumps sha256 b = cc in
      let rest : digests h ≡ digests k = cc in
      let later = numbered-same (semantic_key dumps sha256 a ∷ seen) h k rest in
      later_numbered seen a b t u h k first later
    where
      later_numbered :
          (seen : List String) (a b : Call A) (t u : Table) (h k : List (Call A × Table))
          → semantic_key dumps sha256 a ≡ semantic_key dumps sha256 b
          → numbered dumps sha256 (semantic_key dumps sha256 a ∷ seen) h
            ≡ numbered dumps sha256 (semantic_key dumps sha256 a ∷ seen) k
          → numbered dumps sha256 seen ((a, t) ∷ h) ≡ numbered dumps sha256 seen ((b, u) ∷ k)
      later_numbered seen a b t u h k first later =
          ap
            (λ (rest : List String).
              occurrence_key (semantic_key dumps sha256 a)
                (suc (count_of (semantic_key dumps sha256 a) seen))
              ∷ rest)
            later
          ∙ ap
              (λ (s : String).
                occurrence_key s (suc (count_of s seen)) ∷ numbered dumps sha256 (s ∷ seen) k)
              first

  NoneForeign-replaying :
      (run_id : String) (seen : List String) (h : List (Call A × Table))
      → NoneForeign dumps sha256 run_id true seen h
  NoneForeign-replaying run_id seen [] = tt
  NoneForeign-replaying run_id seen ((call, table) ∷ h) =
      (refl, NoneForeign-replaying run_id (semantic_key dumps sha256 call ∷ seen) h)

  new_keys-Counts :
      (run_id : String) (replaying : Bool) → Counts dumps sha256 run_id replaying [] [] new_keys
  unfolding get
  new_keys-Counts run_id replaying = record { known = λ id h. refl; counted = λ s. refl }

  -- A run that is resumed gives the calls that it repeats, tool by tool and argument by argument in the same order, the
  -- keys that the first run gave them, whatever identifiers the calls have, where no identifier occurs twice in
  -- a run, and the first run found in the table no more alike calls of the run than it had made.
  pub keys_for-resumed :
      (run_id : String) (first second : List (Call A × Table))
      → AllNew dumps sha256 [] first
      → AllNew dumps sha256 [] second
      → NoneForeign dumps sha256 run_id false [] first
      → digests first ≡ digests second
      → keys_for dumps sha256 run_id false first new_keys
        ≡ keys_for dumps sha256 run_id true second new_keys
  keys_for-resumed run_id first second new again own same =
      keys_for-counted dumps sha256 run_id false first [] [] new_keys (new_keys-Counts run_id false)
        new own
      ∙ (numbered-same [] first second same
          ∙ sym (
              keys_for-counted dumps sha256 run_id true second [] [] new_keys
                (new_keys-Counts run_id true) again (NoneForeign-replaying run_id [] second)))
