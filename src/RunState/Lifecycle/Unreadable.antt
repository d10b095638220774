-- ===== src/RunState/Lifecycle/Unreadable.antt =====
-- RunStateStore.recover_interrupted where the file of a listed run is not UTF-8.
use helve.Base.{
  ◌≡◌, ◌≢◌, refl, sym, ap, ◌∙◌, String, true, false, none, some, Text, List, [], ◌∷◌, ◌++◌, arith,
  Bool-cases, inl, inr, subst, str_eq, eq_iff,
}
use helve.Base.Dict.{get, get-put}
use helve.RunState.{RunState, Result, ok, raised, is_live, value_error}
use helve.RunState.Stored.{to_dict}
use helve.RunState.Stored.Bounded.{Result-cases}
use helve.RunState.Store.{not_utf8, payload, Store, Io, valid_run_id, read, save}
use helve.RunState.Store.Seen.{Write-cases}
use helve.RunState.Operations.{
  recover_interrupted, recover_one, continue_with, add_id, skipped, recovered, aborted, Round,
}
use helve.RunState.Lifecycle.Calls.{read-run_id}
use helve.RunState.Lifecycle.Recovery.{
  cancelled_state, interrupted-live, interrupted-idle, saved-store, recover_interrupted-step,
  cancelled_state-run_id, add_id-store,
}

-- The file that the store has of a run.
abbrev IsNotUtf8 : String → Store → Type 0
IsNotUtf8 id store = get id store.files ≡ some not_utf8

save-other :
    (io : Io) (s : RunState) (store : Store) (id : String)
    → str_eq s.run_id id ≡ false
    → IsNotUtf8 id store
    → IsNotUtf8 id ((save io s store).1)
unfolding save
save-other io s store id other h = elim (Bool-cases (valid_run_id s.run_id)) [
  | inr v ↦ ground (arith, v, h)
  | inl v ↦
      let same = get-put s.run_id id (payload (to_dict s)) store.files in
      elim (Write-cases (io s.run_id)) [
        | inl w ↦ ground (arith, v, w, same, other, h)
        | inr (inl w) ↦ ground (arith, v, w, same, other, h)
        | inr (inr w) ↦ ground (arith, v, w, same, other, h)
      ]
]

read-not_utf8 :
    (now : Text) (id : String) (store : Store)
    → valid_run_id id ≡ true
    → IsNotUtf8 id store
    → read now id store ≡ raised value_error
unfolding read
read-not_utf8 now id store v h = ground (arith, v, h)

recover_one-aborts :
    (now : Text) (io : Io) (id : String) (store : Store)
    → valid_run_id id ≡ true
    → IsNotUtf8 id store
    → recover_one now io id store ≡ (aborted value_error, store)
unfolding recover_one
recover_one-aborts now io id store v h = ground (arith, v, read-not_utf8 now id store v h)

-- A round leaves the file as it is, whichever run it is about.
recover_one-IsNotUtf8 :
    (now : Text) (io : Io) (x id : String) (store : Store)
    → IsNotUtf8 id store
    → IsNotUtf8 id ((recover_one now io x store).1)
unfolding recover_one
recover_one-IsNotUtf8 now io x id store h = elim (Bool-cases (valid_run_id x)) [
  | inr v ↦ ground (arith, v, h)
  | inl v ↦ elim (Result-cases (read now x store)) [
    | inl (e, r) ↦ ground (arith, v, r, h)
    | inr (none, r) ↦ ground (arith, v, r, h)
    | inr (some s, r) ↦ elim (Bool-cases (is_live s.status)) [
      | inr l ↦ ground (arith, v, r, interrupted-idle now s l, h)
      | inl l ↦
          let t : RunState = cancelled_state now s in
          let name : t.run_id ≡ x = cancelled_state-run_id now s ∙ read-run_id now x store s r in
          let apart : str_eq x id ≡ false = elim (Bool-cases (str_eq x id)) [
            | inl same ↦
                absurd (ground (arith, r, (eq_iff x id).0 same, read-not_utf8 now id store, v, h))
            | inr other ↦ other
          ] in
          let kept = save-other io t store id (ap (λ (k : String). str_eq k id) name ∙ apart) h in
          ground (arith, v, r, interrupted-live now s l, saved-store (save io t store), kept)
    ]
  ]
]

-- The loop raises, with a given store.
abbrev RaisesWith : Store → Result (List String) × Store → Type 0
RaisesWith store r = ((found : List String) → r.0 ≢ ok found) × (r.1 ≡ store)

add_id-RaisesWith :
    (x : String) (store : Store) (r : Result (List String) × Store)
    → RaisesWith store r
    → RaisesWith store (add_id x r)
add_id-RaisesWith x store (ok ids, last) (never, e) = absurd (never ids refl)
add_id-RaisesWith x store (raised e, last) (never, same) = (λ found q. cc, same)

-- Where the loop behind a round raises, so does the loop with it.
continue_with-RaisesWith :
    (x : String) (rest shorter : Store → Result (List String) × Store) (round : Round × Store)
    → RaisesWith ((shorter (round.1)).1) (rest (round.1))
    → RaisesWith ((continue_with x shorter round).1) (continue_with x rest round)
continue_with-RaisesWith x rest shorter (skipped, store) h = h
continue_with-RaisesWith x rest shorter (recovered, store) h =
    add_id-RaisesWith x _ (rest store) (h.0, h.1 ∙ sym (add_id-store x (shorter store)))
continue_with-RaisesWith x rest shorter (aborted e, store) h = (λ found q. cc, refl)

-- A listed run with a valid id and a file that is not UTF-8 makes recovery raise, wherever it stands in the
-- list: recovery leaves the store that the runs listed before it alone would, so none listed behind it is
-- recovered.
pub recover_interrupted-not_utf8 :
    (now : Text) (io : Io) (id : String) (before behind : List String) (store : Store)
    → valid_run_id id ≡ true
    → get id store.files ≡ some not_utf8
    → ((found : List String)
        → (recover_interrupted now io (before ++ id ∷ behind) store).0 ≢ ok found)
      × ((recover_interrupted now io (before ++ id ∷ behind) store).1
          ≡ (recover_interrupted now io before store).1)
recover_interrupted-not_utf8 now io id [] behind store v h =
    let raises =
      recover_interrupted-step now io id behind store
      ∙ ap (continue_with id (recover_interrupted now io behind))
          (recover_one-aborts now io id store v h) in
    (λ found q. ground (arith, raises, q), unfold recover_interrupted in ap (λ r. r.1) raises)
recover_interrupted-not_utf8 now io id (x ∷ before) behind store v h =
    let round = recover_one now io x store in
    let rest = recover_interrupted now io (before ++ id ∷ behind) in
    let shorter = recover_interrupted now io before in
    subst (RaisesWith ((recover_interrupted now io (x ∷ before) store).1))
      (sym (recover_interrupted-step now io x (before ++ id ∷ behind) store))
      (subst (λ (z : Store). RaisesWith z (continue_with x rest round))
        (sym (ap (λ r. r.1) (recover_interrupted-step now io x before store)))
        (continue_with-RaisesWith x rest shorter round (
          recover_interrupted-not_utf8 now io id before behind (round.1) v
            (recover_one-IsNotUtf8 now io x id store h))))
