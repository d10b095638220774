-- ===== src/RunState/Lifecycle/Recovery.antt =====
-- RunStateStore.recover_interrupted: what it makes of the status of each run.
use helve.Base.{
  ◌≡◌, refl, sym, ap, ◌∙◌, ◌⊎◌, String, Bool, true, false, Option, none, some, Text, codes, List,
  [], ◌∷◌, arith, Bool-cases, inl, inr, subst, eq_refl, All,
}
use helve.RunState.{
  RunStatus, queued, running, waiting_approval, completed, incomplete, failed, cancelled, RunState,
  Result, ok, raised, is_live, is_allowed, transition, record_event, bounded_text,
}
use helve.RunState.Stored.Bounded.{Result-cases}
use helve.RunState.Store.{Store, Io, valid_run_id, read, save, keep, write}
use helve.RunState.Store.Seen.{status_seen, seen, Write-cases, status_seen-save, status_seen-now}
use helve.RunState.Changes.{interrupted, stopped}
use helve.RunState.Operations.{
  recover_interrupted, recover_one, continue_with, add_id, saved, skipped, recovered, aborted,
  Round,
}
use helve.RunState.Lifecycle.{Step}
use helve.RunState.Lifecycle.Calls.{Stepped, Shifts, save-Shifts, read-run_id, Shifts-Stepped}

-- The status stays, or a live run becomes cancelled.
abbrev pub Stop : RunStatus → RunStatus → Type 0
Stop a b = (b ≡ a) ⊎ ((is_live a ≡ true) × (b ≡ cancelled))

abbrev pub live_seen : Option RunStatus → Bool
live_seen none = false
live_seen (some a) = is_live a

live-cancelled : (a : RunStatus) → is_live a ≡ true → is_allowed a cancelled ≡ true
unfolding is_allowed
live-cancelled queued h = refl
live-cancelled running h = refl
live-cancelled waiting_approval h = refl
live-cancelled completed h = cc
live-cancelled incomplete h = cc
live-cancelled failed h = cc
live-cancelled cancelled h = cc

-- The state that a live run becomes.
abbrev pub cancelled_state : Text → RunState → RunState
cancelled_state now s = record (stopped now s) {
  status = cancelled;
  reason = bounded_text 200 (some (codes "server_restarted"));
  updated_at = now;
}

pub interrupted-live :
    (now : Text) (s : RunState)
    → is_live s.status ≡ true
    → interrupted now s ≡ write (cancelled_state now s)
unfolding interrupted transition record_event
interrupted-live now s h = ground (arith, h, live-cancelled s.status h)

pub interrupted-idle :
    (now : Text) (s : RunState) → is_live s.status ≡ false → interrupted now s ≡ keep s
unfolding interrupted
interrupted-idle now s h = ground (arith, h)

Shifts-by :
    (now : Text) (j : String) (x y z : Store)
    → y ≡ z
    → Shifts Stop now j x z
    → Shifts Stop now j x y
Shifts-by now j x y z e s = subst (λ w. Shifts Stop now j x w) (sym e) s

pub saved-store : (r : Result RunState × Store) → (saved r).1 ≡ r.1
saved-store (ok s, store) = refl
saved-store (raised e, store) = refl

recover_one-Shifts :
    (now later : Text) (io : Io) (j id : String) (store : Store)
    → Shifts Stop now j store ((recover_one later io id store).1)
unfolding recover_one
recover_one-Shifts now later io j id store = elim (Bool-cases (valid_run_id id)) [
  | inr v ↦ Shifts-by now j store _ store (ground (arith, v)) (inl refl)
  | inl v ↦ elim (Result-cases (read later id store)) [
    | inl (x, e) ↦ Shifts-by now j store _ store (ground (arith, v, e)) (inl refl)
    | inr (none, e) ↦ Shifts-by now j store _ store (ground (arith, v, e)) (inl refl)
    | inr (some s, e) ↦ elim (Bool-cases (is_live s.status)) [
      | inr h ↦
          Shifts-by now j store _ store (ground (arith, v, e, interrupted-idle later s h))
            (inl refl)
      | inl h ↦
          Shifts-by now j store _ ((save io (cancelled_state later s) store).1)
            (ground (
              arith,
              v,
              e,
              interrupted-live later s h,
              saved-store (save io (cancelled_state later s) store),
            ))
            (save-Shifts Stop now later io j id s (cancelled_state later s) store e
              (unfold record_event in refl) (inr (h, refl)))
    ]
  ]
]

Stop-Stop : (a b c : RunStatus) → Stop a b → Stop b c → Stop a c
Stop-Stop a b c (inl e) (inl f) = inl (f ∙ e)
Stop-Stop a b c (inl e) (inr (h, f)) = inr (ground (arith, e, h), f)
Stop-Stop a b c (inr (h, e)) (inl f) = inr (h, f ∙ e)
Stop-Stop a b c (inr (h, e)) (inr (g, f)) = inr (h, f)

Shifts-again :
    (now : Text) (j : String) (x y z : Store)
    → Shifts Stop now j x y
    → Shifts Stop now j y z
    → Shifts Stop now j x z
Shifts-again now j x y z (inl e) (inl f) = inl (f ∙ e)
Shifts-again now j x y z (inl e) (inr (a, b, f, g, s)) = inr (a, b, sym e ∙ f, g, s)
Shifts-again now j x y z (inr (a, b, f, g, s)) (inl e) = inr (a, b, f, e ∙ g, s)
Shifts-again now j x y z (inr (a, b, f, g, s)) (inr (c, d, h, k, t)) =
    inr (a, d, f, k, Stop-Stop a b d s (subst (λ w. Stop w d) (ground (arith, g, h)) t))

pub add_id-store : (id : String) (r : Result (List String) × Store) → (add_id id r).1 ≡ r.1
add_id-store id (ok ids, store) = refl
add_id-store id (raised e, store) = refl

continue_with-Shifts :
    (now : Text) (j id : String) (rest : Store → Result (List String) × Store)
    (round : Round × Store)
    → ((s : Store) → Shifts Stop now j s ((rest s).1))
    → Shifts Stop now j (round.1) ((continue_with id rest round).1)
continue_with-Shifts now j id rest (skipped, store) h = h store
continue_with-Shifts now j id rest (recovered, store) h =
    Shifts-by now j store _ ((rest store).1) (add_id-store id (rest store)) (h store)
continue_with-Shifts now j id rest (aborted e, store) h = inl refl

pub recover_interrupted-step :
    (now : Text) (io : Io) (id : String) (ids : List String) (store : Store)
    → recover_interrupted now io (id ∷ ids) store
      ≡ continue_with id (recover_interrupted now io ids) (recover_one now io id store)
unfolding recover_interrupted
recover_interrupted-step now io id ids store = refl

recover_interrupted-Shifts :
    (now later : Text) (io : Io) (j : String) (ids : List String) (store : Store)
    → Shifts Stop now j store ((recover_interrupted later io ids store).1)
recover_interrupted-Shifts now later io j [] store =
    Shifts-by now j store _ store (unfold recover_interrupted in refl) (inl refl)
recover_interrupted-Shifts now later io j (id ∷ ids) store =
    Shifts-again now j store ((recover_one later io id store).1) _
      (recover_one-Shifts now later io j id store)
      (Shifts-by now j _ _ _ (ap (λ r. r.1) (recover_interrupted-step later io id ids store)) (
        continue_with-Shifts now j id (recover_interrupted later io ids)
          (recover_one later io id store) (recover_interrupted-Shifts now later io j ids)))

Stop-Step : (a b : RunStatus) → Stop a b → Step a b
Stop-Step a b (inl e) = inl (sym e)
Stop-Step a b (inr (h, e)) = inr (rw e (live-cancelled a h))

pub recover_interrupted-Stepped :
    (now later : Text) (io : Io) (j : String) (ids : List String) (store : Store)
    → Stepped now j store ((recover_interrupted later io ids store).1)
recover_interrupted-Stepped now later io j ids store =
    Shifts-Stepped now j store _
      (weaker store _ (recover_interrupted-Shifts now later io j ids store))
  where
    weaker : (x y : Store) → Shifts Stop now j x y → Shifts Step now j x y
    weaker x y (inl e) = inl e
    weaker x y (inr (a, b, e, f, s)) = inr (a, b, e, f, Stop-Step a b s)

-- One round that ends well leaves its run not live.
abbrev ends_well : Round → Bool
ends_well (aborted e) = false
ends_well _ = true

save-ends_well :
    (now : Text) (io : Io) (s : RunState) (store : Store)
    → ends_well ((saved (save io s store)).0) ≡ true
    → status_seen now s.run_id ((save io s store).1) ≡ some s.status
unfolding save
save-ends_well now io s store h = elim (Bool-cases (valid_run_id s.run_id)) [
  | inr v ↦ absurd (ground (arith, v, h))
  | inl v ↦ elim (Write-cases (io s.run_id)) [
    | inl w ↦ ground (arith, v, w, eq_refl s.run_id, status_seen-save now io s.run_id s store)
    | inr (inl w) ↦ absurd (ground (arith, v, w, h))
    | inr (inr w) ↦ absurd (ground (arith, v, w, h))
  ]
]

not_live-Stop :
    (now : Text) (j : String) (x y : Store)
    → live_seen (status_seen now j x) ≡ false
    → Shifts Stop now j x y
    → live_seen (status_seen now j y) ≡ false
not_live-Stop now j x y h (inl e) = ground (arith, e, h)
not_live-Stop now j x y h (inr (a, b, e, f, inl s)) = ground (arith, e, f, s, h)
not_live-Stop now j x y h (inr (a, b, e, f, inr (g, s))) = ground (arith, e, f, s, h)

not_valid-seen :
    (now : Text) (id : String) (store : Store)
    → valid_run_id id ≡ false
    → status_seen now id store ≡ none
unfolding status_seen read
not_valid-seen now id store v = ground (arith, v)

seen-raised :
    (now later : Text) (id : String) (store : Store) (r : Result (Option RunState))
    → read later id store ≡ r
    → status_seen now id store ≡ seen r
unfolding status_seen
seen-raised now later id store r e = status_seen-now now later id store ∙ ap seen e

pub cancelled_state-run_id : (now : Text) (s : RunState) → (cancelled_state now s).run_id ≡ s.run_id
unfolding record_event
cancelled_state-run_id now s = refl

recover_one-ends_well :
    (now later : Text) (io : Io) (id : String) (store : Store)
    → ends_well ((recover_one later io id store).0) ≡ true
    → live_seen (status_seen now id ((recover_one later io id store).1)) ≡ false
unfolding recover_one
recover_one-ends_well now later io id store h = elim (Bool-cases (valid_run_id id)) [
  | inr v ↦ ground (arith, v, not_valid-seen now id store v)
  | inl v ↦ elim (Result-cases (read later id store)) [
    | inl (x, e) ↦ ground (arith, v, e, seen-raised now later id store (raised x) e)
    | inr (none, e) ↦ ground (arith, v, e, seen-raised now later id store (ok none) e)
    | inr (some s, e) ↦ elim (Bool-cases (is_live s.status)) [
      | inr l ↦ ground (
        arith,
        v,
        e,
        l,
        interrupted-idle later s l,
        seen-raised now later id store (ok (some s)) e,
      )
      | inl l ↦
          let t : RunState = cancelled_state later s in
          let name : t.run_id ≡ id =
            ground (arith, cancelled_state-run_id later s, read-run_id later id store s e) in
          let well : ends_well ((saved (save io t store)).0) ≡ true =
            ground (arith, v, e, interrupted-live later s l, h) in
          ground (
            arith,
            v,
            e,
            interrupted-live later s l,
            name,
            saved-store (save io t store),
            save-ends_well now io t store well,
          )
    ]
  ]
]

add_id-ok :
    (id : String) (found : List String) (r : Result (List String) × Store)
    → (add_id id r).0 ≡ ok found
    → (f : List String) × (r.0 ≡ ok f)
add_id-ok id found (ok f, store) e = (f, refl)
add_id-ok id found (raised x, store) e = absurd (cc)

continue_with-ok :
    (id : String) (rest : Store → Result (List String) × Store) (round : Round × Store)
    (found : List String)
    → (continue_with id rest round).0 ≡ ok found
    → (ends_well (round.0) ≡ true)
      × ((f : List String) × ((rest (round.1)).0 ≡ ok f))
      × ((continue_with id rest round).1 ≡ (rest (round.1)).1)
continue_with-ok id rest (skipped, store) found e = (refl, (found, e), refl)
continue_with-ok id rest (recovered, store) found e =
    (refl, add_id-ok id found (rest store) e, add_id-store id (rest store))
continue_with-ok id rest (aborted x, store) found e = absurd (cc)

-- When recovery returns, no listed run is seen live any more.
pub recover_interrupted-stops :
    (now later : Text) (io : Io) (ids found : List String) (store : Store)
    → (recover_interrupted later io ids store).0 ≡ ok found
    → All
        (λ id. live_seen (status_seen now id ((recover_interrupted later io ids store).1)) ≡ false)
        ids
recover_interrupted-stops now later io [] found store e = tt
recover_interrupted-stops now later io (id ∷ ids) found store e =
    let rest = recover_interrupted later io ids in
    let round = recover_one later io id store in
    let step = recover_interrupted-step later io id ids store in
    let (well, (f, later_ok), same) =
      continue_with-ok id rest round found (sym (ap (λ r. r.0) step) ∙ e) in
    let final : (recover_interrupted later io (id ∷ ids) store).1 ≡ (rest (round.1)).1 =
      ap (λ r. r.1) step ∙ same in
    subst (λ (z : Store). All (λ i. live_seen (status_seen now i z) ≡ false) (id ∷ ids)) (sym final)
      (
        not_live-Stop now id (round.1) ((rest (round.1)).1)
            (recover_one-ends_well now later io id store well)
            (recover_interrupted-Shifts now later io id ids (round.1)),
        recover_interrupted-stops now later io ids f (round.1) later_ok,
      )
