-- ===== src/RunState/Lifecycle/Calls.antt =====
-- Every operation of the store, on any run, moves the status of each run by a step.
use helve.Base.{
  ◌≡◌, refl, sym, ap, ◌∙◌, ◌⊎◌, String, ◌&&◌, Option, none, some, Text, arith, Bool-cases, inl, inr,
  subst, str_eq, eq_iff, ℕ,
}
use helve.Base.Dict.{Dict, get}
use helve.RunState.{RunStatus, RunState, ok}
use helve.RunState.Stored.{from_dict}
use helve.RunState.Stored.Bounded.{Result-cases}
use helve.RunState.Store.{
  Store, File, broken, not_utf8, payload, Io, valid_run_id, read, load, save, Change, refuse, keep,
  write, change, on_state, apply_deferred,
}
use helve.RunState.Store.Seen.{
  status_seen, seen, stored, status_seen-save, status_seen-now, with_deferred-run_id,
}
use helve.RunState.Lifecycle.{Step, Lawful}

-- The status of `run_id` is still there in the second store, and one step on.
abbrev pub Stepped : Text → String → Store → Store → Type 0
Stepped now run_id before after =
    (a : RunStatus)
    → status_seen now run_id before ≡ some a
    → (b : RunStatus) × (status_seen now run_id after ≡ some b) × Step a b

pub Stepped-same : (now : Text) (j : String) (store : Store) → Stepped now j store store
Stepped-same now j store a h = (a, h, inl refl)

-- What is read of a run has its id, and shows its status at any time.
pub load-run_id :
    (now : Text) (id : String) (d : Dict (ℕ × Option Text)) (f : Option File) (s : RunState)
    → load now id d f ≡ ok (some s)
    → s.run_id ≡ id
unfolding apply_deferred
load-run_id now id d none s e = absurd (cc)
load-run_id now id d (some broken) s e = absurd (cc)
load-run_id now id d (some not_utf8) s e = absurd (cc)
load-run_id now id d (some (payload p)) s e = elim (Result-cases (from_dict now p)) [
  | inl (x, h) ↦ absurd (ground (arith, h, e))
  | inr (t, h) ↦ ground (arith, h, e, eq_iff t.run_id id, with_deferred-run_id (get t.run_id d) t)
]

pub read-run_id :
    (now : Text) (id : String) (store : Store) (s : RunState)
    → read now id store ≡ ok (some s)
    → s.run_id ≡ id
unfolding read
read-run_id now id store s e = elim (Bool-cases (valid_run_id id)) [
  | inl h ↦ load-run_id now id store.deferred (get id store.files) s (ground (arith, h, e))
  | inr h ↦ absurd (ground (arith, h, e))
]

pub status_seen-read :
    (now later : Text) (id : String) (store : Store) (s : RunState)
    → read later id store ≡ ok (some s)
    → status_seen now id store ≡ some s.status
unfolding status_seen
status_seen-read now later id store s e = status_seen-now now later id store ∙ ap seen e

-- What is seen of a run is as before, or has moved from one status to another in the relation.
abbrev pub Shifts : (RunStatus → RunStatus → Type 0) → Text → String → Store → Store → Type 0
Shifts R now j before after =
    (status_seen now j after ≡ status_seen now j before)
    ⊎ ((a : RunStatus) × (b : RunStatus) × (status_seen now j before ≡ some a)
        × (status_seen now j after ≡ some b)
        × R a b)

pub save-Shifts :
    (R : RunStatus → RunStatus → Type 0) (now later : Text) (io : Io) (j id : String)
    (s t : RunState) (store : Store)
    → read later id store ≡ ok (some s)
    → t.run_id ≡ s.run_id
    → R s.status t.status
    → Shifts R now j store ((save io t store).1)
save-Shifts R now later io j id s t store e i step =
    let shown = status_seen-save now io j t store in
    let own = status_seen-read now later id store s e in
    let name = read-run_id later id store s e in
    elim (Bool-cases (valid_run_id t.run_id && (stored (io t.run_id) && str_eq t.run_id j))) [
      | inl g ↦
          let same : j ≡ id = ground (arith, g, eq_iff t.run_id j, i, name) in
          inr (s.status, t.status, ground (arith, same, own), ground (arith, shown, g), step)
      | inr g ↦ inl (ground (arith, shown, g))
    ]

pub Shifts-Stepped :
    (now : Text) (j : String) (before after : Store)
    → Shifts Step now j before after
    → Stepped now j before after
Shifts-Stepped now j before after (inl e) a h = (a, ground (arith, e, h), inl refl)
Shifts-Stepped now j before after (inr (x, y, e, f, step)) a h =
    (y, f, subst (λ z. Step z y) (ground (arith, e, h)) step)

pub change-Stepped :
    (now later : Text) (io : Io) (j id : String) (s : RunState) (c : Change) (store : Store)
    → read later id store ≡ ok (some s)
    → Lawful s c
    → Stepped now j store ((change io c store).1)
unfolding Lawful
change-Stepped now later io j id s (refuse x) store e l = Stepped-same now j store
change-Stepped now later io j id s (keep t) store e l = Stepped-same now j store
change-Stepped now later io j id s (write t) store e (i, step) =
    Shifts-Stepped now j store _ (save-Shifts Step now later io j id s t store e i step)

pub Stepped-by :
    (now : Text) (j : String) (store x y : Store)
    → x ≡ y
    → Stepped now j store y
    → Stepped now j store x
Stepped-by now j store x y e s = subst (λ z. Stepped now j store z) (sym e) s

pub on_state-Stepped :
    (now later : Text) (io : Io) (j id : String) (f : RunState → Change) (store : Store)
    → ((s : RunState) → Lawful s (f s))
    → Stepped now j store ((on_state later io id f store).1)
unfolding on_state
on_state-Stepped now later io j id f store l = elim (Result-cases (read later id store)) [
  | inl (x, e) ↦ Stepped-by now j store _ store (ground (arith, e)) (Stepped-same now j store)
  | inr (none, e) ↦ Stepped-by now j store _ store (ground (arith, e)) (Stepped-same now j store)
  | inr (some s, e) ↦
      Stepped-by now j store _ ((change io (f s) store).1) (ground (arith, e))
        (change-Stepped now later io j id s (f s) store e (l s))
]
