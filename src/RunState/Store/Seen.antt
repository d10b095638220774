-- ===== src/RunState/Store/Seen.antt =====
-- The status of a run that a reader sees, and what a write makes of it.
use helve.Base.{
  ℕ, ◌≡◌, refl, String, Bool, true, false, ◌&&◌, Option, none, some, if◌then◌else◌, Text, str_eq,
  eq_refl, subst, arith, eq_iff, Option-cases, Bool-cases, ◌⊎◌, inl, inr,
}
use helve.Base.Dict.{Dict, get, put, remove, get-put}
use helve.RunState.{RunStatus, RunState, Result, ok, raised}
use helve.RunState.Stored.{to_dict, from_dict, parsed, Payload, status_of, parsed_event_seq}
use helve.RunState.Stored.Bounded.{Result-cases, from_dict-parsed}
use helve.RunState.Store.{
  Store, File, broken, not_utf8, payload, Io, Write, done, failed, failed_late, valid_run_id, read,
  load, save, apply_deferred, with_deferred,
}

abbrev pub seen : Result (Option RunState) → Option RunStatus
seen (raised e) = none
seen (ok none) = none
seen (ok (some s)) = some s.status

-- The status of the run's state that can be read, if it can.
unfoldable pub status_seen : Text → String → Store → Option RunStatus
status_seen now run_id store = seen (read now run_id store)

pub with_deferred-status :
    (o : Option (ℕ × Option Text)) (s : RunState) → (with_deferred o s).status ≡ s.status
with_deferred-status none s = refl
with_deferred-status (some (n, t)) s = refl

pub with_deferred-run_id :
    (o : Option (ℕ × Option Text)) (s : RunState) → (with_deferred o s).run_id ≡ s.run_id
with_deferred-run_id none s = refl
with_deferred-run_id (some (n, t)) s = refl

seen-load :
    (now : Text) (run_id : String) (d e : Dict (ℕ × Option Text)) (f : Option File)
    → seen (load now run_id d f) ≡ seen (load now run_id e f)
unfolding apply_deferred
seen-load now run_id d e none = refl
seen-load now run_id d e (some broken) = refl
seen-load now run_id d e (some not_utf8) = refl
seen-load now run_id d e (some (payload p)) = elim (Result-cases (from_dict now p)) [
  | inl (x, h) ↦ ground (arith, h)
  | inr (s, h) ↦
      ground
        (arith, h, with_deferred-status (get s.run_id d) s, with_deferred-status (get s.run_id e) s)
]

seen-payload :
    (now later : Text) (run_id : String) (d : Dict (ℕ × Option Text)) (p : Payload)
    → seen (load now run_id d (some (payload p))) ≡ seen (load later run_id d (some (payload p)))
unfolding apply_deferred from_dict
seen-payload now later run_id d p = elim (Option-cases p.run_id) [
  | inl h ↦ ground (arith, h)
  | inr (r, h) ↦ elim (Option-cases p.agent_id) [
    | inl g ↦ ground (arith, h, g)
    | inr (a, g) ↦ elim (Option-cases (status_of p.status)) [
      | inl f ↦ ground (arith, h, g, f)
      | inr (x, f) ↦ elim (Result-cases (parsed_event_seq p.event_seq)) [
        | inl (e, k) ↦ ground (arith, h, g, f, k)
        | inr (n, k) ↦ ground (
          arith,
          h,
          g,
          f,
          k,
          with_deferred-status (get r d) (parsed now p r a x n),
          with_deferred-status (get r d) (parsed later p r a x n),
        )
      ]
    ]
  ]
]

-- The time of the reading is no part of the status.
pub status_seen-now :
    (now later : Text) (run_id : String) (store : Store)
    → status_seen now run_id store ≡ status_seen later run_id store
unfolding status_seen read
status_seen-now now later run_id store = elim (Option-cases (get run_id store.files)) [
  | inl h ↦ ground (arith, h)
  | inr (broken, h) ↦ ground (arith, h)
  | inr (not_utf8, h) ↦ ground (arith, h)
  | inr (payload p, h) ↦ ground (arith, h, seen-payload now later run_id store.deferred p)
]

-- The buffer is no part of the status.
pub status_seen-deferred :
    (now : Text) (run_id : String) (store : Store) (d : Dict (ℕ × Option Text))
    → status_seen now run_id (record store { deferred = d }) ≡ status_seen now run_id store
unfolding status_seen read
status_seen-deferred now run_id store d = elim (Bool-cases (valid_run_id run_id)) [
  | inl h ↦ ground (arith, h, seen-load now run_id d store.deferred (get run_id store.files))
  | inr h ↦ ground (arith, h)
]

seen-load-to_dict :
    (now : Text) (s : RunState) (d : Dict (ℕ × Option Text))
    → seen (load now s.run_id d (some (payload (to_dict s)))) ≡ some s.status
unfolding apply_deferred
seen-load-to_dict now s d = ground (
  arith,
  from_dict-parsed now s,
  eq_refl s.run_id,
  with_deferred-status (get s.run_id d)
      (parsed now (to_dict s) s.run_id s.agent_id s.status s.event_seq),
)

pub status_seen-put :
    (now : Text) (run_id : String) (s : RunState) (store : Store)
    → valid_run_id s.run_id ≡ true
    → status_seen now run_id
        (record store { files = put s.run_id (payload (to_dict s)) store.files })
      ≡ (if str_eq s.run_id run_id then some s.status else status_seen now run_id store)
unfolding status_seen read
status_seen-put now run_id s store v = elim (Bool-cases (str_eq s.run_id run_id)) [
  | inl h ↦
      let same : s.run_id ≡ run_id = ground (arith, h, eq_iff s.run_id run_id) in
      subst
        (λ (r : String).
          status_seen now r
            (record store { files = put s.run_id (payload (to_dict s)) store.files })
          ≡ (if str_eq s.run_id r then some s.status else status_seen now r store))
        same
        (ground (
          arith,
          v,
          eq_refl s.run_id,
          get-put s.run_id s.run_id (payload (to_dict s)) store.files,
          seen-load-to_dict now s store.deferred,
        ))
  | inr h ↦ ground (arith, h, get-put s.run_id run_id (payload (to_dict s)) store.files)
]

abbrev pub stored : Write → Bool
stored failed = false
stored done = true
stored failed_late = true

-- A write that reaches the file shows its status from then on, and no other write changes any.
pub status_seen-save :
    (now : Text) (io : Io) (run_id : String) (s : RunState) (store : Store)
    → status_seen now run_id ((save io s store).1) ≡ (
        if valid_run_id s.run_id && (stored (io s.run_id) && str_eq s.run_id run_id)
        then some s.status
        else status_seen now run_id store)
unfolding save
status_seen-save now io run_id s store = elim (Bool-cases (valid_run_id s.run_id)) [
  | inl h ↦
      let rest : Store = record store { deferred = remove s.run_id store.deferred } in
      ground (
        arith,
        h,
        status_seen-put now run_id s rest h,
        status_seen-deferred now run_id store (remove s.run_id store.deferred),
      )
  | inr h ↦ ground (arith, h)
]

pub Write-cases : (w : Write) → (w ≡ done) ⊎ ((w ≡ failed) ⊎ (w ≡ failed_late))
Write-cases done = inl refl
Write-cases failed = inr (inl refl)
Write-cases failed_late = inr (inr refl)

-- A write that returns is seen.
pub save-ok :
    (now : Text) (io : Io) (s t : RunState) (store : Store)
    → (save io s store).0 ≡ ok t
    → (s ≡ t) × (status_seen now s.run_id ((save io s store).1) ≡ some s.status)
unfolding save
save-ok now io s t store h = elim (Bool-cases (valid_run_id s.run_id)) [
  | inr v ↦ absurd (ground (arith, v, h))
  | inl v ↦ elim (Write-cases (io s.run_id)) [
    | inl w ↦ (
      ground (arith, v, w, h),
      ground (arith, v, w, eq_refl s.run_id, status_seen-save now io s.run_id s store),
    )
    | inr (inl w) ↦ absurd (ground (arith, v, w, h))
    | inr (inr w) ↦ absurd (ground (arith, v, w, h))
  ]
]
