-- ===== src/RunState/Lifecycle/Each.antt =====
-- Each operation by itself moves the status of every run by a step.
use helve.Base.{
  ◌≡◌, refl, ◌∙◌, String, Bool, true, false, ◌&&◌, not, Option, none, some, if◌then◌else◌, Text,
  text_eq, ◌||◌, ◌++◌, codes, arith, Option-cases, Bool-cases, inl, inr, str_eq, eq_iff,
}
use helve.Base.Dict.{get, put, remove, get-remove}
use helve.RunState.{
  RunStatus, RunState, Result, ok, raised, RunScope, text_or, Transition, Recorded, is_live,
  state_error, transition_error, scope_mismatch, value_error, overflow_error,
}
use helve.RunState.Stored.Bounded.{Result-cases}
use helve.RunState.Stored.{parse_status}
use helve.RunState.Store.{Store, Io, valid_run_id, read, defer_event, one_more}
use helve.RunState.Store.Seen.{
  status_seen, seen, status_seen-save, status_seen-deferred, status_seen-now,
}
use helve.RunState.Changes.{
  Ask, Resolution, resumed, bound, requested, resolved, resolved_if_waiting, moved, observed,
}
use helve.RunState.Operations.{
  create, resume, bind_identity, request_approval, resolve_approval, resolve_approval_if_waiting,
  move, observe, prune, deleted, exists, new_state,
}
use helve.RunState.Project.{
  ask_of, answer_of, project_outcome, details, tool_call_result, EventType, EventData,
  project_execution_event, project_by, project_result, swallowed, route, finish_move, Route, ignore,
  defer, start, finish, other, tool_result, outcome_of,
}
use helve.RunState.Lifecycle.{
  resumed-Lawful, bound-Lawful, requested-Lawful, resolved-Lawful, resolved_if_waiting-Lawful,
  moved-Lawful, observed-Lawful,
}
use helve.RunState.Lifecycle.Calls.{Stepped, Stepped-same, Stepped-by, on_state-Stepped}

pub resume-Stepped :
    (now later : Text) (io : Io) (j id : String) (scope : Option RunScope) (store : Store)
    → Stepped now j store ((resume later io id scope store).1)
unfolding resume
resume-Stepped now later io j id scope store =
    on_state-Stepped now later io j id (resumed later scope) store (resumed-Lawful later scope)

pub bind_identity-Stepped :
    (now later : Text) (io : Io) (j id : String) (x : Text) (store : Store)
    → Stepped now j store ((bind_identity later io id x store).1)
unfolding bind_identity
bind_identity-Stepped now later io j id x store =
    on_state-Stepped now later io j id (bound later x) store (bound-Lawful later x)

pub request_approval-Stepped :
    (now later : Text) (io : Io) (j id : String) (x : Ask) (store : Store)
    → Stepped now j store ((request_approval later io id x store).1)
unfolding request_approval
request_approval-Stepped now later io j id x store =
    on_state-Stepped now later io j id (requested later x) store (requested-Lawful later x)

pub resolve_approval-Stepped :
    (now later : Text) (io : Io) (j id : String) (x : Resolution) (store : Store)
    → Stepped now j store ((resolve_approval later io id x store).1)
unfolding resolve_approval
resolve_approval-Stepped now later io j id x store =
    on_state-Stepped now later io j id (resolved later x) store (resolved-Lawful later x)

pub resolve_approval_if_waiting-Stepped :
    (now later : Text) (io : Io) (j id : String) (x : Resolution) (store : Store)
    → Stepped now j store ((resolve_approval_if_waiting later io id x store).1)
unfolding resolve_approval_if_waiting
resolve_approval_if_waiting-Stepped now later io j id x store =
    on_state-Stepped now later io j id (resolved_if_waiting later x) store
      (resolved_if_waiting-Lawful later x)

pub move-Stepped :
    (now later : Text) (io : Io) (j id : String) (o : Option Text) (t : Transition) (store : Store)
    → Stepped now j store ((move later io id o t store).1)
unfolding move
move-Stepped now later io j id o t store =
    on_state-Stepped now later io j id (moved later o t) store (moved-Lawful later o t)

pub observe-Stepped :
    (now later : Text) (io : Io) (j id : String) (x : Recorded) (store : Store)
    → Stepped now j store ((observe later io id x store).1)
unfolding observe
observe-Stepped now later io j id x store =
    on_state-Stepped now later io j id (observed later x) store (observed-Lawful later x)

seen-exists :
    (now : Text) (j : String) (store : Store) (a : RunStatus)
    → status_seen now j store ≡ some a
    → exists (get j store.files) ≡ true
unfolding status_seen read
seen-exists now j store a h = elim (Option-cases (get j store.files)) [
  | inl g ↦ absurd (ground (arith, g, h))
  | inr (f, g) ↦ ground (arith, g)
]

pub create-Stepped :
    (now later : Text) (io : Io) (j id : String) (given : RunScope) (store : Store)
    → Stepped now j store ((create later io id given store).1)
unfolding create
create-Stepped now later io j id given store a h = elim (Bool-cases (valid_run_id id)) [
  | inr v ↦ (a, ground (arith, v, h), inl refl)
  | inl v ↦ elim (Bool-cases (exists (get id store.files))) [
    | inl e ↦ (a, ground (arith, v, e, h), inl refl)
    | inr e ↦ (
      a,
      ground (
        arith,
        v,
        e,
        h,
        seen-exists now j store a h,
        eq_iff id j,
        status_seen-save now io j (new_state later id given) store,
      ),
      inl refl,
    )
  ]
]

pub defer-Stepped :
    (now : Text) (j id : String) (t : Text) (store : Store)
    → Stepped now j store ((defer_event id t store).1)
unfolding defer_event
defer-Stepped now j id t store a h = elim (Bool-cases (valid_run_id id)) [
  | inl v ↦ (
    a,
    ground (
      arith,
      v,
      h,
      status_seen-deferred now j store (put id (one_more (get id store.deferred) t) store.deferred),
    ),
    inl refl,
  )
  | inr v ↦ (a, ground (arith, v, h), inl refl)
]

swallowed-store : {A : Type 0} (r : Result A × Store) → (swallowed r).1 ≡ r.1
swallowed-store (ok a, store) = refl
swallowed-store (raised state_error, store) = refl
swallowed-store (raised transition_error, store) = refl
swallowed-store (raised scope_mismatch, store) = refl
swallowed-store (raised value_error, store) = refl
swallowed-store (raised overflow_error, store) = refl

deleted-other :
    (now : Text) (j id : String) (store : Store)
    → str_eq id j ≡ false
    → status_seen now j ((deleted id store).1) ≡ status_seen now j store
unfolding status_seen read
deleted-other now j id store e =
    status_seen-deferred now j (record store { files = remove id store.files })
      (remove id store.deferred)
    ∙ ground (arith, e, get-remove id j store.files)

read-seen :
    (now later : Text) (id j : String) (store : Store) (r : Result (Option RunState))
    (a : RunStatus)
    → read later id store ≡ r
    → id ≡ j
    → status_seen now j store ≡ some a
    → seen r ≡ some a
unfolding status_seen
read-seen now later id j store r a e same h =
    ground (arith, e, same, h, status_seen-now now later id store)

pub prune-Stepped :
    (now later : Text) (j id : String) (store : Store) (a : RunStatus)
    → status_seen now j store ≡ some a
    → (str_eq id j && not (is_live a)) ≡ false
    → status_seen now j ((prune later id store).1) ≡ some a
unfolding prune
prune-Stepped now later j id store a h spared = elim (Bool-cases (valid_run_id id)) [
  | inr v ↦ ground (arith, v, h)
  | inl v ↦ elim (Bool-cases (str_eq id j)) [
    | inl e ↦
        let same : id ≡ j = ground (arith, eq_iff id j, e) in
        elim (Result-cases (read later id store)) [
          | inl (x, r) ↦ absurd (let n = read-seen now later id j store (raised x) a r same h in cc)
          | inr (none, r) ↦
              absurd (let n = read-seen now later id j store (ok none) a r same h in cc)
          | inr (some s, r) ↦
              ground
                (arith, v, r, h, e, spared, read-seen now later id j store (ok (some s)) a r same h)
        ]
    | inr e ↦
        let kept = deleted-other now j id store e in
        elim (Result-cases (read later id store)) [
          | inl (x, r) ↦ ground (arith, v, r, h, kept)
          | inr (none, r) ↦ ground (arith, v, r, h, kept)
          | inr (some s, r) ↦ ground (arith, v, r, h, kept)
        ]
  ]
]

swallowed-Stepped :
    {A : Type 0} (now : Text) (j : String) (store : Store) (r : Result A × Store)
    → Stepped now j store (r.1)
    → Stepped now j store ((swallowed r).1)
swallowed-Stepped now j store r s = Stepped-by now j store _ _ (swallowed-store r) s

Stepped-if :
    {A : Type 0} (now : Text) (j : String) (store : Store) (b : Bool) (x y : A × Store)
    → Stepped now j store (x.1)
    → Stepped now j store (y.1)
    → Stepped now j store ((if b then x else y).1)
Stepped-if now j store true x y s t = s
Stepped-if now j store false x y s t = t

project_result-Stepped :
    (now later : Text) (io : Io) (j id : String) (d : EventData) (store : Store)
    → Stepped now j store ((project_result later io id d store).1)
unfolding project_result
project_result-Stepped now later io j id d store =
    let word = outcome_of d in
    let answered = λ (approved : Bool). λ (reason : Text).
      resolve_approval_if_waiting later io id (answer_of approved reason d) store in
    let answer = λ (approved : Bool). λ (reason : Text).
      resolve_approval_if_waiting-Stepped now later io j id (answer_of approved reason d) store in
    let plain = details tool_call_result d in
    let denied = text_eq word (codes "denied") || text_eq word (codes "timed_out") in
    Stepped-if now j store d.approval_required (request_approval later io id (ask_of d) store)
      (project_outcome later io id d store)
      (request_approval-Stepped now later io j id (ask_of d) store)
      (Stepped-if now j store (text_eq word (codes "granted"))
        (answered true (codes "approval_granted"))
        (if denied
          then answered false (codes "approval_" ++ word)
          else observe later io id plain store)
        (answer true (codes "approval_granted"))
        (Stepped-if now j store denied (answered false (codes "approval_" ++ word))
          (observe later io id plain store) (answer false (codes "approval_" ++ word))
          (observe-Stepped now later io j id plain store)))

finish-Stepped :
    (now later : Text) (io : Io) (j id : String) (d : EventData) (o : Option RunStatus)
    (store : Store)
    → Stepped now j store ((finish_move later io id d o store).1)
finish-Stepped now later io j id d none store = Stepped-same now j store
finish-Stepped now later io j id d (some status) store = move-Stepped now later io j id _ _ store

project_by-Stepped :
    (now later : Text) (io : Io) (j id : String) (t : EventType) (d : EventData) (r : Route)
    (store : Store)
    → Stepped now j store ((project_by later io id t d r store).1)
project_by-Stepped now later io j id t d ignore store = Stepped-same now j store
project_by-Stepped now later io j id t d defer store =
    swallowed-Stepped now j store _ (defer-Stepped now j id _ store)
project_by-Stepped now later io j id t d start store =
    swallowed-Stepped now j store _ (move-Stepped now later io j id _ _ store)
project_by-Stepped now later io j id t d finish store =
    swallowed-Stepped now j store _
      (finish-Stepped now later io j id d (parse_status (text_or d.status (codes "failed"))) store)
project_by-Stepped now later io j id t d tool_result store =
    swallowed-Stepped now j store _ (project_result-Stepped now later io j id d store)
project_by-Stepped now later io j id t d other store =
    swallowed-Stepped now j store _ (observe-Stepped now later io j id _ store)

pub project-Stepped :
    (now later : Text) (io : Io) (j id : String) (t : EventType) (d : EventData) (store : Store)
    → Stepped now j store ((project_execution_event later io id t d store).1)
unfolding project_execution_event
project-Stepped now later io j id t d store =
    project_by-Stepped now later io j id t d (route t) store
