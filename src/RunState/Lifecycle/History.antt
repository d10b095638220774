-- ===== src/RunState/Lifecycle/History.antt =====
-- Any history of the store's operations, on any runs, with any outcomes of the writes.
use helve.Base.{
  ◌≡◌, refl, String, Bool, false, ◌&&◌, not, Option, some, Text, List, [], ◌∷◌, arith, inl, inr,
  str_eq, All,
}
use helve.RunState.{
  RunStatus, queued, running, waiting_approval, completed, incomplete, failed, cancelled, RunScope,
  Transition, Recorded, is_live, is_allowed,
}
use helve.RunState.Store.{Store, Io, defer_event}
use helve.RunState.Store.Seen.{status_seen}
use helve.RunState.Changes.{Ask, Resolution}
use helve.RunState.Operations.{
  create, resume, bind_identity, request_approval, resolve_approval, resolve_approval_if_waiting,
  move, observe, recover_interrupted, prune,
}
use helve.RunState.Project.{EventType, EventData, project_execution_event}
use helve.RunState.Lifecycle.{Step}
use helve.RunState.Lifecycle.Each.{
  create-Stepped, resume-Stepped, bind_identity-Stepped, request_approval-Stepped,
  resolve_approval-Stepped, resolve_approval_if_waiting-Stepped, move-Stepped, observe-Stepped,
  defer-Stepped, project-Stepped, prune-Stepped,
}
use helve.RunState.Lifecycle.Recovery.{recover_interrupted-Stepped}

-- A call of an operation that writes.
pub data Operation : Type 0 where
  creates : String → RunScope → Operation
  resumes : String → Option RunScope → Operation
  binds : String → Text → Operation
  requests : String → Ask → Operation
  resolves resolves_if_waiting : String → Resolution → Operation
  moves : String → Option Text → Transition → Operation
  observes : String → Recorded → Operation
  defers : String → Text → Operation
  projects : String → EventType → EventData → Operation
  recovers : List String → Operation
  prunes : String → Operation

unfoldable pub perform : Text → Io → Operation → Store → Store
perform now io (creates id given) store = (create now io id given store).1
perform now io (resumes id scope) store = (resume now io id scope store).1
perform now io (binds id identity_id) store = (bind_identity now io id identity_id store).1
perform now io (requests id ask) store = (request_approval now io id ask store).1
perform now io (resolves id r) store = (resolve_approval now io id r store).1
perform now io (resolves_if_waiting id r) store = (resolve_approval_if_waiting now io id r store).1
perform now io (moves id event_type t) store = (move now io id event_type t store).1
perform now io (observes id e) store = (observe now io id e store).1
perform now io (defers id event_type) store = (defer_event id event_type store).1
perform now io (projects id t d) store = (project_execution_event now io id t d store).1
perform now io (recovers ids) store = (recover_interrupted now io ids store).1
perform now io (prunes id) store = (prune now id store).1

-- A deletion of this run, unless it is live.
abbrev pub deletes : String → RunStatus → Operation → Bool
deletes j a (prunes id) = str_eq id j && not (is_live a)
deletes j a _ = false

-- Whatever operation is called on whatever run, and whatever becomes of its write, a run that is seen
-- is seen afterwards, in the same status or in one that _ALLOWED_TRANSITIONS gives, unless the operation
-- deletes this run while it is not live.
pub perform-Step :
    (now later : Text) (io : Io) (j : String) (operation : Operation) (store : Store)
    (a : RunStatus)
    → status_seen now j store ≡ some a
    → deletes j a operation ≡ false
    → (b : RunStatus) × (status_seen now j (perform later io operation store) ≡ some b) × Step a b
unfolding perform
perform-Step now later io j (creates id given) store a h e =
    create-Stepped now later io j id given store a h
perform-Step now later io j (resumes id scope) store a h e =
    resume-Stepped now later io j id scope store a h
perform-Step now later io j (binds id x) store a h e =
    bind_identity-Stepped now later io j id x store a h
perform-Step now later io j (requests id ask) store a h e =
    request_approval-Stepped now later io j id ask store a h
perform-Step now later io j (resolves id r) store a h e =
    resolve_approval-Stepped now later io j id r store a h
perform-Step now later io j (resolves_if_waiting id r) store a h e =
    resolve_approval_if_waiting-Stepped now later io j id r store a h
perform-Step now later io j (moves id o t) store a h e =
    move-Stepped now later io j id o t store a h
perform-Step now later io j (observes id x) store a h e =
    observe-Stepped now later io j id x store a h
perform-Step now later io j (defers id t) store a h e = defer-Stepped now j id t store a h
perform-Step now later io j (projects id t d) store a h e =
    project-Stepped now later io j id t d store a h
perform-Step now later io j (recovers ids) store a h e =
    recover_interrupted-Stepped now later io j ids store a h
perform-Step now later io j (prunes id) store a h e =
    (a, prune-Stepped now later j id store a h e, inl refl)

-- One call: its time, what becomes of the writes, and the operation.
pub record Call : Type 0 where
  pub time : Text
  pub io : Io
  pub operation : Operation

unfoldable pub perform_all : List Call → Store → Store
perform_all [] store = store
perform_all (c ∷ calls) store = perform_all calls (perform c.time c.io c.operation store)

completed-last : (b : RunStatus) → Step completed b → b ≡ completed
unfolding is_allowed
completed-last b (inl e) = cc
completed-last completed (inr e) = refl
completed-last queued (inr e) = cc
completed-last running (inr e) = cc
completed-last waiting_approval (inr e) = cc
completed-last incomplete (inr e) = cc
completed-last failed (inr e) = cc
completed-last cancelled (inr e) = cc

-- A completed run stays completed through any history of calls that does not delete it.
pub perform_all-completed :
    (now : Text) (j : String) (calls : List Call) (store : Store)
    → status_seen now j store ≡ some completed
    → All (λ c. deletes j completed c.operation ≡ false) calls
    → status_seen now j (perform_all calls store) ≡ some completed
unfolding perform_all
perform_all-completed now j [] store h kept = h
perform_all-completed now j (c ∷ calls) store h (e, kept) =
    let (b, g, step) = perform-Step now c.time c.io j c.operation store completed h e in
    perform_all-completed now j calls (perform c.time c.io c.operation store)
      (ground (arith, g, completed-last b step)) kept
