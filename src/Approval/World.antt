-- ===== src/Approval/World.antt =====
-- The broker among its callers on one event loop: runs open requests and wait, a consumer resolves
-- them, a run is cancelled, waits time out. Between two awaits a call runs alone, so a history is
-- a list of events.
use helve.Base.{
  ℕ, String, Bool, true, false, ◌&&◌, none, some, List, [], ◌∷◌, ◌++◌, if◌then◌else◌, any, str_eq,
  get_elem?, modify,
}
use helve.Approval.{
  ApprovalRequest, ApprovalBroker, init, open_request, wait_begin, wait_resume, wait_abandon,
  resolve, cancel_run,
}

-- How a `wait` ended: its Boolean, ApprovalTimeoutError, or CancelledError.
pub data Outcome : Type 0 where
  waiting : Outcome
  returned : Bool → Outcome
  timed_out cancelled : Outcome

abbrev pub is_waiting : Outcome → Bool
is_waiting waiting = true
is_waiting _ = false

-- A frame suspended in `wait`, and the object that it holds.
pub record Wait : Type 0 where
  pub request : ApprovalRequest
  pub ref : ℕ
  pub outcome : Outcome

pub record World : Type 0 where
  pub broker : ApprovalBroker
  pub waits : List Wait
  -- The run and approval ids of the calls `resolve(run_id, approval_id, True)` that returned True.
  pub granted : List (String × String)

pub data Event : Type 0 where
  opens : ApprovalRequest → Event
  waits_on : ApprovalRequest → Event
  resolves : String → String → Bool → Event
  cancels_run : String → Event
  resumes times_out is_cancelled : ℕ → Event

abbrev pub empty : World
empty = record { broker = init; waits = []; granted = [] }

abbrev pub end_wait : ℕ → Outcome → World → World
end_wait i o w = record w { waits = modify w.waits i (λ x. record x { outcome = o }) }

-- The frame of the `i`-th wait goes on: after its event, its timeout or its cancellation.
abbrev pub resume : ℕ → Wait → World → World
resume i x w = elim (wait_resume x.request x.ref w.broker) [
  | none ↦ w
  | some (decision, b) ↦ end_wait i (returned decision) (record w { broker = b })
]

abbrev pub abandon : ℕ → Outcome → Wait → World → World
abandon i o x w = end_wait i o (record w { broker = wait_abandon x.request w.broker })

-- Only a frame that still waits can go on.
abbrev pub with_wait : ℕ → (Wait → World → World) → World → World
with_wait i f w = elim (get_elem? w.waits i) [
  | none ↦ w
  | some x ↦ if is_waiting x.outcome then f x w else w
]

unfoldable pub step : Event → World → World
step (opens request) w = elim (open_request request w.broker) [
  | none ↦ w
  | some b ↦ record w { broker = b }
]
step (waits_on request) w = elim (wait_begin request w.broker) [
  | none ↦ w
  | some ref ↦ record w {
    waits = w.waits ++ (record { request = request; ref = ref; outcome = waiting }) ∷ [];
  }
]
step (resolves run_id approval_id approved) w =
    let (done, b) = resolve run_id approval_id approved w.broker in
    record w {
      broker = b;
      granted = if done && approved then (run_id, approval_id) ∷ w.granted else w.granted;
    }
step (cancels_run run_id) w = record w { broker = cancel_run run_id w.broker }
step (resumes i) w = with_wait i (resume i) w
step (times_out i) w = with_wait i (abandon i timed_out) w
step (is_cancelled i) w = with_wait i (abandon i cancelled) w

unfoldable pub run_events : List Event → World → World
run_events [] w = w
run_events (e ∷ es) w = run_events es (step e w)

-- Whether the consumer approved this request, under its own run.
abbrev pub was_granted : ApprovalRequest → List (String × String) → Bool
was_granted r = any λ (g : String × String). str_eq g.0 r.run_id && str_eq g.1 r.approval_id
