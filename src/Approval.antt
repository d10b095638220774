-- ===== src/Approval.antt =====
-- engine/safety/approval.py: the in-process approval broker.
--
-- A pending approval is an object that the broker's dict and the waiting frame share: `cancel_run`
-- takes it out of the dict while a frame still holds it. So the objects stand in a store, in the
-- order of their creation, and the dict maps an approval id to a place in the store.
pub mod World
pub mod Store
pub mod Safety
pub mod Standing
pub mod Decision
pub mod Cancel
mod Tests
use mathlib.Core.Option
use helve.Base.{
  ℕ, String, Bool, true, false, ◌&&◌, ◌||◌, not, Option, none, some, List, [], ◌∷◌, ◌++◌,
  if◌then◌else◌, str_eq, length, get_elem?, modify,
}
use helve.Base.Dict
use helve.Base.Dict.{Dict}
use helve.Risk.{RiskTier}

pub record ApprovalScope : Type 0 where
  pub kind : String
  pub target : String
  pub access : List String
  pub high_risk : Bool

-- ApprovalScope.host_command, .path, .network and .operation
abbrev pub host_command : String → Bool → ApprovalScope
host_command command high_risk = record {
  kind = "host_command";
  target = command;
  access = "filesystem" ∷ "network" ∷ "process" ∷ [];
  high_risk = high_risk;
}

abbrev pub path_scope : String → Bool → Bool → ApprovalScope
path_scope target writing high_risk = record {
  kind = "path";
  target = target;
  access = if writing then "read" ∷ "write" ∷ [] else "read" ∷ [];
  high_risk = high_risk;
}

abbrev pub network_scope : String → Bool → ApprovalScope
network_scope target high_risk = record {
  kind = "network";
  target = target;
  access = "network" ∷ [];
  high_risk = high_risk;
}

abbrev pub operation_scope : String → Bool → ApprovalScope
operation_scope tool_name high_risk = record {
  kind = "tool_operation";
  target = tool_name;
  access = "tool" ∷ [];
  high_risk = high_risk;
}

-- ApprovalRequest; the argument summary and the presentation, which the broker only carries to the
-- consumer, are left out.
pub record ApprovalRequest : Type 0 where
  pub approval_id : String
  pub run_id : String
  pub tool_name : String
  pub level : String
  pub reason : String
  pub scope : Option ApprovalScope
  pub risk : Option RiskTier

-- _PendingApproval; `is_set` is the state of its asyncio event.
pub record PendingApproval : Type 0 where
  pub request : ApprovalRequest
  pub is_set : Bool
  pub decision : Option Bool

pub record ApprovalBroker : Type 0 where
  pub objects : List PendingApproval
  pub pending : Dict ℕ

abbrev pub init : ApprovalBroker
init = record { objects = []; pending = [] }

-- self._pending.get(approval_id), with the place of the object
abbrev pub object_at : ApprovalBroker → Option ℕ → Option (ℕ × PendingApproval)
object_at b none = none
object_at b (some ref) = Option.map (λ o. (ref, o)) (get_elem? b.objects ref)

unfoldable pub lookup : String → ApprovalBroker → Option (ℕ × PendingApproval)
lookup approval_id b = object_at b (Dict.get approval_id b.pending)

abbrev pub pop : String → ApprovalBroker → ApprovalBroker
pop approval_id b = record b { pending = Dict.remove approval_id b.pending }

abbrev pub new_object : ApprovalRequest → PendingApproval
new_object request = record { request = request; is_set = false; decision = none }

abbrev pub opened : ApprovalRequest → ApprovalBroker → ApprovalBroker
opened request b = record {
  objects = b.objects ++ new_object request ∷ [];
  pending = Dict.put request.approval_id (length b.objects) b.pending;
}

-- `open`: `none` stands for the ValueError on an id that is already pending.
unfoldable pub open_request : ApprovalRequest → ApprovalBroker → Option ApprovalBroker
open_request request b = elim (Dict.get request.approval_id b.pending) [
  | some ref ↦ none
  | none ↦ some (opened request b)
]

-- The head of `wait`, up to its `await`: the object waited on, or `none` for the RuntimeError.
unfoldable pub wait_begin : ApprovalRequest → ApprovalBroker → Option ℕ
unfolding lookup
wait_begin request b = elim (lookup request.approval_id b) [
  | none ↦ none
  | some (ref, o) ↦ if str_eq o.request.run_id request.run_id then some ref else none
]

-- `decision is True`
abbrev pub is_true : Option Bool → Bool
is_true (some true) = true
is_true _ = false

-- The tail of `wait`, once the event is set.
unfoldable pub wait_resume : ApprovalRequest → ℕ → ApprovalBroker → Option (Bool × ApprovalBroker)
wait_resume request ref b = elim (get_elem? b.objects ref) [
  | none ↦ none
  | some o ↦ if o.is_set then some (is_true o.decision, pop request.approval_id b) else none
]

-- The handlers of TimeoutError and CancelledError.
abbrev pub wait_abandon : ApprovalRequest → ApprovalBroker → ApprovalBroker
wait_abandon request b = pop request.approval_id b

unfoldable pub is_pending : String → String → ApprovalBroker → Bool
unfolding lookup
is_pending run_id approval_id b = elim (lookup approval_id b) [
  | none ↦ false
  | some (ref, o) ↦ not o.is_set && str_eq o.request.run_id run_id
]

abbrev pub decide_as : Bool → PendingApproval → PendingApproval
decide_as approved o = record o { decision = some approved; is_set = true }

unfoldable pub resolve : String → String → Bool → ApprovalBroker → Bool × ApprovalBroker
unfolding lookup
resolve run_id approval_id approved b = elim (lookup approval_id b) [
  | none ↦ (false, b)
  | some (ref, o) ↦
      if o.is_set || not (str_eq o.request.run_id run_id)
      then (false, b)
      else (true, record b { objects = modify b.objects ref (decide_as approved) })
]

-- One round of the loop of `cancel_run`.
abbrev pub cancel_one : String → String → ℕ → ApprovalBroker → ApprovalBroker
cancel_one run_id approval_id ref b = elim (get_elem? b.objects ref) [
  | none ↦ b
  | some o ↦
      if str_eq o.request.run_id run_id
      then (record {
        objects = modify b.objects ref (decide_as false);
        pending = Dict.remove approval_id b.pending;
      })
      else b
]

abbrev pub cancel_each : String → Dict ℕ → ApprovalBroker → ApprovalBroker
cancel_each run_id [] b = b
cancel_each run_id ((approval_id, ref) ∷ items) b =
    cancel_each run_id items (cancel_one run_id approval_id ref b)

unfoldable pub cancel_run : String → ApprovalBroker → ApprovalBroker
cancel_run run_id b = cancel_each run_id b.pending b
