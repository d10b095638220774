-- ===== src/Pipeline.antt =====
-- engine/execution/pipeline/pipeline.py and gate.py: the data of a pipeline and of its run.
--
-- A world, an argument, answers for what is outside: models, tools, gates, the registry of skills and
-- the checkpoint's file. Node executions are numbered; the number stands for the fresh provision id.
pub mod Pause
pub mod Guard
pub mod Collect
pub mod Loop
pub mod Settled
pub mod Rank
pub mod Outputs
pub mod Saved
pub mod Topology
pub mod Terminates
pub mod Resume
pub mod Resumed
pub mod Sessions
pub mod Pending
mod Tests
mod SessionTests
use helve.Base.{
  ℕ, ◌+◌, String, Bool, true, false, Option, none, some, List, [], ◌∷◌, ◌++◌, if◌then◌else◌, Text,
  codes,
}
use helve.Base.Dict.{Dict}

-- What the nodes and gates read of the shared context dict: the outputs by skill, and CTX_RETRY_HINT.
pub record Context : Type 0 where
  pub outputs : Dict Text
  pub retry_hint : Option Text

-- A node of a SkillChain. An empty marker is none.
pub record Node : Type 0 where
  pub skill_name : String
  pub condition : Option (Context → Bool)
  pub has_allowed_tools : Bool
  pub await_user_input_marker : Text
  pub infer_await_user_input_from_question : Bool

pub record Chain : Type 0 where
  pub nodes : List Node
  pub base_gates : ℕ
  pub backtrack_map : Dict String

pub data Verdict : Type 0 where
  passes fails retries : Verdict

pub record GateResult : Type 0 where
  pub verdict : Verdict
  pub reason : Text
  pub retry_hint : Option Text
  pub infra_failure : Bool

-- A hint as a gate gives it, which may be no string.
pub data Hint : Type 0 where
  no_hint bad_hint : Hint
  hint : Text → Hint

-- What a gate's check gives back: an exception, or a value with these attributes. `is_gate_result` says
-- that it is the engine's own class.
pub data Decision : Type 0 where
  raises : Decision
  answers :
      (is_gate_result : Bool)
      → Option Verdict
      → Option Text
      → Hint
      → (infra_failure : Bool) → Decision

abbrev pub hint_text : Hint → Option (Option Text)
hint_text no_hint = some none
hint_text bad_hint = none
hint_text (hint t) = some (some t)

-- coerce_gate_result, `none` for an exception of the check or a TypeError.
unfoldable pub coerce_gate_result : Decision → Option GateResult
coerce_gate_result raises = none
coerce_gate_result (answers own none reason h infra) = none
coerce_gate_result (answers own (some verdict) none h infra) = none
coerce_gate_result (answers own (some verdict) (some reason) h infra) = elim (hint_text h) [
  | none ↦ none
  | some retry_hint ↦ some (record {
    verdict = verdict;
    reason = reason;
    retry_hint = retry_hint;
    infra_failure = if own then infra else false;
  })
]

-- Why a node runs through its ReAct fallback.
pub data Fallback : Type 0 where
  disabled not_installed raised_error : Fallback
  not_complete base_gate_failed node_gate_failed : Text → Fallback

-- An event of a node's execution, as _collect_node_events tells them apart; a raw event is its text delta.
pub data StreamEvent : Type 0 where
  text_delta : Text → StreamEvent
  raw_response : Option Text → StreamEvent
  tool_call_result : (result_hash : Option Text) → StreamEvent
  incomplete failed : Text → StreamEvent
  other : StreamEvent

-- A node's execution: its events, and whether it ends or raises an exception after them.
pub record NodeRun : Type 0 where
  pub stream : List StreamEvent
  pub ends : Bool

pub record NodeResult : Type 0 where
  pub text : Text
  pub was_provisional : Bool
  pub incomplete_reason : Option Text
  pub failed_reason : Option Text
  pub evidence : List Text

pub data Cause : Type 0 where
  execution_error rubric_retry gate_unavailable : Cause
  because : Text → Cause

pub data SkillStatus : Type 0 where
  passed blocked retry error incomplete awaiting_input : SkillStatus

-- The events of the run.
pub data Event : Type 0 where
  skill_start : String → ℕ → Event
  provisional_delta : (provision : ℕ) → Text → Event
  forwarded : StreamEvent → Event
  commit : (provision : ℕ) → Event
  retract : (provision : ℕ) → Cause → Event
  skill_end : String → SkillStatus → Event
  gate_evidence : String → List Text → Event
  gate_result : String → Verdict → Text → Event
  reply : Text → (already_streamed : Bool) → Event
  awaiting : String → Event
  blocks : String → Text → Event
  backtrack : String → String → Text → Event
  gate_failed : Text → Event
  done : Event

pub record Checkpoint : Type 0 where
  pub skill_chain_index : ℕ
  pub node_skill : String
  pub outputs : Dict Text
  pub awaiting_user_input : Bool
  pub provisional_outputs : Dict Bool

-- What an execution is given.
pub record Asked : Type 0 where
  pub node : Node
  pub fallback : Option Fallback
  pub context : Context
  pub rubric_feedback : Option Text

pub record World : Type 0 where
  pub execute : ℕ → Asked → NodeRun
  pub base_check : ℕ → ℕ → Text → Context → Decision
  pub node_check : ℕ → Text → Context → Decision
  pub is_installed : String → Bool
  pub is_disabled : String → Bool
  pub can_scope : Bool
  pub persists : Bool
  pub saves : ℕ → Bool

-- The local variables of run_pipeline, the context, the checkpoint's file and the events so far.
pub record Machine : Type 0 where
  pub node_idx : ℕ
  pub backtrack_count : ℕ
  pub serial : ℕ
  pub context : Context
  pub committed_output_index : Dict ℕ
  pub committed_provisional_output : Dict Bool
  pub fallback_reasons : List (ℕ × Fallback)
  pub attempts : Dict ℕ
  pub checkpoint : Option Checkpoint
  pub events : List Event

-- How the run ends: a reply, a blocked or unfinished node, a pause, or a gate that could not be asked.
pub data Ending : Type 0 where
  completes gives_up pauses gate_is_unavailable : Ending

-- Where the loops stand: at the head of the outer loop, or of the inner one with so many attempts.
pub data Point : Type 0 where
  outer : Point
  inner : (attempt : ℕ) → (base_reason : Text) → Point

-- After a step the run goes on, has returned, or has raised an exception.
pub data Stage : Type 0 where
  goes_on : Point → Machine → Stage
  returned : Ending → Machine → Stage
  crashed : Machine → Stage

abbrev pub emit : List Event → Machine → Machine
emit events m = record m { events = m.events ++ events }
