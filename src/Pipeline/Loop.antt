-- ===== src/Pipeline/Loop.antt =====
-- engine/execution/pipeline/pipeline.py: run_pipeline, as steps of its two loops.
--
-- A step is the head of the outer loop for one node, or one round of the inner loop with all that
-- follows it for the node. `goes_on` is a `continue`, or the end of the outer loop's body.
mod Gates
pub mod Parts
use helve.Base.{
  ℕ, zero, suc, ◌+◌, String, Bool, true, false, ◌&&◌, ◌||◌, not, Option, none, some, List, [], ◌∷◌,
  ◌++◌, if◌then◌else◌, Text, codes, ltb, leb, ◌==◌, contains, get_elem?, length,
}
use helve.Base.Dict.{Dict, get, put}
use helve.Pipeline.{
  Context, Node, Chain, Verdict, passes, GateResult, coerce_gate_result, Fallback, raised_error,
  not_complete, base_gate_failed, node_gate_failed, NodeRun, NodeResult, Cause, execution_error,
  rubric_retry, because, SkillStatus, passed, blocked, error, incomplete, awaiting_input, Event,
  skill_start, commit, retract, skill_end, gate_evidence, gate_result, reply, awaiting, blocks,
  backtrack, gate_failed, done, Asked, World, Machine, Ending, completes, gives_up, pauses,
  gate_is_unavailable, Point, outer, inner, Stage, goes_on, returned, crashed, emit,
  gate_unavailable,
}
use helve.Pipeline.Guard.{Action, switch, record_failure}
use helve.Pipeline.Pause.{without, rstrip, ends_with_user_question, is_budget_message}
use helve.Pipeline.Collect.{no_result, collected, streamed}
use helve.Pipeline.Loop.Parts.{
  fallback_at, fallback_for, noted_fallback, with_fallback, with_hint, hinted, truthy, first_reason,
  drop_fallback, drop_fallbacks_from, clear_checkpoint, save_checkpoint, commit_output,
  evict_outputs_at_or_after, index_of,
}
pub use Gates.{
  crash, gate_unavailable_events, block, to_target, act, gate_fails, gate_passes, is_pass, decided,
  or_empty, base_fails, base_decided,
}
unfoldable pub use Gates.{switch_back, escalate, check_node, check_base_gates, check_base}

abbrev pub is_empty : Text → Bool
is_empty [] = true
is_empty _ = false

abbrev pub awaits_user : Node → Text → Bool
awaits_user node output =
    not (is_empty node.await_user_input_marker)
    && (contains node.await_user_input_marker output
        || (node.infer_await_user_input_from_question && ends_with_user_question output))

-- A deliberate pause for the user.
abbrev pub pause : World → Node → ℕ → NodeResult → Machine → Stage
pause w node provision r m =
    let visible = rstrip (without node.await_user_input_marker r.text) in
    let saved =
      save_checkpoint w node true
        (commit_output node visible r.was_provisional (emit (commit provision ∷ []) m)) in
    returned pauses (
      emit
        (skill_end node.skill_name awaiting_input
          ∷ reply visible r.was_provisional
          ∷ awaiting node.skill_name
          ∷ done
          ∷ [])
        saved)

abbrev pub evidence_events : Node → List Text → List Event
evidence_events node [] = []
evidence_events node (e ∷ evidence) = gate_evidence node.skill_name (e ∷ evidence) ∷ []

unfoldable pub judge : World → Chain → Node → ℕ → ℕ → Option Fallback → NodeResult → Machine → Stage
judge w chain node provision attempt fallback r m =
    if awaits_user node r.text
    then pause w node provision r m
    else check_base w chain node provision attempt fallback r
        (emit (evidence_events node r.evidence) m)

abbrev pub notice : Text → List Event
notice text = if is_budget_message text then reply text false ∷ [] else []

abbrev pub end_status : Option Text → SkillStatus
end_status none = error
end_status (some reason) = incomplete

-- The attempt ended as incomplete or failed.
abbrev pub unfinished :
    World → Node → ℕ → Point → Option Fallback → Text → NodeResult → Machine → Stage
unfinished w node provision here none reason r m =
    goes_on here
      (with_fallback (not_complete reason) (emit (retract provision (because reason) ∷ []) m))
unfinished w node provision here (some f) reason r m = returned gives_up (
    emit (skill_end node.skill_name (end_status (truthy r.incomplete_reason)) ∷ done ∷ [])
      (clear_checkpoint w (emit (retract provision (because reason) ∷ notice r.text) m)))

-- The attempt raised an exception.
abbrev pub broken : World → Node → ℕ → Point → Option Fallback → Machine → Stage
broken w node provision here none m =
    goes_on here (with_fallback raised_error (emit (retract provision execution_error ∷ []) m))
broken w node provision here (some f) m = crash w node provision m

unfoldable pub take_result :
    World → Chain → Node → ℕ → ℕ → Text → Option Fallback → Bool → NodeResult → Machine → Stage
take_result w chain node provision attempt last fallback ends r m =
    if ends
    then elim (first_reason r.failed_reason r.incomplete_reason) [
      | some reason ↦ unfinished w node provision (inner attempt last) fallback reason r m
      | none ↦ judge w chain node provision attempt fallback r m
    ]
    else broken w node provision (inner attempt last) fallback m

-- skill_context[CTX_RUBRIC_FEEDBACK]
abbrev pub feedback : ℕ → Option Text → Option Text
feedback attempt hint =
    if attempt == 2
    then some (codes "Switch strategy: try a completely different approach.")
    else if leb attempt 1
    then truthy hint
    else none

abbrev pub is_dedicated : Option Fallback → Bool
is_dedicated none = true
is_dedicated (some reason) = false

abbrev pub asked : Node → ℕ → Option Fallback → Machine → Asked
asked node attempt fallback m = record {
  node = node;
  fallback = fallback;
  context = m.context;
  rubric_feedback = feedback attempt m.context.retry_hint;
}

-- The attempt with its events, which are passed on as they come.
abbrev pub with_run :
    World → Chain → Node → ℕ → ℕ → Text → Option Fallback → NodeRun → Machine → Stage
with_run w chain node provision attempt last fallback run m =
    take_result w chain node provision attempt last fallback run.ends
      (collected no_result run.stream)
      (emit (streamed provision (is_dedicated fallback) run.stream) m)

abbrev pub run_node : World → Chain → Node → ℕ → ℕ → Text → Option Fallback → Machine → Stage
run_node w chain node provision attempt last fallback m =
    with_run w chain node provision attempt last fallback
      (w.execute provision (asked node attempt fallback m)) m

-- One round of the inner loop.
unfoldable pub attempt_node : World → Chain → Node → ℕ → Text → Machine → Stage
attempt_node w chain node attempt last m =
    let fallback = fallback_for w node.skill_name (fallback_at m.node_idx m.fallback_reasons) in
    let started = noted_fallback fallback (record m { serial = suc m.serial }) in
    if node.has_allowed_tools && not w.can_scope
    then crash w node m.serial started
    else run_node w chain node m.serial attempt last fallback started

-- _BASE_GATE_MAX_RETRIES, or 1 where the chain has no base gates.
abbrev pub max_attempts : Chain → ℕ
max_attempts chain = if chain.base_gates == 0 then 1 else 3

abbrev pub skips : Option (Context → Bool) → Context → Bool
skips none context = false
skips (some condition) context = not (condition context)

abbrev pub last_output : List Node → Dict Text → Option (String × Text)
last_output [] outputs = none
last_output (node ∷ nodes) outputs = elim (last_output nodes outputs) [
  | some found ↦ some found
  | none ↦ elim (get node.skill_name outputs) [
    | none ↦ none
    | some text ↦ some (node.skill_name, text)
  ]
]

abbrev pub is_true : Option Bool → Bool
is_true none = false
is_true (some b) = b

abbrev pub final_reply : Option (String × Text) → Dict Bool → List Event
final_reply none provisional = []
final_reply (some (skill, text)) provisional = reply text (is_true (get skill provisional)) ∷ []

-- The end of run_pipeline, after the last node.
unfoldable pub finish : World → Chain → Machine → Stage
finish w chain m = returned completes (
    emit (done ∷ []) (
      clear_checkpoint w (
        emit
          (final_reply (last_output chain.nodes m.context.outputs) m.committed_provisional_output)
          m)))

abbrev pub enter : Node → Machine → Stage
enter node m =
    if skips node.condition m.context
    then goes_on outer (record (with_hint none m) { node_idx = suc m.node_idx })
    else goes_on (inner 0 (codes "base gate failed"))
        (emit (skill_start node.skill_name m.node_idx ∷ []) m)

abbrev pub at_node : World → Chain → Point → Node → Machine → Stage
at_node w chain outer node m = enter node m
at_node w chain (inner attempt last) node m =
    if ltb attempt (max_attempts chain)
    then attempt_node w chain node attempt last m
    else block w node last (with_hint none m)

unfoldable pub step : World → Chain → Point → Machine → Stage
step w chain point m = elim (get_elem? chain.nodes m.node_idx) [
  | none ↦ finish w chain m
  | some node ↦ at_node w chain point node m
]

-- The loops, on fuel.
unfoldable pub run : World → Chain → ℕ → Stage → Stage
run w chain zero stage = stage
run w chain (suc fuel) (goes_on point m) = run w chain fuel (step w chain point m)
run w chain (suc fuel) (returned ending m) = returned ending m
run w chain (suc fuel) (crashed m) = crashed m
