-- ===== src/Pipeline/Loop/Gates.antt =====
-- engine/execution/pipeline/pipeline.py: the gates of a node, and what run_pipeline does on their answers.
use helve.Base.{
  ℕ, zero, suc, ◌+◌, String, Bool, true, false, Option, none, some, [], ◌∷◌, if◌then◌else◌, Text,
  codes, ltb, ◌==◌,
}
use helve.Base.Dict.{get}
use helve.Pipeline.{
  Context, Node, Chain, Verdict, passes, GateResult, coerce_gate_result, Fallback, base_gate_failed,
  node_gate_failed, NodeResult, execution_error, rubric_retry, because, SkillStatus, passed,
  blocked, error, commit, retract, skill_end, gate_result, blocks, backtrack, gate_failed, done,
  World, Machine, gives_up, gate_is_unavailable, outer, inner, Stage, goes_on, returned, crashed,
  emit, gate_unavailable,
}
use helve.Pipeline.Guard.{Action, switch, record_failure}
use helve.Pipeline.Loop.Parts.{
  with_fallback, with_hint, hinted, drop_fallback, drop_fallbacks_from, clear_checkpoint,
  save_checkpoint, commit_output, evict_outputs_at_or_after, index_of,
}

-- The `except` of the outer loop's body; the provision is not settled where an exception can come from.
abbrev pub crash : World → Node → ℕ → Machine → Stage
crash w node provision m = crashed (
    clear_checkpoint w
      (emit (retract provision execution_error ∷ skill_end node.skill_name error ∷ []) m))

-- _gate_unavailable_events, and the return.
abbrev pub gate_unavailable_events : Node → ℕ → Text → Machine → Stage
gate_unavailable_events node provision reason m = returned gate_is_unavailable (
    emit
      (retract provision gate_unavailable
        ∷ gate_failed reason
        ∷ skill_end node.skill_name error
        ∷ done
        ∷ [])
      m)

-- A BLOCKED outcome, and the return.
abbrev pub block : World → Node → Text → Machine → Stage
block w node reason m = returned gives_up (
    emit (skill_end node.skill_name blocked ∷ blocks node.skill_name reason ∷ done ∷ [])
      (clear_checkpoint w m))

abbrev pub to_target : Node → String → GateResult → ℕ → Machine → Stage
to_target node target g target_idx m =
    goes_on outer
      (record (emit (backtrack node.skill_name target g.reason ∷ []) (
        hinted g.retry_hint (record (evict_outputs_at_or_after target_idx m) {
          fallback_reasons = drop_fallbacks_from target_idx m.fallback_reasons;
        }))) { node_idx = target_idx })

-- The branch of the action "switch", with the backtrack counted.
unfoldable pub switch_back : World → Chain → Node → GateResult → String → Machine → Stage
switch_back w chain node g target m =
    if ltb 5 m.backtrack_count
    then block w node (codes "max backtracks") m
    else elim (index_of target 0 chain.nodes) [
      | none ↦ block w node (codes "backtrack target not found") m
      | some target_idx ↦ to_target node target g target_idx m
    ]

abbrev pub act : World → Chain → Node → GateResult → Action → Option String → Machine → Stage
act w chain node g Action.blocked target m = block w node g.reason m
act w chain node g switch none m = block w node g.reason m
act w chain node g switch (some target) m =
    switch_back w chain node g target (record m { backtrack_count = m.backtrack_count + 1 })
act w chain node g Action.retry target m =
    goes_on outer (emit (skill_end node.skill_name SkillStatus.retry ∷ []) (hinted g.retry_hint m))

-- The guard's decision after a fallback's output has failed the node's gate.
unfoldable pub escalate : World → Chain → Node → GateResult → Machine → Stage
escalate w chain node g m =
    let (action, attempts) = record_failure node.skill_name m.attempts in
    act w chain node g action (get node.skill_name chain.backtrack_map)
      (record m { attempts = attempts })

abbrev pub gate_fails : World → Chain → Node → ℕ → Option Fallback → GateResult → Machine → Stage
gate_fails w chain node provision none g m = goes_on outer (
    emit (skill_end node.skill_name SkillStatus.retry ∷ []) (
      hinted g.retry_hint (
        with_fallback (node_gate_failed g.reason)
          (emit (retract provision (because g.reason) ∷ []) m))))
gate_fails w chain node provision (some reason) g m =
    escalate w chain node g (emit (retract provision (because g.reason) ∷ []) m)

abbrev pub gate_passes : World → Node → ℕ → NodeResult → Machine → Stage
gate_passes w node provision r m =
    let committed = commit_output node r.text r.was_provisional (emit (commit provision ∷ []) m) in
    let saved =
      save_checkpoint w node false
        (record committed { fallback_reasons = drop_fallback m.node_idx m.fallback_reasons }) in
    goes_on outer
      (record (emit (skill_end node.skill_name passed ∷ []) saved) { node_idx = suc m.node_idx })

abbrev pub is_pass : Verdict → Bool
is_pass passes = true
is_pass _ = false

abbrev pub decided :
    World → Chain → Node → ℕ → Option Fallback → NodeResult → GateResult → Machine → Stage
decided w chain node provision fallback r g m =
    if g.infra_failure
    then gate_unavailable_events node provision g.reason m
    else if is_pass g.verdict
    then gate_passes w node provision r m
    else gate_fails w chain node provision fallback g m

-- The node's own gate.
unfoldable pub check_node :
    World → Chain → Node → ℕ → Option Fallback → NodeResult → Machine → Stage
check_node w chain node provision fallback r m =
    elim (coerce_gate_result (w.node_check provision r.text (with_hint none m).context)) [
      | none ↦ crash w node provision (with_hint none m)
      | some g ↦
          decided w chain node provision fallback r g
            (emit (gate_result node.skill_name g.verdict g.reason ∷ []) (with_hint none m))
    ]

-- _check_base_gates from the gate i on, with so many left; `none` for an exception.
unfoldable pub check_base_gates : World → ℕ → Text → Context → ℕ → ℕ → Option GateResult
check_base_gates w provision output context i zero = some (record {
  verdict = passes;
  reason = codes "base gates passed";
  retry_hint = none;
  infra_failure = false;
})
check_base_gates w provision output context i (suc left) =
    let later = check_base_gates w provision output context (suc i) left in
    elim (coerce_gate_result (w.base_check provision i output context)) [
      | none ↦ none
      | some g ↦ if is_pass g.verdict then later else some g
    ]

abbrev pub or_empty : Option Text → Text
or_empty none = []
or_empty (some text) = text

abbrev pub base_fails : ℕ → ℕ → Option Fallback → GateResult → Machine → Stage
base_fails provision attempt none g m = goes_on (inner attempt g.reason) (
    with_fallback (base_gate_failed g.reason)
      (emit (retract provision rubric_retry ∷ []) (with_hint (some (or_empty g.retry_hint)) m)))
base_fails provision attempt (some reason) g m =
    goes_on (inner (suc attempt) g.reason)
      (emit (retract provision rubric_retry ∷ []) (with_hint (some (or_empty g.retry_hint)) m))

abbrev pub base_decided :
    World → Chain → Node → ℕ → ℕ → Option Fallback → NodeResult → GateResult → Machine → Stage
base_decided w chain node provision attempt fallback r g m =
    if g.infra_failure
    then gate_unavailable_events node provision g.reason m
    else if is_pass g.verdict
    then check_node w chain node provision fallback r m
    else base_fails provision attempt fallback g m

-- The base gates, where the chain has any.
unfoldable pub check_base :
    World → Chain → Node → ℕ → ℕ → Option Fallback → NodeResult → Machine → Stage
check_base w chain node provision attempt fallback r m =
    if chain.base_gates == 0
    then check_node w chain node provision fallback r m
    else elim (check_base_gates w provision r.text m.context 0 chain.base_gates) [
      | none ↦ crash w node provision m
      | some g ↦ base_decided w chain node provision attempt fallback r g m
    ]
