-- ===== src/Pipeline/Saved.antt =====
-- What a run of the chain leaves in the session's checkpoint: _save_checkpoint and _clear_checkpoint of
-- engine/execution/pipeline/pipeline.py.
pub mod Checkpoints
use helve.Base.{
  ℕ, zero, suc, ◌+◌, ◌≡◌, refl, ap, ◌∙◌, String, Bool, true, false, ◌&&◌, not, Option, none, some,
  [], ◌∷◌, if◌then◌else◌, Text, codes, arith, Bool-cases, Option-cases, inl, inr, subst, sym, ◌==◌,
  ltb, get_elem?,
}
use helve.Base.Dict.{Dict, get, put}
use helve.Pipeline.{
  Node, Chain, Checkpoint, GateResult, coerce_gate_result, Fallback, node_gate_failed, NodeResult,
  World, Machine, Point, outer, inner, Stage, goes_on, returned, crashed, emit, skill_start,
  because, retract, commit, gate_result,
}
use helve.Pipeline.Guard.{Action, switch, record_failure}
use helve.Pipeline.Collect.{streamed, no_result, collected}
use helve.Pipeline.Pause.{without, rstrip}
use helve.Pipeline.Loop.Parts.{
  with_fallback, noted_fallback, with_hint, hinted, save_checkpoint, clear_checkpoint,
  commit_output, evict_outputs_at_or_after, index_of, drop_fallback, drop_fallbacks_from,
  fallback_for, fallback_at, first_reason,
}
use helve.Pipeline.Loop.{
  crash, gate_unavailable_events, block, to_target, switch_back, act, escalate, gate_fails,
  gate_passes, is_pass, decided, check_node, check_base_gates, base_fails, base_decided, check_base,
  pause, evidence_events, judge, unfinished, broken, take_result, asked, run_node, attempt_node,
  finish, at_node, step, run, awaits_user, is_dedicated, skips, max_attempts,
}
use helve.Pipeline.Outputs.Evicted.{NamedNode, Tracked, TrackedMachine, TrackedStage, Tracked-put}
use helve.Pipeline.Outputs.{noted_fallback-Tracked, noted_fallback-node_idx, step-Tracked}
use helve.Pipeline.Saved.Checkpoints.{
  Saved, left_by, SavedStage, SavedStage-by, SavedStage-if, if-Saved, clear-Saved, commit-Saved,
  hinted-checkpoint, hinted-Saved, to_target-Saved, switch_back-Saved, act-Saved, gate_fails-Saved,
}

module _ (w : World) (chain : Chain) (node : Node) (p : ℕ) where
  gate_passes-Saved :
      (r : NodeResult) (m : Machine)
      → get_elem? chain.nodes m.node_idx ≡ some node
      → TrackedMachine chain m
      → Saved chain m.checkpoint
      → SavedStage chain (gate_passes w node p r m)
  gate_passes-Saved r m here t h =
      let committed : Machine =
        commit_output node r.text r.was_provisional (emit (commit p ∷ []) m) in
      let dropped : Machine = record committed {
        fallback_reasons = drop_fallback m.node_idx m.fallback_reasons;
      } in
      commit-Saved chain w node false r.text m dropped here t h refl refl refl

  pause-Saved :
      (r : NodeResult) (m : Machine)
      → get_elem? chain.nodes m.node_idx ≡ some node
      → TrackedMachine chain m
      → Saved chain m.checkpoint
      → SavedStage chain (pause w node p r m)
  pause-Saved r m here t h =
      let visible = rstrip (without node.await_user_input_marker r.text) in
      commit-Saved chain w node true visible m
        (commit_output node visible r.was_provisional (emit (commit p ∷ []) m)) here t h refl refl
        refl

  crash-Saved : (m : Machine) → Saved chain m.checkpoint → SavedStage chain (crash w node p m)
  crash-Saved m h = clear-Saved chain w (emit (retract p _ ∷ _ ∷ []) m) h

  check_node-Saved :
      (f : Option Fallback) (r : NodeResult) (m : Machine)
      → get_elem? chain.nodes m.node_idx ≡ some node
      → TrackedMachine chain m
      → Saved chain m.checkpoint
      → SavedStage chain (check_node w chain node p f r m)
  unfolding check_node
  check_node-Saved f r m here t h =
      let clean : Machine = with_hint none m in
      elim (Option-cases (coerce_gate_result (w.node_check p r.text clean.context))) [
        | inl e ↦
            SavedStage-by chain (check_node w chain node p f r m) (crash w node p clean)
              (ground (arith, e)) (crash-Saved clean h)
        | inr (g, e) ↦
            let judged : Machine =
              emit (gate_result node.skill_name g.verdict g.reason ∷ []) clean in
            SavedStage-by chain (check_node w chain node p f r m)
              (decided w chain node p f r g judged) (ground (arith, e))
              (SavedStage-if chain g.infra_failure (gate_unavailable_events node p g.reason judged)
                _ h
                (SavedStage-if chain (is_pass g.verdict) (gate_passes w node p r judged)
                  (gate_fails w chain node p f g judged) (gate_passes-Saved r judged here t h)
                  (gate_fails-Saved w chain node p f g judged h)))
      ]

  base_fails-Saved :
      (attempt : ℕ) (f : Option Fallback) (g : GateResult) (m : Machine)
      → Saved chain m.checkpoint
      → SavedStage chain (base_fails p attempt f g m)
  base_fails-Saved attempt none g m h = h
  base_fails-Saved attempt (some f) g m h = h

  check_base-Saved :
      (attempt : ℕ) (f : Option Fallback) (r : NodeResult) (m : Machine)
      → get_elem? chain.nodes m.node_idx ≡ some node
      → TrackedMachine chain m
      → Saved chain m.checkpoint
      → SavedStage chain (check_base w chain node p attempt f r m)
  unfolding check_base
  check_base-Saved attempt f r m here t h = elim (Bool-cases (chain.base_gates == 0)) [
    | inl b ↦
        SavedStage-by chain (check_base w chain node p attempt f r m)
          (check_node w chain node p f r m) (ground (arith, b)) (check_node-Saved f r m here t h)
    | inr b ↦ elim (Option-cases (check_base_gates w p r.text m.context 0 chain.base_gates)) [
      | inl e ↦
          SavedStage-by chain (check_base w chain node p attempt f r m) (crash w node p m)
            (ground (arith, b, e)) (crash-Saved m h)
      | inr (g, e) ↦
          SavedStage-by chain (check_base w chain node p attempt f r m)
            (base_decided w chain node p attempt f r g m) (ground (arith, b, e))
            (SavedStage-if chain g.infra_failure (gate_unavailable_events node p g.reason m) _ h (
              SavedStage-if chain (is_pass g.verdict) (check_node w chain node p f r m)
                (base_fails p attempt f g m) (check_node-Saved f r m here t h)
                (base_fails-Saved attempt f g m h)))
    ]
  ]

  judge-Saved :
      (attempt : ℕ) (f : Option Fallback) (r : NodeResult) (m : Machine)
      → get_elem? chain.nodes m.node_idx ≡ some node
      → TrackedMachine chain m
      → Saved chain m.checkpoint
      → SavedStage chain (judge w chain node p attempt f r m)
  unfolding judge
  judge-Saved attempt f r m here t h =
      let noted : Machine = emit (evidence_events node r.evidence) m in
      SavedStage-if chain (awaits_user node r.text) (pause w node p r m)
        (check_base w chain node p attempt f r noted) (pause-Saved r m here t h)
        (check_base-Saved attempt f r noted here t h)

  unfinished-Saved :
      (here : Point) (f : Option Fallback) (reason : Text) (r : NodeResult) (m : Machine)
      → Saved chain m.checkpoint
      → SavedStage chain (unfinished w node p here f reason r m)
  unfinished-Saved here none reason r m h = h
  unfinished-Saved here (some f) reason r m h = clear-Saved chain w (emit _ m) h

  broken-Saved :
      (here : Point) (f : Option Fallback) (m : Machine)
      → Saved chain m.checkpoint
      → SavedStage chain (broken w node p here f m)
  broken-Saved here none m h = h
  broken-Saved here (some f) m h = crash-Saved m h

  take_result-Saved :
      (attempt : ℕ) (last : Text) (f : Option Fallback) (ends : Bool) (r : NodeResult) (m : Machine)
      → get_elem? chain.nodes m.node_idx ≡ some node
      → TrackedMachine chain m
      → Saved chain m.checkpoint
      → SavedStage chain (take_result w chain node p attempt last f ends r m)
  unfolding take_result
  take_result-Saved attempt last f false r m here t h = broken-Saved (inner attempt last) f m h
  take_result-Saved attempt last f true r m here t h =
      elim (Option-cases (first_reason r.failed_reason r.incomplete_reason)) [
        | inl e ↦
            SavedStage-by chain (take_result w chain node p attempt last f true r m)
              (judge w chain node p attempt f r m) (ground (arith, e))
              (judge-Saved attempt f r m here t h)
        | inr (reason, e) ↦
            SavedStage-by chain (take_result w chain node p attempt last f true r m)
              (unfinished w node p (inner attempt last) f reason r m) (ground (arith, e))
              (unfinished-Saved (inner attempt last) f reason r m h)
      ]

noted_fallback-checkpoint :
    (f : Option Fallback) (m : Machine) → (noted_fallback f m).checkpoint ≡ m.checkpoint
noted_fallback-checkpoint none m = refl
noted_fallback-checkpoint (some f) m = refl

attempt_node-Saved :
    (w : World) (chain : Chain) (node : Node) (attempt : ℕ) (last : Text) (m : Machine)
    → get_elem? chain.nodes m.node_idx ≡ some node
    → TrackedMachine chain m
    → Saved chain m.checkpoint
    → SavedStage chain (attempt_node w chain node attempt last m)
unfolding attempt_node
attempt_node-Saved w chain node attempt last m here t h =
    let f = fallback_for w node.skill_name (fallback_at m.node_idx m.fallback_reasons) in
    let counted : Machine = record m { serial = suc m.serial } in
    let started : Machine = noted_fallback f counted in
    let result = w.execute m.serial (asked node attempt f started) in
    let kept : Saved chain started.checkpoint =
      subst (Saved chain) (sym (noted_fallback-checkpoint f counted)) h in
    SavedStage-if chain (node.has_allowed_tools && not w.can_scope) (crash w node m.serial started)
      (run_node w chain node m.serial attempt last f started)
      (crash-Saved w chain node m.serial started kept)
      (take_result-Saved w chain node m.serial attempt last f result.ends
        (collected no_result result.stream)
        (emit (streamed m.serial (is_dedicated f) result.stream) started)
        (ap (λ (i : ℕ). get_elem? chain.nodes i) (noted_fallback-node_idx f counted) ∙ here)
        (noted_fallback-Tracked chain f counted t) kept)

at_node-Saved :
    (w : World) (chain : Chain) (point : Point) (node : Node) (m : Machine)
    → get_elem? chain.nodes m.node_idx ≡ some node
    → TrackedMachine chain m
    → Saved chain m.checkpoint
    → SavedStage chain (at_node w chain point node m)
at_node-Saved w chain outer node m here t h =
    SavedStage-if chain (skips node.condition m.context)
      (goes_on outer (record (with_hint none m) { node_idx = suc m.node_idx }))
      (goes_on (inner 0 (codes "base gate failed"))
        (emit (skill_start node.skill_name m.node_idx ∷ []) m))
      h h
at_node-Saved w chain (inner attempt last) node m here t h =
    SavedStage-if chain (ltb attempt (max_attempts chain))
      (attempt_node w chain node attempt last m) (block w node last (with_hint none m))
      (attempt_node-Saved w chain node attempt last m here t h)
      (clear-Saved chain w (with_hint none m) h)

step-Saved :
    (w : World) (chain : Chain) (point : Point) (m : Machine)
    → TrackedMachine chain m
    → Saved chain m.checkpoint
    → SavedStage chain (step w chain point m)
unfolding step finish
step-Saved w chain point m t h = elim (Option-cases (get_elem? chain.nodes m.node_idx)) [
  | inl e ↦
      SavedStage-by chain (step w chain point m) (finish w chain m) (ground (arith, e))
        (clear-Saved chain w (emit _ m) h)
  | inr (node, e) ↦
      SavedStage-by chain (step w chain point m) (at_node w chain point node m) (ground (arith, e))
        (at_node-Saved w chain point node m e t h)
]

-- Whatever the world answers and however far a run has come, also where it has ended, the checkpoint that it leaves names
-- a node of the chain and holds outputs only of that node and earlier ones, where it did so at the start.
pub run-Saved :
    (w : World) (chain : Chain) (fuel : ℕ) (stage : Stage)
    → TrackedStage chain stage
    → SavedStage chain stage
    → SavedStage chain (run w chain fuel stage)
unfolding run
run-Saved w chain zero stage t h = h
run-Saved w chain (suc fuel) (goes_on point m) t h =
    run-Saved w chain fuel (step w chain point m) (step-Tracked w chain point m t)
      (step-Saved w chain point m t h)
run-Saved w chain (suc fuel) (returned ending m) t h = h
run-Saved w chain (suc fuel) (crashed m) t h = h
