-- ===== src/Pipeline/Outputs.antt =====
-- Between two steps the context holds outputs of earlier nodes only: a backtrack evicts the others.
pub mod Gates
pub mod Evicted
use helve.Base.{
  ℕ, zero, suc, ◌+◌, ◌<◌, ◌≡◌, refl, sym, String, Bool, true, false, ◌&&◌, not, Option, none, some,
  List, [], ◌∷◌, if◌then◌else◌, Text, codes, arith, Bool-cases, Option-cases, inl, inr, subst, ◌==◌,
  ltb, leb, str_eq, eq_iff, ap, ◌∙◌, get_elem?,
}
use helve.Base.Dict.{Dict, get, put, remove, get-put, get-remove}
use helve.Pipeline.{
  Node, Chain, GateResult, coerce_gate_result, Fallback, node_gate_failed, NodeResult, World,
  Machine, Point, outer, inner, Stage, goes_on, returned, crashed, emit, skill_start, because,
  retract, commit, gate_result,
}
use helve.Pipeline.Guard.{Action, switch, record_failure}
use helve.Pipeline.Collect.{streamed, no_result, collected}
use helve.Pipeline.Loop.Parts.{
  with_fallback, noted_fallback, with_hint, hinted, save_checkpoint, commit_output,
  evict_outputs_at_or_after, remove_all, keys_from, index_of, drop_fallback, drop_fallbacks_from,
  fallback_for, fallback_at, first_reason,
}
use helve.Pipeline.Loop.{
  crash, gate_unavailable_events, block, to_target, switch_back, act, escalate, gate_fails,
  gate_passes, is_pass, decided, check_node, check_base_gates, base_fails, base_decided, check_base,
  pause, evidence_events, judge, unfinished, broken, take_result, asked, run_node, attempt_node,
  finish, at_node, step, run, awaits_user, is_dedicated, skips, max_attempts,
}
use helve.Pipeline.Outputs.Evicted.{
  has_key, get-remove_all, keys_from-has_key, NamedNode, Tracked, TrackedMachine, TrackedStage,
  Tracked-later, Tracked-put, Tracked-evicted, TrackedStage-by, TrackedStage-if,
}
use helve.Pipeline.Outputs.Gates.{
  hinted-Tracked, hinted-evicted, to_target-Tracked, switch_back-Tracked, act-Tracked,
  gate_fails-Tracked, save_checkpoint-outputs, save_checkpoint-indices, Tracked-by,
  gate_passes-Tracked, check_node-Tracked, base_fails-Tracked, check_base-Tracked,
}

judge-Tracked :
    (w : World) (chain : Chain) (node : Node) (p attempt : ℕ) (f : Option Fallback) (r : NodeResult)
    (m : Machine)
    → get_elem? chain.nodes m.node_idx ≡ some node
    → TrackedMachine chain m
    → TrackedStage chain (judge w chain node p attempt f r m)
unfolding judge
judge-Tracked w chain node p attempt f r m here h =
    let noted : Machine = emit (evidence_events node r.evidence) m in
    TrackedStage-if chain (awaits_user node r.text) (pause w node p r m)
      (check_base w chain node p attempt f r noted) tt
      (check_base-Tracked w chain node p attempt f r noted here h)

unfinished-Tracked :
    (chain : Chain) (w : World) (node : Node) (p : ℕ) (here : Point) (f : Option Fallback)
    (reason : Text) (r : NodeResult) (m : Machine)
    → TrackedMachine chain m
    → TrackedStage chain (unfinished w node p here f reason r m)
unfinished-Tracked chain w node p here none reason r m h = h
unfinished-Tracked chain w node p here (some f) reason r m h = tt

broken-Tracked :
    (chain : Chain) (w : World) (node : Node) (p : ℕ) (here : Point) (f : Option Fallback)
    (m : Machine)
    → TrackedMachine chain m
    → TrackedStage chain (broken w node p here f m)
broken-Tracked chain w node p here none m h = h
broken-Tracked chain w node p here (some f) m h = tt

take_result-Tracked :
    (w : World) (chain : Chain) (node : Node) (p attempt : ℕ) (last : Text) (f : Option Fallback)
    (ends : Bool) (r : NodeResult) (m : Machine)
    → get_elem? chain.nodes m.node_idx ≡ some node
    → TrackedMachine chain m
    → TrackedStage chain (take_result w chain node p attempt last f ends r m)
unfolding take_result
take_result-Tracked w chain node p attempt last f false r m here h =
    broken-Tracked chain w node p (inner attempt last) f m h
take_result-Tracked w chain node p attempt last f true r m here h =
    elim (Option-cases (first_reason r.failed_reason r.incomplete_reason)) [
      | inl e ↦
          TrackedStage-by chain _ (judge w chain node p attempt f r m) (ground (arith, e))
            (judge-Tracked w chain node p attempt f r m here h)
      | inr (reason, e) ↦
          TrackedStage-by chain _ (unfinished w node p (inner attempt last) f reason r m)
            (ground (arith, e))
            (unfinished-Tracked chain w node p (inner attempt last) f reason r m h)
    ]

pub noted_fallback-Tracked :
    (chain : Chain) (f : Option Fallback) (m : Machine)
    → TrackedMachine chain m
    → TrackedMachine chain (noted_fallback f m)
noted_fallback-Tracked chain none m h = h
noted_fallback-Tracked chain (some f) m h = h

pub noted_fallback-node_idx :
    (f : Option Fallback) (m : Machine) → (noted_fallback f m).node_idx ≡ m.node_idx
noted_fallback-node_idx none m = refl
noted_fallback-node_idx (some f) m = refl

attempt_node-Tracked :
    (w : World) (chain : Chain) (node : Node) (attempt : ℕ) (last : Text) (m : Machine)
    → get_elem? chain.nodes m.node_idx ≡ some node
    → TrackedMachine chain m
    → TrackedStage chain (attempt_node w chain node attempt last m)
unfolding attempt_node
attempt_node-Tracked w chain node attempt last m here h =
    let f = fallback_for w node.skill_name (fallback_at m.node_idx m.fallback_reasons) in
    let started : Machine = noted_fallback f (record m { serial = suc m.serial }) in
    let result = w.execute m.serial (asked node attempt f started) in
    TrackedStage-if chain (node.has_allowed_tools && not w.can_scope)
      (crash w node m.serial started) (run_node w chain node m.serial attempt last f started) tt
      (take_result-Tracked w chain node m.serial attempt last f result.ends
        (collected no_result result.stream)
        (emit (streamed m.serial (is_dedicated f) result.stream) started)
        (ap (λ (i : ℕ). get_elem? chain.nodes i)
            (noted_fallback-node_idx f (record m { serial = suc m.serial }))
          ∙ here)
        (noted_fallback-Tracked chain f (record m { serial = suc m.serial }) h))

at_node-Tracked :
    (w : World) (chain : Chain) (point : Point) (node : Node) (m : Machine)
    → get_elem? chain.nodes m.node_idx ≡ some node
    → TrackedMachine chain m
    → TrackedStage chain (at_node w chain point node m)
at_node-Tracked w chain outer node m here h =
    TrackedStage-if chain (skips node.condition m.context)
      (goes_on outer (record (with_hint none m) { node_idx = suc m.node_idx }))
      (goes_on (inner 0 (codes "base gate failed"))
        (emit (skill_start node.skill_name m.node_idx ∷ []) m))
      (Tracked-later chain m.context.outputs m.committed_output_index m.node_idx h) h
at_node-Tracked w chain (inner attempt last) node m here h =
    TrackedStage-if chain (ltb attempt (max_attempts chain))
      (attempt_node w chain node attempt last m) (block w node last (with_hint none m))
      (attempt_node-Tracked w chain node attempt last m here h) tt

pub step-Tracked :
    (w : World) (chain : Chain) (point : Point) (m : Machine)
    → TrackedMachine chain m
    → TrackedStage chain (step w chain point m)
unfolding step finish
step-Tracked w chain point m h = elim (Option-cases (get_elem? chain.nodes m.node_idx)) [
  | inl e ↦ TrackedStage-by chain _ (finish w chain m) (ground (arith, e)) tt
  | inr (node, e) ↦
      TrackedStage-by chain _ (at_node w chain point node m) (ground (arith, e))
        (at_node-Tracked w chain point node m e h)
]

-- However far a run has come, backtracks included, the context holds outputs only of nodes of the chain before
-- the one where the loops stand, each recorded with its index, where it did so at the start.
pub run-Tracked :
    (w : World) (chain : Chain) (fuel : ℕ) (stage : Stage)
    → TrackedStage chain stage
    → TrackedStage chain (run w chain fuel stage)
unfolding run
run-Tracked w chain zero stage h = h
run-Tracked w chain (suc fuel) (goes_on point m) h =
    run-Tracked w chain fuel (step w chain point m) (step-Tracked w chain point m h)
run-Tracked w chain (suc fuel) (returned ending m) h = h
run-Tracked w chain (suc fuel) (crashed m) h = h
