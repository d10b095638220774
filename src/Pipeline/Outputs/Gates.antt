-- ===== src/Pipeline/Outputs/Gates.antt =====
-- engine/execution/pipeline/pipeline.py: the outputs in the context after the gates have answered.
use helve.Base.{
  ℕ, suc, ◌+◌, ◌≡◌, refl, sym, String, Bool, false, Option, none, some, [], ◌∷◌, Text, codes, arith,
  Bool-cases, Option-cases, inl, inr, subst, ◌==◌, ltb, get_elem?,
}
use helve.Base.Dict.{Dict, get}
use helve.Pipeline.{
  Node, Chain, GateResult, coerce_gate_result, Fallback, node_gate_failed, NodeResult, World,
  Machine, emit, because, retract, commit, gate_result,
}
use helve.Pipeline.Guard.{Action, switch, record_failure}
use helve.Pipeline.Loop.Parts.{
  with_fallback, with_hint, hinted, save_checkpoint, commit_output, evict_outputs_at_or_after,
  index_of, drop_fallback, drop_fallbacks_from,
}
use helve.Pipeline.Loop.{
  crash, gate_unavailable_events, block, to_target, switch_back, act, escalate, gate_fails,
  gate_passes, is_pass, decided, check_node, check_base_gates, base_fails, base_decided, check_base,
}
use helve.Pipeline.Outputs.Evicted.{
  Tracked, TrackedMachine, TrackedStage, Tracked-put, Tracked-evicted, TrackedStage-by,
  TrackedStage-if,
}

pub hinted-Tracked :
    (chain : Chain) (o : Option Text) (m : Machine)
    → TrackedMachine chain m
    → TrackedMachine chain (hinted o m)
hinted-Tracked chain none m h = h
hinted-Tracked chain (some []) m h = h
hinted-Tracked chain (some (c ∷ t)) m h = h

pub hinted-evicted :
    (chain : Chain) (o : Option Text) (m : Machine) (t : ℕ)
    → Tracked chain m.context.outputs m.committed_output_index t
    → Tracked chain (hinted o m).context.outputs (hinted o m).committed_output_index t
hinted-evicted chain none m t h = h
hinted-evicted chain (some []) m t h = h
hinted-evicted chain (some (c ∷ x)) m t h = h

pub to_target-Tracked :
    (chain : Chain) (node : Node) (target : String) (g : GateResult) (t : ℕ) (m : Machine)
    → TrackedMachine chain m
    → TrackedStage chain (to_target node target g t m)
unfolding evict_outputs_at_or_after
to_target-Tracked chain node target g t m h =
    let cut : Machine = record (evict_outputs_at_or_after t m) {
      fallback_reasons = drop_fallbacks_from t m.fallback_reasons;
    } in
    hinted-evicted chain g.retry_hint cut t
      (Tracked-evicted chain m.context.outputs m.committed_output_index m.node_idx t h)

pub switch_back-Tracked :
    (w : World) (chain : Chain) (node : Node) (g : GateResult) (target : String) (m : Machine)
    → TrackedMachine chain m
    → TrackedStage chain (switch_back w chain node g target m)
unfolding switch_back
switch_back-Tracked w chain node g target m h = elim (Bool-cases (ltb 5 m.backtrack_count)) [
  | inl b ↦ TrackedStage-by chain _ (block w node (codes "max backtracks") m) (ground (arith, b)) tt
  | inr b ↦ elim (Option-cases (index_of target 0 chain.nodes)) [
    | inl e ↦
        TrackedStage-by chain _ (block w node (codes "backtrack target not found") m)
          (ground (arith, b, e)) tt
    | inr (t, e) ↦
        TrackedStage-by chain _ (to_target node target g t m) (ground (arith, b, e))
          (to_target-Tracked chain node target g t m h)
  ]
]

pub act-Tracked :
    (w : World) (chain : Chain) (node : Node) (g : GateResult) (a : Action) (t : Option String)
    (m : Machine)
    → TrackedMachine chain m
    → TrackedStage chain (act w chain node g a t m)
act-Tracked w chain node g Action.blocked t m h = tt
act-Tracked w chain node g switch none m h = tt
act-Tracked w chain node g switch (some target) m h =
    switch_back-Tracked w chain node g target (record m { backtrack_count = m.backtrack_count + 1 })
      h
act-Tracked w chain node g Action.retry t m h = hinted-Tracked chain g.retry_hint m h

pub gate_fails-Tracked :
    (w : World) (chain : Chain) (node : Node) (p : ℕ) (f : Option Fallback) (g : GateResult)
    (m : Machine)
    → TrackedMachine chain m
    → TrackedStage chain (gate_fails w chain node p f g m)
unfolding escalate
gate_fails-Tracked w chain node p none g m h =
    hinted-Tracked chain g.retry_hint
      (with_fallback (node_gate_failed g.reason) (emit (retract p (because g.reason) ∷ []) m)) h
gate_fails-Tracked w chain node p (some f) g m h =
    let r = record_failure node.skill_name m.attempts in
    act-Tracked w chain node g r.0 (get node.skill_name chain.backtrack_map)
      (record (emit (retract p (because g.reason) ∷ []) m) { attempts = r.1 }) h

pub save_checkpoint-outputs :
    (w : World) (node : Node) (a : Bool) (m : Machine)
    → (save_checkpoint w node a m).context.outputs ≡ m.context.outputs
save_checkpoint-outputs w node a m = ground arith

pub save_checkpoint-indices :
    (w : World) (node : Node) (a : Bool) (m : Machine)
    → (save_checkpoint w node a m).committed_output_index ≡ m.committed_output_index
save_checkpoint-indices w node a m = ground arith

pub Tracked-by :
    (chain : Chain) (o o2 : Dict Text) (d d2 : Dict ℕ) (i : ℕ)
    → o ≡ o2
    → d ≡ d2
    → Tracked chain o2 d2 i
    → Tracked chain o d i
Tracked-by chain o o2 d d2 i e f h =
    subst (λ x. Tracked chain x d i) (sym e) (subst (λ y. Tracked chain o2 y i) (sym f) h)

pub gate_passes-Tracked :
    (chain : Chain) (w : World) (node : Node) (p : ℕ) (r : NodeResult) (m : Machine)
    → get_elem? chain.nodes m.node_idx ≡ some node
    → TrackedMachine chain m
    → TrackedStage chain (gate_passes w node p r m)
gate_passes-Tracked chain w node p r m here h =
    let committed : Machine =
      commit_output node r.text r.was_provisional (emit (commit p ∷ []) m) in
    let dropped : Machine = record committed {
      fallback_reasons = drop_fallback m.node_idx m.fallback_reasons;
    } in
    Tracked-by chain (save_checkpoint w node false dropped).context.outputs dropped.context.outputs
      (save_checkpoint w node false dropped).committed_output_index dropped.committed_output_index
      (suc m.node_idx) (save_checkpoint-outputs w node false dropped)
      (save_checkpoint-indices w node false dropped)
      (Tracked-put chain m.context.outputs m.committed_output_index m.node_idx node.skill_name
        r.text (node, here, refl) h)

pub check_node-Tracked :
    (w : World) (chain : Chain) (node : Node) (p : ℕ) (f : Option Fallback) (r : NodeResult)
    (m : Machine)
    → get_elem? chain.nodes m.node_idx ≡ some node
    → TrackedMachine chain m
    → TrackedStage chain (check_node w chain node p f r m)
unfolding check_node
check_node-Tracked w chain node p f r m here h =
    let clean : Machine = with_hint none m in
    elim (Option-cases (coerce_gate_result (w.node_check p r.text clean.context))) [
      | inl e ↦ TrackedStage-by chain _ (crash w node p clean) (ground (arith, e)) tt
      | inr (g, e) ↦
          let judged : Machine = emit (gate_result node.skill_name g.verdict g.reason ∷ []) clean in
          TrackedStage-by chain _ (decided w chain node p f r g judged) (ground (arith, e)) (
            TrackedStage-if chain g.infra_failure (gate_unavailable_events node p g.reason judged) _
              tt
              (TrackedStage-if chain (is_pass g.verdict) (gate_passes w node p r judged)
                (gate_fails w chain node p f g judged)
                (gate_passes-Tracked chain w node p r judged here h)
                (gate_fails-Tracked w chain node p f g judged h)))
    ]

pub base_fails-Tracked :
    (chain : Chain) (p attempt : ℕ) (f : Option Fallback) (g : GateResult) (m : Machine)
    → TrackedMachine chain m
    → TrackedStage chain (base_fails p attempt f g m)
base_fails-Tracked chain p attempt none g m h = h
base_fails-Tracked chain p attempt (some f) g m h = h

pub check_base-Tracked :
    (w : World) (chain : Chain) (node : Node) (p attempt : ℕ) (f : Option Fallback) (r : NodeResult)
    (m : Machine)
    → get_elem? chain.nodes m.node_idx ≡ some node
    → TrackedMachine chain m
    → TrackedStage chain (check_base w chain node p attempt f r m)
unfolding check_base
check_base-Tracked w chain node p attempt f r m here h = elim (Bool-cases (chain.base_gates == 0)) [
  | inl b ↦
      TrackedStage-by chain _ (check_node w chain node p f r m) (ground (arith, b))
        (check_node-Tracked w chain node p f r m here h)
  | inr b ↦ elim (Option-cases (check_base_gates w p r.text m.context 0 chain.base_gates)) [
    | inl e ↦ TrackedStage-by chain _ (crash w node p m) (ground (arith, b, e)) tt
    | inr (g, e) ↦
        TrackedStage-by chain _ (base_decided w chain node p attempt f r g m) (ground (arith, b, e))
          (TrackedStage-if chain g.infra_failure (gate_unavailable_events node p g.reason m) _ tt (
            TrackedStage-if chain (is_pass g.verdict) (check_node w chain node p f r m)
              (base_fails p attempt f g m) (check_node-Tracked w chain node p f r m here h)
              (base_fails-Tracked chain p attempt f g m h)))
  ]
]
