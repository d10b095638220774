-- ===== src/Pipeline/Saved/Checkpoints.antt =====
-- engine/execution/pipeline/pipeline.py: the checkpoint after it is saved or cleared, and after a failed gate.
use helve.Base.{
  ℕ, suc, ◌+◌, ◌≡◌, refl, ap, ◌∙◌, String, Bool, true, false, ◌&&◌, Option, none, some, [], ◌∷◌,
  if◌then◌else◌, Text, codes, arith, Bool-cases, Option-cases, inl, inr, subst, sym, ltb, get_elem?,
}
use helve.Base.Dict.{Dict, get, put}
use helve.Pipeline.{
  Node, Chain, Checkpoint, GateResult, Fallback, node_gate_failed, World, Machine, Stage, goes_on,
  returned, crashed, emit, because, retract,
}
use helve.Pipeline.Guard.{Action, switch, record_failure}
use helve.Pipeline.Loop.Parts.{
  with_fallback, hinted, save_checkpoint, clear_checkpoint, evict_outputs_at_or_after, index_of,
  drop_fallbacks_from,
}
use helve.Pipeline.Loop.{block, to_target, switch_back, act, escalate, gate_fails}
use helve.Pipeline.Outputs.Evicted.{NamedNode, Tracked, TrackedMachine, Tracked-put}

-- The checkpoint names its node, and holds outputs of that node and earlier ones only.
abbrev pub Saved : Chain → Option Checkpoint → Type 0
Saved chain none = Unit {0}
Saved chain (some c) =
    NamedNode chain c.skill_chain_index c.node_skill
    × (indices : Dict ℕ) × Tracked chain c.outputs indices (suc c.skill_chain_index)

abbrev pub left_by : Stage → Option Checkpoint
left_by (goes_on point m) = m.checkpoint
left_by (returned ending m) = m.checkpoint
left_by (crashed m) = m.checkpoint

abbrev pub SavedStage : Chain → Stage → Type 0
SavedStage chain stage = Saved chain (left_by stage)

pub SavedStage-by : (chain : Chain) (s t : Stage) → s ≡ t → SavedStage chain t → SavedStage chain s
SavedStage-by chain s t e h = subst (SavedStage chain) (sym e) h

pub SavedStage-if :
    (chain : Chain) (b : Bool) (s t : Stage)
    → SavedStage chain s
    → SavedStage chain t
    → SavedStage chain (if b then s else t)
SavedStage-if chain true s t h k = h
SavedStage-if chain false s t h k = k

pub if-Saved :
    (chain : Chain) (b : Bool) (m n : Machine)
    → Saved chain m.checkpoint
    → Saved chain n.checkpoint
    → Saved chain (if b then m else n).checkpoint
if-Saved chain true m n h k = h
if-Saved chain false m n h k = k

pub clear-Saved :
    (chain : Chain) (w : World) (m : Machine)
    → Saved chain m.checkpoint
    → Saved chain (clear_checkpoint w m).checkpoint
clear-Saved chain w m h = if-Saved chain w.persists (record m { checkpoint = none }) m tt h

-- A node's output is committed, and the checkpoint is saved.
pub commit-Saved :
    (chain : Chain) (w : World) (node : Node) (a : Bool) (text : Text) (m n : Machine)
    → get_elem? chain.nodes m.node_idx ≡ some node
    → TrackedMachine chain m
    → Saved chain m.checkpoint
    → n.checkpoint ≡ m.checkpoint
    → n.node_idx ≡ m.node_idx
    → n.context.outputs ≡ put node.skill_name text m.context.outputs
    → Saved chain (save_checkpoint w node a n).checkpoint
commit-Saved chain w node a text m n here t h same index outputs =
    if-Saved chain (w.persists && w.saves n.serial)
      (record n {
        checkpoint = some (record {
          skill_chain_index = n.node_idx;
          node_skill = node.skill_name;
          outputs = n.context.outputs;
          awaiting_user_input = a;
          provisional_outputs = n.committed_provisional_output;
        });
      })
      n
      (
        (node, ap (λ (i : ℕ). get_elem? chain.nodes i) index ∙ here, refl),
        put node.skill_name m.node_idx m.committed_output_index,
        subst
            (λ (i : ℕ).
              Tracked chain n.context.outputs
                (put node.skill_name m.node_idx m.committed_output_index) (suc i))
            (sym index)
            (subst
              (λ (o : Dict Text).
                Tracked chain o (put node.skill_name m.node_idx m.committed_output_index)
                  (suc m.node_idx))
              (sym outputs)
              (Tracked-put chain m.context.outputs m.committed_output_index m.node_idx
                node.skill_name text (node, here, refl) t)),
      )
      (subst (Saved chain) (sym same) h)

pub hinted-checkpoint : (o : Option Text) (m : Machine) → (hinted o m).checkpoint ≡ m.checkpoint
hinted-checkpoint none m = refl
hinted-checkpoint (some []) m = refl
hinted-checkpoint (some (c ∷ t)) m = refl

pub hinted-Saved :
    (chain : Chain) (o : Option Text) (m : Machine)
    → Saved chain m.checkpoint
    → Saved chain (hinted o m).checkpoint
hinted-Saved chain o m h = subst (Saved chain) (sym (hinted-checkpoint o m)) h

pub to_target-Saved :
    (chain : Chain) (node : Node) (target : String) (g : GateResult) (t : ℕ) (m : Machine)
    → Saved chain m.checkpoint
    → SavedStage chain (to_target node target g t m)
unfolding evict_outputs_at_or_after
to_target-Saved chain node target g t m h =
    hinted-Saved chain g.retry_hint
      (record (evict_outputs_at_or_after t m) {
        fallback_reasons = drop_fallbacks_from t m.fallback_reasons;
      })
      h

pub switch_back-Saved :
    (w : World) (chain : Chain) (node : Node) (g : GateResult) (target : String) (m : Machine)
    → Saved chain m.checkpoint
    → SavedStage chain (switch_back w chain node g target m)
unfolding switch_back
switch_back-Saved w chain node g target m h = elim (Bool-cases (ltb 5 m.backtrack_count)) [
  | inl b ↦
      SavedStage-by chain (switch_back w chain node g target m)
        (block w node (codes "max backtracks") m) (ground (arith, b)) (clear-Saved chain w m h)
  | inr b ↦ elim (Option-cases (index_of target 0 chain.nodes)) [
    | inl e ↦
        SavedStage-by chain (switch_back w chain node g target m)
          (block w node (codes "backtrack target not found") m) (ground (arith, b, e))
          (clear-Saved chain w m h)
    | inr (t, e) ↦
        SavedStage-by chain (switch_back w chain node g target m) (to_target node target g t m)
          (ground (arith, b, e)) (to_target-Saved chain node target g t m h)
  ]
]

pub act-Saved :
    (w : World) (chain : Chain) (node : Node) (g : GateResult) (a : Action) (t : Option String)
    (m : Machine)
    → Saved chain m.checkpoint
    → SavedStage chain (act w chain node g a t m)
act-Saved w chain node g Action.blocked t m h = clear-Saved chain w m h
act-Saved w chain node g switch none m h = clear-Saved chain w m h
act-Saved w chain node g switch (some target) m h =
    switch_back-Saved w chain node g target (record m { backtrack_count = m.backtrack_count + 1 }) h
act-Saved w chain node g Action.retry t m h = hinted-Saved chain g.retry_hint m h

pub gate_fails-Saved :
    (w : World) (chain : Chain) (node : Node) (p : ℕ) (f : Option Fallback) (g : GateResult)
    (m : Machine)
    → Saved chain m.checkpoint
    → SavedStage chain (gate_fails w chain node p f g m)
unfolding escalate
gate_fails-Saved w chain node p none g m h =
    hinted-Saved chain g.retry_hint
      (with_fallback (node_gate_failed g.reason) (emit (retract p (because g.reason) ∷ []) m)) h
gate_fails-Saved w chain node p (some f) g m h =
    let r = record_failure node.skill_name m.attempts in
    act-Saved w chain node g r.0 (get node.skill_name chain.backtrack_map)
      (record (emit (retract p (because g.reason) ∷ []) m) { attempts = r.1 }) h
