-- ===== src/Pipeline/Settled/Steps.antt =====
-- Each part of a step settles the execution that it is about.
use helve.Base.{
  ℕ, ◌+◌, ◌≡◌, refl, sym, String, Bool, true, false, Option, none, some, [], ◌∷◌, if◌then◌else◌,
  Text, codes, arith, Bool-cases, Option-cases, inl, inr, subst, ltb,
}
use helve.Base.Dict.{get}
use helve.Pipeline.{
  Node, Chain, GateResult, coerce_gate_result, Fallback, node_gate_failed, NodeResult, World,
  Machine, Stage, emit, gate_failed, skill_end, done, blocks, SkillStatus, error, blocked, passed,
  because, execution_error, gate_unavailable, commit, retract, backtrack, gate_result,
}
use helve.Pipeline.Guard.{Action, switch, record_failure}
use helve.Pipeline.Loop.Parts.{
  with_fallback, with_hint, hinted, clear_checkpoint, save_checkpoint, commit_output,
  evict_outputs_at_or_after, index_of, drop_fallback, drop_fallbacks_from,
}
use helve.Pipeline.Loop.{
  crash, gate_unavailable_events, block, to_target, switch_back, act, escalate, gate_fails,
  gate_passes, is_pass, decided, check_node,
}
use helve.Pipeline.Settled.{
  scan, Settled, Open, SettledStage, emit-Settled, emit-Open, retract-Settled, commit-Settled,
}

-- Clearing or saving the checkpoint, a hint and an eviction leave the events as they are.
pub clear_checkpoint-Settled :
    (w : World) (m : Machine) → Settled m → Settled (clear_checkpoint w m)
clear_checkpoint-Settled w m h = ground (arith, h)

pub save_checkpoint-Settled :
    (w : World) (node : Node) (a : Bool) (m : Machine)
    → Settled m
    → Settled (save_checkpoint w node a m)
save_checkpoint-Settled w node a m h = ground (arith, h)

pub hinted-Settled : (o : Option Text) (m : Machine) → Settled m → Settled (hinted o m)
hinted-Settled none m h = h
hinted-Settled (some []) m h = h
hinted-Settled (some (c ∷ t)) m h = h

pub SettledStage-by : (s t : Stage) → s ≡ t → SettledStage t → SettledStage s
SettledStage-by s t e h = subst SettledStage (sym e) h

pub SettledStage-if :
    (b : Bool) (s t : Stage) → SettledStage s → SettledStage t → SettledStage (if b then s else t)
SettledStage-if true s t h k = h
SettledStage-if false s t h k = k

pub crash-Settled :
    (w : World) (node : Node) (p : ℕ) (o : Bool) (m : Machine)
    → Open p o m
    → SettledStage (crash w node p m)
unfolding scan
crash-Settled w node p o m h =
    clear_checkpoint-Settled w
      (emit (retract p execution_error ∷ skill_end node.skill_name error ∷ []) m)
      (retract-Settled (skill_end node.skill_name error ∷ []) m p execution_error o (λ s. refl) h)

pub unavailable-Settled :
    (node : Node) (p : ℕ) (o : Bool) (reason : Text) (m : Machine)
    → Open p o m
    → SettledStage (gate_unavailable_events node p reason m)
unfolding scan
unavailable-Settled node p o reason m h =
    retract-Settled (gate_failed reason ∷ skill_end node.skill_name error ∷ done ∷ []) m p
      gate_unavailable o (λ s. refl) h

pub block-Settled :
    (w : World) (node : Node) (reason : Text) (m : Machine)
    → Settled m
    → SettledStage (block w node reason m)
unfolding scan
block-Settled w node reason m h =
    emit-Settled (skill_end node.skill_name blocked ∷ blocks node.skill_name reason ∷ done ∷ [])
      (clear_checkpoint w m) (λ s. refl) (clear_checkpoint-Settled w m h)

pub to_target-Settled :
    (node : Node) (target : String) (g : GateResult) (i : ℕ) (m : Machine)
    → Settled m
    → SettledStage (to_target node target g i m)
unfolding scan evict_outputs_at_or_after
to_target-Settled node target g i m h =
    let cut : Machine = record (evict_outputs_at_or_after i m) {
      fallback_reasons = drop_fallbacks_from i m.fallback_reasons;
    } in
    emit-Settled (backtrack node.skill_name target g.reason ∷ []) (hinted g.retry_hint cut)
      (λ s. refl) (hinted-Settled g.retry_hint cut h)

pub switch_back-Settled :
    (w : World) (chain : Chain) (node : Node) (g : GateResult) (target : String) (m : Machine)
    → Settled m
    → SettledStage (switch_back w chain node g target m)
unfolding switch_back
switch_back-Settled w chain node g target m h = elim (Bool-cases (ltb 5 m.backtrack_count)) [
  | inl b ↦
      SettledStage-by _ (block w node (codes "max backtracks") m) (ground (arith, b))
        (block-Settled w node (codes "max backtracks") m h)
  | inr b ↦ elim (Option-cases (index_of target 0 chain.nodes)) [
    | inl e ↦
        SettledStage-by _ (block w node (codes "backtrack target not found") m)
          (ground (arith, b, e)) (block-Settled w node (codes "backtrack target not found") m h)
    | inr (i, e) ↦
        SettledStage-by _ (to_target node target g i m) (ground (arith, b, e))
          (to_target-Settled node target g i m h)
  ]
]

pub act-Settled :
    (w : World) (chain : Chain) (node : Node) (g : GateResult) (a : Action) (t : Option String)
    (m : Machine)
    → Settled m
    → SettledStage (act w chain node g a t m)
unfolding scan
act-Settled w chain node g Action.blocked t m h = block-Settled w node g.reason m h
act-Settled w chain node g switch none m h = block-Settled w node g.reason m h
act-Settled w chain node g switch (some target) m h =
    switch_back-Settled w chain node g target (record m { backtrack_count = m.backtrack_count + 1 })
      h
act-Settled w chain node g Action.retry t m h =
    emit-Settled (skill_end node.skill_name SkillStatus.retry ∷ []) (hinted g.retry_hint m)
      (λ s. refl) (hinted-Settled g.retry_hint m h)

pub escalate-Settled :
    (w : World) (chain : Chain) (node : Node) (g : GateResult) (m : Machine)
    → Settled m
    → SettledStage (escalate w chain node g m)
unfolding escalate
escalate-Settled w chain node g m h =
    let r = record_failure node.skill_name m.attempts in
    act-Settled w chain node g r.0 (get node.skill_name chain.backtrack_map)
      (record m { attempts = r.1 }) h

pub gate_fails-Settled :
    (w : World) (chain : Chain) (node : Node) (p : ℕ) (o : Bool) (f : Option Fallback)
    (g : GateResult) (m : Machine)
    → Open p o m
    → SettledStage (gate_fails w chain node p f g m)
unfolding scan
gate_fails-Settled w chain node p o none g m h =
    let failed : Machine =
      with_fallback (node_gate_failed g.reason) (emit (retract p (because g.reason) ∷ []) m) in
    emit-Settled (skill_end node.skill_name SkillStatus.retry ∷ []) (hinted g.retry_hint failed)
      (λ s. refl)
      (hinted-Settled g.retry_hint failed
        (retract-Settled [] m p (because g.reason) o (λ s. refl) h))
gate_fails-Settled w chain node p o (some f) g m h =
    escalate-Settled w chain node g (emit (retract p (because g.reason) ∷ []) m)
      (retract-Settled [] m p (because g.reason) o (λ s. refl) h)

pub gate_passes-Settled :
    (w : World) (node : Node) (p : ℕ) (o : Bool) (r : NodeResult) (m : Machine)
    → Open p o m
    → SettledStage (gate_passes w node p r m)
unfolding scan
gate_passes-Settled w node p o r m h =
    let committed : Machine =
      commit_output node r.text r.was_provisional (emit (commit p ∷ []) m) in
    let dropped : Machine = record committed {
      fallback_reasons = drop_fallback m.node_idx m.fallback_reasons;
    } in
    emit-Settled (skill_end node.skill_name passed ∷ []) (save_checkpoint w node false dropped)
      (λ s. refl)
      (save_checkpoint-Settled w node false dropped (commit-Settled [] m p o (λ s. refl) h))

pub decided-Settled :
    (w : World) (chain : Chain) (node : Node) (p : ℕ) (o : Bool) (f : Option Fallback)
    (r : NodeResult) (g : GateResult) (m : Machine)
    → Open p o m
    → SettledStage (decided w chain node p f r g m)
decided-Settled w chain node p o f r g m h =
    SettledStage-if g.infra_failure (gate_unavailable_events node p g.reason m) _
      (unavailable-Settled node p o g.reason m h)
      (SettledStage-if (is_pass g.verdict) (gate_passes w node p r m)
        (gate_fails w chain node p f g m) (gate_passes-Settled w node p o r m h)
        (gate_fails-Settled w chain node p o f g m h))

pub check_node-Settled :
    (w : World) (chain : Chain) (node : Node) (p : ℕ) (o : Bool) (f : Option Fallback)
    (r : NodeResult) (m : Machine)
    → Open p o m
    → SettledStage (check_node w chain node p f r m)
unfolding check_node scan
check_node-Settled w chain node p o f r m h =
    let clean : Machine = with_hint none m in
    elim (Option-cases (coerce_gate_result (w.node_check p r.text clean.context))) [
      | inl e ↦
          SettledStage-by _ (crash w node p clean) (ground (arith, e))
            (crash-Settled w node p o clean h)
      | inr (g, e) ↦
          let judged : Machine = emit (gate_result node.skill_name g.verdict g.reason ∷ []) clean in
          SettledStage-by _ (decided w chain node p f r g judged) (ground (arith, e)) (
            decided-Settled w chain node p o f r g judged (
              emit-Open (gate_result node.skill_name g.verdict g.reason ∷ []) clean p o (λ s. refl)
                h))
    ]
