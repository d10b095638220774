-- ===== src/Pipeline/Rank/Run/Gates.antt =====
-- engine/execution/pipeline/pipeline.py: the gates lower the rank.
use helve.Base.{
  ℕ, zero, suc, ◌+◌, ◌-◌, ◌*◌, ◌≤◌, ◌<◌, ◌≡◌, refl, ap, ◌∙◌, false, Option, none, some, List, [],
  ◌∷◌, arith, Bool-cases, Option-cases, inl, inr, ◌==◌, get_elem?, length,
}
use helve.Pipeline.{
  Node, Chain, GateResult, coerce_gate_result, Fallback, base_gate_failed, node_gate_failed,
  NodeResult, World, Machine, outer, inner, emit, skill_end, SkillStatus, because, rubric_retry,
  retract, commit, passed, gate_result,
}
use helve.Pipeline.Loop.Parts.{
  with_fallback, with_hint, hinted, save_checkpoint, commit_output, drop_fallback, fallback_at,
}
use helve.Pipeline.Loop.{
  crash, gate_unavailable_events, escalate, gate_fails, gate_passes, is_pass, decided, check_node,
  check_base_gates, base_fails, base_decided, or_empty, check_base,
}
use helve.Pipeline.Rank.{base_rank, rank, Below, base_rank-next, base_rank-with_fallback}
use helve.Pipeline.Rank.{base_rank-same}
use helve.Pipeline.Rank.Steps.{
  Below-by, Below-if, Below-le, rank-lt, hinted-base_rank, save_checkpoint-attempts, escalate-Below,
}

-- An attempt without a fallback has none set for its node.
abbrev pub Dedicated : Option Fallback → Machine → Type 0
Dedicated none m = fallback_at m.node_idx m.fallback_reasons ≡ none
Dedicated (some f) m = Unit {0}

-- The rank is still within the bound, at a node of the chain.
abbrev pub Within : Chain → ℕ → Node → Machine → Type 0
Within chain b node m = (base_rank chain m ≤ b) × (get_elem? chain.nodes m.node_idx ≡ some node)

pub get_elem?-size :
    (nodes : List Node) (i : ℕ) (node : Node) → get_elem? nodes i ≡ some node → i < length nodes
get_elem?-size [] i node e = absurd (cc)
get_elem?-size (n ∷ nodes) zero node e = omega arith
get_elem?-size (n ∷ nodes) (suc i) node e = omega (arith, get_elem?-size nodes i node e)

pub gate_passes-Below :
    (w : World) (chain : Chain) (b : ℕ) (node : Node) (p : ℕ) (r : NodeResult) (m : Machine)
    → Within chain b node m
    → Below chain (b * 5) (gate_passes w node p r m)
gate_passes-Below w chain b node p r m (h, e) =
    let committed : Machine =
      commit_output node r.text r.was_provisional (emit (commit p ∷ []) m) in
    let dropped : Machine = record committed {
      fallback_reasons = drop_fallback m.node_idx m.fallback_reasons;
    } in
    let next : Machine =
      record (emit (skill_end node.skill_name passed ∷ []) (save_checkpoint w node false dropped)) {
        node_idx = suc m.node_idx;
      } in
    rank-lt chain outer next b (
      omega (
        arith,
        h,
        base_rank-next chain m next (save_checkpoint-attempts w node false dropped) refl
            (get_elem?-size chain.nodes m.node_idx node e),
      ))

pub gate_fails-Below :
    (w : World) (chain : Chain) (b : ℕ) (node : Node) (p : ℕ) (f : Option Fallback) (g : GateResult)
    (m : Machine)
    → Within chain b node m
    → Dedicated f m
    → Below chain (b * 5) (gate_fails w chain node p f g m)
gate_fails-Below w chain b node p none g m (h, e) d =
    let told : Machine = emit (retract p (because g.reason) ∷ []) m in
    let failed : Machine = with_fallback (node_gate_failed g.reason) told in
    let next : Machine =
      emit (skill_end node.skill_name SkillStatus.retry ∷ []) (hinted g.retry_hint failed) in
    rank-lt chain outer next b (
      omega (
        arith,
        h,
        base_rank-same chain (hinted g.retry_hint failed) next refl refl refl,
        hinted-base_rank chain g.retry_hint failed,
        base_rank-with_fallback chain told (node_gate_failed g.reason) d,
        base_rank-same chain m told refl refl refl,
      ))
gate_fails-Below w chain b node p (some f) g m (h, e) d =
    let told : Machine = emit (retract p (because g.reason) ∷ []) m in
    Below-le chain (base_rank chain told * 5) (b * 5) (escalate w chain node g told)
      (omega (arith, h, base_rank-same chain m told refl refl refl))
      (escalate-Below w chain node g told e)

pub decided-Below :
    (w : World) (chain : Chain) (b : ℕ) (node : Node) (p : ℕ) (f : Option Fallback) (r : NodeResult)
    (g : GateResult) (m : Machine)
    → Within chain b node m
    → Dedicated f m
    → Below chain (b * 5) (decided w chain node p f r g m)
decided-Below w chain b node p f r g m h d =
    Below-if chain (b * 5) g.infra_failure (gate_unavailable_events node p g.reason m) _ tt (
      Below-if chain (b * 5) (is_pass g.verdict) (gate_passes w node p r m)
        (gate_fails w chain node p f g m) (gate_passes-Below w chain b node p r m h)
        (gate_fails-Below w chain b node p f g m h d))

pub Within-same :
    (chain : Chain) (b : ℕ) (node : Node) (m n : Machine)
    → n.attempts ≡ m.attempts
    → n.node_idx ≡ m.node_idx
    → n.fallback_reasons ≡ m.fallback_reasons
    → Within chain b node m
    → Within chain b node n
Within-same chain b node m n a i f (h, e) =
    (omega (arith, h, base_rank-same chain m n a i f), ap (λ k. get_elem? chain.nodes k) i ∙ e)

pub Dedicated-same :
    (f : Option Fallback) (m n : Machine)
    → n.node_idx ≡ m.node_idx
    → n.fallback_reasons ≡ m.fallback_reasons
    → Dedicated f m
    → Dedicated f n
Dedicated-same none m n i f d = ground (arith, i, f, d)
Dedicated-same (some x) m n i f d = tt

pub check_node-Below :
    (w : World) (chain : Chain) (b : ℕ) (node : Node) (p : ℕ) (f : Option Fallback) (r : NodeResult)
    (m : Machine)
    → Within chain b node m
    → Dedicated f m
    → Below chain (b * 5) (check_node w chain node p f r m)
unfolding check_node
check_node-Below w chain b node p f r m h d =
    let clean : Machine = with_hint none m in
    elim (Option-cases (coerce_gate_result (w.node_check p r.text clean.context))) [
      | inl e ↦ Below-by chain (b * 5) _ (crash w node p clean) (ground (arith, e)) tt
      | inr (g, e) ↦
          let judged : Machine = emit (gate_result node.skill_name g.verdict g.reason ∷ []) clean in
          Below-by chain (b * 5) _ (decided w chain node p f r g judged) (ground (arith, e)) (
            decided-Below w chain b node p f r g judged
              (Within-same chain b node m judged refl refl refl h)
              (Dedicated-same f m judged refl refl d))
    ]

pub base_fails-Below :
    (chain : Chain) (b : ℕ) (node : Node) (p attempt : ℕ) (f : Option Fallback) (g : GateResult)
    (m : Machine)
    → attempt < 3
    → Within chain b node m
    → Dedicated f m
    → Below chain (b * 5 + (3 - attempt)) (base_fails p attempt f g m)
base_fails-Below chain b node p attempt none g m a (h, e) d =
    let told : Machine =
      emit (retract p rubric_retry ∷ []) (with_hint (some (or_empty g.retry_hint)) m) in
    let next : Machine = with_fallback (base_gate_failed g.reason) told in
    omega (
      arith,
      rank-lt chain (inner attempt g.reason) next b (
          omega (
            arith,
            h,
            base_rank-with_fallback chain told (base_gate_failed g.reason) d,
            base_rank-same chain m told refl refl refl,
          )),
    )
base_fails-Below chain b node p attempt (some f) g m a (h, e) d =
    let next : Machine =
      emit (retract p rubric_retry ∷ []) (with_hint (some (or_empty g.retry_hint)) m) in
    unfold rank in omega (arith, a, h, base_rank-same chain m next refl refl refl)

pub base_decided-Below :
    (w : World) (chain : Chain) (b : ℕ) (node : Node) (p attempt : ℕ) (f : Option Fallback)
    (r : NodeResult) (g : GateResult) (m : Machine)
    → attempt < 3
    → Within chain b node m
    → Dedicated f m
    → Below chain (b * 5 + (3 - attempt)) (base_decided w chain node p attempt f r g m)
base_decided-Below w chain b node p attempt f r g m a h d =
    let bound = b * 5 + (3 - attempt) in
    Below-if chain bound g.infra_failure (gate_unavailable_events node p g.reason m) _ tt (
      Below-if chain bound (is_pass g.verdict) (check_node w chain node p f r m)
        (base_fails p attempt f g m)
        (Below-le chain (b * 5) bound (check_node w chain node p f r m) (omega arith)
          (check_node-Below w chain b node p f r m h d))
        (base_fails-Below chain b node p attempt f g m a h d))

pub check_base-Below :
    (w : World) (chain : Chain) (b : ℕ) (node : Node) (p attempt : ℕ) (f : Option Fallback)
    (r : NodeResult) (m : Machine)
    → attempt < 3
    → Within chain b node m
    → Dedicated f m
    → Below chain (b * 5 + (3 - attempt)) (check_base w chain node p attempt f r m)
unfolding check_base
check_base-Below w chain b node p attempt f r m a h d =
    let bound = b * 5 + (3 - attempt) in
    elim (Bool-cases (chain.base_gates == 0)) [
      | inl c ↦ Below-by chain bound _ (check_node w chain node p f r m) (ground (arith, c)) (
          Below-le chain (b * 5) bound (check_node w chain node p f r m) (omega arith)
            (check_node-Below w chain b node p f r m h d))
      | inr c ↦ elim (Option-cases (check_base_gates w p r.text m.context 0 chain.base_gates)) [
        | inl e ↦ Below-by chain bound _ (crash w node p m) (ground (arith, c, e)) tt
        | inr (g, e) ↦
            Below-by chain bound _ (base_decided w chain node p attempt f r g m)
              (ground (arith, c, e)) (base_decided-Below w chain b node p attempt f r g m a h d)
      ]
    ]
