-- ===== src/Pipeline/Rank/Run.antt =====
-- Every step lowers the rank, so a run ends: enough fuel brings it to a return or an exception.
pub mod Gates
use helve.Base.{
  ℕ, zero, suc, ◌+◌, ◌-◌, ◌*◌, ◌≤◌, ◌<◌, ◌≡◌, refl, ap, ◌∙◌, String, Bool, true, false, ◌&&◌, not,
  Option, none, some, List, [], ◌∷◌, Text, codes, arith, Bool-cases, Option-cases, inl, inr, ◌==◌,
  ltb, get_elem?, length,
}
use helve.Pipeline.{
  Node, NodeRun, Chain, GateResult, coerce_gate_result, Fallback, raised_error, not_complete,
  base_gate_failed, node_gate_failed, NodeResult, World, Machine, Point, outer, inner, Stage,
  goes_on, returned, crashed, emit, skill_end, SkillStatus, because, rubric_retry, execution_error,
  retract, commit, passed, skill_start, gate_result,
}
use helve.Pipeline.Collect.{streamed, no_result, collected}
use helve.Pipeline.Loop.Parts.{
  with_fallback, noted_fallback, with_hint, hinted, save_checkpoint, commit_output, drop_fallback,
  fallback_for, fallback_at, first_reason,
}
use helve.Pipeline.Loop.{
  crash, gate_unavailable_events, block, escalate, gate_fails, gate_passes, is_pass, decided,
  check_node, check_base_gates, base_fails, base_decided, or_empty, check_base, pause,
  evidence_events, judge, unfinished, broken, take_result, with_run, asked, run_node, attempt_node,
  finish, enter, at_node, step, run, awaits_user, is_dedicated, skips, max_attempts,
}
use helve.Pipeline.Rank.{base_rank, rank, Below, base_rank-next, base_rank-with_fallback}
use helve.Pipeline.Rank.{base_rank-same}
use helve.Pipeline.Rank.Steps.{
  Below-by, Below-if, Below-le, rank-lt, hinted-base_rank, save_checkpoint-attempts, escalate-Below,
}
use helve.Pipeline.Rank.Run.Gates.{
  Dedicated, Within, get_elem?-size, gate_passes-Below, gate_fails-Below, decided-Below,
  Within-same, Dedicated-same, check_node-Below, base_fails-Below, base_decided-Below,
  check_base-Below,
}

judge-Below :
    (w : World) (chain : Chain) (b : ℕ) (node : Node) (p attempt : ℕ) (f : Option Fallback)
    (r : NodeResult) (m : Machine)
    → attempt < 3
    → Within chain b node m
    → Dedicated f m
    → Below chain (b * 5 + (3 - attempt)) (judge w chain node p attempt f r m)
unfolding judge
judge-Below w chain b node p attempt f r m a h d =
    let noted : Machine = emit (evidence_events node r.evidence) m in
    Below-if chain (b * 5 + (3 - attempt)) (awaits_user node r.text) (pause w node p r m)
      (check_base w chain node p attempt f r noted) tt
      (check_base-Below w chain b node p attempt f r noted a
        (Within-same chain b node m noted refl refl refl h) (Dedicated-same f m noted refl refl d))

-- A fallback that is set for the first time lowers the base.
set_fallback-Below :
    (chain : Chain) (b : ℕ) (node : Node) (here : Point) (reason : Fallback) (told m : Machine)
    → told.attempts ≡ m.attempts
    → told.node_idx ≡ m.node_idx
    → told.fallback_reasons ≡ m.fallback_reasons
    → Within chain b node m
    → Dedicated none m
    → rank chain here (with_fallback reason told) < b * 5
set_fallback-Below chain b node here reason told m a i f (h, e) d =
    rank-lt chain here (with_fallback reason told) b (
      omega (
        arith,
        h,
        base_rank-with_fallback chain told reason (Dedicated-same none m told i f d),
        base_rank-same chain m told a i f,
      ))

unfinished-Below :
    (w : World) (chain : Chain) (b : ℕ) (node : Node) (p : ℕ) (here : Point) (f : Option Fallback)
    (reason : Text) (r : NodeResult) (m : Machine)
    → Within chain b node m
    → Dedicated f m
    → Below chain (b * 5) (unfinished w node p here f reason r m)
unfinished-Below w chain b node p here none reason r m h d =
    set_fallback-Below chain b node here (not_complete reason)
      (emit (retract p (because reason) ∷ []) m) m refl refl refl h d
unfinished-Below w chain b node p here (some f) reason r m h d = tt

broken-Below :
    (w : World) (chain : Chain) (b : ℕ) (node : Node) (p : ℕ) (here : Point) (f : Option Fallback)
    (m : Machine)
    → Within chain b node m
    → Dedicated f m
    → Below chain (b * 5) (broken w node p here f m)
broken-Below w chain b node p here none m h d =
    set_fallback-Below chain b node here raised_error (emit (retract p execution_error ∷ []) m) m
      refl refl refl h d
broken-Below w chain b node p here (some f) m h d = tt

take_result-Below :
    (w : World) (chain : Chain) (b : ℕ) (node : Node) (p attempt : ℕ) (last : Text)
    (f : Option Fallback) (ends : Bool) (r : NodeResult) (m : Machine)
    → attempt < 3
    → Within chain b node m
    → Dedicated f m
    → Below chain (b * 5 + (3 - attempt)) (take_result w chain node p attempt last f ends r m)
unfolding take_result
take_result-Below w chain b node p attempt last f false r m a h d =
    Below-le chain (b * 5) (b * 5 + (3 - attempt)) (broken w node p (inner attempt last) f m)
      (omega arith) (broken-Below w chain b node p (inner attempt last) f m h d)
take_result-Below w chain b node p attempt last f true r m a h d =
    let bound = b * 5 + (3 - attempt) in
    elim (Option-cases (first_reason r.failed_reason r.incomplete_reason)) [
      | inl e ↦
          Below-by chain bound _ (judge w chain node p attempt f r m) (ground (arith, e))
            (judge-Below w chain b node p attempt f r m a h d)
      | inr (reason, e) ↦
          Below-by chain bound _ (unfinished w node p (inner attempt last) f reason r m)
            (ground (arith, e))
            (Below-le chain (b * 5) bound (unfinished w node p (inner attempt last) f reason r m)
              (omega arith)
              (unfinished-Below w chain b node p (inner attempt last) f reason r m h d))
    ]

with_run-Below :
    (w : World) (chain : Chain) (b : ℕ) (node : Node) (p attempt : ℕ) (last : Text)
    (f : Option Fallback) (run : NodeRun) (m : Machine)
    → attempt < 3
    → Within chain b node m
    → Dedicated f m
    → Below chain (b * 5 + (3 - attempt)) (with_run w chain node p attempt last f run m)
with_run-Below w chain b node p attempt last f run m a h d =
    let told : Machine = emit (streamed p (is_dedicated f) run.stream) m in
    take_result-Below w chain b node p attempt last f run.ends (collected no_result run.stream) told
      a (Within-same chain b node m told refl refl refl h) (Dedicated-same f m told refl refl d)

base_rank-noted :
    (chain : Chain) (m : Machine) (f : Fallback)
    → base_rank chain (with_fallback f m) ≤ base_rank chain m
unfolding base_rank
base_rank-noted chain m f = ground arith

noted_fallback-Within :
    (chain : Chain) (b : ℕ) (node : Node) (f : Option Fallback) (m : Machine)
    → Within chain b node m
    → Within chain b node (noted_fallback f m)
noted_fallback-Within chain b node none m h = h
noted_fallback-Within chain b node (some f) m (h, e) =
    (omega (arith, h, base_rank-noted chain m f), e)

fallback_for-Dedicated :
    (w : World) (skill : String) (m n : Machine) (f : Option Fallback)
    → fallback_for w skill (fallback_at m.node_idx m.fallback_reasons) ≡ f
    → n.node_idx ≡ m.node_idx
    → n.fallback_reasons ≡ m.fallback_reasons
    → Dedicated f (noted_fallback f n)
fallback_for-Dedicated w skill m n (some f) e i h = tt
fallback_for-Dedicated w skill m n none e i h =
    elim (Option-cases (fallback_at m.node_idx m.fallback_reasons)) [
      | inl k ↦ ground (arith, i, h, k)
      | inr (x, k) ↦ absurd (ground (arith, e, k))
    ]

attempt_node-Below :
    (w : World) (chain : Chain) (node : Node) (attempt : ℕ) (last : Text) (m : Machine)
    → attempt < 3
    → get_elem? chain.nodes m.node_idx ≡ some node
    → Below chain (base_rank chain m * 5 + (3 - attempt)) (attempt_node w chain node attempt last m)
unfolding attempt_node
attempt_node-Below w chain node attempt last m a e =
    let f = fallback_for w node.skill_name (fallback_at m.node_idx m.fallback_reasons) in
    let numbered : Machine = record m { serial = suc m.serial } in
    let started : Machine = noted_fallback f numbered in
    Below-if chain (base_rank chain m * 5 + (3 - attempt))
      (node.has_allowed_tools && not w.can_scope) (crash w node m.serial started)
      (run_node w chain node m.serial attempt last f started) tt
      (with_run-Below w chain (base_rank chain m) node m.serial attempt last f
        (w.execute m.serial (asked node attempt f started)) started a
        (noted_fallback-Within chain (base_rank chain m) node f numbered
          (omega (arith, base_rank-same chain m numbered refl refl refl), e))
        (fallback_for-Dedicated w node.skill_name m numbered f refl refl refl))

enter-Below :
    (chain : Chain) (node : Node) (m : Machine)
    → get_elem? chain.nodes m.node_idx ≡ some node
    → Below chain (base_rank chain m * 5 + 4) (enter node m)
enter-Below chain node m e =
    let skipped : Machine = record (with_hint none m) { node_idx = suc m.node_idx } in
    let started : Machine = emit (skill_start node.skill_name m.node_idx ∷ []) m in
    Below-if chain (base_rank chain m * 5 + 4) (skips node.condition m.context)
      (goes_on outer skipped) (goes_on (inner 0 (codes "base gate failed")) started)
      (omega (
        arith,
        rank-lt chain outer skipped (base_rank chain m) (
            base_rank-next chain m skipped refl refl
              (get_elem?-size chain.nodes m.node_idx node e)),
      ))
      (unfold rank in omega (arith, base_rank-same chain m started refl refl refl))

at_node-Below :
    (w : World) (chain : Chain) (point : Point) (node : Node) (m : Machine)
    → get_elem? chain.nodes m.node_idx ≡ some node
    → Below chain (rank chain point m) (at_node w chain point node m)
unfolding rank
at_node-Below w chain outer node m e = enter-Below chain node m e
at_node-Below w chain (inner attempt last) node m e =
    elim (Bool-cases (ltb attempt (max_attempts chain))) [
      | inl c ↦
          Below-by chain _ _ (attempt_node w chain node attempt last m) (ground (arith, c))
            (attempt_node-Below w chain node attempt last m (ground (arith, c)) e)
      | inr c ↦ Below-by chain _ _ (block w node last (with_hint none m)) (ground (arith, c)) tt
    ]

pub step-Below :
    (w : World) (chain : Chain) (point : Point) (m : Machine)
    → Below chain (rank chain point m) (step w chain point m)
unfolding step
step-Below w chain point m = elim (Option-cases (get_elem? chain.nodes m.node_idx)) [
  | inl e ↦
      Below-by chain (rank chain point m) _ (finish w chain m) (ground (arith, e))
        (unfold finish in tt)
  | inr (node, e) ↦
      Below-by chain (rank chain point m) _ (at_node w chain point node m) (ground (arith, e))
        (at_node-Below w chain point node m e)
]

-- The run has returned or raised.
abbrev pub Ended : Stage → Type 0
Ended (goes_on point m) = ⊥
Ended (returned ending m) = Unit {0}
Ended (crashed m) = Unit {0}

pub run-Ended :
    (w : World) (chain : Chain) (fuel : ℕ) (stage : Stage)
    → Below chain fuel stage
    → Ended (run w chain fuel stage)
unfolding run
run-Ended w chain zero (goes_on point m) h = absurd (omega (arith, h))
run-Ended w chain zero (returned ending m) h = tt
run-Ended w chain zero (crashed m) h = tt
run-Ended w chain (suc fuel) (returned ending m) h = tt
run-Ended w chain (suc fuel) (crashed m) h = tt
run-Ended w chain (suc fuel) (goes_on point m) h = run-Ended w chain fuel (step w chain point m) (
    Below-le chain (rank chain point m) fuel (step w chain point m) (omega (arith, h))
      (step-Below w chain point m))
