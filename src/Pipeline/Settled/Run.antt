-- ===== src/Pipeline/Settled/Run.antt =====
-- A whole run settles every execution's provisional text.
use helve.Base.{
  ℕ, zero, suc, ◌≡◌, refl, String, Bool, true, false, ◌&&◌, not, Option, none, some, List, [], ◌∷◌,
  Text, codes, arith, Bool-cases, Option-cases, inl, inr, ◌==◌, ltb, get_elem?,
}
use helve.Base.Dict.{Dict}
use helve.Pipeline.{
  Node, NodeRun, Chain, GateResult, Fallback, NodeResult, StreamEvent, text_delta, raw_response,
  tool_call_result, World, Machine, Point, outer, inner, Stage, goes_on, returned, crashed, emit,
  skill_end, done, because, rubric_retry, execution_error, awaiting, reply, awaiting_input, commit,
  retract, skill_start,
}
use helve.Pipeline.Pause.{without, rstrip, is_budget_message}
use helve.Pipeline.Collect.{streamed, no_result, collected}
use helve.Pipeline.Loop.Parts.{
  noted_fallback, with_hint, clear_checkpoint, save_checkpoint, commit_output, fallback_for,
  fallback_at, first_reason, truthy,
}
use helve.Pipeline.Loop.{
  crash, gate_unavailable_events, block, is_pass, check_node, check_base_gates, base_fails,
  base_decided, or_empty, check_base, pause, evidence_events, judge, notice, unfinished, broken,
  take_result, with_run, asked, run_node, attempt_node, finish, enter, at_node, step, run,
  awaits_user, end_status, is_dedicated, skips, max_attempts, last_output, final_reply,
}
use helve.Pipeline.Settled.{
  at, scan, scan-append, Settled, Open, SettledStage, Quiet, emit-Settled, emit-Open,
  retract-Settled, commit-Settled,
}
use helve.Pipeline.Settled.Steps.{
  clear_checkpoint-Settled, save_checkpoint-Settled, SettledStage-by, SettledStage-if,
  crash-Settled, unavailable-Settled, block-Settled, check_node-Settled,
}

base_fails-Settled :
    (p : ℕ) (o : Bool) (attempt : ℕ) (f : Option Fallback) (g : GateResult) (m : Machine)
    → Open p o m
    → SettledStage (base_fails p attempt f g m)
unfolding scan
base_fails-Settled p o attempt none g m h =
    retract-Settled [] (with_hint (some (or_empty g.retry_hint)) m) p rubric_retry o (λ s. refl) h
base_fails-Settled p o attempt (some f) g m h =
    retract-Settled [] (with_hint (some (or_empty g.retry_hint)) m) p rubric_retry o (λ s. refl) h

base_decided-Settled :
    (w : World) (chain : Chain) (node : Node) (p : ℕ) (o : Bool) (attempt : ℕ) (f : Option Fallback)
    (r : NodeResult) (g : GateResult) (m : Machine)
    → Open p o m
    → SettledStage (base_decided w chain node p attempt f r g m)
base_decided-Settled w chain node p o attempt f r g m h =
    SettledStage-if g.infra_failure (gate_unavailable_events node p g.reason m) _
      (unavailable-Settled node p o g.reason m h)
      (SettledStage-if (is_pass g.verdict) (check_node w chain node p f r m)
        (base_fails p attempt f g m) (check_node-Settled w chain node p o f r m h)
        (base_fails-Settled p o attempt f g m h))

check_base-Settled :
    (w : World) (chain : Chain) (node : Node) (p : ℕ) (o : Bool) (attempt : ℕ) (f : Option Fallback)
    (r : NodeResult) (m : Machine)
    → Open p o m
    → SettledStage (check_base w chain node p attempt f r m)
unfolding check_base
check_base-Settled w chain node p o attempt f r m h = elim (Bool-cases (chain.base_gates == 0)) [
  | inl b ↦
      SettledStage-by _ (check_node w chain node p f r m) (ground (arith, b))
        (check_node-Settled w chain node p o f r m h)
  | inr b ↦ elim (Option-cases (check_base_gates w p r.text m.context 0 chain.base_gates)) [
    | inl e ↦
        SettledStage-by _ (crash w node p m) (ground (arith, b, e)) (crash-Settled w node p o m h)
    | inr (g, e) ↦
        SettledStage-by _ (base_decided w chain node p attempt f r g m) (ground (arith, b, e))
          (base_decided-Settled w chain node p o attempt f r g m h)
  ]
]

pause-Settled :
    (w : World) (node : Node) (p : ℕ) (o : Bool) (r : NodeResult) (m : Machine)
    → Open p o m
    → SettledStage (pause w node p r m)
unfolding scan
pause-Settled w node p o r m h =
    let visible = rstrip (without node.await_user_input_marker r.text) in
    let committed : Machine =
      commit_output node visible r.was_provisional (emit (commit p ∷ []) m) in
    emit-Settled
      (skill_end node.skill_name awaiting_input
        ∷ reply visible r.was_provisional
        ∷ awaiting node.skill_name
        ∷ done
        ∷ [])
      (save_checkpoint w node true committed) (λ s. refl)
      (save_checkpoint-Settled w node true committed (commit-Settled [] m p o (λ s. refl) h))

evidence-Quiet : (node : Node) (evidence : List Text) → Quiet (evidence_events node evidence)
unfolding scan
evidence-Quiet node [] s = refl
evidence-Quiet node (e ∷ evidence) s = refl

judge-Settled :
    (w : World) (chain : Chain) (node : Node) (p : ℕ) (o : Bool) (attempt : ℕ) (f : Option Fallback)
    (r : NodeResult) (m : Machine)
    → Open p o m
    → SettledStage (judge w chain node p attempt f r m)
unfolding judge
judge-Settled w chain node p o attempt f r m h =
    let noted : Machine = emit (evidence_events node r.evidence) m in
    SettledStage-if (awaits_user node r.text) (pause w node p r m)
      (check_base w chain node p attempt f r noted) (pause-Settled w node p o r m h)
      (check_base-Settled w chain node p o attempt f r noted
        (emit-Open (evidence_events node r.evidence) m p o (evidence-Quiet node r.evidence) h))

notice-Quiet : (text : Text) → Quiet (notice text)
unfolding scan
notice-Quiet text s = elim (Bool-cases (is_budget_message text)) [
  | inl b ↦ ground (arith, b)
  | inr b ↦ ground (arith, b)
]

unfinished-Settled :
    (w : World) (node : Node) (p : ℕ) (o : Bool) (here : Point) (f : Option Fallback)
    (reason : Text) (r : NodeResult) (m : Machine)
    → Open p o m
    → SettledStage (unfinished w node p here f reason r m)
unfolding scan
unfinished-Settled w node p o here none reason r m h =
    retract-Settled [] m p (because reason) o (λ s. refl) h
unfinished-Settled w node p o here (some f) reason r m h =
    let told : Machine = emit (retract p (because reason) ∷ notice r.text) m in
    emit-Settled (skill_end node.skill_name (end_status (truthy r.incomplete_reason)) ∷ done ∷ [])
      (clear_checkpoint w told) (λ s. refl)
      (clear_checkpoint-Settled w told
        (retract-Settled (notice r.text) m p (because reason) o (notice-Quiet r.text) h))

broken-Settled :
    (w : World) (node : Node) (p : ℕ) (o : Bool) (here : Point) (f : Option Fallback) (m : Machine)
    → Open p o m
    → SettledStage (broken w node p here f m)
unfolding scan
broken-Settled w node p o here none m h = retract-Settled [] m p execution_error o (λ s. refl) h
broken-Settled w node p o here (some f) m h = crash-Settled w node p o m h

take_result-Settled :
    (w : World) (chain : Chain) (node : Node) (p : ℕ) (o : Bool) (attempt : ℕ) (last : Text)
    (f : Option Fallback) (ends : Bool) (r : NodeResult) (m : Machine)
    → Open p o m
    → SettledStage (take_result w chain node p attempt last f ends r m)
unfolding take_result
take_result-Settled w chain node p o attempt last f false r m h =
    broken-Settled w node p o (inner attempt last) f m h
take_result-Settled w chain node p o attempt last f true r m h =
    elim (Option-cases (first_reason r.failed_reason r.incomplete_reason)) [
      | inl e ↦
          SettledStage-by _ (judge w chain node p attempt f r m) (ground (arith, e))
            (judge-Settled w chain node p o attempt f r m h)
      | inr (reason, e) ↦
          SettledStage-by _ (unfinished w node p (inner attempt last) f reason r m)
            (ground (arith, e)) (unfinished-Settled w node p o (inner attempt last) f reason r m h)
    ]

-- The streamed events of an execution are its own.
streamed-scan :
    (p : ℕ) (suppress o : Bool) (stream : List StreamEvent)
    → (o2 : Bool) × (scan (streamed p suppress stream) (at o p) ≡ at o2 p)
unfolding streamed scan
streamed-scan p suppress o [] = (o, refl)
streamed-scan p suppress o (text_delta t ∷ stream) = streamed-scan p suppress o stream
streamed-scan p suppress o (raw_response none ∷ stream) = streamed-scan p suppress o stream
streamed-scan p suppress o (raw_response (some []) ∷ stream) = streamed-scan p suppress o stream
streamed-scan p suppress o (raw_response (some (c ∷ t)) ∷ stream) =
    let (o2, h) = streamed-scan p suppress true stream in (o2, ground (arith, h))
streamed-scan p suppress o (tool_call_result t ∷ stream) = streamed-scan p suppress o stream
streamed-scan p true o (StreamEvent.incomplete t ∷ stream) = streamed-scan p true o stream
streamed-scan p false o (StreamEvent.incomplete t ∷ stream) = streamed-scan p false o stream
streamed-scan p true o (StreamEvent.failed t ∷ stream) = streamed-scan p true o stream
streamed-scan p false o (StreamEvent.failed t ∷ stream) = streamed-scan p false o stream
streamed-scan p suppress o (StreamEvent.other ∷ stream) = streamed-scan p suppress o stream

noted_fallback-Open :
    (f : Option Fallback) (p : ℕ) (o : Bool) (m : Machine)
    → Open p o m
    → Open p o (noted_fallback f m)
noted_fallback-Open none p o m h = h
noted_fallback-Open (some f) p o m h = h

with_run-Settled :
    (w : World) (chain : Chain) (node : Node) (p attempt : ℕ) (last : Text) (f : Option Fallback)
    (run : NodeRun) (m : Machine)
    → Open p false m
    → SettledStage (with_run w chain node p attempt last f run m)
with_run-Settled w chain node p attempt last f run m (h, k) =
    let events = streamed p (is_dedicated f) run.stream in
    let (o, e) = streamed-scan p (is_dedicated f) false run.stream in
    take_result-Settled w chain node p o attempt last f run.ends (collected no_result run.stream)
      (emit events m) (ground (arith, scan-append m.events events (at false 0), h, e), k)

attempt_node-Settled :
    (w : World) (chain : Chain) (node : Node) (attempt : ℕ) (last : Text) (m : Machine)
    → Settled m
    → SettledStage (attempt_node w chain node attempt last m)
unfolding attempt_node
attempt_node-Settled w chain node attempt last m h =
    let f = fallback_for w node.skill_name (fallback_at m.node_idx m.fallback_reasons) in
    let started : Machine = noted_fallback f (record m { serial = suc m.serial }) in
    let opened =
      noted_fallback-Open f m.serial false (record m { serial = suc m.serial }) (h, refl) in
    SettledStage-if (node.has_allowed_tools && not w.can_scope) (crash w node m.serial started)
      (run_node w chain node m.serial attempt last f started)
      (crash-Settled w node m.serial false started opened)
      (with_run-Settled w chain node m.serial attempt last f
        (w.execute m.serial (asked node attempt f started)) started opened)

final_reply-Quiet : (o : Option (String × Text)) (d : Dict Bool) → Quiet (final_reply o d)
unfolding scan
final_reply-Quiet none d s = refl
final_reply-Quiet (some (skill, t)) d s = refl

finish-Settled :
    (w : World) (chain : Chain) (m : Machine) → Settled m → SettledStage (finish w chain m)
unfolding finish scan
finish-Settled w chain m h =
    let es =
      final_reply (last_output chain.nodes m.context.outputs) m.committed_provisional_output in
    emit-Settled (done ∷ []) (clear_checkpoint w (emit es m)) (λ s. refl)
      (clear_checkpoint-Settled w (emit es m) (
        emit-Settled es m
          (final_reply-Quiet (last_output chain.nodes m.context.outputs)
            m.committed_provisional_output)
          h))

enter-Settled : (w : World) (node : Node) (m : Machine) → Settled m → SettledStage (enter node m)
unfolding scan
enter-Settled w node m h =
    SettledStage-if (skips node.condition m.context)
      (goes_on outer (record (with_hint none m) { node_idx = suc m.node_idx }))
      (goes_on (inner 0 (codes "base gate failed"))
        (emit (skill_start node.skill_name m.node_idx ∷ []) m))
      h (emit-Settled (skill_start node.skill_name m.node_idx ∷ []) m (λ s. refl) h)

at_node-Settled :
    (w : World) (chain : Chain) (point : Point) (node : Node) (m : Machine)
    → Settled m
    → SettledStage (at_node w chain point node m)
at_node-Settled w chain outer node m h = enter-Settled w node m h
at_node-Settled w chain (inner attempt last) node m h =
    SettledStage-if (ltb attempt (max_attempts chain)) (attempt_node w chain node attempt last m)
      (block w node last (with_hint none m)) (attempt_node-Settled w chain node attempt last m h)
      (block-Settled w node last (with_hint none m) h)

pub step-Settled :
    (w : World) (chain : Chain) (point : Point) (m : Machine)
    → Settled m
    → SettledStage (step w chain point m)
unfolding step
step-Settled w chain point m h = elim (Option-cases (get_elem? chain.nodes m.node_idx)) [
  | inl e ↦ SettledStage-by _ (finish w chain m) (ground (arith, e)) (finish-Settled w chain m h)
  | inr (node, e) ↦
      SettledStage-by _ (at_node w chain point node m) (ground (arith, e))
        (at_node-Settled w chain point node m h)
]

pub run-Settled :
    (w : World) (chain : Chain) (fuel : ℕ) (stage : Stage)
    → SettledStage stage
    → SettledStage (run w chain fuel stage)
unfolding run
run-Settled w chain zero stage h = h
run-Settled w chain (suc fuel) (goes_on point m) h =
    run-Settled w chain fuel (step w chain point m) (step-Settled w chain point m h)
run-Settled w chain (suc fuel) (returned ending m) h = h
run-Settled w chain (suc fuel) (crashed m) h = h
