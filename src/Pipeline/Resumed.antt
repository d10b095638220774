-- ===== src/Pipeline/Resumed.antt =====
-- A run that resumes from the checkpoint that another run of the chain left: _apply_session_checkpoint of
-- engine/execution/orchestration/agent_loop.py and run_pipeline.
use helve.Base.{
  ℕ, zero, suc, ◌+◌, subst, eq_refl, ◌≡◌, sym, ap, ◌∙◌, String, true, false, Option, some, List, [],
  ◌∷◌, Text, arith, Option-cases, inl, inr, str_eq, get_elem?,
}
use helve.Base.Dict.{Dict, get}
use helve.RunState.Store.{Store}
use helve.Pipeline.{Node, Chain, Checkpoint, World, Stage, goes_on, outer}
use helve.Pipeline.Loop.{run}
use helve.Pipeline.Outputs.Evicted.{Tracked, TrackedMachine, TrackedStage}
use helve.Pipeline.Outputs.{run-Tracked}
use helve.Pipeline.Saved.Checkpoints.{Saved, SavedStage, left_by}
use helve.Pipeline.Saved.{run-Saved}
use helve.Pipeline.Topology.{all_distinct, is_valid_topology, distinct-other}
use helve.Pipeline.Resume.{
  SavedCheckpoint, Request, resumes, GoesOn, committed, rebuilt, resumed_machine,
  apply_session_checkpoint, apply_session_checkpoint-Resumable,
}

some-node : (a b : Node) → some a ≡ some b → a ≡ b
some-node a b e = cc

from_zero : (k : ℕ) → 0 + k ≡ k
from_zero k = omega arith

rebuilt-get :
    (outputs : Dict Text) (nodes : List Node) (i k : ℕ) (node : Node) (text : Text)
    → all_distinct nodes ≡ true
    → get_elem? nodes k ≡ some node
    → get node.skill_name outputs ≡ some text
    → get node.skill_name (rebuilt outputs i nodes) ≡ some (i + k)
unfolding rebuilt get
rebuilt-get outputs [] i k node text d e h = absurd (cc)
rebuilt-get outputs (first ∷ nodes) i zero node text d e h =
    let same : first ≡ node = some-node first node e in
    subst
      (λ (n : Node).
        get n.skill_name
          (committed first i (get first.skill_name outputs) (rebuilt outputs (suc i) nodes))
        ≡ some (i + zero))
      same
      (ground (
        arith,
        subst (λ (n : Node). get n.skill_name outputs ≡ some text) (sym same) h,
        eq_refl first.skill_name,
      ))
rebuilt-get outputs (first ∷ nodes) i (suc k) node text d e h =
    let tail : all_distinct nodes ≡ true = ground (arith, d) in
    let later = rebuilt-get outputs nodes (suc i) k node text tail e h in
    let other : str_eq first.skill_name node.skill_name ≡ false =
      distinct-other first nodes k node d e in
    elim (Option-cases (get first.skill_name outputs)) [
      | inl g ↦ ground (arith, g, later)
      | inr (t, g) ↦ ground (arith, g, later, other)
    ]

-- A chain that resumes at a node with outputs of earlier nodes only runs with outputs of earlier nodes only: the
-- indices that it rebuilds are those of the nodes.
pub resumed_machine-Tracked :
    (chain : Chain) (index : ℕ) (c : Checkpoint) (attempts indices : Dict ℕ)
    → is_valid_topology chain ≡ true
    → Tracked chain c.outputs indices index
    → TrackedMachine chain (resumed_machine chain index c attempts)
unfolding resumed_machine is_valid_topology
resumed_machine-Tracked chain index c attempts indices v t skill text e =
    let (k, f, l, (node, at, name)) = t skill text e in
    let distinct : all_distinct chain.nodes ≡ true = ground (arith, v) in
    let held : get node.skill_name c.outputs ≡ some text =
      ap (λ (x : String). get x c.outputs) name ∙ e in
    let found : get node.skill_name (rebuilt c.outputs 0 chain.nodes) ≡ some k =
      subst (λ (n : ℕ). get node.skill_name (rebuilt c.outputs 0 chain.nodes) ≡ some n)
        (from_zero k) (rebuilt-get c.outputs chain.nodes 0 k node text distinct at held) in
    (
      k,
      ap (λ (x : String). get x (rebuilt c.outputs 0 chain.nodes)) (sym name) ∙ found,
      l,
      (node, at, name),
    )

Saved-some :
    (chain : Chain) (o : Option Checkpoint) (c : Checkpoint)
    → Saved chain o
    → o ≡ some c
    → Saved chain (some c)
Saved-some chain o c h e = subst (Saved chain) e h

some-saved : (a b : SavedCheckpoint) → some a ≡ some b → a ≡ b
some-saved a b e = cc

behind :
    (r : Request) (s : SavedCheckpoint) (index : ℕ) (c : Checkpoint)
    → c.awaiting_user_input ≡ false
    → GoesOn r s index c
    → index ≡ suc c.skill_chain_index
behind r s index c h (inl (a, e)) = absurd (ground (arith, a, h))
behind r s index c h (inr (a, b, e)) = e

-- The loops of a run that resumes behind the node of a crashed run's checkpoint.
crash_resumed :
    (w : World) (chain : Chain) (fuel : ℕ) (index : ℕ) (c : Checkpoint) (attempts : Dict ℕ)
    → is_valid_topology chain ≡ true
    → Saved chain (some c)
    → index ≡ suc c.skill_chain_index
    → TrackedStage chain (run w chain fuel (goes_on outer (resumed_machine chain index c attempts)))
crash_resumed w chain fuel index c attempts v h e =
    run-Tracked w chain fuel (goes_on outer (resumed_machine chain index c attempts)) (
      resumed_machine-Tracked chain index c attempts h.1 v
        (subst (Tracked chain c.outputs h.1) (sym e) h.2))

-- When a run of a valid chain is cut off at any step, or ends, and a request resumes from the checkpoint that it left
-- and that does not await the user, then through the whole second run, with other answers of the world, the
-- context holds outputs only of nodes before the one where the loops stand, each recorded with its index,
-- where the first run began like that and with no checkpoint or one that such a run left.
pub resumed_run-Tracked :
    (w later : World) (chain : Chain) (fuel more : ℕ) (stage : Stage) (now : Text) (runs : Store)
    (r : Request) (s : SavedCheckpoint) (index : ℕ) (c : Checkpoint) (attempts : Dict ℕ)
    → is_valid_topology chain ≡ true
    → TrackedStage chain stage
    → SavedStage chain stage
    → left_by (run w chain fuel stage) ≡ some s.checkpoint
    → s.checkpoint.awaiting_user_input ≡ false
    → apply_session_checkpoint now runs r chain (some s) ≡ resumes index c
    → TrackedStage chain
        (run later chain more (goes_on outer (resumed_machine chain index c attempts)))
resumed_run-Tracked w later chain fuel more stage now runs r s index c attempts v t h left quiet e =
    let (found, same, (own, scope, owner, matches, on)) =
      apply_session_checkpoint-Resumable now runs r chain (some s) index c e in
    let mine : s ≡ found = some-saved s found same in
    let source : c ≡ s.checkpoint = own ∙ ap (λ (x : SavedCheckpoint). x.checkpoint) (sym mine) in
    let kept : Saved chain (some c) =
      Saved-some chain (left_by (run w chain fuel stage)) c (run-Saved w chain fuel stage t h)
        (left ∙ ap some (sym source)) in
    let still : c.awaiting_user_input ≡ false =
      ap (λ (x : Checkpoint). x.awaiting_user_input) source ∙ quiet in
    crash_resumed later chain more index c attempts v kept (behind r found index c still on)
