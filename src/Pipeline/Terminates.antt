-- ===== src/Pipeline/Terminates.antt =====
-- A pipeline ends, whatever its nodes and gates do.
use helve.Base.{
  ℕ, zero, suc, ◌+◌, ◌*◌, ◌≤◌, ◌<◌, ◌≡◌, some, List, [], ◌∷◌, arith, length, subst, Bool-cases, inl,
  inr,
}
use helve.Base.Dict.{Dict}
use helve.Pipeline.{Node, Chain, World, Machine, outer, Stage, goes_on}
use helve.Pipeline.Loop.Parts.{fallback_at}
use helve.Pipeline.Rank.{left, base_rank, rank, bit-le}
use helve.Pipeline.Rank.Run.{Ended, run-Ended}
use helve.Pipeline.Settled.{Settled, SettledStage}
use helve.Pipeline.Settled.Run.{run-Settled}
use helve.Pipeline.Topology.{fuel_for, run_pipeline, is_valid_topology}

left-le : (attempts : Dict ℕ) (nodes : List Node) → left attempts nodes ≤ 3 * length nodes
unfolding left
left-le attempts [] = omega arith
left-le attempts (node ∷ nodes) = omega (arith, left-le attempts nodes)

mul-le : (a b k : ℕ) → a ≤ b → a * k ≤ b * k
mul-le zero b k h = omega arith
mul-le (suc a) zero k h = absurd (omega (arith, h))
mul-le (suc a) (suc b) k h = omega (arith, mul-le a b k (omega (arith, h)))

some-injective : {s t : Stage} → some s ≡ some t → s ≡ t
some-injective e = cc

rank-fuel_for : (chain : Chain) (m : Machine) → rank chain outer m < fuel_for (length chain.nodes)
unfolding rank base_rank
rank-fuel_for chain m = omega (
  arith,
  mul-le (left m.attempts chain.nodes) (3 * length chain.nodes) (2 * length chain.nodes + 2)
      (left-le m.attempts chain.nodes),
  bit-le (fallback_at m.node_idx m.fallback_reasons),
)

-- A valid chain of n nodes ends, from any variables and whatever the executions, the gates and the registry
-- answer: its loops return or raise within 5 (3 n (2 n + 2) + 2 n + 1) + 5 rounds.
pub run_pipeline-Ended :
    (w : World) (chain : Chain) (m : Machine) (stage : Stage)
    → run_pipeline w chain m ≡ some stage
    → Ended stage
unfolding run_pipeline
run_pipeline-Ended w chain m stage e = elim (Bool-cases (is_valid_topology chain)) [
  | inl v ↦
      subst (λ s. Ended s) (some-injective (ground (arith, v, e)))
        (run-Ended w chain (fuel_for (length chain.nodes)) (goes_on outer m)
          (rank-fuel_for chain m))
  | inr v ↦ absurd (ground (arith, v, e))
]

-- Read in order, the events of a run stream the provisional text of the executions one after the other, and
-- each execution is committed or retracted exactly once: after its last text, and before the first text of
-- the next one. This holds also for a run that ends by an exception, where it holds of the events before it.
pub run_pipeline-Settled :
    (w : World) (chain : Chain) (m : Machine) (stage : Stage)
    → Settled m
    → run_pipeline w chain m ≡ some stage
    → SettledStage stage
unfolding run_pipeline
run_pipeline-Settled w chain m stage h e = elim (Bool-cases (is_valid_topology chain)) [
  | inl v ↦
      subst (λ s. SettledStage s) (some-injective (ground (arith, v, e)))
        (run-Settled w chain (fuel_for (length chain.nodes)) (goes_on outer m) h)
  | inr v ↦ absurd (ground (arith, v, e))
]
