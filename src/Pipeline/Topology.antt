-- ===== src/Pipeline/Topology.antt =====
-- engine/execution/pipeline/pipeline.py: _validate_chain_topology, and run_pipeline as a whole.
use helve.Base.{
  ℕ, zero, suc, ◌+◌, ◌*◌, ◌<◌, ◌≡◌, String, Bool, true, false, ◌&&◌, not, Option, none, some, List,
  [], ◌∷◌, if◌then◌else◌, arith, Bool-cases, inl, inr, str_eq, eq_iff, eq_refl, ltb, get_elem?,
  length,
}
use helve.Base.Dict.{Dict, get}
use helve.Pipeline.{Node, Chain, World, Machine, Stage, goes_on, outer}
use helve.Pipeline.Loop.Parts.{index_of}
use helve.Pipeline.Loop.{run}

abbrev pub has_name : String → List Node → Bool
has_name skill [] = false
has_name skill (node ∷ nodes) = if str_eq node.skill_name skill then true else has_name skill nodes

abbrev pub all_distinct : List Node → Bool
all_distinct [] = true
all_distinct (node ∷ nodes) = not (has_name node.skill_name nodes) && all_distinct nodes

-- A backtrack to a node that is not there is let through, and blocks when it is taken.
abbrev pub goes_back : Option ℕ → Option ℕ → Bool
goes_back none target = false
goes_back (some source) none = true
goes_back (some source) (some target) = ltb target source

abbrev pub all_go_back : List Node → Dict String → Bool
all_go_back nodes [] = true
all_go_back nodes ((source, target) ∷ rest) =
    goes_back (index_of source 0 nodes) (index_of target 0 nodes) && all_go_back nodes rest

-- _validate_chain_topology: false for a ValueError
unfoldable pub is_valid_topology : Chain → Bool
is_valid_topology chain = all_distinct chain.nodes && all_go_back chain.nodes chain.backtrack_map

-- Rounds enough for any run of so many nodes.
abbrev pub fuel_for : ℕ → ℕ
fuel_for size = (3 * size * (2 * size + 2) + (2 * size + 1)) * 5 + 5

-- run_pipeline, from the variables that its start or a restored checkpoint gives; `none` for the ValueError.
unfoldable pub run_pipeline : World → Chain → Machine → Option Stage
run_pipeline w chain m =
    if is_valid_topology chain
    then some (run w chain (fuel_for (length chain.nodes)) (goes_on outer m))
    else none

has_name-elem :
    (nodes : List Node) (i : ℕ) (node : Node)
    → get_elem? nodes i ≡ some node
    → has_name node.skill_name nodes ≡ true
has_name-elem [] i node e = absurd (cc)
has_name-elem (first ∷ nodes) zero node e = ground (arith, e, eq_refl node.skill_name)
has_name-elem (first ∷ nodes) (suc i) node e = ground (arith, has_name-elem nodes i node e)

pub distinct-other :
    (first : Node) (nodes : List Node) (i : ℕ) (node : Node)
    → all_distinct (first ∷ nodes) ≡ true
    → get_elem? nodes i ≡ some node
    → str_eq first.skill_name node.skill_name ≡ false
distinct-other first nodes i node d e =
    elim (Bool-cases (str_eq first.skill_name node.skill_name)) [
      | inl h ↦ absurd (
          ground
            (arith, d, h, eq_iff first.skill_name node.skill_name, has_name-elem nodes i node e))
      | inr h ↦ h
    ]

-- In a chain of distinct names a node is found at its own index.
index_of-elem :
    (nodes : List Node) (k i : ℕ) (node : Node)
    → all_distinct nodes ≡ true
    → get_elem? nodes i ≡ some node
    → index_of node.skill_name k nodes ≡ some (k + i)
index_of-elem [] k i node d e = absurd (cc)
index_of-elem (first ∷ nodes) k zero node d e = ground (arith, e, eq_refl node.skill_name)
index_of-elem (first ∷ nodes) k (suc i) node d e =
    elim (Bool-cases (str_eq first.skill_name node.skill_name)) [
      | inl h ↦ absurd (
          ground
            (arith, d, h, eq_iff first.skill_name node.skill_name, has_name-elem nodes i node e))
      | inr h ↦
          let tail : all_distinct nodes ≡ true = ground (arith, d) in
          ground (arith, h, index_of-elem nodes (suc k) i node tail e)
    ]

all_go_back-get :
    (nodes : List Node) (map : Dict String) (source target : String)
    → all_go_back nodes map ≡ true
    → get source map ≡ some target
    → goes_back (index_of source 0 nodes) (index_of target 0 nodes) ≡ true
unfolding get
all_go_back-get nodes [] source target h e = absurd (cc)
all_go_back-get nodes ((s, t) ∷ map) source target h e = elim (Bool-cases (str_eq s source)) [
  | inl k ↦ ground (arith, h, k, e, eq_iff s source)
  | inr k ↦
      let tail : all_go_back nodes map ≡ true = ground (arith, h) in
      let found : get source map ≡ some target = ground (arith, k, e) in
      all_go_back-get nodes map source target tail found
]

-- In a chain that passes the validation, the backtrack of a node leads to an earlier node of the chain, or to none.
pub index_of-lt :
    (chain : Chain) (i t : ℕ) (node : Node) (target : String)
    → is_valid_topology chain ≡ true
    → get_elem? chain.nodes i ≡ some node
    → get node.skill_name chain.backtrack_map ≡ some target
    → index_of target 0 chain.nodes ≡ some t
    → t < i
unfolding is_valid_topology
index_of-lt chain i t node target v e b h =
    let distinct : all_distinct chain.nodes ≡ true = ground (arith, v) in
    let backwards : all_go_back chain.nodes chain.backtrack_map ≡ true = ground (arith, v) in
    ground (
      arith,
      h,
      index_of-elem chain.nodes 0 i node distinct e,
      all_go_back-get chain.nodes chain.backtrack_map node.skill_name target backwards b,
    )
