-- ===== src/Pipeline/Outputs/Evicted.antt =====
-- engine/execution/pipeline/pipeline.py: what a commit and an eviction do to the outputs in the context.
use helve.Base.{
  ℕ, suc, ◌<◌, ◌≡◌, refl, sym, String, Bool, true, false, none, some, List, [], ◌∷◌, if◌then◌else◌,
  Text, arith, Bool-cases, inl, inr, subst, leb, str_eq, eq_iff, get_elem?,
}
use helve.Base.Dict.{Dict, get, put, remove, get-put, get-remove}
use helve.Pipeline.{Node, Chain, Machine, Stage, goes_on, returned, crashed}
use helve.Pipeline.Loop.Parts.{remove_all, keys_from}

abbrev pub has_key : String → List String → Bool
has_key j [] = false
has_key j (key ∷ keys) = if str_eq key j then true else has_key j keys

pub get-remove_all :
    {V : Type 0} (j : String) (keys : List String) (d : Dict V)
    → get j (remove_all keys d) ≡ (if has_key j keys then none else get j d)
unfolding remove_all
get-remove_all j [] d = refl
get-remove_all j (key ∷ keys) d =
    ground (arith, get-remove_all j keys (remove key d), get-remove key j d)

pub keys_from-has_key :
    (target : ℕ) (j : String) (d : Dict ℕ) (k : ℕ)
    → get j d ≡ some k
    → leb target k ≡ true
    → has_key j (keys_from target d) ≡ true
unfolding get
keys_from-has_key target j [] k e h = absurd (cc)
keys_from-has_key target j ((key, index) ∷ d) k e h = elim (Bool-cases (str_eq key j)) [
  | inl s ↦ ground (arith, e, h, s)
  | inr s ↦
      let tail : get j d ≡ some k = ground (arith, e, s) in
      ground (arith, s, keys_from-has_key target j d k tail h)
]

-- The node k of the chain runs this skill.
abbrev pub NamedNode : Chain → ℕ → String → Type 0
NamedNode chain k skill =
    (node : Node) × (get_elem? chain.nodes k ≡ some node) × (node.skill_name ≡ skill)

-- Every output in the context is that of a node before the index, as the committed indices say.
abbrev pub Tracked : Chain → Dict Text → Dict ℕ → ℕ → Type 0
Tracked chain outputs indices i =
    (skill : String) (text : Text)
    → get skill outputs ≡ some text
    → (k : ℕ) × (get skill indices ≡ some k) × (k < i) × NamedNode chain k skill

abbrev pub TrackedMachine : Chain → Machine → Type 0
TrackedMachine chain m = Tracked chain m.context.outputs m.committed_output_index m.node_idx

abbrev pub TrackedStage : Chain → Stage → Type 0
TrackedStage chain (goes_on point m) = TrackedMachine chain m
TrackedStage chain (returned ending m) = Unit {0}
TrackedStage chain (crashed m) = Unit {0}

pub Tracked-later :
    (chain : Chain) (outputs : Dict Text) (indices : Dict ℕ) (i : ℕ)
    → Tracked chain outputs indices i
    → Tracked chain outputs indices (suc i)
Tracked-later chain outputs indices i h skill text e =
    let (k, f, l, n) = h skill text e in (k, f, omega (arith, l), n)

pub Tracked-put :
    (chain : Chain) (outputs : Dict Text) (indices : Dict ℕ) (i : ℕ) (name : String) (output : Text)
    → NamedNode chain i name
    → Tracked chain outputs indices i
    → Tracked chain (put name output outputs) (put name i indices) (suc i)
Tracked-put chain outputs indices i name output own h skill text e =
    elim (Bool-cases (str_eq name skill)) [
      | inl s ↦ (
        i,
        ground (arith, s, get-put name skill i indices),
        omega arith,
        subst (NamedNode chain i) (ground (arith, s, eq_iff name skill)) own,
      )
      | inr s ↦
          let (k, f, l, n) =
            h skill text (ground (arith, s, e, get-put name skill output outputs)) in
          (k, ground (arith, s, f, get-put name skill i indices), omega (arith, l), n)
    ]

pub Tracked-evicted :
    (chain : Chain) (outputs : Dict Text) (indices : Dict ℕ) (i target : ℕ)
    → Tracked chain outputs indices i
    → Tracked chain
        (remove_all (keys_from target indices) outputs)
        (remove_all (keys_from target indices) indices)
        target
Tracked-evicted chain outputs indices i target h skill text e =
    elim (Bool-cases (has_key skill (keys_from target indices))) [
      | inl s ↦
          absurd (ground (arith, s, e, get-remove_all skill (keys_from target indices) outputs))
      | inr s ↦
          let (k, f, l, n) =
            h skill text
              (ground (arith, s, e, get-remove_all skill (keys_from target indices) outputs)) in
          (
            k,
            ground (arith, s, f, get-remove_all skill (keys_from target indices) indices),
            elim (Bool-cases (leb target k)) [
              | inl b ↦ absurd (ground (arith, s, keys_from-has_key target skill indices k f b))
              | inr b ↦ ground (arith, b)
            ],
            n,
          )
    ]

pub TrackedStage-by :
    (chain : Chain) (s t : Stage) → s ≡ t → TrackedStage chain t → TrackedStage chain s
TrackedStage-by chain s t e h = subst (TrackedStage chain) (sym e) h

pub TrackedStage-if :
    (chain : Chain) (b : Bool) (s t : Stage)
    → TrackedStage chain s
    → TrackedStage chain t
    → TrackedStage chain (if b then s else t)
TrackedStage-if chain true s t h k = h
TrackedStage-if chain false s t h k = k
