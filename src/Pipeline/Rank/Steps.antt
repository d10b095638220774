-- ===== src/Pipeline/Rank/Steps.antt =====
-- Each part of a step lowers the rank, where the run goes on.

use helve.Base.{
  ℕ, ◌+◌, ◌*◌, ◌≤◌, ◌<◌, ◌≡◌, refl, sym, String, Bool, true, false, Option, none, some, [], ◌∷◌,
  if◌then◌else◌, Text, codes, arith, Bool-cases, Option-cases, inl, inr, subst, ltb, get_elem?,
}
use helve.Base.Dict.{get, put}
use helve.Pipeline.{
  Node, Chain, GateResult, World, Machine, Point, outer, inner, Stage, goes_on, returned, crashed,
  emit, skill_end, SkillStatus, backtrack,
}
use helve.Pipeline.Guard.{Action, switch, record_failure, action_for, count}
use helve.Pipeline.Loop.Parts.{
  hinted, save_checkpoint, evict_outputs_at_or_after, index_of, drop_fallbacks_from,
}
use helve.Pipeline.Loop.{block, to_target, switch_back, act, escalate}
use helve.Pipeline.Rank.{left, left-put-lt, base_rank, rank, Below, base_rank-counted}

pub Below-by : (chain : Chain) (n : ℕ) (s t : Stage) → s ≡ t → Below chain n t → Below chain n s
Below-by chain n s t e h = subst (λ x. Below chain n x) (sym e) h

pub Below-if :
    (chain : Chain) (n : ℕ) (b : Bool) (s t : Stage)
    → Below chain n s
    → Below chain n t
    → Below chain n (if b then s else t)
Below-if chain n true s t h k = h
Below-if chain n false s t h k = k

pub Below-le : (chain : Chain) (n k : ℕ) (s : Stage) → n ≤ k → Below chain n s → Below chain k s
Below-le chain n k (goes_on point m) h b = omega (arith, h, b)
Below-le chain n k (returned ending m) h b = tt
Below-le chain n k (crashed m) h b = tt

-- A lower base is enough, at any point of the loops.
pub rank-lt :
    (chain : Chain) (point : Point) (n : Machine) (b : ℕ)
    → base_rank chain n < b
    → rank chain point n < b * 5
unfolding rank
rank-lt chain outer n b h = omega (arith, h)
rank-lt chain (inner a last) n b h = omega (arith, h)

hinted-attempts : (o : Option Text) (m : Machine) → (hinted o m).attempts ≡ m.attempts
hinted-attempts none m = refl
hinted-attempts (some []) m = refl
hinted-attempts (some (c ∷ t)) m = refl

pub hinted-base_rank :
    (chain : Chain) (o : Option Text) (m : Machine)
    → base_rank chain (hinted o m) ≡ base_rank chain m
unfolding base_rank
hinted-base_rank chain none m = refl
hinted-base_rank chain (some []) m = refl
hinted-base_rank chain (some (c ∷ t)) m = refl

pub save_checkpoint-attempts :
    (w : World) (node : Node) (a : Bool) (m : Machine)
    → (save_checkpoint w node a m).attempts ≡ m.attempts
save_checkpoint-attempts w node a m = ground arith

-- The failures that the guard has counted since the bound was taken.
to_target-Below :
    (chain : Chain) (b : ℕ) (node : Node) (target : String) (g : GateResult) (i : ℕ)
    (old m : Machine)
    → base_rank chain old ≤ b
    → left m.attempts chain.nodes < left old.attempts chain.nodes
    → Below chain (b * 5) (to_target node target g i m)
unfolding evict_outputs_at_or_after
to_target-Below chain b node target g i old m h k =
    let cut : Machine = record (evict_outputs_at_or_after i m) {
      fallback_reasons = drop_fallbacks_from i m.fallback_reasons;
    } in
    let next : Machine =
      record (emit (backtrack node.skill_name target g.reason ∷ []) (hinted g.retry_hint cut)) {
        node_idx = i;
      } in
    rank-lt chain outer next b
      (omega (arith, h, base_rank-counted chain old next (rw (hinted-attempts g.retry_hint cut) k)))

switch_back-Below :
    (w : World) (chain : Chain) (b : ℕ) (node : Node) (g : GateResult) (target : String)
    (old m : Machine)
    → base_rank chain old ≤ b
    → left m.attempts chain.nodes < left old.attempts chain.nodes
    → Below chain (b * 5) (switch_back w chain node g target m)
unfolding switch_back
switch_back-Below w chain b node g target old m h k = elim (Bool-cases (ltb 5 m.backtrack_count)) [
  | inl c ↦
      Below-by chain (b * 5) _ (block w node (codes "max backtracks") m) (ground (arith, c)) tt
  | inr c ↦ elim (Option-cases (index_of target 0 chain.nodes)) [
    | inl e ↦
        Below-by chain (b * 5) _ (block w node (codes "backtrack target not found") m)
          (ground (arith, c, e)) tt
    | inr (i, e) ↦
        Below-by chain (b * 5) _ (to_target node target g i m) (ground (arith, c, e))
          (to_target-Below chain b node target g i old m h k)
  ]
]

act-Below :
    (w : World) (chain : Chain) (b n : ℕ) (node : Node) (g : GateResult) (t : Option String)
    (old m : Machine)
    → base_rank chain old ≤ b
    → (n < 3 → left m.attempts chain.nodes < left old.attempts chain.nodes)
    → (a : Action) → action_for n ≡ a
    → Below chain (b * 5) (act w chain node g a t m)
act-Below w chain b n node g t old m h k Action.blocked e = tt
act-Below w chain b n node g none old m h k switch e = tt
act-Below w chain b n node g (some target) old m h k switch e =
    switch_back-Below w chain b node g target old
      (record m { backtrack_count = m.backtrack_count + 1 }) h (k (few e))
  where
    few : action_for n ≡ switch → n < 3
    few p = ground (arith, p)
act-Below w chain b n node g t old m h k Action.retry e =
    let next : Machine =
      emit (skill_end node.skill_name SkillStatus.retry ∷ []) (hinted g.retry_hint m) in
    rank-lt chain outer next b (
      omega (
        arith,
        h,
        base_rank-counted chain old next (rw (hinted-attempts g.retry_hint m) (k (few e))),
      ))
  where
    few : action_for n ≡ Action.retry → n < 3
    few p = ground (arith, p)

pub escalate-Below :
    (w : World) (chain : Chain) (node : Node) (g : GateResult) (m : Machine)
    → get_elem? chain.nodes m.node_idx ≡ some node
    → Below chain (base_rank chain m * 5) (escalate w chain node g m)
unfolding escalate record_failure
escalate-Below w chain node g m e =
    let n = count (get node.skill_name m.attempts) + 1 in
    act-Below w chain (base_rank chain m) n node g (get node.skill_name chain.backtrack_map) m
      (record m { attempts = put node.skill_name n m.attempts }) (omega arith)
      (λ few. left-put-lt m.attempts node chain.nodes m.node_idx e few) (action_for n) refl
