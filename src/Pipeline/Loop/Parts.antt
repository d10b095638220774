-- ===== src/Pipeline/Loop/Parts.antt =====
-- engine/execution/pipeline/pipeline.py: the parts that a step of run_pipeline is made of.
use helve.Base.{
  ℕ, suc, String, Bool, ◌&&◌, Option, none, some, List, [], ◌∷◌, if◌then◌else◌, Text, leb, ◌==◌,
  str_eq,
}
use helve.Base.Dict.{Dict, put, remove}
use helve.Pipeline.{Node, Fallback, disabled, not_installed, World, Machine}

-- fallback_reasons.get(node_idx)
abbrev pub fallback_at : ℕ → List (ℕ × Fallback) → Option Fallback
fallback_at i [] = none
fallback_at i ((j, reason) ∷ rest) = if j == i then some reason else fallback_at i rest

-- fallback_reasons[node_idx] = reason
abbrev pub set_fallback : ℕ → Fallback → List (ℕ × Fallback) → List (ℕ × Fallback)
set_fallback i reason rest = (i, reason) ∷ rest

-- fallback_reasons.pop(node_idx, None)
abbrev pub drop_fallback : ℕ → List (ℕ × Fallback) → List (ℕ × Fallback)
drop_fallback i [] = []
drop_fallback i ((j, reason) ∷ rest) =
    let later = drop_fallback i rest in if j == i then later else (j, reason) ∷ later

-- Every entry at or after the target is deleted.
abbrev pub drop_fallbacks_from : ℕ → List (ℕ × Fallback) → List (ℕ × Fallback)
drop_fallbacks_from target [] = []
drop_fallbacks_from target ((j, reason) ∷ rest) =
    let later = drop_fallbacks_from target rest in
    if leb target j then later else (j, reason) ∷ later

-- The fallback of an attempt: the one that is set, or a disabled or missing skill's.
abbrev pub fallback_for : World → String → Option Fallback → Option Fallback
fallback_for w skill (some reason) = some reason
fallback_for w skill none =
    if w.is_disabled skill
    then some disabled
    else if w.is_installed skill
    then none
    else some not_installed

abbrev pub with_fallback : Fallback → Machine → Machine
with_fallback reason m = record m {
  fallback_reasons = set_fallback m.node_idx reason m.fallback_reasons;
}

abbrev pub noted_fallback : Option Fallback → Machine → Machine
noted_fallback none m = m
noted_fallback (some reason) m = with_fallback reason m

abbrev pub with_hint : Option Text → Machine → Machine
with_hint hint m = record m { context = record m.context { retry_hint = hint } }

-- `if hint: context[CTX_RETRY_HINT] = hint`
abbrev pub hinted : Option Text → Machine → Machine
hinted none m = m
hinted (some []) m = m
hinted (some (c ∷ text)) m = with_hint (some (c ∷ text)) m

-- Of two reasons, the first that is there and not empty.
abbrev pub truthy : Option Text → Option Text
truthy none = none
truthy (some []) = none
truthy (some (c ∷ text)) = some (c ∷ text)

abbrev pub first_reason : Option Text → Option Text → Option Text
first_reason none second = truthy second
first_reason (some []) second = truthy second
first_reason (some (c ∷ text)) second = some (c ∷ text)

-- _clear_checkpoint
abbrev pub clear_checkpoint : World → Machine → Machine
clear_checkpoint w m = if w.persists then record m { checkpoint = none } else m

-- _save_checkpoint: a write that fails is only logged.
abbrev pub save_checkpoint : World → Node → Bool → Machine → Machine
save_checkpoint w node awaiting m =
    if w.persists && w.saves m.serial
    then record m {
      checkpoint = some (record {
        skill_chain_index = m.node_idx;
        node_skill = node.skill_name;
        outputs = m.context.outputs;
        awaiting_user_input = awaiting;
        provisional_outputs = m.committed_provisional_output;
      });
    }
    else m

-- The three entries of an output that is committed.
abbrev pub commit_output : Node → Text → Bool → Machine → Machine
commit_output node output was_provisional m = record m {
  context = record m.context { outputs = put node.skill_name output m.context.outputs };
  committed_provisional_output = put node.skill_name was_provisional m.committed_provisional_output;
  committed_output_index = put node.skill_name m.node_idx m.committed_output_index;
}

abbrev pub keys_from : ℕ → Dict ℕ → List String
keys_from target [] = []
keys_from target ((key, index) ∷ rest) =
    let later = keys_from target rest in if leb target index then key ∷ later else later

unfoldable pub remove_all {ℓ} : {V : Type ℓ} → List String → Dict V → Dict V
remove_all [] d = d
remove_all (key ∷ keys) d = remove_all keys (remove key d)

-- _evict_outputs_at_or_after
unfoldable pub evict_outputs_at_or_after : ℕ → Machine → Machine
evict_outputs_at_or_after target m =
    let stale = keys_from target m.committed_output_index in
    record m {
      context = record m.context { outputs = remove_all stale m.context.outputs };
      committed_provisional_output = remove_all stale m.committed_provisional_output;
      committed_output_index = remove_all stale m.committed_output_index;
    }

-- chain_index.get(target), over the nodes from an index on
abbrev pub index_of : String → ℕ → List Node → Option ℕ
index_of skill i [] = none
index_of skill i (node ∷ nodes) =
    if str_eq node.skill_name skill then some i else index_of skill (suc i) nodes
