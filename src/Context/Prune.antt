-- ===== src/Context/Prune.antt =====
-- engine/context/compression.py: prune_tool_outputs.
--
-- The loop walks the conversation backwards and writes to the messages afterwards. Here the walk is
-- a recursion on the reversed conversation that returns it with the stubs written.
pub mod Kept
pub mod Again
use mathlib.Core.List.{reverse}
use helve.Base.{
  ℕ, ◌+◌, Bool, true, false, Option, none, some, List, [], ◌∷◌, ◌++◌, ltb, if◌then◌else◌, length,
  Text, codes, decimal,
}
use helve.Context.Conversation.{Message, is_tool, content_starts}

abbrev pub prune_protect_threshold_chars : ℕ
prune_protect_threshold_chars = 8000

abbrev pub prune_min_chars : ℕ
prune_min_chars = 2000

abbrev pub pruned_prefix : Text
pruned_prefix = codes "[pruned"

abbrev pub pruned_stub : ℕ → Text
pruned_stub n = codes "[pruned: " ++ (decimal n ++ codes " chars of earlier output]")

abbrev pub char_count : Option Text → ℕ
char_count none = 0
char_count (some text) = length text

abbrev pub is_stub : Message → Bool
is_stub m = content_starts pruned_prefix m.content

abbrev pub stubbed : Message → Message
stubbed m = record m { content = some (pruned_stub (char_count m.content)) }

-- `total` counts the tool output already walked over. The result is the rest of the reversed
-- conversation and the number of characters that its stubs replace.
unfoldable pub walk : ℕ → ℕ → List Message → List Message × ℕ
walk threshold total [] = ([], 0)
walk threshold total (m ∷ ms) =
    let (rest, pruned) = walk threshold (total + char_count m.content) ms in
    let (other, pruned') = walk threshold total ms in
    if is_tool m.role
    then (if is_stub m
        then (m ∷ ms, 0)
        else if ltb threshold total
        then (stubbed m ∷ rest, char_count m.content + pruned)
        else (m ∷ rest, pruned))
    else (m ∷ other, pruned')

unfoldable pub prune_tool_outputs : ℕ → ℕ → List Message → List Message × ℕ
prune_tool_outputs threshold min_prune conversation =
    let (walked, pruned) = walk threshold 0 (reverse conversation) in
    if ltb pruned min_prune then (conversation, 0) else (reverse walked, pruned)
