-- ===== src/Pipeline/Guard.antt =====
-- engine/execution/pipeline/backtrack.py: FailureLoopGuard, with max_same 2 and max_attempts 3.
use helve.Base.{ℕ, ◌+◌, String, Option, none, some, if◌then◌else◌, ltb}
use helve.Base.Dict.{Dict, get, put}

pub data Action : Type 0 where
  retry switch blocked : Action

abbrev pub count : Option ℕ → ℕ
count none = 0
count (some n) = n

abbrev pub action_for : ℕ → Action
action_for n = if ltb n 2 then retry else if ltb n 3 then switch else blocked

-- FailureLoopGuard.record: the action and the counts afterwards.
unfoldable pub record_failure : String → Dict ℕ → Action × Dict ℕ
record_failure error_type attempts =
    let n = count (get error_type attempts) + 1 in (action_for n, put error_type n attempts)
