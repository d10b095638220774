-- ===== src/Ledger/Tests.antt =====
-- The ledger on concrete calls: a push that fails, one that succeeds, and a retried idempotent write.
use helve.Base.{◌≤◌, ◌≡◌, refl, Bool, true, false, none, some, List, [], ◌∷◌, Text, String, codes}
use helve.Ledger.{
  Row, Attempt, ToolResult, effect_completed, empty, replayed, fresh_row, select, begin, finish,
  ledger_redacted_content,
}
use helve.Base.Dict.{get, put}
use helve.Ledger.{Table}
use helve.Ledger.Keys.{
  Call, new_keys, keys_for, idempotency_key_for, occurrence_key, semantic_prefix,
  persisted_occurrences,
}
use helve.Ledger.Repeat.{NoneForeign, keys_for-resumed}
use helve.Ledger.Trace.{Op, begins, finishes, run_ops, claims, claims-le-one, claims_while_running}
use helve.Ledger.Replay.{finished, finish_replays}

abbrev plain : Text → Text
plain t = t

abbrev push : String → Bool → Attempt
push call_id idempotent = record {
  call_id = call_id;
  tool_name = "git_ops";
  idempotency_key = "k";
  idempotent = idempotent;
  now = "t0";
}

abbrev outcome : Bool → ToolResult
outcome failed = record {
  call_id = "c1";
  content = 111 ∷ 107 ∷ [];
  is_error = failed;
  error_kind = none;
  retryable = false;
  timed_out = false;
  side_effect_status = effect_completed;
  metadata = empty;
}

abbrev retries : List Op
retries =
    begins "run" (push "c1" false)
    ∷ begins "run" (push "c2" false)
    ∷ finishes "run" "c1" "k" "t1" (outcome true)
    ∷ begins "run" (push "c3" false)
    ∷ []

claims-le-one_example : claims plain "run" "k" retries [] ≤ 1
claims-le-one_example =
    claims-le-one plain "run" "k" retries [] ((λ _. refl), ((λ _. refl), (tt, ((λ _. refl), tt))))

retries_claim_once : claims plain "run" "k" retries [] ≡ 1
unfolding claims begin finish
retries_claim_once = refl

abbrev held_push : Row
held_push = fresh_row "run" "k" "git_ops" "c1" "t0"

claims_while_running_example :
    (claims plain "run" "k" (begins "run" (push "c2" true) ∷ []) (held_push ∷ []) ≡ 0)
    × (select "run" "k" (run_ops plain (begins "run" (push "c2" true) ∷ []) (held_push ∷ []))
        ≡ some held_push)
unfolding select
claims_while_running_example =
    claims_while_running plain "run" "k" (begins "run" (push "c2" true) ∷ []) (held_push ∷ [])
      held_push refl refl (tt, tt)

push_claims : (begin "run" (push "c1" false) []).1.claimed ≡ true
unfolding begin
push_claims = refl

finish_replays_example :
    (begin "run" (push "c9" true) (
      run_ops plain retries
        (finished plain "run" "t1" (push "c1" false) (outcome false) [] push_claims))).1
    ≡ record {
      claimed = false;
      result = some (record {
        call_id = "c9";
        content = ledger_redacted_content plain (111 ∷ 107 ∷ []);
        is_error = false;
        error_kind = none;
        retryable = false;
        timed_out = false;
        side_effect_status = effect_completed;
        metadata = replayed;
      });
    }
finish_replays_example =
    finish_replays plain "run" "t1" (push "c1" false) (outcome false) [] push_claims retries
      (push "c9" true) refl refl

-- Two equal writes, and a run that resumes and repeats them under other identifiers.
abbrev write : String → Call Text
write call_id = record { call_id = call_id; tool_name = "write"; arguments = codes "a" }

abbrev by_tool : String → Text → String
by_tool tool arguments = tool

abbrev digest : String → String
digest payload = payload

abbrev one_row : Table
one_row = fresh_row "r" "semantic:write:1" "write" "c1" "t0" ∷ []

abbrev first_run : List (Call Text × Table)
first_run = (write "c1", []) ∷ (write "c2", one_row) ∷ []

abbrev second_run : List (Call Text × Table)
second_run = (write "d1", one_row) ∷ (write "d2", one_row) ∷ []

numbers :
    keys_for by_tool digest "r" false first_run new_keys
    ≡ "semantic:write:1" ∷ "semantic:write:2" ∷ []
unfolding keys_for idempotency_key_for occurrence_key semantic_prefix persisted_occurrences get put
numbers = refl

none_foreign : NoneForeign by_tool digest "r" false [] first_run
unfolding persisted_occurrences semantic_prefix
none_foreign = (refl, (refl, tt))

keys_for-resumed_example :
    keys_for by_tool digest "r" false first_run new_keys
    ≡ keys_for by_tool digest "r" true second_run new_keys
keys_for-resumed_example =
    keys_for-resumed by_tool digest "r" first_run second_run (refl, (refl, tt)) (refl, (refl, tt))
      none_foreign refl
