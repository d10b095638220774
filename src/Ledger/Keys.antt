-- ===== src/Ledger/Keys.antt =====
-- engine/tool/ledger.py: idempotency_key_for, the key of one logical side effect.
--
-- `dumps` is json.dumps of the tool and its arguments with sorted keys, `sha256` the hexadecimal digest.
use helve.Base.{
  ℕ, suc, ◌+◌, ◌/◌, ◌%◌, max, String, Bool, ◌&&◌, Option, none, some, List, [], ◌∷◌, if◌then◌else◌,
  Text, codes, str_eq, starts_with, leb, ltb, ◌==◌, zero, map,
}
use Prim.Native.String.{◌++◌ as str_append}
use helve.Base.Dict.{Dict, get, put}
use helve.Ledger.{Table}

-- The two dicts of a ledger object.
pub record Keys : Type 0 where
  pub call_keys : Dict String
  pub semantic_occurrences : Dict ℕ

abbrev pub new_keys : Keys
new_keys = record { call_keys = []; semantic_occurrences = [] }

pub record Call {ℓ} (A : Type ℓ) : Type ℓ where
  pub call_id : String
  pub tool_name : String
  pub arguments : A

abbrev pub digit : ℕ → String
digit n =
    if n == 0
    then "0"
    else if n == 1
    then "1"
    else if n == 2
    then "2"
    else if n == 3
    then "3"
    else if n == 4
    then "4"
    else if n == 5
    then "5"
    else if n == 6
    then "6"
    else if n == 7
    then "7"
    else if n == 8
    then "8"
    else "9"

-- The digits of a number before `rest`, on a round for each.
digits_before : ℕ → ℕ → String → String
digits_before zero n rest = rest
digits_before (suc f) n rest =
    let here = str_append (digit (n % 10)) rest in
    let more = digits_before f (n / 10) here in if ltb n 10 then here else more

unfoldable pub semantic_prefix : String → String
semantic_prefix semantic = str_append "semantic:" (str_append semantic ":")

unfoldable pub occurrence_key : String → ℕ → String
unfolding digits_before
occurrence_key semantic occurrence =
    str_append (semantic_prefix semantic) (digits_before (suc occurrence) occurrence "")

-- `key LIKE prefix || '%'`, which does not tell upper from lower case in ASCII; a digest has no wildcard.
abbrev pub lowered : Text → Text
lowered text = map (λ (c : ℕ). if leb 65 c && leb c 90 then c + 32 else c) text

abbrev pub is_like : String → String → Bool
is_like prefix key = starts_with (lowered (codes prefix)) (lowered (codes key))

-- _persisted_occurrences
unfoldable pub persisted_occurrences : String → String → Table → ℕ
persisted_occurrences run_id semantic [] = 0
persisted_occurrences run_id semantic (row ∷ rows) =
    (if str_eq row.run_id run_id && is_like (semantic_prefix semantic) row.idempotency_key
      then 1
      else 0)
    + persisted_occurrences run_id semantic rows

abbrev pub or_zero : Option ℕ → ℕ
or_zero none = 0
or_zero (some n) = n

module _ {ℓ} {A : Type ℓ} (dumps : String → A → String) (sha256 : String → String) where
  -- _semantic_key
  abbrev pub semantic_key : Call A → String
  semantic_key call = sha256 (dumps call.tool_name call.arguments)

  module _ (run_id : String) (replay_existing : Bool) where
    abbrev pub prior : String → Table → Keys → ℕ
    prior semantic table keys =
        let own = or_zero (get semantic keys.semantic_occurrences) in
        if replay_existing then own else max own (persisted_occurrences run_id semantic table)

    abbrev pub new_key : Call A → Table → Keys → String × Keys
    new_key call table keys =
        let semantic = semantic_key call in
        let occurrence = suc (prior semantic table keys) in
        let key = occurrence_key semantic occurrence in
        (
          key,
          record {
            call_keys = put call.call_id key keys.call_keys;
            semantic_occurrences = put semantic occurrence keys.semantic_occurrences;
          },
        )

    abbrev pub known_or_new : Option String → Call A → Table → Keys → String × Keys
    known_or_new none call table keys = new_key call table keys
    known_or_new (some key) call table keys = (key, keys)

    -- idempotency_key_for
    unfoldable pub idempotency_key_for : Call A → Table → Keys → String × Keys
    idempotency_key_for call table keys =
        known_or_new (get call.call_id keys.call_keys) call table keys

    -- The keys of some calls, each with the table that it finds.
    unfoldable pub keys_for : List (Call A × Table) → Keys → List String
    keys_for [] keys = []
    keys_for ((call, table) ∷ history) keys =
        let (key, after) = idempotency_key_for call table keys in key ∷ keys_for history after
