-- ===== src/Ledger.antt =====
-- engine/tool/ledger.py: the persistent idempotency ledger of side-effecting tool calls.
--
-- The SQLite table is a list of rows that every ledger object of every process shares. One `begin`
-- runs inside `BEGIN IMMEDIATE` and one `finish` is a single UPDATE, so each is one step. `redact`
-- stands for `_redact_secret_text`, a chain of regular expressions; the results hold for any.
use helve.Base.{
  ℕ, ◌+◌, ◌-◌, String, Bool, true, false, ◌&&◌, not, Option, none, some, List, [], ◌∷◌, ◌++◌, ◌==◌,
  leb, if◌then◌else◌, length, take, str_eq, Text, codes, decimal,
}
pub mod Rows
pub mod Trace
pub mod Replay
pub mod Keys
pub mod Repeat
mod Tests

pub data Status : Type 0 where
  running completed uncertain : Status

pub data SideEffectStatus : Type 0 where
  no_effect effect_completed effect_unknown : SideEffectStatus

-- The `metadata` that the ledger attaches: `replayed`, or the status and kind that it refused on.
pub data Metadata : Type 0 where
  empty : Metadata
  replayed : Metadata
  ledger_status : Status → Option String → Metadata

-- tool/interface.py
pub record ToolResult : Type 0 where
  pub call_id : String
  pub content : Text
  pub is_error : Bool
  pub error_kind : Option String
  pub retryable : Bool
  pub timed_out : Bool
  pub side_effect_status : SideEffectStatus
  pub metadata : Metadata

pub record ToolLedgerDecision : Type 0 where
  pub claimed : Bool
  pub result : Option ToolResult

pub record Row : Type 0 where
  pub run_id : String
  pub idempotency_key : String
  pub tool_name : String
  pub call_id : String
  pub status : Status
  pub content : Text
  pub is_error : Bool
  pub error_kind : Option String
  pub side_effect_status : SideEffectStatus
  pub created_at : String
  pub updated_at : String

abbrev pub Table : Type 0
Table = List Row

abbrev pub is_running : Status → Bool
is_running running = true
is_running _ = false

abbrev pub is_uncertain : Status → Bool
is_uncertain uncertain = true
is_uncertain _ = false

-- WHERE run_id=? AND idempotency_key=?
abbrev pub matches : String → String → Row → Bool
matches run_id key row = str_eq row.run_id run_id && str_eq row.idempotency_key key

-- SELECT ... WHERE ..., fetchone
unfoldable pub select : String → String → Table → Option Row
select run_id key [] = none
select run_id key (row ∷ rows) = if matches run_id key row then some row else select run_id key rows

-- UPDATE ... SET ... WHERE ...
unfoldable pub update : (Row → Bool) → (Row → Row) → Table → Table
update where_ set_ [] = []
update where_ set_ (row ∷ rows) = (if where_ row then set_ row else row) ∷ update where_ set_ rows

-- cursor.rowcount
unfoldable pub rowcount : (Row → Bool) → Table → ℕ
rowcount where_ [] = 0
rowcount where_ (row ∷ rows) = (if where_ row then 1 else 0) + rowcount where_ rows

module _ (redact : Text → Text) where
  abbrev pub limit : ℕ
  limit = 4096

  -- _ledger_redacted_content
  unfoldable pub ledger_redacted_content : Text → Text
  ledger_redacted_content content =
      let redacted = redact content in
      if leb (length redacted) limit
      then redacted
      else (take limit redacted
          ++ (codes "\n\n...("
              ++ (decimal (length redacted - limit)
                  ++ codes " chars truncated in the tool ledger)")))

-- WHERE run_id=? AND idempotency_key=? AND status='uncertain' AND call_id=?
abbrev pub reclaims : String → String → String → Row → Bool
reclaims run_id key owner row =
    matches run_id key row && (is_uncertain row.status && str_eq row.call_id owner)

-- WHERE run_id=? AND idempotency_key=? AND status='running' AND call_id=?
abbrev pub finishes : String → String → String → Row → Bool
finishes run_id key call_id row =
    matches run_id key row && (is_running row.status && str_eq row.call_id call_id)

abbrev pub fresh_row : String → String → String → String → String → Row
fresh_row run_id key tool_name call_id now = record {
  run_id = run_id;
  idempotency_key = key;
  tool_name = tool_name;
  call_id = call_id;
  status = running;
  content = [];
  is_error = false;
  error_kind = none;
  side_effect_status = effect_unknown;
  created_at = now;
  updated_at = now;
}

abbrev pub reclaim : String → String → Row → Row
reclaim call_id now row = record row {
  call_id = call_id;
  status = running;
  content = [];
  is_error = false;
  error_kind = none;
  side_effect_status = effect_unknown;
  updated_at = now;
}

abbrev pub claim : ToolLedgerDecision
claim = record { claimed = true; result = none }

-- The recorded result of a completed call.
abbrev pub replay : String → Row → ToolLedgerDecision
replay call_id row = record {
  claimed = false;
  result = some (record {
    call_id = call_id;
    content = row.content;
    is_error = row.is_error;
    error_kind = row.error_kind;
    retryable = false;
    timed_out = false;
    side_effect_status = effect_completed;
    metadata = replayed;
  });
}

abbrev pub refuse : String → String → Row → ToolLedgerDecision
refuse call_id tool_name row = record {
  claimed = false;
  result = some (record {
    call_id = call_id;
    content =
        codes "Side effect status is uncertain; refusing to execute the tool again: "
        ++ codes tool_name;
    is_error = true;
    error_kind = some "side_effect_uncertain";
    retryable = false;
    timed_out = false;
    side_effect_status = effect_unknown;
    metadata = ledger_status row.status row.error_kind;
  });
}

-- What follows the reclaim attempt: replay a completed call, refuse any other.
abbrev pub settle : String → String → Row → ToolLedgerDecision
settle call_id tool_name row = elim row.status [
  | completed ↦ replay call_id row
  | running ↦ refuse call_id tool_name row
  | uncertain ↦ refuse call_id tool_name row
]

-- One call's arguments: `call_id`, `tool_name`, `idempotency_key`, `idempotent` and the clock.
pub record Attempt : Type 0 where
  pub call_id : String
  pub tool_name : String
  pub idempotency_key : String
  pub idempotent : Bool
  pub now : String

abbrev pub begin_on : String → Attempt → Table → Option Row → Table × ToolLedgerDecision
begin_on run_id a table none =
    (table ++ fresh_row run_id a.idempotency_key a.tool_name a.call_id a.now ∷ [], claim)
begin_on run_id a table (some row) =
    if is_uncertain row.status && a.idempotent
    then (let hit = reclaims run_id a.idempotency_key row.call_id in
        let table' = update hit (reclaim a.call_id a.now) table in
        if rowcount hit table == 0
        then (table', settle a.call_id a.tool_name row)
        else (table', claim))
    else (table, settle a.call_id a.tool_name row)

unfoldable pub begin : String → Attempt → Table → Table × ToolLedgerDecision
unfolding select update rowcount
begin run_id a table = begin_on run_id a table (select run_id a.idempotency_key table)

module _ (redact : Text → Text) where
  abbrev pub settled : String → String → ToolResult → Row → Row
  settled call_id now r row = record row {
    call_id = call_id;
    status = if not r.is_error then completed else uncertain;
    content = ledger_redacted_content redact r.content;
    is_error = r.is_error;
    error_kind = r.error_kind;
    side_effect_status = if not r.is_error then effect_completed else effect_unknown;
    updated_at = now;
  }

  unfoldable pub finish : String → String → String → String → ToolResult → Table → Table
  unfolding update
  finish run_id call_id key now r = update (finishes run_id key call_id) (settled call_id now r)
