-- ===== src/Ledger/Rows.antt =====
-- What `begin` and `finish` of engine/tool/ledger.py do to the row of one run and one key.
use helve.Base.{
  String, ◌≡◌, refl, Bool, true, false, ◌&&◌, Option, none, some, [], ◌∷◌, ◌++◌, arith, ◌==◌,
  if◌then◌else◌, str_eq, eq_iff, eq_refl, Text, Option-cases, inl, inr,
}
use mathlib.Core.Option
use helve.Ledger.{
  Row, Table, Attempt, ToolLedgerDecision, ToolResult, is_running, is_uncertain, matches, select,
  update, rowcount, reclaims, finishes, fresh_row, reclaim, claim, settle, settled, begin, finish,
}

-- The row of a key after `begin`, and its answer, from the row before.
abbrev pub row_after : String → Attempt → Option Row → Row
row_after run_id a none = fresh_row run_id a.idempotency_key a.tool_name a.call_id a.now
row_after run_id a (some row) =
    if is_uncertain row.status && a.idempotent then reclaim a.call_id a.now row else row

abbrev pub answer : Attempt → Option Row → ToolLedgerDecision
answer a none = claim
answer a (some row) =
    if is_uncertain row.status && a.idempotent then claim else settle a.call_id a.tool_name row

module _ (run_id key : String) where
  pub select-append :
      (t : Table) (row : Row)
      → select run_id key (t ++ row ∷ []) ≡ elim (select run_id key t) [
        | none ↦ if matches run_id key row then some row else none
        | some r ↦ some r
      ]
  unfolding select
  select-append [] row = refl
  select-append (x ∷ t) row = ground (arith, select-append t row)

  pub select-update :
      (hit : Row → Bool) (change : Row → Row)
      → ((row : Row) → matches run_id key (change row) ≡ matches run_id key row)
      → (t : Table)
      → select run_id key (update hit change t)
        ≡ Option.map (λ row. if hit row then change row else row) (select run_id key t)
  unfolding select update
  select-update hit change keeps [] = refl
  select-update hit change keeps (x ∷ t) = ground (arith, keeps x, select-update hit change keeps t)

  pub select-matches :
      (t : Table) (row : Row) → select run_id key t ≡ some row → matches run_id key row ≡ true
  unfolding select
  select-matches [] row e = cc
  select-matches (x ∷ t) row e = ground (arith, select-matches t row)

  -- A row that is found and that the update is meant for is counted.
  pub rowcount-pos :
      (hit : Row → Bool) (t : Table) (row : Row)
      → select run_id key t ≡ some row
      → hit row ≡ true
      → (rowcount hit t == 0) ≡ false
  unfolding select rowcount
  rowcount-pos hit [] row e h = cc
  rowcount-pos hit (x ∷ t) row e h = ground (arith, rowcount-pos hit t row)

matches_same :
    (r k : String) (row : Row)
    → matches r k row ≡ true
    → (row.run_id ≡ r) × (row.idempotency_key ≡ k)
matches_same r k row h = ground (arith, eq_iff row.run_id r, eq_iff row.idempotency_key k)

abbrev pub same_key : String → String → String → String → Bool
same_key run_id key r k = str_eq run_id r && str_eq key k

other_key :
    (run_id key r k : String) (row : Row)
    → same_key run_id key r k ≡ false
    → matches r k row ≡ true
    → matches run_id key row ≡ false
other_key run_id key r k row h m = ground (
  arith,
  matches_same r k row m,
  eq_iff run_id r,
  eq_iff key k,
  eq_iff row.run_id run_id,
  eq_iff row.idempotency_key key,
)

-- An update of one key's rows leaves what any other key finds.
select-update_other :
    (run_id key r k : String) (extra : Row → Bool) (change : Row → Row)
    → ((row : Row) → matches r k (change row) ≡ matches r k row)
    → same_key run_id key r k ≡ false
    → (t : Table)
    → select r k (update (λ row. matches run_id key row && extra row) change t) ≡ select r k t
unfolding select update
select-update_other run_id key r k extra change keeps h [] = refl
select-update_other run_id key r k extra change keeps h (x ∷ t) = ground (
  arith,
  keeps x,
  other_key run_id key r k x h,
  select-update_other run_id key r k extra change keeps h t,
)

module _ (run_id : String) (a : Attempt) (t : Table) where
  -- The answer of `begin` depends only on the row of its own key.
  pub begin-answer : (begin run_id a t).1 ≡ answer a (select run_id a.idempotency_key t)
  unfolding begin
  begin-answer = elim (Option-cases (select run_id a.idempotency_key t)) [
    | inl e ↦ rw e
    | inr (row, e) ↦ rw e (
        ground (
          arith,
          eq_refl row.call_id,
          select-matches run_id a.idempotency_key t row e,
          rowcount-pos run_id a.idempotency_key (reclaims run_id a.idempotency_key row.call_id) t
              row e,
        ))
  ]

  pub begin-select_self :
      select run_id a.idempotency_key (begin run_id a t).0
      ≡ some (row_after run_id a (select run_id a.idempotency_key t))
  unfolding begin
  begin-select_self = elim (Option-cases (select run_id a.idempotency_key t)) [
    | inl e ↦ rw e (
        ground (
          arith,
          e,
          select-append run_id a.idempotency_key t
              (fresh_row run_id a.idempotency_key a.tool_name a.call_id a.now),
          eq_refl run_id,
          eq_refl a.idempotency_key,
        ))
    | inr (row, e) ↦ rw e (
        ground (
          arith,
          e,
          eq_refl row.call_id,
          select-matches run_id a.idempotency_key t row e,
          select-update run_id a.idempotency_key (reclaims run_id a.idempotency_key row.call_id)
              (reclaim a.call_id a.now) (λ _. refl) t,
        ))
  ]

  pub begin-select_other :
      (r k : String)
      → same_key run_id a.idempotency_key r k ≡ false
      → select r k (begin run_id a t).0 ≡ select r k t
  unfolding begin
  begin-select_other r k h = elim (Option-cases (select run_id a.idempotency_key t)) [
    | inl e ↦ rw e (
        ground (
          arith,
          select-append r k t (fresh_row run_id a.idempotency_key a.tool_name a.call_id a.now),
        ))
    | inr (row, e) ↦ rw e (
        ground (
          arith,
          select-update_other run_id a.idempotency_key r k
              (λ x. is_uncertain x.status && str_eq x.call_id row.call_id) (reclaim a.call_id a.now)
              (λ _. refl) h t,
        ))
  ]

module _ (redact : Text → Text) (run_id call_id key now : String) (res : ToolResult) where
  abbrev pub row_finished : Row → Row
  row_finished row =
      if is_running row.status && str_eq row.call_id call_id
      then settled redact call_id now res row
      else row

module _ (redact : Text → Text) (run_id call_id key now : String) (res : ToolResult)
    (t : Table) where
  -- `finish` settles the running row of its own key and call, and changes nothing else.
  pub finish-select_self :
      select run_id key (finish redact run_id call_id key now res t)
      ≡ Option.map (row_finished redact run_id call_id key now res) (select run_id key t)
  unfolding finish
  finish-select_self = elim (Option-cases (select run_id key t)) [
    | inl e ↦
        rw
          (
            e,
            select-update run_id key (finishes run_id key call_id) (settled redact call_id now res)
                (λ _. refl) t,
          )
          (ground (arith, e))
    | inr (row, e) ↦ ground (
      arith,
      e,
      select-matches run_id key t row e,
      select-update run_id key (finishes run_id key call_id) (settled redact call_id now res)
          (λ _. refl) t,
    )
  ]

  pub finish-select_other :
      (r k : String)
      → same_key run_id key r k ≡ false
      → select r k (finish redact run_id call_id key now res t) ≡ select r k t
  unfolding finish
  finish-select_other r k h =
      select-update_other run_id key r k (λ x. is_running x.status && str_eq x.call_id call_id)
        (settled redact call_id now res) (λ _. refl) h t
