-- ===== src/Ledger/Trace.antt =====
-- Any interleaving of `begin` and `finish` calls on the shared table, of any runs and processes.
use helve.Base.{
  ℕ, ◌+◌, ◌≤◌, String, ◌≡◌, ◌⊎◌, refl, true, false, ◌&&◌, Option, none, some, List, [], ◌∷◌, arith,
  if◌then◌else◌, str_eq, eq_iff, Text, Bool-cases, Option-cases, inl, inr, All, ap, ◌∙◌,
}
use mathlib.Core.Option
use helve.Ledger.{
  Row, Table, Attempt, ToolResult, running, completed, is_uncertain, select, reclaim, begin, finish,
}
use helve.Ledger.Rows.{
  row_after, answer, same_key, begin-answer, begin-select_self, begin-select_other, row_finished,
  finish-select_self, finish-select_other,
}

pub data Op : Type 0 where
  begins : String → Attempt → Op
  finishes : String → String → String → String → ToolResult → Op

module _ (redact : Text → Text) where
  unfoldable pub step : Op → Table → Table
  step (begins run_id a) t = (begin run_id a t).0
  step (finishes run_id call_id key now res) t = finish redact run_id call_id key now res t

  unfoldable pub run_ops : List Op → Table → Table
  unfolding step
  run_ops [] t = t
  run_ops (op ∷ ops) t = run_ops ops (step op t)

  -- Whether the operation lets a caller execute the side effect of run `r` under key `k`.
  unfoldable pub claims_now : String → String → Op → Table → ℕ
  claims_now r k (begins run_id a) t =
      if same_key run_id a.idempotency_key r k && (begin run_id a t).1.claimed then 1 else 0
  claims_now r k (finishes run_id call_id key now res) t = 0

  -- How often a history executes that side effect.
  unfoldable pub claims : String → String → List Op → Table → ℕ
  unfolding claims_now step
  claims r k [] t = 0
  claims r k (op ∷ ops) t = claims_now r k op t + claims r k ops (step op t)

  -- No `begin` of this run and key declares its tool idempotent.
  abbrev pub OnceOnly : String → String → Op → Type 0
  OnceOnly r k (begins run_id a) =
      same_key run_id a.idempotency_key r k ≡ true → a.idempotent ≡ false
  OnceOnly r k (finishes run_id call_id key now res) = Unit {0}

  -- The operation is no `finish` by the owning call of this run and key.
  abbrev pub NotFinishOf : String → String → String → Op → Type 0
  NotFinishOf r k owner (begins run_id a) = Unit {0}
  NotFinishOf r k owner (finishes run_id call_id key now res) =
      same_key run_id key r k && str_eq owner call_id ≡ false

  same_key_eq :
      (run_id key r k : String) → same_key run_id key r k ≡ true → (run_id ≡ r) × (key ≡ k)
  same_key_eq run_id key r k h = ground (arith, eq_iff run_id r, eq_iff key k)

  -- The row of a key after one operation, from that row alone.
  abbrev pub row_step : String → String → Op → Option Row → Option Row
  row_step r k (begins run_id a) o =
      if same_key run_id a.idempotency_key r k then some (row_after run_id a o) else o
  row_step r k (finishes run_id call_id key now res) o =
      if same_key run_id key r k
      then Option.map (row_finished redact run_id call_id key now res) o
      else o

  abbrev pub answer_claims : String → String → Op → Option Row → ℕ
  answer_claims r k (begins run_id a) o =
      if same_key run_id a.idempotency_key r k && (answer a o).claimed then 1 else 0
  answer_claims r k (finishes run_id call_id key now res) o = 0

  pub step-select :
      (r k : String) (op : Op) (t : Table) → select r k (step op t) ≡ row_step r k op (select r k t)
  unfolding step
  step-select r k (begins run_id a) t = elim (Bool-cases (same_key run_id a.idempotency_key r k)) [
    | inl e ↦
        let (p, q) = same_key_eq run_id a.idempotency_key r k e in
        rw e (rw (← p, ← q) (begin-select_self run_id a t))
    | inr e ↦ rw e (begin-select_other run_id a t r k e)
  ]
  step-select r k (finishes run_id call_id key now res) t =
      elim (Bool-cases (same_key run_id key r k)) [
        | inl e ↦
            let (p, q) = same_key_eq run_id key r k e in
            rw e (rw (← p, ← q) (finish-select_self redact run_id call_id key now res t))
        | inr e ↦ rw e (finish-select_other redact run_id call_id key now res t r k e)
      ]

  pub claims_now-answer_claims :
      (r k : String) (op : Op) (t : Table)
      → claims_now r k op t ≡ answer_claims r k op (select r k t)
  unfolding claims_now
  claims_now-answer_claims r k (begins run_id a) t =
      elim (Bool-cases (same_key run_id a.idempotency_key r k)) [
        | inl e ↦
            let (p, q) = same_key_eq run_id a.idempotency_key r k e in
            rw e (rw (← p, ← q, begin-answer run_id a t))
        | inr e ↦ rw e
      ]
  claims_now-answer_claims r k (finishes run_id call_id key now res) t = refl

  -- A completed row stays as it is.
  row_step_completed :
      (r k : String) (op : Op) (row : Row)
      → row.status ≡ completed
      → row_step r k op (some row) ≡ some row
  row_step_completed r k (begins run_id a) row h = ground arith
  row_step_completed r k (finishes run_id call_id key now res) row h = ground arith

  answer_claims_completed :
      (r k : String) (op : Op) (row : Row)
      → row.status ≡ completed
      → answer_claims r k op (some row) ≡ 0
  answer_claims_completed r k (begins run_id a) row h = ground arith
  answer_claims_completed r k (finishes run_id call_id key now res) row h = refl

  pub run_ops_keeps_completed :
      (r k : String) (ops : List Op) (t : Table) (row : Row)
      → select r k t ≡ some row
      → row.status ≡ completed
      → (select r k (run_ops ops t) ≡ some row) × (claims r k ops t ≡ 0)
  unfolding run_ops claims
  run_ops_keeps_completed r k [] t row e h = (e, refl)
  run_ops_keeps_completed r k (op ∷ ops) t row e h =
      let e' = step-select r k op t ∙ ap (row_step r k op) e ∙ row_step_completed r k op row h in
      let rest = run_ops_keeps_completed r k ops (step op t) row e' h in
      (
        rest.0,
        omega (
          arith,
          rest.1,
          claims_now-answer_claims r k op t,
          ap (answer_claims r k op) e,
          answer_claims_completed r k op row h,
        ),
      )

  -- A row that has not been executed twice: present, and no `begin` declares its tool idempotent.
  row_step_once :
      (r k : String) (op : Op) (row : Row)
      → OnceOnly r k op
      → ((row' : Row) × (row_step r k op (some row) ≡ some row'))
        × (answer_claims r k op (some row) ≡ 0)
  row_step_once r k (begins run_id a) row h =
      elim (Bool-cases (same_key run_id a.idempotency_key r k)) [
        | inl e ↦
            rw (e, h e)
              (
                (
                  if is_uncertain row.status && false then reclaim a.call_id a.now row else row,
                  refl,
                ),
                ground arith,
              )
        | inr e ↦ rw e ((row, refl), refl)
      ]
  row_step_once r k (finishes run_id call_id key now res) row h =
      elim (Bool-cases (same_key run_id key r k)) [
        | inl e ↦ rw e ((row_finished redact run_id call_id key now res row, refl), refl)
        | inr e ↦ rw e ((row, refl), refl)
      ]

  claims_present :
      (r k : String) (ops : List Op) (t : Table) (row : Row)
      → All (OnceOnly r k) ops
      → select r k t ≡ some row
      → claims r k ops t ≡ 0
  unfolding claims
  claims_present r k [] t row h e = refl
  claims_present r k (op ∷ ops) t row h e =
      let (next, free) = row_step_once r k op row h.0 in
      let e' = step-select r k op t ∙ ap (row_step r k op) e ∙ next.1 in
      omega (
        arith,
        claims_present r k ops (step op t) next.0 h.1 e',
        claims_now-answer_claims r k op t,
        ap (answer_claims r k op) e,
        free,
      )

  -- A running row that its owner does not finish keeps every other call out.
  row_step_running :
      (r k : String) (op : Op) (row : Row)
      → row.status ≡ running
      → NotFinishOf r k row.call_id op
      → (row_step r k op (some row) ≡ some row) × (answer_claims r k op (some row) ≡ 0)
  row_step_running r k (begins run_id a) row h n = ground arith
  row_step_running r k (finishes run_id call_id key now res) row h n = ground arith

  pub claims_while_running :
      (r k : String) (ops : List Op) (t : Table) (row : Row)
      → select r k t ≡ some row
      → row.status ≡ running
      → All (NotFinishOf r k row.call_id) ops
      → (claims r k ops t ≡ 0) × (select r k (run_ops ops t) ≡ some row)
  unfolding claims run_ops
  claims_while_running r k [] t row e h n = (refl, e)
  claims_while_running r k (op ∷ ops) t row e h n =
      let (same, free) = row_step_running r k op row h n.0 in
      let e' = step-select r k op t ∙ ap (row_step r k op) e ∙ same in
      let rest = claims_while_running r k ops (step op t) row e' h n.1 in
      (
        omega (arith, rest.0, claims_now-answer_claims r k op t, ap (answer_claims r k op) e, free),
        rest.1,
      )

  answer_claims-none : (r k : String) (op : Op) → answer_claims r k op none ≤ 1
  answer_claims-none r k (begins run_id a) = ground arith
  answer_claims-none r k (finishes run_id call_id key now res) = omega arith

  row_step-none :
      (r k : String) (op : Op)
      → (row_step r k op none ≡ none × answer_claims r k op none ≡ 0)
        ⊎ ((row : Row) × (row_step r k op none ≡ some row))
  row_step-none r k (begins run_id a) = elim (Bool-cases (same_key run_id a.idempotency_key r k)) [
    | inl e ↦ inr (row_after run_id a none, rw e)
    | inr e ↦ inl (rw e, rw e)
  ]
  row_step-none r k (finishes run_id call_id key now res) = inl (ground arith, refl)

  -- Whatever the interleaving, a side effect whose tool is never declared idempotent is executed
  -- at most once in its run, retries, failures and other runs' calls included.
  pub claims-le-one :
      (r k : String) (ops : List Op) (t : Table) → All (OnceOnly r k) ops → claims r k ops t ≤ 1
  unfolding claims
  claims-le-one r k [] t h = omega arith
  claims-le-one r k (op ∷ ops) t h = elim (Option-cases (select r k t)) [
    | inr (row, e) ↦ unfold claims in omega (arith, claims_present r k (op ∷ ops) t row h e)
    | inl e ↦ elim (row_step-none r k op) [
      | inl (same, free) ↦ omega (
        arith,
        claims-le-one r k ops (step op t) h.1,
        claims_now-answer_claims r k op t,
        ap (answer_claims r k op) e,
        free,
      )
      | inr (row, new) ↦ omega (
        arith,
        answer_claims-none r k op,
        claims_present r k ops (step op t) row h.1
            (step-select r k op t ∙ ap (row_step r k op) e ∙ new),
        claims_now-answer_claims r k op t,
        ap (answer_claims r k op) e,
      )
    ]
  ]
