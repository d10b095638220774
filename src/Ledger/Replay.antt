-- ===== src/Ledger/Replay.antt =====
-- What a caller gets once one execution of a side effect has been finished.
use helve.Base.{
  String, ◌≡◌, refl, true, false, Option, none, some, List, arith, if◌then◌else◌, eq_refl, Text, ap,
  ◌∙◌, sym,
}
use helve.Ledger.{
  Row, Table, Attempt, ToolLedgerDecision, ToolResult, running, select, claim, refuse, settled,
  begin, finish, ledger_redacted_content, effect_completed, replayed,
}
use helve.Ledger.Rows.{row_after, answer, begin-answer, begin-select_self, finish-select_self}
use helve.Ledger.Trace.{Op, run_ops, run_ops_keeps_completed}

-- A claim leaves a running row that the claiming call owns.
row_after_claim :
    (r : String) (a : Attempt) (o : Option Row)
    → (answer a o).claimed ≡ true
    → ((row_after r a o).status ≡ running) × ((row_after r a o).call_id ≡ a.call_id)
row_after_claim r a none h = (refl, refl)
row_after_claim r a (some row) h = ground arith

module _ (redact : Text → Text) (r now : String) (a : Attempt) (res : ToolResult) (t : Table)
    (claimed : (begin r a t).1.claimed ≡ true) where
  -- The table when the claiming call has finished with `res`.
  abbrev pub finished : Table
  finished = finish redact r a.call_id a.idempotency_key now res (begin r a t).0

  abbrev held : Row
  held = row_after r a (select r a.idempotency_key t)

  select-finished :
      select r a.idempotency_key finished ≡ some (settled redact a.call_id now res held)
  select-finished =
      let own =
        row_after_claim r a (select r a.idempotency_key t)
          (ap (λ (d : ToolLedgerDecision). d.claimed) (sym (begin-answer r a t)) ∙ claimed) in
      rw
        (
          finish-select_self redact r a.call_id a.idempotency_key now res (begin r a t).0,
          begin-select_self r a t,
        )
        (ground (arith, own, eq_refl a.call_id))

  -- Once the call that claimed a side effect has finished without error, every later attempt on
  -- the same run and key, after any other operations, gets the recorded result: the redacted
  -- content, marked as replayed, and no permission to execute.
  pub finish_replays :
      (ops : List Op) (b : Attempt)
      → res.is_error ≡ false
      → b.idempotency_key ≡ a.idempotency_key
      → (begin r b (run_ops redact ops finished)).1 ≡ record {
        claimed = false;
        result = some (record {
          call_id = b.call_id;
          content = ledger_redacted_content redact res.content;
          is_error = false;
          error_kind = res.error_kind;
          retryable = false;
          timed_out = false;
          side_effect_status = effect_completed;
          metadata = replayed;
        });
      }
  finish_replays ops b ok same =
      let kept =
        (run_ops_keeps_completed redact r a.idempotency_key ops finished _ select-finished
          (rw ok)).0 in
      rw (begin-answer r b (run_ops redact ops finished), same, kept) (ground arith)

  -- After a finish with an error, the next attempt on the key is granted exactly when its tool is
  -- declared idempotent; otherwise it is refused as uncertain.
  pub begin_after_error :
      (b : Attempt)
      → res.is_error ≡ true
      → b.idempotency_key ≡ a.idempotency_key
      → (begin r b finished).1 ≡ (
          if b.idempotent
          then claim
          else refuse b.call_id b.tool_name (settled redact a.call_id now res held))
  begin_after_error b bad same =
      rw (begin-answer r b finished, same, select-finished) (ground arith)
