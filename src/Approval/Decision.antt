-- ===== src/Approval/Decision.antt =====
-- What `resolve` decides, and that it decides once.
use helve.Base.{
  subst, List, All, ℕ, String, ◌≡◌, refl, Bool, true, false, some, arith, get_elem?, modify,
  Option-cases, Bool-cases, inl, inr, get_elem?-modify, str_eq, eq_iff, sym, ◌∙◌,
}
use helve.Base.Dict
use helve.Approval.{
  ApprovalRequest, ApprovalBroker, PendingApproval, pop, wait_resume, resolve, is_pending,
  decide_as,
}
use helve.Approval.World.{World, Event, run_events}
use helve.Approval.Standing.{Spares, Decided-resumes, run_events-Decided, resolve_missing}
use helve.Approval.Store.{resolved, resolve-none, resolve-some}

-- An answered approval of a run: `b` is the broker when it is answered, `later` some events after.
pub record Answered (owner id : String) (answer : Bool) (b later : ApprovalBroker) : Type 0 where
  pub ref : ℕ
  pub object : PendingApproval
  pub entry : Dict.get id b.pending ≡ some ref
  pub found : get_elem? b.objects ref ≡ some object
  -- The run asked for it.
  pub asked : object.request.run_id ≡ owner
  -- A frame that waits on it returns the answer, and takes the entry out.
  pub resumes :
      (r : ApprovalRequest) → wait_resume r ref later ≡ some (answer, pop r.approval_id later)
  -- A second answer, from any run, is refused and changes nothing.
  pub final : (run_id : String) (a : Bool) → resolve run_id id a b ≡ (false, b)
  -- The consumer no longer sees it as pending.
  pub gone : (run_id : String) → is_pending run_id id b ≡ false

module _ (run_id id : String) (a : Bool) (b : ApprovalBroker) where
  resolved_own :
      (ref : ℕ) (o : PendingApproval) (c : ApprovalBroker)
      → resolved run_id a ref o b ≡ (true, c)
      → (o.request.run_id ≡ run_id)
        × (c ≡ record b { objects = modify b.objects ref (decide_as a) })
  resolved_own ref o c e = elim (Bool-cases o.is_set) [
    | inl set ↦ absurd (ground (arith, set, e))
    | inr open_still ↦ elim (Bool-cases (str_eq o.request.run_id run_id)) [
      | inl own ↦ ((eq_iff o.request.run_id run_id).0 own, ground (arith, open_still, own, e))
      | inr other ↦ absurd (ground (arith, open_still, other, e))
    ]
  ]

  Answered-at :
      (ref : ℕ) (o : PendingApproval) (events : List Event) (w : World)
      → Dict.get id b.pending ≡ some ref
      → get_elem? b.objects ref ≡ some o
      → o.request.run_id ≡ run_id
      → All (Spares run_id) events
      → let c = record b { objects = modify b.objects ref (decide_as a) } in
        Answered run_id id a c (run_events events (record w { broker = c })).broker
  Answered-at ref o events w h at own spared =
      let c = record b { objects = modify b.objects ref (decide_as a) } in
      let now : get_elem? (modify b.objects ref (decide_as a)) ref ≡ some (decide_as a o) =
        ground (arith, at, get_elem?-modify b.objects ref ref (decide_as a)) in
      record {
        ref = ref;
        object = decide_as a o;
        entry = h;
        found = now;
        asked = own;
        resumes = λ r.
            Decided-resumes run_id a ref (run_events events (record w { broker = c })).broker r (
              run_events-Decided run_id a ref events (record w { broker = c }) spared
                (decide_as a o, now, refl, refl, own));
        final = λ run a'. rw (resolve-some run id a' _ ref (decide_as a o) h now) refl;
        gone = λ run. unfold is_pending in rw (h, is_pending) (rw now refl);
      }

  -- A `resolve` that returns True was given the run that asked for the approval. From then on, through any events that
  -- do not cancel the run, a frame that waits on the approval and resumes returns exactly that decision. In
  -- the state that `resolve` leaves, any further answer is refused, and the approval is not seen as pending.
  pub resolve-Answered :
      (c : ApprovalBroker) (events : List Event) (w : World)
      → resolve run_id id a b ≡ (true, c)
      → All (Spares run_id) events
      → Answered run_id id a c (run_events events (record w { broker = c })).broker
  resolve-Answered c events w e spared = elim (Option-cases (Dict.get id b.pending)) [
    | inl h ↦ absurd (ground (arith, e, resolve-none run_id id a b h))
    | inr (ref, h) ↦ elim (Option-cases (get_elem? b.objects ref)) [
      | inl miss ↦ absurd (ground (arith, e, resolve_missing run_id id a b ref h miss))
      | inr (o, at) ↦
          let (own, same) =
            resolved_own ref o c (sym (resolve-some run_id id a b ref o h at) ∙ e) in
          subst
            (λ (x : ApprovalBroker).
              Answered run_id id a x (run_events events (record w { broker = x })).broker)
            (sym same) (Answered-at ref o events w h at own spared)
    ]
  ]
