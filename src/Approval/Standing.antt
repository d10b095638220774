-- ===== src/Approval/Standing.antt =====
-- What becomes of a decision while runs, the consumer and the waits go on.
use helve.Base.{
  ℕ, String, ◌≡◌, ◌≢◌, refl, sym, ap, subst, Bool, true, false, ◌||◌, not, none, some, List, [],
  ◌∷◌, arith, ◌==◌, str_eq, eq_iff, get_elem?, modify, All, Bool-cases, Option-cases, inl, inr,
  get_elem?-modify, get_elem?-snoc, get_elem?-lt,
}
use helve.Base.Dict
use helve.Base.Dict.{Dict}
use helve.Approval.{
  ApprovalRequest, ApprovalBroker, PendingApproval, new_object, opened, open_request, wait_begin,
  wait_resume, resolve, cancel_one, cancel_each, cancel_run, decide_as,
}
use helve.Approval.World.{
  Wait, World, Event, opens, waits_on, resolves, cancels_run, resumes, times_out, is_cancelled,
  timed_out, cancelled, resume, abandon, with_wait, is_waiting, step, run_events,
}
use helve.Approval.Store.{resolved, resolve-none, resolve-some}

-- The event is no cancellation of the run.
abbrev pub Spares : String → Event → Type 0
Spares run_id (cancels_run other) = other ≢ run_id
Spares run_id _ = Unit {0}

-- The object was decided, and is of the run.
abbrev pub Decided : String → Bool → ℕ → ApprovalBroker → Type 0
Decided run_id answer ref b =
    (o : PendingApproval) × (get_elem? b.objects ref ≡ some o)
    × (o.is_set ≡ true)
    × (o.decision ≡ some answer)
    × (o.request.run_id ≡ run_id)

pub Decided-resumes :
    (run_id : String) (answer : Bool) (ref : ℕ) (b : ApprovalBroker) (r : ApprovalRequest)
    → Decided run_id answer ref b
    → wait_resume r ref b ≡ some (answer, helve.Approval.pop r.approval_id b)
unfolding wait_resume
Decided-resumes run_id true ref b r (o, at, set, says, own) = ground (arith, at, set, says)
Decided-resumes run_id false ref b r (o, at, set, says, own) = ground (arith, at, set, says)

pub resolve_missing :
    (run_id id : String) (a : Bool) (b : ApprovalBroker) (ref : ℕ)
    → Dict.get id b.pending ≡ some ref
    → get_elem? b.objects ref ≡ none
    → resolve run_id id a b ≡ (false, b)
unfolding resolve
resolve_missing run_id id a b ref h miss = rw (h, resolve) (rw miss)

waits_on-broker : (r : ApprovalRequest) (w : World) → (step (waits_on r) w).broker ≡ w.broker
unfolding step
waits_on-broker r w = elim (Option-cases (wait_begin r w.broker)) [
  | inl h ↦ ground (arith, h)
  | inr (ref, h) ↦ ground (arith, h)
]

resume-objects : (i : ℕ) (w : World) (x : Wait) → (resume i x w).broker.objects ≡ w.broker.objects
unfolding wait_resume
resume-objects i w x = elim (Option-cases (get_elem? w.broker.objects x.ref)) [
  | inl h ↦ ground (arith, h)
  | inr (o, h) ↦ elim (Bool-cases o.is_set) [
    | inl set ↦ ground (arith, h, set)
    | inr unset ↦ ground (arith, h, unset)
  ]
]

module _ (run_id : String) (answer : Bool) (ref : ℕ) where
  -- Another object is decided.
  modify-Decided :
      (b : ApprovalBroker) (i : ℕ) (d : Bool) (pending : Dict ℕ)
      → (i == ref) ≡ false
      → Decided run_id answer ref b
      → Decided run_id answer ref
          (record { objects = modify b.objects i (decide_as d); pending = pending })
  modify-Decided b i d pending other (o, at, set, says, own) =
      (o, ground (arith, at, other, get_elem?-modify b.objects i ref (decide_as d)), set, says, own)

  open_request-Decided :
      (r : ApprovalRequest) (w : World)
      → Decided run_id answer ref w.broker
      → Decided run_id answer ref (step (opens r) w).broker
  unfolding step open_request
  open_request-Decided r w (o, at, set, says, own) =
      elim (Option-cases (Dict.get r.approval_id w.broker.pending)) [
        | inr (i, h) ↦ (o, ground (arith, h, at), set, says, own)
        | inl h ↦ (
          o,
          ground (
            arith,
            h,
            at,
            get_elem?-snoc w.broker.objects (new_object r) ref,
            get_elem?-lt w.broker.objects ref at,
          ),
          set,
          says,
          own,
        )
      ]

  resolved-Decided :
      (run id : String) (a : Bool) (b : ApprovalBroker) (i : ℕ) (p : PendingApproval)
      → get_elem? b.objects i ≡ some p
      → Decided run_id answer ref b
      → Decided run_id answer ref (resolved run a i p b).1
  resolved-Decided run id a b i p found (o, at, set, says, own) =
      elim (Bool-cases (p.is_set || not (str_eq p.request.run_id run))) [
        | inl no_change ↦ (o, ground (arith, no_change, at), set, says, own)
        | inr open_still ↦ elim (Bool-cases (i == ref)) [
          | inl same ↦ absurd (ground (arith, same, found, at, set, open_still))
          | inr other ↦ (
            o,
            ground (arith, open_still, at, other, get_elem?-modify b.objects i ref (decide_as a)),
            set,
            says,
            own,
          )
        ]
      ]

  Decided-by :
      (b c : ApprovalBroker) → c ≡ b → Decided run_id answer ref b → Decided run_id answer ref c
  Decided-by b c e h = subst (Decided run_id answer ref) (sym e) h

  cancel_one-Decided :
      (run id : String) (i : ℕ) (b : ApprovalBroker)
      → run ≢ run_id
      → Decided run_id answer ref b
      → Decided run_id answer ref (cancel_one run id i b)
  cancel_one-Decided run id i b spared (o, at, set, says, own) =
      elim (Option-cases (get_elem? b.objects i)) [
        | inl h ↦ rw (h, cancel_one) (o, at, set, says, own)
        | inr (p, h) ↦
            rw (h, cancel_one)
              (elim (Bool-cases (str_eq p.request.run_id run)) [
                | inr e ↦ rw e (o, at, set, says, own)
                | inl e ↦ rw e (elim (Bool-cases (i == ref)) [
                  | inl same ↦
                      absurd (
                        spared
                          (ground (arith, same, h, at, own, (eq_iff p.request.run_id run).0 e)))
                  | inr other ↦ (
                    o,
                    ground (arith, at, other, get_elem?-modify b.objects i ref (decide_as false)),
                    set,
                    says,
                    own,
                  )
                ])
              ])
      ]

  cancel_each-Decided :
      (run : String) (items : Dict ℕ) (b : ApprovalBroker)
      → run ≢ run_id
      → Decided run_id answer ref b
      → Decided run_id answer ref (cancel_each run items b)
  cancel_each-Decided run [] b spared h = h
  cancel_each-Decided run ((id, i) ∷ items) b spared h =
      cancel_each-Decided run items (cancel_one run id i b) spared
        (cancel_one-Decided run id i b spared h)

  resolve-Decided :
      (run id : String) (a : Bool) (b : ApprovalBroker)
      → Decided run_id answer ref b
      → Decided run_id answer ref (resolve run id a b).1
  resolve-Decided run id a b h = elim (Option-cases (Dict.get id b.pending)) [
    | inl e ↦ Decided-by b _ (ap (λ r. r.1) (resolve-none run id a b e)) h
    | inr (i, e) ↦ elim (Option-cases (get_elem? b.objects i)) [
      | inl miss ↦ Decided-by b _ (ap (λ r. r.1) (resolve_missing run id a b i e miss)) h
      | inr (p, at) ↦
          Decided-by (resolved run a i p b).1 _ (ap (λ r. r.1) (resolve-some run id a b i p e at))
            (resolved-Decided run id a b i p at h)
    ]
  ]

  -- A frame that goes on leaves the objects as they are.
  with_wait-Decided :
      (i : ℕ) (f : Wait → World → World) (w : World)
      → ((x : Wait) → (f x w).broker.objects ≡ w.broker.objects)
      → Decided run_id answer ref w.broker
      → Decided run_id answer ref (with_wait i f w).broker
  with_wait-Decided i f w same (o, at, set, says, own) = elim (Option-cases (get_elem? w.waits i)) [
    | inl h ↦ (o, ground (arith, h, at), set, says, own)
    | inr (x, h) ↦ elim (Bool-cases (is_waiting x.outcome)) [
      | inl g ↦ (o, ground (arith, h, g, at, same x), set, says, own)
      | inr g ↦ (o, ground (arith, h, g, at), set, says, own)
    ]
  ]

  step-Decided :
      (e : Event) (w : World)
      → Spares run_id e
      → Decided run_id answer ref w.broker
      → Decided run_id answer ref (step e w).broker
  unfolding step cancel_run
  step-Decided (opens r) w spared h = open_request-Decided r w h
  step-Decided (waits_on r) w spared h = Decided-by w.broker _ (waits_on-broker r w) h
  step-Decided (resolves run id a) w spared h = resolve-Decided run id a w.broker h
  step-Decided (cancels_run run) w spared h =
      cancel_each-Decided run w.broker.pending w.broker spared h
  step-Decided (resumes i) w spared h = with_wait-Decided i (resume i) w (resume-objects i w) h
  step-Decided (times_out i) w spared h = with_wait-Decided i (abandon i timed_out) w (λ x. refl) h
  step-Decided (is_cancelled i) w spared h =
      with_wait-Decided i (abandon i cancelled) w (λ x. refl) h

  pub run_events-Decided :
      (events : List Event) (w : World)
      → All (Spares run_id) events
      → Decided run_id answer ref w.broker
      → Decided run_id answer ref (run_events events w).broker
  unfolding run_events
  run_events-Decided [] w spared h = h
  run_events-Decided (e ∷ events) w spared h =
      run_events-Decided events (step e w) spared.1 (step-Decided e w spared.0 h)
