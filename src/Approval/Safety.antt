-- ===== src/Approval/Safety.antt =====
-- A wait that says yes had its yes: the invariant of the broker among its callers.
use helve.Base.{
  subst, ℕ, ◌==◌, String, ◌≡◌, ◌⊎◌, Bool, true, ◌&&◌, Option, none, some, List, [], ◌∷◌, arith, any,
  str_eq, eq_iff, get_elem?, length, Bool-cases, Option-cases, inl, inr, get_elem?-modify,
  get_elem?-snoc,
}
use mathlib.Core.Path.{subst₂}
use helve.Base.Dict
use helve.Approval.{
  ApprovalRequest, ApprovalBroker, PendingApproval, new_object, pop, open_request, opened,
  wait_begin, wait_resume, is_true,
}
use helve.Approval.World.{
  Wait, World, Event, Outcome, opens, waits_on, resolves, cancels_run, resumes, times_out,
  is_cancelled, waiting, returned, timed_out, cancelled, is_waiting, empty, end_wait, resume,
  abandon, with_wait, step, run_events, was_granted,
}
use helve.Approval.Store.{
  Keyed, Backed, Keeps, SameRequest, opened-Keyed, opened-Backed, snoc-Extends, resolve-Keeps,
  granted_by, cancel_run-Keeps, pop-Keeps,
}

-- A frame holds an object of its own request.
abbrev Holds : ApprovalBroker → Wait → Type 0
Holds b x =
    (o : PendingApproval) × (get_elem? b.objects x.ref ≡ some o) × SameRequest o.request x.request

-- A frame that returned True was granted it.
abbrev Told : List (String × String) → Wait → Type 0
Told g x = x.outcome ≡ returned true → was_granted x.request g ≡ true

record Inv (w : World) : Type 0 where
  keyed : Keyed w.broker
  backed : Backed w.broker w.granted
  held : (i : ℕ) (x : Wait) → get_elem? w.waits i ≡ some x → Holds w.broker x
  told : (i : ℕ) (x : Wait) → get_elem? w.waits i ≡ some x → Told w.granted x

-- A change of the broker that keeps its objects, with perhaps one more approval on record.
broker-Inv :
    (w : World) (c : ApprovalBroker) (g : List (String × String))
    → Inv w
    → Keeps w.broker c g
    → ((r : ApprovalRequest) → was_granted r w.granted ≡ true → was_granted r g ≡ true)
    → Inv (record w { broker = c; granted = g })
broker-Inv w c g v k mono = record {
  keyed = k.keyed;
  backed = k.backed;
  held = λ i x e.
      let (o, at, same) = v.held i x e in
      let (p, at', q) = k.extends x.ref o at in (p, at', ground arith);
  told = λ i x e t. mono x.request (v.told i x e t);
}

open_request_free :
    (r : ApprovalRequest) (b : ApprovalBroker)
    → Dict.get r.approval_id b.pending ≡ none
    → open_request r b ≡ some (opened r b)
unfolding open_request
open_request_free r b h = rw (h, open_request)

open_request_taken :
    (r : ApprovalRequest) (b : ApprovalBroker) (ref : ℕ)
    → Dict.get r.approval_id b.pending ≡ some ref
    → open_request r b ≡ none
unfolding open_request
open_request_taken r b ref h = rw (h, open_request)

opens-Inv : (r : ApprovalRequest) (w : World) → Inv w → Inv (step (opens r) w)
unfolding step
opens-Inv r w v = elim (Option-cases (Dict.get r.approval_id w.broker.pending)) [
  | inr (ref, h) ↦ rw (open_request_taken r w.broker ref h, step) v
  | inl h ↦
      rw (open_request_free r w.broker h, step)
        (broker-Inv w (opened r w.broker) w.granted v
          (record {
            extends = snoc-Extends w.broker (new_object r) (opened r w.broker).pending;
            keyed = opened-Keyed r w.broker v.keyed;
            backed = opened-Backed r w.broker w.granted v.backed;
          })
          (λ _ x. x))
]

-- A wait that starts holds an object of its own request.
wait_begin-Holds :
    (r : ApprovalRequest) (b : ApprovalBroker) (ref : ℕ)
    → Keyed b
    → wait_begin r b ≡ some ref
    → Holds b (record { request = r; ref = ref; outcome = waiting })
unfolding wait_begin
wait_begin-Holds r b ref kb e = elim (Option-cases (Dict.get r.approval_id b.pending)) [
  | inl h ↦ absurd (ground (arith, e, h))
  | inr (i, h) ↦
      let (o, at, same) = kb r.approval_id i h in
      (
        o,
        ground (arith, e, h, at),
        (ground (arith, e, h, at, eq_iff o.request.run_id r.run_id), same),
      )
]

waits_on-Inv : (r : ApprovalRequest) (w : World) → Inv w → Inv (step (waits_on r) w)
unfolding step
waits_on-Inv r w v = elim (Option-cases (wait_begin r w.broker)) [
  | inl h ↦ rw (h, step) v
  | inr (ref, h) ↦
      let new : Wait = record { request = r; ref = ref; outcome = waiting } in
      rw (h, step)
        (record {
          keyed = v.keyed;
          backed = v.backed;
          held = λ i x e. elim (Bool-cases (length w.waits == i)) [
            | inl last ↦
                subst (Holds w.broker) {x = new} {y = x}
                  (ground (arith, e, last, get_elem?-snoc w.waits new i))
                  (wait_begin-Holds r w.broker ref v.keyed h)
            | inr old ↦ v.held i x (ground (arith, e, old, get_elem?-snoc w.waits new i))
          ];
          told = λ i x e t. ground (arith, e, t, get_elem?-snoc w.waits new i, v.told i x);
        })
]

resolves-Inv :
    (run_id id : String) (a : Bool) (w : World) → Inv w → Inv (step (resolves run_id id a) w)
unfolding step
resolves-Inv run_id id a w v =
    broker-Inv w _ (granted_by run_id id a w.broker w.granted v.keyed v.backed) v
      (resolve-Keeps run_id id a w.broker w.granted v.keyed v.backed) (λ r x. ground (arith, x))

cancels_run-Inv : (run_id : String) (w : World) → Inv w → Inv (step (cancels_run run_id) w)
unfolding step
cancels_run-Inv run_id w v =
    broker-Inv w _ w.granted v (cancel_run-Keeps run_id w.broker w.granted v.keyed v.backed)
      (λ _ x. x)

-- What became of a frame when some frame's outcome was written.
end_wait_get :
    (i : ℕ) (o : Outcome) (w : World) (j : ℕ) (y : Wait)
    → get_elem? (end_wait i o w).waits j ≡ some y
    → (z : Wait) × (get_elem? w.waits j ≡ some z)
      × (y.ref ≡ z.ref)
      × (y.request ≡ z.request)
      × (((i ≡ j) × (y.outcome ≡ o)) ⊎ (y.outcome ≡ z.outcome))
end_wait_get i o w j y e = elim (Option-cases (get_elem? w.waits j)) [
  | inl h ↦
      absurd (
        ground (arith, h, e, get_elem?-modify w.waits i j (λ (z : Wait). record z { outcome = o })))
  | inr (z, h) ↦
      let law = get_elem?-modify w.waits i j (λ (z : Wait). record z { outcome = o }) in
      (z, h, ground (arith, h, e, law), ground (arith, h, e, law), ground (arith, h, e, law))
]

-- A waiting frame goes on, with a `True` only if it was granted.
end_wait-Inv :
    (i : ℕ) (o : Outcome) (x : Wait) (w : World)
    → Inv w
    → get_elem? w.waits i ≡ some x
    → (o ≡ returned true → was_granted x.request w.granted ≡ true)
    → Inv (end_wait i o (record w { broker = pop x.request.approval_id w.broker }))
end_wait-Inv i o x w v at ok =
    let k = pop-Keeps x.request.approval_id w.broker w.granted v.keyed v.backed in
    record {
      keyed = k.keyed;
      backed = k.backed;
      held = λ j y e.
          let (z, h, r, q, _) = end_wait_get i o w j y e in
          let (p, pt, same) = v.held j z h in (p, ground arith, (ground arith, ground arith));
      told = λ j y e t.
          let (z, h, r, q, c) = end_wait_get i o w j y e in
          ground (arith, c, ok, v.told j z h, at, h);
    }

wait_resume_inv :
    (r : ApprovalRequest) (ref : ℕ) (b : ApprovalBroker) (o : PendingApproval) {d : Bool}
    {c : ApprovalBroker}
    → get_elem? b.objects ref ≡ some o
    → wait_resume r ref b ≡ some (d, c)
    → (d ≡ is_true o.decision) × (c ≡ pop r.approval_id b)
unfolding wait_resume
wait_resume_inv r ref b o h e = ground (arith, h, e)

is_true-eq : (d : Option Bool) → is_true d ≡ true → d ≡ some true
is_true-eq d h = ground arith

granted_decision :
    (w : World) (x : Wait) (o : PendingApproval)
    → Inv w
    → get_elem? w.broker.objects x.ref ≡ some o
    → SameRequest o.request x.request
    → o.decision ≡ some true
    → was_granted x.request w.granted ≡ true
granted_decision w x o v got same d =
    subst₂ (λ a b. any (λ (g : String × String). str_eq g.0 a && str_eq g.1 b) w.granted ≡ true)
      same.0 same.1 (v.backed x.ref o got d)

with_wait-Inv :
    (i : ℕ) (f : Wait → World → World) (w : World)
    → Inv w
    → ((x : Wait) → get_elem? w.waits i ≡ some x → Inv (f x w))
    → Inv (with_wait i f w)
with_wait-Inv i f w v k = elim (Option-cases (get_elem? w.waits i)) [
  | inl h ↦ rw (h, with_wait) v
  | inr (x, h) ↦
      rw (h, with_wait)
        (elim (Bool-cases (is_waiting x.outcome)) [ inl e ↦ rw e (k x h) | inr e ↦ rw e v ])
]

resume-Inv :
    (i : ℕ) (x : Wait) (w : World) → Inv w → get_elem? w.waits i ≡ some x → Inv (resume i x w)
resume-Inv i x w v at = elim (Option-cases (wait_resume x.request x.ref w.broker)) [
  | inl h ↦ rw (h, resume) v
  | inr ((d, c), h) ↦
      let (o, got, same) = v.held i x at in
      let (q, p) = wait_resume_inv x.request x.ref w.broker o got h in
      rw (h, resume, p)
        (end_wait-Inv i (returned d) x w v at (λ says.
          granted_decision w x o v got same (is_true-eq o.decision (ground (arith, says, q)))))
]

step-Inv : (e : Event) (w : World) → Inv w → Inv (step e w)
step-Inv (opens r) w v = opens-Inv r w v
step-Inv (waits_on r) w v = waits_on-Inv r w v
step-Inv (resolves run_id id a) w v = resolves-Inv run_id id a w v
step-Inv (cancels_run run_id) w v = cancels_run-Inv run_id w v
step-Inv (resumes i) w v =
    unfold step in with_wait-Inv i (resume i) w v (λ x h. resume-Inv i x w v h)
step-Inv (times_out i) w v =
    unfold step in
    with_wait-Inv i (abandon i timed_out) w v (λ x h. end_wait-Inv i timed_out x w v h (λ t. cc))
step-Inv (is_cancelled i) w v =
    unfold step in
    with_wait-Inv i (abandon i cancelled) w v (λ x h. end_wait-Inv i cancelled x w v h (λ t. cc))

run_events-Inv : (es : List Event) (w : World) → Inv w → Inv (run_events es w)
unfolding run_events
run_events-Inv [] w v = v
run_events-Inv (e ∷ es) w v = run_events-Inv es (step e w) (step-Inv e w v)

empty-Inv : Inv empty
unfolding Dict.get
empty-Inv = record {
  keyed = λ k ref e. cc;
  backed = λ ref o e d. cc;
  held = λ i x e. cc;
  told = λ i x e t. cc;
}

-- Whatever the order in which requests are opened, waited on, resolved, cancelled and timed out:
-- a wait that returned True was granted by a `resolve(run_id, approval_id, True)` that named its
-- own run and its own approval id and returned True.
pub approved_granted :
    (es : List Event) (i : ℕ) (x : Wait)
    → get_elem? (run_events es empty).waits i ≡ some x
    → x.outcome ≡ returned true
    → was_granted x.request (run_events es empty).granted ≡ true
approved_granted es i x e t = (run_events-Inv es empty empty-Inv).told i x e t
