-- ===== src/Approval/Store.antt =====
-- What the operations of the broker do to its objects and its dict.
use helve.Base.{
  ℕ, ◌==◌, String, ◌≡◌, refl, Bool, true, false, ◌&&◌, ◌||◌, not, none, some, List, [], ◌∷◌, ◌++◌,
  arith, if◌then◌else◌, str_eq, eq_iff, eq_refl, get_elem?, modify, length, Bool-cases,
  Option-cases, inl, inr, get_elem?-modify, get_elem?-snoc, get_elem?-lt,
}
use helve.Base.Dict
use helve.Base.Dict.{Dict, get-put, get-remove}
use helve.Approval.{
  ApprovalRequest, ApprovalBroker, PendingApproval, new_object, opened, pop, resolve, cancel_run,
  cancel_each, cancel_one, decide_as,
}
use helve.Approval.World.{was_granted}

abbrev pub SameRequest : ApprovalRequest → ApprovalRequest → Type 0
SameRequest r s = (r.run_id ≡ s.run_id) × (r.approval_id ≡ s.approval_id)

-- A dict entry leads to an object of its own approval id.
abbrev pub Keyed : ApprovalBroker → Type 0
Keyed b =
    (k : String) (ref : ℕ)
    → Dict.get k b.pending ≡ some ref
    → (o : PendingApproval) × (get_elem? b.objects ref ≡ some o) × (o.request.approval_id ≡ k)

-- A decision for yes was granted to the request of its object.
abbrev pub Backed : ApprovalBroker → List (String × String) → Type 0
Backed b g =
    (ref : ℕ) (o : PendingApproval)
    → get_elem? b.objects ref ≡ some o
    → o.decision ≡ some true
    → was_granted o.request g ≡ true

-- Every object of `b` is still there in `c`, for the same request.
abbrev pub Extends : ApprovalBroker → ApprovalBroker → Type 0
Extends b c =
    (ref : ℕ) (o : PendingApproval)
    → get_elem? b.objects ref ≡ some o
    → (p : PendingApproval) × (get_elem? c.objects ref ≡ some p) × (p.request ≡ o.request)

modify-Extends :
    (b : ApprovalBroker) (i : ℕ) (d : Bool) (pending : Dict ℕ)
    → Extends b (record { objects = modify b.objects i (decide_as d); pending = pending })
modify-Extends b i d pending ref o e = elim (Bool-cases (i == ref)) [
  | inl h ↦ (decide_as d o, ground (arith, get_elem?-modify b.objects i ref (decide_as d)), refl)
  | inr h ↦ (o, ground (arith, get_elem?-modify b.objects i ref (decide_as d)), refl)
]

pub Extends-trans : (a b c : ApprovalBroker) → Extends a b → Extends b c → Extends a c
Extends-trans a b c f g ref o e =
    let (p, q, r) = f ref o e in let (p', q', r') = g ref p q in (p', q', cc)

pub Keyed-Extends :
    (b c : ApprovalBroker)
    → Keyed b
    → Extends b c
    → ((k : String) (ref : ℕ) → Dict.get k c.pending ≡ some ref → Dict.get k b.pending ≡ some ref)
    → Keyed c
Keyed-Extends b c kb ext sub k ref e =
    let (o, at, id) = kb k ref (sub k ref e) in
    let (p, at', same) = ext ref o at in (p, at', ground arith)

pub pop-sub :
    (id : String) (d : Dict ℕ) (k : String) (ref : ℕ)
    → Dict.get k (Dict.remove id d) ≡ some ref
    → Dict.get k d ≡ some ref
pop-sub id d k ref e = ground (arith, get-remove id k d)

-- What `open`, `resolve` and `cancel_run` do to the objects and the dict.
pub record Keeps (b c : ApprovalBroker) (g : List (String × String)) : Type 0 where
  pub extends : Extends b c
  pub keyed : Keyed c
  pub backed : Backed c g

modify-Backed :
    (b : ApprovalBroker) (i : ℕ) (d : Bool) (pending : Dict ℕ) (g : List (String × String))
    → Backed b g
    → ((o : PendingApproval)
        → get_elem? b.objects i ≡ some o
        → d ≡ true
        → was_granted o.request g ≡ true)
    → Backed (record { objects = modify b.objects i (decide_as d); pending = pending }) g
modify-Backed b i d pending g back new ref o e says =
    elim (Option-cases (get_elem? b.objects ref)) [
      | inl h ↦ ground (arith, h, get_elem?-modify b.objects i ref (decide_as d))
      | inr (x, h) ↦
          ground (arith, h, get_elem?-modify b.objects i ref (decide_as d), back ref x h, new x)
    ]

pub Extends-refl : (b : ApprovalBroker) → Extends b b
Extends-refl b ref o e = (o, e, refl)

pub snoc-Extends :
    (b : ApprovalBroker) (x : PendingApproval) (pending : Dict ℕ)
    → Extends b (record { objects = b.objects ++ x ∷ []; pending = pending })
snoc-Extends b x pending ref o e =
    (o, ground (arith, get_elem?-snoc b.objects x ref, get_elem?-lt b.objects ref e), refl)

pub opened-Keyed : (r : ApprovalRequest) (b : ApprovalBroker) → Keyed b → Keyed (opened r b)
opened-Keyed r b kb k ref e = elim (Bool-cases (str_eq r.approval_id k)) [
  | inl h ↦ (
    new_object r,
    ground (
      arith,
      h,
      get_elem?-snoc b.objects (new_object r) ref,
      get-put r.approval_id k (length b.objects) b.pending,
    ),
    ground (arith, h, eq_iff r.approval_id k),
  )
  | inr h ↦
      Keyed-Extends b (record b { objects = b.objects ++ new_object r ∷ [] }) kb
        (snoc-Extends b (new_object r) b.pending) (λ _ _ x. x) k ref
        (ground (arith, h, get-put r.approval_id k (length b.objects) b.pending))
]

pub opened-Backed :
    (r : ApprovalRequest) (b : ApprovalBroker) (g : List (String × String))
    → Backed b g
    → Backed (opened r b) g
opened-Backed r b g back ref o e says =
    ground (arith, get_elem?-snoc b.objects (new_object r) ref, back ref o)

weaken-Backed :
    (b : ApprovalBroker) (x : String × String) (g : List (String × String))
    → Backed b g
    → Backed b (x ∷ g)
weaken-Backed b x g back ref o e says = ground (arith, back ref o e says)

-- `resolve` by what the dict and the store hold.
abbrev pub resolved : String → Bool → ℕ → PendingApproval → ApprovalBroker → Bool × ApprovalBroker
resolved run_id approved ref o b =
    if o.is_set || not (str_eq o.request.run_id run_id)
    then (false, b)
    else (true, record b { objects = modify b.objects ref (decide_as approved) })

pub resolve-none :
    (run_id id : String) (approved : Bool) (b : ApprovalBroker)
    → Dict.get id b.pending ≡ none
    → resolve run_id id approved b ≡ (false, b)
unfolding resolve
resolve-none run_id id approved b h = rw (h, resolve)

pub resolve-some :
    (run_id id : String) (approved : Bool) (b : ApprovalBroker) (ref : ℕ) (o : PendingApproval)
    → Dict.get id b.pending ≡ some ref
    → get_elem? b.objects ref ≡ some o
    → resolve run_id id approved b ≡ resolved run_id approved ref o b
unfolding resolve
resolve-some run_id id approved b ref o h at = rw (h, resolve) (rw at)

pub decide-Keeps :
    (b : ApprovalBroker) (g : List (String × String)) (ref : ℕ) (d : Bool) (pending : Dict ℕ)
    → Keyed b
    → Backed b g
    → ((k : String) (i : ℕ) → Dict.get k pending ≡ some i → Dict.get k b.pending ≡ some i)
    → ((o : PendingApproval)
        → get_elem? b.objects ref ≡ some o
        → d ≡ true
        → was_granted o.request g ≡ true)
    → Keeps b (record { objects = modify b.objects ref (decide_as d); pending = pending }) g
decide-Keeps b g ref d pending kb back sub new = record {
  extends = modify-Extends b ref d pending;
  keyed = Keyed-Extends b _ kb (modify-Extends b ref d pending) sub;
  backed = modify-Backed b ref d pending g back new;
}

module _ (run_id id : String) (approved : Bool) (b : ApprovalBroker) (g : List (String × String))
    (kb : Keyed b) (back : Backed b g) where
  abbrev pub granted_by : List (String × String)
  granted_by = if (resolve run_id id approved b).0 && approved then (run_id, id) ∷ g else g

  resolved-Keeps :
      (ref : ℕ) (o : PendingApproval)
      → Dict.get id b.pending ≡ some ref
      → get_elem? b.objects ref ≡ some o
      → o.request.approval_id ≡ id
      → Keeps b (resolve run_id id approved b).1 granted_by
  resolved-Keeps ref o h at same =
      rw (resolve-some run_id id approved b ref o h at)
        (elim (Bool-cases (o.is_set || not (str_eq o.request.run_id run_id))) [
          | inl refused ↦
              rw refused (record { extends = Extends-refl b; keyed = kb; backed = back })
          | inr taken ↦ rw taken (elim (Bool-cases approved) [
            | inr e ↦ rw e (decide-Keeps b g ref false b.pending kb back (λ _ _ x. x) (λ _ _ x. cc))
            | inl e ↦ rw e (
                decide-Keeps b ((run_id, id) ∷ g) ref true b.pending kb
                  (weaken-Backed b (run_id, id) g back) (λ _ _ x. x)
                  (λ p q _. ground (
                    arith,
                    at,
                    q,
                    same,
                    eq_refl id,
                    eq_iff o.request.run_id run_id,
                    eq_iff run_id p.request.run_id,
                    eq_iff id p.request.approval_id,
                    taken,
                  )))
          ])
        ])

  pub resolve-Keeps : Keeps b (resolve run_id id approved b).1 granted_by
  resolve-Keeps = elim (Option-cases (Dict.get id b.pending)) [
    | inl h ↦
        rw (resolve-none run_id id approved b h)
          (record { extends = Extends-refl b; keyed = kb; backed = back })
    | inr (ref, h) ↦ let (o, at, same) = kb id ref h in resolved-Keeps ref o h at same
  ]

cancel_one-Keeps :
    (run_id id : String) (ref : ℕ) (b : ApprovalBroker) (g : List (String × String))
    → Keyed b
    → Backed b g
    → Keeps b (cancel_one run_id id ref b) g
cancel_one-Keeps run_id id ref b g kb back = elim (Option-cases (get_elem? b.objects ref)) [
  | inl h ↦ rw (h, cancel_one) (record { extends = Extends-refl b; keyed = kb; backed = back })
  | inr (o, h) ↦
      rw (h, cancel_one)
        (elim (Bool-cases (str_eq o.request.run_id run_id)) [
          | inl e ↦ rw e (
              decide-Keeps b g ref false (Dict.remove id b.pending) kb back (pop-sub id b.pending)
                (λ _ _ x. cc))
          | inr e ↦ rw e (record { extends = Extends-refl b; keyed = kb; backed = back })
        ])
]

cancel_each-Keeps :
    (run_id : String) (items : Dict ℕ) (b : ApprovalBroker) (g : List (String × String))
    → Keyed b
    → Backed b g
    → Keeps b (cancel_each run_id items b) g
cancel_each-Keeps run_id [] b g kb back = record {
  extends = Extends-refl b;
  keyed = kb;
  backed = back;
}
cancel_each-Keeps run_id ((id, ref) ∷ items) b g kb back =
    let one = cancel_one-Keeps run_id id ref b g kb back in
    let rest = cancel_each-Keeps run_id items (cancel_one run_id id ref b) g one.keyed one.backed in
    record {
      extends =
          Extends-trans b (cancel_one run_id id ref b)
            (cancel_each run_id items (cancel_one run_id id ref b)) one.extends rest.extends;
      keyed = rest.keyed;
      backed = rest.backed;
    }

pub cancel_run-Keeps :
    (run_id : String) (b : ApprovalBroker) (g : List (String × String))
    → Keyed b
    → Backed b g
    → Keeps b (cancel_run run_id b) g
unfolding cancel_run
cancel_run-Keeps run_id b g kb back = cancel_each-Keeps run_id b.pending b g kb back

pub pop-Keeps :
    (id : String) (b : ApprovalBroker) (g : List (String × String))
    → Keyed b
    → Backed b g
    → Keeps b (pop id b) g
pop-Keeps id b g kb back = record {
  extends = λ ref o e. (o, e, refl);
  keyed = λ k ref e. kb k ref (pop-sub id b.pending k ref e);
  backed = back;
}
