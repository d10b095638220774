-- ===== src/Approval/Cancel.antt =====
-- What `cancel_run` does to the run that it names, and to the others.
use helve.Base.{
  subst, sym, ℕ, String, ◌≡◌, ◌⊎◌, refl, true, false, some, [], ◌∷◌, arith, str_eq, eq_iff,
  get_elem?, Bool-cases, Option-cases, inl, inr, get_elem?-modify, ◌==◌,
}
use helve.Base.Dict
use helve.Base.Dict.{Dict, get-remove}
use helve.Approval.{
  ApprovalRequest, ApprovalBroker, PendingApproval, pop, wait_resume, cancel_run, cancel_each,
  cancel_one, decide_as,
}

abbrev Entry : String → ℕ → Dict ℕ → Type 0
Entry k ref [] = ⊥
Entry k ref ((j, i) ∷ d) = ((j ≡ k) × (i ≡ ref)) ⊎ Entry k ref d

get-Entry : (k : String) (ref : ℕ) (d : Dict ℕ) → Dict.get k d ≡ some ref → Entry k ref d
unfolding Dict.get
get-Entry k ref [] e = absurd (cc)
get-Entry k ref ((j, i) ∷ d) e = elim (Bool-cases (str_eq j k)) [
  | inl h ↦ inl (ground (arith, h, e, eq_iff j k))
  | inr h ↦ inr (get-Entry k ref d (ground (arith, h, e)))
]

-- The object at `ref` was refused.
abbrev pub Refused : ℕ → ApprovalBroker → Type 0
Refused ref b =
    (o : PendingApproval) × (get_elem? b.objects ref ≡ some o)
    × (o.is_set ≡ true)
    × (o.decision ≡ some false)

-- The object at `ref` belongs to the run.
abbrev pub Owned : String → ℕ → ApprovalBroker → Type 0
Owned run_id ref b =
    (o : PendingApproval) × (get_elem? b.objects ref ≡ some o) × (o.request.run_id ≡ run_id)

module _ (run_id id : String) (i : ℕ) (b : ApprovalBroker) where
  cancel_one-Refused : (ref : ℕ) → Refused ref b → Refused ref (cancel_one run_id id i b)
  cancel_one-Refused ref (o, at, s, d) = elim (Option-cases (get_elem? b.objects i)) [
    | inl h ↦ rw (h, cancel_one) (o, at, s, d)
    | inr (p, h) ↦
        rw (h, cancel_one)
          (elim (Bool-cases (str_eq p.request.run_id run_id)) [
            | inr e ↦ rw e (o, at, s, d)
            | inl e ↦ rw e (elim (Bool-cases (i == ref)) [
              | inl q ↦ (
                decide_as false o,
                ground (arith, at, q, get_elem?-modify b.objects i ref (decide_as false)),
                refl,
                refl,
              )
              | inr q ↦ (
                o,
                ground (arith, at, q, get_elem?-modify b.objects i ref (decide_as false)),
                s,
                d,
              )
            ])
          ])
  ]

  cancel_one-Owned :
      (run : String) (ref : ℕ) → Owned run ref b → Owned run ref (cancel_one run_id id i b)
  cancel_one-Owned run ref (o, at, s) = elim (Option-cases (get_elem? b.objects i)) [
    | inl h ↦ rw (h, cancel_one) (o, at, s)
    | inr (p, h) ↦
        rw (h, cancel_one)
          (elim (Bool-cases (str_eq p.request.run_id run_id)) [
            | inr e ↦ rw e (o, at, s)
            | inl e ↦ rw e (elim (Bool-cases (i == ref)) [
              | inl q ↦ (
                decide_as false o,
                ground (arith, at, q, get_elem?-modify b.objects i ref (decide_as false)),
                s,
              )
              | inr q ↦
                  (o, ground (arith, at, q, get_elem?-modify b.objects i ref (decide_as false)), s)
            ])
          ])
  ]

  cancel_one_self : Owned run_id i b → Refused i (cancel_one run_id id i b)
  cancel_one_self (o, at, s) =
      rw (at, cancel_one)
        (elim (Bool-cases (str_eq o.request.run_id run_id)) [
          | inl e ↦ rw e (
            decide_as false o,
            ground (arith, at, get_elem?-modify b.objects i i (decide_as false)),
            refl,
            refl,
          )
          | inr e ↦ absurd (ground (arith, e, s, eq_iff o.request.run_id run_id))
        ])

  -- An object of another run is not touched.
  cancel_one_other :
      (ref : ℕ) (o : PendingApproval)
      → get_elem? b.objects ref ≡ some o
      → str_eq o.request.run_id run_id ≡ false
      → get_elem? (cancel_one run_id id i b).objects ref ≡ some o
  cancel_one_other ref o at other = elim (Option-cases (get_elem? b.objects i)) [
    | inl h ↦ rw (h, cancel_one) at
    | inr (p, h) ↦
        rw (h, cancel_one)
          (elim (Bool-cases (str_eq p.request.run_id run_id)) [
            | inr e ↦ rw e at
            | inl e ↦ rw e (
                ground (arith, at, h, e, other, get_elem?-modify b.objects i ref (decide_as false)))
          ])
  ]

  -- No entry appears, and that of an object of the run goes.
  cancel_one-get :
      (k : String) (ref : ℕ)
      → Dict.get k (cancel_one run_id id i b).pending ≡ some ref
      → (Dict.get k b.pending ≡ some ref) × ((id ≡ k) → Owned run_id i b → ⊥)
  cancel_one-get k ref e = elim (Option-cases (get_elem? b.objects i)) [
    | inl h ↦ (rw (h, cancel_one) at e, λ _ own. ground (arith, h, own.1))
    | inr (p, h) ↦ elim (Bool-cases (str_eq p.request.run_id run_id)) [
      | inr q ↦ (
        ground (arith, e, h, q),
        λ _ own. ground (arith, h, q, own.1, own.2, eq_iff p.request.run_id run_id),
      )
      | inl q ↦ (
        ground (arith, e, h, q, get-remove id k b.pending),
        λ same own. ground (arith, same, e, h, q, get-remove id k b.pending, eq_iff id k),
      )
    ]
  ]

module _ (run_id : String) where
  each-Refused :
      (items : Dict ℕ) (b : ApprovalBroker) (ref : ℕ)
      → Refused ref b
      → Refused ref (cancel_each run_id items b)
  each-Refused [] b ref r = r
  each-Refused ((id, i) ∷ items) b ref r =
      each-Refused items (cancel_one run_id id i b) ref (cancel_one-Refused run_id id i b ref r)

  each_Entry :
      (items : Dict ℕ) (b : ApprovalBroker) (k : String) (ref : ℕ)
      → Entry k ref items
      → Owned run_id ref b
      → Refused ref (cancel_each run_id items b)
  each_Entry [] b k ref m own = absurd m
  each_Entry ((id, i) ∷ items) b k ref (inl (p, q)) own =
      each-Refused items (cancel_one run_id id i b) ref (
        subst (λ (n : ℕ). Refused n (cancel_one run_id id i b)) q
          (cancel_one_self run_id id i b (subst (λ (n : ℕ). Owned run_id n b) (sym q) own)))
  each_Entry ((id, i) ∷ items) b k ref (inr m) own =
      each_Entry items (cancel_one run_id id i b) k ref m
        (cancel_one-Owned run_id id i b run_id ref own)

  each_other :
      (items : Dict ℕ) (b : ApprovalBroker) (ref : ℕ) (o : PendingApproval)
      → get_elem? b.objects ref ≡ some o
      → str_eq o.request.run_id run_id ≡ false
      → get_elem? (cancel_each run_id items b).objects ref ≡ some o
  each_other [] b ref o at other = at
  each_other ((id, i) ∷ items) b ref o at other =
      each_other items (cancel_one run_id id i b) ref o
        (cancel_one_other run_id id i b ref o at other) other

  each_get :
      (items : Dict ℕ) (b : ApprovalBroker) (k : String) (ref : ℕ)
      → Dict.get k (cancel_each run_id items b).pending ≡ some ref
      → (Dict.get k b.pending ≡ some ref) × (Entry k ref items → Owned run_id ref b → ⊥)
  each_get [] b k ref e = (e, λ m _. m)
  each_get ((id, i) ∷ items) b k ref e =
      let (kept, out) = each_get items (cancel_one run_id id i b) k ref e in
      let (before, gone) = cancel_one-get run_id id i b k ref kept in
      (
        before,
        λ m own.
            each_get_entry id i items b k ref m own gone
              (λ m' own'. out m' (cancel_one-Owned run_id id i b run_id ref own')),
      )
    where
      each_get_entry :
          (id : String) (i : ℕ) (items : Dict ℕ) (b : ApprovalBroker) (k : String) (ref : ℕ)
          → Entry k ref ((id, i) ∷ items)
          → Owned run_id ref b
          → ((id ≡ k) → Owned run_id i b → ⊥)
          → (Entry k ref items → Owned run_id ref b → ⊥)
          → ⊥
      each_get_entry id i items b k ref (inl (p, q)) own gone out =
          gone p (subst (λ (n : ℕ). Owned run_id n b) (sym q) own)
      each_get_entry id i items b k ref (inr m) own gone out = out m own

  -- Cancelling a run refuses each of its pending approvals, answered or not: a frame that still
  -- waits on one returns False.
  pub cancel_run_refuses :
      (b : ApprovalBroker) (r : ApprovalRequest) (ref : ℕ)
      → Dict.get r.approval_id b.pending ≡ some ref
      → Owned run_id ref b
      → wait_resume r ref (cancel_run run_id b)
        ≡ some (false, pop r.approval_id (cancel_run run_id b))
  cancel_run_refuses b r ref e own =
      let (o, at, s, d) =
        each_Entry b.pending b r.approval_id ref (get-Entry r.approval_id ref b.pending e) own in
      unfold cancel_run wait_resume in rw (at, wait_resume) (ground (arith, s, d))

  -- After `cancel_run` no entry of the dict leads to an object of the run.
  pub cancel_run_clears :
      (b : ApprovalBroker) (k : String) (ref : ℕ)
      → Dict.get k (cancel_run run_id b).pending ≡ some ref
      → ¬ Owned run_id ref b
  unfolding cancel_run
  cancel_run_clears b k ref e own =
      let (before, out) = each_get b.pending b k ref e in out (get-Entry k ref b.pending before) own

  -- `cancel_run` leaves every object of another run as it was.
  pub cancel_run_isolates :
      (b : ApprovalBroker) (ref : ℕ) (o : PendingApproval)
      → get_elem? b.objects ref ≡ some o
      → str_eq o.request.run_id run_id ≡ false
      → get_elem? (cancel_run run_id b).objects ref ≡ some o
  unfolding cancel_run
  cancel_run_isolates b ref o at other = each_other b.pending b ref o at other
