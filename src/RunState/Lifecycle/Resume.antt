-- ===== src/RunState/Lifecycle/Resume.antt =====
-- RunStateStore.resume: which runs are resumed, and that a run is resumed once.
use helve.Base.{
  ◌≡◌, ◌≢◌, refl, sym, ap, ◌∙◌, ◌⊎◌, String, Bool, true, false, Option, none, some, Text, List,
  arith, Bool-cases, inl, inr, subst, text_eq, text_eq_sound,
}
use helve.RunState.{
  running, RunState, RunError, Result, ok, raised, is_resumable, is_allowed, scope_mismatch,
  transition_error, RunScope, ScopeField, scope_of, mismatched_fields, unless_same, option_text_eq,
  transition, record_event,
}
use helve.RunState.Stored.Bounded.{Result-cases}
use helve.RunState.Store.{Store, Io, read, save, change, refuse, keep, write, Change, on_state}
use helve.RunState.Store.Seen.{status_seen, save-ok}
use helve.RunState.Changes.{check_resume, in_scope, no_fields, resumed}
use helve.RunState.Operations.{resume}
use helve.RunState.Lifecycle.Calls.{status_seen-read, read-run_id}

option_text_eq_sound : (a b : Option Text) → option_text_eq a b ≡ true → a ≡ b
option_text_eq_sound none none h = refl
option_text_eq_sound (some s) (some t) h = ap some (text_eq_sound s t h)
option_text_eq_sound none (some t) h = absurd (cc)
option_text_eq_sound (some s) none h = absurd (cc)

unless_same-none :
    (b : Bool) (name : ScopeField) (rest : List ScopeField)
    → no_fields (unless_same b name rest) ≡ true
    → (b ≡ true) × (no_fields rest ≡ true)
unless_same-none true name rest h = (refl, h)
unless_same-none false name rest h = absurd (cc)

-- A run with no mismatched field has the scope itself.
pub in_scope-same :
    (scope : RunScope) (s : RunState) → in_scope (some scope) s ≡ true → scope_of s ≡ scope
unfolding mismatched_fields
in_scope-same scope s h =
    let (a, h1) = unless_same-none (text_eq s.agent_id scope.agent_id) _ _ h in
    let (b, h2) = unless_same-none (option_text_eq s.session_id scope.session_id) _ _ h1 in
    let (c, h3) = unless_same-none (option_text_eq s.message_id scope.message_id) _ _ h2 in
    let (d, h4) = unless_same-none (option_text_eq s.identity_id scope.identity_id) _ _ h3 in
    let (e, h5) = unless_same-none (option_text_eq s.working_dir scope.working_dir) _ _ h4 in
    let (f, h6) = unless_same-none (option_text_eq s.forced_skill scope.forced_skill) _ _ h5 in
    λ i. record {
      agent_id = text_eq_sound s.agent_id scope.agent_id a i;
      session_id = option_text_eq_sound s.session_id scope.session_id b i;
      message_id = option_text_eq_sound s.message_id scope.message_id c i;
      identity_id = option_text_eq_sound s.identity_id scope.identity_id d i;
      working_dir = option_text_eq_sound s.working_dir scope.working_dir e i;
      forced_skill = option_text_eq_sound s.forced_skill scope.forced_skill f i;
    }

-- What an operation that returns has done: it kept the state it read, or wrote another that is then seen.
abbrev pub Returned : Text → Text → String → (RunState → Change) → Store → RunState → Store → Type 0
Returned now later id f store t after =
    (s : RunState) × (read now id store ≡ ok (some s))
    × (((f s ≡ keep t) × (after ≡ store))
        ⊎ ((f s ≡ write t) × (status_seen later t.run_id after ≡ some t.status)))

change-ok :
    (now later : Text) (io : Io) (id : String) (f : RunState → Change) (store : Store)
    (s t : RunState) (c : Change)
    → read now id store ≡ ok (some s)
    → f s ≡ c
    → (change io c store).0 ≡ ok t
    → Returned now later id f store t ((change io c store).1)
change-ok now later io id f store s t (refuse x) r e h = absurd (cc)
change-ok now later io id f store s t (keep u) r e h = (s, r, inl (ground (arith, e, h), refl))
change-ok now later io id f store s t (write u) r e h =
    let (same, shown) = save-ok later io u t store h in
    (
      s,
      r,
      inr (
        e ∙ ap write same,
        subst (λ (x : RunState). status_seen later x.run_id ((save io u store).1) ≡ some x.status)
            same shown,
      ),
    )

on_state-found :
    (now : Text) (io : Io) (id : String) (f : RunState → Change) (store : Store) (s : RunState)
    → read now id store ≡ ok (some s)
    → on_state now io id f store ≡ change io (f s) store
unfolding on_state
on_state-found now io id f store s r = ground (arith, r)

pub on_state-ok :
    (now later : Text) (io : Io) (id : String) (f : RunState → Change) (store : Store)
    (t : RunState)
    → (on_state now io id f store).0 ≡ ok t
    → Returned now later id f store t ((on_state now io id f store).1)
unfolding on_state
on_state-ok now later io id f store t h = elim (Result-cases (read now id store)) [
  | inl (x, e) ↦ absurd (ground (arith, e, h))
  | inr (none, e) ↦ absurd (ground (arith, e, h))
  | inr (some s, e) ↦
      let found = on_state-found now io id f store s e in
      subst (λ (x : Result RunState × Store). Returned now later id f store t (x.1)) (sym found)
        (change-ok now later io id f store s t (f s) e refl (sym (ap (λ x. x.0) found) ∙ h))
]

check_resume-cases :
    (scope : Option RunScope) (s : RunState)
    → ((in_scope scope s ≡ true) × (is_resumable s.status ≡ true) × (check_resume scope s ≡ ok s))
      ⊎ ((x : RunError) × (check_resume scope s ≡ raised x))
unfolding check_resume
check_resume-cases scope s = elim (Bool-cases (in_scope scope s)) [
  | inr h ↦ inr (scope_mismatch, ground (arith, h))
  | inl h ↦ elim (Bool-cases (is_resumable s.status)) [
    | inl g ↦ inl (h, g, ground (arith, h, g))
    | inr g ↦ inr (transition_error, ground (arith, h, g))
  ]
]

-- The scope's fields are the run's own, where a scope is given.
abbrev pub Owned : Option RunScope → RunState → Type 0
Owned none s = Unit {0}
Owned (some scope) s = scope_of s ≡ scope

owned : (scope : Option RunScope) (s : RunState) → in_scope scope s ≡ true → Owned scope s
owned none s h = tt
owned (some scope) s h = in_scope-same scope s h

resumed-write :
    (now : Text) (scope : Option RunScope) (s t : RunState)
    → resumed now scope s ≡ write t
    → (is_resumable s.status ≡ true) × Owned scope s × (t.status ≡ running) × (t.run_id ≡ s.run_id)
unfolding resumed transition record_event
resumed-write now scope s t e = elim (check_resume-cases scope s) [
  | inr (x, c) ↦ absurd (ground (arith, c, e))
  | inl (h, g, c) ↦ elim (Bool-cases (is_allowed s.status running)) [
    | inl a ↦ (g, owned scope s h, ground (arith, c, a, e), ground (arith, c, a, e))
    | inr a ↦ absurd (ground (arith, c, a, e))
  ]
]

resumed-keep :
    (now : Text) (scope : Option RunScope) (s t : RunState) → resumed now scope s ≢ keep t
unfolding resumed transition record_event
resumed-keep now scope s t e = elim (check_resume-cases scope s) [
  | inr (x, c) ↦ ground (arith, c, e)
  | inl (h, g, c) ↦ elim (Bool-cases (is_allowed s.status running)) [
    | inl a ↦ ground (arith, c, a, e)
    | inr a ↦ ground (arith, c, a, e)
  ]
]

-- A run that is resumed was incomplete, failed or cancelled, had the scope that was asked for, and is seen
-- running from then on.
pub resume-ok :
    (now later : Text) (io : Io) (id : String) (scope : Option RunScope) (store : Store)
    (t : RunState)
    → (resume now io id scope store).0 ≡ ok t
    → (s : RunState) × (read now id store ≡ ok (some s))
      × (is_resumable s.status ≡ true)
      × Owned scope s
      × (status_seen later id ((resume now io id scope store).1) ≡ some running)
unfolding resume
resume-ok now later io id scope store t h =
    let (s, r, how) = on_state-ok now later io id (resumed now scope) store t h in
    elim how [
      | inl (k, same) ↦ absurd (resumed-keep now scope s t k)
      | inr (w, shown) ↦
          let (g, o, run, name) = resumed-write now scope s t w in
          (s, r, g, o, ground (arith, shown, run, name, read-run_id now id store s r))
    ]

-- A run that has been resumed is not resumed again while it runs, whatever scope is given.
pub resume-once :
    (now later : Text) (io again : Io) (id : String) (scope other : Option RunScope) (store : Store)
    (t u : RunState)
    → (resume now io id scope store).0 ≡ ok t
    → (resume later again id other ((resume now io id scope store).1)).0 ≢ ok u
resume-once now later io again id scope other store t u h g =
    let (s, r, a, o, shown) = resume-ok now later io id scope store t h in
    let (s2, r2, a2, o2, shown2) =
      resume-ok later later again id other ((resume now io id scope store).1) u g in
    let own = status_seen-read later later id ((resume now io id scope store).1) s2 r2 in
    ground (arith, shown, own, a2)
