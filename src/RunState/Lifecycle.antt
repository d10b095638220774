-- ===== src/RunState/Lifecycle.antt =====
-- The lifecycle of a run: each operation moves its status by an allowed transition, or keeps it.
pub mod Calls
pub mod Each
pub mod Recovery
pub mod Unreadable
pub mod Resume
pub mod History
use helve.Base.{
  ◌≡◌, refl, sym, ap, ◌∙◌, ◌⊎◌, String, Bool, true, false, Option, none, some, if◌then◌else◌, Text,
  codes, arith, Option-cases, Bool-cases, inl, inr, subst, text_eq,
}
use helve.RunState.{
  RunStatus, queued, running, waiting_approval, completed, incomplete, failed, cancelled,
  is_allowed, is_live, is_running, is_waiting, is_resumable, RunError, RunState, Result, ok, raised,
  RunScope, bounded_text, option_text_eq, replaced, replaced_details, value_error, scope_mismatch,
  transition_error, state_error, just, to_status, transition, Transition, record_event, Recorded,
}
use helve.RunState.Store.{Change, refuse, keep, write}
use helve.RunState.Changes.{
  check_resume, kept_ok, resumed, bound, Ask, requested, Resolution, resolved, resolved_if_waiting,
  interrupted, moved, observed, write_ok, in_scope, resolve, resume_now, asked, settled, stopped,
  or_default, resolution_word,
}

-- The status stays, or moves as _ALLOWED_TRANSITIONS says.
abbrev pub Step : RunStatus → RunStatus → Type 0
Step a b = (a ≡ b) ⊎ (is_allowed a b ≡ true)

-- A change that keeps the run's id and makes a step, or that leaves the state as it is.
unfoldable pub Lawful : RunState → Change → Type 0
Lawful s (refuse e) = Unit {0}
Lawful s (keep t) = t ≡ s
Lawful s (write t) = (t.run_id ≡ s.run_id) × Step s.status t.status

Lawful-by : (s : RunState) (c d : Change) → c ≡ d → Lawful s d → Lawful s c
Lawful-by s c d e l = subst (λ x. Lawful s x) (sym e) l

Lawful-if :
    (s : RunState) (b : Bool) (c d : Change)
    → Lawful s c
    → Lawful s d
    → Lawful s (if b then c else d)
Lawful-if s true c d l m = l
Lawful-if s false c d l m = m

transition-Lawful :
    (now : Text) (t : Transition) (s r : RunState)
    → s.run_id ≡ r.run_id
    → s.status ≡ r.status
    → Lawful r (write_ok (transition now t s))
unfolding transition Lawful
transition-Lawful now t s r i e = elim (Bool-cases (is_allowed s.status t.target)) [
  | inl h ↦
      let next : RunState = record s {
        status = t.target;
        reason = replaced t.reason s.reason;
        error = replaced t.error s.error;
        error_details = replaced_details t.error_details s.error_details;
        updated_at = now;
      } in
      Lawful-by r _ (write next) (ground (arith, h)) (i, inr (rw (sym e) h))
  | inr h ↦ Lawful-by r _ (refuse transition_error) (ground (arith, h)) tt
]

resume_now-Lawful : (now : Text) (s : RunState) → Lawful s (resume_now now s)
unfolding transition record_event Lawful
resume_now-Lawful now s = elim (Bool-cases (is_allowed s.status running)) [
  | inl h ↦
      let next : RunState = record s {
        status = running;
        reason = bounded_text 200 (some (codes "resumed"));
        updated_at = now;
      } in
      Lawful-by s (resume_now now s) (write (record_event now (just (codes "run_resumed")) next))
        (ground (arith, h)) (refl, inr h)
  | inr h ↦ Lawful-by s (resume_now now s) (refuse transition_error) (ground (arith, h)) tt
]

pub resumed-Lawful :
    (now : Text) (scope : Option RunScope) (s : RunState) → Lawful s (resumed now scope s)
unfolding resumed check_resume Lawful
resumed-Lawful now scope s = elim (Bool-cases (in_scope scope s)) [
  | inr h ↦ Lawful-by s _ (refuse scope_mismatch) (ground (arith, h)) tt
  | inl h ↦ elim (Bool-cases (is_resumable s.status)) [
    | inr g ↦ Lawful-by s _ (refuse transition_error) (ground (arith, h, g)) tt
    | inl g ↦ Lawful-by s _ (resume_now now s) (ground (arith, h, g)) (resume_now-Lawful now s)
  ]
]

pub bound-Lawful : (now identity_id : Text) (s : RunState) → Lawful s (bound now identity_id s)
unfolding bound Lawful
bound-Lawful now identity_id s = elim (Option-cases (bounded_text 200 (some identity_id))) [
  | inl h ↦ Lawful-by s _ (refuse value_error) (ground (arith, h)) tt
  | inr (t, h) ↦ elim (Option-cases s.identity_id) [
    | inl g ↦
        Lawful-by s _ (write (record s { identity_id = some t; updated_at = now }))
          (ground (arith, h, g)) (refl, inl refl)
    | inr (old, g) ↦
        Lawful-by s _ (if text_eq old t then keep s else refuse scope_mismatch)
          (ground (arith, h, g)) (Lawful-if s (text_eq old t) _ _ refl tt)
  ]
]

pub requested-Lawful : (now : Text) (ask : Ask) (s : RunState) → Lawful s (requested now ask s)
unfolding requested record_event Lawful
requested-Lawful now ask s =
    let t : Transition = to_status waiting_approval (some ask.reason) in
    Lawful-if s (is_running s.status) (write_ok (transition now t (asked now ask s)))
      (refuse transition_error) (transition-Lawful now t (asked now ask s) s refl refl) tt

resolve-Lawful : (now : Text) (r : Resolution) (s : RunState) → Lawful s (resolve now r s)
unfolding record_event
resolve-Lawful now r s =
    transition-Lawful now
      (to_status running (some (or_default r.reason (resolution_word r.approved))))
      (settled now r s) s refl refl

pub resolved-Lawful : (now : Text) (r : Resolution) (s : RunState) → Lawful s (resolved now r s)
unfolding resolved Lawful
resolved-Lawful now r s =
    Lawful-if s (is_waiting s.status) _ (refuse transition_error)
      (Lawful-if s (option_text_eq s.approval_id (some r.approval_id)) (resolve now r s)
        (refuse state_error) (resolve-Lawful now r s) tt)
      tt

pub resolved_if_waiting-Lawful :
    (now : Text) (r : Resolution) (s : RunState) → Lawful s (resolved_if_waiting now r s)
unfolding resolved_if_waiting Lawful
resolved_if_waiting-Lawful now r s =
    Lawful-if s (is_waiting s.status) _ (keep s)
      (Lawful-if s (option_text_eq s.approval_id (some r.approval_id)) (resolve now r s) (keep s)
        (resolve-Lawful now r s) refl)
      refl

pub interrupted-Lawful : (now : Text) (s : RunState) → Lawful s (interrupted now s)
unfolding interrupted record_event Lawful
interrupted-Lawful now s =
    let t : Transition = to_status cancelled (some (codes "server_restarted")) in
    Lawful-if s (is_live s.status) (write_ok (transition now t (stopped now s))) (keep s)
      (transition-Lawful now t (stopped now s) s refl refl) refl

pub moved-Lawful :
    (now : Text) (o : Option Text) (t : Transition) (s : RunState) → Lawful s (moved now o t s)
unfolding moved record_event
moved-Lawful now none t s = transition-Lawful now t s s refl refl
moved-Lawful now (some e) t s = transition-Lawful now t (record_event now (just e) s) s refl refl

pub observed-Lawful : (now : Text) (e : Recorded) (s : RunState) → Lawful s (observed now e s)
unfolding observed record_event Lawful
observed-Lawful now e s = (refl, inl refl)
