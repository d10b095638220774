-- ===== src/RunState/Progress.antt =====
-- The count of delivered events: buffered and recorded ones together are counted exactly.
pub mod Seen
use helve.Base.{
  ℕ, ◌+◌, ◌≡◌, refl, sym, ap, ◌∙◌, String, true, Option, none, some, if◌then◌else◌, Text, str_eq,
  eq_refl, subst, arith, eq_iff, Option-cases, Bool-cases, inl, inr, List, [], ◌∷◌, All,
}
use helve.Base.Dict.{Dict, get, put, remove, get-put, get-remove}
use helve.RunState.{RunStatus, RunState, Result, ok, raised, bounded_text, Recorded, record_event}
use helve.RunState.Stored.{to_dict, from_dict, Payload, status_of, parsed_event_seq}
use helve.RunState.Stored.Bounded.{Result-cases, from_dict-parsed, bounded_text-bounded_text}
use helve.RunState.Store.{
  Store, File, broken, not_utf8, payload, Io, Write, done, valid_run_id, read, load, save,
  apply_deferred, with_deferred, defer_event, kept_type, one_more, on_state,
}
use helve.RunState.Changes.{observed}
use helve.RunState.Operations.{observe}
use helve.RunState.Lifecycle.Calls.{read-run_id}
use helve.RunState.Progress.Seen.{
  Progress, progress_of, shown, progress_seen, with_buffer, progress_of-with_deferred,
  stored_progress, buffered, shown-load, base_progress, progress_seen-buffered,
  stored_progress-to_dict, shown-payload, base_progress-now, progress_seen-now,
}

-- One more event, of this type.
unfoldable pub counted : Text → Progress → Progress
counted event_type p = record p {
  event_seq = p.event_seq + 1;
  last_event_type = bounded_text 200 (some event_type);
}

buffered-one_more :
    (b : Option (ℕ × Option Text)) (event_type t : Text) (p q : Progress)
    → bounded_text 200 (some event_type) ≡ some t
    → buffered b (some q) ≡ some p
    → buffered (some (one_more b event_type)) (some q) ≡ some (counted event_type p)
unfolding buffered counted
buffered-one_more none event_type t p q e h = ground (arith, e, h)
buffered-one_more (some (n, last)) event_type t p q e h = ground (arith, e, h)

pub defer_event-counted :
    (now : Text) (run_id : String) (event_type t : Text) (store : Store) (p : Progress)
    → bounded_text 200 (some event_type) ≡ some t
    → progress_seen now run_id store ≡ some p
    → progress_seen now run_id ((defer_event run_id event_type store).1)
      ≡ some (counted event_type p)
unfolding defer_event buffered
defer_event-counted now run_id event_type t store p e h = elim (Bool-cases (valid_run_id run_id)) [
  | inr v ↦ absurd (ground (arith, v, h, progress_seen-buffered now run_id store))
  | inl v ↦ elim (Option-cases (base_progress now run_id store)) [
    | inl b ↦ absurd (ground (arith, b, h, progress_seen-buffered now run_id store))
    | inr (q, b) ↦
        let more = one_more (get run_id store.deferred) event_type in
        let after : Store = record store { deferred = put run_id more store.deferred } in
        let old : buffered (get run_id store.deferred) (some q) ≡ some p =
          ground (arith, b, h, progress_seen-buffered now run_id store) in
        ground (
          arith,
          v,
          b,
          eq_refl run_id,
          get-put run_id run_id more store.deferred,
          progress_seen-buffered now run_id after,
          buffered-one_more (get run_id store.deferred) event_type t p q e old,
        )
  ]
]

read-valid :
    (now : Text) (id : String) (store : Store) (s : RunState)
    → read now id store ≡ ok (some s)
    → valid_run_id id ≡ true
unfolding read
read-valid now id store s e = elim (Bool-cases (valid_run_id id)) [
  | inl v ↦ v
  | inr v ↦ absurd (ground (arith, v, e))
]

-- A write that succeeds shows what it wrote, with nothing buffered.
pub save-progress :
    (now : Text) (io : Io) (s : RunState) (store : Store)
    → valid_run_id s.run_id ≡ true
    → io s.run_id ≡ done
    → bounded_text 200 s.last_event_type ≡ s.last_event_type
    → progress_seen now s.run_id ((save io s store).1) ≡ some (progress_of s)
unfolding save buffered
save-progress now io s store v w b =
    let after : Store = record {
      files = put s.run_id (payload (to_dict s)) store.files;
      deferred = remove s.run_id store.deferred;
    } in
    ground (
      arith,
      v,
      w,
      eq_refl s.run_id,
      get-put s.run_id s.run_id (payload (to_dict s)) store.files,
      get-remove s.run_id s.run_id store.deferred,
      stored_progress-to_dict now s b,
      progress_seen-buffered now s.run_id after,
    )

shown-some :
    (r : Result (Option RunState)) (p : Progress)
    → shown r ≡ some p
    → (s : RunState) × (r ≡ ok (some s)) × (progress_of s ≡ p)
shown-some (raised e) p h = absurd (cc)
shown-some (ok none) p h = absurd (cc)
shown-some (ok (some s)) p h = (s, refl, ground (arith, h))

record_event-run_id :
    (now : Text) (e : Recorded) (s : RunState) → (record_event now e s).run_id ≡ s.run_id
unfolding record_event
record_event-run_id now e s = refl

record_event-counted :
    (now : Text) (e : Recorded) (s : RunState)
    → progress_of (record_event now e s) ≡ counted e.event_type (progress_of s)
unfolding record_event counted
record_event-counted now e s = refl

record_event-bounded :
    (now : Text) (e : Recorded) (s : RunState)
    → bounded_text 200 (record_event now e s).last_event_type
      ≡ (record_event now e s).last_event_type
unfolding record_event
record_event-bounded now e s = bounded_text-bounded_text 200 (some e.event_type)

observe-read :
    (now later : Text) (io : Io) (id : String) (e : Recorded) (store : Store) (s : RunState)
    → io id ≡ done
    → read later id store ≡ ok (some s)
    → progress_seen now id ((observe later io id e store).1)
      ≡ some (counted e.event_type (progress_of s))
unfolding observe on_state observed
observe-read now later io id e store s w r =
    let name : (record_event later e s).run_id ≡ id =
      record_event-run_id later e s ∙ read-run_id later id store s r in
    ground (
      arith,
      r,
      name,
      record_event-counted later e s,
      save-progress now io (record_event later e s) store
          (ap valid_run_id name ∙ read-valid later id store s r) (ap io name ∙ w)
          (record_event-bounded later e s),
    )

pub observe-counted :
    (now later : Text) (io : Io) (id : String) (e : Recorded) (store : Store) (p : Progress)
    → io id ≡ done
    → progress_seen now id store ≡ some p
    → progress_seen now id ((observe later io id e store).1) ≡ some (counted e.event_type p)
unfolding progress_seen
observe-counted now later io id e store p w h =
    let (s, r, q) = shown-some (read later id store) p (progress_seen-now later now id store ∙ h) in
    observe-read now later io id e store s w r ∙ ap (λ x. some (counted e.event_type x)) q

-- An event of a run's progress: buffered, or recorded in the file at a time.
pub data Delivery : Type 0 where
  buffer : Text → Delivery
  record_now : Text → Recorded → Delivery

abbrev pub event_of : Delivery → Text
event_of (buffer t) = t
event_of (record_now time e) = e.event_type

abbrev pub deliver : Io → String → Delivery → Store → Store
deliver io id (buffer t) store = (defer_event id t store).1
deliver io id (record_now time e) store = (observe time io id e store).1

unfoldable pub deliver_all : Io → String → List Delivery → Store → Store
deliver_all io id [] store = store
deliver_all io id (d ∷ ds) store = deliver_all io id ds (deliver io id d store)

-- The specification: every event is counted, and the last one is named.
unfoldable pub count_all : List Delivery → Progress → Progress
count_all [] p = p
count_all (d ∷ ds) p = count_all ds (counted (event_of d) p)

abbrev pub Named : Text → Type 0
Named event_type = (t : Text) × (bounded_text 200 (some event_type) ≡ some t)

-- Buffering is not seen: while the writes succeed, any mixture of buffered and recorded events of nonempty
-- types shows exactly the count, the last type and the status of counting every event at once.
pub deliver_all-counted :
    (now : Text) (io : Io) (id : String) (ds : List Delivery) (store : Store) (p : Progress)
    → io id ≡ done
    → All (λ d. Named (event_of d)) ds
    → progress_seen now id store ≡ some p
    → progress_seen now id (deliver_all io id ds store) ≡ some (count_all ds p)
unfolding deliver_all count_all
deliver_all-counted now io id [] store p w named h = h
deliver_all-counted now io id (buffer t ∷ ds) store p w ((u, e), named) h =
    deliver_all-counted now io id ds ((defer_event id t store).1) (counted t p) w named
      (defer_event-counted now id t u store p e h)
deliver_all-counted now io id (record_now time e ∷ ds) store p w (u, named) h =
    deliver_all-counted now io id ds ((observe time io id e store).1) (counted e.event_type p) w
      named (observe-counted now time io id e store p w h)

abbrev pub emptied : String → Store → Store
emptied id store = record store { deferred = remove id store.deferred }

observe-failed :
    (later : Text) (io : Io) (id : String) (e : Recorded) (store : Store) (s : RunState)
    → io id ≡ Write.failed
    → read later id store ≡ ok (some s)
    → (observe later io id e store).1 ≡ emptied id store
unfolding observe on_state observed save
observe-failed later io id e store s w r =
    let name : (record_event later e s).run_id ≡ id =
      record_event-run_id later e s ∙ read-run_id later id store s r in
    ground (arith, r, name, w, ap valid_run_id name ∙ read-valid later id store s r)

emptied-loses :
    (now : Text) (id : String) (store : Store) (p : Progress) (n : ℕ) (t : Option Text)
    → get id store.deferred ≡ some (n, t)
    → progress_seen now id store ≡ some p
    → (q : Progress) × (progress_seen now id (emptied id store) ≡ some q)
      × (q.event_seq + n ≡ p.event_seq)
unfolding buffered
emptied-loses now id store p n t b h =
    let before = progress_seen-buffered now id store in
    elim (Option-cases (base_progress now id store)) [
      | inl g ↦ absurd (ground (arith, g, b, h, before))
      | inr (q, g) ↦
          let old : some (with_buffer (some (n, t)) q) ≡ some p = ground (arith, g, b, h, before) in
          (
            q,
            ground (
              arith,
              g,
              eq_refl id,
              get-remove id id store.deferred,
              progress_seen-buffered now id (emptied id store),
            ),
            ground (arith, old),
          )
    ]

-- A record of an event (observe) whose write fails before the file is replaced loses the events that are buffered for the
-- run: the count that is seen falls by their number.
pub observe-loses :
    (now later : Text) (io : Io) (id : String) (e : Recorded) (store : Store) (p : Progress) (n : ℕ)
    (t : Option Text)
    → io id ≡ Write.failed
    → get id store.deferred ≡ some (n, t)
    → progress_seen now id store ≡ some p
    → (q : Progress) × (progress_seen now id ((observe later io id e store).1) ≡ some q)
      × (q.event_seq + n ≡ p.event_seq)
unfolding progress_seen
observe-loses now later io id e store p n t w b h =
    let (s, r, q) = shown-some (read later id store) p (progress_seen-now later now id store ∙ h) in
    subst
      (λ (z : Store).
        (q : Progress) × (progress_seen now id z ≡ some q) × (q.event_seq + n ≡ p.event_seq))
      (sym (observe-failed later io id e store s w r)) (emptied-loses now id store p n t b h)
