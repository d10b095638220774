-- ===== src/Pipeline/Sessions/Kept.antt =====
-- engine/execution/orchestration/agent_loop.py and engine/execution/pipeline/checkpoint.py: what a session's
-- checkpoint can be lost to.
use helve.Base.{
  String, Bool, true, false, ◌&&◌, if◌then◌else◌, not, Option, none, some, List, [], ◌∷◌, Text, ◌≡◌,
  ◌≢◌, ◌⊎◌, sym, ap, ◌∙◌, arith, Bool-cases, inl, inr, str_eq, eq_iff,
}
use helve.RunState.{RunState, Result, ok, raised, is_live}
use helve.RunState.Store.{Store, read}
use helve.Pipeline.{Chain}
use helve.Pipeline.Resume.{
  SavedCheckpoint, Request, checkpoint_owner_still_running, owner_is_live, same_scope, asks_again,
  start_from, apply_session_checkpoint,
}
use helve.Pipeline.Sessions.{
  Sessions, Restored, restored, restore, start_restored, valid_session_id,
}
use helve.Pipeline.Sessions.View.{
  Call, saves, clears, applies, perform, perform_all, view, replaces, specified, is_cleared,
  view-perform,
}

-- The run store shows the run queued, running or waiting for an approval, or cannot be read.
abbrev pub MayRun : Result (Option RunState) → Type 0
MayRun (raised e) = Unit {0}
MayRun (ok none) = ⊥
MayRun (ok (some state)) = is_live state.status ≡ true

-- No other run that may still execute has written the checkpoint.
abbrev pub Unowned : Text → Store → Request → SavedCheckpoint → Type 0
Unowned now runs r s = (s.run_id ≡ "") ⊎ ((s.run_id ≡ r.run_id) ⊎ ¬ MayRun (read now s.run_id runs))

-- The scopes of the checkpoint and of the request do not agree, or the checkpoint neither waits for the user nor is
-- that of the same message.
abbrev pub Foreign : Request → Chain → SavedCheckpoint → Type 0
Foreign r chain s =
    (same_scope r s chain ≡ false)
    ⊎ ((s.checkpoint.awaiting_user_input ≡ false)
        × (asks_again s.chain_request s.user_message r.user_message ≡ false))

-- The call can end the checkpoint of a session.
abbrev pub Ends : String → SavedCheckpoint → Call → Type 0
Ends session_id s (saves write id c) = id ≡ session_id
Ends session_id s (clears id) = id ≡ session_id
Ends session_id s (applies now runs r chain id) =
    (id ≡ session_id) × Unowned now runs r s × Foreign r chain s

abbrev pub SomeEnds : String → SavedCheckpoint → List Call → Type 0
SomeEnds session_id s [] = ⊥
SomeEnds session_id s (call ∷ calls) = Ends session_id s call ⊎ SomeEnds session_id s calls

not_live-rests : (r : Result (Option RunState)) → owner_is_live r ≡ false → ¬ MayRun r
not_live-rests (raised e) h = absurd (cc)
not_live-rests (ok none) h = λ never. never
not_live-rests (ok (some state)) h = λ live. absurd (cc)

unprotected-Unowned :
    (now : Text) (runs : Store) (r : Request) (s : SavedCheckpoint)
    → (not (str_eq s.run_id "") && checkpoint_owner_still_running now runs s.run_id r.run_id)
      ≡ false
    → Unowned now runs r s
unfolding checkpoint_owner_still_running
unprotected-Unowned now runs r s h = elim (Bool-cases (str_eq s.run_id "")) [
  | inl nameless ↦ inl ((eq_iff s.run_id "").0 nameless)
  | inr named ↦ elim (Bool-cases (str_eq s.run_id r.run_id)) [
    | inl own ↦ inr (inl ((eq_iff s.run_id r.run_id).0 own))
    | inr other ↦
        inr (inr (not_live-rests (read now s.run_id runs) (ground (arith, h, named, other))))
  ]
]

start_from-Foreign :
    (r : Request) (s : SavedCheckpoint) (chain : Chain)
    → is_cleared (start_from r s chain) ≡ true
    → Foreign r chain s
start_from-Foreign r s chain e = elim (Bool-cases (same_scope r s chain)) [
  | inr apart ↦ inl apart
  | inl same ↦ elim (Bool-cases s.checkpoint.awaiting_user_input) [
    | inl waits ↦ absurd (ground (arith, same, waits, e))
    | inr runs_on ↦ elim (Bool-cases (asks_again s.chain_request s.user_message r.user_message)) [
      | inl again ↦ absurd (ground (arith, same, runs_on, again, e))
      | inr new ↦ inr (runs_on, new)
    ]
  ]
]

cleared-Ends :
    (now : Text) (runs : Store) (r : Request) (chain : Chain) (s : SavedCheckpoint)
    → is_cleared (apply_session_checkpoint now runs r chain (some s)) ≡ true
    → Unowned now runs r s × Foreign r chain s
unfolding apply_session_checkpoint
cleared-Ends now runs r chain s e =
    elim (Bool-cases
      (not (str_eq s.run_id "") && checkpoint_owner_still_running now runs s.run_id r.run_id)) [
        | inl owned ↦ absurd (ground (arith, owned, e))
        | inr free ↦ (
          unprotected-Unowned now runs r s free,
          start_from-Foreign r s chain (ground (arith, free, e)),
        )
      ]

-- After a call the view has the checkpoint still, or the call can end it.
abbrev Kept : String → SavedCheckpoint → Call → Restored → Type 0
Kept session_id s call after = (after ≡ restored (some s)) ⊎ Ends session_id s call

by_id :
    (id session_id : String) (s : SavedCheckpoint) (call : Call) (before value : Restored)
    → before ≡ restored (some s)
    → (id ≡ session_id → Ends session_id s call)
    → (sets : Bool)
    → Kept session_id s call (if sets && str_eq id session_id then value else before)
by_id id session_id s call before value e ends false = inl e
by_id id session_id s call before value e ends true = elim (Bool-cases (str_eq id session_id)) [
  | inl same ↦ inr (ends ((eq_iff id session_id).0 same))
  | inr other ↦ inl (ground (arith, other, e))
]

applied-Kept :
    (now : Text) (runs : Store) (r : Request) (chain : Chain) (id session_id : String)
    (s : SavedCheckpoint) (v : String → Restored)
    → v session_id ≡ restored (some s)
    → Kept session_id s
        (applies now runs r chain id)
        (specified (applies now runs r chain id) v session_id)
applied-Kept now runs r chain id session_id s v e =
    let start = start_restored now runs r chain (v id) in
    elim (Bool-cases (is_cleared start)) [
      | inr kept ↦ inl (ground (arith, kept, e))
      | inl cleared ↦ elim (Bool-cases (str_eq id session_id)) [
        | inr other ↦ inl (ground (arith, cleared, other, e))
        | inl same ↦
            let own : id ≡ session_id = (eq_iff id session_id).0 same in
            let from : v id ≡ restored (some s) = ap v own ∙ e in
            let (unowned, foreign) = cleared-Ends now runs r chain s (
              sym (ap (λ (x : Restored). is_cleared (start_restored now runs r chain x)) from)
              ∙ cleared) in
            inr (own, unowned, foreign)
      ]
    ]

specified-Kept :
    (session_id : String) (s : SavedCheckpoint) (call : Call) (v : String → Restored)
    → v session_id ≡ restored (some s)
    → Kept session_id s call (specified call v session_id)
specified-Kept session_id s (saves write id c) v e =
    by_id id session_id s (saves write id c) (v session_id) (restored (some c)) e (λ own. own)
      (valid_session_id id && replaces write)
specified-Kept session_id s (clears id) v e =
    by_id id session_id s (clears id) (v session_id) (restored none) e (λ own. own) true
specified-Kept session_id s (applies now runs r chain id) v e =
    applied-Kept now runs r chain id session_id s v e

-- A session that has a checkpoint, and does not have it any more after some calls, has lost it to one of them: to a
-- save under its id, to a clear of it, or to a request of the session that finds no other run that may still
-- execute as its owner, and whose scope (agent, identity, directory, route and node) does not agree with the
-- checkpoint's by same_scope or that, where the checkpoint does not wait for the user, brings another message.
pub perform_all-loses :
    (calls : List Call) (session_id : String) (s : SavedCheckpoint) (sessions : Sessions)
    → restore session_id sessions ≡ restored (some s)
    → restore session_id (perform_all calls sessions) ≢ restored (some s)
    → SomeEnds session_id s calls
unfolding perform_all
perform_all-loses [] session_id s sessions e lost = absurd (lost e)
perform_all-loses (call ∷ calls) session_id s sessions e lost =
    elim (specified-Kept session_id s call (view sessions) e) [
      | inr ends ↦ inl ends
      | inl kept ↦ inr (
          perform_all-loses calls session_id s (perform call sessions)
            (ap (λ (v : String → Restored). v session_id) (view-perform call sessions) ∙ kept) lost)
    ]
