-- ===== src/Pipeline/Pending.antt =====
-- engine/execution/orchestration/preparation.py: _route_pending_user_input, which routes a message to the chain that
-- waits for it.
--
-- `cancels` is _PENDING_INPUT_CANCEL_RE.match, and `pipeline_of` looks a route up in the catalogue's identity:
-- none where the catalogue has no such identity, or the identity no such route with a pipeline.
use helve.Base.{
  String, Bool, true, false, not, ◌&&◌, ◌||◌, Option, none, some, if◌then◌else◌, Text, text_eq,
  text_eq_refl, ◌≡◌, ap, arith, Bool-cases, inl, inr, str_eq,
}
use helve.RunState.Store.{Store}
use helve.Pipeline.{Chain}
use helve.Pipeline.Resume.{
  SavedCheckpoint, Request, resumes, is_given, same_scope, resume_node_still_matches,
  checkpoint_owner_still_running, apply_session_checkpoint,
}
use helve.Pipeline.Sessions.{Sessions, Restored, restored, raises, restore, clear, apply_from_file}

-- The fields of EngineRequest and RuntimeContext that are read, with the resolved working directory.
pub record Incoming : Type 0 where
  pub has_forced_skill : Bool
  pub session_id : String
  pub run_id : String
  pub agent_id : Text
  pub working_dir : Text
  pub execution_identity_id : Option Text
  pub message : Text

pub record RouteDecision : Type 0 where
  pub identity_id : Text
  pub route_id : Text
  pub pipeline : Chain

abbrev pub decided : SavedCheckpoint → Option Chain → Option RouteDecision
decided c none = none
decided c (some chain) =
    some (record { identity_id = c.identity_id; route_id = c.route_id; pipeline = chain })

abbrev pub asks_other : Option Text → Text → Bool
asks_other none identity = false
asks_other (some asked) identity = is_given asked && not (text_eq asked identity)

abbrev pub is_pending : Incoming → SavedCheckpoint → Bool
is_pending q c =
    c.checkpoint.awaiting_user_input
    && (text_eq c.agent_id q.agent_id
        && (text_eq c.working_dir q.working_dir && (is_given c.identity_id && is_given c.route_id)))

module _ (cancels : Text → Bool) (pipeline_of : Text → Text → Option Chain) where
  abbrev pub route_to : Incoming → SavedCheckpoint → Sessions → Option RouteDecision × Sessions
  route_to q c sessions =
      if not (is_pending q c)
      then (none, sessions)
      else if cancels q.message
      then (none, (clear q.session_id sessions).1)
      else if asks_other q.execution_identity_id c.identity_id
      then (none, sessions)
      else (decided c (pipeline_of c.identity_id c.route_id), sessions)

  abbrev pub route_restored : Incoming → Restored → Sessions → Option RouteDecision × Sessions
  route_restored q raises sessions = (none, sessions)
  route_restored q (restored none) sessions = (none, sessions)
  route_restored q (restored (some c)) sessions = route_to q c sessions

  -- _route_pending_user_input
  unfoldable pub route_pending_user_input : Incoming → Sessions → Option RouteDecision × Sessions
  route_pending_user_input q sessions =
      if q.has_forced_skill || str_eq q.session_id ""
      then (none, sessions)
      else route_restored q (restore q.session_id sessions) sessions

-- The context of the run that the routed message starts.
abbrev pub request_of : Incoming → RouteDecision → Request
request_of q d = record {
  run_id = q.run_id;
  agent_id = q.agent_id;
  identity_id = d.identity_id;
  working_dir = q.working_dir;
  route_id = d.route_id;
  user_message = q.message;
}

decided-some :
    (c : SavedCheckpoint) (o : Option Chain) (d : RouteDecision)
    → decided c o ≡ some d
    → (d.identity_id ≡ c.identity_id) × (d.route_id ≡ c.route_id)
decided-some c none d e = absurd (cc)
decided-some c (some chain) d e = (ground (arith, e), ground (arith, e))

module _ (cancels : Text → Bool) (pipeline_of : Text → Text → Option Chain) where
  -- A message is routed only to a checkpoint that waits for it, of the same agent and directory.
  routed :
      (q : Incoming) (c : SavedCheckpoint) (sessions after : Sessions) (d : RouteDecision)
      → route_to cancels pipeline_of q c sessions ≡ (some d, after)
      → (is_pending q c ≡ true)
        × (decided c (pipeline_of c.identity_id c.route_id) ≡ some d)
        × (after ≡ sessions)
  routed q c sessions after d e = elim (Bool-cases (is_pending q c)) [
    | inr p ↦ absurd (ground (arith, p, e))
    | inl p ↦ elim (Bool-cases (cancels q.message)) [
      | inl s ↦ absurd (ground (arith, p, s, e))
      | inr s ↦ elim (Bool-cases (asks_other q.execution_identity_id c.identity_id)) [
        | inl o ↦ absurd (ground (arith, p, s, o, e))
        | inr o ↦ (p, ground (arith, p, s, o, e), ground (arith, p, s, o, e))
      ]
    ]
  ]

  route_pending-routed :
      (q : Incoming) (c : SavedCheckpoint) (sessions after : Sessions) (d : RouteDecision)
      → restore q.session_id sessions ≡ restored (some c)
      → route_pending_user_input cancels pipeline_of q sessions ≡ (some d, after)
      → route_to cancels pipeline_of q c sessions ≡ (some d, after)
  unfolding route_pending_user_input
  route_pending-routed q c sessions after d found e =
      elim (Bool-cases (q.has_forced_skill || str_eq q.session_id "")) [
        | inl f ↦ absurd (ground (arith, f, e))
        | inr f ↦ rw found at (by_if f e)
      ]
    where
      by_if :
          (q.has_forced_skill || str_eq q.session_id "") ≡ false
          → route_pending_user_input cancels pipeline_of q sessions ≡ (some d, after)
          → route_restored cancels pipeline_of q (restore q.session_id sessions) sessions
            ≡ (some d, after)
      by_if f e = ground (arith, f, e)

  pending-same_scope :
      (q : Incoming) (c : SavedCheckpoint) (d : RouteDecision)
      → is_pending q c ≡ true
      → (d.identity_id ≡ c.identity_id) × (d.route_id ≡ c.route_id)
      → is_given q.agent_id ≡ true
      → is_given q.working_dir ≡ true
      → str_eq c.run_id "" ≡ false
      → resume_node_still_matches c.checkpoint d.pipeline ≡ true
      → same_scope (request_of q d) c d.pipeline ≡ true
  unfolding same_scope
  pending-same_scope q c d p (identity, route) agent dir named node = ground (
    arith,
    p,
    agent,
    dir,
    named,
    node,
    ap is_given identity,
    ap (text_eq c.identity_id) identity,
    text_eq_refl c.identity_id,
    ap (text_eq c.route_id) route,
    text_eq_refl c.route_id,
  )

  -- A message that is routed to the chain that waits for it resumes that chain at the node that asked, with the
  -- checkpoint left in place, where the run has an agent and a directory, the checkpoint names a run that
  -- is this one or that the run store shows not to execute, and the node is still that node of the chain.
  pub routed-resumes :
      (now : Text) (runs : Store) (q : Incoming) (c : SavedCheckpoint) (sessions after : Sessions)
      (d : RouteDecision)
      → restore q.session_id sessions ≡ restored (some c)
      → route_pending_user_input cancels pipeline_of q sessions ≡ (some d, after)
      → is_given q.agent_id ≡ true
      → is_given q.working_dir ≡ true
      → str_eq c.run_id "" ≡ false
      → checkpoint_owner_still_running now runs c.run_id q.run_id ≡ false
      → resume_node_still_matches c.checkpoint d.pipeline ≡ true
      → apply_from_file now runs (request_of q d) d.pipeline q.session_id after
        ≡ (resumes c.checkpoint.skill_chain_index c.checkpoint, sessions)
  unfolding apply_from_file apply_session_checkpoint
  routed-resumes now runs q c sessions after d found e agent dir named owner node =
      let (pending, chosen, kept) =
        routed q c sessions after d (route_pending-routed q c sessions after d found e) in
      let same =
        pending-same_scope q c d pending
          (decided-some c (pipeline_of c.identity_id c.route_id) d chosen) agent dir named node in
      let awaiting : c.checkpoint.awaiting_user_input ≡ true = ground (arith, pending) in
      rw kept (rw found (ground (arith, named, owner, awaiting, same)))
