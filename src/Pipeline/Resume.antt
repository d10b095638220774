-- ===== src/Pipeline/Resume.antt =====
-- engine/execution/orchestration/agent_loop.py: _apply_session_checkpoint, which looks at the run store for the
-- owner of a checkpoint, and the variables that run_pipeline starts with.
--
-- A request with no session or state directory has no `saved` checkpoint to look at; nor has one whose file
-- cannot be restored. `runs` is the run store, read at the time `now`.
use helve.Base.{
  ℕ, suc, subst, ◌≡◌, refl, sym, ap, ◌∙◌, ◌⊎◌, String, Bool, true, false, ◌&&◌, ◌||◌, not, Option,
  none, some, List, [], ◌∷◌, if◌then◌else◌, Text, text_eq, text_eq_sound, arith, Bool-cases, inl,
  inr, str_eq, eq_iff, get_elem?,
}
use helve.Base.Dict.{Dict, get}
use helve.RunState.{RunState, Result, ok, raised, is_live}
use helve.RunState.Store.{Store, read}
use helve.RunState.Store.Seen.{status_seen, seen}
use helve.RunState.Lifecycle.Recovery.{live_seen}
use helve.Pipeline.{Node, Chain, Checkpoint, Machine}

-- The fields of a SessionCheckpoint that tell whose it is, and chain_request and user_message of its context. An
-- index below 0, which is that of no node, is not modelled.
pub record SavedCheckpoint : Type 0 where
  pub run_id : String
  pub agent_id : Text
  pub identity_id : Text
  pub working_dir : Text
  pub route_id : Text
  pub chain_request : Option Text
  pub user_message : Option Text
  pub checkpoint : Checkpoint

pub record Request : Type 0 where
  pub run_id : String
  pub agent_id : Text
  pub identity_id : Text
  pub working_dir : Text
  pub route_id : Text
  pub user_message : Text

abbrev pub owner_is_live : Result (Option RunState) → Bool
owner_is_live (raised e) = true
owner_is_live (ok none) = false
owner_is_live (ok (some state)) = is_live state.status

-- _checkpoint_owner_still_running
unfoldable pub checkpoint_owner_still_running : Text → Store → String → String → Bool
checkpoint_owner_still_running now runs owner current =
    if str_eq owner "" || str_eq owner current then false else owner_is_live (read now owner runs)

abbrev pub names_node : String → Option Node → Bool
names_node skill none = false
names_node skill (some node) = str_eq skill "" || str_eq skill node.skill_name

-- _resume_node_still_matches
unfoldable pub resume_node_still_matches : Checkpoint → Chain → Bool
resume_node_still_matches c chain =
    names_node c.node_skill (get_elem? chain.nodes c.skill_chain_index)

abbrev pub is_given : Text → Bool
is_given [] = false
is_given (c ∷ text) = true

unfoldable pub same_scope : Request → SavedCheckpoint → Chain → Bool
same_scope r s chain =
    is_given r.agent_id
    && (is_given r.identity_id
        && (is_given r.working_dir
            && (not (str_eq s.run_id "")
                && (text_eq s.agent_id r.agent_id
                    && (text_eq s.identity_id r.identity_id
                        && (text_eq s.working_dir r.working_dir
                            && (text_eq s.route_id r.route_id
                                && resume_node_still_matches s.checkpoint chain)))))))

abbrev pub asks_again : Option Text → Option Text → Text → Bool
asks_again none none message = false
asks_again none (some asked) message = text_eq asked message
asks_again (some request) asked message = text_eq request message

-- A fresh start, after which the checkpoint is kept or cleared, or a resume at a node.
pub data Start : Type 0 where
  fresh_kept fresh_cleared : Start
  resumes : ℕ → Checkpoint → Start

abbrev pub start_from : Request → SavedCheckpoint → Chain → Start
start_from r s chain =
    if s.checkpoint.awaiting_user_input && same_scope r s chain
    then resumes s.checkpoint.skill_chain_index s.checkpoint
    else if same_scope r s chain && asks_again s.chain_request s.user_message r.user_message
    then resumes (suc s.checkpoint.skill_chain_index) s.checkpoint
    else fresh_cleared

-- _apply_session_checkpoint
unfoldable pub apply_session_checkpoint :
    Text → Store → Request → Chain → Option SavedCheckpoint → Start
apply_session_checkpoint now runs r chain none = fresh_kept
apply_session_checkpoint now runs r chain (some s) =
    if not (str_eq s.run_id "") && checkpoint_owner_still_running now runs s.run_id r.run_id
    then fresh_kept
    else start_from r s chain

abbrev pub committed : Node → ℕ → Option Text → Dict ℕ → Dict ℕ
committed node index none rest = rest
committed node index (some text) rest = (node.skill_name, index) ∷ rest

-- committed_output_index as run_pipeline builds it, over the nodes from an index on.
unfoldable pub rebuilt : Dict Text → ℕ → List Node → Dict ℕ
rebuilt outputs i [] = []
rebuilt outputs i (node ∷ nodes) =
    committed node i (get node.skill_name outputs) (rebuilt outputs (suc i) nodes)

-- The variables of run_pipeline for a resumed chain. A retry_hint of the saved context, which the first round
-- drops, is left out.
unfoldable pub resumed_machine : Chain → ℕ → Checkpoint → Dict ℕ → Machine
resumed_machine chain index c attempts = record {
  node_idx = index;
  backtrack_count = 0;
  serial = 0;
  context = record { outputs = c.outputs; retry_hint = none };
  committed_output_index = rebuilt c.outputs 0 chain.nodes;
  committed_provisional_output = c.provisional_outputs;
  fallback_reasons = [];
  attempts = attempts;
  checkpoint = some c;
  events = [];
}

owner-live :
    (now : Text) (owner : String) (runs : Store)
    → owner_is_live (read now owner runs) ≡ false
    → live_seen (status_seen now owner runs) ≡ false
unfolding status_seen
owner-live now owner runs h = by_result (read now owner runs) h
  where
    by_result :
        (r : Result (Option RunState)) → owner_is_live r ≡ false → live_seen (seen r) ≡ false
    by_result (raised e) k = refl
    by_result (ok none) k = refl
    by_result (ok (some s)) k = k

-- A pause goes on at its node with any message, and a crash behind its node with the same request only.
abbrev pub GoesOn : Request → SavedCheckpoint → ℕ → Checkpoint → Type 0
GoesOn r s index c =
    ((c.awaiting_user_input ≡ true) × (index ≡ c.skill_chain_index))
    ⊎ ((c.awaiting_user_input ≡ false)
        × (asks_again s.chain_request s.user_message r.user_message ≡ true)
        × (index ≡ suc c.skill_chain_index))

start_from-resumes :
    (r : Request) (s : SavedCheckpoint) (chain : Chain) (index : ℕ) (c : Checkpoint)
    → start_from r s chain ≡ resumes index c
    → (c ≡ s.checkpoint) × (same_scope r s chain ≡ true) × GoesOn r s index s.checkpoint
start_from-resumes r s chain index c e = elim (Bool-cases (same_scope r s chain)) [
  | inr h ↦ absurd (ground (arith, h, e))
  | inl h ↦ elim (Bool-cases s.checkpoint.awaiting_user_input) [
    | inl a ↦ (ground (arith, h, a, e), h, inl (a, ground (arith, h, a, e)))
    | inr a ↦ elim (Bool-cases (asks_again s.chain_request s.user_message r.user_message)) [
      | inl b ↦ (ground (arith, h, a, b, e), h, inr (a, b, ground (arith, h, a, b, e)))
      | inr b ↦ absurd (ground (arith, h, a, b, e))
    ]
  ]
]

-- The request has the checkpoint's agent, identity, directory and route.
abbrev pub SameScope : Request → SavedCheckpoint → Type 0
SameScope r s =
    (s.agent_id ≡ r.agent_id)
    × (s.identity_id ≡ r.identity_id)
    × (s.working_dir ≡ r.working_dir)
    × (s.route_id ≡ r.route_id)

same_scope-SameScope :
    (r : Request) (s : SavedCheckpoint) (chain : Chain)
    → same_scope r s chain ≡ true
    → SameScope r s × (resume_node_still_matches s.checkpoint chain ≡ true)
unfolding same_scope
same_scope-SameScope r s chain h = (
  (
    text_eq_sound s.agent_id r.agent_id (ground (arith, h)),
    text_eq_sound s.identity_id r.identity_id (ground (arith, h)),
    text_eq_sound s.working_dir r.working_dir (ground (arith, h)),
    text_eq_sound s.route_id r.route_id (ground (arith, h)),
  ),
  ground (arith, h),
)

owner-not_live :
    (now : Text) (runs : Store) (owner current : String)
    → (not (str_eq owner "") && checkpoint_owner_still_running now runs owner current) ≡ false
    → str_eq owner "" ≡ false
    → (owner ≡ current) ⊎ (live_seen (status_seen now owner runs) ≡ false)
unfolding checkpoint_owner_still_running
owner-not_live now runs owner current h named = elim (Bool-cases (str_eq owner current)) [
  | inl e ↦ inl (ground (arith, e, eq_iff owner current))
  | inr e ↦ inr (owner-live now owner runs (ground (arith, h, named, e)))
]

-- What a chain is resumed from.
abbrev pub Resumable : Text → Store → Request → Chain → ℕ → Checkpoint → SavedCheckpoint → Type 0
Resumable now runs r chain index c s =
    (c ≡ s.checkpoint)
    × SameScope r s
    × ((s.run_id ≡ r.run_id) ⊎ (live_seen (status_seen now s.run_id runs) ≡ false))
    × (resume_node_still_matches c chain ≡ true)
    × GoesOn r s index c

-- A chain is resumed only from the session's own checkpoint, of the same agent, identity, directory and route,
-- whose node is still that node of the chain, and which this run wrote or one that the run store does not
-- show queued, running or waiting for an approval; one that awaits the user goes on at that node, any other
-- at the next node, and only for the same message.
pub apply_session_checkpoint-Resumable :
    (now : Text) (runs : Store) (r : Request) (chain : Chain) (saved : Option SavedCheckpoint)
    (index : ℕ) (c : Checkpoint)
    → apply_session_checkpoint now runs r chain saved ≡ resumes index c
    → (s : SavedCheckpoint) × (saved ≡ some s) × Resumable now runs r chain index c s
unfolding apply_session_checkpoint
apply_session_checkpoint-Resumable now runs r chain none index c e = absurd (cc)
apply_session_checkpoint-Resumable now runs r chain (some s) index c e =
    elim (Bool-cases
      (not (str_eq s.run_id "") && checkpoint_owner_still_running now runs s.run_id r.run_id)) [
        | inl h ↦ absurd (ground (arith, h, e))
        | inr h ↦
            let (same, scope, at) = start_from-resumes r s chain index c (ground (arith, h, e)) in
            let (fields, matches) = same_scope-SameScope r s chain scope in
            let named : str_eq s.run_id "" ≡ false = unfold same_scope in ground (arith, scope) in
            (
              s,
              refl,
              (
                same,
                fields,
                owner-not_live now runs s.run_id r.run_id h named,
                ap (λ (x : Checkpoint). resume_node_still_matches x chain) same ∙ matches,
                subst (GoesOn r s index) (sym same) at,
              ),
            )
      ]
