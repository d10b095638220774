-- ===== src/Pipeline/SessionTests.antt =====
-- A session whose chain waits for an answer.
use helve.Base.{
  ◌≡◌, ◌≢◌, refl, Bool, true, false, Option, none, some, List, [], ◌∷◌, Text, codes, arith,
}
use helve.Base.Dict.{get, remove}
use helve.RunState.Store.{Store, not_utf8 as broken_file, valid_run_id, read, done}
use helve.Pipeline.{Node, Chain}
use helve.Pipeline.Resume.{
  SavedCheckpoint, Request, resumes, same_scope, apply_session_checkpoint,
  resume_node_still_matches, checkpoint_owner_still_running,
}
use helve.Pipeline.Sessions.{
  Sessions, holds, not_utf8, restored, valid_session_id, restore, list_from, list_active,
  apply_from_file, clear,
}
use helve.Pipeline.Sessions.View.{
  Call, saves, clears, applies, perform_all, view, specified_all, perform_all-view,
}
use helve.Pipeline.Sessions.Kept.{SomeEnds, perform_all-loses}
use helve.Pipeline.Pending.{
  Incoming, RouteDecision, request_of, route_pending_user_input, routed-resumes,
}

abbrev asking : Node
asking = record {
  skill_name = "plan";
  condition = none;
  has_allowed_tools = false;
  await_user_input_marker = codes "ASK";
  infer_await_user_input_from_question = false;
}

abbrev chain : Chain
chain = record { nodes = asking ∷ []; base_gates = 0; backtrack_map = [] }

abbrev paused : SavedCheckpoint
paused = record {
  run_id = "r1";
  agent_id = codes "smith";
  identity_id = codes "me";
  working_dir = codes "work";
  route_id = codes "build";
  chain_request = none;
  user_message = some (codes "go");
  checkpoint = record {
    skill_chain_index = 0;
    node_skill = "plan";
    outputs = ("plan", codes "which?") ∷ [];
    awaiting_user_input = true;
    provisional_outputs = [];
  };
}

abbrev one_session : Sessions
one_session = ("s1", holds paused) ∷ []

abbrev answer : Incoming
answer = record {
  has_forced_skill = false;
  session_id = "s1";
  run_id = "r2";
  agent_id = codes "smith";
  working_dir = codes "work";
  execution_identity_id = none;
  message = codes "this one";
}

abbrev never : Text → Bool
never message = false

abbrev catalogue : Text → Text → Option Chain
catalogue identity route = some chain

abbrev decision : RouteDecision
decision = record { identity_id = codes "me"; route_id = codes "build"; pipeline = chain }

abbrev no_runs : Store
no_runs = record { files = []; deferred = [] }

abbrev torn_run : Store
torn_run = record { files = ("r1", broken_file) ∷ []; deferred = [] }

restores : restore "s1" one_session ≡ restored (some paused)
unfolding restore valid_session_id get
restores = refl

-- One file that is no UTF-8 stops the listing of every session.
lists_none : list_active (("s1", holds paused) ∷ ("s2", not_utf8) ∷ []) ≡ none
unfolding list_active list_from restore valid_session_id get
lists_none = refl

abbrev two_calls : List Call
two_calls = saves done "s2" paused ∷ clears "s1" ∷ []

perform_all-view_example :
    view (perform_all two_calls one_session) ≡ specified_all two_calls (view one_session)
perform_all-view_example = perform_all-view two_calls one_session

-- While its run may still execute, the checkpoint outlives a request of another agent; later it does not.
abbrev stranger : Request
stranger = request_of (record answer { agent_id = codes "other" }) decision

abbrev kept_once : List Call
kept_once = applies [] torn_run stranger chain "s1" ∷ clears "s2" ∷ []

still_there : restore "s1" (perform_all kept_once one_session) ≡ restored (some paused)
unfolding perform_all apply_from_file apply_session_checkpoint checkpoint_owner_still_running read
    valid_run_id restore valid_session_id clear get remove
still_there = refl

abbrev lost_calls : List Call
lost_calls =
    applies [] torn_run stranger chain "s1"
    ∷ clears "s2"
    ∷ applies [] no_runs stranger chain "s1"
    ∷ []

gone : restore "s1" (perform_all lost_calls one_session) ≡ restored none
unfolding perform_all apply_from_file apply_session_checkpoint checkpoint_owner_still_running read
    valid_run_id restore valid_session_id clear get remove same_scope
gone = refl

not_there : restore "s1" (perform_all lost_calls one_session) ≢ restored (some paused)
not_there e = ground (arith, gone, e)

perform_all-loses_example : SomeEnds "s1" paused lost_calls
perform_all-loses_example = perform_all-loses lost_calls "s1" paused one_session restores not_there

routes : route_pending_user_input never catalogue answer one_session ≡ (some decision, one_session)
unfolding route_pending_user_input restore valid_session_id get
routes = refl

owner_gone : checkpoint_owner_still_running [] no_runs "r1" "r2" ≡ false
unfolding checkpoint_owner_still_running read valid_run_id get
owner_gone = refl

node_matches : resume_node_still_matches paused.checkpoint chain ≡ true
unfolding resume_node_still_matches
node_matches = refl

routed-resumes_example :
    apply_from_file [] no_runs (request_of answer decision) chain "s1" one_session
    ≡ (resumes 0 paused.checkpoint, one_session)
routed-resumes_example =
    routed-resumes never catalogue [] no_runs answer paused one_session one_session decision
      restores routes refl refl refl owner_gone node_matches
