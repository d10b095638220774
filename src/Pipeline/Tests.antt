-- ===== src/Pipeline/Tests.antt =====
-- A chain of two nodes whose second gate never passes.
use helve.Base.{
  ℕ, ◌≡◌, refl, String, true, false, Option, none, some, [], ◌∷◌, if◌then◌else◌, ◌==◌, Text, codes,
  length,
}
use helve.Base.Dict.{get, put, remove}
use helve.Pipeline.{
  Context, Node, Chain, Checkpoint, passes, fails, answers, no_hint, hint, text_delta, raw_response,
  Asked, World, Machine, Ending, gives_up, Stage, goes_on, returned, crashed, outer,
  coerce_gate_result,
}
use helve.Pipeline.Guard.{record_failure}
use helve.Pipeline.Pause.{ends_with_user_question, rstrip, strip, without, is_budget_message}
use helve.Pipeline.Collect.{collected, streamed}
use helve.Pipeline.Loop.Parts.{remove_all, evict_outputs_at_or_after}
use helve.Pipeline.Loop.{
  run, step, finish, attempt_node, take_result, judge, check_base, check_node, escalate,
  switch_back, check_base_gates,
}
use helve.Pipeline.Settled.{scan, SettledStage, Settled}
use helve.Pipeline.Rank.Run.{Ended}
use helve.Pipeline.Outputs.Evicted.{TrackedStage, TrackedMachine}
use helve.Pipeline.Outputs.{run-Tracked}
use helve.Pipeline.Topology.{run_pipeline, is_valid_topology, fuel_for}
use helve.RunState.Store.{Store, valid_run_id, read}
use helve.Pipeline.Resume.{
  SavedCheckpoint, Request, Resumable, resumes, same_scope, resume_node_still_matches,
  resumed_machine, checkpoint_owner_still_running, apply_session_checkpoint,
  apply_session_checkpoint-Resumable,
}
use helve.Pipeline.Saved.Checkpoints.{left_by}
use helve.Pipeline.Resumed.{resumed_run-Tracked}
use helve.Pipeline.Terminates.{run_pipeline-Ended, run_pipeline-Settled}

abbrev plain : String → Node
plain name = record {
  skill_name = name;
  condition = none;
  has_allowed_tools = false;
  await_user_input_marker = [];
  infer_await_user_input_from_question = false;
}

abbrev plan_and_code : Chain
plan_and_code = record {
  nodes = plain "plan" ∷ plain "code" ∷ [];
  base_gates = 0;
  backtrack_map = ("code", "plan") ∷ [];
}

-- Each execution streams a text; the gate of "plan" passes it, that of "code" does not.
abbrev world : World
world = record {
  execute = λ (p : ℕ) (a : Asked). record {
    stream =
        raw_response (some (codes a.node.skill_name)) ∷ text_delta (codes a.node.skill_name) ∷ [];
    ends = true;
  };
  base_check =
      λ (p i : ℕ) (t : Text) (c : Context). answers true (some passes) (some []) no_hint false;
  node_check = λ (p : ℕ) (t : Text) (c : Context).
      answers false
        (if length t == 4 then (if p == 0 then some passes else some fails) else some fails)
        (some []) (hint (codes "again")) false;
  is_installed = λ (s : String). true;
  is_disabled = λ (s : String). false;
  can_scope = true;
  persists = true;
  saves = λ (p : ℕ). true;
}

abbrev begin : Machine
begin = record {
  node_idx = 0;
  backtrack_count = 0;
  serial = 0;
  context = record { outputs = []; retry_hint = none };
  committed_output_index = [];
  committed_provisional_output = [];
  fallback_reasons = [];
  attempts = [];
  checkpoint = none;
  events = [];
}

abbrev whole_run : Stage
whole_run = run world plan_and_code (fuel_for 2) (goes_on outer begin)

runs_valid : run_pipeline world plan_and_code begin ≡ some whole_run
unfolding run_pipeline is_valid_topology
runs_valid = refl

run_pipeline-Ended_example : Ended whole_run
run_pipeline-Ended_example = run_pipeline-Ended world plan_and_code begin whole_run runs_valid

nothing_streamed : Settled begin
unfolding scan
nothing_streamed = refl

run_pipeline-Settled_example : SettledStage whole_run
run_pipeline-Settled_example =
    run_pipeline-Settled world plan_and_code begin whole_run nothing_streamed runs_valid

nothing_committed : TrackedMachine plan_and_code begin
unfolding get
nothing_committed skill text e = absurd (cc)

run-Tracked_example : TrackedStage plan_and_code (run world plan_and_code 3 (goes_on outer begin))
run-Tracked_example = run-Tracked world plan_and_code 3 (goes_on outer begin) nothing_committed

abbrev ending_of : Stage → Option (Ending × ℕ)
ending_of (goes_on point m) = none
ending_of (returned ending m) = some (ending, m.serial)
ending_of (crashed m) = none

-- "plan" passes once. "code" fails, is retried and goes back to "plan", which then fails until the guard blocks.
blocked_run : ending_of whole_run ≡ some (gives_up, 7)
unfolding run step finish attempt_node take_result judge check_base check_node escalate switch_back
    check_base_gates record_failure ends_with_user_question rstrip strip without is_budget_message
    collected streamed remove_all evict_outputs_at_or_after coerce_gate_result get put remove
blocked_run = refl

abbrev after_plan : Checkpoint
after_plan = record {
  skill_chain_index = 0;
  node_skill = "plan";
  outputs = ("plan", codes "plan") ∷ [];
  awaiting_user_input = false;
  provisional_outputs = [];
}

abbrev crashed_run : SavedCheckpoint
crashed_run = record {
  run_id = "r1";
  agent_id = codes "smith";
  identity_id = codes "me";
  working_dir = codes "work";
  route_id = codes "build";
  chain_request = none;
  user_message = some (codes "go");
  checkpoint = after_plan;
}

abbrev same_request : Request
same_request = record {
  run_id = "r2";
  agent_id = codes "smith";
  identity_id = codes "me";
  working_dir = codes "work";
  route_id = codes "build";
  user_message = codes "go";
}

abbrev no_runs : Store
no_runs = record { files = []; deferred = [] }

crash_resumes :
    apply_session_checkpoint [] no_runs same_request plan_and_code (some crashed_run)
    ≡ resumes 1 after_plan
unfolding apply_session_checkpoint same_scope resume_node_still_matches
    checkpoint_owner_still_running read valid_run_id get
crash_resumes = refl

apply_session_checkpoint-Resumable_example :
    (s : SavedCheckpoint) × (some crashed_run ≡ some s)
    × Resumable [] no_runs same_request plan_and_code 1 after_plan s
apply_session_checkpoint-Resumable_example =
    apply_session_checkpoint-Resumable [] no_runs same_request plan_and_code (some crashed_run) 1
      after_plan crash_resumes

-- The chain is cut off behind "plan", in its second step.
abbrev left_behind : Checkpoint
left_behind = record after_plan { provisional_outputs = ("plan", true) ∷ [] }

cut_off : left_by (run world plan_and_code 2 (goes_on outer begin)) ≡ some left_behind
unfolding run step attempt_node take_result judge check_base check_node check_base_gates
    ends_with_user_question rstrip strip without is_budget_message collected streamed
    coerce_gate_result get put remove
cut_off = refl

plan_and_code_valid : is_valid_topology plan_and_code ≡ true
unfolding is_valid_topology
plan_and_code_valid = refl

cut_off_resumes :
    apply_session_checkpoint [] no_runs same_request plan_and_code
      (some (record crashed_run { checkpoint = left_behind }))
    ≡ resumes 1 left_behind
unfolding apply_session_checkpoint same_scope resume_node_still_matches
    checkpoint_owner_still_running read valid_run_id get
cut_off_resumes = refl

resumed_run-Tracked_example :
    TrackedStage plan_and_code
      (run world plan_and_code 4 (goes_on outer (resumed_machine plan_and_code 1 left_behind [])))
resumed_run-Tracked_example =
    resumed_run-Tracked world world plan_and_code 2 4 (goes_on outer begin) [] no_runs same_request
      (record crashed_run { checkpoint = left_behind }) 1 left_behind [] plan_and_code_valid
      nothing_committed tt cut_off refl cut_off_resumes
