-- ===== src/Lib.antt =====
-- Helve: a local agent workbench. The Python engine prepares model requests, checks and approves
-- tool calls, runs them and records what happened.
--
-- - Ledger: engine/tool/ledger.py. The SQLite table is a list of rows that all processes share;
--   `begin` and `finish` are the methods of ToolExecutionLedger, each one transaction. Ledger/Rows
--   says what they do to one row, Ledger/Trace follows any interleaving of them, Ledger/Replay what
--   a caller gets after a finished execution. Ledger/Keys is idempotency_key_for, with the two dicts of a
--   ledger object, Ledger/Repeat the keys of a resumed run. `redact`, a parameter, is `_redact_secret_text`.
-- - Approval: engine/safety/approval.py, class ApprovalBroker. Objects that the dict and a waiting
--   frame share stand in a store. Approval/World runs the broker among its callers: a history is a
--   list of events, each of which runs between two awaits. Approval/Standing follows one decision
--   through such a history.
-- - Risk: engine/safety/risk.py. Policy: engine/safety/tool_policy.py, which asks the checkers in
--   order and combines their answers; their state is passed along. Policy/Answers looks at the answers
--   one by one, Policy/Verdict at what they make of a call.
-- - Context: engine/context/budget.py (Context/Budget, Context/Tokens) and
--   engine/context/compression.py (Context/Conversation, Context/Prune, Context/Trim). The binary
--   search of the trim runs on fuel, one round more than the history has characters, which
--   Context/Trim/Search shows to be enough. `serialized` is json.dumps. A message is a record of
--   what this code reads of its dict. The fractions 0.10 and 0.85 are integer quotients, which on
--   every window the code can reach, up to 128000, are what the floats give.
-- - Context/Fitting: engine/context/fitting.py, fit_request as the chain of its stages, each a function
--   of the candidate and of the actions so far. `summarize` is summarize_session, which asks a model.
-- - React/Cap: trim_conversation_to_message_cap of engine/execution/react/budget.py. Its loops over
--   an index recur on the rounds they have left, the distance to the bound the code tests; they use
--   active_turn_bounds and is_request_turn from Context/Conversation.
-- - HashChain: common/hash_chain.py. HashChain is verify_chain as a walk over the lines of a log,
--   HashChain/Log the class HashChainLog with its cached head and the files on disk. `canonical_json`,
--   `sha256_hex` and the `size` of a file are parameters. A log opens its file for each append, as that of
--   engine/observability/trace_store.py does, and its write can fail in each way that the code foresees;
--   the handle that the audit sink of engine/safety/tool_guard.py keeps (keep_handle=True) is modelled only
--   where its writes succeed, since its buffer is not. Lines that are no UTF-8 are not represented. HashChain/Tamper says what an anchor
--   detects (over HashChain/Linked), HashChain/Extend and HashChain/Append what one append does,
--   HashChain/History lets several writers append in any order, HashChain/Legacy and
--   HashChain/Edits are about logs older than the chain, HashChain/Seal about the anchor.
-- - RunState: engine/execution/orchestration/run_state.py. RunState has the statuses, their table and
--   the two operations on one state, RunState/Stored its JSON object, RunState/Store the files and the
--   buffer of deferred events, RunState/Changes what each method makes of the state that it reads,
--   RunState/Operations the methods of RunStateStore, RunState/Project project_execution_event. The time
--   and what becomes of each write are arguments. RunState/Lifecycle follows the status of a run through
--   any history of operations, RunState/Progress the count of its events.
-- - Pipeline: engine/execution/pipeline/pipeline.py, with the guard of backtrack.py (Pipeline/Guard) and
--   coerce_gate_result of gate.py. Pipeline/Loop is run_pipeline as steps of its two loops over the parts in
--   Pipeline/Loop/Parts, Pipeline/Collect _collect_node_events, Pipeline/Pause the texts of a pause,
--   Pipeline/Topology the check of the chain. A world, an argument, answers for models, tools, gates, the
--   registry and the checkpoint's file, by the number of the execution. Pipeline/Rank is a measure that every
--   step lowers, which gives the fuel; Pipeline/Settled reads the events, Pipeline/Outputs follows the context.
--   Pipeline/Resume is _apply_session_checkpoint of engine/execution/orchestration/agent_loop.py, which reads
--   RunState's store, and the variables that a resumed chain starts with; Pipeline/Saved follows the checkpoint
--   through a run, Pipeline/Resumed joins the two. Pipeline/Sessions is SessionStateManager of
--   engine/execution/pipeline/checkpoint.py, with Pipeline/Sessions/View and Pipeline/Sessions/Kept on what its
--   files show after any calls, Pipeline/Pending _route_pending_user_input of
--   engine/execution/orchestration/preparation.py, over the same files.
-- - FactGate: engine/safety/fact_gate.py, the gate of one turn; FactGate/Rounds follows its rounds and calls.
--   FactGate/Shell is _is_read_only_shell over the tokens of shlex, FactGate/Segment, FactGate/Git and
--   FactGate/Sed judge one command, FactGate/Passed says which commands pass.
-- - SessionPool: engine/mcp/session_pool.py, with what each connect gives as an argument.
--
-- Base holds the shared names: lists measured by native numbers, dicts as association lists in
-- insertion order, texts as lists of code points.
--
-- Not modelled: the loop of model calls (engine/execution/react/react_loop.py), the tool registry, the
-- hooks and sub-agents, the adapters of models and of MCP, prompt assembly, the memory's files and the
-- server, which are asynchronous wiring, protocols, files and text; the rules of the tool guard (regular
-- expressions and the file system); the argument summaries and presentations of approvals (text for the user).
pub mod Base
pub mod Ledger
pub mod Risk
pub mod Approval
pub mod Policy
pub mod Context
pub mod React
pub mod HashChain
pub mod RunState
pub mod Pipeline
pub mod FactGate
pub mod SessionPool
