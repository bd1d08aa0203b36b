-- ===== src/Lib.antt =====
-- Sky-Claw, an agent that manages the mods of a Skyrim installation: the parts of it that decide
-- what runs, when, and on which files.
--
-- The agent's tools are called through middlewares. The approval gate (HitlGate) asks an
-- operator before a destructive tool runs, and a guard (HitlGuard) before an action outside the
-- agent's scope; the idempotency middleware (Middleware) admits one call per tool and payload,
-- with the tasks of the state machine (ToolTask) as its record. The agent's own calls pass the
-- loop guardrail (LoopGuardrail), its tokens the circuit breaker (TokenBreaker) and the budget
-- of the context window (TokenBudget). A pipeline that changes files takes a lease on its
-- resource and snapshots of the files (Locks, Locks.Transaction). A FOMOD installer's choices
-- are resolved into files (Fomod), and the conflicts between plugins are grouped for the user
-- (Conflicts). Requests leave through a gateway with a list of hosts (Gateway) and a resolver
-- that pins checked addresses (Gateway.Resolver). Those for mod metadata pass a breaker of their
-- own (FetchBreaker). Events go over a bus (EventBus), and those whose handler failed wait in a
-- queue for a retry (Dlq). The supervisor's workflow is a graph of states (StateGraph), which
-- asks the loop guardrail before it calls a tool. Operations on files are recorded in a journal
-- (Journal) with snapshots of the files (Snapshots), from which the last operation of an agent
-- is undone. The sync engine (SyncEngine) wraps an operation on a file in a transaction of that
-- journal, updates mods with the approval of the guard, and passes the mods of a profile's list
-- (Modlist), whose names are tested components of a path (Paths), through a queue of batches.
-- Files that a user approved are on a signed whitelist (Governance).
--
-- Which file models what, with the paths from the root of the repository:
--   ToolTask: sky_claw/antigravity/orchestrator/tool_state_machine.py, `IdempotencyGuard` and
--     `ToolStateMachine`, each method under its name. Its children: Transitions has the diagram,
--     Cleanup what `cleanup_terminal` removes, Lifecycle the history of a task, Idempotency the
--     guard's keys.
--   Middleware: sky_claw/antigravity/orchestrator/tool_strategies/middleware.py,
--     `IdempotencyMiddleware`: `begin_call` is `__call__` up to the wait for the tool, `end_call`
--     the rest. Calls interleave in any order at their waits.
--   HitlGate: `HitlGateMiddleware` of the same file: `open_gate` and `close_gate` are `__call__`
--     before and after the wait for the operator, `resolve` is the operator's answer.
--   HitlGuard: sky_claw/antigravity/security/hitl.py, `HITLGuard`: `open_request` and `close_request`
--     are `request_approval` before and after its wait, `respond` is the operator's answer.
--   Gateway: sky_claw/antigravity/security/network_gateway.py, `NetworkGateway`: `authorize`;
--     Gateway.Requests is its `request`, Gateway.Resolver the `SafeResolver`. The record `Library`
--     has what they take from `urllib`, `ipaddress` and `re`, of which nothing is assumed; the allow
--     list, a set, is a list in the order of its iteration.
--   LoopGuardrail: sky_claw/antigravity/security/loop_guardrail.py, `AgenticLoopGuardrail`.
--   TokenBreaker: sky_claw/antigravity/agent/token_circuit_breaker.py, `TokenCircuitBreaker`.
--   TokenBudget: sky_claw/antigravity/agent/token_budget.py, `TokenBudgetManager`.
--   Locks: sky_claw/antigravity/db/locks.py, `DistributedLockManager`, with the SQL statements as
--     functions on the table; Locks.Transaction is `SnapshotTransactionLock`, whose children have
--     its lease, its snapshots and its rollback.
--   FetchBreaker: sky_claw/antigravity/scraper/masterlist.py, `_CircuitBreaker`.
--   Fomod: sky_claw/local/fomod/resolver.py, and Fomod.Models sky_claw/local/fomod/models.py.
--   Dlq: sky_claw/antigravity/core/dlq_manager.py, `DLQManager`.
--   Conflicts: sky_claw/local/xedit/conflict_analyzer.py, `ConflictAnalyzer`, from the parsed
--     conflicts on.
--   EventBus: sky_claw/antigravity/core/event_bus.py, `CoreEventBus`; `dispatch_loop` is one round of
--     its loop. Dispatch has the split of an event's deliveries, Limits the bounds, Restart a stop
--     and a start.
--   Snapshots: sky_claw/antigravity/db/snapshot_manager.py, `FileSnapshotManager`.
--   Journal: sky_claw/antigravity/db/journal.py, `OperationJournal`; Journal.Undo is
--     `get_last_operation` and `undo_last_operation` of sky_claw/antigravity/db/rollback_manager.py.
--   StateGraph: sky_claw/antigravity/orchestrator/state_graph.py. Nodes, Edges, Callbacks, Fallback,
--     Threads and History have its functions under their names; Graph has a run: in each round the
--     world acts on the state, then the node, then the edge out of it.
--   SyncEngine: sky_claw/antigravity/orchestrator/sync_engine.py, `execute_file_operation`, with the
--     undo of Journal.Undo; Updates is `_check_and_update_mod`, in the parts between which other
--     updates run, and the report of `check_for_updates`; Pipeline is `run` as steps of its producer
--     and its workers in any order.
--   Modlist: sky_claw/local/mo2/vfs.py, the operations of `MO2Controller` on `modlist.txt`. Names and
--     Entries have what a line says, Edits what a changed line says, the others the operations.
--   Paths: `assert_safe_component` of sky_claw/antigravity/security/path_validator.py.
--   Governance: sky_claw/antigravity/security/governance.py, `GovernanceManager`; Crashes has the
--     write of the whitelist step by step, Verdicts the answer for a file.
--   Text has the methods of Python's `str` that are used on a text, its code points: `strip`, lines.
--   Prelude, Dict, Result and Hashing are shared: tests on numbers and texts, lists over native
--     numbers, Python's `dict`, a value or an exception, and what is used of `json` and `hashlib`.
--   Tests holds the theorems at concrete inputs.
--
-- State is passed explicitly. Clocks are arguments, in the unit of the source. An exception is a
-- value; a cancellation (`asyncio.CancelledError`) is an ending of its own, since `except
-- Exception` does not catch it. `json.dumps` and `sha256` are the fields of the record
-- `Hashing`, of which nothing is assumed; the digests and sizes of snapshots are the record
-- `Snapshots.Codec`, and the texts and signatures of a whitelist the record `Governance.Codec`.
-- The lock of a transaction takes the snapshot manager as a record of operations, which
-- Locks.Transaction.Files fills; the names of the snapshots of one entry are a function of the
-- path. The retry loop of `acquire_lock` runs over the list of its `max_retries` attempts, so
-- that no fuel is needed; every other loop runs over a list, and a run of the workflow over the
-- list of its rounds.
--
-- Not modelled: the containment of paths in the sandbox, the classification of addresses, the
-- scrapers, the xEdit runner and patches, and the orchestrator's daemons; and the language models,
-- messaging, web and desktop interfaces, which are I/O. In the parts that are modelled, log lines,
-- connections and background tasks are left out, as are the time limits of the sync engine's queue;
-- and a threshold of the token budget is compared exactly where the source compares floats.
mod Prelude
pub mod Dict
pub mod Hashing
pub mod Result
pub mod ToolTask
pub mod Middleware
pub mod LoopGuardrail
pub mod TokenBreaker
pub mod TokenBudget
pub mod HitlGate
pub mod Locks
pub mod FetchBreaker
pub mod Fomod
pub mod Dlq
pub mod StateGraph
pub mod Snapshots
pub mod Journal
pub mod EventBus
pub mod Gateway
pub mod Conflicts
pub mod HitlGuard
pub mod SyncEngine
pub mod Governance
pub mod Paths
pub mod Modlist
pub mod Text
mod Tests
