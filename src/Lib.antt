-- ===== src/Lib.antt =====
-- Cogeto keeps a user's memories: facts extracted from notes, chats, mail and files, each with a
-- status, a scope and a validity interval. This library models the parts of project/src that decide
-- what becomes of a memory and who may see it, and the machinery that runs consequential effects.
--
-- The parts and their files:
-- - Shared: project/shared/src/memory.ts, approvals.ts, principal.ts: statuses, scopes, principals.
-- - Db: the tables of project/src/memory/persistence/tables.ts and project/src/agents/persistence/
--   tables.ts as lists of rows, the payload copies of vector-store.ts, audit.ts and outbox.ts, and
--   the monad of computations that may throw. `World` is the whole state: tables, index, clock, next
--   uuid, and the coming answers of the index. A transaction that throws restores the tables, and
--   leaves the index, which takes no part in it, as the body left it. Db/Outcome has the rules by
--   which a postcondition of a computation is proved statement by statement.
-- - Memory/Transition, Policy: project/src/memory/domain/transition.ts, reconcile-policy.ts,
--   interval.ts: `checkTransition` is `check_transition`, `chooseSurvivor` is `choose_survivor`,
--   `intervalHoldsAt` is `interval_holds_at`, and so on.
-- - Memory/Facts, Store, Store/Supersede, Store/Bulk: the writes of project/src/memory/
--   memory.store.ts, a function for each method under the method's name in snake case. A method
--   that opens a transaction is `transaction` of the function that runs in one, as in the code.
-- - Memory/Reconciliation, Reconciliation/Resolve: project/src/memory/reconciliation.ts.
-- - Memory/Machine: the abstract machine that the writes refine: the moves of a row, the steps of
--   the tables, well-formedness. Store/Paths, Store/EditPaths, Reconciliation/MergePaths, Paths and
--   ResolvePaths show that each operation, when it returns, is a path of the machine.
-- - Memory/Command: the writes of the store and of the reconciliation as commands, and sequences of
--   them. The deletion of a source is not a command: see Memory/Deletion.
-- - Memory/Visibility: the gates, filters and gated reads of memory.store.ts, and the filter of the
--   vector index, project/src/memory/persistence/vector-store.ts.
-- - Memory/ReceiptChain: project/src/memory/domain/receipt-chain.ts.
-- - Memory/Deletion: project/src/memory/deletion-saga.ts. Saga has `previewSourceDeletion` and
--   `requestSourceDeletion`, Executor `DeletionExecutor`. Ports and Cascades have what the saga calls
--   in other modules: the deletion adapters of project/src/connectors, project/src/retrieval/chat and
--   project/src/tasks, the pipeline's guard, and the cascades over tasks, answers and drafts. Erasure
--   and the modules below Executor hold the proofs, by stage; Runs has sequences of requests and of
--   deliveries of the executor's job, Erased the way from a request to its confirmed receipt.
-- - Memory/Sweep: project/src/memory/integrity-sweep.ts: `run` is `run_sweep`; Arms, Objects and
--   Payloads have its arms. Residue is about the check of a receipt; Pages, Healing and Rounds show
--   that the payload check reaches and mends every row, and Mirrors says what a mended copy is.
-- - Agents: project/src/agents: the approval machine, the registry with its two actions, the
--   service and the executor, and sequences of approval operations. An approved bulk change runs
--   Memory/Store/Bulk; nothing else of the memory module is reached from an approval. Steps has what
--   the statements of a decision and an execution write, Effects what the actions do, and Execution
--   what both amount to; Store/BulkSpec says what the bulk change promises.
-- - Infrastructure: project/src/infrastructure/queue.ts, rate-limit.ts, daily-counters.ts and
--   model-budget.ts. Gateway has the budget decorator project/src/model-gateway/budgeted.gateway.ts:
--   `complete` waits for the wrapped gateway, so it is the two steps `begin_complete` and
--   `end_complete`, and a run is any sequence of such steps of any calls.
-- - Ingestion/Chunk: project/src/ingestion/pipeline/chunk.ts, `chunkContent` on lists of code units.
-- - Tasks: project/src/tasks: `gateForeignTasks` of task-visibility.ts, which reads memories through
--   Memory/Visibility, and derivation-rule.ts.
-- - Tests: concrete states, runs and instances.
--
-- A deletion meets the other parts in its transaction: it lifts contradictions by Memory/
-- Reconciliation/Resolve, redacts approvals of Agents and tasks of Tasks, and enqueues the job that
-- Executor runs later against the vector index and the object store.
--
-- Conventions. A uuid is a natural number, and a fresh one is the next that is unused; a timestamp
-- is a number of milliseconds, and a statement reads the clock of its `World`. A nullable column
-- is an `Option`. Status multipliers are in tenths. Audit details are constructors, one for each
-- shape that the code writes; texts of messages, logging and reasons that are never stored are
-- left out. Deleting a memory that another names in `superseded_by` is refused, as migration 0001
-- has it, and takes the memory's relations with it, as migration 0011 has it. Row locks are left
-- out: each operation on the database runs alone, so to wait for a pipeline run is to find none in
-- flight. A chat message is the ids that it cites, or the marker that replaced it; a stored
-- `counts_json` that is not of the saga's shape is `none`. Two alerts are one where the unique
-- index of migration 0010 has them equal, by kind, receipt and what the text says. The batches of
-- 500 keys in which the sweep looks up owners are left out. The rows of a `SELECT` without an
-- order come in the order of the list.
--
-- Bounds. `get_chain` follows 50 hops each way, as the code does. The other loops run along a list
-- or, in `verify_chain`, as often as the log is long. `chunk_loop` may run as many rounds as the text
-- has units, which is enough, since each round but the last starts further on. `redact_batches` may
-- run as many rounds as there are ids, which is enough, since a batch takes 100.
-- `reconcile_payloads` may run as many rounds as there are rows, and one, which is enough, since
-- fewer rows are due after each page; a page has 500 rows, as in the code.
--
-- Parameters. When an object was modified is a parameter of the sweep. The trigram operator of the
-- database is a parameter of the filters; the scores that a vector search finds where it succeeds
-- are a parameter of `point_in_time`, and whether it succeeds is read from the `World`; the hash of
-- a receipt's canonical payload and the signature check are parameters of the receipt chain, and
-- with the signature of the executor; the job's handler and what a rollback leaves are parameters of
-- the queue; the answers of the wrapped model gateway are events of the budget's run.
--
-- Not modelled: the status and the list of alerts of the sweep, retrieval and ranking, the
-- ingestion pipeline but for its chunks and its guard, the task engine, connectors but for their
-- deletion adapters, the passport, model adapters, entrypoints and the web application.
pub mod Base
pub mod Shared
pub mod Db
pub mod Memory
pub mod Agents
pub mod Infrastructure
pub mod Ingestion
pub mod Tasks
pub mod Tests
