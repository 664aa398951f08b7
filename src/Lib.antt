-- ===== src/Lib.antt =====
-- dsh-dag-orchestrator runs graphs of tasks: a planner submits a spec, and ticks of an engine start the
-- tasks whose upstream tasks are done, harvest their attempts and retry, block or cancel what follows.
--
-- The parts that are modelled, and how they meet:
--
-- States: the states of a task, which the store and the evaluator share (lib/types.js, lib/dag-store.js).
-- Json: JavaScript values and their texts, `canonicalJson` of lib/dag-store.js and `JSON.stringify`.
-- Store: lib/dag-store.js. One record for each of the six tables; a method is a function from the
--   tables to a result and the tables after it. `casTaskState` is `cas_task_state`, `tx` is `tx`, and
--   so on, by the name of the method. The tables are lists of rows in the order of insertion, a query's
--   ORDER BY is a stable sort, and a key is what the INSERT refuses.
-- Ready: lib/ready-evaluator.js. `evaluateReady` is `evaluate_ready`; the seams that its options carry
--   are functions in a record.
-- Queue: lib/bounded-queue.js, the order of dispatch of one tick.
-- Admission: lib/admission.js, the slots of each run and the session keys of the process.
-- TerminalCommit: lib/terminal-commit.js. `commitTerminalAndRelease` is `commit_terminal_and_release`, its
--   transaction and what it tells the caller `land`.
-- Recovery: lib/recovery.js. `recoverNeverDispatched` and `recoverOrphaned` under the same names, and
--   `reconcile` (Reconcile), which they are parts of.
-- Spec: lib/spec-validate.js. `validateSpec` and `specHash` are in Validate, `validateSemantics` in
--   Semantics with its checks in Tasks, Inputs and Kinds, `upstreamClosure` in Closure, `detectCycle` in
--   Cycle, and `mapZodIssues` in Issues. What the schema of zod makes of a spec is a parameter.
-- VerifyGate: lib/verify-gate.js; the reader of outputs is a parameter, where one is wired.
-- Engine: of lib/engine.js the steps `finalizeRunIfDone`, `drainToPaused`, `reconcileApprovals`
--   (Approvals), `propagateDownstream` (Failures), `shouldRetry` (Retry), `control` (Control) and `planRun` (Plan), with
--   `isSoftBlocked` and `failureTypeToPolicyKey`.
-- Prelude: tests, lists, a stable insertion sort, text order and integers.
--
-- The engine (lib/engine.js) reads a snapshot of the store, has the evaluator list the ready tasks,
-- puts these into the queue, and asks the admission for a slot before it claims each of them in the
-- store.
--
-- Choices of the model. A text is compared by its code points, which on the basic plane is the order of
-- the language. A number inside a JSON value is its printed text. Counters, times and versions are
-- natural numbers: the code keeps them safe integers, and no bound of that kind is stated. The hash
-- function of node:crypto is a parameter, and random ids and the clock are arguments of the methods that
-- read them. What `JSON.parse` makes of a text is a parameter. An array of the language may lack an
-- element, which is a `hole` here; `JSON.stringify` is followed where it returns, and where a value from
-- outside may hold a bigint the exception is asked for first. All functions are total without fuel but
-- the printing of a number in decimal, where the number and one more bounds the count of its digits, the
-- closure, which is given a round for each edge, and the search for cycles, whose calls nest at most as
-- deep as there are tasks. A map of the language is a list of entries with the latest in front.
--
-- Not modelled: the sqlite file, its pragmas, ownership marks and migrations; the other steps of the
-- engine, the executors, the schemas of a spec (lib/spec-validate.js) and
-- lib/critical-path.js; the tools, the plugin entry and the user interface.
mod Prelude
pub mod States
pub mod Json
pub mod Queue
pub mod Ready
pub mod Store
pub mod Admission
pub mod TerminalCommit
pub mod Recovery
pub mod Spec
pub mod Engine
pub mod VerifyGate
