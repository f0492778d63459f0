-- ===== src/Lib.antt =====
-- A model of the daemon of favetto, which queues tasks, runs each in an attempt by an agent or an
-- action, retries what fails, and starts what depends on what has finished.
--
-- The parts and how they interact. The server and the hooks put tasks in the queue, a table of a
-- SQLite database. The dispatcher of the executor claims a pending task in one transaction, which
-- inserts the row of the attempt, and runs it. At the end of the attempt the executor writes the
-- outcome with a compare-and-set, closes the row of the attempt, and either puts the task back in
-- the queue or stores and publishes its terminal events. A finished task starts the tasks that
-- need it, one fan-in for each workflow root, and the tasks that its manifest names. The server
-- retries and cancels tasks meanwhile, the attention watcher moves a task between running and
-- awaiting input, and the startup pass settles what a previous daemon left.
--
-- Common: texts as lists of code points, tables as lists of rows, results of fallible checks.
-- Model: crates/favetto-wire/src/model.rs. Status (TaskStatus, RunStatus, FailureKind, Failure),
--   EventKind (the event_kinds! table), Task (Task, TaskRun, Event, JSON values), Prompt and
--   Agent (what an agent waits for and reports, with crates/favetto-wire/src/agent_state.rs), Codec.
-- Retry: RetrySettings, should_retry, backoff_delay of crates/favetto-core/src/config.rs.
-- Store: crates/favetto/src/db.rs. Schema, Tasks, Runs, Queue and Prune have one function for each
--   statement, under its name there. Lifecycle, Dispatch, Live,
--   Keeps, Newest and Retention are about them.
-- Catalog: crates/favetto-core/src/tasks.rs and crates/favetto-wire/src/task_var.rs. Def, Needs and
--   Validate are the definitions and checks, Repos the names and references of a repository, Graph
--   is crates/favetto-core/src/workflow.rs. Dependencies, Headers, Qualified, Resolved, Names and
--   Reorder are about them.
-- Executor: crates/favetto/src/executor.rs. State (with crates/favetto/src/state.rs and
--   crates/favetto/src/event_bus.rs), Enqueue, Outcome, Run (run_one as start_run and
--   complete_run, one round of dispatch_loop as dispatch), Join, Dependents, Reconcile (with
--   reconcile_task of crates/favetto/src/attention.rs), Truncate, Envelope, Worktrees
--   (select_prunable) and Branch are its functions, mostly under their names there. Safe, Starts,
--   Started, Attempts, Claims, Settle, Recovery, Restart, Barrier, Resubmit, Reclaim, Suffix, Bounds
--   and Shape are about them.
-- Server: retry_task, cancel_task and cancel_workflow of crates/favetto/src/server.rs in Tasks, the
--   stores of crates/favetto/src/ticket.rs and crates/favetto/src/pair.rs in Credentials. Guards,
--   Cancels and SingleUse are about them.
-- Workflow: workflow.create and workflow.spawn of crates/favetto/src/server.rs. Spec
--   (validate_create_dag) and Create (create_workflow, spawn_workflow) are its functions. Order is
--   the reference, an order in which the tasks can run; Counts, Links, Drain, Visits, Accept,
--   Progress and Answers are about them.
-- Events: Stream is EventBus::resumable of crates/favetto/src/event_bus.rs and App::ingest_event of
--   crates/favetto-tui/src/tui/app/mod.rs; Numbers, Emissions, Ingest and Delivery are about them.
-- Attention: crates/favetto/src/attention.rs. Debouncer and Watch (watch_inner as the list of its
--   polls) are its functions. Waiting describes the debouncer by the polls alone; Writes, Moves,
--   Loop, Rests and Mirrors are about the loop.
-- Tui: crates/favetto-tui/src/tui/text_buffer.rs. TextBuffer has its methods, on byte offsets.
--   Zipper and Edits are the abstract view, a text cut in two at the caret; Graphemes, Words,
--   Lines, Columns, Cuts, Steps and Refines relate the two.
-- Examples: concrete databases, states, workflows and texts.
--
-- Conventions. An id is a number, a time the milliseconds since the epoch, and the clock stands
-- still while one operation runs. Counters of attempts stay below 2 ^ 32 and are not wrapped; the
-- product of the backoff saturates at 2 ^ 64 - 1, as in the source. The loops follow their lists,
-- except for these. The search for a character boundary has the distance to the end of the text
-- as fuel, the digits of a number have 20, which is enough for 64 bits. The search for a cycle in a
-- submitted workflow has one round for each task and one more, the loops over words have one for
-- each byte of the text; that this is enough is part of the theorems.
--
-- What other crates give is a parameter: the ids of Uuid::new_v4 by the order in which they are
-- drawn, the text of a UUID, the text and the parsing of a JSON value, the text of a token, the
-- graphemes of a text, and the order in which a hash map yields its keys. What
-- the agents, the actions, the file system and the worktree setup give is an argument of the
-- function that uses it. Database calls succeed. A slice of a text that the source would panic on is
-- `none` in the byte caps of the executor.
--
-- An operation runs without another write between its own, except that a cancellation may come
-- between the claim of an attempt and its end. The statements by themselves are taken in any
-- order. Not modelled: the setup of worktrees and the git commands, the agents and actions, the slots and
-- directory locks of the dispatcher, the polling for session titles, the order of the keys of a
-- JSON object, the other tables, the transport, the drawing and the keys of the
-- terminal client, and the web client.
pub mod Common
pub mod Model
pub mod Retry
pub mod Store
pub mod Catalog
pub mod Executor
pub mod Server
pub mod Workflow
pub mod Events
pub mod Tui
pub mod Attention
pub mod Examples
