-- ===== src/Executor/Reconcile.antt =====
-- The startup pass over what a previous daemon left: `reconcile` of
-- crates/favetto/src/executor.rs, and the status writes of crates/favetto/src/attention.rs.
use favetto.Common.{
  ℕ, ◌+◌, Bool, true, false, Text, codes, text_eq, List, [], ◌∷◌, ◌++◌, any, if◌then◌else◌, none,
  some,
}
use favetto.Model.Status.{TaskStatus, FailureKind, Failure, failure_new}
use favetto.Model.Task.{Uuid, Time, Task, TaskRun}
use favetto.Store.Schema.{Db}
use favetto.Store.Tasks.{
  get_task, list_active_tasks, list_pending_tasks, fail_stale_task, retry_stale_task,
  fail_pending_task, set_task_status_if,
}
use favetto.Store.Runs.{list_active_task_runs, interrupt_run}
use favetto.Catalog.Def.{TaskDef}
use favetto.Executor.State.{State, StaleRunPolicy, with_db, publish_task}

pub record ReconcileReport : Type 0 where
  pub runs_interrupted : ℕ
  pub tasks_failed : ℕ
  pub tasks_retried : ℕ
  pub tasks_invalidated : ℕ

abbrev pub interrupted_error : Text
interrupted_error = codes "interrupted by daemon restart"

abbrev pub interrupted : Failure
interrupted = failure_new FailureKind.infrastructure interrupted_error

-- one more if the statement changed a row
abbrev pub count_if : Bool → ℕ → ℕ
count_if b n = if b then n + 1 else n

-- the loop over the runs in flight
unfoldable pub interrupt_runs : Time → List TaskRun → Db → Db × ℕ
interrupt_runs now [] d = (d, 0)
interrupt_runs now (r ∷ rs) d =
    let (d', changed) = interrupt_run now r.id interrupted_error interrupted d in
    let (d'', n) = interrupt_runs now rs d' in (d'', count_if changed n)

-- the statement for one stale task
unfoldable pub settle_stale : StaleRunPolicy → Time → Uuid → Db → Db × Bool
settle_stale StaleRunPolicy.fail now id = fail_stale_task now id interrupted_error interrupted
settle_stale StaleRunPolicy.retry now id = retry_stale_task id

-- the loop over the active tasks
unfoldable pub settle_tasks : StaleRunPolicy → Time → List Task → Db → Db × ℕ
unfolding settle_stale
settle_tasks policy now [] d = (d, 0)
settle_tasks policy now (t ∷ ts) d =
    let (d', changed) = settle_stale policy now t.id d in
    let (d'', n) = settle_tasks policy now ts d' in (d'', count_if changed n)

abbrev pub is_known : List TaskDef → Text → Bool
is_known catalog name = any (λ def. text_eq def.name name) catalog

abbrev pub unknown_error : Text → Text
unknown_error name = codes "task '" ++ name ++ codes "' not found in the catalog"

-- the loop over the pending tasks
unfoldable pub invalidate_tasks : List TaskDef → Time → List Task → Db → Db × ℕ
invalidate_tasks catalog now [] d = (d, 0)
invalidate_tasks catalog now (t ∷ ts) d =
    let error = unknown_error t.name in
    let (d', changed) =
      fail_pending_task now t.id error (failure_new FailureKind.invalid_input error) d in
    let (d'', n) = invalidate_tasks catalog now ts d' in
    let (e, m) = invalidate_tasks catalog now ts d in
    if is_known catalog t.name then (e, m) else (d'', count_if changed n)

-- the counter that a policy adds to
abbrev pub failed_count : StaleRunPolicy → ℕ → ℕ
failed_count StaleRunPolicy.fail n = n
failed_count StaleRunPolicy.retry n = 0

abbrev pub retried_count : StaleRunPolicy → ℕ → ℕ
retried_count StaleRunPolicy.fail n = 0
retried_count StaleRunPolicy.retry n = n

-- the three loops; each reads its list from the database that the one before it leaves
unfoldable pub reconcile_db : StaleRunPolicy → List TaskDef → Time → Db → Db × ReconcileReport
unfolding interrupt_runs settle_tasks invalidate_tasks
reconcile_db policy catalog now d =
    let (d₁, runs) = interrupt_runs now (list_active_task_runs d) d in
    let (d₂, settled) = settle_tasks policy now (list_active_tasks d₁) d₁ in
    let (d₃, invalidated) = invalidate_tasks catalog now (list_pending_tasks d₂) d₂ in
    (
      d₃,
      record {
        runs_interrupted = runs;
        tasks_failed = failed_count policy settled;
        tasks_retried = retried_count policy settled;
        tasks_invalidated = invalidated;
      },
    )

unfoldable pub reconcile : State → State × ReconcileReport
unfolding reconcile_db
reconcile s =
    let (d, report) = reconcile_db s.stale_run s.catalog s.now s.db in (with_db d s, report)

-- `reconcile_task` of the attention watcher
abbrev pub awaiting_edge : Bool → TaskStatus × TaskStatus
awaiting_edge true = (TaskStatus.awaiting_input, TaskStatus.running)
awaiting_edge false = (TaskStatus.running, TaskStatus.awaiting_input)

unfoldable pub reconcile_task : Uuid → Bool → State → State × Bool
reconcile_task id awaiting s =
    let (to, from) = awaiting_edge awaiting in
    let (d, changed) = set_task_status_if id to from s.db in
    let s' = with_db d s in
    let pushed : State = elim (get_task id d) [ some t ↦ publish_task t s' | none ↦ s' ] in
    if changed then (pushed, true) else (s, false)
