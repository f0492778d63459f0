-- ===== src/Executor/Restart.antt =====
-- The startup pass keeps every task at one attempt: `reconcile` of crates/favetto/src/executor.rs.
use favetto.Common.{
  ◌≡◌, refl, arith, List, [], ◌∷◌, false, Bool-cases, inl, inr, All, All-mono, count_where_zero,
}
use favetto.Model.Status.{FailureKind, failure_new}
use favetto.Model.Task.{Uuid, Time, Task, TaskRun}
use favetto.Store.Schema.{Db}
use favetto.Store.Tasks.{
  list_active_tasks, list_pending_tasks, fail_stale_task, retry_stale_task, fail_pending_task,
}
use favetto.Store.Runs.{list_active_task_runs, interrupt_run}
use favetto.Store.Live.{Idle, Step, open_of}
use favetto.Store.Keeps.{Keeps, Keeps-trans, Keeps-tables, Keeps-Step, Keeps-interrupt_run}
use favetto.Catalog.Def.{TaskDef}
use favetto.Executor.State.{State, StaleRunPolicy}
use favetto.Executor.Reconcile.{
  interrupted, interrupted_error, interrupt_runs, settle_stale, settle_tasks, is_known,
  unknown_error, invalidate_tasks, reconcile_db, reconcile,
}
use favetto.Executor.Settle.{Closed, interrupted-Closed}
use favetto.Executor.Safe.{Keeping}

Keeps-same : (d : Db) → Keeps d d
Keeps-same d = Keeps-tables d d refl refl

interrupt_runs-Keeps : (now : Time) (l : List TaskRun) (d : Db) → Keeps d (interrupt_runs now l d).0
unfolding interrupt_runs
interrupt_runs-Keeps now [] d = Keeps-same d
interrupt_runs-Keeps now (r ∷ l) d =
    Keeps-trans (Keeps-interrupt_run now r.id interrupted_error interrupted d)
      (interrupt_runs-Keeps now l (interrupt_run now r.id interrupted_error interrupted d).0)

-- no task has an attempt in flight
Closed-Idle : (id : Uuid) (d : Db) → All Closed d.runs → Idle id d
Closed-Idle id d h =
    count_where_zero (open_of id) d.runs
      (All-mono Closed (λ u. open_of id u ≡ false) d.runs (λ u k. ground (arith, k)) h)

settle_stale-Keeps :
    (policy : StaleRunPolicy) (now : Time) (id : Uuid) (d : Db)
    → All Closed d.runs
    → Keeps d (settle_stale policy now id d).0 × All Closed (settle_stale policy now id d).0.runs
unfolding settle_stale fail_stale_task retry_stale_task
settle_stale-Keeps StaleRunPolicy.fail now id d h =
    (Keeps-Step (Step.fail_stale now id interrupted_error interrupted) refl, h)
settle_stale-Keeps StaleRunPolicy.retry now id d h =
    (Keeps-Step (Step.retry_stale id (Closed-Idle id d h)) refl, h)

settle_tasks-Keeps :
    (policy : StaleRunPolicy) (now : Time) (l : List Task) (d : Db)
    → All Closed d.runs
    → Keeps d (settle_tasks policy now l d).0
unfolding settle_tasks
settle_tasks-Keeps policy now [] d h = Keeps-same d
settle_tasks-Keeps policy now (t ∷ l) d h =
    let (k, closed) = settle_stale-Keeps policy now t.id d h in
    Keeps-trans k (settle_tasks-Keeps policy now l (settle_stale policy now t.id d).0 closed)

invalidate_tasks-Keeps :
    (catalog : List TaskDef) (now : Time) (l : List Task) (d : Db)
    → Keeps d (invalidate_tasks catalog now l d).0
unfolding invalidate_tasks fail_pending_task
invalidate_tasks-Keeps catalog now [] d = Keeps-same d
invalidate_tasks-Keeps catalog now (t ∷ l) d = elim (Bool-cases (is_known catalog t.name)) [
  | inl e ↦ rw e (invalidate_tasks-Keeps catalog now l d)
  | inr e ↦ rw e (
      Keeps-trans
        (Keeps-Step
          (Step.fail_pending now t.id (unknown_error t.name)
            (failure_new FailureKind.invalid_input (unknown_error t.name)))
          refl)
        (invalidate_tasks-Keeps catalog now l _))
]

-- The startup pass, under either policy, keeps every task at one attempt, opens no attempt, and
-- gives no drawn id back.
pub reconcile-Keeping : (s : State) → Keeping s (reconcile s).0
unfolding reconcile reconcile_db
reconcile-Keeping s =
    let d₁ : Db = (interrupt_runs s.now (list_active_task_runs s.db) s.db).0 in
    let d₂ : Db = (settle_tasks s.stale_run s.now (list_active_tasks d₁) d₁).0 in
    (
      Keeps-trans (interrupt_runs-Keeps s.now (list_active_task_runs s.db) s.db) (
          Keeps-trans
            (settle_tasks-Keeps s.stale_run s.now (list_active_tasks d₁) d₁
              (interrupted-Closed s.now s.db))
            (invalidate_tasks-Keeps s.catalog s.now (list_pending_tasks d₂) d₂)),
      omega arith,
    )
