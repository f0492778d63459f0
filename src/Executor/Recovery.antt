-- ===== src/Executor/Recovery.antt =====
-- The startup pass leaves nothing in flight, and a second one changes nothing: `reconcile` of
-- crates/favetto/src/executor.rs.
use favetto.Common.{
  ◌≡◌, refl, List, [], ◌∷◌, Bool, true, false, All, All-mono, All-order_by, All-select_where,
  select_where, order_by,
}
use favetto.Model.Task.{Time, Task, summary}
use favetto.Store.Schema.{TaskRow, Db, is_active, is_pending, run_is_open}
use favetto.Store.Tasks.{summaries, list_active_tasks, list_pending_tasks}
use favetto.Store.Runs.{list_active_task_runs}
use favetto.Catalog.Def.{TaskDef}
use favetto.Executor.State.{StaleRunPolicy}
use favetto.Executor.Reconcile.{
  ReconcileReport, failed_count, retried_count, interrupt_runs, settle_tasks, is_known,
  invalidate_tasks, reconcile_db,
}
use favetto.Executor.Settle.{
  Closed, Settled, Known, Quiet, GoneListed, interrupted-Closed, tasks-Listed, settle_tasks-Settled,
  settle_tasks-runs, invalidate_tasks-Quiet, invalidate_tasks-runs, pending-GoneListed,
}

-- no attempt is in flight, no task is active, and each pending task has a definition
abbrev pub Recovered : List TaskDef → Db → Type 0
Recovered catalog d = All Closed d.runs × All (Quiet catalog) d.tasks

All-both :
    {A : Type 0} (P Q : A → Type 0) (xs : List A) → All P xs → All Q xs → All (λ x. P x × Q x) xs
All-both P Q [] h k = tt
All-both P Q (x ∷ xs) h k = ((h.0, k.0), All-both P Q xs h.1 k.1)

-- After the startup pass no attempt is in flight, no task is active, and each pending task has a
-- definition in the catalog, whatever the database held before, and under either policy.
pub reconcile_db-Recovered :
    (policy : StaleRunPolicy) (catalog : List TaskDef) (now : Time) (d : Db)
    → Recovered catalog (reconcile_db policy catalog now d).0
unfolding reconcile_db list_active_tasks
reconcile_db-Recovered policy catalog now d =
    let d₁ : Db = (interrupt_runs now (list_active_task_runs d) d).0 in
    let d₂ : Db = (settle_tasks policy now (list_active_tasks d₁) d₁).0 in
    let l : List Task = list_pending_tasks d₂ in
    (
      rw
          (
            invalidate_tasks-runs catalog now l d₂,
            settle_tasks-runs policy now (list_active_tasks d₁) d₁,
          )
          (interrupted-Closed now d),
      invalidate_tasks-Quiet catalog now l d₂ (
          All-both Settled (GoneListed catalog l) d₂.tasks
            (settle_tasks-Settled policy now (list_active_tasks d₁) d₁
              (tasks-Listed is_active d₁.tasks))
            (pending-GoneListed catalog d₂)),
    )

select_where_none :
    {A : Type 0} (p : A → Bool) (xs : List A) → All (λ x. p x ≡ false) xs → select_where p xs ≡ []
select_where_none p [] h = refl
select_where_none p (x ∷ xs) h = rw h.0 (select_where_none p xs h.1)

All-summaries :
    (P : Task → Type 0) (rows : List TaskRow)
    → All (λ r. P (summary r.task)) rows
    → All P (summaries rows)
All-summaries P [] h = tt
All-summaries P (r ∷ rows) h = (h.0, All-summaries P rows h.1)

abbrev HasDef : List TaskDef → Task → Type 0
HasDef catalog t = is_known catalog t.name ≡ true

pending-HasDef :
    (catalog : List TaskDef) (d : Db)
    → All (Known catalog) d.tasks
    → All (HasDef catalog) (list_pending_tasks d)
unfolding list_pending_tasks summary
pending-HasDef catalog d h =
    let found : List TaskRow = select_where (λ r. is_pending r.status) d.tasks in
    let known : TaskRow → Type 0 = λ r. is_known catalog r.name ≡ true in
    All-summaries (HasDef catalog) (order_by (λ r. r.created_at) found) (
      All-order_by known (λ r. r.created_at) found
        (All-mono _ known found (λ r k. k.1 k.0)
          (All-select_where (Known catalog) (λ r. is_pending r.status) d.tasks h)))

invalidate_known :
    (catalog : List TaskDef) (now : Time) (l : List Task) (d : Db)
    → All (HasDef catalog) l
    → invalidate_tasks catalog now l d ≡ (d, 0)
unfolding invalidate_tasks
invalidate_known catalog now [] d h = refl
invalidate_known catalog now (t ∷ l) d h = rw h.0 (invalidate_known catalog now l d h.1)

abbrev pub no_report : ReconcileReport
no_report = record {
  runs_interrupted = 0;
  tasks_failed = 0;
  tasks_retried = 0;
  tasks_invalidated = 0;
}

no_active_runs : (d : Db) → All Closed d.runs → list_active_task_runs d ≡ []
unfolding list_active_task_runs order_by
no_active_runs d h = rw (select_where_none (λ r. run_is_open r.status) d.runs h) refl

no_active_tasks : (d : Db) → All Settled d.tasks → list_active_tasks d ≡ []
unfolding list_active_tasks order_by
no_active_tasks d h = rw (select_where_none (λ r. is_active r.status) d.tasks h) refl

abbrev report : StaleRunPolicy → ReconcileReport
report p = record {
  runs_interrupted = 0;
  tasks_failed = failed_count p 0;
  tasks_retried = retried_count p 0;
  tasks_invalidated = 0;
}

-- A startup pass over such a database changes nothing and reports nothing.
reconcile_db-nothing :
    (policy : StaleRunPolicy) (catalog : List TaskDef) (now : Time) (d : Db)
    → Recovered catalog d
    → reconcile_db policy catalog now d ≡ (d, no_report)
unfolding reconcile_db interrupt_runs settle_tasks
reconcile_db-nothing policy catalog now d h =
    let runs = no_active_runs d h.0 in
    let active = no_active_tasks d (All-mono (Quiet catalog) Settled d.tasks (λ r k. k.0) h.1) in
    let known = invalidate_known catalog now (list_pending_tasks d) d (
      pending-HasDef catalog d
        (All-mono (Quiet catalog) (Known catalog) d.tasks (λ r k. k.1) h.1)) in
    rw runs (
      rw active (
        rw known (elim policy as (λ p. (d, report p) ≡ (d, no_report)) [
          | StaleRunPolicy.fail ↦ refl
          | StaleRunPolicy.retry ↦ refl
        ])))

-- A second startup pass, at any later time and under any policy, changes nothing and reports
-- nothing, if the catalog is the same.
pub reconcile_db_twice :
    (policy later_policy : StaleRunPolicy) (catalog : List TaskDef) (now later : Time) (d : Db)
    → let d' = (reconcile_db policy catalog now d).0 in
      reconcile_db later_policy catalog later d' ≡ (d', no_report)
reconcile_db_twice policy later_policy catalog now later d =
    reconcile_db-nothing later_policy catalog later (reconcile_db policy catalog now d).0
      (reconcile_db-Recovered policy catalog now d)
