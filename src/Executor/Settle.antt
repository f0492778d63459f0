-- ===== src/Executor/Settle.antt =====
-- What each of the three loops of `reconcile` in crates/favetto/src/executor.rs leaves behind.
use favetto.Common.{
  ◌≡◌, ◌==◌, ==_refl, refl, sym, ap, ◌∙◌, arith, List, [], ◌∷◌, Bool, true, false, not, ◌&&◌, ◌||◌,
  Bool-cases, inl, inr, any, All, All-mono, All-update_where, select_where, order_by,
  select_where-Listed, any-order_by,
}
use favetto.Model.Status.{TaskStatus, failure_new, FailureKind}
use favetto.Model.Task.{Uuid, Time, Task, TaskRun, summary}
use favetto.Store.Schema.{TaskRow, Db, is_active, is_pending, run_is_open}
use favetto.Store.Tasks.{
  summaries, list_pending_tasks, where_status, fail_row, retry_row, fail_stale_task,
  retry_stale_task, fail_pending_task,
}
use favetto.Store.Runs.{list_active_task_runs, started_key, interrupt_run, interrupt_row, open_run}
use favetto.Catalog.Def.{TaskDef}
use favetto.Executor.State.{StaleRunPolicy}
use favetto.Executor.Reconcile.{
  interrupted, interrupted_error, interrupt_runs, settle_stale, settle_tasks, is_known,
  unknown_error, invalidate_tasks,
}

-- the loop over the runs in flight

abbrev pub RunListed : List TaskRun → TaskRun → Type 0
RunListed l u = run_is_open u.status ≡ true → any (λ r. r.id == u.id) l ≡ true

pub interrupt_runs-tables :
    (now : Time) (l : List TaskRun) (d : Db) → (interrupt_runs now l d).0.tasks ≡ d.tasks
unfolding interrupt_runs interrupt_run
interrupt_runs-tables now [] d = refl
interrupt_runs-tables now (r ∷ l) d =
    interrupt_runs-tables now l (interrupt_run now r.id interrupted_error interrupted d).0

abbrev pub Closed : TaskRun → Type 0
Closed u = run_is_open u.status ≡ false

interrupt_runs-Closed :
    (now : Time) (l : List TaskRun) (d : Db)
    → All (RunListed l) d.runs
    → All Closed (interrupt_runs now l d).0.runs
unfolding interrupt_runs interrupt_run
interrupt_runs-Closed now [] d h =
    All-mono (RunListed []) Closed d.runs (λ u k. ground (arith, k)) h
interrupt_runs-Closed now (r ∷ l) d h =
    interrupt_runs-Closed now l (interrupt_run now r.id interrupted_error interrupted d).0 (
      All-update_where (RunListed (r ∷ l)) (RunListed l) (open_run r.id)
        (interrupt_row now interrupted_error interrupted) d.runs (λ u k e. ground (arith, k)) h)

active_runs-Listed : (d : Db) → All (RunListed (list_active_task_runs d)) d.runs
unfolding list_active_task_runs
active_runs-Listed d =
    All-mono _ (RunListed (list_active_task_runs d)) d.runs
      (λ u k e.
        any-order_by (λ r. r.id == u.id) started_key
          (select_where (λ r. run_is_open r.status) d.runs)
        ∙ k e)
      (select_where-Listed (λ u. run_is_open u.status) (λ u r. r.id == u.id) (λ u. ==_refl u.id)
        d.runs)

pub interrupted-Closed :
    (now : Time) (d : Db) → All Closed (interrupt_runs now (list_active_task_runs d) d).0.runs
interrupted-Closed now d =
    interrupt_runs-Closed now (list_active_task_runs d) d (active_runs-Listed d)

-- the loop over the active tasks

abbrev pub TaskListed : (TaskStatus → Bool) → List Task → TaskRow → Type 0
TaskListed p l r = p r.status ≡ true → any (λ t. t.id == r.id) l ≡ true

any-summaries :
    (id : Uuid) (rows : List TaskRow)
    → any (λ t. t.id == id) (summaries rows) ≡ any (λ r. r.id == id) rows
unfolding summary
any-summaries id [] = refl
any-summaries id (r ∷ rows) = ap (λ b. r.id == id || b) (any-summaries id rows)

-- every row in a state is in the list of the tasks in that state
pub tasks-Listed :
    (p : TaskStatus → Bool) (rows : List TaskRow)
    → All
        (TaskListed p
          (summaries (order_by (λ r. r.created_at) (select_where (λ r. p r.status) rows))))
        rows
tasks-Listed p rows =
    let found : List TaskRow = select_where (λ r. p r.status) rows in
    All-mono _ (TaskListed p (summaries (order_by (λ r. r.created_at) found))) rows
      (λ r k e.
        any-summaries r.id (order_by (λ r. r.created_at) found)
        ∙ any-order_by (λ x. x.id == r.id) (λ r. r.created_at) found
        ∙ k e)
      (select_where-Listed (λ r. p r.status) (λ r x. x.id == r.id) (λ r. ==_refl r.id) rows)

abbrev pub Settled : TaskRow → Type 0
Settled r = is_active r.status ≡ false

settle_stale-runs :
    (policy : StaleRunPolicy) (now : Time) (id : Uuid) (d : Db)
    → (settle_stale policy now id d).0.runs ≡ d.runs
unfolding settle_stale fail_stale_task retry_stale_task
settle_stale-runs StaleRunPolicy.fail now id d = refl
settle_stale-runs StaleRunPolicy.retry now id d = refl

settle_stale-Listed :
    (policy : StaleRunPolicy) (now : Time) (t : Task) (l : List Task) (d : Db)
    → All (TaskListed is_active (t ∷ l)) d.tasks
    → All (TaskListed is_active l) (settle_stale policy now t.id d).0.tasks
unfolding settle_stale fail_stale_task retry_stale_task
settle_stale-Listed StaleRunPolicy.fail now t l d h =
    All-update_where (TaskListed is_active (t ∷ l)) (TaskListed is_active l)
      (where_status t.id is_active) (fail_row now interrupted_error interrupted) d.tasks
      (λ r k e. ground (arith, k)) h
settle_stale-Listed StaleRunPolicy.retry now t l d h =
    All-update_where (TaskListed is_active (t ∷ l)) (TaskListed is_active l)
      (where_status t.id is_active) retry_row d.tasks (λ r k e. ground (arith, k)) h

pub settle_tasks-Settled :
    (policy : StaleRunPolicy) (now : Time) (l : List Task) (d : Db)
    → All (TaskListed is_active l) d.tasks
    → All Settled (settle_tasks policy now l d).0.tasks
unfolding settle_tasks
settle_tasks-Settled policy now [] d h =
    All-mono (TaskListed is_active []) Settled d.tasks (λ r k. ground (arith, k)) h
settle_tasks-Settled policy now (t ∷ l) d h =
    settle_tasks-Settled policy now l (settle_stale policy now t.id d).0
      (settle_stale-Listed policy now t l d h)

pub settle_tasks-runs :
    (policy : StaleRunPolicy) (now : Time) (l : List Task) (d : Db)
    → (settle_tasks policy now l d).0.runs ≡ d.runs
unfolding settle_tasks
settle_tasks-runs policy now [] d = refl
settle_tasks-runs policy now (t ∷ l) d =
    settle_tasks-runs policy now l (settle_stale policy now t.id d).0
    ∙ settle_stale-runs policy now t.id d

-- the loop over the pending tasks

-- a pending row whose definition is gone is among the listed tasks, under its name
abbrev pub GoneListed : List TaskDef → List Task → TaskRow → Type 0
GoneListed catalog l r =
    is_pending r.status ≡ true
    → is_known catalog r.name ≡ false
    → any (λ t. t.id == r.id && not (is_known catalog t.name)) l ≡ true

abbrev pub Known : List TaskDef → TaskRow → Type 0
Known catalog r = is_pending r.status ≡ true → is_known catalog r.name ≡ true

abbrev pub Quiet : List TaskDef → TaskRow → Type 0
Quiet catalog r = Settled r × Known catalog r

invalidate_one-Listed :
    (catalog : List TaskDef) (now : Time) (t : Task) (l : List Task) (d : Db)
    → All (λ r. Settled r × GoneListed catalog (t ∷ l) r) d.tasks
    → All
        (λ r. Settled r × GoneListed catalog l r)
        (fail_pending_task now t.id
          (unknown_error t.name)
          (failure_new FailureKind.invalid_input (unknown_error t.name))
          d).0.tasks
unfolding fail_pending_task
invalidate_one-Listed catalog now t l d h =
    All-update_where (λ r. Settled r × GoneListed catalog (t ∷ l) r)
      (λ r. Settled r × GoneListed catalog l r) (where_status t.id is_pending)
      (fail_row now (unknown_error t.name)
        (failure_new FailureKind.invalid_input (unknown_error t.name)))
      d.tasks (λ r k. (ground (arith, k.0), λ e e'. ground (arith, k.1))) h

invalidate_known-Listed :
    (catalog : List TaskDef) (t : Task) (l : List Task) (rows : List TaskRow)
    → is_known catalog t.name ≡ true
    → All (λ r. Settled r × GoneListed catalog (t ∷ l) r) rows
    → All (λ r. Settled r × GoneListed catalog l r) rows
invalidate_known-Listed catalog t l rows known h =
    All-mono (λ r. Settled r × GoneListed catalog (t ∷ l) r)
      (λ r. Settled r × GoneListed catalog l r) rows
      (λ r k. (k.0, λ e e'. ground (arith, k.1 e e', known))) h

pub invalidate_tasks-Quiet :
    (catalog : List TaskDef) (now : Time) (l : List Task) (d : Db)
    → All (λ r. Settled r × GoneListed catalog l r) d.tasks
    → All (Quiet catalog) (invalidate_tasks catalog now l d).0.tasks
unfolding invalidate_tasks
invalidate_tasks-Quiet catalog now [] d h =
    All-mono (λ r. Settled r × GoneListed catalog [] r) (Quiet catalog) d.tasks
      (λ r k. (k.0, λ e. ground (arith, k.1 e))) h
invalidate_tasks-Quiet catalog now (t ∷ l) d h = elim (Bool-cases (is_known catalog t.name)) [
  | inl e ↦
      rw e
        (invalidate_tasks-Quiet catalog now l d (invalidate_known-Listed catalog t l d.tasks e h))
  | inr e ↦ rw e (
      invalidate_tasks-Quiet catalog now l
        (fail_pending_task now t.id (unknown_error t.name)
          (failure_new FailureKind.invalid_input (unknown_error t.name)) d).0
        (invalidate_one-Listed catalog now t l d h))
]

pub invalidate_tasks-runs :
    (catalog : List TaskDef) (now : Time) (l : List Task) (d : Db)
    → (invalidate_tasks catalog now l d).0.runs ≡ d.runs
unfolding invalidate_tasks fail_pending_task
invalidate_tasks-runs catalog now [] d = refl
invalidate_tasks-runs catalog now (t ∷ l) d = elim (Bool-cases (is_known catalog t.name)) [
  | inl e ↦ rw e (invalidate_tasks-runs catalog now l d)
  | inr e ↦ rw e (invalidate_tasks-runs catalog now l _)
]

-- two tasks that agree on the id, and the second of which is gone if the first is
abbrev same_gone : List TaskDef → TaskRow → TaskRow → Bool
same_gone catalog r x = x.id == r.id && (not (is_known catalog x.name) || is_known catalog r.name)

any-summaries_gone :
    (catalog : List TaskDef) (id : Uuid) (rows : List TaskRow)
    → any (λ t. t.id == id && not (is_known catalog t.name)) (summaries rows)
      ≡ any (λ r. r.id == id && not (is_known catalog r.name)) rows
unfolding summary
any-summaries_gone catalog id [] = refl
any-summaries_gone catalog id (r ∷ rows) =
    ap (λ b. r.id == id && not (is_known catalog r.name) || b) (any-summaries_gone catalog id rows)

any-same_gone :
    (catalog : List TaskDef) (r : TaskRow) (rows : List TaskRow)
    → is_known catalog r.name ≡ false
    → any (same_gone catalog r) rows ≡ any (λ x. x.id == r.id && not (is_known catalog x.name)) rows
any-same_gone catalog r [] e = refl
any-same_gone catalog r (x ∷ rows) e = ground (arith, any-same_gone catalog r rows e)

pub pending-GoneListed :
    (catalog : List TaskDef) (d : Db) → All (GoneListed catalog (list_pending_tasks d)) d.tasks
unfolding list_pending_tasks
pending-GoneListed catalog d =
    let found : List TaskRow = select_where (λ r. is_pending r.status) d.tasks in
    All-mono _ (GoneListed catalog (list_pending_tasks d)) d.tasks
      (λ r k e e'.
        any-summaries_gone catalog r.id (order_by (λ r. r.created_at) found)
        ∙ any-order_by (λ x. x.id == r.id && not (is_known catalog x.name)) (λ r. r.created_at)
            found
        ∙ sym (any-same_gone catalog r found e')
        ∙ k e)
      (select_where-Listed (λ r. is_pending r.status) (same_gone catalog) (λ r. ground arith)
        d.tasks)
