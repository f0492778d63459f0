-- ===== src/Store/Queue.antt =====
-- The task queue: which pending tasks may start, and the claim that starts one,
-- crates/favetto/src/db.rs.
use favetto.Common.{
  ℕ, ◌+◌, max, Bool, true, not, ◌&&◌, List, any, take, Option, none, some, leb, ◌==◌, if◌then◌else◌,
  select_where, order_by,
}
use favetto.Model.Status.{TaskStatus, RunStatus}
use favetto.Model.Task.{Uuid, Time, Task, TaskRun}
use favetto.Store.Schema.{TaskRow, Db, is_pending, is_terminal, update_tasks}
use favetto.Store.Tasks.{summaries, where_status}
use favetto.Store.Runs.{insert_task_run}

-- `retry_at IS NULL OR retry_at <= now`
abbrev pub is_due : Time → Option Time → Bool
is_due now none = true
is_due now (some t) = leb t now

-- the EXISTS subquery: a predecessor that is still in the table and not terminal
unfoldable pub is_blocked : Db → Uuid → Bool
is_blocked d id =
    any
      (λ e.
        e.task_id == id && any (λ p. p.id == e.depends_on && not (is_terminal p.status)) d.tasks)
      d.deps

-- the WHERE clause of `next_pending_tasks`
unfoldable pub is_ready : Db → Time → TaskRow → Bool
unfolding is_blocked
is_ready d now r = is_pending r.status && is_due now r.retry_at && not (is_blocked d r.id)

unfoldable pub next_pending_tasks : Time → ℕ → Db → List Task
unfolding is_ready
next_pending_tasks now limit d =
    summaries
      (take (max limit 1) (order_by (λ r. r.created_at) (select_where (is_ready d now) d.tasks)))

-- the run that a claim inserts
unfoldable pub claimed_run : Time → Uuid → Task → TaskRun
claimed_run now run_id t = record {
  id = run_id;
  task_id = t.id;
  attempt = t.attempt + 1;
  status = RunStatus.running;
  agent = none;
  model = none;
  session_id = none;
  started_at = some now;
  finished_at = none;
  exit_code = none;
  error = none;
  usage = none;
  failure = none;
}

-- the columns that a claim writes
abbrev pub claim_row : Time → ℕ → TaskRow → TaskRow
claim_row now attempt r = record r {
  task = record r.task { status = TaskStatus.running; started_at = some now; attempt = attempt };
  retry_at = none;
}

-- One transaction: if the UPDATE does not change exactly one row it is rolled back.
unfoldable pub claim_task : Time → Uuid → Task → Db → Db × Option TaskRun
unfolding claimed_run insert_task_run
claim_task now run_id t d =
    let (d', won) = update_tasks (where_status t.id is_pending) (claim_row now (t.attempt + 1)) d in
    if won
    then (insert_task_run (claimed_run now run_id t) d', some (claimed_run now run_id t))
    else (d, none)
