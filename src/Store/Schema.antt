-- ===== src/Store/Schema.antt =====
-- The tables `tasks`, `task_runs`, `task_dependencies` and `events` of crates/favetto/src/db.rs,
-- and the sets of states that its WHERE clauses name.
use favetto.Common.{
  ℕ, Bool, true, false, not, List, [], Option, ◌==◌, update_where, count_where, update_where_none,
  ◌≡◌, refl,
}
use favetto.Model.Status.{TaskStatus, RunStatus, run_is_terminal}
use favetto.Model.Task.{Uuid, Time, Task, TaskRun, Event}

-- A row of `tasks`. The column `retry_at` has no field in `Task`.
pub record TaskRow : Type 0 where
  pub task : Task
  pub open task use *
  pub retry_at : Option Time

pub record Dependency : Type 0 where
  pub task_id : Uuid
  pub depends_on : Uuid
  pub created_at : Time

pub record Db : Type 0 where
  pub tasks : List TaskRow
  pub runs : List TaskRun
  pub deps : List Dependency
  pub events : List Event
  pub next_event_id : ℕ  -- AUTOINCREMENT: no id is given twice

abbrev pub empty : Db
empty = record { tasks = []; runs = []; deps = []; events = []; next_event_id = 1 }

-- `status = 'pending'`
abbrev pub is_pending : TaskStatus → Bool
is_pending TaskStatus.pending = true
is_pending _ = false

-- `status IN ('running', 'awaiting_input')`
abbrev pub is_active : TaskStatus → Bool
is_active TaskStatus.running = true
is_active TaskStatus.awaiting_input = true
is_active _ = false

-- `status = 'failed'`
abbrev pub is_failed : TaskStatus → Bool
is_failed TaskStatus.failed = true
is_failed _ = false

-- `executor::is_terminal`, and `status IN ('succeeded', 'failed', 'cancelled')`
abbrev pub is_terminal : TaskStatus → Bool
is_terminal TaskStatus.succeeded = true
is_terminal TaskStatus.failed = true
is_terminal TaskStatus.cancelled = true
is_terminal _ = false

-- `status IN ('pending', 'running', 'awaiting_input')`
abbrev pub is_open : TaskStatus → Bool
is_open TaskStatus.pending = true
is_open TaskStatus.running = true
is_open TaskStatus.awaiting_input = true
is_open _ = false

-- the derived `PartialEq` of `TaskStatus`
abbrev pub status_eq : TaskStatus → TaskStatus → Bool
status_eq TaskStatus.pending TaskStatus.pending = true
status_eq TaskStatus.running TaskStatus.running = true
status_eq TaskStatus.awaiting_input TaskStatus.awaiting_input = true
status_eq TaskStatus.succeeded TaskStatus.succeeded = true
status_eq TaskStatus.failed TaskStatus.failed = true
status_eq TaskStatus.cancelled TaskStatus.cancelled = true
status_eq _ _ = false

-- A run whose `status IN ('pending', 'running', 'awaiting_input')`
abbrev pub run_is_open : RunStatus → Bool
run_is_open RunStatus.pending = true
run_is_open RunStatus.running = true
run_is_open RunStatus.awaiting_input = true
run_is_open _ = false

-- UPDATE tasks SET f WHERE p, with whether exactly one row changed
abbrev pub update_tasks : (TaskRow → Bool) → (TaskRow → TaskRow) → Db → Db × Bool
update_tasks p f d = (record d { tasks = update_where p f d.tasks }, count_where p d.tasks == 1)

-- UPDATE task_runs SET f WHERE p, with whether exactly one row changed
abbrev pub update_runs : (TaskRun → Bool) → (TaskRun → TaskRun) → Db → Db × Bool
update_runs p f d = (record d { runs = update_where p f d.runs }, count_where p d.runs == 1)

-- A run that the database counts as in flight is one that `RunStatus::is_terminal` rejects.
pub run_is_open-is_terminal : (s : RunStatus) → run_is_open s ≡ not (run_is_terminal s)
unfolding run_is_terminal
run_is_open-is_terminal RunStatus.pending = refl
run_is_open-is_terminal _ = refl

-- A statement that no row meets leaves the database as it is, and says so.
pub update_tasks_none :
    (p : TaskRow → Bool) (f : TaskRow → TaskRow) (d : Db)
    → count_where p d.tasks ≡ 0
    → update_tasks p f d ≡ (d, false)
update_tasks_none p f d h = rw (update_where_none p f d.tasks h, h)
