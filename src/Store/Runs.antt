-- ===== src/Store/Runs.antt =====
-- The statements on `task_runs` and `task_dependencies`: crates/favetto/src/db.rs.
use favetto.Common.{
  ℕ, Text, Bool, ◌&&◌, List, [], ◌∷◌, ◌++◌, any, Option, none, some, or_else, ltb, ◌==◌,
  if◌then◌else◌, select_where, order_by,
}
use favetto.Model.Status.{RunStatus, Failure}
use favetto.Model.Task.{Uuid, Time, TaskRun}
use favetto.Store.Schema.{Db, run_is_open, update_runs}

unfoldable pub insert_task_run : TaskRun → Db → Db
insert_task_run run d = record d { runs = d.runs ++ run ∷ [] }

-- The latest attempt among runs in flight: ORDER BY attempt DESC LIMIT 1.
unfoldable pub latest : List TaskRun → Option TaskRun
latest [] = none
latest (r ∷ rs) = elim (latest rs) [
  | none ↦ some r
  | some best ↦ some (if ltb r.attempt best.attempt then best else r)
]

unfoldable pub get_active_task_run : Uuid → Db → Option TaskRun
unfolding latest
get_active_task_run task_id d =
    latest (select_where (λ r. r.task_id == task_id && run_is_open r.status) d.runs)

-- a NULL `started_at` sorts first
abbrev pub started_key : TaskRun → ℕ
started_key r = elim r.started_at [ none ↦ 0 | some t ↦ t ]

unfoldable pub list_active_task_runs : Db → List TaskRun
list_active_task_runs d = order_by started_key (select_where (λ r. run_is_open r.status) d.runs)

-- SET status = 'interrupted', finished_at = ?, error = ?, failure = ?
abbrev pub interrupt_row : Time → Text → Failure → TaskRun → TaskRun
interrupt_row now error failure r = record r {
  status = RunStatus.interrupted;
  finished_at = some now;
  error = some error;
  failure = some failure;
}

abbrev pub open_run : Uuid → TaskRun → Bool
open_run id r = r.id == id && run_is_open r.status

unfoldable pub interrupt_run : Time → Uuid → Text → Failure → Db → Db × Bool
interrupt_run now id error failure = update_runs (open_run id) (interrupt_row now error failure)

-- COALESCE keeps the stored session, agent and model where the new value is absent.
abbrev pub finalize_row : TaskRun → TaskRun → TaskRun
finalize_row run r = record r {
  status = run.status;
  session_id = or_else run.session_id r.session_id;
  agent = or_else run.agent r.agent;
  model = or_else run.model r.model;
  finished_at = run.finished_at;
  exit_code = run.exit_code;
  error = run.error;
  failure = run.failure;
  usage = run.usage;
}

unfoldable pub finalize_task_run : TaskRun → Db → Db × Bool
finalize_task_run run = update_runs (λ r. r.id == run.id) (finalize_row run)

-- INSERT OR IGNORE on the primary key (task_id, depends_on)
unfoldable pub insert_dependency : Uuid → Uuid → Time → Db → Db
insert_dependency task_id depends_on now d =
    if any (λ e. e.task_id == task_id && e.depends_on == depends_on) d.deps then d else record d {
      deps = d.deps ++ record { task_id = task_id; depends_on = depends_on; created_at = now } ∷ [];
    }
