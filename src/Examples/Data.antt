-- ===== src/Examples/Data.antt =====
-- A database with a running, a pending, and a finished task, and the states around it.
use favetto.Common.{ℕ, ◌+◌, arith, Text, codes, decimal, [], ◌∷◌, Option, none, some, false}
use favetto.Model.Status.{TaskStatus, RunStatus}
use favetto.Model.Task.{Uuid, object, end, Task, TaskRun}
use favetto.Store.Schema.{TaskRow, Db, empty}
use favetto.Store.Live.{Live}
use favetto.Catalog.Def.{TaskKind, TaskDef}
use favetto.Retry.{default_settings}
use favetto.Executor.State.{External, State, StaleRunPolicy}
use favetto.Executor.Safe.{Fresh, Safe}

-- ids from 100 on
abbrev pub ext : External
ext = record { new_v4 = λ n. 100 + n; uuid_text = decimal; print_json = λ v. codes "{}" }

abbrev pub task_of : Uuid → Text → TaskStatus → ℕ → Task
task_of id name status attempt = record {
  id = id;
  name = name;
  status = status;
  attempt = attempt;
  input = object end;
  output = none;
  dedupe_key = none;
  created_at = 10 + id;
  started_at = none;
  finished_at = none;
  error = none;
  failure = none;
  session_id = none;
  session_title = none;
  parent_id = none;
  root_id = none;
  interactive = false;
}

abbrev pub row_of : Task → TaskRow
row_of t = record { task = t; retry_at = none }

abbrev pub plan : Task
plan = task_of 1 (codes "plan") TaskStatus.running 1

abbrev pub work : Task
work = task_of 2 (codes "work") TaskStatus.pending 0

abbrev pub done : Task
done = task_of 3 (codes "done") TaskStatus.failed 1

abbrev pub run_of : Uuid → Uuid → ℕ → RunStatus → TaskRun
run_of id task_id attempt status = record {
  id = id;
  task_id = task_id;
  attempt = attempt;
  status = status;
  agent = none;
  model = none;
  session_id = none;
  started_at = some 20;
  finished_at = none;
  exit_code = none;
  error = none;
  usage = none;
  failure = none;
}

abbrev pub plan_run : TaskRun
plan_run = run_of 11 1 1 RunStatus.running

abbrev pub done_run : TaskRun
done_run = run_of 13 3 1 RunStatus.failed

-- `work` waits for `done`
abbrev pub db : Db
db = record empty {
  tasks = row_of plan ∷ row_of work ∷ row_of done ∷ [];
  runs = plan_run ∷ done_run ∷ [];
  deps = record { task_id = 2; depends_on = 3; created_at = 5 } ∷ [];
}

abbrev pub def_of : Text → Option Text → TaskDef
def_of name needs = record {
  name = name;
  kind = TaskKind.agent;
  action = none;
  agent = some (codes "claude");
  provider = none;
  model = none;
  cwd = none;
  schedule = none;
  needs = needs;
  spawn = none;
  spawn_file = none;
  spawn_new_root = false;
  sign = none;
  worktree = none;
  vars = [];
  prompt = [];
}

abbrev pub plan_def : TaskDef
plan_def = record (def_of (codes "plan") none) {
  spawn = some (codes "work");
  spawn_file = some (codes "jobs.json");
}

abbrev pub work_def : TaskDef
work_def = def_of (codes "work") none

-- waits for `plan`
abbrev pub report_def : TaskDef
report_def = def_of (codes "report") (some (codes "plan:finished"))

-- waits for every `work`
abbrev pub merge_def : TaskDef
merge_def = def_of (codes "merge") (some (codes "work:all_finished"))

abbrev pub state : State
state = record {
  db = db;
  bus = [];
  tasks_total = 0;
  events_total = 0;
  closed = [];
  drawn = 0;
  now = 50;
  catalog = plan_def ∷ work_def ∷ report_def ∷ merge_def ∷ [];
  stale_run = StaleRunPolicy.fail;
  retry_settings = default_settings;
}

pub db-Live : Live db
db-Live id = record {
  row = ground arith;
  run = ground arith;
  one = ground arith;
  queued = λ h. ground arith;
}

pub state-Fresh : Fresh ext state
state-Fresh n h = (ground arith, ground arith)

pub state-Safe : Safe ext state
state-Safe = (db-Live, state-Fresh)
