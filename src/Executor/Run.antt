-- ===== src/Executor/Run.antt =====
-- One attempt of a task, from its claim to its outcome: `run_one` and the checks of `dispatch_loop`
-- in crates/favetto/src/executor.rs. What the agent, the action and the file system give is an
-- argument: the outcome, the gate of the action and the manifest.
use favetto.Common.{
  ◌+◌, Bool, true, false, not, ◌&&◌, Text, codes, text_eq, List, [], ◌∷◌, ◌++◌, Option, none, some,
  or_else, Result, ok, err, find?, select_where, map, is_empty, if◌then◌else◌,
}
use favetto.Model.Status.{TaskStatus, RunStatus, FailureKind}
use favetto.Model.EventKind.{EventKind}
use favetto.Model.Task.{ℤ, Time, Value, null, string, get, AgentUsage, Task, TaskRun, root_or_self}
use favetto.Store.Schema.{Db}
use favetto.Store.Tasks.{finish_active_task}
use favetto.Store.Runs.{finalize_task_run}
use favetto.Store.Queue.{claim_task}
use favetto.Catalog.Def.{TaskKind, TaskDef, TaskVar}
use favetto.Executor.State.{
  External, State, publish_task, with_db, emit_event, id_payload, task_payload,
}
use favetto.Executor.Outcome.{
  RunOutcome, RunError, record_run_outcome, finished_payload, schedule_auto_retry, fail_task,
}
use favetto.Executor.Join.{evaluate_join_barriers}
use favetto.Executor.Dependents.{spawn_from_manifest}

unfoldable pub lookup_def : Text → List TaskDef → Option TaskDef
lookup_def name catalog = find? (λ def. text_eq def.name name) catalog

-- a variable that is required and absent, null, or an empty string
unfoldable pub is_missing : Value → TaskVar → Bool
is_missing input v = v.required && elim (get v.name input) [
  | none ↦ true
  | some null ↦ true
  | some (string s) ↦ is_empty s
  | _ ↦ false
]

unfoldable pub missing_required_vars : TaskDef → Value → List Text
unfolding is_missing
missing_required_vars def input = map (λ v. v.name) (select_where (is_missing input) def.vars)

-- the start of `run_one`: the row that the claim has written, mirrored and announced
unfoldable pub start_run : Task → TaskRun → State → State × Task
start_run t run s =
    let t' : Task = record t {
      status = TaskStatus.running;
      attempt = run.attempt;
      started_at = or_else run.started_at (some s.now);
    } in
    (emit_event EventKind.task_started (task_payload t.name t.id) (publish_task t' s), t')

-- what an attempt is attributed to
unfoldable pub runner : TaskDef → Option Text → Option Text
runner def default_agent = elim def.kind [
  | TaskKind.agent ↦ or_else def.agent default_agent
  | TaskKind.action ↦ elim def.action [ some a ↦ some a.id | none ↦ none ]
]

abbrev pub no_agent_message : Text → Text
no_agent_message name =
    codes "task '"
    ++ name
    ++ codes "' has no agent: set `agent` in the task or `[agent].default` in the config"

-- The outcome of the attempt, where `launched` is what the agent or the action gave.
unfoldable pub run_outcome :
    TaskDef → Option Text → Result RunError RunOutcome → Result RunError RunOutcome
run_outcome def default_agent launched = elim def.kind [
  | TaskKind.action ↦ launched
  | TaskKind.agent ↦ elim (or_else def.agent default_agent) [
    | some name ↦ launched
    | none ↦ err record { kind = FailureKind.invalid_input; message = no_agent_message def.name }
  ]
]

abbrev pub outcome_exit_code : Result RunError RunOutcome → Option ℤ
outcome_exit_code (ok run) = run.exit_code
outcome_exit_code (err e) = none

abbrev pub outcome_usage : Result RunError RunOutcome → Option AgentUsage
outcome_usage (ok run) = run.usage
outcome_usage (err e) = none

-- the status of the run, from whether the write of the task's outcome found the task active
abbrev pub finished_status : Bool → Bool → RunStatus
finished_status false success = RunStatus.cancelled
finished_status true true = RunStatus.succeeded
finished_status true false = RunStatus.failed

abbrev pub run_model : TaskDef → Option Text
run_model def = elim def.kind [ TaskKind.agent ↦ def.model | TaskKind.action ↦ none ]

-- the finished run, for the task row with its outcome
unfoldable pub finished_run :
    TaskRun → Task → TaskDef → Option Text → Result RunError RunOutcome → RunStatus → TaskRun
unfolding runner
finished_run run t def default_agent outcome status = record run {
  status = status;
  session_id = t.session_id;
  finished_at = t.finished_at;
  exit_code = outcome_exit_code outcome;
  error = t.error;
  failure = t.failure;
  agent = runner def default_agent;
  model = run_model def;
  usage = outcome_usage outcome;
}

-- the row with its outcome
abbrev pub with_outcome : Time → Task → Result RunError RunOutcome → Task × Bool
with_outcome now t outcome =
    let (t', success) = record_run_outcome t outcome in
    (record t' { finished_at = some now }, success)

-- the two database writes at the end of an attempt, with whether the first found the task active
unfoldable pub finish_in_db :
    Time → Task → TaskRun → TaskDef → Option Text → Result RunError RunOutcome → Db → Db × Bool
unfolding finished_run
finish_in_db now t run def default_agent outcome d =
    let (t', success) = with_outcome now t outcome in
    let (d', finished) = finish_active_task t' d in
    let status = finished_status finished success in
    ((finalize_task_run (finished_run run t' def default_agent outcome status) d').0, finished)

abbrev pub gate_open : TaskDef → Bool → Bool
gate_open def gate = elim def.kind [ TaskKind.agent ↦ true | TaskKind.action ↦ gate ]

-- the state after the manifest of a success is read
abbrev pub spawned : External → Task → TaskDef → Bool → Option Value → State → State
spawned ext t def gate manifest s =
    if gate_open def gate then spawn_from_manifest ext t def manifest s else s

-- what a success spawns, and the fan-ins that wait for it
unfoldable pub spawn_after : External → Task → TaskDef → Bool → Option Value → State → State
spawn_after ext t def gate manifest s = elim def.spawn [
  | none ↦ s
  | some target ↦
      if def.spawn_new_root
      then spawned ext t def gate manifest s
      else evaluate_join_barriers ext target (root_or_self t) (some t.id)
          (spawned ext t def gate manifest s)
]

-- the terminal events of an attempt that is not retried
unfoldable pub emit_finished : Task → Bool → State → State
emit_finished t success s =
    let kind = if success then EventKind.task_completed else EventKind.task_failed in
    emit_event EventKind.task_finished (finished_payload t success)
      (emit_event kind (id_payload t.id) s)

-- The end of `run_one`. A task that was cancelled meanwhile keeps its row, and nothing is
-- announced or started for it.
unfoldable pub complete_run :
    External
    → Option Text
    → Task
    → TaskRun
    → TaskDef
    → Result RunError RunOutcome
    → Bool
    → Option Value
    → State
    → State
unfolding finish_in_db run_outcome spawn_after emit_finished
complete_run ext default_agent t run def launched gate manifest s =
    let outcome = run_outcome def default_agent launched in
    let (t', success) = with_outcome s.now t outcome in
    let (d, finished) = finish_in_db s.now t run def default_agent outcome s.db in
    let announced = publish_task t' (with_db d s) in
    let (retried, retrying) = schedule_auto_retry t' announced in
    if not finished
    then with_db d s
    else if success
    then spawn_after ext t' def gate manifest (emit_finished t' true announced)
    else if retrying
    then retried
    else emit_finished t' false announced

abbrev pub missing_message : Text → Text → Text
missing_message name var =
    codes "task '" ++ name ++ codes "' requires input variable '" ++ var ++ codes "'"

-- the claim of a task whose definition and input are there
unfoldable pub dispatch_ready : External → Option Text → Task → State → State × Option TaskRun
dispatch_ready ext (some e) t s =
    (fail_task ext t FailureKind.infrastructure (codes "worktree setup failed: " ++ e) s, none)
dispatch_ready ext none t s =
    let (d, claimed) = claim_task s.now (ext.new_v4 s.drawn) t s.db in
    (record s { db = d; drawn = s.drawn + 1 }, claimed)

unfoldable pub dispatch_known :
    External → Option Text → TaskDef → List Text → Task → State → State × Option TaskRun
unfolding dispatch_ready
dispatch_known ext setup_error def (v ∷ vs) t s =
    (fail_task ext t FailureKind.invalid_input (missing_message def.name v) s, none)
dispatch_known ext setup_error def [] t s = dispatch_ready ext setup_error t s

-- One task of `dispatch_loop`, with a free slot and the directory free: the attempt to run, if the
-- task passes the checks and is claimed. `setup_error` is the failure of the worktree setup.
unfoldable pub dispatch : External → Option Text → Task → State → State × Option TaskRun
unfolding lookup_def missing_required_vars dispatch_known
dispatch ext setup_error t s = elim (lookup_def t.name s.catalog) [
  | none ↦
      (fail_task ext t FailureKind.invalid_input (codes "task not found in the catalog") s, none)
  | some def ↦ dispatch_known ext setup_error def (missing_required_vars def t.input) t s
]
