-- ===== src/Executor/Outcome.antt =====
-- What the executor makes of a finished attempt: crates/favetto/src/executor.rs.
use favetto.Common.{
  ℕ, ◌+◌, ◌-◌, ◌^◌, leb, if◌then◌else◌, Bool, true, false, ◌&&◌, Text, codes, trim, is_empty,
  or_else, Option, none, some, Result, ok, err,
}
use favetto.Model.Status.{TaskStatus, RunStatus, FailureKind, Failure, failure_new}
use favetto.Model.EventKind.{EventKind}
use favetto.Model.Task.{ℤ, Uuid, Time, Value, string, get, AgentUsage, Task, TaskRun, Payload}
use favetto.Store.Schema.{Db}
use favetto.Store.Tasks.{get_task, schedule_task_retry, finish_active_task}
use favetto.Store.Runs.{finalize_task_run}
use favetto.Store.Queue.{claim_task}
use favetto.Retry.{RetrySettings, should_retry, backoff_delay}
use favetto.Executor.State.{External, State, publish_task, with_db, emit_event, task_payload}
use favetto.Executor.Truncate.{tail_truncate}

pub record RunOutcome : Type 0 where
  pub output : Value
  pub session_id : Option Text
  pub session_title : Option Text
  pub exit_code : Option ℤ
  pub usage : Option AgentUsage
  pub failure : Option Failure
  pub alive : Bool

pub record RunError : Type 0 where
  pub kind : FailureKind
  pub message : Text

-- `record_run_outcome`: the task row with the outcome, and whether the run succeeded
unfoldable pub record_run_outcome : Task → Result RunError RunOutcome → Task × Bool
record_run_outcome t (ok run) = elim run.failure [
  | some failure ↦ (
    record t {
      session_id = run.session_id;
      session_title = run.session_title;
      status = TaskStatus.failed;
      error = some failure.message;
      failure = some failure;
      output = some run.output;
    },
    false,
  )
  | none ↦ (
    record t {
      session_id = run.session_id;
      session_title = run.session_title;
      status = TaskStatus.succeeded;
      output = some run.output;
      error = none;
      failure = none;
    },
    true,
  )
]
record_run_outcome t (err e) = (
  record t {
    status = TaskStatus.failed;
    error = some e.message;
    failure = some (failure_new e.kind e.message);
  },
  false,
)

-- the trimmed text, unless it is blank
unfoldable pub not_blank : Text → Option Text
not_blank s = if is_empty (trim s) then none else some (trim s)

-- `.and_then(|v| v.get(key))`
abbrev pub get_in : Text → Option Value → Option Value
get_in key none = none
get_in key (some v) = get key v

-- `output.envelope.summary`, if it is a string
unfoldable pub envelope_summary : Task → Option Text
unfolding not_blank
envelope_summary t = elim (get_in (codes "summary") (get_in (codes "envelope") t.output)) [
  | some (string s) ↦ not_blank s
  | _ ↦ none
]

-- the error of the task, if it is not blank
abbrev pub error_text : Task → Option Text
error_text t = elim t.error [ some e ↦ not_blank e | none ↦ none ]

abbrev pub finished_summary_bytes : ℕ
finished_summary_bytes = 512

unfoldable pub finished_summary : Task → Option Text
finished_summary t = elim (or_else (envelope_summary t) (error_text t)) [
  | some s ↦ some (tail_truncate s finished_summary_bytes)
  | none ↦ none
]

abbrev pub is_retryable : Option Failure → Bool
is_retryable (some f) = f.retryable
is_retryable none = false

unfoldable pub finished_payload : Task → Bool → Payload
finished_payload t success = record {
  name = some t.name;
  task_id = some t.id;
  success = some success;
  status = some t.status;
  attempt = some t.attempt;
  retryable = some (is_retryable t.failure);
  summary = finished_summary t;
  session_id = none;
  reason = none;
}

-- `chrono::Duration::from_std`, which fails beyond `i64::MAX` milliseconds
abbrev pub delay_or_zero : ℕ → ℕ
delay_or_zero ms = if leb ms (2 ^ 63 - 1) then ms else 0

-- Publish the stored row of a task that went back to the queue, and that it is idle.
unfoldable pub announce_idle : Uuid → State → State
announce_idle id s = elim (get_task id s.db) [
  | some fresh ↦
      emit_event EventKind.task_idle (task_payload fresh.name fresh.id) (publish_task fresh s)
  | none ↦ s
]

-- the deadline of the next attempt
abbrev pub retry_time : RetrySettings → Time → ℕ → Time
retry_time settings now attempt = now + delay_or_zero (backoff_delay settings attempt)

-- the retry of a task with a failure
unfoldable pub retry_failed : Failure → Task → State → State × Bool
unfolding announce_idle
retry_failed failure t s =
    let (d, scheduled) =
      schedule_task_retry t.id (retry_time s.retry_settings s.now t.attempt) s.db in
    if should_retry s.retry_settings t.attempt failure && scheduled
    then (announce_idle t.id (with_db d s), true)
    else (s, false)

unfoldable pub schedule_auto_retry : Task → State → State × Bool
unfolding retry_failed
schedule_auto_retry t s = elim t.failure [
  | none ↦ (s, false)
  | some failure ↦ retry_failed failure t s
]

-- the row that `fail_task` writes, with the attempt of the run that its claim got
unfoldable pub failed_task : Task → Option TaskRun → FailureKind → Text → Time → Task
failed_task t claimed kind error now =
    let mirrored : Task = elim claimed [
      | some run ↦ record t { attempt = run.attempt; started_at = run.started_at }
      | none ↦ t
    ] in
    record mirrored {
      status = TaskStatus.failed;
      error = some error;
      failure = some (failure_new kind error);
      finished_at = some now;
    }

-- the run of the failed attempt
abbrev pub failed_run : TaskRun → Task → Bool → TaskRun
failed_run run t finished = record run {
  status = if finished then RunStatus.failed else RunStatus.cancelled;
  finished_at = t.finished_at;
  error = t.error;
  failure = t.failure;
}

abbrev pub finalize_claimed : Option TaskRun → Task → Bool → Db → Db
finalize_claimed none t finished d = d
finalize_claimed (some run) t finished d = (finalize_task_run (failed_run run t finished) d).0

-- the database part of `fail_task`, with the row it wrote and whether the write found it active
unfoldable pub fail_in_db : Time → Uuid → Task → FailureKind → Text → Db → Db × Task × Bool
unfolding failed_task
fail_in_db now run_id t kind error d =
    let (d₁, claimed) = claim_task now run_id t d in
    let failed = failed_task t claimed kind error now in
    let (d₂, finished) = finish_active_task failed d₁ in
    (finalize_claimed claimed failed finished d₂, failed, finished)

unfoldable pub fail_task : External → Task → FailureKind → Text → State → State
unfolding fail_in_db
fail_task ext t kind error s =
    let (d, failed, finished) = fail_in_db s.now (ext.new_v4 s.drawn) t kind error s.db in
    let s₁ : State = record s { db = d; drawn = s.drawn + 1 } in
    let (s₂, retrying) = schedule_auto_retry failed (publish_task failed s₁) in
    if finished
    then if retrying
      then s₂
      else emit_event EventKind.task_finished (finished_payload failed false) s₂
    else s₁
