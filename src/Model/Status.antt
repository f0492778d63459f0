-- ===== src/Model/Status.antt =====
-- The lifecycle of a task, that of one run of it, and the classification of a failure:
-- crates/favetto-wire/src/model.rs.
use favetto.Common.{Text, codes, text_eq, if◌then◌else◌, Bool, true, false, Option, none, some}

pub data TaskStatus : Type 0 where
  pending running awaiting_input succeeded failed cancelled : TaskStatus

-- `TaskStatus::as_str`, also the text that the `status` column stores
unfoldable pub task_status_as_str : TaskStatus → Text
task_status_as_str TaskStatus.pending = codes "pending"
task_status_as_str TaskStatus.running = codes "running"
task_status_as_str TaskStatus.awaiting_input = codes "awaiting_input"
task_status_as_str TaskStatus.succeeded = codes "succeeded"
task_status_as_str TaskStatus.failed = codes "failed"
task_status_as_str TaskStatus.cancelled = codes "cancelled"

-- `TaskStatus::from_str`; `none` is `Err(())`
unfoldable pub task_status_from_str : Text → Option TaskStatus
task_status_from_str s =
    if text_eq s (codes "pending")
    then some TaskStatus.pending
    else if text_eq s (codes "running")
    then some TaskStatus.running
    else if text_eq s (codes "awaiting_input")
    then some TaskStatus.awaiting_input
    else if text_eq s (codes "succeeded")
    then some TaskStatus.succeeded
    else if text_eq s (codes "failed")
    then some TaskStatus.failed
    else if text_eq s (codes "cancelled")
    then some TaskStatus.cancelled
    else none

pub data RunStatus : Type 0 where
  pending running awaiting_input succeeded failed cancelled interrupted timed_out : RunStatus

-- `RunStatus::as_str`
unfoldable pub run_status_as_str : RunStatus → Text
run_status_as_str RunStatus.pending = codes "pending"
run_status_as_str RunStatus.running = codes "running"
run_status_as_str RunStatus.awaiting_input = codes "awaiting_input"
run_status_as_str RunStatus.succeeded = codes "succeeded"
run_status_as_str RunStatus.failed = codes "failed"
run_status_as_str RunStatus.cancelled = codes "cancelled"
run_status_as_str RunStatus.interrupted = codes "interrupted"
run_status_as_str RunStatus.timed_out = codes "timed_out"

-- `RunStatus::is_terminal`
unfoldable pub run_is_terminal : RunStatus → Bool
run_is_terminal RunStatus.succeeded = true
run_is_terminal RunStatus.failed = true
run_is_terminal RunStatus.cancelled = true
run_is_terminal RunStatus.interrupted = true
run_is_terminal RunStatus.timed_out = true
run_is_terminal _ = false

-- `RunStatus::from_str`; `none` is `Err(())`
unfoldable pub run_status_from_str : Text → Option RunStatus
run_status_from_str s =
    if text_eq s (codes "pending")
    then some RunStatus.pending
    else if text_eq s (codes "running")
    then some RunStatus.running
    else if text_eq s (codes "awaiting_input")
    then some RunStatus.awaiting_input
    else if text_eq s (codes "succeeded")
    then some RunStatus.succeeded
    else if text_eq s (codes "failed")
    then some RunStatus.failed
    else if text_eq s (codes "cancelled")
    then some RunStatus.cancelled
    else if text_eq s (codes "interrupted")
    then some RunStatus.interrupted
    else if text_eq s (codes "timed_out")
    then some RunStatus.timed_out
    else none

pub data FailureKind : Type 0 where
  agent infrastructure timeout invalid_input dependency cancelled blocked unknown : FailureKind

pub FailureKind-discrete : Discrete FailureKind
FailureKind-discrete = hlevel

-- `FailureKind::retryable_by_default`
unfoldable pub retryable_by_default : FailureKind → Bool
retryable_by_default FailureKind.infrastructure = true
retryable_by_default FailureKind.timeout = true
retryable_by_default _ = false

-- the derived `PartialEq` of `FailureKind`
unfoldable pub failure_kind_eq : FailureKind → FailureKind → Bool
failure_kind_eq FailureKind.agent FailureKind.agent = true
failure_kind_eq FailureKind.infrastructure FailureKind.infrastructure = true
failure_kind_eq FailureKind.timeout FailureKind.timeout = true
failure_kind_eq FailureKind.invalid_input FailureKind.invalid_input = true
failure_kind_eq FailureKind.dependency FailureKind.dependency = true
failure_kind_eq FailureKind.cancelled FailureKind.cancelled = true
failure_kind_eq FailureKind.blocked FailureKind.blocked = true
failure_kind_eq FailureKind.unknown FailureKind.unknown = true
failure_kind_eq _ _ = false

pub record Failure : Type 0 where
  pub kind : FailureKind
  pub message : Text
  pub retryable : Bool

-- `Failure::new`
unfoldable pub failure_new : FailureKind → Text → Failure
unfolding retryable_by_default
failure_new kind message = record {
  kind = kind;
  message = message;
  retryable = retryable_by_default kind;
}
