-- ===== src/Model/EventKind.antt =====
-- The kinds of events on the bus, generated by the `event_kinds!` table of
-- crates/favetto-wire/src/model.rs, with their two spellings.
use favetto.Common.{Text, codes, text_eq, if◌then◌else◌, List, [], ◌∷◌, Option, none, some, ◌||◌}

pub data EventKind : Type 0 where
  task_created task_updated task_completed task_failed task_cancelled : EventKind
  task_idle task_started task_awaiting_input task_finished cron_tick : EventKind
  issue_created issue_updated issue_closed issue_reopened issue_labeled : EventKind
  issue_assigned issue_comment_created pr_created pr_merged pr_closed : EventKind
  pr_reopened pr_synchronized pr_ready_for_review pr_review_requested pr_updated : EventKind
  pr_review_submitted push_received ticket_created ticket_updated action_run_completed : EventKind
  check_suite_completed check_run_completed email_received unknown : EventKind

-- `EventKind::as_str`, the spelling of the wire and of the `kind` column
unfoldable pub as_str : EventKind → Text
as_str task_created = codes "task_created"
as_str task_updated = codes "task_updated"
as_str task_completed = codes "task_completed"
as_str task_failed = codes "task_failed"
as_str task_cancelled = codes "task_cancelled"
as_str task_idle = codes "task_idle"
as_str task_started = codes "task_started"
as_str task_awaiting_input = codes "task_awaiting_input"
as_str task_finished = codes "task_finished"
as_str cron_tick = codes "cron_tick"
as_str issue_created = codes "issue_created"
as_str issue_updated = codes "issue_updated"
as_str issue_closed = codes "issue_closed"
as_str issue_reopened = codes "issue_reopened"
as_str issue_labeled = codes "issue_labeled"
as_str issue_assigned = codes "issue_assigned"
as_str issue_comment_created = codes "issue_comment_created"
as_str pr_created = codes "pr_created"
as_str pr_merged = codes "pr_merged"
as_str pr_closed = codes "pr_closed"
as_str pr_reopened = codes "pr_reopened"
as_str pr_synchronized = codes "pr_synchronized"
as_str pr_ready_for_review = codes "pr_ready_for_review"
as_str pr_review_requested = codes "pr_review_requested"
as_str pr_updated = codes "pr_updated"
as_str pr_review_submitted = codes "pr_review_submitted"
as_str push_received = codes "push_received"
as_str ticket_created = codes "ticket_created"
as_str ticket_updated = codes "ticket_updated"
as_str action_run_completed = codes "action_run_completed"
as_str check_suite_completed = codes "check_suite_completed"
as_str check_run_completed = codes "check_run_completed"
as_str email_received = codes "email_received"
as_str unknown = codes "unknown"

-- the second spelling of the table
unfoldable pub pascal : EventKind → Text
pascal task_created = codes "TaskCreated"
pascal task_updated = codes "TaskUpdated"
pascal task_completed = codes "TaskCompleted"
pascal task_failed = codes "TaskFailed"
pascal task_cancelled = codes "TaskCancelled"
pascal task_idle = codes "TaskIdle"
pascal task_started = codes "TaskStarted"
pascal task_awaiting_input = codes "TaskAwaitingInput"
pascal task_finished = codes "TaskFinished"
pascal cron_tick = codes "CronTick"
pascal issue_created = codes "IssueCreated"
pascal issue_updated = codes "IssueUpdated"
pascal issue_closed = codes "IssueClosed"
pascal issue_reopened = codes "IssueReopened"
pascal issue_labeled = codes "IssueLabeled"
pascal issue_assigned = codes "IssueAssigned"
pascal issue_comment_created = codes "IssueCommentCreated"
pascal pr_created = codes "PRCreated"
pascal pr_merged = codes "PRMerged"
pascal pr_closed = codes "PRClosed"
pascal pr_reopened = codes "PRReopened"
pascal pr_synchronized = codes "PRSynchronized"
pascal pr_ready_for_review = codes "PRReadyForReview"
pascal pr_review_requested = codes "PRReviewRequested"
pascal pr_updated = codes "PRUpdated"
pascal pr_review_submitted = codes "PRReviewSubmitted"
pascal push_received = codes "PushReceived"
pascal ticket_created = codes "TicketCreated"
pascal ticket_updated = codes "TicketUpdated"
pascal action_run_completed = codes "ActionRunCompleted"
pascal check_suite_completed = codes "CheckSuiteCompleted"
pascal check_run_completed = codes "CheckRunCompleted"
pascal email_received = codes "EmailReceived"
pascal unknown = codes "Unknown"

-- `KINDS`, in declaration order
abbrev pub kinds : List EventKind
kinds =
    task_created ∷ task_updated ∷ task_completed ∷ task_failed ∷ task_cancelled ∷ task_idle
    ∷ task_started ∷ task_awaiting_input ∷ task_finished ∷ cron_tick ∷ issue_created ∷ issue_updated
    ∷ issue_closed ∷ issue_reopened ∷ issue_labeled ∷ issue_assigned ∷ issue_comment_created
    ∷ pr_created ∷ pr_merged ∷ pr_closed ∷ pr_reopened ∷ pr_synchronized ∷ pr_ready_for_review
    ∷ pr_review_requested ∷ pr_updated ∷ pr_review_submitted ∷ push_received ∷ ticket_created
    ∷ ticket_updated ∷ action_run_completed ∷ check_suite_completed ∷ check_run_completed
    ∷ email_received ∷ unknown ∷ []

-- The arms `$snake | $pascal => Some(..)` of `from_name`, in the order of the table.
unfoldable pub from_table : Text → List EventKind → Option EventKind
unfolding as_str pascal
from_table s [] = none
from_table s (k ∷ ks) =
    if text_eq s (as_str k) || text_eq s (pascal k) then some k else from_table s ks

-- `EventKind::from_name`, with the legacy spelling of `unknown` behind the table
unfoldable pub from_name : Text → Option EventKind
unfolding from_table
from_name s = elim (from_table s kinds) [
  | some k ↦ some k
  | none ↦
      if text_eq s (codes "synthetic") || text_eq s (codes "Synthetic") then some unknown else none
]
