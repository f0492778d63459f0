-- ===== src/Store/Tasks.antt =====
-- The statements on `tasks` and `events`: crates/favetto/src/db.rs.
use favetto.Common.{
  ℕ, suc, Text, text_eq, Bool, false, ◌&&◌, ◌||◌, List, [], ◌∷◌, ◌++◌, map, any, find?, Option,
  none, some, or_else, ltb, ◌==◌, if◌then◌else◌, count_where, update_where, select_where, order_by,
}
use favetto.Model.Status.{TaskStatus, Failure}
use favetto.Model.EventKind.{EventKind}
use favetto.Model.Task.{Uuid, Time, Task, Event, Payload, summary}
use favetto.Store.Schema.{
  TaskRow, Db, is_pending, is_active, is_failed, is_terminal, is_open, status_eq, update_tasks,
}

-- two values of a UNIQUE column clash; NULL clashes with nothing
abbrev pub same_key : Option Text → Option Text → Bool
same_key (some a) (some b) = text_eq a b
same_key _ _ = false

-- the conflicts that `INSERT OR IGNORE` ignores: the primary key and the UNIQUE dedupe key
unfoldable pub conflicts : Task → TaskRow → Bool
conflicts t r = r.id == t.id || same_key r.dedupe_key t.dedupe_key

unfoldable pub insert_task : Task → Db → Db
unfolding conflicts
insert_task t d =
    if any (conflicts t) d.tasks
    then d
    else record d { tasks = d.tasks ++ record { task = t; retry_at = none } ∷ [] }

unfoldable pub get_task : Uuid → Db → Option Task
get_task id d = elim (find? (λ r. r.id == id) d.tasks) [ none ↦ none | some r ↦ some r.task ]

unfoldable pub get_task_by_dedupe_key : Text → Db → Option Task
get_task_by_dedupe_key key d = elim (find? (λ r. same_key r.dedupe_key (some key)) d.tasks) [
  | none ↦ none
  | some r ↦ some r.task
]

-- the rows that a SELECT without `output` decodes to
abbrev pub summaries : List TaskRow → List Task
summaries rows = map (λ r. summary r.task) rows

unfoldable pub list_pending_tasks : Db → List Task
list_pending_tasks d =
    summaries (order_by (λ r. r.created_at) (select_where (λ r. is_pending r.status) d.tasks))

unfoldable pub list_active_tasks : Db → List Task
list_active_tasks d =
    summaries (order_by (λ r. r.created_at) (select_where (λ r. is_active r.status) d.tasks))

-- `WHERE id = ? AND status IN (..)`
abbrev pub where_status : Uuid → (TaskStatus → Bool) → TaskRow → Bool
where_status id p r = r.id == id && p r.status

-- SET status = 'failed', error = ?, failure = ?, finished_at = ?
abbrev pub fail_row : Time → Text → Failure → TaskRow → TaskRow
fail_row now error failure r = record r {
  task = record r.task {
    status = TaskStatus.failed;
    error = some error;
    failure = some failure;
    finished_at = some now;
  };
}

unfoldable pub fail_stale_task : Time → Uuid → Text → Failure → Db → Db × Bool
fail_stale_task now id error failure =
    update_tasks (where_status id is_active) (fail_row now error failure)

unfoldable pub fail_pending_task : Time → Uuid → Text → Failure → Db → Db × Bool
fail_pending_task now id error failure =
    update_tasks (where_status id is_pending) (fail_row now error failure)

-- the columns that a re-enqueue resets, and the deadline that it sets
abbrev pub requeue_row : Option Time → TaskRow → TaskRow
requeue_row retry_at r = record r {
  task = record r.task {
    status = TaskStatus.pending;
    started_at = none;
    finished_at = none;
    error = none;
    failure = none;
    output = none;
  };
  retry_at = retry_at;
}

unfoldable pub schedule_task_retry : Uuid → Time → Db → Db × Bool
schedule_task_retry id retry_at =
    update_tasks (where_status id is_failed) (requeue_row (some retry_at))

unfoldable pub requeue_terminal_task : Uuid → Db → Db × Bool
requeue_terminal_task id = update_tasks (where_status id is_terminal) (requeue_row none)

-- as `requeue_row none`, but the `output` column is kept
abbrev pub retry_row : TaskRow → TaskRow
retry_row r = record r {
  task = record r.task {
    status = TaskStatus.pending;
    started_at = none;
    finished_at = none;
    error = none;
    failure = none;
  };
  retry_at = none;
}

unfoldable pub retry_stale_task : Uuid → Db → Db × Bool
retry_stale_task id = update_tasks (where_status id is_active) retry_row

abbrev pub cancel_row : Time → TaskRow → TaskRow
cancel_row now r = record r {
  task = record r.task { status = TaskStatus.cancelled; finished_at = some now };
}

unfoldable pub cancel_active_task : Time → Uuid → Db → Db × Bool
cancel_active_task now id = update_tasks (where_status id is_open) (cancel_row now)

-- the columns of `finish_active_task`
abbrev pub finish_row : Task → TaskRow → TaskRow
finish_row t r = record r {
  task = record r.task {
    status = t.status;
    attempt = t.attempt;
    output = t.output;
    started_at = t.started_at;
    finished_at = t.finished_at;
    error = t.error;
    failure = t.failure;
    session_id = t.session_id;
    session_title = t.session_title;
  };
}

unfoldable pub finish_active_task : Task → Db → Db × Bool
finish_active_task t = update_tasks (where_status t.id is_active) (finish_row t)

abbrev pub status_row : TaskStatus → TaskRow → TaskRow
status_row to r = record r { task = record r.task { status = to } }

-- The result here is `rows_affected() > 0`.
unfoldable pub set_task_status_if : Uuid → TaskStatus → TaskStatus → Db → Db × Bool
set_task_status_if id to from d =
    let p = where_status id (λ s. status_eq s from) in
    (record d { tasks = update_where p (status_row to) d.tasks }, ltb 0 (count_where p d.tasks))

-- COALESCE keeps a value that is already there.
abbrev pub session_row : Text → Option Text → TaskRow → TaskRow
session_row session_id title r = record r {
  task = record r.task {
    session_id = or_else r.session_id (some session_id);
    session_title = or_else r.session_title title;
  };
}

abbrev pub has_task_id : Uuid → TaskRow → Bool
has_task_id id r = r.id == id

unfoldable pub set_task_session : Uuid → Text → Option Text → Db → Db × Bool
set_task_session id session_id title d = (
  record d { tasks = update_where (has_task_id id) (session_row session_id title) d.tasks },
  ltb 0 (count_where (has_task_id id) d.tasks),
)

-- `(root_id = ? OR id = ?)`
abbrev pub in_root : Uuid → TaskRow → Bool
in_root root r = elim r.root_id [ some x ↦ x == root || r.id == root | none ↦ r.id == root ]

unfoldable pub list_tasks_in_root : Uuid → Text → Db → List Task
list_tasks_in_root root name d =
    map (λ r. r.task)
      (order_by (λ r. r.created_at)
        (select_where (λ r. in_root root r && text_eq r.name name) d.tasks))

unfoldable pub list_active_tasks_in_root : Uuid → Text → Db → List Task
list_active_tasks_in_root root name d = summaries (
    order_by (λ r. r.created_at)
      (select_where (λ r. in_root root r && text_eq r.name name && is_open r.status) d.tasks))

unfoldable pub list_root_tasks : Uuid → Db → List Task
list_root_tasks root d =
    summaries (order_by (λ r. r.created_at) (select_where (in_root root) d.tasks))

-- `insert_event` returns the assigned id.
unfoldable pub insert_event : EventKind → Payload → Time → Db → Db × ℕ
insert_event kind payload now d =
    let e : Event = record {
      id = d.next_event_id;
      kind = kind;
      payload = payload;
      created_at = now;
    } in
    (record d { events = d.events ++ e ∷ []; next_event_id = suc d.next_event_id }, d.next_event_id)
