-- ===== src/Server/Tasks.antt =====
-- `tasks.retry`, `tasks.cancel` and `workflow.cancel`: crates/favetto/src/server.rs.
use favetto.Common.{
  ℕ, Bool, true, false, not, List, [], ◌∷◌, ◌++◌, Option, none, some, Result, ok, err,
  if◌then◌else◌,
}
use favetto.Model.Status.{TaskStatus}
use favetto.Model.EventKind.{EventKind}
use favetto.Model.Task.{Uuid, Task, Event, summary}
use favetto.Store.Schema.{is_terminal}
use favetto.Store.Tasks.{
  get_task, requeue_terminal_task, cancel_active_task, list_root_tasks, insert_event,
}
use favetto.Store.Runs.{get_active_task_run}
use favetto.Executor.State.{State, Push, publish, publish_task, with_db, id_payload}
use favetto.Executor.Outcome.{announce_idle}

-- the refusals, without their texts
pub data RetryError : Type 0 where
  not_found disappeared not_requeued : RetryError
  live_run : ℕ → RetryError
  not_terminal : TaskStatus → RetryError

-- the answer after the re-enqueue
unfoldable pub requeued_task : Uuid → State → State × Result RetryError Task
requeued_task id s = elim (get_task id s.db) [
  | some fresh ↦ (announce_idle id s, ok (summary fresh))
  | none ↦ (s, err disappeared)
]

-- the retry of a task without an attempt in flight
unfoldable pub retry_idle : Uuid → Task → State → State × Result RetryError Task
unfolding requeued_task
retry_idle id t s =
    let (d, requeued) = requeue_terminal_task id s.db in
    let s' : State = with_db d s in
    if not (is_terminal t.status)
    then (s, err (not_terminal t.status))
    else if requeued
    then requeued_task id s'
    else (s', err not_requeued)

unfoldable pub retry_found : Uuid → Task → State → State × Result RetryError Task
unfolding retry_idle
retry_found id t s = elim (get_active_task_run id s.db) [
  | some run ↦ (s, err (live_run run.attempt))
  | none ↦ retry_idle id t s
]

unfoldable pub retry_task : Uuid → State → State × Result RetryError Task
unfolding retry_found
retry_task id s = elim (get_task id s.db) [
  | none ↦ (s, err not_found)
  | some t ↦ retry_found id t s
]

-- `announce_cancelled`: unlike `emit_event` it does not count the event.
unfoldable pub announce_cancelled : Task → State → State
announce_cancelled t s =
    let s₁ : State = publish_task t s in
    let (d, id) = insert_event EventKind.task_cancelled (id_payload t.id) s₁.now s₁.db in
    let e : Event = record {
      id = id;
      kind = EventKind.task_cancelled;
      payload = id_payload t.id;
      created_at = s₁.now;
    } in
    publish (Push.event e) (with_db d s₁)

-- `agents.close_by_task`
abbrev pub close_by_task : Uuid → State → State
close_by_task id s = record s { closed = s.closed ++ id ∷ [] }

-- `none` is the error "task not found".
-- the cancellation of a task that is there
unfoldable pub cancel_found : Uuid → Task → State → State × Option Task
unfolding announce_cancelled
cancel_found id t s =
    let (d, changed) = cancel_active_task s.now id s.db in
    let s' : State = close_by_task id (with_db d s) in
    let cancelled : Task = elim (get_task id d) [ some fresh ↦ fresh | none ↦ t ] in
    if changed
    then (announce_cancelled cancelled s', some (summary cancelled))
    else (with_db d s, some (summary t))

-- `none` is the error "task not found".
unfoldable pub cancel_task : Uuid → State → State × Option Task
unfolding cancel_found
cancel_task id s = elim (get_task id s.db) [ none ↦ (s, none) | some t ↦ cancel_found id t s ]

-- re-read, so that the push carries the stored row
unfoldable pub announce_stored : Uuid → State → State
unfolding announce_cancelled
announce_stored id s = elim (get_task id s.db) [
  | some fresh ↦ announce_cancelled fresh s
  | none ↦ s
]

-- one task of the loop of `cancel_workflow`, with whether it was cancelled
unfoldable pub cancel_one : Task → State → State × Bool
unfolding announce_stored
cancel_one t s =
    let (d, changed) = cancel_active_task s.now t.id s.db in
    if is_terminal t.status
    then (s, false)
    else if changed
    then (announce_stored t.id (close_by_task t.id (with_db d s)), true)
    else (with_db d s, false)

unfoldable pub cancel_all : List Task → State → State × List Uuid
unfolding cancel_one
cancel_all [] s = (s, [])
cancel_all (t ∷ ts) s =
    let (s', changed) = cancel_one t s in
    let (s'', ids) = cancel_all ts s' in (s'', if changed then t.id ∷ ids else ids)

-- `none` is the error "workflow root not found".
unfoldable pub cancel_workflow : Uuid → State → State × Option (List Uuid)
unfolding cancel_all
cancel_workflow root s = elim (list_root_tasks root s.db) [
  | [] ↦ (s, none)
  | t ∷ ts ↦ let (s', ids) = cancel_all (t ∷ ts) s in (s', some ids)
]
