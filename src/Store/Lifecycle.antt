-- ===== src/Store/Lifecycle.antt =====
-- What a statement of crates/favetto/src/db.rs can do to a row of `tasks`.
use favetto.Common.{
  ℕ, is_some, delete_where, not, ◌&&◌, ◌+◌, ◌==◌, ◌≡◌, inl, inr, Bool, true, any, List, [], ◌∷◌,
  ◌++◌, Option, none, some, Text, arith, update_where, count_where, Bool-cases,
}
use favetto.Model.Status.{TaskStatus, Failure}
use favetto.Model.Task.{Uuid, Time, Task}
use favetto.Store.Schema.{
  TaskRow, Db, is_pending, is_active, is_failed, is_terminal, is_open, status_eq,
}
use favetto.Store.Tasks.{
  conflicts, where_status, finish_row, cancel_row, status_row, has_task_id, session_row,
  requeue_row, fail_row, retry_row, insert_task, fail_stale_task, retry_stale_task,
  schedule_task_retry, requeue_terminal_task, cancel_active_task, finish_active_task,
  fail_pending_task, set_task_status_if, set_task_session,
}
use favetto.Store.Prune.{clear_outputs, is_old, has_id, newest, delete_old_tasks}
use favetto.Store.Queue.{claim_task, claim_row}

-- the edges of the lifecycle, `stay` included
abbrev pub edge : TaskStatus → TaskStatus → Bool
edge TaskStatus.pending TaskStatus.running = true
edge TaskStatus.pending TaskStatus.failed = true
edge TaskStatus.pending TaskStatus.cancelled = true
edge TaskStatus.running TaskStatus.pending = true
edge TaskStatus.running TaskStatus.awaiting_input = true
edge TaskStatus.awaiting_input TaskStatus.pending = true
edge TaskStatus.awaiting_input TaskStatus.running = true
edge TaskStatus.running TaskStatus.succeeded = true
edge TaskStatus.running TaskStatus.failed = true
edge TaskStatus.running TaskStatus.cancelled = true
edge TaskStatus.awaiting_input TaskStatus.succeeded = true
edge TaskStatus.awaiting_input TaskStatus.failed = true
edge TaskStatus.awaiting_input TaskStatus.cancelled = true
edge TaskStatus.succeeded TaskStatus.pending = true
edge TaskStatus.failed TaskStatus.pending = true
edge TaskStatus.cancelled TaskStatus.pending = true
edge a b = status_eq a b

-- What becomes of one row: its identity, lineage and input stay, and its status moves along an
-- edge.
pub record RowStep (r s : TaskRow) : Type 0 where
  pub id : s.id ≡ r.id
  pub name : s.name ≡ r.name
  pub input : s.input ≡ r.input
  pub dedupe_key : s.dedupe_key ≡ r.dedupe_key
  pub created_at : s.created_at ≡ r.created_at
  pub parent_id : s.parent_id ≡ r.parent_id
  pub root_id : s.root_id ≡ r.root_id
  pub interactive : s.interactive ≡ r.interactive
  pub moves : edge r.status s.status ≡ true

-- Each row takes a step or, if it has a finish time, is deleted; rows may be added behind.
pub data Evolves : List TaskRow → List TaskRow → Type 0 where
  done : (new : List TaskRow) → Evolves [] new
  kept :
      {r s : TaskRow} {rs ss : List TaskRow}
      → RowStep r s
      → Evolves rs ss
      → Evolves (r ∷ rs) (s ∷ ss)
  gone :
      {r : TaskRow} {rs ss : List TaskRow}
      → is_some r.finished_at ≡ true
      → Evolves rs ss
      → Evolves (r ∷ rs) ss

-- The statements that write `tasks`, each with the arguments that the daemon can give it: a finish
-- carries a terminal status, and the status writes of the watcher are the two of
-- `reconcile_task` in crates/favetto/src/attention.rs.
pub data Write (d : Db) : Db → Type 0 where
  insert : (t : Task) → Write d (insert_task t d)
  claim : (now : Time) (run_id : Uuid) (t : Task) → Write d (claim_task now run_id t d).0
  finish : (t : Task) → is_terminal t.status ≡ true → Write d (finish_active_task t d).0
  cancel : (now : Time) (id : Uuid) → Write d (cancel_active_task now id d).0
  await :
      (id : Uuid) → Write d (set_task_status_if id TaskStatus.awaiting_input TaskStatus.running d).0
  resume :
      (id : Uuid) → Write d (set_task_status_if id TaskStatus.running TaskStatus.awaiting_input d).0
  session :
      (id : Uuid) (sid : Text) (title : Option Text) → Write d (set_task_session id sid title d).0
  auto_retry : (id : Uuid) (at : Time) → Write d (schedule_task_retry id at d).0
  requeue : (id : Uuid) → Write d (requeue_terminal_task id d).0
  fail_stale :
      (now : Time) (id : Uuid) (error : Text) (failure : Failure)
      → Write d (fail_stale_task now id error failure d).0
  retry_stale : (id : Uuid) → Write d (retry_stale_task id d).0
  fail_pending :
      (now : Time) (id : Uuid) (error : Text) (failure : Failure)
      → Write d (fail_pending_task now id error failure d).0
  prune_outputs : (cutoff : Time) → Write d (clear_outputs cutoff d).0
  delete_tasks : (cutoff : Time) (min_tasks : ℕ) → Write d (delete_old_tasks cutoff min_tasks d).0

RowStep-refl : (r : TaskRow) → RowStep r r
RowStep-refl r = ground arith

Evolves-refl : (rows new : List TaskRow) → Evolves rows (rows ++ new)
Evolves-refl [] new = done new
Evolves-refl (r ∷ rows) new = kept (RowStep-refl r) (Evolves-refl rows new)

Evolves-same : (rows : List TaskRow) → Evolves rows rows
Evolves-same [] = done []
Evolves-same (r ∷ rows) = kept (RowStep-refl r) (Evolves-same rows)

Evolves-update :
    (p : TaskRow → Bool) (f : TaskRow → TaskRow) (rows : List TaskRow)
    → ((r : TaskRow) → p r ≡ true → RowStep r (f r))
    → Evolves rows (update_where p f rows)
Evolves-update p f [] step = done []
Evolves-update p f (r ∷ rows) step =
    kept (ground (arith, step r, RowStep-refl r)) (Evolves-update p f rows step)

Evolves-delete :
    (p : TaskRow → Bool) (rows : List TaskRow)
    → ((r : TaskRow) → p r ≡ true → is_some r.finished_at ≡ true)
    → Evolves rows (delete_where p rows)
Evolves-delete p [] h = done []
Evolves-delete p (r ∷ rows) h = elim (Bool-cases (p r)) [
  | inl e ↦ rw e (gone (h r e) (Evolves-delete p rows h))
  | inr e ↦ rw e (kept (RowStep-refl r) (Evolves-delete p rows h))
]

Evolves-insert_task : (t : Task) (d : Db) → Evolves d.tasks (insert_task t d).tasks
unfolding insert_task
Evolves-insert_task t d = elim (Bool-cases (any (conflicts t) d.tasks)) [
  | inl e ↦ rw e (Evolves-same d.tasks)
  | inr e ↦ rw e (Evolves-refl d.tasks _)
]

Evolves-claim_task :
    (now : Time) (run_id : Uuid) (t : Task) (d : Db)
    → Evolves d.tasks (claim_task now run_id t d).0.tasks
unfolding claim_task
Evolves-claim_task now run_id t d =
    elim (Bool-cases (count_where (where_status t.id is_pending) d.tasks == 1)) [
      | inl e ↦ rw e (
          Evolves-update (where_status t.id is_pending) (claim_row now (t.attempt + 1)) d.tasks
            (λ r p. ground arith))
      | inr e ↦ rw e (Evolves-same d.tasks)
    ]

-- Whatever statement runs, the retention pass included, a row of `tasks` that has no finish time
-- stays in the table, and a row that stays keeps its id, name, input, dedupe key, creation time,
-- lineage and mode, while its status moves along an edge of the lifecycle; in particular a terminal
-- row leaves its state only for `pending`. Only a row with a finish time can be deleted.
pub Write-Evolves : {d e : Db} → Write d e → Evolves d.tasks e.tasks
unfolding finish_active_task cancel_active_task set_task_status_if set_task_session
    schedule_task_retry requeue_terminal_task fail_stale_task retry_stale_task fail_pending_task
    clear_outputs delete_old_tasks
Write-Evolves {d} (insert t) = Evolves-insert_task t d
Write-Evolves {d} (claim now run_id t) = Evolves-claim_task now run_id t d
Write-Evolves {d} (finish t h) =
    Evolves-update (where_status t.id is_active) (finish_row t) d.tasks (λ r e. ground arith)
Write-Evolves {d} (cancel now id) =
    Evolves-update (where_status id is_open) (cancel_row now) d.tasks (λ r e. ground arith)
Write-Evolves {d} (await id) =
    Evolves-update (where_status id (λ s. status_eq s TaskStatus.running))
      (status_row TaskStatus.awaiting_input) d.tasks (λ r e. ground arith)
Write-Evolves {d} (resume id) =
    Evolves-update (where_status id (λ s. status_eq s TaskStatus.awaiting_input))
      (status_row TaskStatus.running) d.tasks (λ r e. ground arith)
Write-Evolves {d} (session id sid title) =
    Evolves-update (has_task_id id) (session_row sid title) d.tasks (λ r e. ground arith)
Write-Evolves {d} (auto_retry id at) =
    Evolves-update (where_status id is_failed) (requeue_row (some at)) d.tasks (λ r e. ground arith)
Write-Evolves {d} (requeue id) =
    Evolves-update (where_status id is_terminal) (requeue_row none) d.tasks (λ r e. ground arith)
Write-Evolves {d} (fail_stale now id error failure) =
    Evolves-update (where_status id is_active) (fail_row now error failure) d.tasks
      (λ r e. ground arith)
Write-Evolves {d} (retry_stale id) =
    Evolves-update (where_status id is_active) retry_row d.tasks (λ r e. ground arith)
Write-Evolves {d} (fail_pending now id error failure) =
    Evolves-update (where_status id is_pending) (fail_row now error failure) d.tasks
      (λ r e. ground arith)
Write-Evolves {d} (prune_outputs cutoff) =
    Evolves-update (λ r. is_some r.output && is_old cutoff r)
      (λ r. record r { task = record r.task { output = none } }) d.tasks (λ r e. ground arith)
Write-Evolves {d} (delete_tasks cutoff min_tasks) =
    Evolves-delete (λ r. is_old cutoff r && not (has_id r.id (newest min_tasks d.tasks))) d.tasks
      (λ r e. ground arith)
