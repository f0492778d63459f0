-- ===== src/Store/Live.antt =====
-- At most one attempt of a task is in flight: the invariant that the compare-and-set statements of
-- crates/favetto/src/db.rs keep, under the statements of the daemon in any order.
use favetto.Common.{
  not, ℕ, delete_where, count_where-delete_le, is_some, ◌+◌, ◌≤◌, ◌<◌, ◌==◌, ==_iff, ◌≡◌, refl,
  subst, inl, inr, Bool, true, false, ◌&&◌, any, List, [], ◌∷◌, Text, Option, none, some, arith,
  update_where, count_where, count_where-append, count_where-update_le, count_where-update_where,
  count_where-update_none, Bool-cases,
}
use favetto.Model.Status.{TaskStatus, Failure}
use favetto.Model.Task.{Uuid, Time, Task, TaskRun}
use favetto.Store.Schema.{
  TaskRow, Db, is_pending, is_active, is_failed, is_terminal, is_open, status_eq, run_is_open,
}
use favetto.Store.Tasks.{
  conflicts, where_status, finish_row, cancel_row, status_row, has_task_id, session_row,
  requeue_row, fail_row, retry_row, insert_task, fail_stale_task, retry_stale_task,
  schedule_task_retry, requeue_terminal_task, cancel_active_task, finish_active_task,
  fail_pending_task, set_task_status_if, set_task_session,
}
use favetto.Store.Runs.{interrupt_run, interrupt_row, open_run, finalize_task_run, finalize_row}
use favetto.Store.Prune.{clear_outputs, is_old, has_id, newest, delete_old_tasks, delete_dead_runs}
use favetto.Store.Queue.{claim_task, claim_row, claimed_run}

-- an attempt of the task that is in flight
abbrev pub open_of : Uuid → TaskRun → Bool
open_of id u = u.task_id == id && run_is_open u.status

abbrev pub has_run_id : Uuid → TaskRun → Bool
has_run_id id u = u.id == id

-- What holds of each id: one row and one run have it at most, at most one attempt of the task is
-- in flight, and none while the task waits in the queue.
pub record LiveAt (d : Db) (id : Uuid) : Type 0 where
  pub row : count_where (has_task_id id) d.tasks ≤ 1
  pub run : count_where (has_run_id id) d.runs ≤ 1
  pub one : count_where (open_of id) d.runs ≤ 1
  pub queued :
      0 < count_where (where_status id is_pending) d.tasks → count_where (open_of id) d.runs ≡ 0

abbrev pub Live : Db → Type 0
Live d = (id : Uuid) → LiveAt d id

abbrev pub Idle : Uuid → Db → Type 0
Idle id d = count_where (open_of id) d.runs ≡ 0

-- The writes of the daemon to `tasks` and `task_runs`. A new task has no runs, a new run has a new
-- id, a finish carries a terminal status, and the three statements that put a task back in the
-- queue meet no attempt in flight.
pub data Step (d : Db) : Db → Type 0 where
  submit : (t : Task) → Idle t.id d → Step d (insert_task t d)
  claim :
      (now : Time) (run_id : Uuid) (t : Task)
      → count_where (has_run_id run_id) d.runs ≡ 0
      → Step d (claim_task now run_id t d).0
  finish : (t : Task) → is_terminal t.status ≡ true → Step d (finish_active_task t d).0
  finalize : (run : TaskRun) → run_is_open run.status ≡ false → Step d (finalize_task_run run d).0
  cancel : (now : Time) (id : Uuid) → Step d (cancel_active_task now id d).0
  await :
      (id : Uuid) → Step d (set_task_status_if id TaskStatus.awaiting_input TaskStatus.running d).0
  resume :
      (id : Uuid) → Step d (set_task_status_if id TaskStatus.running TaskStatus.awaiting_input d).0
  session :
      (id : Uuid) (sid : Text) (title : Option Text) → Step d (set_task_session id sid title d).0
  auto_retry : (id : Uuid) (at : Time) → Idle id d → Step d (schedule_task_retry id at d).0
  requeue : (id : Uuid) → Idle id d → Step d (requeue_terminal_task id d).0
  retry_stale : (id : Uuid) → Idle id d → Step d (retry_stale_task id d).0
  fail_stale :
      (now : Time) (id : Uuid) (error : Text) (failure : Failure)
      → Step d (fail_stale_task now id error failure d).0
  fail_pending :
      (now : Time) (id : Uuid) (error : Text) (failure : Failure)
      → Step d (fail_pending_task now id error failure d).0
  interrupt :
      (now : Time) (id : Uuid) (error : Text) (failure : Failure)
      → Step d (interrupt_run now id error failure d).0
  prune_outputs : (cutoff : Time) → Step d (clear_outputs cutoff d).0
  delete_tasks : (cutoff : Time) (min_tasks : ℕ) → Step d (delete_old_tasks cutoff min_tasks d).0
  delete_runs : Step d (delete_dead_runs d).0

-- an UPDATE of `tasks` that keeps ids and puts no task in the queue
update_keeps :
    (p : TaskRow → Bool) (f : TaskRow → TaskRow) (d : Db)
    → ((r : TaskRow) → p r ≡ true → (f r).id ≡ r.id)
    → ((r : TaskRow) → p r ≡ true → is_pending (f r).status ≡ true → is_pending r.status ≡ true)
    → Live d
    → Live (record d { tasks = update_where p f d.tasks })
update_keeps p f d same_id stays live id =
    let l = live id in
    record {
      row = omega (
        arith,
        l.row,
        count_where-update_where (has_task_id id) p f d.tasks (λ r e. ground (arith, same_id r e)),
      );
      run = l.run;
      one = l.one;
      queued = λ k. l.queued (
          omega (
            arith,
            k,
            count_where-update_le (where_status id is_pending) p f d.tasks
                (λ r e h. ground (arith, same_id r e, stays r e)),
          ));
    }

-- an UPDATE of the rows of one task that has no attempt in flight
requeue_keeps :
    (i : Uuid) (p : TaskRow → Bool) (f : TaskRow → TaskRow) (d : Db)
    → ((r : TaskRow) → p r ≡ true → r.id ≡ i)
    → ((r : TaskRow) → p r ≡ true → (f r).id ≡ r.id)
    → Idle i d
    → Live d
    → Live (record d { tasks = update_where p f d.tasks })
requeue_keeps i p f d only same_id idle live id =
    let l = live id in
    record {
      row = omega (
        arith,
        l.row,
        count_where-update_where (has_task_id id) p f d.tasks (λ r e. ground (arith, same_id r e)),
      );
      run = l.run;
      one = l.one;
      queued = λ k. elim (Bool-cases (i == id)) [
        | inl e ↦ subst (λ x. Idle x d) ((==_iff i id).0 e) idle
        | inr e ↦ l.queued (
            omega (
              arith,
              k,
              count_where-update_le (where_status id is_pending) p f d.tasks
                  (λ r e' h. ground (arith, only r e', same_id r e')),
            ))
      ];
    }

-- an UPDATE of `task_runs` that keeps ids and opens no run
runs_keep :
    (p : TaskRun → Bool) (f : TaskRun → TaskRun) (d : Db)
    → ((u : TaskRun) → p u ≡ true → ((f u).id ≡ u.id) × ((f u).task_id ≡ u.task_id))
    → ((u : TaskRun) → p u ≡ true → run_is_open (f u).status ≡ false)
    → Live d
    → Live (record d { runs = update_where p f d.runs })
runs_keep p f d same closes live id =
    let l = live id in
    let fewer : count_where (open_of id) (update_where p f d.runs)
        ≤ count_where (open_of id) d.runs =
      count_where-update_le (open_of id) p f d.runs
        (λ u e h. ground (arith, same u e, closes u e)) in
    record {
      row = l.row;
      run = omega (
        arith,
        l.run,
        count_where-update_where (has_run_id id) p f d.runs (λ u e. ground (arith, same u e)),
      );
      one = omega (arith, l.one, fewer);
      queued = λ k. omega (arith, l.queued k, fewer);
    }

-- a DELETE
delete_tasks_keeps :
    (p : TaskRow → Bool) (d : Db) → Live d → Live (record d { tasks = delete_where p d.tasks })
delete_tasks_keeps p d live id =
    let l = live id in
    record {
      row = omega (arith, l.row, count_where-delete_le (has_task_id id) p d.tasks);
      run = l.run;
      one = l.one;
      queued = λ k.
          l.queued (omega (arith, k, count_where-delete_le (where_status id is_pending) p d.tasks));
    }

delete_runs_keeps :
    (p : TaskRun → Bool) (d : Db) → Live d → Live (record d { runs = delete_where p d.runs })
delete_runs_keeps p d live id =
    let l = live id in
    let fewer = count_where-delete_le (open_of id) p d.runs in
    record {
      row = l.row;
      run = omega (arith, l.run, count_where-delete_le (has_run_id id) p d.runs);
      one = omega (arith, l.one, fewer);
      queued = λ k. omega (arith, l.queued k, fewer);
    }

no_conflict :
    (t : Task) (rows : List TaskRow)
    → any (conflicts t) rows ≡ false
    → count_where (has_task_id t.id) rows ≡ 0
unfolding conflicts
no_conflict t [] h = refl
no_conflict t (r ∷ rows) h = ground (arith, no_conflict t rows)

submit_keeps : (t : Task) (d : Db) → Idle t.id d → Live d → Live (insert_task t d)
unfolding insert_task
submit_keeps t d idle live = elim (Bool-cases (any (conflicts t) d.tasks)) [
  | inl e ↦ rw e live
  | inr e ↦ rw e λ id.
      let l = live id in
      let new : List TaskRow = record { task = t; retry_at = none } ∷ [] in
      record {
        row = ground (
          arith,
          l.row,
          no_conflict t d.tasks e,
          count_where-append (has_task_id id) d.tasks new,
        );
        run = l.run;
        one = l.one;
        queued = λ k. elim (Bool-cases (t.id == id)) [
          | inl same ↦ subst (λ x. Idle x d) ((==_iff t.id id).0 same) idle
          | inr other ↦
              l.queued
                (ground (arith, k, count_where-append (where_status id is_pending) d.tasks new))
        ];
      }
]

claim_keeps :
    (now : Time) (run_id : Uuid) (t : Task) (d : Db)
    → count_where (has_run_id run_id) d.runs ≡ 0
    → Live d
    → Live (claim_task now run_id t d).0
unfolding claim_task claimed_run
claim_keeps now run_id t d fresh live =
    elim (Bool-cases (count_where (where_status t.id is_pending) d.tasks == 1)) [
      | inr e ↦ rw e live
      | inl e ↦ rw e λ id.
          let l = live id in
          let p : TaskRow → Bool = where_status t.id is_pending in
          let f : TaskRow → TaskRow = claim_row now (t.attempt + 1) in
          let new : List TaskRun = claimed_run now run_id t ∷ [] in
          let won : 0 < count_where p d.tasks = ground arith in
          let more = count_where-append (open_of id) d.runs new in
          let idle : (t.id == id) ≡ true → count_where (open_of id) d.runs ≡ 0 = λ same.
            subst (λ x. count_where (open_of x) d.runs ≡ 0) ((==_iff t.id id).0 same)
              ((live t.id).queued won) in
          record {
            row =
                omega (
                  arith,
                  l.row,
                  count_where-update_where (has_task_id id) p f d.tasks (λ r e. refl),
                );
            run = ground (arith, l.run, fresh, count_where-append (has_run_id id) d.runs new);
            one = ground (arith, l.one, idle, more);
            queued = λ k. elim (Bool-cases (t.id == id)) [
              | inl same ↦ absurd (
                  omega (
                    arith,
                    k,
                    count_where-update_none (where_status id is_pending) p f d.tasks
                        (λ r. ground (arith, same)),
                  ))
              | inr other ↦ ground (
                arith,
                other,
                more,
                l.queued (
                    omega (
                      arith,
                      k,
                      count_where-update_le (where_status id is_pending) p f d.tasks
                          (λ r e' h. ground arith),
                    )),
              )
            ];
          }
    ]

-- Whatever statement the daemon runs on `tasks` or `task_runs`, the retention pass included, at most one attempt of each task is in flight afterwards, no
-- id is used twice, and no task that waits in the queue has an attempt in flight, if all that held
-- before. Here a task that is new or goes back to the queue has no attempt in flight, a new run
-- has a new id, a finish carries a terminal status, and a finalized run is closed.
pub Step-Live : {d e : Db} → Step d e → Live d → Live e
unfolding finish_active_task cancel_active_task set_task_status_if set_task_session
    schedule_task_retry requeue_terminal_task fail_stale_task retry_stale_task fail_pending_task
    finalize_task_run interrupt_run clear_outputs delete_old_tasks delete_dead_runs
Step-Live {d} (submit t idle) live = submit_keeps t d idle live
Step-Live {d} (claim now run_id t fresh) live = claim_keeps now run_id t d fresh live
Step-Live {d} (finish t h) live =
    update_keeps (where_status t.id is_active) (finish_row t) d (λ r e. refl)
      (λ r e k. ground arith) live
Step-Live {d} (finalize run h) live =
    runs_keep (has_run_id run.id) (finalize_row run) d (λ u e. (refl, refl)) (λ u e. h) live
Step-Live {d} (cancel now id) live =
    update_keeps (where_status id is_open) (cancel_row now) d (λ r e. refl) (λ r e k. ground arith)
      live
Step-Live {d} (await id) live =
    update_keeps (where_status id (λ s. status_eq s TaskStatus.running))
      (status_row TaskStatus.awaiting_input) d (λ r e. refl) (λ r e k. ground arith) live
Step-Live {d} (resume id) live =
    update_keeps (where_status id (λ s. status_eq s TaskStatus.awaiting_input))
      (status_row TaskStatus.running) d (λ r e. refl) (λ r e k. ground arith) live
Step-Live {d} (session id sid title) live =
    update_keeps (has_task_id id) (session_row sid title) d (λ r e. refl) (λ r e k. k) live
Step-Live {d} (auto_retry id at idle) live =
    requeue_keeps id (where_status id is_failed) (requeue_row (some at)) d (λ r e. ground arith)
      (λ r e. refl) idle live
Step-Live {d} (requeue id idle) live =
    requeue_keeps id (where_status id is_terminal) (requeue_row none) d (λ r e. ground arith)
      (λ r e. refl) idle live
Step-Live {d} (retry_stale id idle) live =
    requeue_keeps id (where_status id is_active) retry_row d (λ r e. ground arith) (λ r e. refl)
      idle live
Step-Live {d} (fail_stale now id error failure) live =
    update_keeps (where_status id is_active) (fail_row now error failure) d (λ r e. refl)
      (λ r e k. ground arith) live
Step-Live {d} (fail_pending now id error failure) live =
    update_keeps (where_status id is_pending) (fail_row now error failure) d (λ r e. refl)
      (λ r e k. ground arith) live
Step-Live {d} (interrupt now id error failure) live =
    runs_keep (open_run id) (interrupt_row now error failure) d (λ u e. (refl, refl)) (λ u e. refl)
      live
Step-Live {d} (prune_outputs cutoff) live =
    update_keeps (λ r. is_some r.output && is_old cutoff r)
      (λ r. record r { task = record r.task { output = none } }) d (λ r e. refl) (λ r e k. k) live
Step-Live {d} (delete_tasks cutoff min_tasks) live =
    delete_tasks_keeps (λ r. is_old cutoff r && not (has_id r.id (newest min_tasks d.tasks))) d live
Step-Live {d} delete_runs live = delete_runs_keeps (λ u. not (has_id u.task_id d.tasks)) d live
