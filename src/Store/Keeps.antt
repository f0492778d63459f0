-- ===== src/Store/Keeps.antt =====
-- Changes of the database that open no attempt: crates/favetto/src/db.rs.
use favetto.Common.{
  ◌≤◌, ◌≡◌, refl, arith, Text, count_where, count_where-update_le, false, any, Bool-cases, inl, inr,
}
use favetto.Model.Status.{Failure}
use favetto.Model.Task.{Uuid, Time, Task, TaskRun}
use favetto.Store.Schema.{Db, run_is_open}
use favetto.Store.Tasks.{insert_task, conflicts}
use favetto.Store.Runs.{interrupt_run, interrupt_row, open_run, finalize_task_run, finalize_row}
use favetto.Store.Live.{open_of, has_run_id, Live, Idle, Step, Step-Live}

-- `e` comes from `d` by a change that keeps `Live`, opens no attempt and uses no new run id.
pub record Keeps (d e : Db) : Type 0 where
  pub live : Live d → Live e
  pub opens : (id : Uuid) → count_where (open_of id) e.runs ≤ count_where (open_of id) d.runs
  pub ids : (id : Uuid) → count_where (has_run_id id) e.runs ≤ count_where (has_run_id id) d.runs

pub Live-tables : (d e : Db) → e.tasks ≡ d.tasks → e.runs ≡ d.runs → Live d → Live e
Live-tables d e t r live id =
    let l = live id in
    record { row = rw t l.row; run = rw r l.run; one = rw r l.one; queued = rw (t, r) l.queued }

pub Keeps-tables : (d e : Db) → e.tasks ≡ d.tasks → e.runs ≡ d.runs → Keeps d e
Keeps-tables d e t r = record {
  live = Live-tables d e t r;
  opens = λ id. rw r (omega arith);
  ids = λ id. rw r (omega arith);
}

pub Keeps-trans : {d e f : Db} → Keeps d e → Keeps e f → Keeps d f
Keeps-trans a b = record {
  live = λ h. b.live (a.live h);
  opens = λ id. omega (arith, a.opens id, b.opens id);
  ids = λ id. omega (arith, a.ids id, b.ids id);
}

-- a statement on `tasks`
pub Keeps-Step : {d e : Db} → Step d e → e.runs ≡ d.runs → Keeps d e
Keeps-Step st r = record {
  live = Step-Live st;
  opens = λ id. rw r (omega arith);
  ids = λ id. rw r (omega arith);
}

pub Keeps-finalize_task_run :
    (run : TaskRun) (d : Db) → run_is_open run.status ≡ false → Keeps d (finalize_task_run run d).0
unfolding finalize_task_run
Keeps-finalize_task_run run d h = record {
  live = Step-Live (Step.finalize run h);
  opens = λ id.
      count_where-update_le (open_of id) (has_run_id run.id) (finalize_row run) d.runs
        (λ u e k. ground (arith, h));
  ids = λ id.
      count_where-update_le (has_run_id id) (has_run_id run.id) (finalize_row run) d.runs
        (λ u e k. k);
}

pub Keeps-interrupt_run :
    (now : Time) (id : Uuid) (error : Text) (failure : Failure) (d : Db)
    → Keeps d (interrupt_run now id error failure d).0
unfolding interrupt_run
Keeps-interrupt_run now id error failure d = record {
  live = Step-Live (Step.interrupt now id error failure);
  opens = λ i.
      count_where-update_le (open_of i) (open_run id) (interrupt_row now error failure) d.runs
        (λ u e k. ground arith);
  ids = λ i.
      count_where-update_le (has_run_id i) (open_run id) (interrupt_row now error failure) d.runs
        (λ u e k. k);
}

pub Keeps-insert_task : (t : Task) (d : Db) → Idle t.id d → Keeps d (insert_task t d)
unfolding insert_task
Keeps-insert_task t d idle =
    Keeps-Step (Step.submit t idle)
      (elim (Bool-cases (any (conflicts t) d.tasks)) [ inl e ↦ rw e refl | inr e ↦ rw e refl ])
