-- ===== src/Attention/Writes.antt =====
-- The status writes of crates/favetto/src/attention.rs.
use favetto.Common.{
  ◌≡◌, refl, inl, inr, Bool, true, false, none, some, Bool-cases, if◌then◌else◌, arith, count_where,
  count_where-update_none,
}
use favetto.Model.Status.{TaskStatus}
use favetto.Model.Task.{Uuid, Task}
use favetto.Store.Schema.{TaskRow, status_eq}
use favetto.Store.Tasks.{where_status, status_row, set_task_status_if, get_task}
use favetto.Executor.State.{State, publish_task, publish, with_db}
use favetto.Executor.Reconcile.{awaiting_edge, reconcile_task}

-- no row of the task has this status
abbrev pub Nowhere : Uuid → TaskStatus → State → Type 0
Nowhere id status s = count_where (where_status id (λ x. status_eq x status)) s.db.tasks ≡ 0

-- the statement of `reconcile_task` and the push behind it
abbrev pub moved : Uuid → TaskStatus → TaskStatus → State → State × Bool
moved id to from s =
    let (d, changed) = set_task_status_if id to from s.db in
    let s' = with_db d s in
    let pushed : State = elim (get_task id d) [ some t ↦ publish_task t s' | none ↦ s' ] in
    if changed then (pushed, true) else (s, false)

-- what holds if it holds behind the statement, pushed or not, and of a task that did not move
pub moved-holds :
    (P : State → Type 0) (id : Uuid) (to from : TaskStatus) (s : State)
    → let (d, changed) = set_task_status_if id to from s.db in
      P (with_db d s)
      → ((t : Task) → P (publish_task t (with_db d s)))
      → (changed ≡ false → P s)
      → P (moved id to from s).0
moved-holds P id to from s stored pushed same =
    let (d, changed) = set_task_status_if id to from s.db in
    elim (Bool-cases changed) [
      | inl e ↦
          rw e
            (elim (get_task id d)
              as (λ o. P (elim o as (λ x. State) [
                | some t ↦ publish_task t (with_db d s)
                | none ↦ with_db d s
              ])) [ some t ↦ pushed t | none ↦ stored ])
      | inr e ↦ rw e (same e)
    ]

move-Nowhere :
    (id : Uuid) (to from : TaskStatus) (s : State)
    → status_eq to from ≡ false
    → Nowhere id from (moved id to from s).0
unfolding set_task_status_if publish_task publish
move-Nowhere id to from s distinct =
    let p : TaskRow → Bool = where_status id (λ x. status_eq x from) in
    let left : Nowhere id from (with_db (set_task_status_if id to from s.db).0 s) =
      count_where-update_none p p (status_row to) s.db.tasks (λ r. ground (arith, distinct)) in
    moved-holds (Nowhere id from) id to from s left (λ t. left) (λ e. ground (arith, e))

-- the status that `reconcile_task` moves the task away from
pub reconcile_task-Nowhere :
    (id : Uuid) (awaiting : Bool) (s : State)
    → Nowhere id (awaiting_edge awaiting).1 (reconcile_task id awaiting s).0
unfolding reconcile_task
reconcile_task-Nowhere id true s =
    move-Nowhere id TaskStatus.awaiting_input TaskStatus.running s refl
reconcile_task-Nowhere id false s =
    move-Nowhere id TaskStatus.running TaskStatus.awaiting_input s refl
