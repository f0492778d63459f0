-- ===== src/Executor/Attempts.antt =====
-- The end of an attempt closes it, and an automatic retry comes only after that:
-- crates/favetto/src/executor.rs.
use favetto.Common.{
  ◌<◌, ◌≡◌, refl, sym, subst, arith, Option, none, some, Text, Bool, true, false, ◌&&◌,
  Option-cases, inl, inr, count_where, count_where-update_minus, if◌then◌else◌, Result, ok, err,
}
use favetto.Model.Status.{Failure}
use favetto.Model.Task.{Uuid, Time, Value, Task, TaskRun, root_or_self}
use favetto.Store.Schema.{Db, is_terminal, run_is_open}
use favetto.Store.Tasks.{get_task, schedule_task_retry, finish_active_task}
use favetto.Store.Runs.{finalize_task_run, finalize_row}
use favetto.Store.Live.{Live, Idle, has_run_id, open_of, Step}
use favetto.Store.Keeps.{Keeps, Keeps-trans, Keeps-Step, Keeps-finalize_task_run}
use favetto.Retry.{should_retry}
use favetto.Catalog.Def.{TaskDef}
use favetto.Executor.State.{
  External, State, publish, publish_task, emit_event, with_db, task_payload, id_payload,
}
use favetto.Model.EventKind.{EventKind}
use favetto.Executor.Outcome.{
  RunOutcome, RunError, record_run_outcome, announce_idle, retry_failed, finished_payload,
  schedule_auto_retry, retry_time,
}
use favetto.Executor.Run.{
  with_outcome, finish_in_db, finished_run, finished_status, run_outcome, spawned, spawn_after,
  emit_finished, complete_run, gate_open,
}
use favetto.Executor.Dependents.{spawn_from_manifest}
use favetto.Executor.Join.{evaluate_join_barriers}
use favetto.Executor.Safe.{
  Safe, Safe-keeps, Keeping, Keeping-refl, Keeping-trans, emit_event-Keeping, if-Safe,
  spawn_from_manifest-Safe, evaluate_join_barriers-Safe,
}

-- the attempt `run` of the task is in flight
abbrev pub InFlight : Uuid → TaskRun → Db → Type 0
InFlight id run d = 0 < count_where (λ u. has_run_id run.id u && open_of id u) d.runs

with_outcome-lem :
    (now : Time) (t : Task) (o : Result RunError RunOutcome)
    → ((with_outcome now t o).0.id ≡ t.id) × (is_terminal (with_outcome now t o).0.status ≡ true)
unfolding record_run_outcome
with_outcome-lem now t (ok run) = elim (Option-cases run.failure) [
  | inl e ↦ rw e (refl, refl)
  | inr (f, e) ↦ rw e (refl, refl)
]
with_outcome-lem now t (err e) = (refl, refl)

finished_status-closed :
    (finished success : Bool) → run_is_open (finished_status finished success) ≡ false
finished_status-closed false success = refl
finished_status-closed true true = refl
finished_status-closed true false = refl

-- finalizing the only attempt in flight leaves none
pub finalize-Idle :
    (id : Uuid) (run : TaskRun) (d : Db)
    → run_is_open run.status ≡ false
    → InFlight id run d
    → Live d
    → Idle id (finalize_task_run run d).0
unfolding finalize_task_run
finalize-Idle id run d closed flies live = omega (
  arith,
  flies,
  (live id).one,
  count_where-update_minus (open_of id) (has_run_id run.id) (finalize_row run) d.runs
      (λ u e. ground (arith, closed)),
)

-- The two writes at the end of an attempt that is in flight keep every task at one attempt, and
-- leave this task without one, whether or not the task was cancelled meanwhile.
pub finish_in_db-Idle :
    (now : Time) (t : Task) (run : TaskRun) (def : TaskDef) (agent : Option Text)
    (o : Result RunError RunOutcome) (d : Db)
    → Live d
    → InFlight t.id run d
    → let e = (finish_in_db now t run def agent o d).0 in Keeps d e × Idle t.id e
unfolding finish_in_db finished_run finish_active_task
finish_in_db-Idle now t run def agent o d live flies =
    let t' : Task = (with_outcome now t o).0 in
    let success : Bool = (with_outcome now t o).1 in
    let d' : Db = (finish_active_task t' d).0 in
    let finished : Bool = (finish_active_task t' d).1 in
    let run' : TaskRun = finished_run run t' def agent o (finished_status finished success) in
    let first : Keeps d d' = Keeps-Step (Step.finish t' (with_outcome-lem now t o).1) refl in
    let closed = finished_status-closed finished success in
    (
      Keeps-trans first (Keeps-finalize_task_run run' d' closed),
      finalize-Idle t.id run' d' closed flies (first.live live),
    )

Keeps-schedule :
    (id : Uuid) (at : Time) (d : Db) → Idle id d → Keeps d (schedule_task_retry id at d).0
unfolding schedule_task_retry
Keeps-schedule id at d idle = Keeps-Step (Step.auto_retry id at idle) refl

pub announce_idle-Keeping : (id : Uuid) (s : State) → Keeping s (announce_idle id s)
unfolding announce_idle publish_task publish
announce_idle-Keeping id s =
    elim (get_task id s.db)
      as (λ o. Keeping s (elim o as (λ x. State) [
        | some fresh ↦
            emit_event EventKind.task_idle (task_payload fresh.name fresh.id) (publish_task fresh s)
        | none ↦ s
      ])) [
        | none ↦ Keeping-refl s
        | some t ↦
            emit_event-Keeping EventKind.task_idle (task_payload t.name t.id) (publish_task t s)
      ]

if-Keeping :
    (b : Bool) (d : State) (s t : State × Bool)
    → Keeping d s.0
    → Keeping d t.0
    → Keeping d (if b then s else t).0
if-Keeping true d s t h k = h
if-Keeping false d s t h k = k

retry_failed-Keeping :
    (f : Failure) (t : Task) (s : State) → Idle t.id s.db → Keeping s (retry_failed f t s).0
unfolding retry_failed
retry_failed-Keeping f t s idle =
    let at : Time = retry_time s.retry_settings s.now t.attempt in
    let s' : State = with_db (schedule_task_retry t.id at s.db).0 s in
    if-Keeping (should_retry s.retry_settings t.attempt f && (schedule_task_retry t.id at s.db).1) s
      (announce_idle t.id s', true) (s, false)
      (Keeping-trans s s' (announce_idle t.id s') (Keeps-schedule t.id at s.db idle, omega arith)
        (announce_idle-Keeping t.id s'))
      (Keeping-refl s)

-- an automatic retry of a task that has no attempt in flight
pub schedule_auto_retry-Keeping :
    (t : Task) (s : State) → Idle t.id s.db → Keeping s (schedule_auto_retry t s).0
unfolding schedule_auto_retry
schedule_auto_retry-Keeping t s idle =
    elim t.failure
      as (λ o.
        Keeping s
          (elim o as (λ x. State × Bool) [ none ↦ (s, false) | some f ↦ retry_failed f t s ]).0) [
            | none ↦ Keeping-refl s
            | some f ↦ retry_failed-Keeping f t s idle
          ]

spawn_after-Safe :
    (ext : External) (t : Task) (def : TaskDef) (gate : Bool) (manifest : Option Value) (s : State)
    → Safe ext s
    → Safe ext (spawn_after ext t def gate manifest s)
unfolding spawn_after
spawn_after-Safe ext t def gate manifest s safe =
    elim def.spawn
      as (λ o. Safe ext (elim o as (λ x. State) [
        | none ↦ s
        | some target ↦
            if def.spawn_new_root
            then spawned ext t def gate manifest s
            else evaluate_join_barriers ext target (root_or_self t) (some t.id)
                (spawned ext t def gate manifest s)
      ])) [
        | none ↦ safe
        | some target ↦
            let after =
              if-Safe ext (gate_open def gate) (spawn_from_manifest ext t def manifest s) s
                (spawn_from_manifest-Safe ext t def manifest s safe) safe in
            if-Safe ext def.spawn_new_root _ _ after (
              evaluate_join_barriers-Safe ext target (root_or_self t) (some t.id)
                (spawned ext t def gate manifest s) after)
      ]

emit_finished-Keeping :
    (t : Task) (success : Bool) (s : State) → Keeping s (emit_finished t success s)
unfolding emit_finished
emit_finished-Keeping t success s =
    let kind : EventKind = if success then EventKind.task_completed else EventKind.task_failed in
    let first : State = emit_event kind (id_payload t.id) s in
    Keeping-trans s first (emit_finished t success s) (emit_event-Keeping kind (id_payload t.id) s)
      (emit_event-Keeping EventKind.task_finished (finished_payload t success) first)

-- An attempt that comes to its end while it is in flight, with whatever outcome, manifest and
-- gate, and whether or not the task was cancelled meanwhile, keeps every task at one attempt and
-- the ids to come unused, through the retry, the events and the spawned tasks that follow it.
pub complete_run-Safe :
    (ext : External) (agent : Option Text) (t : Task) (run : TaskRun) (def : TaskDef)
    (launched : Result RunError RunOutcome) (gate : Bool) (manifest : Option Value) (s : State)
    → InFlight t.id run s.db
    → Safe ext s
    → Safe ext (complete_run ext agent t run def launched gate manifest s)
unfolding complete_run publish_task publish
complete_run-Safe ext agent t run def launched gate manifest s flies safe =
    let o : Result RunError RunOutcome = run_outcome def agent launched in
    let (t', success) : Task × Bool = with_outcome s.now t o in
    let written : State = with_db (finish_in_db s.now t run def agent o s.db).0 s in
    let (keeps, idle) = finish_in_db-Idle s.now t run def agent o s.db safe.0 flies in
    let safe' : Safe ext written = Safe-keeps ext s written (keeps, omega arith) safe in
    let announced : State = publish_task t' written in
    let emitted : (b : Bool) → Safe ext (emit_finished t' b announced) = λ b.
      Safe-keeps ext announced (emit_finished t' b announced) (emit_finished-Keeping t' b announced)
        safe' in
    let retried : State = (schedule_auto_retry t' announced).0 in
    if-Safe ext _ written _ safe' (
      if-Safe ext success (spawn_after ext t' def gate manifest (emit_finished t' true announced)) _
        (spawn_after-Safe ext t' def gate manifest (emit_finished t' true announced) (emitted true))
        (if-Safe ext _ retried (emit_finished t' false announced)
          (Safe-keeps ext announced retried
            (schedule_auto_retry-Keeping t' announced
              (subst (λ i. Idle i announced.db) (sym (with_outcome-lem s.now t o).0) idle))
            safe')
          (emitted false)))
