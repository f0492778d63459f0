-- ===== src/Executor/Claims.antt =====
-- A dispatch opens at most one attempt: `dispatch_loop` and `fail_task` of
-- crates/favetto/src/executor.rs.
use favetto.Common.{
  ◌+◌, ◌≤◌, ◌≡◌, ◌≢◌, ◌==◌, ==_iff, ℕ, refl, sym, subst, arith, List, [], ◌∷◌, Option, none, some,
  Text, codes, Bool, true, false, ◌&&◌, Bool-cases, inl, inr, count_where, count_where-append,
  if◌then◌else◌,
}
use favetto.Model.Status.{FailureKind}
use favetto.Model.EventKind.{EventKind}
use favetto.Model.Task.{Uuid, Time, Task, TaskRun}
use favetto.Store.Schema.{Db, is_pending, is_active, is_terminal, run_is_open}
use favetto.Store.Tasks.{finish_active_task, where_status}
use favetto.Store.Runs.{insert_task_run}
use favetto.Store.Queue.{claim_task, claimed_run}
use favetto.Store.Live.{Live, Idle, has_run_id, open_of, Step, Step-Live}
use favetto.Store.Keeps.{Keeps, Keeps-trans, Keeps-Step, Keeps-finalize_task_run}
use favetto.Catalog.Def.{TaskDef}
use favetto.Executor.State.{External, State, publish_task, publish, with_db, emit_event}
use favetto.Executor.Outcome.{
  fail_task, fail_in_db, failed_task, failed_run, finalize_claimed, finished_payload,
  schedule_auto_retry,
}
use favetto.Executor.Run.{
  dispatch, dispatch_known, dispatch_ready, lookup_def, missing_required_vars,
}
use favetto.Executor.Safe.{Safe, Safe-keeps, if-Safe, emit_event-Keeping}
use favetto.Executor.Attempts.{InFlight, finalize-Idle, schedule_auto_retry-Keeping}

-- `new_v4` gives no id twice, and has not given the id of the task to anything that comes.
abbrev pub Unused : External → Uuid → State → Type 0
Unused ext id s =
    ((m n : ℕ) → ext.new_v4 m ≡ ext.new_v4 n → m ≡ n) × ((n : ℕ) → s.drawn ≤ n → ext.new_v4 n ≢ id)

-- a claim inserts a run under the next id, for the task
claim-counts :
    (now : Time) (run_id : Uuid) (t : Task) (d : Db) (i : Uuid)
    → (count_where (open_of i) (claim_task now run_id t d).0.runs
        ≤ count_where (open_of i) d.runs + (if t.id == i then 1 else 0))
      × (count_where (has_run_id i) (claim_task now run_id t d).0.runs
          ≤ count_where (has_run_id i) d.runs + (if run_id == i then 1 else 0))
unfolding claim_task claimed_run insert_task_run
claim-counts now run_id t d i =
    elim (Bool-cases (count_where (where_status t.id is_pending) d.tasks == 1)) [
      | inl e ↦ rw e (
        ground (arith, count_where-append (open_of i) d.runs (claimed_run now run_id t ∷ [])),
        ground (arith, count_where-append (has_run_id i) d.runs (claimed_run now run_id t ∷ [])),
      )
      | inr e ↦ rw e (ground arith, ground arith)
    ]

==_ne : (a b : ℕ) → a ≢ b → (a == b) ≡ false
==_ne a b h = elim (Bool-cases (a == b)) [ inl e ↦ absurd (h ((==_iff a b).0 e)) | inr e ↦ e ]

claim-Safe :
    (ext : External) (t : Task) (s : State)
    → Unused ext t.id s
    → Safe ext s
    → Safe ext
        (record s { db = (claim_task s.now (ext.new_v4 s.drawn) t s.db).0; drawn = s.drawn + 1 })
claim-Safe ext t s unused safe =
    let run_id : Uuid = ext.new_v4 s.drawn in
    (
      Step-Live (Step.claim s.now run_id t (safe.1 s.drawn (omega arith)).1) safe.0,
      λ n h.
          let old = safe.1 n (omega arith) in
          let counts = claim-counts s.now run_id t s.db (ext.new_v4 n) in
          let other_task : (t.id == ext.new_v4 n) ≡ false =
            ==_ne t.id (ext.new_v4 n) (λ e. unused.1 n (omega arith) (sym e)) in
          let other_run : (run_id == ext.new_v4 n) ≡ false =
            ==_ne run_id (ext.new_v4 n) (λ e. absurd (omega (arith, h, unused.0 s.drawn n e))) in
          (ground (arith, old.0, counts.0, other_task), ground (arith, old.1, counts.1, other_run)),
    )

failed_task-lem :
    (t : Task) (claimed : Option TaskRun) (kind : FailureKind) (error : Text) (now : Time)
    → ((failed_task t claimed kind error now).id ≡ t.id)
      × (is_terminal (failed_task t claimed kind error now).status ≡ true)
unfolding failed_task
failed_task-lem t none kind error now = (refl, refl)
failed_task-lem t (some run) kind error now = (refl, refl)

failed_run-closed :
    (run : TaskRun) (t : Task) (finished : Bool)
    → run_is_open (failed_run run t finished).status ≡ false
failed_run-closed run t true = refl
failed_run-closed run t false = refl

-- the writes of `fail_task` after its claim
after_claim-Keeps :
    (claimed : Option TaskRun) (failed : Task) (d : Db)
    → is_terminal failed.status ≡ true
    → let (e, finished) = finish_active_task failed d in
      Keeps d (finalize_claimed claimed failed finished e)
unfolding finish_active_task
after_claim-Keeps none failed d h = Keeps-Step (Step.finish failed h) refl
after_claim-Keeps (some run) failed d h =
    let (e, finished) : Db × Bool = finish_active_task failed d in
    Keeps-trans (Keeps-Step (Step.finish failed h) refl) (
      Keeps-finalize_task_run (failed_run run failed finished) e
        (failed_run-closed run failed finished))

-- no attempt has the task's row: it is pending, terminal, or not there
abbrev pub NotActive : Uuid → Db → Type 0
NotActive id d = count_where (where_status id is_active) d.tasks ≡ 0

-- what `fail_task` knows of its claim
abbrev Claimed : Uuid → Db → Option TaskRun → Type 0
Claimed id d none = NotActive id d
Claimed id d (some run) = InFlight id run d

claim_task-Claimed :
    (now : Time) (run_id : Uuid) (t : Task) (d : Db)
    → NotActive t.id d
    → let (e, claimed) = claim_task now run_id t d in Claimed t.id e claimed
unfolding claim_task claimed_run insert_task_run
claim_task-Claimed now run_id t d h =
    elim (Bool-cases (count_where (where_status t.id is_pending) d.tasks == 1)) [
      | inl e ↦ rw e (
          ground (
            arith,
            count_where-append (λ u. has_run_id run_id u && open_of t.id u) d.runs
                (claimed_run now run_id t ∷ []),
          ))
      | inr e ↦ rw e h
    ]

-- If the failure is written, no attempt of the task is left in flight.
after_claim-Idle :
    (t : Task) (claimed : Option TaskRun) (kind : FailureKind) (error : Text) (now : Time) (d : Db)
    → Claimed t.id d claimed
    → Live d
    → let failed = failed_task t claimed kind error now in
      let (e, finished) = finish_active_task failed d in
      finished ≡ true → Idle t.id (finalize_claimed claimed failed finished e)
unfolding finish_active_task failed_task
after_claim-Idle t none kind error now d h live e = absurd (ground (arith, e, h))
after_claim-Idle t (some run) kind error now d h live e =
    let failed : Task = failed_task t (some run) kind error now in
    let (d', finished) : Db × Bool = finish_active_task failed d in
    finalize-Idle t.id (failed_run run failed finished) d' (failed_run-closed run failed finished) h
      (Step-Live (Step.finish failed refl) live)

if-true-Safe :
    (ext : External) (b : Bool) (s t : State)
    → (b ≡ true → Safe ext s)
    → Safe ext t
    → Safe ext (if b then s else t)
if-true-Safe ext true s t h k = h refl
if-true-Safe ext false s t h k = k

-- A failure before the start of an attempt keeps every task at one attempt and the ids to come
-- unused, through the retry that may follow it, if no attempt has the task's row.
pub fail_task-Safe :
    (ext : External) (t : Task) (kind : FailureKind) (error : Text) (s : State)
    → Unused ext t.id s
    → NotActive t.id s.db
    → Safe ext s
    → Safe ext (fail_task ext t kind error s)
unfolding fail_task fail_in_db publish_task publish
fail_task-Safe ext t kind error s unused idle safe =
    let run_id : Uuid = ext.new_v4 s.drawn in
    let (d, claimed) : Db × Option TaskRun = claim_task s.now run_id t s.db in
    let s₀ : State = record s { db = d; drawn = s.drawn + 1 } in
    let safe₀ : Safe ext s₀ = claim-Safe ext t s unused safe in
    let failed : Task = failed_task t claimed kind error s.now in
    let (e, finished) : Db × Bool = finish_active_task failed d in
    let s₁ : State = with_db (finalize_claimed claimed failed finished e) s₀ in
    let ends = failed_task-lem t claimed kind error s.now in
    let safe₁ : Safe ext s₁ =
      Safe-keeps ext s₀ s₁ (after_claim-Keeps claimed failed d ends.1, omega arith) safe₀ in
    let s₂ : State = publish_task failed s₁ in
    let s₃ : State = (schedule_auto_retry failed s₂).0 in
    if-true-Safe ext finished _ s₁
      (λ won.
        let closed : Idle t.id s₁.db =
          after_claim-Idle t claimed kind error s.now d
            (claim_task-Claimed s.now run_id t s.db idle) safe₀.0 won in
        let safe₃ : Safe ext s₃ =
          Safe-keeps ext s₂ s₃
            (schedule_auto_retry-Keeping failed s₂ (subst (λ i. Idle i s₂.db) (sym ends.0) closed))
            safe₁ in
        if-Safe ext _ s₃ _ safe₃ (
          Safe-keeps ext s₃ (emit_event EventKind.task_finished (finished_payload failed false) s₃)
            (emit_event-Keeping EventKind.task_finished (finished_payload failed false) s₃) safe₃))
      safe₁

dispatch_ready-Safe :
    (ext : External) (setup_error : Option Text) (t : Task) (s : State)
    → Unused ext t.id s
    → NotActive t.id s.db
    → Safe ext s
    → Safe ext (dispatch_ready ext setup_error t s).0
unfolding dispatch_ready
dispatch_ready-Safe ext (some e) t s unused idle safe = fail_task-Safe ext t _ _ s unused idle safe
dispatch_ready-Safe ext none t s unused idle safe = claim-Safe ext t s unused safe

dispatch_known-Safe :
    (ext : External) (setup_error : Option Text) (def : TaskDef) (missing : List Text) (t : Task)
    (s : State)
    → Unused ext t.id s
    → NotActive t.id s.db
    → Safe ext s
    → Safe ext (dispatch_known ext setup_error def missing t s).0
unfolding dispatch_known
dispatch_known-Safe ext setup_error def (v ∷ vs) t s unused idle safe =
    fail_task-Safe ext t _ _ s unused idle safe
dispatch_known-Safe ext setup_error def [] t s unused idle safe =
    dispatch_ready-Safe ext setup_error t s unused idle safe

-- The dispatch of a task, claimed or failed by one of the checks, keeps every task at one attempt
-- and the ids to come unused, if no attempt has the task's row and its id is not one to come.
pub dispatch-Safe :
    (ext : External) (setup_error : Option Text) (t : Task) (s : State)
    → Unused ext t.id s
    → NotActive t.id s.db
    → Safe ext s
    → Safe ext (dispatch ext setup_error t s).0
unfolding dispatch
dispatch-Safe ext setup_error t s unused idle safe =
    elim (lookup_def t.name s.catalog)
      as (λ o.
        Safe ext
          (elim o as (λ x. State × Option TaskRun) [
            | none ↦ (
              fail_task ext t FailureKind.invalid_input (codes "task not found in the catalog") s,
              none,
            )
            | some def ↦ dispatch_known ext setup_error def (missing_required_vars def t.input) t s
          ]).0) [
            | none ↦ fail_task-Safe ext t _ _ s unused idle safe
            | some def ↦
                dispatch_known-Safe ext setup_error def (missing_required_vars def t.input) t s
                  unused idle safe
          ]
