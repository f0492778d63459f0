-- ===== src/Server/Guards.antt =====
-- The guard of `tasks.retry`: crates/favetto/src/server.rs.
use favetto.Common.{
  ◌≡◌, refl, sym, ◌∙◌, arith, List, [], ◌∷◌, none, some, Bool, true, false, not, Option-cases, inl,
  inr, length, select_where, length-select_where, if◌then◌else◌, Result, ok, err,
}
use favetto.Model.Task.{Uuid, Task, TaskRun, summary}
use favetto.Store.Schema.{Db, is_terminal}
use favetto.Store.Tasks.{get_task, requeue_terminal_task}
use favetto.Store.Runs.{get_active_task_run, latest}
use favetto.Store.Live.{Idle, open_of, Step}
use favetto.Store.Keeps.{Keeps, Keeps-Step}
use favetto.Executor.State.{State, with_db}
use favetto.Executor.Outcome.{announce_idle}
use favetto.Executor.Safe.{Keeping, Keeping-refl, Keeping-trans}
use favetto.Executor.Attempts.{announce_idle-Keeping}
use favetto.Server.Tasks.{
  RetryError, not_found, not_requeued, disappeared, requeued_task, retry_idle, retry_found,
  retry_task,
}

latest-none : (rs : List TaskRun) → latest rs ≡ none → length rs ≡ 0
unfolding latest
latest-none [] h = refl
latest-none (r ∷ rs) h = elim (Option-cases (latest rs)) [
  | inl e ↦ ground arith
  | inr (b, e) ↦ ground arith
]

-- The guard of a retry finds an attempt exactly if one is in flight.
no_active-Idle : (id : Uuid) (d : Db) → get_active_task_run id d ≡ none → Idle id d
unfolding get_active_task_run
no_active-Idle id d h =
    sym (length-select_where (open_of id) d.runs) ∙ latest-none (select_where (open_of id) d.runs) h

Keeps-requeue : (id : Uuid) (d : Db) → Idle id d → Keeps d (requeue_terminal_task id d).0
unfolding requeue_terminal_task
Keeps-requeue id d idle = Keeps-Step (Step.requeue id idle) refl

-- a result and the state it comes with
if-pair :
    {A : Type 0} (b : Bool) (s : State) (x y : State × A)
    → Keeping s x.0
    → Keeping s y.0
    → Keeping s (if b then x else y).0
if-pair true s x y h k = h
if-pair false s x y h k = k

requeued_task-Keeping : (id : Uuid) (s : State) → Keeping s (requeued_task id s).0
unfolding requeued_task
requeued_task-Keeping id s =
    elim (get_task id s.db)
      as (λ o.
        Keeping s
          (elim o as (λ x. State × Result RetryError Task) [
            | some fresh ↦ (announce_idle id s, ok (summary fresh))
            | none ↦ (s, err disappeared)
          ]).0) [ some fresh ↦ announce_idle-Keeping id s | none ↦ Keeping-refl s ]

retry_idle-Keeping :
    (id : Uuid) (t : Task) (s : State) → Idle id s.db → Keeping s (retry_idle id t s).0
unfolding retry_idle
retry_idle-Keeping id t s idle =
    let s' : State = with_db (requeue_terminal_task id s.db).0 s in
    let k : Keeping s s' = (Keeps-requeue id s.db idle, omega arith) in
    if-pair (not (is_terminal t.status)) s _ _ (Keeping-refl s) (
      if-pair (requeue_terminal_task id s.db).1 s (requeued_task id s') (s', err not_requeued)
        (Keeping-trans s s' (requeued_task id s').0 k (requeued_task-Keeping id s')) k)

retry_found-Keeping : (id : Uuid) (t : Task) (s : State) → Keeping s (retry_found id t s).0
unfolding retry_found
retry_found-Keeping id t s = elim (Option-cases (get_active_task_run id s.db)) [
  | inl e ↦ rw (retry_found, e) (retry_idle-Keeping id t s (no_active-Idle id s.db e))
  | inr (run, e) ↦ rw (retry_found, e) (Keeping-refl s)
]

-- A manual retry, accepted or refused, keeps every task at one attempt, opens no attempt, and gives
-- no drawn id back.
pub retry_task-Keeping : (id : Uuid) (s : State) → Keeping s (retry_task id s).0
unfolding retry_task
retry_task-Keeping id s =
    elim (get_task id s.db)
      as (λ o.
        Keeping s
          (elim o as (λ x. State × Result RetryError Task) [
            | none ↦ (s, err not_found)
            | some t ↦ retry_found id t s
          ]).0) [ none ↦ Keeping-refl s | some t ↦ retry_found-Keeping id t s ]
