-- ===== src/Examples/Stored.antt =====
-- The statements of the database, at the sample database.
use favetto.Common.{
  ◌≤◌, true, ◌||◌, ◌≡◌, refl, ◌⊎◌, ◌*◌, ◌^◌, min, arith, [], ◌∷◌, ◌++◌, none, some, false, All,
}
use favetto.Model.Status.{TaskStatus}
use favetto.Retry.{default_settings, backoff_delay}
use favetto.Retry.Delay.{backoff_delay-exponential}
use favetto.Store.Tasks.{finish_active_task, cancel_active_task}
use favetto.Store.Queue.{claim_task, claimed_run}
use favetto.Store.Lifecycle.{Write, Evolves, Write-Evolves}
use favetto.Store.Dispatch.{claim_task_once, finish-after-cancel}
use favetto.Store.Schema.{Db}
use favetto.Store.Prune.{prune, has_id, is_old}
use favetto.Store.Newest.{as_new}
use favetto.Store.Retention.{cutoff_of, prune_kept}
use favetto.Store.Live.{Live, Step, Step-Live}
use favetto.Examples.Data.{row_of, db, plan, work, done, db-Live}

Step-Live_example : Live (claim_task 60 12 work db).0
Step-Live_example = Step-Live (Step.claim 60 12 work refl) db-Live

Write-Evolves_example :
    Evolves db.tasks (finish_active_task (record plan { status = TaskStatus.failed }) db).0.tasks
Write-Evolves_example =
    Write-Evolves (Write.finish (record plan { status = TaskStatus.failed }) refl)

claim_task_once_example :
    let (d', won) = claim_task 60 12 work db in
    ((won ≡ none) × (d' ≡ db))
    ⊎ ((won ≡ some (claimed_run 60 12 work))
        × (d'.runs ≡ db.runs ++ claimed_run 60 12 work ∷ [])
        × (claim_task 70 14 work d' ≡ (d', none)))
claim_task_once_example = claim_task_once 60 70 12 14 work work db refl

finish-after-cancel_example :
    let cancelled = (cancel_active_task 60 1 db).0 in
    finish_active_task (record plan { status = TaskStatus.succeeded }) cancelled
    ≡ (cancelled, false)
finish-after-cancel_example =
    finish-after-cancel 60 (record plan { status = TaskStatus.succeeded }) db

backoff_delay-exponential_example :
    backoff_delay default_settings 3
    ≡ min (default_settings.initial_ms * 2 ^ 2) default_settings.max_ms
unfolding default_settings
backoff_delay-exponential_example =
    backoff_delay-exponential default_settings 3 refl (omega arith) (omega arith) (omega arith)

-- `done` has finished long ago
abbrev later : Db
later = record db { tasks = row_of (record done { finished_at = some 30 }) ∷ row_of work ∷ [] }

prune_kept_example :
    let left = (prune 200000000 1 1 later).0 in
    All (λ u. has_id u.task_id left.tasks ≡ true) left.runs
    × All
        (λ e. (has_id e.task_id left.tasks ≡ true) × (has_id e.depends_on left.tasks ≡ true))
        left.deps
    × All
        (λ r.
          ((is_old (cutoff_of 200000000 1) r || has_id r.id left.tasks) ≡ true)
          × (as_new r later.tasks ≤ 1 → has_id r.id left.tasks ≡ true))
        later.tasks
prune_kept_example = prune_kept 200000000 1 1 later (omega arith)
