-- ===== src/Store/Prune.antt =====
-- The retention pass of crates/favetto/src/db.rs.
use favetto.Common.{
  ℕ, ◌-◌, ◌*◌, Bool, false, ◌&&◌, ◌||◌, not, List, any, take, none, some, ltb, ◌==◌, if◌then◌else◌,
  update_where, count_where, delete_where, order_by, is_some,
}
use mathlib.Core.List.{reverse}
use favetto.Model.Task.{Uuid, Time, TaskRun}
use favetto.Store.Schema.{TaskRow, Dependency, Db}

pub record PruneStats : Type 0 where
  pub outputs_cleared : ℕ
  pub tasks_deleted : ℕ
  pub runs_deleted : ℕ
  pub dependencies_deleted : ℕ
  pub events_deleted : ℕ

abbrev pub no_stats : PruneStats
no_stats = record {
  outputs_cleared = 0;
  tasks_deleted = 0;
  runs_deleted = 0;
  dependencies_deleted = 0;
  events_deleted = 0;
}

-- `finished_at IS NOT NULL AND finished_at < cutoff`
abbrev pub is_old : Time → TaskRow → Bool
is_old cutoff r = elim r.finished_at [ none ↦ false | some t ↦ ltb t cutoff ]

abbrev pub has_id : Uuid → List TaskRow → Bool
has_id id rows = any (λ r. r.id == id) rows

-- SELECT id FROM tasks ORDER BY created_at DESC LIMIT n
unfoldable pub newest : ℕ → List TaskRow → List TaskRow
newest n rows = take n (reverse (order_by (λ r. r.created_at) rows))

unfoldable pub clear_outputs : Time → Db → Db × ℕ
clear_outputs cutoff d =
    let p = λ (r : TaskRow). is_some r.output && is_old cutoff r in
    (
      record d {
        tasks = update_where p (λ r. record r { task = record r.task { output = none } }) d.tasks;
      },
      count_where p d.tasks,
    )

unfoldable pub delete_old_tasks : Time → ℕ → Db → Db × ℕ
unfolding newest
delete_old_tasks cutoff min_tasks d =
    let kept = newest min_tasks d.tasks in
    let p = λ (r : TaskRow). is_old cutoff r && not (has_id r.id kept) in
    (record d { tasks = delete_where p d.tasks }, count_where p d.tasks)

unfoldable pub delete_dead_runs : Db → Db × ℕ
delete_dead_runs d =
    let p = λ (r : TaskRun). not (has_id r.task_id d.tasks) in
    (record d { runs = delete_where p d.runs }, count_where p d.runs)

unfoldable pub delete_dead_dependencies : Db → Db × ℕ
delete_dead_dependencies d =
    let p =
      λ (e : Dependency). not (has_id e.task_id d.tasks) || not (has_id e.depends_on d.tasks) in
    (record d { deps = delete_where p d.deps }, count_where p d.deps)

unfoldable pub delete_old_events : Time → Db → Db × ℕ
delete_old_events cutoff d = (
  record d { events = delete_where (λ e. ltb e.created_at cutoff) d.events },
  count_where (λ e. ltb e.created_at cutoff) d.events,
)

abbrev pub day_ms : ℕ
day_ms = 86400000

-- `prune`, on the four tables of the model; VACUUM changes no row.
unfoldable pub prune : Time → ℕ → ℕ → Db → Db × PruneStats
unfolding clear_outputs delete_old_tasks delete_dead_runs delete_dead_dependencies delete_old_events
prune now days min_tasks d =
    if days == 0
    then (d, no_stats)
    else let cutoff = now - days * day_ms in
      let (d₁, outputs) = clear_outputs cutoff d in
      let (d₂, tasks) = delete_old_tasks cutoff min_tasks d₁ in
      let (d₃, runs) = delete_dead_runs d₂ in
      let (d₄, deps) = delete_dead_dependencies d₃ in
      let (d₅, events) = delete_old_events cutoff d₄ in
      (
        d₅,
        record {
          outputs_cleared = outputs;
          tasks_deleted = tasks;
          runs_deleted = runs;
          dependencies_deleted = deps;
          events_deleted = events;
        },
      )
