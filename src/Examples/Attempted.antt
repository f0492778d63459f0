-- ===== src/Examples/Attempted.antt =====
-- The executor at the sample state.
use favetto.Executor.Resubmit.{spawn_dynamic_twice}
use favetto.Executor.Enqueue.{spawn_dynamic}
use favetto.Store.Tasks.{get_task_by_dedupe_key}
use favetto.Executor.Branch.{branch_name, branch_suffix, task_id_prefix}
use favetto.Executor.Suffix.{branch_suffix-branch_name}
use favetto.Executor.Worktrees.{
  WorktreeRecord, TaskMap, select_prunable, choose, unconditionals, age_candidates, sort_newest,
  insert_newest, retain_new,
}
use favetto.Executor.Reclaim.{MayGo, select_prunable-MayGo}
use favetto.Common.{
  checked_from, decimal, text_eq_refl, subst, ◌≢◌, len_utf8, bytes, is_char_boundary, slice_from,
  All, length, count_where, if◌then◌else◌, ◌==◌, ◌∷◌, [], text_eq, ◌≡◌, refl, ◌⊎◌, ◌≤◌, ◌<◌, ◌+◌, ℕ,
  arith, ◌++◌, none, some, true, false, codes, ok, Text,
}
use favetto.Model.Status.{TaskStatus}
use favetto.Model.EventKind.{EventKind}
use favetto.Model.Task.{
  pos, Value, null, string, array, object, nil, cons, Fields, end, field, Event,
}
use favetto.Executor.State.{External, StaleRunPolicy, task_payload}
use favetto.Executor.Truncate.{
  ceil_char_boundary, ceil_from, truncate_text, truncate_or_panic, tail_truncate, tail_or_panic,
  marker, ellipsis,
}
use favetto.Executor.Bounds.{IsTail, truncate_text-parts, tail_truncate-IsTail}
use favetto.Executor.Envelope.{normalize_envelope}
use favetto.Executor.Shape.{IsEnvelope, normalize_envelope-IsEnvelope}
use favetto.Store.Schema.{TaskRow}
use favetto.Executor.Outcome.{RunOutcome}
use favetto.Executor.Join.{maybe_start_join}
use favetto.Executor.Run.{complete_run, dispatch}
use favetto.Executor.Reconcile.{reconcile, reconcile_db}
use favetto.Executor.Safe.{Keeping, Safe}
use favetto.Executor.Attempts.{complete_run-Safe}
use favetto.Executor.Claims.{Unused, dispatch-Safe}
use favetto.Executor.Restart.{reconcile-Keeping}
use favetto.Executor.Recovery.{Recovered, no_report, reconcile_db-Recovered, reconcile_db_twice}
use favetto.Executor.Barrier.{IsJoin, maybe_start_join_each}
use favetto.Examples.Data.{ext, db, state, state-Safe, plan, work, plan_run, plan_def}

abbrev outcome : RunOutcome
outcome = record {
  output = object (field (codes "output") (string (codes "two jobs")) end);
  session_id = none;
  session_title = none;
  exit_code = some (pos 0);
  usage = none;
  failure = none;
  alive = false;
}

abbrev manifest : Value
manifest = array (cons (object end) (cons (object end) nil))

complete_run-Safe_example :
    Safe ext (complete_run ext none plan plan_run plan_def (ok outcome) true (some manifest) state)
complete_run-Safe_example =
    complete_run-Safe ext none plan plan_run plan_def (ok outcome) true (some manifest) state
      (omega arith) state-Safe

work-Unused : Unused ext 2 state
work-Unused = ((λ m n e. omega arith), λ n h e. omega arith)

dispatch-Safe_example : Safe ext (dispatch ext none work state).0
dispatch-Safe_example = dispatch-Safe ext none work state work-Unused refl state-Safe

-- `plan` has finished
abbrev finished : Event
finished = record {
  id = 7;
  kind = EventKind.task_finished;
  payload = record (task_payload (codes "plan") 1) { success = some true };
  created_at = 55;
}

reconcile_db-Recovered_example :
    Recovered state.catalog (reconcile_db StaleRunPolicy.retry state.catalog 60 db).0
reconcile_db-Recovered_example = reconcile_db-Recovered StaleRunPolicy.retry state.catalog 60 db

reconcile_db_twice_example :
    let d' = (reconcile_db StaleRunPolicy.fail state.catalog 60 db).0 in
    reconcile_db StaleRunPolicy.retry state.catalog 70 d' ≡ (d', no_report)
reconcile_db_twice_example =
    reconcile_db_twice StaleRunPolicy.fail StaleRunPolicy.retry state.catalog 60 70 db

reconcile-Keeping_example : Keeping state (reconcile state).0
reconcile-Keeping_example = reconcile-Keeping state

roots_differ : decimal 3 ≢ decimal 5
unfolding text_eq decimal
roots_differ e =
    let same : text_eq (decimal 3) (decimal 5) ≡ true =
      subst (λ t. text_eq (decimal 3) t ≡ true) e (text_eq_refl (decimal 3)) in
    absurd (ground (arith, same))

-- the fan-ins behind `done`, the only task of its root, and of a root without such a task
maybe_start_join_each_example :
    let s₁ = maybe_start_join ext (codes "merge") (codes "done") 3 (some 3) state in
    let s₂ = maybe_start_join ext (codes "merge") (codes "done") 5 none s₁ in
    (row_a : TaskRow) × (row_b : TaskRow) × IsJoin (codes "merge") 3 row_a
    × IsJoin (codes "merge") 5 row_b
    × (s₂.db.tasks ≡ (state.db.tasks ++ row_a ∷ []) ++ row_b ∷ [])
    × ((maybe_start_join ext (codes "merge") (codes "done") 3 none s₂).db.tasks ≡ s₂.db.tasks)
unfolding text_eq
maybe_start_join_each_example =
    maybe_start_join_each ext (codes "merge") (codes "done") 3 5 (some 3) none none state
      roots_differ refl refl refl refl refl refl refl refl

abbrev long_text : Text
long_text = codes "aéb€cdé"

abbrev max_bytes : ℕ
max_bytes = 6

cut : tail_truncate long_text 6 ≡ codes "…cdé"
unfolding tail_truncate tail_or_panic checked_from bytes len_utf8 slice_from ceil_char_boundary
    ceil_from is_char_boundary
cut = refl

tail_truncate-IsTail_example :
    (tail_or_panic long_text 6 ≡ some (tail_truncate long_text 6))
    × (((bytes long_text ≤ 6) × (tail_truncate long_text 6 ≡ long_text))
        ⊎ ((6 < bytes long_text)
            × ((before : Text) × (after : Text) × IsTail long_text 6 before after
                × (tail_truncate long_text 6 ≡ ellipsis ++ after)
                × (bytes (tail_truncate long_text 6) ≤ 6 + 3))))
tail_truncate-IsTail_example = tail_truncate-IsTail long_text 6

truncate_text-parts_example :
    (truncate_or_panic long_text max_bytes ≡ some (truncate_text long_text max_bytes))
    × ((((bytes long_text ≤ max_bytes) ⊎ (max_bytes ≡ 0))
          × (truncate_text long_text max_bytes ≡ (long_text, false)))
        ⊎ ((head : Text) × (middle : Text) × (tail : Text) × (head ++ middle ++ tail ≡ long_text)
            × (bytes head + bytes tail ≤ max_bytes)
            × (truncate_text long_text max_bytes ≡ (head ++ marker (bytes middle) ++ tail, true))))
truncate_text-parts_example = truncate_text-parts long_text max_bytes

normalize_envelope-IsEnvelope_example :
    ((fs : Fields) × ((normalize_envelope (object (field (codes "summary") null end)) ≡ object fs)
        × IsEnvelope fs))
    × (normalize_envelope (normalize_envelope (object (field (codes "summary") null end)))
        ≡ normalize_envelope (object (field (codes "summary") null end)))
normalize_envelope-IsEnvelope_example =
    normalize_envelope-IsEnvelope (object (field (codes "summary") null end))

abbrev worktree : WorktreeRecord
worktree = record {
  task_id = 3;
  repo = codes "r";
  path = codes "w";
  branch = codes "favetto/x-1";
  created_at = 5;
}

-- the task of the worktree has failed at 30
abbrev tasks : TaskMap
tasks id = if id == 3 then some (TaskStatus.failed, some 30) else none

selected : length (select_prunable (worktree ∷ []) tasks (some 40) true 0) ≡ 1
unfolding select_prunable choose unconditionals age_candidates sort_newest insert_newest retain_new
selected = refl

select_prunable-MayGo_example :
    let selected = select_prunable (worktree ∷ []) tasks (some 40) true 0 in
    All (λ r. MayGo (tasks r.task_id) (some 40) true r) selected
    × (count_where (λ r. r.task_id == 3) selected ≤ 1)
select_prunable-MayGo_example = select_prunable-MayGo (worktree ∷ []) tasks (some 40) true 0 3

spawn_dynamic_twice_example :
    let (s', t) =
      spawn_dynamic ext (codes "work") null (some 1) (1 ∷ []) (some (codes "k")) state in
    spawn_dynamic ext (codes "plan") null none [] (some (codes "k")) s' ≡ (s', t)
unfolding get_task_by_dedupe_key
spawn_dynamic_twice_example =
    spawn_dynamic_twice ext (codes "work") (codes "plan") null null (some 1) none (1 ∷ []) []
      (codes "k") state refl refl

-- ids whose text is that of a UUID
abbrev uuids : External
uuids = record ext { uuid_text = λ id. codes "0a1b2c3d-0000-4000-8000-000000000000" }

branch_suffix-branch_name_example :
    branch_suffix (branch_name uuids plan) ≡ some (task_id_prefix uuids 1)
unfolding task_id_prefix
branch_suffix-branch_name_example = branch_suffix-branch_name uuids plan refl refl
