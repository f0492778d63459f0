-- ===== src/Store/Dispatch.antt =====
-- The queue of crates/favetto/src/db.rs: what `next_pending_tasks` offers, and that a claim wins
-- at most once.
use favetto.Common.{
  ◌+◌, ◌≤◌, ◌==◌, ◌≡◌, refl, ◌⊎◌, inl, inr, ◌↔◌, Bool, true, false, ◌&&◌, not, any, List, [], ◌∷◌,
  ◌++◌, none, some, arith, All, Bool-cases, count_where, ==_iff, count_where-update_none,
}
use favetto.Model.Status.{TaskStatus}
use favetto.Model.Task.{Uuid, Time, Task, summary}
use favetto.Store.Schema.{
  TaskRow, Db, Dependency, is_pending, is_active, is_terminal, is_open, update_tasks_none,
}
use favetto.Store.Tasks.{
  where_status, cancel_active_task, finish_active_task, cancel_row, finish_row,
}
use favetto.Store.Queue.{is_blocked, claim_task, claim_row, claimed_run}

-- A dependency of the task has finished: every row of the predecessor that it names is terminal.
abbrev pub Finished : Db → Uuid → Dependency → Type 0
Finished d id e =
    e.task_id ≡ id → All (λ p. p.id ≡ e.depends_on → is_terminal p.status ≡ true) d.tasks

any_false→All :
    (id : Uuid) (rows : List TaskRow)
    → any (λ p. p.id == id && not (is_terminal p.status)) rows ≡ false
    → All (λ p. p.id ≡ id → is_terminal p.status ≡ true) rows
any_false→All id [] h = tt
any_false→All id (r ∷ rows) h = (λ e. ground arith, any_false→All id rows (ground arith))

All→any_false :
    (id : Uuid) (rows : List TaskRow)
    → All (λ p. p.id ≡ id → is_terminal p.status ≡ true) rows
    → any (λ p. p.id == id && not (is_terminal p.status)) rows ≡ false
All→any_false id [] h = refl
All→any_false id (r ∷ rows) h = ground (arith, h.0, All→any_false id rows h.1)

module _ (d : Db) (id : Uuid) where
  abbrev edge_blocks : Dependency → Bool
  edge_blocks e =
      e.task_id == id && any (λ p. p.id == e.depends_on && not (is_terminal p.status)) d.tasks

  unblocked→Finished : (es : List Dependency) → any edge_blocks es ≡ false → All (Finished d id) es
  unblocked→Finished [] h = tt
  unblocked→Finished (e ∷ es) h = (
    λ same. any_false→All e.depends_on d.tasks (ground arith),
    unblocked→Finished es (ground arith),
  )

  Finished→unblocked : (es : List Dependency) → All (Finished d id) es → any edge_blocks es ≡ false
  Finished→unblocked [] h = refl
  Finished→unblocked (e ∷ es) h = elim (Bool-cases (e.task_id == id)) [
    | inl same ↦ rw same (
        rw (All→any_false e.depends_on d.tasks (h.0 ((==_iff e.task_id id).0 same)))
          (Finished→unblocked es h.1))
    | inr other ↦ rw other (Finished→unblocked es h.1)
  ]

  -- A task is free to start exactly if, for each of its dependencies, every row of the
  -- predecessor is terminal. A predecessor that is not in the table does not block it.
  pub is_blocked-Finished : (is_blocked d id ≡ false) ↔ All (Finished d id) d.deps
  unfolding is_blocked
  is_blocked-Finished = (unblocked→Finished d.deps, Finished→unblocked d.deps)

-- Ready to start: pending, with a retry time that has come if it has one, and with every dependency
-- finished.
abbrev pub Ready : Db → Time → TaskRow → Type 0
Ready d now r =
    (r.status ≡ TaskStatus.pending)
    × ((at : Time) → r.retry_at ≡ some at → at ≤ now)
    × All (Finished d r.id) d.deps

-- a row of the table
abbrev pub HasRow : List TaskRow → TaskRow → Type 0
HasRow rows r = (before : List TaskRow) × (after : List TaskRow) × (rows ≡ before ++ r ∷ after)

-- a task that the queue offers is read from a row that is ready
abbrev pub IsOffered : Db → Time → Task → Type 0
IsOffered d now t = (r : TaskRow) × HasRow d.tasks r × (t ≡ summary r.task) × Ready d now r

claim_lost :
    (now : Time) (run_id : Uuid) (t : Task) (d : Db)
    → count_where (where_status t.id is_pending) d.tasks ≡ 0
    → claim_task now run_id t d ≡ (d, none)
unfolding claim_task
claim_lost now run_id t d h = rw h

-- A lost claim changes nothing. A won claim returns the run that it inserts, under the attempt
-- behind the claimed one. A second claim of a task that a claim has won is lost, whatever attempt
-- it was made from.
pub claim_task_once :
    (now later : Time) (run_id other : Uuid) (t t' : Task) (d : Db)
    → t'.id ≡ t.id
    → let (d', won) = claim_task now run_id t d in
      ((won ≡ none) × (d' ≡ d))
      ⊎ ((won ≡ some (claimed_run now run_id t))
          × (d'.runs ≡ d.runs ++ claimed_run now run_id t ∷ [])
          × (claim_task later other t' d' ≡ (d', none)))
unfolding claim_task
claim_task_once now later run_id other t t' d same =
    elim (Bool-cases (count_where (where_status t.id is_pending) d.tasks == 1)) [
      | inl e ↦ rw e (
          inr (
            refl,
            refl,
            claim_lost later other t' _ (
                count_where-update_none (where_status t'.id is_pending)
                  (where_status t.id is_pending) (claim_row now (t.attempt + 1)) d.tasks
                  (λ r. ground arith)),
          ))
      | inr e ↦ rw e (inl (refl, refl))
    ]

-- A cancellation that lands while a run is in flight wins: the finish that comes behind it, with
-- whatever outcome, writes no row and reports so.
pub finish-after-cancel :
    (now : Time) (t : Task) (d : Db)
    → let cancelled = (cancel_active_task now t.id d).0 in
      finish_active_task t cancelled ≡ (cancelled, false)
unfolding cancel_active_task finish_active_task
finish-after-cancel now t d = update_tasks_none (where_status t.id is_active) (finish_row t) _ (
    count_where-update_none (where_status t.id is_active) (where_status t.id is_open)
      (cancel_row now) d.tasks (λ r. ground arith))
