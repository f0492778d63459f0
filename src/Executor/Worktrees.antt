-- ===== src/Executor/Worktrees.antt =====
-- Which worktrees the retention pass removes: `select_prunable` of
-- crates/favetto/src/executor.rs. The map of the tasks is a function of their ids.
use favetto.Common.{
  ℕ, ◌==◌, ltb, leb, if◌then◌else◌, Bool, not, Text, List, [], ◌∷◌, ◌++◌, any, drop, map, Option,
  none, some,
}
use favetto.Model.Status.{TaskStatus}
use favetto.Model.Task.{Uuid, Time}
use favetto.Store.Schema.{is_terminal}

pub record WorktreeRecord : Type 0 where
  pub task_id : Uuid
  pub repo : Text
  pub path : Text
  pub branch : Text
  pub created_at : Time

-- `tasks.get(&id)`: the status and `finished_at` of a task that is in the table
abbrev pub TaskMap : Type 0
TaskMap = Uuid → Option (TaskStatus × Option Time)

abbrev pub finished_or : Option Time → Time → Time
finished_or none t = t
finished_or (some f) t = f

-- where the loop puts a record
pub data Choice : Type 0 where
  keep unconditional : Choice
  aged : Time → Choice

unfoldable pub choose :
    Option (TaskStatus × Option Time) → Option Time → Bool → WorktreeRecord → Choice
choose none cutoff keep_worktree r = unconditional
choose (some (status, finished_at)) cutoff keep_worktree r =
    let when = finished_or finished_at r.created_at in
    let by_age : Choice = elim cutoff [
      | none ↦ keep
      | some c ↦ if ltb when c then aged when else keep
    ] in
    if not (is_terminal status) then keep else if not keep_worktree then unconditional else by_age

-- the two pushes of the loop
abbrev pub push_unconditional : Choice → WorktreeRecord → List WorktreeRecord → List WorktreeRecord
push_unconditional unconditional r rest = r ∷ rest
push_unconditional _ r rest = rest

abbrev pub push_aged :
    Choice → WorktreeRecord → List (Time × WorktreeRecord) → List (Time × WorktreeRecord)
push_aged (aged when) r rest = (when, r) ∷ rest
push_aged _ r rest = rest

-- the two lists of the loop
unfoldable pub unconditionals :
    (WorktreeRecord → Choice) → List WorktreeRecord → List WorktreeRecord
unconditionals f [] = []
unconditionals f (r ∷ rs) = push_unconditional (f r) r (unconditionals f rs)

unfoldable pub age_candidates :
    (WorktreeRecord → Choice) → List WorktreeRecord → List (Time × WorktreeRecord)
age_candidates f [] = []
age_candidates f (r ∷ rs) = push_aged (f r) r (age_candidates f rs)

-- the stable sort, newest first
unfoldable pub insert_newest :
    Time × WorktreeRecord → List (Time × WorktreeRecord) → List (Time × WorktreeRecord)
insert_newest x [] = x ∷ []
insert_newest x (y ∷ ys) =
    let rest = insert_newest x ys in if leb y.0 x.0 then x ∷ y ∷ ys else y ∷ rest

unfoldable pub sort_newest : List (Time × WorktreeRecord) → List (Time × WorktreeRecord)
unfolding insert_newest
sort_newest [] = []
sort_newest (x ∷ xs) = insert_newest x (sort_newest xs)

-- `retain(|record| seen.insert(record.task_id))`
unfoldable pub retain_new : List Uuid → List WorktreeRecord → List WorktreeRecord
retain_new seen [] = []
retain_new seen (r ∷ rs) =
    let fresh = r ∷ retain_new (r.task_id ∷ seen) rs in
    let dup = retain_new seen rs in if any (λ i. i == r.task_id) seen then dup else fresh

unfoldable pub select_prunable :
    List WorktreeRecord → TaskMap → Option Time → Bool → ℕ → List WorktreeRecord
unfolding choose unconditionals age_candidates sort_newest retain_new
select_prunable records tasks cutoff keep_worktree min_worktrees =
    let f : WorktreeRecord → Choice = λ r. choose (tasks r.task_id) cutoff keep_worktree r in
    retain_new [] (
      unconditionals f records
      ++ map (λ x. x.1) (drop min_worktrees (sort_newest (age_candidates f records))))
