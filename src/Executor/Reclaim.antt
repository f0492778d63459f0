-- ===== src/Executor/Reclaim.antt =====
-- A worktree of a task that is not terminal stays: `select_prunable` of
-- crates/favetto/src/executor.rs.
use favetto.Common.{
  ℕ, zero, suc, ◌<◌, ◌≤◌, ◌==◌, ◌≡◌, ◌⊎◌, inl, inr, refl, sym, subst, ==_iff, ◌∙◌, ◌≢◌, ◌+◌, ltb,
  arith, leb, Bool, true, false, Bool-cases, List, [], ◌∷◌, ◌++◌, any, drop, map, Option, none,
  some, All, All-append, count_where, if◌then◌else◌,
}
use favetto.Model.Status.{TaskStatus}
use favetto.Model.Task.{Uuid, Time}
use favetto.Store.Schema.{is_terminal}
use favetto.Executor.Worktrees.{
  WorktreeRecord, TaskMap, finished_or, Choice, keep, unconditional, aged, choose,
  push_unconditional, push_aged, unconditionals, age_candidates, insert_newest, sort_newest,
  retain_new, select_prunable,
}

-- the task is gone, or terminal and either nothing is kept or it is older than the cutoff
abbrev pub MayGo : Option (TaskStatus × Option Time) → Option Time → Bool → WorktreeRecord → Type 0
MayGo none cutoff keep_worktree r = Unit
MayGo (some (status, finished_at)) cutoff keep_worktree r =
    (is_terminal status ≡ true)
    × ((keep_worktree ≡ false)
        ⊎ ((c : Time) × ((cutoff ≡ some c) × (finished_or finished_at r.created_at < c))))

choose-MayGo :
    (t : Option (TaskStatus × Option Time)) (cutoff : Option Time) (keep_worktree : Bool)
    (r : WorktreeRecord)
    → (choose t cutoff keep_worktree r ≡ keep) ⊎ MayGo t cutoff keep_worktree r
unfolding choose
choose-MayGo none cutoff keep_worktree r = inr tt
choose-MayGo (some (status, finished_at)) none keep_worktree r = ground arith
choose-MayGo (some (status, finished_at)) (some c) false r = ground arith
choose-MayGo (some (status, finished_at)) (some c) true r = elim (Bool-cases (is_terminal status)) [
  | inr e ↦ inl (rw e refl)
  | inl e ↦ elim (Bool-cases (ltb (finished_or finished_at r.created_at) c)) [
    | inr e' ↦ inl (rw e (rw e' refl))
    | inl e' ↦ inr (e, inr (c, (refl, ground arith)))
  ]
]

module _ (f : WorktreeRecord → Choice) (P : WorktreeRecord → Type 0)
    (go : (r : WorktreeRecord) → (f r ≡ keep) ⊎ P r) where
  -- a record that the loop does not keep may go
  not_kept : (r : WorktreeRecord) (c : Choice) → f r ≡ c → c ≢ keep → P r
  not_kept r c e h = elim (go r) [ inl k ↦ absurd (h (sym e ∙ k)) | inr p ↦ p ]

  push_unconditional-All :
      (c : Choice) (r : WorktreeRecord) (rest : List WorktreeRecord)
      → f r ≡ c
      → All P rest
      → All P (push_unconditional c r rest)
  push_unconditional-All unconditional r rest e h = (not_kept r unconditional e (λ k. cc), h)
  push_unconditional-All keep r rest e h = h
  push_unconditional-All (aged when) r rest e h = h

  push_aged-All :
      (c : Choice) (r : WorktreeRecord) (rest : List (Time × WorktreeRecord))
      → f r ≡ c
      → All (λ x. P x.1) rest
      → All (λ x. P x.1) (push_aged c r rest)
  push_aged-All unconditional r rest e h = h
  push_aged-All keep r rest e h = h
  push_aged-All (aged when) r rest e h = (not_kept r (aged when) e (λ k. cc), h)

  unconditionals-All : (rs : List WorktreeRecord) → All P (unconditionals f rs)
  unfolding unconditionals
  unconditionals-All [] = tt
  unconditionals-All (r ∷ rs) =
      push_unconditional-All (f r) r (unconditionals f rs) refl (unconditionals-All rs)

  age_candidates-All : (rs : List WorktreeRecord) → All (λ x. P x.1) (age_candidates f rs)
  unfolding age_candidates
  age_candidates-All [] = tt
  age_candidates-All (r ∷ rs) =
      push_aged-All (f r) r (age_candidates f rs) refl (age_candidates-All rs)

insert_newest-All :
    (P : WorktreeRecord → Type 0) (x : Time × WorktreeRecord) (xs : List (Time × WorktreeRecord))
    → P x.1
    → All (λ y. P y.1) xs
    → All (λ y. P y.1) (insert_newest x xs)
unfolding insert_newest
insert_newest-All P x [] h k = (h, tt)
insert_newest-All P x (y ∷ ys) h k = elim (Bool-cases (leb y.0 x.0)) [
  | inl e ↦ rw e (h, k)
  | inr e ↦ rw e (k.0, insert_newest-All P x ys h k.1)
]

sort_newest-All :
    (P : WorktreeRecord → Type 0) (xs : List (Time × WorktreeRecord))
    → All (λ y. P y.1) xs
    → All (λ y. P y.1) (sort_newest xs)
unfolding sort_newest
sort_newest-All P [] h = tt
sort_newest-All P (x ∷ xs) h = insert_newest-All P x (sort_newest xs) h.0 (sort_newest-All P xs h.1)

drop-All :
    (P : WorktreeRecord → Type 0) (n : ℕ) (xs : List (Time × WorktreeRecord))
    → All (λ y. P y.1) xs
    → All P (map (λ y. y.1) (drop n xs))
drop-All P zero [] h = tt
drop-All P zero (x ∷ xs) h = (h.0, drop-All P zero xs h.1)
drop-All P (suc n) [] h = tt
drop-All P (suc n) (x ∷ xs) h = drop-All P n xs h.1

retain_new-All :
    (P : WorktreeRecord → Type 0) (seen : List Uuid) (rs : List WorktreeRecord)
    → All P rs
    → All P (retain_new seen rs)
unfolding retain_new
retain_new-All P seen [] h = tt
retain_new-All P seen (r ∷ rs) h = elim (Bool-cases (any (λ i. i == r.task_id) seen)) [
  | inl e ↦ rw e (retain_new-All P seen rs h.1)
  | inr e ↦ rw e (h.0, retain_new-All P (r.task_id ∷ seen) rs h.1)
]

-- once for an id that is not seen, never for one that is
retain_new_once :
    (id : Uuid) (seen : List Uuid) (rs : List WorktreeRecord)
    → count_where (λ r. r.task_id == id) (retain_new seen rs)
        + (if any (λ i. i == id) seen then 1 else 0)
      ≤ 1
unfolding retain_new
retain_new_once id seen [] = ground arith
retain_new_once id seen (r ∷ rs) = elim (Bool-cases (any (λ i. i == r.task_id) seen)) [
  | inl e ↦ rw e (retain_new_once id seen rs)
  | inr e ↦ rw e (elim (Bool-cases (r.task_id == id)) [
    | inl same ↦
        let new : any (λ i. i == id) seen ≡ false =
          subst (λ x. any (λ i. i == x) seen ≡ false) ((==_iff r.task_id id).0 same) e in
        ground (arith, same, new, retain_new_once id (r.task_id ∷ seen) rs)
    | inr other ↦ ground (arith, other, retain_new_once id (r.task_id ∷ seen) rs)
  ])
]

-- The pass removes a worktree only if its task is gone, or is terminal and either no worktrees are
-- kept or the task is older than the cutoff; and it removes none of a task twice.
pub select_prunable-MayGo :
    (records : List WorktreeRecord) (tasks : TaskMap) (cutoff : Option Time) (keep_worktree : Bool)
    (min_worktrees : ℕ) (id : Uuid)
    → let selected = select_prunable records tasks cutoff keep_worktree min_worktrees in
      All (λ r. MayGo (tasks r.task_id) cutoff keep_worktree r) selected
      × (count_where (λ r. r.task_id == id) selected ≤ 1)
unfolding select_prunable
select_prunable-MayGo records tasks cutoff keep_worktree min_worktrees id =
    let f : WorktreeRecord → Choice = λ r. choose (tasks r.task_id) cutoff keep_worktree r in
    let P : WorktreeRecord → Type 0 = λ r. MayGo (tasks r.task_id) cutoff keep_worktree r in
    let go : (r : WorktreeRecord) → (f r ≡ keep) ⊎ P r =
      λ r. choose-MayGo (tasks r.task_id) cutoff keep_worktree r in
    let aged : List (Time × WorktreeRecord) = sort_newest (age_candidates f records) in
    let all : List WorktreeRecord =
      unconditionals f records ++ map (λ x. x.1) (drop min_worktrees aged) in
    (
      retain_new-All P [] all (
          All-append P (unconditionals f records) (map (λ x. x.1) (drop min_worktrees aged))
            (unconditionals-All f P go records)
            (drop-All P min_worktrees aged
              (sort_newest-All P (age_candidates f records) (age_candidates-All f P go records)))),
      omega (arith, retain_new_once id [] all),
    )
