-- ===== src/Store/Retention.antt =====
-- What the retention pass leaves: `prune` of crates/favetto/src/db.rs.
use favetto.Common.{
  leb, All-both, count_where-update_where, ℕ, ◌-◌, ◌*◌, ◌≤◌, ◌≡◌, ◌==◌, refl, subst, arith, Bool,
  true, false, not, ◌&&◌, ◌||◌, Bool-cases, inl, inr, List, [], ◌∷◌, All, All-mono, delete_where,
  update_where, count_where, is_some, none, if◌then◌else◌,
}
use favetto.Model.Task.{Time}
use favetto.Store.Schema.{TaskRow, Db}
use favetto.Store.Newest.{as_new, newest-as_new}
use favetto.Store.Prune.{
  newest, is_old, has_id, clear_outputs, delete_old_tasks, delete_dead_runs,
  delete_dead_dependencies, delete_old_events, day_ms, prune,
}

module _ {A : Type 0} where
  -- no deleted row is left
  delete_where-All : (p : A → Bool) (xs : List A) → All (λ x. p x ≡ false) (delete_where p xs)
  delete_where-All p [] = tt
  delete_where-All p (x ∷ xs) = elim (Bool-cases (p x)) [
    | inl e ↦ rw e (delete_where-All p xs)
    | inr e ↦ rw e (e, delete_where-All p xs)
  ]

  All-update_back :
      (P Q : A → Type 0) (p : A → Bool) (f : A → A) (xs : List A)
      → ((x : A) → P (if p x then f x else x) → Q x)
      → All P (update_where p f xs)
      → All Q xs
  All-update_back P Q p f [] h k = tt
  All-update_back P Q p f (x ∷ xs) h k = (h x k.0, All-update_back P Q p f xs h k.1)

-- the row is deleted, or one under its id is left
abbrev Survives : (TaskRow → Bool) → List TaskRow → TaskRow → Type 0
Survives p left r = (p r || has_id r.id left) ≡ true

Survives-cons :
    (p : TaskRow → Bool) (x : TaskRow) (left : List TaskRow) (r : TaskRow)
    → Survives p left r
    → Survives p (x ∷ left) r
Survives-cons p x left r h = ground (arith, h)

delete_where-Survives :
    (p : TaskRow → Bool) (rows : List TaskRow) → All (Survives p (delete_where p rows)) rows
delete_where-Survives p [] = tt
delete_where-Survives p (r ∷ rows) =
    let left : List TaskRow = delete_where p rows in
    let rest : All (Survives p left) rows = delete_where-Survives p rows in
    elim (Bool-cases (p r)) [
      | inl e ↦
          let same : left ≡ delete_where p (r ∷ rows) = rw e refl in
          subst (λ l. All (Survives p l) (r ∷ rows)) same (ground (arith, e), rest)
      | inr e ↦
          let same : r ∷ left ≡ delete_where p (r ∷ rows) = rw e refl in
          subst (λ l. All (Survives p l) (r ∷ rows)) same
            (
              ground arith,
              All-mono (Survives p left) (Survives p (r ∷ left)) rows (Survives-cons p r left) rest,
            )
    ]

-- the rows that the second statement of the pass has to leave: those not old, and the newest
abbrev Remains : Time → ℕ → List TaskRow → List TaskRow → TaskRow → Type 0
Remains cutoff n rows left r =
    ((is_old cutoff r || has_id r.id left) ≡ true) × (as_new r rows ≤ n → has_id r.id left ≡ true)

delete_old_tasks-Remains :
    (cutoff : Time) (n : ℕ) (d : Db)
    → All (Remains cutoff n d.tasks (delete_old_tasks cutoff n d).0.tasks) d.tasks
unfolding delete_old_tasks
delete_old_tasks-Remains cutoff n d =
    let p = λ (r : TaskRow). is_old cutoff r && not (has_id r.id (newest n d.tasks)) in
    All-mono _ (Remains cutoff n d.tasks (delete_where p d.tasks)) d.tasks
      (λ r h. (ground (arith, h.0), λ le. ground (arith, h.0, h.1 le)))
      (All-both (Survives p (delete_where p d.tasks))
        (λ r. as_new r d.tasks ≤ n → has_id r.id (newest n d.tasks) ≡ true) d.tasks
        (delete_where-Survives p d.tasks) (newest-as_new n d.tasks))

Remains-cleared :
    (b : Bool) (cutoff : Time) (n : ℕ) (rows left : List TaskRow) (r : TaskRow)
    → Remains cutoff n rows left
        (if b then record r { task = record r.task { output = none } } else r)
    → Remains cutoff n rows left r
Remains-cleared true cutoff n rows left r h = h
Remains-cleared false cutoff n rows left r h = h

-- the same of a pass, whose first statement leaves ids and times as they are
cleared-Remains :
    (cutoff : Time) (n : ℕ) (d : Db)
    → All
        (Remains cutoff n d.tasks (delete_old_tasks cutoff n (clear_outputs cutoff d).0).0.tasks)
        d.tasks
unfolding clear_outputs
cleared-Remains cutoff n d =
    let d₁ : Db = (clear_outputs cutoff d).0 in
    let left : List TaskRow = (delete_old_tasks cutoff n d₁).0.tasks in
    let p = λ (r : TaskRow). is_some r.output && is_old cutoff r in
    let f = λ (r : TaskRow). record r { task = record r.task { output = none } } in
    let counts : (at : Time)
        → count_where (λ x. leb at x.created_at) (update_where p f d.tasks)
          ≡ count_where (λ x. leb at x.created_at) d.tasks =
      λ at. count_where-update_where (λ x. leb at x.created_at) p f d.tasks (λ r e. refl) in
    All-mono (Remains cutoff n d₁.tasks left) (Remains cutoff n d.tasks left) d.tasks
      (λ r k. (k.0, λ le. k.1 (omega (arith, le, counts r.created_at))))
      (All-update_back (Remains cutoff n d₁.tasks left) (Remains cutoff n d₁.tasks left) p f d.tasks
        (λ r. Remains-cleared (p r) cutoff n d₁.tasks left r)
        (delete_old_tasks-Remains cutoff n d₁))

-- the first day that is kept
abbrev pub cutoff_of : Time → ℕ → Time
cutoff_of now days = now - days * day_ms

-- A pass that keeps at least one day leaves no run of a task that is gone, and no dependency that
-- names one. Each task that is not finished, or finished within the days that are kept, is left,
-- and so is each of the newest `min_tasks`: a task such that at most so many tasks, itself
-- included, were created when it was or later.
pub prune_kept :
    (now : Time) (days min_tasks : ℕ) (d : Db)
    → 1 ≤ days
    → let left = (prune now days min_tasks d).0 in
      All (λ u. has_id u.task_id left.tasks ≡ true) left.runs
      × All
          (λ e. (has_id e.task_id left.tasks ≡ true) × (has_id e.depends_on left.tasks ≡ true))
          left.deps
      × All
          (λ r.
            ((is_old (cutoff_of now days) r || has_id r.id left.tasks) ≡ true)
            × (as_new r d.tasks ≤ min_tasks → has_id r.id left.tasks ≡ true))
          d.tasks
unfolding prune delete_dead_runs delete_dead_dependencies delete_old_events
prune_kept now days min_tasks d h =
    let on : (days == 0) ≡ false = ground arith in
    let cutoff : Time = cutoff_of now days in
    let d₂ : Db = (delete_old_tasks cutoff min_tasks (clear_outputs cutoff d).0).0 in
    let d₃ : Db = (delete_dead_runs d₂).0 in
    rw on (
      All-mono (λ u. not (has_id u.task_id d₂.tasks) ≡ false)
          (λ u. has_id u.task_id d₂.tasks ≡ true) d₃.runs (λ u k. ground (arith, k))
          (delete_where-All (λ u. not (has_id u.task_id d₂.tasks)) d₂.runs),
      All-mono
          (λ e. (not (has_id e.task_id d₂.tasks) || not (has_id e.depends_on d₂.tasks)) ≡ false)
          (λ e. (has_id e.task_id d₂.tasks ≡ true) × (has_id e.depends_on d₂.tasks ≡ true))
          (delete_where (λ e. not (has_id e.task_id d₂.tasks) || not (has_id e.depends_on d₂.tasks))
            d₃.deps)
          (λ e k. ground (arith, k))
          (delete_where-All
            (λ e. not (has_id e.task_id d₂.tasks) || not (has_id e.depends_on d₂.tasks)) d₃.deps),
      cleared-Remains cutoff min_tasks d,
    )
