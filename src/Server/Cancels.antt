-- ===== src/Server/Cancels.antt =====
-- What `workflow.cancel` cancels: crates/favetto/src/server.rs.
use favetto.Common.{
  ◌==◌, ◌≡◌, inl, inr, refl, sym, ap, ◌∙◌, subst, arith, List, [], ◌∷◌, Option, none, some, Bool,
  true, false, any-order_by, not, ◌&&◌, ◌||◌, any, All, All-mono, Bool-cases, update_where,
  count_where, select_where, order_by, if◌then◌else◌,
}
use favetto.Model.Status.{TaskStatus}
use favetto.Model.Task.{Uuid, Time, Task, summary}
use favetto.Store.Schema.{TaskRow, Db, is_terminal, is_open}
use favetto.Store.Tasks.{
  get_task, cancel_active_task, cancel_row, insert_event, list_root_tasks, in_root, summaries,
  where_status,
}
use favetto.Executor.State.{State, publish_task, publish, with_db}
use favetto.Server.Tasks.{
  announce_stored, announce_cancelled, close_by_task, cancel_one, cancel_all, cancel_workflow,
}

-- the row is open and one of the tasks, not terminal when it was listed, has its id
abbrev hit : List Task → TaskRow → Bool
hit ts r = is_open r.status && any (λ t. not (is_terminal t.status) && t.id == r.id) ts

hit-then :
    (t : Task) (ts : List Task) (now : Time) (rows : List TaskRow)
    → update_where (hit ts) (cancel_row now) (update_where (hit (t ∷ [])) (cancel_row now) rows)
      ≡ update_where (hit (t ∷ ts)) (cancel_row now) rows
hit-then t ts now [] = refl
hit-then t ts now (r ∷ rows) = ground (arith, hit-then t ts now rows)

hit-terminal :
    (t : Task) (now : Time) (rows : List TaskRow)
    → is_terminal t.status ≡ true
    → rows ≡ update_where (hit (t ∷ [])) (cancel_row now) rows
hit-terminal t now [] e = refl
hit-terminal t now (r ∷ rows) e = ground (arith, hit-terminal t now rows e)

hit-live :
    (t : Task) (now : Time) (rows : List TaskRow)
    → is_terminal t.status ≡ false
    → update_where (where_status t.id is_open) (cancel_row now) rows
      ≡ update_where (hit (t ∷ [])) (cancel_row now) rows
hit-live t now [] e = refl
hit-live t now (r ∷ rows) e = ground (arith, hit-live t now rows e)

-- what the later steps of a cancellation leave as it is
abbrev Same : State → State → Type 0
Same s t = (t.db.tasks ≡ s.db.tasks) × (t.db.runs ≡ s.db.runs) × (t.now ≡ s.now)

announce_stored-Same : (id : Uuid) (s : State) → Same s (announce_stored id s)
unfolding announce_stored announce_cancelled publish_task publish insert_event
announce_stored-Same id s =
    elim (get_task id s.db)
      as (λ o.
        Same s (elim o as (λ x. State) [ some fresh ↦ announce_cancelled fresh s | none ↦ s ])) [
          | some fresh ↦ (refl, refl, refl)
          | none ↦ (refl, refl, refl)
        ]

-- these tasks are cancelled, and nothing else in the tables changes
abbrev Cancels : List Task → State → State → Type 0
Cancels ts s t =
    (t.db.tasks ≡ update_where (hit ts) (cancel_row s.now) s.db.tasks)
    × (t.db.runs ≡ s.db.runs)
    × (t.now ≡ s.now)

if-Cancels :
    (b : Bool) (ts : List Task) (s : State) (x y : State × Bool)
    → Cancels ts s x.0
    → Cancels ts s y.0
    → Cancels ts s (if b then x else y).0
if-Cancels true ts s x y h k = h
if-Cancels false ts s x y h k = k

cancel_one-Cancels : (t : Task) (s : State) → Cancels (t ∷ []) s (cancel_one t s).0
unfolding cancel_one cancel_active_task
cancel_one-Cancels t s =
    let d : Db = (cancel_active_task s.now t.id s.db).0 in
    let closed : State = close_by_task t.id (with_db d s) in
    let (tasks, runs, now) = announce_stored-Same t.id closed in
    elim (Bool-cases (is_terminal t.status)) [
      | inl e ↦ rw e (hit-terminal t s.now s.db.tasks e, refl, refl)
      | inr e ↦ rw e (
          if-Cancels (cancel_active_task s.now t.id s.db).1 (t ∷ []) s
            (announce_stored t.id closed, true) (with_db d s, false)
            (tasks ∙ hit-live t s.now s.db.tasks e, runs, now)
            (hit-live t s.now s.db.tasks e, refl, refl))
    ]

hit-none : (now : Time) (rows : List TaskRow) → rows ≡ update_where (hit []) (cancel_row now) rows
hit-none now [] = refl
hit-none now (r ∷ rows) = ground (arith, hit-none now rows)

cancel_all-Cancels : (ts : List Task) (s : State) → Cancels ts s (cancel_all ts s).0
unfolding cancel_all
cancel_all-Cancels [] s = (hit-none s.now s.db.tasks, refl, refl)
cancel_all-Cancels (t ∷ ts) s =
    let (tasks, runs, now) = cancel_one-Cancels t s in
    let (tasks', runs', now') = cancel_all-Cancels ts (cancel_one t s).0 in
    (tasks' ∙ rw (tasks, now) (hit-then t ts s.now s.db.tasks), runs' ∙ runs, now' ∙ now)

cancel_workflow-Cancels :
    (root : Uuid) (s : State) → Cancels (list_root_tasks root s.db) s (cancel_workflow root s).0
unfolding cancel_workflow
cancel_workflow-Cancels root s =
    elim (list_root_tasks root s.db)
      as (λ l.
        Cancels l s
          (elim l as (λ x. State × Option (List Uuid)) [
            | [] ↦ (s, none)
            | t ∷ ts ↦ let (s', ids) = cancel_all (t ∷ ts) s in (s', some ids)
          ]).0) [
            | [] ↦ (hit-none s.now s.db.tasks, refl, refl)
            | t ∷ ts ↦ cancel_all-Cancels (t ∷ ts) s
          ]

-- some row of the workflow that is not terminal has the id
abbrev pub open_in_root : Uuid → List TaskRow → Uuid → Bool
open_in_root root rows id = any (λ x. in_root root x && is_open x.status && x.id == id) rows

any-summaries :
    (q : Task → Bool) (rows : List TaskRow)
    → any q (summaries rows) ≡ any (λ r. q (summary r.task)) rows
any-summaries q [] = refl
any-summaries q (r ∷ rows) = ap (λ b. q (summary r.task) || b) (any-summaries q rows)

any-select_where :
    (p q : TaskRow → Bool) (rows : List TaskRow)
    → any q (select_where p rows) ≡ any (λ r. p r && q r) rows
any-select_where p q [] = refl
any-select_where p q (r ∷ rows) = ground (arith, any-select_where p q rows)

any-cong :
    (p q : TaskRow → Bool) (rows : List TaskRow)
    → ((r : TaskRow) → p r ≡ q r)
    → any p rows ≡ any q rows
any-cong p q [] h = refl
any-cong p q (r ∷ rows) h = ground (arith, h r, any-cong p q rows h)

-- what the loop goes over
listed-open :
    (root id : Uuid) (d : Db)
    → any (λ t. not (is_terminal t.status) && t.id == id) (list_root_tasks root d)
      ≡ open_in_root root d.tasks id
unfolding list_root_tasks summary
listed-open root id d =
    let q = λ (r : TaskRow). not (is_terminal r.status) && r.id == id in
    any-summaries (λ t. not (is_terminal t.status) && t.id == id)
      (order_by (λ r. r.created_at) (select_where (in_root root) d.tasks))
    ∙ any-order_by q (λ r. r.created_at) (select_where (in_root root) d.tasks)
    ∙ any-select_where (in_root root) q d.tasks
    ∙ any-cong (λ r. in_root root r && q r) (λ x. in_root root x && is_open x.status && x.id == id)
        d.tasks (λ r. ground arith)

update_where-cong :
    (p q : TaskRow → Bool) (f : TaskRow → TaskRow) (rows : List TaskRow)
    → ((r : TaskRow) → p r ≡ q r)
    → update_where p f rows ≡ update_where q f rows
update_where-cong p q f [] h = refl
update_where-cong p q f (r ∷ rows) h = ground (arith, h r, update_where-cong p q f rows h)

-- a row in the workflow is hit by its own id
own-open :
    (root : Uuid) (rows : List TaskRow)
    → All (λ r. in_root root r && is_open r.status ≡ true → open_in_root root rows r.id ≡ true) rows
own-open root [] = tt
own-open root (r ∷ rows) =
    (λ e. ground (arith, e), All-mono _ _ rows (λ x h e. ground (arith, h e)) (own-open root rows))

none_open :
    (root : Uuid) (now : Time) (hit_id : Uuid → Bool) (rows : List TaskRow)
    → All (λ r. in_root root r && is_open r.status ≡ true → hit_id r.id ≡ true) rows
    → count_where
        (λ r. in_root root r && is_open r.status)
        (update_where (λ r. is_open r.status && hit_id r.id) (cancel_row now) rows)
      ≡ 0
none_open root now hit_id [] h = refl
none_open root now hit_id (r ∷ rows) h = ground (arith, h.0, none_open root now hit_id rows h.1)

-- The cancellation of a workflow cancels, now, exactly the rows that are not terminal and have the
-- id of such a row of the workflow; every other row, terminal ones included, stays as it is, and so
-- do the attempts. No row of the workflow is left that is not terminal.
pub cancel_workflow-cancelled :
    (root : Uuid) (s : State)
    → let t = (cancel_workflow root s).0 in
      (t.db.tasks
        ≡ update_where
            (λ r. is_open r.status && open_in_root root s.db.tasks r.id)
            (λ r. record r {
              task = record r.task { status = TaskStatus.cancelled; finished_at = some s.now };
            })
            s.db.tasks)
      × (t.db.runs ≡ s.db.runs)
      × (count_where (λ r. in_root root r && is_open r.status) t.db.tasks ≡ 0)
cancel_workflow-cancelled root s =
    let (tasks, runs, now) = cancel_workflow-Cancels root s in
    let exact =
      tasks
      ∙ update_where-cong (hit (list_root_tasks root s.db))
          (λ r. is_open r.status && open_in_root root s.db.tasks r.id) (cancel_row s.now) s.db.tasks
          (λ r. ap (λ b. is_open r.status && b) (listed-open root r.id s.db)) in
    (
      exact,
      runs,
      subst (λ l. count_where (λ r. in_root root r && is_open r.status) l ≡ 0) (sym exact)
          (none_open root s.now (open_in_root root s.db.tasks) s.db.tasks
            (own-open root s.db.tasks)),
    )
