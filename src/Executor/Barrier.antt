-- ===== src/Executor/Barrier.antt =====
-- A fan-in waits for every task of its root and starts once: `maybe_start_join` of
-- crates/favetto/src/executor.rs.
use favetto.Common.{
  ==_iff, ◌+◌, sym, ◌≢◌, drop, codes, text_eq-eq, count_where-append, suc, ◌≡◌, ◌==◌, refl, ap, ◌∙◌,
  arith, List, [], ◌∷◌, ◌++◌, Bool, true, false, ◌&&◌, ◌||◌, Bool-cases, inl, inr, any, Text,
  text_eq, text_eq_refl, Option, some, none, count_where, select_where, order_by, length,
  length-order_by, length-select_where, is_empty,
}
use favetto.Model.Status.{TaskStatus}
use favetto.Model.Task.{Uuid, Task}
use favetto.Store.Schema.{TaskRow, Db, is_open}
use favetto.Store.Tasks.{
  same_key, conflicts, insert_task, has_task_id, in_root, summaries, list_active_tasks_in_root,
  insert_event,
}
use favetto.Executor.State.{External, State, publish, publish_task, emit_event}
use favetto.Executor.Enqueue.{Request, new_task, enqueue_with_id, enqueue_with_lineage}
use favetto.Executor.Join.{join_key, join_request, maybe_start_join}

-- a task of the root under the name that the fan-in waits for, not yet terminal
abbrev pub unfinished : Uuid → Text → TaskRow → Bool
unfinished root target r = in_root root r && text_eq r.name target && is_open r.status

-- some row holds the dedupe key
abbrev pub HasKey : Text → Db → Type 0
HasKey key d = any (λ r. same_key r.dedupe_key (some key)) d.tasks ≡ true

length-summaries : (rows : List TaskRow) → length (summaries rows) ≡ length rows
length-summaries [] = refl
length-summaries (r ∷ rows) = ap suc (length-summaries rows)

-- the barrier counts the unfinished tasks
length-active :
    (root : Uuid) (target : Text) (d : Db)
    → length (list_active_tasks_in_root root target d)
      ≡ count_where (unfinished root target) d.tasks
unfolding list_active_tasks_in_root
length-active root target d =
    length-summaries (order_by (λ r. r.created_at) (select_where (unfinished root target) d.tasks))
    ∙ length-order_by (λ r. r.created_at) (select_where (unfinished root target) d.tasks)
    ∙ length-select_where (unfinished root target) d.tasks

is_empty-length : {A : Type 0} (xs : List A) → is_empty xs ≡ (length xs == 0)
is_empty-length [] = refl
is_empty-length (x ∷ xs) = ground arith

key→conflict :
    (t : Task) (key : Text) (rows : List TaskRow)
    → t.dedupe_key ≡ some key
    → any (λ r. same_key r.dedupe_key (some key)) rows ≡ true
    → any (conflicts t) rows ≡ true
unfolding conflicts
key→conflict t key [] e h = h
key→conflict t key (r ∷ rows) e h = rw e (ground (arith, key→conflict t key rows e))

-- an insertion under a key that is there
insert_task-dup :
    (t : Task) (key : Text) (d : Db) → t.dedupe_key ≡ some key → HasKey key d → insert_task t d ≡ d
unfolding insert_task
insert_task-dup t key d e h = rw (key→conflict t key d.tasks e h) refl

enqueue-dup :
    (ext : External) (r : Request) (key : Text) (s : State)
    → r.dedupe_key ≡ some key
    → HasKey key s.db
    → (enqueue_with_lineage ext r s).0.db.tasks ≡ s.db.tasks
unfolding enqueue_with_lineage enqueue_with_id emit_event publish_task publish insert_event new_task
enqueue-dup ext r key s e h =
    ap (λ d. d.tasks) (insert_task-dup (new_task (ext.new_v4 s.drawn) r s.now) key s.db e h)

start_join-dup :
    (ext : External) (dep target : Text) (root : Uuid) (parent : Option Uuid) (s : State)
    → HasKey (join_key ext dep root) s.db
    → (maybe_start_join ext dep target root parent s).db.tasks ≡ s.db.tasks
unfolding maybe_start_join join_request
start_join-dup ext dep target root parent s h =
    elim (Bool-cases (is_empty (list_active_tasks_in_root root target s.db))) [
      | inl e ↦ rw e (
          enqueue-dup ext (join_request ext dep target root parent s) (join_key ext dep root) s refl
            h)
      | inr e ↦ rw e refl
    ]

-- no row holds the dedupe key
abbrev pub NoKey : Text → List TaskRow → Type 0
NoKey key rows = any (λ r. same_key r.dedupe_key (some key)) rows ≡ false

-- no row has the id
abbrev pub NoId : Uuid → List TaskRow → Type 0
NoId id rows = count_where (has_task_id id) rows ≡ 0

-- the row that a fan-in inserts
abbrev join_row : External → Text → Text → Uuid → Option Uuid → State → TaskRow
join_row ext dep target root parent s = record {
  task = new_task (ext.new_v4 s.drawn) (join_request ext dep target root parent s) s.now;
  retry_at = none;
}

no_conflict :
    (t : Task) (key : Text) (rows : List TaskRow)
    → t.dedupe_key ≡ some key
    → NoId t.id rows
    → NoKey key rows
    → any (conflicts t) rows ≡ false
unfolding conflicts
no_conflict t key [] e free no_key = refl
no_conflict t key (r ∷ rows) e free no_key =
    rw e (ground (arith, free, no_key, no_conflict t key rows e))

insert_task-new :
    (t : Task) (key : Text) (d : Db)
    → t.dedupe_key ≡ some key
    → NoId t.id d.tasks
    → NoKey key d.tasks
    → (insert_task t d).tasks ≡ d.tasks ++ record { task = t; retry_at = none } ∷ []
unfolding insert_task
insert_task-new t key d e free no_key = rw (no_conflict t key d.tasks e free no_key) refl

start_join-new :
    (ext : External) (dep target : Text) (root : Uuid) (parent : Option Uuid) (s : State)
    → NoId (ext.new_v4 s.drawn) s.db.tasks
    → NoKey (join_key ext dep root) s.db.tasks
    → count_where (unfinished root target) s.db.tasks ≡ 0
    → let t = maybe_start_join ext dep target root parent s in
      (t.db.tasks ≡ s.db.tasks ++ join_row ext dep target root parent s ∷ [])
      × (t.drawn ≡ s.drawn + 1)
unfolding maybe_start_join join_request enqueue_with_lineage enqueue_with_id emit_event publish_task
    publish insert_event new_task
start_join-new ext dep target root parent s free no_key done =
    let opened : is_empty (list_active_tasks_in_root root target s.db) ≡ true = ground (
      arith,
      done,
      is_empty-length (list_active_tasks_in_root root target s.db),
      length-active root target s.db,
    ) in
    rw opened (
      insert_task-new (join_row ext dep target root parent s).task (join_key ext dep root) s.db refl
          free no_key,
      refl,
    )

drop-append : (xs ys : Text) → drop (length xs) (xs ++ ys) ≡ ys
drop-append [] ys = refl
drop-append (x ∷ xs) ys = drop-append xs ys

append-cancel : (xs ys zs : Text) → xs ++ ys ≡ xs ++ zs → ys ≡ zs
append-cancel xs ys zs e = sym (drop-append xs ys) ∙ ap (drop (length xs)) e ∙ drop-append xs zs

-- the fan-ins of two roots have two keys
join_key-other :
    (ext : External) (dep : Text) (a b : Uuid)
    → ext.uuid_text a ≢ ext.uuid_text b
    → text_eq (join_key ext dep a) (join_key ext dep b) ≡ false
unfolding join_key
join_key-other ext dep a b other =
    elim (Bool-cases (text_eq (join_key ext dep a) (join_key ext dep b))) [
      | inr e ↦ e
      | inl e ↦ absurd (
          other (
            append-cancel (codes "join:" ++ dep ++ codes ":") (ext.uuid_text a) (ext.uuid_text b)
              (text_eq-eq (join_key ext dep a) (join_key ext dep b) e)))
    ]

pub any-append_one :
    (p : TaskRow → Bool) (rows : List TaskRow) (r : TaskRow)
    → any p (rows ++ r ∷ []) ≡ (any p rows || p r)
any-append_one p [] r = ground arith
any-append_one p (x ∷ rows) r = ground (arith, any-append_one p rows r)

pub any-append_last :
    (key : Text) (rows : List TaskRow) (r : TaskRow)
    → r.dedupe_key ≡ some key
    → any (λ x. same_key x.dedupe_key (some key)) (rows ++ r ∷ []) ≡ true
any-append_last key rows r e =
    any-append_one (λ x. same_key x.dedupe_key (some key)) rows r
    ∙ rw e (rw (text_eq_refl key) (ground arith))

any-append_before :
    (p : TaskRow → Bool) (rows : List TaskRow) (r : TaskRow)
    → any p rows ≡ true
    → any p (rows ++ r ∷ []) ≡ true
any-append_before p rows r h = any-append_one p rows r ∙ rw h refl

-- the row is a fan-in of the root
abbrev pub IsJoin : Text → Uuid → TaskRow → Type 0
IsJoin dep root r = (r.name ≡ dep) × (r.root_id ≡ some root) × (r.status ≡ TaskStatus.pending)

-- Two workflow roots whose tasks under the name of the target are all terminal, and of which
-- neither has its fan-in yet: each gets its own row, and one only. If the first root's fan-in is
-- evaluated again behind that, for another predecessor, it adds nothing. The drawn ids are new.
pub maybe_start_join_each :
    (ext : External) (dep target : Text) (a b : Uuid) (parent other again : Option Uuid) (s : State)
    → ext.uuid_text a ≢ ext.uuid_text b
    → NoId (ext.new_v4 s.drawn) s.db.tasks
    → NoId (ext.new_v4 (s.drawn + 1)) s.db.tasks
    → (ext.new_v4 s.drawn == ext.new_v4 (s.drawn + 1)) ≡ false
    → (ext.new_v4 s.drawn == b) ≡ false
    → NoKey (join_key ext dep a) s.db.tasks
    → NoKey (join_key ext dep b) s.db.tasks
    → count_where (unfinished a target) s.db.tasks ≡ 0
    → count_where (unfinished b target) s.db.tasks ≡ 0
    → let s₁ = maybe_start_join ext dep target a parent s in
      let s₂ = maybe_start_join ext dep target b other s₁ in
      (row_a : TaskRow) × (row_b : TaskRow) × IsJoin dep a row_a
      × IsJoin dep b row_b
      × (s₂.db.tasks ≡ (s.db.tasks ++ row_a ∷ []) ++ row_b ∷ [])
      × ((maybe_start_join ext dep target a again s₂).db.tasks ≡ s₂.db.tasks)
unfolding join_request new_task
maybe_start_join_each ext dep target a b parent other again s texts new₁ new₂ ids not_b no_a no_b
      done_a done_b =
    let s₁ : State = maybe_start_join ext dep target a parent s in
    let s₂ : State = maybe_start_join ext dep target b other s₁ in
    let row_a : TaskRow = join_row ext dep target a parent s in
    let row_b : TaskRow = join_row ext dep target b other s₁ in
    let (tasks₁, drawn₁) = start_join-new ext dep target a parent s new₁ no_a done_a in
    let free : NoId (ext.new_v4 s₁.drawn) s₁.db.tasks =
      rw (tasks₁, drawn₁)
        (ground (
          arith,
          new₂,
          ids,
          count_where-append (has_task_id (ext.new_v4 (s.drawn + 1))) s.db.tasks (row_a ∷ []),
        )) in
    let no_b₁ : NoKey (join_key ext dep b) s₁.db.tasks = rw tasks₁ (
      any-append_one (λ r. same_key r.dedupe_key (some (join_key ext dep b))) s.db.tasks row_a
      ∙ ap (λ x. x || text_eq (join_key ext dep a) (join_key ext dep b)) no_b
      ∙ join_key-other ext dep a b texts) in
    let apart : (a == b) ≡ false = elim (Bool-cases (a == b)) [
      | inl e ↦ absurd (texts (ap ext.uuid_text ((==_iff a b).0 e)))
      | inr e ↦ e
    ] in
    let done₁ : count_where (unfinished b target) s₁.db.tasks ≡ 0 = rw tasks₁ (
      ground (
        arith,
        done_b,
        not_b,
        apart,
        count_where-append (unfinished b target) s.db.tasks (row_a ∷ []),
      )) in
    let (tasks₂, drawn₂) = start_join-new ext dep target b other s₁ free no_b₁ done₁ in
    let held : HasKey (join_key ext dep a) s₂.db = rw tasks₂ (
      any-append_before (λ x. same_key x.dedupe_key (some (join_key ext dep a))) s₁.db.tasks row_b
        (rw tasks₁ (any-append_last (join_key ext dep a) s.db.tasks row_a refl))) in
    (
      row_a,
      row_b,
      (refl, refl, refl),
      (refl, refl, refl),
      tasks₂ ∙ ap (λ l. l ++ row_b ∷ []) tasks₁,
      start_join-dup ext dep target a again s₂ held,
    )
