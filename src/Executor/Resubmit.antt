-- ===== src/Executor/Resubmit.antt =====
-- A submission under a dedupe key that is repeated: `spawn_dynamic` of
-- crates/favetto/src/executor.rs.
use favetto.Common.{
  ◌==◌, ◌≡◌, refl, sym, ap, ◌∙◌, subst, arith, Bool, false, ◌||◌, Bool-cases, Option-cases, inl,
  inr, Text, text_eq_refl, List, [], ◌∷◌, ◌++◌, Option, none, some, any, find?, count_where,
}
use favetto.Model.Task.{Uuid, Time, Value, Task}
use favetto.Store.Schema.{TaskRow, Db}
use favetto.Store.Tasks.{
  same_key, conflicts, insert_task, has_task_id, get_task_by_dedupe_key, insert_event,
}
use favetto.Store.Runs.{insert_dependency}
use favetto.Executor.State.{External, State, publish, publish_task, emit_event}
use favetto.Executor.Enqueue.{
  Request, new_task, enqueue_with_id, enqueue_with_lineage, insert_dependencies,
  record_dependencies, spawn_dynamic,
}

-- no row is under the key
abbrev NoKey : Text → List TaskRow → Type 0
NoKey key rows = any (λ r. same_key r.dedupe_key (some key)) rows ≡ false

find_none : {A : Type 0} (p : A → Bool) (xs : List A) → find? p xs ≡ none → any p xs ≡ false
find_none p [] h = refl
find_none p (x ∷ xs) h = ground (arith, find_none p xs)

lookup-NoKey : (key : Text) (d : Db) → get_task_by_dedupe_key key d ≡ none → NoKey key d.tasks
unfolding get_task_by_dedupe_key
lookup-NoKey key d h = elim (Option-cases (find? (λ r. same_key r.dedupe_key (some key)) d.tasks)) [
  | inl e ↦ find_none (λ r. same_key r.dedupe_key (some key)) d.tasks e
  | inr (r, e) ↦
      let found : get_task_by_dedupe_key key d ≡ some r.task =
        rw (get_task_by_dedupe_key, e) refl in
      ground (arith, found, h)
]

no_conflict :
    (t : Task) (key : Text) (rows : List TaskRow)
    → t.dedupe_key ≡ some key
    → NoKey key rows
    → count_where (has_task_id t.id) rows ≡ 0
    → any (conflicts t) rows ≡ false
unfolding conflicts
no_conflict t key [] e h k = refl
no_conflict t key (r ∷ rows) e h k =
    subst (λ o. ((r.id == t.id || same_key r.dedupe_key o) || any (conflicts t) rows) ≡ false)
      (sym e) (ground (arith, h, k, no_conflict t key rows e))

find-last :
    (key : Text) (rows : List TaskRow) (r : TaskRow)
    → r.dedupe_key ≡ some key
    → NoKey key rows
    → find? (λ x. same_key x.dedupe_key (some key)) (rows ++ r ∷ []) ≡ some r
find-last key [] r e h = rw e (rw (text_eq_refl key) refl)
find-last key (x ∷ rows) r e h = elim (Bool-cases (same_key x.dedupe_key (some key))) [
  | inl s ↦ absurd (ground (arith, h, s))
  | inr s ↦ rw s (find-last key rows r e (ground (arith, h, s)))
]

-- the row that an insertion stores is found under its key
insert_task-found :
    (t : Task) (key : Text) (d : Db)
    → t.dedupe_key ≡ some key
    → NoKey key d.tasks
    → count_where (has_task_id t.id) d.tasks ≡ 0
    → find? (λ x. same_key x.dedupe_key (some key)) (insert_task t d).tasks
      ≡ some (record { task = t; retry_at = none })
unfolding insert_task
insert_task-found t key d e h k =
    rw (no_conflict t key d.tasks e h k)
      (find-last key d.tasks (record { task = t; retry_at = none }) e h)

insert_dependency-tasks :
    (id p : Uuid) (now : Time) (d : Db) → (insert_dependency id p now d).tasks ≡ d.tasks
unfolding insert_dependency
insert_dependency-tasks id p now d = ground arith

insert_dependencies-tasks :
    (id : Uuid) (ps : List Uuid) (now : Time) (d : Db)
    → (insert_dependencies id ps now d).tasks ≡ d.tasks
unfolding insert_dependency
insert_dependencies-tasks id [] now d = refl
insert_dependencies-tasks id (p ∷ ps) now d =
    insert_dependencies-tasks id ps now (insert_dependency id p now d)
    ∙ insert_dependency-tasks id p now d

lookup_found :
    (key : Text) (d : Db) (r : TaskRow)
    → find? (λ x. same_key x.dedupe_key (some key)) d.tasks ≡ some r
    → get_task_by_dedupe_key key d ≡ some r.task
unfolding get_task_by_dedupe_key
lookup_found key d r e = rw (get_task_by_dedupe_key, e) refl

spawn_dynamic-existing :
    (ext : External) (name : Text) (input : Value) (root : Option Uuid) (deps : List Uuid)
    (key : Text) (s : State) (t : Task)
    → get_task_by_dedupe_key key s.db ≡ some t
    → spawn_dynamic ext name input root deps (some key) s ≡ (s, t)
unfolding spawn_dynamic
spawn_dynamic-existing ext name input root deps key s t e = rw (spawn_dynamic, e) refl

-- the request of a submission
abbrev request_of : Text → Value → Option Uuid → Text → Request
request_of name input root key = record {
  name = name;
  input = input;
  dedupe_key = some key;
  lineage = record { parent_id = root; root_id = root };
  interactive = false;
}

spawn_dynamic-new :
    (ext : External) (name : Text) (input : Value) (root : Option Uuid) (deps : List Uuid)
    (key : Text) (s : State)
    → get_task_by_dedupe_key key s.db ≡ none
    → count_where (has_task_id (ext.new_v4 s.drawn)) s.db.tasks ≡ 0
    → let (s', t) = spawn_dynamic ext name input root deps (some key) s in
      get_task_by_dedupe_key key s'.db ≡ some t
unfolding spawn_dynamic enqueue_with_lineage enqueue_with_id emit_event publish_task publish
    insert_event new_task record_dependencies
spawn_dynamic-new ext name input root deps key s e fresh =
    let r : Request = request_of name input root key in
    let t : Task = new_task (ext.new_v4 s.drawn) r s.now in
    let d : Db = (enqueue_with_lineage ext r s).0.db in
    rw (spawn_dynamic, e)
      (lookup_found key (insert_dependencies t.id deps s.now d)
        (record { task = t; retry_at = none })
        (ap (find? (λ x. same_key x.dedupe_key (some key)))
            (insert_dependencies-tasks t.id deps s.now d)
          ∙ insert_task-found t key s.db refl (lookup-NoKey key s.db e) fresh))

-- A submission under a key that no row has, and under a new id, can be repeated: a second one under
-- the same key, whatever else it asks for, changes nothing and returns the task of the first.
pub spawn_dynamic_twice :
    (ext : External) (name other : Text) (input input' : Value) (root root' : Option Uuid)
    (deps deps' : List Uuid) (key : Text) (s : State)
    → get_task_by_dedupe_key key s.db ≡ none
    → count_where (has_task_id (ext.new_v4 s.drawn)) s.db.tasks ≡ 0
    → let (s', t) = spawn_dynamic ext name input root deps (some key) s in
      spawn_dynamic ext other input' root' deps' (some key) s' ≡ (s', t)
spawn_dynamic_twice ext name other input input' root root' deps deps' key s e fresh =
    let (s', t) : State × Task = spawn_dynamic ext name input root deps (some key) s in
    spawn_dynamic-existing ext other input' root' deps' key s' t
      (spawn_dynamic-new ext name input root deps key s e fresh)
