-- ===== src/Executor/Enqueue.antt =====
-- How a task enters the queue: crates/favetto/src/executor.rs.
use favetto.Common.{◌+◌, Text, Bool, false, List, [], ◌∷◌, Option, none, some}
use favetto.Model.Status.{TaskStatus}
use favetto.Model.EventKind.{EventKind}
use favetto.Model.Task.{Uuid, Time, Value, Task, root_or_self}
use favetto.Store.Schema.{Db}
use favetto.Store.Tasks.{insert_task, get_task_by_dedupe_key}
use favetto.Store.Runs.{insert_dependency}
use favetto.Executor.State.{External, State, publish_task, with_db, emit_event, task_payload}

pub record Lineage : Type 0 where
  pub parent_id : Option Uuid
  pub root_id : Option Uuid

-- `Lineage::default`
abbrev pub no_lineage : Lineage
no_lineage = record { parent_id = none; root_id = none }

-- `Lineage::child_of`
unfoldable pub child_of : Task → Lineage
child_of parent = record { parent_id = some parent.id; root_id = some (root_or_self parent) }

-- the arguments that `enqueue_with_id` and its callers share
pub record Request : Type 0 where
  pub name : Text
  pub input : Value
  pub dedupe_key : Option Text
  pub lineage : Lineage
  pub interactive : Bool

-- the row that `enqueue_with_id` inserts
unfoldable pub new_task : Uuid → Request → Time → Task
new_task id r now = record {
  id = id;
  name = r.name;
  status = TaskStatus.pending;
  attempt = 0;
  input = r.input;
  output = none;
  dedupe_key = r.dedupe_key;
  created_at = now;
  started_at = none;
  finished_at = none;
  error = none;
  failure = none;
  session_id = none;
  session_title = none;
  parent_id = r.lineage.parent_id;
  root_id = r.lineage.root_id;
  interactive = r.interactive;
}

-- `state.metrics.inc_tasks()`
abbrev pub inc_tasks : State → State
inc_tasks s = record s { tasks_total = s.tasks_total + 1 }

unfoldable pub enqueue_with_id : Uuid → Request → State → State × Task
unfolding new_task
enqueue_with_id id r s =
    let t = new_task id r s.now in
    (
      emit_event EventKind.task_idle (task_payload r.name id)
          (publish_task t (inc_tasks (with_db (insert_task t s.db) s))),
      t,
    )

module _ (ext : External) where
  unfoldable pub enqueue_with_lineage : Request → State → State × Task
  enqueue_with_lineage r s =
      enqueue_with_id (ext.new_v4 s.drawn) r (record s { drawn = s.drawn + 1 })

  -- a task that is its own root
  unfoldable pub enqueue_task : Text → Value → Option Text → Bool → State → State × Task
  unfolding enqueue_with_lineage
  enqueue_task name input dedupe_key interactive = enqueue_with_lineage record {
    name = name;
    input = input;
    dedupe_key = dedupe_key;
    lineage = no_lineage;
    interactive = interactive;
  }

abbrev pub insert_dependencies : Uuid → List Uuid → Time → Db → Db
insert_dependencies task_id [] now d = d
insert_dependencies task_id (p ∷ ps) now d =
    insert_dependencies task_id ps now (insert_dependency task_id p now d)

unfoldable pub record_dependencies : Uuid → List Uuid → State → State
record_dependencies task_id depends_on s =
    with_db (insert_dependencies task_id depends_on s.now s.db) s

pub record DynamicNode : Type 0 where
  pub id : Uuid
  pub name : Text
  pub input : Value
  pub dedupe_key : Option Text
  pub root_id : Uuid
  pub parent_id : Option Uuid
  pub depends_on : List Uuid

unfoldable pub enqueue_dynamic : DynamicNode → State → State × Task
unfolding enqueue_with_id record_dependencies
enqueue_dynamic n s =
    let (s', t) =
      enqueue_with_id n.id
        (record {
          name = n.name;
          input = n.input;
          dedupe_key = n.dedupe_key;
          lineage = record { parent_id = n.parent_id; root_id = some n.root_id };
          interactive = false;
        })
        s in
    (record_dependencies t.id n.depends_on s', t)

-- the row that an earlier submission under the same key left, if there is one
abbrev pub existing : Option Text → State → Option Task
existing none s = none
existing (some key) s = get_task_by_dedupe_key key s.db

unfoldable pub spawn_dynamic :
    External → Text → Value → Option Uuid → List Uuid → Option Text → State → State × Task
unfolding enqueue_with_lineage record_dependencies
spawn_dynamic ext name input root_id depends_on dedupe_key s = elim (existing dedupe_key s) [
  | some t ↦ (s, t)
  | none ↦
      let (s', t) =
        enqueue_with_lineage ext
          (record {
            name = name;
            input = input;
            dedupe_key = dedupe_key;
            lineage = record { parent_id = root_id; root_id = root_id };
            interactive = false;
          })
          s in
      (record_dependencies t.id depends_on s', t)
]
