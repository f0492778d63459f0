-- ===== src/Workflow/Create.antt =====
-- `workflow.create` and `workflow.spawn`: `create_workflow` and `spawn_workflow` of
-- crates/favetto/src/server.rs.
use favetto.Common.{
  ◌+◌, ◌==◌, Bool, not, List, [], ◌∷◌, ◌++◌, Option, none, some, Result, ok, err, ◌>>=◌, bail_if,
  if◌then◌else◌, Text, codes, text_eq, any, map,
}
use favetto.Model.Task.{Uuid, Value, null, Task, root_or_self}
use favetto.Store.Tasks.{get_task, get_task_by_dedupe_key}
use favetto.Executor.State.{External, State}
use favetto.Executor.Enqueue.{DynamicNode, enqueue_dynamic, record_dependencies, spawn_dynamic}
use favetto.Workflow.Spec.{
  WorkflowCreateTask, CreateError, dependencies, contains, validate_create_dag,
}

-- the refusals of the request: those of its check, a root that is not there, and the internal error
-- "task ids unresolved"
pub data WorkflowError : Type 0 where
  invalid : CreateError → WorkflowError
  root_not_found : Uuid → WorkflowError
  unresolved : WorkflowError

pub record WorkflowCreateParams : Type 0 where
  pub idempotency_key : Text
  pub root_id : Option Uuid
  pub tasks : Option (List WorkflowCreateTask)

pub record WorkflowNodeRef : Type 0 where
  pub key : Text
  pub id : Uuid
  pub name : Text

pub record WorkflowCreateResult : Type 0 where
  pub root_id : Uuid
  pub tasks : List WorkflowNodeRef

-- `ids` and `existing`
pub record Resolved : Type 0 where
  pub ids : Text → Option Uuid
  pub existing : List Uuid

-- `format!("workflow:{}:{}", params.idempotency_key, spec.key)`
unfoldable pub node_key : Text → Text → Text
node_key idempotency_key key = codes "workflow:" ++ idempotency_key ++ codes ":" ++ key

-- `params.tasks.unwrap_or_default()` and `spec.input.clone().unwrap_or(Value::Null)`
abbrev pub specs_of : WorkflowCreateParams → List WorkflowCreateTask
specs_of p = elim p.tasks [ none ↦ [] | some ts ↦ ts ]

abbrev pub input_or_null : Option Value → Value
input_or_null none = null
input_or_null (some v) = v

-- `ids.insert(key, id)`
abbrev pub insert_id : Text → Uuid → (Text → Option Uuid) → Text → Option Uuid
insert_id key id ids k = if text_eq k key then some id else ids k

-- the ids of the nodes: those of an earlier submission, or new ones
unfoldable pub resolve_ids :
    External → Text → List WorkflowCreateTask → Resolved → State → State × Resolved
unfolding node_key
resolve_ids ext idem [] r s = (s, r)
resolve_ids ext idem (t ∷ ts) r s = elim (get_task_by_dedupe_key (node_key idem t.key) s.db) [
  | some task ↦
      resolve_ids ext idem ts
        (record { ids = insert_id t.key task.id r.ids; existing = task.id ∷ r.existing }) s
  | none ↦
      resolve_ids ext idem ts
        (record { ids = insert_id t.key (ext.new_v4 s.drawn) r.ids; existing = r.existing })
        (record s { drawn = s.drawn + 1 })
]

-- the ids of the keys that a task depends on, if each has one
unfoldable pub lookup_all : (Text → Option Uuid) → List Text → Option (List Uuid)
lookup_all ids [] = some []
lookup_all ids (k ∷ ks) =
    let rest = lookup_all ids ks in
    elim (ids k) [ none ↦ none | some id ↦ elim rest [ none ↦ none | some xs ↦ some (id ∷ xs) ] ]

-- the node of a task that is not there yet
unfoldable pub node_of : Text → Uuid → WorkflowCreateTask → Uuid → List Uuid → DynamicNode
unfolding node_key
node_of idem root t id deps = record {
  id = id;
  name = t.name;
  input = input_or_null t.input;
  dedupe_key = some (node_key idem t.key);
  root_id = root;
  parent_id = if id == root then none else some root;
  depends_on = deps;
}

-- the insertion of one node, or of the dependencies of one that is there
unfoldable pub create_node :
    Text → Uuid → List Uuid → WorkflowCreateTask → Uuid → List Uuid → State → State
unfolding node_of
create_node idem root existing t id deps s =
    if any (λ x. x == id) existing
    then record_dependencies id deps s
    else (enqueue_dynamic (node_of idem root t id deps) s).0

-- the loop that inserts the nodes
unfoldable pub create_nodes :
    Text → Uuid → Resolved → List WorkflowCreateTask → State → State × Result WorkflowError Unit
unfolding create_node lookup_all
create_nodes idem root r [] s = (s, ok tt)
create_nodes idem root r (t ∷ ts) s = elim (r.ids t.key) [
  | none ↦ (s, err unresolved)
  | some id ↦ elim (lookup_all r.ids (dependencies t)) [
    | none ↦ (s, err unresolved)
    | some deps ↦ create_nodes idem root r ts (create_node idem root r.existing t id deps s)
  ]
]

-- the references that the result lists
unfoldable pub node_refs :
    (Text → Option Uuid) → List WorkflowCreateTask → Result WorkflowError (List WorkflowNodeRef)
node_refs ids [] = ok []
node_refs ids (t ∷ ts) =
    let rest = node_refs ids ts in
    elim (ids t.key) [
      | none ↦ err unresolved
      | some id ↦ rest >>= λ refs. ok (record { key = t.key; id = id; name = t.name } ∷ refs)
    ]

-- the caller's root, or the first task
unfoldable pub root_of : Option Uuid → (Text → Option Uuid) → List WorkflowCreateTask → Option Uuid
root_of (some root) ids ts = some root
root_of none ids [] = none
root_of none ids (t ∷ ts) = ids t.key

-- a root that the caller names, and that is not there
unfoldable pub missing_root : Uuid → State → Bool
missing_root root s = elim (get_task root s.db) [ none ↦ Bool.true | some _ ↦ Bool.false ]

-- the writes, once the ids are resolved
unfoldable pub create_resolved :
    WorkflowCreateParams
    → List WorkflowCreateTask
    → Resolved
    → State
    → State × Result WorkflowError WorkflowCreateResult
unfolding create_nodes node_refs root_of
create_resolved p ts r s = elim (root_of p.root_id r.ids ts) [
  | none ↦ (s, err unresolved)
  | some root ↦
      let (s', created) = create_nodes p.idempotency_key root r ts s in
      (
        s',
        created >>= λ _.
            node_refs r.ids ts >>= λ refs. ok (record { root_id = root; tasks = refs }),
      )
]

abbrev pub nothing_resolved : Resolved
nothing_resolved = record { ids = λ _. none; existing = [] }

-- the request, once it is validated
unfoldable pub create_validated :
    External → WorkflowCreateParams → State → State × Result WorkflowError WorkflowCreateResult
unfolding missing_root resolve_ids create_resolved
create_validated ext p s =
    let (s', r) = resolve_ids ext p.idempotency_key (specs_of p) nothing_resolved s in
    elim p.root_id [
      | none ↦ create_resolved p (specs_of p) r s'
      | some root ↦
          if missing_root root s
          then (s, err (root_not_found root))
          else create_resolved p (specs_of p) r s'
    ]

abbrev pub catalog_names : State → List Text
catalog_names s = map (λ d. d.name) s.catalog

-- `none` is a panic of `validate_create_dag`
unfoldable pub create_workflow :
    (List Text → List Text)
    → External
    → WorkflowCreateParams
    → State
    → Option (State × Result WorkflowError WorkflowCreateResult)
unfolding create_validated
create_workflow hash_order ext p s =
    elim (validate_create_dag hash_order (catalog_names s) (specs_of p)) [
      | none ↦ none
      | some (err e) ↦ some (s, err (invalid e))
      | some (ok _) ↦ some (create_validated ext p s)
    ]

pub record WorkflowSpawnParams : Type 0 where
  pub name : Text
  pub input : Option Value
  pub root_id : Option Uuid
  pub depends_on : Option (List Uuid)
  pub dedupe_key : Option Text

pub data SpawnError : Type 0 where
  unknown_name : Text → SpawnError
  no_root no_dependency foreign_dependency : Uuid → SpawnError

-- a dependency that is of another root than the one asked for
abbrev pub is_foreign : Option Uuid → Task → Bool
is_foreign none t = Bool.false
is_foreign (some root) t = not (root_or_self t == root)

-- the loop over the predecessors
unfoldable pub check_dependencies : Option Uuid → List Uuid → State → Result SpawnError Unit
check_dependencies root [] s = ok tt
check_dependencies root (p ∷ ps) s =
    let rest = check_dependencies root ps s in
    elim (get_task p s.db) [
      | none ↦ err (no_dependency p)
      | some t ↦ if is_foreign root t then err (foreign_dependency p) else rest
    ]

unfoldable pub check_root : Option Uuid → State → Result SpawnError Unit
unfolding missing_root
check_root none s = ok tt
check_root (some root) s = bail_if (missing_root root s) (no_root root)

abbrev pub spawn_deps : WorkflowSpawnParams → List Uuid
spawn_deps p = elim p.depends_on [ none ↦ [] | some ds ↦ ds ]

unfoldable pub spawn_workflow :
    External → WorkflowSpawnParams → State → State × Result SpawnError Task
unfolding check_dependencies check_root
spawn_workflow ext p s =
    let (s', t) =
      spawn_dynamic ext p.name (input_or_null p.input) p.root_id (spawn_deps p) p.dedupe_key s in
    elim (bail_if (not (contains p.name (catalog_names s))) (unknown_name p.name) >>= λ _.
    check_root p.root_id s >>= λ _. check_dependencies p.root_id (spawn_deps p) s) [
      | err e ↦ (s, err e)
      | ok _ ↦ (s', ok t)
    ]
