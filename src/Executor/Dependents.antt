-- ===== src/Executor/Dependents.antt =====
-- What a finished task starts: crates/favetto/src/executor.rs.
use favetto.Common.{
  ℕ, suc, ◌*◌, Bool, true, false, ◌&&◌, Text, codes, text_eq, decimal, List, [], ◌∷◌, ◌++◌, Option,
  none, some, select_where, if◌then◌else◌,
}
use favetto.Model.Status.{task_status_as_str}
use favetto.Model.Task.{
  Uuid, Value, null, string, array, object, Items, nil, cons, end, field, Task, root_or_self, Event,
}
use favetto.Store.Tasks.{get_task}
use favetto.Catalog.Def.{TaskDef}
use favetto.Catalog.Needs.{NeedsKind, needs_parts}
use favetto.Executor.State.{External, State}
use favetto.Executor.Enqueue.{Lineage, no_lineage, child_of, Request, enqueue_with_lineage}
use favetto.Executor.Envelope.{bounded_prev_value}
use favetto.Executor.Join.{string_or_null, joins_on, start_joins}

abbrev pub prev_output_bytes : ℕ
prev_output_bytes = 48 * 1024

-- the outcome that a kind of dependency starts on; `success` is the field of the event
unfoldable pub starts_on : NeedsKind → Option Bool → Bool
starts_on NeedsKind.finished success = true
starts_on NeedsKind.succeeded (some true) = true
starts_on NeedsKind.failed (some false) = true
starts_on _ _ = false

-- the definitions that `start_dependents` puts in `finished`
unfoldable pub is_dependent : Text → Option Bool → TaskDef → Bool
unfolding starts_on
is_dependent name success def = elim def.needs [
  | none ↦ false
  | some needs ↦
      let (source, kind) = needs_parts needs in text_eq source name && starts_on kind success
]

-- `input._prev` of a dependent
unfoldable pub prev_input : External → Option Task → Value
prev_input ext none = object end
prev_input ext (some prev) = object (
    field (codes "_prev")
      (object (
        field (codes "name") (string prev.name) (
          field (codes "task_id") (string (ext.uuid_text prev.id)) (
            field (codes "status") (string (task_status_as_str prev.status)) (
              field (codes "output") (bounded_prev_value ext prev.output prev_output_bytes)
                (field (codes "session_id") (string_or_null prev.session_id) end))))))
      end)

-- `format!("needs:{}:{}", dep, ev.id)`
unfoldable pub needs_key : Text → ℕ → Text
needs_key dep event_id = codes "needs:" ++ dep ++ codes ":" ++ decimal event_id

abbrev pub prev_lineage : Option Task → Lineage
prev_lineage (some prev) = child_of prev
prev_lineage none = no_lineage

unfoldable pub dependent_request : External → Option Task → ℕ → TaskDef → Request
unfolding prev_input needs_key
dependent_request ext prev event_id def = record {
  name = def.name;
  input = prev_input ext prev;
  dedupe_key = some (needs_key def.name event_id);
  lineage = prev_lineage prev;
  interactive = false;
}

abbrev pub enqueue_each : External → List Request → State → State
enqueue_each ext [] s = s
enqueue_each ext (r ∷ rs) s = enqueue_each ext rs (enqueue_with_lineage ext r s).0

abbrev pub dependent_requests : External → Option Task → ℕ → List TaskDef → List Request
dependent_requests ext prev event_id [] = []
dependent_requests ext prev event_id (def ∷ defs) =
    dependent_request ext prev event_id def ∷ dependent_requests ext prev event_id defs

-- the row that `payload.task_id` names
abbrev pub find_prev : Option Uuid → State → Option Task
find_prev none s = none
find_prev (some id) s = get_task id s.db

-- the dependents of an event for the task `name`, whose row is `prev`
abbrev pub start_finished : External → Event → Text → Option Task → State → State
start_finished ext ev name prev s =
    enqueue_each ext
      (dependent_requests ext prev ev.id
        (select_where (is_dependent name ev.payload.success) s.catalog))
      s

-- and its fan-ins, for which the row has to be there
unfoldable pub start_named : External → Event → Text → Option Task → State → State
unfolding is_dependent dependent_request
start_named ext ev name none s = start_finished ext ev name none s
start_named ext ev name (some p) s =
    start_joins ext (select_where (joins_on name) s.catalog) name (root_or_self p) (some p.id)
      (start_finished ext ev name (some p) s)

unfoldable pub start_dependents : External → Event → State → State
unfolding start_named
start_dependents ext ev s = elim ev.payload.name [
  | none ↦ s
  | some name ↦ start_named ext ev name (find_prev ev.payload.task_id s) s
]

-- `format!("spawn:{}:{i}", task.id)`
unfoldable pub spawn_key : External → Uuid → ℕ → Text
spawn_key ext id i = codes "spawn:" ++ ext.uuid_text id ++ codes ":" ++ decimal i

-- one request for each element of the manifest, numbered from `i`
unfoldable pub spawn_requests : External → Uuid → Text → Lineage → ℕ → Items → List Request
unfolding spawn_key
spawn_requests ext id spawn_task lineage i nil = []
spawn_requests ext id spawn_task lineage i (cons item items) =
    record {
      name = spawn_task;
      input = item;
      dedupe_key = some (spawn_key ext id i);
      lineage = lineage;
      interactive = false;
    }
    ∷ spawn_requests ext id spawn_task lineage (suc i) items

-- the elements of a manifest
unfoldable pub manifest_items : Value → Items
manifest_items (array items) = items
manifest_items null = nil
manifest_items other = cons other nil

abbrev pub spawn_lineage : TaskDef → Task → Lineage
spawn_lineage def t = if def.spawn_new_root then no_lineage else child_of t

-- `spawn_from_manifest`. The manifest is the JSON value of the spawn file, `none` if the file
-- cannot be read or is no JSON. Each early return leaves the state as it is.
unfoldable pub spawn_from_manifest : External → Task → TaskDef → Option Value → State → State
unfolding spawn_requests manifest_items
spawn_from_manifest ext t def manifest s = elim def.spawn [
  | none ↦ s
  | some spawn_task ↦ elim def.spawn_file [
    | none ↦ s
    | some file ↦ elim manifest [
      | none ↦ s
      | some value ↦
          enqueue_each ext
            (spawn_requests ext t.id spawn_task (spawn_lineage def t) 0 (manifest_items value)) s
    ]
  ]
]
