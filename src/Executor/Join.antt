-- ===== src/Executor/Join.antt =====
-- The fan-in of `:all_finished` dependencies: crates/favetto/src/executor.rs.
use favetto.Common.{
  ℕ, ◌*◌, ◌/◌, max, Bool, true, false, ◌&&◌, Text, codes, text_eq, decimal, List, [], ◌∷◌, ◌++◌,
  length, Option, none, some, select_where, count_where, is_empty, if◌then◌else◌,
}
use favetto.Model.Status.{TaskStatus, task_status_as_str}
use favetto.Model.Task.{
  Uuid, Value, null, bool, number, string, array, object, Items, nil, cons, end, field, Task,
}
use favetto.Store.Schema.{status_eq}
use favetto.Store.Tasks.{get_task, list_tasks_in_root, list_active_tasks_in_root}
use favetto.Catalog.Def.{TaskDef}
use favetto.Catalog.Needs.{NeedsKind, needs_parts}
use favetto.Executor.State.{External, State}
use favetto.Executor.Enqueue.{Request, enqueue_with_lineage}
use favetto.Executor.Envelope.{bounded_prev_value}

abbrev pub prev_tasks_bytes : ℕ
prev_tasks_bytes = 64 * 1024

abbrev pub min_prev_output_bytes : ℕ
min_prev_output_bytes = 512

-- `Option<String>` as a JSON value
abbrev pub string_or_null : Option Text → Value
string_or_null (some s) = string s
string_or_null none = null

abbrev pub succeeded : TaskStatus → Bool
succeeded s = status_eq s TaskStatus.succeeded

-- one entry of `_prev.tasks`
unfoldable pub join_entry : External → ℕ → Task → Value
join_entry ext per_task t = object (
    field (codes "task_id") (string (ext.uuid_text t.id)) (
      field (codes "name") (string t.name) (
        field (codes "status") (string (task_status_as_str t.status)) (
          field (codes "success") (bool (succeeded t.status)) (
            field (codes "session_id") (string_or_null t.session_id) (
              field (codes "input") (bounded_prev_value ext (some t.input) per_task)
                (field (codes "output") (bounded_prev_value ext t.output per_task) end)))))))

unfoldable pub join_entries : External → ℕ → List Task → Items
unfolding join_entry
join_entries ext per_task [] = nil
join_entries ext per_task (t ∷ ts) = cons (join_entry ext per_task t) (join_entries ext per_task ts)

-- how many of the tasks ended with a status
abbrev pub count_status : TaskStatus → List Task → ℕ
count_status s tasks = count_where (λ t. status_eq t.status s) tasks

abbrev pub number_of : ℕ → Value
number_of n = number (decimal n)

-- the name of the root task
abbrev pub root_name : Uuid → State → Value
root_name root s = elim (get_task root s.db) [ some t ↦ string t.name | none ↦ null ]

unfoldable pub join_context : External → Uuid → Text → List Task → State → Value
unfolding join_entries
join_context ext root target tasks s =
    let per_task = max (prev_tasks_bytes / max (length tasks) 1) min_prev_output_bytes in
    let root_value = object (
      field (codes "task_id") (string (ext.uuid_text root))
        (field (codes "name") (root_name root s) end)) in
    object (
      field (codes "_prev")
        (object (
          field (codes "kind") (string (codes "all_finished")) (
            field (codes "root") root_value (
              field (codes "target") (string target) (
                field (codes "count") (number_of (length tasks)) (
                  field (codes "succeeded") (number_of (count_status TaskStatus.succeeded tasks)) (
                    field (codes "failed") (number_of (count_status TaskStatus.failed tasks)) (
                      field (codes "cancelled")
                        (number_of (count_status TaskStatus.cancelled tasks))
                        (field (codes "tasks") (array (join_entries ext per_task tasks))
                          end)))))))))
        end)

-- `format!("join:{dep}:{root_id}")`
unfoldable pub join_key : External → Text → Uuid → Text
join_key ext dep root = codes "join:" ++ dep ++ codes ":" ++ ext.uuid_text root

-- what a fan-in enqueues
unfoldable pub join_request : External → Text → Text → Uuid → Option Uuid → State → Request
unfolding join_context join_key
join_request ext dep target root parent_id s = record {
  name = dep;
  input = join_context ext root target (list_tasks_in_root root target s.db) s;
  dedupe_key = some (join_key ext dep root);
  lineage = record { parent_id = parent_id; root_id = some root };
  interactive = false;
}

unfoldable pub maybe_start_join : External → Text → Text → Uuid → Option Uuid → State → State
unfolding join_request
maybe_start_join ext dep target root parent_id s =
    if is_empty (list_active_tasks_in_root root target s.db)
    then (enqueue_with_lineage ext (join_request ext dep target root parent_id s) s).0
    else s

abbrev pub is_all_finished : NeedsKind → Bool
is_all_finished NeedsKind.all_finished = true
is_all_finished _ = false

-- the definitions that wait for every task of this name
unfoldable pub joins_on : Text → TaskDef → Bool
joins_on target def = elim def.needs [
  | none ↦ false
  | some needs ↦
      let (source, kind) = needs_parts needs in text_eq source target && is_all_finished kind
]

abbrev pub start_joins : External → List TaskDef → Text → Uuid → Option Uuid → State → State
start_joins ext [] target root parent_id s = s
start_joins ext (def ∷ defs) target root parent_id s =
    start_joins ext defs target root parent_id
      (maybe_start_join ext def.name target root parent_id s)

unfoldable pub evaluate_join_barriers : External → Text → Uuid → Option Uuid → State → State
unfolding joins_on maybe_start_join
evaluate_join_barriers ext target root parent_id s =
    start_joins ext (select_where (joins_on target) s.catalog) target root parent_id s
