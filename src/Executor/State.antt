-- ===== src/Executor/State.antt =====
-- The daemon's shared state, `State` of crates/favetto/src/state.rs, and its one path for events.
-- The database calls succeed; the clock stands still while one operation runs.
use favetto.Common.{ℕ, ◌+◌, Text, List, [], ◌∷◌, ◌++◌, none, some}
use favetto.Model.EventKind.{EventKind}
use favetto.Model.Task.{Uuid, Time, Value, Task, Event, Payload, summary}
use favetto.Store.Schema.{Db}
use favetto.Store.Tasks.{insert_event}
use favetto.Catalog.Def.{TaskDef}
use favetto.Retry.{RetrySettings}

-- What the code takes from other crates: `Uuid::new_v4` (the n-th id drawn), the text of a UUID,
-- and the compact text of a JSON value.
pub record External : Type 0 where
  pub new_v4 : ℕ → Uuid
  pub uuid_text : Uuid → Text
  pub print_json : Value → Text

-- the variants of `ServerPush` that the executor publishes
pub data Push : Type 0 where
  event : Event → Push
  task_updated : Task → Push

-- what happens at startup to tasks that a previous daemon left active
pub data StaleRunPolicy : Type 0 where
  fail retry : StaleRunPolicy

pub record State : Type 0 where
  pub db : Db
  pub bus : List Push  -- everything published, oldest first
  pub tasks_total : ℕ
  pub events_total : ℕ
  pub closed : List Uuid  -- the calls of `agents.close_by_task`
  pub drawn : ℕ  -- how many ids `new_v4` has given
  pub now : Time
  pub catalog : List TaskDef
  pub stale_run : StaleRunPolicy
  pub retry_settings : RetrySettings

abbrev pub no_payload : Payload
no_payload = record {
  name = none;
  task_id = none;
  success = none;
  status = none;
  attempt = none;
  retryable = none;
  summary = none;
  session_id = none;
  reason = none;
}

-- the payloads `{ "task_id": .. }` and `{ "name": .., "task_id": .. }`
abbrev pub id_payload : Uuid → Payload
id_payload id = record no_payload { task_id = some id }

abbrev pub task_payload : Text → Uuid → Payload
task_payload name id = record no_payload { name = some name; task_id = some id }

-- `bus.publish`
unfoldable pub publish : Push → State → State
publish p s = record s { bus = s.bus ++ p ∷ [] }

-- `bus.publish(ServerPush::TaskUpdated(Box::new(task.summary())))`
unfoldable pub publish_task : Task → State → State
unfolding publish
publish_task t = publish (Push.task_updated (summary t))

-- a state whose database a statement has changed
abbrev pub with_db : Db → State → State
with_db d s = record s { db = d }

-- `State::emit_event`: the event is stored before it is pushed, and pushed under the stored id.
unfoldable pub emit_event : EventKind → Payload → State → State
unfolding publish
emit_event kind payload s =
    let (d, id) = insert_event kind payload s.now s.db in
    let e : Event = record { id = id; kind = kind; payload = payload; created_at = s.now } in
    publish (Push.event e) (record s { db = d; events_total = s.events_total + 1 })
