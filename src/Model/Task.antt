-- ===== src/Model/Task.antt =====
-- A task row, a run of it, an event and the JSON values they carry:
-- crates/favetto-wire/src/model.rs and crates/favetto-wire/src/agent_state.rs.
use favetto.Common.{
  ℕ, Text, text_eq, ◌==◌, if◌then◌else◌, Bool, ◌&&◌, not, is_some, Option, none, some,
}
use favetto.Model.Status.{TaskStatus, RunStatus, Failure}
use favetto.Model.EventKind.{EventKind}
use favetto.Model.Prompt.{AwaitingInputReason}

-- an integer with its sign: `negsuc n` is `- (n + 1)`
pub data ℤ : Type 0 where
  pos negsuc : ℕ → ℤ

abbrev pub Uuid : Type 0
Uuid = ℕ

-- `DateTime<Utc>`, in milliseconds since the epoch (`ts_ms`)
abbrev pub Time : Type 0
Time = ℕ

-- The JSON values that the source matches on (`serde_json::Value`). A number is kept as its text.
mutual
  pub data Value : Type 0 where
    null : Value
    bool : Bool → Value
    number : Text → Value
    string : Text → Value
    array : Items → Value
    object : Fields → Value

  pub data Items : Type 0 where
    nil : Items
    cons : Value → Items → Items

  pub data Fields : Type 0 where
    end : Fields
    field : Text → Value → Fields → Fields

-- `Map::get`
unfoldable pub get_field : Text → Fields → Option Value
get_field k end = none
get_field k (field j v fs) = let rest = get_field k fs in if text_eq j k then some v else rest

-- `Value::get` with a key: `None` for anything but an object
unfoldable pub get : Text → Value → Option Value
unfolding get_field
get k (object fs) = get_field k fs
get k _ = none

pub record AgentUsage : Type 0 where
  pub input_tokens : ℕ
  pub output_tokens : ℕ
  pub reasoning_tokens : ℕ
  pub cache_read_tokens : ℕ
  pub cache_write_tokens : ℕ
  pub cost_usd : Option ℕ

-- `AgentUsage::is_empty`
unfoldable pub usage_is_empty : AgentUsage → Bool
usage_is_empty u =
    u.input_tokens == 0
    && u.output_tokens == 0
    && u.reasoning_tokens == 0
    && u.cache_read_tokens == 0
    && u.cache_write_tokens == 0
    && not (is_some u.cost_usd)

pub record Task : Type 0 where
  pub id : Uuid
  pub name : Text
  pub status : TaskStatus
  pub attempt : ℕ  -- u32
  pub input : Value
  pub output : Option Value
  pub dedupe_key : Option Text
  pub created_at : Time
  pub started_at : Option Time
  pub finished_at : Option Time
  pub error : Option Text
  pub failure : Option Failure
  pub session_id : Option Text
  pub session_title : Option Text
  pub parent_id : Option Uuid
  pub root_id : Option Uuid
  pub interactive : Bool

-- `Task::summary`
unfoldable pub summary : Task → Task
summary t = record t { output = none }

-- `Task::root_or_self`
unfoldable pub root_or_self : Task → Uuid
root_or_self t = elim t.root_id [ some r ↦ r | none ↦ t.id ]

pub record TaskRun : Type 0 where
  pub id : Uuid
  pub task_id : Uuid
  pub attempt : ℕ  -- u32
  pub status : RunStatus
  pub agent : Option Text
  pub model : Option Text
  pub session_id : Option Text
  pub started_at : Option Time
  pub finished_at : Option Time
  pub exit_code : Option ℤ  -- i32
  pub error : Option Text
  pub usage : Option AgentUsage
  pub failure : Option Failure

-- The payload of a task event, a JSON object: `none` is a key that the object lacks.
pub record Payload : Type 0 where
  pub name : Option Text
  pub task_id : Option Uuid
  pub success : Option Bool
  pub status : Option TaskStatus
  pub attempt : Option ℕ
  pub retryable : Option Bool
  pub summary : Option Text
  pub session_id : Option Text
  pub reason : Option AwaitingInputReason

pub record Event : Type 0 where
  pub id : ℕ  -- i64
  pub kind : EventKind
  pub payload : Payload
  pub created_at : Time
