-- ===== src/Model/Agent.antt =====
-- What an agent reports about its session: crates/favetto-wire/src/agent_state.rs.
use favetto.Common.{Bool, Option, Text}
use favetto.Model.Task.{AgentUsage, Value}
use favetto.Model.Prompt.{InputRequest}

pub data MessageRole : Type 0 where
  system user assistant tool : MessageRole

pub data IdleOutcome : Type 0 where
  succeeded failed interrupted : IdleOutcome

pub data AgentStateEvent : Type 0 where
  session : (session_id title model : Option Text) → AgentStateEvent
  turn_started : AgentStateEvent
  text_delta : MessageRole → Text → AgentStateEvent
  reasoning_delta : Text → AgentStateEvent
  tool_started : (id name : Text) → Value → AgentStateEvent
  tool_updated : (id : Text) → Value → AgentStateEvent
  tool_finished : (id name : Text) → (is_ok : Bool) → (output : Option Value) → AgentStateEvent
  input_requested : InputRequest → AgentStateEvent
  input_resolved : (id : Text) → AgentStateEvent
  usage : AgentUsage → AgentStateEvent
  title : Text → AgentStateEvent
  idle : IdleOutcome → AgentStateEvent
  error : Text → AgentStateEvent
