-- ===== src/Model/Prompt.antt =====
-- A prompt that an agent waits on: crates/favetto-wire/src/model.rs and
-- crates/favetto-wire/src/agent_state.rs.
use favetto.Common.{Bool, List, Option, Text}

pub data AwaitingInputKind : Type 0 where
  permission confirmation choice pinentry other : AwaitingInputKind

pub record AwaitingInputReason : Type 0 where
  pub kind : AwaitingInputKind
  pub message : Text
  pub request_id : Option Text
  pub options : List Text
  pub allow_always : Bool

pub record InputRequest : Type 0 where
  pub id : Text
  pub kind : AwaitingInputKind
  pub message : Text
  pub options : List Text
  pub allow_always : Bool
