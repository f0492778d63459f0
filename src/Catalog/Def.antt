-- ===== src/Catalog/Def.antt =====
-- A task definition: crates/favetto-core/src/tasks.rs, crates/favetto-wire/src/task_var.rs. The
-- TOML values of an `[action]` table are kept as JSON values.
use favetto.Common.{Text, codes, Bool, true, false, List, Option}
use favetto.Model.Task.{Value}

pub data TaskKind : Type 0 where
  agent action : TaskKind

-- `TaskKind::as_str`
unfoldable pub kind_as_str : TaskKind → Text
kind_as_str TaskKind.agent = codes "agent"
kind_as_str TaskKind.action = codes "action"

pub data WhenOp : Type 0 where
  not_empty empty eq ne gt lt contains : WhenOp

-- `WhenOp::as_str`
unfoldable pub op_as_str : WhenOp → Text
op_as_str WhenOp.not_empty = codes "not_empty"
op_as_str WhenOp.empty = codes "empty"
op_as_str WhenOp.eq = codes "eq"
op_as_str WhenOp.ne = codes "ne"
op_as_str WhenOp.gt = codes "gt"
op_as_str WhenOp.lt = codes "lt"
op_as_str WhenOp.contains = codes "contains"

-- `WhenOp::needs_value`
unfoldable pub needs_value : WhenOp → Bool
needs_value WhenOp.not_empty = false
needs_value WhenOp.empty = false
needs_value _ = true

pub record WhenPredicate : Type 0 where
  pub path : Text
  pub op : WhenOp
  pub value : Option Value

pub record ActionDef : Type 0 where
  pub id : Text
  pub params : Value
  pub when : Option WhenPredicate
  pub spawn_input : Option Value

pub data VarType : Type 0 where
  string int bool : VarType

pub record TaskVar : Type 0 where
  pub name : Text
  pub prompt : Text
  pub default : Option Text
  pub required : Bool
  pub multiline : Bool
  pub var_type : VarType
  pub choices : Option (List Text)

pub data GitSigning : Type 0 where
  off gpg ssh : GitSigning

pub record TaskDef : Type 0 where
  pub name : Text
  pub kind : TaskKind
  pub action : Option ActionDef
  pub agent : Option Text
  pub provider : Option Text
  pub model : Option Text
  pub cwd : Option Text
  pub schedule : Option Text
  pub needs : Option Text
  pub spawn : Option Text
  pub spawn_file : Option Text
  pub spawn_new_root : Bool
  pub sign : Option GitSigning
  pub worktree : Option Bool
  pub vars : List TaskVar
  pub prompt : Text
