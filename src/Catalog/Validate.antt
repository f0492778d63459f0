-- ===== src/Catalog/Validate.antt =====
-- The checks of a task header: crates/favetto-core/src/tasks.rs.
use favetto.Common.{
  ℕ, Text, codes, text_eq, trim, is_empty, any, leb, ◌==◌, Bool, true, not, ◌&&◌, ◌||◌, is_some,
  List, [], ◌∷◌, Option, none, some, Result, ok, err, ◌>>◌, bail_if,
}
use favetto.Catalog.Def.{TaskKind, WhenPredicate, needs_value, ActionDef, TaskVar}

pub data VarsError : Type 0 where
  empty_name reserved_name invalid_name duplicate_name empty_prompt : VarsError

-- `c.is_ascii_alphanumeric() || c == '_'`
unfoldable pub is_word : ℕ → Bool
is_word c =
    (leb b'0' c && leb c b'9')
    || (leb b'A' c && leb c b'Z')
    || (leb b'a' c && leb c b'z')
    || c == b'_'

abbrev pub all_word : Text → Bool
all_word [] = true
all_word (c ∷ cs) = is_word c && all_word cs

-- the body of the loop, with the names seen so far
unfoldable pub validate_var : List Text → TaskVar → Result VarsError Unit
validate_var seen v = do
  bail_if (is_empty v.name) empty_name
  bail_if (text_eq v.name (codes "_prev")) reserved_name
  bail_if (not (all_word v.name)) invalid_name
  bail_if (any (text_eq v.name) seen) duplicate_name
  bail_if (is_empty (trim v.prompt)) empty_prompt

unfoldable pub validate_from : List Text → List TaskVar → Result VarsError Unit
validate_from seen [] = ok tt
validate_from seen (v ∷ vs) = do validate_var seen v; validate_from (v.name ∷ seen) vs

unfoldable pub validate_vars : List TaskVar → Result VarsError Unit
unfolding validate_from
validate_vars vars = validate_from [] vars

pub data ActionError : Type 0 where
  action_on_agent no_action agent_on_action empty_id empty_path needs_operand takes_no_operand :
      ActionError

-- the checks of `[action.when]`
unfoldable pub validate_when : Option WhenPredicate → Result ActionError Unit
unfolding needs_value
validate_when none = ok tt
validate_when (some when) = do
  bail_if (is_empty (trim when.path)) empty_path
  bail_if (needs_value when.op && not (is_some when.value)) needs_operand
  bail_if (not (needs_value when.op) && is_some when.value) takes_no_operand

-- the arguments are `kind`, `agent`, `provider`, `model` and `action`
unfoldable pub validate_action :
    TaskKind → Option Text → Option Text → Option Text → Option ActionDef → Result ActionError Unit
unfolding validate_when
validate_action TaskKind.agent agent provider model action =
    bail_if (is_some action) action_on_agent
validate_action TaskKind.action agent provider model none = err no_action
validate_action TaskKind.action agent provider model (some action) = do
  bail_if (is_some agent || is_some provider || is_some model) agent_on_action
  bail_if (is_empty (trim action.id)) empty_id
  validate_when action.when
