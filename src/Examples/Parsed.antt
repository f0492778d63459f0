-- ===== src/Examples/Parsed.antt =====
-- The checks of a header at concrete headers.
use favetto.Common.{
  strip_suffix, text_eq, trim, trim_start, trim_end, is_whitespace, contains_char, ◌≡◌, ◌↔◌, refl,
  codes, ok, some, none, [], ◌∷◌, true, false,
}
use favetto.Model.Task.{null}
use favetto.Catalog.Def.{TaskKind, ActionDef, TaskVar, VarType}
use favetto.Catalog.Needs.{
  needs_parts, has_suffix, validate_needs, finished_suffix, terminal_suffix, succeeded_suffix,
  failed_suffix, all_finished_suffix,
}
use favetto.Catalog.Validate.{validate_vars, validate_action}
use favetto.Catalog.Dependencies.{Shape, validate_needs-Shape}
use favetto.Catalog.Headers.{AreVars, IsAction, validate_vars-AreVars, validate_action-IsAction}

validate_needs-Shape_example : Shape (codes "ci:build:failed")
unfolding validate_needs needs_parts has_suffix strip_suffix text_eq trim trim_start trim_end
    is_whitespace contains_char finished_suffix terminal_suffix succeeded_suffix failed_suffix
    all_finished_suffix
validate_needs-Shape_example = validate_needs-Shape (codes "ci:build:failed") refl

abbrev branch_var : TaskVar
branch_var = record {
  name = codes "branch";
  prompt = codes "Branch?";
  default = none;
  required = true;
  multiline = false;
  var_type = VarType.string;
  choices = none;
}

validate_vars-AreVars_example :
    (validate_vars (branch_var ∷ branch_var ∷ []) ≡ ok tt)
    ↔ AreVars [] (branch_var ∷ branch_var ∷ [])
validate_vars-AreVars_example = validate_vars-AreVars (branch_var ∷ branch_var ∷ [])

abbrev poll : ActionDef
poll = record { id = codes "github.poll"; params = null; when = none; spawn_input = none }

validate_action-IsAction_example :
    (validate_action TaskKind.action none none none (some poll) ≡ ok tt)
    ↔ IsAction TaskKind.action none none none (some poll)
validate_action-IsAction_example =
    validate_action-IsAction TaskKind.action none none none (some poll)
