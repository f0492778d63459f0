-- ===== src/Catalog/Headers.antt =====
-- What the checks of a task header accept: crates/favetto-core/src/tasks.rs.
use favetto.Common.{
  ◌≡◌, ◌↔◌, true, false, List, [], ◌∷◌, Option, none, some, Text, codes, text_eq, trim, is_empty,
  any, ok, is_some, arith, refl,
}
use favetto.Catalog.Def.{TaskKind, WhenPredicate, needs_value, ActionDef, TaskVar}
use favetto.Catalog.Validate.{
  validate_vars, validate_from, validate_var, all_word, validate_action, validate_when,
}

-- A variable by itself: a name of letters, digits and `_` that is not empty and not `_prev`, and a
-- prompt that is not blank.
abbrev pub IsVar : TaskVar → Type 0
IsVar v =
    (is_empty v.name ≡ false)
    × (text_eq v.name (codes "_prev") ≡ false)
    × (all_word v.name ≡ true)
    × (is_empty (trim v.prompt) ≡ false)

abbrev pub AreVars : List Text → List TaskVar → Type 0
AreVars seen [] = Unit
AreVars seen (v ∷ vs) = IsVar v × (any (text_eq v.name) seen ≡ false) × AreVars (v.name ∷ seen) vs

validate_var-ok :
    (seen : List Text) (v : TaskVar)
    → (validate_var seen v ≡ ok tt) ↔ (IsVar v × (any (text_eq v.name) seen ≡ false))
unfolding validate_var
validate_var-ok seen v = ground arith

validate_from-ok :
    (seen : List Text) (vs : List TaskVar) → (validate_from seen vs ≡ ok tt) ↔ AreVars seen vs
unfolding validate_from
validate_from-ok seen [] = (λ h. tt, λ h. refl)
validate_from-ok seen (v ∷ vs) =
    ground (arith, validate_var-ok seen v, validate_from-ok (v.name ∷ seen) vs)

-- The variables of a header are accepted exactly if each is well formed by itself and no two
-- have the same name.
pub validate_vars-AreVars : (vs : List TaskVar) → (validate_vars vs ≡ ok tt) ↔ AreVars [] vs
unfolding validate_vars
validate_vars-AreVars vs = validate_from-ok [] vs

-- A predicate: a path, and an operand exactly if its operator compares with one.
abbrev pub IsWhen : Option WhenPredicate → Type 0
IsWhen none = Unit
IsWhen (some w) = (is_empty (trim w.path) ≡ false) × (needs_value w.op ≡ is_some w.value)

-- The combinations of `kind`, `agent`, `provider`, `model` and `[action]` that make sense
abbrev pub IsAction : TaskKind → Option Text → Option Text → Option Text → Option ActionDef → Type 0
IsAction TaskKind.agent agent provider model action = action ≡ none
IsAction TaskKind.action agent provider model none = ⊥
IsAction TaskKind.action agent provider model (some a) =
    (agent ≡ none)
    × (provider ≡ none)
    × (model ≡ none)
    × (is_empty (trim a.id) ≡ false)
    × IsWhen a.when

validate_when-ok : (w : Option WhenPredicate) → (validate_when w ≡ ok tt) ↔ IsWhen w
unfolding validate_when
validate_when-ok none = (λ h. tt, λ h. refl)
validate_when-ok (some w) = ground arith

-- The header is accepted exactly if an agent task has no `[action]` table, and an action task has
-- one with an id, names no agent, provider or model, and gives its predicate a path, and an
-- operand exactly if the operator takes one.
pub validate_action-IsAction :
    (kind : TaskKind) (agent provider model : Option Text) (action : Option ActionDef)
    → (validate_action kind agent provider model action ≡ ok tt)
      ↔ IsAction kind agent provider model action
unfolding validate_action
validate_action-IsAction TaskKind.agent agent provider model none = (λ h. refl, λ h. refl)
validate_action-IsAction TaskKind.agent agent provider model (some a) = (λ h. cc, λ h. cc)
validate_action-IsAction TaskKind.action agent provider model none = (λ h. cc, λ h. absurd h)
validate_action-IsAction TaskKind.action agent provider model (some a) =
    ground (arith, validate_when-ok a.when)
