-- ===== src/Executor/Envelope.antt =====
-- The result envelope and the bounded copy of an output for a successor:
-- crates/favetto/src/executor.rs. The order of the keys of a JSON object is not modelled.
use mathlib.Core.List.{reverse}
use favetto.Common.{
  bytes, ℕ, ◌/◌, max, ◌==◌, ltb, leb, if◌then◌else◌, Bool, true, false, ◌||◌, Text, codes, text_eq,
  trim, is_empty, List, [], ◌∷◌, Option, none, some, find?, not, is_some,
}
use favetto.Model.Task.{
  Value, null, bool, string, array, object, nil, Fields, end, field, get_field,
}
use favetto.Executor.State.{External}
use favetto.Executor.Truncate.{truncate_text, tail_truncate}

-- `Map::insert`
unfoldable pub set_field : Text → Value → Fields → Fields
set_field k v end = field k v end
set_field k v (field j w fs) =
    let rest = set_field k v fs in if text_eq j k then field j v fs else field j w rest

-- `Map::remove`
unfoldable pub remove_field : Text → Fields → Fields
remove_field k end = end
remove_field k (field j w fs) =
    let rest = remove_field k fs in if text_eq j k then rest else field j w rest

abbrev pub has_field : Text → Fields → Bool
has_field k fs = is_some (get_field k fs)

-- `Option::is_some_and` with `Value::is_string`, `Value::is_array`
abbrev pub is_string : Option Value → Bool
is_string (some (string s)) = true
is_string _ = false

abbrev pub is_array : Option Value → Bool
is_array (some (array vs)) = true
is_array _ = false

abbrev pub is_envelope_object : Fields → Bool
is_envelope_object fs = is_string (get_field (codes "summary") fs)

-- `str::lines`, with the current line in reverse
unfoldable pub lines_from : Text → Text → List Text
lines_from [] [] = []
lines_from (c ∷ cur) [] = reverse (c ∷ cur) ∷ []
lines_from cur (c ∷ cs) =
    let next = lines_from [] cs in
    let longer = lines_from (c ∷ cur) cs in
    if c == 10
    then elim cur [
      | [] ↦ [] ∷ next
      | x ∷ xs ↦ (if x == 13 then reverse xs else reverse (x ∷ xs)) ∷ next
    ]
    else longer

abbrev pub envelope_summary_bytes : ℕ
envelope_summary_bytes = 512

abbrev pub min_envelope_field_bytes : ℕ
min_envelope_field_bytes = 256

-- the last line that is not blank
unfoldable pub synthesized_summary : Text → Text
unfolding lines_from
synthesized_summary raw =
    elim (find? (λ l. not (is_empty (trim l))) (reverse (lines_from [] raw))) [
      | some l ↦ tail_truncate (trim l) envelope_summary_bytes
      | none ↦ tail_truncate [] envelope_summary_bytes
    ]

unfoldable pub synthesized_envelope : Text → Value
unfolding synthesized_summary
synthesized_envelope raw = object (
    field (codes "summary") (string (synthesized_summary raw)) (
      field (codes "artifacts") (array nil) (
        field (codes "findings") (array nil)
          (field (codes "outputs") (object end) (field (codes "continuation") null end)))))

-- The envelope in an agent's result. `parse_json` stands for `serde_json::from_str`.
unfoldable pub envelope_from_text : (Text → Option Value) → Option Value → Option Value
envelope_from_text parse_json (some (string text)) = elim (parse_json (trim text)) [
  | some (object fs) ↦ if is_envelope_object fs then some (object fs) else none
  | _ ↦ none
]
envelope_from_text parse_json _ = none

unfoldable pub envelope_from_result : (Text → Option Value) → Value → Option Value
unfolding envelope_from_text
envelope_from_result parse_json (object fs) = elim (get_field (codes "envelope") fs) [
  | some (object env) ↦ some (object env)
  | _ ↦
      if is_envelope_object fs
      then some (object fs)
      else envelope_from_text parse_json (get_field (codes "text") fs)
]
envelope_from_result parse_json _ = none

-- the steps of `normalize_envelope`
abbrev pub default_summary : Fields → Fields
default_summary fs =
    if is_envelope_object fs then fs else set_field (codes "summary") (string []) fs

abbrev pub default_array : Text → Fields → Fields
default_array key fs = if is_array (get_field key fs) then fs else set_field key (array nil) fs

abbrev pub default_value : Text → Value → Fields → Fields
default_value key v fs = if has_field key fs then fs else set_field key v fs

abbrev pub default_keys : Fields → Fields
default_keys fs = default_value (codes "continuation") null (
    default_value (codes "outputs") (object end)
      (default_array (codes "findings") (default_array (codes "artifacts") (default_summary fs))))

unfoldable pub normalize_envelope : Value → Value
unfolding set_field synthesized_envelope
normalize_envelope (object fs) = object (default_keys fs)
normalize_envelope _ = synthesized_envelope []

-- a key of an envelope whose text is longer than its share becomes a capped string
abbrev pub bound_field : External → ℕ → Text → Fields → Fields
bound_field ext per_field key fs = elim (get_field key fs) [
  | none ↦ fs
  | some v ↦
      let text = ext.print_json v in
      if ltb per_field (bytes text)
      then set_field key (string (truncate_text text per_field).0) fs
      else fs
]

abbrev pub bound_summary : Fields → Fields
bound_summary fs = elim (get_field (codes "summary") fs) [
  | some (string s) ↦
      set_field (codes "summary") (string (tail_truncate s envelope_summary_bytes)) fs
  | _ ↦ fs
]

unfoldable pub bound_envelope : External → Fields → ℕ → Fields
unfolding set_field
bound_envelope ext env budget =
    let per_field = max (budget / 3) min_envelope_field_bytes in
    bound_field ext per_field (codes "outputs") (
      bound_field ext per_field (codes "findings")
        (bound_field ext per_field (codes "artifacts") (bound_summary env)))

-- the three changes that `bounded_prev_value` makes to an object, each with whether it was made
abbrev pub cap_output : ℕ → Fields → Fields × Bool
cap_output cap fs = elim (get_field (codes "output") fs) [
  | some (string text) ↦ (set_field (codes "output") (string (truncate_text text cap).0) fs, true)
  | _ ↦ (fs, false)
]

abbrev pub drop_result : Fields → Fields × Bool
drop_result fs = (remove_field (codes "result") fs, has_field (codes "result") fs)

abbrev pub cap_envelope : External → ℕ → Fields → Fields × Bool
cap_envelope ext cap fs = elim (get_field (codes "envelope") fs) [
  | some (object env) ↦
      (set_field (codes "envelope") (object (bound_envelope ext env cap)) fs, true)
  | _ ↦ (fs, false)
]

abbrev pub cap_object : External → ℕ → Fields → Fields × Bool
cap_object ext cap fs =
    let (f₁, a) = cap_output cap fs in
    let (f₂, b) = drop_result f₁ in let (f₃, c) = cap_envelope ext cap f₂ in (f₃, a || b || c)

unfoldable pub bounded_prev_value : External → Option Value → ℕ → Value
unfolding bound_envelope remove_field
bounded_prev_value ext none cap = null
bounded_prev_value ext (some v) cap =
    let text = ext.print_json v in
    let capped = string (truncate_text text cap).0 in
    if leb (bytes text) cap then v else elim v [
      | object fs ↦
          let (fs', changed) = cap_object ext cap fs in
          if changed then object (set_field (codes "truncated") (bool true) fs') else capped
      | _ ↦ capped
    ]
