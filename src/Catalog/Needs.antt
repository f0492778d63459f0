-- ===== src/Catalog/Needs.antt =====
-- The reading of a `needs` value: crates/favetto-core/src/tasks.rs.
use favetto.Common.{
  Text, codes, strip_suffix, trim, is_empty, contains_char, any, Bool, not, ◌&&◌, is_some, [], ◌∷◌,
  Option, none, some, Result, ok, ◌>>◌, bail_if,
}

pub data NeedsKind : Type 0 where
  finished succeeded failed all_finished : NeedsKind

-- the five suffixes
unfoldable pub all_finished_suffix : Text
all_finished_suffix = codes ":all_finished"

unfoldable pub finished_suffix : Text
finished_suffix = codes ":finished"

unfoldable pub terminal_suffix : Text
terminal_suffix = codes ":terminal"

unfoldable pub succeeded_suffix : Text
succeeded_suffix = codes ":succeeded"

unfoldable pub failed_suffix : Text
failed_suffix = codes ":failed"

-- `needs_parts`: the source task and the kind, the suffixes tried in this order
unfoldable pub needs_parts : Text → Text × NeedsKind
needs_parts needs = elim (strip_suffix all_finished_suffix needs) [
  | some source ↦ (source, all_finished)
  | none ↦ elim (strip_suffix finished_suffix needs) [
    | some source ↦ (source, finished)
    | none ↦ elim (strip_suffix terminal_suffix needs) [
      | some source ↦ (source, finished)
      | none ↦ elim (strip_suffix succeeded_suffix needs) [
        | some source ↦ (source, succeeded)
        | none ↦ elim (strip_suffix failed_suffix needs) [
          | some source ↦ (source, failed)
          | none ↦ (needs, finished)
        ]
      ]
    ]
  ]
]

pub data NeedsError : Type 0 where
  blank no_source bad_suffix : NeedsError

-- `needs.ends_with(suffix)`
abbrev pub ends_with : Text → Text → Bool
ends_with needs suffix = is_some (strip_suffix suffix needs)

-- `SUFFIXES.iter().any(|suffix| needs.ends_with(suffix))`
unfoldable pub has_suffix : Text → Bool
has_suffix needs = any (ends_with needs) (
    finished_suffix ∷ terminal_suffix ∷ succeeded_suffix ∷ failed_suffix ∷ all_finished_suffix ∷ [])

unfoldable pub validate_needs : Option Text → Result NeedsError Unit
unfolding has_suffix needs_parts
validate_needs none = ok tt
validate_needs (some needs) = do
  bail_if (is_empty (trim needs)) blank
  bail_if (is_empty (needs_parts needs).0) no_source
  bail_if (contains_char b':' needs && not (has_suffix needs)) bad_suffix
