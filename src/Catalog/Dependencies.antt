-- ===== src/Catalog/Dependencies.antt =====
-- `needs_parts` and `validate_needs` of crates/favetto-core/src/tasks.rs.
use favetto.Common.{
  Text, strip_suffix, strip_suffix-append, strip_suffix-clash, strip_suffix_sound, is_empty,
  contains_char, false, ◌++◌, none, some, ok, ◌≡◌, ◌⊎◌, inl, inr, refl, ap, ◌∙◌, subst, arith,
  Option-cases,
}
use favetto.Catalog.Needs.{
  NeedsKind, needs_parts, has_suffix, validate_needs, all_finished_suffix, finished_suffix,
  terminal_suffix, succeeded_suffix, failed_suffix,
}

-- the suffix of each kind, and the second one of `finished`
pub data Suffix : Type 0 where
  finished terminal succeeded failed all_finished : Suffix

unfoldable pub suffix_text : Suffix → Text
suffix_text Suffix.finished = finished_suffix
suffix_text Suffix.terminal = terminal_suffix
suffix_text Suffix.succeeded = succeeded_suffix
suffix_text Suffix.failed = failed_suffix
suffix_text Suffix.all_finished = all_finished_suffix

unfoldable pub suffix_kind : Suffix → NeedsKind
suffix_kind Suffix.finished = NeedsKind.finished
suffix_kind Suffix.terminal = NeedsKind.finished
suffix_kind Suffix.succeeded = NeedsKind.succeeded
suffix_kind Suffix.failed = NeedsKind.failed
suffix_kind Suffix.all_finished = NeedsKind.all_finished

no_suffix_before_finished :
    (s : Text) → (strip_suffix all_finished_suffix (s ++ finished_suffix) ≡ none)
unfolding finished_suffix terminal_suffix succeeded_suffix failed_suffix all_finished_suffix
no_suffix_before_finished s = strip_suffix-clash all_finished_suffix finished_suffix s refl

no_suffix_before_terminal :
    (s : Text)
    → (strip_suffix all_finished_suffix (s ++ terminal_suffix) ≡ none)
      × (strip_suffix finished_suffix (s ++ terminal_suffix) ≡ none)
unfolding finished_suffix terminal_suffix succeeded_suffix failed_suffix all_finished_suffix
no_suffix_before_terminal s = (
  strip_suffix-clash all_finished_suffix terminal_suffix s refl,
  strip_suffix-clash finished_suffix terminal_suffix s refl,
)

no_suffix_before_succeeded :
    (s : Text)
    → (strip_suffix all_finished_suffix (s ++ succeeded_suffix) ≡ none)
      × (strip_suffix finished_suffix (s ++ succeeded_suffix) ≡ none)
      × (strip_suffix terminal_suffix (s ++ succeeded_suffix) ≡ none)
unfolding finished_suffix terminal_suffix succeeded_suffix failed_suffix all_finished_suffix
no_suffix_before_succeeded s = (
  strip_suffix-clash all_finished_suffix succeeded_suffix s refl,
  strip_suffix-clash finished_suffix succeeded_suffix s refl,
  strip_suffix-clash terminal_suffix succeeded_suffix s refl,
)

no_suffix_before_failed :
    (s : Text)
    → (strip_suffix all_finished_suffix (s ++ failed_suffix) ≡ none)
      × (strip_suffix finished_suffix (s ++ failed_suffix) ≡ none)
      × (strip_suffix terminal_suffix (s ++ failed_suffix) ≡ none)
      × (strip_suffix succeeded_suffix (s ++ failed_suffix) ≡ none)
unfolding finished_suffix terminal_suffix succeeded_suffix failed_suffix all_finished_suffix
no_suffix_before_failed s = (
  strip_suffix-clash all_finished_suffix failed_suffix s refl,
  strip_suffix-clash finished_suffix failed_suffix s refl,
  strip_suffix-clash terminal_suffix failed_suffix s refl,
  strip_suffix-clash succeeded_suffix failed_suffix s refl,
)

-- A task name followed by a suffix is read as that task and the kind of the suffix, whatever the
-- name is.
pub needs_parts-suffix :
    (source : Text) (x : Suffix) → needs_parts (source ++ suffix_text x) ≡ (source, suffix_kind x)
unfolding needs_parts suffix_text suffix_kind
needs_parts-suffix source Suffix.all_finished =
    ground (arith, strip_suffix-append all_finished_suffix source)
needs_parts-suffix source Suffix.finished =
    ground (arith, no_suffix_before_finished source, strip_suffix-append finished_suffix source)
needs_parts-suffix source Suffix.terminal =
    ground (arith, no_suffix_before_terminal source, strip_suffix-append terminal_suffix source)
needs_parts-suffix source Suffix.succeeded =
    ground (arith, no_suffix_before_succeeded source, strip_suffix-append succeeded_suffix source)
needs_parts-suffix source Suffix.failed =
    ground (arith, no_suffix_before_failed source, strip_suffix-append failed_suffix source)

-- what the header check lets through
abbrev pub Shape : Text → Type 0
Shape needs =
    ((contains_char b':' needs ≡ false) × (needs_parts needs ≡ (needs, NeedsKind.finished)))
    ⊎ ((source : Text) × (x : Suffix) × (needs ≡ source ++ suffix_text x)
        × (is_empty source ≡ false)
        × (needs_parts needs ≡ (source, suffix_kind x)))

accepted-source :
    (needs : Text) → validate_needs (some needs) ≡ ok tt → is_empty (needs_parts needs).0 ≡ false
unfolding validate_needs
accepted-source needs h = ground arith

with_suffix :
    (needs source : Text) (x : Suffix)
    → strip_suffix (suffix_text x) needs ≡ some source
    → validate_needs (some needs) ≡ ok tt
    → Shape needs
with_suffix needs source x e h =
    let shape : needs ≡ source ++ suffix_text x =
      strip_suffix_sound (suffix_text x) needs source e in
    let parts : needs_parts needs ≡ (source, suffix_kind x) =
      ap needs_parts shape ∙ needs_parts-suffix source x in
    inr (source, x, shape, subst (λ q. is_empty q.0 ≡ false) parts (accepted-source needs h), parts)

-- A `needs` value that the header check accepts is either a bare name without a colon, read as a
-- `finished` dependency on it, or a name that is not empty followed by one of the five suffixes,
-- read as a dependency on that name, of the kind of the suffix.
pub validate_needs-Shape : (needs : Text) → validate_needs (some needs) ≡ ok tt → Shape needs
unfolding validate_needs has_suffix needs_parts suffix_text
validate_needs-Shape needs h = elim (Option-cases (strip_suffix all_finished_suffix needs)) [
  | inr (p, e) ↦ with_suffix needs p Suffix.all_finished e h
  | inl a ↦ elim (Option-cases (strip_suffix finished_suffix needs)) [
    | inr (p, e) ↦ with_suffix needs p Suffix.finished e h
    | inl b ↦ elim (Option-cases (strip_suffix terminal_suffix needs)) [
      | inr (p, e) ↦ with_suffix needs p Suffix.terminal e h
      | inl c ↦ elim (Option-cases (strip_suffix succeeded_suffix needs)) [
        | inr (p, e) ↦ with_suffix needs p Suffix.succeeded e h
        | inl d ↦ elim (Option-cases (strip_suffix failed_suffix needs)) [
          | inr (p, e) ↦ with_suffix needs p Suffix.failed e h
          | inl e ↦ inl (ground arith, ground arith)
        ]
      ]
    ]
  ]
]
