-- ===== src/Executor/Shape.antt =====
-- The shape of a normalized envelope: crates/favetto/src/executor.rs.
use favetto.Common.{
  ◌≡◌, refl, true, false, Text, codes, text_eq, text_eq-eq, text_eq_refl, some, if◌then◌else◌,
  Bool-cases, inl, inr, arith, List, [], ◌∷◌, ◌∙◌, subst, sym, ap,
}
use favetto.Model.Task.{Value, null, string, array, object, nil, Fields, end, field, get_field}
use favetto.Executor.Envelope.{
  set_field, has_field, is_string, is_array, is_envelope_object, default_summary, default_array,
  default_value, default_keys, normalize_envelope, synthesized_envelope,
}

get_field-set_same : (k : Text) (v : Value) (fs : Fields) → get_field k (set_field k v fs) ≡ some v
unfolding get_field set_field
get_field-set_same k v end = rw (text_eq_refl k) refl
get_field-set_same k v (field j w fs) = elim (Bool-cases (text_eq j k)) [
  | inl e ↦ rw e (rw e refl)
  | inr e ↦ rw e (rw e (get_field-set_same k v fs))
]

get_field-set_other :
    (j k : Text) (v : Value) (fs : Fields)
    → text_eq k j ≡ false
    → get_field j (set_field k v fs) ≡ get_field j fs
unfolding get_field set_field
get_field-set_other j k v end h = rw h refl
get_field-set_other j k v (field i w fs) h = elim (Bool-cases (text_eq i k)) [
  | inl e ↦
      let other : text_eq i j ≡ false =
        subst (λ x. text_eq x j ≡ false) (sym (text_eq-eq i k e)) h in
      rw e (rw other refl)
  | inr e ↦ rw e (ap (λ x. if text_eq i j then some w else x) (get_field-set_other j k v fs h))
]

default_array-other :
    (j k : Text) (fs : Fields)
    → text_eq k j ≡ false
    → get_field j (default_array k fs) ≡ get_field j fs
default_array-other j k fs h = ground (arith, get_field-set_other j k (array nil) fs h)

default_value-other :
    (j k : Text) (v : Value) (fs : Fields)
    → text_eq k j ≡ false
    → get_field j (default_value k v fs) ≡ get_field j fs
default_value-other j k v fs h = ground (arith, get_field-set_other j k v fs h)

default_array-lem : (k : Text) (fs : Fields) → is_array (get_field k (default_array k fs)) ≡ true
default_array-lem k fs = ground (arith, get_field-set_same k (array nil) fs)

default_value-lem : (k : Text) (v : Value) (fs : Fields) → has_field k (default_value k v fs) ≡ true
default_value-lem k v fs = ground (arith, get_field-set_same k v fs)

default_summary-lem : (fs : Fields) → is_envelope_object (default_summary fs) ≡ true
default_summary-lem fs = ground (arith, get_field-set_same (codes "summary") (string []) fs)

abbrev envelope_keys : List Text
envelope_keys =
    codes "summary"
    ∷ codes "artifacts"
    ∷ codes "findings"
    ∷ codes "outputs"
    ∷ codes "continuation"
    ∷ []

-- an object with a text `summary`, arrays `artifacts` and `findings`, and the keys `outputs` and
-- `continuation`
abbrev pub IsEnvelope : Fields → Type 0
IsEnvelope fs =
    (is_string (get_field (codes "summary") fs) ≡ true)
    × (is_array (get_field (codes "artifacts") fs) ≡ true)
    × (is_array (get_field (codes "findings") fs) ≡ true)
    × (has_field (codes "outputs") fs ≡ true)
    × (has_field (codes "continuation") fs ≡ true)

synthesized-IsEnvelope :
    (raw : Text) → (fs : Fields) × ((synthesized_envelope raw ≡ object fs) × IsEnvelope fs)
unfolding synthesized_envelope get_field text_eq
synthesized-IsEnvelope raw = (_, (refl, (refl, refl, refl, refl, refl)))

default_summary-other :
    (j : Text) (fs : Fields)
    → text_eq (codes "summary") j ≡ false
    → get_field j (default_summary fs) ≡ get_field j fs
default_summary-other j fs h =
    ground (arith, get_field-set_other j (codes "summary") (string []) fs h)

-- What a key held before the later steps, it holds after them.
module _ (fs : Fields) where
  abbrev s₁ : Fields
  s₁ = default_summary fs

  abbrev s₂ : Fields
  s₂ = default_array (codes "artifacts") s₁

  abbrev s₃ : Fields
  s₃ = default_array (codes "findings") s₂

  abbrev s₄ : Fields
  s₄ = default_value (codes "outputs") (object end) s₃

  after_findings :
      (j : Text)
      → text_eq (codes "outputs") j ≡ false
      → text_eq (codes "continuation") j ≡ false
      → get_field j (default_keys fs) ≡ get_field j s₃
  after_findings j a b =
      default_value-other j (codes "continuation") null s₄ b
      ∙ default_value-other j (codes "outputs") (object end) s₃ a

  default_keys-IsEnvelope : IsEnvelope (default_keys fs)
  unfolding text_eq
  default_keys-IsEnvelope = (
    rw
        (
          after_findings (codes "summary") refl refl,
          default_array-other (codes "summary") (codes "findings") s₂ refl,
          default_array-other (codes "summary") (codes "artifacts") s₁ refl,
        )
        (default_summary-lem fs),
    rw
        (
          after_findings (codes "artifacts") refl refl,
          default_array-other (codes "artifacts") (codes "findings") s₂ refl,
        )
        (default_array-lem (codes "artifacts") s₁),
    rw (after_findings (codes "findings") refl refl) (default_array-lem (codes "findings") s₂),
    rw (default_value-other (codes "outputs") (codes "continuation") null s₄ refl)
        (default_value-lem (codes "outputs") (object end) s₃),
    default_value-lem (codes "continuation") null s₄,
  )

normalized-IsEnvelope :
    (v : Value) → (fs : Fields) × ((normalize_envelope v ≡ object fs) × IsEnvelope fs)
unfolding normalize_envelope
normalized-IsEnvelope (object fs) = (default_keys fs, (refl, default_keys-IsEnvelope fs))
normalized-IsEnvelope _ = synthesized-IsEnvelope []

-- an envelope needs no default
default_keys-same : (fs : Fields) → IsEnvelope fs → default_keys fs ≡ fs
default_keys-same fs (summary, artifacts, findings, outputs, continuation) =
    rw summary (rw artifacts (rw findings (rw outputs (rw continuation refl))))

normalize-again :
    (v : Value) (fs : Fields)
    → normalize_envelope v ≡ object fs
    → IsEnvelope fs
    → normalize_envelope (normalize_envelope v) ≡ normalize_envelope v
unfolding normalize_envelope
normalize-again v fs e h =
    subst (λ x. normalize_envelope x ≡ x) (sym e) (ap object (default_keys-same fs h))

-- Whatever an agent gives as its envelope, the normalized one is an object whose `summary` is a
-- string and whose `artifacts` and `findings` are arrays, and it has the keys `outputs` and
-- `continuation`, with whatever values. To normalize it again changes nothing.
pub normalize_envelope-IsEnvelope :
    (v : Value)
    → ((fs : Fields) × ((normalize_envelope v ≡ object fs) × IsEnvelope fs))
      × (normalize_envelope (normalize_envelope v) ≡ normalize_envelope v)
normalize_envelope-IsEnvelope v =
    let (fs, (e, h)) = normalized-IsEnvelope v in ((fs, (e, h)), normalize-again v fs e h)
