-- ===== src/Catalog/Resolved.antt =====
-- What a resolved reference means: crates/favetto-core/src/tasks.rs.
use favetto.Common.{
  ◌≡◌, refl, sym, ap, ◌∙◌, subst, arith, false, Bool-cases, inl, inr, List, [], ◌∷◌, ◌++◌, Option,
  none, some, Option-cases, is_some, if◌then◌else◌, Text, text_eq, strip_suffix, strip_suffix_sound,
  contains_char, bytes, slice_from, slice_from-append,
}
use mathlib.Core.List.{append_assoc, append-nil}
use favetto.Catalog.Needs.{
  NeedsKind, needs_parts, all_finished_suffix, finished_suffix, terminal_suffix, succeeded_suffix,
  failed_suffix,
}
use favetto.Catalog.Repos.{repo_prefix, split_repo, qualify, has_name, resolve_needs}

-- a text with a slash in it is no suffix without one
slash-text_eq :
    (p s suffix : Text) → contains_char 47 suffix ≡ false → text_eq (p ++ 47 ∷ s) suffix ≡ false
unfolding text_eq contains_char
slash-text_eq [] s [] h = refl
slash-text_eq [] s (y ∷ ys) h = ground (arith, h)
slash-text_eq (c ∷ p) s [] h = refl
slash-text_eq (c ∷ p) s (y ∷ ys) h = ground (arith, h, slash-text_eq p s ys)

-- a suffix behind a slash
abbrev behind : Text → Option Text → Option Text
behind p none = none
behind p (some s) = some (p ++ 47 ∷ s)

strip_suffix-slash :
    (suffix p s : Text)
    → contains_char 47 suffix ≡ false
    → strip_suffix suffix (p ++ 47 ∷ s) ≡ behind p (strip_suffix suffix s)
unfolding strip_suffix
strip_suffix-slash suffix [] s h = ground (arith, slash-text_eq [] s suffix h)
strip_suffix-slash suffix (c ∷ p) s h =
    let rest = strip_suffix-slash suffix p s h in
    ground (arith, slash-text_eq (c ∷ p) s suffix h, rest)

-- the choice of `needs_parts`, on what the suffixes leave
abbrev choose_parts :
    Option Text → Option Text → Option Text → Option Text → Option Text → Text → Text × NeedsKind
choose_parts (some s) _ _ _ _ needs = (s, NeedsKind.all_finished)
choose_parts none (some s) _ _ _ needs = (s, NeedsKind.finished)
choose_parts none none (some s) _ _ needs = (s, NeedsKind.finished)
choose_parts none none none (some s) _ needs = (s, NeedsKind.succeeded)
choose_parts none none none none (some s) needs = (s, NeedsKind.failed)
choose_parts none none none none none needs = (needs, NeedsKind.finished)

choose_parts-behind :
    (p : Text) (a b c d e : Option Text) (needs : Text)
    → choose_parts
        (behind p a)
        (behind p b)
        (behind p c)
        (behind p d)
        (behind p e)
        (p ++ 47 ∷ needs)
      ≡ (p ++ 47 ∷ (choose_parts a b c d e needs).0, (choose_parts a b c d e needs).1)
choose_parts-behind p (some s) b c d e needs = refl
choose_parts-behind p none (some s) c d e needs = refl
choose_parts-behind p none none (some s) d e needs = refl
choose_parts-behind p none none none (some s) e needs = refl
choose_parts-behind p none none none none (some s) needs = refl
choose_parts-behind p none none none none none needs = refl

needs_choice : Text → Text × NeedsKind
needs_choice needs =
    choose_parts (strip_suffix all_finished_suffix needs) (strip_suffix finished_suffix needs)
      (strip_suffix terminal_suffix needs) (strip_suffix succeeded_suffix needs)
      (strip_suffix failed_suffix needs) needs

needs_parts-choice : (needs : Text) → needs_parts needs ≡ needs_choice needs
unfolding needs_parts needs_choice
needs_parts-choice needs = elim (Option-cases (strip_suffix all_finished_suffix needs)) [
  | inr (s, a) ↦ rw (needs_parts, a) refl
  | inl a ↦ elim (Option-cases (strip_suffix finished_suffix needs)) [
    | inr (s, b) ↦ rw (needs_parts, a, b) refl
    | inl b ↦ elim (Option-cases (strip_suffix terminal_suffix needs)) [
      | inr (s, c) ↦ rw (needs_parts, a, b, c) refl
      | inl c ↦ elim (Option-cases (strip_suffix succeeded_suffix needs)) [
        | inr (s, d) ↦ rw (needs_parts, a, b, c, d) refl
        | inl d ↦ elim (Option-cases (strip_suffix failed_suffix needs)) [
          | inr (s, e) ↦ rw (needs_parts, a, b, c, d, e) refl
          | inl e ↦ rw (needs_parts, a, b, c, d, e) refl
        ]
      ]
    ]
  ]
]

-- the condition of a dependency does not depend on what stands before a slash
needs_parts-slash :
    (p needs : Text)
    → needs_parts (p ++ 47 ∷ needs) ≡ (p ++ 47 ∷ (needs_parts needs).0, (needs_parts needs).1)
unfolding needs_choice all_finished_suffix finished_suffix terminal_suffix succeeded_suffix
    failed_suffix contains_char
needs_parts-slash p needs =
    needs_parts-choice (p ++ 47 ∷ needs)
    ∙ (λ i.
        choose_parts (strip_suffix-slash all_finished_suffix p needs refl i)
          (strip_suffix-slash finished_suffix p needs refl i)
          (strip_suffix-slash terminal_suffix p needs refl i)
          (strip_suffix-slash succeeded_suffix p needs refl i)
          (strip_suffix-slash failed_suffix p needs refl i) (p ++ 47 ∷ needs))
    ∙ choose_parts-behind p (strip_suffix all_finished_suffix needs)
        (strip_suffix finished_suffix needs) (strip_suffix terminal_suffix needs)
        (strip_suffix succeeded_suffix needs) (strip_suffix failed_suffix needs) needs
    ∙ sym (ap (λ c. (p ++ 47 ∷ c.0, c.1)) (needs_parts-choice needs))

-- a beginning of the value
abbrev Begins : Text → Option Text → Type 0
Begins needs none = Unit
Begins needs (some s) = (t : Text) × (needs ≡ s ++ t)

strip_suffix-Begins : (suffix needs : Text) → Begins needs (strip_suffix suffix needs)
strip_suffix-Begins suffix needs = elim (Option-cases (strip_suffix suffix needs)) [
  | inl e ↦ rw e tt
  | inr (s, e) ↦ rw e (suffix, strip_suffix_sound suffix needs s e)
]

choose_parts-Begins :
    (a b c d e : Option Text) (needs : Text)
    → Begins needs a
    → Begins needs b
    → Begins needs c
    → Begins needs d
    → Begins needs e
    → Begins needs (some (choose_parts a b c d e needs).0)
choose_parts-Begins (some s) b c d e needs h₁ h₂ h₃ h₄ h₅ = h₁
choose_parts-Begins none (some s) c d e needs h₁ h₂ h₃ h₄ h₅ = h₂
choose_parts-Begins none none (some s) d e needs h₁ h₂ h₃ h₄ h₅ = h₃
choose_parts-Begins none none none (some s) e needs h₁ h₂ h₃ h₄ h₅ = h₄
choose_parts-Begins none none none none (some s) needs h₁ h₂ h₃ h₄ h₅ = h₅
choose_parts-Begins none none none none none needs h₁ h₂ h₃ h₄ h₅ = ([], sym (append-nil needs))

needs_parts-Begins : (needs : Text) → Begins needs (some (needs_parts needs).0)
unfolding needs_choice
needs_parts-Begins needs =
    subst (λ c. Begins needs (some c.0)) (sym (needs_parts-choice needs))
      (choose_parts-Begins _ _ _ _ _ needs (strip_suffix-Begins all_finished_suffix needs)
        (strip_suffix-Begins finished_suffix needs) (strip_suffix-Begins terminal_suffix needs)
        (strip_suffix-Begins succeeded_suffix needs) (strip_suffix-Begins failed_suffix needs))

-- a qualified source with what stood behind the source is the value behind the repository
qualify_rest :
    (repo needs : Text)
    → let source = (needs_parts needs).0 in
      qualify repo source ++ slice_from needs (bytes source) ≡ repo_prefix ++ repo ++ 47 ∷ needs
unfolding qualify
qualify_rest repo needs =
    let source = (needs_parts needs).0 in
    let (t, whole) = needs_parts-Begins needs in
    let rest : slice_from needs (bytes source) ≡ t =
      ap (λ n. slice_from n (bytes source)) whole ∙ slice_from-append source t in
    ap (λ x. repo_prefix ++ repo ++ 47 ∷ source ++ x) rest
    ∙ append_assoc (repo_prefix ++ repo) (47 ∷ source) t
    ∙ ap (λ n. repo_prefix ++ repo ++ 47 ∷ n) (sym whole)

needs_parts-qualify :
    (repo needs : Text)
    → let (source, kind) = needs_parts needs in
      needs_parts (qualify repo source ++ slice_from needs (bytes source))
      ≡ (qualify repo source, kind)
unfolding qualify
needs_parts-qualify repo needs =
    ap needs_parts (qualify_rest repo needs) ∙ needs_parts-slash (repo_prefix ++ repo) needs

-- A dependency of a task of a repository is resolved to the task of the same repository, if it
-- names no repository and that one has the task, and else left as it is. The condition under which
-- the dependent starts stays the same.
pub needs_parts-resolve_needs :
    (names : List Text) (repo needs : Text)
    → let (source, kind) = needs_parts needs in
      needs_parts (resolve_needs names repo needs) ≡ (
        if is_some (split_repo source)
            then source
            else if has_name names (qualify repo source)
            then qualify repo source
            else source,
        kind,
      )
unfolding resolve_needs
needs_parts-resolve_needs names repo needs =
    let source = (needs_parts needs).0 in
    elim (Bool-cases (is_some (split_repo source))) [
      | inl e ↦ rw (resolve_needs, e) refl
      | inr e ↦ elim (Bool-cases (has_name names (qualify repo source))) [
        | inr m ↦ rw (resolve_needs, e, m) refl
        | inl m ↦ rw (resolve_needs, e, m) (needs_parts-qualify repo needs)
      ]
    ]
