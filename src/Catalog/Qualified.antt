-- ===== src/Catalog/Qualified.antt =====
-- What qualified names and references mean: crates/favetto-core/src/tasks.rs.
use favetto.Common.{
  ℕ, ◌==◌, ◌≡◌, ◌↔◌, ==_refl, refl, sym, ap, ◌∙◌, arith, false, Bool-cases, inl, inr, [], ◌∷◌, ◌++◌,
  Option, none, some, Option-cases, Text, strip_prefix, contains_char, is_empty,
}
use mathlib.Core.List.{append_assoc}
use favetto.Catalog.Repos.{repo_prefix, split_once, nonempty_parts, split_repo, qualify}

split_once-some :
    (sep : ℕ) (s a b : Text)
    → split_once sep s ≡ some (a, b)
    → (s ≡ a ++ sep ∷ b) × (contains_char sep a ≡ false)
unfolding split_once contains_char
split_once-some sep [] a b h = absurd (ground (arith, h))
split_once-some sep (c ∷ cs) a b h = elim (Bool-cases (c == sep)) [
  | inl e ↦ ground (arith, h, e)
  | inr e ↦ elim (Option-cases (split_once sep cs)) [
    | inl n ↦ absurd (ground (arith, h, e, n))
    | inr ((x, y), n) ↦ ground (arith, h, e, n, split_once-some sep cs x y n)
  ]
]

split_once-append :
    (sep : ℕ) (a b : Text)
    → contains_char sep a ≡ false
    → split_once sep (a ++ sep ∷ b) ≡ some (a, b)
unfolding split_once contains_char
split_once-append sep [] b h = rw (==_refl sep) refl
split_once-append sep (c ∷ a) b h = ground (arith, h, split_once-append sep a b)

strip_prefix-some : (p s r : Text) → strip_prefix p s ≡ some r → s ≡ p ++ r
strip_prefix-some [] s r h = ground (arith, h)
strip_prefix-some (c ∷ p) [] r h = absurd (ground (arith, h))
strip_prefix-some (c ∷ p) (d ∷ s) r h = ground (arith, h, strip_prefix-some p s r)

strip_prefix-append : (p s : Text) → strip_prefix p (p ++ s) ≡ some s
strip_prefix-append [] s = refl
strip_prefix-append (c ∷ p) s = rw (==_refl c) (strip_prefix-append p s)

-- A name is read as one of a repository exactly if it is that repository and a path under it,
-- neither of them empty, and the repository without a slash.
pub split_repo-qualify :
    (name repo rel : Text)
    → (split_repo name ≡ some (repo, rel)) ↔ (
        (name ≡ qualify repo rel)
        × (is_empty repo ≡ false)
        × (is_empty rel ≡ false)
        × (contains_char 47 repo ≡ false))
unfolding split_repo qualify
split_repo-qualify name repo rel = (split, joined)
  where
    parts :
        (o : Option (Text × Text)) (a b : Text)
        → nonempty_parts o ≡ some (a, b)
        → (o ≡ some (a, b)) × (is_empty a ≡ false) × (is_empty b ≡ false)
    parts none a b h = absurd (ground (arith, h))
    parts (some (x, y)) a b h = ground (arith, h)

    split :
        split_repo name ≡ some (repo, rel)
        → (name ≡ qualify repo rel)
          × (is_empty repo ≡ false)
          × (is_empty rel ≡ false)
          × (contains_char 47 repo ≡ false)
    split h = elim (Option-cases (strip_prefix repo_prefix name)) [
      | inl e ↦ absurd (ground (arith, h, e))
      | inr (rest, e) ↦
          let (found, some_repo, some_rel) =
            parts (split_once 47 rest) repo rel (ground (arith, h, e)) in
          let (whole, no_slash) = split_once-some 47 rest repo rel found in
          (
            strip_prefix-some repo_prefix name rest e
                ∙ ap (λ t. repo_prefix ++ t) whole
                ∙ sym (append_assoc repo_prefix repo (47 ∷ rel)),
            some_repo,
            some_rel,
            no_slash,
          )
    ]

    joined :
        (name ≡ qualify repo rel)
          × (is_empty repo ≡ false)
          × (is_empty rel ≡ false)
          × (contains_char 47 repo ≡ false)
        → split_repo name ≡ some (repo, rel)
    joined (e, some_repo, some_rel, no_slash) =
        let stripped : strip_prefix repo_prefix name ≡ some (repo ++ 47 ∷ rel) =
          ap (strip_prefix repo_prefix) (e ∙ append_assoc repo_prefix repo (47 ∷ rel))
          ∙ strip_prefix-append repo_prefix (repo ++ 47 ∷ rel) in
        rw (split_repo, stripped, split_once-append 47 repo rel no_slash, some_repo, some_rel) refl
