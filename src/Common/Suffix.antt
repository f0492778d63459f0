-- ===== src/Common/Suffix.antt =====
-- `str::strip_suffix` removes exactly a suffix.
use Prim.Native.Nat.{ℕ}
use mathlib.Core.Path.{◌≡◌, ap, ◌∙◌, sym}
use mathlib.Core.Logic.{inl, inr}
use mathlib.Core.Bool.{Bool, true, false}
use mathlib.Core.Option.{none, some}
use mathlib.Core.List.{[], ◌∷◌, ◌++◌, reverse, reverse-append}
use native.Mathlib.Omega.{arith}
use favetto.Common.Tests.{◌==◌, if◌then◌else◌, Bool-cases, Option-cases}
use favetto.Common.Lists.{length, length-append}
use favetto.Common.Texts.{Text, text_eq, text_eq-eq, text_eq_refl, strip_suffix}

pub strip_suffix_sound : (suffix s p : Text) → strip_suffix suffix s ≡ some p → s ≡ p ++ suffix
unfolding strip_suffix
strip_suffix_sound suffix [] p h = ground (arith, text_eq-eq [] suffix)
strip_suffix_sound suffix (c ∷ cs) p h = elim (Option-cases (strip_suffix suffix cs)) [
  | inl e ↦ ground (arith, text_eq-eq (c ∷ cs) suffix)
  | inr (q, e) ↦ ground (arith, text_eq-eq (c ∷ cs) suffix, strip_suffix_sound suffix cs q)
]

strip_suffix_self : (suffix : Text) → strip_suffix suffix suffix ≡ some []
unfolding strip_suffix
strip_suffix_self [] = rw (text_eq_refl [])
strip_suffix_self (c ∷ cs) = rw (text_eq_refl (c ∷ cs))

longer_ne : (c : ℕ) (p suffix : Text) → text_eq (c ∷ (p ++ suffix)) suffix ≡ false
longer_ne c p suffix = elim (Bool-cases (text_eq (c ∷ (p ++ suffix)) suffix)) [
  | inl e ↦
      absurd
        (omega (arith, ap length (text_eq-eq (c ∷ (p ++ suffix)) suffix e), length-append p suffix))
  | inr e ↦ e
]

pub strip_suffix-append : (suffix p : Text) → strip_suffix suffix (p ++ suffix) ≡ some p
unfolding strip_suffix
strip_suffix-append suffix [] = strip_suffix_self suffix
strip_suffix-append suffix (c ∷ p) = rw (longer_ne c p suffix, strip_suffix-append suffix p)

-- two texts that differ at some place before either ends
abbrev pub clash : Text → Text → Bool
clash [] ys = false
clash (x ∷ xs) [] = false
clash (x ∷ xs) (y ∷ ys) = let rest = clash xs ys in if x == y then rest else true

clash-append : (a b s t : Text) → clash a b ≡ true → (a ++ s) ≡ (b ++ t) → ⊥
clash-append [] b s t h e = cc
clash-append (x ∷ xs) [] s t h e = cc
clash-append (x ∷ xs) (y ∷ ys) s t h e = ground (arith, clash-append xs ys s t)

-- A text that ends in `b` does not end in `a`, if the ends of the two differ.
pub strip_suffix-clash :
    (a b s : Text) → clash (reverse b) (reverse a) ≡ true → strip_suffix a (s ++ b) ≡ none
strip_suffix-clash a b s h = elim (Option-cases (strip_suffix a (s ++ b))) [
  | inl e ↦ e
  | inr (p, e) ↦ absurd (
      clash-append (reverse b) (reverse a) (reverse s) (reverse p) h (
        sym (reverse-append s b)
        ∙ ap reverse (strip_suffix_sound a (s ++ b) p e)
        ∙ reverse-append p a))
]
