-- ===== src/Workflow/Counts.antt =====
-- How often a key stands in a list, and how many keys of a list a second list lacks.
use favetto.Common.{
  text_eq_refl, if◌then◌else◌, ℕ, ◌+◌, ◌≡◌, ◌==◌, refl, sym, subst, arith, true, false, not, ◌||◌,
  Bool-cases, inl, inr, List, [], ◌∷◌, ◌++◌, Text, text_eq, text_eq-eq, All, length, count_where,
}
use favetto.Workflow.Spec.{contains}

-- how often the key stands in the list
abbrev pub count : Text → List Text → ℕ
count x = count_where (text_eq x)

-- how many items of the second list the first lacks
abbrev pub lacking : List Text → List Text → ℕ
lacking seen = count_where (λ x. not (contains x seen))

pub text_eq_sym : (a b : Text) → text_eq a b ≡ text_eq b a
unfolding text_eq
text_eq_sym [] [] = refl
text_eq_sym [] (y ∷ ys) = refl
text_eq_sym (x ∷ xs) [] = refl
text_eq_sym (x ∷ xs) (y ∷ ys) = ground (arith, text_eq_sym xs ys)

pub contains-count : (x : Text) (xs : List Text) → contains x xs ≡ not (count x xs == 0)
contains-count x [] = refl
contains-count x (y ∷ ys) = ground (arith, contains-count x ys)

-- A key that is new to the first list takes its own occurrences out of what that lacks.
pub lacking-cons :
    (k : Text) (seen xs : List Text)
    → contains k seen ≡ false
    → lacking (k ∷ seen) xs + count k xs ≡ lacking seen xs
lacking-cons k seen [] h = refl
lacking-cons k seen (x ∷ xs) h = elim (Bool-cases (text_eq x k)) [
  | inl e ↦
      let eq : x ≡ k = text_eq-eq x k e in
      let here : contains x seen ≡ false = subst (λ y. contains y seen ≡ false) (sym eq) h in
      let back : text_eq k x ≡ true = subst (λ b. b ≡ true) (text_eq_sym x k) e in
      ground (arith, e, here, back, lacking-cons k seen xs h)
  | inr e ↦
      let back : text_eq k x ≡ false = subst (λ b. b ≡ false) (text_eq_sym x k) e in
      ground (arith, e, back, lacking-cons k seen xs h)
]

pub lacking_none : (xs : List Text) → lacking [] xs ≡ length xs
lacking_none [] = refl
lacking_none (x ∷ xs) = omega (arith, lacking_none xs)

-- Nothing is lacking exactly if every item is there.
pub lacking_zero :
    (seen xs : List Text) → lacking seen xs ≡ 0 → All (λ x. contains x seen ≡ true) xs
lacking_zero seen [] h = tt
lacking_zero seen (x ∷ xs) h = (ground arith, lacking_zero seen xs (ground arith))

pub All-lacking : (seen xs : List Text) → All (λ x. contains x seen ≡ true) xs → lacking seen xs ≡ 0
All-lacking seen [] h = refl
All-lacking seen (x ∷ xs) h = ground (arith, h.0, All-lacking seen xs h.1)

pub All-contains :
    (P : Text → Type 0) (x : Text) (xs : List Text) → All P xs → contains x xs ≡ true → P x
All-contains P x [] h c = absurd (ground arith)
All-contains P x (y ∷ ys) h c = elim (Bool-cases (text_eq x y)) [
  | inl e ↦ subst P (sym (text_eq-eq x y e)) h.0
  | inr e ↦ All-contains P x ys h.1 (ground arith)
]

pub All-intro :
    (P : Text → Type 0) (xs : List Text) → ((x : Text) → contains x xs ≡ true → P x) → All P xs
All-intro P [] f = tt
All-intro P (x ∷ xs) f =
    (f x (rw (text_eq_refl x) refl), All-intro P xs (λ y h. f y (ground (arith, h))))

pub contains-append :
    (x : Text) (xs ys : List Text) → contains x (xs ++ ys) ≡ (contains x xs || contains x ys)
contains-append x [] ys = refl
contains-append x (y ∷ xs) ys = ground (arith, contains-append x xs ys)

abbrev pub IsDistinct : List Text → Type 0
IsDistinct [] = Unit
IsDistinct (x ∷ xs) = (contains x xs ≡ false) × IsDistinct xs

pub count_distinct :
    (x : Text) (xs : List Text) → IsDistinct xs → count x xs ≡ (if contains x xs then 1 else 0)
count_distinct x [] h = refl
count_distinct x (y ∷ ys) h = elim (Bool-cases (text_eq x y)) [
  | inl e ↦
      let out : contains x ys ≡ false =
        subst (λ z. contains z ys ≡ false) (sym (text_eq-eq x y e)) h.0 in
      ground (arith, e, out, contains-count x ys)
  | inr e ↦ ground (arith, e, count_distinct x ys h.1)
]
