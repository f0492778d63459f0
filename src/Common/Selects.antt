-- ===== src/Common/Selects.antt =====
-- What a SELECT with an ORDER BY lists.
use Prim.Native.Nat.{ℕ}
use mathlib.Core.Path.{◌≡◌, refl, ap, ◌∙◌, subst}
use mathlib.Core.Logic.{inl, inr}
use mathlib.Core.Bool.{Bool, true, ◌||◌}
use mathlib.Core.List.{List, [], ◌∷◌}
use native.Mathlib.Omega.{arith}
use favetto.Common.Tests.{Bool-cases}
use favetto.Common.Lists.{All, All-mono, any}
use favetto.Common.Tables.{select_where, insert_by, order_by}

-- every element that `p` selects is named by `same` among the listed ones
module _ {ℓ} {A : Type ℓ} (p : A → Bool) (same : A → A → Bool)
    (same_refl : (x : A) → same x x ≡ true) where
  abbrev pub Listed : List A → A → Type 0
  Listed l x = p x ≡ true → any (same x) l ≡ true

  Listed-cons : (y : A) (l : List A) (x : A) → Listed l x → Listed (y ∷ l) x
  Listed-cons y l x h e = ground (arith, h e)

  pub select_where-Listed : (xs : List A) → All (Listed (select_where p xs)) xs
  select_where-Listed [] = tt
  select_where-Listed (x ∷ xs) = elim (Bool-cases (p x)) [
    | inl e ↦
        let l : List A = select_where p xs in
        let listed : All (Listed (x ∷ l)) (x ∷ xs) = (
          (λ k. rw (same_refl x) refl),
          All-mono (Listed l) (Listed (x ∷ l)) xs (Listed-cons x l) (select_where-Listed xs),
        ) in
        let found : x ∷ l ≡ select_where p (x ∷ xs) = rw e refl in
        subst (λ l'. All (Listed l') (x ∷ xs)) found listed
    | inr e ↦
        let l : List A = select_where p xs in
        let listed : All (Listed l) (x ∷ xs) = ((λ k. ground arith), select_where-Listed xs) in
        let found : l ≡ select_where p (x ∷ xs) = rw e refl in
        subst (λ l'. All (Listed l') (x ∷ xs)) found listed
  ]

any-insert_by :
    {A : Type 0} (q : A → Bool) (key : A → ℕ) (x : A) (xs : List A)
    → any q (insert_by key x xs) ≡ (q x || any q xs)
unfolding insert_by
any-insert_by q key x [] = refl
any-insert_by q key x (y ∷ ys) = ground (arith, any-insert_by q key x ys)

pub any-order_by :
    {A : Type 0} (q : A → Bool) (key : A → ℕ) (xs : List A) → any q (order_by key xs) ≡ any q xs
unfolding order_by
any-order_by q key [] = refl
any-order_by q key (x ∷ xs) =
    any-insert_by q key x (order_by key xs) ∙ ap (λ b. q x || b) (any-order_by q key xs)
