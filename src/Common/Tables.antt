-- ===== src/Common/Tables.antt =====
-- A table is the list of its rows, in the order of insertion. The SQL statements of
-- crates/favetto/src/db.rs are built from these: UPDATE and DELETE with a WHERE clause, the count
-- of the rows a statement affects, SELECT, ORDER BY a number, and LIMIT.
use Prim.Native.Nat.{ℕ, zero, suc, ◌+◌, ◌≤◌, ◌<◌}
use mathlib.Core.Path.{◌≡◌, refl}
use mathlib.Core.Bool.{Bool, true, false, ◌&&◌}
use mathlib.Core.List.{List, [], ◌∷◌, ◌++◌}
use mathlib.Core.Logic.{inl, inr}
use native.Mathlib.Omega.{arith}
use favetto.Common.Tests.{leb, if◌then◌else◌, Bool-cases}
use favetto.Common.Lists.{All, length, take, All-mono, All-take}

module _ {ℓ} {A : Type ℓ} where
  abbrev pub update_where : (A → Bool) → (A → A) → List A → List A
  update_where p f [] = []
  update_where p f (x ∷ xs) = (if p x then f x else x) ∷ update_where p f xs

  -- `rows_affected`, and COUNT
  abbrev pub count_where : (A → Bool) → List A → ℕ
  count_where p [] = 0
  count_where p (x ∷ xs) = (if p x then 1 else 0) + count_where p xs

  abbrev pub select_where : (A → Bool) → List A → List A
  select_where p [] = []
  select_where p (x ∷ xs) = let rest = select_where p xs in if p x then x ∷ rest else rest

  abbrev pub delete_where : (A → Bool) → List A → List A
  delete_where p [] = []
  delete_where p (x ∷ xs) = let rest = delete_where p xs in if p x then rest else x ∷ rest

  unfoldable pub insert_by : (A → ℕ) → A → List A → List A
  insert_by key x [] = x ∷ []
  insert_by key x (y ∷ ys) =
      let rest = insert_by key x ys in if leb (key x) (key y) then x ∷ y ∷ ys else y ∷ rest

  -- ORDER BY key ASC, ties in the order of insertion
  unfoldable pub order_by : (A → ℕ) → List A → List A
  unfolding insert_by
  order_by key [] = []
  order_by key (x ∷ xs) = insert_by key x (order_by key xs)

  pub All-update_where {κ μ} :
      (P : A → Type κ) (Q : A → Type μ) (p : A → Bool) (f : A → A) (xs : List A)
      → ((x : A) → P x → Q (if p x then f x else x))
      → All P xs
      → All Q (update_where p f xs)
  All-update_where P Q p f [] step h = tt
  All-update_where P Q p f (x ∷ xs) step h = (step x h.0, All-update_where P Q p f xs step h.1)

  pub All-delete_where {κ} :
      (P : A → Type κ) (p : A → Bool) (xs : List A) → All P xs → All P (delete_where p xs)
  All-delete_where P p [] h = tt
  All-delete_where P p (x ∷ xs) h = ground (arith, All-delete_where P p xs h.1)

  -- A selected row satisfies the test, and whatever all rows satisfy.
  pub All-select_where {κ} :
      (P : A → Type κ) (p : A → Bool) (xs : List A)
      → All P xs
      → All (λ x. (p x ≡ true) × P x) (select_where p xs)
  All-select_where P p [] h = tt
  All-select_where P p (x ∷ xs) h = ground (arith, All-select_where P p xs h.1)

  pub All-insert_by {κ} :
      (P : A → Type κ) (key : A → ℕ) (x : A) (xs : List A)
      → P x
      → All P xs
      → All P (insert_by key x xs)
  unfolding insert_by
  All-insert_by P key x [] h k = (h, tt)
  All-insert_by P key x (y ∷ ys) h k = ground (arith, All-insert_by P key x ys h k.1)

  pub All-order_by {κ} :
      (P : A → Type κ) (key : A → ℕ) (xs : List A) → All P xs → All P (order_by key xs)
  unfolding order_by
  All-order_by P key [] h = tt
  All-order_by P key (x ∷ xs) h =
      All-insert_by P key x (order_by key xs) h.0 (All-order_by P key xs h.1)

  length-insert_by :
      (key : A → ℕ) (x : A) (xs : List A) → length (insert_by key x xs) ≡ suc (length xs)
  unfolding insert_by
  length-insert_by key x [] = refl
  length-insert_by key x (y ∷ ys) = ground (arith, length-insert_by key x ys)

  pub length-order_by : (key : A → ℕ) (xs : List A) → length (order_by key xs) ≡ length xs
  unfolding order_by
  length-order_by key [] = refl
  length-order_by key (x ∷ xs) =
      omega (arith, length-insert_by key x (order_by key xs), length-order_by key xs)

  pub count_where-update_where :
      (q p : A → Bool) (f : A → A) (xs : List A)
      → ((x : A) → p x ≡ true → q (f x) ≡ q x)
      → count_where q (update_where p f xs) ≡ count_where q xs
  count_where-update_where q p f [] h = refl
  count_where-update_where q p f (x ∷ xs) h =
      ground (arith, h x, count_where-update_where q p f xs h)

  pub count_where_zero :
      (p : A → Bool) (xs : List A) → All (λ x. p x ≡ false) xs → count_where p xs ≡ 0
  count_where_zero p [] h = refl
  count_where_zero p (x ∷ xs) h = ground (arith, count_where_zero p xs h.1)

  -- A statement whose WHERE clause no row meets changes nothing.
  pub update_where_none :
      (p : A → Bool) (f : A → A) (xs : List A) → count_where p xs ≡ 0 → update_where p f xs ≡ xs
  update_where_none p f [] h = refl
  update_where_none p f (x ∷ xs) h = ground (arith, update_where_none p f xs)

  -- A DELETE makes no more rows meet a clause.
  pub count_where-delete_le :
      (q p : A → Bool) (xs : List A) → count_where q (delete_where p xs) ≤ count_where q xs
  count_where-delete_le q p [] = omega arith
  count_where-delete_le q p (x ∷ xs) = ground (arith, count_where-delete_le q p xs)

  -- What a SELECT returns has the rows that COUNT counts.
  pub length-select_where :
      (p : A → Bool) (xs : List A) → length (select_where p xs) ≡ count_where p xs
  length-select_where p [] = refl
  length-select_where p (x ∷ xs) = ground (arith, length-select_where p xs)

  -- After an UPDATE whose new rows fail the WHERE clause no row meets it.
  pub count_where-update_zero :
      (p : A → Bool) (f : A → A) (xs : List A)
      → ((x : A) → p x ≡ true → p (f x) ≡ false)
      → count_where p (update_where p f xs) ≡ 0
  count_where-update_zero p f [] h = refl
  count_where-update_zero p f (x ∷ xs) h = ground (arith, h x, count_where-update_zero p f xs h)

  -- If some row is counted, what every counted row entails holds.
  pub count_where_pos {κ} :
      (Q : Type κ) (p : A → Bool) (xs : List A)
      → 0 < count_where p xs
      → All (λ x. p x ≡ true → Q) xs
      → Q
  count_where_pos Q p [] h k = absurd (omega arith)
  count_where_pos Q p (x ∷ xs) h k = elim (Bool-cases (p x)) [
    | inl e ↦ k.0 e
    | inr e ↦ count_where_pos Q p xs (ground arith) k.1
  ]

  pub count_where_mono :
      (p q : A → Bool) (xs : List A)
      → ((x : A) → p x ≡ true → q x ≡ true)
      → count_where p xs ≤ count_where q xs
  count_where_mono p q [] h = omega arith
  count_where_mono p q (x ∷ xs) h = ground (arith, h x, count_where_mono p q xs h)

  -- Where the narrower clause counts as many rows as the wider, it holds of all those.
  pub count_where_same :
      (p q : A → Bool) (xs : List A)
      → ((x : A) → p x ≡ true → q x ≡ true)
      → count_where q xs ≤ count_where p xs
      → All (λ x. q x ≡ true → p x ≡ true) xs
  count_where_same p q [] h le = tt
  count_where_same p q (x ∷ xs) h le = (
    ground (arith, h x, count_where_mono p q xs h),
    count_where_same p q xs h (ground (arith, h x)),
  )

  -- No row is counted exactly if each fails the clause.
  pub count_where_none :
      (p : A → Bool) (xs : List A) → count_where p xs ≡ 0 → All (λ x. p x ≡ false) xs
  count_where_none p [] h = tt
  count_where_none p (x ∷ xs) h = (ground arith, count_where_none p xs (ground arith))

  pub count_where-append :
      (p : A → Bool) (xs ys : List A)
      → count_where p (xs ++ ys) ≡ count_where p xs + count_where p ys
  count_where-append p [] ys = omega arith
  count_where-append p (x ∷ xs) ys = omega (arith, count_where-append p xs ys)

  -- in the order of the key
  abbrev pub IsSorted : (A → ℕ) → List A → Type 0
  IsSorted key [] = Unit
  IsSorted key (x ∷ xs) = All (λ y. key x ≤ key y) xs × IsSorted key xs

  insert_by-IsSorted :
      (key : A → ℕ) (x : A) (xs : List A) → IsSorted key xs → IsSorted key (insert_by key x xs)
  unfolding insert_by
  insert_by-IsSorted key x [] h = (tt, tt)
  insert_by-IsSorted key x (y ∷ ys) h = elim (Bool-cases (leb (key x) (key y))) [
    | inl e ↦ rw e (
      (
        ground arith,
        All-mono (λ z. key y ≤ key z) (λ z. key x ≤ key z) ys (λ z k. ground arith) h.0,
      ),
      h,
    )
    | inr e ↦ rw e (
      All-insert_by (λ z. key y ≤ key z) key x ys (ground arith) h.0,
      insert_by-IsSorted key x ys h.1,
    )
  ]

  pub order_by-IsSorted : (key : A → ℕ) (xs : List A) → IsSorted key (order_by key xs)
  unfolding order_by
  order_by-IsSorted key [] = tt
  order_by-IsSorted key (x ∷ xs) =
      insert_by-IsSorted key x (order_by key xs) (order_by-IsSorted key xs)

  pub IsSorted-take :
      (key : A → ℕ) (n : ℕ) (xs : List A) → IsSorted key xs → IsSorted key (take n xs)
  IsSorted-take key zero xs h = tt
  IsSorted-take key (suc n) [] h = tt
  IsSorted-take key (suc n) (x ∷ xs) h =
      (All-take (λ y. key x ≤ key y) n xs h.0, IsSorted-take key n xs h.1)

  pub count_where-update_none :
      (p q : A → Bool) (f : A → A) (xs : List A)
      → ((x : A) → p (if q x then f x else x) ≡ false)
      → count_where p (update_where q f xs) ≡ 0
  count_where-update_none p q f [] h = refl
  count_where-update_none p q f (x ∷ xs) h =
      rw (h x) (omega (arith, count_where-update_none p q f xs h))

  -- An UPDATE whose new rows meet a clause only if the old ones did makes no more rows meet it.
  pub count_where-update_le :
      (q p : A → Bool) (f : A → A) (xs : List A)
      → ((x : A) → p x ≡ true → q (f x) ≡ true → q x ≡ true)
      → count_where q (update_where p f xs) ≤ count_where q xs
  count_where-update_le q p f [] h = omega arith
  count_where-update_le q p f (x ∷ xs) h = ground (arith, h x, count_where-update_le q p f xs h)

  -- An UPDATE whose new rows fail a clause takes away the rows that met both.
  pub count_where-update_minus :
      (p q : A → Bool) (f : A → A) (xs : List A)
      → ((x : A) → q x ≡ true → p (f x) ≡ false)
      → count_where p (update_where q f xs) + count_where (λ x. q x && p x) xs ≡ count_where p xs
  count_where-update_minus p q f [] h = omega arith
  count_where-update_minus p q f (x ∷ xs) h =
      ground (arith, h x, count_where-update_minus p q f xs h)
