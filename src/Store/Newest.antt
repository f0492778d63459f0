-- ===== src/Store/Newest.antt =====
-- The newest rows of a table: the SELECT that `prune` of crates/favetto/src/db.rs keeps.
use mathlib.Core.List.{reverse, reverse_aux}
use favetto.Common.{
  ℕ, zero, suc, ◌+◌, ◌≤◌, ◌≡◌, refl, arith, Bool, true, List, [], ◌∷◌, All, All-mono, All-of,
  All-both, take, leb, count_where, order_by, insert_by, IsSorted, order_by-IsSorted,
}
use favetto.Store.Schema.{TaskRow}
use favetto.Store.Prune.{has_id, newest}

module _ {A : Type 0} where
  count_where-reverse_aux :
      (p : A → Bool) (xs acc : List A)
      → count_where p (reverse_aux xs acc) ≡ count_where p xs + count_where p acc
  count_where-reverse_aux p [] acc = omega arith
  count_where-reverse_aux p (x ∷ xs) acc = ground (arith, count_where-reverse_aux p xs (x ∷ acc))

  All-reverse_aux :
      (P : A → Type 0) (xs acc : List A) → All P (reverse_aux xs acc) → All P xs × All P acc
  All-reverse_aux P [] acc h = (tt, h)
  All-reverse_aux P (x ∷ xs) acc h =
      let (rest, x_acc) = All-reverse_aux P xs (x ∷ acc) h in ((x_acc.0, rest), x_acc.1)

  count_where-insert_by :
      (p : A → Bool) (key : A → ℕ) (x : A) (xs : List A)
      → count_where p (insert_by key x xs) ≡ count_where p (x ∷ xs)
  unfolding insert_by
  count_where-insert_by p key x [] = refl
  count_where-insert_by p key x (y ∷ ys) = ground (arith, count_where-insert_by p key x ys)

  count_where-order_by :
      (p : A → Bool) (key : A → ℕ) (xs : List A)
      → count_where p (order_by key xs) ≡ count_where p xs
  unfolding order_by
  count_where-order_by p key [] = refl
  count_where-order_by p key (x ∷ xs) =
      ground (arith, count_where-insert_by p key x (order_by key xs), count_where-order_by p key xs)

  All-insert_by_back :
      (P : A → Type 0) (key : A → ℕ) (x : A) (xs : List A)
      → All P (insert_by key x xs)
      → P x × All P xs
  unfolding insert_by
  All-insert_by_back P key x [] h = h
  All-insert_by_back P key x (y ∷ ys) h = ground (arith, h, All-insert_by_back P key x ys)

  All-order_by_back :
      (P : A → Type 0) (key : A → ℕ) (xs : List A) → All P (order_by key xs) → All P xs
  unfolding order_by
  All-order_by_back P key [] h = tt
  All-order_by_back P key (x ∷ xs) h =
      let (first, rest) = All-insert_by_back P key x (order_by key xs) h in
      (first, All-order_by_back P key xs rest)

-- rows that are as new as `r` or newer, itself included
abbrev pub as_new : TaskRow → List TaskRow → ℕ
as_new r rows = count_where (λ x. leb r.created_at x.created_at) rows

-- latest first
abbrev Descending : List TaskRow → Type 0
Descending [] = Unit
Descending (x ∷ xs) = All (λ y. y.created_at ≤ x.created_at) xs × Descending xs

-- Of a list, latest first, the rows with at most `n` as new as they are stand in the first `n`.
take-as_new :
    (n : ℕ) (rows : List TaskRow)
    → Descending rows
    → All (λ r. as_new r rows ≤ n → has_id r.id (take n rows) ≡ true) rows
take-as_new n [] h = tt
take-as_new zero (x ∷ rows) h =
    (λ le. ground (arith, le), All-mono _ _ rows (λ r k le. ground (arith, k, le)) h.0)
take-as_new (suc n) (x ∷ rows) h = (
  λ le. ground arith,
  All-mono _ _ rows (λ r k le. ground (arith, k, le))
      (All-both _ _ rows h.0 (take-as_new n rows h.1)),
)

reversed-Descending :
    (xs acc : List TaskRow)
    → IsSorted (λ r. r.created_at) xs
    → All (λ x. All (λ y. y.created_at ≤ x.created_at) acc) xs
    → Descending acc
    → Descending (reverse_aux xs acc)
reversed-Descending [] acc sorted above h = h
reversed-Descending (x ∷ xs) acc sorted above h =
    reversed-Descending xs (x ∷ acc) sorted.1 (All-both _ _ xs sorted.0 above.1) (above.0, h)

-- A row with at most `n` rows as new as it is has its id among the newest `n`.
pub newest-as_new :
    (n : ℕ) (rows : List TaskRow)
    → All (λ r. as_new r rows ≤ n → has_id r.id (newest n rows) ≡ true) rows
unfolding newest
newest-as_new n rows =
    let sorted : List TaskRow = order_by (λ r. r.created_at) rows in
    let latest_first : Descending (reverse sorted) =
      reversed-Descending sorted [] (order_by-IsSorted (λ r. r.created_at) rows)
        (All-of _ sorted (λ x. tt)) tt in
    All-order_by_back _ (λ r. r.created_at) rows
      (All-reverse_aux (λ r. as_new r rows ≤ n → has_id r.id (take n (reverse sorted)) ≡ true)
        sorted []
        (All-mono _ _ (reverse sorted)
          (λ r h le. h (
            omega (
              arith,
              le,
              count_where-reverse_aux (λ (x : TaskRow). leb r.created_at x.created_at) sorted [],
              count_where-order_by (λ (x : TaskRow). leb r.created_at x.created_at)
                  (λ x. x.created_at) rows,
            )))
          (take-as_new n (reverse sorted) latest_first))).0
