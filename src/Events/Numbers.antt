-- ===== src/Events/Numbers.antt =====
-- The numbering of the events, and what a client with a cursor takes from them.
use favetto.Common.{
  ℕ, suc, ◌≤◌, ◌<◌, max, ◌≡◌, ◌⊎◌, inl, inr, refl, ap, ◌∙◌, arith, true, Bool-cases, List, [], ◌∷◌,
  ◌++◌, All, ltb, leb, select_where, insert_by, order_by,
}
use favetto.Model.Task.{Event}

-- ids from `n` on, increasing, and below `m`
abbrev pub Numbered : ℕ → List Event → ℕ → Type 0
Numbered n [] m = n ≤ m
Numbered n (e ∷ es) m = (n ≤ e.id) × Numbered (suc e.id) es m

pub Numbered-le : (n : ℕ) (es : List Event) (m : ℕ) → Numbered n es m → n ≤ m
Numbered-le n [] m h = h
Numbered-le n (e ∷ es) m h = omega (arith, h.0, Numbered-le (suc e.id) es m h.1)

pub Numbered-append :
    (n : ℕ) (xs : List Event) (m : ℕ) (ys : List Event) (k : ℕ)
    → Numbered n xs m
    → Numbered m ys k
    → Numbered n (xs ++ ys) k
Numbered-append n [] m [] k h h' = omega (arith, h, h')
Numbered-append n [] m (y ∷ ys) k h h' = (omega (arith, h, h'.0), h'.1)
Numbered-append n (x ∷ xs) m ys k h h' = (h.0, Numbered-append (suc x.id) xs m ys k h.1 h')

-- the events behind a cursor
abbrev pub newer : ℕ → List Event → List Event
newer c = select_where (λ e. ltb c e.id)

pub newer-append : (c : ℕ) (xs ys : List Event) → newer c (xs ++ ys) ≡ newer c xs ++ newer c ys
newer-append c [] ys = refl
newer-append c (x ∷ xs) ys = ground (arith, newer-append c xs ys)

Numbered_weaken : (k n : ℕ) (es : List Event) (m : ℕ) → k ≤ n → Numbered n es m → Numbered k es m
Numbered_weaken k n [] m le h = omega (arith, le, h)
Numbered_weaken k n (e ∷ es) m le h = (omega (arith, le, h.0), h.1)

pub Numbered-newer :
    (c n : ℕ) (es : List Event) (m : ℕ) → Numbered n es m → Numbered n (newer c es) m
Numbered-newer c n [] m h = h
Numbered-newer c n (e ∷ es) m h = elim (Bool-cases (ltb c e.id)) [
  | inl b ↦ rw b (h.0, Numbered-newer c (suc e.id) es m h.1)
  | inr b ↦ rw b (
      Numbered_weaken n (suc e.id) (newer c es) m (omega (arith, h.0))
        (Numbered-newer c (suc e.id) es m h.1))
]

-- sorting leaves increasing ids as they are
pub order_by-Numbered :
    (n : ℕ) (es : List Event) (m : ℕ) → Numbered n es m → order_by (λ e. e.id) es ≡ es
unfolding order_by insert_by
order_by-Numbered n [] m h = refl
order_by-Numbered n (e ∷ []) m h = refl
order_by-Numbered n (e ∷ f ∷ es) m h =
    let first : leb e.id f.id ≡ true = ground (arith, h.1.0) in
    ap (insert_by (λ x. x.id) e) (order_by-Numbered (suc e.id) (f ∷ es) m h.1)
    ∙ rw (insert_by, first) refl

-- the cursor after the events
abbrev pub top : ℕ → List Event → ℕ
top c [] = c
top c (e ∷ es) = top (max c e.id) es

pub top-le : (c : ℕ) (es : List Event) → c ≤ top c es
top-le c [] = omega arith
top-le c (e ∷ es) = omega (arith, top-le (max c e.id) es)

pub top-All : (c : ℕ) (es : List Event) → All (λ e. e.id ≤ top c es) es
top-All c [] = tt
top-All c (e ∷ es) = (omega (arith, top-le (max c e.id) es), top-All (max c e.id) es)

pub top-Numbered :
    (c n : ℕ) (es : List Event) (m : ℕ) → Numbered n es m → (top c es ≡ c) ⊎ (top c es < m)
top-Numbered c n [] m h = inl refl
top-Numbered c n (e ∷ es) m h =
    ground (arith, top-Numbered (max c e.id) (suc e.id) es m h.1, Numbered-le (suc e.id) es m h.1)

-- what is behind the cursor is no event of the list
pub newer_none : (c : ℕ) (es : List Event) → All (λ e. e.id ≤ c) es → newer c es ≡ []
newer_none c [] h = refl
newer_none c (e ∷ es) h = ground (arith, h.0, newer_none c es h.1)

-- two cursors that no event from `n` on tells apart
pub newer_same :
    (c d n : ℕ) (es : List Event) (m : ℕ)
    → Numbered n es m
    → (d ≡ c) ⊎ ((c ≤ d) × (d < n))
    → newer d es ≡ newer c es
newer_same c d n es m h (inl e) = ap (λ x. newer x es) e
newer_same c d n [] m h (inr l) = refl
newer_same c d n (e ∷ es) m h (inr l) =
    ground (
      arith,
      h.0,
      l.0,
      l.1,
      newer_same c d (suc e.id) es m h.1 (inr (l.0, omega (arith, l.1, h.0))),
    )

pub newer_twice : (c : ℕ) (es : List Event) → newer c (newer c es) ≡ newer c es
newer_twice c [] = refl
newer_twice c (e ∷ es) = elim (Bool-cases (ltb c e.id)) [
  | inl b ↦ rw (b, b) (ap (λ xs. e ∷ xs) (newer_twice c es))
  | inr b ↦ rw b (newer_twice c es)
]

-- a bound on the events behind a cursor, and on the cursor, is one on all events
pub newer-All :
    (c d : ℕ) (es : List Event) → c ≤ d → All (λ e. e.id ≤ d) (newer c es) → All (λ e. e.id ≤ d) es
newer-All c d [] le h = tt
newer-All c d (e ∷ es) le h = elim (Bool-cases (ltb c e.id)) [
  | inl b ↦ let k = rw b at h in (k.0, newer-All c d es le k.1)
  | inr b ↦ (ground (arith, b, le), newer-All c d es le (rw b at h))
]
