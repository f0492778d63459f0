-- ===== src/Executor/Bounds.antt =====
-- What the byte caps of the executor guarantee: crates/favetto/src/executor.rs.
use favetto.Common.{
  Bool, checked_to, checked_from, none, sym, some, len_utf8, bytes, is_char_boundary, slice_to,
  slice_from, bytes-append, boundary_start, boundary_end, slices, ℕ, zero, suc, ◌+◌, ◌-◌, ◌*◌, ◌/◌,
  ◌≤◌, ◌<◌, min, ◌==◌, leb, true, false, ◌||◌, Text, [], ◌∷◌, ◌++◌, ◌≡◌, ◌⊎◌, inl, inr, refl, subst,
  ap, ◌∙◌, arith, Bool-cases,
}
use favetto.Executor.Truncate.{
  floor_from, floor_char_boundary, ceil_from, ceil_char_boundary, head_end, tail_start, marker,
  truncate_text, truncate_or_panic, ellipsis, tail_truncate, tail_or_panic, tail_offset,
}

floor-boundary :
    (s : Text) (i : ℕ) → (floor_from s i ≤ i) × (is_char_boundary s (floor_from s i) ≡ true)
unfolding floor_from
floor-boundary s zero = (omega arith, boundary_start s)
floor-boundary s (suc i) = ground (arith, floor-boundary s i)

ceil-boundary :
    (s : Text) (n i : ℕ)
    → i + n ≡ bytes s
    → (i ≤ ceil_from s n i)
      × (ceil_from s n i ≤ bytes s)
      × (is_char_boundary s (ceil_from s n i) ≡ true)
unfolding ceil_from
ceil-boundary s zero i h =
    let e : bytes s ≡ i = omega arith in
    (omega arith, omega arith, subst (λ k. is_char_boundary s k ≡ true) e (boundary_end s))
ceil-boundary s (suc n) i h = ground (arith, ceil-boundary s n (suc i))

floor_char_boundary-lem :
    (s : Text) (i : ℕ)
    → (floor_char_boundary s i ≤ i)
      × (floor_char_boundary s i ≤ bytes s)
      × (is_char_boundary s (floor_char_boundary s i) ≡ true)
unfolding floor_char_boundary
floor_char_boundary-lem s i = ground (arith, floor-boundary s (min i (bytes s)))

ceil_char_boundary-lem :
    (s : Text) (i : ℕ)
    → i ≤ bytes s
    → (i ≤ ceil_char_boundary s i)
      × (ceil_char_boundary s i ≤ bytes s)
      × (is_char_boundary s (ceil_char_boundary s i) ≡ true)
unfolding ceil_char_boundary
ceil_char_boundary-lem s i h =
    ground (arith, ceil-boundary s (bytes s - min i (bytes s)) (min i (bytes s)))

-- the text is `before` and `after`, and `after` has at most `max` bytes
abbrev pub IsTail : Text → ℕ → Text → Text → Type 0
IsTail s max before after = (before ++ after ≡ s) × (bytes after ≤ max)

slice_from-IsTail :
    (s : Text) (max : ℕ)
    → max ≤ bytes s
    → let i = ceil_char_boundary s (bytes s - max) in IsTail s max (slice_to s i) (slice_from s i)
slice_from-IsTail s max h =
    let i : ℕ = ceil_char_boundary s (bytes s - max) in
    let b = ceil_char_boundary-lem s (bytes s - max) (omega arith) in
    let cut = slices s i b.2 in
    (cut.0, omega (arith, bytes-append (slice_to s i) (slice_from s i), cut.1, ap bytes cut.0, b.0))

bytes-ellipsis : (t : Text) (n : ℕ) → bytes t ≤ n → bytes (ellipsis ++ t) ≤ n + 3
unfolding bytes len_utf8
bytes-ellipsis t n h = omega arith

tail_kept : (s : Text) (max : ℕ) → leb (bytes s) max ≡ true → tail_or_panic s max ≡ some s
unfolding tail_or_panic
tail_kept s max e = rw e refl

tail_cut :
    (s : Text) (max : ℕ)
    → leb (bytes s) max ≡ false
    → is_char_boundary s (tail_offset s max) ≡ true
    → tail_or_panic s max ≡ some (ellipsis ++ slice_from s (tail_offset s max))
unfolding tail_or_panic checked_from
tail_cut s max e b = rw e (rw b refl)

without_panic :
    (s : Text) (max : ℕ) (t : Text)
    → tail_or_panic s max ≡ some t
    → (tail_truncate s max ≡ t) × (tail_or_panic s max ≡ some (tail_truncate s max))
unfolding tail_truncate
without_panic s max t h =
    let same : tail_truncate s max ≡ t = ap (λ o. elim o [ some x ↦ x | none ↦ [] ]) h in
    (same, h ∙ ap some (sym same))

-- The slice that cuts the tail does not panic. A text of at most `max` bytes is kept as it is. A
-- longer one becomes an ellipsis of three bytes and an end of the text, of at most `max` bytes, that
-- begins at a character.
pub tail_truncate-IsTail :
    (s : Text) (max : ℕ)
    → (tail_or_panic s max ≡ some (tail_truncate s max))
      × (((bytes s ≤ max) × (tail_truncate s max ≡ s))
          ⊎ ((max < bytes s)
              × ((before : Text) × (after : Text) × IsTail s max before after
                  × (tail_truncate s max ≡ ellipsis ++ after)
                  × (bytes (tail_truncate s max) ≤ max + 3))))
tail_truncate-IsTail s max = elim (Bool-cases (leb (bytes s) max)) [
  | inl e ↦
      let (same, safe) = without_panic s max s (tail_kept s max e) in
      (safe, inl (ground arith, same))
  | inr e ↦
      let i : ℕ = tail_offset s max in
      let long : max < bytes s = ground arith in
      let tail = slice_from-IsTail s max (omega arith) in
      let (above, within, at_boundary) = ceil_char_boundary-lem s (bytes s - max) (omega arith) in
      let (same, safe) =
        without_panic s max (ellipsis ++ slice_from s i) (tail_cut s max e at_boundary) in
      let fits : bytes (tail_truncate s max) ≤ max + 3 =
        subst (λ t. bytes t ≤ max + 3) (sym same) (bytes-ellipsis (slice_from s i) max tail.1) in
      (safe, inr (long, (slice_to s i, slice_from s i, tail, same, fits)))
]

-- cutting twice
slice_to_twice :
    (s : Text) (i j : ℕ)
    → i ≤ j
    → is_char_boundary s i ≡ true
    → is_char_boundary s j ≡ true
    → (slice_to (slice_to s j) i ≡ slice_to s i) × (is_char_boundary (slice_to s j) i ≡ true)
unfolding slice_to is_char_boundary
slice_to_twice [] i j le h k = ground arith
slice_to_twice (c ∷ s) i j le h k =
    ground (arith, slice_to_twice s (i - len_utf8 c) (j - len_utf8 c))

abbrev middle : Text → ℕ → ℕ → Text
middle s i j = slice_from (slice_to s j) i

three_slices :
    (s : Text) (i j : ℕ)
    → i ≤ j
    → j ≤ bytes s
    → is_char_boundary s i ≡ true
    → is_char_boundary s j ≡ true
    → (slice_to s i ++ middle s i j ++ slice_from s j ≡ s)
      × (bytes (slice_to s i) ≡ i)
      × (bytes (middle s i j) ≡ j - i)
      × (bytes (slice_from s j) ≡ bytes s - j)
three_slices s i j le end h k =
    let front : Text = slice_to s j in
    let cut = slices s j k in
    let twice = slice_to_twice s i j le h k in
    let inner = slices front i twice.1 in
    let join : slice_to s i ++ middle s i j ≡ front =
      subst (λ x. x ++ middle s i j ≡ front) twice.0 inner.0 in
    (
      ap (λ x. x ++ slice_from s j) join ∙ cut.0,
      (slices s i h).1,
      omega (
        arith,
        bytes-append (slice_to s i) (middle s i j),
        ap bytes join,
        cut.1,
        (slices s i h).1,
      ),
      omega (arith, bytes-append front (slice_from s j), ap bytes cut.0, cut.1),
    )

truncate_kept :
    (s : Text) (max : ℕ)
    → (leb (bytes s) max || max == 0) ≡ true
    → truncate_or_panic s max ≡ some (s, false)
unfolding truncate_or_panic
truncate_kept s max e = rw e refl

truncate_cut :
    (s : Text) (max : ℕ)
    → (leb (bytes s) max || max == 0) ≡ false
    → is_char_boundary s (head_end s max) ≡ true
    → is_char_boundary s (tail_start s max) ≡ true
    → let h = head_end s max in
      let t = tail_start s max in
      truncate_or_panic s max
      ≡ some (slice_to s h ++ marker (bytes s - h - (bytes s - t)) ++ slice_from s t, true)
unfolding truncate_or_panic checked_to checked_from
truncate_cut s max e a b = rw e (rw a (rw b refl))

unpanicked :
    (s : Text) (max : ℕ) (kept : Text × Bool)
    → truncate_or_panic s max ≡ some kept
    → (truncate_text s max ≡ kept) × (truncate_or_panic s max ≡ some (truncate_text s max))
unfolding truncate_text
unpanicked s max kept h =
    let same : truncate_text s max ≡ kept = ap (λ o. elim o [ some x ↦ x | none ↦ ([], true) ]) h in
    (same, h ∙ ap some (sym same))

-- The slices that cut the text do not panic. A text of at most `max` bytes is kept as it is, as is
-- any text if `max` is zero. A longer one keeps a beginning and an end, cut at characters and not
-- overlapping, of at most `max` bytes together, around a marker that says how many bytes lie
-- between them.
pub truncate_text-parts :
    (s : Text) (max : ℕ)
    → (truncate_or_panic s max ≡ some (truncate_text s max))
      × ((((bytes s ≤ max) ⊎ (max ≡ 0)) × (truncate_text s max ≡ (s, false)))
          ⊎ ((head : Text) × (middle : Text) × (tail : Text) × (head ++ middle ++ tail ≡ s)
              × (bytes head + bytes tail ≤ max)
              × (truncate_text s max ≡ (head ++ marker (bytes middle) ++ tail, true))))
truncate_text-parts s max = elim (Bool-cases (leb (bytes s) max || max == 0)) [
  | inl e ↦
      let (same, safe) = unpanicked s max (s, false) (truncate_kept s max e) in
      (safe, inl (ground arith, same))
  | inr e ↦
      let h : ℕ = head_end s max in
      let t : ℕ = tail_start s max in
      let a = floor_char_boundary-lem s (max * 3 / 4) in
      let b = ceil_char_boundary-lem s (bytes s - (max - max * 3 / 4)) (omega arith) in
      let long : max < bytes s = ground arith in
      let le : h ≤ t = omega (arith, a.0, b.0) in
      let cut = three_slices s h t le b.1 a.2 b.2 in
      let size : bytes (middle s h t) ≡ bytes s - h - (bytes s - t) =
        omega (arith, cut.2, le, b.1) in
      let (same, safe) = unpanicked s max _ (truncate_cut s max e a.2 b.2) in
      (
        safe,
        inr (
          slice_to s h,
          middle s h t,
          slice_from s t,
          cut.0,
          omega (arith, cut.1, cut.3, a.0, b.0),
          same ∙ rw size refl,
        ),
      )
]
