-- ===== src/Tui/Graphemes.antt =====
-- Byte offsets at the graphemes of a text: crates/favetto-tui/src/tui/text_buffer.rs.
use favetto.Common.{
  ℕ, ◌+◌, ◌≡◌, ◌<◌, refl, sym, ap, ◌∙◌, subst, arith, false, List, [], ◌∷◌, ◌++◌, Option, none,
  some, Option-cases, inl, inr, Text, bytes, bytes-append, slice_to-append, slice_from-append,
  is_empty, All, len_utf8_pos,
}
use favetto.Tui.TextBuffer.{Unicode, last_index, prev_grapheme_start, next_grapheme_end}
use favetto.Tui.Zipper.{
  IsSegmentation, join, add_first, split_last, split_first, last_grapheme, first_grapheme,
}
use mathlib.Core.List.{append_assoc, append-nil}

-- the offset of what stands before the last text
abbrev pub offset_of : ℕ → Option (Text × Text) → Option ℕ
offset_of n none = none
offset_of n (some (p, g)) = some (n + bytes p)

split_last-some : (g : Text) (gs : List Text) → (x : Text × Text) × (split_last (g ∷ gs) ≡ some x)
split_last-some g gs = elim (Option-cases (split_last gs)) [
  | inl e ↦ (([], g), ap (add_first g) e)
  | inr ((p, x), e) ↦ ((g ++ p, x), ap (add_first g) e)
]

last_index-split : (n : ℕ) (gs : List Text) → last_index n gs ≡ offset_of n (split_last gs)
unfolding bytes
last_index-split n [] = refl
last_index-split n (g ∷ []) = ap some (omega arith)
last_index-split n (g ∷ h ∷ gs) =
    let ((p, x), e) = split_last-some h gs in
    let sum : n + bytes g + bytes p ≡ n + bytes (g ++ p) = omega (arith, bytes-append g p) in
    last_index-split (n + bytes g) (h ∷ gs)
    ∙ ap (offset_of (n + bytes g)) e
    ∙ ap some sum
    ∙ sym (ap (λ o. offset_of n (add_first g o)) e)

-- both parts of a split, one after the other
abbrev pub whole_of : Option (Text × Text) → Text
whole_of none = []
whole_of (some (a, b)) = a ++ b

whole_of-add_first :
    (g : Text) (o : Option (Text × Text)) → whole_of (add_first g o) ≡ g ++ whole_of o
whole_of-add_first g none = sym (append-nil g)
whole_of-add_first g (some (p, x)) = append_assoc g p x

split_last-join : (gs : List Text) → join gs ≡ whole_of (split_last gs)
split_last-join [] = refl
split_last-join (g ∷ gs) =
    ap (λ t. g ++ t) (split_last-join gs) ∙ sym (whole_of-add_first g (split_last gs))

split_first-join : (gs : List Text) → join gs ≡ whole_of (split_first gs)
split_first-join [] = refl
split_first-join (g ∷ gs) = refl

-- the part of a split that is one grapheme
abbrev IsLast : Option (Text × Text) → Type 0
IsLast none = Unit
IsLast (some (p, g)) = is_empty g ≡ false

abbrev IsFirst : Option (Text × Text) → Type 0
IsFirst none = Unit
IsFirst (some (g, p)) = is_empty g ≡ false

add_first-IsLast :
    (g : Text) (o : Option (Text × Text)) → is_empty g ≡ false → IsLast o → IsLast (add_first g o)
add_first-IsLast g none h k = h
add_first-IsLast g (some x) h k = k

split_last-IsLast : (gs : List Text) → All (λ g. is_empty g ≡ false) gs → IsLast (split_last gs)
split_last-IsLast [] h = tt
split_last-IsLast (g ∷ gs) h = add_first-IsLast g (split_last gs) h.0 (split_last-IsLast gs h.1)

split_first-IsFirst : (gs : List Text) → All (λ g. is_empty g ≡ false) gs → IsFirst (split_first gs)
split_first-IsFirst [] h = tt
split_first-IsFirst (g ∷ gs) h = h.0

bytes_pos : (g : Text) → is_empty g ≡ false → 0 < bytes g
unfolding bytes
bytes_pos [] h = absurd (ground (arith, h))
bytes_pos (c ∷ g) h = omega (arith, len_utf8_pos c)

module _ (uni : Unicode) (law : IsSegmentation uni) where
  pub last_grapheme-append : (s p g : Text) → last_grapheme uni s ≡ some (p, g) → s ≡ p ++ g
  last_grapheme-append s p g e =
      sym (law.joined s) ∙ split_last-join (uni.graphemes s) ∙ ap whole_of e

  pub first_grapheme-append : (s g p : Text) → first_grapheme uni s ≡ some (g, p) → s ≡ g ++ p
  first_grapheme-append s g p e =
      sym (law.joined s) ∙ split_first-join (uni.graphemes s) ∙ ap whole_of e

  -- a text that has a last grapheme is longer than what stands before that
  pub last_grapheme-shorter : (s p g : Text) → last_grapheme uni s ≡ some (p, g) → bytes p < bytes s
  last_grapheme-shorter s p g e =
      let longer =
        bytes_pos g (subst IsLast e (split_last-IsLast (uni.graphemes s) (law.nonempty s))) in
      let size : bytes s ≡ bytes p + bytes g =
        ap bytes (last_grapheme-append s p g e) ∙ bytes-append p g in
      omega (arith, longer, size)

  pub first_grapheme-shorter :
      (s g p : Text) → first_grapheme uni s ≡ some (g, p) → bytes p < bytes s
  first_grapheme-shorter s g p e =
      let longer =
        bytes_pos g (subst IsFirst e (split_first-IsFirst (uni.graphemes s) (law.nonempty s))) in
      let size : bytes s ≡ bytes g + bytes p =
        ap bytes (first_grapheme-append s g p e) ∙ bytes-append g p in
      omega (arith, longer, size)

abbrev pub end_of : ℕ → Option (Text × Text) → Option ℕ
end_of n none = none
end_of n (some (g, p)) = some (n + bytes g)

module _ (uni : Unicode) where
  -- the boundaries next to an offset, in terms of the text on either side
  pub prev_grapheme_start-at :
      (l r : Text) (n : ℕ)
      → prev_grapheme_start uni (record { value = l ++ r; caret = n }) (bytes l)
        ≡ offset_of 0 (last_grapheme uni l)
  unfolding prev_grapheme_start
  prev_grapheme_start-at l r n =
      ap (λ t. last_index 0 (uni.graphemes t)) (slice_to-append l r)
      ∙ last_index-split 0 (uni.graphemes l)

  first_end :
      (n : ℕ) (gs : List Text)
      → elim gs as (λ _. Option ℕ) [ [] ↦ none | g ∷ _ ↦ some (n + bytes g) ]
        ≡ end_of n (split_first gs)
  first_end n [] = refl
  first_end n (g ∷ gs) = refl

  pub next_grapheme_end-at :
      (l r : Text) (n : ℕ)
      → next_grapheme_end uni (record { value = l ++ r; caret = n }) (bytes l)
        ≡ end_of (bytes l) (first_grapheme uni r)
  unfolding next_grapheme_end
  next_grapheme_end-at l r n =
      ap
        (λ t. elim (uni.graphemes t) as (λ _. Option ℕ) [
          | [] ↦ none
          | g ∷ _ ↦ some (bytes l + bytes g)
        ])
        (slice_from-append l r)
      ∙ first_end (bytes l) (uni.graphemes r)
