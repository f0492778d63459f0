-- ===== src/Tui/Columns.antt =====
-- The column that `line_up` and `line_down` keep: crates/favetto-tui/src/tui/text_buffer.rs.
use favetto.Common.{
  ℕ, zero, suc, ◌+◌, ◌≡◌, refl, sym, ap, ◌∙◌, arith, true, List, [], ◌∷◌, ◌++◌, Option, none, some,
  Option-cases, inl, inr, ltb, Text, bytes, bytes-append, slice_from, slice_to-append,
  slice_from-append, length,
}
use mathlib.Core.List.{append_assoc, append-nil}
use favetto.Tui.TextBuffer.{Unicode, slice, line_start, column_from, column}
use favetto.Tui.Zipper.{
  Zipper, IsSegmentation, buffer_of, cut_last, split_first, first_grapheme, advance, column_of,
}
use favetto.Tui.Graphemes.{first_grapheme-append, first_grapheme-shorter}
use favetto.Tui.Words.{slice-at}
use favetto.Tui.Lines.{line_start-at, cut_last-append}

split_first-none : (gs : List Text) → split_first gs ≡ none → gs ≡ []
split_first-none [] e = refl
split_first-none (g ∷ gs) e = absurd (ground (arith, e))

split_first-some :
    (gs : List Text) (g p : Text) → split_first gs ≡ some (g, p) → (hs : List Text) × (gs ≡ g ∷ hs)
split_first-some [] g p e = absurd (ground (arith, e))
split_first-some (h ∷ gs) g p e = (gs, ap (λ x. x ∷ gs) (ap first e))
  where
    first : Option (Text × Text) → Text
    first none = []
    first (some (a, b)) = a

module _ (uni : Unicode) (law : IsSegmentation uni) where
  advance-none : (n : ℕ) (q : Text) → first_grapheme uni q ≡ none → advance uni (suc n) q ≡ ([], q)
  advance-none n q e = rw (advance, e) refl

  advance-some :
      (n : ℕ) (q g rest : Text)
      → first_grapheme uni q ≡ some (g, rest)
      → advance uni (suc n) q ≡ (g ++ (advance uni n rest).0, (advance uni n rest).1)
  advance-some n q g rest e = rw (advance, e) refl

  abbrev halves : Text × Text → Text
  halves (a, b) = a ++ b

  pub advance-append : (n : ℕ) (q : Text) → q ≡ (advance uni n q).0 ++ (advance uni n q).1
  advance-append zero q = refl
  advance-append (suc n) q = elim (Option-cases (first_grapheme uni q)) [
    | inl e ↦ sym (ap halves (advance-none n q e))
    | inr ((g, rest), e) ↦
        first_grapheme-append uni law q g rest e
        ∙ ap (λ t. g ++ t) (advance-append n rest)
        ∙ sym (append_assoc g (advance uni n rest).0 (advance uni n rest).1)
        ∙ sym (ap halves (advance-some n q g rest e))
  ]

  -- The loop of `column` stops behind so many graphemes of the line, or at its end.
  pub column_from-advance :
      (n : ℕ) (p q t : Text)
      → column_from uni n (p ++ q ++ t) (bytes (p ++ q)) (bytes p)
        ≡ bytes (p ++ (advance uni n q).0)
  unfolding column_from
  column_from-advance zero p q t = ap bytes (sym (append-nil p))
  column_from-advance (suc n) p q t = elim (Option-cases (first_grapheme uni q)) [
    | inl e ↦
        let still : column_from uni (suc n) (p ++ q ++ t) (bytes (p ++ q)) (bytes p) ≡ bytes p =
          rw (column_from, slice-at p q t, split_first-none (uni.graphemes q) e) refl in
        still
        ∙ ap bytes (sym (append-nil p))
        ∙ sym (ap (λ a. bytes (p ++ a.0)) (advance-none n q e))
    | inr ((g, rest), e) ↦
        let (hs, e') = split_first-some (uni.graphemes q) g rest e in
        let cut : q ≡ g ++ rest = first_grapheme-append uni law q g rest e in
        let inside : ltb (bytes p) (bytes (p ++ q)) ≡ true =
          ground (arith, bytes-append p q, first_grapheme-shorter uni law q g rest e) in
        let moved : column_from uni (suc n) (p ++ q ++ t) (bytes (p ++ q)) (bytes p)
            ≡ column_from uni n (p ++ q ++ t) (bytes (p ++ q)) (bytes p + bytes g) =
          rw (column_from, slice-at p q t, e', inside) refl in
        let line : p ++ q ≡ p ++ g ++ rest = ap (λ x. p ++ x) cut ∙ sym (append_assoc p g rest) in
        moved
        ∙ ap (λ x. column_from uni n (x ++ t) (bytes x) (bytes p + bytes g)) line
        ∙ ap (column_from uni n (p ++ g ++ rest ++ t) (bytes (p ++ g ++ rest)))
            (sym (bytes-append p g))
        ∙ column_from-advance n (p ++ g) rest t
        ∙ ap bytes (append_assoc p g (advance uni n rest).0)
        ∙ sym (ap (λ a. bytes (p ++ a.0)) (advance-some n q g rest e))
  ]

  pub column-advance :
      (z : Zipper) (p q t : Text)
      → z.before ++ z.after ≡ p ++ q ++ t
      → column uni (buffer_of z) (bytes p) (bytes (p ++ q))
        ≡ bytes (p ++ (advance uni (column_of uni z.before) q).0)
  unfolding column
  column-advance z p q t e =
      let line : slice (z.before ++ z.after) (line_start (buffer_of z)) (bytes z.before)
          ≡ (cut_last z.before).1 =
        ap (λ s. slice_from s (line_start (buffer_of z))) (slice_to-append z.before z.after)
        ∙ ap (slice_from z.before) (line_start-at z)
        ∙ ap (λ s. slice_from s (bytes (cut_last z.before).0)) (cut_last-append z.before)
        ∙ slice_from-append (cut_last z.before).0 (cut_last z.before).1 in
      ap
        (λ s.
          column_from uni (length (uni.graphemes s)) (z.before ++ z.after) (bytes (p ++ q))
            (bytes p))
        line
      ∙ ap (λ v. column_from uni (column_of uni z.before) v (bytes (p ++ q)) (bytes p)) e
      ∙ column_from-advance (column_of uni z.before) p q t
