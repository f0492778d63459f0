-- ===== src/Tui/Steps.antt =====
-- Deletions and movements by graphemes and words, on the cut text: crates/favetto-tui/src/tui/text_buffer.rs.
use favetto.Common.{
  ◌≡◌, refl, sym, ap, ◌∙◌, arith, true, false, ◌++◌, some, Option-cases, inl, inr, Text, bytes,
  bytes-append,
}
use mathlib.Core.List.{append_assoc}
use favetto.Tui.TextBuffer
use favetto.Tui.TextBuffer.{
  Unicode, TextBuffer, remove_range, rfind_newline, find_newline, after_newline, from_or,
  line_start, line_end, column, prev_boundary, next_boundary, skip_left, skip_right,
}
use favetto.Tui.Zipper.{
  Zipper, IsSegmentation, text_of, buffer_of, at, last_grapheme, first_grapheme,
}
use favetto.Tui.Graphemes.{
  offset_of, end_of, last_grapheme-append, first_grapheme-append, prev_grapheme_start-at,
  next_grapheme_end-at,
}
use favetto.Tui.Words.{skip_left-Walked, skip_right-Walked}
use favetto.Tui.Edits.{Edit, apply, WordLeft, Specified}
use favetto.Tui.Cuts.{buffer-eq, remove-left, remove-right, moved}

module _ (uni : Unicode) (law : IsSegmentation uni) where
  -- The buffer of an edited cut text is the buffer of what the edit specifies.
  abbrev pub Refined : Edit → Zipper → Type 0
  Refined e z = (z' : Zipper) × (apply uni e (buffer_of z) ≡ buffer_of z') × Specified uni e z z'

  -- the boundaries next to the caret
  before_caret :
      (z : Zipper) → prev_boundary uni (buffer_of z) ≡ offset_of 0 (last_grapheme uni z.before)
  before_caret z = prev_grapheme_start-at uni z.before z.after (bytes z.before)

  after_caret :
      (z : Zipper)
      → next_boundary uni (buffer_of z) ≡ end_of (bytes z.before) (first_grapheme uni z.after)
  after_caret z = next_grapheme_end-at uni z.before z.after (bytes z.before)

  found_before :
      (z : Zipper) (p g : Text)
      → last_grapheme uni z.before ≡ some (p, g)
      → prev_boundary uni (buffer_of z) ≡ some (bytes p)
  found_before z p g e = before_caret z ∙ ap (offset_of 0) e ∙ ap some (omega arith)

  found_after :
      (z : Zipper) (g p : Text)
      → first_grapheme uni z.after ≡ some (g, p)
      → next_boundary uni (buffer_of z) ≡ some (bytes (z.before ++ g))
  found_after z g p e =
      after_caret z ∙ ap (end_of (bytes z.before)) e ∙ ap some (sym (bytes-append z.before g))

  pub backspace-Refined : (z : Zipper) → Refined Edit.backspace z
  unfolding TextBuffer.backspace
  backspace-Refined z = elim (Option-cases (last_grapheme uni z.before)) [
    | inl e ↦ (z, rw (TextBuffer.backspace, before_caret z, e) refl, rw e refl)
    | inr ((p, g), e) ↦ (
      at p z.after,
      rw (TextBuffer.backspace, found_before z p g e)
          (buffer-eq
            (record {
              value = remove_range (bytes p) (bytes z.before) (text_of z);
              caret = bytes p;
            })
            (buffer_of (at p z.after))
            (remove-left z p g (last_grapheme-append uni law z.before p g e)) refl),
      rw e refl,
    )
  ]

  pub delete-Refined : (z : Zipper) → Refined Edit.delete z
  unfolding TextBuffer.delete
  delete-Refined z = elim (Option-cases (first_grapheme uni z.after)) [
    | inl e ↦ (z, rw (TextBuffer.delete, after_caret z, e) refl, rw e refl)
    | inr ((g, p), e) ↦ (
      at z.before p,
      rw (TextBuffer.delete, found_after z g p e)
          (buffer-eq
            (record {
              value = remove_range (bytes z.before) (bytes (z.before ++ g)) (text_of z);
              caret = bytes z.before;
            })
            (buffer_of (at z.before p))
            (remove-right z g p (first_grapheme-append uni law z.after g p e)) refl),
      rw e refl,
    )
  ]

  pub move_left-Refined : (z : Zipper) → Refined Edit.move_left z
  unfolding TextBuffer.move_left
  move_left-Refined z = elim (Option-cases (last_grapheme uni z.before)) [
    | inl e ↦ (z, rw (TextBuffer.move_left, before_caret z, e) refl, rw e refl)
    | inr ((p, g), e) ↦ (
      at p (g ++ z.after),
      rw (TextBuffer.move_left, found_before z p g e)
          (moved z (at p (g ++ z.after)) (bytes p)
            (sym (append_assoc p g z.after)
              ∙ ap (λ t. t ++ z.after) (sym (last_grapheme-append uni law z.before p g e)))
            refl),
      rw e refl,
    )
  ]

  pub move_right-Refined : (z : Zipper) → Refined Edit.move_right z
  unfolding TextBuffer.move_right
  move_right-Refined z = elim (Option-cases (first_grapheme uni z.after)) [
    | inl e ↦ (z, rw (TextBuffer.move_right, after_caret z, e) refl, rw e refl)
    | inr ((g, p), e) ↦ (
      at (z.before ++ g) p,
      rw (TextBuffer.move_right, found_after z g p e)
          (moved z (at (z.before ++ g) p) (bytes (z.before ++ g))
            (append_assoc z.before g p
              ∙ ap (λ t. z.before ++ t) (sym (first_grapheme-append uni law z.after g p e)))
            refl),
      rw e refl,
    )
  ]

  -- where the two walks of a word movement end
  record Word (z : Zipper) : Type 0 where
    rest : Text
    passed : Text
    whole : z.before ≡ rest ++ passed
    left : WordLeft uni z.before rest
    position :
        TextBuffer.move_word_left uni (buffer_of z)
        ≡ record { value = text_of z; caret = bytes rest }

  walked-Word : (z : Zipper) → Word z
  unfolding TextBuffer.move_word_left
  walked-Word z =
      let v = text_of z in
      let n = bytes z.before in
      let w₁ =
        skip_left-Walked uni law v n true (bytes v) z.before z.after refl
          (omega (arith, bytes-append z.before z.after)) in
      let split : v ≡ w₁.rest ++ (w₁.passed ++ z.after) =
        ap (λ t. t ++ z.after) w₁.whole ∙ append_assoc w₁.rest w₁.passed z.after in
      let w₂ =
        skip_left-Walked uni law v n false (bytes v) w₁.rest (w₁.passed ++ z.after) split
          (omega (arith, ap bytes split, bytes-append w₁.rest (w₁.passed ++ z.after))) in
      record {
        rest = w₂.rest;
        passed = w₂.passed ++ w₁.passed;
        whole =
            w₁.whole ∙ ap (λ t. t ++ w₁.passed) w₂.whole ∙ append_assoc w₂.rest w₂.passed w₁.passed;
        left = record { between = w₁.rest; separators = w₁.walks; word = w₂.walks };
        position =
            ap (λ c. record { value = v; caret = c })
              (ap (skip_left uni (bytes v) (buffer_of z) false) w₁.position ∙ w₂.position);
      }

  pub move_word_left-Refined : (z : Zipper) → Refined Edit.move_word_left z
  move_word_left-Refined z =
      let w = walked-Word z in
      let text : w.rest ++ (w.passed ++ z.after) ≡ text_of z =
        sym (append_assoc w.rest w.passed z.after) ∙ ap (λ t. t ++ z.after) (sym w.whole) in
      (
        at w.rest (w.passed ++ z.after),
        w.position ∙ moved z (at w.rest (w.passed ++ z.after)) (bytes w.rest) text refl,
        (text, w.left),
      )

  pub delete_word_before-Refined : (z : Zipper) → Refined Edit.delete_word_before z
  unfolding TextBuffer.delete_word_before
  delete_word_before-Refined z =
      let w = walked-Word z in
      (
        at w.rest z.after,
        ap (λ (b : TextBuffer). record b { value = remove_range b.caret (bytes z.before) b.value })
              w.position
            ∙ buffer-eq
                (record {
                  value = remove_range (bytes w.rest) (bytes z.before) (text_of z);
                  caret = bytes w.rest;
                })
                (buffer_of (at w.rest z.after)) (remove-left z w.rest w.passed w.whole) refl,
        (refl, w.left),
      )

  pub move_word_right-Refined : (z : Zipper) → Refined Edit.move_word_right z
  unfolding TextBuffer.move_word_right
  move_word_right-Refined z =
      let v = text_of z in
      let n = bytes z.before in
      let w₁ =
        skip_right-Walked uni law v n false (bytes v) z.before z.after refl
          (omega (arith, bytes-append z.before z.after)) in
      let split : v ≡ (z.before ++ w₁.passed) ++ w₁.rest =
        ap (λ t. z.before ++ t) w₁.whole ∙ sym (append_assoc z.before w₁.passed w₁.rest) in
      let w₂ =
        skip_right-Walked uni law v n true (bytes v) (z.before ++ w₁.passed) w₁.rest split
          (omega (arith, ap bytes split, bytes-append (z.before ++ w₁.passed) w₁.rest)) in
      let text : (z.before ++ w₁.passed ++ w₂.passed) ++ w₂.rest ≡ v =
        append_assoc (z.before ++ w₁.passed) w₂.passed w₂.rest
        ∙ ap (λ t. z.before ++ w₁.passed ++ t) (sym w₂.whole)
        ∙ sym split in
      let z' = at (z.before ++ w₁.passed ++ w₂.passed) w₂.rest in
      (
        z',
        moved z z'
            (skip_right uni (bytes v) (buffer_of z) true
              (skip_right uni (bytes v) (buffer_of z) false n))
            text (ap (skip_right uni (bytes v) (buffer_of z) true) w₁.position ∙ w₂.position),
        (text, record { between = w₁.rest; word = w₁.walks; separators = w₂.walks }),
      )
