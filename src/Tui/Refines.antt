-- ===== src/Tui/Refines.antt =====
-- The text buffer implements the cut text: crates/favetto-tui/src/tui/text_buffer.rs.
use favetto.Common.{
  ◌+◌, ◌-◌, ◌≡◌, ◌==◌, refl, sym, ap, ◌∙◌, arith, true, false, List, [], ◌∷◌, ◌++◌, some,
  Option-cases, inl, inr, Text, bytes, bytes-append, slice_to, slice_from, slice_to-append,
  slice_from-append, leb,
}
use mathlib.Core.List.{append_assoc, append-nil}
use favetto.Tui.TextBuffer
use favetto.Tui.TextBuffer.{
  Unicode, TextBuffer, remove_range, rfind_newline, find_newline, after_newline, from_or,
  line_start, line_end, column, prev_boundary, next_boundary, skip_left, skip_right,
}
use favetto.Tui.Zipper.{
  Zipper, IsSegmentation, text_of, buffer_of, at, newline, last_line, first_line, cut_last,
  cut_first, advance, column_of,
}
use favetto.Tui.Lines.{
  last_line-append, first_line-append, cut_last-none, cut_last-some, cut_first-none, cut_first-some,
  cut_last-append, cut_first-append, bytes-newline, after_newline-cut_last, from_or-cut_first,
  line_start-at, line_end-at,
}
use favetto.Tui.Columns.{advance-append, column-advance}
use favetto.Tui.Edits.{Edit, above, below, apply_all, Runs, finished, edited}
use favetto.Tui.Cuts.{
  moved, insert_str-Zipper, home-Zipper, end-Zipper, delete_to_line_start-Zipper,
  delete_to_line_end-Zipper,
}
use favetto.Tui.Steps.{
  Refined, backspace-Refined, delete-Refined, move_left-Refined, move_right-Refined,
  move_word_left-Refined, move_word_right-Refined, delete_word_before-Refined,
}

module _ (uni : Unicode) (law : IsSegmentation uni) where
  bytes_nil : bytes [] ≡ 0
  unfolding bytes
  bytes_nil = refl

  -- the caret is not on the first line
  line_up-above :
      (z : Zipper) (a c : Text) → last_line z.before ≡ some (a, c) → Refined uni law Edit.line_up z
  unfolding TextBuffer.line_up
  line_up-above z a c e =
      let (p, q) = cut_last a in
      let (x, y) = advance uni (column_of uni z.before) q in
      let v = text_of z in
      let b = buffer_of z in
      let t = newline ++ c ++ z.after in
      let z' = at (p ++ x) (y ++ t) in
      let whole : v ≡ a ++ t =
        ap (λ s. s ++ z.after) (last_line-append z.before a c e ∙ append_assoc a newline c)
        ∙ append_assoc a (newline ++ c) z.after in
      let start : line_start b ≡ bytes a + 1 =
        line_start-at z
        ∙ ap (λ c. bytes c.0) (cut_last-some z.before a c e)
        ∙ omega (arith, bytes-append a newline, bytes-newline) in
      let prev_end : line_start b - 1 ≡ bytes a = omega (arith, start) in
      let prev_line : slice_to v (line_start b - 1) ≡ a =
        ap (slice_to v) prev_end ∙ ap (λ s. slice_to s (bytes a)) whole ∙ slice_to-append a t in
      let prev_start : after_newline (rfind_newline (slice_to v (line_start b - 1))) ≡ bytes p =
        ap (λ s. after_newline (rfind_newline s)) prev_line ∙ after_newline-cut_last a in
      let line : a ≡ p ++ q = cut_last-append a in
      let caret : column uni b (after_newline (rfind_newline (slice_to v (line_start b - 1))))
            (line_start b - 1)
          ≡ bytes (p ++ x) =
        ap (λ n. column uni b n (line_start b - 1)) prev_start
        ∙ ap (column uni b (bytes p)) (prev_end ∙ ap bytes line)
        ∙ column-advance uni law z p q t (whole ∙ ap (λ s. s ++ t) line) in
      let text : text_of z' ≡ v =
        sym (append_assoc (p ++ x) y t)
        ∙ ap (λ s. s ++ t)
            (append_assoc p x y
              ∙ ap (λ s. p ++ s) (sym (advance-append uni law (column_of uni z.before) q))
              ∙ sym line)
        ∙ sym whole in
      let test : (line_start b == 0) ≡ false = ground (arith, start) in
      (z', rw (TextBuffer.line_up, test) (moved z z' _ text caret), rw (above, e) refl)

  line_up-Refined : (z : Zipper) → Refined uni law Edit.line_up z
  unfolding TextBuffer.line_up
  line_up-Refined z = elim (Option-cases (last_line z.before)) [
    | inr ((a, c), e) ↦ line_up-above z a c e
    | inl e ↦
        let start : line_start (buffer_of z) ≡ 0 =
          line_start-at z ∙ ap (λ c. bytes c.0) (cut_last-none z.before e) ∙ bytes_nil in
        (
          at [] (text_of z),
          rw (TextBuffer.line_up, start) (moved z (at [] (text_of z)) 0 refl (sym bytes_nil)),
          rw (above, e) refl,
        )
  ]

  -- the caret is not on the last line
  line_down-below :
      (z : Zipper) (a d : Text)
      → first_line z.after ≡ some (a, d)
      → Refined uni law Edit.line_down z
  unfolding TextBuffer.line_down
  line_down-below z a d e =
      let (q, t) = cut_first d in
      let (x, y) = advance uni (column_of uni z.before) q in
      let v = text_of z in
      let b = buffer_of z in
      let p = z.before ++ a ++ newline in
      let z' = at (p ++ x) (y ++ t) in
      let whole : v ≡ p ++ d =
        ap (λ s. z.before ++ s) (first_line-append z.after a d e ∙ append_assoc a newline d)
        ∙ sym (append_assoc z.before a (newline ++ d))
        ∙ sym (append_assoc (z.before ++ a) newline d) in
      let stop : line_end b ≡ bytes (z.before ++ a) =
        line_end-at z ∙ ap (λ c. bytes (z.before ++ c.0)) (cut_first-some z.after a d e) in
      let next_start : line_end b + 1 ≡ bytes p =
        omega (arith, stop, bytes-append (z.before ++ a) newline, bytes-newline) in
      let next_line : slice_from v (line_end b + 1) ≡ d =
        ap (slice_from v) next_start
        ∙ ap (λ s. slice_from s (bytes p)) whole
        ∙ slice_from-append p d in
      let line : d ≡ q ++ t = cut_first-append d in
      let next_end : from_or (line_end b + 1) (bytes v)
            (find_newline (slice_from v (line_end b + 1)))
          ≡ bytes (p ++ q) =
        ap (λ s. from_or (line_end b + 1) (bytes v) (find_newline s)) next_line
        ∙ ap (λ n. from_or n (bytes v) (find_newline d)) next_start
        ∙ ap (λ s. from_or (bytes p) (bytes s) (find_newline d)) whole
        ∙ from_or-cut_first p d in
      let caret : column uni b (line_end b + 1)
            (from_or (line_end b + 1) (bytes v) (find_newline (slice_from v (line_end b + 1))))
          ≡ bytes (p ++ x) =
        ap (column uni b (line_end b + 1)) next_end
        ∙ ap (λ n. column uni b n (bytes (p ++ q))) next_start
        ∙ column-advance uni law z p q t
            (whole ∙ ap (λ s. p ++ s) line ∙ sym (append_assoc p q t)) in
      let text : text_of z' ≡ v =
        append_assoc p x (y ++ t)
        ∙ ap (λ s. p ++ s)
            (sym (append_assoc x y t)
              ∙ ap (λ s. s ++ t) (sym (advance-append uni law (column_of uni z.before) q))
              ∙ sym line)
        ∙ sym whole in
      let test : leb (bytes v) (line_end b) ≡ false =
        ground (arith, next_start, ap bytes whole, bytes-append p d) in
      (z', rw (TextBuffer.line_down, test) (moved z z' _ text caret), rw (below, e) refl)

  line_down-Refined : (z : Zipper) → Refined uni law Edit.line_down z
  unfolding TextBuffer.line_down
  line_down-Refined z = elim (Option-cases (first_line z.after)) [
    | inr ((a, d), e) ↦ line_down-below z a d e
    | inl e ↦
        let stop : line_end (buffer_of z) ≡ bytes (text_of z) =
          line_end-at z ∙ ap (λ c. bytes (z.before ++ c.0)) (cut_first-none z.after e) in
        let test : leb (bytes (text_of z)) (line_end (buffer_of z)) ≡ true = ground (arith, stop) in
        (
          at (text_of z) [],
          rw (TextBuffer.line_down, test)
              (moved z (at (text_of z) []) (bytes (text_of z)) (append-nil (text_of z)) refl),
          rw (below, e) refl,
        )
  ]

  pub edit-Refined : (e : Edit) (z : Zipper) → Refined uni law e z
  unfolding TextBuffer.insert_char
  edit-Refined (Edit.insert_char c) z = (_, insert_str-Zipper (c ∷ []) z, refl)
  edit-Refined (Edit.insert_str s) z = (_, insert_str-Zipper s z, refl)
  edit-Refined Edit.backspace z = backspace-Refined uni law z
  edit-Refined Edit.delete z = delete-Refined uni law z
  edit-Refined Edit.move_left z = move_left-Refined uni law z
  edit-Refined Edit.move_right z = move_right-Refined uni law z
  edit-Refined Edit.move_word_left z = move_word_left-Refined uni law z
  edit-Refined Edit.move_word_right z = move_word_right-Refined uni law z
  edit-Refined Edit.delete_word_before z = delete_word_before-Refined uni law z
  edit-Refined Edit.home z = (_, home-Zipper z, refl)
  edit-Refined Edit.end_of_line z = (_, end-Zipper z, refl)
  edit-Refined Edit.delete_to_line_start z = (_, delete_to_line_start-Zipper z, refl)
  edit-Refined Edit.delete_to_line_end z = (_, delete_to_line_end-Zipper z, refl)
  edit-Refined Edit.line_up z = line_up-Refined z
  edit-Refined Edit.line_down z = line_down-Refined z

  -- Any edits of a buffer whose caret cuts its text in two give a buffer whose caret again does,
  -- at the end of a character. Each edit does what is specified of it on the two parts: a grapheme,
  -- a word, or the line up to the cut is passed or deleted, and a movement between lines keeps the
  -- column, or stops at the end of the line.
  pub apply_all-Runs :
      (es : List Edit) (z : Zipper)
      → (z' : Zipper) × (apply_all uni es (buffer_of z) ≡ buffer_of z') × Runs uni es z z'
  apply_all-Runs [] z = (z, refl, finished)
  apply_all-Runs (e ∷ es) z =
      let (z₁, step, specified) = edit-Refined e z in
      let (z', run, runs) = apply_all-Runs es z₁ in
      (z', ap (apply_all uni es) step ∙ run, edited specified runs)
