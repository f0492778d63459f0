-- ===== src/Tui/Edits.antt =====
-- The edits of the text inputs, on the buffer and on the cut text.
use favetto.Common.{ℕ, ◌≡◌, true, false, List, [], ◌∷◌, ◌++◌, none, some, Text}
use favetto.Tui.TextBuffer
use favetto.Tui.TextBuffer.{Unicode, TextBuffer}
use favetto.Tui.Zipper.{
  Zipper, at, text_of, newline, last_line, first_line, cut_last, cut_first, last_grapheme,
  first_grapheme, advance, column_of, WalksLeft, WalksRight,
}

-- the editing methods of `TextBuffer`
pub data Edit : Type 0 where
  insert_char : ℕ → Edit
  insert_str : Text → Edit
  backspace delete move_left move_right move_word_left move_word_right delete_word_before : Edit
  home end_of_line delete_to_line_start delete_to_line_end line_up line_down : Edit

module _ (uni : Unicode) where
  abbrev pub apply : Edit → TextBuffer → TextBuffer
  apply (insert_char c) = TextBuffer.insert_char c
  apply (insert_str s) = TextBuffer.insert_str s
  apply backspace = TextBuffer.backspace uni
  apply delete = TextBuffer.delete uni
  apply move_left = TextBuffer.move_left uni
  apply move_right = TextBuffer.move_right uni
  apply move_word_left = TextBuffer.move_word_left uni
  apply move_word_right = TextBuffer.move_word_right uni
  apply delete_word_before = TextBuffer.delete_word_before uni
  apply home = TextBuffer.home
  apply end_of_line = TextBuffer.to_line_end
  apply delete_to_line_start = TextBuffer.delete_to_line_start
  apply delete_to_line_end = TextBuffer.delete_to_line_end
  apply line_up = TextBuffer.line_up uni
  apply line_down = TextBuffer.line_down uni

  -- the caret at the column, on the line above and on the line below
  abbrev pub above : Zipper → Zipper
  above z = elim (last_line z.before) [
    | none ↦ at [] (z.before ++ z.after)
    | some (a, c) ↦
        let (p, q) = cut_last a in
        let (x, y) = advance uni (column_of uni z.before) q in
        at (p ++ x) (y ++ (newline ++ c ++ z.after))
  ]

  abbrev pub below : Zipper → Zipper
  below z = elim (first_line z.after) [
    | none ↦ at (z.before ++ z.after) []
    | some (a, d) ↦
        let (q, t) = cut_first d in
        let (x, y) = advance uni (column_of uni z.before) q in
        at (z.before ++ a ++ newline ++ x) (y ++ t)
  ]

  -- the separators before the caret, and the word before them, are passed
  pub record WordLeft (before rest : Text) : Type 0 where
    pub between : Text
    pub separators : WalksLeft uni true before between
    pub word : WalksLeft uni false between rest

  pub record WordRight (after rest : Text) : Type 0 where
    pub between : Text
    pub word : WalksRight uni false after between
    pub separators : WalksRight uni true between rest

  -- what each edit does to the cut text
  abbrev pub Specified : Edit → Zipper → Zipper → Type 0
  Specified (insert_char c) z z' = z' ≡ at (z.before ++ c ∷ []) z.after
  Specified (insert_str s) z z' = z' ≡ at (z.before ++ s) z.after
  Specified backspace z z' =
      z'
      ≡ elim (last_grapheme uni z.before) as (λ _. Zipper) [ none ↦ z | some (p, g) ↦ at p z.after ]
  Specified delete z z' = z' ≡ elim (first_grapheme uni z.after) as (λ _. Zipper) [
    | none ↦ z
    | some (g, p) ↦ at z.before p
  ]
  Specified move_left z z' = z' ≡ elim (last_grapheme uni z.before) as (λ _. Zipper) [
    | none ↦ z
    | some (p, g) ↦ at p (g ++ z.after)
  ]
  Specified move_right z z' = z' ≡ elim (first_grapheme uni z.after) as (λ _. Zipper) [
    | none ↦ z
    | some (g, p) ↦ at (z.before ++ g) p
  ]
  Specified move_word_left z z' = (text_of z' ≡ text_of z) × WordLeft z.before z'.before
  Specified move_word_right z z' = (text_of z' ≡ text_of z) × WordRight z.after z'.after
  Specified delete_word_before z z' = (z'.after ≡ z.after) × WordLeft z.before z'.before
  Specified home z z' = z' ≡ at (cut_last z.before).0 ((cut_last z.before).1 ++ z.after)
  Specified end_of_line z z' = z' ≡ at (z.before ++ (cut_first z.after).0) (cut_first z.after).1
  Specified delete_to_line_start z z' = z' ≡ at (cut_last z.before).0 z.after
  Specified delete_to_line_end z z' = z' ≡ at z.before (cut_first z.after).1
  Specified line_up z z' = z' ≡ above z
  Specified line_down z z' = z' ≡ below z

  abbrev pub apply_all : List Edit → TextBuffer → TextBuffer
  apply_all [] b = b
  apply_all (e ∷ es) b = apply_all es (apply e b)

  -- the edits one after the other
  pub data Runs : List Edit → Zipper → Zipper → Type 0 where
    finished : {z : Zipper} → Runs [] z z
    edited :
        {e : Edit} {es : List Edit} {z z' z'' : Zipper}
        → Specified e z z'
        → Runs es z' z''
        → Runs (e ∷ es) z z''
