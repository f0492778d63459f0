-- ===== src/Examples/Edited.antt =====
-- Edits of a text in which every character is a grapheme.
use favetto.Common.{
  ◌≡◌, refl, ap, ◌&&◌, ◌||◌, leb, List, [], ◌∷◌, Text, codes, len_utf8, bytes, slice_to, slice_from,
  All, is_empty, false,
}
use favetto.Tui.TextBuffer
use favetto.Tui.TextBuffer.{Unicode, TextBuffer}
use favetto.Tui.Zipper.{Zipper, IsSegmentation, buffer_of, at, join}
use favetto.Tui.Edits.{Edit, apply_all, Runs}
use favetto.Tui.Refines.{apply_all-Runs}

abbrev characters : Text → List Text
characters [] = []
characters (c ∷ cs) = (c ∷ []) ∷ characters cs

abbrev plain : Unicode
plain = record {
  graphemes = characters;
  is_alphanumeric =
      λ c. (leb 48 c && leb c 57) || (leb 65 c && leb c 90) || (leb 97 c && leb c 122);
}

plain-joined : (s : Text) → join (characters s) ≡ s
plain-joined [] = refl
plain-joined (c ∷ cs) = ap (λ t. c ∷ t) (plain-joined cs)

plain-nonempty : (s : Text) → All (λ g. is_empty g ≡ false) (characters s)
plain-nonempty [] = tt
plain-nonempty (c ∷ cs) = (refl, plain-nonempty cs)

plain-IsSegmentation : IsSegmentation plain
plain-IsSegmentation = record { joined = plain-joined; nonempty = plain-nonempty }

abbrev edits : List Edit
edits =
    Edit.insert_str (codes " world")
    ∷ Edit.move_word_left
    ∷ Edit.delete_word_before
    ∷ Edit.line_up
    ∷ []

abbrev start : Zipper
start = at (codes "one\nhello") []

edited : apply_all plain edits (buffer_of start) ≡ record { value = codes "one\nworld"; caret = 0 }
unfolding TextBuffer.insert_str TextBuffer.move_word_left TextBuffer.delete_word_before
    TextBuffer.line_up TextBuffer.skip_left TextBuffer.prev_grapheme_start TextBuffer.is_separator
    TextBuffer.all_separate TextBuffer.line_start TextBuffer.rfind_newline TextBuffer.column
    TextBuffer.column_from bytes len_utf8 slice_to slice_from
edited = refl

apply_all-Runs_example :
    (z' : Zipper) × (apply_all plain edits (buffer_of start) ≡ buffer_of z')
    × Runs plain edits start z'
apply_all-Runs_example = apply_all-Runs plain plain-IsSegmentation edits start
