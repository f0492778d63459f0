-- ===== src/Tui/Cuts.antt =====
-- Insertions, deletions and the ends of a line, on the cut text: crates/favetto-tui/src/tui/text_buffer.rs.
use favetto.Common.{
  ℕ, ◌≡◌, refl, sym, ap, ◌∙◌, ◌++◌, Text, bytes, bytes-append, slice_to, slice_from,
  slice_to-append, slice_from-append,
}
use mathlib.Core.List.{append_assoc}
use favetto.Tui.TextBuffer
use favetto.Tui.TextBuffer.{
  Unicode, TextBuffer, remove_range, rfind_newline, find_newline, after_newline, from_or,
  line_start, line_end, column, prev_boundary, next_boundary, skip_left, skip_right,
}
use favetto.Tui.Zipper.{Zipper, text_of, buffer_of, at, cut_last, cut_first}
use favetto.Tui.Lines.{cut_last-append, cut_first-append, line_start-at, line_end-at}

-- two buffers are the same if their texts and carets are
pub buffer-eq : (b c : TextBuffer) → b.value ≡ c.value → b.caret ≡ c.caret → b ≡ c
buffer-eq b c e e' = λ i. record { value = e i; caret = e' i }

-- a text in three parts, without the middle one
pub remove-at : (p m a : Text) → remove_range (bytes p) (bytes (p ++ m)) (p ++ m ++ a) ≡ p ++ a
remove-at p m a =
    ap (λ t. slice_to t (bytes p) ++ slice_from (p ++ m ++ a) (bytes (p ++ m))) (append_assoc p m a)
    ∙ ap (λ t. t ++ slice_from (p ++ m ++ a) (bytes (p ++ m))) (slice_to-append p (m ++ a))
    ∙ ap (λ t. p ++ t) (slice_from-append (p ++ m) a)

pub remove-left :
    (z : Zipper) (p m : Text)
    → z.before ≡ p ++ m
    → remove_range (bytes p) (bytes z.before) (text_of z) ≡ p ++ z.after
remove-left z p m e =
    ap (λ b. remove_range (bytes p) (bytes b) (b ++ z.after)) e ∙ remove-at p m z.after

pub remove-right :
    (z : Zipper) (m a : Text)
    → z.after ≡ m ++ a
    → remove_range (bytes z.before) (bytes (z.before ++ m)) (text_of z) ≡ z.before ++ a
remove-right z m a e =
    ap (remove_range (bytes z.before) (bytes (z.before ++ m)))
      (ap (λ t. z.before ++ t) e ∙ sym (append_assoc z.before m a))
    ∙ remove-at z.before m a

-- the buffer with another caret shows the same text with another cut
pub moved :
    (z z' : Zipper) (caret : ℕ)
    → text_of z' ≡ text_of z
    → caret ≡ bytes z'.before
    → record { value = text_of z; caret = caret } ≡ buffer_of z'
moved z z' caret e e' =
    buffer-eq (record { value = text_of z; caret = caret }) (buffer_of z') (sym e) e'

pub insert_str-Zipper :
    (s : Text) (z : Zipper)
    → TextBuffer.insert_str s (buffer_of z) ≡ buffer_of (at (z.before ++ s) z.after)
unfolding TextBuffer.insert_str
insert_str-Zipper s z =
    buffer-eq (TextBuffer.insert_str s (buffer_of z)) (buffer_of (at (z.before ++ s) z.after))
      (ap (λ t. t ++ s ++ slice_from (text_of z) (bytes z.before))
          (slice_to-append z.before z.after)
        ∙ ap (λ t. z.before ++ s ++ t) (slice_from-append z.before z.after))
      (sym (bytes-append z.before s))

pub home-Zipper :
    (z : Zipper)
    → TextBuffer.home (buffer_of z)
      ≡ buffer_of (at (cut_last z.before).0 ((cut_last z.before).1 ++ z.after))
unfolding TextBuffer.home
home-Zipper z =
    let (p, q) = cut_last z.before in
    moved z (at p (q ++ z.after)) (line_start (buffer_of z))
      (sym (append_assoc p q z.after) ∙ ap (λ t. t ++ z.after) (sym (cut_last-append z.before)))
      (line_start-at z)

pub end-Zipper :
    (z : Zipper)
    → TextBuffer.to_line_end (buffer_of z)
      ≡ buffer_of (at (z.before ++ (cut_first z.after).0) (cut_first z.after).1)
unfolding TextBuffer.to_line_end
end-Zipper z =
    let (p, q) = cut_first z.after in
    moved z (at (z.before ++ p) q) (line_end (buffer_of z))
      (append_assoc z.before p q ∙ ap (λ t. z.before ++ t) (sym (cut_first-append z.after)))
      (line_end-at z)

pub delete_to_line_start-Zipper :
    (z : Zipper)
    → TextBuffer.delete_to_line_start (buffer_of z) ≡ buffer_of (at (cut_last z.before).0 z.after)
unfolding TextBuffer.delete_to_line_start
delete_to_line_start-Zipper z =
    let (p, q) = cut_last z.before in
    buffer-eq (TextBuffer.delete_to_line_start (buffer_of z)) (buffer_of (at p z.after))
      (ap (λ n. remove_range n (bytes z.before) (text_of z)) (line_start-at z)
        ∙ remove-left z p q (cut_last-append z.before))
      (line_start-at z)

pub delete_to_line_end-Zipper :
    (z : Zipper)
    → TextBuffer.delete_to_line_end (buffer_of z) ≡ buffer_of (at z.before (cut_first z.after).1)
unfolding TextBuffer.delete_to_line_end
delete_to_line_end-Zipper z =
    let (p, q) = cut_first z.after in
    buffer-eq (TextBuffer.delete_to_line_end (buffer_of z)) (buffer_of (at z.before q))
      (ap (λ n. remove_range (bytes z.before) n (text_of z)) (line_end-at z)
        ∙ remove-right z p q (cut_first-append z.after))
      refl
