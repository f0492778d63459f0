-- ===== src/Tui/Lines.antt =====
-- The newlines around the caret, as byte offsets and as cuts of the text:
-- crates/favetto-tui/src/tui/text_buffer.rs.
use favetto.Common.{
  len_utf8, ℕ, ◌+◌, ◌≡◌, ◌==◌, refl, sym, ap, ◌∙◌, arith, Bool-cases, [], ◌∷◌, ◌++◌, Option, none,
  some, Option-cases, inl, inr, Text, bytes, bytes-append, slice_to-append, slice_from-append,
}
use mathlib.Core.List.{append_assoc, append-nil}
use favetto.Tui.TextBuffer.{
  rfind_newline, find_newline, after_newline, from_or, line_start, line_end,
}
use favetto.Tui.Zipper.{Zipper, buffer_of, last_line, first_line, cut_last, cut_first, newline}

-- the offset of the newline before the last line, and behind the first
abbrev before_of : Option (Text × Text) → Option ℕ
before_of none = none
before_of (some (a, b)) = some (bytes a)

rfind_newline-last_line : (s : Text) → rfind_newline s ≡ before_of (last_line s)
unfolding rfind_newline bytes
rfind_newline-last_line [] = refl
rfind_newline-last_line (c ∷ cs) = elim (Option-cases (last_line cs)) [
  | inl e ↦ ground (arith, e, rfind_newline-last_line cs)
  | inr ((a, b), e) ↦ rw (rfind_newline, rfind_newline-last_line cs, e) (ap some (omega arith))
]

find_newline-first_line : (s : Text) → find_newline s ≡ before_of (first_line s)
unfolding find_newline bytes
find_newline-first_line [] = refl
find_newline-first_line (c ∷ cs) = elim (Bool-cases (c == 10)) [
  | inl here ↦ ground (arith, here)
  | inr there ↦ elim (Option-cases (first_line cs)) [
    | inl e ↦ ground (arith, there, e, find_newline-first_line cs)
    | inr ((a, b), e) ↦
        rw (find_newline, there, find_newline-first_line cs, e) (ap some (omega arith))
  ]
]

-- the text that a line was split from
abbrev line_whole : Text → Option (Text × Text) → Text
line_whole s none = s
line_whole s (some (a, b)) = a ++ newline ++ b

last_line-whole : (s : Text) → s ≡ line_whole s (last_line s)
last_line-whole [] = refl
last_line-whole (c ∷ cs) = elim (Option-cases (last_line cs)) [
  | inl e ↦ rw e (elim (Bool-cases (c == 10)) [
    | inl here ↦ rw here (ap (λ x. x ∷ cs) (ground (arith, here)))
    | inr there ↦ rw there refl
  ])
  | inr ((a, b), e) ↦ rw e (ap (λ t. c ∷ t) (last_line-whole cs ∙ ap (line_whole cs) e))
]

first_line-whole : (s : Text) → s ≡ line_whole s (first_line s)
first_line-whole [] = refl
first_line-whole (c ∷ cs) = elim (Bool-cases (c == 10)) [
  | inl here ↦ rw here (ap (λ x. x ∷ cs) (ground (arith, here)))
  | inr there ↦ rw there (elim (Option-cases (first_line cs)) [
    | inl e ↦ rw e refl
    | inr ((a, b), e) ↦ rw e (ap (λ t. c ∷ t) (first_line-whole cs ∙ ap (line_whole cs) e))
  ])
]

pub last_line-append : (s a b : Text) → last_line s ≡ some (a, b) → s ≡ a ++ newline ++ b
last_line-append s a b e = last_line-whole s ∙ ap (line_whole s) e

pub first_line-append : (s a b : Text) → first_line s ≡ some (a, b) → s ≡ a ++ newline ++ b
first_line-append s a b e = first_line-whole s ∙ ap (line_whole s) e

pub cut_last-none : (s : Text) → last_line s ≡ none → cut_last s ≡ ([], s)
cut_last-none s e = rw (cut_last, e) refl

pub cut_last-some : (s a b : Text) → last_line s ≡ some (a, b) → cut_last s ≡ (a ++ newline, b)
cut_last-some s a b e = rw (cut_last, e) refl

pub cut_first-none : (s : Text) → first_line s ≡ none → cut_first s ≡ (s, [])
cut_first-none s e = rw (cut_first, e) refl

pub cut_first-some : (s a b : Text) → first_line s ≡ some (a, b) → cut_first s ≡ (a, newline ++ b)
cut_first-some s a b e = rw (cut_first, e) refl

pub cut_last-append : (s : Text) → s ≡ (cut_last s).0 ++ (cut_last s).1
cut_last-append s = elim (Option-cases (last_line s)) [
  | inl e ↦ rw (cut_last, e) refl
  | inr ((a, b), e) ↦ rw (cut_last, e) (last_line-append s a b e)
]

pub cut_first-append : (s : Text) → s ≡ (cut_first s).0 ++ (cut_first s).1
cut_first-append s = elim (Option-cases (first_line s)) [
  | inl e ↦ rw (cut_first, e) (sym (append-nil s))
  | inr ((a, b), e) ↦ rw (cut_first, e) (first_line-append s a b e ∙ append_assoc a newline b)
]

pub bytes-newline : bytes newline ≡ 1
unfolding bytes len_utf8
bytes-newline = refl

-- behind the last newline of a text begins its last line
pub after_newline-cut_last : (s : Text) → after_newline (rfind_newline s) ≡ bytes (cut_last s).0
unfolding bytes
after_newline-cut_last s = elim (Option-cases (last_line s)) [
  | inl e ↦ rw (rfind_newline-last_line s, cut_last, e) refl
  | inr ((a, b), e) ↦
      let size : bytes (a ++ newline) ≡ bytes a + 1 =
        omega (arith, bytes-append a newline, bytes-newline) in
      rw (rfind_newline-last_line s, cut_last, e) (sym size)
]

-- at the first newline of a text ends its first line
pub from_or-cut_first :
    (l r : Text)
    → from_or (bytes l) (bytes (l ++ r)) (find_newline r) ≡ bytes (l ++ (cut_first r).0)
from_or-cut_first l r = elim (Option-cases (first_line r)) [
  | inl e ↦ rw (find_newline-first_line r, cut_first, e) refl
  | inr ((a, b), e) ↦ rw (find_newline-first_line r, cut_first, e) (sym (bytes-append l a))
]

pub line_start-at : (z : Zipper) → line_start (buffer_of z) ≡ bytes (cut_last z.before).0
unfolding line_start
line_start-at z =
    ap (λ t. after_newline (rfind_newline t)) (slice_to-append z.before z.after)
    ∙ after_newline-cut_last z.before

pub line_end-at : (z : Zipper) → line_end (buffer_of z) ≡ bytes (z.before ++ (cut_first z.after).0)
unfolding line_end
line_end-at z =
    ap (λ t. from_or (bytes z.before) (bytes (z.before ++ z.after)) (find_newline t))
      (slice_from-append z.before z.after)
    ∙ from_or-cut_first z.before z.after
