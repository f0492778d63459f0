-- ===== src/Tui/Zipper.antt =====
-- What the editor of the text inputs promises: a text that is cut in two at the caret, and edits
-- that speak of graphemes and lines, not of byte offsets.
use favetto.Common.{
  length, ℕ, zero, suc, ◌≡◌, ◌==◌, Bool, true, false, List, [], ◌∷◌, ◌++◌, Option, none, some,
  if◌then◌else◌, Text, bytes, is_empty, All,
}
use favetto.Tui.TextBuffer.{Unicode, TextBuffer, all_separate}

pub record Zipper : Type 0 where
  pub before : Text
  pub after : Text

abbrev pub text_of : Zipper → Text
text_of z = z.before ++ z.after

-- the buffer that shows the text with the caret at the cut
abbrev pub buffer_of : Zipper → TextBuffer
buffer_of z = record { value = z.before ++ z.after; caret = bytes z.before }

abbrev pub at : Text → Text → Zipper
at l r = record { before = l; after = r }

-- the texts one after the other
abbrev pub join : List Text → Text
join [] = []
join (g ∷ gs) = g ++ join gs

-- What is documented of `graphemes`: the graphemes of a text make it up, and none is empty.
pub record IsSegmentation (uni : Unicode) : Type 0 where
  pub joined : (s : Text) → join (uni.graphemes s) ≡ s
  pub nonempty : (s : Text) → All (λ g. is_empty g ≡ false) (uni.graphemes s)

-- the last line of a text, without its newline, and what stands before that newline
abbrev pub last_line : Text → Option (Text × Text)
last_line [] = none
last_line (c ∷ cs) = elim (last_line cs) [
  | some (a, b) ↦ some (c ∷ a, b)
  | none ↦ if c == 10 then some ([], cs) else none
]

-- the first line of a text, and what stands behind its newline
abbrev pub first_line : Text → Option (Text × Text)
first_line [] = none
first_line (c ∷ cs) =
    let rest = first_line cs in
    if c == 10 then some ([], cs) else elim rest [ none ↦ none | some (a, b) ↦ some (c ∷ a, b) ]

abbrev pub newline : Text
newline = 10 ∷ []

-- the text up to its last line, and that line
abbrev pub cut_last : Text → Text × Text
cut_last s = elim (last_line s) [ none ↦ ([], s) | some (a, b) ↦ (a ++ newline, b) ]

-- the first line of a text, and the text from its newline on
abbrev pub cut_first : Text → Text × Text
cut_first s = elim (first_line s) [ none ↦ (s, []) | some (a, b) ↦ (a, newline ++ b) ]

-- the last text of a list, and the others one after the other
abbrev pub add_first : Text → Option (Text × Text) → Option (Text × Text)
add_first g none = some ([], g)
add_first g (some (p, x)) = some (g ++ p, x)

abbrev pub split_last : List Text → Option (Text × Text)
split_last [] = none
split_last (g ∷ gs) = add_first g (split_last gs)

abbrev pub split_first : List Text → Option (Text × Text)
split_first [] = none
split_first (g ∷ gs) = some (g, join gs)

module _ (uni : Unicode) where
  abbrev pub last_grapheme : Text → Option (Text × Text)
  last_grapheme s = split_last (uni.graphemes s)

  abbrev pub first_grapheme : Text → Option (Text × Text)
  first_grapheme s = split_first (uni.graphemes s)

  -- the graphemes between the start of the line and the caret
  abbrev pub column_of : Text → ℕ
  column_of before = length (uni.graphemes (cut_last before).1)

  -- so many graphemes of a text, or all, and the rest
  abbrev pub advance : ℕ → Text → Text × Text
  advance zero s = ([], s)
  advance (suc n) s = elim (first_grapheme s) [
    | none ↦ ([], s)
    | some (g, rest) ↦ let (p, q) = advance n rest in (g ++ p, q)
  ]

  -- the first text without the graphemes at its end that are separators, or that are not
  pub data WalksLeft (separators : Bool) : Text → Text → Type 0 where
    at_start : {s : Text} → last_grapheme s ≡ none → WalksLeft separators s s
    at_other :
        {s p g : Text}
        → last_grapheme s ≡ some (p, g)
        → (all_separate uni g ≡ separators → true ≡ false)
        → WalksLeft separators s s
    over :
        {s p g t : Text}
        → last_grapheme s ≡ some (p, g)
        → all_separate uni g ≡ separators
        → WalksLeft separators p t
        → WalksLeft separators s t

  -- the same at the beginning of the text
  pub data WalksRight (separators : Bool) : Text → Text → Type 0 where
    at_end : {s : Text} → first_grapheme s ≡ none → WalksRight separators s s
    at_word :
        {s g p : Text}
        → first_grapheme s ≡ some (g, p)
        → (all_separate uni g ≡ separators → true ≡ false)
        → WalksRight separators s s
    past :
        {s g p t : Text}
        → first_grapheme s ≡ some (g, p)
        → all_separate uni g ≡ separators
        → WalksRight separators p t
        → WalksRight separators s t
