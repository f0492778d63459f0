-- ===== src/Tui/TextBuffer.antt =====
-- The editor of the text inputs: crates/favetto-tui/src/tui/text_buffer.rs. Offsets count the bytes
-- of the UTF-8 encoding; every slice is taken at boundaries.
use favetto.Common.{
  ℕ, zero, suc, ◌+◌, ◌-◌, ◌==◌, Bool, true, false, not, ◌&&◌, List, [], ◌∷◌, ◌++◌, length, Option,
  none, some, if◌then◌else◌, ltb, leb, Text, bytes, slice_to, slice_from,
}

-- What the code takes from elsewhere: `graphemes(true)` of the crate unicode-segmentation, and the
-- Unicode tables of `char::is_alphanumeric`.
pub record Unicode : Type 0 where
  pub graphemes : Text → List Text
  pub is_alphanumeric : ℕ → Bool

pub record TextBuffer : Type 0 where
  pub value : Text
  pub caret : ℕ

-- `TextBuffer::new`
unfoldable pub new_buffer : Text → TextBuffer
new_buffer value = record { value = value; caret = bytes value }

-- `&s[start..end]`
abbrev pub slice : Text → ℕ → ℕ → Text
slice s start stop = slice_from (slice_to s stop) start

-- `value.replace_range(start..end, "")`
abbrev pub remove_range : ℕ → ℕ → Text → Text
remove_range start stop s = slice_to s start ++ slice_from s stop

unfoldable pub insert_str : Text → TextBuffer → TextBuffer
insert_str s b = record {
  value = slice_to b.value b.caret ++ s ++ slice_from b.value b.caret;
  caret = b.caret + bytes s;
}

unfoldable pub insert_char : ℕ → TextBuffer → TextBuffer
unfolding insert_str
insert_char c b = insert_str (c ∷ []) b

-- `str::rfind('\n')` and `str::find('\n')`, as byte offsets
unfoldable pub rfind_newline : Text → Option ℕ
rfind_newline [] = none
rfind_newline (c ∷ cs) = elim (rfind_newline cs) [
  | some i ↦ some (bytes (c ∷ []) + i)
  | none ↦ if c == 10 then some 0 else none
]

unfoldable pub find_newline : Text → Option ℕ
find_newline [] = none
find_newline (c ∷ cs) =
    let rest = find_newline cs in
    if c == 10 then some 0 else elim rest [ none ↦ none | some i ↦ some (bytes (c ∷ []) + i) ]

-- `.map(|i| i + 1).unwrap_or(0)`
abbrev pub after_newline : Option ℕ → ℕ
after_newline none = 0
after_newline (some i) = i + 1

-- `.map(|i| start + i).unwrap_or(len)`
abbrev pub from_or : ℕ → ℕ → Option ℕ → ℕ
from_or start len none = len
from_or start len (some i) = start + i

unfoldable pub line_start : TextBuffer → ℕ
unfolding rfind_newline
line_start b = after_newline (rfind_newline (slice_to b.value b.caret))

unfoldable pub line_end : TextBuffer → ℕ
unfolding find_newline
line_end b = from_or b.caret (bytes b.value) (find_newline (slice_from b.value b.caret))

unfoldable pub home : TextBuffer → TextBuffer
unfolding line_start
home b = record b { caret = line_start b }

-- `TextBuffer::end`
unfoldable pub to_line_end : TextBuffer → TextBuffer
unfolding line_end
to_line_end b = record b { caret = line_end b }

unfoldable pub delete_to_line_start : TextBuffer → TextBuffer
unfolding line_start
delete_to_line_start b = record {
  value = remove_range (line_start b) b.caret b.value;
  caret = line_start b;
}

unfoldable pub delete_to_line_end : TextBuffer → TextBuffer
unfolding line_end
delete_to_line_end b = record b { value = remove_range b.caret (line_end b) b.value }

-- `grapheme_indices(true).next_back()`, on the graphemes behind the offset
abbrev pub last_index : ℕ → List Text → Option ℕ
last_index offset [] = none
last_index offset (g ∷ gs) = elim gs [ [] ↦ some offset | _ ↦ last_index (offset + bytes g) gs ]

-- `==` on bool
abbrev pub same_bool : Bool → Bool → Bool
same_bool true q = q
same_bool false q = not q

module _ (uni : Unicode) where
  unfoldable pub prev_grapheme_start : TextBuffer → ℕ → Option ℕ
  prev_grapheme_start b from = last_index 0 (uni.graphemes (slice_to b.value from))

  unfoldable pub next_grapheme_end : TextBuffer → ℕ → Option ℕ
  next_grapheme_end b from = elim (uni.graphemes (slice_from b.value from)) [
    | [] ↦ none
    | g ∷ _ ↦ some (from + bytes g)
  ]

  -- `prev_boundary` and `next_boundary`
  abbrev pub prev_boundary : TextBuffer → Option ℕ
  prev_boundary b = prev_grapheme_start b b.caret

  abbrev pub next_boundary : TextBuffer → Option ℕ
  next_boundary b = next_grapheme_end b b.caret

  unfoldable pub backspace : TextBuffer → TextBuffer
  unfolding prev_grapheme_start
  backspace b = elim (prev_boundary b) [
    | none ↦ b
    | some start ↦ record { value = remove_range start b.caret b.value; caret = start }
  ]

  unfoldable pub delete : TextBuffer → TextBuffer
  unfolding next_grapheme_end
  delete b = elim (next_boundary b) [
    | none ↦ b
    | some stop ↦ record b { value = remove_range b.caret stop b.value }
  ]

  unfoldable pub move_left : TextBuffer → TextBuffer
  unfolding prev_grapheme_start
  move_left b = elim (prev_boundary b) [ none ↦ b | some start ↦ record b { caret = start } ]

  unfoldable pub move_right : TextBuffer → TextBuffer
  unfolding next_grapheme_end
  move_right b = elim (next_boundary b) [ none ↦ b | some stop ↦ record b { caret = stop } ]

  -- no character of the grapheme is a letter, a digit or `_`
  unfoldable pub all_separate : Text → Bool
  all_separate [] = true
  all_separate (c ∷ cs) = not (uni.is_alphanumeric c) && not (c == 95) && all_separate cs

  unfoldable pub is_separator : TextBuffer → ℕ → ℕ → Bool
  unfolding all_separate
  is_separator b start stop = all_separate (slice b.value start stop)

  -- A loop of `move_word_left`: back over the graphemes that are separators, or that are not. Each
  -- round moves by a byte at least, so the position is enough fuel.
  unfoldable pub skip_left : ℕ → TextBuffer → Bool → ℕ → ℕ
  unfolding prev_grapheme_start is_separator
  skip_left zero b separators pos = pos
  skip_left (suc fuel) b separators pos = elim (prev_grapheme_start b pos) [
    | none ↦ pos
    | some start ↦
        let rest = skip_left fuel b separators start in
        if same_bool separators (is_separator b start pos) then rest else pos
  ]

  -- a loop of `move_word_right`
  unfoldable pub skip_right : ℕ → TextBuffer → Bool → ℕ → ℕ
  unfolding next_grapheme_end is_separator
  skip_right zero b separators pos = pos
  skip_right (suc fuel) b separators pos = elim (next_grapheme_end b pos) [
    | none ↦ pos
    | some stop ↦
        let rest = skip_right fuel b separators stop in
        if same_bool separators (is_separator b pos stop) then rest else pos
  ]

  unfoldable pub move_word_left : TextBuffer → TextBuffer
  unfolding skip_left
  move_word_left b =
      let pos = skip_left (bytes b.value) b true b.caret in
      record b { caret = skip_left (bytes b.value) b false pos }

  unfoldable pub move_word_right : TextBuffer → TextBuffer
  unfolding skip_right
  move_word_right b =
      let pos = skip_right (bytes b.value) b false b.caret in
      record b { caret = skip_right (bytes b.value) b true pos }

  unfoldable pub delete_word_before : TextBuffer → TextBuffer
  unfolding move_word_left
  delete_word_before b =
      let moved = move_word_left b in
      record moved { value = remove_range moved.caret b.caret moved.value }

  -- the loop of `column`, over the graphemes that are left to skip
  unfoldable pub column_from : ℕ → Text → ℕ → ℕ → ℕ
  column_from zero s stop pos = pos
  column_from (suc target) s stop pos = elim (uni.graphemes (slice s pos stop)) [
    | [] ↦ pos
    | g ∷ _ ↦
        let rest = column_from target s stop (pos + bytes g) in if ltb pos stop then rest else pos
  ]

  unfoldable pub column : TextBuffer → ℕ → ℕ → ℕ
  unfolding line_start column_from
  column b start stop =
      column_from (length (uni.graphemes (slice b.value (line_start b) b.caret))) b.value stop start

  unfoldable pub line_up : TextBuffer → TextBuffer
  unfolding line_start rfind_newline column
  line_up b =
      let start = line_start b in
      let prev_end = start - 1 in
      let prev_start = after_newline (rfind_newline (slice_to b.value prev_end)) in
      record b { caret = if start == 0 then 0 else column b prev_start prev_end }

  unfoldable pub line_down : TextBuffer → TextBuffer
  unfolding line_end find_newline column
  line_down b =
      let next_start = line_end b + 1 in
      let next_end =
        from_or next_start (bytes b.value) (find_newline (slice_from b.value next_start)) in
      record b {
        caret =
            if leb (bytes b.value) (line_end b)
            then bytes b.value
            else column b next_start next_end;
      }
