-- ===== src/Executor/Truncate.antt =====
-- The byte caps on texts: crates/favetto/src/executor.rs. Positions are byte offsets into the UTF-8
-- encoding of a text.
use favetto.Common.{
  checked_to, checked_from, Option, some, none, [], bytes, is_char_boundary, ℕ, zero, suc, ◌-◌, ◌*◌,
  ◌/◌, min, ◌==◌, leb, if◌then◌else◌, Bool, true, false, ◌||◌, Text, codes, ◌++◌, decimal,
}

-- the loop of `floor_char_boundary`
unfoldable pub floor_from : Text → ℕ → ℕ
floor_from s zero = 0
floor_from s (suc i) =
    let rest = floor_from s i in if is_char_boundary s (suc i) then suc i else rest

unfoldable pub floor_char_boundary : Text → ℕ → ℕ
unfolding floor_from
floor_char_boundary s idx = floor_from s (min idx (bytes s))

-- The loop of `ceil_char_boundary`, with the distance to the end as fuel.
unfoldable pub ceil_from : Text → ℕ → ℕ → ℕ
ceil_from s zero i = i
ceil_from s (suc n) i = let rest = ceil_from s n (suc i) in if is_char_boundary s i then i else rest

unfoldable pub ceil_char_boundary : Text → ℕ → ℕ
unfolding ceil_from
ceil_char_boundary s idx = let i = min idx (bytes s) in ceil_from s (bytes s - i) i

-- the two halves of what `truncate_text` keeps
abbrev pub head_end : Text → ℕ → ℕ
head_end s max = floor_char_boundary s (max * 3 / 4)

abbrev pub tail_start : Text → ℕ → ℕ
tail_start s max = ceil_char_boundary s (bytes s - (max - max * 3 / 4))

abbrev pub marker : ℕ → Text
marker removed = codes "\n… [truncated " ++ decimal removed ++ codes " bytes] …\n"

-- `truncate_text`, with `none` for a panic of a slice
unfoldable pub truncate_or_panic : Text → ℕ → Option (Text × Bool)
unfolding checked_to checked_from
truncate_or_panic s max =
    if leb (bytes s) max || max == 0
    then some (s, false)
    else let h = head_end s max in
      let t = tail_start s max in
      elim (checked_to s h) [
        | none ↦ none
        | some head ↦ elim (checked_from s t) [
          | none ↦ none
          | some tail ↦ some (head ++ marker (bytes s - h - (bytes s - t)) ++ tail, true)
        ]
      ]

-- what the callers get; behind a panic nothing runs, and the text is empty here
unfoldable pub truncate_text : Text → ℕ → Text × Bool
unfolding truncate_or_panic
truncate_text s max = elim (truncate_or_panic s max) [ some kept ↦ kept | none ↦ ([], true) ]

-- where `tail_truncate` cuts
abbrev pub tail_offset : Text → ℕ → ℕ
tail_offset s max = ceil_char_boundary s (bytes s - max)

abbrev pub ellipsis : Text
ellipsis = codes "…"

-- `tail_truncate`, with `none` for a panic
unfoldable pub tail_or_panic : Text → ℕ → Option Text
unfolding checked_from
tail_or_panic s max =
    if leb (bytes s) max then some s else elim (checked_from s (tail_offset s max)) [
      | some tail ↦ some (ellipsis ++ tail)
      | none ↦ none
    ]

-- what the callers get; behind a panic nothing runs, and the text is empty here
unfoldable pub tail_truncate : Text → ℕ → Text
unfolding tail_or_panic
tail_truncate s max = elim (tail_or_panic s max) [ some t ↦ t | none ↦ [] ]
