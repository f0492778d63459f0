-- ===== src/Common/Bytes.antt =====
-- The UTF-8 encoding of a text, by its byte offsets: `str::len`, `str::is_char_boundary` and slices.
use Prim.Native.Nat.{ℕ, ◌+◌, ◌-◌, ◌<◌}
use mathlib.Core.Path.{◌≡◌, refl}
use mathlib.Core.Bool.{Bool, true, ◌&&◌, ◌||◌}
use mathlib.Core.Option.{Option, none, some}
use mathlib.Core.List.{[], ◌∷◌, ◌++◌}
use native.Mathlib.Omega.{arith}
use favetto.Common.Tests.{◌==◌, leb, ltb, if◌then◌else◌}
use favetto.Common.Texts.{Text}

-- `char::len_utf8`
unfoldable pub len_utf8 : ℕ → ℕ
len_utf8 c = if ltb c 0x80 then 1 else if ltb c 0x800 then 2 else if ltb c 0x10000 then 3 else 4

-- `str::len`
unfoldable pub bytes : Text → ℕ
bytes [] = 0
bytes (c ∷ cs) = len_utf8 c + bytes cs

-- `str::is_char_boundary`
unfoldable pub is_char_boundary : Text → ℕ → Bool
is_char_boundary [] i = i == 0
is_char_boundary (c ∷ cs) i = i == 0 || (leb (len_utf8 c) i && is_char_boundary cs (i - len_utf8 c))

-- `&s[..i]` and `&s[i..]`, at a boundary. Inside a character the source panics; where that could
-- show, the cut is checked before (`checked_to`, `checked_from`).
unfoldable pub slice_to : Text → ℕ → Text
slice_to [] i = []
slice_to (c ∷ cs) i = let rest = slice_to cs (i - len_utf8 c) in if i == 0 then [] else c ∷ rest

unfoldable pub slice_from : Text → ℕ → Text
slice_from [] i = []
slice_from (c ∷ cs) i = let rest = slice_from cs (i - len_utf8 c) in if i == 0 then c ∷ cs else rest

-- the same with their check; `none` is the panic
unfoldable pub checked_to : Text → ℕ → Option Text
checked_to s end = if is_char_boundary s end then some (slice_to s end) else none

unfoldable pub checked_from : Text → ℕ → Option Text
checked_from s start = if is_char_boundary s start then some (slice_from s start) else none

pub len_utf8_pos : (c : ℕ) → 0 < len_utf8 c
unfolding len_utf8
len_utf8_pos c = ground arith

pub bytes-append : (s t : Text) → bytes (s ++ t) ≡ bytes s + bytes t
unfolding bytes
bytes-append [] t = omega arith
bytes-append (c ∷ s) t = omega (arith, bytes-append s t)

-- the start and the end of a text are boundaries
pub boundary_start : (s : Text) → is_char_boundary s 0 ≡ true
unfolding is_char_boundary
boundary_start [] = refl
boundary_start (c ∷ s) = refl

pub boundary_end : (s : Text) → is_char_boundary s (bytes s) ≡ true
unfolding is_char_boundary bytes
boundary_end [] = refl
boundary_end (c ∷ s) = ground (arith, boundary_end s)

-- A boundary cuts the text in two, and the first part has as many bytes as its offset says.
pub slices :
    (s : Text) (i : ℕ)
    → is_char_boundary s i ≡ true
    → (slice_to s i ++ slice_from s i ≡ s) × (bytes (slice_to s i) ≡ i)
unfolding is_char_boundary slice_to slice_from bytes
slices [] i h = ground arith
slices (c ∷ s) i h = ground (arith, slices s (i - len_utf8 c), len_utf8_pos c)

-- At the end of the first of two texts, their slices are the texts.
pub slice_to-append : (l r : Text) → slice_to (l ++ r) (bytes l) ≡ l
unfolding slice_to bytes
slice_to-append [] [] = refl
slice_to-append [] (c ∷ r) = refl
slice_to-append (c ∷ l) r = ground (arith, slice_to-append l r, len_utf8_pos c)

pub slice_from-append : (l r : Text) → slice_from (l ++ r) (bytes l) ≡ r
unfolding slice_from bytes
slice_from-append [] [] = refl
slice_from-append [] (c ∷ r) = refl
slice_from-append (c ∷ l) r = ground (arith, slice_from-append l r, len_utf8_pos c)

pub boundary-append : (l r : Text) → is_char_boundary (l ++ r) (bytes l) ≡ true
unfolding is_char_boundary bytes
boundary-append [] r = boundary_start r
boundary-append (c ∷ l) r = ground (arith, boundary-append l r)
