-- ===== src/Catalog/Names.antt =====
-- The order of names is total.
use favetto.Common.{◌≡◌, refl, arith, true, ◌||◌, [], ◌∷◌, Text, text_eq}
use favetto.Catalog.Graph.{text_le}

pub text_le_total : (a b : Text) → (text_le a b || text_le b a) ≡ true
unfolding text_le
text_le_total [] b = refl
text_le_total (x ∷ xs) [] = refl
text_le_total (x ∷ xs) (y ∷ ys) = ground (arith, text_le_total xs ys)

-- names that come before each other are the same
pub text_le_antisym : (a b : Text) → text_le a b ≡ true → text_le b a ≡ true → text_eq a b ≡ true
unfolding text_le text_eq
text_le_antisym [] [] h k = refl
text_le_antisym [] (y ∷ ys) h k = absurd (ground (arith, k))
text_le_antisym (x ∷ xs) [] h k = absurd (ground (arith, h))
text_le_antisym (x ∷ xs) (y ∷ ys) h k = ground (arith, h, k, text_le_antisym xs ys)

pub text_le_trans : (a b c : Text) → text_le a b ≡ true → text_le b c ≡ true → text_le a c ≡ true
unfolding text_le
text_le_trans [] b c h k = refl
text_le_trans (x ∷ xs) [] c h k = absurd (ground (arith, h))
text_le_trans (x ∷ xs) (y ∷ ys) [] h k = absurd (ground (arith, k))
text_le_trans (x ∷ xs) (y ∷ ys) (z ∷ zs) h k = ground (arith, h, k, text_le_trans xs ys zs)
