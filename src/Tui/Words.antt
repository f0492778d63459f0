-- ===== src/Tui/Words.antt =====
-- The loops of `move_word_left` and `move_word_right` end, and at the end of a walk over graphemes:
-- crates/favetto-tui/src/tui/text_buffer.rs.
use favetto.Common.{
  ℕ, zero, suc, ◌≡◌, ◌≤◌, refl, sym, ap, ◌∙◌, arith, Bool, true, false, Bool-cases, [], ◌++◌, none,
  some, Option-cases, inl, inr, Text, bytes, bytes-append, slice_from, slice_to-append,
  slice_from-append,
}
use mathlib.Core.List.{append_assoc, append-nil}
use favetto.Tui.TextBuffer.{
  Unicode, TextBuffer, slice, prev_grapheme_start, next_grapheme_end, is_separator, all_separate,
  same_bool, skip_left, skip_right,
}
use favetto.Tui.Zipper.{
  IsSegmentation, last_grapheme, first_grapheme, WalksLeft, WalksRight, at_start, at_other, over,
  at_end, at_word, past,
}
use favetto.Tui.Graphemes.{
  offset_of, end_of, last_grapheme-append, first_grapheme-append, last_grapheme-shorter,
  first_grapheme-shorter, prev_grapheme_start-at, next_grapheme_end-at,
}

pub slice-at : (a b c : Text) → slice (a ++ b ++ c) (bytes a) (bytes (a ++ b)) ≡ b
slice-at a b c =
    ap (λ t. slice_from t (bytes a)) (slice_to-append (a ++ b) c) ∙ slice_from-append a b

same_bool-true : (p q : Bool) → same_bool p q ≡ true → q ≡ p
same_bool-true true q h = h
same_bool-true false q h = ground (arith, h)

same_bool-false : (p q : Bool) → same_bool p q ≡ false → q ≡ p → true ≡ false
same_bool-false true q h e = ground (arith, h, e)
same_bool-false false q h e = ground (arith, h, e)

module _ (uni : Unicode) (law : IsSegmentation uni) (v : Text) (n : ℕ) (want : Bool) where
  abbrev b : TextBuffer
  b = record { value = v; caret = n }

  -- where a walk to the left from the end of `p` ends
  pub record WalkedLeft (p : Text) (pos : ℕ) : Type 0 where
    pub rest : Text
    pub passed : Text
    pub walks : WalksLeft uni want p rest
    pub whole : p ≡ rest ++ passed
    pub position : pos ≡ bytes rest

  stay_left : (p : Text) → WalksLeft uni want p p → WalkedLeft p (bytes p)
  stay_left p w = record {
    rest = p;
    passed = [];
    walks = w;
    whole = sym (append-nil p);
    position = refl;
  }

  prev_at :
      (p q : Text)
      → v ≡ p ++ q
      → prev_grapheme_start uni b (bytes p) ≡ offset_of 0 (last_grapheme uni p)
  prev_at p q e =
      ap (λ t. prev_grapheme_start uni (record { value = t; caret = n }) (bytes p)) e
      ∙ prev_grapheme_start-at uni p q n

  separator_at :
      (p g q : Text)
      → v ≡ p ++ g ++ q
      → is_separator uni b (bytes p) (bytes (p ++ g)) ≡ all_separate uni g
  unfolding is_separator
  separator_at p g q e =
      ap (λ t. all_separate uni (slice t (bytes p) (bytes (p ++ g)))) e
      ∙ ap (all_separate uni) (slice-at p g q)

  pub skip_left-Walked :
      (fuel : ℕ) (p q : Text)
      → v ≡ p ++ q
      → bytes p ≤ fuel
      → WalkedLeft p (skip_left uni fuel b want (bytes p))
  unfolding skip_left
  skip_left-Walked zero p q e enough = elim (Option-cases (last_grapheme uni p)) [
    | inl h ↦ stay_left p (at_start h)
    | inr ((p', g), h) ↦ absurd (omega (arith, last_grapheme-shorter uni law p p' g h))
  ]
  skip_left-Walked (suc fuel) p q e enough = elim (Option-cases (last_grapheme uni p)) [
    | inl h ↦
        let stop : prev_grapheme_start uni b (bytes p) ≡ none =
          prev_at p q e ∙ ap (offset_of 0) h in
        rw (skip_left, stop) (stay_left p (at_start h))
    | inr ((p', g), h) ↦
        let cut : p ≡ p' ++ g = last_grapheme-append uni law p p' g h in
        let e' : v ≡ p' ++ g ++ q = e ∙ ap (λ t. t ++ q) cut in
        let start : prev_grapheme_start uni b (bytes p) ≡ some (bytes p') =
          prev_at p q e ∙ ap (offset_of 0) h ∙ ap some (omega arith) in
        let sep : is_separator uni b (bytes p') (bytes p) ≡ all_separate uni g =
          ap (λ t. is_separator uni b (bytes p') (bytes t)) cut ∙ separator_at p' g q e' in
        elim (Bool-cases (same_bool want (all_separate uni g))) [
          | inr other ↦
              rw (skip_left, start, sep, other)
                (stay_left p (at_other h (same_bool-false want (all_separate uni g) other)))
          | inl same ↦
              let walked =
                skip_left-Walked fuel p' (g ++ q) (e' ∙ append_assoc p' g q)
                  (omega (arith, last_grapheme-shorter uni law p p' g h)) in
              rw (skip_left, start, sep, same)
                record {
                  rest = walked.rest;
                  passed = walked.passed ++ g;
                  walks = over h (same_bool-true want (all_separate uni g) same) walked.walks;
                  whole =
                      cut
                      ∙ ap (λ t. t ++ g) walked.whole
                      ∙ append_assoc walked.rest walked.passed g;
                  position = walked.position;
                }
        ]
  ]

  -- where a walk to the right from the beginning of `q` ends, behind `p`
  pub record WalkedRight (p q : Text) (pos : ℕ) : Type 0 where
    pub passed : Text
    pub rest : Text
    pub walks : WalksRight uni want q rest
    pub whole : q ≡ passed ++ rest
    pub position : pos ≡ bytes (p ++ passed)

  stay_right : (p q : Text) → WalksRight uni want q q → WalkedRight p q (bytes p)
  stay_right p q w = record {
    passed = [];
    rest = q;
    walks = w;
    whole = refl;
    position = ap bytes (sym (append-nil p));
  }

  next_at :
      (p q : Text)
      → v ≡ p ++ q
      → next_grapheme_end uni b (bytes p) ≡ end_of (bytes p) (first_grapheme uni q)
  next_at p q e =
      ap (λ t. next_grapheme_end uni (record { value = t; caret = n }) (bytes p)) e
      ∙ next_grapheme_end-at uni p q n

  pub skip_right-Walked :
      (fuel : ℕ) (p q : Text)
      → v ≡ p ++ q
      → bytes q ≤ fuel
      → WalkedRight p q (skip_right uni fuel b want (bytes p))
  unfolding skip_right
  skip_right-Walked zero p q e enough = elim (Option-cases (first_grapheme uni q)) [
    | inl h ↦ stay_right p q (at_end h)
    | inr ((g, q'), h) ↦ absurd (omega (arith, first_grapheme-shorter uni law q g q' h))
  ]
  skip_right-Walked (suc fuel) p q e enough = elim (Option-cases (first_grapheme uni q)) [
    | inl h ↦
        let stop : next_grapheme_end uni b (bytes p) ≡ none =
          next_at p q e ∙ ap (end_of (bytes p)) h in
        rw (skip_right, stop) (stay_right p q (at_end h))
    | inr ((g, q'), h) ↦
        let cut : q ≡ g ++ q' = first_grapheme-append uni law q g q' h in
        let e' : v ≡ p ++ g ++ q' = e ∙ ap (λ t. p ++ t) cut ∙ sym (append_assoc p g q') in
        let stop : next_grapheme_end uni b (bytes p) ≡ some (bytes (p ++ g)) =
          next_at p q e ∙ ap (end_of (bytes p)) h ∙ ap some (sym (bytes-append p g)) in
        let sep : is_separator uni b (bytes p) (bytes (p ++ g)) ≡ all_separate uni g =
          separator_at p g q' e' in
        elim (Bool-cases (same_bool want (all_separate uni g))) [
          | inr other ↦
              rw (skip_right, stop, sep, other)
                (stay_right p q (at_word h (same_bool-false want (all_separate uni g) other)))
          | inl same ↦
              let walked =
                skip_right-Walked fuel (p ++ g) q' e'
                  (omega (arith, first_grapheme-shorter uni law q g q' h)) in
              rw (skip_right, stop, sep, same)
                record {
                  passed = g ++ walked.passed;
                  rest = walked.rest;
                  walks = past h (same_bool-true want (all_separate uni g) same) walked.walks;
                  whole =
                      cut
                      ∙ ap (λ t. g ++ t) walked.whole
                      ∙ sym (append_assoc g walked.passed walked.rest);
                  position = walked.position ∙ ap bytes (append_assoc p g walked.passed);
                }
        ]
  ]
