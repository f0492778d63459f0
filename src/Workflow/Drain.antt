-- ===== src/Workflow/Drain.antt =====
-- The loop of `validate_create_dag` that takes the keys without open dependencies away.
use favetto.Common.{
  ℕ, suc, ◌+◌, ◌-◌, ◌≡◌, ◌==◌, ◌≤◌, refl, sym, subst, arith, Bool, true, false, ◌&&◌, Bool-cases,
  inl, inr, List, [], ◌∷◌, Text, text_eq, text_eq-eq, text_eq_refl, Option, some, none,
  if◌then◌else◌, ltb,
}
use favetto.Workflow.Spec.{Degrees, relax_one, relax}
use favetto.Workflow.Counts.{count}

-- the degrees that stand for a function on the known keys
abbrev pub Reads : Degrees → (Text → Bool) → (Text → ℕ) → Type 0
Reads deg known f = (x : Text) → deg x ≡ (if known x then some (f x) else none)

-- what the loop over the successors of a key does to the degrees and the stack
pub record Relaxed (ks : List Text) (known : Text → Bool) (f : Text → ℕ) (ready : List Text)
    (r : Option (Degrees × List Text)) : Type 0 where
  pub result : Degrees × List Text
  pub returns : r ≡ some result
  pub reads : Reads result.0 known (λ x. f x - count x ks)
  pub pushed :
      (x : Text)
      → count x result.1
        ≡ count x ready + (if known x && (ltb 0 (count x ks) && f x == count x ks) then 1 else 0)

-- one known successor, whose degree is not 0
relax_one-known :
    (k : Text) (known : Text → Bool) (f : Text → ℕ) (n : ℕ) (deg : Degrees) (ready : List Text)
    → Reads deg known f
    → known k ≡ true
    → f k ≡ suc n
    → relax_one k deg ready
      ≡ some ((λ x. if text_eq x k then some n else deg x), (if n == 0 then k ∷ ready else ready))
unfolding relax_one
relax_one-known k known f n deg ready reads there e =
    let read : deg k ≡ some (suc n) = ground (arith, reads k, there, e) in rw (relax_one, read) refl

relax_one-unknown :
    (k : Text) (known : Text → Bool) (f : Text → ℕ) (deg : Degrees) (ready : List Text)
    → Reads deg known f
    → known k ≡ false
    → relax_one k deg ready ≡ some (deg, ready)
unfolding relax_one
relax_one-unknown k known f deg ready reads absent =
    let read : deg k ≡ none = ground (arith, reads k, absent) in rw (relax_one, read) refl

module _ (k : Text) (ks : List Text) (known : Text → Bool) (f : Text → ℕ) (deg : Degrees)
    (ready : List Text) (reads : Reads deg known f) where
  skip-Relaxed :
      known k ≡ false
      → Relaxed ks known f ready (relax ks deg ready)
      → Relaxed (k ∷ ks) known f ready (relax (k ∷ ks) deg ready)
  unfolding relax
  skip-Relaxed absent rest =
      let other : (x : Text) → text_eq x k ≡ true → known x ≡ false =
        λ x e. subst (λ y. known y ≡ false) (sym (text_eq-eq x k e)) absent in
      record {
        result = rest.result;
        returns = rw (relax, relax_one-unknown k known f deg ready reads absent) rest.returns;
        reads = λ x. ground (arith, rest.reads x, other x);
        pushed = λ x. ground (arith, rest.pushed x, other x);
      }

  module _ (n : ℕ) (there : known k ≡ true) (e : f k ≡ suc n) where
    -- the degrees and the stack after the first successor
    abbrev f₁ : Text → ℕ
    f₁ x = if text_eq x k then n else f x

    abbrev deg₁ : Degrees
    deg₁ x = if text_eq x k then some n else deg x

    abbrev ready₁ : List Text
    ready₁ = if n == 0 then k ∷ ready else ready

    same_text : (x : Text) → text_eq x k ≡ true → (f x ≡ suc n) × (known x ≡ true)
    same_text x eq =
        subst (λ y. (f y ≡ suc n) × (known y ≡ true)) (sym (text_eq-eq x k eq)) (e, there)

    take-Relaxed :
        ((x : Text) → known x ≡ true → count x (k ∷ ks) ≤ f x)
        → Relaxed ks known f₁ ready₁ (relax ks deg₁ ready₁)
        → Relaxed (k ∷ ks) known f ready (relax (k ∷ ks) deg ready)
    unfolding relax
    take-Relaxed le rest = record {
      result = rest.result;
      returns = rw (relax, relax_one-known k known f n deg ready reads there e) rest.returns;
      reads = λ x. ground (arith, rest.reads x, same_text x);
      pushed = λ x. ground (arith, rest.pushed x, same_text x, le x);
    }

-- The degrees never fall below 0, each known one loses as much as its key stands among the
-- successors, and a key is pushed once if its degree falls to 0.
pub relax-Relaxed :
    (ks : List Text) (known : Text → Bool) (f : Text → ℕ) (deg : Degrees) (ready : List Text)
    → Reads deg known f
    → ((x : Text) → known x ≡ true → count x ks ≤ f x)
    → Relaxed ks known f ready (relax ks deg ready)
unfolding relax
relax-Relaxed [] known f deg ready reads le = record {
  result = (deg, ready);
  returns = refl;
  reads = λ x. ground (arith, reads x);
  pushed = λ x. ground arith;
}
relax-Relaxed (k ∷ ks) known f deg ready reads le = elim (Bool-cases (known k)) [
  | inr absent ↦
      skip-Relaxed k ks known f deg ready reads absent
        (relax-Relaxed ks known f deg ready reads (λ x h. ground (arith, le x h)))
  | inl there ↦
      let n = f k - 1 in
      let e : f k ≡ suc n = ground (arith, le k there, text_eq_refl k) in
      let same = same_text k ks known f deg ready reads n there e in
      take-Relaxed k ks known f deg ready reads n there e le (
        relax-Relaxed ks known (λ x. if text_eq x k then n else f x)
          (λ x. if text_eq x k then some n else deg x) (if n == 0 then k ∷ ready else ready)
          (λ x. ground (arith, reads x, same x)) (λ x h. ground (arith, le x h, same x)))
]
