-- ===== src/Workflow/Visits.antt =====
-- Kahn's algorithm of `validate_create_dag` ends, and the keys that it visits are in a run order.
use favetto.Common.{
  ℕ, zero, suc, ◌+◌, ◌≡◌, ◌==◌, ◌<◌, refl, arith, true, false, ◌&&◌, List, [], ◌∷◌, Text,
  text_eq_refl, Option, some, if◌then◌else◌,
}
use favetto.Workflow.Spec.{WorkflowCreateTask, Degrees, Edges, contains, keys, relax, drain}
use favetto.Workflow.Counts.{
  count, lacking, lacking-cons, lacking_zero, contains-count, IsDistinct, count_distinct,
}
use favetto.Workflow.Order.{deps_of, IsOrdered}
use favetto.Workflow.Drain.{Reads, relax-Relaxed}

module _ (ts : List WorkflowCreateTask) where
  -- how many dependencies of the key the visited keys lack
  abbrev pub open_deps : List Text → Text → ℕ
  open_deps seen x = lacking seen (deps_of ts x)

  -- whether the key is visited or on the stack
  abbrev pub free : List Text → Text → ℕ
  free seen x = if contains x (keys ts) && open_deps seen x == 0 then 1 else 0

  -- between two rounds of the loop
  pub record Loop (deg : Degrees) (ready : List Text) (seen : List Text) : Type 0 where
    pub degrees : Reads deg (λ x. contains x (keys ts)) (open_deps seen)
    pub stacked : (x : Text) → count x ready + count x seen ≡ free seen x
    pub ordered : IsOrdered ts seen

  -- after the loop, from `start` visits that left `missing` keys
  pub record Drained (start missing : ℕ) (r : Option ℕ) : Type 0 where
    pub seen : List Text
    pub visits : ℕ
    pub returns : r ≡ some visits
    pub total : visits + lacking seen (keys ts) ≡ start + missing
    pub stuck : (x : Text) → count x seen ≡ free seen x
    pub ordered : IsOrdered ts seen

  module _ (edges : Edges) (distinct : IsDistinct (keys ts))
      (counted : (k x : Text) → count x (edges k) ≡ count k (deps_of ts x)) where
    -- what the top of the stack is
    top :
        {deg : Degrees} {k : Text} {ready seen : List Text}
        → Loop deg (k ∷ ready) seen
        → (contains k (keys ts) ≡ true)
          × (open_deps seen k ≡ 0)
          × (contains k seen ≡ false)
          × (count k ready ≡ 0)
    top {k = k} {ready = ready} {seen = seen} l =
        ground (arith, l.stacked k, text_eq_refl k, contains-count k seen)

    round :
        (deg : Degrees) (k : Text) (ready seen : List Text)
        → Loop deg (k ∷ ready) seen
        → (s : Degrees × List Text) × (relax (edges k) deg ready ≡ some s) × Loop s.0 s.1 (k ∷ seen)
    round deg k ready seen l =
        let (known, zero_open, new, unstacked) = top l in
        let less : (x : Text) → open_deps (k ∷ seen) x + count x (edges k) ≡ open_deps seen x =
          λ x. ground (arith, counted k x, lacking-cons k seen (deps_of ts x) new) in
        let r =
          relax-Relaxed (edges k) (λ x. contains x (keys ts)) (open_deps seen) deg ready l.degrees
            (λ x h. ground (arith, less x)) in
        (
          r.result,
          r.returns,
          record {
            degrees = λ x. ground (arith, r.reads x, less x);
            stacked = λ x. ground (arith, r.pushed x, less x, l.stacked x);
            ordered = (lacking_zero seen (deps_of ts k) zero_open, l.ordered);
          },
        )

    -- With fuel for the keys that are not visited, the loop ends, and no degree overflows.
    pub drain-Drained :
        (fuel start : ℕ) (deg : Degrees) (ready seen : List Text)
        → lacking seen (keys ts) < fuel
        → Loop deg ready seen
        → Drained start (lacking seen (keys ts)) (drain fuel edges deg ready start)
    unfolding drain
    drain-Drained zero start deg ready seen enough l = absurd (omega arith)
    drain-Drained (suc fuel) start deg [] seen enough l = record {
      seen = seen;
      visits = start;
      returns = refl;
      total = refl;
      stuck = λ x. ground (arith, l.stacked x);
      ordered = l.ordered;
    }
    drain-Drained (suc fuel) start deg (k ∷ ready) seen enough l =
        let (known, zero_open, new, unstacked) = top l in
        let (s, e, l') = round deg k ready seen l in
        let fewer : suc (lacking (k ∷ seen) (keys ts)) ≡ lacking seen (keys ts) =
          ground (arith, lacking-cons k seen (keys ts) new, count_distinct k (keys ts) distinct) in
        let rest = drain-Drained fuel (suc start) s.0 s.1 (k ∷ seen) (omega (arith, fewer)) l' in
        record {
          seen = rest.seen;
          visits = rest.visits;
          returns = rw (drain, e) rest.returns;
          total = omega (arith, rest.total, fewer);
          stuck = rest.stuck;
          ordered = rest.ordered;
        }
