-- ===== src/Workflow/Accept.antt =====
-- What `validate_create_dag` accepts.
use favetto.Common.{
  ℕ, suc, ◌≡◌, ◌==◌, ◌↔◌, refl, sym, ap, ◌∙◌, subst, arith, Bool, true, false, not, Bool-cases, inl,
  inr, List, [], ◌∷◌, Text, text_eq, text_eq-eq, Option, some, if◌then◌else◌, All, All-mono, Result,
  Result-cases, ok, err, bail_if, is_empty, length, select_where,
}
use favetto.Workflow.Spec.{
  WorkflowCreateTask, CreateError, Graph, contains, keys, unlinked, check_specs, build, roots,
  is_zero, visited, validate_create_dag,
}
use favetto.Workflow.Counts.{
  count, lacking, lacking_none, lacking_zero, All-lacking, All-contains, All-intro, contains-count,
  IsDistinct, count_distinct,
}
use favetto.Workflow.Order.{deps_of, IsOrdered, RunOrder}
use favetto.Workflow.Links.{
  Fits, IsKnown, Built, >>=-ok, check_specs-ok, Fits-check_specs, link_specs-ok, Built-link_specs,
}
use favetto.Workflow.Visits.{Loop, Drained, drain-Drained}

-- a workflow that can run
pub record IsWorkflow (catalog : List Text) (ts : List WorkflowCreateTask) : Type 0 where
  pub some_task : is_empty ts ≡ false
  pub fits : Fits catalog [] ts
  pub known : All (IsKnown (keys ts)) ts
  pub runs : RunOrder ts

-- the items of the list, in some order
abbrev pub Reorders : (List Text → List Text) → Type 0
Reorders hash_order = (x : Text) (xs : List Text) → count x (hash_order xs) ≡ count x xs

IsKnown-mono :
    (xs ys : List Text) (t : WorkflowCreateTask)
    → ((x : Text) → contains x xs ≡ true → contains x ys ≡ true)
    → IsKnown xs t
    → IsKnown ys t
IsKnown-mono xs ys t h = All-mono _ _ _ h

build-ok :
    (catalog : List Text) (ts : List WorkflowCreateTask) (g : Graph)
    → build catalog ts ≡ ok g
    → (is_empty ts ≡ false)
      × Fits catalog [] ts
      × All (IsKnown (keys ts)) ts
      × Built ts (unlinked ts) g
unfolding build
build-ok catalog [] g h = absurd (ground arith)
build-ok catalog (t ∷ ts) g h =
    let all = t ∷ ts in
    let (seen, e, e') = >>=-ok (check_specs catalog [] all) _ g h in
    let (fits, grown) = check_specs-ok catalog [] all seen e in
    let (known, built) = link_specs-ok seen all (unlinked all) g e' in
    (
      refl,
      fits,
      All-mono _ _ all (λ u. IsKnown-mono seen (keys all) u (λ x m. ground (arith, grown x, m)))
          known,
      built,
    )

build-Fits :
    (catalog : List Text) (ts : List WorkflowCreateTask)
    → is_empty ts ≡ false
    → Fits catalog [] ts
    → All (IsKnown (keys ts)) ts
    → (g : Graph) × (build catalog ts ≡ ok g)
unfolding build
build-Fits catalog ts some_task fits known =
    let (seen, e) = Fits-check_specs catalog [] ts fits in
    let grown = (check_specs-ok catalog [] ts seen e).1 in
    let (g, e') = Built-link_specs seen ts (unlinked ts) (
      All-mono _ _ ts (λ t. IsKnown-mono (keys ts) seen t (λ x h. ground (arith, grown x)))
        known) in
    (g, rw (build, some_task, e) e')

count-select_where :
    (x : Text) (p : Text → Bool) (xs : List Text)
    → count x (select_where p xs) ≡ (if p x then count x xs else 0)
count-select_where x p [] = ground arith
count-select_where x p (y ∷ ys) = elim (Bool-cases (text_eq x y)) [
  | inl e ↦
      let same : p x ≡ p y = ap p (text_eq-eq x y e) in
      ground (arith, same, e, count-select_where x p ys)
  | inr e ↦ ground (arith, e, count-select_where x p ys)
]

length-keys : (ts : List WorkflowCreateTask) → length (keys ts) ≡ length ts
length-keys [] = refl
length-keys (t ∷ ts) = ap suc (length-keys ts)

module _ (hash_order : List Text → List Text) (reorders : Reorders hash_order)
    (ts : List WorkflowCreateTask) (g : Graph) (distinct : IsDistinct (keys ts))
    (built : Built ts (unlinked ts) g) where
  start-Loop : Loop ts g.indegree (roots hash_order ts g.indegree) []
  unfolding roots unlinked
  start-Loop = record {
    degrees = λ x. ground (arith, built.degrees x, lacking_none (deps_of ts x));
    stacked = λ x. ground (
      arith,
      built.degrees x,
      lacking_none (deps_of ts x),
      reorders x (select_where (λ k. is_zero (g.indegree k)) (keys ts)),
      count-select_where x (λ k. is_zero (g.indegree k)) (keys ts),
      count_distinct x (keys ts) distinct,
    );
    ordered = tt;
  }

  pub visited-Drained : Drained ts 0 (length ts) (visited hash_order ts g)
  unfolding visited unlinked
  visited-Drained =
      let missing : lacking [] (keys ts) ≡ length ts = lacking_none (keys ts) ∙ length-keys ts in
      subst (λ n. Drained ts 0 n (visited hash_order ts g)) missing
        (drain-Drained ts g.edges distinct (λ k x. ground (arith, built.edges k x))
          (suc (length ts)) 0 g.indegree (roots hash_order ts g.indegree) []
          (omega (arith, missing)) start-Loop)

  module _ {start missing : ℕ} {r : Option ℕ} (d : Drained ts start missing r) where
    -- If no key is missing the visits are a run order.
    all-RunOrder : lacking d.seen (keys ts) ≡ 0 → RunOrder ts
    all-RunOrder none_missing = record {
      order = d.seen;
      same = λ k. ground (
        arith,
        d.stuck k,
        contains-count k d.seen,
        count_distinct k (keys ts) distinct,
        All-contains (λ x. contains x d.seen ≡ true) k (keys ts)
            (lacking_zero d.seen (keys ts) none_missing),
      );
      ordered = d.ordered;
    }

    -- In a run order every key is visited.
    ordered-visited :
        (ks : List Text)
        → IsOrdered ts ks
        → All (λ k. contains k (keys ts) ≡ true) ks
        → All (λ k. contains k d.seen ≡ true) ks
    ordered-visited [] o h = tt
    ordered-visited (k ∷ ks) o h =
        let rest = ordered-visited ks o.1 h.1 in
        let free : lacking d.seen (deps_of ts k) ≡ 0 = All-lacking d.seen (deps_of ts k) (
          All-mono (λ x. contains x ks ≡ true) (λ x. contains x d.seen ≡ true) (deps_of ts k)
            (λ x. All-contains (λ y. contains y d.seen ≡ true) x ks rest) o.0) in
        (ground (arith, d.stuck k, h.0, free, contains-count k d.seen), rest)

    RunOrder-all : RunOrder ts → lacking d.seen (keys ts) ≡ 0
    RunOrder-all o =
        let key_of : (x : Text) → contains x o.order ≡ contains x (keys ts) =
          λ x. ground (arith, o.same x, contains-count x o.order, contains-count x (keys ts)) in
        let members =
          All-intro (λ x. contains x (keys ts) ≡ true) o.order (λ x h. sym (key_of x) ∙ h) in
        let reached = ordered-visited o.order o.ordered members in
        All-lacking d.seen (keys ts) (
          All-intro (λ x. contains x d.seen ≡ true) (keys ts)
            (λ x h. All-contains (λ y. contains y d.seen ≡ true) x o.order reached (key_of x ∙ h)))

module _ (hash_order : List Text → List Text) (catalog : List Text) (ts : List WorkflowCreateTask)
    (reorders : Reorders hash_order) where
  -- the last test of the check, on the visits of a graph that was built
  last_test :
      (g : Graph)
      → build catalog ts ≡ ok g
      → (d : Drained ts 0 (length ts) (visited hash_order ts g)) × (validate_create_dag hash_order
            catalog ts
          ≡ some (bail_if (not (d.visits == length ts)) CreateError.cycle))
        × Fits catalog [] ts
  unfolding validate_create_dag
  last_test g e =
      let (some_task, fits, known, built) = build-ok catalog ts g e in
      let d = visited-Drained hash_order reorders ts g fits.distinct built in
      (d, rw (validate_create_dag, e, d.returns) refl, fits)

  -- The check of a submitted workflow returns, whatever the order of the hash maps: its search
  -- for a cycle ends, and no degree underflows.
  pub validate_create_dag-returns :
      (r : Result CreateError Unit) × (validate_create_dag hash_order catalog ts ≡ some r)
  unfolding validate_create_dag
  validate_create_dag-returns = elim (Result-cases (build catalog ts)) [
    | inl (g, e) ↦ let (d, tested, fits) = last_test g e in (_, tested)
    | inr (e, refused) ↦ (err e, rw (validate_create_dag, refused) refl)
  ]

  -- The check accepts exactly the workflows that can run: there is a task, every key is distinct
  -- and not blank, every name is in the catalog, every dependency is a key of the request, and the
  -- tasks have an order in which each comes after all that it depends on.
  pub validate_create_dag-IsWorkflow :
      (validate_create_dag hash_order catalog ts ≡ some (ok tt)) ↔ IsWorkflow catalog ts
  unfolding validate_create_dag
  validate_create_dag-IsWorkflow = (accepted, complete)
    where
      accepted : validate_create_dag hash_order catalog ts ≡ some (ok tt) → IsWorkflow catalog ts
      accepted h = elim (Result-cases (build catalog ts)) [
        | inl (g, e) ↦
            let (some_task, fits, known, built) = build-ok catalog ts g e in
            let (d, tested, _) = last_test g e in
            let all_visited : some (bail_if (not (d.visits == length ts)) CreateError.cycle)
                ≡ some (ok tt) =
              sym tested ∙ h in
            record {
              some_task = some_task;
              fits = fits;
              known = known;
              runs =
                  all-RunOrder hash_order reorders ts g fits.distinct built d
                    (ground (arith, d.total, all_visited));
            }
        | inr (e, refused) ↦ absurd (ground (arith, h, refused))
      ]

      complete : IsWorkflow catalog ts → validate_create_dag hash_order catalog ts ≡ some (ok tt)
      complete w =
          let (g, e) = build-Fits catalog ts w.some_task w.fits w.known in
          let (some_task, fits, known, built) = build-ok catalog ts g e in
          let (d, tested, _) = last_test g e in
          let reached = RunOrder-all hash_order reorders ts g fits.distinct built d w.runs in
          let test : not (d.visits == length ts) ≡ false = ground (arith, d.total, reached) in
          tested ∙ ap (λ b. some (bail_if b CreateError.cycle)) test
