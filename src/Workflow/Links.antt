-- ===== src/Workflow/Links.antt =====
-- The checks and the graph that `validate_create_dag` makes before it looks for a cycle.
use favetto.Common.{
  ℕ, ◌+◌, ◌≡◌, refl, sym, ap, subst, arith, Bool, true, false, not, ◌||◌, List, [], ◌∷◌, Text,
  text_eq, Option, some, none, if◌then◌else◌, All, Result, ok, err, bail_if, ◌>>◌, ◌>>=◌, is_empty,
  trim, length, length-append, count_where-append,
}
use favetto.Workflow.Spec.{
  WorkflowCreateTask, CreateError, Graph, contains, keys, dependencies, check_specs, bump,
  push_edge, link_deps, link_specs,
}
use favetto.Workflow.Counts.{count, text_eq_sym, IsDistinct}
use favetto.Workflow.Order.{deps_of}

-- the key is not blank, and the name is in the catalog
abbrev pub IsNamed : List Text → WorkflowCreateTask → Type 0
IsNamed catalog t = (is_empty (trim t.key) ≡ false) × (contains t.name catalog ≡ true)

-- the tasks can be added to those with the keys `seen`
pub record Fits (catalog seen : List Text) (ts : List WorkflowCreateTask) : Type 0 where
  pub named : All (IsNamed catalog) ts
  pub distinct : IsDistinct (keys ts)
  pub fresh : All (λ x. contains x seen ≡ false) (keys ts)

bail_if-ok :
    {A : Type 0} (b : Bool) (e : CreateError) (r : Result CreateError A) (a : A)
    → (bail_if b e >> r) ≡ ok a
    → (b ≡ false) × (r ≡ ok a)
bail_if-ok true e r a h = absurd (ground arith)
bail_if-ok false e r a h = (refl, h)

guards-ok :
    {A : Type 0} (a b c : Bool) (e₁ e₂ e₃ : CreateError) (r : Result CreateError A) (x : A)
    → (bail_if a e₁ >> bail_if b e₂ >> bail_if c e₃ >> r) ≡ ok x
    → (a ≡ false) × (b ≡ false) × (c ≡ false) × (r ≡ ok x)
guards-ok a b c e₁ e₂ e₃ r x h = ground (arith, h)

split_fresh :
    (k : Text) (seen xs : List Text)
    → All (λ x. contains x (k ∷ seen) ≡ false) xs
    → (contains k xs ≡ false) × All (λ x. contains x seen ≡ false) xs
split_fresh k seen [] h = (refl, tt)
split_fresh k seen (x ∷ xs) h =
    let (new, rest) = split_fresh k seen xs h.1 in
    (ground (arith, h.0, text_eq_sym k x, new), (ground (arith, h.0), rest))

join_fresh :
    (k : Text) (seen xs : List Text)
    → contains k xs ≡ false
    → All (λ x. contains x seen ≡ false) xs
    → All (λ x. contains x (k ∷ seen) ≡ false) xs
join_fresh k seen [] new h = tt
join_fresh k seen (x ∷ xs) new h =
    (ground (arith, h.0, text_eq_sym k x), join_fresh k seen xs (ground arith) h.1)

pub check_specs-ok :
    (catalog seen : List Text) (ts : List WorkflowCreateTask) (known : List Text)
    → check_specs catalog seen ts ≡ ok known
    → Fits catalog seen ts
      × ((x : Text) → contains x known ≡ (contains x (keys ts) || contains x seen))
unfolding check_specs
check_specs-ok catalog seen [] known h =
    let same : seen ≡ known = ground (arith, h) in
    (record { named = tt; distinct = tt; fresh = tt }, λ x. ap (contains x) (sym same))
check_specs-ok catalog seen (t ∷ ts) known h =
    let (blank, new, listed, h₁) =
      guards-ok (is_empty (trim t.key)) (contains t.key seen) (not (contains t.name catalog))
        CreateError.empty_key (CreateError.duplicate_key t.key) (CreateError.unknown_task t.name)
        (check_specs catalog (t.key ∷ seen) ts) known h in
    let (rest, grown) = check_specs-ok catalog (t.key ∷ seen) ts known h₁ in
    let (apart, fresh) = split_fresh t.key seen (keys ts) rest.fresh in
    (
      record {
        named = ((blank, ground arith), rest.named);
        distinct = (apart, rest.distinct);
        fresh = (new, fresh);
      },
      λ x. ground (arith, grown x),
    )

pub Fits-check_specs :
    (catalog seen : List Text) (ts : List WorkflowCreateTask)
    → Fits catalog seen ts
    → (known : List Text) × (check_specs catalog seen ts ≡ ok known)
unfolding check_specs
Fits-check_specs catalog seen [] f = (seen, refl)
Fits-check_specs catalog seen (t ∷ ts) f =
    let rest = Fits-check_specs catalog (t.key ∷ seen) ts record {
      named = f.named.1;
      distinct = f.distinct.1;
      fresh = join_fresh t.key seen (keys ts) f.distinct.0 f.fresh.1;
    } in
    (rest.0, rw (f.named.0.0, f.fresh.0, f.named.0.1) rest.1)

-- a degree that grows by `n`
abbrev pub plus : ℕ → Option ℕ → Option ℕ
plus n none = none
plus n (some m) = some (m + n)

-- what the loop over the dependencies of one task does to the graph
pub record Linked (key : Text) (deps : List Text) (g h : Graph) : Type 0 where
  pub degrees :
      (x : Text) → h.indegree x ≡ plus (if text_eq x key then length deps else 0) (g.indegree x)
  pub edges :
      (k x : Text)
      → count x (h.edges k) ≡ count x (g.edges k) + (if text_eq x key then count k deps else 0)

plus_zero : (o : Option ℕ) → o ≡ plus 0 o
plus_zero none = refl
plus_zero (some n) = ground arith

none-Linked : (key : Text) (g : Graph) → Linked key [] g g
none-Linked key g = record {
  degrees = λ x. ground (arith, plus_zero (g.indegree x));
  edges = λ k x. ground arith;
}

link_deps-ok :
    (known : List Text) (key : Text) (deps : List Text) (g h : Graph)
    → link_deps known key deps g ≡ ok h
    → All (λ d. contains d known ≡ true) deps × Linked key deps g h
unfolding link_deps bump push_edge
link_deps-ok known key [] g h e =
    let same : g ≡ h = ground (arith, e) in (tt, subst (Linked key [] g) same (none-Linked key g))
link_deps-ok known key (d ∷ deps) g h e =
    let (there, e₁) = bail_if-ok (not (contains d known)) (CreateError.unknown_key key d) _ h e in
    let (rest, linked) = link_deps-ok known key deps _ h e₁ in
    (
      (ground arith, rest),
      record {
        degrees = λ x. ground (arith, linked.degrees x);
        edges = λ k x.
            ground (arith, linked.edges k x, count_where-append (text_eq x) (g.edges k) (key ∷ []));
      },
    )

Linked-link_deps :
    (known : List Text) (key : Text) (deps : List Text) (g : Graph)
    → All (λ d. contains d known ≡ true) deps
    → (h : Graph) × (link_deps known key deps g ≡ ok h)
unfolding link_deps
Linked-link_deps known key [] g a = (g, refl)
Linked-link_deps known key (d ∷ deps) g a =
    let rest =
      Linked-link_deps known key deps
        record { indegree = bump key g.indegree; edges = push_edge d key g.edges } a.1 in
    (rest.0, rw a.0 rest.1)

-- each task depends on keys of the set
abbrev pub IsKnown : List Text → WorkflowCreateTask → Type 0
IsKnown known t = All (λ d. contains d known ≡ true) (dependencies t)

-- what the loop over the tasks does to the graph
pub record Built (ts : List WorkflowCreateTask) (g h : Graph) : Type 0 where
  pub degrees : (x : Text) → h.indegree x ≡ plus (length (deps_of ts x)) (g.indegree x)
  pub edges : (k x : Text) → count x (h.edges k) ≡ count x (g.edges k) + count k (deps_of ts x)

none-Built : (g : Graph) → Built [] g g
unfolding deps_of
none-Built g = record {
  degrees = λ x. ground (arith, plus_zero (g.indegree x));
  edges = λ k x. ground arith;
}

pub >>=-ok :
    {A B : Type 0} (r : Result CreateError A) (f : A → Result CreateError B) (b : B)
    → (r >>= f) ≡ ok b
    → (a : A) × (r ≡ ok a) × (f a ≡ ok b)
>>=-ok (ok a) f b h = (a, refl, h)
>>=-ok (err e) f b h = absurd (ground arith)

plus-plus : (m n : ℕ) (o : Option ℕ) → plus n (plus m o) ≡ plus (m + n) o
plus-plus m n none = refl
plus-plus m n (some k) = ground arith

pub link_specs-ok :
    (known : List Text) (ts : List WorkflowCreateTask) (g h : Graph)
    → link_specs known ts g ≡ ok h
    → All (IsKnown known) ts × Built ts g h
unfolding link_specs deps_of
link_specs-ok known [] g h e =
    let same : g ≡ h = ground (arith, e) in (tt, subst (Built [] g) same (none-Built g))
link_specs-ok known (t ∷ ts) g h e =
    let (g₁, e₁, e₂) = >>=-ok (link_deps known t.key (dependencies t) g) _ h e in
    let (here, linked) = link_deps-ok known t.key (dependencies t) g g₁ e₁ in
    let (rest, built) = link_specs-ok known ts g₁ h e₂ in
    (
      (here, rest),
      record {
        degrees = λ x. ground (
          arith,
          linked.degrees x,
          built.degrees x,
          length-append (dependencies t) (deps_of ts x),
        );
        edges = λ k x. ground (
          arith,
          linked.edges k x,
          built.edges k x,
          count_where-append (text_eq k) (dependencies t) (deps_of ts x),
        );
      },
    )

pub Built-link_specs :
    (known : List Text) (ts : List WorkflowCreateTask) (g : Graph)
    → All (IsKnown known) ts
    → (h : Graph) × (link_specs known ts g ≡ ok h)
unfolding link_specs
Built-link_specs known [] g a = (g, refl)
Built-link_specs known (t ∷ ts) g a =
    let (g₁, e₁) = Linked-link_deps known t.key (dependencies t) g a.0 in
    let rest = Built-link_specs known ts g₁ a.1 in (rest.0, rw e₁ rest.1)
