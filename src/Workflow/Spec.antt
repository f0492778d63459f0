-- ===== src/Workflow/Spec.antt =====
-- The check of a submitted workflow: `validate_create_dag` of crates/favetto/src/server.rs, with
-- the parameters of crates/favetto-wire/src/rpc/messages.rs. A HashMap is a function, its order of
-- iteration the parameter `hash_order`; a Vec that is used as a stack has its last item first.
use favetto.Common.{
  ℕ, zero, suc, ◌+◌, ◌==◌, Bool, false, not, List, [], ◌∷◌, ◌++◌, Option, none, some, Result, ok,
  err, ◌>>=◌, ◌>>◌, bail_if, if◌then◌else◌, Text, text_eq, trim, is_empty, any, length,
  select_where,
}
use favetto.Model.Task.{Value}

pub record WorkflowCreateTask : Type 0 where
  pub key : Text
  pub name : Text
  pub input : Option Value
  pub depends_on : Option (List Text)

-- the refusals, with what their texts name
pub data CreateError : Type 0 where
  no_task empty_key cycle : CreateError
  duplicate_key unknown_task : Text → CreateError
  unknown_key : Text → Text → CreateError

-- `spec.depends_on.as_deref().unwrap_or_default()`
unfoldable pub dependencies : WorkflowCreateTask → List Text
dependencies t = elim t.depends_on [ none ↦ [] | some ds ↦ ds ]

-- `HashSet::contains`
abbrev pub contains : Text → List Text → Bool
contains x = any (text_eq x)

abbrev pub keys : List WorkflowCreateTask → List Text
keys [] = []
keys (t ∷ ts) = t.key ∷ keys ts

-- the loop over the keys and the names, with the keys seen
unfoldable pub check_specs :
    List Text → List Text → List WorkflowCreateTask → Result CreateError (List Text)
check_specs catalog seen [] = ok seen
check_specs catalog seen (t ∷ ts) =
    bail_if (is_empty (trim t.key)) empty_key
    >> bail_if (contains t.key seen) (duplicate_key t.key)
    >> bail_if (not (contains t.name catalog)) (unknown_task t.name)
    >> check_specs catalog (t.key ∷ seen) ts

-- `HashMap<&str, usize>`
abbrev pub Degrees : Type 0
Degrees = Text → Option ℕ

-- `HashMap<&str, Vec<&str>>`, where a key without an entry has no successors
abbrev pub Edges : Type 0
Edges = Text → List Text

pub record Graph : Type 0 where
  pub indegree : Degrees
  pub edges : Edges

-- `if let Some(degree) = indegree.get_mut(key) { *degree += 1 }`
unfoldable pub bump : Text → Degrees → Degrees
bump key deg k = elim (deg k) [ none ↦ none | some n ↦ some (if text_eq k key then n + 1 else n) ]

-- `edges.entry(dep).or_default().push(key)`
unfoldable pub push_edge : Text → Text → Edges → Edges
push_edge dep key edges k = if text_eq k dep then edges k ++ key ∷ [] else edges k

-- the loop over the dependencies of one task
unfoldable pub link_deps : List Text → Text → List Text → Graph → Result CreateError Graph
unfolding bump push_edge
link_deps known key [] g = ok g
link_deps known key (dep ∷ deps) g =
    bail_if (not (contains dep known)) (unknown_key key dep)
    >> link_deps known key deps
        (record { indegree = bump key g.indegree; edges = push_edge dep key g.edges })

unfoldable pub link_specs : List Text → List WorkflowCreateTask → Graph → Result CreateError Graph
unfolding link_deps dependencies
link_specs known [] g = ok g
link_specs known (t ∷ ts) g =
    link_deps known t.key (dependencies t) g >>= λ h. link_specs known ts h

-- every key at degree 0, and no edge
unfoldable pub unlinked : List WorkflowCreateTask → Graph
unlinked ts = record {
  indegree = λ k. if contains k (keys ts) then some 0 else none;
  edges = λ _. [];
}

abbrev pub is_zero : Option ℕ → Bool
is_zero none = false
is_zero (some n) = n == 0

-- one successor; `none` is the overflow of `*degree -= 1` at 0, which panics
unfoldable pub relax_one : Text → Degrees → List Text → Option (Degrees × List Text)
relax_one key deg ready = elim (deg key) [
  | none ↦ some (deg, ready)
  | some zero ↦ none
  | some (suc n) ↦
      some ((λ k. if text_eq k key then some n else deg k), if n == 0 then key ∷ ready else ready)
]

-- the loop over the successors of a visited key
unfoldable pub relax : List Text → Degrees → List Text → Option (Degrees × List Text)
unfolding relax_one
relax [] deg ready = some (deg, ready)
relax (k ∷ ks) deg ready = elim (relax_one k deg ready) [ none ↦ none | some s ↦ relax ks s.0 s.1 ]

-- `while let Some(key) = ready.pop()`; `none` also when the fuel runs out
unfoldable pub drain : ℕ → Edges → Degrees → List Text → ℕ → Option ℕ
unfolding relax
drain zero edges deg ready visited = none
drain (suc fuel) edges deg [] visited = some visited
drain (suc fuel) edges deg (k ∷ ready) visited = elim (relax (edges k) deg ready) [
  | none ↦ none
  | some s ↦ drain fuel edges s.0 s.1 (suc visited)
]

-- the checks before the search for a cycle, and the graph that they build
unfoldable pub build : List Text → List WorkflowCreateTask → Result CreateError Graph
unfolding check_specs link_specs unlinked
build catalog ts =
    bail_if (is_empty ts) no_task
    >> (check_specs catalog [] ts >>= λ known. link_specs known ts (unlinked ts))

-- the keys without a dependency, in the order that the map yields them
unfoldable pub roots : (List Text → List Text) → List WorkflowCreateTask → Degrees → List Text
roots hash_order ts deg = hash_order (select_where (λ k. is_zero (deg k)) (keys ts))

-- Kahn's algorithm, with fuel for each task and for the last test of the loop
unfoldable pub visited : (List Text → List Text) → List WorkflowCreateTask → Graph → Option ℕ
unfolding drain roots
visited hash_order ts g =
    drain (suc (length ts)) g.edges g.indegree (roots hash_order ts g.indegree) 0

-- `none` is a panic
unfoldable pub validate_create_dag :
    (List Text → List Text) → List Text → List WorkflowCreateTask → Option (Result CreateError Unit)
unfolding build visited
validate_create_dag hash_order catalog ts = elim (build catalog ts) [
  | err e ↦ some (err e)
  | ok g ↦ elim (visited hash_order ts g) [
    | none ↦ none
    | some n ↦ some (bail_if (not (n == length ts)) cycle)
  ]
]
