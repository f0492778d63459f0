-- ===== src/Workflow/Answers.antt =====
-- What `workflow.create` answers.
use favetto.Common.{
  ◌≡◌, refl, ap, ◌∙◌, arith, true, false, ◌||◌, Bool-cases, inl, inr, List, [], ◌∷◌, Option, some,
  none, Option-cases, is_some, is_empty, Text, All, All-mono, Result, ok, err, Result-cases,
}
use favetto.Model.Task.{Uuid}
use favetto.Store.Tasks.{get_task_by_dedupe_key}
use favetto.Executor.State.{External, State}
use favetto.Workflow.Spec.{WorkflowCreateTask, dependencies, contains, keys, validate_create_dag}
use favetto.Workflow.Counts.{All-intro}
use favetto.Workflow.Links.{IsKnown}
use favetto.Workflow.Accept.{
  Reorders, IsWorkflow, validate_create_dag-returns, validate_create_dag-IsWorkflow,
}
use favetto.Workflow.Create.{
  WorkflowError, invalid, root_not_found, unresolved, WorkflowCreateParams, WorkflowNodeRef,
  WorkflowCreateResult, Resolved, node_key, specs_of, resolve_ids, lookup_all, create_node,
  create_nodes, node_refs, root_of, missing_root, create_resolved, nothing_resolved,
  create_validated, catalog_names, create_workflow,
}

abbrev pub ref_keys : List WorkflowNodeRef → List Text
ref_keys [] = []
ref_keys (r ∷ rs) = r.key ∷ ref_keys rs

-- a result lists the keys of the request, in their order; a refusal leaves the state as it was, and
-- is never the internal error
abbrev pub Answers :
    WorkflowCreateParams → State → State × Result WorkflowError WorkflowCreateResult → Type 0
Answers p s (s', ok r) = ref_keys r.tasks ≡ keys (specs_of p)
Answers p s (s', err (invalid e)) = s' ≡ s
Answers p s (s', err (root_not_found root)) = (s' ≡ s) × (missing_root root s ≡ true)
Answers p s (s', err unresolved) = false ≡ true

abbrev HasId : (Text → Option Uuid) → Text → Type 0
HasId ids k = is_some (ids k) ≡ true

HasId-some : (ids : Text → Option Uuid) (k : Text) → HasId ids k → (id : Uuid) × (ids k ≡ some id)
HasId-some ids k h = elim (Option-cases (ids k)) [
  | inr e ↦ e
  | inl e ↦ absurd (ground (arith, e, h))
]

-- Every key of the tasks has an id, and so has every key that had one.
resolve_ids-HasId :
    (ext : External) (idem : Text) (ts : List WorkflowCreateTask) (r : Resolved) (s : State)
    (k : Text)
    → (contains k (keys ts) || is_some (r.ids k)) ≡ true
    → HasId (resolve_ids ext idem ts r s).1.ids k
unfolding resolve_ids
resolve_ids-HasId ext idem [] r s k h = h
resolve_ids-HasId ext idem (t ∷ ts) r s k h =
    elim (Option-cases (get_task_by_dedupe_key (node_key idem t.key) s.db)) [
      | inl e ↦ rw (resolve_ids, e) (resolve_ids-HasId ext idem ts _ _ k (ground (arith, h)))
      | inr (task, e) ↦
          rw (resolve_ids, e) (resolve_ids-HasId ext idem ts _ _ k (ground (arith, h)))
    ]

HasId-lookup_all :
    (ids : Text → Option Uuid) (ks : List Text)
    → All (HasId ids) ks
    → (xs : List Uuid) × (lookup_all ids ks ≡ some xs)
unfolding lookup_all
HasId-lookup_all ids [] h = ([], refl)
HasId-lookup_all ids (k ∷ ks) h =
    let (id, e) = HasId-some ids k h.0 in
    let (xs, e') = HasId-lookup_all ids ks h.1 in (id ∷ xs, rw (lookup_all, e, e') refl)

-- each task has an id, and its dependencies have
abbrev Resolves : (Text → Option Uuid) → WorkflowCreateTask → Type 0
Resolves ids t = HasId ids t.key × All (HasId ids) (dependencies t)

Resolves-create_nodes :
    (idem : Text) (root : Uuid) (r : Resolved) (ts : List WorkflowCreateTask) (s : State)
    → All (Resolves r.ids) ts
    → (create_nodes idem root r ts s).1 ≡ ok tt
unfolding create_nodes
Resolves-create_nodes idem root r [] s h = refl
Resolves-create_nodes idem root r (t ∷ ts) s h =
    let (id, e) = HasId-some r.ids t.key h.0.0 in
    let (deps, e') = HasId-lookup_all r.ids (dependencies t) h.0.1 in
    rw (create_nodes, e, e')
      (Resolves-create_nodes idem root r ts (create_node idem root r.existing t id deps s) h.1)

Resolves-node_refs :
    (ids : Text → Option Uuid) (ts : List WorkflowCreateTask)
    → All (Resolves ids) ts
    → (refs : List WorkflowNodeRef) × (node_refs ids ts ≡ ok refs) × (ref_keys refs ≡ keys ts)
unfolding node_refs
Resolves-node_refs ids [] h = ([], refl, refl)
Resolves-node_refs ids (t ∷ ts) h =
    let (id, e) = HasId-some ids t.key h.0.0 in
    let (refs, e', same) = Resolves-node_refs ids ts h.1 in
    (
      record { key = t.key; id = id; name = t.name } ∷ refs,
      rw (node_refs, e, e') refl,
      ap (λ ks. t.key ∷ ks) same,
    )

-- the tasks resolve once their keys do
IsWorkflow-Resolves :
    (catalog : List Text) (ts : List WorkflowCreateTask) (ids : Text → Option Uuid)
    → IsWorkflow catalog ts
    → ((k : Text) → contains k (keys ts) ≡ true → HasId ids k)
    → All (Resolves ids) ts
IsWorkflow-Resolves catalog ts ids w h = go ts w.known (All-intro (HasId ids) (keys ts) h)
  where
    go :
        (us : List WorkflowCreateTask)
        → All (IsKnown (keys ts)) us
        → All (HasId ids) (keys us)
        → All (Resolves ids) us
    go [] known has = tt
    go (u ∷ us) known has = (
      (has.0, All-mono (λ d. contains d (keys ts) ≡ true) (HasId ids) (dependencies u) h known.0),
      go us known.1 has.1,
    )

root_of-some :
    (root : Option Uuid) (ids : Text → Option Uuid) (ts : List WorkflowCreateTask)
    → is_empty ts ≡ false
    → All (Resolves ids) ts
    → (id : Uuid) × (root_of root ids ts ≡ some id)
unfolding root_of
root_of-some (some id) ids ts h r = (id, refl)
root_of-some none ids [] h r = absurd (ground (arith, h))
root_of-some none ids (t ∷ ts) h r = HasId-some ids t.key r.0.0

create_resolved-Answers :
    (catalog : List Text) (p : WorkflowCreateParams) (r : Resolved) (s₀ s : State)
    → IsWorkflow catalog (specs_of p)
    → All (Resolves r.ids) (specs_of p)
    → Answers p s₀ (create_resolved p (specs_of p) r s)
unfolding create_resolved
create_resolved-Answers catalog p r s₀ s w has =
    let ts = specs_of p in
    let (root, e) = root_of-some p.root_id r.ids ts w.some_task has in
    let (refs, e', same) = Resolves-node_refs r.ids ts has in
    let created = Resolves-create_nodes p.idempotency_key root r ts s has in
    rw (create_resolved, e, created, e') same

create_validated-Answers :
    (ext : External) (catalog : List Text) (p : WorkflowCreateParams) (s : State)
    → IsWorkflow catalog (specs_of p)
    → Answers p s (create_validated ext p s)
unfolding create_validated
create_validated-Answers ext catalog p s w =
    let ts = specs_of p in
    let (s', r) = resolve_ids ext p.idempotency_key ts nothing_resolved s in
    let has = IsWorkflow-Resolves catalog ts r.ids w (λ k h.
      resolve_ids-HasId ext p.idempotency_key ts nothing_resolved s k (ground (arith, h))) in
    elim (Option-cases p.root_id) [
      | inl e ↦ rw (create_validated, e) (create_resolved-Answers catalog p r s s' w has)
      | inr (root, e) ↦ elim (Bool-cases (missing_root root s)) [
        | inl m ↦ rw (create_validated, e, m) (refl, m)
        | inr m ↦ rw (create_validated, e, m) (create_resolved-Answers catalog p r s s' w has)
      ]
    ]

-- A request to create a workflow is always answered, whatever the order of the hash maps. A result
-- lists the keys of the request in their order. A refusal, of the request or of a root that is not
-- there, leaves the state as it was. The internal error "task ids unresolved" never occurs.
pub create_workflow-Answers :
    (hash_order : List Text → List Text) (ext : External) (p : WorkflowCreateParams) (s : State)
    → Reorders hash_order
    → (a : State × Result WorkflowError WorkflowCreateResult) × (create_workflow hash_order ext p s
        ≡ some a)
      × Answers p s a
unfolding create_workflow
create_workflow-Answers hash_order ext p s reorders =
    let (r, e) = validate_create_dag-returns hash_order (catalog_names s) (specs_of p) reorders in
    elim (Result-cases r) [
      | inl (_, valid) ↦
          let accepted : validate_create_dag hash_order (catalog_names s) (specs_of p)
              ≡ some (ok tt) =
            e ∙ ap some valid in
          let w =
            (validate_create_dag-IsWorkflow hash_order (catalog_names s) (specs_of p) reorders).0
              accepted in
          (
            create_validated ext p s,
            rw (create_workflow, accepted) refl,
            create_validated-Answers ext (catalog_names s) p s w,
          )
      | inr (c, invalid_request) ↦
          ((s, err (invalid c)), rw (create_workflow, e, invalid_request) refl, refl)
    ]
