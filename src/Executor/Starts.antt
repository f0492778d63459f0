-- ===== src/Executor/Starts.antt =====
-- What a finished task starts: `start_dependents` of crates/favetto/src/executor.rs.
use favetto.Common.{
  ℕ, ◌≡◌, refl, ap, ◌∙◌, subst, ◌⊎◌, inl, inr, arith, List, [], ◌∷◌, ◌++◌, Option, none, some, Text,
  Bool, true, false, ◌&&◌, any, All, All-mono, All-append, Bool-cases, text_eq, text_eq-eq,
  text_eq_refl, select_where, is_empty, Option-cases,
}
use favetto.Model.Status.{TaskStatus}
use favetto.Model.Task.{Uuid, Task, Event, root_or_self}
use favetto.Store.Schema.{TaskRow}
use favetto.Store.Tasks.{insert_task, insert_event, conflicts, list_active_tasks_in_root}
use favetto.Catalog.Def.{TaskDef}
use favetto.Catalog.Needs.{NeedsKind, needs_parts}
use favetto.Executor.State.{External, State, publish, publish_task, emit_event}
use favetto.Executor.Enqueue.{Request, enqueue_with_id, enqueue_with_lineage, new_task}
use favetto.Executor.Join.{is_all_finished, joins_on, maybe_start_join, start_joins, join_request}
use favetto.Executor.Dependents.{
  starts_on, is_dependent, dependent_request, dependent_requests, enqueue_each, start_finished,
  start_named,
}

-- the outcomes of a task after which a dependency of this kind starts its dependent
abbrev pub Triggers : NeedsKind → Option Bool → Type 0
Triggers NeedsKind.finished success = Unit
Triggers NeedsKind.succeeded success = success ≡ some true
Triggers NeedsKind.failed success = success ≡ some false
Triggers NeedsKind.all_finished success = ⊥

-- the definition needs the task `name`, with a dependency of a kind that `K` holds of
abbrev pub NeedsTask : Text → (NeedsKind → Type 0) → TaskDef → Type 0
NeedsTask name K def =
    (needs : Text) × (def.needs ≡ some needs)
    × ((needs_parts needs).0 ≡ name)
    × K (needs_parts needs).1

abbrev pub HasDef : List TaskDef → TaskDef → Type 0
HasDef defs def = (before : List TaskDef) × (after : List TaskDef) × (defs ≡ before ++ def ∷ after)

-- A row that an event may start: pending, and under the name of a definition of the catalog that
-- either depends on the outcome of the task, or waits for all tasks of that name in a root.
abbrev pub IsStarted : List TaskDef → Text → Option Bool → TaskRow → Type 0
IsStarted catalog name success r =
    (r.status ≡ TaskStatus.pending)
    × ((def : TaskDef) × HasDef catalog def
        × (r.name ≡ def.name)
        × (NeedsTask name (λ k. Triggers k success) def
            ⊎ NeedsTask name (λ k. k ≡ NeedsKind.all_finished) def))

-- rows are added behind the others, and they satisfy `P`
abbrev pub Adds : (TaskRow → Type 0) → State → State → Type 0
Adds P s t =
    (new : List TaskRow) × (t.db.tasks ≡ s.db.tasks ++ new) × All P new × (t.catalog ≡ s.catalog)

append_nil : (xs : List TaskRow) → xs ≡ xs ++ []
append_nil [] = refl
append_nil (x ∷ xs) = ap (◌∷◌ x) (append_nil xs)

append_assoc : (xs ys zs : List TaskRow) → (xs ++ ys) ++ zs ≡ xs ++ (ys ++ zs)
append_assoc [] ys zs = refl
append_assoc (x ∷ xs) ys zs = ap (◌∷◌ x) (append_assoc xs ys zs)

pub Adds-refl : (P : TaskRow → Type 0) (s : State) → Adds P s s
Adds-refl P s = ([], append_nil s.db.tasks, tt, refl)

pub Adds-trans : (P : TaskRow → Type 0) (s t u : State) → Adds P s t → Adds P t u → Adds P s u
Adds-trans P s t u (new, e, h, c) (new', e', h', c') = (
  new ++ new',
  e' ∙ ap (λ l. l ++ new') e ∙ append_assoc s.db.tasks new new',
  All-append P new new' h h',
  c' ∙ c,
)

pub enqueue-Adds :
    (ext : External) (P : TaskRow → Type 0) (r : Request) (s : State)
    → ((id : Uuid) → P (record { task = new_task id r s.now; retry_at = none }))
    → Adds P s (enqueue_with_lineage ext r s).0
unfolding enqueue_with_lineage enqueue_with_id emit_event publish_task publish insert_event
    insert_task
enqueue-Adds ext P r s h =
    elim (Bool-cases (any (conflicts (new_task (ext.new_v4 s.drawn) r s.now)) s.db.tasks)) [
      | inl e ↦ rw e ([], append_nil s.db.tasks, tt, refl)
      | inr e ↦ rw e (_ ∷ [], refl, (h (ext.new_v4 s.drawn), tt), refl)
    ]

starts_on-Triggers :
    (k : NeedsKind) (success : Option Bool) → starts_on k success ≡ true → Triggers k success
unfolding starts_on
starts_on-Triggers NeedsKind.finished success h = tt
starts_on-Triggers NeedsKind.succeeded (some true) h = refl
starts_on-Triggers NeedsKind.succeeded (some false) h = ground (arith, h)
starts_on-Triggers NeedsKind.succeeded none h = ground (arith, h)
starts_on-Triggers NeedsKind.failed (some true) h = ground (arith, h)
starts_on-Triggers NeedsKind.failed (some false) h = refl
starts_on-Triggers NeedsKind.failed none h = ground (arith, h)
starts_on-Triggers NeedsKind.all_finished success h = ground (arith, h)

Triggers-starts_on :
    (k : NeedsKind) (success : Option Bool) → Triggers k success → starts_on k success ≡ true
unfolding starts_on
Triggers-starts_on NeedsKind.finished success h = refl
Triggers-starts_on NeedsKind.succeeded success h = rw h refl
Triggers-starts_on NeedsKind.failed success h = rw h refl
Triggers-starts_on NeedsKind.all_finished success h = absurd h

is_all_finished-kind : (k : NeedsKind) → is_all_finished k ≡ true → k ≡ NeedsKind.all_finished
is_all_finished-kind NeedsKind.all_finished h = refl
is_all_finished-kind NeedsKind.finished h = ground (arith, h)
is_all_finished-kind NeedsKind.succeeded h = ground (arith, h)
is_all_finished-kind NeedsKind.failed h = ground (arith, h)

is_dependent-NeedsTask :
    (name : Text) (success : Option Bool) (def : TaskDef)
    → is_dependent name success def ≡ true
    → NeedsTask name (λ k. Triggers k success) def
unfolding is_dependent
is_dependent-NeedsTask name success def h = elim (Option-cases def.needs) [
  | inl e ↦ absurd (ground (arith, h, e))
  | inr (needs, e) ↦
      let (source, kind) = needs_parts needs in
      let both : text_eq source name && starts_on kind success ≡ true =
        subst
          (λ o.
            elim o as (λ x. Bool) [
              | none ↦ false
              | some n ↦
                  let (source, kind) = needs_parts n in
                  text_eq source name && starts_on kind success
            ]
            ≡ true)
          e h in
      (
        needs,
        e,
        text_eq-eq source name (ground arith),
        starts_on-Triggers kind success (ground arith),
      )
]

pub NeedsTask-is_dependent :
    (name : Text) (success : Option Bool) (def : TaskDef)
    → NeedsTask name (λ k. Triggers k success) def
    → is_dependent name success def ≡ true
unfolding is_dependent
NeedsTask-is_dependent name success def (needs, e, source, kind) =
    rw e
      (rw source (rw (text_eq_refl name) (Triggers-starts_on (needs_parts needs).1 success kind)))

joins_on-NeedsTask :
    (name : Text) (def : TaskDef)
    → joins_on name def ≡ true
    → NeedsTask name (λ k. k ≡ NeedsKind.all_finished) def
unfolding joins_on
joins_on-NeedsTask name def h = elim (Option-cases def.needs) [
  | inl e ↦ absurd (ground (arith, h, e))
  | inr (needs, e) ↦
      let (source, kind) = needs_parts needs in
      let both : text_eq source name && is_all_finished kind ≡ true =
        subst
          (λ o.
            elim o as (λ x. Bool) [
              | none ↦ false
              | some n ↦
                  let (source, kind) = needs_parts n in text_eq source name && is_all_finished kind
            ]
            ≡ true)
          e h in
      (needs, e, text_eq-eq source name (ground arith), is_all_finished-kind kind (ground arith))
]

HasDef-cons :
    (d : TaskDef) (defs : List TaskDef) (x : TaskDef) → HasDef defs x → HasDef (d ∷ defs) x
HasDef-cons d defs x (before, after, e) = (d ∷ before, after, ap (◌∷◌ d) e)

-- what the select of the definitions gives
selected-HasDef :
    (p : TaskDef → Bool) (defs : List TaskDef)
    → All (λ x. (p x ≡ true) × HasDef defs x) (select_where p defs)
selected-HasDef p [] = tt
selected-HasDef p (d ∷ defs) =
    let rest =
      All-mono (λ x. (p x ≡ true) × HasDef defs x) (λ x. (p x ≡ true) × HasDef (d ∷ defs) x)
        (select_where p defs) (λ x h. (h.0, HasDef-cons d defs x h.1)) (selected-HasDef p defs) in
    elim (Bool-cases (p d)) [ inl e ↦ rw e ((e, ([], defs, refl)), rest) | inr e ↦ rw e rest ]

module _ (ext : External) (catalog : List TaskDef) (name : Text) (success : Option Bool) where
  abbrev Starts : State → State → Type 0
  Starts = Adds (IsStarted catalog name success)

  start_each :
      (prev : Option Task) (event_id : ℕ) (defs : List TaskDef) (s : State)
      → All (λ x. (is_dependent name success x ≡ true) × HasDef catalog x) defs
      → Starts s (enqueue_each ext (dependent_requests ext prev event_id defs) s)
  unfolding dependent_request new_task
  start_each prev event_id [] s h = Adds-refl (IsStarted catalog name success) s
  start_each prev event_id (d ∷ defs) s ((dep, has), rest) =
      let r : Request = dependent_request ext prev event_id d in
      Adds-trans (IsStarted catalog name success) s (enqueue_with_lineage ext r s).0
        (enqueue_each ext (dependent_requests ext prev event_id (d ∷ defs)) s)
        (enqueue-Adds ext (IsStarted catalog name success) r s
          (λ id. (refl, (d, has, refl, inl (is_dependent-NeedsTask name success d dep)))))
        (start_each prev event_id defs (enqueue_with_lineage ext r s).0 rest)

  start_join-Starts :
      (d : TaskDef) (root : Uuid) (parent : Option Uuid) (s : State)
      → joins_on name d ≡ true
      → HasDef catalog d
      → Starts s (maybe_start_join ext d.name name root parent s)
  unfolding maybe_start_join join_request new_task
  start_join-Starts d root parent s joins has =
      elim (Bool-cases (is_empty (list_active_tasks_in_root root name s.db))) [
        | inl e ↦ rw e (
            enqueue-Adds ext (IsStarted catalog name success)
              (join_request ext d.name name root parent s) s
              (λ id. (refl, (d, has, refl, inr (joins_on-NeedsTask name d joins)))))
        | inr e ↦ rw e (Adds-refl (IsStarted catalog name success) s)
      ]

  start_joins-Starts :
      (defs : List TaskDef) (root : Uuid) (parent : Option Uuid) (s : State)
      → All (λ x. (joins_on name x ≡ true) × HasDef catalog x) defs
      → Starts s (start_joins ext defs name root parent s)
  start_joins-Starts [] root parent s h = Adds-refl (IsStarted catalog name success) s
  start_joins-Starts (d ∷ defs) root parent s ((joins, has), rest) =
      Adds-trans (IsStarted catalog name success) s (maybe_start_join ext d.name name root parent s)
        (start_joins ext (d ∷ defs) name root parent s)
        (start_join-Starts d root parent s joins has)
        (start_joins-Starts defs root parent (maybe_start_join ext d.name name root parent s) rest)

pub start_finished-Starts :
    (ext : External) (ev : Event) (name : Text) (prev : Option Task) (s : State)
    → Adds (IsStarted s.catalog name ev.payload.success) s (start_finished ext ev name prev s)
start_finished-Starts ext ev name prev s =
    start_each ext s.catalog name ev.payload.success prev ev.id
      (select_where (is_dependent name ev.payload.success) s.catalog) s
      (selected-HasDef (is_dependent name ev.payload.success) s.catalog)

-- the fan-ins behind the dependents
pub fan_ins-Starts :
    (ext : External) (ev : Event) (name : Text) (p : Task) (s : State)
    → Adds (IsStarted s.catalog name ev.payload.success) (start_finished ext ev name (some p) s) (
        start_joins ext
          (select_where (joins_on name) s.catalog)
          name
          (root_or_self p)
          (some p.id)
          (start_finished ext ev name (some p) s))
fan_ins-Starts ext ev name p s =
    start_joins-Starts ext s.catalog name ev.payload.success
      (select_where (joins_on name) s.catalog) (root_or_self p) (some p.id)
      (start_finished ext ev name (some p) s) (selected-HasDef (joins_on name) s.catalog)

pub start_named-Starts :
    (ext : External) (ev : Event) (name : Text) (prev : Option Task) (s : State)
    → Adds (IsStarted s.catalog name ev.payload.success) s (start_named ext ev name prev s)
unfolding start_named
start_named-Starts ext ev name none s = start_finished-Starts ext ev name none s
start_named-Starts ext ev name (some p) s =
    Adds-trans (IsStarted s.catalog name ev.payload.success) s
      (start_finished ext ev name (some p) s)
      (start_joins ext (select_where (joins_on name) s.catalog) name (root_or_self p) (some p.id)
        (start_finished ext ev name (some p) s))
      (start_finished-Starts ext ev name (some p) s) (fan_ins-Starts ext ev name p s)
