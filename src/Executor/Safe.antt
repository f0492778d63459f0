-- ===== src/Executor/Safe.antt =====
-- The state operations of crates/favetto/src/executor.rs that open no attempt: what they keep.
use favetto.Common.{
  ◌≤◌, ◌≡◌, ℕ, refl, arith, List, [], ◌∷◌, Option, Text, Bool, true, false, Option-cases, inl, inr,
  select_where, count_where, is_empty, if◌then◌else◌,
}
use favetto.Model.EventKind.{EventKind}
use favetto.Model.Task.{Uuid, Value, Task, Payload}
use favetto.Store.Tasks.{insert_event, list_active_tasks_in_root}
use favetto.Store.Live.{Live, Idle, has_run_id}
use favetto.Store.Keeps.{Keeps, Keeps-tables, Keeps-trans, Keeps-insert_task}
use favetto.Catalog.Def.{TaskDef}
use favetto.Executor.State.{External, State, publish, publish_task, emit_event}
use favetto.Executor.Enqueue.{Request, enqueue_with_id, enqueue_with_lineage, new_task}
use favetto.Executor.Join.{
  joins_on, maybe_start_join, start_joins, evaluate_join_barriers, join_request,
}
use favetto.Executor.Dependents.{
  enqueue_each, spawn_from_manifest, spawn_requests, spawn_lineage, manifest_items,
}

-- The ids that `new_v4` has not given yet name no task with an attempt in flight, and no run.
abbrev pub Fresh : External → State → Type 0
Fresh ext s =
    (n : ℕ)
    → s.drawn ≤ n
    → Idle (ext.new_v4 n) s.db × (count_where (has_run_id (ext.new_v4 n)) s.db.runs ≡ 0)

abbrev pub Safe : External → State → Type 0
Safe ext s = Live s.db × Fresh ext s

-- a change of the database that opens no attempt, after which no drawn id is given back
abbrev pub Keeping : State → State → Type 0
Keeping s t = Keeps s.db t.db × (s.drawn ≤ t.drawn)

pub Safe-keeps : (ext : External) (s t : State) → Keeping s t → Safe ext s → Safe ext t
Safe-keeps ext s t k safe = (
  k.0.live safe.0,
  λ n h.
      let f = safe.1 n (omega (arith, h, k.1)) in
      (omega (arith, f.0, k.0.opens (ext.new_v4 n)), omega (arith, f.1, k.0.ids (ext.new_v4 n))),
)

pub Keeping-refl : (s : State) → Keeping s s
Keeping-refl s = (Keeps-tables s.db s.db refl refl, omega arith)

pub Keeping-trans : (s t u : State) → Keeping s t → Keeping t u → Keeping s u
Keeping-trans s t u h k = (Keeps-trans h.0 k.0, omega (arith, h.1, k.1))

pub emit_event-Keeping :
    (kind : EventKind) (p : Payload) (s : State) → Keeping s (emit_event kind p s)
unfolding emit_event publish insert_event
emit_event-Keeping kind p s = (Keeps-tables s.db _ refl refl, omega arith)

pub if-Safe :
    (ext : External) (b : Bool) (s t : State)
    → Safe ext s
    → Safe ext t
    → Safe ext (if b then s else t)
if-Safe ext true s t h k = h
if-Safe ext false s t h k = k

enqueue_with_lineage-Safe :
    (ext : External) (r : Request) (s : State)
    → Safe ext s
    → Safe ext (enqueue_with_lineage ext r s).0
unfolding enqueue_with_lineage enqueue_with_id emit_event publish publish_task insert_event new_task
enqueue_with_lineage-Safe ext r s safe =
    let t : Task = new_task (ext.new_v4 s.drawn) r s.now in
    Safe-keeps ext s (enqueue_with_lineage ext r s).0
      (
        Keeps-trans (Keeps-insert_task t s.db (safe.1 s.drawn (omega arith)).0)
            (Keeps-tables _ _ refl refl),
        omega arith,
      )
      safe

pub enqueue_each-Safe :
    (ext : External) (rs : List Request) (s : State) → Safe ext s → Safe ext (enqueue_each ext rs s)
enqueue_each-Safe ext [] s safe = safe
enqueue_each-Safe ext (r ∷ rs) s safe =
    enqueue_each-Safe ext rs (enqueue_with_lineage ext r s).0
      (enqueue_with_lineage-Safe ext r s safe)

maybe_start_join-Safe :
    (ext : External) (dep target : Text) (root : Uuid) (parent : Option Uuid) (s : State)
    → Safe ext s
    → Safe ext (maybe_start_join ext dep target root parent s)
unfolding maybe_start_join
maybe_start_join-Safe ext dep target root parent s safe =
    if-Safe ext (is_empty (list_active_tasks_in_root root target s.db)) _ s
      (enqueue_with_lineage-Safe ext (join_request ext dep target root parent s) s safe) safe

start_joins-Safe :
    (ext : External) (defs : List TaskDef) (target : Text) (root : Uuid) (parent : Option Uuid)
    (s : State)
    → Safe ext s
    → Safe ext (start_joins ext defs target root parent s)
start_joins-Safe ext [] target root parent s safe = safe
start_joins-Safe ext (def ∷ defs) target root parent s safe =
    start_joins-Safe ext defs target root parent
      (maybe_start_join ext def.name target root parent s)
      (maybe_start_join-Safe ext def.name target root parent s safe)

pub evaluate_join_barriers-Safe :
    (ext : External) (target : Text) (root : Uuid) (parent : Option Uuid) (s : State)
    → Safe ext s
    → Safe ext (evaluate_join_barriers ext target root parent s)
unfolding evaluate_join_barriers
evaluate_join_barriers-Safe ext target root parent s safe =
    start_joins-Safe ext (select_where (joins_on target) s.catalog) target root parent s safe

pub spawn_from_manifest-Safe :
    (ext : External) (t : Task) (def : TaskDef) (manifest : Option Value) (s : State)
    → Safe ext s
    → Safe ext (spawn_from_manifest ext t def manifest s)
unfolding spawn_from_manifest
spawn_from_manifest-Safe ext t def manifest s safe = elim (Option-cases def.spawn) [
  | inl e ↦ rw e safe
  | inr (spawn_task, e) ↦ elim (Option-cases def.spawn_file) [
    | inl e' ↦ rw (e, e') safe
    | inr (file, e') ↦ elim (Option-cases manifest) [
      | inl e'' ↦ rw (e, e', e'') safe
      | inr (value, e'') ↦
          rw (e, e', e'')
            (enqueue_each-Safe ext
              (spawn_requests ext t.id spawn_task (spawn_lineage def t) 0 (manifest_items value)) s
              safe)
    ]
  ]
]
