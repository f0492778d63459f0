-- ===== src/Attention/Moves.antt =====
-- What the watch loop of crates/favetto/src/attention.rs can do to a row of `tasks`.
use favetto.Common.{
  ==_iff, ◌⊎◌, sym, ap, subst, ◌∙◌, List, [], ◌∷◌, update_where, some, none, Option, Text, ◌≡◌,
  refl, inl, inr, Text, Bool, true, false, Option, none, some, Bool-cases, arith,
}
use favetto.Model.Status.{TaskStatus}
use favetto.Model.Task.{Uuid, Task}
use favetto.Model.EventKind.{EventKind}
use favetto.Model.Prompt.{AwaitingInputReason}
use favetto.Store.Schema.{TaskRow, status_eq, is_active}
use favetto.Store.Tasks.{insert_event, where_status, status_row, set_task_status_if, get_task}
use favetto.Executor.State.{State, publish_task, publish, with_db, emit_event}
use favetto.Executor.Reconcile.{reconcile_task}
use favetto.Attention.Debouncer.{Edge, mark, clear}
use favetto.Attention.Watch.{
  Watcher, WatchArgs, resume_task, awaiting_payload, mark_awaiting, on_task, go_on, on_edge,
}
use favetto.Attention.Writes.{moved, moved-holds}

-- The row is the same but for its status. If that changed, the row is the watched task's and went
-- from running to awaiting input or back.
abbrev pub RowMoves : Option Uuid → TaskRow → TaskRow → Type 0
RowMoves task r s =
    (s ≡ status_row s.status r)
    × ((s.status ≡ r.status)
        ⊎ ((task ≡ some r.id) × (is_active r.status ≡ true) × (is_active s.status ≡ true)))

pub data EachMoves (task : Option Uuid) : List TaskRow → List TaskRow → Type 0 where
  none_left : EachMoves task [] []
  one_more :
      {r s : TaskRow} {rs ss : List TaskRow}
      → RowMoves task r s
      → EachMoves task rs ss
      → EachMoves task (r ∷ rs) (s ∷ ss)

-- a change of nothing but the watched task's status and the events
abbrev pub Moves : Option Uuid → State → State → Type 0
Moves task s t =
    EachMoves task s.db.tasks t.db.tasks × (t.db.runs ≡ s.db.runs) × (t.db.deps ≡ s.db.deps)

EachMoves-refl : (task : Option Uuid) (rows : List TaskRow) → EachMoves task rows rows
EachMoves-refl task [] = none_left
EachMoves-refl task (r ∷ rows) = one_more (refl, inl refl) (EachMoves-refl task rows)

pub Moves-refl : (task : Option Uuid) (s : State) → Moves task s s
Moves-refl task s = (EachMoves-refl task s.db.tasks, refl, refl)

RowMoves-trans :
    (task : Option Uuid) (r s t : TaskRow)
    → RowMoves task r s
    → RowMoves task s t
    → RowMoves task r t
RowMoves-trans task r s t (e, h) (e', k) = (
  e' ∙ ap (status_row t.status) e,
  elim h [
    | inl p ↦ elim k [
      | inl q ↦ inl (q ∙ p)
      | inr (own, a, b) ↦ inr (own ∙ ap (λ x. some x.id) e, subst (λ x. is_active x ≡ true) p a, b)
    ]
    | inr (own, a, b) ↦ elim k [
      | inl q ↦ inr (own, a, subst (λ x. is_active x ≡ true) (sym q) b)
      | inr (own', a', b') ↦ inr (own, a, b')
    ]
  ],
)

EachMoves-trans :
    (task : Option Uuid) {rs ss ts : List TaskRow}
    → EachMoves task rs ss
    → EachMoves task ss ts
    → EachMoves task rs ts
EachMoves-trans task none_left none_left = none_left
EachMoves-trans task (one_more {r} {s} h hs) (one_more {s = t} k ks) =
    one_more (RowMoves-trans task r s t h k) (EachMoves-trans task hs ks)

pub Moves-trans :
    (task : Option Uuid) (s t u : State) → Moves task s t → Moves task t u → Moves task s u
Moves-trans task s t u h k = (EachMoves-trans task h.0 k.0, k.1 ∙ h.1, k.2 ∙ h.2)

active_from :
    (x from : TaskStatus) → status_eq x from ≡ true → is_active from ≡ true → is_active x ≡ true
active_from x from e a = ground arith

EachMoves-update :
    (id : Uuid) (to from : TaskStatus) (rows : List TaskRow)
    → is_active from ≡ true
    → is_active to ≡ true
    → EachMoves
        (some id)
        rows
        (update_where (where_status id (λ x. status_eq x from)) (status_row to) rows)
EachMoves-update id to from [] a b = none_left
EachMoves-update id to from (r ∷ rows) a b =
    let rest = EachMoves-update id to from rows a b in
    elim (Bool-cases (where_status id (λ x. status_eq x from) r)) [
      | inl e ↦ rw e (
          one_more
            (
              refl,
              inr (
                ap some (sym ((==_iff r.id id).0 (ground arith))),
                active_from r.status from (ground arith) a,
                b,
              ),
            )
            rest)
      | inr e ↦ rw e (one_more (refl, inl refl) rest)
    ]

move-Moves :
    (id : Uuid) (to from : TaskStatus) (s : State)
    → is_active from ≡ true
    → is_active to ≡ true
    → Moves (some id) s (moved id to from s).0
unfolding set_task_status_if publish_task publish
move-Moves id to from s a b =
    let k : Moves (some id) s (with_db (set_task_status_if id to from s.db).0 s) =
      (EachMoves-update id to from s.db.tasks a b, refl, refl) in
    moved-holds (Moves (some id) s) id to from s k (λ t. k) (λ e. Moves-refl (some id) s)

pub reconcile_task-Moves :
    (id : Uuid) (awaiting : Bool) (s : State) → Moves (some id) s (reconcile_task id awaiting s).0
unfolding reconcile_task
reconcile_task-Moves id true s =
    move-Moves id TaskStatus.awaiting_input TaskStatus.running s refl refl
reconcile_task-Moves id false s =
    move-Moves id TaskStatus.running TaskStatus.awaiting_input s refl refl

pub resume_task-Moves : (id : Uuid) (s : State) → Moves (some id) s (resume_task id s)
unfolding resume_task
resume_task-Moves id s = reconcile_task-Moves id false s

pub mark_awaiting-Moves :
    (id : Uuid) (session : Text) (reason : AwaitingInputReason) (s : State)
    → Moves (some id) s (mark_awaiting id session reason s)
unfolding mark_awaiting emit_event publish insert_event
mark_awaiting-Moves id session reason s =
    let (s', changed) = reconcile_task id true s in
    let k : Moves (some id) s s' = reconcile_task-Moves id true s in
    let announced = λ (t : Task).
      emit_event EventKind.task_awaiting_input (awaiting_payload session reason t) s' in
    elim (Bool-cases changed) [
      | inl e ↦
          rw e
            (elim (get_task id s'.db)
              as (λ o.
                Moves (some id) s (elim o as (λ x. State) [ some t ↦ announced t | none ↦ s' ])) [
                  | some t ↦ k
                  | none ↦ k
                ])
      | inr e ↦ rw e k
    ]

pub on_edge-Moves :
    (session : Text) (edge : Option Edge) (id : Uuid) (s : State)
    → Moves (some id) s (on_edge session edge id s)
unfolding on_edge
on_edge-Moves session none id s = Moves-refl (some id) s
on_edge-Moves session (some (mark reason)) id s = mark_awaiting-Moves id session reason s
on_edge-Moves session (some clear) id s = resume_task-Moves id s

pub on_task-Moves :
    (task : Option Uuid) (write : Uuid → State → State) (w : Watcher)
    → ((id : Uuid) (s : State) → Moves (some id) s (write id s))
    → Moves task w.state (on_task task write w).state
on_task-Moves none write w h = Moves-refl none w.state
on_task-Moves (some id) write w h = h id w.state

pub go_on-Moves : (a : WatchArgs) (w : Watcher) → Moves a.task_id w.state (go_on a w).state
unfolding go_on
go_on-Moves a w =
    on_task-Moves a.task_id resume_task (record w { awaiting_input = none }) resume_task-Moves
