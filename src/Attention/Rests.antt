-- ===== src/Attention/Rests.antt =====
-- How a watch of crates/favetto/src/attention.rs ends.
use favetto.Common.{
  Bool, if◌then◌else◌, subst, sym, ap, ◌≡◌, refl, false, List, [], ◌∷◌, Option, none, some,
}
use favetto.Model.Status.{TaskStatus}
use favetto.Model.Task.{ℤ, Uuid}
use favetto.Executor.State.{State}
use favetto.Attention.Watch.{
  poll_once, probe, watch_end, WatchEnd, Poll, Watcher, WatchArgs, resume_task, on_task, go_on,
  watch_polls, watch_inner,
}
use favetto.Attention.Writes.{Nowhere, reconcile_task-Nowhere}

pub on_task-awaiting_input :
    (task : Option Uuid) (write : Uuid → State → State) (w : Watcher)
    → (on_task task write w).awaiting_input ≡ w.awaiting_input
on_task-awaiting_input none write w = refl
on_task-awaiting_input (some id) write w = refl

go_on-Nowhere :
    (a : WatchArgs) (id : Uuid) (w : Watcher)
    → a.task_id ≡ some id
    → Nowhere id TaskStatus.awaiting_input (go_on a w).state
unfolding go_on resume_task
go_on-Nowhere a id w e =
    subst
      (λ o.
        Nowhere id TaskStatus.awaiting_input
          (on_task o resume_task (record w { awaiting_input = none })).state)
      (sym e) (reconcile_task-Nowhere id false w.state)

pub probe-none : (a : WatchArgs) (p : Poll) → a.interactive ≡ false → probe a p ≡ none
probe-none a p e = ap (λ b. if b then p.turn_done else none) e

watch_polls-exits :
    (a : WatchArgs) (ps : List Poll) (w : Watcher)
    → a.interactive ≡ false
    → (watch_polls a ps w).1 ≡ none
unfolding watch_polls
watch_polls-exits a [] w e = refl
watch_polls-exits a (p ∷ ps) w e =
    let polled : Watcher = poll_once a p w in
    let slept : Watcher = record polled { state = p.meanwhile polled.state } in
    subst
      (λ o.
        (elim o as (λ x. Watcher × Option Bool) [
          | some success ↦ (polled, some success)
          | none ↦ watch_polls a ps slept
        ]).1
        ≡ none)
      (sym (probe-none a p e)) (watch_polls-exits a ps slept e)

-- When a watch is over, nothing waits: the slot of the session is empty and no row of the task is
-- `awaiting_input`. It ends with the answer of a turn probe only if it is interactive, and else
-- with the exit code.
pub watch_inner-rests :
    (a : WatchArgs) (id : Uuid) (ps : List Poll) (exit_code : Option ℤ) (w : Watcher)
    → a.task_id ≡ some id
    → let (w', end) = watch_inner a ps exit_code w in
      (w'.awaiting_input ≡ none)
      × Nowhere id TaskStatus.awaiting_input w'.state
      × (a.interactive ≡ false → end ≡ WatchEnd.exited exit_code)
unfolding watch_inner go_on resume_task
watch_inner-rests a id ps exit_code w e =
    let w' : Watcher = (watch_polls a ps w).0 in
    (
      on_task-awaiting_input a.task_id resume_task (record w' { awaiting_input = none }),
      go_on-Nowhere a id w' e,
      λ i. ap (λ o. watch_end o exit_code) (watch_polls-exits a ps w i),
    )
