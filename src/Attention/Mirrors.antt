-- ===== src/Attention/Mirrors.antt =====
-- The screen detection of crates/favetto/src/attention.rs as a whole: what the polls saw, and what
-- the slot and the task show.
use favetto.Common.{
  ◌≡◌, refl, sym, ap, subst, ◌∙◌, Bool, true, false, not, ◌&&◌, is_some, List, [], ◌∷◌, Option,
  none, some, if◌then◌else◌,
}
use favetto.Model.Status.{TaskStatus}
use favetto.Model.Task.{Uuid}
use favetto.Model.Prompt.{AwaitingInputReason}
use favetto.Executor.State.{State}
use favetto.Executor.Reconcile.{reconcile_task, awaiting_edge}
use favetto.Attention.Debouncer.{observe}
use favetto.Attention.Waiting.{Polls, observed, last_detected, Waiting, observe-Waiting}
use favetto.Attention.Watch.{
  Poll, Watcher, take_over, drain_events, WatchArgs, watcher, on_task, on_edge, poll_state,
  poll_screen, read_screen, poll_once, watch_polls,
}
use favetto.Attention.Writes.{Nowhere, reconcile_task-Nowhere}
use favetto.Attention.Rests.{probe-none, on_task-awaiting_input}

-- what the polls detected behind `seen`, the latest first
abbrev pub history : List Poll → Polls → Polls
history [] seen = seen
history (p ∷ ps) seen = history ps (p.detected ∷ seen)

-- a watch of a task by its screen alone, with `seen` behind it
abbrev pub OnScreen : Polls → Watcher → Type 0
OnScreen seen w =
    (w.subscribed ≡ false) × (w.state_authoritative ≡ false) × (w.debouncer ≡ observed seen)

on_task-OnScreen :
    (task : Option Uuid) (write : Uuid → State → State) (seen : Polls) (w : Watcher)
    → OnScreen seen w
    → OnScreen seen (on_task task write w)
on_task-OnScreen none write seen w h = h
on_task-OnScreen (some id) write seen w h = h

read_screen-OnScreen :
    (a : WatchArgs) (p : Poll) (seen : Polls) (w : Watcher)
    → OnScreen seen w
    → OnScreen (p.detected ∷ seen) (read_screen a p w)
unfolding read_screen observed
read_screen-OnScreen a p seen w (s, c, e) =
    let (d, edge) = observe p.detected w.debouncer in
    let w₀ : Watcher = record w { debouncer = d } in
    let edged : Watcher = on_task a.task_id (on_edge a.session edge) w₀ in
    let h₀ : OnScreen (p.detected ∷ seen) w₀ = (s, c, ap (λ x. (observe p.detected x).0) e) in
    on_task-OnScreen a.task_id (λ id x. (reconcile_task id (is_some d.confirmed) x).0)
      (p.detected ∷ seen) (record edged { awaiting_input = d.confirmed })
      (on_task-OnScreen a.task_id (on_edge a.session edge) (p.detected ∷ seen) w₀ h₀)

-- without a source of events, a poll reads the screen
poll_state-unsubscribed :
    (a : WatchArgs) (p : Poll) (w : Watcher) → w.subscribed ≡ false → poll_state a p w ≡ w
unfolding poll_state
poll_state-unsubscribed a p w s =
    let taken : Watcher = if not w.state_authoritative && p.buffered then take_over a w else w in
    ap (λ b. if b then drain_events a p.events taken else w) s

poll_screen-detect :
    (a : WatchArgs) (p : Poll) (w : Watcher)
    → a.detect ≡ true
    → w.state_authoritative ≡ false
    → poll_screen a p w ≡ read_screen a p w
unfolding poll_screen
poll_screen-detect a p w e c =
    ap (λ b. if b then read_screen a p w else w) (ap (λ b. not b && a.detect) c ∙ e)

poll_once-screen :
    (a : WatchArgs) (p : Poll) (seen : Polls) (w : Watcher)
    → a.detect ≡ true
    → OnScreen seen w
    → poll_once a p w ≡ read_screen a p w
unfolding poll_once
poll_once-screen a p seen w e (s, c, d) =
    ap (poll_screen a p) (poll_state-unsubscribed a p w s) ∙ poll_screen-detect a p w e c

watch_polls-OnScreen :
    (a : WatchArgs) (ps : List Poll) (seen : Polls) (w : Watcher)
    → a.detect ≡ true
    → a.interactive ≡ false
    → OnScreen seen w
    → OnScreen (history ps seen) (watch_polls a ps w).0
unfolding watch_polls
watch_polls-OnScreen a [] seen w e i h = h
watch_polls-OnScreen a (p ∷ ps) seen w e i h =
    let polled : Watcher = poll_once a p w in
    let slept : Watcher = record polled { state = p.meanwhile polled.state } in
    let k : OnScreen (p.detected ∷ seen) polled =
      subst (OnScreen (p.detected ∷ seen)) (sym (poll_once-screen a p seen w e h))
        (read_screen-OnScreen a p seen w h) in
    subst
      (λ o.
        OnScreen (history ps (p.detected ∷ seen))
          (elim o as (λ x. Watcher × Option Bool) [
            | some success ↦ (polled, some success)
            | none ↦ watch_polls a ps slept
          ]).0)
      (sym (probe-none a p i)) (watch_polls-OnScreen a ps (p.detected ∷ seen) slept e i k)

-- What the slot and the task show of a debouncer's conclusion: the slot has it, and the task is
-- not `running` if there is one and not `awaiting_input` if there is none.
abbrev pub Shows : Uuid → Option AwaitingInputReason → Watcher → Type 0
Shows id confirmed w =
    (w.awaiting_input ≡ confirmed)
    × Nowhere id (if is_some confirmed then TaskStatus.running else TaskStatus.awaiting_input)
        w.state

edge_source :
    (b : Bool) → (awaiting_edge b).1 ≡ (if b then TaskStatus.running else TaskStatus.awaiting_input)
edge_source true = refl
edge_source false = refl

read_screen-Shows :
    (a : WatchArgs) (id : Uuid) (p : Poll) (w : Watcher)
    → a.task_id ≡ some id
    → Shows id (observe p.detected w.debouncer).0.confirmed (read_screen a p w)
unfolding read_screen
read_screen-Shows a id p w e =
    let (d, edge) = observe p.detected w.debouncer in
    let repair = λ (i : Uuid) (x : State). (reconcile_task i (is_some d.confirmed) x).0 in
    let edged : Watcher = on_task a.task_id (on_edge a.session edge) (record w { debouncer = d }) in
    let set : Watcher = record edged { awaiting_input = d.confirmed } in
    (
      on_task-awaiting_input a.task_id repair set,
      subst (λ x. Nowhere id x (on_task a.task_id repair set).state)
          (edge_source (is_some d.confirmed))
          (subst
            (λ o. Nowhere id (awaiting_edge (is_some d.confirmed)).1 (on_task o repair set).state)
            (sym e) (reconcile_task-Nowhere id (is_some d.confirmed) set.state)),
    )

is_none : (o : Option AwaitingInputReason) → ¬ (is_some o ≡ true) → o ≡ none
is_none none h = refl
is_none (some r) h = absurd (h refl)

-- A watch without a source of structured events, whatever others do in the sleeps: right behind
-- each poll of it the slot of the session and the task show what the polls so far say. If two in a
-- row detected a prompt and no three in a row behind them missed it, the slot has the reason
-- detected last, and no row of the task is `running`. Otherwise the slot is empty, and no row of
-- the task is `awaiting_input`.
pub poll_once-Shows :
    (a : WatchArgs) (id : Uuid) (ps : List Poll) (p : Poll) (slot : Option AwaitingInputReason)
    (s : State)
    → a.task_id ≡ some id
    → a.detect ≡ true
    → a.interactive ≡ false
    → let seen = p.detected ∷ history ps [] in
      let w = poll_once a p (watch_polls a ps (watcher false slot s)).0 in
      (Waiting seen → Shows id (last_detected seen) w) × (¬ Waiting seen → Shows id none w)
unfolding observed
poll_once-Shows a id ps p slot s e d i =
    let w : Watcher = (watch_polls a ps (watcher false slot s)).0 in
    let seen : Polls = history ps [] in
    let (sub, auth, same) : OnScreen seen w =
      watch_polls-OnScreen a ps [] (watcher false slot s) d i (refl, refl, refl) in
    let shows : Shows id (observed (p.detected ∷ seen)).confirmed (poll_once a p w) =
      subst (Shows id (observed (p.detected ∷ seen)).confirmed)
        (sym (poll_once-screen a p seen w d (sub, auth, same)))
        (subst (λ x. Shows id (observe p.detected x).0.confirmed (read_screen a p w)) same
          (read_screen-Shows a id p w e)) in
    let (waits, last, edge) = observe-Waiting p.detected seen in
    (
      λ k. subst (λ o. Shows id o (poll_once a p w)) (last k) shows,
      λ k.
          subst (λ o. Shows id o (poll_once a p w))
            (is_none (observed (p.detected ∷ seen)).confirmed (λ c. k (waits.0 c))) shows,
    )
