-- ===== src/Attention/Watch.antt =====
-- The watch loop of crates/favetto/src/attention.rs. What a poll finds outside the daemon is an
-- argument, and so is what others write while the loop sleeps.
use favetto.Common.{
  Text, Bool, true, false, not, ◌&&◌, is_some, List, [], ◌∷◌, Option, none, some, if◌then◌else◌,
}
use favetto.Model.EventKind.{EventKind}
use favetto.Model.Task.{ℤ, Uuid, Task, Payload}
use favetto.Model.Prompt.{AwaitingInputReason, InputRequest}
use favetto.Model.Agent.{AgentStateEvent}
use favetto.Store.Tasks.{get_task}
use favetto.Executor.State.{State, emit_event, task_payload}
use favetto.Executor.Reconcile.{reconcile_task}
use favetto.Attention.Debouncer.{Debouncer, Edge, mark, clear, fresh_debouncer, observe}

-- what `try_recv` gives, `Empty` left out
pub data TryRecv : Type 0 where
  received : AgentStateEvent → TryRecv
  lagged : TryRecv
  closed : TryRecv

-- What one poll finds: whether an event is buffered, what the receiver gives until it is empty,
-- the raw detection of a prompt, the answer of a turn probe that is due and answers in time, and
-- what others do during the sleep.
pub record Poll : Type 0 where
  pub buffered : Bool
  pub events : List TryRecv
  pub detected : Option AwaitingInputReason
  pub turn_done : Option Bool
  pub meanwhile : State → State

-- the variables of the loop, the slot that the agent manager keeps for the session, and the
-- daemon's state
pub record Watcher : Type 0 where
  pub debouncer : Debouncer
  pub subscribed : Bool  -- `state_rx.is_some()`
  pub state_authoritative : Bool
  pub awaiting_input : Option AwaitingInputReason
  pub state : State

pub data WatchEnd : Type 0 where
  exited : Option ℤ → WatchEnd
  turn_finished : Bool → WatchEnd

-- the arguments of `watch_inner` besides the polls
pub record WatchArgs : Type 0 where
  pub session : Text
  pub task_id : Option Uuid
  pub detect : Bool
  pub interactive : Bool

unfoldable pub resume_task : Uuid → State → State
unfolding reconcile_task
resume_task id s = (reconcile_task id false s).0

abbrev pub awaiting_payload : Text → AwaitingInputReason → Task → Payload
awaiting_payload session reason t = record (task_payload t.name t.id) {
  session_id = some session;
  reason = some reason;
}

unfoldable pub mark_awaiting : Uuid → Text → AwaitingInputReason → State → State
unfolding reconcile_task emit_event
mark_awaiting id session reason s =
    let (s', changed) = reconcile_task id true s in
    let announced : State = elim (get_task id s'.db) [
      | some t ↦ emit_event EventKind.task_awaiting_input (awaiting_payload session reason t) s'
      | none ↦ s'
    ] in
    if changed then announced else s'

abbrev pub request_reason : InputRequest → AwaitingInputReason
request_reason q = record {
  kind = q.kind;
  message = q.message;
  request_id = some q.id;
  options = q.options;
  allow_always = q.allow_always;
}

-- a write to the task, if the session has one
abbrev pub on_task : Option Uuid → (Uuid → State → State) → Watcher → Watcher
on_task none write w = w
on_task (some id) write w = record w { state = write id w.state }

-- `agents.set_awaiting_input`
abbrev pub set_awaiting_input : Option AwaitingInputReason → Watcher → Watcher
set_awaiting_input reason w = record w { awaiting_input = reason }

-- the agent goes on
unfoldable pub go_on : WatchArgs → Watcher → Watcher
unfolding resume_task
go_on a w = on_task a.task_id resume_task (set_awaiting_input none w)

unfoldable pub observe_state : WatchArgs → AgentStateEvent → Watcher → Watcher
unfolding mark_awaiting go_on
observe_state a (AgentStateEvent.input_requested q) w =
    on_task a.task_id (λ id. mark_awaiting id a.session (request_reason q))
      (set_awaiting_input (some (request_reason q)) w)
observe_state a (AgentStateEvent.input_resolved id) w = go_on a w
observe_state a (AgentStateEvent.idle outcome) w = go_on a w
observe_state a e w = w

-- the first buffered event takes over from the screen
unfoldable pub take_over : WatchArgs → Watcher → Watcher
unfolding resume_task
take_over a w =
    let resumed : Watcher =
      if is_some w.debouncer.confirmed then on_task a.task_id resume_task w else w in
    record resumed {
      awaiting_input = none;
      debouncer = fresh_debouncer;
      state_authoritative = true;
    }

unfoldable pub drain_events : WatchArgs → List TryRecv → Watcher → Watcher
unfolding observe_state
drain_events a [] w = w
drain_events a (received e ∷ rs) w = drain_events a rs (observe_state a e w)
drain_events a (lagged ∷ rs) w = drain_events a rs w
drain_events a (closed ∷ rs) w = record w { subscribed = false }

unfoldable pub poll_state : WatchArgs → Poll → Watcher → Watcher
unfolding take_over drain_events
poll_state a p w =
    let taken : Watcher = if not w.state_authoritative && p.buffered then take_over a w else w in
    if w.subscribed then drain_events a p.events taken else w

unfoldable pub on_edge : Text → Option Edge → Uuid → State → State
unfolding mark_awaiting resume_task
on_edge session none id s = s
on_edge session (some (mark reason)) id s = mark_awaiting id session reason s
on_edge session (some clear) id s = resume_task id s

-- the debounced detection on the screen, and the repair of the task behind it
unfoldable pub read_screen : WatchArgs → Poll → Watcher → Watcher
unfolding observe on_edge reconcile_task
read_screen a p w =
    let (d, edge) = observe p.detected w.debouncer in
    on_task a.task_id (λ id s. (reconcile_task id (is_some d.confirmed) s).0)
      (set_awaiting_input d.confirmed
        (on_task a.task_id (on_edge a.session edge) (record w { debouncer = d })))

unfoldable pub poll_screen : WatchArgs → Poll → Watcher → Watcher
unfolding read_screen
poll_screen a p w = if not w.state_authoritative && a.detect then read_screen a p w else w

-- one poll, up to the turn probe
unfoldable pub poll_once : WatchArgs → Poll → Watcher → Watcher
unfolding poll_state poll_screen
poll_once a p w = poll_screen a p (poll_state a p w)

abbrev pub probe : WatchArgs → Poll → Option Bool
probe a p = if a.interactive then p.turn_done else none

-- The polls that find the session running; behind the last one it does not.
unfoldable pub watch_polls : WatchArgs → List Poll → Watcher → Watcher × Option Bool
unfolding poll_once
watch_polls a [] w = (w, none)
watch_polls a (p ∷ ps) w =
    let polled = poll_once a p w in
    elim (probe a p) [
      | some success ↦ (polled, some success)
      | none ↦ watch_polls a ps (record polled { state = p.meanwhile polled.state })
    ]

abbrev pub watch_end : Option Bool → Option ℤ → WatchEnd
watch_end (some success) code = turn_finished success
watch_end none code = exited code

unfoldable pub watch_inner : WatchArgs → List Poll → Option ℤ → Watcher → Watcher × WatchEnd
unfolding watch_polls go_on
watch_inner a ps exit_code w =
    let (w', finished) = watch_polls a ps w in (go_on a w', watch_end finished exit_code)

-- the start of a watch
abbrev pub watcher : Bool → Option AwaitingInputReason → State → Watcher
watcher subscribed slot s = record {
  debouncer = fresh_debouncer;
  subscribed = subscribed;
  state_authoritative = false;
  awaiting_input = slot;
  state = s;
}
