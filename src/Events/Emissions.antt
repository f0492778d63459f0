-- ===== src/Events/Emissions.antt =====
-- What the operations of the daemon do to the log of events and to the bus:
-- crates/favetto/src/state.rs and crates/favetto/src/event_bus.rs.
use favetto.Common.{◌≡◌, refl, sym, ap, ◌∙◌, subst, arith, List, [], ◌∷◌, ◌++◌}
use mathlib.Core.List.{append_assoc, append-nil}
use favetto.Model.EventKind.{EventKind}
use favetto.Model.Task.{Event, Payload, Task}
use favetto.Store.Tasks.{insert_event}
use favetto.Executor.State.{State, Push, publish, publish_task, emit_event}
use favetto.Events.Numbers.{Numbered, Numbered-append}

-- What the daemon does to the log and to the bus, one operation after the other: it emits an event,
-- publishes a task, or does what concerns neither.
pub data Step : State → State → Type 0 where
  emit : {s : State} (kind : EventKind) (p : Payload) → Step s (emit_event kind p s)
  push : {s : State} (t : Task) → Step s (publish_task t s)
  work :
      {s t : State}
      → t.bus ≡ s.bus
      → t.db.events ≡ s.db.events
      → t.db.next_event_id ≡ s.db.next_event_id
      → Step s t

pub data Reach : State → State → Type 0 where
  here : {s : State} → Reach s s
  next : {s t u : State} → Reach s t → Step t u → Reach s u

-- the events among the pushes
abbrev pub events_of : List Push → List Event
events_of [] = []
events_of (Push.event e ∷ ps) = e ∷ events_of ps
events_of (Push.task_updated t ∷ ps) = events_of ps

-- the events that were emitted between two states: stored at the end of the log under new numbers,
-- and published in the same order
pub record Emitted (s t : State) : Type 0 where
  pub pushes : List Push
  pub bus : t.bus ≡ s.bus ++ pushes
  pub log : t.db.events ≡ s.db.events ++ events_of pushes
  pub numbered : Numbered s.db.next_event_id (events_of pushes) t.db.next_event_id

pub events_of-append : (ps qs : List Push) → events_of (ps ++ qs) ≡ events_of ps ++ events_of qs
events_of-append [] qs = refl
events_of-append (Push.event e ∷ ps) qs = ap (λ es. e ∷ es) (events_of-append ps qs)
events_of-append (Push.task_updated t ∷ ps) qs = events_of-append ps qs

pub Step-Emitted : {s t : State} → Step s t → Emitted s t
unfolding emit_event publish publish_task insert_event
Step-Emitted {s = s} (emit kind p) = record {
  pushes =
      Push.event (record { id = s.db.next_event_id; kind = kind; payload = p; created_at = s.now })
      ∷ [];
  bus = refl;
  log = refl;
  numbered = (omega arith, omega arith);
}
Step-Emitted {s = s} (push t) = record {
  pushes = _;
  bus = refl;
  log = sym (append-nil s.db.events);
  numbered = omega arith;
}
Step-Emitted {s = s} {t = t} (work b l n) = record {
  pushes = [];
  bus = b ∙ sym (append-nil s.bus);
  log = l ∙ sym (append-nil s.db.events);
  numbered = omega (arith, n);
}

pub Emitted_trans : {s t u : State} → Emitted s t → Emitted t u → Emitted s u
Emitted_trans {s = s} {t = t} {u = u} h k = record {
  pushes = h.pushes ++ k.pushes;
  bus = k.bus ∙ ap (λ b. b ++ k.pushes) h.bus ∙ append_assoc s.bus h.pushes k.pushes;
  log =
      k.log
      ∙ ap (λ l. l ++ events_of k.pushes) h.log
      ∙ append_assoc s.db.events (events_of h.pushes) (events_of k.pushes)
      ∙ ap (λ es. s.db.events ++ es) (sym (events_of-append h.pushes k.pushes));
  numbered =
      subst (λ es. Numbered s.db.next_event_id es u.db.next_event_id)
        (sym (events_of-append h.pushes k.pushes))
        (Numbered-append s.db.next_event_id (events_of h.pushes) t.db.next_event_id
          (events_of k.pushes) u.db.next_event_id h.numbered k.numbered);
}

pub Reach-Emitted : {s t : State} → Reach s t → Emitted s t
Reach-Emitted {s = s} here = record {
  pushes = [];
  bus = sym (append-nil s.bus);
  log = sym (append-nil s.db.events);
  numbered = omega arith;
}
Reach-Emitted (next r st) = Emitted_trans (Reach-Emitted r) (Step-Emitted st)
