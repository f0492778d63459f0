-- ===== src/Examples/Streamed.antt =====
-- A client that resumes at the sample state, and clients that lose an event.
use favetto.Common.{◌≡◌, refl, arith, [], ◌∷◌, some, order_by, insert_by}
use favetto.Model.EventKind.{EventKind}
use favetto.Model.Task.{Event}
use favetto.Store.Tasks.{insert_event}
use favetto.Executor.State.{State, Push, publish, emit_event, no_payload}
use favetto.Events.Stream.{
  events_after, OnLag, follow, replay, resumable, ingest_event, ingest_pushes,
}
use favetto.Events.Numbers.{newer}
use favetto.Events.Emissions.{emit, here, next}
use favetto.Events.Delivery.{live_pushes, resumable-newer}
use favetto.Examples.Data.{state}

abbrev emitted : State → State
emitted = emit_event EventKind.task_idle no_payload

-- two events are in the log, the client has the first; a third comes before the replay, a fourth after
abbrev start : State
start = emitted (emitted state)

resumable-newer_example :
    (ingest_pushes
      (resumable
        (emitted start).db
        (some 1)
        500
        OnLag.stop
        (live_pushes start (emitted (emitted start)))
        256)
      (record { last_event_id = 1; events = [] })).events
    ≡ newer 1 (emitted (emitted start)).db.events
unfolding emit_event publish insert_event
resumable-newer_example =
    resumable-newer {s₀ = start} {s₁ = emitted start} {s₂ = emitted (emitted start)}
      (next here (emit EventKind.task_idle no_payload))
      (next here (emit EventKind.task_idle no_payload)) (omega arith, (omega arith, omega arith)) 1
      500 256 OnLag.stop [] (omega arith) (omega arith)

abbrev numbered : Event
numbered = record { id = 5; kind = EventKind.task_idle; payload = no_payload; created_at = 0 }

-- two emissions whose pushes come in the other order: the client drops the first
out_of_order :
    (ingest_pushes
      (Push.event (record numbered { id = 6 }) ∷ Push.event numbered ∷ [])
      (record { last_event_id = 4; events = [] })).events
    ≡ record numbered { id = 6 } ∷ []
unfolding ingest_pushes ingest_event
out_of_order = refl

-- a replay that its limit cuts, and a live push behind it: the client drops what is between
cut_replay :
    (ingest_pushes
      (resumable
        (emitted start).db
        (some 1)
        1
        OnLag.stop
        (live_pushes (emitted start) (emitted (emitted start)))
        256)
      (record { last_event_id = 1; events = [] })).last_event_id
    ≡ 4
unfolding ingest_pushes ingest_event resumable events_after replay follow emit_event publish
    insert_event order_by insert_by
cut_replay = refl
