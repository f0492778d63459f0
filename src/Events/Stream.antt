-- ===== src/Events/Stream.antt =====
-- The resumable stream of pushes: crates/favetto/src/event_bus.rs, `events_after` of
-- crates/favetto/src/db.rs, and `ingest_event` of crates/favetto-tui/src/tui/app/mod.rs, without
-- the sounds that it queues.
use favetto.Common.{
  ℕ, List, [], ◌∷◌, ◌++◌, Option, none, some, map, ltb, take, select_where, order_by, if◌then◌else◌,
}
use favetto.Model.Task.{Event}
use favetto.Store.Schema.{Db}
use favetto.Executor.State.{Push}

-- `WHERE id > ? ORDER BY id ASC LIMIT ?`
unfoldable pub events_after : ℕ → ℕ → Db → List Event
events_after id limit d =
    take limit (order_by (λ e. e.id) (select_where (λ e. ltb id e.id) d.events))

pub data OnLag : Type 0 where
  stop follow_on : OnLag  -- `End` and `Continue`

-- what `live.recv()` gives
pub data Received : Type 0 where
  pushed : Push → Received
  lagged : ℕ → Received
  closed : Received

-- the loop over the live pushes
unfoldable pub follow : OnLag → List Received → List Push
follow on_lag [] = []
follow on_lag (pushed p ∷ rs) = p ∷ follow on_lag rs
follow OnLag.stop (lagged n ∷ rs) = []
follow OnLag.follow_on (lagged n ∷ rs) = follow OnLag.follow_on rs
follow on_lag (closed ∷ rs) = []

-- what is replayed before that; `none` stands for a query that fails
unfoldable pub replay : Option ℕ → Option (List Event) → List Push
replay none events = []
replay (some after) none = []
replay (some after) (some events) = map Push.event events

-- What the client is sent: the replay as of the query on `d`, then what the subscription receives.
-- After `accepted` pushes the client is gone, and the next one fails.
unfoldable pub resumable : Db → Option ℕ → ℕ → OnLag → List Received → ℕ → List Push
unfolding events_after follow replay
resumable d last_event_id replay_limit on_lag live accepted = take accepted (
    replay last_event_id (elim last_event_id as (λ _. Option (List Event)) [
      | none ↦ none
      | some after ↦ some (events_after after replay_limit d)
    ])
    ++ follow on_lag live)

-- the events that the client has, and its cursor
pub record Seen : Type 0 where
  pub last_event_id : ℕ
  pub events : List Event

unfoldable pub ingest_event : Event → Seen → Seen
ingest_event e s =
    if ltb s.last_event_id e.id
    then record { last_event_id = e.id; events = s.events ++ e ∷ [] }
    else s

-- The client's reaction to the pushes; those that are no events change other parts of it.
unfoldable pub ingest_pushes : List Push → Seen → Seen
unfolding ingest_event
ingest_pushes [] s = s
ingest_pushes (Push.event e ∷ ps) s = ingest_pushes ps (ingest_event e s)
ingest_pushes (Push.task_updated t ∷ ps) s = ingest_pushes ps s
