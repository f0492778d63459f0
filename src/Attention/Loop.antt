-- ===== src/Attention/Loop.antt =====
-- What the watch loop of crates/favetto/src/attention.rs changes in the tables.
use favetto.Common.{List, ◌∷◌, Option}
use favetto.Model.Task.{Uuid}
use favetto.Executor.State.{State}
use favetto.Attention.Watch.{Poll}
use favetto.Attention.Moves.{Moves}

-- A watch as what it and the others do by turns: a change by a poll, what comes in during the sleep,
-- and so on, up to the change by the last poll or at the end.
pub data Turns (task : Option Uuid) : List Poll → State → State → Type 0 where
  over : {ps : List Poll} {s t : State} → Moves task s t → Turns task ps s t
  turn :
      {p : Poll} {ps : List Poll} {s u : State} (t : State)
      → Moves task s t
      → Turns task ps (p.meanwhile t) u
      → Turns task (p ∷ ps) s u
