-- ===== src/Executor/Started.antt =====
-- Every dependent of a finished task is in the queue: `start_dependents` of
-- crates/favetto/src/executor.rs.
use favetto.Common.{ℕ, ◌≤◌, ◌≡◌, List, Text, All}
use favetto.Model.Task.{Task, Event}
use favetto.Catalog.Def.{TaskDef}
use favetto.Executor.State.{External, State}
use favetto.Executor.Dependents.{needs_key}
use favetto.Executor.Barrier.{HasKey, NoId}
use favetto.Executor.Starts.{Triggers, NeedsTask}

-- `new_v4` gives no id twice, and none of those to come is in the table.
abbrev pub NewIds : External → State → Type 0
NewIds ext s =
    ((m n : ℕ) → ext.new_v4 m ≡ ext.new_v4 n → m ≡ n)
    × ((n : ℕ) → s.drawn ≤ n → NoId (ext.new_v4 n) s.db.tasks)

-- the dependents of the event that the catalog has
abbrev pub AllStarted : Event → Text → State → List TaskDef → Type 0
AllStarted ev name t catalog =
    All
      (λ d.
        NeedsTask name (λ k. Triggers k ev.payload.success) d
        → HasKey (needs_key d.name ev.id) t.db)
      catalog
