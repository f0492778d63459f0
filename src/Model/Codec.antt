-- ===== src/Model/Codec.antt =====
-- The texts that the database and the wire store decode to the value they were written from:
-- crates/favetto-wire/src/model.rs.
use favetto.Common.{◌≡◌, ◌↔◌, refl, some, codes, Text, text_eq, text_eq-eq, arith}
use favetto.Model.Status.{
  TaskStatus, RunStatus, task_status_as_str, task_status_from_str, run_status_as_str,
  run_status_from_str,
}
use favetto.Model.EventKind.{EventKind, as_str, pascal, from_name}

task_status_round_trip : (s : TaskStatus) → task_status_from_str (task_status_as_str s) ≡ some s
unfolding task_status_from_str task_status_as_str text_eq
task_status_round_trip TaskStatus.pending = refl
task_status_round_trip _ = refl

task_status_inverse :
    (s : TaskStatus) (t : Text) → task_status_from_str t ≡ some s → t ≡ task_status_as_str s
unfolding task_status_from_str task_status_as_str
task_status_inverse s t h = ground (
  arith,
  text_eq-eq t (codes "pending"),
  text_eq-eq t (codes "running"),
  text_eq-eq t (codes "awaiting_input"),
  text_eq-eq t (codes "succeeded"),
  text_eq-eq t (codes "failed"),
  text_eq-eq t (codes "cancelled"),
)

-- A text is read as a task status exactly if it is the text that is stored for the status.
pub task_status_from_str-as_str :
    (s : TaskStatus) (t : Text) → (task_status_from_str t ≡ some s) ↔ (t ≡ task_status_as_str s)
task_status_from_str-as_str s t = (task_status_inverse s t, λ e. rw e (task_status_round_trip s))

run_status_round_trip : (s : RunStatus) → run_status_from_str (run_status_as_str s) ≡ some s
unfolding run_status_from_str run_status_as_str text_eq
run_status_round_trip RunStatus.pending = refl
run_status_round_trip _ = refl

run_status_inverse :
    (s : RunStatus) (t : Text) → run_status_from_str t ≡ some s → t ≡ run_status_as_str s
unfolding run_status_from_str run_status_as_str
run_status_inverse s t h = ground (
  arith,
  text_eq-eq t (codes "pending"),
  text_eq-eq t (codes "running"),
  text_eq-eq t (codes "awaiting_input"),
  text_eq-eq t (codes "succeeded"),
  text_eq-eq t (codes "failed"),
  text_eq-eq t (codes "cancelled"),
  text_eq-eq t (codes "interrupted"),
  text_eq-eq t (codes "timed_out"),
)

-- A text is read as a run status exactly if it is the text that is stored for the status.
pub run_status_from_str-as_str :
    (s : RunStatus) (t : Text) → (run_status_from_str t ≡ some s) ↔ (t ≡ run_status_as_str s)
run_status_from_str-as_str s t = (run_status_inverse s t, λ e. rw e (run_status_round_trip s))

-- Each event kind is read back from either of its spellings.
pub from_name-as_str :
    (k : EventKind) → (from_name (as_str k) ≡ some k) × (from_name (pascal k) ≡ some k)
unfolding from_name as_str pascal text_eq
from_name-as_str EventKind.task_created = (refl, refl)
from_name-as_str _ = (refl, refl)
