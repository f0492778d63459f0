-- ===== src/Examples/Served.antt =====
-- The server's writes at the sample state, and its credentials.
use favetto.Common.{
  update_where, count_where, ◌&&◌, some, text_eq, ◌≡◌, refl, [], ◌∷◌, true, false, codes,
}
use favetto.Executor.Safe.{Keeping}
use favetto.Server.Tasks.{retry_task, cancel_workflow}
use favetto.Server.Guards.{retry_task-Keeping}
use favetto.Server.Cancels.{open_in_root, cancel_workflow-cancelled}
use favetto.Model.Status.{TaskStatus}
use favetto.Store.Schema.{is_open}
use favetto.Store.Tasks.{in_root}
use favetto.Server.Credentials.{
  TicketStore, remove_match, redeem_ticket, redeem_code, issue_code, unexpired, pair_ttl,
}
use favetto.Server.SingleUse.{redeem_code_once}
use favetto.Examples.Data.{state}

retry_task-Keeping_example : Keeping state (retry_task 3 state).0
retry_task-Keeping_example = retry_task-Keeping 3 state

cancel_workflow-cancelled_example :
    let t = (cancel_workflow 1 state).0 in
    (t.db.tasks
      ≡ update_where
          (λ r. is_open r.status && open_in_root 1 state.db.tasks r.id)
          (λ r. record r {
            task = record r.task { status = TaskStatus.cancelled; finished_at = some state.now };
          })
          state.db.tasks)
    × (t.db.runs ≡ state.db.runs)
    × (count_where (λ r. in_root 1 r && is_open r.status) t.db.tasks ≡ 0)
cancel_workflow-cancelled_example = cancel_workflow-cancelled 1 state

abbrev store : TicketStore
store = record {
  ttl = 30000;
  tickets =
      record { token = codes "t1"; issued = 5 } ∷ record { token = codes "t2"; issued = 6 } ∷ [];
}

accepted : (redeem_ticket (codes "t2") 100 store).1 ≡ true
unfolding redeem_ticket remove_match text_eq
accepted = refl

redeem_code_once_example :
    let (s', accepted) = redeem_code (codes "123456") 100 (issue_code (codes "123456") 50 []) in
    (accepted ≡ unexpired pair_ttl 100 50) × ((redeem_code (codes "123456") 200 s').1 ≡ false)
redeem_code_once_example = redeem_code_once (codes "123456") 50 100 200 []
