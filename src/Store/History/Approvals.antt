-- ===== src/Store/History/Approvals.antt =====
-- An approval is decided once, whatever happens afterwards.
use planet_express.Prelude.{
  List, [], ◌∷◌, ◌≡◌, some, Evolves-find_row, find_row, ap, DistinctOn, ◌==◌, count_where, All,
  All-Evolves, ◌≤◌,
}
use planet_express.Store.Rows.{Text, Time, Approval, Db}
use planet_express.Store.Keeps.{Keeps-write}
use planet_express.Store.Approvals.{has_id, pending_for}
use planet_express.Store.Approvals.Settled.{
  IsCoherent, Advances, Since, Since-refl, propose-Since, propose_runbook-Since,
}
use planet_express.Store.Decisions.Settled.{
  consume-Since, approve_and_create_execution-Since, refuse_stale_incident_approval-Since,
  supersede_pending-Since, get_approval-Since, list_pending-Since, set_message_id-Since,
  create_direct_execution-Since,
}
use planet_express.Store.Executions.Settled.{
  create_execution-Since, set_execution_status-Since, request_abort-Since,
  create_rollback_execution-Since, interrupt_unfinished-Since,
}
use planet_express.Store.History.{
  Call, proposes, proposes_runbook, consumes, approves, refuses_stale, supersedes, gets_approval,
  lists_pending, sets_message_id, runs_directly, creates_execution, sets_execution_status,
  requests_abort, rolls_back, restarts, step, run,
}

module _ (rows : List Approval) where
  step-Since : (db : Db) (c : Time × Call) → Since rows db → Since rows (step db c)
  unfolding step
  step-Since db (now, proposes fresh p) = Keeps-write _ db (propose-Since rows now fresh p)
  step-Since db (now, proposes_runbook fresh p) =
      Keeps-write _ db (propose_runbook-Since rows now fresh p)
  step-Since db (now, consumes id d by at) = Keeps-write _ db (consume-Since rows now id d by at)
  step-Since db (now, approves fresh id by at) =
      Keeps-write _ db (approve_and_create_execution-Since rows now fresh id by at)
  step-Since db (now, refuses_stale id by at r) =
      Keeps-write _ db (refuse_stale_incident_approval-Since rows now id by at r)
  step-Since db (now, supersedes id r) = Keeps-write _ db (supersede_pending-Since rows now id r)
  step-Since db (now, gets_approval id t) = Keeps-write _ db (get_approval-Since rows now id t)
  step-Since db (now, lists_pending) = Keeps-write _ db (list_pending-Since rows now)
  step-Since db (now, sets_message_id id m) = Keeps-write _ db (set_message_id-Since rows id m)
  step-Since db (now, runs_directly f e r) =
      Keeps-write _ db (create_direct_execution-Since rows now f e r)
  step-Since db (now, creates_execution f a) =
      Keeps-write _ db (create_execution-Since rows now f a)
  step-Since db (now, sets_execution_status id s r) =
      Keeps-write _ db (set_execution_status-Since rows now id s r)
  step-Since db (now, requests_abort id o) = Keeps-write _ db (request_abort-Since rows now id o)
  step-Since db (now, rolls_back f p o) =
      Keeps-write _ db (create_rollback_execution-Since rows now f p o)
  step-Since db (now, restarts r) = Keeps-write _ db (interrupt_unfinished-Since rows now r)

  pub run-Since : (cs : List (Time × Call)) (db : Db) → Since rows db → Since rows (run db cs)
  unfolding run
  run-Since [] db h = h
  run-Since (c ∷ cs) db h = run-Since cs (step db c) (step-Since db c h)

Advances-has_id : (id : Text) (a b : Approval) → Advances a b → has_id id b ≡ has_id id a
Advances-has_id id a b h = ap (λ k. k == id) h.id

-- What the schema keeps true of the approvals: the primary key, and the index
-- `approvals_one_pending`.
pub record IsKeyed (db : Db) : Type 0 where
  pub distinct : DistinctOn (λ (a : Approval). a.id) db.approvals
  pub one_pending :
      (action target_key : Text) → count_where (pending_for action target_key) db.approvals ≤ 1

from_start : (db : Db) (cs : List (Time × Call)) → IsKeyed db → Since db.approvals (run db cs)
from_start db cs k = run-Since db.approvals cs db (Since-refl db k.distinct k.one_pending)

-- No sequence of operations breaks the keys of the approvals: ids stay distinct, and at most one
-- approval is pending for an action and a target.
pub run-IsKeyed : (db : Db) (cs : List (Time × Call)) → IsKeyed db → IsKeyed (run db cs)
run-IsKeyed db cs k =
    let s = from_start db cs k in record { distinct = s.distinct; one_pending = s.one_pending }

-- Whatever operations follow, the approval that an id finds is found again with the same request
-- (action, target, plan, expiry); and if it is not pending any more, its status, who decided it and
-- when are the same too.
pub run-decided :
    (db : Db) (cs : List (Time × Call)) (id : Text) (a : Approval)
    → IsKeyed db
    → find_row (has_id id) db.approvals ≡ some a
    → (b : Approval) × (find_row (has_id id) (run db cs).approvals ≡ some b) × Advances a b
run-decided db cs id a k found =
    Evolves-find_row Advances IsCoherent (has_id id) (Advances-has_id id) db.approvals
      (run db cs).approvals (from_start db cs k).history a found

-- If every approval names who decided it and when exactly if it is decided, that stays so.
pub run-IsCoherent :
    (db : Db) (cs : List (Time × Call))
    → IsKeyed db
    → All IsCoherent db.approvals
    → All IsCoherent (run db cs).approvals
run-IsCoherent db cs k h =
    All-Evolves Advances IsCoherent (λ a b c e. e.coherent c) db.approvals (run db cs).approvals h
      (from_start db cs k).history
