-- ===== src/Store/History.antt =====
-- The store over time: any sequence of the operations that change approvals or executions, each a write
-- transaction of its own at its own clock reading, whether it returns or raises. The listings
-- `list_recent_approvals` and `list_incident_proposals_batch` write what `list_pending` does.
pub mod Approvals
pub mod Once
use planet_express.Prelude.{ℕ, Option, List, [], ◌∷◌}
use planet_express.Store.Rows.{Text, Time, ApprovalStatus, ExecutionStatus, Db}
use planet_express.Store.Tx.{write}
use planet_express.Store.Approvals.{Proposal, propose, propose_runbook}
use planet_express.Store.Decisions.{
  consume, approve_and_create_execution, refuse_stale_incident_approval, supersede_pending,
  get_approval, list_pending, set_message_id, DirectRequest, create_direct_execution,
}
use planet_express.Store.Executions.{
  create_execution, set_execution_status, request_abort, create_rollback_execution,
  interrupt_unfinished,
}

pub data Call : Type 0 where
  proposes : Text → Proposal → Call
  proposes_runbook : Text → Proposal → Call
  consumes : Text → ApprovalStatus → Text → Time → Call
  approves : Text → Text → Text → Time → Call
  refuses_stale : Text → Text → Time → Text → Call
  supersedes : Text → Text → Call
  gets_approval : Text → Option Time → Call
  lists_pending : Call
  sets_message_id : Text → Option ℕ → Call
  runs_directly : Text → Text → DirectRequest → Call
  creates_execution : Text → Text → Call
  sets_execution_status : Text → ExecutionStatus → Option Text → Call
  requests_abort : Text → Text → Call
  rolls_back : Text → Text → Text → Call
  restarts : Text → Call

pub step : Db → Time × Call → Db
step db (now, proposes fresh p) = (write (propose now fresh p) db).1
step db (now, proposes_runbook fresh p) = (write (propose_runbook now fresh p) db).1
step db (now, consumes id d by at) = (write (consume now id d by at) db).1
step db (now, approves fresh id by at) =
    (write (approve_and_create_execution now fresh id by at) db).1
step db (now, refuses_stale id by at r) =
    (write (refuse_stale_incident_approval now id by at r) db).1
step db (now, supersedes id r) = (write (supersede_pending now id r) db).1
step db (now, gets_approval id t) = (write (get_approval now id t) db).1
step db (now, lists_pending) = (write (list_pending now) db).1
step db (now, sets_message_id id m) = (write (set_message_id id m) db).1
step db (now, runs_directly fresh fresh_execution r) =
    (write (create_direct_execution now fresh fresh_execution r) db).1
step db (now, creates_execution fresh a) = (write (create_execution now fresh a) db).1
step db (now, sets_execution_status id s r) = (write (set_execution_status now id s r) db).1
step db (now, requests_abort id o) = (write (request_abort now id o) db).1
step db (now, rolls_back fresh parent o) =
    (write (create_rollback_execution now fresh parent o) db).1
step db (now, restarts r) = (write (interrupt_unfinished now r) db).1

pub run : Db → List (Time × Call) → Db
run db [] = db
run db (c ∷ cs) = run (step db c) cs
