-- ===== src/Store/Executions/Settled.antt =====
-- The operations of `Store.Executions` leave the approvals alone.
use planet_express.Prelude.{Option, List, arith}
use planet_express.Store.Rows.{Text, Time, Approval, Execution, ExecutionStatus}
use planet_express.Store.Keeps.{Keeps, keeps_rules}
use planet_express.Store.Approvals.Settled.{Since, event-Since}
use planet_express.Store.Executions.{
  insert_execution, create_execution, set_execution_status, request_abort,
  create_rollback_execution, interrupt_unfinished,
}

module _ (rows : List Approval) where
  pub insert_execution-Since : (e : Execution) → Keeps (Since rows) (insert_execution e)
  unfolding insert_execution
  insert_execution-Since e = record { at = λ db h. ground arith }

  pub create_execution-Since :
      (now : Time) (fresh a : Text) → Keeps (Since rows) (create_execution now fresh a)
  unfolding create_execution
  create_execution-Since now fresh a =
      search (keeps_rules, insert_execution-Since, event-Since rows)

  pub set_execution_status-Since :
      (now : Time) (id : Text) (s : ExecutionStatus) (r : Option Text)
      → Keeps (Since rows) (set_execution_status now id s r)
  unfolding set_execution_status
  set_execution_status-Since now id s r = record { at = λ db h. ground arith }

  pub request_abort-Since :
      (now : Time) (id operator : Text) → Keeps (Since rows) (request_abort now id operator)
  unfolding request_abort
  request_abort-Since now id operator = record { at = λ db h. ground arith }

  pub create_rollback_execution-Since :
      (now : Time) (fresh parent operator : Text)
      → Keeps (Since rows) (create_rollback_execution now fresh parent operator)
  unfolding create_rollback_execution
  create_rollback_execution-Since now fresh parent operator = record { at = λ db h. ground arith }

  pub interrupt_unfinished-Since :
      (now : Time) (reason : Text) → Keeps (Since rows) (interrupt_unfinished now reason)
  unfolding interrupt_unfinished
  interrupt_unfinished-Since now reason = record { at = λ db h. ground arith }
