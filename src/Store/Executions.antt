-- ===== src/Store/Executions.antt =====
-- The executions of core/store.py, their abort flag and their rollback children.
--
--   execution: running ──► verifying ──► a terminal status
--                 └───────────┴──(core restarted)──► interrupted
pub mod Settled
use planet_express.Prelude.{
  Bool, not, ◌&&◌, ◌||◌, Option, none, some, List, [], ◌∷◌, ◌++◌, ◌==◌, if◌then◌else◌, is_none,
  is_some, opt_eq, coalesce, select, find_row, update_where,
}
use planet_express.Store.Rows.{
  Text, Time, Execution, ExecutionKind, ExecutionStatus, Db, Event, EventDetail, is_active, is_run,
}
use planet_express.Store.Approvals.{has_id}
use planet_express.Store.Tx.{
  Result, ok, err, Tx, ◌>>=◌, ◌>>◌, pure, raise, gets, guard, event, value_error, key_error,
  integrity_error,
}

abbrev pub has_execution_id : Text → Execution → Bool
has_execution_id id e = e.id == id

-- A row of the index `executions_one_active_rollback`, at this parent.
abbrev pub active_rollback_of : Option Text → Execution → Bool
active_rollback_of parent e =
    not (is_run e.kind) && is_active e.status && opt_eq e.parent_execution_id parent

-- `status in TERMINAL_EXECUTION_STATUSES`
abbrev pub is_terminal : ExecutionStatus → Bool
is_terminal s = not (is_active s)

-- An `INSERT INTO executions`: the primary key, the approval that the row refers to, and the index
-- on active rollbacks refuse it.
unfoldable pub insert_execution : Execution → Tx (Unit {0})
insert_execution e db =
    if is_some (find_row (has_execution_id e.id) db.executions)
      || is_none (find_row (has_id e.approval_id) db.approvals)
      || (not (is_run e.kind)
          && is_active e.status
          && is_some (find_row (active_rollback_of e.parent_execution_id) db.executions))
    then raise integrity_error db
    else pure tt (record db { executions = db.executions ++ e ∷ [] })

abbrev pub new_execution : Time → Text → Text → Execution
new_execution now fresh approval = record {
  id = fresh;
  approval_id = approval;
  kind = ExecutionKind.run;
  parent_execution_id = none;
  status = ExecutionStatus.running;
  started_at = now;
  finished_at = none;
  reason = none;
  abort_requested_at = none;
}

-- `Store.create_execution`
pub create_execution : Time → Text → Text → Tx Execution
unfolding insert_execution event
create_execution now fresh approval = do
  insert_execution (new_execution now fresh approval)
  event now EventDetail.execution_started (some approval) (some fresh)
  pure (new_execution now fresh approval)

-- What `set_execution_status` writes into a row.
abbrev pub enter : Time → ExecutionStatus → Option Text → Execution → Execution
enter now status reason e = record e {
  status = status;
  reason = coalesce reason e.reason;
  finished_at = if is_terminal status then some now else none;
}

-- The row that moves into an active status meets no other active rollback of its parent.
abbrev pub clashes : ExecutionStatus → Execution → List Execution → Bool
clashes status e rows =
    not (is_run e.kind)
    && is_active status
    && is_some
        (find_row (λ o. active_rollback_of e.parent_execution_id o && not (o.id == e.id)) rows)

unfoldable pub move_execution :
    Time → Text → ExecutionStatus → Option Text → Option Execution → Tx (Unit {0})
unfolding event
move_execution now id status reason none db = raise key_error db
move_execution now id status reason (some e) db =
    if clashes status e db.executions
    then raise integrity_error db
    else event now (EventDetail.execution_entered status reason) (some e.approval_id) (some id)
        (record db {
          executions = update_where (has_execution_id id) (enter now status reason) db.executions;
        })

-- `Store.set_execution_status`; the statuses are the constructors, so none is unknown.
unfoldable pub set_execution_status : Time → Text → ExecutionStatus → Option Text → Tx (Unit {0})
unfolding move_execution
set_execution_status now id status reason = do
  found ← gets (λ db. find_row (has_execution_id id) db.executions)
  move_execution now id status reason found

pub data AbortReply : Type 0 where
  requested already not_running unknown : AbortReply

abbrev flag_abort : Time → Execution → Execution
flag_abort now e = record e { abort_requested_at = some now }

abort_found : Time → Text → Text → Option Execution → Tx AbortReply
unfolding event
abort_found now id operator none db = pure AbortReply.unknown db
abort_found now id operator (some e) db =
    if not (is_active e.status)
    then pure AbortReply.not_running db
    else if is_some e.abort_requested_at
    then pure AbortReply.already db
    else (do
      event now (EventDetail.execution_abort_requested operator) (some e.approval_id) (some id)
      pure AbortReply.requested)
        (record db {
          executions = update_where (has_execution_id id) (flag_abort now) db.executions;
        })

-- `Store.request_abort`
pub request_abort : Time → Text → Text → Tx AbortReply
unfolding abort_found
request_abort now id operator = do
  found ← gets (λ db. find_row (has_execution_id id) db.executions)
  abort_found now id operator found

abbrev pub new_rollback : Time → Text → Text → Text → Execution
new_rollback now fresh parent approval = record {
  id = fresh;
  approval_id = approval;
  kind = ExecutionKind.rollback;
  parent_execution_id = some parent;
  status = ExecutionStatus.running;
  started_at = now;
  finished_at = none;
  reason = none;
  abort_requested_at = none;
}

rollback_of : Time → Text → Text → Text → Option Execution → Tx Execution
unfolding insert_execution event
rollback_of now fresh parent operator none = raise value_error
rollback_of now fresh parent operator (some p) = do
  guard (is_run p.kind) value_error
  insert_execution (new_rollback now fresh parent p.approval_id)
  event now (EventDetail.execution_rollback_started parent operator) (some p.approval_id)
      (some fresh)
  pure (new_rollback now fresh parent p.approval_id)

-- `except sqlite3.IntegrityError: return None`, outside the transaction.
abbrev pub absent_on_integrity_error : {A : Type 0} → Db → Result (A × Db) → Result (Option A × Db)
absent_on_integrity_error db (ok (a, db')) = ok (some a, db')
absent_on_integrity_error db (err integrity_error) = ok (none, db)
absent_on_integrity_error db (err e) = err e

-- `Store.create_rollback_execution`
pub create_rollback_execution : Time → Text → Text → Text → Tx (Option Execution)
unfolding rollback_of
create_rollback_execution now fresh parent operator db = absent_on_integrity_error db (
    (do
      found ← gets (λ db. find_row (has_execution_id parent) db.executions)
      rollback_of now fresh parent operator found)
      db)

abbrev interrupt : Time → Text → Execution → Execution
interrupt now reason e = record e {
  status = ExecutionStatus.interrupted;
  reason = some reason;
  finished_at = some now;
}

abbrev interruption_events : Time → Text → List Execution → List Event
interruption_events now reason [] = []
interruption_events now reason (e ∷ rows) =
    record {
      ts = now;
      detail = EventDetail.execution_entered ExecutionStatus.interrupted (some reason);
      approval_id = some e.approval_id;
      execution_id = some e.id;
    }
    ∷ interruption_events now reason rows

-- `status IN ('running', 'verifying')`, joined with the approval of the row.
abbrev pub is_unfinished : Db → Execution → Bool
is_unfinished db e = is_active e.status && is_some (find_row (has_id e.approval_id) db.approvals)

-- `Store.interrupt_unfinished`, at the start of the core: the executions that it interrupted.
pub interrupt_unfinished : Time → Text → Tx (List Execution)
interrupt_unfinished now reason db = pure (select (is_unfinished db) db.executions) (record db {
  executions = update_where (is_unfinished db) (interrupt now reason) db.executions;
  events = db.events ++ interruption_events now reason (select (is_unfinished db) db.executions);
})
