-- ===== src/Engine/Scripts.antt =====
-- What an executor does to the store, as a script, and how the run performs it: `_Dispatch`, and the
-- `try` around an executor. What the host answers decides which script it is, so the scripts are
-- arguments of a run.
use planet_express.Prelude.{ℕ, Bool, true, false, Option, none, some, List, if◌then◌else◌}
use planet_express.Store.Rows.{Text, Time, Dict, Effect, ExecutionStatus, Db, RollbackCandidate}
use planet_express.Store.Tx.{Result, ok, err, write}
use planet_express.Store.Executions.{set_execution_status}
use planet_express.Store.Steps.{
  StepSpec, set_step_pre_state, note_step_progress, mark_step_dispatched,
}
use planet_express.Store.Candidates.{
  open_rollback_candidate, close_rollback_candidate, hold_rollback_candidate,
}
use planet_express.Store.Attempts.{Limits, consume_attempt}
use planet_express.Engine.Programs.{Prog, ◌>>◌, pure}

pub data OutcomeStatus : Type 0 where
  passed failed aborted : OutcomeStatus

abbrev pub is_passed : OutcomeStatus → Bool
is_passed OutcomeStatus.passed = true
is_passed _ = false

abbrev pub is_aborted : OutcomeStatus → Bool
is_aborted OutcomeStatus.aborted = true
is_aborted _ = false

-- `StepOutcome`
pub record StepOutcome : Type 0 where
  pub status : OutcomeStatus
  pub effect : Effect
  pub reason : Text
  pub output : Option Text

-- `EngineResult`
pub record EngineResult : Type 0 where
  pub status : OutcomeStatus
  pub reason : Text
  pub steps : List StepOutcome

-- What an executor does, in order: it returns, it raises, or it calls the dispatch, `set_execution_status`
-- or `note_step_progress` and goes on. A canary
-- opens its window, dispatches, and goes on under a `finally`.
pub data Script : Type 0 where
  returns : StepOutcome → Script
  crashes : Text → Script
  dispatches : Option Dict → Script → Script
  enters : ExecutionStatus → Script → Script
  notes : Dict → Script → Script
  updates : RollbackCandidate → Dict → Script → Script

-- What the table of step types says, `validate_outputs`, which fails on unusable outputs, and `_clip`.
pub record Catalogue : Type 0 where
  pub is_limited : Text → Bool
  pub target_key : StepSpec → Text
  pub has_outputs : Text → Bool
  pub validate_outputs : Text → Option Text → Option Text
  pub clip : Text → Text

-- One run: the execution, the catalogue, the clock and the abort flag as they are read at each step.
pub record Run : Type 0 where
  pub execution : Text
  pub catalogue : Catalogue
  pub limits : Limits
  pub clock : ℕ → Time
  pub is_abort_requested : ℕ → Bool
  pub execute : ℕ → StepSpec → Script

unfoldable pub record_pre_state : Text → ℕ → Option Dict → Prog (Unit {0})
record_pre_state execution n none = pure tt
record_pre_state execution n (some d) = write (set_step_pre_state execution n d)

unfoldable pub spend : Time → Text → ℕ → Bool → Prog (Unit {0})
spend now execution n false = pure tt
spend now execution n true = write (consume_attempt now execution n)

-- `_Dispatch.__call__`, the first time.
unfoldable pub dispatch : Run → ℕ → Bool → Option Dict → Prog (Unit {0})
unfolding record_pre_state spend
dispatch r n mutating pre_state =
    record_pre_state r.execution n pre_state
    >> spend (r.clock n) r.execution n mutating
    >> write (mark_step_dispatched (r.clock n) r.execution n)

-- The outcome of an executor that raised.
abbrev pub crashed : Bool → Text → StepOutcome
crashed done reason = record {
  status = OutcomeStatus.failed;
  effect = if done then Effect.unknown else Effect.not_applied;
  reason = reason;
  output = none;
}

-- The text of an exception that the store raised.
abbrev pub store_raised : Text
store_raised = 3

-- A call of the store in an executor: what it raises, the run catches.
abbrev pub caught :
    {A : Type 0}
    → Bool
    → Result A × Db
    → (Db → (StepOutcome × Bool) × Db)
    → (StepOutcome × Bool) × Db
caught done (ok u, db) rest = rest db
caught done (err e, db) rest = ((crashed done store_raised, done), db)

abbrev pub is_unknown : Effect → Bool
is_unknown Effect.unknown = true
is_unknown _ = false

-- The `finally` of the canary: the window is held if the effect of the update is unknown, and closed
-- otherwise. An executor that raised after its dispatch counts as unknown. The local flag `closed` of
-- the code is set exactly on the returns whose effect is not unknown, so it is read off the effect.
unfoldable pub leave_window : Run → ℕ → (StepOutcome × Bool) × Db → (StepOutcome × Bool) × Db
leave_window r n (o, db) =
    if is_unknown (o.0).effect
    then (o, (write (hold_rollback_candidate r.execution n) db).1)
    else (o, (write (close_rollback_candidate (r.clock n) r.execution n) db).1)

-- A dispatch behind an open window, which is closed again if the dispatch raises.
abbrev pub dispatched :
    Run → ℕ → Result (Unit {0}) × Db → (Db → (StepOutcome × Bool) × Db) → (StepOutcome × Bool) × Db
dispatched r n (ok u, db) rest = rest db
dispatched r n (err e, db) rest = (
  (crashed false store_raised, false),
  (write (close_rollback_candidate (r.clock n) r.execution n) db).1,
)

-- The executor of a step under `try … except Exception`: its outcome, and whether it dispatched.
unfoldable pub perform : Run → ℕ → Bool → Script → Bool → Db → (StepOutcome × Bool) × Db
unfolding dispatch leave_window
perform r n mutating (Script.returns o) done db = ((o, done), db)
perform r n mutating (Script.crashes reason) done db = ((crashed done reason, done), db)
perform r n mutating (Script.dispatches pre rest) done db =
    if done
    then perform r n mutating rest true db
    else caught false (dispatch r n mutating pre db) (perform r n mutating rest true)
perform r n mutating (Script.enters status rest) done db =
    caught done (write (set_execution_status (r.clock n) r.execution status none) db)
      (perform r n mutating rest done)
perform r n mutating (Script.notes patch rest) done db =
    caught done (write (note_step_progress r.execution n patch) db) (perform r n mutating rest done)
perform r n mutating (Script.updates window pre rest) done db =
    caught done (write (open_rollback_candidate window) db) λ db'.
      dispatched r n (if done then (ok tt, db') else dispatch r n mutating (some pre) db')
        λ db''. leave_window r n (perform r n mutating rest true db'')
