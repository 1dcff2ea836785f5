-- ===== src/Engine/Tests.antt =====
-- The theorems of `Engine` at concrete inputs.
use planet_express.Store.Steps.Machine.{step_key}
use planet_express.Prelude.{
  ℕ, ◌+◌, ◌≡◌, refl, ap, true, false, none, some, List, [], ◌∷◌, arith, ◌==◌, if◌then◌else◌, All,
  DistinctOn,
}
use planet_express.Store.Rows.{
  RollbackCandidate, Db, empty_db, Effect, ExecutionStatus, StepStatus, Text,
}
use planet_express.Store.Tx.{write, ok}
use planet_express.Store.Approvals.{new_approval, Proposal}
use planet_express.Store.Executions.{new_execution, set_execution_status}
use planet_express.Store.Attempts.{reserve_runbook_attempts, consume_attempt, release_attempts}
use planet_express.Store.Executions.{set_execution_status}
use planet_express.Store.Steps.{
  list_steps, new_step, set_step_pre_state, StepSpec, is_terminal_step, create_steps, finish_step,
  mark_step_dispatched,
}
use planet_express.Engine.Scripts.{
  perform, is_unknown, dispatch, leave_window, OutcomeStatus, StepOutcome, EngineResult, Script,
  Catalogue, Run,
}
use planet_express.Engine.Runbook.{run}
use planet_express.Engine.Executors.{service_restart}
use planet_express.Engine.Dispatched.{Dispatched}
use planet_express.Engine.Honest.{Task, restarts_service, script, is_not_applied, task-IsBacked}
use planet_express.Engine.Windows.{update-Held}
use planet_express.Store.Candidates.{new_window, open_rollback_candidate, hold_rollback_candidate}
use planet_express.Store.Candidates.Windows.{Held}
use planet_express.Engine.Startup.Crashed.{crash_closes}
use planet_express.Engine.Startup.{
  settle_crashed_execution, Types, startup_reconcile, unfinished_steps,
}
use planet_express.Engine.Startup.Closed.{IsClosed}
use planet_express.Engine.Startup.Total.{returned, startup_closes}
use planet_express.Engine.Marks.{marked}
use planet_express.Engine.Kept.{is_passed_step}
use planet_express.Engine.Settled.{run_settles, run_passed}

-- The approval 41 of the action 7, and its execution 50, which has no steps yet.
abbrev plan : Proposal
plan = record {
  action = 7;
  target_key = 8;
  target = 9;
  risk = 2;
  requested_via = 3;
  requested_by = some 5;
  ttl = 3600;
  incident_id = none;
  incident_scan_id = none;
  plan_json = some 70;
  plan_sha256 = some 71;
  origin = some 4;
}

abbrev started : Db
started = record empty_db {
  approvals = new_approval 100 41 plan ∷ [];
  executions = new_execution 110 50 41 ∷ [];
}

-- A restart (60) that the limits count, and a check (61).
abbrev two_steps : List StepSpec
two_steps =
    record { type = 60; params = 0; binding = 0 }
    ∷ record { type = 61; params = 0; binding = 0 }
    ∷ []

abbrev types : Catalogue
types = record {
  is_limited = λ t. t == 60;
  target_key = λ s. 8;
  has_outputs = λ t. false;
  validate_outputs = λ t o. none;
  clip = λ t. t;
}

abbrev did : OutcomeStatus → Effect → StepOutcome
did status effect = record { status = status; effect = effect; reason = 90; output = none }

abbrev run_with : OutcomeStatus → Run
run_with restarted = record {
  execution = 50;
  catalogue = types;
  limits = record { window_start = 0; cooldown_start = 121; max_per_day = 3; now = 120 };
  clock = λ n. 120 + n;
  is_abort_requested = λ n. false;
  execute = λ n s.
      if n == 1
      then Script.dispatches none
          (Script.enters ExecutionStatus.verifying (Script.returns (did restarted Effect.applied)))
      else Script.returns (did OutcomeStatus.passed Effect.not_applied);
}

abbrev failed_result : EngineResult
failed_result = record {
  status = OutcomeStatus.failed;
  reason = 90;
  steps = did OutcomeStatus.failed Effect.applied ∷ [];
}

abbrev passed_result : EngineResult
passed_result = record {
  status = OutcomeStatus.passed;
  reason = 90;
  steps =
      did OutcomeStatus.passed Effect.applied ∷ did OutcomeStatus.passed Effect.not_applied ∷ [];
}

-- The restart does not come up again.
failing_run : (run (run_with OutcomeStatus.failed) two_steps started).0 ≡ ok failed_result
unfolding run write create_steps reserve_runbook_attempts consume_attempt mark_step_dispatched
    set_execution_status finish_step release_attempts
failing_run = refl

passing_run : (run (run_with OutcomeStatus.passed) two_steps started).0 ≡ ok passed_result
unfolding run write create_steps reserve_runbook_attempts consume_attempt mark_step_dispatched
    set_execution_status finish_step
passing_run = refl

run_settles_example :
    marked is_terminal_step 50 2
      (run (run_with OutcomeStatus.failed) two_steps started).1.execution_steps
    ≡ true
run_settles_example =
    run_settles (run_with OutcomeStatus.failed) two_steps started failed_result 2 tt failing_run
      (omega arith) (omega arith)

run_passed_example :
    marked is_passed_step 50 2
      (run (run_with OutcomeStatus.passed) two_steps started).1.execution_steps
    ≡ true
run_passed_example =
    run_passed (run_with OutcomeStatus.passed) two_steps started passed_result 2 tt passing_run refl
      (omega arith) (omega arith)

-- The first step is recorded.
abbrev first_pending : Db
first_pending = record started {
  execution_steps = new_step 50 1 (record { type = 60; params = 0; binding = 0 }) ∷ [];
}

-- A restart whose command fails after it was dispatched.
abbrev failing_restart : Task
failing_restart = restarts_service true false false

restart_acted :
    is_not_applied
      (perform
        (run_with OutcomeStatus.passed)
        1
        false
        (script failing_restart)
        false
        first_pending).0.0.effect
    ≡ false
unfolding perform write dispatch mark_step_dispatched script service_restart
restart_acted = refl

task-IsBacked_example :
    ((perform
        (run_with OutcomeStatus.passed)
        1
        false
        (script failing_restart)
        false
        first_pending).0.1
      ≡ true)
    × Dispatched 50 1
        (perform
          (run_with OutcomeStatus.passed)
          1
          false
          (script failing_restart)
          false
          first_pending).1
task-IsBacked_example =
    task-IsBacked (run_with OutcomeStatus.passed) 1 false failing_restart first_pending
      restart_acted

-- A canary update that deploys, is not stable, and cannot go back.
abbrev window : RollbackCandidate
window = new_window 120 50 1 80 81 82 83 1020

abbrev lost : Script
lost = Script.returns (did OutcomeStatus.failed Effect.unknown)

lost_unknown :
    is_unknown
      (perform
        (run_with OutcomeStatus.passed)
        1
        false
        (Script.updates window [] lost)
        false
        first_pending).0.0.effect
    ≡ true
unfolding perform write open_rollback_candidate dispatch leave_window set_step_pre_state
    mark_step_dispatched hold_rollback_candidate
lost_unknown = refl

update-Held_example :
    Held 50 1
      (perform
        (run_with OutcomeStatus.passed)
        1
        false
        (Script.updates window [] lost)
        false
        first_pending).1
update-Held_example =
    update-Held (run_with OutcomeStatus.passed) 1 false [] lost window first_pending refl refl
      lost_unknown

-- The core stopped in the middle of the first step.
abbrev stopped : Db
stopped = record started {
  execution_steps =
      record (new_step 50 1 (record { type = 60; params = 0; binding = 0 })) {
        status = StepStatus.dispatched;
        started_at = some 121;
      }
      ∷ new_step 50 2 (record { type = 61; params = 0; binding = 0 })
      ∷ [];
}

stopped_distinct : DistinctOn step_key stopped.execution_steps
stopped_distinct = ((λ e. omega (arith, ap (λ (k : Text × ℕ). k.1) e), tt), (tt, tt))

abbrev step_types : Types
step_types = record { is_read = λ t. t == 61; is_canary = λ t. t == 62 }

startup_closes_example :
    (returned (startup_reconcile 200 step_types (λ s. none) stopped).0 ≡ true)
    × All
        (IsClosed (startup_reconcile 200 step_types (λ s. none) stopped).1.execution_steps)
        (unfinished_steps stopped)
startup_closes_example = startup_closes 200 step_types (λ s. none) stopped stopped_distinct

crash_closes_example :
    (returned (settle_crashed_execution 200 step_types 50 stopped).0 ≡ true)
    × All
        (IsClosed (settle_crashed_execution 200 step_types 50 stopped).1.execution_steps)
        (list_steps 50 stopped)
crash_closes_example = crash_closes 200 step_types 50 stopped stopped_distinct
