-- ===== src/Engine/Runbook.antt =====
-- `RunbookEngine.run` and `_abandon`: the loop over the steps, and the reservation before it.
use planet_express.Prelude.{
  ℕ, ◌+◌, Bool, true, false, ◌&&◌, ◌||◌, Option, none, some, List, [], ◌∷◌, ◌++◌, ◌==◌,
  if◌then◌else◌, is_some,
}
use planet_express.Store.Rows.{Text, StepStatus, Effect, ExecutionStatus}
use planet_express.Store.Tx.{write, value_error}
use planet_express.Store.Executions.{set_execution_status}
use planet_express.Store.Steps.{StepSpec, create_steps, finish_step}
use planet_express.Store.Attempts.{
  numbered, Request, AttemptRefusal, reserve_runbook_attempts, release_attempts,
}
use planet_express.Engine.Programs.{Prog, ◌>>=◌, ◌>>◌, pure, raise}
use planet_express.Engine.Scripts.{
  Catalogue, EngineResult, OutcomeStatus, Run, StepOutcome, dispatch, is_aborted, is_passed,
  perform,
}

-- The statuses of a step that an outcome becomes.
abbrev pub step_status : OutcomeStatus → StepStatus
step_status OutcomeStatus.passed = StepStatus.passed
step_status OutcomeStatus.failed = StepStatus.failed
step_status OutcomeStatus.aborted = StepStatus.failed

abbrev pub numbers : ℕ → List StepSpec → List ℕ
numbers n [] = []
numbers n (s ∷ ss) = n ∷ numbers (n + 1) ss

-- `finish_step` for each of the remaining steps.
unfoldable pub finish_all : Run → ℕ → List StepSpec → StepStatus → Text → Prog (Unit {0})
finish_all r n [] status reason = pure tt
finish_all r n (s ∷ ss) status reason =
    write (finish_step (r.clock n) r.execution n status none none (some reason))
    >> finish_all r (n + 1) ss status reason

-- `RunbookEngine._abandon`, from the step `n` on.
unfoldable pub abandon : Run → ℕ → List StepSpec → StepStatus → Text → Prog ℕ
unfolding finish_all
abandon r n steps status reason =
    finish_all r n steps status reason
    >> write (release_attempts (r.clock n) r.execution (numbers n steps))

abbrev pub aborted_by_operator : Text
aborted_by_operator = 4

-- "not run: …"
abbrev pub not_run : Text
not_run = 5

-- "refused: …"
abbrev pub refused : Text
refused = 6

-- The release of the attempt of one step, if the step has one.
unfoldable pub release_one : Run → ℕ → Bool → Prog (Unit {0})
release_one r n false = pure tt
release_one r n true = write (release_attempts (r.clock n) r.execution (n ∷ [])) >> pure tt

-- The outputs that a step stores: validated, and dropped if a step that failed reports unusable ones.
unfoldable pub checked_output : Run → StepSpec → StepOutcome → Prog (Option Text)
checked_output r s o =
    if r.catalogue.has_outputs s.type && (is_passed o.status || is_some o.output)
    then (elim (r.catalogue.validate_outputs s.type o.output) [
      | some out ↦ pure (some out)
      | none ↦ if is_passed o.status then raise value_error else pure none
    ])
    else pure none

-- The end of a step that has not dispatched: one that passed is dispatched now, any other has
-- changed nothing.
unfoldable pub late_dispatch : Run → ℕ → Bool → Bool → StepOutcome → Prog StepOutcome
unfolding dispatch release_one
late_dispatch r n mutating done o =
    if done
    then pure o
    else if is_passed o.status
    then dispatch r n mutating none >> pure o
    else release_one r n mutating >> pure (record o { effect = Effect.not_applied })

unfoldable pub finish_outcome : Run → ℕ → StepOutcome → Option Text → Prog (Unit {0})
finish_outcome r n o output = write (
    finish_step (r.clock n) r.execution n (step_status o.status) (some o.effect) output
      (some (r.catalogue.clip o.reason)))

unfoldable pub aborted_run : Text → List StepOutcome → EngineResult
aborted_run reason results = record {
  status = OutcomeStatus.aborted;
  reason = reason;
  steps = results;
}

-- The execution runs on, unless the step was the last.
unfoldable pub run_on : Run → ℕ → List StepSpec → Prog (Unit {0})
run_on r n [] = pure tt
run_on r n (s ∷ ss) =
    write (set_execution_status (r.clock n) r.execution ExecutionStatus.running none)

-- After the row of the step was finished: the run ends, or goes on with `k`.
unfoldable pub proceed :
    Run
    → ℕ
    → List StepSpec
    → List StepOutcome
    → StepOutcome
    → (List StepOutcome → Prog EngineResult)
    → Prog EngineResult
unfolding run_on abandon
proceed r n ss results o k =
    if is_passed o.status
    then run_on r n ss >> k (results ++ o ∷ [])
    else abandon r (n + 1) ss StepStatus.skipped not_run
      >> pure
          (record { status = OutcomeStatus.failed; reason = o.reason; steps = results ++ o ∷ [] })

-- An executor that saw the abort flag.
unfoldable pub stop_aborted :
    Run → ℕ → List StepSpec → Bool → List StepOutcome → StepOutcome → Prog EngineResult
unfolding release_one abandon aborted_run
stop_aborted r n ss mutating results o =
    write (
      finish_step (r.clock n) r.execution n StepStatus.failed (some Effect.not_applied) none
        (some o.reason))
    >> release_one r n mutating
    >> abandon r (n + 1) ss StepStatus.aborted aborted_by_operator
    >> pure (aborted_run o.reason results)

-- The body of the loop behind the executor.
unfoldable pub conclude :
    Run
    → ℕ
    → StepSpec
    → List StepSpec
    → List StepOutcome
    → (List StepOutcome → Prog EngineResult)
    → StepOutcome × Bool
    → Prog EngineResult
unfolding stop_aborted checked_output late_dispatch finish_outcome proceed
conclude r n s ss results k (o, done) =
    let mutating = r.catalogue.is_limited s.type in
    if is_aborted o.status then stop_aborted r n ss mutating results o else (do
      output ← checked_output r s o
      settled ← late_dispatch r n mutating done o
      finish_outcome r n settled output
      proceed r n ss results settled k)

unfoldable pub last_reason : List StepOutcome → Text
last_reason [] = 0
last_reason (o ∷ []) = o.reason
last_reason (o ∷ os) = last_reason os

-- The loop over the steps, from the step `n` on.
unfoldable pub loop : Run → ℕ → List StepSpec → List StepOutcome → Prog EngineResult
unfolding perform abandon conclude aborted_run last_reason
loop r n [] results db =
    pure (record { status = OutcomeStatus.passed; reason = last_reason results; steps = results })
      db
loop r n (s ∷ ss) results db =
    let k = loop r (n + 1) ss in
    if r.is_abort_requested n
    then (abandon r n (s ∷ ss) StepStatus.aborted aborted_by_operator
          >> pure (aborted_run aborted_by_operator results))
        db
    else (let (o, db') = perform r n (r.catalogue.is_limited s.type) (r.execute n s) false db in
        conclude r n s ss results k o db')

-- The numbered pairs of the steps that the attempt limits count.
abbrev pub requests : Catalogue → ℕ → List StepSpec → List Request
requests c n [] = []
requests c n (s ∷ ss) =
    if c.is_limited s.type
    then (n, s.type, c.target_key s) ∷ requests c (n + 1) ss
    else requests c (n + 1) ss

-- The steps around the one that was refused.
unfoldable pub skip_others : Run → ℕ → ℕ → List StepSpec → Prog (Unit {0})
skip_others r at n [] = pure tt
skip_others r at n (s ∷ ss) =
    (if n == at
      then pure tt
      else write
          (finish_step (r.clock 0) r.execution n StepStatus.skipped none none (some not_run)))
    >> skip_others r at (n + 1) ss

-- The attempts were refused: the step at its limit fails, the others are skipped.
unfoldable pub refuse : Run → List StepSpec → AttemptRefusal → Prog EngineResult
unfolding skip_others
refuse r steps refusal =
    write (
      finish_step (r.clock 0) r.execution refusal.step_n StepStatus.failed (some Effect.not_applied)
        none (some refused))
    >> skip_others r refusal.step_n 1 steps
    >> pure (record { status = OutcomeStatus.failed; reason = refused; steps = [] })

unfoldable pub admit : Run → List StepSpec → Option AttemptRefusal → Prog EngineResult
unfolding refuse loop
admit r steps none = loop r 1 steps []
admit r steps (some refusal) = refuse r steps refusal

unfoldable pub reserve_all : Run → List Request → Prog (Option AttemptRefusal)
reserve_all r [] = pure none
reserve_all r (q ∷ qs) = write (reserve_runbook_attempts r.execution (numbered (q ∷ qs)) r.limits)

-- `RunbookEngine.run`
unfoldable pub run : Run → List StepSpec → Prog EngineResult
unfolding reserve_all admit
run r steps = do
  write (create_steps r.execution steps)
  refusal ← reserve_all r (requests r.catalogue 1 steps)
  admit r steps refusal
