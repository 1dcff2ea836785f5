-- ===== src/Store/Steps.antt =====
-- The steps of an execution in core/store.py.
--
--   step: pending ──► dispatched ──► passed | failed
--            └──► skipped | aborted | failed (not applied)
pub mod Machine
pub mod History
use planet_express.Prelude.{
  ℕ, ◌+◌, Bool, true, false, not, ◌&&◌, ◌||◌, Option, none, some, List, [], ◌∷◌, ◌++◌, ◌==◌,
  if◌then◌else◌, is_none, is_some, select, find_row, count_where, update_where,
}
use planet_express.Store.Rows.{Text, Time, Dict, ExecutionStep, StepStatus, Effect, Db, is_active}
use planet_express.Store.Executions.{has_execution_id}
use planet_express.Store.Tx.{
  Tx, ◌>>=◌, ◌>>◌, pure, raise, gets, guard, value_error, integrity_error,
}

-- A step as the runbook names it.
pub record StepSpec : Type 0 where
  pub type : Text
  pub params : Text
  pub binding : Text

abbrev pub is_step : Text → ℕ → ExecutionStep → Bool
is_step execution n s = s.execution_id == execution && s.n == n

abbrev pub new_step : Text → ℕ → StepSpec → ExecutionStep
new_step execution n spec = record {
  execution_id = execution;
  n = n;
  type = spec.type;
  params = spec.params;
  binding = spec.binding;
  pre_state = none;
  status = StepStatus.pending;
  effect = none;
  output = none;
  reason = none;
  started_at = none;
  finished_at = none;
}

-- An `INSERT INTO execution_steps`: the primary key and the execution that the row refers to.
unfoldable pub insert_step : ExecutionStep → Tx (Unit {0})
insert_step s db =
    if is_some (find_row (is_step s.execution_id s.n) db.execution_steps)
      || is_none (find_row (has_execution_id s.execution_id) db.executions)
    then raise integrity_error db
    else pure tt (record db { execution_steps = db.execution_steps ++ s ∷ [] })

-- `executemany`, from the step `n` on.
unfoldable pub insert_steps : Text → ℕ → List StepSpec → Tx (Unit {0})
unfolding insert_step
insert_steps execution n [] = pure tt
insert_steps execution n (spec ∷ specs) =
    insert_step (new_step execution n spec) >> insert_steps execution (n + 1) specs

-- `Store.create_steps`
unfoldable pub create_steps : Text → List StepSpec → Tx (Unit {0})
unfolding insert_steps
create_steps execution specs = insert_steps execution 1 specs

-- An `UPDATE execution_steps` whose `rowcount` must be 1, else `ValueError`.
unfoldable pub update_one_step :
    (ExecutionStep → Bool) → (ExecutionStep → ExecutionStep) → Tx (Unit {0})
update_one_step p f db =
    if count_where p db.execution_steps == 1
    then pure tt (record db { execution_steps = update_where p f db.execution_steps })
    else raise value_error db

abbrev pub is_pending_step : StepStatus → Bool
is_pending_step StepStatus.pending = true
is_pending_step _ = false

abbrev pub is_dispatched : StepStatus → Bool
is_dispatched StepStatus.dispatched = true
is_dispatched _ = false

-- `Store.set_step_pre_state`
unfoldable pub set_step_pre_state : Text → ℕ → Dict → Tx (Unit {0})
unfolding update_one_step
set_step_pre_state execution n pre_state =
    update_one_step (λ s. is_step execution n s && is_pending_step s.status && is_none s.pre_state)
      (λ s. record s { pre_state = some pre_state })

-- `current | patch` on JSON objects.
abbrev without : List (Text × Text) → Dict → Dict
without patch d = select (λ (k, v). is_none (find_row (λ (j, w). j == k) patch)) d

abbrev pub merge : Option Dict → Dict → Dict
merge none patch = patch
merge (some current) patch = without patch current ++ patch

-- `Store.note_step_progress`
unfoldable pub note_step_progress : Text → ℕ → Dict → Tx (Unit {0})
note_step_progress execution n patch db =
    if is_none (find_row (λ s. is_step execution n s && is_dispatched s.status) db.execution_steps)
    then raise value_error db
    else pure tt (record db {
      execution_steps =
          update_where (is_step execution n)
            (λ s. record s { pre_state = some (merge s.pre_state patch) }) db.execution_steps;
    })

-- `Store.mark_step_dispatched`
unfoldable pub mark_step_dispatched : Time → Text → ℕ → Tx (Unit {0})
unfolding update_one_step
mark_step_dispatched now execution n =
    update_one_step (λ s. is_step execution n s && is_pending_step s.status)
      (λ s. record s { status = StepStatus.dispatched; started_at = some now })

abbrev pub is_terminal_step : StepStatus → Bool
is_terminal_step StepStatus.pending = false
is_terminal_step StepStatus.dispatched = false
is_terminal_step _ = true

-- `allowed_from` of `finish_step`: may the step move from the third to the first?
abbrev pub allowed_from : StepStatus → Option Effect → StepStatus → Bool
allowed_from StepStatus.failed (some Effect.not_applied) from =
    is_dispatched from || is_pending_step from
allowed_from StepStatus.failed effect from = is_dispatched from
allowed_from StepStatus.passed effect from = is_dispatched from
allowed_from StepStatus.skipped effect from = is_pending_step from
allowed_from StepStatus.aborted effect from = is_pending_step from
allowed_from _ effect from = false

abbrev pub finish :
    Time → StepStatus → Option Effect → Option Text → Option Text → ExecutionStep → ExecutionStep
finish now status effect output reason s = record s {
  status = status;
  effect = effect;
  output = output;
  reason = reason;
  finished_at = some now;
}

-- `Store.finish_step`
unfoldable pub finish_step :
    Time → Text → ℕ → StepStatus → Option Effect → Option Text → Option Text → Tx (Unit {0})
unfolding update_one_step
finish_step now execution n status effect output reason = do
  guard (is_terminal_step status) value_error
  update_one_step (λ s. is_step execution n s && allowed_from status effect s.status)
      (finish now status effect output reason)

-- `Store.list_steps`; the rows of one execution are inserted in the order of `n`.
abbrev pub list_steps : Text → Db → List ExecutionStep
list_steps execution db = select (λ s. s.execution_id == execution) db.execution_steps
