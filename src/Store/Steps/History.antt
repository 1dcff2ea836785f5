-- ===== src/Store/Steps/History.antt =====
-- The steps over time: any sequence of the operations of `Store.Steps`, each a write transaction.
use planet_express.Prelude.{
  ℕ, ◌≡◌, Option, some, List, [], ◌∷◌, find_row, All, Evolves-find_row, All-Evolves, DistinctOn,
}
use planet_express.Store.Rows.{Text, Time, Dict, ExecutionStep, StepStatus, Effect, Db}
use planet_express.Store.Tx.{write}
use planet_express.Store.Keeps.{Keeps-write}
use planet_express.Store.Steps.{
  StepSpec, is_step, create_steps, set_step_pre_state, note_step_progress, mark_step_dispatched,
  finish_step,
}
use planet_express.Store.Steps.Machine.{
  IsOrderly, Moves, Progress, Progress-refl, step_key, create_steps-Progress,
  set_step_pre_state-Progress, note_step_progress-Progress, mark_step_dispatched-Progress,
  finish_step-Progress,
}

pub data StepCall : Type 0 where
  creates : List StepSpec → StepCall
  records : ℕ → Dict → StepCall
  notes : ℕ → Dict → StepCall
  dispatches : ℕ → StepCall
  finishes : ℕ → StepStatus → Option Effect → Option Text → Option Text → StepCall

-- One call for an execution, at a clock reading.
unfoldable pub step_call : Db → Time × Text × StepCall → Db
step_call db (now, e, creates specs) = (write (create_steps e specs) db).1
step_call db (now, e, records n d) = (write (set_step_pre_state e n d) db).1
step_call db (now, e, notes n d) = (write (note_step_progress e n d) db).1
step_call db (now, e, dispatches n) = (write (mark_step_dispatched now e n) db).1
step_call db (now, e, finishes n t f o r) = (write (finish_step now e n t f o r) db).1

unfoldable pub step_calls : Db → List (Time × Text × StepCall) → Db
step_calls db [] = db
step_calls db (c ∷ cs) = step_calls (step_call db c) cs

module _ (rows : List ExecutionStep) where
  step_call-Progress :
      (db : Db) (c : Time × Text × StepCall) → Progress rows db → Progress rows (step_call db c)
  unfolding step_call
  step_call-Progress db (now, e, creates specs) =
      Keeps-write _ db (create_steps-Progress rows e specs)
  step_call-Progress db (now, e, records n d) =
      Keeps-write _ db (set_step_pre_state-Progress rows e n d)
  step_call-Progress db (now, e, notes n d) =
      Keeps-write _ db (note_step_progress-Progress rows e n d)
  step_call-Progress db (now, e, dispatches n) =
      Keeps-write _ db (mark_step_dispatched-Progress rows now e n)
  step_call-Progress db (now, e, finishes n t f o r) =
      Keeps-write _ db (finish_step-Progress rows now e n t f o r)

  step_calls-Progress :
      (cs : List (Time × Text × StepCall)) (db : Db)
      → Progress rows db
      → Progress rows (step_calls db cs)
  unfolding step_calls
  step_calls-Progress [] db h = h
  step_calls-Progress (c ∷ cs) db h =
      step_calls-Progress cs (step_call db c) (step_call-Progress db c h)

Moves-is_step : (e : Text) (n : ℕ) (a b : ExecutionStep) → Moves a b → is_step e n b ≡ is_step e n a
Moves-is_step e n a b m = rw (m.execution_id, m.n)

-- Over any sequence of the operations on steps, from a table in which no two steps share execution
-- and number: a step that is there is found again with its type, parameters and binding, in a status
-- that the diagram allows; and one that was in a terminal status is the same row.
pub step_calls-Moves :
    (db : Db) (cs : List (Time × Text × StepCall)) (e : Text) (n : ℕ) (a : ExecutionStep)
    → DistinctOn step_key db.execution_steps
    → find_row (is_step e n) db.execution_steps ≡ some a
    → (b : ExecutionStep) × (find_row (is_step e n) (step_calls db cs).execution_steps ≡ some b)
      × Moves a b
step_calls-Moves db cs e n a d found =
    Evolves-find_row Moves IsOrderly (is_step e n) (Moves-is_step e n) db.execution_steps
      (step_calls db cs).execution_steps
      (step_calls-Progress db.execution_steps cs db (Progress-refl db d)).history a found

-- Over any sequence of the operations on steps, the columns of every step agree with its status: a
-- step has finished exactly in a terminal status, one that is pending, skipped or aborted was never
-- started, one that is dispatched or passed was, and one that failed without a start has changed
-- nothing (`not_applied`).
pub step_calls-IsOrderly :
    (db : Db) (cs : List (Time × Text × StepCall))
    → DistinctOn step_key db.execution_steps
    → All IsOrderly db.execution_steps
    → All IsOrderly (step_calls db cs).execution_steps
step_calls-IsOrderly db cs d h =
    All-Evolves Moves IsOrderly (λ a b o m. m.orderly o) db.execution_steps
      (step_calls db cs).execution_steps h
      (step_calls-Progress db.execution_steps cs db (Progress-refl db d)).history
