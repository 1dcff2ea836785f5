-- ===== src/Engine/Dispatched.antt =====
-- The row of a step that a dispatch has marked: no later call of an executor takes the mark away.
use planet_express.Prelude.{
  count_where-update_where-keeps, count_where-update_where-hits, ℕ, ◌<◌, ◌≡◌, inl, inr, Bool, true,
  ◌&&◌, Option, none, some, arith, ◌==◌, Bool-cases, count_where,
}
use planet_express.Store.Rows.{
  StepStatus, Text, Time, Dict, ExecutionStep, ExecutionStatus, Execution, Db,
}
use planet_express.Store.Tx.{write, event, Ensures}
use planet_express.Store.Keeps.{Keeps, Keeps-bind, Keeps-gets}
use planet_express.Store.Executions.{set_execution_status, move_execution, clashes}
use planet_express.Store.Steps.{
  is_step, is_dispatched, is_pending_step, set_step_pre_state, note_step_progress,
  mark_step_dispatched, update_one_step, merge,
}
use planet_express.Store.Attempts.{consume_attempt}
use planet_express.Store.Candidates.{
  open_rollback_candidate, close_rollback_candidate, hold_rollback_candidate,
}
use planet_express.Engine.Programs.{Prog, Runs, Runs-bind, Runs-write, Runs-Safe, Safe, ◌>>◌}
use planet_express.Engine.Perform.{IsKept}
use planet_express.Engine.Scripts.{Run, dispatch, record_pre_state, spend}

abbrev pub is_dispatched_step : Text → ℕ → ExecutionStep → Bool
is_dispatched_step e n s = is_step e n s && is_dispatched s.status

-- The store has a row of the step in the status `dispatched`.
abbrev pub Dispatched : Text → ℕ → Db → Type 0
Dispatched e n db = 0 < count_where (is_dispatched_step e n) db.execution_steps

module _ (e : Text) (n : ℕ) where
  update_one_step-Dispatched :
      (p : ExecutionStep → Bool) (f : ExecutionStep → ExecutionStep)
      → ((s : ExecutionStep)
          → is_dispatched_step e n s ≡ true
          → p s ≡ true
          → is_dispatched_step e n (f s) ≡ true)
      → Keeps (Dispatched e n) (update_one_step p f)
  unfolding update_one_step
  update_one_step-Dispatched p f k = record {
    at = λ db b. elim (Bool-cases (count_where p db.execution_steps == 1)) [
      | inl one ↦ rw one (
          omega (
            arith,
            b,
            count_where-update_where-keeps (is_dispatched_step e n) p f db.execution_steps k,
          ))
      | inr many ↦ rw many tt
    ];
  }

  move_execution-Dispatched :
      (now : Time) (id : Text) (t : ExecutionStatus) (found : Option Execution)
      → Keeps (Dispatched e n) (move_execution now id t none found)
  unfolding move_execution event
  move_execution-Dispatched now id t none = record { at = λ db b. tt }
  move_execution-Dispatched now id t (some x) = record {
    at = λ db b. elim (Bool-cases (clashes t x db.executions)) [ inl c ↦ rw c tt | inr c ↦ rw c b ];
  }

  pub Dispatched-IsKept : IsKept (Dispatched e n) e
  unfolding set_step_pre_state consume_attempt mark_step_dispatched set_execution_status
      note_step_progress open_rollback_candidate close_rollback_candidate hold_rollback_candidate
  Dispatched-IsKept = record {
    pre_state = λ m d. update_one_step-Dispatched _ _ (λ s q p. q);
    consumed = λ now m. record { at = λ db b. ground (arith, b) };
    marked = λ now m. update_one_step-Dispatched _ _ (λ s q p. ground (arith, q));
    entered = λ now t. Keeps-bind _ _ (Keeps-gets _) (move_execution-Dispatched now e t);
    noted = λ m d. record {
      at = λ db b. ground (
        arith,
        b,
        count_where-update_where-keeps (is_dispatched_step e n) (is_step e m)
            (λ s. record s { pre_state = some (merge s.pre_state d) }) db.execution_steps
            (λ s q p. q),
      );
    };
    opened = λ c. record { at = λ db b. ground (arith, b) };
    closed = λ now m. record { at = λ db b. b };
    held = λ m. record { at = λ db b. b };
  }

  mark_step_dispatched-Dispatched :
      (now : Time) (db : Db) → Ensures (λ _. Dispatched e n) (mark_step_dispatched now e n db)
  unfolding mark_step_dispatched
  mark_step_dispatched-Dispatched now db =
      elim (Bool-cases
        (count_where (λ s. is_step e n s && is_pending_step s.status) db.execution_steps == 1)) [
          | inl one ↦
              rw (mark_step_dispatched, one)
                (ground (
                  arith,
                  one,
                  count_where-update_where-hits (is_dispatched_step e n)
                      (λ s. is_step e n s && is_pending_step s.status)
                      (λ s. record s { status = StepStatus.dispatched; started_at = some now })
                      db.execution_steps (λ s p. ground (arith, p)),
                ))
          | inr many ↦ rw (mark_step_dispatched, many) tt
        ]

anything-Safe : {A : Type 0} (m : Prog A) → Safe (λ db. Unit {0}) m
anything-Safe m = record { at = λ db b. tt }

-- A dispatch that returns has marked the step.
pub dispatch-Dispatched :
    (r : Run) (n : ℕ) (b : Bool) (pre : Option Dict)
    → Runs (λ db. Unit {0}) (λ _. Dispatched r.execution n) (dispatch r n b pre)
unfolding dispatch
dispatch-Dispatched r n b pre =
    Runs-bind (record_pre_state r.execution n pre >> spend (r.clock n) r.execution n b)
      (λ _. write (mark_step_dispatched (r.clock n) r.execution n)) (Runs-Safe _ (anything-Safe _))
      (λ _. Runs-write _ (λ db _. mark_step_dispatched-Dispatched r.execution n (r.clock n) db))
