-- ===== src/Engine/Perform.antt =====
-- What the executors keep: an invariant that each operation they call keeps.
use planet_express.Prelude.{
  ℕ, inl, inr, Bool, true, false, Option, none, some, if◌then◌else◌, Bool-cases,
}
use planet_express.Store.Rows.{Text, Time, Dict, ExecutionStatus, RollbackCandidate, Db}
use planet_express.Store.Tx.{Result, ok, err, write}
use planet_express.Store.Keeps.{Keeps}
use planet_express.Store.Executions.{set_execution_status}
use planet_express.Store.Steps.{set_step_pre_state, note_step_progress, mark_step_dispatched}
use planet_express.Store.Attempts.{consume_attempt}
use planet_express.Store.Candidates.{
  open_rollback_candidate, close_rollback_candidate, hold_rollback_candidate,
}
use planet_express.Engine.Programs.{Safe, Safe-pure, Safe-bind, Safe-write}
use planet_express.Engine.Scripts.{
  StepOutcome, Script, Run, record_pre_state, spend, dispatch, perform, caught, dispatched,
  leave_window, is_unknown,
}

-- The operations of the store that an executor of this execution calls keep `B`.
pub record IsKept (B : Db → Type 0) (e : Text) : Type 0 where
  pub pre_state : (n : ℕ) (d : Dict) → Keeps B (set_step_pre_state e n d)
  pub consumed : (now : Time) (n : ℕ) → Keeps B (consume_attempt now e n)
  pub marked : (now : Time) (n : ℕ) → Keeps B (mark_step_dispatched now e n)
  pub entered : (now : Time) (t : ExecutionStatus) → Keeps B (set_execution_status now e t none)
  pub noted : (n : ℕ) (d : Dict) → Keeps B (note_step_progress e n d)
  pub opened : (c : RollbackCandidate) → Keeps B (open_rollback_candidate c)
  pub closed : (now : Time) (n : ℕ) → Keeps B (close_rollback_candidate now e n)
  pub held : (n : ℕ) → Keeps B (hold_rollback_candidate e n)

module _ (r : Run) (B : Db → Type 0) (kept : IsKept B r.execution) where
  record_pre_state-Safe : (n : ℕ) (d : Option Dict) → Safe B (record_pre_state r.execution n d)
  unfolding record_pre_state
  record_pre_state-Safe n none = Safe-pure tt
  record_pre_state-Safe n (some d) = Safe-write _ (kept.pre_state n d)

  spend-Safe : (now : Time) (n : ℕ) (b : Bool) → Safe B (spend now r.execution n b)
  unfolding spend
  spend-Safe now n false = Safe-pure tt
  spend-Safe now n true = Safe-write _ (kept.consumed now n)

  pub dispatch-Safe : (n : ℕ) (b : Bool) (d : Option Dict) → Safe B (dispatch r n b d)
  unfolding dispatch
  dispatch-Safe n b d =
      Safe-bind _ _ (Safe-bind _ _ (record_pre_state-Safe n d) (λ _. spend-Safe (r.clock n) n b))
        (λ _. Safe-write _ (kept.marked (r.clock n) n))

  caught-keeps :
      {A : Type 0} (done : Bool) (m : Result A × Db) (rest : Db → (StepOutcome × Bool) × Db)
      → B m.1
      → ((db : Db) → B db → B (rest db).1)
      → B (caught done m rest).1
  caught-keeps done (ok u, db) rest h k = k db h
  caught-keeps done (err e, db) rest h k = h

  leave_window-keeps : (n : ℕ) (o : (StepOutcome × Bool) × Db) → B o.1 → B (leave_window r n o).1
  unfolding leave_window
  leave_window-keeps n ((o, done), db) h = elim (Bool-cases (is_unknown o.effect)) [
    | inl e ↦ rw e ((Safe-write _ (kept.held n)).at db h)
    | inr e ↦ rw e ((Safe-write _ (kept.closed (r.clock n) n)).at db h)
  ]

  dispatched-keeps :
      (n : ℕ) (m : Result (Unit {0}) × Db) (rest : Db → (StepOutcome × Bool) × Db)
      → B m.1
      → ((db : Db) → B db → B (rest db).1)
      → B (dispatched r n m rest).1
  dispatched-keeps n (ok u, db) rest h k = k db h
  dispatched-keeps n (err e, db) rest h k = (Safe-write _ (kept.closed (r.clock n) n)).at db h

  once-keeps :
      (n : ℕ) (b done : Bool) (pre : Dict) (db : Db)
      → B db
      → B (if done then (ok tt, db) else dispatch r n b (some pre) db).1
  once-keeps n b true pre db h = h
  once-keeps n b false pre db h = (dispatch-Safe n b (some pre)).at db h

  pub perform-keeps :
      (n : ℕ) (b : Bool) (s : Script) (done : Bool) (db : Db) → B db → B (perform r n b s done db).1
  unfolding perform
  perform-keeps n b (Script.returns o) done db h = h
  perform-keeps n b (Script.crashes why) done db h = h
  perform-keeps n b (Script.dispatches pre rest) true db h = perform-keeps n b rest true db h
  perform-keeps n b (Script.dispatches pre rest) false db h =
      caught-keeps false (dispatch r n b pre db) _ ((dispatch-Safe n b pre).at db h)
        (perform-keeps n b rest true)
  perform-keeps n b (Script.enters t rest) done db h =
      caught-keeps done _ _ ((Safe-write _ (kept.entered (r.clock n) t)).at db h)
        (perform-keeps n b rest done)
  perform-keeps n b (Script.notes patch rest) done db h =
      caught-keeps done _ _ ((Safe-write _ (kept.noted n patch)).at db h)
        (perform-keeps n b rest done)
  perform-keeps n b (Script.updates window pre rest) done db h =
      let body = perform r n b rest true in
      let once = λ (db' : Db). if done then (ok tt, db') else dispatch r n b (some pre) db' in
      caught-keeps {A = Unit {0}} done (write (open_rollback_candidate window) db)
        (λ db'. dispatched r n (once db') λ db''. leave_window r n (body db''))
        ((Safe-write _ (kept.opened window)).at db h)
        (λ db' h'.
          dispatched-keeps n (once db') (λ db''. leave_window r n (body db''))
            (once-keeps n b done pre db' h')
            (λ db'' h''. leave_window-keeps n (body db'') (perform-keeps n b rest true db'' h'')))
