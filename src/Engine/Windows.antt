-- ===== src/Engine/Windows.antt =====
-- The rollback window of a canary update, whatever the update does.
use planet_express.Prelude.{
  ℕ, ◌<◌, ◌≡◌, refl, sym, ◌∙◌, inl, inr, Bool, true, false, ◌&&◌, Option, none, some, List, [], ◌∷◌,
  arith, ◌==◌, is_none, Bool-cases, ==_refl, count_where, update_where, count_where-append,
}
use mathlib.Core.Bool.{false≢true}
use planet_express.Store.Rows.{Text, Time, Dict, ExecutionStatus, RollbackCandidate, Execution, Db}
use planet_express.Store.Tx.{Result, ok, err, write, event, Ensures}
use planet_express.Store.Keeps.{Keeps, Keeps-bind, Keeps-gets}
use planet_express.Store.Executions.{set_execution_status, move_execution, clashes}
use planet_express.Store.Steps.{
  set_step_pre_state, note_step_progress, mark_step_dispatched, update_one_step,
}
use planet_express.Store.Attempts.{consume_attempt}
use planet_express.Store.Candidates.{
  is_window, is_held, indefinite_expiry, open_rollback_candidate, close_rollback_candidate,
  hold_rollback_candidate, close,
}
use planet_express.Store.Candidates.Windows.{Held}
use planet_express.Engine.Programs.{After, Runs-write}
use planet_express.Engine.Perform.{IsKept, perform-keeps, dispatch-Safe}
use planet_express.Engine.Scripts.{
  StepOutcome, Script, Run, dispatch, perform, caught, dispatched, leave_window, is_unknown,
}

-- There is a window of the step.
abbrev HasWindow : Text → ℕ → Db → Type 0
HasWindow e n db = 0 < count_where (is_window e n) db.rollback_candidates

count_kept :
    (q p : RollbackCandidate → Bool) (f : RollbackCandidate → RollbackCandidate)
    (xs : List RollbackCandidate)
    → ((c : RollbackCandidate) → q (f c) ≡ q c)
    → count_where q (update_where p f xs) ≡ count_where q xs
count_kept q p f [] h = refl
count_kept q p f (c ∷ xs) h = ground (arith, h c, count_kept q p f xs h)

count_held :
    (e : Text) (n : ℕ) (xs : List RollbackCandidate)
    → count_where
        (λ c. is_window e n c && is_held c)
        (update_where
          (is_window e n)
          (λ c. record c { expires_at = indefinite_expiry; closed_at = none })
          xs)
      ≡ count_where (is_window e n) xs
count_held e n [] = refl
count_held e n (c ∷ xs) = ground (arith, count_held e n xs)

module _ (e : Text) (n : ℕ) where
  update_one_step-HasWindow : (p : _) (f : _) → Keeps (HasWindow e n) (update_one_step p f)
  unfolding update_one_step
  update_one_step-HasWindow p f = record {
    at = λ db b. elim (Bool-cases (count_where p db.execution_steps == 1)) [
      | inl one ↦ rw one b
      | inr many ↦ rw many tt
    ];
  }

  move_execution-HasWindow :
      (now : Time) (id : Text) (t : ExecutionStatus) (found : Option Execution)
      → Keeps (HasWindow e n) (move_execution now id t none found)
  unfolding move_execution event
  move_execution-HasWindow now id t none = record { at = λ db b. tt }
  move_execution-HasWindow now id t (some x) = record {
    at = λ db b. elim (Bool-cases (clashes t x db.executions)) [ inl c ↦ rw c tt | inr c ↦ rw c b ];
  }

  window-IsKept : IsKept (HasWindow e n) e
  unfolding set_step_pre_state consume_attempt mark_step_dispatched set_execution_status
      note_step_progress open_rollback_candidate close_rollback_candidate hold_rollback_candidate
  window-IsKept = record {
    pre_state = λ m d. update_one_step-HasWindow _ _;
    consumed = λ now m. record { at = λ db b. ground (arith, b) };
    marked = λ now m. update_one_step-HasWindow _ _;
    entered = λ now t. Keeps-bind _ _ (Keeps-gets _) (move_execution-HasWindow now e t);
    noted = λ m d. record { at = λ db b. ground (arith, b) };
    opened = λ c. record {
      at = λ db b.
          ground (arith, b, count_where-append (is_window e n) db.rollback_candidates (c ∷ []));
    };
    closed = λ now m. record {
      at = λ db b.
          rw
            (count_kept (is_window e n) (λ c. is_window e m c && is_none c.closed_at) (close now)
              db.rollback_candidates (λ c. refl))
            b;
    };
    held = λ m. record {
      at = λ db b.
          rw
            (count_kept (is_window e n) (is_window e m)
              (λ c. record c { expires_at = indefinite_expiry; closed_at = none })
              db.rollback_candidates (λ c. refl))
            b;
    };
  }

hold-Held :
    (e : Text) (n : ℕ) (db : Db)
    → HasWindow e n db
    → Held e n (write (hold_rollback_candidate e n) db).1
unfolding write hold_rollback_candidate
hold-Held e n db h = rw (count_held e n db.rollback_candidates) h

opened-HasWindow :
    (c : RollbackCandidate) (db : Db)
    → Ensures (λ _. HasWindow c.execution_id c.step_n) (open_rollback_candidate c db)
unfolding open_rollback_candidate
opened-HasWindow c db = ground (
  arith,
  ==_refl c.execution_id,
  ==_refl c.step_n,
  count_where-append (is_window c.execution_id c.step_n) db.rollback_candidates (c ∷ []),
)

module _ (r : Run) (n : ℕ) (b : Bool) (pre : Dict) (rest : Script) where
  left-Held :
      (o : StepOutcome) (done : Bool) (db : Db)
      → HasWindow r.execution n db
      → is_unknown (leave_window r n ((o, done), db)).0.0.effect ≡ true
      → Held r.execution n (leave_window r n ((o, done), db)).1
  unfolding leave_window
  left-Held o done db h = elim (Bool-cases (is_unknown o.effect)) [
    | inl u ↦ rw u (λ q. hold-Held r.execution n db h)
    | inr u ↦ rw u (λ q. absurd (false≢true (sym u ∙ q)))
  ]

  dispatched-Held :
      (m : Result (Unit {0}) × Db)
      → HasWindow r.execution n m.1
      → is_unknown
          (dispatched r n m (λ db. leave_window r n (perform r n b rest true db))).0.0.effect
        ≡ true
      → Held r.execution n
          (dispatched r n m (λ db. leave_window r n (perform r n b rest true db))).1
  dispatched-Held (ok u, db) h =
      let out = perform r n b rest true db in
      left-Held out.0.0 out.0.1 out.1
        (perform-keeps r (HasWindow r.execution n) (window-IsKept r.execution n) n b rest true db h)
  dispatched-Held (err e, db) h = λ q. absurd (false≢true q)

  abbrev behind : Db → (StepOutcome × Bool) × Db
  behind db =
      dispatched r n (dispatch r n b (some pre) db)
        λ db'. leave_window r n (perform r n b rest true db')

  opened-Held :
      (m : Result (Unit {0}) × Db)
      → After (λ _. HasWindow r.execution n) m
      → is_unknown (caught false m behind).0.0.effect ≡ true
      → Held r.execution n (caught false m behind).1
  opened-Held (ok u, db) h = dispatched-Held (dispatch r n b (some pre) db) (
      (dispatch-Safe r (HasWindow r.execution n) (window-IsKept r.execution n) n b (some pre)).at db
        h)
  opened-Held (err e, db) h = λ q. absurd (false≢true q)

  -- If a canary update of the step opens the window of that step and ends with an unknown effect,
  -- whatever it did in between and whether it returned or raised, the window is held afterwards.
  pub update-Held :
      (window : RollbackCandidate) (db : Db)
      → window.execution_id ≡ r.execution
      → window.step_n ≡ n
      → is_unknown (perform r n b (Script.updates window pre rest) false db).0.0.effect ≡ true
      → Held r.execution n (perform r n b (Script.updates window pre rest) false db).1
  unfolding perform
  update-Held window db he hn = opened-Held (write (open_rollback_candidate window) db) (
      (Runs-write {P = λ db. Unit {0}} (open_rollback_candidate window)
          (λ db _. rw (← he, ← hn) (opened-HasWindow window db))).at
        db tt)
