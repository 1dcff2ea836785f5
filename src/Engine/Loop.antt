-- ===== src/Engine/Loop.antt =====
-- The loop over the steps: all of them have ended when it returns.
use mathlib.Core.Bool.{false≢true}
use planet_express.Prelude.{
  ℕ, ◌+◌, ◌≡◌, refl, subst, inl, inr, Bool, true, false, Option, none, some, List, [], ◌∷◌, arith,
  Bool-cases, length,
}
use planet_express.Store.Rows.{Text, StepStatus, Effect, Db}
use planet_express.Store.Steps.{StepSpec, is_terminal_step}
use planet_express.Engine.Programs.{Prog, ◌>>=◌, Runs, Runs-pure, Runs-bind, Runs-Safe}
use planet_express.Engine.Scripts.{
  OutcomeStatus, StepOutcome, EngineResult, Run, is_passed, is_aborted, perform,
}
use planet_express.Engine.Runbook.{
  finish_outcome, proceed, stop_aborted, conclude, loop, step_status, aborted_run,
  aborted_by_operator, not_run,
}
use planet_express.Engine.Kept.{
  Upto, Ended, Passed, Passed-Ended, finish_one, abandon-Ended, perform-Kept, release_one-Safe,
  checked_output-Safe, late_dispatch-Safe, run_on-Safe, is_passed_step, passed_final, itself_final,
}

is_passed_of : (t : OutcomeStatus) → is_passed t ≡ true → t ≡ OutcomeStatus.passed
is_passed_of t h = ground arith

module _ (r : Run) where
  -- The run has ended for all steps below `N`; and if it passed, each of them did.
  abbrev pub Over : ℕ → EngineResult → Db → Type 0
  Over N result db = Ended r N db × (is_passed result.status ≡ true → Passed r N db)

  finish_ok :
      (n : ℕ) (o : StepOutcome) (output : Option Text)
      → is_passed o.status ≡ true
      → Runs (Passed r n) (λ _. Passed r (n + 1)) (finish_outcome r n o output)
  unfolding finish_outcome is_passed_step
  finish_ok n o output h =
      finish_one r is_passed_step passed_final n (r.clock n) (step_status o.status) (some o.effect)
        output (some (r.catalogue.clip o.reason)) (rw (is_passed_of o.status h) refl)

  finish_failed :
      (n : ℕ) (o : StepOutcome) (output : Option Text)
      → Runs (Passed r n) (λ _. Ended r (n + 1)) (finish_outcome r n o output)
  unfolding finish_outcome
  finish_failed n o output = record {
    at = λ db h.
        (finish_one r is_terminal_step itself_final n (r.clock n) (step_status o.status)
            (some o.effect) output (some (r.catalogue.clip o.reason)) (ground arith)).at
          db (Passed-Ended r n db h);
  }

  finish_proceed :
      (n N : ℕ) (ss : List StepSpec) (results : List StepOutcome) (o : StepOutcome)
      (output : Option Text) (k : List StepOutcome → Prog EngineResult)
      → (n + 1) + length ss ≡ N
      → ((os : List StepOutcome) → Runs (Passed r (n + 1)) (Over N) (k os))
      → Runs (Passed r n) (Over N) (finish_outcome r n o output >>= λ _. proceed r n ss results o k)
  unfolding proceed
  finish_proceed n N ss results o output k e h = elim (Bool-cases (is_passed o.status)) [
    | inl p ↦ Runs-bind _ _ (finish_ok n o output p) λ _. rw p (
        Runs-bind _ _ (Runs-Safe _ (run_on-Safe is_passed_step r passed_final (Upto (n + 1)) n ss))
          (λ _. h _))
    | inr p ↦ Runs-bind _ _ (finish_failed n o output) λ _. rw p (
        Runs-bind _ _ (abandon-Ended r (n + 1) N ss StepStatus.skipped not_run refl e)
          (λ _. Runs-pure _ (λ db x. (x, λ q. absurd (false≢true q)))))
  ]

  stop_aborted-Over :
      (n N : ℕ) (ss : List StepSpec) (b : Bool) (results : List StepOutcome) (o : StepOutcome)
      → (n + 1) + length ss ≡ N
      → Runs (Passed r n) (Over N) (stop_aborted r n ss b results o)
  unfolding stop_aborted aborted_run
  stop_aborted-Over n N ss b results o e = record {
    at = λ db h.
        (Runs-bind _ _
            (Runs-bind _ _
              (Runs-bind _ _
                (finish_one r is_terminal_step itself_final n (r.clock n) StepStatus.failed
                  (some Effect.not_applied) none (some o.reason) refl)
                (λ _.
                  Runs-Safe _
                    (release_one-Safe is_terminal_step r itself_final (Upto (n + 1)) n b)))
              (λ _. abandon-Ended r (n + 1) N ss StepStatus.aborted aborted_by_operator refl e))
            (λ _. Runs-pure _ (λ db x. (x, λ q. absurd (false≢true q))))).at
          db (Passed-Ended r n db h);
  }

  conclude-Over :
      (n N : ℕ) (s : StepSpec) (ss : List StepSpec) (results : List StepOutcome)
      (k : List StepOutcome → Prog EngineResult) (o : StepOutcome) (done : Bool)
      → (n + 1) + length ss ≡ N
      → ((os : List StepOutcome) → Runs (Passed r (n + 1)) (Over N) (k os))
      → Runs (Passed r n) (Over N) (conclude r n s ss results k (o, done))
  unfolding conclude
  conclude-Over n N s ss results k o done e h =
      let b = r.catalogue.is_limited s.type in
      elim (Bool-cases (is_aborted o.status)) [
        | inl a ↦ rw a (stop_aborted-Over n N ss b results o e)
        | inr a ↦ rw a (
            Runs-bind _ _
              (Runs-Safe _ (checked_output-Safe is_passed_step r passed_final (Upto n) s o))
              (λ output.
                Runs-bind _ _
                  (Runs-Safe _
                    (late_dispatch-Safe is_passed_step r passed_final (Upto n) n b done o))
                  (λ settled. finish_proceed n N ss results settled output k e h)))
      ]

  pub loop-Over :
      (n N : ℕ) (ss : List StepSpec) (results : List StepOutcome)
      → n + length ss ≡ N
      → Runs (Passed r n) (Over N) (loop r n ss results)
  unfolding loop
  loop-Over n N [] results e = record {
    at = λ db h.
        let here : Passed r N db = subst (λ k. Passed r k db) (omega (arith, e)) h in
        (Passed-Ended r N db here, λ _. here);
  }
  loop-Over n N (s ∷ ss) results e =
      let b = r.catalogue.is_limited s.type in
      elim (Bool-cases (r.is_abort_requested n)) [
        | inl a ↦ record {
          at = λ db h.
              rw (loop, a)
                ((Runs-bind _ _
                    (abandon-Ended r n N (s ∷ ss) StepStatus.aborted aborted_by_operator refl e)
                    (λ _. Runs-pure _ (λ db x. (x, λ q. absurd (false≢true q))))).at
                  db (Passed-Ended r n db h));
        }
        | inr a ↦ record {
          at = λ db h.
              rw (loop, a)
                (let done = perform r n b (r.execute n s) false db in
                  (conclude-Over n N s ss results (loop r (n + 1) ss) done.0.0 done.0.1
                      (omega (arith, e)) (λ os. loop-Over (n + 1) N ss os (omega (arith, e)))).at
                    done.1
                    (perform-Kept is_passed_step r passed_final (Upto n) n b (r.execute n s) false
                      db h));
        }
      ]
