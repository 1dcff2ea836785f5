-- ===== src/Engine/Settled.antt =====
-- A run that returns leaves no step open, and has passed only if every step has.
use planet_express.Prelude.{
  ℕ, ◌+◌, ◌≤◌, ◌≡◌, refl, ◌∙◌, subst, ◌⊎◌, inl, inr, true, Option, none, some, List, [], ◌∷◌, arith,
  ◌==◌, Bool-cases, eq-of-==, length, DistinctOn,
}
use mathlib.Core.Bool.{false≢true}
use planet_express.Store.Rows.{StepStatus, Effect, Db}
use planet_express.Store.Tx.{Ensures-map, Result, ok, err}
use planet_express.Store.Steps.{StepSpec, finish_step, create_steps, is_terminal_step}
use planet_express.Store.Steps.Machine.{step_key, create_steps-Progress, Progress-refl}
use planet_express.Store.Attempts.{reserve_runbook_attempts, numbered, AttemptRefusal, Request}
use planet_express.Store.Attempts.Caps.{Reserves, reserve_runbook_attempts-Outcome}
use planet_express.Engine.Programs.{After, Runs, Runs-pure, Runs-bind, Runs-write}
use planet_express.Engine.Marks.{Marked, marked, finish_step-Marks}
use planet_express.Engine.Scripts.{EngineResult, Run, is_passed}
use planet_express.Engine.Runbook.{
  not_run, refused, run, admit, refuse, reserve_all, skip_others, requests,
}
use planet_express.Engine.Kept.{
  Upto, Passed, Passed-Ended, is_passed_step, itself_final, split_bound,
}
use planet_express.Engine.Loop.{Over, loop-Over}

module _ (r : Run) where
  -- The steps below `n`, and the one that was refused.
  abbrev Around : ℕ → ℕ → Db → Type 0
  Around at n = Marked is_terminal_step r.execution itself_final (λ m. Upto n m ⊎ (m ≡ at))

  around_next : (at n m : ℕ) → Upto (n + 1) m ⊎ (m ≡ at) → (Upto n m ⊎ (m ≡ at)) ⊎ (m ≡ n)
  around_next at n m (inl h) = elim (split_bound n m h) [ inl u ↦ inl (inl u) | inr e ↦ inr e ]
  around_next at n m (inr e) = inl (inr e)

  around_same : (at n m : ℕ) → (n == at) ≡ true → Upto (n + 1) m ⊎ (m ≡ at) → Upto n m ⊎ (m ≡ at)
  around_same at n m h (inl u) = elim (split_bound n m u) [
    | inl v ↦ inl v
    | inr e ↦ inr (e ∙ eq-of-== n at h)
  ]
  around_same at n m h (inr e) = inr e

  weaken :
      (P Q : ℕ → Type 0) (db : Db)
      → ((m : ℕ) → Q m → P m)
      → Marked is_terminal_step r.execution itself_final P db
      → Marked is_terminal_step r.execution itself_final Q db
  weaken P Q db f h = record { distinct = h.distinct; done = λ m q. h.done m (f m q) }

  skip_others-Around :
      (at n N : ℕ) (ss : List StepSpec)
      → n + length ss ≡ N
      → Runs (Around at n) (λ _. Around at N) (skip_others r at n ss)
  unfolding skip_others
  skip_others-Around at n N [] e =
      Runs-pure tt (λ db h. subst (λ k. Around at k db) (omega (arith, e)) h)
  skip_others-Around at n N (s ∷ ss) e =
      Runs-bind _ _
        (elim (Bool-cases (n == at)) [
          | inl same ↦ rw same (Runs-pure tt λ db h. weaken _ _ db (λ m. around_same at n m same) h)
          | inr other ↦ rw other (
              Runs-write _ λ db h.
                Ensures-map
                  (finish_step (r.clock 0) r.execution n StepStatus.skipped none none (some not_run)
                    db)
                  (finish_step-Marks is_terminal_step r.execution itself_final _ n (r.clock 0)
                    StepStatus.skipped none none (some not_run) db refl h)
                  (λ u db' k. weaken _ _ db' (around_next at n) k))
        ])
        (λ _. skip_others-Around at (n + 1) N ss (omega (arith, e)))

  refuse-Over :
      (N : ℕ) (ss : List StepSpec) (refusal : AttemptRefusal)
      → 1 + length ss ≡ N
      → Runs (Passed r 1) (Over r N) (refuse r ss refusal)
  unfolding refuse
  refuse-Over N ss refusal e = record {
    at = λ db h.
        (Runs-bind _ _
            (Runs-bind _ _
              (Runs-write _ λ db h.
                finish_step-Marks is_terminal_step r.execution itself_final (Upto 1) refusal.step_n
                  (r.clock 0) StepStatus.failed (some Effect.not_applied) none (some refused) db
                  refl h)
              (λ _. skip_others-Around refusal.step_n 1 N ss e))
            (λ _.
              Runs-pure _
                (λ db x. (weaken _ _ db (λ m u. inl u) x, λ q. absurd (false≢true q))))).at
          db (Passed-Ended r 1 db h);
  }

  admit-Over :
      (N : ℕ) (ss : List StepSpec) (o : Option AttemptRefusal)
      → 1 + length ss ≡ N
      → Runs (Passed r 1) (Over r N) (admit r ss o)
  unfolding admit
  admit-Over N ss none e = loop-Over r 1 N ss [] e
  admit-Over N ss (some refusal) e = refuse-Over N ss refusal e

  reserved-Passed :
      (rs : List Request) (db db' : Db) (o : Option AttemptRefusal)
      → Passed r 1 db
      → Reserves r.execution r.limits rs db o db'
      → Passed r 1 db'
  reserved-Passed rs db db' none h q = rw q.1 h
  reserved-Passed rs db db' (some x) h q = rw q h

  reserve_all-Passed : (rs : List Request) → Runs (Passed r 1) (λ _. Passed r 1) (reserve_all r rs)
  unfolding reserve_all
  reserve_all-Passed [] = Runs-pure none (λ db h. h)
  reserve_all-Passed (q ∷ qs) = Runs-write _ λ db h.
      Ensures-map (reserve_runbook_attempts r.execution (numbered (q ∷ qs)) r.limits db)
        (reserve_runbook_attempts-Outcome r.execution (numbered (q ∷ qs)) r.limits db)
        (λ o db' x. reserved-Passed x.0 db db' o h x.2)

  run-Over :
      (ss : List StepSpec)
      → Runs (λ db. DistinctOn step_key db.execution_steps) (Over r (1 + length ss)) (run r ss)
  unfolding run
  run-Over ss =
      Runs-bind _ _
        (Runs-write _ λ db d.
          Ensures-map (create_steps r.execution ss db)
            ((create_steps-Progress db.execution_steps r.execution ss).at db (Progress-refl db d))
            (λ u db' p. record {
              distinct = p.distinct;
              done = λ m u. absurd (omega (arith, u.0, u.1));
            }))
        (λ _.
          Runs-bind _ _ (reserve_all-Passed (requests r.catalogue 1 ss))
            (λ o. admit-Over (1 + length ss) ss o refl))

After-result :
    {A : Type 0} (Q : A → Db → Type 0) (m : Result A × Db) (a : A)
    → After Q m
    → m.0 ≡ ok a
    → Q a m.1
After-result Q (ok b, db) a h e = subst (λ x. Q x db) (cc e) h
After-result Q (err x, db) a h e = cc

-- From a table of steps without duplicates: when a run returns, whatever the executors did, whether it
-- passed, failed, was aborted or was refused its attempts, each step of the runbook has a row in a
-- terminal status.
pub run_settles :
    (r : Run) (steps : List StepSpec) (db : Db) (result : EngineResult) (n : ℕ)
    → DistinctOn step_key db.execution_steps
    → (run r steps db).0 ≡ ok result
    → 1 ≤ n
    → n ≤ length steps
    → marked is_terminal_step r.execution n (run r steps db).1.execution_steps ≡ true
run_settles r steps db result n d h lo hi =
    (After-result (Over r (1 + length steps)) (run r steps db) result ((run-Over r steps).at db d)
        h).0.done
      n (lo, omega (arith, hi))

-- From a table of steps without duplicates: a run returns `passed` only if each step of the runbook
-- has a row in the status `passed`.
pub run_passed :
    (r : Run) (steps : List StepSpec) (db : Db) (result : EngineResult) (n : ℕ)
    → DistinctOn step_key db.execution_steps
    → (run r steps db).0 ≡ ok result
    → is_passed result.status ≡ true
    → 1 ≤ n
    → n ≤ length steps
    → marked is_passed_step r.execution n (run r steps db).1.execution_steps ≡ true
run_passed r steps db result n d h p lo hi =
    ((After-result (Over r (1 + length steps)) (run r steps db) result ((run-Over r steps).at db d)
          h).1
        p).done
      n (lo, omega (arith, hi))
