-- ===== src/Engine/Kept.antt =====
-- The parts of a run, and the steps that are marked before and after each.
use planet_express.Prelude.{
  ℕ, ◌+◌, ◌≤◌, ◌<◌, ◌≡◌, refl, sym, ◌∙◌, subst, ◌⊎◌, inl, inr, Bool, true, false, ◌&&◌, ◌||◌,
  Option, none, some, List, [], ◌∷◌, arith, ltb, is_some, Bool-cases, Option-cases, length,
}
use planet_express.Store.Rows.{Text, Time, ExecutionStep, StepStatus, Effect, ExecutionStatus, Db}
use planet_express.Store.Tx.{Ensures-map, write}
use planet_express.Store.Steps.{StepSpec, finish_step, is_terminal_step}
use planet_express.Store.Steps.Machine.{
  set_step_pre_state-Progress, note_step_progress-Progress, mark_step_dispatched-Progress,
}
use planet_express.Store.Attempts.{release_attempts}
use planet_express.Engine.Programs.{
  Runs, Runs-pure, Runs-bind, Safe, Safe-pure, Safe-bind, Safe-write, Runs-Safe, Runs-write,
}
use planet_express.Engine.Perform.{IsKept, dispatch-Safe, perform-keeps}
use planet_express.Engine.Marks.{
  open-Marked, close-Marked, hold-Marked, Marked, is_marked, marked, marked_cons, or_mono,
  step-Marked, finish_step-Marks, consume_attempt-Marked, release_attempts-Marked,
  set_execution_status-Marked,
}
use planet_express.Engine.Scripts.{StepOutcome, Script, Run, is_passed, perform}
use planet_express.Engine.Runbook.{
  finish_all, abandon, release_one, checked_output, late_dispatch, run_on,
}

checked_output_same :
    (r : Run) (s : StepSpec) (o : StepOutcome) (db : Db) → (checked_output r s o db).1 ≡ db
unfolding checked_output
checked_output_same r s o db =
    elim (Bool-cases (r.catalogue.has_outputs s.type && (is_passed o.status || is_some o.output))) [
      | inr e ↦ rw e refl
      | inl e ↦ rw e (elim (Option-cases (r.catalogue.validate_outputs s.type o.output)) [
        | inr (out, good) ↦ rw good refl
        | inl bad ↦
            rw bad
              (elim (Bool-cases (is_passed o.status)) [ inl p ↦ rw p refl | inr p ↦ rw p refl ])
      ])
    ]

module _ (good : StepStatus → Bool) (r : Run)
    (final : (t : StepStatus) → good t ≡ true → is_terminal_step t ≡ true) (P : ℕ → Type 0) where
  abbrev pub Kept : Db → Type 0
  Kept = Marked good r.execution final P

  pub Kept-IsKept : IsKept Kept r.execution
  Kept-IsKept = record {
    pre_state = λ n d.
        step-Marked good r.execution final P _
          (λ rows. set_step_pre_state-Progress rows r.execution n d);
    consumed = λ now n. consume_attempt-Marked good r.execution final P now r.execution n;
    marked = λ now n.
        step-Marked good r.execution final P _
          (λ rows. mark_step_dispatched-Progress rows now r.execution n);
    entered = λ now t. set_execution_status-Marked good r.execution final P now r.execution t none;
    noted = λ n d.
        step-Marked good r.execution final P _
          (λ rows. note_step_progress-Progress rows r.execution n d);
    opened = λ c. open-Marked good r.execution final P c;
    closed = λ now n. close-Marked good r.execution final P now r.execution n;
    held = λ n. hold-Marked good r.execution final P r.execution n;
  }

  pub perform-Kept :
      (n : ℕ) (b : Bool) (s : Script) (done : Bool) (db : Db)
      → Kept db
      → Kept (perform r n b s done db).1
  perform-Kept = perform-keeps r Kept Kept-IsKept

  pub release-Safe :
      (n : ℕ) (ns : List ℕ) → Safe Kept (write (release_attempts (r.clock n) r.execution ns))
  release-Safe n ns =
      Safe-write _ (release_attempts-Marked good r.execution final P (r.clock n) r.execution ns)

  pub release_one-Safe : (n : ℕ) (b : Bool) → Safe Kept (release_one r n b)
  unfolding release_one
  release_one-Safe n false = Safe-pure tt
  release_one-Safe n true = Safe-bind _ _ (release-Safe n (n ∷ [])) (λ _. Safe-pure tt)

  pub checked_output-Safe : (s : StepSpec) (o : StepOutcome) → Safe Kept (checked_output r s o)
  unfolding checked_output
  checked_output-Safe s o = record { at = λ db h. rw (checked_output_same r s o db) h }

  pub late_dispatch-Safe :
      (n : ℕ) (b done : Bool) (o : StepOutcome) → Safe Kept (late_dispatch r n b done o)
  unfolding late_dispatch
  late_dispatch-Safe n b true o = Safe-pure o
  late_dispatch-Safe n b false o = elim (Bool-cases (is_passed o.status)) [
    | inl e ↦ rw e (Safe-bind _ _ (dispatch-Safe r Kept Kept-IsKept n b none) (λ _. Safe-pure o))
    | inr e ↦ rw e (Safe-bind _ _ (release_one-Safe n b) (λ _. Safe-pure _))
  ]

  pub run_on-Safe : (n : ℕ) (ss : List StepSpec) → Safe Kept (run_on r n ss)
  unfolding run_on
  run_on-Safe n [] = Safe-pure tt
  run_on-Safe n (s ∷ ss) = Safe-write _ (
      set_execution_status-Marked good r.execution final P (r.clock n) r.execution
        ExecutionStatus.running none)

-- The steps below `n`.
abbrev pub Upto : ℕ → ℕ → Type 0
Upto n m = (1 ≤ m) × (m < n)

pub split_bound : (n m : ℕ) → Upto (n + 1) m → Upto n m ⊎ (m ≡ n)
split_bound n m h = elim (Bool-cases (ltb m n)) [
  | inl e ↦ inl (h.0, ground arith)
  | inr e ↦ inr (ground arith)
]

unfoldable pub is_passed_step : StepStatus → Bool
is_passed_step StepStatus.passed = true
is_passed_step _ = false

pub passed_final : (t : StepStatus) → is_passed_step t ≡ true → is_terminal_step t ≡ true
unfolding is_passed_step
passed_final t h = ground arith

pub itself_final : (t : StepStatus) → is_terminal_step t ≡ true → is_terminal_step t ≡ true
itself_final t h = h

mark_weaken :
    (e : Text) (n : ℕ) (x : ExecutionStep)
    → is_marked is_passed_step e n x ≡ true
    → is_marked is_terminal_step e n x ≡ true
unfolding is_passed_step
mark_weaken e n x h = ground arith

marked_weaken :
    (e : Text) (n : ℕ) (xs : List ExecutionStep)
    → marked is_passed_step e n xs ≡ true
    → marked is_terminal_step e n xs ≡ true
marked_weaken e n [] h = h
marked_weaken e n (x ∷ xs) h =
    marked_cons is_terminal_step e n x xs
    ∙ or_mono _ (marked is_passed_step e n xs) _ (marked is_terminal_step e n xs)
        (mark_weaken e n x) (marked_weaken e n xs) (sym (marked_cons is_passed_step e n x xs) ∙ h)

module _ (r : Run) where
  abbrev pub Ended : ℕ → Db → Type 0
  Ended n = Marked is_terminal_step r.execution itself_final (Upto n)

  abbrev pub Passed : ℕ → Db → Type 0
  Passed n = Marked is_passed_step r.execution passed_final (Upto n)

  pub Passed-Ended : (n : ℕ) (db : Db) → Passed n db → Ended n db
  Passed-Ended n db h = record {
    distinct = h.distinct;
    done = λ m u. marked_weaken r.execution m db.execution_steps (h.done m u);
  }

  pub finish_one :
      (good : StepStatus → Bool)
      (final : (t : StepStatus) → good t ≡ true → is_terminal_step t ≡ true) (n : ℕ) (now : Time)
      (t : StepStatus) (f : Option Effect) (o why : Option Text)
      → good t ≡ true
      → Runs
          (Marked good r.execution final (Upto n))
          (λ (_ : Unit {0}). Marked good r.execution final (Upto (n + 1)))
          (write (finish_step now r.execution n t f o why))
  finish_one good final n now t f o why g = Runs-write _ λ db h.
      Ensures-map (finish_step now r.execution n t f o why db)
        (finish_step-Marks good r.execution final (Upto n) n now t f o why db g h)
        (λ u db' k. record { distinct = k.distinct; done = λ m u. k.done m (split_bound n m u) })

  pub finish_all-Ended :
      (n N : ℕ) (ss : List StepSpec) (t : StepStatus) (why : Text)
      → is_terminal_step t ≡ true
      → n + length ss ≡ N
      → Runs (Ended n) (λ _. Ended N) (finish_all r n ss t why)
  unfolding finish_all
  finish_all-Ended n N [] t why g e =
      Runs-pure tt (λ db h. subst (λ k. Ended k db) (omega (arith, e)) h)
  finish_all-Ended n N (s ∷ ss) t why g e =
      Runs-bind _ _
        (finish_one is_terminal_step itself_final n (r.clock n) t none none (some why) g)
        (λ _. finish_all-Ended (n + 1) N ss t why g (omega (arith, e)))

  pub abandon-Ended :
      (n N : ℕ) (ss : List StepSpec) (t : StepStatus) (why : Text)
      → is_terminal_step t ≡ true
      → n + length ss ≡ N
      → Runs (Ended n) (λ _. Ended N) (abandon r n ss t why)
  unfolding abandon
  abandon-Ended n N ss t why g e =
      Runs-bind _ _ (finish_all-Ended n N ss t why g e)
        (λ _. Runs-Safe _ (release-Safe is_terminal_step r itself_final (Upto N) n _))
