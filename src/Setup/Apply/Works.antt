-- ===== src/Setup/Apply/Works.antt =====
-- Resuming: with handlers that work, a run from any journal and any host comes to its end.
use planet_express.Setup.Events.{steps, Effect, applied, not_applied, unknown}
use planet_express.Prelude.{
  ◌≡◌, refl, sym, subst, inl, inr, Bool, true, false, some, List, [], ◌∷◌, Bool-cases, All,
}
use planet_express.Setup.Runs.{
  Step, Handler, Answer, Env, Checked, value, World, Context, refuse, consult, perform_all, proceed,
  step_failure, host_error, irreversible, other_error,
}
use planet_express.Setup.Apply.{
  go_on, after_reconcile, after_check, run_steps, begin, run_step, run, after_act, verify_step,
  resume, act_step, applied, Plan, settle, after_verify, is_finished, is_in_flight, conclude,
}
use planet_express.Setup.Apply.Finish.{is_done, round, run_steps_next}

-- What a handler answers when nothing is in its way: its check lets the step run or finds it
-- satisfied, its act does not fail, the host then shows the change, and of an interrupted step it
-- can tell whether it happened.
abbrev pub is_clear : Answer Checked → Bool
is_clear (value proceed) = true
is_clear (value (Checked.satisfied t)) = true
is_clear other = false

abbrev pub is_known : Answer Effect → Bool
is_known (value applied) = true
is_known (value not_applied) = true
is_known other = false

abbrev is_value : Answer (Unit {0}) → Bool
is_value (value a) = true
is_value other = false

pub record Works {H : Type 0} (h : Handler H) : Type 0 where
  pub checks : (c : Context H) → is_clear (h.check c).answer ≡ true
  pub acts : (c : Context H) → is_value (h.act c).answer ≡ true
  pub verifies : (c : Context H) → (h.verify c).answer ≡ value applied
  pub tells : (c : Context H) → is_known (h.reconcile c).answer ≡ true

module _ {H : Type 0} (env : Env H) (s : Step) (h : Handler H) (works : Works h) where
  abbrev context : World H → Context H
  context w = record { host = w.host; journal = w.journal; step = s }

  verify_step_goes : (w : World H) → (verify_step s h env w).answer ≡ go_on
  unfolding verify_step consult after_verify conclude
  verify_step_goes w = rw (works.verifies (context w))

  after_act_goes :
      (a : Answer (Unit {0})) (w : World H)
      → is_value a ≡ true
      → (after_act s h a env w).answer ≡ go_on
  unfolding after_act
  after_act_goes (value a) w e = verify_step_goes w
  after_act_goes (step_failure t x) w e = cc
  after_act_goes (host_error t) w e = cc
  after_act_goes (irreversible t) w e = cc
  after_act_goes (other_error t) w e = cc

  act_step_goes : (w : World H) → (act_step s h env w).answer ≡ go_on
  unfolding act_step consult
  act_step_goes w = after_act_goes _ _ (works.acts (context w))

  after_check_goes :
      (a : Answer Checked) (w : World H)
      → is_clear a ≡ true
      → (after_check s h a env w).answer ≡ go_on
  unfolding after_check
  after_check_goes (value proceed) w e = act_step_goes w
  after_check_goes (value (Checked.satisfied t)) w e = refl
  after_check_goes (value (refuse t)) w e = cc
  after_check_goes (step_failure t x) w e = cc
  after_check_goes (host_error t) w e = cc
  after_check_goes (irreversible t) w e = cc
  after_check_goes (other_error t) w e = cc

  begin_goes : (w : World H) → (begin s h env w).answer ≡ go_on
  unfolding begin consult
  begin_goes w = after_check_goes _ _ (works.checks (context _))

  after_reconcile_goes :
      (a : Answer Effect) (w : World H)
      → is_known a ≡ true
      → (after_reconcile s h a env w).answer ≡ go_on
  unfolding after_reconcile settle
  after_reconcile_goes (value applied) w e = refl
  after_reconcile_goes (value not_applied) w e = begin_goes _
  after_reconcile_goes (value unknown) w e = cc
  after_reconcile_goes (step_failure t x) w e = cc
  after_reconcile_goes (host_error t) w e = cc
  after_reconcile_goes (irreversible t) w e = cc
  after_reconcile_goes (other_error t) w e = cc

  resume_goes : (w : World H) → (resume s h env w).answer ≡ go_on
  unfolding resume consult
  resume_goes w = after_reconcile_goes _ _ (works.tells (context w))

  run_step_goes : (w : World H) → env.handlers s.kind ≡ some h → (run_step s env w).answer ≡ go_on
  unfolding run_step perform_all
  run_step_goes w e = elim (Bool-cases (is_finished (steps w.journal s.id))) [
    | inl f ↦ rw f
    | inr f ↦
        rw (f, e)
          (elim (Bool-cases (is_in_flight (steps w.journal s.id))) [
            | inl g ↦ rw g (resume_goes w)
            | inr g ↦ rw g (begin_goes w)
          ])
  ]

module _ {H : Type 0} (env : Env H) where
  -- The build has a handler for the step, and it works.
  abbrev pub IsHandled : Step → Type 0
  IsHandled s = (h : Handler H) × (env.handlers s.kind ≡ some h) × Works h

  run_steps_go :
      (p : Plan) (ss : List Step) (w : World H)
      → All IsHandled ss
      → is_done (run_steps p ss env w).answer ≡ true
  unfolding run_steps
  run_steps_go p [] w k = refl
  run_steps_go p (s ∷ rest) w ((h, e, works), k) =
      subst (λ x. is_done x.answer ≡ true)
        (sym (run_steps_next env p s rest w (run_step_goes env s h works w e)))
        (run_steps_go p rest (round env s w) k)

  -- Whatever an earlier run has left in the journal and on the host, a run whose handlers work ends
  -- as done.
  pub run_resumes :
      (p : Plan) (w : World H) → All IsHandled p.steps → is_done (run p env w).answer ≡ true
  unfolding run
  run_resumes p w k = run_steps_go p p.steps _ k
