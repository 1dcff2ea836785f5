-- ===== src/Setup/Apply/Rounds.antt =====
-- One round of the loop in `_run`: the step's record, the journal of the other steps, and the host.
use planet_express.Setup.Events.{steps, applied, not_applied}
use planet_express.Setup.Cells.{cell_after}
use planet_express.Setup.Events.{
  Effect, StepRecord, not_shown, plain, unexpected, could_not_tell, steps,
}
use planet_express.Prelude.{
  ◌≡◌, refl, inl, inr, Bool, true, false, Option, none, some, [], Bool-cases, Option-cases,
}
use planet_express.Setup.Runs.{
  Step, Handler, Env, Answer, World, value, Checked, proceed, perform_all,
}
use planet_express.Setup.Apply.{
  Handler, after_verify, conclude, verify_step, caught, Answer, Effect, StepRecord, is_in_flight,
  value, shows_result, step_failure, plain, not_shown, host_error, irreversible, unknown,
  other_error, unexpected, begin, resume, run_step, after_reconcile, settle, after_act, after_check,
  act_step, is_finished, could_not_tell, interrupted, Checked, not_applied, refuse, escape, go_on,
}
use planet_express.Setup.Apply.Posts.{
  Settles-started, Settles-reconciled, Settles, Settles-consult, Settles-stop, Settles-ok,
}

abbrev is_value : {A : Type 0} → Answer A → Bool
is_value (value a) = true
is_value (step_failure t e) = false
is_value (host_error t) = false
is_value (irreversible t) = false
is_value (other_error t) = false

module _ {H : Type 0} (s : Step) (handler : Handler H) (env : Env H)
    (same : env.redact s.id ≡ s.id) where
  Settles-caught :
      {A : Type 0} (a : Answer A) (w : World H) (c : Option StepRecord)
      → is_value a ≡ false
      → Settles env.redact s same c (caught s a env w)
  unfolding caught
  Settles-caught (value a) w c h = cc
  Settles-caught (step_failure t e) w c h = Settles-stop env.redact s same (plain t) e env w c
  Settles-caught (host_error t) w c h = Settles-stop env.redact s same (plain t) unknown env w c
  Settles-caught (irreversible t) w c h =
      Settles-stop env.redact s same (unexpected t) unknown env w c
  Settles-caught (other_error t) w c h =
      Settles-stop env.redact s same (unexpected t) unknown env w c

  Settles-conclude :
      (e : Effect) (w : World H) (c : Option StepRecord)
      → is_in_flight c ≡ true
      → Settles env.redact s same c (conclude s e env w)
  unfolding conclude
  Settles-conclude e w c h = elim (Bool-cases (shows_result s e)) [
    | inl q ↦ rw q (Settles-ok env.redact s same e false none false c h)
    | inr q ↦ rw q (Settles-stop env.redact s same (not_shown e) e env w c)
  ]

  verified :
      (a : Answer Effect) (w : World H) (c : Option StepRecord)
      → is_in_flight c ≡ true
      → Settles env.redact s same c (after_verify s a env w)
  unfolding after_verify
  verified (value e) w c h = Settles-conclude e w c h
  verified (step_failure t e) w c h = Settles-caught {A = Effect} (step_failure t e) w c refl
  verified (host_error t) w c h = Settles-caught {A = Effect} (host_error t) w c refl
  verified (irreversible t) w c h = Settles-caught {A = Effect} (irreversible t) w c refl
  verified (other_error t) w c h = Settles-caught {A = Effect} (other_error t) w c refl

  Settles-verify_step :
      (w : World H) (c : Option StepRecord)
      → is_in_flight c ≡ true
      → Settles env.redact s same c (verify_step s handler env w)
  unfolding verify_step
  Settles-verify_step w c h =
      Settles-consult env.redact s same handler.verify c env w _ h λ d k. verified _ _ d k

  acted :
      (a : Answer (Unit {0})) (w : World H) (c : Option StepRecord)
      → is_in_flight c ≡ true
      → Settles env.redact s same c (after_act s handler a env w)
  unfolding after_act
  acted (value e) w c h = Settles-verify_step w c h
  acted (step_failure t e) w c h = Settles-caught {A = (Unit {0})} (step_failure t e) w c refl
  acted (host_error t) w c h = Settles-caught {A = (Unit {0})} (host_error t) w c refl
  acted (irreversible t) w c h = Settles-caught {A = (Unit {0})} (irreversible t) w c refl
  acted (other_error t) w c h = Settles-caught {A = (Unit {0})} (other_error t) w c refl

  Settles-act_step :
      (w : World H) (c : Option StepRecord)
      → is_in_flight c ≡ true
      → Settles env.redact s same c (act_step s handler env w)
  unfolding act_step
  Settles-act_step w c h =
      Settles-consult env.redact s same handler.act c env w _ h λ d k. acted _ _ d k

  checked :
      (a : Answer Checked) (w : World H) (c : Option StepRecord)
      → is_in_flight c ≡ true
      → Settles env.redact s same c (after_check s handler a env w)
  unfolding after_check
  checked (value proceed) w c h = Settles-act_step w c h
  checked (value (Checked.satisfied t)) w c h =
      Settles-ok env.redact s same not_applied true (some (plain t)) false c h
  checked (value (refuse t)) w c h = Settles-stop env.redact s same (plain t) not_applied env w c
  checked (step_failure t e) w c h = Settles-caught {A = Checked} (step_failure t e) w c refl
  checked (host_error t) w c h = Settles-caught {A = Checked} (host_error t) w c refl
  checked (irreversible t) w c h = Settles-caught {A = Checked} (irreversible t) w c refl
  checked (other_error t) w c h = Settles-caught {A = Checked} (other_error t) w c refl

  -- A step that begins is marked as started before its handler is asked for anything.
  pub Settles-begin :
      (w : World H) (c : Option StepRecord) → Settles env.redact s same c (begin s handler env w)
  unfolding begin
  Settles-begin w c =
      Settles-started env.redact s same c _
        λ d k. Settles-consult env.redact s same handler.check d env _ _ k λ e q. checked _ _ e q

  settled :
      (e : Effect) (w : World H) (c : Option StepRecord)
      → is_in_flight c ≡ true
      → Settles env.redact s same c (settle s handler e env w)
  unfolding settle
  settled applied w c h = Settles-ok env.redact s same applied false none true c h
  settled not_applied w c h = Settles-begin w c
  settled unknown w c h = Settles-stop env.redact s same interrupted unknown env w c

  escaped :
      (c : Option StepRecord)
      → Settles {H = H} env.redact s same c (record { deeds = []; answer = escape })
  escaped c = record { only = tt; covered = tt; finishes = λ o q. cc; fails = λ t q. cc }

  reconciled_as :
      (a : Answer Effect) (w : World H) (c : Option StepRecord)
      → is_in_flight c ≡ true
      → Settles env.redact s same c (after_reconcile s handler a env w)
  unfolding after_reconcile
  reconciled_as (value e) w c h =
      Settles-reconciled env.redact s same e c _ h λ d k. settled e _ d k
  reconciled_as (step_failure t e) w c h =
      Settles-stop env.redact s same (could_not_tell t) unknown env w c
  reconciled_as (host_error t) w c h =
      Settles-stop env.redact s same (could_not_tell t) unknown env w c
  reconciled_as (irreversible t) w c h = escaped c
  reconciled_as (other_error t) w c h = escaped c

  pub Settles-resume :
      (w : World H) (c : Option StepRecord)
      → is_in_flight c ≡ true
      → Settles env.redact s same c (resume s handler env w)
  unfolding resume
  Settles-resume w c h =
      Settles-consult env.redact s same handler.reconcile c env w _ h λ d k. reconciled_as _ _ d k

module _ {H : Type 0} (s : Step) (env : Env H) (same : env.redact s.id ≡ s.id) where
  nothing_to_do :
      (c : Option StepRecord)
      → is_finished c ≡ true
      → Settles {H = H} env.redact s same c (record { deeds = []; answer = go_on })
  unfolding cell_after
  nothing_to_do c h = record { only = tt; covered = tt; finishes = λ o q. h; fails = λ t q. cc }

  no_handler :
      (c : Option StepRecord)
      → Settles {H = H} env.redact s same c (record { deeds = []; answer = escape })
  no_handler c = record { only = tt; covered = tt; finishes = λ o q. cc; fails = λ t q. cc }

  -- One round, from what the journal says of the step.
  pub Settles-run_step :
      (w : World H) → Settles env.redact s same (steps w.journal s.id) (run_step s env w)
  unfolding run_step perform_all
  Settles-run_step w = elim (Bool-cases (is_finished (steps w.journal s.id))) [
    | inl f ↦ rw f (nothing_to_do _ f)
    | inr f ↦ rw f (elim (Option-cases (env.handlers s.kind)) [
      | inl n ↦ rw n (no_handler _)
      | inr (handler, e) ↦ rw e (elim (Bool-cases (is_in_flight (steps w.journal s.id))) [
        | inl g ↦ rw g (Settles-resume s handler env same w _ g)
        | inr g ↦ rw g (Settles-begin s handler env same w _)
      ])
    ])
  ]
