-- ===== src/Setup/Apply/Outcomes.antt =====
-- What `_run` promises: a run that is done has finished every step and has nothing to do again, and
-- one that stops has stopped at the first step that is not right.
use planet_express.Setup.Cells.{cell_after, steps-perform_all}
use planet_express.Store.Rows.{Text}
use planet_express.Setup.Events.{steps, Body, scrub, apply_started, fold_cell}
use planet_express.Setup.Apply.{Ending, run_steps, is_finished, Plan, run, Text, result}
use planet_express.Prelude.{◌≡◌, refl, true, none, List, [], ◌∷◌, length, All, All-map}
use planet_express.Setup.Runs.{Step, Env, World, Ran, perform_all, write, perform}
use planet_express.Setup.Apply.Finish.{
  HasSafeId, WasLeftAlone, is_done, run_steps_finish, run_step_finished,
}

-- The world that the deeds of a run leave.
abbrev pub world_after : {H A : Type 0} → Env H → World H → Ran H A → World H
world_after env w x = perform_all env.redact env.clock x.deeds w

abbrev pub IsFinishedIn : {H : Type 0} → World H → Step → Type 0
IsFinishedIn w s = is_finished (steps w.journal s.id) ≡ true

module _ {H : Type 0} (env : Env H) where
  abbrev pub first_write : Plan → World H → World H
  first_write p w = perform env.redact env.clock (write (apply_started (length p.steps))) w

  pub started_keeps :
      (p : Plan) (w : World H) (t : Text) → steps (first_write p w).journal t ≡ steps w.journal t
  unfolding perform_all cell_after scrub fold_cell
  started_keeps p w t =
      steps-perform_all env.redact t env.clock (write (apply_started (length p.steps)) ∷ []) w

  pub started_leaves :
      (p : Plan) (w : World H) (ss : List Step)
      → All (WasLeftAlone env w) ss
      → All (WasLeftAlone env (first_write p w)) ss
  started_leaves p w ss =
      All-map (WasLeftAlone env w) (WasLeftAlone env (first_write p w)) ss
        (λ t k. rw (started_keeps p w t.id) k)

  -- A run that ends as done has finished every step of the plan, whatever the handlers do.
  pub run_finishes :
      (p : Plan) (w : World H)
      → All (HasSafeId env) p.steps
      → All (WasLeftAlone env w) p.steps
      → is_done (run p env w).answer ≡ true
      → All (IsFinishedIn (world_after env w (run p env w))) p.steps
  unfolding run perform_all
  run_finishes p w safe alone e =
      run_steps_finish env p p.steps (first_write p w) safe (started_leaves p w p.steps alone) e

  run_steps_nothing :
      (p : Plan) (ss : List Step) (w : World H)
      → All (IsFinishedIn w) ss
      → run_steps p ss env w
        ≡ record { deeds = write Body.done ∷ []; answer = result Ending.done p none none [] }
  unfolding run_steps perform_all
  run_steps_nothing p [] w h = refl
  run_steps_nothing p (s ∷ rest) w h =
      rw (run_step_finished env s w h.0) (run_steps_nothing p rest w h.1)

  started_finished :
      (p : Plan) (w : World H) (ss : List Step)
      → All (IsFinishedIn w) ss
      → All (IsFinishedIn (first_write p w)) ss
  started_finished p w ss =
      All-map (IsFinishedIn w) (IsFinishedIn (first_write p w)) ss
        (λ t k. rw (started_keeps p w t.id) k)

  run_nothing :
      (p : Plan) (w : World H)
      → All (IsFinishedIn w) p.steps
      → run p env w ≡ record {
        deeds = write (apply_started (length p.steps)) ∷ write Body.done ∷ [];
        answer = result Ending.done p none none [];
      }
  unfolding run perform_all
  run_nothing p w h =
      rw (run_steps_nothing p p.steps (first_write p w) (started_finished p w p.steps h))

  -- A plan that is applied again after a run that was done changes nothing on the host.
  pub run_again :
      (p : Plan) (w : World H)
      → All (HasSafeId env) p.steps
      → All (WasLeftAlone env w) p.steps
      → is_done (run p env w).answer ≡ true
      → run p env (world_after env w (run p env w)) ≡ record {
        deeds = write (apply_started (length p.steps)) ∷ write Body.done ∷ [];
        answer = result Ending.done p none none [];
      }
  run_again p w safe alone e = run_nothing p _ (run_finishes p w safe alone e)
