-- ===== src/Setup/Apply/Finish.antt =====
-- What a run of `_run` leaves in the journal: finished steps stay finished, a run that is done has
-- finished every step, and then another run has nothing to do.
use planet_express.Setup.Cells.{cell_after, steps-perform_all, cell_after_other}
use planet_express.Store.Rows.{Text}
use planet_express.Setup.Events.{steps, Reason, StepRecord, Body, scrub, fold_cell}
use planet_express.Prelude.{
  ◌≡◌, refl, ◌∙◌, subst, ◌≢◌, ◌⊎◌, inl, inr, Bool, true, false, Option, none, some, List, [], ◌∷◌,
  ◌++◌, arith, ◌==◌, Bool-cases, eq-of-==, All, All-map, sym,
}
use planet_express.Setup.Runs.{Step, Env, World, perform_all, Deed, perform_all-append, write}
use planet_express.Setup.Apply.{
  Ending, go_on, halt, escape, Next, run_step, is_finished, Text, Plan, run_steps, result, raised,
  failed_step, Outcome, returned, refused, dry_run,
}
use planet_express.Setup.Apply.Posts.{is_reopened, is_failed}
use planet_express.Setup.Apply.Rounds.{Settles-run_step}

module _ {H : Type 0} (env : Env H) where
  -- The record of a step after the deeds of a run.
  abbrev pub later : World H → List (Deed H) → Text → Option StepRecord
  later w ds t = steps (perform_all env.redact env.clock ds w).journal t

  abbrev pub HasSafeId : Step → Type 0
  HasSafeId s = env.redact s.id ≡ s.id

  -- A finished step is passed over.
  pub run_step_finished :
      (s : Step) (w : World H)
      → is_finished (steps w.journal s.id) ≡ true
      → run_step s env w ≡ record { deeds = []; answer = go_on }
  unfolding run_step perform_all
  run_step_finished s w h = rw h

  pub later_other :
      (s : Step) (w : World H) (t : Text)
      → HasSafeId s
      → t ≢ s.id
      → later w (run_step s env w).deeds t ≡ steps w.journal t
  later_other s w t safe ne =
      steps-perform_all env.redact t env.clock (run_step s env w).deeds w
      ∙ cell_after_other env.redact s.id t (run_step s env w).deeds (steps w.journal t) ne
          (Settles-run_step s env safe w).only

  later_self :
      (s : Step) (w : World H)
      → later w (run_step s env w).deeds s.id
        ≡ cell_after env.redact s.id (run_step s env w).deeds (steps w.journal s.id)
  later_self s w = steps-perform_all env.redact s.id env.clock (run_step s env w).deeds w

  pub round_finishes :
      (s : Step) (w : World H)
      → HasSafeId s
      → is_reopened (steps w.journal s.id) ≡ false
      → (run_step s env w).answer ≡ go_on
      → is_finished (later w (run_step s env w).deeds s.id) ≡ true
  round_finishes s w safe o e = rw (later_self s w) ((Settles-run_step s env safe w).finishes o e)

  pub round_fails :
      (s : Step) (w : World H) (t : Reason)
      → HasSafeId s
      → (run_step s env w).answer ≡ halt t
      → is_failed (later w (run_step s env w).deeds s.id) ≡ true
  round_fails s w t safe e = rw (later_self s w) ((Settles-run_step s env safe w).fails t e)

  -- A round takes no step back.
  pub round_stays :
      (s : Step) (w : World H) (t : Text)
      → HasSafeId s
      → is_finished (steps w.journal t) ≡ true
      → is_finished (later w (run_step s env w).deeds t) ≡ true
  unfolding perform_all
  round_stays s w t safe h = elim (Bool-cases (t == s.id)) [
    | inl e ↦
        let same : t ≡ s.id = eq-of-== t s.id e in
        rw (run_step_finished s w (subst (λ u. is_finished (steps w.journal u) ≡ true) same h)) h
    | inr n ↦ rw (later_other s w t safe (λ e. ground arith)) h
  ]

  abbrev pub round : Step → World H → World H
  round s w = perform_all env.redact env.clock (run_step s env w).deeds w

  -- The loop after a step that it leaves behind.
  pub run_steps_next :
      (p : Plan) (s : Step) (rest : List Step) (w : World H)
      → (run_step s env w).answer ≡ go_on
      → run_steps p (s ∷ rest) env w ≡ record {
        deeds = (run_step s env w).deeds ++ (run_steps p rest env (round s w)).deeds;
        answer = (run_steps p rest env (round s w)).answer;
      }
  unfolding run_steps
  run_steps_next p s rest w e = rw e

  pub run_steps_halt :
      (p : Plan) (s : Step) (rest : List Step) (w : World H) (r : Reason)
      → (run_step s env w).answer ≡ halt r
      → run_steps p (s ∷ rest) env w ≡ record {
        deeds = (run_step s env w).deeds ++ [];
        answer = result Ending.stopped p (some s.id) (some (failed_step r)) [];
      }
  unfolding run_steps
  run_steps_halt p s rest w r e = rw e

  pub run_steps_escape :
      (p : Plan) (s : Step) (rest : List Step) (w : World H)
      → (run_step s env w).answer ≡ escape
      → run_steps p (s ∷ rest) env w
        ≡ record { deeds = (run_step s env w).deeds ++ []; answer = raised }
  unfolding run_steps
  run_steps_escape p s rest w e = rw e

  pub later-append :
      (w : World H) (ds es : List (Deed H)) (t : Text)
      → later w (ds ++ es) t ≡ later (perform_all env.redact env.clock ds w) es t
  later-append w ds es t = λ i. steps (perform_all-append env.redact env.clock ds es w i).journal t

  pub Next-cases : (n : Next) → (n ≡ go_on) ⊎ ((r : Reason) × (n ≡ halt r)) ⊎ (n ≡ escape)
  Next-cases go_on = inl refl
  Next-cases (halt r) = inr (inl (r, refl))
  Next-cases escape = inr (inr refl)

  -- The end of the loop writes of no step.
  end_stays :
      (p : Plan) (w : World H) (t : Text)
      → later w (run_steps p [] env w).deeds t ≡ steps w.journal t
  unfolding run_steps cell_after scrub fold_cell
  end_stays p w t = steps-perform_all env.redact t env.clock (write Body.done ∷ []) w

  pub run_steps_stays :
      (p : Plan) (ss : List Step) (w : World H) (t : Text)
      → All HasSafeId ss
      → is_finished (steps w.journal t) ≡ true
      → is_finished (later w (run_steps p ss env w).deeds t) ≡ true
  unfolding perform_all
  run_steps_stays p [] w t safe h = rw (end_stays p w t) h
  run_steps_stays p (s ∷ rest) w t safe h = elim (Next-cases (run_step s env w).answer) [
    | inl e ↦
        rw (run_steps_next p s rest w e, later-append w (run_step s env w).deeds _ t)
          (run_steps_stays p rest (round s w) t safe.1 (round_stays s w t safe.0 h))
    | inr (inl (r, e)) ↦
        rw (run_steps_halt p s rest w r e, later-append w (run_step s env w).deeds _ t)
          (round_stays s w t safe.0 h)
    | inr (inr e) ↦
        rw (run_steps_escape p s rest w e, later-append w (run_step s env w).deeds _ t)
          (round_stays s w t safe.0 h)
  ]

abbrev pub is_done : Outcome → Bool
is_done raised = false
is_done (returned r) = elim r.status [
  | Ending.done ↦ true
  | Ending.stopped ↦ false
  | refused ↦ false
  | dry_run ↦ false
]

module _ {H : Type 0} (env : Env H) where
  -- The steps that an undo has not dealt with while they were in flight.
  abbrev pub WasLeftAlone : World H → Step → Type 0
  WasLeftAlone w s = is_reopened (steps w.journal s.id) ≡ false

  finished_is_alone : (c : Option StepRecord) → is_finished c ≡ true → is_reopened c ≡ false
  finished_is_alone none h = refl
  finished_is_alone (some r) h = ground arith

  round_leaves :
      (s : Step) (w : World H) (t : Step)
      → HasSafeId env s
      → WasLeftAlone w s
      → (run_step s env w).answer ≡ go_on
      → WasLeftAlone w t
      → WasLeftAlone (round env s w) t
  round_leaves s w t safe o e h = elim (Bool-cases (t.id == s.id)) [
    | inl q ↦ rw (eq-of-== t.id s.id q) (finished_is_alone _ (round_finishes env s w safe o e))
    | inr n ↦ rw (later_other env s w t.id safe (λ q. ground arith)) h
  ]

  pub rounds_leave :
      (s : Step) (w : World H) (ts : List Step)
      → HasSafeId env s
      → WasLeftAlone w s
      → (run_step s env w).answer ≡ go_on
      → All (WasLeftAlone w) ts
      → All (WasLeftAlone (round env s w)) ts
  rounds_leave s w ts safe o e h =
      All-map (WasLeftAlone w) (WasLeftAlone (round env s w)) ts
        (λ t k. round_leaves s w t safe o e k) h

  abbrev pub IsDone : World H → List (Deed H) → Step → Type 0
  IsDone w ds s = is_finished (later env w ds s.id) ≡ true

  pub run_steps_finish :
      (p : Plan) (ss : List Step) (w : World H)
      → All (HasSafeId env) ss
      → All (WasLeftAlone w) ss
      → is_done (run_steps p ss env w).answer ≡ true
      → All (IsDone w (run_steps p ss env w).deeds) ss
  run_steps_finish p [] w safe o e = tt
  run_steps_finish p (s ∷ rest) w safe o e = elim (Next-cases env (run_step s env w).answer) [
    | inl g ↦
        let tail =
          run_steps_finish p rest (round env s w) safe.1 (rounds_leave s w rest safe.0 o.0 g o.1)
            (rw (run_steps_next env p s rest w g) at e) in
        let ds = (run_step s env w).deeds in
        let es = (run_steps p rest env (round env s w)).deeds in
        subst (λ x. All (IsDone w x.deeds) (s ∷ rest)) (sym (run_steps_next env p s rest w g))
          (
            rw (later-append env w ds es s.id) (
                run_steps_stays env p rest (round env s w) s.id safe.1
                  (round_finishes env s w safe.0 o.0 g)),
            All-map (IsDone (round env s w) es) (IsDone w (ds ++ es)) rest
                (λ t k. rw (later-append env w ds es t.id) k) tail,
          )
    | inr (inl (r, g)) ↦ cc (e, run_steps_halt env p s rest w r g)
    | inr (inr g) ↦ cc (e, run_steps_escape env p s rest w g)
  ]
