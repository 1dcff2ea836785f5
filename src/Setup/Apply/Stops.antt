-- ===== src/Setup/Apply/Stops.antt =====
-- A run that stops has stopped at the first step that is not right.
use planet_express.Store.Rows.{Text}
use planet_express.Prelude.{
  ◌≡◌, sym, ◌∙◌, subst, ◌≢◌, inl, inr, true, Option, none, some, List, [], ◌∷◌, All, All-intro,
  All-map, DistinctOn,
}
use planet_express.Setup.Events.{steps, Records}
use planet_express.Setup.Runs.{Step, Env, World, perform_all, Deed}
use planet_express.Setup.Apply.{
  Ending, Outcome, Text, run_steps, run_step, returned, is_finished, Plan, raised, refused, dry_run,
  run,
}
use planet_express.Setup.Apply.Posts.{is_failed}
use planet_express.Setup.Apply.Finish.{
  later, HasSafeId, WasLeftAlone, later_other, Next-cases, round, rounds_leave, run_steps_next,
  later-append, run_steps_stays, round_finishes, run_steps_halt, round_fails,
}
use planet_express.Setup.Apply.Outcomes.{world_after, first_write, started_leaves, started_keeps}

-- Where a run stopped: the steps in front are finished, the step itself failed, and the steps behind
-- it have the records that they had.
pub data StopsAt (before after : Records) : List Step → Text → Type 0 where
  here :
      (s : Step) {rest : List Step} {i : Text}
      → s.id ≡ i
      → is_failed (after s.id) ≡ true
      → All (λ t. after t.id ≡ before t.id) rest
      → StopsAt before after (s ∷ rest) i
  further :
      (s : Step) {rest : List Step} {i : Text}
      → is_finished (after s.id) ≡ true
      → StopsAt before after rest i
      → StopsAt before after (s ∷ rest) i

abbrev pub stops_at : Outcome → Option Text
stops_at raised = none
stops_at (returned r) = elim r.status [
  | Ending.done ↦ none
  | Ending.stopped ↦ r.step
  | refused ↦ none
  | dry_run ↦ none
]

both_keep :
    (b c after : Records) (ts : List Step)
    → All (λ t. c t.id ≡ b t.id) ts
    → All (λ t. after t.id ≡ c t.id) ts
    → All (λ t. after t.id ≡ b t.id) ts
both_keep b c after [] p q = tt
both_keep b c after (t ∷ ts) p q = (q.0 ∙ p.0, both_keep b c after ts p.1 q.1)

same_before :
    (b c after : Records) {ss : List Step} {i : Text}
    → StopsAt c after ss i
    → All (λ t. c t.id ≡ b t.id) ss
    → StopsAt b after ss i
same_before b c after (here s {rest} e f k) h = here s e f (both_keep b c after rest h.1 k)
same_before b c after (further s f k) h = further s f (same_before b c after k h.1)

module _ {H : Type 0} (env : Env H) where
  abbrev records_after : World H → List (Deed H) → Records
  records_after w ds t = later env w ds t

  others_keep :
      (s : Step) (w : World H) (ts : List Step)
      → HasSafeId env s
      → All (λ t. t.id ≢ s.id) ts
      → All (λ t. later env w (run_step s env w).deeds t.id ≡ steps w.journal t.id) ts
  others_keep s w ts safe h =
      All-map (λ t. t.id ≢ s.id) _ ts (λ t n. later_other env s w t.id safe n) h

  run_steps_stop :
      (p : Plan) (ss : List Step) (w : World H) (i : Text)
      → All (HasSafeId env) ss
      → All (WasLeftAlone env w) ss
      → DistinctOn (λ (s : Step). s.id) ss
      → stops_at (run_steps p ss env w).answer ≡ some i
      → StopsAt (steps w.journal) (records_after w (run_steps p ss env w).deeds) ss i
  unfolding run_steps perform_all
  run_steps_stop p [] w i safe alone d e = cc
  run_steps_stop p (s ∷ rest) w i safe alone d e = elim (Next-cases env (run_step s env w).answer) [
    | inl g ↦
        let ds = (run_step s env w).deeds in
        let es = (run_steps p rest env (round env s w)).deeds in
        let tail =
          run_steps_stop p rest (round env s w) i safe.1
            (rounds_leave env s w rest safe.0 alone.0 g alone.1) d.1
            (rw (run_steps_next env p s rest w g) at e) in
        subst (λ x. StopsAt (steps w.journal) (records_after w x.deeds) (s ∷ rest) i)
          (sym (run_steps_next env p s rest w g))
          (subst (λ a. StopsAt (steps w.journal) a (s ∷ rest) i)
            (λ j t. sym (later-append env w ds es t) j)
            (further s
              (run_steps_stays env p rest (round env s w) s.id safe.1
                (round_finishes env s w safe.0 alone.0 g))
              (same_before _ _ _ tail (others_keep s w rest safe.0 d.0))))
    | inr (inl (r, g)) ↦
        let ds = (run_step s env w).deeds in
        subst (λ x. StopsAt (steps w.journal) (records_after w x.deeds) (s ∷ rest) i)
          (sym (run_steps_halt env p s rest w r g))
          (subst (λ a. StopsAt (steps w.journal) a (s ∷ rest) i)
            (λ j t. sym (later-append env w ds [] t) j)
            (here s (cc (e, run_steps_halt env p s rest w r g)) (round_fails env s w r safe.0 g)
              (others_keep s w rest safe.0 d.0)))
    | inr (inr g) ↦ cc e
  ]

  -- A run that stops names the first step that is not finished. That step has failed, the steps in
  -- front of it are finished, and those behind it have the records that they had.
  pub run_stops :
      (p : Plan) (w : World H) (i : Text)
      → All (HasSafeId env) p.steps
      → All (WasLeftAlone env w) p.steps
      → DistinctOn (λ (s : Step). s.id) p.steps
      → stops_at (run p env w).answer ≡ some i
      → StopsAt (steps w.journal) (steps (world_after env w (run p env w)).journal) p.steps i
  unfolding run perform_all
  run_stops p w i safe alone d e =
      same_before _ _ _
        (run_steps_stop p p.steps (first_write env p w) i safe
          (started_leaves env p w p.steps alone) d e)
        (All-intro _ p.steps (λ t. started_keeps env p w t.id))
