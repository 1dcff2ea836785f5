-- ===== src/Setup/Undo/Again.antt =====
-- An undo that comes to its end has dealt with every step, and the next one has nothing to do.
use planet_express.Setup.Cells.{cell_after, steps-perform_all}
use planet_express.Store.Rows.{Text}
use planet_express.Setup.Apply.{Plan}
use mathlib.Core.List.{reverse, reverse-cons, append_assoc}
use planet_express.Prelude.{
  All-select, ◌≡◌, refl, subst, true, false, none, List, [], ◌∷◌, ◌++◌, arith, ==_refl, select, All,
  All-append, All-map,
}
use mathlib.Core.List.{reverse, reverse-cons, append_assoc}
use planet_express.Setup.Events.{steps, Records, Body, scrub, fold_cell}
use planet_express.Setup.Runs.{Step, Env, perform_all, World, write, perform}
use planet_express.Setup.Undo.{
  Ending, returned, wants_undo, ids, undo_plan, pending_steps, Text, undo_steps, new_result,
}
use planet_express.Setup.Apply.Finish.{HasSafeId}
use planet_express.Setup.Apply.Outcomes.{world_after}
use planet_express.Setup.Undo.Dealt.{
  contains, ids-append, is_complete, contains-append, undo_steps_deal, pending_or_not,
}

All-reverse : (P : Step → Type 0) (ss : List Step) → All P ss → All P (reverse ss)
All-reverse P [] h = tt
All-reverse P (s ∷ ss) h =
    rw (reverse-cons s ss) (All-append P (reverse ss) (s ∷ []) (All-reverse P ss h.1) (h.0, tt))

nothing_pending :
    (r : Records) (ss : List Step)
    → All (λ s. wants_undo (r s.id) ≡ false) ss
    → select (λ s. wants_undo (r s.id)) ss ≡ []
nothing_pending r [] h = refl
nothing_pending r (s ∷ ss) h = rw h.0 (nothing_pending r ss h.1)

each_contained : (pre ss : List Step) → All (λ s. contains s.id (ids (pre ++ ss)) ≡ true) ss
each_contained pre [] = tt
each_contained pre (s ∷ ss) = (
  rw (ids-append pre (s ∷ ss), contains-append s.id (ids pre) (ids (s ∷ ss)), ==_refl s.id)
      (ground arith),
  subst (λ l. All (λ s. contains s.id (ids l) ≡ true) ss) (append_assoc pre (s ∷ []) ss)
      (each_contained (pre ++ (s ∷ [])) ss),
)

module _ {H : Type 0} (env : Env H) where
  abbrev first_mark : World H → World H
  first_mark w = perform env.redact env.clock (write Body.undo_started) w

  marked_keeps : (w : World H) (t : Text) → steps (first_mark w).journal t ≡ steps w.journal t
  unfolding perform_all cell_after scrub fold_cell
  marked_keeps w t = steps-perform_all env.redact t env.clock (write Body.undo_started ∷ []) w

  HasSafeId-pending :
      (r : Records) (ss : List Step)
      → All (HasSafeId env) ss
      → All (HasSafeId env) (pending_steps r ss)
  unfolding pending_steps
  HasSafeId-pending r ss h =
      All-select (HasSafeId env) _ (reverse ss) (All-reverse (HasSafeId env) ss h)

  abbrev pub WantsNoUndo : World H → Step → Type 0
  WantsNoUndo w s = wants_undo (steps w.journal s.id) ≡ false

  -- An undo that comes to its end has dealt with every step of the plan, whatever the handlers do.
  pub undo_deals :
      (p : Plan) (w : World H) (t : Text)
      → All (HasSafeId env) p.steps
      → contains t (ids p.steps) ≡ true
      → is_complete (undo_plan p env w).answer ≡ true
      → wants_undo (steps (world_after env w (undo_plan p env w)).journal t) ≡ false
  unfolding undo_plan perform_all
  undo_deals p w t safe m e =
      let r = steps (first_mark w).journal in
      undo_steps_deal env (pending_steps r p.steps) _ (first_mark w) t
        (HasSafeId-pending r p.steps safe) (pending_or_not r t p.steps m) e

  undo_nothing :
      (p : Plan) (w : World H)
      → All (WantsNoUndo w) p.steps
      → undo_plan p env w ≡ record {
        deeds = write Body.undo_started ∷ write Body.undo_done ∷ [];
        answer = returned (new_result Ending.done p none);
      }
  unfolding undo_plan undo_steps perform_all pending_steps
  undo_nothing p w h = rw (
      nothing_pending (steps (first_mark w).journal) (reverse p.steps) (
        All-reverse (λ s. wants_undo (steps (first_mark w).journal s.id) ≡ false) p.steps
          (All-map (WantsNoUndo w) _ p.steps (λ s k. rw (marked_keeps w s.id) k) h)))

  -- Another undo after one that came to its end reverts nothing.
  pub undo_again :
      (p : Plan) (w : World H)
      → All (HasSafeId env) p.steps
      → is_complete (undo_plan p env w).answer ≡ true
      → undo_plan p env (world_after env w (undo_plan p env w)) ≡ record {
        deeds = write Body.undo_started ∷ write Body.undo_done ∷ [];
        answer = returned (new_result Ending.done p none);
      }
  undo_again p w safe e = undo_nothing p (world_after env w (undo_plan p env w)) (
      All-map (λ s. contains s.id (ids p.steps) ≡ true)
        (WantsNoUndo (world_after env w (undo_plan p env w))) p.steps
        (λ s m. undo_deals p w s.id safe m e) (each_contained [] p.steps))
