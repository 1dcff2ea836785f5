-- ===== src/Setup/Undo/Dealt.antt =====
-- A loop of an undo that comes to its end has dealt with every step that it was given.

use planet_express.Setup.Cells.{
  cell_after, steps-perform_all, IsAbout, fold_cell_other, cell_after_other,
}
use planet_express.Store.Rows.{Text}
use planet_express.Prelude.{
  ◌≡◌, refl, sym, ap, ◌∙◌, subst, ◌≢◌, inl, inr, Bool, true, false, not, ◌&&◌, ◌||◌, Option, none,
  some, List, [], ◌∷◌, ◌++◌, arith, ◌==◌, Bool-cases, Option-cases, eq-of-==, select, All,
}
use mathlib.Core.List.{reverse, reverse-cons}
use planet_express.Setup.Events.{
  steps, scrub, StepRecord, Records, Body, step_undone, fold_cell, step_of, fold_kind, Reason,
  step_not_undone, plain,
}
use planet_express.Setup.Runs.{
  Step, Env, Handler, perform_all, consult, World, perform, write, Answer, Ran, value, irreversible,
  perform_all-append, step_failure, host_error, other_error,
}
use planet_express.Setup.Undo.{
  Ending, Outcome, returned, raised, wants_undo, Text, ids, pending_steps, invert, UndoResult,
  undo_steps, refuse_undo, after_invert,
}
use planet_express.Setup.Apply.Posts.{handler_only}
use planet_express.Setup.Apply.Finish.{HasSafeId, later}

abbrev pub contains : Text → List Text → Bool
contains t [] = false
contains t (u ∷ us) = t == u || contains t us

pub contains-append :
    (t : Text) (us vs : List Text) → contains t (us ++ vs) ≡ (contains t us || contains t vs)
contains-append t [] vs = refl
contains-append t (u ∷ us) vs = ground (arith, contains-append t us vs)

pub ids-append : (ss rs : List Step) → ids (ss ++ rs) ≡ ids ss ++ ids rs
ids-append [] rs = refl
ids-append (s ∷ ss) rs = ap (λ l. s.id ∷ l) (ids-append ss rs)

contains-reverse : (t : Text) (ss : List Step) → contains t (ids (reverse ss)) ≡ contains t (ids ss)
contains-reverse t [] = refl
contains-reverse t (s ∷ ss) =
    rw
      (
        reverse-cons s ss,
        ids-append (reverse ss) (s ∷ []),
        contains-append t (ids (reverse ss)) (s.id ∷ []),
        contains-reverse t ss,
      )
      (ground arith)

contains-select :
    (g : Text → Bool) (t : Text) (ss : List Step)
    → g t ≡ true
    → contains t (ids (select (λ s. g s.id) ss)) ≡ contains t (ids ss)
contains-select g t [] h = refl
contains-select g t (s ∷ ss) h = elim (Bool-cases (t == s.id)) [
  | inl e ↦ rw (e, subst (λ u. g u ≡ true) (eq-of-== t s.id e) h) (rw e)
  | inr n ↦ elim (Bool-cases (g s.id)) [
    | inl k ↦ rw (n, k) (rw n (contains-select g t ss h))
    | inr k ↦ rw (n, k) (contains-select g t ss h)
  ]
]

-- A step of the plan is pending unless it does not want an undo.
pub pending_or_not :
    (r : Records) (t : Text) (ss : List Step)
    → contains t (ids ss) ≡ true
    → (wants_undo (r t) && not (contains t (ids (pending_steps r ss)))) ≡ false
unfolding pending_steps
pending_or_not r t ss h = elim (Bool-cases (wants_undo (r t))) [
  | inl w ↦
      rw (contains-select (λ u. wants_undo (r u)) t (reverse ss) w, contains-reverse t ss, h) (rw w)
  | inr n ↦ rw n
]

abbrev pub is_complete : Outcome → Bool
is_complete raised = false
is_complete (returned r) = elim r.status [
  | Ending.done ↦ true
  | Ending.stopped ↦ false
  | Ending.refused ↦ false
]

module _ (redact : Text → Text) (s : Step) (safe : redact s.id ≡ s.id) (c : Option StepRecord) where
  undone_deals :
      (d : Text) → wants_undo (fold_cell s.id (scrub redact (step_undone s.id d)) c) ≡ false
  unfolding fold_cell scrub fold_kind
  undone_deals d = ground (arith, safe)

  not_undone_deals :
      (r : Reason) → wants_undo (fold_cell s.id (scrub redact (step_not_undone s.id r)) c) ≡ false
  unfolding fold_cell scrub fold_kind
  not_undone_deals r = ground (arith, safe)

-- The two events that deal with a step.
data Marks (s : Text) : Body → Type 0 where
  reverted : (d : Text) → Marks s (step_undone s d)
  named : (r : Reason) → Marks s (step_not_undone s r)

Marks-deal :
    (redact : Text → Text) (s : Step) (c : Option StepRecord) {b : Body}
    → redact s.id ≡ s.id
    → Marks s.id b
    → (wants_undo (fold_cell s.id (scrub redact b) c) ≡ false)
      × (step_of (scrub redact b) ≡ some s.id)
unfolding scrub
Marks-deal redact s c safe (reverted d) = (undone_deals redact s safe c d, ap some safe)
Marks-deal redact s c safe (named r) = (not_undone_deals redact s safe c r, ap some safe)

module _ {H : Type 0} (env : Env H) where
  invert_only :
      (s : Step) (h : Handler H) (w : World H)
      → HasSafeId env s
      → All (IsAbout env.redact s.id) (invert s h env w).deeds
  unfolding invert consult
  invert_only s h w safe = elim (Option-cases h.inverse) [
    | inl n ↦ rw n tt
    | inr (op, e) ↦ rw e (handler_only env.redact s safe _)
  ]

  -- What a handler does and the mark behind it.
  abbrev marked_world : Step → Handler H → Body → World H → World H
  marked_world s h b w =
      perform env.redact env.clock (write b)
        (perform_all env.redact env.clock (invert s h env w).deeds w)

  marked_cell :
      (s : Step) (h : Handler H) (b : Body) (w : World H) (t : Text)
      → steps (marked_world s h b w).journal t
        ≡ fold_cell t
            (scrub env.redact b)
            (cell_after env.redact t (invert s h env w).deeds (steps w.journal t))
  unfolding perform_all cell_after
  marked_cell s h b w t =
      let ds = (invert s h env w).deeds in
      steps-perform_all env.redact t env.clock (write b ∷ [])
        (perform_all env.redact env.clock ds w)
      ∙ ap (fold_cell t (scrub env.redact b)) (steps-perform_all env.redact t env.clock ds w)

  -- A step that is marked wants no undo, and the others want what they wanted.
  marked_deals :
      (s : Step) (h : Handler H) (w : World H) (t : Text) (us : List Text) {b : Body}
      → HasSafeId env s
      → Marks s.id b
      → (wants_undo (steps w.journal t) && not (contains t (s.id ∷ us))) ≡ false
      → (wants_undo (steps (marked_world s h b w).journal t) && not (contains t us)) ≡ false
  marked_deals s h w t us {b} safe m k = elim (Bool-cases (t == s.id)) [
    | inl e ↦
        let same : t ≡ s.id = eq-of-== t s.id e in
        rw (marked_cell s h b w t) (rw same (rw (Marks-deal env.redact s _ safe m).0))
    | inr n ↦
        let ne : t ≢ s.id = λ q. ground arith in
        rw
          (
            marked_cell s h b w t,
            fold_cell_other s.id t (scrub env.redact b) _ ne
                (Marks-deal env.redact s none safe m).1,
            cell_after_other env.redact s.id t _ (steps w.journal t) ne (invert_only s h w safe),
          )
          (rw n at k)
  ]

  -- The loop behind a step that it has marked.
  abbrev continued : Step → Handler H → Body → World H → UndoResult → List Step → Ran H Outcome
  continued s h b w r rest =
      let x = undo_steps r rest env (marked_world s h b w) in
      record { deeds = (invert s h env w).deeds ++ (write b ∷ x.deeds); answer = x.answer }

  later-continued :
      (s : Step) (h : Handler H) (b : Body) (w : World H) (r : UndoResult) (rest : List Step)
      (t : Text)
      → later env w (continued s h b w r rest).deeds t
        ≡ later env (marked_world s h b w) (undo_steps r rest env (marked_world s h b w)).deeds t
  unfolding perform_all
  later-continued s h b w r rest t = λ i.
      steps
        (perform_all-append env.redact env.clock (invert s h env w).deeds
          (write b ∷ (undo_steps r rest env (marked_world s h b w)).deeds) w i).journal
        t

  -- A round either marks its step and goes on, or the undo does not come to its end.
  data Rounds (r : UndoResult) (s : Step) (rest : List Step) (w : World H) : Type 0 where
    marks :
        (h : Handler H) (b : Body) (q : UndoResult)
        → Marks s.id b
        → undo_steps r (s ∷ rest) env w ≡ continued s h b w q rest
        → Rounds r s rest w
    ends : is_complete (undo_steps r (s ∷ rest) env w).answer ≡ false → Rounds r s rest w

  after_handler : UndoResult → Step → List Step → World H → Handler H → Answer Text → Ran H Outcome
  after_handler r s rest w h a =
      let i = invert s h env w in
      let x =
        after_invert r s rest (λ q. undo_steps q rest) a env
          (perform_all env.redact env.clock i.deeds w) in
      record { deeds = i.deeds ++ x.deeds; answer = x.answer }

  round_of :
      (r : UndoResult) (s : Step) (rest : List Step) (w : World H) (h : Handler H) (a : Answer Text)
      → undo_steps r (s ∷ rest) env w ≡ after_handler r s rest w h a
      → Rounds r s rest w
  unfolding after_handler after_invert refuse_undo perform perform_all
  round_of r s rest w h (value d) e =
      marks h (step_undone s.id d) (record r { undone = r.undone ++ ((s.id, d) ∷ []) }) (reverted d)
        e
  round_of r s rest w h (irreversible d) e =
      marks h (step_not_undone s.id (plain d))
        (record r { not_undone = r.not_undone ++ ((s.id, d) ∷ []) }) (named (plain d)) e
  round_of r s rest w h (step_failure t x) e =
      ends (subst (λ y. is_complete y.answer ≡ false) (sym e) refl)
  round_of r s rest w h (host_error t) e =
      ends (subst (λ y. is_complete y.answer ≡ false) (sym e) refl)
  round_of r s rest w h (other_error t) e =
      ends (subst (λ y. is_complete y.answer ≡ false) (sym e) refl)

  undo_round : (r : UndoResult) (s : Step) (rest : List Step) (w : World H) → Rounds r s rest w
  unfolding undo_steps perform_all after_handler
  undo_round r s rest w = elim (Option-cases (env.handlers s.kind)) [
    | inl n ↦ ends (rw (n, is_complete) refl)
    | inr (h, e) ↦ round_of r s rest w h (invert s h env w).answer (rw e)
  ]

  pub undo_steps_deal :
      (ss : List Step) (r : UndoResult) (w : World H) (t : Text)
      → All (HasSafeId env) ss
      → (wants_undo (steps w.journal t) && not (contains t (ids ss))) ≡ false
      → is_complete (undo_steps r ss env w).answer ≡ true
      → wants_undo (later env w (undo_steps r ss env w).deeds t) ≡ false
  unfolding undo_steps cell_after scrub fold_cell
  undo_steps_deal [] r w t safe k e =
      rw (steps-perform_all env.redact t env.clock (write Body.undo_done ∷ []) w)
        (ground (arith, k))
  undo_steps_deal (s ∷ rest) r w t safe k e = elim (undo_round r s rest w) [
    | marks h b q m x ↦
        let k' = marked_deals s h w t (ids rest) safe.0 m k in
        subst (λ y. wants_undo (later env w y.deeds t) ≡ false) (sym x)
          (rw (later-continued s h b w q rest t) (
            undo_steps_deal rest q (marked_world s h b w) t safe.1 k'
              (subst (λ y. is_complete y.answer ≡ true) x e)))
    | ends n ↦ cc (e, n)
  ]
