-- ===== src/Setup/Undo.antt =====
-- planet_express/setup/undo.py: what an apply changed is put back, the newest step first.
pub mod Dealt
pub mod Again
use planet_express.Store.Rows.{Text}
use planet_express.Prelude.{
  Bool, true, false, not, ◌&&◌, ◌||◌, Option, none, some, List, [], ◌∷◌, ◌++◌, map, ◌==◌,
  if◌then◌else◌, select, count_where,
}
use mathlib.Core.List.{reverse}
use planet_express.Setup.Events.{
  Body, StepRecord, plain, Event, Records, undo_refused, apply_started, step_undone,
  step_not_undone,
}
use planet_express.Setup.Runs.{
  ◌>>=◌, ◌>>◌, pure, append, Step, Run, consult, Handler, read_steps, read_handlers, value, Answer,
  irreversible, step_failure, host_error, other_error,
}
use planet_express.Setup.Apply.{Plan, Locking, is_ok, is_empty, not_trusted, taken, held}

pub data Ending : Type 0 where
  done stopped refused : Ending

-- Why an undo is refused or stops.
pub data Cause : Type 0 where
  never_applied : Cause
  busy : Cause
  untrusted : Text → Cause
  failed_step : Text → Cause

pub record UndoResult : Type 0 where
  pub status : Ending
  pub plan_id : Text
  pub step : Option Text
  pub reason : Option Cause
  pub undone : List (Text × Text)
  pub not_undone : List (Text × Text)
  pub remaining : List Text

-- `UndoResult(status, plan_id)`
abbrev pub new_result : Ending → Plan → Option Cause → UndoResult
new_result status p cause = record {
  status = status;
  plan_id = p.plan_id;
  step = none;
  reason = cause;
  undone = [];
  not_undone = [];
  remaining = [];
}

-- What `UndoResult` is returned; `raised` is an exception that leaves the undo.
pub data Outcome : Type 0 where
  returned : UndoResult → Outcome
  raised : Outcome

-- The step ran, is not dealt with, and did not find everything in place without writing anything.
abbrev pub wants_undo : Option StepRecord → Bool
wants_undo none = false
wants_undo (some r) = not (r.undone || (is_ok r.status && r.satisfied && is_empty r.evidences))

-- `pending`: the steps to undo, newest first.
unfoldable pub pending_steps : Records → List Step → List Step
pending_steps records ss = select (λ s. wants_undo (records s.id)) (reverse ss)

-- "this kind of step has no undo"
abbrev pub no_undo : Text
no_undo = 1

abbrev pub ids : List Step → List Text
ids = map (λ s. s.id)

abbrev pub is_apply_started : Event → Bool
is_apply_started e = elim e.body [ apply_started n ↦ true | other ↦ false ]

module _ {H : Type 0} where
  unfoldable pub invert : Step → Handler H → Run H (Answer Text)
  unfolding consult
  invert s handler = elim handler.inverse [
    | none ↦ pure (irreversible no_undo)
    | some inverse ↦ consult s inverse
  ]

  -- The undo stops at a step, and names what is left.
  unfoldable pub refuse_undo : UndoResult → Step → List Step → Text → Run H Outcome
  refuse_undo r s rest t = do
    append (undo_refused s.id (plain t))
    pure (
        returned (record r {
          status = stopped;
          step = some s.id;
          reason = some (failed_step t);
          remaining = s.id ∷ ids rest;
        }))

  -- What follows an inverse; `next` is the loop over the steps behind.
  unfoldable pub after_invert :
      UndoResult → Step → List Step → (UndoResult → Run H Outcome) → Answer Text → Run H Outcome
  unfolding refuse_undo
  after_invert r s rest next (value detail) =
      append (step_undone s.id detail)
      >> next (record r { undone = r.undone ++ ((s.id, detail) ∷ []) })
  after_invert r s rest next (irreversible t) =
      append (step_not_undone s.id (plain t))
      >> next (record r { not_undone = r.not_undone ++ ((s.id, t) ∷ []) })
  after_invert r s rest next (step_failure t e) = refuse_undo r s rest t
  after_invert r s rest next (host_error t) = refuse_undo r s rest t
  after_invert r s rest next (other_error t) = pure raised

  -- The loop of `_undo` over the steps that are pending.
  unfoldable pub undo_steps : UndoResult → List Step → Run H Outcome
  unfolding invert after_invert
  undo_steps r [] = append Body.undo_done >> pure (returned r)
  undo_steps r (s ∷ rest) = do
    handlers ← read_handlers
    elim (handlers s.kind) [
      | none ↦ pure raised
      | some handler ↦ do
        inverted ← invert s handler
        after_invert r s rest (λ q. undo_steps q rest) inverted
    ]

  -- `_undo`
  unfoldable pub undo_plan : Plan → Run H Outcome
  unfolding undo_steps pending_steps
  undo_plan p = do
    append Body.undo_started
    records ← read_steps
    undo_steps (new_result done p none) (pending_steps records p.steps)

  -- The journal of an undo is opened with no redactor.
  abbrev pub unredacted : {A : Type 0} → Run H A → Run H A
  unredacted m env w = m (record env { redact = λ t. t }) w

  abbrev pub read_events : Run H (List Event)
  read_events env w = record { deeds = []; answer = w.journal }

  unfoldable pub undo_locked : Plan → Locking → Run H Outcome
  unfolding undo_plan
  undo_locked p taken = do
    events ← read_events
    if count_where is_apply_started events == 0
        then pure (returned (new_result refused p (some never_applied)))
        else undo_plan p
  undo_locked p held = pure (returned (new_result refused p (some busy)))
  undo_locked p (not_trusted t) = pure (returned (new_result refused p (some (untrusted t))))

  unfoldable pub undo : Plan → Locking → Run H Outcome
  unfolding undo_locked
  undo p lock = unredacted (undo_locked p lock)
