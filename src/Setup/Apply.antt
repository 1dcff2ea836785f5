-- ===== src/Setup/Apply.antt =====
-- planet_express/setup/apply.py: a plan is run step by step, and the first step that is not right
-- stops it.
pub mod Posts
pub mod Rounds
pub mod Finish
pub mod Outcomes
pub mod Stops
pub mod First
pub mod Works
pub mod Guards
use planet_express.Store.Rows.{Text}
use planet_express.Setup.Runs.{
  ◌>>=◌, HandlerDeed, consult, Step, Answer, pure, Handler, Deed, is_r0, append, change, Run,
  Checked, log_line, ◌>>◌, value, step_failure, record_evidence, other_error, host_error,
  irreversible, read_handlers, read_steps, refuse, proceed,
}
use planet_express.Prelude.{
  Bool, true, false, not, ◌&&◌, Option, none, some, List, [], ◌∷◌, ◌++◌, ◌==◌, if◌then◌else◌,
  is_some, length,
}
use mathlib.Core.Option
use planet_express.Setup.Events.{
  Body, pending, Effect, applied, not_applied, unknown, Status, Reason, StepRecord, plain, step_ok,
  apply_started, not_shown, step_started, step_failed, interrupted, unexpected, reconciled,
  could_not_tell, started, ok, failed,
}

pub data Ending : Type 0 where
  done stopped refused dry_run : Ending

-- One entry of `checks`: the step's id and what its check says.
pub data Label : Type 0 where
  not_implemented satisfied would_run refused_now : Label

pub record Finding : Type 0 where
  pub step : Text
  pub label : Label
  pub detail : Option Reason

-- Why `apply` refuses before it does anything, and why it stopped.
pub data Cause : Type 0 where
  blocked : List Text → Cause
  unsupported : List Text → Cause
  drifted : Cause
  busy : Cause
  untrusted : Text → Cause
  failed_step : Reason → Cause

pub record ApplyResult : Type 0 where
  pub status : Ending
  pub plan_id : Text
  pub step : Option Text
  pub reason : Option Cause
  pub checks : List Finding

pub record Plan : Type 0 where
  pub plan_id : Text
  pub applicable : Bool
  pub blocked : List Text
  pub steps : List Step

-- A step that the loop leaves behind, that stops the run, or whose exception `_run` does not catch.
pub data Next : Type 0 where
  go_on : Next
  halt : Reason → Next
  escape : Next

-- `record.status == "ok" and not record.undone`
abbrev pub is_ok : Status → Bool
is_ok pending = false
is_ok started = false
is_ok ok = true
is_ok failed = false

abbrev pub is_started : Status → Bool
is_started pending = false
is_started started = true
is_started ok = false
is_started failed = false

abbrev pub is_finished : Option StepRecord → Bool
is_finished none = false
is_finished (some r) = is_ok r.status && not r.undone

abbrev pub is_in_flight : Option StepRecord → Bool
is_in_flight none = false
is_in_flight (some r) = is_started r.status

abbrev pub shows_result : Step → Effect → Bool
shows_result s applied = true
shows_result s not_applied = is_r0 s.risk
shows_result s unknown = false

module _ {H : Type 0} where
  -- `stop`
  unfoldable pub stop : Step → Reason → Effect → Run H Next
  stop s reason effect = do
    append (step_failed s.id effect reason)
    append (Body.stopped s.id reason)
    pure (halt reason)

  -- The `except` clauses around a step; a value is no exception.
  unfoldable pub caught : {A : Type 0} → Step → Answer A → Run H Next
  unfolding stop
  caught s (value a) = pure go_on
  caught s (step_failure t effect) = stop s (plain t) effect
  caught s (host_error t) = stop s (plain t) unknown
  caught s (irreversible t) = stop s (unexpected t) unknown
  caught s (other_error t) = stop s (unexpected t) unknown

  -- What follows `verify`.
  unfoldable pub conclude : Step → Effect → Run H Next
  unfolding stop
  conclude s effect =
      if shows_result s effect
      then append (step_ok s.id effect false none false) >> pure go_on
      else stop s (not_shown effect) effect

  unfoldable pub after_verify : Step → Answer Effect → Run H Next
  unfolding conclude caught
  after_verify s (value effect) = conclude s effect
  after_verify s other = caught s other

  unfoldable pub verify_step : Step → Handler H → Run H Next
  unfolding after_verify consult
  verify_step s handler = do seen ← consult s handler.verify; after_verify s seen

  unfoldable pub after_act : Step → Handler H → Answer (Unit {0}) → Run H Next
  unfolding verify_step caught
  after_act s handler (value a) = verify_step s handler
  after_act s handler other = caught s other

  unfoldable pub act_step : Step → Handler H → Run H Next
  unfolding after_act consult
  act_step s handler = do acted ← consult s handler.act; after_act s handler acted

  unfoldable pub after_check : Step → Handler H → Answer Checked → Run H Next
  unfolding act_step caught stop
  after_check s handler (value (refuse t)) = stop s (plain t) not_applied
  after_check s handler (value (Checked.satisfied t)) =
      append (step_ok s.id not_applied true (some (plain t)) false) >> pure go_on
  after_check s handler (value proceed) = act_step s handler
  after_check s handler other = caught s other

  -- The step is journaled as started, checked, acted on and verified.
  unfoldable pub begin : Step → Handler H → Run H Next
  unfolding after_check consult
  begin s handler = do
    append (step_started s.id s.kind s.target)
    checked ← consult s handler.check
    after_check s handler checked

  -- What the handler found of a step that was in flight.
  unfoldable pub settle : Step → Handler H → Effect → Run H Next
  unfolding begin stop
  settle s handler applied = append (step_ok s.id applied false none true) >> pure go_on
  settle s handler unknown = stop s interrupted unknown
  settle s handler not_applied = begin s handler

  unfoldable pub after_reconcile : Step → Handler H → Answer Effect → Run H Next
  unfolding settle stop
  after_reconcile s handler (value effect) =
      append (reconciled s.id effect) >> settle s handler effect
  after_reconcile s handler (step_failure t e) = stop s (could_not_tell t) unknown
  after_reconcile s handler (host_error t) = stop s (could_not_tell t) unknown
  after_reconcile s handler (irreversible t) = pure escape
  after_reconcile s handler (other_error t) = pure escape

  -- A step that was in flight when the last run died.
  unfoldable pub resume : Step → Handler H → Run H Next
  unfolding after_reconcile consult
  resume s handler = do found ← consult s handler.reconcile; after_reconcile s handler found

  -- One round of the loop in `_run`; `handlers[step.kind]` raises for a kind that is not there.
  unfoldable pub run_step : Step → Run H Next
  unfolding resume begin
  run_step s = do
    records ← read_steps
    handlers ← read_handlers
    let found = records s.id
    if is_finished found then pure go_on else elim (handlers s.kind) [
      | none ↦ pure escape
      | some handler ↦ if is_in_flight found then resume s handler else begin s handler
    ]

abbrev pub finding : Step → Label → Option Text → Finding
finding s l d = record { step = s.id; label = l; detail = Option.map plain d }

-- What `_dry_run` makes of a check; an exception leaves it.
unfoldable pub after_dry_check : Step → Answer Checked → Option Finding
after_dry_check s (value (Checked.satisfied t)) = some (finding s satisfied (some t))
after_dry_check s (value proceed) = some (finding s would_run none)
after_dry_check s (value (refuse t)) = some (finding s refused_now (some t))
after_dry_check s other = none

-- What `_run` and `apply` return; `raised` is an exception that leaves them.
pub data Outcome : Type 0 where
  returned : ApplyResult → Outcome
  raised : Outcome

abbrev pub result : Ending → Plan → Option Text → Option Cause → List Finding → Outcome
result status p step cause checks =
    returned (record {
      status = status;
      plan_id = p.plan_id;
      step = step;
      reason = cause;
      checks = checks;
    })

module _ {H : Type 0} where
  unfoldable pub run_steps : Plan → List Step → Run H Outcome
  unfolding run_step
  run_steps p [] = append Body.done >> pure (result done p none none [])
  run_steps p (s ∷ rest) = do
    next ← run_step s
    elim next [
      | go_on ↦ run_steps p rest
      | halt reason ↦ pure (result stopped p (some s.id) (some (failed_step reason)) [])
      | escape ↦ pure raised
    ]

  -- `_run`, on the events of the journal that it opens.
  unfoldable pub run : Plan → Run H Outcome
  unfolding run_steps
  run p = append (apply_started (length p.steps)) >> run_steps p p.steps

  -- What a check may do under `_NoJournal`: the deeds before the first that it wants to journal, and
  -- whether there is no such deed.
  unfoldable pub unjournaled : List (HandlerDeed H) → List (Deed H) × Bool
  unjournaled [] = ([], true)
  unjournaled (change h ∷ ds) = let rest = unjournaled ds in (change h ∷ rest.0, rest.1)
  unjournaled (log_line t ∷ ds) = ([], false)
  unjournaled (record_evidence d ∷ ds) = ([], false)

  unfoldable pub check_only : Step → Handler H → Run H (Answer Checked)
  unfolding unjournaled
  check_only s handler env w =
      let o = handler.check (record { host = w.host; journal = []; step = s }) in
      let may = unjournaled o.deeds in
      record { deeds = may.0; answer = if may.1 then o.answer else other_error 0 }

  -- One round of the loop in `_dry_run`.
  unfoldable pub dry_step : Step → Run H (Option Finding)
  unfolding check_only after_dry_check
  dry_step s = do
    handlers ← read_handlers
    elim (handlers s.kind) [
      | none ↦ pure (some (finding s not_implemented none))
      | some handler ↦ do checked ← check_only s handler; pure (after_dry_check s checked)
    ]

  -- `checks` grows by one entry for each step.
  unfoldable pub dry_steps : Plan → List Step → List Finding → Run H Outcome
  unfolding dry_step
  dry_steps p [] checks = pure (result dry_run p none none checks)
  dry_steps p (s ∷ rest) checks = do
    found ← dry_step s
    elim found [ none ↦ pure raised | some f ↦ dry_steps p rest (checks ++ (f ∷ [])) ]

  -- `unsupported`, in the plan's order and not as a sorted set
  unfoldable pub missing_kinds : (Text → Option (Handler H)) → List Step → List Text
  missing_kinds handlers [] = []
  missing_kinds handlers (s ∷ ss) =
      let rest = missing_kinds handlers ss in
      if is_some (handlers s.kind) then rest else s.kind ∷ rest

-- The lock of the journal's root: taken, held by another apply, or not to be trusted.
pub data Locking : Type 0 where
  taken : Locking
  held : Locking
  not_trusted : Text → Locking

abbrev pub is_empty {ℓ} : {A : Type ℓ} → List A → Bool
is_empty [] = true
is_empty (a ∷ rest) = false

module _ {H : Type 0} where
  -- `with _Lock(…)`, the plan's id from fresh discovery under it.
  unfoldable pub run_locked : Plan → Text → Locking → Run H Outcome
  unfolding run
  run_locked p fresh taken =
      if fresh == p.plan_id then run p else pure (result refused p none (some drifted) [])
  run_locked p fresh held = pure (result refused p none (some busy) [])
  run_locked p fresh (not_trusted t) = pure (result refused p none (some (untrusted t)) [])

  -- `apply`: `fresh` is the id of the plan that `replan` rebuilds.
  unfoldable pub apply : Plan → Bool → Text → Locking → Run H Outcome
  unfolding run_locked dry_steps missing_kinds
  apply p dry fresh lock = do
    handlers ← read_handlers
    let missing = missing_kinds handlers p.steps
    if not p.applicable
        then pure (result refused p none (some (blocked p.blocked)) [])
        else if not (is_empty missing) && not dry
        then pure (result refused p none (some (unsupported missing)) [])
        else if dry
        then (if fresh == p.plan_id
            then dry_steps p p.steps []
            else pure (result refused p none (some drifted) []))
        else run_locked p fresh lock
