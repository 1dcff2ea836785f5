-- ===== src/Setup/Events.antt =====
-- The setup journal's events and what they say of each step: `StepRecord`, `Journal.steps` and
-- `_scrub` of planet_express/setup/journal.py.
use mathlib.Core.Option
use planet_express.Store.Rows.{Time, Text}
use planet_express.Prelude.{
  ℕ, ◌≡◌, refl, Bool, true, false, Option, none, some, List, [], ◌∷◌, ◌++◌, ◌==◌, if◌then◌else◌,
}

pub data Effect : Type 0 where
  applied not_applied unknown : Effect

pub data Status : Type 0 where
  pending started ok failed : Status

-- A message, with the text that the source formats into it.
pub data Reason : Type 0 where
  plain : Text → Reason
  could_not_tell : Text → Reason
  interrupted : Reason
  unexpected : Text → Reason
  not_shown : Effect → Reason

-- An event's `type` and the data that is written with it.
pub data Body : Type 0 where
  apply_started : ℕ → Body
  log : Text → Text → Body
  evidence : Text → Text → Body
  reconciled : Text → Effect → Body
  step_started : Text → Text → Text → Body
  -- the effect, whether the step was satisfied, why, and whether it was reconciled
  step_ok : Text → Effect → Bool → Option Reason → Bool → Body
  step_failed : Text → Effect → Reason → Body
  stopped : Text → Reason → Body
  done : Body
  undo_started : Body
  step_undone : Text → Text → Body
  step_not_undone : Text → Reason → Body
  undo_refused : Text → Reason → Body
  undo_done : Body

pub record Event : Type 0 where
  pub seq : ℕ
  pub ts : Time
  pub body : Body

module _ (redact : Text → Text) where
  scrub_reason : Reason → Reason
  scrub_reason (plain t) = plain (redact t)
  scrub_reason (could_not_tell t) = could_not_tell (redact t)
  scrub_reason interrupted = interrupted
  scrub_reason (unexpected t) = unexpected (redact t)
  scrub_reason (not_shown e) = not_shown e

  -- Every text of the event, the step's id among them.
  unfoldable pub scrub : Body → Body
  unfolding scrub_reason
  scrub (apply_started n) = apply_started n
  scrub (log s line) = log (redact s) (redact line)
  scrub (evidence s d) = evidence (redact s) (redact d)
  scrub (reconciled s e) = reconciled (redact s) e
  scrub (step_started s k t) = step_started (redact s) (redact k) (redact t)
  scrub (step_ok s e b r c) = step_ok (redact s) e b (Option.map scrub_reason r) c
  scrub (step_failed s e r) = step_failed (redact s) e (scrub_reason r)
  scrub (stopped s r) = stopped (redact s) (scrub_reason r)
  scrub done = done
  scrub undo_started = undo_started
  scrub (step_undone s d) = step_undone (redact s) (redact d)
  scrub (step_not_undone s r) = step_not_undone (redact s) (scrub_reason r)
  scrub (undo_refused s r) = undo_refused (redact s) (scrub_reason r)
  scrub undo_done = undo_done

pub record StepRecord : Type 0 where
  pub status : Status
  pub effect : Option Effect
  pub reason : Option Reason
  pub evidences : List Text
  pub satisfied : Bool
  pub undone : Bool
  pub undo_note : Option Reason

-- `StepRecord()`
abbrev pub new_record : StepRecord
new_record = record {
  status = pending;
  effect = none;
  reason = none;
  evidences = [];
  satisfied = false;
  undone = false;
  undo_note = none;
}

-- `event.get("step")`
abbrev pub step_of : Body → Option Text
step_of (apply_started n) = none
step_of (log s line) = some s
step_of (evidence s d) = some s
step_of (reconciled s e) = some s
step_of (step_started s k t) = some s
step_of (step_ok s e b r c) = some s
step_of (step_failed s e r) = some s
step_of (stopped s r) = some s
step_of done = none
step_of undo_started = none
step_of (step_undone s d) = some s
step_of (step_not_undone s r) = some s
step_of (undo_refused s r) = some s
step_of undo_done = none

-- What one event makes of its step's record.
unfoldable pub fold_kind : Body → StepRecord → StepRecord
fold_kind (step_started s k t) r = record r { status = started; undone = false }
fold_kind (evidence s d) r = record r { evidences = r.evidences ++ (d ∷ []) }
fold_kind (step_ok s e b why c) r = record r {
  status = ok;
  effect = some e;
  reason = none;
  satisfied = b;
}
fold_kind (step_undone s d) r = record r { undone = true; undo_note = some (plain d) }
fold_kind (step_not_undone s why) r = record r { undone = true; undo_note = some why }
fold_kind (step_failed s e why) r = record r { status = failed; effect = some e; reason = some why }
fold_kind other r = r

-- The dictionary of `steps`, as the function `records.get`.
abbrev pub Records : Type 0
Records = Text → Option StepRecord

-- `records.setdefault(step, StepRecord())`
abbrev pub record_or_new : Option StepRecord → StepRecord
record_or_new none = new_record
record_or_new (some r) = r

-- What an event makes of the record of step `s`: `setdefault`, and the change for its kind.
unfoldable pub fold_cell : Text → Body → Option StepRecord → Option StepRecord
unfolding fold_kind
fold_cell s b c = elim (step_of b) [
  | none ↦ c
  | some t ↦ if t == s then some (fold_kind b (record_or_new c)) else c
]

unfoldable pub fold_event : Records → Body → Records
unfolding fold_cell
fold_event records b s = fold_cell s b (records s)

abbrev pub no_records : Records
no_records s = none

unfoldable pub fold_events : Records → List Event → Records
fold_events records [] = records
fold_events records (e ∷ es) = fold_events (fold_event records e.body) es

-- `Journal.steps`
unfoldable pub steps : List Event → Records
unfolding fold_events
steps es = fold_events no_records es

pub fold_events-append :
    (r : Records) (es : List Event) (e : Event)
    → fold_events r (es ++ e ∷ []) ≡ fold_event (fold_events r es) e.body
unfolding fold_events
fold_events-append r [] e = refl
fold_events-append r (x ∷ es) e = fold_events-append (fold_event r x.body) es e

-- One more event changes the record of its own step alone.
pub steps-append :
    (es : List Event) (e : Event) → steps (es ++ e ∷ []) ≡ fold_event (steps es) e.body
unfolding steps
steps-append es e = fold_events-append no_records es e
