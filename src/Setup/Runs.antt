-- ===== src/Setup/Runs.antt =====
-- What a run of apply or undo does, in order: each deed changes the host or writes an event. A run
-- that dies leaves the host and the journal as the deeds before that moment have made them.
use planet_express.Setup.Journal.{last_seq, new_event}
use planet_express.Store.Rows.{Text, Time}
use planet_express.Prelude.{ℕ, ◌≡◌, refl, Bool, true, false, Option, List, [], ◌∷◌, ◌++◌, map}
use planet_express.Setup.Events.{steps, Event, Body, Effect, Records, log, steps, evidence}

-- A change to the host, whose state is `H`, or an event written.
pub data Deed (H : Type 0) : Type 0 where
  change : H → Deed H
  write : Body → Deed H

pub record World (H : Type 0) : Type 0 where
  pub host : H
  pub journal : List Event

module _ (redact : Text → Text) (clock : ℕ → Time) where
  -- `append`, on the events that the file holds.
  unfoldable pub written : Body → List Event → List Event
  unfolding last_seq new_event
  written b es = es ++ (new_event redact clock (last_seq es) b ∷ [])

  unfoldable pub perform : {H : Type 0} → Deed H → World H → World H
  unfolding written
  perform (change h) w = record w { host = h }
  perform (write b) w = record w { journal = written b w.journal }

  unfoldable pub perform_all : {H : Type 0} → List (Deed H) → World H → World H
  perform_all [] w = w
  perform_all (d ∷ ds) w = perform_all ds (perform d w)

  pub perform_all-append :
      {H : Type 0} (ds es : List (Deed H)) (w : World H)
      → perform_all (ds ++ es) w ≡ perform_all es (perform_all ds w)
  unfolding perform_all
  perform_all-append [] es w = refl
  perform_all-append (d ∷ ds) es w = perform_all-append ds es (perform d w)

-- What a handler answers, or the exception that it raises.
pub data Answer (A : Type 0) : Type 0 where
  value : A → Answer A
  step_failure : Text → Effect → Answer A
  host_error : Text → Answer A
  irreversible : Text → Answer A
  other_error : Text → Answer A

-- What a handler does: it changes the host, and logs or records evidence in the journal.
pub data HandlerDeed (H : Type 0) : Type 0 where
  change : H → HandlerDeed H
  log_line : Text → HandlerDeed H
  record_evidence : Text → HandlerDeed H

pub record Op (H : Type 0) (A : Type 0) : Type 0 where
  pub deeds : List (HandlerDeed H)
  pub answer : Answer A

-- `Context.log` and `Context.evidence`: the events of the handler's step.
unfoldable pub as_deed : {H : Type 0} → Text → HandlerDeed H → Deed H
as_deed s (change h) = change h
as_deed s (log_line t) = write (log s t)
as_deed s (record_evidence d) = write (evidence s d)

pub data Checked : Type 0 where
  satisfied : Text → Checked
  proceed : Checked
  refuse : Text → Checked

-- The risk classes of the catalogue, and any other text.
pub data Risk : Type 0 where
  r0 r1 r2 r3 r4 : Risk
  unknown_risk : Text → Risk

abbrev pub is_r0 : Risk → Bool
is_r0 r0 = true
is_r0 r1 = false
is_r0 r2 = false
is_r0 r3 = false
is_r0 r4 = false
is_r0 (unknown_risk t) = false

pub record Step : Type 0 where
  pub id : Text
  pub kind : Text
  pub target : Text
  pub risk : Risk

-- `Context`, without the secrets and the place for backups, which a run never changes.
pub record Context (H : Type 0) : Type 0 where
  pub host : H
  pub journal : List Event
  pub step : Step

pub record Handler (H : Type 0) : Type 0 where
  pub check : Context H → Op H Checked
  pub act : Context H → Op H (Unit {0})
  pub verify : Context H → Op H Effect
  pub reconcile : Context H → Op H Effect
  pub inverse : Option (Context H → Op H Text)

-- What a run is given: `make_redactor(plan.secrets)`, the clock and the table of handlers.
pub record Env (H : Type 0) : Type 0 where
  pub redact : Text → Text
  pub clock : ℕ → Time
  pub handlers : Text → Option (Handler H)

-- The deeds of a run and what it returns.
pub record Ran (H : Type 0) (A : Type 0) : Type 0 where
  pub deeds : List (Deed H)
  pub answer : A

-- A program that reads the host and the journal.
abbrev pub Run : Type 0 → Type 0 → Type 0
Run H A = Env H → World H → Ran H A

abbrev pub act_on : {H A : Type 0} → List (Deed H) → A → Run H A
act_on ds a env w = record { deeds = ds; answer = a }

abbrev pub pure : {H A : Type 0} → A → Run H A
pure a = act_on [] a

-- `journal.append`
abbrev pub append : {H : Type 0} → Body → Run H (Unit {0})
append b = act_on (write b ∷ []) tt

-- `journal.steps()`
abbrev pub read_steps : {H : Type 0} → Run H Records
read_steps env w = record { deeds = []; answer = steps w.journal }

-- What follows a program starts where its deeds lead.
infixl 5 ◌>>=◌ ◌>>◌
abbrev pub ◌>>=◌ : {H A B : Type 0} → Run H A → (A → Run H B) → Run H B
◌>>=◌ m f env w =
    let r = m env w in
    let s = f r.answer env (perform_all env.redact env.clock r.deeds w) in
    record { deeds = r.deeds ++ s.deeds; answer = s.answer }

abbrev pub ◌>>◌ : {H B : Type 0} → Run H (Unit {0}) → Run H B → Run H B
m >> k = m >>= λ _. k

abbrev pub read_handlers : {H : Type 0} → Run H (Text → Option (Handler H))
read_handlers env w = record { deeds = []; answer = env.handlers }

-- A handler's operation, in the context of a step.
unfoldable pub consult : {H A : Type 0} → Step → (Context H → Op H A) → Run H (Answer A)
unfolding as_deed
consult s op env w =
    let o = op (record { host = w.host; journal = w.journal; step = s }) in
    record { deeds = map (as_deed s.id) o.deeds; answer = o.answer }
