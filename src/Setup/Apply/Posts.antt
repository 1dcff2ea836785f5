-- ===== src/Setup/Apply/Posts.antt =====
-- What one step of `_run` does to its record in the journal, whatever its handler does.
use planet_express.Setup.Cells.{cell_after, IsAbout, IsCovered, IsCovered-append, cell_after-append}
use planet_express.Setup.Events.{
  StepRecord, fold_cell, scrub, fold_kind, Reason, log, evidence, Effect, Status, step_ok, pending,
  started, ok, failed, step_started, reconciled,
}
use planet_express.Store.Rows.{Text}
use planet_express.Prelude.{
  ◌≡◌, refl, ap, ◌∙◌, Bool, true, false, ◌&&◌, Option, none, some, List, [], ◌∷◌, ◌++◌, map, arith,
  All, All-append,
}
use planet_express.Setup.Runs.{
  Step, Ran, Deed, as_deed, HandlerDeed, Env, World, write, consult, Context, Op,
}
use planet_express.Setup.Apply.{
  go_on, halt, Next, stop, Text, StepRecord, Deed, HandlerDeed, change, Reason, is_in_flight,
  log_line, Effect, is_finished, record_evidence, Status, step_ok, consult, is_started,
  step_started, reconciled,
}

abbrev is_failure : Status → Bool
is_failure pending = false
is_failure started = false
is_failure ok = false
is_failure failed = true

abbrev pub is_failed : Option StepRecord → Bool
is_failed none = false
is_failed (some r) = is_failure r.status

-- Interrupted, and then dealt with by an undo: `step_ok` does not take the mark off again.
abbrev pub is_reopened : Option StepRecord → Bool
is_reopened none = false
is_reopened (some r) = is_started r.status && r.undone

abbrev undone_of : Option StepRecord → Bool
undone_of none = false
undone_of (some r) = r.undone

reopened_of :
    (c d : Option StepRecord)
    → is_in_flight d ≡ is_in_flight c
    → undone_of d ≡ undone_of c
    → is_reopened d ≡ is_reopened c
reopened_of none none h k = refl
reopened_of none (some r) h k = ground arith
reopened_of (some r) none h k = ground arith
reopened_of (some r) (some q) h k = ground arith

module _ (redact : Text → Text) (s : Step) (same : redact s.id ≡ s.id) (t : Text) where
  log_keeps :
      (c : Option StepRecord)
      → let d = fold_cell s.id (scrub redact (log s.id t)) c in
        (is_in_flight d ≡ is_in_flight c) × (undone_of d ≡ undone_of c)
  unfolding fold_cell scrub fold_kind
  log_keeps (some r) = ground (arith, same)
  log_keeps none = ground (arith, same)

  evidence_keeps :
      (c : Option StepRecord)
      → let d = fold_cell s.id (scrub redact (evidence s.id t)) c in
        (is_in_flight d ≡ is_in_flight c) × (undone_of d ≡ undone_of c)
  unfolding fold_cell scrub fold_kind
  evidence_keeps (some r) = ground (arith, same)
  evidence_keeps none = ground (arith, same)

module _ (redact : Text → Text) (s : Step) (same : redact s.id ≡ s.id) where
  started_fields :
      (c : Option StepRecord)
      → let d = fold_cell s.id (scrub redact (step_started s.id s.kind s.target)) c in
        (is_in_flight d ≡ true) × (is_reopened d ≡ false)
  unfolding fold_cell scrub fold_kind
  started_fields c = ground (arith, same)

  reconciled_fields :
      (e : Effect) (c : Option StepRecord)
      → let d = fold_cell s.id (scrub redact (reconciled s.id e)) c in
        (is_in_flight d ≡ is_in_flight c) × (undone_of d ≡ undone_of c)
  unfolding fold_cell scrub fold_kind
  reconciled_fields e none = ground (arith, same)
  reconciled_fields e (some r) = ground (arith, same)

module _ {H : Type 0} (redact : Text → Text) (s : Step) (same : redact s.id ≡ s.id) where
  -- The deeds of a step whose record is `c` before them, and where they leave the record.
  pub record Settles (c : Option StepRecord) (x : Ran H Next) : Type 0 where
    pub only : All (IsAbout redact s.id) x.deeds
    pub covered : IsCovered redact s.id c x.deeds
    pub finishes :
        is_reopened c ≡ false
        → x.answer ≡ go_on
        → is_finished (cell_after redact s.id x.deeds c) ≡ true
    pub fails :
        (t : Reason) → x.answer ≡ halt t → is_failed (cell_after redact s.id x.deeds c) ≡ true

  -- The same after some more deeds about the step.
  Settles-after :
      (c : Option StepRecord) (ds : List (Deed H)) (x : Ran H Next)
      → All (IsAbout redact s.id) ds
      → IsCovered redact s.id c ds
      → (is_reopened c ≡ false → is_reopened (cell_after redact s.id ds c) ≡ false)
      → Settles (cell_after redact s.id ds c) x
      → Settles c (record { deeds = ds ++ x.deeds; answer = x.answer })
  Settles-after c ds x a k o p = record {
    only = All-append (IsAbout redact s.id) ds x.deeds a p.only;
    covered = IsCovered-append redact s.id c ds x.deeds k p.covered;
    finishes = λ q e. rw (cell_after-append redact s.id ds x.deeds c) (p.finishes (o q) e);
    fails = λ t e. rw (cell_after-append redact s.id ds x.deeds c) (p.fails t e);
  }

  -- What a handler writes leaves a started step started.
  pub handler_only : (ds : List (HandlerDeed H)) → All (IsAbout redact s.id) (map (as_deed s.id) ds)
  unfolding as_deed scrub
  handler_only [] = tt
  handler_only (change h ∷ ds) = (tt, handler_only ds)
  handler_only (log_line t ∷ ds) = (ap some same, handler_only ds)
  handler_only (record_evidence t ∷ ds) = (ap some same, handler_only ds)

  pub handler_keeps :
      (ds : List (HandlerDeed H)) (c : Option StepRecord)
      → let d = cell_after redact s.id (map (as_deed s.id) ds) c in
        (is_in_flight d ≡ is_in_flight c) × (undone_of d ≡ undone_of c)
  unfolding cell_after as_deed
  handler_keeps [] c = (refl, refl)
  handler_keeps (change x ∷ ds) c = handler_keeps ds c
  handler_keeps (log_line t ∷ ds) c =
      let first = log_keeps redact s same t c in
      let rest = handler_keeps ds (fold_cell s.id (scrub redact (log s.id t)) c) in
      (rest.0 ∙ first.0, rest.1 ∙ first.1)
  handler_keeps (record_evidence t ∷ ds) c =
      let first = evidence_keeps redact s same t c in
      let rest = handler_keeps ds (fold_cell s.id (scrub redact (evidence s.id t)) c) in
      (rest.0 ∙ first.0, rest.1 ∙ first.1)

  handler-IsCovered :
      (ds : List (HandlerDeed H)) (c : Option StepRecord)
      → is_in_flight c ≡ true
      → IsCovered redact s.id c (map (as_deed s.id) ds)
  unfolding as_deed
  handler-IsCovered [] c h = tt
  handler-IsCovered (change x ∷ ds) c h = (h, handler-IsCovered ds c h)
  handler-IsCovered (log_line t ∷ ds) c h =
      handler-IsCovered ds _ ((log_keeps redact s same t c).0 ∙ h)
  handler-IsCovered (record_evidence t ∷ ds) c h =
      handler-IsCovered ds _ ((evidence_keeps redact s same t c).0 ∙ h)

  -- What a handler does first, and what follows on a started step.
  pub Settles-consult :
      {A : Type 0} (op : Context H → Op H A) (c : Option StepRecord) (env : Env H) (w : World H)
      → (x : Ran H Next) → is_in_flight c ≡ true
      → ((d : Option StepRecord) → is_in_flight d ≡ true → Settles d x)
      → Settles c (record { deeds = (consult s op env w).deeds ++ x.deeds; answer = x.answer })
  unfolding consult
  Settles-consult op c env w x h k =
      let ds = (op (record { host = w.host; journal = w.journal; step = s })).deeds in
      let kept = handler_keeps ds c in
      Settles-after c (map (as_deed s.id) ds) x (handler_only ds) (handler-IsCovered ds c h)
        (λ q. reopened_of c _ kept.0 kept.1 ∙ q) (k _ (kept.0 ∙ h))

  -- `stop` marks the step as failed.
  pub Settles-stop :
      (r : Reason) (e : Effect) (env : Env H) (w : World H) (c : Option StepRecord)
      → Settles c (stop s r e env w)
  unfolding stop scrub cell_after fold_cell fold_kind
  Settles-stop r e env w c = record {
    only = (ap some same, (ap some same, tt));
    covered = tt;
    finishes = λ o q. cc;
    fails = λ t q. ground (arith, same);
  }

  -- `step_ok` marks it as finished, unless an undo has dealt with it since it was started.
  pub Settles-ok :
      (e : Effect) (b : Bool) (r : Option Reason) (k : Bool) (c : Option StepRecord)
      → is_in_flight c ≡ true
      → Settles c (record { deeds = write (step_ok s.id e b r k) ∷ []; answer = go_on })
  unfolding scrub cell_after fold_cell fold_kind
  Settles-ok e b r k none h = cc
  Settles-ok e b r k (some x) h = record {
    only = (ap some same, tt);
    covered = tt;
    finishes = λ o q. ground (arith, same);
    fails = λ t q. cc;
  }

  pub Settles-started :
      (c : Option StepRecord) (x : Ran H Next)
      → ((d : Option StepRecord) → is_in_flight d ≡ true → Settles d x)
      → Settles c (record {
        deeds = write (step_started s.id s.kind s.target) ∷ x.deeds;
        answer = x.answer;
      })
  unfolding cell_after scrub
  Settles-started c x k =
      let d = started_fields redact s same c in
      Settles-after c (write (step_started s.id s.kind s.target) ∷ []) x (ap some same, tt) tt
        (λ _. d.1) (k _ d.0)

  pub Settles-reconciled :
      (e : Effect) (c : Option StepRecord) (x : Ran H Next)
      → is_in_flight c ≡ true
      → ((d : Option StepRecord) → is_in_flight d ≡ true → Settles d x)
      → Settles c (record { deeds = write (reconciled s.id e) ∷ x.deeds; answer = x.answer })
  unfolding cell_after scrub
  Settles-reconciled e c x h k =
      let d = reconciled_fields redact s same e c in
      Settles-after c (write (reconciled s.id e) ∷ []) x (ap some same, tt) tt
        (λ q. reopened_of c _ d.0 d.1 ∙ q) (k _ (d.0 ∙ h))
