-- ===== src/Setup/Apply/Guards.antt =====
-- What `apply` asks before it does anything, and that a dry run does nothing.
use mathlib.Core.List.{append-nil, append_assoc}
use mathlib.Core.List.{append-nil, append_assoc}
use mathlib.Core.List.{append-nil, append_assoc}
use planet_express.Store.Rows.{Text}
use planet_express.Prelude.{
  ◌≡◌, refl, sym, ap, ◌∙◌, subst, ◌≢◌, inl, inr, Bool, true, false, Option, none, some, List, [],
  ◌∷◌, ◌++◌, map, ◌==◌, Bool-cases, Option-cases, eq-of-==, ==_refl, All,
}
use planet_express.Setup.Runs.{
  Step, Answer, Env, Handler, Ran, Checked, Context, value, perform_all, World, Run, refuse,
  step_failure, host_error, irreversible, other_error, proceed, pure,
}
use planet_express.Setup.Runs.{◌>>=◌}
use planet_express.Setup.Apply.{
  Ending, Outcome, apply, Text, Finding, dry_step, returned, check_only, raised, unjournaled,
  after_dry_check, dry_steps, finding, Plan, Label, would_run, refused_now, not_implemented,
  Locking, run_locked, missing_kinds, taken, is_empty, not_trusted, held,
}
use planet_express.Setup.Undo.{ids}

abbrev is_checked : Answer Checked → Bool
is_checked (value c) = true
is_checked other = false

-- The steps that the checks are of.
abbrev found_ids : List Finding → List Text
found_ids = map (λ f. f.step)

found_ids-append :
    (fs : List Finding) (f : Finding) → found_ids (fs ++ (f ∷ [])) ≡ found_ids fs ++ (f.step ∷ [])
found_ids-append [] f = refl
found_ids-append (g ∷ fs) f = ap (λ l. g.step ∷ l) (found_ids-append fs f)

entries :
    (fs : List Finding) (f : Finding) (s : Step) (rest : List Step)
    → f.step ≡ s.id
    → found_ids (fs ++ (f ∷ [])) ++ ids rest ≡ found_ids fs ++ ids (s ∷ rest)
entries fs f s rest e =
    rw (found_ids-append fs f, e) (append_assoc (found_ids fs) (s.id ∷ []) (ids rest))

-- The steps of which a dry run reports, where it does.
abbrev pub reported : Outcome → Option (List Text)
reported raised = none
reported (returned r) = elim r.status [
  | Ending.done ↦ none
  | Ending.stopped ↦ none
  | Ending.refused ↦ none
  | Ending.dry_run ↦ some (found_ids r.checks)
]

abbrev pub IsPureAt : {H : Type 0} → Context H → Handler H → Type 0
IsPureAt c h = ((h.check c).deeds ≡ []) × (is_checked (h.check c).answer ≡ true)

module _ {H : Type 0} (env : Env H) where
  -- A check that the handler answers without touching the host or the journal, as its contract says.
  abbrev pub HasPureCheck : Step → Type 0
  HasPureCheck s = (h : Handler H) → env.handlers s.kind ≡ some h → (c : Context H) → IsPureAt c h

  abbrev context : Step → World H → Context H
  context s w = record { host = w.host; journal = []; step = s }

  quiet_check :
      (s : Step) (h : Handler H) (w : World H)
      → (h.check (context s w)).deeds ≡ []
      → check_only s h env w ≡ record { deeds = []; answer = (h.check (context s w)).answer }
  unfolding check_only unjournaled
  quiet_check s h w q = rw q

  -- A step's entry, and nothing done for it.
  record Reports (s : Step) (x : Ran H (Option Finding)) : Type 0 where
    quiet : x.deeds ≡ []
    entry : Finding
    found : x.answer ≡ some entry
    names : entry.step ≡ s.id

  checked_entry :
      (s : Step) (a : Answer Checked)
      → is_checked a ≡ true
      → Reports s (record { deeds = []; answer = after_dry_check s a })
  unfolding after_dry_check
  checked_entry s (value (Checked.satisfied t)) h = record {
    quiet = refl;
    entry = finding s Label.satisfied (some t);
    found = refl;
    names = refl;
  }
  checked_entry s (value proceed) h = record {
    quiet = refl;
    entry = finding s would_run none;
    found = refl;
    names = refl;
  }
  checked_entry s (value (refuse t)) h = record {
    quiet = refl;
    entry = finding s refused_now (some t);
    found = refl;
    names = refl;
  }
  checked_entry s (step_failure t e) h = cc
  checked_entry s (host_error t) h = cc
  checked_entry s (irreversible t) h = cc
  checked_entry s (other_error t) h = cc

  abbrev handled : Step → Handler H → Run H (Option Finding)
  handled s h = check_only s h >>= λ checked. pure (after_dry_check s checked)

  dry_handled :
      (s : Step) (h : Handler H) (w : World H)
      → env.handlers s.kind ≡ some h
      → dry_step s env w ≡ handled s h env w
  unfolding dry_step perform_all
  dry_handled s h w e = rw e

  unhandled : (s : Step) (w : World H) → env.handlers s.kind ≡ none → Reports s (dry_step s env w)
  unfolding dry_step perform_all
  unhandled s w n =
      rw n (record {
        quiet = refl;
        entry = finding s not_implemented none;
        found = refl;
        names = refl;
      })

  Reports-dry_step : (s : Step) (w : World H) → HasPureCheck s → Reports s (dry_step s env w)
  Reports-dry_step s w k = elim (Option-cases (env.handlers s.kind)) [
    | inl n ↦ unhandled s w n
    | inr (h, e) ↦
        let q = k h e (context s w) in
        subst (Reports s) (sym (dry_handled s h w e)) (
          subst
            (λ (x : Ran H (Answer Checked)).
              Reports s (record { deeds = x.deeds ++ []; answer = after_dry_check s x.answer }))
            (sym (quiet_check s h w q.0)) (checked_entry s (h.check (context s w)).answer q.1))
  ]

  -- The loop behind a step, from what the step came to.
  abbrev dry_rest :
      Plan → List Step → List Finding → World H → Ran H (Option Finding) → Ran H Outcome
  dry_rest p rest fs w x =
      let k : Run H Outcome = elim x.answer [
        | none ↦ pure raised
        | some f ↦ dry_steps p rest (fs ++ (f ∷ []))
      ] in
      let y = k env (perform_all env.redact env.clock x.deeds w) in
      record { deeds = x.deeds ++ y.deeds; answer = y.answer }

  dry_steps_next :
      (p : Plan) (s : Step) (rest : List Step) (fs : List Finding) (w : World H)
      → (r : Reports s (dry_step s env w))
      → dry_steps p (s ∷ rest) fs env w ≡ dry_steps p rest (fs ++ (r.entry ∷ [])) env w
  unfolding dry_steps perform_all
  dry_steps_next p s rest fs w r =
      ap (dry_rest p rest fs w) (λ i. record { deeds = r.quiet i; answer = r.found i })

  dry_steps_report :
      (p : Plan) (ss : List Step) (fs : List Finding) (w : World H)
      → All HasPureCheck ss
      → ((dry_steps p ss fs env w).deeds ≡ [])
        × (reported (dry_steps p ss fs env w).answer ≡ some (found_ids fs ++ ids ss))
  unfolding dry_steps perform_all
  dry_steps_report p [] fs w k = (refl, rw append-nil)
  dry_steps_report p (s ∷ rest) fs w k =
      let r = Reports-dry_step s w k.0 in
      let q = dry_steps_report p rest (fs ++ (r.entry ∷ [])) w k.1 in
      (
        subst (λ x. x.deeds ≡ []) (sym (dry_steps_next p s rest fs w r)) q.0,
        subst (λ x. reported x.answer ≡ some (found_ids fs ++ ids (s ∷ rest)))
            (sym (dry_steps_next p s rest fs w r))
            (q.1 ∙ ap some (entries fs r.entry s rest r.names)),
      )

  apply_dry :
      (p : Plan) (lock : Locking) (w : World H)
      → p.applicable ≡ true
      → apply p true p.plan_id lock env w ≡ dry_steps p p.steps [] env w
  unfolding apply perform_all
  apply_dry p lock w a = elim (Bool-cases (is_empty (missing_kinds env.handlers p.steps))) [
    | inl e ↦ rw (a, e) (rw (==_refl p.plan_id))
    | inr e ↦ rw (a, e) (rw (==_refl p.plan_id))
  ]

  -- A dry run changes nothing and journals nothing, and reports of every step in the plan's order.
  pub dry_run_reports :
      (p : Plan) (lock : Locking) (w : World H)
      → p.applicable ≡ true
      → All HasPureCheck p.steps
      → ((apply p true p.plan_id lock env w).deeds ≡ [])
        × (reported (apply p true p.plan_id lock env w).answer ≡ some (ids p.steps))
  dry_run_reports p lock w a k =
      subst (λ x. (x.deeds ≡ []) × (reported x.answer ≡ some (ids p.steps)))
        (sym (apply_dry p lock w a)) (dry_steps_report p p.steps [] w k)

  locked_guards :
      (p : Plan) (fresh : Text) (lock : Locking) (w : World H)
      → (run_locked p fresh lock env w).deeds ≢ []
      → (fresh ≡ p.plan_id) × (lock ≡ taken)
  unfolding run_locked
  locked_guards p fresh taken w h = elim (Bool-cases (fresh == p.plan_id)) [
    | inl e ↦ (eq-of-== fresh p.plan_id e, refl)
    | inr e ↦ absurd (h (rw e))
  ]
  locked_guards p fresh held w h = absurd (h refl)
  locked_guards p fresh (not_trusted t) w h = absurd (h refl)

  -- `apply` does something only for a plan that can be applied, whose kinds the build all handles, and
  -- that fresh discovery has rebuilt under the lock.
  pub apply_guards :
      (p : Plan) (fresh : Text) (lock : Locking) (w : World H)
      → (apply p false fresh lock env w).deeds ≢ []
      → (p.applicable ≡ true)
        × (is_empty (missing_kinds env.handlers p.steps) ≡ true)
        × (fresh ≡ p.plan_id)
        × (lock ≡ taken)
  unfolding apply perform_all
  apply_guards p fresh lock w h = elim (Bool-cases p.applicable) [
    | inr a ↦ absurd (h (rw a))
    | inl a ↦ elim (Bool-cases (is_empty (missing_kinds env.handlers p.steps))) [
      | inr m ↦ absurd (h (rw (a, m)))
      | inl m ↦ let q = locked_guards p fresh lock w (λ e. h (rw (a, m) e)) in (a, m, q.0, q.1)
    ]
  ]
