-- ===== src/Setup/Tests.antt =====
-- A plan of two steps that write one number each to a host of two numbers: its runs, and the theorems
-- about apply and undo at it.
use planet_express.Setup.Durable.{append_all, blank, new_events, journal_reopens}
use planet_express.Setup.Apply.Guards.{reported, dry_run_reports, apply_guards, HasPureCheck}
use planet_express.Setup.Undo.Dealt.{is_complete}
use planet_express.Setup.Undo.{undo_plan, wants_undo, new_result}
use planet_express.Setup.Apply.Finish.{is_done, WasLeftAlone}
use planet_express.Setup.Apply.First.{in_flight, run_journals_first}
use planet_express.Setup.Apply.Works.{Works, IsHandled, run_resumes, is_clear, is_known}
use planet_express.Setup.Journal.{last_seq, new_event, events, read, open_journal, garbage}
use planet_express.Setup.Apply.Stops.{StopsAt, run_stops, stops_at}
use planet_express.Store.Rows.{Text}
use planet_express.Setup.Apply.Outcomes.{world_after, run_again}
use planet_express.Prelude.{
  ℕ, ◌+◌, ◌<◌, ◌≡◌, refl, subst, ◌≢◌, Bool, true, false, Option, none, some, List, [], ◌∷◌, ◌++◌,
  arith, ◌==◌, if◌then◌else◌, All,
}
use planet_express.Setup.Events.{
  steps, Body, apply_started, applied, not_applied, scrub, fold_event, step_ok, step_started,
  evidence,
}
use planet_express.Setup.Runs.{
  Step, Handler, Op, World, Env, Checked, refuse, value, proceed, perform_all, write, r1,
  record_evidence, perform, written, change, Deed,
}
use planet_express.Setup.Apply.{
  Ending, result, apply, Plan, run, is_empty, taken, missing_kinds, Locking, run_locked,
}
use planet_express.Setup.Apply.Outcomes.{world_after, run_again}
use mathlib.Core.Option.{some-injective}
use planet_express.Setup.Apply.Guards.{IsPureAt}
use planet_express.Setup.Undo
use planet_express.Setup.Undo.Again.{undo_again}

abbrev Host : Type 0
Host = ℕ × ℕ

abbrev answer : {A : Type 0} → A → Op Host A
answer a = record { deeds = []; answer = value a }

-- Writes 7 into one of the two places, and 0 back.
abbrev place : (Host → ℕ) → (ℕ → Host → Host) → Handler Host
place at to = record {
  check = λ c. answer (if at c.host == 7 then Checked.satisfied 1 else proceed);
  act = λ c. record {
    deeds = record_evidence (at c.host) ∷ change (to 7 c.host) ∷ [];
    answer = value tt;
  };
  verify = λ c. answer applied;
  reconcile = λ c. answer (if at c.host == 7 then applied else not_applied);
  inverse = some (λ c. record { deeds = change (to 0 c.host) ∷ []; answer = value 2 });
}

abbrev left : Handler Host
left = place (λ h. h.0) (λ n h. (n, h.1))

abbrev right : Handler Host
right = place (λ h. h.1) (λ n h. (h.0, n))

-- A handler that refuses.
abbrev stubborn : Handler Host
stubborn = record left { check = λ c. answer (refuse 9) }

abbrev handlers : Text → Option (Handler Host)
handlers k =
    if k == 1
    then some left
    else if k == 2
    then some right
    else if k == 3
    then some stubborn
    else none

abbrev env : Env Host
env = record { redact = λ t. t; clock = λ n. 100 + n; handlers = handlers }

abbrev step_of_kind : Text → Text → Step
step_of_kind i k = record { id = i; kind = k; target = 0; risk = r1 }

abbrev plan_of : List Step → Plan
plan_of ss = record { plan_id = 50; applicable = true; blocked = []; steps = ss }

abbrev good : Plan
good = plan_of (step_of_kind 11 1 ∷ step_of_kind 12 2 ∷ [])

abbrev bad : Plan
bad = plan_of (step_of_kind 11 1 ∷ step_of_kind 13 3 ∷ step_of_kind 12 2 ∷ [])

abbrev fresh : World Host
fresh = record { host = (0, 0); journal = [] }

run-good : (world_after env fresh (run good env fresh)).host ≡ (7, 7)
unfolding run perform_all perform written last_seq new_event scrub steps fold_event
run-good = refl

-- The first step is done and the second never begins.
run-bad : (world_after env fresh (run bad env fresh)).host ≡ (7, 0)
unfolding run perform_all perform written last_seq new_event scrub steps fold_event
run-bad = refl

alone_good : All (WasLeftAlone env fresh) good.steps
unfolding steps
alone_good = (refl, (refl, tt))

alone_bad : All (WasLeftAlone env fresh) bad.steps
unfolding steps
alone_bad = (refl, (refl, (refl, tt)))

ends_good : is_done (run good env fresh).answer ≡ true
unfolding run perform_all perform written last_seq new_event scrub steps fold_event
ends_good = refl

stops_bad : stops_at (run bad env fresh).answer ≡ some 13
unfolding run perform_all perform written last_seq new_event scrub steps fold_event
stops_bad = refl

run_again_example : run good env (world_after env fresh (run good env fresh)) ≡ record {
  deeds = write (apply_started 2) ∷ write Body.done ∷ [];
  answer = result Ending.done good none none [];
}
run_again_example = run_again env good fresh (refl, (refl, tt)) alone_good ends_good

run_stops_example :
    StopsAt (steps []) (steps (world_after env fresh (run bad env fresh)).journal) bad.steps 13
run_stops_example =
    run_stops env bad fresh 13 (refl, (refl, (refl, tt))) alone_bad (omega arith) stops_bad

-- The deeds of the good run up to the first that changes the host, and those behind it.
abbrev before_first : List (Deed Host)
before_first = write (apply_started 2) ∷ write (step_started 11 1 0) ∷ write (evidence 11 0) ∷ []

abbrev behind_first : List (Deed Host)
behind_first =
    write (step_ok 11 applied false none false)
    ∷ write (step_started 12 2 0)
    ∷ write (evidence 12 0)
    ∷ change (7, 7)
    ∷ write (step_ok 12 applied false none false)
    ∷ write Body.done
    ∷ []

deeds_good : (run good env fresh).deeds ≡ before_first ++ (change (7, 0) ∷ behind_first)
unfolding run perform_all perform written last_seq new_event scrub steps fold_event
deeds_good = refl

run_journals_first_example :
    0 < in_flight good (perform_all env.redact env.clock before_first fresh).journal
run_journals_first_example =
    run_journals_first env good fresh before_first (7, 0) behind_first (refl, (refl, tt)) deeds_good

works : (at : Host → ℕ) (to : ℕ → Host → Host) → Works (place at to)
works at to = record {
  checks = λ c. checked (at c.host == 7);
  acts = λ c. refl;
  verifies = λ c. refl;
  tells = λ c. told (at c.host == 7);
}
  where
    checked : (b : Bool) → is_clear (value (if b then Checked.satisfied 1 else proceed)) ≡ true
    checked true = refl
    checked false = refl

    told : (b : Bool) → is_known (value (if b then applied else not_applied)) ≡ true
    told true = refl
    told false = refl

IsHandled-good : All (IsHandled env) good.steps
IsHandled-good = (
  (left, refl, works (λ h. h.0) (λ n h. (n, h.1))),
  ((right, refl, works (λ h. h.1) (λ n h. (h.0, n))), tt),
)

-- The run that died after the first change of the host is resumed.
abbrev died : World Host
died = perform_all env.redact env.clock (before_first ++ (change (7, 0) ∷ [])) fresh

run_resumes_example : is_done (run good env died).answer ≡ true
run_resumes_example = run_resumes env good died IsHandled-good

resumed_good : (world_after env died (run good env died)).host ≡ (7, 7)
unfolding run perform_all perform written last_seq new_event scrub steps fold_event
resumed_good = refl

pure_checks : All (HasPureCheck env) good.steps
pure_checks = (
  λ h e c. subst (IsPureAt c) (some-injective left h e) (refl, refl),
  (λ h e c. subst (IsPureAt c) (some-injective right h e) (refl, refl), tt),
)

some_deeds : (apply good false 50 taken env fresh).deeds ≢ []
unfolding apply run_locked run
some_deeds e = cc

reports_both :
    ((apply good true 50 taken env fresh).deeds ≡ [])
    × (reported (apply good true 50 taken env fresh).answer ≡ some (11 ∷ 12 ∷ []))
reports_both = dry_run_reports env good taken fresh refl pure_checks

apply_guards_example :
    (good.applicable ≡ true)
    × (is_empty (missing_kinds env.handlers good.steps) ≡ true)
    × (◌≡◌ {A = ℕ} 50 good.plan_id)
    × (◌≡◌ {A = Locking} taken taken)
apply_guards_example = apply_guards env good 50 taken fresh some_deeds

undone_good : is_complete (undo_plan good env died).answer ≡ true
unfolding undo_plan perform_all perform written last_seq new_event scrub steps fold_event
undone_good = refl

undo_again_example : undo_plan good env (world_after env died (undo_plan good env died)) ≡ record {
  deeds = write Body.undo_started ∷ write Body.undo_done ∷ [];
  answer = Undo.returned (new_result Undo.Ending.done good none);
}
undo_again_example = undo_again env good died (refl, (refl, tt)) undone_good

journal_reopens_example :
    let j = append_all (λ t. t) (λ n. n) (apply_started 2 ∷ Body.done ∷ []) blank in
    (events 0 j.file ≡ read (new_events (λ t. t) (λ n. n) 0 (apply_started 2 ∷ Body.done ∷ [])))
    × (open_journal (record j.file { torn = some garbage }) j.plan ≡ some j)
journal_reopens_example =
    journal_reopens (λ t. t) (λ n. n) (apply_started 2 ∷ Body.done ∷ []) (some garbage)
