-- ===== src/Store/Tests.antt =====
-- The theorems of `Store` at concrete inputs, and runs of its operations.
mod Auth
mod Chat
mod Incidents
use planet_express.Prelude.{
  ℕ, zero, suc, ◌+◌, ◌-◌, ◌*◌, ◌/◌, ◌%◌, ◌≤◌, ◌<◌, ◌≡◌, refl, sym, ap, ◌∙◌, subst, ◌≢◌, ◌↔◌, ◌⊎◌,
  inl, inr, Bool, true, false, not, ◌&&◌, ◌||◌, Option, none, some, List, [], ◌∷◌, ◌++◌, map, arith,
  ltb, leb, ◌==◌, if◌then◌else◌, is_none, is_some, opt_eq, coalesce, Bool-cases, Option-cases,
  eq-of-==, ==_refl, length, select, find_row, count_where, touch, update_where, All, length-append,
  count_where-append, All-append, All-intro, All-map, All-touch, All-update_where, All-find_row,
  find_row-update_where, find_row-append, find_row_fits, count_where_zero, find_row_none,
  count_where-update_where-le, update_where_none, Evolves, Evolves-refl, Evolves-append,
  Evolves-update_where, Evolves-trans, Evolves-find_row, All-Evolves, find_row-update_where_kept,
  found_of_count, count_of_found, find_row_weaken, count_where_none, DistinctOn,
  DistinctOn-update_where, DistinctOn-append, DistinctOn-found, DistinctOn-count,
  DistinctOn-count_found,
}
use planet_express.Store.Rows.{
  Approval, ApprovalStatus, Db, empty_db, Text, Time, ExecutionStep, StepStatus, Effect,
  RollbackCandidate, EventDetail,
}
use planet_express.Store.Tx.{write, ok, err, Error}
use planet_express.Store.Approvals.{Proposal, has_id, pending_for, new_approval, decide}
use planet_express.Store.Approvals.Settled.{Advances, IsCoherent}
use planet_express.Store.Executions.{new_execution}
use planet_express.Store.Decisions.{consume, approve_and_create_execution}
use planet_express.Store.Decisions.Once.{approve_exactly, approved_db}
use planet_express.Store.History.{Call, run, step, proposes, approves, consumes}
use planet_express.Store.History.Approvals.{IsKeyed, run-decided, run-IsKeyed, run-IsCoherent}
use planet_express.Store.History.Once.{IsSpent, approved_once, consumed_once}
use planet_express.Store.Steps.{is_step, new_step}
use planet_express.Store.Steps.Machine.{Moves, IsOrderly, step_key}
use planet_express.Store.Steps.History.{
  StepCall, dispatches, finishes, step_calls, step_calls-Moves, step_calls-IsOrderly,
}
use planet_express.Store.Attempts.{
  Limits, Request, AttemptRefusal, numbered, new_attempt, reserve_runbook_attempts,
  reconcile_reserved_attempts,
}
use planet_express.Store.Attempts.{Pairs, unnumbered}
use planet_express.Store.Attempts.Caps.{
  LeftBy, in_window, reserve_all_or_nothing, reserve_within_cap,
}
use planet_express.Store.Attempts.Ledger.{settled, reconcile_settles}
use planet_express.Store.Candidates.{
  is_window, is_held, close, new_window, indefinite_expiry, settle_rollback_candidate,
}
use planet_express.Store.Candidates.Windows.{WindowCall, holds, closes, settles, settle_exactly}

-- Restart (7) of the target 8, proposed by the operator 5, alive for an hour.
abbrev restart : Proposal
restart = record {
  action = 7;
  target_key = 8;
  target = 9;
  risk = 2;
  requested_via = 3;
  requested_by = some 5;
  ttl = 3600;
  incident_id = none;
  incident_scan_id = none;
  plan_json = some 70;
  plan_sha256 = some 71;
  origin = some 4;
}

abbrev card : Approval
card = new_approval 100 41 restart

abbrev denied_card : Approval
denied_card = decide ApprovalStatus.denied 5 110 card

abbrev with_card : Db
with_card = record empty_db { approvals = card ∷ [] }

abbrev with_denied : Db
with_denied = record empty_db { approvals = denied_card ∷ [] }

one_denied :
    (action target_key : Text) → count_where (pending_for action target_key) (denied_card ∷ []) ≤ 1
one_denied action target_key = ground arith

denied-IsKeyed : IsKeyed with_denied
denied-IsKeyed = record { distinct = (tt, tt); one_pending = one_denied }

one_card : (action target_key : Text) → count_where (pending_for action target_key) (card ∷ []) ≤ 1
one_card action target_key = ground arith

card-IsKeyed : IsKeyed with_card
card-IsKeyed = record { distinct = (tt, tt); one_pending = one_card }

-- A second tap, a denial and a new proposal of the same action.
abbrev afterwards : List (Time × Call)
afterwards =
    (120, approves 51 41 6 119)
    ∷ (130, consumes 41 ApprovalStatus.denied 6 129)
    ∷ (140, proposes 42 restart)
    ∷ []

approved_once_example : IsSpent 41 (run (step with_card (110, approves 50 41 5 109)) afterwards)
unfolding write approve_and_create_execution
approved_once_example =
    approved_once with_card 110 50 41 5 109 (new_execution 110 50 41) afterwards card-IsKeyed refl

consumed_once_example :
    IsSpent 41 (run (step with_card (110, consumes 41 ApprovalStatus.denied 5 109)) afterwards)
unfolding write consume
consumed_once_example =
    consumed_once with_card 110 41 ApprovalStatus.denied 5 109 afterwards card-IsKeyed refl

run-decided_example :
    (b : Approval) × (find_row (has_id 41) (run with_denied afterwards).approvals ≡ some b)
    × Advances denied_card b
run-decided_example = run-decided with_denied afterwards 41 denied_card denied-IsKeyed refl

run-IsKeyed_example : IsKeyed (run with_card ((110, approves 50 41 5 109) ∷ afterwards))
run-IsKeyed_example = run-IsKeyed with_card ((110, approves 50 41 5 109) ∷ afterwards) card-IsKeyed

run-IsCoherent_example : All IsCoherent (run with_denied afterwards).approvals
run-IsCoherent_example =
    run-IsCoherent with_denied afterwards denied-IsKeyed (record { by = refl; at = refl }, tt)

approve_exactly_example :
    write (approve_and_create_execution 110 50 41 5 109) with_card
    ≡ (ok (some (new_execution 110 50 41)), approved_db 110 50 41 5 109 with_card)
approve_exactly_example = approve_exactly 110 50 41 5 109 with_card card (tt, tt) refl refl

-- The execution 50 of the card, with two steps.
abbrev with_steps : Db
with_steps = record with_card {
  executions = new_execution 110 50 41 ∷ [];
  execution_steps =
      new_step 50 1 (record { type = 60; params = 0; binding = 0 })
      ∷ new_step 50 2 (record { type = 61; params = 0; binding = 0 })
      ∷ [];
}

steps_distinct : DistinctOn step_key with_steps.execution_steps
steps_distinct = ((λ e. omega (arith, ap (λ (k : Text × ℕ). k.1) e), tt), (tt, tt))

abbrev step_events : List (Time × Text × StepCall)
step_events =
    (120, 50, dispatches 1)
    ∷ (121, 50, dispatches 1)
    ∷ (130, 50, finishes 1 StepStatus.passed (some Effect.applied) none none)
    ∷ (140, 50, finishes 2 StepStatus.skipped none none none)
    ∷ []

step_calls-Moves_example :
    (b : ExecutionStep) × (find_row
        (is_step 50 1)
        (step_calls with_steps step_events).execution_steps
      ≡ some b)
    × Moves (new_step 50 1 (record { type = 60; params = 0; binding = 0 })) b
step_calls-Moves_example =
    step_calls-Moves with_steps step_events 50 1
      (new_step 50 1 (record { type = 60; params = 0; binding = 0 })) steps_distinct refl

pending_steps : All IsOrderly with_steps.execution_steps
pending_steps = (ground arith, (ground arith, tt))

step_calls-IsOrderly_example : All IsOrderly (step_calls with_steps step_events).execution_steps
step_calls-IsOrderly_example =
    step_calls-IsOrderly with_steps step_events steps_distinct pending_steps

-- At most two attempts in a day, and none within a minute of the last.
abbrev two_a_day : Limits
two_a_day = record { window_start = 1000; cooldown_start = 87340; max_per_day = 2; now = 87400 }

abbrev both : List Request
both = (1, 60, 8) ∷ (2, 61, 8) ∷ []

-- The same pairs without the numbers of their steps.
abbrev unnumbered_both : Pairs
unnumbered_both = unnumbered ((60, 8) ∷ (61, 8) ∷ [])

reserve_all_or_nothing_example :
    LeftBy 50 unnumbered_both two_a_day with_steps
      (write (reserve_runbook_attempts 50 unnumbered_both two_a_day) with_steps).0
      (write (reserve_runbook_attempts 50 unnumbered_both two_a_day) with_steps).1
reserve_all_or_nothing_example = reserve_all_or_nothing 50 unnumbered_both two_a_day with_steps

-- Both ways reserve the same attempts.
reserves_alike :
    write (reserve_runbook_attempts 50 unnumbered_both two_a_day) with_steps
    ≡ write (reserve_runbook_attempts 50 (numbered both) two_a_day) with_steps
unfolding write reserve_runbook_attempts
reserves_alike = refl

reserve_within_cap_example :
    count_where
      (in_window two_a_day (60, 8))
      (write (reserve_runbook_attempts 50 unnumbered_both two_a_day) with_steps).1.attempts
    ≤ 2
unfolding write reserve_runbook_attempts
reserve_within_cap_example =
    reserve_within_cap 50 unnumbered_both two_a_day with_steps 60 8 (omega arith) refl (omega arith)

-- Attempts of a step that was dispatched and of one that was not.
abbrev with_attempts : Db
with_attempts = record with_steps {
  attempts = new_attempt 50 115 (1, 60, 8) ∷ new_attempt 50 115 (2, 61, 8) ∷ [];
}

reconcile_settles_example :
    (write (reconcile_reserved_attempts 200) with_attempts).1
    ≡ record with_attempts { attempts = map (settled 200 with_attempts) with_attempts.attempts }
reconcile_settles_example = reconcile_settles 200 with_attempts

abbrev held_window : RollbackCandidate
held_window = new_window 120 50 1 80 81 82 83 indefinite_expiry

abbrev with_window : Db
with_window = record with_steps { rollback_candidates = held_window ∷ [] }

abbrev other_windows : List (Time × WindowCall 50 1)
other_windows = (130, holds 50 1) ∷ (140, closes 50 2 refl) ∷ (150, settles 51 1 refl 5) ∷ []

settles_the_held : write (settle_rollback_candidate 170 50 1 5) with_window ≡ (
  ok true,
  record with_window {
    rollback_candidates =
        update_where (λ c. is_window 50 1 c && is_held c) (close 170) (held_window ∷ []);
    events =
        record {
          ts = 170;
          detail = EventDetail.canary_window_settled 1 5;
          approval_id = none;
          execution_id = some 50;
        }
        ∷ [];
  },
)
settles_the_held = settle_exactly 170 50 1 5 with_window held_window (tt, tt) refl
