-- ===== src/Policy/Tests.antt =====
-- Runs of the decisions of planet_express/execution/policy.py, and witnesses.
use planet_express.Prelude.{
  ◌+◌, ◌-◌, ◌≡◌, refl, Bool, true, false, ◌&&◌, none, some, [], ◌∷◌, arith, is_none,
}
use planet_express.Store.Rows.{Text, Db, empty_db, Approval, ApprovalStatus}
use planet_express.Store.Attempts.Recent.{recent_pair_attempts}
use planet_express.Store.Executions.{new_execution}
use planet_express.Store.Attempts.{check_pair, new_attempt}
use planet_express.Policy.Catalogue.{
  r1, r3, r4, risk, has_risk, Step, steps_of, Runbook, service_restart, prune_safe, wait,
  compose_write, StepKind,
}
use planet_express.Policy.Autonomy.{
  AutonomyConfig, validates, dashboard_direct, telegram_direct, system, chat, is_runbook_origin,
  requires_elevation,
}
use planet_express.Policy.Decide.{decide_runbook, all_known, limit_refusal, limit_lookback_seconds}
use planet_express.Policy.Unattended.{unattended_is_warranted, IsBound, Warrant}
use planet_express.Policy.Limits.{limits_agree, history, limits_at, legacy_attempts, in_day}

abbrev usual : AutonomyConfig
usual = record {
  direct_request_risks = r1 ∷ [];
  dashboard_override = none;
  telegram_override = none;
  forbidden_risks = r4 ∷ [];
  cooldown_seconds = 600;
  max_attempts_per_day = 2;
}

usual-validates : validates usual ≡ true
unfolding validates
usual-validates = refl

abbrev step : StepKind → Step
step k = record { kind = k; stack = 5; service = 6; unit = 0; bound_stacks = [] }

abbrev restart_and_wait : Runbook
restart_and_wait = record { first = step wait; others = step service_restart ∷ [] }

abbrev write_file : Runbook
write_file = record { first = step compose_write; others = [] }

abbrev nothing_guarded : Text → Text → Bool
nothing_guarded stack service = false

chat_asks : (decide_runbook nothing_guarded restart_and_wait chat usual).needs_approval ≡ true
unfolding decide_runbook
chat_asks = refl

telegram_may_not_write :
    (decide_runbook nothing_guarded write_file telegram_direct usual).allowed ≡ false
unfolding decide_runbook
telegram_may_not_write = refl

dashboard_proves_again : requires_elevation r3 dashboard_direct ≡ true
unfolding requires_elevation
dashboard_proves_again = refl

prune_runs :
    (decide_runbook nothing_guarded
      (record { first = step prune_safe; others = [] })
      system
      usual).automatic
    ≡ true
unfolding decide_runbook
prune_runs = refl

unattended_is_warranted_example :
    (is_runbook_origin telegram_direct ≡ true)
    × (all_known (steps_of restart_and_wait) ≡ true)
    × (has_risk (risk restart_and_wait) usual.forbidden_risks ≡ false)
    × IsBound (risk restart_and_wait) (steps_of restart_and_wait)
    × Warrant nothing_guarded restart_and_wait telegram_direct usual
unfolding decide_runbook
unattended_is_warranted_example =
    unattended_is_warranted nothing_guarded restart_and_wait telegram_direct usual refl refl

-- On the target 7: a step of the type 3 some time ago, and a restart from before the attempts.
abbrev restart_card : Approval
restart_card = record {
  id = 41;
  action = 9;
  target_key = 7;
  target_json = 0;
  risk = 1;
  status = ApprovalStatus.approved;
  requested_via = 0;
  requested_by = none;
  created_at = 100400;
  expires_at = 100500;
  decided_by = some 5;
  decided_at = some 100500;
  message_id = none;
  plan_json = none;
  plan_sha256 = none;
  origin = none;
}

abbrev tried : Db
tried = record empty_db {
  approvals = restart_card ∷ [];
  executions = new_execution 100500 50 41 ∷ [];
  attempts = new_attempt 1 100000 (1, 3, 7) ∷ [];
}

limits_agree_example :
    is_none (limit_refusal (history 3 9 usual 101000 (3, 7) tried) 101000 1 usual) ≡ (
      is_none (check_pair (limits_at usual 101000) ((3, 7), 1, 1) tried)
      && is_none (
          limit_refusal
            (legacy_attempts 3 9 (3, 7) (101000 - limit_lookback_seconds usual) tried)
            101000
            (1
              + in_day 101000
                  (recent_pair_attempts (3, 7) (101000 - limit_lookback_seconds usual) tried))
            usual))
unfolding limit_lookback_seconds
limits_agree_example = limits_agree 3 9 usual 101000 (3, 7) 1 1 tried (omega arith)

-- The store does not see the restart; the check before a run does.
store_lets_go : is_none (check_pair (limits_at usual 101000) ((3, 7), 1, 1) tried) ≡ true
unfolding check_pair
store_lets_go = refl

cools_down : is_none (limit_refusal (history 3 9 usual 101000 (3, 7) tried) 101000 1 usual) ≡ false
unfolding limit_refusal history
cools_down = refl

-- The restart is not of another type, and the cooldown passes.
other_type : is_none (limit_refusal (history 4 9 usual 101000 (3, 7) tried) 101000 1 usual) ≡ true
unfolding limit_refusal history
other_type = refl

cools_no_more :
    is_none (limit_refusal (history 3 9 usual 190000 (3, 7) tried) 190000 1 usual) ≡ true
unfolding limit_refusal history
cools_no_more = refl
