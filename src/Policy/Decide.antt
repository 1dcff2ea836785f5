-- ===== src/Policy/Decide.antt =====
-- `decide_runbook`, `limit_lookback_seconds` and `limit_refusal` of planet_express/execution/policy.py.
use planet_express.Store.Rows.{Time, Text}
use planet_express.Prelude.{
  ℕ, ◌+◌, Bool, true, false, not, ◌&&◌, ◌||◌, Option, none, some, List, [], ◌∷◌, ltb, leb,
  if◌then◌else◌, is_some, count_where,
}
use planet_express.Policy.Catalogue.{
  Risk, r0, Runbook, Step, risk, type_of, StepKind, prune_safe, mutating_pairs, update_canary,
  TargetKey, steps_of, risk_eq, has_risk,
}
use planet_express.Policy.Autonomy.{
  Origin, AutonomyConfig, allows_direct_request, is_direct, system, is_runbook_origin, zoidberg,
}

pub data Reason : Type 0 where
  unknown_origin unknown_step never_allowed not_direct direct_request : Reason
  guarded automatic_exception runs_automatically wants_approval : Reason

pub record RunbookDecision : Type 0 where
  pub allowed : Bool
  pub needs_approval : Bool
  pub automatic : Bool
  pub risk : Option Risk
  pub reason : Reason
  pub pairs : List (StepKind × TargetKey)

abbrev pub is_kind : StepKind → StepKind → Bool
is_kind prune_safe prune_safe = true
is_kind update_canary update_canary = true
is_kind a b = false

abbrev pub all_of_kind : StepKind → List Step → Bool
all_of_kind k [] = true
all_of_kind k (s ∷ ss) = is_kind k s.kind && all_of_kind k ss

-- `step.type in STEP_TYPES`, for each step
unfoldable pub all_known : List Step → Bool
unfolding type_of
all_known [] = true
all_known (s ∷ ss) = is_some (type_of s.kind) && all_known ss

-- The two automatic exceptions: the safe prune of the system, and the canary pass of Zoidberg.
unfoldable pub is_exception : Origin → List Step → Bool
is_exception system ss = all_of_kind prune_safe ss
is_exception zoidberg ss = all_of_kind update_canary ss
is_exception other ss = false

abbrev pub refusal : Option Risk → Reason → List (StepKind × TargetKey) → RunbookDecision
refusal r why ps = record {
  allowed = false;
  needs_approval = false;
  automatic = false;
  risk = r;
  reason = why;
  pairs = ps;
}

-- A decision that lets the runbook run: whether it needs approval, and whether it is automatic.
abbrev pub permission : Bool → Bool → Risk → Reason → List (StepKind × TargetKey) → RunbookDecision
permission approval auto r why ps = record {
  allowed = true;
  needs_approval = approval;
  automatic = auto;
  risk = some r;
  reason = why;
  pairs = ps;
}

-- `is_network_guarded` is a search in the names of a stack and a service.
module _ (is_network_guarded : Text → Text → Bool) where
  abbrev pub any_guarded : List Step → Bool
  any_guarded [] = false
  any_guarded (s ∷ ss) = is_network_guarded s.stack s.service || any_guarded ss

  -- Of a known runbook whose risk is not forbidden. Every risk of the table is a known class.
  unfoldable pub decide_known :
      Runbook → Risk → List (StepKind × TargetKey) → Origin → AutonomyConfig → RunbookDecision
  unfolding is_exception allows_direct_request
  decide_known b r ps o c =
      if is_direct o
      then (if allows_direct_request r o c
          then permission false false r direct_request ps
          else refusal (some r) not_direct ps)
      else if is_exception o (steps_of b) && any_guarded (steps_of b)
      then refusal (some r) guarded ps
      else if is_exception o (steps_of b)
      then permission false true r automatic_exception ps
      else if risk_eq r r0
      then permission false true r runs_automatically ps
      else permission true false r wants_approval ps

  unfoldable pub decide_runbook : Runbook → Origin → AutonomyConfig → RunbookDecision
  unfolding decide_known all_known risk mutating_pairs
  decide_runbook b o c =
      let r = risk b in
      let ps = mutating_pairs (steps_of b) in
      if not (is_runbook_origin o)
      then refusal none unknown_origin []
      else if not (all_known (steps_of b))
      then refusal none unknown_step []
      else if has_risk r c.forbidden_risks
      then refusal (some r) never_allowed ps
      else decide_known b r ps o c

abbrev pub day_seconds : ℕ
day_seconds = 86400

abbrev pub max_time : List Time → Time
max_time [] = 0
max_time (t ∷ ts) = let m = max_time ts in if ltb t m then m else t

unfoldable pub limit_lookback_seconds : AutonomyConfig → ℕ
limit_lookback_seconds c =
    if ltb day_seconds c.cooldown_seconds then c.cooldown_seconds else day_seconds

-- What the text of a refusal is made of: the last attempt, now and the cooldown; or the count, what is
-- requested and the cap.
pub data LimitRefusal : Type 0 where
  cooling_down : Time → Time → ℕ → LimitRefusal
  attempt_cap : ℕ → ℕ → ℕ → LimitRefusal

abbrev pub none_yet : List Time → Bool
none_yet [] = true
none_yet (t ∷ ts) = false

-- `limit_refusal`; a comparison `now - max(attempts) < cooldown` is written without the subtraction.
unfoldable pub limit_refusal : List Time → Time → ℕ → AutonomyConfig → Option LimitRefusal
limit_refusal attempts now requested c =
    let count = count_where (λ t. leb now (t + day_seconds)) attempts in
    if not (none_yet attempts) && ltb now (max_time attempts + c.cooldown_seconds)
    then some (cooling_down (max_time attempts) now c.cooldown_seconds)
    else if ltb c.max_attempts_per_day (count + requested)
    then some (attempt_cap count requested c.max_attempts_per_day)
    else none
