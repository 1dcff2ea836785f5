-- ===== src/Policy/Autonomy.antt =====
-- `AutonomyConfig` and its validator (config_schema.py), the origins of policy.py, and which risks an
-- origin may request directly.
use planet_express.Store.Rows.{Text}
use planet_express.Prelude.{
  ℕ, Bool, true, false, not, ◌&&◌, Option, none, some, List, [], ◌∷◌, select,
}
use planet_express.Policy.Catalogue.{Risk, r0, r1, r2, r3, r4, has_risk}

pub data Origin : Type 0 where
  telegram telegram_direct dashboard dashboard_direct incident chat : Origin
  planner zoidberg system install amy rollback : Origin
  other_origin : Text → Origin

-- `RUNBOOK_ORIGINS`
abbrev pub is_runbook_origin : Origin → Bool
is_runbook_origin rollback = false
is_runbook_origin (other_origin t) = false
is_runbook_origin other = true

-- `DIRECT_RUNBOOK_ORIGINS` and `DIRECT_ORIGINS`
abbrev pub is_direct : Origin → Bool
is_direct telegram_direct = true
is_direct dashboard_direct = true
is_direct other = false

-- An optional override of the ceiling for each of the two direct origins, and for none other.
pub record AutonomyConfig : Type 0 where
  pub direct_request_risks : List Risk
  pub dashboard_override : Option (List Risk)
  pub telegram_override : Option (List Risk)
  pub forbidden_risks : List Risk
  pub cooldown_seconds : ℕ
  pub max_attempts_per_day : ℕ

abbrev pub override_of : Origin → AutonomyConfig → Option (List Risk)
override_of dashboard_direct c = c.dashboard_override
override_of telegram_direct c = c.telegram_override
override_of other c = none

-- `DEFAULT_DIRECT_RISKS`
abbrev pub default_of : Origin → Option (List Risk)
default_of dashboard_direct = some (r1 ∷ r2 ∷ r3 ∷ [])
default_of other = none

unfoldable pub direct_risks_for : Origin → AutonomyConfig → List Risk
direct_risks_for o c = elim (override_of o c) [
  | some rs ↦ rs
  | none ↦ elim (default_of o) [
    | some rs ↦ select (λ r. not (has_risk r c.forbidden_risks)) rs
    | none ↦ c.direct_request_risks
  ]
]

abbrev pub no_overlap : List Risk → List Risk → Bool
no_overlap fs [] = true
no_overlap fs (r ∷ rs) = not (has_risk r fs) && no_overlap fs rs

-- What the validator asks of one ceiling.
abbrev pub is_ceiling : List Risk → List Risk → Bool
is_ceiling forbidden rs = not (has_risk r0 rs) && no_overlap forbidden rs

abbrev pub is_ceiling_if : List Risk → Option (List Risk) → Bool
is_ceiling_if forbidden none = true
is_ceiling_if forbidden (some rs) = is_ceiling forbidden rs

-- `_validate_risks`
unfoldable pub validates : AutonomyConfig → Bool
validates c =
    has_risk r4 c.forbidden_risks
    && not (has_risk r0 c.forbidden_risks)
    && (is_ceiling c.forbidden_risks c.direct_request_risks
        && (is_ceiling_if c.forbidden_risks c.dashboard_override
            && is_ceiling_if c.forbidden_risks c.telegram_override))

unfoldable pub allows_direct_request : Risk → Origin → AutonomyConfig → Bool
unfolding direct_risks_for
allows_direct_request r o c = has_risk r (direct_risks_for o c)

-- `ELEVATABLE_ORIGINS`
abbrev pub is_elevatable : Origin → Bool
is_elevatable dashboard_direct = true
is_elevatable other = false

unfoldable pub requires_elevation : Risk → Origin → Bool
requires_elevation r o = is_elevatable o && not (has_risk r (r0 ∷ r1 ∷ []))
