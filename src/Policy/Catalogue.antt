-- ===== src/Policy/Catalogue.antt =====
-- The step types with their risks and targets, `risk`, `_target_key` and `mutating_pairs`:
-- planet_express/execution/runbook.py.
use planet_express.Store.Rows.{Text}
use planet_express.Prelude.{
  ℕ, Bool, true, false, not, ◌&&◌, ◌||◌, Option, none, some, List, [], ◌∷◌, ltb, ◌==◌,
  if◌then◌else◌,
}

pub data Risk : Type 0 where
  r0 r1 r2 r3 r4 : Risk

-- `_RISK_ORDER`
abbrev pub rank : Risk → ℕ
rank r0 = 0
rank r1 = 1
rank r2 = 2
rank r3 = 3
rank r4 = 4

abbrev pub risk_eq : Risk → Risk → Bool
risk_eq a b = rank a == rank b

abbrev pub has_risk : Risk → List Risk → Bool
has_risk a [] = false
has_risk a (b ∷ bs) = risk_eq a b || has_risk a bs

-- The keys of `STEP_TYPES`, and any other text.
pub data StepKind : Type 0 where
  service_restart service_start service_stop : StepKind
  stack_up stack_down stack_up_all stack_down_all stack_down_ingress : StepKind
  wait check_container check_log read_port : StepKind
  unit_action update_canary compose_write compose_restore prune_safe : StepKind
  unknown_kind : Text → StepKind

pub data TargetKind : Type 0 where
  a_service a_stack a_stack_set a_unit no_target global : TargetKind

pub record StepType : Type 0 where
  pub risk : Risk
  pub target : TargetKind
  pub limited : Bool

abbrev pub step_type : Risk → TargetKind → Option StepType
step_type r t = some (record { risk = r; target = t; limited = true })

-- `STEP_TYPES.get`
unfoldable pub type_of : StepKind → Option StepType
type_of service_restart = step_type r1 a_service
type_of service_start = step_type r1 a_service
type_of service_stop = step_type r2 a_service
type_of stack_up = step_type r1 a_stack
type_of stack_down = step_type r2 a_stack
type_of stack_up_all = step_type r2 a_stack_set
type_of stack_down_all = step_type r3 a_stack_set
type_of stack_down_ingress = step_type r3 a_stack
type_of wait = step_type r0 no_target
type_of check_container = step_type r0 no_target
type_of check_log = step_type r0 no_target
type_of read_port = step_type r0 no_target
type_of unit_action = step_type r3 a_unit
type_of update_canary = step_type r2 a_service
type_of compose_write = some (record { risk = r3; target = a_stack; limited = false })
type_of compose_restore = some (record { risk = r3; target = a_stack; limited = false })
type_of prune_safe = step_type r2 global
type_of (unknown_kind t) = none

-- A step's type and the names in its parameters and its binding, 0 where one is absent.
pub record Step : Type 0 where
  pub kind : StepKind
  pub stack : Text
  pub service : Text
  pub unit : Text
  pub bound_stacks : List Text

-- A validated runbook has a step.
pub record Runbook : Type 0 where
  pub first : Step
  pub others : List Step

abbrev pub steps_of : Runbook → List Step
steps_of r = r.first ∷ r.others

pub data TargetKey : Type 0 where
  service_key : Text → Text → TargetKey
  stack_key : Text → TargetKey
  stacks_key : List Text → TargetKey
  unit_key : Text → TargetKey
  host_key : TargetKey

unfoldable pub target_key : Step → TargetKind → TargetKey
target_key s a_service = service_key s.stack s.service
target_key s a_stack = stack_key s.stack
target_key s a_stack_set = stacks_key s.bound_stacks
target_key s a_unit = unit_key s.unit
target_key s no_target = host_key
target_key s global = host_key

abbrev pub counts_pair : Option StepType → Bool
counts_pair none = false
counts_pair (some t) = not (risk_eq t.risk r0) && t.limited

abbrev pub key_of : Step → Option StepType → TargetKey
key_of s none = host_key
key_of s (some t) = target_key s t.target

-- `mutating_pairs`
unfoldable pub mutating_pairs : List Step → List (StepKind × TargetKey)
unfolding type_of target_key
mutating_pairs [] = []
mutating_pairs (s ∷ ss) =
    let rest = mutating_pairs ss in
    if counts_pair (type_of s.kind) then (s.kind, key_of s (type_of s.kind)) ∷ rest else rest

-- The risk of a step; `STEP_TYPES[step.type]` raises for a type that is not there, which `decide_runbook`
-- asks first.
abbrev pub risk_in : Option StepType → Risk
risk_in none = r4
risk_in (some t) = t.risk

abbrev pub step_risk : Step → Risk
unfolding type_of
step_risk s = risk_in (type_of s.kind)

abbrev pub riskier : Risk → Risk → Risk
riskier a b = if ltb (rank a) (rank b) then b else a

-- `risk`: the first of the highest.
unfoldable pub risk_from : Risk → List Step → Risk
unfolding type_of
risk_from r [] = r
risk_from r (s ∷ ss) = risk_from (riskier r (step_risk s)) ss

unfoldable pub risk : Runbook → Risk
unfolding risk_from type_of
risk r = risk_from (step_risk r.first) r.others
