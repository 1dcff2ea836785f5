-- ===== src/Rollback/Plan.antt =====
-- `plan_rollback` and `rollback_preview` of planet_express/execution/engine.py.
use planet_express.Prelude.{
  ℕ, Bool, true, false, not, ◌&&◌, ◌||◌, Option, none, some, List, [], ◌∷◌, ◌==◌, if◌then◌else◌,
  is_none,
}
use mathlib.Core.List.{reverse}
use mathlib.Core.Option
use planet_express.Store.Rows.{Text, Effect}
use planet_express.Policy.Catalogue.{
  StepKind, service_start, service_stop, unit_action, compose_write,
}
use planet_express.Rollback.Rows.{
  Row, PreState, FileId, Host, UnitAction, start, stop, restart, is_conditional, is_considered,
  now_effect, or_else,
}

-- The binding of a `compose.restore`.
pub record RestoreBinding : Type 0 where
  pub compose_path : Text
  pub project : Text
  pub written_sha256 : Text
  pub backup_path : Option Text
  pub previous_sha256 : Option Text
  pub created_file : Bool
  pub created_directory : Bool
  pub directory_inode : Option ℕ
  pub staged_file : Option FileId

-- A step of the rollback: its type, its parameters and its binding.
pub data Inverse : Type 0 where
  restores : RestoreBinding → Inverse
  switches : StepKind → Text → Text → Text → Inverse
  acts : UnitAction → Text → Inverse

abbrev pub same_file : FileId → FileId → Bool
same_file (d, i) (e, j) = d == e && i == j

abbrev pub is_file : Option FileId → Option FileId → Bool
is_file (some a) (some b) = same_file a b
is_file a b = false

-- `_is_the_staged_file`
unfoldable pub is_the_staged_file : Host → PreState → Bool
is_the_staged_file h p =
    if p.compose_path == 0 then false else is_file (h.stat p.compose_path) p.staged_file

-- The step has created the file at its path.
unfoldable pub has_created_file : Host → PreState → Bool
unfolding is_the_staged_file
has_created_file h p = elim p.created_file [
  | some b ↦ b
  | none ↦ is_none p.previous_sha256 && is_the_staged_file h p
]

abbrev pub is_false : Option Bool → Bool
is_false none = false
is_false (some b) = not b

unfoldable pub has_created_directory : Host → PreState → Bool
unfolding has_created_file
has_created_directory h p = elim p.created_directory [
  | some b ↦ b
  | none ↦ has_created_file h p && is_false p.directory_existed
]

unfoldable pub restore_of : Host → Row → Text → RestoreBinding
unfolding has_created_directory
restore_of h r path = record {
  compose_path = path;
  project = r.stack;
  written_sha256 = r.content_sha256;
  backup_path = r.pre.backup_path;
  previous_sha256 = r.pre.previous_sha256;
  created_file = has_created_file h r.pre;
  created_directory = has_created_directory h r.pre;
  directory_inode = r.pre.directory_inode;
  staged_file = if has_created_file h r.pre then r.pre.staged_file else none;
}

-- No path in the evidence or in the binding raises.
unfoldable pub restore : Host → Row → Text → Option Inverse
unfolding restore_of
restore h r path = if path == 0 then none else some (restores (restore_of h r path))

abbrev pub switch : Host → Row → StepKind → Option Inverse
switch h r k = Option.map (switches k r.stack r.service) (h.bind_service r.stack r.service)

-- `_INVERSE_UNIT`, where a missing key raises
abbrev pub inverse_unit : UnitAction → Option UnitAction
inverse_unit start = some stop
inverse_unit stop = some start
inverse_unit restart = none

-- The inverse of a row of this type, none where building it raises.
unfoldable pub inverse_by : Host → Row → StepKind → Option Inverse
unfolding restore
inverse_by h r compose_write = restore h r (or_else r.pre.compose_path r.bound_path)
inverse_by h r service_start = switch h r service_stop
inverse_by h r service_stop = switch h r service_start
inverse_by h r unit_action = Option.map (λ a. acts a r.unit) (inverse_unit r.action)
inverse_by h r other = none

unfoldable pub inverse_of : Host → Row → Option Inverse
unfolding inverse_by
inverse_of h r = inverse_by h r r.kind

-- What the loop makes of a row.
pub data Class : Type 0 where
  left_alone irreversible unsure reversed : Class

abbrev pub class_by : Effect → Class
class_by Effect.applied = reversed
class_by Effect.not_applied = left_alone
class_by Effect.unknown = unsure

unfoldable pub fresh_effect : Host → Row → Option Effect → Effect
unfolding now_effect
fresh_effect h r none = Effect.not_applied
fresh_effect h r (some Effect.unknown) = now_effect h r
fresh_effect h r (some Effect.applied) = Effect.applied
fresh_effect h r (some Effect.not_applied) = Effect.not_applied

unfoldable pub class_of : Host → Row → Class
unfolding is_considered is_conditional fresh_effect
class_of h r =
    if not (is_considered r)
    then left_alone
    else if not (is_conditional r)
    then irreversible
    else class_by (fresh_effect h r r.effect)

-- `f"{row['n']}. {row['type']}"`
abbrev pub Label : Type 0
Label = ℕ × StepKind

abbrev pub label : Row → Label
label r = (r.n, r.kind)

-- There is a runbook exactly if there are steps.
pub record RollbackPlan : Type 0 where
  pub steps : List Inverse
  pub undo : List Label
  pub not_reversible : List Label
  pub unknown : List Label

abbrev pub empty_plan : RollbackPlan
empty_plan = record { steps = []; undo = []; not_reversible = []; unknown = [] }

unfoldable pub add_row : Host → Row → Class → RollbackPlan → Option RollbackPlan
unfolding inverse_of
add_row h r left_alone p = some p
add_row h r irreversible p = some (record p { not_reversible = label r ∷ p.not_reversible })
add_row h r unsure p = some (record p { unknown = label r ∷ p.unknown })
add_row h r reversed p =
    Option.map (λ i. record p { steps = i ∷ p.steps; undo = label r ∷ p.undo }) (inverse_of h r)

-- The loop over the rows, newest first; the host is as each row finds it.
unfoldable pub plan_rows : (ℕ → Host) → List Row → Option RollbackPlan
unfolding add_row class_of
plan_rows at [] = some empty_plan
plan_rows at (r ∷ rs) =
    let rest = plan_rows at rs in
    elim rest [ none ↦ none | some p ↦ add_row (at r.n) r (class_of (at r.n) r) p ]

abbrev pub no_steps : List Inverse → Bool
no_steps [] = true
no_steps (i ∷ rest) = false

-- `accepts` is the validation of the runbook that the steps make up.
unfoldable pub plan_rollback : (List Inverse → Bool) → (ℕ → Host) → List Row → Option RollbackPlan
unfolding plan_rows
plan_rollback accepts at rows = elim (plan_rows at (reverse rows)) [
  | none ↦ none
  | some p ↦ if no_steps p.steps || accepts p.steps then some p else none
]

pub record RollbackPreview : Type 0 where
  pub undo : List ℕ
  pub unknown : List ℕ
  pub not_reversible : List ℕ

abbrev pub is_unknown : Option Effect → Bool
is_unknown (some Effect.unknown) = true
is_unknown e = false

unfoldable pub preview_rows : List Row → RollbackPreview
unfolding is_considered is_conditional
preview_rows [] = record { undo = []; unknown = []; not_reversible = [] }
preview_rows (r ∷ rs) =
    let p = preview_rows rs in
    if not (is_considered r)
    then p
    else if is_unknown r.effect && is_conditional r
    then record p { unknown = r.n ∷ p.unknown }
    else if is_conditional r
    then record p { undo = r.n ∷ p.undo }
    else record p { not_reversible = r.n ∷ p.not_reversible }

unfoldable pub rollback_preview : List Row → RollbackPreview
unfolding preview_rows
rollback_preview rows = preview_rows (reverse rows)
