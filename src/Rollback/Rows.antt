-- ===== src/Rollback/Rows.antt =====
-- The rows of steps that rollback planning reads, what it asks of the host, and `_now_effect`:
-- planet_express/execution/engine.py.
use planet_express.Prelude.{
  ℕ, Bool, true, false, not, ◌&&◌, ◌||◌, Option, none, some, ◌==◌, if◌then◌else◌, is_none,
}
use planet_express.Store.Rows.{Text, Effect}
use planet_express.Policy.Catalogue.{
  r0, risk_eq, StepKind, StepType, type_of, service_start, service_stop, unit_action, compose_write,
}

pub data UnitAction : Type 0 where
  start stop restart : UnitAction

-- A device and an inode.
abbrev pub FileId : Type 0
FileId = ℕ × ℕ

-- The keys of `pre_state`; a path or a digest that is read with `or` is 0 where it is absent. `active` is
-- whether the state was "active", one of the two that `unit_active` returns.
pub record PreState : Type 0 where
  pub running : Option Bool
  pub active : Option Bool
  pub compose_path : Text
  pub previous_sha256 : Option Text
  pub created_file : Option Bool
  pub created_directory : Option Bool
  pub directory_existed : Option Bool
  pub backup_path : Option Text
  pub directory_inode : Option ℕ
  pub staged_file : Option FileId

-- A row of `list_steps`; the parameters and the binding hold 0 for what is absent.
pub record Row : Type 0 where
  pub n : ℕ
  pub kind : StepKind
  pub action : UnitAction
  pub stack : Text
  pub service : Text
  pub unit : Text
  pub content_sha256 : Text
  pub container : Text
  pub bound_path : Text
  pub effect : Option Effect
  pub pre : PreState

-- `compose_files.read_current`
pub data FileReading : Type 0 where
  unreadable missing : FileReading
  content : Text → FileReading

-- What the planning reads of the host for one row: whether a container runs and whether a unit is
-- active, none where the reading failed; the digest of a file; the identity of a file; and a service that
-- is resolved and bound, none where that raises.
pub record Host : Type 0 where
  pub health : Text → Option Bool
  pub unit_active : Text → Option Bool
  pub read_current : Text → FileReading
  pub stat : Text → Option FileId
  pub bind_service : Text → Text → Option Text

abbrev pub same : Bool → Bool → Bool
same a b = if a then b else not b

-- `rollback_for(params) == "conditional"`
unfoldable pub is_conditional : Row → Bool
is_conditional r = elim r.kind [
  | service_start ↦ true
  | service_stop ↦ true
  | compose_write ↦ true
  | unit_action ↦ elim r.action [ start ↦ true | stop ↦ true | restart ↦ false ]
  | other ↦ false
]

-- A type that is known and no read, with an effect that is neither unset nor `not_applied`.
abbrev pub has_acted : Option StepType → Option Effect → Bool
has_acted none e = false
has_acted (some t) none = false
has_acted (some t) (some Effect.applied) = not (risk_eq t.risk r0)
has_acted (some t) (some Effect.unknown) = not (risk_eq t.risk r0)
has_acted (some t) (some Effect.not_applied) = false

unfoldable pub is_considered : Row → Bool
unfolding type_of
is_considered r = has_acted (type_of r.kind) r.effect

-- What is so now against what the step wanted and what was so before.
abbrev pub effect_of : Bool → Bool → Bool → Effect
effect_of wanted before now =
    if same now wanted && not (same before wanted)
    then Effect.applied
    else if same now before
    then Effect.not_applied
    else Effect.unknown

abbrev pub switch_effect : Bool → Option Bool → Option Bool → Effect
switch_effect wanted (some before) (some now) = effect_of wanted before now
switch_effect wanted before now = Effect.unknown

abbrev pub or_else : Text → Text → Text
or_else a b = if a == 0 then b else a

abbrev pub is_digest : Text → Option Text → Bool
is_digest d none = false
is_digest d (some e) = d == e

unfoldable pub file_effect : Text → Option Text → FileReading → Effect
file_effect wanted before unreadable = Effect.unknown
file_effect wanted before missing = if is_none before then Effect.not_applied else Effect.unknown
file_effect wanted before (content d) =
    if d == wanted
    then Effect.applied
    else if is_digest d before
    then Effect.not_applied
    else Effect.unknown

abbrev pub container_now : Host → Text → Option Bool
container_now h c = if c == 0 then none else h.health c

unfoldable pub write_effect : Host → Row → Text → Effect
unfolding file_effect
write_effect h r path =
    if path == 0 || r.content_sha256 == 0
    then Effect.unknown
    else file_effect r.content_sha256 r.pre.previous_sha256 (h.read_current path)

abbrev pub is_start : UnitAction → Bool
is_start start = true
is_start stop = false
is_start restart = false

-- `_now_effect`
unfoldable pub now_effect : Host → Row → Effect
unfolding write_effect
now_effect h r = elim r.kind [
  | service_start ↦ switch_effect true r.pre.running (container_now h r.container)
  | service_stop ↦ switch_effect false r.pre.running (container_now h r.container)
  | unit_action ↦ switch_effect (is_start r.action) r.pre.active (h.unit_active r.unit)
  | compose_write ↦ write_effect h r (or_else r.pre.compose_path r.bound_path)
  | other ↦ Effect.unknown
]
