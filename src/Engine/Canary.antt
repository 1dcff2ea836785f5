-- ===== src/Engine/Canary.antt =====
-- The canary update of execution/engine.py: pull, deploy that image, watch it, and put the former
-- image back if anything goes wrong.
use planet_express.Prelude.{
  ℕ, ◌+◌, Bool, true, false, ◌&&◌, Option, none, some, [], ◌∷◌, ◌==◌, if◌then◌else◌, opt_eq,
}
use planet_express.Store.Rows.{Text, Time, Dict, Effect, ExecutionStatus}
use planet_express.Store.Candidates.{new_window}
use planet_express.Engine.Scripts.{OutcomeStatus, Script}
use planet_express.Engine.Executors.{says, refusal}

-- What the host answers to one call of `_canary_up`.
pub record UpReply : Type 0 where
  pub owned : Option Text
  pub tagged : Bool
  pub recreated : Bool
  pub deployed : Option Text

-- May the reference be tagged? Only the way back goes on if the container cannot be read.
abbrev pub may_tag : Bool → Text → Option Text → Bool
may_tag inverse reference none = inverse
may_tag inverse reference (some owned) = owned == reference

-- `RunbookEngine._canary_up`: was it done?
abbrev pub canary_up : Bool → Text → Text → UpReply → Bool
canary_up inverse image reference u =
    may_tag inverse reference u.owned && u.tagged && u.recreated && opt_eq u.deployed (some image)

-- What the host answers to one update: the references and images that it reads, whether the pull and
-- the target that is looked at again are in order, and the two calls of `_canary_up` with their
-- watches.
pub record CanaryReply : Type 0 where
  pub bound : Bool
  pub container : Text
  pub compose_sha256 : Text
  pub reference_image : Option Text
  pub reference : Option Text
  pub configured : Option Text
  pub eligible : Bool
  pub running_id : Option Text
  pub pulled : Bool
  pub new_id : Option Text
  pub drifted : Bool
  pub forward : UpReply
  pub stable : Bool
  pub back : UpReply
  pub back_stable : Bool

-- `{"phase": …}`
abbrev phase : ℕ → Dict
phase k = (6, k) ∷ []

-- The way back of `_canary_deploy`.
abbrev go_back : Text → Text → CanaryReply → Script
go_back reference old c = Script.notes (phase 3) (
    if canary_up true old reference c.back && c.back_stable
    then Script.returns (says OutcomeStatus.failed Effect.not_applied (some old))
    else Script.returns (says OutcomeStatus.failed Effect.unknown (some old)))

-- `RunbookEngine._canary_deploy`
unfoldable pub canary_deploy : Text → Text → Text → CanaryReply → Script
canary_deploy reference old new c = Script.notes (phase 2) (
    if canary_up false new reference c.forward
    then Script.enters ExecutionStatus.verifying (
        if c.stable
        then Script.returns (says OutcomeStatus.passed Effect.applied (some new))
        else go_back reference old c)
    else go_back reference old c)

-- The second half of `_canary`, under its `finally`.
unfoldable pub canary_body : Text → Text → CanaryReply → Option Text → Script
unfolding canary_deploy
canary_body reference old c none = refusal
canary_body reference old c (some new) =
    if c.pulled
    then Script.notes ((6, 1) ∷ (7, new) ∷ []) (
        if new == old
        then Script.returns (says OutcomeStatus.passed Effect.not_applied (some new))
        else if c.drifted
        then refusal
        else canary_deploy reference old new c)
    else refusal

-- The pre-state that is recorded before the pull; no image of the reference is null, which is 0.
abbrev pull_state : Text → Text → CanaryReply → Dict
pull_state reference old c =
    (6, 0)
    ∷ (11, c.compose_sha256)
    ∷ (8, reference)
    ∷ (9, old)
    ∷ (12, elim c.reference_image [ none ↦ 0 | some image ↦ image ])
    ∷ (10, c.container)
    ∷ []

-- `RunbookEngine._canary`, as the step `n` of an execution, at a clock reading: 900 seconds of grace.
unfoldable pub canary :
    Time → Text → ℕ → Text → Text → CanaryReply → Option Text → Option Text → Script
unfolding canary_body
canary now e n stack service c (some reference) (some old) =
    if c.bound && opt_eq c.configured (some reference) && c.eligible
    then Script.updates (new_window now e n stack service reference old (now + 900))
        (pull_state reference old c) (canary_body reference old c c.new_id)
    else refusal
canary now e n stack service c reference old = refusal
