-- ===== src/Engine/Executors.antt =====
-- The executors of execution/engine.py, each as the script that the answers of the host lead to.
--
-- An answer that the code only tests is a Bool: whether a command returned 0, whether a verifier
-- passed, whether a lookup succeeded. The texts of reasons are not modelled: each is 0.
use planet_express.Prelude.{
  ℕ, Bool, true, false, not, ◌&&◌, ◌||◌, Option, none, some, List, [], ◌∷◌, leb, ◌==◌,
  if◌then◌else◌, is_none,
}
use planet_express.Store.Rows.{Text, Dict, Effect, ExecutionStatus}
use planet_express.Engine.Scripts.{OutcomeStatus, StepOutcome, Script}

abbrev pub says : OutcomeStatus → Effect → Option Text → StepOutcome
says status effect output = record { status = status; effect = effect; reason = 0; output = output }

-- `RunbookEngine._refuse`
abbrev pub refusal : Script
refusal = Script.returns (says OutcomeStatus.failed Effect.not_applied none)

abbrev pub verdict : Bool → OutcomeStatus
verdict ok = if ok then OutcomeStatus.passed else OutcomeStatus.failed

pub record Binding : Type 0 where
  pub container : Text
  pub compose_sha256 : Text
  pub container_id : Text

-- What the binder reads now.
pub record Current : Type 0 where
  pub compose_sha256 : Text
  pub container_id : Text

-- `RunbookEngine._bound_container`: is the container still the one that was approved?
abbrev pub bound_container : Binding → Option Current → Bool
bound_container b none = false
bound_container b (some c) =
    c.compose_sha256 == b.compose_sha256 && c.container_id == b.container_id

-- `RunbookEngine._bound_target`: the same, for a target that is resolved again.
abbrev pub bound_target : Binding → Option Text → Option Current → Bool
bound_target b none current = false
bound_target b (some container) current = container == b.container && bound_container b current

-- `RunbookEngine._service_restart`
unfoldable pub service_restart : Bool → Bool → Bool → Script
service_restart bound restarted verified =
    if bound
    then Script.dispatches none (
        if restarted
        then Script.enters ExecutionStatus.verifying
            (Script.returns (says (verdict verified) Effect.applied none))
        else Script.returns (says OutcomeStatus.failed Effect.unknown none))
    else refusal

-- A reading of a container: none if the inspection failed.
pub record Reading : Type 0 where
  pub is_running : Bool
  pub is_well : Bool

abbrev has_stopped : Option Reading → Bool
has_stopped none = false
has_stopped (some r) = not r.is_running

-- `RunbookEngine._service_start_stop`; the pre-state is whether it was running.
unfoldable pub service_start_stop :
    Bool → Bool → Option Reading → Bool → Bool → Option Reading → Script
service_start_stop starts bound none returned verified after = refusal
service_start_stop starts bound (some before) returned verified after =
    if bound
    then Script.dispatches (some ((1, if before.is_running then 1 else 0) ∷ [])) (
        if returned
        then Script.enters ExecutionStatus.verifying (
            if starts
            then Script.returns (
                says (verdict verified)
                  (if before.is_running then Effect.not_applied else Effect.applied) none)
            else if has_stopped after
            then Script.returns (
                says OutcomeStatus.passed
                  (if before.is_running then Effect.applied else Effect.not_applied) none)
            else Script.returns (says OutcomeStatus.failed Effect.unknown none))
        else Script.returns (says OutcomeStatus.failed Effect.unknown none))
    else refusal

-- The loop of `_stack` over the stacks that remain: for each, did compose return 0, and did the
-- verifier pass? `any` says that one has passed already.
abbrev more : List (Bool × Bool) → Script → Script
more [] rest = rest
more (s ∷ ss) rest = Script.enters ExecutionStatus.running rest

unfoldable pub stacks_loop : Bool → List (Bool × Bool) → Script → Script
stacks_loop any [] end = end
stacks_loop any ((returned, verified) ∷ rest) end =
    let others = more rest (stacks_loop true rest end) in
    Script.dispatches none (
      if returned
      then Script.enters ExecutionStatus.verifying (
          if verified
          then others
          else Script.returns (says OutcomeStatus.failed Effect.applied none))
      else Script.returns
          (says OutcomeStatus.failed (if any then Effect.applied else Effect.unknown) none))

-- `RunbookEngine._stack`: nothing has drifted since the approval; the stacks; and the identities that
-- `stack.up` reports, if it is one and they could be read.
unfoldable pub stack : Bool → Bool → Option Text → Bool × Bool → List (Bool × Bool) → Script
unfolding stacks_loop
stack bound reports identities first rest =
    if bound
    then stacks_loop false (first ∷ rest) (
        if reports && is_none identities
        then Script.returns (says OutcomeStatus.failed Effect.applied none)
        else Script.returns
            (says OutcomeStatus.passed Effect.applied (if reports then identities else none)))
    else refusal

-- `RunbookEngine._wait`: what the abort flag says at each look before the deadline.
unfoldable pub wait_loop : List Bool → Script
wait_loop [] = Script.returns (says OutcomeStatus.passed Effect.not_applied none)
wait_loop (abort ∷ looks) =
    let rest = wait_loop looks in
    if abort then Script.returns (says OutcomeStatus.aborted Effect.not_applied none) else rest

unfoldable pub wait : List Bool → Script
unfolding wait_loop
wait looks = Script.dispatches none (wait_loop looks)

pub data Expect : Type 0 where
  running healthy stopped : Expect

abbrev pub meets : Expect → Reading → Bool
meets Expect.running r = r.is_running
meets Expect.healthy r = r.is_running && r.is_well
meets Expect.stopped r = not r.is_running

-- `RunbookEngine._check_container`
unfoldable pub check_container : Bool → Expect → Option Reading → Script
check_container bound expect none = refusal
check_container bound expect (some r) =
    if bound
    then Script.returns (says (verdict (meets expect r)) Effect.not_applied none)
    else refusal

-- `RunbookEngine._check_log`: the start time was recognised, the log was read, the text was found.
unfoldable pub check_log : Bool → Bool → Bool → Bool → Script
check_log bound started logs found =
    if bound && started && logs
    then Script.returns (says (verdict found) Effect.not_applied none)
    else refusal

-- `RunbookEngine._read_qbit_port`: the number that was read, if it was one.
unfoldable pub read_qbit_port : Bool → Option ℕ → Script
read_qbit_port bound none = refusal
read_qbit_port bound (some port) =
    if bound && leb 1 port && leb port 65535
    then Script.returns (says OutcomeStatus.passed Effect.not_applied (some port))
    else refusal

-- What the provider of the host reports, or that it raised.
pub data Provided : Type 0 where
  raised : Provided
  reported : Text → Bool → Effect → Provided

-- `RunbookEngine._unit_action`: the provider acts before the dispatch is recorded.
unfoldable pub unit_action : Bool → Bool → Provided → Script
unit_action allowed known Provided.raised = if allowed && known then Script.crashes 0 else refusal
unit_action allowed known (Provided.reported before fine effect) =
    if allowed && known
    then Script.dispatches (some ((2, before) ∷ []))
        (Script.returns (says (verdict fine) effect none))
    else refusal

-- How the write of a compose file ended; the staged file was recorded before the last two, and may
-- have been before the first two.
pub data Written : Type 0 where
  refused_write failed_write : Bool → Written
  done_write : Dict → Text → Written

abbrev staged : Bool → Script → Script
staged reached rest = if reached then Script.notes ((3, 4) ∷ []) rest else rest

-- `RunbookEngine._compose_write`
unfoldable pub compose_write : Bool → Dict → Written → Script
compose_write admitted pre (Written.refused_write s) =
    if admitted
    then Script.dispatches (some pre)
        (staged s (Script.returns (says OutcomeStatus.failed Effect.not_applied none)))
    else refusal
compose_write admitted pre (Written.failed_write s) =
    if admitted
    then Script.dispatches (some pre)
        (staged s (Script.returns (says OutcomeStatus.failed Effect.unknown none)))
    else refusal
compose_write admitted pre (Written.done_write patch output) =
    if admitted
    then Script.dispatches (some pre) (
        staged true (
          Script.notes patch
            (Script.returns (says OutcomeStatus.passed Effect.applied (some output)))))
    else refusal

-- How a restore ended.
pub data Restored : Type 0 where
  refused_restore failed_restore done_restore : Restored

abbrev restore_outcome : Restored → StepOutcome
restore_outcome Restored.refused_restore = says OutcomeStatus.failed Effect.not_applied none
restore_outcome Restored.failed_restore = says OutcomeStatus.failed Effect.unknown none
restore_outcome Restored.done_restore = says OutcomeStatus.passed Effect.applied none

-- `RunbookEngine._compose_restore`
unfoldable pub compose_restore : Bool → Text → Restored → Script
compose_restore admitted path restored =
    if admitted
    then Script.dispatches (some ((5, path) ∷ [])) (Script.returns (restore_outcome restored))
    else refusal

abbrev all : List Bool → Bool
all [] = true
all (b ∷ bs) = b && all bs

abbrev any : List Bool → Bool
any [] = false
any (b ∷ bs) = b || any bs

-- `RunbookEngine._prune`: did each of the commands return 0?
unfoldable pub prune : List Bool → Script
prune replies = Script.dispatches none (
    Script.returns
      (says (verdict (all replies)) (if any replies then Effect.applied else Effect.unknown) none))
