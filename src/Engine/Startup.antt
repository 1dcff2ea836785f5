-- ===== src/Engine/Startup.antt =====
-- What execution/engine.py makes of steps that were left open: `startup_reconcile` when the core
-- starts again, and `settle_crashed_execution` when the engine itself raised.
pub mod Closed
pub mod Crashed
pub mod Total
use planet_express.Prelude.{
  ℕ, zero, suc, ◌+◌, ◌-◌, ◌*◌, ◌/◌, ◌%◌, ◌≤◌, ◌<◌, ◌≡◌, refl, sym, ap, ◌∙◌, subst, ◌≢◌, ◌↔◌, ◌⊎◌,
  inl, inr, Bool, true, false, not, ◌&&◌, ◌||◌, Option, none, some, List, [], ◌∷◌, ◌++◌, map, arith,
  ltb, leb, ◌==◌, if◌then◌else◌, is_none, is_some, opt_eq, coalesce, Bool-cases, Option-cases,
  eq-of-==, ==_refl, length, select, find_row, count_where, touch, update_where, All, length-append,
  count_where-append, All-append, All-intro, All-map, All-touch, All-update_where, All-find_row,
  find_row-update_where, find_row-append, find_row_fits, count_where_zero, find_row_none,
  count_where-update_where-le, update_where_none, Evolves, Evolves-refl, Evolves-append,
  Evolves-update_where, Evolves-trans, Evolves-find_row, All-Evolves, find_row-update_where_kept,
  found_of_count, count_of_found, find_row_weaken, count_where_none, DistinctOn,
  DistinctOn-update_where, DistinctOn-append, DistinctOn-found, DistinctOn-count,
  DistinctOn-count_found,
}
use planet_express.Store.Rows.{
  Text, Time, Dict, ExecutionStep, StepStatus, Effect, Execution, AttemptState, Attempt, Db,
  is_active,
}
use planet_express.Store.Tx.{Result, ok, err, Tx, write}
use planet_express.Store.Executions.{has_execution_id}
use planet_express.Store.Steps.{finish_step, is_pending_step, is_dispatched, list_steps, is_step}
use planet_express.Store.Attempts.{reconcile_reserved_attempts, is_reserved}
use planet_express.Store.Candidates.{close_rollback_candidate, hold_rollback_candidate}
use planet_express.Engine.Programs.{Prog, go_on, ◌>>=◌, ◌>>◌, pure}
use planet_express.Engine.Scripts.{is_unknown}

-- What the code asks of a step type: is its risk R0, and is it `update.canary`?
pub record Types : Type 0 where
  pub is_read : Text → Bool
  pub is_canary : Text → Bool

abbrev pub lookup : Text → Dict → Option Text
lookup k [] = none
lookup k ((j, v) ∷ d) = if j == k then some v else lookup k d

-- The keys of a recorded pre-state, and the phase in which the former image is put back.
abbrev pub phase_key : Text
phase_key = 6

abbrev pub running_image_key : Text
running_image_key = 9

abbrev pub container_key : Text
container_key = 10

abbrev pub rolling_back : Text
rolling_back = 3

abbrev pub pre_state : ExecutionStep → Dict
pre_state s = elim s.pre_state [ none ↦ [] | some d ↦ d ]

-- Neither absent nor empty.
abbrev pub is_given : Option Text → Bool
is_given none = false
is_given (some t) = not (t == 0)

-- `_reconcile_canary`, by the image that the container runs now, if it can be read.
abbrev pub reconcile_canary : Option Text → ExecutionStep → Effect
reconcile_canary none s = Effect.unknown
reconcile_canary (some current) s =
    if is_given (lookup container_key (pre_state s))
      && is_given (lookup running_image_key (pre_state s))
      && not (opt_eq (lookup phase_key (pre_state s)) (some rolling_back))
      && opt_eq (lookup running_image_key (pre_state s)) (some current)
    then Effect.not_applied
    else Effect.unknown

-- The effect of a step that was dispatched and is not a canary.
abbrev pub plain_effect : Types → ExecutionStep → Effect
plain_effect types s = if types.is_read s.type then Effect.not_applied else Effect.unknown

abbrev pub interrupted_effect : Types → (ExecutionStep → Option Text) → ExecutionStep → Effect
interrupted_effect types image s =
    if types.is_canary s.type then reconcile_canary (image s) s else plain_effect types s

-- "interrupted: …" and "not run: …"
abbrev pub interrupted : Text
interrupted = 7

abbrev pub never_ran : Text
never_ran = 8

-- The window of a canary: closed if nothing was deployed, else held.
unfoldable pub settle_window : Time → Types → ExecutionStep → Effect → Prog (Unit {0})
settle_window now types s effect =
    if types.is_canary s.type
    then (if is_unknown effect
        then write (hold_rollback_candidate s.execution_id s.n) >> pure tt
        else write (close_rollback_candidate now s.execution_id s.n) >> pure tt)
    else pure tt

-- One row of `unfinished_steps`: the effect that was recorded, or none if the step never ran.
unfoldable pub settle_step :
    Time → Types → (ExecutionStep → Option Text) → ExecutionStep → Prog (Option Effect)
unfolding settle_window
settle_step now types image s =
    let effect = interrupted_effect types image s in
    if is_dispatched s.status
    then write
        (finish_step now s.execution_id s.n StepStatus.failed (some effect) none (some interrupted))
      >> settle_window now types s effect
      >> pure (some effect)
    else write (finish_step now s.execution_id s.n StepStatus.skipped none none (some never_ran))
      >> pure none

unfoldable pub settle_steps :
    Time → Types → (ExecutionStep → Option Text) → List ExecutionStep → Prog (List (Option Effect))
unfolding settle_step
settle_steps now types image [] = pure []
settle_steps now types image (s ∷ steps) = do
  e ← settle_step now types image s
  es ← settle_steps now types image steps
  pure (e ∷ es)

-- `Store.unfinished_steps`, in the order of the table.
abbrev pub is_open_step : Db → ExecutionStep → Bool
is_open_step db s =
    (is_pending_step s.status || is_dispatched s.status)
    && is_some
        (find_row (λ (e : Execution). e.id == s.execution_id && is_active e.status) db.executions)

abbrev pub unfinished_steps : Db → List ExecutionStep
unfinished_steps db = select (is_open_step db) db.execution_steps

-- `startup_reconcile`: the effects of the steps, and how many attempts were consumed and released.
unfoldable pub startup_reconcile :
    Time → Types → (ExecutionStep → Option Text) → Prog (List (Option Effect) × ℕ × ℕ)
unfolding settle_steps
startup_reconcile now types image db =
    (do
      effects ← settle_steps now types image (unfinished_steps db)
      counts ← write (reconcile_reserved_attempts now)
      pure (effects, counts.0, counts.1))
      db

-- One row of a crashed execution. The window is held, never closed.
unfoldable pub settle_crashed_step : Time → Types → ExecutionStep → Prog (Unit {0})
settle_crashed_step now types s =
    let effect = plain_effect types s in
    if is_dispatched s.status
    then write
        (finish_step now s.execution_id s.n StepStatus.failed (some effect) none (some interrupted))
      >> (if types.is_canary s.type && is_unknown effect
          then write (hold_rollback_candidate s.execution_id s.n) >> pure tt
          else pure tt)
    else if is_pending_step s.status
    then write (finish_step now s.execution_id s.n StepStatus.skipped none none (some never_ran))
    else pure tt

unfoldable pub settle_crashed_steps : Time → Types → List ExecutionStep → Prog (Unit {0})
unfolding settle_crashed_step
settle_crashed_steps now types [] = pure tt
settle_crashed_steps now types (s ∷ steps) =
    settle_crashed_step now types s >> settle_crashed_steps now types steps

-- `EXISTS (… s.effect = 'unknown')`
abbrev pub has_unknown : Db → Attempt → Bool
has_unknown db a = is_some (
    find_row
      (λ s.
        is_step a.execution_id a.step_n s
        && (elim s.effect [ none ↦ false | some f ↦ is_unknown f ]))
      db.execution_steps)

unfoldable pub settle_attempts : Time → Text → Tx (Unit {0})
settle_attempts now execution db = ok (
  tt,
  record db {
    attempts =
        update_where (λ (a : Attempt). a.execution_id == execution && is_reserved a.state)
          (λ a. record a {
            state = if has_unknown db a then AttemptState.consumed else AttemptState.released;
            settled_at = some now;
          })
          db.attempts;
  },
)

-- `settle_crashed_execution`
unfoldable pub settle_crashed_execution : Time → Types → Text → Prog (Unit {0})
unfolding settle_crashed_steps settle_attempts
settle_crashed_execution now types execution db =
    (settle_crashed_steps now types (list_steps execution db)
        >> write (settle_attempts now execution))
      db
