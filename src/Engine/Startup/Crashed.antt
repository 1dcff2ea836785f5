-- ===== src/Engine/Startup/Crashed.antt =====
-- `settle_crashed_execution` as a whole: a run that raised leaves nothing open either.
use planet_express.Prelude.{
  All-select, ℕ, ◌≡◌, refl, subst, ◌≢◌, inl, inr, Bool, true, false, ◌&&◌, none, some, List, [],
  ◌∷◌, arith, ◌==◌, if◌then◌else◌, Bool-cases, find_row, All, DistinctOn,
}
use planet_express.Store.Rows.{Text, Time, ExecutionStep, StepStatus, Db}
use planet_express.Store.Tx.{write}
use planet_express.Store.Steps.{
  is_step, is_pending_step, is_dispatched, is_terminal_step, list_steps,
}
use planet_express.Store.Steps.Machine.{step_key}
use planet_express.Store.Candidates.{hold_rollback_candidate}
use planet_express.Engine.Programs.{◌>>◌, pure}
use planet_express.Engine.Marks.{marked}
use planet_express.Engine.Scripts.{is_unknown}
use planet_express.Engine.Startup.{
  Types, plain_effect, interrupted, never_ran, settle_crashed_step, settle_crashed_steps,
  settle_attempts, settle_crashed_execution,
}
use planet_express.Engine.Startup.Closed.{
  IsFound, IsClosed, Rest, Sure, Sure-go_on, reversed, finish-Sure, dispatched_failed,
  pending_skipped,
}
use planet_express.Engine.Startup.Total.{
  returned, Sure-split, each_by_key, distinct_select, unreversed,
}

marked_found :
    (e : Text) (n : ℕ) (xs : List ExecutionStep) (s : ExecutionStep)
    → find_row (is_step e n) xs ≡ some s
    → is_terminal_step s.status ≡ true
    → marked is_terminal_step e n xs ≡ true
marked_found e n [] s h t = cc
marked_found e n (x ∷ xs) s h t = elim (Bool-cases (is_step e n x)) [
  | inl q ↦
      let same : s ≡ x = cc (q, h) in
      ground (arith, q, subst (λ (y : ExecutionStep). is_terminal_step y.status ≡ true) same t)
  | inr q ↦ ground (arith, q, marked_found e n xs s (cc (q, h)) t)
]

terminal_of :
    (t : StepStatus)
    → is_dispatched t ≡ false
    → is_pending_step t ≡ false
    → is_terminal_step t ≡ true
terminal_of t h k = ground arith

module _ (now : Time) (types : Types) where
  hold-Sure :
      (s : ExecutionStep) (b : Bool) (gone steps : List ExecutionStep) (db : Db)
      → Rest gone steps db
      → Sure (Rest gone steps) (
          (if b then write (hold_rollback_candidate s.execution_id s.n) >> pure tt else pure tt) db)
  unfolding write hold_rollback_candidate
  hold-Sure s true gone steps db r = record { table = r.table; found = r.found; closed = r.closed }
  hold-Sure s false gone steps db r = r

  crashed_step-Sure :
      (s : ExecutionStep) (gone steps : List ExecutionStep) (db : Db)
      → All (λ x. step_key x ≢ step_key s) steps
      → Rest gone (s ∷ steps) db
      → Sure (Rest (s ∷ gone) steps) (settle_crashed_step now types s db)
  unfolding settle_crashed_step
  crashed_step-Sure s gone steps db ne r =
      let effect = plain_effect types s in
      let Q = Rest (s ∷ gone) steps in
      elim (Bool-cases (is_dispatched s.status)) [
        | inl d ↦ rw d (
            Sure-go_on Q Q _ _
              (finish-Sure now StepStatus.failed (some effect) (some interrupted) s gone steps db
                refl (dispatched_failed effect s.status d) ne r)
              (λ u db' h.
                hold-Sure s (types.is_canary s.type && is_unknown effect) (s ∷ gone) steps db' h))
        | inr d ↦ rw d (elim (Bool-cases (is_pending_step s.status)) [
          | inl p ↦ rw p (
              finish-Sure now StepStatus.skipped none (some never_ran) s gone steps db refl
                (pending_skipped s.status (ground (arith, p)) d) ne r)
          | inr p ↦ rw p (record {
            table = r.table;
            found = r.found.1;
            closed = (
              marked_found s.execution_id s.n db.execution_steps s r.found.0
                  (terminal_of s.status d p),
              r.closed,
            );
          })
        ])
      ]

  crashed_steps-Sure :
      (gone steps : List ExecutionStep) (db : Db)
      → DistinctOn step_key steps
      → Rest gone steps db
      → Sure (Rest (reversed steps gone) []) (settle_crashed_steps now types steps db)
  unfolding settle_crashed_steps
  crashed_steps-Sure gone [] db d r = r
  crashed_steps-Sure gone (s ∷ steps) db d r =
      let Q = Rest (reversed steps (s ∷ gone)) [] in
      Sure-go_on (Rest (s ∷ gone) steps) Q (settle_crashed_step now types s db) _
        (crashed_step-Sure s gone steps db d.0 r)
        (λ e db' h. crashed_steps-Sure (s ∷ gone) steps db' d.1 h)

attempts-Sure :
    (now : Time) (execution : Text) (gone steps : List ExecutionStep) (db : Db)
    → Rest gone steps db
    → Sure (Rest gone steps) (write (settle_attempts now execution) db)
unfolding write settle_attempts
attempts-Sure now execution gone steps db r = record {
  table = r.table;
  found = r.found;
  closed = r.closed;
}

-- From a table of steps without duplicates: the settlement of a crashed execution returns, and each
-- step that the execution has is then in a terminal status.
pub crash_closes :
    (now : Time) (types : Types) (execution : Text) (db : Db)
    → DistinctOn step_key db.execution_steps
    → (returned (settle_crashed_execution now types execution db).0 ≡ true)
      × All
          (IsClosed (settle_crashed_execution now types execution db).1.execution_steps)
          (list_steps execution db)
unfolding settle_crashed_execution
crash_closes now types execution db d =
    let steps = list_steps execution db in
    let Q = Rest (reversed steps []) [] in
    let (fine, rest) = Sure-split Q (settle_crashed_execution now types execution db) (
      Sure-go_on Q Q (settle_crashed_steps now types steps db) _
        (crashed_steps-Sure now types [] steps db
          (distinct_select (λ s. s.execution_id == execution) db.execution_steps d)
          (record {
            table = d;
            found =
                All-select (IsFound db.execution_steps) (λ s. s.execution_id == execution)
                  db.execution_steps (each_by_key db.execution_steps d);
            closed = tt;
          }))
        (λ u db' h. attempts-Sure now execution (reversed steps []) [] db' h)) in
    (
      fine,
      (unreversed (IsClosed (settle_crashed_execution now types execution db).1.execution_steps)
          steps [] rest.closed).0,
    )
