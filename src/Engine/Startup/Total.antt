-- ===== src/Engine/Startup/Total.antt =====
-- `startup_reconcile` as a whole.
use planet_express.Prelude.{
  All-select, All-select, ◌≡◌, refl, sym, ◌≢◌, inl, inr, Bool, true, false, ◌&&◌, Option, List, [],
  ◌∷◌, arith, Bool-cases, ==_refl, select, All, DistinctOn,
}
use planet_express.Store.Rows.{Text, Time, ExecutionStep, Db}
use planet_express.Store.Tx.{Result, ok, err, write}
use planet_express.Store.Steps.{is_step}
use planet_express.Store.Steps.Machine.{step_key}
use planet_express.Store.Attempts.{reconcile_reserved_attempts}
use planet_express.Engine.Startup.{
  Types, settle_steps, unfinished_steps, is_open_step, startup_reconcile,
}
use planet_express.Engine.Startup.Closed.{
  IsFound, IsClosed, Rest, Sure, Sure-go_on, reversed, settle_steps-Sure, is_open, other_step,
}

abbrev pub returned : {A : Type 0} → Result A → Bool
returned (ok a) = true
returned (err e) = false

behind_first :
    (x : ExecutionStep) (rest ys : List ExecutionStep)
    → All (λ y. step_key y ≢ step_key x) ys
    → All (IsFound rest) ys
    → All (IsFound (x ∷ rest)) ys
behind_first x rest [] ne h = tt
behind_first x rest (y ∷ ys) ne h =
    (rw (other_step y x (λ e. ne.0 (sym e))) h.0, behind_first x rest ys ne.1 h.1)

own_step : (s : ExecutionStep) → is_step s.execution_id s.n s ≡ true
own_step s = rw (==_refl s.execution_id, ==_refl s.n) refl

pub each_by_key : (xs : List ExecutionStep) → DistinctOn step_key xs → All (IsFound xs) xs
each_by_key [] d = tt
each_by_key (x ∷ xs) d = (rw (own_step x) refl, behind_first x xs xs d.0 (each_by_key xs d.1))

pub distinct_select :
    (p : ExecutionStep → Bool) (xs : List ExecutionStep)
    → DistinctOn step_key xs
    → DistinctOn step_key (select p xs)
distinct_select p [] d = tt
distinct_select p (x ∷ xs) d = elim (Bool-cases (p x)) [
  | inl e ↦ rw e (All-select (λ y. step_key y ≢ step_key x) p xs d.0, distinct_select p xs d.1)
  | inr e ↦ rw e (distinct_select p xs d.1)
]

and_left : (a b : Bool) → (a && b) ≡ true → a ≡ true
and_left a b h = ground arith

open_selected :
    (db : Db) (xs : List ExecutionStep) → All (λ s. is_open s ≡ true) (select (is_open_step db) xs)
open_selected db [] = tt
open_selected db (x ∷ xs) = elim (Bool-cases (is_open_step db x)) [
  | inl e ↦ rw e (and_left (is_open x) _ e, open_selected db xs)
  | inr e ↦ rw e (open_selected db xs)
]

pub unreversed :
    (P : ExecutionStep → Type 0) (steps gone : List ExecutionStep)
    → All P (reversed steps gone)
    → All P steps × All P gone
unreversed P [] gone h = (tt, h)
unreversed P (s ∷ steps) gone h = let (a, b) = unreversed P steps (s ∷ gone) h in ((b.0, a), b.1)

pub Sure-split :
    {A : Type 0} (P : Db → Type 0) (out : Result A × Db)
    → Sure P out
    → (returned out.0 ≡ true) × P out.1
Sure-split P (ok a, db) h = (refl, h)
Sure-split P (err e, db) h = absurd h

reconciled :
    (now : Time) (gone steps : List ExecutionStep) (db : Db)
    → Rest gone steps db
    → Sure (Rest gone steps) (write (reconcile_reserved_attempts now) db)
unfolding write reconcile_reserved_attempts
reconciled now gone steps db r = record { table = r.table; found = r.found; closed = r.closed }

-- From a table of steps without duplicates: the reconciliation at a start of the core returns, and
-- each step that was pending or dispatched under an execution that was running or verifying has a row
-- in a terminal status afterwards.
pub startup_closes :
    (now : Time) (types : Types) (image : ExecutionStep → Option Text) (db : Db)
    → DistinctOn step_key db.execution_steps
    → (returned (startup_reconcile now types image db).0 ≡ true)
      × All
          (IsClosed (startup_reconcile now types image db).1.execution_steps)
          (unfinished_steps db)
unfolding startup_reconcile
startup_closes now types image db d =
    let steps = unfinished_steps db in
    let Q = Rest (reversed steps []) [] in
    let (fine, rest) = Sure-split Q (startup_reconcile now types image db) (
      Sure-go_on Q Q (settle_steps now types image steps db) _
        (settle_steps-Sure now types image [] steps db (open_selected db db.execution_steps)
          (distinct_select (is_open_step db) db.execution_steps d)
          (record {
            table = d;
            found =
                All-select (IsFound db.execution_steps) (is_open_step db) db.execution_steps
                  (each_by_key db.execution_steps d);
            closed = tt;
          }))
        (λ es db' h.
          Sure-go_on Q Q (write (reconcile_reserved_attempts now) db') _
            (reconciled now (reversed steps []) [] db' h) (λ c db'' h'. h'))) in
    (
      fine,
      (unreversed (IsClosed (startup_reconcile now types image db).1.execution_steps) steps []
          rest.closed).0,
    )
