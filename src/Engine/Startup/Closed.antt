-- ===== src/Engine/Startup/Closed.antt =====
-- A restart of the core closes every step that was left open, and does not fail on the way.
use planet_express.Engine.Marks.{finish_step-marked, marked}
use planet_express.Prelude.{
  ℕ, ◌≡◌, refl, ap, subst, ◌≢◌, inl, inr, Bool, true, false, ◌&&◌, ◌||◌, Option, none, some, List,
  [], ◌∷◌, arith, Bool-cases, find_row, update_where, All, All-map, find_row-update_where,
  DistinctOn, DistinctOn-update_where, DistinctOn-count_found,
}
use planet_express.Store.Rows.{Text, Time, ExecutionStep, StepStatus, Effect, Db}
use planet_express.Store.Tx.{Ensures, write-eq-ok, Result, ok, err, write}
use planet_express.Store.Steps.{
  finish_step, finish, is_pending_step, is_dispatched, is_step, allowed_from, is_terminal_step,
  update_one_step,
}
use planet_express.Store.Steps.Machine.{key_of_step, step_key}
use planet_express.Store.Candidates.{close_rollback_candidate, hold_rollback_candidate}
use planet_express.Engine.Programs.{Prog, go_on}
use planet_express.Engine.Scripts.{is_unknown}
use planet_express.Engine.Startup.{
  Types, interrupted_effect, settle_window, settle_step, settle_steps, interrupted, never_ran,
}

-- The row is the one that its key finds.
abbrev pub IsFound : List ExecutionStep → ExecutionStep → Type 0
IsFound rows s = find_row (is_step s.execution_id s.n) rows ≡ some s

-- The step of the row has a row in a terminal status.
abbrev pub IsClosed : List ExecutionStep → ExecutionStep → Type 0
IsClosed rows s = marked is_terminal_step s.execution_id s.n rows ≡ true

-- The database after a `finish_step` of the row that it finds.
abbrev finished_db : Time → StepStatus → Option Effect → Option Text → ExecutionStep → Db → Db
finished_db now t f why s db = record db {
  execution_steps =
      update_where (λ x. is_step s.execution_id s.n x && allowed_from t f x.status)
        (finish now t f none why) db.execution_steps;
}

finish_step-found :
    (now : Time) (t : StepStatus) (f : Option Effect) (why : Option Text) (s : ExecutionStep)
    (db : Db)
    → DistinctOn step_key db.execution_steps
    → IsFound db.execution_steps s
    → is_terminal_step t ≡ true
    → allowed_from t f s.status ≡ true
    → write (finish_step now s.execution_id s.n t f none why) db
      ≡ (ok tt, finished_db now t f why s db)
unfolding write finish_step update_one_step
finish_step-found now t f why s db d found final allowed = ground (
  arith,
  final,
  allowed,
  DistinctOn-count_found step_key (s.execution_id, s.n) (is_step s.execution_id s.n)
      (λ (x : ExecutionStep). allowed_from t f x.status) db.execution_steps s (λ x e. ground arith)
      d found,
)

pub other_step :
    (s x : ExecutionStep) → step_key x ≢ step_key s → is_step s.execution_id s.n x ≡ false
other_step s x ne = elim (Bool-cases (is_step s.execution_id s.n x)) [
  | inl e ↦ absurd (ne (key_of_step s.execution_id s.n x e))
  | inr e ↦ e
]

-- The other rows are found as before.
finished_other :
    (now : Time) (t : StepStatus) (f : Option Effect) (why : Option Text) (s x : ExecutionStep)
    (db : Db)
    → step_key x ≢ step_key s
    → IsFound db.execution_steps x
    → IsFound (finished_db now t f why s db).execution_steps x
finished_other now t f why s x db ne found =
    rw
      (find_row-update_where (is_step x.execution_id x.n)
        (λ y. is_step s.execution_id s.n y && allowed_from t f y.status) (finish now t f none why)
        db.execution_steps (λ y. refl))
      (rw (found, other_step s x ne) refl)

finished_others :
    (now : Time) (t : StepStatus) (f : Option Effect) (why : Option Text) (s : ExecutionStep)
    (steps : List ExecutionStep) (db : Db)
    → All (λ x. step_key x ≢ step_key s) steps
    → All (IsFound db.execution_steps) steps
    → All (IsFound (finished_db now t f why s db).execution_steps) steps
finished_others now t f why s [] db ne h = tt
finished_others now t f why s (x ∷ steps) db ne h =
    (finished_other now t f why s x db ne.0 h.0, finished_others now t f why s steps db ne.1 h.1)

-- The rows that remain are found by their keys, and those before them are in a terminal status.
pub record Rest (gone steps : List ExecutionStep) (db : Db) : Type 0 where
  pub table : DistinctOn step_key db.execution_steps
  pub found : All (IsFound db.execution_steps) steps
  pub closed : All (IsClosed db.execution_steps) gone

finished_mark :
    (now : Time) (t : StepStatus) (f : Option Effect) (why : Option Text) (s : ExecutionStep)
    (e : Text) (n : ℕ) (xs : List ExecutionStep)
    → is_terminal_step t ≡ true
    → marked is_terminal_step e n xs ≡ true
    → marked is_terminal_step e n (
        update_where
          (λ x. is_step s.execution_id s.n x && allowed_from t f x.status)
          (finish now t f none why)
          xs)
      ≡ true
finished_mark now t f why s e n [] final h = h
finished_mark now t f why s e n (x ∷ xs) final h =
    ground (arith, final, finished_mark now t f why s e n xs final)

finished-IsClosed :
    (now : Time) (t : StepStatus) (f : Option Effect) (why : Option Text) (s : ExecutionStep)
    (db : Db) (gone : List ExecutionStep)
    → is_terminal_step t ≡ true
    → All (IsClosed db.execution_steps) gone
    → All (IsClosed (finished_db now t f why s db).execution_steps) gone
finished-IsClosed now t f why s db gone final =
    All-map (IsClosed db.execution_steps) (IsClosed (finished_db now t f why s db).execution_steps)
      gone (λ x h. finished_mark now t f why s x.execution_id x.n db.execution_steps final h)

-- The row itself is closed.
itself-IsClosed :
    (now : Time) (t : StepStatus) (f : Option Effect) (why : Option Text) (s : ExecutionStep)
    (db : Db)
    → is_terminal_step t ≡ true
    → write (finish_step now s.execution_id s.n t f none why) db
      ≡ (ok tt, finished_db now t f why s db)
    → IsClosed (finished_db now t f why s db).execution_steps s
itself-IsClosed now t f why s db final e =
    let m = finish_step now s.execution_id s.n t f none why in
    subst (λ (out : Result (Unit {0}) × Db). IsClosed out.1.execution_steps s) e
      (subst (Ensures (λ _ db'. IsClosed db'.execution_steps s))
        (write-eq-ok m db tt (ap (λ (out : Result (Unit {0}) × Db). out.0) e))
        (finish_step-marked is_terminal_step s.execution_id s.n now t f none why db final))

-- A program that returns, in a state where `Q` holds.
abbrev pub Sure : {A : Type 0} → (Db → Type 0) → Result A × Db → Type 0
Sure Q (ok a, db) = Q db
Sure Q (err e, db) = ⊥

pub Sure-go_on :
    {A B : Type 0} (P Q : Db → Type 0) (m : Result A × Db) (f : A → Prog B)
    → Sure P m
    → ((a : A) (db : Db) → P db → Sure Q (f a db))
    → Sure Q (go_on m f)
Sure-go_on P Q (ok a, db) f h k = k a db h
Sure-go_on P Q (err e, db) f h k = absurd h

settle_window-Sure :
    (now : Time) (types : Types) (s : ExecutionStep) (effect : Effect)
    (gone steps : List ExecutionStep) (db : Db)
    → Rest gone steps db
    → Sure (Rest gone steps) (settle_window now types s effect db)
unfolding settle_window write hold_rollback_candidate close_rollback_candidate
settle_window-Sure now types s effect gone steps db r = elim (Bool-cases (types.is_canary s.type)) [
  | inr c ↦ rw c r
  | inl c ↦ elim (Bool-cases (is_unknown effect)) [
    | inl u ↦ rw (c, u) (record { table = r.table; found = r.found; closed = r.closed })
    | inr u ↦ rw (c, u) (record { table = r.table; found = r.found; closed = r.closed })
  ]
]

pub finish-Sure :
    (now : Time) (t : StepStatus) (f : Option Effect) (why : Option Text) (s : ExecutionStep)
    (gone steps : List ExecutionStep) (db : Db)
    → is_terminal_step t ≡ true
    → allowed_from t f s.status ≡ true
    → All (λ x. step_key x ≢ step_key s) steps
    → Rest gone (s ∷ steps) db
    → Sure (Rest (s ∷ gone) steps) (write (finish_step now s.execution_id s.n t f none why) db)
finish-Sure now t f why s gone steps db final allowed ne r =
    let e = finish_step-found now t f why s db r.table r.found.0 final allowed in
    rw e (record {
      table =
          DistinctOn-update_where step_key _ (finish now t f none why) db.execution_steps
            (λ x h. refl) r.table;
      found = finished_others now t f why s steps db ne r.found.1;
      closed = (
        itself-IsClosed now t f why s db final e,
        finished-IsClosed now t f why s db gone final r.closed,
      );
    })

pub dispatched_failed :
    (e : Effect) (t : StepStatus)
    → is_dispatched t ≡ true
    → allowed_from StepStatus.failed (some e) t ≡ true
dispatched_failed e t h = ground arith

pub pending_skipped :
    (t : StepStatus)
    → (is_pending_step t || is_dispatched t) ≡ true
    → is_dispatched t ≡ false
    → allowed_from StepStatus.skipped none t ≡ true
pending_skipped t h k = ground arith

abbrev pub is_open : ExecutionStep → Bool
is_open s = is_pending_step s.status || is_dispatched s.status

abbrev pub reversed : List ExecutionStep → List ExecutionStep → List ExecutionStep
reversed [] gone = gone
reversed (s ∷ steps) gone = reversed steps (s ∷ gone)

module _ (now : Time) (types : Types) (image : ExecutionStep → Option Text) where
  settle_step-Sure :
      (s : ExecutionStep) (gone steps : List ExecutionStep) (db : Db)
      → is_open s ≡ true
      → All (λ x. step_key x ≢ step_key s) steps
      → Rest gone (s ∷ steps) db
      → Sure (Rest (s ∷ gone) steps) (settle_step now types image s db)
  unfolding settle_step
  settle_step-Sure s gone steps db was ne r =
      let effect = interrupted_effect types image s in
      let Q = Rest (s ∷ gone) steps in
      elim (Bool-cases (is_dispatched s.status)) [
        | inl d ↦ rw d (
            Sure-go_on Q Q _ _
              (Sure-go_on Q Q _ _
                (finish-Sure now StepStatus.failed (some effect) (some interrupted) s gone steps db
                  refl (dispatched_failed effect s.status d) ne r)
                (λ u db' h. settle_window-Sure now types s effect (s ∷ gone) steps db' h))
              (λ u db' h. h))
        | inr d ↦ rw d (
            Sure-go_on Q Q _ _
              (finish-Sure now StepStatus.skipped none (some never_ran) s gone steps db refl
                (pending_skipped s.status was d) ne r)
              (λ u db' h. h))
      ]

  pub settle_steps-Sure :
      (gone steps : List ExecutionStep) (db : Db)
      → All (λ s. is_open s ≡ true) steps
      → DistinctOn step_key steps
      → Rest gone steps db
      → Sure (Rest (reversed steps gone) []) (settle_steps now types image steps db)
  unfolding settle_steps
  settle_steps-Sure gone [] db was d r = r
  settle_steps-Sure gone (s ∷ steps) db was d r =
      let Q = Rest (reversed steps (s ∷ gone)) [] in
      Sure-go_on (Rest (s ∷ gone) steps) Q (settle_step now types image s db) _
        (settle_step-Sure s gone steps db was.0 d.0 r)
        (λ e db' h.
          Sure-go_on Q Q (settle_steps now types image steps db') _
            (settle_steps-Sure (s ∷ gone) steps db' was.1 d.1 h) (λ es db'' h'. h'))
