-- ===== src/Engine/Marks.antt =====
-- Which steps of an execution have a row in a final status, and that no operation takes it away.
use planet_express.Prelude.{
  and_right, and_right, ℕ, ◌≡◌, refl, sym, ◌∙◌, subst, ◌⊎◌, inl, inr, Bool, true, false, ◌&&◌, ◌||◌,
  Option, none, some, List, [], ◌∷◌, arith, ◌==◌, is_some, Bool-cases, find_row, count_where,
  update_where, Evolves, found_of_count, DistinctOn,
}
use planet_express.Store.Rows.{
  RollbackCandidate, Text, Time, ExecutionStep, StepStatus, Effect, ExecutionStatus, Db, Execution,
}
use planet_express.Store.Keeps.{Keeps, Keeps-bind, Keeps-gets}
use planet_express.Store.Tx.{Tx, Ensures, Ensures-map, Result, ok, err, event}
use planet_express.Store.Executions.{set_execution_status, move_execution, clashes}
use planet_express.Store.Steps.{
  is_step, update_one_step, finish_step, finish, allowed_from, is_terminal_step,
}
use planet_express.Store.Steps.Machine.{
  IsOrderly, Moves, Progress, Progress-refl, step_key, finish_step-Progress,
}
use planet_express.Store.Candidates.{
  open_rollback_candidate, close_rollback_candidate, hold_rollback_candidate,
}
use planet_express.Store.Attempts.{consume_attempt, release_attempts}

-- The row of the step `n` is in a status that is `good`.
abbrev pub is_marked : (StepStatus → Bool) → Text → ℕ → ExecutionStep → Bool
is_marked good e n s = is_step e n s && good s.status

abbrev pub marked : (StepStatus → Bool) → Text → ℕ → List ExecutionStep → Bool
marked good e n rows = is_some (find_row (is_marked good e n) rows)

-- The steps that `P` names are marked, and no two rows have the same execution and number.
pub record Marks (good : StepStatus → Bool) (e : Text) (P : ℕ → Type 0) (rows : List ExecutionStep)
    : Type 0 where
  pub distinct : DistinctOn step_key rows
  pub done : (n : ℕ) → P n → marked good e n rows ≡ true

pub marked_cons :
    (good : StepStatus → Bool) (e : Text) (n : ℕ) (x : ExecutionStep) (xs : List ExecutionStep)
    → marked good e n (x ∷ xs) ≡ (is_marked good e n x || marked good e n xs)
marked_cons good e n x xs = ground arith

moved_mark :
    (good : StepStatus → Bool) (e : Text) (n : ℕ) (a b : ExecutionStep)
    → ((t : StepStatus) → good t ≡ true → is_terminal_step t ≡ true)
    → Moves a b
    → is_marked good e n a ≡ true
    → is_marked good e n b ≡ true
moved_mark good e n a b final m h =
    rw (m.terminal (final a.status (and_right (is_step e n a) (good a.status) h))) h

pub or_mono :
    (a b c d : Bool)
    → (a ≡ true → c ≡ true)
    → (b ≡ true → d ≡ true)
    → (a || b) ≡ true
    → (c || d) ≡ true
or_mono true b c d f g h = rw (f refl) refl
or_mono false b true d f g h = refl
or_mono false b false d f g h = g h

marked-Evolves :
    (good : StepStatus → Bool) (e : Text) (n : ℕ) (xs ys : List ExecutionStep)
    → ((t : StepStatus) → good t ≡ true → is_terminal_step t ≡ true)
    → Evolves Moves IsOrderly xs ys
    → marked good e n xs ≡ true
    → marked good e n ys ≡ true
marked-Evolves good e n [] ys final h m = cc
marked-Evolves good e n (x ∷ xs) [] final h m = absurd h
marked-Evolves good e n (x ∷ xs) (y ∷ ys) final h m =
    marked_cons good e n y ys
    ∙ or_mono (is_marked good e n x) (marked good e n xs) (is_marked good e n y)
        (marked good e n ys) (moved_mark good e n x y final h.0)
        (marked-Evolves good e n xs ys final h.1) (sym (marked_cons good e n x xs) ∙ m)

or_right : (a b : Bool) → b ≡ true → (a || b) ≡ true
or_right a b h = ground arith

marked-update :
    (good : StepStatus → Bool) (e : Text) (n : ℕ) (p : ExecutionStep → Bool)
    (f : ExecutionStep → ExecutionStep) (xs : List ExecutionStep) (a : ExecutionStep)
    → ((s : ExecutionStep) → p s ≡ true → is_marked good e n (f s) ≡ true)
    → find_row p xs ≡ some a
    → marked good e n (update_where p f xs) ≡ true
marked-update good e n p f [] a h q = cc
marked-update good e n p f (x ∷ xs) a h q = elim (Bool-cases (p x)) [
  | inl t ↦ rw (t, h x t) refl
  | inr t ↦ rw t (
      marked_cons good e n x (update_where p f xs)
      ∙ or_right (is_marked good e n x) (marked good e n (update_where p f xs))
          (marked-update good e n p f xs a h (cc (t, q))))
]

finished_mark :
    (good : StepStatus → Bool) (e : Text) (n : ℕ) (now : Time) (t : StepStatus) (f : Option Effect)
    (o r : Option Text) (s : ExecutionStep)
    → good t ≡ true
    → (is_step e n s && allowed_from t f s.status) ≡ true
    → is_marked good e n (finish now t f o r s) ≡ true
finished_mark good e n now t f o r s g h = ground arith

pub finish_step-marked :
    (good : StepStatus → Bool) (e : Text) (n : ℕ) (now : Time) (t : StepStatus) (f : Option Effect)
    (o r : Option Text) (db : Db)
    → good t ≡ true
    → Ensures (λ _ db'. marked good e n db'.execution_steps ≡ true) (finish_step now e n t f o r db)
unfolding finish_step update_one_step
finish_step-marked good e n now t f o r db g =
    let p = λ (s : ExecutionStep). is_step e n s && allowed_from t f s.status in
    elim (Bool-cases (is_terminal_step t)) [
      | inr final ↦ rw final tt
      | inl final ↦ rw final (elim (Bool-cases (count_where p db.execution_steps == 1)) [
        | inr miss ↦ rw miss tt
        | inl one ↦ rw one (
            let (a, found) = found_of_count p db.execution_steps (ground (arith, one)) in
            marked-update good e n p (finish now t f o r) db.execution_steps a
              (λ s h. finished_mark good e n now t f o r s g h) found)
      ])
    ]

Ensures-both :
    {A : Type 0} (P Q : A → Db → Type 0) (m : Result (A × Db))
    → Ensures P m
    → Ensures Q m
    → Ensures (λ a db. P a db × Q a db) m
Ensures-both P Q (ok (a, db)) p q = (p, q)
Ensures-both P Q (err e) p q = tt

module _ (good : StepStatus → Bool) (e : Text)
    (final : (t : StepStatus) → good t ≡ true → is_terminal_step t ≡ true) where
  abbrev pub Marked : (ℕ → Type 0) → Db → Type 0
  Marked P db = Marks good e P db.execution_steps

  pub Progress-Marked :
      (P : ℕ → Type 0) (db db' : Db) → Marked P db → Progress db.execution_steps db' → Marked P db'
  Progress-Marked P db db' b p = record {
    distinct = p.distinct;
    done = λ n h.
        marked-Evolves good e n db.execution_steps db'.execution_steps final p.history (b.done n h);
  }

  pub step-Marked :
      {A : Type 0} (P : ℕ → Type 0) (m : Tx A)
      → ((rows : List ExecutionStep) → Keeps (Progress rows) m)
      → Keeps (Marked P) m
  step-Marked P m h = record {
    at = λ db b.
        Ensures-map (m db) ((h db.execution_steps).at db (Progress-refl db b.distinct))
          (λ a db' p. Progress-Marked P db db' b p);
  }

  pub finish_step-Marks :
      (P : ℕ → Type 0) (n : ℕ) (now : Time) (t : StepStatus) (f : Option Effect) (o r : Option Text)
      (db : Db)
      → good t ≡ true
      → Marked P db
      → Ensures (λ _. Marked (λ m. P m ⊎ (m ≡ n))) (finish_step now e n t f o r db)
  finish_step-Marks P n now t f o r db g b =
      Ensures-map (finish_step now e n t f o r db)
        (Ensures-both _ _ (finish_step now e n t f o r db)
          ((step-Marked P _ (λ rows. finish_step-Progress rows now e n t f o r)).at db b)
          (finish_step-marked good e n now t f o r db g))
        (λ u db' q. record {
          distinct = q.0.distinct;
          done = λ m h. elim h [
            | inl p ↦ q.0.done m p
            | inr same ↦ subst (λ k. marked good e k db'.execution_steps ≡ true) (sym same) q.1
          ];
        })

  pub consume_attempt-Marked :
      (P : ℕ → Type 0) (now : Time) (x : Text) (n : ℕ) → Keeps (Marked P) (consume_attempt now x n)
  unfolding consume_attempt
  consume_attempt-Marked P now x n = record { at = λ db b. ground (arith, b) }

  pub release_attempts-Marked :
      (P : ℕ → Type 0) (now : Time) (x : Text) (ns : List ℕ)
      → Keeps (Marked P) (release_attempts now x ns)
  unfolding release_attempts
  release_attempts-Marked P now x ns = record { at = λ db b. b }

  move_execution-Marked :
      (P : ℕ → Type 0) (now : Time) (id : Text) (t : ExecutionStatus) (why : Option Text)
      (found : Option Execution)
      → Keeps (Marked P) (move_execution now id t why found)
  unfolding move_execution event
  move_execution-Marked P now id t why none = record { at = λ db b. tt }
  move_execution-Marked P now id t why (some x) = record {
    at = λ db b. elim (Bool-cases (clashes t x db.executions)) [ inl c ↦ rw c tt | inr c ↦ rw c b ];
  }

  pub set_execution_status-Marked :
      (P : ℕ → Type 0) (now : Time) (id : Text) (t : ExecutionStatus) (why : Option Text)
      → Keeps (Marked P) (set_execution_status now id t why)
  unfolding set_execution_status
  set_execution_status-Marked P now id t why =
      Keeps-bind _ _ (Keeps-gets _) (move_execution-Marked P now id t why)

  pub open-Marked :
      (P : ℕ → Type 0) (c : RollbackCandidate) → Keeps (Marked P) (open_rollback_candidate c)
  unfolding open_rollback_candidate
  open-Marked P c = record { at = λ db b. ground (arith, b) }

  pub close-Marked :
      (P : ℕ → Type 0) (now : Time) (x : Text) (n : ℕ)
      → Keeps (Marked P) (close_rollback_candidate now x n)
  unfolding close_rollback_candidate
  close-Marked P now x n = record { at = λ db b. b }

  pub hold-Marked :
      (P : ℕ → Type 0) (x : Text) (n : ℕ) → Keeps (Marked P) (hold_rollback_candidate x n)
  unfolding hold_rollback_candidate
  hold-Marked P x n = record { at = λ db b. b }
