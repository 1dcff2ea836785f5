-- ===== src/Store/Steps/Machine.antt =====
-- The state machine of a step, over any sequence of the operations of `Store.Steps`.
use planet_express.Prelude.{
  ℕ, ◌+◌, ◌≡◌, refl, sym, ap, ◌∙◌, ◌≢◌, inl, inr, Bool, true, false, ◌&&◌, Option, none, some, List,
  [], ◌∷◌, ◌++◌, arith, is_some, Option-cases, find_row, update_where, All, All-intro, All-map,
  find_row_fits, Evolves, Evolves-refl, Evolves-append, Evolves-update_where, Evolves-trans,
  DistinctOn, DistinctOn-update_where, DistinctOn-append, DistinctOn-found,
}
use planet_express.Store.Rows.{Text, Time, Dict, ExecutionStep, StepStatus, Effect, Db}
use planet_express.Store.Keeps.{Keeps, Keeps-bind, Keeps-guard}
use planet_express.Store.Steps.{
  StepSpec, is_step, insert_step, insert_steps, create_steps, update_one_step, set_step_pre_state,
  note_step_progress, mark_step_dispatched, finish_step, finish, allowed_from, is_terminal_step,
  is_pending_step, is_dispatched, new_step, value_error, merge,
}

-- The moves of the diagram, any number of them.
abbrev pub may_become : StepStatus → StepStatus → Bool
may_become StepStatus.pending t = true
may_become StepStatus.dispatched t = elim t [
  | StepStatus.dispatched ↦ true
  | StepStatus.passed ↦ true
  | StepStatus.failed ↦ true
  | StepStatus.pending ↦ false
  | StepStatus.skipped ↦ false
  | StepStatus.aborted ↦ false
]
may_become StepStatus.passed t = elim t [ StepStatus.passed ↦ true | _ ↦ false ]
may_become StepStatus.failed t = elim t [ StepStatus.failed ↦ true | _ ↦ false ]
may_become StepStatus.skipped t = elim t [ StepStatus.skipped ↦ true | _ ↦ false ]
may_become StepStatus.aborted t = elim t [ StepStatus.aborted ↦ true | _ ↦ false ]

-- What the columns of a row say of its status: a step that was never dispatched and failed has
-- changed nothing.
pub record IsOrderly (s : ExecutionStep) : Type 0 where
  pub started : is_dispatched s.status ≡ true → is_some s.started_at ≡ true
  pub passed : s.status ≡ StepStatus.passed → is_some s.started_at ≡ true
  pub pending : is_pending_step s.status ≡ true → s.started_at ≡ none
  pub skipped : s.status ≡ StepStatus.skipped → s.started_at ≡ none
  pub aborted : s.status ≡ StepStatus.aborted → s.started_at ≡ none
  pub finished : is_some s.finished_at ≡ is_terminal_step s.status
  pub refused :
      s.status ≡ StepStatus.failed → s.started_at ≡ none → s.effect ≡ some Effect.not_applied

pub record Moves (a b : ExecutionStep) : Type 0 where
  pub execution_id : b.execution_id ≡ a.execution_id
  pub n : b.n ≡ a.n
  pub type : b.type ≡ a.type
  pub params : b.params ≡ a.params
  pub binding : b.binding ≡ a.binding
  pub status : may_become a.status b.status ≡ true
  pub terminal : is_terminal_step a.status ≡ true → b ≡ a
  pub orderly : IsOrderly a → IsOrderly b

Moves-refl : (a : ExecutionStep) → Moves a a
Moves-refl a = record {
  execution_id = refl;
  n = refl;
  type = refl;
  params = refl;
  binding = refl;
  status = ground arith;
  terminal = λ h. refl;
  orderly = λ h. h;
}

may_become_trans :
    (a b c : StepStatus) → may_become a b ≡ true → may_become b c ≡ true → may_become a c ≡ true
may_become_trans a b c h k = ground arith

Moves-trans : (a b c : ExecutionStep) → Moves a b → Moves b c → Moves a c
Moves-trans a b c p q = record {
  execution_id = cc;
  n = cc;
  type = cc;
  params = cc;
  binding = cc;
  status = may_become_trans a.status b.status c.status p.status q.status;
  terminal = λ h. q.terminal (rw (p.terminal h) h) ∙ p.terminal h;
  orderly = λ h. q.orderly (p.orderly h);
}

abbrev pub step_key : ExecutionStep → Text × ℕ
step_key s = (s.execution_id, s.n)

-- The steps of `db` are those of `rows`, moved on, and orderly new ones behind them; and no two have
-- the same execution and number.
pub record Progress (rows : List ExecutionStep) (db : Db) : Type 0 where
  pub history : Evolves Moves IsOrderly rows db.execution_steps
  pub distinct : DistinctOn step_key db.execution_steps

Progress-trans :
    (xs ys zs : List ExecutionStep)
    → Evolves Moves IsOrderly xs ys
    → Evolves Moves IsOrderly ys zs
    → Evolves Moves IsOrderly xs zs
Progress-trans = Evolves-trans Moves IsOrderly Moves-trans (λ a b h e. e.orderly h)

pub Progress-refl :
    (db : Db) → DistinctOn step_key db.execution_steps → Progress db.execution_steps db
Progress-refl db d = record {
  history = Evolves-refl Moves IsOrderly Moves-refl db.execution_steps;
  distinct = d;
}

new_step-IsOrderly : (e : Text) (n : ℕ) (spec : StepSpec) → IsOrderly (new_step e n spec)
new_step-IsOrderly e n spec = ground arith

same_step : (s t : ExecutionStep) → is_step s.execution_id s.n t ≡ false → step_key t ≢ step_key s
same_step s t h e = ground (arith, ap (λ (k : Text × ℕ). k.0) e, ap (λ (k : Text × ℕ). k.1) e)

pub key_of_step :
    (e : Text) (n : ℕ) (s : ExecutionStep) → is_step e n s ≡ true → step_key s ≡ (e, n)
key_of_step e n s h = ground arith

noted_pending :
    (s : ExecutionStep) (d : Option Dict)
    → is_pending_step s.status ≡ true
    → Moves s (record s { pre_state = d })
noted_pending s d h = ground arith

noted_dispatched :
    (s : ExecutionStep) (d : Option Dict)
    → is_dispatched s.status ≡ true
    → Moves s (record s { pre_state = d })
noted_dispatched s d h = ground arith

dispatched_pending :
    (now : Time) (s : ExecutionStep)
    → is_pending_step s.status ≡ true
    → Moves s (record s { status = StepStatus.dispatched; started_at = some now })
dispatched_pending now s h = ground arith

finished_allowed :
    (now : Time) (t : StepStatus) (f : Option Effect) (o r : Option Text) (s : ExecutionStep)
    → allowed_from t f s.status ≡ true
    → Moves s (finish now t f o r s)
finished_allowed now t f o r s h = ground arith

only_noted :
    (e : Text) (n : ℕ) (a s : ExecutionStep) (d : Option Dict)
    → (is_step e n a && is_dispatched a.status) ≡ true
    → (step_key s ≡ step_key a → s ≡ a)
    → is_step e n s ≡ true
    → Moves s (record s { pre_state = d })
only_noted e n a s d hit only q =
    noted_dispatched s d
      (rw (only (key_of_step e n s q ∙ sym (key_of_step e n a (ground arith)))) (ground arith))

module _ (rows : List ExecutionStep) where
  update-Progress :
      (p : ExecutionStep → Bool) (f : ExecutionStep → ExecutionStep) (db : Db)
      → ((s : ExecutionStep) → step_key (f s) ≡ step_key s)
      → All (λ s. p s ≡ true → Moves s (f s)) db.execution_steps
      → Progress rows db
      → Progress rows (record db { execution_steps = update_where p f db.execution_steps })
  update-Progress p f db k h e = record {
    history =
        Progress-trans rows db.execution_steps (update_where p f db.execution_steps) e.history
          (Evolves-update_where Moves IsOrderly Moves-refl p f db.execution_steps h);
    distinct = DistinctOn-update_where step_key p f db.execution_steps (λ s _. k s) e.distinct;
  }

  update_one_step-Progress :
      (p : ExecutionStep → Bool) (f : ExecutionStep → ExecutionStep)
      → ((s : ExecutionStep) → step_key (f s) ≡ step_key s)
      → ((s : ExecutionStep) → p s ≡ true → Moves s (f s))
      → Keeps (Progress rows) (update_one_step p f)
  unfolding update_one_step
  update_one_step-Progress p f k h = record {
    at = λ db e. ground (
      arith,
      update-Progress p f db k (All-intro (λ s. p s ≡ true → Moves s (f s)) db.execution_steps h) e,
    );
  }

  append-Progress :
      (s : ExecutionStep) (db : Db)
      → IsOrderly s
      → find_row (is_step s.execution_id s.n) db.execution_steps ≡ none
      → Progress rows db
      → Progress rows (record db { execution_steps = db.execution_steps ++ s ∷ [] })
  append-Progress s db h new e = record {
    history =
        Progress-trans rows db.execution_steps (db.execution_steps ++ s ∷ []) e.history
          (Evolves-append Moves IsOrderly Moves-refl db.execution_steps (s ∷ []) (h, tt));
    distinct =
        DistinctOn-append step_key (is_step s.execution_id s.n) db.execution_steps s (same_step s)
          new e.distinct;
  }

  insert_step-Progress : (s : ExecutionStep) → IsOrderly s → Keeps (Progress rows) (insert_step s)
  unfolding insert_step
  insert_step-Progress s h = record {
    at = λ db e. elim (Option-cases (find_row (is_step s.execution_id s.n) db.execution_steps)) [
      | inl new ↦ ground (arith, new, append-Progress s db h new e)
      | inr (t, old) ↦ rw old tt
    ];
  }

  insert_steps-Progress :
      (e : Text) (n : ℕ) (specs : List StepSpec) → Keeps (Progress rows) (insert_steps e n specs)
  unfolding insert_steps
  insert_steps-Progress e n [] = record { at = λ db h. h }
  insert_steps-Progress e n (spec ∷ specs) =
      Keeps-bind (insert_step (new_step e n spec)) _
        (insert_step-Progress (new_step e n spec) (new_step-IsOrderly e n spec))
        (λ _. insert_steps-Progress e (n + 1) specs)

  pub create_steps-Progress :
      (e : Text) (specs : List StepSpec) → Keeps (Progress rows) (create_steps e specs)
  create_steps-Progress e specs = unfold create_steps in insert_steps-Progress e 1 specs

  pub set_step_pre_state-Progress :
      (e : Text) (n : ℕ) (d : Dict) → Keeps (Progress rows) (set_step_pre_state e n d)
  set_step_pre_state-Progress e n d =
      unfold set_step_pre_state in
      update_one_step-Progress _ _ (λ s. refl) (λ s h. noted_pending s (some d) (ground arith))

  pub mark_step_dispatched-Progress :
      (now : Time) (e : Text) (n : ℕ) → Keeps (Progress rows) (mark_step_dispatched now e n)
  mark_step_dispatched-Progress now e n =
      unfold mark_step_dispatched in
      update_one_step-Progress _ _ (λ s. refl) (λ s h. dispatched_pending now s (ground arith))

  pub finish_step-Progress :
      (now : Time) (e : Text) (n : ℕ) (t : StepStatus) (f : Option Effect) (o r : Option Text)
      → Keeps (Progress rows) (finish_step now e n t f o r)
  unfolding finish_step
  finish_step-Progress now e n t f o r =
      Keeps-bind _ _ (Keeps-guard (is_terminal_step t) value_error) λ _.
        update_one_step-Progress _ _ (λ s. refl)
          (λ s h. finished_allowed now t f o r s (ground arith))

  pub note_step_progress-Progress :
      (e : Text) (n : ℕ) (d : Dict) → Keeps (Progress rows) (note_step_progress e n d)
  unfolding note_step_progress
  note_step_progress-Progress e n d = record {
    at = λ db h.
        elim (Option-cases
          (find_row (λ s. is_step e n s && is_dispatched s.status) db.execution_steps)) [
            | inl miss ↦ rw miss tt
            | inr (a, hit) ↦ rw hit (
                update-Progress (is_step e n)
                  (λ s. record s { pre_state = some (merge s.pre_state d) }) db (λ s. refl)
                  (All-map (λ s. step_key s ≡ step_key a → s ≡ a) _ db.execution_steps
                    (λ s only q.
                      only_noted e n a s _ (find_row_fits _ db.execution_steps a hit) only q)
                    (DistinctOn-found step_key _ db.execution_steps a h.distinct hit))
                  h)
          ];
  }
