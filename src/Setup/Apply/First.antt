-- ===== src/Setup/Apply/First.antt =====
-- Journal first: the host changes only while the journal says that a step of the plan has started.
use mathlib.Core.List.{append_assoc}
use planet_express.Setup.Cells.{IsCovered}
use planet_express.Setup.Journal.{new_event, last_seq}
use planet_express.Setup.Apply.Rounds.{Settles-run_step}
use planet_express.Prelude.{
  ℕ, ◌<◌, ◌≡◌, sym, subst, inl, inr, true, List, [], ◌∷◌, ◌++◌, arith, count_where, All,
}
use planet_express.Setup.Events.{steps, steps-append, Event, fold_event}
use planet_express.Setup.Runs.{Step, Env, perform_all, perform, Deed, written, World, change, write}
use planet_express.Setup.Apply.{Plan, run, run_steps, is_in_flight, run_step}
use planet_express.Setup.Apply.Finish.{HasSafeId, round, Next-cases}

counted :
    (j : List Event) (pre : List Step) (s : Step) (rest : List Step)
    → is_in_flight (steps j s.id) ≡ true
    → 0 < count_where (λ t. is_in_flight (steps j t.id)) (pre ++ (s ∷ rest))
counted j [] s rest h = rw h (omega arith)
counted j (t ∷ pre) s rest h = omega (arith, counted j pre s rest h)

abbrev CountsIn : List Step → Step → Type 0
CountsIn all s =
    (j : List Event)
    → is_in_flight (steps j s.id) ≡ true
    → 0 < count_where (λ t. is_in_flight (steps j t.id)) all

each_counted : (pre ss : List Step) → All (CountsIn (pre ++ ss)) ss
each_counted pre [] = tt
each_counted pre (s ∷ rest) = (
  λ j h. counted j pre s rest h,
  subst (λ l. All (CountsIn l) rest) (append_assoc pre (s ∷ []) rest)
      (each_counted (pre ++ (s ∷ [])) rest),
)

-- How many steps of the plan the journal says are in flight.
abbrev pub in_flight : Plan → List Event → ℕ
in_flight p j = count_where (λ s. is_in_flight (steps j s.id)) p.steps

module _ {H : Type 0} (env : Env H) where
  abbrev deed : Deed H → World H → World H
  deed = perform env.redact env.clock

  -- `P` holds of the journal whenever the host is changed.
  abbrev IsGuarded : (List Event → Type 0) → World H → List (Deed H) → Type 0
  IsGuarded P w [] = Unit
  IsGuarded P w (change h ∷ ds) = P w.journal × IsGuarded P (deed (change h) w) ds
  IsGuarded P w (write b ∷ ds) = IsGuarded P (deed (write b) w) ds

  IsGuarded-append :
      (P : List Event → Type 0) (w : World H) (ds es : List (Deed H))
      → IsGuarded P w ds
      → IsGuarded P (perform_all env.redact env.clock ds w) es
      → IsGuarded P w (ds ++ es)
  unfolding perform_all
  IsGuarded-append P w [] es h k = k
  IsGuarded-append P w (change x ∷ ds) es h k =
      (h.0, IsGuarded-append P (deed (change x) w) ds es h.1 k)
  IsGuarded-append P w (write b ∷ ds) es h k = IsGuarded-append P (deed (write b) w) ds es h k

  guarded_at :
      (P : List Event → Type 0) (w : World H) (ds : List (Deed H)) (h : H) (es : List (Deed H))
      → IsGuarded P w (ds ++ (change h ∷ es))
      → P (perform_all env.redact env.clock ds w).journal
  unfolding perform_all
  guarded_at P w [] h es g = g.0
  guarded_at P w (change x ∷ ds) h es g = guarded_at P (deed (change x) w) ds h es g.1
  guarded_at P w (write b ∷ ds) h es g = guarded_at P (deed (write b) w) ds h es g

  IsGuarded-covered :
      (P : List Event → Type 0) (s : Step)
      → ((j : List Event) → is_in_flight (steps j s.id) ≡ true → P j)
      → (w : World H) (ds : List (Deed H)) → IsCovered env.redact s.id (steps w.journal s.id) ds
      → IsGuarded P w ds
  unfolding perform written fold_event new_event
  IsGuarded-covered P s k w [] c = tt
  IsGuarded-covered P s k w (change h ∷ ds) c =
      (k w.journal c.0, IsGuarded-covered P s k (deed (change h) w) ds c.1)
  IsGuarded-covered P s k w (write b ∷ ds) c = IsGuarded-covered P s k (deed (write b) w) ds (
      subst (λ x. IsCovered env.redact s.id x ds)
        (λ i.
          sym (steps-append w.journal (new_event env.redact env.clock (last_seq w.journal) b)) i
            s.id)
        c)

  IsGuarded-run_steps :
      (P : List Event → Type 0) (p : Plan) (ss : List Step) (w : World H)
      → All (HasSafeId env) ss
      → All (λ s. (j : List Event) → is_in_flight (steps j s.id) ≡ true → P j) ss
      → IsGuarded P w (run_steps p ss env w).deeds
  unfolding run_steps
  IsGuarded-run_steps P p [] w safe k = tt
  IsGuarded-run_steps P p (s ∷ rest) w safe k =
      let ds = (run_step s env w).deeds in
      let first = IsGuarded-covered P s k.0 w ds (Settles-run_step s env safe.0 w).covered in
      elim (Next-cases env (run_step s env w).answer) [
        | inl g ↦ rw g (
            IsGuarded-append P w ds (run_steps p rest env (round env s w)).deeds first
              (IsGuarded-run_steps P p rest (round env s w) safe.1 k.1))
        | inr (inl (r, g)) ↦ rw g (IsGuarded-append P w ds [] first tt)
        | inr (inr g) ↦ rw g (IsGuarded-append P w ds [] first tt)
      ]

  -- Whenever a run changes the host, the journal already says that a step of the plan is in flight:
  -- a run that dies at any moment leaves a record to reconcile from.
  pub run_journals_first :
      (p : Plan) (w : World H) (ds : List (Deed H)) (h : H) (es : List (Deed H))
      → All (HasSafeId env) p.steps
      → (run p env w).deeds ≡ ds ++ (change h ∷ es)
      → 0 < in_flight p (perform_all env.redact env.clock ds w).journal
  unfolding run perform_all
  run_journals_first p w ds h es safe e =
      guarded_at (λ j. 0 < in_flight p j) w ds h es
        (subst (IsGuarded (λ j. 0 < in_flight p j) w) e
          (IsGuarded-run_steps (λ j. 0 < in_flight p j) p p.steps _ safe (each_counted [] p.steps)))
