-- ===== src/Rollback/Sorted.antt =====
-- What `plan_rollback` of planet_express/execution/engine.py reverses, and on what evidence.
use planet_express.Prelude.{
  ℕ, ◌≡◌, refl, ap, ◌∙◌, subst, ◌⊎◌, inl, inr, Bool, true, false, ◌||◌, Option, none, some, List,
  [], ◌∷◌, map, ◌==◌, Bool-cases, Option-cases, select,
}
use mathlib.Core.List.{reverse}
use mathlib.Core.Option
use mathlib.Core.Option.{some-injective}
use planet_express.Store.Rows.{Text, Effect}
use planet_express.Policy.Catalogue.{
  StepKind, service_start, service_stop, unit_action, compose_write,
}
use planet_express.Rollback.Rows.{
  UnitAction, Row, Host, is_conditional, is_considered, now_effect, or_else,
}
use planet_express.Rollback.Plan.{
  Inverse, restores, switches, acts, RollbackPlan, Class, reversed, irreversible, unsure,
  left_alone, class_of, class_by, inverse_of, inverse_by, restore, switch, inverse_unit,
  fresh_effect, add_row, plan_rows, plan_rollback, label, is_the_staged_file, has_created_file,
  restore_of, no_steps, empty_plan,
}

abbrev is_class : Class → Class → Bool
is_class left_alone left_alone = true
is_class irreversible irreversible = true
is_class unsure unsure = true
is_class reversed reversed = true
is_class a b = false

-- The rows of a class, in their order.
abbrev pub of_class : (ℕ → Host) → Class → List Row → List Row
of_class at c rows = select (λ (r : Row). is_class c (class_of (at r.n) r)) rows

-- The step has acted on the host: the row says so, or it does not know and the host shows it.
abbrev pub HasActed : Host → Row → Type 0
HasActed h r =
    (r.effect ≡ some Effect.applied)
    ⊎ ((r.effect ≡ some Effect.unknown) × (now_effect h r ≡ Effect.applied))

-- A file is removed only on the evidence of the step's own write: the row says that the step has created
-- the file, or it was interrupted before that, there was no file, and the file is the one that it staged.
abbrev pub Evidence : Host → Row → Type 0
Evidence h r =
    (r.pre.created_file ≡ some true)
    ⊎ ((r.pre.created_file ≡ none)
        × (r.pre.previous_sha256 ≡ none)
        × (is_the_staged_file h r.pre ≡ true))

abbrev pub IsSupported : Host → Row → Inverse → Type 0
IsSupported h r (restores b) = b.created_file ≡ true → Evidence h r
IsSupported h r (switches k s t c) = Unit {0}
IsSupported h r (acts a u) = Unit {0}

-- An inverse, and the row that it reverses.
pub record Backed (h : Host) (r : Row) (i : Inverse) : Type 0 where
  pub conditional : is_conditional r ≡ true
  pub acted : HasActed h r
  pub inverse : inverse_of h r ≡ some i
  pub supported : IsSupported h r i

-- The inverses are those of the rows, one for each.
pub data Inverted (at : ℕ → Host) : List Row → List Inverse → Type 0 where
  no_rows : Inverted at [] []
  next :
      {r : Row} {i : Inverse} {rs : List Row} {is : List Inverse}
      → Backed (at r.n) r i
      → Inverted at rs is
      → Inverted at (r ∷ rs) (i ∷ is)

-- What a plan says of the rows that it was made of.
pub record IsSorted (at : ℕ → Host) (rows : List Row) (p : RollbackPlan) : Type 0 where
  pub undo : p.undo ≡ map label (of_class at reversed rows)
  pub not_reversible : p.not_reversible ≡ map label (of_class at irreversible rows)
  pub unknown : p.unknown ≡ map label (of_class at unsure rows)
  pub steps : Inverted at (of_class at reversed rows) p.steps

reversed_by : (e : Effect) → class_by e ≡ reversed → e ≡ Effect.applied
reversed_by Effect.applied h = refl
reversed_by Effect.not_applied h = cc
reversed_by Effect.unknown h = cc

module _ (h : Host) (r : Row) where
  reversed_conditional : class_of h r ≡ reversed → is_conditional r ≡ true
  unfolding class_of
  reversed_conditional q = elim (Bool-cases (is_conditional r)) [
    | inl e ↦ e
    | inr e ↦ elim (Bool-cases (is_considered r)) [
      | inl k ↦ cc (rw (k, e) at q)
      | inr k ↦ cc (rw k at q)
    ]
  ]

  reversed_effect : class_of h r ≡ reversed → fresh_effect h r r.effect ≡ Effect.applied
  unfolding class_of
  reversed_effect q = elim (Bool-cases (is_considered r)) [
    | inl k ↦ elim (Bool-cases (is_conditional r)) [
      | inl e ↦ reversed_by (fresh_effect h r r.effect) (rw (k, e) at q)
      | inr e ↦ cc (rw (k, e) at q)
    ]
    | inr k ↦ cc (rw k at q)
  ]

  acted_by : (e : Option Effect) → r.effect ≡ e → fresh_effect h r e ≡ Effect.applied → HasActed h r
  unfolding fresh_effect
  acted_by none f q = cc
  acted_by (some Effect.applied) f q = inl f
  acted_by (some Effect.not_applied) f q = cc
  acted_by (some Effect.unknown) f q = inr (f, q)

  evidence : has_created_file h r.pre ≡ true → Evidence h r
  unfolding has_created_file
  evidence q = elim (Option-cases r.pre.created_file) [
    | inr (b, e) ↦ inl (e ∙ ap some (rw e at q))
    | inl e ↦ elim (Option-cases r.pre.previous_sha256) [
      | inl d ↦ inr (e, d, rw (e, d) at q)
      | inr (d, g) ↦ cc (rw (e, g) at q)
    ]
  ]

  IsSupported-as : (j i : Inverse) → some j ≡ some i → IsSupported h r j → IsSupported h r i
  IsSupported-as j i q = subst (IsSupported h r) (some-injective j i q)

  restore-IsSupported : (path : Text) (i : Inverse) → restore h r path ≡ some i → IsSupported h r i
  unfolding restore restore_of
  restore-IsSupported path i q = elim (Bool-cases (path == 0)) [
    | inl e ↦ cc (rw e at q)
    | inr e ↦ IsSupported-as (restores (restore_of h r path)) i (rw e at q) evidence
  ]

  switch-IsSupported : (k : StepKind) (i : Inverse) → switch h r k ≡ some i → IsSupported h r i
  switch-IsSupported k i q = elim (Option-cases (h.bind_service r.stack r.service)) [
    | inl e ↦ cc (rw e at q)
    | inr (c, e) ↦ IsSupported-as (switches k r.stack r.service c) i (rw e at q) tt
  ]

  inverse_unit-IsSupported :
      (a : Option UnitAction) (i : Inverse)
      → Option.map (λ a. acts a r.unit) a ≡ some i
      → IsSupported h r i
  inverse_unit-IsSupported none i q = cc
  inverse_unit-IsSupported (some a) i q = IsSupported-as (acts a r.unit) i q tt

  inverse_by-IsSupported :
      (k : StepKind) (i : Inverse) → inverse_by h r k ≡ some i → IsSupported h r i
  unfolding inverse_by
  inverse_by-IsSupported compose_write i q =
      restore-IsSupported (or_else r.pre.compose_path r.bound_path) i q
  inverse_by-IsSupported service_start i q = switch-IsSupported service_stop i q
  inverse_by-IsSupported service_stop i q = switch-IsSupported service_start i q
  inverse_by-IsSupported unit_action i q = inverse_unit-IsSupported (inverse_unit r.action) i q
  inverse_by-IsSupported other i q = cc

  back : (i : Inverse) → class_of h r ≡ reversed → inverse_of h r ≡ some i → Backed h r i
  unfolding inverse_of
  back i c q = record {
    conditional = reversed_conditional c;
    acted = acted_by r.effect refl (reversed_effect c);
    inverse = q;
    supported = inverse_by-IsSupported r.kind i q;
  }

module _ (at : ℕ → Host) where
  add_row-IsSorted :
      (r : Row) (rs : List Row) (p p' : RollbackPlan) (c : Class)
      → class_of (at r.n) r ≡ c
      → IsSorted at rs p
      → add_row (at r.n) r c p ≡ some p'
      → IsSorted at (r ∷ rs) p'
  unfolding add_row
  add_row-IsSorted r rs p p' left_alone e s q =
      subst (IsSorted at (r ∷ rs)) (some-injective p p' q) (record {
        undo = rw e s.undo;
        not_reversible = rw e s.not_reversible;
        unknown = rw e s.unknown;
        steps = rw e s.steps;
      })
  add_row-IsSorted r rs p p' irreversible e s q =
      subst (IsSorted at (r ∷ rs))
        (some-injective (record p { not_reversible = label r ∷ p.not_reversible }) p' q)
        (record {
          undo = rw e s.undo;
          not_reversible = rw e (ap (λ ls. label r ∷ ls) s.not_reversible);
          unknown = rw e s.unknown;
          steps = rw e s.steps;
        })
  add_row-IsSorted r rs p p' unsure e s q =
      subst (IsSorted at (r ∷ rs))
        (some-injective (record p { unknown = label r ∷ p.unknown }) p' q)
        (record {
          undo = rw e s.undo;
          not_reversible = rw e s.not_reversible;
          unknown = rw e (ap (λ ls. label r ∷ ls) s.unknown);
          steps = rw e s.steps;
        })
  add_row-IsSorted r rs p p' reversed e s q = elim (Option-cases (inverse_of (at r.n) r)) [
    | inl f ↦ cc (rw f at q)
    | inr (i, f) ↦
        subst (IsSorted at (r ∷ rs))
          (some-injective (record p { steps = i ∷ p.steps; undo = label r ∷ p.undo }) p'
            (rw f at q))
          (record {
            undo = rw e (ap (λ ls. label r ∷ ls) s.undo);
            not_reversible = rw e s.not_reversible;
            unknown = rw e s.unknown;
            steps = rw e (next (back (at r.n) r i e f) s.steps);
          })
  ]

  plan_rows-IsSorted :
      (rows : List Row) (p : RollbackPlan) → plan_rows at rows ≡ some p → IsSorted at rows p
  unfolding plan_rows
  plan_rows-IsSorted [] p q =
      subst (IsSorted at []) (some-injective empty_plan p q)
        (record { undo = refl; not_reversible = refl; unknown = refl; steps = no_rows })
  plan_rows-IsSorted (r ∷ rs) p q = elim (Option-cases (plan_rows at rs)) [
    | inl e ↦ cc (rw e at q)
    | inr (p', e) ↦
        add_row-IsSorted r rs p' p (class_of (at r.n) r) refl (plan_rows-IsSorted rs p' e)
          (rw e at q)
  ]

pub rollback_is_backed :
    (accepts : List Inverse → Bool) (at : ℕ → Host) (rows : List Row) (p : RollbackPlan)
    → plan_rollback accepts at rows ≡ some p
    → IsSorted at (reverse rows) p
unfolding plan_rollback
rollback_is_backed accepts at rows p q = elim (Option-cases (plan_rows at (reverse rows))) [
  | inl e ↦ cc (rw (plan_rollback, e) at q)
  | inr (p', e) ↦ elim (Bool-cases (no_steps p'.steps || accepts p'.steps)) [
    | inl a ↦
        subst (IsSorted at (reverse rows)) (some-injective p' p (rw (plan_rollback, e, a) at q))
          (plan_rows-IsSorted at (reverse rows) p' e)
    | inr a ↦ cc (rw (plan_rollback, e, a) at q)
  ]
]
