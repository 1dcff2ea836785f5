-- ===== src/Rollback/Preview.antt =====
-- The preview that the dashboard shows against the plan that is made: planet_express/execution/engine.py.
use planet_express.Prelude.{
  ℕ, ◌+◌, ◌≤◌, ◌≡◌, refl, ap, inl, inr, Bool, true, false, Option, none, some, List, [], ◌∷◌, map,
  arith, ◌==◌, Bool-cases, count_where, ◌&&◌,
}
use mathlib.Core.List.{reverse}
use planet_express.Store.Rows.{Effect}
use planet_express.Policy.Catalogue.{StepType, type_of}
use planet_express.Rollback.Rows.{Row, Host, has_acted, is_conditional, is_considered, now_effect}
use planet_express.Rollback.Plan.{
  Inverse, RollbackPlan, reversed, irreversible, unsure, left_alone, class_of, class_by,
  fresh_effect, plan_rollback, label, Label, is_unknown, preview_rows, rollback_preview,
}
use planet_express.Rollback.Sorted.{of_class, rollback_is_backed}

abbrev pub numbers : List Label → List ℕ
numbers = map (λ (l : Label). l.0)

abbrev pub times : ℕ → List ℕ → ℕ
times n xs = count_where (λ m. m == n) xs

-- What a row is to the preview, and what that says of its class.
data Seen (h : Host) (r : Row) : Type 0 where
  passed_over : is_considered r ≡ false → class_of h r ≡ left_alone → Seen h r
  final : is_considered r ≡ true → is_conditional r ≡ false → class_of h r ≡ irreversible → Seen h r
  sure :
      is_considered r ≡ true
      → is_conditional r ≡ true
      → is_unknown r.effect ≡ false
      → class_of h r ≡ reversed
      → Seen h r
  asked :
      is_considered r ≡ true
      → is_conditional r ≡ true
      → is_unknown r.effect ≡ true
      → class_of h r ≡ class_by (now_effect h r)
      → Seen h r

and_false : (b : Bool) → (b && false) ≡ false
and_false true = refl
and_false false = refl

has_acted-none : (t : Option StepType) → has_acted t none ≡ false
has_acted-none none = refl
has_acted-none (some t) = refl

has_acted-not_applied : (t : Option StepType) → has_acted t (some Effect.not_applied) ≡ false
has_acted-not_applied none = refl
has_acted-not_applied (some t) = refl

module _ (h : Host) (r : Row) where
  Seen-effect :
      (e : Option Effect)
      → r.effect ≡ e
      → is_considered r ≡ true
      → is_conditional r ≡ true
      → class_of h r ≡ class_by (fresh_effect h r e)
      → Seen h r
  unfolding is_considered fresh_effect
  Seen-effect none f k c q = cc (rw (f, has_acted-none (type_of r.kind)) at k)
  Seen-effect (some Effect.not_applied) f k c q =
      cc (rw (f, has_acted-not_applied (type_of r.kind)) at k)
  Seen-effect (some Effect.applied) f k c q = sure k c (ap is_unknown f) q
  Seen-effect (some Effect.unknown) f k c q = asked k c (ap is_unknown f) q

  seen : Seen h r
  unfolding class_of
  seen = elim (Bool-cases (is_considered r)) [
    | inr k ↦ passed_over k (rw (class_of, k) refl)
    | inl k ↦ elim (Bool-cases (is_conditional r)) [
      | inr c ↦ final k c (rw (class_of, k, c) refl)
      | inl c ↦ Seen-effect r.effect refl k c (rw (class_of, k, c) refl)
    ]
  ]

-- The plan's lists against those of the preview, of one number.
record Agree (at : ℕ → Host) (n : ℕ) (rows : List Row) : Type 0 where
  final_same :
      numbers (map label (of_class at irreversible rows)) ≡ (preview_rows rows).not_reversible
  undo_kept :
      times n (preview_rows rows).undo ≤ times n (numbers (map label (of_class at reversed rows)))
  undo_shown :
      times n (numbers (map label (of_class at reversed rows)))
      ≤ times n (preview_rows rows).undo + times n (preview_rows rows).unknown
  unknown_shown :
      times n (numbers (map label (of_class at unsure rows))) ≤ times n (preview_rows rows).unknown

module _ (at : ℕ → Host) (n : ℕ) where
  Agree-asked :
      (r : Row) (rows : List Row) (e : Effect)
      → Agree at n rows
      → is_considered r ≡ true
      → is_conditional r ≡ true
      → is_unknown r.effect ≡ true
      → class_of (at r.n) r ≡ class_by e
      → Agree at n (r ∷ rows)
  unfolding preview_rows
  Agree-asked r rows Effect.applied a k c u q = record {
    final_same = rw (k, c, u, q) a.final_same;
    undo_kept = rw (k, c, u, q) (omega (arith, a.undo_kept));
    undo_shown = rw (k, c, u, q) (omega (arith, a.undo_shown));
    unknown_shown = rw (k, c, u, q) (omega (arith, a.unknown_shown));
  }
  Agree-asked r rows Effect.not_applied a k c u q = record {
    final_same = rw (k, c, u, q) a.final_same;
    undo_kept = rw (k, c, u, q) (omega (arith, a.undo_kept));
    undo_shown = rw (k, c, u, q) (omega (arith, a.undo_shown));
    unknown_shown = rw (k, c, u, q) (omega (arith, a.unknown_shown));
  }
  Agree-asked r rows Effect.unknown a k c u q = record {
    final_same = rw (k, c, u, q) a.final_same;
    undo_kept = rw (k, c, u, q) (omega (arith, a.undo_kept));
    undo_shown = rw (k, c, u, q) (omega (arith, a.undo_shown));
    unknown_shown = rw (k, c, u, q) (omega (arith, a.unknown_shown));
  }

  rows-Agree : (rows : List Row) → Agree at n rows
  unfolding preview_rows
  rows-Agree [] = record {
    final_same = refl;
    undo_kept = omega arith;
    undo_shown = omega arith;
    unknown_shown = omega arith;
  }
  rows-Agree (r ∷ rows) =
      let a = rows-Agree rows in
      elim (seen (at r.n) r) [
        | passed_over k q ↦ record {
          final_same = rw (k, q) a.final_same;
          undo_kept = rw (k, q) (omega (arith, a.undo_kept));
          undo_shown = rw (k, q) (omega (arith, a.undo_shown));
          unknown_shown = rw (k, q) (omega (arith, a.unknown_shown));
        }
        | final k c q ↦ record {
          final_same = rw (k, c, q, and_false) (ap (λ ms. r.n ∷ ms) a.final_same);
          undo_kept = rw (k, c, q, and_false) (omega (arith, a.undo_kept));
          undo_shown = rw (k, c, q, and_false) (omega (arith, a.undo_shown));
          unknown_shown = rw (k, c, q, and_false) (omega (arith, a.unknown_shown));
        }
        | sure k c u q ↦ record {
          final_same = rw (k, c, u, q) a.final_same;
          undo_kept = rw (k, c, u, q) (omega (arith, a.undo_kept));
          undo_shown = rw (k, c, u, q) (omega (arith, a.undo_shown));
          unknown_shown = rw (k, c, u, q) (omega (arith, a.unknown_shown));
        }
        | asked k c u q ↦ Agree-asked r rows (now_effect (at r.n) r) a k c u q
      ]

-- The preview of a plan that is made: the rows without an inverse are the same, in the same order; every
-- row that it says is reversed is reversed; and every other row that the plan reverses or cannot tell is
-- among those that it says are unknown.
pub preview_covers :
    (accepts : List Inverse → Bool) (at : ℕ → Host) (rows : List Row) (p : RollbackPlan) (n : ℕ)
    → plan_rollback accepts at rows ≡ some p
    → (numbers p.not_reversible ≡ (rollback_preview rows).not_reversible)
      × (times n (rollback_preview rows).undo ≤ times n (numbers p.undo))
      × (times n (numbers p.undo)
          ≤ times n (rollback_preview rows).undo + times n (rollback_preview rows).unknown)
      × (times n (numbers p.unknown) ≤ times n (rollback_preview rows).unknown)
unfolding rollback_preview
preview_covers accepts at rows p n q =
    let s = rollback_is_backed accepts at rows p q in
    let a = rows-Agree at n (reverse rows) in
    rw (s.undo, s.not_reversible, s.unknown)
      (a.final_same, a.undo_kept, a.undo_shown, a.unknown_shown)
