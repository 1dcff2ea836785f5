-- ===== src/Deps/Order/Decides.antt =====
-- The sort against what its caller wants of an order.
use planet_express.Store.Rows.{Text}
use planet_express.Prelude.{
  ◌<◌, ◌≡◌, refl, ◌≢◌, ◌⊎◌, inl, inr, true, ◌||◌, List, [], ◌∷◌, ◌++◌, arith, length,
}
use planet_express.Deps.Graph.{contains, needs, Precedence}
use planet_express.Deps.Order.{
  Ordering, ordered, cycle, out_of_fuel, Text, stable_topological_order,
}
use planet_express.Deps.Order.Rounds.{place-occurrences, place_ends, occurrences}
use planet_express.Deps.Order.Sound.{
  IsOrderedFrom, place-IsOrderedFrom, place_stable, place_complete, IsOrderedFrom-split,
}

-- An order of the baseline: the same names, as often, each behind the names that it needs.
pub record IsOrderOf (baseline : List Text) (m : Precedence) (l : List Text) : Type 0 where
  pub same : (x : Text) → occurrences x l ≡ occurrences x baseline
  pub respects : IsOrderedFrom baseline (needs m) [] l

occurs_of_contains : (x : Text) (xs : List Text) → contains x xs ≡ true → 0 < occurrences x xs
occurs_of_contains x [] h = cc
occurs_of_contains x (y ∷ xs) h = ground (arith, occurs_of_contains x xs)

contains_of_occurs : (x : Text) (xs : List Text) → 0 < occurrences x xs → contains x xs ≡ true
contains_of_occurs x [] h = absurd (omega arith)
contains_of_occurs x (y ∷ xs) h = ground (arith, contains_of_occurs x xs)

pub Ordering-cases :
    (o : Ordering) → ((r : List Text) × (o ≡ ordered r)) ⊎ (o ≡ cycle) ⊎ (o ≡ out_of_fuel)
Ordering-cases (ordered r) = inl (r, refl)
Ordering-cases cycle = inr (inl refl)
Ordering-cases out_of_fuel = inr (inr refl)

module _ (baseline : List Text) (m : Precedence) where
  all_there :
      (x : Text) → contains x baseline ≡ true → (contains x baseline || contains x []) ≡ true
  all_there x h = ground (arith, h)

  ends : stable_topological_order baseline m ≢ out_of_fuel
  unfolding stable_topological_order
  ends = place_ends baseline (needs m) (length baseline) baseline [] (omega arith)

  is_order :
      (r : List Text) → stable_topological_order baseline m ≡ ordered r → IsOrderOf baseline m r
  unfolding stable_topological_order
  is_order r h = record {
    same = λ x.
        omega (arith, place-occurrences baseline (needs m) (length baseline) baseline [] r x h);
    respects = place-IsOrderedFrom baseline (needs m) (length baseline) baseline [] r tt h;
  }

  no_order : (l : List Text) → IsOrderOf baseline m l → stable_topological_order baseline m ≢ cycle
  unfolding stable_topological_order
  no_order l k =
      place_complete baseline (needs m) l k.respects (length baseline) baseline []
        (λ x h. contains_of_occurs x l (omega (arith, k.same x, occurs_of_contains x baseline h)))
        all_there

  -- The sort returns an order of the baseline where there is one, and reports a cycle exactly where
  -- there is none.
  pub order_decides :
      ((r : List Text) × (stable_topological_order baseline m ≡ ordered r) × IsOrderOf baseline m r)
      ⊎ (stable_topological_order baseline m ≡ cycle) × ((l : List Text) → ¬ IsOrderOf baseline m l)
  order_decides = elim (Ordering-cases (stable_topological_order baseline m)) [
    | inl (r, e) ↦ inl (r, e, is_order r e)
    | inr (inl e) ↦ inr (e, λ l k. no_order l k e)
    | inr (inr e) ↦ absurd (ends e)
  ]

  -- In the order that is returned, every name that a name needs and that is in the baseline stands in
  -- front of it.
  pub order_respects :
      (xs : List Text) (a : Text) (ys : List Text) (p : Text)
      → stable_topological_order baseline m ≡ ordered (xs ++ (a ∷ ys))
      → contains p (needs m a) ≡ true
      → contains p baseline ≡ true
      → contains p xs ≡ true
  order_respects xs a ys p h k u =
      IsOrderedFrom-split baseline (needs m) [] xs a ys p (is_order (xs ++ (a ∷ ys)) h).respects k u

  -- A baseline that is in order already is returned unchanged.
  pub order_stable :
      IsOrderOf baseline m baseline → stable_topological_order baseline m ≡ ordered baseline
  unfolding stable_topological_order
  order_stable k = place_stable baseline (needs m) baseline [] k.respects
