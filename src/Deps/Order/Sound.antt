-- ===== src/Deps/Order/Sound.antt =====
-- The order of the sort: each name stands behind the names that it needs, a baseline that is in order
-- is left as it is, and a cycle is reported only where no order exists.
use planet_express.Store.Rows.{Text}
use planet_express.Prelude.{
  ℕ, zero, suc, ◌≡◌, refl, sym, ap, ◌∙◌, subst, ◌≢◌, inl, inr, true, false, ◌||◌, List, [], ◌∷◌,
  ◌++◌, arith, ◌==◌, Bool-cases, Option-cases, length,
}
use mathlib.Core.List.{append-nil, append_assoc}
use planet_express.Deps.Graph.{contains}
use planet_express.Deps.Order.{ordered, cycle, all_placed, take_ready, is_ready, place, Text}
use planet_express.Deps.Order.Rounds.{take_ready-some, take_ready-none, ordered-injective}

pub contains-append :
    (a : Text) (xs ys : List Text) → contains a (xs ++ ys) ≡ (contains a xs || contains a ys)
contains-append a [] ys = refl
contains-append a (x ∷ xs) ys = ground (arith, contains-append a xs ys)

module _ (universe : List Text) (before : Text → List Text) where
  -- Each name of `xs` has, placed before it, the names that it needs.
  abbrev pub IsOrderedFrom : List Text → List Text → Type 0
  IsOrderedFrom placed [] = Unit
  IsOrderedFrom placed (a ∷ xs) =
      (is_ready universe before placed a ≡ true) × IsOrderedFrom (placed ++ (a ∷ [])) xs

  IsOrderedFrom-append :
      (placed xs : List Text) (b : Text)
      → IsOrderedFrom placed xs
      → is_ready universe before (placed ++ xs) b ≡ true
      → IsOrderedFrom placed (xs ++ (b ∷ []))
  IsOrderedFrom-append placed [] b h k =
      (subst (λ p. is_ready universe before p b ≡ true) (append-nil placed) k, tt)
  IsOrderedFrom-append placed (a ∷ xs) b h k = (
    h.0,
    IsOrderedFrom-append (placed ++ (a ∷ [])) xs b h.1 (
        subst (λ p. is_ready universe before p b ≡ true) (sym (append_assoc placed (a ∷ []) xs)) k),
  )

  pub place-IsOrderedFrom :
      (fuel : ℕ) (xs result r : List Text)
      → IsOrderedFrom [] result
      → place universe before fuel xs result ≡ ordered r
      → IsOrderedFrom [] r
  unfolding place
  place-IsOrderedFrom fuel [] result r h e = subst (IsOrderedFrom []) (ordered-injective e) h
  place-IsOrderedFrom zero (a ∷ rest) result r h e = cc
  place-IsOrderedFrom (suc fuel) (a ∷ rest) result r h e =
      elim (Option-cases (take_ready (is_ready universe before result) (a ∷ rest))) [
        | inl n ↦ cc (rw (n, place) at e)
        | inr ((b, others), t) ↦
            let k = take_ready-some (is_ready universe before result) (a ∷ rest) b others t in
            place-IsOrderedFrom fuel others (result ++ (b ∷ [])) r
              (IsOrderedFrom-append [] result b h k.ok) (rw (t, place) at e)
      ]

  -- A need that is placed.
  placed_need :
      (placed ps : List Text) (p : Text)
      → all_placed universe placed ps ≡ true
      → contains p ps ≡ true
      → contains p universe ≡ true
      → contains p placed ≡ true
  placed_need placed [] p h m u = cc
  placed_need placed (q ∷ ps) p h m u = elim (Bool-cases (p == q)) [
    | inl e ↦ ground (arith, e)
    | inr n ↦ ground (arith, n, placed_need placed ps p)
  ]

  pub IsOrderedFrom-split :
      (placed xs : List Text) (a : Text) (ys : List Text) (p : Text)
      → IsOrderedFrom placed (xs ++ (a ∷ ys))
      → contains p (before a) ≡ true
      → contains p universe ≡ true
      → contains p (placed ++ xs) ≡ true
  IsOrderedFrom-split placed [] a ys p h m u =
      subst (λ l. contains p l ≡ true) (sym (append-nil placed))
        (placed_need placed (before a) p h.0 m u)
  IsOrderedFrom-split placed (x ∷ xs) a ys p h m u =
      subst (λ l. contains p l ≡ true) (append_assoc placed (x ∷ []) xs)
        (IsOrderedFrom-split (placed ++ (x ∷ [])) xs a ys p h.1 m u)

  -- What is in order is left as it is.
  pub place_stable :
      (xs result : List Text)
      → IsOrderedFrom result xs
      → place universe before (length xs) xs result ≡ ordered (result ++ xs)
  unfolding place take_ready
  place_stable [] result h = ap ordered (sym (append-nil result))
  place_stable (a ∷ xs) result h =
      rw (h.0, place)
        (place_stable xs (result ++ (a ∷ [])) h.1 ∙ ap ordered (append_assoc result (a ∷ []) xs))

  more_placed :
      (placed result ps : List Text)
      → ((x : Text)
          → contains x universe ≡ true
          → contains x placed ≡ true
          → contains x result ≡ true)
      → all_placed universe placed ps ≡ true
      → all_placed universe result ps ≡ true
  more_placed placed result [] k h = refl
  more_placed placed result (p ∷ ps) k h = ground (arith, k p, more_placed placed result ps k)

  -- In an order of all that is left, the first name that is not placed is ready.
  some_ready :
      (past l xs result : List Text)
      → IsOrderedFrom past l
      → ((x : Text) → contains x past ≡ true → contains x xs ≡ false)
      → ((x : Text) → contains x xs ≡ true → contains x l ≡ true)
      → ((x : Text) → contains x universe ≡ true → (contains x xs || contains x result) ≡ true)
      → (y : Text) → contains y xs ≡ true
      → (a : Text) × (contains a xs ≡ true) × (is_ready universe before result a ≡ true)
  some_ready past [] xs result o gone left all y m = cc (left y m)
  some_ready past (a ∷ l) xs result o gone left all y m = elim (Bool-cases (contains a xs)) [
    | inl e ↦
        (a, e, more_placed past result (before a) (λ x u p. ground (arith, gone x p, all x u)) o.0)
    | inr e ↦
        some_ready (past ++ (a ∷ [])) l xs result o.1 (λ x p. past_gone x p e)
          (λ x q. ground (arith, left x q, e)) all y m
  ]
    where
      past_gone :
          (x : Text)
          → contains x (past ++ (a ∷ [])) ≡ true
          → contains a xs ≡ false
          → contains x xs ≡ false
      past_gone x p e = ground (arith, contains-append x past (a ∷ []), gone x)

  pub place_complete :
      (l : List Text)
      → IsOrderedFrom [] l
      → (fuel : ℕ) (xs result : List Text)
      → ((x : Text) → contains x xs ≡ true → contains x l ≡ true)
      → ((x : Text) → contains x universe ≡ true → (contains x xs || contains x result) ≡ true)
      → place universe before fuel xs result ≢ cycle
  unfolding place
  place_complete l o fuel [] result left all e = cc
  place_complete l o zero (a ∷ rest) result left all e = cc
  place_complete l o (suc fuel) (a ∷ rest) result left all e =
      elim (Option-cases (take_ready (is_ready universe before result) (a ∷ rest))) [
        | inl n ↦
            let (b, m, r) =
              some_ready [] l (a ∷ rest) result o (λ x p. cc) left all a (ground arith) in
            cc (r, take_ready-none (is_ready universe before result) (a ∷ rest) b n m)
        | inr ((b, others), t) ↦
            let k = take_ready-some (is_ready universe before result) (a ∷ rest) b others t in
            place_complete l o fuel others (result ++ (b ∷ []))
              (λ x q. left x (ground (arith, k.members x)))
              (λ x u. ground (arith, k.members x, all x u, contains-append x result (b ∷ [])))
              (rw (t, place) at e)
      ]
