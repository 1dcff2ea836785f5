-- ===== src/Prelude/Keys.antt =====
-- Tables with a primary key: no two rows agree on it.
use Prim.Native.Nat.{◌≤◌}
use mathlib.Core.Path.{◌≡◌, refl, sym, ◌∙◌}
use mathlib.Core.Logic.{◌≢◌, inl, inr}
use mathlib.Core.Bool.{Bool, true, false, ◌&&◌}
use mathlib.Core.List.{List, [], ◌∷◌, ◌++◌}
use mathlib.Core.Option.{none, some}
use native.Mathlib.Omega.{arith}
use planet_express.Prelude.Tests.{Bool-cases, if◌then◌else◌}
use planet_express.Prelude.Lists.{select, find_row, update_where, All, All-append, count_where}

and_left : (a b : Bool) → (a && b) ≡ true → a ≡ true
and_left a b h = ground arith

pub and_right : (a b : Bool) → (a && b) ≡ true → b ≡ true
and_right a b h = ground arith

pub All-select :
    {A : Type 0} → (P : A → Type 0) (p : A → Bool) (xs : List A) → All P xs → All P (select p xs)
All-select P p [] h = tt
All-select P p (x ∷ xs) h = elim (Bool-cases (p x)) [
  | inl e ↦ rw e (h.0, All-select P p xs h.1)
  | inr e ↦ rw e (All-select P p xs h.1)
]

module _ {ℓ} {A : Type ℓ} (p : A → Bool) (x : A) (xs : List A) where
  first_is_other : find_row p (x ∷ xs) ≡ none → p x ≡ false
  first_is_other h = ground arith

  others_are_other : find_row p (x ∷ xs) ≡ none → find_row p xs ≡ none
  others_are_other h = ground arith

module _ {ℓ} {A : Type ℓ} {K : Type 0} (key : A → K) where
  abbrev pub DistinctOn : List A → Type 0
  DistinctOn [] = Unit
  DistinctOn (x ∷ xs) = All (λ y. key y ≢ key x) xs × DistinctOn xs

  All-ne-update_where :
      (k : K) (p : A → Bool) (f : A → A) (xs : List A)
      → ((x : A) → p x ≡ true → key (f x) ≡ key x)
      → All (λ y. key y ≢ k) xs
      → All (λ y. key y ≢ k) (update_where p f xs)
  All-ne-update_where k p f [] h d = tt
  All-ne-update_where k p f (x ∷ xs) h d = elim (Bool-cases (p x)) [
    | inl e ↦ (rw e (λ q. d.0 (sym (h x e) ∙ q)), All-ne-update_where k p f xs h d.1)
    | inr e ↦ (rw e d.0, All-ne-update_where k p f xs h d.1)
  ]

  pub DistinctOn-update_where :
      (p : A → Bool) (f : A → A) (xs : List A)
      → ((x : A) → p x ≡ true → key (f x) ≡ key x)
      → DistinctOn xs
      → DistinctOn (update_where p f xs)
  DistinctOn-update_where p f [] h d = tt
  DistinctOn-update_where p f (x ∷ xs) h d = elim (Bool-cases (p x)) [
    | inl e ↦ (
      rw (e, h x e) (All-ne-update_where (key x) p f xs h d.0),
      DistinctOn-update_where p f xs h d.1,
    )
    | inr e ↦
        (rw e (All-ne-update_where (key x) p f xs h d.0), DistinctOn-update_where p f xs h d.1)
  ]

  pub DistinctOn-append :
      (same : A → Bool) (xs : List A) (a : A)
      → ((y : A) → same y ≡ false → key y ≢ key a)
      → find_row same xs ≡ none
      → DistinctOn xs
      → DistinctOn (xs ++ a ∷ [])
  DistinctOn-append same [] a ne h d = (tt, tt)
  DistinctOn-append same (x ∷ xs) a ne h d = (
    All-append (λ y. key y ≢ key x) xs (a ∷ []) d.0
        ((λ e. ne x (first_is_other same x xs h) (sym e)), tt),
    DistinctOn-append same xs a ne (others_are_other same x xs h) d.1,
  )

  other_rows :
      (a : A) (k : K) (xs : List A)
      → All (λ y. key y ≢ k) xs
      → key a ≡ k
      → All (λ x. key x ≡ key a → x ≡ a) xs
  other_rows a k [] d e = tt
  other_rows a k (x ∷ xs) d e = (λ q. absurd (d.0 (q ∙ e)), other_rows a k xs d.1 e)

  ne_of_found :
      (q : A → Bool) (k : K) (xs : List A) (a : A)
      → All (λ y. key y ≢ k) xs
      → find_row q xs ≡ some a
      → key a ≢ k
  ne_of_found q k [] a d h = cc
  ne_of_found q k (x ∷ xs) a d h = elim (Bool-cases (q x)) [
    | inl e ↦ λ r. d.0 (cc (e, h, r))
    | inr e ↦ ne_of_found q k xs a d.1 (cc e)
  ]

  -- A row that is found is the only one with its key.
  pub DistinctOn-found :
      (q : A → Bool) (xs : List A) (a : A)
      → DistinctOn xs
      → find_row q xs ≡ some a
      → All (λ x. key x ≡ key a → x ≡ a) xs
  DistinctOn-found q [] a d h = tt
  DistinctOn-found q (x ∷ xs) a d h = elim (Bool-cases (q x)) [
    | inl e ↦ (λ _. cc e, other_rows a (key x) xs d.0 (cc e))
    | inr e ↦ (
      λ r. absurd (ne_of_found q (key x) xs a d.0 (cc e) (sym r)),
      DistinctOn-found q xs a d.1 (cc e),
    )
  ]

  none_with_key :
      (k : K) (p : A → Bool) (xs : List A)
      → ((x : A) → p x ≡ true → key x ≡ k)
      → All (λ y. key y ≢ k) xs
      → count_where p xs ≡ 0
  none_with_key k p [] h d = refl
  none_with_key k p (x ∷ xs) h d = elim (Bool-cases (p x)) [
    | inl e ↦ absurd (d.0 (h x e))
    | inr e ↦ rw e (omega (arith, none_with_key k p xs h d.1))
  ]

  -- A condition that fixes the key holds of one row at most.
  pub DistinctOn-count :
      (k : K) (p : A → Bool) (xs : List A)
      → ((x : A) → p x ≡ true → key x ≡ k)
      → DistinctOn xs
      → count_where p xs ≤ 1
  DistinctOn-count k p [] h d = omega arith
  DistinctOn-count k p (x ∷ xs) h d = elim (Bool-cases (p x)) [
    | inl e ↦ rw e (omega (arith, none_with_key (key x) p xs (λ y q. h y q ∙ sym (h x e)) d.0))
    | inr e ↦ rw e (omega (arith, DistinctOn-count k p xs h d.1))
  ]

  -- The row that a key finds is the only one that a further condition can hold of.
  pub DistinctOn-count_found :
      (k : K) (q r : A → Bool) (xs : List A) (c : A)
      → ((x : A) → q x ≡ true → key x ≡ k)
      → DistinctOn xs
      → find_row q xs ≡ some c
      → count_where (λ x. q x && r x) xs ≡ (if r c then 1 else 0)
  DistinctOn-count_found k q r [] c h d e = cc
  DistinctOn-count_found k q r (x ∷ xs) c h d e = elim (Bool-cases (q x)) [
    | inl t ↦ ground (
      arith,
      t,
      none_with_key (key x) (λ y. q y && r y) xs (λ y s. h y (and_left (q y) (r y) s) ∙ sym (h x t))
          d.0,
    )
    | inr t ↦ rw t (omega (arith, DistinctOn-count_found k q r xs c h d.1 (cc t)))
  ]
