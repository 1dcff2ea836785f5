-- ===== src/Prelude/Lists.antt =====
-- Tables as lists of rows: what `SELECT`, `UPDATE` and `DELETE` do with a condition on a row.
use Prim.Native.Nat.{ℕ, suc, ◌+◌, ◌≤◌, ◌<◌}
use mathlib.Core.Path.{◌≡◌, refl, subst, ◌∙◌}
use mathlib.Core.Logic.{inl, inr}
use mathlib.Core.Bool.{Bool, true, false}
use mathlib.Core.List.{List, [], ◌∷◌, ◌++◌}
use mathlib.Core.Option
use mathlib.Core.Option.{Option, none, some}
use native.Mathlib.Omega.{arith}
use planet_express.Prelude.Tests.{if◌then◌else◌, is_some, Bool-cases}

module _ {ℓ} {A : Type ℓ} where
  abbrev pub length : List A → ℕ
  length [] = 0
  length (x ∷ xs) = suc (length xs)

  -- `SELECT … WHERE p`
  abbrev pub select : (A → Bool) → List A → List A
  select p [] = []
  select p (x ∷ xs) = let rest = select p xs in if p x then x ∷ rest else rest

  -- `fetchone`: the first row that fits.
  abbrev pub find_row : (A → Bool) → List A → Option A
  find_row p [] = none
  find_row p (x ∷ xs) = if p x then some x else find_row p xs

  -- `SELECT COUNT(*) … WHERE p`, the `rowcount` of an update
  abbrev pub count_where : (A → Bool) → List A → ℕ
  count_where p [] = 0
  count_where p (x ∷ xs) = (if p x then 1 else 0) + count_where p xs

  -- What an `UPDATE` makes of one row.
  abbrev pub touch : (A → Bool) → (A → A) → A → A
  touch p f x = if p x then f x else x

  -- `UPDATE … SET f WHERE p`
  abbrev pub update_where : (A → Bool) → (A → A) → List A → List A
  update_where p f [] = []
  update_where p f (x ∷ xs) = touch p f x ∷ update_where p f xs

  abbrev pub All {κ} : (A → Type κ) → List A → Type κ
  All P [] = Unit
  All P (x ∷ xs) = P x × All P xs

  pub length-append : (xs ys : List A) → length (xs ++ ys) ≡ length xs + length ys
  length-append [] ys = omega arith
  length-append (x ∷ xs) ys = omega (arith, length-append xs ys)

  pub count_where-append :
      (p : A → Bool) (xs ys : List A)
      → count_where p (xs ++ ys) ≡ count_where p xs + count_where p ys
  count_where-append p [] ys = omega arith
  count_where-append p (x ∷ xs) ys = omega (arith, count_where-append p xs ys)

module _ {ℓ κ} {A : Type ℓ} (P : A → Type κ) where
  pub All-append : (xs ys : List A) → All P xs → All P ys → All P (xs ++ ys)
  All-append [] ys hx hy = hy
  All-append (x ∷ xs) ys hx hy = (hx.0, All-append xs ys hx.1 hy)

  pub All-intro : (xs : List A) → ((x : A) → P x) → All P xs
  All-intro [] h = tt
  All-intro (x ∷ xs) h = (h x, All-intro xs h)

  pub All-map {μ} : (Q : A → Type μ) (xs : List A) → ((x : A) → P x → Q x) → All P xs → All Q xs
  All-map Q [] k h = tt
  All-map Q (x ∷ xs) k h = (k x h.0, All-map Q xs k h.1)

  pub All-touch :
      (p : A → Bool) (f : A → A) (x : A)
      → ((x : A) → p x ≡ true → P x → P (f x))
      → P x
      → P (touch p f x)
  All-touch p f x keep h = elim (Bool-cases (p x)) [ inl e ↦ rw e (keep x e h) | inr e ↦ rw e h ]

  pub All-update_where :
      (p : A → Bool) (f : A → A) (xs : List A)
      → ((x : A) → p x ≡ true → P x → P (f x))
      → All P xs
      → All P (update_where p f xs)
  All-update_where p f [] keep h = tt
  All-update_where p f (x ∷ xs) keep h =
      (All-touch p f x keep h.0, All-update_where p f xs keep h.1)

  pub All-find_row : (p : A → Bool) (xs : List A) (x : A) → All P xs → find_row p xs ≡ some x → P x
  All-find_row p [] x h e = cc
  All-find_row p (y ∷ ys) x h e = elim (Bool-cases (p y)) [
    | inl q ↦ subst P (cc q) h.0
    | inr q ↦ All-find_row p ys x h.1 (cc q)
  ]

module _ {ℓ} {A : Type ℓ} where
  -- A row that an update does not touch, and that none takes the place of, is found again.
  pub find_row-update_where_kept :
      (q p : A → Bool) (f : A → A) (xs : List A) (a : A)
      → ((x : A) → p x ≡ true → q (f x) ≡ true → q x ≡ true)
      → find_row q xs ≡ some a
      → p a ≡ false
      → find_row q (update_where p f xs) ≡ some a
  find_row-update_where_kept q p f [] a h e n = cc
  find_row-update_where_kept q p f (x ∷ xs) a h e n = elim (Bool-cases (q x)) [
    | inl t ↦ ground (arith, t)
    | inr t ↦ ground (arith, t, h x, find_row-update_where_kept q p f xs a h)
  ]

  -- An update that does not move a row into or out of what is looked for.
  pub find_row-update_where :
      (q p : A → Bool) (f : A → A) (xs : List A)
      → ((x : A) → q (f x) ≡ q x)
      → find_row q (update_where p f xs) ≡ Option.map (touch p f) (find_row q xs)
  find_row-update_where q p f [] h = refl
  find_row-update_where q p f (x ∷ xs) h = ground (arith, h x, find_row-update_where q p f xs h)

  pub find_row-append :
      (q : A → Bool) (xs ys : List A) (x : A)
      → find_row q xs ≡ some x
      → find_row q (xs ++ ys) ≡ some x
  find_row-append q [] ys x h = cc
  find_row-append q (y ∷ xs) ys x h = ground (arith, find_row-append q xs ys x)

  pub find_row_fits : (q : A → Bool) (xs : List A) (x : A) → find_row q xs ≡ some x → q x ≡ true
  find_row_fits q [] x h = cc
  find_row_fits q (y ∷ xs) x h = elim (Bool-cases (q y)) [
    | inl e ↦ subst (λ z. q z ≡ true) (cc e) e
    | inr e ↦ find_row_fits q xs x (cc e)
  ]

  pub count_where_zero : (p : A → Bool) (xs : List A) → count_where p xs ≡ 0 → find_row p xs ≡ none
  count_where_zero p [] h = refl
  count_where_zero p (x ∷ xs) h = ground (arith, count_where_zero p xs)

  pub find_row_none :
      (p : A → Bool) (xs : List A) → is_some (find_row p xs) ≡ false → count_where p xs ≡ 0
  find_row_none p [] h = refl
  find_row_none p (x ∷ xs) h = ground (arith, find_row_none p xs)

  pub found_of_count :
      (p : A → Bool) (xs : List A) → 0 < count_where p xs → (a : A) × (find_row p xs ≡ some a)
  found_of_count p [] h = absurd (omega arith)
  found_of_count p (x ∷ xs) h = elim (Bool-cases (p x)) [
    | inl e ↦ (x, rw e)
    | inr e ↦ rw e (found_of_count p xs (ground (arith, e)))
  ]

  -- Rows that count go on counting, if the update of a row leaves them so.
  pub count_where-update_where-keeps :
      (q p : A → Bool) (f : A → A) (xs : List A)
      → ((x : A) → q x ≡ true → p x ≡ true → q (f x) ≡ true)
      → count_where q xs ≤ count_where q (update_where p f xs)
  count_where-update_where-keeps q p f [] h = omega arith
  count_where-update_where-keeps q p f (x ∷ xs) h =
      ground (arith, h x, count_where-update_where-keeps q p f xs h)

  -- Rows that are updated count, if the update makes them so.
  pub count_where-update_where-hits :
      (q p : A → Bool) (f : A → A) (xs : List A)
      → ((x : A) → p x ≡ true → q (f x) ≡ true)
      → count_where p xs ≤ count_where q (update_where p f xs)
  count_where-update_where-hits q p f [] h = omega arith
  count_where-update_where-hits q p f (x ∷ xs) h =
      ground (arith, h x, count_where-update_where-hits q p f xs h)

  pub count_of_found :
      (p : A → Bool) (xs : List A) (a : A) → find_row p xs ≡ some a → 0 < count_where p xs
  count_of_found p [] a h = cc
  count_of_found p (x ∷ xs) a h = ground (arith, count_of_found p xs a)

  pub find_row_weaken :
      (p q : A → Bool) (xs : List A) (a : A)
      → ((x : A) → p x ≡ true → q x ≡ true)
      → find_row p xs ≡ some a
      → (b : A) × (find_row q xs ≡ some b)
  find_row_weaken p q [] a h e = cc
  find_row_weaken p q (x ∷ xs) a h e = elim (Bool-cases (q x)) [
    | inl t ↦ (x, rw t)
    | inr t ↦ rw t (find_row_weaken p q xs a h (ground (arith, h x)))
  ]

  pub count_where_none :
      (p : A → Bool) (xs : List A) → All (λ x. p x ≡ false) xs → count_where p xs ≡ 0
  count_where_none p [] h = refl
  count_where_none p (x ∷ xs) h = rw h.0 (omega (arith, count_where_none p xs h.1))

  -- An update that moves no row into what is counted.
  pub count_where-update_where-le :
      (q p : A → Bool) (f : A → A) (xs : List A)
      → All (λ x. p x ≡ true → q (f x) ≡ true → q x ≡ true) xs
      → count_where q (update_where p f xs) ≤ count_where q xs
  count_where-update_where-le q p f [] h = omega arith
  count_where-update_where-le q p f (x ∷ xs) h =
      let rest = count_where-update_where-le q p f xs h.1 in ground (arith, rest, h.0)

  pub update_where_none :
      (p : A → Bool) (f : A → A) (xs : List A) → count_where p xs ≡ 0 → update_where p f xs ≡ xs
  update_where_none p f [] h = refl
  update_where_none p f (x ∷ xs) h = ground (arith, update_where_none p f xs)

-- How a table changes: each row of `xs` is related to the row of `ys` at its place, and the rows
-- behind them are new.
module _ {ℓ} {A : Type ℓ} (R : A → A → Type 0) (N : A → Type 0) where
  abbrev pub Evolves : List A → List A → Type 0
  Evolves [] ys = All N ys
  Evolves (x ∷ xs) [] = ⊥
  Evolves (x ∷ xs) (y ∷ ys) = R x y × Evolves xs ys

  pub Evolves-refl : ((x : A) → R x x) → (xs : List A) → Evolves xs xs
  Evolves-refl r [] = tt
  Evolves-refl r (x ∷ xs) = (r x, Evolves-refl r xs)

  pub Evolves-append : ((x : A) → R x x) → (xs ys : List A) → All N ys → Evolves xs (xs ++ ys)
  Evolves-append r [] ys n = n
  Evolves-append r (x ∷ xs) ys n = (r x, Evolves-append r xs ys n)

  pub Evolves-update_where :
      ((x : A) → R x x)
      → (p : A → Bool) (f : A → A) (xs : List A) → All (λ x. p x ≡ true → R x (f x)) xs
      → Evolves xs (update_where p f xs)
  Evolves-update_where r p f [] h = tt
  Evolves-update_where r p f (x ∷ xs) h = elim (Bool-cases (p x)) [
    | inl e ↦ (rw e (h.0 e), Evolves-update_where r p f xs h.1)
    | inr e ↦ (rw e (r x), Evolves-update_where r p f xs h.1)
  ]

  pub All-Evolves :
      ((x y : A) → N x → R x y → N y) → (xs ys : List A) → All N xs → Evolves xs ys → All N ys
  All-Evolves k [] ys h e = e
  All-Evolves k (x ∷ xs) [] h e = absurd e
  All-Evolves k (x ∷ xs) (y ∷ ys) h e = (k x y h.0 e.0, All-Evolves k xs ys h.1 e.1)

  pub Evolves-trans :
      ((x y z : A) → R x y → R y z → R x z)
      → ((x y : A) → N x → R x y → N y)
      → (xs ys zs : List A) → Evolves xs ys
      → Evolves ys zs
      → Evolves xs zs
  Evolves-trans t k [] ys zs a b = All-Evolves k ys zs a b
  Evolves-trans t k (x ∷ xs) [] zs a b = absurd a
  Evolves-trans t k (x ∷ xs) (y ∷ ys) [] a b = absurd b
  Evolves-trans t k (x ∷ xs) (y ∷ ys) (z ∷ zs) a b =
      (t x y z a.0 b.0, Evolves-trans t k xs ys zs a.1 b.1)

  -- A row that is found is found again, as the row that it has become.
  pub Evolves-find_row :
      (q : A → Bool)
      → ((x y : A) → R x y → q y ≡ q x)
      → (xs ys : List A) → Evolves xs ys
      → (x : A) → find_row q xs ≡ some x
      → (y : A) × (find_row q ys ≡ some y) × R x y
  Evolves-find_row q k [] ys e x h = cc
  Evolves-find_row q k (a ∷ xs) [] e x h = absurd e
  Evolves-find_row q k (a ∷ xs) (b ∷ ys) e x h = elim (Bool-cases (q a)) [
    | inl t ↦ (b, rw (k a b e.0 ∙ t), subst (λ z. R z b) (cc t) e.0)
    | inr f ↦ rw (k a b e.0 ∙ f) (Evolves-find_row q k xs ys e.1 x (cc f))
  ]
