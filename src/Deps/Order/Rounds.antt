-- ===== src/Deps/Order/Rounds.antt =====
-- One round of the sort, and what the rounds keep: the names, their number, and the order.
use mathlib.Core.Option.{some-injective}
use planet_express.Store.Rows.{Text}
use planet_express.Prelude.{
  ℕ, zero, suc, ◌+◌, ◌≤◌, ◌≡◌, refl, ap, subst, ◌≢◌, inl, inr, Bool, true, false, none, some, List,
  [], ◌∷◌, ◌++◌, arith, ◌==◌, Bool-cases, Option-cases, length, count_where, count_where-append,
}
use planet_express.Deps.Graph.{contains}
use planet_express.Deps.Order.{
  Ordering, ordered, cycle, out_of_fuel, take_ready, is_ready, place, Text,
}

-- How often a name occurs.
abbrev pub occurrences : Text → List Text → ℕ
occurrences x = count_where (λ y. x == y)

pub record Takes (ready : Text → Bool) (xs : List Text) (b : Text) (others : List Text)
    : Type 0 where
  pub ok : ready b ≡ true
  pub shorter : length xs ≡ suc (length others)
  pub counts : (x : Text) → occurrences x xs ≡ occurrences x (b ∷ others)
  pub members : (x : Text) → contains x xs ≡ contains x (b ∷ others)

pub take_ready-some :
    (ready : Text → Bool) (xs : List Text) (b : Text) (others : List Text)
    → take_ready ready xs ≡ some (b, others)
    → Takes ready xs b others
unfolding take_ready
take_ready-some ready [] b others h = cc
take_ready-some ready (a ∷ rest) b others h = elim (Bool-cases (ready a)) [
  | inl e ↦
      subst (λ z. Takes ready (a ∷ rest) z.0 z.1) (some-injective (a, rest) (b, others) (rw e at h))
        (record { ok = e; shorter = refl; counts = λ x. refl; members = λ x. refl })
  | inr e ↦ elim (Option-cases (take_ready ready rest)) [
    | inl n ↦ cc (rw (e, n) at h)
    | inr ((c, cs), s) ↦
        let t = take_ready-some ready rest c cs s in
        subst (λ z. Takes ready (a ∷ rest) z.0 z.1)
          (some-injective (c, a ∷ cs) (b, others) (rw (e, s) at h))
          (record {
            ok = t.ok;
            shorter = omega (arith, t.shorter);
            counts = λ x. omega (arith, t.counts x);
            members = λ x. ground (arith, t.members x);
          })
  ]
]

pub take_ready-none :
    (ready : Text → Bool) (xs : List Text) (a : Text)
    → take_ready ready xs ≡ none
    → contains a xs ≡ true
    → ready a ≡ false
unfolding take_ready
take_ready-none ready [] a h m = cc
take_ready-none ready (x ∷ rest) a h m = elim (Bool-cases (ready x)) [
  | inl e ↦ cc (rw e at h)
  | inr e ↦ elim (Option-cases (take_ready ready rest)) [
    | inl n ↦ ground (arith, e, take_ready-none ready rest a n)
    | inr (c, s) ↦ cc (rw (e, s) at h)
  ]
]

ordered_of : Ordering → List Text
ordered_of (ordered r) = r
ordered_of cycle = []
ordered_of out_of_fuel = []

pub ordered-injective : {r s : List Text} → ordered r ≡ ordered s → r ≡ s
unfolding ordered_of
ordered-injective h = ap ordered_of h

module _ (universe : List Text) (before : Text → List Text) where
  -- The rounds place each name, and end within the fuel.
  pub place-occurrences :
      (fuel : ℕ) (xs result r : List Text) (x : Text)
      → place universe before fuel xs result ≡ ordered r
      → occurrences x r ≡ occurrences x xs + occurrences x result
  unfolding place
  place-occurrences fuel [] result r x h =
      let e : occurrences x result ≡ occurrences x r = ap (occurrences x) (ordered-injective h) in
      omega (arith, e)
  place-occurrences zero (a ∷ rest) result r x h = cc
  place-occurrences (suc fuel) (a ∷ rest) result r x h =
      elim (Option-cases (take_ready (is_ready universe before result) (a ∷ rest))) [
        | inl n ↦ cc (rw (n, place) at h)
        | inr ((b, others), e) ↦
            let t = take_ready-some (is_ready universe before result) (a ∷ rest) b others e in
            let q = place-occurrences fuel others (result ++ (b ∷ [])) r x (rw (e, place) at h) in
            omega (arith, t.counts x, q, count_where-append (λ y. x == y) result (b ∷ []))
      ]

  pub place_ends :
      (fuel : ℕ) (xs result : List Text)
      → length xs ≤ fuel
      → place universe before fuel xs result ≢ out_of_fuel
  unfolding place
  place_ends fuel [] result h e = cc
  place_ends zero (a ∷ rest) result h e = absurd (omega arith)
  place_ends (suc fuel) (a ∷ rest) result h e =
      elim (Option-cases (take_ready (is_ready universe before result) (a ∷ rest))) [
        | inl n ↦ cc (rw (n, place) at e)
        | inr ((b, others), t) ↦
            let k = take_ready-some (is_ready universe before result) (a ∷ rest) b others t in
            place_ends fuel others (result ++ (b ∷ [])) (omega (arith, k.shorter))
              (rw (t, place) at e)
      ]
