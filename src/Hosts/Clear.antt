-- ===== src/Hosts/Clear.antt =====
-- An answer of `locality` of planet_express/core/hosts.py is clear of every other system.
use planet_express.Prelude.{
  ℕ, ◌+◌, ◌*◌, ◌≤◌, ◌<◌, ◌≡◌, refl, sym, ap, ◌∙◌, subst, ◌⊎◌, inl, inr, Bool, true, false, ◌&&◌,
  some, List, [], ◌∷◌, arith, ltb, ◌==◌, if◌then◌else◌, Bool-cases, eq-of-==, ==_refl, length,
  count_where, All,
}
use mathlib.Core.Option.{some-injective}
use planet_express.Store.Rows.{Text}
use planet_express.Hosts.{
  margin, is_before, insert_by, sorted_down, runner_up, System, locality, settle, overlaps,
  min_local_names, overlap, names,
}

abbrev Descending : List (ℕ × Text) → Type 0
Descending [] = Unit {0}
Descending (x ∷ xs) = All (λ (e : ℕ × Text). e.0 ≤ x.0) xs × Descending xs

-- The system itself, or one that it exceeds by the margin.
abbrev Exceeded : Text → ℕ → ℕ × Text → Type 0
Exceeded s best e = (e.1 ≡ s) ⊎ (margin * e.0 ≤ best)

module _ (is_later : Text → Text → Bool) where
  module _ (P : ℕ × Text → Type 0) where
    All-insert_by :
        (e : ℕ × Text) (xs : List (ℕ × Text)) → P e → All P xs → All P (insert_by is_later e xs)
    unfolding insert_by
    All-insert_by e [] p h = (p, tt)
    All-insert_by e (x ∷ xs) p h = elim (Bool-cases (is_before is_later e x)) [
      | inl b ↦ rw b (p, h)
      | inr b ↦ rw b (h.0, All-insert_by e xs p h.1)
    ]

    All-of-insert_by :
        (e : ℕ × Text) (xs : List (ℕ × Text)) → All P (insert_by is_later e xs) → P e × All P xs
    unfolding insert_by
    All-of-insert_by e [] h = (h.0, tt)
    All-of-insert_by e (x ∷ xs) h = elim (Bool-cases (is_before is_later e x)) [
      | inl b ↦ rw b at h
      | inr b ↦ let g = rw b at h in let r = All-of-insert_by e xs g.1 in (r.0, (g.0, r.1))
    ]

    All-of-sorted_down : (xs : List (ℕ × Text)) → All P (sorted_down is_later xs) → All P xs
    unfolding sorted_down
    All-of-sorted_down [] h = tt
    All-of-sorted_down (e ∷ es) h =
        let r = All-of-insert_by e (sorted_down is_later es) h in (r.0, All-of-sorted_down es r.1)

  count-insert_by :
      (q : ℕ × Text → Bool) (e : ℕ × Text) (xs : List (ℕ × Text))
      → count_where q (insert_by is_later e xs) ≡ (if q e then 1 else 0) + count_where q xs
  unfolding insert_by
  count-insert_by q e [] = refl
  count-insert_by q e (x ∷ xs) = elim (Bool-cases (is_before is_later e x)) [
    | inl b ↦ rw b refl
    | inr b ↦ rw b (omega (arith, count-insert_by q e xs))
  ]

  count-sorted_down :
      (q : ℕ × Text → Bool) (xs : List (ℕ × Text))
      → count_where q (sorted_down is_later xs) ≡ count_where q xs
  unfolding sorted_down
  count-sorted_down q [] = refl
  count-sorted_down q (e ∷ es) =
      count-insert_by q e (sorted_down is_later es)
      ∙ ap (λ n. (if q e then 1 else 0) + n) (count-sorted_down q es)

  is_before-le : (e x : ℕ × Text) → is_before is_later e x ≡ true → x.0 ≤ e.0
  is_before-le (n, i) (m, j) h = ground arith

  is_before-ge : (e x : ℕ × Text) → is_before is_later e x ≡ false → e.0 ≤ x.0
  is_before-ge (n, i) (m, j) h = ground arith

  All-le :
      (a b : ℕ) (xs : List (ℕ × Text))
      → a ≤ b
      → All (λ (e : ℕ × Text). e.0 ≤ a) xs
      → All (λ (e : ℕ × Text). e.0 ≤ b) xs
  All-le a b [] k h = tt
  All-le a b (x ∷ xs) k h = (omega (arith, h.0), All-le a b xs k h.1)

  insert_by-Descending :
      (e : ℕ × Text) (xs : List (ℕ × Text)) → Descending xs → Descending (insert_by is_later e xs)
  unfolding insert_by
  insert_by-Descending e [] d = (tt, tt)
  insert_by-Descending e (x ∷ xs) d = elim (Bool-cases (is_before is_later e x)) [
    | inl b ↦ rw b ((is_before-le e x b, All-le x.0 e.0 xs (is_before-le e x b) d.0), d)
    | inr b ↦ rw b (
      All-insert_by (λ y. y.0 ≤ x.0) e xs (is_before-ge e x b) d.0,
      insert_by-Descending e xs d.1,
    )
  ]

  sorted_down-Descending : (xs : List (ℕ × Text)) → Descending (sorted_down is_later xs)
  unfolding sorted_down
  sorted_down-Descending [] = tt
  sorted_down-Descending (e ∷ es) =
      insert_by-Descending e (sorted_down is_later es) (sorted_down-Descending es)

-- What the answer of `settle` is the head of.
record Settled (size : ℕ) (xs : List (ℕ × Text)) (s : Text) : Type 0 where
  best : ℕ
  rest : List (ℕ × Text)
  head : xs ≡ (best, s) ∷ rest
  covers : size ≤ best * 2
  exceeds : margin * runner_up rest ≤ best

settle-Settled :
    (size : ℕ) (xs : List (ℕ × Text)) (s : Text) → settle size xs ≡ some s → Settled size xs s
unfolding settle
settle-Settled size [] s q = cc
settle-Settled size ((b, i) ∷ rest) s q = elim (Bool-cases (ltb (b * 2) size)) [
  | inl x ↦ cc (rw x at q)
  | inr x ↦ elim (Bool-cases (ltb b (margin * runner_up rest))) [
    | inl y ↦ cc (rw (x, y) at q)
    | inr y ↦ record {
      best = b;
      rest = rest;
      head = ap (λ j. (b, j) ∷ rest) (some-injective i s (rw (x, y) at q));
      covers = ground (arith, x);
      exceeds = ground (arith, y);
    }
  ]
]

rest-Exceeded :
    (s : Text) (best m : ℕ) (xs : List (ℕ × Text))
    → margin * m ≤ best
    → All (λ (e : ℕ × Text). e.0 ≤ m) xs
    → All (Exceeded s best) xs
rest-Exceeded s best m [] h d = tt
rest-Exceeded s best m (x ∷ xs) h d = (inr (omega (arith, h, d.0)), rest-Exceeded s best m xs h d.1)

behind-Exceeded :
    (s : Text) (best : ℕ) (rest : List (ℕ × Text))
    → margin * runner_up rest ≤ best
    → Descending rest
    → All (Exceeded s best) rest
behind-Exceeded s best [] h d = tt
behind-Exceeded s best ((m, j) ∷ rest) h d = (inr h, rest-Exceeded s best m rest h d.0)

-- A system whose id is blank, which is the answer itself, or which it exceeds by the margin.
abbrev pub IsBehind : List Text → Text → ℕ → System → Type 0
IsBehind local s best y = (y.0 ≡ 0) ⊎ (y.0 ≡ s) ⊎ (margin * overlap local y.1 ≤ best)

-- There are enough local names; some system of this id has at least half of them, and three times as many
-- as any system of another id.
pub record IsClear (local : List Text) (systems : List System) (s : Text) : Type 0 where
  pub enough : min_local_names ≤ length local
  pub best : ℕ
  pub reported : 0 < count_where (λ (y : System). y.0 == s && overlap local y.1 == best) systems
  pub covers : length local ≤ best * 2
  pub exceeds : All (IsBehind local s best) systems

systems-IsBehind :
    (local : List Text) (s : Text) (best : ℕ) (systems : List System)
    → All (Exceeded s best) (overlaps local systems)
    → All (IsBehind local s best) systems
unfolding overlaps
systems-IsBehind local s best [] h = tt
systems-IsBehind local s best ((id, vs) ∷ systems) h = elim (Bool-cases (id == 0)) [
  | inl z ↦ (inl (eq-of-== id 0 z), systems-IsBehind local s best systems (rw z at h))
  | inr z ↦ let g = rw z at h in (inr g.0, systems-IsBehind local s best systems g.1)
]

overlaps-reported :
    (local : List Text) (s : Text) (best : ℕ) (systems : List System)
    → count_where (λ (e : ℕ × Text). e.1 == s && e.0 == best) (overlaps local systems)
      ≤ count_where (λ (y : System). y.0 == s && overlap local y.1 == best) systems
unfolding overlaps
overlaps-reported local s best [] = omega arith
overlaps-reported local s best ((id, vs) ∷ systems) = elim (Bool-cases (id == 0)) [
  | inl z ↦ rw z (omega (arith, overlaps-reported local s best systems))
  | inr z ↦ rw z (omega (arith, overlaps-reported local s best systems))
]

first_counts :
    (b : ℕ) (s : Text) (rest : List (ℕ × Text))
    → 0 < count_where (λ (e : ℕ × Text). e.1 == s && e.0 == b) ((b, s) ∷ rest)
first_counts b s rest = rw (==_refl s, ==_refl b) (omega arith)

Settled-IsClear :
    (is_later : Text → Text → Bool) (local : List Text) (systems : List System) (s : Text)
    → min_local_names ≤ length local
    → Settled (length local) (sorted_down is_later (overlaps local systems)) s
    → IsClear local systems s
Settled-IsClear is_later local systems s n t =
    let d = subst Descending t.head (sorted_down-Descending is_later (overlaps local systems)) in
    let q = λ (e : ℕ × Text). e.1 == s && e.0 == t.best in
    let counted =
      sym (count-sorted_down is_later q (overlaps local systems)) ∙ ap (count_where q) t.head in
    record {
      enough = n;
      best = t.best;
      reported =
          omega (
            arith,
            overlaps-reported local s t.best systems,
            counted,
            first_counts t.best s t.rest,
          );
      covers = t.covers;
      exceeds = systems-IsBehind local s t.best systems (
          All-of-sorted_down is_later (Exceeded s t.best) (overlaps local systems) (
            subst (All (Exceeded s t.best)) (sym t.head)
              (inl refl, behind-Exceeded s t.best t.rest t.exceeds d.1)));
    }

-- If `locality` answers with a system: there are at least five local names; a system of that id reports
-- at least half of them, and at least three times as many as any system of another id.
pub locality-IsClear :
    (is_later : Text → Text → Bool) (local_names : List Text) (systems : List System) (s : Text)
    → locality is_later local_names systems ≡ some s
    → IsClear (names local_names) systems s
unfolding locality
locality-IsClear is_later local_names systems s q =
    elim (Bool-cases (ltb (length (names local_names)) min_local_names)) [
      | inl x ↦ cc (rw (locality, x) at q)
      | inr x ↦ Settled-IsClear is_later (names local_names) systems s (ground (arith, x)) (
          settle-Settled (length (names local_names))
            (sorted_down is_later (overlaps (names local_names) systems)) s (rw (locality, x) at q))
    ]
