-- ===== src/Store/Attempts/Caps.antt =====
-- The limits of `reserve_runbook_attempts`.
use planet_express.Prelude.{
  ℕ, ◌+◌, ◌≤◌, ◌<◌, ◌≡◌, refl, ◌∙◌, subst, inl, inr, Bool, true, ◌&&◌, Option, none, some, List, [],
  ◌∷◌, ◌++◌, map, arith, leb, if◌then◌else◌, Bool-cases, select, count_where, count_where-append,
}
use Prim.Native.Nat.{min}
use planet_express.Store.Rows.{Text, Attempt, Db}
use mathlib.Core.List.{append-nil, append_assoc}
use planet_express.Store.Tx.{
  ◌>>=◌, write-eq-ok, write_atomic, gets, ok, err, write, Ensures, Ensures-bind, pure, Ensures-map,
  Result,
}
use planet_express.Store.Attempts.Requests.{
  pair_of, multiplicity, asked, Names, normalize_pairs-Names, multiplicity-asked,
}
use planet_express.Store.Attempts.{
  Pairs, normalize_pairs, Pair, Request, same_pair, Tally, bump, tally, counts_for, AttemptRefusal,
  Limits, check_pair, check_pairs, new_attempt, insert_attempt, insert_attempts, reserve,
  reserve_runbook_attempts, pure,
}

-- The attempts of a pair that count towards the day.
abbrev pub in_window : Limits → Pair → Attempt → Bool
in_window l p a = counts_for p a && leb l.window_start a.reserved_at

-- The multiplicity that the dict holds.
abbrev get : Pair → Tally → ℕ
get p [] = 0
get p ((q, m, first) ∷ d) = if same_pair p q then m else get p d

get-bump :
    (p : Pair) (r : Request) (d : Tally)
    → get p (bump r d) ≡ get p d + (if same_pair p (pair_of r) then 1 else 0)
get-bump (t, k) (n, u, v) [] = ground arith
get-bump (t, k) (n, u, v) (((x, y), m, first) ∷ d) = ground (arith, get-bump (t, k) (n, u, v) d)

get-tally :
    (p : Pair) (rs : List Request) (d : Tally) → get p (tally rs d) ≡ get p d + multiplicity p rs
unfolding tally
get-tally p [] d = omega arith
get-tally p (r ∷ rs) d = omega (arith, get-tally p rs (bump r d), get-bump p r d)

-- The rows that `check_pair` counts are those of the day.
count_recent :
    (l : Limits) (t k : Text) (xs : List Attempt)
    → count_where
        (λ (a : Attempt). leb l.window_start a.reserved_at)
        (select
          (λ a. counts_for (t, k) a && leb (min l.window_start l.cooldown_start) a.reserved_at)
          xs)
      ≡ count_where (in_window l (t, k)) xs
count_recent l t k [] = refl
count_recent l t k (a ∷ xs) = ground (arith, count_recent l t k xs)

check_pair-fits :
    (l : Limits) (t k : Text) (requested first : ℕ) (db : Db)
    → check_pair l ((t, k), requested, first) db ≡ none
    → count_where (in_window l (t, k)) db.attempts + requested ≤ l.max_per_day
unfolding check_pair
check_pair-fits l t k requested first db h = ground (arith, count_recent l t k db.attempts)

same_pair_eq : (t k u v : Text) → same_pair (t, k) (u, v) ≡ true → (t ≡ u) × (k ≡ v)
same_pair_eq t k u v h = (ground arith, ground arith)

module _ (l : Limits) (e : Pair × ℕ × ℕ) (d : Tally) (db : Db) where
  check_head : check_pairs l (e ∷ d) db ≡ none → check_pair l e db ≡ none
  unfolding check_pairs
  check_head h = ground arith

  check_tail : check_pairs l (e ∷ d) db ≡ none → check_pairs l d db ≡ none
  unfolding check_pairs
  check_tail h = ground arith

check_pairs-fits :
    (l : Limits) (t k : Text) (d : Tally) (db : Db)
    → check_pairs l d db ≡ none
    → 0 < get (t, k) d
    → count_where (in_window l (t, k)) db.attempts + get (t, k) d ≤ l.max_per_day
unfolding check_pairs
check_pairs-fits l t k [] db h n = absurd (omega arith)
check_pairs-fits l t k (((u, v), m, first) ∷ d) db h n =
    elim (Bool-cases (same_pair (t, k) (u, v))) [
      | inl e ↦
          let same = same_pair_eq t k u v e in
          rw (e, same.0, same.1)
            (check_pair-fits l u v m first db (check_head l ((u, v), m, first) d db h))
      | inr e ↦
          rw e (
            check_pairs-fits l t k d db (check_tail l ((u, v), m, first) d db h)
              (ground (arith, e)))
    ]

count_new :
    (execution : Text) (l : Limits) (t k : Text) (rs : List Request)
    → l.window_start ≤ l.now
    → count_where (in_window l (t, k)) (map (new_attempt execution l.now) rs)
      ≡ multiplicity (t, k) rs
count_new execution l t k [] h = refl
count_new execution l t k ((n, u, v) ∷ rs) h = ground (arith, count_new execution l t k rs h)

-- The database with the attempts reserved.
abbrev pub reserved_db : Text → Limits → List Request → Db → Db
reserved_db execution l rs db = record db {
  attempts = db.attempts ++ map (new_attempt execution l.now) rs;
}

insert_attempt-appends :
    (a : Attempt) (db : Db)
    → Ensures (λ _ d. d ≡ record db { attempts = db.attempts ++ a ∷ [] }) (insert_attempt a db)
unfolding insert_attempt
insert_attempt-appends a db = ground arith

insert_attempts-appends :
    (e : Text) (l : Limits) (rs : List Request) (db : Db)
    → Ensures (λ _ d. d ≡ reserved_db e l rs db) (insert_attempts e l.now rs db)
unfolding insert_attempts
insert_attempts-appends e l [] db = unchanged
  where
    unchanged : db ≡ reserved_db e l [] db
    unchanged = ground (arith, append-nil db.attempts)
insert_attempts-appends e l (r ∷ rs) db =
    Ensures-bind (λ _ d. d ≡ record db { attempts = db.attempts ++ new_attempt e l.now r ∷ [] })
      (λ _ d. d ≡ reserved_db e l (r ∷ rs) db) (insert_attempt (new_attempt e l.now r))
      (λ _. insert_attempts e l.now rs) db (insert_attempt-appends (new_attempt e l.now r) db)
      λ _ d q.
        Ensures-map (insert_attempts e l.now rs d) (insert_attempts-appends e l rs d)
          (λ _ d' h. h ∙ appended e l r rs db d q)
  where
    appended :
        (e : Text) (l : Limits) (r : Request) (rs : List Request) (db d : Db)
        → d ≡ record db { attempts = db.attempts ++ new_attempt e l.now r ∷ [] }
        → reserved_db e l rs d ≡ reserved_db e l (r ∷ rs) db
    appended e l r rs db d q = rw q (simp append_assoc)

-- What the two results of a reservation mean.
abbrev pub Reserves : Text → Limits → List Request → Db → Option AttemptRefusal → Db → Type 0
Reserves e l rs db none d = (check_pairs l (tally rs []) db ≡ none) × (d ≡ reserved_db e l rs db)
Reserves e l rs db (some refusal) d = d ≡ db

reserve-Reserves :
    (e : Text) (l : Limits) (rs : List Request) (o : Option AttemptRefusal) (db : Db)
    → check_pairs l (tally rs []) db ≡ o
    → Ensures (Reserves e l rs db) (reserve e l rs o db)
unfolding reserve
reserve-Reserves e l rs (some r) db h = refl
reserve-Reserves e l rs none db h =
    Ensures-bind (λ _ d. d ≡ reserved_db e l rs db) (Reserves e l rs db)
      (insert_attempts e l.now rs) (λ _. pure none) db (insert_attempts-appends e l rs db)
      (λ _ d q. (h, q))

-- What the two results of a reservation for these pairs mean.
abbrev pub Outcome : Text → Pairs → Limits → Db → Option AttemptRefusal → Db → Type 0
Outcome e pairs l db o d = (rs : List Request) × Names e db pairs rs × Reserves e l rs db o d

pub reserve_runbook_attempts-Outcome :
    (e : Text) (pairs : Pairs) (l : Limits) (db : Db)
    → Ensures (Outcome e pairs l db) (reserve_runbook_attempts e pairs l db)
unfolding reserve_runbook_attempts
reserve_runbook_attempts-Outcome e pairs l db = elim (Bool-cases (leb 1 l.max_per_day)) [
  | inl t ↦ rw t (
      Ensures-bind (λ rs d. Names e db pairs rs × (d ≡ db)) (Outcome e pairs l db)
        (normalize_pairs e pairs)
        (λ rs. gets (check_pairs l (tally rs [])) >>= λ o. reserve e l rs o) db
        (normalize_pairs-Names e pairs db)
        (λ rs d q. rw q.1 (
          Ensures-map (reserve e l rs (check_pairs l (tally rs []) db) db)
            (reserve-Reserves e l rs (check_pairs l (tally rs []) db) db refl)
            (λ o d' h. (rs, q.0, h)))))
  | inr t ↦ rw t tt
]

-- The database that each result of a reservation leaves.
abbrev pub LeftBy : Text → Pairs → Limits → Db → Result (Option AttemptRefusal) → Db → Type 0
LeftBy e pairs l db (ok none) d =
    (rs : List Request) × Names e db pairs rs × (d ≡ reserved_db e l rs db)
LeftBy e pairs l db (ok (some r)) d = d ≡ db
LeftBy e pairs l db (err x) d = d ≡ db

module _ (e : Text) (pairs : Pairs) (l : Limits) (db : Db) where
  outcome :
      (o : Option AttemptRefusal)
      → (write (reserve_runbook_attempts e pairs l) db).0 ≡ ok o
      → Outcome e pairs l db o (write (reserve_runbook_attempts e pairs l) db).1
  outcome o h =
      subst (Ensures (Outcome e pairs l db)) (write-eq-ok _ db o h)
        (reserve_runbook_attempts-Outcome e pairs l db)

  settled_by :
      (o : Result (Option AttemptRefusal))
      → (write (reserve_runbook_attempts e pairs l) db).0 ≡ o
      → LeftBy e pairs l db o (write (reserve_runbook_attempts e pairs l) db).1
  settled_by (ok none) h = let (rs, named, r) = outcome none h in (rs, named, r.1)
  settled_by (ok (some r)) h = (outcome (some r) h).2
  settled_by (err x) h = write_atomic (reserve_runbook_attempts e pairs l) db x h

  -- A reservation is all or nothing, with numbers in the pairs or without: if it is refused, or raises,
  -- the database is as it was; if it is granted, one reserved attempt is added for each request that
  -- the pairs name, in their order, and nothing else changes. Pairs with numbers name themselves, each
  -- a stored step of its type; pairs without numbers take stored steps of their types in order, and
  -- none twice.
  pub reserve_all_or_nothing :
      LeftBy e pairs l db
        (write (reserve_runbook_attempts e pairs l) db).0
        (write (reserve_runbook_attempts e pairs l) db).1
  reserve_all_or_nothing = settled_by _ refl

  -- After a reservation that was granted at a time not before the start of its window, with numbers in
  -- the pairs or without, no pair that it names has more attempts in the window that were not released
  -- than the cap allows, those just reserved included.
  pub reserve_within_cap :
      (t k : Text)
      → l.window_start ≤ l.now
      → (write (reserve_runbook_attempts e pairs l) db).0 ≡ ok none
      → 0 < asked (t, k) pairs
      → count_where (in_window l (t, k)) (write (reserve_runbook_attempts e pairs l) db).1.attempts
        ≤ l.max_per_day
  reserve_within_cap t k w h n =
      let (rs, named, o) = outcome none h in
      let many = multiplicity-asked e db (t, k) pairs rs named in
      rw (o.1, count_where-append)
        (omega (
          arith,
          get-tally (t, k) rs [],
          count_new e l t k rs w,
          check_pairs-fits l t k (tally rs []) db o.0 (omega (arith, many, get-tally (t, k) rs [])),
        ))
