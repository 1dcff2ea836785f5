-- ===== src/Hosts.antt =====
-- Which of the systems that a collector reports is this machine: planet_express/core/hosts.py.
--
-- The order of the ids, which `sorted` breaks ties with, is a parameter.
pub mod Clear
mod Tests
use planet_express.Prelude.{
  All-select, ℕ, zero, suc, ◌+◌, ◌-◌, ◌*◌, ◌/◌, ◌%◌, ◌≤◌, ◌<◌, ◌≡◌, refl, sym, ap, ◌∙◌, subst, ◌≢◌,
  ◌↔◌, ◌⊎◌, inl, inr, Bool, true, false, not, ◌&&◌, ◌||◌, Option, none, some, List, [], ◌∷◌, ◌++◌,
  map, arith, ltb, leb, ◌==◌, if◌then◌else◌, is_none, is_some, opt_eq, coalesce, Bool-cases,
  Option-cases, eq-of-==, ==_refl, length, select, find_row, count_where, touch, update_where, All,
  length-append, count_where-append, All-append, All-intro, All-map, All-touch, All-update_where,
  All-find_row, find_row-update_where, find_row-append, find_row_fits, count_where_zero,
  find_row_none, count_where-update_where-le, update_where_none, Evolves, Evolves-refl,
  Evolves-append, Evolves-update_where, Evolves-trans, Evolves-find_row, All-Evolves,
  find_row-update_where_kept, found_of_count, count_of_found, find_row_weaken, count_where_none,
  DistinctOn, DistinctOn-update_where, DistinctOn-append, DistinctOn-found, DistinctOn-count,
  DistinctOn-count_found,
}
use planet_express.Store.Rows.{Text}

abbrev pub min_local_names : ℕ
min_local_names = 5

abbrev pub margin : ℕ
margin = 3

abbrev pub has_name : Text → List Text → Bool
has_name v [] = false
has_name v (w ∷ ws) = v == w || has_name v ws

-- `_names`: each usable name once; the empty name is 0.
unfoldable pub names : List Text → List Text
names [] = []
names (v ∷ vs) = let rest = names vs in if v == 0 || has_name v rest then rest else v ∷ rest

-- `len(local & _names(names))`
unfoldable pub overlap : List Text → List Text → ℕ
unfolding names
overlap local vs = let ws = names vs in count_where (λ v. has_name v ws) local

-- A system: its id and its container names.
abbrev pub System : Type 0
System = Text × List Text

-- The generator of `overlaps`; a blank id is left out.
unfoldable pub overlaps : List Text → List System → List (ℕ × Text)
unfolding overlap
overlaps local [] = []
overlaps local ((id, vs) ∷ systems) =
    let rest = overlaps local systems in if id == 0 then rest else (overlap local vs, id) ∷ rest

-- The overlap of the system behind the first.
abbrev pub runner_up : List (ℕ × Text) → ℕ
runner_up [] = 0
runner_up ((n, id) ∷ rest) = n

-- `best / len(local) < MIN_COVERAGE` is written without the division.
unfoldable pub settle : ℕ → List (ℕ × Text) → Option Text
settle size [] = none
settle size ((best, id) ∷ rest) =
    if ltb (best * 2) size
    then none
    else if ltb best (margin * runner_up rest)
    then none
    else some id

module _ (is_later : Text → Text → Bool) where
  abbrev pub is_before : ℕ × Text → ℕ × Text → Bool
  is_before (n, i) (m, j) = ltb m n || (n == m && is_later i j)

  unfoldable pub insert_by : ℕ × Text → List (ℕ × Text) → List (ℕ × Text)
  insert_by e [] = e ∷ []
  insert_by e (x ∷ xs) = let rest = insert_by e xs in if is_before e x then e ∷ x ∷ xs else x ∷ rest

  -- `sorted(…, reverse=True)`
  unfoldable pub sorted_down : List (ℕ × Text) → List (ℕ × Text)
  unfolding insert_by
  sorted_down [] = []
  sorted_down (e ∷ es) = insert_by e (sorted_down es)

  unfoldable pub locality : List Text → List System → Option Text
  unfolding names overlaps settle sorted_down
  locality local_names by_system =
      let local = names local_names in
      if ltb (length local) min_local_names
      then none
      else settle (length local) (sorted_down (overlaps local by_system))
