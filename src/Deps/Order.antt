-- ===== src/Deps/Order.antt =====
-- `stable_topological_order` of planet_express/core/dependencies.py.
pub mod Rounds
pub mod Sound
pub mod Decides
use planet_express.Store.Rows.{Text}
use mathlib.Core.Option
use planet_express.Prelude.{
  ℕ, zero, suc, Bool, true, not, ◌&&◌, ◌||◌, Option, none, some, List, [], ◌∷◌, ◌++◌, if◌then◌else◌,
  length,
}
use mathlib.Core.Option
use planet_express.Deps.Graph.{contains, Precedence, needs}

pub data Ordering : Type 0 where
  ordered : List Text → Ordering
  cycle : Ordering
  out_of_fuel : Ordering

-- `precede.get(name, set()) <= placed`, where `precede` keeps the names of the baseline only
abbrev pub all_placed : List Text → List Text → List Text → Bool
all_placed universe placed [] = true
all_placed universe placed (p ∷ ps) =
    (not (contains p universe) || contains p placed) && all_placed universe placed ps

-- The `for` loop: the first name that is ready, and the others in their order.
unfoldable pub take_ready : (Text → Bool) → List Text → Option (Text × List Text)
take_ready ready [] = none
take_ready ready (a ∷ rest) =
    let found = take_ready ready rest in
    if ready a then some (a, rest) else Option.map (λ (b, others). (b, a ∷ others)) found

module _ (universe : List Text) (before : Text → List Text) where
  abbrev pub is_ready : List Text → Text → Bool
  is_ready placed a = all_placed universe placed (before a)

  -- The `while` loop. `result` holds what is placed.
  unfoldable pub place : ℕ → List Text → List Text → Ordering
  unfolding take_ready
  place fuel [] result = ordered result
  place zero (a ∷ rest) result = out_of_fuel
  place (suc fuel) (a ∷ rest) result = elim (take_ready (is_ready result) (a ∷ rest)) [
    | none ↦ cycle
    | some (b, others) ↦ place fuel others (result ++ (b ∷ []))
  ]

-- Each round places one name, so the fuel is the number of names.
unfoldable pub stable_topological_order : List Text → Precedence → Ordering
unfolding place needs
stable_topological_order baseline must_precede =
    place baseline (needs must_precede) (length baseline) baseline []
