-- ===== src/Deps/Boot.antt =====
-- `order_stacks` of planet_express/execution/boot_order.py: the boot's own order of the stacks, or one
-- that the dependencies ask for.
pub mod Same
pub mod Respects
use planet_express.Store.Rows.{Text}
use planet_express.Deps.Detect.{ComposeStack, discover, Entry, Detector}
use planet_express.Prelude.{
  Bool, true, false, ◌&&◌, Option, none, some, List, [], ◌∷◌, map, leb, ◌==◌, if◌then◌else◌,
  coalesce,
}
use planet_express.Deps.Graph.{Precedence, stack_precedence}
use planet_express.Deps.Order.{ordered, cycle, out_of_fuel, stable_topological_order}

pub record StackDir : Type 0 where
  pub path : Text
  pub name : Text

-- What reading and parsing a stack's compose file comes to.
pub data Reading : Type 0 where
  unreadable : Reading
  unparsable : Reading
  parsed : List Entry → Reading

pub data LogLine : Type 0 where
  cannot_read : Text → LogLine
  cannot_parse : Text → LogLine
  found_cycle : List Text → LogLine
  not_the_set : LogLine
  no_order : LogLine
  reordered : List Text → List Text → LogLine

pub data Loaded : Type 0 where
  loaded : List ComposeStack → Loaded
  refused : LogLine → Loaded

abbrev pub add_stack : ComposeStack → Loaded → Loaded
add_stack c (loaded cs) = loaded (c ∷ cs)
add_stack c (refused l) = refused l

-- The loop over the compose files: the first that cannot be read or parsed ends it.
unfoldable pub load_stacks : (StackDir → Reading) → List StackDir → Loaded
load_stacks read [] = loaded []
load_stacks read (d ∷ ds) =
    let rest = load_stacks read ds in
    elim (read d) [
      | unreadable ↦ refused (cannot_read d.path)
      | unparsable ↦ refused (cannot_parse d.path)
      | parsed es ↦ add_stack (record { name = d.name; services = es }) rest
    ]

abbrev pub dir_names : List StackDir → List Text
dir_names = map (λ d. d.name)

abbrev pub dir_paths : List StackDir → List Text
dir_paths = map (λ d. d.path)

-- `baseline[position[name]]`: of two directories with one name, the last.
unfoldable pub dir_at : Text → List StackDir → Option StackDir
dir_at a [] = none
dir_at a (d ∷ ds) = coalesce (dir_at a ds) (if d.name == a then some d else none)

abbrev pub cons_dir : Option StackDir → Option (List StackDir) → Option (List StackDir)
cons_dir none ds = none
cons_dir (some d) none = none
cons_dir (some d) (some ds) = some (d ∷ ds)

unfoldable pub dirs_at : List Text → List StackDir → Option (List StackDir)
unfolding dir_at
dirs_at [] baseline = some []
dirs_at (a ∷ names) baseline = cons_dir (dir_at a baseline) (dirs_at names baseline)

abbrev pub list_eq : List Text → List Text → Bool
list_eq [] [] = true
list_eq [] (y ∷ ys) = false
list_eq (x ∷ xs) [] = false
list_eq (x ∷ xs) (y ∷ ys) = x == y && list_eq xs ys

-- `sorted`
unfoldable pub insert_sorted : Text → List Text → List Text
insert_sorted a [] = a ∷ []
insert_sorted a (x ∷ xs) = let rest = insert_sorted a xs in if leb a x then a ∷ x ∷ xs else x ∷ rest

unfoldable pub sorted : List Text → List Text
unfolding insert_sorted
sorted [] = []
sorted (x ∷ xs) = insert_sorted x (sorted xs)

abbrev pub BootOrder : Type 0
BootOrder = List StackDir × List LogLine

-- The names in their order are turned into directories, and checked to be the same set.
unfoldable pub reassemble : List StackDir → List Text → BootOrder
unfolding dirs_at sorted
reassemble baseline names = elim (dirs_at names baseline) [
  | none ↦ (baseline, no_order ∷ [])
  | some dirs ↦
      if list_eq (sorted (dir_paths dirs)) (sorted (dir_paths baseline))
      then (dirs, reordered (dir_names baseline) names ∷ [])
      else (baseline, not_the_set ∷ [])
]

abbrev pub keys_of : Precedence → List Text
keys_of = map (λ (k, ts). k)

abbrev pub is_empty : Precedence → Bool
is_empty [] = true
is_empty (x ∷ xs) = false

unfoldable pub order_by : List StackDir → Precedence → BootOrder
unfolding reassemble stable_topological_order
order_by baseline must_precede =
    if is_empty must_precede
    then (baseline, [])
    else elim (stable_topological_order (dir_names baseline) must_precede) [
      | cycle ↦ (baseline, found_cycle (keys_of must_precede) ∷ [])
      | out_of_fuel ↦ (baseline, no_order ∷ [])
      | ordered names ↦
          if list_eq names (dir_names baseline) then (baseline, []) else reassemble baseline names
    ]

unfoldable pub order_stacks : List Detector → (StackDir → Reading) → List StackDir → BootOrder
unfolding load_stacks discover stack_precedence order_by
order_stacks detectors read stacks = elim (load_stacks read stacks) [
  | refused line ↦ (stacks, line ∷ [])
  | loaded parsed_stacks ↦
      order_by stacks (stack_precedence (dir_names stacks) (discover detectors parsed_stacks))
]
