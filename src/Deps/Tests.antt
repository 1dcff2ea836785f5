-- ===== src/Deps/Tests.antt =====
-- Two stacks, one of which runs in the network namespace of a container of the other, and the theorems
-- about the graph and the boot order at them.
use planet_express.Deps.Boot.Same.{order_stacks_same}
use planet_express.Deps.Order.Decides.{order_stable, IsOrderOf, order_decides}
use planet_express.Deps.Boot.Respects.{fell_back, InFront, order_stacks_respects}
use planet_express.Deps.Detect.Laws.{said, references, namespace_accounts}
use planet_express.Deps.Order.Rounds.{occurrences}
use planet_express.Store.Rows.{Text}
use planet_express.Deps.Graph.{needs, constrains, Precedence}
use planet_express.Prelude.{
  ◌+◌, ◌≡◌, refl, ap, ◌⊎◌, true, false, none, some, List, [], ◌∷◌, ◌==◌, if◌then◌else◌, length, All,
}
use planet_express.Deps.Order.{ordered, cycle, stable_topological_order}
use planet_express.Deps.Detect.{
  ComposeStack, discover, absent, over_stacks, no_mode, ordering_detectors, container_mode, names,
  detect_namespace, ignored, detect_depends_on,
}
use planet_express.Deps.Boot.{
  StackDir, Reading, parsed, BootOrder, load_stacks, order_stacks, dir_paths, loaded, dir_names,
  reordered,
}

-- The stacks 10 and 20, and the names of services, containers and paths.
abbrev media : ComposeStack
media = record {
  name = 10;
  services =
      (11, some (record { depends = absent; container_name = none; mode = container_mode 99 }))
      ∷ [];
}

abbrev network : ComposeStack
network = record {
  name = 20;
  services =
      (21, some (record { depends = absent; container_name = some 99; mode = no_mode }))
      ∷ (
        22,
        some (record { depends = names (21 ∷ 23 ∷ []); container_name = none; mode = ignored }),
      )
      ∷ [];
}

abbrev stacks : List ComposeStack
stacks = media ∷ network ∷ []

abbrev dir : Text → StackDir
dir n = record { path = n + 100; name = n }

abbrev dirs : List StackDir
dirs = dir 10 ∷ dir 20 ∷ []

abbrev read_dir : StackDir → Reading
read_dir d = if d.name == 10 then parsed media.services else parsed network.services

abbrev smart : BootOrder
smart = (dir 20 ∷ dir 10 ∷ [], reordered (10 ∷ 20 ∷ []) (20 ∷ 10 ∷ []) ∷ [])

boots_network_first : order_stacks ordering_detectors read_dir dirs ≡ smart
unfolding order_stacks over_stacks detect_depends_on detect_namespace needs
boots_network_first = refl

found_edges : length (discover ordering_detectors stacks).dependencies ≡ 2
unfolding discover over_stacks detect_depends_on detect_namespace
found_edges = refl

abbrev loop_of_two : Precedence
loop_of_two = (1, 2 ∷ []) ∷ (2, 1 ∷ []) ∷ []

cycle_found : stable_topological_order (1 ∷ 2 ∷ []) loop_of_two ≡ cycle
unfolding stable_topological_order
cycle_found = refl

abbrev chain : Precedence
chain = (1, 3 ∷ 9 ∷ []) ∷ []

chain_sorted : stable_topological_order (1 ∷ 2 ∷ 3 ∷ []) chain ≡ ordered (2 ∷ 3 ∷ 1 ∷ [])
unfolding stable_topological_order
chain_sorted = refl

order_decides_example :
    ((r : List Text) × (stable_topological_order (1 ∷ 2 ∷ []) loop_of_two ≡ ordered r)
      × IsOrderOf (1 ∷ 2 ∷ []) loop_of_two r)
    ⊎ (stable_topological_order (1 ∷ 2 ∷ []) loop_of_two ≡ cycle)
      × ((l : List Text) → ¬ IsOrderOf (1 ∷ 2 ∷ []) loop_of_two l)
order_decides_example = order_decides (1 ∷ 2 ∷ []) loop_of_two

in_order : IsOrderOf (3 ∷ 1 ∷ []) chain (3 ∷ 1 ∷ [])
unfolding needs
in_order = record { same = λ x. refl; respects = (refl, (refl, tt)) }

order_stable_example : stable_topological_order (3 ∷ 1 ∷ []) chain ≡ ordered (3 ∷ 1 ∷ [])
order_stable_example = order_stable (3 ∷ 1 ∷ []) chain in_order

order_stacks_same_example :
    occurrences 110 (dir_paths (order_stacks ordering_detectors read_dir dirs).0)
    ≡ occurrences 110 (dir_paths dirs)
order_stacks_same_example = order_stacks_same ordering_detectors read_dir dirs 110

loaded_dirs : load_stacks read_dir dirs ≡ loaded stacks
unfolding load_stacks
loaded_dirs = refl

stays_smart : fell_back (order_stacks ordering_detectors read_dir dirs).1 ≡ false
stays_smart = ap (λ o. fell_back o.1) boots_network_first

order_stacks_respects_example :
    All
      (λ d.
        constrains (dir_names dirs) d ≡ true
        → InFront d.target.stack d.source.stack
            (dir_names (order_stacks ordering_detectors read_dir dirs).0))
      (discover ordering_detectors stacks).dependencies
order_stacks_respects_example =
    order_stacks_respects ordering_detectors read_dir dirs stacks loaded_dirs stays_smart

says_every_reference : said (over_stacks (detect_namespace stacks) stacks) ≡ references stacks
says_every_reference = namespace_accounts stacks stacks
