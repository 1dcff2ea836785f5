-- ===== src/Deps/Detect.antt =====
-- The detectors of planet_express/core/dependencies.py whose edges order the stacks, `depends_on` and
-- `network_mode`, and `discover`. A service is what `yaml.safe_load` gives for it,
-- read as far as the detectors read it.
pub mod Laws
use planet_express.Store.Rows.{Text}
use planet_express.Prelude.{
  Bool, false, not, ◌||◌, Option, none, some, List, [], ◌∷◌, ◌++◌, ◌==◌, if◌then◌else◌, opt_eq,
}
use planet_express.Deps.Graph.{
  Node, Dependency, DependencyGraph, Doubt, depends_on, Unresolved, namespace, unknown_mode,
  malformed_depends_on, unknown_in_stack, unknown_service, unknown_container, unknown_prefix,
}

-- `depends_on`: absent, the names of a list or a mapping, or another value.
pub data DependsOn : Type 0 where
  absent : DependsOn
  names : List Text → DependsOn
  malformed : DependsOn

-- `network_mode`: no text; `host`, `bridge`, `none` or `default`; a text with no colon; and a prefix
-- with what follows the first colon.
pub data Mode : Type 0 where
  no_mode : Mode
  ignored : Mode
  plain_mode : Text → Mode
  service_mode : Text → Mode
  container_mode : Text → Mode
  other_mode : Text → Text → Mode

pub record Service : Type 0 where
  pub depends : DependsOn
  pub container_name : Option Text
  pub mode : Mode

-- A service's name and its mapping, if it is one.
abbrev pub Entry : Type 0
Entry = Text × Option Service

pub record ComposeStack : Type 0 where
  pub name : Text
  pub services : List Entry

-- What a detector finds and what it cannot resolve.
pub record Found : Type 0 where
  pub found : List Dependency
  pub unresolved : List Unresolved

abbrev pub nothing : Found
nothing = record { found = []; unresolved = [] }

abbrev pub edge : Dependency → Found
edge d = record { found = d ∷ []; unresolved = [] }

abbrev pub doubtful : Text → Text → Doubt → Found
doubtful stack service doubt = record {
  found = [];
  unresolved = record { stack = stack; service = service; doubt = doubt } ∷ [];
}

infixr 65 ◌<>◌
abbrev pub ◌<>◌ : Found → Found → Found
a <> b = record { found = a.found ++ b.found; unresolved = a.unresolved ++ b.unresolved }

-- A detector's loop over the stacks and their services.
unfoldable pub over_services : (Text → Service → Found) → List Entry → Found
over_services f [] = nothing
over_services f ((n, none) ∷ es) = over_services f es
over_services f ((n, some s) ∷ es) = f n s <> over_services f es

unfoldable pub over_stacks : (ComposeStack → Text → Service → Found) → List ComposeStack → Found
unfolding over_services
over_stacks f [] = nothing
over_stacks f (c ∷ cs) = over_services (f c) c.services <> over_stacks f cs

unfoldable pub has_service : Text → List Entry → Bool
has_service a [] = false
has_service a ((n, s) ∷ es) = a == n || has_service a es

abbrev pub node : Text → Text → Node
node stack service = record { stack = stack; service = service }

-- `DependsOnDetector`: one name of a service's `depends_on`.
unfoldable pub depends_on_name : ComposeStack → Text → Text → Found
unfolding has_service
depends_on_name c service target =
    if has_service target c.services
    then edge (record {
      kind = depends_on;
      source = node c.name service;
      target = node c.name target;
      cross_project = false;
      detail = none;
    })
    else doubtful c.name service (unknown_service target)

unfoldable pub depends_on_names : ComposeStack → Text → List Text → Found
unfolding depends_on_name
depends_on_names c service [] = nothing
depends_on_names c service (t ∷ ts) = depends_on_name c service t <> depends_on_names c service ts

unfoldable pub detect_depends : ComposeStack → Text → DependsOn → Found
unfolding depends_on_names
detect_depends c n absent = nothing
detect_depends c n (names ts) = depends_on_names c n ts
detect_depends c n malformed = doubtful c.name n malformed_depends_on

unfoldable pub detect_depends_on : ComposeStack → Text → Service → Found
unfolding detect_depends
detect_depends_on c n s = detect_depends c n s.depends

-- `container_name_index`: the last service that declares the name. An empty name is none.
unfoldable pub owner_in : Text → Text → List Entry → Option Node → Option Node
owner_in stack a [] known = known
owner_in stack a ((n, none) ∷ es) known = owner_in stack a es known
owner_in stack a ((n, some s) ∷ es) known =
    owner_in stack a es (if opt_eq s.container_name (some a) then some (node stack n) else known)

unfoldable pub owner : Text → List ComposeStack → Option Node → Option Node
unfolding owner_in
owner a [] known = known
owner a (c ∷ cs) known = owner a cs (owner_in c.name a c.services known)

abbrev pub namespace_edge : ComposeStack → Text → Node → Text → Found
namespace_edge c n target mode = edge (record {
  kind = namespace;
  source = node c.name n;
  target = target;
  cross_project = not (target.stack == c.name);
  detail = some mode;
})

-- `container:<name>`, from the name's owner.
unfoldable pub container_edge : ComposeStack → Text → Text → Option Node → Found
container_edge c n a none = doubtful c.name n (unknown_container a)
container_edge c n a (some o) = namespace_edge c n o a

-- `NamespaceReferenceDetector`
unfoldable pub detect_mode : List ComposeStack → ComposeStack → Text → Mode → Found
unfolding owner has_service container_edge
detect_mode stacks c n no_mode = nothing
detect_mode stacks c n ignored = nothing
detect_mode stacks c n (plain_mode t) = doubtful c.name n (unknown_mode t)
detect_mode stacks c n (service_mode a) =
    if has_service a c.services
    then namespace_edge c n (node c.name a) a
    else doubtful c.name n (unknown_in_stack a)
detect_mode stacks c n (container_mode a) = container_edge c n a (owner a stacks none)
detect_mode stacks c n (other_mode p a) = doubtful c.name n (unknown_prefix p a)

unfoldable pub detect_namespace : List ComposeStack → ComposeStack → Text → Service → Found
unfolding detect_mode
detect_namespace stacks c n s = detect_mode stacks c n s.mode

-- A detector's `detect`
abbrev pub Detector : Type 0
Detector = List ComposeStack → Found

-- The detectors of `DETECTORS` that are modelled.
abbrev pub ordering_detectors : List Detector
unfolding over_stacks detect_depends_on detect_namespace
ordering_detectors =
    over_stacks detect_depends_on ∷ (λ stacks. over_stacks (detect_namespace stacks) stacks) ∷ []

unfoldable pub collect : List Detector → List ComposeStack → Found
collect [] stacks = nothing
collect (d ∷ ds) stacks = d stacks <> collect ds stacks

unfoldable pub discover : List Detector → List ComposeStack → DependencyGraph
unfolding collect
discover detectors stacks =
    let all = collect detectors stacks in
    record { dependencies = all.found; unresolved = all.unresolved }
