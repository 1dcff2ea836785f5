-- ===== src/Deps/Graph.antt =====
-- Edges between services, and what the graph says of stacks: `Dependency`, `DependencyGraph` and its
-- methods in planet_express/core/dependencies.py. A node `"<stack>/<service>"` is the pair of its
-- names, neither of which holds a slash, so that `split("/", 1)[0]` is its stack.
use planet_express.Store.Rows.{Text}
use planet_express.Prelude.{
  ℕ, Bool, true, false, not, ◌&&◌, ◌||◌, Option, none, some, List, [], ◌∷◌, leb, ◌==◌,
  if◌then◌else◌, select,
}

pub data Kind : Type 0 where
  depends_on namespace shared_mount traefik_router env_reference : Kind

abbrev pub is_ordering : Kind → Bool
is_ordering depends_on = true
is_ordering namespace = true
is_ordering shared_mount = false
is_ordering traefik_router = false
is_ordering env_reference = false

pub record Node : Type 0 where
  pub stack : Text
  pub service : Text

pub record Dependency : Type 0 where
  pub kind : Kind
  pub source : Node
  pub target : Node
  pub cross_project : Bool
  pub detail : Option Text

-- Which field of which service, with the value and the reason.
pub data Doubt : Type 0 where
  malformed_depends_on : Doubt
  unknown_service : Text → Doubt
  unknown_mode : Text → Doubt
  unknown_in_stack : Text → Doubt
  unknown_container : Text → Doubt
  unknown_prefix : Text → Text → Doubt

pub record Unresolved : Type 0 where
  pub stack : Text
  pub service : Text
  pub doubt : Doubt

pub record DependencyGraph : Type 0 where
  pub dependencies : List Dependency
  pub unresolved : List Unresolved

abbrev pub node_eq : Node → Node → Bool
node_eq a b = a.stack == b.stack && a.service == b.service

unfoldable pub for_service : Text → Text → DependencyGraph → List Dependency
for_service stack service g =
    select (λ d. node_eq d.source (record { stack = stack; service = service })) g.dependencies

-- `kind in ("depends_on", "namespace")` and across projects
abbrev pub orders_stacks : Dependency → Bool
orders_stacks d = is_ordering d.kind && d.cross_project

-- `{stack_name: position}`, as the function `stack_order.get`
abbrev pub Positions : Type 0
Positions = Text → Option ℕ

-- The target's stack stands at its source's place or behind.
abbrev pub comes_late : Option ℕ → Option ℕ → Bool
comes_late none t = false
comes_late (some s) none = false
comes_late (some s) (some t) = leb s t

abbrev pub violates : Positions → Dependency → Bool
violates at d = orders_stacks d && comes_late (at d.source.stack) (at d.target.stack)

unfoldable pub ordering_violations : Positions → DependencyGraph → List Dependency
ordering_violations at g = select (violates at) g.dependencies

abbrev pub contains : Text → List Text → Bool
contains a [] = false
contains a (x ∷ xs) = a == x || contains a xs

-- `{stack: {stacks that must start before it}}`
abbrev pub Precedence : Type 0
Precedence = List (Text × List Text)

-- `precedence.setdefault(source, set()).add(target)`
unfoldable pub add_target : Text → Text → Precedence → Precedence
add_target s t [] = (s, t ∷ []) ∷ []
add_target s t ((k, ts) ∷ m) =
    let rest = add_target s t m in
    if k == s then (k, if contains t ts then ts else t ∷ ts) ∷ m else (k, ts) ∷ rest

-- The edges that the loop of `stack_precedence` keeps.
abbrev pub constrains : List Text → Dependency → Bool
constrains names d =
    orders_stacks d
    && not (d.source.stack == d.target.stack)
    && (contains d.source.stack names && contains d.target.stack names)

unfoldable pub add_edges : List Text → List Dependency → Precedence → Precedence
unfolding add_target
add_edges names [] m = m
add_edges names (d ∷ ds) m =
    add_edges names ds
      (if constrains names d then add_target d.source.stack d.target.stack m else m)

unfoldable pub stack_precedence : List Text → DependencyGraph → Precedence
unfolding add_edges
stack_precedence names g = add_edges names g.dependencies []

-- `must_precede.get(name, set())`
unfoldable pub needs : Precedence → Text → List Text
needs [] a = []
needs ((k, ts) ∷ m) a = if k == a then ts else needs m a
