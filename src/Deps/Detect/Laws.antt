-- ===== src/Deps/Detect/Laws.antt =====
-- A detector emits an edge or declines: what becomes of each reference, and where the edges lead.
use planet_express.Store.Rows.{Text}
use planet_express.Prelude.{
  ℕ, ◌+◌, ◌≡◌, refl, ◌∙◌, inl, inr, Bool, true, false, not, none, some, List, [], ◌∷◌, arith, ◌==◌,
  if◌then◌else◌, Bool-cases, ==_refl, length, All, length-append, All-append,
}
use planet_express.Deps.Graph.{Dependency, Node}
use planet_express.Deps.Detect.{
  Found, Mode, Service, ComposeStack, Entry, detect_mode, discover, over_services, over_stacks,
  detect_depends, ◌<>◌, plain_mode, depends_on_names, depends_on_name, detect_namespace,
  service_mode, Text, ordering_detectors, container_mode, detect_depends_on, has_service, DependsOn,
  other_mode, owner, names, no_mode, absent, ignored, malformed, container_edge, Option,
}

-- A `network_mode` that looks like a reference: a text that is none of the ignored ones.
abbrev pub is_reference : Mode → Bool
is_reference no_mode = false
is_reference ignored = false
is_reference (plain_mode t) = true
is_reference (service_mode a) = true
is_reference (container_mode a) = true
is_reference (other_mode p a) = true

abbrev pub references_in : List Entry → ℕ
references_in [] = 0
references_in ((n, none) ∷ es) = references_in es
references_in ((n, some s) ∷ es) = (if is_reference s.mode then 1 else 0) + references_in es

abbrev pub references : List ComposeStack → ℕ
references [] = 0
references (c ∷ cs) = references_in c.services + references cs

-- How much a detector has said.
abbrev pub said : Found → ℕ
said f = length f.found + length f.unresolved

said-<> : (a b : Found) → said (a <> b) ≡ said a + said b
said-<> a b = omega (arith, length-append a.found b.found, length-append a.unresolved b.unresolved)

container_said :
    (c : ComposeStack) (n a : Text) (o : Option Node) → said (container_edge c n a o) ≡ 1
unfolding container_edge
container_said c n a none = refl
container_said c n a (some o) = refl

mode_said :
    (stacks : List ComposeStack) (c : ComposeStack) (n : Text) (m : Mode)
    → said (detect_mode stacks c n m) ≡ (if is_reference m then 1 else 0)
unfolding detect_mode
mode_said stacks c n no_mode = refl
mode_said stacks c n ignored = refl
mode_said stacks c n (plain_mode t) = refl
mode_said stacks c n (service_mode a) = elim (Bool-cases (has_service a c.services)) [
  | inl e ↦ rw (e, detect_mode)
  | inr e ↦ rw (e, detect_mode)
]
mode_said stacks c n (container_mode a) = container_said c n a (owner a stacks none)
mode_said stacks c n (other_mode p a) = refl

services_said :
    (stacks : List ComposeStack) (c : ComposeStack) (es : List Entry)
    → said (over_services (detect_namespace stacks c) es) ≡ references_in es
unfolding over_services detect_namespace
services_said stacks c [] = refl
services_said stacks c ((n, none) ∷ es) = services_said stacks c es
services_said stacks c ((n, some s) ∷ es) =
    said-<> (detect_mode stacks c n s.mode) (over_services (detect_namespace stacks c) es)
    ∙ omega (arith, mode_said stacks c n s.mode, services_said stacks c es)

-- Nothing is dropped: each `network_mode` that looks like a reference becomes exactly one edge or one
-- unresolved dependency, and nothing else does.
pub namespace_accounts :
    (stacks cs : List ComposeStack)
    → said (over_stacks (detect_namespace stacks) cs) ≡ references cs
unfolding over_stacks
namespace_accounts stacks [] = refl
namespace_accounts stacks (c ∷ cs) =
    said-<> (over_services (detect_namespace stacks c) c.services)
      (over_stacks (detect_namespace stacks) cs)
    ∙ omega (arith, services_said stacks c c.services, namespace_accounts stacks cs)

-- An edge says that it crosses projects exactly when its ends are in different stacks.
abbrev pub IsHonestEdge : Dependency → Type 0
IsHonestEdge d = d.cross_project ≡ not (d.target.stack == d.source.stack)

depends_on_honest :
    (c : ComposeStack) (n : Text) (ts : List Text)
    → All IsHonestEdge (depends_on_names c n ts).found
unfolding depends_on_names depends_on_name
depends_on_honest c n [] = tt
depends_on_honest c n (t ∷ ts) = elim (Bool-cases (has_service t c.services)) [
  | inl e ↦ rw e (rw (==_refl c.name) refl, depends_on_honest c n ts)
  | inr e ↦ rw e (depends_on_honest c n ts)
]

container_honest :
    (c : ComposeStack) (n a : Text) (o : Option Node)
    → All IsHonestEdge (container_edge c n a o).found
unfolding container_edge
container_honest c n a none = tt
container_honest c n a (some o) = (refl, tt)

mode_honest :
    (stacks : List ComposeStack) (c : ComposeStack) (n : Text) (m : Mode)
    → All IsHonestEdge (detect_mode stacks c n m).found
unfolding detect_mode
mode_honest stacks c n no_mode = tt
mode_honest stacks c n ignored = tt
mode_honest stacks c n (plain_mode t) = tt
mode_honest stacks c n (service_mode a) = elim (Bool-cases (has_service a c.services)) [
  | inl e ↦ rw e (refl, tt)
  | inr e ↦ rw e tt
]
mode_honest stacks c n (container_mode a) = container_honest c n a (owner a stacks none)
mode_honest stacks c n (other_mode p a) = tt

over_services_honest :
    (f : Text → Service → Found)
    → ((n : Text) (s : Service) → All IsHonestEdge (f n s).found)
    → (es : List Entry) → All IsHonestEdge (over_services f es).found
unfolding over_services
over_services_honest f h [] = tt
over_services_honest f h ((n, none) ∷ es) = over_services_honest f h es
over_services_honest f h ((n, some s) ∷ es) =
    All-append IsHonestEdge (f n s).found _ (h n s) (over_services_honest f h es)

over_stacks_honest :
    (f : ComposeStack → Text → Service → Found)
    → ((c : ComposeStack) (n : Text) (s : Service) → All IsHonestEdge (f c n s).found)
    → (cs : List ComposeStack) → All IsHonestEdge (over_stacks f cs).found
unfolding over_stacks
over_stacks_honest f h [] = tt
over_stacks_honest f h (c ∷ cs) =
    All-append IsHonestEdge (over_services (f c) c.services).found _
      (over_services_honest (f c) (h c) c.services) (over_stacks_honest f h cs)

depends_honest :
    (c : ComposeStack) (n : Text) (d : DependsOn) → All IsHonestEdge (detect_depends c n d).found
unfolding detect_depends
depends_honest c n absent = tt
depends_honest c n (names ts) = depends_on_honest c n ts
depends_honest c n malformed = tt

-- Every edge that the ordering detectors find crosses projects exactly when it says so.
pub discover_honest :
    (stacks : List ComposeStack)
    → All IsHonestEdge (discover ordering_detectors stacks).dependencies
unfolding discover ordering_detectors detect_namespace detect_depends_on
discover_honest stacks =
    All-append IsHonestEdge (over_stacks detect_depends_on stacks).found _
      (over_stacks_honest detect_depends_on (λ c n s. depends_honest c n s.depends) stacks)
      (All-append IsHonestEdge (over_stacks (detect_namespace stacks) stacks).found []
        (over_stacks_honest (detect_namespace stacks) (λ c n s. mode_honest stacks c n s.mode)
          stacks)
        tt)
