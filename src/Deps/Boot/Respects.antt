-- ===== src/Deps/Boot/Respects.antt =====
-- Where `order_stacks` does not fall back to the baseline, its order satisfies every edge that orders
-- the stacks.
use planet_express.Deps.Detect.{Detector, ComposeStack, discover}
use mathlib.Core.Option.{some-injective}
use planet_express.Deps.Order.{stable_topological_order, ordered}
use mathlib.Core.Option.{some-injective}
use planet_express.Store.Rows.{Text}
use planet_express.Prelude.{
  ◌≡◌, refl, sym, ap, ◌∙◌, subst, ◌⊎◌, inl, inr, Bool, true, false, some, List, [], ◌∷◌, ◌++◌,
  arith, ◌==◌, Bool-cases, Option-cases, eq-of-==, All, All-map,
}
use planet_express.Deps.Graph.{
  contains, needs, add_target, Precedence, stack_precedence, add_edges, Dependency, DependencyGraph,
  constrains,
}
use planet_express.Deps.Boot.{
  StackDir, LogLine, Text, dir_at, dirs_at, dir_names, cannot_read, cannot_parse, found_cycle,
  reordered, not_the_set, no_order, order_by, reassemble, is_empty, list_eq, sorted, dir_paths,
  order_stacks, Reading, load_stacks, loaded,
}
use planet_express.Deps.Boot.Same.{eq-of-list_eq}
use planet_express.Deps.Order.Decides.{Ordering-cases, order_respects}

added : (s t : Text) (m : Precedence) → contains t (needs (add_target s t m) s) ≡ true
unfolding needs add_target
added s t [] = ground arith
added s t ((k, ts) ∷ m) = elim (Bool-cases (k == s)) [
  | inl e ↦ elim (Bool-cases (contains t ts)) [
    | inl c ↦ rw (e, c) (rw e c)
    | inr c ↦ rw (e, c) (rw e (ground arith))
  ]
  | inr e ↦ rw e (rw e (added s t m))
]

kept_target :
    (s t a q : Text) (m : Precedence)
    → contains q (needs m a) ≡ true
    → contains q (needs (add_target s t m) a) ≡ true
unfolding needs add_target
kept_target s t a q [] h = cc
kept_target s t a q ((k, ts) ∷ m) h = elim (Bool-cases (k == s)) [
  | inl e ↦ elim (Bool-cases (contains t ts)) [
    | inl c ↦ rw (e, c) h
    | inr c ↦ elim (Bool-cases (k == a)) [
      | inl f ↦ rw (e, c) (rw f (ground (arith, f, rw f at h)))
      | inr f ↦ rw (e, c) (rw f (rw f at h))
    ]
  ]
  | inr e ↦ elim (Bool-cases (k == a)) [
    | inl f ↦ rw e (rw f (rw f at h))
    | inr f ↦ rw e (rw f (kept_target s t a q m (rw f at h)))
  ]
]

module _ (names : List Text) where
  kept_edges :
      (ds : List Dependency) (m : Precedence) (a q : Text)
      → contains q (needs m a) ≡ true
      → contains q (needs (add_edges names ds m) a) ≡ true
  unfolding add_edges
  kept_edges [] m a q h = h
  kept_edges (d ∷ ds) m a q h = elim (Bool-cases (constrains names d)) [
    | inl e ↦ rw e (kept_edges ds _ a q (kept_target d.source.stack d.target.stack a q m h))
    | inr e ↦ rw e (kept_edges ds m a q h)
  ]

  abbrev IsNeeded : Precedence → Dependency → Type 0
  IsNeeded m d = constrains names d ≡ true → contains d.target.stack (needs m d.source.stack) ≡ true

  edges-IsNeeded :
      (ds : List Dependency) (m : Precedence) → All (IsNeeded (add_edges names ds m)) ds
  unfolding add_edges
  edges-IsNeeded [] m = tt
  edges-IsNeeded (d ∷ ds) m = (
    λ e.
        rw e
          (kept_edges ds _ d.source.stack d.target.stack (added d.source.stack d.target.stack m)),
    edges-IsNeeded ds _,
  )

  -- Each edge that orders two stacks of the boot is in the reduction to stacks.
  pub stack_precedence_keeps :
      (g : DependencyGraph) → All (IsNeeded (stack_precedence names g)) g.dependencies
  unfolding stack_precedence
  stack_precedence_keeps g = edges-IsNeeded g.dependencies []

-- Wherever `a` stands in the list, `p` stands in front of it.
abbrev pub InFront : Text → Text → List Text → Type 0
InFront p a l = (xs ys : List Text) → l ≡ xs ++ (a ∷ ys) → contains p xs ≡ true

-- A line that says that the baseline order is used.
abbrev pub fell_back : List LogLine → Bool
fell_back [] = false
fell_back (cannot_read p ∷ ls) = true
fell_back (cannot_parse p ∷ ls) = true
fell_back (found_cycle k ∷ ls) = true
fell_back (not_the_set ∷ ls) = true
fell_back (no_order ∷ ls) = true
fell_back (reordered a b ∷ ls) = false

name_at : (a : Text) (ds : List StackDir) (d : StackDir) → dir_at a ds ≡ some d → d.name ≡ a
unfolding dir_at
name_at a [] d h = cc
name_at a (e ∷ ds) d h = elim (Option-cases (dir_at a ds)) [
  | inl n ↦ elim (Bool-cases (e.name == a)) [
    | inl k ↦ subst (λ z. z.name ≡ a) (some-injective e d (rw (n, k) at h)) (eq-of-== e.name a k)
    | inr k ↦ cc (rw (n, k) at h)
  ]
  | inr (f, g) ↦ subst (λ z. z.name ≡ a) (some-injective f d (rw g at h)) (name_at a ds f g)
]

names_at :
    (names : List Text) (baseline dirs : List StackDir)
    → dirs_at names baseline ≡ some dirs
    → dir_names dirs ≡ names
unfolding dirs_at
names_at [] baseline dirs h = ap dir_names (sym (some-injective [] dirs h))
names_at (a ∷ names) baseline dirs h = elim (Option-cases (dir_at a baseline)) [
  | inl n ↦ cc (rw n at h)
  | inr (d, e) ↦ elim (Option-cases (dirs_at names baseline)) [
    | inl n ↦ cc (rw (e, n) at h)
    | inr (ds, f) ↦
        ap dir_names (sym (some-injective (d ∷ ds) dirs (rw (e, f) at h)))
        ∙ rw (name_at a baseline d e, names_at names baseline ds f)
  ]
]

reassembled :
    (baseline : List StackDir) (names : List Text)
    → fell_back (reassemble baseline names).1 ≡ false
    → names ≡ dir_names (reassemble baseline names).0
unfolding reassemble
reassembled baseline names h = elim (Option-cases (dirs_at names baseline)) [
  | inl n ↦ cc (rw (n, reassemble) at h)
  | inr (dirs, f) ↦
      elim (Bool-cases (list_eq (sorted (dir_paths dirs)) (sorted (dir_paths baseline)))) [
        | inl q ↦ rw (f, q, reassemble) (sym (names_at names baseline dirs f))
        | inr q ↦ cc (rw (f, q, reassemble) at h)
      ]
]

no_needs : (m : Precedence) (a p : Text) → is_empty m ≡ true → contains p (needs m a) ≡ false
unfolding needs
no_needs [] a p h = refl
no_needs (k ∷ m) a p h = cc

module _ (baseline : List StackDir) (m : Precedence) where
  -- The order is one of the sort, unless the baseline is used.
  order_by_sorted :
      fell_back (order_by baseline m).1 ≡ false
      → (is_empty m ≡ true)
        ⊎ (stable_topological_order (dir_names baseline) m
            ≡ ordered (dir_names (order_by baseline m).0))
  unfolding order_by
  order_by_sorted h = elim (Bool-cases (is_empty m)) [
    | inl e ↦ inl e
    | inr e ↦ elim (Ordering-cases (stable_topological_order (dir_names baseline) m)) [
      | inl (names, o) ↦ elim (Bool-cases (list_eq names (dir_names baseline))) [
        | inl k ↦ inr (rw (e, o, k) (ap ordered (eq-of-list_eq names (dir_names baseline) k)))
        | inr k ↦ inr (rw (e, o, k) (ap ordered (reassembled baseline names (rw (e, o, k) at h))))
      ]
      | inr (inl o) ↦ cc (rw (e, o) at h)
      | inr (inr o) ↦ cc (rw (e, o) at h)
    ]
  ]

  order_by_respects :
      (ds : List Dependency)
      → fell_back (order_by baseline m).1 ≡ false
      → All (IsNeeded (dir_names baseline) m) ds
      → All
          (λ d.
            constrains (dir_names baseline) d ≡ true
            → InFront d.target.stack d.source.stack (dir_names (order_by baseline m).0))
          ds
  order_by_respects ds h k = All-map (IsNeeded (dir_names baseline) m) _ ds each k
    where
      each :
          (d : Dependency)
          → IsNeeded (dir_names baseline) m d
          → constrains (dir_names baseline) d ≡ true
          → InFront d.target.stack d.source.stack (dir_names (order_by baseline m).0)
      each d n c xs ys e = elim (order_by_sorted h) [
        | inl z ↦ cc (n c, no_needs m d.source.stack d.target.stack z)
        | inr o ↦
            order_respects (dir_names baseline) m xs d.source.stack ys d.target.stack
              (o ∙ ap ordered e) (n c) (ground arith)
      ]

order_stacks_loaded :
    (detectors : List Detector) (read : StackDir → Reading) (stacks : List StackDir)
    (cs : List ComposeStack)
    → load_stacks read stacks ≡ loaded cs
    → order_stacks detectors read stacks
      ≡ order_by stacks (stack_precedence (dir_names stacks) (discover detectors cs))
unfolding order_stacks
order_stacks_loaded detectors read stacks cs l = rw (l, order_stacks)

-- Unless a line says that the baseline is used, the boot brings every stack up behind each stack of the
-- boot that it depends on across projects.
pub order_stacks_respects :
    (detectors : List Detector) (read : StackDir → Reading) (stacks : List StackDir)
    (cs : List ComposeStack)
    → load_stacks read stacks ≡ loaded cs
    → fell_back (order_stacks detectors read stacks).1 ≡ false
    → All
        (λ d.
          constrains (dir_names stacks) d ≡ true
          → InFront d.target.stack d.source.stack
              (dir_names (order_stacks detectors read stacks).0))
        (discover detectors cs).dependencies
order_stacks_respects detectors read stacks cs l h =
    let g = discover detectors cs in
    let m = stack_precedence (dir_names stacks) g in
    let same = order_stacks_loaded detectors read stacks cs l in
    subst
      (λ o.
        All
          (λ d.
            constrains (dir_names stacks) d ≡ true
            → InFront d.target.stack d.source.stack (dir_names o.0))
          g.dependencies)
      (sym same)
      (order_by_respects stacks m g.dependencies (subst (λ o. fell_back o.1 ≡ false) same h)
        (stack_precedence_keeps (dir_names stacks) g))
