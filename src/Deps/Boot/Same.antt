-- ===== src/Deps/Boot/Same.antt =====
-- `order_stacks` never adds, drops or repeats a stack.
use planet_express.Deps.Order.{stable_topological_order}
use planet_express.Deps.Order.Decides.{Ordering-cases}
use planet_express.Deps.Detect.{Detector, ComposeStack, discover}
use planet_express.Deps.Graph.{Precedence, stack_precedence}
use planet_express.Store.Rows.{Text}
use planet_express.Prelude.{
  ◌≡◌, refl, sym, ap, ◌∙◌, ◌⊎◌, inl, inr, true, List, [], ◌∷◌, arith, leb, Bool-cases, Option-cases,
}
use planet_express.Deps.Boot.{
  StackDir, Reading, list_eq, insert_sorted, reassemble, sorted, Loaded, order_by, order_stacks,
  Text, dir_paths, dirs_at, loaded, load_stacks, is_empty, LogLine, dir_names, refused,
}
use planet_express.Deps.Order.Rounds.{occurrences}

occurrences-insert_sorted :
    (x a : Text) (xs : List Text) → occurrences x (insert_sorted a xs) ≡ occurrences x (a ∷ xs)
unfolding insert_sorted
occurrences-insert_sorted x a [] = refl
occurrences-insert_sorted x a (y ∷ xs) = elim (Bool-cases (leb a y)) [
  | inl e ↦ rw e
  | inr e ↦ rw e (omega (arith, occurrences-insert_sorted x a xs))
]

occurrences-sorted : (x : Text) (xs : List Text) → occurrences x (sorted xs) ≡ occurrences x xs
unfolding sorted
occurrences-sorted x [] = refl
occurrences-sorted x (y ∷ xs) =
    omega (arith, occurrences-insert_sorted x y (sorted xs), occurrences-sorted x xs)

pub eq-of-list_eq : (xs ys : List Text) → list_eq xs ys ≡ true → xs ≡ ys
eq-of-list_eq [] [] h = refl
eq-of-list_eq [] (y ∷ ys) h = cc
eq-of-list_eq (x ∷ xs) [] h = cc
eq-of-list_eq (x ∷ xs) (y ∷ ys) h = ground (arith, eq-of-list_eq xs ys)

-- The same directories, as often.
abbrev pub SameStacks : List StackDir → List StackDir → Type 0
SameStacks ds es = (p : Text) → occurrences p (dir_paths ds) ≡ occurrences p (dir_paths es)

same_of_sorted :
    (ds es : List StackDir)
    → list_eq (sorted (dir_paths ds)) (sorted (dir_paths es)) ≡ true
    → SameStacks ds es
same_of_sorted ds es h p =
    sym (occurrences-sorted p (dir_paths ds))
    ∙ ap (occurrences p) (eq-of-list_eq _ _ h)
    ∙ occurrences-sorted p (dir_paths es)

reassemble_same :
    (baseline : List StackDir) (names : List Text)
    → SameStacks (reassemble baseline names).0 baseline
unfolding reassemble
reassemble_same baseline names p = elim (Option-cases (dirs_at names baseline)) [
  | inl n ↦ rw (n, reassemble)
  | inr (dirs, e) ↦
      elim (Bool-cases (list_eq (sorted (dir_paths dirs)) (sorted (dir_paths baseline)))) [
        | inl k ↦ rw (e, k, reassemble) (same_of_sorted dirs baseline k p)
        | inr k ↦ rw (e, k, reassemble)
      ]
]

order_by_same :
    (baseline : List StackDir) (m : Precedence) → SameStacks (order_by baseline m).0 baseline
unfolding order_by
order_by_same baseline m p = elim (Bool-cases (is_empty m)) [
  | inl e ↦ rw e
  | inr e ↦ elim (Ordering-cases (stable_topological_order (dir_names baseline) m)) [
    | inl (names, o) ↦ elim (Bool-cases (list_eq names (dir_names baseline))) [
      | inl k ↦ rw (e, o, k)
      | inr k ↦ rw (e, o, k) (reassemble_same baseline names p)
    ]
    | inr (inl o) ↦ rw (e, o)
    | inr (inr o) ↦ rw (e, o)
  ]
]

pub Loaded-cases :
    (l : Loaded) → ((cs : List ComposeStack) × (l ≡ loaded cs)) ⊎ ((x : LogLine) × (l ≡ refused x))
Loaded-cases (loaded cs) = inl (cs, refl)
Loaded-cases (refused x) = inr (x, refl)

-- Whatever the compose files hold and the detectors find, the boot order has the stacks that it was
-- given, each as often.
pub order_stacks_same :
    (detectors : List Detector) (read : StackDir → Reading) (stacks : List StackDir) (p : Text)
    → occurrences p (dir_paths (order_stacks detectors read stacks).0)
      ≡ occurrences p (dir_paths stacks)
unfolding order_stacks
order_stacks_same detectors read stacks p = elim (Loaded-cases (load_stacks read stacks)) [
  | inl (cs, e) ↦
      rw (e, order_stacks)
        (order_by_same stacks (stack_precedence (dir_names stacks) (discover detectors cs)) p)
  | inr (l, e) ↦ rw (e, order_stacks)
]
