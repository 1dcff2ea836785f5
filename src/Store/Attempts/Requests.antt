-- ===== src/Store/Attempts/Requests.antt =====
-- `_normalize_attempt_pairs` of core/store.py: the requests that pairs with and without numbers name.
use planet_express.Prelude.{
  ℕ, ◌+◌, ◌<◌, ◌≡◌, refl, sym, ap, ◌∙◌, subst, ◌⊎◌, inl, inr, true, ◌&&◌, some, List, [], ◌∷◌, map,
  arith, ◌==◌, if◌then◌else◌, Bool-cases, Option-cases, eq-of-==, select, find_row, count_where,
  All,
}
use planet_express.Store.Rows.{Text, ExecutionStep, Db}
use planet_express.Store.Steps.{is_step}
use planet_express.Store.Tx.{◌>>=◌, pure, Ensures, Ensures-bind}
use planet_express.Store.Attempts.{
  Pair, Pairs, Request, same_pair, numbered, unnumbered, normalize_pairs, normalize_numbered,
  match_steps, from_type, stored_type,
}

abbrev pub pair_of : Request → Pair
pair_of (n, t, k) = (t, k)

-- How often a pair is asked for.
abbrev pub multiplicity : Pair → List Request → ℕ
multiplicity p rs = count_where (λ (r : Request). same_pair p (pair_of r)) rs

abbrev pub asked : Pair → Pairs → ℕ
asked p (numbered rs) = multiplicity p rs
asked p (unnumbered ps) = count_where (same_pair p) ps

-- The execution has a step of this number and type.
abbrev pub IsStored : Text → Db → Request → Type 0
IsStored e db (n, t, k) =
    0 < count_where (λ (s : ExecutionStep). is_step e n s && s.type == t) db.execution_steps

-- The requests take steps of their types in the order of the steps, and none twice.
pub data Follows : List Request → List ExecutionStep → Type 0 where
  no_more : {steps : List ExecutionStep} → Follows [] steps
  skips :
      {rs : List Request} {s : ExecutionStep} {steps : List ExecutionStep}
      → Follows rs steps
      → Follows rs (s ∷ steps)
  takes :
      {rs : List Request} {s : ExecutionStep} {steps : List ExecutionStep} (k : Text)
      → Follows rs steps
      → Follows ((s.n, s.type, k) ∷ rs) (s ∷ steps)

abbrev pub steps_in : Text → Db → List ExecutionStep
steps_in e db = select (λ (s : ExecutionStep). s.execution_id == e) db.execution_steps

-- The requests that pairs name: those with numbers are the requests, each of a stored step; those
-- without get the numbers of stored steps of their types, in order.
abbrev pub Names : Text → Db → Pairs → List Request → Type 0
Names e db (numbered qs) rs = (rs ≡ qs) × All (IsStored e db) rs
Names e db (unnumbered ps) rs = (map pair_of rs ≡ ps) × Follows rs (steps_in e db)

multiplicity-pairs :
    (p : Pair) (rs : List Request) → count_where (same_pair p) (map pair_of rs) ≡ multiplicity p rs
multiplicity-pairs p [] = refl
multiplicity-pairs p ((n, t, k) ∷ rs) = ground (arith, multiplicity-pairs p rs)

-- The requests ask for a pair as often as the pairs do.
pub multiplicity-asked :
    (e : Text) (db : Db) (p : Pair) (pairs : Pairs) (rs : List Request)
    → Names e db pairs rs
    → multiplicity p rs ≡ asked p pairs
multiplicity-asked e db p (numbered qs) rs h = ap (multiplicity p) h.0
multiplicity-asked e db p (unnumbered ps) rs h =
    sym (multiplicity-pairs p rs) ∙ ap (count_where (same_pair p)) h.0

found_counts :
    (e : Text) (n : ℕ) (t : Text) (xs : List ExecutionStep) (s : ExecutionStep)
    → find_row (is_step e n) xs ≡ some s
    → (s.type == t) ≡ true
    → 0 < count_where (λ (x : ExecutionStep). is_step e n x && x.type == t) xs
found_counts e n t [] s h q = cc
found_counts e n t (x ∷ xs) s h q = elim (Bool-cases (is_step e n x)) [
  | inl b ↦ found_first x s (cc (rw b at h)) b q
  | inr b ↦ rw b (omega (arith, found_counts e n t xs s (rw b at h) q))
]
  where
    found_first :
        (x s : ExecutionStep)
        → x ≡ s
        → is_step e n x ≡ true
        → (s.type == t) ≡ true
        → 0
          < (if is_step e n x && x.type == t then 1 else 0)
            + count_where (λ (x : ExecutionStep). is_step e n x && x.type == t) xs
    found_first x s i b q = rw (b, i, q) (omega arith)

stored_type-IsStored :
    (e : Text) (n : ℕ) (t k : Text) (db : Db)
    → Ensures (λ _ d. IsStored e db (n, t, k) × (d ≡ db)) (stored_type e n t db)
unfolding stored_type
stored_type-IsStored e n t k db = elim (Option-cases (find_row (is_step e n) db.execution_steps)) [
  | inl f ↦ rw (stored_type, f) tt
  | inr (s, f) ↦ elim (Bool-cases (s.type == t)) [
    | inl q ↦ rw (stored_type, f, q) (found_counts e n t db.execution_steps s f q, refl)
    | inr q ↦ rw (stored_type, f, q) tt
  ]
]

normalize_numbered-Names :
    (e : Text) (qs : List Request) (db : Db)
    → Ensures (λ rs d. Names e db (numbered qs) rs × (d ≡ db)) (normalize_numbered e qs db)
unfolding normalize_numbered
normalize_numbered-Names e [] db = ((refl, tt), refl)
normalize_numbered-Names e ((n, t, k) ∷ qs) db =
    Ensures-bind (λ _ d. IsStored e db (n, t, k) × (d ≡ db))
      (λ rs d. Names e db (numbered ((n, t, k) ∷ qs)) rs × (d ≡ db)) (stored_type e n t)
      (λ _. normalize_numbered e qs >>= λ others. pure ((n, t, k) ∷ others)) db
      (stored_type-IsStored e n t k db)
      λ _ d q. rw q.1 (
        Ensures-bind (λ rs d'. Names e db (numbered qs) rs × (d' ≡ db))
          (λ rs d'. Names e db (numbered ((n, t, k) ∷ qs)) rs × (d' ≡ db)) (normalize_numbered e qs)
          (λ others. pure ((n, t, k) ∷ others)) db (normalize_numbered-Names e qs db)
          (λ rs d' h. ((ap (λ (ys : List Request). (n, t, k) ∷ ys) h.0.0, (q.0, h.0.1)), h.1)))

List-cases :
    {A : Type 0} → (xs : List A) → (xs ≡ []) ⊎ ((x : A) × (rest : List A) × (xs ≡ x ∷ rest))
List-cases [] = inl refl
List-cases (x ∷ xs) = inr (x, xs, refl)

same_head : (x s : ExecutionStep) (xs ss : List ExecutionStep) → x ∷ xs ≡ s ∷ ss → x ≡ s
same_head x s xs ss e = cc

same_tail : (x s : ExecutionStep) (xs ss : List ExecutionStep) → x ∷ xs ≡ s ∷ ss → ss ≡ xs
same_tail x s xs ss e = cc

took :
    (t k : Text) (x s : ExecutionStep) (steps rest : List ExecutionStep) (rs : List Request)
    → x ∷ steps ≡ s ∷ rest
    → x.type ≡ t
    → Follows rs rest
    → Follows ((s.n, t, k) ∷ rs) (x ∷ steps)
took t k x s steps rest rs e b f =
    subst (λ (y : ExecutionStep). Follows ((y.n, t, k) ∷ rs) (x ∷ steps))
      (same_head x s steps rest e)
      (subst (λ (u : Text). Follows ((x.n, u, k) ∷ rs) (x ∷ steps)) b
        (takes k (subst (Follows rs) (same_tail x s steps rest e) f)))

from_type-Follows :
    (t k : Text) (s : ExecutionStep) (rest steps : List ExecutionStep) (rs : List Request)
    → from_type t steps ≡ s ∷ rest
    → Follows rs rest
    → Follows ((s.n, t, k) ∷ rs) steps
from_type-Follows t k s rest [] rs e f = cc
from_type-Follows t k s rest (x ∷ steps) rs e f = elim (Bool-cases (x.type == t)) [
  | inl b ↦ took t k x s steps rest rs (rw b at e) (eq-of-== x.type t b) f
  | inr b ↦ skips (from_type-Follows t k s rest steps rs (rw b at e) f)
]

match_steps-Follows :
    (ps : List Pair) (steps : List ExecutionStep) (db : Db)
    → Ensures
        (λ rs d. ((map pair_of rs ≡ ps) × Follows rs steps) × (d ≡ db))
        (match_steps ps steps db)
unfolding match_steps
match_steps-Follows [] steps db = ((refl, no_more), refl)
match_steps-Follows ((t, k) ∷ ps) steps db = elim (List-cases (from_type t steps)) [
  | inl e ↦ rw (match_steps, e) tt
  | inr (s, rest, e) ↦
      rw (match_steps, e)
        (Ensures-bind (λ rs d. ((map pair_of rs ≡ ps) × Follows rs rest) × (d ≡ db))
          (λ rs d. ((map pair_of rs ≡ (t, k) ∷ ps) × Follows rs steps) × (d ≡ db))
          (match_steps ps rest) (λ r. pure ((s.n, t, k) ∷ r)) db (match_steps-Follows ps rest db)
          (λ rs d h. (
            (
              ap (λ (qs : List Pair). (t, k) ∷ qs) h.0.0,
              from_type-Follows t k s rest steps rs e h.0.1,
            ),
            h.1,
          )))
]

-- What `_normalize_attempt_pairs` returns, the pairs name; and it writes nothing.
pub normalize_pairs-Names :
    (e : Text) (pairs : Pairs) (db : Db)
    → Ensures (λ rs d. Names e db pairs rs × (d ≡ db)) (normalize_pairs e pairs db)
unfolding normalize_pairs
normalize_pairs-Names e (numbered qs) db = normalize_numbered-Names e qs db
normalize_pairs-Names e (unnumbered ps) db = match_steps-Follows ps (steps_in e db) db
