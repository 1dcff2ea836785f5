-- ===== src/Store/Attempts.antt =====
-- The attempt ledger of core/store.py: how often a kind of step may be tried on a target.
--
--   attempt: reserved ──► consumed | released
pub mod Ledger
pub mod Requests
pub mod Recent
pub mod Caps
use planet_express.Prelude.{
  ℕ, ◌+◌, ◌-◌, ◌/◌, Bool, true, false, not, ◌&&◌, ◌||◌, Option, none, some, List, [], ◌∷◌, ◌++◌,
  ltb, leb, ◌==◌, if◌then◌else◌, is_none, is_some, select, find_row, count_where, update_where,
}
use Prim.Native.Nat.{min, max}
use planet_express.Store.Rows.{Text, Time, Attempt, AttemptState, ExecutionStep, Effect, Db}
use planet_express.Store.Executions.{has_execution_id}
use planet_express.Store.Steps.{is_step, is_dispatched}
use planet_express.Store.Tx.{
  Tx, ◌>>=◌, ◌>>◌, pure, raise, gets, guard, value_error, integrity_error,
}

-- A step type and the target that it acts on.
abbrev pub Pair : Type 0
Pair = Text × Text

-- An attempt to reserve: the number of its step, the type and the target.
abbrev pub Request : Type 0
Request = ℕ × Text × Text

abbrev pub same_pair : Pair → Pair → Bool
same_pair (t, k) (u, l) = t == u && k == l

-- The pairs as the caller gives them, with the numbers of the steps or without.
pub data Pairs : Type 0 where
  numbered : List Request → Pairs
  unnumbered : List Pair → Pairs

-- Each number names a stored step of that type.
stored_type : Text → ℕ → Text → Tx (Unit {0})
stored_type execution n t db =
    guard
      (elim (find_row (is_step execution n) db.execution_steps) [
        | none ↦ false
        | some s ↦ s.type == t
      ])
      value_error db

normalize_numbered : Text → List Request → Tx (List Request)
unfolding stored_type
normalize_numbered execution [] = pure []
normalize_numbered execution ((n, t, k) ∷ rest) = do
  stored_type execution n t
  others ← normalize_numbered execution rest
  pure ((n, t, k) ∷ others)

-- The steps from the first of the type on, without those before it.
abbrev from_type : Text → List ExecutionStep → List ExecutionStep
from_type t [] = []
from_type t (s ∷ steps) = let rest = from_type t steps in if s.type == t then s ∷ steps else rest

-- Each pair takes the next stored step of its type.
match_steps : List Pair → List ExecutionStep → Tx (List Request)
match_steps [] steps = pure []
match_steps ((t, k) ∷ pairs) steps = elim (from_type t steps) [
  | [] ↦ raise value_error
  | s ∷ rest ↦ match_steps pairs rest >>= λ r. pure ((s.n, t, k) ∷ r)
]

-- `Store._normalize_attempt_pairs`
unfoldable pub normalize_pairs : Text → Pairs → Tx (List Request)
unfolding normalize_numbered match_steps
normalize_pairs execution (numbered rs) db = normalize_numbered execution rs db
normalize_pairs execution (unnumbered ps) db =
    match_steps ps (select (λ s. s.execution_id == execution) db.execution_steps) db

-- `multiplicity` and `first_step` together, in the order of the dict.
abbrev pub Tally : Type 0
Tally = List (Pair × ℕ × ℕ)

abbrev pub bump : Request → Tally → Tally
bump (n, t, k) [] = ((t, k), 1, n) ∷ []
bump (n, t, k) ((p, m, first) ∷ rest) =
    if same_pair p (t, k) then (p, m + 1, first) ∷ rest else (p, m, first) ∷ bump (n, t, k) rest

unfoldable pub tally : List Request → Tally → Tally
tally [] d = d
tally (r ∷ rs) d = tally rs (bump r d)

-- The row is of the pair and was not released.
abbrev pub counts_for : Pair → Attempt → Bool
counts_for (t, k) a = a.step_type == t && a.target_key == k && (elim a.state [
  | AttemptState.reserved ↦ true
  | AttemptState.consumed ↦ true
  | AttemptState.released ↦ false
])

pub data Reason : Type 0 where
  cooling_down : ℕ → Reason
  cap_reached : ℕ → ℕ → ℕ → Reason

-- `AttemptRefusal`
pub record AttemptRefusal : Type 0 where
  pub reason : Reason
  pub step_n : ℕ

pub record Limits : Type 0 where
  pub window_start : Time
  pub cooldown_start : Time
  pub max_per_day : ℕ
  pub now : Time

abbrev latest : List Attempt → Time
latest [] = 0
latest (a ∷ rows) = max a.reserved_at (latest rows)

-- `recent` of one pair: the rows since the earlier of the two starts.
abbrev recent : Limits → Pair → Db → List Attempt
recent l p db =
    select (λ a. counts_for p a && leb (min l.window_start l.cooldown_start) a.reserved_at)
      db.attempts

-- The refusal of one pair, if any.
unfoldable pub check_pair : Limits → Pair × ℕ × ℕ → Db → Option AttemptRefusal
check_pair l (p, requested, first) db =
    let rows = recent l p db in
    let cooling = select (λ (a : Attempt). ltb l.cooldown_start a.reserved_at) rows in
    let daily = count_where (λ (a : Attempt). leb l.window_start a.reserved_at) rows in
    if not (count_where (λ (a : Attempt). true) cooling == 0)
    then some (record { reason = cooling_down ((l.now - latest cooling) / 60); step_n = first })
    else if ltb l.max_per_day (daily + requested)
    then some (record { reason = cap_reached daily requested l.max_per_day; step_n = first })
    else none

unfoldable pub check_pairs : Limits → Tally → Db → Option AttemptRefusal
check_pairs l [] db = none
check_pairs l (e ∷ rest) db =
    let others = check_pairs l rest db in
    elim (check_pair l e db) [ some r ↦ some r | none ↦ others ]

abbrev pub new_attempt : Text → Time → Request → Attempt
new_attempt execution now (n, t, k) = record {
  execution_id = execution;
  step_n = n;
  step_type = t;
  target_key = k;
  state = AttemptState.reserved;
  reserved_at = now;
  settled_at = none;
}

abbrev pub is_attempt : Text → ℕ → Attempt → Bool
is_attempt execution n a = a.execution_id == execution && a.step_n == n

-- An `INSERT INTO attempts`: UNIQUE (execution_id, step_n), and the execution that the row refers to.
unfoldable pub insert_attempt : Attempt → Tx (Unit {0})
insert_attempt a db =
    if is_some (find_row (is_attempt a.execution_id a.step_n) db.attempts)
      || is_none (find_row (has_execution_id a.execution_id) db.executions)
    then raise integrity_error db
    else pure tt (record db { attempts = db.attempts ++ a ∷ [] })

unfoldable pub insert_attempts : Text → Time → List Request → Tx (Unit {0})
unfolding insert_attempt
insert_attempts execution now [] = pure tt
insert_attempts execution now (r ∷ rs) =
    insert_attempt (new_attempt execution now r) >> insert_attempts execution now rs

reserve : Text → Limits → List Request → Option AttemptRefusal → Tx (Option AttemptRefusal)
unfolding insert_attempts
reserve execution l rs (some refusal) = pure (some refusal)
reserve execution l rs none = insert_attempts execution l.now rs >> pure none

-- `Store.reserve_runbook_attempts`: a refusal, or nothing and the attempts are reserved.
unfoldable pub reserve_runbook_attempts : Text → Pairs → Limits → Tx (Option AttemptRefusal)
unfolding normalize_pairs check_pair check_pairs tally reserve
reserve_runbook_attempts execution pairs l = do
  guard (leb 1 l.max_per_day) value_error
  rs ← normalize_pairs execution pairs
  refusal ← gets (check_pairs l (tally rs []))
  reserve execution l rs refusal

abbrev pub is_reserved : AttemptState → Bool
is_reserved AttemptState.reserved = true
is_reserved _ = false

abbrev settle : Time → AttemptState → Attempt → Attempt
settle now state a = record a { state = state; settled_at = some now }

-- `Store.consume_attempt`
unfoldable pub consume_attempt : Time → Text → ℕ → Tx (Unit {0})
consume_attempt now execution n db =
    let p = λ (a : Attempt). is_attempt execution n a && is_reserved a.state in
    if count_where p db.attempts == 1
    then pure tt
        (record db { attempts = update_where p (settle now AttemptState.consumed) db.attempts })
    else raise value_error db

abbrev one_of : List ℕ → ℕ → Bool
one_of [] n = false
one_of (m ∷ ms) n = m == n || one_of ms n

-- `Store.release_attempts`
unfoldable pub release_attempts : Time → Text → List ℕ → Tx ℕ
release_attempts now execution ns db =
    let p =
      λ (a : Attempt). a.execution_id == execution && one_of ns a.step_n && is_reserved a.state in
    pure (count_where p db.attempts)
      (record db { attempts = update_where p (settle now AttemptState.released) db.attempts })

-- The step of the attempt was dispatched, or its effect is unknown.
abbrev pub may_have_acted : Db → Attempt → Bool
may_have_acted db a = is_some (
    find_row
      (λ s.
        is_step a.execution_id a.step_n s
        && (is_dispatched s.status || (elim s.effect [
          | none ↦ false
          | some f ↦ elim f [
            | Effect.unknown ↦ true
            | Effect.applied ↦ false
            | Effect.not_applied ↦ false
          ]
        ])))
      db.execution_steps)

-- `Store.reconcile_reserved_attempts`: how many were consumed, and how many released.
unfoldable pub reconcile_reserved_attempts : Time → Tx (ℕ × ℕ)
reconcile_reserved_attempts now db =
    let p = λ (a : Attempt). is_reserved a.state && may_have_acted db a in
    let q = λ (a : Attempt). is_reserved a.state in
    let settled = update_where p (settle now AttemptState.consumed) db.attempts in
    pure (count_where p db.attempts, count_where q settled)
      (record db { attempts = update_where q (settle now AttemptState.released) settled })
