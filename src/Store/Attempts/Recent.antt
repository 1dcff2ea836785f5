-- ===== src/Store/Attempts/Recent.antt =====
-- What core/store.py answers of the past: `recent_pair_attempts` from the attempts and `recent_attempts`
-- from the executions. The answers are in the order of the tables.
use planet_express.Prelude.{
  Bool, false, not, ◌&&◌, none, some, List, map, leb, ◌==◌, is_some, select, find_row,
}
use planet_express.Store.Rows.{Text, Time, Approval, Execution, Attempt, Db}
use planet_express.Store.Approvals.{has_id}
use planet_express.Store.Attempts.{Pair, counts_for}

-- `Store.recent_pair_attempts`
unfoldable pub recent_pair_attempts : Pair → Time → Db → List Time
recent_pair_attempts p since db =
    map (λ (a : Attempt). a.reserved_at)
      (select (λ a. counts_for p a && leb since a.reserved_at) db.attempts)

-- `JOIN approvals a ON a.id = e.approval_id` with the action and the target
abbrev pub is_execution_for : Text → Text → List Approval → Execution → Bool
is_execution_for action key approvals e = elim (find_row (has_id e.approval_id) approvals) [
  | none ↦ false
  | some a ↦ a.action == action && a.target_key == key
]

abbrev pub has_attempt_rows : List Attempt → Execution → Bool
has_attempt_rows attempts e = is_some (find_row (λ (t : Attempt). t.execution_id == e.id) attempts)

-- `Store.recent_attempts`, with `without_attempt_rows` as the first argument.
unfoldable pub recent_attempts : Bool → Text → Text → Time → Db → List Time
recent_attempts without_attempt_rows action key since db =
    map (λ (e : Execution). e.started_at)
      (select
        (λ e.
          is_execution_for action key db.approvals e
          && leb since e.started_at
          && not (without_attempt_rows && has_attempt_rows db.attempts e))
        db.executions)
