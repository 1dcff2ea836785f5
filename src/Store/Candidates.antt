-- ===== src/Store/Candidates.antt =====
-- The rollback windows of core/store.py: while one is open, no prune may run, so that the image
-- which a canary update replaced stays on the host.
pub mod Windows
use planet_express.Prelude.{
  ℕ, zero, suc, ◌+◌, ◌-◌, ◌*◌, ◌/◌, ◌%◌, ◌≤◌, ◌<◌, ◌≡◌, refl, sym, ap, ◌∙◌, subst, ◌≢◌, ◌↔◌, ◌⊎◌,
  inl, inr, Bool, true, false, not, ◌&&◌, ◌||◌, Option, none, some, List, [], ◌∷◌, ◌++◌, map, arith,
  ltb, leb, ◌==◌, if◌then◌else◌, is_none, is_some, opt_eq, coalesce, Bool-cases, Option-cases,
  eq-of-==, ==_refl, length, select, find_row, count_where, touch, update_where, All, length-append,
  count_where-append, All-append, All-intro, All-map, All-touch, All-update_where, All-find_row,
  find_row-update_where, find_row-append, find_row_fits, count_where_zero, find_row_none,
  count_where-update_where-le, update_where_none, Evolves, Evolves-refl, Evolves-append,
  Evolves-update_where, Evolves-trans, Evolves-find_row, All-Evolves, find_row-update_where_kept,
  found_of_count, count_of_found, find_row_weaken, count_where_none, DistinctOn,
  DistinctOn-update_where, DistinctOn-append, DistinctOn-found, DistinctOn-count,
}
use planet_express.Store.Rows.{Text, Time, RollbackCandidate, Db, EventDetail}
use planet_express.Store.Executions.{has_execution_id}
use planet_express.Store.Tx.{Tx, ◌>>=◌, ◌>>◌, pure, raise, event, integrity_error}

-- The year 2100.
abbrev pub indefinite_expiry : Time
indefinite_expiry = 4102444800

abbrev pub is_window : Text → ℕ → RollbackCandidate → Bool
is_window execution n c = c.execution_id == execution && c.step_n == n

-- `closed_at IS NULL AND expires_at > ?`
abbrev pub is_open : Time → RollbackCandidate → Bool
is_open now c = is_none c.closed_at && ltb now c.expires_at

abbrev pub new_window : Time → Text → ℕ → Text → Text → Text → Text → Time → RollbackCandidate
new_window now execution n stack service image old expires = record {
  execution_id = execution;
  step_n = n;
  stack = stack;
  service = service;
  image_reference = image;
  old_image_id = old;
  created_at = now;
  expires_at = expires;
  closed_at = none;
}

-- `Store.open_rollback_candidate`
unfoldable pub open_rollback_candidate : RollbackCandidate → Tx (Unit {0})
open_rollback_candidate c db =
    if is_some (find_row (is_window c.execution_id c.step_n) db.rollback_candidates)
      || is_none (find_row (has_execution_id c.execution_id) db.executions)
    then raise integrity_error db
    else pure tt (record db { rollback_candidates = db.rollback_candidates ++ c ∷ [] })

-- An `UPDATE rollback_candidates`: was it one row?
unfoldable pub update_windows :
    (RollbackCandidate → Bool) → (RollbackCandidate → RollbackCandidate) → Tx Bool
update_windows p f db =
    pure (count_where p db.rollback_candidates == 1)
      (record db { rollback_candidates = update_where p f db.rollback_candidates })

-- `Store.hold_rollback_candidate`
unfoldable pub hold_rollback_candidate : Text → ℕ → Tx Bool
unfolding update_windows
hold_rollback_candidate execution n =
    update_windows (is_window execution n)
      (λ c. record c { expires_at = indefinite_expiry; closed_at = none })

abbrev pub close : Time → RollbackCandidate → RollbackCandidate
close now c = record c { closed_at = some now }

-- `Store.close_rollback_candidate`
unfoldable pub close_rollback_candidate : Time → Text → ℕ → Tx Bool
unfolding update_windows
close_rollback_candidate now execution n =
    update_windows (λ c. is_window execution n c && is_none c.closed_at) (close now)

note_settled : Time → Text → ℕ → Text → Bool → Tx Bool
unfolding event
note_settled now execution n operator closed =
    if closed
    then (do
      event now (EventDetail.canary_window_settled n operator) none (some execution)
      pure true)
    else pure false

-- The window is held: open with no end.
abbrev pub is_held : RollbackCandidate → Bool
is_held c = is_none c.closed_at && leb indefinite_expiry c.expires_at

-- `Store.settle_rollback_candidate`
unfoldable pub settle_rollback_candidate : Time → Text → ℕ → Text → Tx Bool
unfolding update_windows note_settled
settle_rollback_candidate now execution n operator = do
  closed ← update_windows (λ c. is_window execution n c && is_held c) (close now)
  note_settled now execution n operator closed

-- `Store.open_rollback_candidates`, in the order of the table.
abbrev pub open_rollback_candidates : Time → Db → List RollbackCandidate
open_rollback_candidates now db = select (is_open now) db.rollback_candidates

-- `Store.any_open_rollback_candidate`: may a prune run? Not if this is true.
abbrev pub any_open_rollback_candidate : Time → Db → Bool
any_open_rollback_candidate now db = is_some (find_row (is_open now) db.rollback_candidates)
