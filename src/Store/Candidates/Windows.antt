-- ===== src/Store/Candidates/Windows.antt =====
-- A window that is held keeps the image until a human settles it.
use planet_express.Prelude.{
  ℕ, ◌<◌, ◌≡◌, true, false, ◌&&◌, none, some, List, [], ◌∷◌, ◌++◌, arith, ◌==◌, if◌then◌else◌,
  find_row, count_where, update_where, update_where_none, found_of_count, find_row_weaken,
  DistinctOn, DistinctOn-count_found,
}
use planet_express.Store.Rows.{Text, Time, RollbackCandidate, Db, EventDetail}
use planet_express.Store.Tx.{write, ok}
use planet_express.Store.Candidates.{
  indefinite_expiry, is_window, is_open, is_held, open_rollback_candidate, hold_rollback_candidate,
  close, close_rollback_candidate, settle_rollback_candidate, any_open_rollback_candidate,
}

abbrev pub window_key : RollbackCandidate → Text × ℕ
window_key c = (c.execution_id, c.step_n)

-- Some window of the step is held.
abbrev pub Held : Text → ℕ → Db → Type 0
Held e n db = 0 < count_where (λ c. is_window e n c && is_held c) db.rollback_candidates

-- Until the year 2100 a held window forbids every prune.
pub Held-any_open_rollback_candidate :
    (e : Text) (n : ℕ) (now : Time) (db : Db)
    → now < indefinite_expiry
    → Held e n db
    → any_open_rollback_candidate now db ≡ true
Held-any_open_rollback_candidate e n now db t h =
    let (a, found) = found_of_count (λ c. is_window e n c && is_held c) db.rollback_candidates h in
    let (b, opened) =
      find_row_weaken (λ c. is_window e n c && is_held c) (is_open now) db.rollback_candidates a
        (λ c q. ground arith) found in
    ground (arith, opened)

-- The operations on windows, but for closing and settling the one of the step.
pub data WindowCall (e : Text) (n : ℕ) : Type 0 where
  opens : RollbackCandidate → WindowCall e n
  holds : Text → ℕ → WindowCall e n
  closes : (d : Text) (m : ℕ) → (d == e && m == n) ≡ false → WindowCall e n
  settles : (d : Text) (m : ℕ) → (d == e && m == n) ≡ false → Text → WindowCall e n

module _ (e : Text) (n : ℕ) where
  pub window_call : Db → Time × WindowCall e n → Db
  window_call db (now, opens c) = (write (open_rollback_candidate c) db).1
  window_call db (now, holds d m) = (write (hold_rollback_candidate d m) db).1
  window_call db (now, closes d m other) = (write (close_rollback_candidate now d m) db).1
  window_call db (now, settles d m other o) = (write (settle_rollback_candidate now d m o) db).1

  pub window_calls : Db → List (Time × WindowCall e n) → Db
  window_calls db [] = db
  window_calls db (c ∷ cs) = window_calls (window_call db c) cs

-- Settling closes exactly a held window of the step, and records who did it in the same write; a
-- window that is finite, closed or absent is left alone, with no event.
pub settle_exactly :
    (now : Time) (e : Text) (n : ℕ) (operator : Text) (db : Db) (c : RollbackCandidate)
    → DistinctOn window_key db.rollback_candidates
    → find_row (is_window e n) db.rollback_candidates ≡ some c
    → write (settle_rollback_candidate now e n operator) db ≡ (
        if is_held c
        then (
          ok true,
          record db {
            rollback_candidates =
                update_where (λ c. is_window e n c && is_held c) (close now) db.rollback_candidates;
            events =
                db.events
                ++ record {
                  ts = now;
                  detail = EventDetail.canary_window_settled n operator;
                  approval_id = none;
                  execution_id = some e;
                }
                  ∷ [];
          },
        )
        else (ok false, db))
unfolding write settle_rollback_candidate
settle_exactly now e n operator db c d found = ground (
  arith,
  DistinctOn-count_found window_key (e, n) (is_window e n) is_held db.rollback_candidates c
      (λ x q. ground arith) d found,
  update_where_none (λ c. is_window e n c && is_held c) (close now) db.rollback_candidates,
)
