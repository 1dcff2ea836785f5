-- ===== src/Store/Decisions/Once.antt =====
-- What a decision that is made leaves in the approvals, and what it finds there afterwards.
use planet_express.Store.Executions.{has_execution_id}
use planet_express.Prelude.{
  ◌≡◌, some, find_row, true, List, DistinctOn, arith, ◌<◌, false, count_where, update_where,
  found_of_count, count_where_none, none, find_row-update_where, refl, All-map, find_row_weaken,
  ◌∙◌, update_where_none, DistinctOn-found, find_row_fits, All-find_row, ap, Bool-cases, inl, inr,
  ◌++◌, ◌∷◌, [], if◌then◌else◌, DistinctOn-count, count_of_found,
}
use planet_express.Store.Tx.{ok, write, err}
use planet_express.Store.Rows.{Text, Time, Approval, ApprovalStatus, Execution, Db}
use planet_express.Store.Approvals.{has_id, live, decide}
use planet_express.Store.Decisions.{
  consume, approve_and_create_execution, is_pending, new_execution, EventDetail, is_decision,
  value_error,
}

abbrev pub IdsDistinct : List Approval → Type 0
IdsDistinct = DistinctOn (λ (a : Approval). a.id)

found_live :
    (id : Text) (t : Time) (xs : List Approval) (a : Approval)
    → find_row (has_id id) xs ≡ some a
    → live id t a ≡ true
    → find_row (live id t) xs ≡ some a
found_live id t [] a e l = cc
found_live id t (x ∷ xs) a e l = ground (arith, found_live id t xs a)

live-has_id : (id : Text) (t : Time) (a : Approval) → live id t a ≡ true → has_id id a ≡ true
live-has_id id t a h = ground arith

-- A live row is the row that its id finds.
row_of_live :
    (id : Text) (t : Time) (xs : List Approval)
    → IdsDistinct xs
    → 0 < count_where (live id t) xs
    → (a : Approval) × (find_row (has_id id) xs ≡ some a) × (live id t a ≡ true)
row_of_live id t xs d n =
    let (a, found) = found_of_count (live id t) xs n in
    let (b, row) = find_row_weaken (live id t) (has_id id) xs a (live-has_id id t) found in
    let l = find_row_fits (live id t) xs a found in
    let same : b ≡ a =
      All-find_row (λ (x : Approval). x.id ≡ a.id → x ≡ a) (has_id id) xs b
        (DistinctOn-found (λ (a : Approval). a.id) (live id t) xs a d found) row
        (ground (arith, find_row_fits (has_id id) xs b row, live-has_id id t a l)) in
    (b, row, ap (live id t) same ∙ l)

module _ (id : Text) (t : Time) (s : ApprovalStatus) (by : Text) (now : Time) where
  decided_row :
      (xs : List Approval)
      → IdsDistinct xs
      → 0 < count_where (live id t) xs
      → is_pending s ≡ false
      → (b : Approval) × (find_row (has_id id) (update_where (live id t) (decide s by now) xs)
          ≡ some b)
        × (is_pending b.status ≡ false)
  decided_row xs d n p =
      let (a, row, l) = row_of_live id t xs d n in
      (
        decide s by now a,
        find_row-update_where (has_id id) (live id t) (decide s by now) xs (λ x. refl)
            ∙ rw (row, l) refl,
        p,
      )

module _ (now : Time) (id by : Text) (t : Time) (db : Db) (d : IdsDistinct db.approvals) where
  pub approve-decided :
      (fresh : Text) (e : Execution) (db' : Db)
      → approve_and_create_execution now fresh id by t db ≡ ok (some e, db')
      → (b : Approval) × (find_row (has_id id) db'.approvals ≡ some b)
        × (is_pending b.status ≡ false)
  unfolding approve_and_create_execution
  approve-decided fresh e db' h =
      let (b, row, p) =
        decided_row id t ApprovalStatus.approved by now db.approvals d (ground arith) refl in
      (b, ground arith, p)

  pub consume-decided :
      (s : ApprovalStatus) (db' : Db)
      → consume now id s by t db ≡ ok (true, db')
      → (b : Approval) × (find_row (has_id id) db'.approvals ≡ some b)
        × (is_pending b.status ≡ false)
  unfolding consume
  consume-decided s db' h =
      let (b, row, p) = decided_row id t s by now db.approvals d (ground arith) (ground arith) in
      (b, ground arith, p)

pub settled-not-live :
    (id : Text) (t : Time) (a : Approval) → is_pending a.status ≡ false → live id t a ≡ false
settled-not-live id t a p = ground arith

live_once :
    (id : Text) (t : Time) (xs : List Approval) (a : Approval)
    → IdsDistinct xs
    → find_row (has_id id) xs ≡ some a
    → live id t a ≡ true
    → count_where (live id t) xs ≡ 1
live_once id t xs a d row l = omega (
  arith,
  DistinctOn-count (λ (a : Approval). a.id) id (live id t) xs (λ x e. ground arith) d,
  count_of_found (live id t) xs a (found_live id t xs a row l),
)

-- Nothing is live under the id of a row that is not.
module _ (id : Text) (t : Time) (db : Db) (d : IdsDistinct db.approvals) (b : Approval)
    (row : find_row (has_id id) db.approvals ≡ some b) (p : live id t b ≡ false) where
  not_live : (x : Approval) → (x.id ≡ b.id → x ≡ b) → live id t x ≡ false
  not_live x only = elim (Bool-cases (has_id id x)) [
    | inl e ↦ rw (only (ground (arith, e, find_row_fits (has_id id) db.approvals b row))) p
    | inr e ↦ ground (arith, e)
  ]

  no_live : count_where (live id t) db.approvals ≡ 0
  no_live = count_where_none (live id t) db.approvals (
      All-map (λ (x : Approval). x.id ≡ b.id → x ≡ b) (λ x. live id t x ≡ false) db.approvals
        (λ x only. not_live x only)
        (DistinctOn-found (λ (a : Approval). a.id) (has_id id) db.approvals b d row))

  pub approve-settled :
      (now : Time) (fresh by : Text)
      → (write (approve_and_create_execution now fresh id by t) db) ≡ (ok none, db)
  unfolding approve_and_create_execution write
  approve-settled now fresh by = ground (
    arith,
    no_live,
    update_where_none (live id t) (decide ApprovalStatus.approved by now) db.approvals no_live,
  )

  pub consume-settled :
      (now : Time) (s : ApprovalStatus) (by : Text)
      → write (consume now id s by t) db ≡ (if is_decision s then ok false else err value_error, db)
  unfolding consume write
  consume-settled now s by =
      ground (arith, no_live, update_where_none (live id t) (decide s by now) db.approvals no_live)

-- The database after a tap on the card of `id` that arrived in time.
abbrev pub approved_db : Time → Text → Text → Text → Time → Db → Db
approved_db now fresh id by t db = record db {
  approvals = update_where (live id t) (decide ApprovalStatus.approved by now) db.approvals;
  executions = db.executions ++ new_execution now fresh id ∷ [];
  events =
      (db.events
        ++ record {
          ts = now;
          detail = EventDetail.approval_approved by;
          approval_id = some id;
          execution_id = none;
        }
          ∷ [])
      ++ record {
        ts = now;
        detail = EventDetail.execution_started;
        approval_id = some id;
        execution_id = some fresh;
      }
        ∷ [];
}

-- With distinct ids and an execution id that is not in use: a tap on the card of an approval makes
-- it approved, with its running execution and the two events in the same write, exactly if it is
-- pending and the tap arrived before it expires; else the tap gets nothing and nothing changes.
pub approve_exactly :
    (now : Time) (fresh id by : Text) (t : Time) (db : Db) (a : Approval)
    → IdsDistinct db.approvals
    → find_row (has_id id) db.approvals ≡ some a
    → find_row (has_execution_id fresh) db.executions ≡ none
    → write (approve_and_create_execution now fresh id by t) db ≡ (
        if live id t a
        then (ok (some (new_execution now fresh id)), approved_db now fresh id by t db)
        else (ok none, db))
unfolding approve_and_create_execution write
approve_exactly now fresh id by t db a d row new = elim (Bool-cases (live id t a)) [
  | inl l ↦ ground (
    arith,
    live_once id t db.approvals a d row l,
    find_row-update_where (has_id id) (live id t) (decide ApprovalStatus.approved by now)
        db.approvals (λ x. refl),
  )
  | inr l ↦ rw l (approve-settled id t db d a row l now fresh by)
]
