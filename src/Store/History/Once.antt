-- ===== src/Store/History/Once.antt =====
-- An approval is consumed once: what each front end gets that comes later.
use planet_express.Prelude.{
  ◌≡◌, List, ◌∷◌, none, some, true, [], find_row, false, ap, ◌∙◌, if◌then◌else◌,
}
use planet_express.Store.Tx.{ok, write, write-eq-ok, err, value_error}
use planet_express.Store.Rows.{Text, Time, Approval, ApprovalStatus, Execution, Db, is_pending}
use planet_express.Store.Approvals.{has_id}
use planet_express.Store.Decisions.{consume, approve_and_create_execution, is_decision}
use planet_express.Store.Decisions.Once.{
  approve-decided, consume-decided, approve-settled, consume-settled, settled-not-live,
}
use planet_express.Store.History.{Call, consumes, approves, step, run}
use planet_express.Store.History.Approvals.{IsKeyed, run-IsKeyed, run-decided}

-- Every later attempt to decide the approval `id` is turned away.
pub record IsSpent (id : Text) (db : Db) : Type 0 where
  pub approve :
      (now : Time) (fresh by : Text) (t : Time)
      → write (approve_and_create_execution now fresh id by t) db ≡ (ok none, db)
  pub consume :
      (now : Time) (s : ApprovalStatus) (by : Text) (t : Time)
      → write (consume now id s by t) db ≡ (if is_decision s then ok false else err value_error, db)

run-IsSpent :
    (db : Db) (cs : List (Time × Call)) (id : Text) (b : Approval)
    → IsKeyed db
    → find_row (has_id id) db.approvals ≡ some b
    → is_pending b.status ≡ false
    → IsSpent id (run db cs)
run-IsSpent db cs id b k row p =
    let (c, found, a) = run-decided db cs id b k row in
    let k' = run-IsKeyed db cs k in
    let q : is_pending c.status ≡ false = ap is_pending (a.status p) ∙ p in
    record {
      approve = λ now fresh by t.
          approve-settled id t (run db cs) k'.distinct c found (settled-not-live id t c q) now fresh
            by;
      consume = λ now s by t.
          consume-settled id t (run db cs) k'.distinct c found (settled-not-live id t c q) now s by;
    }

step-IsKeyed : (db : Db) (c : Time × Call) → IsKeyed db → IsKeyed (step db c)
unfolding run
step-IsKeyed db c k = run-IsKeyed db (c ∷ []) k

-- If a tap on the card gets an execution, then after any further operations that change approvals or
-- executions no tap and no decision on the same approval gets anything: no later approval creates a
-- second execution or changes the database, and no later decision is accepted.
pub approved_once :
    (db : Db) (now : Time) (fresh id by : Text) (t : Time) (e : Execution) (cs : List (Time × Call))
    → IsKeyed db
    → (write (approve_and_create_execution now fresh id by t) db).0 ≡ ok (some e)
    → IsSpent id (run (step db (now, approves fresh id by t)) cs)
unfolding step
approved_once db now fresh id by t e cs k h =
    let c : Time × Call = (now, approves fresh id by t) in
    let (b, row, p) =
      approve-decided now id by t db k.distinct fresh e
        (write (approve_and_create_execution now fresh id by t) db).1 (write-eq-ok _ db _ h) in
    run-IsSpent (step db c) cs id b (step-IsKeyed db c k) row p

-- The same for a decision that was accepted, an approval or a denial.
pub consumed_once :
    (db : Db) (now : Time) (id : Text) (s : ApprovalStatus) (by : Text) (t : Time)
    (cs : List (Time × Call))
    → IsKeyed db
    → (write (consume now id s by t) db).0 ≡ ok true
    → IsSpent id (run (step db (now, consumes id s by t)) cs)
unfolding step
consumed_once db now id s by t cs k h =
    let c : Time × Call = (now, consumes id s by t) in
    let (b, row, p) =
      consume-decided now id by t db k.distinct s (write (consume now id s by t) db).1
        (write-eq-ok _ db _ h) in
    run-IsSpent (step db c) cs id b (step-IsKeyed db c k) row p
