-- ===== src/Store/Decisions/Settled.antt =====
-- The operations of `Store.Decisions` decide a pending approval and leave the others alone.
use planet_express.Prelude.{
  ℕ, Bool, true, Option, none, some, List, ◌≡◌, refl, ap, ◌∙◌, ◌&&◌, arith, find_row, All-map,
  Bool-cases, inl, find_row_fits, inr, DistinctOn-found,
}
use planet_express.Store.Rows.{Text, Time, Approval, ApprovalStatus, Db, is_pending}
use planet_express.Store.Tx.{◌>>=◌, Ensures, Ensures-bind}
use planet_express.Store.Keeps.{Keeps, keeps_rules}
use planet_express.Store.Approvals.{has_id, pending_for, live, decide, expire, update_approvals}
use planet_express.Store.Approvals.Settled.{
  IsCoherent, Advances, Since, update-Since, update_approvals-Since, insert_approval-Since,
  event-Since, expire_stale-Since, pending-Advances-decide, pending-Advances-expire, is_decided,
}
use planet_express.Store.Executions.Settled.{insert_execution-Since}
use planet_express.Store.Decisions.{
  list_pending, consume, approve_and_create_execution, stale_refusal,
  refuse_stale_incident_approval, policy, supersede_found, supersede_pending, get_approval,
  set_message_id, DirectRequest, direct_approval, adopts, new_direct, adopt, adopt_or_new,
  start_direct, create_direct_execution, gets, execute_chosen,
}

only_adopted :
    (now : Time) (r : DirectRequest) (a b : Approval)
    → pending_for r.action r.target_key a ≡ true
    → (b.id ≡ a.id → b ≡ a)
    → has_id a.id b ≡ true
    → Advances b (decide ApprovalStatus.approved r.operator now b)
only_adopted now r a b p only e =
    pending-Advances-decide ApprovalStatus.approved r.operator now b refl
      (ap (λ (x : Approval). is_pending x.status) (only (ground arith)) ∙ ground arith)

direct_approval-IsCoherent :
    (now : Time) (fresh : Text) (r : DirectRequest) → IsCoherent (direct_approval now fresh r)
direct_approval-IsCoherent now fresh r = ground arith

module _ (rows : List Approval) where
  decide-Since :
      (id : Text) (arrived_at : Time) (s : ApprovalStatus) (by : Text) (now : Time)
      → is_decided s ≡ true
      → Keeps (Since rows) (update_approvals (live id arrived_at) (decide s by now))
  decide-Since id arrived_at s by now d =
      update_approvals-Since rows (live id arrived_at) (decide s by now)
        (λ a h. pending-Advances-decide s by now a d (ground arith))

  decide_approved :
      (id : Text) (arrived_at : Time) (by : Text) (now : Time)
      → Keeps
          (Since rows)
          (update_approvals (live id arrived_at) (decide ApprovalStatus.approved by now))
  decide_approved id t by now = decide-Since id t ApprovalStatus.approved by now refl

  decide_denied :
      (id : Text) (arrived_at : Time) (by : Text) (now : Time)
      → Keeps
          (Since rows)
          (update_approvals (live id arrived_at) (decide ApprovalStatus.denied by now))
  decide_denied id t by now = decide-Since id t ApprovalStatus.denied by now refl

  pub consume-Since :
      (now : Time) (id : Text) (d : ApprovalStatus) (by : Text) (arrived_at : Time)
      → Keeps (Since rows) (consume now id d by arrived_at)
  unfolding consume
  consume-Since now id ApprovalStatus.approved by t =
      search (keeps_rules, decide_approved, event-Since rows)
  consume-Since now id ApprovalStatus.denied by t =
      search (keeps_rules, decide_denied, event-Since rows)
  consume-Since now id ApprovalStatus.pending by t = record { at = λ db h. tt }
  consume-Since now id ApprovalStatus.expired by t = record { at = λ db h. tt }

  pub approve_and_create_execution-Since :
      (now : Time) (fresh id by : Text) (arrived_at : Time)
      → Keeps (Since rows) (approve_and_create_execution now fresh id by arrived_at)
  unfolding approve_and_create_execution
  approve_and_create_execution-Since now fresh id by t =
      search (keeps_rules, decide_approved, event-Since rows, insert_execution-Since rows) depth 9

  pub refuse_stale_incident_approval-Since :
      (now : Time) (id by : Text) (arrived_at : Time) (reason : Text)
      → Keeps (Since rows) (refuse_stale_incident_approval now id by arrived_at reason)
  unfolding refuse_stale_incident_approval
  refuse_stale_incident_approval-Since now id by t reason = record {
    at = λ db h. ground (arith, denied.at db h);
  }
    where
      denied : Keeps (Since rows) (
          update_approvals (live id t) (decide ApprovalStatus.denied policy now)
          >>= stale_refusal now id by reason)
      denied = search (keeps_rules, decide_denied, event-Since rows)

  pub expire_pending-Since :
      (id : Text)
      → Keeps (Since rows) (update_approvals (λ a. has_id id a && is_pending a.status) expire)
  expire_pending-Since id =
      update_approvals-Since rows (λ a. has_id id a && is_pending a.status) expire
        (λ a h. pending-Advances-expire a (ground arith))

  supersede_found-Since :
      (now : Time) (id reason : Text) (found : Option Approval)
      → Keeps (Since rows) (supersede_found now id reason found)
  unfolding supersede_found
  supersede_found-Since now id reason none = record { at = λ db h. h }
  supersede_found-Since now id reason (some a) =
      search (keeps_rules, expire_pending-Since, event-Since rows)

  pub supersede_pending-Since :
      (now : Time) (id reason : Text) → Keeps (Since rows) (supersede_pending now id reason)
  unfolding supersede_pending
  supersede_pending-Since now id reason = search (keeps_rules, supersede_found-Since)

  pub get_approval-Since :
      (now : Time) (id : Text) (as_of : Option Time)
      → Keeps (Since rows) (get_approval now id as_of)
  unfolding get_approval
  get_approval-Since now id as_of = search (keeps_rules, expire_stale-Since rows)

  pub list_pending-Since : (now : Time) → Keeps (Since rows) (list_pending now)
  unfolding list_pending
  list_pending-Since now = search (keeps_rules, expire_stale-Since rows)

  pub set_message_id-Since :
      (id : Text) (message : Option ℕ) → Keeps (Since rows) (set_message_id id message)
  unfolding set_message_id
  set_message_id-Since id message =
      update_approvals-Since rows (has_id id) (λ a. record a { message_id = message })
        (λ a h. ground arith)

  -- The row that is adopted is pending, and its id is no other row's.
  adopt-Since :
      (now : Time) (r : DirectRequest) (a : Approval) (db : Db)
      → find_row (pending_for r.action r.target_key) db.approvals ≡ some a
      → Since rows db
      → Ensures (λ _ db'. Since rows db') (adopt now r a db)
  unfolding adopt
  adopt-Since now r a db found h =
      update-Since rows (has_id a.id) (decide ApprovalStatus.approved r.operator now) db
        (λ b e. refl)
        (All-map (λ b. b.id ≡ a.id → b ≡ a) _ db.approvals
          (λ b only e. only_adopted now r a b (find_row_fits _ db.approvals a found) only e)
          (DistinctOn-found (λ (b : Approval). b.id) _ db.approvals a h.distinct found))
        h

  new_direct-Since :
      (now : Time) (fresh : Text) (r : DirectRequest) → Keeps (Since rows) (new_direct now fresh r)
  unfolding new_direct
  new_direct-Since now fresh r =
      search (keeps_rules, insert_approval-Since rows, direct_approval-IsCoherent, event-Since rows)

  adopt_or_new-Since :
      (now : Time) (fresh : Text) (r : DirectRequest) (found : Option Approval) (db : Db)
      → find_row (pending_for r.action r.target_key) db.approvals ≡ found
      → Since rows db
      → Ensures (λ _ db'. Since rows db') (adopt_or_new now fresh r found db)
  unfolding adopt_or_new
  adopt_or_new-Since now fresh r none db e h = (new_direct-Since now fresh r).at db h
  adopt_or_new-Since now fresh r (some a) db e h = elim (Bool-cases (adopts r db a)) [
    | inl t ↦ rw t (adopt-Since now r a db e h)
    | inr t ↦ rw t ((new_direct-Since now fresh r).at db h)
  ]

  execute_chosen-Since :
      (now : Time) (fresh_execution : Text) (r : DirectRequest) (chosen : Approval × Bool)
      → Keeps (Since rows) (execute_chosen now fresh_execution r chosen)
  unfolding execute_chosen
  execute_chosen-Since now fresh_execution r (a, adopted) =
      search (keeps_rules, insert_execution-Since rows, event-Since rows) depth 7

  choose-Since :
      (now : Time) (fresh fresh_execution : Text) (r : DirectRequest)
      → Keeps (Since rows) (
          gets (λ db. find_row (pending_for r.action r.target_key) db.approvals) >>= λ found.
          adopt_or_new now fresh r found >>= execute_chosen now fresh_execution r)
  choose-Since now fresh fresh_execution r = record {
    at = λ db h.
        Ensures-bind (λ _ db'. Since rows db') (λ _ db'. Since rows db')
          (adopt_or_new now fresh r (find_row (pending_for r.action r.target_key) db.approvals))
          (execute_chosen now fresh_execution r) db (adopt_or_new-Since now fresh r _ db refl h)
          (λ c db' h'. (execute_chosen-Since now fresh_execution r c).at db' h');
  }

  pub create_direct_execution-Since :
      (now : Time) (fresh fresh_execution : Text) (r : DirectRequest)
      → Keeps (Since rows) (create_direct_execution now fresh fresh_execution r)
  unfolding create_direct_execution
  create_direct_execution-Since now fresh fresh_execution r = record {
    at = λ db h. ground (arith, started.at db h);
  }
    where
      started : Keeps (Since rows) (start_direct now fresh fresh_execution r)
      started = search (keeps_rules, expire_stale-Since rows, choose-Since)
