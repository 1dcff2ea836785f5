-- ===== src/Store/Decisions.antt =====
-- The operations of core/store.py that decide an approval: by a tap on its card, by a direct
-- request of an operator, by policy, or by a newer request.
pub mod Settled
pub mod Once
use planet_express.Prelude.{
  ℕ, Bool, true, false, ◌&&◌, Option, none, some, ltb, ◌==◌, if◌then◌else◌, is_none, find_row, List,
  select,
}
use planet_express.Store.Rows.{
  Text, Time, Approval, ApprovalStatus, Execution, IncidentProposal, Db, EventDetail, is_pending,
}
use planet_express.Store.Tx.{Tx, ◌>>=◌, ◌>>◌, pure, gets, guard, event, value_error}
use planet_express.Store.Approvals.{
  has_id, pending_for, live, decide, expire, update_approvals, insert_approval, expire_stale,
  same_plan,
}
use planet_express.Store.Executions.{insert_execution, new_execution}

-- The event of a decision; `consume` refuses the two statuses that are none.
abbrev decision_event : ApprovalStatus → Text → EventDetail
decision_event ApprovalStatus.approved by = EventDetail.approval_approved by
decision_event _ by = EventDetail.approval_denied by

abbrev pub is_decision : ApprovalStatus → Bool
is_decision ApprovalStatus.approved = true
is_decision ApprovalStatus.denied = true
is_decision _ = false

consumed : Time → Text → ApprovalStatus → Text → ℕ → Tx Bool
unfolding event
consumed now id decision by rowcount =
    if rowcount == 1
    then (do event now (decision_event decision by) (some id) none; pure true)
    else pure false

-- `Store.consume`
unfoldable pub consume : Time → Text → ApprovalStatus → Text → Time → Tx Bool
unfolding consumed
consume now id decision by arrived_at = do
  guard (is_decision decision) value_error
  n ← update_approvals (live id arrived_at) (decide decision by now)
  consumed now id decision by n

start_approved : Time → Text → Text → Text → ℕ → Tx (Option Execution)
unfolding event insert_execution
start_approved now fresh id by rowcount =
    if rowcount == 1
    then (do
      insert_execution (new_execution now fresh id)
      event now (EventDetail.approval_approved by) (some id) none
      event now EventDetail.execution_started (some id) (some fresh)
      pure (some (new_execution now fresh id)))
    else pure none

-- `Store.approve_and_create_execution`
unfoldable pub approve_and_create_execution :
    Time → Text → Text → Text → Time → Tx (Option Execution)
unfolding start_approved
approve_and_create_execution now fresh id by arrived_at = do
  n ← update_approvals (live id arrived_at) (decide ApprovalStatus.approved by now)
  start_approved now fresh id by n

-- `decided_by='policy'`: the number that stands for that text.
abbrev pub policy : Text
policy = 1

stale_refusal : Time → Text → Text → Text → ℕ → Tx Bool
unfolding event
stale_refusal now id by reason rowcount =
    if rowcount == 1
    then (do
      event now (EventDetail.approval_denied policy) (some id) none
      event now (EventDetail.approval_refused_stale_incident reason by) (some id) none
      pure true)
    else pure false

-- `Store.refuse_stale_incident_approval`
pub refuse_stale_incident_approval : Time → Text → Text → Time → Text → Tx Bool
unfolding stale_refusal
refuse_stale_incident_approval now id by arrived_at reason db =
    if is_none (find_row (λ (l : IncidentProposal). l.approval_id == id) db.incident_proposals)
    then pure false db
    else (do
      n ← update_approvals (live id arrived_at) (decide ApprovalStatus.denied policy now)
      stale_refusal now id by reason n)
        db

supersede_found : Time → Text → Text → Option Approval → Tx (Option Approval)
unfolding event
supersede_found now id reason none = pure none
supersede_found now id reason (some a) =
    if is_pending a.status
    then (do
      _ ← update_approvals (λ a. has_id id a && is_pending a.status) expire
      event now (EventDetail.approval_superseded reason) (some id) none
      pure (some a))
    else pure none

-- `Store.supersede_pending`: the row as it was.
pub supersede_pending : Time → Text → Text → Tx (Option Approval)
unfolding supersede_found
supersede_pending now id reason = do
  found ← gets (λ db. find_row (has_id id) db.approvals)
  supersede_found now id reason found

-- `Store.get_approval`
pub get_approval : Time → Text → Option Time → Tx (Option Approval)
unfolding expire_stale
get_approval now id as_of = do
  expire_stale now (elim as_of [ none ↦ now | some t ↦ t ])
  gets (λ db. find_row (has_id id) db.approvals)

-- `Store.list_pending`, in the order of the table.
unfoldable pub list_pending : Time → Tx (List Approval)
unfolding expire_stale
list_pending now = do
  expire_stale now now
  gets (λ db. select (λ (a : Approval). is_pending a.status) db.approvals)

-- `Store.set_message_id`
pub set_message_id : Text → Option ℕ → Tx ℕ
set_message_id id message = update_approvals (has_id id) (λ a. record a { message_id = message })

-- A direct request: an operator confirms an action at the dashboard.
pub record DirectRequest : Type 0 where
  pub action : Text
  pub target_key : Text
  pub target : Text
  pub risk : Text
  pub operator : Text
  pub arrived_at : Time
  pub origin : Text
  pub deadline : Option Time
  pub plan_json : Option Text
  pub plan_sha256 : Option Text
  pub runbook_origin : Option Text

abbrev pub direct_approval : Time → Text → DirectRequest → Approval
direct_approval now fresh r = record {
  id = fresh;
  action = r.action;
  target_key = r.target_key;
  target_json = r.target;
  risk = r.risk;
  status = ApprovalStatus.approved;
  requested_via = r.origin;
  requested_by = some r.operator;
  created_at = now;
  expires_at = now;
  decided_by = some r.operator;
  decided_at = some now;
  message_id = none;
  plan_json = r.plan_json;
  plan_sha256 = r.plan_sha256;
  origin = r.runbook_origin;
}

-- The live card names the target and the plan that the operator confirmed, and no incident.
abbrev pub adopts : DirectRequest → Db → Approval → Bool
adopts r db a =
    is_none (find_row (λ (l : IncidentProposal). l.approval_id == a.id) db.incident_proposals)
    && a.target_json == r.target
    && same_plan r.plan_json r.plan_sha256 a

-- The approval that the execution stands under, and whether a live card was adopted.
new_direct : Time → Text → DirectRequest → Tx (Approval × Bool)
unfolding insert_approval event
new_direct now fresh r = do
  insert_approval (direct_approval now fresh r)
  event now (EventDetail.proposal_created r.action r.target r.risk r.origin (some r.operator))
      (some fresh) none
  pure (direct_approval now fresh r, false)

adopt : Time → DirectRequest → Approval → Tx (Approval × Bool)
adopt now r a = do
  _ ← update_approvals (has_id a.id) (decide ApprovalStatus.approved r.operator now)
  pure (decide ApprovalStatus.approved r.operator now a, true)

adopt_or_new : Time → Text → DirectRequest → Option Approval → Tx (Approval × Bool)
unfolding new_direct adopt
adopt_or_new now fresh r none db = new_direct now fresh r db
adopt_or_new now fresh r (some a) db =
    (if adopts r db a then adopt now r a else new_direct now fresh r) db

-- The approval, the execution, and whether a live card was adopted.
abbrev pub Direct : Type 0
Direct = Approval × Execution × Bool

-- The execution under the approval that was chosen, with the events of both.
execute_chosen : Time → Text → DirectRequest → Approval × Bool → Tx (Option Direct)
unfolding insert_execution event
execute_chosen now fresh_execution r (a, adopted) = do
  insert_execution (new_execution now fresh_execution a.id)
  event now (EventDetail.approval_approved r.operator) (some a.id) none
  event now EventDetail.execution_started (some a.id) (some fresh_execution)
  pure (some (a, new_execution now fresh_execution a.id, adopted))

start_direct : Time → Text → Text → DirectRequest → Tx (Option Direct)
unfolding expire_stale adopt_or_new execute_chosen
start_direct now fresh fresh_execution r = do
  expire_stale now r.arrived_at
  found ← gets (λ db. find_row (pending_for r.action r.target_key) db.approvals)
  chosen ← adopt_or_new now fresh r found
  execute_chosen now fresh_execution r chosen

abbrev past_deadline : Time → Option Time → Bool
past_deadline now none = false
past_deadline now (some d) = ltb d now

-- `Store.create_direct_execution`
pub create_direct_execution : Time → Text → Text → DirectRequest → Tx (Option Direct)
unfolding start_direct
create_direct_execution now fresh fresh_execution r db =
    if past_deadline now r.deadline
    then pure none db
    else start_direct now fresh fresh_execution r db
