-- ===== src/Store/Approvals.antt =====
-- The proposals and approvals of core/store.py.
--
--   approval: pending ──► approved | denied | expired
--
-- `fresh` and `fresh_execution` are the ids that `_new_id` draws.
pub mod Settled
use planet_express.Prelude.{
  ℕ, ◌+◌, Bool, true, false, not, ◌&&◌, ◌||◌, Option, none, some, List, [], ◌∷◌, ◌++◌, leb, ltb,
  ◌==◌, if◌then◌else◌, is_none, is_some, opt_eq, select, find_row, count_where, update_where,
}
use planet_express.Store.Rows.{
  Text, Time, Approval, ApprovalStatus, Incident, IncidentStatus, Condition, IncidentReconciliation,
  IncidentProposal, Db, Event, EventDetail, is_pending,
}
use planet_express.Store.Tx.{
  Tx, ◌>>=◌, ◌>>◌, pure, raise, gets, guard, event, value_error, integrity_error,
  incident_source_error, pending_plan_conflict,
}

abbrev pub has_id : Text → Approval → Bool
has_id id a = a.id == id

-- `action = ? AND target_key = ? AND status = 'pending'`
abbrev pub pending_for : Text → Text → Approval → Bool
pending_for action target_key a =
    a.action == action && a.target_key == target_key && is_pending a.status

-- `id = ? AND status = 'pending' AND expires_at > ?`
abbrev pub live : Text → Time → Approval → Bool
live id arrived_at a = a.id == id && is_pending a.status && ltb arrived_at a.expires_at

-- `status = 'pending' AND expires_at <= ?`
abbrev pub stale : Time → Approval → Bool
stale as_of a = is_pending a.status && leb a.expires_at as_of

abbrev pub expire : Approval → Approval
expire a = record a { status = ApprovalStatus.expired }

abbrev pub decide : ApprovalStatus → Text → Time → Approval → Approval
decide status by now a = record a { status = status; decided_by = some by; decided_at = some now }

-- An `UPDATE approvals`, with its `rowcount`.
abbrev pub update_approvals : (Approval → Bool) → (Approval → Approval) → Tx ℕ
update_approvals p f db =
    pure (count_where p db.approvals) (record db { approvals = update_where p f db.approvals })

-- An `INSERT INTO approvals`: the primary key and the index `approvals_one_pending` refuse it.
unfoldable pub insert_approval : Approval → Tx (Unit {0})
insert_approval a db =
    if is_some (find_row (has_id a.id) db.approvals)
      || (is_pending a.status
          && is_some (find_row (pending_for a.action a.target_key) db.approvals))
    then raise integrity_error db
    else pure tt (record db { approvals = db.approvals ++ a ∷ [] })

-- The events of `_expire_stale`, one for each row that it finds.
abbrev expiry_events : Time → List Approval → List Event
expiry_events now [] = []
expiry_events now (a ∷ rows) =
    record {
      ts = now;
      detail = EventDetail.approval_expired;
      approval_id = some a.id;
      execution_id = none;
    }
    ∷ expiry_events now rows

-- `Store._expire_stale`
unfoldable pub expire_stale : Time → Time → Tx (Unit {0})
expire_stale now as_of db = pure tt (record db {
  approvals = update_where (stale as_of) expire db.approvals;
  events = db.events ++ expiry_events now (select (stale as_of) db.approvals);
})

abbrev last_scan : List IncidentReconciliation → Option Text
last_scan [] = none
last_scan (r ∷ []) = some r.scan_id
last_scan (_ ∷ r ∷ rest) = last_scan (r ∷ rest)

abbrev is_failing : Incident → Text → Bool
is_failing i scan =
    (elim i.status [ IncidentStatus.opened ↦ true | IncidentStatus.resolved ↦ false ])
    && (elim i.condition [
      | Condition.failing ↦ true
      | Condition.healthy ↦ false
      | Condition.unknown ↦ false
    ])
    && i.last_observed_scan_id == scan

-- The incident is open and failing in the latest reconciliation, which is the scan that is named.
abbrev pub is_current : Text → Text → Db → Bool
is_current incident scan db =
    opt_eq (last_scan db.incident_reconciliations) (some scan)
    && (elim (find_row (λ (i : Incident). i.id == incident) db.incidents) [
      | none ↦ false
      | some i ↦ is_failing i scan
    ])

-- What a front end asks to propose. `incident` and `incident_scan` are given together or not.
pub record Proposal : Type 0 where
  pub action : Text
  pub target_key : Text
  pub target : Text
  pub risk : Text
  pub requested_via : Text
  pub requested_by : Option Text
  pub ttl : ℕ
  pub incident_id : Option Text
  pub incident_scan_id : Option Text
  pub plan_json : Option Text
  pub plan_sha256 : Option Text
  pub origin : Option Text

abbrev pub new_approval : Time → Text → Proposal → Approval
new_approval now fresh p = record {
  id = fresh;
  action = p.action;
  target_key = p.target_key;
  target_json = p.target;
  risk = p.risk;
  status = ApprovalStatus.pending;
  requested_via = p.requested_via;
  requested_by = p.requested_by;
  created_at = now;
  expires_at = now + p.ttl;
  decided_by = none;
  decided_at = none;
  message_id = none;
  plan_json = p.plan_json;
  plan_sha256 = p.plan_sha256;
  origin = p.origin;
}

-- `if incident_id is not None: …` before the lookup of a live proposal.
source_guard : Option Text → Option Text → Tx (Unit {0})
source_guard (some incident) (some scan) db =
    guard (is_current incident scan db) incident_source_error db
source_guard _ _ db = pure tt db

-- The two plans are the same request: both absent, or equal with equal hashes.
abbrev pub same_plan : Option Text → Option Text → Approval → Bool
same_plan none sha a = is_none a.plan_json
same_plan (some plan) sha a = opt_eq a.plan_json (some plan) && opt_eq a.plan_sha256 sha

abbrev links_to : Text → Text → IncidentProposal → Bool
links_to incident scan l = l.incident_id == incident && l.scan_id == scan

-- The live proposal was made for the same incident and scan.
same_source : Option Text → Option Text → Text → Tx (Unit {0})
same_source (some incident) (some scan) approval db =
    guard
      (elim (find_row (λ (l : IncidentProposal). l.approval_id == approval) db.incident_proposals) [
        | none ↦ false
        | some l ↦ links_to incident scan l
      ])
      incident_source_error db
same_source _ _ approval db = pure tt db

-- `INSERT INTO incident_proposals`, whose primary key is the approval.
link_incident : Option Text → Option Text → Text → Tx (Unit {0})
link_incident (some incident) (some scan) approval db =
    if is_some
      (find_row (λ (l : IncidentProposal). l.approval_id == approval) db.incident_proposals)
    then raise integrity_error db
    else pure tt (record db {
      incident_proposals =
          db.incident_proposals
          ++ record { approval_id = approval; incident_id = incident; scan_id = scan } ∷ [];
    })
link_incident _ _ approval db = pure tt db

-- The live proposal for the target is returned as it is, if it is the same request.
reuse : Proposal → Approval → Tx (Approval × Bool)
unfolding same_source
reuse p a = do
  guard (same_plan p.plan_json p.plan_sha256 a) (pending_plan_conflict a.id)
  same_source p.incident_id p.incident_scan_id a.id
  pure (a, false)

create : Time → Text → Proposal → Tx (Approval × Bool)
unfolding insert_approval link_incident event
create now fresh p = do
  insert_approval (new_approval now fresh p)
  event now (EventDetail.proposal_created p.action p.target p.risk p.requested_via p.requested_by)
      (some fresh) none
  link_incident p.incident_id p.incident_scan_id fresh
  pure (new_approval now fresh p, true)

-- The live proposal for the same action and target.
abbrev pub live_proposal : Proposal → Db → Option Approval
live_proposal p db = find_row (pending_for p.action p.target_key) db.approvals

reuse_or_create : Time → Text → Proposal → Option Approval → Tx (Approval × Bool)
unfolding reuse create
reuse_or_create now fresh p (some a) = reuse p a
reuse_or_create now fresh p none = create now fresh p

-- `Store.propose`: the approval, and whether it was created.
pub propose : Time → Text → Proposal → Tx (Approval × Bool)
unfolding expire_stale source_guard reuse_or_create
propose now fresh p = do
  guard (if is_none p.incident_id then is_none p.incident_scan_id else is_some p.incident_scan_id)
      value_error
  expire_stale now now
  source_guard p.incident_id p.incident_scan_id
  found ← gets (live_proposal p)
  reuse_or_create now fresh p found

-- `value` is a text that is not empty.
abbrev given : Option Text → Bool
given none = false
given (some t) = not (t == 0)

-- `Store.propose_runbook`
pub propose_runbook : Time → Text → Proposal → Tx (Approval × Bool)
unfolding propose
propose_runbook now fresh p = do
  guard (given p.plan_json && given p.plan_sha256 && given p.origin) value_error
  propose now fresh p
