-- ===== src/Store/Rows.antt =====
-- The tables of core/store.py (`_SCHEMA_V5`), one record for each row.
--
-- A text that the code only stores and compares (an id, an action, a plan) is the number that
-- stands for it, with 0 for the empty text; a JSON column is the number of the value that it holds,
-- since `json.dumps(…, sort_keys=True)` is equal exactly on equal values. Times are whole ticks of
-- the injected clock. A nullable column is an `Option`.
use planet_express.Prelude.{ℕ, Bool, true, false, Option, List, []}

abbrev pub Text : Type 0
Text = ℕ

abbrev pub Time : Type 0
Time = ℕ

-- A JSON object whose keys the code merges.
abbrev pub Dict : Type 0
Dict = List (Text × Text)

pub data ApprovalStatus : Type 0 where
  pending approved denied expired : ApprovalStatus

pub record Approval : Type 0 where
  pub id : Text
  pub action : Text
  pub target_key : Text
  pub target_json : Text
  pub risk : Text
  pub status : ApprovalStatus
  pub requested_via : Text
  pub requested_by : Option Text
  pub created_at : Time
  pub expires_at : Time
  pub decided_by : Option Text
  pub decided_at : Option Time
  pub message_id : Option ℕ
  pub plan_json : Option Text
  pub plan_sha256 : Option Text
  pub origin : Option Text

pub data ExecutionKind : Type 0 where
  run rollback : ExecutionKind

pub data ExecutionStatus : Type 0 where
  running verifying passed failed interrupted aborted rolled_back rollback_failed : ExecutionStatus

pub record Execution : Type 0 where
  pub id : Text
  pub approval_id : Text
  pub kind : ExecutionKind
  pub parent_execution_id : Option Text
  pub status : ExecutionStatus
  pub started_at : Time
  pub finished_at : Option Time
  pub reason : Option Text
  pub abort_requested_at : Option Time

pub data StepStatus : Type 0 where
  pending dispatched passed failed skipped aborted : StepStatus

pub data Effect : Type 0 where
  applied not_applied unknown : Effect

pub record ExecutionStep : Type 0 where
  pub execution_id : Text
  pub n : ℕ
  pub type : Text
  pub params : Text
  pub binding : Text
  pub pre_state : Option Dict
  pub status : StepStatus
  pub effect : Option Effect
  pub output : Option Text
  pub reason : Option Text
  pub started_at : Option Time
  pub finished_at : Option Time

pub data AttemptState : Type 0 where
  reserved consumed released : AttemptState

pub record Attempt : Type 0 where
  pub execution_id : Text
  pub step_n : ℕ
  pub step_type : Text
  pub target_key : Text
  pub state : AttemptState
  pub reserved_at : Time
  pub settled_at : Option Time

pub record RollbackCandidate : Type 0 where
  pub execution_id : Text
  pub step_n : ℕ
  pub stack : Text
  pub service : Text
  pub image_reference : Text
  pub old_image_id : Text
  pub created_at : Time
  pub expires_at : Time
  pub closed_at : Option Time

pub data IncidentStatus : Type 0 where
  opened resolved : IncidentStatus

pub data Condition : Type 0 where
  healthy failing unknown : Condition

pub data Severity : Type 0 where
  critical high medium low : Severity

pub record Incident : Type 0 where
  pub id : Text
  pub fingerprint : Text
  pub kind : Text
  pub resource : Text
  pub status : IncidentStatus
  pub condition : Condition
  pub severity : Option Severity
  pub summary : Text
  pub details_json : Text
  pub last_observed_scan_id : Text
  pub first_seen : Time
  pub last_seen : Time
  pub resolved_at : Option Time
  pub occurrences : ℕ

pub record IncidentReconciliation : Type 0 where
  pub scan_id : Text
  pub snapshot_timestamp : Text
  pub reconciled_at : Time
  pub observation_count : ℕ

pub record IncidentProposal : Type 0 where
  pub approval_id : Text
  pub incident_id : Text
  pub scan_id : Text

pub data IncidentEventKind : Type 0 where
  opened observed resolved reopened : IncidentEventKind

pub record IncidentEvent : Type 0 where
  pub incident_id : Text
  pub scan_id : Text
  pub ts : Time
  pub kind : IncidentEventKind
  pub payload : Option (Condition × Option Severity × Text)

pub record AuthFailure : Type 0 where
  pub id : ℕ
  pub operator : Text
  pub client_ip : Text
  pub at : Time

pub data AuthKind : Type 0 where
  operator client_ip : AuthKind

pub record AuthCounter : Type 0 where
  pub kind : AuthKind
  pub value : Text
  pub reset_after_id : ℕ
  pub locked_until : Time

pub record TotpStep : Type 0 where
  pub operator : Text
  pub last_step : ℕ

pub record DeviceEpoch : Type 0 where
  pub operator : Text
  pub epoch : ℕ

pub data ChatStatus : Type 0 where
  queued running done failed interrupted : ChatStatus

pub data ChatOutcome : Type 0 where
  gave_answer proposal insufficient_evidence unsupported_fix quota_exhausted : ChatOutcome

-- The list that a JSON column holds by default is 0.
pub record ChatTicket : Type 0 where
  pub id : Text
  pub operator : Text
  pub submission_id : Text
  pub question : Text
  pub status : ChatStatus
  pub outcome : Option ChatOutcome
  pub answer : Option Text
  pub evidence : Text
  pub cited : Text
  pub approval_id : Option Text
  pub error : Option Text
  pub llm_calls : ℕ
  pub created_at : Time
  pub finished_at : Option Time

-- The `kind` of an event with the payload that the code writes under it.
pub data EventDetail : Type 0 where
  proposal_created : Text → Text → Text → Text → Option Text → EventDetail
  approval_expired : EventDetail
  approval_approved approval_denied : Text → EventDetail
  approval_superseded : Text → EventDetail
  approval_refused_stale_incident : Text → Text → EventDetail
  execution_started : EventDetail
  execution_entered : ExecutionStatus → Option Text → EventDetail
  execution_abort_requested : Text → EventDetail
  execution_rollback_started : Text → Text → EventDetail
  canary_window_settled : ℕ → Text → EventDetail
  auth_failure auth_locked : Text → Text → Option Time → EventDetail
  auth_success : Text → Text → EventDetail
  auth_devices_revoked : Text → ℕ → EventDetail
  auth_lock_notified : Text → Text → Time → EventDetail
  chat_queued chat_llm_call : Text → EventDetail
  chat_finished : Text → ChatStatus → EventDetail
  other : Text → EventDetail

pub record Event : Type 0 where
  pub ts : Time
  pub detail : EventDetail
  pub approval_id : Option Text
  pub execution_id : Option Text

-- The whole database. `failure_seq` is the AUTOINCREMENT counter of `auth_failures`.
pub record Db : Type 0 where
  pub approvals : List Approval
  pub executions : List Execution
  pub execution_steps : List ExecutionStep
  pub attempts : List Attempt
  pub rollback_candidates : List RollbackCandidate
  pub incidents : List Incident
  pub incident_reconciliations : List IncidentReconciliation
  pub incident_proposals : List IncidentProposal
  pub incident_events : List IncidentEvent
  pub auth_failures : List AuthFailure
  pub failure_seq : ℕ
  pub auth_counters : List AuthCounter
  pub auth_totp_steps : List TotpStep
  pub auth_device_epochs : List DeviceEpoch
  pub chat_tickets : List ChatTicket
  pub events : List Event

abbrev pub empty_db : Db
empty_db = record {
  approvals = [];
  executions = [];
  execution_steps = [];
  attempts = [];
  rollback_candidates = [];
  incidents = [];
  incident_reconciliations = [];
  incident_proposals = [];
  incident_events = [];
  auth_failures = [];
  failure_seq = 0;
  auth_counters = [];
  auth_totp_steps = [];
  auth_device_epochs = [];
  chat_tickets = [];
  events = [];
}

abbrev pub is_pending : ApprovalStatus → Bool
is_pending ApprovalStatus.pending = true
is_pending _ = false

-- `status IN ('running', 'verifying')`
abbrev pub is_active : ExecutionStatus → Bool
is_active ExecutionStatus.running = true
is_active ExecutionStatus.verifying = true
is_active _ = false

abbrev pub is_run : ExecutionKind → Bool
is_run ExecutionKind.run = true
is_run ExecutionKind.rollback = false
