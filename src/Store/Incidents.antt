-- ===== src/Store/Incidents.antt =====
-- The incidents of core/store.py: `reconcile_incidents` folds the observations of one scan into them.
--
--   incident: (none) ──failing──► opened ──healthy──► resolved ──failing──► opened
--
-- The fingerprint version of an observation is 1, and no row keeps it here.
pub mod Kept
pub mod Once
use planet_express.Prelude.{
  All-select, ℕ, zero, suc, ◌+◌, ◌-◌, ◌*◌, ◌/◌, ◌%◌, ◌≤◌, ◌<◌, ◌≡◌, refl, sym, ap, ◌∙◌, subst, ◌≢◌,
  ◌↔◌, ◌⊎◌, inl, inr, Bool, true, false, not, ◌&&◌, ◌||◌, Option, none, some, List, [], ◌∷◌, ◌++◌,
  map, arith, ltb, leb, ◌==◌, if◌then◌else◌, is_none, is_some, opt_eq, coalesce, Bool-cases,
  Option-cases, eq-of-==, ==_refl, length, select, find_row, count_where, touch, update_where, All,
  length-append, count_where-append, All-append, All-intro, All-map, All-touch, All-update_where,
  All-find_row, find_row-update_where, find_row-append, find_row_fits, count_where_zero,
  find_row_none, count_where-update_where-le, update_where_none, Evolves, Evolves-refl,
  Evolves-append, Evolves-update_where, Evolves-trans, Evolves-find_row, All-Evolves,
  find_row-update_where_kept, found_of_count, count_of_found, find_row_weaken, count_where_none,
  DistinctOn, DistinctOn-update_where, DistinctOn-append, DistinctOn-found, DistinctOn-count,
  DistinctOn-count_found,
}
use planet_express.Store.Rows.{
  Text, Time, Incident, IncidentStatus, Condition, Severity, IncidentReconciliation, IncidentEvent,
  IncidentEventKind, Db,
}
use planet_express.Store.Tx.{
  Tx, ◌>>=◌, ◌>>◌, pure, raise, gets, guard, value_error, Error, Result, ok, err,
}

pub record Observation : Type 0 where
  pub fingerprint : Text
  pub kind : Text
  pub resource : Text
  pub condition : Condition
  pub severity : Option Severity
  pub summary : Text
  pub details_json : Text

-- `fingerprint in fingerprints`, for any two.
abbrev pub is_seen : Text → List Observation → Bool
is_seen f [] = false
is_seen f (o ∷ os) = o.fingerprint == f || is_seen f os

abbrev pub has_duplicate : List Observation → Bool
has_duplicate [] = false
has_duplicate (o ∷ os) = is_seen o.fingerprint os || has_duplicate os

-- `Store._validate_observations`: each is well formed by itself (its fields, lengths and the digest
-- of its identity), and no two have the same fingerprint.
abbrev pub validate_observations : (Observation → Bool) → List Observation → Bool
validate_observations is_well_formed os =
    count_where (λ o. not (is_well_formed o)) os == 0 && not (has_duplicate os)

abbrev pub of_fingerprint : Text → Incident → Bool
of_fingerprint f i = i.fingerprint == f

abbrev pub of_id : Text → Incident → Bool
of_id id i = i.id == id

abbrev pub is_opened : IncidentStatus → Bool
is_opened IncidentStatus.opened = true
is_opened IncidentStatus.resolved = false

abbrev pub new_incident : Time → Text → Text → Observation → Incident
new_incident now scan fresh o = record {
  id = fresh;
  fingerprint = o.fingerprint;
  kind = o.kind;
  resource = o.resource;
  status = IncidentStatus.opened;
  condition = o.condition;
  severity = o.severity;
  summary = o.summary;
  details_json = o.details_json;
  last_observed_scan_id = scan;
  first_seen = now;
  last_seen = now;
  resolved_at = none;
  occurrences = 1;
}

abbrev pub resolve : Time → Text → Incident → Incident
resolve now scan i = record i {
  status = IncidentStatus.resolved;
  last_observed_scan_id = scan;
  last_seen = now;
  resolved_at = some now;
}

-- A healthy observation of an incident that is resolved.
abbrev pub look_again : Time → Text → Incident → Incident
look_again now scan i = record i { last_observed_scan_id = scan; last_seen = now }

abbrev pub observe : Time → Text → Observation → Incident → Incident
observe now scan o i = record i {
  status = IncidentStatus.opened;
  condition = o.condition;
  severity = o.severity;
  summary = o.summary;
  details_json = o.details_json;
  last_observed_scan_id = scan;
  last_seen = now;
  resolved_at = none;
  occurrences = i.occurrences + 1;
}

abbrev pub incident_event :
    Time
    → Text
    → Text
    → IncidentEventKind
    → Option (Condition × Option Severity × Text)
    → IncidentEvent
incident_event now scan id kind payload = record {
  incident_id = id;
  scan_id = scan;
  ts = now;
  kind = kind;
  payload = payload;
}

abbrev pub update_incident : Text → (Incident → Incident) → List IncidentEvent → Db → Db
update_incident id f events db = record db {
  incidents = update_where (of_id id) f db.incidents;
  incident_events = db.incident_events ++ events;
}

-- A healthy observation: the ids that changed, and the database.
unfoldable pub observe_healthy : Time → Text → Option Incident → Db → List Text × Db
observe_healthy now scan none db = ([], db)
observe_healthy now scan (some i) db =
    if is_opened i.status
    then (
      i.id ∷ [],
      update_incident i.id (resolve now scan)
          (incident_event now scan i.id IncidentEventKind.resolved none ∷ []) db,
    )
    else ([], update_incident i.id (look_again now scan) [] db)

abbrev pub payload_of : Observation → Option (Condition × Option Severity × Text)
payload_of o = some (o.condition, o.severity, o.summary)

-- An observation that opens, reopens or repeats an incident. An id that is in use is refused.
unfoldable pub observe_failing :
    Time → Text → Text → Observation → Option Incident → Db → Result (List Text × Db)
observe_failing now scan fresh o none db =
    if is_some (find_row (of_id fresh) db.incidents)
    then err Error.integrity_error
    else ok (
      fresh ∷ [],
      record db {
        incidents = db.incidents ++ new_incident now scan fresh o ∷ [];
        incident_events =
            db.incident_events
            ++ incident_event now scan fresh IncidentEventKind.opened (payload_of o) ∷ [];
      },
    )
observe_failing now scan fresh o (some i) db = ok (
  i.id ∷ [],
  update_incident i.id (observe now scan o)
      (incident_event now scan i.id
          (if is_opened i.status then IncidentEventKind.observed else IncidentEventKind.reopened)
          (payload_of o)
        ∷ [])
      db,
)

abbrev pub is_healthy : Condition → Bool
is_healthy Condition.healthy = true
is_healthy _ = false

abbrev pub is_unknown_condition : Condition → Bool
is_unknown_condition Condition.unknown = true
is_unknown_condition _ = false

abbrev pub is_absent_or_resolved : Option Incident → Bool
is_absent_or_resolved none = true
is_absent_or_resolved (some i) = not (is_opened i.status)

unfoldable pub observe_row : Time → Text → Text → Observation → Option Incident → Tx (List Text)
unfolding observe_healthy observe_failing
observe_row now scan fresh o row db =
    if is_healthy o.condition
    then ok (observe_healthy now scan row db)
    else if is_unknown_condition o.condition && is_none o.severity && is_absent_or_resolved row
    then ok ([], db)
    else observe_failing now scan fresh o row db

-- One observation, with the id for an incident that it may open.
unfoldable pub observe_one : Time → Text → Text → Observation → Tx (List Text)
unfolding observe_row
observe_one now scan fresh o = do
  row ← gets (λ db. find_row (of_fingerprint o.fingerprint) db.incidents)
  observe_row now scan fresh o row

unfoldable pub observe_all : Time → Text → List (Text × Observation) → Tx (List Text)
unfolding observe_one
observe_all now scan [] = pure []
observe_all now scan ((fresh, o) ∷ os) = do
  changed ← observe_one now scan fresh o
  others ← observe_all now scan os
  pure (changed ++ others)

abbrev pub observations : List (Text × Observation) → List Observation
observations [] = []
observations ((fresh, o) ∷ os) = o ∷ observations os

abbrev pub of_scan : Text → IncidentReconciliation → Bool
of_scan scan r = r.scan_id == scan

abbrev pub record_scan : Time → Text → Text → ℕ → Db → Db
record_scan now scan stamp count db = record db {
  incident_reconciliations =
      db.incident_reconciliations
      ++ record {
        scan_id = scan;
        snapshot_timestamp = stamp;
        reconciled_at = now;
        observation_count = count;
      }
        ∷ [];
}

unfoldable pub reconcile_new :
    Time → Text → Text → List (Text × Observation) → Option IncidentReconciliation → Tx (List Text)
unfolding observe_all
reconcile_new now scan stamp os (some known) db = ok ([], db)
reconcile_new now scan stamp os none db =
    observe_all now scan os (record_scan now scan stamp (length os) db)

-- `Store.reconcile_incidents`: the ids of the incidents that changed. The scan id and the timestamp
-- are well formed; the rows of these ids are read at the end of the same write.
unfoldable pub reconcile_incidents :
    (Observation → Bool) → Time → Text → Text → List (Text × Observation) → Tx (List Text)
unfolding reconcile_new
reconcile_incidents is_well_formed now scan stamp os = do
  guard (validate_observations is_well_formed (observations os)) value_error
  known ← gets (λ db. find_row (of_scan scan) db.incident_reconciliations)
  reconcile_new now scan stamp os known
