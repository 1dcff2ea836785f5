-- ===== src/Store/Incidents/Once.antt =====
-- A scan is folded in once.
use planet_express.Prelude.{
  ℕ, ◌≡◌, refl, subst, inl, inr, Bool, true, ◌&&◌, Option, none, some, List, [], ◌∷◌, ◌++◌, arith,
  is_none, is_some, Bool-cases, Option-cases, ==_refl, length, find_row,
}
use mathlib.Core.Bool.{false≢true}
use planet_express.Store.Rows.{Text, Time, Incident, IncidentReconciliation, Db}
use planet_express.Store.Tx.{ok, write, Ensures, write-eq-ok}
use planet_express.Store.Keeps.{Keeps, Keeps-bind, Keeps-gets, Keeps-pure}
use planet_express.Store.Incidents.{
  Observation, validate_observations, observations, of_fingerprint, of_id, of_scan, is_opened,
  observe_healthy, observe_failing, observe_row, observe_one, observe_all, record_scan,
  reconcile_new, reconcile_incidents, is_healthy, is_unknown_condition, is_absent_or_resolved,
}

-- The scan has been recorded.
abbrev pub IsKnown : Text → Db → Type 0
IsKnown scan db = is_some (find_row (of_scan scan) db.incident_reconciliations) ≡ true

module _ (scan : Text) where
  failing-IsKnown :
      (now : Time) (s fresh : Text) (o : Observation) (row : Option Incident) (db : Db)
      → IsKnown scan db
      → Ensures (λ _. IsKnown scan) (observe_failing now s fresh o row db)
  unfolding observe_failing
  failing-IsKnown now s fresh o none db k =
      elim (Bool-cases (is_some (find_row (of_id fresh) db.incidents))) [
        | inl used ↦ rw used tt
        | inr free ↦ rw free k
      ]
  failing-IsKnown now s fresh o (some i) db k = k

  healthy-IsKnown :
      (now : Time) (s : Text) (row : Option Incident) (db : Db)
      → IsKnown scan db
      → IsKnown scan (observe_healthy now s row db).1
  unfolding observe_healthy
  healthy-IsKnown now s none db k = k
  healthy-IsKnown now s (some i) db k = elim (Bool-cases (is_opened i.status)) [
    | inl was ↦ rw was k
    | inr was ↦ rw was k
  ]

  row-IsKnown :
      (now : Time) (s fresh : Text) (o : Observation) (row : Option Incident)
      → Keeps (IsKnown scan) (observe_row now s fresh o row)
  unfolding observe_row
  row-IsKnown now s fresh o row = record {
    at = λ db k. elim (Bool-cases (is_healthy o.condition)) [
      | inl h ↦ rw h (healthy-IsKnown now s row db k)
      | inr h ↦
          rw h
            (elim (Bool-cases (
              is_unknown_condition o.condition
              && is_none o.severity
              && is_absent_or_resolved row)) [
                | inl u ↦ rw u k
                | inr u ↦ rw u (failing-IsKnown now s fresh o row db k)
              ])
    ];
  }

  observe_all-IsKnown :
      (now : Time) (s : Text) (os : List (Text × Observation))
      → Keeps (IsKnown scan) (observe_all now s os)
  unfolding observe_all observe_one
  observe_all-IsKnown now s [] = Keeps-pure []
  observe_all-IsKnown now s ((fresh, o) ∷ os) =
      Keeps-bind _ _
        (Keeps-bind _ _ (Keeps-gets (λ db. find_row (of_fingerprint o.fingerprint) db.incidents))
          (row-IsKnown now s fresh o))
        (λ changed.
          Keeps-bind _ _ (observe_all-IsKnown now s os) (λ others. Keeps-pure (changed ++ others)))

found_last :
    (scan : Text) (now : Time) (stamp : Text) (n : ℕ) (rows : List IncidentReconciliation)
    → is_some (
        find_row (of_scan scan) (
          rows
          ++ record {
            scan_id = scan;
            snapshot_timestamp = stamp;
            reconciled_at = now;
            observation_count = n;
          }
            ∷ []))
      ≡ true
found_last scan now stamp n [] = ground (arith, ==_refl scan)
found_last scan now stamp n (r ∷ rows) = ground (arith, found_last scan now stamp n rows)

recorded :
    (now : Time) (scan stamp : Text) (n : ℕ) (db : Db)
    → IsKnown scan (record_scan now scan stamp n db)
recorded now scan stamp n db = found_last scan now stamp n db.incident_reconciliations

new-IsKnown :
    (now : Time) (scan stamp : Text) (os : List (Text × Observation))
    (known : Option IncidentReconciliation) (db : Db)
    → find_row (of_scan scan) db.incident_reconciliations ≡ known
    → Ensures (λ _. IsKnown scan) (reconcile_new now scan stamp os known db)
unfolding reconcile_new
new-IsKnown now scan stamp os (some r) db e = rw e refl
new-IsKnown now scan stamp os none db e =
    (observe_all-IsKnown scan now scan os).at (record_scan now scan stamp (length os) db)
      (recorded now scan stamp (length os) db)

reconciled-IsKnown :
    (is_well_formed : Observation → Bool) (now : Time) (scan stamp : Text)
    (os : List (Text × Observation)) (db : Db)
    → Ensures (λ _. IsKnown scan) (reconcile_incidents is_well_formed now scan stamp os db)
unfolding reconcile_incidents
reconciled-IsKnown is_well_formed now scan stamp os db =
    elim (Bool-cases (validate_observations is_well_formed (observations os))) [
      | inl v ↦ rw v (
          new-IsKnown now scan stamp os (find_row (of_scan scan) db.incident_reconciliations) db
            refl)
      | inr v ↦ rw v tt
    ]

known_again :
    (is_well_formed : Observation → Bool) (now : Time) (scan stamp : Text)
    (os : List (Text × Observation)) (db : Db)
    → validate_observations is_well_formed (observations os) ≡ true
    → IsKnown scan db
    → write (reconcile_incidents is_well_formed now scan stamp os) db ≡ (ok [], db)
unfolding reconcile_incidents reconcile_new write
known_again is_well_formed now scan stamp os db v k =
    elim (Option-cases (find_row (of_scan scan) db.incident_reconciliations)) [
      | inl none_found ↦ absurd (false≢true (subst (λ r. is_some r ≡ true) none_found k))
      | inr (r, found) ↦ ground (arith, v, found)
    ]

-- Once a scan was reconciled, reconciling it again with whatever valid observations, at whatever time,
-- reports no change and leaves the database as it is.
pub reconciled_once :
    (is_well_formed : Observation → Bool) (now later : Time) (scan stamp stamp' : Text)
    (os os' : List (Text × Observation)) (db : Db) (changed : List Text)
    → (write (reconcile_incidents is_well_formed now scan stamp os) db).0 ≡ ok changed
    → validate_observations is_well_formed (observations os') ≡ true
    → write
        (reconcile_incidents is_well_formed later scan stamp' os')
        (write (reconcile_incidents is_well_formed now scan stamp os) db).1
      ≡ (ok [], (write (reconcile_incidents is_well_formed now scan stamp os) db).1)
reconciled_once is_well_formed now later scan stamp stamp' os os' db changed h v =
    known_again is_well_formed later scan stamp' os' _ v (
      subst (Ensures (λ _. IsKnown scan)) (write-eq-ok _ db changed h)
        (reconciled-IsKnown is_well_formed now scan stamp os db))
