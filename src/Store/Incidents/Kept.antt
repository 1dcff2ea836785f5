-- ===== src/Store/Incidents/Kept.antt =====
-- What the incidents keep over a reconciliation, and that a scan is folded in once.
use planet_express.Prelude.{
  ◌≤◌, ◌≡◌, refl, sym, ◌∙◌, ◌≢◌, inl, inr, Bool, false, ◌&&◌, Option, none, some, List, [], ◌∷◌,
  ◌++◌, arith, is_none, is_some, Bool-cases, ==_refl, length, find_row, All, All-append,
  All-update_where, DistinctOn, DistinctOn-update_where, DistinctOn-append,
}
use mathlib.Core.Bool.{false≢true}
use planet_express.Store.Rows.{Text, Time, Incident, IncidentReconciliation, IncidentEvent, Db}
use planet_express.Store.Tx.{value_error, write, Ensures}
use planet_express.Store.Keeps.{Keeps, Keeps-bind, Keeps-guard, Keeps-gets, Keeps-pure, Keeps-write}
use planet_express.Store.Incidents.{
  Observation, of_fingerprint, of_id, is_opened, new_incident, resolve, look_again, observe,
  observe_healthy, observe_failing, observe_row, observe_one, observe_all, record_scan,
  reconcile_new, reconcile_incidents, is_healthy, is_unknown_condition, is_absent_or_resolved,
  update_incident, validate_observations, observations, of_scan,
}

-- An incident is resolved exactly if it says when, and it was observed at least once.
pub record IsSound (i : Incident) : Type 0 where
  pub when : is_none i.resolved_at ≡ is_opened i.status
  pub seen : 1 ≤ i.occurrences

abbrev fingerprint_of : Incident → Text
fingerprint_of i = i.fingerprint

-- All incidents are sound, and no two have the same fingerprint.
pub record AreSound (db : Db) : Type 0 where
  pub sound : All IsSound db.incidents
  pub distinct : DistinctOn fingerprint_of db.incidents

update-AreSound :
    (id : Text) (f : Incident → Incident) (db : Db) (events : List IncidentEvent)
    → ((i : Incident) → IsSound i → IsSound (f i))
    → ((i : Incident) → (f i).fingerprint ≡ i.fingerprint)
    → AreSound db
    → AreSound (update_incident id f events db)
update-AreSound id f db events h k a = record {
  sound = All-update_where IsSound (of_id id) f db.incidents (λ i _ s. h i s) a.sound;
  distinct =
      DistinctOn-update_where fingerprint_of (of_id id) f db.incidents (λ i _. k i) a.distinct;
}

other_fingerprint : (f : Text) (i : Incident) → of_fingerprint f i ≡ false → i.fingerprint ≢ f
other_fingerprint f i h e = absurd (false≢true (sym h ∙ rw (e, ==_refl f) refl))

new-AreSound :
    (now : Time) (scan fresh : Text) (o : Observation) (events : List IncidentEvent) (db : Db)
    → find_row (of_fingerprint o.fingerprint) db.incidents ≡ none
    → AreSound db
    → AreSound (record db {
      incidents = db.incidents ++ new_incident now scan fresh o ∷ [];
      incident_events = events;
    })
new-AreSound now scan fresh o events db absent a = record {
  sound =
      All-append IsSound db.incidents _ a.sound (record { when = refl; seen = omega arith }, tt);
  distinct =
      DistinctOn-append fingerprint_of (of_fingerprint o.fingerprint) db.incidents
        (new_incident now scan fresh o) (λ i h. other_fingerprint o.fingerprint i h) absent
        a.distinct;
}

observe-IsSound :
    (now : Time) (scan : Text) (o : Observation) (i : Incident)
    → IsSound i
    → IsSound (observe now scan o i)
observe-IsSound now scan o i s = record { when = refl; seen = omega arith }

failing-AreSound :
    (now : Time) (scan fresh : Text) (o : Observation) (row : Option Incident) (db : Db)
    → find_row (of_fingerprint o.fingerprint) db.incidents ≡ row
    → AreSound db
    → Ensures (λ _. AreSound) (observe_failing now scan fresh o row db)
unfolding observe_failing
failing-AreSound now scan fresh o none db e a =
    elim (Bool-cases (is_some (find_row (of_id fresh) db.incidents))) [
      | inl used ↦ rw used tt
      | inr free ↦ rw free (new-AreSound now scan fresh o _ db e a)
    ]
failing-AreSound now scan fresh o (some i) db e a =
    update-AreSound i.id (observe now scan o) db _ (observe-IsSound now scan o) (λ x. refl) a

healthy-AreSound :
    (now : Time) (scan : Text) (row : Option Incident) (db : Db)
    → AreSound db
    → AreSound (observe_healthy now scan row db).1
unfolding observe_healthy
healthy-AreSound now scan none db a = a
healthy-AreSound now scan (some i) db a = elim (Bool-cases (is_opened i.status)) [
  | inl was ↦ rw was (
      update-AreSound i.id (resolve now scan) db _ (λ x s. record { when = refl; seen = s.seen })
        (λ x. refl) a)
  | inr was ↦ rw was (
      update-AreSound i.id (look_again now scan) db []
        (λ x s. record { when = s.when; seen = s.seen }) (λ x. refl) a)
]

row-AreSound :
    (now : Time) (scan fresh : Text) (o : Observation) (row : Option Incident) (db : Db)
    → find_row (of_fingerprint o.fingerprint) db.incidents ≡ row
    → AreSound db
    → Ensures (λ _. AreSound) (observe_row now scan fresh o row db)
unfolding observe_row
row-AreSound now scan fresh o row db e a = elim (Bool-cases (is_healthy o.condition)) [
  | inl h ↦ rw h (healthy-AreSound now scan row db a)
  | inr h ↦
      rw h
        (elim (Bool-cases
          (is_unknown_condition o.condition && is_none o.severity && is_absent_or_resolved row)) [
            | inl u ↦ rw u a
            | inr u ↦ rw u (failing-AreSound now scan fresh o row db e a)
          ])
]

observe_all-AreSound :
    (now : Time) (scan : Text) (os : List (Text × Observation))
    → Keeps AreSound (observe_all now scan os)
unfolding observe_all observe_one
observe_all-AreSound now scan [] = Keeps-pure []
observe_all-AreSound now scan ((fresh, o) ∷ os) =
    Keeps-bind _ _
      (record {
        at = λ db a.
            row-AreSound now scan fresh o (find_row (of_fingerprint o.fingerprint) db.incidents) db
              refl a;
      })
      (λ changed.
        Keeps-bind _ _ (observe_all-AreSound now scan os)
          (λ others. Keeps-pure (changed ++ others)))

new_scan-AreSound :
    (now : Time) (scan stamp : Text) (os : List (Text × Observation))
    (known : Option IncidentReconciliation)
    → Keeps AreSound (reconcile_new now scan stamp os known)
unfolding reconcile_new
new_scan-AreSound now scan stamp os (some known) = record { at = λ db a. a }
new_scan-AreSound now scan stamp os none = record {
  at = λ db a.
      (observe_all-AreSound now scan os).at (record_scan now scan stamp (length os) db)
        (record { sound = a.sound; distinct = a.distinct });
}

-- A reconciliation, whether it returns or raises, keeps the incidents sound: each is resolved exactly
-- if it says when, has been observed at least once, and no two have the same fingerprint.
pub reconcile_incidents-AreSound :
    (is_well_formed : Observation → Bool) (now : Time) (scan stamp : Text)
    (os : List (Text × Observation)) (db : Db)
    → AreSound db
    → AreSound (write (reconcile_incidents is_well_formed now scan stamp os) db).1
unfolding reconcile_incidents
reconcile_incidents-AreSound is_well_formed now scan stamp os db a =
    Keeps-write _ db
      (Keeps-bind _ _
        (Keeps-guard (validate_observations is_well_formed (observations os)) value_error)
        (λ _.
          Keeps-bind _ _ (Keeps-gets (λ d. find_row (of_scan scan) d.incident_reconciliations))
            (new_scan-AreSound now scan stamp os)))
      a
