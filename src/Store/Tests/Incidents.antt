-- ===== src/Store/Tests/Incidents.antt =====
-- The theorems on incidents at concrete inputs.
use planet_express.Prelude.{◌≡◌, refl, Bool, none, some, [], ◌∷◌, ltb}
use planet_express.Store.Rows.{empty_db, Condition, Severity}
use planet_express.Store.Tx.{write, ok}
use planet_express.Store.Incidents.{Observation, reconcile_incidents}
use planet_express.Store.Incidents.Kept.{AreSound, reconcile_incidents-AreSound}
use planet_express.Store.Incidents.Once.{reconciled_once}

-- A container that does not run.
abbrev failure : Observation
failure = record {
  fingerprint = 30;
  kind = 31;
  resource = 32;
  condition = Condition.failing;
  severity = some Severity.high;
  summary = 33;
  details_json = 34;
}

abbrev recovery : Observation
recovery = record failure { condition = Condition.healthy; severity = none }

abbrev accepts : Observation → Bool
accepts o = ltb 0 o.kind

empty-AreSound : AreSound empty_db
empty-AreSound = record { sound = tt; distinct = tt }

reconcile_incidents-AreSound_example :
    AreSound (write (reconcile_incidents accepts 100 5 6 ((40, failure) ∷ [])) empty_db).1
reconcile_incidents-AreSound_example =
    reconcile_incidents-AreSound accepts 100 5 6 ((40, failure) ∷ []) empty_db empty-AreSound

first_opens :
    (write (reconcile_incidents accepts 100 5 6 ((40, failure) ∷ [])) empty_db).0 ≡ ok (40 ∷ [])
unfolding write reconcile_incidents
first_opens = refl

reconciled_once_example :
    write
      (reconcile_incidents accepts 200 5 7 ((41, recovery) ∷ []))
      (write (reconcile_incidents accepts 100 5 6 ((40, failure) ∷ [])) empty_db).1
    ≡ (ok [], (write (reconcile_incidents accepts 100 5 6 ((40, failure) ∷ [])) empty_db).1)
reconciled_once_example =
    reconciled_once accepts 100 200 5 6 7 ((40, failure) ∷ []) ((41, recovery) ∷ []) empty_db
      (40 ∷ []) first_opens refl
