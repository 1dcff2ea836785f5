-- ===== src/Store/Tests/Auth.antt =====
-- The theorems on the dashboard's authentication state at concrete inputs.
use planet_express.Prelude.{◌+◌, ◌≡◌, refl, true, false, [], ◌∷◌, arith, ◌==◌, if◌then◌else◌}
use planet_express.Store.Rows.{Db, empty_db, AuthKind, Time, Text}
use planet_express.Store.Tx.{write, ok}
use planet_express.Store.Auth.{
  consume_totp_step, revoke_devices, device_epoch, record_auth_failure, is_locked, counter,
  count_failure, insert_failure, forget_failures, prune_counters, lock_keys, reset_counter,
  advance_totp, lock_event,
}
use planet_express.Store.Auth.Replay.{totp_never_replayed, totp_steps, revoke_devices_exactly}
use planet_express.Store.Auth.Isolation.{IsAuthKeyed, SameKey}
use planet_express.Store.Auth.Failures.{record_auth_failure-IsAuthKeyed, failure_isolated}
use planet_express.Store.Auth.Locks.{lock_not_extended}

-- The operator 10 at the address 20 has failed three times, and is locked until 1002.
abbrev fails : Time → Db → Db
fails now db = (write (record_auth_failure now 10 20) db).1

abbrev locked_out : Db
locked_out = fails 102 (fails 101 (fails 100 empty_db))

empty-IsAuthKeyed : IsAuthKeyed empty_db
empty-IsAuthKeyed = record { positive = tt; distinct = tt }

once-IsAuthKeyed : IsAuthKeyed (write (record_auth_failure 100 10 20) empty_db).1
once-IsAuthKeyed = record_auth_failure-IsAuthKeyed 10 20 100 empty_db empty-IsAuthKeyed

twice-IsAuthKeyed : IsAuthKeyed locked_out
twice-IsAuthKeyed = record_auth_failure-IsAuthKeyed 10 20 102 (fails 101 (fails 100 empty_db)) (
    record_auth_failure-IsAuthKeyed 10 20 101 (fails 100 empty_db)
      (record_auth_failure-IsAuthKeyed 10 20 100 empty_db empty-IsAuthKeyed))

-- The operator 11 does not see the failures of the operator 10 from elsewhere.
failure_isolated_example :
    SameKey
      (AuthKind.operator, 11)
      103
      (write (record_auth_failure 103 10 20) locked_out).1
      locked_out
failure_isolated_example =
    failure_isolated AuthKind.operator 11 10 20 103 103 locked_out (omega arith) twice-IsAuthKeyed
      refl

is-locked : is_locked (AuthKind.operator, 10) 103 locked_out ≡ true
unfolding write record_auth_failure count_failure insert_failure forget_failures prune_counters
    lock_keys reset_counter lock_event
is-locked = refl

lock_not_extended_example :
    counter (AuthKind.operator, 10) (write (record_auth_failure 103 10 20) locked_out).1
    ≡ counter (AuthKind.operator, 10) locked_out
lock_not_extended_example =
    lock_not_extended AuthKind.operator 10 10 20 103 locked_out twice-IsAuthKeyed is-locked

totp_never_replayed_example :
    (write
      (consume_totp_step 10 7)
      (totp_steps ((11, 9) ∷ (10, 8) ∷ []) (write (consume_totp_step 10 7) empty_db).1)).0
    ≡ ok false
unfolding write consume_totp_step advance_totp
totp_never_replayed_example =
    totp_never_replayed 10 7 7 ((11, 9) ∷ (10, 8) ∷ []) empty_db refl (omega arith)

revoked_once :
    ((write (revoke_devices 100 10) empty_db).0 ≡ ok (device_epoch 10 empty_db + 1))
    × ((k : Text)
        → device_epoch k (write (revoke_devices 100 10) empty_db).1
          ≡ (if k == 10 then device_epoch k empty_db + 1 else device_epoch k empty_db))
revoked_once = revoke_devices_exactly 100 10 empty_db
