-- ===== src/Store/Auth/Locks.antt =====
-- The deadline of a lock: failures that are recorded under it leave it where it is, and a success
-- removes it.
use planet_express.Prelude.{
  ℕ, ◌+◌, ◌≡◌, refl, sym, ap, ◌∙◌, inl, inr, true, false, ◌&&◌, Option, none, some, List, [], ◌∷◌,
  arith, ltb, leb, ◌==◌, Bool-cases, find_row,
}
use mathlib.Core.Bool.{false≢true}
use planet_express.Store.Rows.{Text, Time, AuthCounter, AuthKind, Db}
use planet_express.Store.Tx.{write}
use planet_express.Store.Auth.{
  Key, same_kind, is_counter, lock_of, counter, is_locked, auth_lock_seconds, reset_counter,
  insert_failure, forget_failures, is_idle, prune_counters, lock_keys, count_failure,
  record_auth_failure, auth_max_failures,
}
use planet_express.Store.Auth.Isolation.{drop_idle, IsAuthKeyed, find-dropped, find-upsert, key_of}
use planet_express.Store.Auth.Failures.{committed_counters, forget-IsAuthKeyed, insert-IsAuthKeyed}

-- A key that is locked is not among those that the loop resets.
guard_fails :
    (now n : ℕ) (o : Option AuthCounter)
    → ltb now (lock_of o) ≡ true
    → (leb auth_max_failures n && leb (lock_of o) now) ≡ false
guard_fails now n o h = ground arith

not_dropped :
    (now : Time) (db : Db) (o : Option AuthCounter)
    → ltb now (lock_of o) ≡ true
    → drop_idle now db o ≡ o
not_dropped now db none h = refl
not_dropped now db (some c) h = ground arith

module _ (kind : AuthKind) (value : Text) (now : Time) where
  reset_other :
      (k : AuthKind) (v : Text) (until : Time) (db : Db)
      → (same_kind k kind && v == value) ≡ false
      → counter (kind, value) (reset_counter (k, v) until db) ≡ counter (kind, value) db
  unfolding reset_counter
  reset_other k v until db h = find-upsert kind value _ db.auth_counters h

  same_watched :
      (k : AuthKind) (v : Text)
      → (same_kind k kind && v == value) ≡ true
      → (db : Db) → counter (k, v) db ≡ counter (kind, value) db
  same_watched k v q db =
      ap (λ (key : Key). counter key db)
        (key_of kind value (record { kind = k; value = v; reset_after_id = 0; locked_until = 0 }) q)

  lock_keys-counter :
      (ks : List (Key × ℕ)) (db : Db)
      → is_locked (kind, value) now db ≡ true
      → counter (kind, value) (lock_keys now ks db) ≡ counter (kind, value) db
  unfolding lock_keys
  lock_keys-counter [] db h = refl
  lock_keys-counter (((k, v), n) ∷ ks) db h =
      elim (Bool-cases (leb auth_max_failures n && leb (lock_of (counter (k, v) db)) now)) [
        | inl e ↦ elim (Bool-cases (same_kind k kind && v == value)) [
          | inl q ↦ absurd (
              false≢true
                (sym (guard_fails now n (counter (k, v) db) (rw (same_watched k v q db) h)) ∙ e))
          | inr q ↦
              let db' = reset_counter (k, v) (now + auth_lock_seconds) db in
              let kept = reset_other k v (now + auth_lock_seconds) db q in
              rw (lock_keys, e) (lock_keys-counter ks db' (rw kept h) ∙ kept)
        ]
        | inr e ↦ rw (lock_keys, e) (lock_keys-counter ks db h)
      ]

  prune-counter :
      (db : Db)
      → IsAuthKeyed db
      → is_locked (kind, value) now db ≡ true
      → counter (kind, value) (prune_counters now db) ≡ counter (kind, value) db
  unfolding prune_counters
  prune-counter db k h =
      rw (find-dropped (kind, value) (is_idle now db) db.auth_counters k.distinct)
        (not_dropped now db (counter (kind, value) db) h)

  insert-counter :
      (operator client_ip : Text) (db : Db)
      → counter (kind, value) (forget_failures now (insert_failure operator client_ip now db))
        ≡ counter (kind, value) db
  unfolding insert_failure forget_failures
  insert-counter operator client_ip db = refl

count_failure-counter :
    (kind : AuthKind) (value operator client_ip : Text) (now : Time) (db : Db)
    → IsAuthKeyed db
    → is_locked (kind, value) now db ≡ true
    → counter (kind, value) (count_failure operator client_ip now db) ≡ counter (kind, value) db
unfolding count_failure
count_failure-counter kind value operator client_ip now db k h =
    let kept = forget_failures now (insert_failure operator client_ip now db) in
    let same = insert-counter kind value now operator client_ip db in
    let locked : is_locked (kind, value) now kept ≡ true = rw same h in
    let pruned =
      prune-counter kind value now kept
        (forget-IsAuthKeyed now _ (insert-IsAuthKeyed operator client_ip now db k)) locked in
    lock_keys-counter kind value now _ (prune_counters now kept) (rw pruned locked) ∙ pruned ∙ same

-- With positive ids and one counter for a key: recording a failure of whatever operator and address
-- while a key is locked leaves the counter of that key, its deadline included, as it is.
pub lock_not_extended :
    (kind : AuthKind) (value operator client_ip : Text) (now : Time) (db : Db)
    → IsAuthKeyed db
    → is_locked (kind, value) now db ≡ true
    → counter (kind, value) (write (record_auth_failure now operator client_ip) db).1
      ≡ counter (kind, value) db
lock_not_extended kind value operator client_ip now db k h =
    ap (find_row (is_counter (kind, value))) (committed_counters operator client_ip now db)
    ∙ count_failure-counter kind value operator client_ip now db k h
