-- ===== src/Store/Auth.antt =====
-- The dashboard's authentication state in core/store.py: failure counters and locks of an operator
-- and of a client address, the TOTP steps that were used, and the device epochs.
pub mod Failures
pub mod Isolation
pub mod Locks
pub mod Replay
use planet_express.Prelude.{
  ℕ, zero, suc, ◌+◌, ◌-◌, ◌*◌, ◌/◌, ◌%◌, ◌≤◌, ◌<◌, ◌≡◌, refl, sym, ap, ◌∙◌, subst, ◌≢◌, ◌↔◌, ◌⊎◌,
  inl, inr, Bool, true, false, not, ◌&&◌, ◌||◌, Option, none, some, List, [], ◌∷◌, ◌++◌, map, arith,
  ltb, leb, ◌==◌, if◌then◌else◌, is_none, is_some, opt_eq, coalesce, Bool-cases, Option-cases,
  eq-of-==, ==_refl, length, select, find_row, count_where, touch, update_where, All, length-append,
  count_where-append, All-append, All-intro, All-map, All-touch, All-update_where, All-find_row,
  find_row-update_where, find_row-append, find_row_fits, count_where_zero, find_row_none,
  count_where-update_where-le, update_where_none, Evolves, Evolves-refl, Evolves-append,
  Evolves-update_where, Evolves-trans, Evolves-find_row, All-Evolves, find_row-update_where_kept,
  found_of_count, count_of_found, find_row_weaken, count_where_none, DistinctOn,
  DistinctOn-update_where, DistinctOn-append, DistinctOn-found, DistinctOn-count,
  DistinctOn-count_found,
}
use Prim.Native.Nat.{max, min}
use planet_express.Store.Rows.{
  Text, Time, AuthFailure, AuthCounter, AuthKind, TotpStep, DeviceEpoch, Db, Event, EventDetail,
}
use planet_express.Store.Tx.{Tx, ◌>>=◌, ◌>>◌, pure, gets, event}

abbrev pub auth_max_failures : ℕ
auth_max_failures = 3

abbrev pub auth_lock_seconds : ℕ
auth_lock_seconds = 900

-- The operator "?": no passphrase matched.
abbrev pub nobody : Text
nobody = 2

abbrev pub Key : Type 0
Key = AuthKind × Text

-- `Store._auth_keys`
abbrev pub auth_keys : Text → Text → List Key
auth_keys operator client_ip =
    if operator == nobody
    then (AuthKind.client_ip, client_ip) ∷ []
    else (AuthKind.operator, operator) ∷ (AuthKind.client_ip, client_ip) ∷ []

abbrev pub same_kind : AuthKind → AuthKind → Bool
same_kind AuthKind.operator AuthKind.operator = true
same_kind AuthKind.client_ip AuthKind.client_ip = true
same_kind _ _ = false

abbrev pub is_counter : Key → AuthCounter → Bool
is_counter (kind, value) c = same_kind c.kind kind && c.value == value

abbrev pub reset_of : Option AuthCounter → ℕ
reset_of none = 0
reset_of (some c) = c.reset_after_id

abbrev pub lock_of : Option AuthCounter → Time
lock_of none = 0
lock_of (some c) = c.locked_until

-- `Store._counter`
abbrev pub counter : Key → Db → Option AuthCounter
counter key db = find_row (is_counter key) db.auth_counters

-- The column that the kind names.
abbrev pub column : AuthKind → AuthFailure → Text
column AuthKind.operator f = f.operator
column AuthKind.client_ip f = f.client_ip

-- `{kind} = ? AND at > now - AUTH_LOCK_SECONDS AND id > ? AND at >= ?`
abbrev pub is_counted : Key → Time → Option AuthCounter → AuthFailure → Bool
is_counted (kind, value) now c f =
    column kind f == value
    && ltb now (f.at + auth_lock_seconds)
    && ltb (reset_of c) f.id
    && leb (lock_of c) f.at

abbrev pub failures_of : Key → Time → Db → ℕ
failures_of key now db = count_where (is_counted key now (counter key db)) db.auth_failures

abbrev pub is_locked : Key → Time → Db → Bool
is_locked key now db = ltb now (lock_of (counter key db))

-- `max` of the deadlines that lie ahead.
abbrev latest_deadline : Time → Db → List Key → Option Time
latest_deadline now db [] = none
latest_deadline now db (k ∷ keys) =
    let rest = latest_deadline now db keys in
    if is_locked k now db
    then some
        (elim rest [ none ↦ lock_of (counter k db) | some t ↦ max (lock_of (counter k db)) t ])
    else rest

abbrev most_failures : Time → Db → List Key → ℕ
most_failures now db [] = 0
most_failures now db (k ∷ keys) = max (failures_of k now db) (most_failures now db keys)

pub record AuthStatus : Type 0 where
  pub locked : Bool
  pub locked_until : Option Time
  pub remaining_attempts : ℕ

-- `Store._auth_status` and `Store.auth_status`; the counts are `failures_of`.
abbrev pub auth_status : Text → Text → Time → Db → AuthStatus
auth_status operator client_ip now db =
    let deadline = latest_deadline now db (auth_keys operator client_ip) in
    record {
      locked = is_some deadline;
      locked_until = deadline;
      remaining_attempts =
          if is_some deadline
          then 0
          else auth_max_failures - most_failures now db (auth_keys operator client_ip);
    }

abbrev pub max_id : List AuthFailure → ℕ
max_id [] = 0
max_id (f ∷ fs) = max f.id (max_id fs)

-- `INSERT … ON CONFLICT(kind, value) DO UPDATE`
abbrev pub upsert : AuthCounter → List AuthCounter → List AuthCounter
upsert c [] = c ∷ []
upsert c (d ∷ rest) = if is_counter (c.kind, c.value) d then c ∷ rest else d ∷ upsert c rest

-- `Store._reset_counter`
unfoldable pub reset_counter : Key → Time → Db → Db
reset_counter (kind, value) locked_until db = record db {
  auth_counters =
      upsert
        (record {
          kind = kind;
          value = value;
          reset_after_id = max_id db.auth_failures;
          locked_until = locked_until;
        })
        db.auth_counters;
}

-- `INSERT INTO auth_failures`, under the next id.
unfoldable pub insert_failure : Text → Text → Time → Db → Db
insert_failure operator client_ip now db = record db {
  auth_failures =
      db.auth_failures
      ++ record { id = suc db.failure_seq; operator = operator; client_ip = client_ip; at = now }
        ∷ [];
  failure_seq = suc db.failure_seq;
}

-- `DELETE FROM auth_failures WHERE at <= now - AUTH_LOCK_SECONDS`
unfoldable pub forget_failures : Time → Db → Db
forget_failures now db = record db {
  auth_failures = select (λ (f : AuthFailure). ltb now (f.at + auth_lock_seconds)) db.auth_failures;
}

-- `reset_after_id < COALESCE(MIN(id), reset_after_id + 1)`
abbrev pub precedes_all : ℕ → List AuthFailure → Bool
precedes_all n [] = true
precedes_all n (f ∷ fs) = ltb n f.id && precedes_all n fs

-- The counter filters nothing any more.
abbrev pub is_idle : Time → Db → AuthCounter → Bool
is_idle now db c =
    leb (c.locked_until + auth_lock_seconds) now && precedes_all c.reset_after_id db.auth_failures

-- `DELETE FROM auth_counters WHERE …`
unfoldable pub prune_counters : Time → Db → Db
prune_counters now db = record db {
  auth_counters = select (λ c. not (is_idle now db c)) db.auth_counters;
}

-- The loop over the keys and their counts: a key that has enough and is not locked is locked.
unfoldable pub lock_keys : Time → List (Key × ℕ) → Db → Db
lock_keys now [] db = db
lock_keys now ((k, n) ∷ rest) db = lock_keys now rest (
    if leb auth_max_failures n && leb (lock_of (counter k db)) now
    then reset_counter k (now + auth_lock_seconds) db
    else db)

abbrev pub with_counts : Time → Db → List Key → List (Key × ℕ)
with_counts now db [] = []
with_counts now db (k ∷ keys) = (k, failures_of k now db) ∷ with_counts now db keys

-- The state after a failure was recorded, before its events.
unfoldable pub count_failure : Text → Text → Time → Db → Db
count_failure operator client_ip now db =
    let db' = prune_counters now (forget_failures now (insert_failure operator client_ip now db)) in
    lock_keys now (with_counts now db' (auth_keys operator client_ip)) db'

unfoldable pub lock_event : Time → Text → Text → Option Time → Bool → Tx (Unit {0})
unfolding event
lock_event now operator client_ip until just_locked =
    if just_locked
    then event now (EventDetail.auth_locked operator client_ip until) none none
    else pure tt

-- `Store.record_auth_failure`: the status, and whether this failure locked it.
unfoldable pub record_auth_failure : Time → Text → Text → Tx (AuthStatus × Bool)
unfolding count_failure event lock_event
record_auth_failure now operator client_ip db =
    let before = auth_status operator client_ip now db in
    let db' = count_failure operator client_ip now db in
    let status = auth_status operator client_ip now db' in
    let just_locked = status.locked && not before.locked in
    (do
      event now (EventDetail.auth_failure operator client_ip status.locked_until) none none
      lock_event now operator client_ip status.locked_until just_locked
      pure (status, just_locked))
      db'

unfoldable pub reset_keys : List Key → Db → Db
reset_keys [] db = db
reset_keys (k ∷ keys) db = reset_keys keys (reset_counter k 0 db)

-- `Store.record_auth_success`
unfoldable pub record_auth_success : Time → Text → Text → Tx (Unit {0})
unfolding reset_keys event
record_auth_success now operator client_ip db =
    event now (EventDetail.auth_success operator client_ip) none none
      (reset_keys (auth_keys operator client_ip) db)

-- `Store.consume_totp_step`: is the step later than the last one of the operator?
unfoldable pub advance_totp : Text → ℕ → List TotpStep → Bool × List TotpStep
advance_totp operator step [] = (true, record { operator = operator; last_step = step } ∷ [])
advance_totp operator step (t ∷ rest) =
    let (done, rows) = advance_totp operator step rest in
    if t.operator == operator
    then (if ltb t.last_step step
        then (true, record t { last_step = step } ∷ rest)
        else (false, t ∷ rest))
    else (done, t ∷ rows)

unfoldable pub consume_totp_step : Text → ℕ → Tx Bool
unfolding advance_totp
consume_totp_step operator step db =
    let (done, rows) = advance_totp operator step db.auth_totp_steps in
    pure done (record db { auth_totp_steps = rows })

-- `Store.device_epoch`
abbrev pub device_epoch : Text → Db → ℕ
device_epoch operator db =
    elim (find_row (λ (d : DeviceEpoch). d.operator == operator) db.auth_device_epochs) [
      | none ↦ 0
      | some d ↦ d.epoch
    ]

abbrev bump_epoch : Text → List DeviceEpoch → List DeviceEpoch
bump_epoch operator [] = record { operator = operator; epoch = 1 } ∷ []
bump_epoch operator (d ∷ rest) =
    if d.operator == operator
    then record d { epoch = d.epoch + 1 } ∷ rest
    else d ∷ bump_epoch operator rest

-- `Store.revoke_devices`
unfoldable pub revoke_devices : Time → Text → Tx ℕ
unfolding event
revoke_devices now operator db =
    let db' = record db { auth_device_epochs = bump_epoch operator db.auth_device_epochs } in
    (do
      event now (EventDetail.auth_devices_revoked operator (device_epoch operator db')) none none
      pure (device_epoch operator db'))
      db'
