-- ===== src/Store/Auth/Isolation.antt =====
-- A failure counts towards the two keys that it names, and no other key sees it.
use planet_express.Prelude.{
  ℕ, suc, ◌+◌, ◌≤◌, ◌<◌, ◌≡◌, refl, sym, ◌∙◌, ◌≢◌, inl, inr, Bool, true, false, not, ◌&&◌, Option,
  none, some, List, [], ◌∷◌, arith, ltb, leb, ◌==◌, if◌then◌else◌, Bool-cases, select, find_row,
  count_where, All, and_right, count_where-append, All-map, DistinctOn,
}
use planet_express.Store.Rows.{Text, Time, AuthFailure, AuthCounter, AuthKind, Db}
use planet_express.Store.Auth.{
  Key, same_kind, is_counter, lock_of, counter, column, is_counted, failures_of, is_locked,
  auth_lock_seconds, upsert, reset_counter, insert_failure, forget_failures, precedes_all, is_idle,
  prune_counters, lock_keys, max_id, auth_max_failures,
}

abbrev pub counter_key : AuthCounter → AuthKind × Text
counter_key c = (c.kind, c.value)

-- Ids of failures begin at 1, and no two counters have the same key.
pub record IsAuthKeyed (db : Db) : Type 0 where
  pub positive : All (λ (f : AuthFailure). 0 < f.id) db.auth_failures
  pub distinct : DistinctOn counter_key db.auth_counters

not_counted :
    (kind : AuthKind) (value : Text) (t : Time) (c : Option AuthCounter) (f : AuthFailure)
    → (column kind f == value) ≡ false
    → count_where (is_counted (kind, value) t c) (f ∷ []) ≡ 0
not_counted kind value t c f h = ground arith

-- Inserting a failure of other keys.
count-insert :
    (kind : AuthKind) (value operator client_ip : Text) (now t : Time) (db : Db)
    → (column kind
          (record { id = suc db.failure_seq; operator = operator; client_ip = client_ip; at = now })
        == value)
      ≡ false
    → failures_of (kind, value) t (insert_failure operator client_ip now db)
      ≡ failures_of (kind, value) t db
unfolding insert_failure
count-insert kind value operator client_ip now t db h = omega (
  arith,
  count_where-append (is_counted (kind, value) t (counter (kind, value) db)) db.auth_failures (
      record { id = suc db.failure_seq; operator = operator; client_ip = client_ip; at = now }
      ∷ []),
  not_counted kind value t (counter (kind, value) db) _ h,
)

-- Deleting failures that are too old to count.
count-forget :
    (kind : AuthKind) (value : Text) (now t : Time) (c : Option AuthCounter) (fs : List AuthFailure)
    → now ≤ t
    → count_where
        (is_counted (kind, value) t c)
        (select (λ (f : AuthFailure). ltb now (f.at + auth_lock_seconds)) fs)
      ≡ count_where (is_counted (kind, value) t c) fs
count-forget kind value now t c [] h = refl
count-forget kind value now t c (f ∷ fs) h = ground (arith, count-forget kind value now t c fs h)

-- A counter that is idle counts what no counter at all would count.
count-idle :
    (kind : AuthKind) (value : Text) (now t : Time) (c : AuthCounter) (fs : List AuthFailure)
    → now ≤ t
    → All (λ (f : AuthFailure). 0 < f.id) fs
    → c.locked_until + auth_lock_seconds ≤ now
    → precedes_all c.reset_after_id fs ≡ true
    → count_where (is_counted (kind, value) t (some c)) fs
      ≡ count_where (is_counted (kind, value) t none) fs
count-idle kind value now t c [] h p l q = refl
count-idle kind value now t c (f ∷ fs) h p l q =
    ground (arith, p.0, count-idle kind value now t c fs h p.1 l (ground arith))

pub key_of :
    (kind : AuthKind) (value : Text) (c : AuthCounter)
    → is_counter (kind, value) c ≡ true
    → counter_key c ≡ (kind, value)
key_of kind value c h = ground arith

absent :
    (kind : AuthKind) (value : Text) (p : AuthCounter → Bool) (cs : List AuthCounter)
    → All (λ c. counter_key c ≢ (kind, value)) cs
    → find_row (is_counter (kind, value)) (select p cs) ≡ none
absent kind value p [] h = refl
absent kind value p (c ∷ cs) h = elim (Bool-cases (is_counter (kind, value) c)) [
  | inl e ↦ absurd (h.0 (key_of kind value c e))
  | inr e ↦ ground (arith, e, absent kind value p cs h.1)
]

-- The counter of a key, once counters that fit `idle` are dropped.
pub find-dropped :
    (key : Key) (idle : AuthCounter → Bool) (cs : List AuthCounter)
    → DistinctOn counter_key cs
    → find_row (is_counter key) (select (λ c. not (idle c)) cs)
      ≡ (elim (find_row (is_counter key) cs) [
        | none ↦ none
        | some c ↦ if idle c then none else some c
      ])
find-dropped key idle [] d = refl
find-dropped (kind, value) idle (c ∷ cs) d = elim (Bool-cases (is_counter (kind, value) c)) [
  | inl e ↦ ground (
    arith,
    e,
    absent kind value (λ c. not (idle c)) cs
        (All-map (λ y. counter_key y ≢ counter_key c) _ cs
          (λ y ne q. ne (q ∙ sym (key_of kind value c e))) d.0),
  )
  | inr e ↦ ground (arith, e, find-dropped (kind, value) idle cs d.1)
]

same_counter :
    (kind : AuthKind) (value : Text) (c d : AuthCounter)
    → is_counter (c.kind, c.value) d ≡ true
    → is_counter (kind, value) d ≡ is_counter (kind, value) c
same_counter kind value c d e = ground arith

-- The counter of a key, after another one was reset.
pub find-upsert :
    (kind : AuthKind) (value : Text) (c : AuthCounter) (cs : List AuthCounter)
    → is_counter (kind, value) c ≡ false
    → find_row (is_counter (kind, value)) (upsert c cs) ≡ find_row (is_counter (kind, value)) cs
find-upsert kind value c [] h = rw h
find-upsert kind value c (d ∷ cs) h = elim (Bool-cases (is_counter (c.kind, c.value) d)) [
  | inl e ↦ ground (arith, h, e, same_counter kind value c d e)
  | inr e ↦ ground (arith, e, find-upsert kind value c cs h)
]

-- What the code asks of a key: how many failures count, and until when it is locked, if it is.
abbrev pub SameKey : Key → Time → Db → Db → Type 0
SameKey key t a b =
    (failures_of key t a ≡ failures_of key t b) × (is_locked key t a ≡ is_locked key t b)

abbrev pub drop_idle : Time → Db → Option AuthCounter → Option AuthCounter
drop_idle now db none = none
drop_idle now db (some c) = if is_idle now db c then none else some c

dropped-same :
    (kind : AuthKind) (value : Text) (now t : Time) (db : Db) (o : Option AuthCounter)
    → now ≤ t
    → All (λ (f : AuthFailure). 0 < f.id) db.auth_failures
    → (count_where (is_counted (kind, value) t (drop_idle now db o)) db.auth_failures
        ≡ count_where (is_counted (kind, value) t o) db.auth_failures)
      × (ltb t (lock_of (drop_idle now db o)) ≡ ltb t (lock_of o))
dropped-same kind value now t db none h p = (refl, refl)
dropped-same kind value now t db (some c) h p = elim (Bool-cases (is_idle now db c)) [
  | inl e ↦ rw e (
    sym (
        count-idle kind value now t c db.auth_failures h p (ground arith)
          (and_right (leb (c.locked_until + auth_lock_seconds) now) _ e)),
    ground arith,
  )
  | inr e ↦ rw e (refl, refl)
]

module _ (kind : AuthKind) (value : Text) (now t : Time) (h : now ≤ t) where
  pub insert-SameKey :
      (operator client_ip : Text) (db : Db)
      → (column kind (record {
        id = suc db.failure_seq;
        operator = operator;
        client_ip = client_ip;
        at = now;
      })
          == value)
        ≡ false
      → SameKey (kind, value) t (insert_failure operator client_ip now db) db
  insert-SameKey operator client_ip db ne =
      (count-insert kind value operator client_ip now t db ne, unfold insert_failure in refl)

  pub forget-SameKey : (db : Db) → SameKey (kind, value) t (forget_failures now db) db
  unfolding forget_failures
  forget-SameKey db =
      (count-forget kind value now t (counter (kind, value) db) db.auth_failures h, refl)

  pub prune-SameKey :
      (db : Db) → IsAuthKeyed db → SameKey (kind, value) t (prune_counters now db) db
  unfolding prune_counters
  prune-SameKey db k =
      rw (find-dropped (kind, value) (is_idle now db) db.auth_counters k.distinct)
        (dropped-same kind value now t db (counter (kind, value) db) h k.positive)

  reset-SameKey :
      (other : Key) (until : Time) (db : Db)
      → (same_kind other.0 kind && other.1 == value) ≡ false
      → SameKey (kind, value) t (reset_counter other until db) db
  unfolding reset_counter
  reset-SameKey (k, v) until db ne =
      rw
        (find-upsert kind value
          (record {
            kind = k;
            value = v;
            reset_after_id = max_id db.auth_failures;
            locked_until = until;
          })
          db.auth_counters ne)
        (refl, refl)

  pub SameKey-trans :
      (a b c : Db)
      → SameKey (kind, value) t a b
      → SameKey (kind, value) t b c
      → SameKey (kind, value) t a c
  SameKey-trans a b c p q = (p.0 ∙ q.0, p.1 ∙ q.1)

  -- None of the keys is the one that is watched.
  abbrev pub Others : List (Key × ℕ) → Type 0
  Others ks = All (λ (k : Key × ℕ). (same_kind (k.0).0 kind && (k.0).1 == value) ≡ false) ks

  pub lock_keys-SameKey :
      (ks : List (Key × ℕ)) (db : Db) → Others ks → SameKey (kind, value) t (lock_keys now ks db) db
  unfolding lock_keys
  lock_keys-SameKey [] db o = (refl, refl)
  lock_keys-SameKey ((k, n) ∷ ks) db o =
      elim (Bool-cases (leb auth_max_failures n && leb (lock_of (counter k db)) now)) [
        | inl e ↦
            rw (lock_keys, e)
              (SameKey-trans (lock_keys now ks (reset_counter k (now + auth_lock_seconds) db))
                (reset_counter k (now + auth_lock_seconds) db) db
                (lock_keys-SameKey ks (reset_counter k (now + auth_lock_seconds) db) o.1)
                (reset-SameKey k (now + auth_lock_seconds) db o.0))
        | inr e ↦ rw (lock_keys, e) (lock_keys-SameKey ks db o.1)
      ]
