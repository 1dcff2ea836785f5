-- ===== src/Store/Auth/Failures.antt =====
-- What a recorded failure or success does to the counters: no other operator or address is
-- affected, and the tables stay keyed.
use planet_express.Prelude.{
  All-select, ℕ, suc, ◌+◌, ◌≤◌, ◌<◌, ◌≡◌, refl, sym, ◌∙◌, subst, ◌≢◌, inl, inr, Bool, true, false,
  not, ◌&&◌, List, [], ◌∷◌, arith, leb, ◌==◌, Bool-cases, ==_refl, select, All, All-append,
  DistinctOn,
}
use mathlib.Core.Bool.{false≢true}
use planet_express.Store.Rows.{Text, Time, AuthFailure, AuthCounter, AuthKind, Db}
use planet_express.Store.Tx.{write, event}
use planet_express.Store.Auth.{
  Key, auth_keys, same_kind, is_counter, lock_of, counter, column, auth_lock_seconds, upsert,
  reset_counter, insert_failure, forget_failures, is_idle, prune_counters, lock_keys, with_counts,
  count_failure, record_auth_failure, lock_event, auth_max_failures,
}
use planet_express.Store.Auth.Isolation.{
  SameKey, IsAuthKeyed, SameKey-trans, Others, insert-SameKey, forget-SameKey, prune-SameKey,
  lock_keys-SameKey, counter_key, key_of,
}

DistinctOn-select :
    (p : AuthCounter → Bool) (cs : List AuthCounter)
    → DistinctOn counter_key cs
    → DistinctOn counter_key (select p cs)
DistinctOn-select p [] d = tt
DistinctOn-select p (c ∷ cs) d = elim (Bool-cases (p c)) [
  | inl e ↦
      rw e (All-select (λ y. counter_key y ≢ counter_key c) p cs d.0, DistinctOn-select p cs d.1)
  | inr e ↦ rw e (DistinctOn-select p cs d.1)
]

same_kind_refl : (k : AuthKind) → same_kind k k ≡ true
same_kind_refl AuthKind.operator = refl
same_kind_refl AuthKind.client_ip = refl

own_counter : (c : AuthCounter) → is_counter (c.kind, c.value) c ≡ true
own_counter c = rw (same_kind_refl c.kind, ==_refl c.value) refl

other_key :
    (c d : AuthCounter) → is_counter (c.kind, c.value) d ≡ false → counter_key c ≢ counter_key d
other_key c d h e =
    absurd (false≢true (sym (subst (λ (k : Key). is_counter k d ≡ false) e h) ∙ own_counter d))

All-upsert :
    (P : AuthCounter → Type 0) (c : AuthCounter) (cs : List AuthCounter)
    → P c
    → All P cs
    → All P (upsert c cs)
All-upsert P c [] p h = (p, tt)
All-upsert P c (d ∷ cs) p h = elim (Bool-cases (is_counter (c.kind, c.value) d)) [
  | inl e ↦ rw e (p, h.1)
  | inr e ↦ rw e (h.0, All-upsert P c cs p h.1)
]

DistinctOn-upsert :
    (c : AuthCounter) (cs : List AuthCounter)
    → DistinctOn counter_key cs
    → DistinctOn counter_key (upsert c cs)
DistinctOn-upsert c [] d = (tt, tt)
DistinctOn-upsert c (x ∷ cs) d = elim (Bool-cases (is_counter (c.kind, c.value) x)) [
  | inl e ↦ rw e (subst (λ k. All (λ y. counter_key y ≢ k) cs) (key_of c.kind c.value x e) d.0, d.1)
  | inr e ↦ rw e (
    All-upsert (λ y. counter_key y ≢ counter_key x) c cs (other_key c x e) d.0,
    DistinctOn-upsert c cs d.1,
  )
]

pub insert-IsAuthKeyed :
    (operator client_ip : Text) (now : Time) (db : Db)
    → IsAuthKeyed db
    → IsAuthKeyed (insert_failure operator client_ip now db)
unfolding insert_failure
insert-IsAuthKeyed operator client_ip now db k = record {
  positive =
      All-append (λ (f : AuthFailure). 0 < f.id) db.auth_failures _ k.positive (ground arith, tt);
  distinct = k.distinct;
}

pub forget-IsAuthKeyed :
    (now : Time) (db : Db) → IsAuthKeyed db → IsAuthKeyed (forget_failures now db)
unfolding forget_failures
forget-IsAuthKeyed now db k = record {
  positive = All-select (λ (f : AuthFailure). 0 < f.id) _ db.auth_failures k.positive;
  distinct = k.distinct;
}

prune-IsAuthKeyed : (now : Time) (db : Db) → IsAuthKeyed db → IsAuthKeyed (prune_counters now db)
unfolding prune_counters
prune-IsAuthKeyed now db k = record {
  positive = k.positive;
  distinct = DistinctOn-select (λ c. not (is_idle now db c)) db.auth_counters k.distinct;
}

reset-IsAuthKeyed :
    (key : Key) (until : Time) (db : Db) → IsAuthKeyed db → IsAuthKeyed (reset_counter key until db)
unfolding reset_counter
reset-IsAuthKeyed (kind, value) until db k = record {
  positive = k.positive;
  distinct = DistinctOn-upsert _ db.auth_counters k.distinct;
}

lock_keys-IsAuthKeyed :
    (now : Time) (ks : List (Key × ℕ)) (db : Db)
    → IsAuthKeyed db
    → IsAuthKeyed (lock_keys now ks db)
unfolding lock_keys
lock_keys-IsAuthKeyed now [] db k = k
lock_keys-IsAuthKeyed now ((key, n) ∷ ks) db k =
    elim (Bool-cases (leb auth_max_failures n && leb (lock_of (counter key db)) now)) [
      | inl e ↦
          rw (lock_keys, e)
            (lock_keys-IsAuthKeyed now ks (reset_counter key (now + auth_lock_seconds) db)
              (reset-IsAuthKeyed key (now + auth_lock_seconds) db k))
      | inr e ↦ rw (lock_keys, e) (lock_keys-IsAuthKeyed now ks db k)
    ]

count_failure-IsAuthKeyed :
    (operator client_ip : Text) (now : Time) (db : Db)
    → IsAuthKeyed db
    → IsAuthKeyed (count_failure operator client_ip now db)
unfolding count_failure
count_failure-IsAuthKeyed operator client_ip now db k = lock_keys-IsAuthKeyed now _ _ (
    prune-IsAuthKeyed now _
      (forget-IsAuthKeyed now _ (insert-IsAuthKeyed operator client_ip now db k)))

-- What the columns of a failure say about a kind.
abbrev named : AuthKind → Text → Text → Text
named AuthKind.operator operator client_ip = operator
named AuthKind.client_ip operator client_ip = client_ip

others :
    (kind : AuthKind) (value operator client_ip : Text) (now t : Time) (h : now ≤ t) (db : Db)
    → (named kind operator client_ip == value) ≡ false
    → Others kind value now t h (with_counts now db (auth_keys operator client_ip))
others AuthKind.operator value operator client_ip now t h db ne = ground arith
others AuthKind.client_ip value operator client_ip now t h db ne = ground arith

column-named :
    (kind : AuthKind) (value operator client_ip : Text) (now : Time) (id : ℕ)
    → column kind (record { id = id; operator = operator; client_ip = client_ip; at = now })
      ≡ named kind operator client_ip
column-named AuthKind.operator value operator client_ip now id = refl
column-named AuthKind.client_ip value operator client_ip now id = refl

count_failure-SameKey :
    (kind : AuthKind) (value operator client_ip : Text) (now t : Time) (db : Db)
    → now ≤ t
    → IsAuthKeyed db
    → (named kind operator client_ip == value) ≡ false
    → SameKey (kind, value) t (count_failure operator client_ip now db) db
unfolding count_failure
count_failure-SameKey kind value operator client_ip now t db h k ne =
    let inserted = insert_failure operator client_ip now db in
    let kept = forget_failures now inserted in
    let pruned = prune_counters now kept in
    let ks = with_counts now pruned (auth_keys operator client_ip) in
    let trans = SameKey-trans kind value now t h in
    trans (lock_keys now ks pruned) pruned db
      (lock_keys-SameKey kind value now t h ks pruned
        (others kind value operator client_ip now t h pruned ne))
      (trans pruned kept db
        (prune-SameKey kind value now t h kept
          (forget-IsAuthKeyed now inserted (insert-IsAuthKeyed operator client_ip now db k)))
        (trans kept inserted db (forget-SameKey kind value now t h inserted) (
          insert-SameKey kind value now t h operator client_ip db
            (rw (column-named kind value operator client_ip now (suc db.failure_seq)) ne))))

committed :
    (operator client_ip : Text) (now : Time) (db : Db)
    → (write (record_auth_failure now operator client_ip) db).1.auth_failures
      ≡ (count_failure operator client_ip now db).auth_failures
unfolding write record_auth_failure event lock_event
committed operator client_ip now db = ground arith

pub committed_counters :
    (operator client_ip : Text) (now : Time) (db : Db)
    → (write (record_auth_failure now operator client_ip) db).1.auth_counters
      ≡ (count_failure operator client_ip now db).auth_counters
unfolding write record_auth_failure event lock_event
committed_counters operator client_ip now db = ground arith

-- Recording a failure keeps the ids of failures positive, and one counter at most for each key.
pub record_auth_failure-IsAuthKeyed :
    (operator client_ip : Text) (now : Time) (db : Db)
    → IsAuthKeyed db
    → IsAuthKeyed (write (record_auth_failure now operator client_ip) db).1
record_auth_failure-IsAuthKeyed operator client_ip now db k =
    let kept = count_failure-IsAuthKeyed operator client_ip now db k in
    record {
      positive = rw (committed operator client_ip now db) kept.positive;
      distinct = rw (committed_counters operator client_ip now db) kept.distinct;
    }

-- With positive ids and one counter for a key: recording a failure changes, for no operator or address
-- other than those that it names, how many failures count against it or whether it is locked, now or
-- later.
pub failure_isolated :
    (kind : AuthKind) (value operator client_ip : Text) (now t : Time) (db : Db)
    → now ≤ t
    → IsAuthKeyed db
    → (named kind operator client_ip == value) ≡ false
    → SameKey (kind, value) t (write (record_auth_failure now operator client_ip) db).1 db
failure_isolated kind value operator client_ip now t db h k ne =
    rw (committed operator client_ip now db, committed_counters operator client_ip now db)
      (count_failure-SameKey kind value operator client_ip now t db h k ne)
