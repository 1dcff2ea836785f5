-- ===== src/Store/Tx.antt =====
-- The write transaction of core/store.py: `Store._write` (BEGIN IMMEDIATE, COMMIT, and ROLLBACK on
-- any exception), and `Store._event`.
--
-- The clock is an argument of an operation: what it reads in one transaction is one value.
use planet_express.Prelude.{Bool, true, false, Option, [], ◌∷◌, ◌++◌, ◌≡◌, arith}
use planet_express.Store.Rows.{Text, Time, Db, Event, EventDetail}

pub data Error : Type 0 where
  value_error key_error integrity_error incident_source_error : Error
  pending_plan_conflict : Text → Error

pub data Result (A : Type 0) : Type 0 where
  ok : A → Result A
  err : Error → Result A

-- Reads and writes within one transaction.
abbrev pub Tx : Type 0 → Type 0
Tx A = Db → Result (A × Db)

infixl 5 ◌>>=◌ ◌>>◌
abbrev pub ◌>>=◌ : {A B : Type 0} → Tx A → (A → Tx B) → Tx B
◌>>=◌ m f db = elim (m db) [ ok (a, db') ↦ f a db' | err e ↦ err e ]

abbrev pub ◌>>◌ : {B : Type 0} → Tx (Unit {0}) → Tx B → Tx B
m >> k = m >>= λ _. k

abbrev pub pure : {A : Type 0} → A → Tx A
pure a db = ok (a, db)

abbrev pub raise : {A : Type 0} → Error → Tx A
raise e db = err e

abbrev pub gets : {A : Type 0} → (Db → A) → Tx A
gets f db = ok (f db, db)

abbrev pub guard : Bool → Error → Tx (Unit {0})
guard true e = pure tt
guard false e = raise e

abbrev pub append_event : Event → Db → Db
append_event e db = record db { events = db.events ++ e ∷ [] }

-- `Store._event`
unfoldable pub event : Time → EventDetail → Option Text → Option Text → Tx (Unit {0})
event now detail approval_id execution_id db = ok (
  tt,
  append_event
      (record { ts = now; detail = detail; approval_id = approval_id; execution_id = execution_id })
      db,
)

-- What a client sees of `with self._write()`: the result, and the database after it.
unfoldable pub write : {A : Type 0} → Tx A → Db → Result A × Db
write m db = elim (m db) [ ok (a, db') ↦ (ok a, db') | err e ↦ (err e, db) ]

-- A transaction that raises has written nothing.
pub write_atomic :
    {A : Type 0} (m : Tx A) (db : Db) (e : Error) → (write m db).0 ≡ err e → (write m db).1 ≡ db
unfolding write
write_atomic m db e h = ground arith

-- What holds of the result and the database, if the transaction returns.
abbrev pub Ensures : {A : Type 0} → (A → Db → Type 0) → Result (A × Db) → Type 0
Ensures P (ok (a, db)) = P a db
Ensures P (err e) = Unit

pub Ensures-bind :
    {A B : Type 0} (P : A → Db → Type 0) (Q : B → Db → Type 0) (m : Tx A) (f : A → Tx B) (db : Db)
    → Ensures P (m db)
    → ((a : A) (db' : Db) → P a db' → Ensures Q (f a db'))
    → Ensures Q ((m >>= f) db)
Ensures-bind {A} {B} P Q m f db h k = go (m db) h
  where
    go :
        (r : Result (A × Db))
        → Ensures P r
        → Ensures Q (elim r [ ok (a, db') ↦ f a db' | err e ↦ err e ])
    go (ok (a, db')) h = k a db' h
    go (err e) h = tt

pub Ensures-map :
    {A : Type 0} {P Q : A → Db → Type 0} (r : Result (A × Db))
    → Ensures P r
    → ((a : A) (db : Db) → P a db → Q a db)
    → Ensures Q r
Ensures-map (ok (a, db)) h k = k a db h
Ensures-map (err e) h k = tt

pub Ensures-write :
    {A : Type 0} (P : Db → Type 0) (m : Tx A) (db : Db)
    → P db
    → Ensures (λ _ db'. P db') (m db)
    → P (write m db).1
unfolding write
Ensures-write {A} P m db h k = go (m db) k
  where
    go :
        (r : Result (A × Db))
        → Ensures (λ _ db'. P db') r
        → P (elim r as (λ _. Result A × Db) [ ok (a, db') ↦ (ok a, db') | err e ↦ (err e, db) ]).1
    go (ok (a, db')) k = k
    go (err e) k = h

-- Inversion of a transaction that returns.
pub write-eq-ok :
    {A : Type 0} (m : Tx A) (db : Db) (a : A)
    → (write m db).0 ≡ ok a
    → m db ≡ ok (a, (write m db).1)
unfolding write
write-eq-ok m db a h = ground arith
