-- ===== src/Engine/Programs.antt =====
-- A program that makes several write transactions: one that raises ends the program, and what the
-- transactions before it wrote stays written.

use planet_express.Store.Rows.{Db}
use planet_express.Store.Tx.{Result, ok, err, Error, Tx, write, Ensures}
use planet_express.Store.Keeps.{Keeps, Keeps-write}

abbrev pub Prog : Type 0 → Type 0
Prog A = Db → Result A × Db

-- What follows a program, if it returned.
abbrev pub go_on : {A B : Type 0} → Result A × Db → (A → Prog B) → Result B × Db
go_on (ok a, db) f = f a db
go_on (err e, db) f = (err e, db)

infixl 5 ◌>>=◌ ◌>>◌
abbrev pub ◌>>=◌ : {A B : Type 0} → Prog A → (A → Prog B) → Prog B
◌>>=◌ m f db = go_on (m db) f

abbrev pub ◌>>◌ : {A B : Type 0} → Prog A → Prog B → Prog B
m >> k = m >>= λ _. k

abbrev pub pure : {A : Type 0} → A → Prog A
pure a db = (ok a, db)

abbrev pub raise : {A : Type 0} → Error → Prog A
raise e db = (err e, db)

-- What holds after a program, if it returns.
abbrev pub After : {A : Type 0} → (A → Db → Type 0) → Result A × Db → Type 0
After Q (ok a, db) = Q a db
After Q (err e, db) = Unit

-- From `P` on, the program reaches `Q` if it returns.
pub record Runs {A : Type 0} (P : Db → Type 0) (Q : A → Db → Type 0) (m : Prog A) : Type 0 where
  pub at : (db : Db) → P db → After Q (m db)

pub Runs-pure :
    {A : Type 0} {P : Db → Type 0} {Q : A → Db → Type 0} (a : A)
    → ((db : Db) → P db → Q a db)
    → Runs P Q (pure a)
Runs-pure a h = record { at = h }

pub Runs-raise :
    {A : Type 0} {P : Db → Type 0} {Q : A → Db → Type 0} (e : Error) → Runs P Q (raise e)
Runs-raise e = record { at = λ db p. tt }

pub After-go_on :
    {A B : Type 0} {Q : A → Db → Type 0} {R : B → Db → Type 0} (r : Result A × Db) (f : A → Prog B)
    → After Q r
    → ((a : A) → Runs (Q a) R (f a))
    → After R (go_on r f)
After-go_on (ok a, db) f q k = (k a).at db q
After-go_on (err e, db) f q k = tt

pub Runs-bind :
    {A B : Type 0} {P : Db → Type 0} {Q : A → Db → Type 0} {R : B → Db → Type 0} (m : Prog A)
    (f : A → Prog B)
    → Runs P Q m
    → ((a : A) → Runs (Q a) R (f a))
    → Runs P R (m >>= f)
Runs-bind m f h k = record { at = λ db p. After-go_on (m db) f (h.at db p) k }

After-map :
    {A : Type 0} {Q R : A → Db → Type 0} (r : Result A × Db)
    → After Q r
    → ((a : A) (db : Db) → Q a db → R a db)
    → After R r
After-map (ok a, db) q k = k a db q
After-map (err e, db) q k = tt

pub Runs-map :
    {A : Type 0} {P : Db → Type 0} {Q R : A → Db → Type 0} (m : Prog A)
    → Runs P Q m
    → ((a : A) (db : Db) → Q a db → R a db)
    → Runs P R m
Runs-map m h k = record { at = λ db p. After-map (m db) (h.at db p) k }

-- `B` survives the program, whether it returns or raises.
pub record Safe {A : Type 0} (B : Db → Type 0) (m : Prog A) : Type 0 where
  pub at : (db : Db) → B db → B (m db).1

pub Safe-pure : {A : Type 0} {B : Db → Type 0} (a : A) → Safe B (pure a)
Safe-pure a = record { at = λ db b. b }

go_on-Safe :
    {A C : Type 0} (B : Db → Type 0) (r : Result A × Db) (f : A → Prog C)
    → B r.1
    → ((a : A) → Safe B (f a))
    → B (go_on r f).1
go_on-Safe B (ok a, db) f b k = (k a).at db b
go_on-Safe B (err e, db) f b k = b

pub Safe-bind :
    {A C : Type 0} {B : Db → Type 0} (m : Prog A) (f : A → Prog C)
    → Safe B m
    → ((a : A) → Safe B (f a))
    → Safe B (m >>= f)
Safe-bind {B = B} m f h k = record { at = λ db b. go_on-Safe B (m db) f (h.at db b) k }

pub Safe-write : {A : Type 0} {B : Db → Type 0} (m : Tx A) → Keeps B m → Safe B (write m)
Safe-write m k = record { at = λ db b. Keeps-write m db k b }

Safe-After : {A : Type 0} (B : Db → Type 0) (r : Result A × Db) → B r.1 → After (λ _ db. B db) r
Safe-After B (ok a, db) b = b
Safe-After B (err e, db) b = tt

pub Runs-Safe : {A : Type 0} {B : Db → Type 0} (m : Prog A) → Safe B m → Runs B (λ _ db. B db) m
Runs-Safe {B = B} m s = record { at = λ db b. Safe-After B (m db) (s.at db b) }

-- A transaction that ensures something, if it returns.
pub Runs-write :
    {A : Type 0} {P : Db → Type 0} {Q : A → Db → Type 0} (m : Tx A)
    → ((db : Db) → P db → Ensures Q (m db))
    → Runs P Q (write m)
unfolding write
Runs-write {A} {P} {Q} m h = record { at = λ db p. go (m db) db (h db p) }
  where
    go :
        (r : Result (A × Db)) (db : Db)
        → Ensures Q r
        → After Q
            (elim r as (λ _. Result A × Db) [ ok (a, db') ↦ (ok a, db') | err e ↦ (err e, db) ])
    go (ok (a, db')) db q = q
    go (err e) db q = tt
