-- ===== src/Store/Keeps.antt =====
-- Transactions that keep a property of the database, one rule for each way to build one.
use planet_express.Prelude.{Bool, true, false, if◌then◌else◌}
use planet_express.Store.Rows.{Db}
use planet_express.Store.Tx.{
  Error, Tx, ◌>>=◌, pure, raise, gets, guard, write, Ensures, Ensures-bind, Ensures-write,
}

-- If `P` holds before, it holds after, when `m` returns.
pub record Keeps {A : Type 0} (P : Db → Type 0) (m : Tx A) : Type 0 where
  pub at : (db : Db) → P db → Ensures (λ _ db'. P db') (m db)

module _ {A : Type 0} {P : Db → Type 0} where
  pub Keeps-pure : (a : A) → Keeps P (pure a)
  Keeps-pure a = record { at = λ db h. h }

  pub Keeps-raise : (e : Error) → Keeps P (raise {A = A} e)
  Keeps-raise e = record { at = λ db h. tt }

  pub Keeps-gets : (f : Db → A) → Keeps P (gets f)
  Keeps-gets f = record { at = λ db h. h }

  pub Keeps-if : (b : Bool) (m n : Tx A) → Keeps P m → Keeps P n → Keeps P (if b then m else n)
  Keeps-if true m n km kn = km
  Keeps-if false m n km kn = kn

  -- After `with self._write()`, whether it returned or raised.
  pub Keeps-write : (m : Tx A) (db : Db) → Keeps P m → P db → P (write m db).1
  Keeps-write m db k h = Ensures-write P m db h (k.at db h)

module _ {P : Db → Type 0} where
  pub Keeps-guard : (b : Bool) (e : Error) → Keeps P (guard b e)
  Keeps-guard true e = record { at = λ db h. h }
  Keeps-guard false e = record { at = λ db h. tt }

module _ {A B : Type 0} {P : Db → Type 0} where
  pub Keeps-bind :
      (m : Tx A) (f : A → Tx B) → Keeps P m → ((a : A) → Keeps P (f a)) → Keeps P (m >>= f)
  Keeps-bind m f km kf = record {
    at = λ db h.
        Ensures-bind (λ _ db'. P db') (λ _ db'. P db') m f db (km.at db h)
          (λ a db' h'. (kf a).at db' h');
  }

pub ruleset keeps_rules = (Keeps-pure, Keeps-raise, Keeps-gets, Keeps-if, Keeps-guard, Keeps-bind)
