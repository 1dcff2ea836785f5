-- ===== src/Store/Attempts/Ledger.antt =====
-- What a restart of the core makes of the attempts that were reserved.
use planet_express.Prelude.{
  ◌≡◌, refl, ap, Bool, false, ◌&&◌, List, [], ◌∷◌, map, arith, if◌then◌else◌, update_where, All,
}
use planet_express.Store.Rows.{Time, Attempt, AttemptState, Db}
use planet_express.Store.Tx.{write}
use planet_express.Store.Attempts.{is_reserved, may_have_acted, settle, reconcile_reserved_attempts}

-- What becomes of one attempt: it is spent if its step may have acted on the host, else given back.
abbrev pub settled : Time → Db → Attempt → Attempt
settled now db a =
    if is_reserved a.state
    then (if may_have_acted db a
        then settle now AttemptState.consumed a
        else settle now AttemptState.released a)
    else a

two_updates :
    (now : Time) (acted : Attempt → Bool) (xs : List Attempt)
    → update_where
        (λ a. is_reserved a.state)
        (settle now AttemptState.released)
        (update_where (λ a. is_reserved a.state && acted a) (settle now AttemptState.consumed) xs)
      ≡ map
          (λ a.
            if is_reserved a.state
            then (if acted a
                then settle now AttemptState.consumed a
                else settle now AttemptState.released a)
            else a)
          xs
two_updates now acted [] = refl
two_updates now acted (a ∷ xs) = ground (arith, two_updates now acted xs)

-- A restart settles every reserved attempt: it is consumed if its step was dispatched or its effect
-- is unknown, else released; settled attempts, and all else in the database, stay as they are.
pub reconcile_settles :
    (now : Time) (db : Db)
    → (write (reconcile_reserved_attempts now) db).1
      ≡ record db { attempts = map (settled now db) db.attempts }
unfolding write reconcile_reserved_attempts
reconcile_settles now db =
    ap (λ (xs : List Attempt). record db { attempts = xs })
      (two_updates now (may_have_acted db) db.attempts)

-- None is left reserved.
pub none_reserved :
    (now : Time) (db : Db) (xs : List Attempt)
    → All (λ (a : Attempt). is_reserved a.state ≡ false) (map (settled now db) xs)
none_reserved now db [] = tt
none_reserved now db (a ∷ xs) = (ground arith, none_reserved now db xs)
