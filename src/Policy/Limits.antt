-- ===== src/Policy/Limits.antt =====
-- `limit_refusal` of planet_express/execution/policy.py, asked before a run, against the limits that
-- `reserve_runbook_attempts` of core/store.py enforces in its transaction.
use planet_express.Prelude.{
  ℕ, ◌+◌, ◌-◌, ◌≤◌, ◌≡◌, refl, sym, ap, ◌∙◌, Bool, true, false, not, ◌&&◌, ◌||◌, none, some, List,
  [], ◌∷◌, ◌++◌, map, arith, ltb, leb, ◌==◌, if◌then◌else◌, is_none, select, count_where,
  count_where-append,
}
use Prim.Native.Nat.{min}
use planet_express.Store.Rows.{Text, Time, Attempt, Db}
use planet_express.Store.Attempts.Recent.{recent_pair_attempts, recent_attempts}
use planet_express.Store.Attempts.{Pair, Limits, counts_for, check_pair}
use planet_express.Policy.Autonomy.{AutonomyConfig}
use planet_express.Policy.Decide.{
  day_seconds, max_time, limit_lookback_seconds, limit_refusal, none_yet,
}

-- The limits that the engine gives the store for an origin that is not exempt, in `RunbookEngine.run`.
abbrev pub limits_at : AutonomyConfig → Time → Limits
limits_at c now = record {
  window_start = now - day_seconds;
  cooldown_start = now - c.cooldown_seconds;
  max_per_day = c.max_attempts_per_day;
  now = now;
}

abbrev any_cooling : Time → List Attempt → Bool
any_cooling start [] = false
any_cooling start (a ∷ rows) = ltb start a.reserved_at || any_cooling start rows

-- The row that `check_pair` reads back is the row that the history has.
same_rows :
    (c : AutonomyConfig) (now : Time) (p : Pair) (rows : List Attempt)
    → select
        (λ a.
          counts_for p a && leb (min (now - day_seconds) (now - c.cooldown_seconds)) a.reserved_at)
        rows
      ≡ select (λ a. counts_for p a && leb (now - limit_lookback_seconds c) a.reserved_at) rows
unfolding limit_lookback_seconds
same_rows c now p [] = refl
same_rows c now (t, k) (a ∷ rows) = ground (arith, same_rows c now (t, k) rows)

cooling_by_max :
    (cooldown now : ℕ) (rows : List Attempt)
    → cooldown ≤ now
    → ltb now (max_time (map (λ (a : Attempt). a.reserved_at) rows) + cooldown)
      ≡ any_cooling (now - cooldown) rows
cooling_by_max cooldown now [] h = ground arith
cooling_by_max cooldown now (a ∷ rows) h = ground (arith, cooling_by_max cooldown now rows h)

cooling_by_rows :
    (start : Time) (rows : List Attempt)
    → any_cooling start rows
      ≡ not (
          count_where
            (λ (a : Attempt). true)
            (select (λ (a : Attempt). ltb start a.reserved_at) rows)
          == 0)
cooling_by_rows start [] = refl
cooling_by_rows start (a ∷ rows) = ground (arith, cooling_by_rows start rows)

same_count :
    (now : Time) (rows : List Attempt)
    → count_where (λ t. leb now (t + day_seconds)) (map (λ (a : Attempt). a.reserved_at) rows)
      ≡ count_where (λ (a : Attempt). leb (now - day_seconds) a.reserved_at) rows
same_count now [] = refl
same_count now (a ∷ rows) = ground (arith, same_count now rows)

-- The decision on the rows that both look at.
abbrev lets_go : Limits → ℕ → List Attempt → Bool
lets_go l requested rows =
    not (any_cooling l.cooldown_start rows)
    && not (
        ltb l.max_per_day
          (count_where (λ (a : Attempt). leb l.window_start a.reserved_at) rows + requested))

is_none-if :
    {A : Type 0}
    → (a b : Bool) (x y : A)
    → is_none (if a then some x else if b then some y else none) ≡ (not a && not b)
is_none-if true b x y = refl
is_none-if false true x y = refl
is_none-if false false x y = refl

some_attempts :
    (cooldown now : ℕ) (ts : List Time)
    → cooldown ≤ now
    → (not (none_yet ts) && ltb now (max_time ts + cooldown)) ≡ ltb now (max_time ts + cooldown)
some_attempts cooldown now [] h = ground arith
some_attempts cooldown now (t ∷ ts) h = refl

limit_refusal-lets_go :
    (c : AutonomyConfig) (now : Time) (requested : ℕ) (rows : List Attempt)
    → c.cooldown_seconds ≤ now
    → is_none (limit_refusal (map (λ (a : Attempt). a.reserved_at) rows) now requested c)
      ≡ lets_go (limits_at c now) requested rows
unfolding limit_refusal
limit_refusal-lets_go c now requested rows h =
    rw
      (
        is_none-if,
        some_attempts c.cooldown_seconds now (map (λ (a : Attempt). a.reserved_at) rows) h,
        cooling_by_max c.cooldown_seconds now rows h,
        same_count now rows,
      )
      refl

check_pair-lets_go :
    (l : Limits) (p : Pair) (requested first : ℕ) (db : Db)
    → is_none (check_pair l (p, requested, first) db)
      ≡ lets_go l requested (
          select
            (λ a. counts_for p a && leb (min l.window_start l.cooldown_start) a.reserved_at)
            db.attempts)
unfolding check_pair
check_pair-lets_go l p requested first db = rw (is_none-if, cooling_by_rows) refl

-- The ledger alone: the check before a run and the store decide the same.
ledger_agrees :
    (c : AutonomyConfig) (now : Time) (p : Pair) (requested first : ℕ) (db : Db)
    → limit_lookback_seconds c ≤ now
    → is_none
        (limit_refusal (recent_pair_attempts p (now - limit_lookback_seconds c) db) now requested c)
      ≡ is_none (check_pair (limits_at c now) (p, requested, first) db)
unfolding limit_lookback_seconds recent_pair_attempts
ledger_agrees c now p requested first db h =
    limit_refusal-lets_go c now requested
      (select (λ a. counts_for p a && leb (now - limit_lookback_seconds c) a.reserved_at)
        db.attempts)
      (ground arith)
    ∙ ap (lets_go (limits_at c now) requested) (sym (same_rows c now p db.attempts))
    ∙ sym (check_pair-lets_go (limits_at c now) p requested first db)

-- The times that are within the cooldown, and how many count towards the day.
abbrev is_late : ℕ → Time → List Time → Bool
is_late cooldown now [] = false
is_late cooldown now (t ∷ ts) = ltb now (t + cooldown) || is_late cooldown now ts

abbrev pub in_day : Time → List Time → ℕ
in_day now ts = count_where (λ t. leb now (t + day_seconds)) ts

late_by_max :
    (cooldown now : ℕ) (ts : List Time)
    → cooldown ≤ now
    → ltb now (max_time ts + cooldown) ≡ is_late cooldown now ts
late_by_max cooldown now [] h = ground arith
late_by_max cooldown now (t ∷ ts) h = ground (arith, late_by_max cooldown now ts h)

is_late-append :
    (cooldown now : ℕ) (ts us : List Time)
    → is_late cooldown now (ts ++ us) ≡ (is_late cooldown now ts || is_late cooldown now us)
is_late-append cooldown now [] us = refl
is_late-append cooldown now (t ∷ ts) us = ground (arith, is_late-append cooldown now ts us)

limit_refusal-is_late :
    (c : AutonomyConfig) (now : Time) (requested : ℕ) (ts : List Time)
    → c.cooldown_seconds ≤ now
    → is_none (limit_refusal ts now requested c) ≡ (
        not (is_late c.cooldown_seconds now ts)
        && not (ltb c.max_attempts_per_day (in_day now ts + requested)))
unfolding limit_refusal
limit_refusal-is_late c now requested ts h =
    rw
      (
        is_none-if,
        some_attempts c.cooldown_seconds now ts h,
        late_by_max c.cooldown_seconds now ts h,
      )
      refl

-- Two histories one behind the other: neither is a reason to refuse, what the first counts being
-- requested as well.
both_pass :
    (a b : Bool) (cap m n requested : ℕ)
    → (not (a || b) && not (ltb cap (m + n + requested)))
      ≡ ((not a && not (ltb cap (m + requested))) && (not b && not (ltb cap (n + (requested + m)))))
both_pass a b cap m n requested = ground arith

limit_refusal-append :
    (c : AutonomyConfig) (now : Time) (requested : ℕ) (ts us : List Time)
    → c.cooldown_seconds ≤ now
    → is_none (limit_refusal (ts ++ us) now requested c) ≡ (
        is_none (limit_refusal ts now requested c)
        && is_none (limit_refusal us now (requested + in_day now ts) c))
limit_refusal-append c now requested ts us h =
    rw
      (
        limit_refusal-is_late c now requested (ts ++ us) h,
        limit_refusal-is_late c now requested ts h,
        limit_refusal-is_late c now (requested + in_day now ts) us h,
        is_late-append c.cooldown_seconds now ts us,
        count_where-append,
      )
      (both_pass (is_late c.cooldown_seconds now ts) (is_late c.cooldown_seconds now us)
        c.max_attempts_per_day (in_day now ts) (in_day now us) requested)

cooldown_looked_back :
    (c : AutonomyConfig) (now : Time) → limit_lookback_seconds c ≤ now → c.cooldown_seconds ≤ now
unfolding limit_lookback_seconds
cooldown_looked_back c now h = ground arith

-- `service_restart` is the step type, and `restart_service` the action of the executions from before the
-- attempts.
module _ (service_restart restart_service : Text) where
  -- `CommandService._legacy_attempts`
  unfoldable pub legacy_attempts : Pair → Time → Db → List Time
  unfolding recent_attempts
  legacy_attempts (t, k) since db =
      if t == service_restart then recent_attempts true restart_service k since db else []

  -- The history that `propose_plan` and `run_automatic` ask the limits about.
  unfoldable pub history : AutonomyConfig → Time → Pair → Db → List Time
  unfolding recent_pair_attempts legacy_attempts limit_lookback_seconds
  history c now p db =
      recent_pair_attempts p (now - limit_lookback_seconds c) db
      ++ legacy_attempts p (now - limit_lookback_seconds c) db

  -- With the lookback not before the epoch, and the limits of the same configuration: the check of a
  -- pair's history before a run refuses nothing exactly if the store, asked at the same time for as many
  -- attempts of the pair, refuses nothing, and the executions of the pair from before the attempts, which
  -- the store does not look at, are no reason to refuse, the attempts of the day counted as requested.
  pub limits_agree :
      (c : AutonomyConfig) (now : Time) (p : Pair) (requested first : ℕ) (db : Db)
      → limit_lookback_seconds c ≤ now
      → is_none (limit_refusal (history c now p db) now requested c) ≡ (
          is_none (check_pair (limits_at c now) (p, requested, first) db)
          && is_none (
              limit_refusal
                (legacy_attempts p (now - limit_lookback_seconds c) db)
                now
                (requested
                  + in_day now (recent_pair_attempts p (now - limit_lookback_seconds c) db))
                c))
  unfolding history
  limits_agree c now p requested first db h =
      limit_refusal-append c now requested
        (recent_pair_attempts p (now - limit_lookback_seconds c) db)
        (legacy_attempts p (now - limit_lookback_seconds c) db) (cooldown_looked_back c now h)
      ∙ ap
          (λ b.
            b
            && is_none (
                limit_refusal (legacy_attempts p (now - limit_lookback_seconds c) db) now
                  (requested
                    + in_day now (recent_pair_attempts p (now - limit_lookback_seconds c) db))
                  c))
          (ledger_agrees c now p requested first db h)
