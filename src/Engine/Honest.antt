-- ===== src/Engine/Honest.antt =====
-- What an executor says it did to the host, it did behind a dispatch.
use planet_express.Prelude.{
  ℕ, ◌≡◌, refl, sym, ◌∙◌, inl, inr, Bool, true, false, ◌&&◌, ◌||◌, Option, none, some, List, leb,
  if◌then◌else◌, opt_eq, Bool-cases,
}
use mathlib.Core.Bool.{false≢true}
use planet_express.Store.Rows.{RollbackCandidate, Text, Time, Dict, Effect, Db}
use planet_express.Store.Tx.{Result, ok, err}
use planet_express.Engine.Scripts.{
  StepOutcome, Script, Run, perform, caught, dispatched, leave_window, is_unknown, dispatch,
}
use planet_express.Engine.Executors.{
  Reading, Expect, Provided, raised, reported, Written, refused_write, failed_write, done_write,
  Restored, service_restart, service_start_stop, stack, stacks_loop, wait, check_container,
  check_log, read_qbit_port, unit_action, compose_write, compose_restore, prune, refusal,
}
use planet_express.Engine.Programs.{Prog, After, Safe, Safe-write}
use planet_express.Engine.Dispatched.{Dispatched, Dispatched-IsKept, dispatch-Dispatched}
use planet_express.Store.Tx.{write}
use planet_express.Store.Executions.{set_execution_status}
use planet_express.Store.Steps.{note_step_progress}
use planet_express.Store.Candidates.{open_rollback_candidate}
use planet_express.Engine.Canary.{CanaryReply, canary}

abbrev pub is_not_applied : Effect → Bool
is_not_applied Effect.not_applied = true
is_not_applied _ = false

-- The script returns an effect other than `not_applied` only behind a dispatch.
abbrev pub is_honest : Bool → Script → Bool
is_honest done (Script.returns o) = done || is_not_applied o.effect
is_honest done (Script.crashes why) = true
is_honest done (Script.dispatches pre rest) = is_honest true rest
is_honest done (Script.enters status rest) = is_honest done rest
is_honest done (Script.notes patch rest) = is_honest done rest
is_honest done (Script.updates window pre rest) = is_honest true rest

-- The executors with what the host answers.
pub data Task : Type 0 where
  restarts_service : Bool → Bool → Bool → Task
  starts_or_stops : Bool → Bool → Option Reading → Bool → Bool → Option Reading → Task
  moves_stacks : Bool → Bool → Option Text → Bool × Bool → List (Bool × Bool) → Task
  waits : List Bool → Task
  checks_container : Bool → Expect → Option Reading → Task
  checks_log : Bool → Bool → Bool → Bool → Task
  reads_port : Bool → Option ℕ → Task
  acts_on_unit : Bool → Bool → Provided → Task
  writes_compose : Bool → Dict → Written → Task
  restores_compose : Bool → Text → Restored → Task
  updates_image : Time → Text → ℕ → Text → Text → CanaryReply → Option Text → Option Text → Task
  prunes : List Bool → Task
  unknown_type : Task

-- `RunbookEngine._execute`
unfoldable pub script : Task → Script
script (restarts_service bound restarted verified) = service_restart bound restarted verified
script (starts_or_stops s bound before returned verified after) =
    service_start_stop s bound before returned verified after
script (moves_stacks bound reports ids first rest) = stack bound reports ids first rest
script (waits looks) = wait looks
script (checks_container bound expect r) = check_container bound expect r
script (checks_log bound started logs found) = check_log bound started logs found
script (reads_port bound port) = read_qbit_port bound port
script (acts_on_unit allowed known p) = unit_action allowed known p
script (writes_compose admitted pre w) = compose_write admitted pre w
script (restores_compose admitted path x) = compose_restore admitted path x
script (updates_image now e n st sv c reference old) = canary now e n st sv c reference old
script (prunes replies) = prune replies
script unknown_type = refusal

true_honest : (s : Script) → is_honest true s ≡ true
true_honest (Script.returns o) = refl
true_honest (Script.crashes why) = refl
true_honest (Script.dispatches pre rest) = true_honest rest
true_honest (Script.enters status rest) = true_honest rest
true_honest (Script.notes patch rest) = true_honest rest
true_honest (Script.updates window pre rest) = true_honest rest

if_honest :
    (b : Bool) (s : Script)
    → is_honest false s ≡ true
    → is_honest false (if b then s else refusal) ≡ true
if_honest true s h = h
if_honest false s h = refl

dispatches_honest :
    (pre : Option Dict) (rest : Script) → is_honest false (Script.dispatches pre rest) ≡ true
dispatches_honest pre rest = true_honest rest

updates_honest :
    (window : RollbackCandidate) (pre : Dict) (rest : Script)
    → is_honest false (Script.updates window pre rest) ≡ true
updates_honest window pre rest = true_honest rest

pub script-is_honest : (t : Task) → is_honest false (script t) ≡ true
unfolding script service_restart service_start_stop stack stacks_loop wait check_container check_log
    read_qbit_port unit_action compose_write compose_restore canary prune
script-is_honest (restarts_service bound restarted verified) =
    if_honest bound _ (search dispatches_honest)
script-is_honest (starts_or_stops s bound none returned verified after) = refl
script-is_honest (starts_or_stops s bound (some before) returned verified after) =
    if_honest bound _ (search dispatches_honest)
script-is_honest (moves_stacks bound reports ids (a, b) rest) =
    if_honest bound _ (search dispatches_honest)
script-is_honest (waits looks) = search dispatches_honest
script-is_honest (checks_container bound expect none) = refl
script-is_honest (checks_container bound expect (some r)) = if_honest bound _ refl
script-is_honest (checks_log bound started logs found) = if_honest (bound && started && logs) _ refl
script-is_honest (reads_port bound none) = refl
script-is_honest (reads_port bound (some port)) =
    if_honest (bound && leb 1 port && leb port 65535) _ refl
script-is_honest (acts_on_unit allowed known raised) = if_honest (allowed && known) _ refl
script-is_honest (acts_on_unit allowed known (reported before fine effect)) =
    if_honest (allowed && known) _ refl
script-is_honest (writes_compose admitted pre (refused_write s)) =
    if_honest admitted _ (search dispatches_honest)
script-is_honest (writes_compose admitted pre (failed_write s)) =
    if_honest admitted _ (search dispatches_honest)
script-is_honest (writes_compose admitted pre (done_write patch output)) =
    if_honest admitted _ (refl)
script-is_honest (restores_compose admitted path x) = if_honest admitted _ (refl)
script-is_honest (updates_image now e n st sv c none old) = refl
script-is_honest (updates_image now e n st sv c (some reference) none) = refl
script-is_honest (updates_image now e n st sv c (some reference) (some old)) =
    if_honest (c.bound && opt_eq c.configured (some reference) && c.eligible) _
      (search updates_honest)
script-is_honest (prunes replies) = refl
script-is_honest unknown_type = refl

-- What a run knows of a step that it has dispatched, and of one that it has not.
abbrev Known : Run → ℕ → Bool → Db → Type 0
Known r n true db = Dispatched r.execution n db
Known r n false db = Unit {0}

-- What was recorded as an effect was dispatched, and the store has the mark.
abbrev pub IsBacked : Run → ℕ → (StepOutcome × Bool) × Db → Type 0
IsBacked r n out =
    is_not_applied (out.0.0).effect ≡ false → (out.0.1 ≡ true) × Dispatched r.execution n out.1

module _ (r : Run) (n : ℕ) where
  Safe-Known :
      {A : Type 0} (done : Bool) (m : Prog A) (db : Db)
      → Safe (Dispatched r.execution n) m
      → Known r n done db
      → Known r n done (m db).1
  Safe-Known true m db s k = s.at db k
  Safe-Known false m db s k = tt

  caught-IsBacked :
      {A : Type 0} (done : Bool) (m : Result A × Db) (rest : Db → (StepOutcome × Bool) × Db)
      → Known r n done m.1
      → ((db : Db) → Known r n done db → IsBacked r n (rest db))
      → IsBacked r n (caught done m rest)
  caught-IsBacked done (ok u, db) rest k h = h db k
  caught-IsBacked true (err e, db) rest k h = λ q. (refl, k)
  caught-IsBacked false (err e, db) rest k h = λ q. absurd (false≢true (sym q))

  leave_window-IsBacked :
      (o : StepOutcome) (done : Bool) (db : Db)
      → IsBacked r n ((o, done), db)
      → IsBacked r n (leave_window r n ((o, done), db))
  unfolding leave_window
  leave_window-IsBacked o done db h = elim (Bool-cases (is_unknown o.effect)) [
    | inl u ↦
        rw (leave_window, u)
          (λ q.
            let b = h q in
            (b.0, (Safe-write _ ((Dispatched-IsKept r.execution n).held n)).at db b.1))
    | inr u ↦
        rw (leave_window, u)
          (λ q.
            let b = h q in
            (
              b.0,
              (Safe-write _ ((Dispatched-IsKept r.execution n).closed (r.clock n) n)).at db b.1,
            ))
  ]

  -- What follows a dispatch; if it raises, nothing was done.
  dispatched-IsBacked :
      (m : Result (Unit {0}) × Db) (rest : Db → (StepOutcome × Bool) × Db)
      → After (λ _ db. Dispatched r.execution n db) m
      → ((db : Db) → Dispatched r.execution n db → IsBacked r n (rest db))
      → IsBacked r n (dispatched r n m rest)
  dispatched-IsBacked (ok u, db) rest d h = h db d
  dispatched-IsBacked (err e, db) rest d h = λ q. absurd (false≢true (sym q))

  caught_dispatch-IsBacked :
      (m : Result (Unit {0}) × Db) (rest : Db → (StepOutcome × Bool) × Db)
      → After (λ _ db. Dispatched r.execution n db) m
      → ((db : Db) → Dispatched r.execution n db → IsBacked r n (rest db))
      → IsBacked r n (caught false m rest)
  caught_dispatch-IsBacked (ok u, db) rest d h = h db d
  caught_dispatch-IsBacked (err e, db) rest d h = λ q. absurd (false≢true (sym q))

  once-Dispatched :
      (b done : Bool) (pre : Dict) (db : Db)
      → Known r n done db
      → After
          (λ _ db. Dispatched r.execution n db)
          (if done then (ok tt, db) else dispatch r n b (some pre) db)
  once-Dispatched b true pre db k = k
  once-Dispatched b false pre db k = (dispatch-Dispatched r n b (some pre)).at db tt

  perform-IsBacked :
      (b : Bool) (s : Script) (done : Bool) (db : Db)
      → is_honest done s ≡ true
      → Known r n done db
      → IsBacked r n (perform r n b s done db)
  unfolding perform
  perform-IsBacked b (Script.returns o) true db h k = λ q. (refl, k)
  perform-IsBacked b (Script.returns o) false db h k = λ q. absurd (false≢true (sym q ∙ h))
  perform-IsBacked b (Script.crashes why) true db h k = λ q. (refl, k)
  perform-IsBacked b (Script.crashes why) false db h k = λ q. absurd (false≢true (sym q))
  perform-IsBacked b (Script.dispatches pre rest) true db h k = perform-IsBacked b rest true db h k
  perform-IsBacked b (Script.dispatches pre rest) false db h k =
      caught_dispatch-IsBacked (dispatch r n b pre db) (perform r n b rest true)
        ((dispatch-Dispatched r n b pre).at db tt) (λ db' d. perform-IsBacked b rest true db' h d)
  perform-IsBacked b (Script.enters t rest) done db h k =
      let m = write (set_execution_status (r.clock n) r.execution t none) in
      caught-IsBacked done (m db) (perform r n b rest done)
        (Safe-Known done m db
          (Safe-write _ ((Dispatched-IsKept r.execution n).entered (r.clock n) t)) k)
        (λ db' k'. perform-IsBacked b rest done db' h k')
  perform-IsBacked b (Script.notes patch rest) done db h k =
      let m = write (note_step_progress r.execution n patch) in
      caught-IsBacked done (m db) (perform r n b rest done)
        (Safe-Known done m db (Safe-write _ ((Dispatched-IsKept r.execution n).noted n patch)) k)
        (λ db' k'. perform-IsBacked b rest done db' h k')
  perform-IsBacked b (Script.updates window pre rest) done db h k =
      let m = write (open_rollback_candidate window) in
      let body = perform r n b rest true in
      let once = λ (db' : Db). if done then (ok tt, db') else dispatch r n b (some pre) db' in
      caught-IsBacked done (m db)
        (λ db'. dispatched r n (once db') λ db''. leave_window r n (body db''))
        (Safe-Known done m db (Safe-write _ ((Dispatched-IsKept r.execution n).opened window)) k)
        (λ db' k'.
          dispatched-IsBacked (once db') (λ db''. leave_window r n (body db''))
            (once-Dispatched b done pre db' k')
            (λ db'' d.
              leave_window-IsBacked (body db'').0.0 (body db'').0.1 (body db'').1
                (perform-IsBacked b rest true db'' h d)))

-- Whatever the host answers, and whether the executor returned or raised: an outcome of an executor
-- whose effect is not `not_applied` comes with a dispatch, and the store then has a row of the step in
-- the status `dispatched`.
pub task-IsBacked :
    (r : Run) (n : ℕ) (b : Bool) (t : Task) (db : Db)
    → is_not_applied (perform r n b (script t) false db).0.0.effect ≡ false
    → ((perform r n b (script t) false db).0.1 ≡ true)
      × Dispatched r.execution n (perform r n b (script t) false db).1
task-IsBacked r n b t db = perform-IsBacked r n b (script t) false db (script-is_honest t) tt
