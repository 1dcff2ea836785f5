-- ===== src/Rollback/Tests.antt =====
-- Runs of the rollback planning of planet_express/execution/engine.py, and witnesses.
use planet_express.Prelude.{
  ℕ, ◌+◌, ◌≤◌, ◌≡◌, refl, Bool, true, false, Option, none, some, List, [], ◌∷◌,
}
use mathlib.Core.Option
use planet_express.Store.Rows.{Effect}
use planet_express.Policy.Catalogue.{
  StepKind, service_stop, service_start, service_restart, compose_write, wait,
}
use planet_express.Rollback.Rows.{Row, PreState, Host, content, stop}
use planet_express.Rollback.Plan.{
  Inverse, RollbackPlan, RestoreBinding, restores, switches, plan_rollback, rollback_preview,
}
use planet_express.Rollback.Preview.{preview_covers, numbers, times}

abbrev nothing_seen : PreState
nothing_seen = record {
  running = none;
  active = none;
  compose_path = 0;
  previous_sha256 = none;
  created_file = none;
  created_directory = none;
  directory_existed = none;
  backup_path = none;
  directory_inode = none;
  staged_file = none;
}

abbrev row : ℕ → StepKind → Option Effect → PreState → Row
row n k e p = record {
  n = n;
  kind = k;
  action = stop;
  stack = 5;
  service = 6;
  unit = 0;
  content_sha256 = 9;
  container = 7;
  bound_path = 8;
  effect = e;
  pre = p;
}

-- A service was stopped, another restarted, and a write died after it had staged a new file.
abbrev run_rows : List Row
run_rows =
    row 1 service_stop (some Effect.applied) nothing_seen
    ∷ row 2 service_restart (some Effect.applied) nothing_seen
    ∷ row 3 compose_write (some Effect.unknown)
        (record nothing_seen { compose_path = 8; staged_file = some (1, 2) })
    ∷ row 4 wait none nothing_seen
    ∷ []

-- The staged file stands at its path, with the content that was approved.
abbrev host : ℕ → Host
host n = record {
  health = λ c. some false;
  unit_active = λ u. none;
  read_current = λ p. content 9;
  stat = λ p. some (1, 2);
  bind_service = λ s t. some 7;
}

abbrev taken : List Inverse → Bool
taken is = true

abbrev removal : RestoreBinding
removal = record {
  compose_path = 8;
  project = 5;
  written_sha256 = 9;
  backup_path = none;
  previous_sha256 = none;
  created_file = true;
  created_directory = false;
  directory_inode = none;
  staged_file = some (1, 2);
}

abbrev planned : RollbackPlan
planned = record {
  steps = restores removal ∷ switches service_start 5 6 7 ∷ [];
  undo = (3, compose_write) ∷ (1, service_stop) ∷ [];
  not_reversible = (2, service_restart) ∷ [];
  unknown = [];
}

plans : plan_rollback taken host run_rows ≡ some planned
unfolding plan_rollback
plans = refl

previews :
    rollback_preview run_rows ≡ record { undo = 1 ∷ []; unknown = 3 ∷ []; not_reversible = 2 ∷ [] }
unfolding rollback_preview
previews = refl

-- Another file at the path: the write is not undone by removing it.
abbrev replaced : ℕ → Host
replaced n = record (host n) { stat = λ p. some (1, 3); read_current = λ p. content 4 }

leaves_the_other_file :
    Option.map (λ (p : RollbackPlan). p.unknown) (plan_rollback taken replaced run_rows)
    ≡ some ((3, compose_write) ∷ [])
unfolding plan_rollback
leaves_the_other_file = refl

preview_covers_example :
    (numbers planned.not_reversible ≡ (rollback_preview run_rows).not_reversible)
    × (times 3 (rollback_preview run_rows).undo ≤ times 3 (numbers planned.undo))
    × (times 3 (numbers planned.undo)
        ≤ times 3 (rollback_preview run_rows).undo + times 3 (rollback_preview run_rows).unknown)
    × (times 3 (numbers planned.unknown) ≤ times 3 (rollback_preview run_rows).unknown)
preview_covers_example = preview_covers taken host run_rows planned 3 plans
