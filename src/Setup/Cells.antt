-- ===== src/Setup/Cells.antt =====
-- How the record of one step follows from the deeds of a run.
use planet_express.Setup.Journal.{new_event, last_seq}
use planet_express.Setup.Apply.{is_in_flight}
use planet_express.Store.Rows.{Text, Time}
use planet_express.Prelude.{
  ℕ, ◌≡◌, refl, ap, ◌∙◌, ◌≢◌, true, Option, some, List, [], ◌∷◌, ◌++◌, arith, All,
}
use planet_express.Setup.Events.{
  Body, step_of, scrub, fold_cell, steps, steps-append, StepRecord, fold_event,
}
use planet_express.Setup.Runs.{Deed, change, write, perform_all, perform, written, World}

module _ {H : Type 0} (redact : Text → Text) (s : Text) where
  unfoldable pub cell_after : List (Deed H) → Option StepRecord → Option StepRecord
  cell_after [] c = c
  cell_after (change h ∷ ds) c = cell_after ds c
  cell_after (write b ∷ ds) c = cell_after ds (fold_cell s (scrub redact b) c)

  -- A deed that writes of no step but `s`.
  abbrev pub IsAbout : Deed H → Type 0
  IsAbout (change h) = Unit
  IsAbout (write b) = step_of (scrub redact b) ≡ some s

  -- Every change of the host is made while the record says that the step has started.
  abbrev pub IsCovered : Option StepRecord → List (Deed H) → Type 0
  IsCovered c [] = Unit
  IsCovered c (change h ∷ ds) = (is_in_flight c ≡ true) × IsCovered c ds
  IsCovered c (write b ∷ ds) = IsCovered (fold_cell s (scrub redact b) c) ds

  pub cell_after-append :
      (ds es : List (Deed H)) (c : Option StepRecord)
      → cell_after (ds ++ es) c ≡ cell_after es (cell_after ds c)
  unfolding cell_after
  cell_after-append [] es c = refl
  cell_after-append (change h ∷ ds) es c = cell_after-append ds es c
  cell_after-append (write b ∷ ds) es c = cell_after-append ds es (fold_cell s (scrub redact b) c)

  pub IsCovered-append :
      (c : Option StepRecord) (ds es : List (Deed H))
      → IsCovered c ds
      → IsCovered (cell_after ds c) es
      → IsCovered c (ds ++ es)
  unfolding cell_after
  IsCovered-append c [] es h k = k
  IsCovered-append c (change x ∷ ds) es h k = (h.0, IsCovered-append c ds es h.1 k)
  IsCovered-append c (write b ∷ ds) es h k =
      IsCovered-append (fold_cell s (scrub redact b) c) ds es h k

  -- What the journal says of the step after the deeds.
  pub steps-perform_all :
      (clock : ℕ → Time) (ds : List (Deed H)) (w : World H)
      → steps (perform_all redact clock ds w).journal s ≡ cell_after ds (steps w.journal s)
  unfolding perform_all perform written cell_after fold_event new_event
  steps-perform_all clock [] w = refl
  steps-perform_all clock (change h ∷ ds) w =
      steps-perform_all clock ds (perform redact clock (change h) w)
  steps-perform_all clock (write b ∷ ds) w =
      steps-perform_all clock ds (perform redact clock (write b) w)
      ∙ ap (cell_after ds)
          (λ i. steps-append w.journal (new_event redact clock (last_seq w.journal) b) i s)

pub fold_cell_other :
    (s t : Text) (b : Body) (c : Option StepRecord)
    → t ≢ s
    → step_of b ≡ some s
    → fold_cell t b c ≡ c
unfolding fold_cell
fold_cell_other s t b c ne h = rw (h, fold_cell) (ground (arith, ne))

-- The other steps keep their records.
pub cell_after_other :
    {H : Type 0} (redact : Text → Text) (s t : Text) (ds : List (Deed H)) (c : Option StepRecord)
    → t ≢ s
    → All (IsAbout redact s) ds
    → cell_after redact t ds c ≡ c
unfolding cell_after
cell_after_other redact s t [] c ne h = refl
cell_after_other redact s t (change x ∷ ds) c ne h = cell_after_other redact s t ds c ne h.1
cell_after_other redact s t (write b ∷ ds) c ne h =
    rw (fold_cell_other s t (scrub redact b) c ne h.0) (cell_after_other redact s t ds c ne h.1)
