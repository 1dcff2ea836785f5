-- ===== src/Policy/Unattended.antt =====
-- What `decide_runbook` of planet_express/execution/policy.py lets run without a person.
use planet_express.Store.Rows.{Text}
use planet_express.Prelude.{
  ◌≤◌, ◌≡◌, inl, inr, Bool, true, false, List, [], ◌∷◌, arith, Bool-cases, All,
}
use planet_express.Policy.Catalogue.{
  Risk, r0, rank, riskier, risk_eq, has_risk, Step, StepKind, Runbook, TargetKey, steps_of,
  step_risk, risk, risk_from, mutating_pairs,
}
use planet_express.Policy.Autonomy.{
  Origin, AutonomyConfig, direct_risks_for, is_direct, allows_direct_request, is_runbook_origin,
}
use planet_express.Policy.Decide.{
  all_known, any_guarded, is_exception, decide_known, decide_runbook,
}

-- No step of a list has a risk above this.
abbrev pub IsBound : Risk → List Step → Type 0
IsBound r ss = All (λ (s : Step). rank (step_risk s) ≤ rank r) ss

pub rank-riskier_left : (a b : Risk) → rank a ≤ rank (riskier a b)
rank-riskier_left a b = ground arith

pub rank-riskier_right : (a b : Risk) → rank b ≤ rank (riskier a b)
rank-riskier_right a b = ground arith

rank-risk_from : (r : Risk) (ss : List Step) → rank r ≤ rank (risk_from r ss)
unfolding risk_from
rank-risk_from r [] = omega arith
rank-risk_from r (s ∷ ss) =
    omega (arith, rank-riskier_left r (step_risk s), rank-risk_from (riskier r (step_risk s)) ss)

risk_from-IsBound : (r : Risk) (ss : List Step) → IsBound (risk_from r ss) ss
unfolding risk_from
risk_from-IsBound r [] = tt
risk_from-IsBound r (s ∷ ss) = (
  omega (arith, rank-riskier_right r (step_risk s), rank-risk_from (riskier r (step_risk s)) ss),
  risk_from-IsBound (riskier r (step_risk s)) ss,
)

pub risk-IsBound : (b : Runbook) → IsBound (risk b) (steps_of b)
unfolding risk
risk-IsBound b =
    (rank-risk_from (step_risk b.first) b.others, risk_from-IsBound (step_risk b.first) b.others)

-- Why a runbook may run unattended: an operator asks directly within the ceiling, it is one of the two
-- exceptions and touches nothing guarded, or it only reads.
pub data Warrant (g : Text → Text → Bool) (b : Runbook) (o : Origin) (c : AutonomyConfig)
    : Type 0 where
  asked : is_direct o ≡ true → has_risk (risk b) (direct_risks_for o c) ≡ true → Warrant g b o c
  excepted :
      is_exception o (steps_of b) ≡ true → any_guarded g (steps_of b) ≡ false → Warrant g b o c
  reads : rank (risk b) ≡ 0 → Warrant g b o c

module _ (g : Text → Text → Bool) (b : Runbook) (o : Origin) (c : AutonomyConfig) where
  warranted :
      (ps : List (StepKind × TargetKey))
      → (decide_known g b (risk b) ps o c).allowed ≡ true
      → (decide_known g b (risk b) ps o c).needs_approval ≡ false
      → Warrant g b o c
  unfolding decide_known allows_direct_request
  warranted ps allowed free = elim (Bool-cases (is_direct o)) [
    | inl d ↦ elim (Bool-cases (has_risk (risk b) (direct_risks_for o c))) [
      | inl h ↦ asked d h
      | inr h ↦ cc (rw (d, h) at allowed)
    ]
    | inr d ↦ elim (Bool-cases (is_exception o (steps_of b))) [
      | inl e ↦ elim (Bool-cases (any_guarded g (steps_of b))) [
        | inl h ↦ cc (rw (d, e, h) at allowed)
        | inr h ↦ excepted e h
      ]
      | inr e ↦ elim (Bool-cases (risk_eq (risk b) r0)) [
        | inl h ↦ reads (ground arith)
        | inr h ↦ cc (rw (d, e, h) at free)
      ]
    ]
  ]

  -- A runbook that may run without approval comes from a known origin, has known steps only and a risk
  -- that is not forbidden, which none of its steps exceeds; and it has a warrant.
  pub unattended_is_warranted :
      (decide_runbook g b o c).allowed ≡ true
      → (decide_runbook g b o c).needs_approval ≡ false
      → (is_runbook_origin o ≡ true)
        × (all_known (steps_of b) ≡ true)
        × (has_risk (risk b) c.forbidden_risks ≡ false)
        × IsBound (risk b) (steps_of b)
        × Warrant g b o c
  unfolding decide_runbook
  unattended_is_warranted allowed free = elim (Bool-cases (is_runbook_origin o)) [
    | inr e ↦ cc (rw e at allowed)
    | inl e ↦ elim (Bool-cases (all_known (steps_of b))) [
      | inr k ↦ cc (rw (e, k) at allowed)
      | inl k ↦ elim (Bool-cases (has_risk (risk b) c.forbidden_risks)) [
        | inl f ↦ cc (rw (e, k, f) at allowed)
        | inr f ↦ (
          e,
          k,
          f,
          risk-IsBound b,
          warranted (mutating_pairs (steps_of b)) (rw (e, k, f) at allowed) (rw (e, k, f) at free),
        )
      ]
    ]
  ]
