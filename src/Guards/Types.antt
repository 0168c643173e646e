-- ===== src/Guards/Types.antt =====
-- The findings, limits and results of reparto_service/services/selection_guards.py.
use reparto_docente_m.Prelude.{ℕ, Bool, true, false, Option, List, [], ◌∷◌}
use reparto_docente_m.Feasibility.Types.{TextId, FeasibilityState, FeasibilityWitnessEntry}

pub data FastGuardCode : Type 0 where
  residual_totals_mismatch selected_slot_does_not_fit : FastGuardCode
  selected_activity_already_occupied slot_exceeds_every_target : FastGuardCode
  distinct_teacher_shortfall : FastGuardCode

pub data WitnessRepairCode : Type 0 where
  repaired invalid_witness fast_guard_failed repair_limit_reached : WitnessRepairCode
  local_repair_not_found : WitnessRepairCode

pub record FastGuardFinding : Type 0 where
  pub code : FastGuardCode
  pub related_ids : List TextId

pub record FastGuardResult : Type 0 where
  pub prospective_state : FeasibilityState
  pub findings : List FastGuardFinding

-- `is_safe`: no finding
abbrev pub no_findings : List FastGuardFinding → Bool
no_findings [] = true
no_findings (f ∷ fs) = false

unfoldable pub is_safe : FastGuardResult → Bool
is_safe result = no_findings result.findings

pub record WitnessRepairLimits : Type 0 where
  pub max_steps : ℕ
  pub max_moves : ℕ

pub record WitnessRepairResult : Type 0 where
  pub code : WitnessRepairCode
  pub witness : Option (List FeasibilityWitnessEntry)
  pub steps : ℕ

-- `ValueError`, by what the message names.
pub data GuardError : Type 0 where
  duplicate_participant_id duplicate_slot_id : GuardError
  unknown_participant unknown_slot : TextId → GuardError

pub data Result {ℓ} (A : Type ℓ) : Type ℓ where
  ok : A → Result A
  err : GuardError → Result A

infixl 5 ◌>>=◌
abbrev pub ◌>>=◌ {ℓ κ} : {A : Type ℓ} {B : Type κ} → Result A → (A → Result B) → Result B
ok a >>= f = f a
err e >>= f = err e
