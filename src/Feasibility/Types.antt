-- ===== src/Feasibility/Types.antt =====
-- The snapshot, the limits and the results of reparto_service/services/feasibility.py.
-- Text identifiers are only tested for being empty, compared and ordered: a number stands for a
-- text, 0 for the empty one. The prose of a diagnostic is left out: its code determines it.
use reparto_docente_m.Prelude.{ℕ, ◌==◌, ◌||◌, if◌then◌else◌, List, Option}
use reparto_docente_m.Lifecycle.Status.{FeasibilityStatus}

abbrev pub TextId : Type 0
TextId = ℕ

pub data FeasibilityDiagnosticCode : Type 0 where
  incompatible_residual_totals slot_exceeds_every_target : FeasibilityDiagnosticCode
  distinct_teacher_shortfall unsatisfiable_targets : FeasibilityDiagnosticCode
  instance_size_limit step_limit time_limit : FeasibilityDiagnosticCode

-- A frozenset is the list of its members. The target is in hundredths and never negative.
pub record FeasibilityParticipant : Type 0 where
  pub participant_id : TextId
  pub remaining_target_units : ℕ
  pub occupied_activity_ids : List TextId

pub record FeasibilitySlot : Type 0 where
  pub slot_id : TextId
  pub activity_id : TextId
  pub position_index : ℕ
  pub hours_units : ℕ

-- `ValueError`, by what the message names.
pub data SnapshotError : Type 0 where
  empty_identifier hours_not_positive : SnapshotError
  duplicate_participant_id duplicate_slot_id duplicate_logical_slot : TextId → SnapshotError

pub data Result {ℓ} (A : Type ℓ) : Type ℓ where
  ok : A → Result A
  err : SnapshotError → Result A

infixl 5 ◌>>=◌
abbrev pub ◌>>=◌ {ℓ κ} : {A : Type ℓ} {B : Type κ} → Result A → (A → Result B) → Result B
ok a >>= f = f a
err e >>= f = err e

-- `FeasibilityParticipant.__post_init__`, for a target that is not negative.
unfoldable pub new_participant : TextId → ℕ → List TextId → Result FeasibilityParticipant
new_participant participant_id target occupied =
    if participant_id == 0
    then err empty_identifier
    else ok (record {
      participant_id = participant_id;
      remaining_target_units = target;
      occupied_activity_ids = occupied;
    })

-- `FeasibilitySlot.__post_init__`, for a position that is not negative.
unfoldable pub new_slot : TextId → TextId → ℕ → ℕ → Result FeasibilitySlot
new_slot slot_id activity_id position hours =
    if slot_id == 0 || activity_id == 0
    then err empty_identifier
    else if hours == 0
    then err hours_not_positive
    else ok (record {
      slot_id = slot_id;
      activity_id = activity_id;
      position_index = position;
      hours_units = hours;
    })

pub record FeasibilityState : Type 0 where
  pub participants : List FeasibilityParticipant
  pub slots : List FeasibilitySlot

-- `max_seconds` is counted in the ticks of the clock that the caller hands over.
pub record SolverLimits : Type 0 where
  pub max_participants : ℕ
  pub max_slots : ℕ
  pub max_steps : ℕ
  pub max_seconds : Option ℕ

pub record FeasibilityWitnessEntry : Type 0 where
  pub slot_id : TextId
  pub participant_id : TextId

pub record FeasibilityDiagnostic : Type 0 where
  pub code : FeasibilityDiagnosticCode
  pub related_ids : List TextId

pub record FeasibilityResult : Type 0 where
  pub status : FeasibilityStatus
  pub witness : Option (List FeasibilityWitnessEntry)
  pub diagnostics : List FeasibilityDiagnostic
  pub states_explored : ℕ
  pub memoization_hits : ℕ
