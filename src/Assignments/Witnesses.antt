-- ===== src/Assignments/Witnesses.antt =====
-- `FeasibilityWitnessService` of reparto_service/services/feasibility_witnesses.py, on the plan and
-- the witness of one process. SHA-256 over the JSON text is the parameter `digest`.
use reparto_docente_m.Prelude.{
  ℕ, Bool, true, false, not, ◌&&◌, ◌+◌, ◌==◌, leb, if◌then◌else◌, Option, none, some, List, [], ◌∷◌,
  ◌++◌, map, any, keep, Option,
}
use reparto_docente_m.Prelude.Sort.{sort_by}
use reparto_docente_m.Lifecycle.Status.{FeasibilityStatus}
use reparto_docente_m.Feasibility.Types.{
  FeasibilityParticipant, FeasibilitySlot, FeasibilityState, FeasibilityWitnessEntry,
  FeasibilityDiagnostic, SolverLimits,
}
use reparto_docente_m.Feasibility.Evaluate.{slot_le}
use reparto_docente_m.Guards.Types as GuardTypes
use reparto_docente_m.Guards.Types.{WitnessRepairLimits, WitnessRepairResult}
use reparto_docente_m.Guards.Witness.{validate_feasibility_witness}
use reparto_docente_m.Guards.Repair.{validate_proposed_assignment_against_witness}
use reparto_docente_m.Assignments.Rows.{
  HourRequirement, Assignment, ProcessState, TeachingPlan, FeasibilityWitness, Result, ok, err,
  internal_error, no_teaching_plan, witness_is_missing, witness_is_inconsistent, ◌>>=◌, ◌>>◌,
  raise_unless, or_raise,
}
use reparto_docente_m.Assignments.Remaining.{
  FingerprintPayload, FeasibilitySnapshot, build_feasibility_snapshot, slot_of,
}

-- `"bounded-dfs-v1"`
abbrev pub current_solver_version : ℕ
current_solver_version = 1

abbrev pub default_witness_repair_limits : WitnessRepairLimits
default_witness_repair_limits = record { max_steps = 256; max_moves = 8 }

-- the time limit of 2 seconds in milliseconds
abbrev pub default_solver_limits : SolverLimits
default_solver_limits = record {
  max_participants = 30;
  max_slots = 100;
  max_steps = 1000000;
  max_seconds = some 2000;
}

-- `column == value`
abbrev pub is_value : Option ℕ → ℕ → Bool
is_value none n = false
is_value (some m) n = m == n

abbrev pub is_feasible : FeasibilityStatus → Bool
is_feasible FeasibilityStatus.feasible = true
is_feasible _ = false

abbrev pub is_evaluated : FeasibilityStatus → Bool
is_evaluated FeasibilityStatus.not_evaluated = false
is_evaluated _ = true

-- a `ValueError` of the guards
abbrev pub or_guard_error {ℓ} :
    {A : Type ℓ} → {B : Type 0} → GuardTypes.Result A → (A → Result B) → Result B
or_guard_error (GuardTypes.ok a) f = f a
or_guard_error (GuardTypes.err e) f = err internal_error

abbrev pub plan_or_404 : ProcessState → Result TeachingPlan
plan_or_404 s = or_raise s.plan no_teaching_plan

abbrev pub entry_le : FeasibilityWitnessEntry → FeasibilityWitnessEntry → Bool
entry_le a b = leb a.slot_id b.slot_id

-- the entries of a stored witness for the slots that a state still has
abbrev pub remaining_entries :
    FeasibilityState → List FeasibilityWitnessEntry → List FeasibilityWitnessEntry
remaining_entries state = keep (λ (e : FeasibilityWitnessEntry).
    any (λ (s : FeasibilitySlot). e.slot_id == s.slot_id) state.slots)

-- `_released_assignment_state`
unfoldable pub released_assignment_state :
    FeasibilityState → Assignment → HourRequirement → Result FeasibilityState
released_assignment_state state a r = do
  slot ← slot_of r
  ok (record {
    participants =
        map
          (λ (item : FeasibilityParticipant).
            if item.participant_id == a.process_teacher_id
            then record item {
              remaining_target_units = item.remaining_target_units + slot.hours_units;
              occupied_activity_ids =
                  keep (λ i. not (i == r.teaching_activity_id)) item.occupied_activity_ids;
            }
            else item)
          state.participants;
    slots = sort_by slot_le (state.slots ++ slot ∷ []);
  })

unfoldable pub invalidate : ProcessState → ProcessState × Bool
invalidate s = elim (s.plan) [
  | none ↦ (s, false)
  | some plan ↦ (
    record s {
      plan = some (record plan {
        feasibility_status = FeasibilityStatus.not_evaluated;
        feasibility_generation = none;
        feasibility_checked_at = none;
        feasibility_input_fingerprint = none;
        feasibility_solver_version = none;
        feasibility_diagnostics_ref = none;
      });
      witness = none;
    },
    is_evaluated plan.feasibility_status,
  )
]

module _ (digest : FingerprintPayload → ℕ) where
  -- `_current_row`
  unfoldable pub current_row :
      TeachingPlan → Option FeasibilityWitness → FeasibilitySnapshot → Option FeasibilityWitness
  current_row plan none snapshot = none
  current_row plan (some row) snapshot =
      if is_value plan.feasibility_input_fingerprint (digest snapshot.fingerprint)
        && (is_value plan.feasibility_solver_version current_solver_version
            && (row.input_fingerprint == digest snapshot.fingerprint
                && row.solver_version == current_solver_version))
      then some row
      else none

  -- `_upsert_row`
  unfoldable pub new_row :
      FeasibilitySnapshot
      → List FeasibilityWitnessEntry
      → List FeasibilityDiagnostic
      → FeasibilityWitness
  new_row snapshot entries diagnostics = record {
    input_fingerprint = digest snapshot.fingerprint;
    solver_version = current_solver_version;
    witness_json = sort_by entry_le entries;
    diagnostics_json = diagnostics;
  }

  -- the current witness of a plan that is FEASIBLE at its current generation
  unfoldable pub feasible_row :
      TeachingPlan → Option FeasibilityWitness → FeasibilitySnapshot → Result FeasibilityWitness
  unfolding current_row
  feasible_row plan row snapshot = do
    current ← or_raise (current_row plan row snapshot) witness_is_missing
    raise_unless (is_feasible plan.feasibility_status) witness_is_missing
    raise_unless (is_value plan.feasibility_generation plan.current_generation_number)
        witness_is_missing
    ok current

  unfoldable pub get_witness : ProcessState → Result FeasibilityWitness
  unfolding feasible_row build_feasibility_snapshot
  get_witness s = do
    plan ← plan_or_404 s
    snapshot ← build_feasibility_snapshot s
    feasible_row plan s.witness snapshot

  unfoldable pub repair_for_selection : ℕ → ℕ → ProcessState → Result WitnessRepairResult
  unfolding feasible_row build_feasibility_snapshot
  repair_for_selection slot_id participant_id s = do
    plan ← plan_or_404 s
    snapshot ← build_feasibility_snapshot s
    row ← feasible_row plan s.witness snapshot
    or_guard_error
        (validate_proposed_assignment_against_witness snapshot.state
          (remaining_entries snapshot.state row.witness_json) slot_id participant_id
          default_witness_repair_limits)
        (λ repair. or_raise repair internal_error)

  -- `repair_for_reassignment` under a plan that is FEASIBLE
  unfoldable pub released_repair :
      TeachingPlan → Assignment → HourRequirement → ℕ → ProcessState → Result WitnessRepairResult
  unfolding feasible_row build_feasibility_snapshot released_assignment_state
  released_repair plan a r participant_id s = do
    snapshot ← build_feasibility_snapshot s
    row ← feasible_row plan s.witness snapshot
    released ← released_assignment_state snapshot.state a r
    or_guard_error
        (validate_proposed_assignment_against_witness released
          (remaining_entries released row.witness_json) r.id participant_id
          default_witness_repair_limits)
        (λ repair. or_raise repair internal_error)

  unfoldable pub repair_for_reassignment :
      Assignment → HourRequirement → ℕ → ProcessState → Result (Option WitnessRepairResult)
  unfolding released_repair
  repair_for_reassignment a r participant_id s = do
    plan ← plan_or_404 s
    if not (is_feasible plan.feasibility_status)
        then ok none
        else (do repair ← released_repair plan a r participant_id s; ok (some repair))

  -- the rows that `persist_repair` writes
  unfoldable pub with_repair :
      ℕ
      → List FeasibilityWitnessEntry
      → TeachingPlan
      → FeasibilitySnapshot
      → ProcessState
      → ProcessState
  unfolding new_row
  with_repair now repaired plan snapshot s = record s {
    plan = some (record plan {
      feasibility_status = FeasibilityStatus.feasible;
      feasibility_generation = some plan.current_generation_number;
      feasibility_checked_at = some now;
      feasibility_input_fingerprint = some (digest snapshot.fingerprint);
      feasibility_solver_version = some current_solver_version;
    });
    witness = some (new_row snapshot (snapshot.fixed_assignments ++ repaired) []);
  }

  unfoldable pub persist_repair :
      ℕ → List FeasibilityWitnessEntry → ProcessState → Result ProcessState
  unfolding build_feasibility_snapshot with_repair
  persist_repair now repaired s = do
    plan ← plan_or_404 s
    snapshot ← build_feasibility_snapshot s
    or_guard_error (validate_feasibility_witness snapshot.state repaired) (λ consistent. do
      raise_unless consistent witness_is_inconsistent
      ok (with_repair now repaired plan snapshot s))
