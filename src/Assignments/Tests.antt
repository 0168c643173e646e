-- ===== src/Assignments/Tests.antt =====
-- Two teachers and two slots, and the theorems at them.
use reparto_docente_m.Prelude.{ℕ, true, ◌+◌, none, some, List, [], ◌∷◌, ◌≡◌, refl, arith, map, ◌↔◌}
use reparto_docente_m.Lifecycle.Process
use reparto_docente_m.Lifecycle.Status.{
  HourRequirementStatus, FeasibilityStatus, TeachingPlanStatus,
}
use reparto_docente_m.Feasibility.Types.{FeasibilityWitnessEntry, new_slot, new_participant}
use reparto_docente_m.Guards.Types.{is_safe}
use reparto_docente_m.Guards.Fast.{compute_fast_feasibility_checks}
use reparto_docente_m.Guards.Witness.{validate_feasibility_witness}
use reparto_docente_m.Guards.Repair.{validate_proposed_assignment_against_witness}
use reparto_docente_m.Assignments.Rows.{
  HourRequirement, Participant, Assignment, AssignmentStatus, AssignmentSource, TeachingPlan,
  ProcessState, ok, find_assignment,
}
use reparto_docente_m.Assignments.Hours.{is_occupied, compute_assignment_summary, balance_le}
use reparto_docente_m.Assignments.Summary.{all_hours, own_balance, summary_is_per_participant}
use reparto_docente_m.Prelude.Sort.{sort_by}
use reparto_docente_m.Assignments.Remaining.{FingerprintPayload}
use reparto_docente_m.Assignments.Witnesses.{persist_repair, repair_for_reassignment}
use reparto_docente_m.Assignments.Occupy.{ensure_can_occupy, occupy_slot}
use reparto_docente_m.Assignments.Actions.{
  create_manual_assignment, undo_assignment, reassign_assignment, update_assignment,
}
use reparto_docente_m.Assignments.Run.{Request, create_manual, undo, reassign, update, perform_all}
use reparto_docente_m.Assignments.Invariant.{IsSound, CanOccupy}
use reparto_docente_m.Assignments.Backed.{IsBacked, HasExactWitness, persist_repair-HasExactWitness}
use reparto_docente_m.Assignments.Ledger.{Holds-ok, Frees, undo-Frees}
use reparto_docente_m.Assignments.Moves.{Moves, reassign-Moves}
use reparto_docente_m.Assignments.RoundTrip.{Restores, create_undo-Restores}
use reparto_docente_m.Assignments.Refusals.{ensure_can_occupy_iff}
use reparto_docente_m.Assignments.Safe.{perform_all-IsSound, perform_all-IsBacked}

abbrev slot : ℕ → ℕ → HourRequirement
slot i activity = record {
  id = i;
  teaching_activity_id = activity;
  position_index = 0;
  required_teacher_hours = 300;
  status = HourRequirementStatus.available;
  created_generation = 1;
  last_validated_generation = 1;
  retired_generation = none;
  superseded_by_requirement_id = none;
}

abbrev teacher : ℕ → Participant
teacher i = record {
  id = i;
  is_active = true;
  participates_in_selection = true;
  base_weekly_hours = 300;
  extra_weekly_hours = 0;
  user_id = none;
  display_name = i;
}

abbrev plan : TeachingPlan
plan = record {
  id = 4;
  status = TeachingPlanStatus.requirements_generated;
  current_generation_number = 1;
  feasibility_status = FeasibilityStatus.not_evaluated;
  feasibility_generation = none;
  feasibility_checked_at = none;
  feasibility_input_fingerprint = none;
  feasibility_solver_version = none;
  feasibility_diagnostics_ref = none;
}

abbrev start : ProcessState
start = record {
  process_status = Process.meeting_open;
  plan = some plan;
  witness = none;
  requirements = slot 1 11 ∷ slot 2 12 ∷ [];
  participants = teacher 71 ∷ teacher 72 ∷ [];
  assignments = [];
  meetings = [];
  audit = [];
}

-- a digest of the number of pairs
abbrev digest : FingerprintPayload → ℕ
digest payload = 7

abbrev entries : List FeasibilityWitnessEntry
entries =
    record { slot_id = 1; participant_id = 71 } ∷ record { slot_id = 2; participant_id = 72 } ∷ []

abbrev backed : ProcessState
backed = record start {
  plan = some (record plan {
    feasibility_status = FeasibilityStatus.feasible;
    feasibility_generation = some 1;
    feasibility_checked_at = some 5;
    feasibility_input_fingerprint = some 7;
    feasibility_solver_version = some 1;
  });
  witness = some (record {
    input_fingerprint = 7;
    solver_version = 1;
    witness_json = entries;
    diagnostics_json = [];
  });
}

persisted : persist_repair digest 5 entries start ≡ ok backed
unfolding persist_repair new_slot new_participant validate_feasibility_witness
persisted = refl

backed-HasExactWitness : HasExactWitness digest backed
backed-HasExactWitness =
    Holds-ok (HasExactWitness digest) (persist_repair digest 5 entries start)
      (persist_repair-HasExactWitness digest 5 entries start) persisted

abbrev requests : List Request
requests =
    record { now = 6; user = 9; fresh = 51; action = create_manual 1 71 none }
    ∷ record { now = 7; user = 9; fresh = 52; action = create_manual 1 72 none }
    ∷ record { now = 8; user = 9; fresh = 53; action = create_manual 2 72 (some 3) }
    ∷ record { now = 9; user = 9; fresh = 54; action = update 53 (some none) }
    ∷ []

-- The second request is refused: the slot is taken.
perform_all_slots :
    let done = (perform_all digest requests backed).assignments in
    (is_occupied done 1 ≡ true) × (is_occupied done 2 ≡ true) × (find_assignment 52 done ≡ none)
unfolding perform_all update_assignment create_manual_assignment occupy_slot new_participant
    new_slot compute_fast_feasibility_checks is_safe validate_proposed_assignment_against_witness
    validate_feasibility_witness
perform_all_slots = (refl, refl, refl)

perform_all-IsBacked_example : IsBacked digest (perform_all digest requests backed)
perform_all-IsBacked_example =
    perform_all-IsBacked digest requests backed (λ p e h. backed-HasExactWitness)

backed-IsSound : IsSound backed
backed-IsSound = record {
  ids = tt;
  one_per_slot = λ i. ground arith;
  one_per_activity = λ b t. ground arith;
  within_target = λ i p e. ground arith;
  told = λ i r e. ground (arith, e);
}

perform_all-IsSound_example : IsSound (perform_all digest requests backed)
perform_all-IsSound_example = perform_all-IsSound digest requests backed backed-IsSound

-- A process without a plan, where the first slot is taken.
abbrev held : Assignment
held = record {
  id = 51;
  hour_requirement_id = 1;
  teaching_activity_id = 11;
  process_teacher_id = 71;
  source = AssignmentSource.department_head;
  status = AssignmentStatus.active;
  chosen_by_user_id = 9;
  confirmed_by_user_id = none;
  notes = none;
}

abbrev taken : ProcessState
taken = record start {
  requirements = record (slot 1 11) { status = HourRequirementStatus.assigned } ∷ slot 2 12 ∷ [];
  assignments = held ∷ [];
  plan = some (record plan { feasibility_status = FeasibilityStatus.infeasible });
}

taken-IsSound : IsSound taken
taken-IsSound = record {
  ids = ground arith;
  one_per_slot = λ i. ground arith;
  one_per_activity = λ b t. ground arith;
  within_target = λ i p e. ground arith;
  told = λ i r e. ground (arith, e);
}

abbrev undoing : List Request
undoing = record { now = 8; user = 9; fresh = 60; action = undo 51 3 } ∷ []

abbrev moving : List Request
moving = record { now = 8; user = 9; fresh = 61; action = reassign 51 72 3 none } ∷ []

undo-Frees_example : Frees held taken (perform_all digest undoing taken)
unfolding perform_all undo_assignment
undo-Frees_example =
    undo-Frees 8 9 51 3 taken (perform_all digest undoing taken) held taken-IsSound refl refl

reassign-Moves_example : Moves held 72 taken (perform_all digest moving taken)
unfolding perform_all reassign_assignment occupy_slot repair_for_reassignment
reassign-Moves_example =
    reassign-Moves digest 8 9 61 51 72 3 none taken (perform_all digest moving taken) held
      taken-IsSound refl refl

abbrev creating : List Request
creating = record { now = 8; user = 9; fresh = 62; action = create_manual 2 72 none } ∷ []

create_undo-Restores_example :
    (u : ProcessState) × (undo_assignment 10 9 62 4 (perform_all digest creating taken) ≡ ok u)
    × Restores taken u
unfolding perform_all create_manual_assignment occupy_slot
create_undo-Restores_example =
    create_undo-Restores digest 8 9 62 2 72 none taken (perform_all digest creating taken) 10 9 4
      taken-IsSound refl

-- The first slot has an active assignment, but its row says that it is AVAILABLE.
abbrev row_behind : ProcessState
row_behind = record start { assignments = held ∷ [] }

ensure_can_occupy_iff_example :
    (ensure_can_occupy taken (slot 2 12) (teacher 72) ≡ ok tt)
    ↔ CanOccupy taken (slot 2 12) (teacher 72)
ensure_can_occupy_iff_example = ensure_can_occupy_iff taken (slot 2 12) (teacher 72)

summary_is_per_participant_example :
    ((compute_assignment_summary taken).participants
      ≡ sort_by balance_le (map (own_balance taken) taken.participants))
    × ((compute_assignment_summary taken).total_assigned_hours ≡ all_hours taken)
    × ((compute_assignment_summary taken).assigned_slots
          + (compute_assignment_summary taken).available_slots
        ≡ (compute_assignment_summary taken).total_slots)
summary_is_per_participant_example = summary_is_per_participant taken

-- One teacher has the three hours of the taken slot.
taken_summary :
    ((compute_assignment_summary taken).total_assigned_hours ≡ 300)
    × ((compute_assignment_summary taken).assigned_slots ≡ 1)
    × ((compute_assignment_summary taken).available_slots ≡ 1)
unfolding compute_assignment_summary
taken_summary = (refl, refl, refl)
