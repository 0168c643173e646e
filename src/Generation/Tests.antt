-- ===== src/Generation/Tests.antt =====
-- A plan whose activities have changed, and the theorems at it.
use reparto_docente_m.Prelude.{
  true, ℕ, false, ◌+◌, ◌*◌, Option, none, some, List, [], ◌∷◌, ◌≡◌, refl, arith, keep, map,
}
use reparto_docente_m.Lifecycle.Process
use reparto_docente_m.Lifecycle.Status.{
  HourRequirementStatus, FeasibilityStatus, TeachingPlanStatus,
}
use reparto_docente_m.Assignments.Rows.{
  HourRequirement, AssignmentStatus, AssignmentSource, TeachingPlan, ProcessState, ok, is_current,
}
use reparto_docente_m.Generation.Diff.{
  TeachingActivity, NewSlot, plan_generation, positions_of, is_live_activity, is_noop,
}
use reparto_docente_m.Generation.Apply.{requirement_ids, apply_generation, apply_reconciliation}
use reparto_docente_m.Generation.Covered.{
  covered, over_rows, over_targets, generation_covers_positions,
}
use reparto_docente_m.Generation.Partition.{AreFree, to_retire-AreFree}
use reparto_docente_m.Assignments.Remaining.{FingerprintPayload, FeasibilitySnapshot}
use reparto_docente_m.Generation.Evaluate.{Evaluation, evaluate_or_reuse, evaluate}
use reparto_docente_m.Feasibility.Types.{new_slot, new_participant}
use reparto_docente_m.Feasibility.Evaluate.{evaluate_assignment_feasibility}
use reparto_docente_m.Assignments.Hours.{is_occupied}
use reparto_docente_m.Prelude.{All}
use reparto_docente_m.Generation.Diff.{Conflict}
use reparto_docente_m.Generation.Released.{reconciled_conflicts_are_free}
use reparto_docente_m.Generation.Reuse.{evaluation_is_reused}
use reparto_docente_m.Generation.Stored.{HasSolverWitness, evaluation_stores_witness}
use reparto_docente_m.Generation.Live.{generated_slots_are_positions}
use reparto_docente_m.Generation.Reconciled.{reconciled_slots_are_positions}

abbrev activity : ℕ → ℕ → ℕ → Option ℕ → TeachingActivity
activity i positions hours retired = record {
  id = i;
  required_teacher_count = positions;
  teacher_weekly_hours_per_position = hours;
  retired_at = retired;
}

abbrev row : ℕ → ℕ → ℕ → ℕ → HourRequirement
row i activity position hours = record {
  id = i;
  teaching_activity_id = activity;
  position_index = position;
  required_teacher_hours = hours;
  status = HourRequirementStatus.available;
  created_generation = 1;
  last_validated_generation = 1;
  retired_generation = none;
  superseded_by_requirement_id = none;
}

-- Activity 11 has two positions, the second of them with a row of other hours; 12 is retired, 13 new.
abbrev activities : List TeachingActivity
activities = activity 13 1 200 none ∷ activity 11 2 300 none ∷ activity 12 1 100 (some 5) ∷ []

abbrev plan : TeachingPlan
plan = record {
  id = 4;
  status = TeachingPlanStatus.stale;
  current_generation_number = 1;
  feasibility_status = FeasibilityStatus.not_evaluated;
  feasibility_generation = none;
  feasibility_checked_at = none;
  feasibility_input_fingerprint = none;
  feasibility_solver_version = none;
  feasibility_diagnostics_ref = none;
}

abbrev changed : ProcessState
changed = record {
  process_status = Process.meeting_open;
  plan = some plan;
  witness = none;
  requirements = row 1 11 0 300 ∷ row 2 11 1 250 ∷ row 3 12 0 100 ∷ [];
  participants = [];
  assignments = [];
  meetings = [];
  audit = [];
}

-- where the row of other hours has an active assignment
abbrev assigned : ProcessState
assigned = record changed {
  assignments =
      record {
        id = 51;
        hour_requirement_id = 2;
        teaching_activity_id = 11;
        process_teacher_id = 71;
        source = AssignmentSource.department_head;
        status = AssignmentStatus.active;
        chosen_by_user_id = 9;
        confirmed_by_user_id = none;
        notes = none;
      }
      ∷ [];
}

abbrev uuid5 : ℕ → ℕ → ℕ → ℕ → ℕ
uuid5 plan_id number activity position = 1000 * number + 10 * activity + position

abbrev hours : ℕ → ℕ → ℕ → ℕ
hours activity position h = h

changed_difference :
    let d = plan_generation uuid5 activities plan changed in
    (requirement_ids d.to_preserve ≡ 1 ∷ [])
    × (requirement_ids d.to_retire ≡ 2 ∷ 3 ∷ [])
    × (map (λ (n : NewSlot). n.requirement_id) d.to_create ≡ 2111 ∷ 2130 ∷ [])
    × (is_noop d ≡ false)
unfolding plan_generation is_noop
changed_difference = (refl, refl, refl, refl)

generated_slots_are_positions_example :
    over_rows hours (
      keep is_current
        (apply_generation (plan_generation uuid5 activities plan changed) changed.requirements))
    ≡ over_targets hours (positions_of (keep is_live_activity activities))
unfolding plan_generation
generated_slots_are_positions_example =
    generated_slots_are_positions uuid5 activities plan changed (ground arith) (ground arith)
      (ground arith) refl hours

reconciled_slots_are_positions_example :
    over_rows hours (
      keep is_current
        (apply_reconciliation uuid5 plan.id
          (plan_generation uuid5 activities plan assigned)
          assigned).requirements)
    ≡ over_targets hours (positions_of (keep is_live_activity activities))
reconciled_slots_are_positions_example =
    reconciled_slots_are_positions uuid5 activities plan assigned (ground arith) (ground arith)
      (ground arith) hours

generation_covers_positions_example :
    covered hours (plan_generation uuid5 activities plan assigned)
    ≡ over_targets hours (positions_of (keep is_live_activity activities))
generation_covers_positions_example =
    generation_covers_positions hours uuid5 activities plan assigned

to_retire-AreFree_example :
    AreFree assigned.assignments (plan_generation uuid5 activities plan assigned).to_retire
to_retire-AreFree_example = to_retire-AreFree uuid5 activities plan assigned

-- No slots and no participants: the solver answers FEASIBLE, and then the store does.
abbrev bare : FeasibilitySnapshot
bare = record {
  state = record { participants = []; slots = [] };
  fingerprint = record { participants = []; slots = []; assignments = [] };
  fixed_assignments = [];
}

abbrev digest : FingerprintPayload → ℕ
digest payload = 7

abbrev stopped_clock : ℕ → ℕ
stopped_clock states = 0

abbrev evaluated : ProcessState
evaluated = record changed {
  plan = some (record plan {
    feasibility_status = FeasibilityStatus.feasible;
    feasibility_generation = some 2;
    feasibility_checked_at = some 5;
    feasibility_input_fingerprint = some 7;
    feasibility_solver_version = some 1;
  });
  witness = some (record {
    input_fingerprint = 7;
    solver_version = 1;
    witness_json = [];
    diagnostics_json = [];
  });
}

evaluation_is_reused_example :
    (p : TeachingPlan) × (evaluated.plan ≡ some p)
    × ((again : Evaluation) × (evaluate_or_reuse digest stopped_clock 9 p bare 2 evaluated
          ≡ ok (evaluated, again))
        × (again.status ≡ FeasibilityStatus.feasible)
        × (again.cache_reused ≡ true))
unfolding evaluate_or_reuse evaluate_assignment_feasibility
evaluation_is_reused_example =
    evaluation_is_reused digest stopped_clock 5 9 2 plan bare changed evaluated
      (record {
        status = FeasibilityStatus.feasible;
        cache_reused = false;
        witness_available = true;
      })
      refl refl

-- One slot and the teacher whose hours it has.
abbrev ready : ProcessState
ready = record changed {
  requirements = row 1 11 0 300 ∷ [];
  participants =
      record {
        id = 71;
        is_active = true;
        participates_in_selection = true;
        base_weekly_hours = 300;
        extra_weekly_hours = 0;
        user_id = none;
        display_name = 71;
      }
      ∷ [];
}

abbrev stored : ProcessState
stored = record ready {
  plan = some (record plan {
    feasibility_status = FeasibilityStatus.feasible;
    feasibility_generation = some 1;
    feasibility_checked_at = some 5;
    feasibility_input_fingerprint = some 7;
    feasibility_solver_version = some 1;
  });
  witness = some (record {
    input_fingerprint = 7;
    solver_version = 1;
    witness_json = record { slot_id = 1; participant_id = 71 } ∷ [];
    diagnostics_json = [];
  });
}

evaluation_stores_witness_example : HasSolverWitness digest stored
unfolding evaluate evaluate_or_reuse evaluate_assignment_feasibility new_slot new_participant
evaluation_stores_witness_example =
    evaluation_stores_witness digest stopped_clock uuid5 activities 5 plan ready stored
      (record {
        status = FeasibilityStatus.feasible;
        cache_reused = false;
        witness_available = true;
      })
      refl refl refl refl refl

reconciled_conflicts_are_free_example :
    All
      (λ (c : Conflict).
        is_occupied
          (apply_reconciliation uuid5 plan.id
            (plan_generation uuid5 activities plan assigned)
            assigned).assignments
          c.requirement.id
        ≡ false)
      (plan_generation uuid5 activities plan assigned).conflicts
reconciled_conflicts_are_free_example =
    reconciled_conflicts_are_free uuid5 activities plan assigned (λ i. ground arith)
