-- ===== src/Assignments/Occupy.antt =====
-- The shared complete-slot routine of reparto_service/controllers/assignments.py with its guards, and
-- the release of a slot. Transactions run one after the other, so a row lock is a read of the row.
use reparto_docente_m.Prelude.{
  ℕ, Bool, true, false, not, ◌&&◌, ◌+◌, ◌==◌, leb, if◌then◌else◌, Option, none, some, List, ◌∷◌,
  any,
}
use reparto_docente_m.Lifecycle.Status.{HourRequirementStatus, TeachingPlanStatus}
use reparto_docente_m.Feasibility.Types.{FeasibilityWitnessEntry}
use reparto_docente_m.Guards.Types.{WitnessRepairResult, WitnessRepairCode, is_safe}
use reparto_docente_m.Guards.Fast.{compute_fast_feasibility_checks}
use reparto_docente_m.Meeting.Turns.{is_mutable}
use reparto_docente_m.Assignments.Rows.{
  HourRequirement, Participant, Assignment, AssignmentStatus, AssignmentSource, ProcessState,
  Result, ok, ◌>>=◌, ◌>>◌, raise_unless, or_raise, is_live, is_available, find_requirement,
  find_participant, set_requirement_status, set_assignment_status, cannot_mutate_process,
  plan_readiness_conflict, internal_error, requirement_is_not_available,
  requirement_is_already_assigned, only_active_process_teacher_is_eligible,
  teacher_already_occupies_position, requirement_needs_more_hours, selection_would_strand,
  witness_could_not_be_repaired,
}
use reparto_docente_m.Assignments.Hours.{
  target_weekly_hours, is_occupied, compute_participant_assigned_hours,
}
use reparto_docente_m.Assignments.Remaining.{FingerprintPayload, build_remaining_assignment_state}
use reparto_docente_m.Assignments.Witnesses.{
  is_feasible, or_guard_error, repair_for_selection, persist_repair,
}

-- `_ensure_open`
unfoldable pub ensure_open : ProcessState → Result (Unit {0})
ensure_open s = raise_unless (is_mutable s.process_status) cannot_mutate_process

-- `ASSIGNMENT_BLOCKING_PLAN_STATUSES`
abbrev pub is_blocking : TeachingPlanStatus → Bool
is_blocking TeachingPlanStatus.stale = true
is_blocking TeachingPlanStatus.reconciliation_required = true
is_blocking _ = false

-- `PlanReadinessGate.ensure_assignments_unblocked`
unfoldable pub ensure_assignments_unblocked : ProcessState → Result (Unit {0})
ensure_assignments_unblocked s = elim (s.plan) [
  | none ↦ ok tt
  | some plan ↦ raise_unless (not (is_blocking plan.status)) plan_readiness_conflict
]

-- `_ensure_slot_unassigned`
unfoldable pub ensure_slot_unassigned : ProcessState → ℕ → Result (Unit {0})
ensure_slot_unassigned s requirement_id =
    raise_unless (not (is_occupied s.assignments requirement_id)) requirement_is_already_assigned

unfoldable pub ensure_eligible_process_teacher : Participant → Result (Unit {0})
ensure_eligible_process_teacher p = raise_unless p.is_active only_active_process_teacher_is_eligible

-- the teacher holds a position of the activity
abbrev pub holds_position : List Assignment → ℕ → ℕ → Bool
holds_position assignments activity teacher =
    any
      (λ (a : Assignment).
        a.teaching_activity_id == activity && (a.process_teacher_id == teacher && is_live a))
      assignments

unfoldable pub ensure_distinct_teacher : ProcessState → ℕ → ℕ → Result (Unit {0})
ensure_distinct_teacher s activity teacher =
    raise_unless (not (holds_position s.assignments activity teacher))
      teacher_already_occupies_position

unfoldable pub ensure_fits_target : ProcessState → Participant → HourRequirement → Result (Unit {0})
unfolding compute_participant_assigned_hours
ensure_fits_target s p r =
    raise_unless
      (leb (compute_participant_assigned_hours s p + r.required_teacher_hours)
        (target_weekly_hours p))
      requirement_needs_more_hours

-- the repair's witness, where its code is REPAIRED
abbrev pub repaired_witness : WitnessRepairResult → Option (List FeasibilityWitnessEntry)
repaired_witness result = elim (result.code) [
  | WitnessRepairCode.repaired ↦ result.witness
  | _ ↦ none
]

-- The row of a new occupancy, but for its id; the activity is the requirement's own.
pub record Choice : Type 0 where
  pub source : AssignmentSource
  pub chosen_by_user_id : ℕ
  pub confirmed_by_user_id : Option ℕ
  pub notes : Option ℕ

abbrev pub new_assignment : ℕ → HourRequirement → Participant → Choice → Assignment
new_assignment fresh r p c = record {
  id = fresh;
  hour_requirement_id = r.id;
  teaching_activity_id = r.teaching_activity_id;
  process_teacher_id = p.id;
  source = c.source;
  status = AssignmentStatus.active;
  chosen_by_user_id = c.chosen_by_user_id;
  confirmed_by_user_id = c.confirmed_by_user_id;
  notes = c.notes;
}

-- the primary key of the table of assignments
abbrev pub is_used : ℕ → List Assignment → Bool
is_used i = any (λ (a : Assignment). a.id == i)

-- the two writes: the new assignment, and the requirement's status
unfoldable pub add_assignment : Assignment → ProcessState → ProcessState
add_assignment a s = record s {
  assignments = a ∷ s.assignments;
  requirements =
      set_requirement_status a.hour_requirement_id HourRequirementStatus.assigned s.requirements;
}

-- `_release_assignment`
unfoldable pub release_assignment : Assignment → ProcessState → ProcessState
release_assignment a s = record s {
  assignments = set_assignment_status a.id AssignmentStatus.cancelled s.assignments;
  requirements =
      set_requirement_status a.hour_requirement_id HourRequirementStatus.available s.requirements;
}

-- the guards that need no solver, in their order
unfoldable pub ensure_can_occupy : ProcessState → HourRequirement → Participant → Result (Unit {0})
unfolding ensure_slot_unassigned ensure_eligible_process_teacher ensure_distinct_teacher
    ensure_fits_target
ensure_can_occupy s r p = do
  raise_unless (is_available r) requirement_is_not_available
  ensure_slot_unassigned s r.id
  ensure_eligible_process_teacher p
  ensure_distinct_teacher s r.teaching_activity_id p.id
  ensure_fits_target s p r

module _ (digest : FingerprintPayload → ℕ) where
  -- `_ensure_fast_feasibility` under a plan that is FEASIBLE
  unfoldable pub screened_repair : ProcessState → ℕ → ℕ → Result (List FeasibilityWitnessEntry)
  unfolding build_remaining_assignment_state repair_for_selection
  screened_repair s requirement_id teacher_id = do
    state ← build_remaining_assignment_state s
    or_guard_error (compute_fast_feasibility_checks state requirement_id teacher_id) (λ fast. do
      raise_unless (is_safe fast) selection_would_strand
      repair ← repair_for_selection digest requirement_id teacher_id s
      or_raise (repaired_witness repair) witness_could_not_be_repaired)

  -- `_ensure_fast_feasibility`
  unfoldable pub ensure_fast_feasibility :
      ProcessState → ℕ → ℕ → Result (Option (List FeasibilityWitnessEntry))
  unfolding screened_repair
  ensure_fast_feasibility s requirement_id teacher_id = elim (s.plan) [
    | none ↦ ok none
    | some plan ↦
        if not (is_feasible plan.feasibility_status)
        then ok none
        else screened_repair s requirement_id teacher_id >>= λ witness. ok (some witness)
  ]

  -- `persist_repair`, where a witness was repaired
  unfoldable pub persist_if_repaired :
      ℕ → Option (List FeasibilityWitnessEntry) → ProcessState → Result ProcessState
  unfolding persist_repair
  persist_if_repaired now none s = ok s
  persist_if_repaired now (some witness) s = persist_repair digest now witness s

  -- `prevalidated` is `some` of `prevalidated_repair` where `feasibility_prevalidated` is set.
  unfoldable pub repair_to_persist :
      Option (Option (List FeasibilityWitnessEntry))
      → ProcessState
      → ℕ
      → ℕ
      → Result (Option (List FeasibilityWitnessEntry))
  unfolding ensure_fast_feasibility
  repair_to_persist (some witness) s requirement_id teacher_id = ok witness
  repair_to_persist none s requirement_id teacher_id =
      ensure_fast_feasibility s requirement_id teacher_id

  -- `_occupy_slot`: the new state, and the assignment. The id is drawn at random; the primary key
  -- refuses one that is taken.
  unfoldable pub occupy_slot :
      ℕ
      → ℕ
      → Choice
      → Option (Option (List FeasibilityWitnessEntry))
      → ℕ
      → ℕ
      → ProcessState
      → Result (ProcessState × Assignment)
  unfolding ensure_can_occupy repair_to_persist persist_if_repaired add_assignment
  occupy_slot now fresh choice prevalidated requirement_id teacher_id s = do
    r ← or_raise (find_requirement requirement_id s.requirements) internal_error
    p ← or_raise (find_participant teacher_id s.participants) internal_error
    ensure_can_occupy s r p
    witness ← repair_to_persist prevalidated s r.id p.id
    raise_unless (not (is_used fresh s.assignments)) internal_error
    let a = new_assignment fresh r p choice
    s' ← persist_if_repaired now witness (add_assignment a s)
    ok (s', a)
