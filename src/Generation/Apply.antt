-- ===== src/Generation/Apply.antt =====
-- What `generate` and `reconcile` of reparto_service/controllers/hour_requirements.py write. Their
-- gates on the feasibility of the new state stand before and after these writes and are left out.
use reparto_docente_m.Prelude.{
  ℕ, ◌==◌, if◌then◌else◌, none, some, List, [], ◌∷◌, ◌++◌, map, contains,
}
use reparto_docente_m.Lifecycle.Status.{HourRequirementStatus}
use reparto_docente_m.Assignments.Rows.{
  HourRequirement, Assignment, AssignmentStatus, ProcessState, set_assignment_status,
}
use reparto_docente_m.Generation.Diff.{NewSlot, Conflict, GenerationPlan}

-- the ids of the rows of a list
abbrev pub requirement_ids : List HourRequirement → List ℕ
requirement_ids = map (λ (r : HourRequirement). r.id)

-- the rows with these ids are validated for the generation
abbrev pub preserve : ℕ → List ℕ → List HourRequirement → List HourRequirement
preserve number ids = map (λ (r : HourRequirement).
    if contains ids r.id then record r { last_validated_generation = number } else r)

-- the rows with these ids are retired
abbrev pub retire : ℕ → List ℕ → List HourRequirement → List HourRequirement
retire number ids = map (λ (r : HourRequirement).
    if contains ids r.id
    then record r { retired_generation = some number; status = HourRequirementStatus.stale }
    else r)

-- `_insert_slot`
unfoldable pub insert_slot : ℕ → NewSlot → HourRequirement
insert_slot number n = record {
  id = n.requirement_id;
  teaching_activity_id = n.teaching_activity_id;
  position_index = n.position_index;
  required_teacher_hours = n.hours;
  status = HourRequirementStatus.available;
  created_generation = number;
  last_validated_generation = number;
  retired_generation = none;
  superseded_by_requirement_id = none;
}

-- the writes of `generate` on the requirements
unfoldable pub apply_generation : GenerationPlan → List HourRequirement → List HourRequirement
unfolding insert_slot
apply_generation g rs =
    let number = g.next_generation_number in
    map (insert_slot number) g.to_create
    ++ retire number (requirement_ids g.to_retire)
        (preserve number (requirement_ids g.to_preserve) rs)

-- the requirements of the conflicts, and the new slots of those whose hours have changed
abbrev pub conflict_ids : List Conflict → List ℕ
conflict_ids = map (λ (c : Conflict). c.requirement.id)

-- the assignments of the conflicts are cancelled
unfoldable pub release_conflicts : List Conflict → List Assignment → List Assignment
release_conflicts [] xs = xs
release_conflicts (c ∷ cs) xs =
    release_conflicts cs (set_assignment_status c.assignment.id AssignmentStatus.cancelled xs)

module _ (prospective_requirement_id : ℕ → ℕ → ℕ → ℕ → ℕ) where
  -- the replacement of a slot whose hours have changed
  abbrev pub replacement_of : ℕ → ℕ → Conflict → ℕ → NewSlot
  replacement_of plan_id number c hours = record {
    requirement_id =
        prospective_requirement_id plan_id number c.requirement.teaching_activity_id
          c.requirement.position_index;
    teaching_activity_id = c.requirement.teaching_activity_id;
    position_index = c.requirement.position_index;
    hours = hours;
  }

  -- the replacement is inserted, and the old row names it
  unfoldable pub supersede_one : ℕ → ℕ → Conflict → List HourRequirement → List HourRequirement
  unfolding insert_slot
  supersede_one plan_id number c rs = elim (c.new_hours) [
    | none ↦ rs
    | some hours ↦
        let n = replacement_of plan_id number c hours in
        insert_slot number n
        ∷ map
            (λ (r : HourRequirement).
              if c.requirement.id == r.id
              then record r { superseded_by_requirement_id = some n.requirement_id }
              else r)
            rs
  ]

  unfoldable pub supersede : ℕ → ℕ → List Conflict → List HourRequirement → List HourRequirement
  unfolding supersede_one
  supersede plan_id number [] rs = rs
  supersede plan_id number (c ∷ cs) rs =
      supersede plan_id number cs (supersede_one plan_id number c rs)

  -- the writes of `reconcile` on the requirements and the assignments
  unfoldable pub apply_reconciliation : ℕ → GenerationPlan → ProcessState → ProcessState
  unfolding apply_generation supersede release_conflicts
  apply_reconciliation plan_id g s = record s {
    requirements = supersede plan_id g.next_generation_number g.conflicts (
        apply_generation
          (record g {
            to_retire = g.to_retire ++ map (λ (c : Conflict). c.requirement) g.conflicts;
          })
          s.requirements);
    assignments = release_conflicts g.conflicts s.assignments;
  }
