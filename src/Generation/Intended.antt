-- ===== src/Generation/Intended.antt =====
-- The solver's view of what the next generation would leave: `_intended_slots` and
-- `build_intended_feasibility_snapshot` of reparto_service/services/feasibility_witnesses.py.
use reparto_docente_m.Prelude.{
  ℕ, Bool, ◌+◌, ◌==◌, leb, if◌then◌else◌, Option, none, some, List, [], ◌∷◌, keep,
}
use reparto_docente_m.Prelude.Sort.{sort_by}
use reparto_docente_m.Prelude.Dict.{Dict, insert}
use reparto_docente_m.Feasibility.Types.{FeasibilitySlot, new_slot}
use reparto_docente_m.Assignments.Rows.{
  HourRequirement, Assignment, TeachingPlan, ProcessState, Result, ok, ◌>>=◌, is_current,
}
use reparto_docente_m.Assignments.Remaining.{
  FeasibilitySnapshot, snapshot_from_slots, or_internal_error,
}
use reparto_docente_m.Generation.Diff.{
  TeachingActivity, Target, positions_of, is_live_activity, find_live, find_active,
}

-- the live row of a position, where its hours are those of the position
abbrev pub matching_row : List HourRequirement → Target → Option HourRequirement
matching_row live t = elim (find_live t.teaching_activity_id t.position_index live) [
  | none ↦ none
  | some r ↦ if r.required_teacher_hours == t.hours then some r else none
]

-- the pair of a slot that stays as it is and has an active assignment
abbrev pub fix_slot : ℕ → Option Assignment → Dict ℕ → Dict ℕ
fix_slot slot_id none fixed = fixed
fix_slot slot_id (some a) fixed = insert slot_id a.process_teacher_id fixed

abbrev pub activity_le : TeachingActivity → TeachingActivity → Bool
activity_le a b = leb a.id b.id

module _ (prospective_requirement_id : ℕ → ℕ → ℕ → ℕ → ℕ) where
  abbrev pub intended_slot_id : TeachingPlan → Target → Option HourRequirement → ℕ
  intended_slot_id plan t none =
      prospective_requirement_id plan.id (plan.current_generation_number + 1) t.teaching_activity_id
        t.position_index
  intended_slot_id plan t (some r) = r.id

  -- the loops over the positions, with the fixed pairs so far
  unfoldable pub intended_positions :
      TeachingPlan
      → List HourRequirement
      → List Assignment
      → List Target
      → Dict ℕ
      → Result (List FeasibilitySlot × Dict ℕ)
  intended_positions plan live assignments [] fixed = ok ([], fixed)
  intended_positions plan live assignments (t ∷ ts) fixed =
      let row = matching_row live t in
      let slot_id = intended_slot_id plan t row in
      let taken : Option Assignment = elim row [
        | none ↦ none
        | some r ↦ find_active r.id assignments
      ] in
      let rest = intended_positions plan live assignments ts (fix_slot slot_id taken fixed) in
      or_internal_error (new_slot slot_id t.teaching_activity_id t.position_index t.hours)
      >>= λ slot. rest >>= λ done. ok (slot ∷ done.0, done.1)

  -- `_intended_slots`
  unfoldable pub intended_slots :
      TeachingPlan
      → List TeachingActivity
      → List HourRequirement
      → List Assignment
      → Result (List FeasibilitySlot × Dict ℕ)
  unfolding intended_positions
  intended_slots plan activities live assignments =
      intended_positions plan live assignments
        (positions_of (sort_by activity_le (keep is_live_activity activities))) []

  unfoldable pub build_intended_feasibility_snapshot :
      List TeachingActivity → TeachingPlan → ProcessState → Result FeasibilitySnapshot
  unfolding intended_slots snapshot_from_slots
  build_intended_feasibility_snapshot activities plan s = do
    slots ← intended_slots plan activities (keep is_current s.requirements) s.assignments
    snapshot_from_slots s slots.0 slots.1
