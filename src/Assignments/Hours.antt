-- ===== src/Assignments/Hours.antt =====
-- `AssignmentCalculationService` of reparto_service/services/calculations.py. Stored hours have two
-- places, so on them and on their sums and differences `quantize_hours` changes nothing.
use reparto_docente_m.Prelude.{
  ℕ, Bool, not, ◌&&◌, ◌||◌, ◌+◌, ◌-◌, ◌==◌, leb, ltb, if◌then◌else◌, none, some, List, [], ◌∷◌, map,
  any, keep, length, sum_by,
}
use reparto_docente_m.Prelude.Int.{ℤ, sub_ℕ, is_positive}
use reparto_docente_m.Prelude.Sort.{sort_by}
use reparto_docente_m.Prelude.Dict.{Dict, find_or, insert, values}
use reparto_docente_m.Lifecycle.Status.{HourRequirementStatus}
use reparto_docente_m.Assignments.Rows.{
  HourRequirement, Participant, Assignment, ProcessState, is_live, is_current, find_requirement,
}

-- `target_weekly_hours`
abbrev pub target_weekly_hours : Participant → ℕ
target_weekly_hours p = p.base_weekly_hours + p.extra_weekly_hours

-- the hours of the requirement that an assignment is joined with; the join drops an assignment
-- whose requirement is not there
abbrev pub hours_by_id : ℕ → List HourRequirement → ℕ
hours_by_id i requirements = elim (find_requirement i requirements) [
  | none ↦ 0
  | some r ↦ r.required_teacher_hours
]

-- what an assignment adds to the hours of the participant `i`
abbrev pub hours_for : ℕ → List HourRequirement → Assignment → ℕ
hours_for i requirements a =
    if is_live a && a.process_teacher_id == i
    then hours_by_id a.hour_requirement_id requirements
    else 0

unfoldable pub compute_participant_assigned_hours : ProcessState → Participant → ℕ
compute_participant_assigned_hours s p = sum_by (hours_for p.id s.requirements) s.assignments

unfoldable pub compute_participant_remaining_hours : ProcessState → Participant → ℤ
unfolding compute_participant_assigned_hours
compute_participant_remaining_hours s p =
    sub_ℕ (target_weekly_hours p) (compute_participant_assigned_hours s p)

pub data ParticipantBalanceState : Type 0 where
  pending balanced not_participating overloaded_authorized inactive : ParticipantBalanceState

unfoldable pub compute_participant_state : Participant → ℤ → ParticipantBalanceState
compute_participant_state p remaining =
    if not p.is_active
    then inactive
    else if not p.participates_in_selection
    then not_participating
    else if ltb 0 p.extra_weekly_hours
    then overloaded_authorized
    else if is_positive remaining
    then pending
    else balanced

-- an active assignment occupies the requirement
abbrev pub is_occupied : List Assignment → ℕ → Bool
is_occupied assignments i =
    any (λ (a : Assignment). a.hour_requirement_id == i && is_live a) assignments

unfoldable pub compute_requirement_state : ProcessState → HourRequirement → HourRequirementStatus
compute_requirement_state s r = elim (r.status) [
  | HourRequirementStatus.stale ↦ HourRequirementStatus.stale
  | HourRequirementStatus.reconciliation_required ↦ HourRequirementStatus.reconciliation_required
  | _ ↦
      if is_occupied s.assignments r.id
      then HourRequirementStatus.assigned
      else HourRequirementStatus.available
]

pub record ParticipantBalance : Type 0 where
  pub process_teacher_id : ℕ
  pub display_name : ℕ
  pub base_weekly_hours : ℕ
  pub extra_weekly_hours : ℕ
  pub target_weekly_hours : ℕ
  pub assigned_weekly_hours : ℕ
  pub remaining_weekly_hours : ℤ
  pub is_overloaded : Bool
  pub assignment_count : ℕ
  pub state : ParticipantBalanceState

pub record AssignmentSummary : Type 0 where
  pub total_target_hours : ℕ
  pub total_assigned_hours : ℕ
  pub total_remaining_hours : ℤ
  pub total_slots : ℕ
  pub assigned_slots : ℕ
  pub available_slots : ℕ
  pub participants : List ParticipantBalance

-- the rows of the query: a participant's id and the hours of a slot
unfoldable pub assignment_rows : List HourRequirement → List Assignment → List (ℕ × ℕ)
assignment_rows requirements [] = []
assignment_rows requirements (a ∷ rest) =
    let rows = assignment_rows requirements rest in
    if is_live a
    then (elim (find_requirement a.hour_requirement_id requirements) [
      | none ↦ rows
      | some r ↦ (a.process_teacher_id, r.required_teacher_hours) ∷ rows
    ])
    else rows

-- the loop that fills `assigned_by_teacher` and `count_by_teacher`
unfoldable pub group_rows : List (ℕ × ℕ) → Dict ℕ → Dict ℕ
group_rows [] d = d
group_rows ((teacher, hours) ∷ rows) d =
    group_rows rows (insert teacher (find_or d teacher 0 + hours) d)

unfoldable pub count_rows : List (ℕ × ℕ) → Dict ℕ → Dict ℕ
count_rows [] d = d
count_rows ((teacher, hours) ∷ rows) d =
    count_rows rows (insert teacher (find_or d teacher 0 + 1) d)

unfoldable pub participant_balance : Dict ℕ → Dict ℕ → Participant → ParticipantBalance
unfolding compute_participant_state
participant_balance assigned counts p =
    let remaining = sub_ℕ (target_weekly_hours p) (find_or assigned p.id 0) in
    record {
      process_teacher_id = p.id;
      display_name = p.display_name;
      base_weekly_hours = p.base_weekly_hours;
      extra_weekly_hours = p.extra_weekly_hours;
      target_weekly_hours = target_weekly_hours p;
      assigned_weekly_hours = find_or assigned p.id 0;
      remaining_weekly_hours = remaining;
      is_overloaded = ltb 0 p.extra_weekly_hours;
      assignment_count = find_or counts p.id 0;
      state = compute_participant_state p remaining;
    }

abbrev pub balance_le : ParticipantBalance → ParticipantBalance → Bool
balance_le a b =
    ltb a.display_name b.display_name
    || (a.display_name == b.display_name && leb a.process_teacher_id b.process_teacher_id)

abbrev pub sum_ids : List ℕ → ℕ
sum_ids = sum_by (λ (n : ℕ). n)

unfoldable pub compute_assignment_summary : ProcessState → AssignmentSummary
unfolding assignment_rows group_rows count_rows participant_balance
compute_assignment_summary s =
    let rows = assignment_rows s.requirements s.assignments in
    let assigned = group_rows rows [] in
    let total_target =
      sum_by (λ (p : Participant). if p.is_active then target_weekly_hours p else 0)
        s.participants in
    let live = keep is_current s.requirements in
    let taken = keep (λ (r : HourRequirement). is_occupied s.assignments r.id) live in
    record {
      total_target_hours = total_target;
      total_assigned_hours = sum_ids (values assigned);
      total_remaining_hours = sub_ℕ total_target (sum_ids (values assigned));
      total_slots = length live;
      assigned_slots = length taken;
      available_slots = length live - length taken;
      participants =
          sort_by balance_le
            (map (participant_balance assigned (count_rows rows [])) s.participants);
    }
