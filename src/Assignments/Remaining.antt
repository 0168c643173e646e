-- ===== src/Assignments/Remaining.antt =====
-- The solver's view of a process: `build_remaining_assignment_state` of services/selection_guards.py
-- and the snapshots of services/feasibility_witnesses.py, under reparto_service/.
use reparto_docente_m.Prelude.{
  ℕ, Bool, true, not, ◌&&◌, ◌||◌, ◌+◌, ◌-◌, ◌==◌, leb, ltb, if◌then◌else◌, Option, none, some, List,
  [], ◌∷◌, map, any, contains, keep, sum_by,
}
use reparto_docente_m.Prelude.Sort.{sort_by, sort_ids}
use reparto_docente_m.Prelude.Dict.{Dict, insert, keys}
use reparto_docente_m.Feasibility.Types
use reparto_docente_m.Feasibility.Types.{
  FeasibilityParticipant, FeasibilitySlot, FeasibilityState, FeasibilityWitnessEntry,
  new_participant, new_slot,
}
use reparto_docente_m.Feasibility.Evaluate.{participant_le, slot_le}
use reparto_docente_m.Assignments.Rows.{
  HourRequirement, Participant, Assignment, ProcessState, Result, ok, err, internal_error, ◌>>=◌,
  is_live, is_current, is_available, find_requirement, raise_unless, ◌>>◌,
}
use reparto_docente_m.Assignments.Hours.{target_weekly_hours, hours_for, is_occupied}

-- a `ValueError` of the solver's types, which no handler of a request expects
abbrev pub or_internal_error : {A : Type 0} → Types.Result A → Result A
or_internal_error (Types.ok a) = ok a
or_internal_error (Types.err e) = err internal_error

-- The hours that a participant holds are not above the target, or the constructor raises.
abbrev pub remaining_participant : Participant → ℕ → List ℕ → Result FeasibilityParticipant
remaining_participant p assigned occupied = do
  raise_unless (leb assigned (target_weekly_hours p)) internal_error
  or_internal_error (new_participant p.id (target_weekly_hours p - assigned) occupied)

abbrev pub slot_of : HourRequirement → Result FeasibilitySlot
slot_of r =
    or_internal_error
      (new_slot r.id r.teaching_activity_id r.position_index r.required_teacher_hours)

unfoldable pub slots_of_rows : List HourRequirement → Result (List FeasibilitySlot)
slots_of_rows [] = ok []
slots_of_rows (r ∷ rs) = do s ← slot_of r; ss ← slots_of_rows rs; ok (s ∷ ss)

-- `add` to a set
abbrev pub add_id : ℕ → List ℕ → List ℕ
add_id a xs = if contains xs a then xs else a ∷ xs

-- the activities whose positions the participant `i` holds, of assignments joined with their slots
abbrev pub occupied_activities : ℕ → List HourRequirement → List Assignment → List ℕ
occupied_activities i requirements [] = []
occupied_activities i requirements (a ∷ rest) =
    let others = occupied_activities i requirements rest in
    if is_live a && a.process_teacher_id == i
    then (elim (find_requirement a.hour_requirement_id requirements) [
      | none ↦ others
      | some r ↦ add_id a.teaching_activity_id others
    ])
    else others

unfoldable pub build_participants :
    ProcessState → List Participant → Result (List FeasibilityParticipant)
build_participants s [] = ok []
build_participants s (p ∷ ps) = do
  x ←
      remaining_participant p (sum_by (hours_for p.id s.requirements) s.assignments)
        (occupied_activities p.id s.requirements s.assignments)
  xs ← build_participants s ps
  ok (x ∷ xs)

-- an assigned requirement, of those whose row is there
abbrev pub is_assigned_row : ProcessState → HourRequirement → Bool
is_assigned_row s r = is_occupied s.assignments r.id

unfoldable pub build_available_slots : ProcessState → Result (List FeasibilitySlot)
unfolding slots_of_rows
build_available_slots s = do
  slots ← slots_of_rows (
      keep (λ (r : HourRequirement). is_current r && (is_available r && not (is_assigned_row s r)))
        s.requirements)
  ok (sort_by slot_le slots)

unfoldable pub build_remaining_assignment_state : ProcessState → Result FeasibilityState
unfolding build_participants build_available_slots
build_remaining_assignment_state s = do
  participants ← build_participants s (keep (λ (p : Participant). p.is_active) s.participants)
  slots ← build_available_slots s
  ok (record { participants = sort_by participant_le participants; slots = slots })

-- `ORDER BY teaching_activity_id, position_index, id`
abbrev pub requirement_le : HourRequirement → HourRequirement → Bool
requirement_le a b =
    ltb a.teaching_activity_id b.teaching_activity_id
    || (a.teaching_activity_id == b.teaching_activity_id
        && (ltb a.position_index b.position_index
            || (a.position_index == b.position_index && leb a.id b.id)))

abbrev pub assignment_le : Assignment → Assignment → Bool
assignment_le a b = leb a.hour_requirement_id b.hour_requirement_id

-- what `_fingerprint` hashes; the occupied activities are sorted there
pub record FingerprintPayload : Type 0 where
  pub participants : List FeasibilityParticipant
  pub slots : List FeasibilitySlot
  pub assignments : List FeasibilityWitnessEntry

pub record FeasibilitySnapshot : Type 0 where
  pub state : FeasibilityState
  pub fingerprint : FingerprintPayload
  pub fixed_assignments : List FeasibilityWitnessEntry

abbrev pub sorted_activities : FeasibilityParticipant → FeasibilityParticipant
sorted_activities p = record p { occupied_activity_ids = sort_ids p.occupied_activity_ids }

-- `fixed`, from a slot's id to its participant's
unfoldable pub fixed_pairs : List Assignment → Dict ℕ → Dict ℕ
fixed_pairs [] d = d
fixed_pairs (a ∷ rest) d = fixed_pairs rest (insert a.hour_requirement_id a.process_teacher_id d)

abbrev pub find_slot : ℕ → List FeasibilitySlot → Option FeasibilitySlot
find_slot i [] = none
find_slot i (s ∷ ss) = if i == s.slot_id then some s else find_slot i ss

-- `slot_by_id[slot_id]` raises `KeyError` for a fixed pair whose slot is not among the slots.
abbrev pub all_known : List FeasibilitySlot → Dict ℕ → Bool
all_known slots [] = true
all_known slots ((slot, participant) ∷ d) =
    any (λ (s : FeasibilitySlot). slot == s.slot_id) slots && all_known slots d

abbrev pub fixed_units : ℕ → List FeasibilitySlot → Dict ℕ → ℕ
fixed_units i slots [] = 0
fixed_units i slots ((slot, participant) ∷ d) =
    (if participant == i
      then (elim (find_slot slot slots) [ none ↦ 0 | some s ↦ s.hours_units ])
      else 0)
    + fixed_units i slots d

abbrev pub fixed_activities : ℕ → List FeasibilitySlot → Dict ℕ → List ℕ
fixed_activities i slots [] = []
fixed_activities i slots ((slot, participant) ∷ d) =
    let others = fixed_activities i slots d in
    if participant == i
    then (elim (find_slot slot slots) [ none ↦ others | some s ↦ add_id s.activity_id others ])
    else others

unfoldable pub snapshot_participants :
    List FeasibilitySlot → Dict ℕ → List Participant → Result (List FeasibilityParticipant)
snapshot_participants slots fixed [] = ok []
snapshot_participants slots fixed (p ∷ ps) = do
  x ← remaining_participant p (fixed_units p.id slots fixed) (fixed_activities p.id slots fixed)
  xs ← snapshot_participants slots fixed ps
  ok (x ∷ xs)

abbrev pub entries_of : Dict ℕ → List FeasibilityWitnessEntry
entries_of = map (λ (e : ℕ × ℕ). record { slot_id = e.0; participant_id = e.1 })

abbrev pub pair_le : ℕ × ℕ → ℕ × ℕ → Bool
pair_le a b = leb a.0 b.0

-- `_snapshot_from_slots`; the participants stand in the order in which the query returns them
unfoldable pub snapshot_from_slots :
    ProcessState → List FeasibilitySlot → Dict ℕ → Result FeasibilitySnapshot
unfolding snapshot_participants
snapshot_from_slots s slots fixed = do
  raise_unless (all_known slots fixed) internal_error
  participants ←
      snapshot_participants slots fixed (keep (λ (p : Participant). p.is_active) s.participants)
  let pairs = entries_of (sort_by pair_le fixed)
  ok (record {
    state = record {
      participants = participants;
      slots = keep (λ (x : FeasibilitySlot). not (contains (keys fixed) x.slot_id)) slots;
    };
    fingerprint = record {
      participants = map sorted_activities participants;
      slots = slots;
      assignments = pairs;
    };
    fixed_assignments = pairs;
  })

unfoldable pub build_feasibility_snapshot : ProcessState → Result FeasibilitySnapshot
unfolding slots_of_rows fixed_pairs snapshot_from_slots
build_feasibility_snapshot s = do
  slots ← slots_of_rows (sort_by requirement_le (keep is_current s.requirements))
  snapshot_from_slots s slots (fixed_pairs (sort_by assignment_le (keep is_live s.assignments)) [])
