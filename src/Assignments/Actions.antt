-- ===== src/Assignments/Actions.antt =====
-- The operations of `AssignmentController`: reparto_service/controllers/assignments.py. An operation
-- returns the committed state, or raises and leaves the state as it was.
use reparto_docente_m.Prelude.{
  ℕ, Bool, true, false, not, ◌&&◌, ◌||◌, ◌==◌, if◌then◌else◌, Option, none, some, List, [], ◌∷◌,
  map,
}
use reparto_docente_m.Feasibility.Types.{FeasibilityWitnessEntry}
use reparto_docente_m.Guards.Types.{WitnessRepairResult}
use reparto_docente_m.Meeting.Turns.{
  Meeting, SelectionTurn, SelectionTurnStatus, is_active, can_select, write_turn,
}
use reparto_docente_m.Meeting.Queue.{requeue_completed_turn}
use reparto_docente_m.Assignments.Rows.{
  HourRequirement, Participant, Assignment, AssignmentStatus, AssignmentSource, SelectionOrderMode,
  MeetingSession, AssignmentEvent, ProcessState, Result, ok, err, ◌>>=◌, ◌>>◌, raise_unless,
  or_raise, is_live, find_requirement, find_participant, find_assignment, find_meeting, created,
  direct_choice, updated, undone, reassigned, assignment_not_found, requirement_not_found,
  process_teacher_not_found, meeting_session_not_found, no_teacher_profile_linked,
  only_active_can_be_undone, requires_different_process_teacher, reassignment_would_strand,
  meeting_must_be_open, direct_selection_is_disabled, outside_active_strict_turn,
}
use reparto_docente_m.Assignments.Remaining.{FingerprintPayload}
use reparto_docente_m.Assignments.Witnesses.{invalidate, repair_for_reassignment}
use reparto_docente_m.Assignments.Occupy.{
  Choice, ensure_open, ensure_assignments_unblocked, ensure_eligible_process_teacher,
  ensure_distinct_teacher, ensure_fits_target, repaired_witness, release_assignment, occupy_slot,
}

-- `record_audit_event`
unfoldable pub audited :
    AssignmentEvent → ℕ → Option Assignment → Assignment → Option ℕ → ProcessState → ProcessState
audited event user before after reason s = record s {
  audit =
      record {
        event_type = event;
        actor_user_id = user;
        entity_id = after.id;
        before = before;
        after = after;
        reason = reason;
      }
      ∷ s.audit;
}

-- `_ensure_active_for_action`
unfoldable pub ensure_active_for_action : Assignment → Result (Unit {0})
ensure_active_for_action a = raise_unless (is_live a) only_active_can_be_undone

-- `_requeue_completed_turns`, in the meetings that can select
unfoldable pub requeue_completed_turns : ℕ → ℕ → ℕ → Option ℕ → ProcessState → ProcessState
unfolding requeue_completed_turn
requeue_completed_turns teacher user now reason s = record s {
  meetings =
      map
        (λ (x : MeetingSession). record x {
          meeting = requeue_completed_turn teacher user now reason x.meeting;
        })
        s.meetings;
}

-- `linked_process_teacher`
abbrev pub linked_process_teacher : ℕ → List Participant → Option Participant
linked_process_teacher user [] = none
linked_process_teacher user (p ∷ ps) =
    let rest = linked_process_teacher user ps in
    elim (p.user_id) [ none ↦ rest | some u ↦ if u == user then some p else rest ]

-- `_active_turn`
abbrev pub active_turn : List SelectionTurn → Option SelectionTurn
active_turn [] = none
active_turn (t ∷ ts) = if is_active t.status then some t else active_turn ts

abbrev pub is_active_turn_of : ℕ → List SelectionTurn → Bool
is_active_turn_of teacher turns = elim (active_turn turns) [
  | none ↦ false
  | some t ↦ t.process_teacher_id == teacher
]

abbrev pub is_strict : SelectionOrderMode → Bool
is_strict SelectionOrderMode.strict = true
is_strict _ = false

-- `_get_direct_selection_session`
unfoldable pub get_direct_selection_session : ℕ → ProcessState → Result MeetingSession
get_direct_selection_session meeting_id s = do
  x ← or_raise (find_meeting meeting_id s.meetings) meeting_session_not_found
  raise_unless (can_select x.meeting.status) meeting_must_be_open
  raise_unless (x.lan_access_enabled && x.direct_teacher_selection_enabled)
      direct_selection_is_disabled
  ok x

-- `_enforce_direct_turn`
unfoldable pub enforce_direct_turn : MeetingSession → ℕ → Result (Unit {0})
enforce_direct_turn x teacher =
    raise_unless (not (is_strict x.selection_mode) || is_active_turn_of teacher x.meeting.turns)
      outside_active_strict_turn

-- `_complete_active_turn_if_needed`
unfoldable pub complete_active_turn : ℕ → ℕ → Meeting → Meeting
complete_active_turn teacher now m = elim (active_turn m.turns) [
  | none ↦ m
  | some t ↦
      if t.process_teacher_id == teacher
      then record m {
        turns =
            write_turn
              (record t { status = SelectionTurnStatus.completed; completed_at = some now })
              m.turns;
      }
      else m
]

unfoldable pub complete_active_turn_if_needed : ℕ → ℕ → ℕ → ProcessState → ProcessState
unfolding complete_active_turn
complete_active_turn_if_needed meeting_id teacher now s = record s {
  meetings =
      map
        (λ (x : MeetingSession).
          if meeting_id == x.id
          then record x { meeting = complete_active_turn teacher now x.meeting }
          else x)
        s.meetings;
}

-- a repair that was made and failed stops the reassignment
abbrev pub reassignment_witness :
    Option WitnessRepairResult → Result (Option (List FeasibilityWitnessEntry))
reassignment_witness none = ok none
reassignment_witness (some repair) = elim (repaired_witness repair) [
  | none ↦ err reassignment_would_strand
  | some witness ↦ ok (some witness)
]

-- what an undone assignment leaves
unfoldable pub with_undone : ℕ → ℕ → Assignment → ℕ → ProcessState → ProcessState
unfolding release_assignment invalidate audited requeue_completed_turns
with_undone now user a reason s =
    let released = (invalidate (release_assignment a s)).0 in
    let after : Assignment = record a { status = AssignmentStatus.cancelled } in
    requeue_completed_turns a.process_teacher_id user now (some reason)
      (audited undone user (some a) after (some reason) released)

unfoldable pub undo_assignment : ℕ → ℕ → ℕ → ℕ → ProcessState → Result ProcessState
unfolding ensure_open ensure_active_for_action with_undone
undo_assignment now user assignment_id reason s = do
  ensure_open s
  a ← or_raise (find_assignment assignment_id s.assignments) assignment_not_found
  ensure_active_for_action a
  ok (with_undone now user a reason s)

-- the guards of a reassignment that need no solver, after the locks
unfoldable pub ensure_can_reassign :
    ProcessState → HourRequirement → Participant → Result (Unit {0})
unfolding ensure_eligible_process_teacher ensure_distinct_teacher ensure_fits_target
ensure_can_reassign s r replacement = do
  ensure_eligible_process_teacher replacement
  ensure_distinct_teacher s r.teaching_activity_id replacement.id
  ensure_fits_target s replacement r

module _ (digest : FingerprintPayload → ℕ) where
  unfoldable pub create_manual_assignment :
      ℕ → ℕ → ℕ → ℕ → ℕ → Option ℕ → ProcessState → Result ProcessState
  unfolding ensure_open ensure_assignments_unblocked audited
  create_manual_assignment now user fresh requirement_id teacher_id notes s = do
    ensure_open s
    ensure_assignments_unblocked s
    r ← or_raise (find_requirement requirement_id s.requirements) requirement_not_found
    p ← or_raise (find_participant teacher_id s.participants) process_teacher_not_found
    let choice : Choice = record {
      source = AssignmentSource.department_head;
      chosen_by_user_id = user;
      confirmed_by_user_id = none;
      notes = notes;
    }
    done ← occupy_slot digest now fresh choice none r.id p.id s
    ok (audited created user none done.1 none done.0)

  unfoldable pub create_direct_choice :
      ℕ → ℕ → ℕ → ℕ → ℕ → Option ℕ → ProcessState → Result ProcessState
  unfolding ensure_open ensure_assignments_unblocked get_direct_selection_session
      enforce_direct_turn complete_active_turn_if_needed audited
  create_direct_choice now user fresh meeting_id requirement_id notes s = do
    ensure_open s
    ensure_assignments_unblocked s
    x ← get_direct_selection_session meeting_id s
    p ← or_raise (linked_process_teacher user s.participants) no_teacher_profile_linked
    enforce_direct_turn x p.id
    r ← or_raise (find_requirement requirement_id s.requirements) requirement_not_found
    let choice : Choice = record {
      source = AssignmentSource.teacher_direct;
      chosen_by_user_id = user;
      confirmed_by_user_id = some user;
      notes = notes;
    }
    done ← occupy_slot digest now fresh choice none r.id p.id s
    ok (
        audited direct_choice user none done.1 none
          (complete_active_turn_if_needed x.id p.id now done.0))

  unfoldable pub reassign_assignment :
      ℕ → ℕ → ℕ → ℕ → ℕ → ℕ → Option ℕ → ProcessState → Result ProcessState
  unfolding ensure_open ensure_assignments_unblocked ensure_active_for_action ensure_can_reassign
      release_assignment audited requeue_completed_turns
  reassign_assignment now user fresh assignment_id teacher_id reason notes s = do
    ensure_open s
    ensure_assignments_unblocked s
    a ← or_raise (find_assignment assignment_id s.assignments) assignment_not_found
    ensure_active_for_action a
    r ← or_raise (find_requirement a.hour_requirement_id s.requirements) requirement_not_found
    replacement ← or_raise (find_participant teacher_id s.participants) process_teacher_not_found
    raise_unless (not (replacement.id == a.process_teacher_id)) requires_different_process_teacher
    ensure_can_reassign s r replacement
    repair ← repair_for_reassignment digest a r replacement.id s
    witness ← reassignment_witness repair
    let choice : Choice = record {
      source = AssignmentSource.department_head;
      chosen_by_user_id = user;
      confirmed_by_user_id = none;
      notes = notes;
    }
    done ←
        occupy_slot digest now fresh choice (some witness) r.id replacement.id
          (release_assignment a s)
    ok (
        requeue_completed_turns a.process_teacher_id user now (some reason)
          (audited reassigned user (some a) done.1 (some reason) done.0))

-- the column `notes` of the row with this id written
abbrev pub set_notes : ℕ → Option ℕ → List Assignment → List Assignment
set_notes i n = map (λ (x : Assignment). if i == x.id then record x { notes = n } else x)

-- `update_assignment`: the notes, where the body names them
unfoldable pub update_assignment : ℕ → ℕ → Option (Option ℕ) → ProcessState → Result ProcessState
unfolding ensure_open audited
update_assignment user assignment_id notes s = do
  ensure_open s
  a ← or_raise (find_assignment assignment_id s.assignments) assignment_not_found
  ok (elim notes [
    | none ↦ audited updated user (some a) a none s
    | some n ↦
        audited updated user (some a) (record a { notes = n }) none
          (record s { assignments = set_notes a.id n s.assignments })
  ])
