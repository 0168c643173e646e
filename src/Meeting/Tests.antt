-- ===== src/Meeting/Tests.antt =====
-- A meeting with two turns, and the theorems at it.
use reparto_docente_m.Prelude.{ℕ, none, some, List, [], ◌∷◌, ◌≡◌, refl, inl, arith}
use reparto_docente_m.Lifecycle.Process
use reparto_docente_m.Meeting.Turns.{
  SelectionTurn, Meeting, open_session, pending, active, completed,
}
use reparto_docente_m.Meeting.Invariant.{
  TurnAction, start, complete, perform, perform_all, IsValid, perform_all-IsValid,
  closed_meeting_is_kept,
}

abbrev turn : ℕ → ℕ → SelectionTurn
turn i teacher = record {
  id = i;
  process_teacher_id = teacher;
  position = i;
  status = pending;
  started_at = none;
  completed_at = none;
  skipped_at = none;
  skip_reason = none;
  notes = none;
  forced_by_user_id = none;
}

abbrev meeting : Meeting
meeting = record {
  process_status = Process.meeting_open;
  status = open_session;
  turns = turn 1 71 ∷ turn 2 72 ∷ [];
  audit = [];
}

-- The second start is refused: a turn is active.
abbrev actions : List (ℕ × ℕ × TurnAction)
actions =
    (10, 5, start 1) ∷ (11, 5, start 2) ∷ (12, 5, complete 1 none none) ∷ (13, 5, start 2) ∷ []

perform_all_statuses :
    let ts = (perform_all actions meeting).turns in
    ts
    ≡ record (turn 1 71) { status = completed; started_at = some 10; completed_at = some 12 }
      ∷ record (turn 2 72) { status = active; started_at = some 13 }
      ∷ []
unfolding perform
perform_all_statuses = refl

perform_all-IsValid_example : IsValid (perform_all actions meeting)
perform_all-IsValid_example = perform_all-IsValid actions meeting (ground arith)

-- The department has signed the assignment off, and its meeting is still open.
closed_meeting_is_kept_example :
    perform_all actions (record meeting { process_status = Process.final })
    ≡ record meeting { process_status = Process.final }
closed_meeting_is_kept_example =
    closed_meeting_is_kept actions (record meeting { process_status = Process.final }) (inl refl)
