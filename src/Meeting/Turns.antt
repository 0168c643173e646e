-- ===== src/Meeting/Turns.antt =====
-- The turn actions of reparto_service/controllers/selection_turns.py on one meeting session. A row
-- is found by its id; the session is committed as a whole, so an action returns the new rows or
-- raises and changes nothing. Timestamps are numbers, free text is a number that names it.
use reparto_docente_m.Prelude.{
  ℕ, Bool, true, false, not, ◌&&◌, ◌||◌, ◌==◌, if◌then◌else◌, Option, none, some, List, [], ◌∷◌,
  map, any, contains, leb, suc,
}
use reparto_docente_m.Prelude.Sort.{sort_by}
use reparto_docente_m.Lifecycle.Process.{AssignmentProcessStatus}

pub data SelectionTurnStatus : Type 0 where
  pending active completed skipped overridden : SelectionTurnStatus

pub data MeetingSessionStatus : Type 0 where
  prepared open_session selecting paused closed reopened : MeetingSessionStatus

pub record SelectionTurn : Type 0 where
  pub id : ℕ
  pub process_teacher_id : ℕ
  pub position : ℕ
  pub status : SelectionTurnStatus
  pub started_at : Option ℕ
  pub completed_at : Option ℕ
  pub skipped_at : Option ℕ
  pub skip_reason : Option ℕ
  pub notes : Option ℕ
  pub forced_by_user_id : Option ℕ

-- the columns of `ProcessTeacher` that the queue is built from
pub record ProcessTeacher : Type 0 where
  pub id : ℕ
  pub is_active : Bool
  pub participates_in_selection : Bool
  pub selection_position : Option ℕ

-- `AuditEventType`, its members for turns
pub data TurnEvent : Type 0 where
  turn_started turn_completed turn_skipped turn_overridden turn_reentered turn_recomputed :
      TurnEvent

pub record AuditEvent : Type 0 where
  pub event_type : TurnEvent
  pub actor_user_id : ℕ
  pub before : SelectionTurn
  pub after : SelectionTurn
  pub reason : Option ℕ

-- The process, one meeting session of it, the session's turns and the audit trail.
pub record Meeting : Type 0 where
  pub process_status : AssignmentProcessStatus
  pub status : MeetingSessionStatus
  pub turns : List SelectionTurn
  pub audit : List AuditEvent

-- `DomainHTTPException`, by its code
pub data TurnError : Type 0 where
  cannot_mutate_process session_must_be_open turn_not_found turn_already_active : TurnError
  only_pending_can_start only_active_can_complete only_pending_or_active_can_skip : TurnError
  turns_already_exist needs_selection_position duplicate_positions : TurnError
  assignment_must_target_turn_teacher assignment_refused : TurnError

pub data Result (A : Type 0) : Type 0 where
  ok : A → Result A
  err : TurnError → Result A

infixl 5 ◌>>=◌ ◌>>◌
abbrev pub ◌>>=◌ : {A B : Type 0} → Result A → (A → Result B) → Result B
ok a >>= f = f a
err e >>= f = err e

abbrev pub ◌>>◌ : {B : Type 0} → Result (Unit {0}) → Result B → Result B
m >> k = m >>= λ _. k

abbrev pub raise_unless : Bool → TurnError → Result (Unit {0})
raise_unless b e = if b then ok tt else err e

abbrev pub is_mutable : AssignmentProcessStatus → Bool
is_mutable AssignmentProcessStatus.final = false
is_mutable AssignmentProcessStatus.archived = false
is_mutable _ = true

abbrev pub can_select : MeetingSessionStatus → Bool
can_select open_session = true
can_select selecting = true
can_select reopened = true
can_select _ = false

abbrev pub is_active : SelectionTurnStatus → Bool
is_active active = true
is_active _ = false

abbrev pub is_pending : SelectionTurnStatus → Bool
is_pending pending = true
is_pending _ = false

-- `ensure_process_mutable`
unfoldable pub ensure_process_mutable : Meeting → Result (Unit {0})
ensure_process_mutable m = raise_unless (is_mutable m.process_status) cannot_mutate_process

-- `_ensure_session_can_select`
unfoldable pub ensure_session_can_select : Meeting → Result (Unit {0})
unfolding ensure_process_mutable
ensure_session_can_select m = do
  ensure_process_mutable m
  raise_unless (can_select m.status) session_must_be_open

-- `_get_or_404`
abbrev pub find_turn : ℕ → List SelectionTurn → Result SelectionTurn
find_turn i [] = err turn_not_found
find_turn i (t ∷ ts) = if i == t.id then ok t else find_turn i ts

-- `_ensure_no_active_turn`
unfoldable pub ensure_no_active_turn : Meeting → Result (Unit {0})
ensure_no_active_turn m =
    raise_unless (not (any (λ (t : SelectionTurn). is_active t.status) m.turns)) turn_already_active

-- `_ensure_active_turn`
unfoldable pub ensure_active_turn : SelectionTurn → Result (Unit {0})
ensure_active_turn turn = raise_unless (is_active turn.status) only_active_can_complete

-- `session.add(turn)`: the row with the turn's id is written.
abbrev pub write_turn : SelectionTurn → List SelectionTurn → List SelectionTurn
write_turn turn = map (λ (t : SelectionTurn). if turn.id == t.id then turn else t)

-- the changed turn written, with its audit event
unfoldable pub store : TurnEvent → ℕ → SelectionTurn → SelectionTurn → Option ℕ → Meeting → Meeting
store event user before after reason m = record m {
  turns = write_turn after m.turns;
  audit =
      record {
        event_type = event;
        actor_user_id = user;
        before = before;
        after = after;
        reason = reason;
      }
      ∷ m.audit;
}

abbrev pub first_of_two : Option ℕ → Option ℕ → Option ℕ
first_of_two (some a) b = some a
first_of_two none b = b

-- the changes of `start_turn`, `complete_turn`, `skip_turn` and `override_turn` to the row
abbrev pub started : ℕ → SelectionTurn → SelectionTurn
started now t = record t { status = active; started_at = some now }

abbrev pub finished : ℕ → Option ℕ → SelectionTurn → SelectionTurn
finished now notes t = record t {
  status = completed;
  completed_at = some now;
  notes = first_of_two notes t.notes;
}

abbrev pub passed : ℕ → Option ℕ → Option ℕ → SelectionTurn → SelectionTurn
passed now reason notes t = record t {
  status = skipped;
  skip_reason = reason;
  notes = first_of_two notes t.notes;
  skipped_at = some now;
}

abbrev pub forced : ℕ → ℕ → Option ℕ → Option ℕ → SelectionTurn → SelectionTurn
forced now user reason notes t = record t {
  status = overridden;
  skip_reason = reason;
  notes = first_of_two notes t.notes;
  forced_by_user_id = some user;
  skipped_at = first_of_two t.skipped_at (some now);
}

unfoldable pub start_turn : ℕ → ℕ → ℕ → Meeting → Result Meeting
unfolding ensure_session_can_select ensure_no_active_turn store
start_turn now user turn_id m = do
  ensure_session_can_select m
  turn ← find_turn turn_id m.turns
  ensure_no_active_turn m
  raise_unless (is_pending turn.status) only_pending_can_start
  ok (store turn_started user turn (started now turn) none (record m { status = selecting }))

-- `_record_turn_assignment`, from the teacher that the payload names and what the assignment
-- service answered for it
unfoldable pub record_turn_assignment :
    SelectionTurn → Option (ℕ × Result (Unit {0})) → Result (Unit {0})
record_turn_assignment turn none = ok tt
record_turn_assignment turn (some (teacher, recorded)) = do
  raise_unless (teacher == turn.process_teacher_id) assignment_must_target_turn_teacher
  recorded

unfoldable pub complete_turn :
    ℕ → ℕ → ℕ → Option (ℕ × Result (Unit {0})) → Option ℕ → Meeting → Result Meeting
unfolding ensure_session_can_select ensure_active_turn record_turn_assignment store
complete_turn now user turn_id assignment notes m = do
  ensure_session_can_select m
  turn ← find_turn turn_id m.turns
  ensure_active_turn turn
  record_turn_assignment turn assignment
  ok (store turn_completed user turn (finished now notes turn) none m)

unfoldable pub skip_turn : ℕ → ℕ → ℕ → Option ℕ → Option ℕ → Meeting → Result Meeting
unfolding ensure_session_can_select store
skip_turn now user turn_id reason notes m = do
  ensure_session_can_select m
  turn ← find_turn turn_id m.turns
  raise_unless (is_pending turn.status || is_active turn.status) only_pending_or_active_can_skip
  ok (store turn_skipped user turn (passed now reason notes turn) reason m)

unfoldable pub override_turn : ℕ → ℕ → ℕ → Option ℕ → Option ℕ → Meeting → Result Meeting
unfolding ensure_session_can_select store
override_turn now user turn_id reason notes m = do
  ensure_session_can_select m
  turn ← find_turn turn_id m.turns
  ok (store turn_overridden user turn (forced now user reason notes turn) reason m)

-- `_ordered_teachers`
abbrev pub participating : List ProcessTeacher → List ProcessTeacher
participating [] = []
participating (p ∷ ps) =
    if p.is_active && p.participates_in_selection then p ∷ participating ps else participating ps

abbrev pub position_or : Option ℕ → ℕ
position_or none = 0
position_or (some n) = n

abbrev pub has_position : ProcessTeacher → Bool
has_position p = elim (p.selection_position) [ none ↦ false | some n ↦ true ]

-- `any(position is None for position in positions)` over a list that is not empty
abbrev pub every_position : List ProcessTeacher → Bool
every_position [] = true
every_position (p ∷ ps) = has_position p && every_position ps

abbrev pub is_some_list : List ProcessTeacher → Bool
is_some_list [] = false
is_some_list (p ∷ ps) = true

abbrev pub positions : List ProcessTeacher → List ℕ
positions = map (λ (p : ProcessTeacher). position_or p.selection_position)

-- `len(set(xs)) == len(xs)`
abbrev pub all_different : List ℕ → Bool
all_different [] = true
all_different (x ∷ xs) = not (contains xs x) && all_different xs

unfoldable pub ordered_teachers : List ProcessTeacher → Result (List ProcessTeacher)
ordered_teachers rows = do
  let teachers = participating rows
  raise_unless (is_some_list teachers && every_position teachers) needs_selection_position
  raise_unless (all_different (positions teachers)) duplicate_positions
  ok (
      sort_by
        (λ (a b : ProcessTeacher).
          leb (position_or a.selection_position) (position_or b.selection_position))
        teachers)

-- the new rows, with consecutive ids from the first one that is free
abbrev pub new_turns : ℕ → List ProcessTeacher → List SelectionTurn
new_turns next [] = []
new_turns next (p ∷ ps) =
    record {
      id = next;
      process_teacher_id = p.id;
      position = position_or p.selection_position;
      status = pending;
      started_at = none;
      completed_at = none;
      skipped_at = none;
      skip_reason = none;
      notes = none;
      forced_by_user_id = none;
    }
    ∷ new_turns (suc next) ps

abbrev pub no_turns : List SelectionTurn → Bool
no_turns [] = true
no_turns (t ∷ ts) = false

unfoldable pub initialize_turns : ℕ → List ProcessTeacher → Meeting → Result Meeting
unfolding ensure_process_mutable ordered_teachers
initialize_turns next rows m = do
  ensure_process_mutable m
  raise_unless (no_turns m.turns) turns_already_exist
  teachers ← ordered_teachers rows
  ok (record m { turns = new_turns next teachers })
