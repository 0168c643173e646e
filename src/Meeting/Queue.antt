-- ===== src/Meeting/Queue.antt =====
-- `_requeue_completed_turns`, `_reset_turn_to_pending` and `_recompute_current_turn` of
-- reparto_service/controllers/assignments.py, on one live meeting.
use reparto_docente_m.Prelude.{
  ℕ, Bool, true, false, not, ◌&&◌, ◌||◌, ◌==◌, if◌then◌else◌, Option, none, some, List, [], ◌∷◌,
  keep, leb, ltb,
}
use reparto_docente_m.Prelude.Sort.{sort_by}
use reparto_docente_m.Meeting.Turns.{
  SelectionTurn, SelectionTurnStatus, Meeting, turn_reentered, turn_recomputed, can_select,
  is_active, is_pending, store, write_turn,
}

abbrev pub is_completed : SelectionTurnStatus → Bool
is_completed SelectionTurnStatus.completed = true
is_completed _ = false

unfoldable pub reset_turn_to_pending : SelectionTurn → SelectionTurn
reset_turn_to_pending t = record t {
  status = SelectionTurnStatus.pending;
  started_at = none;
  completed_at = none;
  skipped_at = none;
  skip_reason = none;
  forced_by_user_id = none;
}

-- the unfinished turns by position and id
abbrev pub turn_le : SelectionTurn → SelectionTurn → Bool
turn_le a b = ltb a.position b.position || (a.position == b.position && leb a.id b.id)

unfoldable pub unfinished_turns : List SelectionTurn → List SelectionTurn
unfinished_turns turns =
    sort_by turn_le (keep (λ (t : SelectionTurn). is_pending t.status || is_active t.status) turns)

abbrev pub as_current : ℕ → SelectionTurn → SelectionTurn
as_current now t = record t { status = SelectionTurnStatus.active; started_at = some now }

abbrev pub as_waiting : SelectionTurn → SelectionTurn
as_waiting t = record t { status = SelectionTurnStatus.pending; started_at = none }

-- the body of the loop: a turn that already has the expected status is left alone
unfoldable pub recompute_turn : ℕ → ℕ → ℕ → Option ℕ → Meeting → SelectionTurn → Meeting
unfolding store
recompute_turn current user now reason m t =
    if t.id == current
    then (if is_active t.status
        then m
        else store turn_recomputed user t (as_current now t) reason m)
    else (if is_pending t.status then m else store turn_recomputed user t (as_waiting t) reason m)

unfoldable pub recompute_turns : ℕ → ℕ → ℕ → Option ℕ → List SelectionTurn → Meeting → Meeting
unfolding recompute_turn
recompute_turns current user now reason [] m = m
recompute_turns current user now reason (t ∷ ts) m =
    recompute_turns current user now reason ts (recompute_turn current user now reason m t)

-- `turns[0]` raises on an empty list; the caller has just put one turn back to pending.
unfoldable pub recompute_current_turn : ℕ → ℕ → Option ℕ → Meeting → Meeting
unfolding recompute_turns unfinished_turns
recompute_current_turn user now reason m = elim (unfinished_turns m.turns) [
  | [] ↦ m
  | current ∷ rest ↦ recompute_turns current.id user now reason (current ∷ rest) m
]

-- `select(…).first()` of a teacher's completed turn
abbrev pub completed_turn_of : ℕ → List SelectionTurn → Option SelectionTurn
completed_turn_of teacher [] = none
completed_turn_of teacher (t ∷ ts) =
    if teacher == t.process_teacher_id && is_completed t.status
    then some t
    else completed_turn_of teacher ts

-- the row of a turn as it stands after the recomputation, for the audit event
abbrev pub row_or : SelectionTurn → ℕ → List SelectionTurn → SelectionTurn
row_or default i [] = default
row_or default i (t ∷ ts) = if i == t.id then t else row_or default i ts

-- one round of the loop of `_requeue_completed_turns`
unfoldable pub requeue_completed_turn : ℕ → ℕ → ℕ → Option ℕ → Meeting → Meeting
unfolding reset_turn_to_pending recompute_current_turn store
requeue_completed_turn teacher user now reason m =
    if not (can_select m.status) then m else elim (completed_turn_of teacher m.turns) [
      | none ↦ m
      | some before ↦
          let reset = reset_turn_to_pending before in
          let m' =
            recompute_current_turn user now reason
              (record m { turns = write_turn reset m.turns }) in
          store turn_reentered user before (row_or reset before.id m'.turns) reason m'
    ]
