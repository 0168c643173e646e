-- ===== src/Lifecycle/Process.antt =====
-- The assignment process: reparto_service/services/process_lifecycle.py.
use reparto_docente_m.Prelude.{Bool, not, ◌&&◌, List, [], ◌∷◌}
use reparto_docente_m.Lifecycle.Table
use reparto_docente_m.Lifecycle.Table.{TransitionTable, Verdict, eqb}

pub data AssignmentProcessStatus : Type 0 where
  draft ready_for_meeting meeting_open assigning department_proposal : AssignmentProcessStatus
  sent_to_school_leadership returned_by_school_leadership internal_revision :
      AssignmentProcessStatus
  final reopened archived : AssignmentProcessStatus

unfoldable pub process_status_eq : Discrete AssignmentProcessStatus
process_status_eq = hlevel

unfoldable pub allowed_transitions : AssignmentProcessStatus → List AssignmentProcessStatus
allowed_transitions draft = ready_for_meeting ∷ archived ∷ []
allowed_transitions ready_for_meeting = meeting_open ∷ draft ∷ archived ∷ []
allowed_transitions meeting_open = assigning ∷ ready_for_meeting ∷ archived ∷ []
allowed_transitions assigning = department_proposal ∷ meeting_open ∷ archived ∷ []
allowed_transitions department_proposal = sent_to_school_leadership ∷ assigning ∷ archived ∷ []
allowed_transitions sent_to_school_leadership = returned_by_school_leadership ∷ archived ∷ []
allowed_transitions returned_by_school_leadership = internal_revision ∷ archived ∷ []
allowed_transitions internal_revision = department_proposal ∷ final ∷ archived ∷ []
allowed_transitions final = reopened ∷ archived ∷ []
allowed_transitions reopened = internal_revision ∷ final ∷ archived ∷ []
allowed_transitions archived = []

-- The process module repeats the predicates of the generic table for its own table.
abbrev pub process_table : TransitionTable AssignmentProcessStatus
process_table = record { targets = allowed_transitions; status_eq = process_status_eq }

unfoldable pub is_allowed_transition : AssignmentProcessStatus → AssignmentProcessStatus → Bool
unfolding Table.is_allowed allowed_transitions process_status_eq
is_allowed_transition = Table.is_allowed process_table

unfoldable pub assert_allowed_transition :
    AssignmentProcessStatus → AssignmentProcessStatus → Verdict AssignmentProcessStatus
unfolding Table.assert_allowed allowed_transitions process_status_eq
assert_allowed_transition = Table.assert_allowed process_table

unfoldable pub is_reopen_edge : AssignmentProcessStatus → AssignmentProcessStatus → Bool
unfolding process_status_eq
is_reopen_edge current target =
    eqb process_status_eq current final && eqb process_status_eq target reopened

unfoldable pub is_closing_transition : AssignmentProcessStatus → AssignmentProcessStatus → Bool
unfolding process_status_eq
is_closing_transition current target =
    not (eqb process_status_eq current final) && eqb process_status_eq target final

unfoldable pub is_reopen_to_close_edge : AssignmentProcessStatus → AssignmentProcessStatus → Bool
unfolding process_status_eq
is_reopen_to_close_edge current target =
    eqb process_status_eq current reopened && eqb process_status_eq target final

unfoldable pub is_terminal : AssignmentProcessStatus → Bool
unfolding Table.is_terminal allowed_transitions
is_terminal = Table.is_terminal process_table
