-- ===== src/Lifecycle/Paths.antt =====
-- Walks through the tables of the process and of the plan, one accepted transition after another.
-- The code consults no other: the tables of a slot and of the feasibility have no theorem here.
use reparto_docente_m.Prelude.{true, ◌≡◌, ◌≢◌, ◌↔◌, ◌⊎◌, inl, inr, arith, List, [], ◌∷◌}
use mathlib.Core.List.{Memᴰ}
use reparto_docente_m.Lifecycle.Table
use reparto_docente_m.Lifecycle.Table.{TransitionTable, illegal, member}
use reparto_docente_m.Lifecycle.Status.{TeachingPlanStatus as Plan, plan_status_eq}
use reparto_docente_m.Lifecycle.Process.{
  AssignmentProcessStatus, process_table, assert_allowed_transition, is_allowed_transition,
  is_terminal, is_closing_transition, is_reopen_edge, is_reopen_to_close_edge, draft,
  ready_for_meeting, meeting_open, assigning, department_proposal, sent_to_school_leadership,
  returned_by_school_leadership, final, internal_revision, reopened, archived,
}
use reparto_docente_m.Lifecycle.Planning.{teaching_plan_lifecycle, plan_targets}

module _ {A : Type 0} (t : TransitionTable A) where
  -- Each status of the list is an accepted target of the one before it.
  abbrev pub IsWalk : A → List A → Type 0
  IsWalk s [] = Unit
  IsWalk s (x ∷ xs) = (Table.is_allowed t s x ≡ true) × IsWalk x xs

  abbrev pub last : A → List A → A
  last s [] = s
  last s (x ∷ xs) = last x xs

-- A process is terminal exactly when it is archived.
pub is_terminal_iff : (s : AssignmentProcessStatus) → (is_terminal s ≡ true) ↔ (s ≡ archived)
unfolding is_terminal
is_terminal_iff s = ground arith

-- A legal transition closes a process exactly when it goes to `final`, and then it comes from
-- `internal_revision` or it is the edge that closes a reopened process again.
pub closing_transitions :
    (s u : AssignmentProcessStatus)
    → is_allowed_transition s u ≡ true
    → ((is_closing_transition s u ≡ true) ↔ (u ≡ final))
      × (u ≡ final → (s ≡ internal_revision) ⊎ (is_reopen_to_close_edge s u ≡ true))
unfolding is_allowed_transition is_closing_transition is_reopen_to_close_edge
closing_transitions s u h = ground arith

-- A final process is left only by the reopen edge or into the archive, and `reopened` is entered
-- only by the reopen edge.
pub reopen_edges :
    (s u : AssignmentProcessStatus)
    → is_allowed_transition s u ≡ true
    → (s ≡ final → (is_reopen_edge s u ≡ true) ⊎ (u ≡ archived))
      × (u ≡ reopened → is_reopen_edge s u ≡ true)
unfolding is_allowed_transition is_reopen_edge
reopen_edges s u h = ground arith

-- the shortest way to `final` from each live status
to_final : AssignmentProcessStatus → List AssignmentProcessStatus
to_final draft =
    ready_for_meeting ∷ meeting_open ∷ assigning ∷ department_proposal ∷ sent_to_school_leadership
    ∷ returned_by_school_leadership ∷ internal_revision ∷ final ∷ []
to_final ready_for_meeting =
    meeting_open ∷ assigning ∷ department_proposal ∷ sent_to_school_leadership
    ∷ returned_by_school_leadership ∷ internal_revision ∷ final ∷ []
to_final meeting_open =
    assigning ∷ department_proposal ∷ sent_to_school_leadership ∷ returned_by_school_leadership
    ∷ internal_revision ∷ final ∷ []
to_final assigning =
    department_proposal ∷ sent_to_school_leadership ∷ returned_by_school_leadership
    ∷ internal_revision ∷ final ∷ []
to_final department_proposal =
    sent_to_school_leadership ∷ returned_by_school_leadership ∷ internal_revision ∷ final ∷ []
to_final sent_to_school_leadership = returned_by_school_leadership ∷ internal_revision ∷ final ∷ []
to_final returned_by_school_leadership = internal_revision ∷ final ∷ []
to_final internal_revision = final ∷ []
to_final reopened = final ∷ []
to_final _ = []

-- From every status but `archived` there is a walk of accepted transitions that ends in `final`.
pub reaches_final :
    (s : AssignmentProcessStatus)
    → s ≢ archived
    → (path : List AssignmentProcessStatus) × IsWalk process_table s path
      × (last process_table s path ≡ final)
unfolding is_allowed_transition to_final
reaches_final s h = (to_final s, to_final-IsWalk s, to_final-last s h)
  where
    to_final-IsWalk : (s : AssignmentProcessStatus) → IsWalk process_table s (to_final s)
    to_final-IsWalk draft = ground arith
    to_final-IsWalk _ = ground arith

    to_final-last :
        (s : AssignmentProcessStatus) → s ≢ archived → last process_table s (to_final s) ≡ final
    to_final-last s h = ground arith

-- An archived process accepts no transition: each is refused with an empty list of targets.
pub archived_refuses :
    (u : AssignmentProcessStatus) → assert_allowed_transition archived u ≡ illegal archived u []
unfolding assert_allowed_transition
archived_refuses u = ground arith

-- One accepted step of a plan that was never locked locks it, or leaves it unlocked.
abbrev IsUnlocked : Plan → Type 0
IsUnlocked s = (s ≡ Plan.draft) ⊎ (s ≡ Plan.unbalanced) ⊎ (s ≡ Plan.balanced)

plan_step :
    (s u : Plan)
    → Table.is_allowed teaching_plan_lifecycle s u ≡ true
    → IsUnlocked s
    → (Plan.locked ≡ u) ⊎ IsUnlocked u
unfolding Table.is_allowed plan_targets plan_status_eq
plan_step s u h k = ground arith

-- A walk of a plan from an unlocked status (draft, unbalanced or balanced) to
-- `requirements_generated` goes through `locked`.
pub generated_was_locked :
    (s : Plan) (path : List Plan)
    → IsUnlocked s
    → IsWalk teaching_plan_lifecycle s path
    → last teaching_plan_lifecycle s path ≡ Plan.requirements_generated
    → Memᴰ Plan.locked path
generated_was_locked s [] k w e = absurd (ground arith)
generated_was_locked s (x ∷ xs) k w e = elim (plan_step s x w.0 k) [
  | inl now ↦ Memᴰ.head now
  | inr later ↦ Memᴰ.tail (generated_was_locked x xs later w.1 e)
]

-- No walk of a plan comes back to `draft`: once left, the balance has been computed.
pub draft_never_again :
    (s : Plan) (x : Plan) (path : List Plan)
    → IsWalk teaching_plan_lifecycle s (x ∷ path)
    → last teaching_plan_lifecycle x path ≢ Plan.draft
unfolding Table.is_allowed plan_targets plan_status_eq
draft_never_again s x [] w = ground arith
draft_never_again s x (y ∷ path) w = draft_never_again x y path w.1
