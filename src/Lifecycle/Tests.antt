-- ===== src/Lifecycle/Tests.antt =====
-- The theorems on the lifecycle tables at concrete statuses.
use reparto_docente_m.Prelude.{true, ◌≡◌, ◌≢◌, ◌↔◌, ◌⊎◌, inl, refl, List, [], ◌∷◌, arith}
use mathlib.Core.List.{Memᴰ}
use reparto_docente_m.Lifecycle.Table
use reparto_docente_m.Lifecycle.Table.{illegal}
use reparto_docente_m.Lifecycle.Status.{TeachingPlanStatus as Plan, plan_status_eq}
use reparto_docente_m.Lifecycle.Process.{
  AssignmentProcessStatus, process_table, is_allowed_transition, assert_allowed_transition,
  is_terminal, is_closing_transition, is_reopen_edge, is_reopen_to_close_edge, draft, final,
  internal_revision, reopened, archived,
}
use reparto_docente_m.Lifecycle.Planning.{teaching_plan_lifecycle, plan_targets}
use reparto_docente_m.Lifecycle.Paths.{
  IsWalk, last, is_terminal_iff, closing_transitions, reopen_edges, reaches_final, archived_refuses,
  generated_was_locked, draft_never_again,
}

is_terminal_iff_example : (is_terminal archived ≡ true) ↔ (archived ≡ archived)
is_terminal_iff_example = is_terminal_iff archived

closing_transitions_example :
    ((is_closing_transition reopened final ≡ true) ↔ (final ≡ final))
    × (final ≡ final
        → (reopened ≡ internal_revision) ⊎ (is_reopen_to_close_edge reopened final ≡ true))
unfolding is_allowed_transition
closing_transitions_example = closing_transitions reopened final refl

reopen_edges_example :
    (final ≡ final → (is_reopen_edge final reopened ≡ true) ⊎ (reopened ≡ archived))
    × (reopened ≡ reopened → is_reopen_edge final reopened ≡ true)
unfolding is_allowed_transition
reopen_edges_example = reopen_edges final reopened refl

reaches_final_example :
    (path : List AssignmentProcessStatus) × IsWalk process_table draft path
    × (last process_table draft path ≡ final)
reaches_final_example = reaches_final draft (ground arith)

archived_refuses_example :
    assert_allowed_transition archived reopened ≡ illegal archived reopened []
archived_refuses_example = archived_refuses reopened

abbrev planned : List Plan
planned = Plan.unbalanced ∷ Plan.balanced ∷ Plan.locked ∷ Plan.requirements_generated ∷ []

generated_was_locked_example : Memᴰ Plan.locked planned
unfolding Table.is_allowed plan_targets plan_status_eq
generated_was_locked_example =
    generated_was_locked Plan.draft planned (inl refl) (refl, (refl, (refl, (refl, tt)))) refl

draft_never_again_example :
    last teaching_plan_lifecycle Plan.unbalanced (Plan.balanced ∷ []) ≢ Plan.draft
unfolding Table.is_allowed plan_targets plan_status_eq
draft_never_again_example =
    draft_never_again Plan.draft Plan.unbalanced (Plan.balanced ∷ []) (refl, (refl, tt))
