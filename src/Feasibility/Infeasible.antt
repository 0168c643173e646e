-- ===== src/Feasibility/Infeasible.antt =====
-- What an INFEASIBLE result of `evaluate_assignment_feasibility` means.
use reparto_docente_m.Prelude.{ℕ, Option, none, some, List, ◌≡◌, refl, arith}
use reparto_docente_m.Prelude.Sort.{sort_by}
use reparto_docente_m.Lifecycle.Status.{FeasibilityStatus}
use reparto_docente_m.Feasibility.Types.{
  FeasibilityParticipant, FeasibilitySlot, FeasibilityState, FeasibilityDiagnostic,
  FeasibilityResult, SolverLimits, ok,
}
use reparto_docente_m.Feasibility.Residual.{size_limit_diagnostic, root_infeasibility_diagnostic}
use reparto_docente_m.Feasibility.Search.{
  Outcome, found, failed, stopped, initial_workspace, search,
}
use reparto_docente_m.Feasibility.Evaluate.{
  participant_le, slot_le, make_result, translate_outcome, solve, evaluate_snapshot,
  evaluate_assignment_feasibility,
}
use reparto_docente_m.Feasibility.Feasible.{IsExactFor, initial-IsReady, evaluate-ok}
use reparto_docente_m.Feasibility.Completeness.{Refutes}
use reparto_docente_m.Feasibility.Refuted.{search-Refutes}
use reparto_docente_m.Feasibility.Roots.{IsExactFor-IsExactIn, root_infeasibility_diagnostic_lem}

translate_outcome-infeasible :
    (ps : List FeasibilityParticipant) (ss : List FeasibilitySlot) (out : Outcome) (os : List ℕ)
    → Refutes ss ss (initial_workspace ps ss).remaining (initial_workspace ps ss).occupied out
    → (translate_outcome ps ss out).status ≡ FeasibilityStatus.infeasible
    → IsExactFor ps ss os
    → ⊥
unfolding translate_outcome
translate_outcome-infeasible ps ss (found w) os r h x = ground (arith, h)
translate_outcome-infeasible ps ss (stopped code w) os r h x = ground (arith, h)
translate_outcome-infeasible ps ss (failed w) os r h x =
    r.0 os (unfold initial_workspace in IsExactFor-IsExactIn ps ss os x)

module _ (limits : SolverLimits) (elapsed : ℕ → ℕ) where
  evaluate_snapshot-infeasible :
      (ps : List FeasibilityParticipant) (ss : List FeasibilitySlot) (os : List ℕ)
      → (evaluate_snapshot limits elapsed (ps, ss)).status ≡ FeasibilityStatus.infeasible
      → IsExactFor ps ss os
      → ⊥
  unfolding evaluate_snapshot
  evaluate_snapshot-infeasible ps ss os h x =
      go (size_limit_diagnostic ps ss limits) (root_infeasibility_diagnostic ps ss)
        (root_infeasibility_diagnostic_lem ps ss os x) h
    where
      body : Option FeasibilityDiagnostic → Option FeasibilityDiagnostic → FeasibilityResult
      body size root = elim size [
        | some d ↦ make_result FeasibilityStatus.unknown none (some d) 0 0
        | none ↦ elim root [
          | some d ↦ make_result FeasibilityStatus.infeasible none (some d) 0 0
          | none ↦ solve limits elapsed ps ss
        ]
      ]

      go :
          (size root : Option FeasibilityDiagnostic)
          → root ≡ none
          → (body size root).status ≡ FeasibilityStatus.infeasible
          → ⊥
      go (some d) root e h = ground (arith, h)
      go none (some d) e h = ground (arith, e)
      go none none e h =
          translate_outcome-infeasible ps ss (search limits elapsed 0 ss (initial_workspace ps ss))
            os
            (search-Refutes limits elapsed ss 0 ss (initial_workspace ps ss) refl
              (initial-IsReady ps ss) (unfold initial_workspace in tt))
            h x

-- When the solver answers INFEASIBLE, no exact assignment exists: whatever participants are named
-- for the slots, some target is missed or somebody holds an activity twice, counting the activities
-- that they occupied before.
pub infeasible_is_impossible :
    (limits : SolverLimits) (elapsed : ℕ → ℕ) (state : FeasibilityState) {r : FeasibilityResult}
    → evaluate_assignment_feasibility limits elapsed state ≡ ok r
    → r.status ≡ FeasibilityStatus.infeasible
    → (os : List ℕ)
    → ¬ IsExactFor (sort_by participant_le state.participants) (sort_by slot_le state.slots) os
infeasible_is_impossible limits elapsed state {r} e h os x =
    evaluate_snapshot-infeasible limits elapsed (sort_by participant_le state.participants)
      (sort_by slot_le state.slots) os (rw (evaluate-ok limits elapsed state e) h) x
