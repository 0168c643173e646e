-- ===== src/Generation/Answers.antt =====
-- The answers of the solver are evaluations.
use reparto_docente_m.Prelude.{ℕ, true, List, ◌≡◌, refl, Option-cases, inl, inr}
use reparto_docente_m.Feasibility.Types.{
  FeasibilityParticipant, FeasibilitySlot, FeasibilityState, FeasibilityResult, SolverLimits,
  Result, ok, err, ◌>>=◌,
}
use reparto_docente_m.Feasibility.Residual.{size_limit_diagnostic, root_infeasibility_diagnostic}
use reparto_docente_m.Feasibility.Search.{
  Outcome, found, failed, stopped, search, initial_workspace,
}
use reparto_docente_m.Feasibility.Evaluate.{
  make_result, translate_outcome, solve, evaluate_snapshot, normalise_and_validate,
  evaluate_assignment_feasibility,
}
use reparto_docente_m.Assignments.Rows.{Holds}
use reparto_docente_m.Assignments.Remaining.{or_internal_error}
use reparto_docente_m.Assignments.Witnesses.{is_evaluated}

module _ (limits : SolverLimits) (elapsed : ℕ → ℕ) where
  translate_outcome-is_evaluated :
      (ps : List FeasibilityParticipant) (ss : List FeasibilitySlot) (o : Outcome)
      → is_evaluated (translate_outcome ps ss o).status ≡ true
  unfolding translate_outcome make_result
  translate_outcome-is_evaluated ps ss (stopped code w) = refl
  translate_outcome-is_evaluated ps ss (failed w) = refl
  translate_outcome-is_evaluated ps ss (found w) = refl

  evaluate_snapshot-is_evaluated :
      (ps : List FeasibilityParticipant) (ss : List FeasibilitySlot)
      → is_evaluated (evaluate_snapshot limits elapsed (ps, ss)).status ≡ true
  unfolding evaluate_snapshot solve make_result
  evaluate_snapshot-is_evaluated ps ss = elim (Option-cases (size_limit_diagnostic ps ss limits)) [
    | inr (d, e) ↦ rw (evaluate_snapshot, e) refl
    | inl e ↦ elim (Option-cases (root_infeasibility_diagnostic ps ss)) [
      | inr (d, f) ↦ rw (evaluate_snapshot, e, f) refl
      | inl f ↦
          rw (evaluate_snapshot, e, f)
            (translate_outcome-is_evaluated ps ss
              (search limits elapsed 0 ss (initial_workspace ps ss)))
    ]
  ]

  -- The solver never answers NOT_EVALUATED.
  pub evaluate_assignment_feasibility-is_evaluated :
      (state : FeasibilityState)
      → Holds
          (λ (r : FeasibilityResult). is_evaluated r.status ≡ true)
          (or_internal_error (evaluate_assignment_feasibility limits elapsed state))
  unfolding evaluate_assignment_feasibility
  evaluate_assignment_feasibility-is_evaluated state = go (normalise_and_validate state)
    where
      go :
          (m : Result (List FeasibilityParticipant × List FeasibilitySlot))
          → Holds
              (λ (r : FeasibilityResult). is_evaluated r.status ≡ true)
              (or_internal_error (m >>= λ snapshot. ok (evaluate_snapshot limits elapsed snapshot)))
      go (ok (ps, ss)) = evaluate_snapshot-is_evaluated ps ss
      go (err e) = tt
