-- ===== src/Lifecycle/Planning.antt =====
-- The three planning tables: reparto_service/services/planning_lifecycle.py.
use reparto_docente_m.Prelude.{List, [], ◌∷◌}
use reparto_docente_m.Lifecycle.Table.{TransitionTable}
use reparto_docente_m.Lifecycle.Status.{
  TeachingPlanStatus as Plan, HourRequirementStatus as Slot, FeasibilityStatus as Feasibility,
  plan_status_eq, requirement_status_eq, feasibility_status_eq,
}

unfoldable pub plan_targets : Plan → List Plan
plan_targets Plan.draft = Plan.unbalanced ∷ Plan.balanced ∷ []
plan_targets Plan.unbalanced = Plan.balanced ∷ []
plan_targets Plan.balanced = Plan.unbalanced ∷ Plan.locked ∷ []
plan_targets Plan.locked = Plan.requirements_generated ∷ Plan.balanced ∷ Plan.stale ∷ []
plan_targets Plan.requirements_generated = Plan.stale ∷ Plan.reconciliation_required ∷ []
plan_targets Plan.stale = Plan.unbalanced ∷ Plan.balanced ∷ Plan.requirements_generated ∷ []
plan_targets Plan.reconciliation_required = Plan.requirements_generated ∷ []

unfoldable pub requirement_targets : Slot → List Slot
requirement_targets Slot.available = Slot.assigned ∷ Slot.stale ∷ []
requirement_targets Slot.assigned = Slot.available ∷ Slot.reconciliation_required ∷ []
requirement_targets Slot.stale = Slot.available ∷ []
requirement_targets Slot.reconciliation_required = Slot.assigned ∷ Slot.stale ∷ []

unfoldable pub feasibility_targets : Feasibility → List Feasibility
feasibility_targets Feasibility.not_evaluated =
    Feasibility.feasible ∷ Feasibility.infeasible ∷ Feasibility.unknown ∷ []
feasibility_targets Feasibility.feasible = Feasibility.not_evaluated ∷ []
feasibility_targets Feasibility.infeasible = Feasibility.not_evaluated ∷ []
feasibility_targets Feasibility.unknown = Feasibility.not_evaluated ∷ []

abbrev pub teaching_plan_lifecycle : TransitionTable Plan
teaching_plan_lifecycle = record { targets = plan_targets; status_eq = plan_status_eq }

abbrev pub hour_requirement_lifecycle : TransitionTable Slot
hour_requirement_lifecycle = record {
  targets = requirement_targets;
  status_eq = requirement_status_eq;
}

abbrev pub feasibility_lifecycle : TransitionTable Feasibility
feasibility_lifecycle = record { targets = feasibility_targets; status_eq = feasibility_status_eq }
