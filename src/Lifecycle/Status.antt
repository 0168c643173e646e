-- ===== src/Lifecycle/Status.antt =====
-- The statuses of reparto_service/enums.py that the planning tables range over.
pub data TeachingPlanStatus : Type 0 where
  draft unbalanced balanced locked requirements_generated stale reconciliation_required :
      TeachingPlanStatus

pub data HourRequirementStatus : Type 0 where
  available assigned stale reconciliation_required : HourRequirementStatus

pub data FeasibilityStatus : Type 0 where
  not_evaluated feasible infeasible unknown : FeasibilityStatus

unfoldable pub plan_status_eq : Discrete TeachingPlanStatus
plan_status_eq = hlevel

unfoldable pub requirement_status_eq : Discrete HourRequirementStatus
requirement_status_eq = hlevel

unfoldable pub feasibility_status_eq : Discrete FeasibilityStatus
feasibility_status_eq = hlevel
