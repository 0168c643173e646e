-- ===== src/Stream/Events.antt =====
-- `DomainEvent` and the audiences. A payload is a list of keys with values; both are texts, of which
-- numbers stand for the different ones, 1 for the key `reason`.
use reparto_docente_m.Prelude.{ℕ, Bool, true, false, Option, none, some, List}
use reparto_docente_m.Lifecycle.Status.{TeachingPlanStatus}

pub data PlanReadiness : Type 0 where
  ready not_ready recalculation_required : PlanReadiness

pub data SseAudience : Type 0 where
  department_head teacher shared_screen : SseAudience

abbrev pub reason_key : ℕ
reason_key = 1

pub record DomainEvent : Type 0 where
  pub event_type : ℕ
  pub process_id : ℕ
  pub sequence : ℕ
  pub occurred_at : ℕ
  pub readiness : PlanReadiness
  pub selection_blocked : Bool
  pub payload : List (ℕ × ℕ)
  pub subject_process_teacher_id : Option ℕ

-- `current_readiness`, from the status of the process's plan, if it has one
unfoldable pub current_readiness : Option TeachingPlanStatus → PlanReadiness × Bool
current_readiness none = (not_ready, false)
current_readiness (some TeachingPlanStatus.stale) = (recalculation_required, true)
current_readiness (some TeachingPlanStatus.reconciliation_required) = (recalculation_required, true)
current_readiness (some TeachingPlanStatus.requirements_generated) = (ready, false)
current_readiness (some _) = (not_ready, false)
