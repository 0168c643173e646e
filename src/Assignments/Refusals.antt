-- ===== src/Assignments/Refusals.antt =====
-- When the shared routine refuses.
use reparto_docente_m.Prelude.{◌≡◌, ◌↔◌, arith}
use reparto_docente_m.Assignments.Rows.{HourRequirement, Participant, ProcessState, ok}
use reparto_docente_m.Assignments.Occupy.{ensure_can_occupy}
use reparto_docente_m.Assignments.Tables.{holds_position-in_activity}
use reparto_docente_m.Assignments.Invariant.{CanOccupy, ensure_can_occupy-CanOccupy}

-- The guards of an occupancy pass exactly where the slot is available and has no active assignment,
-- the teacher is active, holds no position of the slot's activity, and has the hours for it.
pub ensure_can_occupy_iff :
    (s : ProcessState) (r : HourRequirement) (p : Participant)
    → (ensure_can_occupy s r p ≡ ok tt) ↔ CanOccupy s r p
unfolding ensure_can_occupy
ensure_can_occupy_iff s r p = (
  ensure_can_occupy-CanOccupy s r p,
  λ c. ground (
    arith,
    c.available,
    c.unassigned,
    c.eligible,
    c.elsewhere,
    c.fits,
    holds_position-in_activity r.teaching_activity_id p.id s.assignments,
  ),
)
