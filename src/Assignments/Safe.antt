-- ===== src/Assignments/Safe.antt =====
-- What holds of a process whatever the handlers of reparto_service/controllers/assignments.py are
-- asked. Other requests, such as an evaluation of the plan or a change of a teacher's row, are not
-- among them.
use reparto_docente_m.Prelude.{ℕ, List}
use reparto_docente_m.Assignments.Rows.{ProcessState}
use reparto_docente_m.Assignments.Remaining.{FingerprintPayload}
use reparto_docente_m.Assignments.Run.{Request, perform_all}
use reparto_docente_m.Assignments.Kept.{perform_all-kept}
use reparto_docente_m.Assignments.Invariant.{IsSound}
use reparto_docente_m.Assignments.Backed.{IsBacked}
use reparto_docente_m.Assignments.Backing.{IsBacked-IsKept}
use reparto_docente_m.Assignments.Sound.{IsSound-IsKept}

module _ (digest : FingerprintPayload → ℕ) where
  -- Whatever calls of the five assignment handlers (create_manual_assignment, create_direct_choice,
  -- undo_assignment, reassign_assignment, update_assignment) a process answers or refuses, one
  -- after the other, its tables stay sound: identifiers of assignments are distinct, a slot has at
  -- most one active assignment, a teacher at most one position of an activity, nobody is assigned
  -- more hours than the target, and a slot that is AVAILABLE has no active assignment and one that
  -- is ASSIGNED has one. It holds where they are sound to begin with.
  pub perform_all-IsSound :
      (qs : List Request) (s : ProcessState) → IsSound s → IsSound (perform_all digest qs s)
  perform_all-IsSound = perform_all-kept digest IsSound (IsSound-IsKept digest)

  -- Whatever calls of the five assignment handlers (create_manual_assignment, create_direct_choice,
  -- undo_assignment, reassign_assignment, update_assignment) a process answers or refuses, one
  -- after the other, a plan that is FEASIBLE has a current witness: it is the one of the rows as
  -- they are, it lists the occupied slots, and it gives every other slot one participant so that
  -- each target is met exactly and nobody holds an activity twice. It holds where it does to begin
  -- with.
  pub perform_all-IsBacked :
      (qs : List Request) (s : ProcessState)
      → IsBacked digest s
      → IsBacked digest (perform_all digest qs s)
  perform_all-IsBacked = perform_all-kept digest (IsBacked digest) (IsBacked-IsKept digest)
