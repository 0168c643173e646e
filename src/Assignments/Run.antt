-- ===== src/Assignments/Run.antt =====
-- Requests on one process one after the other: reparto_service/app/routes/assignments.py calls the
-- handlers, each in a transaction that a raised exception rolls back.
use reparto_docente_m.Prelude.{ℕ, Option, List, [], ◌∷◌}
use reparto_docente_m.Assignments.Rows.{ProcessState, Result, ok, err}
use reparto_docente_m.Assignments.Remaining.{FingerprintPayload}
use reparto_docente_m.Assignments.Actions.{
  create_manual_assignment, create_direct_choice, undo_assignment, reassign_assignment,
  update_assignment,
}

pub data Action : Type 0 where
  create_manual : ℕ → ℕ → Option ℕ → Action
  create_direct : ℕ → ℕ → Option ℕ → Action
  undo : ℕ → ℕ → Action
  reassign : ℕ → ℕ → ℕ → Option ℕ → Action
  update : ℕ → Option (Option ℕ) → Action

-- the clock, the user, the id that is drawn, and the call
pub record Request : Type 0 where
  pub now : ℕ
  pub user : ℕ
  pub fresh : ℕ
  pub action : Action

module _ (digest : FingerprintPayload → ℕ) where
  unfoldable pub perform : Request → ProcessState → Result ProcessState
  perform q s = elim (q.action) [
    | create_manual i j notes ↦ create_manual_assignment digest q.now q.user q.fresh i j notes s
    | create_direct m i notes ↦ create_direct_choice digest q.now q.user q.fresh m i notes s
    | undo k reason ↦ undo_assignment q.now q.user k reason s
    | reassign k j reason notes ↦ reassign_assignment digest q.now q.user q.fresh k j reason notes s
    | update k notes ↦ update_assignment q.user k notes s
  ]

  -- the state after the transaction
  unfoldable pub commit : ProcessState → Result ProcessState → ProcessState
  commit s (ok s') = s'
  commit s (err e) = s

  unfoldable pub perform_all : List Request → ProcessState → ProcessState
  unfolding perform commit
  perform_all [] s = s
  perform_all (q ∷ qs) s = perform_all qs (commit s (perform q s))
