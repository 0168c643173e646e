-- ===== src/Generation/Stored.antt =====
-- What an evaluation that answers FEASIBLE leaves in the store: `evaluate` and `_persist_result`
-- of reparto_service/services/feasibility_witnesses.py.
use reparto_docente_m.Prelude.{
  ℕ, false, not, ◌&&◌, ◌++◌, ==_refl, some, List, ◌≡◌, refl, arith, Option-cases, inl, inr, ap,
  subst,
}
use reparto_docente_m.Prelude.Sort.{sort_by}
use reparto_docente_m.Lifecycle.Status.{FeasibilityStatus}
use reparto_docente_m.Feasibility.Types as Solver
use reparto_docente_m.Feasibility.Types.{FeasibilityParticipant, FeasibilitySlot, FeasibilityResult}
use reparto_docente_m.Feasibility.Evaluate.{
  participant_le, slot_le, evaluate_assignment_feasibility,
}
use reparto_docente_m.Feasibility.Feasible.{IsExactFor, witness_of, feasible_is_exact}
use reparto_docente_m.Assignments.Rows.{
  TeachingPlan, FeasibilityWitness, ProcessState, ok, Holds, >>=-Holds,
}
use reparto_docente_m.Assignments.Remaining.{
  FingerprintPayload, FeasibilitySnapshot, build_feasibility_snapshot, or_internal_error,
}
use reparto_docente_m.Assignments.Witnesses.{
  default_solver_limits, entry_le, plan_or_404, get_witness, feasible_row, current_row, new_row,
}
use reparto_docente_m.Assignments.Ledger.{Holds-ok}
use reparto_docente_m.Generation.Diff.{TeachingActivity}
use reparto_docente_m.Generation.Reuse.{cached_result-reused}
use reparto_docente_m.Generation.Evaluate.{
  Evaluation, is_pre_lock, has_live_requirements, entries_or_none, cached_result, with_result,
  persist_result, evaluate_or_reuse, evaluate,
}

-- The witness that the process hands out is the solver's: for the rows as they are, the occupied
-- slots and an owner for each other slot, under which every target is met exactly and nobody holds an
-- activity twice.
pub record HasSolverWitness (digest : FingerprintPayload → ℕ) (t : ProcessState) : Type 0 where
  pub snapshot : FeasibilitySnapshot
  pub row : FeasibilityWitness
  pub owners : List ℕ
  pub taken : build_feasibility_snapshot t ≡ ok snapshot
  pub current : get_witness digest t ≡ ok row
  pub entries :
      row.witness_json
      ≡ sort_by entry_le (
          snapshot.fixed_assignments
          ++ witness_of
              (sort_by participant_le snapshot.state.participants)
              (sort_by slot_le snapshot.state.slots)
              owners)
  pub exact :
      IsExactFor
        (sort_by participant_le snapshot.state.participants)
        (sort_by slot_le snapshot.state.slots)
        owners

or_internal_error-eq-ok :
    {A : Type 0} (m : Solver.Result A) {a : A} → or_internal_error m ≡ ok a → m ≡ Solver.ok a
or_internal_error-eq-ok (Solver.ok b) h = ground (arith, h)
or_internal_error-eq-ok (Solver.err x) h = absurd (ground (arith, h))

-- an evaluation by the solver that answers FEASIBLE has such a witness
abbrev IsStored : (FingerprintPayload → ℕ) → ProcessState × Evaluation → Type 0
IsStored digest done =
    done.1.cache_reused ≡ false
    → done.1.status ≡ FeasibilityStatus.feasible
    → HasSolverWitness digest done.0

module _ (digest : FingerprintPayload → ℕ) (elapsed : ℕ → ℕ) (now : ℕ) (plan : TeachingPlan)
    (snapshot : FeasibilitySnapshot) (s : ProcessState)
    (taken : build_feasibility_snapshot s ≡ ok snapshot) where
  -- The row that is stored is the current one, and the snapshot is still that of the rows.
  persist_result-get_witness :
      (result : FeasibilityResult)
      → result.status ≡ FeasibilityStatus.feasible
      → get_witness digest
          (persist_result digest plan snapshot result now plan.current_generation_number s)
        ≡ ok (
            new_row digest snapshot
              (snapshot.fixed_assignments ++ entries_or_none result.witness)
              result.diagnostics)
  unfolding get_witness persist_result with_result build_feasibility_snapshot new_row feasible_row
      current_row
  persist_result-get_witness result h =
      rw (taken, h, ==_refl (digest snapshot.fingerprint), ==_refl plan.current_generation_number)
        refl

  persist_result-HasSolverWitness :
      (result : FeasibilityResult)
      → evaluate_assignment_feasibility default_solver_limits elapsed snapshot.state
        ≡ Solver.ok result
      → result.status ≡ FeasibilityStatus.feasible
      → HasSolverWitness digest
          (persist_result digest plan snapshot result now plan.current_generation_number s)
  persist_result-HasSolverWitness result e h =
      let (os, listed, exact) =
        feasible_is_exact default_solver_limits elapsed snapshot.state e h in
      record {
        snapshot = snapshot;
        row =
            new_row digest snapshot (snapshot.fixed_assignments ++ entries_or_none result.witness)
              result.diagnostics;
        owners = os;
        taken = unfold build_feasibility_snapshot in unfold persist_result in taken;
        current = persist_result-get_witness result h;
        entries =
            unfold new_row in
            ap (λ w. sort_by entry_le (snapshot.fixed_assignments ++ entries_or_none w)) listed;
        exact = exact;
      }

  evaluate_or_reuse-IsStored :
      Holds
        (IsStored digest)
        (evaluate_or_reuse digest elapsed now plan snapshot plan.current_generation_number s)
  unfolding evaluate_or_reuse
  evaluate_or_reuse-IsStored =
      elim (Option-cases
        (cached_result digest plan s.witness snapshot plan.current_generation_number)) [
          | inr (e, h) ↦
              rw (evaluate_or_reuse, h)
                (λ fresh. absurd (
                  ground (
                    arith,
                    fresh,
                    cached_result-reused digest plan s.witness snapshot
                        plan.current_generation_number h,
                  )))
          | inl h ↦
              rw (evaluate_or_reuse, h)
                (>>=-Holds (IsStored digest)
                  (or_internal_error
                    (evaluate_assignment_feasibility default_solver_limits elapsed snapshot.state))
                  _
                  (λ result e fresh f.
                    persist_result-HasSolverWitness result
                      (or_internal_error-eq-ok
                        (evaluate_assignment_feasibility default_solver_limits elapsed
                          snapshot.state)
                        e)
                      f))
        ]

-- When an evaluation of a plan that has left draft, unbalanced and balanced, or that has live
-- slots, runs the solver and it answers FEASIBLE, then the witness that the process hands out next
-- is the solver's: for the rows as they are, it lists the occupied slots and an owner for each
-- other slot, under which every target is met exactly and nobody holds an activity twice.
pub evaluation_stores_witness :
    (digest : FingerprintPayload → ℕ) (elapsed : ℕ → ℕ)
    (prospective_requirement_id : ℕ → ℕ → ℕ → ℕ → ℕ) (activities : List TeachingActivity) (now : ℕ)
    (plan : TeachingPlan) (s t : ProcessState) (e : Evaluation)
    → s.plan ≡ some plan
    → (is_pre_lock plan.status && not (has_live_requirements s)) ≡ false
    → evaluate digest elapsed prospective_requirement_id activities now s ≡ ok (t, e)
    → e.cache_reused ≡ false
    → e.status ≡ FeasibilityStatus.feasible
    → HasSolverWitness digest t
unfolding evaluate
evaluation_stores_witness digest elapsed prospective_requirement_id activities now plan s t e ep
      live =
    Holds-ok (IsStored digest) (evaluate digest elapsed prospective_requirement_id activities now s)
      (>>=-Holds (IsStored digest) (plan_or_404 s) _ λ p found. rw (solver_runs p found) (
        >>=-Holds (IsStored digest) (build_feasibility_snapshot s) _
          λ snapshot taken. evaluate_or_reuse-IsStored digest elapsed now p snapshot s taken))
  where
    same : (p : TeachingPlan) → plan_or_404 s ≡ ok p → plan ≡ p
    same p found = ground (arith, found, ep)

    solver_runs :
        (p : TeachingPlan)
        → plan_or_404 s ≡ ok p
        → (is_pre_lock p.status && not (has_live_requirements s)) ≡ false
    solver_runs p found =
        subst
          (λ (q : TeachingPlan). (is_pre_lock q.status && not (has_live_requirements s)) ≡ false)
          (same p found) live
