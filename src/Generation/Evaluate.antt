-- ===== src/Generation/Evaluate.antt =====
-- `evaluate` of `FeasibilityWitnessService`, reparto_service/services/feasibility_witnesses.py. The
-- text `feasibility-witness:<plan id>` is the plan's id; the log and the published event are left out.
use reparto_docente_m.Prelude.{
  ℕ, Bool, true, false, not, ◌&&◌, ◌+◌, if◌then◌else◌, Option, none, some, List, [], ◌++◌, keep,
}
use reparto_docente_m.Lifecycle.Status.{TeachingPlanStatus, FeasibilityStatus}
use reparto_docente_m.Feasibility.Types.{FeasibilityResult, FeasibilityWitnessEntry}
use reparto_docente_m.Feasibility.Evaluate.{evaluate_assignment_feasibility}
use reparto_docente_m.Guards.Witness.{is_some}
use reparto_docente_m.Assignments.Rows.{
  TeachingPlan, FeasibilityWitness, ProcessState, Result, ok, ◌>>=◌, is_current,
}
use reparto_docente_m.Assignments.Remaining.{
  FingerprintPayload, FeasibilitySnapshot, build_feasibility_snapshot, or_internal_error,
}
use reparto_docente_m.Assignments.Witnesses.{
  current_solver_version, default_solver_limits, is_value, is_feasible, is_evaluated, plan_or_404,
  current_row, new_row,
}
use reparto_docente_m.Generation.Diff.{TeachingActivity, is_empty}
use reparto_docente_m.Generation.Intended.{build_intended_feasibility_snapshot}

-- `_PRE_LOCK_PLAN_STATUSES`
abbrev pub is_pre_lock : TeachingPlanStatus → Bool
is_pre_lock TeachingPlanStatus.draft = true
is_pre_lock TeachingPlanStatus.unbalanced = true
is_pre_lock TeachingPlanStatus.balanced = true
is_pre_lock _ = false

-- `_has_live_requirements`
abbrev pub has_live_requirements : ProcessState → Bool
has_live_requirements s = not (is_empty (keep is_current s.requirements))

-- `FeasibilityEvaluationPublic`, the columns that are not the plan's own
pub record Evaluation : Type 0 where
  pub status : FeasibilityStatus
  pub cache_reused : Bool
  pub witness_available : Bool

-- `result.witness or ()`
abbrev pub entries_or_none : Option (List FeasibilityWitnessEntry) → List FeasibilityWitnessEntry
entries_or_none none = []
entries_or_none (some es) = es

module _ (digest : FingerprintPayload → ℕ) where
  -- the test whether the stored evaluation is that of the snapshot
  abbrev pub is_cached : TeachingPlan → FeasibilitySnapshot → ℕ → Bool
  is_cached plan snapshot generation =
      is_evaluated plan.feasibility_status
      && (is_value plan.feasibility_generation generation
          && (is_value plan.feasibility_input_fingerprint (digest snapshot.fingerprint)
              && (is_value plan.feasibility_solver_version current_solver_version
                  && is_some plan.feasibility_checked_at)))

  -- `_cached_result`
  unfoldable pub cached_result :
      TeachingPlan → Option FeasibilityWitness → FeasibilitySnapshot → ℕ → Option Evaluation
  unfolding current_row
  cached_result plan row snapshot generation =
      let witness_available =
        is_feasible plan.feasibility_status && is_some (current_row digest plan row snapshot) in
      if not (is_cached plan snapshot generation)
      then none
      else if is_feasible plan.feasibility_status && not witness_available
      then none
      else some (record {
        status = plan.feasibility_status;
        cache_reused = true;
        witness_available = witness_available;
      })

  -- the plan's row with the result in it
  unfoldable pub with_result :
      TeachingPlan → FeasibilitySnapshot → FeasibilityResult → ℕ → ℕ → TeachingPlan
  with_result plan snapshot result checked_at generation = record plan {
    feasibility_status = result.status;
    feasibility_generation = some generation;
    feasibility_checked_at = some checked_at;
    feasibility_input_fingerprint = some (digest snapshot.fingerprint);
    feasibility_solver_version = some current_solver_version;
    feasibility_diagnostics_ref = if is_empty result.diagnostics then none else some plan.id;
  }

  -- `_persist_result`
  unfoldable pub persist_result :
      TeachingPlan → FeasibilitySnapshot → FeasibilityResult → ℕ → ℕ → ProcessState → ProcessState
  unfolding new_row with_result
  persist_result plan snapshot result checked_at generation s = record s {
    plan = some (with_result plan snapshot result checked_at generation);
    witness = some (
        new_row digest snapshot (snapshot.fixed_assignments ++ entries_or_none result.witness)
          result.diagnostics);
  }

  module _ (elapsed : ℕ → ℕ) where
    -- `_evaluate_snapshot`
    unfoldable pub evaluate_or_reuse :
        ℕ
        → TeachingPlan
        → FeasibilitySnapshot
        → ℕ
        → ProcessState
        → Result (ProcessState × Evaluation)
    unfolding cached_result persist_result
    evaluate_or_reuse now plan snapshot generation s =
        elim (cached_result plan s.witness snapshot generation) [
          | some evaluation ↦ ok (s, evaluation)
          | none ↦
              or_internal_error
                (evaluate_assignment_feasibility default_solver_limits elapsed snapshot.state)
              >>= λ result. ok (
                persist_result plan snapshot result now generation s,
                record {
                  status = result.status;
                  cache_reused = false;
                  witness_available = is_some result.witness;
                },
              )
        ]

    unfoldable pub evaluate_intended :
        (ℕ → ℕ → ℕ → ℕ → ℕ)
        → List TeachingActivity
        → ℕ
        → ProcessState
        → Result (ProcessState × Evaluation)
    unfolding evaluate_or_reuse build_intended_feasibility_snapshot
    evaluate_intended prospective_requirement_id activities now s = do
      plan ← plan_or_404 s
      snapshot ← build_intended_feasibility_snapshot prospective_requirement_id activities plan s
      evaluate_or_reuse now plan snapshot (plan.current_generation_number + 1) s

    unfoldable pub evaluate :
        (ℕ → ℕ → ℕ → ℕ → ℕ)
        → List TeachingActivity
        → ℕ
        → ProcessState
        → Result (ProcessState × Evaluation)
    unfolding evaluate_or_reuse evaluate_intended build_feasibility_snapshot
    evaluate prospective_requirement_id activities now s = do
      plan ← plan_or_404 s
      if is_pre_lock plan.status && not (has_live_requirements s)
          then evaluate_intended prospective_requirement_id activities now s
          else (do
            snapshot ← build_feasibility_snapshot s
            evaluate_or_reuse now plan snapshot plan.current_generation_number s)
