-- ===== src/Generation/Reuse.antt =====
-- An evaluation that is stored is used again.
use reparto_docente_m.Prelude.{
  ℕ, true, ==_refl, Option, some, ◌≡◌, refl, arith, Bool-cases, Option-cases, inl, inr,
}
use reparto_docente_m.Feasibility.Types.{FeasibilityResult}
use reparto_docente_m.Feasibility.Evaluate.{evaluate_assignment_feasibility}
use reparto_docente_m.Assignments.Rows.{
  TeachingPlan, FeasibilityWitness, ProcessState, ok, Holds, Holds->>=,
}
use reparto_docente_m.Assignments.Remaining.{
  FingerprintPayload, FeasibilitySnapshot, or_internal_error,
}
use reparto_docente_m.Assignments.Witnesses.{
  default_solver_limits, is_feasible, is_evaluated, current_row, new_row,
}
use reparto_docente_m.Assignments.Ledger.{Holds-ok}
use reparto_docente_m.Generation.Answers.{evaluate_assignment_feasibility-is_evaluated}
use reparto_docente_m.Generation.Evaluate.{
  Evaluation, cached_result, with_result, persist_result, evaluate_or_reuse,
}

module _ (digest : FingerprintPayload → ℕ) where
  pub cached_result-reused :
      (plan : TeachingPlan) (row : Option FeasibilityWitness) (snapshot : FeasibilitySnapshot)
      (generation : ℕ) {e : Evaluation}
      → cached_result digest plan row snapshot generation ≡ some e
      → e.cache_reused ≡ true
  unfolding cached_result
  cached_result-reused plan row snapshot generation {e} h = ground (arith, h)

  module _ (plan : TeachingPlan) (snapshot : FeasibilitySnapshot) (result : FeasibilityResult)
      (now generation : ℕ) where
    -- What has been persisted is found again.
    persisted_is_cached :
        (s : ProcessState)
        → is_evaluated result.status ≡ true
        → cached_result digest
            (with_result digest plan snapshot result now generation)
            (persist_result digest plan snapshot result now generation s).witness
            snapshot
            generation
          ≡ some (record {
            status = result.status;
            cache_reused = true;
            witness_available = is_feasible result.status;
          })
    unfolding cached_result persist_result current_row new_row with_result
    persisted_is_cached s h = elim (Bool-cases (is_feasible result.status)) [
      | inl e ↦ rw (h, e, ==_refl (digest snapshot.fingerprint), ==_refl generation) refl
      | inr e ↦ rw (h, e, ==_refl (digest snapshot.fingerprint), ==_refl generation) refl
    ]

-- The evaluation that is stored in `t` is found and used again, and nothing is written.
abbrev pub IsReusable :
    (FingerprintPayload → ℕ)
    → (ℕ → ℕ)
    → FeasibilitySnapshot
    → ℕ
    → ProcessState × Evaluation
    → Type 0
IsReusable digest elapsed snapshot generation done =
    (plan : TeachingPlan) × (done.0.plan ≡ some plan)
    × ((now : ℕ)
        → (e : Evaluation) × (evaluate_or_reuse digest elapsed now plan snapshot generation done.0
            ≡ ok (done.0, e))
          × (e.status ≡ done.1.status)
          × (e.cache_reused ≡ true))

module _ (digest : FingerprintPayload → ℕ) (elapsed : ℕ → ℕ) (plan : TeachingPlan)
    (snapshot : FeasibilitySnapshot) (generation : ℕ) where
  cached_again :
      (now : ℕ) (p : TeachingPlan) (t : ProcessState) (e : Evaluation)
      → cached_result digest p t.witness snapshot generation ≡ some e
      → evaluate_or_reuse digest elapsed now p snapshot generation t ≡ ok (t, e)
  unfolding evaluate_or_reuse
  cached_again now p t e h = rw (evaluate_or_reuse, h) refl

  evaluate_or_reuse-IsReusable :
      (now : ℕ) (s : ProcessState)
      → s.plan ≡ some plan
      → Holds
          (IsReusable digest elapsed snapshot generation)
          (evaluate_or_reuse digest elapsed now plan snapshot generation s)
  unfolding evaluate_or_reuse persist_result
  evaluate_or_reuse-IsReusable now s ep =
      elim (Option-cases (cached_result digest plan s.witness snapshot generation)) [
        | inr (e, h) ↦
            rw (evaluate_or_reuse, h)
              (
                plan,
                ep,
                λ later. (
                  e,
                  cached_again later plan s e h,
                  refl,
                  cached_result-reused digest plan s.witness snapshot generation h,
                ),
              )
        | inl h ↦
            rw (evaluate_or_reuse, h)
              (Holds->>= (λ (r : FeasibilityResult). is_evaluated r.status ≡ true)
                (IsReusable digest elapsed snapshot generation)
                (or_internal_error
                  (evaluate_assignment_feasibility default_solver_limits elapsed snapshot.state))
                _
                (evaluate_assignment_feasibility-is_evaluated default_solver_limits elapsed
                  snapshot.state)
                (λ result evaluated.
                  let t = persist_result digest plan snapshot result now generation s in
                  let p = with_result digest plan snapshot result now generation in
                  (
                    p,
                    refl,
                    λ later. (
                      record {
                        status = result.status;
                        cache_reused = true;
                        witness_available = is_feasible result.status;
                      },
                      cached_again later p t
                          (record {
                            status = result.status;
                            cache_reused = true;
                            witness_available = is_feasible result.status;
                          })
                          (persisted_is_cached digest plan snapshot result now generation s
                            evaluated),
                      refl,
                      refl,
                    ),
                  )))
      ]

-- An evaluation is reused: when a plan has been evaluated for a snapshot of its rows and a generation,
-- by a run of the solver or from the store, then evaluating it again for them at any later time
-- answers with the same status from the store and writes nothing.
pub evaluation_is_reused :
    (digest : FingerprintPayload → ℕ) (elapsed : ℕ → ℕ) (now later generation : ℕ)
    (plan : TeachingPlan) (snapshot : FeasibilitySnapshot) (s t : ProcessState) (e : Evaluation)
    → s.plan ≡ some plan
    → evaluate_or_reuse digest elapsed now plan snapshot generation s ≡ ok (t, e)
    → (p : TeachingPlan) × (t.plan ≡ some p)
      × ((again : Evaluation) × (evaluate_or_reuse digest elapsed later p snapshot generation t
            ≡ ok (t, again))
          × (again.status ≡ e.status)
          × (again.cache_reused ≡ true))
evaluation_is_reused digest elapsed now later generation plan snapshot s t e ep h =
    let (p, found, again) =
      Holds-ok (IsReusable digest elapsed snapshot generation)
        (evaluate_or_reuse digest elapsed now plan snapshot generation s)
        (evaluate_or_reuse-IsReusable digest elapsed plan snapshot generation now s ep) h in
    (p, found, again later)
