-- ===== src/Assignments/Backed.antt =====
-- What stands behind a plan that is FEASIBLE: the witness that is stored for it.
use reparto_docente_m.Prelude.{ℕ, true, some, List, [], ◌++◌, ◌≡◌, refl, arith, ==_refl, ◌∙◌, ap}
use reparto_docente_m.Prelude.Sort.{sort_by}
use reparto_docente_m.Feasibility.Types.{FeasibilityState, FeasibilityWitnessEntry}
use reparto_docente_m.Guards.Types as GuardTypes
use reparto_docente_m.Guards.Witness.{
  mapping_of, owners, mapping_is_exact, validated_witness_mapping, validate_feasibility_witness,
}
use reparto_docente_m.Guards.Exact.{MeetsTargets, mapping_is_exact_iff}
use reparto_docente_m.Assignments.Rows.{
  TeachingPlan, FeasibilityWitness, ProcessState, Result, ok, raise_unless, witness_is_inconsistent,
  Holds, >>=-Holds, raise_unless-eq-ok,
}
use reparto_docente_m.Assignments.Remaining.{
  FingerprintPayload, FeasibilitySnapshot, build_feasibility_snapshot,
}
use reparto_docente_m.Assignments.Witnesses.{
  entry_le, is_feasible, plan_or_404, or_guard_error, new_row, get_witness, persist_repair,
  with_repair, feasible_row, current_row,
}

-- The stored witness is that of the rows as they are: the occupied slots, and a participant for each
-- that is left, under which every target is met exactly and nobody holds an activity twice.
pub record HasExactWitness (digest : FingerprintPayload → ℕ) (s : ProcessState) : Type 0 where
  pub row : FeasibilityWitness
  pub snapshot : FeasibilitySnapshot
  pub rest : List FeasibilityWitnessEntry
  pub current : get_witness digest s ≡ ok row
  pub taken : build_feasibility_snapshot s ≡ ok snapshot
  pub entries : row.witness_json ≡ sort_by entry_le (snapshot.fixed_assignments ++ rest)
  pub complete : validate_feasibility_witness snapshot.state rest ≡ GuardTypes.ok true
  pub exact : MeetsTargets snapshot.state (owners (mapping_of rest []) snapshot.state.slots)

-- A plan that is FEASIBLE has such a witness.
abbrev pub IsBacked : (FingerprintPayload → ℕ) → ProcessState → Type 0
IsBacked digest s =
    (plan : TeachingPlan)
    → s.plan ≡ some plan
    → is_feasible plan.feasibility_status ≡ true
    → HasExactWitness digest s

pub validate_feasibility_witness-mapping_is_exact :
    (state : FeasibilityState) (witness : List FeasibilityWitnessEntry)
    → validate_feasibility_witness state witness ≡ GuardTypes.ok true
    → mapping_is_exact state (mapping_of witness []) ≡ true
unfolding validate_feasibility_witness validated_witness_mapping
validate_feasibility_witness-mapping_is_exact state witness h = ground (arith, h)

pub or_guard_error-Holds :
    {A B : Type 0} (P : B → Type 0) (m : GuardTypes.Result A) (f : A → Result B)
    → ((a : A) → m ≡ GuardTypes.ok a → Holds P (f a))
    → Holds P (or_guard_error m f)
or_guard_error-Holds P (GuardTypes.ok a) f k = k a refl
or_guard_error-Holds P (GuardTypes.err e) f k = tt

module _ (digest : FingerprintPayload → ℕ) where
  -- The row that is stored is the current one.
  with_repair-get_witness :
      (now : ℕ) (witness : List FeasibilityWitnessEntry) (plan : TeachingPlan)
      (snapshot : FeasibilitySnapshot) (s : ProcessState)
      → build_feasibility_snapshot s ≡ ok snapshot
      → get_witness digest (with_repair digest now witness plan snapshot s)
        ≡ ok (new_row digest snapshot (snapshot.fixed_assignments ++ witness) [])
  unfolding get_witness with_repair build_feasibility_snapshot new_row feasible_row current_row
  with_repair-get_witness now witness plan snapshot s e =
      rw (e, ==_refl (digest snapshot.fingerprint), ==_refl plan.current_generation_number) refl

  -- What is persisted has been validated.
  pub persist_repair-HasExactWitness :
      (now : ℕ) (witness : List FeasibilityWitnessEntry) (s : ProcessState)
      → Holds (HasExactWitness digest) (persist_repair digest now witness s)
  unfolding persist_repair
  persist_repair-HasExactWitness now witness s = >>=-Holds P (plan_or_404 s) _ λ plan _.
      >>=-Holds P (build_feasibility_snapshot s) _ λ snapshot es.
        or_guard_error-Holds P (validate_feasibility_witness snapshot.state witness) _
          λ consistent ev. >>=-Holds P (raise_unless consistent witness_is_inconsistent) _ λ _ et.
            stored plan snapshot es
              (ev ∙ ap GuardTypes.ok (raise_unless-eq-ok consistent witness_is_inconsistent et))
    where
      P : ProcessState → Type 0
      P = HasExactWitness digest

      stored :
          (plan : TeachingPlan) (snapshot : FeasibilitySnapshot)
          → build_feasibility_snapshot s ≡ ok snapshot
          → validate_feasibility_witness snapshot.state witness ≡ GuardTypes.ok true
          → P (with_repair digest now witness plan snapshot s)
      stored plan snapshot es valid = record {
        row = new_row digest snapshot (snapshot.fixed_assignments ++ witness) [];
        snapshot = snapshot;
        rest = witness;
        current = with_repair-get_witness now witness plan snapshot s es;
        taken = unfold build_feasibility_snapshot in unfold with_repair in es;
        entries = unfold new_row in refl;
        complete = valid;
        exact =
            (mapping_is_exact_iff snapshot.state (mapping_of witness [])).0
              (validate_feasibility_witness-mapping_is_exact snapshot.state witness valid);
      }
