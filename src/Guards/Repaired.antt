-- ===== src/Guards/Repaired.antt =====
-- What a REPAIRED verdict means, and how many steps the local search takes.
use reparto_docente_m.Prelude.{
  ℕ, zero, suc, true, ◌+◌, leb, if◌then◌else◌, Option, none, some, List, [], ◌∷◌, ◌≡◌, inl, inr,
  all, keep, arith, Bool-cases, Option-cases,
}
use reparto_docente_m.Prelude.Dict.{insert}
use reparto_docente_m.Feasibility.Types.{TextId, FeasibilityState, FeasibilityWitnessEntry}
use reparto_docente_m.Guards.Types.{
  FastGuardResult, is_safe, WitnessRepairLimits, WitnessRepairResult, repaired, Result, ok, err,
  ◌>>=◌,
}
use reparto_docente_m.Guards.Fast.{compute_fast_feasibility_checks}
use reparto_docente_m.Guards.Witness.{Mapping, owners, mapping_is_exact, validated_witness_mapping}
use reparto_docente_m.Guards.Repair.{
  Repair, done, assertion_failed, Move, Delta, is_settled, is_over, delta_ids, least,
  assignment_deltas, try_moves, explore_moves, repair_search, repair_result, repair_around,
  judge_proposal, mapping_to_witness, validate_proposed_assignment_against_witness,
}
use reparto_docente_m.Guards.Exact.{MeetsTargets, mapping_is_exact_iff}

-- A mapping that the search returns is exact.
abbrev pub IsSound : FeasibilityState → Repair → Type 0
IsSound state (done (some m) steps) = mapping_is_exact state m ≡ true
IsSound state (done none steps) = Unit
IsSound state assertion_failed = Unit

module _ (state : FeasibilityState) (limits : WitnessRepairLimits) where
  try_moves-IsSound :
      (deeper : ℕ → Mapping → Repair)
      → ((k : ℕ) (m : Mapping) → IsSound state (deeper k m))
      → (mapping : Mapping) (moves : List Move) (steps : ℕ)
      → IsSound state (try_moves deeper mapping moves steps)
  unfolding try_moves
  try_moves-IsSound deeper ih mapping [] steps = tt
  try_moves-IsSound deeper ih mapping ((slot, recipient) ∷ moves) steps =
      after (deeper (steps + 1) candidate) (ih (steps + 1) candidate)
        (try_moves-IsSound deeper ih mapping moves)
    where
      candidate : Mapping
      candidate = insert slot.slot_id recipient mapping

      after :
          (r : Repair)
          → IsSound state r
          → ((k : ℕ) → IsSound state (try_moves deeper mapping moves k))
          → IsSound state (elim r [
            | done (some m) steps' ↦ done (some m) steps'
            | done none steps' ↦ try_moves deeper mapping moves steps'
            | assertion_failed ↦ assertion_failed
          ])
      after (done (some m) k) h rest = h
      after (done none k) h rest = rest k
      after assertion_failed h rest = tt

  explore_moves-IsSound :
      (deeper : ℕ → Mapping → Repair)
      → ((k : ℕ) (m : Mapping) → IsSound state (deeper k m))
      → (steps : ℕ) (mapping : Mapping) (deltas : List Delta)
      → IsSound state (explore_moves state limits deeper steps mapping deltas)
  unfolding explore_moves
  explore_moves-IsSound deeper ih steps mapping deltas =
      elim (Option-cases (least (delta_ids (keep is_over deltas)))) [
        | inl e ↦ rw (e, IsSound) tt
        | inr (donor, e) ↦ rw (e, IsSound) (try_moves-IsSound deeper ih mapping _ steps)
      ]

  settled-IsSound :
      (steps : ℕ) (mapping : Mapping)
      → IsSound state (done (if mapping_is_exact state mapping then some mapping else none) steps)
  settled-IsSound steps mapping = elim (Bool-cases (mapping_is_exact state mapping)) [
    | inl e ↦ rw e e
    | inr e ↦ rw e tt
  ]

  repair_search-IsSound :
      (moves_left steps : ℕ) (mapping : Mapping)
      → IsSound state (repair_search state limits moves_left steps mapping)
  unfolding repair_search
  repair_search-IsSound zero steps mapping =
      elim (Bool-cases (all is_settled (assignment_deltas state mapping))) [
        | inl e ↦ rw e (settled-IsSound steps mapping)
        | inr e ↦ rw e tt
      ]
  repair_search-IsSound (suc moves_left) steps mapping =
      let ih = repair_search-IsSound moves_left in
      elim (Bool-cases (all is_settled (assignment_deltas state mapping))) [
        | inl e ↦ rw e (settled-IsSound steps mapping)
        | inr e ↦ elim (Bool-cases (leb limits.max_steps steps)) [
          | inl out ↦ rw (e, out) tt
          | inr more ↦
              rw (e, more)
                (explore_moves-IsSound (repair_search state limits moves_left) ih steps mapping
                  (assignment_deltas state mapping))
        ]
      ]

-- What a REPAIRED verdict promises about the state after the proposal.
abbrev pub HasRepair : FeasibilityState → WitnessRepairResult → Type 0
HasRepair prospective r =
    (m : Mapping) × (r.witness ≡ some (mapping_to_witness m))
    × MeetsTargets prospective (owners m prospective.slots)

repair_result-HasRepair :
    (prospective : FeasibilityState) (limits : WitnessRepairLimits) (out : Repair)
    {r : WitnessRepairResult}
    → IsSound prospective out
    → repair_result limits out ≡ some r
    → r.code ≡ repaired
    → HasRepair prospective r
unfolding repair_result
repair_result-HasRepair prospective limits (done (some m) steps) sound e h =
    (m, ground arith, (mapping_is_exact_iff prospective m).0 sound)
repair_result-HasRepair prospective limits (done none steps) sound e h =
    absurd (elim (Bool-cases (leb limits.max_steps steps)) [
      | inl b ↦ ground arith
      | inr b ↦ ground arith
    ])
repair_result-HasRepair prospective limits assertion_failed sound e h = absurd (ground arith)

repair_around-HasRepair :
    (limits : WitnessRepairLimits) (slot_id : TextId) (fast : FastGuardResult)
    (mapping : Option Mapping) {r : WitnessRepairResult}
    → repair_around limits slot_id fast mapping ≡ some r
    → r.code ≡ repaired
    → HasRepair fast.prospective_state r
unfolding repair_around
repair_around-HasRepair limits slot_id fast none e h = absurd (ground arith)
repair_around-HasRepair limits slot_id fast (some mapping) e h =
    repair_result-HasRepair fast.prospective_state limits _
      (repair_search-IsSound fast.prospective_state limits limits.max_moves 0 _) e h

judge_proposal-HasRepair :
    (state : FeasibilityState) (witness : List FeasibilityWitnessEntry) (slot_id : TextId)
    (limits : WitnessRepairLimits) (fast : FastGuardResult) {r : WitnessRepairResult}
    → judge_proposal state witness slot_id limits fast ≡ ok (some r)
    → r.code ≡ repaired
    → (is_safe fast ≡ true) × HasRepair fast.prospective_state r
unfolding judge_proposal
judge_proposal-HasRepair state witness slot_id limits fast {r} e h =
    elim (Bool-cases (is_safe fast)) [
      | inl safe ↦ (safe, from_mapping (validated_witness_mapping state witness) (rw safe at e))
      | inr unsafe ↦ absurd (ground (arith, unsafe))
    ]
  where
    from_mapping :
        (m : Result (Option Mapping))
        → (m >>= λ mapping. ok (repair_around limits slot_id fast mapping)) ≡ ok (some r)
        → HasRepair fast.prospective_state r
    from_mapping (ok mapping) p =
        repair_around-HasRepair limits slot_id fast mapping {r = r} (cc p) h
    from_mapping (err x) p = absurd (ground (arith, p))

-- A REPAIRED verdict on a proposal comes with the witness of a mapping under which the state after
-- the proposal is met exactly: each participant's remaining slots add up to the remaining target,
-- and nobody holds an activity twice. The fast guards had no finding.
pub repaired_is_exact :
    (state : FeasibilityState) (witness : List FeasibilityWitnessEntry)
    (slot_id participant_id : TextId) (limits : WitnessRepairLimits) {fast : FastGuardResult}
    {r : WitnessRepairResult}
    → compute_fast_feasibility_checks state slot_id participant_id ≡ ok fast
    → validate_proposed_assignment_against_witness state witness slot_id participant_id limits
      ≡ ok (some r)
    → r.code ≡ repaired
    → (is_safe fast ≡ true) × HasRepair fast.prospective_state r
unfolding validate_proposed_assignment_against_witness
repaired_is_exact state witness slot_id participant_id limits {fast} ef e h =
    judge_proposal-HasRepair state witness slot_id limits fast (rw ef at e) h
