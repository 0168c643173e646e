-- ===== src/Guards/Tests.antt =====
-- A proposal that the witness did not foresee, and the theorems at it.
use reparto_docente_m.Prelude.{ℕ, true, none, some, List, [], ◌∷◌, ◌≡◌, ◌≤◌, ◌+◌, ◌*◌, ◌↔◌, refl}
use reparto_docente_m.Feasibility.Types.{
  FeasibilityParticipant, FeasibilitySlot, FeasibilityState, FeasibilityWitnessEntry,
}
use reparto_docente_m.Guards.Types.{
  FastGuardResult, is_safe, WitnessRepairLimits, WitnessRepairResult, repaired, ok,
}
use reparto_docente_m.Guards.Matchings.{DistinctParticipants, guard_matching_iff}
use reparto_docente_m.Guards.Fast.{activity_has_matching, compute_fast_feasibility_checks}
use reparto_docente_m.Guards.Witness.{owners, mapping_is_exact}
use reparto_docente_m.Guards.Repair.{
  done, repair_search, validate_proposed_assignment_against_witness,
}
use reparto_docente_m.Guards.Exact.{MeetsTargets, mapping_is_exact_iff}
use reparto_docente_m.Guards.Repaired.{HasRepair, repaired_is_exact}
use reparto_docente_m.Guards.Steps.{repair_search_steps}

abbrev teacher : ℕ → ℕ → List ℕ → FeasibilityParticipant
teacher i target busy = record {
  participant_id = i;
  remaining_target_units = target;
  occupied_activity_ids = busy;
}

abbrev slot : ℕ → ℕ → FeasibilitySlot
slot i activity = record {
  slot_id = i;
  activity_id = activity;
  position_index = 0;
  hours_units = 300;
}

abbrev state : FeasibilityState
state = record {
  participants = teacher 1 300 [] ∷ teacher 2 300 [] ∷ [];
  slots = slot 11 7 ∷ slot 12 8 ∷ [];
}

abbrev entry : ℕ → ℕ → FeasibilityWitnessEntry
entry s p = record { slot_id = s; participant_id = p }

abbrev witness : List FeasibilityWitnessEntry
witness = entry 11 1 ∷ entry 12 2 ∷ []

abbrev limits : WitnessRepairLimits
limits = record { max_steps = 256; max_moves = 8 }

-- after participant 2 takes slot 11, which the witness gives to participant 1
abbrev prospective : FeasibilityState
prospective = record {
  participants = teacher 1 300 [] ∷ teacher 2 0 (7 ∷ []) ∷ [];
  slots = slot 12 8 ∷ [];
}

abbrev fast : FastGuardResult
fast = record { prospective_state = prospective; findings = [] }

abbrev verdict : WitnessRepairResult
verdict = record { code = repaired; witness = some (entry 12 1 ∷ []); steps = 1 }

fast_is_safe : compute_fast_feasibility_checks state 11 2 ≡ ok fast
unfolding compute_fast_feasibility_checks
fast_is_safe = refl

verdict_is_repaired :
    validate_proposed_assignment_against_witness state witness 11 2 limits ≡ ok (some verdict)
unfolding validate_proposed_assignment_against_witness
verdict_is_repaired = refl

repaired_is_exact_example : (is_safe fast ≡ true) × HasRepair fast.prospective_state verdict
repaired_is_exact_example =
    repaired_is_exact state witness 11 2 limits {fast = fast} {r = verdict} fast_is_safe
      verdict_is_repaired refl

mapping_is_exact_iff_example :
    (mapping_is_exact state ((11, 1) ∷ (12, 2) ∷ []) ≡ true)
    ↔ MeetsTargets state (owners ((11, 1) ∷ (12, 2) ∷ []) state.slots)
mapping_is_exact_iff_example = mapping_is_exact_iff state ((11, 1) ∷ (12, 2) ∷ [])

repair_search_steps_example : 1 ≤ 256 + 8 * 256
unfolding repair_search
repair_search_steps_example =
    repair_search_steps prospective limits ((12, 2) ∷ []) {m = some ((12, 1) ∷ [])} {steps = 1} refl

-- Two slots of three hours that nobody can hold exactly, and a limit of two steps: the second level
-- takes the last of them, and the loop above it goes on to a third.
abbrev unbalanced : FeasibilityState
unbalanced = record {
  participants = teacher 1 0 [] ∷ teacher 2 150 [] ∷ teacher 3 150 [] ∷ [];
  slots = slot 11 7 ∷ slot 12 8 ∷ [];
}

two_steps_end_at_three :
    repair_search unbalanced (record { max_steps = 2; max_moves = 8 }) 8 0 ((11, 1) ∷ (12, 1) ∷ [])
    ≡ done none 3
unfolding repair_search
two_steps_end_at_three = refl

guard_matching_iff_example :
    (activity_has_matching (slot 11 7 ∷ slot 12 7 ∷ []) (teacher 1 300 [] ∷ teacher 2 300 [] ∷ [])
      ≡ true)
    ↔ DistinctParticipants (slot 11 7 ∷ slot 12 7 ∷ []) (teacher 1 300 [] ∷ teacher 2 300 [] ∷ [])
guard_matching_iff_example =
    guard_matching_iff (slot 11 7 ∷ slot 12 7 ∷ []) (teacher 1 300 [] ∷ teacher 2 300 [] ∷ [])
