-- ===== src/Feasibility/Tests.antt =====
-- Concrete snapshots, and the theorems at them.
use reparto_docente_m.Feasibility.Residual.{residual_state_possible}
use reparto_docente_m.Feasibility.Pruning.{IsExactIn, residual_state_possible_lem}
use reparto_docente_m.Feasibility.Infeasible.{infeasible_is_impossible}
use reparto_docente_m.Feasibility.Matching.{activity_has_matching}
use reparto_docente_m.Feasibility.Matchings.{DistinctTeachers, activity_has_matching_iff}
use reparto_docente_m.Prelude.{ℕ, arith, true, ◌↔◌, none, some, List, [], ◌∷◌, ◌≡◌, refl}
use reparto_docente_m.Lifecycle.Status.{FeasibilityStatus}
use reparto_docente_m.Feasibility.Types.{
  FeasibilityParticipant, FeasibilitySlot, FeasibilityState, FeasibilityResult, SolverLimits, ok,
  unsatisfiable_targets,
}
use reparto_docente_m.Prelude.Sort.{sort_by}
use reparto_docente_m.Feasibility.Evaluate.{
  participant_le, slot_le, evaluate_assignment_feasibility,
}
use reparto_docente_m.Feasibility.Feasible.{IsExactFor, witness_of, feasible_is_exact}

abbrev limits : SolverLimits
limits = record { max_participants = 30; max_slots = 100; max_steps = 1000; max_seconds = some 100 }

abbrev steady : ℕ → ℕ
steady k = 0

abbrev teacher : ℕ → ℕ → List ℕ → FeasibilityParticipant
teacher i target busy = record {
  participant_id = i;
  remaining_target_units = target;
  occupied_activity_ids = busy;
}

abbrev slot : ℕ → ℕ → ℕ → ℕ → FeasibilitySlot
slot i activity position hours = record {
  slot_id = i;
  activity_id = activity;
  position_index = position;
  hours_units = hours;
}

abbrev department : FeasibilityState
department = record {
  participants = teacher 2 500 [] ∷ teacher 1 500 (8 ∷ []) ∷ [];
  slots = slot 11 7 0 300 ∷ slot 12 7 1 300 ∷ slot 13 8 0 200 ∷ slot 14 9 0 200 ∷ [];
}

abbrev answer : FeasibilityResult
answer = record {
  status = FeasibilityStatus.feasible;
  witness = some (
      record { slot_id = 11; participant_id = 1 }
      ∷ record { slot_id = 12; participant_id = 2 }
      ∷ record { slot_id = 13; participant_id = 2 }
      ∷ record { slot_id = 14; participant_id = 1 }
      ∷ []);
  diagnostics = [];
  states_explored = 5;
  memoization_hits = 0;
}

department-answer : evaluate_assignment_feasibility limits steady department ≡ ok answer
unfolding evaluate_assignment_feasibility
department-answer = refl

feasible_is_exact_example :
    (os : List ℕ) × (answer.witness
      ≡ some (
          witness_of
            (sort_by participant_le department.participants)
            (sort_by slot_le department.slots)
            os))
    × IsExactFor
        (sort_by participant_le department.participants)
        (sort_by slot_le department.slots)
        os
feasible_is_exact_example =
    feasible_is_exact limits steady department {r = answer} department-answer refl

-- Two slots of one activity and two teachers.
activity_has_matching_iff_example :
    (activity_has_matching
        (slot 11 7 0 300 ∷ slot 12 7 1 200 ∷ [])
        (300 ∷ 300 ∷ [])
        ([] ∷ (8 ∷ []) ∷ [])
      ≡ true)
    ↔ DistinctTeachers
        (slot 11 7 0 300 ∷ slot 12 7 1 200 ∷ [])
        (300 ∷ 300 ∷ [])
        ([] ∷ (8 ∷ []) ∷ [])
activity_has_matching_iff_example =
    activity_has_matching_iff (slot 11 7 0 300 ∷ slot 12 7 1 200 ∷ []) (300 ∷ 300 ∷ [])
      ([] ∷ (8 ∷ []) ∷ [])

-- Two slots of 500 and one of 200 cannot meet two targets of 600; the tests at the root let it pass.
abbrev odd_department : FeasibilityState
odd_department = record {
  participants = teacher 1 600 [] ∷ teacher 2 600 [] ∷ [];
  slots = slot 11 7 0 500 ∷ slot 12 8 0 500 ∷ slot 13 9 0 200 ∷ [];
}

abbrev refusal : FeasibilityResult
refusal = record {
  status = FeasibilityStatus.infeasible;
  witness = none;
  diagnostics = record { code = unsatisfiable_targets; related_ids = [] } ∷ [];
  states_explored = 2;
  memoization_hits = 0;
}

odd_department-refusal : evaluate_assignment_feasibility limits steady odd_department ≡ ok refusal
unfolding evaluate_assignment_feasibility
odd_department-refusal = refl

infeasible_is_impossible_example :
    ¬ IsExactFor
      (sort_by participant_le odd_department.participants)
      (sort_by slot_le odd_department.slots)
      (0 ∷ 1 ∷ 0 ∷ [])
infeasible_is_impossible_example =
    infeasible_is_impossible limits steady odd_department {r = refusal} odd_department-refusal refl
      (0 ∷ 1 ∷ 0 ∷ [])

-- One slot of 300 for one teacher with a target of 300.
one_slot-IsExactIn : IsExactIn (300 ∷ []) ((8 ∷ []) ∷ []) (slot 11 7 0 300 ∷ []) (0 ∷ [])
one_slot-IsExactIn = record {
  complete = refl;
  known = (omega arith, tt);
  met = λ i h. ground (arith, h);
  distinct = λ i a h. ground (arith, h);
}

residual_state_possible_lem_example :
    residual_state_possible (300 ∷ []) ((8 ∷ []) ∷ []) (slot 11 7 0 300 ∷ []) ≡ true
residual_state_possible_lem_example =
    residual_state_possible_lem (300 ∷ []) ((8 ∷ []) ∷ []) (slot 11 7 0 300 ∷ []) (0 ∷ [])
      one_slot-IsExactIn
