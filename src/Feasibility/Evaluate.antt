-- ===== src/Feasibility/Evaluate.antt =====
-- `evaluate_assignment_feasibility`: validation, the tests at the root, the search, the result.
use reparto_docente_m.Prelude.{
  ℕ, suc, Bool, ◌&&◌, ◌||◌, leb, ltb, ◌==◌, if◌then◌else◌, Option, none, some, List, [], ◌∷◌, map,
  contains, get_or, any,
}
use reparto_docente_m.Prelude.Sort.{sort_by}
use reparto_docente_m.Lifecycle.Status.{FeasibilityStatus}
use reparto_docente_m.Feasibility.Types.{
  TextId, FeasibilityParticipant, FeasibilitySlot, FeasibilityState, FeasibilityWitnessEntry,
  FeasibilityDiagnostic, FeasibilityResult, SolverLimits, Result, ok, err, ◌>>=◌,
  duplicate_participant_id, duplicate_slot_id, duplicate_logical_slot, unsatisfiable_targets,
}
use reparto_docente_m.Feasibility.Residual.{size_limit_diagnostic, root_infeasibility_diagnostic}
use reparto_docente_m.Feasibility.Search.{
  Outcome, found, failed, stopped, initial_workspace, search,
}

abbrev pub participant_le : FeasibilityParticipant → FeasibilityParticipant → Bool
participant_le a b = leb a.participant_id b.participant_id

-- `(-hours_units, activity_id, position_index, slot_id)`, compared as tuples
abbrev pub slot_le : FeasibilitySlot → FeasibilitySlot → Bool
slot_le a b =
    ltb b.hours_units a.hours_units
    || (a.hours_units == b.hours_units
        && (ltb a.activity_id b.activity_id
            || (a.activity_id == b.activity_id
                && (ltb a.position_index b.position_index
                    || (a.position_index == b.position_index && leb a.slot_id b.slot_id)))))

-- `_require_unique`: the first value that has been seen before.
unfoldable pub first_repeated : List TextId → List TextId → Option TextId
first_repeated seen [] = none
first_repeated seen (x ∷ xs) = if contains seen x then some x else first_repeated (x ∷ seen) xs

-- The text `activity_id\0position_index` determines both parts: no digit is a NUL.
abbrev pub LogicalSlot : Type 0
LogicalSlot = TextId × ℕ

unfoldable pub first_repeated_logical : List LogicalSlot → List LogicalSlot → Option LogicalSlot
first_repeated_logical seen [] = none
first_repeated_logical seen ((activity, position) ∷ rest) =
    if any (λ (s : LogicalSlot). activity == s.0 && position == s.1) seen
    then some (activity, position)
    else first_repeated_logical ((activity, position) ∷ seen) rest

abbrev pub logical_slots : List FeasibilitySlot → List LogicalSlot
logical_slots = map (λ (s : FeasibilitySlot). (s.activity_id, s.position_index))

abbrev pub Snapshot : Type 0
Snapshot = List FeasibilityParticipant × List FeasibilitySlot

unfoldable pub normalise_and_validate : FeasibilityState → Result Snapshot
unfolding first_repeated first_repeated_logical
normalise_and_validate state =
    let participants = sort_by participant_le state.participants in
    let slots = sort_by slot_le state.slots in
    elim (first_repeated [] (map (λ (p : FeasibilityParticipant). p.participant_id) participants)) [
      | some x ↦ err (duplicate_participant_id x)
      | none ↦ elim (first_repeated [] (map (λ (s : FeasibilitySlot). s.slot_id) slots)) [
        | some x ↦ err (duplicate_slot_id x)
        | none ↦ elim (first_repeated_logical [] (logical_slots slots)) [
          | some l ↦ err (duplicate_logical_slot l.0)
          | none ↦ ok (participants, slots)
        ]
      ]
    ]

-- `_result`
unfoldable pub make_result :
    FeasibilityStatus
    → Option (List FeasibilityWitnessEntry)
    → Option FeasibilityDiagnostic
    → ℕ
    → ℕ
    → FeasibilityResult
make_result status witness diagnostic explored hits = record {
  status = status;
  witness = witness;
  diagnostics = elim diagnostic [ none ↦ [] | some d ↦ d ∷ [] ];
  states_explored = explored;
  memoization_hits = hits;
}

abbrev pub no_participant : FeasibilityParticipant
no_participant = record {
  participant_id = 0;
  remaining_target_units = 0;
  occupied_activity_ids = [];
}

-- `self.participants[self.assignment[index]]`; after a successful search no entry is -1.
abbrev pub owner : List FeasibilityParticipant → Option ℕ → FeasibilityParticipant
owner participants none = no_participant
owner participants (some i) = get_or participants i no_participant

-- the witness over `enumerate(self.slots)`
unfoldable pub witness_from :
    List FeasibilityParticipant
    → List (Option ℕ)
    → ℕ
    → List FeasibilitySlot
    → List FeasibilityWitnessEntry
witness_from participants assignment index [] = []
witness_from participants assignment index (s ∷ ss) =
    record {
      slot_id = s.slot_id;
      participant_id = (owner participants (get_or assignment index none)).participant_id;
    }
    ∷ witness_from participants assignment (suc index) ss

-- `solve`, from the outcome of `_search(0)`
unfoldable pub translate_outcome :
    List FeasibilityParticipant → List FeasibilitySlot → Outcome → FeasibilityResult
unfolding make_result witness_from
translate_outcome participants slots (stopped code w) =
    make_result FeasibilityStatus.unknown none (some (record { code = code; related_ids = [] }))
      w.states_explored w.memoization_hits
translate_outcome participants slots (failed w) =
    make_result FeasibilityStatus.infeasible none
      (some (record { code = unsatisfiable_targets; related_ids = [] })) w.states_explored
      w.memoization_hits
translate_outcome participants slots (found w) =
    make_result FeasibilityStatus.feasible (some (witness_from participants w.assignment 0 slots))
      none w.states_explored w.memoization_hits

module _ (limits : SolverLimits) (elapsed : ℕ → ℕ) where
  unfoldable pub solve : List FeasibilityParticipant → List FeasibilitySlot → FeasibilityResult
  unfolding translate_outcome search initial_workspace
  solve participants slots =
      translate_outcome participants slots
        (search limits elapsed 0 slots (initial_workspace participants slots))

  -- the body after `_normalise_and_validate`
  unfoldable pub evaluate_snapshot : Snapshot → FeasibilityResult
  unfolding solve size_limit_diagnostic root_infeasibility_diagnostic make_result
  evaluate_snapshot (participants, slots) = elim (size_limit_diagnostic participants slots limits) [
    | some d ↦ make_result FeasibilityStatus.unknown none (some d) 0 0
    | none ↦ elim (root_infeasibility_diagnostic participants slots) [
      | some d ↦ make_result FeasibilityStatus.infeasible none (some d) 0 0
      | none ↦ solve participants slots
    ]
  ]

  unfoldable pub evaluate_assignment_feasibility : FeasibilityState → Result FeasibilityResult
  unfolding normalise_and_validate evaluate_snapshot
  evaluate_assignment_feasibility state = do
    snapshot ← normalise_and_validate state
    ok (evaluate_snapshot snapshot)
