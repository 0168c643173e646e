-- ===== src/Guards/Fast.antt =====
-- `compute_fast_feasibility_checks`: one proposal applied, and the polynomial tests on what is left.
use reparto_docente_m.Prelude.{
  ℕ, Bool, true, false, not, ◌&&◌, ◌||◌, ◌-◌, leb, ltb, ◌==◌, if◌then◌else◌, Option, none, some,
  List, [], ◌∷◌, ◌++◌, map, contains, get_or, length, sum_by, keep,
}
use reparto_docente_m.Prelude.Sort.{sort_by}
use reparto_docente_m.Feasibility.Types.{
  TextId, FeasibilityParticipant, FeasibilitySlot, FeasibilityState,
}
use reparto_docente_m.Feasibility.Grouping
use reparto_docente_m.Feasibility.Grouping.{Groups}
use reparto_docente_m.Feasibility.Matching.{match_slots, no_slot}
use reparto_docente_m.Feasibility.Residual.{maximum, hours_of, targets_of}
use reparto_docente_m.Feasibility.Evaluate.{slot_le, first_repeated}
use reparto_docente_m.Guards.Types.{
  FastGuardFinding, FastGuardResult, residual_totals_mismatch, selected_slot_does_not_fit,
  selected_activity_already_occupied, slot_exceeds_every_target, distinct_teacher_shortfall, Result,
  ok, err, ◌>>=◌, duplicate_participant_id, duplicate_slot_id, unknown_participant, unknown_slot,
}

abbrev pub participant_ids : List FeasibilityParticipant → List TextId
participant_ids = map (λ (p : FeasibilityParticipant). p.participant_id)

abbrev pub slot_ids : List FeasibilitySlot → List TextId
slot_ids = map (λ (s : FeasibilitySlot). s.slot_id)

-- `_participant_map` raises on a repeated identifier; the map is read by `find_participant`.
unfoldable pub participant_map : FeasibilityState → Result (List FeasibilityParticipant)
unfolding first_repeated
participant_map state = elim (first_repeated [] (participant_ids state.participants)) [
  | none ↦ ok state.participants
  | some _ ↦ err duplicate_participant_id
]

unfoldable pub slot_map : FeasibilityState → Result (List FeasibilitySlot)
unfolding first_repeated
slot_map state = elim (first_repeated [] (slot_ids state.slots)) [
  | none ↦ ok state.slots
  | some _ ↦ err duplicate_slot_id
]

-- `participants.get(participant_id)` and `slots.get(slot_id)`
abbrev pub find_participant : TextId → List FeasibilityParticipant → Option FeasibilityParticipant
find_participant i [] = none
find_participant i (p ∷ ps) = if i == p.participant_id then some p else find_participant i ps

abbrev pub find_slot : TextId → List FeasibilitySlot → Option FeasibilitySlot
find_slot i [] = none
find_slot i (s ∷ ss) = if i == s.slot_id then some s else find_slot i ss

unfoldable pub proposal_findings : FeasibilityParticipant → FeasibilitySlot → List FastGuardFinding
proposal_findings participant slot =
    (if ltb participant.remaining_target_units slot.hours_units
      then record { code = selected_slot_does_not_fit; related_ids = slot.slot_id ∷ [] } ∷ []
      else [])
    ++ (if contains participant.occupied_activity_ids slot.activity_id
        then record {
          code = selected_activity_already_occupied;
          related_ids = slot.activity_id ∷ participant.participant_id ∷ [];
        }
          ∷ []
        else [])

-- The subtraction stops at 0, as `max(0, …)` does in the source. A set union adds a new member.
unfoldable pub updated_participant :
    FeasibilityParticipant → FeasibilitySlot → FeasibilityParticipant
updated_participant participant slot = record {
  participant_id = participant.participant_id;
  remaining_target_units = participant.remaining_target_units - slot.hours_units;
  occupied_activity_ids =
      if contains participant.occupied_activity_ids slot.activity_id
      then participant.occupied_activity_ids
      else slot.activity_id ∷ participant.occupied_activity_ids;
}

unfoldable pub apply_proposal :
    FeasibilityState → FeasibilityParticipant → FeasibilitySlot → FeasibilityState
unfolding updated_participant
apply_proposal state participant slot = record {
  participants =
      map
        (λ (item : FeasibilityParticipant).
          if item.participant_id == participant.participant_id
          then updated_participant participant slot
          else item)
        state.participants;
  slots = keep (λ (item : FeasibilitySlot). not (item.slot_id == slot.slot_id)) state.slots;
}

-- `_slots_by_activity` sorts the groups by activity and the slots of each by `_slot_key`.
unfoldable pub slots_by_activity : List FeasibilitySlot → Groups
unfolding Grouping.slots_by_activity
slots_by_activity slots =
    map (λ (g : TextId × List FeasibilitySlot). (g.0, sort_by slot_le g.1))
      (sort_by (λ (g h : TextId × List FeasibilitySlot). leb g.0 h.0)
        (Grouping.slots_by_activity slots))

unfoldable pub is_candidate : FeasibilityParticipant → FeasibilitySlot → Bool
is_candidate participant slot =
    leb slot.hours_units participant.remaining_target_units
    && not (contains participant.occupied_activity_ids slot.activity_id)

-- A participant is found by its identifier, as the loop over the participants has it at hand.
abbrev pub candidate_by_id : List FeasibilitySlot → List FeasibilityParticipant → ℕ → TextId → Bool
candidate_by_id slots participants slot i = elim (find_participant i participants) [
  | none ↦ false
  | some p ↦ is_candidate p (get_or slots slot no_slot)
]

-- `_activity_has_matching` with `_augment_match`
unfoldable pub activity_has_matching : List FeasibilitySlot → List FeasibilityParticipant → Bool
unfolding match_slots is_candidate
activity_has_matching slots participants =
    match_slots (candidate_by_id slots participants) (participant_ids participants) (length slots) 0
      (λ _. none)

-- `max(state.slots, key=lambda item: (item.hours_units, item.slot_id))`, the first of the largest
unfoldable pub largest_slot : FeasibilitySlot → List FeasibilitySlot → FeasibilitySlot
largest_slot best [] = best
largest_slot best (s ∷ ss) =
    largest_slot
      (if ltb best.hours_units s.hours_units
          || (best.hours_units == s.hours_units && ltb best.slot_id s.slot_id)
        then s
        else best)
      ss

abbrev pub no_participants : List FeasibilityParticipant → Bool
no_participants [] = true
no_participants (p ∷ ps) = false

unfoldable pub totals_findings : FeasibilityState → List FastGuardFinding
totals_findings state =
    if sum_by (λ (p : FeasibilityParticipant). p.remaining_target_units) state.participants
      == sum_by (λ (s : FeasibilitySlot). s.hours_units) state.slots
    then []
    else record { code = residual_totals_mismatch; related_ids = [] } ∷ []

unfoldable pub oversized_findings :
    List FeasibilityParticipant → List FeasibilitySlot → List FastGuardFinding
unfolding largest_slot
oversized_findings participants [] = []
oversized_findings participants (s ∷ ss) =
    if no_participants participants
      || ltb (maximum (targets_of participants)) (maximum (hours_of (s ∷ ss)))
    then record { code = slot_exceeds_every_target; related_ids = (largest_slot s ss).slot_id ∷ [] }
      ∷ []
    else []

unfoldable pub shortfall_findings : List FeasibilityParticipant → Groups → List FastGuardFinding
unfolding activity_has_matching
shortfall_findings participants [] = []
shortfall_findings participants ((activity, slots) ∷ groups) =
    if not (activity_has_matching slots participants)
    then record { code = distinct_teacher_shortfall; related_ids = activity ∷ [] }
      ∷ shortfall_findings participants groups
    else shortfall_findings participants groups

unfoldable pub prospective_findings : FeasibilityState → List FastGuardFinding
unfolding totals_findings oversized_findings shortfall_findings slots_by_activity
prospective_findings state =
    totals_findings state
    ++ (oversized_findings state.participants state.slots
        ++ shortfall_findings state.participants (slots_by_activity state.slots))

-- the body of the function, once both ids are known
unfoldable pub checked_proposal :
    FeasibilityState → FeasibilityParticipant → FeasibilitySlot → FastGuardResult
unfolding proposal_findings apply_proposal prospective_findings
checked_proposal state participant slot =
    let prospective = apply_proposal state participant slot in
    record {
      prospective_state = prospective;
      findings = proposal_findings participant slot ++ prospective_findings prospective;
    }

unfoldable pub compute_fast_feasibility_checks :
    FeasibilityState → TextId → TextId → Result FastGuardResult
unfolding participant_map slot_map checked_proposal
compute_fast_feasibility_checks state proposed_slot_id proposed_participant_id = do
  participants ← participant_map state
  slots ← slot_map state
  elim (find_participant proposed_participant_id participants) [
    | none ↦ err (unknown_participant proposed_participant_id)
    | some participant ↦ elim (find_slot proposed_slot_id slots) [
      | none ↦ err (unknown_slot proposed_slot_id)
      | some slot ↦ ok (checked_proposal state participant slot)
    ]
  ]
