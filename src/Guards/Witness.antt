-- ===== src/Guards/Witness.antt =====
-- `validate_feasibility_witness`: is a witness a complete exact mapping for a state?
use reparto_docente_m.Prelude.{
  ℕ, Bool, true, false, not, ◌&&◌, ◌+◌, ◌==◌, if◌then◌else◌, Option, none, some, List, [], ◌∷◌, map,
  contains, length, all, update,
}
use reparto_docente_m.Prelude.Dict.{Dict, find_or, insert, keys, values}
use reparto_docente_m.Feasibility.Types.{
  TextId, FeasibilityParticipant, FeasibilitySlot, FeasibilityState, FeasibilityWitnessEntry,
}
use reparto_docente_m.Guards.Types.{Result, ok, ◌>>=◌}
use reparto_docente_m.Guards.Fast.{participant_map, slot_map, participant_ids, slot_ids}

-- from a slot's identifier to a participant's
abbrev pub Mapping : Type 0
Mapping = Dict TextId

-- `{entry.slot_id: entry.participant_id for entry in witness}`
unfoldable pub mapping_of : List FeasibilityWitnessEntry → Mapping → Mapping
mapping_of [] mapping = mapping
mapping_of (e ∷ es) mapping = mapping_of es (insert e.slot_id e.participant_id mapping)

-- `mapping[slot_id]`; 0, the empty text, is read only where the key is missing, which the caller
-- has excluded.
abbrev pub owner_of : Mapping → FeasibilitySlot → TextId
owner_of mapping s = find_or mapping s.slot_id 0

abbrev pub owners : Mapping → List FeasibilitySlot → List TextId
owners mapping = map (owner_of mapping)

abbrev pub occupied_by : List FeasibilityParticipant → TextId → List TextId
occupied_by [] i = []
occupied_by (p ∷ ps) i = if i == p.participant_id then p.occupied_activity_ids else occupied_by ps i

-- The loop of `_mapping_is_exact` over the slots, with the hours assigned and the activities held
-- so far; `none` where it returns False.
unfoldable pub assign_slots :
    Mapping → List FeasibilitySlot → (TextId → ℕ) → (TextId → List TextId) → Option (TextId → ℕ)
assign_slots mapping [] assigned activities = some assigned
assign_slots mapping (s ∷ ss) assigned activities =
    let i = owner_of mapping s in
    let rest =
      assign_slots mapping ss (update assigned i (assigned i + s.hours_units))
        (update activities i (s.activity_id ∷ activities i)) in
    if contains (activities i) s.activity_id then none else rest

unfoldable pub mapping_is_exact : FeasibilityState → Mapping → Bool
unfolding assign_slots
mapping_is_exact state mapping =
    elim (assign_slots mapping state.slots (λ _. 0) (occupied_by state.participants)) [
      | none ↦ false
      | some assigned ↦
          all
            (λ (p : FeasibilityParticipant). assigned p.participant_id == p.remaining_target_units)
            state.participants
    ]

-- `set(xs) == set(ys)`
abbrev pub same_members : List TextId → List TextId → Bool
same_members xs ys = all (contains ys) xs && all (contains xs) ys

unfoldable pub mapping_is_complete :
    List FeasibilitySlot → List FeasibilityWitnessEntry → Mapping → Bool
mapping_is_complete slots witness mapping =
    length mapping == length witness && same_members (keys mapping) (slot_ids slots)

unfoldable pub validated_witness_mapping :
    FeasibilityState → List FeasibilityWitnessEntry → Result (Option Mapping)
unfolding slot_map participant_map mapping_of mapping_is_complete mapping_is_exact
validated_witness_mapping state witness = do
  slots ← slot_map state
  participants ← participant_map state
  let mapping = mapping_of witness []
  ok (
      if not (length witness == length slots)
      then none
      else if not (mapping_is_complete slots witness mapping)
      then none
      else if not (all (contains (participant_ids participants)) (values mapping))
      then none
      else if mapping_is_exact state mapping
      then some mapping
      else none)

abbrev pub is_some {ℓ} : {A : Type ℓ} → Option A → Bool
is_some none = false
is_some (some a) = true

unfoldable pub validate_feasibility_witness :
    FeasibilityState → List FeasibilityWitnessEntry → Result Bool
unfolding validated_witness_mapping
validate_feasibility_witness state witness = do
  mapping ← validated_witness_mapping state witness
  ok (is_some mapping)
