-- ===== src/Guards/Repair.antt =====
-- `validate_proposed_assignment_against_witness` and its bounded local search. Differences of hours
-- are kept as two naturals: what is assigned and the target.
use reparto_docente_m.Prelude.{
  ℕ, zero, suc, Bool, not, ◌&&◌, ◌+◌, ◌-◌, leb, ltb, ◌==◌, if◌then◌else◌, Option, none, some, List,
  [], ◌∷◌, ◌++◌, map, contains, all, keep,
}
use reparto_docente_m.Prelude.Sort.{sort_by, sort_ids}
use reparto_docente_m.Prelude.Dict.{insert, pop}
use reparto_docente_m.Feasibility.Types.{
  TextId, FeasibilityParticipant, FeasibilitySlot, FeasibilityState, FeasibilityWitnessEntry,
}
use reparto_docente_m.Feasibility.Matching.{no_slot}
use reparto_docente_m.Feasibility.Evaluate.{slot_le}
use reparto_docente_m.Guards.Types.{
  FastGuardResult, is_safe, WitnessRepairLimits, WitnessRepairResult, repaired, invalid_witness,
  fast_guard_failed, repair_limit_reached, local_repair_not_found, Result, ok, ◌>>=◌,
}
use reparto_docente_m.Guards.Fast.{compute_fast_feasibility_checks}
use reparto_docente_m.Guards.Witness.{
  Mapping, occupied_by, mapping_is_exact, validated_witness_mapping,
}

-- `slots[slot_id]`
abbrev pub slot_at : List FeasibilitySlot → TextId → FeasibilitySlot
slot_at [] i = no_slot
slot_at (s ∷ ss) i = if i == s.slot_id then s else slot_at ss i

abbrev pub target_of : List FeasibilityParticipant → TextId → ℕ
target_of [] i = 0
target_of (p ∷ ps) i = if i == p.participant_id then p.remaining_target_units else target_of ps i

-- `assigned[participant_id]` of `_assignment_deltas`
abbrev pub assigned_hours : List FeasibilitySlot → Mapping → TextId → ℕ
assigned_hours slots [] i = 0
assigned_hours slots ((slot_id, j) ∷ mapping) i =
    (if j == i then (slot_at slots slot_id).hours_units else 0) + assigned_hours slots mapping i

-- `_assignment_deltas`: for each participant what is assigned, and the target.
abbrev pub Delta : Type 0
Delta = TextId × ℕ × ℕ

unfoldable pub assignment_deltas : FeasibilityState → Mapping → List Delta
assignment_deltas state mapping =
    map
      (λ (p : FeasibilityParticipant). (
        p.participant_id,
        assigned_hours state.slots mapping p.participant_id,
        p.remaining_target_units,
      ))
      state.participants

abbrev pub is_settled : Delta → Bool
is_settled (i, assigned, target) = assigned == target

abbrev pub is_over : Delta → Bool
is_over (i, assigned, target) = ltb target assigned

abbrev pub is_under : Delta → Bool
is_under (i, assigned, target) = ltb assigned target

abbrev pub delta_ids : List Delta → List TextId
delta_ids = map (λ (d : Delta). d.0)

-- `deltas[donor]`, where it is positive
abbrev pub surplus : TextId → List Delta → ℕ
surplus i [] = 0
surplus i ((j, assigned, target) ∷ ds) = if i == j then assigned - target else surplus i ds

-- `min(xs, default=None)`
abbrev pub least : List TextId → Option TextId
least [] = none
least (x ∷ xs) = elim (least xs) [ none ↦ some x | some y ↦ if leb x y then some x else some y ]

-- `slots[key].activity_id for key, owner in mapping.items() if owner == recipient and …`
abbrev pub held_activities : List FeasibilitySlot → Mapping → TextId → TextId → List TextId
held_activities slots [] recipient except = []
held_activities slots ((slot_id, owner) ∷ mapping) recipient except =
    if owner == recipient && not (slot_id == except)
    then (slot_at slots slot_id).activity_id ∷ held_activities slots mapping recipient except
    else held_activities slots mapping recipient except

unfoldable pub recipient_can_take : FeasibilityState → Mapping → TextId → FeasibilitySlot → Bool
recipient_can_take state mapping recipient slot = not (
    contains
      (occupied_by state.participants recipient
        ++ held_activities state.slots mapping recipient slot.slot_id)
      slot.activity_id)

abbrev pub Move : Type 0
Move = FeasibilitySlot × TextId

-- the inner loop of `_repair_moves`
abbrev pub moves_of_slot : FeasibilityState → Mapping → FeasibilitySlot → List TextId → List Move
moves_of_slot state mapping slot [] = []
moves_of_slot state mapping slot (r ∷ rs) =
    if recipient_can_take state mapping r slot
    then (slot, r) ∷ moves_of_slot state mapping slot rs
    else moves_of_slot state mapping slot rs

abbrev pub moves_of_slots :
    FeasibilityState → Mapping → ℕ → List TextId → List FeasibilitySlot → List Move
moves_of_slots state mapping excess recipients [] = []
moves_of_slots state mapping excess recipients (s ∷ ss) =
    if ltb excess s.hours_units
    then moves_of_slots state mapping excess recipients ss
    else moves_of_slot state mapping s recipients
      ++ moves_of_slots state mapping excess recipients ss

abbrev pub slots_owned_by : List FeasibilitySlot → Mapping → TextId → List FeasibilitySlot
slots_owned_by slots [] donor = []
slots_owned_by slots ((slot_id, owner) ∷ mapping) donor =
    if owner == donor
    then slot_at slots slot_id ∷ slots_owned_by slots mapping donor
    else slots_owned_by slots mapping donor

unfoldable pub repair_moves : FeasibilityState → Mapping → List Delta → TextId → List Move
unfolding recipient_can_take
repair_moves state mapping deltas donor =
    moves_of_slots state mapping (surplus donor deltas)
      (sort_ids (delta_ids (keep is_under deltas)))
      (sort_by slot_le (slots_owned_by state.slots mapping donor))

-- `moves[:n]`
abbrev pub take {ℓ} : {A : Type ℓ} → ℕ → List A → List A
take zero xs = []
take (suc n) [] = []
take (suc n) (x ∷ xs) = x ∷ take n xs

-- A mapping or None, with the shared step counter. `assert donor is not None` may fail.
pub data Repair : Type 0 where
  done : Option Mapping → ℕ → Repair
  assertion_failed : Repair

-- The loop over the moves; `deeper` is the recursive call.
unfoldable pub try_moves : (ℕ → Mapping → Repair) → Mapping → List Move → ℕ → Repair
try_moves deeper mapping [] steps = done none steps
try_moves deeper mapping ((slot, recipient) ∷ moves) steps =
    let next = try_moves deeper mapping moves in
    elim (deeper (steps + 1) (insert slot.slot_id recipient mapping)) [
      | done (some m) steps' ↦ done (some m) steps'
      | done none steps' ↦ next steps'
      | assertion_failed ↦ assertion_failed
    ]

module _ (state : FeasibilityState) (limits : WitnessRepairLimits) where
  -- `_repair_search` where the mapping is not balanced and the bounds allow another move
  unfoldable pub explore_moves : (ℕ → Mapping → Repair) → ℕ → Mapping → List Delta → Repair
  unfolding try_moves repair_moves
  explore_moves deeper steps mapping deltas = elim (least (delta_ids (keep is_over deltas))) [
    | none ↦ assertion_failed
    | some donor ↦
        try_moves deeper mapping
          (take (limits.max_steps - steps) (repair_moves state mapping deltas donor)) steps
  ]

  -- `_repair_search`; the first argument is `max_moves - moves`
  unfoldable pub repair_search : ℕ → ℕ → Mapping → Repair
  unfolding explore_moves assignment_deltas mapping_is_exact
  repair_search zero steps mapping =
      if all is_settled (assignment_deltas state mapping)
      then done (if mapping_is_exact state mapping then some mapping else none) steps
      else done none steps
  repair_search (suc moves_left) steps mapping =
      if all is_settled (assignment_deltas state mapping)
      then done (if mapping_is_exact state mapping then some mapping else none) steps
      else if leb limits.max_steps steps
      then done none steps
      else explore_moves (repair_search moves_left) steps mapping (assignment_deltas state mapping)

-- `_mapping_to_witness`: the entries, sorted by slot
unfoldable pub mapping_to_witness : Mapping → List FeasibilityWitnessEntry
mapping_to_witness mapping =
    map (λ (e : TextId × TextId). record { slot_id = e.0; participant_id = e.1 })
      (sort_by (λ (a b : TextId × TextId). leb a.0 b.0) mapping)

-- the result of `_repair_mapping`, as the caller reports it; `none` for the failed assertion
unfoldable pub repair_result : WitnessRepairLimits → Repair → Option WitnessRepairResult
unfolding mapping_to_witness
repair_result limits assertion_failed = none
repair_result limits (done none steps) = some (record {
  code = if leb limits.max_steps steps then repair_limit_reached else local_repair_not_found;
  witness = none;
  steps = steps;
})
repair_result limits (done (some mapping) steps) =
    some (record { code = repaired; witness = some (mapping_to_witness mapping); steps = steps })

-- the outcome once the fast guards have answered and the witness has been read
unfoldable pub repair_around :
    WitnessRepairLimits → TextId → FastGuardResult → Option Mapping → Option WitnessRepairResult
unfolding repair_result repair_search
repair_around limits proposed_slot_id fast none =
    some (record { code = invalid_witness; witness = none; steps = 0 })
repair_around limits proposed_slot_id fast (some mapping) =
    repair_result limits (
      repair_search fast.prospective_state limits limits.max_moves 0 (pop proposed_slot_id mapping))

-- the body of the function, once the fast guards have answered
unfoldable pub judge_proposal :
    FeasibilityState
    → List FeasibilityWitnessEntry
    → TextId
    → WitnessRepairLimits
    → FastGuardResult
    → Result (Option WitnessRepairResult)
unfolding validated_witness_mapping repair_around is_safe
judge_proposal state witness proposed_slot_id limits fast =
    if not (is_safe fast)
    then ok (some (record { code = fast_guard_failed; witness = none; steps = 0 }))
    else validated_witness_mapping state witness >>= λ mapping.
        ok (repair_around limits proposed_slot_id fast mapping)

unfoldable pub validate_proposed_assignment_against_witness :
    FeasibilityState
    → List FeasibilityWitnessEntry
    → TextId
    → TextId
    → WitnessRepairLimits
    → Result (Option WitnessRepairResult)
unfolding compute_fast_feasibility_checks judge_proposal
validate_proposed_assignment_against_witness state witness slot_id participant_id limits = do
  fast ← compute_fast_feasibility_checks state slot_id participant_id
  judge_proposal state witness slot_id limits fast
