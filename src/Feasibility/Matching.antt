-- ===== src/Feasibility/Matching.antt =====
-- `_activity_has_matching` and its augmenting-path search.
use reparto_docente_m.Prelude.{
  ℕ, zero, suc, Bool, true, false, not, ◌&&◌, leb, ◌==◌, if◌then◌else◌, Option, none, some, List,
  [], ◌∷◌, contains, get_or, length, indices_from,
}
use reparto_docente_m.Feasibility.Types.{TextId, FeasibilitySlot}

abbrev pub no_slot : FeasibilitySlot
no_slot = record { slot_id = 0; activity_id = 0; position_index = 0; hours_units = 0 }

-- `matches: dict[int, int]`, from a participant's index to a slot's.
abbrev pub Matches : Type 0
Matches = ℕ → Option ℕ

abbrev pub match_to : Matches → ℕ → ℕ → Matches
match_to matches participant slot i = if i == participant then some slot else matches i

-- `_augment_activity_match` returns, or its recursion is cut by the fuel.
pub data Augment : Type 0 where
  matched : Matches → List ℕ → Augment
  unmatched : List ℕ → Augment
  out_of_fuel : Augment

unfoldable pub is_activity_candidate : FeasibilitySlot → ℕ → List ℕ → List (List TextId) → Bool
is_activity_candidate slot participant remaining occupied =
    leb slot.hours_units (get_or remaining participant 0)
    && not (contains (get_or occupied participant []) slot.activity_id)

-- The search that `_augment_activity_match` here and `_augment_match` of selection_guards.py make,
-- over the participants' keys (indices here, identifiers there) and the test whether a slot's index
-- and a key are candidates for one another.
module _ (can : ℕ → ℕ → Bool) (keys : List ℕ) where
  -- The loop over the participants; `again` is the recursive call on the slot that a participant
  -- gives up. A failed call changes the visited set alone.
  unfoldable pub augment_loop :
      (ℕ → Matches → List ℕ → Augment) → ℕ → List ℕ → Matches → List ℕ → Augment
  augment_loop again slot [] matches visited = unmatched visited
  augment_loop again slot (p ∷ ps) matches visited =
      let next = λ (seen : List ℕ). augment_loop again slot ps matches seen in
      if not (can slot p)
      then next visited
      else if contains visited p
      then next visited
      else elim (matches p) [
        | none ↦ matched (match_to matches p slot) (p ∷ visited)
        | some previous ↦ elim (again previous matches (p ∷ visited)) [
          | matched matches' visited' ↦ matched (match_to matches' p slot) visited'
          | unmatched visited' ↦ next visited'
          | out_of_fuel ↦ out_of_fuel
        ]
      ]

  unfoldable pub augment : ℕ → ℕ → Matches → List ℕ → Augment
  unfolding augment_loop
  augment zero slot matches visited = out_of_fuel
  augment (suc fuel) slot matches visited = augment_loop (augment fuel) slot keys matches visited

  -- Every call but the first has marked one more participant, so this depth is never passed.
  abbrev pub depth : ℕ
  depth = suc (length keys)

  -- the slots from an index on, as many as the first argument says
  unfoldable pub match_slots : ℕ → ℕ → Matches → Bool
  unfolding augment
  match_slots zero slot matches = true
  match_slots (suc count) slot matches = elim (augment depth slot matches []) [
    | matched matches' _ ↦ match_slots count (suc slot) matches'
    | unmatched _ ↦ false
    | out_of_fuel ↦ false
  ]

abbrev pub candidate_at : List FeasibilitySlot → List ℕ → List (List TextId) → ℕ → ℕ → Bool
candidate_at items remaining occupied slot p =
    is_activity_candidate (get_or items slot no_slot) p remaining occupied

unfoldable pub activity_has_matching : List FeasibilitySlot → List ℕ → List (List TextId) → Bool
unfolding match_slots is_activity_candidate
activity_has_matching items remaining occupied =
    match_slots (candidate_at items remaining occupied) (indices_from (length remaining) 0)
      (length items) 0 (λ _. none)
