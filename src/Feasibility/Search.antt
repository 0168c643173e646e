-- ===== src/Feasibility/Search.antt =====
-- `_FeasibilitySearch`: the bounded depth-first search over a workspace that it mutates.
use reparto_docente_m.Prelude.{
  ℕ, suc, Bool, true, false, not, ◌&&◌, ◌+◌, ◌-◌, leb, ◌==◌, if◌then◌else◌, Option, none, some,
  List, [], ◌∷◌, map, contains, get_or, set, length, all, any, keep, indices_from, list_eq,
  replicate,
}
use reparto_docente_m.Prelude.Sort.{sort_ids}
use reparto_docente_m.Feasibility.Types.{
  TextId, FeasibilityParticipant, FeasibilitySlot, FeasibilityDiagnosticCode, SolverLimits,
  step_limit, time_limit,
}
use reparto_docente_m.Feasibility.Residual.{residual_state_possible, targets_of, occupied_of}

-- `_state_key`: the slot's index, the targets and the sorted occupied sets.
pub record StateKey : Type 0 where
  pub slot_index : ℕ
  pub targets : List ℕ
  pub busy : List (List TextId)

abbrev pub lists_eq : List (List ℕ) → List (List ℕ) → Bool
lists_eq [] [] = true
lists_eq [] (y ∷ ys) = false
lists_eq (x ∷ xs) [] = false
lists_eq (x ∷ xs) (y ∷ ys) = list_eq x y && lists_eq xs ys

abbrev pub key_eq : StateKey → StateKey → Bool
key_eq a b = a.slot_index == b.slot_index && (list_eq a.targets b.targets && lists_eq a.busy b.busy)

-- An occupied set is a list; `add` puts the activity in front and `remove` takes it out again. An
-- assignment entry is `none` where the source has -1.
pub record Workspace : Type 0 where
  pub remaining : List ℕ
  pub occupied : List (List TextId)
  pub assignment : List (Option ℕ)
  pub memo : List StateKey
  pub states_explored : ℕ
  pub memoization_hits : ℕ

-- `__init__`
unfoldable pub initial_workspace : List FeasibilityParticipant → List FeasibilitySlot → Workspace
initial_workspace participants slots = record {
  remaining = targets_of participants;
  occupied = occupied_of participants;
  assignment = replicate (length slots) none;
  memo = [];
  states_explored = 0;
  memoization_hits = 0;
}

-- `_search` returns True or False, or raises `_BudgetExceeded`.
pub data Outcome : Type 0 where
  found failed : Workspace → Outcome
  stopped : FeasibilityDiagnosticCode → Workspace → Outcome

unfoldable pub state_key : ℕ → Workspace → StateKey
state_key index w = record {
  slot_index = index;
  targets = w.remaining;
  busy = map sort_ids w.occupied;
}

abbrev pub memo_has : StateKey → List StateKey → Bool
memo_has key = any (key_eq key)

unfoldable pub candidate_indices : FeasibilitySlot → Workspace → List ℕ
candidate_indices slot w =
    keep
      (λ i.
        leb slot.hours_units (get_or w.remaining i 0)
        && not (contains (get_or w.occupied i []) slot.activity_id))
      (indices_from (length w.remaining) 0)

-- `values.remove(a)`
abbrev pub remove_id : TextId → List TextId → List TextId
remove_id a [] = []
remove_id a (x ∷ xs) = if a == x then xs else x ∷ remove_id a xs

unfoldable pub assign : FeasibilitySlot → ℕ → ℕ → Workspace → Workspace
assign slot index p w = record w {
  assignment = set w.assignment index (some p);
  remaining = set w.remaining p (get_or w.remaining p 0 - slot.hours_units);
  occupied = set w.occupied p (slot.activity_id ∷ get_or w.occupied p []);
}

unfoldable pub unassign : FeasibilitySlot → ℕ → ℕ → Workspace → Workspace
unassign slot index p w = record w {
  assignment = set w.assignment index none;
  remaining = set w.remaining p (get_or w.remaining p 0 + slot.hours_units);
  occupied = set w.occupied p (remove_id slot.activity_id (get_or w.occupied p []));
}

-- `signature` of a participant, and `signature in seen_signatures`
abbrev pub Signature : Type 0
Signature = ℕ × List TextId

unfoldable pub signature : ℕ → Workspace → Signature
signature p w = (get_or w.remaining p 0, sort_ids (get_or w.occupied p []))

abbrev pub seen_before : Signature → List Signature → Bool
seen_before (target, busy) = any (λ (s : Signature). target == s.0 && list_eq busy s.1)

unfoldable pub remember : StateKey → Workspace → Workspace
remember key w = record w { memo = key ∷ w.memo }

module _ (limits : SolverLimits) (elapsed : ℕ → ℕ) where
  -- `elapsed k` is what the clock shows when `k` states have been explored.
  unfoldable pub time_limit_reached : ℕ → Bool
  time_limit_reached explored = elim (limits.max_seconds) [
    | none ↦ false
    | some bound ↦ leb bound (elapsed explored)
  ]

  -- `_consume_budget`, and the rest of the call where the budget allows it
  unfoldable pub consume_budget : Workspace → (Workspace → Outcome) → Outcome
  unfolding time_limit_reached
  consume_budget w continue =
      if leb limits.max_steps w.states_explored
      then stopped step_limit w
      else if time_limit_reached w.states_explored
      then stopped time_limit w
      else continue (record w { states_explored = w.states_explored + 1 })

  -- The loop over the candidates; `deeper` is the recursive call on the next slot.
  unfoldable pub try_candidates :
      (Workspace → Outcome)
      → FeasibilitySlot
      → ℕ
      → StateKey
      → List ℕ
      → List Signature
      → Workspace
      → Outcome
  unfolding signature assign unassign remember
  try_candidates deeper slot index key [] seen w = failed (remember key w)
  try_candidates deeper slot index key (p ∷ ps) seen w =
      let skip = try_candidates deeper slot index key ps seen w in
      let onward = try_candidates deeper slot index key ps (signature p w ∷ seen) in
      if seen_before (signature p w) seen then skip else elim (deeper (assign slot index p w)) [
        | found w' ↦ found w'
        | failed w' ↦ onward (unassign slot index p w')
        | stopped code w' ↦ stopped code w'
      ]

  -- `_search` after the budget, where no slot is left
  unfoldable pub finish : Workspace → Outcome
  finish w = if all (λ r. r == 0) w.remaining then found w else failed w

  -- `_search` after the budget, at a slot
  unfoldable pub visit :
      (Workspace → Outcome) → ℕ → FeasibilitySlot → List FeasibilitySlot → Workspace → Outcome
  unfolding try_candidates candidate_indices residual_state_possible state_key remember
  visit deeper index slot slots w =
      if memo_has (state_key index w) w.memo
      then failed (record w { memoization_hits = w.memoization_hits + 1 })
      else if not (residual_state_possible w.remaining w.occupied (slot ∷ slots))
      then failed (remember (state_key index w) w)
      else try_candidates deeper slot index (state_key index w) (candidate_indices slot w) [] w

  -- `_search(slot_index)`, on the slots from that index on
  unfoldable pub search : ℕ → List FeasibilitySlot → Workspace → Outcome
  unfolding consume_budget finish visit
  search index [] w = consume_budget w finish
  search index (slot ∷ slots) w =
      consume_budget w (visit (search (suc index) slots) index slot slots)
