-- ===== src/Feasibility/Residual.antt =====
-- The pruning tests: `_residual_state_possible` and what it calls, and the tests at the root.
use reparto_docente_m.Prelude.{
  ℕ, zero, suc, Bool, true, false, not, ◌&&◌, ◌||◌, ◌%◌, max, leb, ltb, ◌==◌, if◌then◌else◌, Option,
  none, some, List, [], ◌∷◌, ◌++◌, map, contains, length, all, sum_by,
}
use reparto_docente_m.Feasibility.Types.{
  TextId, FeasibilityParticipant, FeasibilitySlot, FeasibilityDiagnostic, SolverLimits,
  incompatible_residual_totals, slot_exceeds_every_target, distinct_teacher_shortfall,
  instance_size_limit,
}
use reparto_docente_m.Feasibility.Grouping.{Groups, slots_by_activity}
use reparto_docente_m.Feasibility.Matching.{activity_has_matching}

-- `max(xs, default=0)`. Without a default `max` raises on an empty list: the search calls it only
-- where a slot remains, and a snapshot with slots and no participant is refused at the root.
abbrev pub maximum : List ℕ → ℕ
maximum [] = 0
maximum (x ∷ xs) = max x (maximum xs)

-- Euclid's algorithm; the second argument falls, so it bounds the rounds.
unfoldable pub gcd_rounds : ℕ → ℕ → ℕ → ℕ
gcd_rounds zero a b = a
gcd_rounds (suc fuel) a b = let rest = gcd_rounds fuel b (a % b) in if b == 0 then a else rest

unfoldable pub gcd : ℕ → ℕ → ℕ
unfolding gcd_rounds
gcd a b = gcd_rounds (suc b) a b

-- `math.gcd(*values)`
unfoldable pub gcd_all : List ℕ → ℕ
unfolding gcd
gcd_all [] = 0
gcd_all (x ∷ xs) = gcd x (gcd_all xs)

abbrev pub hours_of : List FeasibilitySlot → List ℕ
hours_of = map (λ (s : FeasibilitySlot). s.hours_units)

-- `_eligible_activity_hours` for one participant: the groups of the slots that it could take.
unfoldable pub eligible_slots : ℕ → List TextId → List FeasibilitySlot → List FeasibilitySlot
eligible_slots target busy [] = []
eligible_slots target busy (s ∷ ss) =
    if not (contains busy s.activity_id) && leb s.hours_units target
    then s ∷ eligible_slots target busy ss
    else eligible_slots target busy ss

unfoldable pub eligible_activity_hours : ℕ → List TextId → List FeasibilitySlot → Groups
unfolding eligible_slots slots_by_activity
eligible_activity_hours target busy slots = slots_by_activity (eligible_slots target busy slots)

-- `sum(max(values) for values in eligible_hours.values())`
abbrev pub best_hours : Groups → ℕ
best_hours = sum_by (λ (g : TextId × List FeasibilitySlot). maximum (hours_of g.1))

abbrev pub all_hours : Groups → List ℕ
all_hours [] = []
all_hours ((_, items) ∷ groups) = hours_of items ++ all_hours groups

abbrev pub no_groups : Groups → Bool
no_groups [] = true
no_groups (g ∷ gs) = false

-- the body of the loop in `_targets_reachable`
unfoldable pub target_reachable : ℕ → Groups → Bool
unfolding gcd_all
target_reachable target eligible =
    if target == 0
    then true
    else if no_groups eligible || ltb (best_hours eligible) target
    then false
    else target % gcd_all (all_hours eligible) == 0

unfoldable pub targets_reachable : List ℕ → List (List TextId) → List FeasibilitySlot → Bool
unfolding target_reachable eligible_activity_hours
targets_reachable [] occupied slots = true
targets_reachable (target ∷ remaining) [] slots = true
targets_reachable (target ∷ remaining) (busy ∷ occupied) slots =
    target_reachable target (eligible_activity_hours target busy slots)
    && targets_reachable remaining occupied slots

unfoldable pub distinct_pools_sufficient : List ℕ → List (List TextId) → List FeasibilitySlot → Bool
unfolding slots_by_activity activity_has_matching
distinct_pools_sufficient remaining occupied slots =
    all (λ (g : TextId × List FeasibilitySlot). activity_has_matching g.1 remaining occupied)
      (slots_by_activity slots)

-- `remaining_slots and remaining_slots[0].hours_units > max(self.remaining)`
abbrev pub first_too_large : List FeasibilitySlot → List ℕ → Bool
first_too_large [] remaining = false
first_too_large (s ∷ ss) remaining = ltb (maximum remaining) s.hours_units

unfoldable pub residual_state_possible : List ℕ → List (List TextId) → List FeasibilitySlot → Bool
unfolding targets_reachable distinct_pools_sufficient
residual_state_possible remaining occupied slots =
    if first_too_large slots remaining
    then false
    else if not (targets_reachable remaining occupied slots)
    then false
    else distinct_pools_sufficient remaining occupied slots

abbrev pub targets_of : List FeasibilityParticipant → List ℕ
targets_of = map (λ (p : FeasibilityParticipant). p.remaining_target_units)

abbrev pub occupied_of : List FeasibilityParticipant → List (List TextId)
occupied_of = map (λ (p : FeasibilityParticipant). p.occupied_activity_ids)

unfoldable pub size_limit_diagnostic :
    List FeasibilityParticipant → List FeasibilitySlot → SolverLimits → Option FeasibilityDiagnostic
size_limit_diagnostic participants slots limits =
    if leb (length participants) limits.max_participants && leb (length slots) limits.max_slots
    then none
    else some (record { code = instance_size_limit; related_ids = [] })

-- `next((item for item in slots if item.hours_units > largest_target), None)`
unfoldable pub first_oversized : ℕ → List FeasibilitySlot → Option FeasibilitySlot
first_oversized largest [] = none
first_oversized largest (s ∷ ss) =
    if ltb largest s.hours_units then some s else first_oversized largest ss

unfoldable pub shortfall_in : List ℕ → List (List TextId) → Groups → Option FeasibilityDiagnostic
unfolding activity_has_matching
shortfall_in remaining occupied [] = none
shortfall_in remaining occupied ((activity, items) ∷ groups) =
    if not (activity_has_matching items remaining occupied)
    then some (record { code = distinct_teacher_shortfall; related_ids = activity ∷ [] })
    else shortfall_in remaining occupied groups

unfoldable pub root_distinct_shortfall :
    List FeasibilityParticipant → List FeasibilitySlot → Option FeasibilityDiagnostic
unfolding shortfall_in slots_by_activity
root_distinct_shortfall participants slots =
    shortfall_in (targets_of participants) (occupied_of participants) (slots_by_activity slots)

unfoldable pub root_infeasibility_diagnostic :
    List FeasibilityParticipant → List FeasibilitySlot → Option FeasibilityDiagnostic
unfolding first_oversized root_distinct_shortfall
root_infeasibility_diagnostic participants slots =
    if not (
      sum_by (λ (p : FeasibilityParticipant). p.remaining_target_units) participants
      == sum_by (λ (s : FeasibilitySlot). s.hours_units) slots)
    then some (record { code = incompatible_residual_totals; related_ids = [] })
    else elim (first_oversized (maximum (targets_of participants)) slots) [
      | some s ↦ some (record { code = slot_exceeds_every_target; related_ids = s.slot_id ∷ [] })
      | none ↦ root_distinct_shortfall participants slots
    ]
