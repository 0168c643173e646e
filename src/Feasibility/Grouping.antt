-- ===== src/Feasibility/Grouping.antt =====
-- `_slots_by_activity`: a dict from activity to its slots, in order of first insertion.
use reparto_docente_m.Prelude.{◌==◌, if◌then◌else◌, List, [], ◌∷◌, ◌++◌}
use reparto_docente_m.Feasibility.Types.{TextId, FeasibilitySlot}

abbrev pub Groups : Type 0
Groups = List (TextId × List FeasibilitySlot)

-- `grouped[slot.activity_id].append(slot)` of a `defaultdict(list)`
unfoldable pub append_to_group : FeasibilitySlot → Groups → Groups
append_to_group slot [] = (slot.activity_id, slot ∷ []) ∷ []
append_to_group slot ((activity, items) ∷ groups) =
    if slot.activity_id == activity
    then (activity, items ++ slot ∷ []) ∷ groups
    else (activity, items) ∷ append_to_group slot groups

unfoldable pub group_slots : List FeasibilitySlot → Groups → Groups
group_slots [] groups = groups
group_slots (slot ∷ slots) groups = group_slots slots (append_to_group slot groups)

unfoldable pub slots_by_activity : List FeasibilitySlot → Groups
unfolding group_slots append_to_group
slots_by_activity slots = group_slots slots []
