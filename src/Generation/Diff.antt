-- ===== src/Generation/Diff.antt =====
-- `_plan_generation` of reparto_service/controllers/hour_requirements.py: the difference between the
-- positions of the plan's activities and the live slots.
use reparto_docente_m.Prelude.{
  ℕ, zero, suc, Bool, true, false, ◌&&◌, ◌||◌, ◌+◌, ◌==◌, leb, ltb, if◌then◌else◌, Option, none,
  some, List, [], ◌∷◌, ◌++◌, any, keep,
}
use reparto_docente_m.Prelude.Sort.{sort_by}
use reparto_docente_m.Assignments.Rows.{
  HourRequirement, Assignment, TeachingPlan, ProcessState, is_live, is_current,
}
use reparto_docente_m.Assignments.Remaining.{requirement_le}

-- `TeachingActivity` of the plan, with the columns that the generation reads
pub record TeachingActivity : Type 0 where
  pub id : ℕ
  pub required_teacher_count : ℕ
  pub teacher_weekly_hours_per_position : ℕ
  pub retired_at : Option ℕ

-- an entry of `target`
pub record Target : Type 0 where
  pub teaching_activity_id : ℕ
  pub position_index : ℕ
  pub hours : ℕ

-- `_Conflict`
pub record Conflict : Type 0 where
  pub requirement : HourRequirement
  pub assignment : Assignment
  pub new_hours : Option ℕ

-- an entry of `to_create`
pub record NewSlot : Type 0 where
  pub requirement_id : ℕ
  pub teaching_activity_id : ℕ
  pub position_index : ℕ
  pub hours : ℕ

-- `_GenerationPlan`
pub record GenerationPlan : Type 0 where
  pub next_generation_number : ℕ
  pub to_create : List NewSlot
  pub to_preserve : List HourRequirement
  pub to_retire : List HourRequirement
  pub conflicts : List Conflict

abbrev pub is_empty : {A : Type 0} → List A → Bool
is_empty [] = true
is_empty (x ∷ xs) = false

-- `is_noop`
unfoldable pub is_noop : GenerationPlan → Bool
is_noop g = is_empty g.to_create && (is_empty g.to_retire && is_empty g.conflicts)

-- `range(required_teacher_count)` from a position on
abbrev pub positions_from : TeachingActivity → ℕ → ℕ → List Target
positions_from a k zero = []
positions_from a k (suc n) =
    record {
      teaching_activity_id = a.id;
      position_index = k;
      hours = a.teacher_weekly_hours_per_position;
    }
    ∷ positions_from a (k + 1) n

abbrev pub is_live_activity : TeachingActivity → Bool
is_live_activity a = elim (a.retired_at) [ none ↦ true | some t ↦ false ]

abbrev pub positions_of : List TeachingActivity → List Target
positions_of [] = []
positions_of (a ∷ rest) = positions_from a 0 a.required_teacher_count ++ positions_of rest

abbrev pub target_le : Target → Target → Bool
target_le a b =
    ltb a.teaching_activity_id b.teaching_activity_id
    || (a.teaching_activity_id == b.teaching_activity_id && leb a.position_index b.position_index)

-- `sorted(target, …)`; the ids of activities are their primary key, so no key is written twice
unfoldable pub targets : List TeachingActivity → List Target
targets activities = sort_by target_le (positions_of (keep is_live_activity activities))

abbrev pub has_slot : ℕ → ℕ → HourRequirement → Bool
has_slot activity position r = r.teaching_activity_id == activity && r.position_index == position

-- `live_by_slot.get(slot)`, the last row of the slot
abbrev pub find_live : ℕ → ℕ → List HourRequirement → Option HourRequirement
find_live activity position [] = none
find_live activity position (r ∷ rs) =
    let rest = find_live activity position rs in
    elim rest [ some q ↦ some q | none ↦ if has_slot activity position r then some r else none ]

-- the values of `live_by_slot`
abbrev pub last_of_slots : List HourRequirement → List HourRequirement
last_of_slots [] = []
last_of_slots (r ∷ rs) =
    let rest = last_of_slots rs in
    if any (has_slot r.teaching_activity_id r.position_index) rs then rest else r ∷ rest

-- `assignments.get(requirement_id)` among the active assignments, the last of the slot
abbrev pub find_active : ℕ → List Assignment → Option Assignment
find_active i [] = none
find_active i (a ∷ rest) =
    let later = find_active i rest in
    elim later [
      | some b ↦ some b
      | none ↦ if a.hour_requirement_id == i && is_live a then some a else none
    ]

abbrev pub empty_plan : ℕ → GenerationPlan
empty_plan number = record {
  next_generation_number = number;
  to_create = [];
  to_preserve = [];
  to_retire = [];
  conflicts = [];
}

-- one more conflict, or one more row to retire
abbrev pub with_conflict_or :
    Option Assignment
    → HourRequirement
    → Option ℕ
    → GenerationPlan
    → GenerationPlan
    → GenerationPlan
with_conflict_or none r hours unassigned g = unassigned
with_conflict_or (some a) r hours unassigned g = record g {
  conflicts = record { requirement = r; assignment = a; new_hours = hours } ∷ g.conflicts;
}

-- the target positions: `uuid5` is the parameter
module _ (prospective_requirement_id : ℕ → ℕ → ℕ → ℕ → ℕ) where
  abbrev pub new_slot_of : ℕ → ℕ → Target → NewSlot
  new_slot_of plan_id number t = record {
    requirement_id =
        prospective_requirement_id plan_id number t.teaching_activity_id t.position_index;
    teaching_activity_id = t.teaching_activity_id;
    position_index = t.position_index;
    hours = t.hours;
  }

  -- what one target position adds to the difference
  unfoldable pub classify_target :
      ℕ → List HourRequirement → List Assignment → Target → GenerationPlan → GenerationPlan
  classify_target plan_id live assignments t g =
      let created = new_slot_of plan_id g.next_generation_number t ∷ g.to_create in
      elim (find_live t.teaching_activity_id t.position_index live) [
        | none ↦ record g { to_create = created }
        | some r ↦
            if r.required_teacher_hours == t.hours
            then record g { to_preserve = r ∷ g.to_preserve }
            else with_conflict_or (find_active r.id assignments) r (some t.hours)
                (record g { to_retire = r ∷ g.to_retire; to_create = created }) g
      ]

  -- the first loop
  unfoldable pub classify_targets :
      ℕ → ℕ → List HourRequirement → List Assignment → List Target → GenerationPlan
  unfolding classify_target
  classify_targets plan_id number live assignments [] = empty_plan number
  classify_targets plan_id number live assignments (t ∷ ts) =
      classify_target plan_id live assignments t
        (classify_targets plan_id number live assignments ts)

abbrev pub is_target : List Target → HourRequirement → Bool
is_target ts r = any (λ (t : Target). has_slot t.teaching_activity_id t.position_index r) ts

-- what one live slot without a target adds
unfoldable pub classify_removed :
    List Target → List Assignment → HourRequirement → GenerationPlan → GenerationPlan
classify_removed ts assignments r g =
    if is_target ts r
    then g
    else with_conflict_or (find_active r.id assignments) r none
        (record g { to_retire = r ∷ g.to_retire }) g

-- the second loop
unfoldable pub classify_live :
    ℕ → List Target → List Assignment → List HourRequirement → GenerationPlan
unfolding classify_removed
classify_live number ts assignments [] = empty_plan number
classify_live number ts assignments (r ∷ rs) =
    classify_removed ts assignments r (classify_live number ts assignments rs)

unfoldable pub plan_generation :
    (ℕ → ℕ → ℕ → ℕ → ℕ) → List TeachingActivity → TeachingPlan → ProcessState → GenerationPlan
unfolding targets classify_targets classify_live
plan_generation prospective_requirement_id activities plan s =
    let number = plan.current_generation_number + 1 in
    let live = keep is_current s.requirements in
    let wanted = targets activities in
    let first =
      classify_targets prospective_requirement_id plan.id number live s.assignments wanted in
    let second =
      classify_live number wanted s.assignments (sort_by requirement_le (last_of_slots live)) in
    record {
      next_generation_number = number;
      to_create = first.to_create;
      to_preserve = first.to_preserve;
      to_retire = first.to_retire ++ second.to_retire;
      conflicts = first.conflicts ++ second.conflicts;
    }
