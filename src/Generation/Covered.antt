-- ===== src/Generation/Covered.antt =====
-- Every position of the plan is created, preserved, or in conflict.
use reparto_docente_m.Prelude.{
  ℕ, true, ◌+◌, ◌==◌, ==_iff, none, some, List, [], ◌∷◌, ◌++◌, ◌≡◌, refl, ap, ◌∙◌, keep, arith,
  Bool-cases, Option-cases, inl, inr, sum_by,
}
use reparto_docente_m.Prelude.Sort.{sort_by, sum_by-sort_by}
use reparto_docente_m.Assignments.Rows.{
  HourRequirement, Assignment, TeachingPlan, ProcessState, is_current,
}
use reparto_docente_m.Assignments.Remaining.{requirement_le}
use reparto_docente_m.Generation.Diff.{
  Target, Conflict, NewSlot, GenerationPlan, TeachingActivity, has_slot, find_live, find_active,
  classify_target, classify_targets, classify_live, is_target, is_live_activity, plan_generation,
  targets, positions_of, target_le, last_of_slots,
}

pub find_live-has_slot :
    (a p : ℕ) (rs : List HourRequirement) {r : HourRequirement}
    → find_live a p rs ≡ some r
    → has_slot a p r ≡ true
find_live-has_slot a p [] h = absurd (ground (arith, h))
find_live-has_slot a p (q ∷ rs) {r} h = elim (Option-cases (find_live a p rs)) [
  | inl e ↦ ground (arith, h, e)
  | inr (z, e) ↦ ground (arith, h, e, find_live-has_slot a p rs e)
]

-- A quantity of each activity, position and number of hours, added up over the lists of a difference.
module _ (f : ℕ → ℕ → ℕ → ℕ) where
  abbrev pub over_new : List NewSlot → ℕ
  over_new = sum_by (λ (n : NewSlot). f n.teaching_activity_id n.position_index n.hours)

  abbrev pub over_rows : List HourRequirement → ℕ
  over_rows =
      sum_by (λ (r : HourRequirement).
        f r.teaching_activity_id r.position_index r.required_teacher_hours)

  -- over the new hours of the conflicts that have any
  abbrev pub over_conflicts : List Conflict → ℕ
  over_conflicts = sum_by (λ (c : Conflict). elim (c.new_hours) [
    | none ↦ 0
    | some h ↦ f c.requirement.teaching_activity_id c.requirement.position_index h
  ])

  abbrev pub over_targets : List Target → ℕ
  over_targets = sum_by (λ (t : Target). f t.teaching_activity_id t.position_index t.hours)

  abbrev pub covered : GenerationPlan → ℕ
  covered g = over_new g.to_create + (over_rows g.to_preserve + over_conflicts g.conflicts)

  -- the quantity of a row is that of its slot
  same_slot :
      (a p h : ℕ) (r : HourRequirement)
      → has_slot a p r ≡ true
      → f r.teaching_activity_id r.position_index h ≡ f a p h
  same_slot a p h r e =
      ap (λ n. f n r.position_index h) ((==_iff r.teaching_activity_id a).0 (ground (arith, e)))
      ∙ ap (λ n. f a n h) ((==_iff r.position_index p).0 (ground (arith, e)))

  module _ (prospective_requirement_id : ℕ → ℕ → ℕ → ℕ → ℕ) (plan_id : ℕ)
      (live : List HourRequirement) (xs : List Assignment) where
    classify_target-covered :
        (t : Target) (g : GenerationPlan)
        → covered (classify_target prospective_requirement_id plan_id live xs t g)
          ≡ f t.teaching_activity_id t.position_index t.hours + covered g
    unfolding classify_target
    classify_target-covered t g =
        elim (Option-cases (find_live t.teaching_activity_id t.position_index live)) [
          | inl e ↦ rw (classify_target, e) (omega arith)
          | inr (r, e) ↦
              let same = λ (h : ℕ).
                same_slot t.teaching_activity_id t.position_index h r
                  (find_live-has_slot t.teaching_activity_id t.position_index live e) in
              elim (Bool-cases (r.required_teacher_hours == t.hours)) [
                | inl eq ↦
                    rw (classify_target, e, eq)
                      (omega (
                        arith,
                        same t.hours,
                        ap (f r.teaching_activity_id r.position_index)
                            ((==_iff r.required_teacher_hours t.hours).0 eq),
                      ))
                | inr other ↦ elim (Option-cases (find_active r.id xs)) [
                  | inl free ↦ rw (classify_target, e, other, free) (omega arith)
                  | inr (a, taken) ↦
                      rw (classify_target, e, other, taken) (omega (arith, same t.hours))
                ]
              ]
        ]

    classify_targets-covered :
        (number : ℕ) (ts : List Target)
        → covered (classify_targets prospective_requirement_id plan_id number live xs ts)
          ≡ over_targets ts
    unfolding classify_targets
    classify_targets-covered number [] = omega arith
    classify_targets-covered number (t ∷ ts) = omega (
      arith,
      classify_target-covered t
          (classify_targets prospective_requirement_id plan_id number live xs ts),
      classify_targets-covered number ts,
    )

  -- a removed position has no new hours
  classify_live-none :
      (number : ℕ) (ts : List Target) (xs : List Assignment) (rs : List HourRequirement)
      → over_conflicts (classify_live number ts xs rs).conflicts ≡ 0
  unfolding classify_live
  classify_live-none number ts xs [] = refl
  classify_live-none number ts xs (r ∷ rs) = elim (Bool-cases (is_target ts r)) [
    | inl e ↦ rw e (classify_live-none number ts xs rs)
    | inr e ↦ elim (Option-cases (find_active r.id xs)) [
      | inl free ↦ rw (e, free) (classify_live-none number ts xs rs)
      | inr (a, taken) ↦ rw (e, taken) (omega (arith, classify_live-none number ts xs rs))
    ]
  ]

  over_conflicts-++ :
      (cs ds : List Conflict) → over_conflicts (cs ++ ds) ≡ over_conflicts cs + over_conflicts ds
  over_conflicts-++ [] ds = omega arith
  over_conflicts-++ (c ∷ cs) ds = omega (arith, over_conflicts-++ cs ds)

  -- Whatever is added up, the positions that a generation creates and preserves and the conflicts that
  -- a reconciliation gives new hours make up exactly the positions of the plan's activities that are
  -- not retired, each with the activity's hours.
  pub generation_covers_positions :
      (prospective_requirement_id : ℕ → ℕ → ℕ → ℕ → ℕ) (activities : List TeachingActivity)
      (plan : TeachingPlan) (s : ProcessState)
      → covered (plan_generation prospective_requirement_id activities plan s)
        ≡ over_targets (positions_of (keep is_live_activity activities))
  unfolding plan_generation targets
  generation_covers_positions prospective_requirement_id activities plan s =
      let number = plan.current_generation_number + 1 in
      let live = keep is_current s.requirements in
      let first =
        classify_targets prospective_requirement_id plan.id number live s.assignments
          (targets activities) in
      let second =
        classify_live number (targets activities) s.assignments
          (sort_by requirement_le (last_of_slots live)) in
      omega (
        arith,
        classify_targets-covered prospective_requirement_id plan.id live s.assignments number
            (targets activities),
        classify_live-none number (targets activities) s.assignments
            (sort_by requirement_le (last_of_slots live)),
        over_conflicts-++ first.conflicts second.conflicts,
        sum_by-sort_by (λ (t : Target). f t.teaching_activity_id t.position_index t.hours) target_le
            (positions_of (keep is_live_activity activities)),
      )
