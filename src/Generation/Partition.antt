-- ===== src/Generation/Partition.antt =====
-- Which slots a generation retires.
use reparto_docente_m.Prelude.{
  ℕ, false, ◌+◌, ◌==◌, none, List, [], ◌∷◌, ◌++◌, ◌≡◌, refl, keep, All, arith, Bool-cases,
  Option-cases, inl, inr,
}
use reparto_docente_m.Prelude.Sort.{sort_by}
use reparto_docente_m.Assignments.Rows.{
  HourRequirement, Assignment, TeachingPlan, ProcessState, is_current,
}
use reparto_docente_m.Assignments.Remaining.{requirement_le}
use reparto_docente_m.Assignments.Hours.{is_occupied}
use reparto_docente_m.Generation.Diff.{
  Target, GenerationPlan, TeachingActivity, find_live, find_active, classify_target,
  classify_targets, classify_live, is_target, plan_generation, targets, last_of_slots,
}

-- `find_active` finds an active assignment exactly where the slot is taken.
pub find_active-is_occupied :
    (i : ℕ) (xs : List Assignment) → find_active i xs ≡ none → is_occupied xs i ≡ false
find_active-is_occupied i [] h = refl
find_active-is_occupied i (a ∷ xs) h = ground (arith, h, find_active-is_occupied i xs)

-- No row that is to be retired has an active assignment.
abbrev pub AreFree : List Assignment → List HourRequirement → Type 0
AreFree xs = All (λ (r : HourRequirement). is_occupied xs r.id ≡ false)

module _ (prospective_requirement_id : ℕ → ℕ → ℕ → ℕ → ℕ) (plan_id : ℕ)
    (live : List HourRequirement) (xs : List Assignment) where
  classify_target-AreFree :
      (t : Target) (g : GenerationPlan)
      → AreFree xs g.to_retire
      → AreFree xs (classify_target prospective_requirement_id plan_id live xs t g).to_retire
  unfolding classify_target
  classify_target-AreFree t g h =
      elim (Option-cases (find_live t.teaching_activity_id t.position_index live)) [
        | inl e ↦ rw (classify_target, e) h
        | inr (r, e) ↦ elim (Bool-cases (r.required_teacher_hours == t.hours)) [
          | inl same ↦ rw (classify_target, e, same) h
          | inr other ↦ elim (Option-cases (find_active r.id xs)) [
            | inl free ↦
                rw (classify_target, e, other, free) (find_active-is_occupied r.id xs free, h)
            | inr (a, taken) ↦ rw (classify_target, e, other, taken) h
          ]
        ]
      ]

  pub classify_targets-AreFree :
      (number : ℕ) (ts : List Target)
      → AreFree xs (classify_targets prospective_requirement_id plan_id number live xs ts).to_retire
  unfolding classify_targets
  classify_targets-AreFree number [] = tt
  classify_targets-AreFree number (t ∷ ts) =
      classify_target-AreFree t
        (classify_targets prospective_requirement_id plan_id number live xs ts)
        (classify_targets-AreFree number ts)

module _ (ts : List Target) (xs : List Assignment) where
  pub classify_live-AreFree :
      (number : ℕ) (rs : List HourRequirement)
      → AreFree xs (classify_live number ts xs rs).to_retire
  unfolding classify_live
  classify_live-AreFree number [] = tt
  classify_live-AreFree number (r ∷ rs) = elim (Bool-cases (is_target ts r)) [
    | inl e ↦ rw e (classify_live-AreFree number rs)
    | inr e ↦ elim (Option-cases (find_active r.id xs)) [
      | inl free ↦
          rw (e, free) (find_active-is_occupied r.id xs free, classify_live-AreFree number rs)
      | inr (a, taken) ↦ rw (e, taken) (classify_live-AreFree number rs)
    ]
  ]

pub All-++ : {A : Type 0} (P : A → Type 0) (ys zs : List A) → All P ys → All P zs → All P (ys ++ zs)
All-++ P [] zs h k = k
All-++ P (y ∷ ys) zs h k = (h.0, All-++ P ys zs h.1 k)

-- Neither a generation nor a reconciliation plans to retire, without a conflict, a slot that has an
-- active assignment.
pub to_retire-AreFree :
    (prospective_requirement_id : ℕ → ℕ → ℕ → ℕ → ℕ) (activities : List TeachingActivity)
    (plan : TeachingPlan) (s : ProcessState)
    → AreFree s.assignments (plan_generation prospective_requirement_id activities plan s).to_retire
unfolding plan_generation
to_retire-AreFree prospective_requirement_id activities plan s =
    All-++ (λ (r : HourRequirement). is_occupied s.assignments r.id ≡ false) _ _
      (classify_targets-AreFree prospective_requirement_id plan.id (keep is_current s.requirements)
        s.assignments (plan.current_generation_number + 1) (targets activities))
      (classify_live-AreFree (targets activities) s.assignments (plan.current_generation_number + 1)
        (sort_by requirement_le (last_of_slots (keep is_current s.requirements))))
