-- ===== src/Generation/Rows.antt =====
-- Every live slot is preserved, retired, or in conflict.
use reparto_docente_m.Prelude.{
  ℕ, true, false, ◌+◌, ◌≤◌, ◌==◌, ==_iff, if◌then◌else◌, Option, none, some, List, [], ◌∷◌, ◌++◌,
  ◌≡◌, refl, ap, sym, ◌∙◌, any, keep, arith, Bool-cases, Option-cases, inl, inr, sum_by,
}
use reparto_docente_m.Prelude.Sort.{sort_by, sum_by-sort_by}
use reparto_docente_m.Assignments.Rows.{
  HourRequirement, Assignment, TeachingPlan, ProcessState, is_current,
}
use reparto_docente_m.Assignments.Remaining.{requirement_le}
use reparto_docente_m.Generation.Diff.{
  Target, Conflict, GenerationPlan, TeachingActivity, has_slot, find_live, find_active,
  classify_target, classify_targets, classify_live, is_target, plan_generation, targets,
  last_of_slots,
}

find_live-any :
    (a p : ℕ) (rs : List HourRequirement)
    → any (has_slot a p) rs ≡ (elim (find_live a p rs) [ none ↦ false | some r ↦ true ])
find_live-any a p [] = refl
find_live-any a p (r ∷ rs) = ground (arith, find_live-any a p rs)

same_slot-any :
    (a p : ℕ) (r : HourRequirement) (rs : List HourRequirement)
    → has_slot a p r ≡ true
    → any (has_slot r.teaching_activity_id r.position_index) rs ≡ any (has_slot a p) rs
same_slot-any a p r rs e =
    ap (λ n. any (has_slot n r.position_index) rs)
      ((==_iff r.teaching_activity_id a).0 (ground (arith, e)))
    ∙ ap (λ n. any (has_slot a n) rs) ((==_iff r.position_index p).0 (ground (arith, e)))

pub sum_by-plus :
    {A : Type 0} (f h : A → ℕ) (xs : List A)
    → sum_by (λ x. f x + h x) xs ≡ sum_by f xs + sum_by h xs
sum_by-plus f h [] = omega arith
sum_by-plus f h (x ∷ xs) = omega (arith, sum_by-plus f h xs)

pub sum_by-append :
    {A : Type 0} (f : A → ℕ) (xs ys : List A) → sum_by f (xs ++ ys) ≡ sum_by f xs + sum_by f ys
sum_by-append f [] ys = omega arith
sum_by-append f (x ∷ xs) ys = omega (arith, sum_by-append f xs ys)

sum_by-same :
    {A : Type 0} (f h : A → ℕ) → ((x : A) → f x ≡ h x) → (xs : List A) → sum_by f xs ≡ sum_by h xs
sum_by-same f h e [] = refl
sum_by-same f h e (x ∷ xs) = omega (arith, e x, sum_by-same f h e xs)

-- how often a slot is a target
abbrev pub times_target : List Target → HourRequirement → ℕ
times_target ts r =
    sum_by (λ (t : Target). if has_slot t.teaching_activity_id t.position_index r then 1 else 0) ts

is_target-times_target :
    (ts : List Target) (r : HourRequirement) → times_target ts r ≡ 0 → is_target ts r ≡ false
is_target-times_target [] r h = refl
is_target-times_target (t ∷ ts) r h = ground (arith, h, is_target-times_target ts r)

sum_by-swap :
    {A B : Type 0} (w : A → B → ℕ) (xs : List A) (ys : List B)
    → sum_by (λ x. sum_by (w x) ys) xs ≡ sum_by (λ y. sum_by (λ x. w x y) xs) ys
sum_by-swap w [] [] = refl
sum_by-swap w [] (y ∷ ys) = omega (arith, sum_by-swap w [] ys)
sum_by-swap w (x ∷ xs) ys =
    omega (arith, sum_by-swap w xs ys, sum_by-plus (w x) (λ y. sum_by (λ z. w z y) xs) ys)

-- the second loop preserves nothing
classify_live-preserve :
    (number : ℕ) (ts : List Target) (xs : List Assignment) (rs : List HourRequirement)
    → (classify_live number ts xs rs).to_preserve ≡ []
unfolding classify_live
classify_live-preserve number ts xs [] = refl
classify_live-preserve number ts xs (r ∷ rs) = elim (Bool-cases (is_target ts r)) [
  | inl e ↦ rw e (classify_live-preserve number ts xs rs)
  | inr e ↦ elim (Option-cases (find_active r.id xs)) [
    | inl free ↦ rw (e, free) (classify_live-preserve number ts xs rs)
    | inr (a, taken) ↦ rw (e, taken) (classify_live-preserve number ts xs rs)
  ]
]

-- A quantity of each row, added up.
module _ (g : HourRequirement → ℕ) where
  abbrev pub at : Option HourRequirement → ℕ
  at o = elim o [ none ↦ 0 | some r ↦ g r ]

  last_of_slots-at :
      (a p : ℕ) (rs : List HourRequirement)
      → sum_by (λ r. if has_slot a p r then g r else 0) (last_of_slots rs) ≡ at (find_live a p rs)
  last_of_slots-at a p [] = refl
  last_of_slots-at a p (r ∷ rs) = elim (Bool-cases (has_slot a p r)) [
    | inl e ↦
        ground (arith, e, last_of_slots-at a p rs, same_slot-any a p r rs e, find_live-any a p rs)
    | inr e ↦ ground (arith, e, last_of_slots-at a p rs)
  ]

  abbrev pub rows_of : GenerationPlan → ℕ
  rows_of d =
      sum_by g d.to_preserve
      + (sum_by g d.to_retire + sum_by (λ (c : Conflict). g c.requirement) d.conflicts)

  module _ (prospective_requirement_id : ℕ → ℕ → ℕ → ℕ → ℕ) (plan_id : ℕ)
      (live : List HourRequirement) (xs : List Assignment) where
    classify_target-rows_of :
        (t : Target) (d : GenerationPlan)
        → rows_of (classify_target prospective_requirement_id plan_id live xs t d)
          ≡ at (find_live t.teaching_activity_id t.position_index live) + rows_of d
    unfolding classify_target
    classify_target-rows_of t d =
        elim (Option-cases (find_live t.teaching_activity_id t.position_index live)) [
          | inl e ↦ rw (classify_target, e) (omega arith)
          | inr (r, e) ↦ elim (Bool-cases (r.required_teacher_hours == t.hours)) [
            | inl eq ↦ rw (classify_target, e, eq) (omega arith)
            | inr other ↦ elim (Option-cases (find_active r.id xs)) [
              | inl free ↦ rw (classify_target, e, other, free) (omega arith)
              | inr (a, taken) ↦ rw (classify_target, e, other, taken) (omega arith)
            ]
          ]
        ]

    classify_targets-rows_of :
        (number : ℕ) (ts : List Target)
        → rows_of (classify_targets prospective_requirement_id plan_id number live xs ts)
          ≡ sum_by (λ (t : Target). at (find_live t.teaching_activity_id t.position_index live)) ts
    unfolding classify_targets
    classify_targets-rows_of number [] = omega arith
    classify_targets-rows_of number (t ∷ ts) = omega (
      arith,
      classify_target-rows_of t
          (classify_targets prospective_requirement_id plan_id number live xs ts),
      classify_targets-rows_of number ts,
    )

  classify_live-rows_of :
      (number : ℕ) (ts : List Target) (xs : List Assignment) (rs : List HourRequirement)
      → rows_of (classify_live number ts xs rs) + sum_by (λ r. if is_target ts r then g r else 0) rs
        ≡ sum_by g rs
  unfolding classify_live
  classify_live-rows_of number ts xs [] = omega arith
  classify_live-rows_of number ts xs (r ∷ rs) = elim (Bool-cases (is_target ts r)) [
    | inl e ↦ rw e (omega (arith, classify_live-rows_of number ts xs rs))
    | inr e ↦ elim (Option-cases (find_active r.id xs)) [
      | inl free ↦ rw (e, free) (omega (arith, classify_live-rows_of number ts xs rs))
      | inr (a, taken) ↦ rw (e, taken) (omega (arith, classify_live-rows_of number ts xs rs))
    ]
  ]

  once :
      (ts : List Target) (r : HourRequirement)
      → times_target ts r ≤ 1
      → sum_by
          (λ (t : Target). if has_slot t.teaching_activity_id t.position_index r then g r else 0)
          ts
        ≡ (if is_target ts r then g r else 0)
  once [] r h = refl
  once (t ∷ ts) r h = elim (Bool-cases (has_slot t.teaching_activity_id t.position_index r)) [
    | inl e ↦ ground (
      arith,
      e,
      once ts r (ground (arith, e, h)),
      is_target-times_target ts r (ground (arith, e, h)),
    )
    | inr e ↦ ground (arith, e, once ts r (ground (arith, e, h)))
  ]

  -- what the targets find is what the live slots have
  found_at_targets :
      (ts : List Target) (live : List HourRequirement)
      → ((r : HourRequirement) → times_target ts r ≤ 1)
      → sum_by (λ (t : Target). at (find_live t.teaching_activity_id t.position_index live)) ts
        ≡ sum_by (λ r. if is_target ts r then g r else 0) (last_of_slots live)
  found_at_targets ts live h =
      sum_by-same (λ (t : Target). at (find_live t.teaching_activity_id t.position_index live))
        (λ (t : Target).
          sum_by (λ r. if has_slot t.teaching_activity_id t.position_index r then g r else 0)
            (last_of_slots live))
        (λ t. sym (last_of_slots-at t.teaching_activity_id t.position_index live)) ts
      ∙ (sum_by-swap
            (λ (t : Target) r.
              if has_slot t.teaching_activity_id t.position_index r then g r else 0)
            ts (last_of_slots live)
          ∙ sum_by-same
              (λ r.
                sum_by
                  (λ (t : Target).
                    if has_slot t.teaching_activity_id t.position_index r then g r else 0)
                  ts)
              (λ r. if is_target ts r then g r else 0) (λ r. once ts r (h r)) (last_of_slots live))

  -- the difference of a plan's generation, over its rows
  pub plan_generation-rows_of :
      (prospective_requirement_id : ℕ → ℕ → ℕ → ℕ → ℕ) (activities : List TeachingActivity)
      (plan : TeachingPlan) (s : ProcessState)
      → ((r : HourRequirement) → times_target (targets activities) r ≤ 1)
      → rows_of (plan_generation prospective_requirement_id activities plan s)
        ≡ sum_by g (last_of_slots (keep is_current s.requirements))
  unfolding plan_generation
  plan_generation-rows_of prospective_requirement_id activities plan s h =
      let number = plan.current_generation_number + 1 in
      let live = keep is_current s.requirements in
      let rows = sort_by requirement_le (last_of_slots live) in
      let first =
        classify_targets prospective_requirement_id plan.id number live s.assignments
          (targets activities) in
      let second = classify_live number (targets activities) s.assignments rows in
      omega (
        arith,
        classify_targets-rows_of prospective_requirement_id plan.id live s.assignments number
            (targets activities),
        found_at_targets (targets activities) live h,
        classify_live-rows_of number (targets activities) s.assignments rows,
        sum_by-append g first.to_retire second.to_retire,
        sum_by-append (λ (c : Conflict). g c.requirement) first.conflicts second.conflicts,
        sum_by-sort_by g requirement_le (last_of_slots live),
        sum_by-sort_by (λ r. if is_target (targets activities) r then g r else 0) requirement_le
            (last_of_slots live),
        ap (sum_by g) (classify_live-preserve number (targets activities) s.assignments rows),
      )
