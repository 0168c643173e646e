-- ===== src/Generation/Released.antt =====
-- Which assignments a reconciliation releases.
use reparto_docente_m.Prelude.{
  ℕ, Bool, true, false, not, ◌&&◌, ◌||◌, ◌+◌, ◌≤◌, ◌==◌, ==_refl, none, some, List, [], ◌∷◌, ◌++◌,
  ◌≡◌, refl, all, All, map, keep, contains, arith, Bool-cases, Option-cases, inl, inr,
}
use reparto_docente_m.Prelude.Sort.{sort_by}
use reparto_docente_m.Assignments.Rows.{
  HourRequirement, Assignment, AssignmentStatus, TeachingPlan, ProcessState, is_live, is_current,
  set_assignment_status,
}
use reparto_docente_m.Assignments.Hours.{is_occupied}
use reparto_docente_m.Assignments.Remaining.{requirement_le}
use reparto_docente_m.Assignments.Tables.{on_slot, on_slot-cancel, is_occupied-on_slot}
use reparto_docente_m.Generation.Diff.{
  Target, Conflict, GenerationPlan, TeachingActivity, find_live, find_active, classify_target,
  classify_targets, classify_live, is_target, plan_generation, targets, last_of_slots,
}
use reparto_docente_m.Generation.Partition.{All-++}
use reparto_docente_m.Generation.Apply.{release_conflicts, apply_reconciliation}

-- the active assignments of the slot `i` have the id `j`
abbrev only : ℕ → ℕ → List Assignment → Bool
only i j = all (λ (x : Assignment). not (x.hour_requirement_id == i && is_live x) || j == x.id)

on_slot-only :
    (i j : ℕ) (xs : List Assignment)
    → only i j xs ≡ true
    → on_slot i (set_assignment_status j AssignmentStatus.cancelled xs) ≡ 0
on_slot-only i j [] h = refl
on_slot-only i j (x ∷ xs) h = ground (arith, h, on_slot-only i j xs)

only-cancel :
    (i j k : ℕ) (xs : List Assignment)
    → only i j xs ≡ true
    → only i j (set_assignment_status k AssignmentStatus.cancelled xs) ≡ true
only-cancel i j k [] h = refl
only-cancel i j k (x ∷ xs) h = ground (arith, h, only-cancel i j k xs)

only-none : (i j : ℕ) (xs : List Assignment) → on_slot i xs ≡ 0 → only i j xs ≡ true
only-none i j [] h = refl
only-none i j (x ∷ xs) h = ground (arith, h, only-none i j xs)

on_slot-find_active :
    (i : ℕ) (xs : List Assignment) {a : Assignment} → find_active i xs ≡ some a → 1 ≤ on_slot i xs
on_slot-find_active i [] h = absurd (ground (arith, h))
on_slot-find_active i (x ∷ xs) {a} h = elim (Option-cases (find_active i xs)) [
  | inl e ↦ ground (arith, h, e)
  | inr (b, e) ↦ ground (arith, e, on_slot-find_active i xs e)
]

on_slot-absent : (i : ℕ) (xs : List Assignment) → find_active i xs ≡ none → on_slot i xs ≡ 0
on_slot-absent i [] h = refl
on_slot-absent i (x ∷ xs) h = ground (arith, h, on_slot-absent i xs)

only-find_active :
    (i : ℕ) (xs : List Assignment) {a : Assignment}
    → on_slot i xs ≤ 1
    → find_active i xs ≡ some a
    → only i a.id xs ≡ true
only-find_active i [] h e = absurd (ground (arith, e))
only-find_active i (x ∷ xs) {a} h e = elim (Option-cases (find_active i xs)) [
  | inl n ↦ ground (arith, e, n, h, ==_refl a.id, only-none i a.id xs (on_slot-absent i xs n))
  | inr (b, s) ↦ ground (arith, e, s, h, on_slot-find_active i xs s, only-find_active i xs {a = b})
]

on_slot-release_conflicts :
    (i : ℕ) (cs : List Conflict) (xs : List Assignment)
    → on_slot i (release_conflicts cs xs) ≤ on_slot i xs
unfolding release_conflicts
on_slot-release_conflicts i [] xs = omega arith
on_slot-release_conflicts i (c ∷ cs) xs = omega (
  arith,
  on_slot-release_conflicts i cs
      (set_assignment_status c.assignment.id AssignmentStatus.cancelled xs),
  on_slot-cancel i c.assignment.id xs,
)

abbrev released_ids : List Conflict → List ℕ
released_ids = map (λ (c : Conflict). c.assignment.id)

release_conflicts-only :
    (i j : ℕ) (cs : List Conflict) (xs : List Assignment)
    → only i j xs ≡ true
    → contains (released_ids cs) j ≡ true
    → on_slot i (release_conflicts cs xs) ≡ 0
unfolding release_conflicts
release_conflicts-only i j [] xs h e = absurd (ground (arith, e))
release_conflicts-only i j (c ∷ cs) xs h e = elim (Bool-cases (j == c.assignment.id)) [
  | inl q ↦ ground (
    arith,
    q,
    on_slot-only i j xs h,
    on_slot-release_conflicts i cs
        (set_assignment_status c.assignment.id AssignmentStatus.cancelled xs),
  )
  | inr q ↦
      release_conflicts-only i j cs
        (set_assignment_status c.assignment.id AssignmentStatus.cancelled xs)
        (only-cancel i j c.assignment.id xs h) (ground (arith, q, e))
]

-- The assignment of a conflict is the active one of its slot.
abbrev pub AreActive : List Assignment → List Conflict → Type 0
AreActive xs = All (λ (c : Conflict). find_active c.requirement.id xs ≡ some c.assignment)

module _ (prospective_requirement_id : ℕ → ℕ → ℕ → ℕ → ℕ) (plan_id : ℕ)
    (live : List HourRequirement) (xs : List Assignment) where
  classify_target-AreActive :
      (t : Target) (g : GenerationPlan)
      → AreActive xs g.conflicts
      → AreActive xs (classify_target prospective_requirement_id plan_id live xs t g).conflicts
  unfolding classify_target
  classify_target-AreActive t g h =
      elim (Option-cases (find_live t.teaching_activity_id t.position_index live)) [
        | inl e ↦ rw (classify_target, e) h
        | inr (r, e) ↦ elim (Bool-cases (r.required_teacher_hours == t.hours)) [
          | inl same ↦ rw (classify_target, e, same) h
          | inr other ↦ elim (Option-cases (find_active r.id xs)) [
            | inl free ↦ rw (classify_target, e, other, free) h
            | inr (a, taken) ↦ rw (classify_target, e, other, taken) (taken, h)
          ]
        ]
      ]

  classify_targets-AreActive :
      (number : ℕ) (ts : List Target)
      → AreActive xs
          (classify_targets prospective_requirement_id plan_id number live xs ts).conflicts
  unfolding classify_targets
  classify_targets-AreActive number [] = tt
  classify_targets-AreActive number (t ∷ ts) =
      classify_target-AreActive t
        (classify_targets prospective_requirement_id plan_id number live xs ts)
        (classify_targets-AreActive number ts)

classify_live-AreActive :
    (ts : List Target) (xs : List Assignment) (number : ℕ) (rs : List HourRequirement)
    → AreActive xs (classify_live number ts xs rs).conflicts
unfolding classify_live
classify_live-AreActive ts xs number [] = tt
classify_live-AreActive ts xs number (r ∷ rs) = elim (Bool-cases (is_target ts r)) [
  | inl e ↦ rw e (classify_live-AreActive ts xs number rs)
  | inr e ↦ elim (Option-cases (find_active r.id xs)) [
    | inl free ↦ rw (e, free) (classify_live-AreActive ts xs number rs)
    | inr (a, taken) ↦ rw (e, taken) (taken, classify_live-AreActive ts xs number rs)
  ]
]

released_slots_are_free :
    (cs ds : List Conflict) (xs : List Assignment)
    → ((i : ℕ) → on_slot i xs ≤ 1)
    → AreActive xs ds
    → ((j : ℕ) → contains (released_ids ds) j ≡ true → contains (released_ids cs) j ≡ true)
    → All (λ (c : Conflict). is_occupied (release_conflicts cs xs) c.requirement.id ≡ false) ds
released_slots_are_free cs [] xs h t s = tt
released_slots_are_free cs (d ∷ ds) xs h t s = (
  ground (
    arith,
    is_occupied-on_slot d.requirement.id (release_conflicts cs xs),
    release_conflicts-only d.requirement.id d.assignment.id cs xs
        (only-find_active d.requirement.id xs (h d.requirement.id) t.0)
        (s d.assignment.id (ground (arith, ==_refl d.assignment.id))),
  ),
  released_slots_are_free cs ds xs h t.1 (λ j e. s j (ground (arith, e))),
)

-- Where no slot has two active assignments, a reconciliation leaves no active assignment on the slot
-- of any conflict that it meets: the assignment that it releases was the only one.
pub reconciled_conflicts_are_free :
    (prospective_requirement_id : ℕ → ℕ → ℕ → ℕ → ℕ) (activities : List TeachingActivity)
    (plan : TeachingPlan) (s : ProcessState)
    → ((i : ℕ) → on_slot i s.assignments ≤ 1)
    → All
        (λ (c : Conflict).
          is_occupied
            (apply_reconciliation prospective_requirement_id plan.id
              (plan_generation prospective_requirement_id activities plan s)
              s).assignments
            c.requirement.id
          ≡ false)
        (plan_generation prospective_requirement_id activities plan s).conflicts
unfolding plan_generation apply_reconciliation
reconciled_conflicts_are_free prospective_requirement_id activities plan s h =
    let number = plan.current_generation_number + 1 in
    let live = keep is_current s.requirements in
    let first =
      classify_targets prospective_requirement_id plan.id number live s.assignments
        (targets activities) in
    let second =
      classify_live number (targets activities) s.assignments
        (sort_by requirement_le (last_of_slots live)) in
    released_slots_are_free (first.conflicts ++ second.conflicts)
      (first.conflicts ++ second.conflicts) s.assignments h
      (All-++ (λ (c : Conflict). find_active c.requirement.id s.assignments ≡ some c.assignment)
        first.conflicts second.conflicts
        (classify_targets-AreActive prospective_requirement_id plan.id live s.assignments number
          (targets activities))
        (classify_live-AreActive (targets activities) s.assignments number
          (sort_by requirement_le (last_of_slots live))))
      (λ j e. e)
