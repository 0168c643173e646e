-- ===== src/Generation/Distinct.antt =====
-- When slots and targets are different from one another.
use reparto_docente_m.Prelude.{
  ℕ, zero, suc, Bool, true, false, ◌+◌, ◌≤◌, ◌<◌, ◌⊎◌, ltb, ◌==◌, ==_iff, if◌then◌else◌, List, [],
  ◌∷◌, ◌++◌, ◌≡◌, refl, ap, subst, any, keep, map, contains, arith, Bool-cases, inl, inr, sum_by,
  IsDistinct,
}
use reparto_docente_m.Prelude.Sort.{sum_by-sort_by}
use reparto_docente_m.Assignments.Rows.{HourRequirement}
use reparto_docente_m.Generation.Diff.{
  Target, TeachingActivity, has_slot, is_live_activity, targets, positions_from, positions_of,
  target_le, last_of_slots,
}
use reparto_docente_m.Generation.Apply.{requirement_ids}
use reparto_docente_m.Generation.Rows.{times_target, sum_by-append}

-- the partial unique index on the live slots
abbrev pub AreDistinctSlots : List HourRequirement → Type 0
AreDistinctSlots [] = Unit
AreDistinctSlots (r ∷ rs) =
    (any (has_slot r.teaching_activity_id r.position_index) rs ≡ false) × AreDistinctSlots rs

pub last_of_slots-AreDistinctSlots :
    (rs : List HourRequirement) → AreDistinctSlots rs → last_of_slots rs ≡ rs
last_of_slots-AreDistinctSlots [] h = refl
last_of_slots-AreDistinctSlots (r ∷ rs) h =
    rw h.0 (ap (λ qs. r ∷ qs) (last_of_slots-AreDistinctSlots rs h.1))

-- how many rows have an id
abbrev pub with_id : ℕ → List HourRequirement → ℕ
with_id i = sum_by (λ (r : HourRequirement). if r.id == i then 1 else 0)

pub contains-with_id :
    (i : ℕ) (rs : List HourRequirement) → contains (requirement_ids rs) i ≡ ltb 0 (with_id i rs)
contains-with_id i [] = refl
contains-with_id i (r ∷ rs) = ground (arith, contains-with_id i rs)

pub with_id-IsDistinct :
    (i : ℕ) (rs : List HourRequirement) → IsDistinct (requirement_ids rs) → with_id i rs ≤ 1
with_id-IsDistinct i [] h = omega arith
with_id-IsDistinct i (r ∷ rs) h = elim (Bool-cases (r.id == i)) [
  | inl e ↦ ground (
    arith,
    e,
    h.0,
    contains-with_id i rs,
    subst (λ n. contains (requirement_ids rs) n ≡ false) ((==_iff r.id i).0 e) h.0,
  )
  | inr e ↦ ground (arith, e, with_id-IsDistinct i rs h.1)
]

pub with_id-keep :
    (i : ℕ) (p : HourRequirement → Bool) (rs : List HourRequirement)
    → with_id i (keep p rs) ≤ with_id i rs
with_id-keep i p [] = omega arith
with_id-keep i p (r ∷ rs) = ground (arith, with_id-keep i p rs)

abbrev pub activity_ids : List TeachingActivity → List ℕ
activity_ids = map (λ (a : TeachingActivity). a.id)

-- A position of an activity is one target, where the activities have different ids.
module _ (r : HourRequirement) where
  positions_below :
      (a : TeachingActivity) (k n : ℕ)
      → r.position_index < k
      → times_target (positions_from a k n) r ≡ 0
  positions_below a k zero h = refl
  positions_below a k (suc n) h = ground (arith, h, positions_below a (k + 1) n (omega (arith, h)))

  positions_once :
      (a : TeachingActivity) (k n : ℕ)
      → times_target (positions_from a k n) r ≤ (if r.teaching_activity_id == a.id then 1 else 0)
  positions_once a k zero = omega arith
  positions_once a k (suc n) = elim (Bool-cases (has_slot a.id k r)) [
    | inl e ↦ ground (
      arith,
      e,
      positions_below a (k + 1) n (here ((==_iff r.position_index k).0 (ground (arith, e)))),
    )
    | inr e ↦ ground (arith, e, positions_once a (k + 1) n)
  ]
    where
      here : r.position_index ≡ k → r.position_index < k + 1
      here q = omega (arith, q)

  positions_of_once :
      (activities : List TeachingActivity)
      → IsDistinct (activity_ids activities)
      → times_target (positions_of (keep is_live_activity activities)) r
        ≤ (if contains (activity_ids activities) r.teaching_activity_id then 1 else 0)
  positions_of_once [] h = omega arith
  positions_of_once (a ∷ rest) h =
      let more = positions_of_once rest h.1 in
      let own = positions_once a 0 a.required_teacher_count in
      elim (Bool-cases (is_live_activity a)) [
        | inl l ↦ rw l (split l more own (Bool-cases (r.teaching_activity_id == a.id)))
        | inr l ↦ ground (arith, l, more)
      ]
    where
      split :
          is_live_activity a ≡ true
          → times_target (positions_of (keep is_live_activity rest)) r
            ≤ (if contains (activity_ids rest) r.teaching_activity_id then 1 else 0)
          → times_target (positions_from a 0 a.required_teacher_count) r
            ≤ (if r.teaching_activity_id == a.id then 1 else 0)
          → ((r.teaching_activity_id == a.id) ≡ true) ⊎ ((r.teaching_activity_id == a.id) ≡ false)
          → times_target
              (positions_from a 0 a.required_teacher_count
                ++ positions_of (keep is_live_activity rest))
              r
            ≤ (if contains (activity_ids (a ∷ rest)) r.teaching_activity_id then 1 else 0)
      split l more own c = ground (
        arith,
        more,
        own,
        c,
        h.0,
        sum_by-append
            (λ (t : Target). if has_slot t.teaching_activity_id t.position_index r then 1 else 0)
            (positions_from a 0 a.required_teacher_count)
            (positions_of (keep is_live_activity rest)),
      )

  pub targets_once :
      (activities : List TeachingActivity)
      → IsDistinct (activity_ids activities)
      → times_target (targets activities) r ≤ 1
  unfolding targets
  targets_once activities h = ground (
    arith,
    positions_of_once activities h,
    sum_by-sort_by
        (λ (t : Target). if has_slot t.teaching_activity_id t.position_index r then 1 else 0)
        target_le (positions_of (keep is_live_activity activities)),
  )
