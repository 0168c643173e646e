-- ===== src/Generation/Reconciled.antt =====
-- What a reconciliation leaves live: `reconcile` of reparto_service/controllers/hour_requirements.py.
use reparto_docente_m.Prelude.{
  ℕ, ◌+◌, ◌≤◌, ◌==◌, if◌then◌else◌, some, List, [], ◌∷◌, ◌++◌, ◌≡◌, refl, ap, keep, map, arith,
  Option-cases, inl, inr, sum_by, IsDistinct,
}
use reparto_docente_m.Assignments.Rows.{HourRequirement, TeachingPlan, ProcessState, is_current}
use reparto_docente_m.Generation.Diff.{
  Conflict, GenerationPlan, TeachingActivity, is_live_activity, plan_generation, positions_of,
}
use reparto_docente_m.Generation.Apply.{
  requirement_ids, insert_slot, apply_generation, replacement_of, supersede, supersede_one,
  apply_reconciliation,
}
use reparto_docente_m.Generation.Covered.{
  over_rows, over_targets, over_conflicts, generation_covers_positions,
}
use reparto_docente_m.Generation.Rows.{sum_by-append, plan_generation-rows_of}
use reparto_docente_m.Generation.Distinct.{
  AreDistinctSlots, last_of_slots-AreDistinctSlots, with_id, with_id-IsDistinct, with_id-keep,
  activity_ids, targets_once,
}
use reparto_docente_m.Generation.Live.{
  left, left_of_retired, left_of_others, apply_generation-over_rows,
}

-- the rows that a reconciliation retires
abbrev retired_by : GenerationPlan → List HourRequirement
retired_by g = g.to_retire ++ map (λ (c : Conflict). c.requirement) g.conflicts

sum_by-conflicts :
    (w : HourRequirement → ℕ) (cs : List Conflict)
    → sum_by w (map (λ (c : Conflict). c.requirement) cs)
      ≡ sum_by (λ (c : Conflict). w c.requirement) cs
sum_by-conflicts w [] = refl
sum_by-conflicts w (c ∷ cs) = omega (arith, sum_by-conflicts w cs)

module _ (f : ℕ → ℕ → ℕ → ℕ) (prospective_requirement_id : ℕ → ℕ → ℕ → ℕ → ℕ)
    (plan_id number : ℕ) where
  name_successor-over_rows :
      (i j : ℕ) (rs : List HourRequirement)
      → over_rows f (
          keep is_current (
            map
              (λ (r : HourRequirement).
                if i == r.id then record r { superseded_by_requirement_id = some j } else r)
              rs))
        ≡ over_rows f (keep is_current rs)
  name_successor-over_rows i j [] = refl
  name_successor-over_rows i j (r ∷ rs) = ground (arith, name_successor-over_rows i j rs)

  supersede_one-over_rows :
      (c : Conflict) (rs : List HourRequirement)
      → over_rows f (keep is_current (supersede_one prospective_requirement_id plan_id number c rs))
        ≡ over_conflicts f (c ∷ []) + over_rows f (keep is_current rs)
  unfolding supersede_one insert_slot
  supersede_one-over_rows c rs = elim (Option-cases c.new_hours) [
    | inl e ↦ rw (supersede_one, e) (omega arith)
    | inr (h, e) ↦
        rw (supersede_one, e)
          (omega (
            arith,
            name_successor-over_rows c.requirement.id
                (replacement_of prospective_requirement_id plan_id number c h).requirement_id rs,
          ))
  ]

  -- every conflict with new hours gives one new live slot
  supersede-over_rows :
      (cs : List Conflict) (rs : List HourRequirement)
      → over_rows f (keep is_current (supersede prospective_requirement_id plan_id number cs rs))
        ≡ over_conflicts f cs + over_rows f (keep is_current rs)
  unfolding supersede
  supersede-over_rows [] rs = omega arith
  supersede-over_rows (c ∷ cs) rs = omega (
    arith,
    supersede-over_rows cs (supersede_one prospective_requirement_id plan_id number c rs),
    supersede_one-over_rows c rs,
  )

module _ (prospective_requirement_id : ℕ → ℕ → ℕ → ℕ → ℕ) (activities : List TeachingActivity)
    (plan : TeachingPlan) (s : ProcessState) where
  g : GenerationPlan
  g = plan_generation prospective_requirement_id activities plan s

  -- The writes of a reconciliation, whatever conflicts it meets, leave live exactly the positions of
  -- the plan's activities that are not retired, each with the activity's hours: any quantity of an
  -- activity, a position and its hours adds up to the same over both. The activities and the
  -- requirements have different ids, and no two live requirements have the same slot.
  pub reconciled_slots_are_positions :
      IsDistinct (activity_ids activities)
      → IsDistinct (requirement_ids s.requirements)
      → AreDistinctSlots (keep is_current s.requirements)
      → (f : ℕ → ℕ → ℕ → ℕ)
      → over_rows f (
          keep is_current
            (apply_reconciliation prospective_requirement_id plan.id
              (plan_generation prospective_requirement_id activities plan s)
              s).requirements)
        ≡ over_targets f (positions_of (keep is_live_activity activities))
  unfolding g apply_reconciliation
  reconciled_slots_are_positions da dr ds f = omega (
    arith,
    supersede-over_rows f prospective_requirement_id plan.id g.next_generation_number g.conflicts
        (apply_generation (record g { to_retire = retired_by g }) s.requirements),
    apply_generation-over_rows f (record g { to_retire = retired_by g }) s.requirements,
    generation_covers_positions f prospective_requirement_id activities plan s,
    shares (left f (requirement_ids (retired_by g))),
    left_of_retired f (requirement_ids (retired_by g)) (retired_by g) (λ i e. e),
    left_of_others f (retired_by g) g.to_preserve once,
  )
    where
      live : List HourRequirement
      live = keep is_current s.requirements

      shares :
          (w : HourRequirement → ℕ)
          → sum_by w g.to_preserve + sum_by w (retired_by g) ≡ sum_by w live
      shares w = omega (
        arith,
        plan_generation-rows_of w prospective_requirement_id activities plan s
            (λ r. targets_once r activities da),
        sum_by-append w g.to_retire (map (λ (c : Conflict). c.requirement) g.conflicts),
        sum_by-conflicts w g.conflicts,
        ap (sum_by w) (last_of_slots-AreDistinctSlots live ds),
      )

      once : (i : ℕ) → with_id i g.to_preserve + with_id i (retired_by g) ≤ 1
      once i = omega (
        arith,
        shares (λ (r : HourRequirement). if r.id == i then 1 else 0),
        with_id-keep i is_current s.requirements,
        with_id-IsDistinct i s.requirements dr,
      )
