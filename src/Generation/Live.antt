-- ===== src/Generation/Live.antt =====
-- What a generation leaves live: `generate` of reparto_service/controllers/hour_requirements.py.
use reparto_docente_m.Prelude.{
  ℕ, true, ◌+◌, ◌≤◌, ◌==◌, ==_refl, if◌then◌else◌, List, [], ◌∷◌, ◌++◌, ◌≡◌, refl, ap, keep, map,
  contains, arith, sum_by, IsDistinct,
}
use reparto_docente_m.Assignments.Rows.{HourRequirement, TeachingPlan, ProcessState, is_current}
use reparto_docente_m.Generation.Diff.{
  Conflict, NewSlot, GenerationPlan, TeachingActivity, is_live_activity, plan_generation,
  positions_of,
}
use reparto_docente_m.Generation.Apply.{
  requirement_ids, preserve, retire, insert_slot, apply_generation,
}
use reparto_docente_m.Generation.Covered.{
  over_new, over_rows, over_targets, over_conflicts, generation_covers_positions,
}
use reparto_docente_m.Generation.Rows.{sum_by-append, plan_generation-rows_of}
use reparto_docente_m.Generation.Distinct.{
  AreDistinctSlots, last_of_slots-AreDistinctSlots, with_id, contains-with_id, with_id-IsDistinct,
  with_id-keep, activity_ids, targets_once,
}

module _ (f : ℕ → ℕ → ℕ → ℕ) where
  -- a row's quantity, where it is not among the retired
  abbrev pub left : List ℕ → HourRequirement → ℕ
  left ids r =
      if contains ids r.id
      then 0
      else f r.teaching_activity_id r.position_index r.required_teacher_hours

  retire-over_rows :
      (number : ℕ) (ids preserved : List ℕ) (rs : List HourRequirement)
      → over_rows f (keep is_current (retire number ids (preserve number preserved rs)))
        ≡ sum_by (left ids) (keep is_current rs)
  retire-over_rows number ids preserved [] = refl
  retire-over_rows number ids preserved (r ∷ rs) =
      ground (arith, retire-over_rows number ids preserved rs)

  insert_slot-over_rows :
      (number : ℕ) (ns : List NewSlot)
      → over_rows f (keep is_current (map (insert_slot number) ns)) ≡ over_new f ns
  unfolding insert_slot
  insert_slot-over_rows number [] = refl
  insert_slot-over_rows number (n ∷ ns) = ground (arith, insert_slot-over_rows number ns)

  keep-++ :
      (ys zs : List HourRequirement)
      → keep is_current (ys ++ zs) ≡ keep is_current ys ++ keep is_current zs
  keep-++ [] zs = refl
  keep-++ (y ∷ ys) zs = ground (arith, keep-++ ys zs)

  -- the rows of the list that is retired count for nothing
  pub left_of_retired :
      (ids : List ℕ) (ys : List HourRequirement)
      → ((i : ℕ) → contains (requirement_ids ys) i ≡ true → contains ids i ≡ true)
      → sum_by (left ids) ys ≡ 0
  left_of_retired ids [] h = refl
  left_of_retired ids (y ∷ ys) h = ground (
    arith,
    h y.id (ground (arith, ==_refl y.id)),
    left_of_retired ids ys (λ i e. h i (ground (arith, e))),
  )

  -- rows of which none is among the retired count in full
  pub left_of_others :
      (gone ys : List HourRequirement)
      → ((i : ℕ) → with_id i ys + with_id i gone ≤ 1)
      → sum_by (left (requirement_ids gone)) ys ≡ over_rows f ys
  left_of_others gone [] h = refl
  left_of_others gone (y ∷ ys) h = ground (
    arith,
    h y.id,
    ==_refl y.id,
    contains-with_id y.id gone,
    left_of_others gone ys (λ i. omega (arith, h i)),
  )

  pub apply_generation-over_rows :
      (g : GenerationPlan) (rs : List HourRequirement)
      → over_rows f (keep is_current (apply_generation g rs))
        ≡ over_new f g.to_create + sum_by (left (requirement_ids g.to_retire)) (keep is_current rs)
  unfolding apply_generation
  apply_generation-over_rows g rs =
      let new = map (insert_slot g.next_generation_number) g.to_create in
      let old =
        retire g.next_generation_number (requirement_ids g.to_retire)
          (preserve g.next_generation_number (requirement_ids g.to_preserve) rs) in
      omega (
        arith,
        ap (over_rows f) (keep-++ new old),
        sum_by-append
            (λ (r : HourRequirement).
              f r.teaching_activity_id r.position_index r.required_teacher_hours)
            (keep is_current new) (keep is_current old),
        insert_slot-over_rows g.next_generation_number g.to_create,
        retire-over_rows g.next_generation_number (requirement_ids g.to_retire)
            (requirement_ids g.to_preserve) rs,
      )

module _ (prospective_requirement_id : ℕ → ℕ → ℕ → ℕ → ℕ) (activities : List TeachingActivity)
    (plan : TeachingPlan) (s : ProcessState) where
  g : GenerationPlan
  g = plan_generation prospective_requirement_id activities plan s

  -- Where the generation meets no conflict, its writes leave live exactly the positions of the plan's
  -- activities that are not retired, each with the activity's hours: any quantity of an activity, a
  -- position and its hours adds up to the same over both. The activities and the requirements have
  -- different ids, and no two live requirements have the same slot.
  pub generated_slots_are_positions :
      IsDistinct (activity_ids activities)
      → IsDistinct (requirement_ids s.requirements)
      → AreDistinctSlots (keep is_current s.requirements)
      → (plan_generation prospective_requirement_id activities plan s).conflicts ≡ []
      → (f : ℕ → ℕ → ℕ → ℕ)
      → over_rows f (
          keep is_current (
            apply_generation
              (plan_generation prospective_requirement_id activities plan s)
              s.requirements))
        ≡ over_targets f (positions_of (keep is_live_activity activities))
  unfolding g
  generated_slots_are_positions da dr ds none_in_conflict f = omega (
    arith,
    apply_generation-over_rows f g s.requirements,
    generation_covers_positions f prospective_requirement_id activities plan s,
    ap (over_conflicts f) none_in_conflict,
    shares (left f (requirement_ids g.to_retire)),
    left_of_retired f (requirement_ids g.to_retire) g.to_retire (λ i e. e),
    left_of_others f g.to_retire g.to_preserve once,
  )
    where
      live : List HourRequirement
      live = keep is_current s.requirements

      shares :
          (w : HourRequirement → ℕ) → sum_by w g.to_preserve + sum_by w g.to_retire ≡ sum_by w live
      shares w = omega (
        arith,
        plan_generation-rows_of w prospective_requirement_id activities plan s
            (λ r. targets_once r activities da),
        ap (λ (cs : List Conflict). sum_by (λ (c : Conflict). w c.requirement) cs) none_in_conflict,
        ap (sum_by w) (last_of_slots-AreDistinctSlots live ds),
      )

      once : (i : ℕ) → with_id i g.to_preserve + with_id i g.to_retire ≤ 1
      once i = omega (
        arith,
        shares (λ (r : HourRequirement). if r.id == i then 1 else 0),
        with_id-keep i is_current s.requirements,
        with_id-IsDistinct i s.requirements dr,
      )
