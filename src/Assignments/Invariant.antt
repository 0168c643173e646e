-- ===== src/Assignments/Invariant.antt =====
-- What every operation on assignments keeps.
use reparto_docente_m.Prelude.{
  ℕ, Bool, true, false, ◌+◌, ◌≤◌, ◌==◌, if◌then◌else◌, Option, none, some, sym, ◌∙◌, subst, ==_refl,
  ◌⊎◌, List, ◌∷◌, ◌≡◌, refl, arith, Bool-cases, inl, inr, ==_iff, IsDistinct,
}
use mathlib.Core.Option.{some-injective}
use reparto_docente_m.Lifecycle.Status.{HourRequirementStatus}
use reparto_docente_m.Assignments.Rows.{
  HourRequirement, Participant, Assignment, AssignmentStatus, ProcessState, ok, is_live,
  is_available, find_requirement, find_participant, find_assignment, set_requirement_status,
  set_assignment_status,
}
use reparto_docente_m.Assignments.Hours.{target_weekly_hours, is_occupied, hours_by_id}
use reparto_docente_m.Assignments.Occupy.{
  Choice, new_assignment, add_assignment, release_assignment, ensure_can_occupy, is_used,
}
use reparto_docente_m.Assignments.Tables.{
  find_participant-id, find_requirement-set_status, hours_by_id-set_status, assigned_to,
  assigned_to-set_status, assigned_to-cancel, on_slot, in_activity, is_occupied-on_slot,
  holds_position-in_activity, on_slot-cancel, in_activity-cancel, ids_of, ids_of-cancel,
  find_requirement_own_id, find_assignment_own_id, hours_by_id-found, is_used-contains,
  on_slot-release,
}

-- An available slot has no active assignment, an assigned one has one.
abbrev pub Tells : HourRequirement → Bool → Type 0
Tells r occupied = elim (r.status) [
  | HourRequirementStatus.available ↦ occupied ≡ false
  | HourRequirementStatus.assigned ↦ occupied ≡ true
  | _ ↦ Unit
]

-- A slot has at most one active assignment, a teacher at most one position of an activity, nobody
-- has more hours than the target, and the status of a slot tells whether it is taken.
pub record IsSound (s : ProcessState) : Type 0 where
  pub ids : IsDistinct (ids_of s.assignments)
  pub one_per_slot : (i : ℕ) → on_slot i s.assignments ≤ 1
  pub one_per_activity : (b t : ℕ) → in_activity b t s.assignments ≤ 1
  pub within_target :
      (i : ℕ) (p : Participant)
      → find_participant i s.participants ≡ some p
      → assigned_to i s.requirements s.assignments ≤ target_weekly_hours p
  pub told :
      (i : ℕ) (r : HourRequirement)
      → find_requirement i s.requirements ≡ some r
      → Tells r (is_occupied s.assignments i)

-- The three tables decide.
pub IsSound-same :
    (s t : ProcessState)
    → t.assignments ≡ s.assignments
    → t.requirements ≡ s.requirements
    → t.participants ≡ s.participants
    → IsSound s
    → IsSound t
IsSound-same s t ea er ep x = record {
  ids = rw ea x.ids;
  one_per_slot = rw ea x.one_per_slot;
  one_per_activity = rw ea x.one_per_activity;
  within_target = rw (ea, er, ep) x.within_target;
  told = rw (ea, er) x.told;
}

-- What the guards of an occupancy have found.
pub record CanOccupy (s : ProcessState) (r : HourRequirement) (p : Participant) : Type 0 where
  pub available : is_available r ≡ true
  pub unassigned : is_occupied s.assignments r.id ≡ false
  pub eligible : p.is_active ≡ true
  pub elsewhere : in_activity r.teaching_activity_id p.id s.assignments ≡ 0
  pub fits :
      assigned_to p.id s.requirements s.assignments + r.required_teacher_hours
      ≤ target_weekly_hours p

pub ensure_can_occupy-CanOccupy :
    (s : ProcessState) (r : HourRequirement) (p : Participant)
    → ensure_can_occupy s r p ≡ ok tt
    → CanOccupy s r p
unfolding ensure_can_occupy
ensure_can_occupy-CanOccupy s r p h = record {
  available = ground (arith, h);
  unassigned = ground (arith, h);
  eligible = ground (arith, h);
  elsewhere =
      ground (arith, h, holds_position-in_activity r.teaching_activity_id p.id s.assignments);
  fits = ground (arith, h);
}

-- the status of a slot after one write, where only that slot's occupation may have changed
Tells-set_status :
    (k j : ℕ) (st : HourRequirementStatus) (before after : ℕ → Bool) (rs : List HourRequirement)
    → ((i : ℕ) (r : HourRequirement) → find_requirement i rs ≡ some r → Tells r (before i))
    → ((r : HourRequirement) → Tells (record r { status = st }) (after j))
    → ((i : ℕ) → (j == i) ≡ false → after i ≡ before i)
    → (r : HourRequirement) → find_requirement k (set_requirement_status j st rs) ≡ some r
    → Tells r (after k)
Tells-set_status k j st before after rs told written kept r e =
    go (find_requirement k rs) refl (sym (find_requirement-set_status k j st rs) ∙ e)
      (Bool-cases (j == k))
  where
    go :
        (o : Option HourRequirement)
        → find_requirement k rs ≡ o
        → (elim o [ none ↦ none | some q ↦ some (if j == k then record q { status = st } else q) ])
          ≡ some r
        → ((j == k) ≡ true) ⊎ ((j == k) ≡ false)
        → Tells r (after k)
    go none f g c = absurd (ground (arith, g))
    go (some q) f g (inl c) =
        subst (λ (i : ℕ). Tells r (after i)) ((==_iff j k).0 c)
          (subst (λ (x : HourRequirement). Tells x (after j)) (some-injective _ _ (rw c at g))
            (written q))
    go (some q) f g (inr c) =
        subst (λ (x : HourRequirement). Tells x (after k)) (some-injective _ _ (rw c at g))
          (subst (λ b. Tells q b) (sym (kept k c)) (told k q f))

module _ (s : ProcessState) (r : HourRequirement) (p : Participant) (fresh i j : ℕ) (c : Choice)
    (x : IsSound s) (at : find_requirement i s.requirements ≡ some r)
    (by : find_participant j s.participants ≡ some p) (new : is_used fresh s.assignments ≡ false)
    (can : CanOccupy s r p) where
  -- the hours of the slot, read in the table after the write
  hours_written :
      hours_by_id r.id (set_requirement_status r.id HourRequirementStatus.assigned s.requirements)
      ≡ r.required_teacher_hours
  hours_written =
      hours_by_id-set_status r.id r.id HourRequirementStatus.assigned s.requirements
      ∙ hours_by_id-found r.id s.requirements (find_requirement_own_id i s.requirements at)

  -- Behind its guards an occupancy is sound.
  pub add_assignment-IsSound : IsSound (add_assignment (new_assignment fresh r p c) s)
  unfolding add_assignment
  add_assignment-IsSound = record {
    ids = (ground (arith, new, is_used-contains fresh s.assignments), x.ids);
    one_per_slot =
        λ k. ground (arith, can.unassigned, x.one_per_slot k, is_occupied-on_slot k s.assignments);
    one_per_activity = λ b t. ground (arith, can.elsewhere, x.one_per_activity b t);
    within_target = λ k q e. within k q e (Bool-cases (p.id == k));
    told = λ k q e.
        Tells-set_status k r.id HourRequirementStatus.assigned (is_occupied s.assignments)
          (is_occupied (new_assignment fresh r p c ∷ s.assignments)) s.requirements x.told
          (λ y. rw (==_refl r.id)) (λ n ne. rw ne) q e;
  }
    where
      within :
          (k : ℕ) (q : Participant)
          → find_participant k s.participants ≡ some q
          → ((p.id == k) ≡ true) ⊎ ((p.id == k) ≡ false)
          → assigned_to k
              (set_requirement_status r.id HourRequirementStatus.assigned s.requirements)
              (new_assignment fresh r p c ∷ s.assignments)
            ≤ target_weekly_hours q
      within k q e (inr ne) =
          rw
            (
              ne,
              assigned_to-set_status k r.id HourRequirementStatus.assigned s.requirements
                  s.assignments,
            )
            (omega (arith, x.within_target k q e))
      within k q e (inl same) =
          rw
            (
              same,
              hours_written,
              assigned_to-set_status k r.id HourRequirementStatus.assigned s.requirements
                  s.assignments,
            )
            (omega (arith, fits_there))
        where
          j_is_k : j ≡ k
          j_is_k = sym (find_participant-id j s.participants by) ∙ (==_iff p.id k).0 same

          fits_there :
              assigned_to k s.requirements s.assignments + r.required_teacher_hours
              ≤ target_weekly_hours q
          fits_there =
              (subst
                (λ (y : Participant).
                  assigned_to k s.requirements s.assignments + r.required_teacher_hours
                  ≤ target_weekly_hours y)
                (some-injective _ _
                  (sym by ∙ subst (λ n. find_participant n s.participants ≡ some q) (sym j_is_k) e))
                (subst
                  (λ n.
                    assigned_to n s.requirements s.assignments + r.required_teacher_hours
                    ≤ target_weekly_hours p)
                  ((==_iff p.id k).0 same) can.fits))

-- A release frees the slot of the assignment, and no other slot changes.
module _ (s : ProcessState) (a : Assignment) (i : ℕ) (x : IsSound s)
    (at : find_assignment i s.assignments ≡ some a) (live : is_live a ≡ true) where
  pub slot_freed :
      is_occupied
        (set_assignment_status a.id AssignmentStatus.cancelled s.assignments)
        a.hour_requirement_id
      ≡ false
  slot_freed = ground (
    arith,
    on_slot-release a.hour_requirement_id s.assignments a x.ids
        (find_assignment_own_id i s.assignments at) live,
    x.one_per_slot a.hour_requirement_id,
    ==_refl a.hour_requirement_id,
    is_occupied-on_slot a.hour_requirement_id
        (set_assignment_status a.id AssignmentStatus.cancelled s.assignments),
  )

  pub other_slots_kept :
      (n : ℕ)
      → (a.hour_requirement_id == n) ≡ false
      → is_occupied (set_assignment_status a.id AssignmentStatus.cancelled s.assignments) n
        ≡ is_occupied s.assignments n
  other_slots_kept n ne = ground (
    arith,
    ne,
    on_slot-release n s.assignments a x.ids (find_assignment_own_id i s.assignments at) live,
    is_occupied-on_slot n (set_assignment_status a.id AssignmentStatus.cancelled s.assignments),
    is_occupied-on_slot n s.assignments,
  )

-- The release of an active assignment is sound.
pub release_assignment-IsSound :
    (s : ProcessState) (a : Assignment) (i : ℕ)
    → IsSound s
    → find_assignment i s.assignments ≡ some a
    → is_live a ≡ true
    → IsSound (release_assignment a s)
unfolding release_assignment
release_assignment-IsSound s a i x at live = record {
  ids = rw (ids_of-cancel a.id AssignmentStatus.cancelled s.assignments) x.ids;
  one_per_slot = λ k. omega (arith, x.one_per_slot k, on_slot-cancel k a.id s.assignments);
  one_per_activity =
      λ b t. omega (arith, x.one_per_activity b t, in_activity-cancel b t a.id s.assignments);
  within_target = λ k q e. omega (
    arith,
    x.within_target k q e,
    assigned_to-set_status k a.hour_requirement_id HourRequirementStatus.available s.requirements
        (set_assignment_status a.id AssignmentStatus.cancelled s.assignments),
    assigned_to-cancel k a.id s.requirements s.assignments,
  );
  told = λ k q e.
      Tells-set_status k a.hour_requirement_id HourRequirementStatus.available
        (is_occupied s.assignments)
        (is_occupied (set_assignment_status a.id AssignmentStatus.cancelled s.assignments))
        s.requirements x.told (λ y. slot_freed s a i x at live) (other_slots_kept s a i x at live) q
        e;
}
