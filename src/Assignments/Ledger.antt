-- ===== src/Assignments/Ledger.antt =====
-- Whose hours the handlers move.
use reparto_docente_m.Prelude.{
  ℕ, true, false, ◌+◌, ◌==◌, if◌then◌else◌, Option, none, some, ◌≡◌, refl, sym, ◌∙◌, ap, subst,
  arith, ==_refl,
}
use mathlib.Core.Option.{some-injective}
use reparto_docente_m.Lifecycle.Status.{HourRequirementStatus}
use reparto_docente_m.Assignments.Rows.{
  HourRequirement, Assignment, AssignmentStatus, ProcessState, Result, ok, or_raise, Holds,
  >>=-Holds, or_raise-eq-ok, is_live, find_assignment, find_requirement, set_assignment_status,
  assignment_not_found,
}
use reparto_docente_m.Assignments.Hours.{hours_by_id, is_occupied}
use reparto_docente_m.Assignments.Witnesses.{invalidate}
use reparto_docente_m.Assignments.Occupy.{
  Choice, ensure_open, new_assignment, add_assignment, release_assignment,
}
use reparto_docente_m.Assignments.Actions.{
  audited, undo_assignment, with_undone, requeue_completed_turns, ensure_active_for_action,
}
use reparto_docente_m.Assignments.Tables.{
  assigned_to, assigned_to-set_status, hours_by_id-set_status, find_assignment_own_id,
  find_requirement-id, find_participant-id, find_requirement-set_status, find_assignment-set_status,
  find_assignment-set_other,
}
use reparto_docente_m.Assignments.Invariant.{IsSound, slot_freed, other_slots_kept}
use reparto_docente_m.Assignments.Kept.{ensure_active_for_action-is_live}
use reparto_docente_m.Assignments.Effects.{Adds, assigned_to-release}

-- the hours that active assignments give a participant
abbrev pub hours_held : ProcessState → ℕ → ℕ
hours_held s i = assigned_to i s.requirements s.assignments

-- the hours of the slot of an assignment
abbrev pub slot_hours : ProcessState → Assignment → ℕ
slot_hours s a = hours_by_id a.hour_requirement_id s.requirements

-- the rows of the slots after a release: that of the slot released is AVAILABLE, the others are kept
abbrev pub row_after_release : Assignment → ProcessState → ℕ → Option HourRequirement
row_after_release a s k = elim (find_requirement k s.requirements) [
  | none ↦ none
  | some r ↦ some (
      if a.hour_requirement_id == k
      then record r { status = HourRequirementStatus.available }
      else r)
]

-- The assignment is CANCELLED in `t` and every other one is kept; its slot has no active assignment
-- and its row is AVAILABLE; every other slot keeps its row and what is active on it; its participant
-- has lost its hours, and nobody else has lost or won any.
pub record Frees (a : Assignment) (s t : ProcessState) : Type 0 where
  pub cancelled :
      find_assignment a.id t.assignments ≡ some (record a { status = AssignmentStatus.cancelled })
  pub kept :
      (k : ℕ)
      → (a.id == k) ≡ false
      → find_assignment k t.assignments ≡ find_assignment k s.assignments
  pub rows : (k : ℕ) → find_requirement k t.requirements ≡ row_after_release a s k
  pub free : is_occupied t.assignments a.hour_requirement_id ≡ false
  pub others :
      (k : ℕ)
      → (a.hour_requirement_id == k) ≡ false
      → is_occupied t.assignments k ≡ is_occupied s.assignments k
  pub hours :
      (i : ℕ)
      → hours_held t i + (if a.process_teacher_id == i then slot_hours s a else 0) ≡ hours_held s i

module _ (s : ProcessState) (k : ℕ) (a : Assignment) (x : IsSound s)
    (at : find_assignment k s.assignments ≡ some a) (live : is_live a ≡ true) where
  pub release_assignment-Frees : Frees a s (release_assignment a s)
  unfolding release_assignment
  release_assignment-Frees = record {
    cancelled =
        ground (
          arith,
          own,
          find_assignment-set_status a.id a.id AssignmentStatus.cancelled s.assignments,
        );
    kept = λ j e. find_assignment-set_other j a.id AssignmentStatus.cancelled s.assignments e;
    rows = λ j.
        find_requirement-set_status j a.hour_requirement_id HourRequirementStatus.available
          s.requirements;
    free = slot_freed s a k x at live;
    others = other_slots_kept s a k x at live;
    hours =
        λ i. assigned_hours i ∙ assigned_to-release i s.requirements s.assignments a x.ids own live;
  }
    where
      own : find_assignment a.id s.assignments ≡ some a
      own = find_assignment_own_id k s.assignments at

      assigned_hours :
          (i : ℕ)
          → hours_held (release_assignment a s) i
              + (if a.process_teacher_id == i then slot_hours s a else 0)
            ≡ assigned_to i s.requirements
                (set_assignment_status a.id AssignmentStatus.cancelled s.assignments)
              + (if a.process_teacher_id == i then slot_hours s a else 0)
      assigned_hours i =
          ap (λ n. n + (if a.process_teacher_id == i then slot_hours s a else 0))
            (assigned_to-set_status i a.hour_requirement_id HourRequirementStatus.available
              s.requirements (set_assignment_status a.id AssignmentStatus.cancelled s.assignments))

-- What holds of a value that is there.
pub Holds-ok : {A : Type 0} (P : A → Type 0) (m : Result A) {a : A} → Holds P m → m ≡ ok a → P a
Holds-ok P m h e = subst (Holds P) e h

Frees-same :
    (a : Assignment) (s t u : ProcessState)
    → u.assignments ≡ t.assignments
    → u.requirements ≡ t.requirements
    → Frees a s t
    → Frees a s u
Frees-same a s t u ea er x = record {
  cancelled = rw ea x.cancelled;
  kept = rw ea x.kept;
  rows = rw er x.rows;
  free = rw ea x.free;
  others = rw ea x.others;
  hours = rw (ea, er) x.hours;
}

-- Undoing an assignment, in sound tables, makes it CANCELLED and its slot's row AVAILABLE, leaves no
-- active assignment on the slot and takes the slot's hours from its teacher. Every other assignment,
-- the row of every other slot, whether another slot is taken and the hours of everybody else stay.
pub undo-Frees :
    (now user k reason : ℕ) (s t : ProcessState) (a : Assignment)
    → IsSound s
    → find_assignment k s.assignments ≡ some a
    → undo_assignment now user k reason s ≡ ok t
    → Frees a s t
unfolding undo_assignment with_undone audited requeue_completed_turns
undo-Frees now user k reason s t a x at =
    Holds-ok (Frees a s) (undo_assignment now user k reason s) (
      >>=-Holds (Frees a s) (ensure_open s) _ λ _ _.
        >>=-Holds (Frees a s) (or_raise (find_assignment k s.assignments) assignment_not_found) _
          λ b eb. >>=-Holds (Frees a s) (ensure_active_for_action b) _ λ _ live.
            Frees-same a s (release_assignment b s) _ (kept b).0 (kept b).1 (
              subst (λ y. Frees y s (release_assignment b s)) (same b eb)
                (release_assignment-Frees s k b x (found b eb)
                  (ensure_active_for_action-is_live b live))))
  where
    found :
        (b : Assignment)
        → or_raise (find_assignment k s.assignments) assignment_not_found ≡ ok b
        → find_assignment k s.assignments ≡ some b
    found b = or_raise-eq-ok (find_assignment k s.assignments) assignment_not_found

    same :
        (b : Assignment)
        → or_raise (find_assignment k s.assignments) assignment_not_found ≡ ok b
        → b ≡ a
    same b eb = some-injective _ _ (sym (found b eb) ∙ at)

    kept :
        (b : Assignment)
        → ((invalidate (release_assignment b s)).0.assignments
            ≡ (release_assignment b s).assignments)
          × ((invalidate (release_assignment b s)).0.requirements
              ≡ (release_assignment b s).requirements)
    kept b = (ground arith, ground arith)

-- what an added assignment brings
pub Adds-hours :
    (fresh i j n : ℕ) (c : Choice) (s t : ProcessState)
    → Adds fresh i j c s t
    → hours_held t n ≡ hours_held s n + (if j == n then hours_by_id i s.requirements else 0)
unfolding add_assignment
Adds-hours fresh i j n c s t y =
    ap (λ rs. assigned_to n rs t.assignments) y.tables.requirements
    ∙ (ap
          (assigned_to n
            (add_assignment (new_assignment fresh y.requirement y.participant c) s).requirements)
          y.tables.assignments
        ∙ subst
            (λ k. written ≡ hours_held s n + (if j == n then hours_by_id k s.requirements else 0))
            slot
            (subst
              (λ k.
                written
                ≡ hours_held s n
                  + (if k == n then hours_by_id y.requirement.id s.requirements else 0))
              teacher
              (ground (
                arith,
                hours_by_id-set_status y.requirement.id y.requirement.id
                    HourRequirementStatus.assigned s.requirements,
                assigned_to-set_status n y.requirement.id HourRequirementStatus.assigned
                    s.requirements s.assignments,
              ))))
  where
    slot : y.requirement.id ≡ i
    slot = find_requirement-id i s.requirements y.slot_found

    teacher : y.participant.id ≡ j
    teacher = find_participant-id j s.participants y.participant_found

    written : ℕ
    written = hours_held (add_assignment (new_assignment fresh y.requirement y.participant c) s) n

pub Adds-occupied :
    (fresh i j : ℕ) (c : Choice) (s t : ProcessState)
    → Adds fresh i j c s t
    → is_occupied t.assignments i ≡ true
unfolding add_assignment
Adds-occupied fresh i j c s t y =
    rw (y.tables.assignments, find_requirement-id i s.requirements y.slot_found, ==_refl i) refl
