-- ===== src/Assignments/Moves.antt =====
-- Whose hours a reassignment moves.
use reparto_docente_m.Prelude.{
  ℕ, true, not, ◌+◌, ◌==◌, if◌then◌else◌, Option, none, some, ◌≡◌, sym, ◌∙◌, ap, subst, arith,
}
use mathlib.Core.Option.{some-injective}
use reparto_docente_m.Lifecycle.Status.{HourRequirementStatus}
use reparto_docente_m.Assignments.Rows.{
  HourRequirement, Participant, Assignment, ProcessState, ok, raise_unless, or_raise, >>=-Holds,
  Holds->>=, or_raise-eq-ok, is_live, find_requirement, find_participant, find_assignment,
  assignment_not_found, requirement_not_found, process_teacher_not_found,
  requires_different_process_teacher, AssignmentSource,
}
use reparto_docente_m.Assignments.Hours.{hours_by_id, is_occupied}
use reparto_docente_m.Assignments.Remaining.{FingerprintPayload}
use reparto_docente_m.Assignments.Witnesses.{repair_for_reassignment}
use reparto_docente_m.Assignments.Occupy.{
  Choice, ensure_open, ensure_assignments_unblocked, release_assignment, occupy_slot,
}
use reparto_docente_m.Assignments.Actions.{
  audited, reassign_assignment, ensure_can_reassign, reassignment_witness, requeue_completed_turns,
  ensure_active_for_action,
}
use reparto_docente_m.Assignments.Tables.{
  hours_by_id-set_status, find_requirement-id, find_participant-id,
}
use reparto_docente_m.Assignments.Invariant.{IsSound}
use reparto_docente_m.Assignments.Kept.{ensure_active_for_action-is_live}
use reparto_docente_m.Assignments.Effects.{Adds, occupy_slot-Adds}
use reparto_docente_m.Assignments.Ledger.{
  hours_held, slot_hours, Frees, release_assignment-Frees, Holds-ok, Adds-hours, Adds-occupied,
}

-- The slot of the assignment is taken in `t`; its hours have gone from its participant to `j`, and
-- nobody else has lost or won any.
pub record Moves (a : Assignment) (j : ℕ) (s t : ProcessState) : Type 0 where
  pub taken : is_occupied t.assignments a.hour_requirement_id ≡ true
  pub hours :
      (i : ℕ)
      → hours_held t i + (if a.process_teacher_id == i then slot_hours s a else 0)
        ≡ hours_held s i + (if j == i then slot_hours s a else 0)

module _ (s t : ProcessState) (fresh j : ℕ) (c : Choice) (a : Assignment) where
  Frees-Moves :
      Frees a s (release_assignment a s)
      → Adds fresh a.hour_requirement_id j c (release_assignment a s) t
      → Moves a j s t
  unfolding release_assignment
  Frees-Moves f y = record {
    taken = Adds-occupied fresh a.hour_requirement_id j c (release_assignment a s) t y;
    hours = λ i. omega (
      arith,
      f.hours i,
      Adds-hours fresh a.hour_requirement_id j i c (release_assignment a s) t y,
      won i,
    );
  }
    where
      won :
          (i : ℕ)
          → (if j == i
              then hours_by_id a.hour_requirement_id (release_assignment a s).requirements
              else 0)
            ≡ (if j == i then slot_hours s a else 0)
      won i =
          ap (λ n. if j == i then n else 0)
            (hours_by_id-set_status a.hour_requirement_id a.hour_requirement_id
              HourRequirementStatus.available s.requirements)

-- A reassignment that succeeds, in sound tables, leaves the slot taken and moves exactly its hours:
-- the teacher who had it loses them, the replacement wins them, and nobody else's hours change.
pub reassign-Moves :
    (digest : FingerprintPayload → ℕ) (now user fresh k j reason : ℕ) (notes : Option ℕ)
    (s t : ProcessState) (a : Assignment)
    → IsSound s
    → find_assignment k s.assignments ≡ some a
    → reassign_assignment digest now user fresh k j reason notes s ≡ ok t
    → Moves a j s t
unfolding reassign_assignment audited requeue_completed_turns
reassign-Moves digest now user fresh k j reason notes s t a x at =
    Holds-ok P (reassign_assignment digest now user fresh k j reason notes s) (
      >>=-Holds P (ensure_open s) _ λ _ _. >>=-Holds P (ensure_assignments_unblocked s) _ λ _ _.
        >>=-Holds P (or_raise (find_assignment k s.assignments) assignment_not_found) _ λ b eb.
          >>=-Holds P (ensure_active_for_action b) _ λ _ live.
            >>=-Holds P
              (or_raise (find_requirement b.hour_requirement_id s.requirements)
                requirement_not_found)
              _
              λ r er.
                >>=-Holds P (or_raise (find_participant j s.participants) process_teacher_not_found)
                  _
                  λ p ep.
                    >>=-Holds P
                      (raise_unless (not (p.id == b.process_teacher_id))
                        requires_different_process_teacher)
                      _
                      λ _ _. >>=-Holds P (ensure_can_reassign s r p) _ λ _ _.
                        >>=-Holds P (repair_for_reassignment digest b r p.id s) _ λ repair _.
                          >>=-Holds P (reassignment_witness repair) _ λ w _.
                            Holds->>= (After b r p) P
                              (occupy_slot digest now fresh _ (some w) r.id p.id
                                (release_assignment b s))
                              _
                              (occupy_slot-Adds digest now fresh _ (some w) r.id p.id
                                (release_assignment b s))
                              (λ done y.
                                let m =
                                  arrived b r p done.0 eb (ensure_active_for_action-is_live b live)
                                    er ep y in
                                record { taken = m.taken; hours = m.hours }))
  where
    P : ProcessState → Type 0
    P = Moves a j s

    c : Choice
    c = record {
      source = AssignmentSource.department_head;
      chosen_by_user_id = user;
      confirmed_by_user_id = none;
      notes = notes;
    }

    After : Assignment → HourRequirement → Participant → ProcessState × Assignment → Type 0
    After b r p done = Adds fresh r.id p.id c (release_assignment b s) done.0

    arrived :
        (b : Assignment) (r : HourRequirement) (p : Participant) (u : ProcessState)
        → or_raise (find_assignment k s.assignments) assignment_not_found ≡ ok b
        → is_live b ≡ true
        → or_raise (find_requirement b.hour_requirement_id s.requirements) requirement_not_found
          ≡ ok r
        → or_raise (find_participant j s.participants) process_teacher_not_found ≡ ok p
        → Adds fresh r.id p.id c (release_assignment b s) u
        → Moves a j s u
    arrived b r p u eb live er ep y =
        subst (λ z. Moves z j s u)
          (some-injective _ _
            (sym (or_raise-eq-ok (find_assignment k s.assignments) assignment_not_found eb) ∙ at))
          (Frees-Moves s u fresh j c b
            (release_assignment-Frees s k b x
              (or_raise-eq-ok (find_assignment k s.assignments) assignment_not_found eb) live)
            (subst (λ n. Adds fresh n j c (release_assignment b s) u)
              (find_requirement-id b.hour_requirement_id s.requirements (
                or_raise-eq-ok (find_requirement b.hour_requirement_id s.requirements)
                  requirement_not_found er))
              (subst (λ n. Adds fresh r.id n c (release_assignment b s) u)
                (find_participant-id j s.participants
                  (or_raise-eq-ok (find_participant j s.participants) process_teacher_not_found ep))
                y)))
