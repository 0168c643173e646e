-- ===== src/Assignments/Effects.antt =====
-- What the shared routine and the handlers leave in the tables.
use reparto_docente_m.Prelude.{
  ℕ, Bool, true, false, not, ◌+◌, ◌==◌, if◌then◌else◌, Option, none, some, List, [], ◌∷◌, ◌≡◌, refl,
  ap, arith, Bool-cases, inl, inr, IsDistinct,
}
use reparto_docente_m.Feasibility.Types.{FeasibilityWitnessEntry}
use reparto_docente_m.Guards.Witness.{validate_feasibility_witness}
use reparto_docente_m.Assignments.Rows.{
  HourRequirement, Participant, Assignment, AssignmentStatus, ProcessState, raise_unless, or_raise,
  internal_error, witness_is_inconsistent, Holds, >>=-Holds, Holds->>=, or_raise-eq-ok,
  raise_unless-eq-ok, is_live, find_requirement, find_participant, find_assignment,
  set_assignment_status,
}
use reparto_docente_m.Assignments.Hours.{hours_by_id}
use reparto_docente_m.Assignments.Remaining.{FingerprintPayload, build_feasibility_snapshot}
use reparto_docente_m.Assignments.Witnesses.{plan_or_404, persist_repair, with_repair}
use reparto_docente_m.Assignments.Occupy.{
  Choice, ensure_can_occupy, is_used, repair_to_persist, persist_if_repaired, new_assignment,
  add_assignment, occupy_slot,
}
use reparto_docente_m.Assignments.Tables.{assigned_to, ids_of, cancel_absent}
use reparto_docente_m.Assignments.Invariant.{CanOccupy, ensure_can_occupy-CanOccupy}
use reparto_docente_m.Assignments.Backed.{or_guard_error-Holds}

-- the same tables, in a process of the same status
pub record SameTables (s t : ProcessState) : Type 0 where
  pub assignments : t.assignments ≡ s.assignments
  pub requirements : t.requirements ≡ s.requirements
  pub participants : t.participants ≡ s.participants
  pub process_status : t.process_status ≡ s.process_status

-- `t` has one assignment more than `s`, behind the guards.
pub record Adds (fresh i j : ℕ) (c : Choice) (s t : ProcessState) : Type 0 where
  pub requirement : HourRequirement
  pub participant : Participant
  pub slot_found : find_requirement i s.requirements ≡ some requirement
  pub participant_found : find_participant j s.participants ≡ some participant
  pub new : is_used fresh s.assignments ≡ false
  pub can : CanOccupy s requirement participant
  pub tables : SameTables (add_assignment (new_assignment fresh requirement participant c) s) t

not-false : {b : Bool} → not b ≡ true → b ≡ false
not-false {b} h = ground (arith, h)

module _ (digest : FingerprintPayload → ℕ) where
  persist_if_repaired-SameTables :
      (now : ℕ) (w : Option (List FeasibilityWitnessEntry)) (s : ProcessState)
      → Holds (SameTables s) (persist_if_repaired digest now w s)
  unfolding persist_if_repaired persist_repair with_repair
  persist_if_repaired-SameTables now none s = record {
    assignments = refl;
    requirements = refl;
    participants = refl;
    process_status = refl;
  }
  persist_if_repaired-SameTables now (some w) s =
      >>=-Holds (SameTables s) (plan_or_404 s) _ λ plan _.
        >>=-Holds (SameTables s) (build_feasibility_snapshot s) _ λ snapshot _.
          or_guard_error-Holds (SameTables s) (validate_feasibility_witness snapshot.state w) _
            λ consistent _.
              >>=-Holds (SameTables s) (raise_unless consistent witness_is_inconsistent) _ λ _ _.
                record {
                  assignments = refl;
                  requirements = refl;
                  participants = refl;
                  process_status = refl;
                }

  pub occupy_slot-Adds :
      (now fresh : ℕ) (c : Choice) (prevalidated : Option (Option (List FeasibilityWitnessEntry)))
      (i j : ℕ) (s : ProcessState)
      → Holds
          (λ (done : ProcessState × Assignment). Adds fresh i j c s done.0)
          (occupy_slot digest now fresh c prevalidated i j s)
  unfolding occupy_slot
  occupy_slot-Adds now fresh c prevalidated i j s =
      >>=-Holds P (or_raise (find_requirement i s.requirements) internal_error) _ λ r er.
        >>=-Holds P (or_raise (find_participant j s.participants) internal_error) _ λ p ep.
          >>=-Holds P (ensure_can_occupy s r p) _ λ _ can.
            >>=-Holds P (repair_to_persist digest prevalidated s r.id p.id) _ λ w _.
              >>=-Holds P (raise_unless (not (is_used fresh s.assignments)) internal_error) _
                λ _ new.
                  Holds->>= (SameTables (add_assignment (new_assignment fresh r p c) s)) P
                    (persist_if_repaired digest now w
                      (add_assignment (new_assignment fresh r p c) s))
                    _
                    (persist_if_repaired-SameTables now w
                      (add_assignment (new_assignment fresh r p c) s))
                    (λ s' same. record {
                      requirement = r;
                      participant = p;
                      slot_found =
                          or_raise-eq-ok (find_requirement i s.requirements) internal_error er;
                      participant_found =
                          or_raise-eq-ok (find_participant j s.participants) internal_error ep;
                      new = not-false (
                          raise_unless-eq-ok (not (is_used fresh s.assignments)) internal_error
                            new);
                      can = ensure_can_occupy-CanOccupy s r p can;
                      tables = same;
                    })
    where
      P : ProcessState × Assignment → Type 0
      P done = Adds fresh i j c s done.0

-- A release takes the slot's hours from its participant, and nobody else's.
pub assigned_to-release :
    (i : ℕ) (rs : List HourRequirement) (xs : List Assignment) (a : Assignment)
    → IsDistinct (ids_of xs)
    → find_assignment a.id xs ≡ some a
    → is_live a ≡ true
    → assigned_to i rs (set_assignment_status a.id AssignmentStatus.cancelled xs)
        + (if a.process_teacher_id == i then hours_by_id a.hour_requirement_id rs else 0)
      ≡ assigned_to i rs xs
assigned_to-release i rs [] a d h l = absurd (ground (arith, h))
assigned_to-release i rs (b ∷ xs) a d h l = elim (Bool-cases (a.id == b.id)) [
  | inl e ↦ ground (
    arith,
    e,
    h,
    l,
    d.0,
    ap (λ ys. assigned_to i rs ys)
        (cancel_absent a.id AssignmentStatus.cancelled xs (ground (arith, e, d.0))),
  )
  | inr e ↦ ground (arith, e, assigned_to-release i rs xs a d.1 (ground (arith, h, e)) l)
]
