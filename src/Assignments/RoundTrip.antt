-- ===== src/Assignments/RoundTrip.antt =====
-- An assignment that is created and undone.
use reparto_docente_m.Prelude.{
  ℕ, true, false, ◌==◌, if◌then◌else◌, Option, none, some, List, ◌≡◌, refl, sym, ◌∙◌, ap, subst,
  arith, Bool-cases, inl, inr, ==_refl, ==_iff,
}
use reparto_docente_m.Lifecycle.Status.{HourRequirementStatus}
use reparto_docente_m.Meeting.Turns.{is_mutable}
use reparto_docente_m.Assignments.Rows.{
  HourRequirement, Participant, Assignment, AssignmentSource, ProcessState, ok, raise_unless,
  or_raise, Holds, >>=-Holds, Holds->>=, or_raise-eq-ok, raise_unless-eq-ok, is_available,
  find_requirement, find_participant, find_assignment, set_requirement_status,
  requirement_not_found, process_teacher_not_found, cannot_mutate_process,
}
use reparto_docente_m.Assignments.Hours.{hours_by_id, is_occupied}
use reparto_docente_m.Assignments.Remaining.{FingerprintPayload}
use reparto_docente_m.Assignments.Witnesses.{invalidate}
use reparto_docente_m.Assignments.Occupy.{
  Choice, ensure_open, ensure_assignments_unblocked, new_assignment, add_assignment,
  release_assignment, occupy_slot,
}
use reparto_docente_m.Assignments.Actions.{
  audited, create_manual_assignment, undo_assignment, with_undone, requeue_completed_turns,
  ensure_active_for_action,
}
use reparto_docente_m.Assignments.Tables.{
  find_requirement-id, find_requirement_own_id, find_requirement-set_status, hours_by_id-set_status,
  find_participant-id,
}
use reparto_docente_m.Assignments.Invariant.{IsSound, IsSound-same, add_assignment-IsSound}
use reparto_docente_m.Assignments.Effects.{Adds, occupy_slot-Adds}
use reparto_docente_m.Assignments.Ledger.{
  hours_held, slot_hours, Frees, undo-Frees, Holds-ok, Adds-hours,
}

-- what the department head enters
abbrev by_head : ℕ → Option ℕ → Choice
by_head user notes = record {
  source = AssignmentSource.department_head;
  chosen_by_user_id = user;
  confirmed_by_user_id = none;
  notes = notes;
}

-- a successful creation, in a process that is open
record Created (fresh i j : ℕ) (c : Choice) (s t : ProcessState) : Type 0 where
  pub adds : Adds fresh i j c s t
  pub mutable : is_mutable t.process_status ≡ true

create_manual_assignment-Created :
    (digest : FingerprintPayload → ℕ) (now user fresh i j : ℕ) (notes : Option ℕ) (s : ProcessState)
    → Holds
        (Created fresh i j (by_head user notes) s)
        (create_manual_assignment digest now user fresh i j notes s)
unfolding create_manual_assignment ensure_open audited add_assignment
create_manual_assignment-Created digest now user fresh i j notes s =
    >>=-Holds P (raise_unless (is_mutable s.process_status) cannot_mutate_process) _ λ _ mutable.
      >>=-Holds P (ensure_assignments_unblocked s) _ λ _ _.
        >>=-Holds P (or_raise (find_requirement i s.requirements) requirement_not_found) _ λ r er.
          >>=-Holds P (or_raise (find_participant j s.participants) process_teacher_not_found) _
            λ p ep.
              Holds->>= (After r p) P (occupy_slot digest now fresh _ none r.id p.id s) _
                (occupy_slot-Adds digest now fresh _ none r.id p.id s)
                (λ done y.
                  let z = at_ids r p done.0 er ep y in
                  record {
                    adds = record {
                      requirement = z.requirement;
                      participant = z.participant;
                      slot_found = z.slot_found;
                      participant_found = z.participant_found;
                      new = z.new;
                      can = z.can;
                      tables = record {
                        assignments = z.tables.assignments;
                        requirements = z.tables.requirements;
                        participants = z.tables.participants;
                        process_status = z.tables.process_status;
                      };
                    };
                    mutable =
                        ap is_mutable z.tables.process_status
                        ∙ raise_unless-eq-ok (is_mutable s.process_status) cannot_mutate_process
                            mutable;
                  })
  where
    c : Choice
    c = by_head user notes

    P : ProcessState → Type 0
    P = Created fresh i j c s

    After : HourRequirement → Participant → ProcessState × Assignment → Type 0
    After r p done = Adds fresh r.id p.id c s done.0

    at_ids :
        (r : HourRequirement) (p : Participant) (u : ProcessState)
        → or_raise (find_requirement i s.requirements) requirement_not_found ≡ ok r
        → or_raise (find_participant j s.participants) process_teacher_not_found ≡ ok p
        → Adds fresh r.id p.id c s u
        → Adds fresh i j c s u
    at_ids r p u er ep y =
        subst (λ n. Adds fresh n j c s u)
          (find_requirement-id i s.requirements
            (or_raise-eq-ok (find_requirement i s.requirements) requirement_not_found er))
          (subst (λ n. Adds fresh r.id n c s u)
            (find_participant-id j s.participants
              (or_raise-eq-ok (find_participant j s.participants) process_teacher_not_found ep))
            y)

-- The slots, their occupation and everyone's hours are as before.
pub record Restores (s u : ProcessState) : Type 0 where
  pub slots : (k : ℕ) → find_requirement k u.requirements ≡ find_requirement k s.requirements
  pub occupation : (k : ℕ) → is_occupied u.assignments k ≡ is_occupied s.assignments k
  pub hours : (k : ℕ) → hours_held u k ≡ hours_held s k

status_of_available :
    (q : HourRequirement)
    → is_available q ≡ true
    → record q { status = HourRequirementStatus.available } ≡ q
status_of_available q h = ap (λ st. record q { status = st }) (sym (go q.status h))
  where
    go :
        (st : HourRequirementStatus)
        → is_available (record q { status = st }) ≡ true
        → st ≡ HourRequirementStatus.available
    go HourRequirementStatus.available e = refl
    go _ e = absurd (ground (arith, e))

set_twice :
    (k : ℕ) (q : HourRequirement) (rs : List HourRequirement)
    → find_requirement q.id rs ≡ some q
    → is_available q ≡ true
    → find_requirement k (
        set_requirement_status q.id HourRequirementStatus.available
          (set_requirement_status q.id HourRequirementStatus.assigned rs))
      ≡ find_requirement k rs
set_twice k q rs found h = elim (Bool-cases (q.id == k)) [
  | inl e ↦
      subst
        (λ n.
          find_requirement n (
            set_requirement_status q.id HourRequirementStatus.available
              (set_requirement_status q.id HourRequirementStatus.assigned rs))
          ≡ find_requirement n rs)
        ((==_iff q.id k).0 e)
        (rw
          (
            find_requirement-set_status q.id q.id HourRequirementStatus.available
                (set_requirement_status q.id HourRequirementStatus.assigned rs),
            find_requirement-set_status q.id q.id HourRequirementStatus.assigned rs,
            found,
            ==_refl q.id,
          )
          (ap some (status_of_available q h)))
  | inr e ↦ ground (
    arith,
    e,
    find_requirement-set_status k q.id HourRequirementStatus.available
        (set_requirement_status q.id HourRequirementStatus.assigned rs),
    find_requirement-set_status k q.id HourRequirementStatus.assigned rs,
  )
]

invalidate-requirements : (s : ProcessState) → (invalidate s).0.requirements ≡ s.requirements
unfolding invalidate
invalidate-requirements s = ground arith

module _ (s t : ProcessState) (fresh i j : ℕ) (c : Choice) (x : IsSound s)
    (made : Created fresh i j c s t) where
  abbrev r : HourRequirement
  r = made.adds.requirement

  abbrev a : Assignment
  a = new_assignment fresh r made.adds.participant c

  t-IsSound : IsSound t
  t-IsSound =
      IsSound-same (add_assignment a s) t made.adds.tables.assignments made.adds.tables.requirements
        made.adds.tables.participants
        (add_assignment-IsSound s r made.adds.participant fresh i j c x made.adds.slot_found
          made.adds.participant_found made.adds.new made.adds.can)

  a_found : find_assignment fresh t.assignments ≡ some a
  unfolding add_assignment
  a_found = rw (made.adds.tables.assignments, ==_refl fresh) refl

  slot_back :
      (k : ℕ)
      → find_requirement k
          (set_requirement_status r.id HourRequirementStatus.available t.requirements)
        ≡ find_requirement k s.requirements
  unfolding add_assignment
  slot_back k = rw made.adds.tables.requirements (
      set_twice k r s.requirements (find_requirement_own_id i s.requirements made.adds.slot_found)
        made.adds.can.available)

  undo_succeeds :
      (now user reason : ℕ)
      → undo_assignment now user fresh reason t ≡ ok (with_undone now user a reason t)
  unfolding undo_assignment ensure_open ensure_active_for_action
  undo_succeeds now user reason = rw (made.mutable, a_found) refl

  slots_restored :
      (now user reason k : ℕ)
      → find_requirement k (with_undone now user a reason t).requirements
        ≡ find_requirement k s.requirements
  unfolding with_undone requeue_completed_turns audited release_assignment
  slots_restored now user reason k =
      ap (find_requirement k) (invalidate-requirements (release_assignment a t)) ∙ slot_back k

  occupation_restored :
      (k : ℕ) (u : ProcessState)
      → Frees a t u
      → is_occupied u.assignments k ≡ is_occupied s.assignments k
  unfolding add_assignment
  occupation_restored k u f = elim (Bool-cases (r.id == k)) [
    | inl e ↦
        subst (λ n. is_occupied u.assignments n ≡ is_occupied s.assignments n) ((==_iff r.id k).0 e)
          (f.free ∙ sym made.adds.can.unassigned)
    | inr e ↦ f.others k e ∙ before e
  ]
    where
      before : (r.id == k) ≡ false → is_occupied t.assignments k ≡ is_occupied s.assignments k
      before e = rw (made.adds.tables.assignments, e) refl

  hours_restored : (k : ℕ) (u : ProcessState) → Frees a t u → hours_held u k ≡ hours_held s k
  unfolding add_assignment
  hours_restored k u f = omega (
    arith,
    f.hours k,
    Adds-hours fresh i j k c s t made.adds,
    ap (λ n. if p.id == k then n else 0) same_hours,
    ap (λ n. if n == k then hours_by_id i s.requirements else 0)
        (find_participant-id j s.participants made.adds.participant_found),
  )
    where
      p : Participant
      p = made.adds.participant

      same_hours : slot_hours t a ≡ hours_by_id i s.requirements
      same_hours =
          ap (hours_by_id r.id) made.adds.tables.requirements
          ∙ (hours_by_id-set_status r.id r.id HourRequirementStatus.assigned s.requirements
              ∙ ap (λ n. hours_by_id n s.requirements)
                  (find_requirement-id i s.requirements made.adds.slot_found))

  restored : (now user reason : ℕ) → Restores s (with_undone now user a reason t)
  restored now user reason =
      let f =
        undo-Frees now user fresh reason t _ a t-IsSound a_found (undo_succeeds now user reason) in
      record {
        slots = slots_restored now user reason;
        occupation = λ k. occupation_restored k (with_undone now user a reason t) f;
        hours = λ k. hours_restored k (with_undone now user a reason t) f;
      }

-- An assignment that the department head has created in a process whose tables are sound can be
-- undone, and then every slot has the row it had, the same slots are taken, and everybody has the
-- hours they had.
pub create_undo-Restores :
    (digest : FingerprintPayload → ℕ) (now user fresh i j : ℕ) (notes : Option ℕ)
    (s t : ProcessState) (now' user' reason : ℕ)
    → IsSound s
    → create_manual_assignment digest now user fresh i j notes s ≡ ok t
    → (u : ProcessState) × (undo_assignment now' user' fresh reason t ≡ ok u) × Restores s u
create_undo-Restores digest now user fresh i j notes s t now' user' reason x e =
    let made : Created fresh i j (by_head user notes) s t =
      Holds-ok (Created fresh i j (by_head user notes) s)
        (create_manual_assignment digest now user fresh i j notes s)
        (create_manual_assignment-Created digest now user fresh i j notes s) e in
    (
      with_undone now' user'
          (new_assignment fresh made.adds.requirement made.adds.participant (by_head user notes))
          reason t,
      undo_succeeds s t fresh i j (by_head user notes) x made now' user' reason,
      restored s t fresh i j (by_head user notes) x made now' user' reason,
    )
