-- ===== src/Assignments/Kept.antt =====
-- What a property of the state needs, to be kept by every handler of
-- reparto_service/controllers/assignments.py.
use reparto_docente_m.Prelude.{ℕ, true, not, ◌==◌, Option, none, some, List, [], ◌∷◌, ◌≡◌}
use reparto_docente_m.Feasibility.Types.{FeasibilityWitnessEntry}
use reparto_docente_m.Guards.Types.{WitnessRepairResult}
use reparto_docente_m.Assignments.Rows.{
  HourRequirement, Assignment, AssignmentAudit, MeetingSession, ProcessState, Result, ok, err,
  raise_unless, or_raise, requirement_not_found, only_active_can_be_undone,
  requires_different_process_teacher, no_teacher_profile_linked, process_teacher_not_found,
  assignment_not_found, Holds, >>=-Holds, Holds->>=, or_raise-eq-ok, raise_unless-eq-ok, is_live,
  find_requirement, find_participant, find_assignment,
}
use reparto_docente_m.Assignments.Remaining.{FingerprintPayload}
use reparto_docente_m.Assignments.Witnesses.{invalidate, repair_for_reassignment}
use reparto_docente_m.Assignments.Occupy.{
  Choice, ensure_open, ensure_assignments_unblocked, release_assignment, occupy_slot,
}
use reparto_docente_m.Assignments.Actions.{
  create_manual_assignment, create_direct_choice, undo_assignment, with_undone, reassign_assignment,
  update_assignment, set_notes, audited, get_direct_selection_session, linked_process_teacher,
  enforce_direct_turn, complete_active_turn_if_needed, requeue_completed_turns, ensure_can_reassign,
  reassignment_witness, ensure_active_for_action,
}
use reparto_docente_m.Assignments.Run.{
  Action, create_manual, create_direct, undo, reassign, update, Request, perform, commit,
  perform_all,
}

-- A property that looks at neither the meetings nor the audit, and that the writes keep.
pub record IsKept (digest : FingerprintPayload → ℕ) (P : ProcessState → Type 0) : Type 0 where
  pub logged :
      (s : ProcessState) (ms : List MeetingSession) (log : List AssignmentAudit)
      → P s
      → P (record s { meetings = ms; audit = log })
  pub noted :
      (k : ℕ) (n : Option ℕ) (s : ProcessState)
      → P s
      → P (record s { assignments = set_notes k n s.assignments })
  pub chosen :
      (now fresh : ℕ) (c : Choice) (i j : ℕ) (s : ProcessState)
      → P s
      → Holds
          (λ (done : ProcessState × Assignment). P done.0)
          (occupy_slot digest now fresh c none i j s)
  pub undone :
      (k : ℕ) (a : Assignment) (s : ProcessState)
      → P s
      → find_assignment k s.assignments ≡ some a
      → is_live a ≡ true
      → P ((invalidate (release_assignment a s)).0)
  pub moved :
      (now fresh : ℕ) (c : Choice) (k : ℕ) (a : Assignment) (r : HourRequirement) (j : ℕ)
      (w : Option (List FeasibilityWitnessEntry)) (repair : Option WitnessRepairResult)
      (s : ProcessState)
      → P s
      → find_assignment k s.assignments ≡ some a
      → is_live a ≡ true
      → repair_for_reassignment digest a r j s ≡ ok repair
      → reassignment_witness repair ≡ ok w
      → Holds
          (λ (done : ProcessState × Assignment). P done.0)
          (occupy_slot digest now fresh c (some w) r.id j (release_assignment a s))

pub ensure_active_for_action-is_live :
    (a : Assignment) {u : Unit {0}} → ensure_active_for_action a ≡ ok u → is_live a ≡ true
unfolding ensure_active_for_action
ensure_active_for_action-is_live a h = raise_unless-eq-ok (is_live a) only_active_can_be_undone h

module _ (digest : FingerprintPayload → ℕ) (P : ProcessState → Type 0)
    (keep : IsKept digest P) where
  abbrev After : ProcessState × Assignment → Type 0
  After done = P done.0

  create_manual_assignment-kept :
      (now user fresh i j : ℕ) (notes : Option ℕ) (s : ProcessState)
      → P s
      → Holds P (create_manual_assignment digest now user fresh i j notes s)
  unfolding create_manual_assignment audited
  create_manual_assignment-kept now user fresh i j notes s x = >>=-Holds P (ensure_open s) _ λ _ _.
      >>=-Holds P (ensure_assignments_unblocked s) _ λ _ _.
        >>=-Holds P (or_raise (find_requirement i s.requirements) requirement_not_found) _ λ r _.
          >>=-Holds P (or_raise (find_participant j s.participants) process_teacher_not_found) _
            λ p _.
              Holds->>= After P (occupy_slot digest now fresh _ none r.id p.id s) _
                (keep.chosen now fresh _ r.id p.id s x) (λ done y. keep.logged done.0 _ _ y)

  create_direct_choice-kept :
      (now user fresh m i : ℕ) (notes : Option ℕ) (s : ProcessState)
      → P s
      → Holds P (create_direct_choice digest now user fresh m i notes s)
  unfolding create_direct_choice audited complete_active_turn_if_needed
  create_direct_choice-kept now user fresh m i notes s x = >>=-Holds P (ensure_open s) _ λ _ _.
      >>=-Holds P (ensure_assignments_unblocked s) _ λ _ _.
        >>=-Holds P (get_direct_selection_session m s) _ λ session _.
          >>=-Holds P
            (or_raise (linked_process_teacher user s.participants) no_teacher_profile_linked) _
            λ p _. >>=-Holds P (enforce_direct_turn session p.id) _ λ _ _.
              >>=-Holds P (or_raise (find_requirement i s.requirements) requirement_not_found) _
                λ r _.
                  Holds->>= After P (occupy_slot digest now fresh _ none r.id p.id s) _
                    (keep.chosen now fresh _ r.id p.id s x) (λ done y. keep.logged done.0 _ _ y)

  reassign_assignment-kept :
      (now user fresh k j reason : ℕ) (notes : Option ℕ) (s : ProcessState)
      → P s
      → Holds P (reassign_assignment digest now user fresh k j reason notes s)
  unfolding reassign_assignment audited requeue_completed_turns
  reassign_assignment-kept now user fresh k j reason notes s x =
      >>=-Holds P (ensure_open s) _ λ _ _. >>=-Holds P (ensure_assignments_unblocked s) _ λ _ _.
        >>=-Holds P (or_raise (find_assignment k s.assignments) assignment_not_found) _ λ a ea.
          >>=-Holds P (ensure_active_for_action a) _ λ _ live.
            >>=-Holds P
              (or_raise (find_requirement a.hour_requirement_id s.requirements)
                requirement_not_found)
              _
              λ r _.
                >>=-Holds P (or_raise (find_participant j s.participants) process_teacher_not_found)
                  _
                  λ p _.
                    >>=-Holds P
                      (raise_unless (not (p.id == a.process_teacher_id))
                        requires_different_process_teacher)
                      _
                      λ _ _. >>=-Holds P (ensure_can_reassign s r p) _ λ _ _.
                        >>=-Holds P (repair_for_reassignment digest a r p.id s) _ λ repair er.
                          >>=-Holds P (reassignment_witness repair) _ λ witness ew.
                            Holds->>= After P
                              (occupy_slot digest now fresh _ (some witness) r.id p.id
                                (release_assignment a s))
                              _
                              (keep.moved now fresh _ k a r p.id witness repair s x
                                (or_raise-eq-ok (find_assignment k s.assignments)
                                  assignment_not_found ea)
                                (ensure_active_for_action-is_live a live) er ew)
                              (λ done y. keep.logged done.0 _ _ y)

  undo_assignment-kept :
      (now user k reason : ℕ) (s : ProcessState)
      → P s
      → Holds P (undo_assignment now user k reason s)
  unfolding undo_assignment with_undone audited requeue_completed_turns
  undo_assignment-kept now user k reason s x = >>=-Holds P (ensure_open s) _ λ _ _.
      >>=-Holds P (or_raise (find_assignment k s.assignments) assignment_not_found) _ λ a ea.
        >>=-Holds P (ensure_active_for_action a) _ λ _ live.
          keep.logged ((invalidate (release_assignment a s)).0) _ _ (
            keep.undone k a s x
              (or_raise-eq-ok (find_assignment k s.assignments) assignment_not_found ea)
              (ensure_active_for_action-is_live a live))

  update_assignment-kept :
      (user k : ℕ) (notes : Option (Option ℕ)) (s : ProcessState)
      → P s
      → Holds P (update_assignment user k notes s)
  unfolding update_assignment audited
  update_assignment-kept user k none s x = >>=-Holds P (ensure_open s) _ λ _ _.
      >>=-Holds P (or_raise (find_assignment k s.assignments) assignment_not_found) _
        λ a _. keep.logged s _ _ x
  update_assignment-kept user k (some n) s x = >>=-Holds P (ensure_open s) _ λ _ _.
      >>=-Holds P (or_raise (find_assignment k s.assignments) assignment_not_found) _ λ a _.
        keep.logged (record s { assignments = set_notes a.id n s.assignments }) _ _
          (keep.noted a.id n s x)

  commit-kept :
      (s : ProcessState) (m : Result ProcessState) → P s → Holds P m → P (commit digest s m)
  unfolding commit
  commit-kept s (ok s') x y = y
  commit-kept s (err e) x y = x

  perform-kept : (q : Request) (s : ProcessState) → P s → Holds P (perform digest q s)
  unfolding perform
  perform-kept q s x = go q.action
    where
      go : (a : Action) → Holds P (perform digest (record q { action = a }) s)
      go (create_manual i j notes) =
          create_manual_assignment-kept q.now q.user q.fresh i j notes s x
      go (create_direct m i notes) = create_direct_choice-kept q.now q.user q.fresh m i notes s x
      go (undo k reason) = undo_assignment-kept q.now q.user k reason s x
      go (reassign k j reason notes) =
          reassign_assignment-kept q.now q.user q.fresh k j reason notes s x
      go (update k notes) = update_assignment-kept q.user k notes s x

  -- What every write keeps, every run of requests keeps.
  pub perform_all-kept : (qs : List Request) (s : ProcessState) → P s → P (perform_all digest qs s)
  unfolding perform_all
  perform_all-kept [] s x = x
  perform_all-kept (q ∷ qs) s x =
      perform_all-kept qs (commit digest s (perform digest q s))
        (commit-kept s (perform digest q s) x (perform-kept q s x))
