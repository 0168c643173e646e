-- ===== src/Assignments/Sound.antt =====
-- The shared routine and the handlers keep the tables sound.
use reparto_docente_m.Prelude.{ℕ, Option, none, some, List, refl, arith}
use reparto_docente_m.Feasibility.Types.{FeasibilityWitnessEntry}
use reparto_docente_m.Assignments.Rows.{Assignment, ProcessState, Holds, Holds-map}
use reparto_docente_m.Assignments.Remaining.{FingerprintPayload}
use reparto_docente_m.Assignments.Witnesses.{invalidate}
use reparto_docente_m.Assignments.Occupy.{
  Choice, new_assignment, add_assignment, release_assignment, occupy_slot,
}
use reparto_docente_m.Assignments.Actions.{set_notes}
use reparto_docente_m.Assignments.Tables.{
  ids_of-set_notes, on_slot-set_notes, in_activity-set_notes, assigned_to-set_notes,
  is_occupied-set_notes,
}
use reparto_docente_m.Assignments.Effects.{Adds, occupy_slot-Adds}
use reparto_docente_m.Assignments.Kept.{IsKept}
use reparto_docente_m.Assignments.Invariant.{
  IsSound, IsSound-same, add_assignment-IsSound, release_assignment-IsSound,
}

-- The shared routine keeps the tables sound, with a fresh evaluation and with one made before.
pub occupy_slot-IsSound :
    (digest : FingerprintPayload → ℕ) (now fresh : ℕ) (c : Choice)
    (prevalidated : Option (Option (List FeasibilityWitnessEntry))) (i j : ℕ) (s : ProcessState)
    → IsSound s
    → Holds
        (λ (done : ProcessState × Assignment). IsSound done.0)
        (occupy_slot digest now fresh c prevalidated i j s)
occupy_slot-IsSound digest now fresh c prevalidated i j s x =
    Holds-map (λ (done : ProcessState × Assignment). Adds fresh i j c s done.0)
      (λ (done : ProcessState × Assignment). IsSound done.0)
      (occupy_slot digest now fresh c prevalidated i j s)
      (occupy_slot-Adds digest now fresh c prevalidated i j s)
      (λ done y.
        IsSound-same (add_assignment (new_assignment fresh y.requirement y.participant c) s) done.0
          y.tables.assignments y.tables.requirements y.tables.participants
          (add_assignment-IsSound s y.requirement y.participant fresh i j c x y.slot_found
            y.participant_found y.new y.can))

pub invalidate-IsSound : (s : ProcessState) → IsSound s → IsSound ((invalidate s).0)
unfolding invalidate
invalidate-IsSound s x =
    IsSound-same s ((invalidate s).0) (ground arith) (ground arith) (ground arith) x

set_notes-IsSound :
    (i : ℕ) (n : Option ℕ) (s : ProcessState)
    → IsSound s
    → IsSound (record s { assignments = set_notes i n s.assignments })
set_notes-IsSound i n s x = record {
  ids = rw (ids_of-set_notes i n s.assignments) x.ids;
  one_per_slot = λ k. rw (on_slot-set_notes k i n s.assignments) (x.one_per_slot k);
  one_per_activity =
      λ b t. rw (in_activity-set_notes b t i n s.assignments) (x.one_per_activity b t);
  within_target = λ k p e.
      rw (assigned_to-set_notes k i n s.requirements s.assignments) (x.within_target k p e);
  told = λ k r e. rw (is_occupied-set_notes k i n s.assignments) (x.told k r e);
}

-- Every operation keeps the tables sound.
pub IsSound-IsKept : (digest : FingerprintPayload → ℕ) → IsKept digest IsSound
IsSound-IsKept digest = record {
  logged = λ s ms log x. IsSound-same s _ refl refl refl x;
  noted = λ k n s x. set_notes-IsSound k n s x;
  chosen = λ now fresh c i j s x. occupy_slot-IsSound digest now fresh c none i j s x;
  undone = λ k a s x at live.
      invalidate-IsSound (release_assignment a s) (release_assignment-IsSound s a k x at live);
  moved = λ now fresh c k a r j w _ s x at live _ _.
      occupy_slot-IsSound digest now fresh c (some w) r.id j (release_assignment a s)
        (release_assignment-IsSound s a k x at live);
}
