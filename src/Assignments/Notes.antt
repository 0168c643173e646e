-- ===== src/Assignments/Notes.antt =====
-- The notes of an assignment are not in the snapshot of services/feasibility_witnesses.py.
use reparto_docente_m.Prelude.{
  ℕ, ◌==◌, Option, List, [], ◌∷◌, ◌≡◌, refl, ap, ◌∙◌, arith, keep, if◌then◌else◌, Bool-cases, inl,
  inr,
}
use reparto_docente_m.Prelude.Sort.{sort_by, insert_by}
use reparto_docente_m.Prelude.Dict.{Dict, insert}
use reparto_docente_m.Assignments.Rows.{Assignment, ProcessState, is_live}
use reparto_docente_m.Assignments.Remaining.{
  assignment_le, fixed_pairs, snapshot_from_slots, build_feasibility_snapshot,
}
use reparto_docente_m.Assignments.Actions.{set_notes}

note : ℕ → Option ℕ → Assignment → Assignment
note j n a = if j == a.id then record a { notes = n } else a

keep_live-set_notes :
    (j : ℕ) (n : Option ℕ) (xs : List Assignment)
    → keep is_live (set_notes j n xs) ≡ set_notes j n (keep is_live xs)
keep_live-set_notes j n [] = refl
keep_live-set_notes j n (a ∷ xs) = ground (arith, keep_live-set_notes j n xs)

note-assignment_le :
    (j : ℕ) (n : Option ℕ) (a b : Assignment)
    → assignment_le (note j n a) (note j n b) ≡ assignment_le a b
unfolding note
note-assignment_le j n a b = ground arith

insert_by-set_notes :
    (j : ℕ) (n : Option ℕ) (a : Assignment) (xs : List Assignment)
    → insert_by assignment_le (note j n a) (set_notes j n xs)
      ≡ set_notes j n (insert_by assignment_le a xs)
unfolding note
insert_by-set_notes j n a [] = refl
insert_by-set_notes j n a (b ∷ xs) = elim (Bool-cases (assignment_le a b)) [
  | inl e ↦ rw (e, note-assignment_le j n a b ∙ e) refl
  | inr e ↦
      rw (e, note-assignment_le j n a b ∙ e)
        (ap (λ ys. note j n b ∷ ys) (insert_by-set_notes j n a xs))
]

sort_by-set_notes :
    (j : ℕ) (n : Option ℕ) (xs : List Assignment)
    → sort_by assignment_le (set_notes j n xs) ≡ set_notes j n (sort_by assignment_le xs)
unfolding note
sort_by-set_notes j n [] = refl
sort_by-set_notes j n (a ∷ xs) =
    ap (insert_by assignment_le (note j n a)) (sort_by-set_notes j n xs)
    ∙ insert_by-set_notes j n a (sort_by assignment_le xs)

fixed_pairs-set_notes :
    (j : ℕ) (n : Option ℕ) (xs : List Assignment) (d : Dict ℕ)
    → fixed_pairs (set_notes j n xs) d ≡ fixed_pairs xs d
unfolding fixed_pairs
fixed_pairs-set_notes j n [] d = refl
fixed_pairs-set_notes j n (a ∷ xs) d = elim (Bool-cases (j == a.id)) [
  | inl e ↦
      rw e (fixed_pairs-set_notes j n xs (insert a.hour_requirement_id a.process_teacher_id d))
  | inr e ↦
      rw e (fixed_pairs-set_notes j n xs (insert a.hour_requirement_id a.process_teacher_id d))
]

-- The fixed pairs of a snapshot are the same.
pub taken-set_notes :
    (j : ℕ) (n : Option ℕ) (xs : List Assignment)
    → fixed_pairs (sort_by assignment_le (keep is_live (set_notes j n xs))) []
      ≡ fixed_pairs (sort_by assignment_le (keep is_live xs)) []
taken-set_notes j n xs =
    rw (keep_live-set_notes j n xs, sort_by-set_notes j n (keep is_live xs))
      (fixed_pairs-set_notes j n (sort_by assignment_le (keep is_live xs)) [])

pub build_feasibility_snapshot-set_notes :
    (j : ℕ) (n : Option ℕ) (s : ProcessState)
    → build_feasibility_snapshot (record s { assignments = set_notes j n s.assignments })
      ≡ build_feasibility_snapshot s
unfolding build_feasibility_snapshot snapshot_from_slots
build_feasibility_snapshot-set_notes j n s = rw (taken-set_notes j n s.assignments) refl
