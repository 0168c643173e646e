-- ===== src/Assignments/Tables.antt =====
-- What the writes of an assignment and of a release do to what the guards read.
use reparto_docente_m.Prelude.{
  ℕ, true, false, ◌&&◌, ◌+◌, ◌≤◌, ltb, ◌==◌, if◌then◌else◌, Option, none, some, List, [], ◌∷◌, ◌≡◌,
  refl, ap, map, contains, sum_by, arith, Bool-cases, inl, inr, IsDistinct, ◌∙◌, sym, subst,
}
use reparto_docente_m.Lifecycle.Status.{HourRequirementStatus}
use reparto_docente_m.Assignments.Rows.{
  HourRequirement, Participant, Assignment, AssignmentStatus, is_live, find_requirement,
  find_participant, find_assignment, set_requirement_status, set_assignment_status,
}
use reparto_docente_m.Assignments.Hours.{hours_by_id, hours_for, is_occupied}
use reparto_docente_m.Assignments.Occupy.{holds_position, is_used}
use reparto_docente_m.Assignments.Actions.{set_notes}

pub find_requirement-id :
    (i : ℕ) (rs : List HourRequirement) {r : HourRequirement}
    → find_requirement i rs ≡ some r
    → r.id ≡ i
find_requirement-id i [] h = absurd (ground (arith, h))
find_requirement-id i (q ∷ rs) {r} h = ground (arith, h, find_requirement-id i rs {r = r})

pub find_participant-id :
    (i : ℕ) (ps : List Participant) {p : Participant} → find_participant i ps ≡ some p → p.id ≡ i
find_participant-id i [] h = absurd (ground (arith, h))
find_participant-id i (q ∷ ps) {p} h = ground (arith, h, find_participant-id i ps {p = p})

pub find_assignment-id :
    (i : ℕ) (xs : List Assignment) {a : Assignment} → find_assignment i xs ≡ some a → a.id ≡ i
find_assignment-id i [] h = absurd (ground (arith, h))
find_assignment-id i (q ∷ xs) {a} h = ground (arith, h, find_assignment-id i xs {a = a})

-- What is found under some id is found under its own.
pub find_requirement_own_id :
    (i : ℕ) (rs : List HourRequirement) {r : HourRequirement}
    → find_requirement i rs ≡ some r
    → find_requirement r.id rs ≡ some r
find_requirement_own_id i rs {r} h =
    subst (λ (n : ℕ). find_requirement n rs ≡ some r) (sym (find_requirement-id i rs h)) h

pub find_assignment_own_id :
    (i : ℕ) (xs : List Assignment) {a : Assignment}
    → find_assignment i xs ≡ some a
    → find_assignment a.id xs ≡ some a
find_assignment_own_id i xs {a} h =
    subst (λ (n : ℕ). find_assignment n xs ≡ some a) (sym (find_assignment-id i xs h)) h

pub hours_by_id-found :
    (i : ℕ) (rs : List HourRequirement) {r : HourRequirement}
    → find_requirement i rs ≡ some r
    → hours_by_id i rs ≡ r.required_teacher_hours
hours_by_id-found i rs h = ground (arith, h)

-- A status written is read at its id, and nowhere else.
pub find_requirement-set_status :
    (i j : ℕ) (st : HourRequirementStatus) (rs : List HourRequirement)
    → find_requirement i (set_requirement_status j st rs) ≡ (elim (find_requirement i rs) [
      | none ↦ none
      | some r ↦ some (if j == i then record r { status = st } else r)
    ])
find_requirement-set_status i j st [] = refl
find_requirement-set_status i j st (r ∷ rs) = ground (arith, find_requirement-set_status i j st rs)

pub find_assignment-set_status :
    (i j : ℕ) (st : AssignmentStatus) (xs : List Assignment)
    → find_assignment i (set_assignment_status j st xs) ≡ (elim (find_assignment i xs) [
      | none ↦ none
      | some a ↦ some (if j == i then record a { status = st } else a)
    ])
find_assignment-set_status i j st [] = refl
find_assignment-set_status i j st (a ∷ xs) = ground (arith, find_assignment-set_status i j st xs)

pub find_assignment-set_other :
    (i j : ℕ) (st : AssignmentStatus) (xs : List Assignment)
    → (j == i) ≡ false
    → find_assignment i (set_assignment_status j st xs) ≡ find_assignment i xs
find_assignment-set_other i j st [] e = refl
find_assignment-set_other i j st (a ∷ xs) e = ground (arith, find_assignment-set_other i j st xs e)

pub hours_by_id-set_status :
    (i j : ℕ) (st : HourRequirementStatus) (rs : List HourRequirement)
    → hours_by_id i (set_requirement_status j st rs) ≡ hours_by_id i rs
hours_by_id-set_status i j st [] = refl
hours_by_id-set_status i j st (r ∷ rs) = ground (arith, hours_by_id-set_status i j st rs)

-- the hours of a participant over the assignments
abbrev pub assigned_to : ℕ → List HourRequirement → List Assignment → ℕ
assigned_to i rs = sum_by (hours_for i rs)

pub assigned_to-set_status :
    (i j : ℕ) (st : HourRequirementStatus) (rs : List HourRequirement) (xs : List Assignment)
    → assigned_to i (set_requirement_status j st rs) xs ≡ assigned_to i rs xs
assigned_to-set_status i j st rs [] = refl
assigned_to-set_status i j st rs (a ∷ xs) = ground (
  arith,
  hours_by_id-set_status a.hour_requirement_id j st rs,
  assigned_to-set_status i j st rs xs,
)

-- A release takes hours away from nobody but its participant, and adds none.
pub assigned_to-cancel :
    (i j : ℕ) (rs : List HourRequirement) (xs : List Assignment)
    → assigned_to i rs (set_assignment_status j AssignmentStatus.cancelled xs) ≤ assigned_to i rs xs
assigned_to-cancel i j rs [] = omega arith
assigned_to-cancel i j rs (a ∷ xs) = ground (arith, assigned_to-cancel i j rs xs)

-- how many active assignments a slot has, and how many positions of an activity a teacher holds
abbrev pub on_slot : ℕ → List Assignment → ℕ
on_slot i = sum_by (λ (a : Assignment). if a.hour_requirement_id == i && is_live a then 1 else 0)

abbrev pub in_activity : ℕ → ℕ → List Assignment → ℕ
in_activity b t = sum_by (λ (a : Assignment).
    if a.teaching_activity_id == b && (a.process_teacher_id == t && is_live a) then 1 else 0)

pub is_occupied-on_slot : (i : ℕ) (xs : List Assignment) → is_occupied xs i ≡ ltb 0 (on_slot i xs)
is_occupied-on_slot i [] = refl
is_occupied-on_slot i (a ∷ xs) = ground (arith, is_occupied-on_slot i xs)

pub holds_position-in_activity :
    (b t : ℕ) (xs : List Assignment) → holds_position xs b t ≡ ltb 0 (in_activity b t xs)
holds_position-in_activity b t [] = refl
holds_position-in_activity b t (a ∷ xs) = ground (arith, holds_position-in_activity b t xs)

pub on_slot-cancel :
    (i j : ℕ) (xs : List Assignment)
    → on_slot i (set_assignment_status j AssignmentStatus.cancelled xs) ≤ on_slot i xs
on_slot-cancel i j [] = omega arith
on_slot-cancel i j (a ∷ xs) = ground (arith, on_slot-cancel i j xs)

pub in_activity-cancel :
    (b t j : ℕ) (xs : List Assignment)
    → in_activity b t (set_assignment_status j AssignmentStatus.cancelled xs) ≤ in_activity b t xs
in_activity-cancel b t j [] = omega arith
in_activity-cancel b t j (a ∷ xs) = ground (arith, in_activity-cancel b t j xs)

abbrev pub ids_of : List Assignment → List ℕ
ids_of = map (λ (a : Assignment). a.id)

pub ids_of-cancel :
    (j : ℕ) (st : AssignmentStatus) (xs : List Assignment)
    → ids_of (set_assignment_status j st xs) ≡ ids_of xs
ids_of-cancel j st [] = refl
ids_of-cancel j st (a ∷ xs) = ground (arith, ids_of-cancel j st xs)

pub is_used-contains : (i : ℕ) (xs : List Assignment) → is_used i xs ≡ contains (ids_of xs) i
is_used-contains i [] = refl
is_used-contains i (a ∷ xs) = ground (arith, is_used-contains i xs)

pub cancel_absent :
    (j : ℕ) (st : AssignmentStatus) (xs : List Assignment)
    → contains (ids_of xs) j ≡ false
    → set_assignment_status j st xs ≡ xs
cancel_absent j st [] h = refl
cancel_absent j st (a ∷ xs) h = ground (arith, h, cancel_absent j st xs)

-- The slot of the released assignment has one active assignment less, and no other has.
pub on_slot-release :
    (i : ℕ) (xs : List Assignment) (a : Assignment)
    → IsDistinct (ids_of xs)
    → find_assignment a.id xs ≡ some a
    → is_live a ≡ true
    → on_slot i (set_assignment_status a.id AssignmentStatus.cancelled xs)
        + (if a.hour_requirement_id == i then 1 else 0)
      ≡ on_slot i xs
on_slot-release i [] a d h l = absurd (ground (arith, h))
on_slot-release i (b ∷ xs) a d h l = elim (Bool-cases (a.id == b.id)) [
  | inl e ↦ ground (
    arith,
    e,
    h,
    l,
    d.0,
    ap (λ ys. on_slot i ys)
        (cancel_absent a.id AssignmentStatus.cancelled xs (ground (arith, e, d.0))),
  )
  | inr e ↦ ground (arith, e, on_slot-release i xs a d.1 (ground (arith, h, e)) l)
]

-- No guard reads the notes.
pub ids_of-set_notes :
    (j : ℕ) (n : Option ℕ) (xs : List Assignment) → ids_of (set_notes j n xs) ≡ ids_of xs
ids_of-set_notes j n [] = refl
ids_of-set_notes j n (a ∷ xs) = ground (arith, ids_of-set_notes j n xs)

pub on_slot-set_notes :
    (i j : ℕ) (n : Option ℕ) (xs : List Assignment) → on_slot i (set_notes j n xs) ≡ on_slot i xs
on_slot-set_notes i j n [] = refl
on_slot-set_notes i j n (a ∷ xs) = ground (arith, on_slot-set_notes i j n xs)

pub in_activity-set_notes :
    (b t j : ℕ) (n : Option ℕ) (xs : List Assignment)
    → in_activity b t (set_notes j n xs) ≡ in_activity b t xs
in_activity-set_notes b t j n [] = refl
in_activity-set_notes b t j n (a ∷ xs) = ground (arith, in_activity-set_notes b t j n xs)

pub assigned_to-set_notes :
    (i j : ℕ) (n : Option ℕ) (rs : List HourRequirement) (xs : List Assignment)
    → assigned_to i rs (set_notes j n xs) ≡ assigned_to i rs xs
assigned_to-set_notes i j n rs [] = refl
assigned_to-set_notes i j n rs (a ∷ xs) = ground (arith, assigned_to-set_notes i j n rs xs)

pub is_occupied-set_notes :
    (i j : ℕ) (n : Option ℕ) (xs : List Assignment)
    → is_occupied (set_notes j n xs) i ≡ is_occupied xs i
is_occupied-set_notes i j n xs =
    is_occupied-on_slot i (set_notes j n xs)
    ∙ (ap (ltb 0) (on_slot-set_notes i j n xs) ∙ sym (is_occupied-on_slot i xs))
