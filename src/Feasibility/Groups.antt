-- ===== src/Feasibility/Groups.antt =====
-- What `_slots_by_activity` groups together.
use reparto_docente_m.Prelude.{
  ℕ, ◌||◌, ◌==◌, if◌then◌else◌, List, [], ◌∷◌, ◌++◌, ◌≡◌, refl, sym, ap, contains, keep, arith,
  Bool-cases, inl, inr,
}
use reparto_docente_m.Prelude.Dict.{find_or}
use reparto_docente_m.Feasibility.Types.{TextId, FeasibilitySlot}
use reparto_docente_m.Feasibility.Grouping.{Groups, append_to_group, group_slots, slots_by_activity}
use reparto_docente_m.Feasibility.Residual.{all_hours, hours_of}

contains-append : (xs ys : List ℕ) (a : ℕ) → contains (xs ++ ys) a ≡ contains xs a || contains ys a
contains-append [] ys a = refl
contains-append (x ∷ xs) ys a = ground (arith, contains-append xs ys a)

append_snoc :
    (xs : List FeasibilitySlot) (s : FeasibilitySlot) (zs : List FeasibilitySlot)
    → (xs ++ s ∷ []) ++ zs ≡ xs ++ s ∷ zs
append_snoc [] s zs = refl
append_snoc (x ∷ xs) s zs = ap (λ r. x ∷ r) (append_snoc xs s zs)

append_nil : (xs : List FeasibilitySlot) → xs ++ [] ≡ xs
append_nil [] = refl
append_nil (x ∷ xs) = ap (λ r. x ∷ r) (append_nil xs)

-- The slots of one activity, in their order.
abbrev pub slots_of : TextId → List FeasibilitySlot → List FeasibilitySlot
slots_of a = keep (λ (s : FeasibilitySlot). s.activity_id == a)

find_or-append_to_group :
    (s : FeasibilitySlot) (a : TextId) (gs : Groups)
    → find_or (append_to_group s gs) a []
      ≡ (if s.activity_id == a then find_or gs a [] ++ s ∷ [] else find_or gs a [])
unfolding append_to_group
find_or-append_to_group s a [] = ground arith
find_or-append_to_group s a ((b, items) ∷ gs) = ground (arith, find_or-append_to_group s a gs)

find_or-group_slots :
    (ss : List FeasibilitySlot) (a : TextId) (gs : Groups)
    → find_or (group_slots ss gs) a [] ≡ find_or gs a [] ++ slots_of a ss
unfolding group_slots
find_or-group_slots [] a gs = sym (append_nil (find_or gs a []))
find_or-group_slots (s ∷ ss) a gs =
    rw (find_or-group_slots ss a (append_to_group s gs), find_or-append_to_group s a gs)
      (elim (Bool-cases (s.activity_id == a)) [
        | inl e ↦ rw e (append_snoc (find_or gs a []) s (slots_of a ss))
        | inr e ↦ rw e
      ])

-- The group of an activity has its slots, in their order.
pub find_or-slots_by_activity :
    (ss : List FeasibilitySlot) (a : TextId) → find_or (slots_by_activity ss) a [] ≡ slots_of a ss
unfolding slots_by_activity
find_or-slots_by_activity ss a = find_or-group_slots ss a []

contains-hours_of_append :
    (items : List FeasibilitySlot) (s : FeasibilitySlot) (h : ℕ)
    → contains (hours_of (items ++ s ∷ [])) h
      ≡ (contains (hours_of items) h || (h == s.hours_units))
contains-hours_of_append [] s h = ground arith
contains-hours_of_append (x ∷ items) s h = ground (arith, contains-hours_of_append items s h)

contains-append_to_group :
    (s : FeasibilitySlot) (h : ℕ) (gs : Groups)
    → contains (all_hours (append_to_group s gs)) h
      ≡ (contains (all_hours gs) h || (h == s.hours_units))
unfolding append_to_group
contains-append_to_group s h [] = ground arith
contains-append_to_group s h ((b, items) ∷ gs) = elim (Bool-cases (s.activity_id == b)) [
  | inl e ↦
      rw
        (
          e,
          contains-append (hours_of (items ++ s ∷ [])) (all_hours gs) h,
          contains-append (hours_of items) (all_hours gs) h,
          contains-hours_of_append items s h,
        )
        (ground arith)
  | inr e ↦
      rw
        (
          e,
          contains-append (hours_of items) (all_hours (append_to_group s gs)) h,
          contains-append (hours_of items) (all_hours gs) h,
          contains-append_to_group s h gs,
        )
        (ground arith)
]

contains-group_slots :
    (ss : List FeasibilitySlot) (h : ℕ) (gs : Groups)
    → contains (all_hours (group_slots ss gs)) h
      ≡ (contains (all_hours gs) h || contains (hours_of ss) h)
unfolding group_slots
contains-group_slots [] h gs = ground arith
contains-group_slots (s ∷ ss) h gs =
    rw (contains-group_slots ss h (append_to_group s gs), contains-append_to_group s h gs)
      (ground arith)

-- The groups together have the hours of all slots.
pub contains-all_hours :
    (ss : List FeasibilitySlot) (h : ℕ)
    → contains (all_hours (slots_by_activity ss)) h ≡ contains (hours_of ss) h
unfolding slots_by_activity
contains-all_hours ss h = contains-group_slots ss h []
