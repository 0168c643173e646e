-- ===== src/Assignments/Summary.antt =====
-- The batched summary of reparto_service/services/calculations.py against the functions for one
-- participant.
use reparto_docente_m.Prelude.{
  ℕ, Bool, ◌+◌, ◌≤◌, ◌==◌, ◌&&◌, ltb, if◌then◌else◌, none, some, List, [], ◌∷◌, ◌≡◌, refl, ap, map,
  keep, length, sum_by, arith,
}
use reparto_docente_m.Prelude.Sort.{sort_by}
use reparto_docente_m.Prelude.Dict.{Dict, find_or, insert, values, find_or-insert}
use reparto_docente_m.Assignments.Rows.{
  HourRequirement, Participant, Assignment, ProcessState, is_live, is_current, find_requirement,
}
use reparto_docente_m.Assignments.Hours.{
  target_weekly_hours, hours_for, hours_by_id, compute_participant_assigned_hours,
  compute_participant_remaining_hours, compute_participant_state, is_occupied, ParticipantBalance,
  assignment_rows, group_rows, count_rows, participant_balance, balance_le, sum_ids,
  compute_assignment_summary,
}

-- the hours of the rows of one teacher, their number, and all hours
abbrev hours_of : ℕ → List (ℕ × ℕ) → ℕ
hours_of i = sum_by (λ (row : ℕ × ℕ). if row.0 == i then row.1 else 0)

abbrev number_of : ℕ → List (ℕ × ℕ) → ℕ
number_of i = sum_by (λ (row : ℕ × ℕ). if row.0 == i then 1 else 0)

group_rows-find_or :
    (i : ℕ) (rows : List (ℕ × ℕ)) (d : Dict ℕ)
    → find_or (group_rows rows d) i 0 ≡ find_or d i 0 + hours_of i rows
unfolding group_rows
group_rows-find_or i [] d = omega arith
group_rows-find_or i ((teacher, hours) ∷ rows) d = ground (
  arith,
  group_rows-find_or i rows (insert teacher (find_or d teacher 0 + hours) d),
  find_or-insert i teacher (find_or d teacher 0 + hours) 0 d,
)

count_rows-find_or :
    (i : ℕ) (rows : List (ℕ × ℕ)) (d : Dict ℕ)
    → find_or (count_rows rows d) i 0 ≡ find_or d i 0 + number_of i rows
unfolding count_rows
count_rows-find_or i [] d = omega arith
count_rows-find_or i ((teacher, hours) ∷ rows) d = ground (
  arith,
  count_rows-find_or i rows (insert teacher (find_or d teacher 0 + 1) d),
  find_or-insert i teacher (find_or d teacher 0 + 1) 0 d,
)

sum_values-insert :
    (k v : ℕ) (d : Dict ℕ)
    → sum_ids (values (insert k v d)) + find_or d k 0 ≡ sum_ids (values d) + v
sum_values-insert k v [] = omega arith
sum_values-insert k v ((j, w) ∷ d) = ground (arith, sum_values-insert k v d)

group_rows-sum_values :
    (rows : List (ℕ × ℕ)) (d : Dict ℕ)
    → sum_ids (values (group_rows rows d))
      ≡ sum_ids (values d) + sum_by (λ (row : ℕ × ℕ). row.1) rows
unfolding group_rows
group_rows-sum_values [] d = omega arith
group_rows-sum_values ((teacher, hours) ∷ rows) d = omega (
  arith,
  group_rows-sum_values rows (insert teacher (find_or d teacher 0 + hours) d),
  sum_values-insert teacher (find_or d teacher 0 + hours) d,
)

hours_of-assignment_rows :
    (i : ℕ) (rs : List HourRequirement) (xs : List Assignment)
    → hours_of i (assignment_rows rs xs) ≡ sum_by (hours_for i rs) xs
unfolding assignment_rows
hours_of-assignment_rows i rs [] = refl
hours_of-assignment_rows i rs (a ∷ xs) = ground (arith, hours_of-assignment_rows i rs xs)

sum_by-assignment_rows :
    (rs : List HourRequirement) (xs : List Assignment)
    → sum_by (λ (row : ℕ × ℕ). row.1) (assignment_rows rs xs)
      ≡ sum_by
          (λ (a : Assignment). if is_live a then hours_by_id a.hour_requirement_id rs else 0)
          xs
unfolding assignment_rows
sum_by-assignment_rows rs [] = refl
sum_by-assignment_rows rs (a ∷ xs) = ground (arith, sum_by-assignment_rows rs xs)

-- the active assignments of a participant whose slot is there
abbrev pub count_for : ℕ → List HourRequirement → Assignment → ℕ
count_for i requirements a = elim (find_requirement a.hour_requirement_id requirements) [
  | none ↦ 0
  | some r ↦ if is_live a && a.process_teacher_id == i then 1 else 0
]

number_of-assignment_rows :
    (i : ℕ) (rs : List HourRequirement) (xs : List Assignment)
    → number_of i (assignment_rows rs xs) ≡ sum_by (count_for i rs) xs
unfolding assignment_rows
number_of-assignment_rows i rs [] = refl
number_of-assignment_rows i rs (a ∷ xs) = ground (arith, number_of-assignment_rows i rs xs)

-- One participant's balance by the functions for one participant.
abbrev pub own_balance : ProcessState → Participant → ParticipantBalance
own_balance s p = record {
  process_teacher_id = p.id;
  display_name = p.display_name;
  base_weekly_hours = p.base_weekly_hours;
  extra_weekly_hours = p.extra_weekly_hours;
  target_weekly_hours = target_weekly_hours p;
  assigned_weekly_hours = compute_participant_assigned_hours s p;
  remaining_weekly_hours = compute_participant_remaining_hours s p;
  is_overloaded = ltb 0 p.extra_weekly_hours;
  assignment_count = sum_by (count_for p.id s.requirements) s.assignments;
  state = compute_participant_state p (compute_participant_remaining_hours s p);
}

length-keep : {A : Type 0} (p : A → Bool) (xs : List A) → length (keep p xs) ≤ length xs
length-keep p [] = omega arith
length-keep p (x ∷ xs) = ground (arith, length-keep p xs)

module _ (s : ProcessState) where
  rows : List (ℕ × ℕ)
  rows = assignment_rows s.requirements s.assignments

  assigned_hours_of :
      (i : ℕ) → find_or (group_rows rows []) i 0 ≡ sum_by (hours_for i s.requirements) s.assignments
  unfolding rows
  assigned_hours_of i =
      omega (
        arith,
        group_rows-find_or i rows [],
        hours_of-assignment_rows i s.requirements s.assignments,
      )

  assignments_of :
      (i : ℕ) → find_or (count_rows rows []) i 0 ≡ sum_by (count_for i s.requirements) s.assignments
  unfolding rows
  assignments_of i = omega (
    arith,
    count_rows-find_or i rows [],
    number_of-assignment_rows i s.requirements s.assignments,
  )

  balance_is_own :
      (p : Participant)
      → participant_balance (group_rows rows []) (count_rows rows []) p ≡ own_balance s p
  unfolding participant_balance compute_participant_remaining_hours
      compute_participant_assigned_hours
  balance_is_own p = rw (assigned_hours_of p.id, assignments_of p.id) refl

  balances_are_own :
      (ps : List Participant)
      → map (participant_balance (group_rows rows []) (count_rows rows [])) ps
        ≡ map (own_balance s) ps
  balances_are_own [] = refl
  balances_are_own (p ∷ ps) = ground (arith, balance_is_own p, balances_are_own ps)

  -- the hours of all active assignments
  abbrev pub all_hours : ℕ
  all_hours =
      sum_by
        (λ (a : Assignment).
          if is_live a then hours_by_id a.hour_requirement_id s.requirements else 0)
        s.assignments

  -- The batched summary lists, for every participant, what the functions for one participant compute,
  -- in the order of the names; its total of assigned hours is that of the hours of all active
  -- assignments, and its assigned and available slots make up all slots.
  pub summary_is_per_participant :
      ((compute_assignment_summary s).participants
        ≡ sort_by balance_le (map (own_balance s) s.participants))
      × ((compute_assignment_summary s).total_assigned_hours ≡ all_hours)
      × ((compute_assignment_summary s).assigned_slots
            + (compute_assignment_summary s).available_slots
          ≡ (compute_assignment_summary s).total_slots)
  unfolding compute_assignment_summary rows
  summary_is_per_participant = (
    ap (sort_by balance_le) (balances_are_own s.participants),
    omega (
      arith,
      group_rows-sum_values (assignment_rows s.requirements s.assignments) [],
      sum_by-assignment_rows s.requirements s.assignments,
    ),
    omega (
      arith,
      length-keep (λ (r : HourRequirement). is_occupied s.assignments r.id)
          (keep is_current s.requirements),
    ),
  )
