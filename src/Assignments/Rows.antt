-- ===== src/Assignments/Rows.antt =====
-- The rows of one assignment process that reparto_service/controllers/assignments.py reads and
-- writes. A table holds the rows of this process alone, so a lookup that the code refuses because a
-- row belongs to another process finds nothing here. Hours are hundredths, identifiers numbers.
use reparto_docente_m.Prelude.{
  ℕ, Bool, true, false, ◌==◌, if◌then◌else◌, Option, none, some, List, [], ◌∷◌, map, ◌≡◌, refl,
  arith,
}
use reparto_docente_m.Lifecycle.Process.{AssignmentProcessStatus}
use reparto_docente_m.Lifecycle.Status.{
  TeachingPlanStatus, HourRequirementStatus, FeasibilityStatus,
}
use reparto_docente_m.Feasibility.Types.{FeasibilityWitnessEntry, FeasibilityDiagnostic}
use reparto_docente_m.Meeting.Turns.{Meeting}

pub data AssignmentStatus : Type 0 where
  active cancelled : AssignmentStatus

pub data AssignmentSource : Type 0 where
  department_head teacher_direct imported_from_previous_year system_copy : AssignmentSource

pub data SelectionOrderMode : Type 0 where
  unordered informative strict : SelectionOrderMode

pub record HourRequirement : Type 0 where
  pub id : ℕ
  pub teaching_activity_id : ℕ
  pub position_index : ℕ
  pub required_teacher_hours : ℕ
  pub status : HourRequirementStatus
  pub created_generation : ℕ
  pub last_validated_generation : ℕ
  pub retired_generation : Option ℕ
  pub superseded_by_requirement_id : Option ℕ

-- `ProcessTeacher`, with the `user_id` of its profile and, as a number, the place of its casefolded
-- name in the alphabetical order
pub record Participant : Type 0 where
  pub id : ℕ
  pub is_active : Bool
  pub participates_in_selection : Bool
  pub base_weekly_hours : ℕ
  pub extra_weekly_hours : ℕ
  pub user_id : Option ℕ
  pub display_name : ℕ

pub record Assignment : Type 0 where
  pub id : ℕ
  pub hour_requirement_id : ℕ
  pub teaching_activity_id : ℕ
  pub process_teacher_id : ℕ
  pub source : AssignmentSource
  pub status : AssignmentStatus
  pub chosen_by_user_id : ℕ
  pub confirmed_by_user_id : Option ℕ
  pub notes : Option ℕ

pub record TeachingPlan : Type 0 where
  pub id : ℕ
  pub status : TeachingPlanStatus
  pub current_generation_number : ℕ
  pub feasibility_status : FeasibilityStatus
  pub feasibility_generation : Option ℕ
  pub feasibility_checked_at : Option ℕ
  pub feasibility_input_fingerprint : Option ℕ
  pub feasibility_solver_version : Option ℕ
  pub feasibility_diagnostics_ref : Option ℕ

-- the row of a plan in the table of witnesses
pub record FeasibilityWitness : Type 0 where
  pub input_fingerprint : ℕ
  pub solver_version : ℕ
  pub witness_json : List FeasibilityWitnessEntry
  pub diagnostics_json : List FeasibilityDiagnostic

-- a meeting session with the columns that a direct choice reads
pub record MeetingSession : Type 0 where
  pub id : ℕ
  pub lan_access_enabled : Bool
  pub direct_teacher_selection_enabled : Bool
  pub selection_mode : SelectionOrderMode
  pub meeting : Meeting

pub data AssignmentEvent : Type 0 where
  created direct_choice updated undone reassigned : AssignmentEvent

pub record AssignmentAudit : Type 0 where
  pub event_type : AssignmentEvent
  pub actor_user_id : ℕ
  pub entity_id : ℕ
  pub before : Option Assignment
  pub after : Assignment
  pub reason : Option ℕ

-- what a transaction sees and leaves
pub record ProcessState : Type 0 where
  pub process_status : AssignmentProcessStatus
  pub plan : Option TeachingPlan
  pub witness : Option FeasibilityWitness
  pub requirements : List HourRequirement
  pub participants : List Participant
  pub assignments : List Assignment
  pub meetings : List MeetingSession
  pub audit : List AssignmentAudit

-- `DomainHTTPException` by its code; `internal_error` is an exception that no handler expects
-- (`ValueError`, `KeyError`, a failed assertion).
pub data AssignmentError : Type 0 where
  cannot_mutate_process assignment_not_found requirement_not_found : AssignmentError
  process_teacher_not_found meeting_session_not_found no_teacher_profile_linked : AssignmentError
  plan_readiness_conflict no_teaching_plan only_active_can_be_undone : AssignmentError
  requires_different_process_teacher requirement_is_not_available : AssignmentError
  requirement_is_already_assigned only_active_process_teacher_is_eligible : AssignmentError
  teacher_already_occupies_position requirement_needs_more_hours : AssignmentError
  selection_would_strand witness_could_not_be_repaired witness_is_missing : AssignmentError
  witness_is_inconsistent reassignment_would_strand meeting_must_be_open : AssignmentError
  direct_selection_is_disabled outside_active_strict_turn internal_error : AssignmentError

pub data Result (A : Type 0) : Type 0 where
  ok : A → Result A
  err : AssignmentError → Result A

-- an exception ends the handler
infixl 5 ◌>>=◌
abbrev pub ◌>>=◌ : {A B : Type 0} → Result A → (A → Result B) → Result B
err raised >>= continue = err raised
ok found >>= continue = continue found

infixl 5 ◌>>◌
abbrev pub ◌>>◌ : {B : Type 0} → Result (Unit {0}) → Result B → Result B
check >> continue = check >>= λ _. continue

abbrev pub raise_unless : Bool → AssignmentError → Result (Unit {0})
raise_unless b e = if b then ok tt else err e

abbrev pub or_raise : {A : Type 0} → Option A → AssignmentError → Result A
or_raise none e = err e
or_raise (some a) e = ok a

-- `P` of the value, where there is one
abbrev pub Holds : {A : Type 0} → (A → Type 0) → Result A → Type 0
Holds P (ok a) = P a
Holds P (err e) = Unit

pub >>=-Holds :
    {A B : Type 0} (P : B → Type 0) (m : Result A) (f : A → Result B)
    → ((a : A) → m ≡ ok a → Holds P (f a))
    → Holds P (m >>= f)
>>=-Holds P (ok a) f k = k a refl
>>=-Holds P (err e) f k = tt

-- The same from what holds of the first value.
pub Holds->>= :
    {A B : Type 0} (Q : A → Type 0) (P : B → Type 0) (m : Result A) (f : A → Result B)
    → Holds Q m
    → ((a : A) → Q a → Holds P (f a))
    → Holds P (m >>= f)
Holds->>= Q P (ok a) f q k = k a q
Holds->>= Q P (err e) f q k = tt

pub Holds-map :
    {A : Type 0} (Q P : A → Type 0) (m : Result A) → Holds Q m → ((a : A) → Q a → P a) → Holds P m
Holds-map Q P (ok a) q k = k a q
Holds-map Q P (err e) q k = tt

pub or_raise-eq-ok :
    {A : Type 0} (o : Option A) (e : AssignmentError) {a : A} → or_raise o e ≡ ok a → o ≡ some a
or_raise-eq-ok none e h = absurd (ground (arith, h))
or_raise-eq-ok (some b) e h = ground (arith, h)

pub raise_unless-eq-ok :
    (b : Bool) (e : AssignmentError) {u : Unit {0}} → raise_unless b e ≡ ok u → b ≡ true
raise_unless-eq-ok true e h = refl
raise_unless-eq-ok false e h = absurd (ground (arith, h))

abbrev pub is_live : Assignment → Bool
is_live a = elim (a.status) [ AssignmentStatus.active ↦ true | AssignmentStatus.cancelled ↦ false ]

-- `retired_generation IS NULL`
abbrev pub is_current : HourRequirement → Bool
is_current r = elim (r.retired_generation) [ none ↦ true | some g ↦ false ]

abbrev pub is_available : HourRequirement → Bool
is_available r = elim (r.status) [ HourRequirementStatus.available ↦ true | _ ↦ false ]

-- `session.get(…)`
abbrev pub find_requirement : ℕ → List HourRequirement → Option HourRequirement
find_requirement i [] = none
find_requirement i (r ∷ rs) = if i == r.id then some r else find_requirement i rs

abbrev pub find_participant : ℕ → List Participant → Option Participant
find_participant i [] = none
find_participant i (p ∷ ps) = if i == p.id then some p else find_participant i ps

abbrev pub find_assignment : ℕ → List Assignment → Option Assignment
find_assignment i [] = none
find_assignment i (a ∷ rest) = if i == a.id then some a else find_assignment i rest

abbrev pub find_meeting : ℕ → List MeetingSession → Option MeetingSession
find_meeting i [] = none
find_meeting i (m ∷ ms) = if i == m.id then some m else find_meeting i ms

-- the column `status` of the row with this id written
abbrev pub set_requirement_status :
    ℕ → HourRequirementStatus → List HourRequirement → List HourRequirement
set_requirement_status i s =
    map (λ (r : HourRequirement). if i == r.id then record r { status = s } else r)

abbrev pub set_assignment_status : ℕ → AssignmentStatus → List Assignment → List Assignment
set_assignment_status i s =
    map (λ (a : Assignment). if i == a.id then record a { status = s } else a)
