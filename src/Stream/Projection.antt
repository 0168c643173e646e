-- ===== src/Stream/Projection.antt =====
-- `resolve_audience` and `project_event`: who may see what of an event.
use reparto_docente_m.Prelude.{
  ℕ, Bool, true, false, not, ◌==◌, ltb, if◌then◌else◌, Option, none, some, List, [], ◌∷◌, keep, ◌≡◌,
  ◌≢◌, inl, inr, refl, arith, Bool-cases,
}
use mathlib.Core.Option.{some-injective}
use reparto_docente_m.Stream.Events.{
  DomainEvent, PlanReadiness, SseAudience, department_head, teacher, shared_screen, reason_key,
}

abbrev pub rank : SseAudience → ℕ
rank department_head = 0
rank teacher = 1
rank shared_screen = 2

-- `granted_audience`, from whether `require_department_head` lets the user pass
unfoldable pub granted_audience : Bool → SseAudience
granted_audience is_department_head = if is_department_head then department_head else teacher

-- `resolve_audience`; `none` is the 403
unfoldable pub resolve_audience : Bool → Option SseAudience → Option SseAudience
unfolding granted_audience
resolve_audience is_department_head none = some (granted_audience is_department_head)
resolve_audience is_department_head (some requested) =
    if ltb (rank requested) (rank (granted_audience is_department_head))
    then none
    else some requested

-- What a viewer receives. `none` is a key that the frame does not have.
pub record Frame : Type 0 where
  pub readiness : PlanReadiness
  pub event_type : Option ℕ
  pub process_id : Option ℕ
  pub sequence : Option ℕ
  pub occurred_at : Option ℕ
  pub selection_blocked : Option Bool
  pub process_teacher_id : Option ℕ
  pub payload : Option (List (ℕ × ℕ))

abbrev pub without_head_keys : List (ℕ × ℕ) → List (ℕ × ℕ)
without_head_keys = keep (λ (kv : ℕ × ℕ). not (kv.0 == reason_key))

-- `is_own`
abbrev pub is_own : Option ℕ → Option ℕ → Bool
is_own none viewer = false
is_own (some subject) none = false
is_own (some subject) (some viewer) = subject == viewer

unfoldable pub project_event : DomainEvent → SseAudience → Option ℕ → Frame
project_event e department_head viewer = record {
  readiness = e.readiness;
  event_type = some e.event_type;
  process_id = some e.process_id;
  sequence = some e.sequence;
  occurred_at = some e.occurred_at;
  selection_blocked = some e.selection_blocked;
  process_teacher_id = e.subject_process_teacher_id;
  payload = some e.payload;
}
project_event e shared_screen viewer = record {
  readiness = e.readiness;
  event_type = none;
  process_id = none;
  sequence = none;
  occurred_at = none;
  selection_blocked = none;
  process_teacher_id = none;
  payload = none;
}
project_event e teacher viewer = record {
  readiness = e.readiness;
  event_type = some e.event_type;
  process_id = some e.process_id;
  sequence = some e.sequence;
  occurred_at = some e.occurred_at;
  selection_blocked = some e.selection_blocked;
  process_teacher_id =
      if is_own e.subject_process_teacher_id viewer then e.subject_process_teacher_id else none;
  payload =
      if is_own e.subject_process_teacher_id viewer
      then some (without_head_keys e.payload)
      else none;
}

abbrev pub has_key : ℕ → List (ℕ × ℕ) → Bool
has_key k [] = false
has_key k ((j, v) ∷ kvs) = if k == j then true else has_key k kvs

no_reason : (kvs : List (ℕ × ℕ)) → has_key reason_key (without_head_keys kvs) ≡ false
no_reason [] = refl
no_reason ((j, v) ∷ kvs) = ground (arith, no_reason kvs)

private_frame :
    (e : DomainEvent) (a : SseAudience) (viewer : Option ℕ) {payload : List (ℕ × ℕ)}
    → a ≢ department_head
    → (project_event e a viewer).payload ≡ some payload
    → (is_own e.subject_process_teacher_id viewer ≡ true) × (has_key reason_key payload ≡ false)
unfolding project_event
private_frame e department_head viewer n p = absurd (n refl)
private_frame e shared_screen viewer n p = absurd (ground (arith, p))
private_frame e teacher viewer {payload} n p =
    elim (Bool-cases (is_own e.subject_process_teacher_id viewer)) [
      | inl own ↦
          let q : some (without_head_keys e.payload) ≡ some payload = rw own at p in
          (own, rw (← some-injective _ _ q) (no_reason e.payload))
      | inr other ↦ absurd (ground (arith, other))
    ]

resolved :
    (r : Option SseAudience) {a : SseAudience}
    → resolve_audience false r ≡ some a
    → a ≢ department_head
unfolding resolve_audience
resolved none h = ground arith
resolved (some department_head) h = ground arith
resolved (some teacher) h = ground arith
resolved (some shared_screen) h = ground arith

-- Whoever is no department head, whatever tier they ask for and whoever they are, sees a payload
-- only of an event about themselves, and never the head's reason in it.
pub private_payload :
    (e : DomainEvent) (requested : Option SseAudience) (viewer : Option ℕ) {audience : SseAudience}
    {payload : List (ℕ × ℕ)}
    → resolve_audience false requested ≡ some audience
    → (project_event e audience viewer).payload ≡ some payload
    → (is_own e.subject_process_teacher_id viewer ≡ true) × (has_key reason_key payload ≡ false)
private_payload e requested viewer {audience} h p =
    private_frame e audience viewer (resolved requested h) p
