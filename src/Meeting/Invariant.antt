-- ===== src/Meeting/Invariant.antt =====
-- Turn actions keep the rows' ids apart and at most one turn active.
use reparto_docente_m.Prelude.{
  ℕ, false, ◌||◌, ◌+◌, ◌≤◌, if◌then◌else◌, Option, none, List, [], ◌∷◌, map, any, contains, sum_by,
  ◌≡◌, ◌≢◌, ◌⊎◌, refl, arith, subst,
}
use reparto_docente_m.Lifecycle.Process
use reparto_docente_m.Meeting.Turns.{
  SelectionTurn, open_session, selecting, reopened, prepared, paused, closed, Meeting, Result, ok,
  err, ◌>>=◌, is_active, is_pending, write_turn, find_turn, started, finished, passed, forced,
  store, start_turn, complete_turn, skip_turn, override_turn, ensure_session_can_select,
  ensure_process_mutable, ensure_no_active_turn, ensure_active_turn, record_turn_assignment,
  raise_unless, only_pending_can_start, only_pending_or_active_can_skip, TurnEvent, turn_started,
  turn_completed, turn_skipped, turn_overridden,
}

abbrev pub ids : List SelectionTurn → List ℕ
ids = map (λ (t : SelectionTurn). t.id)

abbrev pub active_count : List SelectionTurn → ℕ
active_count = sum_by (λ (t : SelectionTurn). if is_active t.status then 1 else 0)

abbrev pub HasUniqueIds : List SelectionTurn → Type 0
HasUniqueIds [] = Unit
HasUniqueIds (t ∷ ts) = (contains (ids ts) t.id ≡ false) × HasUniqueIds ts

-- The rows' ids differ, and at most one turn is active.
pub record IsValid (m : Meeting) : Type 0 where
  pub unique : HasUniqueIds m.turns
  pub one_active : active_count m.turns ≤ 1

module _ (u : SelectionTurn) where
  ids-write_turn :
      (ts : List SelectionTurn) (i : ℕ) → contains (ids (write_turn u ts)) i ≡ contains (ids ts) i
  ids-write_turn [] i = refl
  ids-write_turn (t ∷ ts) i = ground (arith, ids-write_turn ts i)

  unique-write_turn : (ts : List SelectionTurn) → HasUniqueIds ts → HasUniqueIds (write_turn u ts)
  unique-write_turn [] h = tt
  unique-write_turn (t ∷ ts) h =
      ground (arith, ids-write_turn ts t.id, ids-write_turn ts u.id, unique-write_turn ts h.1)

  write_turn_absent :
      (ts : List SelectionTurn)
      → contains (ids ts) u.id ≡ false
      → active_count (write_turn u ts) ≡ active_count ts
  write_turn_absent [] h = refl
  write_turn_absent (t ∷ ts) h = ground (arith, write_turn_absent ts)

  -- one row is written, so the count rises by one at most, and not if the new row is not active
  active_count-write_turn :
      (ts : List SelectionTurn)
      → HasUniqueIds ts
      → active_count (write_turn u ts) ≤ active_count ts + (if is_active u.status then 1 else 0)
  active_count-write_turn [] h = ground arith
  active_count-write_turn (t ∷ ts) h =
      ground (arith, write_turn_absent ts, active_count-write_turn ts h.1)

any-active_count :
    (ts : List SelectionTurn)
    → any (λ (t : SelectionTurn). is_active t.status) ts ≡ false
    → active_count ts ≡ 0
any-active_count [] h = refl
any-active_count (t ∷ ts) h = ground (arith, any-active_count ts)

-- An action of the meeting, with the time and the user.
pub data TurnAction : Type 0 where
  start : ℕ → TurnAction
  complete : ℕ → Option (ℕ × Result (Unit {0})) → Option ℕ → TurnAction
  skip override : ℕ → Option ℕ → Option ℕ → TurnAction

unfoldable pub perform : ℕ → ℕ → TurnAction → Meeting → Result Meeting
unfolding start_turn complete_turn skip_turn override_turn
perform now user (start i) = start_turn now user i
perform now user (complete i assignment notes) = complete_turn now user i assignment notes
perform now user (skip i reason notes) = skip_turn now user i reason notes
perform now user (override i reason notes) = override_turn now user i reason notes

store-IsValid :
    (event : TurnEvent) (user : ℕ) (before after : SelectionTurn) (reason : Option ℕ) (m : Meeting)
    → IsValid m
    → is_active after.status ≡ false
    → IsValid (store event user before after reason m)
unfolding store
store-IsValid event user before after reason m v h = record {
  unique = unique-write_turn after m.turns v.unique;
  one_active = ground (arith, active_count-write_turn after m.turns v.unique, v.one_active);
}

start-IsValid :
    (now user : ℕ) (turn : SelectionTurn) (m : Meeting)
    → IsValid m
    → any (λ (t : SelectionTurn). is_active t.status) m.turns ≡ false
    → IsValid
        (store turn_started user turn (started now turn) none (record m { status = selecting }))
unfolding store
start-IsValid now user turn m v h = record {
  unique = unique-write_turn (started now turn) m.turns v.unique;
  one_active = omega (
    arith,
    active_count-write_turn (started now turn) m.turns v.unique,
    any-active_count m.turns h,
  );
}

>>=-eq-ok :
    {A B : Type 0} (r : Result A) (f : A → Result B) {b : B}
    → (r >>= f) ≡ ok b
    → (a : A) × (r ≡ ok a) × (f a ≡ ok b)
>>=-eq-ok (ok a) f h = (a, refl, h)
>>=-eq-ok (err e) f h = absurd (ground (arith, h))

module _ (now user : ℕ) (m : Meeting) (v : IsValid m) where
  start_turn-IsValid : (i : ℕ) {m' : Meeting} → start_turn now user i m ≡ ok m' → IsValid m'
  unfolding start_turn
  start_turn-IsValid i e =
      let (_, _, e₁) = >>=-eq-ok (ensure_session_can_select m) _ e in
      let (turn, _, e₂) = >>=-eq-ok (find_turn i m.turns) _ e₁ in
      let (_, quiet, e₃) = >>=-eq-ok (ensure_no_active_turn m) _ e₂ in
      let (_, _, e₄) =
        >>=-eq-ok (raise_unless (is_pending turn.status) only_pending_can_start) _ e₃ in
      subst IsValid (cc e₄)
        (start-IsValid now user turn m v (unfold ensure_no_active_turn in ground (arith, quiet)))

  complete_turn-IsValid :
      (i : ℕ) (assignment : Option (ℕ × Result (Unit {0}))) (notes : Option ℕ) {m' : Meeting}
      → complete_turn now user i assignment notes m ≡ ok m'
      → IsValid m'
  unfolding complete_turn
  complete_turn-IsValid i assignment notes e =
      let (_, _, e₁) = >>=-eq-ok (ensure_session_can_select m) _ e in
      let (turn, _, e₂) = >>=-eq-ok (find_turn i m.turns) _ e₁ in
      let (_, _, e₃) = >>=-eq-ok (ensure_active_turn turn) _ e₂ in
      let (_, _, e₄) = >>=-eq-ok (record_turn_assignment turn assignment) _ e₃ in
      subst IsValid (cc e₄)
        (store-IsValid turn_completed user turn (finished now notes turn) none m v refl)

  skip_turn-IsValid :
      (i : ℕ) (reason notes : Option ℕ) {m' : Meeting}
      → skip_turn now user i reason notes m ≡ ok m'
      → IsValid m'
  unfolding skip_turn
  skip_turn-IsValid i reason notes e =
      let (_, _, e₁) = >>=-eq-ok (ensure_session_can_select m) _ e in
      let (turn, _, e₂) = >>=-eq-ok (find_turn i m.turns) _ e₁ in
      let (_, _, e₃) =
        >>=-eq-ok
          (raise_unless (is_pending turn.status || is_active turn.status)
            only_pending_or_active_can_skip)
          _ e₂ in
      subst IsValid (cc e₃)
        (store-IsValid turn_skipped user turn (passed now reason notes turn) reason m v refl)

  override_turn-IsValid :
      (i : ℕ) (reason notes : Option ℕ) {m' : Meeting}
      → override_turn now user i reason notes m ≡ ok m'
      → IsValid m'
  unfolding override_turn
  override_turn-IsValid i reason notes e =
      let (_, _, e₁) = >>=-eq-ok (ensure_session_can_select m) _ e in
      let (turn, _, e₂) = >>=-eq-ok (find_turn i m.turns) _ e₁ in
      subst IsValid (cc e₂) (
        store-IsValid turn_overridden user turn (forced now user reason notes turn) reason m v refl)

  perform-IsValid : (a : TurnAction) {m' : Meeting} → perform now user a m ≡ ok m' → IsValid m'
  unfolding perform
  perform-IsValid (start i) e = start_turn-IsValid i e
  perform-IsValid (complete i assignment notes) e = complete_turn-IsValid i assignment notes e
  perform-IsValid (skip i reason notes) e = skip_turn-IsValid i reason notes e
  perform-IsValid (override i reason notes) e = override_turn-IsValid i reason notes e

-- A meeting of actions, each by its time and user; a refused action leaves the meeting as it was.
abbrev pub perform_all : List (ℕ × ℕ × TurnAction) → Meeting → Meeting
perform_all [] m = m
perform_all ((now, user, a) ∷ rest) m = elim (perform now user a m) [
  | ok m' ↦ perform_all rest m'
  | err _ ↦ perform_all rest m
]

-- Whatever turn actions are tried in whatever order, with refused ones changing nothing, the
-- turns' ids stay different and at most one turn is active, if that held at the start.
pub perform_all-IsValid :
    (actions : List (ℕ × ℕ × TurnAction)) (m : Meeting)
    → IsValid m
    → IsValid (perform_all actions m)
perform_all-IsValid [] m v = v
perform_all-IsValid ((now, user, a) ∷ rest) m v =
    after (perform now user a m) refl (perform_all-IsValid rest)
  where
    after :
        (r : Result Meeting)
        → perform now user a m ≡ r
        → ((n : Meeting) → IsValid n → IsValid (perform_all rest n))
        → IsValid (elim r [ ok m' ↦ perform_all rest m' | err _ ↦ perform_all rest m ])
    after (ok m') e ih = ih m' (perform-IsValid now user m v a e)
    after (err x) e ih = ih m v

-- the meeting takes turn actions
abbrev pub IsOpen : Meeting → Type 0
IsOpen m =
    (m.process_status ≢ Process.final)
    × (m.process_status ≢ Process.archived)
    × ((m.status ≡ open_session) ⊎ (m.status ≡ selecting) ⊎ (m.status ≡ reopened))

ensure_session_can_select-IsOpen :
    (m : Meeting) {x : Unit {0}} → ensure_session_can_select m ≡ ok x → IsOpen m
unfolding ensure_session_can_select ensure_process_mutable
ensure_session_can_select-IsOpen m h = ground (arith, h)

perform-IsOpen :
    (now user : ℕ) (a : TurnAction) (m : Meeting) {m' : Meeting}
    → perform now user a m ≡ ok m'
    → IsOpen m
unfolding perform start_turn complete_turn skip_turn override_turn
perform-IsOpen now user (start i) m h =
    ensure_session_can_select-IsOpen m (>>=-eq-ok (ensure_session_can_select m) _ h).1
perform-IsOpen now user (complete i p n) m h =
    ensure_session_can_select-IsOpen m (>>=-eq-ok (ensure_session_can_select m) _ h).1
perform-IsOpen now user (skip i p n) m h =
    ensure_session_can_select-IsOpen m (>>=-eq-ok (ensure_session_can_select m) _ h).1
perform-IsOpen now user (override i p n) m h =
    ensure_session_can_select-IsOpen m (>>=-eq-ok (ensure_session_can_select m) _ h).1

-- Whatever turn actions are tried, they change nothing, not even the audit trail, where the process
-- is final or archived, or its meeting is prepared, paused or closed.
pub closed_meeting_is_kept :
    (actions : List (ℕ × ℕ × TurnAction)) (m : Meeting)
    → ((m.process_status ≡ Process.final)
        ⊎ (m.process_status ≡ Process.archived)
        ⊎ (m.status ≡ prepared)
        ⊎ (m.status ≡ paused)
        ⊎ (m.status ≡ closed))
    → perform_all actions m ≡ m
closed_meeting_is_kept [] m h = refl
closed_meeting_is_kept ((now, user, a) ∷ rest) m h =
    refused (perform now user a m) refl (closed_meeting_is_kept rest m h)
  where
    refused :
        (r : Result Meeting)
        → perform now user a m ≡ r
        → perform_all rest m ≡ m
        → elim r [ ok m' ↦ perform_all rest m' | err _ ↦ perform_all rest m ] ≡ m
    refused (ok m') e kept = absurd (ground (arith, h, perform-IsOpen now user a m e))
    refused (err x) e kept = kept
