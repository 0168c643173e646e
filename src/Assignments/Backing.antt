-- ===== src/Assignments/Backing.antt =====
-- The handlers keep a witness behind a plan that is FEASIBLE.
use reparto_docente_m.Prelude.{
  ℕ, false, not, Option, none, some, List, ◌≡◌, refl, arith, Bool-cases, inl, inr, sym, subst, ◌∙◌,
  if◌then◌else◌,
}
use mathlib.Core.Option.{some-injective}
use reparto_docente_m.Feasibility.Types.{FeasibilityWitnessEntry}
use reparto_docente_m.Guards.Types.{WitnessRepairResult}
use reparto_docente_m.Assignments.Rows.{
  HourRequirement, Assignment, AssignmentAudit, MeetingSession, TeachingPlan, ProcessState, Result,
  ok, ◌>>=◌, raise_unless, or_raise, internal_error, no_teaching_plan, Holds, Holds-map, >>=-Holds,
  Holds->>=, or_raise-eq-ok, find_requirement, find_participant,
}
use reparto_docente_m.Assignments.Remaining.{
  FingerprintPayload, build_feasibility_snapshot, snapshot_from_slots,
}
use reparto_docente_m.Assignments.Witnesses.{
  is_feasible, plan_or_404, get_witness, invalidate, persist_repair, repair_for_reassignment,
  released_repair,
}
use reparto_docente_m.Assignments.Occupy.{
  Choice, ensure_can_occupy, is_used, screened_repair, ensure_fast_feasibility, repair_to_persist,
  persist_if_repaired, new_assignment, add_assignment, release_assignment, occupy_slot,
}
use reparto_docente_m.Assignments.Actions.{reassignment_witness, set_notes}
use reparto_docente_m.Assignments.Kept.{IsKept}
use reparto_docente_m.Assignments.Notes.{build_feasibility_snapshot-set_notes}
use reparto_docente_m.Assignments.Backed.{HasExactWitness, IsBacked, persist_repair-HasExactWitness}

-- no plan, or one that is not FEASIBLE
abbrev pub IsNotFeasible : ProcessState → Type 0
IsNotFeasible s =
    (plan : TeachingPlan) → s.plan ≡ some plan → is_feasible plan.feasibility_status ≡ false

-- where no witness was repaired, none is needed
abbrev pub IsCovered : ProcessState → Option (List FeasibilityWitnessEntry) → Type 0
IsCovered s none = IsNotFeasible s
IsCovered s (some w) = Unit

-- no repair was tried, and none was needed
abbrev pub IsTried : ProcessState → Option WitnessRepairResult → Type 0
IsTried s none = IsNotFeasible s
IsTried s (some repair) = Unit

-- what was evaluated before, where it was
abbrev pub IsReady : ProcessState → Option (Option (List FeasibilityWitnessEntry)) → Type 0
IsReady s none = Unit
IsReady s (some w) = IsCovered s w

ok-injective : {A : Type 0} {a b : A} → ok a ≡ ok b → a ≡ b
ok-injective e = cc e

no_plan-IsNotFeasible : (s : ProcessState) → s.plan ≡ none → IsNotFeasible s
no_plan-IsNotFeasible s e plan h = absurd (ground (arith, e, h))

the_plan-IsNotFeasible :
    (s : ProcessState) (plan : TeachingPlan)
    → s.plan ≡ some plan
    → is_feasible plan.feasibility_status ≡ false
    → IsNotFeasible s
the_plan-IsNotFeasible s plan e h other f =
    subst (λ (p : TeachingPlan). is_feasible p.feasibility_status ≡ false)
      (some-injective _ _ (sym e ∙ f)) h

IsNotFeasible-IsBacked :
    (digest : FingerprintPayload → ℕ) (s : ProcessState) → IsNotFeasible s → IsBacked digest s
IsNotFeasible-IsBacked digest s n plan e h = absurd (ground (arith, n plan e, h))

released-IsTried :
    (s : ProcessState) (plan : TeachingPlan) (m : Result WitnessRepairResult)
    → s.plan ≡ some plan
    → Holds (IsTried s) (
        if not (is_feasible plan.feasibility_status)
        then ok none
        else m >>= λ repair. ok (some repair))
released-IsTried s plan m e = elim (Bool-cases (is_feasible plan.feasibility_status)) [
  | inl f ↦ rw f (>>=-Holds (IsTried s) m _ (λ _ _. tt))
  | inr n ↦ rw n (the_plan-IsNotFeasible s plan e n)
]

module _ (digest : FingerprintPayload → ℕ) where
  -- neither the meetings nor the audit are read
  logged-IsBacked :
      (s : ProcessState) (ms : List MeetingSession) (log : List AssignmentAudit)
      → IsBacked digest s
      → IsBacked digest (record s { meetings = ms; audit = log })
  unfolding get_witness build_feasibility_snapshot snapshot_from_slots
  logged-IsBacked s ms log b plan e h =
      let x = b plan e h in
      record {
        row = x.row;
        snapshot = x.snapshot;
        rest = x.rest;
        current = x.current;
        taken = x.taken;
        entries = x.entries;
        complete = x.complete;
        exact = x.exact;
      }

  ensure_fast_feasibility-IsCovered :
      (s : ProcessState) (i j : ℕ) → Holds (IsCovered s) (ensure_fast_feasibility digest s i j)
  unfolding ensure_fast_feasibility
  ensure_fast_feasibility-IsCovered s i j = go s.plan refl
    where
      answer : Option TeachingPlan → Result (Option (List FeasibilityWitnessEntry))
      answer o = elim o [
        | none ↦ ok none
        | some plan ↦
            if not (is_feasible plan.feasibility_status)
            then ok none
            else screened_repair digest s i j >>= λ witness. ok (some witness)
      ]

      go : (o : Option TeachingPlan) → s.plan ≡ o → Holds (IsCovered s) (answer o)
      go none e = no_plan-IsNotFeasible s e
      go (some plan) e = elim (Bool-cases (is_feasible plan.feasibility_status)) [
        | inl f ↦ rw f (>>=-Holds (IsCovered s) (screened_repair digest s i j) _ (λ _ _. tt))
        | inr n ↦ rw n (the_plan-IsNotFeasible s plan e n)
      ]

  repair_for_reassignment-IsCovered :
      (a : Assignment) (r : HourRequirement) (j : ℕ) (s : ProcessState)
      → Holds (IsTried s) (repair_for_reassignment digest a r j s)
  unfolding repair_for_reassignment
  repair_for_reassignment-IsCovered a r j s = >>=-Holds (IsTried s) (plan_or_404 s) _ λ plan e.
      released-IsTried s plan (released_repair digest plan a r j s)
        (or_raise-eq-ok s.plan no_teaching_plan e)

  -- a reassignment goes on with a witness, or without a plan that needs one
  moved-IsCovered :
      (a : Assignment) (r : HourRequirement) (j : ℕ) (s : ProcessState)
      (repair : Option WitnessRepairResult) (w : Option (List FeasibilityWitnessEntry))
      → repair_for_reassignment digest a r j s ≡ ok repair
      → reassignment_witness repair ≡ ok w
      → IsCovered s w
  moved-IsCovered a r j s none w er ew =
      subst (IsCovered s) (ok-injective ew)
        (subst (Holds (IsTried s)) er (repair_for_reassignment-IsCovered a r j s))
  moved-IsCovered a r j s (some repair) none er ew = absurd (ground (arith, ew))
  moved-IsCovered a r j s (some repair) (some w) er ew = tt

  persist_if_repaired-IsBacked :
      (now : ℕ) (w : Option (List FeasibilityWitnessEntry)) (s : ProcessState)
      → IsCovered s w
      → Holds (IsBacked digest) (persist_if_repaired digest now w s)
  unfolding persist_if_repaired
  persist_if_repaired-IsBacked now none s n = IsNotFeasible-IsBacked digest s n
  persist_if_repaired-IsBacked now (some w) s c =
      Holds-map (HasExactWitness digest) (IsBacked digest) (persist_repair digest now w s)
        (persist_repair-HasExactWitness digest now w s) (λ s' x plan e h. x)

  repair_to_persist-IsCovered :
      (prevalidated : Option (Option (List FeasibilityWitnessEntry))) (s : ProcessState) (i j : ℕ)
      → IsReady s prevalidated
      → Holds (IsCovered s) (repair_to_persist digest prevalidated s i j)
  unfolding repair_to_persist
  repair_to_persist-IsCovered none s i j c = ensure_fast_feasibility-IsCovered s i j
  repair_to_persist-IsCovered (some w) s i j c = c

  -- only the plan counts
  IsCovered-add :
      (a : Assignment) (s : ProcessState) (w : Option (List FeasibilityWitnessEntry))
      → IsCovered s w
      → IsCovered (add_assignment a s) w
  unfolding add_assignment
  IsCovered-add a s none c = c
  IsCovered-add a s (some w) c = tt

  IsCovered-release :
      (a : Assignment) (s : ProcessState) (w : Option (List FeasibilityWitnessEntry))
      → IsCovered s w
      → IsCovered (release_assignment a s) w
  unfolding release_assignment
  IsCovered-release a s none c = c
  IsCovered-release a s (some w) c = tt

  occupy_slot-IsBacked :
      (now fresh : ℕ) (c : Choice) (prevalidated : Option (Option (List FeasibilityWitnessEntry)))
      (i j : ℕ) (s : ProcessState)
      → IsReady s prevalidated
      → Holds
          (λ (done : ProcessState × Assignment). IsBacked digest done.0)
          (occupy_slot digest now fresh c prevalidated i j s)
  unfolding occupy_slot
  occupy_slot-IsBacked now fresh c prevalidated i j s ready =
      >>=-Holds P (or_raise (find_requirement i s.requirements) internal_error) _ λ r _.
        >>=-Holds P (or_raise (find_participant j s.participants) internal_error) _ λ p _.
          >>=-Holds P (ensure_can_occupy s r p) _ λ _ _.
            Holds->>= (IsCovered s) P (repair_to_persist digest prevalidated s r.id p.id) _
              (repair_to_persist-IsCovered prevalidated s r.id p.id ready)
              (λ w covered.
                >>=-Holds P (raise_unless (not (is_used fresh s.assignments)) internal_error) _
                  λ _ _.
                    Holds->>= (IsBacked digest) P
                      (persist_if_repaired digest now w
                        (add_assignment (new_assignment fresh r p c) s))
                      _
                      (persist_if_repaired-IsBacked now w
                        (add_assignment (new_assignment fresh r p c) s)
                        (IsCovered-add (new_assignment fresh r p c) s w covered))
                      (λ s' y. y))
    where
      P : ProcessState × Assignment → Type 0
      P done = IsBacked digest done.0

invalidate-IsNotFeasible : (s : ProcessState) → IsNotFeasible ((invalidate s).0)
unfolding invalidate
invalidate-IsNotFeasible s plan e = ground (arith, e)

module _ (digest : FingerprintPayload → ℕ) where
  get_witness-set_notes :
      (k : ℕ) (n : Option ℕ) (s : ProcessState)
      → get_witness digest (record s { assignments = set_notes k n s.assignments })
        ≡ get_witness digest s
  unfolding get_witness
  get_witness-set_notes k n s = rw (build_feasibility_snapshot-set_notes k n s) refl

  noted-IsBacked :
      (k : ℕ) (n : Option ℕ) (s : ProcessState)
      → IsBacked digest s
      → IsBacked digest (record s { assignments = set_notes k n s.assignments })
  noted-IsBacked k n s b plan e h =
      let x = b plan e h in
      record {
        row = x.row;
        snapshot = x.snapshot;
        rest = x.rest;
        current = get_witness-set_notes k n s ∙ x.current;
        taken = build_feasibility_snapshot-set_notes k n s ∙ x.taken;
        entries = x.entries;
        complete = x.complete;
        exact = x.exact;
      }

  -- Every operation keeps a witness behind a plan that is FEASIBLE.
  pub IsBacked-IsKept : IsKept digest (IsBacked digest)
  IsBacked-IsKept = record {
    logged = logged-IsBacked digest;
    noted = noted-IsBacked;
    chosen = λ now fresh c i j s _. occupy_slot-IsBacked digest now fresh c none i j s tt;
    undone = λ k a s _ _ _.
        IsNotFeasible-IsBacked digest ((invalidate (release_assignment a s)).0)
          (invalidate-IsNotFeasible (release_assignment a s));
    moved = λ now fresh c k a r j w repair s _ _ _ er ew.
        occupy_slot-IsBacked digest now fresh c (some w) r.id j (release_assignment a s)
          (IsCovered-release digest a s w (moved-IsCovered digest a r j s repair w er ew));
  }
