-- ===== src/Feasibility/Feasible.antt =====
-- What a FEASIBLE result of `evaluate_assignment_feasibility` means.
use reparto_docente_m.Prelude.{
  ℕ, zero, suc, Option, none, some, List, [], ◌∷◌, ◌≡◌, refl, ◌∙◌, sym, ap, get_or, length,
  contains, arith, replicate, length-map, subst,
}
use reparto_docente_m.Prelude.Sort.{sort_by}
use reparto_docente_m.Lifecycle.Status.{FeasibilityStatus}
use reparto_docente_m.Feasibility.Types.{
  FeasibilityParticipant, FeasibilitySlot, FeasibilityState, FeasibilityWitnessEntry,
  FeasibilityDiagnostic, FeasibilityResult, SolverLimits, Result, ok, err, ◌>>=◌,
}
use reparto_docente_m.Feasibility.Residual.{
  targets_of, occupied_of, size_limit_diagnostic, root_infeasibility_diagnostic,
}
use reparto_docente_m.Feasibility.Search.{
  Outcome, found, failed, stopped, initial_workspace, search,
}
use reparto_docente_m.Feasibility.Evaluate.{
  participant_le, slot_le, normalise_and_validate, no_participant, witness_from, make_result,
  translate_outcome, solve, evaluate_snapshot, evaluate_assignment_feasibility, Snapshot,
}
use reparto_docente_m.Feasibility.Exact.{Exact, Exact-ext}
use reparto_docente_m.Feasibility.Workspaces.{Completes, IsReady}
use reparto_docente_m.Feasibility.Soundness.{Recorded, Searched, search-Searched}

-- The owners, by their places in the list of participants, meet every target exactly.
abbrev pub IsExactFor : List FeasibilityParticipant → List FeasibilitySlot → List ℕ → Type 0
IsExactFor ps ss os =
    Exact (length ps) (λ i. (get_or ps i no_participant).remaining_target_units)
      (λ i a. contains (get_or ps i no_participant).occupied_activity_ids a) ss os

-- The witness that names, slot by slot, the participant at the owner's place.
abbrev pub witness_of :
    List FeasibilityParticipant → List FeasibilitySlot → List ℕ → List FeasibilityWitnessEntry
witness_of ps (s ∷ ss) (o ∷ os) =
    record { slot_id = s.slot_id; participant_id = (get_or ps o no_participant).participant_id }
    ∷ witness_of ps ss os
witness_of ps [] os = []
witness_of ps (s ∷ ss) [] = []

pub get_or-targets_of :
    (ps : List FeasibilityParticipant) (i : ℕ)
    → get_or (targets_of ps) i 0 ≡ (get_or ps i no_participant).remaining_target_units
get_or-targets_of [] i = refl
get_or-targets_of (p ∷ ps) zero = refl
get_or-targets_of (p ∷ ps) (suc i) = get_or-targets_of ps i

pub get_or-occupied_of :
    (ps : List FeasibilityParticipant) (i : ℕ)
    → get_or (occupied_of ps) i [] ≡ (get_or ps i no_participant).occupied_activity_ids
get_or-occupied_of [] i = refl
get_or-occupied_of (p ∷ ps) zero = refl
get_or-occupied_of (p ∷ ps) (suc i) = get_or-occupied_of ps i

-- The first workspace says what the snapshot says.
pub initial-IsExactFor :
    (ps : List FeasibilityParticipant) (ss : List FeasibilitySlot) (os : List ℕ)
    → Completes (initial_workspace ps ss) ss os
    → IsExactFor ps ss os
unfolding initial_workspace
initial-IsExactFor ps ss os x =
    Exact-ext _ _ _ _ ss os (get_or-targets_of ps)
      (λ i a. ap (λ xs. contains xs a) (get_or-occupied_of ps i))
      (rw (← length-map (λ (p : FeasibilityParticipant). p.remaining_target_units) ps) x)

length-replicate {ℓ} : {A : Type ℓ} (n : ℕ) (a : A) → length (replicate n a) ≡ n
length-replicate zero a = refl
length-replicate (suc n) a = ap suc (length-replicate n a)

pub initial-IsReady :
    (ps : List FeasibilityParticipant) (ss : List FeasibilitySlot)
    → IsReady 0 ss (initial_workspace ps ss)
unfolding initial_workspace
initial-IsReady ps ss = record {
  rows = length-map _ ps ∙ sym (length-map _ ps);
  room = omega (arith, length-replicate {A = Option ℕ} (length ss) none);
}

witness_from-witness_of :
    (ps : List FeasibilityParticipant) (a : List (Option ℕ)) (k : ℕ) (ss : List FeasibilitySlot)
    (os : List ℕ)
    → length os ≡ length ss
    → Recorded k os a
    → witness_from ps a k ss ≡ witness_of ps ss os
unfolding witness_from
witness_from-witness_of ps a k [] os h r = refl
witness_from-witness_of ps a k (s ∷ ss) [] h r = absurd (omega arith)
witness_from-witness_of ps a k (s ∷ ss) (o ∷ os) h r =
    rw (r.0, witness_from-witness_of ps a (suc k) ss os (omega arith) r.1)

abbrev IsWitness : List FeasibilityParticipant → List FeasibilitySlot → FeasibilityResult → Type 0
IsWitness ps ss r = (os : List ℕ) × (r.witness ≡ some (witness_of ps ss os)) × IsExactFor ps ss os

translate_outcome-IsWitness :
    (ps : List FeasibilityParticipant) (ss : List FeasibilitySlot) (out : Outcome)
    → Searched 0 ss (initial_workspace ps ss) out
    → (translate_outcome ps ss out).status ≡ FeasibilityStatus.feasible
    → IsWitness ps ss (translate_outcome ps ss out)
unfolding translate_outcome
translate_outcome-IsWitness ps ss (found w) (os, exact, recorded, kept) h = (
  os,
  ap some (witness_from-witness_of ps w.assignment 0 ss os exact.complete recorded),
  initial-IsExactFor ps ss os exact,
)
translate_outcome-IsWitness ps ss (failed w) s h = absurd (ground arith)
translate_outcome-IsWitness ps ss (stopped code w) s h = absurd (ground arith)

module _ (limits : SolverLimits) (elapsed : ℕ → ℕ) where
  evaluate_snapshot-IsWitness :
      (ps : List FeasibilityParticipant) (ss : List FeasibilitySlot)
      → (evaluate_snapshot limits elapsed (ps, ss)).status ≡ FeasibilityStatus.feasible
      → IsWitness ps ss (evaluate_snapshot limits elapsed (ps, ss))
  unfolding evaluate_snapshot
  evaluate_snapshot-IsWitness ps ss =
      go (size_limit_diagnostic ps ss limits) (root_infeasibility_diagnostic ps ss)
    where
      body : Option FeasibilityDiagnostic → Option FeasibilityDiagnostic → FeasibilityResult
      body size root = elim size [
        | some d ↦ make_result FeasibilityStatus.unknown none (some d) 0 0
        | none ↦ elim root [
          | some d ↦ make_result FeasibilityStatus.infeasible none (some d) 0 0
          | none ↦ solve limits elapsed ps ss
        ]
      ]

      go :
          (size root : Option FeasibilityDiagnostic)
          → (body size root).status ≡ FeasibilityStatus.feasible
          → IsWitness ps ss (body size root)
      go (some d) root h = absurd (ground arith)
      go none (some d) h = absurd (ground arith)
      go none none h =
          translate_outcome-IsWitness ps ss (search limits elapsed 0 ss (initial_workspace ps ss))
            (search-Searched limits elapsed 0 ss (initial_workspace ps ss) (initial-IsReady ps ss))
            h

-- A snapshot that passes the validation is the state, sorted.
pub normalise_and_validate-ok :
    (state : FeasibilityState) {snapshot : Snapshot}
    → normalise_and_validate state ≡ ok snapshot
    → snapshot ≡ (sort_by participant_le state.participants, sort_by slot_le state.slots)
unfolding normalise_and_validate
normalise_and_validate-ok state h = ground arith

-- A run that answers has validated the state and evaluated the sorted snapshot.
pub evaluate-ok :
    (limits : SolverLimits) (elapsed : ℕ → ℕ) (state : FeasibilityState) {r : FeasibilityResult}
    → evaluate_assignment_feasibility limits elapsed state ≡ ok r
    → evaluate_snapshot limits elapsed
        (sort_by participant_le state.participants, sort_by slot_le state.slots)
      ≡ r
unfolding evaluate_assignment_feasibility
evaluate-ok limits elapsed state {r} e = go (normalise_and_validate state) refl e
  where
    go :
        (n : Result Snapshot)
        → normalise_and_validate state ≡ n
        → (n >>= λ s. ok (evaluate_snapshot limits elapsed s)) ≡ ok r
        → evaluate_snapshot limits elapsed
            (sort_by participant_le state.participants, sort_by slot_le state.slots)
          ≡ r
    go (ok s) en h = rw (← normalise_and_validate-ok state en) (cc h)
    go (err x) en h = absurd (ground (arith, h))

-- When the solver answers FEASIBLE, its witness gives every slot one participant so that every
-- participant's remaining target is met exactly and nobody holds an activity twice, counting the
-- activities that they occupied before. The witness lists the slots in the solver's order.
pub feasible_is_exact :
    (limits : SolverLimits) (elapsed : ℕ → ℕ) (state : FeasibilityState) {r : FeasibilityResult}
    → evaluate_assignment_feasibility limits elapsed state ≡ ok r
    → r.status ≡ FeasibilityStatus.feasible
    → (os : List ℕ) × (r.witness
        ≡ some (
            witness_of
              (sort_by participant_le state.participants)
              (sort_by slot_le state.slots)
              os))
      × IsExactFor (sort_by participant_le state.participants) (sort_by slot_le state.slots) os
feasible_is_exact limits elapsed state e h =
    let ps : List FeasibilityParticipant = sort_by participant_le state.participants in
    let ss : List FeasibilitySlot = sort_by slot_le state.slots in
    subst (λ r. IsWitness ps ss r) (evaluate-ok limits elapsed state e)
      (evaluate_snapshot-IsWitness limits elapsed ps ss (rw (evaluate-ok limits elapsed state e) h))
