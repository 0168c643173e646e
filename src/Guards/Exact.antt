-- ===== src/Guards/Exact.antt =====
-- What `_mapping_is_exact` and `validate_feasibility_witness` decide.
use reparto_docente_m.Prelude.{
  ℕ, Bool, true, false, ◌+◌, ◌≤◌, ◌==◌, if◌then◌else◌, Option, none, some, List, [], ◌∷◌, ◌≡◌, ◌↔◌,
  inl, inr, refl, contains, all, All, arith, ap, update, Bool-cases,
}
use mathlib.Core.Option.{some-injective}
use reparto_docente_m.Feasibility.Types.{
  TextId, FeasibilityParticipant, FeasibilitySlot, FeasibilityState,
}
use reparto_docente_m.Feasibility.Exact.{load, held}
use reparto_docente_m.Guards.Witness.{
  Mapping, owner_of, owners, occupied_by, assign_slots, mapping_is_exact,
}

-- Each participant's slots add up to the target, and nobody holds an activity twice, those counted
-- that they occupied before.
pub record MeetsTargets (state : FeasibilityState) (os : List TextId) : Type 0 where
  pub met :
      All
        (λ (p : FeasibilityParticipant).
          load p.participant_id state.slots os ≡ p.remaining_target_units)
        state.participants
  pub distinct :
      (i a : TextId)
      → held i a state.slots os + (if contains (occupied_by state.participants i) a then 1 else 0)
        ≤ 1

module _ (mapping : Mapping) where
  -- The loop succeeds only where nobody takes an activity twice, and then it has added up the loads.
  assign_slots-some :
      (ss : List FeasibilitySlot) (assigned : TextId → ℕ) (activities : TextId → List TextId)
      {result : TextId → ℕ}
      → assign_slots mapping ss assigned activities ≡ some result
      → ((i : TextId) → result i ≡ assigned i + load i ss (owners mapping ss))
        × ((i a : TextId)
            → held i a ss (owners mapping ss) + (if contains (activities i) a then 1 else 0) ≤ 1)
  unfolding assign_slots
  assign_slots-some [] assigned activities e =
      (λ i. omega (arith, ap (λ (f : TextId → ℕ). f i) (some-injective _ _ e)), λ i a. ground arith)
  assign_slots-some (s ∷ ss) assigned activities e =
      elim (Bool-cases (contains (activities (owner_of mapping s)) s.activity_id)) [
        | inl twice ↦ absurd (ground arith)
        | inr free ↦
            let (sums, once) =
              assign_slots-some ss
                (update assigned (owner_of mapping s)
                  (assigned (owner_of mapping s) + s.hours_units))
                (update activities (owner_of mapping s)
                  (s.activity_id ∷ activities (owner_of mapping s)))
                (rw free at e) in
            (λ i. ground (arith, sums i), λ i a. ground (arith, once i a))
      ]

  -- Where nobody would take an activity twice, the loop succeeds.
  some-assign_slots :
      (ss : List FeasibilitySlot) (assigned : TextId → ℕ) (activities : TextId → List TextId)
      → ((i a : TextId)
          → held i a ss (owners mapping ss) + (if contains (activities i) a then 1 else 0) ≤ 1)
      → (result : TextId → ℕ) × (assign_slots mapping ss assigned activities ≡ some result)
  unfolding assign_slots
  some-assign_slots [] assigned activities once = (assigned, refl)
  some-assign_slots (s ∷ ss) assigned activities once =
      let i : ℕ = owner_of mapping s in
      let free : contains (activities i) s.activity_id ≡ false =
        ground (arith, once i s.activity_id) in
      let rest =
        some-assign_slots ss (update assigned i (assigned i + s.hours_units))
          (update activities i (s.activity_id ∷ activities i)) (λ j a. ground (arith, once j a)) in
      (rest.0, rw free rest.1)

module _ (assigned : TextId → ℕ) (loads : TextId → ℕ)
    (same : (i : TextId) → assigned i ≡ loads i) where
  all-met :
      (ps : List FeasibilityParticipant)
      → all
          (λ (p : FeasibilityParticipant). assigned p.participant_id == p.remaining_target_units)
          ps
        ≡ true
      → All (λ (p : FeasibilityParticipant). loads p.participant_id ≡ p.remaining_target_units) ps
  all-met [] h = tt
  all-met (p ∷ ps) h = (ground (arith, same p.participant_id), all-met ps (ground arith))

  met-all :
      (ps : List FeasibilityParticipant)
      → All (λ (p : FeasibilityParticipant). loads p.participant_id ≡ p.remaining_target_units) ps
      → all
          (λ (p : FeasibilityParticipant). assigned p.participant_id == p.remaining_target_units)
          ps
        ≡ true
  met-all [] h = refl
  met-all (p ∷ ps) h = ground (arith, same p.participant_id, met-all ps h.1)

-- `_mapping_is_exact` answers True exactly when, with the mapping's owners, every participant's
-- slots add up to their target and nobody holds an activity twice, counting those they occupied.
pub mapping_is_exact_iff :
    (state : FeasibilityState) (mapping : Mapping)
    → (mapping_is_exact state mapping ≡ true) ↔ MeetsTargets state (owners mapping state.slots)
unfolding mapping_is_exact
mapping_is_exact_iff state mapping = (forward, backward)
  where
    start : Option (TextId → ℕ)
    start = assign_slots mapping state.slots (λ _. 0) (occupied_by state.participants)

    answer : Option (TextId → ℕ) → Bool
    answer o = elim o [
      | none ↦ false
      | some assigned ↦
          all
            (λ (p : FeasibilityParticipant). assigned p.participant_id == p.remaining_target_units)
            state.participants
    ]

    from_start :
        (o : Option (TextId → ℕ))
        → start ≡ o
        → answer o ≡ true
        → MeetsTargets state (owners mapping state.slots)
    from_start none e h = absurd (ground arith)
    from_start (some assigned) e h =
        let (sums, once) =
          assign_slots-some mapping state.slots (λ _. 0) (occupied_by state.participants) e in
        record {
          met =
              all-met assigned (λ i. load i state.slots (owners mapping state.slots))
                (λ i. omega (arith, sums i)) state.participants h;
          distinct = once;
        }

    forward :
        mapping_is_exact state mapping ≡ true → MeetsTargets state (owners mapping state.slots)
    forward h = from_start start refl h

    backward :
        MeetsTargets state (owners mapping state.slots) → mapping_is_exact state mapping ≡ true
    backward m =
        let (assigned, e) =
          some-assign_slots mapping state.slots (λ _. 0) (occupied_by state.participants)
            m.distinct in
        let (sums, once) =
          assign_slots-some mapping state.slots (λ _. 0) (occupied_by state.participants) e in
        rw (e, mapping_is_exact)
          (met-all assigned (λ i. load i state.slots (owners mapping state.slots))
            (λ i. omega (arith, sums i)) state.participants m.met)
