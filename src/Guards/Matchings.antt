-- ===== src/Guards/Matchings.antt =====
-- `_activity_has_matching` of services/selection_guards.py, with participants by their identifiers.
use reparto_docente_m.Prelude.{
  ℕ, true, false, ◌≤◌, ◌<◌, some, List, [], ◌∷◌, ◌≡◌, ◌↔◌, get_or, length, contains, arith, In,
  Option-cases, inl, inr,
}
use reparto_docente_m.Feasibility.Types.{TextId, FeasibilityParticipant, FeasibilitySlot}
use reparto_docente_m.Feasibility.Matching.{no_slot}
use reparto_docente_m.Feasibility.Matchings.{Matching, match_slots_iff}
use reparto_docente_m.Guards.Fast.{
  participant_ids, find_participant, is_candidate, candidate_by_id, activity_has_matching,
}

-- Different participants for the slots, each with the hours for its slot and without its activity.
pub record DistinctParticipants (slots : List FeasibilitySlot)
    (participants : List FeasibilityParticipant) : Type 0 where
  pub owner : (s : ℕ) → s < length slots → TextId
  pub holder : (s : ℕ) → s < length slots → FeasibilityParticipant
  pub found :
      (s : ℕ) (h : s < length slots) → find_participant (owner s h) participants ≡ some (holder s h)
  pub fits :
      (s : ℕ) (h : s < length slots)
      → (get_or slots s no_slot).hours_units ≤ (holder s h).remaining_target_units
  pub free :
      (s : ℕ) (h : s < length slots)
      → contains (holder s h).occupied_activity_ids (get_or slots s no_slot).activity_id ≡ false
  pub distinct :
      (s t : ℕ) (hs : s < length slots) (ht : t < length slots) → owner s hs ≡ owner t ht → s ≡ t

find_participant-In :
    (i : TextId) (ps : List FeasibilityParticipant) {p : FeasibilityParticipant}
    → find_participant i ps ≡ some p
    → In (participant_ids ps) i
find_participant-In i [] {p} h = absurd (ground (arith, h))
find_participant-In i (q ∷ ps) {p} h = ground (arith, h, find_participant-In i ps {p = p})

module _ (slots : List FeasibilitySlot) (participants : List FeasibilityParticipant) where
  -- a candidate is found, and can take the slot
  candidate_found :
      (s : ℕ) (i : TextId)
      → candidate_by_id slots participants s i ≡ true
      → (p : FeasibilityParticipant) × (find_participant i participants ≡ some p)
        × ((get_or slots s no_slot).hours_units ≤ p.remaining_target_units)
        × (contains p.occupied_activity_ids (get_or slots s no_slot).activity_id ≡ false)
  unfolding is_candidate
  candidate_found s i h = elim (Option-cases (find_participant i participants)) [
    | inl e ↦ absurd (ground (arith, h, e))
    | inr (p, e) ↦ (p, e, ground (arith, h, e), ground (arith, h, e))
  ]

  found_candidate :
      (s : ℕ) (i : TextId) (p : FeasibilityParticipant)
      → find_participant i participants ≡ some p
      → (get_or slots s no_slot).hours_units ≤ p.remaining_target_units
      → contains p.occupied_activity_ids (get_or slots s no_slot).activity_id ≡ false
      → candidate_by_id slots participants s i ≡ true
  unfolding is_candidate
  found_candidate s i p e fits free = ground (arith, e, fits, free)

-- The guards' `_activity_has_matching` answers True exactly when the slots can have different
-- participants, found by their identifiers, that have the hours for them and do not occupy the
-- activity.
pub guard_matching_iff :
    (slots : List FeasibilitySlot) (participants : List FeasibilityParticipant)
    → (activity_has_matching slots participants ≡ true) ↔ DistinctParticipants slots participants
unfolding activity_has_matching
guard_matching_iff slots participants = (λ h. there (both.0 h), λ d. both.1 (back d))
  where
    both :
        (activity_has_matching slots participants ≡ true)
        ↔ Matching
            (candidate_by_id slots participants)
            (participant_ids participants)
            (length slots)
    both =
        match_slots_iff (candidate_by_id slots participants) (participant_ids participants)
          (length slots)

    there :
        Matching (candidate_by_id slots participants) (participant_ids participants) (length slots)
        → DistinctParticipants slots participants
    there f = record {
      owner = f.owner;
      holder = λ s h. (candidate_found slots participants s (f.owner s h) (f.fits s h)).0;
      found = λ s h. (candidate_found slots participants s (f.owner s h) (f.fits s h)).1;
      fits = λ s h. (candidate_found slots participants s (f.owner s h) (f.fits s h)).2;
      free = λ s h. (candidate_found slots participants s (f.owner s h) (f.fits s h)).3;
      distinct = f.distinct;
    }

    back :
        DistinctParticipants slots participants
        → Matching
            (candidate_by_id slots participants)
            (participant_ids participants)
            (length slots)
    back d = record {
      owner = d.owner;
      known = λ s h. find_participant-In (d.owner s h) participants (d.found s h);
      fits = λ s h.
          found_candidate slots participants s (d.owner s h) (d.holder s h) (d.found s h)
            (d.fits s h) (d.free s h);
      distinct = d.distinct;
    }
