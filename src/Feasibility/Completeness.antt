-- ===== src/Feasibility/Completeness.antt =====
-- The bounded search overlooks nothing: where it fails, nothing completes its state.
use reparto_docente_m.Prelude.{
  ℕ, zero, suc, true, false, not, ◌⊎◌, ◌&&◌, ◌+◌, ◌≤◌, ◌<◌, leb, ◌==◌, List, [], ◌∷◌, ◌≡◌, refl,
  subst, sym, ◌∙◌, get_or, length, contains, All, keep, indices_from, list_eq, list_eq_sound, arith,
  Bool-cases, inl, inr, In, ==_iff,
}
use reparto_docente_m.Prelude.Sort.{sort_ids}
use reparto_docente_m.Feasibility.Types.{TextId, FeasibilitySlot, SolverLimits}
use reparto_docente_m.Feasibility.Search.{
  Workspace, Outcome, found, failed, stopped, StateKey, Signature, assign, unassign,
  candidate_indices, try_candidates, seen_before, signature, remember,
}
use reparto_docente_m.Feasibility.Exact.{Exact-uncons}
use reparto_docente_m.Feasibility.Workspaces.{IsReady, CanTake}
use reparto_docente_m.Feasibility.Soundness.{
  Searched, Restores, assign-IsReady, failed-Searched, CanTake-restored, IsReady-restored,
}
use reparto_docente_m.Feasibility.Refutation.{
  Dead, IsDeadKey, Refuted, assign-Refuted, same_signature-Refuted,
}

-- A failure has refuted the state, and remembers dead states alone.
abbrev pub Refutes :
    List FeasibilitySlot → List FeasibilitySlot → List ℕ → List (List TextId) → Outcome → Type 0
Refutes slots ss remaining occupied (found w') = Unit
Refutes slots ss remaining occupied (failed w') =
    Dead remaining occupied ss × All (IsDeadKey slots) w'.memo
Refutes slots ss remaining occupied (stopped code w') = Unit

module _ (s : FeasibilitySlot) (ss : List FeasibilitySlot) where
  -- Whoever can take the slot is still to be tried, or refuted.
  abbrev pub Covered : List ℕ → List (List TextId) → List ℕ → Type 0
  Covered remaining occupied ps =
      (i : ℕ)
      → i < length remaining
      → s.hours_units ≤ get_or remaining i 0
      → contains (get_or occupied i []) s.activity_id ≡ false
      → In ps i ⊎ Refuted remaining occupied s ss i

  -- Each signature seen is that of a refuted participant.
  abbrev pub IsSeen : List ℕ → List (List TextId) → Signature → Type 0
  IsSeen remaining occupied (target, busy) =
      (i : ℕ) × (i < length remaining)
      × (get_or remaining i 0 ≡ target)
      × (sort_ids (get_or occupied i []) ≡ busy)
      × Refuted remaining occupied s ss i

  Covered-Dead :
      (remaining : List ℕ) (occupied : List (List TextId))
      → Covered remaining occupied []
      → Dead remaining occupied (s ∷ ss)
  Covered-Dead remaining occupied c [] x = omega (arith, x.complete)
  Covered-Dead remaining occupied c (o ∷ os) x =
      let (lt, fits, free, rest) =
        Exact-uncons (length remaining) (λ i. get_or remaining i 0)
          (λ i a. contains (get_or occupied i []) a) s ss o os x in
      elim (c o lt fits free) [ inl i ↦ ground (arith, i) | inr r ↦ r os x ]

  Covered-next :
      (remaining : List ℕ) (occupied : List (List TextId)) (p : ℕ) (ps : List ℕ)
      → Refuted remaining occupied s ss p
      → Covered remaining occupied (p ∷ ps)
      → Covered remaining occupied ps
  Covered-next remaining occupied p ps r c i lt fits free = elim (c i lt fits free) [
    | inl m ↦ elim (Bool-cases (i == p)) [
      | inl e ↦ inr (subst (λ j. Refuted remaining occupied s ss j) (sym ((==_iff i p).0 e)) r)
      | inr e ↦ inl (ground (arith, m, e))
    ]
    | inr x ↦ inr x
  ]

  seen_before-Refuted :
      (w : Workspace) (p : ℕ) (seen : List Signature)
      → p < length w.remaining
      → All (IsSeen w.remaining w.occupied) seen
      → seen_before (signature p w) seen ≡ true
      → Refuted w.remaining w.occupied s ss p
  unfolding signature
  seen_before-Refuted w p [] lt a h = absurd (ground (arith, h))
  seen_before-Refuted w p ((target, busy) ∷ seen) lt ((q, ltq, et, eb, r), a) h =
      elim (Bool-cases
        (get_or w.remaining p 0 == target && list_eq (sort_ids (get_or w.occupied p [])) busy)) [
          | inl e ↦
              same_signature-Refuted s ss w p q lt ltq (ground (arith, e, et))
                (list_eq_sound (sort_ids (get_or w.occupied p [])) busy (ground (arith, e))
                  ∙ sym eb)
                r
          | inr e ↦ seen_before-Refuted w p seen lt a (ground (arith, e, h))
        ]

  candidates_cover :
      (w : Workspace) (count i j : ℕ)
      → i ≤ j
      → j < i + count
      → s.hours_units ≤ get_or w.remaining j 0
      → contains (get_or w.occupied j []) s.activity_id ≡ false
      → In
          (keep
            (λ i.
              leb s.hours_units (get_or w.remaining i 0)
              && not (contains (get_or w.occupied i []) s.activity_id))
            (indices_from count i))
          j
  candidates_cover w zero i j le lt fits free = absurd (omega (arith, le, lt))
  candidates_cover w (suc count) i j le lt fits free = elim (Bool-cases (i == j)) [
    | inl e ↦ rw ((==_iff i j).0 e) (ground (arith, fits, free))
    | inr e ↦ ground (
      arith,
      candidates_cover w count (suc i) j (ground (arith, le, e)) (omega (arith, lt)) fits free,
    )
  ]

  pub candidate_indices-Covered :
      (w : Workspace) → Covered w.remaining w.occupied (candidate_indices s w)
  unfolding candidate_indices
  candidate_indices-Covered w i lt fits free =
      inl (candidates_cover w (length w.remaining) 0 i (omega arith) (omega (arith, lt)) fits free)

module _ (slots ts : List FeasibilitySlot) (w v : Workspace) where
  Refutes-restored :
      v.remaining ≡ w.remaining
      → v.occupied ≡ w.occupied
      → (out : Outcome) → Refutes slots ts v.remaining v.occupied out
      → Refutes slots ts w.remaining w.occupied out
  Refutes-restored er eo out h =
      subst (λ r. Refutes slots ts r w.occupied out) er
        (subst (λ o. Refutes slots ts v.remaining o out) eo h)

module _ (limits : SolverLimits) (elapsed : ℕ → ℕ) (slots : List FeasibilitySlot)
    (s : FeasibilitySlot) (ss : List FeasibilitySlot) (k : ℕ) (key : StateKey)
    (deeper : Workspace → Outcome)
    (restores : (v : Workspace) → IsReady (suc k) ss v → Searched (suc k) ss v (deeper v))
    (refutes : (v : Workspace)
      → IsReady (suc k) ss v
      → All (IsDeadKey slots) v.memo
      → Refutes slots ss v.remaining v.occupied (deeper v)) where
  -- what the loop over these candidates needs of the workspace
  pub record IsLooping (ps : List ℕ) (seen : List Signature) (w : Workspace) : Type 0 where
    pub ready : IsReady k (s ∷ ss) w
    pub can : All (CanTake w s) ps
    pub covered : Covered s ss w.remaining w.occupied ps
    pub looked : All (IsSeen s ss w.remaining w.occupied) seen
    pub key_dead : Dead w.remaining w.occupied (s ∷ ss) → IsDeadKey slots key

  IsLooping-next :
      (p : ℕ) (ps : List ℕ) (seen : List Signature) (w : Workspace)
      → Refuted w.remaining w.occupied s ss p
      → IsLooping (p ∷ ps) seen w
      → IsLooping ps seen w
  IsLooping-next p ps seen w r l = record {
    ready = l.ready;
    can = l.can.1;
    covered = Covered-next s ss w.remaining w.occupied p ps r l.covered;
    looked = l.looked;
    key_dead = l.key_dead;
  }

  IsLooping-seen :
      (p : ℕ) (ps : List ℕ) (seen : List Signature) (w : Workspace)
      → p < length w.remaining
      → Refuted w.remaining w.occupied s ss p
      → IsLooping ps seen w
      → IsLooping ps (signature p w ∷ seen) w
  unfolding signature
  IsLooping-seen p ps seen w lt r l = record {
    ready = l.ready;
    can = l.can;
    covered = l.covered;
    looked = ((p, lt, refl, refl, r), l.looked);
    key_dead = l.key_dead;
  }

  IsLooping-restored :
      (ps : List ℕ) (seen : List Signature) (w v : Workspace)
      → Restores k w v
      → IsLooping ps seen w
      → IsLooping ps seen v
  IsLooping-restored ps seen w v back l = record {
    ready = IsReady-restored s k w v back (s ∷ ss) l.ready;
    can = CanTake-restored s k w v back ps l.can;
    covered = rw (back.0, back.1) l.covered;
    looked = rw (back.0, back.1) l.looked;
    key_dead = rw (back.0, back.1) l.key_dead;
  }

  pub try_candidates-Refutes :
      (ps : List ℕ) (seen : List Signature) (w : Workspace)
      → IsLooping ps seen w
      → All (IsDeadKey slots) w.memo
      → Refutes slots
          (s ∷ ss)
          w.remaining
          w.occupied
          (try_candidates limits elapsed deeper s k key ps seen w)
  unfolding try_candidates
  try_candidates-Refutes [] seen w l memo =
      let dead : Dead w.remaining w.occupied (s ∷ ss) =
        Covered-Dead s ss w.remaining w.occupied l.covered in
      unfold remember in (dead, (l.key_dead dead, memo))
  try_candidates-Refutes (p ∷ ps) seen w l memo =
      elim (Bool-cases (seen_before (signature p w) seen)) [
        | inl old ↦ rw old (
            try_candidates-Refutes ps seen w
              (IsLooping-next p ps seen w (seen_before-Refuted s ss w p seen l.can.0.0 l.looked old)
                l)
              memo)
        | inr new ↦ rw new (
            after (try_candidates-Refutes ps (signature p w ∷ seen)) (deeper (assign s k p w))
              (restores (assign s k p w) (assign-IsReady s ss k p w l.ready))
              (refutes (assign s k p w) (assign-IsReady s ss k p w l.ready)
                (unfold assign in memo)))
      ]
    where
      after :
          ((v : Workspace)
            → IsLooping ps (signature p w ∷ seen) v
            → All (IsDeadKey slots) v.memo
            → Refutes slots
                (s ∷ ss)
                v.remaining
                v.occupied
                (try_candidates limits elapsed deeper s k key ps (signature p w ∷ seen) v))
          → (out : Outcome) → Searched (suc k) ss (assign s k p w) out
          → Refutes slots ss (assign s k p w).remaining (assign s k p w).occupied out
          → Refutes slots (s ∷ ss) w.remaining w.occupied (elim out [
            | found w' ↦ found w'
            | failed w' ↦
                try_candidates limits elapsed deeper s k key ps
                  (signature p w ∷ seen)
                  (unassign s k p w')
            | stopped code w' ↦ stopped code w'
          ])
      after rest (found w') h d = tt
      after rest (stopped code w') h d = tt
      after rest (failed w') h d =
          let v : Workspace = unassign s k p w' in
          let back : Restores k w v = failed-Searched s ss k p w w' l.ready l.can.0 h in
          let r : Refuted w.remaining w.occupied s ss p =
            assign-Refuted s ss w k p l.ready.rows l.can.0.0 d.0 in
          Refutes-restored slots (s ∷ ss) w v back.0 back.1 _ (
            rest v
              (IsLooping-restored ps (signature p w ∷ seen) w v back
                (IsLooping-seen p ps seen w l.can.0.0 r (IsLooping-next p ps seen w r l)))
              (unfold unassign in d.1))
