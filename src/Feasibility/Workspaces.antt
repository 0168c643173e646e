-- ===== src/Feasibility/Workspaces.antt =====
-- The workspace of the search, read as targets and occupied activities.
use reparto_docente_m.Prelude.{
  ℕ, zero, suc, Bool, false, not, ◌&&◌, ◌+◌, ◌-◌, ◌≤◌, ◌<◌, leb, ◌==◌, if◌then◌else◌, List, [], ◌∷◌,
  ◌≡◌, contains, get_or, set, length, All, keep, indices_from, arith, update, Bool-cases, inl, inr,
  ==_iff, ==_refl, length-set, get_or-set_self, get_or-set_ne, set-set, set-get_or,
}
use reparto_docente_m.Feasibility.Types.{TextId, FeasibilitySlot}
use reparto_docente_m.Feasibility.Search.{Workspace, assign, unassign, candidate_indices, remove_id}
use reparto_docente_m.Feasibility.Exact.{Exact, occupy, Exact-ext, Exact-cons}

abbrev pub target_at : Workspace → ℕ → ℕ
target_at w i = get_or w.remaining i 0

abbrev pub busy_at : Workspace → ℕ → TextId → Bool
busy_at w i a = contains (get_or w.occupied i []) a

-- The owners are exact for the slots that are left and what the workspace says.
abbrev pub Completes : Workspace → List FeasibilitySlot → List ℕ → Type 0
Completes w ss os = Exact (length w.remaining) (target_at w) (busy_at w) ss os

-- The three lists have the lengths that the search relies on.
pub record IsReady (index : ℕ) (ss : List FeasibilitySlot) (w : Workspace) : Type 0 where
  pub rows : length w.occupied ≡ length w.remaining
  pub room : length w.assignment ≡ index + length ss

-- The guard of `_candidate_indices`.
abbrev pub CanTake : Workspace → FeasibilitySlot → ℕ → Type 0
CanTake w s p =
    (p < length w.remaining) × (s.hours_units ≤ target_at w p) × (busy_at w p s.activity_id ≡ false)

module _ (s : FeasibilitySlot) (w : Workspace) where
  candidates_from :
      (count i : ℕ)
      → i + count ≡ length w.remaining
      → All (CanTake w s) (
          keep
            (λ i.
              leb s.hours_units (get_or w.remaining i 0)
              && not (contains (get_or w.occupied i []) s.activity_id))
            (indices_from count i))
  candidates_from zero i h = tt
  candidates_from (suc count) i h = ground (arith, candidates_from count (suc i) (omega arith))

  -- Every candidate passes the guard.
  pub candidate_indices-CanTake : All (CanTake w s) (candidate_indices s w)
  unfolding candidate_indices
  candidate_indices-CanTake = candidates_from (length w.remaining) 0 (omega arith)

get_or-set {ℓ} :
    {A : Type ℓ} (xs : List A) (i j : ℕ) (v d : A)
    → i < length xs
    → get_or (set xs i v) j d ≡ (if i == j then v else get_or xs j d)
get_or-set xs i j v d h = elim (Bool-cases (i == j)) [
  | inl e ↦ rw e (subst-index ((==_iff i j).0 e))
  | inr ne ↦ rw ne (get_or-set_ne xs i j v d (λ p. ground (arith, p)))
]
  where
    subst-index : i ≡ j → get_or (set xs i v) j d ≡ v
    subst-index p = rw (← p) (get_or-set_self xs i v d h)

module _ (s : FeasibilitySlot) (index p : ℕ) (w : Workspace)
    (rows : length w.occupied ≡ length w.remaining) (h : p < length w.remaining) where
  pub target_at-assign :
      (i : ℕ)
      → target_at (assign s index p w) i ≡ update (target_at w) p (target_at w p - s.hours_units) i
  unfolding assign
  target_at-assign i = get_or-set w.remaining p i (target_at w p - s.hours_units) 0 h

  pub busy_at-assign :
      (i a : ℕ) → busy_at (assign s index p w) i a ≡ occupy (busy_at w) p s.activity_id i a
  unfolding assign
  busy_at-assign i a =
      rw (get_or-set w.occupied p i (s.activity_id ∷ get_or w.occupied p []) [] (omega arith))
        (ground arith)

  -- A completion after the assignment is one before it, with the slot's owner in front.
  pub Completes-assign :
      (ss : List FeasibilitySlot) (os : List ℕ)
      → s.hours_units ≤ target_at w p
      → busy_at w p s.activity_id ≡ false
      → Completes (assign s index p w) ss os
      → Completes w (s ∷ ss) (p ∷ os)
  Completes-assign ss os fits free x =
      Exact-cons (length w.remaining) (target_at w) (busy_at w) s ss p os h fits free (
        Exact-ext (target_at (assign s index p w))
          (update (target_at w) p (target_at w p - s.hours_units)) (busy_at (assign s index p w))
          (occupy (busy_at w) p s.activity_id) ss os target_at-assign busy_at-assign
          (unfold assign in rw (← length-set w.remaining p (target_at w p - s.hours_units)) x))

remove_id-cons : (a : ℕ) (xs : List ℕ) → remove_id a (a ∷ xs) ≡ xs
remove_id-cons a xs = rw (==_refl a)

-- `_unassign` after `_assign` restores the targets and the occupied activities, also where the
-- deeper search has worked on them and restored them in between.
module _ (s : FeasibilitySlot) (index p : ℕ) (w v : Workspace) where
  pub unassign_restores :
      length w.occupied ≡ length w.remaining
      → p < length w.remaining
      → s.hours_units ≤ target_at w p
      → v.remaining ≡ (assign s index p w).remaining
      → v.occupied ≡ (assign s index p w).occupied
      → ((unassign s index p v).remaining ≡ w.remaining)
        × ((unassign s index p v).occupied ≡ w.occupied)
  unfolding assign unassign
  unassign_restores rows lt fits er eo = (remaining_back, occupied_back)
    where
      back : target_at w p - s.hours_units + s.hours_units ≡ target_at w p
      back = omega arith

      remaining_back : (unassign s index p v).remaining ≡ w.remaining
      remaining_back =
          rw (er, set-set w.remaining p _ _, get_or-set_self w.remaining p _ 0 lt)
            (rw back (set-get_or w.remaining p 0))

      occupied_back : (unassign s index p v).occupied ≡ w.occupied
      occupied_back =
          rw (eo, set-set w.occupied p _ _, get_or-set_self w.occupied p _ [] (omega arith))
            (rw (remove_id-cons s.activity_id (get_or w.occupied p []))
              (set-get_or w.occupied p []))
