-- ===== src/Feasibility/Augment.antt =====
-- What one call of the augmenting-path search does to a matching, by how it ends.
use reparto_docente_m.Prelude.{
  ℕ, Bool, true, false, ◌==◌, some, List, ◌∷◌, ◌≡◌, ◌≢◌, ◌⊎◌, inl, inr, contains, arith, Bool-cases,
  In, IsDistinct, ==_refl, ==_ne,
}
use reparto_docente_m.Feasibility.Matching.{
  Matches, match_to, Augment, matched, unmatched, out_of_fuel,
}

-- A participant outside the visited ones has the slot.
abbrev pub Owns : Matches → List ℕ → ℕ → Type 0
Owns m V t = (q : ℕ) × (contains V q ≡ false) × (m q ≡ some t)

-- No two participants outside the visited ones have one slot.
abbrev pub IsInjective : Matches → List ℕ → Type 0
IsInjective m V =
    (q r t : ℕ) → contains V q ≡ false → contains V r ≡ false → m q ≡ some t → m r ≡ some t → q ≡ r

module _ (can : ℕ → ℕ → Bool) (keys : List ℕ) where
  -- Every match is of a participant with a slot that it can take.
  abbrev pub IsSound : Matches → Type 0
  IsSound m = (q t : ℕ) → m q ≡ some t → (can t q ≡ true) × In keys q

  -- before a call: the slot is without a participant
  pub record IsReady (V : List ℕ) (slot : ℕ) (m : Matches) : Type 0 where
    pub sound : IsSound m
    pub injective : IsInjective m V
    pub fresh : (q : ℕ) → contains V q ≡ false → m q ≢ some slot

  -- after a success: the slot has got one, and every other slot that had one still has
  pub record Rematched (V : List ℕ) (slot : ℕ) (m m' : Matches) : Type 0 where
    pub sound : IsSound m'
    pub kept : (q : ℕ) → In V q → m' q ≡ m q
    pub injective : IsInjective m' V
    pub owns : (t : ℕ) → Owns m' V t → Owns m V t ⊎ (t ≡ slot)
    pub covers : (t : ℕ) → Owns m V t → Owns m' V t
    pub takes : Owns m' V slot

  -- The visited participants hold slots whose candidates have all been visited.
  abbrev pub IsStuck : List ℕ → List ℕ → Matches → Type 0
  IsStuck V W m =
      (q : ℕ)
      → In W q
      → In V q ⊎ ((t : ℕ) × (m q ≡ some t) × ((r : ℕ) → In keys r → can t r ≡ true → In W r))

  -- after a failure over the participants `ps`: all candidates have been visited
  pub record Blocked (V ps : List ℕ) (slot : ℕ) (m : Matches) (W : List ℕ) : Type 0 where
    pub grown : (q : ℕ) → In V q → In W q
    pub distinct : IsDistinct W
    pub within : (q : ℕ) → In W q → In keys q
    pub closed : (q : ℕ) → In ps q → can slot q ≡ true → In W q
    pub stuck : IsStuck V W m

  abbrev pub Augmented : List ℕ → List ℕ → ℕ → Matches → Augment → Type 0
  Augmented V ps slot m (matched m' W) = Rematched V slot m m'
  Augmented V ps slot m (unmatched W) = Blocked V ps slot m W
  Augmented V ps slot m out_of_fuel = ⊥

  module _ (V : List ℕ) (slot p : ℕ) (m m1 : Matches) where
    -- The participant takes the slot, once the slot that it had is with another.
    pub match_to-Rematched :
        IsReady V slot m
        → contains V p ≡ false
        → can slot p ≡ true
        → In keys p
        → IsSound m1
        → ((q : ℕ) → In V q → m1 q ≡ m q)
        → IsInjective m1 (p ∷ V)
        → ((t : ℕ) → Owns m1 (p ∷ V) t → Owns m V t)
        → ((t : ℕ) → Owns m V t → Owns m1 (p ∷ V) t)
        → Rematched V slot m (match_to m1 p slot)
    match_to-Rematched ready new fits known sound1 kept1 inj1 owns1 covers1 = record {
      sound = sound;
      kept = λ q h. rw (other q (λ e. ground (arith, e, h, new))) (kept1 q h);
      injective = injective;
      owns = λ t o. owns t o (Bool-cases (o.0 == p));
      covers = λ t o. widen t (covers1 t o);
      takes = (p, new, here);
    }
      where
        here : match_to m1 p slot p ≡ some slot
        here = rw (==_refl p)

        other : (q : ℕ) → q ≢ p → match_to m1 p slot q ≡ m1 q
        other q ne = rw (==_ne q p ne)

        widen : (t : ℕ) → Owns m1 (p ∷ V) t → Owns (match_to m1 p slot) V t
        widen t (q, out, e) = (q, ground (arith, out), rw (other q (λ r. ground (arith, r, out))) e)

        lost : (q : ℕ) → q ≢ p → contains V q ≡ false → m1 q ≢ some slot
        lost q ne out e =
            let o : Owns m V slot = owns1 slot (q, ground (arith, ne, out), e) in
            ready.fresh o.0 o.1 o.2

        sound : IsSound (match_to m1 p slot)
        sound q t e = elim (Bool-cases (q == p)) [
          | inl same ↦ ground (arith, e, same, fits, known)
          | inr ne ↦ sound1 q t (ground (arith, e, ne))
        ]

        owns :
            (t : ℕ) (o : Owns (match_to m1 p slot) V t)
            → ((o.0 == p) ≡ true) ⊎ ((o.0 == p) ≡ false)
            → Owns m V t ⊎ (t ≡ slot)
        owns t (q, out, e) (inl same) = inr (ground (arith, e, same))
        owns t (q, out, e) (inr ne) =
            inl (owns1 t (q, ground (arith, ne, out), ground (arith, e, ne)))

        injective : IsInjective (match_to m1 p slot) V
        injective q r t qv rv eq er = elim (Bool-cases (q == p)) [
          | inl a ↦ elim (Bool-cases (r == p)) [
            | inl b ↦ ground (arith, a, b)
            | inr b ↦ absurd (lost r (λ e. ground (arith, e, b)) rv (ground (arith, a, b, eq, er)))
          ]
          | inr a ↦ elim (Bool-cases (r == p)) [
            | inl b ↦ absurd (lost q (λ e. ground (arith, e, a)) qv (ground (arith, a, b, eq, er)))
            | inr b ↦
                inj1 q r t (ground (arith, a, qv)) (ground (arith, b, rv)) (ground (arith, a, eq))
                  (ground (arith, b, er))
          ]
        ]
