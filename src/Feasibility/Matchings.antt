-- ===== src/Feasibility/Matchings.antt =====
-- `_activity_has_matching` decides whether the slots of an activity can have different participants.
use reparto_docente_m.Prelude.{
  ℕ, zero, suc, Bool, true, false, ◌+◌, ◌<◌, ◌≤◌, none, some, List, [], ◌≡◌, refl, sym, ap, ◌∙◌,
  ◌↔◌, inl, inr, contains, length, get_or, indices_from, subst, arith, Bool-cases, In,
  pigeonhole_by, length-without, In-without, without, ==_iff, ◌==◌,
}
use mathlib.Core.Option.{some-injective}
use reparto_docente_m.Feasibility.Matching.{
  Matches, Augment, matched, unmatched, out_of_fuel, augment, depth, match_slots, no_slot,
  is_activity_candidate, candidate_at, activity_has_matching,
}
use reparto_docente_m.Feasibility.Types.{TextId, FeasibilitySlot}
use reparto_docente_m.Feasibility.Augment.{
  Owns, IsInjective, IsReady, Rematched, Blocked, Augmented,
}
use reparto_docente_m.Feasibility.AugmentLoop.{augment-Deep}

-- Every slot below `n` has a participant among the keys that can take it, and no two have the same.
pub record Matching (can : ℕ → ℕ → Bool) (keys : List ℕ) (n : ℕ) : Type 0 where
  pub owner : (s : ℕ) → s < n → ℕ
  pub known : (s : ℕ) (h : s < n) → In keys (owner s h)
  pub fits : (s : ℕ) (h : s < n) → can s (owner s h) ≡ true
  pub distinct : (s t : ℕ) (hs : s < n) (ht : t < n) → owner s hs ≡ owner t ht → s ≡ t

module _ (can : ℕ → ℕ → Bool) (keys : List ℕ) where
  -- The slots below `k` have their participants, and no others.
  record Matched (k : ℕ) (m : Matches) : Type 0 where
    pub sound : (q t : ℕ) → m q ≡ some t → (can t q ≡ true) × In keys q
    pub below : (q t : ℕ) → m q ≡ some t → t < k
    pub injective : IsInjective m []
    pub covers : (t : ℕ) → t < k → Owns m [] t

  Matched-IsReady : (k : ℕ) (m : Matches) → Matched k m → IsReady can keys [] k m
  Matched-IsReady k m x = record {
    sound = x.sound;
    injective = x.injective;
    fresh = λ q out e. omega (arith, x.below q k e);
  }

  Rematched-Matched :
      (k : ℕ) (m m' : Matches) → Matched k m → Rematched can keys [] k m m' → Matched (suc k) m'
  Rematched-Matched k m m' x r = record {
    sound = r.sound;
    below = λ q t e. elim (r.owns t (q, refl, e)) [
      | inl (u, out, eu) ↦ omega (arith, x.below u t eu)
      | inr same ↦ omega (arith, same)
    ];
    injective = r.injective;
    covers = λ t h. elim (Bool-cases (t == k)) [
      | inl same ↦ rw ((==_iff t k).0 same) r.takes
      | inr ne ↦ r.covers t (x.covers t (ground (arith, h, ne)))
    ];
  }

  Matched-Matching : (n : ℕ) (m : Matches) → Matched n m → Matching can keys n
  Matched-Matching n m x = record {
    owner = λ s h. (x.covers s h).0;
    known = λ s h. (x.sound (x.covers s h).0 s (x.covers s h).2).1;
    fits = λ s h. (x.sound (x.covers s h).0 s (x.covers s h).2).0;
    distinct =
        λ s t hs ht e. some-injective _ _ (sym (x.covers s hs).2 ∙ ap m e ∙ (x.covers t ht).2);
  }

  -- The visited participants of a failed call would need one more.
  module _ (n k : ℕ) (lt : k < n) (m : Matches) (W : List ℕ) (x : Matched k m)
      (b : Blocked can keys [] keys k m W) (f : Matching can keys n) where
    held_by :
        (q : ℕ)
        → In W q
        → (t : ℕ) × (m q ≡ some t) × ((r : ℕ) → In keys r → can t r ≡ true → In W r)
    held_by q i = elim (b.stuck q i) [ inl e ↦ ground (arith, e) | inr s ↦ s ]

    -- A visited participant leads to the owner, in the other matching, of the slot that it holds.
    abbrev Leads : ℕ → ℕ → Type 0
    Leads q b = (t : ℕ) × (h : t < n) × (m q ≡ some t) × (f.owner t h ≡ b)

    Leads-injective : (q r b : ℕ) → Leads q b → Leads r b → q ≡ r
    Leads-injective q r b (t, h, e, o) (u, g, e', o') =
        x.injective q r t refl refl e (e' ∙ ap some (f.distinct u t g h (o' ∙ sym o)))

    leads : (q : ℕ) → In W q → (b : ℕ) × In (without (f.owner k lt) W) b × Leads q b
    leads q i =
        let (t, e, closed) = held_by q i in
        let h : t < n = omega (arith, lt, x.below q t e) in
        (
          f.owner t h,
          In-without (f.owner k lt) (f.owner t h) W
              (closed (f.owner t h) (f.known t h) (f.fits t h))
              (λ same. omega (arith, x.below q t e, f.distinct t k h lt same)),
          (t, h, e, refl),
        )

    Blocked-contradiction : ⊥
    Blocked-contradiction = omega (
      arith,
      pigeonhole_by Leads Leads-injective W (without (f.owner k lt) W) b.distinct leads,
      length-without (f.owner k lt) W (b.closed (f.owner k lt) (f.known k lt) (f.fits k lt)),
    )

  call-Augmented :
      (k : ℕ) (m : Matches)
      → Matched k m
      → Augmented can keys [] keys k m (augment can keys (depth can keys) k m [])
  call-Augmented k m x =
      augment-Deep can keys (depth can keys) k m [] (Matched-IsReady k m x) tt
        (λ q h. ground (arith, h)) (omega arith)

  match_slots_iff_from :
      (count k n : ℕ) (m : Matches)
      → k + count ≡ n
      → Matched k m
      → (match_slots can keys count k m ≡ true) ↔ Matching can keys n
  unfolding match_slots
  match_slots_iff_from zero k n m e x =
      (λ h. Matched-Matching n m (subst (λ j. Matched j m) (omega (arith, e)) x), λ f. refl)
  match_slots_iff_from (suc count) k n m e x =
      after (augment can keys (depth can keys) k m []) (call-Augmented k m x)
        (λ m'. match_slots_iff_from count (suc k) n m' (omega (arith, e)))
    where
      after :
          (out : Augment)
          → Augmented can keys [] keys k m out
          → ((m' : Matches)
              → Matched (suc k) m'
              → (match_slots can keys count (suc k) m' ≡ true) ↔ Matching can keys n)
          → ((elim out [
            | matched m' _ ↦ match_slots can keys count (suc k) m'
            | unmatched _ ↦ false
            | out_of_fuel ↦ false
          ])
              ≡ true)
            ↔ Matching can keys n
      after (matched m' V) r rest = rest m' (Rematched-Matched k m m' x r)
      after out_of_fuel r rest = elim r [ ]
      after (unmatched W) b rest = (
        λ h. absurd (ground (arith, h)),
        λ f. absurd (Blocked-contradiction n k (omega (arith, e)) m W x b f),
      )

  -- The answer is True exactly when there is a matching of all `n` slots.
  pub match_slots_iff :
      (n : ℕ) → (match_slots can keys n 0 (λ _. none) ≡ true) ↔ Matching can keys n
  match_slots_iff n =
      match_slots_iff_from n 0 n (λ _. none) (omega arith)
        (record {
          sound = λ q t e. absurd (ground (arith, e));
          below = λ q t e. absurd (ground (arith, e));
          injective = λ q r t qv rv e e'. absurd (ground (arith, e));
          covers = λ t h. absurd (omega (arith, h));
        })

-- Different participants for the slots of one activity: each has hours enough for its slot and does
-- not occupy the slot's activity.
pub record DistinctTeachers (items : List FeasibilitySlot) (remaining : List ℕ)
    (occupied : List (List TextId)) : Type 0 where
  pub owner : (s : ℕ) → s < length items → ℕ
  pub known : (s : ℕ) (h : s < length items) → owner s h < length remaining
  pub fits :
      (s : ℕ) (h : s < length items)
      → (get_or items s no_slot).hours_units ≤ get_or remaining (owner s h) 0
  pub free :
      (s : ℕ) (h : s < length items)
      → contains (get_or occupied (owner s h) []) (get_or items s no_slot).activity_id ≡ false
  pub distinct :
      (s t : ℕ) (hs : s < length items) (ht : t < length items) → owner s hs ≡ owner t ht → s ≡ t

In-indices_from : (n i q : ℕ) → In (indices_from n i) q ↔ ((i ≤ q) × (q < i + n))
In-indices_from zero i q = (λ h. ground (arith, h), λ h. absurd (omega (arith, h.0, h.1)))
In-indices_from (suc n) i q = ground (arith, In-indices_from n (suc i) q)

-- `_activity_has_matching` answers True exactly when the slots can have different participants that
-- have the hours for them and do not occupy the activity.
pub activity_has_matching_iff :
    (items : List FeasibilitySlot) (remaining : List ℕ) (occupied : List (List TextId))
    → (activity_has_matching items remaining occupied ≡ true)
      ↔ DistinctTeachers items remaining occupied
unfolding activity_has_matching is_activity_candidate
activity_has_matching_iff items remaining occupied = (λ h. there (both.0 h), λ d. both.1 (back d))
  where
    both :
        (activity_has_matching items remaining occupied ≡ true)
        ↔ Matching
            (candidate_at items remaining occupied)
            (indices_from (length remaining) 0)
            (length items)
    both =
        match_slots_iff (candidate_at items remaining occupied) (indices_from (length remaining) 0)
          (length items)

    there :
        Matching
          (candidate_at items remaining occupied)
          (indices_from (length remaining) 0)
          (length items)
        → DistinctTeachers items remaining occupied
    there f = record {
      owner = f.owner;
      known = λ s h.
          omega (arith, ((In-indices_from (length remaining) 0 (f.owner s h)).0 (f.known s h)).1);
      fits = λ s h. ground (arith, f.fits s h);
      free = λ s h. ground (arith, f.fits s h);
      distinct = f.distinct;
    }

    back :
        DistinctTeachers items remaining occupied
        → Matching
            (candidate_at items remaining occupied)
            (indices_from (length remaining) 0)
            (length items)
    back d = record {
      owner = d.owner;
      known = λ s h.
          (In-indices_from (length remaining) 0 (d.owner s h)).1
            (omega arith, omega (arith, d.known s h));
      fits = λ s h. ground (arith, d.fits s h, d.free s h);
      distinct = d.distinct;
    }
