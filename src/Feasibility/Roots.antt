-- ===== src/Feasibility/Roots.antt =====
-- The tests at the root refuse no snapshot that has an exact assignment.
use reparto_docente_m.Prelude.{
  ℕ, zero, suc, true, ◌+◌, ◌≤◌, ◌<◌, ◌==◌, if◌then◌else◌, none, List, [], ◌∷◌, ◌≡◌, refl, sym, ap,
  get_or, length, length-map, contains, All, all, sum_by, arith, ==_iff,
}
use reparto_docente_m.Feasibility.Types.{TextId, FeasibilityParticipant, FeasibilitySlot}
use reparto_docente_m.Feasibility.Grouping.{Groups, slots_by_activity}
use reparto_docente_m.Feasibility.Matching.{activity_has_matching}
use reparto_docente_m.Feasibility.Residual.{
  maximum, targets_of, occupied_of, first_oversized, shortfall_in, root_distinct_shortfall,
  root_infeasibility_diagnostic, distinct_pools_sufficient,
}
use reparto_docente_m.Feasibility.Exact.{Exact-ext, load}
use reparto_docente_m.Feasibility.Evaluate.{no_participant}
use reparto_docente_m.Feasibility.Feasible.{IsExactFor, get_or-targets_of, get_or-occupied_of}
use reparto_docente_m.Feasibility.Pools.{Exact-distinct_pools_sufficient}
use reparto_docente_m.Feasibility.Pruning.{IsExactIn, get_or-maximum}

-- the sum of a function below `n`
abbrev total : ℕ → (ℕ → ℕ) → ℕ
total zero f = 0
total (suc n) f = f 0 + total n (λ i. f (suc i))

total_ext : (n : ℕ) (f g : ℕ → ℕ) → ((i : ℕ) → i < n → f i ≡ g i) → total n f ≡ total n g
total_ext zero f g h = refl
total_ext (suc n) f g h = omega (
  arith,
  h 0 (omega arith),
  total_ext n (λ i. f (suc i)) (λ i. g (suc i)) (λ i lt. h (suc i) (omega (arith, lt))),
)

total_add : (n : ℕ) (f g : ℕ → ℕ) → total n (λ i. f i + g i) ≡ total n f + total n g
total_add zero f g = omega arith
total_add (suc n) f g = omega (arith, total_add n (λ i. f (suc i)) (λ i. g (suc i)))

total_zero : (n : ℕ) → total n (λ i. 0) ≡ 0
total_zero zero = refl
total_zero (suc n) = omega (arith, total_zero n)

total_one : (n o h : ℕ) → o < n → total n (λ i. if o == i then h else 0) ≡ h
total_one zero o h lt = absurd (omega (arith, lt))
total_one (suc n) zero h lt = ground (
  arith,
  total_ext n (λ i. if zero == suc i then h else 0) (λ i. 0) (λ i l. ground arith),
  total_zero n,
)
total_one (suc n) (suc o) h lt = ground (
  arith,
  total_ext n (λ i. if suc o == suc i then h else 0) (λ i. if o == i then h else 0)
      (λ i l. ground arith),
  total_one n o h (omega (arith, lt)),
)

-- What all participants own together is what the slots have.
total-load :
    (n : ℕ) (ss : List FeasibilitySlot) (os : List ℕ)
    → length os ≡ length ss
    → All (λ o. o < n) os
    → total n (λ i. load i ss os) ≡ sum_by (λ (s : FeasibilitySlot). s.hours_units) ss
total-load n [] os e k = total_zero n
total-load n (s ∷ ss) [] e k = absurd (omega (arith, e))
total-load n (s ∷ ss) (o ∷ os) e k = omega (
  arith,
  total_add n (λ i. if o == i then s.hours_units else 0) (λ i. load i ss os),
  total_one n o s.hours_units k.0,
  total-load n ss os (omega (arith, e)) k.1,
)

total-targets :
    (ps : List FeasibilityParticipant)
    → total (length ps) (λ i. (get_or ps i no_participant).remaining_target_units)
      ≡ sum_by (λ (p : FeasibilityParticipant). p.remaining_target_units) ps
total-targets [] = refl
total-targets (p ∷ ps) = omega (arith, total-targets ps)

slots_fit :
    (remaining : List ℕ) (ss : List FeasibilitySlot) (os : List ℕ)
    → length os ≡ length ss
    → All (λ o. o < length remaining) os
    → ((i : ℕ) → i < length remaining → load i ss os ≤ get_or remaining i 0)
    → first_oversized (maximum remaining) ss ≡ none
unfolding first_oversized
slots_fit remaining [] os e k l = refl
slots_fit remaining (s ∷ ss) [] e k l = absurd (omega (arith, e))
slots_fit remaining (s ∷ ss) (o ∷ os) e k l = ground (
  arith,
  l o k.0,
  get_or-maximum remaining o k.0,
  slots_fit remaining ss os (omega (arith, e)) k.1 (λ i h. ground (arith, l i h)),
)

no_shortfall :
    (remaining : List ℕ) (occupied : List (List TextId)) (gs : Groups)
    → all (λ (g : TextId × List FeasibilitySlot). activity_has_matching g.1 remaining occupied) gs
      ≡ true
    → shortfall_in remaining occupied gs ≡ none
unfolding shortfall_in
no_shortfall remaining occupied [] h = refl
no_shortfall remaining occupied ((a, items) ∷ gs) h =
    ground (arith, h, no_shortfall remaining occupied gs)

-- the snapshot's targets and occupied activities as the search holds them
pub IsExactFor-IsExactIn :
    (ps : List FeasibilityParticipant) (ss : List FeasibilitySlot) (os : List ℕ)
    → IsExactFor ps ss os
    → IsExactIn (targets_of ps) (occupied_of ps) ss os
IsExactFor-IsExactIn ps ss os x =
    rw (length-map (λ (p : FeasibilityParticipant). p.remaining_target_units) ps) (
      Exact-ext (λ i. (get_or ps i no_participant).remaining_target_units)
        (λ i. get_or (targets_of ps) i 0)
        (λ i a. contains (get_or ps i no_participant).occupied_activity_ids a)
        (λ i a. contains (get_or (occupied_of ps) i []) a) ss os (λ i. sym (get_or-targets_of ps i))
        (λ i a. ap (λ xs. contains xs a) (sym (get_or-occupied_of ps i))) x)

-- A snapshot with an exact assignment passes the tests at the root.
pub root_infeasibility_diagnostic_lem :
    (ps : List FeasibilityParticipant) (ss : List FeasibilitySlot) (os : List ℕ)
    → IsExactFor ps ss os
    → root_infeasibility_diagnostic ps ss ≡ none
unfolding root_infeasibility_diagnostic root_distinct_shortfall
root_infeasibility_diagnostic_lem ps ss os x = rw (totals, fitting) pools
  where
    y : IsExactIn (targets_of ps) (occupied_of ps) ss os
    y = IsExactFor-IsExactIn ps ss os x

    totals :
        (sum_by (λ (p : FeasibilityParticipant). p.remaining_target_units) ps
          == sum_by (λ (s : FeasibilitySlot). s.hours_units) ss)
        ≡ true
    totals = (==_iff _ _).1 (
        omega (
          arith,
          total-targets ps,
          total-load (length ps) ss os x.complete x.known,
          total_ext (length ps) (λ i. load i ss os)
              (λ i. (get_or ps i no_participant).remaining_target_units) x.met,
        ))

    fitting : first_oversized (maximum (targets_of ps)) ss ≡ none
    fitting = slots_fit (targets_of ps) ss os y.complete y.known (λ i h. omega (arith, y.met i h))

    pools : shortfall_in (targets_of ps) (occupied_of ps) (slots_by_activity ss) ≡ none
    pools = no_shortfall (targets_of ps) (occupied_of ps) (slots_by_activity ss) (
        unfold distinct_pools_sufficient in
        Exact-distinct_pools_sufficient (targets_of ps) (occupied_of ps) ss os y)
