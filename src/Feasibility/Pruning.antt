-- ===== src/Feasibility/Pruning.antt =====
-- The pruning tests of the search refuse no state that has an exact assignment.
use reparto_docente_m.Prelude.{
  ℕ, zero, suc, true, false, ◌≤◌, ◌<◌, List, [], ◌∷◌, ◌≡◌, refl, contains, get_or, length, arith,
}
use reparto_docente_m.Feasibility.Types.{TextId, FeasibilitySlot}
use reparto_docente_m.Feasibility.Residual.{maximum, first_too_large, residual_state_possible}
use reparto_docente_m.Feasibility.Exact.{Exact, Exact-uncons}
use reparto_docente_m.Feasibility.Reachable.{Exact-targets_reachable}
use reparto_docente_m.Feasibility.Pools.{Exact-distinct_pools_sufficient}

pub get_or-maximum : (xs : List ℕ) (i : ℕ) → i < length xs → get_or xs i 0 ≤ maximum xs
get_or-maximum [] i h = absurd (omega (arith, h))
get_or-maximum (x ∷ xs) zero h = omega arith
get_or-maximum (x ∷ xs) (suc i) h = omega (arith, get_or-maximum xs i (omega (arith, h)))

-- the owners are exact for these targets and these occupied activities
abbrev pub IsExactIn : List ℕ → List (List TextId) → List FeasibilitySlot → List ℕ → Type 0
IsExactIn remaining occupied ss os =
    Exact (length remaining) (λ i. get_or remaining i 0) (λ i a. contains (get_or occupied i []) a)
      ss os

first_fits :
    (remaining : List ℕ) (occupied : List (List TextId)) (ss : List FeasibilitySlot) (os : List ℕ)
    → IsExactIn remaining occupied ss os
    → first_too_large ss remaining ≡ false
first_fits remaining occupied [] os x = refl
first_fits remaining occupied (s ∷ ss) [] x = absurd (omega (arith, x.complete))
first_fits remaining occupied (s ∷ ss) (o ∷ os) x =
    let (lt, fits, free, rest) =
      Exact-uncons (length remaining) (λ i. get_or remaining i 0)
        (λ i a. contains (get_or occupied i []) a) s ss o os x in
    ground (arith, fits, get_or-maximum remaining o lt)

-- `_residual_state_possible` answers True wherever the slots that are left have an exact assignment:
-- every target met to the hundredth, and nobody with an activity twice, counting those they occupy.
pub residual_state_possible_lem :
    (remaining : List ℕ) (occupied : List (List TextId)) (ss : List FeasibilitySlot) (os : List ℕ)
    → IsExactIn remaining occupied ss os
    → residual_state_possible remaining occupied ss ≡ true
unfolding residual_state_possible
residual_state_possible_lem remaining occupied ss os x =
    rw
      (
        first_fits remaining occupied ss os x,
        Exact-targets_reachable remaining occupied ss os x,
        Exact-distinct_pools_sufficient remaining occupied ss os x,
      )
      refl
