-- ===== src/Feasibility/Reachable.antt =====
-- `_targets_reachable` refuses no state that has an exact assignment.
use Prim.Native.Nat.{◌∣◌}
use native.Mathlib.Nat.{dvd-zero, dvd-add, mod-eq-zero_of_dvd}
use reparto_docente_m.Prelude.{
  ℕ, suc, Bool, true, false, not, ◌&&◌, ◌+◌, ◌≤◌, ◌<◌, ◌%◌, ◌==◌, if◌then◌else◌, List, [], ◌∷◌, ◌≡◌,
  refl, ◌∙◌, subst, contains, get_or, length, arith, Bool-cases, ◌⊎◌, inl, inr,
}
use reparto_docente_m.Prelude.Dict.{find_or}
use reparto_docente_m.Feasibility.Types.{TextId, FeasibilitySlot}
use reparto_docente_m.Feasibility.Grouping.{Groups, slots_by_activity}
use reparto_docente_m.Feasibility.Residual.{
  maximum, hours_of, gcd_all, all_hours, best_hours, no_groups, eligible_slots,
  eligible_activity_hours, target_reachable, targets_reachable,
}
use reparto_docente_m.Feasibility.Divisors.{gcd_all_dvd}
use reparto_docente_m.Feasibility.Groups.{slots_of, find_or-slots_by_activity, contains-all_hours}
use reparto_docente_m.Feasibility.Exact.{load, held, Exact}

-- the hours that `i` owns in the activities that pass the test
abbrev load_on : (TextId → Bool) → ℕ → List FeasibilitySlot → List ℕ → ℕ
load_on P i [] os = 0
load_on P i (s ∷ ss) [] = 0
load_on P i (s ∷ ss) (o ∷ os) =
    (if o == i && P s.activity_id then s.hours_units else 0) + load_on P i ss os

module _ (i : ℕ) where
  load-load_on :
      (ss : List FeasibilitySlot) (os : List ℕ) → load i ss os ≡ load_on (λ _. true) i ss os
  load-load_on [] os = refl
  load-load_on (s ∷ ss) [] = refl
  load-load_on (s ∷ ss) (o ∷ os) = ground (arith, load-load_on ss os)

  load_on_mono :
      (P Q : TextId → Bool)
      → ((a : TextId) → P a ≡ true → Q a ≡ true)
      → (ss : List FeasibilitySlot) (os : List ℕ) → load_on P i ss os ≤ load_on Q i ss os
  load_on_mono P Q h [] os = omega arith
  load_on_mono P Q h (s ∷ ss) [] = omega arith
  load_on_mono P Q h (s ∷ ss) (o ∷ os) = ground (arith, h s.activity_id, load_on_mono P Q h ss os)

  load_on-false : (ss : List FeasibilitySlot) (os : List ℕ) → load_on (λ _. false) i ss os ≡ 0
  load_on-false [] os = refl
  load_on-false (s ∷ ss) [] = refl
  load_on-false (s ∷ ss) (o ∷ os) = ground (arith, load_on-false ss os)

  load_on_split :
      (P : TextId → Bool) (a : TextId) (ss : List FeasibilitySlot) (os : List ℕ)
      → load_on P i ss os
        ≡ load_on (λ b. P b && b == a) i ss os + load_on (λ b. P b && not (b == a)) i ss os
  load_on_split P a [] os = refl
  load_on_split P a (s ∷ ss) [] = refl
  load_on_split P a (s ∷ ss) (o ∷ os) = ground (arith, load_on_split P a ss os)

  -- Where no activity has hours, there are none.
  load_on_none :
      (P : TextId → Bool) (ss : List FeasibilitySlot) (os : List ℕ)
      → ((a : TextId) → P a ≡ true → load_on (λ b. b == a) i ss os ≤ 0)
      → load_on P i ss os ≤ 0
  load_on_none P [] os h = omega arith
  load_on_none P (s ∷ ss) [] h = omega arith
  load_on_none P (s ∷ ss) (o ∷ os) h =
      ground (arith, h s.activity_id, load_on_none P ss os (λ a p. ground (arith, h a p)))

  -- One slot of each activity at most: the best of each group bound what is owned.
  load_on-best_hours :
      (ss : List FeasibilitySlot) (os : List ℕ) (gs : Groups) (P : TextId → Bool)
      → ((a : TextId)
          → P a ≡ true
          → load_on (λ b. b == a) i ss os ≤ maximum (hours_of (find_or gs a [])))
      → load_on P i ss os ≤ best_hours gs
  load_on-best_hours ss os [] P h = load_on_none P ss os h
  load_on-best_hours ss os ((b, items) ∷ gs) P h = omega (
    arith,
    load_on_split P b ss os,
    here (Bool-cases (P b)),
    load_on-best_hours ss os gs (λ a. P a && not (a == b)) (λ a p. ground (arith, h a, p)),
  )
    where
      here :
          (P b ≡ true) ⊎ (P b ≡ false)
          → load_on (λ a. P a && a == b) i ss os ≤ maximum (hours_of items)
      here (inl p) =
          let best : load_on (λ a. a == b) i ss os ≤ maximum (hours_of items) =
            ground (arith, h b p) in
          omega (
            arith,
            load_on_mono (λ a. P a && a == b) (λ a. a == b) (λ a e. ground (arith, e)) ss os,
            best,
          )
      here (inr n) = omega (
        arith,
        load_on_mono (λ a. P a && a == b) (λ _. false) (λ a e. ground (arith, e, n)) ss os,
        load_on-false ss os,
      )

  held-load_on :
      (a : TextId) (ss : List FeasibilitySlot) (os : List ℕ)
      → held i a ss os ≡ 0
      → load_on (λ b. b == a) i ss os ≡ 0
  held-load_on a [] os h = refl
  held-load_on a (s ∷ ss) [] h = refl
  held-load_on a (s ∷ ss) (o ∷ os) h = ground (arith, h, held-load_on a ss os)

  module _ (target : ℕ) (busy : List TextId) where
    load_on-maximum :
        (a : TextId) (ss : List FeasibilitySlot) (os : List ℕ)
        → load i ss os ≤ target
        → held i a ss os + (if contains busy a then 1 else 0) ≤ 1
        → load_on (λ b. b == a) i ss os
          ≤ maximum (hours_of (slots_of a (eligible_slots target busy ss)))
    unfolding eligible_slots
    load_on-maximum a [] os l h = omega arith
    load_on-maximum a (s ∷ ss) [] l h = omega arith
    load_on-maximum a (s ∷ ss) (o ∷ os) l h = ground (
      arith,
      l,
      h,
      held-load_on a ss os,
      load_on-maximum a ss os (ground (arith, l)) (ground (arith, h)),
    )

    load_dvd :
        (d : ℕ) (ss : List FeasibilitySlot) (os : List ℕ)
        → load i ss os ≤ target
        → ((a : TextId) → held i a ss os + (if contains busy a then 1 else 0) ≤ 1)
        → ((h : ℕ) → contains (hours_of (eligible_slots target busy ss)) h ≡ true → d ∣ h)
        → d ∣ load i ss os
    unfolding eligible_slots
    load_dvd d [] os l h div = dvd-zero d
    load_dvd d (s ∷ ss) [] l h div = dvd-zero d
    load_dvd d (s ∷ ss) (o ∷ os) l h div =
        let rest : d ∣ load i ss os =
          load_dvd d ss os (ground (arith, l)) (λ a. ground (arith, h a))
            (λ x e. div x (later x e)) in
        elim (Bool-cases (o == i)) [
          | inl e ↦
              rw e (dvd-add d (div s.hours_units (ground (arith, e, l, h s.activity_id))) rest)
          | inr e ↦ rw e (dvd-add d (dvd-zero d) rest)
        ]
      where
        later :
            (x : ℕ)
            → contains (hours_of (eligible_slots target busy ss)) x ≡ true
            → contains (hours_of (eligible_slots target busy (s ∷ ss))) x ≡ true
        later x e = ground (arith, e)

    -- What an exact assignment gives the participant can be reached.
    load-target_reachable :
        (ss : List FeasibilitySlot) (os : List ℕ)
        → load i ss os ≡ target
        → ((a : TextId) → held i a ss os + (if contains busy a then 1 else 0) ≤ 1)
        → target_reachable target (eligible_activity_hours target busy ss) ≡ true
    unfolding target_reachable eligible_activity_hours
    load-target_reachable ss os l h = ground (
      arith,
      bounded,
      filled (slots_by_activity (eligible_slots target busy ss)) bounded,
      divided,
    )
      where
        bounded : target ≤ best_hours (slots_by_activity (eligible_slots target busy ss))
        bounded = omega (
          arith,
          l,
          load-load_on ss os,
          load_on-best_hours ss os (slots_by_activity (eligible_slots target busy ss)) (λ _. true)
              (λ a p.
                rw (find_or-slots_by_activity (eligible_slots target busy ss) a)
                  (load_on-maximum a ss os (omega (arith, l)) (h a))),
        )

        filled : (gs : Groups) → target ≤ best_hours gs → (no_groups gs ≡ false) ⊎ (target ≡ 0)
        filled [] le = inr (omega (arith, le))
        filled (g ∷ gs) le = inl refl

        divided :
            target % gcd_all (all_hours (slots_by_activity (eligible_slots target busy ss))) ≡ 0
        divided = mod-eq-zero_of_dvd _ (
            subst (λ n. gcd_all (all_hours (slots_by_activity (eligible_slots target busy ss))) ∣ n)
              l
              (load_dvd _ ss os (omega (arith, l)) h (λ x e.
                gcd_all_dvd _ x (contains-all_hours (eligible_slots target busy ss) x ∙ e))))

all-targets_reachable :
    (remaining : List ℕ) (occupied : List (List TextId)) (ss : List FeasibilitySlot)
    → ((i : ℕ)
        → i < length remaining
        → target_reachable
            (get_or remaining i 0)
            (eligible_activity_hours (get_or remaining i 0) (get_or occupied i []) ss)
          ≡ true)
    → targets_reachable remaining occupied ss ≡ true
unfolding targets_reachable
all-targets_reachable [] occupied ss h = refl
all-targets_reachable (t ∷ remaining) [] ss h = refl
all-targets_reachable (t ∷ remaining) (busy ∷ occupied) ss h = ground (
  arith,
  h 0 (omega arith),
  all-targets_reachable remaining occupied ss (λ i lt. h (suc i) (omega (arith, lt))),
)

-- A state with an exact assignment passes the test.
pub Exact-targets_reachable :
    (remaining : List ℕ) (occupied : List (List TextId)) (ss : List FeasibilitySlot) (os : List ℕ)
    → Exact
        (length remaining)
        (λ i. get_or remaining i 0)
        (λ i a. contains (get_or occupied i []) a)
        ss
        os
    → targets_reachable remaining occupied ss ≡ true
Exact-targets_reachable remaining occupied ss os x =
    all-targets_reachable remaining occupied ss (λ i h.
      load-target_reachable i (get_or remaining i 0) (get_or occupied i []) ss os (x.met i h)
        (λ a. x.distinct i a h))
