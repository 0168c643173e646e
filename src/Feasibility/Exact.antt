-- ===== src/Feasibility/Exact.antt =====
-- What the solver decides, said without it: the owners of the slots meet every target exactly.
use reparto_docente_m.Prelude.{
  ℕ, Bool, false, ◌&&◌, ◌||◌, ◌+◌, ◌-◌, ◌≤◌, ◌<◌, ◌==◌, if◌then◌else◌, List, [], ◌∷◌, ◌≡◌, length,
  All, arith, update,
}
use reparto_docente_m.Feasibility.Types.{TextId, FeasibilitySlot}

-- the hours of the slots that `i` owns; the two lists go in step
abbrev pub load : ℕ → List FeasibilitySlot → List ℕ → ℕ
load i [] os = 0
load i (s ∷ ss) [] = 0
load i (s ∷ ss) (o ∷ os) = (if o == i then s.hours_units else 0) + load i ss os

-- how many slots of the activity `a` the participant `i` owns
abbrev pub held : ℕ → TextId → List FeasibilitySlot → List ℕ → ℕ
held i a [] os = 0
held i a (s ∷ ss) [] = 0
held i a (s ∷ ss) (o ∷ os) = (if o == i && s.activity_id == a then 1 else 0) + held i a ss os

-- Among `n` participants with these targets and these occupied activities the owners are exact:
-- each slot has one, each target is met to the hundredth, and nobody holds an activity twice,
-- those counted that they occupied before.
pub record Exact (n : ℕ) (target : ℕ → ℕ) (busy : ℕ → TextId → Bool) (ss : List FeasibilitySlot)
    (os : List ℕ) : Type 0 where
  pub complete : length os ≡ length ss
  pub known : All (λ o. o < n) os
  pub met : (i : ℕ) → i < n → load i ss os ≡ target i
  pub distinct : (i a : ℕ) → i < n → held i a ss os + (if busy i a then 1 else 0) ≤ 1

-- the occupied activities after `i` takes `a`
abbrev pub occupy : (ℕ → TextId → Bool) → ℕ → TextId → ℕ → TextId → Bool
occupy busy i a j b = busy j b || (i == j && a == b)

pub Exact-ext :
    {n : ℕ} (t u : ℕ → ℕ) (b c : ℕ → TextId → Bool) (ss : List FeasibilitySlot) (os : List ℕ)
    → ((i : ℕ) → t i ≡ u i)
    → ((i a : ℕ) → b i a ≡ c i a)
    → Exact n t b ss os
    → Exact n u c ss os
Exact-ext t u b c ss os et eb x = record {
  complete = x.complete;
  known = x.known;
  met = λ i h. omega (arith, x.met i h, et i);
  distinct = λ i a h. ground (arith, x.distinct i a h, eb i a);
}

module _ (n : ℕ) (target : ℕ → ℕ) (busy : ℕ → TextId → Bool) (s : FeasibilitySlot)
    (ss : List FeasibilitySlot) (o : ℕ) (os : List ℕ) where
  -- one slot given away, the rest exact for what is left
  pub Exact-cons :
      o < n
      → s.hours_units ≤ target o
      → busy o s.activity_id ≡ false
      → Exact n (update target o (target o - s.hours_units)) (occupy busy o s.activity_id) ss os
      → Exact n target busy (s ∷ ss) (o ∷ os)
  Exact-cons lt fits free x = record {
    complete = omega (arith, x.complete);
    known = (lt, x.known);
    met = λ i h. ground (arith, x.met i h);
    distinct = λ i a h. ground (arith, x.distinct i a h);
  }

  pub Exact-uncons :
      Exact n target busy (s ∷ ss) (o ∷ os)
      → (o < n)
        × (s.hours_units ≤ target o)
        × (busy o s.activity_id ≡ false)
        × Exact n (update target o (target o - s.hours_units)) (occupy busy o s.activity_id) ss os
  Exact-uncons x = (
    x.known.0,
    ground (arith, x.met o x.known.0),
    ground (arith, x.distinct o s.activity_id x.known.0),
    record {
      complete = omega (arith, x.complete);
      known = x.known.1;
      met = λ i h. ground (arith, x.met i h);
      distinct = λ i a h. ground (arith, x.distinct i a h);
    },
  )
