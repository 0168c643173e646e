-- ===== src/Feasibility/Pools.antt =====
-- `_distinct_pools_sufficient` refuses no state that has an exact assignment.
use reparto_docente_m.Prelude.{
  ℕ, zero, suc, Bool, true, false, ◌||◌, ◌⊎◌, ◌+◌, ◌≤◌, ◌<◌, ◌==◌, if◌then◌else◌, List, [], ◌∷◌,
  ◌≡◌, refl, ap, contains, get_or, length, all, All, arith, Bool-cases, inl, inr, ==_refl, In,
  IsDistinct, subst,
}
use reparto_docente_m.Prelude.Dict.{find_or, keys}
use reparto_docente_m.Feasibility.Types.{TextId, FeasibilitySlot}
use reparto_docente_m.Feasibility.Grouping.{Groups, append_to_group, group_slots, slots_by_activity}
use reparto_docente_m.Feasibility.Matching.{no_slot, activity_has_matching}
use reparto_docente_m.Feasibility.Matchings.{DistinctTeachers, activity_has_matching_iff}
use reparto_docente_m.Feasibility.Residual.{distinct_pools_sufficient}
use reparto_docente_m.Feasibility.Groups.{slots_of, find_or-slots_by_activity}
use reparto_docente_m.Feasibility.Exact.{load, held, Exact}

-- each activity is a key once
contains-keys :
    (s : FeasibilitySlot) (a : TextId) (gs : Groups)
    → contains (keys (append_to_group s gs)) a ≡ (contains (keys gs) a || a == s.activity_id)
unfolding append_to_group
contains-keys s a [] = ground arith
contains-keys s a ((b, items) ∷ gs) = ground (arith, contains-keys s a gs)

append_to_group-IsDistinct :
    (s : FeasibilitySlot) (gs : Groups)
    → IsDistinct (keys gs)
    → IsDistinct (keys (append_to_group s gs))
unfolding append_to_group
append_to_group-IsDistinct s [] d = (refl, tt)
append_to_group-IsDistinct s ((b, items) ∷ gs) d = elim (Bool-cases (s.activity_id == b)) [
  | inl e ↦ rw e d
  | inr e ↦ rw e (ground (arith, contains-keys s b gs, d.0, e), append_to_group-IsDistinct s gs d.1)
]

group_slots-IsDistinct :
    (ss : List FeasibilitySlot) (gs : Groups)
    → IsDistinct (keys gs)
    → IsDistinct (keys (group_slots ss gs))
unfolding group_slots
group_slots-IsDistinct [] gs d = d
group_slots-IsDistinct (s ∷ ss) gs d =
    group_slots-IsDistinct ss (append_to_group s gs) (append_to_group-IsDistinct s gs d)

all-groups :
    (P : TextId × List FeasibilitySlot → Bool) (gs : Groups)
    → IsDistinct (keys gs)
    → ((a : TextId) → In (keys gs) a → P (a, find_or gs a []) ≡ true)
    → all P gs ≡ true
all-groups P [] d h = refl
all-groups P ((a, items) ∷ gs) d h = ground (arith, head, all-groups P gs d.1 tail)
  where
    head : P (a, items) ≡ true
    head = subst (λ xs. P (a, xs) ≡ true) (rw (==_refl a)) (h a (rw (==_refl a)))

    tail : (b : TextId) → In (keys gs) b → P (b, find_or gs b []) ≡ true
    tail b i =
        let ne : (b == a) ≡ false = ground (arith, d.0, i) in
        subst (λ xs. P (b, xs) ≡ true) (rw ne) (h b (rw ne i))

-- the owners of the slots of one activity, in the order of the slots
abbrev owners_of : TextId → List FeasibilitySlot → List ℕ → List ℕ
owners_of a [] os = []
owners_of a (s ∷ ss) [] = []
owners_of a (s ∷ ss) (o ∷ os) =
    if s.activity_id == a then o ∷ owners_of a ss os else owners_of a ss os

contains-owners_of :
    (o a : ℕ) (ss : List FeasibilitySlot) (os : List ℕ)
    → held o a ss os ≡ 0
    → contains (owners_of a ss os) o ≡ false
contains-owners_of o a [] os h = refl
contains-owners_of o a (s ∷ ss) [] h = refl
contains-owners_of o a (s ∷ ss) (p ∷ os) h = ground (arith, h, contains-owners_of o a ss os)

In-get_or : (xs : List ℕ) (i : ℕ) → i < length xs → In xs (get_or xs i 0)
In-get_or [] i h = absurd (omega (arith, h))
In-get_or (x ∷ xs) zero h = rw (==_refl x)
In-get_or (x ∷ xs) (suc i) h = ground (arith, In-get_or xs i (omega (arith, h)))

get_or-injective :
    (xs : List ℕ) (i j : ℕ)
    → IsDistinct xs
    → i < length xs
    → j < length xs
    → get_or xs i 0 ≡ get_or xs j 0
    → i ≡ j
get_or-injective [] i j d hi hj e = absurd (omega (arith, hi))
get_or-injective (x ∷ xs) zero zero d hi hj e = refl
get_or-injective (x ∷ xs) zero (suc j) d hi hj e =
    absurd (ground (arith, d.0, e, In-get_or xs j (omega (arith, hj))))
get_or-injective (x ∷ xs) (suc i) zero d hi hj e =
    absurd (ground (arith, d.0, e, In-get_or xs i (omega (arith, hi))))
get_or-injective (x ∷ xs) (suc i) (suc j) d hi hj e =
    ap suc (get_or-injective xs i j d.1 (omega (arith, hi)) (omega (arith, hj)) e)

module _ (n : ℕ) (target : ℕ → ℕ) (busy : ℕ → TextId → Bool) (a : TextId) where
  owners_of-IsDistinct :
      (ss : List FeasibilitySlot) (os : List ℕ)
      → All (λ o. o < n) os
      → ((i : ℕ) → i < n → held i a ss os ≤ 1)
      → IsDistinct (owners_of a ss os)
  owners_of-IsDistinct [] os k h = tt
  owners_of-IsDistinct (s ∷ ss) [] k h = tt
  owners_of-IsDistinct (s ∷ ss) (o ∷ os) k h =
      let rest : IsDistinct (owners_of a ss os) =
        owners_of-IsDistinct ss os k.1 (λ i lt. ground (arith, h i lt)) in
      elim (Bool-cases (s.activity_id == a)) [
        | inl e ↦ rw e (contains-owners_of o a ss os (ground (arith, e, h o k.0)), rest)
        | inr e ↦ rw e rest
      ]

  length-owners_of :
      (ss : List FeasibilitySlot) (os : List ℕ)
      → length os ≡ length ss
      → length (owners_of a ss os) ≡ length (slots_of a ss)
  length-owners_of [] os h = refl
  length-owners_of (s ∷ ss) [] h = absurd (omega (arith, h))
  length-owners_of (s ∷ ss) (o ∷ os) h = ground (arith, length-owners_of ss os (omega (arith, h)))

  -- The owner of the `k`-th slot can take it.
  abbrev CanOwn : FeasibilitySlot → ℕ → Type 0
  CanOwn s o = (o < n) × (s.hours_units ≤ target o) × (busy o s.activity_id ≡ false)

  owners_of-CanOwn :
      (ss : List FeasibilitySlot) (os : List ℕ)
      → length os ≡ length ss
      → All (λ o. o < n) os
      → ((i : ℕ) → i < n → load i ss os ≤ target i)
      → ((i b : ℕ) → i < n → held i b ss os + (if busy i b then 1 else 0) ≤ 1)
      → (k : ℕ) → k < length (slots_of a ss)
      → CanOwn (get_or (slots_of a ss) k no_slot) (get_or (owners_of a ss os) k 0)
  owners_of-CanOwn [] os e kn l d k lt = absurd (omega (arith, lt))
  owners_of-CanOwn (s ∷ ss) [] e kn l d k lt = absurd (omega (arith, e))
  owners_of-CanOwn (s ∷ ss) (o ∷ os) e kn l d k lt = at (Bool-cases (s.activity_id == a)) k lt (
      owners_of-CanOwn ss os (omega (arith, e)) kn.1 (λ i h. ground (arith, l i h))
        (λ i b h. ground (arith, d i b h)))
    where
      at :
          ((s.activity_id == a) ≡ true) ⊎ ((s.activity_id == a) ≡ false)
          → (j : ℕ) → j < length (slots_of a (s ∷ ss))
          → ((j : ℕ)
              → j < length (slots_of a ss)
              → CanOwn (get_or (slots_of a ss) j no_slot) (get_or (owners_of a ss os) j 0))
          → CanOwn
              (get_or (slots_of a (s ∷ ss)) j no_slot)
              (get_or (owners_of a (s ∷ ss) (o ∷ os)) j 0)
      at (inl y) zero lt rest =
          rw y (kn.0, ground (arith, l o kn.0), ground (arith, d o s.activity_id kn.0))
      at (inl y) (suc j) lt rest = rw y (rest j (ground (arith, y, lt)))
      at (inr y) j lt rest = rw y (rest j (ground (arith, y, lt)))

module _ (remaining : List ℕ) (occupied : List (List TextId)) (ss : List FeasibilitySlot)
    (os : List ℕ)
    (x : Exact
      (length remaining)
      (λ i. get_or remaining i 0)
      (λ i a. contains (get_or occupied i []) a)
      ss
      os) where
  -- The owners of an activity's slots are different teachers that can take them.
  Exact-DistinctTeachers : (a : TextId) → DistinctTeachers (slots_of a ss) remaining occupied
  Exact-DistinctTeachers a = record {
    owner = λ s h. get_or (owners_of a ss os) s 0;
    known = λ s h. (can s h).0;
    fits = λ s h. (can s h).1;
    free = λ s h. (can s h).2;
    distinct = λ s t hs ht e.
        get_or-injective (owners_of a ss os) s t
          (owners_of-IsDistinct (length remaining) (λ i. get_or remaining i 0)
            (λ i b. contains (get_or occupied i []) b) a ss os x.known
            (λ i h. ground (arith, x.distinct i a h)))
          (omega (arith, hs, sized)) (omega (arith, ht, sized)) e;
  }
    where
      sized : length (owners_of a ss os) ≡ length (slots_of a ss)
      sized =
          length-owners_of (length remaining) (λ i. get_or remaining i 0)
            (λ i b. contains (get_or occupied i []) b) a ss os x.complete

      can :
          (k : ℕ)
          → k < length (slots_of a ss)
          → CanOwn
              (length remaining)
              (λ i. get_or remaining i 0)
              (λ i b. contains (get_or occupied i []) b)
              a
              (get_or (slots_of a ss) k no_slot)
              (get_or (owners_of a ss os) k 0)
      can k h =
          owners_of-CanOwn (length remaining) (λ i. get_or remaining i 0)
            (λ i b. contains (get_or occupied i []) b) a ss os x.complete x.known
            (λ i h. omega (arith, x.met i h)) x.distinct k h

  -- A state with an exact assignment passes the test.
  pub Exact-distinct_pools_sufficient : distinct_pools_sufficient remaining occupied ss ≡ true
  unfolding distinct_pools_sufficient slots_by_activity
  Exact-distinct_pools_sufficient =
      all-groups (λ g. activity_has_matching g.1 remaining occupied) (slots_by_activity ss)
        (group_slots-IsDistinct ss [] tt) (λ a i. matched a)
    where
      matched :
          (a : TextId)
          → activity_has_matching (find_or (slots_by_activity ss) a []) remaining occupied ≡ true
      matched a = rw (find_or-slots_by_activity ss a) (
          (activity_has_matching_iff (slots_of a ss) remaining occupied).1
            (Exact-DistinctTeachers a))
