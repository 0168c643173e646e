-- ===== src/Feasibility/Symmetry.antt =====
-- Two participants with the same target and the same occupied activities can change places.
use reparto_docente_m.Prelude.{
  ℕ, Bool, ◌<◌, ◌==◌, if◌then◌else◌, List, [], ◌∷◌, ◌≡◌, refl, map, length-map, All, arith, ◌∙◌,
  Bool-cases, inl, inr, ==_iff, sym,
}
use reparto_docente_m.Feasibility.Types.{TextId, FeasibilitySlot}
use reparto_docente_m.Feasibility.Exact.{Exact, load, held}

abbrev pub swap : ℕ → ℕ → ℕ → ℕ
swap p q i = if i == p then q else if i == q then p else i

module _ (p q : ℕ) where
  load-swap :
      (i : ℕ) (ss : List FeasibilitySlot) (os : List ℕ)
      → load i ss (map (swap p q) os) ≡ load (swap p q i) ss os
  load-swap i [] os = refl
  load-swap i (s ∷ ss) [] = refl
  load-swap i (s ∷ ss) (o ∷ os) = ground (arith, load-swap i ss os)

  held-swap :
      (i a : ℕ) (ss : List FeasibilitySlot) (os : List ℕ)
      → held i a ss (map (swap p q) os) ≡ held (swap p q i) a ss os
  held-swap i a [] os = refl
  held-swap i a (s ∷ ss) [] = refl
  held-swap i a (s ∷ ss) (o ∷ os) = ground (arith, held-swap i a ss os)

  swap-known : (n : ℕ) → p < n → q < n → (i : ℕ) → i < n → swap p q i < n
  swap-known n hp hq i h = ground (arith, hp, hq, h)

  swap-All :
      (n : ℕ)
      → p < n
      → q < n
      → (os : List ℕ) → All (λ o. o < n) os
      → All (λ o. o < n) (map (swap p q) os)
  swap-All n hp hq [] h = tt
  swap-All n hp hq (o ∷ os) h = (swap-known n hp hq o h.0, swap-All n hp hq os h.1)

  pub Exact-swap :
      (n : ℕ) (target : ℕ → ℕ) (busy : ℕ → TextId → Bool) (ss : List FeasibilitySlot) (os : List ℕ)
      → p < n
      → q < n
      → target p ≡ target q
      → ((a : TextId) → busy p a ≡ busy q a)
      → Exact n target busy ss os
      → Exact n target busy ss (map (swap p q) os)
  Exact-swap n target busy ss os hp hq et eb x = record {
    complete = length-map (swap p q) os ∙ x.complete;
    known = swap-All n hp hq os x.known;
    met = λ i h. load-swap i ss os ∙ x.met (swap p q i) (swap-known n hp hq i h) ∙ same_target i;
    distinct = λ i a h.
        rw (held-swap i a ss os, same_busy i a)
          (x.distinct (swap p q i) a (swap-known n hp hq i h));
  }
    where
      same_target : (i : ℕ) → target (swap p q i) ≡ target i
      same_target i = elim (Bool-cases (i == p)) [
        | inl e ↦ rw (e, (==_iff i p).0 e) (sym et)
        | inr e ↦ elim (Bool-cases (i == q)) [
          | inl e' ↦ rw (e, e', (==_iff i q).0 e') et
          | inr e' ↦ rw (e, e')
        ]
      ]

      same_busy : (i a : ℕ) → busy i a ≡ busy (swap p q i) a
      same_busy i a = elim (Bool-cases (i == p)) [
        | inl e ↦ rw (e, (==_iff i p).0 e) (eb a)
        | inr e ↦ elim (Bool-cases (i == q)) [
          | inl e' ↦ rw (e, e', (==_iff i q).0 e') (sym (eb a))
          | inr e' ↦ rw (e, e')
        ]
      ]
