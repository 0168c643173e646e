-- ===== src/Prelude/Pigeonhole.antt =====
-- Distinct members of a list are no more than the list has.
use Prim.Native.Nat.{ℕ, suc, ◌≤◌}
use mathlib.Core.Path.{◌≡◌, refl, sym, ◌∙◌, subst}
use mathlib.Core.Logic.{◌≢◌}
use mathlib.Core.Bool.{true, false}
use mathlib.Core.List.{List, [], ◌∷◌}
use native.Mathlib.Omega.{arith}
use reparto_docente_m.Prelude.Tests.{◌==◌, if◌then◌else◌}
use reparto_docente_m.Prelude.Lists.{length, contains}

abbrev pub In : List ℕ → ℕ → Type 0
In xs a = contains xs a ≡ true

abbrev pub IsDistinct : List ℕ → Type 0
IsDistinct [] = Unit
IsDistinct (x ∷ xs) = (contains xs x ≡ false) × IsDistinct xs

abbrev pub without : ℕ → List ℕ → List ℕ
without a [] = []
without a (x ∷ xs) = if a == x then xs else x ∷ without a xs

pub length-without : (a : ℕ) (xs : List ℕ) → In xs a → suc (length (without a xs)) ≡ length xs
length-without a [] h = ground arith
length-without a (x ∷ xs) h = ground (arith, length-without a xs)

pub In-without : (a b : ℕ) (xs : List ℕ) → In xs b → b ≢ a → In (without a xs) b
In-without a b [] h ne = h
In-without a b (x ∷ xs) h ne = ground (arith, In-without a b xs)

-- Each member of the first list has a place in the second, and no two have the same.
pub pigeonhole_by {ℓ} :
    (R : ℕ → ℕ → Type ℓ)
    → ((a a' b : ℕ) → R a b → R a' b → a ≡ a')
    → (xs ys : List ℕ) → IsDistinct xs
    → ((a : ℕ) → In xs a → (b : ℕ) × In ys b × R a b)
    → length xs ≤ length ys
pigeonhole_by R inj [] ys d h = omega arith
pigeonhole_by R inj (x ∷ xs) ys d h =
    let (b, in_ys, related) = h x (ground arith) in
    omega (
      arith,
      pigeonhole_by R inj xs (without b ys) d.1 (others b related),
      length-without b ys in_ys,
    )
  where
    others : (b : ℕ) → R x b → (a : ℕ) → In xs a → (c : ℕ) × In (without b ys) c × R a c
    others b related a i =
        let (c, in_ys, r) = h a (ground (arith, i)) in
        (
          c,
          In-without b c ys in_ys
              (λ e. ground (arith, d.0, i, inj a x b (subst (R a) e r) related)),
          r,
        )

pub pigeonhole :
    (xs ys : List ℕ) → IsDistinct xs → ((a : ℕ) → In xs a → In ys a) → length xs ≤ length ys
pigeonhole xs ys d h =
    pigeonhole_by (λ a b. a ≡ b) (λ a a' b e e'. e ∙ sym e') xs ys d (λ a i. (a, h a i, refl))
