-- ===== src/Prelude/Sort.antt =====
-- `sorted(xs, key=...)`: a stable sort by a Boolean order.
use reparto_docente_m.Prelude.Tests.{leb, if◌then◌else◌}
use reparto_docente_m.Prelude.Lists.{contains, sum_by}
use Prim.Native.Nat.{ℕ, ◌+◌}
use mathlib.Core.Path.{◌≡◌, refl}
use mathlib.Core.Bool.{Bool}
use mathlib.Core.List.{List, [], ◌∷◌}
use native.Mathlib.Omega.{arith}

module _ {ℓ} {A : Type ℓ} where
  abbrev pub insert_by : (A → A → Bool) → A → List A → List A
  insert_by le x [] = x ∷ []
  insert_by le x (y ∷ ys) = if le x y then x ∷ y ∷ ys else y ∷ insert_by le x ys

  abbrev pub sort_by : (A → A → Bool) → List A → List A
  sort_by le [] = []
  sort_by le (x ∷ xs) = insert_by le x (sort_by le xs)

  pub sum_by-insert_by :
      (f : A → ℕ) (le : A → A → Bool) (x : A) (ys : List A)
      → sum_by f (insert_by le x ys) ≡ f x + sum_by f ys
  sum_by-insert_by f le x [] = refl
  sum_by-insert_by f le x (y ∷ ys) = ground (arith, sum_by-insert_by f le x ys)

  -- Sorting keeps every sum over the items, so also how often an item occurs.
  pub sum_by-sort_by :
      (f : A → ℕ) (le : A → A → Bool) (xs : List A) → sum_by f (sort_by le xs) ≡ sum_by f xs
  sum_by-sort_by f le [] = refl
  sum_by-sort_by f le (x ∷ xs) =
      omega (arith, sum_by-insert_by f le x (sort_by le xs), sum_by-sort_by f le xs)

abbrev pub sort_ids : List ℕ → List ℕ
sort_ids = sort_by leb

pub contains-insert_by :
    (le : ℕ → ℕ → Bool) (a x : ℕ) (ys : List ℕ)
    → contains (insert_by le x ys) a ≡ contains (x ∷ ys) a
contains-insert_by le a x [] = refl
contains-insert_by le a x (y ∷ ys) = ground (arith, contains-insert_by le a x ys)

pub contains-sort_by :
    (le : ℕ → ℕ → Bool) (a : ℕ) (xs : List ℕ) → contains (sort_by le xs) a ≡ contains xs a
contains-sort_by le a [] = refl
contains-sort_by le a (x ∷ xs) =
    ground (arith, contains-insert_by le a x (sort_by le xs), contains-sort_by le a xs)
