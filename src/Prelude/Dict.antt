-- ===== src/Prelude/Dict.antt =====
-- Python dicts with number keys, in insertion order.
use Prim.Native.Nat.{ℕ}
use mathlib.Core.Path.{◌≡◌, refl}
use mathlib.Core.Option.{Option, none, some}
use mathlib.Core.List.{List, [], ◌∷◌}
use native.Mathlib.Omega.{arith}
use reparto_docente_m.Prelude.Tests.{◌==◌, if◌then◌else◌}

abbrev pub Dict {ℓ} : Type ℓ → Type ℓ
Dict V = List (ℕ × V)

module _ {ℓ} {V : Type ℓ} where
  abbrev pub lookup : ℕ → Dict V → Option V
  lookup k [] = none
  lookup k ((j, v) ∷ d) = if k == j then some v else lookup k d

  -- `d.get(k, default)`
  abbrev pub find_or : Dict V → ℕ → V → V
  find_or [] k default = default
  find_or ((j, v) ∷ d) k default = if k == j then v else find_or d k default

  -- `d[k] = v`
  abbrev pub insert : ℕ → V → Dict V → Dict V
  insert k v [] = (k, v) ∷ []
  insert k v ((j, w) ∷ d) = if k == j then (k, v) ∷ d else (j, w) ∷ insert k v d

  -- `d.pop(k)`, where the key is there
  abbrev pub pop : ℕ → Dict V → Dict V
  pop k [] = []
  pop k ((j, w) ∷ d) = if k == j then d else (j, w) ∷ pop k d

  abbrev pub keys : Dict V → List ℕ
  keys [] = []
  keys ((j, v) ∷ d) = j ∷ keys d

  abbrev pub values : Dict V → List V
  values [] = []
  values ((j, v) ∷ d) = v ∷ values d

  pub find_or-insert :
      (j k : ℕ) (v default : V) (d : Dict V)
      → find_or (insert k v d) j default ≡ (if j == k then v else find_or d j default)
  find_or-insert j k v default [] = refl
  find_or-insert j k v default ((i, w) ∷ d) = ground (arith, find_or-insert j k v default d)
