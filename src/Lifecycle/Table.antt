-- ===== src/Lifecycle/Table.antt =====
-- `TransitionTable` of reparto_service/services/planning_lifecycle.py, which
-- reparto_service/services/process_lifecycle.py writes out for its one table.
use reparto_docente_m.Prelude.{Bool, true, false, not, ◌||◌, List, [], ◌∷◌, if◌then◌else◌}
use mathlib.Core.Logic.{ite}

-- `==` on an enumeration.
abbrev pub eqb {ℓ} : {A : Type ℓ} → Discrete A → A → A → Bool
eqb d a b = ite (d a b) true false

-- `a in xs`
abbrev pub member {ℓ} : {A : Type ℓ} → Discrete A → A → List A → Bool
member d a [] = false
member d a (x ∷ xs) = eqb d a x || member d a xs

abbrev pub is_empty {ℓ} : {A : Type ℓ} → List A → Bool
is_empty [] = true
is_empty (x ∷ xs) = false

-- `assert_allowed`: it returns, or raises with the allowed targets.
pub data Verdict {ℓ} (A : Type ℓ) : Type ℓ where
  allowed : Verdict A
  illegal : A → A → List A → Verdict A

pub record TransitionTable (A : Type 0) : Type 0 where
  pub targets : A → List A
  pub status_eq : Discrete A

module _ {A : Type 0} (t : TransitionTable A) where
  unfoldable pub is_allowed : A → A → Bool
  is_allowed current target =
      if eqb t.status_eq current target
      then false
      else member t.status_eq target (t.targets current)

  unfoldable pub assert_allowed : A → A → Verdict A
  unfolding is_allowed
  assert_allowed current target =
      if not (is_allowed current target)
      then illegal current target (t.targets current)
      else allowed

  unfoldable pub is_terminal : A → Bool
  is_terminal status = is_empty (t.targets status)
