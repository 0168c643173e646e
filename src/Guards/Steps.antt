-- ===== src/Guards/Steps.antt =====
-- The step counter of the local search.
use reparto_docente_m.Prelude.{
  ℕ, zero, suc, ◌+◌, ◌-◌, ◌*◌, ◌≤◌, leb, Option, none, some, List, [], ◌∷◌, ◌≡◌, inl, inr, length,
  all, keep, arith, Bool-cases, Option-cases, if◌then◌else◌, false,
}
use native.Mathlib.Nat.{suc-mul}
use reparto_docente_m.Prelude.Dict.{insert}
use reparto_docente_m.Feasibility.Types.{FeasibilityState}
use reparto_docente_m.Guards.Types.{WitnessRepairLimits}
use reparto_docente_m.Guards.Witness.{Mapping}
use reparto_docente_m.Guards.Repair.{
  Repair, done, assertion_failed, Move, Delta, is_settled, is_over, delta_ids, least,
  assignment_deltas, repair_moves, try_moves, explore_moves, repair_search, take,
}

length-take {ℓ} : {A : Type ℓ} (n : ℕ) (xs : List A) → length (take n xs) ≤ n
length-take zero xs = omega arith
length-take (suc n) [] = omega arith
length-take (suc n) (x ∷ xs) = omega (arith, length-take n xs)

-- The counter rises, by nothing where it has met the bound and else at most to `bound + extra`,
-- with `more` on top.
abbrev pub Within : ℕ → ℕ → ℕ → ℕ → Repair → Type 0
Within bound extra more k (done m k') =
    (k ≤ k') × (k' ≤ (if leb bound k then k else bound + extra) + more)
Within bound extra more k assertion_failed = Unit

module _ (bound extra : ℕ) (deeper : ℕ → Mapping → Repair)
    (within : (k : ℕ) (m : Mapping) → Within bound extra 0 k (deeper k m)) where
  try_moves-Within :
      (mapping : Mapping) (moves : List Move) (k : ℕ)
      → Within bound extra (length moves) k (try_moves deeper mapping moves k)
  unfolding try_moves
  try_moves-Within mapping [] k = ground arith
  try_moves-Within mapping ((slot, recipient) ∷ moves) k =
      after (deeper (k + 1) (insert slot.slot_id recipient mapping))
        (within (k + 1) (insert slot.slot_id recipient mapping)) (try_moves-Within mapping moves)
    where
      later :
          (j : ℕ)
          → Within bound extra 0 (k + 1) (done none j)
          → (r : Repair) → Within bound extra (length moves) j r
          → Within bound extra (suc (length moves)) k r
      later j h (done m j') g = ground arith
      later j h assertion_failed g = tt

      after :
          (r : Repair)
          → Within bound extra 0 (k + 1) r
          → ((j : ℕ) → Within bound extra (length moves) j (try_moves deeper mapping moves j))
          → Within bound extra (suc (length moves)) k (elim r [
            | done (some m) steps' ↦ done (some m) steps'
            | done none steps' ↦ try_moves deeper mapping moves steps'
            | assertion_failed ↦ assertion_failed
          ])
      after (done (some m) j) h rest = ground arith
      after (done none j) h rest = later j h (try_moves deeper mapping moves j) (rest j)
      after assertion_failed h rest = tt

module _ (state : FeasibilityState) (limits : WitnessRepairLimits) where
  explore_moves-Within :
      (extra : ℕ) (deeper : ℕ → Mapping → Repair)
      → ((k : ℕ) (m : Mapping) → Within limits.max_steps extra 0 k (deeper k m))
      → (k : ℕ) (mapping : Mapping) (deltas : List Delta) → leb limits.max_steps k ≡ false
      → Within limits.max_steps
          (limits.max_steps + extra)
          0
          k
          (explore_moves state limits deeper k mapping deltas)
  unfolding explore_moves
  explore_moves-Within extra deeper within k mapping deltas below =
      elim (Option-cases (least (delta_ids (keep is_over deltas)))) [
        | inl e ↦ rw (e, Within) tt
        | inr (donor, e) ↦
            let moves : List Move =
              take (limits.max_steps - k) (repair_moves state mapping deltas donor) in
            rw (e, Within)
              (widen moves
                (length-take (limits.max_steps - k) (repair_moves state mapping deltas donor))
                (try_moves deeper mapping moves k)
                (try_moves-Within limits.max_steps extra deeper within mapping moves k))
      ]
    where
      widen :
          (moves : List Move)
          → length moves ≤ limits.max_steps - k
          → (r : Repair) → Within limits.max_steps extra (length moves) k r
          → Within limits.max_steps (limits.max_steps + extra) 0 k r
      widen moves short (done m j) h = ground arith
      widen moves short assertion_failed h = tt

  repair_search-Within :
      (moves_left k : ℕ) (mapping : Mapping)
      → Within limits.max_steps
          (moves_left * limits.max_steps)
          0
          k
          (repair_search state limits moves_left k mapping)
  unfolding repair_search
  repair_search-Within zero k mapping =
      elim (Bool-cases (all is_settled (assignment_deltas state mapping))) [
        | inl e ↦ rw e (ground arith)
        | inr e ↦ rw e (ground arith)
      ]
  repair_search-Within (suc moves_left) k mapping =
      let ih = repair_search-Within moves_left in
      elim (Bool-cases (all is_settled (assignment_deltas state mapping))) [
        | inl e ↦ rw e (ground arith)
        | inr e ↦ elim (Bool-cases (leb limits.max_steps k)) [
          | inl out ↦ rw (e, out, Within) (ground arith)
          | inr more ↦
              rw (e, more)
                (resize
                  (explore_moves state limits (repair_search state limits moves_left) k mapping
                    (assignment_deltas state mapping))
                  (explore_moves-Within (moves_left * limits.max_steps)
                    (repair_search state limits moves_left) ih k mapping
                    (assignment_deltas state mapping) more))
        ]
      ]
    where
      resize :
          (r : Repair)
          → Within limits.max_steps (limits.max_steps + moves_left * limits.max_steps) 0 k r
          → Within limits.max_steps (suc moves_left * limits.max_steps) 0 k r
      resize (done m j) h = ground (arith, suc-mul moves_left limits.max_steps)
      resize assertion_failed h = tt

-- The local search ends with a counter of at most `max_steps` for each allowed move and
-- `max_steps` more.
pub repair_search_steps :
    (state : FeasibilityState) (limits : WitnessRepairLimits) (mapping : Mapping)
    {m : Option Mapping} {steps : ℕ}
    → repair_search state limits limits.max_moves 0 mapping ≡ done m steps
    → steps ≤ limits.max_steps + limits.max_moves * limits.max_steps
repair_search_steps state limits mapping {m} {steps} e =
    bounded (rw e at (repair_search-Within state limits limits.max_moves 0 mapping))
  where
    bounded :
        Within limits.max_steps (limits.max_moves * limits.max_steps) 0 0 (done m steps)
        → steps ≤ limits.max_steps + limits.max_moves * limits.max_steps
    bounded h = ground arith
