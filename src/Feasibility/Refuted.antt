-- ===== src/Feasibility/Refuted.antt =====
-- A failure of `_search` at any index, with what it remembers, and what it does at the root.
use reparto_docente_m.Prelude.{
  ℕ, zero, suc, true, false, ◌+◌, ◌<◌, leb, ◌==◌, List, [], ◌∷◌, ◌≡◌, refl, get_or, length, drop,
  All, all, arith, Bool-cases, inl, inr,
}
use reparto_docente_m.Feasibility.Types.{FeasibilitySlot, SolverLimits}
use reparto_docente_m.Feasibility.Residual.{residual_state_possible}
use reparto_docente_m.Feasibility.Search.{
  Workspace, Outcome, candidate_indices, search, finish, visit, consume_budget, time_limit_reached,
  memo_has, state_key, remember,
}
use reparto_docente_m.Feasibility.Workspaces.{IsReady, candidate_indices-CanTake}
use reparto_docente_m.Feasibility.Soundness.{Searched, search-Searched}
use reparto_docente_m.Feasibility.Pruning.{residual_state_possible_lem}
use reparto_docente_m.Feasibility.Refutation.{
  Dead, IsDeadKey, memo_has-IsDeadKey, key-Dead, Dead-key,
}
use reparto_docente_m.Feasibility.Completeness.{
  Refutes, try_candidates-Refutes, candidate_indices-Covered,
}

module _ (limits : SolverLimits) (elapsed : ℕ → ℕ) (slots : List FeasibilitySlot) where
  consume_budget-Refutes :
      (ss : List FeasibilitySlot) (w : Workspace) (continue : Workspace → Outcome)
      → Refutes slots ss w.remaining w.occupied
          (continue (record w { states_explored = w.states_explored + 1 }))
      → Refutes slots ss w.remaining w.occupied (consume_budget limits elapsed w continue)
  unfolding consume_budget
  consume_budget-Refutes ss w continue h =
      elim (Bool-cases (leb limits.max_steps w.states_explored)) [
        | inl out ↦ rw out tt
        | inr in_steps ↦ elim (Bool-cases (time_limit_reached limits elapsed w.states_explored)) [
          | inl late ↦ rw (in_steps, late) tt
          | inr in_time ↦ rw (in_steps, in_time) h
        ]
      ]

  all-zero :
      (xs : List ℕ) → ((i : ℕ) → i < length xs → 0 ≡ get_or xs i 0) → all (λ r. r == 0) xs ≡ true
  all-zero [] h = refl
  all-zero (x ∷ xs) h =
      ground (arith, h 0 (omega arith), all-zero xs (λ i lt. h (suc i) (omega (arith, lt))))

  finish-Refutes :
      (w : Workspace)
      → All (IsDeadKey slots) w.memo
      → Refutes slots [] w.remaining w.occupied (finish limits elapsed w)
  unfolding finish
  finish-Refutes w memo = elim (Bool-cases (all (λ r. r == 0) w.remaining)) [
    | inl e ↦ rw e tt
    | inr e ↦ rw e ((λ os x. ground (arith, e, all-zero w.remaining x.met)), memo)
  ]

  visit-Refutes :
      (k : ℕ) (s : FeasibilitySlot) (ss : List FeasibilitySlot) (w : Workspace)
      (deeper : Workspace → Outcome)
      → ((v : Workspace) → IsReady (suc k) ss v → Searched (suc k) ss v (deeper v))
      → ((v : Workspace)
          → IsReady (suc k) ss v
          → All (IsDeadKey slots) v.memo
          → Refutes slots ss v.remaining v.occupied (deeper v))
      → drop k slots ≡ s ∷ ss
      → IsReady k (s ∷ ss) w
      → All (IsDeadKey slots) w.memo
      → Refutes slots (s ∷ ss) w.remaining w.occupied (visit limits elapsed deeper k s ss w)
  unfolding visit
  visit-Refutes k s ss w deeper restores refutes at ready memo =
      elim (Bool-cases (memo_has (state_key k w) w.memo)) [
        | inl known ↦ rw known (
          key-Dead slots (s ∷ ss) k w at
              (memo_has-IsDeadKey slots (state_key k w) w.memo memo known),
          memo,
        )
        | inr new ↦ elim (Bool-cases (residual_state_possible w.remaining w.occupied (s ∷ ss))) [
          | inl possible ↦
              rw (new, possible)
                (try_candidates-Refutes limits elapsed slots s ss k (state_key k w) deeper restores
                  refutes (candidate_indices s w) [] w
                  (record {
                    ready = ready;
                    can = candidate_indices-CanTake s w;
                    covered = candidate_indices-Covered s ss w;
                    looked = tt;
                    key_dead = Dead-key slots (s ∷ ss) k w at;
                  })
                  memo)
          | inr hopeless ↦
              rw (new, hopeless)
                (unfold remember in
                  (dead hopeless, (Dead-key slots (s ∷ ss) k w at (dead hopeless), memo)))
        ]
      ]
    where
      dead :
          residual_state_possible w.remaining w.occupied (s ∷ ss) ≡ false
          → Dead w.remaining w.occupied (s ∷ ss)
      dead hopeless os x =
          ground (arith, hopeless, residual_state_possible_lem w.remaining w.occupied (s ∷ ss) os x)

  drop-suc :
      (k : ℕ) (xs : List FeasibilitySlot) {s : FeasibilitySlot} {ss : List FeasibilitySlot}
      → drop k xs ≡ s ∷ ss
      → drop (suc k) xs ≡ ss
  drop-suc zero [] h = absurd (ground (arith, h))
  drop-suc zero (x ∷ xs) h = cc h
  drop-suc (suc k) [] h = absurd (ground (arith, h))
  drop-suc (suc k) (x ∷ xs) h = drop-suc k xs h

  -- Wherever `_search` fails, nothing completes the state that it was called in.
  pub search-Refutes :
      (k : ℕ) (ss : List FeasibilitySlot) (w : Workspace)
      → drop k slots ≡ ss
      → IsReady k ss w
      → All (IsDeadKey slots) w.memo
      → Refutes slots ss w.remaining w.occupied (search limits elapsed k ss w)
  unfolding search
  search-Refutes k [] w at ready memo =
      consume_budget-Refutes [] w (finish limits elapsed)
        (finish-Refutes (record w { states_explored = w.states_explored + 1 }) memo)
  search-Refutes k (s ∷ ss) w at ready memo =
      consume_budget-Refutes (s ∷ ss) w
        (visit limits elapsed (search limits elapsed (suc k) ss) k s ss)
        (visit-Refutes k s ss (record w { states_explored = w.states_explored + 1 })
          (search limits elapsed (suc k) ss) (search-Searched limits elapsed (suc k) ss)
          (λ v. search-Refutes (suc k) ss v (drop-suc k slots at)) at
          (record { rows = ready.rows; room = ready.room }) memo)
