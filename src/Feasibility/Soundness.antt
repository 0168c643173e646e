-- ===== src/Feasibility/Soundness.antt =====
-- A search that succeeds has found exact owners; one that fails has put everything back.
use reparto_docente_m.Prelude.{
  ℕ, zero, suc, true, ◌+◌, ◌<◌, leb, ◌==◌, Option, none, some, List, [], ◌∷◌, ◌≡◌, refl, sym, ◌∙◌,
  get_or, length, All, all, arith, Bool-cases, inl, inr, length-set, get_or-set_self, get_or-set_ne,
}
use reparto_docente_m.Feasibility.Types.{FeasibilitySlot, SolverLimits}
use reparto_docente_m.Feasibility.Residual.{residual_state_possible}
use reparto_docente_m.Feasibility.Search.{
  Workspace, Outcome, found, failed, stopped, StateKey, Signature, assign, unassign,
  candidate_indices, try_candidates, search, finish, visit, consume_budget, time_limit_reached,
  seen_before, signature, memo_has, state_key, remember,
}
use reparto_docente_m.Feasibility.Workspaces.{
  Completes, IsReady, CanTake, candidate_indices-CanTake, Completes-assign, unassign_restores,
}

-- From this index on the assignment holds these owners.
abbrev pub Recorded : ℕ → List ℕ → List (Option ℕ) → Type 0
Recorded k [] a = Unit
Recorded k (o ∷ os) a = (get_or a k none ≡ some o) × Recorded (suc k) os a

-- The entries before the index are those of an earlier workspace.
abbrev pub Keeps : ℕ → Workspace → Workspace → Type 0
Keeps k w w' = (j : ℕ) → j < k → get_or w'.assignment j none ≡ get_or w.assignment j none

-- What a call of the search that began at `w` has done, by how it ended.
abbrev pub Searched : ℕ → List FeasibilitySlot → Workspace → Outcome → Type 0
Searched k ss w (found w') =
    (os : List ℕ) × Completes w ss os × Recorded k os w'.assignment × Keeps k w w'
Searched k ss w (failed w') =
    (w'.remaining ≡ w.remaining)
    × (w'.occupied ≡ w.occupied)
    × (length w'.assignment ≡ length w.assignment)
    × Keeps k w w'
Searched k ss w (stopped code w') = Unit

module _ (s : FeasibilitySlot) (ss : List FeasibilitySlot) (k p : ℕ) (w : Workspace) where
  pub assign-IsReady : IsReady k (s ∷ ss) w → IsReady (suc k) ss (assign s k p w)
  unfolding assign
  assign-IsReady r = record {
    rows = length-set w.occupied p _ ∙ r.rows ∙ sym (length-set w.remaining p _);
    room = omega (arith, length-set w.assignment k (some p), r.room);
  }

  -- The deeper search has succeeded.
  found-Searched :
      (w' : Workspace)
      → IsReady k (s ∷ ss) w
      → CanTake w s p
      → Searched (suc k) ss (assign s k p w) (found w')
      → Searched k (s ∷ ss) w (found w')
  found-Searched w' r c (os, exact, recorded, kept) = (
    p ∷ os,
    Completes-assign s k p w r.rows c.0 ss os c.1 c.2 exact,
    (kept k (omega arith) ∙ written, recorded),
    λ j h. kept j (omega arith) ∙ unwritten j h,
  )
    where
      written : get_or (assign s k p w).assignment k none ≡ some p
      written =
          unfold assign in get_or-set_self w.assignment k (some p) none (omega (arith, r.room))

      unwritten :
          (j : ℕ) → j < k → get_or (assign s k p w).assignment j none ≡ get_or w.assignment j none
      unwritten j h =
          unfold assign in get_or-set_ne w.assignment k j (some p) none (λ e. omega (arith, e))

  -- The deeper search has failed, and the slot is taken back.
  pub failed-Searched :
      (w' : Workspace)
      → IsReady k (s ∷ ss) w
      → CanTake w s p
      → Searched (suc k) ss (assign s k p w) (failed w')
      → Searched k (s ∷ ss) w (failed (unassign s k p w'))
  failed-Searched w' r c (er, eo, el, kept) =
      let (back, back') = unassign_restores s k p w w' r.rows c.0 c.1 er eo in
      (back, back', sized, λ j h. untouched j h ∙ kept j (omega arith) ∙ unwritten j h)
    where
      sized : length (unassign s k p w').assignment ≡ length w.assignment
      sized =
          unfold assign unassign in
          length-set w'.assignment k none ∙ el ∙ length-set w.assignment k (some p)

      untouched :
          (j : ℕ)
          → j < k
          → get_or (unassign s k p w').assignment j none ≡ get_or w'.assignment j none
      untouched j h =
          unfold unassign in get_or-set_ne w'.assignment k j none none (λ e. omega (arith, e))

      unwritten :
          (j : ℕ) → j < k → get_or (assign s k p w).assignment j none ≡ get_or w.assignment j none
      unwritten j h =
          unfold assign in get_or-set_ne w.assignment k j (some p) none (λ e. omega (arith, e))

-- `v` has the targets and the occupied activities of `w`, and its assignment below the index.
abbrev pub Restores : ℕ → Workspace → Workspace → Type 0
Restores k w v =
    (v.remaining ≡ w.remaining)
    × (v.occupied ≡ w.occupied)
    × (length v.assignment ≡ length w.assignment)
    × Keeps k w v

module _ (s : FeasibilitySlot) (k : ℕ) (w v : Workspace) (back : Restores k w v) where
  pub CanTake-restored : (ps : List ℕ) → All (CanTake w s) ps → All (CanTake v s) ps
  CanTake-restored [] h = tt
  CanTake-restored (p ∷ ps) h = (rw (back.0, back.1) h.0, CanTake-restored ps h.1)

  pub IsReady-restored : (ss : List FeasibilitySlot) → IsReady k ss w → IsReady k ss v
  IsReady-restored ss r = record { rows = rw (back.0, back.1) r.rows; room = back.2 ∙ r.room }

  Searched-restored :
      (ss : List FeasibilitySlot) (out : Outcome) → Searched k ss v out → Searched k ss w out
  Searched-restored ss (found w') (os, exact, recorded, kept) =
      (os, completes, recorded, λ j h. kept j h ∙ back.3 j h)
    where
      completes : Completes w ss os
      completes = rw (← back.0, ← back.1) exact
  Searched-restored ss (failed w') (er, eo, el, kept) =
      (er ∙ back.0, eo ∙ back.1, el ∙ back.2, λ j h. kept j h ∙ back.3 j h)
  Searched-restored ss (stopped code w') h = tt

remember-Searched :
    (k : ℕ) (ss : List FeasibilitySlot) (w : Workspace) (key : StateKey)
    → Searched k ss w (failed (remember key w))
unfolding remember
remember-Searched k ss w key = (refl, refl, refl, λ j h. refl)

module _ (limits : SolverLimits) (elapsed : ℕ → ℕ) (s : FeasibilitySlot) (ss : List FeasibilitySlot)
    (k : ℕ) (key : StateKey) (deeper : Workspace → Outcome)
    (ih : (v : Workspace) → IsReady (suc k) ss v → Searched (suc k) ss v (deeper v)) where
  try_candidates-Searched :
      (ps : List ℕ) (seen : List Signature) (w : Workspace)
      → IsReady k (s ∷ ss) w
      → All (CanTake w s) ps
      → Searched k (s ∷ ss) w (try_candidates limits elapsed deeper s k key ps seen w)
  unfolding try_candidates
  try_candidates-Searched [] seen w r c = remember-Searched k (s ∷ ss) w key
  try_candidates-Searched (p ∷ ps) seen w r c =
      elim (Bool-cases (seen_before (signature p w) seen)) [
        | inl old ↦ rw old (try_candidates-Searched ps seen w r c.1)
        | inr new ↦ rw new (
            after (try_candidates-Searched ps (signature p w ∷ seen)) (deeper (assign s k p w))
              (ih (assign s k p w) (assign-IsReady s ss k p w r)))
      ]
    where
      after :
          ((v : Workspace)
            → IsReady k (s ∷ ss) v
            → All (CanTake v s) ps
            → Searched k
                (s ∷ ss)
                v
                (try_candidates limits elapsed deeper s k key ps (signature p w ∷ seen) v))
          → (out : Outcome) → Searched (suc k) ss (assign s k p w) out
          → Searched k (s ∷ ss) w (elim out [
            | found w' ↦ found w'
            | failed w' ↦
                try_candidates limits elapsed deeper s k key ps
                  (signature p w ∷ seen)
                  (unassign s k p w')
            | stopped code w' ↦ stopped code w'
          ])
      after rest (found w') h = found-Searched s ss k p w w' r c.0 h
      after rest (failed w') h =
          let v : Workspace = unassign s k p w' in
          let back : Restores k w v = failed-Searched s ss k p w w' r c.0 h in
          Searched-restored s k w v back (s ∷ ss) _ (
            rest v (IsReady-restored s k w v back (s ∷ ss) r)
              (CanTake-restored s k w v back ps c.1))
      after rest (stopped code w') h = tt

module _ (limits : SolverLimits) (elapsed : ℕ → ℕ) where
  consume_budget-Searched :
      (k : ℕ) (ss : List FeasibilitySlot) (w : Workspace) (continue : Workspace → Outcome)
      → Searched k ss w (continue (record w { states_explored = w.states_explored + 1 }))
      → Searched k ss w (consume_budget limits elapsed w continue)
  unfolding consume_budget
  consume_budget-Searched k ss w continue h =
      elim (Bool-cases (leb limits.max_steps w.states_explored)) [
        | inl out ↦ rw out tt
        | inr in_steps ↦ elim (Bool-cases (time_limit_reached limits elapsed w.states_explored)) [
          | inl late ↦ rw (in_steps, late) tt
          | inr in_time ↦ rw (in_steps, in_time) h
        ]
      ]

  -- the last slot is given away
  finished-Searched : (k : ℕ) (w : Workspace) → Searched k [] w (finish limits elapsed w)
  unfolding finish
  finished-Searched k w = elim (Bool-cases (all (λ r. r == 0) w.remaining)) [
    | inl e ↦ rw e ([], done e, tt, λ j h. refl)
    | inr e ↦ rw e (refl, refl, refl, λ j h. refl)
  ]
    where
      all_zero : (xs : List ℕ) (i : ℕ) → all (λ r. r == 0) xs ≡ true → 0 ≡ get_or xs i 0
      all_zero [] i h = refl
      all_zero (x ∷ xs) zero h = ground arith
      all_zero (x ∷ xs) (suc i) h = all_zero xs i (ground arith)

      done : all (λ r. r == 0) w.remaining ≡ true → Completes w [] []
      done e = record {
        complete = refl;
        known = tt;
        met = λ i h. all_zero w.remaining i e;
        distinct = λ i a h. ground arith;
      }

  visit-Searched :
      (k : ℕ) (s : FeasibilitySlot) (ss : List FeasibilitySlot) (w : Workspace)
      (deeper : Workspace → Outcome)
      → ((u : Workspace) → IsReady (suc k) ss u → Searched (suc k) ss u (deeper u))
      → IsReady k (s ∷ ss) w
      → Searched k (s ∷ ss) w (visit limits elapsed deeper k s ss w)
  unfolding visit
  visit-Searched k s ss w deeper ih r = elim (Bool-cases (memo_has (state_key k w) w.memo)) [
    | inl known ↦ rw known (refl, refl, refl, λ j h. refl)
    | inr new ↦ elim (Bool-cases (residual_state_possible w.remaining w.occupied (s ∷ ss))) [
      | inl possible ↦
          rw (new, possible)
            (try_candidates-Searched limits elapsed s ss k (state_key k w) deeper ih
              (candidate_indices s w) [] w r (candidate_indices-CanTake s w))
      | inr hopeless ↦ rw (new, hopeless) (remember-Searched k (s ∷ ss) w (state_key k w))
    ]
  ]

  -- Whatever `_search` does from a workspace that is ready, it does as `Searched` says.
  pub search-Searched :
      (k : ℕ) (ss : List FeasibilitySlot) (w : Workspace)
      → IsReady k ss w
      → Searched k ss w (search limits elapsed k ss w)
  unfolding search
  search-Searched k [] w r =
      consume_budget-Searched k [] w (finish limits elapsed)
        (finished-Searched k (record w { states_explored = w.states_explored + 1 }))
  search-Searched k (s ∷ ss) w r =
      consume_budget-Searched k (s ∷ ss) w
        (visit limits elapsed (search limits elapsed (suc k) ss) k s ss)
        (visit-Searched k s ss (record w { states_explored = w.states_explored + 1 })
          (search limits elapsed (suc k) ss) (search-Searched (suc k) ss)
          (record { rows = r.rows; room = r.room }))
