-- ===== src/Feasibility/Refutation.antt =====
-- A search that fails has shown that nothing completes its state.
use reparto_docente_m.Prelude.{
  ℕ, zero, suc, true, ◌-◌, ◌<◌, leb, List, [], ◌∷◌, ◌≡◌, refl, sym, ◌∙◌, ap, subst, map, get_or,
  length, drop, contains, All, list_eq_sound, arith, Bool-cases, inl, inr, length-set, update,
  ==_refl,
}
use reparto_docente_m.Prelude.Sort.{sort_ids, contains-sort_by}
use reparto_docente_m.Feasibility.Types.{TextId, FeasibilitySlot}
use reparto_docente_m.Feasibility.Search.{
  Workspace, StateKey, assign, key_eq, lists_eq, memo_has, state_key,
}
use reparto_docente_m.Feasibility.Exact.{Exact-ext, Exact-uncons, occupy}
use reparto_docente_m.Feasibility.Workspaces.{target_at, busy_at, target_at-assign, busy_at-assign}
use reparto_docente_m.Feasibility.Pruning.{IsExactIn}
use reparto_docente_m.Feasibility.Symmetry.{swap, Exact-swap}

-- Nothing completes the slots from these targets and occupied activities.
abbrev pub Dead : List ℕ → List (List TextId) → List FeasibilitySlot → Type 0
Dead remaining occupied ss = (os : List ℕ) → IsExactIn remaining occupied ss os → ⊥

-- A remembered state is dead, with the slots from its index on.
abbrev pub IsDeadKey : List FeasibilitySlot → StateKey → Type 0
IsDeadKey slots key = Dead key.targets key.busy (drop key.slot_index slots)

lists_eq_sound : (xs ys : List (List ℕ)) → lists_eq xs ys ≡ true → xs ≡ ys
lists_eq_sound [] [] h = refl
lists_eq_sound [] (y ∷ ys) h = ground arith
lists_eq_sound (x ∷ xs) [] h = ground arith
lists_eq_sound (x ∷ xs) (y ∷ ys) h = ground (arith, list_eq_sound x y, lists_eq_sound xs ys)

key_eq_sound : (a b : StateKey) → key_eq a b ≡ true → a ≡ b
key_eq_sound a b h =
    ground (arith, h, list_eq_sound a.targets b.targets, lists_eq_sound a.busy b.busy)

pub memo_has-IsDeadKey :
    (slots : List FeasibilitySlot) (key : StateKey) (memo : List StateKey)
    → All (IsDeadKey slots) memo
    → memo_has key memo ≡ true
    → IsDeadKey slots key
memo_has-IsDeadKey slots key [] d h = absurd (ground (arith, h))
memo_has-IsDeadKey slots key (k ∷ memo) d h = elim (Bool-cases (key_eq key k)) [
  | inl e ↦ rw (key_eq_sound key k e) d.0
  | inr e ↦ memo_has-IsDeadKey slots key memo d.1 (ground (arith, h, e))
]

get_or-sorted :
    (occupied : List (List TextId)) (i : ℕ)
    → get_or (map sort_ids occupied) i [] ≡ sort_ids (get_or occupied i [])
get_or-sorted [] i = refl
get_or-sorted (xs ∷ occupied) zero = refl
get_or-sorted (xs ∷ occupied) (suc i) = get_or-sorted occupied i

contains-sorted :
    (occupied : List (List TextId)) (i a : ℕ)
    → contains (get_or (map sort_ids occupied) i []) a ≡ contains (get_or occupied i []) a
contains-sorted occupied i a =
    rw (get_or-sorted occupied i) (contains-sort_by leb a (get_or occupied i []))

-- The key of a state is dead exactly when the state is.
module _ (slots ss : List FeasibilitySlot) (k : ℕ) (w : Workspace) (rest : drop k slots ≡ ss) where
  pub key-Dead : IsDeadKey slots (state_key k w) → Dead w.remaining w.occupied ss
  unfolding state_key
  key-Dead d os x = d os (
      rw rest (Exact-ext _ _ _ _ ss os (λ i. refl) (λ i a. sym (contains-sorted w.occupied i a)) x))

  pub Dead-key : Dead w.remaining w.occupied ss → IsDeadKey slots (state_key k w)
  unfolding state_key
  Dead-key d os x = d os (
      Exact-ext _ _ _ _ ss os (λ i. refl) (contains-sorted w.occupied)
        (subst (λ ts. IsExactIn w.remaining (map sort_ids w.occupied) ts os) rest x))

-- The participant cannot own the first slot.
abbrev pub Refuted :
    List ℕ → List (List TextId) → FeasibilitySlot → List FeasibilitySlot → ℕ → Type 0
Refuted remaining occupied s ss i =
    (os : List ℕ) → IsExactIn remaining occupied (s ∷ ss) (i ∷ os) → ⊥

module _ (s : FeasibilitySlot) (ss : List FeasibilitySlot) (w : Workspace) where
  -- After a deeper failure the participant is refuted.
  pub assign-Refuted :
      (k p : ℕ)
      → length w.occupied ≡ length w.remaining
      → p < length w.remaining
      → Dead (assign s k p w).remaining (assign s k p w).occupied ss
      → Refuted w.remaining w.occupied s ss p
  assign-Refuted k p rows lt d os x =
      let (_, fits, free, rest) =
        Exact-uncons (length w.remaining) (target_at w) (busy_at w) s ss p os x in
      d os (
        Exact-ext (update (target_at w) p (target_at w p - s.hours_units))
          (target_at (assign s k p w)) (occupy (busy_at w) p s.activity_id)
          (busy_at (assign s k p w)) ss os (λ i. sym (target_at-assign s k p w rows lt i))
          (λ i a. sym (busy_at-assign s k p w rows lt i a))
          (unfold assign in rw (length-set w.remaining p (target_at w p - s.hours_units)) rest))

  -- So is one with the same signature.
  pub same_signature-Refuted :
      (p q : ℕ)
      → p < length w.remaining
      → q < length w.remaining
      → get_or w.remaining p 0 ≡ get_or w.remaining q 0
      → sort_ids (get_or w.occupied p []) ≡ sort_ids (get_or w.occupied q [])
      → Refuted w.remaining w.occupied s ss q
      → Refuted w.remaining w.occupied s ss p
  same_signature-Refuted p q hp hq et eb r os x = r (map (swap p q) os) (
      subst (λ o. IsExactIn w.remaining w.occupied (s ∷ ss) (o ∷ map (swap p q) os))
        (rw (==_refl p))
        (Exact-swap p q (length w.remaining) (target_at w) (busy_at w) (s ∷ ss) (p ∷ os) hp hq et
          busy x))
    where
      busy : (a : TextId) → busy_at w p a ≡ busy_at w q a
      busy a =
          sym (contains-sort_by leb a (get_or w.occupied p []))
          ∙ ap (λ xs. contains xs a) eb
          ∙ contains-sort_by leb a (get_or w.occupied q [])
