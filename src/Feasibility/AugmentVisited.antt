-- ===== src/Feasibility/AugmentVisited.antt =====
-- What the augmenting-path search keeps when it has visited more participants.
use reparto_docente_m.Prelude.{
  ℕ, Bool, false, some, List, ◌≡◌, sym, ap, ◌∙◌, ◌⊎◌, inl, inr, contains, arith, Bool-cases, In,
}
use reparto_docente_m.Feasibility.Matching.{Matches}
use reparto_docente_m.Feasibility.Augment.{Owns, IsInjective, IsReady, Rematched}

module _ (can : ℕ → ℕ → Bool) (keys : List ℕ) where
  -- What has been visited in between only adds matches that stay.
  pub Rematched-widen :
      (V W : List ℕ) (slot : ℕ) (m m' : Matches)
      → ((q : ℕ) → In V q → In W q)
      → IsReady can keys V slot m
      → Rematched can keys W slot m m'
      → Rematched can keys V slot m m'
  Rematched-widen V W slot m m' grown ready r = record {
    sound = r.sound;
    kept = λ q h. r.kept q (grown q h);
    injective = injective;
    owns = owns;
    covers = covers;
    takes = (r.takes.0, outside r.takes.0 r.takes.1, r.takes.2);
  }
    where
      outside : (q : ℕ) → contains W q ≡ false → contains V q ≡ false
      outside q out = ground (arith, grown q, out)

      crossed :
          (q s t : ℕ)
          → contains V q ≡ false
          → In W q
          → contains W s ≡ false
          → m' q ≡ some t
          → m' s ≡ some t
          → ⊥
      crossed q s t out i sout eq es = elim (r.owns t (s, sout, es)) [
        | inl (u, uout, eu) ↦
            ground (
              arith,
              i,
              uout,
              ready.injective q u t out (outside u uout) (sym (r.kept q i) ∙ eq) eu,
            )
        | inr e ↦ ready.fresh q out (sym (r.kept q i) ∙ eq ∙ ap some e)
      ]

      injective : IsInjective m' V
      injective q s t qv sv eq es = elim (Bool-cases (contains W q)) [
        | inl a ↦ elim (Bool-cases (contains W s)) [
          | inl b ↦ ready.injective q s t qv sv (sym (r.kept q a) ∙ eq) (sym (r.kept s b) ∙ es)
          | inr b ↦ absurd (crossed q s t qv a b eq es)
        ]
        | inr a ↦ elim (Bool-cases (contains W s)) [
          | inl b ↦ absurd (crossed s q t sv b a es eq)
          | inr b ↦ r.injective q s t a b eq es
        ]
      ]

      owns : (t : ℕ) → Owns m' V t → Owns m V t ⊎ (t ≡ slot)
      owns t (q, out, e) = elim (Bool-cases (contains W q)) [
        | inl i ↦ inl (q, out, sym (r.kept q i) ∙ e)
        | inr i ↦ elim (r.owns t (q, i, e)) [
          | inl (u, uout, eu) ↦ inl (u, outside u uout, eu)
          | inr same ↦ inr same
        ]
      ]

      covers : (t : ℕ) → Owns m V t → Owns m' V t
      covers t (q, out, e) = elim (Bool-cases (contains W q)) [
        | inl i ↦ (q, out, r.kept q i ∙ e)
        | inr i ↦ let o : Owns m' W t = r.covers t (q, i, e) in (o.0, outside o.0 o.1, o.2)
      ]
