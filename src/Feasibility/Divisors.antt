-- ===== src/Feasibility/Divisors.antt =====
-- `math.gcd` divides each of its arguments.
use Prim.Native.Nat.{◌∣◌}
use native.Mathlib.Nat.{dvd_refl, dvd-zero, dvd-mod_iff, dvd_trans, mod-lt}
use reparto_docente_m.Prelude.{
  ℕ, zero, suc, ◌<◌, ◌%◌, ◌==◌, List, [], ◌∷◌, arith, Bool-cases, inl, inr, ==_iff, In,
}
use reparto_docente_m.Feasibility.Residual.{gcd_rounds, gcd, gcd_all}

gcd_rounds_dvd : (fuel a b : ℕ) → b < fuel → (gcd_rounds fuel a b ∣ a) × (gcd_rounds fuel a b ∣ b)
unfolding gcd_rounds
gcd_rounds_dvd zero a b h = absurd (omega (arith, h))
gcd_rounds_dvd (suc fuel) a b h = elim (Bool-cases (b == 0)) [
  | inl e ↦ rw e (dvd_refl a, rw ((==_iff b 0).0 e) (dvd-zero a))
  | inr e ↦ rw e (
      let lt : a % b < b = mod-lt a (ground (arith, e)) in
      let (d, r) = gcd_rounds_dvd fuel b (a % b) (omega (arith, lt, h)) in
      ((dvd-mod_iff _ d).0 r, d))
]

gcd_dvd : (a b : ℕ) → (gcd a b ∣ a) × (gcd a b ∣ b)
unfolding gcd
gcd_dvd a b = gcd_rounds_dvd (suc b) a b (omega arith)

-- The greatest common divisor of a list divides each member.
pub gcd_all_dvd : (xs : List ℕ) (x : ℕ) → In xs x → gcd_all xs ∣ x
unfolding gcd_all
gcd_all_dvd [] x h = absurd (ground (arith, h))
gcd_all_dvd (y ∷ ys) x h = elim (Bool-cases (x == y)) [
  | inl e ↦ rw ((==_iff x y).0 e) (gcd_dvd y (gcd_all ys)).0
  | inr e ↦
      dvd_trans (gcd y (gcd_all ys)) (gcd_dvd y (gcd_all ys)).1
        (gcd_all_dvd ys x (ground (arith, h, e)))
]
