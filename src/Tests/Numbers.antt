-- ===== src/Tests/Numbers.antt =====
-- Modular arithmetic on small numbers.
use native.Mathlib.Nat.{mod-lt, pow-suc, pow-zero}
use djiang_oss_public.Prelude.{
  ℕ, ◌-◌, ◌*◌, ◌%◌, ◌^◌, ◌≤◌, ◌<◌, ◌≡◌, ap, ◌∙◌, ◌⊎◌, inl, inr, Bool-cases, ◌==◌, true, some, arith,
}
use djiang_oss_public.Prelude.Int.{ℤ, pos, negsuc, ◌+ℤ◌, ◌-ℤ◌, ◌*ℤ◌, ◌<ℤ◌}
use djiang_oss_public.Djlc.ModMath.{
  djlc_mod, mod_add, mod_sub, mod_mul, mod_pow, Factorials, mod_factorial_init, mod_ncr, mod_npr,
}
use djiang_oss_public.Djlc.ModMath.Congruence.{Cong, Cong-mul}
use djiang_oss_public.Djlc.ModMath.Residue.{IsResidue}
use djiang_oss_public.Djlc.ModMath.Basic.{mod_operations}
use djiang_oss_public.Djlc.ModMath.Power.{pow_ℤ, mod_pow_lem}
use djiang_oss_public.Djlc.ModMath.Factorial.{factorial, FermatHolds}
use djiang_oss_public.Djlc.ModMath.Combinations.{combinations_lem}

mod_operations_example :
    (r : ℕ) × (s : ℕ) × (d : ℕ) × (p : ℕ) × (djlc_mod (negsuc 3) 7 ≡ some (pos r))
    × IsResidue (negsuc 3) 7 r
    × (mod_add (negsuc 3) (pos 5) 7 ≡ some (pos s))
    × IsResidue (negsuc 3 +ℤ pos 5) 7 s
    × (mod_sub (negsuc 3) (pos 5) 7 ≡ some (pos d))
    × IsResidue (negsuc 3 -ℤ pos 5) 7 d
    × (mod_mul (negsuc 3) (pos 5) 7 ≡ some (pos p))
    × IsResidue (negsuc 3 *ℤ pos 5) 7 p
mod_operations_example = mod_operations (negsuc 3) (pos 5) 7 (omega arith) (omega arith)

mod_pow_example :
    (r : ℕ) × (mod_pow (negsuc 2) (pos 5) 7 ≡ some (pos r)) × IsResidue (pow_ℤ (negsuc 2) 5) 7 r
mod_pow_example = mod_pow_lem (negsuc 2) 5 7 (omega arith) (omega arith) (inl (omega arith))

square : (x r : ℕ) → Cong 3 x r → Cong 3 (x ^ 2) (r * r)
square x r e = ap (λ (t : ℕ). t % 3) (grind (arith, pow-suc, pow-zero)) ∙ Cong-mul 3 x r x r e e

three-FermatHolds : FermatHolds 3
three-FermatHolds x ne = elim (Bool-cases (x % 3 == 1)) [
  | inl one ↦ square x 1 (ground arith)
  | inr other ↦ let small : x % 3 < 3 = mod-lt x (omega arith) in square x 2 (grind (arith, small))
]

abbrev tables : Factorials
tables = record { fact = λ i. pos 0; inv_fact = λ i. pos 0; size = 0; modulus = 0 }

combinations_example :
    (mf' : Factorials) × (mod_factorial_init true (λ i. pos 0) (λ i. pos 0) 2 3 tables
      ≡ some (true, mf'))
    × ((k r : ℕ)
        → r ≤ k
        → k ≤ 2
        → (c : ℕ) × (p : ℕ) × (mod_ncr mf' k (pos r) ≡ some (pos c))
          × (c < 3)
          × Cong 3 (c * (factorial r * factorial (k - r))) (factorial k)
          × (mod_npr mf' k (pos r) ≡ some (pos p))
          × (p < 3)
          × Cong 3 (p * factorial (k - r)) (factorial k))
    × ((k : ℕ) (r : ℤ)
        → (r <ℤ pos 0) ⊎ (pos k <ℤ r)
        → (mod_ncr mf' k r ≡ some (pos 0)) × (mod_npr mf' k r ≡ some (pos 0)))
unfolding factorial
combinations_example =
    combinations_lem 3 (λ i. pos 0) (λ i. pos 0) 2 tables (omega arith) (omega arith) (omega arith)
      three-FermatHolds (omega arith)
