-- ===== src/Djlc/ModMath/Power.antt =====
-- Fast exponentiation.
use native.Mathlib.Nat.{
  mod-mod, mod-lt, mod-eq_of_lt, pow-zero, pow-suc, mul-one, mul_assoc, mul_comm,
}
use djiang_oss_public.Prelude.{
  ℕ, zero, suc, ◌+◌, ◌*◌, ◌/◌, ◌%◌, ◌^◌, ◌<◌, ◌≤◌, ◌≡◌, ◌≢◌, refl, sym, ap, subst, ◌∙◌, ◌⊎◌, some,
  inl, inr, arith, ◌==◌, if◌then◌else◌, ==_ne, eq_cases,
}
use djiang_oss_public.Prelude.Int.{ℤ, pos, ◌*ℤ◌}
use djiang_oss_public.Djlc.ModMath.{mod_mul, pow_loop, mod_pow}
use djiang_oss_public.Djlc.ModMath.Congruence.{Cong, Cong-mul, Cong-pow, pow-square}
use djiang_oss_public.Djlc.ModMath.Residue.{IsResidue, residue, residue-IsResidue, *ℤ-IsResidue}
use djiang_oss_public.Djlc.ModMath.Basic.{djlc_mod_lem, mod_mul_residues}

-- The result of the loop, reduced unless no round is run.
abbrev settled : ℕ → ℕ → ℕ → ℕ → ℕ
settled r b e m = if e == 0 then r else r * b ^ e % m

times_one : (r b : ℕ) → r * b ^ 0 ≡ r
times_one r b = ap (λ (t : ℕ). r * t) (pow-zero b) ∙ mul-one r

settled_lem : (r b e m : ℕ) → (r < m) ⊎ (e ≢ 0) → settled r b e m ≡ r * b ^ e % m
settled_lem r b e m (inr ne) = rw (==_ne e 0 ne)
settled_lem r b zero m (inl lt) =
    sym (mod-eq_of_lt lt) ∙ ap (λ (t : ℕ). t % m) (sym (times_one r b))
settled_lem r b (suc e) m (inl lt) = rw (==_ne (suc e) 0 (λ q. omega arith))

-- A square of the base for half of the exponent.
halved : (r b k m : ℕ) → Cong m (r * (b * b % m) ^ k) (r * b ^ (k + k))
halved r b k m =
    Cong-mul m r r _ _ refl (Cong-pow m (b * b % m) (b * b) k (mod-mod (b * b) m))
    ∙ ap (λ (t : ℕ). r * t % m) (sym (pow-square b k))

odd_power : (r b k m : ℕ) → Cong m (r * b % m * b ^ (k + k)) (r * b ^ suc (k + k))
odd_power r b k m =
    Cong-mul m (r * b % m) (r * b) _ _ (mod-mod (r * b) m) refl
    ∙ ap (λ (t : ℕ). t % m) (mul_assoc r b (b ^ (k + k)))
    ∙ ap (λ (t : ℕ). r * t % m) (mul_comm b (b ^ (k + k)) ∙ sym (pow-suc b (k + k)))

module _ (m : ℕ) (lt : 0 < m) (small : m * m ≤ 2 ^ 63) where
  pub mod_mul_pos : (x y : ℕ) → mod_mul (pos x) (pos y) m ≡ some (pos (x * y % m))
  unfolding residue
  mod_mul_pos x y =
      mod_mul_residues (pos x) (pos y) m lt small
      ∙ ap (λ n. some (pos n)) (Cong-mul m (x % m) x (y % m) y (mod-mod x m) (mod-mod y m))

  pow_loop_lem :
      (fuel r b e : ℕ) → e < fuel → pow_loop fuel (pos r) (pos b) e m ≡ some (pos (settled r b e m))
  unfolding pow_loop
  pow_loop_lem zero r b e f = absurd (omega arith)
  pow_loop_lem (suc fuel) r b e f = elim (eq_cases e 0) [
    | inl done ↦ ground arith
    | inr more ↦ elim (eq_cases (e % 2) 1) [
      | inl odd ↦
          let k = e / 2 in
          let whole : suc (k + k) ≡ e = omega (arith, odd) in
          rw
            (
              ==_ne e 0 more,
              odd,
              mod_mul_pos r b,
              mod_mul_pos b b,
              pow_loop_lem fuel (r * b % m) (b * b % m) k (omega (arith, more, f)),
              settled_lem (r * b % m) (b * b % m) k m (inl (mod-lt (r * b) lt)),
            )
            (ap (λ n. some (pos n))
              (halved (r * b % m) b k m ∙ odd_power r b k m ∙ ap (λ (t : ℕ). r * b ^ t % m) whole))
      | inr even ↦
          let k = e / 2 in
          let whole : k + k ≡ e = omega (arith, even) in
          rw
            (
              ==_ne e 0 more,
              ==_ne (e % 2) 1 even,
              mod_mul_pos b b,
              pow_loop_lem fuel r (b * b % m) k (omega (arith, more, f)),
              settled_lem r (b * b % m) k m (inr (λ q. more (omega (arith, q, even)))),
            )
            (ap (λ n. some (pos n)) (halved r b k m ∙ ap (λ (t : ℕ). r * b ^ t % m) whole))
    ]
  ]

-- The power of an integer, by repeated multiplication.
unfoldable pub pow_ℤ : ℤ → ℕ → ℤ
pow_ℤ a zero = pos 1
pow_ℤ a (suc e) = pow_ℤ a e *ℤ a

pow_ℤ-IsResidue : (a : ℤ) (m e : ℕ) → 0 < m → IsResidue (pow_ℤ a e) m (residue a m ^ e % m)
unfolding pow_ℤ residue
pow_ℤ-IsResidue a m zero lt =
    subst (IsResidue (pos 1) m) (ap (λ (t : ℕ). t % m) (sym (pow-zero (residue a m))))
      (residue-IsResidue (pos 1) m lt)
pow_ℤ-IsResidue a m (suc e) lt =
    let x = residue a m in
    subst (IsResidue (pow_ℤ a e *ℤ a) m)
      (Cong-mul m (x ^ e % m) (x ^ e) x x (mod-mod (x ^ e) m) refl
        ∙ ap (λ (t : ℕ). t % m) (sym (pow-suc x e)))
      (*ℤ-IsResidue (pow_ℤ-IsResidue a m e lt) (residue-IsResidue a m lt))

-- The power as the code computes it.
pub mod_pow-residue :
    (a : ℤ) (e m : ℕ)
    → 0 < m
    → m * m ≤ 2 ^ 63
    → (1 < m) ⊎ (e ≢ 0)
    → mod_pow a (pos e) m ≡ some (pos (residue a m ^ e % m))
unfolding mod_pow
mod_pow-residue a e m lt small reduced =
    rw (djlc_mod_lem a m lt, pow_loop_lem m lt small (e + 1) 1 (residue a m) e (omega arith))
      (ap (λ n. some (pos n))
        (settled_lem 1 (residue a m) e m reduced ∙ ap (λ (t : ℕ). t % m) (omega arith)))

-- Fast exponentiation with an exponent from 0 on, modulo a positive number whose square is at most
-- 2^63, ends without overflow and gives the remainder of the integer's power, provided the modulus
-- is not 1 or the exponent not 0.
pub mod_pow_lem :
    (a : ℤ) (e m : ℕ)
    → 0 < m
    → m * m ≤ 2 ^ 63
    → (1 < m) ⊎ (e ≢ 0)
    → (r : ℕ) × (mod_pow a (pos e) m ≡ some (pos r)) × IsResidue (pow_ℤ a e) m r
mod_pow_lem a e m lt small reduced =
    (residue a m ^ e % m, mod_pow-residue a e m lt small reduced, pow_ℤ-IsResidue a m e lt)

-- Modulo 1 the power with exponent 0 is given as 1, which is no remainder.
mod_pow-one : (a : ℤ) → (mod_pow a (pos 0) 1 ≡ some (pos 1)) × (¬ IsResidue (pow_ℤ a 0) 1 1)
unfolding mod_pow pow_loop
mod_pow-one a = (rw (djlc_mod_lem a 1 (omega arith)), λ r. omega (arith, r.below))
