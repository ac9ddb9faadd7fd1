-- ===== src/Djlc/ModMath/Basic.antt =====
-- The basic operations give the remainders of the integer results.
use native.Mathlib.Nat.{suc-mod, mod-lt, mod-eq_of_lt, mod_self, mul-le-mul_right}
use djiang_oss_public.Prelude.{
  ℕ, suc, ◌+◌, ◌-◌, ◌*◌, ◌%◌, ◌^◌, ◌<◌, ◌≤◌, ◌≡◌, ap, ◌∙◌, some, inl, inr, arith, ltb, ◌==◌,
  if◌then◌else◌, eq_cases, Bool-cases, ltb→lt,
}
use djiang_oss_public.Prelude.Int.{ℤ, pos, negsuc, ◌+ℤ◌, ◌-ℤ◌, ◌*ℤ◌}
use djiang_oss_public.Djlc.ModMath.{checked, rem, djlc_mod, mod_add, mod_sub, mod_mul}
use djiang_oss_public.Djlc.ModMath.Residue.{
  IsResidue, residue, residue-IsResidue, +ℤ-IsResidue, -ℤ-IsResidue, *ℤ-IsResidue,
}

-- `(n + 1) % m` from `n % m`.
next_rem : (n m : ℕ) → 0 < m → (n + 1) % m ≡ (if n % m + 1 == m then 0 else n % m + 1)
next_rem n m lt =
    let step : (n + 1) % m ≡ suc (n % m) % m = ap (λ (t : ℕ). t % m) (omega arith) ∙ suc-mod n m in
    elim (eq_cases (suc (n % m)) m) [
      | inl e ↦ step ∙ ap (λ (t : ℕ). t % m) e ∙ mod_self m ∙ ground arith
      | inr ne ↦ step ∙ mod-eq_of_lt (omega (arith, mod-lt n lt, ne)) ∙ ground arith
    ]

pub djlc_mod_lem : (a : ℤ) (m : ℕ) → 0 < m → djlc_mod a m ≡ some (pos (residue a m))
unfolding djlc_mod rem residue ◌+ℤ◌
djlc_mod_lem (pos n) m lt = ground arith
djlc_mod_lem (negsuc n) m lt = ground (arith, next_rem n m lt, mod-lt n lt)

-- A remainder is reduced no further.
djlc_mod_pos : (n m : ℕ) → 0 < m → djlc_mod (pos n) m ≡ some (pos (n % m))
unfolding residue
djlc_mod_pos n m lt = djlc_mod_lem (pos n) m lt

checked_pos : (n : ℕ) → n < 2 ^ 63 → checked (pos n) ≡ some (pos n)
unfolding checked
checked_pos n lt = ground arith

pos-add : (x y : ℕ) → pos x +ℤ pos y ≡ pos (x + y)
unfolding ◌+ℤ◌
pos-add x y = ground arith

pos-mul : (x y : ℕ) → pos x *ℤ pos y ≡ pos (x * y)
unfolding ◌*ℤ◌
pos-mul x y = ground arith

product_lt : (x y m : ℕ) → x < m → y < m → x * y < m * m
product_lt x y m p q = grind arith

-- The difference of two remainders may be negative, and the modulus makes up for it.
pos-sub : (x y m : ℕ) → y < m → (pos x -ℤ pos y) +ℤ pos m ≡ pos (x + m - y)
unfolding ◌-ℤ◌ ◌+ℤ◌
pos-sub x y m lt = ground arith

checked_difference :
    (x y : ℕ) → x < 2 ^ 63 → y < 2 ^ 63 → checked (pos x -ℤ pos y) ≡ some (pos x -ℤ pos y)
unfolding checked ◌-ℤ◌
checked_difference x y p q = ground arith

module _ (a b : ℤ) (m : ℕ) (lt : 0 < m) where
  pub mod_add_residues : m ≤ 2 ^ 62 → mod_add a b m ≡ some (pos ((residue a m + residue b m) % m))
  unfolding mod_add
  mod_add_residues small =
      let u = residue-IsResidue a m lt in
      let v = residue-IsResidue b m lt in
      rw
        (
          djlc_mod_lem a m lt,
          djlc_mod_lem b m lt,
          pos-add (residue a m) (residue b m),
          checked_pos (residue a m + residue b m) (omega (arith, u.below, v.below)),
        )
        (djlc_mod_pos (residue a m + residue b m) m lt)

  pub mod_sub_residues :
      m ≤ 2 ^ 62 → mod_sub a b m ≡ some (pos ((residue a m + m - residue b m) % m))
  unfolding mod_sub
  mod_sub_residues small =
      let u = residue-IsResidue a m lt in
      let v = residue-IsResidue b m lt in
      rw
        (
          djlc_mod_lem a m lt,
          djlc_mod_lem b m lt,
          checked_difference (residue a m) (residue b m) (omega (arith, u.below))
              (omega (arith, v.below)),
          pos-sub (residue a m) (residue b m) m v.below,
          checked_pos (residue a m + m - residue b m) (omega (arith, u.below)),
        )
        (djlc_mod_pos (residue a m + m - residue b m) m lt)

  pub mod_mul_residues : m * m ≤ 2 ^ 63 → mod_mul a b m ≡ some (pos (residue a m * residue b m % m))
  unfolding mod_mul
  mod_mul_residues small =
      let u = residue-IsResidue a m lt in
      let v = residue-IsResidue b m lt in
      let below = product_lt (residue a m) (residue b m) m u.below v.below in
      rw
        (
          djlc_mod_lem a m lt,
          djlc_mod_lem b m lt,
          pos-mul (residue a m) (residue b m),
          checked_pos (residue a m * residue b m) (omega (arith, below)),
        )
        (djlc_mod_pos (residue a m * residue b m) m lt)

root_small : (k : ℕ) → k * k ≤ 2 ^ 63 → k ≤ 2 ^ 62
root_small k sq = elim (Bool-cases (ltb (2 ^ 62) k)) [
  | inl big ↦
      let four : 4 ≤ k = omega (arith, ltb→lt (2 ^ 62) k big) in
      absurd (omega (arith, mul-le-mul_right k four, ltb→lt (2 ^ 62) k big))
  | inr fits ↦ ground arith
]

-- Modulo a positive number whose square is at most 2^63, reducing, adding, subtracting and
-- multiplying any two integers is free of overflow and gives the remainder, from 0 to the modulus
-- less one, of the integer itself, the sum, the difference and the product.
pub mod_operations :
    (a b : ℤ) (m : ℕ)
    → 0 < m
    → m * m ≤ 2 ^ 63
    → (r : ℕ) × (s : ℕ) × (d : ℕ) × (p : ℕ) × (djlc_mod a m ≡ some (pos r))
      × IsResidue a m r
      × (mod_add a b m ≡ some (pos s))
      × IsResidue (a +ℤ b) m s
      × (mod_sub a b m ≡ some (pos d))
      × IsResidue (a -ℤ b) m d
      × (mod_mul a b m ≡ some (pos p))
      × IsResidue (a *ℤ b) m p
mod_operations a b m lt small =
    let u = residue-IsResidue a m lt in
    let v = residue-IsResidue b m lt in
    let half : m ≤ 2 ^ 62 = root_small m small in
    (
      residue a m,
      (residue a m + residue b m) % m,
      (residue a m + m - residue b m) % m,
      residue a m * residue b m % m,
      djlc_mod_lem a m lt,
      u,
      mod_add_residues a b m lt half,
      +ℤ-IsResidue u v,
      mod_sub_residues a b m lt half,
      -ℤ-IsResidue u v,
      mod_mul_residues a b m lt small,
      *ℤ-IsResidue u v,
    )
