-- ===== src/Djlc/ModMath.antt =====
-- djlc/include/mod_math.h: arithmetic modulo a positive number in `long long`, 64 bits wide. A
-- division by zero and an overflow are undefined: `none`. A negative modulus is left out.
pub mod Congruence
pub mod Residue
pub mod Basic
pub mod Power
pub mod Factorial
pub mod Combinations
use djiang_oss_public.Prelude.{
  ℕ, zero, suc, ◌+◌, ◌-◌, ◌/◌, ◌%◌, ◌^◌, Bool, true, false, Option, none, some, leb, ltb, ◌==◌,
  if◌then◌else◌, update, ◌>>=◌,
}
use djiang_oss_public.Prelude.Int.{ℤ, pos, negsuc, pos_part, sub_ℕ, ltb_ℤ, ◌+ℤ◌, ◌-ℤ◌, ◌*ℤ◌}

abbrev pub mod_1e9_7 : ℕ
mod_1e9_7 = 1000000007

abbrev pub mod_1e9_9 : ℕ
mod_1e9_9 = 1000000009

abbrev pub mod_998244353 : ℕ
mod_998244353 = 998244353

-- A value that a `long long` holds.
unfoldable pub checked : ℤ → Option ℤ
checked (pos n) = if ltb n (2 ^ 63) then some (pos n) else none
checked (negsuc n) = if ltb n (2 ^ 63) then some (negsuc n) else none

-- `a % m` has the sign of `a`.
unfoldable pub rem : ℤ → ℕ → ℤ
rem (pos n) m = pos (n % m)
rem (negsuc n) m = sub_ℕ 0 ((n + 1) % m)

unfoldable pub djlc_mod : ℤ → ℕ → Option ℤ
unfolding rem
djlc_mod a m =
    let r = rem a m in if m == 0 then none else some (if ltb_ℤ r (pos 0) then r +ℤ pos m else r)

unfoldable pub mod_add : ℤ → ℤ → ℕ → Option ℤ
mod_add a b m = do x ← djlc_mod a m; y ← djlc_mod b m; s ← checked (x +ℤ y); djlc_mod s m

unfoldable pub mod_sub : ℤ → ℤ → ℕ → Option ℤ
mod_sub a b m = do
  x ← djlc_mod a m
  y ← djlc_mod b m
  d ← checked (x -ℤ y)
  s ← checked (d +ℤ pos m)
  djlc_mod s m

unfoldable pub mod_mul : ℤ → ℤ → ℕ → Option ℤ
mod_mul a b m = do x ← djlc_mod a m; y ← djlc_mod b m; p ← checked (x *ℤ y); djlc_mod p m

-- The loop of `djlc_mod_pow` over `result`, `base` and `exp`, on fuel.
unfoldable pub pow_loop : ℕ → ℤ → ℤ → ℕ → ℕ → Option ℤ
pow_loop zero result base exp m = none
pow_loop (suc fuel) result base exp m =
    let round : Option ℤ = do
      result' ← if exp % 2 == 1 then mod_mul result base m else some result
      base' ← mod_mul base base m
      pow_loop fuel result' base' (exp / 2) m
    in if exp == 0 then some result else round

unfoldable pub mod_pow : ℤ → ℤ → ℕ → Option ℤ
mod_pow base exp m = djlc_mod base m >>= λ b. pow_loop (pos_part exp + 1) (pos 1) b (pos_part exp) m

unfoldable pub mod_inv : ℤ → ℕ → Option ℤ
mod_inv a m = mod_pow a (pos m -ℤ pos 2) m

unfoldable pub mod_div : ℤ → ℤ → ℕ → Option ℤ
mod_div a b m = mod_inv b m >>= λ i. mod_mul a i m

-- `djlc_mod_factorial_t`; the arrays as functions of the index.
pub record Factorials : Type 0 where
  pub fact : ℕ → ℤ
  pub inv_fact : ℕ → ℤ
  pub size : ℕ
  pub modulus : ℕ

-- `for (i = 1; i <= n; i++) fact[i] = mod_mul(fact[i - 1], i, mod);`
unfoldable pub fact_loop : ℕ → ℕ → (ℕ → ℤ) → Option (ℕ → ℤ)
fact_loop zero m fact = some (update fact 0 (pos 1))
fact_loop (suc n) m fact = do
  f ← fact_loop n m fact
  v ← mod_mul (f n) (pos (suc n)) m
  some (update f (suc n) v)

-- `for (i = n - 1; i >= 0; i--) inv_fact[i] = mod_mul(inv_fact[i + 1], i + 1, mod);`
unfoldable pub inv_loop : ℕ → ℕ → (ℕ → ℤ) → Option (ℕ → ℤ)
inv_loop zero m inv = some inv
inv_loop (suc i) m inv =
    mod_mul (inv (suc i)) (pos (suc i)) m >>= λ v. inv_loop i m (update inv i v)

-- `n + 1` is an `int`. Whether the allocations succeed, and what the memory holds, are arguments. The arrays' pointers
-- are not represented: after a failure they are left as they come.
unfoldable pub mod_factorial_init :
    Bool → (ℕ → ℤ) → (ℕ → ℤ) → ℕ → ℕ → Factorials → Option (Bool × Factorials)
mod_factorial_init allocated memory1 memory2 n m mf =
    let filled : Option (Bool × Factorials) = do
      f ← fact_loop n m memory1
      last ← mod_inv (f n) m
      inv ← inv_loop n m (update memory2 n last)
      some (true, record { fact = f; inv_fact = inv; size = n + 1; modulus = m })
    in if leb (2 ^ 31) (n + 1) then none else if allocated then filled else some (false, mf)

-- The arrays' pointers, which are then NULL, are not represented.
unfoldable mod_factorial_free : Factorials → Factorials
mod_factorial_free mf = record mf { size = 0 }

-- A read in the array.
unfoldable pub entry : (ℕ → ℤ) → ℕ → ℕ → Option ℤ
entry array size i = if ltb i size then some (array i) else none

unfoldable pub mod_ncr : Factorials → ℕ → ℤ → Option ℤ
mod_ncr mf n r =
    let product : Option ℤ = do
      f ← entry mf.fact mf.size n
      i ← entry mf.inv_fact mf.size (pos_part r)
      j ← entry mf.inv_fact mf.size (n - pos_part r)
      q ← mod_mul i j mf.modulus
      mod_mul f q mf.modulus
    in if ltb_ℤ r (pos 0) then some (pos 0) else if ltb_ℤ (pos n) r then some (pos 0) else product

unfoldable pub mod_npr : Factorials → ℕ → ℤ → Option ℤ
mod_npr mf n r =
    let product : Option ℤ = do
      f ← entry mf.fact mf.size n
      j ← entry mf.inv_fact mf.size (n - pos_part r)
      mod_mul f j mf.modulus
    in if ltb_ℤ r (pos 0) then some (pos 0) else if ltb_ℤ (pos n) r then some (pos 0) else product
