-- ===== src/Djlc/ModMath/Congruence.antt =====
-- Congruence of natural numbers.
use native.Mathlib.Nat.{
  add-mul-mod_self_left, mod-add-div, mul_comm, mul_assoc, pow-suc, pow-zero, add-mod, mod-lt,
  mul-add, mul-one,
}
use djiang_oss_public.Prelude.{
  ℕ, zero, suc, ◌+◌, ◌-◌, ◌*◌, ◌/◌, ◌%◌, ◌^◌, ◌<◌, ◌≡◌, refl, sym, ap, ◌∙◌, arith,
}

-- `x` and `y` leave the same remainder.
abbrev pub Cong : ℕ → ℕ → ℕ → Type 0
Cong m x y = x % m ≡ y % m

-- A factor may be reduced.
mod-mul_left : (m x y : ℕ) → Cong m (x % m * y) (x * y)
mod-mul_left m x y =
    let split : x * y ≡ x % m * y + m * (x / m * y) =
      ap (λ (t : ℕ). t * y) (sym (mod-add-div x m)) ∙ grind arith in
    sym (ap (λ (t : ℕ). t % m) split ∙ add-mul-mod_self_left (x % m * y) m (x / m * y))

Cong-mul_left : (m x x' y : ℕ) → Cong m x x' → Cong m (x * y) (x' * y)
Cong-mul_left m x x' y e =
    sym (mod-mul_left m x y) ∙ ap (λ (t : ℕ). t * y % m) e ∙ mod-mul_left m x' y

pub Cong-mul : (m x x' y y' : ℕ) → Cong m x x' → Cong m y y' → Cong m (x * y) (x' * y')
Cong-mul m x x' y y' e f =
    Cong-mul_left m x x' y e
    ∙ ap (λ (t : ℕ). t % m) (mul_comm x' y)
    ∙ Cong-mul_left m y y' x' f
    ∙ ap (λ (t : ℕ). t % m) (mul_comm y' x')

pub Cong-pow : (m x y e : ℕ) → Cong m x y → Cong m (x ^ e) (y ^ e)
Cong-pow m x y zero c = ap (λ (t : ℕ). t % m) (pow-zero x ∙ sym (pow-zero y))
Cong-pow m x y (suc e) c =
    ap (λ (t : ℕ). t % m) (pow-suc x e)
    ∙ Cong-mul m (x ^ e) (y ^ e) x y (Cong-pow m x y e c) c
    ∙ ap (λ (t : ℕ). t % m) (sym (pow-suc y e))

pub pow-square : (x e : ℕ) → x ^ (e + e) ≡ (x * x) ^ e
pow-square x zero = pow-zero x ∙ sym (pow-zero (x * x))
pow-square x (suc e) =
    let twice : suc e + suc e ≡ suc (suc (e + e)) = omega arith in
    ap (λ (t : ℕ). x ^ t) twice
    ∙ pow-suc x (suc (e + e))
    ∙ ap (λ (t : ℕ). t * x) (pow-suc x (e + e) ∙ ap (λ (t : ℕ). t * x) (pow-square x e))
    ∙ mul_assoc ((x * x) ^ e) x x
    ∙ sym (pow-suc (x * x) e)

pub Cong-add : (m x x' y y' : ℕ) → Cong m x x' → Cong m y y' → Cong m (x + y) (x' + y')
Cong-add m x x' y y' e f = add-mod x y m ∙ (λ i. (e i + f i) % m) ∙ sym (add-mod x' y' m)

-- A number and what takes it up to a multiple of the modulus.
pub complement : (m n x : ℕ) → 0 < m → Cong m (x + (n + (m - n % m))) x
complement m n x lt =
    let whole : x + (n + (m - n % m)) ≡ x + m * (n / m + 1) =
      omega (arith, mod-add-div n m, mod-lt n lt, mul-add m (n / m) 1, mul-one m) in
    ap (λ (t : ℕ). t % m) whole ∙ add-mul-mod_self_left x m (n / m + 1)

pub Cong-cancel : (m n x y : ℕ) → 0 < m → Cong m (n + x) (n + y) → Cong m x y
Cong-cancel m n x y lt e =
    let c = m - n % m in
    sym (complement m n x lt)
    ∙ ap (λ (t : ℕ). t % m) (omega arith)
    ∙ Cong-add m (n + x) (n + y) c c e refl
    ∙ ap (λ (t : ℕ). t % m) (omega arith)
    ∙ complement m n y lt
