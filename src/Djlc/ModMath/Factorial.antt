-- ===== src/Djlc/ModMath/Factorial.antt =====
-- The tables of factorials and of their inverses, and the counts computed from them.
use native.Mathlib.Nat.{mod-mod, mod-eq_of_lt, mul_assoc, mul_comm, pow-suc}
use djiang_oss_public.Prelude.{
  ℕ, zero, suc, ◌+◌, ◌-◌, ◌*◌, ◌%◌, ◌^◌, ◌<◌, ◌≤◌, ◌≡◌, ◌≢◌, refl, sym, ap, subst, ◌∙◌, true, false,
  some, leb, inl, inr, arith, eq_cases, update, update_self, update-ne,
}
use djiang_oss_public.Prelude.Int.{ℤ, pos, ◌-ℤ◌}
use djiang_oss_public.Djlc.ModMath.{
  mod_mul, mod_inv, mod_pow, Factorials, fact_loop, inv_loop, mod_factorial_init,
}
use djiang_oss_public.Djlc.ModMath.Congruence.{Cong, Cong-mul, Cong-pow}
use djiang_oss_public.Djlc.ModMath.Residue.{residue}
use djiang_oss_public.Djlc.ModMath.Power.{mod_mul_pos, mod_pow-residue}

unfoldable pub factorial : ℕ → ℕ
factorial zero = 1
factorial (suc n) = factorial n * suc n

-- What Fermat's little theorem says of the modulus, a prime.
abbrev pub FermatHolds : ℕ → Type 0
FermatHolds m = (x : ℕ) → x % m ≢ 0 → Cong m (x ^ (m - 1)) 1

minus_two : (m : ℕ) → 1 < m → pos m -ℤ pos 2 ≡ pos (m - 2)
unfolding ◌-ℤ◌
minus_two m lt = ground arith

module _ (m : ℕ) (lt : 1 < m) (small : m * m ≤ 2 ^ 63) where
  reduced_step : (x y : ℕ) → mod_mul (pos (x % m)) (pos y) m ≡ some (pos (x * y % m))
  reduced_step x y =
      mod_mul_pos m (omega (arith, lt)) small (x % m) y
      ∙ ap (λ n. some (pos n)) (Cong-mul m (x % m) x y y (mod-mod x m) refl)

  fact_loop_lem :
      (n : ℕ) (memory : ℕ → ℤ)
      → (f : ℕ → ℤ) × (fact_loop n m memory ≡ some f)
        × ((i : ℕ) → i ≤ n → f i ≡ pos (factorial i % m))
  unfolding fact_loop factorial
  fact_loop_lem zero memory = (
    update memory 0 (pos 1),
    refl,
    λ i le.
        let first : 0 ≡ i = omega (arith, le) in
        subst (λ j. update memory 0 (pos 1) j ≡ pos (factorial j % m)) first
          (update_self memory 0 (pos 1) ∙ ap pos (sym (mod-eq_of_lt lt))),
  )
  fact_loop_lem (suc n) memory =
      let (f, run, at) = fact_loop_lem n memory in
      let last = pos (factorial (suc n) % m) in
      let step =
        ap (λ v. mod_mul v (pos (suc n)) m) (at n (omega arith))
        ∙ reduced_step (factorial n) (suc n) in
      (
        update f (suc n) last,
        rw (run, step),
        λ i le. elim (eq_cases (suc n) i) [
          | inl same ↦
              subst (λ j. update f (suc n) last j ≡ pos (factorial j % m)) same
                (update_self f (suc n) last)
          | inr other ↦ update-ne f (suc n) i last other ∙ at i (omega (arith, le, other))
        ],
      )

  -- The number inverts the factorial.
  abbrev pub Inverts : ℤ → ℕ → Type 0
  Inverts v i = (w : ℕ) × (v ≡ pos w) × Cong m (w * factorial i) 1

  inverse_step :
      (i w : ℕ) → Cong m (w * factorial (suc i)) 1 → Cong m (w * suc i % m * factorial i) 1
  unfolding factorial
  inverse_step i w c =
      Cong-mul m (w * suc i % m) (w * suc i) _ _ (mod-mod (w * suc i) m) refl
      ∙ ap (λ (t : ℕ). t % m)
          (mul_assoc w (suc i) (factorial i)
            ∙ ap (λ (t : ℕ). w * t) (mul_comm (suc i) (factorial i)))
      ∙ c

  -- The loop leaves the entries from its start on as they are.
  inv_loop_lem :
      (i : ℕ) (inv : ℕ → ℤ)
      → Inverts (inv i) i
      → (g : ℕ → ℤ) × (inv_loop i m inv ≡ some g)
        × ((j : ℕ) → j ≤ i → Inverts (g j) j)
        × ((j : ℕ) → i ≤ j → g j ≡ inv j)
  unfolding inv_loop
  inv_loop_lem zero inv v = (
    inv,
    refl,
    (λ j le. let first : 0 ≡ j = omega (arith, le) in subst (λ k. Inverts (inv k) k) first v),
    (λ j le. refl),
  )
  inv_loop_lem (suc i) inv (w, e, c) =
      let x = pos (w * suc i % m) in
      let step =
        ap (λ v. mod_mul v (pos (suc i)) m) e ∙ mod_mul_pos m (omega (arith, lt)) small w (suc i) in
      let inv' = update inv i x in
      let (g, run, good, kept) =
        inv_loop_lem i inv' (w * suc i % m, update_self inv i x, inverse_step i w c) in
      let later : (j : ℕ) → suc i ≤ j → g j ≡ inv j =
        λ j le. kept j (omega (arith, le)) ∙ update-ne inv i j x (λ q. omega (arith, le, q)) in
      (
        g,
        rw step run,
        (λ j le. elim (eq_cases (suc i) j) [
          | inl same ↦ subst (λ k. Inverts (g k) k) same (w, later (suc i) (omega arith) ∙ e, c)
          | inr other ↦ good j (omega (arith, le, other))
        ]),
        later,
      )

  -- Fermat's theorem makes the power with exponent `m - 2` an inverse.
  mod_inv_lem :
      (n : ℕ)
      → FermatHolds m
      → factorial n % m ≢ 0
      → (w : ℕ) × (mod_inv (pos (factorial n % m)) m ≡ some (pos w)) × Cong m (w * factorial n) 1
  unfolding mod_inv residue
  mod_inv_lem n fermat ne =
      let x = factorial n in
      let next : suc (m - 2) ≡ m - 1 = omega (arith, lt) in
      (
        (x % m) ^ (m - 2) % m,
        ap (λ e. mod_pow (pos (x % m)) e m) (minus_two m lt)
            ∙ mod_pow-residue (pos (x % m)) (m - 2) m (omega (arith, lt)) small (inl lt)
            ∙ ap (λ b. some (pos (b ^ (m - 2) % m))) (mod-mod x m),
        Cong-mul m _ (x ^ (m - 2)) x x
              (mod-mod ((x % m) ^ (m - 2)) m ∙ Cong-pow m (x % m) x (m - 2) (mod-mod x m)) refl
            ∙ ap (λ (t : ℕ). t % m) (sym (pow-suc x (m - 2)) ∙ ap (λ (t : ℕ). x ^ t) next)
            ∙ fermat x ne,
      )

  -- The tables up to `n`.
  pub record AreFactorials (mf : Factorials) (n : ℕ) : Type 0 where
    pub facts : (i : ℕ) → i ≤ n → mf.fact i ≡ pos (factorial i % m)
    pub inverses : (i : ℕ) → i ≤ n → Inverts (mf.inv_fact i) i
    pub size : mf.size ≡ n + 1
    pub modulus : mf.modulus ≡ m

  pub mod_factorial_init_tables :
      (memory1 memory2 : ℕ → ℤ) (n : ℕ) (mf : Factorials)
      → n + 1 < 2 ^ 31
      → FermatHolds m
      → factorial n % m ≢ 0
      → (mf' : Factorials) × (mod_factorial_init true memory1 memory2 n m mf ≡ some (true, mf'))
        × AreFactorials mf' n
  unfolding mod_factorial_init
  mod_factorial_init_tables memory1 memory2 n mf fits fermat ne =
      let counted : leb (2 ^ 31) (n + 1) ≡ false = ground arith in
      let (f, run1, facts) = fact_loop_lem n memory1 in
      let (w, run2, c) = mod_inv_lem n fermat ne in
      let last = ap (λ v. mod_inv v m) (facts n (omega arith)) ∙ run2 in
      let inv = update memory2 n (pos w) in
      let (g, run3, inverses, _) = inv_loop_lem n inv (w, update_self memory2 n (pos w), c) in
      (
        record { fact = f; inv_fact = g; size = n + 1; modulus = m },
        rw (counted, run1, last, run3),
        record { facts = facts; inverses = inverses; size = refl; modulus = refl },
      )
