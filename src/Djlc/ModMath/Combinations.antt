-- ===== src/Djlc/ModMath/Combinations.antt =====
-- Counting combinations and arrangements with the tables.
use native.Mathlib.Nat.{mod-mod, mod-lt, mul_assoc}
use djiang_oss_public.Prelude.{
  ℕ, ◌+◌, ◌-◌, ◌*◌, ◌%◌, ◌^◌, ◌<◌, ◌≤◌, ◌≡◌, ◌≢◌, refl, ap, ◌∙◌, true, false, some, arith, ◌⊎◌, inl,
  inr, lt→ltb, Bool-cases,
}
use djiang_oss_public.Prelude.Int.{ℤ, pos, ltb_ℤ, ◌<ℤ◌}
use djiang_oss_public.Djlc.ModMath.{
  mod_mul, Factorials, mod_factorial_init, entry, mod_ncr, mod_npr,
}
use djiang_oss_public.Djlc.ModMath.Congruence.{Cong, Cong-mul}
use djiang_oss_public.Djlc.ModMath.Power.{mod_mul_pos}
use djiang_oss_public.Djlc.ModMath.Factorial.{
  factorial, FermatHolds, AreFactorials, mod_factorial_init_tables,
}

shuffle : (f w v r s : ℕ) → f * (w * v) * (r * s) ≡ f * (w * r * (v * s))
shuffle f w v r s = grind arith

-- No combinations of a negative number of elements, or of more than there are.
outside :
    (mf : Factorials) (k : ℕ) (r : ℤ)
    → (r <ℤ pos 0) ⊎ (pos k <ℤ r)
    → (mod_ncr mf k r ≡ some (pos 0)) × (mod_npr mf k r ≡ some (pos 0))
unfolding mod_ncr mod_npr
outside mf k r (inl below) =
    let test : ltb_ℤ r (pos 0) ≡ true = lt→ltb _ _ below in (rw test, rw test)
outside mf k r (inr above) =
    let second : ltb_ℤ (pos k) r ≡ true = lt→ltb _ _ above in
    elim (Bool-cases (ltb_ℤ r (pos 0))) [
      | inl first ↦ (rw first, rw first)
      | inr first ↦ (rw (first, second), rw (first, second))
    ]

module _ (m : ℕ) (lt : 1 < m) (small : m * m ≤ 2 ^ 63) where
  -- Two inverses cancel two factors.
  cancels :
      (f w v r s : ℕ)
      → Cong m (w * r) 1
      → Cong m (v * s) 1
      → Cong m (f % m * (w * v % m) % m * (r * s)) f
  cancels f w v r s c d =
      Cong-mul m _ (f * (w * v)) _ _
        (mod-mod (f % m * (w * v % m)) m
          ∙ Cong-mul m (f % m) f (w * v % m) (w * v) (mod-mod f m) (mod-mod (w * v) m))
        refl
      ∙ ap (λ (t : ℕ). t % m) (shuffle f w v r s)
      ∙ Cong-mul m f f _ _ refl (Cong-mul m (w * r) 1 (v * s) 1 c d)
      ∙ ap (λ (t : ℕ). t % m) (omega arith)

  cancels_one : (f v s : ℕ) → Cong m (v * s) 1 → Cong m (f % m * v % m * s) f
  cancels_one f v s d =
      Cong-mul m _ (f * v) s s (mod-mod (f % m * v) m ∙ Cong-mul m (f % m) f v v (mod-mod f m) refl)
        refl
      ∙ ap (λ (t : ℕ). t % m) (mul_assoc f v s)
      ∙ Cong-mul m f f (v * s) 1 refl d
      ∙ ap (λ (t : ℕ). t % m) (omega arith)

  module _ (mf : Factorials) (n : ℕ) (t : AreFactorials m lt small mf n) (k r : ℕ) (le : r ≤ k)
      (inside : k ≤ n) where
    entry_lem : (array : ℕ → ℤ) (i : ℕ) → i ≤ n → entry array mf.size i ≡ some (array i)
    unfolding entry
    entry_lem array i le' = ground (arith, t.size)

    not_negative : ltb_ℤ (pos r) (pos 0) ≡ false
    not_negative = ground arith

    not_above : ltb_ℤ (pos k) (pos r) ≡ false
    not_above = ground arith

    product_lem : (x y : ℕ) → mod_mul (pos x) (pos y) mf.modulus ≡ some (pos (x * y % m))
    product_lem x y =
        ap (mod_mul (pos x) (pos y)) t.modulus ∙ mod_mul_pos m (omega (arith, lt)) small x y

    ncr_run :
        (w v : ℕ)
        → mf.inv_fact r ≡ pos w
        → mf.inv_fact (k - r) ≡ pos v
        → mod_ncr mf k (pos r) ≡ some (pos (factorial k % m * (w * v % m) % m))
    unfolding mod_ncr
    ncr_run w v e e' =
        rw
          (
            not_negative,
            not_above,
            entry_lem mf.fact k inside,
            entry_lem mf.inv_fact r (omega (arith, le, inside)),
            entry_lem mf.inv_fact (k - r) (omega (arith, inside)),
            t.facts k inside,
            e,
            e',
            product_lem w v,
          )
          (product_lem (factorial k % m) (w * v % m))

    npr_run :
        (v : ℕ)
        → mf.inv_fact (k - r) ≡ pos v
        → mod_npr mf k (pos r) ≡ some (pos (factorial k % m * v % m))
    unfolding mod_npr
    npr_run v e =
        rw
          (
            not_negative,
            not_above,
            entry_lem mf.fact k inside,
            entry_lem mf.inv_fact (k - r) (omega (arith, inside)),
            t.facts k inside,
            e,
          )
          (product_lem (factorial k % m) v)

    -- The counts multiplied by the factorials that they leave out give the factorial.
    counts :
        (c : ℕ) × (p : ℕ) × (mod_ncr mf k (pos r) ≡ some (pos c))
        × (c < m)
        × Cong m (c * (factorial r * factorial (k - r))) (factorial k)
        × (mod_npr mf k (pos r) ≡ some (pos p))
        × (p < m)
        × Cong m (p * factorial (k - r)) (factorial k)
    counts =
        let (w, e, c) = t.inverses r (omega (arith, le, inside)) in
        let (v, e', c') = t.inverses (k - r) (omega (arith, inside)) in
        (
          factorial k % m * (w * v % m) % m,
          factorial k % m * v % m,
          ncr_run w v e e',
          mod-lt _ (omega (arith, lt)),
          cancels (factorial k) w v (factorial r) (factorial (k - r)) c c',
          npr_run v e',
          mod-lt _ (omega (arith, lt)),
          cancels_one (factorial k) v (factorial (k - r)) c',
        )

-- Modulo a number above 1 for which Fermat's little theorem holds, whose square is at most 2^63,
-- and which does not divide n!, with n + 1 below 2^31: the tables up to n are built without
-- overflow, and for r at most k at most n the count of combinations, times r! and (k - r)!, and the
-- count of arrangements, times (k - r)!, are congruent to k!; both counts are below the modulus,
-- and are 0 where r is negative or above k.
pub combinations_lem :
    (m : ℕ) (memory1 memory2 : ℕ → ℤ) (n : ℕ) (mf : Factorials)
    → 1 < m
    → m * m ≤ 2 ^ 63
    → n + 1 < 2 ^ 31
    → FermatHolds m
    → factorial n % m ≢ 0
    → (mf' : Factorials) × (mod_factorial_init true memory1 memory2 n m mf ≡ some (true, mf'))
      × ((k r : ℕ)
          → r ≤ k
          → k ≤ n
          → (c : ℕ) × (p : ℕ) × (mod_ncr mf' k (pos r) ≡ some (pos c))
            × (c < m)
            × Cong m (c * (factorial r * factorial (k - r))) (factorial k)
            × (mod_npr mf' k (pos r) ≡ some (pos p))
            × (p < m)
            × Cong m (p * factorial (k - r)) (factorial k))
      × ((k : ℕ) (r : ℤ)
          → (r <ℤ pos 0) ⊎ (pos k <ℤ r)
          → (mod_ncr mf' k r ≡ some (pos 0)) × (mod_npr mf' k r ≡ some (pos 0)))
combinations_lem m memory1 memory2 n mf lt small fits fermat ne =
    let (mf', run, t) = mod_factorial_init_tables m lt small memory1 memory2 n mf fits fermat ne in
    (
      mf',
      run,
      (λ k r le inside. counts m lt small mf' n t k r le inside),
      (λ k r out. outside mf' k r out),
    )
