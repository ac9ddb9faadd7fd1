-- ===== src/Djlc/ModMath/Residue.antt =====
-- Remainders of integers, and how they follow the operations.
use native.Mathlib.Nat.{mod-mod, mod-lt, mul-add, add-mul, mod-eq_of_lt, add-mod_right}
use djiang_oss_public.Prelude.{ℕ, suc, ◌+◌, ◌-◌, ◌*◌, ◌%◌, ◌<◌, ◌≡◌, refl, sym, ap, ◌∙◌, arith}
use djiang_oss_public.Prelude.Int.{
  ℤ, pos, negsuc, pos_part, neg_part, ◌+ℤ◌, ◌-ℤ◌, ◌*ℤ◌, +ℤ_parts, -ℤ_parts, *ℤ_parts,
}
use djiang_oss_public.Djlc.ModMath.Congruence.{Cong, Cong-mul, Cong-add, Cong-cancel, complement}

-- `r` is the remainder of the integer: it is below the modulus, and the difference is a multiple.
pub record IsResidue (a : ℤ) (m r : ℕ) : Type 0 where
  pub below : r < m
  pub cong : Cong m (pos_part a) (neg_part a + r)

congruent : (m x y : ℕ) → x ≡ y → Cong m x y
congruent m x y e = ap (λ (t : ℕ). t % m) e

regroup :
    (n x y r s : ℕ) → n + ((x + r) * (y + s) + x * y) ≡ (x + r) * y + x * (y + s) + (n + r * s)
regroup n x y r s = omega (arith, mul-add (x + r) y s, add-mul x r s, mul-add x y s, add-mul x r y)

module _ {a b : ℤ} {m r s : ℕ} (u : IsResidue a m r) (v : IsResidue b m s) where
  some_modulus : 0 < m
  some_modulus = omega (arith, u.below)

  pub +ℤ-IsResidue : IsResidue (a +ℤ b) m ((r + s) % m)
  +ℤ-IsResidue =
      let both = Cong-add m _ _ _ _ u.cong v.cong in
      let t = (r + s) % m in
      let p = pos_part (a +ℤ b) in
      let n = neg_part (a +ℤ b) in
      let k = neg_part a + neg_part b in
      record {
        below = mod-lt (r + s) some_modulus;
        cong = Cong-cancel m k p (n + t) some_modulus (
            congruent m (k + p) (n + (pos_part a + pos_part b)) (omega (arith, +ℤ_parts a b))
            ∙ Cong-add m n n _ _ refl both
            ∙ congruent m _ (k + n + (r + s)) (omega arith)
            ∙ Cong-add m (k + n) (k + n) (r + s) t refl (sym (mod-mod (r + s) m))
            ∙ congruent m (k + n + t) (k + (n + t)) (omega arith));
      }

  pub -ℤ-IsResidue : IsResidue (a -ℤ b) m ((r + m - s) % m)
  -ℤ-IsResidue =
      let w = r + m - s in
      let t = w % m in
      let p = pos_part (a -ℤ b) in
      let n = neg_part (a -ℤ b) in
      let k = neg_part a + pos_part b in
      let crossed : Cong m (pos_part a + neg_part b) (k + t) =
        Cong-add m _ _ _ _ u.cong refl
        ∙ sym (add-mod_right (neg_part a + r + neg_part b) m)
        ∙ congruent m _ (neg_part a + (neg_part b + s) + w) (omega (arith, v.below))
        ∙ Cong-add m _ (neg_part a + pos_part b) w t
            (Cong-add m (neg_part a) (neg_part a) _ _ refl (sym v.cong)) (sym (mod-mod w m)) in
      record {
        below = mod-lt w some_modulus;
        cong = Cong-cancel m k p (n + t) some_modulus (
            congruent m (k + p) (n + (pos_part a + neg_part b)) (omega (arith, -ℤ_parts a b))
            ∙ Cong-add m n n _ _ refl crossed
            ∙ congruent m (n + (k + t)) (k + (n + t)) (omega arith));
      }

  pub *ℤ-IsResidue : IsResidue (a *ℤ b) m (r * s % m)
  *ℤ-IsResidue =
      let t = r * s % m in
      let p = pos_part (a *ℤ b) in
      let n = neg_part (a *ℤ b) in
      let like = pos_part a * pos_part b + neg_part a * neg_part b in
      let unlike = pos_part a * neg_part b + neg_part a * pos_part b in
      let like' : Cong m like ((neg_part a + r) * (neg_part b + s) + neg_part a * neg_part b) =
        Cong-add m _ _ _ _ (Cong-mul m _ _ _ _ u.cong v.cong) refl in
      let unlike' : Cong m ((neg_part a + r) * neg_part b + neg_part a * (neg_part b + s)) unlike =
        Cong-add m _ _ _ _ (Cong-mul m _ _ (neg_part b) _ (sym u.cong) refl)
          (Cong-mul m (neg_part a) _ _ _ refl (sym v.cong)) in
      record {
        below = mod-lt (r * s) some_modulus;
        cong = Cong-cancel m unlike p (n + t) some_modulus (
            congruent m (unlike + p) (n + like) (omega (arith, *ℤ_parts a b))
            ∙ Cong-add m n n _ _ refl like'
            ∙ congruent m _ _ (regroup n (neg_part a) (neg_part b) r s)
            ∙ Cong-add m _ _ (n + r * s) (n + t) unlike'
                (Cong-add m n n (r * s) t refl (sym (mod-mod (r * s) m))));
      }

-- An integer has one remainder.
IsResidue-unique : (a : ℤ) (m r s : ℕ) → IsResidue a m r → IsResidue a m s → r ≡ s
IsResidue-unique a m r s u v =
    let same = Cong-cancel m (neg_part a) r s (omega (arith, u.below)) (sym u.cong ∙ v.cong) in
    sym (mod-eq_of_lt u.below) ∙ same ∙ mod-eq_of_lt v.below

-- The remainder of an integer.
unfoldable pub residue : ℤ → ℕ → ℕ
residue (pos n) m = n % m
residue (negsuc n) m = m - 1 - n % m

pub residue-IsResidue : (a : ℤ) (m : ℕ) → 0 < m → IsResidue a m (residue a m)
unfolding residue
residue-IsResidue (pos n) m lt = record {
  below = mod-lt n lt;
  cong = sym (mod-mod n m) ∙ congruent m (n % m) (0 + n % m) (omega arith);
}
residue-IsResidue (negsuc n) m lt = record {
  below = omega (arith, lt);
  cong =
      sym (complement m n 0 lt)
      ∙ congruent m _ (suc n + (m - 1 - n % m)) (omega (arith, mod-lt n lt));
}
