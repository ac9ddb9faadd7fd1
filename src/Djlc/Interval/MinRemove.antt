-- ===== src/Djlc/Interval/MinRemove.antt =====
-- The least number of intervals to remove, whatever their order is.
use mathlib.Core.Logic.{∥∥₁_elim}
use mathlib.Core.List.{Perm, Permᴰ}
use mathlib.Core.List.Perm
use mathlib.Core.HLevel.{×_prop}
use native.Mathlib.Nat.{ℕ_set}
use native.Mathlib.Bridge.{le_prop}
use djiang_oss_public.Prelude.{
  ℕ, Option, some, suc, ◌+◌, ◌≤◌, ◌≡◌, refl, sym, ap, subst, ◌∙◌, List, [], ◌∷◌, arith, length, All,
}
use djiang_oss_public.Prelude.Int.{ℤ}
use djiang_oss_public.Djlc.Interval.{Interval, Compare, cmp_by_end, remove_sorted, min_remove}
use djiang_oss_public.Djlc.Interval.Compare.{
  IsQsort, IsNear, cmp_by_end-IsOrdering, Ascending-AscendingEnds,
}
use djiang_oss_public.Djlc.Interval.Remove.{Part, Compatible, AreProper, sorted_removal}

Permᴰ-All {ℓ κ} : {A : Type ℓ} (P : A → Type κ) {xs ys : List A} → Permᴰ xs ys → All P ys → All P xs
Permᴰ-All P Permᴰ.nil a = tt
Permᴰ-All P (Permᴰ.cons e p) a = (subst P (sym e) a.0, Permᴰ-All P p a.1)
Permᴰ-All P (Permᴰ.swap e f) a = (subst P (sym e) a.1.0, (subst P (sym f) a.0, a.1.1))
Permᴰ-All P (Permᴰ.trans p q) a = Permᴰ-All P p (Permᴰ-All P q a)

Permᴰ-length {ℓ} : {A : Type ℓ} {xs ys : List A} → Permᴰ xs ys → length xs ≡ length ys
Permᴰ-length Permᴰ.nil = refl
Permᴰ-length (Permᴰ.cons e p) = ap suc (Permᴰ-length p)
Permᴰ-length (Permᴰ.swap e f) = refl
Permᴰ-length (Permᴰ.trans p q) = Permᴰ-length p ∙ Permᴰ-length q

AreProper-prop : (xs : List Interval) → IsProp (AreProper xs)
AreProper-prop [] = hlevel
AreProper-prop (x ∷ xs) = ×_prop le_prop (AreProper-prop xs)

perm-AreProper : (xs ys : List Interval) → Perm xs ys → AreProper ys → AreProper xs
perm-AreProper xs ys p a = ∥∥₁_elim p (AreProper-prop xs) (λ q. Permᴰ-All _ q a)

-- With a qsort that puts the elements in ascending order whenever the comparison it is given is an
-- ordering of them, on intervals that each hold a point, whose starts lie less than 2^31 apart and
-- whose ends do too: the call ends, and in the sorted intervals, the same as those given, there is
-- a choice no two of which overlap and than which no other such choice is larger; the number
-- returned is that of the intervals outside it, the least number to remove.
pub min_remove_lem :
    (qsort : Compare → List Interval → Option (List Interval)) (xs : List Interval) (s e : ℤ)
    → IsQsort qsort
    → All (IsNear s e) xs
    → AreProper xs
    → (sorted ks : List Interval) × (n : ℕ) × Perm sorted xs
      × Part ks sorted
      × Compatible ks
      × (min_remove qsort xs ≡ some n)
      × (n + length ks ≡ length xs)
      × ((ys : List Interval) → Part ys sorted → Compatible ys → length ys ≤ length ks)
unfolding min_remove
min_remove_lem qsort [] s e q near p =
    ([], [], 0, Perm.rfl, refl, tt, refl, omega arith, λ ys part c. omega (arith, ap length part))
min_remove_lem qsort (x ∷ xs) s e q near p =
    let (sorted, run, items, ascending) =
      q.sorts cmp_by_end (IsNear s e) (x ∷ xs) (cmp_by_end-IsOrdering s e) near in
    let (ks, part, c, count, most) =
      sorted_removal sorted (Ascending-AscendingEnds sorted ascending)
        (perm-AreProper sorted (x ∷ xs) items p) in
    let size = ∥∥₁_elim items (ℕ_set _ _) (λ d. Permᴰ-length d) in
    (sorted, ks, remove_sorted sorted, items, part, c, rw run refl, count ∙ size, most)
