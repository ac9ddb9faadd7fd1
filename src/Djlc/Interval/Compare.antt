-- ===== src/Djlc/Interval/Compare.antt =====
-- The comparison by ends as an ordering, and what `qsort` of the C library does with an ordering.
use mathlib.Core.List.{Perm}
use djiang_oss_public.Prelude.{
  ◌+◌, ◌^◌, ◌<◌, ◌≡◌, ◌↔◌, ◌⊎◌, inl, inr, Option, some, List, [], ◌∷◌, arith, All, All-map,
  Bool-cases,
}
use djiang_oss_public.Prelude.Int.{ℤ, pos, pos_part, neg_part, ◌-ℤ◌, eqb_ℤ, ◌≤ℤ◌, ◌<ℤ◌}
use djiang_oss_public.Djlc.Interval.{Interval, Compare, to_int, cmp_by_end}
use djiang_oss_public.Djlc.Interval.Order.{to_int-some}
use djiang_oss_public.Djlc.Interval.Remove.{AscendingEnds}

-- A comparison of the elements in `P` is defined, changes its sign with its arguments, and is
-- transitive.
pub record IsOrdering (cmp : Compare) (P : Interval → Type 0) : Type 0 where
  pub total : (x y : Interval) → P x → P y → (d : ℤ) × (cmp x y ≡ some d)
  pub opposite :
      (x y : Interval) (d e : ℤ)
      → P x
      → P y
      → cmp x y ≡ some d
      → cmp y x ≡ some e
      → (d ≤ℤ pos 0) ↔ (pos 0 ≤ℤ e)
  pub transitive :
      (x y z : Interval) (d e f : ℤ)
      → P x
      → P y
      → P z
      → cmp x y ≡ some d
      → cmp y z ≡ some e
      → cmp x z ≡ some f
      → d ≤ℤ pos 0
      → e ≤ℤ pos 0
      → f ≤ℤ pos 0

-- The comparison puts `x` at or before `y`.
abbrev pub NotAfter : Compare → Interval → Interval → Type 0
NotAfter cmp x y = (d : ℤ) × (cmp x y ≡ some d) × (d ≤ℤ pos 0)

abbrev pub Ascending : Compare → List Interval → Type 0
Ascending cmp [] = Unit {0}
Ascending cmp (x ∷ xs) = All (NotAfter cmp x) xs × Ascending cmp xs

-- What the C standard says of `qsort`: given an ordering of the elements, it ends with the same
-- elements in ascending order.
pub record IsQsort (qsort : Compare → List Interval → Option (List Interval)) : Type 1 where
  pub sorts :
      (cmp : Compare) (P : Interval → Type 0) (xs : List Interval)
      → IsOrdering cmp P
      → All P xs
      → (ys : List Interval) × (qsort cmp xs ≡ some ys) × Perm ys xs × Ascending cmp ys

-- At or above a number, by less than 2^31.
abbrev pub Within : ℤ → ℤ → Type 0
Within low v = (low ≤ℤ v) × (pos_part v + neg_part low < pos_part low + neg_part v + 2 ^ 31)

-- The start and the end are each in a range in which differences are `int`s.
abbrev pub IsNear : ℤ → ℤ → Interval → Type 0
IsNear s e x = Within s x.start × Within e x.end

to_int-fits : (low a b : ℤ) → Within low a → Within low b → to_int (a -ℤ b) ≡ some (a -ℤ b)
unfolding to_int ◌-ℤ◌
to_int-fits low a b u v = ground arith

difference_sign : (a b d : ℤ) → a -ℤ b ≡ d → ((d ≤ℤ pos 0) ↔ (a ≤ℤ b)) × ((pos 0 ≤ℤ d) ↔ (b ≤ℤ a))
unfolding ◌-ℤ◌
difference_sign a b d e = ground arith

-- `x` ends before `y`, or they end together and `x` starts at or before `y`.
abbrev EndsFirst : Interval → Interval → Type 0
EndsFirst x y = (x.end <ℤ y.end) ⊎ ((x.end ≤ℤ y.end) × (y.end ≤ℤ x.end) × (x.start ≤ℤ y.start))

cmp_by_end_lem :
    (x y : Interval) (d : ℤ)
    → cmp_by_end x y ≡ some d
    → ((d ≤ℤ pos 0) ↔ EndsFirst x y) × ((pos 0 ≤ℤ d) ↔ EndsFirst y x)
unfolding cmp_by_end
cmp_by_end_lem x y d run = elim (Bool-cases (eqb_ℤ x.end y.end)) [
  | inl same ↦
      let (low, high) =
        difference_sign x.start y.start d (to_int-some (x.start -ℤ y.start) d (rw same at run)) in
      (
        (λ h. inr (ground arith, ground arith, low.0 h), λ o. low.1 (ground arith)),
        (λ h. inr (ground arith, ground arith, high.0 h), λ o. high.1 (ground arith)),
      )
  | inr other ↦
      let (low, high) =
        difference_sign x.end y.end d (to_int-some (x.end -ℤ y.end) d (rw other at run)) in
      (
        (λ h. inl (ground (arith, low.0 h)), λ o. low.1 (ground arith)),
        (λ h. inl (ground (arith, high.0 h)), λ o. high.1 (ground arith)),
      )
]

pub cmp_by_end-IsOrdering : (s e : ℤ) → IsOrdering cmp_by_end (IsNear s e)
unfolding cmp_by_end
cmp_by_end-IsOrdering s e = record {
  total = λ x y p q. elim (Bool-cases (eqb_ℤ x.end y.end)) [
    | inl same ↦ (x.start -ℤ y.start, rw same (to_int-fits s x.start y.start p.0 q.0))
    | inr other ↦ (x.end -ℤ y.end, rw other (to_int-fits e x.end y.end p.1 q.1))
  ];
  opposite = λ x y d f p q run run'.
      let (low, _) = cmp_by_end_lem x y d run in
      let (_, high) = cmp_by_end_lem y x f run' in (λ h. high.1 (low.0 h), λ h. low.1 (high.0 h));
  transitive = λ x y z d f g p q r run1 run2 run3 h1 h2.
      let first = (cmp_by_end_lem x y d run1).0.0 h1 in
      let second = (cmp_by_end_lem y z f run2).0.0 h2 in
      (cmp_by_end_lem x z g run3).0.1 (ground arith);
}

pub Ascending-AscendingEnds : (xs : List Interval) → Ascending cmp_by_end xs → AscendingEnds xs
Ascending-AscendingEnds [] a = tt
Ascending-AscendingEnds (x ∷ xs) a = (
  All-map (λ y (d, run, h). let first = (cmp_by_end_lem x y d run).0.0 h in ground arith) xs a.0,
  Ascending-AscendingEnds xs a.1,
)
