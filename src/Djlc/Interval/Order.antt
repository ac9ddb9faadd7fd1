-- ===== src/Djlc/Interval/Order.antt =====
-- The comparisons of intervals, and what overlapping means for their points.
use djiang_oss_public.Prelude.{◌≡◌, ◌↔◌, ◌⊎◌, inl, inr, true, some, arith, Bool-cases}
use djiang_oss_public.Prelude.Int.{
  ℤ, pos, negsuc, ◌-ℤ◌, -ℤ_parts, leb_ℤ, eqb_ℤ, eqb_ℤ→eq, ◌≤ℤ◌, ◌<ℤ◌,
}
use djiang_oss_public.Djlc.Interval.{Interval, to_int, cmp_by_start, overlaps, contains, merge_two}

pub to_int-some : (z d : ℤ) → to_int z ≡ some d → z ≡ d
unfolding to_int
to_int-some (pos n) d e = ground arith
to_int-some (negsuc n) d e = ground arith

-- `a` comes before `b`: its first value is lower, or they are equal and its second is lower.
abbrev pub Before : ℤ → ℤ → ℤ → ℤ → Type 0
Before a1 a2 b1 b2 = (a1 <ℤ b1) ⊎ ((a1 ≡ b1) × (a2 <ℤ b2))

parts_sign : (a b d : ℤ) → a -ℤ b ≡ d → (d <ℤ pos 0) ↔ (a <ℤ b)
unfolding ◌-ℤ◌
parts_sign a b d e = ground arith

-- The sign of what `djlc_interval_cmp_by_start` returns.
cmp_by_start_lem :
    (a b : Interval)
    → (d : ℤ) → cmp_by_start a b ≡ some d
    → (d <ℤ pos 0) ↔ Before a.start a.end b.start b.end
unfolding cmp_by_start
cmp_by_start_lem a b d e = elim (Bool-cases (eqb_ℤ a.start b.start)) [
  | inl eq ↦
      let at = to_int-some (a.end -ℤ b.end) d (rw eq at e) in
      let signs = parts_sign a.end b.end d at in
      (λ neg. inr (eqb_ℤ→eq a.start b.start eq, signs.0 neg), λ before. signs.1 (ground arith))
  | inr ne ↦
      let at = to_int-some (a.start -ℤ b.start) d (rw ne at e) in
      let signs = parts_sign a.start b.start d at in
      (λ neg. inl (signs.0 neg), λ before. signs.1 (ground arith))
]

-- A point of an interval, which does not hold its end.
abbrev pub Holds : Interval → ℤ → Type 0
Holds x p = (x.start ≤ℤ p) × (p <ℤ x.end)

overlaps_lem :
    (a b : Interval)
    → a.start <ℤ a.end
    → b.start <ℤ b.end
    → (overlaps a b ≡ true) ↔ ((p : ℤ) × Holds a p × Holds b p)
unfolding overlaps
overlaps_lem a b la lb = (
  λ o. elim (Bool-cases (leb_ℤ a.start b.start)) [
    | inl le ↦ (b.start, (ground arith, ground arith), (ground arith, ground arith))
    | inr gt ↦ (a.start, (ground arith, ground arith), (ground arith, ground arith))
  ],
  λ (p, in_a, in_b). ground arith,
)

merge_two_lem :
    (a b : Interval)
    → overlaps a b ≡ true
    → (p : ℤ) → Holds (merge_two a b) p ↔ (Holds a p ⊎ Holds b p)
unfolding overlaps merge_two
merge_two_lem a b o p = (λ h. ground arith, λ h. ground arith)

contains_lem :
    (a b : Interval) → b.start <ℤ b.end → (contains a b ≡ true) ↔ ((p : ℤ) → Holds b p → Holds a p)
unfolding contains
contains_lem a b lb = (
  λ c p h. (ground arith, ground arith),
  λ all.
      let first = all b.start (ground arith, ground arith) in
      let parts = -ℤ_parts b.end (pos 1) in
      let last = all (b.end -ℤ pos 1) (ground arith, ground arith) in ground arith,
)
