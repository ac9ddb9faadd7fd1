-- ===== src/Djlc/Interval.antt =====
-- djlc/include/interval.h: intervals of `int`s: their order, overlap, merging, the least number to
-- remove, and binary search. An array is a function of the index, or the list of its elements where
-- the code only walks along it; `qsort` of the C library is an argument. A difference that is no
-- `int` is undefined: `none`.
pub mod Order
pub mod Merge
pub mod Remove
pub mod Compare
pub mod MinRemove
pub mod Search
use djiang_oss_public.Prelude.{
  ℕ, zero, suc, ◌+◌, ◌-◌, ◌/◌, ◌^◌, Bool, true, false, not, ◌&&◌, Option, none, some, List, [], ◌∷◌,
  leb, ltb, if◌then◌else◌, update, ◌>>=◌,
}
use djiang_oss_public.Prelude.Int.{ℤ, pos, negsuc, ◌-ℤ◌, ltb_ℤ, leb_ℤ, eqb_ℤ}

-- `djlc_interval_t`
pub record Interval : Type 0 where
  pub start : ℤ
  pub end : ℤ
  pub idx : ℤ

-- A value that an `int` holds.
unfoldable pub to_int : ℤ → Option ℤ
to_int (pos n) = if ltb n (2 ^ 31) then some (pos n) else none
to_int (negsuc n) = if ltb n (2 ^ 31) then some (negsuc n) else none

unfoldable pub cmp_by_start : Interval → Interval → Option ℤ
unfolding to_int
cmp_by_start a b =
    if eqb_ℤ a.start b.start then to_int (a.end -ℤ b.end) else to_int (a.start -ℤ b.start)

unfoldable pub cmp_by_end : Interval → Interval → Option ℤ
unfolding to_int
cmp_by_end a b = if eqb_ℤ a.end b.end then to_int (a.start -ℤ b.start) else to_int (a.end -ℤ b.end)

-- The rows of an `int **`, as functions of the index.
unfoldable ptr_cmp_start : (ℕ → ℤ) → (ℕ → ℤ) → Option ℤ
unfolding to_int
ptr_cmp_start a b = to_int (a 0 -ℤ b 0)

unfoldable ptr_cmp_end : (ℕ → ℤ) → (ℕ → ℤ) → Option ℤ
unfolding to_int
ptr_cmp_end a b = to_int (a 1 -ℤ b 1)

unfoldable pub overlaps : Interval → Interval → Bool
overlaps a b = ltb_ℤ a.start b.end && ltb_ℤ b.start a.end

unfoldable pub contains : Interval → Interval → Bool
contains a b = leb_ℤ a.start b.start && leb_ℤ b.end a.end

unfoldable pub merge_two : Interval → Interval → Interval
merge_two a b = record {
  start = if ltb_ℤ a.start b.start then a.start else b.start;
  end = if ltb_ℤ b.end a.end then a.end else b.end;
  idx = a.idx;
}

-- One round of the loop in `djlc_interval_merge`, over `result` and `count`.
unfoldable pub absorb : Interval → (ℕ → Interval) → ℕ → (ℕ → Interval) × ℕ
absorb x result count =
    let last = result (count - 1) in
    if leb_ℤ x.start last.end
    then (if ltb_ℤ last.end x.end
        then (update result (count - 1) (record last { end = x.end }), count)
        else (result, count))
    else (update result count x, count + 1)

unfoldable pub merge_loop : List Interval → (ℕ → Interval) → ℕ → (ℕ → Interval) × ℕ
merge_loop [] result count = (result, count)
merge_loop (x ∷ xs) result count =
    let (result', count') = absorb x result count in merge_loop xs result' count'

unfoldable pub interval_merge : List Interval → (ℕ → Interval) → (ℕ → Interval) × ℕ
interval_merge [] result = (result, 0)
interval_merge (x ∷ xs) result = merge_loop xs (update result 0 x) 1

-- The loop of `djlc_interval_min_remove` over `end` and `remove_count`.
unfoldable pub remove_loop : List Interval → ℤ → ℕ → ℕ
remove_loop [] end count = count
remove_loop (x ∷ xs) end count =
    remove_loop xs (if ltb_ℤ x.start end then end else x.end)
      (if ltb_ℤ x.start end then count + 1 else count)

unfoldable pub remove_sorted : List Interval → ℕ
remove_sorted [] = 0
remove_sorted (x ∷ xs) = remove_loop xs x.end 0

-- What `qsort` takes: a comparison of elements, undefined where it is `none`.
abbrev pub Compare : Type 0
Compare = Interval → Interval → Option ℤ

unfoldable pub min_remove :
    (Compare → List Interval → Option (List Interval)) → List Interval → Option ℕ
min_remove qsort [] = some 0
min_remove qsort (x ∷ xs) = qsort cmp_by_end (x ∷ xs) >>= λ sorted. some (remove_sorted sorted)

-- `while (lo < hi)` of the two binary searches; the test is that of the element in the middle.
unfoldable pub bisect : ℕ → (ℕ → Bool) → ℕ → ℕ → Option ℕ
bisect zero test lo hi = none
bisect (suc fuel) test lo hi =
    let mid = lo + (hi - lo) / 2 in
    let left = bisect fuel test lo mid in
    let right = bisect fuel test (mid + 1) hi in
    if ltb lo hi then (if test mid then left else right) else some lo

unfoldable pub lower_bound_start : (ℕ → Interval) → ℕ → ℤ → Option ℕ
lower_bound_start intervals n target =
    bisect (n + 1) (λ mid. leb_ℤ target (intervals mid).start) 0 n

unfoldable pub upper_bound_end : (ℕ → Interval) → ℕ → ℤ → Option ℕ
upper_bound_end intervals n target = bisect (n + 1) (λ mid. ltb_ℤ target (intervals mid).end) 0 n
