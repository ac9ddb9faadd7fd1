-- ===== src/Djlc/Interval/Search.antt =====
-- The binary searches.
use djiang_oss_public.Prelude.{
  ℕ, zero, suc, ◌+◌, ◌-◌, ◌/◌, ◌<◌, ◌≤◌, ◌≡◌, inl, inr, Bool, true, false, some, arith, ltb,
  Bool-cases,
}
use djiang_oss_public.Prelude.Int.{ℤ, ltb_ℤ, leb_ℤ, ◌≤ℤ◌, ◌<ℤ◌}
use djiang_oss_public.Djlc.Interval.{Interval, bisect, lower_bound_start, upper_bound_end}

-- Once the test accepts an index it accepts the later ones.
abbrev pub IsMonotone : (ℕ → Bool) → ℕ → Type 0
IsMonotone test n = (i j : ℕ) → i ≤ j → j < n → test i ≡ true → test j ≡ true

-- `k` is the first index that the test accepts, or the number of elements.
pub record IsFirst (test : ℕ → Bool) (n k : ℕ) : Type 0 where
  pub inside : k ≤ n
  pub before : (i : ℕ) → i < k → test i ≡ false
  pub from : (i : ℕ) → k ≤ i → i < n → test i ≡ true

bisect_lem :
    (fuel : ℕ) (test : ℕ → Bool) (n lo hi : ℕ)
    → IsMonotone test n
    → hi - lo < fuel
    → lo ≤ hi
    → hi ≤ n
    → ((i : ℕ) → i < lo → test i ≡ false)
    → ((i : ℕ) → hi ≤ i → i < n → test i ≡ true)
    → (k : ℕ) × (bisect fuel test lo hi ≡ some k) × IsFirst test n k
unfolding bisect
bisect_lem zero test n lo hi mono f le top low high = absurd (omega arith)
bisect_lem (suc fuel) test n lo hi mono f le top low high = elim (Bool-cases (ltb lo hi)) [
  | inl more ↦
      let mid = lo + (hi - lo) / 2 in
      elim (Bool-cases (test mid)) [
        | inl yes_mid ↦
            let (k, e, first) =
              bisect_lem fuel test n lo mid mono (ground arith) (omega arith) (ground arith) low
                (λ i from lt. mono mid i from lt yes_mid) in
            (k, rw (more, yes_mid) e, first)
        | inr no_mid ↦
            let (k, e, first) =
              bisect_lem fuel test n (mid + 1) hi mono (ground arith) (ground arith) top
                (λ i lt. below_mid test n mid i mono (ground arith) no_mid (omega (arith, lt)))
                high in
            (k, rw (more, no_mid) e, first)
      ]
  | inr done ↦ (
    lo,
    rw done,
    record { inside = omega arith; before = low; from = λ i from lt. high i (ground arith) lt },
  )
]
  where
    below_mid :
        (test : ℕ → Bool) (n mid i : ℕ)
        → IsMonotone test n
        → mid < n
        → test mid ≡ false
        → i ≤ mid
        → test i ≡ false
    below_mid test n mid i mono lt no_mid le = elim (Bool-cases (test i)) [
      | inl yes_i ↦ cc (mono i mid le lt yes_i)
      | inr no_i ↦ no_i
    ]

-- Among intervals in ascending order of their starts the search for the first start from a target
-- on ends, and finds the position where the starts before it are below the target and those from it
-- on are not.
pub lower_bound_start_lem :
    (intervals : ℕ → Interval) (n : ℕ) (target : ℤ)
    → ((i j : ℕ) → i ≤ j → j < n → (intervals i).start ≤ℤ (intervals j).start)
    → (k : ℕ) × (lower_bound_start intervals n target ≡ some k)
      × (k ≤ n)
      × ((i : ℕ) → i < k → (intervals i).start <ℤ target)
      × ((i : ℕ) → k ≤ i → i < n → target ≤ℤ (intervals i).start)
unfolding lower_bound_start
lower_bound_start_lem intervals n target ascending =
    let (k, e, first) =
      bisect_lem (n + 1) (λ mid. leb_ℤ target (intervals mid).start) n 0 n
        (λ i j le lt accepted. ground (arith, ascending i j le lt)) (omega arith) (omega arith)
        (omega arith) (λ i lt. absurd (omega arith)) (λ i from lt. absurd (omega arith)) in
    (
      k,
      e,
      first.inside,
      (λ i lt. ground (arith, first.before i lt)),
      (λ i from lt. ground (arith, first.from i from lt)),
    )

-- Among intervals in ascending order of their ends the search for the first end above a target
-- ends, and finds the position where the ends before it are at most the target and those from it on
-- are above.
upper_bound_end_lem :
    (intervals : ℕ → Interval) (n : ℕ) (target : ℤ)
    → ((i j : ℕ) → i ≤ j → j < n → (intervals i).end ≤ℤ (intervals j).end)
    → (k : ℕ) × (upper_bound_end intervals n target ≡ some k)
      × (k ≤ n)
      × ((i : ℕ) → i < k → (intervals i).end ≤ℤ target)
      × ((i : ℕ) → k ≤ i → i < n → target <ℤ (intervals i).end)
unfolding upper_bound_end
upper_bound_end_lem intervals n target ascending =
    let (k, e, first) =
      bisect_lem (n + 1) (λ mid. ltb_ℤ target (intervals mid).end) n 0 n
        (λ i j le lt accepted. ground (arith, ascending i j le lt)) (omega arith) (omega arith)
        (omega arith) (λ i lt. absurd (omega arith)) (λ i from lt. absurd (omega arith)) in
    (
      k,
      e,
      first.inside,
      (λ i lt. ground (arith, first.before i lt)),
      (λ i from lt. ground (arith, first.from i from lt)),
    )
