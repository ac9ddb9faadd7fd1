-- ===== src/Djlc/Interval/Merge.antt =====
-- Merging intervals that are sorted by their starts.
use djiang_oss_public.Prelude.{
  ℕ, suc, ◌+◌, ◌-◌, ◌<◌, ◌≤◌, ◌≡◌, ◌↔◌, ◌⊎◌, refl, inl, inr, List, [], ◌∷◌, arith, Bool-cases, ◌==◌,
  update,
}
use djiang_oss_public.Prelude.Int.{ℤ, ltb_ℤ, leb_ℤ, ◌≤ℤ◌, ◌<ℤ◌}
use djiang_oss_public.Djlc.Interval.{Interval, absorb, merge_loop, interval_merge}

-- A point of an interval, which holds its ends.
abbrev pub Touches : Interval → ℤ → Type 0
Touches x p = (x.start ≤ℤ p) × (p ≤ℤ x.end)

abbrev pub TouchesOne : List Interval → ℤ → Type 0
TouchesOne [] p = ⊥
TouchesOne (x ∷ xs) p = Touches x p ⊎ TouchesOne xs p

-- One of the results with the indices from 0 to `last` touches the point.
abbrev pub Covers : (ℕ → Interval) → ℕ → ℤ → Type 0
Covers result last p = (i : ℕ) × (i ≤ last) × Touches (result i) p

-- The results with the indices from 0 to `last`: each has its start before its end, and ends
-- before the next starts.
pub record IsMerged (result : ℕ → Interval) (last : ℕ) : Type 0 where
  pub ordered : (i : ℕ) → i ≤ last → (result i).start ≤ℤ (result i).end
  pub apart : (i : ℕ) → i < last → (result i).end <ℤ (result (i + 1)).start

-- The starts ascend from a bound, and no start is after its end.
abbrev pub SortedFrom : ℤ → List Interval → Type 0
SortedFrom bound [] = Unit {0}
SortedFrom bound (x ∷ xs) = (bound ≤ℤ x.start) × (x.start ≤ℤ x.end) × SortedFrom x.start xs

-- What a round with `x` makes of the results up to `last`.
abbrev Absorbed : Interval → (ℕ → Interval) → ℕ → (ℕ → Interval) × ℕ → Type 0
Absorbed x result last (result', count) =
    (last' : ℕ) × (count ≡ suc last')
    × IsMerged result' last'
    × ((result' last').start ≤ℤ x.start)
    × ((p : ℤ) → Covers result' last' p ↔ (Covers result last p ⊎ Touches x p))

inside :
    (x : Interval) (result : ℕ → Interval) (last : ℕ)
    → IsMerged result last
    → (result last).start ≤ℤ x.start
    → x.end ≤ℤ (result last).end
    → Absorbed x result last (result, suc last)
inside x result last m low le = (
  last,
  refl,
  m,
  low,
  λ p. (
    λ c. inl c,
    λ h. elim h [ inl c ↦ c | inr t ↦ (last, omega arith, (ground arith, ground arith)) ],
  ),
)

extended :
    (x : Interval) (result : ℕ → Interval) (last : ℕ)
    → IsMerged result last
    → (result last).start ≤ℤ x.start
    → x.start ≤ℤ (result last).end
    → (result last).end <ℤ x.end
    → Absorbed x result last (update result last (record (result last) { end = x.end }), suc last)
extended x result last m low touch lt = (
  last,
  refl,
  merged,
  start,
  λ p. (
    λ (i, le, at). elim (Bool-cases (last == i)) [
      | inl e ↦ elim (Bool-cases (leb_ℤ p (result last).end)) [
        | inl old ↦ inl (last, omega arith, (ground arith, ground arith))
        | inr new ↦ inr (ground arith, ground arith)
      ]
      | inr ne ↦ inl (i, le, (ground arith, ground arith))
    ],
    λ h. elim h [
      | inl (i, le, at) ↦ (i, le, (ground arith, ground arith))
      | inr at ↦ (last, omega arith, (ground arith, ground arith))
    ],
  ),
)
  where
    longer : Interval
    longer = record (result last) { end = x.end }

    merged : IsMerged (update result last longer) last
    merged = record {
      ordered = λ i le. ground (arith, m.ordered i le);
      apart = λ i less. ground (arith, m.apart i less);
    }

    start : (update result last longer last).start ≤ℤ x.start
    start = ground (arith, low)

appended :
    (x : Interval) (result : ℕ → Interval) (last : ℕ)
    → IsMerged result last
    → x.start ≤ℤ x.end
    → (result last).end <ℤ x.start
    → Absorbed x result last (update result (suc last) x, suc last + 1)
appended x result last m valid lt = (
  suc last,
  omega arith,
  merged,
  start,
  λ p. (
    λ (i, le, at). elim (Bool-cases (suc last == i)) [
      | inl e ↦ inr (ground arith, ground arith)
      | inr ne ↦ inl (i, ground arith, (ground arith, ground arith))
    ],
    λ h. elim h [
      | inl (i, le, at) ↦ (i, omega arith, (ground arith, ground arith))
      | inr at ↦ (suc last, omega arith, (ground arith, ground arith))
    ],
  ),
)
  where
    merged : IsMerged (update result (suc last) x) (suc last)
    merged = record {
      ordered = λ i le. elim (Bool-cases (suc last == i)) [
        | inl e ↦ ground arith
        | inr ne ↦ ground (arith, m.ordered i)
      ];
      apart = λ i less. elim (Bool-cases (last == i)) [
        | inl e ↦ ground arith
        | inr ne ↦ ground (arith, m.apart i)
      ];
    }

    start : (update result (suc last) x (suc last)).start ≤ℤ x.start
    start = ground arith

absorb_lem :
    (x : Interval) (result : ℕ → Interval) (last : ℕ)
    → IsMerged result last
    → (result last).start ≤ℤ x.start
    → x.start ≤ℤ x.end
    → Absorbed x result last (absorb x result (suc last))
unfolding absorb
absorb_lem x result last m low valid =
    let n_1 : suc last - 1 ≡ last = omega arith in
    elim (Bool-cases (leb_ℤ x.start (result last).end)) [
      | inl touch ↦ elim (Bool-cases (ltb_ℤ (result last).end x.end)) [
        | inl more ↦
            rw (n_1, touch, more) (extended x result last m low (ground arith) (ground arith))
        | inr less ↦ rw (n_1, touch, less) (inside x result last m low (ground arith))
      ]
      | inr apart ↦ rw (n_1, apart) (appended x result last m valid (ground arith))
    ]

lower :
    (bound bound' : ℤ) (xs : List Interval)
    → bound ≤ℤ bound'
    → SortedFrom bound' xs
    → SortedFrom bound xs
lower bound bound' [] le sorted = tt
lower bound bound' (x ∷ xs) le (from, valid, sorted) = (ground arith, valid, sorted)

both_steps {ℓ} : {A B C D E : Type ℓ} → E ↔ (D ⊎ C) → D ↔ (A ⊎ B) → E ↔ (A ⊎ (B ⊎ C))
both_steps f g = (
  λ e. elim (f.0 e) [
    | inl d ↦ elim (g.0 d) [ inl a ↦ inl a | inr b ↦ inr (inl b) ]
    | inr c ↦ inr (inr c)
  ],
  λ h. elim h [
    | inl a ↦ f.1 (inl (g.1 (inl a)))
    | inr r ↦ elim r [ inl b ↦ f.1 (inl (g.1 (inr b))) | inr c ↦ f.1 (inr c) ]
  ],
)

merge_loop_lem :
    (xs : List Interval) (result : ℕ → Interval) (last : ℕ)
    → IsMerged result last
    → SortedFrom (result last).start xs
    → (last' : ℕ) × ((merge_loop xs result (suc last)).1 ≡ suc last')
      × IsMerged (merge_loop xs result (suc last)).0 last'
      × ((p : ℤ)
          → Covers (merge_loop xs result (suc last)).0 last' p
            ↔ (Covers result last p ⊎ TouchesOne xs p))
unfolding merge_loop
merge_loop_lem [] result last m sorted =
    (last, refl, m, λ p. (λ c. inl c, λ h. elim h [ inl c ↦ c | inr none ↦ absurd none ]))
merge_loop_lem (x ∷ xs) result last m (low, valid, sorted) =
    let (last1, count1, m1, low1, points1) = absorb_lem x result last m low valid in
    let result1 = (absorb x result (suc last)).0 in
    let (last2, e, m2, points2) =
      merge_loop_lem xs result1 last1 m1 (lower (result1 last1).start x.start xs low1 sorted) in
    rw (count1, merge_loop) (last2, e, m2, λ p. both_steps (points2 p) (points1 p))

-- Merging at least one interval, all with their starts at most their ends and in ascending order of
-- their starts, leaves at least one result; the results have their starts at most their ends, each
-- ends before the next one starts, and a point lies in one of them, ends included, exactly when it
-- lies in one of the intervals given.
pub interval_merge_lem :
    (x : Interval) (xs : List Interval) (result : ℕ → Interval)
    → SortedFrom x.start (x ∷ xs)
    → (last : ℕ) × ((interval_merge (x ∷ xs) result).1 ≡ suc last)
      × IsMerged (interval_merge (x ∷ xs) result).0 last
      × ((p : ℤ) → Covers (interval_merge (x ∷ xs) result).0 last p ↔ TouchesOne (x ∷ xs) p)
unfolding interval_merge
interval_merge_lem x xs result (low, valid, sorted) =
    let first : ℕ → Interval = update result 0 x in
    let (last, e, m, points) = merge_loop_lem xs first 0 once sorted in
    (
      last,
      e,
      m,
      λ p. (
        λ c. elim ((points p).0 c) [
          | inl (i, le, at) ↦ inl (ground arith, ground arith)
          | inr t ↦ inr t
        ],
        λ h. elim h [
          | inl at ↦ (points p).1 (inl (0, omega arith, at))
          | inr t ↦ (points p).1 (inr t)
        ],
      ),
    )
  where
    once : IsMerged (update result 0 x) 0
    once = record { ordered = λ i le. ground arith; apart = λ i less. absurd (omega arith) }
