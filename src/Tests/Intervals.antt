-- ===== src/Tests/Intervals.antt =====
-- A few intervals.
use mathlib.Core.List.{Perm}
use mathlib.Core.List.Perm
use djiang_oss_public.Prelude.{
  ℕ, Option, ◌>>=◌, refl, inl, inr, suc, ◌+◌, ◌≤◌, ◌<◌, ◌≡◌, ◌↔◌, inl, inr, some, All, Bool-cases,
  if◌then◌else◌, List, [], ◌∷◌, arith, length,
}
use djiang_oss_public.Prelude.Int.{ℤ, pos, leb_ℤ, ◌≤ℤ◌, ◌<ℤ◌}
use djiang_oss_public.Djlc.Interval.{
  Interval, Compare, interval_merge, min_remove, lower_bound_start,
}
use djiang_oss_public.Djlc.Interval.Search.{lower_bound_start_lem}
use djiang_oss_public.Djlc.Interval.Merge.{Covers, IsMerged, TouchesOne, interval_merge_lem}
use djiang_oss_public.Djlc.Interval.Remove.{Part, Compatible}
use djiang_oss_public.Djlc.Interval.MinRemove.{min_remove_lem}
use djiang_oss_public.Djlc.Interval.Compare.{IsOrdering, NotAfter, Ascending, IsQsort}

abbrev span : ℕ → ℕ → Interval
span a b = record { start = pos a; end = pos b; idx = pos 0 }

abbrev spans : ℕ → Interval
spans i = span i (i + 2)

lower_bound_start_example :
    (k : ℕ) × (lower_bound_start spans 5 (pos 3) ≡ some k)
    × (k ≤ 5)
    × ((i : ℕ) → i < k → (spans i).start <ℤ pos 3)
    × ((i : ℕ) → k ≤ i → i < 5 → pos 3 ≤ℤ (spans i).start)
lower_bound_start_example = lower_bound_start_lem spans 5 (pos 3) (λ i j le lt. omega arith)

abbrev later : List Interval
later = span 2 5 ∷ span 7 8 ∷ []

interval_merge_example :
    (last : ℕ) × ((interval_merge (span 1 3 ∷ later) spans).1 ≡ suc last)
    × IsMerged (interval_merge (span 1 3 ∷ later) spans).0 last
    × ((p : ℤ)
        → Covers (interval_merge (span 1 3 ∷ later) spans).0 last p
          ↔ TouchesOne (span 1 3 ∷ later) p)
interval_merge_example =
    interval_merge_lem (span 1 3) later spans
      (omega arith, omega arith, (omega arith, omega arith, (omega arith, omega arith, tt)))

-- Insertion with a comparison.
abbrev place : Compare → Interval → List Interval → Option (List Interval)
place cmp x [] = some (x ∷ [])
place cmp x (y ∷ ys) = do
  d ← cmp x y
  let rest = place cmp x ys >>= λ zs. some (y ∷ zs)
  if leb_ℤ d (pos 0) then some (x ∷ y ∷ ys) else rest

abbrev sort : Compare → List Interval → Option (List Interval)
sort cmp [] = some []
sort cmp (x ∷ xs) = sort cmp xs >>= λ ys. place cmp x ys

module _ (cmp : Compare) (P : Interval → Type 0) (o : IsOrdering cmp P) where
  -- What comes after `y` comes after what is before `y`.
  later_still :
      (x y : Interval) (zs : List Interval)
      → P x
      → P y
      → All P zs
      → NotAfter cmp x y
      → All (NotAfter cmp y) zs
      → All (NotAfter cmp x) zs
  later_still x y [] px py pz first a = tt
  later_still x y (z ∷ zs) px py pz (d, run, le) ((e, run', le'), a) =
      let (f, run3) = o.total x z px pz.0 in
      (
        (f, run3, o.transitive x y z d e f px py pz.0 run run' run3 le le'),
        later_still x y zs px py pz.1 (d, run, le) a,
      )

  place_lem :
      (x : Interval) (ys : List Interval)
      → P x
      → All P ys
      → Ascending cmp ys
      → (zs : List Interval) × (place cmp x ys ≡ some zs)
        × Perm zs (x ∷ ys)
        × Ascending cmp zs
        × ((Q : Interval → Type 0) → Q x → All Q ys → All Q zs)
  place_lem x [] px p a = (x ∷ [], refl, Perm.rfl, (tt, tt), λ Q q all. (q, tt))
  place_lem x (y ∷ ys) px p a =
      let (d, run) = o.total x y px p.0 in
      elim (Bool-cases (leb_ℤ d (pos 0))) [
        | inl le ↦
            let first : NotAfter cmp x y = (d, run, ground arith) in
            (
              x ∷ y ∷ ys,
              rw (run, le) refl,
              Perm.rfl,
              ((first, later_still x y ys px p.0 p.1 first a.0), a),
              λ Q q all. (q, all),
            )
        | inr gt ↦
            let (zs, r, perm, asc, every) = place_lem x ys px p.1 a.1 in
            let (e, run') = o.total y x p.0 px in
            let before = (o.opposite y x e d p.0 px run' run).1 (ground arith) in
            (
              y ∷ zs,
              rw (run, gt, r) refl,
              Perm.trans (Perm.cons y perm) (Perm.swap x y ys),
              (every (NotAfter cmp y) (e, run', before) a.0, asc),
              λ Q q all. (all.0, every Q q all.1),
            )
      ]

  sort_lem :
      (xs : List Interval)
      → All P xs
      → (ys : List Interval) × (sort cmp xs ≡ some ys) × Perm ys xs × Ascending cmp ys × All P ys
  sort_lem [] p = ([], refl, Perm.rfl, tt, tt)
  sort_lem (x ∷ xs) p =
      let (ys, run, perm, asc, all) = sort_lem xs p.1 in
      let (zs, run', perm', asc', every) = place_lem x ys p.0 all asc in
      (zs, rw run run', Perm.trans perm' (Perm.cons x perm), asc', every P p.0 all)

sort-IsQsort : IsQsort sort
sort-IsQsort = record {
  sorts =
      λ cmp P xs o p. let (ys, run, perm, asc, _) = sort_lem cmp P o xs p in (ys, run, perm, asc);
}

abbrev meetings : List Interval
meetings = span 1 4 ∷ span 3 5 ∷ span 2 3 ∷ []

min_remove_example :
    (sorted ks : List Interval) × (n : ℕ) × Perm sorted meetings
    × Part ks sorted
    × Compatible ks
    × (min_remove sort meetings ≡ some n)
    × (n + length ks ≡ 3)
    × ((ys : List Interval) → Part ys sorted → Compatible ys → length ys ≤ length ks)
min_remove_example =
    min_remove_lem sort meetings (pos 0) (pos 0) sort-IsQsort
      (
        ((omega arith, omega arith), (omega arith, omega arith)),
        (
          ((omega arith, omega arith), (omega arith, omega arith)),
          (((omega arith, omega arith), (omega arith, omega arith)), tt),
        ),
      )
      (omega arith, (omega arith, (omega arith, tt)))
