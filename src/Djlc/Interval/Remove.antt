-- ===== src/Djlc/Interval/Remove.antt =====
-- The greedy choice of intervals keeps as many as can be kept.
use djiang_oss_public.Prelude.{
  ℕ, suc, ◌+◌, ◌≤◌, ◌≡◌, refl, sym, ap, subst, ◌⊎◌, inl, inr, false, List, [], ◌∷◌, arith, length,
  All, if◌then◌else◌, Bool-cases,
}
use djiang_oss_public.Prelude.Int.{ℤ, ltb_ℤ, ◌≤ℤ◌, ◌<ℤ◌}
use djiang_oss_public.Djlc.Interval.{Interval, overlaps, remove_loop, remove_sorted}

-- Some of the elements of a list, in order.
abbrev pub Part : List Interval → List Interval → Type 0
Part ys [] = ys ≡ []
Part ys (x ∷ xs) = Part ys xs ⊎ ((zs : List Interval) × (ys ≡ x ∷ zs) × Part zs xs)

-- No two overlap.
abbrev pub Compatible : List Interval → Type 0
Compatible [] = Unit {0}
Compatible (x ∷ xs) = All (λ y. overlaps x y ≡ false) xs × Compatible xs

abbrev pub AscendingEnds : List Interval → Type 0
AscendingEnds [] = Unit {0}
AscendingEnds (x ∷ xs) = All (λ y. x.end ≤ℤ y.end) xs × AscendingEnds xs

-- Each interval holds a point.
abbrev pub AreProper : List Interval → Type 0
AreProper = All (λ x. x.start <ℤ x.end)

-- How many the greedy choice keeps, none of which starts before `end`.
unfoldable pub kept : List Interval → ℤ → ℕ
kept [] end = 0
kept (x ∷ xs) end =
    let skip = kept xs end in
    let take = suc (kept xs x.end) in if ltb_ℤ x.start end then skip else take

remove_loop_lem :
    (xs : List Interval) (end : ℤ) (count : ℕ)
    → remove_loop xs end count + kept xs end ≡ count + length xs
unfolding remove_loop kept
remove_loop_lem [] end count = omega arith
remove_loop_lem (x ∷ xs) end count = elim (Bool-cases (ltb_ℤ x.start end)) [
  | inl early ↦ rw early (omega (arith, remove_loop_lem xs end (count + 1)))
  | inr late ↦ rw late (omega (arith, remove_loop_lem xs x.end count))
]

-- All start at or after a bound.
abbrev StartFrom : ℤ → List Interval → Type 0
StartFrom end = All (λ x. end ≤ℤ x.start)

Part-All {ℓ} : (P : Interval → Type ℓ) (ys xs : List Interval) → Part ys xs → All P xs → All P ys
Part-All P ys [] e a = subst (All P) (sym e) tt
Part-All P ys (x ∷ xs) (inl p) a = Part-All P ys xs p a.1
Part-All P ys (x ∷ xs) (inr (zs, e, p)) a = subst (All P) (sym e) (a.0, Part-All P zs xs p a.1)

Part-tail : (y : Interval) (ys xs : List Interval) → Part (y ∷ ys) xs → Part ys xs
Part-tail y ys [] e = cc
Part-tail y ys (x ∷ xs) (inl p) = inl (Part-tail y ys xs p)
Part-tail y ys (x ∷ xs) (inr (zs, e, p)) =
    let same : zs ≡ ys = cc in inl (subst (λ l. Part l xs) same p)

-- What does not overlap an interval and ends no earlier starts after it.
after_head :
    (x : Interval) (ys : List Interval)
    → x.start <ℤ x.end
    → All (λ y. overlaps x y ≡ false) ys
    → All (λ y. x.end ≤ℤ y.end) ys
    → StartFrom x.end ys
unfolding overlaps
after_head x [] lt apart later = tt
after_head x (y ∷ ys) lt apart later =
    (ground (arith, apart.0, later.0), after_head x ys lt apart.1 later.1)

raise_bound : (a b : ℤ) (ys : List Interval) → a ≤ℤ b → StartFrom b ys → StartFrom a ys
raise_bound a b [] le s = tt
raise_bound a b (y ∷ ys) le s = (omega (arith, le, s.0), raise_bound a b ys le s.1)

Part-AscendingEnds : (ys xs : List Interval) → Part ys xs → AscendingEnds xs → AscendingEnds ys
Part-AscendingEnds ys [] e a = subst AscendingEnds (sym e) tt
Part-AscendingEnds ys (x ∷ xs) (inl p) a = Part-AscendingEnds ys xs p a.1
Part-AscendingEnds ys (x ∷ xs) (inr (zs, e, p)) a =
    subst AscendingEnds (sym e)
      (Part-All (λ y. x.end ≤ℤ y.end) zs xs p a.0, Part-AscendingEnds zs xs p a.1)

-- Behind the first of a choice the others start after an interval that ends no later than it.
rest_from :
    (x y : Interval) (ys xs : List Interval)
    → AscendingEnds (x ∷ xs)
    → AreProper xs
    → Part (y ∷ ys) xs
    → All (λ z. overlaps y z ≡ false) ys
    → StartFrom x.end ys
rest_from x y ys xs a p part apart =
    raise_bound x.end y.end ys (Part-All (λ z. x.end ≤ℤ z.end) (y ∷ ys) xs part a.0).0 (
      after_head y ys (Part-All (λ z. z.start <ℤ z.end) (y ∷ ys) xs part p).0 apart
        (Part-AscendingEnds (y ∷ ys) xs part a.1).0)

-- No choice of compatible intervals from `end` on is larger.
kept_most :
    (xs ys : List Interval) (end : ℤ)
    → AscendingEnds xs
    → AreProper xs
    → Part ys xs
    → Compatible ys
    → StartFrom end ys
    → length ys ≤ kept xs end
unfolding kept
kept_most [] ys end a p e c s = omega (arith, ap length e)
kept_most (x ∷ xs) ys end a p (inr (zs, e, part)) c s =
    let c' : Compatible (x ∷ zs) = subst Compatible e c in
    let s' : StartFrom end (x ∷ zs) = subst (StartFrom end) e s in
    let later = after_head x zs p.0 c'.0 (Part-All (λ y. x.end ≤ℤ y.end) zs xs part a.0) in
    let late : ltb_ℤ x.start end ≡ false = ground arith in
    rw late (omega (arith, ap length e, kept_most xs zs x.end a.1 p.1 part c'.1 later))
kept_most (x ∷ xs) [] end a p (inl part) c s = omega arith
kept_most (x ∷ xs) (y ∷ ys) end a p (inl part) c s = elim (Bool-cases (ltb_ℤ x.start end)) [
  | inl early ↦ rw early (kept_most xs (y ∷ ys) end a.1 p.1 part c s)
  | inr late ↦ rw late (
      omega (
        arith,
        kept_most xs ys x.end a.1 p.1 (Part-tail y ys xs part) c.1
            (rest_from x y ys xs a p.1 part c.0),
      ))
]

-- The choice that the greedy walk makes.
unfoldable pub choice : List Interval → ℤ → List Interval
choice [] end = []
choice (x ∷ xs) end =
    let skip = choice xs end in
    let take = x ∷ choice xs x.end in if ltb_ℤ x.start end then skip else take

length-choice : (xs : List Interval) (end : ℤ) → length (choice xs end) ≡ kept xs end
unfolding choice kept
length-choice [] end = refl
length-choice (x ∷ xs) end = elim (Bool-cases (ltb_ℤ x.start end)) [
  | inl early ↦ rw early (length-choice xs end)
  | inr late ↦ rw late (ap suc (length-choice xs x.end))
]

choice-Part : (xs : List Interval) (end : ℤ) → Part (choice xs end) xs
unfolding choice
choice-Part [] end = refl
choice-Part (x ∷ xs) end = elim (Bool-cases (ltb_ℤ x.start end)) [
  | inl early ↦ rw early (inl (choice-Part xs end))
  | inr late ↦ rw late (inr (choice xs x.end, refl, choice-Part xs x.end))
]

-- What starts after the end of an interval does not overlap it.
apart_from :
    (x : Interval) (ys : List Interval) → StartFrom x.end ys → All (λ y. overlaps x y ≡ false) ys
unfolding overlaps
apart_from x [] s = tt
apart_from x (y ∷ ys) s = (ground (arith, s.0), apart_from x ys s.1)

choice_from :
    (xs : List Interval) (end : ℤ)
    → AreProper xs
    → StartFrom end (choice xs end) × Compatible (choice xs end)
unfolding choice
choice_from [] end p = (tt, tt)
choice_from (x ∷ xs) end p = elim (Bool-cases (ltb_ℤ x.start end)) [
  | inl early ↦ rw early (choice_from xs end p.1)
  | inr late ↦
      let (s, c) = choice_from xs x.end p.1 in
      let le : end ≤ℤ x.start = ground arith in
      let up : end ≤ℤ x.end = omega (arith, le, p.0) in
      rw late
        ((le, raise_bound end x.end (choice xs x.end) up s), (apart_from x (choice xs x.end) s, c))
]

most_of_sorted :
    (x : Interval) (xs ys : List Interval)
    → AscendingEnds (x ∷ xs)
    → AreProper (x ∷ xs)
    → Part ys (x ∷ xs)
    → Compatible ys
    → length ys ≤ suc (kept xs x.end)
most_of_sorted x xs ys a p (inr (zs, e, part)) c =
    let c' : Compatible (x ∷ zs) = subst Compatible e c in
    let later = after_head x zs p.0 c'.0 (Part-All (λ y. x.end ≤ℤ y.end) zs xs part a.0) in
    omega (arith, ap length e, kept_most xs zs x.end a.1 p.1 part c'.1 later)
most_of_sorted x xs [] a p (inl part) c = omega arith
most_of_sorted x xs (y ∷ ys) a p (inl part) c = omega (
  arith,
  kept_most xs ys x.end a.1 p.1 (Part-tail y ys xs part) c.1 (rest_from x y ys xs a p.1 part c.0),
)

pub sorted_removal :
    (xs : List Interval)
    → AscendingEnds xs
    → AreProper xs
    → (ks : List Interval) × Part ks xs
      × Compatible ks
      × (remove_sorted xs + length ks ≡ length xs)
      × ((ys : List Interval) → Part ys xs → Compatible ys → length ys ≤ length ks)
unfolding remove_sorted
sorted_removal [] a p = ([], refl, tt, omega arith, λ ys e c. omega (arith, ap length e))
sorted_removal (x ∷ xs) a p =
    let rest = choice xs x.end in
    let (s, c) = choice_from xs x.end p.1 in
    let size = length-choice xs x.end in
    (
      x ∷ rest,
      inr (rest, refl, choice-Part xs x.end),
      (apart_from x rest s, c),
      omega (arith, remove_loop_lem xs x.end 0, size),
      λ ys part c'. omega (arith, size, most_of_sorted x xs ys a p part c'),
    )
