-- ===== src/Djlc/Heap/Order.antt =====
-- The order of a heap, and how often a value stands in an array.
use djiang_oss_public.Prelude.{
  ℕ, zero, suc, ◌+◌, ◌<◌, ◌≤◌, ◌≡◌, ◌≢◌, inl, inr, Bool, true, false, arith, ◌==◌, Bool-cases,
  eq_cases, ap, sym, ◌∙◌, update, update-ne,
}
use djiang_oss_public.Prelude.Int.{ℤ, eqb_ℤ}
use djiang_oss_public.Counts.{count, count-same}
use djiang_oss_public.Djlc.Heap.{heap_cmp, parent}

pub heap_cmp_trans :
    (m : Bool) (a b c : ℤ)
    → heap_cmp m a b ≡ false
    → heap_cmp m b c ≡ false
    → heap_cmp m a c ≡ false
unfolding heap_cmp
heap_cmp_trans true a b c e f = ground arith
heap_cmp_trans false a b c e f = ground arith

pub heap_cmp_asym : (m : Bool) (a b : ℤ) → heap_cmp m a b ≡ true → heap_cmp m b a ≡ false
unfolding heap_cmp
heap_cmp_asym true a b e = ground arith
heap_cmp_asym false a b e = ground arith

pub heap_cmp_refl : (m : Bool) (a : ℤ) → heap_cmp m a a ≡ false
unfolding heap_cmp
heap_cmp_refl true a = ground arith
heap_cmp_refl false a = ground arith

pub heap_cmp_at :
    (m : Bool) {a b x y : ℤ} → a ≡ x → b ≡ y → heap_cmp m x y ≡ false → heap_cmp m a b ≡ false
heap_cmp_at m {b = b} {x = x} e f o = ap (λ t. heap_cmp m t b) e ∙ ap (heap_cmp m x) f ∙ o

pub update_at : (d : ℕ → ℤ) (i j : ℕ) (x : ℤ) → j ≡ i → update d i x j ≡ x
update_at d i j x e = ground arith

pub update_off : (d : ℕ → ℤ) (i j : ℕ) (x : ℤ) → j ≢ i → update d i x j ≡ d j
update_off d i j x ne = update-ne d i j x (λ e. ne (sym e))

-- From the parent `r` on, no child should be above its parent.
abbrev pub OrderedFrom : Bool → ℕ → (ℕ → ℤ) → ℕ → Type 0
OrderedFrom m r d n =
    (j : ℕ) → 0 < j → j < n → r ≤ parent j → heap_cmp m (d j) (d (parent j)) ≡ false

-- The top is above all.
pub OrderedFrom-top :
    (fuel : ℕ) (m : Bool) (d : ℕ → ℤ) (n j : ℕ)
    → OrderedFrom m 0 d n
    → j < fuel
    → j < n
    → heap_cmp m (d j) (d 0) ≡ false
OrderedFrom-top zero m d n j o f lt = absurd (omega arith)
OrderedFrom-top (suc fuel) m d n j o f lt = elim (Bool-cases (j == 0)) [
  | inl e ↦ ground (arith, heap_cmp_refl m (d 0))
  | inr ne ↦
      heap_cmp_trans m (d j) (d (parent j)) (d 0) (o j (ground arith) lt (omega arith))
        (OrderedFrom-top fuel m d n (parent j) o (ground arith) (ground arith))
]

-- 1 for true.
abbrev pub bit : Bool → ℕ
bit true = 1
bit false = 0

-- How often `v` stands in the first `n` cells.
abbrev pub occurrences : ℤ → (ℕ → ℤ) → ℕ → ℕ
occurrences v d n = count (λ j. eqb_ℤ (d j) v) n

pub occurrences-update :
    (v : ℤ) (d : ℕ → ℤ) (n i : ℕ) (x : ℤ)
    → i < n
    → occurrences v (update d i x) n + bit (eqb_ℤ (d i) v) ≡ occurrences v d n + bit (eqb_ℤ x v)
occurrences-update v d zero i x lt = absurd (omega arith)
occurrences-update v d (suc n) i x lt = elim (eq_cases n i) [
  | inl e ↦
      let rest : occurrences v (update d i x) n ≡ occurrences v d n =
        count-same _ _ n (λ j le. ap (λ y. eqb_ℤ y v) (update-ne d i j x (λ q. omega arith))) in
      ground (arith, rest)
  | inr ne ↦ ground (arith, occurrences-update v d n i x (omega arith))
]

-- Moving the free cell leaves the values as they are.
pub move_occurrences :
    (v val : ℤ) (d : ℕ → ℤ) (n i p : ℕ)
    → i < n
    → p < n
    → i ≢ p
    → occurrences v (update (update d i (d p)) p val) n ≡ occurrences v (update d i val) n
move_occurrences v val d n i p lt_i lt_p ne =
    let d1 : ℕ → ℤ = update d i (d p) in
    let same : d1 p ≡ d p = update-ne d i p (d p) ne in
    let first : occurrences v (update d1 p val) n + bit (eqb_ℤ (d p) v)
        ≡ occurrences v d1 n + bit (eqb_ℤ val v) =
      ap (λ (x : ℤ). occurrences v (update d1 p val) n + bit (eqb_ℤ x v)) (sym same)
      ∙ occurrences-update v d1 n p val lt_p in
    omega (arith, first, occurrences-update v d n i (d p) lt_i, occurrences-update v d n i val lt_i)
