-- ===== src/Counts.antt =====
-- Counting the numbers below a bound that a test accepts: the roots of the union-find structure and
-- the occupied entries of the hash map of djlc.
use djiang_oss_public.Prelude.{
  ℕ, zero, suc, ◌+◌, ◌≤◌, ◌<◌, ◌≡◌, ◌≢◌, refl, ap, ◌∙◌, inl, inr, arith, if◌then◌else◌, eq_cases,
  Bool, true, false,
}

-- The elements below `n` that a test accepts.
abbrev pub count : (ℕ → Bool) → ℕ → ℕ
count test zero = 0
count test (suc n) = (if test n then 1 else 0) + count test n

pub count-le : (test : ℕ → Bool) (n : ℕ) → count test n ≤ n
count-le test zero = omega arith
count-le test (suc n) = ground (arith, count-le test n)

pub count-same : (t t' : ℕ → Bool) (n : ℕ) → ((i : ℕ) → i < n → t i ≡ t' i) → count t n ≡ count t' n
count-same t t' zero e = refl
count-same t t' (suc n) e =
    λ k. (if e n (omega arith) k then 1 else 0) + count-same t t' n (λ i lt. e i (omega arith)) k

-- Two tests that agree but at `a`, which the first accepts and the second does not.
pub count-less :
    (t t' : ℕ → Bool) (a n : ℕ)
    → a < n
    → t a ≡ true
    → t' a ≡ false
    → ((i : ℕ) → i < n → i ≢ a → t i ≡ t' i)
    → count t n ≡ suc (count t' n)
count-less t t' a zero lt yes_a no_a e = absurd (omega arith)
count-less t t' a (suc n) lt yes_a no_a e = elim (eq_cases n a) [
  | inl same ↦
      rw (ap t same ∙ yes_a, ap t' same ∙ no_a)
        (omega (arith, count-same t t' n (λ i lt'. e i (omega arith) (λ q. omega arith))))
  | inr ne ↦ rw (e n (omega arith) ne) (
      omega
        (arith, count-less t t' a n (omega arith) yes_a no_a (λ i lt' ne'. e i (omega arith) ne')))
]

count_mono :
    (t t' : ℕ → Bool) (n : ℕ) → ((i : ℕ) → t' i ≡ true → t i ≡ true) → count t' n ≤ count t n
count_mono t t' zero sub = omega arith
count_mono t t' (suc n) sub = ground (arith, sub n, count_mono t t' n sub)

-- A test that accepts less, and rejects an element that the other accepts.
pub count-lt :
    (t t' : ℕ → Bool) (a n : ℕ)
    → a < n
    → t a ≡ true
    → t' a ≡ false
    → ((i : ℕ) → t' i ≡ true → t i ≡ true)
    → count t' n < count t n
count-lt t t' a zero lt yes_a no_a sub = absurd (omega arith)
count-lt t t' a (suc n) lt yes_a no_a sub = elim (eq_cases n a) [
  | inl same ↦ rw (ap t same ∙ yes_a, ap t' same ∙ no_a) (omega (arith, count_mono t t' n sub))
  | inr ne ↦ ground (arith, sub n, count-lt t t' a n (omega arith) yes_a no_a sub)
]

pub count-all : (t : ℕ → Bool) (n : ℕ) → ((i : ℕ) → i < n → t i ≡ true) → count t n ≡ n
count-all t zero e = refl
count-all t (suc n) e =
    rw (e n (omega arith)) (omega (arith, count-all t n (λ i lt. e i (omega arith))))
