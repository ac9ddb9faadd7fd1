-- ===== src/Rings.antt =====
-- Circular arrays, as the message queue of the RTOS and the circular buffer and the deque of djlc
-- use them: `n` cells from index `h` on, an index taken modulo the capacity.
use djiang_oss_public.Prelude.{
  ℕ, zero, suc, ◌+◌, ◌-◌, ◌%◌, ◌<◌, ◌≡◌, ◌≢◌, refl, sym, ap, ◌∙◌, inl, inr, List, [], ◌∷◌, ◌++◌,
  arith, ltb, if◌then◌else◌, some, get_elem?, ltb→lt, length, length-append, Bool-cases,
}
use native.Mathlib.Nat.{mod-eq_of_lt, mod-eq-sub-mod}

-- The index `i`, less than twice the capacity, brought back into the array.
unfoldable pub wrap : ℕ → ℕ → ℕ
wrap cap i = if ltb i cap then i else i - cap

pub wrap-mod : (cap i : ℕ) → i < cap + cap → i % cap ≡ wrap cap i
unfolding wrap
wrap-mod cap i lt = elim (Bool-cases (ltb i cap)) [
  | inl e ↦ rw e (mod-eq_of_lt (ground arith))
  | inr e ↦ rw e (mod-eq-sub-mod (ground arith) ∙ mod-eq_of_lt (ground arith))
]

pub wrap_lt : (cap i : ℕ) → i < cap + cap → wrap cap i < cap
unfolding wrap
wrap_lt cap i lt = ground arith

pub wrap_small : (cap i : ℕ) → i < cap → wrap cap i ≡ i
unfolding wrap
wrap_small cap i lt = ground arith

pub wrap-suc :
    (cap h n : ℕ) → h < cap → n < cap → wrap cap (wrap cap (h + 1) + n) ≡ wrap cap (h + suc n)
unfolding wrap
wrap-suc cap h n lt lt' = ground arith

pub wrap_add :
    (cap h n : ℕ) → h < cap → n < cap → wrap cap (wrap cap (h + n) + 1) ≡ wrap cap (h + suc n)
unfolding wrap
wrap_add cap h n lt lt' = ground arith

-- Cells at different distances from the head are different cells.
pub wrap_ne : (cap h i n : ℕ) → h < cap → i < n → n < cap → wrap cap (h + i) ≢ wrap cap (h + n)
unfolding wrap
wrap_ne cap h i n lt lt' lt'' e = ground arith

get_elem?-left {ℓ} :
    {A : Type ℓ} (xs ys : List A) (i : ℕ) → i < length xs → get_elem? (xs ++ ys) i ≡ get_elem? xs i
get_elem?-left [] ys i lt = absurd (omega arith)
get_elem?-left (x ∷ xs) ys zero lt = refl
get_elem?-left (x ∷ xs) ys (suc i) lt = get_elem?-left xs ys i (omega arith)

get_elem?-last {ℓ} :
    {A : Type ℓ} (xs : List A) (x : A) (i : ℕ) → length xs ≡ i → get_elem? (xs ++ x ∷ []) i ≡ some x
get_elem?-last [] x zero e = refl
get_elem?-last [] x (suc i) e = absurd (omega arith)
get_elem?-last (y ∷ xs) x zero e = absurd (omega arith)
get_elem?-last (y ∷ xs) x (suc i) e = get_elem?-last xs x i (omega arith)

module _ {ℓ} {A : Type ℓ} (cap : ℕ) where
  -- The `n` elements from the index `h` on.
  abbrev pub window : (ℕ → A) → ℕ → ℕ → List A
  window s h zero = []
  window s h (suc n) = window s h n ++ s (wrap cap (h + n)) ∷ []

  pub length-window : (s : ℕ → A) (h n : ℕ) → length (window s h n) ≡ n
  length-window s h zero = refl
  length-window s h (suc n) =
      omega (arith, length-append (window s h n) (s (wrap cap (h + n)) ∷ []), length-window s h n)

  -- The window depends on its own cells alone.
  pub window-same :
      (s s' : ℕ → A) (h n : ℕ)
      → ((i : ℕ) → i < n → s (wrap cap (h + i)) ≡ s' (wrap cap (h + i)))
      → window s h n ≡ window s' h n
  window-same s s' h zero e = refl
  window-same s s' h (suc n) e =
      λ i. window-same s s' h n (λ j lt. e j (omega arith)) i ++ e n (omega arith) i ∷ []

  -- The first of the elements, and the others.
  pub window_head :
      (s : ℕ → A) (h n : ℕ)
      → h < cap
      → n < cap
      → window s h (suc n) ≡ s h ∷ window s (wrap cap (h + 1)) n
  window_head s h zero lt lt' =
      ap (λ i. s i ∷ []) (wrap_small cap (h + 0) (omega arith) ∙ omega arith)
  window_head s h (suc n) lt lt' = λ i.
      window_head s h n lt (omega arith) i ++ s (sym (wrap-suc cap h n lt (omega arith)) i) ∷ []

  -- The element at a distance from the head.
  pub window-get :
      (s : ℕ → A) (h n i : ℕ) → i < n → get_elem? (window s h n) i ≡ some (s (wrap cap (h + i)))
  window-get s h zero i lt = absurd (omega arith)
  window-get s h (suc n) i lt = elim (Bool-cases (ltb i n)) [
    | inl e ↦
        get_elem?-left (window s h n) (s (wrap cap (h + n)) ∷ []) i
          (omega (arith, length-window s h n, ltb→lt i n e))
        ∙ window-get s h n i (ltb→lt i n e)
    | inr e ↦
        get_elem?-last (window s h n) (s (wrap cap (h + n))) i (length-window s h n ∙ ground arith)
        ∙ ap (λ j. some (s (wrap cap (h + j)))) (ground arith)
  ]

-- Two windows with the same elements, cell by cell.
pub window-match {ℓ} :
    {A : Type ℓ} (cap cap' : ℕ) (s s' : ℕ → A) (h h' n : ℕ)
    → ((i : ℕ) → i < n → s (wrap cap (h + i)) ≡ s' (wrap cap' (h' + i)))
    → window cap s h n ≡ window cap' s' h' n
window-match cap cap' s s' h h' zero e = refl
window-match cap cap' s s' h h' (suc n) e =
    λ i. window-match cap cap' s s' h h' n (λ j lt. e j (omega arith)) i ++ e n (omega arith) i ∷ []
