-- ===== src/Djlc/Deque/Pop.antt =====
-- Popping at both ends, and the loop for monotonic deques.
use djiang_oss_public.Prelude.{
  ℕ, zero, suc, ◌+◌, ◌-◌, ◌%◌, ◌<◌, ◌≤◌, ◌≡◌, ◌^◌, Option, refl, sym, ap, subst, ◌∙◌, inl, inr,
  Bool, true, false, some, List, [], ◌∷◌, ◌++◌, arith, ◌==◌, if◌then◌else◌, eq_cases, ==_ne,
  Bool-cases,
}
use djiang_oss_public.Prelude.Int.{ℤ}
use djiang_oss_public.Rings.{wrap, wrap-mod, wrap_lt, wrap-suc, window, window_head}
use djiang_oss_public.Djlc.Deque.{
  Deque, back_of, drop_back, drop_front, deque_pop_back, deque_pop_front, deque_front, deque_back,
  pop_while, pop_back_while_ge, pop_back_while_le, not_below, not_above,
}
use djiang_oss_public.Djlc.Deque.Items.{
  IsDeque, elements, back_cell, cell_before_lem, index_before, rear_lt,
}

wrap_back :
    (cap i n : ℕ)
    → i < cap
    → suc n ≤ cap
    → wrap cap (wrap cap (i + suc n) + cap - 1) ≡ wrap cap (i + n)
unfolding wrap
wrap_back cap i n lt le = ground arith

module _ (dq : Deque) (v : IsDeque dq) (left : 0 < dq.size) where
  n : ℕ
  n = dq.size - 1

  counted : dq.size ≡ suc n
  unfolding n
  counted = omega arith

  n_lt : suc n ≤ dq.capacity
  unfolding n
  n_lt = omega (arith, v.filled)

  back_at : back_cell dq ≡ wrap dq.capacity (dq.front + n)
  back_at =
      index_before dq v dq.rear (rear_lt dq v)
      ∙ ap (λ i. wrap dq.capacity (i + dq.capacity - 1))
          (v.ends ∙ ap (λ m. wrap dq.capacity (dq.front + m)) counted)
      ∙ wrap_back dq.capacity dq.front n v.inside n_lt

  back_run : dq.capacity ≤ 2 ^ 30 → back_of dq ≡ some (back_cell dq)
  back_run small = cell_before_lem dq.capacity dq.rear (rear_lt dq v) small

  drop_back_lem :
      IsDeque (drop_back (back_cell dq) dq)
      × (elements dq ≡ elements (drop_back (back_cell dq) dq) ++ dq.data_of (back_cell dq) ∷ [])
  unfolding drop_back n
  drop_back_lem = (
    record { room = v.room; filled = omega (arith, v.filled); inside = v.inside; ends = back_at },
    ap (window dq.capacity dq.data_of dq.front) counted
        ∙ ap (λ i. window dq.capacity dq.data_of dq.front n ++ dq.data_of i ∷ []) (sym back_at),
  )

  front_step : (dq.front + 1) % dq.capacity ≡ wrap dq.capacity (dq.front + 1)
  front_step = wrap-mod dq.capacity (dq.front + 1) (omega (arith, v.inside, v.room))

  drop_front_lem :
      IsDeque (drop_front dq) × (elements dq ≡ dq.data_of dq.front ∷ elements (drop_front dq))
  unfolding drop_front n
  drop_front_lem = (
    record {
      room = v.room;
      filled = omega (arith, v.filled);
      inside =
          subst (λ i. i < dq.capacity) (sym front_step)
            (wrap_lt dq.capacity (dq.front + 1) (omega (arith, v.inside)));
      ends =
          v.ends
          ∙ ap (λ m. wrap dq.capacity (dq.front + m)) counted
          ∙ sym (wrap-suc dq.capacity dq.front n v.inside n_lt)
          ∙ ap (λ i. wrap dq.capacity (i + n)) (sym front_step);
    },
    ap (window dq.capacity dq.data_of dq.front) counted
        ∙ window_head dq.capacity dq.data_of dq.front n v.inside n_lt
        ∙ ap (λ i. dq.data_of dq.front ∷ window dq.capacity dq.data_of i n) (sym front_step),
  )

  -- On a well-formed deque of a capacity of at most 2^30 that is not empty, popping at the back returns the last element, which
  -- deque_back returns too, and leaves a well-formed deque of the others.
  deque_pop_back_lem :
      dq.capacity ≤ 2 ^ 30
      → (x : ℤ) × (dq' : Deque) × (deque_pop_back dq ≡ some (some x, dq'))
        × (deque_back dq ≡ some (some x))
        × IsDeque dq'
        × (elements dq ≡ elements dq' ++ x ∷ [])
  unfolding deque_pop_back deque_back
  deque_pop_back_lem small =
      let held : (dq.size == 0) ≡ false = ==_ne dq.size 0 (omega (arith, left)) in
      (
        dq.data_of (back_cell dq),
        drop_back (back_cell dq) dq,
        rw (held, back_run small) refl,
        rw (held, back_run small) refl,
        drop_back_lem.0,
        drop_back_lem.1,
      )

  -- On a well-formed deque that is not empty, popping at the front returns the first element, which
  -- deque_front returns too, and leaves a well-formed deque of the others.
  deque_pop_front_lem :
      (x : ℤ) × ((deque_pop_front dq).0 ≡ some x)
      × (deque_front dq ≡ some x)
      × IsDeque (deque_pop_front dq).1
      × (elements dq ≡ x ∷ elements (deque_pop_front dq).1)
  unfolding deque_pop_front deque_front
  deque_pop_front_lem = (
    dq.data_of dq.front,
    ground arith,
    ground arith,
    rw (==_ne dq.size 0 (omega (arith, left))) drop_front_lem.0,
    rw (==_ne dq.size 0 (omega (arith, left))) drop_front_lem.1,
  )

-- The list without the elements at its end that pass the test.
abbrev pub trim_cons : (ℤ → Bool) → ℤ → List ℤ → List ℤ
trim_cons test x [] = if test x then [] else x ∷ []
trim_cons test x (y ∷ ys) = x ∷ y ∷ ys

abbrev pub trim : (ℤ → Bool) → List ℤ → List ℤ
trim test [] = []
trim test (x ∷ xs) = trim_cons test x (trim test xs)

trim_last_true :
    (test : ℤ → Bool) (xs : List ℤ) (y : ℤ)
    → test y ≡ true
    → trim test (xs ++ y ∷ []) ≡ trim test xs
trim_last_true test [] y e = rw e refl
trim_last_true test (x ∷ xs) y e = ap (trim_cons test x) (trim_last_true test xs y e)

trim_last_false :
    (test : ℤ → Bool) (xs : List ℤ) (y : ℤ)
    → test y ≡ false
    → trim test (xs ++ y ∷ []) ≡ xs ++ y ∷ []
trim_last_false test [] y e = rw e refl
trim_last_false test (x ∷ []) y e = ap (trim_cons test x) (trim_last_false test [] y e)
trim_last_false test (x ∷ z ∷ xs) y e = ap (trim_cons test x) (trim_last_false test (z ∷ xs) y e)

smaller :
    (dq : Deque) (fuel : ℕ)
    → dq.size ≤ suc fuel
    → 0 < dq.size
    → (drop_back (back_cell dq) dq).size ≤ fuel
unfolding drop_back
smaller dq fuel le left = omega arith

items_nil : (dq : Deque) → dq.size ≡ 0 → elements dq ≡ []
items_nil dq e = ap (window dq.capacity dq.data_of dq.front) e

-- The loop ends, in a well-formed deque of the elements that are left.
abbrev Trims : (ℤ → Bool) → Deque → Option Deque → Type 0
Trims test dq out =
    (dq' : Deque) × (out ≡ some dq') × IsDeque dq' × (elements dq' ≡ trim test (elements dq))

pop_while_empty :
    (test : ℤ → Bool) (dq : Deque) → IsDeque dq → dq.size ≡ 0 → Trims test dq (some dq)
pop_while_empty test dq v none_left =
    let e = items_nil dq none_left in (dq, refl, v, e ∙ ap (trim test) (sym e))

pop_while_lem :
    (fuel : ℕ) (test : ℤ → Bool) (dq : Deque)
    → dq.size ≤ fuel
    → dq.capacity ≤ 2 ^ 30
    → IsDeque dq
    → Trims test dq (pop_while fuel test dq)
unfolding drop_back
pop_while_lem zero test dq le small v = pop_while_empty test dq v (omega (arith, le))
pop_while_lem (suc fuel) test dq le small v = elim (eq_cases dq.size 0) [
  | inl none_left ↦ rw (ap (λ (n : ℕ). n == 0) none_left) (pop_while_empty test dq v none_left)
  | inr ne ↦
      let left : 0 < dq.size = omega arith in
      let y = dq.data_of (back_cell dq) in
      let dq1 = drop_back (back_cell dq) dq in
      let run = back_run dq v left small in
      let (v', e) = drop_back_lem dq v left in
      elim (Bool-cases (test y)) [
        | inl t ↦
            let (dq2, r, v2, e2) = pop_while_lem fuel test dq1 (smaller dq fuel le left) small v' in
            (
              dq2,
              rw (==_ne dq.size 0 ne, run, t) r,
              v2,
              e2 ∙ sym (trim_last_true test (elements dq1) y t) ∙ ap (trim test) (sym e),
            )
        | inr t ↦ (
          dq,
          rw (==_ne dq.size 0 ne, run, t) refl,
          v,
          e ∙ sym (trim_last_false test (elements dq1) y t) ∙ ap (trim test) (sym e),
        )
      ]
]

-- On a well-formed deque of a capacity of at most 2^30, the loops for monotonic deques end without
-- overflow and leave it well-formed, without the elements at the back that are at least, or at
-- most, the value, and with all the others.
pub pop_back_while_lem :
    (dq : Deque) (val : ℤ)
    → IsDeque dq
    → dq.capacity ≤ 2 ^ 30
    → (ge : Deque) × (le : Deque) × (pop_back_while_ge val dq ≡ some ge)
      × IsDeque ge
      × (elements ge ≡ trim (not_below val) (elements dq))
      × (pop_back_while_le val dq ≡ some le)
      × IsDeque le
      × (elements le ≡ trim (not_above val) (elements dq))
unfolding pop_back_while_ge pop_back_while_le
pop_back_while_lem dq val v small =
    let (ge, r, a, b) = pop_while_lem dq.size (not_below val) dq (omega arith) small v in
    let (le, s, c, d) = pop_while_lem dq.size (not_above val) dq (omega arith) small v in
    (ge, le, r, a, b, s, c, d)
