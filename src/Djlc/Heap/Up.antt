-- ===== src/Djlc/Heap/Up.antt =====
-- Bubbling up: a value looks for its place on the way to the top.
use djiang_oss_public.Prelude.{
  ℕ, zero, suc, ◌<◌, ◌≡◌, ◌≢◌, refl, sym, ap, ◌∙◌, inl, inr, Bool, true, false, some, arith, ◌==◌,
  Bool-cases, eq_cases, update,
}
use djiang_oss_public.Prelude.Int.{ℤ}
use djiang_oss_public.Djlc.Heap.{heap_cmp, parent, bubble_up}
use djiang_oss_public.Djlc.Heap.Order.{
  heap_cmp_trans, heap_cmp_at, update_at, update_off, heap_cmp_asym, OrderedFrom, occurrences,
  move_occurrences,
}

-- The cell `i` is free for `val`, which may stand above the cell's children.
pub record IsRising (m : Bool) (val : ℤ) (d : ℕ → ℤ) (n i : ℕ) : Type 0 where
  pub others :
      (j : ℕ) → 0 < j → j < n → j ≢ i → parent j ≢ i → heap_cmp m (d j) (d (parent j)) ≡ false
  pub below : (j : ℕ) → 0 < j → j < n → parent j ≡ i → heap_cmp m (d j) val ≡ false
  pub across :
      (j : ℕ) → 0 < i → 0 < j → j < n → parent j ≡ i → heap_cmp m (d j) (d (parent i)) ≡ false

module _ (m : Bool) (val : ℤ) (d : ℕ → ℤ) (n i : ℕ) (r : IsRising m val d n i) where
  rise :
      0 < i
      → i < n
      → heap_cmp m val (d (parent i)) ≡ true
      → IsRising m val (update d i (d (parent i))) n (parent i)
  rise pos_i lt up = record {
    others = λ j pos_j lt_j ne ne_p. elim (eq_cases j i) [
      | inl e ↦ absurd (ne_p (ap (λ (t : ℕ). parent t) e))
      | inr ne_j ↦ elim (eq_cases (parent j) i) [
        | inl e ↦ heap_cmp_at m (off j ne_j) (on (parent j) e) (r.across j pos_i pos_j lt_j e)
        | inr ne_i ↦
            heap_cmp_at m (off j ne_j) (off (parent j) ne_i) (r.others j pos_j lt_j ne_j ne_i)
      ]
    ];
    below = λ j pos_j lt_j e. elim (eq_cases j i) [
      | inl e_j ↦ heap_cmp_at m (on j e_j) refl high
      | inr ne_j ↦
          heap_cmp_at m (off j ne_j) refl
            (heap_cmp_trans m _ _ _ (sibling j pos_j lt_j ne_j e) high)
    ];
    across = λ j pos_p pos_j lt_j e.
        let above =
          r.others (parent i) pos_p (omega (arith, lt)) (λ q. omega (arith, q, pos_i))
            (λ q. omega (arith, q, pos_i)) in
        let same = off (parent (parent i)) (λ q. omega (arith, q, pos_i)) in
        elim (eq_cases j i) [
          | inl e_j ↦ heap_cmp_at m (on j e_j) same above
          | inr ne_j ↦
              heap_cmp_at m (off j ne_j) same
                (heap_cmp_trans m _ _ _ (sibling j pos_j lt_j ne_j e) above)
        ];
  }
    where
      on : (j : ℕ) → j ≡ i → update d i (d (parent i)) j ≡ d (parent i)
      on j e = update_at d i j (d (parent i)) e

      off : (j : ℕ) → j ≢ i → update d i (d (parent i)) j ≡ d j
      off j ne = update_off d i j (d (parent i)) ne

      high : heap_cmp m (d (parent i)) val ≡ false
      high = heap_cmp_asym m val (d (parent i)) up

      sibling :
          (j : ℕ)
          → 0 < j
          → j < n
          → j ≢ i
          → parent j ≡ parent i
          → heap_cmp m (d j) (d (parent i)) ≡ false
      sibling j pos_j lt_j ne e =
          heap_cmp_at m refl (ap d (sym e))
            (r.others j pos_j lt_j ne (λ q. omega (arith, q, e, pos_i)))

  rest :
      i < n → (0 < i → heap_cmp m val (d (parent i)) ≡ false) → OrderedFrom m 0 (update d i val) n
  rest lt stop j pos_j lt_j le = elim (eq_cases j i) [
    | inl e ↦
        heap_cmp_at m (update_at d i j val e)
          (update_off d i (parent j) val (λ q. omega (arith, q, e, pos_j))
            ∙ ap (λ (t : ℕ). d (parent t)) e)
          (stop (omega (arith, e, pos_j)))
    | inr ne ↦ elim (eq_cases (parent j) i) [
      | inl e ↦
          heap_cmp_at m (update_off d i j val ne) (update_at d i (parent j) val e)
            (r.below j pos_j lt_j e)
      | inr ne_p ↦
          heap_cmp_at m (update_off d i j val ne) (update_off d i (parent j) val ne_p)
            (r.others j pos_j lt_j ne ne_p)
    ]
  ]

pub bubble_up_lem :
    (fuel : ℕ) (m : Bool) (val : ℤ) (d : ℕ → ℤ) (n i : ℕ)
    → i < fuel
    → i < n
    → IsRising m val d n i
    → (d' : ℕ → ℤ) × (i' : ℕ) × (bubble_up fuel m val d i ≡ some (d', i'))
      × OrderedFrom m 0 (update d' i' val) n
      × ((v : ℤ) → occurrences v (update d' i' val) n ≡ occurrences v (update d i val) n)
unfolding bubble_up
bubble_up_lem zero m val d n i f lt r = absurd (omega arith)
bubble_up_lem (suc fuel) m val d n i f lt r = elim (Bool-cases (i == 0)) [
  | inl top ↦ (d, i, rw top refl, rest m val d n i r lt (λ q. ground arith), λ v. refl)
  | inr low ↦ elim (Bool-cases (heap_cmp m val (d (parent i)))) [
    | inl up ↦
        let (d', i', e, o, same) =
          bubble_up_lem fuel m val (update d i (d (parent i))) n (parent i) (ground arith)
            (omega (arith, lt)) (rise m val d n i r (ground arith) lt up) in
        (
          d',
          i',
          rw (low, up) e,
          o,
          λ v.
              same v
              ∙ move_occurrences v val d n i (parent i) lt (omega (arith, lt)) (ground arith),
        )
    | inr stop ↦ (d, i, rw (low, stop) refl, rest m val d n i r lt (λ q. stop), λ v. refl)
  ]
]
