-- ===== src/Djlc/Heap/Down.antt =====
-- Bubbling down: a value looks for its place on the way from a cell to the leaves.
use djiang_oss_public.Prelude.{
  ℕ, zero, suc, ◌+◌, ◌-◌, ◌*◌, ◌<◌, ◌≤◌, ◌≡◌, ◌≢◌, ◌⊎◌, refl, sym, ap, ◌∙◌, inl, inr, Bool, true,
  false, ◌&&◌, some, arith, leb, ◌^◌, ltb, Bool-cases, eq_cases, update,
}
use djiang_oss_public.Prelude.Int.{ℤ}
use djiang_oss_public.Djlc.Heap.{heap_cmp, parent, best_child, bubble_down, settle}
use djiang_oss_public.Djlc.Heap.Order.{
  heap_cmp_trans, heap_cmp_asym, heap_cmp_refl, heap_cmp_at, update_at, update_off, OrderedFrom,
  occurrences, move_occurrences,
}

-- One of the children, and the best of them.
record IsBest (m : Bool) (d : ℕ → ℤ) (n i c : ℕ) : Type 0 where
  positive : 0 < c
  inside : c < n
  child : parent c ≡ i
  deeper : i < c
  best : (j : ℕ) → 0 < j → j < n → parent j ≡ i → heap_cmp m (d j) (d c) ≡ false

best_child_lem :
    (m : Bool) (d : ℕ → ℤ) (n i : ℕ)
    → ltb (2 * i + 1) n ≡ true
    → IsBest m d n i (best_child m d n i)
unfolding best_child
best_child_lem m d n i more =
    elim (Bool-cases (ltb (2 * i + 1 + 1) n && heap_cmp m (d (2 * i + 1 + 1)) (d (2 * i + 1)))) [
      | inl right ↦ rw right (record {
        positive = omega arith;
        inside = ground arith;
        child = omega arith;
        deeper = omega arith;
        best = λ j pos_j lt_j e. elim (eq_cases j (2 * i + 1)) [
          | inl e_j ↦
              heap_cmp_at m (ap d e_j) refl
                (heap_cmp_asym m (d (2 * i + 1 + 1)) (d (2 * i + 1)) (ground arith))
          | inr ne_j ↦
              let last_j : j ≡ 2 * i + 1 + 1 = omega (arith, e, pos_j, ne_j) in
              heap_cmp_at m (ap d last_j) refl (heap_cmp_refl m _)
        ];
      })
      | inr left ↦ rw left (record {
        positive = omega arith;
        inside = ground arith;
        child = omega arith;
        deeper = omega arith;
        best = λ j pos_j lt_j e. elim (eq_cases j (2 * i + 1)) [
          | inl e_j ↦ heap_cmp_at m (ap d e_j) refl (heap_cmp_refl m _)
          | inr ne_j ↦
              let last_j : j ≡ 2 * i + 1 + 1 = omega (arith, e, pos_j, ne_j) in
              heap_cmp_at m (ap d last_j) refl (ground arith)
        ];
      })
    ]

-- The cell `i`, below the root `r`, is free for `last`, which may stand below the cell's parent.
record IsFalling (m : Bool) (r : ℕ) (last : ℤ) (d : ℕ → ℤ) (n i : ℕ) : Type 0 where
  others :
      (j : ℕ)
      → 0 < j
      → j < n
      → r ≤ parent j
      → j ≢ i
      → parent j ≢ i
      → heap_cmp m (d j) (d (parent j)) ≡ false
  place : (i ≡ r) ⊎ ((r < i) × (r ≤ parent i))
  above : r < i → heap_cmp m last (d (parent i)) ≡ false
  across : (j : ℕ) → r < i → 0 < j → j < n → parent j ≡ i → heap_cmp m (d j) (d (parent i)) ≡ false

module _ (m : Bool) (r : ℕ) (last : ℤ) (d : ℕ → ℤ) (n i : ℕ) (f : IsFalling m r last d n i) where
  fall :
      (c : ℕ)
      → IsBest m d n i c
      → heap_cmp m (d c) last ≡ true
      → IsFalling m r last (update d i (d c)) n c
  fall c b up = record {
    others = λ j pos_j lt_j le ne ne_p. elim (eq_cases j i) [
      | inl e ↦
          let higher : parent j ≡ parent i = ap (λ (t : ℕ). parent t) e in
          heap_cmp_at m (on j e) (off (parent j) (λ q. omega (arith, q, e, pos_j)) ∙ ap d higher)
            (f.across c (omega (arith, le, higher, e, pos_j)) b.positive b.inside b.child)
      | inr ne_j ↦ elim (eq_cases (parent j) i) [
        | inl e ↦ heap_cmp_at m (off j ne_j) (on (parent j) e) (b.best j pos_j lt_j e)
        | inr ne_i ↦
            heap_cmp_at m (off j ne_j) (off (parent j) ne_i) (f.others j pos_j lt_j le ne_j ne_i)
      ]
    ];
    place = inr (omega (arith, root, b.deeper), omega (arith, root, b.child));
    above = λ lt. heap_cmp_at m refl (on (parent c) b.child) (heap_cmp_asym m (d c) last up);
    across = λ j lt pos_j lt_j e.
        heap_cmp_at m (off j (λ q. omega (arith, q, e, b.deeper)))
          (on (parent c) b.child ∙ ap d (sym e))
          (f.others j pos_j lt_j (omega (arith, e, lt)) (λ q. omega (arith, q, e, b.deeper))
            (λ q. omega (arith, q, e, b.deeper)));
  }
    where
      on : (j : ℕ) → j ≡ i → update d i (d c) j ≡ d c
      on j e = update_at d i j (d c) e

      off : (j : ℕ) → j ≢ i → update d i (d c) j ≡ d j
      off j ne = update_off d i j (d c) ne

      root : r ≤ i
      root = ground (arith, f.place)

  landed :
      ((j : ℕ) → 0 < j → j < n → parent j ≡ i → heap_cmp m (d j) last ≡ false)
      → OrderedFrom m r (update d i last) n
  landed stop j pos_j lt_j le = elim (eq_cases j i) [
    | inl e ↦
        let higher : parent j ≡ parent i = ap (λ (t : ℕ). parent t) e in
        heap_cmp_at m (update_at d i j last e)
          (update_off d i (parent j) last (λ q. omega (arith, q, e, pos_j)) ∙ ap d higher)
          (f.above (omega (arith, le, higher, e, pos_j)))
    | inr ne ↦ elim (eq_cases (parent j) i) [
      | inl e ↦
          heap_cmp_at m (update_off d i j last ne) (update_at d i (parent j) last e)
            (stop j pos_j lt_j e)
      | inr ne_p ↦
          heap_cmp_at m (update_off d i j last ne) (update_off d i (parent j) last ne_p)
            (f.others j pos_j lt_j le ne ne_p)
    ]
  ]

bubble_down_lem :
    (fuel : ℕ) (m : Bool) (r : ℕ) (last : ℤ) (d : ℕ → ℤ) (n i : ℕ)
    → n ≤ 2 ^ 30
    → n - i < fuel
    → i < n
    → IsFalling m r last d n i
    → (d' : ℕ → ℤ) × (i' : ℕ) × (bubble_down fuel m n last d i ≡ some (d', i'))
      × OrderedFrom m r (update d' i' last) n
      × ((v : ℤ) → occurrences v (update d' i' last) n ≡ occurrences v (update d i last) n)
unfolding bubble_down
bubble_down_lem zero m r last d n i top fu lt f = absurd (omega arith)
bubble_down_lem (suc fuel) m r last d n i top fu lt f =
    let fits : leb (2 ^ 31) (2 * i + 1) ≡ false = ground arith in
    elim (Bool-cases (ltb (2 * i + 1) n)) [
      | inl more ↦
          let c = best_child m d n i in
          let b : IsBest m d n i c = best_child_lem m d n i more in
          elim (Bool-cases (heap_cmp m (d c) last)) [
            | inl up ↦
                let (d', i', e, o, same) =
                  bubble_down_lem fuel m r last (update d i (d c)) n c top
                    (omega (arith, b.deeper, b.inside, fu)) b.inside
                    (fall m r last d n i f c b up) in
                (
                  d',
                  i',
                  rw (fits, more, up) e,
                  o,
                  λ v.
                      same v
                      ∙ move_occurrences v last d n i c lt b.inside
                          (λ q. omega (arith, q, b.deeper)),
                )
            | inr stop ↦ (
              d,
              i,
              rw (fits, more, stop) refl,
              landed m r last d n i f (λ j pos_j lt_j e.
                  heap_cmp_trans m (d j) (d c) last (b.best j pos_j lt_j e) stop),
              λ v. refl,
            )
          ]
      | inr leaf ↦ (
        d,
        i,
        rw (fits, leaf) refl,
        landed m r last d n i f (λ j pos_j lt_j e. absurd (ground arith)),
        λ v. refl,
      )
    ]

-- Below a root whose children's trees are in order, the value of the root settles.
pub settle_lem :
    (m : Bool) (r : ℕ) (last : ℤ) (d : ℕ → ℤ) (n : ℕ)
    → n ≤ 2 ^ 30
    → r < n
    → OrderedFrom m (suc r) d n
    → (d' : ℕ → ℤ) × (settle m n last d r ≡ some d')
      × OrderedFrom m r d' n
      × ((v : ℤ) → occurrences v d' n ≡ occurrences v (update d r last) n)
unfolding settle
settle_lem m r last d n top lt o =
    let (d', i', e, o', same) =
      bubble_down_lem (n - r + 1) m r last d n r top (omega arith) lt (record {
        others = λ j pos_j lt_j le ne ne_p. o j pos_j lt_j (omega (arith, le, ne_p));
        place = inl refl;
        above = λ q. absurd (omega (arith, q));
        across = λ j q pos_j lt_j e. absurd (omega (arith, q));
      }) in
    (update d' i' last, rw e refl, o', same)
