-- ===== src/Djlc/Cbuf/Items.antt =====
-- A circular buffer as the list of its elements, the oldest first.
use djiang_oss_public.Prelude.{
  ℕ, suc, ◌+◌, ◌-◌, ◌%◌, ◌<◌, ◌≤◌, ◌≡◌, refl, sym, ap, subst, ◌∙◌, inl, inr, Bool, true, false,
  Option, some, List, [], ◌∷◌, ◌++◌, arith, length, get_elem?, update, update_self, update-ne, ◌==◌,
  if◌then◌else◌, eq_cases, ==_ne,
}
use djiang_oss_public.Prelude.Int.{ℤ, pos}
use djiang_oss_public.Rings.{
  wrap, wrap-mod, wrap_lt, wrap-suc, wrap_add, wrap_ne, window, length-window, window-same,
  window_head, window-get,
}
use djiang_oss_public.Djlc.Cbuf.{
  Cbuf, overwrite, append_value, drop_value, cbuf_full, cbuf_push, cbuf_pop, cbuf_peek, cbuf_get,
}

abbrev pub items : Cbuf → List ℤ
items cb = window cb.capacity cb.data_of cb.head cb.count

-- What a push returns.
abbrev pub lost : Bool → List ℤ → ℤ
lost true (x ∷ xs) = x
lost true [] = pos 0
lost false xs = pos 0

abbrev oldest : ℤ → List ℤ → Option ℤ
oldest d [] = some d
oldest d (x ∷ xs) = some x

plus_one : (n : ℕ) → n + 1 ≡ suc n
plus_one n = omega arith

-- A well-formed buffer: indices that agree.
pub record IsCbuf (cb : Cbuf) : Type 0 where
  pub room : 0 < cb.capacity
  pub filled : cb.count ≤ cb.capacity
  pub inside : cb.head < cb.capacity
  pub ends : cb.tail ≡ wrap cb.capacity (cb.head + cb.count)

abbrev pub drop_oldest : List ℤ → List ℤ
drop_oldest [] = []
drop_oldest (x ∷ xs) = xs

-- What pushing does to a full buffer of `n` elements: the oldest goes.
abbrev pub kept : Bool → List ℤ → List ℤ
kept full xs = if full then drop_oldest xs else xs

module _ (cb : Cbuf) (v : IsCbuf cb) where
  step : (i : ℕ) → i < cb.capacity → (i + 1) % cb.capacity ≡ wrap cb.capacity (i + 1)
  step i lt = wrap-mod cb.capacity (i + 1) (omega (arith, v.room))

  tail_lt : cb.tail < cb.capacity
  tail_lt =
      subst (λ i. i < cb.capacity) (sym v.ends)
        (wrap_lt cb.capacity (cb.head + cb.count) (omega (arith, v.filled, v.inside)))

  tail_step :
      cb.count < cb.capacity
      → (cb.tail + 1) % cb.capacity ≡ wrap cb.capacity (cb.head + suc cb.count)
  tail_step lt =
      step cb.tail tail_lt
      ∙ ap (λ i. wrap cb.capacity (i + 1)) v.ends
      ∙ wrap_add cb.capacity cb.head cb.count v.inside lt

  -- A write at the tail is behind the elements from `h` on, of which there are `n`.
  written :
      (val : ℤ) (h n : ℕ)
      → h < cb.capacity
      → n < cb.capacity
      → cb.tail ≡ wrap cb.capacity (h + n)
      → window cb.capacity (update cb.data_of cb.tail val) h (suc n)
        ≡ window cb.capacity cb.data_of h n ++ val ∷ []
  written val h n lt lt' e = λ i.
      window-same cb.capacity (update cb.data_of cb.tail val) cb.data_of h n
        (λ j lj.
          update-ne cb.data_of cb.tail (wrap cb.capacity (h + j)) val
            (λ f. wrap_ne cb.capacity h j n lt lj lt' (sym f ∙ e)))
        i
      ++ (ap (update cb.data_of cb.tail val) (sym e) ∙ update_self cb.data_of cb.tail val) i ∷ []

  -- With room, a push appends the value, and returns 0.
  append_value_lem :
      (val : ℤ)
      → cb.count < cb.capacity
      → IsCbuf (append_value val cb) × (items (append_value val cb) ≡ items cb ++ val ∷ [])
  unfolding append_value
  append_value_lem val lt = (
    record {
      room = v.room;
      filled = omega arith;
      inside = v.inside;
      ends = tail_step lt ∙ ap (λ n. wrap cb.capacity (cb.head + n)) (sym (plus_one cb.count));
    },
    ap (window cb.capacity (update cb.data_of cb.tail val) cb.head) (plus_one cb.count)
        ∙ written val cb.head cb.count v.inside lt v.ends,
  )

  module _ (some_left : 0 < cb.count) where
    n : ℕ
    n = cb.count - 1

    h : ℕ
    h = (cb.head + 1) % cb.capacity

    counted : cb.count ≡ suc n
    unfolding n
    counted = omega arith

    n_lt : n < cb.capacity
    unfolding n
    n_lt = omega (arith, v.filled)

    head_step : h ≡ wrap cb.capacity (cb.head + 1)
    unfolding h
    head_step = step cb.head v.inside

    head_lt : h < cb.capacity
    head_lt =
        subst (λ i. i < cb.capacity) (sym head_step)
          (wrap_lt cb.capacity (cb.head + 1) (omega (arith, v.inside)))

    -- The oldest element, and the others.
    first_item : items cb ≡ cb.data_of cb.head ∷ window cb.capacity cb.data_of h n
    first_item =
        ap (window cb.capacity cb.data_of cb.head) counted
        ∙ window_head cb.capacity cb.data_of cb.head n v.inside n_lt
        ∙ ap (λ i. cb.data_of cb.head ∷ window cb.capacity cb.data_of i n) (sym head_step)

    -- The tail, measured from the second oldest element.
    second_ends : cb.tail ≡ wrap cb.capacity (h + n)
    second_ends =
        v.ends
        ∙ ap (λ m. wrap cb.capacity (cb.head + m)) counted
        ∙ sym (wrap-suc cb.capacity cb.head n v.inside n_lt)
        ∙ ap (λ i. wrap cb.capacity (i + n)) (sym head_step)

    drop_value_lem :
        IsCbuf (drop_value cb) × (items cb ≡ cb.data_of cb.head ∷ items (drop_value cb))
    unfolding drop_value n h
    drop_value_lem = (
      record {
        room = v.room;
        filled = omega (arith, v.filled);
        inside = head_lt;
        ends = second_ends;
      },
      first_item,
    )

    overwrite_lem :
        (val : ℤ)
        → IsCbuf (overwrite val cb)
          × (items (overwrite val cb) ≡ window cb.capacity cb.data_of h n ++ val ∷ [])
    unfolding overwrite h
    overwrite_lem val = (
      record {
        room = v.room;
        filled = v.filled;
        inside = head_lt;
        ends =
            step cb.tail tail_lt
            ∙ ap (λ i. wrap cb.capacity (i + 1)) second_ends
            ∙ wrap_add cb.capacity h n head_lt n_lt
            ∙ ap (λ m. wrap cb.capacity (h + m)) (sym counted);
      },
      ap (window cb.capacity (update cb.data_of cb.tail val) h) counted
          ∙ written val h n head_lt n_lt second_ends,
    )

-- On a well-formed circular buffer, a push keeps it well-formed and appends the value; if the
-- buffer was full its oldest element goes and is the result, and else the result is 0.
pub cbuf_push_lem :
    (cb : Cbuf) (val : ℤ)
    → IsCbuf cb
    → IsCbuf (cbuf_push val cb).1
      × (items (cbuf_push val cb).1 ≡ kept (cbuf_full cb) (items cb) ++ val ∷ [])
      × ((cbuf_push val cb).0 ≡ lost (cbuf_full cb) (items cb))
unfolding cbuf_push cbuf_full
cbuf_push_lem cb val v = elim (eq_cases cb.count cb.capacity) [
  | inl e ↦
      let pos : 0 < cb.count = omega (arith, v.room, e) in
      let t : (cb.count == cb.capacity) ≡ true = ground arith in
      let (v', e') = overwrite_lem cb v pos val in
      rw t (
        v',
        e' ∙ ap (λ xs. drop_oldest xs ++ val ∷ []) (sym (first_item cb v pos)),
        ap (lost true) (sym (first_item cb v pos)),
      )
  | inr ne ↦
      let (v', e') = append_value_lem cb v val (omega (arith, v.filled)) in
      rw (==_ne cb.count cb.capacity ne) (v', e', refl)
]

-- On a well-formed circular buffer with an oldest element, popping returns it, peeking returns it
-- too, and popping leaves a well-formed buffer of the others.
cbuf_pop_lem :
    (cb : Cbuf) (x : ℤ) (xs : List ℤ)
    → IsCbuf cb
    → items cb ≡ x ∷ xs
    → ((cbuf_pop cb).0 ≡ some x)
      × IsCbuf (cbuf_pop cb).1
      × (items (cbuf_pop cb).1 ≡ xs)
      × (cbuf_peek cb ≡ some x)
unfolding cbuf_pop cbuf_peek
cbuf_pop_lem cb x xs v e =
    let len : length (x ∷ xs) ≡ cb.count =
      ap length (sym e) ∙ length-window cb.capacity cb.data_of cb.head cb.count in
    let pos : 0 < cb.count = omega (arith, len) in
    let (v', e') = drop_value_lem cb v pos in
    let same = sym e' ∙ e in
    rw (==_ne cb.count 0 (omega (arith, pos)))
      (ap (oldest x) same, v', ap drop_oldest same, ap (oldest x) same)

-- An index within the count reads the element at that distance from the oldest.
cbuf_get_lem :
    (cb : Cbuf) (i : ℕ) → IsCbuf cb → i < cb.count → get_elem? (items cb) i ≡ some (cbuf_get i cb)
unfolding cbuf_get
cbuf_get_lem cb i v lt =
    window-get cb.capacity cb.data_of cb.head cb.count i lt
    ∙ ap (λ j. some (cb.data_of j))
        (sym (wrap-mod cb.capacity (cb.head + i) (omega (arith, v.inside, v.filled))))
