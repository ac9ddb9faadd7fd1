-- ===== src/Djlc/Deque/Items.antt =====
-- A deque as the list of its elements, and pushing at both ends.
use djiang_oss_public.Prelude.{
  ℕ, suc, ◌+◌, ◌-◌, ◌%◌, ◌<◌, ◌≤◌, ◌≡◌, ◌^◌, refl, true, false, ltb, ◌==◌, sym, ap, subst, ◌∙◌,
  some, List, [], ◌∷◌, ◌++◌, arith, update, update_self, update-ne,
}
use djiang_oss_public.Prelude.Int.{ℤ}
use djiang_oss_public.Rings.{
  wrap, wrap-mod, wrap_lt, wrap_small, wrap-suc, wrap_add, wrap_ne, window, window-same,
  window_head,
}
use djiang_oss_public.Djlc.Deque.{Deque, store_back, store_front, cell_before}

abbrev pub elements : Deque → List ℤ
elements dq = window dq.capacity dq.data_of dq.front dq.size

-- A well-formed deque: indices that agree.
pub record IsDeque (dq : Deque) : Type 0 where
  pub room : 0 < dq.capacity
  pub filled : dq.size ≤ dq.capacity
  pub inside : dq.front < dq.capacity
  pub ends : dq.rear ≡ wrap dq.capacity (dq.front + dq.size)

-- The cells before the first element, and of the last one.
abbrev pub front_cell : Deque → ℕ
front_cell dq = (dq.front + dq.capacity - 1) % dq.capacity

abbrev pub back_cell : Deque → ℕ
back_cell dq = (dq.rear + dq.capacity - 1) % dq.capacity

pub cell_before_lem :
    (capacity i : ℕ)
    → i < capacity
    → capacity ≤ 2 ^ 30
    → cell_before capacity i ≡ some ((i + capacity - 1) % capacity)
cell_before_lem capacity i lt small =
    let room : (capacity == 0) ≡ false = ground arith in
    let fits : ltb (i + capacity - 1) (2 ^ 31) ≡ true = ground arith in rw (room, fits) refl

plus_one : (n : ℕ) → n + 1 ≡ suc n
plus_one n = omega arith

wrap_before : (cap i : ℕ) → 0 < cap → i < cap → wrap cap (wrap cap (i + cap - 1) + 1) ≡ i
unfolding wrap
wrap_before cap i pos lt = ground arith

module _ (dq : Deque) (v : IsDeque dq) where
  pub index_before :
      (i : ℕ)
      → i < dq.capacity
      → (i + dq.capacity - 1) % dq.capacity ≡ wrap dq.capacity (i + dq.capacity - 1)
  index_before i lt = wrap-mod dq.capacity (i + dq.capacity - 1) (omega (arith, v.room))

  pub rear_lt : dq.rear < dq.capacity
  rear_lt =
      subst (λ i. i < dq.capacity) (sym v.ends)
        (wrap_lt dq.capacity (dq.front + dq.size) (omega (arith, v.filled, v.inside)))

  pub store_back_lem :
      (val : ℤ)
      → dq.size < dq.capacity
      → (dq' : Deque) × (store_back val dq ≡ some dq')
        × IsDeque dq'
        × (elements dq' ≡ elements dq ++ val ∷ [])
  unfolding store_back
  store_back_lem val lt =
      let stored = update dq.data_of dq.rear val in
      (
        record dq { data_of = stored; rear = (dq.rear + 1) % dq.capacity; size = dq.size + 1 },
        ground (arith, rear_lt),
        record {
          room = v.room;
          filled = omega arith;
          inside = v.inside;
          ends =
              wrap-mod dq.capacity (dq.rear + 1) (omega (arith, rear_lt, v.room))
              ∙ ap (λ i. wrap dq.capacity (i + 1)) v.ends
              ∙ wrap_add dq.capacity dq.front dq.size v.inside lt
              ∙ ap (λ n. wrap dq.capacity (dq.front + n)) (sym (plus_one dq.size));
        },
        ap (window dq.capacity stored dq.front) (plus_one dq.size) ∙ λ i.
            window-same dq.capacity stored dq.data_of dq.front dq.size
              (λ j lj.
                update-ne dq.data_of dq.rear (wrap dq.capacity (dq.front + j)) val
                  (λ f. wrap_ne dq.capacity dq.front j dq.size v.inside lj lt (sym f ∙ v.ends)))
              i
            ++ (ap stored (sym v.ends) ∙ update_self dq.data_of dq.rear val) i ∷ [],
      )

  new_front : front_cell dq ≡ wrap dq.capacity (dq.front + dq.capacity - 1)
  new_front = index_before dq.front v.inside

  new_lt : front_cell dq < dq.capacity
  new_lt =
      subst (λ i. i < dq.capacity) (sym new_front)
        (wrap_lt dq.capacity (dq.front + dq.capacity - 1) (omega (arith, v.inside, v.room)))

  new_step : wrap dq.capacity (front_cell dq + 1) ≡ dq.front
  new_step =
      ap (λ i. wrap dq.capacity (i + 1)) new_front
      ∙ wrap_before dq.capacity dq.front v.room v.inside

  pub store_front_lem :
      (val : ℤ)
      → dq.size < dq.capacity
      → dq.capacity ≤ 2 ^ 30
      → (dq' : Deque) × (store_front val dq ≡ some dq')
        × IsDeque dq'
        × (elements dq' ≡ val ∷ elements dq)
  unfolding store_front
  store_front_lem val lt small =
      let stored = update dq.data_of (front_cell dq) val in
      let around : (j : ℕ)
          → j < dq.capacity
          → wrap dq.capacity (dq.front + j) ≡ wrap dq.capacity (front_cell dq + suc j) =
        λ j lj.
          ap (λ h. wrap dq.capacity (h + j)) (sym new_step)
          ∙ wrap-suc dq.capacity (front_cell dq) j new_lt lj in
      let start : wrap dq.capacity (front_cell dq + 0) ≡ front_cell dq =
        ap (wrap dq.capacity) (omega arith) ∙ wrap_small dq.capacity (front_cell dq) new_lt in
      (
        record dq { front = front_cell dq; data_of = stored; size = dq.size + 1 },
        rw (cell_before_lem dq.capacity dq.front v.inside small) refl,
        record {
          room = v.room;
          filled = omega arith;
          inside = new_lt;
          ends =
              v.ends
              ∙ around dq.size lt
              ∙ ap (λ n. wrap dq.capacity (front_cell dq + n)) (sym (plus_one dq.size));
        },
        ap (window dq.capacity stored (front_cell dq)) (plus_one dq.size)
            ∙ window_head dq.capacity stored (front_cell dq) dq.size new_lt lt
            ∙ ap (λ h. stored (front_cell dq) ∷ window dq.capacity stored h dq.size) new_step
            ∙ λ i.
                update_self dq.data_of (front_cell dq) val i
                ∷ window-same dq.capacity stored dq.data_of dq.front dq.size
                    (λ j lj.
                      update-ne dq.data_of (front_cell dq) (wrap dq.capacity (dq.front + j)) val
                        (λ f.
                          wrap_ne dq.capacity (front_cell dq) 0 (suc j) new_lt (omega arith)
                            (omega arith) (start ∙ f ∙ around j (omega arith))))
                    i,
      )
