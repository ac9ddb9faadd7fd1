-- ===== src/Rtos/MsgQueue/Items.antt =====
-- A message queue as the list of its items.
use djiang_oss_public.Prelude.{
  ℕ, suc, ◌+◌, ◌-◌, ◌*◌, ◌%◌, ◌^◌, ◌<◌, ◌≤◌, ◌≡◌, ◌≢◌, refl, sym, ap, subst, ◌∙◌, List, [], ◌∷◌,
  ◌++◌, arith, length,
}
use native.Mathlib.Nat.{mod-eq_of_lt}
use djiang_oss_public.Rings.{
  wrap, wrap-mod, wrap_lt, wrap_small, wrap-suc, wrap_add, wrap_ne, window, window-same,
  window_head,
}
use djiang_oss_public.Rtos.MsgQueue.{
  MsgQueue, memcpy_in, memcpy_out, offset, queue_init, put_back, put_front, front_of, front_item,
  drop_front,
}
use djiang_oss_public.Rtos.MsgQueue.Bytes.{memcpy_out-in, slot-ne}

-- The bytes of a slot.
abbrev pub slot : ℕ → (ℕ → ℕ) → ℕ → List ℕ
slot size b i = memcpy_out (offset size i) size b

-- The items, in the order in which they are received.
abbrev pub items : MsgQueue → List (List ℕ)
items q = window q.capacity (slot q.item_size q.buffer) q.head q.count

-- A well-formed queue: a buffer that fits into memory, and indices that agree.
pub record IsQueue (q : MsgQueue) : Type 0 where
  pub room : 0 < q.capacity
  pub small : q.capacity < 2 ^ 64
  pub fits : q.capacity * q.item_size < 2 ^ 64
  pub filled : q.count ≤ q.capacity
  pub inside : q.head < q.capacity
  pub ends : q.tail ≡ wrap q.capacity (q.head + q.count)

-- A fresh queue is well-formed and empty.
queue_init-IsQueue :
    (buffer : ℕ → ℕ) (size capacity : ℕ)
    → 0 < capacity
    → capacity < 2 ^ 64
    → capacity * size < 2 ^ 64
    → IsQueue (queue_init buffer size capacity) × (items (queue_init buffer size capacity) ≡ [])
unfolding queue_init
queue_init-IsQueue buffer size capacity pos small fits = (
  record {
    room = pos;
    small = small;
    fits = fits;
    filled = omega arith;
    inside = pos;
    ends = sym (wrap_small capacity 0 pos);
  },
  refl,
)

-- One step around the buffer.
step :
    (q : MsgQueue)
    → IsQueue q
    → (i : ℕ) → i < q.capacity
    → ((i + 1) % 2 ^ 64) % q.capacity ≡ wrap q.capacity (i + 1)
step q v i lt =
    ap (λ j. j % q.capacity) (mod-eq_of_lt (omega (arith, v.small)))
    ∙ wrap-mod q.capacity (i + 1) (omega (arith, v.room))

module _ (q : MsgQueue) (v : IsQueue q) where
  counted : q.count < q.capacity → (q.count + 1) % 2 ^ 64 ≡ suc q.count
  counted lt = mod-eq_of_lt (omega (arith, v.small)) ∙ omega arith

  tail_lt : q.tail < q.capacity
  tail_lt =
      subst (λ i. i < q.capacity) (sym v.ends)
        (wrap_lt q.capacity (q.head + q.count) (omega (arith, v.filled, v.inside)))

  -- Storing at the tail appends the item.
  pub put_back_lem :
      (item : List ℕ)
      → q.count < q.capacity
      → length item ≡ q.item_size
      → IsQueue (put_back item q) × (items (put_back item q) ≡ items q ++ item ∷ [])
  unfolding put_back
  put_back_lem item lt len = (
    record {
      room = v.room;
      small = v.small;
      fits = v.fits;
      filled = omega (arith, counted lt);
      inside = v.inside;
      ends =
          ap (λ i. ((i + 1) % 2 ^ 64) % q.capacity) v.ends
          ∙ step q v (wrap q.capacity (q.head + q.count))
              (wrap_lt q.capacity (q.head + q.count) (omega (arith, v.inside)))
          ∙ wrap_add q.capacity q.head q.count v.inside lt
          ∙ ap (λ n. wrap q.capacity (q.head + n)) (sym (counted lt));
    },
    ap (window q.capacity stored q.head) (counted lt) ∙ λ i.
        window-same q.capacity stored (slot q.item_size q.buffer) q.head q.count others i
        ++ written i ∷ [],
  )
    where
      stored : ℕ → List ℕ
      stored = slot q.item_size (memcpy_in (offset q.item_size q.tail) item q.buffer)

      written : stored (wrap q.capacity (q.head + q.count)) ≡ item
      written =
          ap stored (sym v.ends)
          ∙ ap
              (λ n.
                memcpy_out (offset q.item_size q.tail) n
                  (memcpy_in (offset q.item_size q.tail) item q.buffer))
              (sym len)
          ∙ memcpy_out-in (offset q.item_size q.tail) item q.buffer

      others :
          (i : ℕ)
          → i < q.count
          → stored (wrap q.capacity (q.head + i))
            ≡ slot q.item_size q.buffer (wrap q.capacity (q.head + i))
      others i lt' =
          slot-ne q.item_size q.capacity v.fits q.tail (wrap q.capacity (q.head + i)) item q.buffer
            tail_lt (wrap_lt q.capacity (q.head + i) (omega (arith, v.inside)))
            (λ e. wrap_ne q.capacity q.head i q.count v.inside lt' lt (sym e ∙ v.ends)) len

  -- Taking at the head removes the first item.
  pub drop_front_lem :
      0 < q.count → IsQueue (drop_front q) × (items q ≡ front_item q ∷ items (drop_front q))
  unfolding drop_front front_item
  drop_front_lem pos = (
    record {
      room = v.room;
      small = v.small;
      fits = v.fits;
      filled = omega (arith, v.filled);
      inside =
          subst (λ i. i < q.capacity) (sym head_step)
            (wrap_lt q.capacity (q.head + 1) (omega (arith, v.inside)));
      ends =
          v.ends
          ∙ ap (λ n. wrap q.capacity (q.head + n)) less
          ∙ sym (wrap-suc q.capacity q.head (q.count - 1) v.inside (omega (arith, v.filled)))
          ∙ ap (λ i. wrap q.capacity (i + (q.count - 1))) (sym head_step);
    },
    ap (window q.capacity (slot q.item_size q.buffer) q.head) less
        ∙ window_head q.capacity (slot q.item_size q.buffer) q.head (q.count - 1) v.inside
            (omega (arith, v.filled))
        ∙ ap
            (λ i.
              slot q.item_size q.buffer q.head
              ∷ window q.capacity (slot q.item_size q.buffer) i (q.count - 1))
            (sym head_step),
  )
    where
      less : q.count ≡ suc (q.count - 1)
      less = omega arith

      head_step : ((q.head + 1) % 2 ^ 64) % q.capacity ≡ wrap q.capacity (q.head + 1)
      head_step = step q v q.head v.inside

  front_lt : front_of q < q.capacity
  unfolding front_of
  front_lt = ground (arith, v.room, v.inside)

  front_step : wrap q.capacity (front_of q + 1) ≡ q.head
  unfolding front_of wrap
  front_step = ground (arith, v.room, v.inside)

  front_ends :
      q.count < q.capacity
      → wrap q.capacity (q.head + q.count) ≡ wrap q.capacity (front_of q + suc q.count)
  front_ends lt =
      ap (λ h. wrap q.capacity (h + q.count)) (sym front_step)
      ∙ wrap-suc q.capacity (front_of q) q.count front_lt lt

  -- Storing in front of the head puts the item first.
  pub put_front_lem :
      (item : List ℕ)
      → q.count < q.capacity
      → length item ≡ q.item_size
      → IsQueue (put_front item q) × (items (put_front item q) ≡ item ∷ items q)
  unfolding put_front
  put_front_lem item lt len = (
    record {
      room = v.room;
      small = v.small;
      fits = v.fits;
      filled = omega (arith, counted lt);
      inside = front_lt;
      ends = v.ends ∙ front_ends lt ∙ ap (λ n. wrap q.capacity (front_of q + n)) (sym (counted lt));
    },
    ap (window q.capacity stored (front_of q)) (counted lt)
        ∙ window_head q.capacity stored (front_of q) q.count front_lt lt
        ∙ ap (λ h. stored (front_of q) ∷ window q.capacity stored h q.count) front_step
        ∙ λ i.
            written i
            ∷ window-same q.capacity stored (slot q.item_size q.buffer) q.head q.count others i,
  )
    where
      stored : ℕ → List ℕ
      stored = slot q.item_size (memcpy_in (offset q.item_size (front_of q)) item q.buffer)

      written : stored (front_of q) ≡ item
      written =
          ap
            (λ n.
              memcpy_out (offset q.item_size (front_of q)) n
                (memcpy_in (offset q.item_size (front_of q)) item q.buffer))
            (sym len)
          ∙ memcpy_out-in (offset q.item_size (front_of q)) item q.buffer

      apart : (i : ℕ) → i < q.count → front_of q ≢ wrap q.capacity (q.head + i)
      apart i lt' e =
          wrap_ne q.capacity (front_of q) 0 (suc i) front_lt (omega arith) (omega arith) (
            wrap_small q.capacity (front_of q + 0) (omega (arith, front_lt))
            ∙ omega arith
            ∙ e
            ∙ ap (λ h. wrap q.capacity (h + i)) (sym front_step)
            ∙ wrap-suc q.capacity (front_of q) i front_lt (omega arith))

      others :
          (i : ℕ)
          → i < q.count
          → stored (wrap q.capacity (q.head + i))
            ≡ slot q.item_size q.buffer (wrap q.capacity (q.head + i))
      others i lt' =
          slot-ne q.item_size q.capacity v.fits (front_of q) (wrap q.capacity (q.head + i)) item
            q.buffer front_lt (wrap_lt q.capacity (q.head + i) (omega (arith, v.inside)))
            (apart i lt') len
