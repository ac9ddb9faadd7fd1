-- ===== src/Djlc/Heap.antt =====
-- djlc/include/heap.h: a binary heap of `int`s in an array, with the greatest or the least on top.
-- The array is a function of the index. A write outside it and an overflow are undefined: `none`,
-- and so is a loop that has no fuel left.
pub mod Order
pub mod Up
pub mod Down
pub mod Laws
use djiang_oss_public.Prelude.{
  ℕ, zero, suc, ◌+◌, ◌-◌, ◌*◌, ◌/◌, ◌^◌, Bool, true, false, ◌&&◌, Option, none, some, ltb, leb,
  ◌==◌, if◌then◌else◌, update, ◌>>=◌,
}
use djiang_oss_public.Prelude.Int.{ℤ, ltb_ℤ}

-- `djlc_heap_int_t`
pub record IntHeap : Type 0 where
  pub data_of : ℕ → ℤ
  pub size : ℕ
  pub capacity : ℕ
  pub is_max : Bool

-- Whether `malloc` succeeds, and what the memory holds, are arguments. The array's pointer is not
-- represented, which is NULL after a failure and after `djlc_heap_int_free`.
unfoldable pub heap_init : Bool → (ℕ → ℤ) → ℕ → Bool → IntHeap → Bool × IntHeap
heap_init allocated memory capacity is_max h =
    if allocated
    then (true, record { data_of = memory; size = 0; capacity = capacity; is_max = is_max })
    else (false, h)

unfoldable pub heap_free : IntHeap → IntHeap
heap_free h = record h { size = 0; capacity = 0 }

unfoldable pub heap_empty : IntHeap → Bool
heap_empty h = h.size == 0

unfoldable pub heap_size : IntHeap → ℕ
heap_size h = h.size

-- Whether `a` should be above `b`.
unfoldable pub heap_cmp : Bool → ℤ → ℤ → Bool
heap_cmp is_max a b = if is_max then ltb_ℤ b a else ltb_ℤ a b

-- `(i - 1) / 2`
abbrev pub parent : ℕ → ℕ
parent i = (i - 1) / 2

-- `while (i > 0)` of the push: the array and the index where it stops.
unfoldable pub bubble_up : ℕ → Bool → ℤ → (ℕ → ℤ) → ℕ → Option ((ℕ → ℤ) × ℕ)
bubble_up zero is_max val d i = none
bubble_up (suc fuel) is_max val d i =
    let rest = bubble_up fuel is_max val (update d i (d (parent i))) (parent i) in
    if i == 0 then some (d, i) else if heap_cmp is_max val (d (parent i)) then rest else some (d, i)

-- The array in twice the memory, if it can be had.
unfoldable pub heap_grow : Bool → (ℕ → ℤ) → IntHeap → Option (Bool × IntHeap)
heap_grow allocated memory h =
    let new_cap = h.capacity * 2 in
    let grown : IntHeap = record h {
      data_of = λ i. if ltb i h.capacity then h.data_of i else memory i;
      capacity = new_cap;
    } in
    if leb (2 ^ 31) new_cap then none else some (if allocated then (true, grown) else (false, h))

unfoldable pub heap_store : ℤ → IntHeap → Option (Bool × IntHeap)
heap_store val h =
    let placed : Option (Bool × IntHeap) = do
      (d, i) ← bubble_up (h.size + 1) h.is_max val h.data_of h.size
      some (true, record h { data_of = update d i val; size = h.size + 1 })
    in if ltb h.size h.capacity then placed else none

unfoldable pub heap_push : Bool → (ℕ → ℤ) → IntHeap → ℤ → Option (Bool × IntHeap)
heap_push allocated memory h val =
    let grown : Option (Bool × IntHeap) = do
      (ok, h') ← heap_grow allocated memory h
      if ok then heap_store val h' else some (false, h')
    in if leb h.capacity h.size then grown else heap_store val h

-- The child of `i` that should be above the other, where there is one.
unfoldable pub best_child : Bool → (ℕ → ℤ) → ℕ → ℕ → ℕ
best_child is_max d n i =
    let c = 2 * i + 1 in if ltb (c + 1) n && heap_cmp is_max (d (c + 1)) (d c) then c + 1 else c

-- `while (2 * i + 1 < h->size)`: the array and the index where it stops; `2 * i + 1` is an `int`.
unfoldable pub bubble_down : ℕ → Bool → ℕ → ℤ → (ℕ → ℤ) → ℕ → Option ((ℕ → ℤ) × ℕ)
bubble_down zero is_max n last d i = none
bubble_down (suc fuel) is_max n last d i =
    let c = best_child is_max d n i in
    let rest = bubble_down fuel is_max n last (update d i (d c)) c in
    if leb (2 ^ 31) (2 * i + 1)
    then none
    else if ltb (2 * i + 1) n
    then (if heap_cmp is_max (d c) last then rest else some (d, i))
    else some (d, i)

-- The loop, with `last` then stored where it stops.
unfoldable pub settle : Bool → ℕ → ℤ → (ℕ → ℤ) → ℕ → Option (ℕ → ℤ)
settle is_max n last d i =
    bubble_down (n - i + 1) is_max n last d i >>= λ (d', i'). some (update d' i' last)

-- The value, where there is one, and the heap.
unfoldable pub heap_pop : IntHeap → Option (Option ℤ × IntHeap)
heap_pop h =
    let n = h.size - 1 in
    let settled : Option (Option ℤ × IntHeap) = do
      d ← settle h.is_max n (h.data_of n) h.data_of 0
      some (some (h.data_of 0), record h { data_of = d; size = n })
    in if h.size == 0
      then some (none, h)
      else if n == 0
      then some (some (h.data_of 0), record h { size = n })
      else settled

unfoldable pub heap_peek : IntHeap → Option ℤ
heap_peek h = if h.size == 0 then none else some (h.data_of 0)

-- The rounds for the indices below `i`, the last first.
unfoldable pub heapify_loop : ℕ → Bool → ℕ → (ℕ → ℤ) → Option (ℕ → ℤ)
heapify_loop zero is_max n d = some d
heapify_loop (suc i) is_max n d = settle is_max n (d i) d i >>= λ d'. heapify_loop i is_max n d'

unfoldable pub heap_heapify : IntHeap → Option IntHeap
heap_heapify h =
    heapify_loop (h.size / 2) h.is_max h.size h.data_of >>= λ d. some (record h { data_of = d })
