-- ===== src/Djlc/Deque.antt =====
-- djlc/include/deque.h: a deque on a circular array that doubles when it is full. Whether an
-- allocation succeeds, and what the memory it returns holds, are arguments. An access outside the
-- array and an overflow of an `int` are undefined: `none`.
pub mod Items
pub mod Push
pub mod Pop
use djiang_oss_public.Prelude.{
  ℕ, zero, suc, ◌+◌, ◌-◌, ◌*◌, ◌%◌, ◌^◌, Bool, true, false, Option, none, some, leb, ltb, ◌==◌,
  if◌then◌else◌, update, ◌>>=◌,
}
use djiang_oss_public.Prelude.Int.{ℤ, ltb_ℤ}

-- `djlc_deque_int_t`
pub record Deque : Type 0 where
  pub data_of : ℕ → ℤ
  pub front : ℕ
  pub rear : ℕ
  pub size : ℕ
  pub capacity : ℕ

unfoldable pub deque_init : Bool → (ℕ → ℤ) → ℕ → Deque → Bool × Deque
deque_init allocated memory capacity dq =
    if allocated
    then (true, record { data_of = memory; front = 0; rear = 0; size = 0; capacity = capacity })
    else (false, dq)

unfoldable pub deque_free : Deque → Deque
deque_free dq = record dq { front = 0; rear = 0; size = 0; capacity = 0 }

unfoldable pub deque_clear : Deque → Deque
deque_clear dq = record dq { front = 0; rear = 0; size = 0 }

unfoldable pub deque_empty : Deque → Bool
deque_empty dq = dq.size == 0

unfoldable pub deque_size : Deque → ℕ
deque_size dq = dq.size

-- The loop that copies the first `n` elements to the cells from `shift` on.
abbrev pub copy_cells : ℕ → ℕ → Deque → (ℕ → ℤ) → ℕ → ℤ
copy_cells shift zero dq memory = memory
copy_cells shift (suc n) dq memory =
    update (copy_cells shift n dq memory) (n + shift) (dq.data_of ((dq.front + n) % dq.capacity))

-- The array twice as large, with the elements from the cell `shift` on.
unfoldable pub grow : ℕ → (ℕ → ℤ) → Deque → Deque
grow shift memory dq = record dq {
  data_of = copy_cells shift dq.size dq memory;
  front = shift;
  rear = dq.size + shift;
  capacity = dq.capacity * 2;
}

unfoldable pub store_back : ℤ → Deque → Option Deque
store_back val dq =
    if ltb dq.rear dq.capacity
    then some (record dq {
      data_of = update dq.data_of dq.rear val;
      rear = (dq.rear + 1) % dq.capacity;
      size = dq.size + 1;
    })
    else none

-- `(i - 1 + capacity) % capacity` in `int`s.
abbrev pub cell_before : ℕ → ℕ → Option ℕ
cell_before capacity i =
    if capacity == 0
    then none
    else if ltb (i + capacity - 1) (2 ^ 31)
    then some ((i + capacity - 1) % capacity)
    else none

-- The cell before the first element.
abbrev pub front_of : Deque → Option ℕ
front_of dq = cell_before dq.capacity dq.front

unfoldable pub store_front : ℤ → Deque → Option Deque
store_front val dq = front_of dq >>= λ front.
    some (record dq { front = front; data_of = update dq.data_of front val; size = dq.size + 1 })

-- Pushing: `shift` tells the end, `store` writes there.
abbrev pub push_with : ℕ → (Deque → Option Deque) → Bool → (ℕ → ℤ) → Deque → Option (Bool × Deque)
push_with shift store allocated memory dq =
    if leb dq.capacity dq.size
    then (if ltb (dq.capacity * 2) (2 ^ 31)
        then (if allocated
            then (store (grow shift memory dq) >>= λ dq'. some (true, dq'))
            else some (false, dq))
        else none)
    else store dq >>= λ dq'. some (true, dq')

unfoldable pub deque_push_back : Bool → (ℕ → ℤ) → ℤ → Deque → Option (Bool × Deque)
deque_push_back allocated memory val dq = push_with 0 (store_back val) allocated memory dq

unfoldable pub deque_push_front : Bool → (ℕ → ℤ) → ℤ → Deque → Option (Bool × Deque)
deque_push_front allocated memory val dq = push_with 1 (store_front val) allocated memory dq

-- The cell of the last element.
abbrev pub back_of : Deque → Option ℕ
back_of dq = cell_before dq.capacity dq.rear

-- The last element, in the cell `rear`, goes.
unfoldable pub drop_back : ℕ → Deque → Deque
drop_back rear dq = record dq { rear = rear; size = dq.size - 1 }

unfoldable pub drop_front : Deque → Deque
drop_front dq = record dq { front = (dq.front + 1) % dq.capacity; size = dq.size - 1 }

unfoldable pub deque_pop_back : Deque → Option (Option ℤ × Deque)
deque_pop_back dq =
    let popped = back_of dq >>= λ rear. some (some (dq.data_of rear), drop_back rear dq) in
    if dq.size == 0 then some (none, dq) else popped

unfoldable pub deque_pop_front : Deque → Option ℤ × Deque
deque_pop_front dq =
    if dq.size == 0 then (none, dq) else (some (dq.data_of dq.front), drop_front dq)

unfoldable pub deque_front : Deque → Option ℤ
deque_front dq = if dq.size == 0 then none else some (dq.data_of dq.front)

unfoldable pub deque_back : Deque → Option (Option ℤ)
deque_back dq =
    if dq.size == 0 then some none else back_of dq >>= λ rear. some (some (dq.data_of rear))

-- The loop of `djlc_deque_int_pop_back_while_ge`, on fuel; it ends after `size` rounds at most.
abbrev pub pop_while : ℕ → (ℤ → Bool) → Deque → Option Deque
pop_while zero test dq = some dq
pop_while (suc fuel) test dq =
    let round : Option Deque = do
      rear ← back_of dq
      let rest = pop_while fuel test (drop_back rear dq)
      if test (dq.data_of rear) then rest else some dq
    in if dq.size == 0 then some dq else round

abbrev pub not_below : ℤ → ℤ → Bool
not_below val back = if ltb_ℤ back val then false else true

abbrev pub not_above : ℤ → ℤ → Bool
not_above val back = if ltb_ℤ val back then false else true

unfoldable pub pop_back_while_ge : ℤ → Deque → Option Deque
pop_back_while_ge val dq = pop_while dq.size (not_below val) dq

unfoldable pub pop_back_while_le : ℤ → Deque → Option Deque
pop_back_while_le val dq = pop_while dq.size (not_above val) dq
