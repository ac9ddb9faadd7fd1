-- ===== src/Djlc/Cbuf.antt =====
-- djlc/include/circular_buffer.h: a buffer that overwrites its oldest element, and the moving
-- average built on it. Whether an allocation succeeds is an argument.
pub mod Items
pub mod Average
use djiang_oss_public.Prelude.{
  ℕ, ◌+◌, ◌-◌, ◌%◌, ◌^◌, Bool, true, false, Option, none, some, ◌==◌, if◌then◌else◌, update, ltb,
}
use djiang_oss_public.Prelude.Int.{ℤ, pos, negsuc, ◌+ℤ◌, ◌-ℤ◌}

-- `djlc_cbuf_int_t`
pub record Cbuf : Type 0 where
  pub data_of : ℕ → ℤ
  pub capacity : ℕ
  pub count : ℕ
  pub head : ℕ
  pub tail : ℕ

-- `calloc` clears the cells; without memory the struct keeps what it held.
unfoldable pub cbuf_init : Bool → ℕ → Cbuf → Bool × Cbuf
cbuf_init allocated capacity cb =
    if allocated
    then (true, record { data_of = λ i. pos 0; capacity = capacity; count = 0; head = 0; tail = 0 })
    else (false, cb)

unfoldable pub cbuf_free : Cbuf → Cbuf
cbuf_free cb = record cb { capacity = 0; count = 0; head = 0; tail = 0 }

unfoldable pub cbuf_clear : Cbuf → Cbuf
cbuf_clear cb = record cb { count = 0; head = 0; tail = 0 }

unfoldable pub cbuf_empty : Cbuf → Bool
cbuf_empty cb = cb.count == 0

unfoldable pub cbuf_full : Cbuf → Bool
cbuf_full cb = cb.count == cb.capacity

unfoldable pub cbuf_size : Cbuf → ℕ
cbuf_size cb = cb.count

-- The two ways of storing a value, and the removal of the oldest.
unfoldable pub overwrite : ℤ → Cbuf → Cbuf
overwrite val cb = record cb {
  head = (cb.head + 1) % cb.capacity;
  data_of = update cb.data_of cb.tail val;
  tail = (cb.tail + 1) % cb.capacity;
}

unfoldable pub append_value : ℤ → Cbuf → Cbuf
append_value val cb = record cb {
  count = cb.count + 1;
  data_of = update cb.data_of cb.tail val;
  tail = (cb.tail + 1) % cb.capacity;
}

unfoldable pub drop_value : Cbuf → Cbuf
drop_value cb = record cb { head = (cb.head + 1) % cb.capacity; count = cb.count - 1 }

-- The result is the value overwritten, or 0.
unfoldable pub cbuf_push : ℤ → Cbuf → ℤ × Cbuf
cbuf_push val cb =
    if cb.count == cb.capacity
    then (cb.data_of cb.head, overwrite val cb)
    else (pos 0, append_value val cb)

unfoldable pub cbuf_pop : Cbuf → Option ℤ × Cbuf
cbuf_pop cb = if cb.count == 0 then (none, cb) else (some (cb.data_of cb.head), drop_value cb)

unfoldable pub cbuf_peek : Cbuf → Option ℤ
cbuf_peek cb = if cb.count == 0 then none else some (cb.data_of cb.head)

-- No check of the index.
unfoldable pub cbuf_get : ℕ → Cbuf → ℤ
cbuf_get idx cb = cb.data_of ((cb.head + idx) % cb.capacity)

-- `djlc_moving_avg_t`
pub record MovingAvg : Type 0 where
  pub buf : Cbuf
  pub sum : ℤ

unfoldable pub moving_avg_init : Bool → ℕ → MovingAvg → Bool × MovingAvg
moving_avg_init allocated window_size ma =
    let (ok, buf) = cbuf_init allocated window_size ma.buf in
    (ok, record { buf = buf; sum = pos 0 })

unfoldable pub moving_avg_free : MovingAvg → MovingAvg
moving_avg_free ma = record { buf = cbuf_free ma.buf; sum = pos 0 }

unfoldable pub moving_avg_clear : MovingAvg → MovingAvg
moving_avg_clear ma = record { buf = cbuf_clear ma.buf; sum = pos 0 }

-- The value is one of an `int`.
abbrev pub is_int : ℤ → Bool
is_int (pos n) = ltb n (2 ^ 31)
is_int (negsuc n) = ltb n (2 ^ 31)

-- `val - old_val` is computed as an `int`, and is undefined when it does not fit: `none`. The
-- average returned is the quotient of the sum and the count, both part of the state.
unfoldable pub moving_avg_next : ℤ → MovingAvg → Option MovingAvg
moving_avg_next val ma =
    let (old, buf) = cbuf_push val ma.buf in
    let d = val -ℤ old in if is_int d then some (record { buf = buf; sum = ma.sum +ℤ d }) else none

unfoldable pub moving_avg_sum : MovingAvg → ℤ
moving_avg_sum ma = ma.sum

unfoldable pub moving_avg_count : MovingAvg → ℕ
moving_avg_count ma = ma.buf.count
