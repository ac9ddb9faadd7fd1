-- ===== src/Tests/Containers.antt =====
-- Containers of djlc with a few elements.
use djiang_oss_public.Prelude.{
  Bool, false, Option, none, ◌≡◌, refl, inr, true, some, [], ◌∷◌, ◌++◌, arith, update,
}
use djiang_oss_public.Prelude.Int.{pos, ◌-ℤ◌, ◌+ℤ◌}
use djiang_oss_public.Rings.{wrap}
use djiang_oss_public.Djlc.Cbuf.{Cbuf, MovingAvg, cbuf_full, cbuf_push, moving_avg_next}
use djiang_oss_public.Djlc.Cbuf.Items.{items, IsCbuf, kept, lost, cbuf_push_lem}
use djiang_oss_public.Djlc.Cbuf.Average.{total, moving_avg_next_lem}
use djiang_oss_public.Djlc.Deque.{
  store_front, store_back, drop_front, grow, Deque, deque_push_back, deque_push_front,
  deque_pop_front, pop_back_while_ge, pop_back_while_le, not_below, not_above,
}
use djiang_oss_public.Djlc.Deque.Items.{IsDeque, elements}
use djiang_oss_public.Djlc.Deque.Push.{deque_push_back_lem}
use djiang_oss_public.Djlc.Deque.Pop.{trim, pop_back_while_lem}

-- 30, 10, 20 in three cells, the oldest in the last one.
abbrev buffer : Cbuf
buffer = record {
  data_of = update (update (update (λ i. pos 0) 0 (pos 10)) 1 (pos 20)) 2 (pos 30);
  capacity = 3;
  count = 3;
  head = 2;
  tail = 2;
}

buffer-IsCbuf : IsCbuf buffer
unfolding wrap
buffer-IsCbuf = record {
  room = omega arith;
  filled = omega arith;
  inside = omega arith;
  ends = refl;
}

cbuf_push_example :
    IsCbuf (cbuf_push (pos 40) buffer).1
    × (items (cbuf_push (pos 40) buffer).1 ≡ kept (cbuf_full buffer) (items buffer) ++ pos 40 ∷ [])
    × ((cbuf_push (pos 40) buffer).0 ≡ lost (cbuf_full buffer) (items buffer))
cbuf_push_example = cbuf_push_lem buffer (pos 40) buffer-IsCbuf

abbrev average : MovingAvg
average = record { buf = buffer; sum = pos 60 }

moving_avg_next_example :
    (ma' : MovingAvg) × (moving_avg_next (pos 5) average ≡ some ma')
    × IsCbuf ma'.buf
    × (items ma'.buf ≡ kept (cbuf_full buffer) (items buffer) ++ pos 5 ∷ [])
    × (ma'.sum ≡ total (items ma'.buf))
unfolding wrap cbuf_full ◌-ℤ◌ ◌+ℤ◌
moving_avg_next_example = moving_avg_next_lem average (pos 5) buffer-IsCbuf refl refl

-- 30, 10, 20 in three cells.
abbrev deque : Deque
deque = record { data_of = buffer.data_of; front = 2; rear = 2; size = 3; capacity = 3 }

deque-IsDeque : IsDeque deque
unfolding wrap
deque-IsDeque = record {
  room = omega arith;
  filled = omega arith;
  inside = omega arith;
  ends = refl;
}

deque_push_back_example :
    (dq' : Deque) × (deque_push_back true (λ i. pos 9) (pos 40) deque ≡ some (true, dq'))
    × IsDeque dq'
    × (elements dq' ≡ elements deque ++ pos 40 ∷ [])
deque_push_back_example =
    deque_push_back_lem true (λ i. pos 9) (pos 40) deque deque-IsDeque
      (inr (refl, omega arith, omega arith))

pop_back_while_example :
    (ge : Deque) × (le : Deque) × (pop_back_while_ge (pos 15) deque ≡ some ge)
    × IsDeque ge
    × (elements ge ≡ trim (not_below (pos 15)) (elements deque))
    × (pop_back_while_le (pos 15) deque ≡ some le)
    × IsDeque le
    × (elements le ≡ trim (not_above (pos 15)) (elements deque))
pop_back_while_example = pop_back_while_lem deque (pos 15) deque-IsDeque (omega arith)

-- A full deque of one cell that grows at the front: after a pop there, a push at the back is outside
-- the array.
abbrev one : Deque
one = record { data_of = λ i. pos 1; front = 0; rear = 0; size = 1; capacity = 1 }

abbrev then_back : Option (Bool × Deque) → Option (Bool × Deque)
then_back none = some (false, one)
then_back (some (ok, dq)) = deque_push_back true (λ i. pos 9) (pos 3) (deque_pop_front dq).1

overruns : then_back (deque_push_front true (λ i. pos 9) (pos 2) one) ≡ none
unfolding deque_push_front deque_push_back store_front store_back deque_pop_front drop_front grow
overruns = refl
