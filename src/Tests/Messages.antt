-- ===== src/Tests/Messages.antt =====
-- Message queues of the sample kernel.
use djiang_oss_public.Prelude.{
  ℕ, ◌+◌, ◌%◌, ◌≡◌, refl, true, Option, none, some, List, [], ◌∷◌, ◌++◌, arith,
}
use djiang_oss_public.Rtos.Types.{Kernel, get_cpu, wait_forever}
use djiang_oss_public.Rtos.Waiting.{returned, blocked, deadline}
use djiang_oss_public.Rtos.Waiting.Block.{Parked}
use djiang_oss_public.Rtos.Waiting.Signal.{Granted}
use djiang_oss_public.Rings.{wrap}
use djiang_oss_public.Rtos.MsgQueue.{MsgQueue, queue_send, queue_receive}
use djiang_oss_public.Rtos.MsgQueue.Items.{IsQueue, items}
use djiang_oss_public.Rtos.MsgQueue.Laws.{
  queue_send_stores, queue_send_wakes, queue_receive_takes, queue_receive_wakes,
}
use djiang_oss_public.Rtos.MsgQueue.Blocking.{queue_send_blocks}
use djiang_oss_public.Tests.Sample.{
  kernel, queues, kernel-Holds, kernel-Waits, nobody-Waits, kernel-Sleeps, absent,
}

-- Two-byte items in a buffer for three, with `n` of them from the last slot on.
abbrev ring : ℕ → Option ℕ → Option ℕ → MsgQueue
ring n s r = record {
  buffer = λ i. i;
  item_size = 2;
  capacity = 3;
  count = n;
  head = 2;
  tail = (2 + n) % 3;
  send_wait = s;
  recv_wait = r;
}

two-IsQueue : (s r : Option ℕ) → IsQueue (ring 2 s r)
unfolding wrap
two-IsQueue s r = record {
  room = omega arith;
  small = omega arith;
  fits = omega arith;
  filled = omega arith;
  inside = omega arith;
  ends = refl;
}

queue_send_stores_example :
    (q' : MsgQueue) × (k' : Kernel) × (queue_send 0x80060000
        (7 ∷ 8 ∷ [])
        0
        (ring 2 none none)
        kernel
      ≡ some (returned true, q', k'))
    × IsQueue q'
    × (items q' ≡ (4 ∷ 5 ∷ []) ∷ (0 ∷ 1 ∷ []) ∷ (7 ∷ 8 ∷ []) ∷ [])
    × (k' ≡ kernel)
unfolding wrap
queue_send_stores_example =
    queue_send_stores 0x80060000 (7 ∷ 8 ∷ []) 0 (ring 2 none none) kernel queues
      (two-IsQueue none none) kernel-Holds (omega arith) refl nobody-Waits

queue_send_wakes_example :
    (q' : MsgQueue) × (k' : Kernel) × (queue_send 0x80060000
        (7 ∷ 8 ∷ [])
        0
        (ring 2 none (some 4))
        kernel
      ≡ some (returned true, q', k'))
    × IsQueue q'
    × (items q' ≡ items (ring 2 none (some 4)) ++ (7 ∷ 8 ∷ []) ∷ [])
    × Granted true kernel.tcb queues 3 4 (6 ∷ []) q'.recv_wait k'
queue_send_wakes_example =
    queue_send_wakes 0x80060000 (7 ∷ 8 ∷ []) 0 (ring 2 none (some 4)) kernel queues
      (two-IsQueue none (some 4)) kernel-Holds (omega arith) refl 4 (6 ∷ []) kernel-Waits refl

queue_receive_takes_example :
    (item : List ℕ) × (q' : MsgQueue) × (k' : Kernel) × (queue_receive 0x80060000 0
        (ring 2 none none)
        kernel
      ≡ some (returned true, some item, q', k'))
    × IsQueue q'
    × (items (ring 2 none none) ≡ item ∷ items q')
    × (k' ≡ kernel)
queue_receive_takes_example =
    queue_receive_takes 0x80060000 0 (ring 2 none none) kernel queues (two-IsQueue none none)
      kernel-Holds (omega arith) nobody-Waits

queue_receive_wakes_example :
    (item : List ℕ) × (q' : MsgQueue) × (k' : Kernel) × (queue_receive 0x80060000 0
        (ring 2 (some 4) none)
        kernel
      ≡ some (returned true, some item, q', k'))
    × IsQueue q'
    × (items (ring 2 (some 4) none) ≡ item ∷ items q')
    × Granted true kernel.tcb queues 3 4 (6 ∷ []) q'.send_wait k'
queue_receive_wakes_example =
    queue_receive_wakes 0x80060000 0 (ring 2 (some 4) none) kernel queues
      (two-IsQueue (some 4) none) kernel-Holds (omega arith) 4 (6 ∷ []) kernel-Waits refl

queue_send_blocks_example :
    (queue' : Option ℕ) × (k' : Kernel) × (queue_send 0x80060000
        (7 ∷ 8 ∷ [])
        wait_forever
        (ring 3 (some 4) none)
        kernel
      ≡ some (blocked, record (ring 3 (some 4) none) { send_wait = queue' }, k'))
    × Parked 0x80060000 wait_forever
        (deadline wait_forever kernel)
        1
        kernel.tcb
        queues
        (4 ∷ 6 ∷ [])
        (4 ∷ 5 ∷ [])
        queue'
        k'
    × ((get_cpu k').need_reschedule ≡ 1)
    × (k'.mie ≡ true)
queue_send_blocks_example =
    queue_send_blocks 0x80060000 wait_forever 1 kernel queues (4 ∷ 6 ∷ []) (4 ∷ 5 ∷ [])
      (λ e. omega arith) refl kernel-Holds kernel-Sleeps (omega arith)
      (absent 1 (λ e. omega arith) (λ e. omega arith))
      ((λ e. omega arith), ((λ e. omega arith), tt)) ((λ e. omega arith), ((λ e. omega arith), tt))
      refl refl (7 ∷ 8 ∷ []) (ring 3 (some 4) none) (omega arith) kernel-Waits
