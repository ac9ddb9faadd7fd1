-- ===== src/Rtos/MsgQueue.antt =====
-- daniertos/v3-smp/src/kernel/queue.c: message queues. The buffer is the bytes from the address in
-- `buffer` on, an item a list of bytes. Sizes are of 64 bits. A call that blocks is two steps, as
-- for semaphores.
pub mod Bytes
pub mod Blocking
pub mod Items
pub mod Laws
use djiang_oss_public.Prelude.{
  ℕ, zero, suc, ◌+◌, ◌-◌, ◌*◌, ◌%◌, ◌^◌, Bool, true, false, Option, none, some, List, [], ◌∷◌, ltb,
  leb, ◌==◌, if◌then◌else◌, ◌>>=◌, update,
}
use djiang_oss_public.Rtos.Types.{Kernel, WakeReason, get_cpu, no_wait, walk_fuel}
use djiang_oss_public.Rtos.Lock.{critical_enter, critical_exit}
use djiang_oss_public.Rtos.Sched.{sched_request_switch}
use djiang_oss_public.Rtos.Block.{set_tcb, task_make_ready}
use djiang_oss_public.Rtos.WaitQueue.{waitqueue_pop}
use djiang_oss_public.Rtos.Waiting.{Outcome, returned, blocked, block_on, resume_on, wake_signaled}

-- `struct queue`
pub record MsgQueue : Type 0 where
  pub buffer : ℕ → ℕ
  pub item_size : ℕ
  pub capacity : ℕ
  pub count : ℕ
  pub head : ℕ
  pub tail : ℕ
  pub send_wait : Option ℕ
  pub recv_wait : Option ℕ

-- `memcpy` into the bytes `b` from the offset `off` on, and out of them.
abbrev pub memcpy_in : ℕ → List ℕ → (ℕ → ℕ) → ℕ → ℕ
memcpy_in off [] b = b
memcpy_in off (x ∷ xs) b = memcpy_in (suc off) xs (update b off x)

abbrev pub memcpy_out : ℕ → ℕ → (ℕ → ℕ) → List ℕ
memcpy_out off zero b = []
memcpy_out off (suc n) b = b off ∷ memcpy_out (suc off) n b

-- The offset of the slot `i` in a buffer.
abbrev pub offset : ℕ → ℕ → ℕ
offset size i = (i * size) % 2 ^ 64

unfoldable pub queue_init : (ℕ → ℕ) → ℕ → ℕ → MsgQueue
queue_init buffer item_size capacity = record {
  buffer = buffer;
  item_size = item_size;
  capacity = capacity;
  count = 0;
  head = 0;
  tail = 0;
  send_wait = none;
  recv_wait = none;
}

-- Storing at the tail, storing in front of the head, and taking at the head.
unfoldable pub put_back : List ℕ → MsgQueue → MsgQueue
put_back item q = record q {
  buffer = memcpy_in (offset q.item_size q.tail) item q.buffer;
  tail = ((q.tail + 1) % 2 ^ 64) % q.capacity;
  count = (q.count + 1) % 2 ^ 64;
}

unfoldable pub front_of : MsgQueue → ℕ
front_of q = if q.head == 0 then q.capacity - 1 else q.head - 1

unfoldable pub put_front : List ℕ → MsgQueue → MsgQueue
put_front item q = record q {
  head = front_of q;
  buffer = memcpy_in (offset q.item_size (front_of q)) item q.buffer;
  count = (q.count + 1) % 2 ^ 64;
}

unfoldable pub front_item : MsgQueue → List ℕ
front_item q = memcpy_out (offset q.item_size q.head) q.item_size q.buffer

unfoldable pub drop_front : MsgQueue → MsgQueue
drop_front q = record q { head = ((q.head + 1) % 2 ^ 64) % q.capacity; count = q.count - 1 }

-- Waking the task that has been popped, if one has.
unfoldable pub wake_popped : Option ℕ × Option ℕ × Kernel → Option (Option ℕ × Kernel)
wake_popped (some t, queue, k) = do k' ← wake_signaled t k; some (queue, k')
wake_popped (none, queue, k) = some (queue, k)

-- The end of an operation that has stored an item, and of one that has taken one.
unfoldable pub wake_receiver : Bool → MsgQueue → Kernel → Option (Outcome × MsgQueue × Kernel)
wake_receiver state q k = do
  (queue, k') ← wake_popped (waitqueue_pop q.recv_wait k)
  some (returned true, record q { recv_wait = queue }, critical_exit state k')

unfoldable pub wake_sender : Bool → MsgQueue → Kernel → Option (MsgQueue × Kernel)
wake_sender state q k = do
  (queue, k') ← wake_popped (waitqueue_pop q.send_wait k)
  some (record q { send_wait = queue }, critical_exit state k')

unfoldable pub send_block : ℕ → ℕ → Bool → MsgQueue → Kernel → Option (Outcome × MsgQueue × Kernel)
send_block obj timeout state q k = do
  current ← (get_cpu k).current_task
  (queue, k1) ← block_on obj timeout q.send_wait current k
  some (blocked, record q { send_wait = queue }, sched_request_switch (critical_exit state k1))

-- Up to `task_yield`; `obj` is the address of the queue.
unfoldable pub queue_send :
    ℕ → List ℕ → ℕ → MsgQueue → Kernel → Option (Outcome × MsgQueue × Kernel)
queue_send obj item timeout q k =
    let (state, k1) = critical_enter k in
    if ltb q.count q.capacity
    then wake_receiver state (put_back item q) k1
    else if timeout == no_wait
    then some (returned false, q, critical_exit state k1)
    else send_block obj timeout state q k1

-- From there on, for the task `current`.
unfoldable pub queue_send_resume :
    ℕ → List ℕ → ℕ → ℕ → MsgQueue → Kernel → Option (Outcome × MsgQueue × Kernel)
queue_send_resume obj item timeout current q k = do
  let (state, k1) = critical_enter k
  (sent, queue, k2) ← resume_on timeout q.send_wait current k1
  let q' = record q { send_wait = queue }
  let k3 = critical_exit state k2
  if sent then queue_send obj item no_wait q' k3 else some (returned false, q', k3)

unfoldable pub queue_send_front :
    ℕ → List ℕ → ℕ → MsgQueue → Kernel → Option (Outcome × MsgQueue × Kernel)
queue_send_front obj item timeout q k =
    let (state, k1) = critical_enter k in
    if ltb q.count q.capacity
    then wake_receiver state (put_front item q) k1
    else (let k2 = critical_exit state k1 in
        if timeout == no_wait
        then some (returned false, q, k2)
        else queue_send obj item timeout q k2)

unfoldable pub receive_block :
    ℕ → ℕ → Bool → MsgQueue → Kernel → Option (Outcome × Option (List ℕ) × MsgQueue × Kernel)
receive_block obj timeout state q k = do
  current ← (get_cpu k).current_task
  (queue, k1) ← block_on obj timeout q.recv_wait current k
  some
      (blocked, none, record q { recv_wait = queue }, sched_request_switch (critical_exit state k1))

-- The item is what has been copied to the caller.
unfoldable pub queue_receive :
    ℕ → ℕ → MsgQueue → Kernel → Option (Outcome × Option (List ℕ) × MsgQueue × Kernel)
queue_receive obj timeout q k =
    let (state, k1) = critical_enter k in
    if ltb 0 q.count
    then (do
      (q', k2) ← wake_sender state (drop_front q) k1
      some (returned true, some (front_item q), q', k2))
    else if timeout == no_wait
    then some (returned false, none, q, critical_exit state k1)
    else receive_block obj timeout state q k1

unfoldable pub queue_receive_resume :
    ℕ → ℕ → ℕ → MsgQueue → Kernel → Option (Outcome × Option (List ℕ) × MsgQueue × Kernel)
queue_receive_resume obj timeout current q k = do
  let (state, k1) = critical_enter k
  (received, queue, k2) ← resume_on timeout q.recv_wait current k1
  let q' = record q { recv_wait = queue }
  let k3 = critical_exit state k2
  if received then queue_receive obj no_wait q' k3 else some (returned false, none, q', k3)

unfoldable pub queue_peek : MsgQueue → Kernel → Bool × Option (List ℕ) × Kernel
queue_peek q k =
    let (state, k1) = critical_enter k in
    if q.count == 0
    then (false, none, critical_exit state k1)
    else (true, some (front_item q), critical_exit state k1)

unfoldable pub queue_count : MsgQueue → ℕ
queue_count q = q.count

-- A `size_t`: below zero it wraps.
unfoldable pub queue_space : MsgQueue → ℕ
queue_space q = (2 ^ 64 + q.capacity - q.count) % 2 ^ 64

unfoldable pub queue_is_empty : MsgQueue → Bool
queue_is_empty q = q.count == 0

unfoldable pub queue_is_full : MsgQueue → Bool
queue_is_full q = leb q.capacity q.count

-- The loops of `queue_reset`: every waiter is woken, with the reason "timeout".
abbrev pub reset_loop : ℕ → Option ℕ × Option ℕ × Kernel → Option (Option ℕ × Kernel)
reset_loop fuel (none, queue, k) = some (queue, k)
reset_loop zero (some t, queue, k) = none
reset_loop (suc fuel) (some t, queue, k) =
    task_make_ready t (set_tcb t (record (k.tcb t) { wake_reason = WakeReason.timeout }) k)
    >>= λ k'. reset_loop fuel (waitqueue_pop queue k')

unfoldable pub queue_reset : MsgQueue → Kernel → Option (MsgQueue × Kernel)
queue_reset q k = do
  let (state, k1) = critical_enter k
  (senders, k2) ← reset_loop walk_fuel (waitqueue_pop q.send_wait k1)
  (receivers, k3) ← reset_loop walk_fuel (waitqueue_pop q.recv_wait k2)
  some (
    record q { count = 0; head = 0; tail = 0; send_wait = senders; recv_wait = receivers },
    critical_exit state k3,
  )
