-- ===== src/Rtos/MsgQueue/Laws.antt =====
-- What sending and receiving do, to the items and to the tasks that wait.
use djiang_oss_public.Prelude.{
  ℕ, ◌<◌, ◌≡◌, refl, ap, ◌∙◌, Bool, true, false, Option, some, List, [], ◌∷◌, ◌++◌, arith, length,
  ◌>>=◌, >>=-some,
}
use djiang_oss_public.Rtos.Types.{Kernel}
use djiang_oss_public.Rtos.Lock.{restore, critical_enter, critical_exit}
use djiang_oss_public.Rtos.Ready.View.{Queues, Holds, Holds-same}
use djiang_oss_public.Rtos.WaitQueue.{waitqueue_pop}
use djiang_oss_public.Rtos.WaitQueue.Laws.{Waits, Waits-same, waitqueue_pop_nil}
use djiang_oss_public.Rtos.Waiting.{returned}
use djiang_oss_public.Rtos.Waiting.Signal.{Granted, grant_lem}
use djiang_oss_public.Rtos.MsgQueue.{
  MsgQueue, put_back, put_front, drop_front, front_item, wake_popped, wake_receiver, wake_sender,
  queue_send, queue_send_front, queue_receive,
}
use djiang_oss_public.Rtos.MsgQueue.Items.{
  IsQueue, items, put_back_lem, put_front_lem, drop_front_lem,
}

module _ (state : Bool) (queue : Option ℕ) (k : Kernel) (q : Queues) (h : Holds k q) where
  nobody : Waits k q queue [] → wake_popped (waitqueue_pop queue k) ≡ some (queue, k)
  unfolding wake_popped
  nobody v = ap wake_popped (waitqueue_pop_nil k q queue [] h v refl)

  somebody :
      (t : ℕ) (rest : List ℕ)
      → Waits k q queue (t ∷ rest)
      → k.sched_lock ≡ false
      → k.mie ≡ false
      → (queue' : Option ℕ) × (k3 : Kernel) × (wake_popped (waitqueue_pop queue k)
          ≡ some (queue', k3))
        × Granted state k.tcb q (k.tcb t).priority t rest queue' (critical_exit state k3)
  unfolding wake_popped
  somebody t rest v free off =
      let (queue', k2, k3, e, r, g) = grant_lem state queue k q t rest h v free off in
      (queue', k3, ap wake_popped e ∙ >>=-some _ r refl, g)

-- Interrupts off, as inside the critical section of an operation.
abbrev masked : Kernel → Kernel
masked k = record k { mie = false }

module _ (q : MsgQueue) (k : Kernel) (rq : Queues) (h : Holds k rq) where
  masked-Holds : Holds (masked k) rq
  masked-Holds = Holds-same h refl refl refl

  received_nil :
      Waits k rq q.recv_wait []
      → (k' : Kernel) × (wake_receiver k.mie q (masked k) ≡ some (returned true, q, k')) × (k' ≡ k)
  unfolding wake_receiver critical_exit
  received_nil w = (
    critical_exit k.mie (masked k),
    >>=-some _ (nobody k.mie q.recv_wait (masked k) rq masked-Holds (Waits-same w refl)) refl,
    λ i. record k { mie = restore k.mie i },
  )

  received_cons :
      (t : ℕ) (rest : List ℕ)
      → Waits k rq q.recv_wait (t ∷ rest)
      → k.sched_lock ≡ false
      → (queue' : Option ℕ) × (k' : Kernel) × (wake_receiver k.mie q (masked k)
          ≡ some (returned true, record q { recv_wait = queue' }, k'))
        × Granted k.mie k.tcb rq (k.tcb t).priority t rest queue' k'
  unfolding wake_receiver
  received_cons t rest w free =
      let (queue', k3, e, g) =
        somebody k.mie q.recv_wait (masked k) rq masked-Holds t rest (Waits-same w refl) free
          refl in
      (queue', critical_exit k.mie k3, >>=-some _ e refl, g)

  sent_nil :
      Waits k rq q.send_wait []
      → (k' : Kernel) × (wake_sender k.mie q (masked k) ≡ some (q, k')) × (k' ≡ k)
  unfolding wake_sender critical_exit
  sent_nil w = (
    critical_exit k.mie (masked k),
    >>=-some _ (nobody k.mie q.send_wait (masked k) rq masked-Holds (Waits-same w refl)) refl,
    λ i. record k { mie = restore k.mie i },
  )

  sent_cons :
      (t : ℕ) (rest : List ℕ)
      → Waits k rq q.send_wait (t ∷ rest)
      → k.sched_lock ≡ false
      → (queue' : Option ℕ) × (k' : Kernel) × (wake_sender k.mie q (masked k)
          ≡ some (record q { send_wait = queue' }, k'))
        × Granted k.mie k.tcb rq (k.tcb t).priority t rest queue' k'
  unfolding wake_sender
  sent_cons t rest w free =
      let (queue', k3, e, g) =
        somebody k.mie q.send_wait (masked k) rq masked-Holds t rest (Waits-same w refl) free
          refl in
      (queue', critical_exit k.mie k3, >>=-some _ e refl, g)

IsQueue-waiters :
    {q : MsgQueue} (s r : Option ℕ)
    → IsQueue q
    → IsQueue (record q { send_wait = s; recv_wait = r })
IsQueue-waiters s r v = record {
  room = v.room;
  small = v.small;
  fits = v.fits;
  filled = v.filled;
  inside = v.inside;
  ends = v.ends;
}

module _ (obj : ℕ) (item : List ℕ) (timeout : ℕ) (q : MsgQueue) (k : Kernel) where
  send_room :
      q.count < q.capacity
      → queue_send obj item timeout q k ≡ wake_receiver k.mie (put_back item q) (masked k)
  unfolding queue_send critical_enter
  send_room lt = ground arith

  send_front_room :
      q.count < q.capacity
      → queue_send_front obj item timeout q k ≡ wake_receiver k.mie (put_front item q) (masked k)
  unfolding queue_send_front critical_enter
  send_front_room lt = ground arith

  module _ (rq : Queues) (v : IsQueue q) (h : Holds k rq) (lt : q.count < q.capacity)
      (len : length item ≡ q.item_size) where
    -- Sending an item of the right size to a well-formed queue with room, with no receiver waiting:
    -- the call succeeds, the item is appended to the items, the queue stays well-formed, and the
    -- kernel is as before.
    pub queue_send_stores :
        Waits k rq q.recv_wait []
        → (q' : MsgQueue) × (k' : Kernel) × (queue_send obj item timeout q k
            ≡ some (returned true, q', k'))
          × IsQueue q'
          × (items q' ≡ items q ++ item ∷ [])
          × (k' ≡ k)
    unfolding put_back
    queue_send_stores w =
        let (v', e') = put_back_lem q v item lt len in
        let (k', e, same) = received_nil (put_back item q) k rq h w in
        (put_back item q, k', send_room lt ∙ e, v', e', same)

    -- Sending an item of the right size to a well-formed queue with room, with a first receiver
    -- waiting and the scheduler's lock free: the call succeeds, the item is appended to the items,
    -- the queue stays well-formed, and the receiver is woken with the reason `signaled`, the others
    -- waiting on.
    pub queue_send_wakes :
        (t : ℕ) (rest : List ℕ)
        → Waits k rq q.recv_wait (t ∷ rest)
        → k.sched_lock ≡ false
        → (q' : MsgQueue) × (k' : Kernel) × (queue_send obj item timeout q k
            ≡ some (returned true, q', k'))
          × IsQueue q'
          × (items q' ≡ items q ++ item ∷ [])
          × Granted k.mie k.tcb rq (k.tcb t).priority t rest q'.recv_wait k'
    unfolding put_back
    queue_send_wakes t rest w free =
        let (v', e') = put_back_lem q v item lt len in
        let (queue', k', e, g) = received_cons (put_back item q) k rq h t rest w free in
        (
          record (put_back item q) { recv_wait = queue' },
          k',
          send_room lt ∙ e,
          IsQueue-waiters q.send_wait queue' v',
          e',
          g,
        )

    -- Sending an item of the right size to the front of a well-formed queue with room, with no
    -- receiver waiting: the call succeeds, the item is put before the items, the queue stays
    -- well-formed, and the kernel is as before.
    queue_send_front_stores :
        Waits k rq q.recv_wait []
        → (q' : MsgQueue) × (k' : Kernel) × (queue_send_front obj item timeout q k
            ≡ some (returned true, q', k'))
          × IsQueue q'
          × (items q' ≡ item ∷ items q)
          × (k' ≡ k)
    unfolding put_front
    queue_send_front_stores w =
        let (v', e') = put_front_lem q v item lt len in
        let (k', e, same) = received_nil (put_front item q) k rq h w in
        (put_front item q, k', send_front_room lt ∙ e, v', e', same)

    pub queue_send_front_wakes :
        (t : ℕ) (rest : List ℕ)
        → Waits k rq q.recv_wait (t ∷ rest)
        → k.sched_lock ≡ false
        → (q' : MsgQueue) × (k' : Kernel) × (queue_send_front obj item timeout q k
            ≡ some (returned true, q', k'))
          × IsQueue q'
          × (items q' ≡ item ∷ items q)
          × Granted k.mie k.tcb rq (k.tcb t).priority t rest q'.recv_wait k'
    unfolding put_front
    queue_send_front_wakes t rest w free =
        let (v', e') = put_front_lem q v item lt len in
        let (queue', k', e, g) = received_cons (put_front item q) k rq h t rest w free in
        (
          record (put_front item q) { recv_wait = queue' },
          k',
          send_front_room lt ∙ e,
          IsQueue-waiters q.send_wait queue' v',
          e',
          g,
        )

module _ (obj timeout : ℕ) (q : MsgQueue) (k : Kernel) where
  receive_some :
      0 < q.count
      → queue_receive obj timeout q k ≡ (
          wake_sender k.mie (drop_front q) (masked k) >>= λ (q', k2).
          some (returned true, some (front_item q), q', k2))
  unfolding queue_receive critical_enter
  receive_some pos = ground arith

  module _ (rq : Queues) (v : IsQueue q) (h : Holds k rq) (pos : 0 < q.count) where
    -- Receiving from a well-formed queue that holds an item, with no sender waiting: the call
    -- succeeds with the first item, the items are the others, the queue stays well-formed, and the
    -- kernel is as before.
    pub queue_receive_takes :
        Waits k rq q.send_wait []
        → (item : List ℕ) × (q' : MsgQueue) × (k' : Kernel) × (queue_receive obj timeout q k
            ≡ some (returned true, some item, q', k'))
          × IsQueue q'
          × (items q ≡ item ∷ items q')
          × (k' ≡ k)
    unfolding drop_front
    queue_receive_takes w =
        let (v', e') = drop_front_lem q v pos in
        let (k', e, same) = sent_nil (drop_front q) k rq h w in
        (front_item q, drop_front q, k', receive_some pos ∙ >>=-some _ e refl, v', e', same)

    -- Receiving from a well-formed queue that holds an item, with a first sender waiting and the
    -- scheduler's lock free: the call succeeds with the first item, the items are the others, the
    -- queue stays well-formed, and the sender is woken with the reason `signaled`, the others
    -- waiting on.
    pub queue_receive_wakes :
        (t : ℕ) (rest : List ℕ)
        → Waits k rq q.send_wait (t ∷ rest)
        → k.sched_lock ≡ false
        → (item : List ℕ) × (q' : MsgQueue) × (k' : Kernel) × (queue_receive obj timeout q k
            ≡ some (returned true, some item, q', k'))
          × IsQueue q'
          × (items q ≡ item ∷ items q')
          × Granted k.mie k.tcb rq (k.tcb t).priority t rest q'.send_wait k'
    unfolding drop_front
    queue_receive_wakes t rest w free =
        let (v', e') = drop_front_lem q v pos in
        let (queue', k', e, g) = sent_cons (drop_front q) k rq h t rest w free in
        (
          front_item q,
          record (drop_front q) { send_wait = queue' },
          k',
          receive_some pos ∙ >>=-some _ e refl,
          IsQueue-waiters queue' q.recv_wait v',
          e',
          g,
        )
