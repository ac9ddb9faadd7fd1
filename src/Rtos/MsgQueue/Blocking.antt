-- ===== src/Rtos/MsgQueue/Blocking.antt =====
-- A full queue and an empty one: refusing without a wait, and going to sleep.
use djiang_oss_public.Prelude.{
  ℕ, ◌<◌, ◌≤◌, ◌≡◌, ◌≢◌, refl, ap, ◌∙◌, false, Option, none, some, List, arith, NotIn, >>=-some,
  update_self,
}
use djiang_oss_public.Rtos.Types.{Kernel, Cpu, get_cpu, max_tasks, no_wait}
use djiang_oss_public.Rtos.Lock.{restore, critical_enter, critical_exit}
use djiang_oss_public.Rtos.Ready.View.{Queues, Absent, Holds, Holds-same}
use djiang_oss_public.Rtos.Sched.{sched_request_switch}
use djiang_oss_public.Rtos.WaitQueue.Laws.{Waits, Waits-same}
use djiang_oss_public.Rtos.Delay.Sleepers.{Sleeps, Sleeps-same}
use djiang_oss_public.Rtos.Waiting.{returned, blocked, deadline}
use djiang_oss_public.Rtos.Waiting.Block.{Parked, Parked-same, parked, block_on_lem}
use djiang_oss_public.Rtos.MsgQueue.{
  MsgQueue, send_block, queue_send, queue_send_front, receive_block, queue_receive,
}

module _ (obj : ℕ) (item : List ℕ) (q : MsgQueue) (k : Kernel) (full : q.capacity ≤ q.count) where
  send_slow :
      (timeout : ℕ)
      → timeout ≢ no_wait
      → queue_send obj item timeout q k ≡ send_block obj timeout k.mie q (record k { mie = false })
  unfolding queue_send critical_enter
  send_slow timeout ne = ground arith

  -- Sending to a full queue without waiting, at the back or at the front, fails and changes neither
  -- the queue nor the kernel.
  pub queue_send_refused :
      (k' : Kernel) × (queue_send obj item no_wait q k ≡ some (returned false, q, k'))
      × (queue_send_front obj item no_wait q k ≡ some (returned false, q, k'))
      × (k' ≡ k)
  unfolding queue_send queue_send_front critical_enter critical_exit
  queue_send_refused = (
    critical_exit k.mie (record k { mie = false }),
    ground arith,
    ground arith,
    λ i. record k { mie = restore k.mie i },
  )

module _ (obj timeout c : ℕ) (k : Kernel) (rq : Queues) (ws ds : List ℕ) (ne : timeout ≢ no_wait)
    (cur : (get_cpu k).current_task ≡ some c) (h : Holds k rq) (sl : Sleeps k ds)
    (lt : c < max_tasks) (out : Absent c rq) (nw : NotIn c ws) (nd : NotIn c ds)
    (free : k.sched_lock ≡ false) (dfree : k.delay_lock ≡ false) where
  -- Sending with a timeout to a full queue, by a running task of the pool that is in no list, with
  -- both locks free: the call blocks, the items stay, the task sleeps among the senders in the
  -- order of priorities and, unless it waits for ever, in the delay list, no other TCB changes, a
  -- switch is asked for, and the interrupt bit is as before.
  pub queue_send_blocks :
      (item : List ℕ) (q : MsgQueue)
      → q.capacity ≤ q.count
      → Waits k rq q.send_wait ws
      → (queue' : Option ℕ) × (k' : Kernel) × (queue_send obj item timeout q k
          ≡ some (blocked, record q { send_wait = queue' }, k'))
        × Parked obj timeout (deadline timeout k) c k.tcb rq ws ds queue' k'
        × ((get_cpu k').need_reschedule ≡ 1)
        × (k'.mie ≡ k.mie)
  unfolding send_block critical_exit sched_request_switch
  queue_send_blocks item q full v =
      let k1 = record k { mie = false } in
      let (queue', n, l, e, p) =
        block_on_lem obj timeout c q.send_wait k1 rq ws ds (Holds-same h refl refl refl)
          (Waits-same v refl) (Sleeps-same sl refl refl) lt out nw nd free dfree in
      (
        queue',
        sched_request_switch (critical_exit k.mie (parked obj timeout c n l k1)),
        send_slow obj item q k full timeout ne ∙ >>=-some _ cur (>>=-some _ e refl),
        Parked-same p refl refl refl refl refl,
        ap (λ (x : Cpu). x.need_reschedule) (update_self k.cpus k.hart _),
        restore k.mie,
      )

  receive_slow :
      (q : MsgQueue)
      → q.count ≡ 0
      → queue_receive obj timeout q k ≡ receive_block obj timeout k.mie q (record k { mie = false })
  unfolding queue_receive critical_enter
  receive_slow q e = ground arith

  -- Receiving with a timeout from an empty queue, by a running task of the pool that is in no list,
  -- with both locks free: the call blocks, the task sleeps among the receivers in the order of
  -- priorities and, unless it waits for ever, in the delay list, a switch is asked for, and the
  -- interrupt bit is as before.
  queue_receive_blocks :
      (q : MsgQueue)
      → q.count ≡ 0
      → Waits k rq q.recv_wait ws
      → (queue' : Option ℕ) × (k' : Kernel) × (queue_receive obj timeout q k
          ≡ some (blocked, none, record q { recv_wait = queue' }, k'))
        × Parked obj timeout (deadline timeout k) c k.tcb rq ws ds queue' k'
        × ((get_cpu k').need_reschedule ≡ 1)
        × (k'.mie ≡ k.mie)
  unfolding receive_block critical_exit sched_request_switch
  queue_receive_blocks q empty v =
      let k1 = record k { mie = false } in
      let (queue', n, l, e, p) =
        block_on_lem obj timeout c q.recv_wait k1 rq ws ds (Holds-same h refl refl refl)
          (Waits-same v refl) (Sleeps-same sl refl refl) lt out nw nd free dfree in
      (
        queue',
        sched_request_switch (critical_exit k.mie (parked obj timeout c n l k1)),
        receive_slow q empty ∙ >>=-some _ cur (>>=-some _ e refl),
        Parked-same p refl refl refl refl refl,
        ap (λ (x : Cpu). x.need_reschedule) (update_self k.cpus k.hart _),
        restore k.mie,
      )
