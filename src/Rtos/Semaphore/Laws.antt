-- ===== src/Rtos/Semaphore/Laws.antt =====
-- Waiting on a semaphore and signalling it.
use djiang_oss_public.Prelude.{
  ℕ, ◌<◌, ◌≡◌, ◌≢◌, refl, ap, ◌∙◌, true, false, Option, some, List, [], ◌∷◌, arith, NotIn,
  update_self, if◌then◌else◌, >>=-some,
}
use djiang_oss_public.Prelude.Int.{pos, ltb_ℤ, ◌+ℤ◌, ◌-ℤ◌, ◌≤ℤ◌}
use djiang_oss_public.Rtos.Types.{Kernel, Cpu, get_cpu, max_tasks, no_wait}
use djiang_oss_public.Rtos.Lock.{restore, critical_enter, critical_exit}
use djiang_oss_public.Rtos.Ready.View.{Queues, Absent, Holds, Holds-same}
use djiang_oss_public.Rtos.Sched.{sched_request_switch}
use djiang_oss_public.Rtos.WaitQueue.Laws.{Waits, Waits-same, waitqueue_pop_nil}
use djiang_oss_public.Rtos.Delay.Sleepers.{Sleeps, Sleeps-same}
use djiang_oss_public.Rtos.Waiting.{returned, blocked, deadline}
use djiang_oss_public.Rtos.Waiting.Block.{Parked, Parked-same, parked, block_on_lem}
use djiang_oss_public.Rtos.Waiting.Signal.{Granted, grant_lem}
use djiang_oss_public.Rtos.Semaphore.{
  Semaphore, sem_block, sem_wait, sem_try_wait, sem_give, sem_signal,
}

-- The count stays between 0 and the maximum.
pub record InBounds (s : Semaphore) : Type 0 where
  pub nonneg : pos 0 ≤ℤ s.count
  pub bounded : s.count ≤ℤ s.max_count

-- Trying never blocks and leaves the kernel as it was: a positive count is taken from, and at any
-- other the call fails.
sem_try_wait_lem :
    (obj : ℕ) (s : Semaphore) (k : Kernel)
    → (k' : Kernel) × (sem_try_wait obj s k
        ≡ some (
          returned (ltb_ℤ (pos 0) s.count),
          (if ltb_ℤ (pos 0) s.count then record s { count = s.count -ℤ pos 1 } else s),
          k',
        ))
      × (k' ≡ k)
unfolding sem_try_wait sem_wait critical_enter critical_exit
sem_try_wait_lem obj s k =
    (critical_exit k.mie (record k { mie = false }), ground arith, ground arith)

sem_wait_slow :
    (obj timeout : ℕ) (s : Semaphore) (k : Kernel)
    → s.count ≤ℤ pos 0
    → timeout ≢ no_wait
    → sem_wait obj timeout s k ≡ sem_block obj timeout k.mie s (record k { mie = false })
unfolding sem_wait critical_enter
sem_wait_slow obj timeout s k le ne = ground arith

-- A wait with a timeout on a semaphore whose count is not positive, by a running task of the pool
-- that is in no list, with both locks free: the call blocks, the count stays, the task is blocked
-- on the semaphore, stands among the waiters behind all of at least its priority and, unless it
-- waits for ever, in its place in the delay list; the ready queues and all other TCBs are as
-- before, a switch is asked for, and the interrupt bit is as before.
pub sem_wait_blocks :
    (obj timeout c : ℕ) (s : Semaphore) (k : Kernel) (q : Queues) (ws ds : List ℕ)
    → s.count ≤ℤ pos 0
    → timeout ≢ no_wait
    → (get_cpu k).current_task ≡ some c
    → Holds k q
    → Waits k q s.wait_queue ws
    → Sleeps k ds
    → c < max_tasks
    → Absent c q
    → NotIn c ws
    → NotIn c ds
    → k.sched_lock ≡ false
    → k.delay_lock ≡ false
    → (queue' : Option ℕ) × (k' : Kernel) × (sem_wait obj timeout s k
        ≡ some (blocked, record s { wait_queue = queue' }, k'))
      × Parked obj timeout (deadline timeout k) c k.tcb q ws ds queue' k'
      × ((get_cpu k').need_reschedule ≡ 1)
      × (k'.mie ≡ k.mie)
unfolding sem_block critical_exit sched_request_switch
sem_wait_blocks obj timeout c s k q ws ds le ne cur h v sl lt out nw nd free dfree =
    let k1 = record k { mie = false } in
    let (queue', n, l, e, p) =
      block_on_lem obj timeout c s.wait_queue k1 q ws ds (Holds-same h refl refl refl)
        (Waits-same v refl) (Sleeps-same sl refl refl) lt out nw nd free dfree in
    let k2 = parked obj timeout c n l k1 in
    (
      queue',
      sched_request_switch (critical_exit k.mie k2),
      sem_wait_slow obj timeout s k le ne ∙ >>=-some _ cur (>>=-some _ e refl),
      Parked-same p refl refl refl refl refl,
      ap (λ (x : Cpu). x.need_reschedule) (update_self k.cpus k.hart _),
      restore k.mie,
    )

-- A signal with nobody waiting adds one to a count below the maximum, changes nothing else, and
-- leaves the kernel as it was.
sem_signal_counts :
    (s : Semaphore) (k : Kernel) (q : Queues)
    → Holds k q
    → Waits k q s.wait_queue []
    → (k' : Kernel) × (sem_signal s k
        ≡ some
            ((if ltb_ℤ s.count s.max_count then record s { count = s.count +ℤ pos 1 } else s), k'))
      × (k' ≡ k)
unfolding sem_signal sem_give critical_enter critical_exit
sem_signal_counts s k q h v =
    let k1 = record k { mie = false } in
    (
      record k { mie = if k.mie then true else false },
      ap (sem_give k.mie s) (
          waitqueue_pop_nil k1 q s.wait_queue [] (Holds-same h refl refl refl) (Waits-same v refl)
            refl),
      (λ i. record k { mie = restore k.mie i }),
    )

-- A signal with a first waiter, and the scheduler's lock free: the count stays, the waiter is ready
-- at the end of the queue of its priority with the reason `signaled`, the others wait on in order,
-- no other TCB changes, a switch is asked for, and the interrupt bit is as before.
pub sem_signal_wakes :
    (s : Semaphore) (k : Kernel) (q : Queues) (t : ℕ) (rest : List ℕ)
    → Holds k q
    → Waits k q s.wait_queue (t ∷ rest)
    → k.sched_lock ≡ false
    → (queue' : Option ℕ) × (k' : Kernel) × (sem_signal s k
        ≡ some (record s { wait_queue = queue' }, k'))
      × Granted k.mie k.tcb q (k.tcb t).priority t rest queue' k'
unfolding sem_signal sem_give critical_enter critical_exit
sem_signal_wakes s k q t rest h v free =
    let (queue', k2, k3, e, r, g) =
      grant_lem k.mie s.wait_queue (record k { mie = false }) q t rest (Holds-same h refl refl refl)
        (Waits-same v refl) free refl in
    (queue', critical_exit k.mie k3, ap (sem_give k.mie s) e ∙ >>=-some _ r refl, g)
