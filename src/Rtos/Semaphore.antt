-- ===== src/Rtos/Semaphore.antt =====
-- daniertos/v3-smp/src/kernel/semaphore.c. A wait that blocks is two steps: what runs up to
-- `task_yield`, and what the task does when it is scheduled again. Interrupts are off within each,
-- so nothing else on the core comes between; the counts are int32_t and stay in range, since one is
-- taken off a positive count only and added below the maximum only.
pub mod Laws
pub mod Bounds
use djiang_oss_public.Prelude.{ℕ, Bool, true, false, Option, none, some, ◌==◌, if◌then◌else◌, ◌>>=◌}
use djiang_oss_public.Prelude.Int.{ℤ, pos, ltb_ℤ, ◌+ℤ◌, ◌-ℤ◌}
use djiang_oss_public.Rtos.Types.{Kernel, get_cpu, no_wait}
use djiang_oss_public.Rtos.Lock.{critical_enter, critical_exit}
use djiang_oss_public.Rtos.Sched.{sched_request_switch}
use djiang_oss_public.Rtos.WaitQueue.{waitqueue_pop}
use djiang_oss_public.Rtos.Waiting.{Outcome, returned, blocked, block_on, resume_on, wake_signaled}

pub record Semaphore : Type 0 where
  pub count : ℤ
  pub max_count : ℤ
  pub wait_queue : Option ℕ

unfoldable pub sem_init : ℤ → Semaphore
sem_init initial_count = record { count = initial_count; max_count = pos 1; wait_queue = none }

unfoldable pub sem_init_counting : ℤ → ℤ → Semaphore
sem_init_counting max_count initial_count = record {
  count = initial_count;
  max_count = max_count;
  wait_queue = none;
}

-- The part of `sem_wait` that blocks, within the critical section entered from `state`.
unfoldable pub sem_block : ℕ → ℕ → Bool → Semaphore → Kernel → Option (Outcome × Semaphore × Kernel)
sem_block obj timeout state s k = do
  current ← (get_cpu k).current_task
  (queue, k') ← block_on obj timeout s.wait_queue current k
  some (blocked, record s { wait_queue = queue }, sched_request_switch (critical_exit state k'))

-- Up to `task_yield`; `obj` is the address of the semaphore.
unfoldable pub sem_wait : ℕ → ℕ → Semaphore → Kernel → Option (Outcome × Semaphore × Kernel)
sem_wait obj timeout s k =
    let (state, k1) = critical_enter k in
    if ltb_ℤ (pos 0) s.count
    then some (returned true, record s { count = s.count -ℤ pos 1 }, critical_exit state k1)
    else if timeout == no_wait
    then some (returned false, s, critical_exit state k1)
    else sem_block obj timeout state s k1

-- The rest of `sem_wait`, when `current` runs again.
unfoldable pub sem_wait_resume : ℕ → ℕ → Semaphore → Kernel → Option (Bool × Semaphore × Kernel)
sem_wait_resume timeout current s k =
    let (state, k1) = critical_enter k in
    resume_on timeout s.wait_queue current k1 >>= λ (acquired, queue, k2).
    some (acquired, record s { wait_queue = queue }, critical_exit state k2)

unfoldable pub sem_try_wait : ℕ → Semaphore → Kernel → Option (Outcome × Semaphore × Kernel)
sem_try_wait obj s k = sem_wait obj no_wait s k

-- What `sem_signal` does with what it has popped.
unfoldable pub sem_give :
    Bool → Semaphore → Option ℕ × Option ℕ × Kernel → Option (Semaphore × Kernel)
sem_give state s (some t, queue, k) = do
  k' ← wake_signaled t k
  some (record s { wait_queue = queue }, critical_exit state k')
sem_give state s (none, queue, k) =
    let s' = record s { wait_queue = queue } in
    some (
      (if ltb_ℤ s.count s.max_count then record s' { count = s.count +ℤ pos 1 } else s'),
      critical_exit state k,
    )

unfoldable pub sem_signal : Semaphore → Kernel → Option (Semaphore × Kernel)
sem_signal s k =
    let (state, k1) = critical_enter k in sem_give state s (waitqueue_pop s.wait_queue k1)

unfoldable pub sem_get_count : Semaphore → ℤ
sem_get_count s = s.count
