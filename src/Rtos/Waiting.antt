-- ===== src/Rtos/Waiting.antt =====
-- The steps that `sem_wait`, `mutex_lock`, `queue_send` and `queue_receive` of
-- daniertos/v3-smp/src/kernel share, word for word: going to sleep on a wait queue, with a timeout,
-- and finding out, when the task runs again, why it was woken.
pub mod Block
pub mod Signal
pub mod Timeout
use djiang_oss_public.Prelude.{
  ℕ, ◌+◌, ◌%◌, ◌^◌, Bool, true, false, Option, some, ◌==◌, if◌then◌else◌, ◌>>=◌,
}
use djiang_oss_public.Rtos.Types.{Kernel, Tcb, WakeReason, wait_forever}
use djiang_oss_public.Rtos.Sched.{sched_request_switch}
use djiang_oss_public.Rtos.Block.{set_tcb, task_make_ready, task_block}
use djiang_oss_public.Rtos.WaitQueue.{waitqueue_add, waitqueue_remove}
use djiang_oss_public.Rtos.Delay.{delay_add, delay_remove, tick_get}

-- What a call that may block does: it returns, or it yields.
pub data Outcome : Type 0 where
  returned : Bool → Outcome
  blocked : Outcome

abbrev pub is_signaled : WakeReason → Bool
is_signaled WakeReason.signaled = true
is_signaled _ = false

-- The tick at which a timeout that starts now runs out.
abbrev pub deadline : ℕ → Kernel → ℕ
deadline timeout k = (k.tick_count + timeout) % 2 ^ 64

-- The timeout of a blocked task, unless it waits for ever.
unfoldable pub arm_timeout : ℕ → ℕ → Kernel → Option Kernel
unfolding tick_get
arm_timeout timeout t k =
    if timeout == wait_forever then some k else delay_add t ((tick_get k + timeout) % 2 ^ 64) k

-- The end of a timeout that has not run out.
unfoldable pub disarm_timeout : ℕ → ℕ → Kernel → Option Kernel
disarm_timeout timeout t k = if timeout == wait_forever then some k else delay_remove t k

-- Going to sleep on the object at the address `obj`.
unfoldable pub block_on : ℕ → ℕ → Option ℕ → ℕ → Kernel → Option (Option ℕ × Kernel)
block_on obj timeout queue current k = do
  (queue', k1) ← waitqueue_add queue current k
  k2 ← task_block current obj k1
  k3 ← arm_timeout timeout current k2
  some (queue', k3)

-- Back again: true if the task was signaled, false if its time ran out.
unfoldable pub resume_on : ℕ → Option ℕ → ℕ → Kernel → Option (Bool × Option ℕ × Kernel)
resume_on timeout queue current k =
    if is_signaled (k.tcb current).wake_reason
    then (do k1 ← disarm_timeout timeout current k; some (true, queue, k1))
    else (do (queue', k1) ← waitqueue_remove queue current k; some (false, queue', k1))

abbrev pub signaled : Tcb → Tcb
signaled b = record b { wake_reason = WakeReason.signaled }

-- Waking the task that gets what has come free.
unfoldable pub wake_signaled : ℕ → Kernel → Option Kernel
wake_signaled t k = do
  k' ← task_make_ready t (set_tcb t (signaled (k.tcb t)) k)
  some (sched_request_switch k')
