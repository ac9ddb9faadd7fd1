-- ===== src/Rtos/Mutex.antt =====
-- daniertos/v3-smp/src/kernel/mutex.c: a recursive mutex with priority inheritance. A lock that
-- blocks is two steps, as for semaphores. `lock_count` is a uint8_t.
pub mod Contend
pub mod Inherit
pub mod Laws
use djiang_oss_public.Prelude.{
  ℕ, ◌+◌, ◌-◌, ◌%◌, Bool, true, false, Option, none, some, ltb, not, ◌==◌, if◌then◌else◌, ◌>>=◌,
}
use djiang_oss_public.Rtos.Types.{Kernel, Tcb, TaskState, get_cpu, no_wait}
use djiang_oss_public.Rtos.Lock.{critical_enter, critical_exit}
use djiang_oss_public.Rtos.Ready.{sched_add_ready, sched_remove_ready}
use djiang_oss_public.Rtos.Sched.{sched_request_switch}
use djiang_oss_public.Rtos.Block.{set_tcb}
use djiang_oss_public.Rtos.WaitQueue.{waitqueue_pop}
use djiang_oss_public.Rtos.Waiting.{Outcome, returned, blocked, block_on, resume_on, wake_signaled}

pub record Mutex : Type 0 where
  pub owner : Option ℕ
  pub wait_queue : Option ℕ
  pub lock_count : ℕ

unfoldable pub mutex_init : Mutex
mutex_init = record { owner = none; wait_queue = none; lock_count = 0 }

abbrev pub ptr_eq : Option ℕ → Option ℕ → Bool
ptr_eq none none = true
ptr_eq none (some b) = false
ptr_eq (some a) none = false
ptr_eq (some a) (some b) = a == b

abbrev pub is_ready : TaskState → Bool
is_ready TaskState.ready = true
is_ready _ = false

abbrev pub set_priority : ℕ → ℕ → Kernel → Kernel
set_priority t prio k = set_tcb t (record (k.tcb t) { priority = prio }) k

-- Priority inheritance: an owner of lower priority gets that of the task that waits, and moves to
-- its new queue if it is ready.
unfoldable pub boost : ℕ → ℕ → Kernel → Option Kernel
boost owner current k =
    if ltb (k.tcb owner).priority (k.tcb current).priority
    then (let k1 = set_priority owner (k.tcb current).priority k in
        if is_ready (k.tcb owner).state
        then (do k2 ← sched_remove_ready (some owner) k1; sched_add_ready (some owner) k2)
        else some k1)
    else some k

unfoldable pub mutex_block : ℕ → ℕ → Bool → ℕ → Mutex → Kernel → Option (Outcome × Mutex × Kernel)
mutex_block obj timeout state owner m k = do
  current ← (get_cpu k).current_task
  k1 ← boost owner current k
  (queue, k2) ← block_on obj timeout m.wait_queue current k1
  some (blocked, record m { wait_queue = queue }, sched_request_switch (critical_exit state k2))

abbrev pub lock_other : ℕ → ℕ → Bool → Option ℕ → Mutex → Kernel → Option (Outcome × Mutex × Kernel)
lock_other obj timeout state none m k = some (
  returned true,
  record m { owner = (get_cpu k).current_task; lock_count = 1 },
  critical_exit state k,
)
lock_other obj timeout state (some owner) m k =
    if timeout == no_wait
    then some (returned false, m, critical_exit state k)
    else mutex_block obj timeout state owner m k

-- Up to `task_yield`; `obj` is the address of the mutex.
unfoldable pub mutex_lock : ℕ → ℕ → Mutex → Kernel → Option (Outcome × Mutex × Kernel)
mutex_lock obj timeout m k =
    let (state, k1) = critical_enter k in
    if ptr_eq m.owner (get_cpu k1).current_task
    then some
        (returned true, record m { lock_count = (m.lock_count + 1) % 256 }, critical_exit state k1)
    else lock_other obj timeout state m.owner m k1

unfoldable pub mutex_lock_resume : ℕ → ℕ → Mutex → Kernel → Option (Bool × Mutex × Kernel)
mutex_lock_resume timeout current m k =
    let (state, k1) = critical_enter k in
    resume_on timeout m.wait_queue current k1 >>= λ (acquired, queue, k2).
    some (acquired, record m { wait_queue = queue }, critical_exit state k2)

unfoldable pub mutex_try_lock : ℕ → Mutex → Kernel → Option (Outcome × Mutex × Kernel)
mutex_try_lock obj m k = mutex_lock obj no_wait m k

-- What `mutex_unlock` does with what it has popped.
unfoldable pub hand_over : Bool → Mutex → Option ℕ × Option ℕ × Kernel → Option (Mutex × Kernel)
hand_over state m (some t, queue, k) = do
  k' ← wake_signaled t k
  some (record m { owner = some t; lock_count = 1; wait_queue = queue }, critical_exit state k')
hand_over state m (none, queue, k) =
    some (record m { owner = none; lock_count = 0; wait_queue = queue }, critical_exit state k)

-- A NULL `current` is dereferenced: `none`.
unfoldable pub unlock_last : Bool → Option ℕ → Mutex → Kernel → Option (Mutex × Kernel)
unlock_last state none m k = none
unlock_last state (some c) m k =
    let k1 = set_priority c (k.tcb c).base_priority k in
    hand_over state m (waitqueue_pop m.wait_queue k1)

unfoldable pub mutex_unlock : Mutex → Kernel → Option (Mutex × Kernel)
mutex_unlock m k =
    let (state, k1) = critical_enter k in
    let current = (get_cpu k1).current_task in
    if not (ptr_eq m.owner current)
    then some (m, critical_exit state k1)
    else if ltb 1 m.lock_count
    then some (record m { lock_count = m.lock_count - 1 }, critical_exit state k1)
    else unlock_last state current m k1

unfoldable pub mutex_is_locked : Mutex → Bool
mutex_is_locked m = not (ptr_eq m.owner none)

unfoldable pub mutex_get_owner : Mutex → Option ℕ
mutex_get_owner m = m.owner
