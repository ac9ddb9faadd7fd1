-- ===== src/Tests/Sync.antt =====
-- Semaphores and mutexes of the sample kernel.
use djiang_oss_public.Prelude.{ℕ, ◌≡◌, ◌≢◌, refl, true, Option, none, some, [], ◌∷◌, arith}
use djiang_oss_public.Prelude.Int.{pos}
use djiang_oss_public.Rtos.Types.{Kernel, WakeReason, get_cpu}
use djiang_oss_public.Rtos.Links.Chain.{Chain}
use djiang_oss_public.Rtos.Ready.{clamp}
use djiang_oss_public.Rtos.Ready.View.{Holds}
use djiang_oss_public.Rtos.Ready.Add.{enqueue}
use djiang_oss_public.Rtos.Delay.{delay_check_wakeups}
use djiang_oss_public.Rtos.Waiting.{blocked, deadline}
use djiang_oss_public.Rtos.Waiting.Block.{Parked, sleeping}
use djiang_oss_public.Rtos.Waiting.Signal.{Granted}
use djiang_oss_public.Rtos.Waiting.Timeout.{timeout-truncates}
use djiang_oss_public.Rtos.Block.{set_tcb}
use djiang_oss_public.Rtos.Semaphore.{Semaphore, sem_wait, sem_signal}
use djiang_oss_public.Rtos.Semaphore.Laws.{sem_wait_blocks, sem_signal_wakes}
use djiang_oss_public.Rtos.Mutex.{Mutex, set_priority, mutex_lock, mutex_unlock}
use djiang_oss_public.Rtos.Mutex.Inherit.{boosted, raised_to, inherited}
use djiang_oss_public.Rtos.Mutex.Contend.{mutex_lock_blocks}
use djiang_oss_public.Rtos.Mutex.Laws.{mutex_unlock_hands_over}
use djiang_oss_public.Tests.Sample.{
  kernel, queues, kernel-Holds, kernel-Waits, kernel-Sleeps, absent,
}

abbrev taken : Semaphore
taken = record { count = pos 0; max_count = pos 3; wait_queue = some 4 }

abbrev idle : Semaphore
idle = record { count = pos 1; max_count = pos 3; wait_queue = none }

abbrev held : ℕ → ℕ → Option ℕ → Mutex
held o n queue = record { owner = some o; wait_queue = queue; lock_count = n }

timeout-truncates_example :
    (k' : Kernel) × (delay_check_wakeups 5 kernel ≡ some k')
    × Holds k' (enqueue queues (clamp 3) 4)
    × Chain k'.next (some 4) (4 ∷ [])
timeout-truncates_example =
    timeout-truncates 5 4 (6 ∷ []) (5 ∷ []) (some 4) kernel queues kernel-Holds kernel-Waits
      kernel-Sleeps (omega arith, tt) (omega arith, tt) refl refl

abbrev roused_kernel : Kernel
roused_kernel = set_tcb 1 (record (kernel.tcb 1) { wake_reason = WakeReason.signaled }) kernel

sem_wait_blocks_example :
    (queue' : Option ℕ) × (k' : Kernel) × (sem_wait 0x80050000 6 taken kernel
      ≡ some (blocked, record taken { wait_queue = queue' }, k'))
    × Parked 0x80050000 6
        (deadline 6 kernel)
        1
        kernel.tcb
        queues
        (4 ∷ 6 ∷ [])
        (4 ∷ 5 ∷ [])
        queue'
        k'
    × ((get_cpu k').need_reschedule ≡ 1)
    × (k'.mie ≡ true)
sem_wait_blocks_example =
    sem_wait_blocks 0x80050000 6 1 taken kernel queues (4 ∷ 6 ∷ []) (4 ∷ 5 ∷ []) (omega arith)
      (λ e. omega arith) refl kernel-Holds kernel-Waits kernel-Sleeps (omega arith)
      (absent 1 (λ e. omega arith) (λ e. omega arith))
      ((λ e. omega arith), ((λ e. omega arith), tt)) ((λ e. omega arith), ((λ e. omega arith), tt))
      refl refl

sem_signal_wakes_example :
    (queue' : Option ℕ) × (k' : Kernel) × (sem_signal taken kernel
      ≡ some (record taken { wait_queue = queue' }, k'))
    × Granted true kernel.tcb queues 3 4 (6 ∷ []) queue' k'
sem_signal_wakes_example =
    sem_signal_wakes taken kernel queues 4 (6 ∷ []) kernel-Holds kernel-Waits refl

mutex_lock_blocks_example :
    (queue' : Option ℕ) × (k' : Kernel) × (mutex_lock 0x80050000 6 (held 0 1 (some 4)) kernel
      ≡ some (blocked, record (held 0 1 (some 4)) { wait_queue = queue' }, k'))
    × Parked 0x80050000 6
        (deadline 6 kernel)
        1
        (inherited kernel.tcb 0 1)
        (boosted kernel.tcb 0 1 queues)
        (4 ∷ 6 ∷ [])
        (4 ∷ 5 ∷ [])
        queue'
        k'
    × (k'.tcb 0 ≡ raised_to 1 (kernel.tcb 0))
    × (k'.tcb 1 ≡ sleeping 0x80050000 6 (deadline 6 kernel) (kernel.tcb 1))
    × ((t : ℕ) → 0 ≢ t → 1 ≢ t → k'.tcb t ≡ kernel.tcb t)
    × ((get_cpu k').need_reschedule ≡ 1)
    × (k'.mie ≡ true)
mutex_lock_blocks_example =
    mutex_lock_blocks 0x80050000 6 0 1 (held 0 1 (some 4)) kernel queues (4 ∷ 6 ∷ []) (4 ∷ 5 ∷ [])
      (λ e. omega arith) refl refl (λ e. omega arith) kernel-Holds kernel-Waits kernel-Sleeps
      (omega arith) (omega arith) (absent 1 (λ e. omega arith) (λ e. omega arith))
      ((λ e. omega arith), ((λ e. omega arith), tt)) ((λ e. omega arith), ((λ e. omega arith), tt))
      ((λ e. omega arith), ((λ e. omega arith), tt)) refl refl

mutex_unlock_hands_over_example :
    (queue' : Option ℕ) × (k' : Kernel) × (mutex_unlock (held 1 1 (some 4)) kernel
      ≡ some
          (record (held 1 1 (some 4)) { owner = some 4; lock_count = 1; wait_queue = queue' }, k'))
    × Granted true (set_priority 1 1 kernel).tcb queues 3 4 (6 ∷ []) queue' k'
    × ((k'.tcb 1).priority ≡ 1)
mutex_unlock_hands_over_example =
    mutex_unlock_hands_over 1 (held 1 1 (some 4)) kernel refl refl (omega arith) queues 4 (6 ∷ [])
      kernel-Holds kernel-Waits refl (λ e. omega arith)
