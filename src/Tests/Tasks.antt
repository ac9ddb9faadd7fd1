-- ===== src/Tests/Tasks.antt =====
-- Tasks of the sample kernel.
use djiang_oss_public.Prelude.{
  ℕ, ◌<◌, inl, inr, ◌+◌, ◌%◌, ◌^◌, ◌≡◌, ◌≢◌, refl, true, none, some, [], ◌∷◌, arith,
}
use djiang_oss_public.Rtos.Types.{Kernel, TaskState}
use djiang_oss_public.Rtos.Ready.{clamp}
use djiang_oss_public.Rtos.Ready.View.{Holds}
use djiang_oss_public.Rtos.Ready.Add.{enqueue}
use djiang_oss_public.Rtos.Ready.Remove.{dequeue}
use djiang_oss_public.Rtos.Delay.{delay_check_wakeups}
use djiang_oss_public.Rtos.Delay.Sleepers.{Sleeps, by_time}
use djiang_oss_public.Rtos.Task.{Image, is_current, task_delete, task_suspend, task_delay_internal}
use djiang_oss_public.Rtos.Task.Context.{IsContext}
use djiang_oss_public.Rtos.Task.Create.{task_create, task_create_user, affinity_of}
use djiang_oss_public.Rtos.Task.Laws.{Stopped, task_suspend_lem}
use djiang_oss_public.Rtos.Task.Sleep.{asleep, task_delay_internal_lem, task_delete-wakes}
use djiang_oss_public.Rtos.Task.Slots.{
  IsFree, top_of, first_sp, task_create_lem, task_delete-exhausted,
}
use djiang_oss_public.Tests.Sample.{kernel, queues, kernel-Holds, kernel-Sleeps, absent}

abbrev image : Image
image = record {
  exit_handler = 0x80000100;
  idle_func = 0x80000200;
  idle_name = λ i. 0x80000300;
  idle_stacks = 0x80070000;
  kstacks = 0x80080000;
  ustacks = 0x80090000;
}

abbrev full : Kernel
full = record kernel { task_count = 16 }

full-Holds : Holds full queues
full-Holds = record {
  chains = kernel-Holds.chains;
  beyond = kernel-Holds.beyond;
  apart = kernel-Holds.apart;
  distinct = kernel-Holds.distinct;
  members = kernel-Holds.members;
  placed = kernel-Holds.placed;
}

task_suspend_example :
    (k' : Kernel) × (task_suspend (some 3) kernel ≡ some (is_current 3 kernel, k'))
    × Stopped TaskState.suspended 3 kernel queues k'
task_suspend_example = task_suspend_lem 3 kernel queues kernel-Holds

task_delay_internal_example :
    (k' : Kernel) × (task_delay_internal 3 kernel ≡ some k')
    × Holds k' (dequeue 1 queues)
    × Sleeps k' (by_time k'.tcb ((4 + 3) % 2 ^ 64) 1 (4 ∷ 5 ∷ []))
    × (k'.tcb 1 ≡ asleep ((4 + 3) % 2 ^ 64) (kernel.tcb 1))
    × ((x : ℕ) → 1 ≢ x → k'.tcb x ≡ kernel.tcb x)
    × (k'.mie ≡ true)
task_delay_internal_example =
    task_delay_internal_lem 3 1 kernel queues (4 ∷ 5 ∷ []) (λ e. omega arith) refl kernel-Holds
      kernel-Sleeps (omega arith) ((λ e. omega arith), ((λ e. omega arith), tt)) refl

task_delete-wakes_example :
    (k1 : Kernel) × (k2 : Kernel) × (task_delete (some 4) kernel ≡ some (is_current 4 kernel, k1))
    × ((k1.tcb 4).state ≡ TaskState.deleted)
    × (delay_check_wakeups 5 k1 ≡ some k2)
    × ((k2.tcb 4).state ≡ TaskState.ready)
    × Holds k2 (enqueue (dequeue 4 queues) (clamp 3) 4)
task_delete-wakes_example =
    task_delete-wakes 5 4 (5 ∷ []) kernel queues kernel-Holds kernel-Sleeps (omega arith, tt)
      (omega arith, tt) refl refl

task_delete-exhausted_example :
    (k' : Kernel) × (task_delete (some 3) full ≡ some (is_current 3 full, k'))
    × ((k'.tcb 3).state ≡ TaskState.deleted)
    × (task_create image 0x80000400 0x80000500 0 1 0x80100000 4096 0 k' ≡ some (none, k'))
    × (task_create_user image 0x80000400 0x80000500 0 1 0 k' ≡ some (none, k'))
task_delete-exhausted_example =
    task_delete-exhausted image 3 0x80000400 0x80000500 0 1 0x80100000 4096 0 full queues full-Holds
      (omega arith)

used : (j : ℕ) → j < 8 → ¬ IsFree (kernel.tcb j)
used j lt (inl deleted) = absurd (ground arith)
used j lt (inr (none_at, unnamed)) = absurd (ground arith)

task_create_example :
    (k' : Kernel) × (task_create image 0x80000400 0x80000500 0 1 0x80100000 4096 0 kernel
      ≡ some (some 8, k'))
    × Holds k' (enqueue queues (clamp 1) 8)
    × ((k'.tcb 8).state ≡ TaskState.ready)
    × ((k'.tcb 8).priority ≡ 1)
    × ((k'.tcb 8).base_priority ≡ 1)
    × ((k'.tcb 8).affinity_mask ≡ affinity_of 0)
    × ((k'.tcb 8).id ≡ 8)
    × ((k'.tcb 8).name ≡ 0x80000400)
    × ((k'.tcb 8).stack_base ≡ 0x80100000)
    × ((k'.tcb 8).stack_size ≡ 4096)
    × ((k'.tcb 8).sp ≡ first_sp (top_of 0x80100000 4096))
    × IsContext image 0x80000500 0
        (top_of 0x80100000 4096)
        (first_sp (top_of 0x80100000 4096))
        kernel.mem
        k'.mem
    × ((x : ℕ) → 8 ≢ x → k'.tcb x ≡ kernel.tcb x)
    × (k'.task_count ≡ 8 + 1)
    × (k'.mie ≡ true)
task_create_example =
    task_create_lem image 0x80000400 0x80000500 0 1 0x80100000 4096 0 8 kernel queues kernel-Holds
      (omega arith) (omega arith) (inl refl) used (absent 8 (λ e. omega arith) (λ e. omega arith))
