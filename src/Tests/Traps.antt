-- ===== src/Tests/Traps.antt =====
-- Traps and system calls on the sample kernel.
use djiang_oss_public.Prelude.{ℕ, ◌+◌, ◌%◌, ◌^◌, ◌≡◌, refl, none, some, arith, ◌==◌, if◌then◌else◌}
use djiang_oss_public.Prelude.Int.{pos, ◌-ℤ◌}
use djiang_oss_public.Rtos.Types.{Kernel, TaskState, get_cpu}
use djiang_oss_public.Rtos.Ready.View.{Holds}
use djiang_oss_public.Rtos.Ready.Remove.{dequeue}
use djiang_oss_public.Rtos.Sched.{task_get_idle_for_core}
use djiang_oss_public.Rtos.Sched.Select.{IsNext}
use djiang_oss_public.Rtos.Sched.Switch.{requeued}
use djiang_oss_public.Rtos.Mutex.{mutex_init}
use djiang_oss_public.Rtos.MsgQueue.{queue_init}
use djiang_oss_public.Rtos.Task.{Image}
use djiang_oss_public.Rtos.Syscall.{World, resumes, reg, syscall_handler}
use djiang_oss_public.Rtos.Syscall.Results.{syscall-sem_wait}
use djiang_oss_public.Rtos.Trap.{trap_handler}
use djiang_oss_public.Rtos.Trap.Laws.{trap-yield}
use djiang_oss_public.Tests.Sample.{kernel, cpu, queues, kernel-Holds, absent}

abbrev image : Image
image = record {
  exit_handler = 0x80000100;
  idle_func = 0x80000200;
  idle_name = λ i. 0x80000300;
  idle_stacks = 0x80070000;
  kstacks = 0x80080000;
  ustacks = 0x80090000;
}

abbrev frame : ℕ
frame = 0x80040000

-- A switch is asked for, and the context at `frame` asks for a wait on the semaphore at 0x80050000.
abbrev asking : Kernel
asking = record kernel {
  cpus = λ c. record cpu { need_reschedule = 1 };
  mem = λ a. if a == frame + 136 then 10 else if a == frame + 80 then 0x80050000 else 0;
}

asking-Holds : Holds asking queues
asking-Holds = record {
  chains = kernel-Holds.chains;
  beyond = kernel-Holds.beyond;
  apart = kernel-Holds.apart;
  distinct = kernel-Holds.distinct;
  members = kernel-Holds.members;
  placed = kernel-Holds.placed;
}

abbrev world : World
world = record {
  kernel = asking;
  semaphores = λ a. record { count = pos 1; max_count = pos 3; wait_queue = none };
  mutexes = λ a. mutex_init;
  queues = λ a. queue_init (λ i. 0) 2 3;
}

trap-yield_example :
    (t : ℕ) × (w' : World) × (trap_handler image 11 frame world
      ≡ some (resumes (w'.kernel.tcb t).sp, w'))
    × IsNext asking (requeued (some 1) asking.tcb queues) 0 t
    × Holds w'.kernel (dequeue t (requeued (some 1) asking.tcb queues))
    × ((get_cpu w'.kernel).current_task ≡ some t)
    × ((w'.kernel.tcb t).state ≡ TaskState.running)
    × ((get_cpu w'.kernel).need_reschedule ≡ 0)
    × ((get_cpu w'.kernel).irq_nesting ≡ 0)
    × (reg frame 32 w'.kernel ≡ (0 + 4) % 2 ^ 64)
unfolding task_get_idle_for_core
trap-yield_example =
    trap-yield image frame 0 world queues refl (omega arith) asking-Holds refl
      (omega arith, λ e. absent 1 (λ x. omega arith) (λ x. omega arith)) refl

syscall-sem_wait_example :
    (sp : ℕ) × (w' : World) × (syscall_handler image frame world ≡ some (resumes sp, w'))
    × ((w'.semaphores 0x80050000).count ≡ pos 1 -ℤ pos 1)
    × (reg frame 32 w'.kernel ≡ (0 + 4) % 2 ^ 64)
    × (reg frame 10 w'.kernel ≡ 0x80050000)
unfolding task_get_idle_for_core
syscall-sem_wait_example =
    syscall-sem_wait image frame 0 world queues refl (omega arith) asking-Holds refl
      (omega arith, λ e. absent 1 (λ x. omega arith) (λ x. omega arith)) refl
