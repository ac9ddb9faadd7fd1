-- ===== src/Rtos/Trap.antt =====
-- daniertos/v3-smp/src/trap.c: the trap handler. The cause is an argument; messages and the timer's
-- next deadline are left out; a fault of the kernel halts the core: `none`.
pub mod Laws
use djiang_oss_public.Prelude.{
  ℕ, ◌+◌, ◌*◌, ◌/◌, ◌%◌, ◌^◌, Bool, true, false, Option, none, some, leb, ltb, ◌==◌, ◌||◌,
  if◌then◌else◌, ◌>>=◌,
}
use djiang_oss_public.Rtos.Types.{Kernel, Tcb, get_cpu}
use djiang_oss_public.Rtos.Sched.{
  sched_enter_isr, sched_exit_isr, sched_switch_pending, sched_request_switch, sched_schedule,
}
use djiang_oss_public.Rtos.Delay.{tick_increment}
use djiang_oss_public.Rtos.Smp.{smp_handle_ipi}
use djiang_oss_public.Rtos.Task.{Image, task_exit}
use djiang_oss_public.Rtos.Syscall.{
  World, Reply, resumes, reg, set_reg, reschedule, syscall_handler,
}

-- The timer: only core 0 counts.
unfoldable pub timer_interrupt : Kernel → Option Kernel
timer_interrupt k =
    if k.hart == 0
    then (tick_increment k >>= λ k1. some (sched_request_switch k1))
    else some (sched_request_switch k)

unfoldable pub interrupt : ℕ → Kernel → Option Kernel
interrupt cause k =
    if cause == 7 then timer_interrupt k else if cause == 3 then some (smp_handle_ipi k) else some k

-- What every trap that does not return early ends with.
unfoldable pub trap_end : ℕ → World → Option (Reply × World)
trap_end sp w =
    if sched_switch_pending w.kernel
    then (sched_schedule sp w.kernel >>= λ (sp', k).
        some (resumes sp', record w { kernel = sched_exit_isr k }))
    else some (resumes sp, record w { kernel = sched_exit_isr w.kernel })

-- A fault of a user task ends that task; the mode is in bits 11 and 12 of the saved mstatus.
unfoldable pub fault : Image → ℕ → World → Option (Reply × World)
fault image sp w =
    if (reg sp 33 w.kernel / 2 ^ 11 % 4) == 0
    then elim (get_cpu w.kernel).current_task [
      | none ↦ none
      | some t ↦
          task_exit image (sched_exit_isr w.kernel) >>= λ k. reschedule sp (record w { kernel = k })
    ]
    else none

unfoldable pub trap_exception : Image → ℕ → ℕ → World → Option (Reply × World)
trap_exception image cause sp w =
    if cause == 8
    then syscall_handler image sp (record w { kernel = sched_exit_isr w.kernel })
    else if (cause == 11) || (cause == 9)
    then trap_end sp
        (record w { kernel = set_reg sp 32 ((reg sp 32 w.kernel + 4) % 2 ^ 64) w.kernel })
    else fault image sp w

unfoldable pub trap_handler : Image → ℕ → ℕ → World → Option (Reply × World)
trap_handler image mcause sp w =
    let w1 = record w { kernel = sched_enter_isr w.kernel } in
    if leb (2 ^ 63) mcause
    then (interrupt (mcause % 256) w1.kernel >>= λ k. trap_end sp (record w1 { kernel = k }))
    else trap_exception image (mcause % 256) sp w1
