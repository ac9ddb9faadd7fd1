-- ===== src/Rtos/Trap/Laws.antt =====
-- The trap that `task_yield` raises.
use djiang_oss_public.Prelude.{
  ℕ, ◌+◌, ◌-◌, ◌*◌, ◌%◌, ◌^◌, ◌<◌, ◌≡◌, refl, sym, ap, subst, ◌∙◌, true, false, some, arith, ltb,
  ◌>>=◌, >>=-some, update_self,
}
use native.Mathlib.Nat.{mod-eq_of_lt}
use djiang_oss_public.Rtos.Types.{Kernel, Cpu, TaskState, get_cpu}
use djiang_oss_public.Rtos.Ready.View.{Queues, Holds, Holds-same}
use djiang_oss_public.Rtos.Ready.Remove.{dequeue}
use djiang_oss_public.Rtos.Sched.{
  task_get_idle_for_core, sched_schedule, sched_enter_isr, sched_exit_isr, sched_switch_pending,
  set_cpu,
}
use djiang_oss_public.Rtos.Sched.Select.{IsNext, IsNext-same}
use djiang_oss_public.Rtos.Sched.Switch.{CurrentFits, requeued, sched_schedule_lem}
use djiang_oss_public.Rtos.Task.{Image}
use djiang_oss_public.Rtos.Syscall.{World, resumes, reg, set_reg}
use djiang_oss_public.Rtos.Trap.{trap_end, trap_exception, trap_handler}

-- The core inside the handler, one level deeper.
deeper : Cpu → Cpu
deeper c = record c { irq_nesting = (c.irq_nesting + 1) % 2 ^ 32 }

-- The kernel on which the handler of a yield schedules.
inside : ℕ → Kernel → Kernel
inside sp k = set_reg sp 32 ((reg sp 32 k + 4) % 2 ^ 64) (set_cpu (deeper (get_cpu k)) k)

inside-cpu : (sp : ℕ) (k : Kernel) → get_cpu (inside sp k) ≡ deeper (get_cpu k)
unfolding inside
inside-cpu sp k = update_self k.cpus k.hart (deeper (get_cpu k))

handler_yield :
    (image : Image) (sp : ℕ) (w : World)
    → trap_handler image 11 sp w ≡ trap_end sp (record w { kernel = inside sp w.kernel })
unfolding trap_handler trap_exception sched_enter_isr inside deeper
handler_yield image sp w = refl

end_pending :
    (sp : ℕ) (w : World)
    → (get_cpu w.kernel).need_reschedule ≡ 1
    → trap_end sp w ≡ (
        sched_schedule sp w.kernel >>= λ (sp', k).
        some (resumes sp', record w { kernel = sched_exit_isr k }))
unfolding trap_end sched_switch_pending
end_pending sp w e = rw e refl

-- Leaving the handler lowers the nesting again, and nothing else.
exited :
    (k : Kernel) (n : ℕ)
    → (get_cpu k).irq_nesting ≡ n + 1
    → sched_exit_isr k ≡ set_cpu (record (get_cpu k) { irq_nesting = n }) k
unfolding sched_exit_isr
exited k n e =
    lower (ground arith)
    ∙ ap (λ m. set_cpu (record (get_cpu k) { irq_nesting = m }) k) (one_less n e)
  where
    lower :
        ltb 0 (get_cpu k).irq_nesting ≡ true
        → sched_exit_isr k
          ≡ set_cpu (record (get_cpu k) { irq_nesting = (get_cpu k).irq_nesting - 1 }) k
    lower t = rw t refl

    one_less : (n : ℕ) → (get_cpu k).irq_nesting ≡ n + 1 → (get_cpu k).irq_nesting - 1 ≡ n
    one_less n e = omega arith

-- The trap of an M-mode ecall when a switch is asked for, with a nesting count that does not
-- overflow, the scheduler's lock free, well-formed ready queues, an idle task for the core and an
-- interrupted task that is in the pool and in no queue while it runs: the handler returns the saved
-- stack pointer of the task that is next once the interrupted task, if it still runs, is back at
-- the end of its queue; that task is the running one and has left the queues, the flag is clear,
-- the nesting count is as before, and the saved mepc is 4 further (modulo 2^64).
pub trap-yield :
    (image : Image) (sp i : ℕ) (w : World) (q : Queues)
    → (get_cpu w.kernel).need_reschedule ≡ 1
    → (get_cpu w.kernel).irq_nesting + 1 < 2 ^ 32
    → Holds w.kernel q
    → w.kernel.sched_lock ≡ false
    → CurrentFits (get_cpu w.kernel).current_task w.kernel.tcb q
    → task_get_idle_for_core (get_cpu w.kernel).hartid w.kernel ≡ some i
    → let q' = requeued (get_cpu w.kernel).current_task w.kernel.tcb q in
      (t : ℕ) × (w' : World) × (trap_handler image 11 sp w
        ≡ some (resumes (w'.kernel.tcb t).sp, w'))
      × IsNext w.kernel q' (get_cpu w.kernel).hartid t
      × Holds w'.kernel (dequeue t q')
      × ((get_cpu w'.kernel).current_task ≡ some t)
      × ((w'.kernel.tcb t).state ≡ TaskState.running)
      × ((get_cpu w'.kernel).need_reschedule ≡ 0)
      × ((get_cpu w'.kernel).irq_nesting ≡ (get_cpu w.kernel).irq_nesting)
      × (reg sp 32 w'.kernel ≡ (reg sp 32 w.kernel + 4) % 2 ^ 64)
unfolding inside deeper task_get_idle_for_core
trap-yield image sp i w q pending small h free fits idle =
    let k1 = inside sp w.kernel in
    let n = (get_cpu w.kernel).irq_nesting in
    let e = inside-cpu sp w.kernel in
    let q' = requeued (get_cpu w.kernel).current_task w.kernel.tcb q in
    let (t, k3, run, m) =
      sched_schedule_lem sp k1 q i (Holds-same h refl refl refl) free
        (subst (λ (c : Cpu). CurrentFits c.current_task w.kernel.tcb q) (sym e) fits)
        (subst (λ (c : Cpu). task_get_idle_for_core c.hartid w.kernel ≡ some i) (sym e) idle) in
    let same : requeued (get_cpu k1).current_task k1.tcb q ≡ q' =
      ap (λ (c : Cpu). requeued c.current_task w.kernel.tcb q) e in
    let deep : (get_cpu k3).irq_nesting ≡ n + 1 =
      m.nesting ∙ ap (λ (c : Cpu). c.irq_nesting) e ∙ mod-eq_of_lt small in
    let k4 = set_cpu (record (get_cpu k3) { irq_nesting = n }) k3 in
    let cpu4 : get_cpu k4 ≡ record (get_cpu k3) { irq_nesting = n } =
      update_self k3.cpus k3.hart _ in
    (
      t,
      record w { kernel = k4 },
      handler_yield image sp w
          ∙ end_pending sp (record w { kernel = k1 })
              (ap (λ (c : Cpu). c.need_reschedule) e ∙ pending)
          ∙ >>=-some _ run refl
          ∙ ap (λ k. some (resumes (k3.tcb t).sp, record w { kernel = k })) (exited k3 n deep),
      IsNext-same w.kernel k1 q' (get_cpu w.kernel).hartid t (λ x. refl) refl
          (subst (λ (c : Cpu). IsNext k1 q' c.hartid t) e
            (subst (λ x. IsNext k1 x (get_cpu k1).hartid t) same m.next)),
      Holds-same (subst (λ x. Holds k3 (dequeue t x)) same m.holds) refl refl refl,
      ap (λ (c : Cpu). c.current_task) cpu4 ∙ m.current,
      m.runs,
      ap (λ (c : Cpu). c.need_reschedule) cpu4 ∙ m.calm,
      ap (λ (c : Cpu). c.irq_nesting) cpu4,
      ap (λ (f : ℕ → ℕ). f (sp + 8 * 32)) m.memory ∙ update_self w.kernel.mem (sp + 8 * 32) _,
    )
