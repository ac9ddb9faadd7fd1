-- ===== src/Rtos/Sched.antt =====
-- The scheduler core of daniertos/v3-smp/src/kernel/scheduler.c. What the sources do in assembler
-- (entering the first task, the timer, the CSRs) is left out; a dereference of NULL is `none`.
pub mod Select
pub mod Switch
use djiang_oss_public.Prelude.{
  ℕ, zero, suc, ◌+◌, ◌-◌, ◌%◌, ◌^◌, ◌<◌, Bool, true, false, Option, none, some, ltb, leb, ◌==◌, not,
  if◌then◌else◌, update, ◌>>=◌,
}
use Prim.Native.Nat.{bit_and}
use djiang_oss_public.Rtos.Types.{
  Kernel, Tcb, Cpu, TaskState, SchedState, get_cpu, max_priority, num_cores, walk_fuel,
}
use djiang_oss_public.Rtos.Links.{head, read, walk}
use djiang_oss_public.Rtos.Lock.{
  sched_acquire, sched_release, sched_lock_irqsave, sched_unlock_irqrestore,
}
use djiang_oss_public.Rtos.Ready.{
  in_range, queue_at, set_state, sched_add_ready, sched_remove_ready,
}
use djiang_oss_public.Rtos.Pmp.{pmp_update_task}

abbrev pub is_running : TaskState → Bool
is_running TaskState.running = true
is_running _ = false

abbrev pub set_cpu : Cpu → Kernel → Kernel
set_cpu c k = record k { cpus = update k.cpus k.hart c }

-- `affinity_mask & (1U << hartid)` is not 0.
unfoldable pub allows : ℕ → ℕ → Bool
allows core mask = not (bit_and mask (2 ^ core % 2 ^ 32) == 0)

abbrev pub eligible : Kernel → ℕ → ℕ → Bool
eligible k core t = allows core (k.tcb t).affinity_mask

unfoldable pub task_get_idle_for_core : ℕ → Kernel → Option ℕ
task_get_idle_for_core core k = if leb num_cores core then k.idle_tasks 0 else k.idle_tasks core

-- The search of one queue.
unfoldable pub select_in : ℕ → ℕ → Kernel → Option (Option ℕ)
select_in core p k = do
  pp ← walk (in_range k) (eligible k core) walk_fuel (queue_at k p) head
  some (read (queue_at k p) pp)

-- The search of the queues below `n`, the highest first.
unfoldable pub select_below : ℕ → ℕ → Kernel → Option (Option ℕ)
select_below zero core k = some (task_get_idle_for_core core k)
select_below (suc p) core k = do
  found ← select_in core p k
  elim found [ some t ↦ some (some t) | none ↦ select_below p core k ]

unfoldable pub select_next_task_for_core : ℕ → Kernel → Option (Option ℕ)
select_next_task_for_core core k = select_below max_priority core k

unfoldable pub sched_init : Kernel → Kernel
sched_init k = record k {
  ready_queue = λ p. if ltb p max_priority then none else k.ready_queue p;
  sched_state = SchedState.stopped;
  sched_lock = false;
}

unfoldable pub sched_get_state : Kernel → SchedState
sched_get_state k = k.sched_state

unfoldable pub sched_in_isr : Kernel → Bool
sched_in_isr k = ltb 0 (get_cpu k).irq_nesting

unfoldable pub sched_request_switch : Kernel → Kernel
sched_request_switch k = set_cpu (record (get_cpu k) { need_reschedule = 1 }) k

-- `irq_nesting` is a uint32_t.
unfoldable pub sched_enter_isr : Kernel → Kernel
sched_enter_isr k =
    set_cpu (record (get_cpu k) { irq_nesting = ((get_cpu k).irq_nesting + 1) % 2 ^ 32 }) k

unfoldable pub sched_exit_isr : Kernel → Kernel
sched_exit_isr k =
    if ltb 0 (get_cpu k).irq_nesting
    then set_cpu (record (get_cpu k) { irq_nesting = (get_cpu k).irq_nesting - 1 }) k
    else k

unfoldable pub sched_switch_pending : Kernel → Bool
sched_switch_pending k = not ((get_cpu k).need_reschedule == 0)

-- The interrupted task keeps its stack pointer, and queues up again if it was running.
unfoldable pub save_current : ℕ → Kernel → Option Kernel
save_current sp k = elim (get_cpu k).current_task [
  | none ↦ some k
  | some c ↦
      let k1 = record k { tcb = update k.tcb c (record (k.tcb c) { sp = sp }) } in
      if is_running (k.tcb c).state
      then sched_add_ready (some c) (set_state TaskState.ready c k1)
      else some k1
]

-- The task becomes the running one of this core, with its kernel stack for traps.
abbrev pub make_current : ℕ → Kernel → Kernel
make_current t k =
    let c = get_cpu k in
    let top = (k.tcb t).kstack_top in
    set_cpu
      (record c {
        current_task = some t;
        need_reschedule = 0;
        kernel_trap_sp = if top == 0 then c.kernel_trap_sp else top;
      })
      (set_state TaskState.running t k)

unfoldable pub switch_to : Option ℕ → Kernel → Option (ℕ × Kernel)
switch_to none k = none
switch_to (some t) k = do
  let k' = sched_release (pmp_update_task (some t) (make_current t k))
  some ((k'.tcb t).sp, k')

unfoldable pub sched_schedule : ℕ → Kernel → Option (ℕ × Kernel)
sched_schedule current_sp k = do
  k1 ← sched_acquire k
  k2 ← save_current current_sp k1
  next ← select_next_task_for_core (get_cpu k2).hartid k2
  k3 ← sched_remove_ready next k2
  switch_to next k3

-- Both starts, up to the jump into the task; `need_reschedule` stays as it is.
abbrev pub start_with : Bool → Option ℕ → Kernel → Option (ℕ × Kernel)
start_with mie none k = none
start_with mie (some t) k = do
  k1 ← sched_remove_ready (some t) k
  let k2 = set_state TaskState.running t k1
  let k3 = sched_unlock_irqrestore mie (set_cpu (record (get_cpu k2) { current_task = some t }) k2)
  let c = get_cpu k3
  let top = (k3.tcb t).kstack_top
  let k4 = set_cpu (record c { kernel_trap_sp = if top == 0 then c.kernel_trap_sp else top }) k3
  some ((k4.tcb t).sp, k4)

unfoldable pub sched_start : Kernel → Option (ℕ × Kernel)
sched_start k = do
  (mie, k1) ← sched_lock_irqsave k
  next ← select_next_task_for_core (get_cpu k1).hartid k1
  (sp, k2) ← start_with mie next k1
  some (sp, record k2 { sched_state = SchedState.running })

-- Without a task the core waits for ever.
unfoldable pub sched_start_ap : Kernel → Option (ℕ × Kernel)
sched_start_ap k = do
  (mie, k1) ← sched_lock_irqsave (record k { mie = false })
  next ← select_next_task_for_core (get_cpu k1).hartid k1
  start_with mie next k1

unfoldable pub sched_yield : ℕ → Kernel → Option (ℕ × Kernel)
sched_yield current_sp k = sched_schedule current_sp k
