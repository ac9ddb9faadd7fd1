-- ===== src/Rtos/Block.antt =====
-- Waking and blocking one task: `task_make_ready` and `task_block` of
-- daniertos/v3-smp/src/kernel/task.c.
pub mod Laws
use djiang_oss_public.Prelude.{ℕ, Option, none, some, update, ◌>>=◌}
use djiang_oss_public.Rtos.Types.{Kernel, Tcb, TaskState}
use djiang_oss_public.Rtos.Lock.{sched_lock_irqsave, sched_unlock_irqrestore}
use djiang_oss_public.Rtos.Ready.{sched_add_ready, sched_remove_ready}

abbrev pub set_tcb : ℕ → Tcb → Kernel → Kernel
set_tcb t b k = record k { tcb = update k.tcb t b }

unfoldable pub task_make_ready : ℕ → Kernel → Option Kernel
task_make_ready t k = do
  (state, k1) ← sched_lock_irqsave k
  let k2 = set_tcb t (record (k1.tcb t) { state = TaskState.ready; blocked_on = 0 }) k1
  k3 ← sched_add_ready (some t) k2
  some (sched_unlock_irqrestore state k3)

unfoldable pub task_block : ℕ → ℕ → Kernel → Option Kernel
task_block t blocked_on k = do
  (state, k1) ← sched_lock_irqsave k
  let k2 = set_tcb t (record (k1.tcb t) { state = TaskState.blocked; blocked_on = blocked_on }) k1
  k3 ← sched_remove_ready (some t) k2
  some (sched_unlock_irqrestore state k3)
