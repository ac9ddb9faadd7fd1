-- ===== src/Rtos/Task.antt =====
-- daniertos/v3-smp/src/kernel/task.c: the operations on existing tasks. An operation that may end
-- in `task_yield` returns whether it does; the switch itself is the trap that `ecall` raises.
pub mod Create
pub mod Context
pub mod Laws
pub mod Sleep
pub mod Slots
use djiang_oss_public.Prelude.{
  ℕ, zero, suc, ◌+◌, ◌*◌, ◌%◌, ◌^◌, Bool, true, false, Option, none, some, ltb, ◌==◌, not,
  if◌then◌else◌, ◌>>=◌, update,
}
use djiang_oss_public.Rtos.Types.{Kernel, Tcb, TaskState, WakeReason, Cpu, get_cpu}
use djiang_oss_public.Rtos.Lock.{critical_enter, critical_exit}
use djiang_oss_public.Rtos.Ready.{set_state, sched_add_ready, sched_remove_ready}
use djiang_oss_public.Rtos.Sched.{sched_request_switch, set_cpu}
use djiang_oss_public.Rtos.Block.{set_tcb, task_make_ready}
use djiang_oss_public.Rtos.Delay.{delay_add, tick_get}

-- Where the linker put the code and the data that task creation refers to.
pub record Image : Type 0 where
  pub exit_handler : ℕ
  pub idle_func : ℕ
  pub idle_name : ℕ → ℕ
  pub idle_stacks : ℕ
  pub kstacks : ℕ
  pub ustacks : ℕ

-- CONFIG_KSTACK_SIZE, CONFIG_USTACK_SIZE, CONFIG_IDLE_STACK_SIZE and MAX_USER_TASKS
abbrev pub user_kstack_size : ℕ
user_kstack_size = 8192

abbrev pub user_ustack_size : ℕ
user_ustack_size = 8192

abbrev pub idle_stack_size : ℕ
idle_stack_size = 1024

abbrev pub max_user_tasks : ℕ
max_user_tasks = 8

abbrev pub is_suspended : TaskState → Bool
is_suspended TaskState.suspended = true
is_suspended _ = false

abbrev pub is_ready_state : TaskState → Bool
is_ready_state TaskState.ready = true
is_ready_state _ = false

-- The task meant: NULL is the running one.
abbrev pub or_current : Option ℕ → Kernel → Option ℕ
or_current (some t) k = some t
or_current none k = (get_cpu k).current_task

abbrev pub is_current : ℕ → Kernel → Bool
is_current t k = elim (get_cpu k).current_task [ some c ↦ t == c | none ↦ false ]

-- `task_yield`, if the task is the running one.
abbrev pub yield_if : Bool → Kernel → Bool × Kernel
yield_if true k = (true, sched_request_switch k)
yield_if false k = (false, k)

unfoldable pub task_get_current : Kernel → Option ℕ
task_get_current k = (get_cpu k).current_task

unfoldable pub task_set_current : Option ℕ → Kernel → Kernel
task_set_current t k = set_cpu (record (get_cpu k) { current_task = t }) k

unfoldable pub task_delete : Option ℕ → Kernel → Option (Bool × Kernel)
task_delete task k = do
  t ← or_current task k
  let (state, k1) = critical_enter k
  k2 ← sched_remove_ready (some t) k1
  some (yield_if (is_current t k) (critical_exit state (set_state TaskState.deleted t k2)))

-- What a task that returns runs into: it deletes itself, and then waits.
unfoldable pub task_exit_handler : Kernel → Option (Bool × Kernel)
task_exit_handler k = task_delete (get_cpu k).current_task k

unfoldable pub task_suspend : Option ℕ → Kernel → Option (Bool × Kernel)
task_suspend task k = do
  t ← or_current task k
  let (state, k1) = critical_enter k
  k2 ← sched_remove_ready (some t) k1
  some (yield_if (is_current t k) (critical_exit state (set_state TaskState.suspended t k2)))

unfoldable pub task_resume : Option ℕ → Kernel → Option Kernel
task_resume none k = some k
task_resume (some t) k =
    if not (is_suspended (k.tcb t).state)
    then some k
    else (let (state, k1) = critical_enter k in
        task_make_ready t k1 >>= λ k2. some (critical_exit state k2))

-- The TCB of a task that goes to sleep until `wake`.
abbrev pub delayed : ℕ → Tcb → Tcb
delayed wake b = record b {
  wake_tick = wake;
  state = TaskState.blocked;
  wake_reason = WakeReason.timeout;
}

-- What `task_delay_internal` does once interrupts are off.
unfoldable pub delay_current : Bool → ℕ → ℕ → Kernel → Option Kernel
delay_current state wake t k = do
  k2 ← sched_remove_ready (some t) (set_tcb t (delayed wake (k.tcb t)) k)
  k3 ← delay_add t wake k2
  some (critical_exit state k3)

unfoldable pub task_delay_internal : ℕ → Kernel → Option Kernel
task_delay_internal ticks k =
    if ticks == 0
    then some k
    else (let (state, k1) = critical_enter k in
        (get_cpu k1).current_task >>= λ t.
        delay_current state ((tick_get k1 + ticks) % 2 ^ 64) t k1)

unfoldable pub task_delay : ℕ → Kernel → Option (Bool × Kernel)
task_delay ticks k = do k' ← task_delay_internal ticks k; some (yield_if (ltb 0 ticks) k')

-- The loop that gives a user stack back: `rounds` slots of the pool from `i` on.
abbrev pub release_stack : ℕ → ℕ → ℕ → ℕ → (ℕ → Bool) → ℕ → Bool
release_stack kstacks base zero i used = used
release_stack kstacks base (suc rounds) i used =
    if base == kstacks + i * user_kstack_size
    then update used i false
    else release_stack kstacks base rounds (suc i) used

unfoldable pub task_exit : Image → Kernel → Option Kernel
task_exit image k = do
  let (state, k1) = critical_enter k
  t ← (get_cpu k1).current_task
  k2 ← sched_remove_ready (some t) k1
  let k3 = set_state TaskState.deleted t k2
  let base = (k3.tcb t).kstack_base
  some (
      critical_exit state (record k3 {
        user_stack_used =
            if base == 0
            then k3.user_stack_used
            else release_stack image.kstacks base max_user_tasks 0 k3.user_stack_used;
      }))

unfoldable pub task_get_state : ℕ → Kernel → TaskState
task_get_state t k = (k.tcb t).state

unfoldable pub task_get_priority : ℕ → Kernel → ℕ
task_get_priority t k = (k.tcb t).priority

abbrev pub graded : ℕ → Tcb → Tcb
graded prio b = record b { base_priority = prio; priority = prio }

-- What `task_set_priority` does with a task once its priorities are set.
unfoldable pub refile : ℕ → Kernel → Option Kernel
refile t k =
    if is_ready_state (k.tcb t).state
    then (do k1 ← sched_remove_ready (some t) k; sched_add_ready (some t) k1)
    else some k

unfoldable pub task_set_priority : Option ℕ → ℕ → Kernel → Option Kernel
task_set_priority task prio k = do
  t ← or_current task k
  let (state, k1) = critical_enter k
  k2 ← refile t (set_tcb t (graded prio (k1.tcb t)) k1)
  some (critical_exit state k2)
