-- ===== src/Rtos/Types.antt =====
-- The data of the kernel: types.h, task.h, smp.h and the file-level state of the kernel's sources
-- (daniertos/v3-smp/include and src/kernel), in the default configuration of config.h.
-- A `tcb_t *` is the TCB's index in `g_tasks`; any other pointer is its address, 0 for NULL. The
-- two link fields of a TCB, `next` and `delay_next`, are columns of the kernel's state.
use djiang_oss_public.Prelude.{ℕ, Bool, Option}

abbrev pub max_tasks : ℕ
max_tasks = 16

abbrev pub max_priority : ℕ
max_priority = 4

abbrev pub max_cores : ℕ
max_cores = 8

abbrev pub num_cores : ℕ
num_cores = 2

-- `CONFIG_CORE_ANY`: (1U << CONFIG_NUM_CORES) - 1
abbrev pub core_any : ℕ
core_any = 3

-- WAIT_FOREVER is UINT32_MAX, NO_WAIT is 0.
abbrev pub wait_forever : ℕ
wait_forever = 0xffffffff

abbrev pub no_wait : ℕ
no_wait = 0

-- A list of distinct tasks is walked to its end within this fuel.
abbrev pub walk_fuel : ℕ
walk_fuel = 17

pub data TaskState : Type 0 where
  ready running blocked suspended deleted : TaskState

pub data WakeReason : Type 0 where
  none signaled timeout : WakeReason

pub data SchedState : Type 0 where
  stopped running : SchedState

pub record Tcb : Type 0 where
  pub sp : ℕ
  pub id : ℕ
  pub name : ℕ
  pub kstack_base : ℕ
  pub kstack_top : ℕ
  pub ustack_base : ℕ
  pub ustack_size : ℕ
  pub priority : ℕ
  pub base_priority : ℕ
  pub state : TaskState
  pub affinity_mask : ℕ
  pub wake_tick : ℕ
  pub wake_reason : WakeReason
  pub blocked_on : ℕ
  pub held_mutexes : ℕ
  pub stack_base : ℕ
  pub stack_size : ℕ

-- `cpu_t`
pub record Cpu : Type 0 where
  pub kernel_trap_sp : ℕ
  pub user_sp_save : ℕ
  pub user_tp_save : ℕ
  pub hartid : ℕ
  pub current_task : Option ℕ
  pub idle_task : Option ℕ
  pub irq_nesting : ℕ
  pub need_reschedule : ℕ

-- `hart` is the core that runs (its `tp` register points at `cpus hart`) and `mie` its interrupt
-- enable bit. `address` is where the linker put each TCB, `mem` the 64-bit words of memory.
pub record Kernel : Type 0 where
  pub tcb : ℕ → Tcb
  pub next : ℕ → Option ℕ
  pub delay_next : ℕ → Option ℕ
  pub ready_queue : ℕ → Option ℕ
  pub delay_list : Option ℕ
  pub task_count : ℕ
  pub idle_tasks : ℕ → Option ℕ
  pub tick_count : ℕ
  pub sched_state : SchedState
  pub cpus : ℕ → Cpu
  pub hart : ℕ
  pub mie : Bool
  pub sched_lock : Bool
  pub delay_lock : Bool
  pub user_stack_used : ℕ → Bool
  pub pmpaddr2 : ℕ → ℕ
  pub msip : ℕ → ℕ
  pub address : ℕ → ℕ
  pub mem : ℕ → ℕ

-- `smp_get_cpu()`
abbrev pub get_cpu : Kernel → Cpu
get_cpu k = k.cpus k.hart
