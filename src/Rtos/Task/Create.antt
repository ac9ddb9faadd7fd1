-- ===== src/Rtos/Task/Create.antt =====
-- daniertos/v3-smp/src/kernel/task.c: creating tasks, with their stacks and first contexts. A
-- context is 34 words of memory: 32 registers, mepc and mstatus.
use djiang_oss_public.Prelude.{
  ℕ, zero, suc, ◌+◌, ◌-◌, ◌*◌, ◌/◌, ◌%◌, ◌^◌, Bool, true, false, Option, none, some, leb, ◌==◌,
  ◌&&◌, ◌||◌, if◌then◌else◌, ◌>>=◌, update,
}
use djiang_oss_public.Rtos.Types.{
  Kernel, Tcb, TaskState, WakeReason, max_tasks, num_cores, core_any,
}
use djiang_oss_public.Rtos.Lock.{critical_enter, critical_exit}
use djiang_oss_public.Rtos.Ready.{is_deleted, set_state, sched_add_ready, sched_remove_ready}
use djiang_oss_public.Rtos.Block.{set_tcb}
use djiang_oss_public.Rtos.Task.{
  Image, user_kstack_size, user_ustack_size, idle_stack_size, max_user_tasks,
}

-- Down to a multiple of 16.
abbrev pub align16 : ℕ → ℕ
align16 a = a / 16 * 16

-- `n` words of zeros from the address `sp` on.
abbrev pub clear_words : ℕ → ℕ → (ℕ → ℕ) → ℕ → ℕ
clear_words zero sp mem = mem
clear_words (suc n) sp mem = update (clear_words n sp mem) (sp + 8 * n) 0

-- MSTATUS_MPIE | MSTATUS_UXL_64 | MSTATUS_SXL_64, and with MSTATUS_MPP_M as well.
abbrev pub mstatus_user : ℕ
mstatus_user = 2 ^ 7 + 2 * 2 ^ 32 + 2 * 2 ^ 34

abbrev pub mstatus_machine : ℕ
mstatus_machine = mstatus_user + 3 * 2 ^ 11

abbrev pub context_words : ℕ
context_words = 34

-- The first context, below `stack_top`; the result is its address.
unfoldable pub stack_init : Image → ℕ → ℕ → ℕ → Bool → Kernel → ℕ × Kernel
stack_init image stack_top func arg user k =
    let sp = (2 ^ 64 + stack_top - 8 * context_words) % 2 ^ 64 in
    let m0 = clear_words context_words sp k.mem in
    let m1 = update m0 (sp + 8 * 1) image.exit_handler in
    let m2 = update m1 (sp + 8 * 2) stack_top in
    let m3 = update m2 (sp + 8 * 10) arg in
    let m4 = update m3 (sp + 8 * 32) func in
    let m5 = update m4 (sp + 8 * 33) (if user then mstatus_user else mstatus_machine) in
    (sp, record k { mem = m5 })

-- A slot of the pool that nobody uses.
abbrev pub is_free : Tcb → Bool
is_free b = is_deleted b.state || (b.stack_base == 0 && b.name == 0)

-- The first free slot among `rounds` from `i` on.
unfoldable pub find_slot : ℕ → ℕ → (ℕ → Tcb) → Option ℕ
find_slot zero i f = none
find_slot (suc rounds) i f = if is_free (f i) then some i else find_slot rounds (suc i) f

-- The first user stack that is not used.
unfoldable pub find_stack : ℕ → ℕ → (ℕ → Bool) → Option ℕ
find_stack zero i used = none
find_stack (suc rounds) i used = if used i then find_stack rounds (suc i) used else some i

abbrev pub affinity_of : ℕ → ℕ
affinity_of affinity = if affinity == 0 then core_any else affinity

-- The fields that both kinds of task start with.
abbrev pub fresh_tcb : ℕ → ℕ → ℕ → ℕ → Tcb → Tcb
fresh_tcb id name prio affinity b = record b {
  id = id;
  name = name;
  priority = prio;
  base_priority = prio;
  state = TaskState.ready;
  affinity_mask = affinity_of affinity;
  wake_tick = 0;
  wake_reason = WakeReason.none;
  blocked_on = 0;
}

-- The TCB and the links of the slot `t`; `g_task_count` is a uint8_t.
unfoldable pub claim_slot : ℕ → ℕ → ℕ → ℕ → Kernel → Kernel
claim_slot t name prio affinity k = record k {
  tcb = update k.tcb t (fresh_tcb k.task_count name prio affinity (k.tcb t));
  next = update k.next t none;
  delay_next = update k.delay_next t none;
  task_count = (k.task_count + 1) % 256;
}

abbrev pub with_stack : ℕ → ℕ → Tcb → Tcb
with_stack stack size b = record b {
  stack_base = stack;
  stack_size = size;
  ustack_base = stack;
  ustack_size = size;
  kstack_base = 0;
  kstack_top = 0;
}

-- What `task_create` does with the slot that it has found.
unfoldable pub fill_slot :
    Image → Bool → ℕ → ℕ → ℕ → ℕ → ℕ → ℕ → ℕ → Option ℕ → Kernel → Option (Option ℕ × Kernel)
fill_slot image state name func arg prio stack stack_size affinity none k =
    some (none, critical_exit state k)
fill_slot image state name func arg prio stack stack_size affinity (some t) k = do
  let k1 = claim_slot t name prio affinity k
  let k2 = set_tcb t (with_stack stack stack_size (k1.tcb t)) k1
  let (sp, k3) = stack_init image (align16 ((stack + stack_size) % 2 ^ 64)) func arg false k2
  k4 ← sched_add_ready (some t) (set_tcb t (record (k3.tcb t) { sp = sp }) k3)
  some (some t, critical_exit state k4)

unfoldable pub task_create : Image → ℕ → ℕ → ℕ → ℕ → ℕ → ℕ → ℕ → Kernel → Option (Option ℕ × Kernel)
task_create image name func arg prio stack stack_size affinity k =
    if leb max_tasks k.task_count
    then some (none, k)
    else (let (state, k1) = critical_enter k in
        fill_slot image state name func arg prio stack stack_size affinity
          (find_slot max_tasks 0 k1.tcb) k1)

abbrev pub with_user_stacks : Image → ℕ → Tcb → Tcb
with_user_stacks image i b =
    let ustack = image.ustacks + i * user_ustack_size in
    let kstack = image.kstacks + i * user_kstack_size in
    record b {
      held_mutexes = 0;
      ustack_base = ustack;
      ustack_size = user_ustack_size;
      stack_base = ustack;
      stack_size = user_ustack_size;
      kstack_base = kstack;
      kstack_top = align16 (kstack + user_kstack_size);
    }

-- The same for `task_create_user`, with the stacks of the pool's slot `i`.
unfoldable pub fill_user_slot :
    Image → Bool → ℕ → ℕ → ℕ → ℕ → ℕ → ℕ → Option ℕ → Kernel → Option (Option ℕ × Kernel)
fill_user_slot image state name func arg prio affinity i none k =
    some
      (none, critical_exit state (record k { user_stack_used = update k.user_stack_used i false }))
fill_user_slot image state name func arg prio affinity i (some t) k = do
  let k1 = claim_slot t name prio affinity k
  let k2 = set_tcb t (with_user_stacks image i (k1.tcb t)) k1
  let (sp, k3) = stack_init image (k2.tcb t).kstack_top func arg true k2
  let top = align16 ((k3.tcb t).ustack_base + user_ustack_size)
  let k4 = record k3 { mem = update k3.mem (sp + 8 * 2) top }
  k5 ← sched_add_ready (some t) (set_tcb t (record (k4.tcb t) { sp = sp }) k4)
  some (some t, critical_exit state k5)

-- What it does with the stacks that it has found.
unfoldable pub take_stacks :
    Image → Bool → ℕ → ℕ → ℕ → ℕ → ℕ → Option ℕ → Kernel → Option (Option ℕ × Kernel)
take_stacks image state name func arg prio affinity none k = some (none, critical_exit state k)
take_stacks image state name func arg prio affinity (some i) k =
    let k1 = record k { user_stack_used = update k.user_stack_used i true } in
    fill_user_slot image state name func arg prio affinity i (find_slot max_tasks 0 k1.tcb) k1

unfoldable pub task_create_user : Image → ℕ → ℕ → ℕ → ℕ → ℕ → Kernel → Option (Option ℕ × Kernel)
task_create_user image name func arg prio affinity k =
    if leb max_tasks k.task_count
    then some (none, k)
    else (let (state, k1) = critical_enter k in
        take_stacks image state name func arg prio affinity
          (find_stack max_user_tasks 0 k1.user_stack_used) k1)

-- The idle tasks of the first `n` cores; the assertion that each is created stops the kernel.
abbrev pub create_idle : Image → ℕ → Kernel → Option Kernel
create_idle image zero k = some k
create_idle image (suc i) k = do
  k0 ← create_idle image i k
  (task, k1) ←
      task_create image (image.idle_name i) image.idle_func 0 0
        (image.idle_stacks + i * idle_stack_size) idle_stack_size (2 ^ i) k0
  t ← task
  k2 ← sched_remove_ready (some t) (record k1 { idle_tasks = update k1.idle_tasks i (some t) })
  some (set_state TaskState.ready t k2)

-- A TCB of zeros.
abbrev pub zero_tcb : Tcb
zero_tcb = record {
  sp = 0;
  id = 0;
  name = 0;
  kstack_base = 0;
  kstack_top = 0;
  ustack_base = 0;
  ustack_size = 0;
  priority = 0;
  base_priority = 0;
  state = TaskState.ready;
  affinity_mask = 0;
  wake_tick = 0;
  wake_reason = WakeReason.none;
  blocked_on = 0;
  held_mutexes = 0;
  stack_base = 0;
  stack_size = 0;
}

unfoldable pub task_init : Image → Kernel → Option Kernel
task_init image k =
    create_idle image num_cores
      (record k { tcb = λ t. zero_tcb; next = λ t. none; delay_next = λ t. none; task_count = 0 })
