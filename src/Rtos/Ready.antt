-- ===== src/Rtos/Ready.antt =====
-- The ready queues of daniertos/v3-smp/src/kernel/scheduler.c: one list for each priority.
pub mod View
pub mod Add
pub mod Remove
use djiang_oss_public.Prelude.{
  ℕ, zero, suc, ◌+◌, ◌-◌, Bool, true, false, Option, none, some, ltb, leb, ◌==◌, ◌&&◌, not,
  if◌then◌else◌, update, ◌>>=◌,
}
use djiang_oss_public.Rtos.Types.{Kernel, Tcb, TaskState, max_priority, walk_fuel}
use djiang_oss_public.Rtos.Links.{Links, append, remove}

abbrev pub is_deleted : TaskState → Bool
is_deleted TaskState.deleted = true
is_deleted _ = false

-- The sanity check of `sched_add_ready` and `select_next_task_for_core`.
abbrev pub in_range : Kernel → ℕ → Bool
in_range k t = not (ltb (k.address t) 0x80000000) && not (ltb 0x90000000 (k.address t))

-- The queue of a priority: the highest one for a priority past the limit.
abbrev pub clamp : ℕ → ℕ
clamp prio = if leb max_priority prio then max_priority - 1 else prio

-- The queue at a priority, over the `next` fields.
abbrev pub queue_at : Kernel → ℕ → Links
queue_at k p = record { first = k.ready_queue p; next = k.next }

abbrev pub with_queue : Kernel → ℕ → Links → Kernel
with_queue k p l = record k { ready_queue = update k.ready_queue p l.first; next = l.next }

abbrev pub set_state : TaskState → ℕ → Kernel → Kernel
set_state s t k = record k { tcb = update k.tcb t (record (k.tcb t) { state = s }) }

-- A bad address is reported, and the core then halts: `none`.
unfoldable pub sched_add_ready : Option ℕ → Kernel → Option Kernel
sched_add_ready none k = some k
sched_add_ready (some t) k =
    if is_deleted (k.tcb t).state
    then some k
    else if in_range k t
    then (do
      let p = clamp (k.tcb t).priority
      l ← append (in_range k) walk_fuel t (queue_at k p)
      some (set_state TaskState.ready t (with_queue k p l)))
    else none

-- The loop over one queue.
unfoldable pub remove_from : ℕ → ℕ → Kernel → Option (Bool × Kernel)
remove_from p t k = do
  (found, l) ← remove walk_fuel t (queue_at k p)
  some (found, if found then with_queue k p l else k)

-- The loop over the queues from `p` on, `rounds` of them.
unfoldable pub remove_search : ℕ → ℕ → ℕ → Kernel → Option Kernel
remove_search zero p t k = some k
remove_search (suc rounds) p t k = do
  (found, k') ← remove_from p t k
  elim found [ true ↦ some k' | false ↦ remove_search rounds (suc p) t k' ]

unfoldable pub sched_remove_ready : Option ℕ → Kernel → Option Kernel
sched_remove_ready none k = some k
sched_remove_ready (some t) k = do
  (found, k') ← remove_from (clamp (k.tcb t).priority) t k
  elim found [ true ↦ some k' | false ↦ remove_search max_priority 0 t k' ]
