-- ===== src/Rtos/WaitQueue.antt =====
-- The wait queues of semaphores, mutexes and message queues: `waitqueue_add`, `waitqueue_pop` and
-- `waitqueue_remove`, which mutex.c, semaphore.c and queue.c of daniertos/v3-smp/src/kernel each
-- hold a copy of. They use the same `next` fields as the ready queues.
pub mod Laws
use djiang_oss_public.Prelude.{
  ℕ, Bool, true, false, Option, none, some, ltb, leb, not, update, ◌>>=◌,
}
use djiang_oss_public.Rtos.Types.{Kernel, Tcb, walk_fuel}
use djiang_oss_public.Rtos.Links.{Links, insert, pop, remove}

abbrev pub wait_links : Option ℕ → Kernel → Links
wait_links queue k = record { first = queue; next = k.next }

abbrev pub with_next : (ℕ → Option ℕ) → Kernel → Kernel
with_next n k = record k { next = n }

-- The walk goes on while `(*pp)->priority >= task->priority`.
abbrev pub outranked : (ℕ → Tcb) → ℕ → ℕ → Bool
outranked f t x = not (leb (f t).priority (f x).priority)

unfoldable pub waitqueue_add : Option ℕ → ℕ → Kernel → Option (Option ℕ × Kernel)
waitqueue_add queue t k = do
  l ← insert (outranked k.tcb t) walk_fuel t (wait_links queue k)
  some (l.first, with_next l.next k)

unfoldable pub waitqueue_pop : Option ℕ → Kernel → Option ℕ × Option ℕ × Kernel
waitqueue_pop queue k = let (t, l) = pop (wait_links queue k) in (t, l.first, with_next l.next k)

unfoldable pub waitqueue_remove : Option ℕ → ℕ → Kernel → Option (Option ℕ × Kernel)
waitqueue_remove queue t k = do
  (found, l) ← remove walk_fuel t (wait_links queue k)
  some (l.first, with_next l.next k)
