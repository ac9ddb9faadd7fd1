-- ===== src/Rtos/Delay.antt =====
-- Sleeping tasks and the tick: daniertos/v3-smp/src/kernel/delay.c and tick.c. The sleepers form a
-- list over the `delay_next` fields, the earliest wake-up first. `task_yield` asks for a switch and
-- traps; the trap is a step of its own (`Trap`).
pub mod Sleepers
pub mod Wake
pub mod Tick
use djiang_oss_public.Prelude.{
  ℕ, zero, suc, ◌+◌, ◌-◌, ◌*◌, ◌/◌, ◌%◌, ◌^◌, Bool, true, false, Option, none, some, leb, not, ◌==◌,
  if◌then◌else◌, ◌>>=◌,
}
use djiang_oss_public.Rtos.Types.{Kernel, Tcb, WakeReason, get_cpu, walk_fuel}
use djiang_oss_public.Rtos.Lock.{delay_lock_irqsave, delay_unlock_irqrestore}
use djiang_oss_public.Rtos.Links.{Links, insert, remove, pop}
use djiang_oss_public.Rtos.Sched.{sched_request_switch}
use djiang_oss_public.Rtos.Block.{set_tcb, task_make_ready, task_block}

abbrev pub delay_links : Kernel → Links
delay_links k = record { first = k.delay_list; next = k.delay_next }

abbrev pub with_delays : Links → Kernel → Kernel
with_delays l k = record k { delay_list = l.first; delay_next = l.next }

-- The walk goes on while `(*pp)->wake_tick <= wake_tick`.
abbrev pub sleeps_past : (ℕ → Tcb) → ℕ → ℕ → Bool
sleeps_past f wake_tick x = not (leb (f x).wake_tick wake_tick)

unfoldable pub delay_add_locked : ℕ → ℕ → Kernel → Option Kernel
delay_add_locked t wake_tick k = do
  let k1 = set_tcb t (record (k.tcb t) { wake_tick = wake_tick; wake_reason = WakeReason.none }) k
  l ← insert (sleeps_past k1.tcb wake_tick) walk_fuel t (delay_links k1)
  some (with_delays l k1)

unfoldable pub delay_add : ℕ → ℕ → Kernel → Option Kernel
delay_add t wake_tick k = do
  (state, k1) ← delay_lock_irqsave k
  k2 ← delay_add_locked t wake_tick k1
  some (delay_unlock_irqrestore state k2)

unfoldable pub delay_remove : ℕ → Kernel → Option Kernel
delay_remove t k = do
  (state, k1) ← delay_lock_irqsave k
  (found, l) ← remove walk_fuel t (delay_links k1)
  some (delay_unlock_irqrestore state (with_delays l k1))

-- The head of the list goes, with its reason for waking.
unfoldable pub take_sleeper : ℕ → Kernel → Kernel
take_sleeper t k =
    set_tcb t (record (k.tcb t) { wake_reason = WakeReason.timeout })
      (with_delays (pop (delay_links k)).1 k)

-- The loop of `delay_check_wakeups`, which lets go of the lock for each task that it wakes.
unfoldable pub wake_loop : ℕ → ℕ → Bool → Kernel → Option (Bool × Kernel)
wake_loop zero now state k = none
wake_loop (suc fuel) now state k = elim k.delay_list [
  | none ↦ some (state, k)
  | some t ↦ elim (leb (k.tcb t).wake_tick now) [
    | false ↦ some (state, k)
    | true ↦ task_make_ready t (delay_unlock_irqrestore state (take_sleeper t k)) >>= λ k'.
        delay_lock_irqsave k' >>= λ (state', k''). wake_loop fuel now state' k''
  ]
]

unfoldable pub delay_check_wakeups : ℕ → Kernel → Option Kernel
delay_check_wakeups current_tick k = do
  (state, k1) ← delay_lock_irqsave k
  (state', k2) ← wake_loop walk_fuel current_tick state k1
  some (delay_unlock_irqrestore state' k2)

unfoldable pub tick_init : Kernel → Kernel
tick_init k = record k { tick_count = 0 }

-- tick_t is a uint64_t.
unfoldable pub tick_get : Kernel → ℕ
tick_get k = k.tick_count

unfoldable pub tick_from_ms : ℕ → ℕ
tick_from_ms ms = ms * 1000 % 2 ^ 64 / 1000

unfoldable pub tick_to_ms : ℕ → ℕ
tick_to_ms ticks = ticks * 1000 % 2 ^ 64 / 1000 % 2 ^ 32

unfoldable pub tick_increment : Kernel → Option Kernel
tick_increment k = do
  let k1 = record k { tick_count = (k.tick_count + 1) % 2 ^ 64 }
  k2 ← delay_check_wakeups k1.tick_count k1
  some (sched_request_switch k2)

unfoldable pub delay_ticks : ℕ → Kernel → Option Kernel
delay_ticks ticks k = if ticks == 0 then some (sched_request_switch k) else (do
  (state, k1) ← delay_lock_irqsave k
  current ← (get_cpu k1).current_task
  k2 ← delay_add_locked current ((tick_get k1 + ticks) % 2 ^ 64) k1
  k3 ← task_block current 0 k2
  some (sched_request_switch (delay_unlock_irqrestore state k3)))

unfoldable pub delay_ms : ℕ → Kernel → Option Kernel
delay_ms ms k = delay_ticks (tick_from_ms ms) k

unfoldable pub delay_until : ℕ → Kernel → Option Kernel
delay_until wake_tick k =
    if leb wake_tick (tick_get k) then some k else delay_ticks (wake_tick - tick_get k) k
