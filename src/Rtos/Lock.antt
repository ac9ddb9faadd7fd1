-- ===== src/Rtos/Lock.antt =====
-- spinlock.h and critical.c, as one core sees them: a lock that is taken already is spun on for
-- ever, which is the result `none`. Interrupts are one bit, saved and restored.
use djiang_oss_public.Prelude.{
  Bool, true, false, Option, none, some, ◌≡◌, refl, arith, if◌then◌else◌,
}
use djiang_oss_public.Rtos.Types.{Kernel}

unfoldable pub critical_enter : Kernel → Bool × Kernel
critical_enter k = (k.mie, record k { mie = false })

unfoldable pub critical_exit : Bool → Kernel → Kernel
critical_exit state k = record k { mie = if state then true else k.mie }

-- `spinlock_acquire(&g_sched_lock)` and `spinlock_release(&g_sched_lock)`
unfoldable pub sched_acquire : Kernel → Option Kernel
sched_acquire k = if k.sched_lock then none else some (record k { sched_lock = true })

unfoldable pub sched_release : Kernel → Kernel
sched_release k = record k { sched_lock = false }

-- `spinlock_lock_irqsave(&g_sched_lock)`
unfoldable pub sched_lock_irqsave : Kernel → Option (Bool × Kernel)
sched_lock_irqsave k =
    if k.sched_lock then none else some (k.mie, record k { mie = false; sched_lock = true })

unfoldable pub sched_unlock_irqrestore : Bool → Kernel → Kernel
sched_unlock_irqrestore state k = record k {
  sched_lock = false;
  mie = if state then true else k.mie;
}

-- The same for `g_delay_lock`.
unfoldable pub delay_lock_irqsave : Kernel → Option (Bool × Kernel)
delay_lock_irqsave k =
    if k.delay_lock then none else some (k.mie, record k { mie = false; delay_lock = true })

unfoldable pub delay_unlock_irqrestore : Bool → Kernel → Kernel
delay_unlock_irqrestore state k = record k {
  delay_lock = false;
  mie = if state then true else k.mie;
}

-- A free lock is taken.
pub sched_acquire_free :
    (k : Kernel) → k.sched_lock ≡ false → sched_acquire k ≡ some (record k { sched_lock = true })
unfolding sched_acquire
sched_acquire_free k e = ground arith

pub sched_lock_free :
    (k : Kernel)
    → k.sched_lock ≡ false
    → sched_lock_irqsave k ≡ some (k.mie, record k { mie = false; sched_lock = true })
unfolding sched_lock_irqsave
sched_lock_free k e = ground arith

pub delay_lock_free :
    (k : Kernel)
    → k.delay_lock ≡ false
    → delay_lock_irqsave k ≡ some (k.mie, record k { mie = false; delay_lock = true })
unfolding delay_lock_irqsave
delay_lock_free k e = ground arith

-- Leaving a critical section brings the interrupt bit back.
pub restore : (b : Bool) → (if b then true else false) ≡ b
restore true = refl
restore false = refl
