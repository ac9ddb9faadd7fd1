-- ===== src/Rtos/Semaphore/Bounds.antt =====
-- The count of a semaphore and its bounds.
use djiang_oss_public.Prelude.{ℕ, ◌≡◌, Bool, false, some, arith}
use djiang_oss_public.Prelude.Int.{◌+ℤ◌, ◌-ℤ◌}
use djiang_oss_public.Rtos.Types.{Kernel}
use djiang_oss_public.Rtos.Lock.{critical_enter}
use djiang_oss_public.Rtos.Waiting.{Outcome}
use djiang_oss_public.Rtos.Semaphore.{Semaphore, sem_block, sem_wait, sem_give, sem_signal}
use djiang_oss_public.Rtos.Semaphore.Laws.{InBounds}

sem_block-count :
    (obj timeout : ℕ) (state : Bool) (s s' : Semaphore) (k k' : Kernel) (o : Outcome)
    → sem_block obj timeout state s k ≡ some (o, s', k')
    → (s'.count ≡ s.count) × (s'.max_count ≡ s.max_count)
unfolding sem_block
sem_block-count obj timeout state s s' k k' o e = ground arith

-- If the count is between 0 and the maximum, it still is after any call of sem_wait that returns or
-- blocks.
sem_wait-InBounds :
    (obj timeout : ℕ) (s s' : Semaphore) (k k' : Kernel) (o : Outcome)
    → InBounds s
    → sem_wait obj timeout s k ≡ some (o, s', k')
    → InBounds s'
unfolding sem_wait critical_enter ◌-ℤ◌
sem_wait-InBounds obj timeout s s' k k' o b e =
    ground (arith, sem_block-count obj timeout k.mie s s' (record k { mie = false }) k' o)

-- So does signalling.
sem_signal-InBounds :
    (s s' : Semaphore) (k k' : Kernel) → InBounds s → sem_signal s k ≡ some (s', k') → InBounds s'
unfolding sem_signal sem_give critical_enter ◌+ℤ◌
sem_signal-InBounds s s' k k' b e = ground arith
