-- ===== src/Tests/Scheduling.antt =====
-- The scheduler, the ready queues and the delay list of the sample kernel.
use djiang_oss_public.Prelude.{
  ℕ, Option, none, ◌≡◌, ◌≢◌, refl, true, false, some, [], ◌∷◌, arith, Disjoint,
}
use djiang_oss_public.Rtos.Types.{Kernel, get_cpu}
use djiang_oss_public.Rtos.Lock.{sched_acquire, sched_release}
use djiang_oss_public.Rtos.Links.{walk, append, remove}
use djiang_oss_public.Rtos.Ready.{sched_add_ready, sched_remove_ready, remove_from, remove_search}
use djiang_oss_public.Rtos.Pmp.{pmp_update_task}
use djiang_oss_public.Rtos.Sched.{
  select_below, select_in, allows, save_current, switch_to, task_get_idle_for_core, sched_schedule,
  select_next_task_for_core,
}
use djiang_oss_public.Rtos.Sched.Switch.{Switched, requeued, sched_schedule_lem}
use djiang_oss_public.Rtos.Delay.{delay_check_wakeups}
use djiang_oss_public.Rtos.Delay.Wake.{Woken}
use djiang_oss_public.Rtos.Delay.Tick.{delay_check_wakeups_lem}
use djiang_oss_public.Tests.Sample.{kernel, queues, by_queue, kernel-Holds, kernel-Sleeps, absent}

not_there : (t : ℕ) → t ≢ 2 → t ≢ 3 → (p : ℕ) → Disjoint (queues p) (t ∷ [])
not_there t n2 n3 =
    by_queue (λ xs. Disjoint xs (t ∷ []))
      (((λ e. n2 (sym_ℕ e)), tt), (((λ e. n3 (sym_ℕ e)), tt), tt)) tt
  where
    sym_ℕ : {a b : ℕ} → a ≡ b → b ≡ a
    sym_ℕ e = omega arith

sched_schedule_example :
    (t : ℕ) × (k' : Kernel) × (sched_schedule 0x80040000 kernel ≡ some ((k'.tcb t).sp, k'))
    × Switched 0x80040000 kernel (requeued (some 1) kernel.tcb queues) t k'
unfolding task_get_idle_for_core
sched_schedule_example =
    sched_schedule_lem 0x80040000 kernel queues 0 kernel-Holds refl
      (omega arith, λ e. absent 1 (λ x. omega arith) (λ x. omega arith)) refl

delay_check_wakeups_example :
    (k' : Kernel) × (delay_check_wakeups 5 kernel ≡ some k')
    × Woken kernel queues (4 ∷ []) (5 ∷ []) k'
    × (k'.sched_lock ≡ false)
    × (k'.delay_lock ≡ false)
    × (k'.mie ≡ true)
delay_check_wakeups_example =
    delay_check_wakeups_lem 5 (4 ∷ []) (5 ∷ []) kernel queues kernel-Holds kernel-Sleeps
      (omega arith, tt) (omega arith, tt) (not_there 4 (λ e. omega arith) (λ e. omega arith)) refl
      refl

-- Runs on the sample kernel.
picks_first_of_highest : select_next_task_for_core 0 kernel ≡ some (some 2)
unfolding select_next_task_for_core select_below select_in walk allows
picks_first_of_highest = refl

abbrev current_of : Option (ℕ × Kernel) → Option ℕ
current_of none = none
current_of (some (sp, k)) = (get_cpu k).current_task

switches_to_two : current_of (sched_schedule 0x80040000 kernel) ≡ some 2
unfolding sched_schedule sched_acquire sched_release save_current switch_to pmp_update_task
    select_next_task_for_core select_below select_in walk allows sched_add_ready sched_remove_ready
    remove_from remove_search append remove
switches_to_two = refl
