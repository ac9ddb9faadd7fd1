-- ===== src/Rtos/Syscall/Results.antt =====
-- What a system call leaves in the caller's result register.
use djiang_oss_public.Prelude.{
  ℕ, ◌+◌, ◌*◌, ◌%◌, ◌^◌, ◌≡◌, ◌≢◌, refl, ap, ◌∙◌, true, false, some, arith, >>=-some, update,
  update-ne, update_self,
}
use djiang_oss_public.Prelude.Int.{pos, ◌-ℤ◌, ◌<ℤ◌}
use djiang_oss_public.Rtos.Types.{Kernel, get_cpu}
use djiang_oss_public.Rtos.Lock.{critical_enter, critical_exit}
use djiang_oss_public.Rtos.Ready.View.{Queues, Holds, Holds-same}
use djiang_oss_public.Rtos.Sched.{task_get_idle_for_core}
use djiang_oss_public.Rtos.Sched.Switch.{CurrentFits, sched_schedule_lem}
use djiang_oss_public.Rtos.Waiting.{returned}
use djiang_oss_public.Rtos.Semaphore.{Semaphore, sem_wait}
use djiang_oss_public.Rtos.Task.{Image}
use djiang_oss_public.Rtos.Syscall.{
  World, resumes, reg, set_reg, sys_sem_wait, dispatch, syscall_handler,
}

sem_wait_fast :
    (obj timeout : ℕ) (s : Semaphore) (k : Kernel)
    → pos 0 <ℤ s.count
    → sem_wait obj timeout s k
      ≡ some (
        returned true,
        record s { count = s.count -ℤ pos 1 },
        critical_exit k.mie (record k { mie = false }),
      )
unfolding sem_wait critical_enter
sem_wait_fast obj timeout s k lt = ground arith

-- The kernel that the dispatcher works on: the context's mepc is behind the `ecall`.
advanced : ℕ → Kernel → Kernel
advanced ctx k = set_reg ctx 32 ((reg ctx 32 k + 4) % 2 ^ 64) k

handler_sem_wait :
    (image : Image) (ctx : ℕ) (w : World)
    → reg ctx 17 w.kernel ≡ 10
    → syscall_handler image ctx w
      ≡ sys_sem_wait ctx
          (reg ctx 10 w.kernel)
          (reg ctx 11 w.kernel)
          (record w { kernel = advanced ctx w.kernel })
unfolding syscall_handler dispatch advanced
handler_sem_wait image ctx w e = rw e refl

advanced-reg : (ctx i : ℕ) (k : Kernel) → i ≢ 32 → reg ctx i (advanced ctx k) ≡ reg ctx i k
unfolding advanced
advanced-reg ctx i k ne = update-ne k.mem (ctx + 8 * 32) (ctx + 8 * i) _ (λ e. ne (omega arith))

-- The system call SYS_SEM_WAIT on a semaphore with a positive count, under the conditions under
-- which the scheduler returns: the handler returns, the count is one less, the saved mepc is 4
-- further (modulo 2^64), and the caller's a0 still holds the semaphore's address, not the result of
-- the wait.
pub syscall-sem_wait :
    (image : Image) (ctx i : ℕ) (w : World) (q : Queues)
    → reg ctx 17 w.kernel ≡ 10
    → pos 0 <ℤ (w.semaphores (reg ctx 10 w.kernel)).count
    → Holds w.kernel q
    → w.kernel.sched_lock ≡ false
    → CurrentFits (get_cpu w.kernel).current_task w.kernel.tcb q
    → task_get_idle_for_core (get_cpu w.kernel).hartid w.kernel ≡ some i
    → let obj = reg ctx 10 w.kernel in
      (sp : ℕ) × (w' : World) × (syscall_handler image ctx w ≡ some (resumes sp, w'))
      × ((w'.semaphores obj).count ≡ (w.semaphores obj).count -ℤ pos 1)
      × (reg ctx 32 w'.kernel ≡ (reg ctx 32 w.kernel + 4) % 2 ^ 64)
      × (reg ctx 10 w'.kernel ≡ obj)
unfolding sys_sem_wait critical_exit task_get_idle_for_core advanced
syscall-sem_wait image ctx i w q num lt h free fits idle =
    let obj = reg ctx 10 w.kernel in
    let k1 = advanced ctx w.kernel in
    let k2 = critical_exit k1.mie (record k1 { mie = false }) in
    let s = w.semaphores obj in
    let (t, k3, e, m) =
      sched_schedule_lem ctx k2 q i (Holds-same h refl refl refl) free fits idle in
    (
      (k3.tcb t).sp,
      record w {
        kernel = k3;
        semaphores = update w.semaphores obj (record s { count = s.count -ℤ pos 1 });
      },
      handler_sem_wait image ctx w num
          ∙ >>=-some _ (sem_wait_fast obj (reg ctx 11 w.kernel % 2 ^ 32) s k1 lt)
              (>>=-some _ e refl),
      ap (λ (x : Semaphore). x.count) (update_self w.semaphores obj _),
      ap (λ (f : ℕ → ℕ). f (ctx + 8 * 32)) m.memory ∙ update_self w.kernel.mem (ctx + 8 * 32) _,
      ap (λ (f : ℕ → ℕ). f (ctx + 8 * 10)) m.memory
          ∙ advanced-reg ctx 10 w.kernel (λ x. omega arith),
    )
