-- ===== src/Rtos/Smp/Laws.antt =====
-- A request for a switch on another core, up to where that core sees it.
use djiang_oss_public.Prelude.{ℕ, ◌<◌, ◌≡◌, ◌≢◌, arith}
use djiang_oss_public.Rtos.Types.{Kernel, get_cpu, num_cores}
use djiang_oss_public.Rtos.Sched.{sched_request_switch}
use djiang_oss_public.Rtos.Smp.{smp_send_ipi, smp_clear_ipi, smp_request_reschedule, smp_handle_ipi}

-- The kernel, as the core `core` runs on it.
abbrev pub on_core : ℕ → Kernel → Kernel
on_core core k = record k { hart = core }

-- A request to another core that exists raises its software interrupt and its flag, and changes no
-- other core; when that core handles the interrupt, the interrupt is down, the core still owes the
-- switch, and no other core has changed.
smp_request_reschedule_lem :
    (target : ℕ) (k : Kernel)
    → target < num_cores
    → target ≢ k.hart
    → let k1 = smp_request_reschedule target k in
      let k2 = smp_handle_ipi (on_core target k1) in
      (k1.msip target ≡ 1)
      × ((k1.cpus target).need_reschedule ≡ 1)
      × ((c : ℕ) → target ≢ c → (k1.msip c ≡ k.msip c) × (k1.cpus c ≡ k.cpus c))
      × (k2.msip target ≡ 0)
      × ((get_cpu k2).need_reschedule ≡ 1)
      × ((c : ℕ) → target ≢ c → (k2.msip c ≡ k.msip c) × (k2.cpus c ≡ k.cpus c))
unfolding smp_request_reschedule smp_send_ipi smp_handle_ipi smp_clear_ipi sched_request_switch
smp_request_reschedule_lem target k lt ne = (
  ground arith,
  ground arith,
  (λ c nc. (ground arith, ground arith)),
  ground arith,
  ground arith,
  (λ c nc. (ground arith, ground arith)),
)
