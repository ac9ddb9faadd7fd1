-- ===== src/Rtos/Smp.antt =====
-- daniertos/v3-smp/src/kernel/smp.c: the per-core data and the interrupts that cores send to each
-- other. `msip` holds the cores' software-interrupt registers. Messages on the console are left out.
pub mod Laws
use djiang_oss_public.Prelude.{ℕ, Option, none, some, leb, ◌==◌, not, if◌then◌else◌, update}
use djiang_oss_public.Rtos.Types.{Kernel, Cpu, get_cpu, num_cores}
use djiang_oss_public.Rtos.Sched.{set_cpu, sched_request_switch}

-- The fields that both initialisations write.
abbrev pub reset_cpu : ℕ → Cpu → Cpu
reset_cpu hartid c = record c {
  hartid = hartid;
  current_task = none;
  idle_task = none;
  irq_nesting = 0;
  need_reschedule = 0;
}

-- From here on the core's `tp` points at its own data.
unfoldable pub smp_init_ap : ℕ → Kernel → Kernel
smp_init_ap hartid k = record k {
  cpus = update k.cpus hartid (reset_cpu hartid (k.cpus hartid));
  hart = hartid;
}

unfoldable pub smp_init_bsp : Kernel → Kernel
smp_init_bsp k = record k { cpus = update k.cpus 0 (reset_cpu 0 (k.cpus 0)); hart = 0 }

unfoldable pub smp_send_ipi : ℕ → Kernel → Kernel
smp_send_ipi target k =
    if leb num_cores target then k else record k { msip = update k.msip target 1 }

unfoldable pub smp_clear_ipi : Kernel → Kernel
smp_clear_ipi k = record k { msip = update k.msip k.hart 0 }

unfoldable pub smp_request_reschedule : ℕ → Kernel → Kernel
smp_request_reschedule target k =
    if leb num_cores target
    then k
    else (let k1 = record k {
      cpus = update k.cpus target (record (k.cpus target) { need_reschedule = 1 });
    } in
        if not (target == k.hart) then smp_send_ipi target k1 else k1)

unfoldable pub smp_handle_ipi : Kernel → Kernel
smp_handle_ipi k =
    let k1 = smp_clear_ipi k in
    if not ((get_cpu k1).need_reschedule == 0)
    then sched_request_switch (set_cpu (record (get_cpu k1) { need_reschedule = 0 }) k1)
    else k1
