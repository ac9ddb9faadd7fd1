-- ===== src/Rtos/Pmp.antt =====
-- daniertos/v3-smp/src/hal/pmp.c: the NAPOT encoding of a region and the entry that is rewritten
-- on a context switch. Registers are 64 bits wide.
use djiang_oss_public.Prelude.{
  ℕ, ◌+◌, ◌-◌, ◌/◌, ◌%◌, ◌^◌, Option, none, some, ◌==◌, if◌then◌else◌, ◌||◌, update,
}
use Prim.Native.Nat.{bit_or}
use djiang_oss_public.Rtos.Types.{Kernel}

-- `n |= n >> s`
abbrev smear : ℕ → ℕ → ℕ
smear s n = bit_or n (n / 2 ^ s)

unfoldable pub next_power_of_2 : ℕ → ℕ
next_power_of_2 n =
    if n == 0
    then 1
    else (smear 32 (smear 16 (smear 8 (smear 4 (smear 2 (smear 1 (n - 1)))))) + 1) % 2 ^ 64

-- The `- 1` wraps at a size below 8.
unfoldable pub pmp_napot_addr : ℕ → ℕ → ℕ
pmp_napot_addr base size =
    bit_or (base / 2 ^ 2) ((next_power_of_2 size / 2 ^ 3 + 2 ^ 64 - 1) % 2 ^ 64)

-- Entry 2 of the running core covers the user stack of the task, or nothing.
unfoldable pub pmp_update_task : Option ℕ → Kernel → Kernel
pmp_update_task none k = record k { pmpaddr2 = update k.pmpaddr2 k.hart 0 }
pmp_update_task (some t) k =
    let s = k.tcb t in
    let entry : ℕ =
      if s.ustack_base == 0 || s.ustack_size == 0
      then 0
      else pmp_napot_addr s.ustack_base s.ustack_size in
    record k { pmpaddr2 = update k.pmpaddr2 k.hart entry }
