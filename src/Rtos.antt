-- ===== src/Rtos.antt =====
-- The kernel of danieRTOS v3 (daniertos/v3-smp).
pub mod Types
pub mod Links
pub mod Lock
pub mod Ready
pub mod Pmp
pub mod Sched
pub mod Block
pub mod WaitQueue
pub mod Delay
pub mod Waiting
pub mod Semaphore
pub mod Mutex
pub mod MsgQueue
pub mod Task
pub mod Smp
pub mod Syscall
pub mod Trap
