-- ===== src/Rtos/Syscall.antt =====
-- daniertos/v3-smp/src/kernel/syscall.c: the kernel's side of a system call. A context is words of
-- memory, 8 bytes each; the synchronisation objects are found by their addresses. Console output
-- is left out.
pub mod Results
use djiang_oss_public.Prelude.{
  ℕ, zero, suc, ◌+◌, ◌-◌, ◌*◌, ◌/◌, ◌%◌, ◌^◌, Bool, true, false, Option, none, some, List, [], ◌∷◌,
  ◌==◌, if◌then◌else◌, ◌>>=◌, update,
}
use djiang_oss_public.Rtos.Types.{Kernel, Tcb, get_cpu}
use djiang_oss_public.Rtos.Sched.{sched_schedule}
use djiang_oss_public.Rtos.Delay.{tick_get}
use djiang_oss_public.Rtos.Waiting.{Outcome, returned, blocked}
use djiang_oss_public.Rtos.Semaphore.{Semaphore, sem_wait, sem_signal, sem_try_wait}
use djiang_oss_public.Rtos.Mutex.{Mutex, mutex_lock, mutex_unlock, mutex_try_lock}
use djiang_oss_public.Rtos.MsgQueue.{MsgQueue, queue_send, queue_receive}
use djiang_oss_public.Rtos.Task.{Image, task_delay_internal, task_exit}

-- The kernel and the objects that tasks share.
pub record World : Type 0 where
  pub kernel : Kernel
  pub semaphores : ℕ → Semaphore
  pub mutexes : ℕ → Mutex
  pub queues : ℕ → MsgQueue

-- The handler returns the stack pointer to go on with, or the call in it yields.
pub data Reply : Type 0 where
  resumes : ℕ → Reply
  yields : Reply

-- `ctx[i]`
abbrev pub reg : ℕ → ℕ → Kernel → ℕ
reg ctx i k = k.mem (ctx + 8 * i)

abbrev pub set_reg : ℕ → ℕ → ℕ → Kernel → Kernel
set_reg ctx i v k = record k { mem = update k.mem (ctx + 8 * i) v }

-- The byte at an address, and the word around it with another byte there.
abbrev pub byte_at : (ℕ → ℕ) → ℕ → ℕ
byte_at mem a = mem (a / 8 * 8) / 2 ^ (8 * (a % 8)) % 256

abbrev pub set_byte : (ℕ → ℕ) → ℕ → ℕ → ℕ → ℕ
set_byte mem a v =
    update mem (a / 8 * 8)
      (mem (a / 8 * 8) - byte_at mem a * 2 ^ (8 * (a % 8)) + v * 2 ^ (8 * (a % 8)))

abbrev pub read_bytes : ℕ → ℕ → (ℕ → ℕ) → List ℕ
read_bytes zero a mem = []
read_bytes (suc n) a mem = byte_at mem a ∷ read_bytes n (suc a) mem

abbrev pub write_bytes : List ℕ → ℕ → (ℕ → ℕ) → ℕ → ℕ
write_bytes [] a mem = mem
write_bytes (v ∷ vs) a mem = write_bytes vs (suc a) (set_byte mem a v)

abbrev pub flag : Outcome → ℕ
flag (returned true) = 1
flag (returned false) = 0
flag blocked = 0

-- `return (reg_t *)sched_schedule(ctx);`
abbrev pub reschedule : ℕ → World → Option (Reply × World)
reschedule ctx w = do
  (sp, k) ← sched_schedule ctx w.kernel
  some (resumes sp, record w { kernel = k })

-- The same behind a call that may block.
abbrev pub after_call : ℕ → Outcome → World → Option (Reply × World)
after_call ctx blocked w = some (yields, w)
after_call ctx (returned b) w = reschedule ctx w

-- `ctx[CTX_A0] = ret; return ctx;`
abbrev pub reply_with : ℕ → ℕ → World → Option (Reply × World)
reply_with ctx ret w = some (resumes ctx, record w { kernel = set_reg ctx 10 ret w.kernel })

unfoldable pub sys_sem_wait : ℕ → ℕ → ℕ → World → Option (Reply × World)
sys_sem_wait ctx a0 a1 w = do
  (o, s, k) ← sem_wait a0 (a1 % 2 ^ 32) (w.semaphores a0) w.kernel
  after_call ctx o (record w { kernel = k; semaphores = update w.semaphores a0 s })

unfoldable pub sys_sem_signal : ℕ → ℕ → World → Option (Reply × World)
sys_sem_signal ctx a0 w = do
  (s, k) ← sem_signal (w.semaphores a0) w.kernel
  reschedule ctx (record w { kernel = k; semaphores = update w.semaphores a0 s })

unfoldable pub sys_sem_trywait : ℕ → ℕ → World → Option (Reply × World)
sys_sem_trywait ctx a0 w = do
  (o, s, k) ← sem_try_wait a0 (w.semaphores a0) w.kernel
  reply_with ctx (flag o) (record w { kernel = k; semaphores = update w.semaphores a0 s })

unfoldable pub sys_mutex_lock : ℕ → ℕ → ℕ → World → Option (Reply × World)
sys_mutex_lock ctx a0 a1 w = do
  (o, m, k) ← mutex_lock a0 (a1 % 2 ^ 32) (w.mutexes a0) w.kernel
  after_call ctx o (record w { kernel = k; mutexes = update w.mutexes a0 m })

unfoldable pub sys_mutex_unlock : ℕ → ℕ → World → Option (Reply × World)
sys_mutex_unlock ctx a0 w = do
  (m, k) ← mutex_unlock (w.mutexes a0) w.kernel
  reschedule ctx (record w { kernel = k; mutexes = update w.mutexes a0 m })

unfoldable pub sys_mutex_trylock : ℕ → ℕ → World → Option (Reply × World)
sys_mutex_trylock ctx a0 w = do
  (o, m, k) ← mutex_try_lock a0 (w.mutexes a0) w.kernel
  reply_with ctx (flag o) (record w { kernel = k; mutexes = update w.mutexes a0 m })

unfoldable pub sys_queue_send : ℕ → ℕ → ℕ → ℕ → World → Option (Reply × World)
sys_queue_send ctx a0 a1 a2 w = do
  let item = read_bytes (w.queues a0).item_size a1 w.kernel.mem
  (o, q, k) ← queue_send a0 item (a2 % 2 ^ 32) (w.queues a0) w.kernel
  after_call ctx o (record w { kernel = k; queues = update w.queues a0 q })

abbrev pub deliver : ℕ → Option (List ℕ) → Kernel → Kernel
deliver a none k = k
deliver a (some item) k = record k { mem = write_bytes item a k.mem }

unfoldable pub sys_queue_recv : ℕ → ℕ → ℕ → ℕ → World → Option (Reply × World)
sys_queue_recv ctx a0 a1 a2 w = do
  (o, item, q, k) ← queue_receive a0 (a2 % 2 ^ 32) (w.queues a0) w.kernel
  after_call ctx o (record w { kernel = deliver a1 item k; queues = update w.queues a0 q })

unfoldable pub sys_delay : ℕ → ℕ → World → Option (Reply × World)
sys_delay ctx a0 w = do
  k ← task_delay_internal a0 w.kernel
  reschedule ctx (record w { kernel = k })

unfoldable pub sys_exit : Image → ℕ → World → Option (Reply × World)
sys_exit image ctx w = do k ← task_exit image w.kernel; reschedule ctx (record w { kernel = k })

abbrev pub task_id : Kernel → ℕ
task_id k = elim (get_cpu k).current_task [ some t ↦ (k.tcb t).id | none ↦ 0 ]

-- The cases that set `ret`; an unknown call returns -1.
abbrev pub simple_call : ℕ → ℕ → World → Option (Reply × World)
simple_call num ctx w =
    if num == 2
    then reply_with ctx (tick_get w.kernel) w
    else if num == 40
    then reply_with ctx 0 w
    else if num == 41
    then reply_with ctx 0 w
    else if num == 50
    then reply_with ctx (task_id w.kernel) w
    else reply_with ctx (2 ^ 64 - 1) w

-- The `switch` of `syscall_handler`.
unfoldable pub dispatch : Image → ℕ → ℕ → ℕ → ℕ → ℕ → World → Option (Reply × World)
dispatch image num ctx a0 a1 a2 w =
    if num == 0
    then reschedule ctx w
    else if num == 1
    then sys_delay ctx a0 w
    else if num == 3
    then sys_exit image ctx w
    else if num == 10
    then sys_sem_wait ctx a0 a1 w
    else if num == 11
    then sys_sem_signal ctx a0 w
    else if num == 12
    then sys_sem_trywait ctx a0 w
    else if num == 20
    then sys_mutex_lock ctx a0 a1 w
    else if num == 21
    then sys_mutex_unlock ctx a0 w
    else if num == 22
    then sys_mutex_trylock ctx a0 w
    else if num == 30
    then sys_queue_send ctx a0 a1 a2 w
    else if num == 31
    then sys_queue_recv ctx a0 a1 a2 w
    else simple_call num ctx w

unfoldable pub syscall_handler : Image → ℕ → World → Option (Reply × World)
syscall_handler image ctx w =
    let k = w.kernel in
    dispatch image (reg ctx 17 k) ctx (reg ctx 10 k) (reg ctx 11 k) (reg ctx 12 k)
      (record w { kernel = set_reg ctx 32 ((reg ctx 32 k + 4) % 2 ^ 64) k })
