-- ===== src/Lib.antt =====
-- Verification of danieRTOS and of the djlc containers.
--
-- danieRTOS (daniertos/v3-smp) is a small multi-core kernel for RISC-V; djlc (djlc/include) is a
-- library of containers and algorithms in C headers. This library translates the kernel's core and
-- several of the headers into functions, and proves what they do on every branch that the theorems
-- name.
--
-- The kernel (Rtos). Its state is one record, Kernel of Rtos/Types.antt: the pool of TCBs
-- (g_tasks, a `tcb_t *` being an index into it), their two link fields as columns, the ready
-- queues, the delay list, the per-core data (g_cpus), the tick count, the spinlocks and the
-- interrupt bit, the PMP entry and software interrupt of each core, and memory. An operation is a
-- function of that record with the source's name; a result `none` is a dereference of NULL, a
-- corrupted list, an assertion that fails, or a spinlock that is never released.
--   Rtos/Links      pointer-to-pointer walks over linked lists, as all lists of the kernel use them
--   Rtos/Lock       critical.c and spinlock.h
--   Rtos/Ready      sched_add_ready and sched_remove_ready of src/kernel/scheduler.c
--   Rtos/Sched      the other functions of scheduler.c
--   Rtos/Pmp        pmp_update_task of src/hal/pmp.c
--   Rtos/Block      task_make_ready and task_block of src/kernel/task.c
--   Rtos/WaitQueue  waitqueue_add, waitqueue_pop, waitqueue_remove (one copy each in mutex.c,
--                   semaphore.c and queue.c)
--   Rtos/Delay      delay.c and tick.c
--   Rtos/Waiting    what sem_wait, mutex_lock, queue_send and queue_receive share
--   Rtos/Semaphore, Rtos/Mutex, Rtos/MsgQueue   semaphore.c, mutex.c, queue.c
--   Rtos/Task       the rest of task.c
--   Rtos/Smp        smp.c
--   Rtos/Syscall, Rtos/Trap   syscall.c and src/trap.c, which call all of the above
-- The scheduler's lists and the wait queues share the TCBs' `next` fields, so each theorem says
-- which lists hold which tasks: Holds for the ready queues, Waits for a wait queue, Sleeps for the
-- delay list, each a relation between the link fields and lists of tasks without repetition.
--
-- The headers (Djlc), each with its functions' names, less the prefix `djlc_`. Arrays are functions
-- of the index, or the list of their elements where the code walks along them.
--   Djlc/Cbuf        circular_buffer.h with its moving average
--   Djlc/Deque       deque.h; both, and the message queue, are seen as lists through Rings.antt
--   Djlc/LinkedList  linked_list.h: nodes on a heap that is a function of the address, in a small
--                    monad over it; Cells.antt relates the heap to the list that it stands for
--   Djlc/UnionFind   union_find.h; Forest.antt has the trees, Counts.antt counts elements
--   Djlc/HashMap     hashmap_int.h, with its hash function
--   Djlc/Heap        heap.h: the array with a free cell that a value bubbles into
--   Djlc/ModMath     mod_math.h over integers with checks for overflow
--   Djlc/Interval    interval.h
--
-- Bounds and fuel. The default configuration: 16 tasks, 4 priorities, 2 cores. A list of distinct
-- tasks has at most 16 nodes, and every walk has fuel for 17 steps. Integers that can wrap in a
-- run (the tick count, sizes, counts of 8, 32 and 64 bits) are written with their modulus. A loop
-- over a linked list takes fuel for its nodes and one round more; the search in a union-find
-- structure takes as many rounds as there are elements, since the rank grows on each step; a hash
-- map is probed as often as it has entries; a power takes one round more than its exponent, and a
-- binary search one more than there are elements. Bubbling in a heap takes a round for each index
-- that is left and one more. Index arithmetic, differences, products and new capacities in signed
-- integers are tested where they can leave their type, and are `none` outside; counts of nodes and
-- elements are not tested, a structure of 2^31 elements being out of the model.
--
-- Not modelled. Interleavings of several cores: the functions are runs of one core, with
-- interrupts off where the source turns them off. A call that blocks is two functions, up to the
-- trap of task_yield and from there on. Console output, device registers, assembler, linker
-- scripts, the user-side library, the earlier versions of the kernel, the other headers of djlc,
-- its functions that print or compute with doubles, and negative moduli. Whether an allocation
-- succeeds, what fresh memory holds and where the linker puts things are arguments, and so is the C
-- library's `qsort`, which is applied to the source's comparison.
pub mod Counts
pub mod Djlc
pub mod Prelude
pub mod Rings
pub mod Rtos
pub mod Tests
