-- ===== src/Tests/Sample.antt =====
-- A kernel with tasks in every state, and the lists that it holds.
use djiang_oss_public.Prelude.{
  ℕ, ◌<◌, ◌≢◌, refl, sym, subst, ◌∙◌, inl, inr, true, false, none, some, List, [], ◌∷◌, arith,
  NotIn, All, Distinct, Disjoint, update, eq_cases, ==_ne,
}
use djiang_oss_public.Rtos.Types.{Kernel, Tcb, Cpu, TaskState, WakeReason, SchedState, max_tasks}
use djiang_oss_public.Rtos.Links.Chain.{Chain}
use djiang_oss_public.Rtos.Ready.View.{Queues, Absent, Holds}
use djiang_oss_public.Rtos.WaitQueue.Laws.{Waits}
use djiang_oss_public.Rtos.Delay.Sleepers.{Sleeps}

abbrev pub task : ℕ → TaskState → ℕ → Tcb
task prio state wake = record {
  sp = 0x80010000;
  id = 0;
  name = 0x80020000;
  kstack_base = 0;
  kstack_top = 0;
  ustack_base = 0x80030000;
  ustack_size = 8192;
  priority = prio;
  base_priority = prio;
  state = state;
  affinity_mask = 3;
  wake_tick = wake;
  wake_reason = WakeReason.none;
  blocked_on = 0;
  held_mutexes = 0;
  stack_base = 0x80030000;
  stack_size = 8192;
}

-- 0 is idle, 1 runs, 2 and 3 are ready, 4, 5 and 6 are blocked, 7 is suspended; the other slots
-- are free.
abbrev pub tcbs : ℕ → Tcb
tcbs =
    update
      (update
        (update
          (update
            (update
              (update
                (update (update (λ t. task 0 TaskState.deleted 0) 0 (task 0 TaskState.ready 0)) 1
                  (task 1 TaskState.running 0))
                2 (task 2 TaskState.ready 0))
              3 (task 2 TaskState.ready 0))
            4 (task 3 TaskState.blocked 5))
          5 (task 2 TaskState.blocked 9))
        6 (task 1 TaskState.blocked 0))
      7 (task 1 TaskState.suspended 0)

abbrev pub cpu : Cpu
cpu = record {
  kernel_trap_sp = 0;
  user_sp_save = 0;
  user_tp_save = 0;
  hartid = 0;
  current_task = some 1;
  idle_task = none;
  irq_nesting = 0;
  need_reschedule = 0;
}

abbrev pub kernel : Kernel
kernel = record {
  tcb = tcbs;
  next = update (update (λ t. none) 2 (some 3)) 4 (some 6);
  delay_next = update (λ t. none) 4 (some 5);
  ready_queue = update (λ p. none) 2 (some 2);
  delay_list = some 4;
  task_count = 8;
  idle_tasks = λ c. some 0;
  tick_count = 4;
  sched_state = SchedState.running;
  cpus = λ c. cpu;
  hart = 0;
  mie = true;
  sched_lock = false;
  delay_lock = false;
  user_stack_used = λ i. false;
  pmpaddr2 = λ c. 0;
  msip = λ c. 0;
  address = λ t. 0x80001000;
  mem = λ a. 0;
}

abbrev pub queues : Queues
queues = update (λ p. []) 2 (2 ∷ 3 ∷ [])

-- What holds of the one queue that is not empty, and of the empty list, holds of all.
pub by_queue : (P : List ℕ → Type 0) → P (2 ∷ 3 ∷ []) → P [] → (p : ℕ) → P (queues p)
by_queue P a b p = elim (eq_cases 2 p) [
  | inl e ↦ subst (λ x. P (queues x)) e a
  | inr ne ↦ rw (==_ne 2 p ne) b
]

pub kernel-Holds : Holds kernel queues
kernel-Holds = record {
  chains = λ p lt. elim (eq_cases 2 p) [
    | inl e ↦
        subst (λ x. Chain kernel.next (kernel.ready_queue x) (queues x)) e (refl, (refl, refl))
    | inr ne ↦ rw (==_ne 2 p ne) refl
  ];
  beyond = λ p le. rw (==_ne 2 p (omega arith)) refl;
  apart = λ p r ne. elim (eq_cases 2 p) [
    | inl e ↦
        subst (λ x. Disjoint (queues x) (queues r)) e
          (rw (==_ne 2 r (λ f. ne (sym e ∙ f))) (tt, (tt, tt)))
    | inr np ↦ rw (==_ne 2 p np) tt
  ];
  distinct = by_queue Distinct (((λ e. omega arith), tt), (tt, tt)) tt;
  members = by_queue (All (λ t. t < max_tasks)) (omega arith, (omega arith, tt)) tt;
  placed = λ t lt. refl;
}

-- A task that is not 2 or 3 is in no queue.
pub absent : (t : ℕ) → t ≢ 2 → t ≢ 3 → Absent t queues
absent t n2 n3 = by_queue (NotIn t) (n2, (n3, tt)) tt

pub kernel-Waits : Waits kernel queues (some 4) (4 ∷ 6 ∷ [])
kernel-Waits = record {
  chain = (refl, (refl, refl));
  distinct = (((λ e. omega arith), tt), (tt, tt));
  members = (omega arith, (omega arith, tt));
  apart =
      by_queue (λ xs. Disjoint xs (4 ∷ 6 ∷ []))
        (
          ((λ e. omega arith), ((λ e. omega arith), tt)),
          (((λ e. omega arith), ((λ e. omega arith), tt)), tt),
        )
        tt;
}

pub nobody-Waits : Waits kernel queues none []
nobody-Waits = record {
  chain = refl;
  distinct = tt;
  members = tt;
  apart = by_queue (λ xs. Disjoint xs []) (tt, (tt, tt)) tt;
}

pub kernel-Sleeps : Sleeps kernel (4 ∷ 5 ∷ [])
kernel-Sleeps = record {
  chain = (refl, (refl, refl));
  distinct = (((λ e. omega arith), tt), (tt, tt));
  members = (omega arith, (omega arith, tt));
  timed = ((omega arith, tt), (tt, tt));
}
