-- ===== src/Rtos/Task/Slots.antt =====
-- Slots of the pool for new tasks.
use djiang_oss_public.Prelude.{
  ℕ, zero, suc, ◌+◌, ◌%◌, ◌^◌, ◌<◌, ◌≤◌, ◌≡◌, ◌≢◌, ◌-◌, ◌*◌, ◌/◌, ◌||◌, ◌⊎◌, Bool-cases, refl, sym,
  subst, ap, ◌∙◌, inl, inr, Bool, true, false, none, some, arith, eq_cases, leb, >>=-some,
}
use djiang_oss_public.Rtos.Types.{Kernel, Tcb, TaskState, max_tasks}
use djiang_oss_public.Rtos.Lock.{restore, critical_enter, critical_exit}
use djiang_oss_public.Rtos.Links.Chain.{Segment-update}
use djiang_oss_public.Rtos.Ready.{clamp, set_state, is_deleted}
use djiang_oss_public.Rtos.Ready.View.{Queues, Absent, Holds, Holds-same, Web, rewired}
use djiang_oss_public.Rtos.Ready.Add.{enqueue, sched_add_ready_lem}
use djiang_oss_public.Rtos.Block.{set_tcb}
use djiang_oss_public.Rtos.Task.{Image, task_delete, is_current}
use djiang_oss_public.Rtos.Task.Laws.{task_delete_lem}
use djiang_oss_public.Rtos.Task.Context.{IsContext, stack_init_lem}
use djiang_oss_public.Rtos.Task.Create.{
  is_free, find_slot, claim_slot, fill_slot, task_create, task_create_user, with_stack, affinity_of,
  stack_init, align16,
}

-- Nobody uses a slot whose task is deleted, or that has neither a stack nor a name.
abbrev pub IsFree : Tcb → Type 0
IsFree b = (b.state ≡ TaskState.deleted) ⊎ ((b.stack_base ≡ 0) × (b.name ≡ 0))

deleted_of : (s : TaskState) → is_deleted s ≡ true → s ≡ TaskState.deleted
deleted_of TaskState.ready e = cc
deleted_of TaskState.running e = cc
deleted_of TaskState.blocked e = cc
deleted_of TaskState.suspended e = cc
deleted_of TaskState.deleted e = refl

is_free-true : (b : Tcb) → IsFree b → is_free b ≡ true
is_free-true b (inl e) = rw e refl
is_free-true b (inr (none_at, unnamed)) = rw (none_at, unnamed) (or_true (is_deleted b.state))
  where
    or_true : (a : Bool) → (a || true) ≡ true
    or_true true = refl
    or_true false = refl

is_free-false : (b : Tcb) → ¬ IsFree b → is_free b ≡ false
is_free-false b ne = elim (Bool-cases (is_free b)) [
  | inl e ↦ absurd (
      ne (elim (Bool-cases (is_deleted b.state)) [
        | inl d ↦ inl (deleted_of b.state d)
        | inr d ↦ inr (ground arith, ground arith)
      ]))
  | inr e ↦ e
]

-- The search finds the first free slot.
find_slot_first :
    (rounds i t : ℕ) (f : ℕ → Tcb)
    → i ≤ t
    → t < i + rounds
    → IsFree (f t)
    → ((j : ℕ) → i ≤ j → j < t → ¬ IsFree (f j))
    → find_slot rounds i f ≡ some t
unfolding find_slot
find_slot_first zero i t f le lt e before = absurd (omega arith)
find_slot_first (suc rounds) i t f le lt e before = elim (eq_cases i t) [
  | inl same ↦ rw (ap (λ j. is_free (f j)) same ∙ is_free-true (f t) e) (ap some same)
  | inr ne ↦ rw (is_free-false (f i) (before i (omega arith) (omega arith))) (
      find_slot_first rounds (suc i) t f (omega arith) (omega arith) e
        (λ j ge lt'. before j (omega arith) lt'))
]

-- Once 16 slots have been handed out, deleting a task makes it DELETED, but neither task_create nor
-- task_create_user can create another one: both return NULL and change nothing.
pub task_delete-exhausted :
    (image : Image) (t name func arg prio stack size affinity : ℕ) (k : Kernel) (q : Queues)
    → Holds k q
    → max_tasks ≤ k.task_count
    → (k' : Kernel) × (task_delete (some t) k ≡ some (is_current t k, k'))
      × ((k'.tcb t).state ≡ TaskState.deleted)
      × (task_create image name func arg prio stack size affinity k' ≡ some (none, k'))
      × (task_create_user image name func arg prio affinity k' ≡ some (none, k'))
unfolding task_create task_create_user
task_delete-exhausted image t name func arg prio stack size affinity k q h le =
    let (k', e, v) = task_delete_lem t k q h in
    let full : leb max_tasks k'.task_count ≡ true =
      leb_of (subst (λ n. max_tasks ≤ n) (sym v.slots) le) in
    (k', e, ap (λ (b : Tcb). b.state) v.state, rw full refl, rw full refl)
  where
    leb_of : {n : ℕ} → max_tasks ≤ n → leb max_tasks n ≡ true
    leb_of h = ground arith

module _ (k : Kernel) (q : Queues) (t name prio affinity : ℕ) (h : Holds k q)
    (out : Absent t q) where
  claim_slot-Holds : Holds (claim_slot t name prio affinity k) q
  unfolding claim_slot
  claim_slot-Holds = record {
    chains =
        λ p lt. Segment-update k.next t none (k.ready_queue p) none (q p) (out p) (h.chains p lt);
    beyond = h.beyond;
    apart = h.apart;
    distinct = h.distinct;
    members = h.members;
    placed = h.placed;
  }

  -- The kernel when the new task is filed.
  prepared : Image → ℕ → ℕ → ℕ → ℕ → Kernel
  prepared image func arg stack size =
      let k1 = claim_slot t name prio affinity k in
      let k2 = set_tcb t (with_stack stack size (k1.tcb t)) k1 in
      let (sp, k3) = stack_init image (align16 ((stack + size) % 2 ^ 64)) func arg false k2 in
      set_tcb t (record (k3.tcb t) { sp = sp }) k3

  module _ (image : Image) (func arg stack size : ℕ) where
    prepared-Holds : Holds (prepared image func arg stack size) q
    unfolding prepared stack_init claim_slot
    prepared-Holds = Holds-same claim_slot-Holds refl refl refl

    filled :
        (prepared image func arg stack size).tcb t
        ≡ record (with_stack stack size ((claim_slot t name prio affinity k).tcb t)) {
          sp = ((prepared image func arg stack size).tcb t).sp;
        }
    unfolding prepared stack_init claim_slot
    filled = ground arith

    live : ((prepared image func arg stack size).tcb t).state ≡ TaskState.ready
    unfolding prepared stack_init claim_slot
    live = ground arith

    filed_priority : ((prepared image func arg stack size).tcb t).priority ≡ prio
    unfolding prepared stack_init claim_slot
    filed_priority = ground arith

    -- What `task_create` makes of the slot.
    fill_slot_lem :
        (state : Bool)
        → t < max_tasks
        → (w : Web) × (fill_slot image state name func arg prio stack size affinity (some t) k
            ≡ some (
              some t,
              critical_exit state
                  (set_state TaskState.ready t (rewired (prepared image func arg stack size) w)),
            ))
          × Holds (rewired (prepared image func arg stack size) w) (enqueue q (clamp prio) t)
    unfolding fill_slot prepared
    fill_slot_lem state lt =
        let (w, e, m) =
          sched_add_ready_lem (prepared image func arg stack size) q t prepared-Holds lt out
            (ap is_deleted live) in
        (
          w,
          >>=-some _ e refl,
          subst
              (λ p. Holds (rewired (prepared image func arg stack size) w) (enqueue q (clamp p) t))
              filed_priority m.holds,
        )

create_start :
    (image : Image) (name func arg prio stack size affinity t : ℕ) (k : Kernel)
    → k.task_count < max_tasks
    → find_slot max_tasks 0 k.tcb ≡ some t
    → task_create image name func arg prio stack size affinity k
      ≡ fill_slot image k.mie name func arg prio stack size affinity
          (some t)
          (record k { mie = false })
unfolding task_create critical_enter
create_start image name func arg prio stack size affinity t k lt found =
    rw (fits k.task_count lt, found) refl
  where
    fits : (n : ℕ) → n < max_tasks → leb max_tasks n ≡ false
    fits n h = ground arith

-- The top of a stack, aligned to 16 bytes, and the address of the 34 words of a context below it.
abbrev pub top_of : ℕ → ℕ → ℕ
top_of stack size = (stack + size) % 2 ^ 64 / 16 * 16

abbrev pub first_sp : ℕ → ℕ
first_sp top = (2 ^ 64 + top - 272) % 2 ^ 64

-- With fewer than 16 slots handed out, a slot of the pool that is free (its task is deleted, or it
-- has neither a stack nor a name), no free one before it, and its task in no ready queue:
-- task_create returns that slot; the task is ready at the end of the queue of its priority, with
-- its base priority, affinity (0 standing for any core), name, stack, and the count as its id; the
-- saved stack pointer is 272 bytes below the stack's top aligned to 16 bytes, and the 34 words
-- there are the first context (the exit handler as return address, the top as stack pointer, the
-- argument, the entry point, the status of machine mode, and zeros), while all other memory is as
-- before; no other TCB changes, the count goes up by one, and the interrupt bit is as before.
pub task_create_lem :
    (image : Image) (name func arg prio stack size affinity t : ℕ) (k : Kernel) (q : Queues)
    → Holds k q
    → k.task_count < max_tasks
    → t < max_tasks
    → IsFree (k.tcb t)
    → ((j : ℕ) → j < t → ¬ IsFree (k.tcb j))
    → Absent t q
    → (k' : Kernel) × (task_create image name func arg prio stack size affinity k
        ≡ some (some t, k'))
      × Holds k' (enqueue q (clamp prio) t)
      × ((k'.tcb t).state ≡ TaskState.ready)
      × ((k'.tcb t).priority ≡ prio)
      × ((k'.tcb t).base_priority ≡ prio)
      × ((k'.tcb t).affinity_mask ≡ affinity_of affinity)
      × ((k'.tcb t).id ≡ k.task_count)
      × ((k'.tcb t).name ≡ name)
      × ((k'.tcb t).stack_base ≡ stack)
      × ((k'.tcb t).stack_size ≡ size)
      × ((k'.tcb t).sp ≡ first_sp (top_of stack size))
      × IsContext image func arg (top_of stack size) (first_sp (top_of stack size)) k.mem k'.mem
      × ((x : ℕ) → t ≢ x → k'.tcb x ≡ k.tcb x)
      × (k'.task_count ≡ k.task_count + 1)
      × (k'.mie ≡ k.mie)
unfolding prepared claim_slot stack_init critical_exit
task_create_lem image name func arg prio stack size affinity t k q h lt tlt free before out =
    let k1 = record k { mie = false } in
    let found = find_slot_first max_tasks 0 t k.tcb (omega arith) tlt free (λ j ge. before j) in
    let h1 : Holds k1 q = Holds-same h refl refl refl in
    let (w, e, h') =
      fill_slot_lem k1 q t name prio affinity h1 out image func arg stack size k.mie tlt in
    (
      critical_exit k.mie (
          set_state TaskState.ready t
            (rewired (prepared k1 q t name prio affinity h1 out image func arg stack size) w)),
      create_start image name func arg prio stack size affinity t k lt found ∙ e,
      Holds-same h' refl refl refl,
      (ground arith),
      (ground arith),
      (ground arith),
      (ground arith),
      (ground arith),
      (ground arith),
      (ground arith),
      (ground arith),
      (ground arith),
      stack_init_lem image (top_of stack size) func arg k,
      (λ x ne. ground arith),
      omega arith,
      restore k.mie,
    )
