-- ===== src/Rtos/Task/Laws.antt =====
-- Suspending, resuming, deleting and re-grading tasks.
use djiang_oss_public.Prelude.{
  ℕ, ◌<◌, ◌≡◌, ◌≢◌, refl, subst, ap, ◌∙◌, Bool, true, false, some, arith, update_self, update-ne,
  >>=-some,
}
use djiang_oss_public.Rtos.Types.{Kernel, Tcb, TaskState, max_tasks}
use djiang_oss_public.Rtos.Lock.{restore, critical_enter, critical_exit}
use djiang_oss_public.Rtos.Ready.{clamp, set_state, is_deleted, sched_remove_ready}
use djiang_oss_public.Rtos.Ready.View.{Queues, Absent, Holds, Holds-same, Web, rewired}
use djiang_oss_public.Rtos.Ready.Add.{enqueue, sched_add_ready_lem}
use djiang_oss_public.Rtos.Ready.Remove.{dequeue, sched_remove_ready_lem, Absent-dequeue}
use djiang_oss_public.Rtos.Sched.{sched_request_switch}
use djiang_oss_public.Rtos.Block.{set_tcb}
use djiang_oss_public.Rtos.Block.Laws.{woken, task_make_ready_lem}
use djiang_oss_public.Rtos.Task.{
  yield_if, is_current, is_suspended, is_ready_state, graded, refile, task_delete, task_suspend,
  task_resume, task_set_priority,
}

-- What stopping a task leaves: it has left the ready queues, its state is `s`, and neither another
-- TCB nor the delay list nor the interrupt bit has changed.
pub record Stopped (s : TaskState) (t : ℕ) (k : Kernel) (q : Queues) (k' : Kernel) : Type 0 where
  pub holds : Holds k' (dequeue t q)
  pub state : k'.tcb t ≡ record (k.tcb t) { state = s }
  pub others : (x : ℕ) → t ≢ x → k'.tcb x ≡ k.tcb x
  pub sleepers : (k'.delay_list ≡ k.delay_list) × (k'.delay_next ≡ k.delay_next)
  pub locks : (k'.sched_lock ≡ k.sched_lock) × (k'.delay_lock ≡ k.delay_lock)
  pub interrupts : k'.mie ≡ k.mie
  pub slots : k'.task_count ≡ k.task_count

Stopped-yield :
    (b : Bool) (s : TaskState) (t : ℕ) (k : Kernel) (q : Queues) (k' : Kernel)
    → Stopped s t k q k'
    → Stopped s t k q (yield_if b k').1
unfolding sched_request_switch
Stopped-yield true s t k q k' v = record {
  holds = Holds-same v.holds refl refl refl;
  state = v.state;
  others = v.others;
  sleepers = v.sleepers;
  locks = v.locks;
  interrupts = v.interrupts;
  slots = v.slots;
}
Stopped-yield false s t k q k' v = v

yield_first : (b : Bool) (k : Kernel) → yield_if b k ≡ (b, (yield_if b k).1)
yield_first true k = refl
yield_first false k = refl

stopped : (s : TaskState) (t : ℕ) (k : Kernel) (w : Web) → Kernel
stopped s t k w = critical_exit k.mie (set_state s t (rewired (record k { mie = false }) w))

stopped-Stopped :
    (s : TaskState) (t : ℕ) (k : Kernel) (q : Queues) (w : Web)
    → Holds (rewired (record k { mie = false }) w) (dequeue t q)
    → Stopped s t k q (stopped s t k w)
unfolding stopped critical_exit
stopped-Stopped s t k q w h = record {
  holds = Holds-same h refl refl refl;
  state = update_self k.tcb t _;
  others = λ x ne. update-ne k.tcb t x _ ne;
  sleepers = (refl, refl);
  locks = (refl, refl);
  interrupts = restore k.mie;
  slots = refl;
}

module _ (t : ℕ) (k : Kernel) (q : Queues) (h : Holds k q) where
  taken_out :
      (w : Web) × (sched_remove_ready (some t) (record k { mie = false })
        ≡ some (rewired (record k { mie = false }) w))
      × Holds (rewired (record k { mie = false }) w) (dequeue t q)
  taken_out =
      let (w, e, m) =
        sched_remove_ready_lem (record k { mie = false }) q t (Holds-same h refl refl refl) in
      (w, e, m.holds)

  -- With well-formed ready queues, suspending a task returns, yielding exactly if it is the running
  -- one: the task has left the ready queues and is SUSPENDED, and no other TCB, the delay list, the
  -- locks, the interrupt bit and the number of slots change.
  pub task_suspend_lem :
      (k' : Kernel) × (task_suspend (some t) k ≡ some (is_current t k, k'))
      × Stopped TaskState.suspended t k q k'
  unfolding task_suspend critical_enter stopped
  task_suspend_lem =
      let (w, e, h') = taken_out in
      let k1 = stopped TaskState.suspended t k w in
      (
        (yield_if (is_current t k) k1).1,
        >>=-some _ e (ap some (yield_first (is_current t k) k1)),
        Stopped-yield (is_current t k) TaskState.suspended t k q k1
            (stopped-Stopped TaskState.suspended t k q w h'),
      )

  -- Deleting does the same, with the state DELETED; the number of slots handed out stays.
  pub task_delete_lem :
      (k' : Kernel) × (task_delete (some t) k ≡ some (is_current t k, k'))
      × Stopped TaskState.deleted t k q k'
  unfolding task_delete critical_enter stopped
  task_delete_lem =
      let (w, e, h') = taken_out in
      let k1 = stopped TaskState.deleted t k w in
      (
        (yield_if (is_current t k) k1).1,
        >>=-some _ e (ap some (yield_first (is_current t k) k1)),
        Stopped-yield (is_current t k) TaskState.deleted t k q k1
            (stopped-Stopped TaskState.deleted t k q w h'),
      )

  -- With the scheduler's lock free, resuming a suspended task of the pool that is in no ready queue
  -- makes it ready, blocked on nothing, and files it at the end of the queue of its priority; the
  -- interrupt bit is as before.
  task_resume_lem :
      (k.tcb t).state ≡ TaskState.suspended
      → k.sched_lock ≡ false
      → t < max_tasks
      → Absent t q
      → (k' : Kernel) × (task_resume (some t) k ≡ some k')
        × Holds k' (enqueue q (clamp (k.tcb t).priority) t)
        × (k'.tcb t ≡ woken (k.tcb t))
        × (k'.mie ≡ k.mie)
  unfolding task_resume critical_enter critical_exit
  task_resume_lem e free lt out =
      let k1 = record k { mie = false } in
      let (w, r, m) = task_make_ready_lem t k1 q (Holds-same h refl refl refl) free lt out in
      (
        critical_exit k.mie (set_tcb t (woken (k.tcb t)) (rewired k1 w)),
        rw (ap is_suspended e) (>>=-some _ r refl),
        Holds-same m.holds refl refl refl,
        update_self k.tcb t _,
        restore k.mie,
      )

  refile_ready :
      (k1 : Kernel)
      → Holds k1 q
      → (k1.tcb t).state ≡ TaskState.ready
      → t < max_tasks
      → (w : Web) × (refile t k1 ≡ some (set_state TaskState.ready t (rewired k1 w)))
        × Holds (rewired k1 w) (enqueue (dequeue t q) (clamp (k1.tcb t).priority) t)
  unfolding refile
  refile_ready k1 h1 e lt =
      let (w1, e1, m1) = sched_remove_ready_lem k1 q t h1 in
      let (w2, e2, m2) =
        sched_add_ready_lem (rewired k1 w1) (dequeue t q) t m1.holds lt (Absent-dequeue t h1)
          (ap is_deleted e) in
      (w2, rw (ap is_ready_state e) (>>=-some _ e1 e2), Holds-same m2.holds refl refl refl)

  -- Setting the priority of a ready task of the pool sets the base priority too and moves the task
  -- to the end of the queue of the new priority; no other TCB and not the interrupt bit change.
  task_set_priority_ready :
      (prio : ℕ)
      → (k.tcb t).state ≡ TaskState.ready
      → t < max_tasks
      → (k' : Kernel) × (task_set_priority (some t) prio k ≡ some k')
        × Holds k' (enqueue (dequeue t q) (clamp prio) t)
        × ((k'.tcb t).priority ≡ prio)
        × ((k'.tcb t).base_priority ≡ prio)
        × ((x : ℕ) → t ≢ x → k'.tcb x ≡ k.tcb x)
        × (k'.mie ≡ k.mie)
  unfolding task_set_priority critical_enter critical_exit
  task_set_priority_ready prio e lt =
      let k1 = set_tcb t (graded prio (k.tcb t)) (record k { mie = false }) in
      let same : (k1.tcb t).state ≡ TaskState.ready =
        ap (λ (b : Tcb). b.state) (update_self k.tcb t _) ∙ e in
      let (w2, e2, h2) = refile_ready k1 (Holds-same h refl refl refl) same lt in
      (
        critical_exit k.mie (set_state TaskState.ready t (rewired k1 w2)),
        >>=-some _ e2 refl,
        subst
            (λ p.
              Holds (critical_exit k.mie (set_state TaskState.ready t (rewired k1 w2)))
                (enqueue (dequeue t q) p t))
            (ap (λ (b : Tcb). clamp b.priority) (update_self k.tcb t _))
            (Holds-same h2 refl refl refl),
        (ground arith),
        (ground arith),
        (λ x ne. update-ne k1.tcb t x _ ne ∙ update-ne k.tcb t x _ ne),
        restore k.mie,
      )
