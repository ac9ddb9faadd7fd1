-- ===== src/Rtos/Waiting/Signal.antt =====
-- Waking a waiter, and what it finds when it runs again.
use djiang_oss_public.Prelude.{
  ℕ, ◌<◌, ◌≡◌, ◌≢◌, refl, subst, ap, ◌∙◌, inl, inr, Bool, true, false, Option, some, List, ◌∷◌,
  arith, NotIn, Disjoint, Bool-cases, erase, update, update_self, update-ne, if◌then◌else◌, ◌==◌,
  >>=-some,
}
use djiang_oss_public.Rtos.Types.{
  Kernel, Tcb, Cpu, TaskState, WakeReason, get_cpu, max_tasks, wait_forever,
}
use djiang_oss_public.Rtos.Lock.{restore, critical_exit}
use djiang_oss_public.Rtos.Links.{Links}
use djiang_oss_public.Rtos.Links.Chain.{Chain}
use djiang_oss_public.Rtos.Ready.{clamp}
use djiang_oss_public.Rtos.Ready.View.{Queues, Absent, Holds, Holds-same, Web, rewired}
use djiang_oss_public.Rtos.Ready.Add.{enqueue, Disjoint-enqueue}
use djiang_oss_public.Rtos.Sched.{sched_request_switch, set_cpu}
use djiang_oss_public.Rtos.Block.{set_tcb}
use djiang_oss_public.Rtos.Block.Laws.{woken, task_make_ready_lem}
use djiang_oss_public.Rtos.WaitQueue.{with_next, waitqueue_pop}
use djiang_oss_public.Rtos.WaitQueue.Laws.{
  Waits, WaitsMoved, waitqueue_remove_lem, waitqueue_pop_cons,
}
use djiang_oss_public.Rtos.Delay.{with_delays, delay_links}
use djiang_oss_public.Rtos.Delay.Sleepers.{Sleeps, delay_remove_lem}
use djiang_oss_public.Rtos.Waiting.{is_signaled, signaled, disarm_timeout, resume_on, wake_signaled}

-- The kernel once `t` has been signaled and made ready.
abbrev pub roused : ℕ → Web → Kernel → Kernel
roused t w k =
    set_cpu (record (get_cpu k) { need_reschedule = 1 })
      (set_tcb t (woken (signaled (k.tcb t))) (rewired k w))

signal_twice :
    (f : ℕ → Tcb) (t x : ℕ)
    → let g = update f t (signaled (f t)) in
      update g t (woken (g t)) x ≡ update f t (woken (signaled (f t))) x
signal_twice f t x = ground arith

module _ (t : ℕ) (k : Kernel) (q : Queues) (h : Holds k q) where
  -- A signaled task is filed at the end of its queue, and a switch is asked for; no list apart
  -- from the ready queues and the task changes.
  pub wake_signaled_lem :
      k.sched_lock ≡ false
      → t < max_tasks
      → Absent t q
      → (w : Web) × (wake_signaled t k ≡ some (roused t w k))
        × Holds (roused t w k) (enqueue q (clamp (k.tcb t).priority) t)
        × ((hd : Option ℕ) (zs : List ℕ)
            → ((p : ℕ) → Disjoint (q p) zs)
            → NotIn t zs
            → Chain k.next hd zs
            → Chain w.next hd zs)
  unfolding wake_signaled sched_request_switch
  wake_signaled_lem free lt out =
      let k1 = set_tcb t (signaled (k.tcb t)) k in
      let (w, e, m) = task_make_ready_lem t k1 q (Holds-same h refl refl refl) free lt out in
      (
        w,
        >>=-some _ e (λ i. some (record (roused t w k) { tcb = λ x. signal_twice k.tcb t x i })),
        subst (λ p. Holds (roused t w k) (enqueue q p t)) (ground arith)
            (Holds-same m.holds refl refl refl),
        m.frame,
      )

-- What giving something to the first waiter `t` leaves: it is at the end of its ready queue with
-- its reason for waking, the others wait on, a switch is asked for, and no other TCB has changed.
pub record Granted (mie : Bool) (f : ℕ → Tcb) (q : Queues) (prio t : ℕ) (rest : List ℕ)
    (queue' : Option ℕ) (k' : Kernel) : Type 0 where
  pub holds : Holds k' (enqueue q (clamp prio) t)
  pub waits : Waits k' (enqueue q (clamp prio) t) queue' rest
  pub state : (k'.tcb t).state ≡ TaskState.ready
  pub reason : (k'.tcb t).wake_reason ≡ WakeReason.signaled
  pub asks : (get_cpu k').need_reschedule ≡ 1
  pub interrupts : k'.mie ≡ mie
  pub others : (x : ℕ) → t ≢ x → k'.tcb x ≡ f x

-- Popping the first waiter and waking it, at the end of the critical section entered from `state`.
pub grant_lem :
    (state : Bool) (queue : Option ℕ) (k : Kernel) (q : Queues) (t : ℕ) (rest : List ℕ)
    → Holds k q
    → Waits k q queue (t ∷ rest)
    → k.sched_lock ≡ false
    → k.mie ≡ false
    → (queue' : Option ℕ) × (k2 : Kernel) × (k3 : Kernel) × (waitqueue_pop queue k
        ≡ (some t, queue', k2))
      × (wake_signaled t k2 ≡ some k3)
      × Granted state k.tcb q (k.tcb t).priority t rest queue' (critical_exit state k3)
unfolding critical_exit
grant_lem state queue k q t rest h v free off =
    let (queue', n, e, m, out, lt, new) = waitqueue_pop_cons k q queue (t ∷ rest) h v t rest refl in
    let k2 = with_next n k in
    let (w, r, h2, frame) = wake_signaled_lem t k2 q m.holds free lt out in
    (
      queue',
      k2,
      roused t w k2,
      e,
      r,
      record {
        holds = Holds-same h2 refl refl refl;
        waits = record {
          chain = frame queue' rest m.waits.apart new m.waits.chain;
          distinct = m.waits.distinct;
          members = m.waits.members;
          apart = Disjoint-enqueue q (clamp (k.tcb t).priority) t rest new m.waits.apart;
        };
        state = ap (λ (b : Tcb). b.state) (update_self k.tcb t _);
        reason = ap (λ (b : Tcb). b.wake_reason) (update_self k.tcb t _);
        asks = ap (λ (c : Cpu). c.need_reschedule) (update_self k.cpus k.hart _);
        interrupts = ap (λ b. if state then true else b) off ∙ restore state;
        others = λ x ne. update-ne k.tcb t x _ ne;
      },
    )

-- With the delay lock free, a task that runs again having been signaled succeeds, leaves the wait
-- queue alone, and, unless it waited for ever, leaves the delay list.
resume_signaled :
    (timeout c : ℕ) (queue : Option ℕ) (k : Kernel) (ds : List ℕ)
    → Sleeps k ds
    → k.delay_lock ≡ false
    → (k.tcb c).wake_reason ≡ WakeReason.signaled
    → (l : Links) × (resume_on timeout queue c k ≡ some (true, queue, with_delays l k))
      × Sleeps (with_delays l k) (if timeout == wait_forever then ds else erase c ds)
unfolding resume_on disarm_timeout
resume_signaled timeout c queue k ds s free e = elim (Bool-cases (timeout == wait_forever)) [
  | inl f ↦ (delay_links k, rw (ap is_signaled e, f) refl, rw f s)
  | inr f ↦
      let (l, r, s') = delay_remove_lem k ds s free c in
      (l, rw (ap is_signaled e, f) (>>=-some _ r refl), rw f s')
]

-- A task in no ready queue that runs again without having been signaled leaves the wait queue,
-- wherever it stands on it, and the call fails; the ready queues, and every list apart from the
-- queue and the task, are as before.
resume_timeout :
    (timeout c : ℕ) (queue : Option ℕ) (k : Kernel) (q : Queues) (ws : List ℕ)
    → Holds k q
    → Waits k q queue ws
    → Absent c q
    → is_signaled (k.tcb c).wake_reason ≡ false
    → (queue' : Option ℕ) × (n : ℕ → Option ℕ) × (resume_on timeout queue c k
        ≡ some (false, queue', with_next n k))
      × WaitsMoved k q c ws (erase c ws) queue' n
unfolding resume_on
resume_timeout timeout c queue k q ws h v out e =
    let (queue', n, r, m) = waitqueue_remove_lem k q queue ws h v c out in
    (queue', n, rw e (>>=-some _ r refl), m)
