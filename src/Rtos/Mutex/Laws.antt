-- ===== src/Rtos/Mutex/Laws.antt =====
-- Locking and unlocking a mutex.
use djiang_oss_public.Prelude.{
  ℕ, ◌+◌, ◌%◌, ◌≤◌, ◌≡◌, ◌≢◌, refl, sym, subst, ap, ◌∙◌, true, false, Option, none, some, List, [],
  ◌∷◌, arith, update_self, update-ne, >>=-some,
}
use djiang_oss_public.Rtos.Types.{Kernel, Tcb, get_cpu, no_wait}
use djiang_oss_public.Rtos.Lock.{restore, critical_enter, critical_exit}
use djiang_oss_public.Rtos.Ready.View.{Queues, Holds, Holds-same}
use djiang_oss_public.Rtos.WaitQueue.Laws.{Waits, Waits-same, waitqueue_pop_nil}
use djiang_oss_public.Rtos.WaitQueue.{waitqueue_pop}
use djiang_oss_public.Rtos.Waiting.{returned}
use djiang_oss_public.Rtos.Waiting.Signal.{Granted, grant_lem}
use djiang_oss_public.Rtos.Mutex.{
  Mutex, set_priority, mutex_lock, hand_over, unlock_last, mutex_unlock,
}

-- A free mutex goes to the running task, which then owns it once.
mutex_lock_free :
    (obj timeout c : ℕ) (m : Mutex) (k : Kernel)
    → (get_cpu k).current_task ≡ some c
    → m.owner ≡ none
    → (k' : Kernel) × (mutex_lock obj timeout m k
        ≡ some (returned true, record m { owner = some c; lock_count = 1 }, k'))
      × (k' ≡ k)
unfolding mutex_lock critical_enter critical_exit
mutex_lock_free obj timeout c m k cur e = (
  critical_exit k.mie (record k { mie = false }),
  ground arith,
  λ i. record k { mie = restore k.mie i },
)

-- Locking again a mutex that the running task owns adds one to its count modulo 256, with any
-- timeout, and leaves the kernel as it was.
mutex_lock_again :
    (obj timeout c : ℕ) (m : Mutex) (k : Kernel)
    → (get_cpu k).current_task ≡ some c
    → m.owner ≡ some c
    → (k' : Kernel) × (mutex_lock obj timeout m k
        ≡ some (returned true, record m { lock_count = (m.lock_count + 1) % 256 }, k'))
      × (k' ≡ k)
unfolding mutex_lock critical_enter critical_exit
mutex_lock_again obj timeout c m k cur e = (
  critical_exit k.mie (record k { mie = false }),
  ground arith,
  λ i. record k { mie = restore k.mie i },
)

-- Without waiting, a mutex that another task owns is not taken, and nothing changes.
mutex_lock_refused :
    (obj o c : ℕ) (m : Mutex) (k : Kernel)
    → (get_cpu k).current_task ≡ some c
    → m.owner ≡ some o
    → o ≢ c
    → (k' : Kernel) × (mutex_lock obj no_wait m k ≡ some (returned false, m, k')) × (k' ≡ k)
unfolding mutex_lock critical_enter critical_exit
mutex_lock_refused obj o c m k cur e ne = (
  critical_exit k.mie (record k { mie = false }),
  ground arith,
  λ i. record k { mie = restore k.mie i },
)

-- A task that does not own the mutex does not release it.
mutex_unlock_stranger :
    (o c : ℕ) (m : Mutex) (k : Kernel)
    → (get_cpu k).current_task ≡ some c
    → m.owner ≡ some o
    → o ≢ c
    → (k' : Kernel) × (mutex_unlock m k ≡ some (m, k')) × (k' ≡ k)
unfolding mutex_unlock critical_enter critical_exit
mutex_unlock_stranger o c m k cur e ne = (
  critical_exit k.mie (record k { mie = false }),
  ground arith,
  λ i. record k { mie = restore k.mie i },
)

-- An inner unlock gives one count back.
mutex_unlock_inner :
    (c n : ℕ) (m : Mutex) (k : Kernel)
    → (get_cpu k).current_task ≡ some c
    → m.owner ≡ some c
    → m.lock_count ≡ n + 2
    → (k' : Kernel) × (mutex_unlock m k ≡ some (record m { lock_count = n + 1 }, k')) × (k' ≡ k)
unfolding mutex_unlock critical_enter critical_exit
mutex_unlock_inner c n m k cur e count = (
  critical_exit k.mie (record k { mie = false }),
  ground arith,
  λ i. record k { mie = restore k.mie i },
)

module _ (c : ℕ) (m : Mutex) (k : Kernel) (cur : (get_cpu k).current_task ≡ some c)
    (own : m.owner ≡ some c) (last : m.lock_count ≤ 1) where
  based : Kernel
  based = set_priority c (k.tcb c).base_priority (record k { mie = false })

  mutex_unlock_last : mutex_unlock m k ≡ hand_over k.mie m (waitqueue_pop m.wait_queue based)
  unfolding mutex_unlock critical_enter unlock_last based
  mutex_unlock_last = ground arith

  -- The last unlock by the owner of a mutex that nobody waits for leaves it without an owner and
  -- with a count of 0; in the kernel, only the owner's priority changes, back to its base priority.
  mutex_unlock_frees :
      (q : Queues)
      → Holds k q
      → Waits k q m.wait_queue []
      → (k' : Kernel) × (mutex_unlock m k ≡ some (record m { owner = none; lock_count = 0 }, k'))
        × (k' ≡ set_priority c (k.tcb c).base_priority k)
  unfolding based hand_over critical_exit
  mutex_unlock_frees q h v = (
    critical_exit k.mie based,
    mutex_unlock_last
        ∙ ap (hand_over k.mie m) (
            waitqueue_pop_nil based q m.wait_queue [] (Holds-same h refl refl refl)
              (Waits-same v refl) refl),
    λ i. set_priority c (k.tcb c).base_priority (record k { mie = restore k.mie i }),
  )

  -- The last unlock by the owner, with the scheduler's lock free and a first waiter other than the
  -- owner: the mutex belongs to that waiter, once; the waiter is ready, at the end of the queue of
  -- its priority, with the reason `signaled`; the others wait on in order; the owner is back at its
  -- base priority; no other TCB changes, a switch is asked for, and the interrupt bit is as before.
  pub mutex_unlock_hands_over :
      (q : Queues) (t : ℕ) (rest : List ℕ)
      → Holds k q
      → Waits k q m.wait_queue (t ∷ rest)
      → k.sched_lock ≡ false
      → t ≢ c
      → (queue' : Option ℕ) × (k' : Kernel) × (mutex_unlock m k
          ≡ some (record m { owner = some t; lock_count = 1; wait_queue = queue' }, k'))
        × Granted k.mie
            (set_priority c (k.tcb c).base_priority k).tcb
            q
            (k.tcb t).priority
            t
            rest
            queue'
            k'
        × ((k'.tcb c).priority ≡ (k.tcb c).base_priority)
  unfolding based hand_over
  mutex_unlock_hands_over q t rest h v free ne =
      let (queue', k2, k3, e, r, g) =
        grant_lem k.mie m.wait_queue based q t rest (Holds-same h refl refl refl)
          (Waits-same v refl) free refl in
      let same : (based.tcb t).priority ≡ (k.tcb t).priority =
        ap (λ (b : Tcb). b.priority) (update-ne k.tcb c t _ (λ x. ne (sym x))) in
      (
        queue',
        critical_exit k.mie k3,
        mutex_unlock_last ∙ ap (hand_over k.mie m) e ∙ >>=-some _ r refl,
        subst (λ p. Granted k.mie based.tcb q p t rest queue' (critical_exit k.mie k3)) same g,
        ap (λ (b : Tcb). b.priority) (g.others c ne ∙ update_self k.tcb c _),
      )
