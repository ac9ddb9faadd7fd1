-- ===== src/Rtos/Waiting/Timeout.antt =====
-- A timeout and the wait queue: `task_make_ready` writes the `next` field that the wait queue uses.
use djiang_oss_public.Prelude.{
  ℕ, ◌≡◌, subst, false, Option, none, some, List, [], ◌∷◌, ◌++◌, Disjoint-sym, update_self,
}
use djiang_oss_public.Rtos.Types.{Kernel}
use djiang_oss_public.Rtos.Links.{head}
use djiang_oss_public.Rtos.Links.Chain.{Chain, Segment-behind}
use djiang_oss_public.Rtos.Ready.{clamp}
use djiang_oss_public.Rtos.Ready.View.{Queues, Holds, clamp_lt}
use djiang_oss_public.Rtos.Ready.Add.{enqueue}
use djiang_oss_public.Rtos.WaitQueue.Laws.{Waits}
use djiang_oss_public.Rtos.Delay.{delay_check_wakeups}
use djiang_oss_public.Rtos.Delay.Sleepers.{Sleeps}
use djiang_oss_public.Rtos.Delay.Wake.{Due, Later}
use djiang_oss_public.Rtos.Delay.Tick.{delay_check_wakeups_lem}

-- The last task of a list has no successor.
Chain-last :
    (next : ℕ → Option ℕ) (h : Option ℕ) (xs : List ℕ) (t : ℕ)
    → Chain next h (xs ++ t ∷ [])
    → next t ≡ none
Chain-last next h xs t c =
    (Segment-behind (record { first = h; next = next }) head none xs (t ∷ []) c).1

-- With both locks free, when the first waiter of a wait queue is the one sleeper whose time has
-- come, delay_check_wakeups returns with the task at the end of its ready queue, and the wait
-- queue, whose head is still that task, ends behind it: the other waiters are no longer on the
-- list.
pub timeout-truncates :
    (now : ℕ) (t : ℕ) (rest ls : List ℕ) (queue : Option ℕ) (k : Kernel) (q : Queues)
    → Holds k q
    → Waits k q queue (t ∷ rest)
    → Sleeps k (t ∷ ls)
    → Due now k.tcb (t ∷ [])
    → Later now k.tcb ls
    → k.sched_lock ≡ false
    → k.delay_lock ≡ false
    → (k' : Kernel) × (delay_check_wakeups now k ≡ some k')
      × Holds k' (enqueue q (clamp (k.tcb t).priority) t)
      × Chain k'.next queue (t ∷ [])
timeout-truncates now t rest ls queue k q h v s due later free dfree =
    let (k', e, m, z, z', z'') =
      delay_check_wakeups_lem now (t ∷ []) ls k q h s due later
        (λ p. Disjoint-sym (t ∷ []) (q p) ((Disjoint-sym (q p) (t ∷ rest) (v.apart p)).0, tt)) free
        dfree in
    let p = clamp (k.tcb t).priority in
    (
      k',
      e,
      m.holds,
      (
        v.chain.0,
        Chain-last k'.next (k'.ready_queue p) (q p) t (
            subst (Chain k'.next (k'.ready_queue p)) (update_self q p (q p ++ t ∷ []))
              (m.holds.chains p (clamp_lt (k.tcb t).priority))),
      ),
    )
