-- ===== src/Rtos/Block/Laws.antt =====
-- What waking and blocking do to the ready queues.
use djiang_oss_public.Prelude.{
  ℕ, ◌<◌, ◌≡◌, refl, true, false, some, arith, update, subst, sym, >>=-some,
}
use djiang_oss_public.Rtos.Types.{Kernel, Tcb, TaskState, max_tasks}
use djiang_oss_public.Rtos.Lock.{restore, sched_lock_free, sched_unlock_irqrestore}
use djiang_oss_public.Rtos.Ready.View.{Queues, Absent, Holds, Holds-same, Moved, Web, rewired}
use djiang_oss_public.Rtos.Ready.Add.{level, enqueue, sched_add_ready_lem}
use djiang_oss_public.Rtos.Ready.Remove.{dequeue, sched_remove_ready_lem, sched_remove_ready_absent}
use djiang_oss_public.Rtos.Block.{set_tcb, task_make_ready, task_block}

-- The TCB of a task that has been woken, or blocked.
abbrev pub woken : Tcb → Tcb
woken b = record b { state = TaskState.ready; blocked_on = 0 }

abbrev pub halted : ℕ → Tcb → Tcb
halted obj b = record b { state = TaskState.blocked; blocked_on = obj }

-- Waking sets the state twice, to the same effect.
ready_again :
    (t : ℕ) (f : ℕ → Tcb) (x : ℕ)
    → update
        (update f t (woken (f t)))
        t
        (record (update f t (woken (f t)) t) { state = TaskState.ready })
        x
      ≡ update f t (woken (f t)) x
ready_again t f x = ground arith

module _ (t : ℕ) (k : Kernel) (q : Queues) (h : Holds k q) (free : k.sched_lock ≡ false) where
  -- `task_make_ready` files the task at the end of its queue; interrupts and locks are as before.
  pub task_make_ready_lem :
      t < max_tasks
      → Absent t q
      → (w : Web) × (task_make_ready t k ≡ some (set_tcb t (woken (k.tcb t)) (rewired k w)))
        × Moved k t q (enqueue q (level k t) t) w
  unfolding task_make_ready sched_unlock_irqrestore
  task_make_ready_lem lt out =
      let k1 = record k { mie = false; sched_lock = true } in
      let k2 = set_tcb t (woken (k.tcb t)) k1 in
      let (w, e, m) =
        sched_add_ready_lem k2 q t (Holds-same h refl refl refl) lt out (ground arith) in
      (
        w,
        >>=-some _ (sched_lock_free k free) (
            >>=-some _ e (λ i. some (record (rewired k w) {
              tcb = λ x. ready_again t k.tcb x i;
              sched_lock = sym free i;
              mie = restore k.mie i;
            }))),
        record {
          holds =
              subst (λ p. Holds (rewired k w) (enqueue q p t)) (ground arith)
                (Holds-same m.holds refl refl refl);
          frame = m.frame;
        },
      )

  -- `task_block` takes the task out of the queues.
  pub task_block_lem :
      (obj : ℕ)
      → (w : Web) × (task_block t obj k ≡ some (set_tcb t (halted obj (k.tcb t)) (rewired k w)))
        × Moved k t q (dequeue t q) w
  unfolding task_block sched_unlock_irqrestore
  task_block_lem obj =
      let k1 = record k { mie = false; sched_lock = true } in
      let k2 = set_tcb t (halted obj (k.tcb t)) k1 in
      let (w, e, m) = sched_remove_ready_lem k2 q t (Holds-same h refl refl refl) in
      (
        w,
        >>=-some _ (sched_lock_free k free) (
            >>=-some _ e (λ i. some (record (rewired k w) {
              tcb = update k.tcb t (halted obj (k.tcb t));
              sched_lock = sym free i;
              mie = restore k.mie i;
            }))),
        record { holds = Holds-same m.holds refl refl refl; frame = m.frame },
      )

  -- Of a running task, which is in no queue, it changes the TCB alone.
  pub task_block-Absent :
      (obj : ℕ) → Absent t q → task_block t obj k ≡ some (set_tcb t (halted obj (k.tcb t)) k)
  unfolding task_block sched_unlock_irqrestore
  task_block-Absent obj out =
      let k1 = record k { mie = false; sched_lock = true } in
      let k2 = set_tcb t (halted obj (k.tcb t)) k1 in
      >>=-some _ (sched_lock_free k free) (
        >>=-some _ (sched_remove_ready_absent k2 q t (Holds-same h refl refl refl) out) (λ i.
          some (record k {
            tcb = update k.tcb t (halted obj (k.tcb t));
            sched_lock = sym free i;
            mie = restore k.mie i;
          })))
