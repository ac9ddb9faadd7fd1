-- ===== src/Rtos/Task/Sleep.antt =====
-- Delays of the running task, and what becomes of a task that is deleted while it sleeps.
use djiang_oss_public.Prelude.{
  ℕ, ◌+◌, ◌%◌, ◌^◌, ◌<◌, ◌≡◌, ◌≢◌, refl, sym, subst, ap, ◌∙◌, inl, inr, false, some, List, [], ◌∷◌,
  arith, NotIn, Disjoint-sym, All-map, eq_cases, update, update_self, update-ne, >>=-some,
}
use djiang_oss_public.Rtos.Types.{Kernel, Tcb, TaskState, max_tasks, get_cpu}
use djiang_oss_public.Rtos.Lock.{restore, critical_enter, critical_exit}
use djiang_oss_public.Rtos.Links.Chain.{Chain}
use djiang_oss_public.Rtos.Ready.{clamp}
use djiang_oss_public.Rtos.Ready.View.{Queues, Holds, Holds-same, rewired}
use djiang_oss_public.Rtos.Ready.Add.{enqueue}
use djiang_oss_public.Rtos.Ready.Remove.{dequeue, Absent-dequeue, sched_remove_ready_lem}
use djiang_oss_public.Rtos.Block.{set_tcb}
use djiang_oss_public.Rtos.Delay.{with_delays, tick_get, delay_check_wakeups}
use djiang_oss_public.Rtos.Delay.Sleepers.{
  Sleeps, Timed-same, Timed-update, Sleeps-same, drowsy, by_time, delay_add_lem,
}
use djiang_oss_public.Rtos.Delay.Wake.{Due, Later}
use djiang_oss_public.Rtos.Delay.Tick.{delay_check_wakeups_lem}
use djiang_oss_public.Rtos.Task.{
  delayed, delay_current, task_delay_internal, task_delete, is_current,
}
use djiang_oss_public.Rtos.Task.Laws.{Stopped, task_delete_lem}

-- The TCB of the running task once it sleeps.
abbrev pub asleep : ℕ → Tcb → Tcb
asleep wake b = drowsy wake (delayed wake b)

asleep_twice :
    (f : ℕ → Tcb) (t wake x : ℕ)
    → let g = update f t (delayed wake (f t)) in
      update g t (drowsy wake (g t)) x ≡ update f t (asleep wake (f t)) x
asleep_twice f t wake x = ground arith

module _ (ticks t : ℕ) (k : Kernel) (q : Queues) (ds : List ℕ) where
  delay_start :
      ticks ≢ 0
      → (get_cpu k).current_task ≡ some t
      → task_delay_internal ticks k
        ≡ delay_current k.mie ((k.tick_count + ticks) % 2 ^ 64) t (record k { mie = false })
  unfolding task_delay_internal critical_enter tick_get
  delay_start ne cur = ground arith

  -- With the delay lock free, a delay by some ticks of a running task of the pool that does not
  -- sleep takes it out of the ready queues, blocks it and puts it in its place in the delay list
  -- for that many ticks later; no other TCB and not the interrupt bit change.
  pub task_delay_internal_lem :
      ticks ≢ 0
      → (get_cpu k).current_task ≡ some t
      → Holds k q
      → Sleeps k ds
      → t < max_tasks
      → NotIn t ds
      → k.delay_lock ≡ false
      → (k' : Kernel) × (task_delay_internal ticks k ≡ some k')
        × Holds k' (dequeue t q)
        × Sleeps k' (by_time k'.tcb ((k.tick_count + ticks) % 2 ^ 64) t ds)
        × (k'.tcb t ≡ asleep ((k.tick_count + ticks) % 2 ^ 64) (k.tcb t))
        × ((x : ℕ) → t ≢ x → k'.tcb x ≡ k.tcb x)
        × (k'.mie ≡ k.mie)
  unfolding delay_current critical_exit
  task_delay_internal_lem ne cur h s lt new free =
      let wake = (k.tick_count + ticks) % 2 ^ 64 in
      let k1 = record k { mie = false } in
      let k2 = set_tcb t (delayed wake (k.tcb t)) k1 in
      let (w, e, m) = sched_remove_ready_lem k2 q t (Holds-same h refl refl refl) in
      let k3 = rewired k2 w in
      let s3 : Sleeps k3 ds = record {
        chain = s.chain;
        distinct = s.distinct;
        members = s.members;
        timed = Timed-update k.tcb t (delayed wake (k.tcb t)) ds new s.timed;
      } in
      let (l, r, s4) = delay_add_lem k3 ds s3 free t wake lt new in
      (
        critical_exit k.mie (with_delays l (set_tcb t (drowsy wake (k3.tcb t)) k3)),
        delay_start ne cur ∙ >>=-some _ e (>>=-some _ r refl),
        Holds-same m.holds refl refl refl,
        Sleeps-same s4 refl refl,
        asleep_twice k.tcb t wake t ∙ update_self k.tcb t _,
        (λ x nx. asleep_twice k.tcb t wake x ∙ update-ne k.tcb t x _ nx),
        restore k.mie,
      )

Stopped-ticks :
    {st : TaskState} {t : ℕ} {k : Kernel} {q : Queues} {k' : Kernel}
    → Stopped st t k q k'
    → (x : ℕ) → (k'.tcb x).wake_tick ≡ (k.tcb x).wake_tick
Stopped-ticks {st} {t} {k} {q} {k'} v x = elim (eq_cases t x) [
  | inl e ↦
      subst (λ y. (k'.tcb y).wake_tick ≡ (k.tcb y).wake_tick) e
        (ap (λ (b : Tcb). b.wake_tick) v.state)
  | inr ne ↦ ap (λ (b : Tcb). b.wake_tick) (v.others x ne)
]

-- With both locks free, deleting the first sleeper, alone in being due, makes its state DELETED,
-- and the next delay_check_wakeups makes it READY again and puts it at the end of the queue of its
-- priority.
pub task_delete-wakes :
    (now t : ℕ) (ls : List ℕ) (k : Kernel) (q : Queues)
    → Holds k q
    → Sleeps k (t ∷ ls)
    → Due now k.tcb (t ∷ [])
    → Later now k.tcb ls
    → k.sched_lock ≡ false
    → k.delay_lock ≡ false
    → (k1 : Kernel) × (k2 : Kernel) × (task_delete (some t) k ≡ some (is_current t k, k1))
      × ((k1.tcb t).state ≡ TaskState.deleted)
      × (delay_check_wakeups now k1 ≡ some k2)
      × ((k2.tcb t).state ≡ TaskState.ready)
      × Holds k2 (enqueue (dequeue t q) (clamp (k.tcb t).priority) t)
task_delete-wakes now t ls k q h s due later free dfree =
    let (k1, e1, v) = task_delete_lem t k q h in
    let same = Stopped-ticks v in
    let s1 : Sleeps k1 (t ∷ ls) = record {
      chain =
          subst (λ l. Chain l k1.delay_list (t ∷ ls)) (sym v.sleepers.1)
            (subst (λ h. Chain k.delay_next h (t ∷ ls)) (sym v.sleepers.0) s.chain);
      distinct = s.distinct;
      members = s.members;
      timed = Timed-same k.tcb k1.tcb (t ∷ ls) same s.timed;
    } in
    let (k2, e2, m, z, z', z'') =
      delay_check_wakeups_lem now (t ∷ []) ls k1 (dequeue t q) v.holds s1
        (omega (arith, same t, due.0), tt)
        (All-map (λ x (lt : now < (k.tcb x).wake_tick). omega (arith, same x)) ls later)
        (λ p. Disjoint-sym (t ∷ []) (dequeue t q p) (Absent-dequeue t h p, tt)) (v.locks.0 ∙ free)
        (v.locks.1 ∙ dfree) in
    (
      k1,
      k2,
      e1,
      ap (λ (b : Tcb). b.state) v.state,
      e2,
      ap (λ (b : Tcb). b.state) m.awake.0,
      subst (λ p. Holds k2 (enqueue (dequeue t q) p t)) (ap (λ (b : Tcb). clamp b.priority) v.state)
          m.holds,
    )
