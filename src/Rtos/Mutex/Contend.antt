-- ===== src/Rtos/Mutex/Contend.antt =====
-- Locking a mutex that another task owns: inheritance, and going to sleep.
use djiang_oss_public.Prelude.{
  ℕ, ◌<◌, ◌≡◌, ◌≢◌, refl, sym, subst, ap, ◌∙◌, inl, inr, false, Option, some, List, [], ◌∷◌, arith,
  NotIn, All-erase, Disjoint, Disjoint-sym, update_self, ltb, >>=-some, Bool-cases,
}
use djiang_oss_public.Rtos.Types.{Kernel, Tcb, Cpu, get_cpu, max_tasks, no_wait}
use djiang_oss_public.Rtos.Lock.{restore, critical_enter, critical_exit}
use djiang_oss_public.Rtos.Ready.{clamp}
use djiang_oss_public.Rtos.Ready.View.{Queues, Absent, Holds, Holds-same, rewired}
use djiang_oss_public.Rtos.Ready.Add.{Disjoint-enqueue}
use djiang_oss_public.Rtos.Ready.Remove.{dequeue}
use djiang_oss_public.Rtos.Sched.{sched_request_switch}
use djiang_oss_public.Rtos.WaitQueue.Laws.{Waits}
use djiang_oss_public.Rtos.Delay.Sleepers.{Sleeps, Timed-same}
use djiang_oss_public.Rtos.Waiting.{blocked, deadline}
use djiang_oss_public.Rtos.Waiting.Block.{Parked, Parked-same, parked, sleeping, block_on_lem}
use djiang_oss_public.Rtos.Mutex.{Mutex, is_ready, mutex_block, mutex_lock}
use djiang_oss_public.Rtos.Mutex.Inherit.{
  boosted, raised_to, inherited, Boosted-inherited, boost_lem, with_tcbs,
}

mutex_lock_slow :
    (obj timeout o c : ℕ) (m : Mutex) (k : Kernel)
    → (get_cpu k).current_task ≡ some c
    → m.owner ≡ some o
    → o ≢ c
    → timeout ≢ no_wait
    → mutex_lock obj timeout m k ≡ mutex_block obj timeout k.mie o m (record k { mie = false })
unfolding mutex_lock critical_enter
mutex_lock_slow obj timeout o c m k cur e ne nt = ground arith

module _ (f : ℕ → Tcb) (o c : ℕ) (q : Queues) where
  -- Boosting moves the owner alone.
  boosted-Disjoint :
      (ws : List ℕ)
      → NotIn o ws
      → ((p : ℕ) → Disjoint (q p) ws)
      → (p : ℕ) → Disjoint (boosted f o c q p) ws
  boosted-Disjoint ws n d p = elim (Bool-cases (ltb (f o).priority (f c).priority)) [
    | inl e ↦ elim (Bool-cases (is_ready (f o).state)) [
      | inl r ↦
          rw (e, r)
            (Disjoint-enqueue (dequeue o q) (clamp (f c).priority) o ws n
              (λ i. All-erase (λ x. NotIn x ws) o (q i) (d i)) p)
      | inr r ↦ rw (e, r) (d p)
    ]
    | inr e ↦ rw e (d p)
  ]

  boosted-Absent : o ≢ c → Absent c q → Absent c (boosted f o c q)
  boosted-Absent ne out p =
      (Disjoint-sym (boosted f o c q p) (c ∷ [])
        (boosted-Disjoint (c ∷ []) (ne, tt) (λ r. Disjoint-sym (c ∷ []) (q r) (out r, tt)) p)).0

-- A lock with a timeout of a mutex that another task of the pool owns, by a running task that is in
-- no list, with both locks free and the owner not among the waiters: the call blocks; an owner of a
-- lower priority gets that of the task that waits and, if it is ready, moves to the end of its new
-- queue, and nothing else of the owner changes; the task is blocked on the mutex, with its wake-up
-- tick set unless it waits for ever, and nothing else of it changes; no other TCB changes; the task
-- stands among the waiters behind all of at least its priority, and, unless it waits for ever, in
-- its place in the delay list; a switch is asked for, and the interrupt bit is as before.
pub mutex_lock_blocks :
    (obj timeout o c : ℕ) (m : Mutex) (k : Kernel) (q : Queues) (ws ds : List ℕ)
    → timeout ≢ no_wait
    → (get_cpu k).current_task ≡ some c
    → m.owner ≡ some o
    → o ≢ c
    → Holds k q
    → Waits k q m.wait_queue ws
    → Sleeps k ds
    → o < max_tasks
    → c < max_tasks
    → Absent c q
    → NotIn o ws
    → NotIn c ws
    → NotIn c ds
    → k.sched_lock ≡ false
    → k.delay_lock ≡ false
    → (queue' : Option ℕ) × (k' : Kernel) × (mutex_lock obj timeout m k
        ≡ some (blocked, record m { wait_queue = queue' }, k'))
      × Parked obj timeout
          (deadline timeout k)
          c
          (inherited k.tcb o c)
          (boosted k.tcb o c q)
          ws
          ds
          queue'
          k'
      × (k'.tcb o ≡ raised_to (k.tcb c).priority (k.tcb o))
      × (k'.tcb c ≡ sleeping obj timeout (deadline timeout k) (k.tcb c))
      × ((t : ℕ) → o ≢ t → c ≢ t → k'.tcb t ≡ k.tcb t)
      × ((get_cpu k').need_reschedule ≡ 1)
      × (k'.mie ≡ k.mie)
unfolding mutex_block critical_exit sched_request_switch
mutex_lock_blocks obj timeout o c m k q ws ds nt cur own ne h v sl olt clt out now ncw ncd free
      dfree =
    let k1 = record k { mie = false } in
    let (w, f, e1, b) = boost_lem k1 q o c (Holds-same h refl refl refl) olt in
    let k2 = with_tcbs f (rewired k1 w) in
    let v2 : Waits k2 (boosted k.tcb o c q) m.wait_queue ws = record {
      chain = b.frame m.wait_queue ws v.apart now v.chain;
      distinct = v.distinct;
      members = v.members;
      apart = boosted-Disjoint k.tcb o c q ws now v.apart;
    } in
    let s2 : Sleeps k2 ds = record {
      chain = sl.chain;
      distinct = sl.distinct;
      members = sl.members;
      timed = Timed-same k.tcb f ds b.ticks sl.timed;
    } in
    let absent : Absent c (boosted k.tcb o c q) = λ p. boosted-Absent k.tcb o c q ne out p in
    let (queue', n, l, e2, p) =
      block_on_lem obj timeout c m.wait_queue k2 (boosted k.tcb o c q) ws ds
        (Holds-same b.holds refl refl refl) v2 s2 clt absent ncw ncd free dfree in
    (
      queue',
      sched_request_switch (critical_exit k.mie (parked obj timeout c n l k2)),
      mutex_lock_slow obj timeout o c m k cur own ne nt
          ∙ >>=-some _ cur (>>=-some _ e1 (>>=-some _ e2 refl)),
      Parked-same
          (subst
            (λ g.
              Parked obj timeout (deadline timeout k) c g (boosted k.tcb o c q) ws ds queue'
                (parked obj timeout c n l k2))
            (Boosted-inherited b) p)
          refl refl refl refl refl,
      p.others o (λ e. ne (sym e)) ∙ b.own,
      p.own ∙ ap (sleeping obj timeout (deadline timeout k)) (b.others c ne),
      λ t neo nec. p.others t nec ∙ b.others t neo,
      ap (λ (x : Cpu). x.need_reschedule) (update_self k.cpus k.hart _),
      restore k.mie,
    )
