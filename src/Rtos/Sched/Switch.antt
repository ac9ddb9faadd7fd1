-- ===== src/Rtos/Sched/Switch.antt =====
-- `sched_schedule` as a whole.
use djiang_oss_public.Prelude.{
  ℕ, ◌<◌, ◌≡◌, refl, subst, ap, ◌∙◌, inl, inr, Bool, true, false, Option, none, some, arith,
  Bool-cases, Option-cases, if◌then◌else◌, >>=-some, update,
}
use djiang_oss_public.Rtos.Types.{Kernel, Tcb, TaskState, get_cpu, max_tasks}
use djiang_oss_public.Rtos.Lock.{sched_acquire_free, sched_release}
use djiang_oss_public.Rtos.Ready.{set_state, sched_add_ready, is_deleted, clamp}
use djiang_oss_public.Rtos.Ready.View.{Queues, Absent, Holds, Holds-same, Web, rewired, web_of}
use djiang_oss_public.Rtos.Ready.Add.{level, enqueue, sched_add_ready_lem}
use djiang_oss_public.Rtos.Ready.Remove.{dequeue, sched_remove_ready_lem}
use djiang_oss_public.Rtos.Pmp.{pmp_update_task}
use djiang_oss_public.Rtos.Sched.{
  is_running, task_get_idle_for_core, save_current, make_current, switch_to, sched_schedule,
}
use djiang_oss_public.Rtos.Sched.Select.{IsNext, IsNext-same, select_next_lem}

-- The queues once the interrupted task has queued up again, if it was running.
abbrev pub requeued : Option ℕ → (ℕ → Tcb) → Queues → Queues
requeued none f q = q
requeued (some c) f q = if is_running (f c).state then enqueue q (clamp (f c).priority) c else q

-- The interrupted task is one of the pool, and is in no queue while it runs.
abbrev pub CurrentFits : Option ℕ → (ℕ → Tcb) → Queues → Type 0
CurrentFits none f q = Unit {0}
CurrentFits (some c) f q = (c < max_tasks) × ((f c).state ≡ TaskState.running → Absent c q)

abbrev with_sp : ℕ → ℕ → Kernel → Kernel
with_sp sp c k = record k { tcb = update k.tcb c (record (k.tcb c) { sp = sp }) }

abbrev with_tcbs : (ℕ → Tcb) → Kernel → Kernel
with_tcbs f k = record k { tcb = f }

-- What saving the interrupted task leaves: the queues `q`, and TCBs that differ from those before
-- in the stack pointer and the state of that task at most.
record Saved (o : Option ℕ) (sp : ℕ) (k : Kernel) (q : Queues) (w : Web) (f : ℕ → Tcb)
    : Type 0 where
  holds : Holds (rewired k w) q
  affinity : (t : ℕ) → (f t).affinity_mask ≡ (k.tcb t).affinity_mask
  kept : (c : ℕ) → o ≡ some c → (f c).sp ≡ sp

state-ready : (c : ℕ) (k : Kernel) → ((set_state TaskState.ready c k).tcb c).state ≡ TaskState.ready
state-ready c k = ground arith

level-saved :
    (sp c : ℕ) (k : Kernel) → level (set_state TaskState.ready c (with_sp sp c k)) c ≡ level k c
level-saved sp c k = ground arith

running_of : (s : TaskState) → is_running s ≡ true → s ≡ TaskState.running
running_of TaskState.running e = refl
running_of TaskState.ready e = cc
running_of TaskState.blocked e = cc
running_of TaskState.suspended e = cc
running_of TaskState.deleted e = cc

module _ (sp : ℕ) (k : Kernel) (q : Queues) (h : Holds k q) where
  save_running :
      (c : ℕ)
      → c < max_tasks
      → Absent c q
      → (w : Web) × (f : ℕ → Tcb) × (sched_add_ready
            (some c)
            (set_state TaskState.ready c (with_sp sp c k))
          ≡ some (with_tcbs f (rewired k w)))
        × Saved (some c) sp k (enqueue q (level k c) c) w f
  save_running c lt out =
      let k1 = set_state TaskState.ready c (with_sp sp c k) in
      let (w, e, m) =
        sched_add_ready_lem k1 q c (Holds-same h refl refl refl) lt out
          (ap is_deleted (state-ready c (with_sp sp c k))) in
      (
        w,
        (set_state TaskState.ready c k1).tcb,
        e,
        record {
          holds =
              subst (λ p. Holds (rewired k w) (enqueue q p c)) (level-saved sp c k)
                (Holds-same m.holds refl refl refl);
          affinity = λ t. ground arith;
          kept = λ d e'. ground arith;
        },
      )

  save_stopped : (c : ℕ) → Saved (some c) sp k q (web_of k) (with_sp sp c k).tcb
  save_stopped c = record { holds = h; affinity = λ t. ground arith; kept = λ d e. ground arith }

  -- Saving the interrupted task returns.
  save_current_lem :
      CurrentFits (get_cpu k).current_task k.tcb q
      → (w : Web) × (f : ℕ → Tcb) × (save_current sp k ≡ some (with_tcbs f (rewired k w)))
        × Saved (get_cpu k).current_task sp k (requeued (get_cpu k).current_task k.tcb q) w f
  unfolding save_current
  save_current_lem fits = elim (Option-cases (get_cpu k).current_task) [
    | inl e ↦ rw e (
      web_of k,
      k.tcb,
      rw (e, save_current) refl,
      record { holds = h; affinity = λ t. refl; kept = λ c e'. cc },
    )
    | inr (c, e) ↦ elim (Bool-cases (is_running (k.tcb c).state)) [
      | inl run ↦
          let fits' = subst (λ o. CurrentFits o k.tcb q) e fits in
          let (w, f, r, s) = save_running c fits'.0 (fits'.1 (running_of _ run)) in
          (w, f, rw (e, save_current, run) r, rw (e, run) s)
      | inr stop ↦ (
        web_of k,
        (with_sp sp c k).tcb,
        rw (e, save_current, stop) refl,
        rw (e, stop) (save_stopped c),
      )
    ]
  ]

-- What `sched_schedule` promises, with `q` the queues once the interrupted task is back in them:
-- the task that is next runs, no other task has left the queues, the lock is free again, and the
-- interrupted task has kept its stack pointer.
pub record Switched (sp : ℕ) (k : Kernel) (q : Queues) (t : ℕ) (k' : Kernel) : Type 0 where
  pub next : IsNext k q (get_cpu k).hartid t
  pub holds : Holds k' (dequeue t q)
  pub current : (get_cpu k').current_task ≡ some t
  pub runs : (k'.tcb t).state ≡ TaskState.running
  pub calm : (get_cpu k').need_reschedule ≡ 0
  pub released : k'.sched_lock ≡ false
  pub kept : (c : ℕ) → (get_cpu k).current_task ≡ some c → (k'.tcb c).sp ≡ sp
  pub memory : k'.mem ≡ k.mem
  pub nesting : (get_cpu k').irq_nesting ≡ (get_cpu k).irq_nesting

switched : ℕ → Kernel → Kernel
switched t k = sched_release (pmp_update_task (some t) (make_current t k))

switched_facts :
    (t : ℕ) (k : Kernel)
    → ((get_cpu (switched t k)).current_task ≡ some t)
      × (((switched t k).tcb t).state ≡ TaskState.running)
      × ((get_cpu (switched t k)).need_reschedule ≡ 0)
      × ((switched t k).sched_lock ≡ false)
unfolding switched sched_release pmp_update_task
switched_facts t k = (ground arith, ground arith, ground arith, refl)

switched-sp : (t c : ℕ) (k : Kernel) → ((switched t k).tcb c).sp ≡ (k.tcb c).sp
unfolding switched sched_release pmp_update_task
switched-sp t c k = ground arith

switched-nesting :
    (t : ℕ) (k : Kernel) → (get_cpu (switched t k)).irq_nesting ≡ (get_cpu k).irq_nesting
unfolding switched sched_release pmp_update_task
switched-nesting t k = ground arith

switched-mem : (t : ℕ) (k : Kernel) → (switched t k).mem ≡ k.mem
unfolding switched sched_release pmp_update_task
switched-mem t k = refl

switched-Holds : (t : ℕ) {k : Kernel} {q : Queues} → Holds k q → Holds (switched t k) q
unfolding switched sched_release pmp_update_task
switched-Holds t h = Holds-same h refl refl refl

idle-same :
    (core : ℕ) (k : Kernel) (w : Web) (f : ℕ → Tcb) (b : Bool)
    → task_get_idle_for_core core (with_tcbs f (rewired (record k { sched_lock = b }) w))
      ≡ task_get_idle_for_core core k
unfolding task_get_idle_for_core
idle-same core k w f b = refl

-- With the scheduler's lock free, ready queues that are well-formed lists, an idle task for the
-- core, and an interrupted task that is in the pool and in no queue while it runs, sched_schedule
-- returns: an interrupted task that still runs is requeued at the end of its priority's queue, the
-- task picked is the first that may run on the core in the highest queue that has one, or else the
-- core's idle task, it is taken out of the queues and no other task is, it is the running one, its
-- saved stack pointer is the result, the flag and the lock are clear, the interrupted task has kept
-- its stack pointer, and memory and the nesting count are as before.
pub sched_schedule_lem :
    (sp : ℕ) (k : Kernel) (q : Queues) (i : ℕ)
    → Holds k q
    → k.sched_lock ≡ false
    → CurrentFits (get_cpu k).current_task k.tcb q
    → task_get_idle_for_core (get_cpu k).hartid k ≡ some i
    → (t : ℕ) × (k' : Kernel) × (sched_schedule sp k ≡ some ((k'.tcb t).sp, k'))
      × Switched sp k (requeued (get_cpu k).current_task k.tcb q) t k'
unfolding sched_schedule switch_to switched
sched_schedule_lem sp k q i h free fits e =
    let core = (get_cpu k).hartid in
    let k1 = record k { sched_lock = true } in
    let (w, f, r, s) = save_current_lem sp k1 q (Holds-same h refl refl refl) fits in
    let k2 = with_tcbs f (rewired k1 w) in
    let q1 = requeued (get_cpu k).current_task k.tcb q in
    let h2 : Holds k2 q1 = Holds-same s.holds refl refl refl in
    let (t, n, next) = select_next_lem k2 q1 core h2 i (idle-same core k w f true ∙ e) in
    let (w', m, moved) = sched_remove_ready_lem k2 q1 t h2 in
    let k3 = rewired k2 w' in
    let (cur, run, calm, rel) = switched_facts t k3 in
    (
      t,
      switched t k3,
      >>=-some _ (sched_acquire_free k free) (>>=-some _ r (>>=-some _ n (>>=-some _ m refl))),
      record {
        next = IsNext-same k k2 q1 core t s.affinity (idle-same core k w f true) next;
        holds = switched-Holds t moved.holds;
        current = cur;
        runs = run;
        calm = calm;
        released = rel;
        kept = λ c e'. switched-sp t c k3 ∙ s.kept c e';
        memory = switched-mem t k3;
        nesting = switched-nesting t k3;
      },
    )
