-- ===== src/Rtos/Waiting/Block.antt =====
-- Going to sleep on a wait queue.
use djiang_oss_public.Prelude.{
  ℕ, ◌<◌, ◌≤◌, ◌≡◌, ◌≢◌, refl, sym, subst, ap, ◌∙◌, inl, inr, false, Option, some, List, [], ◌∷◌,
  arith, NotIn, Bool-cases, update, if◌then◌else◌, ◌==◌, >>=-some, All-map,
}
use djiang_oss_public.Rtos.Types.{Kernel, Tcb, TaskState, max_tasks, wait_forever}
use djiang_oss_public.Rtos.Links.{Links}
use djiang_oss_public.Rtos.Ready.View.{Queues, Absent, Holds, Holds-same}
use djiang_oss_public.Rtos.Block.{set_tcb}
use djiang_oss_public.Rtos.Block.Laws.{halted, task_block-Absent}
use djiang_oss_public.Rtos.WaitQueue.{with_next}
use djiang_oss_public.Rtos.WaitQueue.Laws.{Waits, Waits-same, Ranked, by_rank, waitqueue_add_lem}
use djiang_oss_public.Rtos.Delay.{with_delays, delay_links}
use djiang_oss_public.Rtos.Delay.Sleepers.{
  Sleeps, Sleeps-same, Timed-update, drowsy, by_time, delay_add_lem,
}
use djiang_oss_public.Rtos.Waiting.{deadline, arm_timeout, block_on}

-- The TCB of a task that is asleep on `obj`, and is to wake at a tick or to wait for ever.
abbrev pub sleeping : ℕ → ℕ → ℕ → Tcb → Tcb
sleeping obj timeout wake b =
    if timeout == wait_forever then halted obj b else drowsy wake (halted obj b)

-- The TCBs once `c` is asleep on `obj`, with a timeout or without.
abbrev pub parked_tcbs : ℕ → ℕ → ℕ → ℕ → (ℕ → Tcb) → ℕ → Tcb
parked_tcbs obj timeout wake c f =
    if timeout == wait_forever
    then update f c (halted obj (f c))
    else update (update f c (halted obj (f c))) c (drowsy wake (update f c (halted obj (f c)) c))

-- The sleepers then.
abbrev pub parked_sleepers : ℕ → ℕ → ℕ → (ℕ → Tcb) → List ℕ → List ℕ
parked_sleepers timeout wake c f ds = if timeout == wait_forever then ds else by_time f wake c ds

abbrev pub parked : ℕ → ℕ → ℕ → (ℕ → Option ℕ) → Links → Kernel → Kernel
parked obj timeout c n l k = record (with_delays l (with_next n k)) {
  tcb = parked_tcbs obj timeout (deadline timeout k) c k.tcb;
}

-- What going to sleep leaves: the ready queues as they were, the task in its place among the
-- waiters and, with a timeout, among the sleepers.
pub record Parked (obj timeout wake c : ℕ) (f : ℕ → Tcb) (q : Queues) (ws ds : List ℕ)
    (queue' : Option ℕ) (k' : Kernel) : Type 0 where
  pub holds : Holds k' q
  pub waits : Waits k' q queue' (by_rank f c ws)
  pub sleeps : Sleeps k' (parked_sleepers timeout wake c k'.tcb ds)
  pub state : (k'.tcb c).state ≡ TaskState.blocked
  pub blocked_on : (k'.tcb c).blocked_on ≡ obj
  pub own : k'.tcb c ≡ sleeping obj timeout wake (f c)
  pub others : (t : ℕ) → c ≢ t → k'.tcb t ≡ f t
  pub priorities : (t : ℕ) → (k'.tcb t).priority ≡ (f t).priority

pub Parked-same :
    {obj timeout wake c : ℕ} {f : ℕ → Tcb} {q : Queues} {ws ds : List ℕ} {queue' : Option ℕ}
    {k k' : Kernel}
    → Parked obj timeout wake c f q ws ds queue' k
    → k.next ≡ k'.next
    → k.ready_queue ≡ k'.ready_queue
    → k.address ≡ k'.address
    → delay_links k ≡ delay_links k'
    → k.tcb ≡ k'.tcb
    → Parked obj timeout wake c f q ws ds queue' k'
Parked-same {timeout = timeout} {wake = wake} {c = c} {ds = ds} {k' = k'} p e1 e2 e3 e4 e5 =
    record {
      holds = Holds-same p.holds e1 e2 e3;
      waits = Waits-same p.waits e1;
      sleeps =
          subst (λ g. Sleeps k' (parked_sleepers timeout wake c g ds)) e5
            (Sleeps-same p.sleeps e4 e5);
      state = ap (λ (g : ℕ → Tcb). (g c).state) (sym e5) ∙ p.state;
      blocked_on = ap (λ (g : ℕ → Tcb). (g c).blocked_on) (sym e5) ∙ p.blocked_on;
      own = ap (λ (g : ℕ → Tcb). g c) (sym e5) ∙ p.own;
      others = λ t ne. ap (λ (g : ℕ → Tcb). g t) (sym e5) ∙ p.others t ne;
      priorities = λ t. ap (λ (g : ℕ → Tcb). (g t).priority) (sym e5) ∙ p.priorities t;
    }

module _ (obj timeout c : ℕ) (k : Kernel) (ds : List ℕ) (s : Sleeps k ds) (lt : c < max_tasks)
    (new : NotIn c ds) (free : k.delay_lock ≡ false) where
  arm_timeout_lem :
      (l : Links) × (arm_timeout timeout c (set_tcb c (halted obj (k.tcb c)) k)
        ≡ some (parked obj timeout c k.next l k))
      × Sleeps (parked obj timeout c k.next l k) (
          parked_sleepers timeout
            (deadline timeout k)
            c
            (parked_tcbs obj timeout (deadline timeout k) c k.tcb)
            ds)
  unfolding arm_timeout
  arm_timeout_lem =
      let k1 = set_tcb c (halted obj (k.tcb c)) k in
      let s1 : Sleeps k1 ds = record {
        chain = s.chain;
        distinct = s.distinct;
        members = s.members;
        timed = Timed-update k.tcb c (halted obj (k.tcb c)) ds new s.timed;
      } in
      elim (Bool-cases (timeout == wait_forever)) [
        | inl e ↦ (delay_links k, rw e refl, rw e s1)
        | inr e ↦
            let (l, r, s2) = delay_add_lem k1 ds s1 free c (deadline timeout k) lt new in
            (l, rw e r, rw e s2)
      ]

module _ (obj timeout wake c : ℕ) (f : ℕ → Tcb) where
  parked-state : (parked_tcbs obj timeout wake c f c).state ≡ TaskState.blocked
  parked-state = ground arith

  parked-blocked_on : (parked_tcbs obj timeout wake c f c).blocked_on ≡ obj
  parked-blocked_on = ground arith

  parked-own : parked_tcbs obj timeout wake c f c ≡ sleeping obj timeout wake (f c)
  parked-own = ground arith

  parked-others : (t : ℕ) → c ≢ t → parked_tcbs obj timeout wake c f t ≡ f t
  parked-others t ne = ground arith

  parked-priority : (t : ℕ) → (parked_tcbs obj timeout wake c f t).priority ≡ (f t).priority
  parked-priority t = ground arith

-- Going to sleep returns, for a task that runs and waits for nothing else.
pub block_on_lem :
    (obj timeout c : ℕ) (queue : Option ℕ) (k : Kernel) (q : Queues) (ws ds : List ℕ)
    → Holds k q
    → Waits k q queue ws
    → Sleeps k ds
    → c < max_tasks
    → Absent c q
    → NotIn c ws
    → NotIn c ds
    → k.sched_lock ≡ false
    → k.delay_lock ≡ false
    → (queue' : Option ℕ) × (n : ℕ → Option ℕ) × (l : Links) × (block_on obj timeout queue c k
        ≡ some (queue', parked obj timeout c n l k))
      × Parked obj timeout (deadline timeout k) c k.tcb q ws ds queue' (parked obj timeout c n l k)
unfolding block_on
block_on_lem obj timeout c queue k q ws ds h v s lt out new_w new_d free dfree =
    let (queue', n, e, m) = waitqueue_add_lem k q queue ws h v c lt out new_w in
    let k1 = with_next n k in
    let s1 : Sleeps k1 ds = Sleeps-same s refl refl in
    let (l, r, s2) = arm_timeout_lem obj timeout c k1 ds s1 lt new_d dfree in
    let wake = deadline timeout k in
    (
      queue',
      n,
      l,
      >>=-some _ e (>>=-some _ (task_block-Absent c k1 q m.holds free obj out) (>>=-some _ r refl)),
      record {
        holds = Holds-same m.holds refl refl refl;
        waits = Waits-same m.waits refl;
        sleeps = s2;
        state = parked-state obj timeout wake c k.tcb;
        blocked_on = parked-blocked_on obj timeout wake c k.tcb;
        own = parked-own obj timeout wake c k.tcb;
        others = parked-others obj timeout wake c k.tcb;
        priorities = parked-priority obj timeout wake c k.tcb;
      },
    )

-- A ranking is one of priorities alone.
Ranked-same :
    (f g : ℕ → Tcb) (ws : List ℕ)
    → ((t : ℕ) → (g t).priority ≡ (f t).priority)
    → Ranked f ws
    → Ranked g ws
Ranked-same f g [] same r = tt
Ranked-same f g (x ∷ ws) same r = (
  All-map (λ y (le : (f y).priority ≤ (f x).priority). omega (arith, same x, same y)) ws r.0,
  Ranked-same f g ws same r.1,
)
