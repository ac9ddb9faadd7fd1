-- ===== src/Rtos/Delay/Wake.antt =====
-- The loop of `delay_check_wakeups`.
use djiang_oss_public.Prelude.{
  ℕ, suc, ◌<◌, ◌≤◌, ◌≡◌, refl, subst, ap, ◌∙◌, Bool, true, false, Option, some, List, [], ◌∷◌,
  arith, All, NotIn, if◌then◌else◌, leb, update, update-ne, ◌>>=◌, >>=-some,
}
use djiang_oss_public.Rtos.Types.{Kernel, Tcb, WakeReason}
use djiang_oss_public.Rtos.Lock.{delay_lock_irqsave, delay_lock_free, delay_unlock_irqrestore}
use djiang_oss_public.Rtos.Links.{Links}
use djiang_oss_public.Rtos.Links.Edit.{pop_cons}
use djiang_oss_public.Rtos.Ready.{clamp}
use djiang_oss_public.Rtos.Ready.View.{Queues, Absent, Holds, Holds-same, Web, rewired}
use djiang_oss_public.Rtos.Ready.Add.{enqueue}
use djiang_oss_public.Rtos.Block.{set_tcb, task_make_ready}
use djiang_oss_public.Rtos.Block.Laws.{woken, task_make_ready_lem}
use djiang_oss_public.Rtos.Delay.{delay_links, with_delays, take_sleeper, wake_loop}
use djiang_oss_public.Rtos.Delay.Sleepers.{Sleeps, Timed-update}

-- The tasks go to the ends of their queues, one after the other.
abbrev pub enqueue_all : (ℕ → Tcb) → Queues → List ℕ → Queues
enqueue_all f q [] = q
enqueue_all f q (t ∷ ts) = enqueue_all f (enqueue q (clamp (f t).priority) t) ts

abbrev pub Due : ℕ → (ℕ → Tcb) → List ℕ → Type 0
Due now f = All (λ t. (f t).wake_tick ≤ now)

abbrev pub Later : ℕ → (ℕ → Tcb) → List ℕ → Type 0
Later now f = All (λ t. now < (f t).wake_tick)

pub enqueue_all-update :
    (f : ℕ → Tcb) (t : ℕ) (b : Tcb) (q : Queues) (ts : List ℕ)
    → NotIn t ts
    → enqueue_all (update f t b) q ts ≡ enqueue_all f q ts
enqueue_all-update f t b q [] n = refl
enqueue_all-update f t b q (x ∷ ts) n =
    enqueue_all-update f t b (enqueue q (clamp (update f t b x).priority) x) ts n.1
    ∙ ap (λ (c : Tcb). enqueue_all f (enqueue q (clamp c.priority) x) ts) (update-ne f t x b n.0)

-- The TCB of a task that its timeout has woken.
abbrev pub risen : Tcb → Tcb
risen b = woken (record b { wake_reason = WakeReason.timeout })

-- One round of the loop.
wake_loop_step :
    (fuel now : ℕ) (state : Bool) (k : Kernel) (t : ℕ)
    → k.delay_list ≡ some t
    → leb (k.tcb t).wake_tick now ≡ true
    → wake_loop (suc fuel) now state k ≡ (
        task_make_ready t (delay_unlock_irqrestore state (take_sleeper t k)) >>= λ k'.
        delay_lock_irqsave k' >>= λ (state', k''). wake_loop fuel now state' k'')
unfolding wake_loop
wake_loop_step fuel now state k t e le = simp (e, wake_loop, le) refl

pub wake_loop_end :
    (fuel now : ℕ) (state : Bool) (k : Kernel) (ls : List ℕ)
    → Sleeps k ls
    → Later now k.tcb ls
    → wake_loop (suc fuel) now state k ≡ some (state, k)
unfolding wake_loop
wake_loop_end fuel now state k [] s later = simp (s.chain, wake_loop) refl
wake_loop_end fuel now state k (t ∷ ls) s later = simp (s.chain.0, wake_loop, leb_gt later.0) refl
  where
    leb_gt : {a b : ℕ} → b < a → leb a b ≡ false
    leb_gt h = ground arith

-- What the loop leaves when it has woken `es`: these are at the ends of their ready queues, in
-- order, with the reason for waking; the sleepers `ls` still sleep; other TCBs are untouched.
pub record Woken (k : Kernel) (q : Queues) (es ls : List ℕ) (k' : Kernel) : Type 0 where
  pub holds : Holds k' (enqueue_all k.tcb q es)
  pub sleeps : Sleeps k' ls
  pub awake : All (λ t. k'.tcb t ≡ risen (k.tcb t)) es
  pub others : (t : ℕ) → NotIn t es → k'.tcb t ≡ k.tcb t

-- One sleeper less: what `take_sleeper` leaves for a chain that starts with it.
taken :
    (k : Kernel) (t : ℕ) (ds : List ℕ)
    → Sleeps k (t ∷ ds)
    → (l : Links) × (take_sleeper t k
        ≡ set_tcb t (record (k.tcb t) { wake_reason = WakeReason.timeout }) (with_delays l k))
      × Sleeps
          (set_tcb t (record (k.tcb t) { wake_reason = WakeReason.timeout }) (with_delays l k))
          ds
unfolding take_sleeper
taken k t ds s =
    let (l, e, ed) = pop_cons t (delay_links k) ds s.chain s.distinct in
    (
      l,
      ap
          (λ (r : Option ℕ × Links).
            set_tcb t (record (k.tcb t) { wake_reason = WakeReason.timeout }) (with_delays r.1 k))
          e,
      record {
        chain = ed.chain;
        distinct = s.distinct.1;
        members = s.members.1;
        timed = Timed-update k.tcb t _ ds s.distinct.0 s.timed.1;
      },
    )

-- Waking after taking off the list comes to one change of the TCB.
risen_twice :
    (f : ℕ → Tcb) (t x : ℕ)
    → let g = update f t (record (f t) { wake_reason = WakeReason.timeout }) in
      update g t (woken (g t)) x ≡ update f t (risen (f t)) x
risen_twice f t x = ground arith

-- A round that wakes `t`, with the delay lock held before and after.
module _ (fuel now : ℕ) (state : Bool) (k : Kernel) (q : Queues) (t : ℕ) (ds : List ℕ) where
  unfoldable pub round_end : Links → Web → Kernel
  round_end l w = record (rewired (with_delays l k) w) {
    tcb = update k.tcb t (risen (k.tcb t));
    mie = false;
    delay_lock = true;
  }

  pub wake_round :
      Holds k q
      → Sleeps k (t ∷ ds)
      → (k.tcb t).wake_tick ≤ now
      → Absent t q
      → k.sched_lock ≡ false
      → k.mie ≡ false
      → (l : Links) × (w : Web) × (wake_loop (suc fuel) now state k
          ≡ wake_loop fuel now state (round_end l w))
        × Holds (round_end l w) (enqueue q (clamp (k.tcb t).priority) t)
        × Sleeps (round_end l w) ds
  unfolding round_end delay_unlock_irqrestore
  wake_round h s le out free off =
      let (l, e, s1) = taken k t ds s in
      let k1 =
        set_tcb t (record (k.tcb t) { wake_reason = WakeReason.timeout }) (with_delays l k) in
      let k2 = delay_unlock_irqrestore state k1 in
      let (w, r, m) =
        task_make_ready_lem t k2 q (Holds-same h refl refl refl) free s.members.0 out in
      let k3 = set_tcb t (woken (k2.tcb t)) (rewired k2 w) in
      let same : (x : ℕ) → k3.tcb x ≡ update k.tcb t (risen (k.tcb t)) x = risen_twice k.tcb t in
      (
        l,
        w,
        wake_loop_step fuel now state k t s.chain.0 (le→leb le)
            ∙ >>=-some _ (ap (λ x. task_make_ready t (delay_unlock_irqrestore state x)) e ∙ r) (
                >>=-some _ (delay_lock_free k3 refl) (λ i.
                  wake_loop fuel now (mie_back off i) (record (rewired (with_delays l k) w) {
                    tcb = λ x. same x i;
                    mie = false;
                    delay_lock = true;
                  }))),
        subst (λ p. Holds (round_end l w) (enqueue q p t)) (ground arith)
            (Holds-same m.holds refl refl refl),
        record {
          chain = s1.chain;
          distinct = s1.distinct;
          members = s1.members;
          timed = Timed-update k.tcb t (risen (k.tcb t)) ds s.distinct.0 s.timed.1;
        },
      )
    where
      le→leb : {a b : ℕ} → a ≤ b → leb a b ≡ true
      le→leb h = ground arith

      mie_back : k.mie ≡ false → (if state then true else k.mie) ≡ state
      mie_back e = ground arith
