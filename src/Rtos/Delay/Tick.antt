-- ===== src/Rtos/Delay/Tick.antt =====
-- `delay_check_wakeups` and `tick_increment` as a whole.
use djiang_oss_public.Prelude.{
  ℕ, zero, suc, ◌+◌, ◌%◌, ◌^◌, ◌<◌, ◌≤◌, ◌≡◌, ◌≢◌, refl, sym, subst, ap, ◌∙◌, Bool, true, false,
  some, List, [], ◌∷◌, ◌++◌, arith, length, length-append, length_of_Distinct, All, All-left,
  All-right, NotIn, Disjoint, Disjoint-sym, if◌then◌else◌, update, update-ne, update_self, >>=-some,
}
use djiang_oss_public.Rtos.Types.{Kernel, Tcb, Cpu, get_cpu, max_tasks, walk_fuel}
use djiang_oss_public.Rtos.Lock.{delay_lock_free, delay_unlock_irqrestore}
use djiang_oss_public.Rtos.Ready.{clamp}
use djiang_oss_public.Rtos.Ready.View.{Queues, Absent, Holds, Holds-same}
use djiang_oss_public.Rtos.Ready.Add.{enqueue, Disjoint-enqueue}
use djiang_oss_public.Rtos.Sched.{sched_request_switch}
use djiang_oss_public.Rtos.Delay.{wake_loop, delay_check_wakeups, tick_increment}
use djiang_oss_public.Rtos.Delay.Sleepers.{Sleeps, Sleeps-same, All-update}
use djiang_oss_public.Rtos.Delay.Wake.{
  Woken, Due, Later, enqueue_all-update, risen, round_end, wake_round, wake_loop_end,
}

-- The state in which the loop runs: its own lock held, the scheduler's free, interrupts off.
abbrev Locked : Kernel → Type 0
Locked k = (k.sched_lock ≡ false) × (k.mie ≡ false) × (k.delay_lock ≡ true)

awake_cons :
    (f g : ℕ → Tcb) (t : ℕ) (es : List ℕ)
    → NotIn t es
    → All (λ x. g x ≡ risen (update f t (risen (f t)) x)) es
    → All (λ x. g x ≡ risen (f x)) es
awake_cons f g t [] n a = tt
awake_cons f g t (x ∷ es) n a =
    (a.0 ∙ ap risen (update-ne f t x (risen (f t)) n.0), awake_cons f g t es n.1 a.1)

wake_loop_lem :
    (fuel now : ℕ) (state : Bool) (es ls : List ℕ) (k : Kernel) (q : Queues)
    → length es < fuel
    → Holds k q
    → Sleeps k (es ++ ls)
    → Due now k.tcb es
    → Later now k.tcb ls
    → ((p : ℕ) → Disjoint (q p) es)
    → Locked k
    → (k' : Kernel) × (wake_loop fuel now state k ≡ some (state, k'))
      × Woken k q es ls k'
      × Locked k'
unfolding round_end
wake_loop_lem zero now state es ls k q lt h s due later out locked = absurd (omega arith)
wake_loop_lem (suc fuel) now state [] ls k q lt h s due later out locked = (
  k,
  wake_loop_end fuel now state k ls s later,
  record { holds = h; sleeps = s; awake = tt; others = λ t n. refl },
  locked,
)
wake_loop_lem (suc fuel) now state (t ∷ es) ls k q lt h s due later out locked =
    let absent : Absent t q = λ p. (Disjoint-sym (q p) (t ∷ es) (out p)).0 in
    let fresh = All-left (λ x. t ≢ x) es ls s.distinct.0 in
    let (l, w, e, h1, s1) =
      wake_round fuel now state k q t (es ++ ls) h s due.0 absent locked.0 locked.1 in
    let k1 = round_end fuel now state k q t (es ++ ls) l w in
    let f1 = update k.tcb t (risen (k.tcb t)) in
    let (k', r, m, z) =
      wake_loop_lem fuel now state es ls k1 (enqueue q (clamp (k.tcb t).priority) t) (omega arith)
        h1 s1 (All-update (λ b. b.wake_tick ≤ now) k.tcb t (risen (k.tcb t)) es fresh due.1)
        (All-update (λ b. now < b.wake_tick) k.tcb t (risen (k.tcb t)) ls
          (All-right (λ x. t ≢ x) es ls s.distinct.0) later)
        (Disjoint-enqueue q (clamp (k.tcb t).priority) t es fresh
          (λ p. Disjoint-sym es (q p) (Disjoint-sym (q p) (t ∷ es) (out p)).1))
        (locked.0, refl, refl) in
    (
      k',
      e ∙ r,
      record {
        holds =
            subst (Holds k')
              (enqueue_all-update k.tcb t (risen (k.tcb t)) (enqueue q (clamp (k.tcb t).priority) t)
                es fresh)
              m.holds;
        sleeps = m.sleeps;
        awake = (
          m.others t fresh ∙ update_self k.tcb t (risen (k.tcb t)),
          awake_cons k.tcb k'.tcb t es fresh m.awake,
        );
        others = λ x n. m.others x n.1 ∙ update-ne k.tcb t x (risen (k.tcb t)) (λ q'. n.0 (sym q'));
      },
      z,
    )

-- `delay_check_wakeups` returns, having woken the sleepers that are due and no others.
module _ (now : ℕ) (es ls : List ℕ) (k : Kernel) (q : Queues) where
  -- With both locks free and a delay list that is a list of due sleepers, none of them in a ready
  -- queue, followed by later ones, delay_check_wakeups returns: the due ones are at the ends of
  -- their ready queues, in order, with the reason `timeout`, the later ones still sleep, no other
  -- TCB changes, and the locks and the interrupt bit are as before.
  pub delay_check_wakeups_lem :
      Holds k q
      → Sleeps k (es ++ ls)
      → Due now k.tcb es
      → Later now k.tcb ls
      → ((p : ℕ) → Disjoint (q p) es)
      → k.sched_lock ≡ false
      → k.delay_lock ≡ false
      → (k' : Kernel) × (delay_check_wakeups now k ≡ some k')
        × Woken k q es ls k'
        × (k'.sched_lock ≡ false)
        × (k'.delay_lock ≡ false)
        × (k'.mie ≡ k.mie)
  unfolding delay_check_wakeups delay_unlock_irqrestore
  delay_check_wakeups_lem h s due later out free dfree =
      let k1 = record k { mie = false; delay_lock = true } in
      let short : length es < walk_fuel = omega (
        arith,
        length_of_Distinct max_tasks (es ++ ls) s.distinct s.members,
        length-append es ls,
      ) in
      let (k2, e, m, z) =
        wake_loop_lem walk_fuel now k.mie es ls k1 q short (Holds-same h refl refl refl)
          (Sleeps-same s refl refl) due later out (free, refl, refl) in
      (
        delay_unlock_irqrestore k.mie k2,
        >>=-some _ (delay_lock_free k dfree) (>>=-some _ e refl),
        record {
          holds = Holds-same m.holds refl refl refl;
          sleeps = Sleeps-same m.sleeps refl refl;
          awake = m.awake;
          others = m.others;
        },
        z.0,
        refl,
        mie_back k.mie k2.mie z.1,
      )
    where
      mie_back : (a b : Bool) → b ≡ false → (if a then true else b) ≡ a
      mie_back a b e = ground arith

-- A tick counts, wakes the sleepers that are due at the new count, and asks for a switch.
module _ (es ls : List ℕ) (k : Kernel) (q : Queues) where
  -- With both locks free and a delay list of sleepers due at the next tick, none of them in a ready
  -- queue, followed by later ones, tick_increment returns: the due ones are woken in order and no
  -- other TCB changes, a switch is asked for, and the delay lock is free.
  tick_increment_lem :
      Holds k q
      → Sleeps k (es ++ ls)
      → Due ((k.tick_count + 1) % 2 ^ 64) k.tcb es
      → Later ((k.tick_count + 1) % 2 ^ 64) k.tcb ls
      → ((p : ℕ) → Disjoint (q p) es)
      → k.sched_lock ≡ false
      → k.delay_lock ≡ false
      → (k' : Kernel) × (tick_increment k ≡ some k')
        × Woken k q es ls k'
        × ((get_cpu k').need_reschedule ≡ 1)
        × (k'.delay_lock ≡ false)
  unfolding tick_increment sched_request_switch
  tick_increment_lem h s due later out free dfree =
      let now = (k.tick_count + 1) % 2 ^ 64 in
      let k1 = record k { tick_count = now } in
      let (k2, e, m, f, d, mie) =
        delay_check_wakeups_lem now es ls k1 q (Holds-same h refl refl refl)
          (Sleeps-same s refl refl) due later out free dfree in
      (
        sched_request_switch k2,
        >>=-some _ e refl,
        record {
          holds = Holds-same m.holds refl refl refl;
          sleeps = Sleeps-same m.sleeps refl refl;
          awake = m.awake;
          others = m.others;
        },
        ap (λ (c : Cpu). c.need_reschedule) (update_self k2.cpus k2.hart _),
        d,
      )
