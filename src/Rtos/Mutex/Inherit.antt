-- ===== src/Rtos/Mutex/Inherit.antt =====
-- Priority inheritance.
use djiang_oss_public.Prelude.{
  ℕ, ◌<◌, ◌≡◌, ◌≢◌, refl, subst, ap, ◌∙◌, inl, inr, true, false, Option, some, List, arith, NotIn,
  Disjoint, All-erase, Bool-cases, update, update_self, update-ne, ltb, lt→ltb, sym, fun_ext,
  eq_cases, ltb→lt, if◌then◌else◌, ◌>>=◌, >>=-some,
}
use djiang_oss_public.Rtos.Types.{Kernel, Tcb, TaskState, max_tasks}
use djiang_oss_public.Rtos.Links.Chain.{Chain}
use djiang_oss_public.Rtos.Ready.{clamp, set_state, is_deleted, sched_remove_ready, sched_add_ready}
use djiang_oss_public.Rtos.Ready.View.{Queues, Holds, Holds-same, Web, rewired, web_of}
use djiang_oss_public.Rtos.Ready.Add.{enqueue, sched_add_ready_lem}
use djiang_oss_public.Rtos.Ready.Remove.{dequeue, sched_remove_ready_lem, Absent-dequeue}
use djiang_oss_public.Rtos.Mutex.{is_ready, set_priority, boost}

-- The ready queues once the owner has been boosted for the task `c`.
abbrev pub boosted : (ℕ → Tcb) → ℕ → ℕ → Queues → Queues
boosted f owner c q =
    if ltb (f owner).priority (f c).priority
    then (if is_ready (f owner).state
        then enqueue (dequeue owner q) (clamp (f c).priority) owner
        else q)
    else q

abbrev pub with_tcbs : (ℕ → Tcb) → Kernel → Kernel
with_tcbs f k = record k { tcb = f }

-- The owner's TCB with at least a priority, and the TCBs when the owner `o` has at least that of `c`.
abbrev pub raised_to : ℕ → Tcb → Tcb
raised_to prio b = record b { priority = if ltb b.priority prio then prio else b.priority }

abbrev pub inherited : (ℕ → Tcb) → ℕ → ℕ → ℕ → Tcb
inherited f o c = update f o (raised_to (f c).priority (f o))

raised_low :
    (prio : ℕ) (b : Tcb) → b.priority < prio → raised_to prio b ≡ record b { priority = prio }
raised_low prio b lt = rw (lt→ltb b.priority prio lt) refl

raised_high : (prio : ℕ) (b : Tcb) → ltb b.priority prio ≡ false → raised_to prio b ≡ b
raised_high prio b e = rw e refl

-- What boosting leaves: queues `q'`, TCBs `f` that differ in the owner's priority alone, which is at
-- least that of `c`, and unchanged lists of other tasks.
pub record Boosted (k : Kernel) (owner c : ℕ) (q q' : Queues) (w : Web) (f : ℕ → Tcb) : Type 0 where
  pub holds : Holds (rewired k w) q'
  pub own : f owner ≡ raised_to (k.tcb c).priority (k.tcb owner)
  pub others : (t : ℕ) → owner ≢ t → f t ≡ k.tcb t
  pub ticks : (t : ℕ) → (f t).wake_tick ≡ (k.tcb t).wake_tick
  pub frame :
      (hd : Option ℕ) (zs : List ℕ)
      → ((p : ℕ) → Disjoint (q p) zs)
      → NotIn owner zs
      → Chain k.next hd zs
      → Chain w.next hd zs

ready_of : (s : TaskState) → is_ready s ≡ true → s ≡ TaskState.ready
ready_of TaskState.ready e = refl
ready_of TaskState.running e = cc
ready_of TaskState.blocked e = cc
ready_of TaskState.suspended e = cc
ready_of TaskState.deleted e = cc

module _ (k : Kernel) (q : Queues) (owner c : ℕ) (h : Holds k q)
    (low : (k.tcb owner).priority < (k.tcb c).priority) where
  boost_waiting : Boosted k owner c q q (web_of k) (set_priority owner (k.tcb c).priority k).tcb
  boost_waiting = record {
    holds = h;
    own = update_self k.tcb owner _ ∙ sym (raised_low (k.tcb c).priority (k.tcb owner) low);
    others = λ t ne. update-ne k.tcb owner t _ ne;
    ticks = λ t. ground arith;
    frame = λ hd zs d n ch. ch;
  }

  boost_ready :
      owner < max_tasks
      → (k.tcb owner).state ≡ TaskState.ready
      → (w : Web) × (f : ℕ → Tcb) × ((sched_remove_ready
              (some owner)
              (set_priority owner (k.tcb c).priority k)
            >>= λ k2. sched_add_ready (some owner) k2)
          ≡ some (with_tcbs f (rewired k w)))
        × Boosted k owner c q (enqueue (dequeue owner q) (clamp (k.tcb c).priority) owner) w f
  boost_ready lt st =
      let k1 = set_priority owner (k.tcb c).priority k in
      let h1 : Holds k1 q = Holds-same h refl refl refl in
      let (w1, e1, m1) = sched_remove_ready_lem k1 q owner h1 in
      let k2 = rewired k1 w1 in
      let out = Absent-dequeue owner h1 in
      let (w2, e2, m2) =
        sched_add_ready_lem k2 (dequeue owner q) owner m1.holds lt out
          (ap is_deleted (state_kept ∙ st)) in
      (
        w2,
        (set_state TaskState.ready owner k1).tcb,
        >>=-some _ e1 e2,
        record {
          holds =
              subst (λ p. Holds (rewired k w2) (enqueue (dequeue owner q) p owner))
                (ap (λ (b : Tcb). clamp b.priority) (update_self k.tcb owner _))
                (Holds-same m2.holds refl refl refl);
          own =
              update_self k1.tcb owner _
              ∙ ap (λ (b : Tcb). record b { state = TaskState.ready }) (update_self k.tcb owner _)
              ∙ (λ i. record (k.tcb owner) { priority = (k.tcb c).priority; state = sym st i })
              ∙ sym (raised_low (k.tcb c).priority (k.tcb owner) low);
          others = λ t ne. update-ne k1.tcb owner t _ ne ∙ update-ne k.tcb owner t _ ne;
          ticks = λ t. ground arith;
          frame = λ hd zs d n ch.
              m2.frame hd zs (λ p. dequeue-Disjoint p zs (d p)) n (m1.frame hd zs d n ch);
        },
      )
    where
      state_kept : ((set_priority owner (k.tcb c).priority k).tcb owner).state ≡ (k.tcb owner).state
      state_kept = ap (λ (b : Tcb). b.state) (update_self k.tcb owner _)

      dequeue-Disjoint : (p : ℕ) (zs : List ℕ) → Disjoint (q p) zs → Disjoint (dequeue owner q p) zs
      dequeue-Disjoint p zs d = All-erase (λ x. NotIn x zs) owner (q p) d

pub Boosted-inherited :
    {k : Kernel} {owner c : ℕ} {q q' : Queues} {w : Web} {f : ℕ → Tcb}
    → Boosted k owner c q q' w f
    → f ≡ inherited k.tcb owner c
Boosted-inherited {k = k} {owner = owner} {c = c} {f = f} b = fun_ext (λ t.
    elim (eq_cases owner t) [
      | inl e ↦
          ap f (sym e) ∙ b.own ∙ sym (update_self k.tcb owner _) ∙ ap (inherited k.tcb owner c) e
      | inr ne ↦ b.others t ne ∙ sym (update-ne k.tcb owner t _ ne)
    ])

-- Boosting returns, whatever the owner is doing.
pub boost_lem :
    (k : Kernel) (q : Queues) (owner c : ℕ)
    → Holds k q
    → owner < max_tasks
    → (w : Web) × (f : ℕ → Tcb) × (boost owner c k ≡ some (with_tcbs f (rewired k w)))
      × Boosted k owner c q (boosted k.tcb owner c q) w f
unfolding boost
boost_lem k q owner c h lt = elim (Bool-cases (ltb (k.tcb owner).priority (k.tcb c).priority)) [
  | inl e ↦
      let low = ltb→lt (k.tcb owner).priority (k.tcb c).priority e in
      elim (Bool-cases (is_ready (k.tcb owner).state)) [
        | inl r ↦
            let (w, f, a, b) = boost_ready k q owner c h low lt (ready_of (k.tcb owner).state r) in
            (w, f, rw (e, r) a, rw (e, r) b)
        | inr r ↦ (
          web_of k,
          (set_priority owner (k.tcb c).priority k).tcb,
          rw (e, r) refl,
          rw (e, r) (boost_waiting k q owner c h low),
        )
      ]
  | inr e ↦ (
    web_of k,
    k.tcb,
    rw e refl,
    rw e (record {
      holds = h;
      own = sym (raised_high (k.tcb c).priority (k.tcb owner) e);
      others = λ t ne. refl;
      ticks = λ t. refl;
      frame = λ hd zs d n ch. ch;
    }),
  )
]
