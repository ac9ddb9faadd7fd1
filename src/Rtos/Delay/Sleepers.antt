-- ===== src/Rtos/Delay/Sleepers.antt =====
-- The delay list as a list of tasks in the order of their wake-up.
use djiang_oss_public.Prelude.{
  ℕ, ◌<◌, ◌≤◌, ◌≡◌, refl, sym, subst, ap, inl, inr, true, false, some, List, [], ◌∷◌, ◌++◌, arith,
  length, All, All-append, All-left, All-right, All-map, NotIn, Distinct, Disjoint-cons,
  Distinct-append, Distinct-Disjoint, Distinct-left, Distinct-right, length_of_Distinct, erase,
  erase-absent, erase-middle, split_at, Distinct-erase, All-erase, ◌==◌, ◌∙◌, Bool-cases, update,
  update-ne, update_self, >>=-some,
}
use djiang_oss_public.Rtos.Types.{Kernel, Tcb, WakeReason, max_tasks, walk_fuel}
use djiang_oss_public.Rtos.Lock.{restore, delay_lock_free, delay_unlock_irqrestore}
use djiang_oss_public.Rtos.Links.{Links}
use djiang_oss_public.Rtos.Links.Chain.{Chain}
use djiang_oss_public.Rtos.Links.Walk.{before, from, before-append-from}
use djiang_oss_public.Rtos.Links.Edit.{Edited, insert_lem, remove_present, remove_absent}
use djiang_oss_public.Rtos.Block.{set_tcb}
use djiang_oss_public.Rtos.Delay.{
  delay_links, with_delays, sleeps_past, delay_add_locked, delay_add, delay_remove,
}

-- Earliest wake-up first.
abbrev pub Timed : (ℕ → Tcb) → List ℕ → Type 0
Timed f [] = Unit {0}
Timed f (x ∷ xs) = All (λ y. (f x).wake_tick ≤ (f y).wake_tick) xs × Timed f xs

-- The delay list holds the tasks `ds`.
pub record Sleeps (k : Kernel) (ds : List ℕ) : Type 0 where
  pub chain : Chain k.delay_next k.delay_list ds
  pub distinct : Distinct ds
  pub members : All (λ t. t < max_tasks) ds
  pub timed : Timed k.tcb ds

-- The view depends on the delay list and the TCBs alone.
pub Sleeps-same :
    {k k' : Kernel} {ds : List ℕ}
    → Sleeps k ds
    → delay_links k ≡ delay_links k'
    → k.tcb ≡ k'.tcb
    → Sleeps k' ds
Sleeps-same {ds = ds} s e f = record {
  chain = subst (λ (l : Links). Chain l.next l.first ds) e s.chain;
  distinct = s.distinct;
  members = s.members;
  timed = subst (λ g. Timed g ds) f s.timed;
}

-- Where a task that wakes at `wake` goes: behind all that wake no later.
abbrev pub by_time : (ℕ → Tcb) → ℕ → ℕ → List ℕ → List ℕ
by_time f wake t ds = before (sleeps_past f wake) ds ++ t ∷ from (sleeps_past f wake) ds

module _ (f : ℕ → Tcb) (wake t : ℕ) where
  All-by_time : (P : ℕ → Type 0) (ds : List ℕ) → P t → All P ds → All P (by_time f wake t ds)
  All-by_time P ds p a =
      let s = before (sleeps_past f wake) ds in
      let r = from (sleeps_past f wake) ds in
      let b = subst (All P) (sym (before-append-from (sleeps_past f wake) ds)) a in
      All-append P s (t ∷ r) (All-left P s r b) (p, All-right P s r b)

  Distinct-by_time : (ds : List ℕ) → Distinct ds → NotIn t ds → Distinct (by_time f wake t ds)
  Distinct-by_time ds d n =
      let s = before (sleeps_past f wake) ds in
      let r = from (sleeps_past f wake) ds in
      let e = sym (before-append-from (sleeps_past f wake) ds) in
      let d' = subst Distinct e d in
      let n' = subst (NotIn t) e n in
      Distinct-append s (t ∷ r) (Distinct-left s r d') (All-right _ s r n', Distinct-right s r d')
        (Disjoint-cons t s r (All-left _ s r n') (Distinct-Disjoint s r d'))

  -- Insertion keeps the list in order.
  by_time-Timed :
      (ds : List ℕ) → (f t).wake_tick ≡ wake → Timed f ds → Timed f (by_time f wake t ds)
  by_time-Timed [] w r = (tt, tt)
  by_time-Timed (x ∷ ds) w r = elim (Bool-cases (sleeps_past f wake x)) [
    | inl e ↦ rw e (
      ((ground arith), All-map (λ y (le : (f x).wake_tick ≤ (f y).wake_tick). ground arith) ds r.0),
      r,
    )
    | inr e ↦ rw e (
      All-by_time (λ y. (f x).wake_tick ≤ (f y).wake_tick) ds (ground arith) r.0,
      by_time-Timed ds w r.1,
    )
  ]

-- The order is one of the times alone.
pub Timed-same :
    (f g : ℕ → Tcb) (ds : List ℕ)
    → ((t : ℕ) → (g t).wake_tick ≡ (f t).wake_tick)
    → Timed f ds
    → Timed g ds
Timed-same f g [] same r = tt
Timed-same f g (x ∷ ds) same r = (
  All-map (λ y (le : (f x).wake_tick ≤ (f y).wake_tick). omega (arith, same x, same y)) ds r.0,
  Timed-same f g ds same r.1,
)

-- A change of the TCB of another task does not disturb what holds of the TCBs of some.
pub All-update :
    (P : Tcb → Type 0) (f : ℕ → Tcb) (t : ℕ) (b : Tcb) (ds : List ℕ)
    → NotIn t ds
    → All (λ x. P (f x)) ds
    → All (λ x. P (update f t b x)) ds
All-update P f t b [] n a = tt
All-update P f t b (x ∷ ds) n a =
    (subst P (sym (update-ne f t x b n.0)) a.0, All-update P f t b ds n.1 a.1)

pub Timed-update :
    (f : ℕ → Tcb) (t : ℕ) (b : Tcb) (ds : List ℕ)
    → NotIn t ds
    → Timed f ds
    → Timed (update f t b) ds
Timed-update f t b [] n r = tt
Timed-update f t b (x ∷ ds) n r = (
  subst (λ (c : Tcb). All (λ y. c.wake_tick ≤ (update f t b y).wake_tick) ds)
      (sym (update-ne f t x b n.0))
      (All-update (λ c. (f x).wake_tick ≤ c.wake_tick) f t b ds n.1 r.0),
  Timed-update f t b ds n.1 r.1,
)

-- A task that goes to sleep: its TCB, and the place that it gets.
abbrev pub drowsy : ℕ → Tcb → Tcb
drowsy wake b = record b { wake_tick = wake; wake_reason = WakeReason.none }

module _ (k : Kernel) (ds : List ℕ) (s : Sleeps k ds) (t wake : ℕ) (lt : t < max_tasks)
    (new : NotIn t ds) where
  pub delay_add_locked_lem :
      (l : Links) × (delay_add_locked t wake k
        ≡ some (with_delays l (set_tcb t (drowsy wake (k.tcb t)) k)))
      × Sleeps
          (with_delays l (set_tcb t (drowsy wake (k.tcb t)) k))
          (by_time (update k.tcb t (drowsy wake (k.tcb t))) wake t ds)
  unfolding delay_add_locked
  delay_add_locked_lem =
      let k1 = set_tcb t (drowsy wake (k.tcb t)) k in
      let (l, e, ed) =
        insert_lem (sleeps_past k1.tcb wake) walk_fuel t (delay_links k1) ds s.chain
          (omega (arith, length_of_Distinct max_tasks ds s.distinct s.members)) s.distinct new in
      (
        l,
        >>=-some _ e refl,
        record {
          chain = ed.chain;
          distinct = Distinct-by_time k1.tcb wake t ds s.distinct new;
          members = All-by_time k1.tcb wake t _ ds lt s.members;
          timed =
              by_time-Timed k1.tcb wake t ds
                (ap (λ (b : Tcb). b.wake_tick) (update_self k.tcb t (drowsy wake (k.tcb t))))
                (Timed-update k.tcb t (drowsy wake (k.tcb t)) ds new s.timed);
        },
      )

module _ (k : Kernel) (ds : List ℕ) (s : Sleeps k ds) (free : k.delay_lock ≡ false) (t : ℕ) where
  -- `delay_add` puts the task in its place; locks and interrupts are as before.
  pub delay_add_lem :
      (wake : ℕ)
      → t < max_tasks
      → NotIn t ds
      → (l : Links) × (delay_add t wake k
          ≡ some (with_delays l (set_tcb t (drowsy wake (k.tcb t)) k)))
        × Sleeps
            (with_delays l (set_tcb t (drowsy wake (k.tcb t)) k))
            (by_time (update k.tcb t (drowsy wake (k.tcb t))) wake t ds)
  unfolding delay_add delay_unlock_irqrestore
  delay_add_lem wake lt new =
      let k1 = record k { mie = false; delay_lock = true } in
      let (l, e, s1) = delay_add_locked_lem k1 ds (Sleeps-same s refl refl) t wake lt new in
      (
        l,
        >>=-some _ (delay_lock_free k free) (
            >>=-some _ e (λ i. some (record (with_delays l (set_tcb t (drowsy wake (k.tcb t)) k)) {
              delay_lock = sym free i;
              mie = restore k.mie i;
            }))),
        Sleeps-same s1 refl refl,
      )

  Timed-erase : (f : ℕ → Tcb) (es : List ℕ) → Timed f es → Timed f (erase t es)
  Timed-erase f [] r = tt
  Timed-erase f (x ∷ es) r = elim (Bool-cases (x == t)) [
    | inl e ↦ rw e r.1
    | inr e ↦
        rw e (All-erase (λ y. (f x).wake_tick ≤ (f y).wake_tick) t es r.0, Timed-erase f es r.1)
  ]

  removed_sleeper :
      (l : Links) (ys zs : List ℕ)
      → ds ≡ ys ++ t ∷ zs
      → NotIn t ys
      → Edited (delay_links k) t (ys ++ t ∷ zs) (ys ++ zs) l
      → Sleeps (with_delays l k) (erase t ds)
  removed_sleeper l ys zs e new ed = record {
    chain = subst (Chain l.next l.first) (sym (ap (erase t) e ∙ erase-middle t ys zs new)) ed.chain;
    distinct = Distinct-erase t ds s.distinct;
    members = All-erase _ t ds s.members;
    timed = Timed-erase k.tcb ds s.timed;
  }

  -- `delay_remove` takes the task out, if it is there.
  pub delay_remove_lem :
      (l : Links) × (delay_remove t k ≡ some (with_delays l k))
      × Sleeps (with_delays l k) (erase t ds)
  unfolding delay_remove delay_unlock_irqrestore
  delay_remove_lem =
      let short : length ds < walk_fuel =
        omega (arith, length_of_Distinct max_tasks ds s.distinct s.members) in
      elim (split_at t ds) [
        | inr new ↦ (
          delay_links k,
          >>=-some _ (delay_lock_free k free) (
              >>=-some _ (remove_absent walk_fuel t (delay_links k) ds s.chain short new)
                (λ i. some (record k { delay_lock = sym free i; mie = restore k.mie i }))),
          subst (Sleeps k) (sym (erase-absent t ds new)) s,
        )
        | inl (ys, zs, e, new) ↦
            let (l, r, ed) =
              remove_present walk_fuel t (delay_links k) ys zs
                (subst (Chain k.delay_next k.delay_list) e s.chain)
                (subst (λ xs. length xs < walk_fuel) e short) (subst Distinct e s.distinct) in
            (
              l,
              >>=-some _ (delay_lock_free k free) (
                  >>=-some _ r (λ i.
                    some (record (with_delays l k) {
                      delay_lock = sym free i;
                      mie = restore k.mie i;
                    }))),
              removed_sleeper l ys zs e new ed,
            )
      ]
