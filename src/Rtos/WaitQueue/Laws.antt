-- ===== src/Rtos/WaitQueue/Laws.antt =====
-- Wait queues as lists of tasks.
use djiang_oss_public.Prelude.{
  ℕ, ◌<◌, ◌≤◌, ◌≡◌, refl, sym, subst, inl, inr, Option, none, some, List, [], ◌∷◌, ◌++◌, arith,
  length, All, All-append, All-left, All-right, All-map, All-erase, NotIn, Distinct, Disjoint,
  Disjoint-sym, Disjoint-cons, Disjoint-erase, Distinct-append, Distinct-Disjoint, Distinct-left,
  Distinct-right, Distinct-erase, erase, erase-absent, erase-middle, split_at, length_of_Distinct,
  Bool-cases, >>=-some,
}
use djiang_oss_public.Rtos.Types.{Kernel, Tcb, max_tasks, walk_fuel}
use djiang_oss_public.Rtos.Links.Chain.{Chain}
use djiang_oss_public.Rtos.Links.Walk.{before, from, before-append-from}
use djiang_oss_public.Rtos.Links.Edit.{
  Edited, insert_lem, pop_nil, pop_cons, remove_present, remove_absent,
}
use djiang_oss_public.Rtos.Ready.View.{Queues, Absent, Holds}
use djiang_oss_public.Rtos.WaitQueue.{
  wait_links, with_next, outranked, waitqueue_add, waitqueue_pop, waitqueue_remove,
}

-- The wait queue that starts at `queue` holds the tasks `ws`, apart from the ready queues `q`.
pub record Waits (k : Kernel) (q : Queues) (queue : Option ℕ) (ws : List ℕ) : Type 0 where
  pub chain : Chain k.next queue ws
  pub distinct : Distinct ws
  pub members : All (λ t. t < max_tasks) ws
  pub apart : (p : ℕ) → Disjoint (q p) ws

-- The view depends on the `next` fields alone.
pub Waits-same :
    {k k' : Kernel} {q : Queues} {queue : Option ℕ} {ws : List ℕ}
    → Waits k q queue ws
    → k.next ≡ k'.next
    → Waits k' q queue ws
Waits-same {queue = queue} {ws = ws} v e = record {
  chain = subst (λ n. Chain n queue ws) e v.chain;
  distinct = v.distinct;
  members = v.members;
  apart = v.apart;
}

-- Highest priority first.
abbrev pub Ranked : (ℕ → Tcb) → List ℕ → Type 0
Ranked f [] = Unit {0}
Ranked f (x ∷ xs) = All (λ y. (f y).priority ≤ (f x).priority) xs × Ranked f xs

-- Where a new task goes: behind all that have at least its priority.
abbrev pub by_rank : (ℕ → Tcb) → ℕ → List ℕ → List ℕ
by_rank f t ws = before (outranked f t) ws ++ t ∷ from (outranked f t) ws

short :
    {k : Kernel} {q : Queues} {queue : Option ℕ} {ws : List ℕ}
    → Waits k q queue ws
    → length ws < walk_fuel
short {ws = ws} v = omega (arith, length_of_Distinct max_tasks ws v.distinct v.members)

-- The ready queues survive an edit of nodes apart from them.
Holds-Edited :
    {k : Kernel} {q : Queues} (queue : Option ℕ) (t : ℕ) (ws zs : List ℕ) (h' : Option ℕ)
    (n : ℕ → Option ℕ)
    → Holds k q
    → ((p : ℕ) → Disjoint (q p) ws)
    → Absent t q
    → Edited (wait_links queue k) t ws zs (record { first = h'; next = n })
    → Holds (with_next n k) q
Holds-Edited {k} {q} queue t ws zs h' n h ap' out ed = record {
  chains = λ p lt.
      ed.frame (k.ready_queue p) (q p) (Disjoint-sym (q p) ws (ap' p)) (out p) (h.chains p lt);
  beyond = h.beyond;
  apart = h.apart;
  distinct = h.distinct;
  members = h.members;
  placed = h.placed;
}

module _ (f : ℕ → Tcb) (t : ℕ) where
  All-by_rank : (P : ℕ → Type 0) (ws : List ℕ) → P t → All P ws → All P (by_rank f t ws)
  All-by_rank P ws p a =
      let s = before (outranked f t) ws in
      let r = from (outranked f t) ws in
      let b = subst (All P) (sym (before-append-from (outranked f t) ws)) a in
      All-append P s (t ∷ r) (All-left P s r b) (p, All-right P s r b)

  Distinct-by_rank : (ws : List ℕ) → Distinct ws → NotIn t ws → Distinct (by_rank f t ws)
  Distinct-by_rank ws d n =
      let s = before (outranked f t) ws in
      let r = from (outranked f t) ws in
      let e = sym (before-append-from (outranked f t) ws) in
      let d' = subst Distinct e d in
      let n' = subst (NotIn t) e n in
      Distinct-append s (t ∷ r) (Distinct-left s r d') (All-right _ s r n', Distinct-right s r d')
        (Disjoint-cons t s r (All-left _ s r n') (Distinct-Disjoint s r d'))

  -- Insertion keeps the queue ranked.
  pub by_rank-Ranked : (ws : List ℕ) → Ranked f ws → Ranked f (by_rank f t ws)
  by_rank-Ranked [] r = (tt, tt)
  by_rank-Ranked (x ∷ ws) r = elim (Bool-cases (outranked f t x)) [
    | inl e ↦ rw e (
      ((ground arith), All-map (λ y (le : (f y).priority ≤ (f x).priority). ground arith) ws r.0),
      r,
    )
    | inr e ↦ rw e (
      All-by_rank (λ y. (f y).priority ≤ (f x).priority) ws (ground arith) r.0,
      by_rank-Ranked ws r.1,
    )
  ]

-- What an operation on a wait queue `ws` does with the task `t`: the queue holds `ws'` afterwards,
-- the ready queues are as before, and so is any list apart from `ws` and `t`.
pub record WaitsMoved (k : Kernel) (q : Queues) (t : ℕ) (ws ws' : List ℕ) (queue' : Option ℕ)
    (n : ℕ → Option ℕ) : Type 0 where
  pub holds : Holds (with_next n k) q
  pub waits : Waits (with_next n k) q queue' ws'
  pub frame :
      (h : Option ℕ) (zs : List ℕ) → Disjoint ws zs → NotIn t zs → Chain k.next h zs → Chain n h zs

module _ (k : Kernel) (q : Queues) (queue : Option ℕ) (ws : List ℕ) (h : Holds k q)
    (v : Waits k q queue ws) where
  -- Adding a task of the pool that is in no ready queue and does not wait puts it behind the
  -- waiters of at least its priority and before the others; the ready queues, and every list apart
  -- from the queue and the task, are as before.
  pub waitqueue_add_lem :
      (t : ℕ)
      → t < max_tasks
      → Absent t q
      → NotIn t ws
      → (queue' : Option ℕ) × (n : ℕ → Option ℕ) × (waitqueue_add queue t k
          ≡ some (queue', with_next n k))
        × WaitsMoved k q t ws (by_rank k.tcb t ws) queue' n
  unfolding waitqueue_add
  waitqueue_add_lem t lt out new =
      let (l, e, ed) =
        insert_lem (outranked k.tcb t) walk_fuel t (wait_links queue k) ws v.chain (short v)
          v.distinct new in
      (
        l.first,
        l.next,
        >>=-some _ e refl,
        record {
          holds = Holds-Edited queue t ws (by_rank k.tcb t ws) l.first l.next h v.apart out ed;
          waits = record {
            chain = ed.chain;
            distinct = Distinct-by_rank k.tcb t ws v.distinct new;
            members = All-by_rank k.tcb t _ ws lt v.members;
            apart = λ p. Disjoint-sym (by_rank k.tcb t ws) (q p) (
                All-by_rank k.tcb t (λ x. NotIn x (q p)) ws (out p)
                  (Disjoint-sym (q p) ws (v.apart p)));
          };
          frame = ed.frame;
        },
      )

  -- Popping an empty queue.
  pub waitqueue_pop_nil : ws ≡ [] → waitqueue_pop queue k ≡ (none, queue, k)
  unfolding waitqueue_pop
  waitqueue_pop_nil e =
      rw (pop_nil (wait_links queue k) (subst (Chain k.next queue) e v.chain)) refl

  waiting-Absent : (t : ℕ) (rest : List ℕ) → ws ≡ t ∷ rest → Absent t q
  waiting-Absent t rest e p =
      (Disjoint-sym (q p) (t ∷ rest) (subst (Disjoint (q p)) e (v.apart p))).0

  -- Popping takes the first task.
  pub waitqueue_pop_cons :
      (t : ℕ) (rest : List ℕ)
      → ws ≡ t ∷ rest
      → (queue' : Option ℕ) × (n : ℕ → Option ℕ) × (waitqueue_pop queue k
          ≡ (some t, queue', with_next n k))
        × WaitsMoved k q t ws rest queue' n
        × Absent t q
        × (t < max_tasks)
        × NotIn t rest
  unfolding waitqueue_pop
  waitqueue_pop_cons t rest e =
      let c = subst (Chain k.next queue) e v.chain in
      let d = subst Distinct e v.distinct in
      let m = subst (All (λ x. x < max_tasks)) e v.members in
      let (l, r, ed) = pop_cons t (wait_links queue k) rest c d in
      let ed' : Edited (wait_links queue k) t ws rest l =
        subst (λ xs. Edited (wait_links queue k) t xs rest l) (sym e) ed in
      (
        l.first,
        l.next,
        rw r refl,
        record {
          holds =
              Holds-Edited queue t ws rest l.first l.next h v.apart (waiting-Absent t rest e) ed';
          waits = record {
            chain = ed.chain;
            distinct = d.1;
            members = m.1;
            apart = λ p.
                Disjoint-sym rest (q p)
                  (Disjoint-sym (q p) (t ∷ rest) (subst (Disjoint (q p)) e (v.apart p))).1;
          };
          frame = ed'.frame;
        },
        waiting-Absent t rest e,
        m.0,
        d.0,
      )

  -- Removing a task that is in no ready queue, whether it waits here or not.
  pub waitqueue_remove_lem :
      (t : ℕ)
      → Absent t q
      → (queue' : Option ℕ) × (n : ℕ → Option ℕ) × (waitqueue_remove queue t k
          ≡ some (queue', with_next n k))
        × WaitsMoved k q t ws (erase t ws) queue' n
  unfolding waitqueue_remove
  waitqueue_remove_lem t out = elim (split_at t ws) [
    | inr new ↦ (
      queue,
      k.next,
      >>=-some _ (remove_absent walk_fuel t (wait_links queue k) ws v.chain (short v) new) refl,
      subst (λ zs. WaitsMoved k q t ws zs queue k.next) (sym (erase-absent t ws new))
          (record { holds = h; waits = v; frame = λ hd zs dis nt c. c }),
    )
    | inl (ys, zs, e, new) ↦
        let (l, r, ed) =
          remove_present walk_fuel t (wait_links queue k) ys zs
            (subst (Chain k.next queue) e v.chain) (subst (λ xs. length xs < walk_fuel) e (short v))
            (subst Distinct e v.distinct) in
        let ed' : Edited (wait_links queue k) t ws (erase t ws) l =
          subst (λ xs. Edited (wait_links queue k) t xs (erase t xs) l) (sym e)
            (subst (λ w. Edited (wait_links queue k) t (ys ++ t ∷ zs) w l)
              (sym (erase-middle t ys zs new)) ed) in
        (
          l.first,
          l.next,
          >>=-some _ r refl,
          record {
            holds = Holds-Edited queue t ws (erase t ws) l.first l.next h v.apart out ed';
            waits = record {
              chain = ed'.chain;
              distinct = Distinct-erase t ws v.distinct;
              members = All-erase _ t ws v.members;
              apart = λ p. Disjoint-erase t (q p) ws (v.apart p);
            };
            frame = ed'.frame;
          },
        )
  ]
