-- ===== src/Rtos/Ready/Add.antt =====
-- `sched_add_ready` on well-formed queues.
use djiang_oss_public.Prelude.{
  ℕ, ◌<◌, ◌≡◌, refl, subst, true, false, some, List, [], ◌∷◌, ◌++◌, NotIn, Disjoint, All-append,
  Distinct-append, Disjoint-append, Disjoint-cons, Disjoint-nil, update, eq_cases, ==_refl, ==_ne,
  inl, inr,
}
use djiang_oss_public.Rtos.Types.{Kernel, TaskState, max_tasks, walk_fuel}
use djiang_oss_public.Rtos.Links.Edit.{append_lem}
use djiang_oss_public.Rtos.Ready.{
  is_deleted, in_range, clamp, queue_at, with_queue, set_state, sched_add_ready,
}
use djiang_oss_public.Rtos.Ready.View.{
  Queues, Absent, Holds, Moved, Web, rewired, web_of, with_queue-Moved, short, checked, clamp_lt,
}

-- The queue that a task is filed in.
abbrev pub level : Kernel → ℕ → ℕ
level k t = clamp (k.tcb t).priority

abbrev pub enqueue : Queues → ℕ → ℕ → Queues
enqueue q p t = update q p (q p ++ t ∷ [])

Disjoint-one : (t : ℕ) (xs : List ℕ) → NotIn t xs → Disjoint xs (t ∷ [])
Disjoint-one t xs n = Disjoint-cons t xs [] n (Disjoint-nil xs)

module _ (k : Kernel) (q : Queues) (t : ℕ) (h : Holds k q) (lt : t < max_tasks) where
  -- The links move as on lists, and then the task is READY.
  pub sched_add_ready_lem :
      Absent t q
      → is_deleted (k.tcb t).state ≡ false
      → (w : Web) × (sched_add_ready (some t) k ≡ some (set_state TaskState.ready t (rewired k w)))
        × Moved k t q (enqueue q (level k t) t) w
  unfolding sched_add_ready
  sched_add_ready_lem out live =
      let p = level k t in
      let (l, e, ed) =
        append_lem (in_range k) walk_fuel t (queue_at k p) (q p)
          (h.chains p (clamp_lt (k.tcb t).priority)) (checked h p) (short h p) (out p)
          (h.distinct p) in
      (
        web_of (with_queue k p l),
        rw (live, h.placed t lt, e) refl,
        with_queue-Moved k q p t (q p ++ t ∷ []) l (clamp_lt (k.tcb t).priority) h ed
            (Distinct-append (q p) (t ∷ []) (h.distinct p) (tt, tt) (Disjoint-one t (q p) (out p)))
            (All-append _ (q p) (t ∷ []) (h.members p) (lt, tt))
            (λ r ne. Disjoint-append (q p) (t ∷ []) (q r) (h.apart p r ne) (out r, tt))
            (λ r ne. out r),
      )

-- A deleted task is not filed.
sched_add_ready_deleted :
    (k : Kernel) (t : ℕ) → is_deleted (k.tcb t).state ≡ true → sched_add_ready (some t) k ≡ some k
unfolding sched_add_ready
sched_add_ready_deleted k t e = rw e

-- A list apart from the queues and the new task stays apart from them.
pub Disjoint-enqueue :
    (q : Queues) (l t : ℕ) (ts : List ℕ)
    → NotIn t ts
    → ((p : ℕ) → Disjoint (q p) ts)
    → (p : ℕ) → Disjoint (enqueue q l t p) ts
Disjoint-enqueue q l t ts n d p = elim (eq_cases l p) [
  | inl e ↦
      subst (λ p. Disjoint (enqueue q l t p) ts) e
        (rw (==_refl l) (Disjoint-append (q l) (t ∷ []) ts (d l) (n, tt)))
  | inr ne ↦ rw (==_ne l p ne) (d p)
]
