-- ===== src/Rtos/Sched/Select.antt =====
-- Which task the scheduler picks.
use djiang_oss_public.Prelude.{
  ℕ, zero, suc, ◌<◌, ◌≤◌, ◌≡◌, refl, sym, subst, ◌⊎◌, inl, inr, Bool, true, false, none, some, List,
  [], ◌∷◌, ◌++◌, arith, All, Bool-cases, eq_cases, ap, ◌∙◌,
}
use djiang_oss_public.Rtos.Types.{Kernel, max_priority, walk_fuel}
use djiang_oss_public.Rtos.Links.{head, read}
use djiang_oss_public.Rtos.Links.Chain.{Chain, Segment-behind, link_after}
use djiang_oss_public.Rtos.Links.Walk.{before, from, walk_lem, before-append-from}
use djiang_oss_public.Rtos.Ready.{in_range, queue_at}
use djiang_oss_public.Rtos.Ready.View.{Queues, Holds, short, checked}
use djiang_oss_public.Rtos.Sched.{
  allows, eligible, task_get_idle_for_core, select_in, select_below, select_next_task_for_core,
}

-- None of the tasks may run on the core.
abbrev pub Barred : Kernel → ℕ → List ℕ → Type 0
Barred k core = All (λ t. eligible k core t ≡ false)

-- `t` is the task to run on the core: the first one that may, in the highest queue that has one,
-- or the core's idle task if no queue has one.
pub data IsNext (k : Kernel) (q : Queues) (core t : ℕ) : Type 0 where
  queued :
      (p : ℕ) (ys zs : List ℕ)
      → p < max_priority
      → q p ≡ ys ++ t ∷ zs
      → eligible k core t ≡ true
      → Barred k core ys
      → ((r : ℕ) → p < r → Barred k core (q r))
      → IsNext k q core t
  idle :
      ((p : ℕ) → Barred k core (q p)) → task_get_idle_for_core core k ≡ some t → IsNext k q core t

-- What a search for the first acceptable element leaves.
first_from :
    (stop : ℕ → Bool) (xs : List ℕ)
    → (All (λ x. stop x ≡ false) xs × (from stop xs ≡ []))
      ⊎ ((t : ℕ) × (zs : List ℕ) × (from stop xs ≡ t ∷ zs) × (stop t ≡ true))
first_from stop [] = inl (tt, refl)
first_from stop (x ∷ xs) = elim (Bool-cases (stop x)) [
  | inl e ↦ inr (x, xs, rw e, e)
  | inr e ↦ elim (first_from stop xs) [
    | inl (a, b) ↦ inl ((e, a), rw e b)
    | inr (t, zs, a, b) ↦ inr (t, zs, rw e a, b)
  ]
]

All-before : (stop : ℕ → Bool) (xs : List ℕ) → All (λ x. stop x ≡ false) (before stop xs)
All-before stop [] = tt
All-before stop (x ∷ xs) = elim (Bool-cases (stop x)) [
  | inl e ↦ rw e tt
  | inr e ↦ rw e (e, All-before stop xs)
]

module _ (k : Kernel) (q : Queues) (core : ℕ) (h : Holds k q) where
  select_in_lem :
      (p : ℕ)
      → p < max_priority
      → ((select_in core p k ≡ some none) × Barred k core (q p))
        ⊎ ((t : ℕ) × (ys : List ℕ) × (zs : List ℕ) × (select_in core p k ≡ some (some t))
            × (q p ≡ ys ++ t ∷ zs)
            × (eligible k core t ≡ true)
            × Barred k core ys)
  unfolding select_in
  select_in_lem p lt =
      let stop = eligible k core in
      let l = queue_at k p in
      let w =
        walk_lem (in_range k) stop walk_fuel l head (q p) (h.chains p lt) (checked h p)
          (short h p) in
      let split = before-append-from stop (q p) in
      let rest =
        Segment-behind l head none (before stop (q p)) (from stop (q p))
          (rw split (h.chains p lt)) in
      elim (first_from stop (q p)) [
        | inl (a, e) ↦ inl (
          rw w (
              ap some (
                subst (λ ws. Chain k.next (read l (link_after head (before stop (q p)))) ws) e
                  rest)),
          a,
        )
        | inr (t, zs, e, s) ↦ inr (
          t,
          before stop (q p),
          zs,
          rw w (
              ap some
                (subst (λ ws. Chain k.next (read l (link_after head (before stop (q p)))) ws) e
                  rest).0),
          sym split ∙ ap (λ ws. before stop (q p) ++ ws) e,
          s,
          All-before stop (q p),
        )
      ]

  select_below_lem :
      (n : ℕ)
      → n ≤ max_priority
      → ((r : ℕ) → n ≤ r → Barred k core (q r))
      → (i : ℕ) → task_get_idle_for_core core k ≡ some i
      → (t : ℕ) × (select_below n core k ≡ some (some t)) × IsNext k q core t
  unfolding select_below
  select_below_lem zero le above i e = (i, rw e refl, idle (λ p. above p (omega arith)) e)
  select_below_lem (suc p) le above i e = elim (select_in_lem p le) [
    | inr (t, ys, zs, s, m, ok, bar) ↦ (t, rw s refl, queued p ys zs le m ok bar above)
    | inl (s, bar) ↦
        let (t, r, n) =
          select_below_lem p (omega arith)
            (λ r ge. elim (eq_cases r p) [
              | inl f ↦ subst (λ x. Barred k core (q x)) (sym f) bar
              | inr ne ↦ above r (omega arith)
            ])
            i e in
        (t, rw s r, n)
  ]

  -- With well-formed ready queues and an idle task for the core, the search returns the first task
  -- that may run on the core in the highest queue that has one, or else the idle task.
  pub select_next_lem :
      (i : ℕ)
      → task_get_idle_for_core core k ≡ some i
      → (t : ℕ) × (select_next_task_for_core core k ≡ some (some t)) × IsNext k q core t
  unfolding select_next_task_for_core
  select_next_lem i e =
      select_below_lem max_priority (omega arith)
        (λ r ge. subst (Barred k core) (sym (h.beyond r ge)) tt) i e

Barred-same :
    (k k' : Kernel) (core : ℕ) (xs : List ℕ)
    → ((t : ℕ) → (k'.tcb t).affinity_mask ≡ (k.tcb t).affinity_mask)
    → Barred k' core xs
    → Barred k core xs
Barred-same k k' core [] same b = tt
Barred-same k k' core (x ∷ xs) same b =
    (ap (allows core) (sym (same x)) ∙ b.0, Barred-same k k' core xs same b.1)

-- The pick depends on the affinities and the idle tasks alone.
pub IsNext-same :
    (k k' : Kernel) (q : Queues) (core t : ℕ)
    → ((t : ℕ) → (k'.tcb t).affinity_mask ≡ (k.tcb t).affinity_mask)
    → task_get_idle_for_core core k' ≡ task_get_idle_for_core core k
    → IsNext k' q core t
    → IsNext k q core t
IsNext-same k k' q core t same e (queued p ys zs lt m ok bar above) =
    queued p ys zs lt m (ap (allows core) (sym (same t)) ∙ ok) (Barred-same k k' core ys same bar)
      (λ r gt. Barred-same k k' core (q r) same (above r gt))
IsNext-same k k' q core t same e (idle bar i) =
    idle (λ p. Barred-same k k' core (q p) same (bar p)) (sym e ∙ i)
