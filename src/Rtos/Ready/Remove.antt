-- ===== src/Rtos/Ready/Remove.antt =====
-- `sched_remove_ready` on well-formed queues.
use djiang_oss_public.Prelude.{
  ℕ, zero, suc, ◌+◌, ◌<◌, ◌≡◌, ◌≢◌, refl, sym, subst, fun_ext, ◌⊎◌, inl, inr, true, false, some,
  List, ◌∷◌, ◌++◌, arith, NotIn, All-right, All-erase, Distinct, Disjoint, Disjoint-sym,
  Disjoint-erase, Distinct-erase, erase, erase-absent, erase-middle, split_at, update, eq_cases,
  ==_refl, ==_ne, >>=-some, length, NotIn-erase,
}
use native.Mathlib.Decide.{dec_lt}
use djiang_oss_public.Rtos.Types.{Kernel, max_priority, walk_fuel}
use djiang_oss_public.Rtos.Links.Chain.{Chain}
use djiang_oss_public.Rtos.Links.Edit.{Edited, remove_present, remove_absent}
use djiang_oss_public.Rtos.Ready.{
  clamp, queue_at, with_queue, remove_from, remove_search, sched_remove_ready,
}
use djiang_oss_public.Rtos.Ready.View.{
  Queues, Absent, Holds, Moved, Web, rewired, web_of, with_queue-Moved, short, clamp_lt,
}

abbrev pub dequeue : ℕ → Queues → Queues
dequeue t q p = erase t (q p)

Moved-refl : {k : Kernel} (t : ℕ) {q : Queues} → Holds k q → Moved k t q q (web_of k)
Moved-refl t h = record { holds = h; frame = λ hd ws d n c. c }

dequeue-Absent : (t : ℕ) (q : Queues) → Absent t q → dequeue t q ≡ q
dequeue-Absent t q n = fun_ext λ p. erase-absent t (q p) (n p)

pub Absent-dequeue : (t : ℕ) {k : Kernel} {q : Queues} → Holds k q → Absent t (dequeue t q)
Absent-dequeue t {q = q} h p = NotIn-erase t (q p) (h.distinct p)

module _ (k : Kernel) (q : Queues) (t : ℕ) (h : Holds k q) where
  -- Erasing `t` from the queue that holds it erases it from all.
  update-erase :
      (p : ℕ) (ys zs : List ℕ) → q p ≡ ys ++ t ∷ zs → update q p (erase t (q p)) ≡ dequeue t q
  update-erase p ys zs e = fun_ext λ r. elim (eq_cases p r) [
    | inl s ↦ rw (← s, ==_refl p)
    | inr ne ↦ rw (==_ne p r ne) (
        sym (
          erase-absent t (q r)
            (All-right _ ys (t ∷ zs) (subst (λ l. Disjoint l (q r)) e (h.apart p r ne))).0))
  ]

  remove_from_lem :
      (p : ℕ)
      → p < max_priority
      → ((w : Web) × (remove_from p t k ≡ some (true, rewired k w)) × Moved k t q (dequeue t q) w)
        ⊎ ((remove_from p t k ≡ some (false, k)) × NotIn t (q p))
  unfolding remove_from
  remove_from_lem p lt = elim (split_at t (q p)) [
    | inr n ↦
        inr (
          rw (remove_absent walk_fuel t (queue_at k p) (q p) (h.chains p lt) (short h p) n) refl,
          n,
        )
    | inl (ys, zs, e, n) ↦
        let (l, r, ed) =
          remove_present walk_fuel t (queue_at k p) ys zs
            (subst (Chain k.next (k.ready_queue p)) e (h.chains p lt))
            (subst (λ l. length l < walk_fuel) e (short h p)) (subst Distinct e (h.distinct p)) in
        let out = λ (s : ℕ) (ne : p ≢ s).
          (All-right (λ x. NotIn x (q s)) ys (t ∷ zs)
            (subst (λ l. Disjoint l (q s)) e (h.apart p s ne))).0 in
        let ed' : Edited (queue_at k p) t (q p) (erase t (q p)) l =
          subst (λ xs. Edited (queue_at k p) t xs (erase t xs) l) (sym e)
            (subst (λ zs'. Edited (queue_at k p) t (ys ++ t ∷ zs) zs' l)
              (sym (erase-middle t ys zs n)) ed) in
        inl (
          web_of (with_queue k p l),
          rw r refl,
          subst (λ q'. Moved k t q q' (web_of (with_queue k p l))) (update-erase p ys zs e)
              (with_queue-Moved k q p t (erase t (q p)) l lt h ed'
                (Distinct-erase t (q p) (h.distinct p)) (All-erase _ t (q p) (h.members p))
                (λ s ne.
                  Disjoint-sym (q s) (erase t (q p))
                    (Disjoint-erase t (q s) (q p) (h.apart s p (λ f. ne (sym f)))))
                out),
        )
  ]

  -- Every queue below `p` has been searched in vain.
  remove_search_lem :
      (rounds p : ℕ)
      → rounds + p ≡ max_priority
      → ((r : ℕ) → r < p → NotIn t (q r))
      → (w : Web) × (remove_search rounds p t k ≡ some (rewired k w)) × Moved k t q (dequeue t q) w
  unfolding remove_search
  remove_search_lem zero p e below = (
    web_of k,
    refl,
    subst (λ q'. Moved k t q q' (web_of k)) (sym (dequeue-Absent t q all)) (Moved-refl t h),
  )
    where
      all : Absent t q
      all r = elim (dec_lt r p) [
        | yes lt ↦ below r lt
        | no ge ↦ subst (NotIn t) (sym (h.beyond r (omega arith))) tt
      ]
  remove_search_lem (suc rounds) p e below = elim (remove_from_lem p (omega arith)) [
    | inl (w, r, m) ↦ (w, rw r refl, m)
    | inr (r, n) ↦
        let (w, s, m) = remove_search_lem rounds (suc p) (omega arith) (λ i lt.
          elim (eq_cases i p) [
            | inl f ↦ subst (λ x. NotIn t (q x)) (sym f) n
            | inr ne ↦ below i (omega arith)
          ]) in
        (w, rw r s, m)
  ]

  -- The call returns, and the queues have lost the task and nothing else.
  pub sched_remove_ready_lem :
      (w : Web) × (sched_remove_ready (some t) k ≡ some (rewired k w)) × Moved k t q (dequeue t q) w
  unfolding sched_remove_ready
  sched_remove_ready_lem =
      elim (remove_from_lem (clamp (k.tcb t).priority) (clamp_lt (k.tcb t).priority)) [
        | inl (w, r, m) ↦ (w, rw r refl, m)
        | inr (r, n) ↦
            let (w, s, m) = remove_search_lem max_priority 0 refl (λ i lt. elim lt [ ]) in
            (w, rw r s, m)
      ]

module _ (k : Kernel) (q : Queues) (t : ℕ) (h : Holds k q) (out : Absent t q) where
  remove_from_absent : (p : ℕ) → p < max_priority → remove_from p t k ≡ some (false, k)
  unfolding remove_from
  remove_from_absent p lt =
      >>=-some _
        (remove_absent walk_fuel t (queue_at k p) (q p) (h.chains p lt) (short h p) (out p)) refl

  remove_search_absent :
      (rounds p : ℕ) → rounds + p ≡ max_priority → remove_search rounds p t k ≡ some k
  unfolding remove_search
  remove_search_absent zero p e = refl
  remove_search_absent (suc rounds) p e =
      >>=-some _ (remove_from_absent p (omega arith))
        (remove_search_absent rounds (suc p) (omega arith))

  -- Taking out a task that is in no queue changes nothing at all.
  pub sched_remove_ready_absent : sched_remove_ready (some t) k ≡ some k
  unfolding sched_remove_ready
  sched_remove_ready_absent =
      >>=-some _ (remove_from_absent (clamp (k.tcb t).priority) (clamp_lt (k.tcb t).priority))
        (remove_search_absent max_priority 0 refl)
