-- ===== src/Rtos/Ready/View.antt =====
-- The ready queues seen as lists of tasks, one for each priority.
use djiang_oss_public.Prelude.{
  ℕ, ◌<◌, ◌≤◌, ◌≡◌, ◌≢◌, sym, subst, true, List, [], ◌∷◌, Option, arith, length, All, NotIn,
  Distinct, Disjoint, update, length_of_Distinct, ◌∙◌, eq_cases, ==_refl, ==_ne, inl, inr,
  Disjoint-sym,
}
use djiang_oss_public.Rtos.Types.{Kernel, max_tasks, max_priority, walk_fuel}
use djiang_oss_public.Rtos.Links.{Links}
use djiang_oss_public.Rtos.Links.Chain.{Chain}
use djiang_oss_public.Rtos.Links.Edit.{Edited}
use djiang_oss_public.Rtos.Ready.{in_range, clamp, queue_at, with_queue}

abbrev pub Queues : Type 0
Queues = ℕ → List ℕ

-- The task is in no queue.
abbrev pub Absent : ℕ → Queues → Type 0
Absent t q = (p : ℕ) → NotIn t (q p)

-- Every TCB lies in the address range of the kernel's sanity check.
abbrev pub IsPlaced : Kernel → Type 0
IsPlaced k = (t : ℕ) → t < max_tasks → in_range k t ≡ true

-- The kernel's ready queues are `q`: the link fields spell out each list, the lists hold tasks of
-- the pool, none twice and none in two queues.
pub record Holds (k : Kernel) (q : Queues) : Type 0 where
  pub chains : (p : ℕ) → p < max_priority → Chain k.next (k.ready_queue p) (q p)
  pub beyond : (p : ℕ) → max_priority ≤ p → q p ≡ []
  pub apart : (p r : ℕ) → p ≢ r → Disjoint (q p) (q r)
  pub distinct : (p : ℕ) → Distinct (q p)
  pub members : (p : ℕ) → All (λ t. t < max_tasks) (q p)
  pub placed : IsPlaced k

pub short : {k : Kernel} {q : Queues} → Holds k q → (p : ℕ) → length (q p) < walk_fuel
short {q = q} h p = omega (arith, length_of_Distinct max_tasks (q p) (h.distinct p) (h.members p))

pub clamp_lt : (prio : ℕ) → clamp prio < max_priority
clamp_lt prio = ground arith

All-placed :
    (k : Kernel) (xs : List ℕ)
    → IsPlaced k
    → All (λ t. t < max_tasks) xs
    → All (λ t. in_range k t ≡ true) xs
All-placed k [] h a = tt
All-placed k (x ∷ xs) h a = (h x a.0, All-placed k xs h a.1)

pub checked : {k : Kernel} {q : Queues} → Holds k q → (p : ℕ) → All (λ t. in_range k t ≡ true) (q p)
checked {k} {q} h p = All-placed k (q p) h.placed (h.members p)

-- The queues' heads and the `next` fields, which are all that a queue operation writes.
pub record Web : Type 0 where
  pub heads : ℕ → Option ℕ
  pub next : ℕ → Option ℕ

abbrev pub rewired : Kernel → Web → Kernel
rewired k w = record k { ready_queue = w.heads; next = w.next }

abbrev pub web_of : Kernel → Web
web_of k = record { heads = k.ready_queue; next = k.next }

-- What a queue operation on the task `t` does to the kernel: the queues are `q'` afterwards, and
-- no list apart from the queues and `t` has changed.
pub record Moved (k : Kernel) (t : ℕ) (q q' : Queues) (w : Web) : Type 0 where
  pub holds : Holds (rewired k w) q'
  pub frame :
      (h : Option ℕ) (ws : List ℕ)
      → ((p : ℕ) → Disjoint (q p) ws)
      → NotIn t ws
      → Chain k.next h ws
      → Chain w.next h ws

-- The view depends on the links and the addresses alone.
pub Holds-same :
    {k k' : Kernel} {q : Queues}
    → Holds k q
    → k.next ≡ k'.next
    → k.ready_queue ≡ k'.ready_queue
    → k.address ≡ k'.address
    → Holds k' q
Holds-same {k} {k'} {q} h e f g = record {
  chains = λ p lt.
      subst (λ n. Chain n (k'.ready_queue p) (q p)) e
        (subst (λ r. Chain k.next (r p) (q p)) f (h.chains p lt));
  beyond = h.beyond;
  apart = h.apart;
  distinct = h.distinct;
  members = h.members;
  placed =
      λ t lt. subst (λ (a : ℕ → ℕ). in_range (record k { address = a }) t ≡ true) g (h.placed t lt);
}

module _ (k : Kernel) (q : Queues) (p t : ℕ) (zs : List ℕ) (l : Links) where
  -- Editing one queue.
  pub with_queue-Moved :
      p < max_priority
      → Holds k q
      → Edited (queue_at k p) t (q p) zs l
      → Distinct zs
      → All (λ x. x < max_tasks) zs
      → ((r : ℕ) → p ≢ r → Disjoint zs (q r))
      → ((r : ℕ) → p ≢ r → NotIn t (q r))
      → Moved k t q (update q p zs) (web_of (with_queue k p l))
  with_queue-Moved lt h ed dist mem dis out = record {
    holds = record {
      chains = λ r rlt. elim (eq_cases p r) [
        | inl e ↦
            subst (λ r. Chain l.next (update k.ready_queue p l.first r) (update q p zs r)) e
              (rw (==_refl p) ed.chain)
        | inr ne ↦
            rw (==_ne p r ne)
              (ed.frame (k.ready_queue r) (q r) (h.apart p r ne) (out r ne) (h.chains r rlt))
      ];
      beyond = λ r le. rw (==_ne p r (omega arith)) (h.beyond r le);
      apart = λ r s ne. elim (eq_cases p r) [
        | inl e ↦ rw (← e, ==_refl p, ==_ne p s (λ f. ne (sym e ∙ f))) (dis s (λ f. ne (sym e ∙ f)))
        | inr nr ↦ elim (eq_cases p s) [
          | inl e ↦ rw (← e, ==_refl p, ==_ne p r nr) (Disjoint-sym zs (q r) (dis r nr))
          | inr ns ↦ rw (==_ne p r nr, ==_ne p s ns) (h.apart r s ne)
        ]
      ];
      distinct = λ r. elim (eq_cases p r) [
        | inl e ↦ rw (← e, ==_refl p) dist
        | inr ne ↦ rw (==_ne p r ne) (h.distinct r)
      ];
      members = λ r. elim (eq_cases p r) [
        | inl e ↦ rw (← e, ==_refl p) mem
        | inr ne ↦ rw (==_ne p r ne) (h.members r)
      ];
      placed = h.placed;
    };
    frame = λ hd ws dws tws old. ed.frame hd ws (dws p) tws old;
  }
