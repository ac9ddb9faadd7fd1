-- ===== src/Rtos/Links.antt =====
-- Intrusive singly linked lists: the loops over `tcb_t **pp` of
-- daniertos/v3-smp/src/kernel (scheduler.c, delay.c, mutex.c, semaphore.c, queue.c).
-- A node is the index of a TCB in `g_tasks`, NULL is `none`, and a column of `next` fields is a
-- function of the index. A walk has fuel; `none` is a walk that does not end or meets a node that
-- the kernel's sanity check refuses.
pub mod Chain
pub mod Walk
pub mod Edit
use djiang_oss_public.Prelude.{
  ℕ, zero, suc, Bool, true, false, Option, none, some, ◌==◌, update, ◌>>=◌,
}

-- What `pp` points at: the list's head, or the `next` field of a node.
pub data Link : Type 0 where
  head : Link
  at : ℕ → Link

pub record Links : Type 0 where
  pub first : Option ℕ
  pub next : ℕ → Option ℕ

-- `*pp`
abbrev pub read : Links → Link → Option ℕ
read l head = l.first
read l (at i) = l.next i

-- `*pp = v`
abbrev pub write : Links → Link → Option ℕ → Links
write l head v = record l { first = v }
write l (at i) v = record l { next = update l.next i v }

-- `while (*pp != NULL) { check(*pp); if (stop(*pp)) break; pp = &(*pp)->next; }`
unfoldable pub walk : (ℕ → Bool) → (ℕ → Bool) → ℕ → Links → Link → Option Link
walk check stop zero l pp = none
walk check stop (suc fuel) l pp = elim (read l pp) [
  | none ↦ some pp
  | some x ↦ elim (check x) [
    | true ↦ elim (stop x) [ true ↦ some pp | false ↦ walk check stop fuel l (at x) ]
    | false ↦ none
  ]
]

abbrev pub always : ℕ → Bool
always x = true

abbrev pub never : ℕ → Bool
never x = false

-- Append at the end.
unfoldable pub append : (ℕ → Bool) → ℕ → ℕ → Links → Option Links
append check fuel t l = do
  pp ← walk check never fuel l head
  some (write (write l pp (some t)) (at t) none)

-- Take a node out, wherever it is; the Boolean says whether it was there.
unfoldable pub remove : ℕ → ℕ → Links → Option (Bool × Links)
remove fuel t l = do
  pp ← walk always (λ x. x == t) fuel l head
  elim (read l pp) [
    | none ↦ some (false, l)
    | some x ↦ some (true, write (write l pp (l.next t)) (at t) none)
  ]

-- Insert before the first node that `stop` accepts.
unfoldable pub insert : (ℕ → Bool) → ℕ → ℕ → Links → Option Links
insert stop fuel t l = do
  pp ← walk always stop fuel l head
  let l' = write l (at t) (read l pp)
  some (write l' pp (some t))

-- Take the first node off.
unfoldable pub pop : Links → Option ℕ × Links
pop l = elim l.first [
  | none ↦ (none, l)
  | some t ↦ (some t, write (record l { first = l.next t }) (at t) none)
]
