-- ===== src/Djlc/LinkedList.antt =====
-- djlc/include/linked_list.h: lists of nodes on the heap, their building, queries, merging and
-- reversal in place. A pointer is an address or NULL, and the heap tells which node stands at an
-- address. A read or write at an address that holds no node is undefined: `none`. What `malloc`
-- returns is an argument. The loops that follow pointers take fuel.
pub mod Cells
pub mod Query
pub mod Build
pub mod Failure
pub mod Reverse
pub mod Merge
pub mod Gather
pub mod MergeRange
use djiang_oss_public.Prelude.{
  ℕ, zero, suc, ◌+◌, ◌-◌, ◌/◌, Bool, true, false, Option, none, some, List, [], ◌∷◌, leb, ltb, ◌==◌,
  if◌then◌else◌, update,
}
use djiang_oss_public.Prelude.Int.{ℤ, pos_part, leb_ℤ, eqb_ℤ}

-- `struct ListNode`
pub record Node : Type 0 where
  pub value : ℤ
  pub next : Option ℕ

abbrev pub node : ℤ → Option ℕ → Node
node v q = record { value = v; next = q }

abbrev pub Heap : Type 0
Heap = ℕ → Option Node

abbrev pub M : Type 0 → Type 0
M A = Heap → Option (A × Heap)

abbrev pub ret : {A : Type 0} → A → M A
ret a h = some (a, h)

abbrev pub undefined : {A : Type 0} → M A
undefined h = none

abbrev pub and_then : {A B : Type 0} → Option (A × Heap) → (A → M B) → Option (B × Heap)
and_then none f = none
and_then (some (a, h)) f = f a h

infixl 5 ◌>>=◌ ◌>>◌
abbrev pub ◌>>=◌ : {A B : Type 0} → M A → (A → M B) → M B
◌>>=◌ m f h = and_then (m h) f

abbrev pub ◌>>◌ : {A B : Type 0} → M A → M B → M B
m >> n = m >>= λ _. n

-- `*p`
unfoldable pub load : ℕ → M Node
load p h = elim (h p) [ none ↦ none | some n ↦ some (n, h) ]

-- `p->next = q`
unfoldable pub set_next : ℕ → Option ℕ → M (Unit {0})
set_next p q h = elim (h p) [ none ↦ none | some n ↦ some (tt, update h p (some (node n.value q))) ]

-- `free(p)`
unfoldable pub release : ℕ → M (Unit {0})
release p h = elim (h p) [ none ↦ none | some n ↦ some (tt, update h p none) ]

unfoldable pub list_new_node : Option ℕ → ℤ → M (Option ℕ)
list_new_node none val h = some (none, h)
list_new_node (some p) val h = some (some p, update h p (some (node val none)))

unfoldable pub list_free : ℕ → Option ℕ → M (Unit {0})
list_free zero head = undefined
list_free (suc fuel) none = ret tt
list_free (suc fuel) (some p) = do n ← load p; release p; list_free fuel n.next

-- What the loop does with a new node: link it behind `curr`, or free everything.
unfoldable pub create_loop : (ℕ → Option ℕ) → ℕ → ℕ → ℕ → List ℤ → M (Option ℕ)
create_loop fresh i head curr [] = ret (some head)
create_loop fresh i head curr (v ∷ vs) = do
  made ← list_new_node (fresh i) v
  set_next curr made
  elim made [
    | none ↦ (do list_free (i + 1) (some head); ret none)
    | some p ↦ create_loop fresh (i + 1) head p vs
  ]

-- `fresh i` is what the i-th call of `malloc` returns.
unfoldable pub list_create : (ℕ → Option ℕ) → List ℤ → M (Option ℕ)
list_create fresh [] = ret none
list_create fresh (v ∷ vs) = do
  made ← list_new_node (fresh 0) v
  elim made [ none ↦ ret none | some head ↦ create_loop fresh 1 head head vs ]

unfoldable pub length_loop : ℕ → ℕ → Option ℕ → M ℕ
length_loop zero len head = undefined
length_loop (suc fuel) len none = ret len
length_loop (suc fuel) len (some p) = do n ← load p; length_loop fuel (len + 1) n.next

unfoldable pub list_length : ℕ → Option ℕ → M ℕ
list_length fuel head = length_loop fuel 0 head

unfoldable pub get_loop : ℕ → Option ℕ → M (Option ℕ)
get_loop n none = ret none
get_loop zero (some p) = ret (some p)
get_loop (suc n) (some p) = do m ← load p; get_loop n m.next

unfoldable pub list_get : Option ℕ → ℤ → M (Option ℕ)
list_get head n = get_loop (pos_part n) head

unfoldable pub tail_loop : ℕ → ℕ → M (Option ℕ)
tail_loop zero p = undefined
tail_loop (suc fuel) p = do
  n ← load p
  elim n.next [ none ↦ ret (some p) | some q ↦ tail_loop fuel q ]

unfoldable pub list_tail : ℕ → Option ℕ → M (Option ℕ)
list_tail fuel none = ret none
list_tail fuel (some p) = tail_loop fuel p

unfoldable pub list_equal : ℕ → Option ℕ → Option ℕ → M Bool
list_equal zero a b = undefined
list_equal (suc fuel) none none = ret true
list_equal (suc fuel) none (some q) = ret false
list_equal (suc fuel) (some p) none = ret false
list_equal (suc fuel) (some p) (some q) = do
  n ← load p
  m ← load q
  if eqb_ℤ n.value m.value then list_equal fuel n.next m.next else ret false

unfoldable pub list_reverse_loop : ℕ → Option ℕ → Option ℕ → M (Option ℕ)
list_reverse_loop zero prev head = undefined
list_reverse_loop (suc fuel) prev none = ret prev
list_reverse_loop (suc fuel) prev (some p) = do
  n ← load p
  set_next p prev
  list_reverse_loop fuel (some p) n.next

unfoldable pub list_reverse : ℕ → Option ℕ → M (Option ℕ)
list_reverse fuel head = list_reverse_loop fuel none head

-- The loop of `djlc_list_reverse_n`: the nodes turned round, and the first node after them.
unfoldable pub reverse_first : ℕ → Option ℕ → Option ℕ → M (Option ℕ × Option ℕ)
reverse_first zero prev curr = ret (prev, curr)
reverse_first (suc n) prev none = ret (prev, none)
reverse_first (suc n) prev (some p) = do
  m ← load p
  set_next p prev
  reverse_first n (some p) m.next

-- The new head, and what is stored in `*tail`.
unfoldable pub list_reverse_n : Option ℕ → ℤ → M (Option ℕ × Option ℕ)
list_reverse_n none n = do (prev, curr) ← reverse_first (pos_part n) none none; ret (prev, none)
list_reverse_n (some p) n = do
  (prev, curr) ← reverse_first (pos_part n) none (some p)
  set_next p curr
  ret (prev, some p)

-- What `tail` points at in `djlc_list_merge_two`: the dummy on the stack, or a node.
pub data Tail : Type 0 where
  dummy : Tail
  last : ℕ → Tail

-- `tail->next = q`, where `d` is the field `next` of the dummy.
unfoldable pub attach : Tail → Option ℕ → Option ℕ → M (Option ℕ)
attach dummy d q = ret q
attach (last p) d q = do set_next p q; ret d

-- The result is the dummy's `next`.
unfoldable pub merge_loop : ℕ → Tail → Option ℕ → Option ℕ → Option ℕ → M (Option ℕ)
merge_loop zero tail d l1 l2 = undefined
merge_loop (suc fuel) tail d none l2 = attach tail d l2
merge_loop (suc fuel) tail d (some p) none = attach tail d (some p)
merge_loop (suc fuel) tail d (some p) (some q) = do
  n ← load p
  m ← load q
  if leb_ℤ n.value m.value
      then (do
        d' ← attach tail d (some p)
        n' ← load p
        merge_loop fuel (last p) d' n'.next (some q))
      else (do
        d' ← attach tail d (some q)
        m' ← load q
        merge_loop fuel (last q) d' (some p) m'.next)

unfoldable pub list_merge_two : ℕ → Option ℕ → Option ℕ → M (Option ℕ)
list_merge_two fuel l1 l2 = merge_loop fuel dummy none l1 l2

-- `fuel` bounds the nodes of a merge, `depth` the nesting of the calls.
unfoldable pub list_merge_range : ℕ → ℕ → (ℕ → Option ℕ) → ℕ → ℕ → M (Option ℕ)
list_merge_range fuel zero lists left right = undefined
list_merge_range fuel (suc depth) lists left right =
    let split : M (Option ℕ) = do
      let mid = left + (right - left) / 2
      left_merged ← list_merge_range fuel depth lists left mid
      right_merged ← list_merge_range fuel depth lists (mid + 1) right
      list_merge_two fuel left_merged right_merged
    in if ltb right left then ret none else if left == right then ret (lists left) else split

unfoldable pub list_merge_k : ℕ → (ℕ → Option ℕ) → ℕ → M (Option ℕ)
list_merge_k fuel lists k = if k == 0 then ret none else list_merge_range fuel k lists 0 (k - 1)
