-- ===== src/Djlc/LinkedList/Merge/Order.antt =====
-- djlc_list_merge_two keeps the nodes and the order.
use mathlib.Core.List.{Perm, perm_middle}
use mathlib.Core.List.Perm
use djiang_oss_public.Prelude.{
  ℕ, ◌+◌, ◌<◌, ◌≡◌, ◌≢◌, inl, inr, none, some, List, [], ◌∷◌, ◌++◌, arith, length, All, All-map,
  Bool-cases, append-nil,
}
use djiang_oss_public.Prelude.Int.{ℤ, leb_ℤ, ◌≤ℤ◌}
use djiang_oss_public.Djlc.LinkedList.{Heap, list_merge_two}
use djiang_oss_public.Djlc.LinkedList.Cells.{Cell, first, Linked, Unshared, Separate, Separate-sym}
use djiang_oss_public.Djlc.LinkedList.Merge.{merge_cells, SameOutsideBoth, list_merge_two_cells}

-- The values ascend.
abbrev pub IsSorted : List Cell → Type 0
IsSorted [] = Unit {0}
IsSorted (x ∷ xs) = All (λ y. x.value ≤ℤ y.value) xs × IsSorted xs

pub All-merge_cells {ℓ} :
    (P : Cell → Type ℓ) (xs ys : List Cell) → All P xs → All P ys → All P (merge_cells xs ys)
unfolding merge_cells
All-merge_cells P [] ys a b = b
All-merge_cells P (x ∷ xs) [] a b = a
All-merge_cells P (x ∷ xs) (y ∷ ys) a b = elim (Bool-cases (leb_ℤ x.value y.value)) [
  | inl le ↦ rw (le, merge_cells) (a.0, All-merge_cells P xs (y ∷ ys) a.1 b)
  | inr gt ↦ rw (gt, merge_cells) (b.0, All-merge_cells P (x ∷ xs) ys a b.1)
]

below_all :
    (a b : ℤ) (ys : List Cell) → a ≤ℤ b → All (λ y. b ≤ℤ y.value) ys → All (λ y. a ≤ℤ y.value) ys
below_all a b ys le all = All-map (λ y (p : b ≤ℤ y.value). omega (arith, le, p)) ys all

pub merge_cells-IsSorted :
    (xs ys : List Cell) → IsSorted xs → IsSorted ys → IsSorted (merge_cells xs ys)
unfolding merge_cells
merge_cells-IsSorted [] ys s t = t
merge_cells-IsSorted (x ∷ xs) [] s t = s
merge_cells-IsSorted (x ∷ xs) (y ∷ ys) s t = elim (Bool-cases (leb_ℤ x.value y.value)) [
  | inl le ↦
      let below : x.value ≤ℤ y.value = ground arith in
      rw (le, merge_cells)
        (
          All-merge_cells (λ z. x.value ≤ℤ z.value) xs (y ∷ ys) s.0
              (below, below_all x.value y.value ys below t.0),
          merge_cells-IsSorted xs (y ∷ ys) s.1 t,
        )
  | inr gt ↦
      let below : y.value ≤ℤ x.value = ground arith in
      rw (gt, merge_cells)
        (
          All-merge_cells (λ z. y.value ≤ℤ z.value) (x ∷ xs) ys
              (below, below_all y.value x.value xs below s.0) t.0,
          merge_cells-IsSorted (x ∷ xs) ys s t.1,
        )
]

pub merge_cells-perm : (xs ys : List Cell) → Perm (merge_cells xs ys) (xs ++ ys)
unfolding merge_cells
merge_cells-perm [] ys = Perm.rfl
merge_cells-perm (x ∷ xs) [] = rw (append-nil xs) Perm.rfl
merge_cells-perm (x ∷ xs) (y ∷ ys) = elim (Bool-cases (leb_ℤ x.value y.value)) [
  | inl le ↦ rw (le, merge_cells) (Perm.cons x (merge_cells-perm xs (y ∷ ys)))
  | inr gt ↦
      rw (gt, merge_cells)
        (Perm.trans (Perm.cons y (merge_cells-perm (x ∷ xs) ys))
          (Perm.symm (perm_middle (x ∷ xs) ys)))
]

pub length-merge_cells : (xs ys : List Cell) → length (merge_cells xs ys) ≡ length xs + length ys
unfolding merge_cells
length-merge_cells [] ys = omega arith
length-merge_cells (x ∷ xs) [] = omega arith
length-merge_cells (x ∷ xs) (y ∷ ys) = elim (Bool-cases (leb_ℤ x.value y.value)) [
  | inl le ↦ rw (le, merge_cells) (omega (arith, length-merge_cells xs (y ∷ ys)))
  | inr gt ↦ rw (gt, merge_cells) (omega (arith, length-merge_cells (x ∷ xs) ys))
]

pub merge_cells-Unshared :
    (xs ys : List Cell) → Unshared xs → Unshared ys → Separate xs ys → Unshared (merge_cells xs ys)
unfolding merge_cells
merge_cells-Unshared [] ys u v s = v
merge_cells-Unshared (x ∷ xs) [] u v s = u
merge_cells-Unshared (x ∷ xs) (y ∷ ys) u v s =
    let t = Separate-sym (x ∷ xs) (y ∷ ys) s in
    elim (Bool-cases (leb_ℤ x.value y.value)) [
      | inl le ↦
          rw (le, merge_cells)
            (
              All-merge_cells (λ z. x.addr ≢ z.addr) xs (y ∷ ys) u.0 s.0,
              merge_cells-Unshared xs (y ∷ ys) u.1 v s.1,
            )
      | inr gt ↦
          rw (gt, merge_cells)
            (
              All-merge_cells (λ z. y.addr ≢ z.addr) (x ∷ xs) ys t.0 v.0,
              merge_cells-Unshared (x ∷ xs) ys u v.1 (Separate-sym ys (x ∷ xs) t.1),
            )
    ]

-- Merging two sorted lists that share no node, with a round of fuel for each node and one more,
-- returns one sorted list of exactly the nodes of both, each with its value, and writes to no other
-- node.
list_merge_two_lem :
    (fuel : ℕ) (xs ys : List Cell) (h : Heap)
    → length xs + length ys < fuel
    → Linked h xs none
    → Linked h ys none
    → Unshared xs
    → Unshared ys
    → Separate xs ys
    → IsSorted xs
    → IsSorted ys
    → (ms : List Cell) × (g : Heap) × (list_merge_two fuel (first xs none) (first ys none) h
        ≡ some (first ms none, g))
      × Linked g ms none
      × IsSorted ms
      × Perm ms (xs ++ ys)
      × SameOutsideBoth xs ys h g
list_merge_two_lem fuel xs ys h f l m u v s a b =
    let (g, e, r, same) = list_merge_two_cells fuel xs ys h f l m u v s in
    (merge_cells xs ys, g, e, r, merge_cells-IsSorted xs ys a b, merge_cells-perm xs ys, same)
