-- ===== src/Tests/Lists.antt =====
-- Linked lists of a few nodes.
use mathlib.Core.List.{reverse}
use djiang_oss_public.Prelude.{
  ℕ, ◌<◌, ◌≡◌, refl, inl, inr, ◌⊎◌, sym, subst, Bool-cases, ◌==◌, Option, none, some, List, [], ◌∷◌,
  ◌++◌, arith, update, take, drop,
}
use djiang_oss_public.Prelude.Int.{pos}
use djiang_oss_public.Djlc.LinkedList.{
  Heap, node, list_create, list_reverse, list_reverse_n, list_merge_k,
}
use djiang_oss_public.Djlc.LinkedList.Cells.{Cell, first, Linked, Unshared, Separate, SameOutside}
use djiang_oss_public.Djlc.LinkedList.Query.{values}
use djiang_oss_public.Djlc.LinkedList.Failure.{list_create-fails}
use djiang_oss_public.Djlc.LinkedList.Reverse.{
  turned, list_reverse_lem, list_reverse_n_lem, list_reverse_n-zero,
}
use djiang_oss_public.Djlc.LinkedList.Merge.Order.{IsSorted}
use djiang_oss_public.Djlc.LinkedList.Gather.{gather, IsMerged, AreLists}
use djiang_oss_public.Djlc.LinkedList.MergeRange.{list_merge_k_lem}

abbrev cell : ℕ → ℕ → Cell
cell a v = record { addr = a; value = pos v }

abbrev low : List Cell
low = cell 1 5 ∷ cell 2 8 ∷ []

abbrev high : List Cell
high = cell 3 6 ∷ []

-- Both lists.
abbrev heap : Heap
heap =
    update
      (update (update (λ a. none) 1 (some (node (pos 5) (some 2)))) 2 (some (node (pos 8) none))) 3
      (some (node (pos 6) none))

low-Linked : Linked heap low none
low-Linked = (refl, (refl, tt))

high-Linked : Linked heap high none
high-Linked = (refl, tt)

low-Unshared : Unshared low
low-Unshared = ((omega arith, tt), (tt, tt))

high-Unshared : Unshared high
high-Unshared = (tt, tt)

low-Separate : Separate low high
low-Separate = ((omega arith, tt), ((omega arith, tt), tt))

low-IsSorted : IsSorted low
low-IsSorted = ((omega arith, tt), (tt, tt))

high-IsSorted : IsSorted high
high-IsSorted = (tt, tt)

list_reverse_example :
    (g : Heap) × (list_reverse 3 (first low none) heap ≡ some (first (reverse low) none, g))
    × Linked g (reverse low) none
    × SameOutside low heap g
list_reverse_example = list_reverse_lem 3 low heap (omega arith) low-Linked low-Unshared

list_reverse_n_example :
    (g : Heap) × (list_reverse_n (some 1) (pos 2) heap
      ≡ some (
        (
          first (reverse (take 1 (cell 2 8 ∷ [])) ++ cell 1 5 ∷ drop 1 (cell 2 8 ∷ [])) none,
          some 1,
        ),
        g,
      ))
    × Linked g (reverse (take 1 (cell 2 8 ∷ [])) ++ cell 1 5 ∷ drop 1 (cell 2 8 ∷ [])) none
    × SameOutside low heap g
list_reverse_n_example =
    list_reverse_n_lem 1 (cell 1 5) (cell 2 8 ∷ []) heap low-Linked low-Unshared

list_reverse_n-zero_example :
    list_reverse_n (some 1) (pos 0) heap ≡ some ((none, some 1), turned heap (cell 1 5) (some 1))
list_reverse_n-zero_example =
    list_reverse_n-zero (pos 0) (cell 1 5) (cell 2 8 ∷ []) heap low-Linked (omega arith)

abbrev lists : ℕ → Option ℕ
lists = update (update (λ i. none) 0 (some 1)) 1 (some 3)

abbrev all_cells : ℕ → List Cell
all_cells = update (update (λ i. []) 0 low) 1 high

below_two : (j : ℕ) → j < 2 → (j ≡ 0) ⊎ (j ≡ 1)
below_two j lt = ground arith

heap-AreLists : AreLists heap lists all_cells 0 2
heap-AreLists = record {
  heads = λ j le lt. elim (Bool-cases (j == 0)) [ inl e ↦ ground arith | inr ne ↦ ground arith ];
  linked = λ j le lt. elim (below_two j lt) [
    | inl e ↦ subst (λ i. Linked heap (all_cells i) none) (sym e) low-Linked
    | inr e ↦ subst (λ i. Linked heap (all_cells i) none) (sym e) high-Linked
  ];
  sorted = λ j le lt. elim (below_two j lt) [
    | inl e ↦ subst (λ i. IsSorted (all_cells i)) (sym e) low-IsSorted
    | inr e ↦ subst (λ i. IsSorted (all_cells i)) (sym e) high-IsSorted
  ];
  distinct = ((omega arith, (omega arith, tt)), ((omega arith, tt), (tt, tt)));
}

list_merge_k_example :
    (ms : List Cell) × (g : Heap) × (list_merge_k 4 lists 2 heap ≡ some (first ms none, g))
    × IsMerged heap g (gather all_cells 0 2) ms
list_merge_k_example = list_merge_k_lem 4 2 lists all_cells heap heap-AreLists (omega arith)

-- Memory in which nothing stands, and an allocator that succeeds twice.
abbrev empty_heap : Heap
empty_heap a = none

abbrev twice : ℕ → Option ℕ
twice = update (update (λ i. none) 0 (some 1)) 1 (some 2)

list_create-fails_example :
    (g : Heap) × (list_create twice (values low ++ pos 7 ∷ []) empty_heap ≡ some (none, g))
    × ((a : ℕ) → g a ≡ empty_heap a)
list_create-fails_example =
    list_create-fails twice low (pos 7) [] empty_heap (refl, (refl, tt)) refl low-Unshared
      (refl, (refl, tt))
