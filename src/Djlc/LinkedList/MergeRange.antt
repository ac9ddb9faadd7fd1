-- ===== src/Djlc/LinkedList/MergeRange.antt =====
-- Merging several lists by halves: djlc_list_merge_range and djlc_list_merge_k.
use mathlib.Core.List.{Perm}
use mathlib.Core.List.Perm
use djiang_oss_public.Prelude.{
  ℕ, zero, suc, ◌+◌, ◌-◌, ◌/◌, ◌≤◌, ◌<◌, ◌≡◌, ◌≢◌, refl, sym, ap, subst, ◌∙◌, true, false, Option,
  none, some, List, [], ◌++◌, arith, ltb, ◌==◌, length, length-append, All-left, ==_ne, append-nil,
}
use djiang_oss_public.Djlc.LinkedList.{Heap, list_merge_two, list_merge_range, list_merge_k}
use djiang_oss_public.Djlc.LinkedList.Cells.{
  Cell, first, Apart, Unshared, SameOutside, Linked-outside, Separate-sym, Unshared-left,
  Unshared-right, Unshared-Separate,
}
use djiang_oss_public.Djlc.LinkedList.Merge.{merge_cells}
use djiang_oss_public.Djlc.LinkedList.Gather.{
  gather, gather_add, All-gather, IsMerged, AreLists, Merged, merge_halves,
}

-- One list is returned as it is.
merge_one :
    (fuel depth left right : ℕ) (lists : ℕ → Option ℕ) (cells : ℕ → List Cell) (h : Heap)
    → right ≡ left + 0
    → AreLists h lists cells left 1
    → Merged fuel (suc depth) lists left right (gather cells left 1) h
unfolding list_merge_range
merge_one fuel depth left right lists cells h e a =
    let here : left ≤ left = omega arith in
    let next : left < left + 1 = omega arith in
    let no_empty : ltb right left ≡ false = ground arith in
    let single : (left == right) ≡ true = ground arith in
    let drop_nil = sym (append-nil (cells left)) in
    (
      cells left,
      h,
      rw (no_empty, single) (ap (λ p. some (p, h)) (a.heads left here next)),
      record {
        linked = a.linked left here next;
        sorted = a.sorted left here next;
        perm = subst (Perm (cells left)) drop_nil Perm.rfl;
        same = λ b p. refl;
        distinct = Unshared-left (cells left) [] a.distinct;
        apart = λ b p. All-left (λ c. b ≢ c.addr) (cells left) [] p;
        count = ap length drop_nil;
      },
    )

-- The lists of a half; those of the second half after the first has been merged.
module _ (h : Heap) (lists : ℕ → Option ℕ) (cells : ℕ → List Cell) (left mid n m : ℕ)
    (halves : gather cells left (n + m) ≡ gather cells left n ++ gather cells mid m)
    (next : mid ≡ left + n) (a : AreLists h lists cells left (n + m)) where
  distinct_halves : Unshared (gather cells left n ++ gather cells mid m)
  distinct_halves = subst Unshared halves a.distinct

  first_half : AreLists h lists cells left n
  first_half = record {
    heads = λ j le lt. a.heads j le (omega arith);
    linked = λ j le lt. a.linked j le (omega arith);
    sorted = λ j le lt. a.sorted j le (omega arith);
    distinct = Unshared-left (gather cells left n) (gather cells mid m) distinct_halves;
  }

  second_half : (g : Heap) → SameOutside (gather cells left n) h g → AreLists g lists cells mid m
  second_half g same =
      let ls = gather cells left n in
      let rs = gather cells mid m in
      let s = Separate-sym ls rs (Unshared-Separate ls rs distinct_halves) in
      record {
        heads = λ j le lt. a.heads j (omega arith) (omega arith);
        linked = λ j le lt.
            Linked-outside h g ls (cells j) none same
              (All-gather (λ c. Apart c.addr ls) cells mid m j le lt s)
              (a.linked j (omega arith) (omega arith));
        sorted = λ j le lt. a.sorted j (omega arith) (omega arith);
        distinct = Unshared-right ls rs distinct_halves;
      }

merge_split_run :
    (fuel depth left right : ℕ) (lists : ℕ → Option ℕ) (h g1 g2 : Heap) (p q : Option ℕ)
    → left < right
    → list_merge_range fuel depth lists left (left + (right - left) / 2) h ≡ some (p, g1)
    → list_merge_range fuel depth lists (left + (right - left) / 2 + 1) right g1 ≡ some (q, g2)
    → list_merge_range fuel (suc depth) lists left right h ≡ list_merge_two fuel p q g2
unfolding list_merge_range
merge_split_run fuel depth left right lists h g1 g2 p q lt e1 e2 =
    let no_empty : ltb right left ≡ false = ground arith in
    let several : (left == right) ≡ false = ground arith in rw (no_empty, several, e1, e2)

list_merge_range_lem :
    (fuel depth left n right : ℕ) (lists : ℕ → Option ℕ) (cells : ℕ → List Cell) (h : Heap)
    → right ≡ left + n
    → n < depth
    → length (gather cells left (suc n)) < fuel
    → AreLists h lists cells left (suc n)
    → Merged fuel depth lists left right (gather cells left (suc n)) h
list_merge_range_lem fuel zero left n right lists cells h e d f a = absurd (omega arith)
list_merge_range_lem fuel (suc depth) left zero right lists cells h e d f a =
    merge_one fuel depth left right lists cells h e a
list_merge_range_lem fuel (suc depth) left (suc n) right lists cells h e d f a =
    let mid = left + (right - left) / 2 in
    let m = suc n / 2 in
    let count : suc (suc n) ≡ suc m + suc (n - m) = omega arith in
    let next : mid + 1 ≡ left + suc m = omega arith in
    let halves =
      ap (gather cells left) count ∙ gather_add cells left (mid + 1) (suc m) (suc (n - m)) next in
    let all : AreLists h lists cells left (suc m + suc (n - m)) =
      subst (AreLists h lists cells left) count a in
    let parts = gather_add cells left (mid + 1) (suc m) (suc (n - m)) next in
    let small = subst (λ ws. length ws < fuel) halves f in
    let (ms1, g1, e1, r1) =
      list_merge_range_lem fuel depth left m mid lists cells h (omega arith) (omega arith)
        (omega (
          arith,
          length-append (gather cells left (suc m)) (gather cells (mid + 1) (suc (n - m))),
          small,
        ))
        (first_half h lists cells left (mid + 1) (suc m) (suc (n - m)) parts next all) in
    let (ms2, g2, e2, r2) =
      list_merge_range_lem fuel depth (mid + 1) (n - m) right lists cells g1 (omega arith)
        (omega arith)
        (omega (
          arith,
          length-append (gather cells left (suc m)) (gather cells (mid + 1) (suc (n - m))),
          small,
        ))
        (second_half h lists cells left (mid + 1) (suc m) (suc (n - m)) parts next all g1
          r1.same) in
    let (g, e3, r) =
      merge_halves fuel h g1 g2 (gather cells left (suc m)) (gather cells (mid + 1) (suc (n - m)))
        ms1 ms2 small (subst Unshared halves a.distinct) r1 r2 in
    (
      merge_cells ms1 ms2,
      g,
      merge_split_run fuel depth left right lists h g1 g2 _ _ (omega arith) e1 e2 ∙ e3,
      subst (λ ws. IsMerged h g ws (merge_cells ms1 ms2)) (sym halves) r,
    )

-- Merging k sorted lists that share no node, with fuel for more than all the nodes, returns one
-- sorted list of exactly the nodes of all of them, each with its value, and writes to no other
-- node.
pub list_merge_k_lem :
    (fuel k : ℕ) (lists : ℕ → Option ℕ) (cells : ℕ → List Cell) (h : Heap)
    → AreLists h lists cells 0 k
    → length (gather cells 0 k) < fuel
    → (ms : List Cell) × (g : Heap) × (list_merge_k fuel lists k h ≡ some (first ms none, g))
      × IsMerged h g (gather cells 0 k) ms
unfolding list_merge_k
list_merge_k_lem fuel zero lists cells h a f = (
  [],
  h,
  refl,
  record {
    linked = tt;
    sorted = tt;
    perm = Perm.rfl;
    same = λ b p. refl;
    distinct = tt;
    apart = λ b p. tt;
    count = refl;
  },
)
list_merge_k_lem fuel (suc k) lists cells h a f =
    let (ms, g, e, r) =
      list_merge_range_lem fuel (suc k) 0 k (suc k - 1) lists cells h (omega arith) (omega arith) f
        a in
    (ms, g, rw (==_ne (suc k) 0 (λ q. omega arith)) e, r)
