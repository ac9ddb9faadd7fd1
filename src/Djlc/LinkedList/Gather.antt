-- ===== src/Djlc/LinkedList/Gather.antt =====
-- What merging several lists brings about, and the last step of it: the results of two halves.
use mathlib.Core.List.{Perm}
use mathlib.Core.List.Perm
use djiang_oss_public.Prelude.{
  ℕ, zero, suc, ◌+◌, ◌≤◌, ◌<◌, ◌≡◌, ◌≢◌, sym, ap, subst, ◌∙◌, inl, inr, Option, none, some, List,
  [], ◌++◌, arith, ◌==◌, length, length-append, All, All-left, All-right, All-map, Bool-cases,
  append_assoc,
}
use djiang_oss_public.Djlc.LinkedList.{Heap, list_merge_two, list_merge_range}
use djiang_oss_public.Djlc.LinkedList.Cells.{
  Cell, first, Linked, Apart, Unshared, Separate, SameOutside, Linked-outside, Separate-sym,
  Unshared-Separate,
}
use djiang_oss_public.Djlc.LinkedList.Merge.{merge_cells, list_merge_two_cells}
use djiang_oss_public.Djlc.LinkedList.Merge.Order.{
  IsSorted, All-merge_cells, merge_cells-IsSorted, merge_cells-perm, length-merge_cells,
  merge_cells-Unshared,
}

-- The nodes of the `n` lists from the index `i` on.
abbrev pub gather : (ℕ → List Cell) → ℕ → ℕ → List Cell
gather cells i zero = []
gather cells i (suc n) = cells i ++ gather cells (i + 1) n

pub gather_add :
    (cells : ℕ → List Cell) (i j n m : ℕ)
    → j ≡ i + n
    → gather cells i (n + m) ≡ gather cells i n ++ gather cells j m
gather_add cells i j zero m e =
    let start : i ≡ j = omega (arith, e) in
    let count : 0 + m ≡ m = omega arith in λ k. gather cells (start k) (count k)
gather_add cells i j (suc n) m e =
    let count : suc n + m ≡ suc (n + m) = omega arith in
    ap (gather cells i) count
    ∙ ap (λ l. cells i ++ l) (gather_add cells (i + 1) j n m (omega (arith, e)))
    ∙ sym (append_assoc (cells i) (gather cells (i + 1) n) (gather cells j m))

pub All-gather {ℓ} :
    (P : Cell → Type ℓ) (cells : ℕ → List Cell) (i n j : ℕ)
    → i ≤ j
    → j < i + n
    → All P (gather cells i n)
    → All P (cells j)
All-gather P cells i zero j le lt a = absurd (omega arith)
All-gather P cells i (suc n) j le lt a = elim (Bool-cases (i == j)) [
  | inl e ↦
      let same : i ≡ j = ground arith in
      subst (λ k. All P (cells k)) same (All-left P (cells i) (gather cells (i + 1) n) a)
  | inr ne ↦
      All-gather P cells (i + 1) n j (ground arith) (omega arith)
        (All-right P (cells i) (gather cells (i + 1) n) a)
]

-- What merging the nodes `ws` brings about: one sorted list of exactly these nodes, and no write to
-- another.
pub record IsMerged (h g : Heap) (ws ms : List Cell) : Type 0 where
  pub linked : Linked g ms none
  pub sorted : IsSorted ms
  pub perm : Perm ms ws
  pub same : SameOutside ws h g
  pub distinct : Unshared ms
  pub apart : (a : ℕ) → Apart a ws → Apart a ms
  pub count : length ms ≡ length ws

-- The lists that are merged, those of the indices from `i` to `i + n - 1`.
pub record AreLists (h : Heap) (lists : ℕ → Option ℕ) (cells : ℕ → List Cell) (i n : ℕ)
    : Type 0 where
  pub heads : (j : ℕ) → i ≤ j → j < i + n → lists j ≡ first (cells j) none
  pub linked : (j : ℕ) → i ≤ j → j < i + n → Linked h (cells j) none
  pub sorted : (j : ℕ) → i ≤ j → j < i + n → IsSorted (cells j)
  pub distinct : Unshared (gather cells i n)

abbrev pub Merged : ℕ → ℕ → (ℕ → Option ℕ) → ℕ → ℕ → List Cell → Heap → Type 0
Merged fuel depth lists left right ws h =
    (ms : List Cell) × (g : Heap) × (list_merge_range fuel depth lists left right h
      ≡ some (first ms none, g))
    × IsMerged h g ws ms

Separate-Apart :
    (ms ws ys : List Cell) → ((a : ℕ) → Apart a ws → Apart a ms) → Separate ws ys → Separate ms ys
Separate-Apart ms ws ys apart s =
    Separate-sym ys ms (All-map (λ y p. apart y.addr p) ys (Separate-sym ws ys s))

-- Merging the results of the two halves.
pub merge_halves :
    (fuel : ℕ) (h g1 g2 : Heap) (ls rs ms1 ms2 : List Cell)
    → length (ls ++ rs) < fuel
    → Unshared (ls ++ rs)
    → IsMerged h g1 ls ms1
    → IsMerged g1 g2 rs ms2
    → (g : Heap) × (list_merge_two fuel (first ms1 none) (first ms2 none) g2
        ≡ some (first (merge_cells ms1 ms2) none, g))
      × IsMerged h g (ls ++ rs) (merge_cells ms1 ms2)
merge_halves fuel h g1 g2 ls rs ms1 ms2 f u l r =
    let s = Separate-Apart ms1 ls rs l.apart (Unshared-Separate ls rs u) in
    let t = Separate-sym ms2 ms1 (Separate-Apart ms2 rs ms1 r.apart (Separate-sym ms1 rs s)) in
    let (g, e, linked, same) =
      list_merge_two_cells fuel ms1 ms2 g2 (omega (arith, length-append ls rs, l.count, r.count))
        (Linked-outside g1 g2 rs ms1 none r.same s l.linked) r.linked l.distinct r.distinct t in
    (
      g,
      e,
      record {
        linked = linked;
        sorted = merge_cells-IsSorted ms1 ms2 l.sorted r.sorted;
        perm = Perm.trans (merge_cells-perm ms1 ms2) (Perm.append l.perm r.perm);
        same = λ a p.
            let pa = All-left (λ c. a ≢ c.addr) ls rs p in
            let pb = All-right (λ c. a ≢ c.addr) ls rs p in
            same a (l.apart a pa) (r.apart a pb) ∙ r.same a pb ∙ l.same a pa;
        distinct = merge_cells-Unshared ms1 ms2 l.distinct r.distinct t;
        apart = λ a p.
            All-merge_cells (λ c. a ≢ c.addr) ms1 ms2
              (l.apart a (All-left (λ c. a ≢ c.addr) ls rs p))
              (r.apart a (All-right (λ c. a ≢ c.addr) ls rs p));
        count = omega (arith, length-merge_cells ms1 ms2, length-append ls rs, l.count, r.count);
      },
    )
