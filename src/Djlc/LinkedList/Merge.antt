-- ===== src/Djlc/LinkedList/Merge.antt =====
-- Merging two lists in place: djlc_list_merge_two.
pub mod Order
use djiang_oss_public.Prelude.{
  ℕ, zero, suc, ◌+◌, ◌<◌, ◌≡◌, ◌≢◌, refl, sym, ap, ◌∙◌, Bool, true, false, inl, inr, Option, none,
  some, List, [], ◌∷◌, ◌++◌, arith, update, update-ne, update_self, length, All, All-left,
  All-right, Bool-cases,
}
use djiang_oss_public.Prelude.Int.{ℤ, leb_ℤ}
use djiang_oss_public.Djlc.LinkedList.{
  Node, node, Heap, last, dummy, load, attach, merge_loop, list_merge_two,
}
use djiang_oss_public.Djlc.LinkedList.Cells.{
  Cell, first, Linked, Apart, Unshared, Separate, SameOutside, Linked-update, Separate-sym,
  load_lem, set_next_lem,
}

-- The merge of two lists; of equal values that of the first list comes first.
unfoldable pub merge_cells : List Cell → List Cell → List Cell
merge_cells [] ys = ys
merge_cells (x ∷ xs) [] = x ∷ xs
merge_cells (x ∷ xs) (y ∷ ys) = elim (leb_ℤ x.value y.value) [
  | true ↦ x ∷ merge_cells xs (y ∷ ys)
  | false ↦ y ∷ merge_cells (x ∷ xs) ys
]

-- The heaps agree outside the node `t` and the nodes of two lists.
abbrev SameOutside2 : Cell → List Cell → List Cell → Heap → Heap → Type 0
SameOutside2 t xs ys h g = (a : ℕ) → a ≢ t.addr → Apart a xs → Apart a ys → g a ≡ h a

-- The loop ends with the node `t` followed by the nodes `ms`.
abbrev Merges : ℕ → Cell → Option ℕ → List Cell → List Cell → List Cell → Heap → Type 0
Merges fuel t d xs ys ms h =
    (g : Heap) × (merge_loop fuel (last t.addr) d (first xs none) (first ys none) h ≡ some (d, g))
    × Linked g (t ∷ ms) none
    × SameOutside2 t xs ys h g

-- What the loop needs: the node `t`, and two lists apart from it and from each other.
record IsReady (h : Heap) (t : Cell) (q : Option ℕ) (xs ys : List Cell) : Type 0 where
  at : h t.addr ≡ some (node t.value q)
  left : Linked h xs none
  right : Linked h ys none
  apart_left : Apart t.addr xs
  apart_right : Apart t.addr ys
  distinct_left : Unshared xs
  distinct_right : Unshared ys
  separate : Separate xs ys

abbrev joined : Heap → Cell → Option ℕ → Heap
joined h t q = update h t.addr (some (node t.value q))

-- The rest of one list is hooked on.
hook :
    (fuel : ℕ) (t : Cell) (d q : Option ℕ) (xs ys ms : List Cell) (h : Heap)
    → h t.addr ≡ some (node t.value q)
    → Apart t.addr ms
    → Linked h ms none
    → merge_loop fuel (last t.addr) d (first xs none) (first ys none)
      ≡ attach (last t.addr) d (first ms none)
    → Merges fuel t d xs ys ms h
unfolding attach
hook fuel t d q xs ys ms h at p l e = (
  joined h t (first ms none),
  ap (λ m. m h) e ∙ rw (set_next_lem t.addr h at (first ms none)),
  (update_self h t.addr _, Linked-update h t.addr _ ms none p l),
  λ a ne pl pr. update-ne h t.addr a _ (λ f. ne (sym f)),
)

module _ (h : Heap) (t x y : Cell) (q : Option ℕ) (xs ys : List Cell)
    (r : IsReady h t q (x ∷ xs) (y ∷ ys)) where
  take_left : IsReady (joined h t (some x.addr)) x (first xs none) xs (y ∷ ys)
  take_left = record {
    at = update-ne h t.addr x.addr _ r.apart_left.0 ∙ r.left.0;
    left = Linked-update h t.addr _ xs none r.apart_left.1 r.left.1;
    right = Linked-update h t.addr _ (y ∷ ys) none r.apart_right r.right;
    apart_left = r.distinct_left.0;
    apart_right = r.separate.0;
    distinct_left = r.distinct_left.1;
    distinct_right = r.distinct_right;
    separate = r.separate.1;
  }

  take_right : IsReady (joined h t (some y.addr)) y (first ys none) (x ∷ xs) ys
  take_right =
      let s = Separate-sym (x ∷ xs) (y ∷ ys) r.separate in
      record {
        at = update-ne h t.addr y.addr _ r.apart_right.0 ∙ r.right.0;
        left = Linked-update h t.addr _ (x ∷ xs) none r.apart_left r.left;
        right = Linked-update h t.addr _ ys none r.apart_right.1 r.right.1;
        apart_left = s.0;
        apart_right = r.distinct_right.0;
        distinct_left = r.distinct_left;
        distinct_right = r.distinct_right.1;
        separate = Separate-sym ys (x ∷ xs) s.1;
      }

  merge_left :
      (fuel : ℕ) (d : Option ℕ) (ms : List Cell)
      → leb_ℤ x.value y.value ≡ true
      → Merges fuel x d xs (y ∷ ys) ms (joined h t (some x.addr))
      → Merges (suc fuel) t d (x ∷ xs) (y ∷ ys) (x ∷ ms) h
  unfolding merge_loop attach
  merge_left fuel d ms le (g, e, l, same) = (
    g,
    rw
        (
          load_lem x.addr h r.left.0,
          load_lem y.addr h r.right.0,
          le,
          set_next_lem t.addr h r.at (some x.addr),
          load_lem x.addr (joined h t (some x.addr)) take_left.at,
        )
        e,
    (same t.addr r.apart_left.0 r.apart_left.1 r.apart_right ∙ update_self h t.addr _, l),
    λ a ne pl pr. same a pl.0 pl.1 pr ∙ update-ne h t.addr a _ (λ f. ne (sym f)),
  )

  merge_right :
      (fuel : ℕ) (d : Option ℕ) (ms : List Cell)
      → leb_ℤ x.value y.value ≡ false
      → Merges fuel y d (x ∷ xs) ys ms (joined h t (some y.addr))
      → Merges (suc fuel) t d (x ∷ xs) (y ∷ ys) (y ∷ ms) h
  unfolding merge_loop attach
  merge_right fuel d ms gt (g, e, l, same) = (
    g,
    rw
        (
          load_lem x.addr h r.left.0,
          load_lem y.addr h r.right.0,
          gt,
          set_next_lem t.addr h r.at (some y.addr),
          load_lem y.addr (joined h t (some y.addr)) take_right.at,
        )
        e,
    (same t.addr r.apart_right.0 r.apart_left r.apart_right.1 ∙ update_self h t.addr _, l),
    λ a ne pl pr. same a pr.0 pl pr.1 ∙ update-ne h t.addr a _ (λ f. ne (sym f)),
  )

merge_loop_lem :
    (fuel : ℕ) (t : Cell) (d q : Option ℕ) (xs ys : List Cell) (h : Heap)
    → length xs + length ys < fuel
    → IsReady h t q xs ys
    → Merges fuel t d xs ys (merge_cells xs ys) h
unfolding merge_loop merge_cells
merge_loop_lem zero t d q xs ys h f r = absurd (omega arith)
merge_loop_lem (suc fuel) t d q [] ys h f r =
    hook (suc fuel) t d q [] ys ys h r.at r.apart_right r.right refl
merge_loop_lem (suc fuel) t d q (x ∷ xs) [] h f r =
    hook (suc fuel) t d q (x ∷ xs) [] (x ∷ xs) h r.at r.apart_left r.left refl
merge_loop_lem (suc fuel) t d q (x ∷ xs) (y ∷ ys) h f r =
    elim (Bool-cases (leb_ℤ x.value y.value)) [
      | inl le ↦
          rw (le, merge_cells)
            (merge_left h t x y q xs ys r fuel d (merge_cells xs (y ∷ ys)) le (
              merge_loop_lem fuel x d (first xs none) xs (y ∷ ys) (joined h t (some x.addr))
                (omega arith) (take_left h t x y q xs ys r)))
      | inr gt ↦
          rw (gt, merge_cells)
            (merge_right h t x y q xs ys r fuel d (merge_cells (x ∷ xs) ys) gt (
              merge_loop_lem fuel y d (first ys none) (x ∷ xs) ys (joined h t (some y.addr))
                (omega arith) (take_right h t x y q xs ys r)))
    ]

-- `g` and `h` agree outside the nodes of two lists.
abbrev pub SameOutsideBoth : List Cell → List Cell → Heap → Heap → Type 0
SameOutsideBoth xs ys h g = (a : ℕ) → Apart a xs → Apart a ys → g a ≡ h a

pub list_merge_two_cells :
    (fuel : ℕ) (xs ys : List Cell) (h : Heap)
    → length xs + length ys < fuel
    → Linked h xs none
    → Linked h ys none
    → Unshared xs
    → Unshared ys
    → Separate xs ys
    → (g : Heap) × (list_merge_two fuel (first xs none) (first ys none) h
        ≡ some (first (merge_cells xs ys) none, g))
      × Linked g (merge_cells xs ys) none
      × SameOutsideBoth xs ys h g
unfolding list_merge_two merge_loop attach merge_cells
list_merge_two_cells zero xs ys h f l m u v s = absurd (omega arith)
list_merge_two_cells (suc fuel) [] ys h f l m u v s = (h, refl, m, λ a p q. refl)
list_merge_two_cells (suc fuel) (x ∷ xs) [] h f l m u v s = (h, refl, l, λ a p q. refl)
list_merge_two_cells (suc fuel) (x ∷ xs) (y ∷ ys) h f l m u v s =
    elim (Bool-cases (leb_ℤ x.value y.value)) [
      | inl le ↦
          let (g, e, r, same) =
            merge_loop_lem fuel x (some x.addr) (first xs none) xs (y ∷ ys) h (omega arith)
              (record {
                at = l.0;
                left = l.1;
                right = m;
                apart_left = u.0;
                apart_right = s.0;
                distinct_left = u.1;
                distinct_right = v;
                separate = s.1;
              }) in
          rw (le, merge_cells)
            (
              g,
              rw (load_lem x.addr h l.0, load_lem y.addr h m.0, le, load_lem x.addr h l.0) e,
              r,
              λ a p q. same a p.0 p.1 q,
            )
      | inr gt ↦
          let t = Separate-sym (x ∷ xs) (y ∷ ys) s in
          let (g, e, r, same) =
            merge_loop_lem fuel y (some y.addr) (first ys none) (x ∷ xs) ys h (omega arith)
              (record {
                at = m.0;
                left = l;
                right = m.1;
                apart_left = t.0;
                apart_right = v.0;
                distinct_left = u;
                distinct_right = v.1;
                separate = Separate-sym ys (x ∷ xs) t.1;
              }) in
          rw (gt, merge_cells)
            (
              g,
              rw (load_lem x.addr h l.0, load_lem y.addr h m.0, gt, load_lem y.addr h m.0) e,
              r,
              λ a p q. same a q.0 p q.1,
            )
    ]
