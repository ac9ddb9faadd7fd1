-- ===== src/Djlc/LinkedList/Query.antt =====
-- The functions that read a list, and the one that frees it.
use djiang_oss_public.Prelude.{
  ℕ, zero, suc, ◌+◌, ◌<◌, ◌≡◌, ◌≢◌, ◌↔◌, refl, sym, ap, ◌∙◌, Bool, true, false, inl, inr, Option,
  none, some, List, [], ◌∷◌, map, arith, update, update-ne, update_self, length, drop, All,
  Bool-cases,
}
use djiang_oss_public.Prelude.Int.{ℤ, pos, eqb_ℤ, eqb_ℤ→eq}
use djiang_oss_public.Djlc.LinkedList.{
  Heap, length_loop, list_length, get_loop, list_get, tail_loop, list_tail, list_equal, list_free,
}
use djiang_oss_public.Djlc.LinkedList.Cells.{
  Cell, first, Linked, Unshared, SameOutside, Linked-update, load_lem, release_lem,
}

length_loop_lem :
    (fuel len : ℕ) (xs : List Cell) (h : Heap)
    → length xs < fuel
    → Linked h xs none
    → length_loop fuel len (first xs none) h ≡ some (len + length xs, h)
unfolding length_loop
length_loop_lem zero len xs h f l = absurd (omega arith)
length_loop_lem (suc fuel) len [] h f l = ap (λ n. some (n, h)) (omega arith)
length_loop_lem (suc fuel) len (x ∷ xs) h f l =
    rw (load_lem x.addr h l.0)
      (length_loop_lem fuel (len + 1) xs h (omega arith) l.1 ∙ ap (λ n. some (n, h)) (omega arith))

get_loop_lem :
    (n : ℕ) (xs : List Cell) (h : Heap)
    → Linked h xs none
    → get_loop n (first xs none) h ≡ some (first (drop n xs) none, h)
unfolding get_loop
get_loop_lem zero [] h l = refl
get_loop_lem zero (x ∷ xs) h l = refl
get_loop_lem (suc n) [] h l = refl
get_loop_lem (suc n) (x ∷ xs) h l = rw (load_lem x.addr h l.0) (get_loop_lem n xs h l.1)

-- The last node of a list, NULL for none.
abbrev pub last_of : List Cell → Option ℕ
last_of [] = none
last_of (x ∷ []) = some x.addr
last_of (x ∷ y ∷ xs) = last_of (y ∷ xs)

tail_loop_lem :
    (fuel : ℕ) (x : Cell) (xs : List Cell) (h : Heap)
    → length xs < fuel
    → Linked h (x ∷ xs) none
    → tail_loop fuel x.addr h ≡ some (last_of (x ∷ xs), h)
unfolding tail_loop
tail_loop_lem zero x xs h f l = absurd (omega arith)
tail_loop_lem (suc fuel) x [] h f l = rw (load_lem x.addr h l.0)
tail_loop_lem (suc fuel) x (y ∷ xs) h f l =
    rw (load_lem x.addr h l.0) (tail_loop_lem fuel y xs h (omega arith) l.1)

-- Given a round of fuel for each node and one more, the length of a list is the number of its
-- nodes, its node at an index `n` is the first of those after `n` nodes (NULL where the list has no
-- more), its tail is the last node, and all three leave the heap as it is.
list_queries :
    (fuel n : ℕ) (xs : List Cell) (h : Heap)
    → length xs < fuel
    → Linked h xs none
    → (list_length fuel (first xs none) h ≡ some (length xs, h))
      × (list_get (first xs none) (pos n) h ≡ some (first (drop n xs) none, h))
      × (list_tail fuel (first xs none) h ≡ some (last_of xs, h))
unfolding list_length list_get list_tail
list_queries fuel n [] h f l = (length_loop_lem fuel 0 [] h f l, get_loop_lem n [] h l, refl)
list_queries fuel n (x ∷ xs) h f l = (
  length_loop_lem fuel 0 (x ∷ xs) h f l ∙ ap (λ m. some (m, h)) (omega arith),
  get_loop_lem n (x ∷ xs) h l,
  tail_loop_lem fuel x xs h (omega arith) l,
)

abbrev pub values : List Cell → List ℤ
values = map (λ x. x.value)

head_eq : (x y : Cell) (xs ys : List Cell) → values (x ∷ xs) ≡ values (y ∷ ys) → x.value ≡ y.value
head_eq x y xs ys e = cc

tail_eq :
    (x y : Cell) (xs ys : List Cell) → values (x ∷ xs) ≡ values (y ∷ ys) → values xs ≡ values ys
tail_eq x y xs ys e = cc

-- Two lists are found equal exactly when they hold the same values in the same order; given more
-- rounds of fuel than the first has nodes, the comparison ends and leaves the heap as it is.
list_equal_lem :
    (fuel : ℕ) (xs ys : List Cell) (h : Heap)
    → length xs < fuel
    → Linked h xs none
    → Linked h ys none
    → (b : Bool) × (list_equal fuel (first xs none) (first ys none) h ≡ some (b, h))
      × ((b ≡ true) ↔ (values xs ≡ values ys))
unfolding list_equal
list_equal_lem zero xs ys h f l m = absurd (omega arith)
list_equal_lem (suc fuel) [] [] h f l m = (true, refl, ((λ e. refl), (λ e. refl)))
list_equal_lem (suc fuel) [] (y ∷ ys) h f l m = (false, refl, ((λ e. cc), (λ e. cc)))
list_equal_lem (suc fuel) (x ∷ xs) [] h f l m = (false, refl, ((λ e. cc), (λ e. cc)))
list_equal_lem (suc fuel) (x ∷ xs) (y ∷ ys) h f l m = elim (Bool-cases (eqb_ℤ x.value y.value)) [
  | inl eq ↦
      let (b, e, same) = list_equal_lem fuel xs ys h (omega arith) l.1 m.1 in
      (
        b,
        rw (load_lem x.addr h l.0, load_lem y.addr h m.0, eq) e,
        ((λ t i. eqb_ℤ→eq x.value y.value eq i ∷ same.0 t i), (λ t. same.1 (tail_eq x y xs ys t))),
      )
  | inr ne ↦ (
    false,
    rw (load_lem x.addr h l.0, load_lem y.addr h m.0, ne),
    ((λ t. cc), (λ t. absurd (differ x.value y.value ne (head_eq x y xs ys t)))),
  )
]
  where
    differ : (a b : ℤ) → eqb_ℤ a b ≡ false → a ≢ b
    differ a b ne e = ground arith

-- Freeing a list of distinct nodes, given a round of fuel for each and one more, takes each of them
-- off the heap and touches nothing else.
pub list_free_lem :
    (fuel : ℕ) (xs : List Cell) (h : Heap)
    → length xs < fuel
    → Linked h xs none
    → Unshared xs
    → (g : Heap) × (list_free fuel (first xs none) h ≡ some (tt, g))
      × All (λ x. g x.addr ≡ none) xs
      × SameOutside xs h g
unfolding list_free
list_free_lem zero xs h f l u = absurd (omega arith)
list_free_lem (suc fuel) [] h f l u = (h, refl, tt, λ a p. refl)
list_free_lem (suc fuel) (x ∷ xs) h f l u =
    let h' : Heap = update h x.addr none in
    let (g, e, gone, same) =
      list_free_lem fuel xs h' (omega arith) (Linked-update h x.addr none xs none u.0 l.1) u.1 in
    (
      g,
      rw (load_lem x.addr h l.0, release_lem x.addr h l.0) e,
      (same x.addr u.0 ∙ update_self h x.addr none, gone),
      λ a p. same a p.1 ∙ update-ne h x.addr a none (λ q. p.0 (sym q)),
    )
