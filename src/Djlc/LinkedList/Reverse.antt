-- ===== src/Djlc/LinkedList/Reverse.antt =====
-- Reversal in place: djlc_list_reverse and djlc_list_reverse_n.
use mathlib.Core.List.{reverse, reverse_aux, reverse_aux-eq}
use djiang_oss_public.Prelude.{
  ℕ, zero, suc, ◌<◌, ◌≡◌, ◌≢◌, refl, sym, ap, subst, ◌∙◌, Option, none, some, List, [], ◌∷◌, ◌++◌,
  arith, take, drop, update, update-ne, update_self, length, All, All-left, All-right,
  take-append-drop,
}
use djiang_oss_public.Prelude.Int.{ℤ, pos, pos_part, ◌≤ℤ◌}
use djiang_oss_public.Djlc.LinkedList.{
  node, Heap, list_reverse_loop, list_reverse, reverse_first, list_reverse_n,
}
use djiang_oss_public.Djlc.LinkedList.Cells.{
  Cell, first, first-append, Linked, Apart, Unshared, Separate, SameOutside, Linked-left,
  Linked-right, Linked-append, Linked-update, Linked-outside, Separate-sym, Unshared-Separate,
  load_lem, set_next_lem,
}

-- The heap after one round: the first node points back.
abbrev pub turned : Heap → Cell → Option ℕ → Heap
turned h x prev = update h x.addr (some (node x.value prev))

turned_xs :
    (h : Heap) (x : Cell) (xs ys : List Cell) (e : Option ℕ)
    → Unshared (x ∷ xs)
    → Linked h (x ∷ xs) e
    → Linked (turned h x (first ys none)) xs e
turned_xs h x xs ys e u l = Linked-update h x.addr _ xs e u.0 l.1

turned_ys :
    (h : Heap) (x : Cell) (ys : List Cell)
    → Apart x.addr ys
    → Linked h ys none
    → Linked (turned h x (first ys none)) (x ∷ ys) none
turned_ys h x ys s l = (update_self h x.addr _, Linked-update h x.addr _ ys none s l)

-- What is left is separate from what has been turned round.
next_Separate :
    (x : Cell) (xs ys : List Cell) → Unshared (x ∷ xs) → Separate (x ∷ xs) ys → Separate xs (x ∷ ys)
next_Separate x xs ys u s = Separate-sym (x ∷ ys) xs (u.0, Separate-sym xs ys s.1)

SameOutside-turned :
    (h g : Heap) (x : Cell) (xs : List Cell) (prev : Option ℕ)
    → SameOutside xs (turned h x prev) g
    → SameOutside (x ∷ xs) h g
SameOutside-turned h g x xs prev same a p = same a p.1 ∙ update-ne h x.addr a _ (λ e. p.0 (sym e))

-- `cur` heads what is left, `prev` what has been turned round.
list_reverse_loop_lem :
    (fuel : ℕ) (xs ys : List Cell) (h : Heap)
    → length xs < fuel
    → Linked h xs none
    → Linked h ys none
    → Unshared xs
    → Separate xs ys
    → (g : Heap) × (list_reverse_loop fuel (first ys none) (first xs none) h
        ≡ some (first (reverse_aux xs ys) none, g))
      × Linked g (reverse_aux xs ys) none
      × SameOutside xs h g
unfolding list_reverse_loop
list_reverse_loop_lem zero xs ys h f l m u s = absurd (omega arith)
list_reverse_loop_lem (suc fuel) [] ys h f l m u s = (h, refl, m, λ a p. refl)
list_reverse_loop_lem (suc fuel) (x ∷ xs) ys h f l m u s =
    let (g, e, done, same) =
      list_reverse_loop_lem fuel xs (x ∷ ys) (turned h x (first ys none)) (omega arith)
        (turned_xs h x xs ys none u l) (turned_ys h x ys s.0 m) u.1 (next_Separate x xs ys u s) in
    (
      g,
      rw (load_lem x.addr h l.0, set_next_lem x.addr h l.0 (first ys none)) e,
      done,
      SameOutside-turned h g x xs (first ys none) same,
    )

-- Reversing a list of distinct nodes, with a round of fuel for each node and one more, returns the
-- same nodes with their values linked in the opposite order, and writes to no other node.
pub list_reverse_lem :
    (fuel : ℕ) (xs : List Cell) (h : Heap)
    → length xs < fuel
    → Linked h xs none
    → Unshared xs
    → (g : Heap) × (list_reverse fuel (first xs none) h ≡ some (first (reverse xs) none, g))
      × Linked g (reverse xs) none
      × SameOutside xs h g
unfolding list_reverse
list_reverse_lem fuel xs h f l u =
    list_reverse_loop_lem fuel xs [] h f l tt u (Separate-sym [] xs tt)

reverse_first_lem :
    (n : ℕ) (ws ys : List Cell) (h : Heap)
    → Linked h ws none
    → Linked h ys none
    → Unshared ws
    → Separate ws ys
    → (g : Heap) × (reverse_first n (first ys none) (first ws none) h
        ≡ some ((first (reverse_aux (take n ws) ys) none, first (drop n ws) none), g))
      × Linked g (reverse_aux (take n ws) ys) none
      × SameOutside (take n ws) h g
unfolding reverse_first
reverse_first_lem zero ws ys h l m u s = (h, refl, m, λ a p. refl)
reverse_first_lem (suc n) [] ys h l m u s = (h, refl, m, λ a p. refl)
reverse_first_lem (suc n) (x ∷ ws) ys h l m u s =
    let (g, e, done, same) =
      reverse_first_lem n ws (x ∷ ys) (turned h x (first ys none)) (turned_xs h x ws ys none u l)
        (turned_ys h x ys s.0 m) u.1 (next_Separate x ws ys u s) in
    (
      g,
      rw (load_lem x.addr h l.0, set_next_lem x.addr h l.0 (first ys none)) e,
      done,
      SameOutside-turned h g x (take n ws) (first ys none) same,
    )

All-reverse_aux {ℓ κ} :
    {A : Type ℓ} (P : A → Type κ) (xs ys : List A) → All P xs → All P ys → All P (reverse_aux xs ys)
All-reverse_aux P [] ys a b = b
All-reverse_aux P (x ∷ xs) ys a b = All-reverse_aux P xs (x ∷ ys) a.1 (a.0, b)

-- The nodes turned round are followed by the others again.
relink :
    (g : Heap) (rs zs : List Cell) (x : Cell)
    → Linked g (rs ++ x ∷ []) none
    → Linked g zs none
    → Apart x.addr rs
    → Apart x.addr zs
    → Linked (turned g x (first zs none)) (rs ++ x ∷ zs) none
relink g rs zs x l m p q =
    Linked-append (turned g x (first zs none)) rs (x ∷ zs) none
      (Linked-update g x.addr _ rs (some x.addr) p (Linked-left g rs (x ∷ []) none l))
      (update_self g x.addr _, Linked-update g x.addr _ zs none q m)

list_reverse_n_run :
    (n : ℕ) (x : Cell) (h g : Heap) (rs zs : List Cell)
    → reverse_first (suc n) none (some x.addr) h
      ≡ some ((first (rs ++ x ∷ []) none, first zs none), g)
    → Linked g (rs ++ x ∷ []) none
    → list_reverse_n (some x.addr) (pos (suc n)) h
      ≡ some ((first (rs ++ x ∷ zs) none, some x.addr), turned g x (first zs none))
unfolding list_reverse_n
list_reverse_n_run n x h g rs zs e l = rw (
  e,
  set_next_lem x.addr g (Linked-right g rs (x ∷ []) none l).0 (first zs none),
  first-append rs (x ∷ []) none,
  first-append rs (x ∷ zs) none,
)

-- Reversing the first n nodes of a list of distinct nodes, at least one, for a positive n, returns
-- the list of all the nodes in which the first n, or all where there are fewer, stand in the
-- opposite order and the others follow, and stores the former first node in *tail; no other node is
-- written to.
pub list_reverse_n_lem :
    (n : ℕ) (x : Cell) (ws : List Cell) (h : Heap)
    → Linked h (x ∷ ws) none
    → Unshared (x ∷ ws)
    → (g : Heap) × (list_reverse_n (some x.addr) (pos (suc n)) h
        ≡ some ((first (reverse (take n ws) ++ x ∷ drop n ws) none, some x.addr), g))
      × Linked g (reverse (take n ws) ++ x ∷ drop n ws) none
      × SameOutside (x ∷ ws) h g
list_reverse_n_lem n x ws h l u =
    let zs = drop n ws in
    let rs = reverse (take n ws) in
    let (g, e, back, same) =
      reverse_first_lem (suc n) (x ∷ ws) [] h l tt u (Separate-sym [] (x ∷ ws) tt) in
    let turned_round = reverse_aux-eq (take n ws) (x ∷ []) in
    let back' : Linked g (rs ++ x ∷ []) none = subst (λ ys. Linked g ys none) turned_round back in
    let whole = sym (take-append-drop n ws) in
    let u' : Unshared (x ∷ take n ws ++ zs) = subst (λ ys. Unshared (x ∷ ys)) whole u in
    let rest : Linked g zs none =
      Linked-outside h g (x ∷ take n ws) zs none same
        (Separate-sym (x ∷ take n ws) zs (Unshared-Separate (x ∷ take n ws) zs u'))
        (Linked-right h (take n ws) zs none (subst (λ ys. Linked h ys none) whole l.1)) in
    let away = λ (c : Cell). x.addr ≢ c.addr in
    let apart : Apart x.addr rs =
      All-reverse_aux away (take n ws) [] (All-left away (take n ws) zs u'.0) tt in
    (
      turned g x (first zs none),
      list_reverse_n_run n x h g rs zs
          (e ∙ ap (λ ys. some ((first ys none, first zs none), g)) turned_round) back',
      relink g rs zs x back' rest apart (All-right away (take n ws) zs u'.0),
      λ a p.
          update-ne g x.addr a _ (λ q. p.0 (sym q))
          ∙ same a (p.0, All-left (λ c. a ≢ c.addr) (take n ws) zs (subst (Apart a) whole p.1)),
    )

-- With n at most 0, the call on a list of at least one node makes the first node point at itself
-- and returns NULL.
pub list_reverse_n-zero :
    (n : ℤ) (x : Cell) (ws : List Cell) (h : Heap)
    → Linked h (x ∷ ws) none
    → n ≤ℤ pos 0
    → list_reverse_n (some x.addr) n h ≡ some ((none, some x.addr), turned h x (some x.addr))
unfolding list_reverse_n reverse_first
list_reverse_n-zero n x ws h l e =
    let none_left : pos_part n ≡ 0 = ground arith in
    rw (none_left, set_next_lem x.addr h l.0 (some x.addr))
