-- ===== src/Djlc/LinkedList/Failure.antt =====
-- djlc_list_create where an allocation fails: what has been allocated is freed again.
use djiang_oss_public.Prelude.{
  ℕ, ◌+◌, ◌≡◌, ◌≢◌, refl, sym, ap, subst, ◌∙◌, Option, none, some, List, [], ◌∷◌, ◌++◌, arith,
  update, update-ne, update_self, length, length-append, append_assoc, All, All-left, All-right,
  eq_cases, ◌⊎◌, inl, inr,
}
use djiang_oss_public.Prelude.Int.{ℤ}
use djiang_oss_public.Djlc.LinkedList.{
  node, Heap, list_new_node, create_loop, list_create, list_free,
}
use djiang_oss_public.Djlc.LinkedList.Cells.{
  Cell, first, Linked, Apart, Unshared, SameOutside, first-append, Linked-append, Linked-update,
  Linked-end, Linked-right, set_next_lem, Unshared-Separate, Separate-sym, Unshared-left,
}
use djiang_oss_public.Djlc.LinkedList.Query.{values, list_free_lem}
use djiang_oss_public.Djlc.LinkedList.Build.{
  Allocates, extended, extended-new, extended-outside, create_step,
}

Apart-last : (ws : List Cell) (c : Cell) → Unshared (ws ++ c ∷ []) → Apart c.addr ws
Apart-last ws c u = (Separate-sym ws (c ∷ []) (Unshared-Separate ws (c ∷ []) u)).0

-- The nodes made so far are `ws` and `c`; those still made before `malloc` fails are `xs`.
abbrev CreateFails : (ℕ → Option ℕ) → ℕ → ℕ → Cell → List ℤ → Heap → List Cell → Type 0
CreateFails fresh i head c vs h all =
    (g : Heap) × (create_loop fresh i head c.addr vs h ≡ some (none, g))
    × All (λ x. g x.addr ≡ none) all
    × SameOutside all h g

fails_at_once :
    (fresh : ℕ → Option ℕ) (i head : ℕ) (ws : List Cell) (c : Cell) (v : ℤ) (vs : List ℤ) (h : Heap)
    → fresh i ≡ none
    → Linked h (ws ++ c ∷ []) none
    → Unshared (ws ++ c ∷ [])
    → i ≡ length (ws ++ c ∷ [])
    → first (ws ++ c ∷ []) none ≡ some head
    → CreateFails fresh i head c (v ∷ vs) h (ws ++ c ∷ [])
unfolding create_loop list_new_node
fails_at_once fresh i head ws c v vs h e l u n start =
    let h' : Heap = update h c.addr (some (node c.value none)) in
    let away = λ (x : Cell). c.addr ≢ x.addr in
    let l' = Linked-end h ws c none none (Apart-last ws c u) l in
    let (g, run, gone, same) = list_free_lem (i + 1) (ws ++ c ∷ []) h' (omega (arith, n)) l' u in
    let freed = ap (λ p. list_free (i + 1) p h') (sym start) ∙ run in
    (
      g,
      rw (
        e,
        list_new_node,
        set_next_lem c.addr h (Linked-right h ws (c ∷ []) none l).0 none,
        freed,
      ),
      gone,
      λ a p.
          same a p
          ∙ update-ne h c.addr a _ (λ q. (All-right (λ x. a ≢ x.addr) ws (c ∷ []) p).0 (sym q)),
    )

extended-Linked :
    (h : Heap) (ws : List Cell) (c x : Cell)
    → Linked h (ws ++ c ∷ []) none
    → Apart c.addr ws
    → Apart x.addr (ws ++ c ∷ [])
    → c.addr ≢ x.addr
    → Linked (extended h c x) ((ws ++ c ∷ []) ++ x ∷ []) none
extended-Linked h ws c x l pc px ne =
    let h' : Heap = update h x.addr (some (node x.value none)) in
    Linked-append (extended h c x) (ws ++ c ∷ []) (x ∷ []) none
      (Linked-end h' ws c none (some x.addr) pc (Linked-update h x.addr _ (ws ++ c ∷ []) none px l))
      (extended-new h c x ne, tt)

-- The head stays the same when a node is added behind the others.
head_kept :
    (ws : List Cell) (c x : Cell)
    → first ((ws ++ c ∷ []) ++ x ∷ []) none ≡ first (ws ++ c ∷ []) none
head_kept ws c x =
    first-append (ws ++ c ∷ []) (x ∷ []) none
    ∙ first-append ws (c ∷ []) (some x.addr)
    ∙ sym (first-append ws (c ∷ []) none)

create_loop_fails :
    (fresh : ℕ → Option ℕ) (i head : ℕ) (ws : List Cell) (c : Cell) (xs : List Cell) (v : ℤ)
    (vs : List ℤ) (h : Heap)
    → Allocates fresh i xs
    → fresh (i + length xs) ≡ none
    → Linked h (ws ++ c ∷ []) none
    → Unshared (ws ++ c ∷ xs)
    → i ≡ length (ws ++ c ∷ [])
    → first (ws ++ c ∷ []) none ≡ some head
    → CreateFails fresh i head c (values xs ++ v ∷ vs) h (ws ++ c ∷ xs)
create_loop_fails fresh i head ws c [] v vs h al e l u n start =
    fails_at_once fresh i head ws c v vs h (ap fresh (omega arith) ∙ e) l u n start
create_loop_fails fresh i head ws c (x ∷ xs) v vs h al e l u n start =
    let ws' = ws ++ c ∷ [] in
    let again = append_assoc ws (c ∷ []) (x ∷ xs) in
    let u' : Unshared (ws' ++ x ∷ xs) = subst Unshared (sym again) u in
    let px = (Separate-sym ws' (x ∷ xs) (Unshared-Separate ws' (x ∷ xs) u')).0 in
    let ne : c.addr ≢ x.addr = λ q. (All-right (λ d. x.addr ≢ d.addr) ws (c ∷ []) px).0 (sym q) in
    let (g, run, gone, same) =
      create_loop_fails fresh (i + 1) head ws' x xs v vs (extended h c x) al.1
        (ap fresh (omega arith) ∙ e)
        (extended-Linked h ws c x l (Apart-last ws c (Unshared-left ws' (x ∷ xs) u')) px ne) u'
        (omega (arith, n, length-append ws' (x ∷ []))) (head_kept ws c x ∙ start) in
    (
      g,
      create_step fresh i head c x h (values xs ++ v ∷ vs) al.0 ne
            (Linked-right h ws (c ∷ []) none l).0
          ∙ run,
      subst (All (λ d. g d.addr ≡ none)) again gone,
      λ a p.
          let p' : Apart a (ws' ++ x ∷ xs) = subst (Apart a) (sym again) p in
          same a p'
          ∙ extended-outside h c x ne a
              (All-right (λ d. a ≢ d.addr) ws (c ∷ [])
                (All-left (λ d. a ≢ d.addr) ws' (x ∷ xs) p')).0
              (All-right (λ d. a ≢ d.addr) ws' (x ∷ xs) p').0,
    )

-- The addresses held nothing.
abbrev pub AreFree : Heap → List Cell → Type 0
AreFree h = All (λ x. h x.addr ≡ none)

restored :
    (h g : Heap) (xs : List Cell)
    → AreFree h xs
    → AreFree g xs
    → SameOutside xs h g
    → (a : ℕ) → g a ≡ h a
restored h g xs free gone same a = elim (here xs free gone) [ inl eq ↦ eq | inr out ↦ same a out ]
  where
    here : (ys : List Cell) → AreFree h ys → AreFree g ys → (g a ≡ h a) ⊎ Apart a ys
    here [] f e = inr tt
    here (y ∷ ys) f e = elim (eq_cases a y.addr) [
      | inl q ↦ inl (ap g q ∙ e.0 ∙ sym f.0 ∙ ap h (sym q))
      | inr ne ↦ elim (here ys f.1 e.1) [ inl r ↦ inl r | inr out ↦ inr (ne, out) ]
    ]

-- Where malloc returns distinct addresses that held nothing and then, before the list is complete,
-- NULL, the result is NULL and the heap is as it was: all that had been allocated has been freed.
pub list_create-fails :
    (fresh : ℕ → Option ℕ) (xs : List Cell) (v : ℤ) (vs : List ℤ) (h : Heap)
    → Allocates fresh 0 xs
    → fresh (length xs) ≡ none
    → Unshared xs
    → AreFree h xs
    → (g : Heap) × (list_create fresh (values xs ++ v ∷ vs) h ≡ some (none, g))
      × ((a : ℕ) → g a ≡ h a)
unfolding list_create list_new_node
list_create-fails fresh [] v vs h al e u free = (h, rw (e, list_new_node), λ a. refl)
list_create-fails fresh (x ∷ xs) v vs h al e u free =
    let h' : Heap = update h x.addr (some (node x.value none)) in
    let (g, run, gone, same) =
      create_loop_fails fresh 1 x.addr [] x xs v vs h' al.1 (ap fresh (omega arith) ∙ e)
        (update_self h x.addr _, tt) u (omega arith) refl in
    (
      g,
      rw (al.0, list_new_node) run,
      restored h g (x ∷ xs) free gone (λ a p. same a p ∙ update-ne h x.addr a _ (λ q. p.0 (sym q))),
    )
