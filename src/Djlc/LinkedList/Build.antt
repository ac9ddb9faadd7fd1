-- ===== src/Djlc/LinkedList/Build.antt =====
-- Building a list from an array: djlc_list_create.
use djiang_oss_public.Prelude.{
  ℕ, ◌+◌, ◌≡◌, ◌≢◌, refl, sym, ◌∙◌, Option, none, some, List, [], ◌∷◌, update, update-ne,
  update_self,
}
use djiang_oss_public.Prelude.Int.{ℤ}
use djiang_oss_public.Djlc.LinkedList.{node, Heap, list_new_node, create_loop, list_create}
use djiang_oss_public.Djlc.LinkedList.Cells.{
  Cell, first, Linked, Unshared, SameOutside, set_next_lem,
}
use djiang_oss_public.Djlc.LinkedList.Query.{values}

-- The calls of `malloc` from the i-th on return the addresses of the nodes.
abbrev pub Allocates : (ℕ → Option ℕ) → ℕ → List Cell → Type 0
Allocates fresh i [] = Unit {0}
Allocates fresh i (x ∷ xs) = (fresh i ≡ some x.addr) × Allocates fresh (i + 1) xs

-- The heap after a node `x` has been made and linked behind `c`.
abbrev pub extended : Heap → Cell → Cell → Heap
extended h c x =
    update (update h x.addr (some (node x.value none))) c.addr (some (node c.value (some x.addr)))

module _ (h : Heap) (c x : Cell) (ne : c.addr ≢ x.addr) where
  pub extended-new : extended h c x x.addr ≡ some (node x.value none)
  extended-new =
      update-ne (update h x.addr (some (node x.value none))) c.addr x.addr _ ne
      ∙ update_self h x.addr _

  pub extended-outside : (a : ℕ) → a ≢ c.addr → a ≢ x.addr → extended h c x a ≡ h a
  extended-outside a p q =
      update-ne (update h x.addr (some (node x.value none))) c.addr a _ (λ e. p (sym e))
      ∙ update-ne h x.addr a _ (λ e. q (sym e))

-- One round of the loop in which `malloc` succeeds.
pub create_step :
    (fresh : ℕ → Option ℕ) (i head : ℕ) (c x : Cell) (h : Heap) (vs : List ℤ)
    → fresh i ≡ some x.addr
    → c.addr ≢ x.addr
    → h c.addr ≡ some (node c.value none)
    → create_loop fresh i head c.addr (x.value ∷ vs) h
      ≡ create_loop fresh (i + 1) head x.addr vs (extended h c x)
unfolding create_loop list_new_node
create_step fresh i head c x h vs e ne at = rw (
  e,
  list_new_node,
  set_next_lem c.addr (update h x.addr (some (node x.value none)))
      (update-ne h x.addr c.addr _ (λ q. ne (sym q)) ∙ at) (some x.addr),
)

create_loop_lem :
    (fresh : ℕ → Option ℕ) (i head : ℕ) (c : Cell) (xs : List Cell) (h : Heap)
    → Allocates fresh i xs
    → Unshared (c ∷ xs)
    → h c.addr ≡ some (node c.value none)
    → (g : Heap) × (create_loop fresh i head c.addr (values xs) h ≡ some (some head, g))
      × Linked g (c ∷ xs) none
      × SameOutside (c ∷ xs) h g
unfolding create_loop
create_loop_lem fresh i head c [] h al u at = (h, refl, (at, tt), λ a p. refl)
create_loop_lem fresh i head c (x ∷ xs) h al u at =
    let (g, e, l, same) =
      create_loop_lem fresh (i + 1) head x xs (extended h c x) al.1 u.1
        (extended-new h c x u.0.0) in
    (
      g,
      create_step fresh i head c x h (values xs) al.0 u.0.0 at ∙ e,
      (same c.addr u.0 ∙ update_self (update h x.addr _) c.addr _, l),
      λ a p. same a p.1 ∙ extended-outside h c x u.0.0 a p.0 p.1.0,
    )

-- Where `malloc` succeeds each time and returns distinct addresses, the result is the list of the
-- array's values in order, in the new nodes, and no other address is written to.
list_create_lem :
    (fresh : ℕ → Option ℕ) (xs : List Cell) (h : Heap)
    → Allocates fresh 0 xs
    → Unshared xs
    → (g : Heap) × (list_create fresh (values xs) h ≡ some (first xs none, g))
      × Linked g xs none
      × SameOutside xs h g
unfolding list_create list_new_node create_loop
list_create_lem fresh [] h al u = (h, refl, tt, λ a p. refl)
list_create_lem fresh (x ∷ xs) h al u =
    let h' : Heap = update h x.addr (some (node x.value none)) in
    let (g, e, l, same) = create_loop_lem fresh 1 x.addr x xs h' al.1 u (update_self h x.addr _) in
    (g, rw (al.0, list_new_node) e, l, λ a p. same a p ∙ update-ne h x.addr a _ (λ q. p.0 (sym q)))
