-- ===== src/Djlc/LinkedList/Cells.antt =====
-- What a list of djlc/include/linked_list.h stands for: the address and the value of each node.
use djiang_oss_public.Prelude.{
  ℕ, ◌≡◌, ◌≢◌, refl, sym, ap, ◌∙◌, Option, none, some, List, [], ◌∷◌, ◌++◌, update, update-ne,
  update_self, All, All-append, All-left, All-right, All-map,
}
use djiang_oss_public.Prelude.Int.{ℤ}
use djiang_oss_public.Djlc.LinkedList.{Node, node, Heap, M, and_then, load, set_next, release}

pub record Cell : Type 0 where
  pub addr : ℕ
  pub value : ℤ

-- The pointer to the first of the nodes; a pointer `e` follows the last one.
abbrev pub first : List Cell → Option ℕ → Option ℕ
first [] e = e
first (x ∷ xs) e = some x.addr

-- Each node stands at its address and points at the next.
abbrev pub Linked : Heap → List Cell → Option ℕ → Type 0
Linked h [] e = Unit {0}
Linked h (x ∷ xs) e = (h x.addr ≡ some (node x.value (first xs e))) × Linked h xs e

-- The address is none of the nodes'.
abbrev pub Apart : ℕ → List Cell → Type 0
Apart a = All (λ x. a ≢ x.addr)

-- No two nodes of one list, or of two, are at the same address.
abbrev pub Unshared : List Cell → Type 0
Unshared [] = Unit {0}
Unshared (x ∷ xs) = Apart x.addr xs × Unshared xs

abbrev pub Separate : List Cell → List Cell → Type 0
Separate xs ys = All (λ x. Apart x.addr ys) xs

-- The heaps agree at the addresses that are none of the nodes'.
abbrev pub SameOutside : List Cell → Heap → Heap → Type 0
SameOutside xs h g = (a : ℕ) → Apart a xs → g a ≡ h a

pub first-append : (xs ys : List Cell) (e : Option ℕ) → first (xs ++ ys) e ≡ first xs (first ys e)
first-append [] ys e = refl
first-append (x ∷ xs) ys e = refl

pub Linked-left :
    (h : Heap) (xs ys : List Cell) (e : Option ℕ) → Linked h (xs ++ ys) e → Linked h xs (first ys e)
Linked-left h [] ys e l = tt
Linked-left h (x ∷ xs) ys e l = (rw (← first-append xs ys e) l.0, Linked-left h xs ys e l.1)

pub Linked-right :
    (h : Heap) (xs ys : List Cell) (e : Option ℕ) → Linked h (xs ++ ys) e → Linked h ys e
Linked-right h [] ys e l = l
Linked-right h (x ∷ xs) ys e l = Linked-right h xs ys e l.1

pub Linked-append :
    (h : Heap) (xs ys : List Cell) (e : Option ℕ)
    → Linked h xs (first ys e)
    → Linked h ys e
    → Linked h (xs ++ ys) e
Linked-append h [] ys e l m = m
Linked-append h (x ∷ xs) ys e l m = (rw (first-append xs ys e) l.0, Linked-append h xs ys e l.1 m)

-- A write elsewhere leaves a list alone.
pub Linked-update :
    (h : Heap) (a : ℕ) (v : Option Node) (xs : List Cell) (e : Option ℕ)
    → Apart a xs
    → Linked h xs e
    → Linked (update h a v) xs e
Linked-update h a v [] e p l = tt
Linked-update h a v (x ∷ xs) e p l =
    (update-ne h a x.addr v p.0 ∙ l.0, Linked-update h a v xs e p.1 l.1)

pub Linked-outside :
    (h g : Heap) (ws xs : List Cell) (e : Option ℕ)
    → SameOutside ws h g
    → Separate xs ws
    → Linked h xs e
    → Linked g xs e
Linked-outside h g ws [] e same s l = tt
Linked-outside h g ws (x ∷ xs) e same s l =
    (same x.addr s.0 ∙ l.0, Linked-outside h g ws xs e same s.1 l.1)

-- The last node of a list is made to point elsewhere.
pub Linked-end :
    (h : Heap) (xs : List Cell) (x : Cell) (e f : Option ℕ)
    → Apart x.addr xs
    → Linked h (xs ++ x ∷ []) e
    → Linked (update h x.addr (some (node x.value f))) (xs ++ x ∷ []) f
Linked-end h xs x e f p l =
    let g : Heap = update h x.addr (some (node x.value f)) in
    Linked-append g xs (x ∷ []) f
      (Linked-update h x.addr _ xs (some x.addr) p (Linked-left h xs (x ∷ []) e l))
      (update_self h x.addr _, tt)

-- The addresses of a list are separate from others': in both directions, and part by part.
pub Separate-sym : (xs ys : List Cell) → Separate xs ys → Separate ys xs
Separate-sym [] ys s = nothing ys
  where
    nothing : (zs : List Cell) → Separate zs []
    nothing [] = tt
    nothing (z ∷ zs) = (tt, nothing zs)
Separate-sym (x ∷ xs) ys s = added ys s.0 (Separate-sym xs ys s.1)
  where
    added : (zs : List Cell) → Apart x.addr zs → Separate zs xs → Separate zs (x ∷ xs)
    added [] n t = tt
    added (z ∷ zs) n t = (((λ e. n.0 (sym e)), t.0), added zs n.1 t.1)

Separate-append : (xs ys zs : List Cell) → Separate xs ys → Separate xs zs → Separate xs (ys ++ zs)
Separate-append [] ys zs s t = tt
Separate-append (x ∷ xs) ys zs s t =
    (All-append (λ z. x.addr ≢ z.addr) ys zs s.0 t.0, Separate-append xs ys zs s.1 t.1)

Separate-left : (xs ys zs : List Cell) → Separate xs (ys ++ zs) → Separate xs ys
Separate-left xs ys zs s = All-map (λ x p. All-left (λ z. x.addr ≢ z.addr) ys zs p) xs s

Separate-right : (xs ys zs : List Cell) → Separate xs (ys ++ zs) → Separate xs zs
Separate-right xs ys zs s = All-map (λ x p. All-right (λ z. x.addr ≢ z.addr) ys zs p) xs s

pub Unshared-left : (xs ys : List Cell) → Unshared (xs ++ ys) → Unshared xs
Unshared-left [] ys u = tt
Unshared-left (x ∷ xs) ys u = (All-left (λ z. x.addr ≢ z.addr) xs ys u.0, Unshared-left xs ys u.1)

pub Unshared-right : (xs ys : List Cell) → Unshared (xs ++ ys) → Unshared ys
Unshared-right [] ys u = u
Unshared-right (x ∷ xs) ys u = Unshared-right xs ys u.1

pub Unshared-Separate : (xs ys : List Cell) → Unshared (xs ++ ys) → Separate xs ys
Unshared-Separate [] ys u = tt
Unshared-Separate (x ∷ xs) ys u =
    (All-right (λ z. x.addr ≢ z.addr) xs ys u.0, Unshared-Separate xs ys u.1)

Unshared-append :
    (xs ys : List Cell) → Unshared xs → Unshared ys → Separate xs ys → Unshared (xs ++ ys)
Unshared-append [] ys u v s = v
Unshared-append (x ∷ xs) ys u v s =
    (All-append (λ z. x.addr ≢ z.addr) xs ys u.0 s.0, Unshared-append xs ys u.1 v s.1)

-- A command that ends hands its result and its heap to the rest.
and_then-some :
    {A B : Type 0} {m : Option (A × Heap)} {a : A} {g : Heap} (f : A → M B) {r : Option (B × Heap)}
    → m ≡ some (a, g)
    → f a g ≡ r
    → and_then m f ≡ r
and_then-some f e t = ap (λ o. and_then o f) e ∙ t

module _ (p : ℕ) (h : Heap) {n : Node} (e : h p ≡ some n) where
  pub load_lem : load p h ≡ some (n, h)
  unfolding load
  load_lem = rw (e, load)

  pub set_next_lem : (q : Option ℕ) → set_next p q h ≡ some (tt, update h p (some (node n.value q)))
  unfolding set_next
  set_next_lem q = rw (e, set_next)

  pub release_lem : release p h ≡ some (tt, update h p none)
  unfolding release
  release_lem = rw (e, release)
