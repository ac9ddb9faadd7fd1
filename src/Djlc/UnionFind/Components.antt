-- ===== src/Djlc/UnionFind/Components.antt =====
-- The use that djlc/include/union_find.h names first: uniting the ends of every edge of a graph
-- finds its connected components.
use djiang_oss_public.Prelude.{
  ℕ, ◌<◌, ◌≡◌, ◌≢◌, ◌↔◌, refl, sym, ap, subst, ◌∙◌, ◌⊎◌, inl, inr, List, [], ◌∷◌, arith, eq_cases,
  Option, some, ◌>>=◌, All, Bool, true,
}
use mathlib.Core.List.{reverse_aux}
use djiang_oss_public.Djlc.UnionFind.{UnionFind, uf_union, uf_init, uf_count, uf_connected}
use djiang_oss_public.Djlc.UnionFind.Forest.{IsForest, Root, Root-unique}
use djiang_oss_public.Djlc.UnionFind.Find.{uf_find_lem}
use djiang_oss_public.Djlc.UnionFind.Partition.{IsPartition, joined, root_count}
use djiang_oss_public.Djlc.UnionFind.Union.{IsUnited, uf_union_lem, uf_connected_lem}
use djiang_oss_public.Djlc.UnionFind.Init.{uf_init_lem}

abbrev pub Edge : Type 0
Edge = ℕ × ℕ

-- An edge from `x` to `y` is in the list.
pub data Among (x y : ℕ) : List Edge → Type 0 where
  first : {d : Edge} {es : List Edge} → d.0 ≡ x → d.1 ≡ y → Among x y (d ∷ es)
  later : {d : Edge} {es : List Edge} → Among x y es → Among x y (d ∷ es)

-- A path of edges, in either direction, leads from one vertex below `n` to another.
pub data Connected (n : ℕ) (es : List Edge) : ℕ → ℕ → Type 0 where
  itself : {x : ℕ} → x < n → Connected n es x x
  edge : {x y : ℕ} → Among x y es → Connected n es x y
  back : {x y : ℕ} → Connected n es x y → Connected n es y x
  along : {x y z : ℕ} → Connected n es x y → Connected n es y z → Connected n es x z

-- Both ends of each edge are vertices.
abbrev pub AreEdges : ℕ → List Edge → Type 0
AreEdges n = All (λ e. (e.0 < n) × (e.1 < n))

Connected-later :
    {n : ℕ} {d : Edge} {es : List Edge} {x y : ℕ} → Connected n es x y → Connected n (d ∷ es) x y
Connected-later (itself lt) = itself lt
Connected-later (edge m) = edge (later m)
Connected-later (back c) = back (Connected-later c)
Connected-later (along c d) = along (Connected-later c) (Connected-later d)

abbrev pub SameRoot : UnionFind → ℕ → ℕ → Type 0
SameRoot uf x y = (r : ℕ) × Root uf.parent x r × Root uf.parent y r

-- The sets of the `n` vertices are the components of the graph with these edges.
pub record Represents (n : ℕ) (uf : UnionFind) (es : List Edge) : Type 0 where
  pub partition : IsPartition uf
  pub size : uf.size ≡ n
  pub sound : (x y : ℕ) → x < n → y < n → SameRoot uf x y → Connected n es x y
  pub complete : {x y : ℕ} → Connected n es x y → SameRoot uf x y

top_of :
    (n : ℕ) (uf : UnionFind) (x : ℕ)
    → IsForest uf
    → uf.size ≡ n
    → x < n
    → (r : ℕ) × Root uf.parent x r
top_of n uf x v e lt = let (r, _, _, c, _, _) = uf_find_lem uf x v (omega (arith, e)) in (r, c)

one_of : (r s p : ℕ) → ((p ≡ r) ⊎ (p ≡ s)) ⊎ ((p ≢ r) × (p ≢ s))
one_of r s p = elim (eq_cases p r) [
  | inl e ↦ inl (inl e)
  | inr ne ↦ elim (eq_cases p s) [ inl e ↦ inl (inr e) | inr ne' ↦ inr (ne, ne') ]
]

-- Roots that have become one were the two united, or the same already.
meet :
    (r s w : ℕ)
    → (w ≡ r) ⊎ (w ≡ s)
    → (p q : ℕ) → joined r s w p ≡ joined r s w q
    → (((p ≡ r) ⊎ (p ≡ s)) × ((q ≡ r) ⊎ (q ≡ s))) ⊎ (p ≡ q)
meet r s w won p q e = elim (one_of r s p) [
  | inl i ↦ elim (one_of r s q) [ inl j ↦ inl (i, j) | inr out ↦ absurd (ground arith) ]
  | inr out ↦ elim (one_of r s q) [ inl j ↦ absurd (ground arith) | inr out' ↦ inr (ground arith) ]
]

module _ (n : ℕ) (uf : UnionFind) (es : List Edge) (v : Represents n uf es) (x y r s w : ℕ)
    (uf' : UnionFind) (u : IsUnited uf x y r s w uf') (lx : x < n) (ly : y < n) where
  -- An element whose root was one of the two is connected with `x` by the edges and the new one.
  near : (a t : ℕ) → a < n → Root uf.parent a t → (t ≡ r) ⊎ (t ≡ s) → Connected n ((x, y) ∷ es) a x
  near a t lt c (inl e) =
      Connected-later (v.sound a x lt lx (r, subst (Root uf.parent a) e c, u.root_x))
  near a t lt c (inr e) =
      along (Connected-later (v.sound a y lt ly (s, subst (Root uf.parent a) e c, u.root_y)))
        (back (edge (first refl refl)))

  still_sound : (a b : ℕ) → a < n → b < n → SameRoot uf' a b → Connected n ((x, y) ∷ es) a b
  still_sound a b la lb (t, ca, cb) =
      let (p, da) = top_of n uf a v.partition.forest v.size la in
      let (q, db) = top_of n uf b v.partition.forest v.size lb in
      let ends : joined r s w p ≡ joined r s w q =
        Root-unique (u.roots a p da) ca ∙ sym (Root-unique (u.roots b q db) cb) in
      elim (meet r s w u.winner p q ends) [
        | inl (i, j) ↦ along (near a p la da i) (back (near b q lb db j))
        | inr e ↦ Connected-later (v.sound a b la lb (p, da, subst (Root uf.parent b) (sym e) db))
      ]

  still_complete : {a b : ℕ} → Connected n ((x, y) ∷ es) a b → SameRoot uf' a b
  still_complete (itself {x = a} lt) =
      let (p, c) = top_of n uf' a u.partition.forest (u.size ∙ v.size) lt in (p, c, c)
  still_complete (edge (first ex ey)) = (
    w,
    subst (λ z. Root uf'.parent z w) ex
        (subst (Root uf'.parent x) (ground arith) (u.roots x r u.root_x)),
    subst (λ z. Root uf'.parent z w) ey
        (subst (Root uf'.parent y) (ground arith) (u.roots y s u.root_y)),
  )
  still_complete (edge {x = a} {y = b} (later m)) =
      let (p, c, d) = v.complete (edge m) in (joined r s w p, u.roots a p c, u.roots b p d)
  still_complete (back c) = let (p, d, e) = still_complete c in (p, e, d)
  still_complete (along {z = z} c d) =
      let (p, c1, c2) = still_complete c in
      let (q, d1, d2) = still_complete d in
      (p, c1, subst (Root uf'.parent z) (Root-unique d1 c2) d2)

  union-Represents : Represents n uf' ((x, y) ∷ es)
  union-Represents = record {
    partition = u.partition;
    size = u.size ∙ v.size;
    sound = still_sound;
    complete = still_complete;
  }

-- for each edge (u, v): djlc_uf_union(&uf, u, v);
unfoldable pub unite_all : List Edge → UnionFind → Option UnionFind
unite_all [] uf = some uf
unite_all ((x, y) ∷ es) uf = uf_union uf.size uf x y >>= λ (b, uf'). unite_all es uf'

unite_all-Represents :
    (n : ℕ) (es ds : List Edge) (uf : UnionFind)
    → AreEdges n es
    → Represents n uf ds
    → (uf' : UnionFind) × (unite_all es uf ≡ some uf') × Represents n uf' (reverse_aux es ds)
unfolding unite_all
unite_all-Represents n [] ds uf a v = (uf, refl, v)
unite_all-Represents n ((x, y) ∷ es) ds uf a v =
    let (r, s, w, uf1, e, u) =
      uf_union_lem uf x y v.partition (omega (arith, a.0.0, v.size))
        (omega (arith, a.0.1, v.size)) in
    let (uf', e', v') =
      unite_all-Represents n es ((x, y) ∷ ds) uf1 a.1
        (union-Represents n uf ds v x y r s w uf1 u a.0.0 a.0.1) in
    (uf', rw e e', v')

fresh-Represents :
    (n : ℕ) (uf : UnionFind)
    → IsPartition uf
    → uf.size ≡ n
    → ((x : ℕ) → x < n → Root uf.parent x x)
    → Represents n uf []
fresh-Represents n uf p e alone = record {
  partition = p;
  size = e;
  sound = λ x y lx ly (r, c, d).
      subst (Connected n [] x) (Root-unique (alone x lx) c ∙ sym (Root-unique (alone y ly) d))
        (itself lx);
  complete = nothing_else;
}
  where
    nothing_else : {x y : ℕ} → Connected n [] x y → SameRoot uf x y
    nothing_else (itself {x} lt) = (x, alone x lt, alone x lt)
    nothing_else (edge m) = elim m [ ]
    nothing_else (back c) = let (q, a, b) = nothing_else c in (q, b, a)
    nothing_else (along {z} c d) =
        let (q, a, b) = nothing_else c in
        let (q', a', b') = nothing_else d in (q, a, subst (Root uf.parent z) (Root-unique a' b) b')

-- The order of the edges does not matter.
Among-reverse_aux :
    (x y : ℕ) (es ds : List Edge) → Among x y (reverse_aux es ds) → Among x y es ⊎ Among x y ds
Among-reverse_aux x y [] ds m = inr m
Among-reverse_aux x y (e ∷ es) ds m = elim (Among-reverse_aux x y es (e ∷ ds) m) [
  | inl i ↦ inl (later i)
  | inr (first p q) ↦ inl (first p q)
  | inr (later i) ↦ inr i
]

reverse_aux-Among :
    (x y : ℕ) (es ds : List Edge) → Among x y es ⊎ Among x y ds → Among x y (reverse_aux es ds)
reverse_aux-Among x y [] ds (inl m) = elim m [ ]
reverse_aux-Among x y [] ds (inr m) = m
reverse_aux-Among x y (e ∷ es) ds (inl (first p q)) =
    reverse_aux-Among x y es (e ∷ ds) (inr (first p q))
reverse_aux-Among x y (e ∷ es) ds (inl (later m)) = reverse_aux-Among x y es (e ∷ ds) (inl m)
reverse_aux-Among x y (e ∷ es) ds (inr m) = reverse_aux-Among x y es (e ∷ ds) (inr (later m))

Connected-edges :
    {n : ℕ} {es ds : List Edge} (f : (x y : ℕ) → Among x y es → Among x y ds) {x y : ℕ}
    → Connected n es x y
    → Connected n ds x y
Connected-edges f (itself lt) = itself lt
Connected-edges f (edge m) = edge (f _ _ m)
Connected-edges f (back c) = back (Connected-edges f c)
Connected-edges f (along c d) = along (Connected-edges f c) (Connected-edges f d)

Represents-reverse :
    (n : ℕ) (uf : UnionFind) (es : List Edge)
    → Represents n uf (reverse_aux es [])
    → Represents n uf es
Represents-reverse n uf es v = record {
  partition = v.partition;
  size = v.size;
  sound = λ x y lx ly c.
      Connected-edges
        (λ a b m. elim (Among-reverse_aux a b es [] m) [ inl i ↦ i | inr i ↦ elim i [ ] ])
        (v.sound x y lx ly c);
  complete = λ c. v.complete (Connected-edges (λ a b m. reverse_aux-Among a b es [] (inl m)) c);
}

-- Initialise a structure of n elements and unite the ends of every edge of a graph on them: all
-- calls end, the count of sets is the number of elements that are their own parents, and two
-- vertices are then found to be connected exactly when a path of edges, in either direction, leads
-- from one to the other.
pub components_lem :
    (n : ℕ) (es : List Edge) (memory1 memory2 : ℕ → ℕ) (uf : UnionFind) (a b : ℕ)
    → AreEdges n es
    → a < n
    → b < n
    → (uf1 : UnionFind) × (uf2 : UnionFind) × (answer : Bool) × (unite_all es
          (uf_init true true memory1 memory2 n uf).1
        ≡ some uf1)
      × (uf_count uf1 ≡ root_count uf1)
      × (uf_connected uf1.size uf1 a b ≡ some (answer, uf2))
      × ((answer ≡ true) ↔ Connected n es a b)
unfolding uf_count
components_lem n es memory1 memory2 uf a b edges la lb =
    let (uf0, e0, fresh, _) = uf_init_lem true true memory1 memory2 n uf in
    let (p, size, _, alone) = fresh refl in
    let (uf1, e1, v1) =
      unite_all-Represents n es [] uf0 edges (fresh-Represents n uf0 p size alone) in
    let v = Represents-reverse n uf1 es v1 in
    let (answer, uf2, e2, iff, _, _) =
      uf_connected_lem uf1 a b v.partition.forest (omega (arith, la, v.size))
        (omega (arith, lb, v.size)) in
    (
      uf1,
      uf2,
      answer,
      ap (λ q. unite_all es q.1) e0 ∙ e1,
      v.partition.counted,
      e2,
      ((λ t. v.sound a b la lb (iff.0 t)), (λ c. iff.1 (v.complete c))),
    )
