-- ===== src/Djlc/UnionFind/Find.antt =====
-- Finding a root, with path compression.
use djiang_oss_public.Prelude.{
  ℕ, zero, suc, ◌<◌, ◌≡◌, ◌≢◌, refl, sym, subst, ◌∙◌, inl, inr, arith, ==_ne, eq_cases, update,
  update_self, update-ne, some, lt→ltb,
}
use djiang_oss_public.Djlc.UnionFind.{UnionFind, compress, uf_find}
use djiang_oss_public.Djlc.UnionFind.Forest.{
  IsForest, Root, here, up, Root-Root, Root-unique, Root-inside, Root-above, above, above-parent,
  above-lt-size,
}

-- The structure `uf'` has the same roots, ranks and counts as `uf`.
pub record SameRoots (uf uf' : UnionFind) : Type 0 where
  pub roots : {x r : ℕ} → Root uf.parent x r → Root uf'.parent x r
  pub ranks : uf'.rank ≡ uf.rank
  pub size : uf'.size ≡ uf.size
  pub components : uf'.components ≡ uf.components

SameRoots-refl : (uf : UnionFind) → SameRoots uf uf
SameRoots-refl uf = record { roots = λ c. c; ranks = refl; size = refl; components = refl }

pub SameRoots-trans : {a b c : UnionFind} → SameRoots a b → SameRoots b c → SameRoots a c
SameRoots-trans f g = record {
  roots = λ c. g.roots (f.roots c);
  ranks = g.ranks ∙ f.ranks;
  size = g.size ∙ f.size;
  components = g.components ∙ f.components;
}

-- Compression: an element that is not a root is hung below its root.
module _ {parent : ℕ → ℕ} {x r : ℕ} (ne : parent x ≢ x) (c : Root parent x r) where
  root_differs : x ≢ r
  root_differs e = ne (subst (λ y. parent y ≡ y) (sym e) (Root-Root c))

  compressed-Root : Root (update parent x r) r r
  compressed-Root = here (update-ne parent x r r root_differs ∙ Root-Root c)

  compressed : Root (update parent x r) x r
  compressed =
      let at : update parent x r x ≡ r = update_self parent x r in
      up (λ e. root_differs (sym e ∙ at))
        (subst (λ y. Root (update parent x r) y r) (sym at) compressed-Root)

  pub compressed_roots : {y s : ℕ} → Root parent y s → Root (update parent x r) y s
  compressed_roots (here {x = y} e) =
      here (update-ne parent x y r (λ q. ne (subst (λ z. parent z ≡ z) (sym q) e)) ∙ e)
  compressed_roots (up {x = y} {r = s} ne' d) = elim (eq_cases x y) [
    | inl q ↦
        let last : r ≡ s = Root-unique (subst (λ z. Root parent z r) q c) (up ne' d) in
        subst (λ t. Root (update parent x r) y t) last
          (subst (λ z. Root (update parent x r) z r) q compressed)
    | inr n ↦
        let at : update parent x r y ≡ parent y = update-ne parent x y r n in
        up (λ e. ne' (sym at ∙ e))
          (subst (λ z. Root (update parent x r) z s) (sym at) (compressed_roots d))
  ]

module _ (uf : UnionFind) (x r : ℕ) (v : IsForest uf) (lt : x < uf.size) (ne : uf.parent x ≢ x)
    (c : Root uf.parent x r) where
  compress-IsForest : IsForest (compress x r uf).1
  unfolding compress
  compress-IsForest = record {
    inside = λ y lt'. ground (arith, Root-inside v c lt, v.inside y lt');
    climbs = λ y lt' ne'. ground (arith, Root-above v c lt ne, v.climbs y lt');
  }

  compress-SameRoots : SameRoots uf (compress x r uf).1
  unfolding compress
  compress-SameRoots = record {
    roots = λ d. compressed_roots ne c d;
    ranks = refl;
    size = refl;
    components = refl;
  }

  compress_result : (compress x r uf).0 ≡ r
  unfolding compress
  compress_result = update_self uf.parent x r

-- What finding the root of `x` brings about.
abbrev pub Found : ℕ → UnionFind → ℕ → Type 0
Found fuel uf x =
    (r : ℕ) × (uf' : UnionFind) × (uf_find fuel uf x ≡ some (r, uf'))
    × Root uf.parent x r
    × IsForest uf'
    × SameRoots uf uf'

find_at_root :
    (fuel : ℕ) (uf : UnionFind) (x : ℕ)
    → IsForest uf
    → x < uf.size
    → uf.parent x ≡ x
    → Found (suc fuel) uf x
unfolding uf_find
find_at_root fuel uf x v lt e =
    (uf.parent x, uf, ground arith, subst (Root uf.parent x) (sym e) (here e), v, SameRoots-refl uf)

find_climbs :
    (fuel : ℕ) (uf : UnionFind) (x : ℕ)
    → IsForest uf
    → x < uf.size
    → uf.parent x ≢ x
    → Found fuel uf (uf.parent x)
    → Found (suc fuel) uf x
unfolding uf_find
find_climbs fuel uf x v lt ne (r, uf', e, c, v', same) =
    let whole = up ne c in
    let root' = same.roots whole in
    let ne' : uf'.parent x ≢ x = λ q. root_differs ne whole (Root-unique (here q) root') in
    let lt' : x < uf'.size = omega (arith, same.size) in
    (
      r,
      (compress x r uf').1,
      rw (lt→ltb x uf.size lt, ==_ne (uf.parent x) x ne, e)
          (λ i. some (compress_result uf' x r v' lt' ne' root' i, (compress x r uf').1)),
      whole,
      compress-IsForest uf' x r v' lt' ne' root',
      SameRoots-trans same (compress-SameRoots uf' x r v' lt' ne' root'),
    )

uf_find-total :
    (fuel : ℕ) (uf : UnionFind) (x : ℕ)
    → IsForest uf
    → x < uf.size
    → above uf x < fuel
    → Found fuel uf x
uf_find-total zero uf x v lt f = absurd (omega arith)
uf_find-total (suc fuel) uf x v lt f = elim (eq_cases (uf.parent x) x) [
  | inl e ↦ find_at_root fuel uf x v lt e
  | inr ne ↦ find_climbs fuel uf x v lt ne (
      uf_find-total fuel uf (uf.parent x) v (v.inside x lt)
        (omega (arith, above-parent uf x v lt ne)))
]

-- Given as many rounds of fuel as there are elements, finding an element of a well-formed structure
-- ends, returns the root of its tree, and leaves a well-formed structure in which every element has
-- the root it had, and the ranks, the size and the number of sets are the same.
pub uf_find_lem : (uf : UnionFind) (x : ℕ) → IsForest uf → x < uf.size → Found uf.size uf x
uf_find_lem uf x v lt = uf_find-total uf.size uf x v lt (above-lt-size uf x lt)
