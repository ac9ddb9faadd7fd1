-- ===== src/Djlc/UnionFind/Union.antt =====
-- Uniting two sets, and asking whether two elements are in one.
use djiang_oss_public.Prelude.{
  ℕ, ◌+◌, ◌<◌, ◌≡◌, ◌≢◌, ◌↔◌, refl, sym, subst, ◌∙◌, ◌⊎◌, inl, inr, arith, ◌==◌, if◌then◌else◌,
  ==_ne, ==_iff, eq_cases, Bool, true, not, some,
}
use djiang_oss_public.Djlc.UnionFind.{UnionFind, link, one_less, uf_find, uf_union, uf_connected}
use djiang_oss_public.Djlc.UnionFind.Forest.{IsForest, Root, Root-Root, Root-unique, Root-inside}
use djiang_oss_public.Djlc.UnionFind.Find.{SameRoots, SameRoots-trans, uf_find_lem}
use djiang_oss_public.Djlc.UnionFind.Partition.{
  IsPartition, SameRoots-IsPartition, joined, link_lem,
}

-- Finding two roots, one after the other.
record FoundBoth (uf : UnionFind) (x y r s : ℕ) (uf1 uf2 : UnionFind) : Type 0 where
  run_x : uf_find uf.size uf x ≡ some (r, uf1)
  run_y : uf_find uf.size uf1 y ≡ some (s, uf2)
  root_x : Root uf.parent x r
  root_y : Root uf.parent y s
  forest : IsForest uf2
  same : SameRoots uf uf2

find_both :
    (uf : UnionFind) (x y : ℕ)
    → IsForest uf
    → x < uf.size
    → y < uf.size
    → (r : ℕ) × (s : ℕ) × (uf1 : UnionFind) × (uf2 : UnionFind) × FoundBoth uf x y r s uf1 uf2
find_both uf x y v lx ly =
    let (r, uf1, e1, c1, v1, same1) = uf_find_lem uf x v lx in
    let (s, uf2, e2, c2, v2, same2) = uf_find_lem uf1 y v1 (omega (arith, same1.size)) in
    let (s', _, _, c', _, _) = uf_find_lem uf y v ly in
    (
      r,
      s,
      uf1,
      uf2,
      record {
        run_x = e1;
        run_y = subst (λ n. uf_find n uf1 y ≡ some (s, uf2)) same1.size e2;
        root_x = c1;
        root_y = subst (Root uf.parent y) (Root-unique (same1.roots c') c2) c';
        forest = v2;
        same = SameRoots-trans same1 same2;
      },
    )

-- `uf'` is `uf` after the sets of `x` and `y`, with the roots `r` and `s`, have become one with the
-- root `w`.
pub record IsUnited (uf : UnionFind) (x y r s w : ℕ) (uf' : UnionFind) : Type 0 where
  pub root_x : Root uf.parent x r
  pub root_y : Root uf.parent y s
  pub winner : (w ≡ r) ⊎ (w ≡ s)
  pub partition : IsPartition uf'
  pub roots : (z t : ℕ) → Root uf.parent z t → Root uf'.parent z (joined r s w t)
  pub fewer : uf'.components + (if r == s then 0 else 1) ≡ uf.components
  pub size : uf'.size ≡ uf.size

union_same :
    (uf : UnionFind) (x y r s : ℕ) (uf1 uf2 : UnionFind)
    → IsPartition uf
    → FoundBoth uf x y r s uf1 uf2
    → r ≡ s
    → IsUnited uf x y r s r uf2
union_same uf x y r s uf1 uf2 p f eq = record {
  root_x = f.root_x;
  root_y = f.root_y;
  winner = inl refl;
  partition = SameRoots-IsPartition p f.forest f.same;
  roots = λ z t c. subst (Root uf2.parent z) (ground arith) (f.same.roots c);
  fewer = ground (arith, f.same.components);
  size = f.same.size;
}

union_other :
    (uf : UnionFind) (x y r s : ℕ) (uf1 uf2 : UnionFind)
    → IsPartition uf
    → x < uf.size
    → y < uf.size
    → FoundBoth uf x y r s uf1 uf2
    → r ≢ s
    → (w : ℕ) × IsUnited uf x y r s w (one_less (link r s uf2))
unfolding one_less
union_other uf x y r s uf1 uf2 p lx ly f ne =
    let lr = Root-inside p.forest f.root_x lx in
    let ls = Root-inside p.forest f.root_y ly in
    let p2 = SameRoots-IsPartition p f.forest f.same in
    let (w, won, v, moved, fewer, size, comps) =
      link_lem uf2 r s f.forest (omega (arith, lr, f.same.size)) (omega (arith, ls, f.same.size))
        (Root-Root (f.same.roots f.root_x)) (Root-Root (f.same.roots f.root_y)) ne in
    (
      w,
      record {
        root_x = f.root_x;
        root_y = f.root_y;
        winner = won;
        partition = record {
          forest = record { inside = v.inside; climbs = v.climbs };
          counted = omega (arith, comps, p2.counted, fewer);
        };
        roots = λ z t c. moved z t (f.same.roots c);
        fewer = rw (==_ne r s ne) (omega (arith, comps, p2.counted, fewer, f.same.components));
        size = size ∙ f.same.size;
      },
    )

-- On a well-formed structure whose count of sets is right, uniting two elements ends given as many
-- rounds of fuel as there are elements; it returns whether their roots `r` and `s` differ; after it
-- both roots have become one of the two, every element whose root was another keeps it, the count of
-- sets is one less exactly if the roots differed, and the structure is again well-formed with the
-- right count.
pub uf_union_lem :
    (uf : UnionFind) (x y : ℕ)
    → IsPartition uf
    → x < uf.size
    → y < uf.size
    → (r : ℕ) × (s : ℕ) × (w : ℕ) × (uf' : UnionFind) × (uf_union uf.size uf x y
        ≡ some (not (r == s), uf'))
      × IsUnited uf x y r s w uf'
unfolding uf_union
uf_union_lem uf x y p lx ly =
    let (r, s, uf1, uf2, f) = find_both uf x y p.forest lx ly in
    elim (eq_cases r s) [
      | inl eq ↦ (
        r,
        s,
        r,
        uf2,
        rw (f.run_x, f.run_y, (==_iff r s).1 eq),
        union_same uf x y r s uf1 uf2 p f eq,
      )
      | inr ne ↦
          let (w, u) = union_other uf x y r s uf1 uf2 p lx ly f ne in
          (r, s, w, one_less (link r s uf2), rw (f.run_x, f.run_y, ==_ne r s ne), u)
    ]

-- Asking whether two elements of a well-formed structure are connected ends given as many rounds of
-- fuel as there are elements, says so exactly when they have one root, and leaves every root as it
-- was.
pub uf_connected_lem :
    (uf : UnionFind) (x y : ℕ)
    → IsForest uf
    → x < uf.size
    → y < uf.size
    → (b : Bool) × (uf' : UnionFind) × (uf_connected uf.size uf x y ≡ some (b, uf'))
      × ((b ≡ true) ↔ ((r : ℕ) × Root uf.parent x r × Root uf.parent y r))
      × IsForest uf'
      × SameRoots uf uf'
unfolding uf_connected
uf_connected_lem uf x y v lx ly =
    let (r, s, uf1, uf2, f) = find_both uf x y v lx ly in
    (
      r == s,
      uf2,
      rw (f.run_x, f.run_y),
      (
        (λ e. (r, f.root_x, subst (Root uf.parent y) (sym ((==_iff r s).0 e)) f.root_y)),
        (λ (t, cx, cy). (==_iff r s).1 (Root-unique f.root_x cx ∙ sym (Root-unique f.root_y cy))),
      ),
      f.forest,
      f.same,
    )
