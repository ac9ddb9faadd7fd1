-- ===== src/Djlc/UnionFind/Forest.antt =====
-- The trees of a union-find structure: well-formedness, roots, and the number of roots.
use djiang_oss_public.Prelude.{ℕ, ◌≤◌, ◌<◌, ◌≡◌, ◌≢◌, refl, arith, ltb, true, lt→ltb, ltb→lt}
use djiang_oss_public.Counts.{count, count-lt, count-le}
use djiang_oss_public.Djlc.UnionFind.{UnionFind}

-- Parents are elements, and the rank grows towards the root.
pub record IsForest (uf : UnionFind) : Type 0 where
  pub inside : (x : ℕ) → x < uf.size → uf.parent x < uf.size
  pub climbs : (x : ℕ) → x < uf.size → uf.parent x ≢ x → uf.rank x < uf.rank (uf.parent x)

-- Following the parents from `x` one ends at `r`, which is its own parent.
pub data Root (parent : ℕ → ℕ) : ℕ → ℕ → Type 0 where
  here : {x : ℕ} → parent x ≡ x → Root parent x x
  up : {x r : ℕ} → parent x ≢ x → Root parent (parent x) r → Root parent x r

pub Root-Root : {parent : ℕ → ℕ} {x r : ℕ} → Root parent x r → parent r ≡ r
Root-Root (here e) = e
Root-Root (up ne c) = Root-Root c

-- An element has one root.
pub Root-unique : {parent : ℕ → ℕ} {x r s : ℕ} → Root parent x r → Root parent x s → r ≡ s
Root-unique (here e) (here f) = refl
Root-unique (here e) (up ne c) = absurd (ne e)
Root-unique (up ne c) (here e) = absurd (ne e)
Root-unique (up ne c) (up ne' d) = Root-unique c d

module _ {uf : UnionFind} (v : IsForest uf) where
  pub Root-inside : {x r : ℕ} → Root uf.parent x r → x < uf.size → r < uf.size
  Root-inside (here e) lt = lt
  Root-inside (up ne c) lt = Root-inside c (v.inside _ lt)

  pub Root-climbs : {x r : ℕ} → Root uf.parent x r → x < uf.size → uf.rank x ≤ uf.rank r
  Root-climbs (here e) lt = omega arith
  Root-climbs (up ne c) lt = omega (arith, v.climbs _ lt ne, Root-climbs c (v.inside _ lt))

  -- An element that is not a root has a lower rank than its root.
  pub Root-above :
      {x r : ℕ} → Root uf.parent x r → x < uf.size → uf.parent x ≢ x → uf.rank x < uf.rank r
  Root-above (here e) lt ne = absurd (ne e)
  Root-above (up ne c) lt ne' = omega (arith, v.climbs _ lt ne, Root-climbs c (v.inside _ lt))

-- How many elements have a greater rank.
unfoldable pub above : UnionFind → ℕ → ℕ
above uf x = count (λ i. ltb (uf.rank x) (uf.rank i)) uf.size

pub above-parent :
    (uf : UnionFind) (x : ℕ)
    → IsForest uf
    → x < uf.size
    → uf.parent x ≢ x
    → above uf (uf.parent x) < above uf x
unfolding above
above-parent uf x v lt ne =
    let higher : uf.rank x < uf.rank (uf.parent x) = v.climbs x lt ne in
    count-lt (λ i. ltb (uf.rank x) (uf.rank i)) (λ i. ltb (uf.rank (uf.parent x)) (uf.rank i))
      (uf.parent x) uf.size (v.inside x lt) (lt→ltb _ _ higher) (ground arith)
      (λ i e. lt→ltb _ _ (omega (arith, ltb→lt _ _ e, higher)))

pub above-lt-size : (uf : UnionFind) (x : ℕ) → x < uf.size → above uf x < uf.size
unfolding above
above-lt-size uf x lt = omega (
  arith,
  count-lt (λ i. true) (λ i. ltb (uf.rank x) (uf.rank i)) x uf.size lt refl (ground arith)
      (λ i e. refl),
  count-le (λ i. true) uf.size,
)
