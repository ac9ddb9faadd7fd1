-- ===== src/Djlc/UnionFind/Partition.antt =====
-- Counting the roots, and hanging one root below another.
use djiang_oss_public.Prelude.{
  ℕ, suc, ◌<◌, ◌≡◌, ◌≢◌, refl, sym, ap, subst, ◌∙◌, ◌⊎◌, inl, inr, arith, ltb, ◌==◌, if◌then◌else◌,
  ==_refl, ==_ne, eq_cases, update, update_self, update-ne, Bool-cases, ltb→lt,
}
use djiang_oss_public.Counts.{count, count-same, count-less}
use djiang_oss_public.Djlc.UnionFind.{UnionFind, hang, raise_rank, link}
use djiang_oss_public.Djlc.UnionFind.Forest.{IsForest, Root, here, up, Root-Root, Root-unique}
use djiang_oss_public.Djlc.UnionFind.Find.{SameRoots, uf_find_lem}

-- The roots of the structure, counted.
abbrev pub root_count : UnionFind → ℕ
root_count uf = count (λ i. uf.parent i == i) uf.size

-- A well-formed structure whose number of sets is right.
pub record IsPartition (uf : UnionFind) : Type 0 where
  pub forest : IsForest uf
  pub counted : uf.components ≡ root_count uf

-- Two structures with the same roots have as many.
root_test :
    {uf uf' : UnionFind}
    → IsForest uf
    → SameRoots uf uf'
    → (i : ℕ) → i < uf.size
    → (uf.parent i == i) ≡ (uf'.parent i == i)
root_test {uf} {uf'} v same i lt = elim (eq_cases (uf.parent i) i) [
  | inl e ↦ let still : uf'.parent i ≡ i = Root-Root (same.roots (here e)) in ground arith
  | inr ne ↦
      let (r, _, _, c, _, _) = uf_find_lem uf i v lt in
      let moved : uf'.parent i ≢ i = λ q.
        let eq : i ≡ r = Root-unique (here q) (same.roots c) in
        ne (subst (λ y. uf.parent y ≡ y) (sym eq) (Root-Root c)) in
      ground arith
]

pub SameRoots-IsPartition :
    {uf uf' : UnionFind} → IsPartition uf → IsForest uf' → SameRoots uf uf' → IsPartition uf'
SameRoots-IsPartition {uf} {uf'} v forest same = record {
  forest = forest;
  counted =
      same.components
      ∙ v.counted
      ∙ count-same (λ i. uf.parent i == i) (λ i. uf'.parent i == i) uf.size
          (root_test v.forest same)
      ∙ ap (count (λ i. uf'.parent i == i)) (sym same.size);
}

-- Where the root `t` has gone when the roots `r` and `s` have become one, `w`.
abbrev pub joined : ℕ → ℕ → ℕ → ℕ → ℕ
joined r s w t = if t == r then w else if t == s then w else t

-- Hanging the root `a` below the root `b`.
module _ (parent : ℕ → ℕ) (a b : ℕ) (root_a : parent a ≡ a) (root_b : parent b ≡ b)
    (ne : a ≢ b) where
  hung-Root : Root (update parent a b) b b
  hung-Root = here (update-ne parent a b b ne ∙ root_b)

  hung_below : Root (update parent a b) a b
  hung_below =
      let at : update parent a b a ≡ b = update_self parent a b in
      up (λ e. ne (sym e ∙ at)) (subst (λ y. Root (update parent a b) y b) (sym at) hung-Root)

  hung : {y t : ℕ} → Root parent y t → Root (update parent a b) y (if t == a then b else t)
  hung (here {x = y} e) = elim (eq_cases y a) [
    | inl q ↦
        subst (λ z. Root (update parent a b) z (if z == a then b else z)) (sym q)
          (rw (==_refl a) hung_below)
    | inr n ↦ rw (==_ne y a n) (here (update-ne parent a y b (λ z. n (sym z)) ∙ e))
  ]
  hung (up {x = y} {r = t} n d) =
      let at : update parent a b y ≡ parent y =
        update-ne parent a y b (λ q. n (subst (λ z. parent z ≡ z) q root_a)) in
      up (λ e. n (sym at ∙ e))
        (subst (λ z. Root (update parent a b) z (if t == a then b else t)) (sym at) (hung d))

module _ (uf : UnionFind) (a b : ℕ) (v : IsForest uf) (lt_a : a < uf.size) (lt_b : b < uf.size)
    (root_a : uf.parent a ≡ a) (root_b : uf.parent b ≡ b) where
  hang-IsForest : uf.rank a < uf.rank b → IsForest (hang a b uf)
  unfolding hang
  hang-IsForest lower = record {
    inside = λ y lt. ground (arith, v.inside y lt);
    climbs = λ y lt n. ground (arith, v.climbs y lt);
  }

  hang-root_count : a ≢ b → root_count uf ≡ suc (root_count (hang a b uf))
  unfolding hang
  hang-root_count ne =
      count-less (λ i. uf.parent i == i) (λ i. update uf.parent a b i == i) a uf.size lt_a
        (ground arith) (ground arith) (λ i lt n. ground arith)

  raise-IsForest : IsForest (raise_rank b uf)
  unfolding raise_rank
  raise-IsForest = record { inside = v.inside; climbs = λ y lt n. ground (arith, v.climbs y lt n) }

-- What linking two roots brings about: they become one.
abbrev pub Linked : UnionFind → ℕ → ℕ → UnionFind → Type 0
Linked uf r s uf' =
    (w : ℕ) × ((w ≡ r) ⊎ (w ≡ s))
    × IsForest uf'
    × ((y t : ℕ) → Root uf.parent y t → Root uf'.parent y (joined r s w t))
    × (root_count uf ≡ suc (root_count uf'))
    × (uf'.size ≡ uf.size)
    × (uf'.components ≡ uf.components)

flipped : (r s t : ℕ) → (if t == s then r else t) ≡ joined r s r t
flipped r s t = ground arith

pub link_lem :
    (uf : UnionFind) (r s : ℕ)
    → IsForest uf
    → r < uf.size
    → s < uf.size
    → uf.parent r ≡ r
    → uf.parent s ≡ s
    → r ≢ s
    → Linked uf r s (link r s uf)
unfolding link hang raise_rank
link_lem uf r s v lr ls er es ne = elim (Bool-cases (ltb (uf.rank r) (uf.rank s))) [
  | inl lower ↦ rw lower (
    s,
    inr refl,
    hang-IsForest uf r s v lr ls er es (ltb→lt _ _ lower),
    (λ y t c. subst (Root (update uf.parent r s) y) (ground arith) (hung uf.parent r s er es ne c)),
    hang-root_count uf r s v lr ls er es ne,
    refl,
    refl,
  )
  | inr not_lower ↦
      let moves = λ (y t : ℕ) (c : Root uf.parent y t).
        subst (Root (update uf.parent s r) y) (flipped r s t)
          (hung uf.parent s r es er (λ q. ne (sym q)) c) in
      let fewer = hang-root_count uf s r v ls lr es er (λ q. ne (sym q)) in
      elim (Bool-cases (ltb (uf.rank s) (uf.rank r))) [
        | inl lower ↦
            rw (not_lower, lower)
              (
                r,
                inl refl,
                hang-IsForest uf s r v ls lr es er (ltb→lt _ _ lower),
                moves,
                fewer,
                refl,
                refl,
              )
        | inr level ↦
            rw (not_lower, level)
              (
                r,
                inl refl,
                hang-IsForest (raise_rank r uf) s r (raise-IsForest uf s r v ls lr es er) ls lr es
                    er (ground arith),
                moves,
                fewer,
                refl,
                refl,
              )
      ]
]
