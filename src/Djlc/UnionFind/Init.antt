-- ===== src/Djlc/UnionFind/Init.antt =====
-- The initial structure: every element is a set of its own.
use djiang_oss_public.Prelude.{
  ℕ, zero, suc, ◌<◌, ◌≡◌, refl, sym, ◌∙◌, inl, inr, arith, eq_cases, update-ne, Bool, true, false,
  ◌&&◌,
}
use djiang_oss_public.Counts.{count-all}
use djiang_oss_public.Djlc.UnionFind.{UnionFind, singletons, uf_init}
use djiang_oss_public.Djlc.UnionFind.Forest.{Root, here}
use djiang_oss_public.Djlc.UnionFind.Partition.{IsPartition}

singletons-parent : (n i : ℕ) (p r : ℕ → ℕ) → i < n → (singletons n p r).0 i ≡ i
unfolding singletons
singletons-parent zero i p r lt = absurd (omega arith)
singletons-parent (suc n) i p r lt = elim (eq_cases n i) [
  | inl e ↦ ground arith
  | inr ne ↦ update-ne (singletons n p r).0 n i n ne ∙ singletons-parent n i p r (omega arith)
]

-- If both allocations succeed, the structure of `n` elements is well-formed, every element is the
-- root of its own set, and the count of sets is `n`; if one fails, the result is false and the
-- structure is as it was.
pub uf_init_lem :
    (ok1 ok2 : Bool) (memory1 memory2 : ℕ → ℕ) (n : ℕ) (uf : UnionFind)
    → (uf' : UnionFind) × (uf_init ok1 ok2 memory1 memory2 n uf ≡ (ok1 && ok2, uf'))
      × (ok1 && ok2 ≡ true
          → IsPartition uf'
            × (uf'.size ≡ n)
            × (uf'.components ≡ n)
            × ((x : ℕ) → x < n → Root uf'.parent x x))
      × (ok1 && ok2 ≡ false → uf' ≡ uf)
unfolding uf_init
uf_init_lem true true memory1 memory2 n uf =
    let alone = λ (i : ℕ) (lt : i < n). singletons-parent n i memory1 memory2 lt in
    (
      (uf_init true true memory1 memory2 n uf).1,
      refl,
      (λ e. (
        record {
          forest = record {
            inside = λ x lt. omega (arith, alone x lt);
            climbs = λ x lt ne. absurd (ne (alone x lt));
          };
          counted = sym (count-all _ n (λ i lt. ground (arith, alone i lt)));
        },
        refl,
        refl,
        λ x lt. here (alone x lt),
      )),
      (λ e. cc),
    )
uf_init_lem true false memory1 memory2 n uf = (uf, refl, (λ e. cc), (λ e. refl))
uf_init_lem false ok2 memory1 memory2 n uf = (uf, refl, (λ e. cc), (λ e. refl))
