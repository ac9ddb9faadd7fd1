-- ===== src/Djlc/UnionFind.antt =====
-- djlc/include/union_find.h: disjoint sets as trees of parents, with path compression and union by
-- rank. The arrays are functions of the index; an access outside them is undefined: `none`. The
-- recursion of the search takes fuel. A rank is at most the logarithm of the number of elements.
pub mod Forest
pub mod Find
pub mod Partition
pub mod Union
pub mod Init
pub mod Components
use djiang_oss_public.Prelude.{
  ℕ, zero, suc, ◌+◌, ◌-◌, Bool, true, false, ◌&&◌, Option, none, some, ltb, ◌==◌, if◌then◌else◌,
  update, ◌>>=◌,
}

-- `djlc_uf_t`
pub record UnionFind : Type 0 where
  pub parent : ℕ → ℕ
  pub rank : ℕ → ℕ
  pub size : ℕ
  pub components : ℕ

-- The loop over the first `n` elements.
unfoldable pub singletons : ℕ → (ℕ → ℕ) → (ℕ → ℕ) → (ℕ → ℕ) × (ℕ → ℕ)
singletons zero parent rank = (parent, rank)
singletons (suc n) parent rank =
    let (p, r) = singletons n parent rank in (update p n n, update r n 0)

-- Whether the two allocations succeed, and what the memory they return holds, are arguments. The
-- arrays' pointers are not represented: after a failure they are left as they come.
unfoldable pub uf_init : Bool → Bool → (ℕ → ℕ) → (ℕ → ℕ) → ℕ → UnionFind → Bool × UnionFind
uf_init ok1 ok2 memory1 memory2 n uf =
    if ok1 && ok2
    then (
      true,
      record {
        parent = (singletons n memory1 memory2).0;
        rank = (singletons n memory1 memory2).1;
        size = n;
        components = n;
      },
    )
    else (false, uf)

unfoldable pub uf_free : UnionFind → UnionFind
uf_free uf = record uf { size = 0; components = 0 }

-- `uf->parent[x] = r; return uf->parent[x];`
unfoldable pub compress : ℕ → ℕ → UnionFind → ℕ × UnionFind
compress x r uf = let uf' = record uf { parent = update uf.parent x r } in (uf'.parent x, uf')

unfoldable pub uf_find : ℕ → UnionFind → ℕ → Option (ℕ × UnionFind)
uf_find zero uf x = none
uf_find (suc fuel) uf x =
    let climb = uf_find fuel uf (uf.parent x) >>= λ (r, uf'). some (compress x r uf') in
    if ltb x uf.size then (if uf.parent x == x then some (uf.parent x, uf) else climb) else none

-- Hanging the root `a` below the root `b`.
unfoldable pub hang : ℕ → ℕ → UnionFind → UnionFind
hang a b uf = record uf { parent = update uf.parent a b }

unfoldable pub raise_rank : ℕ → UnionFind → UnionFind
raise_rank a uf = record uf { rank = update uf.rank a (uf.rank a + 1) }

unfoldable pub link : ℕ → ℕ → UnionFind → UnionFind
unfolding hang raise_rank
link px py uf =
    if ltb (uf.rank px) (uf.rank py)
    then hang px py uf
    else if ltb (uf.rank py) (uf.rank px)
    then hang py px uf
    else raise_rank px (hang py px uf)

unfoldable pub one_less : UnionFind → UnionFind
one_less uf = record uf { components = uf.components - 1 }

unfoldable pub uf_union : ℕ → UnionFind → ℕ → ℕ → Option (Bool × UnionFind)
uf_union fuel uf x y = do
  (px, uf1) ← uf_find fuel uf x
  (py, uf2) ← uf_find fuel uf1 y
  if px == py then some (false, uf2) else some (true, one_less (link px py uf2))

unfoldable pub uf_connected : ℕ → UnionFind → ℕ → ℕ → Option (Bool × UnionFind)
uf_connected fuel uf x y = do
  (px, uf1) ← uf_find fuel uf x
  (py, uf2) ← uf_find fuel uf1 y
  some (px == py, uf2)

unfoldable pub uf_count : UnionFind → ℕ
uf_count uf = uf.components
