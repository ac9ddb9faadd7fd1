-- ===== src/Rtos/Links/Walk.antt =====
-- Where a walk along a chain ends.
use djiang_oss_public.Prelude.{
  ℕ, zero, suc, ◌<◌, ◌≡◌, refl, sym, ap, Bool, true, some, List, [], ◌∷◌, ◌++◌, arith, ◌==◌, ==_ne,
  ==_refl, if◌then◌else◌, Bool-cases, length, All, NotIn, inl, inr,
}
use djiang_oss_public.Rtos.Links.{Link, at, Links, read, walk, always, never}
use djiang_oss_public.Rtos.Links.Chain.{Chain, link_after}

-- The nodes before the first one that `stop` accepts, and the rest.
abbrev pub before : (ℕ → Bool) → List ℕ → List ℕ
before stop [] = []
before stop (x ∷ xs) = if stop x then [] else x ∷ before stop xs

abbrev pub from : (ℕ → Bool) → List ℕ → List ℕ
from stop [] = []
from stop (x ∷ xs) = if stop x then x ∷ xs else from stop xs

pub before-append-from : (stop : ℕ → Bool) (xs : List ℕ) → before stop xs ++ from stop xs ≡ xs
before-append-from stop [] = refl
before-append-from stop (x ∷ xs) = ground (arith, before-append-from stop xs)

pub before-never : (xs : List ℕ) → before never xs ≡ xs
before-never [] = refl
before-never (x ∷ xs) = ap (λ l. x ∷ l) (before-never xs)

from-never : (xs : List ℕ) → from never xs ≡ []
from-never [] = refl
from-never (x ∷ xs) = from-never xs

pub All-always : (xs : List ℕ) → All (λ x. always x ≡ true) xs
All-always [] = tt
All-always (x ∷ xs) = (refl, All-always xs)

-- A walk along a chain of checked nodes ends, at the link before the first node to stop at.
pub walk_lem :
    (check stop : ℕ → Bool) (fuel : ℕ) (l : Links) (pp : Link) (xs : List ℕ)
    → Chain l.next (read l pp) xs
    → All (λ x. check x ≡ true) xs
    → length xs < fuel
    → walk check stop fuel l pp ≡ some (link_after pp (before stop xs))
unfolding walk
walk_lem check stop zero l pp xs c a h = absurd (omega arith)
walk_lem check stop (suc fuel) l pp [] c a h = rw (c, walk)
walk_lem check stop (suc fuel) l pp (x ∷ xs) c a h = elim (Bool-cases (stop x)) [
  | inl e ↦ ground (arith, c.0, a.0)
  | inr e ↦ ground (arith, c.0, a.0, walk_lem check stop fuel l (at x) xs c.1 a.1 (omega arith))
]

-- Stopping at a node that is there, and at one that is not.
pub before-eq-NotIn : (t : ℕ) (xs : List ℕ) → NotIn t xs → before (λ x. x == t) xs ≡ xs
before-eq-NotIn t [] n = refl
before-eq-NotIn t (x ∷ xs) n = rw (==_ne x t (λ e. n.0 (sym e)), before-eq-NotIn t xs n.1)

from-eq-NotIn : (t : ℕ) (xs : List ℕ) → NotIn t xs → from (λ x. x == t) xs ≡ []
from-eq-NotIn t [] n = refl
from-eq-NotIn t (x ∷ xs) n = rw (==_ne x t (λ e. n.0 (sym e)), from-eq-NotIn t xs n.1)

pub before-eq_mid : (t : ℕ) (ys zs : List ℕ) → NotIn t ys → before (λ x. x == t) (ys ++ t ∷ zs) ≡ ys
before-eq_mid t [] zs n = rw (==_refl t)
before-eq_mid t (y ∷ ys) zs n = rw (==_ne y t (λ e. n.0 (sym e)), before-eq_mid t ys zs n.1)
