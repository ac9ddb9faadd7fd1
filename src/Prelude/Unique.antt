-- ===== src/Prelude/Unique.antt =====
-- Lists of numbers without repetitions: parts, erasing, and how long they can be.
use Prim.Native.Nat.{ℕ, zero, suc, ◌≤◌, ◌<◌}
use mathlib.Core.Path.{◌≡◌, refl, sym, ap, subst}
use mathlib.Core.Logic.{◌≢◌, ◌⊎◌, inl, inr}
use mathlib.Core.List.{List, [], ◌∷◌, ◌++◌}
use native.Mathlib.Omega.{arith}
use djiang_oss_public.Prelude.Tests.{◌==◌, if◌then◌else◌, ==_ne, ==_refl, eq_cases, Bool-cases}
use djiang_oss_public.Prelude.Lists.{
  length, All, NotIn, Distinct, Disjoint, All-left, All-right, All-append, All-map,
}

pub Distinct-left : (xs ys : List ℕ) → Distinct (xs ++ ys) → Distinct xs
Distinct-left [] ys d = tt
Distinct-left (x ∷ xs) ys d = (All-left _ xs ys d.0, Distinct-left xs ys d.1)

pub Distinct-right : (xs ys : List ℕ) → Distinct (xs ++ ys) → Distinct ys
Distinct-right [] ys d = d
Distinct-right (x ∷ xs) ys d = Distinct-right xs ys d.1

pub Distinct-Disjoint : (xs ys : List ℕ) → Distinct (xs ++ ys) → Disjoint xs ys
Distinct-Disjoint [] ys d = tt
Distinct-Disjoint (x ∷ xs) ys d = (All-right _ xs ys d.0, Distinct-Disjoint xs ys d.1)

pub Disjoint-tail : (t : ℕ) (ys zs : List ℕ) → Disjoint ys (t ∷ zs) → Disjoint ys zs
Disjoint-tail t [] zs d = tt
Disjoint-tail t (y ∷ ys) zs d = (d.0.1, Disjoint-tail t ys zs d.1)

pub Disjoint-head : (t : ℕ) (ys zs : List ℕ) → Disjoint ys (t ∷ zs) → NotIn t ys
Disjoint-head t [] zs d = tt
Disjoint-head t (y ∷ ys) zs d = ((λ e. d.0.0 (sym e)), Disjoint-head t ys zs d.1)

pub Disjoint-cons : (t : ℕ) (ys zs : List ℕ) → NotIn t ys → Disjoint ys zs → Disjoint ys (t ∷ zs)
Disjoint-cons t [] zs n d = tt
Disjoint-cons t (y ∷ ys) zs n d = (((λ e. n.0 (sym e)), d.0), Disjoint-cons t ys zs n.1 d.1)

pub Disjoint-nil : (xs : List ℕ) → Disjoint xs []
Disjoint-nil [] = tt
Disjoint-nil (x ∷ xs) = (tt, Disjoint-nil xs)

pub Disjoint-sym : (xs ys : List ℕ) → Disjoint xs ys → Disjoint ys xs
Disjoint-sym [] ys d = Disjoint-nil ys
Disjoint-sym (x ∷ xs) ys d = Disjoint-cons x ys xs d.0 (Disjoint-sym xs ys d.1)

pub Disjoint-append : (xs ys zs : List ℕ) → Disjoint xs zs → Disjoint ys zs → Disjoint (xs ++ ys) zs
Disjoint-append xs ys zs d e = All-append (λ x. NotIn x zs) xs ys d e

pub Distinct-append :
    (xs ys : List ℕ) → Distinct xs → Distinct ys → Disjoint xs ys → Distinct (xs ++ ys)
Distinct-append [] ys d e h = e
Distinct-append (x ∷ xs) ys d e h = (All-append _ xs ys d.0 h.0, Distinct-append xs ys d.1 e h.1)

-- The first occurrence of `t` goes.
abbrev pub erase : ℕ → List ℕ → List ℕ
erase t [] = []
erase t (x ∷ xs) = if x == t then xs else x ∷ erase t xs

pub erase-absent : (t : ℕ) (xs : List ℕ) → NotIn t xs → erase t xs ≡ xs
erase-absent t [] n = refl
erase-absent t (x ∷ xs) n = rw (==_ne x t (λ e. n.0 (sym e)), erase-absent t xs n.1)

pub erase-middle : (t : ℕ) (ys zs : List ℕ) → NotIn t ys → erase t (ys ++ t ∷ zs) ≡ ys ++ zs
erase-middle t [] zs n = rw (==_refl t)
erase-middle t (y ∷ ys) zs n = rw (==_ne y t (λ e. n.0 (sym e)), erase-middle t ys zs n.1)

pub All-erase {ℓ} : (P : ℕ → Type ℓ) (t : ℕ) (xs : List ℕ) → All P xs → All P (erase t xs)
All-erase P t [] a = tt
All-erase P t (x ∷ xs) a = elim (Bool-cases (x == t)) [
  | inl e ↦ rw e a.1
  | inr e ↦ rw e (a.0, All-erase P t xs a.1)
]

pub Distinct-erase : (t : ℕ) (xs : List ℕ) → Distinct xs → Distinct (erase t xs)
Distinct-erase t [] d = tt
Distinct-erase t (x ∷ xs) d = elim (Bool-cases (x == t)) [
  | inl e ↦ rw e d.1
  | inr e ↦ rw e (All-erase (λ y. x ≢ y) t xs d.0, Distinct-erase t xs d.1)
]

pub NotIn-erase : (t : ℕ) (xs : List ℕ) → Distinct xs → NotIn t (erase t xs)
NotIn-erase t [] d = tt
NotIn-erase t (x ∷ xs) d = elim (eq_cases x t) [
  | inl e ↦ rw (e, ==_refl t) (subst (λ y. NotIn y xs) e d.0)
  | inr ne ↦ rw (==_ne x t ne) ((λ e. ne (sym e)), NotIn-erase t xs d.1)
]

pub Disjoint-erase : (t : ℕ) (xs ys : List ℕ) → Disjoint xs ys → Disjoint xs (erase t ys)
Disjoint-erase t xs ys d = All-map (λ x. All-erase (λ y. x ≢ y) t ys) xs d

-- A number is in a list, after others, or it is not.
pub split_at :
    (t : ℕ) (xs : List ℕ)
    → ((ys : List ℕ) × (zs : List ℕ) × (xs ≡ ys ++ t ∷ zs) × NotIn t ys) ⊎ NotIn t xs
split_at t [] = inr tt
split_at t (x ∷ xs) = elim (eq_cases x t) [
  | inl e ↦ inl ([], xs, ap (λ y. y ∷ xs) e, tt)
  | inr ne ↦ elim (split_at t xs) [
    | inl (ys, zs, e, n) ↦ inl (x ∷ ys, zs, ap (λ l. x ∷ l) e, ((λ p. ne (sym p)), n))
    | inr n ↦ inr ((λ p. ne (sym p)), n)
  ]
]

length-erase-ge : (t : ℕ) (xs : List ℕ) → length xs ≤ suc (length (erase t xs))
length-erase-ge t [] = omega arith
length-erase-ge t (x ∷ xs) = elim (Bool-cases (x == t)) [
  | inl e ↦ rw e (omega arith)
  | inr e ↦ rw e (omega (arith, length-erase-ge t xs))
]

lt_of_ne : (n : ℕ) (xs : List ℕ) → All (λ x. x < suc n) xs → NotIn n xs → All (λ x. x < n) xs
lt_of_ne n [] a d = tt
lt_of_ne n (x ∷ xs) a d = (omega (arith, a.0, d.0), lt_of_ne n xs a.1 d.1)

-- Distinct numbers below `n` are at most `n`.
pub length_of_Distinct : (n : ℕ) (xs : List ℕ) → Distinct xs → All (λ x. x < n) xs → length xs ≤ n
length_of_Distinct zero [] d a = omega arith
length_of_Distinct zero (x ∷ xs) d a = absurd (omega (arith, a.0))
length_of_Distinct (suc n) xs d a = omega (
  arith,
  length-erase-ge n xs,
  length_of_Distinct n (erase n xs) (Distinct-erase n xs d)
      (lt_of_ne n (erase n xs) (All-erase _ n xs a) (NotIn-erase n xs d)),
)
