-- ===== src/Rtos/Links/Chain.antt =====
-- The abstract view of a linked list, and what a write through a link does to it.
use djiang_oss_public.Prelude.{
  ℕ, ◌≡◌, refl, sym, subst, ◌∙◌, Option, none, some, List, [], ◌∷◌, ◌++◌, update, update-ne,
  update_self, NotIn, Distinct, Disjoint,
}
use djiang_oss_public.Rtos.Links.{Link, head, at, Links, read, write}

-- Following `next` from `h` on, one meets exactly the nodes `xs` and then `e`.
abbrev pub Segment : (ℕ → Option ℕ) → Option ℕ → List ℕ → Option ℕ → Type 0
Segment next h [] e = h ≡ e
Segment next h (x ∷ xs) e = (h ≡ some x) × Segment next (next x) xs e

-- A whole list ends in NULL.
abbrev pub Chain : (ℕ → Option ℕ) → Option ℕ → List ℕ → Type 0
Chain next h xs = Segment next h xs none

-- The link is not a field of one of the nodes.
abbrev pub Avoids : Link → List ℕ → Type 0
Avoids head xs = Unit {0}
Avoids (at i) xs = NotIn i xs

-- The link behind the nodes `ys` that follow `pp`.
abbrev pub link_after : Link → List ℕ → Link
link_after pp [] = pp
link_after pp (y ∷ ys) = link_after (at y) ys

-- A segment does not see the `next` fields of other nodes.
pub Segment-update :
    (next : ℕ → Option ℕ) (i : ℕ) (v h e : Option ℕ) (xs : List ℕ)
    → NotIn i xs
    → Segment next h xs e
    → Segment (update next i v) h xs e
Segment-update next i v h e [] n c = c
Segment-update next i v h e (x ∷ xs) n c = (
  c.0,
  subst (λ t. Segment (update next i v) t xs e) (sym (update-ne next i x v n.0))
      (Segment-update next i v (next x) e xs n.1 c.1),
)

pub Segment-write :
    (l : Links) (pp : Link) (v h e : Option ℕ) (xs : List ℕ)
    → Avoids pp xs
    → Segment l.next h xs e
    → Segment (write l pp v).next h xs e
Segment-write l head v h e xs a c = c
Segment-write l (at i) v h e xs a c = Segment-update l.next i v h e xs a c

read-write : (l : Links) (pp : Link) (v : Option ℕ) → read (write l pp v) pp ≡ v
read-write l head v = refl
read-write l (at i) v = update_self l.next i v

-- A write behind nodes that do not own `pp` leaves `pp` as it is.
pub read-write_after :
    (l : Links) (pp : Link) (x : ℕ) (ys : List ℕ) (v : Option ℕ)
    → Avoids pp (x ∷ ys)
    → read (write l (link_after (at x) ys) v) pp ≡ read l pp
read-write_after l head x [] v a = refl
read-write_after l (at i) x [] v a = update-ne l.next x i v (λ e. a.0 (sym e))
read-write_after l head x (y ∷ ys) v a = read-write_after l head y ys v tt
read-write_after l (at i) x (y ∷ ys) v a = read-write_after l (at i) y ys v a.1

-- The first nodes of a segment end at what the link behind them holds.
pub Segment-front :
    (l : Links) (pp : Link) (e : Option ℕ) (ys zs : List ℕ)
    → Segment l.next (read l pp) (ys ++ zs) e
    → Segment l.next (read l pp) ys (read l (link_after pp ys))
Segment-front l pp e [] zs c = refl
Segment-front l pp e (y ∷ ys) zs c = (c.0, Segment-front l (at y) e ys zs c.1)

pub Segment-behind :
    (l : Links) (pp : Link) (e : Option ℕ) (ys zs : List ℕ)
    → Segment l.next (read l pp) (ys ++ zs) e
    → Segment l.next (read l (link_after pp ys)) zs e
Segment-behind l pp e [] zs c = c
Segment-behind l pp e (y ∷ ys) zs c = Segment-behind l (at y) e ys zs c.1

pub Segment-append :
    (next : ℕ → Option ℕ) (h e f : Option ℕ) (ys zs : List ℕ)
    → Segment next h ys e
    → Segment next e zs f
    → Segment next h (ys ++ zs) f
Segment-append next h e f [] zs c d = subst (λ t. Segment next t zs f) (sym c) d
Segment-append next h e f (y ∷ ys) zs c d = (c.0, Segment-append next (next y) e f ys zs c.1 d)

-- A write behind the nodes of a segment changes only where it ends.
pub Segment-splice :
    (l : Links) (pp : Link) (ys : List ℕ) (e v : Option ℕ)
    → Avoids pp ys
    → Distinct ys
    → Segment l.next (read l pp) ys e
    → Segment (write l (link_after pp ys) v).next (read (write l (link_after pp ys) v) pp) ys v
Segment-splice l pp [] e v a d c = read-write l pp v
Segment-splice l pp (y ∷ ys) e v a d c =
    (read-write_after l pp y ys v a ∙ c.0, Segment-splice l (at y) ys e v d.0 d.1 c.1)

pub Avoids-after :
    (pp : Link) (ys ws : List ℕ) → Avoids pp ws → Disjoint ys ws → Avoids (link_after pp ys) ws
Avoids-after pp [] ws a d = a
Avoids-after pp (y ∷ ys) ws a d = Avoids-after (at y) ys ws d.0 d.1
