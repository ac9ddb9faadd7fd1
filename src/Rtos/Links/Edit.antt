-- ===== src/Rtos/Links/Edit.antt =====
-- The list operations on a well-formed chain.
use djiang_oss_public.Prelude.{
  ℕ, ◌<◌, ◌≡◌, refl, sym, subst, ◌∙◌, Bool, true, false, Option, none, some, List, [], ◌∷◌, ◌++◌,
  append-nil, arith, ◌==◌, length, All, All-left, All-right, NotIn, Distinct, Disjoint, update_self,
  Distinct-left, Distinct-right, Distinct-Disjoint, Disjoint-tail, Disjoint-head,
}
use djiang_oss_public.Rtos.Links.{
  head, at, Links, read, write, always, never, append, remove, insert, pop,
}
use djiang_oss_public.Rtos.Links.Chain.{
  Chain, link_after, Segment-update, Segment-write, Segment-behind, Segment-front, Segment-append,
  Segment-splice, Avoids-after, read-write_after,
}
use djiang_oss_public.Rtos.Links.Walk.{
  before, from, walk_lem, before-append-from, before-never, All-always, before-eq-NotIn,
  before-eq_mid,
}

-- What an operation that moves the node `t` does to a list of `xs`: it holds `zs` afterwards, and
-- no list that shares no node with these has changed.
pub record Edited (l : Links) (t : ℕ) (xs zs : List ℕ) (l' : Links) : Type 0 where
  pub chain : Chain l'.next l'.first zs
  pub frame :
      (h : Option ℕ) (ws : List ℕ)
      → Disjoint xs ws
      → NotIn t ws
      → Chain l.next h ws
      → Chain l'.next h ws

module _ (check : ℕ → Bool) (fuel t : ℕ) (l : Links) (xs : List ℕ) where
  appended : Links
  appended = write (write l (link_after head xs) (some t)) (at t) none

  append-Edited :
      Chain l.next l.first xs → NotIn t xs → Distinct xs → Edited l t xs (xs ++ t ∷ []) appended
  unfolding appended
  append-Edited c n d = record {
    chain =
        Segment-append _ _ (some t) none xs (t ∷ [])
          (Segment-update _ t none _ (some t) xs n (Segment-splice l head xs none (some t) tt d c))
          (refl, update_self (write l (link_after head xs) (some t)).next t none);
    frame = λ h ws dis out old. Segment-update _ t none h none ws out (
        Segment-write l (link_after head xs) (some t) h none ws (Avoids-after head xs ws tt dis)
          old);
  }

  -- Appending a new node to a chain of checked nodes.
  pub append_lem :
      Chain l.next l.first xs
      → All (λ x. check x ≡ true) xs
      → length xs < fuel
      → NotIn t xs
      → Distinct xs
      → (l' : Links) × (append check fuel t l ≡ some l') × Edited l t xs (xs ++ t ∷ []) l'
  unfolding append appended
  append_lem c a h n d = (
    appended,
    rw (walk_lem check never fuel l head xs c a h, before-never xs) refl,
    append-Edited c n d,
  )

module _ (fuel t : ℕ) (l : Links) where
  -- Removing a node that is not there changes nothing.
  pub remove_absent :
      (xs : List ℕ)
      → Chain l.next l.first xs
      → length xs < fuel
      → NotIn t xs
      → remove fuel t l ≡ some (false, l)
  unfolding remove
  remove_absent xs c h n =
      rw (walk_lem always (λ x. x == t) fuel l head xs c (All-always xs) h, before-eq-NotIn t xs n)
        (ground (arith, Segment-behind l head none xs [] (rw append-nil c)))

  module _ (ys zs : List ℕ) where
    removed : Links
    removed = write (write l (link_after head ys) (l.next t)) (at t) none

    remove-Edited :
        Chain l.next l.first (ys ++ t ∷ zs)
        → Distinct (ys ++ t ∷ zs)
        → Edited l t (ys ++ t ∷ zs) (ys ++ zs) removed
    unfolding removed
    remove-Edited c d =
        let dis = Distinct-Disjoint ys (t ∷ zs) d in
        let rest = Distinct-right ys (t ∷ zs) d in
        let back = Segment-behind l head none ys (t ∷ zs) c in
        record {
          chain =
              Segment-append _ _ (l.next t) none ys zs
                (Segment-update _ t none _ (l.next t) ys (Disjoint-head t ys zs dis) (
                  Segment-splice l head ys _ (l.next t) tt (Distinct-left ys (t ∷ zs) d)
                    (Segment-front l head none ys (t ∷ zs) c)))
                (Segment-update _ t none _ none zs rest.0 (
                  Segment-write l (link_after head ys) (l.next t) _ none zs
                    (Avoids-after head ys zs tt (Disjoint-tail t ys zs dis)) back.1));
          frame = λ h ws dws out old. Segment-update _ t none h none ws out (
              Segment-write l (link_after head ys) (l.next t) h none ws
                (Avoids-after head ys ws tt (All-left _ ys (t ∷ zs) dws)) old);
        }

    -- Removing a node that is there takes it out and keeps the others in order.
    pub remove_present :
        Chain l.next l.first (ys ++ t ∷ zs)
        → length (ys ++ t ∷ zs) < fuel
        → Distinct (ys ++ t ∷ zs)
        → (l' : Links) × (remove fuel t l ≡ some (true, l'))
          × Edited l t (ys ++ t ∷ zs) (ys ++ zs) l'
    unfolding remove removed
    remove_present c h d = (
      removed,
      rw
          (
            walk_lem always (λ x. x == t) fuel l head (ys ++ t ∷ zs) c (All-always _) h,
            before-eq_mid t ys zs (Disjoint-head t ys zs (Distinct-Disjoint ys (t ∷ zs) d)),
          )
          (ground (arith, (Segment-behind l head none ys (t ∷ zs) c).0)),
      remove-Edited c d,
    )

-- A write behind nodes other than `t` leaves the link of `t` as it is.
next-write_after :
    (l : Links) (ys : List ℕ) (v : Option ℕ) (t : ℕ)
    → NotIn t ys
    → (write l (link_after head ys) v).next t ≡ l.next t
next-write_after l [] v t n = refl
next-write_after l (y ∷ ys) v t n = read-write_after l (at t) y ys v n

module _ (t : ℕ) (l : Links) (ys zs : List ℕ) where
  inserted : Links
  inserted = write (write l (at t) (read l (link_after head ys))) (link_after head ys) (some t)

  insert-Edited :
      Chain l.next l.first (ys ++ zs)
      → Distinct (ys ++ zs)
      → NotIn t (ys ++ zs)
      → Edited l t (ys ++ zs) (ys ++ t ∷ zs) inserted
  unfolding inserted
  insert-Edited c d n =
      let dis = Distinct-Disjoint ys zs d in
      let n1 = All-left _ ys zs n in
      let e = read l (link_after head ys) in
      let l1 = write l (at t) e in
      record {
        chain =
            Segment-append _ _ (some t) none ys (t ∷ zs)
              (Segment-splice l1 head ys e (some t) tt (Distinct-left ys zs d)
                (Segment-update l.next t e _ e ys n1 (Segment-front l head none ys zs c)))
              (
                refl,
                subst (λ h. Chain (write l1 (link_after head ys) (some t)).next h zs)
                    (sym (next-write_after l1 ys (some t) t n1 ∙ update_self l.next t e))
                    (Segment-write l1 (link_after head ys) (some t) e none zs
                      (Avoids-after head ys zs tt dis)
                      (Segment-update l.next t e e none zs (All-right _ ys zs n)
                        (Segment-behind l head none ys zs c))),
              );
        frame = λ h ws dws out old.
            Segment-write l1 (link_after head ys) (some t) h none ws
              (Avoids-after head ys ws tt (All-left _ ys zs dws))
              (Segment-update l.next t e h none ws out old);
      }

-- Inserting a new node puts it before the first node that `stop` accepts.
pub insert_lem :
    (stop : ℕ → Bool) (fuel t : ℕ) (l : Links) (xs : List ℕ)
    → Chain l.next l.first xs
    → length xs < fuel
    → Distinct xs
    → NotIn t xs
    → (l' : Links) × (insert stop fuel t l ≡ some l')
      × Edited l t xs (before stop xs ++ t ∷ from stop xs) l'
unfolding insert inserted
insert_lem stop fuel t l xs c h d n =
    let e = before-append-from stop xs in
    (
      inserted t l (before stop xs) (from stop xs),
      rw (walk_lem always stop fuel l head xs c (All-always xs) h) refl,
      subst
          (λ ws.
            Edited l t ws (before stop xs ++ t ∷ from stop xs)
              (inserted t l (before stop xs) (from stop xs)))
          e
          (insert-Edited t l (before stop xs) (from stop xs)
            (subst (Chain l.next l.first) (sym e) c) (subst Distinct (sym e) d)
            (subst (NotIn t) (sym e) n)),
    )

pub pop_nil : (l : Links) → Chain l.next l.first [] → pop l ≡ (none, l)
unfolding pop
pop_nil l c = ground arith

-- Popping takes the first node off and leaves the rest.
pub pop_cons :
    (t : ℕ) (l : Links) (xs : List ℕ)
    → Chain l.next l.first (t ∷ xs)
    → Distinct (t ∷ xs)
    → (l' : Links) × (pop l ≡ (some t, l')) × Edited l t (t ∷ xs) xs l'
unfolding pop
pop_cons t l xs c d = (
  write (record l { first = l.next t }) (at t) none,
  ground (arith, c.0),
  record {
    chain = Segment-update l.next t none (l.next t) none xs d.0 c.1;
    frame = λ h ws dws out old. Segment-update l.next t none h none ws out old;
  },
)
