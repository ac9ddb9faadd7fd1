-- ===== src/Djlc/HashMap/Put.antt =====
-- Where the hash map puts a key, and what that does to the searches.
pub mod Placed
pub mod Laws
use native.Mathlib.Nat.{mod-lt}
use djiang_oss_public.Prelude.{
  ℕ, zero, suc, ◌+◌, ◌-◌, ◌%◌, ◌<◌, ◌≤◌, ◌≡◌, ◌≢◌, refl, sym, ap, subst, ◌∙◌, ◌⊎◌, inl, inr, Bool,
  true, false, ◌&&◌, Option, none, some, arith, ltb, ◌==◌, ==_ne, if◌then◌else◌, Bool-cases, ◌>>=◌,
  eq_cases, update, update_self, update-ne,
}
use djiang_oss_public.Prelude.Int.{ℤ, eqb_ℤ, eqb_ℤ→eq, eqb_ℤ_refl, eqb_ℤ_ne}
use djiang_oss_public.Djlc.HashMap.{
  State, empty, occupied, deleted, is_empty, is_occupied, Entry, HashMap, put_loop, fill, overwrite,
}
use djiang_oss_public.Djlc.HashMap.Probe.{
  slot, slot_first, slot_next, slot_ne, slot_unique, not_yet, back_at_start, Passed, Outcome,
  missing, found, full, value_of, entry_at, search_from,
}
use djiang_oss_public.Djlc.HashMap.Get.{not_occupied}

-- What putting a value does, by the outcome of the search for its key.
unfoldable pub put_of :
    (hm : HashMap) (start : ℕ) (key value : ℤ) → Outcome hm start key → Bool × HashMap
put_of hm start key value (missing i lt p e) = (true, fill (slot hm.capacity start i) key value hm)
put_of hm start key value (found i lt p o e) = (true, overwrite (slot hm.capacity start i) value hm)
put_of hm start key value (full p) = (false, hm)

module _ (hm : HashMap) (start : ℕ) (key value : ℤ) (lt : start < hm.capacity) where
  put_step :
      (fuel i : ℕ)
      → is_occupied (entry_at hm start key i).state ≡ true
      → eqb_ℤ (entry_at hm start key i).key key ≡ false
      → suc i < hm.capacity
      → put_loop (suc fuel) (slot hm.capacity start i) start key value hm
        ≡ put_loop fuel (slot hm.capacity start (i + 1)) start key value hm
  unfolding put_loop
  put_step fuel i o e more =
      rw (o, e, not_yet hm.capacity start lt i more, slot_next hm.capacity start lt i)

  put_walk :
      (j : ℕ)
      → j < hm.capacity
      → Passed hm start key j
      → put_loop hm.capacity start start key value hm
        ≡ put_loop (suc (hm.capacity - suc j)) (slot hm.capacity start j) start key value hm
  put_walk zero inside p =
      let fuel : hm.capacity ≡ suc (hm.capacity - 1) = omega (arith, inside) in
      λ k. put_loop (fuel k) (sym (slot_first hm.capacity start lt) k) start key value hm
  put_walk (suc j) inside p =
      let fuel : hm.capacity - suc j ≡ suc (hm.capacity - suc (suc j)) = omega (arith, inside) in
      let next : j + 1 ≡ suc j = omega arith in
      put_walk j (omega (arith, inside)) (λ i le. p i (omega (arith, le)))
      ∙ put_step (hm.capacity - suc j) j (p j (omega arith)).0 (p j (omega arith)).1 inside
      ∙ (λ k. put_loop (fuel k) (slot hm.capacity start (next k)) start key value hm)

  pub put_loop_lem :
      (o : Outcome hm start key)
      → put_loop hm.capacity start start key value hm ≡ some (put_of hm start key value o)
  unfolding put_loop put_of
  put_loop_lem (missing i inside p e) = put_walk i inside p ∙ rw (not_occupied _ e)
  put_loop_lem (found i inside p o e) = put_walk i inside p ∙ rw (o, e)
  put_loop_lem (full p) =
      let i = hm.capacity - 1 in
      let last : suc i ≡ hm.capacity = omega (arith, lt) in
      let (o, e) = p i (omega (arith, lt)) in
      put_walk i (omega (arith, lt)) (λ j le. p j (omega (arith, le)))
      ∙ rw (o, e, back_at_start hm.capacity start lt i last)
