-- ===== src/Djlc/HashMap/Get.antt =====
-- What a search of the hash map returns.
use native.Mathlib.Nat.{mod-lt}
use djiang_oss_public.Prelude.{
  ℕ, zero, suc, ◌+◌, ◌-◌, ◌%◌, ◌<◌, ◌≡◌, refl, sym, ◌∙◌, true, false, some, arith, ==_ne,
}
use djiang_oss_public.Prelude.Int.{ℤ, eqb_ℤ}
use djiang_oss_public.Djlc.HashMap.{
  State, empty, occupied, deleted, is_empty, is_occupied, HashMap, get_loop, hm_get, hm_hash,
  scramble,
}
use djiang_oss_public.Djlc.HashMap.Probe.{
  slot, slot_first, slot_next, not_yet, back_at_start, Passed, Outcome, missing, found, full,
  value_of, entry_at,
}

-- An occupied entry is not empty.
not_empty : (s : State) → is_occupied s ≡ true → is_empty s ≡ false
not_empty empty o = cc
not_empty occupied o = refl
not_empty deleted o = refl

pub not_occupied : (s : State) → is_empty s ≡ true → is_occupied s ≡ false
not_occupied empty e = refl
not_occupied occupied e = cc
not_occupied deleted e = cc

module _ (hm : HashMap) (start : ℕ) (key : ℤ) (lt : start < hm.capacity) where
  -- One round at an entry that holds another key.
  get_step :
      (fuel i : ℕ)
      → is_occupied (entry_at hm start key i).state ≡ true
      → eqb_ℤ (entry_at hm start key i).key key ≡ false
      → suc i < hm.capacity
      → get_loop (suc fuel) (slot hm.capacity start i) start key hm
        ≡ get_loop fuel (slot hm.capacity start (i + 1)) start key hm
  unfolding get_loop
  get_step fuel i o e more =
      rw
        (not_empty _ o, o, e, not_yet hm.capacity start lt i more, slot_next hm.capacity start lt i)

  -- After the first `j` entries, which hold other keys, the search stands at the next one.
  get_walk :
      (j : ℕ)
      → j < hm.capacity
      → Passed hm start key j
      → get_loop hm.capacity start start key hm
        ≡ get_loop (suc (hm.capacity - suc j)) (slot hm.capacity start j) start key hm
  get_walk zero inside p =
      let fuel : hm.capacity ≡ suc (hm.capacity - 1) = omega (arith, inside) in
      λ k. get_loop (fuel k) (sym (slot_first hm.capacity start lt) k) start key hm
  get_walk (suc j) inside p =
      let fuel : hm.capacity - suc j ≡ suc (hm.capacity - suc (suc j)) = omega (arith, inside) in
      let next : j + 1 ≡ suc j = omega arith in
      get_walk j (omega (arith, inside)) (λ i le. p i (omega (arith, le)))
      ∙ get_step (hm.capacity - suc j) j (p j (omega arith)).0 (p j (omega arith)).1 inside
      ∙ (λ k. get_loop (fuel k) (slot hm.capacity start (next k)) start key hm)

  -- The search returns the value that its outcome tells.
  get_loop_lem :
      (o : Outcome hm start key)
      → get_loop hm.capacity start start key hm ≡ some (value_of hm start key o)
  unfolding get_loop value_of
  get_loop_lem (missing i inside p e) = get_walk i inside p ∙ rw e
  get_loop_lem (found i inside p o e) = get_walk i inside p ∙ rw (not_empty _ o, o, e)
  get_loop_lem (full p) =
      let i = hm.capacity - 1 in
      let last : suc i ≡ hm.capacity = omega (arith, lt) in
      let (o, e) = p i (omega (arith, lt)) in
      get_walk i (omega (arith, lt)) (λ j le. p j (omega (arith, le)))
      ∙ rw (not_empty _ o, o, e, back_at_start hm.capacity start lt i last)

-- Searching for a key, in a map of at least one entry, ends, and returns what its outcome tells.
pub hm_get_outcome :
    (hm : HashMap) (key : ℤ)
    → 0 < hm.capacity
    → (o : Outcome hm (scramble key % hm.capacity) key)
    → hm_get hm key ≡ some (value_of hm (scramble key % hm.capacity) key o)
unfolding hm_get hm_hash
hm_get_outcome hm key pos o =
    rw (==_ne hm.capacity 0 (λ e. omega (arith, pos, e)))
      (get_loop_lem hm (scramble key % hm.capacity) key (mod-lt (scramble key) pos) o)
