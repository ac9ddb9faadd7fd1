-- ===== src/Djlc/HashMap/Put/Laws.antt =====
-- The hash map as a finite map: what putting does to every search.
use native.Mathlib.Nat.{mod-lt}
use djiang_oss_public.Prelude.{
  ℕ, ◌*◌, ◌%◌, ◌^◌, ◌<◌, ◌≡◌, ◌≢◌, sym, ap, ◌∙◌, ◌⊎◌, inl, inr, true, false, some, arith, eq_cases,
  update_self, update-ne,
}
use djiang_oss_public.Counts.{count}
use djiang_oss_public.Prelude.Int.{ℤ, eqb_ℤ, eqb_ℤ→eq, eqb_ℤ_refl, eqb_ℤ_ne}
use djiang_oss_public.Djlc.HashMap.{
  State, empty, occupied, deleted, is_empty, is_occupied, Entry, HashMap, scramble, hm_get,
}
use djiang_oss_public.Djlc.HashMap.Probe.{
  slot, slot_ne, slot_unique, Passed, Outcome, found, value_of, entry_at, search_from,
}
use djiang_oss_public.Djlc.HashMap.Get.{hm_get_outcome}
use djiang_oss_public.Djlc.HashMap.Put.Placed.{placed, IsProbed, placed_outcome}

abbrev pub start_of : HashMap → ℤ → ℕ
start_of hm key = scramble key % hm.capacity

-- A well-formed map: there are entries, three times their number fits a `size_t`, none is deleted,
-- the size counts the occupied ones, and a search for a key that is there finds it.
pub record IsTable (hm : HashMap) : Type 0 where
  pub room : 0 < hm.capacity
  pub small : hm.capacity * 3 < 2 ^ 64
  pub alive : (j : ℕ) → (hm.entries j).state ≢ deleted
  pub counted : hm.size ≡ count (λ i. is_occupied (hm.entries i).state) hm.capacity
  pub probed : IsProbed hm (start_of hm)

occupied_alive : (s : State) → is_occupied s ≡ true → s ≢ deleted
occupied_alive empty o e = cc
occupied_alive occupied o e = cc
occupied_alive deleted o e = cc

-- What an entry that is written with the key `key` must be: the first that is empty or has the key.
module _ (hm : HashMap) (v : IsTable hm) (key : ℤ) (i : ℕ) (lt : i < hm.capacity)
    (p : Passed hm (start_of hm key) key i) (new : Entry) (size : ℕ)
    (filled : is_occupied new.state ≡ true) (same_key : new.key ≡ key) where
  abbrev pub target : ℕ
  target = slot hm.capacity (start_of hm key) i

  abbrev pub after : HashMap
  after = placed target new size hm

  pub start_lt : start_of hm key < hm.capacity
  start_lt = mod-lt (scramble key) v.room

  own_Passed : Passed after (start_of hm key) key i
  own_Passed j le =
      let at =
        update-ne hm.entries target (slot hm.capacity (start_of hm key) j) new
          (λ q. slot_ne hm.capacity (start_of hm key) start_lt j i le lt (sym q)) in
      (ap (λ d. is_occupied d.state) at ∙ (p j le).0, ap (λ d. eqb_ℤ d.key key) at ∙ (p j le).1)

  own_outcome : Outcome after (start_of hm key) key
  own_outcome =
      let at = update_self hm.entries target new in
      found i lt own_Passed (ap (λ d. is_occupied d.state) at ∙ filled)
        (ap (λ d. eqb_ℤ d.key key) at ∙ ap (λ k. eqb_ℤ k key) same_key ∙ eqb_ℤ_refl key)

  pub own_get : hm_get after key ≡ some (some new.value)
  unfolding value_of own_outcome
  own_get =
      hm_get_outcome after key v.room own_outcome
      ∙ ap (λ d. some (some d.value)) (update_self hm.entries target new)

  after_alive : (j : ℕ) → (after.entries j).state ≢ deleted
  after_alive j e = elim (eq_cases target j) [
    | inl q ↦
        occupied_alive new.state filled
          (ap (λ d. d.state) (sym (update_self hm.entries target new) ∙ ap after.entries q) ∙ e)
    | inr ne ↦ v.alive j (sym (ap (λ d. d.state) (update-ne hm.entries target j new ne)) ∙ e)
  ]

  old_key :
      (is_empty (hm.entries target).state ≡ true) ⊎ (eqb_ℤ (hm.entries target).key key ≡ true)
      → (key' : ℤ) → key ≢ key'
      → (is_empty (hm.entries target).state ≡ true) ⊎ (eqb_ℤ (hm.entries target).key key' ≡ false)
  old_key (inl free) key' ne = inl free
  old_key (inr like) key' ne = inr (
      eqb_ℤ_ne (hm.entries target).key key'
        (λ e. ne (sym (eqb_ℤ→eq (hm.entries target).key key like) ∙ e)))

  pub other_get :
      (is_empty (hm.entries target).state ≡ true) ⊎ (eqb_ℤ (hm.entries target).key key ≡ true)
      → (key' : ℤ) → key ≢ key'
      → hm_get after key' ≡ hm_get hm key'
  other_get old key' ne =
      let o =
        search_from hm (start_of hm key') key' hm.capacity 0 (omega arith) v.alive
          (λ j le. absurd (omega arith)) in
      let unlike = eqb_ℤ_ne new.key key' (λ e. ne (sym same_key ∙ e)) in
      let (o', same) =
        placed_outcome hm target new size filled (start_of hm key') key' unlike (v.probed key')
          after_alive (old_key old key' ne) o in
      hm_get_outcome after key' v.room o' ∙ ap some same ∙ sym (hm_get_outcome hm key' v.room o)

  -- An old entry of the key is behind occupied ones.
  old_probed :
      (key' : ℤ) (j : ℕ)
      → j < hm.capacity
      → is_occupied (entry_at after (start_of hm key') key' j).state ≡ true
      → eqb_ℤ (entry_at after (start_of hm key') key' j).key key' ≡ true
      → (k : ℕ) → k < j
      → is_occupied (entry_at hm (start_of hm key') key' k).state ≡ true
  old_probed key' j le o e k lt' = elim (eq_cases target (slot hm.capacity (start_of hm key') j)) [
    | inl q ↦
        let at : after.entries (slot hm.capacity (start_of hm key') j) ≡ new =
          ap after.entries (sym q) ∙ update_self hm.entries target new in
        let like : key ≡ key' =
          sym same_key ∙ eqb_ℤ→eq new.key key' (ap (λ d. eqb_ℤ d.key key') (sym at) ∙ e) in
        let same : i ≡ j =
          slot_unique hm.capacity (start_of hm key) start_lt i j lt le
            (q ∙ ap (λ z. slot hm.capacity (start_of hm z) j) (sym like)) in
        ap (λ z. is_occupied (hm.entries (slot hm.capacity (start_of hm z) k)).state) (sym like)
        ∙ (p k (omega (arith, lt', same))).0
    | inr ne ↦
        let at = update-ne hm.entries target (slot hm.capacity (start_of hm key') j) new ne in
        v.probed key' j le (ap (λ d. is_occupied d.state) (sym at) ∙ o)
          (ap (λ d. eqb_ℤ d.key key') (sym at) ∙ e) k lt'
  ]

  after-IsProbed : IsProbed after (start_of hm)
  after-IsProbed key' j le o e k lt' =
      elim (eq_cases target (slot hm.capacity (start_of hm key') k)) [
        | inl q ↦
            ap (λ d. is_occupied d.state)
              (ap after.entries (sym q) ∙ update_self hm.entries target new)
            ∙ filled
        | inr ne ↦
            ap (λ d. is_occupied d.state)
              (update-ne hm.entries target (slot hm.capacity (start_of hm key') k) new ne)
            ∙ old_probed key' j le o e k lt'
      ]

  pub after_IsTable :
      size ≡ count (λ j. is_occupied (after.entries j).state) hm.capacity → IsTable after
  after_IsTable counted = record {
    room = v.room;
    small = v.small;
    alive = after_alive;
    counted = counted;
    probed = after-IsProbed;
  }
