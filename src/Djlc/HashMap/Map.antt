-- ===== src/Djlc/HashMap/Map.antt =====
-- The hash map is a finite map from keys to values.
use native.Mathlib.Nat.{mod-lt}
use djiang_oss_public.Prelude.{
  ℕ, zero, suc, ◌+◌, ◌*◌, ◌^◌, ◌<◌, ◌≡◌, ◌≢◌, refl, sym, ap, ◌∙◌, inl, inr, Bool, true, false,
  Option, none, some, arith, ==_ne, eq_cases, update, update_self, update-ne,
}
use djiang_oss_public.Counts.{count, count-same, count-less, count-all}
use djiang_oss_public.Prelude.Int.{ℤ, eqb_ℤ, eqb_ℤ→eq}
use djiang_oss_public.Djlc.HashMap.{
  occupied, is_empty, is_occupied, Entry, HashMap, scramble, hm_hash, hm_init, is_loaded, hm_put,
  hm_get, fill, overwrite, zeroed,
}
use djiang_oss_public.Djlc.HashMap.Probe.{
  slot, slot_lt, slot_onto, Passed, Outcome, missing, found, full, value_of, entry_at, search_from,
}
use djiang_oss_public.Djlc.HashMap.Get.{not_occupied, hm_get_outcome}
use djiang_oss_public.Djlc.HashMap.Put.{put_of, put_loop_lem}
use djiang_oss_public.Djlc.HashMap.Put.Laws.{
  IsTable, start_of, target, own_get, other_get, after_IsTable,
}

-- `hm'` is the map `hm`, in which the key had the value `old`, with the key put to a value.
pub record HasPut (hm : HashMap) (key value : ℤ) (old : Option ℤ) (hm' : HashMap) : Type 0 where
  pub table : IsTable hm'
  pub before : hm_get hm key ≡ some old
  pub own : hm_get hm' key ≡ some (some value)
  pub others : (key' : ℤ) → key ≢ key' → hm_get hm' key' ≡ hm_get hm key'
  pub size : hm'.size ≡ (elim old [ none ↦ hm.size + 1 | some v ↦ hm.size ])
  pub capacity : hm'.capacity ≡ hm.capacity

module _ (hm : HashMap) (v : IsTable hm) (key value : ℤ) where
  fill-HasPut :
      (i : ℕ) (lt : i < hm.capacity) (p : Passed hm (start_of hm key) key i)
      → is_empty (entry_at hm (start_of hm key) key i).state ≡ true
      → HasPut hm key value none (fill (slot hm.capacity (start_of hm key) i) key value hm)
  unfolding fill value_of
  fill-HasPut i lt p free =
      let new : Entry = record { key = key; value = value; state = occupied } in
      let t = target hm v key i lt p new (hm.size + 1) refl refl in
      let more =
        count-less (λ j. is_occupied (update hm.entries t new j).state)
          (λ j. is_occupied (hm.entries j).state) t hm.capacity
          (slot_lt hm.capacity (start_of hm key) (mod-lt (scramble key) v.room) i)
          (ap (λ d. is_occupied d.state) (update_self hm.entries t new)) (not_occupied _ free)
          (λ j le ne.
            ap (λ d. is_occupied d.state) (update-ne hm.entries t j new (λ q. ne (sym q)))) in
      record {
        table =
            after_IsTable hm v key i lt p new (hm.size + 1) refl refl
              (omega (arith, v.counted, more));
        before = hm_get_outcome hm key v.room (missing i lt p free);
        own = own_get hm v key i lt p new (hm.size + 1) refl refl;
        others = other_get hm v key i lt p new (hm.size + 1) refl refl (inl free);
        size = refl;
        capacity = refl;
      }

  overwrite-HasPut :
      (i : ℕ) (lt : i < hm.capacity) (p : Passed hm (start_of hm key) key i)
      → is_occupied (entry_at hm (start_of hm key) key i).state ≡ true
      → eqb_ℤ (entry_at hm (start_of hm key) key i).key key ≡ true
      → (old : Option ℤ) × HasPut hm key value old
          (overwrite (slot hm.capacity (start_of hm key) i) value hm)
  unfolding overwrite value_of
  overwrite-HasPut i lt p o e =
      let old = entry_at hm (start_of hm key) key i in
      let new : Entry = record { key = old.key; value = value; state = old.state } in
      let same_key = eqb_ℤ→eq old.key key e in
      let t = target hm v key i lt p new hm.size o same_key in
      let as_many =
        count-same (λ j. is_occupied (hm.entries j).state)
          (λ j. is_occupied (update hm.entries t new j).state) hm.capacity
          (λ j le. elim (eq_cases t j) [
            | inl q ↦
                ap (λ k. is_occupied (hm.entries k).state) (sym q)
                ∙ ap (λ d. is_occupied d.state)
                    (sym (update_self hm.entries t new) ∙ ap (update hm.entries t new) q)
            | inr ne ↦ ap (λ d. is_occupied d.state) (sym (update-ne hm.entries t j new ne))
          ]) in
      (
        some old.value,
        record {
          table = after_IsTable hm v key i lt p new hm.size o same_key (v.counted ∙ as_many);
          before = hm_get_outcome hm key v.room (found i lt p o e);
          own = own_get hm v key i lt p new hm.size o same_key;
          others = other_get hm v key i lt p new hm.size o same_key (inr e);
          size = refl;
          capacity = refl;
        },
      )

  not_full : is_loaded hm ≡ false → Passed hm (start_of hm key) key hm.capacity → ⊥
  not_full light p =
      let start = start_of hm key in
      let all =
        count-all (λ j. is_occupied (hm.entries j).state) hm.capacity
          (λ j le.
            let (i, lt, at) = slot_onto hm.capacity start (mod-lt (scramble key) v.room) j le in
            ap (λ k. is_occupied (hm.entries k).state) (sym at) ∙ (p i lt).0) in
      absurd (ground (arith, v.counted, all, v.room, v.small))

  put_outcome :
      is_loaded hm ≡ false
      → (o : Outcome hm (start_of hm key) key)
      → (old : Option ℤ) × (hm' : HashMap) × (put_of hm (start_of hm key) key value o ≡ (true, hm'))
        × HasPut hm key value old hm'
  unfolding put_of
  put_outcome light (missing i lt p e) =
      (none, fill (slot hm.capacity (start_of hm key) i) key value hm, refl, fill-HasPut i lt p e)
  put_outcome light (found i lt p o e) =
      let (old, put) = overwrite-HasPut i lt p o e in
      (old, overwrite (slot hm.capacity (start_of hm key) i) value hm, refl, put)
  put_outcome light (full p) = absurd (not_full light p)

  -- Putting a value for a key into a well-formed map that holds fewer entries than three quarters
  -- of its capacity succeeds and keeps it well-formed; searching then finds the value under the key
  -- and under every other key what it found before, and the size has grown by one exactly if the
  -- key was not there.
  pub hm_put_lem :
      is_loaded hm ≡ false
      → (old : Option ℤ) × (hm' : HashMap) × (hm_put hm key value ≡ some (true, hm'))
        × HasPut hm key value old hm'
  unfolding hm_put hm_hash
  hm_put_lem light =
      let start = start_of hm key in
      let lt = mod-lt (scramble key) v.room in
      let o =
        search_from hm start key hm.capacity 0 (omega arith) v.alive
          (λ j le. absurd (omega arith)) in
      let (old, hm', put, done) = put_outcome light o in
      (
        old,
        hm',
        rw
            (
              light,
              ==_ne hm.capacity 0 (λ e. omega (arith, v.room, e)),
              put_loop_lem hm start key value lt o,
            )
            (ap some put),
        done,
      )

-- A map that holds three quarters of its capacity or more refuses every key, also one that it holds,
-- and stays as it is.
hm_put-loaded :
    (hm : HashMap) (key value : ℤ) → is_loaded hm ≡ true → hm_put hm key value ≡ some (false, hm)
unfolding hm_put
hm_put-loaded hm key value heavy = rw heavy

count-none : (t : ℕ → Bool) (n : ℕ) → ((i : ℕ) → t i ≡ false) → count t n ≡ 0
count-none t zero e = refl
count-none t (suc n) e = rw (e n) (omega (arith, count-none t n e))

-- A map of at least one entry whose allocation succeeds, of a capacity that fits a third of a
-- `size_t`, is well-formed and has no key.
hm_init_lem :
    (capacity : ℕ) (hm : HashMap)
    → 0 < capacity
    → capacity * 3 < 2 ^ 64
    → (hm' : HashMap) × (hm_init true capacity hm ≡ (true, hm'))
      × IsTable hm'
      × ((key : ℤ) → hm_get hm' key ≡ some none)
unfolding hm_init value_of
hm_init_lem capacity hm room small =
    let hm' : HashMap = record { entries = λ i. zeroed; capacity = capacity; size = 0 } in
    (
      hm',
      refl,
      record {
        room = room;
        small = small;
        alive = λ j e. cc;
        counted = sym (count-none _ capacity (λ i. refl));
        probed = λ key i lt o e j le. cc;
      },
      λ key. hm_get_outcome hm' key room (missing 0 room (λ j le. absurd (omega arith)) refl),
    )
