-- ===== src/Djlc/HashMap/Put/Placed.antt =====
-- A written entry, and what it does to the searches for other keys and for its own.
use djiang_oss_public.Prelude.{
  ℕ, ◌<◌, ◌≡◌, ◌≢◌, refl, sym, ap, ◌∙◌, ◌⊎◌, inl, inr, true, false, none, some, arith, ltb,
  Bool-cases, eq_cases, update, update_self, update-ne,
}
use djiang_oss_public.Prelude.Int.{ℤ, eqb_ℤ}
use djiang_oss_public.Djlc.HashMap.{deleted, is_empty, is_occupied, Entry, HashMap}
use djiang_oss_public.Djlc.HashMap.Probe.{
  slot, Passed, Outcome, missing, found, full, value_of, entry_at, search_from,
}
use djiang_oss_public.Djlc.HashMap.Get.{not_occupied}

-- The map after an entry has been written.
abbrev pub placed : ℕ → Entry → ℕ → HashMap → HashMap
placed t entry size hm = record hm { entries = update hm.entries t entry; size = size }

-- An entry of the key stands only behind occupied ones.
abbrev pub IsProbed : HashMap → (ℤ → ℕ) → Type 0
IsProbed hm start =
    (key : ℤ) (i : ℕ)
    → i < hm.capacity
    → is_occupied (entry_at hm (start key) key i).state ≡ true
    → eqb_ℤ (entry_at hm (start key) key i).key key ≡ true
    → (j : ℕ) → j < i
    → is_occupied (entry_at hm (start key) key j).state ≡ true

module _ (hm : HashMap) (t : ℕ) (new : Entry) (size : ℕ)
    (filled : is_occupied new.state ≡ true) where
  -- The searches for other keys.
  module _ (start : ℕ) (key : ℤ) (other : eqb_ℤ new.key key ≡ false) where
    Passed-placed : (i : ℕ) → Passed hm start key i → Passed (placed t new size hm) start key i
    Passed-placed i p j lt = elim (eq_cases t (slot hm.capacity start j)) [
      | inl same ↦
          let at : update hm.entries t new (slot hm.capacity start j) ≡ new =
            ap (update hm.entries t new) (sym same) ∙ update_self hm.entries t new in
          (ap (λ e. is_occupied e.state) at ∙ filled, ap (λ e. eqb_ℤ e.key key) at ∙ other)
      | inr ne ↦
          let at = update-ne hm.entries t (slot hm.capacity start j) new ne in
          (ap (λ e. is_occupied e.state) at ∙ (p j lt).0, ap (λ e. eqb_ℤ e.key key) at ∙ (p j lt).1)
    ]

    -- An entry that held the key is not the one written.
    not_written :
        (i : ℕ)
        → is_occupied (entry_at hm start key i).state ≡ true
        → eqb_ℤ (entry_at hm start key i).key key ≡ true
        → (is_empty (hm.entries t).state ≡ true) ⊎ (eqb_ℤ (hm.entries t).key key ≡ false)
        → t ≢ slot hm.capacity start i
    not_written i o e (inl free) same =
        let busy : is_occupied (hm.entries t).state ≡ true =
          ap (λ s. is_occupied (hm.entries s).state) same ∙ o in
        cc (not_occupied (hm.entries t).state free)
    not_written i o e (inr unlike) same =
        let like : eqb_ℤ (hm.entries t).key key ≡ true =
          ap (λ s. eqb_ℤ (hm.entries s).key key) same ∙ e in
        cc

    written_key :
        (i : ℕ)
        → t ≡ slot hm.capacity start i
        → eqb_ℤ (entry_at (placed t new size hm) start key i).key key ≡ false
    written_key i same =
        ap (λ s. eqb_ℤ (update hm.entries t new s).key key) (sym same)
        ∙ ap (λ d. eqb_ℤ d.key key) (update_self hm.entries t new)
        ∙ other

    -- A key that was missing is not in the new map either.
    no_key :
        (i : ℕ)
        → i < hm.capacity
        → Passed hm start key i
        → is_empty (entry_at hm start key i).state ≡ true
        → ((i : ℕ)
            → i < hm.capacity
            → is_occupied (entry_at hm start key i).state ≡ true
            → eqb_ℤ (entry_at hm start key i).key key ≡ true
            → (j : ℕ) → j < i
            → is_occupied (entry_at hm start key j).state ≡ true)
        → (j : ℕ) → j < hm.capacity
        → is_occupied (entry_at (placed t new size hm) start key j).state ≡ true
        → eqb_ℤ (entry_at (placed t new size hm) start key j).key key ≡ true
        → ⊥
    no_key i lt p free probed j lt' o e = elim (eq_cases t (slot hm.capacity start j)) [
      | inl same ↦ cc (written_key j same)
      | inr ne ↦
          let at = update-ne hm.entries t (slot hm.capacity start j) new ne in
          let old_o : is_occupied (entry_at hm start key j).state ≡ true =
            ap (λ d. is_occupied d.state) (sym at) ∙ o in
          let old_e : eqb_ℤ (entry_at hm start key j).key key ≡ true =
            ap (λ d. eqb_ℤ d.key key) (sym at) ∙ e in
          let idle = not_occupied (entry_at hm start key i).state free in
          elim (eq_cases j i) [
            | inl q ↦
                cc (idle, ap (λ k. is_occupied (entry_at hm start key k).state) (sym q) ∙ old_o)
            | inr n ↦ elim (Bool-cases (ltb j i)) [
              | inl before ↦ cc (p j (ground arith)).1
              | inr after ↦ cc (idle, probed j lt' old_o old_e i (ground arith))
            ]
          ]
    ]

    -- The search ends with the same value as before.
    pub placed_outcome :
        ((i : ℕ)
          → i < hm.capacity
          → is_occupied (entry_at hm start key i).state ≡ true
          → eqb_ℤ (entry_at hm start key i).key key ≡ true
          → (j : ℕ) → j < i
          → is_occupied (entry_at hm start key j).state ≡ true)
        → ((j : ℕ) → (update hm.entries t new j).state ≢ deleted)
        → (is_empty (hm.entries t).state ≡ true) ⊎ (eqb_ℤ (hm.entries t).key key ≡ false)
        → (o : Outcome hm start key)
        → (o' : Outcome (placed t new size hm) start key) × (value_of
              (placed t new size hm)
              start
              key
              o'
            ≡ value_of hm start key o)
    unfolding value_of
    placed_outcome probed alive old (full p) = (full (Passed-placed hm.capacity p), refl)
    placed_outcome probed alive old (found i lt p o e) =
        let ne = not_written i o e old in
        let at = update-ne hm.entries t (slot hm.capacity start i) new ne in
        (
          found i lt (Passed-placed i p) (ap (λ d. is_occupied d.state) at ∙ o)
              (ap (λ d. eqb_ℤ d.key key) at ∙ e),
          ap (λ d. some d.value) at,
        )
    placed_outcome probed alive old (missing i lt p free) = still_missing (
        search_from (placed t new size hm) start key hm.capacity 0 (omega arith) alive
          (λ j le. absurd (omega arith)))
      where
        still_missing :
            (o' : Outcome (placed t new size hm) start key)
            → (o'' : Outcome (placed t new size hm) start key) × (value_of
                  (placed t new size hm)
                  start
                  key
                  o''
                ≡ none)
        still_missing (missing j lt' p' free') = (missing j lt' p' free', refl)
        still_missing (full p') = (full p', refl)
        still_missing (found j lt' p' o e) = absurd (no_key i lt p free probed j lt' o e)
