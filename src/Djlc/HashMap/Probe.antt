-- ===== src/Djlc/HashMap/Probe.antt =====
-- The sequence of entries that a search visits, and what it can end with.
use native.Mathlib.Nat.{mod-add-mod, mod-lt, add-mod_right, mod-eq_of_lt}
use djiang_oss_public.Prelude.{
  ℕ, zero, suc, ◌+◌, ◌-◌, ◌%◌, ◌<◌, ◌≡◌, ◌≢◌, refl, sym, ap, subst, ◌∙◌, inl, inr, true, false,
  Option, none, some, arith, leb, ◌==◌, ==_refl, ==_ne, eq_cases, Bool-cases,
}
use djiang_oss_public.Prelude.Int.{ℤ, eqb_ℤ}
use djiang_oss_public.Rings.{wrap-mod, wrap_ne}
use djiang_oss_public.Djlc.HashMap.{
  State, empty, occupied, deleted, is_empty, is_occupied, Entry, HashMap,
}

-- The i-th entry of the sequence.
abbrev pub slot : ℕ → ℕ → ℕ → ℕ
slot cap start i = (start + i) % cap

module _ (cap start : ℕ) (lt : start < cap) where
  pub slot_lt : (i : ℕ) → slot cap start i < cap
  slot_lt i = mod-lt (start + i) (omega (arith, lt))

  pub slot_first : slot cap start 0 ≡ start
  slot_first = ap (λ (t : ℕ). t % cap) (omega arith) ∙ mod-eq_of_lt lt

  pub slot_next : (i : ℕ) → (slot cap start i + 1) % cap ≡ slot cap start (i + 1)
  slot_next i = mod-add-mod (start + i) cap 1 ∙ ap (λ (t : ℕ). t % cap) (omega arith)

  pub slot_ne : (i j : ℕ) → i < j → j < cap → slot cap start i ≢ slot cap start j
  slot_ne i j p q e = wrap_ne cap start i j lt p q (
      sym (wrap-mod cap (start + i) (omega (arith, lt, p, q)))
      ∙ e
      ∙ wrap-mod cap (start + j) (omega (arith, lt, q)))

  pub slot_unique : (i j : ℕ) → i < cap → j < cap → slot cap start i ≡ slot cap start j → i ≡ j
  slot_unique i j p q e = elim (eq_cases i j) [
    | inl same ↦ same
    | inr ne ↦ elim (Bool-cases (leb i j)) [
      | inl le ↦ absurd (slot_ne i j (ground arith) q e)
      | inr gt ↦ absurd (slot_ne j i (ground arith) p (sym e))
    ]
  ]

  -- The sequence comes to every entry.
  pub slot_onto : (j : ℕ) → j < cap → (i : ℕ) × (i < cap) × (slot cap start i ≡ j)
  slot_onto j q = elim (Bool-cases (leb start j)) [
    | inl le ↦
        (j - start, omega (arith, q), ap (λ (t : ℕ). t % cap) (ground arith) ∙ mod-eq_of_lt q)
    | inr gt ↦ (
      j + cap - start,
      ground arith,
      ap (λ (t : ℕ). t % cap) (ground arith) ∙ add-mod_right j cap ∙ mod-eq_of_lt q,
    )
  ]

  -- After the last entry the sequence is back at its start, and not before.
  pub back_at_start : (i : ℕ) → suc i ≡ cap → ((slot cap start i + 1) % cap == start) ≡ true
  back_at_start i e =
      let last : slot cap start (i + 1) ≡ start =
        ap (λ (t : ℕ). t % cap) (omega (arith, e)) ∙ add-mod_right start cap ∙ mod-eq_of_lt lt in
      ap (λ s. s == start) (slot_next i ∙ last) ∙ ==_refl start

  pub not_yet : (i : ℕ) → suc i < cap → ((slot cap start i + 1) % cap == start) ≡ false
  not_yet i p =
      ==_ne _ start
        (λ e. slot_ne 0 (i + 1) (omega arith) (omega (arith, p)) (slot_first ∙ sym e ∙ slot_next i))

occupied_state : (s : State) → s ≢ deleted → is_empty s ≡ false → is_occupied s ≡ true
occupied_state empty ne e = cc
occupied_state occupied ne e = refl
occupied_state deleted ne e = absurd (ne refl)

module _ (hm : HashMap) (start : ℕ) (key : ℤ) where
  abbrev pub entry_at : ℕ → Entry
  entry_at i = hm.entries (slot hm.capacity start i)

  -- The first `i` entries hold other keys.
  abbrev pub Passed : ℕ → Type 0
  Passed i =
      (j : ℕ)
      → j < i
      → (is_occupied (entry_at j).state ≡ true) × (eqb_ℤ (entry_at j).key key ≡ false)

  -- A search ends at an empty entry, at one with the key, or after all entries.
  pub data Outcome : Type 0 where
    missing : (i : ℕ) → i < hm.capacity → Passed i → is_empty (entry_at i).state ≡ true → Outcome
    found :
        (i : ℕ)
        → i < hm.capacity
        → Passed i
        → is_occupied (entry_at i).state ≡ true
        → eqb_ℤ (entry_at i).key key ≡ true
        → Outcome
    full : Passed hm.capacity → Outcome

  unfoldable pub value_of : Outcome → Option ℤ
  value_of (missing i lt p e) = none
  value_of (found i lt p o e) = some (entry_at i).value
  value_of (full p) = none

  Passed-suc :
      (i : ℕ)
      → Passed i
      → is_occupied (entry_at i).state ≡ true
      → eqb_ℤ (entry_at i).key key ≡ false
      → Passed (suc i)
  Passed-suc i p o e j lt = elim (eq_cases j i) [
    | inl same ↦ rw same (o, e)
    | inr ne ↦ p j (omega (arith, lt, ne))
  ]

  pub search_from :
      (n i : ℕ)
      → i + n ≡ hm.capacity
      → ((j : ℕ) → (hm.entries j).state ≢ deleted)
      → Passed i
      → Outcome
  search_from zero i e alive p =
      let all : i ≡ hm.capacity = omega (arith, e) in full (subst Passed all p)
  search_from (suc n) i e alive p = elim (Bool-cases (is_empty (entry_at i).state)) [
    | inl free ↦ missing i (omega (arith, e)) p free
    | inr taken ↦
        let o = occupied_state (entry_at i).state (alive (slot hm.capacity start i)) taken in
        elim (Bool-cases (eqb_ℤ (entry_at i).key key)) [
          | inl same ↦ found i (omega (arith, e)) p o same
          | inr other ↦ search_from n (suc i) (omega (arith, e)) alive (Passed-suc i p o other)
        ]
  ]
