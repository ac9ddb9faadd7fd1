-- ===== src/Djlc/Deque/Push.antt =====
-- Pushing, with the growth of a full array.
use djiang_oss_public.Prelude.{
  ℕ, zero, suc, ◌+◌, ◌*◌, ◌%◌, ◌^◌, ◌<◌, ◌≤◌, ◌≡◌, refl, sym, ap, subst, ◌∙◌, ◌⊎◌, inl, inr, Bool,
  true, Option, some, List, [], ◌∷◌, ◌++◌, arith, update_self, update-ne, ltb, ltb→lt, eq_cases,
  Bool-cases, ◌>>=◌, >>=-some,
}
use djiang_oss_public.Prelude.Int.{ℤ}
use djiang_oss_public.Rings.{wrap-mod, wrap_small, window-match}
use djiang_oss_public.Djlc.Deque.{
  Deque, copy_cells, grow, store_back, store_front, push_with, deque_push_back, deque_push_front,
}
use djiang_oss_public.Djlc.Deque.Items.{IsDeque, elements, store_back_lem, store_front_lem}

-- A copied cell.
copy_cells-get :
    (shift n i : ℕ) (dq : Deque) (memory : ℕ → ℤ)
    → i < n
    → copy_cells shift n dq memory (shift + i) ≡ dq.data_of ((dq.front + i) % dq.capacity)
copy_cells-get shift zero i dq memory lt = absurd (omega arith)
copy_cells-get shift (suc n) i dq memory lt = elim (eq_cases n i) [
  | inl e ↦
      ap (copy_cells shift (suc n) dq memory) (omega arith)
      ∙ update_self (copy_cells shift n dq memory) (n + shift) _
      ∙ ap (λ j. dq.data_of ((dq.front + j) % dq.capacity)) e
  | inr ne ↦
      update-ne (copy_cells shift n dq memory) (n + shift) (shift + i) _ (λ f. ne (omega arith))
      ∙ copy_cells-get shift n i dq memory (omega arith)
]

-- The array has room for another element; growing from one cell leaves none behind a gap of one.
abbrev pub Roomy : ℕ → Deque → Type 0
Roomy shift dq = shift + dq.capacity < dq.capacity * 2

module _ (dq : Deque) (v : IsDeque dq) where
  grow_lem :
      (shift : ℕ) (memory : ℕ → ℤ)
      → Roomy shift dq
      → IsDeque (grow shift memory dq) × (elements (grow shift memory dq) ≡ elements dq)
  unfolding grow
  grow_lem shift memory room = (
    record {
      room = omega arith;
      filled = omega (arith, v.filled);
      inside = omega arith;
      ends =
          omega arith
          ∙ sym (wrap_small (dq.capacity * 2) (shift + dq.size) (omega (arith, v.filled)));
    },
    window-match (dq.capacity * 2) dq.capacity (copy_cells shift dq.size dq memory) dq.data_of shift
        dq.front dq.size
        (λ i lt.
          ap (copy_cells shift dq.size dq memory)
            (wrap_small (dq.capacity * 2) (shift + i) (omega (arith, v.filled)))
          ∙ copy_cells-get shift dq.size i dq memory lt
          ∙ ap dq.data_of
              (wrap-mod dq.capacity (dq.front + i) (omega (arith, v.inside, v.filled)))),
  )

grown_room :
    (shift : ℕ) (memory : ℕ → ℤ) (dq : Deque)
    → IsDeque dq
    → Roomy shift dq
    → (grow shift memory dq).size < (grow shift memory dq).capacity
unfolding grow
grown_room shift memory dq v room = omega (arith, v.filled)

grown_low :
    (shift : ℕ) (memory : ℕ → ℤ) (dq : Deque) (limit : ℕ)
    → dq.capacity * 2 ≤ limit
    → (grow shift memory dq).capacity ≤ limit
unfolding grow
grown_low shift memory dq limit low = low

-- A deque that has room, or can grow: the allocation succeeds, the new capacity is an `int`, and
-- the gap in front of the elements leaves room behind them.
abbrev pub CanPush : ℕ → Bool → Deque → Type 0
CanPush shift allocated dq =
    (dq.size < dq.capacity) ⊎ ((allocated ≡ true) × (dq.capacity * 2 < 2 ^ 31) × Roomy shift dq)

module _ (shift limit : ℕ) (store : Deque → Option Deque) (put : List ℤ → List ℤ)
    (store_lem : (d : Deque)
      → IsDeque d
      → d.size < d.capacity
      → d.capacity ≤ limit
      → (d' : Deque) × (store d ≡ some d') × IsDeque d' × (elements d' ≡ put (elements d))) where
  push_room :
      (allocated : Bool) (memory : ℕ → ℤ) (dq : Deque)
      → dq.size < dq.capacity
      → push_with shift store allocated memory dq ≡ (store dq >>= λ dq'. some (true, dq'))
  push_room allocated memory dq lt = ground arith

  push_grown :
      (memory : ℕ → ℤ) (dq : Deque)
      → dq.capacity ≤ dq.size
      → dq.capacity * 2 < 2 ^ 31
      → push_with shift store true memory dq
        ≡ (store (grow shift memory dq) >>= λ dq'. some (true, dq'))
  push_grown memory dq le lt = ground arith

  push_in_place :
      (allocated : Bool) (memory : ℕ → ℤ) (dq : Deque)
      → IsDeque dq
      → dq.size < dq.capacity
      → dq.capacity ≤ limit
      → (dq' : Deque) × (push_with shift store allocated memory dq ≡ some (true, dq'))
        × IsDeque dq'
        × (elements dq' ≡ put (elements dq))
  push_in_place allocated memory dq v lt low =
      let (dq', e, v', i) = store_lem dq v lt low in
      (dq', push_room allocated memory dq lt ∙ >>=-some _ e refl, v', i)

  push_with_lem :
      (allocated : Bool) (memory : ℕ → ℤ) (dq : Deque)
      → IsDeque dq
      → CanPush shift allocated dq
      → dq.capacity * 2 ≤ limit
      → (dq' : Deque) × (push_with shift store allocated memory dq ≡ some (true, dq'))
        × IsDeque dq'
        × (elements dq' ≡ put (elements dq))
  push_with_lem allocated memory dq v (inl lt) low =
      push_in_place allocated memory dq v lt (omega (arith, low))
  push_with_lem allocated memory dq v (inr (ok, small, room)) low =
      elim (Bool-cases (ltb dq.size dq.capacity)) [
        | inl lt ↦
            push_in_place allocated memory dq v (ltb→lt dq.size dq.capacity lt) (omega (arith, low))
        | inr ge ↦
            let (vg, ig) = grow_lem dq v shift memory room in
            let (dq', e, v', i) =
              store_lem (grow shift memory dq) vg (grown_room shift memory dq v room)
                (grown_low shift memory dq limit low) in
            (
              dq',
              subst (λ b. push_with shift store b memory dq ≡ some (true, dq')) (sym ok)
                  (push_grown memory dq (ground arith) small ∙ >>=-some _ e refl),
              v',
              i ∙ ap put ig,
            )
      ]

-- On a well-formed deque that has room, or that can double (an allocation that succeeds, a new
-- capacity below 2^31, and an array of at least one cell), pushing at the back succeeds, appends
-- the value, and keeps the deque well-formed.
pub deque_push_back_lem :
    (allocated : Bool) (memory : ℕ → ℤ) (val : ℤ) (dq : Deque)
    → IsDeque dq
    → CanPush 0 allocated dq
    → (dq' : Deque) × (deque_push_back allocated memory val dq ≡ some (true, dq'))
      × IsDeque dq'
      × (elements dq' ≡ elements dq ++ val ∷ [])
unfolding deque_push_back
deque_push_back_lem allocated memory val dq v can =
    push_with_lem 0 (dq.capacity * 2) (store_back val) (λ xs. xs ++ val ∷ [])
      (λ d vd lt low. store_back_lem d vd val lt) allocated memory dq v can (omega arith)

-- On a well-formed deque that has room, or that can double (an allocation that succeeds and an array
-- of at least two cells), and of a capacity whose double is at most 2^30, pushing at the front succeeds, puts the
-- value first, and keeps the deque well-formed.
deque_push_front_lem :
    (allocated : Bool) (memory : ℕ → ℤ) (val : ℤ) (dq : Deque)
    → IsDeque dq
    → CanPush 1 allocated dq
    → dq.capacity * 2 ≤ 2 ^ 30
    → (dq' : Deque) × (deque_push_front allocated memory val dq ≡ some (true, dq'))
      × IsDeque dq'
      × (elements dq' ≡ val ∷ elements dq)
unfolding deque_push_front
deque_push_front_lem allocated memory val dq v can low =
    push_with_lem 1 (2 ^ 30) (store_front val) (λ xs. val ∷ xs)
      (λ d vd lt small. store_front_lem d vd val lt small) allocated memory dq v can low
