-- ===== src/Rtos/MsgQueue/Bytes.antt =====
-- Items in the buffer of bytes of a message queue.
use djiang_oss_public.Prelude.{
  ℕ, zero, suc, ◌+◌, ◌*◌, ◌^◌, ◌<◌, ◌≤◌, ◌≡◌, ◌≢◌, refl, ◌∙◌, ◌⊎◌, inl, inr, List, [], ◌∷◌, arith,
  length, update, update_self, update-ne, Bool-cases, ltb, ltb→lt,
}
use native.Mathlib.Nat.{mod-eq_of_lt, mul-le-mul_right}
use djiang_oss_public.Rtos.MsgQueue.{memcpy_in, memcpy_out, offset}

-- A copy changes the bytes of its own range alone.
memcpy_in-outside :
    (off : ℕ) (xs : List ℕ) (b : ℕ → ℕ) (i : ℕ)
    → (i < off) ⊎ (off + length xs ≤ i)
    → memcpy_in off xs b i ≡ b i
memcpy_in-outside off [] b i o = refl
memcpy_in-outside off (x ∷ xs) b i o =
    memcpy_in-outside (suc off) xs (update b off x) i (beyond o) ∙ update-ne b off i x (apart o)
  where
    beyond : (i < off) ⊎ (off + length (x ∷ xs) ≤ i) → (i < suc off) ⊎ (suc off + length xs ≤ i)
    beyond (inl lt) = inl (omega arith)
    beyond (inr le) = inr (omega arith)

    apart : (i < off) ⊎ (off + length (x ∷ xs) ≤ i) → off ≢ i
    apart (inl lt) e = omega arith
    apart (inr le) e = omega arith

-- Reading depends on the bytes read.
memcpy_out-same :
    (off n : ℕ) (b b' : ℕ → ℕ)
    → ((i : ℕ) → off ≤ i → i < off + n → b i ≡ b' i)
    → memcpy_out off n b ≡ memcpy_out off n b'
memcpy_out-same off zero b b' e = refl
memcpy_out-same off (suc n) b b' e = λ i.
    e off (omega arith) (omega arith) i
    ∷ memcpy_out-same (suc off) n b b' (λ j le lt. e j (omega arith) (omega arith)) i

pub memcpy_out-in :
    (off : ℕ) (xs : List ℕ) (b : ℕ → ℕ) → memcpy_out off (length xs) (memcpy_in off xs b) ≡ xs
memcpy_out-in off [] b = refl
memcpy_out-in off (x ∷ xs) b = λ i.
    (memcpy_in-outside (suc off) xs (update b off x) off (inl (omega arith)) ∙ update_self b off x)
      i
    ∷ memcpy_out-in (suc off) xs (update b off x) i

module _ (size cap : ℕ) (fits : cap * size < 2 ^ 64) where
  scaled : (i : ℕ) → i < cap → i * size ≤ cap * size
  scaled i lt = mul-le-mul_right {m = i} {n = cap} size (omega arith)

  pub offset_lem : (i : ℕ) → i < cap → offset size i ≡ i * size
  offset_lem i lt = mod-eq_of_lt (omega (arith, fits, scaled i lt))

  -- A slot is not changed by what is stored in another.
  pub slot-ne :
      (i j : ℕ) (item : List ℕ) (b : ℕ → ℕ)
      → i < cap
      → j < cap
      → i ≢ j
      → length item ≡ size
      → memcpy_out (offset size j) size (memcpy_in (offset size i) item b)
        ≡ memcpy_out (offset size j) size b
  slot-ne i j item b lt lt' ne e =
      memcpy_out-same (offset size j) size (memcpy_in (offset size i) item b) b
        (λ x le lx. memcpy_in-outside (offset size i) item b x (outside x le lx))
    where
      outside :
          (x : ℕ)
          → offset size j ≤ x
          → x < offset size j + size
          → (x < offset size i) ⊎ (offset size i + length item ≤ x)
      outside x le lx =
          let a = offset_lem i lt in
          let c = offset_lem j lt' in
          elim (Bool-cases (ltb i j)) [
            | inl f ↦
                inr
                  (omega (arith, a, c, e, mul-le-mul_right {m = suc i} {n = j} size (ltb→lt i j f)))
            | inr f ↦
                inl
                  (omega (arith, a, c, e, mul-le-mul_right {m = suc j} {n = i} size (ground arith)))
          ]
