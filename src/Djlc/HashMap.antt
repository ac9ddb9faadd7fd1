-- ===== src/Djlc/HashMap.antt =====
-- djlc/include/hashmap_int.h: a hash map from `int` to `int` by open addressing with linear probing.
-- The entries are a function of the index; a remainder by zero is undefined: `none`, and so is a
-- loop that has no fuel left. There is no deletion, but the state for it is modelled.
pub mod Probe
pub mod Get
pub mod Put
pub mod Map
use Prim.Native.Nat.{bit_xor}
use djiang_oss_public.Prelude.{
  ℕ, zero, suc, ◌+◌, ◌-◌, ◌*◌, ◌/◌, ◌%◌, ◌^◌, Bool, true, false, ◌&&◌, Option, none, some, leb,
  ◌==◌, if◌then◌else◌, update, ◌>>=◌,
}
use djiang_oss_public.Prelude.Int.{ℤ, pos, negsuc, eqb_ℤ}

pub data State : Type 0 where
  empty occupied deleted : State

abbrev pub is_empty : State → Bool
is_empty empty = true
is_empty occupied = false
is_empty deleted = false

abbrev pub is_occupied : State → Bool
is_occupied empty = false
is_occupied occupied = true
is_occupied deleted = false

-- `djlc_hm_entry_t`
pub record Entry : Type 0 where
  pub key : ℤ
  pub value : ℤ
  pub state : State

-- `djlc_hashmap_int_t`
pub record HashMap : Type 0 where
  pub entries : ℕ → Entry
  pub capacity : ℕ
  pub size : ℕ

abbrev pub zeroed : Entry
zeroed = record { key = pos 0; value = pos 0; state = empty }

-- Whether `calloc` succeeds is an argument. The array's pointer is not represented, which is NULL
-- after a failure and after `djlc_hm_free`.
unfoldable pub hm_init : Bool → ℕ → HashMap → Bool × HashMap
hm_init allocated capacity hm =
    if allocated
    then (true, record { entries = λ i. zeroed; capacity = capacity; size = 0 })
    else (false, hm)

unfoldable pub hm_free : HashMap → HashMap
hm_free hm = record hm { capacity = 0; size = 0 }

-- `(uint32_t)key`
unfoldable pub to_u32 : ℤ → ℕ
to_u32 (pos n) = n % 2 ^ 32
to_u32 (negsuc n) = 2 ^ 32 - 1 - n % 2 ^ 32

-- `((k >> 16) ^ k) * 0x45d9f3b`
unfoldable pub mix : ℕ → ℕ
mix k = bit_xor (k / 2 ^ 16) k * 0x45d9f3b % 2 ^ 32

unfoldable pub scramble : ℤ → ℕ
unfolding to_u32 mix
scramble key = let k = mix (mix (to_u32 key)) in bit_xor (k / 2 ^ 16) k

unfoldable pub hm_hash : ℤ → ℕ → Option ℕ
hm_hash key capacity = if capacity == 0 then none else some (scramble key % capacity)

-- An entry that is free is filled.
unfoldable pub fill : ℕ → ℤ → ℤ → HashMap → HashMap
fill idx key value hm = record hm {
  entries = update hm.entries idx (record { key = key; value = value; state = occupied });
  size = hm.size + 1;
}

-- An entry of the same key gets the value.
unfoldable pub overwrite : ℕ → ℤ → HashMap → HashMap
overwrite idx value hm = record hm {
  entries = update hm.entries idx (record (hm.entries idx) { value = value });
}

unfoldable pub put_loop : ℕ → ℕ → ℕ → ℤ → ℤ → HashMap → Option (Bool × HashMap)
put_loop zero idx start key value hm = none
put_loop (suc fuel) idx start key value hm =
    let next = (idx + 1) % hm.capacity in
    let rest = put_loop fuel next start key value hm in
    if is_occupied (hm.entries idx).state
    then (if eqb_ℤ (hm.entries idx).key key
        then some (true, overwrite idx value hm)
        else if next == start
        then some (false, hm)
        else rest)
    else some (true, fill idx key value hm)

-- The product of `size_t`s wraps.
abbrev pub is_loaded : HashMap → Bool
is_loaded hm = leb (hm.capacity * 3 % 2 ^ 64 / 4) hm.size

unfoldable pub hm_put : HashMap → ℤ → ℤ → Option (Bool × HashMap)
hm_put hm key value =
    let probing = hm_hash key hm.capacity >>= λ idx. put_loop hm.capacity idx idx key value hm in
    if is_loaded hm then some (false, hm) else probing

-- The value where the key is found.
unfoldable pub get_loop : ℕ → ℕ → ℕ → ℤ → HashMap → Option (Option ℤ)
get_loop zero idx start key hm = none
get_loop (suc fuel) idx start key hm =
    let next = (idx + 1) % hm.capacity in
    let rest = get_loop fuel next start key hm in
    if is_empty (hm.entries idx).state
    then some none
    else if is_occupied (hm.entries idx).state && eqb_ℤ (hm.entries idx).key key
    then some (some (hm.entries idx).value)
    else if next == start
    then some none
    else rest

unfoldable pub hm_get : HashMap → ℤ → Option (Option ℤ)
hm_get hm key = hm_hash key hm.capacity >>= λ idx. get_loop hm.capacity idx idx key hm

unfoldable pub hm_contains : HashMap → ℤ → Option Bool
hm_contains hm key =
    hm_get hm key >>= λ found. elim found [ none ↦ some false | some v ↦ some true ]
