-- ===== src/HashTable/Hash.antt =====
-- The hash functions of src/modules/ds/HashTable.c, for a little-endian machine with signed `char`s of 8
-- bits and an `unsigned long` of 64. Overflow of `int` is a fault.
pub mod Wrap
mod Tests
use gaveta.Base.{
  ℕ, zero, suc, ◌+◌, ◌-◌, ◌*◌, ◌/◌, ◌%◌, ◌^◌, Bool, true, false, ◌&&◌, List, [], ◌∷◌, ltb, leb,
  if◌then◌else◌, length, bit_or, bit_xor, Run, ok, fault, ◌>>=◌,
}
use gaveta.Heap.{Bytes}

-- A `char` converted to an unsigned type of `w` bits.
abbrev pub char_to : ℕ → ℕ → ℕ
char_to w b = if ltb b 128 then b else b + 2 ^ w - 256

pub djb2_loop : ℕ → Bytes → ℕ
djb2_loop hash [] = hash
djb2_loop hash (c ∷ str) =
    djb2_loop ((((hash * 2 ^ 5) % 2 ^ 64 + hash) % 2 ^ 64 + char_to 64 c) % 2 ^ 64) str

pub djb2 : Bytes → ℕ
djb2 str = djb2_loop 5381 str % 2 ^ 32

-- `m` of the polynomial hash.
abbrev pub modulus : ℕ
modulus = 1000000007

-- `(key[i] - 'a' + 1) * p_pow` on `int`, converted to `u32`.
pub poly_term : ℕ → ℕ → Run ℕ
poly_term c p_pow =
    if ltb 96 c && ltb c 128
    then (if ltb ((c - 96) * p_pow) (2 ^ 31) then ok ((c - 96) * p_pow) else fault)
    else let below : ℕ = (if ltb c 128 then 96 - c else 352 - c) in
      if leb (below * p_pow) (2 ^ 31) then ok ((2 ^ 32 - below * p_pow) % 2 ^ 32) else fault

pub poly_loop : (h_value p_pow : ℕ) → Bytes → Run ℕ
poly_loop h_value p_pow [] = ok h_value
poly_loop h_value p_pow (c ∷ key) = poly_term c p_pow >>= λ t.
    let rest = poly_loop ((h_value + t) % 2 ^ 32 % modulus) (p_pow * 31 % modulus) key in
    if ltb (p_pow * 31) (2 ^ 31) then rest else fault

pub polynomial_rolling_hash_fn : Bytes → Run ℕ
polynomial_rolling_hash_fn key = poly_loop 0 1 key

-- `(x << k) | (x >> (32 - k))`
abbrev pub rotate : ℕ → ℕ → ℕ
rotate x k = bit_or ((x * 2 ^ k) % 2 ^ 32) (x / 2 ^ (32 - k))

pub murmur_32_scramble : ℕ → ℕ
murmur_32_scramble k =
    let k1 : ℕ = (k * 3432918353) % 2 ^ 32 in let k2 : ℕ = rotate k1 15 in (k2 * 461845907) % 2 ^ 32

abbrev pub mix : ℕ → ℕ → ℕ
mix h k = (rotate (bit_xor h (murmur_32_scramble k)) 13 * 5 + 3864292196) % 2 ^ 32

-- The loop over groups of 4 bytes: the hash, and the bytes left.
pub murmur_blocks : ℕ → Bytes → ℕ × Bytes
murmur_blocks h (a ∷ b ∷ c ∷ d ∷ key) =
    murmur_blocks (mix h (a + 2 ^ 8 * b + 2 ^ 16 * c + 2 ^ 24 * d)) key
murmur_blocks h key = (h, key)

-- The loop over the bytes left, from the last one.
pub murmur_tail : Bytes → ℕ
murmur_tail [] = 0
murmur_tail (b ∷ key) = bit_or ((murmur_tail key * 2 ^ 8) % 2 ^ 32) (char_to 32 b)

pub murmur_finish : ℕ → ℕ → ℕ
murmur_finish h len =
    let h1 : ℕ = bit_xor h (len % 2 ^ 32) in
    let h2 : ℕ = (bit_xor h1 (h1 / 2 ^ 16) * 2246822507) % 2 ^ 32 in
    let h3 : ℕ = (bit_xor h2 (h2 / 2 ^ 13) * 3266489909) % 2 ^ 32 in bit_xor h3 (h3 / 2 ^ 16)

pub murmur3_32 : Bytes → ℕ
murmur3_32 key =
    let (h, rest) = murmur_blocks 305419896 key in
    murmur_finish (bit_xor h (murmur_32_scramble (murmur_tail rest))) (length key)
