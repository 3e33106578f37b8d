-- ===== src/HashTable/Hash/Tests.antt =====
-- The hash functions on short keys.
use gaveta.Base.{◌≡◌, refl, [], ◌∷◌, arith, ok}
use gaveta.Heap.{Bytes}
use gaveta.HashTable.Hash.{
  djb2_loop, djb2, poly_term, poly_loop, polynomial_rolling_hash_fn, murmur_32_scramble,
  murmur_blocks, murmur_tail, murmur_finish, murmur3_32,
}
use gaveta.HashTable.Hash.Wrap.{horner, nil, cons, djb2-horner}

-- "ab"
abbrev ab : Bytes
ab = 97 ∷ 98 ∷ []

djb2-ab : djb2 ab ≡ 5863208
unfolding djb2 djb2_loop
djb2-ab = refl

poly_ab : polynomial_rolling_hash_fn ab ≡ ok 63
unfolding polynomial_rolling_hash_fn poly_loop poly_term
poly_ab = refl

-- A first byte of the rest above 127 is sign-extended over the others, which the hash then ignores.
murmur_collision : murmur3_32 (200 ∷ 1 ∷ []) ≡ murmur3_32 (200 ∷ 2 ∷ [])
unfolding murmur3_32 murmur_blocks murmur_tail murmur_finish murmur_32_scramble
murmur_collision = refl

djb2-horner_example : djb2 (97 ∷ 200 ∷ []) ≡ horner 5381 (97 ∷ 200 ∷ [])
djb2-horner_example = djb2-horner (97 ∷ 200 ∷ []) (cons (omega arith) (cons (omega arith) nil))
