-- ===== src/HashTable/Tests.antt =====
-- A table of entries of 2 bytes, with keys of at most 3 characters, that hashes by the first one.
use gaveta.Base.{
  ℕ, ◌≡◌, refl, sym, ◌∙◌, ap, subst, some-injective, ok-injective, Bool, true, false, Option, none,
  some, [], ◌∷◌, arith, replicate, ok, fault, length, ◌≤◌, ◌<◌, ◌⊎◌,
}
use gaveta.Heap.{Bytes}
use gaveta.HashTable.{Bucket, HashTable, init_ht, push_heads, put_ht, truncate}
use gaveta.HashTable.Represents.{
  same_key, same_key-true, same_key_refl, Compares, Represents, update,
}
use gaveta.HashTable.Put.{put_ht-Represents, init_ht-Represents}

abbrev first : Bytes → ℕ
first [] = 0
first (c ∷ key) = c

abbrev by_key : Bucket → Bucket → Bool
by_key b c = same_key b.key c.key

by_key-Compares : Compares by_key
by_key-Compares b c = (same_key-true b.key c.key, λ e. rw e (same_key_refl c.key))

abbrev table : HashTable
table = record { data_size = 2; max_key_size = 3; bucket_heads = some (replicate 16 []); h = first }

-- "ab"
abbrev ab : Bytes
ab = 97 ∷ 98 ∷ []

-- "abcd"
abbrev abcd : Bytes
abcd = 97 ∷ 98 ∷ 99 ∷ 100 ∷ []

put_null_data : put_ht true (some table) (some ab) none ≡ ok (false, some table)
unfolding put_ht
put_null_data = refl

init_table : init_ht true true (λ i. true) 2 3 first ≡ ok (true, some table)
unfolding init_ht push_heads
init_table = refl

table-Represents : Represents by_key table (λ k. none)
table-Represents =
    let (ht, run, _, r) = init_ht-Represents by_key 2 3 first in
    let same : ht ≡ table =
      some-injective ht table
        (ap (λ (p : Bool × Option HashTable). p.1) (ok-injective (sym run ∙ init_table))) in
    subst (λ t. Represents by_key t (λ k. none)) same r

put_ht-Represents_example :
    ((length ab ≤ 3)
      × ((ht' : HashTable) × (put_ht true (some table) (some ab) (some (7 ∷ 8 ∷ 9 ∷ []))
            ≡ ok (true, some ht'))
          × Represents by_key ht' (update ab (7 ∷ 8 ∷ []) (λ k. none))))
    ⊎ ((3 < length ab) × (put_ht true (some table) (some ab) (some (7 ∷ 8 ∷ 9 ∷ [])) ≡ fault))
put_ht-Represents_example =
    put_ht-Represents by_key ab (7 ∷ 8 ∷ 9 ∷ []) by_key-Compares table-Represents (omega arith)
      (omega arith) (omega arith)

init_ht-Represents_example :
    (ht : HashTable) × (init_ht true true (λ i. true) 2 3 first ≡ ok (true, some ht))
    × (ht.bucket_heads ≡ some (replicate 16 []))
    × Represents by_key ht (λ k. none)
init_ht-Represents_example = init_ht-Represents by_key 2 3 first

-- "abcd" is longer than the table allows.
put_long : put_ht true (some table) (some abcd) (some (7 ∷ 8 ∷ 9 ∷ [])) ≡ fault
unfolding put_ht truncate
put_long = refl
