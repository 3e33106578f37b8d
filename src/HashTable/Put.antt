-- ===== src/HashTable/Put.antt =====
-- `init_ht` and `put_ht` of HashTable.c on the map that `lookup_ht` reads.
use gaveta.Base.{
  ℕ, zero, suc, ◌%◌, ◌^◌, ◌≤◌, ◌<◌, ◌≡◌, ◌≢◌, refl, sym, ◌∙◌, ap, Bool, true, false, Bool-cases,
  inl, inr, Option, none, some, some-injective, List, [], ◌∷◌, arith, ◌==◌, length, length-set,
  length-take, get_elem?, get_elem?-total, get_elem?-set_self, get_elem?-set_ne, set, replicate,
  take, take-all, ok, fault, subst, ltb, ◌⊎◌,
}
use gaveta.Heap.{Bytes}
use gaveta.HashTable.{
  Bucket, Chain, HashTable, HashFn, insert_ll, search_ll, push_heads, init_ht, put_at, put_ht,
  lookup_ht,
}
use gaveta.HashTable.Represents.{
  Compares, Represents, update, same_key, truncate-take, truncate-fault, index, answer, lookup_in,
  search-head, search-tail, same_key-true, not-Compares, not-same,
}

module _ (f : Bucket → Bucket → Bool) (compares : Compares f) {ht : HashTable}
    {m : Bytes → Option Bytes} (r : Represents f ht m) (key dat : Bytes)
    (small : ht.max_key_size < 2 ^ 16) (short : length key ≤ ht.max_key_size)
    (long : ht.data_size ≤ length dat) where
  abbrev stored : Bytes
  stored = take ht.max_key_size key

  abbrev heads : List Chain
  heads = r.heads

  abbrev new : Bucket
  new = record { key = stored; dat = take ht.data_size dat }

  abbrev i : ℕ
  i = ht.h stored % length heads

  i_lt : i < length heads
  i_lt = index (ht.h stored) (length heads) r.some_heads

  abbrev after : Chain → HashTable
  after chain = record ht { bucket_heads = some (insert_ll heads i chain new) }

  length-stored : length stored ≤ ht.max_key_size
  length-stored = omega (arith, length-take ht.max_key_size key)

  module _ (chain : Chain) (at : get_elem? heads i ≡ some chain) where
    put_at-run : put_at true ht heads stored dat ≡ ok (true, after chain)
    unfolding put_at
    put_at-run =
        rw (at, take-all ht.max_key_size stored length-stored) (ground (arith, r.some_heads, long))

    put-run : put_ht true (some ht) (some key) (some dat) ≡ ok (true, some (after chain))
    unfolding put_ht
    put-run = rw (r.is_heads, truncate-take ht.max_key_size key small short, put_at-run)

    lookup-new : (k : Bytes) → stored ≡ k → lookup_ht (some (after chain)) k f ≡ ok (some new.dat)
    lookup-new k e =
        lookup_in f (after chain) (insert_ll heads i chain new) (length heads) k (new ∷ chain) refl
          (length-set heads i (new ∷ chain)) r.some_heads
          (rw (← e) (get_elem?-set_self heads i (new ∷ chain) i_lt))
        ∙ ap (λ o. ok (answer o))
            (search-head f (record { key = k; dat = [] }) new chain ((compares new _).1 e))

    lookup-old :
        (k : Bytes) → stored ≢ k → lookup_ht (some (after chain)) k f ≡ lookup_ht (some ht) k f
    lookup-old k ne =
        let n : ℕ = length heads in
        let j : ℕ = ht.h k % n in
        let key' : Bucket = record { key = k; dat = [] } in
        let len : length (insert_ll heads i chain new) ≡ n = length-set heads i (new ∷ chain) in
        let (c, at') = get_elem?-total heads j (index (ht.h k) n r.some_heads) in
        let before = lookup_in f ht heads n k c r.is_heads refl r.some_heads at' in
        elim (Bool-cases (i == j)) [
          | inl t ↦
              let eq : i ≡ j = ground (arith, t) in
              let same : chain ≡ c =
                some-injective chain c (sym at ∙ ap (λ x. get_elem? heads x) eq ∙ at') in
              let differ : f new key' ≡ false = not-Compares f compares new key' ne in
              lookup_in f (after chain) (insert_ll heads i chain new) n k (new ∷ chain) refl len
                r.some_heads
                (ap (λ x. get_elem? (set heads i (new ∷ chain)) x) (sym eq)
                  ∙ get_elem?-set_self heads i (new ∷ chain) i_lt)
              ∙ ap (λ o. ok (answer o))
                  (search-tail f key' new chain differ ∙ ap (λ x. search_ll f key' x) same)
              ∙ sym before
          | inr t ↦
              let apart : i ≢ j = ground (arith, t) in
              lookup_in f (after chain) (insert_ll heads i chain new) n k c refl len r.some_heads
                (get_elem?-set_ne heads i j (new ∷ chain) apart ∙ at')
              ∙ sym before
        ]

    too_long : (k : Bytes) → ht.max_key_size < length k → same_key stored k ≡ false
    too_long k l = elim (Bool-cases (same_key stored k)) [
      | inl t ↦
          let e : length stored ≡ length k = ap (λ x. length x) (same_key-true stored k t) in
          absurd (omega (arith, e, l, length-stored))
      | inr t ↦ t
    ]

    after-Represents : Represents f (after chain) (update stored new.dat m)
    after-Represents = record {
      heads = insert_ll heads i chain new;
      is_heads = refl;
      some_heads = omega (arith, length-set heads i (new ∷ chain), r.some_heads);
      answers = λ k. elim (Bool-cases (same_key stored k)) [
        | inl t ↦ rw t (lookup-new k (same_key-true stored k t))
        | inr t ↦ rw t (lookup-old k (λ e. not-same stored k t e) ∙ r.answers k)
      ];
      short = λ k l. rw (too_long k l) (r.short k l);
    }

put-fault :
    (f : Bucket → Bucket → Bool) {ht : HashTable} {m : Bytes → Option Bytes}
    → Represents f ht m
    → (key dat : Bytes) → ht.max_key_size < 2 ^ 16
    → length key < 2 ^ 31
    → ht.max_key_size < length key
    → put_ht true (some ht) (some key) (some dat) ≡ fault
unfolding put_ht
put-fault f {ht} r key dat small int l =
    rw (put_ht, r.is_heads, truncate-fault ht.max_key_size key small int l) refl

-- Where every allocation succeeds, the data has `data_size` bytes, the limit of keys is below 2 ^ 16
-- and the key is shorter than 2 ^ 31: with a key that the table allows, `put_ht` succeeds, and the table
-- then answers for the map with the first `data_size` bytes at this key, for a comparison of keys. With
-- a longer key it is undefined behaviour.
pub put_ht-Represents :
    (f : Bucket → Bucket → Bool) {ht : HashTable} {m : Bytes → Option Bytes} (key dat : Bytes)
    → Compares f
    → Represents f ht m
    → ht.max_key_size < 2 ^ 16
    → length key < 2 ^ 31
    → ht.data_size ≤ length dat
    → ((length key ≤ ht.max_key_size)
        × ((ht' : HashTable) × (put_ht true (some ht) (some key) (some dat) ≡ ok (true, some ht'))
            × Represents f ht' (update key (take ht.data_size dat) m)))
      ⊎ ((ht.max_key_size < length key) × (put_ht true (some ht) (some key) (some dat) ≡ fault))
put_ht-Represents f {ht} {m} key dat compares r small int long =
    elim (Bool-cases (ltb ht.max_key_size (length key))) [
      | inl longer ↦
          let l : ht.max_key_size < length key = ground (arith, longer) in
          inr (l, put-fault f r key dat small int l)
      | inr fits ↦
          let short : length key ≤ ht.max_key_size = ground (arith, fits) in
          let (chain, at) =
            get_elem?-total r.heads _ (i_lt f compares r key dat small short long) in
          inl (
            short,
            (
              after f compares r key dat small short long chain,
              put-run f compares r key dat small short long chain at,
              subst
                  (λ k.
                    Represents f (after f compares r key dat small short long chain)
                      (update k (take ht.data_size dat) m))
                  (take-all ht.max_key_size key short)
                  (after-Represents f compares r key dat small short long chain at),
            ),
          )
    ]

all-empty : (n j : ℕ) (c : Chain) → get_elem? (replicate n []) j ≡ some c → c ≡ []
all-empty zero j c e = ground (arith, e)
all-empty (suc n) zero c e = sym (some-injective [] c e)
all-empty (suc n) (suc j) c e = all-empty n j c e

-- Where every allocation succeeds, a new table has 16 chains and finds no key.
pub init_ht-Represents :
    (f : Bucket → Bucket → Bool) (data_size max_key_size : ℕ) (h : HashFn)
    → (ht : HashTable) × (init_ht true true (λ i. true) data_size max_key_size h
        ≡ ok (true, some ht))
      × (ht.bucket_heads ≡ some (replicate 16 []))
      × Represents f ht (λ k. none)
unfolding init_ht push_heads search_ll
init_ht-Represents f data_size max_key_size h =
    let ht : HashTable = record {
      data_size = data_size;
      max_key_size = max_key_size;
      bucket_heads = some (replicate 16 []);
      h = h;
    } in
    (
      ht,
      refl,
      refl,
      record {
        heads = replicate 16 [];
        is_heads = refl;
        some_heads = omega arith;
        answers = λ k.
            let (c, at) =
              get_elem?-total (replicate 16 []) (h k % 16) (index (h k) 16 (omega arith)) in
            lookup_in f ht (replicate 16 []) 16 k c refl refl (omega arith) at
            ∙ ap (λ o. ok (answer o))
                (ap (λ x. search_ll f (record { key = k; dat = [] }) x)
                  (all-empty 16 (h k % 16) c at));
        short = λ k l. refl;
      },
    )
