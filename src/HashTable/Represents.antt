-- ===== src/HashTable/Represents.antt =====
-- What a table of HashTable.c answers, as a map from keys to data.
use gaveta.Base.{
  ℕ, ◌+◌, ◌-◌, ◌%◌, ◌^◌, ◌≤◌, ◌<◌, ◌≡◌, ◌≢◌, ◌↔◌, refl, sym, ap, ap₂, Bool, true, false, ◌&&◌,
  Bool-cases, inl, inr, Option, none, some, List, [], ◌∷◌, arith, ◌==◌, if◌then◌else◌, length,
  get_elem?, take, take-all, ok, fault,
}
use gaveta.Heap.{Bytes}
use gaveta.HashTable.{Bucket, Chain, HashTable, search_ll, positive_int, truncate, lookup_ht}

-- What the client's comparison has to do: compare the keys.
abbrev pub Compares : (Bucket → Bucket → Bool) → Type 0
Compares f = (b c : Bucket) → (f b c ≡ true) ↔ (b.key ≡ c.key)

-- A key that the table allows is left as it is.
pub truncate-take :
    (max_key_size : ℕ) (key : Bytes)
    → max_key_size < 2 ^ 16
    → length key ≤ max_key_size
    → truncate max_key_size key ≡ ok (take max_key_size key)
unfolding truncate
truncate-take n key small short =
    let p : positive_int ((length key + 2 ^ 64 - n) % 2 ^ 64) ≡ false =
      ground (arith, short, small) in
    rw (truncate, p) (ap (λ k. ok k) (sym (take-all n key short)))

-- A longer one is not.
pub truncate-fault :
    (max_key_size : ℕ) (key : Bytes)
    → max_key_size < 2 ^ 16
    → length key < 2 ^ 31
    → max_key_size < length key
    → truncate max_key_size key ≡ fault
unfolding truncate
truncate-fault n key small int long =
    let p : positive_int ((length key + 2 ^ 64 - n) % 2 ^ 64) ≡ true =
      ground (arith, long, small, int) in
    rw (truncate, p) refl

pub index : (a n : ℕ) → 0 < n → a % n < n
index a n h = grind arith

-- Are two keys the same?
pub same_key : Bytes → Bytes → Bool
same_key [] [] = true
same_key [] (b ∷ bs) = false
same_key (a ∷ r) [] = false
same_key (a ∷ r) (b ∷ bs) = (a == b) && same_key r bs

pub same_key-true : (k l : Bytes) → same_key k l ≡ true → k ≡ l
unfolding same_key
same_key-true [] [] e = refl
same_key-true [] (b ∷ bs) e = ground (arith, e)
same_key-true (a ∷ r) [] e = ground (arith, e)
same_key-true (a ∷ r) (b ∷ bs) e =
    ap₂ (λ x xs. x ∷ xs) (ground (arith, e)) (same_key-true r bs (ground (arith, e)))

pub same_key_refl : (k : Bytes) → same_key k k ≡ true
unfolding same_key
same_key_refl [] = refl
same_key_refl (a ∷ r) = ground (arith, same_key_refl r)

-- The map with the key's value replaced.
abbrev pub update : Bytes → Bytes → (Bytes → Option Bytes) → Bytes → Option Bytes
update key v m k = if same_key key k then some v else m k

-- The table answers for the map `m`, none of whose keys is longer than the table allows.
pub record Represents (f : Bucket → Bucket → Bool) (ht : HashTable) (m : Bytes → Option Bytes)
    : Type 0 where
  pub heads : List Chain
  pub is_heads : ht.bucket_heads ≡ some heads
  pub some_heads : 0 < length heads
  pub answers : (k : Bytes) → lookup_ht (some ht) k f ≡ ok (m k)
  pub short : (k : Bytes) → ht.max_key_size < length k → m k ≡ none

-- The answer of a chain.
abbrev pub answer : Option Bucket → Option Bytes
answer none = none
answer (some b) = some b.dat

pub lookup_in :
    (f : Bucket → Bucket → Bool) (ht : HashTable) (heads : List Chain) (n : ℕ) (k : Bytes)
    (chain : Chain)
    → ht.bucket_heads ≡ some heads
    → length heads ≡ n
    → 0 < n
    → get_elem? heads (ht.h k % n) ≡ some chain
    → lookup_ht (some ht) k f ≡ ok (answer (search_ll f (record { key = k; dat = [] }) chain))
unfolding lookup_ht
lookup_in f ht heads n k chain is len pos at =
    let at' : get_elem? heads (ht.h k % length heads) ≡ some chain = rw len at in
    ground (arith, is, len, pos, at')

pub search-head :
    (f : Bucket → Bucket → Bool) (key b : Bucket) (chain : Chain)
    → f b key ≡ true
    → search_ll f key (b ∷ chain) ≡ some b
unfolding search_ll
search-head f key b chain e = rw e

pub search-tail :
    (f : Bucket → Bucket → Bool) (key b : Bucket) (chain : Chain)
    → f b key ≡ false
    → search_ll f key (b ∷ chain) ≡ search_ll f key chain
unfolding search_ll
search-tail f key b chain e = rw e

pub not-Compares :
    (f : Bucket → Bucket → Bool) → Compares f → (b c : Bucket) → b.key ≢ c.key → f b c ≡ false
not-Compares f compares b c ne = elim (Bool-cases (f b c)) [
  | inl t ↦ absurd (ne ((compares b c).0 t))
  | inr t ↦ t
]

pub not-same : (k l : Bytes) → same_key k l ≡ false → k ≢ l
not-same k l e eq = let t : same_key k k ≡ true = same_key_refl k in cc
