-- ===== src/HashTable.antt =====
-- src/modules/ds/HashTable.c: a table of 16 chains from strings to blocks of `data_size` bytes. A chain
-- is the list of buckets that its linked list holds (LinkedList), newest first; `insert_ll` puts a
-- bucket in front and `search_ll` finds the first that the comparison accepts. A `char *` is an
-- `Option Bytes`, without its NUL. The `snprintf` of a long key onto itself is undefined, a fault.
-- `clear_ht` and `get_ht_keys` are left out, and `remove_ht` is only declared.
pub mod Represents
pub mod Put
pub mod Hash
mod Tests
use gaveta.Base.{
  ℕ, zero, suc, ◌+◌, ◌-◌, ◌%◌, ◌^◌, ◌≤◌, ◌<◌, ◌≡◌, Bool, true, false, not, ◌&&◌, Option, none, some,
  List, [], ◌∷◌, ltb, leb, ◌==◌, if◌then◌else◌, length, get_elem?, set, take, Run, ok, fault, ◌>>=◌,
}
use gaveta.Heap.{Bytes}

abbrev pub initial_ht_size : ℕ
initial_ht_size = 16

pub record Bucket : Type 0 where
  pub key : Bytes
  pub dat : Bytes

abbrev pub Chain : Type 0
Chain = List Bucket

abbrev pub HashFn : Type 0
HashFn = Bytes → ℕ

-- `bucket_heads` is `none` for NULL.
pub record HashTable : Type 0 where
  pub data_size : ℕ
  pub max_key_size : ℕ
  pub bucket_heads : Option (List Chain)
  pub h : HashFn

-- `insert_ll` into the chain at an index.
abbrev pub insert_ll : List Chain → ℕ → Chain → Bucket → List Chain
insert_ll heads i chain b = set heads i (b ∷ chain)

-- `search_ll` in a chain.
pub search_ll : (Bucket → Bucket → Bool) → Bucket → Chain → Option Bucket
search_ll f key [] = none
search_ll f key (b ∷ chain) = if f b key then some b else search_ll f key chain

-- The loop of `init_ht` from round `i` on, with `n` rounds left: `nodes i` tells whether `init_ll` is
-- given a node, without which it writes to NULL.
pub push_heads : (ℕ → Bool) → (n i : ℕ) → List Chain → Run (List Chain)
push_heads nodes zero i heads = ok heads
push_heads nodes (suc n) i heads =
    let rest = push_heads nodes n (i + 1) ([] ∷ heads) in if nodes i then rest else fault

-- `struct` and `array` tell whether the struct and the array of heads are allocated.
pub init_ht :
    (struct array : Bool)
    → (ℕ → Bool)
    → (data_size max_key_size : ℕ) → HashFn
    → Run (Bool × Option HashTable)
init_ht struct array nodes data_size max_key_size h =
    let ht : List Chain → HashTable = (λ heads. record {
      data_size = data_size;
      max_key_size = max_key_size;
      bucket_heads = some heads;
      h = h;
    }) in
    if not struct
    then ok (false, none)
    else if not array
    then ok (false, some (record (ht []) { bucket_heads = none }))
    else (push_heads nodes initial_ht_size 0 [] >>= λ heads. ok (true, some (ht heads)))

-- Is the `size_t` positive as an `int`?
abbrev pub positive_int : ℕ → Bool
positive_int n = ltb 0 (n % 2 ^ 32) && ltb (n % 2 ^ 32) (2 ^ 31)

-- The key that goes on. A longer one is copied onto itself, which is undefined.
pub truncate : ℕ → Bytes → Run Bytes
truncate max_key_size key =
    if positive_int ((length key + 2 ^ 64 - max_key_size) % 2 ^ 64) then fault else ok key

-- The part of `put_ht` behind the truncation. `room` tells whether every `g_alloc` of the call
-- succeeds: each result is written through without a test.
pub put_at : Bool → HashTable → List Chain → Bytes → Bytes → Run (Bool × HashTable)
put_at room ht heads key dat =
    if length heads == 0
    then fault
    else let i : ℕ = ht.h key % length heads in
      elim (get_elem? heads i) [
        | none ↦ ok (false, ht)
        | some chain ↦
            if not (room && leb ht.data_size (length dat))
            then fault
            else ok (
              true,
              record ht {
                bucket_heads = some (
                    insert_ll heads i chain
                      (record { key = take ht.max_key_size key; dat = take ht.data_size dat }));
              },
            )
      ]

-- The results are the value returned and the table.
pub put_ht : Bool → Option HashTable → Option Bytes → Option Bytes → Run (Bool × Option HashTable)
put_ht room none key dat = ok (false, none)
put_ht room (some ht) key dat = elim ht.bucket_heads [
  | none ↦ ok (false, some ht)
  | some heads ↦ elim key [
    | none ↦ ok (false, some ht)
    | some key ↦ elim dat [
      | none ↦ ok (false, some ht)
      | some dat ↦ truncate ht.max_key_size key >>= λ key.
          put_at room ht heads key dat >>= λ r. ok (r.0, some r.1)
    ]
  ]
]

-- `none` is NULL. The key is hashed as it is given.
pub lookup_ht : Option HashTable → Bytes → (Bucket → Bucket → Bool) → Run (Option Bytes)
lookup_ht none k f = ok none
lookup_ht (some ht) k f = elim ht.bucket_heads [
  | none ↦ fault
  | some heads ↦
      if length heads == 0 then fault else elim (get_elem? heads (ht.h k % length heads)) [
        | none ↦ ok none
        | some chain ↦ elim (search_ll f (record { key = k; dat = [] }) chain) [
          | none ↦ ok none
          | some b ↦ ok (some b.dat)
        ]
      ]
]
