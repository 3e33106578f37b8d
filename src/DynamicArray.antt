-- ===== src/DynamicArray.antt =====
-- src/modules/ds/GenericDynamicArray.c: an array of elements of `element_size` bytes in one block. A
-- `DynamicArray *` is an `Option DynamicArray`, NULL being `none`, and the array after the call is part
-- of the result; a result `false` is the code's -1. A failed `assert`, and a `memcpy` that leaves its
-- block, are faults. `export_da_to_disk` is only declared.
pub mod Splice
pub mod Grow
pub mod Access
mod Tests
use gaveta.Base.{
  ℕ, suc, ◌+◌, ◌-◌, ◌*◌, ◌%◌, ◌^◌, ◌≤◌, ◌<◌, ◌≡◌, Bool, true, false, not, Option, none, some, List,
  ltb, leb, get_elem?, ◌==◌, if◌then◌else◌, length, take, drop, Run, ok, fault, ◌>>=◌,
}
use gaveta.Heap.{Bytes}
use Splice.{splice}

-- Where a block is from: `g_alloc`, or the C library, whose `realloc` takes only blocks of its own.
pub data Owner : Type 0 where
  pool libc : Owner

pub record DynamicArray : Type 0 where
  pub owner : Owner
  pub dat : Bytes
  pub size : ℕ
  pub capacity : ℕ
  pub element_size : ℕ

-- `memcpy(out, dat + off, n)`.
pub read_at : Bytes → ℕ → ℕ → Run Bytes
read_at dat off n = if leb (off + n) (length dat) then ok (take n (drop off dat)) else fault

-- `memcpy(dat + off, src, n)`.
pub write_at : Bytes → ℕ → Bytes → ℕ → Run Bytes
write_at dat off src n =
    if not (leb n (length src))
    then fault
    else if leb (off + n) (length dat)
    then ok (splice off (take n src) dat)
    else fault

abbrev pub Realloc : Type 0
Realloc = Bytes → ℕ → Option Bytes

-- The C library's `realloc` is a parameter.
pub resize_to : Realloc → DynamicArray → ℕ → Run (Bool × DynamicArray)
resize_to realloc a new_capacity = elim a.owner [
  | pool ↦ fault
  | libc ↦ elim (realloc a.dat ((new_capacity * a.element_size) % 2 ^ 64)) [
    | none ↦ ok (false, a)
    | some dat ↦ ok (true, record a { dat = dat; capacity = new_capacity })
  ]
]

-- `capacity * 2` is computed on 32 bits.
pub darray_resize : Realloc → DynamicArray → Run (Bool × DynamicArray)
darray_resize realloc a =
    resize_to realloc a (if a.capacity == 0 then 8 else (a.capacity * 2) % 2 ^ 32)

-- The two calls of `g_alloc` are arguments: whether the struct was allocated, and the new block. The
-- size that the block is asked for is computed on 32 bits.
pub darray_create : ℕ → ℕ → Bool → (ℕ → Option Bytes) → Option DynamicArray
darray_create element_size initial_capacity struct block =
    if element_size == 0
    then none
    else if not struct
    then none
    else let capacity : ℕ = (if ltb 0 initial_capacity then initial_capacity else 8) in
      elim (block ((capacity * element_size) % 2 ^ 32)) [
        | none ↦ none
        | some dat ↦ some (record {
          owner = pool;
          dat = dat;
          size = 0;
          capacity = capacity;
          element_size = element_size;
        })
      ]

-- The end of `darray_push`, once there is room.
pub append_at : DynamicArray → Bytes → Run (Bool × DynamicArray)
append_at a element =
    write_at a.dat ((a.size * a.element_size) % 2 ^ 32) element a.element_size >>= λ dat.
    ok (true, record a { dat = dat; size = (a.size + 1) % 2 ^ 32 })

pub darray_push : Realloc → Option DynamicArray → Option Bytes → Run (Bool × DynamicArray)
darray_push realloc none element = fault
darray_push realloc (some a) none = fault
darray_push realloc (some a) (some element) =
    if leb a.capacity a.size
    then (darray_resize realloc a >>= λ r. if r.0 then append_at r.1 element else ok (false, r.1))
    else append_at a element

-- `wanted` is whether `out_element` is not NULL.
pub darray_pop : Option DynamicArray → Bool → Run (Bool × Option Bytes × DynamicArray)
darray_pop none wanted = fault
darray_pop (some a) wanted =
    if a.size == 0
    then ok (false, none, a)
    else let b : DynamicArray = record a { size = a.size - 1 } in
      if not wanted
      then ok (true, none, b)
      else (read_at a.dat ((b.size * a.element_size) % 2 ^ 32) a.element_size >>= λ x.
          ok (true, some x, b))

-- `index` is a `size_t`. The value is what is copied out, with none for the -1.
pub darray_get : Option DynamicArray → ℕ → Run (Option Bytes)
darray_get none index = fault
darray_get (some a) index =
    if leb a.size index
    then ok none
    else (read_at a.dat ((index * a.element_size) % 2 ^ 64) a.element_size >>= λ x. ok (some x))

-- The offset of the pointer in the block, with none for NULL.
pub darray_get_pointer : Option DynamicArray → ℕ → Run (Option ℕ)
darray_get_pointer none index = fault
darray_get_pointer (some a) index =
    if leb a.size index then ok none else ok (some ((index * a.element_size) % 2 ^ 64))

pub darray_set : Option DynamicArray → ℕ → Option Bytes → Run (Bool × DynamicArray)
darray_set none index element = fault
darray_set (some a) index none = fault
darray_set (some a) index (some element) =
    if leb a.size index
    then ok (false, a)
    else (write_at a.dat ((index * a.element_size) % 2 ^ 64) element a.element_size >>= λ dat.
        ok (true, record a { dat = dat }))

pub darray_size : Option DynamicArray → Run ℕ
darray_size none = fault
darray_size (some a) = ok a.size

pub darray_capacity : Option DynamicArray → Run ℕ
darray_capacity none = fault
darray_capacity (some a) = ok a.capacity

pub darray_get_last : Option DynamicArray → Run (Option Bytes)
darray_get_last none = fault
darray_get_last (some a) =
    if a.size == 0
    then ok none
    else (read_at a.dat (((a.size - 1) * a.element_size) % 2 ^ 32) a.element_size >>= λ x.
        ok (some x))

-- The array holds `xs`: element `i` is the `element_size` bytes at `i * element_size`.
pub record IsArray (a : DynamicArray) (xs : List Bytes) : Type 0 where
  pub sized : 0 < a.element_size
  pub filled : length xs ≡ a.size
  pub room : a.size ≤ a.capacity
  pub whole : length a.dat ≡ a.capacity * a.element_size
  pub small : a.capacity * a.element_size < 2 ^ 32
  pub each :
      (i : ℕ) (x : Bytes)
      → get_elem? xs i ≡ some x
      → (take a.element_size (drop (i * a.element_size) a.dat) ≡ x) × (length x ≡ a.element_size)
