-- ===== src/DynamicArray/Tests.antt =====
-- Arrays of elements of 2 bytes.
use gaveta.Base.{
  ℕ, zero, suc, ◌-◌, length-append, some-injective, ◌*◌, ◌≡◌, refl, Bool, true, Option, some, [],
  ◌∷◌, ◌++◌, arith, length, get_elem?, set, take, drop, replicate, Returns, length-replicate, sym,
}
use gaveta.Heap.{Bytes}
use gaveta.DynamicArray.{
  Owner, pool, DynamicArray, Realloc, IsArray, darray_create, darray_push, darray_pop, darray_set,
}
use gaveta.DynamicArray.Access.{darray_set-IsArray}
use gaveta.DynamicArray.Grow.{darray_push-IsArray, Grows, darray_pop-IsArray}

abbrev one : Bytes
one = 1 ∷ 1 ∷ []

abbrev two : Bytes
two = 2 ∷ 2 ∷ []

abbrev sample : Owner → ℕ → Bytes → DynamicArray
sample owner capacity rest = record {
  owner = owner;
  dat = 1 ∷ 1 ∷ 2 ∷ 2 ∷ rest;
  size = 2;
  capacity = capacity;
  element_size = 2;
}

abbrev roomy : DynamicArray
roomy = sample pool 3 (0 ∷ 0 ∷ [])

abbrev full : Owner → DynamicArray
full owner = sample owner 2 []

sample-each :
    (owner : Owner) (capacity : ℕ) (rest : Bytes) (i : ℕ) (x : Bytes)
    → get_elem? (one ∷ two ∷ []) i ≡ some x
    → (take 2 (drop (i * 2) ((sample owner capacity rest).dat)) ≡ x) × (length x ≡ 2)
sample-each owner capacity rest zero x at = ground (arith, at)
sample-each owner capacity rest (suc zero) x at = ground (arith, at)
sample-each owner capacity rest (suc (suc i)) x at = ground (arith, at)

roomy-IsArray : IsArray roomy (one ∷ two ∷ [])
roomy-IsArray = record {
  sized = omega arith;
  filled = refl;
  room = omega arith;
  whole = refl;
  small = omega arith;
  each = sample-each pool 3 (0 ∷ 0 ∷ []);
}

full-IsArray : (owner : Owner) → IsArray (full owner) (one ∷ two ∷ [])
full-IsArray owner = record {
  sized = omega arith;
  filled = refl;
  room = omega arith;
  whole = refl;
  small = omega arith;
  each = sample-each owner 2 [];
}

-- It is never asked for less than a block has.
abbrev calloc : Realloc
calloc dat n = some (dat ++ replicate (n - length dat) 0)

calloc-Grows : Grows calloc
calloc-Grows dat new n e h =
    let is : new ≡ dat ++ replicate (n - length dat) 0 = sym (some-injective _ _ e) in
    let zeros = replicate (n - length dat) 0 in
    (
      zeros,
      is,
      rw is
          (omega (arith, length-append dat zeros, length-replicate {A = ℕ} (n - length dat) 0, h)),
    )

-- 65536 elements of 65536 bytes are given a block of 0 bytes: the first push is out of bounds.
create_wraps :
    darray_create 65536 65536 true (λ n. some (replicate n 0))
    ≡ some (record { owner = pool; dat = []; size = 0; capacity = 65536; element_size = 65536 })
unfolding darray_create
create_wraps = refl

darray_push-IsArray_example :
    Returns
      (darray_push calloc (some roomy) (some (7 ∷ 8 ∷ 9 ∷ [])))
      λ (r : Bool × DynamicArray). (r.0 ≡ true) × IsArray r.1 (one ∷ two ∷ (7 ∷ 8 ∷ []) ∷ [])
darray_push-IsArray_example =
    darray_push-IsArray calloc (7 ∷ 8 ∷ 9 ∷ []) roomy-IsArray (omega arith) (omega arith)

darray_pop-IsArray_example :
    Returns (darray_pop (some roomy) true) λ (r : Bool × Option Bytes × DynamicArray).
      (r.0 ≡ true) × (r.1 ≡ some two) × IsArray r.2 (one ∷ [])
darray_pop-IsArray_example = darray_pop-IsArray (one ∷ []) two true roomy-IsArray

abbrev nothing : DynamicArray
nothing = record { owner = pool; dat = 0 ∷ 0 ∷ []; size = 0; capacity = 1; element_size = 2 }

nothing-IsArray : IsArray nothing []
nothing-IsArray = record {
  sized = omega arith;
  filled = refl;
  room = omega arith;
  whole = refl;
  small = omega arith;
  each = λ i x e. ground (arith, e);
}

darray_set-IsArray_example :
    Returns (darray_set (some roomy) 1 (some (7 ∷ 8 ∷ 9 ∷ []))) λ (r : Bool × DynamicArray).
      (r.0 ≡ true) × IsArray r.1 (set (one ∷ two ∷ []) 1 (take 2 (7 ∷ 8 ∷ 9 ∷ [])))
darray_set-IsArray_example =
    darray_set-IsArray 1 (7 ∷ 8 ∷ 9 ∷ []) roomy-IsArray (omega arith) (omega arith)
