-- ===== src/DynamicArray/Access.antt =====
-- `darray_get`, `darray_set`, `darray_get_last` and `darray_get_pointer` of GenericDynamicArray.c.
use gaveta.Base.{
  ℕ, ◌+◌, ◌-◌, ◌*◌, ◌%◌, ◌^◌, ◌≤◌, ◌<◌, ◌≡◌, ◌≢◌, refl, sym, ◌∙◌, ap, Bool, true, Bool-cases, inl,
  inr, Option, none, some, some-injective, List, arith, leb, ◌==◌, if◌then◌else◌, length, get_elem?,
  get_elem?-none, get_elem?-total, get_elem?-set_self, get_elem?-set_ne, length-set, length-take,
  set, take, drop, ok, Returns,
}
use gaveta.Heap.{Bytes}
use gaveta.DynamicArray.Splice.{
  splice, length-splice, element_at-splice, element_off-splice, ends_before,
}
use gaveta.DynamicArray.{
  DynamicArray, IsArray, read_at, write_at, darray_get, darray_set, darray_get_pointer,
  darray_get_last,
}

module _ {a : DynamicArray} {xs : List Bytes} (is : IsArray a xs) where
  abbrev e : ℕ
  e = a.element_size

  -- An element below the capacity lies in the block, and its offset does not wrap around.
  pub inside :
      (i : ℕ)
      → i < a.capacity
      → (i * e + e ≤ length a.dat) × ((i * e) % 2 ^ 32 ≡ i * e) × ((i * e) % 2 ^ 64 ≡ i * e)
  inside i l =
      let m : i * e + e ≤ a.capacity * e = ends_before i a.capacity e l in
      (omega (arith, is.whole, m), omega (arith, is.small, m), omega (arith, is.small, m))

  pub read-each :
      (i : ℕ) (x : Bytes) → i < a.size → get_elem? xs i ≡ some x → read_at a.dat (i * e) e ≡ ok x
  unfolding read_at
  read-each i x l at =
      let (m, _, _) = inside i (omega (arith, is.room)) in
      let (b, _) = is.each i x at in ground (arith, m, b)

-- `darray_get` reads the element at the index, and says no out of range.
pub darray_get-get_elem? :
    {a : DynamicArray} {xs : List Bytes} (i : ℕ)
    → IsArray a xs
    → darray_get (some a) i ≡ ok (get_elem? xs i)
unfolding darray_get
darray_get-get_elem? {a} {xs} i is = elim (Bool-cases (leb a.size i)) [
  | inl out ↦
      let far : length xs ≤ i = ground (arith, is.filled, out) in rw (out, get_elem?-none xs i far)
  | inr within ↦
      let l : i < a.size = ground (arith, within) in
      let (x, at) = get_elem?-total xs i (omega (arith, is.filled, l)) in
      let (_, _, w) = inside is i (omega (arith, is.room, l)) in
      rw (within, w, read-each is i x l at, at)
]

-- `darray_get_last` reads the last element, and says no on an empty array.
pub darray_get_last-get_elem? :
    {a : DynamicArray} {xs : List Bytes}
    → IsArray a xs
    → darray_get_last (some a) ≡ ok (if a.size == 0 then none else get_elem? xs (a.size - 1))
unfolding darray_get_last
darray_get_last-get_elem? {a} {xs} is = elim (Bool-cases (a.size == 0)) [
  | inl nothing ↦ rw (nothing)
  | inr some_left ↦
      let l : a.size - 1 < a.size = ground (arith, some_left) in
      let (x, at) = get_elem?-total xs (a.size - 1) (omega (arith, is.filled, l)) in
      let (_, w, _) = inside is (a.size - 1) (omega (arith, is.room, l)) in
      rw (some_left, w, read-each is (a.size - 1) x l at, at)
]

-- The pointer of `darray_get_pointer` is at the bytes of the element.
pub darray_get_pointer-each :
    {a : DynamicArray} {xs : List Bytes} (i : ℕ) (x : Bytes)
    → IsArray a xs
    → get_elem? xs i ≡ some x
    → Returns
        (darray_get_pointer (some a) i)
        λ (p : Option ℕ). (off : ℕ) × (p ≡ some off) × (take a.element_size (drop off a.dat) ≡ x)
unfolding darray_get_pointer
darray_get_pointer-each {a} {xs} i x is at =
    let l : i < a.size = ground (arith, is.filled, get_elem?-none xs i, at) in
    let (_, _, w) = inside is i (omega (arith, is.room, l)) in
    (
      some (i * a.element_size),
      ground (arith, w, l),
      (i * a.element_size, refl, (is.each i x at).0),
    )

module _ {a : DynamicArray} {xs : List Bytes} (is : IsArray a xs) (i : ℕ) (src : Bytes)
    (l : i < a.size) (long : a.element_size ≤ length src) where
  abbrev x : Bytes
  x = take a.element_size src

  abbrev written : DynamicArray
  written = record a { dat = splice (i * a.element_size) x a.dat }

  length-x : length x ≡ a.element_size
  length-x = omega (arith, length-take a.element_size src, long)

  written-each :
      (j : ℕ) (y : Bytes)
      → get_elem? (set xs i x) j ≡ some y
      → (take a.element_size (drop (j * a.element_size) written.dat) ≡ y)
        × (length y ≡ a.element_size)
  written-each j y at = elim (Bool-cases (i == j)) [
    | inl t ↦
        let eq : i ≡ j = ground (arith, t) in
        let y_is : y ≡ x = some-injective y x (
          sym at
          ∙ ap (λ k. get_elem? (set xs i x) k) (sym eq)
          ∙ get_elem?-set_self xs i x (omega (arith, is.filled, l))) in
        (
          rw (← eq, y_is)
              (element_at-splice a.element_size i x a.dat length-x
                (inside is i (omega (arith, is.room, l))).0),
          rw y_is length-x,
        )
    | inr t ↦
        let ne : i ≢ j = ground (arith, t) in
        let (old, n) = is.each j y (sym (get_elem?-set_ne xs i j x ne) ∙ at) in
        (element_off-splice a.element_size i j x a.dat length-x ne ∙ old, n)
  ]

  written-IsArray : IsArray written (set xs i x)
  written-IsArray = record {
    sized = is.sized;
    filled = omega (arith, length-set xs i x, is.filled);
    room = is.room;
    whole = omega (arith, length-splice (i * a.element_size) x a.dat, is.whole);
    small = is.small;
    each = written-each;
  }

-- In range, given a source of `element_size` bytes, `darray_set` replaces the element at the index by
-- the first bytes of the source and no other.
pub darray_set-IsArray :
    {a : DynamicArray} {xs : List Bytes} (i : ℕ) (src : Bytes)
    → IsArray a xs
    → i < a.size
    → a.element_size ≤ length src
    → Returns
        (darray_set (some a) i (some src))
        λ (r : Bool × DynamicArray). (r.0 ≡ true) × IsArray r.1 (set xs i (take a.element_size src))
unfolding darray_set write_at
darray_set-IsArray {a} {xs} i src is l long =
    let (m, _, w) = inside is i (omega (arith, is.room, l)) in
    let n : length (take a.element_size src) ≡ a.element_size = length-x is i src l long in
    (
      (true, written is i src l long),
      ground (arith, w, m, l, long),
      (refl, written-IsArray is i src l long),
    )
