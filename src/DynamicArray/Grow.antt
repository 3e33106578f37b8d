-- ===== src/DynamicArray/Grow.antt =====
-- `darray_create`, `darray_push` and `darray_pop` of GenericDynamicArray.c.
use gaveta.Base.{
  ℕ, ◌+◌, ◌-◌, ◌*◌, ◌%◌, ◌^◌, ◌≤◌, ◌<◌, ◌≡◌, ◌≢◌, refl, sym, ◌∙◌, ap, Bool, true, false, Option,
  none, some, some-injective, List, [], ◌∷◌, ◌++◌, arith, ltb, leb, ◌==◌, if◌then◌else◌, length,
  get_elem?, get_elem?-none, get_elem?-append_left, get_elem?-append_last, length-append,
  length-take, take, drop, ok, fault, ◌>>=◌, Returns, Bool-cases, inl, inr,
}
use gaveta.Heap.{Bytes}
use gaveta.DynamicArray.Splice.{
  splice, length-splice, element_at-splice, element_off-splice, read-append,
}
use gaveta.DynamicArray.{
  pool, libc, DynamicArray, Realloc, IsArray, write_at, darray_create, darray_resize, resize_to,
  append_at, darray_push, darray_pop,
}
use native.Mathlib.Nat.{le-mul_of_pos_right, mul-le-mul_right}
use gaveta.DynamicArray.Access.{inside, read-each}

-- Given a block of the size asked for, the new array is empty, with room for `initial_capacity`
-- elements, or 8; the size must not wrap around.
pub darray_create-IsArray :
    (element_size initial_capacity : ℕ) (block : ℕ → Option Bytes) (dat : Bytes)
    → 0 < element_size
    → (if ltb 0 initial_capacity then initial_capacity else 8) * element_size < 2 ^ 32
    → block ((if ltb 0 initial_capacity then initial_capacity else 8) * element_size) ≡ some dat
    → length dat ≡ (if ltb 0 initial_capacity then initial_capacity else 8) * element_size
    → (a : DynamicArray) × (darray_create element_size initial_capacity true block ≡ some a)
      × IsArray a []
unfolding darray_create
darray_create-IsArray e n block dat pos small got len =
    let capacity : ℕ = (if ltb 0 n then n else 8) in
    let w : (capacity * e) % 2 ^ 32 ≡ capacity * e = omega (arith, small) in
    let ne : (e == 0) ≡ false = ground (arith, pos) in
    (
      record { owner = pool; dat = dat; size = 0; capacity = capacity; element_size = e },
      rw (ne, w, got),
      record {
        sized = pos;
        filled = refl;
        room = omega arith;
        whole = len;
        small = small;
        each = λ i x e. ground (arith, e);
      },
    )

module _ {a : DynamicArray} {xs : List Bytes} (is : IsArray a xs) (src : Bytes)
    (l : a.size < a.capacity) (long : a.element_size ≤ length src) where
  abbrev x : Bytes
  x = take a.element_size src

  abbrev pushed : DynamicArray
  pushed = record a { dat = splice (a.size * a.element_size) x a.dat; size = a.size + 1 }

  length-x : length x ≡ a.element_size
  length-x = omega (arith, length-take a.element_size src, long)

  pushed-each :
      (j : ℕ) (y : Bytes)
      → get_elem? (xs ++ x ∷ []) j ≡ some y
      → (take a.element_size (drop (j * a.element_size) pushed.dat) ≡ y)
        × (length y ≡ a.element_size)
  pushed-each j y at = elim (Bool-cases (a.size == j)) [
    | inl t ↦
        let eq : length xs ≡ j = ground (arith, t, is.filled) in
        let y_is : y ≡ x =
          some-injective y x
            (sym at ∙ ap (λ k. get_elem? (xs ++ x ∷ []) k) (sym eq) ∙ get_elem?-append_last xs x) in
        (
          rw (← eq, is.filled, y_is)
              (element_at-splice a.element_size a.size x a.dat length-x (inside is a.size l).0),
          rw y_is length-x,
        )
    | inr t ↦
        let ne : a.size ≢ j = ground (arith, t) in
        let within : j < length xs =
          ground (
            arith,
            ne,
            is.filled,
            length-append xs (x ∷ []),
            get_elem?-none (xs ++ x ∷ []) j,
            at,
          ) in
        let (old, n) = is.each j y (sym (get_elem?-append_left xs (x ∷ []) j within) ∙ at) in
        (element_off-splice a.element_size a.size j x a.dat length-x ne ∙ old, n)
  ]

  pushed-IsArray : IsArray pushed (xs ++ x ∷ [])
  pushed-IsArray = record {
    sized = is.sized;
    filled = omega (arith, length-append xs (x ∷ []), is.filled);
    room = omega (arith, l);
    whole = omega (arith, length-splice (a.size * a.element_size) x a.dat, is.whole);
    small = is.small;
    each = pushed-each;
  }

  append_at-pushed : append_at a src ≡ ok (true, pushed)
  unfolding append_at write_at
  append_at-pushed =
      let (m, w, _) = inside is a.size l in
      let c : a.capacity ≤ a.capacity * a.element_size = le-mul_of_pos_right a.capacity is.sized in
      let s : (a.size + 1) % 2 ^ 32 ≡ a.size + 1 = omega (arith, l, c, is.small) in
      rw (w, s) (ground (arith, m, length-x, long))

-- With room left and a source of `element_size` bytes, `darray_push` succeeds and puts the first bytes
-- of the source behind the other elements.
pub darray_push-IsArray :
    {a : DynamicArray} {xs : List Bytes} (realloc : Realloc) (src : Bytes)
    → IsArray a xs
    → a.size < a.capacity
    → a.element_size ≤ length src
    → Returns
        (darray_push realloc (some a) (some src))
        λ (r : Bool × DynamicArray). (r.0 ≡ true) × IsArray r.1 (xs ++ take a.element_size src ∷ [])
unfolding darray_push
darray_push-IsArray {a} realloc src is l long =
    let room : leb a.capacity a.size ≡ false = ground (arith, l) in
    (
      (true, pushed is src l long),
      rw (room, append_at-pushed is src l long),
      (refl, pushed-IsArray is src l long),
    )

-- On a full array, whose block `darray_create` has from `g_alloc`, it hands that block to `realloc`,
-- which is undefined, whatever the element.
pub darray_push-full :
    (a : DynamicArray) (realloc : Realloc) (src : Bytes)
    → a.owner ≡ pool
    → a.size ≡ a.capacity
    → darray_push realloc (some a) (some src) ≡ fault
unfolding darray_push darray_resize resize_to
darray_push-full a realloc src of_pool full =
    let room : leb a.capacity a.size ≡ true = ground (arith, full) in rw (room, of_pool)

-- What the C standard promises of a `realloc` that succeeds: the block has the new size, and starts
-- with the old one where that is no longer.
abbrev pub Grows : Realloc → Type 0
Grows realloc =
    (dat new : Bytes) (n : ℕ)
    → realloc dat n ≡ some new
    → length dat ≤ n
    → (rest : Bytes) × (new ≡ dat ++ rest) × (length new ≡ n)

abbrev doubled : DynamicArray → ℕ
doubled a = if a.capacity == 0 then 8 else a.capacity * 2

grown-IsArray :
    {a : DynamicArray} {xs : List Bytes} (new rest : Bytes)
    → IsArray a xs
    → new ≡ a.dat ++ rest
    → length new ≡ doubled a * a.element_size
    → doubled a * a.element_size < 2 ^ 32
    → IsArray (record a { dat = new; capacity = doubled a }) xs
grown-IsArray {a} {xs} new rest is kept len small = record {
  sized = is.sized;
  filled = is.filled;
  room = ground (arith, is.room);
  whole = len;
  small = small;
  each = λ i x at.
      let l : i < length xs = ground (arith, get_elem?-none xs i, at) in
      let (m, _, _) = inside is i (omega (arith, is.filled, is.room, l)) in
      let (old, n) = is.each i x at in
      (rw kept (read-append (i * a.element_size) a.element_size a.dat rest m ∙ old), n);
}

resize-grown :
    (a : DynamicArray) (realloc : Realloc) (new : Bytes)
    → 0 < a.element_size
    → a.owner ≡ libc
    → doubled a * a.element_size < 2 ^ 32
    → realloc a.dat (doubled a * a.element_size) ≡ some new
    → darray_resize realloc a ≡ ok (true, record a { dat = new; capacity = doubled a })
unfolding darray_resize resize_to
resize-grown a realloc new pos of_libc small got =
    let c : doubled a ≤ doubled a * a.element_size = le-mul_of_pos_right (doubled a) pos in
    let w : (if a.capacity == 0 then 8 else (a.capacity * 2) % 2 ^ 32) ≡ doubled a =
      ground (arith, c, small) in
    let v : (doubled a * a.element_size) % 2 ^ 64 ≡ doubled a * a.element_size =
      omega (arith, small) in
    ap (resize_to realloc a) w ∙ ground (arith, of_libc, v, got)

-- If its block were the C library's, a full array would grow to twice its capacity and then take the
-- element, so long as the block stays below 4 GiB and `realloc` succeeds.
pub darray_push-grown :
    {a : DynamicArray} {xs : List Bytes} (realloc : Realloc) (src new : Bytes)
    → Grows realloc
    → IsArray a xs
    → a.owner ≡ libc
    → a.size ≡ a.capacity
    → doubled a * a.element_size < 2 ^ 32
    → realloc a.dat (doubled a * a.element_size) ≡ some new
    → a.element_size ≤ length src
    → Returns (darray_push realloc (some a) (some src)) λ (r : Bool × DynamicArray).
      (r.0 ≡ true) × (r.1.capacity ≡ doubled a) × IsArray r.1 (xs ++ take a.element_size src ∷ [])
unfolding darray_push
darray_push-grown {a} {xs} realloc src new grows is of_libc full small got long =
    let room : leb a.capacity a.size ≡ true = ground (arith, full) in
    let m : a.capacity * a.element_size ≤ doubled a * a.element_size =
      mul-le-mul_right a.element_size (ground arith) in
    let (rest, kept, len) =
      grows a.dat new (doubled a * a.element_size) got (omega (arith, is.whole, m)) in
    let is' = grown-IsArray new rest is kept len small in
    let l : a.size < doubled a = ground (arith, full) in
    (
      (true, pushed is' src l long),
      rw (room, resize-grown a realloc new is.sized of_libc small got)
          (append_at-pushed is' src l long),
      (refl, refl, pushed-IsArray is' src l long),
    )

-- On an array with elements `darray_pop` takes the last one off and copies it out if that is wanted.
pub darray_pop-IsArray :
    {a : DynamicArray} (xs : List Bytes) (x : Bytes) (wanted : Bool)
    → IsArray a (xs ++ x ∷ [])
    → Returns (darray_pop (some a) wanted) λ (r : Bool × Option Bytes × DynamicArray).
      (r.0 ≡ true) × (r.1 ≡ (if wanted then some x else none)) × IsArray r.2 xs
unfolding darray_pop
darray_pop-IsArray {a} xs x wanted is =
    let n : a.size ≡ length xs + 1 = omega (arith, is.filled, length-append xs (x ∷ [])) in
    let some_left : (a.size == 0) ≡ false = ground (arith, n) in
    let last : a.size - 1 ≡ length xs = omega (arith, n) in
    let (_, w, _) = inside is (length xs) (omega (arith, n, is.room)) in
    let run = read-each is (length xs) x (omega (arith, n)) (get_elem?-append_last xs x) in
    (
      (true, (if wanted then some x else none), record a { size = a.size - 1 }),
      rw (some_left, last, w, run, ◌>>=◌) (ground arith),
      (
        refl,
        refl,
        record {
          sized = is.sized;
          filled = sym last;
          room = omega (arith, is.room);
          whole = is.whole;
          small = is.small;
          each = λ i y at.
              is.each i y (
                get_elem?-append_left xs (x ∷ []) i (ground (arith, get_elem?-none xs i, at)) ∙ at);
        },
      ),
    )

-- An empty array has nothing to pop, and stays as it is.
pub darray_pop-nil :
    {a : DynamicArray} (wanted : Bool)
    → IsArray a []
    → darray_pop (some a) wanted ≡ ok (false, none, a)
unfolding darray_pop
darray_pop-nil wanted is = ground (arith, is.filled)
