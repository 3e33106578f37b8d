-- ===== src/BTree/Pager/Cache.antt =====
-- The program's own operations of a pager, in src/modules/ds/BTree.c. A pointer is given by the bytes of
-- the object that it points to, as laid out with pointers of eight bytes: `rrn` is at byte 8 of a
-- btree_node, which has 32.
use gaveta.Base.{
  ℕ, zero, suc, ◌+◌, ◌*◌, ◌%◌, ◌^◌, ◌≤◌, ◌<◌, ◌≡◌, refl, Bool, true, false, Option, none, some,
  List, [], ◌∷◌, ◌++◌, arith, ltb, leb, ◌==◌, if◌then◌else◌, length, take, get_elem?,
  get_elem?-none, ◌/◌, Bool-cases, Option-cases, ◌⊎◌, inl, inr, Run, ok, fault, exited, ◌>>=◌,
}
use gaveta.Heap.{Bytes}
use gaveta.BTree.{BTreeNode, put_elem}
use gaveta.BTree.Split.{no_child}
use gaveta.BTree.Pager.{Pager}

-- `((btree_node *)v)->rrn`
pub rrn_of : Bytes → Run ℕ
rrn_of object = elim (get_elem? object 8) [
  | none ↦ fault
  | some a ↦ elim (get_elem? object 9) [ none ↦ fault | some b ↦ ok (a + 2 ^ 8 * b) ]
]

-- A failed assertion ends the program.
pub compare_btree_nodes : Option Bytes → Option Bytes → Run Bool
compare_btree_nodes none v2 = exited
compare_btree_nodes (some v1) none = exited
compare_btree_nodes (some v1) (some v2) = rrn_of v1 >>= λ a. rrn_of v2 >>= λ b. ok (a == b)

-- `search_gq` on the cache, with this comparison: the data of the entry that is found.
pub search_cache : List Bytes → Bytes → Run (Option Bytes)
search_cache [] key = ok none
search_cache (entry ∷ cache) key = compare_btree_nodes (some entry) (some key) >>= λ same.
    elim same [ true ↦ ok (some entry) | false ↦ search_cache cache key ]

-- `push_gq` on the cache copies sizeof(btree_node) bytes.
pub push_cache : List Bytes → Bytes → Run (List Bytes)
push_cache cache source =
    if ltb (length source) 32 then fault else ok (cache ++ take 32 source ∷ [])

-- for (i = 0; i < order; i++) p->children[i] = (u16)-1;
pub reset_children : (n i : ℕ) → List ℕ → Run (List ℕ)
reset_children zero i children = ok children
reset_children (suc n) i children =
    put_elem children i no_child >>= λ children. reset_children n (i + 1) children

-- `free` says whether `g_alloc` has room: where it has none the model goes on with the NULL that `g_alloc`
-- returns when no page can be replaced, and its `exit`, when no run of free pages is long enough, is
-- counted with it. The arrays are NULL after the `memset`.
pub alloc_btree_node : (free : Bool) → (order : ℕ) → Run (Option BTreeNode)
alloc_btree_node false order = ok none
alloc_btree_node true order = reset_children order 0 [] >>= λ children. ok (
    some (record {
      keys = [];
      rrn = 0;
      children = children;
      next_leaf = no_child;
      child_num = 0;
      keys_num = 0;
      leaf = true;
    }))

-- The memory and the index file: `free`, as above; `file` is what `fseek` and `fread` yield for a record
-- number, `none` where one of them fails; `writes`, whether `fseek` and `fwrite` succeed; `deref`, the
-- node at a pointer that is stored in an entry, `none` for NULL. `pointer` is the eight bytes of a
-- pointer variable.
pub record Files : Type 0 where
  pub free : Bool
  pub file : ℕ → Option BTreeNode
  pub writes : Bool
  pub deref : Bytes → Option BTreeNode
  pub pointer : Bytes
  pub capacity : ℕ
  pub cache : List Bytes
  pub free_rrn : List ℕ

-- `push_gq` of a pointer variable; `pop_gq` from a full cache copies an entry of 32 bytes into another
-- one, which is undefined.
pub cache_node : Files → Run Files
cache_node f = push_cache f.cache f.pointer >>= λ cache.
    if leb f.capacity (length cache) then fault else ok (record f { cache = cache })

-- The bytes of a `u16`.
abbrev pub u16_bytes : ℕ → Bytes
u16_bytes n = n % 2 ^ 8 ∷ n / 2 ^ 8 ∷ []

-- The part of `load_btree_node` on a node that is not in memory.
pub read_btree_node : ℕ → Files → ℕ → Run (Option BTreeNode × Files)
read_btree_node order f rrn = alloc_btree_node f.free order >>= λ a. elim a [
  | none ↦ ok (none, f)
  | some blank ↦ elim (f.file rrn) [
    | none ↦ ok (none, f)
    | some bn ↦ cache_node f >>= λ f. ok (some bn, f)
  ]
]

pub load_btree_node : ℕ → Files → ℕ → Run (Option BTreeNode × Files)
load_btree_node order f rrn =
    if f.free
    then (search_cache f.cache (u16_bytes rrn) >>= λ found. elim found [
      | none ↦ ok (none, f)
      | some entry ↦ elim (f.deref entry) [
        | some bn ↦ ok (some bn, f)
        | none ↦ read_btree_node order f rrn
      ]
    ])
    else fault

-- `true` is BTREE_SUCCESS, `false` BTREE_ERROR_IO.
pub write_index_record : Files → BTreeNode → Run (Bool × Files)
write_index_record f p =
    if f.writes
    then (search_cache f.cache f.pointer >>= λ found. elim found [
      | some entry ↦ ok (true, f)
      | none ↦ cache_node f >>= λ f. ok (true, f)
    ])
    else ok (false, f)

List-cases : {A : Type 0} (xs : List A) → (xs ≡ []) ⊎ ((y : A) × (ys : List A) × (xs ≡ y ∷ ys))
List-cases [] = inl refl
List-cases (y ∷ ys) = inr (y, ys, refl)

-- What `b_insert` and `b_search` do with pages, in the program; the data file is a parameter.
unfoldable pub own_pager :
    ℕ → (erase : Files → ℕ → Run (Bool × Files)) → (read : Files → ℕ → Run Files) → Pager Files
own_pager order erase read = record {
  load = λ f rrn. load_btree_node order f rrn;
  release = λ f p. search_cache f.cache f.pointer >>= λ found. ok f;
  write = λ f p. write_index_record f p;
  alloc = λ f. alloc_btree_node f.free order >>= λ p. ok (p, f);
  take_rrn =
      λ f. elim f.free_rrn [ [] ↦ ok (0, f) | rrn ∷ rrns ↦ ok (rrn, record f { free_rrn = rrns }) ];
  give_rrn = λ f rrn. ok (record f { free_rrn = rrn ∷ f.free_rrn });
  erase = erase;
  read_record = read;
}

short-rrn_of : (object : Bytes) → length object ≤ 8 → rrn_of object ≡ fault
unfolding rrn_of
short-rrn_of object short = let e = get_elem?-none object 8 short in rw (rrn_of, e) refl

rrn_of-cases : (object : Bytes) → ((n : ℕ) × (rrn_of object ≡ ok n)) ⊎ (rrn_of object ≡ fault)
unfolding rrn_of
rrn_of-cases object = elim (Option-cases (get_elem? object 8)) [
  | inl e ↦ inr (rw (rrn_of, e) refl)
  | inr (a, e) ↦ elim (Option-cases (get_elem? object 9)) [
    | inl e' ↦ inr (rw (rrn_of, e, e') refl)
    | inr (b, e') ↦ inl (a + 2 ^ 8 * b, rw (rrn_of, e, e') refl)
  ]
]

-- A search for an object of at most eight bytes reads beyond it, unless the cache is empty.
search_cache-short :
    (entry : Bytes) (cache : List Bytes) (key : Bytes)
    → length key ≤ 8
    → search_cache (entry ∷ cache) key ≡ fault
unfolding search_cache compare_btree_nodes
search_cache-short entry cache key short = elim (rrn_of-cases entry) [
  | inl (n, e) ↦ rw (search_cache, compare_btree_nodes, e, short-rrn_of key short) refl
  | inr e ↦ rw (search_cache, compare_btree_nodes, e) refl
]

-- The program's `load_btree_node` never loads a node: it returns NULL, from an empty cache, or its
-- behaviour is undefined.
pub load_btree_node-null :
    (order : ℕ) (f : Files) (rrn : ℕ)
    → ((f.cache ≡ []) × (load_btree_node order f rrn ≡ ok (none, f)))
      ⊎ (load_btree_node order f rrn ≡ fault)
unfolding load_btree_node search_cache
load_btree_node-null order f rrn = elim (Bool-cases f.free) [
  | inr full ↦ inr (simp (load_btree_node, full))
  | inl free ↦ elim (List-cases f.cache) [
    | inl empty ↦ inl (empty, simp (load_btree_node, free, empty, search_cache))
    | inr (entry, cache, is) ↦
        let e : search_cache (entry ∷ cache) (u16_bytes rrn) ≡ fault =
          search_cache-short entry cache (u16_bytes rrn) (omega arith) in
        inr (simp (load_btree_node, free, is, e))
  ]
]

-- Where the node is written to the file, `write_index_record` goes on to undefined behaviour: a search
-- for, or a copy of, the pointer variable as if it were a node.
pub write_index_record-fault :
    (f : Files) (p : BTreeNode)
    → length f.pointer ≡ 8
    → f.writes ≡ true
    → write_index_record f p ≡ fault
unfolding write_index_record search_cache cache_node push_cache
write_index_record-fault f p eight writes = elim (List-cases f.cache) [
  | inl empty ↦
      let short : ltb (length f.pointer) 32 ≡ true = ground (arith, eight) in
      simp (write_index_record, writes, empty, search_cache, cache_node, push_cache, short)
  | inr (entry, cache, is) ↦
      let e : search_cache (entry ∷ cache) f.pointer ≡ fault =
        search_cache-short entry cache f.pointer (omega (arith, eight)) in
      simp (write_index_record, writes, is, e)
]

pub write_index_record-error :
    (f : Files) (p : BTreeNode) → f.writes ≡ false → write_index_record f p ≡ ok (false, f)
unfolding write_index_record
write_index_record-error f p fails = simp (write_index_record, fails)

-- `alloc_btree_node` writes through the NULL pointer that `memset` has left.
pub alloc_btree_node-fault : (order : ℕ) → 0 < order → alloc_btree_node true order ≡ fault
unfolding alloc_btree_node reset_children put_elem
alloc_btree_node-fault zero some_cells = absurd (omega arith)
alloc_btree_node-fault (suc n) some_cells = refl

pub alloc_btree_node-full : (order : ℕ) → alloc_btree_node false order ≡ ok none
unfolding alloc_btree_node
alloc_btree_node-full order = refl
