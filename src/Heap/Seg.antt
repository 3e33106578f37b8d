-- ===== src/Heap/Seg.antt =====
-- Chains of nodes that own their data blocks, whatever else a node holds.
use gaveta.Base.{
  ℕ, ◌≡◌, ◌≢◌, refl, ◌∙◌, Bool, true, false, ◌||◌, Option, none, some, List, [], ◌∷◌, ◌++◌, arith,
  ◌==◌, length, ok,
}
use gaveta.Heap.{Ptr, null, Bytes, Heap, write, load, load_block, store, free_node, free_block}

-- The fields that lists and queues share.
pub record Link : Type 0 where
  pub dat : Ptr
  pub data_size : ℕ
  pub next : Ptr

-- Node, data block and contents of each entry, in order.
abbrev pub Entry : Type 0
Entry = Ptr × Ptr × Bytes

abbrev pub has_node : Ptr → List Entry → Bool
has_node a [] = false
has_node a ((p, d, b) ∷ xs) = (a == p) || has_node a xs

abbrev pub has_block : Ptr → List Entry → Bool
has_block a [] = false
has_block a ((p, d, b) ∷ xs) = (a == d) || has_block a xs

pub has_node-append :
    (a : Ptr) (xs ys : List Entry) → has_node a (xs ++ ys) ≡ (has_node a xs || has_node a ys)
has_node-append a [] ys = refl
has_node-append a (x ∷ xs) ys = ground (arith, has_node-append a xs ys)

pub has_block-append :
    (a : Ptr) (xs ys : List Entry) → has_block a (xs ++ ys) ≡ (has_block a xs || has_block a ys)
has_block-append a [] ys = refl
has_block-append a (x ∷ xs) ys = ground (arith, has_block-append a xs ys)

module _ {N : Type 0} (link : N → Link) where
  -- A node of `size` bytes of data, with successor `q`.
  pub record Points (h : Heap N) (size : ℕ) (e : Entry) (q : Ptr) : Type 0 where
    pub node : N
    pub ne_null : e.0 ≢ null
    pub holds : h.cells e.0 ≡ some node
    pub links : link node ≡ record { dat = e.1; data_size = size; next = q }
    pub block_ne_null : e.1 ≢ null
    pub block : h.blocks e.1 ≡ some e.2
    pub sized : length e.2 ≡ size

  -- From `p` the `next` pointers lead through distinct nodes, with distinct blocks, to `stop`.
  pub data Seg (h : Heap N) (size : ℕ) (stop : Ptr) : Ptr → List Entry → Type 0 where
    nil : Seg h size stop stop []
    cons :
        {p q d : Ptr} {b : Bytes} {xs : List Entry}
        → Points h size (p, d, b) q
        → has_node p xs ≡ false
        → has_block d xs ≡ false
        → Seg h size stop q xs
        → Seg h size stop p ((p, d, b) ∷ xs)

  -- `g` agrees with `h` on the nodes and blocks of `xs`.
  pub record Agree (xs : List Entry) (h g : Heap N) : Type 0 where
    pub cells : (a : Ptr) → has_node a xs ≡ true → g.cells a ≡ h.cells a
    pub blocks : (a : Ptr) → has_block a xs ≡ true → g.blocks a ≡ h.blocks a

  module _ {h : Heap N} {size : ℕ} {stop : Ptr} where
    pub Seg-frame :
        {g : Heap N} {p : Ptr} {xs : List Entry}
        → Seg h size stop p xs
        → Agree xs h g
        → Seg g size stop p xs
    Seg-frame nil same = nil
    Seg-frame {g} (cons {p} {d = d} {xs = xs} e np nd s) same =
        cons
          (record {
            node = e.node;
            ne_null = e.ne_null;
            holds = same.cells p (ground arith) ∙ e.holds;
            links = e.links;
            block_ne_null = e.block_ne_null;
            block = same.blocks d (ground arith) ∙ e.block;
            sized = e.sized;
          })
          np nd
          (Seg-frame s (record {
            cells = λ a i. same.cells a (ground arith);
            blocks = λ a i. same.blocks a (ground arith);
          }))

    -- A write of a node off the chain.
    pub Seg-put :
        {p : Ptr} {xs : List Entry} (a : Ptr) (v : Option N)
        → Seg h size stop p xs
        → has_node a xs ≡ false
        → Seg (record h { cells = write h.cells a v }) size stop p xs
    Seg-put a v s out = Seg-frame s (record { cells = λ c i. ground arith; blocks = λ c i. refl })

    pub Seg-put_block :
        {p : Ptr} {xs : List Entry} (a : Ptr) (v : Option Bytes)
        → Seg h size stop p xs
        → has_block a xs ≡ false
        → Seg (record h { blocks = write h.blocks a v }) size stop p xs
    Seg-put_block a v s out =
        Seg-frame s (record { cells = λ c i. refl; blocks = λ c i. ground arith })

    -- An unused address is on no chain.
    pub not-has_node :
        {p : Ptr} {xs : List Entry} (a : Ptr)
        → Seg h size stop p xs
        → h.cells a ≡ none
        → has_node a xs ≡ false
    not-has_node a nil e = refl
    not-has_node a (cons pt np nd s) e = ground (arith, not-has_node a s e, pt.holds)

    pub not-has_block :
        {p : Ptr} {xs : List Entry} (a : Ptr)
        → Seg h size stop p xs
        → h.blocks a ≡ none
        → has_block a xs ≡ false
    not-has_block a nil e = refl
    not-has_block a (cons pt np nd s) e = ground (arith, not-has_block a s e, pt.block)

    pub stop_of_nil : {p : Ptr} → Seg h size stop p [] → p ≡ stop
    stop_of_nil nil = refl

pub not_null : (p : Ptr) → p ≢ null → (p == null) ≡ false
not_null p ne = ground arith

module _ {N : Type 0} (h : Heap N) (p : Ptr) (ne : p ≢ null) where
  pub load-ok : (n : N) → h.cells p ≡ some n → load p h ≡ ok (n, h)
  unfolding load
  load-ok n e = rw (not_null p ne, e)

  pub store-ok :
      (n m : N)
      → h.cells p ≡ some n
      → store p m h ≡ ok (tt, record h { cells = write h.cells p (some m) })
  unfolding store
  store-ok n m e = rw (store, load-ok n e)

  pub free_node-ok :
      (n : N)
      → h.cells p ≡ some n
      → free_node p h ≡ ok (tt, record h { cells = write h.cells p none })
  unfolding free_node
  free_node-ok n e = rw (free_node, load-ok n e)

  pub load_block-ok : (b : Bytes) → h.blocks p ≡ some b → load_block p h ≡ ok (b, h)
  unfolding load_block
  load_block-ok b e = rw (not_null p ne, e)

  pub free_block-ok :
      (b : Bytes)
      → h.blocks p ≡ some b
      → free_block p h ≡ ok (tt, record h { blocks = write h.blocks p none })
  unfolding free_block
  free_block-ok b e = rw (free_block, load_block-ok b e)
