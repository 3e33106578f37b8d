-- ===== src/LinkedList/Insert.antt =====
-- `init_ll` and `insert_ll` of GenericLinkedList.c.
use gaveta.Base.{
  ℕ, ◌≤◌, ◌<◌, ◌≡◌, ◌≢◌, refl, Bool, true, false, none, some, List, [], ◌∷◌, arith, ◌==◌, length,
  take, length-take, ok, Returns,
}
use gaveta.Heap.{Ptr, null, Bytes, Heap, Fresh, write, load, store}
use gaveta.Heap.Seg.{
  Entry, has_node, has_block, nil, cons, Seg-put, Seg-put_block, not-has_node, not-has_block,
  not_null,
}
use gaveta.LinkedList.{Node, link, IsList, init_ll, insert_at, insert_ll}

-- The addresses that `g_alloc` returns for a new entry: not NULL, and unused.
pub record IsFresh (h : Heap Node) (fresh : Fresh) : Type 0 where
  pub node_ne : fresh.node ≢ null
  pub dat_ne : fresh.dat ≢ null
  pub node_free : h.cells (fresh.node) ≡ none
  pub dat_free : h.blocks (fresh.dat) ≡ none

module _ {h : Heap Node} {l : Ptr} {size : ℕ} {xs : List Entry} (fresh : Fresh) (src : Bytes)
    (is : IsList h l size xs) (f : IsFresh h fresh) (long : size ≤ length src) where
  abbrev new_node : Node
  new_node = record { dat = fresh.dat; data_size = is.sentinel.data_size; next = is.sentinel.next }

  abbrev new_sentinel : Node
  new_sentinel = record (is.sentinel) { next = fresh.node }

  abbrev bytes : Bytes
  bytes = take (is.sentinel.data_size) src

  abbrev after : Heap Node
  after = record {
    cells =
        write
          (write (write h.cells (fresh.node) (some (record new_node { next = null }))) (fresh.node)
            (some new_node))
          l (some new_sentinel);
    blocks = write h.blocks (fresh.dat) (some bytes);
  }

  ne_l : (l == fresh.node) ≡ false
  ne_l = ground (arith, is.holds, f.node_free)

  insert-run : insert_at fresh l (some src) h ≡ ok (true, after)
  unfolding insert_at load store
  insert-run = ground (arith, is.ne_null, is.holds, f.node_ne, f.dat_ne, ne_l, is.sized)

  new_apart : (has_node (fresh.node) xs ≡ false) × (has_block (fresh.dat) xs ≡ false)
  new_apart = (
    not-has_node link (fresh.node) is.chain f.node_free,
    not-has_block link (fresh.dat) is.chain f.dat_free,
  )

  after-IsList : IsList after l size ((fresh.node, fresh.dat, take size src) ∷ xs)
  after-IsList = record {
    sentinel = new_sentinel;
    ne_null = is.ne_null;
    holds = ground arith;
    sized = is.sized;
    apart = ground (arith, is.apart, ne_l);
    chain =
        cons
          (record {
            node = new_node;
            ne_null = f.node_ne;
            holds = ground (arith, ne_l);
            links = ground (arith, is.sized);
            block_ne_null = f.dat_ne;
            block = ground (arith, is.sized);
            sized = omega (arith, length-take size src);
          })
          new_apart.0 new_apart.1
          (Seg-put link l (some new_sentinel)
            (Seg-put link (fresh.node) (some new_node)
              (Seg-put link (fresh.node) (some (record new_node { next = null }))
                (Seg-put_block link (fresh.dat) (some bytes) is.chain new_apart.1) new_apart.0)
              new_apart.0)
            is.apart);
  }

  -- Given fresh addresses and a source that is long enough, `insert_ll` succeeds and puts a copy of
  -- the first `size` bytes in front.
  pub insert_ll-IsList : Returns (insert_ll fresh (some l) (some src) h) λ (r : Bool × Heap Node).
      (r.0 ≡ true) × IsList r.1 l size ((fresh.node, fresh.dat, take size src) ∷ xs)
  unfolding insert_ll
  insert_ll-IsList = ((true, after), rw (not_null l is.ne_null, insert-run), (refl, after-IsList))

-- Without data the node is made, found to have none, and lost: the list is as before.
pub insert_ll-no_data :
    {h : Heap Node} {l : Ptr} {size : ℕ} {xs : List Entry} (fresh : Fresh)
    → IsList h l size xs
    → IsFresh h fresh
    → Returns (insert_ll fresh (some l) none h) λ (r : Bool × Heap Node).
      (r.0 ≡ false)
      × IsList r.1 l size xs
      × (r.1.cells (fresh.node) ≡ some (record { dat = null; data_size = size; next = null }))
unfolding insert_ll insert_at load
insert_ll-no_data {h} {l} {size} fresh is f =
    let lost : Node = record { dat = null; data_size = size; next = null } in
    let ne_l : (l == fresh.node) ≡ false = ground (arith, is.holds, f.node_free) in
    (
      (false, record h { cells = write h.cells (fresh.node) (some lost) }),
      ground (arith, is.ne_null, is.holds, f.node_ne, is.sized),
      (
        refl,
        record {
          sentinel = is.sentinel;
          ne_null = is.ne_null;
          holds = ground (arith, ne_l, is.holds);
          sized = is.sized;
          apart = is.apart;
          chain =
              Seg-put link (fresh.node) (some lost) is.chain
                (not-has_node link (fresh.node) is.chain f.node_free);
        },
        ground arith,
      ),
    )

-- A new list is the empty one.
pub init_ll-IsList :
    (h : Heap Node) (fresh : Fresh) (size : ℕ)
    → 0 < size
    → fresh.node ≢ null
    → Returns
        (init_ll fresh size h)
        λ (r : (Bool × Ptr) × Heap Node). (r.0.0 ≡ true) × IsList r.1 r.0.1 size []
unfolding init_ll
init_ll-IsList h fresh size pos ne =
    let empty : Node = record { dat = null; data_size = size; next = null } in
    (
      ((true, fresh.node), record h { cells = write h.cells (fresh.node) (some empty) }),
      ground arith,
      (
        refl,
        record {
          sentinel = empty;
          ne_null = ne;
          holds = ground arith;
          sized = refl;
          apart = refl;
          chain = nil;
        },
      ),
    )
