-- ===== src/Queue/Push.antt =====
-- `init_gq` and `push_gq` of GenericQueue.c.
use gaveta.Base.{
  ℕ, ◌≤◌, ◌<◌, ◌≡◌, ◌≢◌, refl, sym, ◌∙◌, ap, inl, inr, Bool-cases, ==_iff, Bool, true, false, none,
  some, List, [], ◌∷◌, ◌++◌, arith, ◌==◌, length, take, length-take, Returns,
}
use gaveta.Heap.{Ptr, null, Bytes, Heap, Fresh, write, load, store}
use gaveta.Heap.Seg.{
  Link, Entry, has_node, has_block, has_node-append, has_block-append, Seg, nil, cons, Points,
  not-has_node, not-has_block, stop_of_nil, not_null,
}
use gaveta.Queue.{Node, link, last_of, IsQueue, init_gq, push_at, push_gq}

-- The addresses that `g_alloc` returns for a new entry: not NULL, and unused.
pub record IsFresh (h : Heap Node) (fresh : Fresh) : Type 0 where
  pub node_ne : fresh.node ≢ null
  pub dat_ne : fresh.dat ≢ null
  pub node_free : h.cells (fresh.node) ≡ none
  pub dat_free : h.blocks (fresh.dat) ≡ none

-- The address of the last of a chain's nodes is on the chain; a chain is extended by writing its
-- last `next`, in any heap that otherwise agrees on it.
record Extends (h : Heap Node) (size : ℕ) (p : Ptr) (x : Entry) (xs : List Entry) : Type 0 where
  node : Node
  ne_null : last_of x.0 xs ≢ null
  holds : h.cells (last_of x.0 xs) ≡ some node
  on : has_node (last_of x.0 xs) (x ∷ xs) ≡ true
  extend :
      (g : Heap Node) (new : Entry)
      → g.cells (last_of x.0 xs) ≡ some (record node { next = new.0 })
      → ((a : Ptr) → has_node a (x ∷ xs) ≡ true → a ≢ last_of x.0 xs → g.cells a ≡ h.cells a)
      → ((a : Ptr) → has_block a (x ∷ xs) ≡ true → g.blocks a ≡ h.blocks a)
      → Points link g size new null
      → has_node new.0 (x ∷ xs) ≡ false
      → has_block new.1 (x ∷ xs) ≡ false
      → Seg link g size null p (x ∷ (xs ++ new ∷ []))

off_last :
    (p : Ptr) (xs : List Entry) {q : Ptr} → p ≡ q → has_node p xs ≡ false → has_node q xs ≡ true → ⊥
off_last p xs e off on = let on' : has_node p xs ≡ true = rw e on in cc

ne_last :
    (l t : Ptr) (xs : List Entry) → has_node l xs ≡ false → has_node t xs ≡ true → (t == l) ≡ false
ne_last l t xs off on = elim (Bool-cases (t == l)) [
  | inl e ↦ absurd (off_last l xs (sym ((==_iff t l).0 e)) off on)
  | inr e ↦ e
]

last_of-append : (l : Ptr) (xs : List Entry) (y : Entry) → last_of l (xs ++ y ∷ []) ≡ y.0
last_of-append l [] y = refl
last_of-append l (x ∷ xs) y = last_of-append x.0 xs y

Seg-Extends :
    {h : Heap Node} {size : ℕ} {p : Ptr} {x : Entry} (xs : List Entry)
    → Seg link h size null p (x ∷ xs)
    → Extends h size p x xs
Seg-Extends [] (cons {p} {q} {d} {b} e np nd s) = record {
  node = e.node;
  ne_null = e.ne_null;
  holds = e.holds;
  on = ground arith;
  extend = λ g new at cells blocks pt nn nb.
      cons
        (record {
          node = record (e.node) { next = new.0 };
          ne_null = e.ne_null;
          holds = at;
          links = ap (λ (k : Link). record k { next = new.0 }) e.links;
          block_ne_null = e.block_ne_null;
          block = blocks d (ground arith) ∙ e.block;
          sized = e.sized;
        })
        (ground arith) (ground arith) (cons pt refl refl nil);
}
Seg-Extends (y ∷ ys) (cons {p} {q} {d} {b} e np nd s) =
    let r = Seg-Extends ys s in
    record {
      node = r.node;
      ne_null = r.ne_null;
      holds = r.holds;
      on = ground (arith, r.on);
      extend = λ g new at cells blocks pt nn nb.
          cons
            (record {
              node = e.node;
              ne_null = e.ne_null;
              holds = cells p (ground arith) (λ i. off_last p (y ∷ ys) i np r.on) ∙ e.holds;
              links = e.links;
              block_ne_null = e.block_ne_null;
              block = blocks d (ground arith) ∙ e.block;
              sized = e.sized;
            })
            (ground (arith, has_node-append p ys (new ∷ [])))
            (ground (arith, has_block-append d ys (new ∷ [])))
            (r.extend g new at (λ a i ne. cells a (ground arith) ne)
              (λ a i. blocks a (ground arith)) pt (ground arith) (ground arith));
    }

module _ {h : Heap Node} (l : Ptr) (size : ℕ) (fresh : Fresh) (src : Bytes) (f : IsFresh h fresh)
    (long : size ≤ length src) where
  abbrev new : Entry
  new = (fresh.node, fresh.dat, take size src)

  abbrev Pushed : List Entry → Bool × Heap Node → Type 0
  Pushed xs r = (r.0 ≡ true) × IsQueue r.1 l size (xs ++ new ∷ [])

  abbrev made : Node
  made = record { dat = fresh.dat; data_size = size; next = null; tail = null }

  push-first : IsQueue h l size [] → Returns (push_at fresh l (some src) h) (Pushed [])
  unfolding push_at load store
  push-first is =
      let s = is.sentinel in
      let ne_l : (l == fresh.node) ≡ false = ground (arith, is.holds, f.node_free) in
      let end : s.next ≡ null = stop_of_nil link is.chain in
      let s1 : Node = record s { next = fresh.node } in
      let s2 : Node = record s1 { tail = fresh.node } in
      let g : Heap Node = record {
        cells = write (write (write h.cells (fresh.node) (some made)) l (some s1)) l (some s2);
        blocks = write h.blocks (fresh.dat) (some (take size src));
      } in
      (
        (true, g),
        ground (arith, is.ne_null, is.holds, f.node_ne, f.dat_ne, ne_l, is.sized, is.last),
        (
          refl,
          record {
            sentinel = s2;
            ne_null = is.ne_null;
            holds = ground arith;
            sized = is.sized;
            last = refl;
            apart = ground arith;
            chain =
                cons
                  (record {
                    node = made;
                    ne_null = f.node_ne;
                    holds = ground (arith, ne_l);
                    links = refl;
                    block_ne_null = f.dat_ne;
                    block = ground arith;
                    sized = omega (arith, length-take size src);
                  })
                  refl refl nil;
          },
        ),
      )

  push-later :
      {x : Entry} {xs : List Entry}
      → IsQueue h l size (x ∷ xs)
      → Returns (push_at fresh l (some src) h) (Pushed (x ∷ xs))
  unfolding push_at load store
  push-later {x} {xs} is =
      let s = is.sentinel in
      let t = last_of x.0 xs in
      let r = Seg-Extends xs is.chain in
      let fn : has_node (fresh.node) (x ∷ xs) ≡ false =
        not-has_node link (fresh.node) is.chain f.node_free in
      let fd : has_block (fresh.dat) (x ∷ xs) ≡ false =
        not-has_block link (fresh.dat) is.chain f.dat_free in
      let ne_l : (l == fresh.node) ≡ false = ground (arith, is.holds, f.node_free) in
      let ne_t : (t == fresh.node) ≡ false = ground (arith, r.holds, f.node_free) in
      let ne_tl : (t == l) ≡ false = ne_last l t (x ∷ xs) is.apart r.on in
      let t1 : Node = record (r.node) { next = fresh.node } in
      let s2 : Node = record s { tail = fresh.node } in
      let g : Heap Node = record {
        cells = write (write (write h.cells (fresh.node) (some made)) t (some t1)) l (some s2);
        blocks = write h.blocks (fresh.dat) (some (take size src));
      } in
      (
        (true, g),
        ground (
          arith, is.ne_null, is.holds, f.node_ne, f.dat_ne, ne_l, ne_t, ne_tl, is.sized, is.last,
          r.holds, r.ne_null,
        ),
        (
          refl,
          record {
            sentinel = s2;
            ne_null = is.ne_null;
            holds = ground arith;
            sized = is.sized;
            last = sym (last_of-append x.0 xs new);
            apart = ground (arith, has_node-append l xs (new ∷ []), is.apart, ne_l);
            chain =
                r.extend g new (ground arith) (λ a i ne. ground arith) (λ a i. ground arith)
                  (record {
                    node = made;
                    ne_null = f.node_ne;
                    holds = ground (arith, ne_l, ne_t);
                    links = refl;
                    block_ne_null = f.dat_ne;
                    block = ground arith;
                    sized = omega (arith, length-take size src);
                  })
                  fn fd;
          },
        ),
      )

module _ {h : Heap Node} {l : Ptr} {size : ℕ} (fresh : Fresh) (src : Bytes) (xs : List Entry)
    (is : IsQueue h l size xs) where
  -- Given fresh addresses and a source that is long enough, `push_gq` succeeds and puts a copy of the
  -- first `size` bytes behind the others.
  pub push_gq-IsQueue :
      IsFresh h fresh
      → size ≤ length src
      → Returns (push_gq fresh (some l) (some src) h) λ (r : Bool × Heap Node).
        (r.0 ≡ true) × IsQueue r.1 l size (xs ++ (fresh.node, fresh.dat, take size src) ∷ [])
  unfolding push_gq
  push_gq-IsQueue f long = rw (not_null l is.ne_null) (at xs is)
    where
      at :
          (xs : List Entry)
          → IsQueue h l size xs
          → Returns (push_at fresh l (some src) h) (Pushed l size fresh src f long xs)
      at [] is = push-first l size fresh src f long is
      at (x ∷ xs) is = push-later l size fresh src f long is

-- A new queue is the empty one.
pub init_gq-IsQueue :
    (h : Heap Node) (fresh : Fresh) (size : ℕ)
    → 0 < size
    → fresh.node ≢ null
    → Returns
        (init_gq fresh size h)
        λ (r : (Bool × Ptr) × Heap Node). (r.0.0 ≡ true) × IsQueue r.1 r.0.1 size []
unfolding init_gq load store
init_gq-IsQueue h fresh size pos ne =
    let bare : Node = record { dat = null; data_size = size; next = null; tail = null } in
    let empty : Node = record bare { tail = fresh.node } in
    (
      (
        (true, fresh.node),
        record h {
          cells = write (write h.cells (fresh.node) (some bare)) (fresh.node) (some empty);
        },
      ),
      ground arith,
      (
        refl,
        record {
          sentinel = empty;
          ne_null = ne;
          holds = ground arith;
          sized = refl;
          last = refl;
          apart = refl;
          chain = nil;
        },
      ),
    )
