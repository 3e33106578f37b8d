-- ===== src/LinkedList/Remove.antt =====
-- `remove_ll` and `clear_ll` of GenericLinkedList.c.
use gaveta.Base.{
  ℕ, zero, suc, ◌<◌, ◌≡◌, ◌≢◌, refl, ◌∙◌, ap, Bool, true, false, Option, none, some, List, [], ◌∷◌,
  arith, ◌==◌, if◌then◌else◌, length, take, take-length, ok, Returns,
}
use gaveta.Heap.{
  Ptr, null, Bytes, Heap, write, load, load_block, store, free_node, free_block, deref, go_on,
}
use gaveta.Heap.Seg.{
  Link, Entry, has_node, has_block, Seg, cons, Points, Seg-put, Seg-put_block, stop_of_nil,
  not_null, load-ok, free_node-ok,
}
use gaveta.LinkedList.{
  Node, link, IsList, is_ll_empty, save, remove_at, remove_ll, clear_loop, clear_ll,
}

-- `g` is `h` without the node and the block of `e`, but for the sentinel at `l`.
pub record Without (e : Entry) (l : Ptr) (h g : Heap Node) : Type 0 where
  pub node : g.cells e.0 ≡ none
  pub block : g.blocks e.1 ≡ none
  pub cells : (a : Ptr) → a ≢ e.0 → a ≢ l → g.cells a ≡ h.cells a
  pub blocks : (a : Ptr) → a ≢ e.1 → g.blocks a ≡ h.blocks a

abbrev pub Removed :
    Ptr → ℕ → Bool → Entry → List Entry → Heap Node → (Bool × Option Bytes) × Heap Node → Type 0
Removed l size wanted e xs h r =
    (r.0.0 ≡ true)
    × (r.0.1 ≡ (if wanted then some e.2 else none))
    × IsList r.1 l size xs
    × Without e l h r.1

pub is_ll_empty-nil :
    {h : Heap Node} {l : Ptr} {size : ℕ}
    → IsList h l size []
    → is_ll_empty (some l) h ≡ ok (true, h)
unfolding is_ll_empty deref load
is_ll_empty-nil {h} {l} is = ground (arith, is.ne_null, is.holds, stop_of_nil link is.chain)

module _ {h : Heap Node} {l : Ptr} {size : ℕ} {s : Node} {p q d : Ptr} {b : Bytes} {xs : List Entry}
    (ne : l ≢ null) (holds : h.cells l ≡ some s) (sized : s.data_size ≡ size)
    (apart : has_node l ((p, d, b) ∷ xs) ≡ false) (first : s.next ≡ p)
    (e : Points link h size (p, d, b) q) (np : has_node p xs ≡ false) (nd : has_block d xs ≡ false)
    (rest : Seg link h size null q xs) where
  abbrev after : Heap Node
  after = record {
    cells = write (write h.cells l (some (record s { next = q }))) p none;
    blocks = write h.blocks d none;
  }

  abbrev n : Node
  n = e.node

  fields : (n.dat ≡ d) × (n.data_size ≡ size) × (n.next ≡ q)
  fields = (
    ap (λ (k : Link). k.dat) e.links,
    ap (λ (k : Link). k.data_size) e.links,
    ap (λ (k : Link). k.next) e.links,
  )

  copied-all : take size b ≡ b
  copied-all = rw (← e.sized) (take-length b)

  ne_p : (p == l) ≡ false
  ne_p = ground arith

  remove-run :
      (wanted : Bool) → remove_at l wanted h ≡ ok ((true, if wanted then some b else none), after)
  unfolding remove_at load load_block store free_node free_block save
  remove-run true = ground (
    arith, fields.0, fields.1, fields.2, e.holds, e.block, e.ne_null, e.block_ne_null, e.sized,
    copied-all, ne_p,
  )
  remove-run false =
      ground (arith, fields.0, fields.2, e.holds, e.block, e.ne_null, e.block_ne_null, ne_p)

  after-IsList : IsList after l size xs
  after-IsList = record {
    sentinel = record s { next = q };
    ne_null = ne;
    holds = ground (arith, ne_p);
    sized = sized;
    apart = ground arith;
    chain =
        Seg-put link p none
          (Seg-put link l (some (record s { next = q })) (Seg-put_block link d none rest nd)
            (ground arith))
          np;
  }

  after-Without : Without (p, d, b) l h after
  after-Without = record {
    node = ground arith;
    block = ground arith;
    cells = λ a x y. ground arith;
    blocks = λ a x. ground arith;
  }

  first-Removed :
      (wanted : Bool) → Returns (remove_ll (some l) wanted h) (Removed l size wanted (p, d, b) xs h)
  unfolding remove_ll is_ll_empty deref
  first-Removed wanted =
      let more : (s.next == null) ≡ false = ground (arith, e.ne_null) in
      (
        ((true, if wanted then some b else none), after),
        rw (not_null l ne, load-ok h l ne s holds, go_on, more, remove-run wanted),
        (refl, refl, after-IsList, after-Without),
      )

-- The chain is matched where its start is a variable.
remove-Seg :
    {h : Heap Node} {l : Ptr} {size : ℕ} {s : Node} {p : Ptr} {x : Entry} {xs : List Entry}
    (wanted : Bool)
    → l ≢ null
    → h.cells l ≡ some s
    → s.data_size ≡ size
    → has_node l (x ∷ xs) ≡ false
    → s.next ≡ p
    → Seg link h size null p (x ∷ xs)
    → Returns (remove_ll (some l) wanted h) (Removed l size wanted x xs h)
remove-Seg wanted ne holds sized apart first (cons e np nd rest) =
    first-Removed ne holds sized apart first e np nd rest wanted

-- On a list with entries `remove_ll` takes the first entry off the list, copies its bytes out if they are wanted, and frees
-- its node and block and nothing else.
pub remove_ll-cons :
    {h : Heap Node} {l : Ptr} {size : ℕ} {x : Entry} {xs : List Entry} (wanted : Bool)
    → IsList h l size (x ∷ xs)
    → Returns (remove_ll (some l) wanted h) (Removed l size wanted x xs h)
remove_ll-cons wanted is = remove-Seg wanted is.ne_null is.holds is.sized is.apart refl is.chain

-- On an empty list it says so and changes nothing.
pub remove_ll-nil :
    {h : Heap Node} {l : Ptr} {size : ℕ} (wanted : Bool)
    → IsList h l size []
    → remove_ll (some l) wanted h ≡ ok ((false, none), h)
unfolding remove_ll
remove_ll-nil wanted is = rw (is_ll_empty-nil is)

-- Every node and block of `xs` is free, and what is off the list is as in `h`.
pub record Cleared (xs : List Entry) (l : Ptr) (h g : Heap Node) : Type 0 where
  pub nodes : (a : Ptr) → has_node a xs ≡ true → g.cells a ≡ none
  pub blocks : (a : Ptr) → has_block a xs ≡ true → g.blocks a ≡ none
  pub other_nodes : (a : Ptr) → has_node a xs ≡ false → a ≢ l → g.cells a ≡ h.cells a
  pub other_blocks : (a : Ptr) → has_block a xs ≡ false → g.blocks a ≡ h.blocks a

Seg-apart :
    {h : Heap Node} {size : ℕ} {p : Ptr} {x : Entry} {xs : List Entry}
    → Seg link h size null p (x ∷ xs)
    → (has_node x.0 xs ≡ false) × (has_block x.1 xs ≡ false) × (x.0 ≢ null)
Seg-apart (cons e np nd rest) = (np, nd, e.ne_null)

Seg-start :
    {h : Heap Node} {size : ℕ} {p : Ptr} {x : Entry} {xs : List Entry}
    → Seg link h size null p (x ∷ xs)
    → p ≢ null
Seg-start (cons e np nd rest) = e.ne_null

pub is_ll_empty-cons :
    {h : Heap Node} {l : Ptr} {size : ℕ} {x : Entry} {xs : List Entry}
    → IsList h l size (x ∷ xs)
    → is_ll_empty (some l) h ≡ ok (false, h)
unfolding is_ll_empty deref load
is_ll_empty-cons is = ground (arith, is.ne_null, is.holds, Seg-start is.chain)

clear_loop-Cleared :
    (k : ℕ) {h : Heap Node} {l : Ptr} {size : ℕ} (xs : List Entry)
    → IsList h l size xs
    → length xs < k
    → Returns
        (clear_loop k l h)
        λ (r : Unit {0} × Heap Node). IsList r.1 l size [] × Cleared xs l h r.1
unfolding clear_loop
clear_loop-Cleared zero xs is fuel = absurd (omega arith)
clear_loop-Cleared (suc k) {h} [] is fuel = (
  (tt, h),
  rw (is_ll_empty-nil is),
  (
    is,
    record {
      nodes = λ a e. cc;
      blocks = λ a e. cc;
      other_nodes = λ a e ne. refl;
      other_blocks = λ a e. refl;
    },
  ),
)
clear_loop-Cleared (suc k) {h} {l} (x ∷ xs) is fuel =
    let (r, run, (_, _, is', gone)) = remove_ll-cons false is in
    let (out, run', (is'', c)) = clear_loop-Cleared k xs is' (omega arith) in
    let (np, nd, _) = Seg-apart is.chain in
    let node_gone : out.1.cells x.0 ≡ none =
      c.other_nodes x.0 np (ground (arith, is.apart)) ∙ gone.node in
    let block_gone : out.1.blocks x.1 ≡ none = c.other_blocks x.1 nd ∙ gone.block in
    (
      out,
      rw (is_ll_empty-cons is, clear_loop, run) run',
      (
        is'',
        record {
          nodes = λ a e. ground (arith, c.nodes a, node_gone);
          blocks = λ a e. ground (arith, c.blocks a, block_gone);
          other_nodes = λ a e ne. ground (arith, c.other_nodes a, gone.cells a);
          other_blocks = λ a e. ground (arith, c.other_blocks a, gone.blocks a);
        },
      ),
    )

-- With more fuel than entries `clear_ll` succeeds, and frees exactly the nodes and blocks of the
-- list, and the sentinel.
pub clear_ll-Cleared :
    (k : ℕ) {h : Heap Node} {l : Ptr} {size : ℕ} (xs : List Entry)
    → IsList h l size xs
    → length xs < k
    → Returns
        (clear_ll k (some l) h)
        λ (r : Bool × Heap Node). (r.0 ≡ true) × (r.1.cells l ≡ none) × Cleared xs l h r.1
unfolding clear_ll
clear_ll-Cleared k {h} {l} xs is fuel =
    let (r, run, (is', c)) = clear_loop-Cleared k xs is fuel in
    (
      (true, record (r.1) { cells = write r.1.cells l none }),
      rw (not_null l is.ne_null, run, free_node-ok r.1 l is.ne_null is'.sentinel is'.holds),
      (
        refl,
        ground arith,
        record {
          nodes = λ a e. ground (arith, c.nodes a);
          blocks = c.blocks;
          other_nodes = λ a e ne. ground (arith, c.other_nodes a);
          other_blocks = c.other_blocks;
        },
      ),
    )
