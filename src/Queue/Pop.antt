-- ===== src/Queue/Pop.antt =====
-- `pop_gq` and `clear_gq` of GenericQueue.c.
use gaveta.Base.{
  ℕ, zero, suc, ◌<◌, ◌≡◌, ◌≢◌, refl, ◌∙◌, ap, Bool, true, false, Option, none, some, List, [], ◌∷◌,
  arith, ◌==◌, if◌then◌else◌, length, take, take-length, ok, Returns,
}
use gaveta.Heap.{
  Ptr, null, Bytes, Heap, write, load, load_block, store, free_node, free_block, deref, go_on,
}
use gaveta.Heap.Seg.{
  Link, Entry, has_node, has_block, Seg, nil, cons, Points, Seg-put, Seg-put_block, stop_of_nil,
  not_null, load-ok, free_node-ok,
}
use gaveta.Queue.{
  Node, link, last_of, IsQueue, is_gq_empty, save, pop_at, pop_gq, clear_loop, clear_gq, top_gq,
}

-- `g` is `h` without the node and the block of `e`, but for the sentinel at `l`.
pub record Without (e : Entry) (l : Ptr) (h g : Heap Node) : Type 0 where
  pub node : g.cells e.0 ≡ none
  pub block : g.blocks e.1 ≡ none
  pub cells : (a : Ptr) → a ≢ e.0 → a ≢ l → g.cells a ≡ h.cells a
  pub blocks : (a : Ptr) → a ≢ e.1 → g.blocks a ≡ h.blocks a

abbrev pub Removed :
    Ptr → ℕ → Bool → Entry → List Entry → Heap Node → (Bool × Option Bytes) × Heap Node → Type 0
Removed l size wanted e xs h r =
    (r.0.0 ≡ true)
    × (r.0.1 ≡ (if wanted then some e.2 else none))
    × IsQueue r.1 l size xs
    × Without e l h r.1

pub is_gq_empty-nil :
    {h : Heap Node} {l : Ptr} {size : ℕ}
    → IsQueue h l size []
    → is_gq_empty (some l) h ≡ ok (true, h)
unfolding is_gq_empty deref load
is_gq_empty-nil {h} {l} is = ground (arith, is.ne_null, is.holds, stop_of_nil link is.chain)

-- The tail that the code leaves is right, whether or not an entry is left.
left_tail :
    {h : Heap Node} {size : ℕ} (l p t : Ptr) {q : Ptr} {xs : List Entry}
    → t ≡ last_of p xs
    → Seg link h size null q xs
    → (if q == null then l else t) ≡ last_of l xs
left_tail l p t e nil = refl
left_tail l p t e (cons pt np nd s) = ground (arith, pt.ne_null)

module _ {h : Heap Node} {l : Ptr} {size : ℕ} {s : Node} {p q d : Ptr} {b : Bytes} {xs : List Entry}
    (ne : l ≢ null) (holds : h.cells l ≡ some s) (sized : s.data_size ≡ size)
    (apart : has_node l ((p, d, b) ∷ xs) ≡ false) (first : s.next ≡ p)
    (tail : s.tail ≡ last_of p xs) (e : Points link h size (p, d, b) q) (np : has_node p xs ≡ false)
    (nd : has_block d xs ≡ false) (rest : Seg link h size null q xs) where
  abbrev s' : Node
  s' = if q == null then record s { next = q; tail = l } else record s { next = q }

  abbrev after : Heap Node
  after = record {
    cells = write (write h.cells l (some s')) p none;
    blocks = write h.blocks d none;
  }

  abbrev n : Node
  n = e.node

  fields : (n.dat ≡ d) × (n.data_size ≡ size) × (n.next ≡ q)
  fields = (
    ap (λ (k : Link). k.dat) e.links,
    ap (λ (k : Link). k.data_size) e.links,
    ap (λ (k : Link). k.next) e.links,
  )

  copied-all : take size b ≡ b
  copied-all = rw (← e.sized) (take-length b)

  ne_p : (p == l) ≡ false
  ne_p = ground arith

  pop-run :
      (wanted : Bool) → pop_at l wanted h ≡ ok ((true, if wanted then some b else none), after)
  unfolding pop_at load load_block store free_node free_block save
  pop-run true = ground (
    arith, fields.0, fields.1, fields.2, e.holds, e.block, e.ne_null, e.block_ne_null, e.sized,
    copied-all, ne_p,
  )
  pop-run false =
      ground (arith, fields.0, fields.2, e.holds, e.block, e.ne_null, e.block_ne_null, ne_p)

  next_s : s'.next ≡ q
  next_s = ground arith

  after-IsQueue : IsQueue after l size xs
  after-IsQueue = record {
    sentinel = s';
    ne_null = ne;
    holds = ground (arith, ne_p);
    sized = ground arith;
    last = ground (arith, left_tail l p s.tail tail rest);
    apart = ground arith;
    chain = rw next_s (
        Seg-put link p none
          (Seg-put link l (some s') (Seg-put_block link d none rest nd) (ground arith)) np);
  }

  after-Without : Without (p, d, b) l h after
  after-Without = record {
    node = ground arith;
    block = ground arith;
    cells = λ a x y. ground arith;
    blocks = λ a x. ground arith;
  }

  first-Removed :
      (wanted : Bool) → Returns (pop_gq (some l) wanted h) (Removed l size wanted (p, d, b) xs h)
  unfolding pop_gq is_gq_empty deref
  first-Removed wanted =
      let more : (s.next == null) ≡ false = ground (arith, e.ne_null) in
      (
        ((true, if wanted then some b else none), after),
        rw (not_null l ne, load-ok h l ne s holds, go_on, more, pop-run wanted),
        (refl, refl, after-IsQueue, after-Without),
      )

-- The chain is matched where its start is a variable.
pop-Seg :
    {h : Heap Node} {l : Ptr} {size : ℕ} {s : Node} {p : Ptr} {x : Entry} {xs : List Entry}
    (wanted : Bool)
    → l ≢ null
    → h.cells l ≡ some s
    → s.data_size ≡ size
    → has_node l (x ∷ xs) ≡ false
    → s.next ≡ p
    → s.tail ≡ last_of x.0 xs
    → Seg link h size null p (x ∷ xs)
    → Returns (pop_gq (some l) wanted h) (Removed l size wanted x xs h)
pop-Seg wanted ne holds sized apart first tail (cons e np nd rest) =
    first-Removed ne holds sized apart first tail e np nd rest wanted

-- On a queue with entries `pop_gq` takes the oldest entry off the queue, copies its bytes out if they are wanted, and frees
-- its node and block and nothing else.
pub pop_gq-cons :
    {h : Heap Node} {l : Ptr} {size : ℕ} {x : Entry} {xs : List Entry} (wanted : Bool)
    → IsQueue h l size (x ∷ xs)
    → Returns (pop_gq (some l) wanted h) (Removed l size wanted x xs h)
pop_gq-cons wanted is = pop-Seg wanted is.ne_null is.holds is.sized is.apart refl is.last is.chain

-- On an empty queue it says so and changes nothing.
pub pop_gq-nil :
    {h : Heap Node} {l : Ptr} {size : ℕ} (wanted : Bool)
    → IsQueue h l size []
    → pop_gq (some l) wanted h ≡ ok ((false, none), h)
unfolding pop_gq
pop_gq-nil wanted is = rw (is_gq_empty-nil is)

-- Every node and block of `xs` is free, and what is off the queue is as in `h`.
pub record Cleared (xs : List Entry) (l : Ptr) (h g : Heap Node) : Type 0 where
  pub nodes : (a : Ptr) → has_node a xs ≡ true → g.cells a ≡ none
  pub blocks : (a : Ptr) → has_block a xs ≡ true → g.blocks a ≡ none
  pub other_nodes : (a : Ptr) → has_node a xs ≡ false → a ≢ l → g.cells a ≡ h.cells a
  pub other_blocks : (a : Ptr) → has_block a xs ≡ false → g.blocks a ≡ h.blocks a

Seg-apart :
    {h : Heap Node} {size : ℕ} {p : Ptr} {x : Entry} {xs : List Entry}
    → Seg link h size null p (x ∷ xs)
    → (has_node x.0 xs ≡ false) × (has_block x.1 xs ≡ false) × (x.0 ≢ null)
Seg-apart (cons e np nd rest) = (np, nd, e.ne_null)

Seg-start :
    {h : Heap Node} {size : ℕ} {p : Ptr} {x : Entry} {xs : List Entry}
    → Seg link h size null p (x ∷ xs)
    → p ≢ null
Seg-start (cons e np nd rest) = e.ne_null

abbrev pub front : List Entry → Ptr
front [] = null
front (x ∷ xs) = x.0

Seg-front :
    {h : Heap Node} {size : ℕ} {p : Ptr} {x : Entry} {xs : List Entry}
    → Seg link h size null p (x ∷ xs)
    → p ≡ x.0
Seg-front (cons e np nd rest) = refl

pub is_gq_empty-cons :
    {h : Heap Node} {l : Ptr} {size : ℕ} {x : Entry} {xs : List Entry}
    → IsQueue h l size (x ∷ xs)
    → is_gq_empty (some l) h ≡ ok (false, h)
unfolding is_gq_empty deref load
is_gq_empty-cons is = ground (arith, is.ne_null, is.holds, Seg-start is.chain)

clear_loop-Cleared :
    (k : ℕ) {h : Heap Node} {l : Ptr} {size : ℕ} (xs : List Entry)
    → IsQueue h l size xs
    → length xs < k
    → Returns
        (clear_loop k l h)
        λ (r : Unit {0} × Heap Node). IsQueue r.1 l size [] × Cleared xs l h r.1
unfolding clear_loop
clear_loop-Cleared zero xs is fuel = absurd (omega arith)
clear_loop-Cleared (suc k) {h} [] is fuel = (
  (tt, h),
  rw (is_gq_empty-nil is),
  (
    is,
    record {
      nodes = λ a e. cc;
      blocks = λ a e. cc;
      other_nodes = λ a e ne. refl;
      other_blocks = λ a e. refl;
    },
  ),
)
clear_loop-Cleared (suc k) {h} {l} (x ∷ xs) is fuel =
    let (r, run, (_, _, is', gone)) = pop_gq-cons false is in
    let (out, run', (is'', c)) = clear_loop-Cleared k xs is' (omega arith) in
    let (np, nd, _) = Seg-apart is.chain in
    let node_gone : out.1.cells x.0 ≡ none =
      c.other_nodes x.0 np (ground (arith, is.apart)) ∙ gone.node in
    let block_gone : out.1.blocks x.1 ≡ none = c.other_blocks x.1 nd ∙ gone.block in
    (
      out,
      rw (is_gq_empty-cons is, clear_loop, run) run',
      (
        is'',
        record {
          nodes = λ a e. ground (arith, c.nodes a, node_gone);
          blocks = λ a e. ground (arith, c.blocks a, block_gone);
          other_nodes = λ a e ne. ground (arith, c.other_nodes a, gone.cells a);
          other_blocks = λ a e. ground (arith, c.other_blocks a, gone.blocks a);
        },
      ),
    )

-- With more fuel than entries `clear_gq` succeeds, and frees exactly the nodes and blocks of the
-- queue, and the sentinel.
pub clear_gq-Cleared :
    (k : ℕ) {h : Heap Node} {l : Ptr} {size : ℕ} (xs : List Entry)
    → IsQueue h l size xs
    → length xs < k
    → Returns
        (clear_gq k (some l) h)
        λ (r : Bool × Heap Node). (r.0 ≡ true) × (r.1.cells l ≡ none) × Cleared xs l h r.1
unfolding clear_gq
clear_gq-Cleared k {h} {l} xs is fuel =
    let (r, run, (is', c)) = clear_loop-Cleared k xs is fuel in
    (
      (true, record (r.1) { cells = write r.1.cells l none }),
      rw (not_null l is.ne_null, run, free_node-ok r.1 l is.ne_null is'.sentinel is'.holds),
      (
        refl,
        ground arith,
        record {
          nodes = λ a e. ground (arith, c.nodes a);
          blocks = c.blocks;
          other_nodes = λ a e ne. ground (arith, c.other_nodes a);
          other_blocks = c.other_blocks;
        },
      ),
    )

-- `top_gq` is the node of the oldest entry, NULL on an empty queue.
pub top_gq-first :
    {h : Heap Node} {l : Ptr} {size : ℕ} (xs : List Entry)
    → IsQueue h l size xs
    → top_gq (some l) h ≡ ok (front xs, h)
unfolding top_gq deref
top_gq-first [] is = rw (is_gq_empty-nil is)
top_gq-first {h} {l} (x ∷ xs) is =
    rw (is_gq_empty-cons is, go_on, load-ok h l is.ne_null is.sentinel is.holds)
      (ap (λ (p : Ptr). ok (p, h)) (Seg-front is.chain))
