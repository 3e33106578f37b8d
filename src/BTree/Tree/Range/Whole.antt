-- ===== src/BTree/Tree/Range/Whole.antt =====
-- `b_range_search` of BTree.c on a search tree whose leaves form a chain, over operations on
-- pages that keep `PagerLaws`, which the program's own do not.
use gaveta.Base.{
  ℕ, zero, suc, ◌+◌, ◌≤◌, ◌<◌, ◌≡◌, refl, sym, ◌∙◌, ap, subst, false, Option, some, List, [], ◌++◌,
  append_assoc, append-nil, arith, length, get_elem?, ok, ◌>>=◌, Returns,
}
use gaveta.Heap.{Bytes}
use gaveta.BTree.{Key, BTreeNode}
use gaveta.BTree.Pager.{Pager, PagerLaws}
use gaveta.BTree.Tree.{BTree, no_pos}
use gaveta.BTree.Tree.Trace.{Item, keys_of, Sorted}
use gaveta.BTree.Tree.Shape.{Subtree, leaf, inner, IsTree}
use gaveta.BTree.Tree.Order.{Below, keys_of-map}
use gaveta.BTree.Tree.Find.{get_elem?-front}
use gaveta.BTree.Tree.Range.{child_for, leaf_for, leaves_in_range, b_range_search}
use gaveta.BTree.Tree.Range.Leaves.{Chain, records_in_range, leaves_in_range-records}
use gaveta.BTree.Tree.Range.Linked.{Links, Tail, no_more, leaf-Chain}
use gaveta.BTree.Tree.Range.Start.{
  keys_of-Ascending, Ascending-behind, records-Below, Below-append, child_at, child_for-at,
  Start-at,
}

-- Where the descent ends: a leaf whose chain has all keys but some before the range.
record Begins (page : ℕ → Option BTreeNode) (most : ℕ) (start : Bytes) (all : List Key)
    (found : Option BTreeNode) : Type 0 where
  node : BTreeNode
  is : found ≡ some node
  before : List Key
  after : List Key
  parts : all ≡ before ++ after
  below : Below start before
  size : ℕ
  chain : Chain page size node after
  few : size ≤ most

module _ {S : Type 0} {pager : Pager S} {order : ℕ} (laws : PagerLaws pager order) where
  descend :
      (n : ℕ) (s : S) (p : BTreeNode) {next : BTreeNode} {i c : ℕ} {l r : Option BTreeNode × S}
      (start : Bytes)
      → p.leaf ≡ false
      → child_for p.keys_num 0 p.keys start ≡ ok i
      → get_elem? p.children i ≡ some c
      → pager.load s c ≡ ok l
      → l.0 ≡ some next
      → leaf_for pager n l.1 next start ≡ ok r
      → leaf_for pager (suc n) s p start ≡ ok r
  unfolding leaf_for
  descend n s p start is_inner run cell load loaded rest =
      simp (leaf_for, is_inner, run, ◌>>=◌, cell, load, loaded, rest)

  leaf_for-Begins :
      (n : ℕ) (s : S) {page : ℕ → Option BTreeNode} {depth : ℕ} {p : BTreeNode} {t : List Item}
      {own : List ℕ} (start : Bytes) (tree : Subtree order page depth p t own) (first : ℕ)
      {m next : ℕ} {rest : List Key}
      → laws.page s ≡ page
      → depth < n
      → Sorted t
      → Links tree first next
      → Tail page m next rest
      → Returns (leaf_for pager n s p start) λ r.
        Begins page (m + length own + 1) start (keys_of t ++ rest) r.0 × (laws.page r.1 ≡ page)
  unfolding leaf_for Links
  leaf_for-Begins zero s start tree first same fuel sorted links tail = absurd (omega (arith, fuel))
  leaf_for-Begins (suc n) s {page} {p = p} start (leaf ks is_leaf holds fits) first {m} {next}
        {rest} same fuel sorted (is, ends) tail =
      (
        (some p, s),
        simp (leaf_for, is_leaf),
        (
          record {
            node = p;
            is = refl;
            before = [];
            after = ks ++ rest;
            parts = ap (λ l. l ++ rest) (keys_of-map ks);
            below = Below.nil;
            size = suc m;
            chain = leaf-Chain holds ends tail;
            few = omega arith;
          },
          same,
        ),
      )
  leaf_for-Begins (suc n) s {page} {p = p} start
        (inner seps cs is_inner holds holds_cs fits children) first {m} {next} {rest} same fuel
        sorted links tail =
      let w = Start-at start children first sorted links tail in
      let i : ℕ = child_at start seps in
      let run : child_for p.keys_num 0 p.keys start ≡ ok i =
        ap (λ l. child_for p.keys_num 0 l start) holds.cells
        ∙ child_for-at p.keys_num 0 [] seps holds.spare start refl holds.count
        ∙ ap (λ j. ok j) (omega arith) in
      let cell = get_elem?-front cs holds_cs.spare i holds_cs.cells w.at in
      let (l, load, (is, kept)) = laws.load-page s w.rrn in
      let loaded : l.0 ≡ some w.node = is ∙ ap (λ f. f w.rrn) same ∙ w.page_at in
      let (r, run', (b, same')) =
        leaf_for-Begins n l.1 start w.tree w.first (kept ∙ same) (omega (arith, fuel)) w.sorted
          w.links w.tail in
      (
        r,
        descend n s p start is_inner run cell load loaded run',
        (
          record {
            node = b.node;
            is = b.is;
            before = w.before ++ b.before;
            after = b.after;
            parts =
                w.parts
                ∙ ap (λ l. w.before ++ l) b.parts
                ∙ sym (append_assoc w.before b.before b.after);
            below = Below-append w.below b.below;
            size = b.size;
            chain = b.chain;
            few = omega (arith, b.few, w.few);
          },
          same',
        ),
      )

  range-run :
      (b : BTree S) {root curr : BTreeNode} {f : Option BTreeNode × S} {r : List ℕ × S} (n m : ℕ)
      (start until : Bytes)
      → b.root ≡ some root
      → leaf_for pager n b.store root start ≡ ok f
      → f.0 ≡ some curr
      → leaves_in_range pager m f.1 curr start until ≡ ok r
      → b_range_search pager n m b start until ≡ ok r
  unfolding b_range_search
  range-run b n m start until root run found walk = simp (b_range_search, root, run, found, walk)

  -- On a search tree whose leaves are linked from left to right, `b_range_search` loads the records of
  -- exactly the keys from `start` to `until`, in order, and leaves the pages as they are. The fuel is the
  -- depth and the number of pages.
  pub b_range_search-records :
      {b : BTree S} {depth : ℕ} {t : List Item} (n m : ℕ) (start until : Bytes)
      (is : IsTree order laws.page b depth t) (first : ℕ)
      → depth < n
      → length is.own < m
      → Links is.tree first no_pos
      → Returns (b_range_search pager n m b start until) λ r.
        (r.0 ≡ records_in_range start until (keys_of t)) × (laws.page r.1 ≡ laws.page b.store)
  b_range_search-records {b} {depth} {t} n m start until is first fuel pages links =
      let (f, run, (g, same)) =
        leaf_for-Begins n b.store start is.tree first refl fuel is.sorted links no_more in
      let whole : keys_of t ≡ g.before ++ g.after = sym (append-nil (keys_of t)) ∙ g.parts in
      let asc = Ascending-behind g.before whole (keys_of-Ascending t is.sorted) in
      let chain = subst (λ page. Chain page g.size g.node g.after) (sym same) g.chain in
      let (r, walk, (records, same')) =
        leaves_in_range-records laws start until m f.1 chain (omega (arith, g.few, pages)) asc in
      (
        r,
        range-run b n m start until is.is_root run g.is walk,
        (
          records
              ∙ sym (
                  ap (λ l. records_in_range start until l) whole
                  ∙ records-Below start until g.before g.after g.below),
          same' ∙ same,
        ),
      )
