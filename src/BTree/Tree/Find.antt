-- ===== src/BTree/Tree/Find.antt =====
-- `search_key` and `b_search` of BTree.c on a search tree, over operations on
-- pages that keep `PagerLaws`, which the program's own do not.
use gaveta.Base.{
  ℕ, zero, suc, ◌≤◌, ◌<◌, ◌≡◌, refl, sym, ◌∙◌, ap, subst, true, false, Option, none, some, List,
  ◌++◌, map, arith, length, get_elem?, get_elem?-append_some, inl, inr, ok, Returns, Bool-cases,
}
use gaveta.Heap.{Bytes}
use gaveta.BTree.{Key, BTreeNode}
use gaveta.BTree.Search.{Holds, has_key, count_smaller, search_in_btree_node-count}
use gaveta.BTree.Pager.{Pager, PagerLaws}
use gaveta.BTree.Tree.{BTree, no_pos, search_key, b_search}
use gaveta.BTree.Tree.Trace.{Item, entry, keys_of, seps_of, Sorted}
use gaveta.BTree.Tree.Shape.{Subtree, leaf, inner, Fits, find_key, IsTree}
use gaveta.BTree.Tree.Order.{
  find_key-at, find_key-none, seps-Ascending, keys_of-map, seps_of-map, map-Ascending,
}
use gaveta.BTree.Tree.Way.{way, seps-has_key}

-- What `search_key` finds: a separator in an inner node; else the leaf with the key, and where it is;
-- else a leaf and (u16)-1.
pub data Found (key : Bytes) (all seps : List Key) : BTreeNode → ℕ → Type 0 where
  separator :
      {q : BTreeNode} (i : ℕ) → has_key key seps ≡ true → q.leaf ≡ false → Found key all seps q i
  present :
      {q : BTreeNode} {i : ℕ} (k : Key)
      → has_key key seps ≡ false
      → find_key key all ≡ some k
      → get_elem? q.keys i ≡ some k
      → k.id ≡ key
      → i < q.keys_num
      → q.leaf ≡ true
      → Found key all seps q i
  absent :
      {q : BTreeNode}
      → has_key key seps ≡ false
      → find_key key all ≡ none
      → q.leaf ≡ true
      → length q.keys ≤ no_pos
      → Found key all seps q no_pos

-- What `b_search` returns: NULL for a separator, even where it is a key of a leaf.
pub data Answer (key : Bytes) (all seps : List Key) : Option BTreeNode × ℕ → Type 0 where
  hidden : has_key key seps ≡ true → Answer key all seps (none, no_pos)
  in_leaf :
      {q : BTreeNode} {i : ℕ}
      → q.leaf ≡ true
      → Found key all seps q i
      → Answer key all seps (some q, i)

Found-same :
    {key : Bytes} {all all' seps seps' : List Key} {q : BTreeNode} {i : ℕ}
    → find_key key all' ≡ find_key key all
    → has_key key seps' ≡ has_key key seps
    → Found key all seps q i
    → Found key all' seps' q i
Found-same f h (separator i hit is_inner) = separator i (h ∙ hit) is_inner
Found-same f h (present k miss has cell is few is_leaf) =
    present k (h ∙ miss) (f ∙ has) cell is few is_leaf
Found-same f h (absent miss missing is_leaf cells) = absent (h ∙ miss) (f ∙ missing) is_leaf cells

pub get_elem?-front :
    {A : Type 0} {arr : List A} (xs rest : List A) (i : ℕ) {a : A}
    → arr ≡ xs ++ rest
    → get_elem? xs i ≡ some a
    → get_elem? arr i ≡ some a
get_elem?-front xs rest i is at = ap (λ t. get_elem? t i) is ∙ get_elem?-append_some xs rest i at

-- The search has come to node `q`, and the pages are as before.
abbrev Ends :
    {S : Type 0}
    → (S → ℕ → Option BTreeNode)
    → S
    → Bytes
    → List Item
    → (Option BTreeNode × ℕ) × S
    → Type 0
Ends page s key t r =
    (q : BTreeNode) × (r.0.0 ≡ some q)
    × Found key (keys_of t) (seps_of t) q r.0.1
    × (page r.1 ≡ page s)

module _ {S : Type 0} {pager : Pager S} {order : ℕ} (laws : PagerLaws pager order) where
  search_key-leaf :
      {s : S} {p : BTreeNode} (ks : List Key) (n : ℕ) (key : Bytes)
      → p.leaf ≡ true
      → Holds p ks
      → Fits order p
      → Sorted (map entry ks)
      → Returns (search_key pager (suc n) s p key) (Ends laws.page s key (map entry ks))
  unfolding search_key has_key
  search_key-leaf {s} {p} ks n key is_leaf holds fits sorted =
      let asc = map-Ascending ks sorted in
      let run = search_in_btree_node-count key holds asc in
      let all = ap (λ t. find_key key t) (keys_of-map ks) in
      let none_here : has_key key (seps_of (map entry ks)) ≡ false =
        ap (λ t. has_key key t) (seps_of-map ks) in
      elim (Bool-cases (has_key key ks)) [
        | inl hit ↦
            let (k, has, at, is, len) = find_key-at key ks asc hit in
            let cell = get_elem?-front ks holds.spare (count_smaller key ks) holds.cells at in
            (
              ((some p, count_smaller key ks), s),
              rw (run, hit) refl,
              (
                p,
                refl,
                present k none_here (all ∙ has) cell is (omega (arith, len, holds.count)) is_leaf,
                refl,
              ),
            )
        | inr miss ↦ (
          ((some p, no_pos), s),
          simp (run, miss, is_leaf),
          (
            p,
            refl,
            absent none_here (all ∙ find_key-none key ks miss) is_leaf fits.key_cells,
            refl,
          ),
        )
      ]

  search_key-Found :
      (n : ℕ) {s : S} {depth : ℕ} {p : BTreeNode} {t : List Item} {own : List ℕ} (key : Bytes)
      → depth < n
      → Subtree order (laws.page s) depth p t own
      → Sorted t
      → Returns (search_key pager n s p key) (Ends laws.page s key t)
  unfolding search_key
  search_key-Found zero key fuel tree sorted = absurd (omega arith)
  search_key-Found (suc n) key fuel (leaf ks is_leaf holds fits) sorted =
      search_key-leaf ks n key is_leaf holds fits sorted
  search_key-Found (suc n) {s} {p} key fuel
        (inner {depth} seps cs is_inner holds holds_cs fits children) sorted =
      let run = search_in_btree_node-count key holds (seps-Ascending children sorted) in
      let i : ℕ = count_smaller key seps in
      elim (Bool-cases (has_key key seps)) [
        | inl hit ↦ (
          ((some p, i), s),
          rw (run, hit) refl,
          (p, refl, separator i (seps-has_key key children hit) is_inner, refl),
        )
        | inr miss ↦
            let w = way key children sorted miss in
            let cell = get_elem?-front cs holds_cs.spare i holds_cs.cells w.at in
            let (l, load, (is, same)) = laws.load-page s w.rrn in
            let tree =
              subst (λ page. Subtree order page depth w.node w.trace w.own) (sym same) w.tree in
            let (r, run', (q, is_q, f, same')) =
              search_key-Found n key (omega (arith, fuel)) tree w.sorted in
            let (t, release, same'') = laws.release-page r.1 w.node in
            (
              (r.0, t),
              simp (run, miss, is_inner, cell, load, is ∙ w.page_at, run', release),
              (q, is_q, Found-same w.same_key w.same_sep f, same'' ∙ same' ∙ same),
            )
      ]

  b_search-end :
      (b : BTree S) {root q : BTreeNode} {i : ℕ} {s : S} {all seps : List Key} (n : ℕ) (key : Bytes)
      (pos : ℕ)
      → b.root ≡ some root
      → search_key pager n b.store root key ≡ ok ((some q, i), s)
      → Found key all seps q i
      → laws.page s ≡ laws.page b.store
      → Returns
          (b_search pager n b key pos)
          λ r. Answer key all seps r.0 × (laws.page r.1 ≡ laws.page b.store)
  unfolding b_search
  b_search-end b {q} {s} n key pos is run (separator i hit is_inner) same =
      (((none, no_pos), s), simp (b_search, is, run, is_inner), (hidden hit, same))
  b_search-end b {q} {i} {s} n key pos is run (present k miss has cell is_k few is_leaf) same = (
    ((some q, i), s),
    simp (b_search, is, run, is_leaf),
    (in_leaf is_leaf (present k miss has cell is_k few is_leaf), same),
  )
  b_search-end b {q} {s} n key pos is run (absent miss missing is_leaf cells) same = (
    ((some q, no_pos), s),
    simp (b_search, is, run, is_leaf),
    (in_leaf is_leaf (absent miss missing is_leaf cells), same),
  )

  -- On a search tree `b_search` returns the leaf and the position of the key, or a leaf and (u16)-1
  -- where the tree does not have the key. Of a key that is also a separator of an inner node it finds
  -- nothing. The pages stay as they are.
  pub b_search-Answer :
      {b : BTree S} {depth : ℕ} {t : List Item} (n : ℕ) (key : Bytes) (pos : ℕ)
      → IsTree order laws.page b depth t
      → depth < n
      → Returns
          (b_search pager n b key pos)
          λ r. Answer key (keys_of t) (seps_of t) r.0 × (laws.page r.1 ≡ laws.page b.store)
  b_search-Answer {b} n key pos is fuel =
      let (r, run, (q, is_q, end, same)) = search_key-Found n key fuel is.tree is.sorted in
      b_search-end b n key pos is.is_root (run ∙ ap (λ p. ok ((p, r.0.1), r.1)) is_q) end same
