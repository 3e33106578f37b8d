-- ===== src/BTree/Tree/Remove/Missing.antt =====
-- `b_remove` of BTree.c with a key that `b_search` does not find, over operations on
-- pages that keep `PagerLaws`, which the program's own do not.
use gaveta.Base.{
  ℕ, ◌<◌, ◌≡◌, refl, sym, ◌∙◌, true, false, Option, none, some, List, get_elem?-none, ok, fault,
  ◌>>=◌, Returns,
}
use gaveta.Heap.{Bytes}
use gaveta.BTree.{Key, BTreeNode}
use gaveta.BTree.Search.{has_key}
use gaveta.BTree.Pager.{Pager, PagerLaws}
use gaveta.BTree.Tree.{not_found, BTree, no_pos, b_search}
use gaveta.BTree.Tree.Remove.{b_remove}
use gaveta.BTree.Tree.Trace.{Item, keys_of, seps_of}
use gaveta.BTree.Tree.Shape.{find_key, IsTree}
use gaveta.BTree.Tree.Find.{separator, present, absent, Answer, hidden, in_leaf, b_search-Answer}

module _ {S : Type 0} {pager : Pager S} {order : ℕ} (laws : PagerLaws pager order) where
  remove-absent :
      (b : BTree S) {root : BTreeNode} {s : S} {all seps : List Key} {a : Option BTreeNode × ℕ}
      (n : ℕ) (key : Bytes) (pos : ℕ)
      → b.root ≡ some root
      → find_key key all ≡ none
      → has_key key seps ≡ false
      → b_search pager n b key pos ≡ ok (a, s)
      → Answer key all seps a
      → b_remove pager n order b key pos ≡ fault
  unfolding b_remove
  remove-absent b n key pos is none_there miss run (hidden hit) =
      absurd (let c = sym miss ∙ hit in cc)
  remove-absent b n key pos is none_there miss run (in_leaf is_leaf (separator i hit is_inner)) =
      absurd (let c = sym is_leaf ∙ is_inner in cc)
  remove-absent b n key pos is none_there miss run
        (in_leaf is_leaf (present k m has cell is_k few l)) =
      absurd (let c = sym none_there ∙ has in cc)
  remove-absent b n key pos is none_there miss run
        (in_leaf {q} is_leaf (absent m missing l cells)) =
      let out = get_elem?-none q.keys no_pos cells in simp (b_remove, is, run, ◌>>=◌, out)

  -- To remove a key that a search tree does not have is undefined behaviour: `b_remove` reads the key at
  -- (u16)-1 of the leaf.
  pub b_remove-absent :
      {b : BTree S} {depth : ℕ} {t : List Item} (n : ℕ) (key : Bytes) (pos : ℕ)
      → IsTree order laws.page b depth t
      → depth < n
      → find_key key (keys_of t) ≡ none
      → has_key key (seps_of t) ≡ false
      → b_remove pager n order b key pos ≡ fault
  b_remove-absent {b} n key pos is fuel none_there miss =
      let (r, run, (answer, _)) = b_search-Answer laws n key pos is fuel in
      remove-absent b n key pos is.is_root none_there miss run answer

  remove-hidden :
      (b : BTree S) {root : BTreeNode} {s : S} {all seps : List Key} {a : Option BTreeNode × ℕ}
      (n : ℕ) (key : Bytes) (pos : ℕ)
      → b.root ≡ some root
      → has_key key seps ≡ true
      → b_search pager n b key pos ≡ ok (a, s)
      → Answer key all seps a
      → b_remove pager n order b key pos ≡ ok (not_found, record b { store = s })
  unfolding b_remove
  remove-hidden b n key pos is hit run (hidden hit') = simp (b_remove, is, run)
  remove-hidden b n key pos is hit run (in_leaf is_leaf (separator i hit' is_inner)) =
      absurd (let c = sym is_leaf ∙ is_inner in cc)
  remove-hidden b n key pos is hit run (in_leaf is_leaf (present k m has cell is_k few l)) =
      absurd (let c = sym m ∙ hit in cc)
  remove-hidden b n key pos is hit run (in_leaf is_leaf (absent m missing l cells)) =
      absurd (let c = sym m ∙ hit in cc)

  -- A key that is a separator cannot be removed: `b_remove` returns BTREE_NOT_FOUND_KEY, and the tree
  -- with its pages stays, whether the key is in a leaf or not.
  pub b_remove-hidden :
      {b : BTree S} {depth : ℕ} {t : List Item} (n : ℕ) (key : Bytes) (pos : ℕ)
      → IsTree order laws.page b depth t
      → depth < n
      → has_key key (seps_of t) ≡ true
      → Returns
          (b_remove pager n order b key pos)
          λ r. (r.0 ≡ not_found) × (r.1.root ≡ b.root) × (laws.page r.1.store ≡ laws.page b.store)
  b_remove-hidden {b} n key pos is fuel hit =
      let (r, run, (answer, same)) = b_search-Answer laws n key pos is fuel in
      (
        (not_found, record b { store = r.1 }),
        remove-hidden b n key pos is.is_root hit run answer,
        (refl, refl, same),
      )
