-- ===== src/BTree/Tree/Own.antt =====
-- `b_insert` and `build_tree_from_data_file` of BTree.c with the program's own operations on pages.
pub mod Search
pub mod Insert
use gaveta.Base.{
  ℕ, ◌<◌, ◌≡◌, refl, ◌∙◌, Bool, true, none, List, ◌∷◌, if◌then◌else◌, inl, inr, Run, ok, fault,
  Bool-cases,
}
use gaveta.Heap.{Bytes}
use gaveta.BTree.{Key}
use gaveta.BTree.Pager.Cache.{Files, own_pager, alloc_btree_node-fault, alloc_btree_node-full}
use gaveta.BTree.Tree.{error_memory, BTree, new_tree, b_insert}
use gaveta.BTree.Tree.Build.{build_tree_from_data_file}

module _ (order : ℕ) (erase : Files → ℕ → Run (Bool × Files)) (read : Files → ℕ → Run Files)
    (b : BTree Files) (empty : b.root ≡ none) (some_cells : 0 < order) where
  -- With the program's own operations on pages and an order that is not 0, an insertion into a B-tree
  -- without a root is undefined behaviour where `g_alloc` has room for the node, and fails with
  -- BTREE_ERROR_MEMORY where it returns NULL.
  pub b_insert-own :
      (n : ℕ) (k : Key)
      → b_insert (own_pager order erase read) n order b k
        ≡ (if b.store.free then fault else ok (error_memory, record b { root = none }))
  unfolding b_insert new_tree own_pager
  b_insert-own n k = elim (Bool-cases b.store.free) [
    | inl free ↦
        simp (b_insert, empty, new_tree, own_pager, free, alloc_btree_node-fault order some_cells)
    | inr full ↦ simp (b_insert, empty, new_tree, own_pager, full, alloc_btree_node-full order)
  ]

  -- A data file with a record, and memory for a node: to build the tree is undefined behaviour.
  pub build_tree_from_data_file-fault :
      (n : ℕ) (id : Bytes) (ids : List Bytes)
      → b.store.free ≡ true
      → build_tree_from_data_file (own_pager order erase read) n order b 0 (id ∷ ids) ≡ fault
  unfolding build_tree_from_data_file
  build_tree_from_data_file-fault n id ids free =
      let k : Key = record { id = id; data_register_rrn = 0 } in
      let run : b_insert (own_pager order erase read) n order b k ≡ fault =
        b_insert-own n k ∙ rw free refl in
      rw run refl
