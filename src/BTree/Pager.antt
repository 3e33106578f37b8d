-- ===== src/BTree/Pager.antt =====
-- What src/modules/ds/BTree.c does with pages, record numbers and records: the operations that its
-- functions on the whole tree are written over. `gaveta.BTree.Pager.Cache` has the program's own
-- versions, `gaveta.BTree.Pager.Disk` an ideal store that keeps the laws, which the program's
-- own do not.
pub mod Cache
pub mod Disk
use gaveta.Base.{
  ℕ, ◌≤◌, ◌<◌, ◌≡◌, ◌≢◌, Bool, true, false, Option, none, some, length, ◌⊎◌, Run, ok, Returns,
}
use gaveta.BTree.{BTreeNode}
use gaveta.BTree.Split.{no_child}

-- `S` is the index file with the cache, the list of free record numbers and the data file.
pub record Pager (S : Type 0) : Type 0 where
  -- `load_btree_node`; `none` is NULL.
  pub load : S → ℕ → Run (Option BTreeNode × S)
  -- `if (node != b->root && !search_gq(...)) clear_btree_node(node)`
  pub release : S → BTreeNode → Run S
  -- `write_index_record`: was it BTREE_SUCCESS?
  pub write : S → BTreeNode → Run (Bool × S)
  -- `alloc_btree_node`
  pub alloc : S → Run (Option BTreeNode × S)
  -- `get_free_rrn(b->io.index->free_rrn)`
  pub take_rrn : S → Run (ℕ × S)
  -- `insert_ll(&b->io.index->free_rrn, &rrn)`
  pub give_rrn : S → ℕ → Run S
  -- The record in the data file is overwritten with '*': could it be sought?
  pub erase : S → ℕ → Run (Bool × S)
  -- `load_data_record`, and `g_dealloc` of what it returns
  pub read_record : S → ℕ → Run S

-- The other pages of two stores are the same.
abbrev pub SameBut : ℕ → (ℕ → Option BTreeNode) → (ℕ → Option BTreeNode) → Type 0
SameBut rrn before after = (r : ℕ) → r ≢ rrn → after r ≡ before r

-- No record number is left.
abbrev pub NoNumber : {S : Type 0} → Pager S → S → Type 0
NoNumber {S} pager s = (s' : S) × (pager.take_rrn s ≡ ok (no_child, s'))

-- The laws of a page file: `page` is the node at a record number. A load reads it, a write changes this
-- page and no other, and a record number that is handed out is that of no page. Where none is left, none is while nodes are written and released.
pub record PagerLaws {S : Type 0} (pager : Pager S) (order : ℕ) : Type 0 where
  pub page : S → ℕ → Option BTreeNode
  pub load-page :
      (s : S) (rrn : ℕ) → Returns (pager.load s rrn) λ r. (r.0 ≡ page s rrn) × (page r.1 ≡ page s)
  pub release-page : (s : S) (p : BTreeNode) → Returns (pager.release s p) λ r. page r ≡ page s
  pub write-page :
      (s : S) (p : BTreeNode)
      → Returns
          (pager.write s p)
          λ r. (r.0 ≡ true) × (page r.1 p.rrn ≡ some p) × SameBut p.rrn (page s) (page r.1)
  pub alloc-page :
      (s : S)
      → Returns (pager.alloc s) λ r.
        (p : BTreeNode) × (r.0 ≡ some p)
        × (order ≤ length p.keys)
        × (length p.keys ≤ no_child)
        × (order < length p.children)
        × (p.leaf ≡ true)
        × (p.keys_num ≡ 0)
        × (p.next_leaf ≡ no_child)
        × (page r.1 ≡ page s)
  pub take_rrn-page :
      (s : S)
      → Returns
          (pager.take_rrn s)
          λ r. ((r.0 ≡ no_child) ⊎ (page s r.0 ≡ none)) × (page r.1 ≡ page s)
  pub take_rrn-NoNumber : (s s' : S) → pager.take_rrn s ≡ ok (no_child, s') → NoNumber pager s'
  pub release-NoNumber :
      (s s' : S) (p : BTreeNode) → pager.release s p ≡ ok s' → NoNumber pager s → NoNumber pager s'
  pub write-NoNumber :
      (s : S) (p : BTreeNode) (w : Bool × S)
      → pager.write s p ≡ ok w
      → NoNumber pager s
      → NoNumber pager w.1
  pub give_rrn-page : (s : S) (rrn : ℕ) → Returns (pager.give_rrn s rrn) λ r. page r ≡ page s
  pub erase-page : (s : S) (rrn : ℕ) → Returns (pager.erase s rrn) λ r. page r.1 ≡ page s
  pub read_record-page : (s : S) (rrn : ℕ) → Returns (pager.read_record s rrn) λ r. page r ≡ page s
