-- ===== src/BTree/Tree/Tests.antt =====
-- A tree of order 3: the keys "b", "d" and "f", and the separator "f".
use gaveta.Base.{
  ℕ, zero, suc, ◌≡◌, refl, true, false, none, some, List, [], ◌∷◌, arith, replicate, ◌⊎◌, ok, fault,
}
use gaveta.BTree.{Key, BTreeNode, strcmp, search_from, search_in_btree_node}
use gaveta.BTree.Split.{zero_key, no_child}
use gaveta.BTree.Pager.{Pager}
use gaveta.BTree.Pager.Disk.{Disk, disk_pager, disk_laws}
use gaveta.BTree.Tree.{BTree, no_pos, search_key, b_search, b_insert}
use gaveta.BTree.Tree.Trace.{Item, entry, sep, by_id, same_id, Leads, Sorted}
use gaveta.BTree.Tree.Shape.{Subtree, leaf, inner, last, more, there, NoDup, IsTree}
use gaveta.BTree.Pager.Cache.{
  Files, own_pager, load_btree_node, write_index_record, load_btree_node-null,
  write_index_record-fault,
}
use gaveta.BTree.Tree.Own.{b_insert-own}

abbrev letter : ℕ → Key
letter c = record { id = c ∷ []; data_register_rrn = c }

abbrev left : BTreeNode
left = record {
  keys = letter 98 ∷ letter 100 ∷ [];
  rrn = 0;
  children = replicate 4 no_child;
  next_leaf = 1;
  child_num = 0;
  keys_num = 2;
  leaf = true;
}

abbrev right : BTreeNode
right = record left {
  keys = letter 102 ∷ zero_key ∷ [];
  rrn = 1;
  next_leaf = no_child;
  keys_num = 1;
}

abbrev root : BTreeNode
root = record right { rrn = 2; children = 0 ∷ 1 ∷ 9 ∷ 9 ∷ []; child_num = 2; leaf = false }

abbrev disk : Disk
disk zero = some left
disk (suc zero) = some right
disk (suc (suc zero)) = some root
disk (suc (suc (suc n))) = none

abbrev tree : BTree Disk
tree = record { root = some root; root_rrn = 2; store = disk }

abbrev items : List Item
items = entry (letter 98) ∷ entry (letter 100) ∷ sep (letter 102) ∷ entry (letter 102) ∷ []

items-Sorted : Sorted items
unfolding strcmp
items-Sorted =
    Sorted.cons (λ e. cc)
      (Leads.cons (by_id refl) (Leads.cons (by_id refl) (Leads.cons (by_id refl) Leads.nil)))
      (Sorted.cons (λ e. cc) (Leads.cons (by_id refl) (Leads.cons (by_id refl) Leads.nil))
        (Sorted.cons (λ e. cc) (Leads.cons (same_id refl) Leads.nil)
          (Sorted.cons (λ e. cc) Leads.nil Sorted.nil)))

left-Subtree : Subtree 3 disk 0 left (entry (letter 98) ∷ entry (letter 100) ∷ []) []
left-Subtree =
    leaf (letter 98 ∷ letter 100 ∷ []) refl (record { spare = []; cells = refl; count = refl })
      (record {
        key_room = omega arith;
        key_cells = omega arith;
        child_room = omega arith;
        few = omega arith;
      })

right-Subtree : Subtree 3 disk 0 right (entry (letter 102) ∷ []) []
right-Subtree =
    leaf (letter 102 ∷ []) refl (record { spare = zero_key ∷ []; cells = refl; count = refl })
      (record {
        key_room = omega arith;
        key_cells = omega arith;
        child_room = omega arith;
        few = omega arith;
      })

root-Subtree : Subtree 3 disk 1 root items (0 ∷ 1 ∷ [])
root-Subtree =
    inner (letter 102 ∷ []) (0 ∷ 1 ∷ []) refl
      (record { spare = zero_key ∷ []; cells = refl; count = refl })
      (record { spare = 9 ∷ 9 ∷ []; cells = refl; count = refl })
      (record {
        key_room = omega arith;
        key_cells = omega arith;
        child_room = omega arith;
        few = omega arith;
      })
      (more left (letter 102) [] (1 ∷ []) (entry (letter 98) ∷ entry (letter 100) ∷ [])
        (entry (letter 102) ∷ []) [] (1 ∷ []) 0 refl refl left-Subtree
        (last right 1 refl refl right-Subtree))

pages-NoDup : NoDup (2 ∷ 0 ∷ 1 ∷ [])
pages-NoDup =
    NoDup.cons (λ i. elim i [ there j ↦ elim j [ there l ↦ elim l [ ] ] ])
      (NoDup.cons (λ i. elim i [ there j ↦ elim j [ ] ]) (NoDup.cons (λ i. elim i [ ]) NoDup.nil))

tree-IsTree : IsTree 3 (disk_laws 3 (omega arith)).page tree 1 items
tree-IsTree = record {
  node = root;
  own = 0 ∷ 1 ∷ [];
  is_root = refl;
  root_page = refl;
  tree = root-Subtree;
  sorted = items-Sorted;
  apart = pages-NoDup;
}

-- With a page store that keeps its promises: "d" is found in the left leaf, below the root.
found_below : b_search (disk_pager 3) 2 tree (100 ∷ []) 0 ≡ ok ((some left, 1), disk)
unfolding b_search search_key search_in_btree_node search_from strcmp disk_pager
found_below = refl

-- The separator hides the key of the right leaf.
hidden : b_search (disk_pager 3) 2 tree (102 ∷ []) 0 ≡ ok ((none, no_pos), disk)
unfolding b_search search_key search_in_btree_node search_from strcmp disk_pager
hidden = refl

-- The cache is empty, there is memory, and one record number is free.
abbrev files : Files
files = record {
  free = true;
  file = λ rrn. none;
  writes = true;
  deref = λ bytes. none;
  pointer = replicate 8 1;
  capacity = 128;
  cache = [];
  free_rrn = 0 ∷ [];
}

write_index_record-fault_example : write_index_record files left ≡ fault
write_index_record-fault_example = write_index_record-fault files left refl refl

load_btree_node-null_example :
    ((files.cache ≡ []) × (load_btree_node 3 files 0 ≡ ok (none, files)))
    ⊎ (load_btree_node 3 files 0 ≡ fault)
load_btree_node-null_example = load_btree_node-null 3 files 0

b_insert-own_example :
    b_insert
      (own_pager 3 (λ f rrn. ok (true, f)) (λ f rrn. ok f))
      0
      3
      (record { root = none; root_rrn = 0; store = files })
      (letter 99)
    ≡ fault
b_insert-own_example =
    b_insert-own 3 (λ f rrn. ok (true, f)) (λ f rrn. ok f)
      (record { root = none; root_rrn = 0; store = files }) refl (omega arith) 0 (letter 99)

abbrev own : Pager Files
own = own_pager 3 (λ f rrn. ok (true, f)) (λ f rrn. ok f)

abbrev own_tree : BTreeNode → BTree Files
own_tree p = record { root = some p; root_rrn = p.rrn; store = files }
