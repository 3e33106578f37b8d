-- ===== src/BTree/Tests.antt =====
-- Nodes with room for four keys, of one letter each.
use gaveta.Base.{ℕ, ◌≡◌, refl, true, false, none, some, [], ◌∷◌, arith, ok, fault, Returns}
use gaveta.BTree.{
  Key, BTreeNode, strcmp, search_in_btree_node, insert_in_btree_node, move_from_left, redistribute,
  merge,
}
use gaveta.BTree.Search.{
  Holds, nil, cons, Ascending, has_key, count_smaller, search_in_btree_node-count,
}
use gaveta.BTree.Insert.{
  insert_key, HoldsChildren, SameRoom, insert_in_btree_node-child, insert_in_btree_node-Ascending,
}
use gaveta.BTree.Balance.{Hold, redistribute-Hold, merge-Holds}

abbrev letter : ℕ → Key
letter c = record { id = c ∷ []; data_register_rrn = c }

abbrev blank : Key
blank = record { id = []; data_register_rrn = 0 }

-- The keys "b" and "d".
abbrev leaf : BTreeNode
leaf = record {
  keys = letter 98 ∷ letter 100 ∷ blank ∷ blank ∷ [];
  rrn = 0;
  children = [];
  next_leaf = 1;
  child_num = 0;
  keys_num = 2;
  leaf = true;
}

-- The key "e".
abbrev right : BTreeNode
right = record leaf {
  keys = letter 101 ∷ blank ∷ blank ∷ blank ∷ [];
  keys_num = 1;
  next_leaf = 65535;
}

abbrev inner : BTreeNode
inner = record leaf { children = 5 ∷ 6 ∷ 7 ∷ 0 ∷ 0 ∷ []; child_num = 3; leaf = false }

leaf-Holds : Holds leaf (letter 98 ∷ letter 100 ∷ [])
leaf-Holds = record { spare = blank ∷ blank ∷ []; cells = refl; count = refl }

inner-Holds : Holds inner (letter 98 ∷ letter 100 ∷ [])
inner-Holds = record { spare = blank ∷ blank ∷ []; cells = refl; count = refl }

inner-HoldsChildren : HoldsChildren inner (5 ∷ 6 ∷ 7 ∷ [])
inner-HoldsChildren = record { spare = 0 ∷ 0 ∷ []; cells = refl; count = refl }

right-Holds : Holds right (letter 101 ∷ [])
right-Holds = record { spare = blank ∷ blank ∷ blank ∷ []; cells = refl; count = refl }

b_d-Ascending : Ascending (letter 98 ∷ letter 100 ∷ [])
unfolding strcmp
b_d-Ascending = cons (λ e. cc) (cons refl nil) (cons (λ e. cc) nil nil)

-- A right neighbour without keys is read before its first cell.
redistribute_empty : redistribute true (record right { keys_num = 0 }) leaf ≡ fault
unfolding redistribute move_from_left
redistribute_empty = refl

search_in_btree_node-count_example :
    search_in_btree_node (some leaf) (99 ∷ []) ≡ ok (some (false, 1))
unfolding has_key count_smaller strcmp
search_in_btree_node-count_example = search_in_btree_node-count (99 ∷ []) leaf-Holds b_d-Ascending

insert_in_btree_node-Ascending_example :
    (pos : ℕ) × (q : BTreeNode) × (search_in_btree_node (some leaf) (99 ∷ [])
      ≡ ok (some (false, pos)))
    × (insert_in_btree_node (some leaf) (letter 99) none pos ≡ ok (some q))
    × Holds q (insert_key (letter 99) (letter 98 ∷ letter 100 ∷ []))
    × Ascending (insert_key (letter 99) (letter 98 ∷ letter 100 ∷ []))
unfolding has_key strcmp
insert_in_btree_node-Ascending_example =
    insert_in_btree_node-Ascending (letter 99) none leaf-Holds b_d-Ascending refl (omega arith)
      (omega arith) (λ e. cc) refl

insert_in_btree_node-child_example :
    (q : BTreeNode) × (insert_in_btree_node (some inner) (letter 99) (some 9) 1 ≡ ok (some q))
    × Holds q (letter 98 ∷ letter 99 ∷ letter 100 ∷ [])
    × HoldsChildren q (5 ∷ 6 ∷ 9 ∷ 7 ∷ [])
    × SameRoom inner q
insert_in_btree_node-child_example =
    insert_in_btree_node-child (letter 98 ∷ []) (letter 100 ∷ []) (letter 99) inner-Holds
      (omega arith) (omega arith) (5 ∷ 6 ∷ []) (7 ∷ []) 9 inner-HoldsChildren refl refl
      (omega arith) (omega arith)

redistribute-Hold_example :
    Returns
      (redistribute true leaf right)
      λ (nodes : BTreeNode × BTreeNode). Hold nodes (letter 98 ∷ []) (letter 100 ∷ letter 101 ∷ [])
redistribute-Hold_example =
    redistribute-Hold true (letter 98 ∷ []) (letter 101 ∷ []) (letter 100) leaf-Holds right-Holds
      (omega arith) (omega arith) (omega arith)

merge-Holds_example : Returns (merge leaf right) λ (node : BTreeNode).
    Holds node (letter 98 ∷ letter 100 ∷ letter 101 ∷ []) × (node.next_leaf ≡ 65535)
merge-Holds_example =
    merge-Holds (letter 98 ∷ letter 100 ∷ []) (letter 101 ∷ []) leaf-Holds right-Holds (omega arith)
      (omega arith)
