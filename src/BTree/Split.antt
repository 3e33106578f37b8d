-- ===== src/BTree/Split.antt =====
-- `split` of src/modules/ds/BTree.c, up to the two writes at its end, which are in BTree/Tree. The node that `alloc_btree_node`
-- makes is an argument, with the record number that `get_free_rrn` gives it; `none` is NULL.
pub mod Gather
pub mod Halves
pub mod Slide
pub mod Inner
pub mod Children
pub mod Full
mod Tests
use Prim.Native.Nat.{Ordering, lt, eq, gt}
use gaveta.Base.{
  ℕ, zero, suc, ◌+◌, ◌-◌, ◌/◌, ◌%◌, ◌^◌, Bool, true, false, not, ◌&&◌, Option, none, some, List, [],
  ◌∷◌, ◌==◌, is_some, if◌then◌else◌, get_elem?, drop, replicate, Run, ok, fault, ◌>>=◌,
}
use gaveta.Heap.{Bytes}
use gaveta.BTree.{Key, BTreeNode, strcmp, put_elem, copy_up}

-- BTREE_ERROR_MEMORY, BTREE_ERROR_IO, or the left node, the new one and the promoted key.
pub data SplitResult : Type 0 where
  no_memory no_rrn : SplitResult
  promotion : BTreeNode → BTreeNode → Key → SplitResult

-- A cell of `temp_keys` after the `memset`.
abbrev pub zero_key : Key
zero_key = record { id = []; data_register_rrn = 0 }

abbrev pub no_child : ℕ
no_child = 65535

-- The `while`, with `pos + 1` rounds left: the results are the last `pos + 1`, and both arrays.
pub slide : ℕ → Bool → Bytes → List Key → List ℕ → Run (ℕ × List Key × List ℕ)
slide zero leaf id keys children = ok (0, keys, children)
slide (suc pos) leaf id keys children = elim (get_elem? keys pos) [
  | none ↦ fault
  | some k ↦ elim (strcmp k.id id) [
    | gt ↦ put_elem keys (pos + 1) k >>= λ keys.
        (if leaf then ok children else elim (get_elem? children (pos + 1)) [
          | none ↦ fault
          | some c ↦ put_elem children (pos + 2) c
        ])
        >>= λ children. slide pos leaf id keys children
    | lt ↦ ok (suc pos, keys, children)
    | eq ↦ ok (suc pos, keys, children)
  ]
]

-- The record number of the right child, if there is one, goes into the gap of an inner node.
pub add_child : Option ℕ → (leaf : Bool) → ℕ → List ℕ → Run (List ℕ)
add_child none leaf n children = ok children
add_child (some rrn) leaf n children = if leaf then ok children else put_elem children (n + 1) rrn

-- All keys and children of the node and the new ones, in order: `temp_keys` and `temp_children`.
pub gather : ℕ → BTreeNode → Option ℕ → Key → Run (List Key × List ℕ)
gather order p r_child incoming_key =
    copy_up p.keys_num 0 0 p.keys (replicate order zero_key) >>= λ keys.
    (if p.leaf
      then ok (replicate (order + 1) no_child)
      else copy_up (p.child_num + 1) 0 0 p.children (replicate (order + 1) no_child))
    >>= λ children. slide p.keys_num p.leaf incoming_key.id keys children >>= λ t.
        put_elem t.1 t.0 incoming_key >>= λ keys.
        add_child r_child p.leaf t.0 t.2 >>= λ children. ok (keys, children)

-- `kept` and `moved` are the counters of the two leaves.
pub split_leaf_at : (middle kept moved : ℕ) → BTreeNode → BTreeNode → List Key → Run SplitResult
split_leaf_at middle kept moved p new keys = copy_up kept 0 0 keys p.keys >>= λ left.
    copy_up moved 0 0 (drop (middle + 1) keys) new.keys >>= λ right. elim (get_elem? right 0) [
      | none ↦ fault
      | some k ↦ ok (
          promotion (record p { keys = left; keys_num = kept; next_leaf = new.rrn })
            (record new { keys = right; keys_num = moved; next_leaf = p.next_leaf; leaf = true }) k)
    ]

-- `split + 1` keys stay, and the first of the others is promoted and stays a key of the new leaf.
pub split_leaf : ℕ → BTreeNode → BTreeNode → List Key → Run SplitResult
split_leaf order p new keys =
    let middle : ℕ = (order - 1) / 2 in
    split_leaf_at middle ((middle + 1) % 2 ^ 8) ((order - (middle + 1)) % 2 ^ 8) p new keys

-- `kept` and `moved` are the counters of keys of the two inner nodes.
pub split_inner_at :
    (middle kept moved : ℕ) → BTreeNode → BTreeNode → List Key → List ℕ → Run SplitResult
split_inner_at middle kept moved p new keys children = copy_up kept 0 0 keys p.keys >>= λ left.
    elim (get_elem? keys middle) [
      | none ↦ fault
      | some k ↦ copy_up moved 0 0 (drop (middle + 1) keys) new.keys >>= λ right.
          copy_up (kept + 1) 0 0 children p.children >>= λ left_children.
          copy_up (moved + 1) 0 0 (drop (middle + 1) children) new.children >>= λ right_children.
          ok (
            promotion
              (record p {
                keys = left;
                keys_num = kept;
                children = left_children;
                child_num = (kept + 1) % 2 ^ 8;
              })
              (record new {
                keys = right;
                keys_num = moved;
                children = right_children;
                child_num = (moved + 1) % 2 ^ 8;
                leaf = false;
              })
              k)
    ]

-- `split` keys stay, and the next one is promoted alone.
pub split_inner : ℕ → BTreeNode → BTreeNode → List Key → List ℕ → Run SplitResult
split_inner order p new keys children =
    let middle : ℕ = (order - 1) / 2 in
    split_inner_at middle (middle % 2 ^ 8) ((order - middle - 1) % 2 ^ 8) p new keys children

pub split : ℕ → BTreeNode → Option ℕ → Key → Option BTreeNode → Run SplitResult
split order p r_child incoming_key new = gather order p r_child incoming_key >>= λ t. elim new [
  | none ↦ ok no_memory
  | some new ↦
      if new.rrn == no_child
      then ok no_rrn
      else if p.leaf
      then split_leaf order p new t.0
      else split_inner order p new t.0 t.1
]
