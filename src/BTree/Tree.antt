-- ===== src/BTree/Tree.antt =====
-- The functions of src/modules/ds/BTree.c on the whole tree: search and insertion, over the operations
-- of a `Pager`. A descent has its number of nodes as fuel. The copies of a key through `k.id`, which
-- points nowhere, are taken to have room; so is that of `populate_key` before an insertion, whose result
-- is the argument of `b_insert`.
pub mod Remove
pub mod Range
pub mod Shape
pub mod Trace
pub mod Growth
pub mod Order
pub mod Way
pub mod Find
pub mod Frame
pub mod Replace
pub mod Pages
pub mod Written
pub mod Grown
pub mod Inner
pub mod Descend
pub mod Root
pub mod NewRoot
pub mod RoundTrip
pub mod Build
pub mod Own
mod Tests
use gaveta.Base.{
  ℕ, zero, suc, ◌+◌, ◌-◌, ◌%◌, ◌^◌, Bool, true, false, Option, none, some, List, [], ◌∷◌, ltb, ◌==◌,
  if◌then◌else◌, get_elem?, Run, ok, fault, exited, unfinished, ◌>>=◌,
}
use gaveta.Heap.{Bytes}
use gaveta.BTree.{Key, BTreeNode, search_in_btree_node, put_elem, insert_in_btree_node}
use gaveta.BTree.Split.{SplitResult, no_memory, no_rrn, promotion, split}
use gaveta.BTree.Pager.{Pager}

-- The values that the functions below return, BTREE_PROMOTION excepted.
pub data Status : Type 0 where
  success not_found error_memory error_io error_duplicate error_invalid : Status

-- `root_rrn` is that of the configuration.
pub record BTree (S : Type 0) : Type 0 where
  pub root : Option BTreeNode
  pub root_rrn : ℕ
  pub store : S

-- The node `p` after `insert_key`, with what it returns; the new right node and the key to promote come
-- with BTREE_PROMOTION.
pub data Insertion : Type 0 where
  done : Status → BTreeNode → Insertion
  promoted : BTreeNode → BTreeNode → Key → Insertion

-- (u16)-1
abbrev pub no_pos : ℕ
no_pos = 65535

module _ {S : Type 0} (pager : Pager S) where
  -- What the search returns: `*return_btree_node`, and the value, which ends up in `*return_pos`.
  pub search_key : ℕ → S → BTreeNode → Bytes → Run ((Option BTreeNode × ℕ) × S)
  search_key zero s p k = unfinished
  search_key (suc n) s p k = search_in_btree_node (some p) k >>= λ r. elim r [
    | none ↦ fault
    | some at ↦ elim at.0 [
      | true ↦ ok ((some p, at.1), s)
      | false ↦ elim p.leaf [
        | true ↦ ok ((some p, no_pos), s)
        | false ↦ elim (get_elem? p.children at.1) [
          | none ↦ fault
          | some c ↦ pager.load s c >>= λ l. elim l.0 [
            | none ↦ ok ((none, no_pos), l.1)
            | some next ↦ search_key n l.1 next k >>= λ found.
                pager.release found.1 next >>= λ s. ok (found.0, s)
          ]
        ]
      ]
    ]
  ]

  -- `pos` is what `*return_pos` is before the call.
  pub b_search : ℕ → BTree S → Bytes → (pos : ℕ) → Run ((Option BTreeNode × ℕ) × S)
  b_search n b query_key pos = elim b.root [
    | none ↦ ok ((none, pos), b.store)
    | some root ↦ search_key n b.store root query_key >>= λ r. elim r.0.0 [
      | none ↦ fault
      | some found ↦ if found.leaf then ok r else ok ((none, no_pos), r.1)
    ]
  ]

  -- return write_index_record(b, p);
  pub write_done : S → BTreeNode → Run (Insertion × S)
  write_done s p = pager.write s p >>= λ w. ok (done (if w.0 then success else error_io) p, w.1)

  -- The end of `split`: both nodes are written.
  pub write_halves : S → BTreeNode → SplitResult → Run (Insertion × S)
  write_halves s p no_memory = ok (done error_memory p, s)
  write_halves s p no_rrn = ok (done error_io p, s)
  write_halves s p (promotion left right key) = pager.write s left >>= λ w. elim w.0 [
    | false ↦ ok (done error_io left, w.1)
    | true ↦ pager.write w.1 right >>= λ w. elim w.0 [
      | false ↦ ok (done error_io left, w.1)
      | true ↦ ok (promoted left right key, w.1)
    ]
  ]

  -- `split`, with the new node and its record number.
  pub split_page : ℕ → S → BTreeNode → Option ℕ → Key → Run (Insertion × S)
  split_page order s p r_child k = pager.alloc s >>= λ a. elim a.0 [
    | none ↦ split order p r_child k none >>= λ r. write_halves a.1 p r
    | some new ↦ pager.take_rrn a.1 >>= λ t.
        split order p r_child k (some (record new { rrn = t.0 })) >>= λ r. write_halves t.1 p r
  ]

  -- The insertion into `p` itself: there is room, or the node is split.
  pub insert_here : ℕ → S → BTreeNode → Option ℕ → Key → ℕ → Run (Insertion × S)
  insert_here order s p r_child k pos =
      if ltb p.keys_num (order - 1)
      then (insert_in_btree_node (some p) k r_child pos >>= λ r. elim r [
        | none ↦ ok (done error_invalid p, s)
        | some p ↦ write_done s p
      ])
      else split_page order s p r_child k

  -- `order` is at least 1.
  pub insert_key : ℕ → ℕ → S → BTreeNode → Key → Run (Insertion × S)
  insert_key zero order s p k = unfinished
  insert_key (suc n) order s p k = search_in_btree_node (some p) k.id >>= λ r. elim r [
    | none ↦ fault
    | some at ↦ elim at.0 [
      | true ↦ ok (done error_duplicate p, s)
      | false ↦ elim p.leaf [
        | true ↦ insert_here order s p none k at.1
        | false ↦ elim (get_elem? p.children at.1) [
          | none ↦ fault
          | some c ↦ pager.load s c >>= λ l. elim l.0 [
            | none ↦ ok (done error_io p, l.1)
            | some child ↦ insert_key n order l.1 child k >>= λ i. elim i.0 [
              | done status child ↦ pager.release i.1 child >>= λ s. ok (done status p, s)
              | promoted child right key ↦
                  pager.release i.1 child >>= λ s. insert_here order s p (some right.rrn) key at.1
            ]
          ]
        ]
      ]
    ]
  ]

  -- The first key of a tree.
  pub new_tree : BTree S → Key → Run (Status × BTree S)
  new_tree b k = pager.alloc b.store >>= λ a. elim a.0 [
    | none ↦ ok (error_memory, record b { root = none; store = a.1 })
    | some p ↦ pager.take_rrn a.1 >>= λ t. put_elem p.keys 0 k >>= λ keys.
        let root : BTreeNode = record p { rrn = t.0; keys = keys; keys_num = 1; leaf = true } in
        pager.write t.1 root >>= λ w.
        ok (if w.0 then success else error_io, record b { root = some root; store = w.1 })
  ]

  -- The root has been split.
  pub new_root : BTree S → (left right : BTreeNode) → Key → Run (Status × BTree S)
  new_root b left right k = pager.alloc b.store >>= λ a. elim a.0 [
    | none ↦ ok (error_memory, record b { root = some left; store = a.1 })
    | some p ↦ pager.take_rrn a.1 >>= λ t. put_elem p.keys 0 k >>= λ keys.
        put_elem p.children 0 left.rrn >>= λ children. put_elem children 1 right.rrn >>= λ children.
        let root : BTreeNode = record p {
          rrn = t.0;
          keys = keys;
          keys_num = 1;
          children = children;
          child_num = 2;
          leaf = false;
        } in
        pager.write t.1 root >>= λ w. elim w.0 [
          | false ↦ exited
          | true ↦ ok (success, record { root = some root; root_rrn = root.rrn; store = w.1 })
        ]
  ]

  abbrev pub is_error : Status → Bool
  is_error success = false
  is_error not_found = false
  is_error error_memory = true
  is_error error_io = true
  is_error error_duplicate = true
  is_error error_invalid = true

  -- The key is what `populate_key` makes of the record.
  pub b_insert : ℕ → ℕ → BTree S → Key → Run (Status × BTree S)
  b_insert n order b k = elim b.root [
    | none ↦ new_tree b k
    | some root ↦ insert_key n order b.store root k >>= λ i. elim i.0 [
      | done status p ↦
          ok (if is_error status then status else success, record b { root = some p; store = i.1 })
      | promoted left right key ↦
          new_root (record b { root = some left; store = i.1 }) left right key
    ]
  ]
