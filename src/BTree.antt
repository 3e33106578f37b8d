-- ===== src/BTree.antt =====
-- The nodes of src/modules/ds/BTree.c: search in a node, insertion into one, and what `redistribute` and
-- `merge` move between two. An array is the list of its allocated cells, and an access beyond it is a
-- fault. The counters of a node are bytes. The functions on the whole tree are in BTree/Tree.
pub mod Shift
pub mod Search
pub mod Insert
pub mod Balance
pub mod Split
pub mod FreeRrn
pub mod Pager
pub mod Tree
mod Tests
use Prim.Native.Nat.{Ordering, lt, eq, gt, compare}
use gaveta.Base.{
  ℕ, zero, suc, ◌+◌, ◌-◌, ◌%◌, ◌^◌, Bool, true, false, not, ◌&&◌, Option, none, some, List, [], ◌∷◌,
  ltb, leb, ◌==◌, if◌then◌else◌, length, get_elem?, set, Run, ok, fault, ◌>>=◌,
}
use gaveta.Heap.{Bytes}

-- `id` is the string that the pointer points to.
pub record Key : Type 0 where
  pub id : Bytes
  pub data_register_rrn : ℕ

-- `dirty` and `pinned` are never read.
pub record BTreeNode : Type 0 where
  pub keys : List Key
  pub rrn : ℕ
  pub children : List ℕ
  pub next_leaf : ℕ
  pub child_num : ℕ
  pub keys_num : ℕ
  pub leaf : Bool

-- The sign of the C library's `strcmp`.
pub strcmp : Bytes → Bytes → Ordering
strcmp [] [] = eq
strcmp [] (b ∷ t) = lt
strcmp (a ∷ s) [] = gt
strcmp (a ∷ s) (b ∷ t) = elim (compare a b) [ lt ↦ lt | gt ↦ gt | eq ↦ strcmp s t ]

-- The loop of the search from key `i` on, with `n` rounds left: was the key found, and where is it or
-- would it be?
pub search_from : (n i : ℕ) → List Key → Bytes → Run (Bool × ℕ)
search_from zero i keys key = ok (false, i)
search_from (suc n) i keys key = elim (get_elem? keys i) [
  | none ↦ fault
  | some k ↦ elim k.id [
    | [] ↦ ok (false, i)
    | c ∷ id ↦ elim (strcmp (c ∷ id) key) [
      | eq ↦ ok (true, i)
      | gt ↦ ok (false, i)
      | lt ↦ search_from n (i + 1) keys key
    ]
  ]
]

-- `none` is BTREE_ERROR_INVALID_BTREE_NODE.
pub search_in_btree_node : Option BTreeNode → Bytes → Run (Option (Bool × ℕ))
search_in_btree_node none key = ok none
search_in_btree_node (some p) key = search_from p.keys_num 0 p.keys key >>= λ r. ok (some r)

module _ {A : Type 0} where
  -- arr[i] = v
  pub put_elem : List A → ℕ → A → Run (List A)
  put_elem arr i v = if ltb i (length arr) then ok (set arr i v) else fault

  -- for (i = pos + count - 1; i >= pos; i--) arr[i + 1] = arr[i]
  pub shift_up : (count pos : ℕ) → List A → Run (List A)
  shift_up zero pos arr = ok arr
  shift_up (suc c) pos arr = elim (get_elem? arr (pos + c)) [
    | none ↦ fault
    | some x ↦ put_elem arr (pos + (c + 1)) x >>= λ arr. shift_up c pos arr
  ]

  -- for (j = i; count rounds; j++) arr[j] = arr[j + 1]
  pub shift_down : (count i : ℕ) → List A → Run (List A)
  shift_down zero i arr = ok arr
  shift_down (suc c) i arr = elim (get_elem? arr (i + 1)) [
    | none ↦ fault
    | some x ↦ put_elem arr i x >>= λ arr. shift_down c (i + 1) arr
  ]

  -- for (j = i; count rounds; j++) to[base + j] = from[j]
  pub copy_up : (count i base : ℕ) → (from to : List A) → Run (List A)
  copy_up zero i base from to = ok to
  copy_up (suc c) i base from to = elim (get_elem? from i) [
    | none ↦ fault
    | some x ↦ put_elem to (base + i) x >>= λ to. copy_up c (i + 1) base from to
  ]

  -- The loop, and the write of the new element behind it, in an array with `n` elements.
  pub open_at : List A → (n pos : ℕ) → A → Run (List A)
  open_at arr n pos v = shift_up (n - pos) pos arr >>= λ moved. put_elem moved pos v

-- The part of `insert_in_btree_node` about the children. `r_child` is the record number of the right
-- child, `none` for NULL.
pub insert_child : BTreeNode → Option ℕ → ℕ → Run BTreeNode
insert_child q none pos = ok q
insert_child q (some rrn) pos =
    if q.leaf
    then ok q
    else (open_at q.children q.child_num (pos + 1) rrn >>= λ children.
        ok (record q { children = children; child_num = (q.child_num + 1) % 2 ^ 8 }))

-- `none` is BTREE_ERROR_INVALID_BTREE_NODE.
pub insert_in_btree_node : Option BTreeNode → Key → Option ℕ → ℕ → Run (Option BTreeNode)
insert_in_btree_node none k r_child pos = ok none
insert_in_btree_node (some p) k r_child pos = open_at p.keys p.keys_num pos k >>= λ keys.
    insert_child (record p { keys = keys; keys_num = (p.keys_num + 1) % 2 ^ 8 }) r_child pos
    >>= λ q. ok (some q)

-- The moves of `redistribute`, before both nodes are written: the results are the donor and the
-- receiver.
pub move_from_left : BTreeNode → BTreeNode → Run (BTreeNode × BTreeNode)
move_from_left donor receiver =
    if donor.keys_num == 0 then fault else elim (get_elem? donor.keys (donor.keys_num - 1)) [
      | none ↦ fault
      | some k ↦ open_at receiver.keys receiver.keys_num 0 k >>= λ keys. ok (
        record donor { keys_num = (donor.keys_num + 2 ^ 8 - 1) % 2 ^ 8 },
        record receiver { keys = keys; keys_num = (receiver.keys_num + 1) % 2 ^ 8 },
      )
    ]

pub move_from_right : BTreeNode → BTreeNode → Run (BTreeNode × BTreeNode)
move_from_right donor receiver = elim (get_elem? donor.keys 0) [
  | none ↦ fault
  | some k ↦ put_elem receiver.keys receiver.keys_num k >>= λ keys.
      shift_down (donor.keys_num - 1) 0 donor.keys >>= λ left. ok (
        record donor { keys = left; keys_num = (donor.keys_num + 2 ^ 8 - 1) % 2 ^ 8 },
        record receiver { keys = keys; keys_num = (receiver.keys_num + 1) % 2 ^ 8 },
      )
]

pub redistribute : (from_left : Bool) → BTreeNode → BTreeNode → Run (BTreeNode × BTreeNode)
redistribute true donor receiver = move_from_left donor receiver
redistribute false donor receiver = move_from_right donor receiver

-- `merge` up to the write of the left node.
pub merge : BTreeNode → BTreeNode → Run BTreeNode
merge left right = copy_up right.keys_num 0 left.keys_num right.keys left.keys >>= λ keys.
    ok (record left {
      keys = keys;
      keys_num = (left.keys_num + right.keys_num) % 2 ^ 8;
      next_leaf = right.next_leaf;
    })
