-- ===== src/BTree/Tree/Range.antt =====
-- `b_range_search` of src/modules/ds/BTree.c: the descent to a leaf, and the walk along the chain of
-- leaves. The result is the list of the data records that are loaded, in order.
pub mod Leaves
pub mod Linked
pub mod Start
pub mod Whole
pub mod Own
use Prim.Native.Nat.{Ordering, lt, eq, gt}
use gaveta.Base.{
  ℕ, zero, suc, ◌+◌, Bool, true, false, ◌&&◌, ◌||◌, not, Option, none, some, List, [], ◌∷◌, ◌++◌,
  ltb, ◌==◌, if◌then◌else◌, get_elem?, Run, ok, fault, unfinished, ◌>>=◌,
}
use gaveta.Heap.{Bytes}
use gaveta.BTree.{Key, BTreeNode, strcmp}
use gaveta.BTree.Pager.{Pager}
use gaveta.BTree.Tree.{BTree, no_pos}

-- The loop over the keys of an inner node, `n` rounds from `i` on: the first key behind `start`.
pub child_for : (n i : ℕ) → List Key → Bytes → Run ℕ
child_for zero i keys start = ok i
child_for (suc n) i keys start = elim (get_elem? keys i) [
  | none ↦ fault
  | some k ↦ elim (strcmp start k.id) [
    | lt ↦ ok i
    | eq ↦ child_for n (i + 1) keys start
    | gt ↦ child_for n (i + 1) keys start
  ]
]

-- Is the comparison not this one?
abbrev pub not_gt : Ordering → Bool
not_gt lt = true
not_gt eq = true
not_gt gt = false

abbrev pub not_lt : Ordering → Bool
not_lt lt = false
not_lt eq = true
not_lt gt = true

-- curr->keys_num > 0 && strcmp(curr->keys[0].id, range->end_id->id) > 0
pub starts_behind : BTreeNode → Bytes → Run Bool
starts_behind curr end = if curr.keys_num == 0 then ok false else elim (get_elem? curr.keys 0) [
  | none ↦ fault
  | some k ↦ ok (not (not_gt (strcmp k.id end)))
]

module _ {S : Type 0} (pager : Pager S) where
  -- The first loop: `none` where a node could not be loaded.
  pub leaf_for : ℕ → S → BTreeNode → Bytes → Run (Option BTreeNode × S)
  leaf_for zero s curr start = unfinished
  leaf_for (suc n) s curr start = elim curr.leaf [
    | true ↦ ok (some curr, s)
    | false ↦ child_for curr.keys_num 0 curr.keys start >>= λ i. elim (get_elem? curr.children i) [
      | none ↦ fault
      | some c ↦ pager.load s c >>= λ l. elim l.0 [
        | none ↦ ok (none, l.1)
        | some next ↦ leaf_for n l.1 next start
      ]
    ]
  ]

  -- The loop over the keys of a leaf, `n` rounds from `i` on.
  pub keys_in_range : (n i : ℕ) → List Key → (start end : Bytes) → S → Run (List ℕ × S)
  keys_in_range zero i keys start end s = ok ([], s)
  keys_in_range (suc n) i keys start end s = elim (get_elem? keys i) [
    | none ↦ fault
    | some k ↦ elim (not_gt (strcmp k.id end)) [
      | false ↦ ok ([], s)
      | true ↦ elim (not_lt (strcmp k.id start)) [
        | false ↦ keys_in_range n (i + 1) keys start end s
        | true ↦ pager.read_record s k.data_register_rrn >>= λ s.
            keys_in_range n (i + 1) keys start end s >>= λ rest.
            ok (k.data_register_rrn ∷ rest.0, rest.1)
      ]
    ]
  ]

  -- The walk along the leaves, at most `n` of them.
  pub leaves_in_range : ℕ → S → BTreeNode → (start end : Bytes) → Run (List ℕ × S)
  leaves_in_range zero s curr start end = unfinished
  leaves_in_range (suc n) s curr start end = starts_behind curr end >>= λ behind. elim behind [
    | true ↦ ok ([], s)
    | false ↦ keys_in_range curr.keys_num 0 curr.keys start end s >>= λ here.
        elim (curr.next_leaf == no_pos) [
          | true ↦ ok here
          | false ↦ pager.load here.1 curr.next_leaf >>= λ l. elim l.0 [
            | none ↦ ok (here.0, l.1)
            | some next ↦
                leaves_in_range n l.1 next start end >>= λ rest. ok (here.0 ++ rest.0, rest.1)
          ]
        ]
  ]

  -- `depth` and `n` bound the nodes of the two loops.
  pub b_range_search : (depth n : ℕ) → BTree S → (start end : Bytes) → Run (List ℕ × S)
  b_range_search depth n b start end = elim b.root [
    | none ↦ ok ([], b.store)
    | some root ↦ leaf_for depth b.store root start >>= λ f. elim f.0 [
      | none ↦ ok ([], f.1)
      | some curr ↦ leaves_in_range n f.1 curr start end
    ]
  ]
