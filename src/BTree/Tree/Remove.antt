-- ===== src/BTree/Tree/Remove.antt =====
-- `b_remove` of src/modules/ds/BTree.c, with `find_parent` and `get_sibling`. Two nodes are the same
-- where their record numbers are.
pub mod Missing
pub mod Own
use gaveta.Base.{
  ℕ, zero, suc, ◌+◌, ◌-◌, ◌/◌, ◌%◌, ◌^◌, Bool, true, false, not, ◌&&◌, Option, none, some, List, [],
  ◌∷◌, ltb, ◌==◌, if◌then◌else◌, get_elem?, Run, ok, fault, unfinished, ◌>>=◌,
}
use Prim.Native.Nat.{lt, eq, gt}
use gaveta.Heap.{Bytes}
use gaveta.BTree.{Key, BTreeNode, strcmp, shift_down, redistribute, merge}
use gaveta.BTree.Pager.{Pager}
use gaveta.BTree.Tree.{Status, success, not_found, error_io, error_invalid, BTree, no_pos, b_search}

-- Is the number among the next `n` children from `i` on? The first loop of `find_parent`.
pub has_child : (n i : ℕ) → List ℕ → ℕ → Run Bool
has_child zero i children rrn = ok false
has_child (suc n) i children rrn = elim (get_elem? children i) [
  | none ↦ fault
  | some c ↦ elim (c == rrn) [ true ↦ ok true | false ↦ has_child n (i + 1) children rrn ]
]

-- The first index with the number, or the end: the loop of `get_sibling`, `n` rounds.
pub child_index : (n i : ℕ) → List ℕ → ℕ → Run ℕ
child_index zero i children rrn = ok i
child_index (suc n) i children rrn = elim (get_elem? children i) [
  | none ↦ fault
  | some c ↦ elim (c == rrn) [ true ↦ ok i | false ↦ child_index n (i + 1) children rrn ]
]

-- The leaf `p` loses the key at `pos`.
pub remove_at : BTreeNode → ℕ → Run BTreeNode
remove_at p pos = shift_down (p.keys_num - (pos + 1)) pos p.keys >>= λ keys.
    ok (record p { keys = keys; keys_num = (p.keys_num + 2 ^ 8 - 1) % 2 ^ 8 })

-- A sibling that can spare a key: more than `half` of them.
abbrev pub can_give : ℕ → Option BTreeNode → Bool
can_give half none = false
can_give half (some p) = ltb half p.keys_num

module _ {S : Type 0} (pager : Pager S) where
  -- The second loop of `find_parent`; `find` is the call in it.
  pub find_below :
      (S → BTreeNode → Run (Option BTreeNode × S))
      → (n i : ℕ) → List ℕ
      → S
      → Run (Option BTreeNode × S)
  find_below find zero i children s = ok (none, s)
  find_below find (suc n) i children s = elim (get_elem? children i) [
    | none ↦ fault
    | some c ↦ pager.load s c >>= λ l. elim l.0 [
      | none ↦ find_below find n (i + 1) children l.1
      | some child ↦ find l.1 child >>= λ r. pager.release r.1 child >>= λ s. elim r.0 [
        | some result ↦ ok (some result, s)
        | none ↦ find_below find n (i + 1) children s
      ]
    ]
  ]

  pub find_parent : ℕ → (root target : BTreeNode) → S → BTreeNode → Run (Option BTreeNode × S)
  find_parent zero root target s current = unfinished
  find_parent (suc n) root target s current =
      if target.rrn == root.rrn
      then ok (none, s)
      else (has_child current.child_num 0 current.children target.rrn >>= λ found. elim found [
        | true ↦ ok (some current, s)
        | false ↦ elim current.leaf [
          | true ↦ ok (none, s)
          | false ↦ find_below (find_parent n root target) current.child_num 0 current.children s
        ]
      ])

  -- return load_btree_node(b, parent->children[i]);
  pub load_child : S → BTreeNode → ℕ → Run (Option BTreeNode × S)
  load_child s parent i = elim (get_elem? parent.children i) [
    | none ↦ fault
    | some c ↦ pager.load s c
  ]

  pub get_sibling : ℕ → (root p : BTreeNode) → (left : Bool) → S → Run (Option BTreeNode × S)
  get_sibling n root p left s = find_parent n root p s root >>= λ f. elim f.0 [
    | none ↦ ok (none, f.1)
    | some parent ↦ child_index (parent.child_num + 1) 0 parent.children p.rrn >>= λ pos.
        if left && ltb 0 pos
        then load_child f.1 parent (pos - 1)
        else if not left && ltb (pos + 1) parent.child_num
        then load_child f.1 parent (pos + 1)
        else ok (none, f.1)
  ]

  -- `redistribute` with both writes.
  pub redistribute_pages : S → Bool → (donor receiver : BTreeNode) → Run (Status × S)
  redistribute_pages s from_left donor receiver = redistribute from_left donor receiver >>= λ r.
      pager.write s r.0 >>= λ w. elim w.0 [
        | false ↦ ok (error_io, w.1)
        | true ↦ pager.write w.1 r.1 >>= λ w. ok (if w.0 then success else error_io, w.1)
      ]

  -- `merge` with the write, and the release of the right node's record number.
  pub merge_pages : S → (left right : BTreeNode) → Run (Status × S)
  merge_pages s left right = merge left right >>= λ q. pager.write s q >>= λ w. elim w.0 [
    | false ↦ ok (error_io, w.1)
    | true ↦ pager.give_rrn w.1 right.rrn >>= λ s. ok (success, s)
  ]

  -- The last part of `b_remove`: neither sibling can spare a key.
  pub merge_sibling : S → BTreeNode → (left right : Option BTreeNode) → Run (Status × S)
  merge_sibling s p (some left) right = merge_pages s left p
  merge_sibling s p none (some right) = merge_pages s p right
  merge_sibling s p none none = ok (success, s)

  -- The leaf has fewer than `half` keys.
  pub underflow : ℕ → (half : ℕ) → (root p : BTreeNode) → S → Run (Status × S)
  underflow n half root p s = get_sibling n root p true s >>= λ l. elim l.0 [
    | none ↦ get_sibling n root p false l.1 >>= λ r. elim r.0 [
      | none ↦ ok (success, r.1)
      | some right ↦
          if ltb half right.keys_num
          then redistribute_pages r.1 false right p
          else merge_sibling r.1 p none (some right)
    ]
    | some left ↦
        if ltb half left.keys_num
        then redistribute_pages l.1 true left p
        else (get_sibling n root p false l.1 >>= λ r.
            if can_give half r.0
            then (elim r.0 [ none ↦ fault | some right ↦ redistribute_pages r.1 false right p ])
            else merge_sibling r.1 p (some left) r.0)
  ]

  -- The record of the key is wiped, and its number freed in the list of the index file.
  pub erase_record : S → ℕ → Run S
  erase_record s rrn =
      if rrn == no_pos
      then ok s
      else (pager.erase s rrn >>= λ e. if e.0 then pager.give_rrn e.1 rrn else ok e.1)

  -- What follows on the removal of the key. `p` is the leaf without it.
  pub after_removal : ℕ → ℕ → BTree S → (root p : BTreeNode) → Run (Status × BTree S)
  after_removal n order b root p =
      let same : Bool = p.rrn == root.rrn in
      let root : BTreeNode = if same then p else root in
      if same && (p.keys_num == 0)
      then (pager.release b.store p >>= λ s. ok (success, record b { root = none; store = s }))
      else (pager.write b.store p >>= λ w. elim w.0 [
        | false ↦ ok (error_io, record b { root = some root; store = w.1 })
        | true ↦
            if not same && ltb p.keys_num ((order - 1) / 2)
            then (underflow n ((order - 1) / 2) root p w.1 >>= λ r.
                ok (r.0, record b { root = some root; store = r.1 }))
            else ok (success, record b { root = some root; store = w.1 })
      ])

  -- `pos` is the local variable before the search.
  pub b_remove : ℕ → ℕ → BTree S → Bytes → (pos : ℕ) → Run (Status × BTree S)
  b_remove n order b key_id pos = elim b.root [
    | none ↦ ok (error_invalid, b)
    | some root ↦ b_search pager n b key_id pos >>= λ r. elim r.0.0 [
      | none ↦ ok (not_found, record b { store = r.1 })
      | some p ↦ elim (get_elem? p.keys r.0.1) [
        | none ↦ fault
        | some k ↦ elim (strcmp k.id key_id) [
          | lt ↦ ok (not_found, record b { store = r.1 })
          | gt ↦ ok (not_found, record b { store = r.1 })
          | eq ↦ remove_at p r.0.1 >>= λ q. erase_record r.1 k.data_register_rrn >>= λ s.
              after_removal n order (record b { store = s }) root q
        ]
      ]
    ]
  ]
