-- ===== src/BTree/Tree/Shape.antt =====
-- When nodes and pages of BTree.c are a search tree.
use gaveta.Base.{
  ℕ, suc, ◌+◌, ◌≤◌, ◌<◌, ◌≡◌, false, true, Option, none, some, List, [], ◌∷◌, ◌++◌, length, map,
  if◌then◌else◌,
}
use gaveta.Heap.{Bytes}
use gaveta.BTree.{Key, BTreeNode, strcmp}
use gaveta.BTree.Search.{Holds, is_eq}
use gaveta.BTree.Insert.{HoldsChildren}
use gaveta.BTree.Tree.{BTree, no_pos}
use gaveta.BTree.Tree.Trace.{Item, entry, sep, Sorted}

-- A node's arrays have room for `order - 1` keys and `order + 1` children, no key is at (u16)-1, and
-- there are fewer than `order` keys.
pub record Fits (order : ℕ) (p : BTreeNode) : Type 0 where
  pub key_room : order ≤ length p.keys + 1
  pub key_cells : length p.keys ≤ no_pos
  pub child_room : order < length p.children
  pub few : p.keys_num < order

mutual
  -- The tree under a node, all of its leaves at this depth, with its trace and the record numbers of
  -- the pages below the node.
  pub data Subtree (order : ℕ) (page : ℕ → Option BTreeNode)
      : ℕ → BTreeNode → List Item → List ℕ → Type 0 where
    leaf :
        {p : BTreeNode} (ks : List Key)
        → p.leaf ≡ true
        → Holds p ks
        → Fits order p
        → Subtree order page 0 p (map entry ks) []
    inner :
        {depth : ℕ} {p : BTreeNode} (seps : List Key) (cs : List ℕ) {t : List Item} {own : List ℕ}
        → p.leaf ≡ false
        → Holds p seps
        → HoldsChildren p cs
        → Fits order p
        → Children order page depth seps cs t own
        → Subtree order page (suc depth) p t own

  -- The children of an inner node, with the separators between them.
  pub data Children (order : ℕ) (page : ℕ → Option BTreeNode)
      : ℕ → (seps : List Key) → (cs : List ℕ) → List Item → List ℕ → Type 0 where
    last :
        {depth : ℕ} (q : BTreeNode) {t : List Item} {own : List ℕ} (r : ℕ)
        → page r ≡ some q
        → q.rrn ≡ r
        → Subtree order page depth q t own
        → Children order page depth [] (r ∷ []) t (r ∷ own)
    more :
        {depth : ℕ} (q : BTreeNode) (s : Key) (seps : List Key) (cs : List ℕ) (t u : List Item)
        (own rest : List ℕ) (r : ℕ)
        → page r ≡ some q
        → q.rrn ≡ r
        → Subtree order page depth q t own
        → Children order page depth seps cs u rest
        → Children order page depth (s ∷ seps) (r ∷ cs) (t ++ sep s ∷ u) ((r ∷ own) ++ rest)

-- The key with this string.
unfoldable pub find_key : Bytes → List Key → Option Key
find_key id [] = none
find_key id (k ∷ ks) = if is_eq (strcmp k.id id) then some k else find_key id ks

pub data In (r : ℕ) : List ℕ → Type 0 where
  here : {rs : List ℕ} → In r (r ∷ rs)
  there : {x : ℕ} {rs : List ℕ} → In r rs → In r (x ∷ rs)

-- No number stands in the list twice.
pub data NoDup : List ℕ → Type 0 where
  nil : NoDup []
  cons : {r : ℕ} {rs : List ℕ} → ¬ In r rs → NoDup rs → NoDup (r ∷ rs)

-- The B-tree `b` is a search tree on these pages: its items ascend, and no page is used twice.
pub record IsTree {S : Type 0} (order : ℕ) (page : S → ℕ → Option BTreeNode) (b : BTree S)
    (depth : ℕ) (t : List Item) : Type 0 where
  pub node : BTreeNode
  pub own : List ℕ
  pub is_root : b.root ≡ some node
  pub root_page : page b.store node.rrn ≡ some node
  pub tree : Subtree order (page b.store) depth node t own
  pub sorted : Sorted t
  pub apart : NoDup (node.rrn ∷ own)
