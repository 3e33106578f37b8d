-- ===== src/BTree/Tree/Own/Search.antt =====
-- `b_search` of BTree.c with the program's own operations on pages.
use gaveta.Base.{
  ℕ, suc, ◌≡◌, refl, Bool, true, false, none, some, List, get_elem?, Option-cases, if◌then◌else◌,
  inl, inr, Run, ok, fault, ◌>>=◌, Bool-cases,
}
use gaveta.Heap.{Bytes}
use gaveta.BTree.{Key, BTreeNode}
use gaveta.BTree.Search.{Holds, Ascending, has_key, count_smaller, search_in_btree_node-count}
use gaveta.BTree.Pager.Cache.{Files, own_pager, load_btree_node-null}
use gaveta.BTree.Tree.{BTree, no_pos, search_key, b_search}

pub if-cases :
    {A : Type 0} {x y r : A} (c : Bool)
    → (c ≡ true → r ≡ x)
    → (c ≡ false → r ≡ y)
    → r ≡ (if c then x else y)
if-cases true on_true on_false = on_true refl
if-cases false on_true on_false = on_false refl

module _ (order : ℕ) (erase : Files → ℕ → Run (Bool × Files)) (read : Files → ℕ → Run Files) (n : ℕ)
    (b : BTree Files) (root : BTreeNode) (ks : List Key) (key : Bytes) (pos : ℕ)
    (is_root : b.root ≡ some root) (holds : Holds root ks) (asc : Ascending ks) where
  pub search-leaf :
      root.leaf ≡ true
      → b_search (own_pager order erase read) (suc n) b key pos
        ≡ ok ((some root, if has_key key ks then count_smaller key ks else no_pos), b.store)
  unfolding b_search search_key
  search-leaf is_leaf =
      let run = search_in_btree_node-count key holds asc in
      elim (Bool-cases (has_key key ks)) [
        | inl hit ↦ simp (b_search, search_key, is_root, run, hit, is_leaf, ◌>>=◌)
        | inr miss ↦ simp (b_search, search_key, is_root, run, miss, is_leaf, ◌>>=◌)
      ]

  pub search-separator :
      root.leaf ≡ false
      → has_key key ks ≡ true
      → b_search (own_pager order erase read) (suc n) b key pos ≡ ok ((none, no_pos), b.store)
  unfolding b_search search_key
  search-separator is_inner hit =
      let run = search_in_btree_node-count key holds asc in
      simp (b_search, search_key, is_root, run, hit, is_inner, ◌>>=◌)

  pub search-below :
      root.leaf ≡ false
      → has_key key ks ≡ false
      → b_search (own_pager order erase read) (suc n) b key pos ≡ fault
  unfolding b_search search_key own_pager
  search-below is_inner miss =
      let run = search_in_btree_node-count key holds asc in
      elim (Option-cases (get_elem? root.children (count_smaller key ks))) [
        | inl out ↦ simp (b_search, search_key, is_root, run, miss, is_inner, out, ◌>>=◌)
        | inr (c, cell) ↦ elim (load_btree_node-null order b.store c) [
          | inl (_, null) ↦
              simp
                (b_search, search_key, is_root, run, miss, is_inner, cell, null, own_pager, ◌>>=◌)
          | inr bad ↦
              simp (b_search, search_key, is_root, run, miss, is_inner, cell, bad, own_pager, ◌>>=◌)
        ]
      ]
