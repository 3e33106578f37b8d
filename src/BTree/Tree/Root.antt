-- ===== src/BTree/Tree/Root.antt =====
-- `b_insert` of BTree.c on a search tree, over operations on
-- pages that keep `PagerLaws`, which the program's own do not.
use gaveta.Base.{
  ℕ, suc, ◌≤◌, ◌<◌, ◌≡◌, ◌≢◌, refl, sym, ◌∙◌, ap, subst, true, false, none, some, List, [], ◌∷◌,
  ◌++◌, arith, ◌⊎◌, inl, inr, ok, Returns,
}
use gaveta.BTree.{Key, BTreeNode}
use gaveta.BTree.Search.{has_key}
use gaveta.BTree.Insert.{insert_key}
use gaveta.BTree.Pager.{Pager, PagerLaws, NoNumber}
use gaveta.BTree.Tree
use gaveta.BTree.Tree.{
  BTree, Status, success, error_io, Insertion, done, promoted, new_tree, new_root, b_insert,
}
use gaveta.BTree.Tree.Trace.{Item, entry, sep, keys_of, seps_of, Leads, Sorted}
use gaveta.BTree.Tree.Growth.{
  Sorted-Inserted, Sorted-Marked, keys_of-Marked, keys_of-Inserted, seps_of-grown,
}
use gaveta.BTree.Tree.Shape.{leaf, last, more, NoDup, nil, cons, IsTree}
use gaveta.BTree.Tree.Grown.{Grown, kept, divided, no_number}
use gaveta.BTree.Tree.Descend.{insert_key-Grown}
use gaveta.BTree.Tree.NewRoot.{first-cell, Inserts, new_root-IsTree}

module _ {S : Type 0} {pager : Pager S} {order : ℕ} (laws : PagerLaws pager order) (two : 2 ≤ order)
    (byte : order < 256) where
  b_insert-end :
      (b : BTree S) {root : BTreeNode} {depth : ℕ} {t : List Item} {own : List ℕ} {i : Insertion}
      {s1 : S} (n : ℕ) (k : Key)
      → b.root ≡ some root
      → Sorted t
      → k.id ≢ []
      → Tree.insert_key pager n order b.store root k ≡ ok (i, s1)
      → Grown order (NoNumber pager s1) (laws.page b.store) (laws.page s1) k depth root t own i
      → Returns
          (b_insert pager n order b k)
          (Inserts laws two byte (suc depth) (seps_of t) (insert_key k (keys_of t)))
  unfolding b_insert
  b_insert-end b {root} {depth} {t} {s1} n k is_root sorted some_id run
        (kept q t' own' same at tree g) =
      let keys = keys_of-Marked g.marked ∙ keys_of-Inserted g.inserted in
      (
        (success, record b { root = some q; store = s1 }),
        simp (b_insert, is_root, run),
        inr (
          refl,
          record {
            depth = depth;
            shallow = omega arith;
            trace = t';
            tree = record {
              node = q;
              own = own';
              is_root = refl;
              root_page = ap (λ n. laws.page s1 n) same ∙ at;
              tree = tree;
              sorted = Sorted-Marked (Sorted-Inserted some_id sorted g.inserted) g.marked;
              apart = subst (λ n. NoDup (n ∷ own')) (sym same) g.apart;
            };
            keys_are = keys;
            seps_are = λ id hit.
                subst (λ ks. (has_key id (seps_of t) ≡ true) ⊎ (has_key id ks ≡ true)) keys
                  (seps_of-grown id g.inserted g.marked hit);
          },
        ),
      )
  b_insert-end b {root} {depth} {t} {s1} n k is_root sorted some_id run
        (divided l r promo tl u ol or same at_l at_r left_tree right_tree g) =
      let at_l' : laws.page s1 l.rrn ≡ some l = ap (λ n. laws.page s1 n) same ∙ at_l in
      let children =
        more l promo [] (r.rrn ∷ []) tl u ol (r.rrn ∷ or) l.rrn at_l' refl left_tree
          (last r r.rrn at_r refl right_tree) in
      let keys = keys_of-Marked g.marked ∙ keys_of-Inserted g.inserted in
      let (x, run', end) =
        new_root-IsTree laws two byte (record b { root = some l; store = s1 }) l r promo
          (tl ++ sep promo ∷ u) ((l.rrn ∷ ol) ++ (r.rrn ∷ or)) (seps_of t) refl children
          (Sorted-Marked (Sorted-Inserted some_id sorted g.inserted) g.marked)
          (subst (λ n. NoDup ((n ∷ ol) ++ (r.rrn ∷ or))) (sym same) g.apart)
          (λ id hit. seps_of-grown id g.inserted g.marked hit) in
      (
        x,
        (simp (b_insert, is_root, run)) ∙ run',
        subst (λ ks. Inserts laws two byte (suc depth) (seps_of t) ks x) keys end,
      )
  b_insert-end b {root} {s1} n k is_root sorted some_id run (no_number q gone) =
      ((error_io, record b { root = some q; store = s1 }), simp (b_insert, is_root, run), inl gone)

  -- On a search tree of this depth, with a key that is neither empty nor there and no separator,
  -- `b_insert` succeeds, and the result is a search tree with the keys of the old one and this key in
  -- its place; its leaves are again all at one depth, at most one more than before, and
  -- a separator is one of the old ones or a key. Only where no record number for a node is left after the
  -- call nothing is said of it. The order is from 2 to 255.
  pub b_insert-HasKeys :
      {b : BTree S} {depth : ℕ} {t : List Item} (n : ℕ) (k : Key)
      → IsTree order laws.page b depth t
      → depth < n
      → k.id ≢ []
      → has_key k.id (keys_of t) ≡ false
      → has_key k.id (seps_of t) ≡ false
      → Returns
          (b_insert pager n order b k)
          (Inserts laws two byte (suc depth) (seps_of t) (insert_key k (keys_of t)))
  b_insert-HasKeys {b} n k is fuel some_id new fresh =
      let (r, run, grown) =
        insert_key-Grown laws two byte n k fuel is.tree is.sorted is.apart is.root_page some_id new
          fresh in
      b_insert-end b n k is.is_root is.sorted some_id run grown

  -- The first key of an empty B-tree: `b_insert` makes a leaf with this key alone.
  pub new_tree-HasKeys :
      (b : BTree S) (n : ℕ) (k : Key)
      → b.root ≡ none
      → k.id ≢ []
      → Returns (b_insert pager n order b k) (Inserts laws two byte 0 [] (k ∷ []))
  unfolding b_insert new_tree keys_of seps_of
  new_tree-HasKeys b n k empty some_id =
      let (a, alloc, (p, is_p, keys, cells, kids, is_leaf, _, _, same)) = laws.alloc-page b.store in
      let (t, take, _) = laws.take_rrn-page a.1 in
      let (spare, put_key, key_len) = first-cell p.keys k (omega (arith, keys, two)) in
      let root : BTreeNode = record p { rrn = t.0; keys = k ∷ spare; keys_num = 1; leaf = true } in
      let (w, write, (wrote, at, others)) = laws.write-page t.1 root in
      (
        (success, record b { root = some root; store = w.1 }),
        simp (b_insert, empty, new_tree, alloc, is_p, take, put_key, write, wrote),
        inr (
          refl,
          record {
            depth = 0;
            shallow = omega arith;
            trace = entry k ∷ [];
            tree = record {
              node = root;
              own = [];
              is_root = refl;
              root_page = at;
              tree =
                  leaf (k ∷ []) refl (record { spare = spare; cells = refl; count = refl })
                    (record {
                      key_room = omega (arith, keys, key_len);
                      key_cells = omega (arith, cells, key_len);
                      child_room = kids;
                      few = omega (arith, two);
                    });
              sorted = Sorted.cons some_id Leads.nil Sorted.nil;
              apart = cons (λ i. elim i [ ]) nil;
            };
            keys_are = refl;
            seps_are = λ id hit. inl hit;
          },
        ),
      )
