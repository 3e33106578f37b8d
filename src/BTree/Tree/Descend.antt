-- ===== src/BTree/Tree/Descend.antt =====
-- `insert_key` of BTree.c on a search tree.
use gaveta.Base.{
  ℕ, zero, suc, ◌≤◌, ◌<◌, ◌≡◌, ◌≢◌, refl, sym, ◌∙◌, ap, subst, Bool, true, false, Option, none,
  some, List, [], ◌∷◌, ◌++◌, arith, length, take, drop, inl, inr, ok, ◌>>=◌, Returns, Bool-cases,
}
use gaveta.Heap.{Bytes}
use gaveta.BTree.{Key, BTreeNode}
use gaveta.BTree.Search.{Holds, has_key, count_smaller, search_in_btree_node-count}
use gaveta.BTree.Insert.{HoldsChildren}
use gaveta.BTree.Pager.{Pager, PagerLaws, NoNumber}
use gaveta.BTree.Tree.{success, error_io, Insertion, done, promoted, insert_here, insert_key}
use gaveta.BTree.Tree.Trace.{Item, sep, keys_of, seps_of, Sorted}
use gaveta.BTree.Tree.Shape.{Subtree, leaf, inner, Children, Fits, In, NoDup}
use gaveta.BTree.Tree.Order.{seps-Ascending, keys_of-map, map-Ascending}
use gaveta.BTree.Tree.Way.{seps-has_key}
use gaveta.BTree.Tree.Growth.{Sorted-Inserted, Sorted-Marked}
use gaveta.BTree.Tree.Find.{get_elem?-front}
use gaveta.BTree.Tree.Frame.{Regrown}
use gaveta.BTree.Tree.Replace.{Regrowth, Spot, spot}
use gaveta.BTree.Tree.Written.{one-Regrown}
use gaveta.BTree.Tree.Grown.{Grown, kept, divided, no_number, insert_here-leaf}
use gaveta.BTree.Tree.Inner.{Children-length, insert_here-inner}

elim_false : {A : Type 0} (b : Bool) (x y : A) → b ≡ false → elim b [ true ↦ x | false ↦ y ] ≡ y
elim_false b x y e = rw e refl

pub count_smaller-le : (id : Bytes) (ks : List Key) → count_smaller id ks ≤ length ks
unfolding count_smaller
count_smaller-le id [] = omega arith
count_smaller-le id (k ∷ ks) = ground (arith, count_smaller-le id ks)

pub head-apart : {r : ℕ} {rs : List ℕ} → NoDup (r ∷ rs) → ¬ In r rs
head-apart (NoDup.cons ne n) = ne

pub tail-NoDup : {r : ℕ} {rs : List ℕ} → NoDup (r ∷ rs) → NoDup rs
tail-NoDup (NoDup.cons ne n) = n

module _ {S : Type 0} {pager : Pager S} {order : ℕ} (laws : PagerLaws pager order) (two : 2 ≤ order)
    (byte : order < 256) where
  module _ {s : S} {p : BTreeNode} {depth : ℕ} (seps : List Key) (cs : List ℕ) (k : Key)
      {t : List Item} {own : List ℕ} (is_inner : p.leaf ≡ false) (holds : Holds p seps)
      (holds_cs : HoldsChildren p cs) (fits : Fits order p)
      (children : Children order (laws.page s) depth seps cs t own) (sorted : Sorted t)
      (apart : NoDup (p.rrn ∷ own)) (at : laws.page s p.rrn ≡ some p) (some_id : k.id ≢ []) where
    used : laws.page s p.rrn ≢ none
    used = λ e. let c = sym at ∙ e in cc

    -- The rest of the call, once the child has taken the key or has been divided.
    after-child :
        (w : Spot order (laws.page s) k depth seps cs t own (count_smaller k.id seps)) (n : ℕ)
        (l : Option BTreeNode × S) (i : Insertion) (s1 : S)
        → insert_key pager (suc n) order s p k ≡ (
            insert_key pager n order l.1 w.node k >>= λ i. elim i.0 [
              | done status child ↦ pager.release i.1 child >>= λ s. ok (done status p, s)
              | promoted child right key ↦ pager.release i.1 child >>= λ s.
                  insert_here pager order s p (some right.rrn) key (count_smaller k.id seps)
            ])
        → insert_key pager n order l.1 w.node k ≡ ok (i, s1)
        → Grown order
            (NoNumber pager s1)
            (laws.page s)
            (laws.page s1)
            k
            depth
            w.node
            w.trace
            w.below
            i
        → Returns (insert_key pager (suc n) order s p k) λ r.
          Grown order (NoNumber pager r.1) (laws.page s) (laws.page r.1) k (suc depth) p t own r.0
    after-child w n l i s1 start run (kept q t' own' same at_q tree g) =
        let here : w.node.rrn ≡ w.rrn = w.is_rrn in
        let (s2, release, same_pages) = laws.release-page s1 q in
        let grown =
          subst (λ f. Regrowth order (laws.page s) k f depth seps cs t own) (sym same_pages)
            (w.put (laws.page s1) q t' own' (ap (λ n. laws.page s1 n) (sym here) ∙ at_q)
              (same ∙ here) tree
              (subst
                (λ n. Regrown k (laws.page s) (laws.page s1) w.trace t' (n ∷ w.below) (n ∷ own'))
                here g)) in
        let still : laws.page s2 p.rrn ≡ some p =
          grown.grown.kept p.rrn (head-apart apart) used ∙ at in
        (
          (done success p, s2),
          start ∙ simp (run, release),
          kept p grown.trace grown.pages refl still
              (inner seps cs is_inner holds holds_cs fits grown.children)
              (one-Regrown p.rrn used (head-apart apart) grown.grown p still (λ x ne. refl)),
        )
    after-child w n l i s1 start run
          (divided q right promo tl u ol or same at_q at_r left_tree right_tree g) =
        let here : w.node.rrn ≡ w.rrn = w.is_rrn in
        let (s2, release, same_pages) = laws.release-page s1 q in
        let at_i = count_smaller k.id seps in
        let grown =
          subst
            (λ f.
              Regrowth order (laws.page s) k f depth (take at_i seps ++ promo ∷ drop at_i seps)
                (take (suc at_i) cs ++ right.rrn ∷ drop (suc at_i) cs) t own)
            (sym same_pages)
            (w.put_both (laws.page s1) q right promo tl u ol or
              (ap (λ n. laws.page s1 n) (sym here) ∙ at_q) (same ∙ here) at_r left_tree right_tree
              (subst
                (λ n.
                  Regrown k (laws.page s) (laws.page s1) w.trace (tl ++ sep promo ∷ u) (n ∷ w.below)
                    ((n ∷ ol) ++ (right.rrn ∷ or)))
                here g)) in
        let ascending : Sorted grown.trace =
          Sorted-Marked (Sorted-Inserted some_id sorted grown.grown.inserted) grown.grown.marked in
        let (r, here_run, end) =
          insert_here-inner laws two byte seps cs at_i promo right.rrn is_inner holds holds_cs fits
            (count_smaller-le k.id seps) (Children-length children) used (head-apart apart)
            grown.children ascending grown.grown in
        (r, start ∙ (simp (run, release)) ∙ here_run, end)
    after-child w n l i s1 start run (no_number q gone) =
        let (s2, release, same_pages) = laws.release-page s1 q in
        (
          (done error_io p, s2),
          start ∙ simp (run, release),
          no_number p (laws.release-NoNumber s1 s2 q release gone),
        )

  -- On the root of a search tree, with a key that is neither empty nor there, `insert_key` inserts it
  -- into the tree, or divides the root into two trees around a key to promote: the items keep their
  -- order, and pages that are not the tree's stay. It fails only where it leaves no record number. The
  -- order is from 2 to 255.
  pub insert_key-Grown :
      (n : ℕ) {s : S} {depth : ℕ} {p : BTreeNode} {t : List Item} {own : List ℕ} (k : Key)
      → depth < n
      → Subtree order (laws.page s) depth p t own
      → Sorted t
      → NoDup (p.rrn ∷ own)
      → laws.page s p.rrn ≡ some p
      → k.id ≢ []
      → has_key k.id (keys_of t) ≡ false
      → has_key k.id (seps_of t) ≡ false
      → Returns
          (insert_key pager n order s p k)
          λ r. Grown order (NoNumber pager r.1) (laws.page s) (laws.page r.1) k depth p t own r.0
  unfolding insert_key
  insert_key-Grown zero k fuel tree sorted apart at some_id new fresh = absurd (omega arith)
  insert_key-Grown (suc n) {p} k fuel (leaf ks is_leaf holds fits) sorted apart at some_id new
        fresh =
      let asc = map-Ascending ks sorted in
      let new' : has_key k.id ks ≡ false = ap (λ t. has_key k.id t) (sym (keys_of-map ks)) ∙ new in
      let run = search_in_btree_node-count k.id holds asc in
      let (r, here, end) =
        insert_here-leaf laws two byte ks k is_leaf holds fits asc at some_id new' in
      (r, simp (insert_key, run, new', is_leaf, here), end)
  insert_key-Grown (suc n) {s} {p} k fuel
        (inner {depth} seps cs {t} {own} is_inner holds holds_cs fits children) sorted apart at
        some_id new fresh =
      let i : ℕ = count_smaller k.id seps in
      let miss : has_key k.id seps ≡ false = elim (Bool-cases (has_key k.id seps)) [
        | inl hit ↦ absurd (let c = sym (seps-has_key k.id children hit) ∙ fresh in cc)
        | inr miss ↦ miss
      ] in
      let run = search_in_btree_node-count k.id holds (seps-Ascending children sorted) in
      let w = spot order (laws.page s) k children sorted (tail-NoDup apart) miss in
      let cell = get_elem?-front cs holds_cs.spare i holds_cs.cells w.at in
      let (l, load, (is, same)) = laws.load-page s w.rrn in
      let tree = subst (λ f. Subtree order f depth w.node w.trace w.below) (sym same) w.tree in
      let apart' = subst (λ n. NoDup (n ∷ w.below)) (sym w.is_rrn) w.apart in
      let at' : laws.page l.1 w.node.rrn ≡ some w.node =
        ap (λ f. f w.node.rrn) same ∙ ap (λ n. laws.page s n) w.is_rrn ∙ w.page_at in
      let (r, below, grown) =
        insert_key-Grown n k (omega (arith, fuel)) tree w.sorted apart' at' some_id
          (w.fresh_key new) (w.fresh_sep fresh) in
      after-child seps cs k is_inner holds holds_cs fits children sorted apart at some_id w n l r.0
        r.1
        (rw (insert_key, run, miss, ◌>>=◌)
          (elim_false p.leaf _ _ is_inner ∙ simp (cell, load, is ∙ w.page_at)))
        below
        (subst
          (λ f.
            Grown order (NoNumber pager r.1) f (laws.page r.1) k depth w.node w.trace w.below r.0)
          same grown)
