-- ===== src/BTree/Tree/NewRoot.antt =====
-- The new root that `b_insert` of BTree.c puts above the halves of the old one.
use gaveta.Base.{
  ℕ, suc, ◌≤◌, ◌<◌, ◌≡◌, ◌≢◌, refl, sym, ◌∙◌, ap, subst, Bool, true, false, Option, none, some,
  List, [], ◌∷◌, arith, ◌==◌, length, ltb, ◌⊎◌, inl, inr, ok, Returns, Bool-cases,
}
use gaveta.Heap.{Bytes}
use gaveta.BTree.{Key, BTreeNode, put_elem}
use gaveta.BTree.Search.{has_key}
use gaveta.BTree.Split.{no_child}
use gaveta.BTree.Pager.{Pager, PagerLaws, NoNumber}
use gaveta.BTree.Tree.{BTree, Status, success, new_root}
use gaveta.BTree.Tree.Trace.{Item, keys_of, seps_of, Sorted}
use gaveta.BTree.Tree.Shape.{inner, Children, In, NoDup, cons, IsTree}
use gaveta.BTree.Tree.Frame.{Children-page, Children-frame}

-- The first two cells of an array.
pub first-cell :
    {A : Type 0} (xs : List A) (x : A)
    → 1 ≤ length xs
    → (rest : List A) × (put_elem xs 0 x ≡ ok (x ∷ rest)) × (length (x ∷ rest) ≡ length xs)
unfolding put_elem
first-cell [] x room = absurd (omega arith)
first-cell (y ∷ xs) x room =
    let l : ltb 0 (length (y ∷ xs)) ≡ true = ground arith in (xs, rw (put_elem, l) refl, refl)

second-cell :
    {A : Type 0} (x : A) (xs : List A) (y : A)
    → 1 ≤ length xs
    → (rest : List A) × (put_elem (x ∷ xs) 1 y ≡ ok (x ∷ y ∷ rest))
      × (length (x ∷ y ∷ rest) ≡ length (x ∷ xs))
unfolding put_elem
second-cell x [] y room = absurd (omega arith)
second-cell x (z ∷ xs) y room =
    let l : ltb 1 (length (x ∷ z ∷ xs)) ≡ true = ground arith in (xs, rw (put_elem, l) refl, refl)

free_number : {n : ℕ} {A : Type 0} → (n ≡ no_child) ⊎ A → n ≢ no_child → A
free_number (inl e) ne = absurd (ne e)
free_number (inr a) ne = a

-- The B-tree `b` is a search tree with the keys `ks`, of this depth at most. Its separators are among
-- `old`, or are keys.
pub record HasKeys {S : Type 0} (order : ℕ) (page : S → ℕ → Option BTreeNode) (b : BTree S)
    (most : ℕ) (old ks : List Key) : Type 0 where
  pub depth : ℕ
  pub shallow : depth ≤ most
  pub trace : List Item
  pub tree : IsTree order page b depth trace
  pub keys_are : keys_of trace ≡ ks
  pub seps_are :
      (id : Bytes)
      → has_key id (seps_of trace) ≡ true
      → (has_key id old ≡ true) ⊎ (has_key id ks ≡ true)

module _ {S : Type 0} {pager : Pager S} {order : ℕ} (laws : PagerLaws pager order) (two : 2 ≤ order)
    (byte : order < 256) where
  -- The result of an insertion: a search tree with these keys, unless no record number is left.
  abbrev pub Inserts : ℕ → List Key → List Key → Status × BTree S → Type 0
  Inserts most old ks r =
      NoNumber pager r.1.store ⊎ ((r.0 ≡ success) × HasKeys order laws.page r.1 most old ks)

  -- The two trees under a new root.
  pub new_root-IsTree :
      {s1 : S} (b : BTree S) (l r : BTreeNode) (promo : Key) {depth : ℕ} (t : List Item)
      (own : List ℕ) (old : List Key)
      → b.store ≡ s1
      → Children order (laws.page s1) depth (promo ∷ []) (l.rrn ∷ r.rrn ∷ []) t own
      → Sorted t
      → NoDup own
      → ((id : Bytes)
          → has_key id (seps_of t) ≡ true
          → (has_key id old ≡ true) ⊎ (has_key id (keys_of t) ≡ true))
      → Returns (new_root pager b l r promo) (Inserts (suc depth) old (keys_of t))
  unfolding new_root
  new_root-IsTree {s1} b l r promo {depth} t own old is_s children sorted apart seps =
      let (a, alloc, (p, is_p, keys, cells, kids, _, _, _, same)) = laws.alloc-page s1 in
      let (n, take, (free, same')) = laws.take_rrn-page a.1 in
      let (spare, put_key, key_len) = first-cell p.keys promo (omega (arith, keys, two)) in
      let (c, put_l, l_len) = first-cell p.children l.rrn (omega (arith, kids)) in
      let (cs, put_r, r_len) = second-cell l.rrn c r.rrn (omega (arith, l_len, kids, two)) in
      let root : BTreeNode = record p {
        rrn = n.0;
        keys = promo ∷ spare;
        keys_num = 1;
        children = l.rrn ∷ r.rrn ∷ cs;
        child_num = 2;
        leaf = false;
      } in
      let (w, write, (wrote, at, others)) = laws.write-page n.1 root in
      let run : new_root pager b l r promo
          ≡ ok (success, record { root = some root; root_rrn = n.0; store = w.1 }) =
        new_root-run a n p spare c cs w (ap (λ s. pager.alloc s) is_s ∙ alloc) is_p take put_key
          put_l put_r write wrote in
      elim (Bool-cases (n.0 == no_child)) [
        | inl out ↦
            let gone : n.0 ≡ no_child = ground (arith, out) in
            (
              (success, record { root = some root; root_rrn = n.0; store = w.1 }),
              run,
              inl (
                  laws.write-NoNumber n.1 root w write
                    (laws.take_rrn-NoNumber a.1 n.1 (take ∙ ap (λ m. ok (m, n.1)) gone))),
            )
        | inr left_over ↦
            let named : n.0 ≢ no_child = ground (arith, left_over) in
            let fresh : laws.page s1 n.0 ≡ none =
              sym (ap (λ f. f n.0) same) ∙ free_number free named in
            let unused : ¬ In n.0 own = λ i. Children-page n.0 children i fresh in
            let frame : (x : ℕ) → In x own → laws.page w.1 x ≡ laws.page s1 x = λ x i.
              others x (λ e. unused (subst (λ y. In y own) e i)) ∙ ap (λ f. f x) (same' ∙ same) in
            (
              (success, record { root = some root; root_rrn = n.0; store = w.1 }),
              run,
              inr (
                refl,
                record {
                  depth = suc depth;
                  shallow = omega arith;
                  trace = t;
                  keys_are = refl;
                  seps_are = seps;
                  tree = record {
                    node = root;
                    own = own;
                    is_root = refl;
                    root_page = at;
                    tree =
                        inner (promo ∷ []) (l.rrn ∷ r.rrn ∷ []) refl
                          (record { spare = spare; cells = refl; count = refl })
                          (record { spare = cs; cells = refl; count = refl })
                          (record {
                            key_room = omega (arith, keys, key_len);
                            key_cells = omega (arith, cells, key_len);
                            child_room = omega (arith, kids, l_len, r_len);
                            few = omega (arith, two);
                          })
                          (Children-frame frame children);
                    sorted = sorted;
                    apart = cons unused apart;
                  };
                },
              ),
            )
      ]
    where
      new_root-run :
          (a : Option BTreeNode × S) (n : ℕ × S) (p : BTreeNode) (spare : List Key) (c cs : List ℕ)
          (w : Bool × S)
          → pager.alloc b.store ≡ ok a
          → a.0 ≡ some p
          → pager.take_rrn a.1 ≡ ok n
          → put_elem p.keys 0 promo ≡ ok (promo ∷ spare)
          → put_elem p.children 0 l.rrn ≡ ok (l.rrn ∷ c)
          → put_elem (l.rrn ∷ c) 1 r.rrn ≡ ok (l.rrn ∷ r.rrn ∷ cs)
          → pager.write n.1 (record p {
            rrn = n.0;
            keys = promo ∷ spare;
            keys_num = 1;
            children = l.rrn ∷ r.rrn ∷ cs;
            child_num = 2;
            leaf = false;
          })
            ≡ ok w
          → w.0 ≡ true
          → new_root pager b l r promo
            ≡ ok (
              success,
              record {
                root = some (record p {
                  rrn = n.0;
                  keys = promo ∷ spare;
                  keys_num = 1;
                  children = l.rrn ∷ r.rrn ∷ cs;
                  child_num = 2;
                  leaf = false;
                });
                root_rrn = n.0;
                store = w.1;
              },
            )
      new_root-run a n p spare c cs w alloc is take keys kids kids' write wrote =
          simp (new_root, alloc, is, take, keys, kids, kids', write, wrote)
